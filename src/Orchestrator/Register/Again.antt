-- ===== src/Orchestrator/Register/Again.antt =====
-- Registering evidence, and registering it again: apps/orchestrator/src/registration.ts.
use mathlib.Core.Path.{subst}
use verichron_epoch.Prelude.{
  ◌≡◌, refl, sym, ap, ◌∙◌, map, Option, none, some, String, Text, if◌then◌else◌,
}
use verichron_epoch.Contracts.{ToolVersion}
use verichron_epoch.Contracts.Identity.{Identity}
use verichron_epoch.Orchestrator.{Registration}
use verichron_epoch.Orchestrator.Register.{
  decrypted, ileapp_output, crash_reports, Tables, Fresh, upsert_derivative, upsert_made,
  register_item, register_location, Verified, register, is_location,
}
use verichron_epoch.Orchestrator.Register.Locations.{
  HasLocation, register_location_tables, register_location-HasLocation, register_location_again,
  seen_again, SeenAt, seen_again-SeenAt,
}
use verichron_epoch.Orchestrator.Register.Rows.{
  HasItem, HasDerivative, HasMade, upsert_derivative_tables, upsert_derivative-HasDerivative,
  upsert_derivative_again, upsert_made_tables, upsert_made-HasMade, upsert_made_other,
  upsert_made-HasMade_other, upsert_made_again, register_item-HasItem, register_item_again,
}

-- The tables hold the registration: the evidence by its content root, where it was, and each
-- derivative under the id that the registration gives, made from that evidence.
abbrev pub Registered :
    (ToolVersion → Identity → String) → String → Verified → Tables → Registration → Type 0
Registered hash host v t r =
    HasItem v.sidecar.content_root t.items r.evidence_id r.device_id
    × HasLocation t.locations r.evidence_id host v.sidecar.source_path
    × HasDerivative hash t.derivatives r.evidence_id decrypted v.decrypted_path none
        v.derivatives.decrypt r.decrypted_derivative_id
    × HasMade hash t.derivatives r.evidence_id ileapp_output (some r.decrypted_derivative_id)
        v.derivatives.ileapp r.ileapp_derivative_id
    × HasMade hash t.derivatives r.evidence_id crash_reports none v.derivatives.crash_reports
        r.crash_reports_derivative_id

pub register-Registered :
    (hash : ToolVersion → Identity → String) (host : String) (v : Verified) (fresh : Fresh)
    (t : Tables)
    → let (t', r) = register hash host v fresh t in Registered hash host v t' r
unfolding register
register-Registered hash host v fresh t =
    let (t1, ids) = register_item fresh v.sidecar v.device_name v.key host t in
    let e = ids.0 in
    let t2 : Tables = register_location t1 e host v.sidecar.source_path fresh.now in
    let d = v.derivatives.decrypt in
    let (t3, decrypted_id) =
      upsert_derivative hash t2 fresh.decrypted_id e decrypted v.decrypted_path none host d in
    let (t4, ileapp_id) =
      upsert_made hash t3 fresh.ileapp_id e ileapp_output (some decrypted_id) host
        v.derivatives.ileapp in
    let l2 = register_location_tables t1 e host v.sidecar.source_path fresh.now in
    let l3 =
      upsert_derivative_tables hash t2 fresh.decrypted_id e decrypted v.decrypted_path none host
        d in
    let l4 =
      upsert_made_tables hash t3 fresh.ileapp_id e ileapp_output (some decrypted_id) host
        v.derivatives.ileapp in
    let l5 =
      upsert_made_tables hash t4 fresh.crash_reports_id e crash_reports none host
        v.derivatives.crash_reports in
    let made =
      upsert_derivative-HasDerivative hash t2 fresh.decrypted_id e decrypted v.decrypted_path none
        host d in
    let after_ileapp =
      upsert_made_other hash t3 fresh.ileapp_id e ileapp_output (some decrypted_id) host
        v.derivatives.ileapp e decrypted v.decrypted_path none d decrypted_id refl made in
    (
      subst (λ items. HasItem v.sidecar.content_root items e ids.1)
          (sym (l5.0 ∙ (l4.0 ∙ (l3.0 ∙ l2.0))))
          (register_item-HasItem fresh v.sidecar v.device_name v.key host t),
      subst (λ rows. HasLocation rows e host v.sidecar.source_path) (sym (l5.2 ∙ (l4.2 ∙ l3.2)))
          (register_location-HasLocation t1 e host v.sidecar.source_path fresh.now),
      upsert_made_other hash t4 fresh.crash_reports_id e crash_reports none host
          v.derivatives.crash_reports e decrypted v.decrypted_path none d decrypted_id refl
          after_ileapp,
      upsert_made-HasMade_other hash t4 fresh.crash_reports_id e crash_reports none host
          v.derivatives.crash_reports e ileapp_output (some decrypted_id) v.derivatives.ileapp
          ileapp_id refl
          (upsert_made-HasMade hash t3 fresh.ileapp_id e ileapp_output (some decrypted_id) host
            v.derivatives.ileapp),
      upsert_made-HasMade hash t4 fresh.crash_reports_id e crash_reports none host
          v.derivatives.crash_reports,
    )

-- `register` from each of its steps on.
module _ (hash : ToolVersion → Identity → String) (host : String) (v : Verified) (fresh : Fresh)
    (ids : String × String) where
  with_crash : String → Option String → Tables × Option String → Tables × Registration
  with_crash decrypted_id ileapp_id (t, crash_reports_id) = (
    t,
    record {
      evidence_id = ids.0;
      device_id = ids.1;
      decrypted_derivative_id = decrypted_id;
      ileapp_derivative_id = ileapp_id;
      crash_reports_derivative_id = crash_reports_id;
    },
  )

  with_ileapp : String → Tables × Option String → Tables × Registration
  unfolding with_crash
  with_ileapp decrypted_id (t, ileapp_id) = with_crash decrypted_id ileapp_id (
      upsert_made hash t fresh.crash_reports_id ids.0 crash_reports none host
        v.derivatives.crash_reports)

  with_decrypt : Tables × String → Tables × Registration
  unfolding with_ileapp
  with_decrypt (t, decrypted_id) = with_ileapp decrypted_id (
      upsert_made hash t fresh.ileapp_id ids.0 ileapp_output (some decrypted_id) host
        v.derivatives.ileapp)

  with_location : Tables → Tables × Registration
  unfolding with_decrypt
  with_location t = with_decrypt (
      upsert_derivative hash t fresh.decrypted_id ids.0 decrypted v.decrypted_path none host
        v.derivatives.decrypt)

with_item :
    (ToolVersion → Identity → String)
    → String
    → Verified
    → Fresh
    → Tables × (String × String)
    → Tables × Registration
unfolding with_location
with_item hash host v fresh (t, ids) =
    with_location hash host v fresh ids
      (register_location t ids.0 host v.sidecar.source_path fresh.now)

-- Registering what is registered changes nothing but when the evidence was last seen.
register_again :
    (hash : ToolVersion → Identity → String) (host : String) (v : Verified) (fresh : Fresh)
    (t : Tables) (r : Registration) (key : String) (name : Text)
    → Registered hash host v t r
    → register hash host (record v { key = key; device_name = name }) fresh t ≡ (
      record t {
        locations = seen_again r.evidence_id host v.sidecar.source_path fresh.now t.locations;
      },
      r,
    )
unfolding register with_item
register_again hash host v fresh t r key name (item, place, made, ileapp, crash) =
    let seen = register_location_again t r.evidence_id host v.sidecar.source_path fresh.now place in
    let t' : Tables = record t {
      locations = seen_again r.evidence_id host v.sidecar.source_path fresh.now t.locations;
    } in
    let ids : String × String = (r.evidence_id, r.device_id) in
    ap (with_item hash host v fresh)
      (register_item_again fresh v.sidecar name key host t r.evidence_id r.device_id item)
    ∙ ap (with_location hash host v fresh ids) seen
    ∙ ap (with_decrypt hash host v fresh ids) (
        upsert_derivative_again hash t' fresh.decrypted_id r.evidence_id decrypted v.decrypted_path
          none host v.derivatives.decrypt r.decrypted_derivative_id made)
    ∙ ap (with_ileapp hash host v fresh ids r.decrypted_derivative_id) (
        upsert_made_again hash t' fresh.ileapp_id r.evidence_id ileapp_output
          (some r.decrypted_derivative_id) host v.derivatives.ileapp r.ileapp_derivative_id ileapp)
    ∙ ap (with_crash hash host v fresh ids r.decrypted_derivative_id r.ileapp_derivative_id) (
        upsert_made_again hash t' fresh.crash_reports_id r.evidence_id crash_reports none host
          v.derivatives.crash_reports r.crash_reports_derivative_id crash)

-- Evidence that is registered a second time, from the same files, has the registration it had. The
-- devices, the evidence, the derivatives and the events stay as they are, row for row; and so do the
-- locations, but that this evidence's location on this host, which is there, was last seen at the
-- time of the second registration. This holds also where the device's key or name is another by
-- then, as after the loss of the secret.
pub register-register :
    (hash : ToolVersion → Identity → String) (host : String) (v : Verified) (fresh later : Fresh)
    (t : Tables) (key : String) (name : Text)
    → let (t', r) = register hash host v fresh t in
      let (t'', r') = register hash host (record v { key = key; device_name = name }) later t' in
      (r' ≡ r)
      × (t''.devices ≡ t'.devices)
      × (t''.items ≡ t'.items)
      × (t''.derivatives ≡ t'.derivatives)
      × (t''.events ≡ t'.events)
      × (t''.locations
          ≡ map
              (λ row.
                if is_location r.evidence_id host v.sidecar.source_path row
                then record row { last_seen_at = later.now }
                else row)
              t'.locations)
      × SeenAt t''.locations r.evidence_id host v.sidecar.source_path later.now
register-register hash host v fresh later t key name =
    let (t', r) = register hash host v fresh t in
    let registered : Registered hash host v t' r = register-Registered hash host v fresh t in
    let same = register_again hash host v later t' r key name registered in
    (
      ap (λ (x : Tables × Registration). x.1) same,
      ap (λ (x : Tables × Registration). x.0.devices) same,
      ap (λ (x : Tables × Registration). x.0.items) same,
      ap (λ (x : Tables × Registration). x.0.derivatives) same,
      ap (λ (x : Tables × Registration). x.0.events) same,
      ap (λ (x : Tables × Registration). x.0.locations) same,
      subst
          (λ (x : Tables × Registration).
            SeenAt x.0.locations r.evidence_id host v.sidecar.source_path later.now)
          (sym same)
          (seen_again-SeenAt t'.locations r.evidence_id host v.sidecar.source_path later.now
            registered.1),
    )
