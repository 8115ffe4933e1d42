-- ===== src/Orchestrator/Register/Rows.antt =====
-- What each statement of the registration in apps/orchestrator/src/registration.ts leaves in the
-- tables.
use verichron_epoch.Prelude.{
  ◌≡◌, refl, sym, ap, ◌∙◌, inl, inr, Bool, true, false, List, Option, none, some, String, Text,
  eq_refl, arith, if◌then◌else◌, Bool-cases,
}
use verichron_epoch.Prelude.Tables.{
  find, upsert, Settled, upsert-Settled, upsert_twice, upsert_other-Settled,
}
use mathlib.Core.Path.{subst}
use verichron_epoch.Contracts.{ToolVersion}
use verichron_epoch.Contracts.Identity.{Identity, provenance_key}
use verichron_epoch.Orchestrator.Evidence.{FilePath, Provenance, MadeFromDecrypt, Sidecar}
use verichron_epoch.Orchestrator.Register.{
  DerivativeKind, decrypted, ileapp_output, crash_reports, EvidenceItem, DerivativeRow, EventDetail,
  derivative_registered, Tables, append_event, Fresh, same_kind, same_parent, has_identity,
  refresh_derivative, new_derivative, upsert_derivative, upsert_made, has_root, has_device_key,
  same_device, insert_item, register_item,
}

-- The evidence with this content root, and the device it is of.
abbrev pub HasItem : String → List EvidenceItem → String → String → Type 0
HasItem root items evidence_id device_id =
    (item : EvidenceItem) × (find (has_root root) items ≡ some item)
    × (item.evidence_id ≡ evidence_id)
    × (item.device_id ≡ device_id)

same_kind_refl : (k : DerivativeKind) → same_kind k k ≡ true
same_kind_refl decrypted = refl
same_kind_refl ileapp_output = refl
same_kind_refl crash_reports = refl

same_parent_refl : (p : Option String) → same_parent p p ≡ true
same_parent_refl none = refl
same_parent_refl (some p) = eq_refl p

kinds_apart :
    (k a b : DerivativeKind) → same_kind a b ≡ false → same_kind k b ≡ true → same_kind k a ≡ false
kinds_apart decrypted decrypted b e h = absurd (ground arith)
kinds_apart decrypted ileapp_output b e h = refl
kinds_apart decrypted crash_reports b e h = refl
kinds_apart ileapp_output decrypted b e h = refl
kinds_apart ileapp_output ileapp_output b e h = absurd (ground arith)
kinds_apart ileapp_output crash_reports b e h = refl
kinds_apart crash_reports decrypted b e h = refl
kinds_apart crash_reports ileapp_output b e h = refl
kinds_apart crash_reports crash_reports b e h = absurd (ground arith)

has_identity_refl :
    (evidence_id key : String) (kind : DerivativeKind) (parent : Option String)
    (row : DerivativeRow)
    → row.evidence_id ≡ evidence_id
    → row.kind ≡ kind
    → row.parent_derivative_id ≡ parent
    → row.provenance_key ≡ key
    → has_identity evidence_id kind parent key row ≡ true
has_identity_refl evidence_id key kind parent row a b c d =
    simp
      (a, b, c, d, eq_refl evidence_id, eq_refl key, same_kind_refl kind, same_parent_refl parent)
      refl

other_kind :
    (e e' key key' : String) (a b : DerivativeKind) (p p' : Option String) (row : DerivativeRow)
    → same_kind a b ≡ false
    → has_identity e' b p' key' row ≡ true
    → has_identity e a p key row ≡ false
other_kind e e' key key' a b p p' row apart h = elim (Bool-cases (same_kind row.kind a)) [
  | inl same ↦ absurd (ground (arith, kinds_apart row.kind a b apart))
  | inr differs ↦ ground arith
]

-- An event changes no other table.
pub event_only :
    (b : Bool) (t : Tables) (evidence_id host : String) (detail : EventDetail)
    → let t' = if b then append_event t evidence_id host detail else t in
      (t'.items ≡ t.items)
      × (t'.devices ≡ t.devices)
      × (t'.locations ≡ t.locations)
      × (t'.derivatives ≡ t.derivatives)
unfolding append_event
event_only true t evidence_id host detail = (refl, refl, refl, refl)
event_only false t evidence_id host detail = (refl, refl, refl, refl)

module _ (hash : ToolVersion → Identity → String) where
  abbrev pub key_of : Provenance → String
  key_of provenance = provenance_key hash provenance.tool provenance.params

  -- The derivative of this identity is in the table under the id, with this path and these params.
  abbrev pub HasDerivative :
      List DerivativeRow
      → String
      → DerivativeKind
      → FilePath
      → Option String
      → Provenance
      → String
      → Type 0
  HasDerivative rows evidence_id kind path parent provenance id =
      (row : DerivativeRow) × (row.derivative_id ≡ id)
      × Settled (has_identity evidence_id kind parent (key_of provenance))
          (refresh_derivative path provenance.params) row rows

  abbrev pub HasMade :
      List DerivativeRow
      → String
      → DerivativeKind
      → Option String
      → Option MadeFromDecrypt
      → Option String
      → Type 0
  HasMade rows evidence_id kind parent none id = id ≡ none
  HasMade rows evidence_id kind parent (some made) id =
      (row_id : String) × (id ≡ some row_id)
      × HasDerivative rows evidence_id kind made.path parent made.provenance row_id

  abbrev pub upserted :
      (t : Tables) (id evidence_id : String) (kind : DerivativeKind) (path : FilePath)
      (parent : Option String) (provenance : Provenance)
      → List DerivativeRow × DerivativeRow × Bool
  upserted t id evidence_id kind path parent provenance =
      upsert (has_identity evidence_id kind parent (key_of provenance))
        (refresh_derivative path provenance.params)
        (new_derivative id evidence_id kind path parent provenance (key_of provenance))
        t.derivatives

  pub upsert_derivative_tables :
      (t : Tables) (id evidence_id : String) (kind : DerivativeKind) (path : FilePath)
      (parent : Option String) (host : String) (provenance : Provenance)
      → let t' = (upsert_derivative hash t id evidence_id kind path parent host provenance).0 in
        (t'.items ≡ t.items)
        × (t'.devices ≡ t.devices)
        × (t'.locations ≡ t.locations)
        × (t'.derivatives ≡ (upserted t id evidence_id kind path parent provenance).0)
  unfolding upsert_derivative
  upsert_derivative_tables t id evidence_id kind path parent host provenance =
      let u = upserted t id evidence_id kind path parent provenance in
      event_only u.2 (record t { derivatives = u.0 }) evidence_id host
        (derivative_registered u.1.derivative_id kind path provenance.tool (key_of provenance))

  pub upsert_derivative-HasDerivative :
      (t : Tables) (id evidence_id : String) (kind : DerivativeKind) (path : FilePath)
      (parent : Option String) (host : String) (provenance : Provenance)
      → let (t', row_id) =
          upsert_derivative hash t id evidence_id kind path parent host provenance in
        HasDerivative t'.derivatives evidence_id kind path parent provenance row_id
  unfolding upsert_derivative
  upsert_derivative-HasDerivative t id evidence_id kind path parent host provenance =
      let u = upserted t id evidence_id kind path parent provenance in
      let new : DerivativeRow =
        new_derivative id evidence_id kind path parent provenance (key_of provenance) in
      let settled : Settled (has_identity evidence_id kind parent (key_of provenance))
          (refresh_derivative path provenance.params) u.1 u.0 =
        upsert-Settled (has_identity evidence_id kind parent (key_of provenance))
          (refresh_derivative path provenance.params) (λ x. refl) new t.derivatives
          (has_identity_refl evidence_id (key_of provenance) kind parent new refl refl refl refl)
          refl (λ x. refl) in
      subst (λ rows. HasDerivative rows evidence_id kind path parent provenance u.1.derivative_id)
        (sym (upsert_derivative_tables t id evidence_id kind path parent host provenance).3)
        (u.1, refl, settled)

  -- A derivative of another kind leaves it there.
  pub upsert_derivative_other :
      (t : Tables) (id evidence_id : String) (kind : DerivativeKind) (path : FilePath)
      (parent : Option String) (host : String) (provenance : Provenance) (e : String)
      (k : DerivativeKind) (path' : FilePath) (p : Option String) (made : Provenance) (i : String)
      → same_kind k kind ≡ false
      → HasDerivative t.derivatives e k path' p made i
      → HasDerivative
          (upsert_derivative hash t id evidence_id kind path parent host provenance).0.derivatives
          e
          k
          path'
          p
          made
          i
  upsert_derivative_other t id evidence_id kind path parent host provenance e k path' p made i apart
        (row, same, settled) =
      let new : DerivativeRow =
        new_derivative id evidence_id kind path parent provenance (key_of provenance) in
      subst (λ rows. HasDerivative rows e k path' p made i)
        (sym (upsert_derivative_tables t id evidence_id kind path parent host provenance).3)
        (
          row,
          same,
          upsert_other-Settled (has_identity e k p (key_of made))
              (has_identity evidence_id kind parent (key_of provenance))
              (refresh_derivative path' made.params) (refresh_derivative path provenance.params)
              (λ x. refl)
              (λ x h.
                other_kind e evidence_id (key_of made) (key_of provenance) k kind p parent x apart
                  h)
              new t.derivatives row
              (other_kind e evidence_id (key_of made) (key_of provenance) k kind p parent new apart
                (has_identity_refl evidence_id (key_of provenance) kind parent new refl refl refl
                  refl))
              settled,
        )

  -- Registered again, it is found, and nothing changes.
  pub upsert_derivative_again :
      (t : Tables) (id evidence_id : String) (kind : DerivativeKind) (path : FilePath)
      (parent : Option String) (host : String) (provenance : Provenance) (row_id : String)
      → HasDerivative t.derivatives evidence_id kind path parent provenance row_id
      → upsert_derivative hash t id evidence_id kind path parent host provenance ≡ (t, row_id)
  unfolding upsert_derivative append_event
  upsert_derivative_again t id evidence_id kind path parent host provenance row_id
        (row, same, settled) =
      simp
        (
          upsert_twice (has_identity evidence_id kind parent (key_of provenance))
              (refresh_derivative path provenance.params)
              (new_derivative id evidence_id kind path parent provenance (key_of provenance))
              t.derivatives row settled,
          same,
        )
        refl

  pub upsert_made_tables :
      (t : Tables) (id evidence_id : String) (kind : DerivativeKind) (parent : Option String)
      (host : String) (made : Option MadeFromDecrypt)
      → let t' = (upsert_made hash t id evidence_id kind parent host made).0 in
        (t'.items ≡ t.items) × (t'.devices ≡ t.devices) × (t'.locations ≡ t.locations)
  unfolding upsert_made
  upsert_made_tables t id evidence_id kind parent host none = (refl, refl, refl)
  upsert_made_tables t id evidence_id kind parent host (some made) =
      let kept =
        upsert_derivative_tables t id evidence_id kind made.path parent host made.provenance in
      (kept.0, kept.1, kept.2)

  pub upsert_made-HasMade :
      (t : Tables) (id evidence_id : String) (kind : DerivativeKind) (parent : Option String)
      (host : String) (made : Option MadeFromDecrypt)
      → let (t', made_id) = upsert_made hash t id evidence_id kind parent host made in
        HasMade t'.derivatives evidence_id kind parent made made_id
  unfolding upsert_made
  upsert_made-HasMade t id evidence_id kind parent host none = refl
  upsert_made-HasMade t id evidence_id kind parent host (some made) = (
    (upsert_derivative hash t id evidence_id kind made.path parent host made.provenance).1,
    refl,
    upsert_derivative-HasDerivative t id evidence_id kind made.path parent host made.provenance,
  )

  pub upsert_made_other :
      (t : Tables) (id evidence_id : String) (kind : DerivativeKind) (parent : Option String)
      (host : String) (other : Option MadeFromDecrypt) (e : String) (k : DerivativeKind)
      (path : FilePath) (p : Option String) (made : Provenance) (i : String)
      → same_kind k kind ≡ false
      → HasDerivative t.derivatives e k path p made i
      → HasDerivative
          (upsert_made hash t id evidence_id kind parent host other).0.derivatives
          e
          k
          path
          p
          made
          i
  unfolding upsert_made
  upsert_made_other t id evidence_id kind parent host none e k path p made i apart h = h
  upsert_made_other t id evidence_id kind parent host (some other) e k path p made i apart h =
      upsert_derivative_other t id evidence_id kind other.path parent host other.provenance e k path
        p made i apart h

  pub upsert_made-HasMade_other :
      (t : Tables) (id evidence_id : String) (kind : DerivativeKind) (parent : Option String)
      (host : String) (other : Option MadeFromDecrypt) (e : String) (k : DerivativeKind)
      (p : Option String) (made : Option MadeFromDecrypt) (i : Option String)
      → same_kind k kind ≡ false
      → HasMade t.derivatives e k p made i
      → HasMade
          (upsert_made hash t id evidence_id kind parent host other).0.derivatives
          e
          k
          p
          made
          i
  upsert_made-HasMade_other t id evidence_id kind parent host other e k p none i apart h = h
  upsert_made-HasMade_other t id evidence_id kind parent host other e k p (some made) i apart
        (row_id, same, h) =
      (
        row_id,
        same,
        upsert_made_other t id evidence_id kind parent host other e k made.path p made.provenance
            row_id apart h,
      )

  pub upsert_made_again :
      (t : Tables) (id evidence_id : String) (kind : DerivativeKind) (parent : Option String)
      (host : String) (made : Option MadeFromDecrypt) (made_id : Option String)
      → HasMade t.derivatives evidence_id kind parent made made_id
      → upsert_made hash t id evidence_id kind parent host made ≡ (t, made_id)
  unfolding upsert_made
  upsert_made_again t id evidence_id kind parent host none made_id h =
      ap (λ (i : Option String). (t, i)) (sym h)
  upsert_made_again t id evidence_id kind parent host (some made) made_id (row_id, same, h) =
      ap (λ (x : Tables × String). (x.0, some x.1))
        (upsert_derivative_again t id evidence_id kind made.path parent host made.provenance row_id
          h)
      ∙ ap (λ (i : Option String). (t, i)) (sym same)

pub register_item-HasItem :
    (fresh : Fresh) (sidecar : Sidecar) (name : Text) (key host : String) (t : Tables)
    → let (t', ids) = register_item fresh sidecar name key host t in
      HasItem sidecar.content_root t'.items ids.0 ids.1
unfolding register_item insert_item append_event find
register_item-HasItem fresh sidecar name key host t =
    go (find (has_root sidecar.content_root) t.items) refl
  where
    inserts :
        (t : Tables) (o : Option EvidenceItem)
        → find (has_root sidecar.content_root) t.items ≡ o
        → let (t', ids) = insert_item fresh sidecar name key host t in
          HasItem sidecar.content_root t'.items ids.0 ids.1
    inserts t none e =
        let new_item : EvidenceItem = record {
          evidence_id = fresh.evidence_id;
          content_root = sidecar.content_root;
          device_id =
              (upsert (has_device_key key) same_device
                (record { device_id = fresh.device_id; device_key = key; label = name })
                t.devices).1.device_id;
          file_count = sidecar.file_count;
          total_bytes = sidecar.total_bytes;
        } in
        simp (e, insert_item) (simp (eq_refl sidecar.content_root) (new_item, refl, refl, refl))
    inserts t (some raced) e = simp (e, insert_item) (raced, refl, refl, refl)

    go :
        (o : Option EvidenceItem)
        → find (has_root sidecar.content_root) t.items ≡ o
        → let (t', ids) = register_item fresh sidecar name key host t in
          HasItem sidecar.content_root t'.items ids.0 ids.1
    go none e =
        simp (e, register_item)
          (inserts (fresh.meanwhile t)
            (find (has_root sidecar.content_root) (fresh.meanwhile t).items) refl)
    go (some known) e = simp (e, register_item) (known, refl, refl, refl)

pub register_item_again :
    (fresh : Fresh) (sidecar : Sidecar) (name : Text) (key host : String) (t : Tables)
    (e d : String)
    → HasItem sidecar.content_root t.items e d
    → register_item fresh sidecar name key host t ≡ (t, (e, d))
unfolding register_item
register_item_again fresh sidecar name key host t e d (item, found, same_e, same_d) =
    simp (found, register_item) (simp (same_e, same_d) refl)
