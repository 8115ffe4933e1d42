-- ===== src/Orchestrator/Register/Locations.antt =====
-- What the registration in apps/orchestrator/src/registration.ts leaves of where an evidence was.
use verichron_epoch.Prelude.{
  ℕ, ◌≡◌, refl, sym, ap, ◌∙◌, true, List, map, some, String, eq_refl, if◌then◌else◌,
}
use verichron_epoch.Prelude.Tables.{
  find, update_where, upsert, upsert-Settled, update_where-map, find-update_where,
}
use mathlib.Core.Path.{subst}
use verichron_epoch.Orchestrator.Register.{
  EvidenceLocation, location_added, Tables, is_location, seen_at, register_location,
}
use verichron_epoch.Orchestrator.Register.Rows.{event_only}

-- The evidence has been at this path on this host.
abbrev pub HasLocation : List EvidenceLocation → String → String → String → Type 0
HasLocation rows evidence_id host path =
    (row : EvidenceLocation) × (find (is_location evidence_id host path) rows ≡ some row)

-- A location changes no other table but the events.
pub register_location_tables :
    (t : Tables) (evidence_id host path : String) (now : ℕ)
    → let t' = register_location t evidence_id host path now in
      (t'.items ≡ t.items) × (t'.devices ≡ t.devices) × (t'.derivatives ≡ t.derivatives)
unfolding register_location
register_location_tables t evidence_id host path now =
    let u =
      upsert (is_location evidence_id host path) (seen_at now)
        (record { evidence_id = evidence_id; host = host; path = path; last_seen_at = now })
        t.locations in
    let kept =
      event_only u.2 (record t { locations = u.0 }) evidence_id host (location_added path) in
    (kept.0, kept.1, kept.3)

pub register_location-HasLocation :
    (t : Tables) (evidence_id host path : String) (now : ℕ)
    → HasLocation (register_location t evidence_id host path now).locations evidence_id host path
unfolding register_location
register_location-HasLocation t evidence_id host path now =
    let new : EvidenceLocation = record {
      evidence_id = evidence_id;
      host = host;
      path = path;
      last_seen_at = now;
    } in
    let u = upsert (is_location evidence_id host path) (seen_at now) new t.locations in
    let matches : is_location evidence_id host path new ≡ true =
      simp (eq_refl evidence_id, eq_refl host, eq_refl path) refl in
    let found =
      (upsert-Settled (is_location evidence_id host path) (seen_at now) (λ x. refl) new t.locations
        matches refl (λ x. refl)).0 in
    (
      u.1,
      subst (λ rows. find (is_location evidence_id host path) rows ≡ some u.1)
          (sym
            (event_only u.2 (record t { locations = u.0 }) evidence_id host
              (location_added path)).2)
          found,
    )

-- The locations with the time at which this one was last seen.
abbrev pub seen_again : String → String → String → ℕ → List EvidenceLocation → List EvidenceLocation
seen_again evidence_id host path now = map (λ (row : EvidenceLocation).
    if is_location evidence_id host path row then record row { last_seen_at = now } else row)

-- A location that is there is seen again, and no event is recorded.
pub register_location_again :
    (t : Tables) (evidence_id host path : String) (now : ℕ)
    → HasLocation t.locations evidence_id host path
    → register_location t evidence_id host path now
      ≡ record t { locations = seen_again evidence_id host path now t.locations }
unfolding register_location
register_location_again t evidence_id host path now (row, found) =
    let kept : register_location t evidence_id host path now ≡ record t {
      locations = update_where (is_location evidence_id host path) (seen_at now) t.locations;
    } =
      simp (found, upsert) refl in
    kept
    ∙ ap (λ (rows : List EvidenceLocation). record t { locations = rows })
        (update_where-map (is_location evidence_id host path) (seen_at now) t.locations)

-- A location that is there was last seen then.
abbrev pub SeenAt : List EvidenceLocation → String → String → String → ℕ → Type 0
SeenAt rows evidence_id host path now =
    (row : EvidenceLocation) × (find (is_location evidence_id host path) rows ≡ some row)
    × (row.last_seen_at ≡ now)

pub seen_again-SeenAt :
    (rows : List EvidenceLocation) (evidence_id host path : String) (now : ℕ)
    → HasLocation rows evidence_id host path
    → SeenAt (seen_again evidence_id host path now rows) evidence_id host path now
seen_again-SeenAt rows evidence_id host path now (row, found) = (
  seen_at now row,
  subst (λ locations. find (is_location evidence_id host path) locations ≡ some (seen_at now row))
      (update_where-map (is_location evidence_id host path) (seen_at now) rows)
      (find-update_where (is_location evidence_id host path) (seen_at now) (λ x. refl) rows row
        found),
  refl,
)
