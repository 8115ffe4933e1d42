-- ===== src/Orchestrator/Register.antt =====
-- registerEvidence of apps/orchestrator/src/registration.ts: one transaction over the evidence
-- tables, each a list of its rows. Ids and the time are parameters, as are the commits of other
-- connections between the SELECT and the first INSERT; a database call does not fail.
pub mod Rows
pub mod Locations
pub mod Again
pub mod Vouched
use verichron_epoch.Prelude.{
  ℕ, Bool, true, false, ◌&&◌, List, [], ◌∷◌, Option, none, some, String, Text, str_eq,
  if◌then◌else◌, text_eq,
}
use verichron_epoch.Prelude.Tables.{find, update_where, upsert}
use verichron_epoch.Contracts.{ToolVersion}
use verichron_epoch.Contracts.Identity.{DerivativeParams, Identity, provenance_key}
use verichron_epoch.Orchestrator.{Registration}
use verichron_epoch.Orchestrator.Evidence.{
  FilePath, same_path, Attempt, accepted, refused, ◌>>=◌, Node, Sidecar, Disk, locate_workspace,
  verify_sidecar, Device, read_device, Secret, load_device_secret, device_key, Provenance, Marker,
  Place, MadeFromDecrypt, Derivatives, verify_derivatives,
}

pub data DerivativeKind : Type 0 where
  decrypted ileapp_output crash_reports : DerivativeKind

pub record DeviceRow : Type 0 where
  pub device_id : String
  pub device_key : String
  pub label : Text

pub record EvidenceItem : Type 0 where
  pub evidence_id : String
  pub content_root : String
  pub device_id : String
  pub file_count : ℕ
  pub total_bytes : ℕ

pub record EvidenceLocation : Type 0 where
  pub evidence_id : String
  pub host : String
  pub path : String
  pub last_seen_at : ℕ

pub record DerivativeRow : Type 0 where
  pub derivative_id : String
  pub evidence_id : String
  pub kind : DerivativeKind
  pub path : FilePath
  pub parent_derivative_id : Option String
  pub provenance : Provenance
  pub provenance_key : String

pub data EventDetail : Type 0 where
  registered : String → ℕ → ℕ → String → EventDetail
  location_added : String → EventDetail
  derivative_registered : String → DerivativeKind → FilePath → ToolVersion → String → EventDetail

pub record EvidenceEvent : Type 0 where
  pub evidence_id : String
  pub host : String
  pub detail : EventDetail

-- Each table has its newest row first.
pub record Tables : Type 0 where
  pub devices : List DeviceRow
  pub items : List EvidenceItem
  pub locations : List EvidenceLocation
  pub derivatives : List DerivativeRow
  pub events : List EvidenceEvent

unfoldable pub append_event : Tables → String → String → EventDetail → Tables
append_event t evidence_id host detail = record t {
  events = record { evidence_id = evidence_id; host = host; detail = detail } ∷ t.events;
}

-- What the database and the outside give one registration.
pub record Fresh : Type 0 where
  pub device_id : String
  pub evidence_id : String
  pub decrypted_id : String
  pub ileapp_id : String
  pub crash_reports_id : String
  pub now : ℕ
  pub meanwhile : Tables → Tables

abbrev pub same_kind : DerivativeKind → DerivativeKind → Bool
same_kind decrypted decrypted = true
same_kind ileapp_output ileapp_output = true
same_kind crash_reports crash_reports = true
same_kind _ _ = false

-- NULLS NOT DISTINCT
abbrev pub same_parent : Option String → Option String → Bool
same_parent none none = true
same_parent (some a) (some b) = str_eq a b
same_parent _ _ = false

-- A derivative's identity, as the unique index of evidence_derivatives has it.
abbrev pub has_identity : String → DerivativeKind → Option String → String → DerivativeRow → Bool
has_identity evidence_id kind parent key row =
    str_eq row.evidence_id evidence_id
    && same_kind row.kind kind
    && same_parent row.parent_derivative_id parent
    && str_eq row.provenance_key key

-- DO UPDATE SET path = EXCLUDED.path, params = EXCLUDED.params
abbrev pub refresh_derivative : FilePath → DerivativeParams → DerivativeRow → DerivativeRow
refresh_derivative path params row = record row {
  path = path;
  provenance = record { tool = row.provenance.tool; params = params };
}

abbrev pub new_derivative :
    String
    → String
    → DerivativeKind
    → FilePath
    → Option String
    → Provenance
    → String
    → DerivativeRow
new_derivative id evidence_id kind path parent provenance key = record {
  derivative_id = id;
  evidence_id = evidence_id;
  kind = kind;
  path = path;
  parent_derivative_id = parent;
  provenance = provenance;
  provenance_key = key;
}

module _ (hash : ToolVersion → Identity → String) where
  unfoldable pub upsert_derivative :
      Tables
      → String
      → String
      → DerivativeKind
      → FilePath
      → Option String
      → String
      → Provenance
      → Tables × String
  unfolding upsert append_event
  upsert_derivative t id evidence_id kind path parent host provenance =
      let key = provenance_key hash provenance.tool provenance.params in
      let (rows, row, inserted) =
        upsert (has_identity evidence_id kind parent key)
          (refresh_derivative path provenance.params)
          (new_derivative id evidence_id kind path parent provenance key) t.derivatives in
      let t' = record t { derivatives = rows } in
      (
        if inserted
            then append_event t' evidence_id host
                (derivative_registered row.derivative_id kind path provenance.tool key)
            else t',
        row.derivative_id,
      )

  unfoldable pub upsert_made :
      Tables
      → String
      → String
      → DerivativeKind
      → Option String
      → String
      → Option MadeFromDecrypt
      → Tables × Option String
  unfolding upsert_derivative
  upsert_made t id evidence_id kind parent host none = (t, none)
  upsert_made t id evidence_id kind parent host (some made) =
      let (t', row_id) =
        upsert_derivative t id evidence_id kind made.path parent host made.provenance in
      (t', some row_id)

abbrev pub has_root : String → EvidenceItem → Bool
has_root root item = str_eq item.content_root root

abbrev pub has_device_key : String → DeviceRow → Bool
has_device_key key row = str_eq row.device_key key

-- DO UPDATE SET device_key = EXCLUDED.device_key, which is the one that the row has.
abbrev pub same_device : DeviceRow → DeviceRow
same_device row = row

-- ON CONFLICT (content_root) DO NOTHING, and the SELECT where another run was first. The ids of the
-- evidence and of its device.
unfoldable pub insert_item :
    Fresh → Sidecar → Text → String → String → Tables → Tables × (String × String)
unfolding upsert find append_event
insert_item fresh sidecar name key host t =
    let (devices, device, inserted) =
      upsert (has_device_key key) same_device
        (record { device_id = fresh.device_id; device_key = key; label = name }) t.devices in
    let t' = record t { devices = devices } in
    elim (find (has_root sidecar.content_root) t'.items) [
      | some raced ↦ (t', (raced.evidence_id, raced.device_id))
      | none ↦ (
        append_event
            (record t' {
              items =
                  record {
                    evidence_id = fresh.evidence_id;
                    content_root = sidecar.content_root;
                    device_id = device.device_id;
                    file_count = sidecar.file_count;
                    total_bytes = sidecar.total_bytes;
                  }
                  ∷ t'.items;
            })
            fresh.evidence_id host
            (registered sidecar.content_root sidecar.file_count sidecar.total_bytes
              sidecar.hashed_at),
        (fresh.evidence_id, device.device_id),
      )
    ]

unfoldable pub register_item :
    Fresh → Sidecar → Text → String → String → Tables → Tables × (String × String)
unfolding find insert_item
register_item fresh sidecar name key host t = elim (find (has_root sidecar.content_root) t.items) [
  | some known ↦ (t, (known.evidence_id, known.device_id))
  | none ↦ insert_item fresh sidecar name key host (fresh.meanwhile t)
]

abbrev pub is_location : String → String → String → EvidenceLocation → Bool
is_location evidence_id host path row =
    str_eq row.evidence_id evidence_id && str_eq row.host host && str_eq row.path path

abbrev pub seen_at : ℕ → EvidenceLocation → EvidenceLocation
seen_at now row = record row { last_seen_at = now }

unfoldable pub register_location : Tables → String → String → String → ℕ → Tables
unfolding upsert append_event
register_location t evidence_id host path now =
    let (locations, row, inserted) =
      upsert (is_location evidence_id host path) (seen_at now)
        (record { evidence_id = evidence_id; host = host; path = path; last_seen_at = now })
        t.locations in
    let t' = record t { locations = locations } in
    if inserted then append_event t' evidence_id host (location_added path) else t'

-- What the checks before the transaction found.
pub record Verified : Type 0 where
  pub sidecar : Sidecar
  pub device_name : Text
  pub key : String
  pub decrypted_path : FilePath
  pub derivatives : Derivatives

-- From BEGIN to COMMIT.
unfoldable pub register :
    (ToolVersion → Identity → String) → String → Verified → Fresh → Tables → Tables × Registration
unfolding register_item register_location upsert_derivative upsert_made
register hash host v fresh t =
    let (t1, ids) = register_item fresh v.sidecar v.device_name v.key host t in
    let t2 = register_location t1 ids.0 host v.sidecar.source_path fresh.now in
    let (t3, decrypted_id) =
      upsert_derivative hash t2 fresh.decrypted_id ids.0 decrypted v.decrypted_path none host
        v.derivatives.decrypt in
    let (t4, ileapp_id) =
      upsert_made hash t3 fresh.ileapp_id ids.0 ileapp_output (some decrypted_id) host
        v.derivatives.ileapp in
    let (t5, crash_reports_id) =
      upsert_made hash t4 fresh.crash_reports_id ids.0 crash_reports none host
        v.derivatives.crash_reports in
    (
      t5,
      record {
        evidence_id = ids.0;
        device_id = ids.1;
        decrypted_derivative_id = decrypted_id;
        ileapp_derivative_id = ileapp_id;
        crash_reports_derivative_id = crash_reports_id;
      },
    )

pub record RegistrationInput : Type 0 where
  pub backup_path : FilePath
  pub decrypt_marker : Option Marker
  pub ileapp : Option (FilePath × Place)
  pub crash_reports : Option (FilePath × Place)
  pub host : String
  pub windows : Bool
  pub secret_found : Option Secret
  pub secret_published : Option Secret
  pub secret_fresh : Text

-- Everything before BEGIN.
unfoldable pub verify : Node → Disk → RegistrationInput → Attempt Verified
unfolding locate_workspace verify_sidecar read_device load_device_secret device_key
    verify_derivatives
verify node disk input = do
  located ← locate_workspace input.backup_path
  sidecar ← verify_sidecar node disk located.0 located.1
  device ← read_device disk (input.backup_path ∷ node.resolve [] sidecar.source_path ∷ [])
  secret ←
      (load_device_secret input.windows input.secret_found input.secret_published
        input.secret_fresh).0
  derivatives ←
      verify_derivatives input.decrypt_marker input.ileapp input.crash_reports sidecar.content_root
  accepted (record {
    sidecar = sidecar;
    device_name = device.name;
    key = device_key node device.udid secret;
    decrypted_path = input.backup_path;
    derivatives = derivatives;
  })

unfoldable pub register_evidence :
    Node
    → (ToolVersion → Identity → String)
    → Disk
    → RegistrationInput
    → Fresh
    → Tables
    → Tables × Attempt Registration
unfolding verify register
register_evidence node hash disk input fresh t = elim (verify node disk input) [
  | refused e ↦ (t, refused e)
  | accepted v ↦ let (t', r) = register hash input.host v fresh t in (t', accepted r)
]
