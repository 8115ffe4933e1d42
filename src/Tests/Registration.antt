-- ===== src/Tests/Registration.antt =====
-- The theorems on the registration of evidence at concrete inputs.
use verichron_epoch.Prelude.{◌≡◌, map, if◌then◌else◌, false, [], ◌∷◌, none, some, String, codes}
use verichron_epoch.Contracts.{ToolVersion}
use verichron_epoch.Contracts.Identity.{Identity, decrypt_params}
use verichron_epoch.Contracts.{skipped}
use verichron_epoch.Orchestrator.Evidence.{Node, Sidecar, Disk, valid, xml, Marker}
use verichron_epoch.Orchestrator.Register.{
  Tables, Fresh, Verified, register, RegistrationInput, register_evidence, is_location,
}
use verichron_epoch.Orchestrator.Register.Locations.{SeenAt}
use verichron_epoch.Orchestrator.Register.Again.{register-register}
use verichron_epoch.Orchestrator.Register.Vouched.{VouchedResult, register_evidence-Vouched}

abbrev hash : ToolVersion → Identity → String
hash tool identity = "key"

abbrev node : Node
node = record {
  resolve = λ dir path. "root.sha256" ∷ "manifests" ∷ "phone" ∷ "evidence" ∷ "workspace" ∷ [];
  sha256 = λ bytes. "root";
  hmac = λ secret udid. "device key";
}

abbrev sidecar : Sidecar
sidecar = record {
  evidence_name = "phone";
  content_root = "root";
  manifest_path = "evidence/phone/manifests/root.sha256";
  file_count = 2;
  total_bytes = 10;
  source_path = "/backups/phone";
  hashed_at = "2026-11-01T00:00:00Z";
}

abbrev disk : Disk
disk = record {
  sidecar = λ path. valid sidecar;
  manifest = λ path. some (codes "0f  a");
  info_plist = λ path. some (xml ((codes "Unique Identifier", codes "00008") ∷ []));
}

abbrev marker : Marker
marker = record {
  content_root = "root";
  provenance = record {
    tool = record { name = "decrypt"; version = "1" };
    params = decrypt_params (skipped "no sqlite");
  };
}

abbrev input : RegistrationInput
input = record {
  backup_path = "phone" ∷ "decrypted" ∷ "workspace" ∷ [];
  decrypt_marker = some marker;
  ileapp = none;
  crash_reports = none;
  host = "host";
  windows = false;
  secret_found = none;
  secret_published = none;
  secret_fresh = codes "0000000000000000000000000000000000000000000000000000000000000000";
}

abbrev no_rows : Tables
no_rows = record { devices = []; items = []; locations = []; derivatives = []; events = [] }

abbrev first_time : Fresh
first_time = record {
  device_id = "d1";
  evidence_id = "e1";
  decrypted_id = "x1";
  ileapp_id = "x2";
  crash_reports_id = "x3";
  now = 1;
  meanwhile = λ t. t;
}

abbrev second_time : Fresh
second_time = record {
  device_id = "d2";
  evidence_id = "e2";
  decrypted_id = "y1";
  ileapp_id = "y2";
  crash_reports_id = "y3";
  now = 2;
  meanwhile = λ t. t;
}

abbrev verified : Verified
verified = record {
  sidecar = sidecar;
  device_name = codes "Phone";
  key = "device key";
  decrypted_path = "phone" ∷ "decrypted" ∷ "workspace" ∷ [];
  derivatives = record { decrypt = marker.provenance; ileapp = none; crash_reports = none };
}

register-register_example :
    let (t', r) = register hash "host" verified first_time no_rows in
    let (t'', r') =
      register hash "host"
        (record verified { key = "another"; device_name = codes "iPhone" })
        second_time
        t' in
    (r' ≡ r)
    × (t''.devices ≡ t'.devices)
    × (t''.items ≡ t'.items)
    × (t''.derivatives ≡ t'.derivatives)
    × (t''.events ≡ t'.events)
    × (t''.locations
        ≡ map
            (λ row.
              if is_location r.evidence_id "host" sidecar.source_path row
              then record row { last_seen_at = 2 }
              else row)
            t'.locations)
    × SeenAt t''.locations r.evidence_id "host" sidecar.source_path 2
register-register_example =
    register-register hash "host" verified first_time second_time no_rows "another" (codes "iPhone")

register_evidence-Vouched_example :
    VouchedResult node hash disk input no_rows
      (register_evidence node hash disk input first_time no_rows)
register_evidence-Vouched_example =
    register_evidence-Vouched node hash disk input first_time no_rows
