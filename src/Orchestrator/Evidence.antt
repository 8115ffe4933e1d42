-- ===== src/Orchestrator/Evidence.antt =====
-- apps/orchestrator/src/registration.ts: what has to hold of the evidence files on disk before a
-- backup is registered. A path is its folders, the innermost first. Node's path and crypto functions
-- are a parameter, `Node`; a plist and a JSON file are as their readers give them.
use verichron_epoch.Prelude.{
  ℕ, Bool, true, false, ◌&&◌, ◌||◌, not, List, [], ◌∷◌, ◌++◌, map, Option, none, some, String, Text,
  codes, text_eq, str_eq, all, length, leb, ◌-◌, ◌==◌, if◌then◌else◌,
}
use Prim.Native.String.{◌++◌ as append}
use verichron_epoch.Contracts.{ToolVersion, DecryptMarker, IleappMarker, CrashReportsMarker}
use verichron_epoch.Contracts.Identity.{
  DerivativeParams, decrypt_params, ileapp_params, crash_reports_params,
}
use verichron_epoch.PrepareProgress.Patterns.{trim_end, skip_spaces, is_digit}

abbrev pub FilePath : Type 0
FilePath = List String

-- Why a registration is refused; the code makes a sentence of it.
pub data RegistrationError : Type 0 where
  not_under_decrypted no_sidecar sidecar_not_json sidecar_not_contract : RegistrationError
  describes_other : String → RegistrationError
  manifest_elsewhere no_manifest : RegistrationError
  manifest_differs : String → RegistrationError
  no_info_plist binary_info_plist : RegistrationError
  no_udid : Bool → RegistrationError
  secret_exposed secret_not_hex : RegistrationError
  decrypt_of_other : String → RegistrationError
  no_decrypt_marker : RegistrationError
  not_a_directory : String → RegistrationError
  made_from_other : String → String → RegistrationError

pub data Attempt (A : Type 0) : Type 0 where
  refused : RegistrationError → Attempt A
  accepted : A → Attempt A

infixl 5 ◌>>=◌
abbrev pub ◌>>=◌ : {A B : Type 0} → Attempt A → (A → Attempt B) → Attempt B
attempt >>= next = elim attempt [ refused why ↦ refused why | accepted found ↦ next found ]

pub record Node : Type 0 where
  pub resolve : FilePath → String → FilePath
  pub sha256 : Text → String
  pub hmac : Text → Text → String

-- The fields of EvidenceSidecar that the code reads.
pub record Sidecar : Type 0 where
  pub evidence_name : String
  pub content_root : String
  pub manifest_path : String
  pub file_count : ℕ
  pub total_bytes : ℕ
  pub source_path : String
  pub hashed_at : String

pub data SidecarFile : Type 0 where
  missing unparsable invalid : SidecarFile
  valid : Sidecar → SidecarFile

-- The pairs of an XML property list, in their order.
pub data InfoPlist : Type 0 where
  binary : InfoPlist
  xml : List (Text × Text) → InfoPlist

pub record Disk : Type 0 where
  pub sidecar : FilePath → SidecarFile
  pub manifest : FilePath → Option Text
  pub info_plist : FilePath → Option InfoPlist

-- `<workspace>/decrypted/<label>`
unfoldable pub locate_workspace : FilePath → Attempt (FilePath × String)
locate_workspace (label ∷ parent ∷ workspace) =
    if str_eq parent "decrypted" then accepted (workspace, label) else refused not_under_decrypted
locate_workspace _ = refused not_under_decrypted

-- deriveEvidencePath; `manifest_name` is the template's `${contentRoot}.sha256`.
abbrev pub evidence_dir : FilePath → String → FilePath
evidence_dir workspace name = name ∷ "evidence" ∷ workspace

abbrev pub sidecar_at : FilePath → String → FilePath
sidecar_at workspace name = "sidecar.json" ∷ evidence_dir workspace name

abbrev pub manifest_name : String → String
manifest_name root = append root ".sha256"

abbrev pub manifest_for : FilePath → String → String → FilePath
manifest_for workspace name root = manifest_name root ∷ "manifests" ∷ evidence_dir workspace name

abbrev pub same_path : FilePath → FilePath → Bool
same_path [] [] = true
same_path (a ∷ p) (b ∷ q) = str_eq a b && same_path p q
same_path _ _ = false

abbrev pub check_manifest : Node → Sidecar → Option Text → Attempt Sidecar
check_manifest node sidecar none = refused no_manifest
check_manifest node sidecar (some bytes) =
    if str_eq (node.sha256 bytes) sidecar.content_root
    then accepted sidecar
    else refused (manifest_differs (node.sha256 bytes))

-- From the parsed sidecar on.
unfoldable pub check_sidecar : Node → Disk → FilePath → String → Sidecar → Attempt Sidecar
check_sidecar node disk workspace label sidecar =
    let manifest = node.resolve workspace sidecar.manifest_path in
    if not (str_eq sidecar.evidence_name label)
    then refused (describes_other sidecar.evidence_name)
    else if not (same_path manifest (manifest_for workspace label sidecar.content_root))
    then refused manifest_elsewhere
    else check_manifest node sidecar (disk.manifest manifest)

unfoldable pub verify_sidecar : Node → Disk → FilePath → String → Attempt Sidecar
unfolding check_sidecar
verify_sidecar node disk workspace label = elim (disk.sidecar (sidecar_at workspace label)) [
  | missing ↦ refused no_sidecar
  | unparsable ↦ refused sidecar_not_json
  | invalid ↦ refused sidecar_not_contract
  | valid sidecar ↦ check_sidecar node disk workspace label sidecar
]

-- The Map that `readPlistStrings` fills: a later pair of a key replaces an earlier one.
unfoldable pub get_key : Text → List (Text × Text) → Option Text
get_key k [] = none
get_key k ((j, v) ∷ m) = elim (get_key k m) [
  | some w ↦ some w
  | none ↦ if text_eq j k then some v else none
]

-- `keys.get(a) || keys.get(b)`: an empty text counts as none.
abbrev pub or_else : Option Text → Option Text → Option Text
or_else (some (c ∷ s)) other = some (c ∷ s)
or_else _ other = other

abbrev pub filled : Option Text → Option Text
filled (some (c ∷ s)) = some (c ∷ s)
filled _ = none

abbrev first_plist : Disk → List FilePath → Option InfoPlist
first_plist disk [] = none
first_plist disk (dir ∷ dirs) = elim (disk.info_plist dir) [
  | some plist ↦ some plist
  | none ↦ first_plist disk dirs
]

abbrev has_key : Text → List (Text × Text) → Bool
has_key k keys = elim (get_key k keys) [ none ↦ false | some v ↦ true ]

abbrev text_or : Option Text → Text → Text
text_or none d = d
text_or (some t) d = t

pub record Device : Type 0 where
  pub udid : Text
  pub name : Text

unfoldable pub device_of : List (Text × Text) → Attempt Device
unfolding get_key
device_of keys =
    let udid = filled (
      or_else (get_key (codes "Unique Identifier") keys)
        (get_key (codes "Target Identifier") keys)) in
    elim udid [
      | none ↦ refused (no_udid (has_key (codes "GUID") keys))
      | some udid ↦ accepted (record {
        udid = udid;
        name =
            text_or
              (filled (
                or_else (get_key (codes "Device Name") keys) (get_key (codes "Display Name") keys)))
              (codes "Unknown device");
      })
    ]

unfoldable pub read_device : Disk → List FilePath → Attempt Device
unfolding device_of
read_device disk candidates = elim (first_plist disk candidates) [
  | none ↦ refused no_info_plist
  | some binary ↦ refused binary_info_plist
  | some (xml keys) ↦ device_of keys
]

pub record Secret : Type 0 where
  pub exposed : Bool
  pub content : Text

unfoldable pub is_hex : ℕ → Bool
unfolding is_digit
is_hex c = is_digit c || (leb b'a' c && leb c b'f')

abbrev trim : Text → Text
trim s = trim_end (skip_spaces s)

-- The secret file: the one found, else the one that another process links first, else a fresh one.
abbrev pub secret_file : Option Secret → Option Secret → Text → Secret
secret_file (some found) published fresh = found
secret_file none (some published) fresh = published
secret_file none none fresh = record { exposed = false; content = fresh ++ 10 ∷ [] }

-- The secret, and the file as the call leaves it.
unfoldable pub load_device_secret :
    Bool → Option Secret → Option Secret → Text → Attempt Text × Secret
unfolding is_hex trim_end skip_spaces
load_device_secret windows found published fresh =
    let file = secret_file found published fresh in
    let hex = trim file.content in
    let read =
      if not windows && file.exposed
      then refused secret_exposed
      else if length hex == 64 && all is_hex hex
      then accepted hex
      else refused secret_not_hex in
    (read, file)

-- `toUpperCase`, on the letters of ASCII.
unfoldable pub upper : ℕ → ℕ
upper c = if leb b'a' c && leb c b'z' then c - 32 else c

unfoldable pub device_key : Node → Text → Text → String
unfolding upper trim_end skip_spaces
device_key node udid secret = node.hmac secret (map upper (trim udid))

pub record Provenance : Type 0 where
  pub tool : ToolVersion
  pub params : DerivativeParams

-- A completion marker as the check of a derivative reads it.
pub record Marker : Type 0 where
  pub content_root : String
  pub provenance : Provenance

abbrev pub of_decrypt : DecryptMarker → Marker
of_decrypt m = record {
  content_root = m.content_root;
  provenance = record { tool = m.tool; params = decrypt_params m.repair };
}

abbrev pub of_ileapp : IleappMarker → Marker
of_ileapp m = record {
  content_root = m.content_root;
  provenance = record { tool = m.tool; params = ileapp_params m.input_type m.modules };
}

abbrev pub of_crash_reports : CrashReportsMarker → Marker
of_crash_reports m = record {
  content_root = m.content_root;
  provenance = record { tool = m.tool; params = crash_reports_params m.params };
}

-- What stands where a derivative may be.
pub data Place : Type 0 where
  nothing plain_file : Place
  directory : Option Marker → Place

pub record MadeFromDecrypt : Type 0 where
  pub path : FilePath
  pub provenance : Provenance

abbrev pub checked_marker :
    String → FilePath → String → Option Marker → Attempt (Option MadeFromDecrypt)
checked_marker what dir root none = accepted none
checked_marker what dir root (some m) =
    if str_eq m.content_root root
    then accepted (some (record { path = dir; provenance = m.provenance }))
    else refused (made_from_other what m.content_root)

unfoldable pub made_from_decrypt :
    String → Option (FilePath × Place) → String → Attempt (Option MadeFromDecrypt)
made_from_decrypt what none root = accepted none
made_from_decrypt what (some (dir, nothing)) root = accepted none
made_from_decrypt what (some (dir, plain_file)) root = refused (not_a_directory what)
made_from_decrypt what (some (dir, directory marker)) root = checked_marker what dir root marker

pub record Derivatives : Type 0 where
  pub decrypt : Provenance
  pub ileapp : Option MadeFromDecrypt
  pub crash_reports : Option MadeFromDecrypt

abbrev pub check_decrypt : Option Marker → String → Attempt Provenance
check_decrypt none root = refused no_decrypt_marker
check_decrypt (some m) root =
    if str_eq m.content_root root
    then accepted m.provenance
    else refused (decrypt_of_other m.content_root)

unfoldable pub verify_derivatives :
    Option Marker
    → Option (FilePath × Place)
    → Option (FilePath × Place)
    → String
    → Attempt Derivatives
unfolding made_from_decrypt
verify_derivatives decrypt_marker ileapp_place crash_place root = do
  decrypt ← check_decrypt decrypt_marker root
  ileapp ← made_from_decrypt "iLEAPP's output" ileapp_place root
  crash_reports ← made_from_decrypt "the crash-log copy" crash_place root
  accepted (record { decrypt = decrypt; ileapp = ileapp; crash_reports = crash_reports })
