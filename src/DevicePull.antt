-- ===== src/DevicePull.antt =====
-- What a destination holds for a device: apps/epoch/src/main/tools/device-backup/ios/backupRun.ts.
-- A folder is its Status.plist, whether it has a Manifest.db, and its bytes; the bytes of a folder
-- that is measured from a time on are given by who measures it.
pub mod CrashLogs
pub mod Output
pub mod Again
pub mod Pull
pub mod Run
use verichron_epoch.Prelude.{
  ℕ, ◌*◌, ◌/◌, min, Bool, true, false, Option, none, some, String, str_eq, if◌then◌else◌, ◌==◌,
}

-- Status.plist: none, one that plistutil cannot read or without a SnapshotState, or its SnapshotState.
pub data Status : Type 0 where
  no_status unreadable : Status
  snapshot : String → Status

-- `unreachable` is a folder that `fs.access` refuses, though not because it is missing.
pub data Folder : Type 0 where
  absent unreachable : Folder
  folder : Status → Bool → ℕ → Folder

pub data ExistingState : Type 0 where
  finished unfinished unrecognised : ExistingState

-- What a check of a folder gives, where it does not throw.
pub data Checked {ℓ} (A : Type ℓ) : Type ℓ where
  raises : Checked A
  gives : A → Checked A

abbrev pub snapshot_state : Folder → Checked (Option String)
snapshot_state absent = gives none
snapshot_state unreachable = gives none
snapshot_state (folder no_status manifest bytes) = gives none
snapshot_state (folder unreadable manifest bytes) = raises
snapshot_state (folder (snapshot state) manifest bytes) = gives (some state)

abbrev pub state_of_snapshot : Checked (Option String) → Checked (Option ExistingState)
state_of_snapshot raises = raises
state_of_snapshot (gives none) = gives (some unrecognised)
state_of_snapshot (gives (some state)) =
    gives (some (if str_eq state "finished" then finished else unfinished))

-- `none` where a pull may write.
unfoldable pub existing_backup_state : Folder → Checked (Option ExistingState)
existing_backup_state absent = gives none
existing_backup_state unreachable = raises
existing_backup_state (folder s manifest bytes) =
    state_of_snapshot (snapshot_state (folder s manifest bytes))

pub data IncompleteReason : Type 0 where
  has_no_status : IncompleteReason
  says : String → IncompleteReason
  has_no_manifest : IncompleteReason

abbrev pub has_manifest : Folder → Bool
has_manifest (folder s manifest bytes) = manifest
has_manifest _ = false

abbrev reason_of : Folder → Checked (Option String) → Checked (Option IncompleteReason)
reason_of f raises = raises
reason_of f (gives none) = gives (some has_no_status)
reason_of f (gives (some state)) =
    if str_eq state "finished"
    then gives (if has_manifest f then none else some has_no_manifest)
    else gives (some (says state))

unfoldable pub incomplete_reason : Folder → Checked (Option IncompleteReason)
incomplete_reason f = reason_of f (snapshot_state f)

-- The folder as `removeFailedPullFolder` leaves it, and the bytes that it removed; `removes` is
-- whether the removal succeeds.
unfoldable pub remove_failed_pull_folder : Bool → Folder → Folder × Checked (Option ℕ)
remove_failed_pull_folder removes absent = (absent, gives none)
remove_failed_pull_folder removes unreachable = (unreachable, raises)
remove_failed_pull_folder true (folder no_status manifest bytes) = (absent, gives (some bytes))
remove_failed_pull_folder false (folder no_status manifest bytes) =
    (folder no_status manifest bytes, raises)
remove_failed_pull_folder removes (folder unreadable manifest bytes) =
    (folder unreadable manifest bytes, raises)
remove_failed_pull_folder removes (folder (snapshot state) manifest bytes) =
    (folder (snapshot state) manifest bytes, gives none)

-- `Math.floor((received / estimated) * 100)`, as the exact quotient.
abbrev percent_of : ℕ → ℕ → Option ℕ
percent_of received estimated =
    if estimated == 0 then none else some (min 99 (received * 100 / estimated))

unfoldable pub received_percent : ℕ → Option ℕ → Bool → Option ℕ
received_percent received estimated true = some 100
received_percent received none false = none
received_percent received (some estimated) false = percent_of received estimated
