-- ===== src/DevicePull/Again.antt =====
-- What IosBackupSource of apps/epoch/src/main/tools/device-backup/ios/iosBackupSource.ts does with a
-- backup that is there: the deletion of an incomplete one, and a further copy of its crash logs.
pub mod Recorded
pub mod Deleted
use verichron_epoch.Prelude.{
  ℕ, Bool, true, false, ◌&&◌, ◌||◌, not, ◌∷◌, Option, none, some, String, Text, map, text_eq,
  str_eq, is_some, leb, ◌-◌, if◌then◌else◌,
}
use verichron_epoch.DevicePull.{
  Folder, absent, unreachable, folder, Checked, raises, gives, IncompleteReason, snapshot_state,
  incomplete_reason,
}
use verichron_epoch.DevicePull.CrashLogs
use verichron_epoch.DevicePull.CrashLogs.{
  Beside, CrashReportCopy, copied, failed, unavailable, stopped_unexpectedly, copy, discard,
}
use verichron_epoch.DevicePull.Pull.{
  IosBackupSource, Destination, incomplete_deleted, copied_again, is_identifier,
}

abbrev pub bytes_of : Folder → ℕ
bytes_of (folder s manifest bytes) = bytes
bytes_of _ = 0

abbrev if_incomplete : Folder → Checked (Option String) → Checked (Option ℕ)
if_incomplete f raises = raises
if_incomplete f (gives none) = gives none
if_incomplete f (gives (some state)) =
    gives (if str_eq state "finished" then none else some (bytes_of f))

-- The bytes of a backup that didn't finish; a folder that can't be reached counts as none.
unfoldable pub incomplete_backup : Folder → Checked (Option ℕ)
incomplete_backup f = if_incomplete f (snapshot_state f)

pub data DeleteError : Type 0 where
  backup_runs bad_identifier no_plistutil unreadable nothing_to_delete not_removed : DeleteError
  deletion_unrecorded : DeleteError

-- What the file system does of a deletion; `left` is the folder as a removal that fails leaves it, of
-- which a part may be gone.
pub record Removal : Type 0 where
  pub plistutil : Bool
  pub removes : Bool
  pub left : Folder
  pub appends : Bool

abbrev pub delete_checked :
    Removal → Destination → Checked (Option ℕ) → Destination × Option DeleteError
delete_checked a d raises = (d, some unreadable)
delete_checked a d (gives none) = (d, some nothing_to_delete)
delete_checked a d (gives (some bytes)) =
    if not a.removes
    then (record d { folder = a.left }, some not_removed)
    else if a.appends
    then (record { folder = absent; log = incomplete_deleted bytes ∷ d.log }, none)
    else (record d { folder = absent }, some deletion_unrecorded)

unfoldable pub delete_incomplete_backup :
    Removal → Text → IosBackupSource → Destination → Destination × Option DeleteError
unfolding is_identifier
delete_incomplete_backup a udid source d =
    if source.running
    then (d, some backup_runs)
    else if not (is_identifier udid)
    then (d, some bad_identifier)
    else if not a.plistutil
    then (d, some no_plistutil)
    else delete_checked a d (incomplete_backup d.folder)

-- Why crash logs are not copied again; the last three are of a copy that was made.
pub data AgainError : Type 0 where
  pull_runs copies_already no_tool unchecked : AgainError
  not_finished : IncompleteReason → AgainError
  device_unreadable other_device not_connected : AgainError
  copy_unrecorded : CrashReportCopy → AgainError
  copy_removed copy_kept : AgainError

pub data AgainResult : Type 0 where
  returns : CrashReportCopy → AgainResult
  throws : AgainError → AgainResult

-- What the tools and the file system answer: `made_from` is the backup's device, and `name` its
-- folder's; `finished_at` is none where Status.plist has no such time.
pub record Answers : Type 0 where
  pub plistutil : Bool
  pub made_from : Checked (Option Text)
  pub name : Text
  pub listed : Option Bool
  pub finished_at : Option String
  pub copying : CrashLogs.Answers
  pub appends : Bool
  pub discards_record : Bool
  pub discards_folder : Bool

-- `toUpperCase`, of the characters of an identifier.
abbrev pub upper : Text → Text
upper = map (λ c. if leb b'a' c && leb c b'z' then c - 32 else c)

abbrev pub is_made_from : Text → Option Text → Bool
is_made_from udid none = false
is_made_from udid (some made_from) = text_eq (upper made_from) (upper udid)

abbrev pub is_listed : Option Bool → Bool
is_listed (some true) = true
is_listed _ = false

-- A time that can't be read stops the copy before it starts.
unfoldable pub copy_crash_logs : Answers → Beside → Beside × CrashReportCopy
copy_crash_logs a b = elim a.finished_at [
  | none ↦ (b, failed none stopped_unexpectedly false)
  | some finished_at ↦ copy a.copying finished_at b
]

-- A copy that the pull record can't account for is removed.
unfoldable pub unrecorded : Answers → Beside → CrashReportCopy → Beside × AgainResult
unfolding discard
unrecorded a b (copied version files bytes) =
    let (b', gone) = discard a.discards_record a.discards_folder b in
    (b', throws (if gone then copy_removed else copy_kept))
unrecorded a b (failed version error left) =
    (b, throws (copy_unrecorded (failed version error left)))
unrecorded a b unavailable = (b, throws (copy_unrecorded unavailable))

abbrev pub record_again :
    Answers → Destination → Beside × CrashReportCopy → Destination × Beside × AgainResult
record_again a d (b, c) =
    if a.appends
    then (record d { log = copied_again c ∷ d.log }, b, returns c)
    else let (b', result) = unrecorded a b c in (d, b', result)

abbrev pub if_same_device :
    Answers
    → Text
    → Destination
    → Beside
    → Checked (Option Text)
    → Destination × Beside × AgainResult
if_same_device a udid d b raises = (d, b, throws device_unreadable)
if_same_device a udid d b (gives made_from) =
    if not (is_made_from udid made_from) || not (text_eq a.name udid)
    then (d, b, throws other_device)
    else if not (is_listed a.listed)
    then (d, b, throws not_connected)
    else record_again a d (copy_crash_logs a b)

abbrev pub if_finished :
    Answers
    → Text
    → Destination
    → Beside
    → Checked (Option IncompleteReason)
    → Destination × Beside × AgainResult
if_finished a udid d b raises = (d, b, throws unchecked)
if_finished a udid d b (gives (some reason)) = (d, b, throws (not_finished reason))
if_finished a udid d b (gives none) = if_same_device a udid d b a.made_from

unfoldable pub checked_copy :
    Answers → Text → Destination → Beside → Destination × Beside × AgainResult
unfolding incomplete_reason copy_crash_logs unrecorded
checked_copy a udid d b =
    if a.plistutil
    then if_finished a udid d b (incomplete_reason d.folder)
    else (d, b, throws no_tool)

unfoldable pub copy_crash_reports_again :
    Answers
    → Text
    → IosBackupSource
    → Destination
    → Beside
    → IosBackupSource × Destination × Beside × AgainResult
unfolding checked_copy
copy_crash_reports_again a udid source d b =
    if is_some source.cancel_requested
    then (source, d, b, throws pull_runs)
    else if source.copying_crash_logs
    then (source, d, b, throws copies_already)
    else let (d', b', result) = checked_copy a udid d b in
      (record source { copying_crash_logs = false }, d', b', result)
