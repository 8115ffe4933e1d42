-- ===== src/DevicePull/Pull.antt =====
-- IosBackupSource of apps/epoch/src/main/tools/device-backup/ios/iosBackupSource.ts: a pull into a
-- destination, its record, and what it leaves. What the device, the tools and the file system do is
-- a record of answers; an answer that throws is none.
pub mod Stages
pub mod Safe
pub mod Returned
use verichron_epoch.Prelude.{
  ℕ, zero, Bool, true, false, ◌&&◌, ◌||◌, not, List, [], ◌∷◌, Option, none, some, Text, all,
  is_some, leb, ltb, ◌==◌, if◌then◌else◌,
}
use verichron_epoch.PrepareProgress.Patterns.{is_digit, skip_spaces, is_empty}
use verichron_epoch.DevicePull.{
  Folder, ExistingState, Checked, raises, gives, existing_backup_state, IncompleteReason,
  incomplete_reason, remove_failed_pull_folder,
}
use verichron_epoch.DevicePull.CrashLogs.{CrashReportCopy}

pub data BackupEncryption : Type 0 where
  unknown already_on off_unchanged turn_on_failed turned_on_by_epoch : BackupEncryption

pub data PullOutcome : Type 0 where
  completed failed cancelled : PullOutcome

pub data PullError : Type 0 where
  no_password no_tools already_running copying_logs : PullError
  no_plistutil bad_identifier unreadable_folder : PullError
  exists : ExistingState → PullError
  no_free_space too_small : PullError
  settings_unreadable encryption_off passcode_late not_turned_on : PullError
  run_cancelled run_failed unchecked : PullError
  incomplete : IncompleteReason → PullError
  record_unwritten : PullError

pub record PullRecord : Type 0 where
  pub backup_encryption : BackupEncryption
  pub received_bytes : Option ℕ
  pub outcome : PullOutcome
  pub error : Option PullError
  pub crash_reports : Option CrashReportCopy

-- The lines of epoch-pulls.jsonl.
pub data Entry : Type 0 where
  pull_line : PullRecord → Entry
  folder_removed : ℕ → Entry
  folder_kept : Entry
  incomplete_deleted : ℕ → Entry
  copied_again : CrashReportCopy → Entry

-- How idevicebackup2 ran: what it left, what was measured of it, its exit code (`none` for a signal
-- or a failed spawn), and whether the user cancelled.
pub record BackupRun : Type 0 where
  pub left : Folder
  pub received : ℕ
  pub code : Option ℕ
  pub cancelled : Bool

pub record Enabling : Type 0 where
  pub code : Option ℕ
  pub timed_out : Bool

pub record Answers : Type 0 where
  pub tools : Bool
  pub plistutil : Bool
  pub estimated : Option ℕ
  pub free : Option ℕ
  pub encrypted : Option Bool
  pub enabling : Enabling
  pub encrypted_then : Option Bool
  pub run : BackupRun
  pub plistutil_then : Bool
  pub crash_reports : CrashReportCopy
  pub appends : Bool
  pub appends_failed : Bool
  pub plistutil_last : Bool
  pub removes : Bool
  pub appends_leftover : Bool

pub record PullOptions : Type 0 where
  pub password : Text
  pub enable_encryption : Bool

-- The source's own fields; a running process is there only within a pull.
pub record IosBackupSource : Type 0 where
  pub running : Bool
  pub cancel_requested : Option Bool
  pub copying_crash_logs : Bool

-- The device's folder in the destination, and the pull record beside it, the newest line first.
pub record Destination : Type 0 where
  pub folder : Folder
  pub log : List Entry

pub record Pulling : Type 0 where
  pub at : Destination
  pub record_line : PullRecord
  pub recorded : Bool
  pub folder_is_this_pulls : Bool
  pub received_so_far : Option ℕ
  pub cancel : Bool

pub data Step : Type 0 where
  goes : Pulling → Step
  throws : Pulling → PullError → Step

infixl 5 ◌>>=◌
abbrev pub ◌>>=◌ : Step → (Pulling → Step) → Step
goes s >>= f = f s
throws s e >>= f = throws s e

abbrev pub with_encryption : Pulling → BackupEncryption → Pulling
with_encryption s e = record s { record_line = record s.record_line { backup_encryption = e } }

-- `/^[A-Za-z0-9-]+$/`
unfoldable pub is_identifier : Text → Bool
unfolding is_digit
is_identifier [] = false
is_identifier (c ∷ s) =
    all (λ d. is_digit d || (leb b'a' d && leb d b'z') || (leb b'A' d && leb d b'Z') || d == b'-')
      (c ∷ s)

abbrev pub refuse_existing : Pulling → Checked (Option ExistingState) → Step
refuse_existing s raises = throws s unreadable_folder
refuse_existing s (gives (some state)) = throws s (exists state)
refuse_existing s (gives none) = goes (record s { folder_is_this_pulls = true })

unfoldable pub check_destination : Answers → Text → Pulling → Step
unfolding is_identifier
check_destination a udid s =
    if not a.plistutil
    then throws s no_plistutil
    else if not (is_identifier udid)
    then throws s bad_identifier
    else refuse_existing s (existing_backup_state s.at.folder)

abbrev pub fits_in : Pulling → Option ℕ → ℕ → Step
fits_in s none free = goes s
fits_in s (some estimated) free = if ltb free estimated then throws s too_small else goes s

unfoldable pub check_space : Answers → Pulling → Step
check_space a s = elim a.free [
  | none ↦ throws s no_free_space
  | some free ↦ fits_in s a.estimated free
]

abbrev pub is_clean : Option ℕ → Bool
is_clean (some zero) = true
is_clean _ = false

abbrev pub turned_on : Pulling → Option Bool → Step
turned_on s none = throws s settings_unreadable
turned_on s (some false) = throws s not_turned_on
turned_on s (some true) = goes (with_encryption s turned_on_by_epoch)

abbrev pub turn_on : Answers → Pulling → Step
turn_on a s =
    if a.enabling.timed_out
    then throws s passcode_late
    else if not (is_clean a.enabling.code)
    then throws s not_turned_on
    else turned_on s a.encrypted_then

unfoldable pub check_encryption : Answers → PullOptions → Pulling → Step
check_encryption a options s = elim a.encrypted [
  | none ↦ throws s settings_unreadable
  | some true ↦ goes (with_encryption s already_on)
  | some false ↦
      if options.enable_encryption
      then turn_on a (with_encryption s turn_on_failed)
      else throws (with_encryption s off_unchanged) encryption_off
]

unfoldable pub run_backup : Answers → Pulling → Step
run_backup a s =
    let s' = record s {
      at = record s.at { folder = a.run.left };
      received_so_far = some a.run.received;
      cancel = a.run.cancelled;
    } in
    if a.run.cancelled
    then throws s' run_cancelled
    else if is_clean a.run.code
    then goes
        (record s' { record_line = record s'.record_line { received_bytes = some a.run.received } })
    else throws s' run_failed

abbrev pub refuse_incomplete : Pulling → Checked (Option IncompleteReason) → Step
refuse_incomplete s raises = throws s unchecked
refuse_incomplete s (gives (some reason)) = throws s (incomplete reason)
refuse_incomplete s (gives none) = goes s

unfoldable pub check_backup : Answers → Pulling → Step
check_backup a s =
    if a.plistutil_then
    then refuse_incomplete s (incomplete_reason s.at.folder)
    else throws s no_plistutil

-- The record is written before the pull is reported as done.
unfoldable pub complete : Answers → Pulling → Step
complete a s =
    let line = record s.record_line { crash_reports = some a.crash_reports; outcome = completed } in
    let s' = record s { record_line = line; recorded = true } in
    if a.appends
    then goes (record s' { at = record s.at { log = pull_line line ∷ s.at.log } })
    else throws s' record_unwritten

unfoldable pub body : Answers → PullOptions → Text → Pulling → Step
unfolding check_destination check_space check_encryption run_backup check_backup complete
body a options udid s = do
  s ← check_destination a udid s
  s ← check_space a s
  s ← check_encryption a options s
  s ← run_backup a s
  s ← check_backup a s
  complete a s

abbrev pub log_if : Bool → Entry → Destination → Destination
log_if true entry d = record d { log = entry ∷ d.log }
log_if false entry d = d

abbrev pub note_removal : Answers → Folder × Checked (Option ℕ) → Destination → Destination
note_removal a (f, raises) d = log_if a.appends_leftover folder_kept d
note_removal a (f, gives none) d = d
note_removal a (f, gives (some bytes)) d =
    log_if a.appends_leftover (folder_removed bytes) (record d { folder = f })

unfoldable pub remove_own_leftover : Answers → Destination → Destination
unfolding remove_failed_pull_folder
remove_own_leftover a d =
    if a.plistutil_last
    then note_removal a (remove_failed_pull_folder a.removes d.folder) d
    else log_if a.appends_leftover folder_kept d

abbrev pub is_completed : PullOutcome → Bool
is_completed completed = true
is_completed _ = false

-- `catch`
unfoldable pub caught : Pulling → PullError → Pulling
caught s e = record s {
  record_line = record s.record_line {
    outcome = if s.cancel then cancelled else s.record_line.outcome;
    error = some e;
    received_bytes =
        if is_some s.record_line.received_bytes
        then s.record_line.received_bytes
        else s.received_so_far;
  };
}

-- `finally`, for the destination.
unfoldable pub settle : Answers → Pulling → Destination
unfolding remove_own_leftover
settle a s =
    let at = if s.recorded then s.at else log_if a.appends_failed (pull_line s.record_line) s.at in
    if not (is_completed s.record_line.outcome)
      && s.folder_is_this_pulls
      && (s.recorded || a.appends_failed)
    then remove_own_leftover a at
    else at

-- What a pull leaves, and why it threw, where it did.
abbrev pub after_body : Answers → Step → Destination × Option PullError
after_body a (goes s) = (settle a s, none)
after_body a (throws s e) = (settle a (caught s e), some e)

abbrev pub new_record : PullRecord
new_record = record {
  backup_encryption = unknown;
  received_bytes = none;
  outcome = failed;
  error = none;
  crash_reports = none;
}

abbrev pub idle : IosBackupSource → IosBackupSource
idle source = record source { running = false; cancel_requested = none }

abbrev pub start_pull : Destination → Pulling
start_pull d = record {
  at = d;
  record_line = new_record;
  recorded = false;
  folder_is_this_pulls = false;
  received_so_far = none;
  cancel = false;
}

unfoldable pub pull_backup :
    Answers
    → PullOptions
    → Text
    → IosBackupSource
    → Destination
    → IosBackupSource × Destination × Option PullError
unfolding body settle caught skip_spaces
pull_backup a options udid source d =
    if is_empty (skip_spaces options.password)
    then (source, d, some no_password)
    else if not a.tools
    then (source, d, some no_tools)
    else if is_some source.cancel_requested
    then (source, d, some already_running)
    else if source.copying_crash_logs
    then (source, d, some copying_logs)
    else let (d', thrown) = after_body a (body a options udid (start_pull d)) in
      (idle source, d', thrown)
