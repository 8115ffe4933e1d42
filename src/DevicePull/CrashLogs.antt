-- ===== src/DevicePull/CrashLogs.antt =====
-- apps/epoch/src/main/tools/device-backup/ios/crashReports.ts: the copy of a device's crash logs
-- beside its backup, and its record. What the tool and the file system do is a record of answers.
pub mod Accounted
use verichron_epoch.Prelude.{
  ℕ, zero, suc, Bool, true, false, ◌&&◌, ◌||◌, not, List, [], ◌∷◌, Option, none, some, String, Text,
  codes, is_some, if◌then◌else◌, ◌==◌,
}
use verichron_epoch.PrepareProgress.Patterns.{is_terminator}

-- The folder of the copy: none, one that no finished copy left, or what a finished one holds.
pub data CopyFolder : Type 0 where
  no_folder part : CopyFolder
  holds : ℕ → ℕ → CopyFolder

pub record Acquisition : Type 0 where
  pub version : String
  pub acquired_at : String
  pub backup_finished_at : String
  pub files : ℕ
  pub bytes : ℕ

-- `<UDID>.crash-reports` and `<UDID>.crash-reports.json`
pub record Beside : Type 0 where
  pub dir : CopyFolder
  pub record_file : Option Acquisition

pub data CopyError : Type 0 where
  no_version already_exists not_created timed_out locked_device : CopyError
  exited : Option ℕ → CopyError
  moved not_recorded stopped_unexpectedly : CopyError

-- `left` is whether the folder of the copy could not be removed again.
pub data CrashReportCopy : Type 0 where
  copied : String → ℕ → ℕ → CrashReportCopy
  failed : Option String → CopyError → Bool → CrashReportCopy
  unavailable : CrashReportCopy

pub record ToolRun : Type 0 where
  pub code : Option ℕ
  pub output : Text
  pub timed_out : Bool

pub record Answers : Type 0 where
  pub tool : Bool
  pub version : Option String
  pub creates : Bool
  pub run : ToolRun
  pub now : String
  pub counted : Option (ℕ × ℕ)
  -- Whether the record is a valid one and is written.
  pub writes : Bool
  pub removes : Bool

abbrev starts_with : Text → Text → Bool
starts_with [] s = true
starts_with (c ∷ p) [] = false
starts_with (c ∷ p) (d ∷ s) = c == d && starts_with p s

-- A pattern that is a literal text, anywhere.
unfoldable pub includes : Text → Text → Bool
includes p [] = starts_with p []
includes p (c ∷ s) = starts_with p (c ∷ s) || includes p s

-- `/^p/m`: at the start of a line.
unfoldable pub on_a_line : Bool → Text → Text → Bool
unfolding is_terminator
on_a_line at_start p [] = at_start && starts_with p []
on_a_line at_start p (c ∷ s) =
    (at_start && starts_with p (c ∷ s)) || on_a_line (is_terminator c) p s

abbrev pub is_clean : Option ℕ → Bool
is_clean (some zero) = true
is_clean _ = false

-- A copy that does not finish removes the folder that it created.
unfoldable pub abandon : Answers → String → CopyError → Beside → Beside × CrashReportCopy
abandon a version error b =
    if a.removes
    then (record b { dir = no_folder }, failed (some version) error false)
    else (b, failed (some version) error true)

abbrev pub record_of : Answers → String → String → ℕ × ℕ → Acquisition
record_of a version finished_at (files, bytes) = record {
  version = version;
  acquired_at = a.now;
  backup_finished_at = finished_at;
  files = files;
  bytes = bytes;
}

-- What is copied is counted, and the record is written last.
unfoldable pub record_copy : Answers → String → String → Beside → Beside × CrashReportCopy
unfolding abandon
record_copy a version finished_at b = elim a.counted [
  | none ↦ abandon a version not_recorded b
  | some (files, bytes) ↦
      let there = record b { dir = holds files bytes } in
      if a.writes
      then (
        record there { record_file = some (record_of a version finished_at (files, bytes)) },
        copied version files bytes,
      )
      else abandon a version not_recorded there
]

-- Why a run of the tool is no copy.
unfoldable pub run_error : ToolRun → Option CopyError
unfolding includes on_a_line
run_error r =
    if r.timed_out
    then some timed_out
    else if not (is_clean r.code) && includes (codes "Password protected (-17)") r.output
    then some locked_device
    else if not (is_clean r.code)
    then some (exited r.code)
    else if on_a_line true (codes "Move: ") r.output
    then some moved
    else none

unfoldable pub copy_into_new : Answers → String → String → Beside → Beside × CrashReportCopy
unfolding run_error record_copy abandon
copy_into_new a version finished_at b =
    let made = record b { dir = part } in
    elim (run_error a.run) [
      | some error ↦ abandon a version error made
      | none ↦ record_copy a version finished_at made
    ]

abbrev pub has_folder : CopyFolder → Bool
has_folder no_folder = false
has_folder _ = true

abbrev pub copy_with : Answers → Option String → String → Beside → Beside × CrashReportCopy
copy_with a none finished_at b = (b, failed none no_version false)
copy_with a (some version) finished_at b =
    if has_folder b.dir || is_some b.record_file
    then (b, failed (some version) already_exists false)
    else if not a.creates
    then (b, failed (some version) not_created false)
    else copy_into_new a version finished_at b

unfoldable pub copy : Answers → String → Beside → Beside × CrashReportCopy
unfolding copy_into_new
copy a finished_at b = if a.tool then copy_with a a.version finished_at b else (b, unavailable)

-- The record first: each of the two removals may throw, and then the next is not made.
unfoldable pub discard : Bool → Bool → Beside → Beside × Bool
discard true true b = (record { dir = no_folder; record_file = none }, true)
discard true false b = (record b { record_file = none }, false)
discard false _ b = (b, false)
