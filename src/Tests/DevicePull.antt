-- ===== src/Tests/DevicePull.antt =====
-- The theorems on the device pull at concrete inputs.
use verichron_epoch.Prelude.{
  ℕ, ◌≡◌, ◌⊎◌, refl, true, false, List, [], ◌∷◌, map, none, some, Text, codes,
}
use verichron_epoch.Lines.{split}
use verichron_epoch.PrepareProgress.Patterns.{is_digit, skip_spaces}
use verichron_epoch.DevicePull.{
  gives, absent, folder, snapshot, existing_backup_state, incomplete_reason,
  remove_failed_pull_folder,
}
use verichron_epoch.DevicePull.CrashLogs
use verichron_epoch.DevicePull.CrashLogs.{Beside, no_folder, copied}
use verichron_epoch.DevicePull.Pull.{
  Answers, PullOptions, IosBackupSource, Destination, pull_backup, is_identifier, check_destination,
  check_space, check_encryption, run_backup, check_backup, complete, body, settle, caught,
  remove_own_leftover,
}
use verichron_epoch.DevicePull.Output.{to_break, events}
use verichron_epoch.DevicePull.Output.Chunks.{feed, joined, all_bytes, feed-events}
use verichron_epoch.DevicePull.Again
use verichron_epoch.DevicePull.Again.{Removal, delete_incomplete_backup}
use verichron_epoch.DevicePull.Again.Deleted.{Deletion, delete_incomplete_backup-Deletion}
use verichron_epoch.DevicePull.Again.Recorded.{Recorded}
use verichron_epoch.DevicePull.Run.{
  Settlement, start_run, Happening, prints, interval_passes, measures, errs, happen_all,
}
use verichron_epoch.DevicePull.Run.Heard.{nothing_heard, hear_all}
use verichron_epoch.DevicePull.Run.Reported.{IsReported}
use verichron_epoch.DevicePull.Run.Reports.{start_run-happen_all-IsReported}
use verichron_epoch.DevicePull.Run.Settling.{Stopped}
use verichron_epoch.DevicePull.Run.Settled.{ended, start_run-ended-settled}
use verichron_epoch.DevicePull.Pull.Safe.{Left, pull_backup-Left}
use verichron_epoch.DevicePull.Pull.Returned.{Completed, pull_backup-Completed}

abbrev copying : CrashLogs.Answers
copying = record {
  tool = true;
  version = some "1.4.0";
  creates = true;
  run = record { code = some 0; output = codes "Copy: a.ips"; timed_out = false };
  now = "2026-11-01T00:00:00Z";
  counted = some (1, 900);
  writes = true;
  removes = true;
}

abbrev nothing_beside : Beside
nothing_beside = record { dir = no_folder; record_file = none }

abbrev answers : Answers
answers = record {
  tools = true;
  plistutil = true;
  estimated = some 100;
  free = some 500;
  encrypted = some true;
  enabling = record { code = none; timed_out = false };
  encrypted_then = none;
  run = record {
    left = folder (snapshot "finished") true 90;
    received = 90;
    code = some 0;
    cancelled = false;
  };
  plistutil_then = true;
  crash_reports = copied "1.4.0" 1 900;
  appends = true;
  appends_failed = true;
  plistutil_last = true;
  removes = true;
  appends_leftover = true;
}

abbrev options : PullOptions
options = record { password = codes "pw"; enable_encryption = false }

abbrev source : IosBackupSource
source = record { running = false; cancel_requested = none; copying_crash_logs = false }

abbrev empty_folder : Destination
empty_folder = record { folder = absent; log = [] }

pull_backup-Left_example :
    Left answers empty_folder (pull_backup answers options (codes "00008") source empty_folder).1
pull_backup-Left_example = pull_backup-Left answers options (codes "00008") source empty_folder

pull_returns : (pull_backup answers options (codes "00008") source empty_folder).2 ≡ none
unfolding pull_backup is_identifier check_destination check_space check_encryption run_backup
    check_backup complete body settle caught remove_own_leftover is_digit skip_spaces
    existing_backup_state incomplete_reason remove_failed_pull_folder
pull_returns = refl

pull_backup-Completed_example :
    let (source', d', thrown) = pull_backup answers options (codes "00008") source empty_folder in
    Completed answers empty_folder d'
    × (source'.running ≡ false)
    × (source'.cancel_requested ≡ none)
pull_backup-Completed_example =
    pull_backup-Completed answers options (codes "00008") source empty_folder pull_returns

-- A character of one byte is its byte.
abbrev of_bytes : List ℕ → Text
of_bytes chunk = chunk

abbrev chunks : List (List ℕ)
chunks = codes "Receiving fi" ∷ codes "les\r[=== ]  34%\n" ∷ codes "[=====] 100% Finished" ∷ []

decoded_whole : joined (map of_bytes chunks) ≡ of_bytes (all_bytes chunks)
unfolding joined all_bytes
decoded_whole = refl

feed-events_example :
    feed [] (map of_bytes chunks) ≡ events (split (map to_break (of_bytes (all_bytes chunks))))
feed-events_example = feed-events of_bytes chunks decoded_whole

abbrev happenings : List Happening
happenings =
    prints (codes "Receiving files\n")
    ∷ interval_passes
    ∷ measures 0 200000
    ∷ interval_passes
    ∷ measures 40 205000
    ∷ prints (codes "[=====] 100% Finished\n")
    ∷ []

start_run-happen_all-IsReported_example :
    let w = happen_all of_bytes happenings (start_run 5 (some 90)) in
    IsReported w × (w.finished ≡ (hear_all of_bytes happenings nothing_heard).finished)
start_run-happen_all-IsReported_example =
    start_run-happen_all-IsReported of_bytes 5 (some 90) happenings

start_run-ended-settled_example :
    let w =
      ended of_bytes happenings (some 0) (errs ∷ []) (some 90) false (start_run 5 (some 90)) in
    let w' = happen_all of_bytes (measures 80 206000 ∷ []) w in
    (s : Settlement) × (w.settled ≡ some s) × (w'.settled ≡ some s) × Stopped w'
start_run-ended-settled_example =
    start_run-ended-settled of_bytes 5 (some 90) happenings (some 0) (errs ∷ []) (some 90) false
      (measures 80 206000 ∷ [])

abbrev deletable : Destination
deletable = record { folder = folder (snapshot "uploading") false 40; log = [] }

abbrev removal : Removal
removal = record { plistutil = true; removes = true; left = absent; appends = true }

delete_incomplete_backup-Deletion_example :
    let (d', thrown) = delete_incomplete_backup removal (codes "00008") source deletable in
    Deletion removal deletable d' thrown × ((source.running ≡ false) ⊎ (d' ≡ deletable))
delete_incomplete_backup-Deletion_example =
    delete_incomplete_backup-Deletion removal (codes "00008") source deletable

abbrev again : Again.Answers
again = record {
  plistutil = true;
  made_from = gives (some (codes "ab-1"));
  name = codes "AB-1";
  listed = some true;
  finished_at = some "2026-11-01T00:00:00Z";
  copying = copying;
  appends = true;
  discards_record = true;
  discards_folder = true;
}

abbrev finished_backup : Destination
finished_backup = record { folder = folder (snapshot "finished") true 90; log = [] }
