-- ===== src/Tests/Epoch.antt =====
-- The theorems on apps/epoch at concrete inputs.
use verichron_epoch.Prelude.{
  ℕ, ◌≡◌, ◌≢◌, refl, sym, ap, ◌∙◌, true, false, ◌||◌, List, [], ◌∷◌, ◌++◌, none, some, String,
  of_some, arith, insert, lookup, Text, codes, last, any,
}
use verichron_epoch.Lines.{Decoder, new_splitter, reader_end, split, pop, if_text}
use verichron_epoch.Lines.Laws.{reader_feed, decode_all, reader-lines}
use verichron_epoch.PrepareProgress.{
  BackupProgress, BackupOverallState, PrepareRunProgress, init_prepare_progress, queued_backup,
  apply_prepare_log_line, failed, read_line, finish_stage, start_next, on_stage_line, on_error_line,
  on_module_line, on_decrypt_line, on_hash_line, update_current,
}
use verichron_epoch.PrepareProgress.Patterns.{
  trim_end, on_one_line, is_space, is_terminator, is_digit, is_word, lower, skip_spaces, literal,
  digits, number, before,
}
use verichron_epoch.PrepareProgress.Matching.{
  backup_start, stage_line, is_skipped, is_done, ileapp, stage_error, hash_progress,
  decrypt_progress, ileapp_module_line,
}
use verichron_epoch.PrepareProgress.Banner.{banner, backup_start-banner}
use verichron_epoch.PrepareProgress.Laws.{apply-done}
use verichron_epoch.PullState
use verichron_epoch.PullState.{BackupProgressPhase, DeviceInfo, pull_state_progress_limit}
use verichron_epoch.PullState.Laws.{
  Update, report, updates, last_kept, reports, last_stats, banner_after, is_end_report,
  start-updates,
}
use verichron_epoch.Sessions.Log.{stdout, numbered, kept_log_lines}
use verichron_epoch.Sessions.Prepare
use verichron_epoch.Sessions.Prepare.{PrepareSession}
use verichron_epoch.Sessions.Laws.{
  Call, calls, line, lines_of, progress_of, IsFresh, calls-snapshot, start-calls-IsFresh,
}

-- A decoder of single bytes.
abbrev bytes : Decoder
bytes = record { State = Unit; fresh = tt; write = λ st chunk. (chunk, st); finish = λ st. [] }

abbrev chunks : List (List ℕ)
chunks = codes "=== pho" ∷ codes "ne ===\n  [hash] do" ∷ codes "ne" ∷ []

reader-lines_example :
    (reader_feed bytes (new_splitter bytes) chunks).0
      ++ (reader_end bytes (reader_feed bytes (new_splitter bytes) chunks).1).0
    ≡ (pop (split (decode_all bytes chunks))).0 ++ if_text (pop (split (decode_all bytes chunks))).1
reader-lines_example = reader-lines bytes chunks tt

abbrev phone : Text
phone = codes "phone"

abbrev waiting : PrepareRunProgress
waiting = record {
  order = phone ∷ [];
  by_label = (phone, queued_backup phone) ∷ [];
  current_label = some phone;
}

abbrev failing : PrepareRunProgress
failing = record {
  order = phone ∷ [];
  by_label = (phone, record (queued_backup phone) { overall = failed }) ∷ [];
  current_label = some phone;
}

abbrev done_line : Text
done_line = codes "  [ileapp]  done -> out"

abbrev after_done : PrepareRunProgress
after_done = apply_prepare_log_line waiting done_line 7

-- What the line makes of the backup.
abbrev done_backup : BackupProgress
done_backup = finish_stage (queued_backup phone) ileapp false 7

done_becomes : lookup phone after_done.by_label ≡ some done_backup
unfolding apply_prepare_log_line trim_end is_space backup_start stage_line stage_error hash_progress
    decrypt_progress ileapp_module_line is_skipped is_done skip_spaces literal digits number before
    update_current read_line on_stage_line on_error_line on_module_line on_decrypt_line on_hash_line
    finish_stage start_next insert lookup is_terminator is_digit is_word lower
done_becomes = refl

was_waiting : lookup phone waiting.by_label ≡ some (queued_backup phone)
unfolding lookup
was_waiting = refl

becomes_done : done_backup.overall ≢ BackupOverallState.queued
unfolding finish_stage
becomes_done e = ground arith

is_changed : lookup phone after_done.by_label ≢ lookup phone waiting.by_label
is_changed e =
    let same : done_backup ≡ queued_backup phone = of_some (sym done_becomes ∙ e ∙ was_waiting) in
    becomes_done (ap (λ (b : BackupProgress). b.overall) same)

done_overall : done_backup.overall ≡ BackupOverallState.done
unfolding finish_stage
done_overall = refl

apply-done_example :
    (rest : Text) × (stage_line (trim_end done_line) ≡ some (ileapp, rest))
    × ((is_skipped rest || is_done rest) ≡ true)
    × ((queued_backup phone).overall ≢ failed)
    × (waiting.current_label ≡ some phone)
apply-done_example =
    apply-done waiting done_line 7 phone (queued_backup phone) done_backup was_waiting done_becomes
      (λ e. ground arith) done_overall

was_failing :
    lookup phone failing.by_label ≡ some (record (queued_backup phone) { overall = failed })
unfolding lookup
was_failing = refl

no_banner : backup_start (trim_end done_line) ≢ some phone
unfolding trim_end is_space backup_start literal before is_terminator
no_banner e = ground arith

on_one : on_one_line phone ≡ true
unfolding is_terminator
on_one = refl

backup_start-banner_example : backup_start (trim_end (banner phone)) ≡ some phone
backup_start-banner_example = backup_start-banner phone refl on_one

abbrev device : DeviceInfo
device = record { id = "00008110"; name = "phone"; model = none; os_version = none }

abbrev two_updates : List Update
two_updates =
    report (record {
      phase = BackupProgressPhase.device_action;
      percent = none;
      message = "unlock";
      crash_reports = none;
    })
    ∷ report (record {
      phase = BackupProgressPhase.done;
      percent = none;
      message = "done";
      crash_reports = none;
    })
    ∷ []

abbrev started : PullState.DevicePullState
started = record {
  source_id = "ios";
  device = device;
  dest_dir = "/evidence";
  started_at = 5;
  progress = [];
  stats = none;
  device_action = none;
  ended = false;
}

pull_starts : PullState.start none "ios" device "/evidence" 5 ≡ some (some started)
unfolding PullState.start
pull_starts = refl

start-updates_example :
    (PullState.current (updates (some started) two_updates)
      ≡ some (record {
        source_id = "ios";
        device = device;
        dest_dir = "/evidence";
        started_at = 5;
        progress = last_kept (reports two_updates);
        stats = last_stats none two_updates;
        device_action = banner_after none (reports two_updates);
        ended = any is_end_report (reports two_updates);
      }))
    × (PullState.reported_end (updates (some started) two_updates)
        ≡ any is_end_report (reports two_updates))
    × ((id : String) (other : DeviceInfo) (dir : String) (at : ℕ)
        → PullState.start (updates (some started) two_updates) id other dir at ≡ none)
start-updates_example =
    start-updates "ios" device "/evidence" 5 two_updates (some started) pull_starts

abbrev run_calls : List Call
run_calls = line stdout (codes "=== phone ===") 10 ∷ line stdout (codes "  [hash] done") 20 ∷ []

calls-snapshot_example :
    ((Prepare.snapshot
        (calls (Prepare.start Prepare.new_session phone phone (phone ∷ []) 1) run_calls)).1
      ≡ last kept_log_lines (numbered Prepare.new_session.log.seq (lines_of run_calls)))
    × ((Prepare.snapshot (
          calls
            (Prepare.start Prepare.new_session phone phone (phone ∷ []) 1)
            run_calls)).0.progress
        ≡ some (progress_of (init_prepare_progress (phone ∷ [])) run_calls))
calls-snapshot_example = calls-snapshot Prepare.new_session phone phone (phone ∷ []) 1 run_calls

start-calls-IsFresh_example :
    IsFresh (calls (Prepare.start Prepare.new_session phone phone (phone ∷ []) 1) run_calls)
start-calls-IsFresh_example =
    start-calls-IsFresh Prepare.new_session phone phone (phone ∷ []) 1 run_calls
