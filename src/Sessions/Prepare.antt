-- ===== src/Sessions/Prepare.antt =====
-- `PrepareSession` of apps/epoch/src/main/ipc/pipelineSessions.ts.
use verichron_epoch.Prelude.{ℕ, List, [], Option, none, some, Text, leb, if◌then◌else◌}
use verichron_epoch.PrepareProgress.{
  PrepareRunProgress, init_prepare_progress, apply_prepare_log_line,
}
use verichron_epoch.Sessions.Log.{
  Stream, PipelineLogEntry, LogBuffer, new_log, add, clear, all_lines,
}
use verichron_epoch.Sessions.{
  SessionStatus, idle, running, finished, PipelineFinishedResult, Notifier, new_notifier, soon,
  send_now,
}

-- The state of a preparation, without its log.
pub record PrepareState : Type 0 where
  pub status : SessionStatus
  pub source : Option Text
  pub workspace : Option Text
  pub labels : List Text
  pub started_at : Option ℕ
  pub progress : Option PrepareRunProgress
  pub password_for : Option Text
  pub result : Option PipelineFinishedResult

pub record PrepareSession : Type 0 where
  pub state : PrepareState
  pub log : LogBuffer
  pub notifier : Notifier PrepareState

unfoldable pub new_session : PrepareSession
new_session = record {
  state = record {
    status = idle;
    source = none;
    workspace = none;
    labels = [];
    started_at = none;
    progress = none;
    password_for = none;
    result = none;
  };
  log = new_log;
  notifier = new_notifier;
}

unfoldable pub start : PrepareSession → Text → Text → List Text → ℕ → PrepareSession
start s source workspace labels now =
    let state : PrepareState = record {
      status = running;
      source = some source;
      workspace = some workspace;
      labels = labels;
      started_at = some now;
      progress = some (init_prepare_progress labels);
      password_for = none;
      result = none;
    } in
    record { state = state; log = clear s.log; notifier = send_now s.notifier state now }

-- Where a run has progress, the line is read into it.
abbrev read_into : Option PrepareRunProgress → Text → ℕ → Option PrepareRunProgress
read_into none text now = none
read_into (some p) text now = some (apply_prepare_log_line p text now)

unfoldable pub line : PrepareSession → Stream → Text → ℕ → PipelineLogEntry × PrepareSession
line s stream text now =
    let (entry, log) = add s.log stream text in
    let progress = read_into s.state.progress text now in
    (
      entry,
      record s {
        state = record (s.state) { progress = progress };
        log = log;
        notifier = soon s.notifier now;
      },
    )

-- Every change but a line is sent at once.
abbrev changed : PrepareSession → PrepareState → ℕ → PrepareSession
changed s state now = record s { state = state; notifier = send_now s.notifier state now }

unfoldable pub password_requested : PrepareSession → Text → ℕ → PrepareSession
password_requested s backup now = changed s (record (s.state) { password_for = some backup }) now

unfoldable pub password_submitted : PrepareSession → ℕ → PrepareSession
password_submitted s now = changed s (record (s.state) { password_for = none }) now

unfoldable pub finish : PrepareSession → PipelineFinishedResult → ℕ → PrepareSession
finish s result now =
    changed s (record (s.state) { status = finished; password_for = none; result = some result })
      now

unfoldable pub snapshot : PrepareSession → PrepareState × List PipelineLogEntry
snapshot s = (s.state, all_lines s.log)

-- The notifier's timer, set for `t`, goes off at `now`: at its time or later, never before it.
unfoldable pub timer_fired : PrepareSession → ℕ → PrepareSession
timer_fired s now = elim s.notifier.timer [
  | none ↦ s
  | some t ↦ if leb t now then record s { notifier = send_now s.notifier s.state now } else s
]
