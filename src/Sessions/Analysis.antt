-- ===== src/Sessions/Analysis.antt =====
-- `AnalysisSession` of apps/epoch/src/main/ipc/pipelineSessions.ts.
use verichron_epoch.Prelude.{ℕ, List, Option, none, some, Text}
use verichron_epoch.Sessions.Log.{
  Stream, PipelineLogEntry, LogBuffer, new_log, add, clear, all_lines,
}
use verichron_epoch.Sessions.{
  SessionStatus, idle, running, finished, PipelineFinishedResult, Notifier, new_notifier, send_now,
}

-- The state of an analysis, without its log.
pub data AnalysisKind : Type 0 where
  workspace_run retry : AnalysisKind

pub record AnalysisState : Type 0 where
  pub status : SessionStatus
  pub kind : Option AnalysisKind
  pub target : Option Text
  pub started_at : Option ℕ
  pub result : Option PipelineFinishedResult

pub record AnalysisSession : Type 0 where
  pub state : AnalysisState
  pub log : LogBuffer
  pub notifier : Notifier AnalysisState

unfoldable pub new_session : AnalysisSession
new_session = record {
  state = record { status = idle; kind = none; target = none; started_at = none; result = none };
  log = new_log;
  notifier = new_notifier;
}

unfoldable pub start : AnalysisSession → AnalysisKind → Text → ℕ → AnalysisSession
start s kind target now =
    let state : AnalysisState = record {
      status = running;
      kind = some kind;
      target = some target;
      started_at = some now;
      result = none;
    } in
    record { state = state; log = clear s.log; notifier = send_now s.notifier state now }

unfoldable pub line : AnalysisSession → Stream → Text → PipelineLogEntry × AnalysisSession
line s stream text = let (entry, log) = add s.log stream text in (entry, record s { log = log })

unfoldable pub finish : AnalysisSession → PipelineFinishedResult → ℕ → AnalysisSession
finish s result now =
    let state : AnalysisState = record (s.state) { status = finished; result = some result } in
    record s { state = state; notifier = send_now s.notifier state now }

unfoldable pub snapshot : AnalysisSession → AnalysisState × List PipelineLogEntry
snapshot s = (s.state, all_lines s.log)
