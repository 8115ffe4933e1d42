-- ===== src/Handlers.antt =====
-- The orchestrator's handlers in registerPipelineHandlers of
-- apps/epoch/src/main/ipc/pipelineHandlers.ts: one child at a time, its timers, and its end.
pub mod Life
pub mod Ends
pub mod Steps
pub mod Races
pub mod Prepare
use verichron_epoch.Prelude.{
  ℕ, zero, suc, ◌+◌, not, ◌&&◌, text_eq, ◌++◌, Bool, true, false, List, [], ◌∷◌, Option, none, some,
  Text, codes, is_some, get_or, ◌==◌, if◌then◌else◌,
}
use verichron_epoch.Sessions.{PipelineFinishedResult, AnalysisResult}
use verichron_epoch.Sessions.Analysis
use verichron_epoch.Sessions.Analysis.{AnalysisKind, AnalysisSession, workspace_run, retry}

pub data TerminationReason : Type 0 where
  cancelled timeout : TerminationReason

pub data Signal : Type 0 where
  sigterm sigkill : Signal

-- What a timer does when it goes off.
pub data Timer : Type 0 where
  times_out escalates : Timer

-- A spawned child, with what its event handlers closed over.
pub record Child : Type 0 where
  pub pid : ℕ
  pub kind : AnalysisKind
  -- the trimmed workspace, or the trimmed backup source
  pub target : Text

-- A request to close the runs that a dead orchestrator left: of a workspace, or of one backup.
pub record Abort : Type 0 where
  pub kind : AnalysisKind
  pub target : Text
  pub reason : Text

-- What a closed child still has to report, once its runs are closed and its summary is read.
pub record Report : Type 0 where
  pub kind : AnalysisKind
  pub code : Option ℕ
  pub reason : Option TerminationReason

-- The variables of `registerPipelineHandlers` for the orchestrator; and what is outside: the timers
-- that are set, the signals sent and the aborts asked for, the newest first, and the closed
-- children that have yet to report.
pub record Handlers : Type 0 where
  pub running : Option ℕ
  pub running_workspace : Option Text
  pub running_backup_source : Option Text
  pub timeout_handle : Option ℕ
  pub kill_escalation_handle : Option ℕ
  pub termination_reason : Option TerminationReason
  pub session : AnalysisSession
  pub next_id : ℕ
  pub timers : List (ℕ × Timer)
  pub signals : List (ℕ × Signal)
  pub aborts : List Abort
  pub reports : List Report

unfoldable pub new_handlers : AnalysisSession → Handlers
new_handlers session = record {
  running = none;
  running_workspace = none;
  running_backup_source = none;
  timeout_handle = none;
  kill_escalation_handle = none;
  termination_reason = none;
  session = session;
  next_id = 0;
  timers = [];
  signals = [];
  aborts = [];
  reports = [];
}

-- `clearTimeout`
abbrev pub clear_timer : List (ℕ × Timer) → ℕ → List (ℕ × Timer)
clear_timer [] id = []
clear_timer ((i, t) ∷ ts) id =
    let rest = clear_timer ts id in if i == id then rest else (i, t) ∷ rest

abbrev pub clear_handle : List (ℕ × Timer) → Option ℕ → List (ℕ × Timer)
clear_handle ts none = ts
clear_handle ts (some id) = clear_timer ts id

unfoldable pub clear_orchestrator_timers : Handlers → Handlers
clear_orchestrator_timers h = record h {
  timers = clear_handle (clear_handle h.timers h.timeout_handle) h.kill_escalation_handle;
  timeout_handle = none;
  kill_escalation_handle = none;
}

unfoldable pub kill_orchestrator : Handlers → TerminationReason → Handlers
kill_orchestrator h reason = elim h.running [
  | none ↦ h
  | some pid ↦ record h {
    termination_reason = some reason;
    signals = (pid, sigterm) ∷ h.signals;
    timers = (h.next_id, escalates) ∷ h.timers;
    kill_escalation_handle = some h.next_id;
    next_id = suc h.next_id;
  }
]

-- A timer goes off: it is set no longer, and does what it was set for.
abbrev pub timer_of : List (ℕ × Timer) → ℕ → Option Timer
timer_of [] id = none
timer_of ((i, t) ∷ ts) id = if i == id then some t else timer_of ts id

kill_now : Handlers → Handlers
kill_now h = elim h.running [
  | none ↦ h
  | some pid ↦ record h { signals = (pid, sigkill) ∷ h.signals }
]

unfoldable pub timer_fires : Handlers → ℕ → Handlers
unfolding kill_now kill_orchestrator
timer_fires h id =
    let h' = record h { timers = clear_timer h.timers id } in
    elim (timer_of h.timers id) [
      | none ↦ h
      | some times_out ↦ kill_orchestrator h' timeout
      | some escalates ↦ kill_now h'
    ]

-- Spawning the child: `epoch:startAnalysis` and `epoch:retryRun` behind their guards.
unfoldable pub spawned : Handlers → AnalysisKind → Text → ℕ → Handlers × Child
unfolding Analysis.start
spawned h kind target now = (
  record h {
    running = some h.next_id;
    running_workspace = (elim kind [ workspace_run ↦ some target | retry ↦ h.running_workspace ]);
    running_backup_source = (elim kind [
      | workspace_run ↦ h.running_backup_source
      | retry ↦ some target
    ]);
    termination_reason = none;
    session = Analysis.start h.session kind target now;
    timers = (suc h.next_id, times_out) ∷ h.timers;
    timeout_handle = some (suc h.next_id);
    next_id = h.next_id + 2;
  },
  record { pid = h.next_id; kind = kind; target = target },
)

-- The guards of both handlers: a child is running, or the trimmed target is empty.
abbrev pub may_start : Handlers → Text → Bool
may_start h [] = false
may_start h (c ∷ target) = not (is_some h.running)

-- `epoch:startAnalysis`, which gives `none` where it throws; `targets` is whether every selected
-- backup is prepared in the workspace, as `analysisTargets` has it.
unfoldable pub start_analysis : Handlers → Text → Bool → ℕ → Option (Handlers × Child)
unfolding spawned
start_analysis h target targets now =
    if may_start h target && targets then some (spawned h workspace_run target now) else none

-- `epoch:retryRun`
unfoldable pub retry_run : Handlers → Text → ℕ → Option (Handlers × Child)
unfolding spawned
retry_run h target now = if may_start h target then some (spawned h retry target now) else none

unfoldable pub cancel_analysis : Handlers → Handlers × Bool
unfolding kill_orchestrator
cancel_analysis h = if is_some h.running then (kill_orchestrator h cancelled, true) else (h, false)

-- `epoch:getAnalysisRunStatus`; `unfinished` is whether the database holds an unfinished run of the
-- workspace (`false` where it cannot be asked).
pub data AnalysisRunStatus : Type 0 where
  idle in_progress interrupted : AnalysisRunStatus

is_target : Option Text → Text → Bool
is_target none target = false
is_target (some t) target = text_eq t target

unfoldable pub analysis_run_status : Handlers → Text → Bool → AnalysisRunStatus
unfolding is_target
analysis_run_status h [] unfinished = idle
analysis_run_status h (c ∷ target) unfinished =
    if is_some h.running && is_target h.running_workspace (c ∷ target)
    then in_progress
    else if unfinished
    then interrupted
    else idle
