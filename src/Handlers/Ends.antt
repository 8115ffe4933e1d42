-- ===== src/Handlers/Ends.antt =====
-- How a child of the orchestrator's handlers ends, in registerPipelineHandlers of
-- apps/epoch/src/main/ipc/pipelineHandlers.ts.
use verichron_epoch.Prelude.{
  ℕ, zero, suc, ◌++◌, Bool, true, false, List, [], ◌∷◌, Option, none, some, Text, codes, get_or,
  ◌==◌, if◌then◌else◌,
}
use verichron_epoch.Sessions.{PipelineFinishedResult, AnalysisResult}
use verichron_epoch.Sessions.Analysis
use verichron_epoch.Sessions.Analysis.{AnalysisKind, AnalysisSession, workspace_run, retry}
use verichron_epoch.Handlers.{
  TerminationReason, cancelled, timeout, Child, Abort, Report, Handlers, clear_orchestrator_timers,
}

abbrev pub is_cancelled : Option TerminationReason → Bool
is_cancelled (some cancelled) = true
is_cancelled _ = false

abbrev pub is_timeout : Option TerminationReason → Bool
is_timeout (some timeout) = true
is_timeout _ = false

-- The three variables that a child's end resets; each kind of run resets its own target.
unfoldable pub reset : Handlers → AnalysisKind → Handlers
reset h kind = record h {
  running = none;
  running_workspace = (elim kind [ workspace_run ↦ none | retry ↦ h.running_workspace ]);
  running_backup_source = (elim kind [ workspace_run ↦ h.running_backup_source | retry ↦ none ]);
  termination_reason = none;
}

abbrev pub tracked : Handlers → AnalysisKind → Option Text
tracked h workspace_run = h.running_workspace
tracked h retry = h.running_backup_source

-- `if (workspaceAtFailure) void markWorkspaceRunsAborted(…)`, and likewise for a retry.
abbrev pub abort_tracked : AnalysisKind → Option Text → Text → List Abort → List Abort
abort_tracked kind none reason aborts = aborts
abort_tracked kind (some target) reason aborts =
    record { kind = kind; target = target; reason = reason } ∷ aborts

abbrev pub no_result : PipelineFinishedResult
no_result = record {
  success = false;
  exit_code = none;
  error = none;
  workspace = none;
  backups = none;
  analysis = none;
  cancelled = none;
  timed_out = none;
}

-- The child's 'error' event.
unfoldable pub on_error : Handlers → Child → Text → ℕ → Handlers
unfolding clear_orchestrator_timers reset Analysis.finish
on_error h child message now =
    let h' = reset (clear_orchestrator_timers h) child.kind in
    record h' {
      aborts =
          abort_tracked child.kind (tracked h child.kind)
            (codes "orchestrator process error: " ++ message) h.aborts;
      session =
          Analysis.finish h.session
            (record no_result {
              error = some message;
              cancelled = some (is_cancelled h.termination_reason);
              timed_out = some (is_timeout h.termination_reason);
            })
            now;
    }

-- `code === 0`
abbrev pub is_clean : Option ℕ → Bool
is_clean none = false
is_clean (some code) = code == 0

abbrev pub close_reason : Option TerminationReason → Text → Text
close_reason (some cancelled) code = codes "cancelled by user"
close_reason (some timeout) code = codes "orchestrator timed out after 45 minute(s)"
close_reason none code =
    codes "orchestrator process exited unexpectedly (code " ++ (code ++ codes ")")

abbrev pub report_error : Option TerminationReason → Option Text → Option Text
report_error (some cancelled) error = some (codes "Analysis was cancelled.")
report_error (some timeout) error =
    some (codes "Analysis timed out after 45 minutes and was stopped.")
report_error none error = error

-- What `analysisSession.finish` gets for a child that closed, with what its summary held.
unfoldable pub result_of :
    Report → Option (List AnalysisResult) → Option Text → PipelineFinishedResult
result_of r analysis error =
    let analysis' : Option (List AnalysisResult) = elim r.kind [
      | workspace_run ↦ analysis
      | retry ↦ none
    ] in
    if is_clean r.code
    then record no_result { success = true; exit_code = some r.code; analysis = analysis' }
    else record no_result {
      exit_code = some r.code;
      analysis = analysis';
      cancelled = some (is_cancelled r.reason);
      timed_out = some (is_timeout r.reason);
      error = report_error r.reason error;
    }

-- A retry that succeeded reports at once; every other child reports once its summary is read.
unfoldable pub report_close : Handlers → AnalysisKind → Report → ℕ → Handlers
unfolding Analysis.finish result_of
report_close h workspace_run r now = record h { reports = h.reports ++ r ∷ [] }
report_close h retry r now =
    if is_clean r.code
    then record h { session = Analysis.finish h.session (result_of r none none) now }
    else record h { reports = h.reports ++ r ∷ [] }

-- The child's 'close' event. `shown` is the exit code as the template prints it. The lines that the
-- stream buffers still hold are not followed here.
unfoldable pub on_close : Handlers → Child → Option ℕ → Text → ℕ → Handlers
unfolding clear_orchestrator_timers reset report_close
on_close h child code shown now =
    let h' = reset (clear_orchestrator_timers h) child.kind in
    let report : Report = record {
      kind = child.kind;
      code = code;
      reason = h.termination_reason;
    } in
    let aborts' =
      if is_clean code
      then h.aborts
      else record {
        kind = child.kind;
        target = get_or (tracked h child.kind) child.target;
        reason = close_reason h.termination_reason shown;
      }
        ∷ h.aborts in
    report_close (record h' { aborts = aborts' }) child.kind report now

abbrev pub report_at : List Report → ℕ → Option (Report × List Report)
report_at [] i = none
report_at (r ∷ rs) zero = some (r, rs)
report_at (r ∷ rs) (suc i) = elim (report_at rs i) [ none ↦ none | some (x, xs) ↦ some (x, r ∷ xs) ]

-- One of the closed children reports, with what its summary held.
unfoldable pub settle : Handlers → ℕ → Option (List AnalysisResult) → Option Text → ℕ → Handlers
unfolding result_of Analysis.finish
settle h i analysis error now = elim (report_at h.reports i) [
  | none ↦ h
  | some (r, rs) ↦ record h {
    reports = rs;
    session = Analysis.finish h.session (result_of r analysis error) now;
  }
]
