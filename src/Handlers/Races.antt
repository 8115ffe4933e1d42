-- ===== src/Handlers/Races.antt =====
-- How a cancelled child is reported, and two ways in which the orchestrator's handlers of
-- apps/epoch/src/main/ipc/pipelineHandlers.ts go wrong.
use verichron_epoch.Prelude.{
  ℕ, suc, ◌<◌, ◌≡◌, ap, ◌∙◌, get_or, inl, inr, Bool-cases, refl, sym, true, false, ◌&&◌, List, [],
  ◌∷◌, ◌++◌, Option, none, some, Text, codes, arith, of_some, ◌==◌,
}
use verichron_epoch.Sessions.{AnalysisResult, PipelineFinishedResult}
use verichron_epoch.Sessions.Analysis
use verichron_epoch.Sessions.Analysis.{AnalysisKind, AnalysisSession, workspace_run, retry}
use verichron_epoch.Handlers.{
  cancelled, sigkill, Report, Timer, times_out, escalates, Child, Abort, Handlers,
  clear_orchestrator_timers, clear_timer, clear_handle, kill_orchestrator, timer_fires, timer_of,
  kill_now, spawned, may_start, start_analysis, cancel_analysis,
}
use verichron_epoch.Handlers.Ends.{
  reset, on_error, on_close, settle, report_close, is_clean, result_of, close_reason,
}
use verichron_epoch.Handlers.Steps.{IsWhole}

abbrev pub analysis_child : ℕ → Text → Child
analysis_child pid target = record { pid = pid; kind = workspace_run; target = target }

abbrev abort_of : Text → Text → List Abort → List Abort
abort_of target reason rest =
    record { kind = workspace_run; target = target; reason = reason } ∷ rest

cancel_analysis-running :
    (h : Handlers) (pid : ℕ)
    → h.running ≡ some pid
    → let g = (cancel_analysis h).0 in
      (g.aborts ≡ h.aborts)
      × (g.reports ≡ h.reports)
      × (g.termination_reason ≡ some cancelled)
      × (g.running_workspace ≡ h.running_workspace)
      × (g.running ≡ some pid)
unfolding cancel_analysis kill_orchestrator
cancel_analysis-running h pid e = simp (e, kill_orchestrator) (refl, refl, refl, refl, refl)

on_close-unclean :
    (h : Handlers) (pid : ℕ) (target : Text) (code : Option ℕ) (shown : Text) (now : ℕ)
    → is_clean code ≡ false
    → let g = on_close h (analysis_child pid target) code shown now in
      (g.aborts
        ≡ record {
          kind = workspace_run;
          target = get_or h.running_workspace target;
          reason = close_reason h.termination_reason shown;
        }
          ∷ h.aborts)
      × (g.reports
          ≡ h.reports
            ++ record { kind = workspace_run; code = code; reason = h.termination_reason } ∷ [])
unfolding on_close clear_orchestrator_timers reset report_close
on_close-unclean h pid target code shown now unclean = simp unclean (refl, refl)

settle-first :
    (h : Handlers) (r : Report) (analysis : Option (List AnalysisResult)) (error : Option Text)
    (now : ℕ)
    → h.reports ≡ r ∷ []
    → (settle h 0 analysis error now).session.state.result ≡ some (result_of r analysis error)
unfolding settle Analysis.finish
settle-first h r analysis error now e = simp (e, settle) refl

-- An analysis that is cancelled and whose process then exits otherwise than with code 0 ends as
-- cancelled: the runs of its workspace are to be closed as cancelled by the user, and once its
-- summary is read the session shows a failed result that says so, whatever error the summary
-- holds. This is for a whole state in which no other child has yet to report.
pub cancel-on_close :
    (h : Handlers) (pid : ℕ) (target : Text) (code : Option ℕ) (shown : Text)
    (analysis : Option (List AnalysisResult)) (error : Option Text) (now later : ℕ)
    → IsWhole h (some (analysis_child pid target))
    → h.reports ≡ []
    → is_clean code ≡ false
    → let closed = on_close (cancel_analysis h).0 (analysis_child pid target) code shown now in
      (closed.aborts
        ≡ record { kind = workspace_run; target = target; reason = codes "cancelled by user" }
          ∷ h.aborts)
      × ((settle closed 0 analysis error later).session.state.result
          ≡ some (record {
            success = false;
            exit_code = some code;
            error = some (codes "Analysis was cancelled.");
            workspace = none;
            backups = none;
            analysis = analysis;
            cancelled = some true;
            timed_out = some false;
          }))
unfolding result_of
cancel-on_close h pid target code shown analysis error now later w unreported unclean =
    let (ga, gr, reason, gw, gp) = cancel_analysis-running h pid w.0 in
    let g : Handlers = (cancel_analysis h).0 in
    let (aborted, reports) = on_close-unclean g pid target code shown now unclean in
    let r : Report = record { kind = workspace_run; code = code; reason = g.termination_reason } in
    let closed : Handlers = on_close g (analysis_child pid target) code shown now in
    let one : closed.reports ≡ r ∷ [] = reports ∙ ap (λ rs. rs ++ r ∷ []) (gr ∙ unreported) in
    (
      aborted
          ∙ ap (λ o. abort_of (get_or o target) (close_reason g.termination_reason shown) g.aborts)
              (gw ∙ w.1)
          ∙ ap (λ o. abort_of target (close_reason o shown) g.aborts) reason
          ∙ ap (abort_of target (codes "cancelled by user")) ga,
      settle-first closed r analysis error later one
          ∙ ap
              (λ why. some (
                result_of (record { kind = workspace_run; code = code; reason = why }) analysis
                  error))
              reason
          ∙ by_code,
    )
  where
    by_code :
        some (
          result_of
            (record { kind = workspace_run; code = code; reason = some cancelled })
            analysis
            error)
        ≡ some (record {
          success = false;
          exit_code = some code;
          error = some (codes "Analysis was cancelled.");
          workspace = none;
          backups = none;
          analysis = analysis;
          cancelled = some true;
          timed_out = some false;
        })
    by_code = simp unclean refl

-- A child that fails to spawn has its 'error' event and then its 'close' event. The first one shows
-- the error's message in the session; once the second one has reported, with no summary written,
-- the message is gone. This is for a whole state in which no other child has yet to report.
pub on_error-on_close :
    (h : Handlers) (pid : ℕ) (target message : Text) (code : Option ℕ) (shown : Text)
    (now later : ℕ)
    → h.reports ≡ []
    → is_clean code ≡ false
    → let failed = on_error h (analysis_child pid target) message now in
      let closed = on_close failed (analysis_child pid target) code shown now in
      ((result : PipelineFinishedResult) × (failed.session.state.result ≡ some result)
        × (result.error ≡ some message))
      × ((result : PipelineFinishedResult) × ((settle closed 0 none none later).session.state.result
            ≡ some result)
          × (result.error ≡ none))
unfolding on_error clear_orchestrator_timers reset Analysis.finish result_of
on_error-on_close h pid target message code shown now later unreported unclean =
    let failed : Handlers = on_error h (analysis_child pid target) message now in
    let closed : Handlers = on_close failed (analysis_child pid target) code shown now in
    let r : Report = record { kind = workspace_run; code = code; reason = none } in
    let reports = (on_close-unclean failed pid target code shown now unclean).1 in
    (
      (_, refl, refl),
      (
        result_of r none none,
        settle-first closed r none none later (reports ∙ ap (λ rs. rs ++ r ∷ []) unreported),
        simp unclean refl,
      ),
    )

timer_of-clear_timer :
    (ts : List (ℕ × Timer)) (i j : ℕ)
    → (i == j) ≡ false
    → timer_of (clear_timer ts i) j ≡ timer_of ts j
timer_of-clear_timer [] i j e = refl
timer_of-clear_timer ((k, t) ∷ ts) i j e = ground (arith, timer_of-clear_timer ts i j e)

timer_of-clear_handle :
    (ts : List (ℕ × Timer)) (o : Option ℕ) (j : ℕ)
    → ((i : ℕ) → o ≡ some i → (i == j) ≡ false)
    → timer_of (clear_handle ts o) j ≡ timer_of ts j
timer_of-clear_handle ts none j older = refl
timer_of-clear_handle ts (some i) j older = timer_of-clear_timer ts i j (older i refl)

-- The two timers that cancelling twice sets; only the second one has a handle.
cancelled_twice :
    (h : Handlers) (pid : ℕ)
    → h.running ≡ some pid
    → let g = (cancel_analysis (cancel_analysis h).0).0 in
      (g.timers ≡ (suc h.next_id, escalates) ∷ (h.next_id, escalates) ∷ h.timers)
      × (g.timeout_handle ≡ h.timeout_handle)
      × (g.kill_escalation_handle ≡ some (suc h.next_id))
      × (g.next_id ≡ suc (suc h.next_id))
unfolding cancel_analysis kill_orchestrator
cancelled_twice h pid e = simp (e, kill_orchestrator) (refl, refl, refl, refl)

on_close-timers :
    (h : Handlers) (pid : ℕ) (target : Text) (code : Option ℕ) (shown : Text) (now : ℕ)
    → let g = on_close h (analysis_child pid target) code shown now in
      (g.timers ≡ clear_handle (clear_handle h.timers h.timeout_handle) h.kill_escalation_handle)
      × (g.next_id ≡ h.next_id)
unfolding on_close clear_orchestrator_timers reset report_close
on_close-timers h pid target code shown now = (refl, refl)

spawned-timers :
    (h g : Handlers) (c : Child) (target : Text) (now : ℕ)
    → start_analysis h target true now ≡ some (g, c)
    → (g.timers ≡ (suc h.next_id, times_out) ∷ h.timers) × (g.running ≡ some c.pid)
unfolding start_analysis spawned
spawned-timers h g c target now e = elim (Bool-cases (may_start h target && true)) [
  | inl may ↦
      let same : spawned h workspace_run target now ≡ (g, c) = of_some (simp may at e) in
      (
        sym (ap (λ (r : Handlers × Child). r.0.timers) same),
        sym (ap (λ (r : Handlers × Child). r.0.running) same)
            ∙ ap (λ (r : Handlers × Child). some r.1.pid) same,
      )
  | inr busy ↦ absurd (ground (arith, simp busy at e))
]

-- Cancelling twice kills the wrong process: when the first analysis ends after two cancels and
-- another one starts, the timer that the first cancel set still stands, and when it goes off it
-- sends SIGKILL to the new process. The timer's number is the one that the first cancel took, and
-- the analysis' own timeout has an older one.
pub cancel-cancel :
    (h h' : Handlers) (pid : ℕ) (c' : Child) (target target' : Text) (code : Option ℕ)
    (shown : Text) (now now' : ℕ)
    → h.running ≡ some pid
    → ((t : ℕ) → h.timeout_handle ≡ some t → t < h.next_id)
    → let twice = (cancel_analysis (cancel_analysis h).0).0 in
      start_analysis (on_close twice (analysis_child pid target) code shown now) target' true now'
        ≡ some (h', c')
      → (timer_fires h' h.next_id).signals ≡ (c'.pid, sigkill) ∷ h'.signals
unfolding kill_now timer_fires
cancel-cancel h h' pid c' target target' code shown now now' running older started =
    let n : ℕ = h.next_id in
    let twice : Handlers = (cancel_analysis (cancel_analysis h).0).0 in
    let closed : Handlers = on_close twice (analysis_child pid target) code shown now in
    let (set, timeout_of, kill_of, next) = cancelled_twice h pid running in
    let (cleared, closed_next) = on_close-timers twice pid target code shown now in
    let (timers', running') = spawned-timers closed h' c' target' now' started in
    let not_timeout : (i : ℕ) → twice.timeout_handle ≡ some i → (i == n) ≡ false =
      λ i e. ground (arith, older i (sym timeout_of ∙ e)) in
    let not_second : (i : ℕ) → twice.kill_escalation_handle ≡ some i → (i == n) ≡ false =
      λ i e. ground (arith, of_some (sym kill_of ∙ e)) in
    let first : timer_of twice.timers n ≡ some escalates = rw set (ground arith) in
    let kept : timer_of closed.timers n ≡ some escalates =
      ap (λ ts. timer_of ts n) cleared
      ∙ timer_of-clear_handle (clear_handle twice.timers twice.timeout_handle)
          twice.kill_escalation_handle n not_second
      ∙ timer_of-clear_handle twice.timers twice.timeout_handle n not_timeout
      ∙ first in
    let other : (suc closed.next_id == n) ≡ false = ground (arith, closed_next, next) in
    let stands : timer_of h'.timers n ≡ some escalates =
      ap (λ ts. timer_of ts n) timers' ∙ simp other kept in
    simp (stands, timer_fires, running') refl
