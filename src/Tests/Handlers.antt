-- ===== src/Tests/Handlers.antt =====
-- The theorems on the orchestrator's handlers at concrete inputs.
use verichron_epoch.Prelude.{
  ℕ, ◌<◌, ◌≡◌, refl, true, false, [], ◌∷◌, none, some, Text, codes, arith,
}
use verichron_epoch.Sessions.{PipelineFinishedResult}
use verichron_epoch.Sessions.Analysis
use verichron_epoch.Sessions.Analysis.{workspace_run, retry}
use verichron_epoch.Handlers.{
  Handlers, Child, new_handlers, start_analysis, cancel_analysis, spawned, kill_orchestrator,
  timer_fires, sigkill, clear_orchestrator_timers,
}
use verichron_epoch.Handlers.Ends.{on_close, on_error, settle, reset, report_close}
use verichron_epoch.Handlers.Life.{none_lives, lives}
use verichron_epoch.Handlers.Steps.{
  Reachable, at_first, after, starts, cancels, IsWhole, reachable-IsWhole,
}
use verichron_epoch.Handlers.Races.{
  analysis_child, cancel-on_close, on_error-on_close, cancel-cancel,
}

abbrev cases : Text
cases = codes "/cases"

abbrev at_start : Handlers
at_start = new_handlers Analysis.new_session

abbrev analysing : Handlers
analysing = (spawned at_start workspace_run cases 1).0

abbrev cancelled_once : Handlers
cancelled_once = (cancel_analysis analysing).0

analysis_starts : start_analysis at_start cases true 1 ≡ some (analysing, analysis_child 0 cases)
unfolding start_analysis spawned new_handlers
analysis_starts = refl

is_analysing : Reachable Analysis.new_session analysing (lives (analysis_child 0 cases))
is_analysing = after at_start analysing none_lives (lives (analysis_child 0 cases)) at_first (
    starts at_start analysing none_lives (analysis_child 0 cases) cases true 1 refl analysis_starts)

is_cancelled : Reachable Analysis.new_session cancelled_once (lives (analysis_child 0 cases))
is_cancelled =
    after analysing cancelled_once (lives (analysis_child 0 cases)) (lives (analysis_child 0 cases))
      is_analysing (cancels analysing (lives (analysis_child 0 cases)))

reachable-IsWhole_example : IsWhole cancelled_once (some (analysis_child 0 cases))
reachable-IsWhole_example = reachable-IsWhole Analysis.new_session is_cancelled

analysing-IsWhole : IsWhole analysing (some (analysis_child 0 cases))
unfolding spawned new_handlers
analysing-IsWhole = (refl, refl, refl)

none_reports : analysing.reports ≡ []
unfolding spawned new_handlers
none_reports = refl

cancel-on_close_example :
    ((on_close cancelled_once (analysis_child 0 cases) none (codes "null") 9).aborts
      ≡ record { kind = workspace_run; target = cases; reason = codes "cancelled by user" }
        ∷ analysing.aborts)
    × ((settle
          (on_close cancelled_once (analysis_child 0 cases) none (codes "null") 9)
          0
          none
          none
          10).session.state.result
        ≡ some (record {
          success = false;
          exit_code = some none;
          error = some (codes "Analysis was cancelled.");
          workspace = none;
          backups = none;
          analysis = none;
          cancelled = some true;
          timed_out = some false;
        }))
cancel-on_close_example =
    cancel-on_close analysing 0 cases none (codes "null") none none 9 10 analysing-IsWhole
      none_reports refl

abbrev unspawned : Handlers
unspawned = on_error analysing (analysis_child 0 cases) (codes "spawn pnpm ENOENT") 3

on_error-on_close_example :
    ((result : PipelineFinishedResult) × (unspawned.session.state.result ≡ some result)
      × (result.error ≡ some (codes "spawn pnpm ENOENT")))
    × ((result : PipelineFinishedResult) × ((settle
            (on_close unspawned (analysis_child 0 cases) none (codes "-2") 3)
            0
            none
            none
            4).session.state.result
          ≡ some result)
        × (result.error ≡ none))
on_error-on_close_example =
    on_error-on_close analysing 0 cases (codes "spawn pnpm ENOENT") none (codes "-2") 3 4
      none_reports refl

abbrev closed_after_two : Handlers
closed_after_two =
    on_close (cancel_analysis cancelled_once).0 (analysis_child 0 cases) none (codes "null") 9

abbrev second : Handlers × Child
second = spawned closed_after_two workspace_run cases 11

second_starts : start_analysis closed_after_two cases true 11 ≡ some second
unfolding start_analysis spawned new_handlers cancel_analysis kill_orchestrator on_close
    clear_orchestrator_timers reset report_close
second_starts = refl

is_running : analysing.running ≡ some 0
unfolding spawned new_handlers
is_running = refl

older_timeout : (t : ℕ) → analysing.timeout_handle ≡ some t → t < analysing.next_id
unfolding spawned new_handlers
older_timeout t e = ground arith

cancel-cancel_example :
    (timer_fires second.0 analysing.next_id).signals ≡ (second.1.pid, sigkill) ∷ second.0.signals
cancel-cancel_example =
    cancel-cancel analysing second.0 0 second.1 cases cases none (codes "null") 9 11 is_running
      older_timeout second_starts
