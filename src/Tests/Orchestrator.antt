-- ===== src/Tests/Orchestrator.antt =====
-- The theorems on the orchestrator at concrete inputs.
use verichron_epoch.Prelude.{
  ℕ, ◌<◌, false, keep, ◌≡◌, refl, true, List, [], ◌∷◌, none, some, String, str_eq, All,
}
use verichron_epoch.Orchestrator.{
  StageInput, decrypted, crash_reports, StageDefinition, StageSet, inputs_for,
}
use verichron_epoch.Orchestrator.Pipeline.{
  Context, StageResult, exits, of_spawned, run_stage, mark_outcome, run_stages, finished,
  already_done, run_pipeline_for_backup,
}
use verichron_epoch.Orchestrator.Resume.{run_pipeline-again}
use verichron_epoch.Orchestrator.Runs.{
  Run, StageRow, running, find_complete_run_for, newest_of, later, run_state, create_run,
  mark_stage, marked_row, update_run, finish_run, close_dangling,
}
use verichron_epoch.Orchestrator.Discovery.{
  is_enabled, count_order, repeats_order, is_at, find_stage, max_order, insert_stage, sort_stages,
  reports_too_early, discover_stages,
}
use verichron_epoch.Orchestrator.Order.{Ascending, discover_stages-Ascending}
use verichron_epoch.Orchestrator.Closing.{Fates, close_dangling-Fates}

abbrev decrypt_row : StageRow
decrypt_row = record {
  stage_name = "ileapp_bridge";
  stage_order = 10;
  status = running;
  error_message = none;
  warnings = none;
  parser_version = some 3;
  derivative_id = some "derivative";
  indicator_set_id = none;
  started_at = some 1;
  finished_at = none;
}

abbrev two_runs : List Run
two_runs =
    record {
      run_id = "first";
      backup_source = "/cases/decrypted/phone";
      evidence_id = "evidence";
      derivative_id = "derivative";
      finished_at = none;
      stages = decrypt_row ∷ [];
    }
    ∷ record {
      run_id = "second";
      backup_source = "/cases/decrypted/tablet";
      evidence_id = "other";
      derivative_id = "derivative";
      finished_at = some 7;
      stages = [];
    }
    ∷ []

close_dangling-Fates_example :
    Fates
      (str_eq "/cases/decrypted/phone")
      two_runs
      (close_dangling (str_eq "/cases/decrypted/phone") "cancelled by user" 9 two_runs)
close_dangling-Fates_example =
    close_dangling-Fates (str_eq "/cases/decrypted/phone") "cancelled by user" 9 two_runs

abbrev stage : String → StageInput → StageDefinition
stage name reads = record {
  name = name;
  dir = name;
  manifest = record {
    entrypoint = "main.py";
    order = 10;
    reads = reads;
    parser_version = some 3;
    enabled = true;
  };
}

-- One stage reads the decrypt, one the crash logs, which this evidence lacks; one is disabled.
abbrev stages : StageSet
stages = record {
  enabled = stage "messages" decrypted ∷ stage "crash" crash_reports ∷ [];
  disabled = stage "locations" decrypted ∷ [];
}

abbrev context : Context
context = record {
  paths = record {
    backup_path = "/cases/decrypted/phone";
    ileapp_path = none;
    crash_reports_path = none;
  };
  registration = record {
    evidence_id = "evidence";
    device_id = "device";
    decrypted_derivative_id = "derivative";
    ileapp_derivative_id = none;
    crash_reports_derivative_id = none;
  };
  indicator_set = none;
  spawn = λ s. exits true "";
  run_id = "third";
  now = 5;
}

abbrev results : List StageResult
results =
    record { stage = "messages"; success = true } ∷ record { stage = "crash"; success = true } ∷ []

abbrev runs_after : List Run
runs_after = (run_pipeline_for_backup context stages two_runs).0

pipeline_succeeds :
    run_pipeline_for_backup context stages two_runs ≡ (runs_after, finished results true)
unfolding run_pipeline_for_backup find_complete_run_for newest_of later run_state inputs_for
    create_run run_stages run_stage of_spawned mark_outcome mark_stage marked_row update_run
    finish_run
pipeline_succeeds = refl

run_pipeline-again_example :
    run_pipeline_for_backup context stages runs_after ≡ (runs_after, already_done)
run_pipeline-again_example =
    run_pipeline-again context context stages two_runs runs_after results (refl, (refl, tt))
      (((refl, refl), tt), (tt, tt)) ((refl, tt), ((refl, tt), tt)) refl refl pipeline_succeeds

abbrev at : String → ℕ → StageDefinition
at dir order = record {
  name = dir;
  dir = dir;
  manifest = record {
    entrypoint = "main.py";
    order = order;
    reads = decrypted;
    parser_version = some 1;
    enabled = true;
  };
}

-- The stages as they are read: the messages come last of the extractors, reporting is behind them.
abbrev on_disk : List StageDefinition
on_disk = at "messages" 30 ∷ at "calls" 20 ∷ at "reporting" 90 ∷ []

abbrev in_order : StageSet
in_order = record {
  enabled = at "calls" 20 ∷ at "messages" 30 ∷ at "reporting" 90 ∷ [];
  disabled = [];
}

in_order_discovered : discover_stages "reporting" on_disk ≡ some in_order
unfolding discover_stages repeats_order count_order find_stage max_order insert_stage sort_stages
    reports_too_early
in_order_discovered = refl

discover_stages-Ascending_example :
    Ascending in_order.enabled
    × ((report : StageDefinition)
        → find_stage (is_at "reporting") (keep is_enabled on_disk) ≡ some report
        → All
            (λ (t : StageDefinition).
              is_at "reporting" t ≡ false → t.manifest.order < report.manifest.order)
            in_order.enabled)
discover_stages-Ascending_example =
    discover_stages-Ascending "reporting" on_disk in_order in_order_discovered
