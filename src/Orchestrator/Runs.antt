-- ===== src/Orchestrator/Runs.antt =====
-- apps/orchestrator/src/db.ts over the tables pipeline_runs and pipeline_stage_status, the view
-- run_completeness of packages/etl-db-writer/migrations/0005_run_registration.sql, and the closing
-- of dangling runs in apps/epoch/src/main/ipc/pipelineHandlers.ts. A run holds its stage rows.
use verichron_epoch.Prelude.{
  ℕ, Bool, true, false, ◌&&◌, not, List, [], ◌∷◌, ◌++◌, Option, none, some, String, map, str_eq,
  ltb, ◌==◌, is_some, if◌then◌else◌, any, all,
}
use verichron_epoch.Orchestrator.{StageDefinition, StageSet, StageInputs, Registration, inputs_for}

pub data StageStatus : Type 0 where
  pending running succeeded failed skipped : StageStatus

pub record StageRow : Type 0 where
  pub stage_name : String
  pub stage_order : ℕ
  pub status : StageStatus
  pub error_message : Option String
  pub warnings : Option String
  pub parser_version : Option ℕ
  pub derivative_id : Option String
  pub indicator_set_id : Option String
  pub started_at : Option ℕ
  pub finished_at : Option ℕ

pub record Run : Type 0 where
  pub run_id : String
  pub backup_source : String
  pub evidence_id : String
  pub derivative_id : String
  pub finished_at : Option ℕ
  pub stages : List StageRow

abbrev pub is_open : StageStatus → Bool
is_open pending = true
is_open running = true
is_open _ = false

abbrev pub is_unresolved : StageStatus → Bool
is_unresolved failed = true
is_unresolved s = is_open s

abbrev pub unresolved_row : StageRow → Bool
unresolved_row row = is_unresolved row.status

pub data RunState : Type 0 where
  running incomplete complete : RunState

-- The view run_completeness.
unfoldable pub run_state : Run → RunState
run_state r = elim r.finished_at [
  | none ↦ running
  | some t ↦ if any unresolved_row r.stages then incomplete else complete
]

abbrev pub is_complete : RunState → Bool
is_complete complete = true
is_complete _ = false

-- `IS NOT DISTINCT FROM`
abbrev pub same_text : Option String → Option String → Bool
same_text none none = true
same_text (some a) (some b) = str_eq a b
same_text _ _ = false

abbrev pub same_version : Option ℕ → Option ℕ → Bool
same_version none none = true
same_version (some a) (some b) = a == b
same_version _ _ = false

-- `s.error_message = want.absent_reason`, which is not true where either is NULL.
abbrev pub equal_text : Option String → Option String → Bool
equal_text (some a) (some b) = str_eq a b
equal_text _ _ = false

abbrev pub did_stage : StageRow → Option String → Bool
did_stage row absent = elim row.status [
  | succeeded ↦ true
  | skipped ↦ is_some absent && equal_text row.error_message absent
  | pending ↦ false
  | running ↦ false
  | failed ↦ false
]

-- A stage row that is what this stage would do now.
abbrev pub answers : StageDefinition → StageInputs → StageRow → Bool
answers stage input row =
    str_eq row.stage_name stage.name
    && (did_stage row input.absent_reason
        && (same_version row.parser_version stage.manifest.parser_version
            && (same_text row.derivative_id input.derivative_id
                && same_text row.indicator_set_id input.indicator_set_id)))

abbrev pub covers : Registration → Option String → Run → StageDefinition → Bool
covers r set run stage = any (answers stage (inputs_for stage r set)) run.stages

abbrev pub qualifies : Registration → Option String → List StageDefinition → Run → Bool
qualifies r set enabled run =
    str_eq run.evidence_id r.evidence_id
    && (str_eq run.derivative_id r.decrypted_derivative_id
        && (is_complete (run_state run) && all (covers r set run) enabled))

-- `ORDER BY finished_at DESC LIMIT 1`
unfoldable pub later : Option Run → Run → Option Run
later none run = some run
later (some best) run = elim run.finished_at [
  | none ↦ some best
  | some t ↦ elim best.finished_at [
    | none ↦ some run
    | some u ↦ if ltb u t then some run else some best
  ]
]

unfoldable pub newest_of : (Run → Bool) → List Run → Option Run
unfolding later
newest_of p [] = none
newest_of p (run ∷ runs) = let rest = newest_of p runs in if p run then later rest run else rest

unfoldable pub find_complete_run_for :
    List Run → Registration → List StageDefinition → Option String → Option Run
unfolding newest_of
find_complete_run_for runs r enabled set = newest_of (qualifies r set enabled) runs

abbrev pub enabled_row : Registration → Option String → StageDefinition → StageRow
enabled_row r set stage = record {
  stage_name = stage.name;
  stage_order = stage.manifest.order;
  status = pending;
  error_message = none;
  warnings = none;
  parser_version = stage.manifest.parser_version;
  derivative_id = (inputs_for stage r set).derivative_id;
  indicator_set_id = (inputs_for stage r set).indicator_set_id;
  started_at = none;
  finished_at = none;
}

abbrev pub disabled_row : StageDefinition → StageRow
disabled_row stage = record {
  stage_name = stage.name;
  stage_order = stage.manifest.order;
  status = skipped;
  error_message = some "stage disabled in its stage.json";
  warnings = none;
  parser_version = stage.manifest.parser_version;
  derivative_id = none;
  indicator_set_id = none;
  started_at = none;
  finished_at = none;
}

-- `run_id` is a new UUID.
unfoldable pub create_run :
    List Run → String → String → StageSet → Registration → Option String → List Run
create_run runs run_id backup_path stages r set =
    record {
      run_id = run_id;
      backup_source = backup_path;
      evidence_id = r.evidence_id;
      derivative_id = r.decrypted_derivative_id;
      finished_at = none;
      stages = map (enabled_row r set) stages.enabled ++ map disabled_row stages.disabled;
    }
    ∷ runs

-- `WHERE run_id = …`
unfoldable pub update_run : String → (Run → Run) → List Run → List Run
update_run run_id f [] = []
update_run run_id f (run ∷ runs) =
    let rest = update_run run_id f runs in (if str_eq run.run_id run_id then f run else run) ∷ rest

unfoldable pub marked_row :
    String → StageStatus → Option String → Option String → ℕ → StageRow → StageRow
marked_row name status message warnings now row =
    if str_eq row.stage_name name
    then record row {
      status = status;
      error_message = message;
      warnings = warnings;
      started_at = (elim status [ running ↦ some now | _ ↦ row.started_at ]);
      finished_at = (elim status [ running ↦ row.finished_at | _ ↦ some now ]);
    }
    else row

unfoldable pub mark_stage :
    List Run → String → String → StageStatus → Option String → Option String → ℕ → List Run
unfolding update_run marked_row
mark_stage runs run_id name status message warnings now =
    update_run run_id
      (λ run. record run { stages = map (marked_row name status message warnings now) run.stages })
      runs

-- `status = 'failed'` for the rows that are pending or running.
unfoldable pub closed_row : String → ℕ → StageRow → StageRow
closed_row message now row =
    if is_open row.status
    then record row { status = failed; error_message = some message; finished_at = some now }
    else row

unfoldable pub closed_run : String → ℕ → Run → Run
unfolding closed_row
closed_run message now run = record run {
  stages = map (closed_row message now) run.stages;
  finished_at = some now;
}

unfoldable pub mark_run_failed : List Run → String → String → ℕ → List Run
unfolding update_run closed_run
mark_run_failed runs run_id message now = update_run run_id (closed_run message now) runs

unfoldable pub finish_run : List Run → String → ℕ → List Run
unfolding update_run
finish_run runs run_id now = update_run run_id (λ run. record run { finished_at = some now }) runs

-- The unfinished runs that a predicate on their backup source selects are closed: the two UPDATEs
-- of `reconcileStaleRunsOnStartup` (every run), `markWorkspaceRunsAborted` (the runs whose source
-- is LIKE the workspace's prefix) and `markSingleRunAborted` (the runs of one source).
unfoldable pub close_if : (String → Bool) → String → ℕ → Run → Run
unfolding closed_run
close_if selects message now run =
    if selects run.backup_source && not (is_some run.finished_at)
    then closed_run message now run
    else run

unfoldable pub close_dangling : (String → Bool) → String → ℕ → List Run → List Run
unfolding close_if
close_dangling selects message now runs = map (close_if selects message now) runs

abbrev pub restarted : String
restarted =
    "Epoch was restarted while this run was in progress; the previous run never reported completion."

unfoldable pub reconcile_stale_runs_on_startup : ℕ → List Run → List Run
unfolding close_dangling
reconcile_stale_runs_on_startup now runs = close_dangling (λ source. true) restarted now runs

-- `like` is Postgres's LIKE against `<workspace>/decrypted/%`.
unfoldable pub mark_workspace_runs_aborted : (String → Bool) → String → ℕ → List Run → List Run
unfolding close_dangling
mark_workspace_runs_aborted like reason now runs = close_dangling like reason now runs

unfoldable pub mark_single_run_aborted : String → String → ℕ → List Run → List Run
unfolding close_dangling
mark_single_run_aborted source reason now runs = close_dangling (str_eq source) reason now runs
