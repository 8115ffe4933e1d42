-- ===== src/Orchestrator/Pipeline.antt =====
-- runPipelineForBackup of apps/orchestrator/src/pipeline.ts, for a backup that is registered.
use verichron_epoch.Prelude.{
  ℕ, Bool, true, false, List, [], ◌∷◌, ◌++◌, Option, none, some, String, str_eq, ◌⊎◌, inl, inr, all,
  is_some, if◌then◌else◌,
}
use Prim.Native.String.{◌++◌ as append}
use verichron_epoch.Orchestrator.{
  StageInput, decrypted, ileapp_output, crash_reports, indicator_set, StageDefinition, StageSet,
  StageInputs, Registration, inputs_for,
}
use verichron_epoch.Orchestrator.Runs.{
  running, succeeded, failed, skipped, Run, find_complete_run_for, create_run, mark_stage,
  mark_run_failed, finish_run,
}

-- What a spawned stage does: it exits, with code 0 or not and what it printed to stderr, trimmed;
-- or spawning it throws.
pub data Spawned : Type 0 where
  exits : Bool → String → Spawned
  throws : String → Spawned

pub data StageOutcome : Type 0 where
  ran : Bool → String → StageOutcome
  absent : String → StageOutcome
  thrown : String → StageOutcome

-- The paths of the derivatives, `undefined` where none can be derived.
pub record Paths : Type 0 where
  pub backup_path : String
  pub ileapp_path : Option String
  pub crash_reports_path : Option String

abbrev pub path_of : Paths → StageInput → Option String
path_of p decrypted = some p.backup_path
path_of p ileapp_output = p.ileapp_path
path_of p crash_reports = p.crash_reports_path
path_of p indicator_set = none

unfoldable pub of_spawned : Spawned → StageOutcome
of_spawned (exits ok stderr) = ran ok stderr
of_spawned (throws message) = thrown message

-- What each derivative kind is, for a stage whose input is missing.
abbrev pub derivative_name : StageInput → String
derivative_name decrypted = "the decrypted backup"
derivative_name ileapp_output = "iLEAPP output"
derivative_name crash_reports = "the device's crash logs"
derivative_name indicator_set = ""

abbrev pub unregistered : StageDefinition → StageInput → String
unregistered stage reads = append "stage \"" (
    append stage.name (
      append "\" reads " (
        append (derivative_name reads)
          ", but none is registered for this backup; run the processor to complete it")))

abbrev pub no_set : StageDefinition → String
no_set stage = append "stage \"" (append stage.name "\" has no indicator set and no reason")

abbrev pub run_reading : StageInput → StageDefinition → StageInputs → Paths → Spawned → StageOutcome
run_reading indicator_set stage input p spawned = elim input.indicator_set_id [
  | none ↦ thrown (no_set stage)
  | some id ↦ of_spawned spawned
]
run_reading reads stage input p spawned =
    if is_some input.derivative_id
    then if is_some (path_of p reads)
      then of_spawned spawned
      else ran false (unregistered stage reads)
    else ran false (unregistered stage reads)

unfoldable pub run_stage :
    StageDefinition → Paths → Registration → Option String → Spawned → StageOutcome
run_stage stage p r set spawned =
    let input = inputs_for stage r set in
    elim input.absent_reason [
      | some reason ↦ absent reason
      | none ↦ run_reading stage.manifest.reads stage input p spawned
    ]

-- `outcome.stderr || undefined`
abbrev pub or_none : String → Option String
or_none s = if str_eq s "" then none else some s

-- `outcome.stderr || 'unknown error'`
abbrev pub or_unknown : String → String
or_unknown s = if str_eq s "" then "unknown error" else s

-- One round of the loop: the database behind it, and whether the stage succeeded; or the message
-- of what it threw.
unfoldable pub mark_outcome :
    List Run → String → StageDefinition → StageOutcome → ℕ → List Run × (Bool ⊎ String)
mark_outcome runs run_id stage (absent reason) now =
    (mark_stage runs run_id stage.name skipped (some reason) none now, inl true)
mark_outcome runs run_id stage (ran true stderr) now =
    (mark_stage runs run_id stage.name succeeded none (or_none stderr) now, inl true)
mark_outcome runs run_id stage (ran false stderr) now =
    (mark_stage runs run_id stage.name failed (some (or_unknown stderr)) none now, inl false)
mark_outcome runs run_id stage (thrown message) now = (runs, inr message)

-- All that stays the same while a run goes on; `spawn` is what each stage does when it is spawned.
pub record Context : Type 0 where
  pub paths : Paths
  pub registration : Registration
  pub indicator_set : Option String
  pub spawn : StageDefinition → Spawned
  pub run_id : String
  pub now : ℕ

pub record StageResult : Type 0 where
  pub stage : String
  pub success : Bool

-- The loop over the stages, and the message of what it threw.
unfoldable pub run_stages :
    Context
    → List StageDefinition
    → List Run
    → List StageResult
    → List Run × List StageResult × Option String
unfolding mark_outcome run_stage
run_stages x [] runs results = (runs, results, none)
run_stages x (stage ∷ stages) runs results =
    let started = mark_stage runs x.run_id stage.name running none none x.now in
    let outcome = run_stage stage x.paths x.registration x.indicator_set (x.spawn stage) in
    let (runs', result) = mark_outcome started x.run_id stage outcome x.now in
    elim result [
      | inl success ↦
          run_stages x stages runs'
            (results ++ record { stage = stage.name; success = success } ∷ [])
      | inr message ↦ (runs', results, some message)
    ]

abbrev pub succeeded_all : List StageResult → Bool
succeeded_all results = all (λ (r : StageResult). r.success) results

pub data BackupRunResult : Type 0 where
  already_done : BackupRunResult
  finished : List StageResult → Bool → BackupRunResult
  failed_with : String → BackupRunResult

-- From the resume check on.
unfoldable pub run_pipeline_for_backup : Context → StageSet → List Run → List Run × BackupRunResult
unfolding run_stages
run_pipeline_for_backup x stages runs =
    elim (find_complete_run_for runs x.registration stages.enabled x.indicator_set) [
      | some run ↦ (runs, already_done)
      | none ↦
          let created =
            create_run runs x.run_id x.paths.backup_path stages x.registration x.indicator_set in
          let (runs', results, error) = run_stages x stages.enabled created [] in
          elim error [
            | none ↦ (finish_run runs' x.run_id x.now, finished results (succeeded_all results))
            | some message ↦ (mark_run_failed runs' x.run_id message x.now, failed_with message)
          ]
    ]
