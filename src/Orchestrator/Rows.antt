-- ===== src/Orchestrator/Rows.antt =====
-- The stage rows of a run while apps/orchestrator/src/pipeline.ts runs its stages.
use verichron_epoch.Prelude.{
  ℕ, ◌≡◌, ◌≢◌, refl, ap, ◌∙◌, inl, inr, true, false, List, [], ◌∷◌, ◌++◌, Option, none, some,
  String, map, arith, Option-cases, All, str_eq, eq_refl, ==_iff,
}
use verichron_epoch.Orchestrator.{
  StageInput, decrypted, ileapp_output, crash_reports, indicator_set, StageDefinition, Registration,
  inputs_for,
}
use verichron_epoch.Orchestrator.Runs.{
  StageStatus, running, succeeded, failed, skipped, StageRow, Run, is_unresolved, unresolved_row,
  same_text, same_version, did_stage, answers, enabled_row, marked_row, mark_stage, update_run,
}
use verichron_epoch.Orchestrator.Pipeline.{
  Spawned, exits, throws, of_spawned, Paths, run_reading, absent, run_stage,
}

-- No row is of this stage.
abbrev pub Apart : String → List StageRow → Type 0
Apart name rows = All (λ (row : StageRow). str_eq row.stage_name name ≡ false) rows

marked-Apart :
    (name : String) (status : StageStatus) (message warnings : Option String) (now : ℕ)
    (rows : List StageRow)
    → Apart name rows
    → map (marked_row name status message warnings now) rows ≡ rows
unfolding marked_row
marked-Apart name status message warnings now [] h = refl
marked-Apart name status message warnings now (row ∷ rows) h =
    let first : marked_row name status message warnings now row ≡ row = simp (h.0) refl in
    let rest = marked-Apart name status message warnings now rows h.1 in cc

map_append :
    (f : StageRow → StageRow) (rows more : List StageRow)
    → map f (rows ++ more) ≡ map f rows ++ map f more
map_append f [] more = refl
map_append f (row ∷ rows) more = ap (λ r. f row ∷ r) (map_append f rows more)

-- Marking the one row of a stage.
marked_one :
    (name : String) (status : StageStatus) (message warnings : Option String) (now : ℕ)
    (before after : List StageRow) (row : StageRow)
    → Apart name before
    → Apart name after
    → map (marked_row name status message warnings now) (before ++ row ∷ after)
      ≡ before ++ marked_row name status message warnings now row ∷ after
marked_one name status message warnings now before after row h k =
    map_append (marked_row name status message warnings now) before (row ∷ after)
    ∙ ap (λ rows. rows ++ map (marked_row name status message warnings now) (row ∷ after))
        (marked-Apart name status message warnings now before h)
    ∙ ap (λ rows. before ++ marked_row name status message warnings now row ∷ rows)
        (marked-Apart name status message warnings now after k)

-- Of a run that none of the others shares its id with.
abbrev pub IsNew : String → List Run → Type 0
IsNew run_id runs = All (λ (r : Run). str_eq r.run_id run_id ≡ false) runs

pub update_run-IsNew :
    (run_id : String) (f : Run → Run) (runs : List Run)
    → IsNew run_id runs
    → update_run run_id f runs ≡ runs
unfolding update_run
update_run-IsNew run_id f [] h = refl
update_run-IsNew run_id f (run ∷ runs) h = simp (h.0, update_run-IsNew run_id f runs h.1) refl

pub update_run-first :
    (f : Run → Run) (run : Run) (runs : List Run)
    → IsNew run.run_id runs
    → update_run run.run_id f (run ∷ runs) ≡ f run ∷ runs
unfolding update_run
update_run-first f run runs h = simp (eq_refl run.run_id, update_run-IsNew run.run_id f runs h) refl

same_text_refl : (o : Option String) → same_text o o ≡ true
same_text_refl none = refl
same_text_refl (some a) = eq_refl a

same_version_refl : (o : Option ℕ) → same_version o o ≡ true
same_version_refl none = refl
same_version_refl (some a) = (==_iff a a).1 refl

pub mark_stage-one :
    (g : Run) (olds : List Run) (name : String) (status : StageStatus)
    (message warnings : Option String) (now : ℕ) (before after : List StageRow) (row : StageRow)
    → IsNew g.run_id olds
    → Apart name before
    → Apart name after
    → mark_stage
        (record g { stages = before ++ row ∷ after } ∷ olds)
        g.run_id
        name
        status
        message
        warnings
        now
      ≡ record g { stages = before ++ marked_row name status message warnings now row ∷ after }
        ∷ olds
unfolding mark_stage
mark_stage-one g olds name status message warnings now before after row new h k =
    update_run-first
      (λ run. record run { stages = map (marked_row name status message warnings now) run.stages })
      (record g { stages = before ++ row ∷ after }) olds new
    ∙ ap (λ rows. record g { stages = rows } ∷ olds)
        (marked_one name status message warnings now before after row h k)

-- A stage is skipped only for the reason that its input is absent.
pub run_stage-absent :
    (stage : StageDefinition) (p : Paths) (r : Registration) (set : Option String)
    (spawned : Spawned) (reason : String)
    → run_stage stage p r set spawned ≡ absent reason
    → (inputs_for stage r set).absent_reason ≡ some reason
unfolding run_stage of_spawned
run_stage-absent stage p r set spawned reason e =
    elim (Option-cases (inputs_for stage r set).absent_reason) [
      | inl present ↦ absurd (never stage.manifest.reads spawned (simp (present, run_stage) at e))
      | inr (why, missing) ↦ ground (arith, missing, simp (missing, run_stage) at e)
    ]
  where
    never :
        (reads : StageInput) (s : Spawned)
        → run_reading reads stage (inputs_for stage r set) p s ≢ absent reason
    never decrypted (exits ok stderr) h = ground arith
    never decrypted (throws message) h = ground arith
    never ileapp_output (exits ok stderr) h = ground arith
    never ileapp_output (throws message) h = ground arith
    never crash_reports (exits ok stderr) h = ground arith
    never crash_reports (throws message) h = ground arith
    never indicator_set (exits ok stderr) h = ground arith
    never indicator_set (throws message) h = ground arith

-- A row that answers its stage, and that is resolved.
abbrev pub IsDone : Registration → Option String → StageDefinition → StageRow → Type 0
IsDone r set stage row =
    (row.stage_name ≡ stage.name)
    × (answers stage (inputs_for stage r set) row ≡ true)
    × (unresolved_row row ≡ false)

abbrev pub row_with :
    Registration
    → Option String
    → StageDefinition
    → StageStatus
    → Option String
    → Option String
    → ℕ
    → StageRow
row_with r set stage status message warnings now = record (enabled_row r set stage) {
  status = status;
  error_message = message;
  warnings = warnings;
  started_at = some now;
  finished_at = some now;
}

pub row_with-IsDone :
    (r : Registration) (set : Option String) (stage : StageDefinition) (status : StageStatus)
    (message warnings : Option String) (now : ℕ)
    → did_stage
        (row_with r set stage status message warnings now)
        (inputs_for stage r set).absent_reason
      ≡ true
    → IsDone r set stage (row_with r set stage status message warnings now)
row_with-IsDone r set stage status message warnings now did = (
  refl,
  simp
      (
        eq_refl stage.name,
        did,
        same_version_refl stage.manifest.parser_version,
        same_text_refl (inputs_for stage r set).derivative_id,
        same_text_refl (inputs_for stage r set).indicator_set_id,
      )
      refl,
  resolved status did,
)
  where
    resolved :
        (s : StageStatus)
        → did_stage
            (row_with r set stage s message warnings now)
            (inputs_for stage r set).absent_reason
          ≡ true
        → is_unresolved s ≡ false
    resolved succeeded d = refl
    resolved skipped d = refl
    resolved failed d = absurd (ground arith)
    resolved running d = absurd (ground arith)
    resolved StageStatus.pending d = absurd (ground arith)
