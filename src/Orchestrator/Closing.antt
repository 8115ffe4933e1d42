-- ===== src/Orchestrator/Closing.antt =====
-- What closing the runs that a dead process left does to them.
use verichron_epoch.Prelude.{
  ℕ, ◌≡◌, refl, inl, inr, Bool, true, false, ◌&&◌, not, List, [], ◌∷◌, none, String, map, arith,
  is_some, any, Bool-cases, All,
}
use verichron_epoch.Orchestrator.Runs.{
  StageRow, Run, is_open, closed_row, closed_run, close_if, restarted, close_dangling,
  reconcile_stale_runs_on_startup,
}

-- A run that is not left open: it has finished, and none of its stages is pending or running.
abbrev pub IsClosed : Run → Type 0
IsClosed run =
    (is_some run.finished_at ≡ true)
    × (any (λ (row : StageRow). is_open row.status) run.stages ≡ false)

closed_rows :
    (message : String) (now : ℕ) (rows : List StageRow)
    → any (λ (row : StageRow). is_open row.status) (map (closed_row message now) rows) ≡ false
unfolding closed_row
closed_rows message now [] = refl
closed_rows message now (row ∷ rows) = ground (arith, closed_rows message now rows)

-- What happens to one run: it is closed, with its open stages failed, if it is selected and
-- unfinished, and otherwise it stays as it is.
pub data Fate (selects : String → Bool) (run run' : Run) : Type 0 where
  closes :
      selects run.backup_source ≡ true
      → run.finished_at ≡ none
      → IsClosed run'
      → run'.run_id ≡ run.run_id
      → Fate selects run run'
  stays :
      (selects run.backup_source && not (is_some run.finished_at)) ≡ false
      → run' ≡ run
      → Fate selects run run'

abbrev pub Fates : (String → Bool) → List Run → List Run → Type 0
Fates selects [] [] = Unit
Fates selects (run ∷ runs) (run' ∷ runs') = Fate selects run run' × Fates selects runs runs'
Fates selects _ _ = ⊥

close_if-Fate :
    (selects : String → Bool) (message : String) (now : ℕ) (run : Run)
    → Fate selects run (close_if selects message now run)
unfolding close_if closed_run
close_if-Fate selects message now run =
    elim (Bool-cases (selects run.backup_source && not (is_some run.finished_at))) [
      | inl selected ↦
          simp selected
            (closes (ground arith) (ground arith) (refl, closed_rows message now run.stages) refl)
      | inr other ↦ simp other (stays other refl)
    ]

-- Closing dangling runs closes exactly the unfinished runs whose source is selected, each with no
-- stage left pending or running, and leaves every other run as it is, row for row.
pub close_dangling-Fates :
    (selects : String → Bool) (message : String) (now : ℕ) (runs : List Run)
    → Fates selects runs (close_dangling selects message now runs)
unfolding close_dangling
close_dangling-Fates selects message now [] = tt
close_dangling-Fates selects message now (run ∷ runs) =
    (close_if-Fate selects message now run, close_dangling-Fates selects message now runs)

abbrev everything : String → Bool
everything source = true

close_if-finished :
    (message : String) (now : ℕ) (run : Run)
    → is_some (close_if everything message now run).finished_at ≡ true
unfolding close_if closed_run
close_if-finished message now run = ground arith

close_if-again :
    (message : String) (now : ℕ) (run : Run)
    → is_some run.finished_at ≡ true
    → close_if everything message now run ≡ run
unfolding close_if
close_if-again message now run e = simp e refl

-- After a startup's reconciliation every run has finished, and another one changes nothing.
reconcile-reconcile :
    (now later : ℕ) (runs : List Run)
    → let after = reconcile_stale_runs_on_startup now runs in
      All (λ (run : Run). is_some run.finished_at ≡ true) after
      × (reconcile_stale_runs_on_startup later after ≡ after)
unfolding reconcile_stale_runs_on_startup close_dangling
reconcile-reconcile now later [] = (tt, refl)
reconcile-reconcile now later (run ∷ runs) =
    let (finished, same) = reconcile-reconcile now later runs in
    let ended = close_if-finished restarted now run in
    let first = close_if-again restarted later (close_if everything restarted now run) ended in
    ((ended, finished), cc)
