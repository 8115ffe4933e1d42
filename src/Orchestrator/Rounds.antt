-- ===== src/Orchestrator/Rounds.antt =====
-- The loop over the stages of apps/orchestrator/src/pipeline.ts, round by round.
use mathlib.Core.List.{append_assoc}
use verichron_epoch.Prelude.{
  ℕ, ◌≡◌, refl, sym, ap, ◌∙◌, inl, inr, ◌⊎◌, Bool, true, false, List, [], ◌∷◌, ◌++◌, Option, none,
  some, String, map, arith, All, str_eq, eq_refl,
}
use verichron_epoch.Orchestrator.{StageDefinition, Registration, inputs_for}
use verichron_epoch.Orchestrator.Runs.{
  StageStatus, running, succeeded, skipped, StageRow, Run, enabled_row, marked_row, mark_stage,
}
use verichron_epoch.Orchestrator.Pipeline.{
  StageOutcome, ran, absent, thrown, Context, StageResult, succeeded_all, or_none, run_stage,
  mark_outcome, run_stages,
}
use verichron_epoch.Orchestrator.Rows.{
  Apart, IsNew, IsDone, row_with, row_with-IsDone, mark_stage-one,
}

-- What marking the row of a stage as running, and then as it ended, leaves in it.
marked_row-ended :
    (r : Registration) (set : Option String) (stage : StageDefinition) (status : StageStatus)
    (message warnings : Option String) (now : ℕ)
    → (status ≡ succeeded) ⊎ (status ≡ skipped)
    → marked_row stage.name status message warnings now
        (marked_row stage.name running none none now (enabled_row r set stage))
      ≡ row_with r set stage status message warnings now
unfolding marked_row
marked_row-ended r set stage status message warnings now (inl e) = simp (e, eq_refl stage.name) refl
marked_row-ended r set stage status message warnings now (inr e) = simp (e, eq_refl stage.name) refl

marked_twice :
    (g : Run) (olds : List Run) (r : Registration) (set : Option String) (stage : StageDefinition)
    (status : StageStatus) (message warnings : Option String) (now : ℕ)
    (before after : List StageRow)
    → IsNew g.run_id olds
    → Apart stage.name before
    → Apart stage.name after
    → (status ≡ succeeded) ⊎ (status ≡ skipped)
    → mark_stage
        (mark_stage
          (record g { stages = before ++ enabled_row r set stage ∷ after } ∷ olds)
          g.run_id
          stage.name
          running
          none
          none
          now)
        g.run_id
        stage.name
        status
        message
        warnings
        now
      ≡ record g { stages = before ++ row_with r set stage status message warnings now ∷ after }
        ∷ olds
marked_twice g olds r set stage status message warnings now before after new h k ends =
    let start : StageRow = enabled_row r set stage in
    let going : StageRow = marked_row stage.name running none none now start in
    ap (λ runs. mark_stage runs g.run_id stage.name status message warnings now)
      (mark_stage-one g olds stage.name running none none now before after start new h k)
    ∙ mark_stage-one g olds stage.name status message warnings now before after going new h k
    ∙ ap (λ row. record g { stages = before ++ row ∷ after } ∷ olds)
        (marked_row-ended r set stage status message warnings now ends)

-- A stage that succeeds, or is skipped for what it lacks, has a row that is done.
pub mark_outcome-IsDone :
    (g : Run) (olds : List Run) (r : Registration) (set : Option String) (stage : StageDefinition)
    (outcome : StageOutcome) (now : ℕ) (before after : List StageRow)
    → IsNew g.run_id olds
    → Apart stage.name before
    → Apart stage.name after
    → ((reason : String)
        → outcome ≡ absent reason
        → (inputs_for stage r set).absent_reason ≡ some reason)
    → let started =
        mark_stage
          (record g { stages = before ++ enabled_row r set stage ∷ after } ∷ olds)
          g.run_id
          stage.name
          running
          none
          none
          now in
      let (runs, result) = mark_outcome started g.run_id stage outcome now in
      result ≡ inl true
      → (row : StageRow) × (runs ≡ record g { stages = before ++ row ∷ after } ∷ olds)
        × IsDone r set stage row
unfolding mark_outcome
mark_outcome-IsDone g olds r set stage (ran false stderr) now before after new h k why e =
    absurd (ground arith)
mark_outcome-IsDone g olds r set stage (thrown message) now before after new h k why e =
    absurd (ground arith)
mark_outcome-IsDone g olds r set stage (ran true stderr) now before after new h k why e =
    let warnings = or_none stderr in
    (
      row_with r set stage succeeded none warnings now,
      marked_twice g olds r set stage succeeded none warnings now before after new h k (inl refl),
      row_with-IsDone r set stage succeeded none warnings now refl,
    )
mark_outcome-IsDone g olds r set stage (absent reason) now before after new h k why e = (
  row_with r set stage skipped (some reason) none now,
  marked_twice g olds r set stage skipped (some reason) none now before after new h k (inr refl),
  row_with-IsDone r set stage skipped (some reason) none now
      (simp (why reason refl, eq_refl reason) refl),
)

abbrev pub rows_of : Context → List StageDefinition → List StageRow
rows_of x stages = map (enabled_row x.registration x.indicator_set) stages

-- No stage has the name of another.
abbrev pub Distinct : List StageDefinition → Type 0
Distinct [] = Unit
Distinct (s ∷ ss) =
    All (λ (t : StageDefinition). (str_eq s.name t.name ≡ false) × (str_eq t.name s.name ≡ false))
      ss
    × Distinct ss

abbrev pub ApartFrom : List StageRow → List StageDefinition → Type 0
ApartFrom rows stages = All (λ (s : StageDefinition). Apart s.name rows) stages

abbrev pub AllDone : Context → List StageDefinition → List StageRow → Type 0
AllDone x [] [] = Unit
AllDone x (s ∷ ss) (row ∷ rows) = IsDone x.registration x.indicator_set s row × AllDone x ss rows
AllDone x _ _ = ⊥

succeeded_all-append :
    (results : List StageResult) (r : StageResult)
    → succeeded_all (results ++ r ∷ []) ≡ true
    → (succeeded_all results ≡ true) × (r.success ≡ true)
succeeded_all-append [] r e = (refl, ground arith)
succeeded_all-append (q ∷ qs) r e = ground (arith, succeeded_all-append qs r)

pub run_stages-succeeded :
    (x : Context) (todo : List StageDefinition) (runs : List Run) (results : List StageResult)
    → succeeded_all (run_stages x todo runs results).1 ≡ true
    → succeeded_all results ≡ true
unfolding run_stages
run_stages-succeeded x [] runs results e = e
run_stages-succeeded x (s ∷ ss) runs results e =
    by
      (mark_outcome (mark_stage runs x.run_id s.name running none none x.now) x.run_id s
        (run_stage s x.paths x.registration x.indicator_set (x.spawn s)) x.now)
      (λ more rs. run_stages-succeeded x ss more rs) e
  where
    by :
        (mo : List Run × (Bool ⊎ String))
        → ((more : List Run) (rs : List StageResult)
            → succeeded_all (run_stages x ss more rs).1 ≡ true
            → succeeded_all rs ≡ true)
        → succeeded_all
            (elim mo.1 as (λ q. List Run × List StageResult × Option String) [
              | inl success ↦
                  run_stages x ss mo.0
                    (results ++ record { stage = s.name; success = success } ∷ [])
              | inr message ↦ (mo.0, results, some message)
            ]).1
          ≡ true
        → succeeded_all results ≡ true
    by (more, inl success) rest h =
        (succeeded_all-append results (record { stage = s.name; success = success })
          (rest more (results ++ record { stage = s.name; success = success } ∷ []) h)).0
    by (more, inr message) rest h = h

-- What the loop has made of a run, where it ended with every stage a success.
abbrev pub Ended :
    Context
    → Run
    → List Run
    → List StageRow
    → List StageRow
    → List StageDefinition
    → List Run × List StageResult × Option String
    → Type 0
Ended x g olds before tail todo out =
    out.2 ≡ none
    → succeeded_all out.1 ≡ true
    → (rows : List StageRow) × (out.0 ≡ record g { stages = before ++ (rows ++ tail) } ∷ olds)
      × AllDone x todo rows

abbrev pub Ends : Context → List StageDefinition → Type 0
Ends x todo =
    (b : Run) (olds : List Run) (before tail : List StageRow) (results : List StageResult)
    → IsNew x.run_id olds
    → ApartFrom before todo
    → ApartFrom tail todo
    → Distinct todo
    → let g : Run = record b { run_id = x.run_id } in
      Ended x g olds before tail todo (
        run_stages x todo (record g { stages = before ++ (rows_of x todo ++ tail) } ∷ olds) results)

pub after_round :
    (x : Context) (g : Run) (olds : List Run) (before tail : List StageRow) (s : StageDefinition)
    (ss : List StageDefinition) (results : List StageResult) (mo : List Run × (Bool ⊎ String))
    → (mo.1 ≡ inl true
        → (row : StageRow) × (mo.0
            ≡ record g { stages = before ++ row ∷ (rows_of x ss ++ tail) } ∷ olds)
          × IsDone x.registration x.indicator_set s row)
    → ((row : StageRow) (rs : List StageResult)
        → row.stage_name ≡ s.name
        → Ended x g olds (before ++ row ∷ []) tail ss (
            run_stages x ss
              (record g { stages = (before ++ row ∷ []) ++ (rows_of x ss ++ tail) } ∷ olds)
              rs))
    → Ended x g olds before tail
        (s ∷ ss)
        (elim mo.1 as (λ q. List Run × List StageResult × Option String) [
          | inl success ↦
              run_stages x ss mo.0 (results ++ record { stage = s.name; success = success } ∷ [])
          | inr message ↦ (mo.0, results, some message)
        ])
after_round x g olds before tail s ss results (more, inr message) made rest error ok =
    absurd (ground arith)
after_round x g olds before tail s ss results (more, inl false) made rest error ok =
    let r : StageResult = record { stage = s.name; success = false } in
    absurd (
      ground (
        arith,
        (succeeded_all-append results r (run_stages-succeeded x ss more (results ++ r ∷ []) ok)).1,
      ))
after_round x g olds before tail s ss results (more, inl true) made rest error ok =
    let r : StageResult = record { stage = s.name; success = true } in
    let (row, marked, done) = made refl in
    let regrouped : more
        ≡ record g { stages = (before ++ row ∷ []) ++ (rows_of x ss ++ tail) } ∷ olds =
      marked
      ∙ ap (λ (rows : List StageRow). record g { stages = rows } ∷ olds)
          (sym (append_assoc before (row ∷ []) (rows_of x ss ++ tail))) in
    let (rows, runs, all_done) =
      rest row (results ++ r ∷ []) done.0 (rw regrouped at error) (rw regrouped at ok) in
    (
      row ∷ rows,
      ap (λ more. (run_stages x ss more (results ++ r ∷ [])).0) regrouped
          ∙ runs
          ∙ ap (λ (rows : List StageRow). record g { stages = rows } ∷ olds)
              (append_assoc before (row ∷ []) (rows ++ tail)),
      (done, all_done),
    )
