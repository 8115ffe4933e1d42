-- ===== src/Orchestrator/Resume.antt =====
-- A run of apps/orchestrator/src/pipeline.ts that succeeded is one that the resume check of
-- apps/orchestrator/src/db.ts finds.
use mathlib.Core.List.{append_assoc}
use verichron_epoch.Prelude.{
  ◌≡◌, refl, sym, ap, ◌∙◌, inl, inr, Bool, true, false, List, [], ◌∷◌, ◌++◌, Option, none, some,
  String, map, arith, any, all, Bool-cases, Option-cases, All, All-append, str_eq, eq_refl, ltb,
}
use verichron_epoch.Orchestrator.{StageDefinition, StageSet, inputs_for}
use verichron_epoch.Orchestrator.Runs.{
  StageRow, Run, running, mark_stage, unresolved_row, answers, qualifies, disabled_row, run_state,
  create_run, finish_run, mark_run_failed, find_complete_run_for, later, newest_of,
}
use verichron_epoch.Orchestrator.Pipeline.{
  Context, StageResult, succeeded_all, run_stage, mark_outcome, run_stages, BackupRunResult,
  already_done, finished, failed_with, run_pipeline_for_backup,
}
use verichron_epoch.Orchestrator.Rows.{Apart, IsNew, run_stage-absent, update_run-first}
use verichron_epoch.Orchestrator.Rounds.{
  rows_of, Distinct, ApartFrom, AllDone, Ends, mark_outcome-IsDone, after_round,
}

distinct-Apart :
    (x : Context) (s : StageDefinition) (ss : List StageDefinition)
    → All
        (λ (t : StageDefinition). (str_eq s.name t.name ≡ false) × (str_eq t.name s.name ≡ false))
        ss
    → Apart s.name (rows_of x ss)
distinct-Apart x s [] h = tt
distinct-Apart x s (t ∷ ss) h = (h.0.1, distinct-Apart x s ss h.1)

Apart-row :
    (before : List StageRow) (row : StageRow) (s : StageDefinition) (ss : List StageDefinition)
    → row.stage_name ≡ s.name
    → All
        (λ (t : StageDefinition). (str_eq s.name t.name ≡ false) × (str_eq t.name s.name ≡ false))
        ss
    → ApartFrom before ss
    → ApartFrom (before ++ row ∷ []) ss
Apart-row before row s [] e d h = tt
Apart-row before row s (t ∷ ss) e d h = (
  All-append (λ (r : StageRow). str_eq r.stage_name t.name ≡ false) before (row ∷ []) h.0
      (ap (λ n. str_eq n t.name) e ∙ d.0.0, tt),
  Apart-row before row s ss e d.1 h.1,
)

run_stages-Ends : (x : Context) (todo : List StageDefinition) → Ends x todo
unfolding run_stages
run_stages-Ends x [] b olds before tail results new h k d = λ error ok. ([], refl, tt)
run_stages-Ends x (s ∷ ss) b olds before tail results new h k d =
    let g : Run = record b { run_id = x.run_id } in
    let outcome = run_stage s x.paths x.registration x.indicator_set (x.spawn s) in
    let behind : Apart s.name (rows_of x ss ++ tail) =
      All-append (λ (r : StageRow). str_eq r.stage_name s.name ≡ false) (rows_of x ss) tail
        (distinct-Apart x s ss d.0) k.0 in
    after_round x g olds before tail s ss results
      (mark_outcome
        (mark_stage (record g { stages = before ++ (rows_of x (s ∷ ss) ++ tail) } ∷ olds) x.run_id
          s.name running none none x.now)
        x.run_id s outcome x.now)
      (mark_outcome-IsDone g olds x.registration x.indicator_set s outcome x.now before
        (rows_of x ss ++ tail) new h.0 behind
        (λ reason e.
          run_stage-absent s x.paths x.registration x.indicator_set (x.spawn s) reason e))
      (λ row rs named.
        run_stages-Ends x ss b olds (before ++ row ∷ []) tail rs new
          (Apart-row before row s ss named d.0 h.1) k.1 d.1)

any-append :
    (p : StageRow → Bool) (front rows : List StageRow)
    → any p rows ≡ true
    → any p (front ++ rows) ≡ true
any-append p [] rows h = h
any-append p (r ∷ front) rows h = ground (arith, any-append p front rows h)

any-first :
    (p : StageRow → Bool) (row : StageRow) (rows : List StageRow)
    → p row ≡ true
    → any p (row ∷ rows) ≡ true
any-first p row rows h = ground arith

-- Every stage that is done is covered by the rows, wherever its own row stands among them.
done-covered :
    (x : Context) (stages : List StageDefinition) (front rows tail : List StageRow)
    → AllDone x stages rows
    → all
        (λ (s : StageDefinition).
          any (answers s (inputs_for s x.registration x.indicator_set)) (front ++ (rows ++ tail)))
        stages
      ≡ true
done-covered x [] front [] tail h = refl
done-covered x [] front (row ∷ rows) tail h = absurd h
done-covered x (s ∷ ss) front [] tail h = absurd h
done-covered x (s ∷ ss) front (row ∷ rows) tail h =
    let p : StageRow → Bool = answers s (inputs_for s x.registration x.indicator_set) in
    let here : any p (front ++ row ∷ (rows ++ tail)) ≡ true =
      any-append p front (row ∷ (rows ++ tail)) (any-first p row (rows ++ tail) h.0.1) in
    let rest =
      rw (append_assoc front (row ∷ []) (rows ++ tail)) at
        (done-covered x ss (front ++ row ∷ []) rows tail h.1) in
    simp (here, rest) refl

done-resolved :
    (x : Context) (stages : List StageDefinition) (rows tail : List StageRow)
    → AllDone x stages rows
    → any unresolved_row tail ≡ false
    → any unresolved_row (rows ++ tail) ≡ false
done-resolved x [] [] tail h k = k
done-resolved x [] (row ∷ rows) tail h k = absurd h
done-resolved x (s ∷ ss) [] tail h k = absurd h
done-resolved x (s ∷ ss) (row ∷ rows) tail h k =
    simp (h.0.2, done-resolved x ss rows tail h.1 k) refl

disabled-resolved :
    (stages : List StageDefinition) → any unresolved_row (map disabled_row stages) ≡ false
disabled-resolved [] = refl
disabled-resolved (s ∷ ss) = disabled-resolved ss

newest-found :
    (p : Run → Bool) (run : Run) (runs : List Run)
    → p run ≡ true
    → (best : Run) × (newest_of p (run ∷ runs) ≡ some best)
unfolding newest_of later
newest-found p run runs h = simp h (found (newest_of p runs))
  where
    found : (o : Option Run) → (best : Run) × (later o run ≡ some best)
    found none = (run, refl)
    found (some best) = elim (Option-cases run.finished_at) [
      | inl unfinished ↦ (best, simp (unfinished, later) refl)
      | inr (t, ended) ↦ elim (Option-cases best.finished_at) [
        | inl never ↦ (run, simp (ended, never, later) refl)
        | inr (u, before) ↦ elim (Bool-cases (ltb u t)) [
          | inl newer ↦ (run, simp (ended, before, newer, later) refl)
          | inr older ↦ (best, simp (ended, before, older, later) refl)
        ]
      ]
    ]

created_run : Context → StageSet → Run
created_run x stages = record {
  run_id = x.run_id;
  backup_source = x.paths.backup_path;
  evidence_id = x.registration.evidence_id;
  derivative_id = x.registration.decrypted_derivative_id;
  finished_at = none;
  stages = rows_of x stages.enabled ++ map disabled_row stages.disabled;
}

abbrev looped : Context → StageSet → List Run → List Run × List StageResult × Option String
looped x stages runs =
    run_stages x stages.enabled
      (create_run runs x.run_id x.paths.backup_path stages x.registration x.indicator_set) []

nothing-ApartFrom : (stages : List StageDefinition) → ApartFrom [] stages
nothing-ApartFrom [] = tt
nothing-ApartFrom (s ∷ ss) = (tt, nothing-ApartFrom ss)

-- What a pipeline that ended as a success went through.
went_through :
    (x : Context) (stages : StageSet) (runs runs' : List Run) (results : List StageResult)
    → run_pipeline_for_backup x stages runs ≡ (runs', finished results true)
    → ((looped x stages runs).2 ≡ none)
      × (succeeded_all (looped x stages runs).1 ≡ true)
      × (finish_run (looped x stages runs).0 x.run_id x.now ≡ runs')
unfolding run_pipeline_for_backup
went_through x stages runs runs' results e =
    elim (Option-cases (find_complete_run_for runs x.registration stages.enabled x.indicator_set)) [
      | inr (run, there) ↦ absurd (ground (arith, simp (there, run_pipeline_for_backup) at e))
      | inl missing ↦ by (looped x stages runs) (simp (missing, run_pipeline_for_backup) at e)
    ]
  where
    by :
        (out : List Run × List StageResult × Option String)
        → (elim out.2 as (λ o. List Run × BackupRunResult) [
          | none ↦ (finish_run out.0 x.run_id x.now, finished out.1 (succeeded_all out.1))
          | some message ↦ (mark_run_failed out.0 x.run_id message x.now, failed_with message)
        ])
          ≡ (runs', finished results true)
        → (out.2 ≡ none) × (succeeded_all out.1 ≡ true) × (finish_run out.0 x.run_id x.now ≡ runs')
    by (a, b, none) h = (
      refl,
      ground (arith, ap (λ (r : List Run × BackupRunResult). r.1) h),
      ap (λ (r : List Run × BackupRunResult). r.0) h,
    )
    by (a, b, some message) h =
        absurd (ground (arith, ap (λ (r : List Run × BackupRunResult). r.1) h))

-- The run that a successful pipeline leaves, first among the runs.
successful_run :
    (x : Context) (stages : StageSet) (runs runs' : List Run) (results : List StageResult)
    → IsNew x.run_id runs
    → Distinct stages.enabled
    → ApartFrom (map disabled_row stages.disabled) stages.enabled
    → run_pipeline_for_backup x stages runs ≡ (runs', finished results true)
    → (run : Run) × (runs' ≡ run ∷ runs)
      × (qualifies x.registration x.indicator_set stages.enabled run ≡ true)
unfolding created_run create_run finish_run run_state
successful_run x stages runs runs' results new distinct apart e =
    let tail : List StageRow = map disabled_row stages.disabled in
    let (no_error, ok, ends) = went_through x stages runs runs' results e in
    let (rows, out, done) =
      run_stages-Ends x stages.enabled (created_run x stages) runs [] tail [] new
        (nothing-ApartFrom stages.enabled) apart distinct no_error ok in
    let run : Run = record (created_run x stages) {
      stages = rows ++ tail;
      finished_at = some x.now;
    } in
    let resolved =
      done-resolved x stages.enabled rows tail done (disabled-resolved stages.disabled) in
    let covered = done-covered x stages.enabled [] rows tail done in
    (
      run,
      sym ends
          ∙ ap (λ more. finish_run more x.run_id x.now) out
          ∙ update_run-first (λ r. record r { finished_at = some x.now })
              (record (created_run x stages) { stages = rows ++ tail }) runs new,
      simp
          (
            eq_refl x.registration.evidence_id,
            eq_refl x.registration.decrypted_derivative_id,
            resolved,
            covered,
          )
          refl,
    )

-- A run in which every stage succeeded, or was skipped for an input that this evidence lacks, is
-- found by the resume check: running the pipeline again over the same registration, stages and
-- indicator set leaves the database as it is and reports the backup as done already. This is where
-- the run's id is new, and no two stages have one name.
pub run_pipeline-again :
    (x again : Context) (stages : StageSet) (runs runs' : List Run) (results : List StageResult)
    → IsNew x.run_id runs
    → Distinct stages.enabled
    → ApartFrom (map disabled_row stages.disabled) stages.enabled
    → again.registration ≡ x.registration
    → again.indicator_set ≡ x.indicator_set
    → run_pipeline_for_backup x stages runs ≡ (runs', finished results true)
    → run_pipeline_for_backup again stages runs' ≡ (runs', already_done)
unfolding run_pipeline_for_backup find_complete_run_for
run_pipeline-again x again stages runs runs' results new distinct apart same_evidence same_set e =
    let (run, made, good) = successful_run x stages runs runs' results new distinct apart e in
    let (best, there) =
      newest-found (qualifies x.registration x.indicator_set stages.enabled) run runs good in
    let found : find_complete_run_for runs' again.registration stages.enabled again.indicator_set
        ≡ some best =
      ap (λ rs. find_complete_run_for rs again.registration stages.enabled again.indicator_set) made
      ∙ ap (λ r. find_complete_run_for (run ∷ runs) r stages.enabled again.indicator_set)
          same_evidence
      ∙ ap (λ s. find_complete_run_for (run ∷ runs) x.registration stages.enabled s) same_set
      ∙ there in
    simp (found, run_pipeline_for_backup) refl
