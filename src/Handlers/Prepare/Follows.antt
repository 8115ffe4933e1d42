-- ===== src/Handlers/Prepare/Follows.antt =====
-- What the variables of the processor's handlers say, whatever happens, of
-- apps/epoch/src/main/ipc/pipelineHandlers.ts.
use verichron_epoch.Prelude.{
  ℕ, ◌≡◌, ◌⊎◌, refl, sym, ap, ◌∙◌, inl, inr, List, [], ◌∷◌, ◌++◌, Option, none, some, Text, arith,
  is_some, of_some, Bool-cases, Option-cases,
}
use verichron_epoch.PrepareProgress.Patterns.{is_empty, skip_spaces}
use verichron_epoch.Lines.{Decoder, LineSplitter, push, pending, newline, end}
use verichron_epoch.Sessions.Log.{Stream, stdout, stderr}
use verichron_epoch.Sessions.Prepare.{PrepareSession}
use verichron_epoch.Handlers.Life.{Life, none_lives, lives, failed}
use verichron_epoch.Handlers.Prepare.{
  prompted, StartPipelineOptions, workspace_path, Preparing, new_preparing, emit, emit_all,
  emit_rest, Processor, read_prompt, on_chunk, spawned, start_pipeline, on_error, on_close,
  report_closed, submit_backup_password,
}
use verichron_epoch.Handlers.Prepare.Events.{
  Step, starts, prints, prints_failed, submits, errs, errs_again, closes, closes_failed, reports,
  Reachable, at_first, after, if_prompted, awaiting_printed, awaiting_after, awaiting,
}

module _ (d : Decoder) where
  -- The variable of the process is that of the child that lives and has had no error, and nothing
  -- but its own password is asked for.
  abbrev pub IsWhole : Preparing → Life (Processor d) → Type 0
  IsWhole p none_lives = (p.running_processor ≡ none) × (p.pending_password ≡ none)
  IsWhole p (lives c) =
      (p.running_processor ≡ some c.pid)
      × ((p.pending_password ≡ none) ⊎ (p.pending_password ≡ some c.pid))
  IsWhole p (failed c) =
      (p.running_processor ≡ none)
      × ((p.pending_password ≡ none) ⊎ (p.pending_password ≡ some c.pid))

  abbrev Same : Preparing → Preparing → Type 0
  Same p p' =
      (p'.running_processor ≡ p.running_processor) × (p'.pending_password ≡ p.pending_password)

  emit_all-Same :
      (stream : Stream) (now : ℕ) (lines : List Text) (p : Preparing)
      → Same p (emit_all stream now lines p)
  unfolding emit_all emit
  emit_all-Same stream now [] p = (refl, refl)
  emit_all-Same stream now (line ∷ lines) p =
      emit_all-Same stream now lines (emit stream now line p)

  emit_rest-Same :
      (stream : Stream) (now : ℕ) (rest : Text) (p : Preparing)
      → Same p (emit_rest stream now rest p)
  unfolding emit
  emit_rest-Same stream now [] p = (refl, refl)
  emit_rest-Same stream now (c ∷ s) p = (refl, refl)

  -- What a chunk leaves of the variables, and of the child.
  abbrev Printed : Processor d → Stream → List ℕ → Preparing → Preparing × Processor d → Type 0
  Printed c stream chunk p (p', c') =
      (p'.running_processor ≡ p.running_processor)
      × (p'.pending_password ≡ awaiting_printed d c stream chunk p.pending_password)
      × (c'.pid ≡ c.pid)

  on_chunk-Printed :
      (c : Processor d) (stream : Stream) (chunk : List ℕ) (now : ℕ) (p : Preparing)
      → Printed c stream chunk p (on_chunk d stream chunk now c p)
  unfolding on_chunk emit
  on_chunk-Printed c stderr chunk now p =
      let (runs, waits) = emit_all-Same stderr now (push d c.err chunk).0 p in (runs, waits, refl)
  on_chunk-Printed c stdout chunk now p =
      let (lines, splitter) = push d c.out chunk in
      prompts (prompted (pending d splitter)) splitter (emit_all stdout now lines p)
        (emit_all-Same stdout now lines p)
    where
      prompts :
          (label : Option Text) (splitter : LineSplitter d) (q : Preparing)
          → Same p q
          → let (p', c') = read_prompt d now c splitter label q in
            (p'.running_processor ≡ p.running_processor)
            × (p'.pending_password ≡ if_prompted d c.pid label p.pending_password)
            × (c'.pid ≡ c.pid)
      prompts none splitter q (runs, waits) = (runs, waits, refl)
      prompts (some label) splitter q (runs, waits) = (runs, refl, refl)

  own_prompt :
      (c : Processor d) (stream : Stream) (chunk : List ℕ) (before : Option ℕ)
      → (before ≡ none) ⊎ (before ≡ some c.pid)
      → (awaiting_printed d c stream chunk before ≡ none)
        ⊎ (awaiting_printed d c stream chunk before ≡ some c.pid)
  own_prompt c stderr chunk before h = h
  own_prompt c stdout chunk before h = go (prompted (pending d (push d c.out chunk).1))
    where
      go :
          (label : Option Text)
          → (if_prompted d c.pid label before ≡ none)
            ⊎ (if_prompted d c.pid label before ≡ some c.pid)
      go none = h
      go (some label) = inr refl

  on_close-Emptied :
      (code : Option ℕ) (now : ℕ) (c : Processor d) (p : Preparing)
      → IsWhole (on_close d code now c p) none_lives
  unfolding on_close
  on_close-Emptied code now c p =
      let p1 : Preparing = record p { running_processor = none; pending_password = none } in
      let p2 : Preparing = emit_rest stdout now (end d c.out).0 p1 in
      let (runs, waits) = emit_rest-Same stdout now (end d c.out).0 p1 in
      let (runs', waits') = emit_rest-Same stderr now (end d c.err).0 p2 in
      (runs' ∙ runs, waits' ∙ waits)

  -- What a submitted password does.
  pub submitted :
      (password : Text) (now : ℕ) (p p' : Preparing)
      → submit_backup_password password now p ≡ some p'
      → (pid : ℕ) × (p.pending_password ≡ some pid)
        × (p'.written ≡ (pid, password ++ newline ∷ []) ∷ p.written)
        × (p'.running_processor ≡ p.running_processor)
        × (p'.pending_password ≡ none)
  unfolding submit_backup_password
  submitted password now p p' e = elim (Bool-cases (is_some p.running_processor)) [
    | inr idle ↦ absurd (ground (arith, simp idle at e))
    | inl runs ↦ elim (Option-cases p.pending_password) [
      | inl nothing ↦ absurd (ground (arith, simp (runs, nothing) at e))
      | inr (pid, waits) ↦
          let e' = of_some (simp (runs, waits) at e) in
          (pid, waits, rw (← e') refl, rw (← e') refl, rw (← e') refl)
    ]
  ]

  submit-IsWhole :
      (password : Text) (now : ℕ) (p p' : Preparing) (l : Life (Processor d))
      → submit_backup_password password now p ≡ some p'
      → IsWhole p l
      → IsWhole p' l
  submit-IsWhole password now p p' none_lives e (idle, h) =
      let (pid, waits, wrote, runs, done) = submitted password now p p' e in (runs ∙ idle, done)
  submit-IsWhole password now p p' (lives c) e (runs, h) =
      let (asked, waits, wrote, same, done) = submitted password now p p' e in
      (same ∙ runs, inl done)
  submit-IsWhole password now p p' (failed c) e (runs, h) =
      let (asked, waits, wrote, same, done) = submitted password now p p' e in
      (same ∙ runs, inl done)

  start-variables :
      (default source : Text) (options : StartPipelineOptions) (now : ℕ) (p p' : Preparing)
      (c : Processor d)
      → start_pipeline d default source options now p ≡ some (p', c)
      → (p'.running_processor ≡ some c.pid) × (p'.pending_password ≡ none)
  unfolding start_pipeline
  start-variables default source options now p p' c e =
      elim (Bool-cases (is_some p.running_processor)) [
        | inl busy ↦ absurd (ground (arith, simp busy at e))
        | inr idle ↦ elim (Bool-cases (is_empty (skip_spaces source))) [
          | inl blank ↦ absurd (ground (arith, simp (idle, blank) at e))
          | inr given ↦
              let same : spawned d source options (workspace_path default options.workspace) now p
                  ≡ (p', c) =
                of_some (simp (idle, given) at e) in
              (
                sym (ap (λ (r : Preparing × Processor d). r.0.running_processor) same)
                    ∙ ap (λ (r : Preparing × Processor d). some r.1.pid) same,
                sym (ap (λ (r : Preparing × Processor d). r.0.pending_password) same),
              )
        ]
      ]

  -- What `awaiting` keeps, and what the variables keep.
  unfoldable pub Follows : Preparing → Life (Processor d) → Option ℕ → Type 0
  Follows p l waiting = IsWhole p l × (p.pending_password ≡ waiting)

  step-Follows :
      (p p' : Preparing) (l l' : Life (Processor d)) (step : Step d p l p' l') (before : Option ℕ)
      → Follows p l before
      → Follows p' l' (awaiting_after d step before)
  unfolding Follows awaiting_after on_error report_closed
  step-Follows _ _ _ _ (starts p p' l c default source options now _ e) before h =
      let (runs, waits) = start-variables default source options now p p' c e in
      ((runs, inl waits), waits)
  step-Follows _ _ _ _ (prints p c stream chunk now) before ((runs, own), waits) =
      let (runs', waits', same) = on_chunk-Printed c stream chunk now p in
      (
        (
          runs' ∙ runs ∙ ap some (sym same),
          rw (waits', same) (own_prompt c stream chunk p.pending_password own),
        ),
        waits' ∙ ap (awaiting_printed d c stream chunk) waits,
      )
  step-Follows _ _ _ _ (prints_failed p c stream chunk now) before ((runs, own), waits) =
      let (runs', waits', same) = on_chunk-Printed c stream chunk now p in
      (
        (runs' ∙ runs, rw (waits', same) (own_prompt c stream chunk p.pending_password own)),
        waits' ∙ ap (awaiting_printed d c stream chunk) waits,
      )
  step-Follows _ _ _ _ (submits p p' l password now e) before (h, waits) =
      (submit-IsWhole password now p p' l e h, (submitted password now p p' e).4)
  step-Follows _ _ _ _ (errs p c message now) before h = ((refl, inl refl), refl)
  step-Follows _ _ _ _ (errs_again p c message now) before h = ((refl, inl refl), refl)
  step-Follows _ _ _ _ (closes p c code now) before h =
      let whole = on_close-Emptied code now c p in (whole, whole.1)
  step-Follows _ _ _ _ (closes_failed p c code now) before h =
      let whole = on_close-Emptied code now c p in (whole, whole.1)
  step-Follows _ _ _ _ (reports p none_lives c backups now) before h = h
  step-Follows _ _ _ _ (reports p (lives child) c backups now) before h = h
  step-Follows _ _ _ _ (reports p (failed child) c backups now) before h = h

  pub reachable-Follows :
      (session : PrepareSession) (p : Preparing) (l : Life (Processor d))
      (reached : Reachable d session p l)
      → Follows p l (awaiting d session reached)
  unfolding Follows awaiting new_preparing
  reachable-Follows session _ _ at_first = ((refl, refl), refl)
  reachable-Follows session _ _ (after p p' l l' before step) =
      step-Follows p p' l l' step (awaiting d session before) (reachable-Follows session p l before)
