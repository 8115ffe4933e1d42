-- ===== src/Handlers/Prepare/Steps.antt =====
-- That a password is written only to the processor that asks for it, by the handlers of
-- apps/epoch/src/main/ipc/pipelineHandlers.ts.
use verichron_epoch.Prelude.{
  ℕ, ◌≡◌, ◌⊎◌, refl, sym, ap, ◌∙◌, inl, inr, [], ◌∷◌, ◌++◌, Option, none, some, Text, arith,
  is_some, of_some, Bool-cases,
}
use verichron_epoch.Lines.{Decoder, newline}
use verichron_epoch.Sessions.Prepare.{PrepareSession}
use verichron_epoch.Handlers.Life.{Life, none_lives, lives, failed, living}
use verichron_epoch.Handlers.Prepare.{Preparing, Processor, submit_backup_password}
use verichron_epoch.Handlers.Prepare.Events.{Reachable, awaiting}
use verichron_epoch.Handlers.Prepare.Follows.{Follows, submitted, reachable-Follows}

module _ (d : Decoder) where
  -- What comes of a password. It is refused where nothing waits for one, or no child lives without
  -- an error; otherwise it is written to the child that lives and waits for it, and another one is
  -- then refused.
  abbrev pub Submission :
      Preparing → Life (Processor d) → Option ℕ → Text → Text → ℕ → Option Preparing → Type 0
  Submission p l waiting password other now none = (waiting ≡ none) ⊎ (living l ≡ none)
  Submission p l waiting password other now (some p') =
      (c : Processor d) × (l ≡ lives c)
      × (waiting ≡ some c.pid)
      × (p'.written ≡ (c.pid, password ++ newline ∷ []) ∷ p.written)
      × (p'.running_processor ≡ some c.pid)
      × (submit_backup_password other now p' ≡ none)

  refused :
      (password : Text) (now : ℕ) (p : Preparing)
      → p.pending_password ≡ none
      → submit_backup_password password now p ≡ none
  unfolding submit_backup_password
  refused password now p nothing = elim (Bool-cases (is_some p.running_processor)) [
    | inl runs ↦ simp (runs, nothing) refl
    | inr idle ↦ simp idle refl
  ]

  written-Submission :
      (password other : Text) (now now' : ℕ) (p p' : Preparing) (l : Life (Processor d))
      (waiting : Option ℕ)
      → submit_backup_password password now p ≡ some p'
      → Follows d p l waiting
      → Submission p l waiting password other now' (some p')
  unfolding Follows submit_backup_password
  written-Submission password other now now' p p' none_lives waiting e ((idle, h), waits) =
      absurd (ground (arith, simp idle at e))
  written-Submission password other now now' p p' (failed c) waiting e ((idle, h), waits) =
      absurd (ground (arith, simp idle at e))
  written-Submission password other now now' p p' (lives c) waiting e ((runs, own), waits) =
      let (pid, asked, wrote, kept, done) = submitted d password now p p' e in
      elim own [
        | inl nothing ↦ absurd (ground (arith, sym asked ∙ nothing))
        | inr own_prompt ↦ (
          c,
          refl,
          sym waits ∙ own_prompt,
          wrote
              ∙ ap (λ (n : ℕ). (n, password ++ newline ∷ []) ∷ p.written)
                  (of_some (sym asked ∙ own_prompt)),
          kept ∙ runs,
          refused other now' p' done,
        )
      ]

  refused-Submission :
      (password : Text) (now : ℕ) (p : Preparing) (l : Life (Processor d)) (waiting : Option ℕ)
      → submit_backup_password password now p ≡ none
      → Follows d p l waiting
      → (waiting ≡ none) ⊎ (living l ≡ none)
  unfolding Follows submit_backup_password
  refused-Submission password now p none_lives waiting e h = inr refl
  refused-Submission password now p (failed c) waiting e h = inr refl
  refused-Submission password now p (lives c) waiting e ((runs, inl nothing), waits) =
      inl (sym waits ∙ nothing)
  refused-Submission password now p (lives c) waiting e ((runs, inr own), waits) =
      absurd (ground (arith, simp (runs, own) at e))

  -- Whatever has happened, in whatever order, as long as no processor is started between another
  -- one's error event and its close: a password is accepted exactly where a processor lives that has
  -- had no error, and whose prompt has been read since it was started and since the last password
  -- was accepted. It is then written once, with a line break, to that processor, and another one is
  -- refused at once.
  pub submit-living :
      (session : PrepareSession) (p : Preparing) (l : Life (Processor d)) (password other : Text)
      (now now' : ℕ) (reached : Reachable d session p l)
      → Submission p l
          (awaiting d session reached)
          password
          other
          now'
          (submit_backup_password password now p)
  submit-living session p l password other now now' reached =
      go (submit_backup_password password now p) refl
    where
      go :
          (o : Option Preparing)
          → submit_backup_password password now p ≡ o
          → Submission p l (awaiting d session reached) password other now' o
      go none e =
          refused-Submission password now p l (awaiting d session reached) e
            (reachable-Follows d session p l reached)
      go (some p') e =
          written-Submission password other now now' p p' l (awaiting d session reached) e
            (reachable-Follows d session p l reached)
