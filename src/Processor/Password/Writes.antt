-- ===== src/Processor/Password/Writes.antt =====
-- The changes that the password loop of apps/processor/src/main.ts makes to a decrypt's folder.
use verichron_epoch.Prelude.{
  ℕ, zero, suc, ◌+◌, ◌≡◌, refl, inl, inr, Bool, true, false, ◌&&◌, List, [], ◌∷◌, ◌++◌, String,
  arith, Bool-cases, if◌then◌else◌, Option-cases, ◌==◌,
}
use verichron_epoch.Processor.{Change, on_decrypted, begin, fill}
use verichron_epoch.Processor.Password.{
  Answers, DecryptResult, decrypted, wrong_password, failed, LoopState, attempt_once, attempts,
  cache, password_loop, with_result, after_failure, ran_once,
}

-- The changes that the password loop makes.
abbrev pub is_write : Change → Bool
is_write (on_decrypted begin) = true
is_write (on_decrypted (fill root)) = true
is_write _ = false

abbrev pub AllWrites : List Change → Type 0
AllWrites [] = Unit
AllWrites (c ∷ cs) = (is_write c ≡ true) × AllWrites cs

pub AllWrites-append : (cs ds : List Change) → AllWrites cs → AllWrites ds → AllWrites (cs ++ ds)
AllWrites-append [] ds h k = k
AllWrites-append (c ∷ cs) ds h k = (h.0, AllWrites-append cs ds h.1 k)

after_failure-changes :
    (same_pass : Bool) (name : String) (n : ℕ) (s : LoopState) (wrong : Bool)
    → (after_failure same_pass name n s wrong).changes ≡ s.changes
unfolding after_failure
after_failure-changes same_pass name n s wrong = ground arith

with_result-AllWrites :
    (same_pass : Bool) (name : String) (n : ℕ) (s : LoopState) (r : DecryptResult)
    → AllWrites s.changes
    → AllWrites (with_result same_pass name n s r).changes
unfolding with_result ran_once
with_result-AllWrites same_pass name n s (decrypted root) h =
    AllWrites-append s.changes _ h (refl, (refl, tt))
with_result-AllWrites same_pass name n s wrong_password h =
    rw after_failure-changes (AllWrites-append s.changes (on_decrypted begin ∷ []) h (refl, tt))
with_result-AllWrites same_pass name n s failed h =
    rw after_failure-changes (AllWrites-append s.changes (on_decrypted begin ∷ []) h (refl, tt))

attempt_once-AllWrites :
    (same_pass : Bool) (name : String) (a : Answers) (n : ℕ) (s : LoopState)
    → AllWrites s.changes
    → AllWrites (attempt_once same_pass name a n s).0.changes
unfolding attempt_once cache
attempt_once-AllWrites same_pass name a n s h =
    elim (Bool-cases (same_pass && s.have_cached && n == 1)) [
      | inl reuse ↦
          rw reuse (with_result-AllWrites same_pass name n s (a.decrypt n s.cached_password) h)
      | inr ask ↦ elim (Option-cases (a.prompt n)) [
        | inl throws ↦ rw (ask, throws) h
        | inr (pw, answered) ↦
            rw (ask, answered)
              (with_result-AllWrites same_pass name n (cache same_pass pw s) (a.decrypt n pw)
                (ground arith))
      ]
    ]

attempts-AllWrites :
    (same_pass : Bool) (name : String) (a : Answers) (left n : ℕ) (s : LoopState)
    → AllWrites s.changes
    → AllWrites (attempts same_pass name a left n s).changes
unfolding attempts
attempts-AllWrites same_pass name a zero n s h = h
attempts-AllWrites same_pass name a (suc left) n s h =
    let s' : LoopState = (attempt_once same_pass name a n s).0 in
    let once : AllWrites s'.changes = attempt_once-AllWrites same_pass name a n s h in
    either s s' (attempts same_pass name a left (n + 1) s') s.decrypted
      (attempt_once same_pass name a n s).1 h once
      (attempts-AllWrites same_pass name a left (n + 1) s' once)
  where
    either :
        (s s' t : LoopState) (b c : Bool)
        → AllWrites s.changes
        → AllWrites s'.changes
        → AllWrites t.changes
        → AllWrites (if b then s else if c then s' else t).changes
    either s s' t true c h k l = h
    either s s' t false true h k l = k
    either s s' t false false h k l = l

pub password_loop-AllWrites :
    (same_pass : Bool) (name : String) (a : Answers) (s : LoopState)
    → AllWrites s.changes
    → AllWrites (password_loop same_pass name a s).changes
unfolding password_loop
password_loop-AllWrites same_pass name a s = attempts-AllWrites same_pass name a 3 1 s
