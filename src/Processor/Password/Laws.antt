-- ===== src/Processor/Password/Laws.antt =====
-- What the password loop of apps/processor/src/main.ts does with the answers it gets.
use verichron_epoch.Prelude.{
  ℕ, zero, suc, ◌⊎◌, ◌+◌, ◌≤◌, ◌≡◌, refl, ◌∙◌, inl, inr, Bool, true, false, ◌&&◌, List, [], ◌∷◌,
  ◌++◌, none, some, String, ltb, ◌==◌, arith, Option-cases, Bool-cases, eq_refl, if◌then◌else◌,
}
use verichron_epoch.Processor.{Change, on_decrypted, begin, fill, add_name, has_name}
use verichron_epoch.Processor.Password.{
  Answers, DecryptResult, LoopState, decrypted, wrong_password, failed, attempt_once, attempts,
  password_loop, with_result, after_failure, ran_once, cache, max_password_attempts,
}

pub has_name-add_name :
    (name : String) (names : List String) → has_name name (add_name name names) ≡ true
unfolding add_name
has_name-add_name name [] = rw eq_refl
has_name-add_name name (n ∷ ns) = ground (arith, has_name-add_name name ns, eq_refl name)

with_result-runs :
    (same_pass : Bool) (name : String) (n : ℕ) (s : LoopState) (r : DecryptResult)
    → (with_result same_pass name n s r).runs ≡ s.runs + 1
unfolding with_result after_failure ran_once
with_result-runs same_pass name n s (decrypted root) = refl
with_result-runs same_pass name n s wrong_password = ground arith
with_result-runs same_pass name n s failed = ground arith

cache-runs : (same_pass : Bool) (pw : String) (s : LoopState) → (cache same_pass pw s).runs ≡ s.runs
unfolding cache
cache-runs true pw s = refl
cache-runs false pw s = refl

attempt_once-runs :
    (same_pass : Bool) (name : String) (a : Answers) (n : ℕ) (s : LoopState)
    → (attempt_once same_pass name a n s).0.runs ≤ s.runs + 1
unfolding attempt_once
attempt_once-runs same_pass name a n s = elim (Bool-cases (same_pass && s.have_cached && n == 1)) [
  | inl reuse ↦ rw (reuse, with_result-runs) (omega arith)
  | inr ask ↦ elim (Option-cases (a.prompt n)) [
    | inl refused ↦ rw (ask, refused) (omega arith)
    | inr (pw, answered) ↦ rw (ask, answered, with_result-runs, cache-runs) (omega arith)
  ]
]

attempts-runs :
    (same_pass : Bool) (name : String) (a : Answers) (left n : ℕ) (s : LoopState)
    → (attempts same_pass name a left n s).runs ≤ s.runs + left
unfolding attempts
attempts-runs same_pass name a zero n s = omega arith
attempts-runs same_pass name a (suc left) n s = ground (
  arith,
  attempt_once-runs same_pass name a n s,
  attempts-runs same_pass name a left (n + 1) (attempt_once same_pass name a n s).0,
)

-- The decrypt tool is run at most three times for one backup.
pub password_loop-runs :
    (same_pass : Bool) (name : String) (a : Answers) (s : LoopState)
    → (password_loop same_pass name a s).runs ≤ s.runs + 3
unfolding password_loop
password_loop-runs same_pass name a s = attempts-runs same_pass name a 3 1 s

-- One round of the loop.
data Round (same_pass : Bool) (name : String) (a : Answers) (n : ℕ) (s : LoopState)
    : LoopState × Bool → Type 0 where
  refused : a.prompt n ≡ none → Round same_pass name a n s (s, true)
  tried :
      (pw : String) (r : DecryptResult) (s' : LoopState)
      → a.decrypt n pw ≡ r
      → s'.decrypted ≡ s.decrypted
      → s'.failed_backups ≡ s.failed_backups
      → Round same_pass name a n s (with_result same_pass name n s' r, false)

attempt_once-Round :
    (same_pass : Bool) (name : String) (a : Answers) (n : ℕ) (s : LoopState)
    → Round same_pass name a n s (attempt_once same_pass name a n s)
unfolding attempt_once cache
attempt_once-Round same_pass name a n s = elim (Bool-cases (same_pass && s.have_cached && n == 1)) [
  | inl reuse ↦ rw reuse (tried s.cached_password (a.decrypt n s.cached_password) s refl refl refl)
  | inr ask ↦ elim (Option-cases (a.prompt n)) [
    | inl undone ↦ rw (ask, undone) (refused undone)
    | inr (pw, did) ↦
        rw (ask, did)
          (tried pw (a.decrypt n pw) (cache same_pass pw s) refl (ground arith) (ground arith))
  ]
]

attempts-done :
    (same_pass : Bool) (name : String) (a : Answers) (left n : ℕ) (s : LoopState)
    → s.decrypted ≡ true
    → attempts same_pass name a left n s ≡ s
unfolding attempts
attempts-done same_pass name a zero n s d = refl
attempts-done same_pass name a (suc left) n s d = rw d

-- What a loop that ended with a decrypt did last.
abbrev pub DecryptedLast : Answers → LoopState → Type 0
DecryptedLast a s =
    (n : ℕ) × (pw : String) × (root : String) × (before : List Change) × (a.decrypt n pw
      ≡ decrypted root)
    × (s.changes ≡ before ++ on_decrypted begin ∷ on_decrypted (fill (some root)) ∷ [])

attempts-DecryptedLast :
    (same_pass : Bool) (name : String) (a : Answers) (left n : ℕ) (s : LoopState)
    → s.decrypted ≡ false
    → (attempts same_pass name a left n s).decrypted ≡ true
    → DecryptedLast a (attempts same_pass name a left n s)
unfolding attempts with_result after_failure ran_once
attempts-DecryptedLast same_pass name a zero n s undone did = absurd (ground arith)
attempts-DecryptedLast same_pass name a (suc left) n s undone did = simp undone (
    by (attempt_once-Round same_pass name a n s)
      (attempts-DecryptedLast same_pass name a left (n + 1)) (simp undone at did))
  where
    by :
        {r : LoopState × Bool}
        → Round same_pass name a n s r
        → ((t : LoopState)
            → t.decrypted ≡ false
            → (attempts same_pass name a left (n + 1) t).decrypted ≡ true
            → DecryptedLast a (attempts same_pass name a left (n + 1) t))
        → (if r.1 then r.0 else attempts same_pass name a left (n + 1) r.0).decrypted ≡ true
        → DecryptedLast a (if r.1 then r.0 else attempts same_pass name a left (n + 1) r.0)
    by (refused e) rest d = absurd (ground arith)
    by (tried pw (decrypted root) s' e d f) rest _ =
        rw
          (attempts-done same_pass name a left (n + 1)
            (with_result same_pass name n s' (decrypted root)) refl)
          (n, pw, root, s'.changes, e, refl)
    by (tried pw wrong_password s' e d f) rest y =
        rest (with_result same_pass name n s' wrong_password) (ground arith) y
    by (tried pw failed s' e d f) rest y =
        rest (with_result same_pass name n s' failed) (ground arith) y

-- If the loop ends with a decrypt, some attempt's decrypt succeeded with the password it was
-- given, and what the loop did to the folder ends with that decrypt.
pub password_loop-DecryptedLast :
    (same_pass : Bool) (name : String) (a : Answers) (s : LoopState)
    → s.decrypted ≡ false
    → (password_loop same_pass name a s).decrypted ≡ true
    → DecryptedLast a (password_loop same_pass name a s)
unfolding password_loop
password_loop-DecryptedLast same_pass name a s =
    attempts-DecryptedLast same_pass name a max_password_attempts 1 s

abbrev pub RecordedOrRefused : String → Answers → LoopState → Type 0
RecordedOrRefused name a s =
    (has_name name s.failed_backups ≡ true) ⊎ ((n : ℕ) × (a.prompt n ≡ none))

attempts-RecordedOrRefused :
    (same_pass : Bool) (name : String) (a : Answers) (left n : ℕ) (s : LoopState)
    → n + left ≡ 4
    → (has_name name s.failed_backups ≡ true) ⊎ (1 ≤ left)
    → s.decrypted ≡ false
    → (attempts same_pass name a left n s).decrypted ≡ false
    → RecordedOrRefused name a (attempts same_pass name a left n s)
unfolding attempts with_result after_failure ran_once
attempts-RecordedOrRefused same_pass name a zero n s total (inl recorded) undone still =
    inl recorded
attempts-RecordedOrRefused same_pass name a zero n s total (inr some_left) undone still =
    absurd (omega arith)
attempts-RecordedOrRefused same_pass name a (suc left) n s total _ undone still = simp undone (
    by (attempt_once-Round same_pass name a n s)
      (attempts-RecordedOrRefused same_pass name a left (n + 1)) (simp undone at still))
  where
    by :
        {r : LoopState × Bool}
        → Round same_pass name a n s r
        → ((t : LoopState)
            → n + 1 + left ≡ 4
            → (has_name name t.failed_backups ≡ true) ⊎ (1 ≤ left)
            → t.decrypted ≡ false
            → (attempts same_pass name a left (n + 1) t).decrypted ≡ false
            → RecordedOrRefused name a (attempts same_pass name a left (n + 1) t))
        → (if r.1 then r.0 else attempts same_pass name a left (n + 1) r.0).decrypted ≡ false
        → RecordedOrRefused name a (if r.1 then r.0 else attempts same_pass name a left (n + 1) r.0)
    by (refused e) rest d = inr (n, e)
    by (tried pw (decrypted root) s' e d f) rest y = absurd (
        ground (
          arith,
          attempts-done same_pass name a left (n + 1)
              (with_result same_pass name n s' (decrypted root)) refl,
        ))
    by (tried pw wrong_password s' e d f) rest y = elim (Bool-cases (ltb n 3)) [
      | inl again ↦
          rest (with_result same_pass name n s' wrong_password) (omega arith) (inr (ground arith))
            (ground arith) y
      | inr last ↦
          rest (with_result same_pass name n s' wrong_password) (omega arith)
            (inl (rw last (has_name-add_name name s'.failed_backups))) (ground arith) y
    ]
    by (tried pw failed s' e d f) rest y =
        rest (with_result same_pass name n s' failed) (omega arith)
          (inl (has_name-add_name name s'.failed_backups)) (ground arith) y

-- If the loop ends without a decrypt, the backup is among the failed ones or reading a password
-- has thrown at some attempt.
pub password_loop-RecordedOrRefused :
    (same_pass : Bool) (name : String) (a : Answers) (s : LoopState)
    → s.decrypted ≡ false
    → (password_loop same_pass name a s).decrypted ≡ false
    → RecordedOrRefused name a (password_loop same_pass name a s)
unfolding password_loop
password_loop-RecordedOrRefused same_pass name a s =
    attempts-RecordedOrRefused same_pass name a max_password_attempts 1 s refl (inr (omega arith))

asked :
    (same_pass : Bool) (have : Bool) (n : ℕ) → have ≡ false → (same_pass && have && n == 1) ≡ false
asked false have n e = refl
asked true have n e = rw e

attempt_once-refused :
    (same_pass : Bool) (name : String) (a : Answers) (n : ℕ) (s : LoopState)
    → s.have_cached ≡ false
    → a.prompt n ≡ none
    → attempt_once same_pass name a n s ≡ (s, true)
unfolding attempt_once
attempt_once-refused same_pass name a n s e throws = rw (asked same_pass s.have_cached n e, throws)

attempt_once-tried :
    (same_pass : Bool) (name : String) (a : Answers) (n : ℕ) (s : LoopState) (pw : String)
    (r : DecryptResult)
    → (same_pass && s.have_cached && n == 1) ≡ false
    → a.prompt n ≡ some pw
    → a.decrypt n pw ≡ r
    → attempt_once same_pass name a n s
      ≡ (with_result same_pass name n (cache same_pass pw s) r, false)
unfolding attempt_once
attempt_once-tried same_pass name a n s pw r e answered d = rw (e, answered, d)

attempts-tried :
    (same_pass : Bool) (name : String) (a : Answers) (left n : ℕ) (s : LoopState) (pw : String)
    (r : DecryptResult)
    → s.decrypted ≡ false
    → (same_pass && s.have_cached && n == 1) ≡ false
    → a.prompt n ≡ some pw
    → a.decrypt n pw ≡ r
    → attempts same_pass name a (suc left) n s
      ≡ attempts same_pass name a left
          (n + 1)
          (with_result same_pass name n (cache same_pass pw s) r)
unfolding attempts
attempts-tried same_pass name a left n s pw r undone e answered d =
    simp (undone, attempt_once-tried same_pass name a n s pw r e answered d)

attempts-refused :
    (same_pass : Bool) (name : String) (a : Answers) (left n : ℕ) (s : LoopState)
    → s.decrypted ≡ false
    → s.have_cached ≡ false
    → a.prompt n ≡ none
    → attempts same_pass name a (suc left) n s ≡ s
unfolding attempts
attempts-refused same_pass name a left n s undone none_cached throws =
    simp (undone, attempt_once-refused same_pass name a n s none_cached throws)

-- Where no password is remembered, reading the first password throws, and the backup was not
-- among the failed ones, the loop is left without a decrypt and the backup is still not among
-- the failed ones.
password_loop-prompt :
    (same_pass : Bool) (name : String) (a : Answers) (s : LoopState)
    → s.decrypted ≡ false
    → s.have_cached ≡ false
    → a.prompt 1 ≡ none
    → has_name name s.failed_backups ≡ false
    → ((password_loop same_pass name a s).decrypted ≡ false)
      × (has_name name (password_loop same_pass name a s).failed_backups ≡ false)
unfolding password_loop
password_loop-prompt same_pass name a s undone none_cached throws unrecorded =
    rw (attempts-refused same_pass name a 2 1 s undone none_cached throws) (undone, unrecorded)

-- A decrypt that fails for another reason than the password does not leave the loop: where no
-- password is remembered, and the first attempt fails so and a second attempt decrypts, the
-- backup is decrypted, with two runs of the tool, and it stays among the failed ones.
pub password_loop-failed :
    (same_pass : Bool) (name : String) (a : Answers) (s : LoopState) (pw pw' root : String)
    → s.decrypted ≡ false
    → s.have_cached ≡ false
    → a.prompt 1 ≡ some pw
    → a.decrypt 1 pw ≡ failed
    → a.prompt 2 ≡ some pw'
    → a.decrypt 2 pw' ≡ decrypted root
    → let s' = password_loop same_pass name a s in
      (s'.decrypted ≡ true) × (s'.runs ≡ s.runs + 2) × (has_name name s'.failed_backups ≡ true)
unfolding password_loop with_result after_failure ran_once cache
password_loop-failed same_pass name a s pw pw' root undone none_cached p1 d1 p2 d2 =
    let first : LoopState = with_result same_pass name 1 (cache same_pass pw s) failed in
    let second : LoopState =
      with_result same_pass name 2 (cache same_pass pw' first) (decrypted root) in
    let by_two : password_loop same_pass name a s ≡ second =
      attempts-tried same_pass name a 2 1 s pw failed undone
        (asked same_pass s.have_cached 1 none_cached) p1 d1
      ∙ attempts-tried same_pass name a 1 2 first pw' (decrypted root) (ground arith) (ground arith)
          p2 d2
      ∙ attempts-done same_pass name a 1 3 second refl in
    rw by_two (refl, ground arith, ground (arith, has_name-add_name name s.failed_backups))
