-- ===== src/Processor/Password.antt =====
-- The password loop of apps/processor/src/main.ts.
pub mod Laws
pub mod Writes
use verichron_epoch.Prelude.{
  ℕ, zero, suc, ◌+◌, Bool, true, false, ◌&&◌, List, [], ◌∷◌, ◌++◌, Option, none, some, String, ltb,
  ◌==◌, if◌then◌else◌,
}
use verichron_epoch.Processor.{Change, on_decrypted, begin, fill, add_name}

abbrev pub max_password_attempts : ℕ
max_password_attempts = 3

pub data DecryptResult : Type 0 where
  -- the content root of the source as the tool read it, which the code does not see
  decrypted : String → DecryptResult
  wrong_password : DecryptResult
  failed : DecryptResult

-- What the person and the decrypt tool do at each attempt.
pub record Answers : Type 0 where
  -- `none` where reading the password throws
  pub prompt : ℕ → Option String
  pub decrypt : ℕ → String → DecryptResult

pub record LoopState : Type 0 where
  pub cached_password : String
  pub have_cached : Bool
  pub failed_backups : List String
  pub decrypted : Bool
  -- how often the decrypt tool was run, and what that did to the folder
  pub runs : ℕ
  pub changes : List Change

abbrev pub is_wrong_password : DecryptResult → Bool
is_wrong_password wrong_password = true
is_wrong_password _ = false

-- `catch (err)` of the decrypt.
unfoldable pub after_failure : Bool → String → ℕ → LoopState → Bool → LoopState
after_failure same_pass name attempt s wrong =
    let s' = record s { have_cached = if same_pass then false else s.have_cached } in
    if wrong && ltb attempt max_password_attempts
    then s'
    else record s' { failed_backups = add_name name s.failed_backups }

unfoldable pub ran_once : LoopState → List Change → LoopState
ran_once s cs = record s { runs = s.runs + 1; changes = s.changes ++ cs }

unfoldable pub with_result : Bool → String → ℕ → LoopState → DecryptResult → LoopState
unfolding after_failure ran_once
with_result same_pass name attempt s (decrypted root) =
    record (ran_once s (on_decrypted begin ∷ on_decrypted (fill (some root)) ∷ [])) {
      decrypted = true;
    }
with_result same_pass name attempt s wrong_password =
    after_failure same_pass name attempt (ran_once s (on_decrypted begin ∷ [])) true
with_result same_pass name attempt s failed =
    after_failure same_pass name attempt (ran_once s (on_decrypted begin ∷ [])) false

unfoldable pub cache : Bool → String → LoopState → LoopState
cache same_pass pw s =
    if same_pass then record s { cached_password = pw; have_cached = true } else s

-- One round of the loop: the state behind it, and whether the loop was left by `break`.
unfoldable pub attempt_once : Bool → String → Answers → ℕ → LoopState → LoopState × Bool
unfolding with_result cache
attempt_once same_pass name a attempt s =
    if same_pass && s.have_cached && attempt == 1
    then (with_result same_pass name attempt s (a.decrypt attempt s.cached_password), false)
    else (elim (a.prompt attempt) [
      | none ↦ (s, true)
      | some pw ↦
          (with_result same_pass name attempt (cache same_pass pw s) (a.decrypt attempt pw), false)
    ])

-- `for (let attempt = 1; attempt <= MAX && !decrypted; attempt++)`, with the rounds left.
unfoldable pub attempts : Bool → String → Answers → ℕ → ℕ → LoopState → LoopState
attempts same_pass name a zero attempt s = s
attempts same_pass name a (suc left) attempt s =
    let (s', stopped) = attempt_once same_pass name a attempt s in
    let more = attempts same_pass name a left (attempt + 1) s' in
    if s.decrypted then s else if stopped then s' else more

unfoldable pub password_loop : Bool → String → Answers → LoopState → LoopState
unfolding attempts attempt_once
password_loop same_pass name a s = attempts same_pass name a max_password_attempts 1 s
