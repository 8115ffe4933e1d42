-- ===== src/Processor/Run/Within.antt =====
-- No step of a turn of apps/processor/src/main.ts takes a backup off the failed ones.
use verichron_epoch.Prelude.{
  ℕ, zero, suc, ◌+◌, ◌≡◌, inl, inr, Bool, true, false, ◌&&◌, List, [], ◌∷◌, ◌++◌, Option, none,
  some, String, arith, str_eq, Bool-cases, Option-cases, ◌==◌,
}
use verichron_epoch.Contracts.{RepairProvenance, skipped, ran, InputType, IleappModules}
use verichron_epoch.Processor.{add_name, has_name}
use verichron_epoch.Processor.Password.{
  Answers, LoopState, DecryptResult, decrypted, wrong_password, failed, password_loop, attempts,
  attempt_once, with_result, after_failure, ran_once, cache,
}
use verichron_epoch.Processor.Pass.{
  Config, Tools, Outside, Turn, did, fail, clear_stale, start_over, ask, check_again, mark_decrypt,
  decrypt_again, ileapp_again, run_ileapp, run_crash_reports, derive,
}
use verichron_epoch.Processor.Pass.Extension.{turn_of}

-- Every name that is among the first is among the second.
abbrev pub Within : List String → List String → Type 0
Within names more = (n : String) → has_name n names ≡ true → has_name n more ≡ true

add_name-Within : (name : String) (names : List String) → Within names (add_name name names)
unfolding add_name
add_name-Within name [] n h = absurd (ground arith)
add_name-Within name (m ∷ ms) n h = ground (arith, add_name-Within name ms n)

pub fail-Within : (name : String) (s : Turn) → Within s.failed_backups (fail name s).failed_backups
unfolding fail
fail-Within name s = add_name-Within name s.failed_backups

with_result-Within :
    (same_pass : Bool) (name : String) (n : ℕ) (s : LoopState) (r : DecryptResult)
    → Within s.failed_backups (with_result same_pass name n s r).failed_backups
unfolding with_result after_failure ran_once
with_result-Within same_pass name n s (decrypted root) m h = h
with_result-Within same_pass name n s wrong_password m h =
    ground (arith, add_name-Within name s.failed_backups m)
with_result-Within same_pass name n s failed m h = add_name-Within name s.failed_backups m h

attempt_once-Within :
    (same_pass : Bool) (name : String) (a : Answers) (n : ℕ) (s : LoopState)
    → Within s.failed_backups (attempt_once same_pass name a n s).0.failed_backups
unfolding attempt_once cache
attempt_once-Within same_pass name a n s m h =
    elim (Bool-cases (same_pass && s.have_cached && n == 1)) [
      | inl reuse ↦
          rw reuse (with_result-Within same_pass name n s (a.decrypt n s.cached_password) m h)
      | inr asks ↦ elim (Option-cases (a.prompt n)) [
        | inl throws ↦ rw (asks, throws) h
        | inr (pw, answered) ↦
            rw (asks, answered)
              (with_result-Within same_pass name n (cache same_pass pw s) (a.decrypt n pw) m
                (ground arith))
      ]
    ]

attempts-Within :
    (same_pass : Bool) (name : String) (a : Answers) (left n : ℕ) (s : LoopState)
    → Within s.failed_backups (attempts same_pass name a left n s).failed_backups
unfolding attempts
attempts-Within same_pass name a zero n s m h = h
attempts-Within same_pass name a (suc left) n s m h =
    let s' : LoopState = (attempt_once same_pass name a n s).0 in
    let once = attempt_once-Within same_pass name a n s m h in
    ground (arith, once, attempts-Within same_pass name a left (n + 1) s' m once)

ask-Within :
    (cfg : Config) (name : String) (a : Answers) (s : Turn)
    → Within s.failed_backups (ask cfg name a s).0.failed_backups
unfolding ask password_loop
ask-Within cfg name a s = attempts-Within cfg.same_pass name a 3 1 (record {
  cached_password = s.cached_password;
  have_cached = s.have_cached;
  failed_backups = s.failed_backups;
  decrypted = false;
  runs = 0;
  changes = [];
})

mark_decrypt-Within :
    (tools : Tools) (name root : String) (repair : Option RepairProvenance) (s : Turn)
    → Within s.failed_backups (turn_of (mark_decrypt tools name root repair s)).failed_backups
unfolding mark_decrypt did fail
mark_decrypt-Within tools name root none s m h = add_name-Within name s.failed_backups m h
mark_decrypt-Within tools name root (some (skipped reason)) s m h = h
mark_decrypt-Within tools name root (some (ran tool scanned repaired files failed_files)) s m h =
    ground (arith, add_name-Within name s.failed_backups m)

pub decrypt_again-Within :
    (cfg : Config) (tools : Tools) (name root : String) (o : Outside) (s : Turn)
    → Within s.failed_backups (turn_of (decrypt_again cfg tools name root o s)).failed_backups
unfolding decrypt_again check_again fail did
decrypt_again-Within cfg tools name root o s m h =
    let s1 : Turn = did s (clear_stale s.found root ++ start_over) in
    let t : Turn = (ask cfg name o.answers s1).0 in
    let asked : has_name m t.failed_backups ≡ true = ask-Within cfg name o.answers s1 m h in
    let failing = add_name-Within name t.failed_backups m asked in
    elim (Bool-cases (ask cfg name o.answers s1).1) [
      | inr undone ↦ rw undone asked
      | inl done ↦ elim (Option-cases o.recheck) [
        | inl unread ↦ rw (done, unread) failing
        | inr (again, rehashed) ↦ elim (Bool-cases (str_eq again root)) [
          | inr differs ↦ rw (done, rehashed, differs) failing
          | inl same ↦
              rw (done, rehashed, same) (mark_decrypt-Within tools name root o.repair t m asked)
        ]
      ]
    ]

ileapp_again-Within :
    (tools : Tools) (name root : String) (made : Option (InputType × IleappModules)) (s : Turn)
    → Within s.failed_backups (ileapp_again tools name root made s).failed_backups
unfolding ileapp_again did fail
ileapp_again-Within tools name root none s m h = add_name-Within name s.failed_backups m h
ileapp_again-Within tools name root (some made) s m h = h

pub derive-Within :
    (cfg : Config) (tools : Tools) (name root : String) (rerun : Bool) (o : Outside) (s : Turn)
    → Within s.failed_backups (derive cfg tools name root rerun o s).failed_backups
unfolding derive run_ileapp run_crash_reports did fail
derive-Within cfg tools name root rerun o s m h =
    let mid : Turn = run_ileapp cfg tools name root rerun o s in
    let kept : has_name m mid.failed_backups ≡ true =
      ground (arith, ileapp_again-Within tools name root o.ileapp s m) in
    ground (arith, kept, add_name-Within name mid.failed_backups m kept)
