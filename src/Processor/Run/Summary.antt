-- ===== src/Processor/Run/Summary.antt =====
-- What summary.json of apps/processor/src/main.ts says of each backup.
use verichron_epoch.Prelude.{
  ℕ, ◌≡◌, ◌≢◌, refl, inl, inr, true, false, List, [], ◌∷◌, none, String, map, arith, is_some,
  Bool-cases, All,
}
use verichron_epoch.Processor.{Slot, marker_of, has_name}
use verichron_epoch.Processor.Pass.{
  Config, Tools, Outside, Turn, now, Step, next_backup, go_on, is_current, decrypt_again,
  reuse_decrypt, derive, turn,
}
use verichron_epoch.Processor.Pass.Extension.{turn_of}
use verichron_epoch.Processor.Pass.Soundness.{Outcome, unhashed, reuses, makes, turn-Outcome}
use verichron_epoch.Processor.Pass.Completeness.{turn-prepared}
use verichron_epoch.Processor.Run.{
  Backup, RunState, start_state, turn_at, state_of, run_backups, BackupResult, result_of, run,
}
use verichron_epoch.Processor.Run.Within.{Within, fail-Within, decrypt_again-Within, derive-Within}

turn-Within :
    (cfg : Config) (tools : Tools) (name : String) (o : Outside) (s : Turn)
    → Within s.failed_backups (turn cfg tools name o s).failed_backups
unfolding reuse_decrypt
turn-Within cfg tools name o s m h = by (turn-Outcome cfg tools name o s)
  where
    goes :
        (root : String) (step : Step)
        → has_name m (turn_of step).failed_backups ≡ true
        → has_name m
            (elim step as (λ q. Turn) [
              | next_backup t ↦ t
              | go_on t ↦ derive cfg tools name root true o t
            ]).failed_backups
          ≡ true
    goes root (next_backup t) k = k
    goes root (go_on t) k = derive-Within cfg tools name root true o t m k

    by : {t : Turn} → Outcome cfg tools name o s t → has_name m t.failed_backups ≡ true
    by (unhashed e) = fail-Within name s m h
    by (reuses root e current) =
        derive-Within cfg tools name root false o (reuse_decrypt name s) m (ground arith)
    by (makes root t e old is) = rw is (
        goes root (decrypt_again cfg tools name root o s)
          (decrypt_again-Within cfg tools name root o s m h))

abbrev pub Asks : Backup → Type 0
Asks b = (n : ℕ) → b.outside.answers.prompt n ≢ none

is_current-is_some :
    (slot : Slot) (root : String)
    → is_current slot.decrypted root ≡ true
    → is_some (marker_of slot.decrypted) ≡ true
unfolding is_current
is_current-is_some slot root e = ground arith

run_backups-prepared :
    (cfg : Config) (tools : Tools) (backups : List Backup) (s : RunState)
    → All Asks backups
    → let (final, slots) = run_backups cfg tools backups s in
      Within s.failed_backups final.failed_backups
      × All
          (λ (entry : String × Slot).
            has_name entry.0 final.failed_backups ≡ false
            → is_some (marker_of entry.1.decrypted) ≡ true)
          slots
unfolding run_backups
run_backups-prepared cfg tools [] s asks = (λ m h. h, tt)
run_backups-prepared cfg tools (b ∷ bs) s asks =
    let start : Turn = turn_at s b.found in
    let t : Turn = turn cfg tools b.label b.outside start in
    let final : RunState = (run_backups cfg tools bs (state_of t)).0 in
    let (later, rest) = run_backups-prepared cfg tools bs (state_of t) asks.1 in
    let unfailed : has_name b.label final.failed_backups ≡ false
        → has_name b.label t.failed_backups ≡ false =
      λ e. elim (Bool-cases (has_name b.label t.failed_backups)) [
        | inl recorded ↦ absurd (ground (arith, later b.label recorded))
        | inr clean ↦ clean
      ] in
    (
      λ m h. later m (turn-Within cfg tools b.label b.outside start m h),
      (
        λ e.
            let (root, hashed, current, made) =
              turn-prepared cfg tools b.label b.outside start asks.0 refl (unfailed e) in
            is_current-is_some (now t) root current,
        rest,
      ),
    )

results-decrypted :
    (final : RunState) (slots : List (String × Slot))
    → All
        (λ (entry : String × Slot).
          has_name entry.0 final.failed_backups ≡ false
          → is_some (marker_of entry.1.decrypted) ≡ true)
        slots
    → All
        (λ (r : BackupResult). r.success ≡ true → r.decrypted ≡ true)
        (map (result_of final) slots)
unfolding result_of
results-decrypted final [] h = tt
results-decrypted final ((label, slot) ∷ slots) h =
    (λ e. h.0 (ground arith), results-decrypted final slots h.1)

-- Every backup that summary.json reports as a success is decrypted, with its completion marker in
-- the workspace, where reading a password never throws.
pub run-decrypted :
    (cfg : Config) (tools : Tools) (backups : List Backup)
    → All Asks backups
    → All (λ (r : BackupResult). r.success ≡ true → r.decrypted ≡ true) (run cfg tools backups).0
unfolding run
run-decrypted cfg tools backups asks =
    let (final, slots) = run_backups cfg tools backups start_state in
    results-decrypted final slots (run_backups-prepared cfg tools backups start_state asks).1
