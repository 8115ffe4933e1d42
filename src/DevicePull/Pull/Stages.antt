-- ===== src/DevicePull/Pull/Stages.antt =====
-- How far a pull of apps/epoch/src/main/tools/device-backup/ios/iosBackupSource.ts has got where it
-- throws or returns.
use verichron_epoch.Prelude.{
  ℕ, ◌≡◌, refl, sym, ap, inl, inr, Bool, true, false, ◌∷◌, Option, none, some, Text, arith, ltb,
  Bool-cases, Option-cases,
}
use verichron_epoch.DevicePull.{
  Folder, absent, unreachable, folder, no_status, unreadable, snapshot, ExistingState, Checked,
  raises, gives, existing_backup_state, IncompleteReason, incomplete_reason,
}
use verichron_epoch.DevicePull.Pull.{
  completed, failed, pull_line, Answers, PullOptions, Destination, Pulling, Step, goes, throws,
  ◌>>=◌, is_identifier, refuse_existing, check_destination, fits_in, check_space, with_encryption,
  turn_on_failed, off_unchanged, is_clean, turned_on, turn_on, check_encryption, run_backup,
  refuse_incomplete, check_backup, complete, body, start_pull,
}

abbrev pub Holds : (Pulling → Type 0) → (Pulling → Type 0) → Step → Type 0
Holds P Q (goes s) = P s
Holds P Q (throws s e) = Q s

bind-Holds :
    (P P' Q : Pulling → Type 0) (m : Step) (f : Pulling → Step)
    → Holds P Q m
    → ((s : Pulling) → P s → Holds P' Q (f s))
    → Holds P' Q (m >>= f)
bind-Holds P P' Q (goes s) f h k = k s h
bind-Holds P P' Q (throws s e) f h k = h

pub writable : (f : Folder) → existing_backup_state f ≡ gives none → f ≡ absent
unfolding existing_backup_state
writable absent e = refl
writable unreachable e = absurd (ground arith)
writable (folder no_status manifest bytes) e = absurd (ground arith)
writable (folder unreadable manifest bytes) e = absurd (ground arith)
writable (folder (snapshot state) manifest bytes) e = absurd (ground arith)

module _ (a : Answers) (d : Destination) where
  abbrev pub with_left : Destination
  with_left = record d { folder = a.run.left }

  -- Where a pull throws: at a destination that it has not touched, behind the run of the tool, or
  -- where only its record could not be written.
  pub data Stage (s : Pulling) : Type 0 where
    untouched :
        s.at ≡ d
        → s.recorded ≡ false
        → s.record_line.outcome ≡ failed
        → (s.folder_is_this_pulls ≡ true → d.folder ≡ absent)
        → Stage s
    ran :
        s.at ≡ with_left
        → s.recorded ≡ false
        → s.record_line.outcome ≡ failed
        → d.folder ≡ absent
        → Stage s
    unwritten :
        s.at ≡ with_left
        → s.recorded ≡ true
        → s.record_line.outcome ≡ completed
        → s.cancel ≡ false
        → d.folder ≡ absent
        → Stage s

  Begun : Destination → Pulling → Type 0
  Begun at s =
      (s.at ≡ at)
      × (s.recorded ≡ false)
      × (s.record_line.outcome ≡ failed)
      × (s.cancel ≡ false)
      × (d.folder ≡ absent)

  CheckedBackup : Pulling → Type 0
  CheckedBackup s = Begun with_left s × (incomplete_reason a.run.left ≡ gives none)

  -- Where a pull returns: the tool left a finished backup in a folder that was not there, and the
  -- record of the pull is written.
  abbrev pub Finished : Pulling → Type 0
  Finished s =
      (s.at ≡ record { folder = a.run.left; log = pull_line s.record_line ∷ d.log })
      × (s.recorded ≡ true)
      × (s.record_line.outcome ≡ completed)
      × (s.record_line.crash_reports ≡ some a.crash_reports)
      × (incomplete_reason a.run.left ≡ gives none)
      × (d.folder ≡ absent)

  threw : (s : Pulling) → Begun d s → Stage s
  unfolding Begun
  threw s (at, unrecorded, outcome, uncancelled, new) = untouched at unrecorded outcome (λ e. new)

  threw_ran : (s : Pulling) → Begun with_left s → Stage s
  unfolding Begun
  threw_ran s (at, unrecorded, outcome, uncancelled, new) = ran at unrecorded outcome new

  refuse_existing-Holds :
      (c : Checked (Option ExistingState))
      → existing_backup_state d.folder ≡ c
      → Holds (Begun d) Stage (refuse_existing (start_pull d) c)
  unfolding Begun
  refuse_existing-Holds raises e = untouched refl refl refl (λ h. absurd (ground arith))
  refuse_existing-Holds (gives (some state)) e =
      untouched refl refl refl (λ h. absurd (ground arith))
  refuse_existing-Holds (gives none) e = (refl, refl, refl, refl, writable d.folder e)

  check_destination-Holds :
      (udid : Text) → Holds (Begun d) Stage (check_destination a udid (start_pull d))
  unfolding check_destination
  check_destination-Holds udid = elim (Bool-cases a.plistutil) [
    | inr missing ↦ simp missing (untouched refl refl refl (λ h. absurd (ground arith)))
    | inl there ↦ elim (Bool-cases (is_identifier udid)) [
      | inr bad ↦ simp (there, bad) (untouched refl refl refl (λ h. absurd (ground arith)))
      | inl good ↦ simp (there, good) (refuse_existing-Holds (existing_backup_state d.folder) refl)
    ]
  ]

  fits_in-Holds :
      (s : Pulling) (estimated : Option ℕ) (free : ℕ)
      → Begun d s
      → Holds (Begun d) Stage (fits_in s estimated free)
  fits_in-Holds s none free h = h
  fits_in-Holds s (some estimated) free h = elim (Bool-cases (ltb free estimated)) [
    | inl small ↦ simp small (threw s h)
    | inr enough ↦ simp enough h
  ]

  check_space-Holds : (s : Pulling) → Begun d s → Holds (Begun d) Stage (check_space a s)
  unfolding check_space
  check_space-Holds s h = elim (Option-cases a.free) [
    | inl unknown_free ↦ simp (unknown_free, check_space) (threw s h)
    | inr (free, e) ↦ simp (e, check_space) (fits_in-Holds s a.estimated free h)
  ]

  turned_on-Holds :
      (s : Pulling) (answer : Option Bool) → Begun d s → Holds (Begun d) Stage (turned_on s answer)
  unfolding Begun
  turned_on-Holds s none h = threw s h
  turned_on-Holds s (some false) h = threw s h
  turned_on-Holds s (some true) h = h

  turn_on-Holds : (s : Pulling) → Begun d s → Holds (Begun d) Stage (turn_on a s)
  turn_on-Holds s h = elim (Bool-cases a.enabling.timed_out) [
    | inl late ↦ simp late (threw s h)
    | inr in_time ↦ elim (Bool-cases (is_clean a.enabling.code)) [
      | inr unclean ↦ simp (in_time, unclean) (threw s h)
      | inl clean ↦ simp (in_time, clean) (turned_on-Holds s a.encrypted_then h)
    ]
  ]

  check_encryption-Holds :
      (options : PullOptions) (s : Pulling)
      → Begun d s
      → Holds (Begun d) Stage (check_encryption a options s)
  unfolding check_encryption Begun
  check_encryption-Holds options s h = go a.encrypted refl
    where
      turns :
          (b : Bool)
          → options.enable_encryption ≡ b
          → a.encrypted ≡ some false
          → Holds (Begun d) Stage (check_encryption a options s)
      turns true on e =
          simp (e, check_encryption) (simp on (turn_on-Holds (with_encryption s turn_on_failed) h))
      turns false off e =
          simp (e, check_encryption) (simp off (threw (with_encryption s off_unchanged) h))

      go :
          (o : Option Bool) → a.encrypted ≡ o → Holds (Begun d) Stage (check_encryption a options s)
      go none e = simp (e, check_encryption) (threw s h)
      go (some true) e = simp (e, check_encryption) h
      go (some false) e = turns options.enable_encryption refl e

  run_backup-Holds : (s : Pulling) → Begun d s → Holds (Begun with_left) Stage (run_backup a s)
  unfolding run_backup Begun
  run_backup-Holds s (at, unrecorded, outcome, uncancelled, new) =
      let left : record s.at { folder = a.run.left } ≡ with_left =
        ap (λ (x : Destination). record x { folder = a.run.left }) at in
      elim (Bool-cases a.run.cancelled) [
        | inl stops ↦ simp stops (ran left unrecorded outcome new)
        | inr runs ↦ elim (Bool-cases (is_clean a.run.code)) [
          | inl clean ↦ simp (runs, clean) (left, unrecorded, outcome, refl, new)
          | inr unclean ↦ simp (runs, unclean) (ran left unrecorded outcome new)
        ]
      ]

  refuse_incomplete-Holds :
      (s : Pulling) (c : Checked (Option IncompleteReason))
      → incomplete_reason a.run.left ≡ c
      → Begun with_left s
      → Holds CheckedBackup Stage (refuse_incomplete s c)
  unfolding CheckedBackup
  refuse_incomplete-Holds s raises e h = threw_ran s h
  refuse_incomplete-Holds s (gives (some reason)) e h = threw_ran s h
  refuse_incomplete-Holds s (gives none) e h = (h, e)

  check_backup-Holds :
      (s : Pulling) → Begun with_left s → Holds CheckedBackup Stage (check_backup a s)
  unfolding check_backup Begun
  check_backup-Holds s h = elim (Bool-cases a.plistutil_then) [
    | inr missing ↦ simp missing (threw_ran s h)
    | inl there ↦ simp there (
        refuse_incomplete-Holds s (incomplete_reason s.at.folder)
          (ap (λ (x : Destination). incomplete_reason x.folder) (sym h.0)) h)
  ]

  complete-Holds : (s : Pulling) → CheckedBackup s → Holds Finished Stage (complete a s)
  unfolding complete CheckedBackup Begun
  complete-Holds s ((at, unrecorded, outcome, uncancelled, new), whole) =
      elim (Bool-cases a.appends) [
        | inl written ↦ simp written (
          ap
              (λ (x : Destination). record x {
                log =
                    pull_line (record s.record_line {
                      crash_reports = some a.crash_reports;
                      outcome = completed;
                    })
                    ∷ x.log;
              })
              at,
          refl,
          refl,
          refl,
          whole,
          new,
        )
        | inr fails ↦ simp fails (unwritten at refl refl uncancelled new)
      ]

  pub body-Holds :
      (options : PullOptions) (udid : Text)
      → Holds Finished Stage (body a options udid (start_pull d))
  unfolding body
  body-Holds options udid =
      let k5 : Pulling → Step = λ s. check_backup a s >>= complete a in
      let k4 : Pulling → Step = λ s. run_backup a s >>= k5 in
      let k3 : Pulling → Step = λ s. check_encryption a options s >>= k4 in
      let k2 : Pulling → Step = λ s. check_space a s >>= k3 in
      bind-Holds (Begun d) Finished Stage (check_destination a udid (start_pull d)) k2
        (check_destination-Holds udid)
        (λ s h.
          bind-Holds (Begun d) Finished Stage (check_space a s) k3 (check_space-Holds s h) (λ s h.
            bind-Holds (Begun d) Finished Stage (check_encryption a options s) k4
              (check_encryption-Holds options s h)
              (λ s h.
                bind-Holds (Begun with_left) Finished Stage (run_backup a s) k5
                  (run_backup-Holds s h)
                  (λ s h.
                    bind-Holds CheckedBackup Finished Stage (check_backup a s) (complete a)
                      (check_backup-Holds s h) complete-Holds))))
