-- ===== src/DevicePull/Pull/Safe.antt =====
-- What a pull of apps/epoch/src/main/tools/device-backup/ios/iosBackupSource.ts leaves in the
-- destination.
use verichron_epoch.Prelude.{
  ℕ, ◌≡◌, ◌≢◌, ◌⊎◌, refl, sym, ap, ◌∙◌, inl, inr, Bool, true, false, ◌&&◌, ◌||◌, not, List, ◌∷◌,
  Text, arith, is_some, if◌then◌else◌, Bool-cases,
}
use verichron_epoch.PrepareProgress.Patterns.{skip_spaces, is_empty}
use verichron_epoch.DevicePull.{
  Folder, absent, unreachable, folder, no_status, unreadable, snapshot, remove_failed_pull_folder,
}
use verichron_epoch.DevicePull.Pull.{
  PullError, Entry, pull_line, folder_removed, folder_kept, PullRecord, Answers, PullOptions,
  IosBackupSource, Destination, Pulling, Step, goes, throws, log_if, note_removal,
  remove_own_leftover, is_completed, caught, settle, after_body, start_pull, body, pull_backup,
}
use verichron_epoch.DevicePull.Pull.Stages.{
  Holds, Stage, untouched, ran, unwritten, Finished, body-Holds,
}

-- The folder as a pull leaves it: as it was; or, where there was none, as the tool left it; or gone
-- again, where the device had sent no backup into it, and then below the line of its removal, if that
-- could be written, the record of the pull says that it did not complete.
pub data Left (a : Answers) (d d' : Destination) : Type 0 where
  kept : d'.folder ≡ d.folder → Left a d d'
  made : d.folder ≡ absent → d'.folder ≡ a.run.left → Left a d d'
  removed :
      (line : PullRecord) (manifest : Bool) (bytes : ℕ)
      → d.folder ≡ absent
      → a.run.left ≡ folder no_status manifest bytes
      → d'.folder ≡ absent
      → is_completed line.outcome ≡ false
      → d'.log ≡ (
          if a.appends_leftover
          then folder_removed bytes ∷ pull_line line ∷ d.log
          else pull_line line ∷ d.log)
      → Left a d d'

log_if-folder : (b : Bool) (e : Entry) (d : Destination) → (log_if b e d).folder ≡ d.folder
log_if-folder true e d = refl
log_if-folder false e d = refl

log_if-log :
    (b : Bool) (e : Entry) (d : Destination) → (log_if b e d).log ≡ (if b then e ∷ d.log else d.log)
log_if-log true e d = refl
log_if-log false e d = refl

abbrev Removal : Answers → Destination → Destination → Type 0
Removal a d d' =
    (d'.folder ≡ d.folder)
    ⊎ ((manifest : Bool) × (bytes : ℕ) × (d.folder ≡ folder no_status manifest bytes)
        × (d'.folder ≡ absent)
        × (d'.log ≡ (if a.appends_leftover then folder_removed bytes ∷ d.log else d.log)))

note_removal-Removal :
    (a : Answers) (f : Folder) (log : List Entry)
    → Removal a
        (record { folder = f; log = log })
        (note_removal a (remove_failed_pull_folder a.removes f) (record { folder = f; log = log }))
unfolding remove_failed_pull_folder
note_removal-Removal a absent log = inl refl
note_removal-Removal a unreachable log =
    inl (log_if-folder a.appends_leftover folder_kept (record { folder = unreachable; log = log }))
note_removal-Removal a (folder unreadable manifest bytes) log = inl (
    log_if-folder a.appends_leftover folder_kept
      (record { folder = folder unreadable manifest bytes; log = log }))
note_removal-Removal a (folder (snapshot state) manifest bytes) log = inl refl
note_removal-Removal a (folder no_status manifest bytes) log = elim (Bool-cases a.removes) [
  | inl can ↦
      simp (can, remove_failed_pull_folder)
        (inr (
          manifest,
          bytes,
          refl,
          log_if-folder a.appends_leftover (folder_removed bytes)
              (record { folder = absent; log = log }),
          log_if-log a.appends_leftover (folder_removed bytes)
              (record { folder = absent; log = log }),
        ))
  | inr cannot ↦
      simp (cannot, remove_failed_pull_folder)
        (inl (
          log_if-folder a.appends_leftover folder_kept
            (record { folder = folder no_status manifest bytes; log = log })))
]

remove_own_leftover-Removal :
    (a : Answers) (d : Destination) → Removal a d (remove_own_leftover a d)
unfolding remove_own_leftover
remove_own_leftover-Removal a d = elim (Bool-cases a.plistutil_last) [
  | inl there ↦ simp there (note_removal-Removal a d.folder d.log)
  | inr missing ↦ simp missing (inl (log_if-folder a.appends_leftover folder_kept d))
]

recorded_at : Answers → Pulling → Destination
recorded_at a s =
    if s.recorded then s.at else log_if a.appends_failed (pull_line s.record_line) s.at

-- `finally` ends with the record, or goes on to the folder of a pull that failed and is recorded.
settle-cases :
    (a : Answers) (s : Pulling)
    → (settle a s ≡ recorded_at a s)
      ⊎ ((settle a s ≡ remove_own_leftover a (recorded_at a s))
          × (is_completed s.record_line.outcome ≡ false)
          × (s.folder_is_this_pulls ≡ true)
          × ((s.recorded || a.appends_failed) ≡ true))
unfolding settle recorded_at
settle-cases a s =
    elim (Bool-cases (
      not (is_completed s.record_line.outcome)
      && s.folder_is_this_pulls
      && (s.recorded || a.appends_failed))) [
        | inr ends ↦ inl (simp ends refl)
        | inl goes_on ↦ inr (simp goes_on refl, ground arith, ground arith, ground arith)
      ]

-- Where a pull throws, its line is written in `finally`.
unrecorded_at :
    (a : Answers) (s : Pulling)
    → s.recorded ≡ false
    → recorded_at a s ≡ log_if a.appends_failed (pull_line s.record_line) s.at
unfolding recorded_at
unrecorded_at a s e = simp e refl

written_at : (a : Answers) (s : Pulling) → s.recorded ≡ true → recorded_at a s ≡ s.at
unfolding recorded_at
written_at a s e = simp e refl

recorded_log :
    (a : Answers) (s : Pulling) (log : List Entry)
    → s.recorded ≡ false
    → (s.recorded || a.appends_failed) ≡ true
    → s.at.log ≡ log
    → (recorded_at a s).log ≡ pull_line s.record_line ∷ log
recorded_log a s log unrecorded written at =
    let appended : a.appends_failed ≡ true = ground arith in
    ap (λ (x : Destination). x.log) (unrecorded_at a s unrecorded)
    ∙ (ap (λ (b : Bool). (log_if b (pull_line s.record_line) s.at).log) appended
        ∙ ap (λ (l : List Entry). pull_line s.record_line ∷ l) at)

missing : (manifest : Bool) (bytes : ℕ) → folder no_status manifest bytes ≢ absent
missing manifest bytes e = absurd (ground arith)

finished-Left :
    (a : Answers) (d : Destination) (s : Pulling) → Finished a d s → Left a d (settle a s)
finished-Left a d s (at, written, outcome, crash, whole, new) = elim (settle-cases a s) [
  | inl is ↦ made new (
      ap (λ (x : Destination). x.folder) (is ∙ written_at a s written)
      ∙ ap (λ (x : Destination). x.folder) at)
  | inr (is, failing, own, entered) ↦ absurd (ground (arith, simp outcome at failing))
]

settle-Left :
    (a : Answers) (d : Destination) (s : Pulling) (e : PullError)
    → Stage a d s
    → Left a d (settle a (caught s e))
unfolding caught
settle-Left a d s e (untouched at unrecorded outcome new) =
    let c : Pulling = caught s e in
    let there : (recorded_at a c).folder ≡ d.folder =
      ap (λ (x : Destination). x.folder) (unrecorded_at a c unrecorded)
      ∙ (log_if-folder a.appends_failed (pull_line c.record_line) s.at
          ∙ ap (λ (x : Destination). x.folder) at) in
    elim (settle-cases a c) [
      | inl is ↦ kept (ap (λ (x : Destination). x.folder) is ∙ there)
      | inr (is, failing, own, written) ↦ elim (remove_own_leftover-Removal a (recorded_at a c)) [
        | inl same ↦ kept (ap (λ (x : Destination). x.folder) is ∙ (same ∙ there))
        | inr (manifest, bytes, holds, gone, log) ↦
            absurd (missing manifest bytes (sym holds ∙ (there ∙ new own)))
      ]
    ]
settle-Left a d s e (ran at unrecorded outcome new) =
    let c : Pulling = caught s e in
    let there : (recorded_at a c).folder ≡ a.run.left =
      ap (λ (x : Destination). x.folder) (unrecorded_at a c unrecorded)
      ∙ (log_if-folder a.appends_failed (pull_line c.record_line) s.at
          ∙ ap (λ (x : Destination). x.folder) at) in
    elim (settle-cases a c) [
      | inl is ↦ made new (ap (λ (x : Destination). x.folder) is ∙ there)
      | inr (is, failing, own, written) ↦ elim (remove_own_leftover-Removal a (recorded_at a c)) [
        | inl same ↦ made new (ap (λ (x : Destination). x.folder) is ∙ (same ∙ there))
        | inr (manifest, bytes, holds, gone, log) ↦
            removed c.record_line manifest bytes new (sym there ∙ holds)
              (ap (λ (x : Destination). x.folder) is ∙ gone) failing
              (ap (λ (x : Destination). x.log) is
                ∙ (log
                    ∙ ap
                        (λ (l : List Entry).
                          if a.appends_leftover then folder_removed bytes ∷ l else l)
                        (recorded_log a c d.log unrecorded written
                          (ap (λ (x : Destination). x.log) at))))
      ]
    ]
settle-Left a d s e (unwritten at written outcome uncancelled new) =
    let c : Pulling = caught s e in
    elim (settle-cases a c) [
      | inl is ↦ made new (
          ap (λ (x : Destination). x.folder) (is ∙ written_at a c written)
          ∙ ap (λ (x : Destination). x.folder) at)
      | inr (is, failing, own, entered) ↦
          absurd (ground (arith, simp (uncancelled, outcome) at failing))
    ]

-- A pull never writes into a folder that is there, and removes one again only where it made it, the
-- device had sent no backup into it, and the pull failed and is recorded.
pub pull_backup-Left :
    (a : Answers) (options : PullOptions) (udid : Text) (source : IosBackupSource) (d : Destination)
    → Left a d (pull_backup a options udid source d).1
unfolding pull_backup
pull_backup-Left a options udid source d =
    elim (Bool-cases (is_empty (skip_spaces options.password))) [
      | inl blank ↦ simp blank (kept refl)
      | inr given ↦ elim (Bool-cases a.tools) [
        | inr missing ↦ simp (given, missing) (kept refl)
        | inl there ↦ elim (Bool-cases (is_some source.cancel_requested)) [
          | inl busy ↦ simp (given, there, busy) (kept refl)
          | inr free ↦ elim (Bool-cases source.copying_crash_logs) [
            | inl copies ↦ simp (given, there, free, copies) (kept refl)
            | inr ready ↦
                simp (given, there, free, ready)
                  (after_body-Left (body a options udid (start_pull d))
                    (body-Holds a d options udid))
          ]
        ]
      ]
    ]
  where
    after_body-Left : (m : Step) → Holds (Finished a d) (Stage a d) m → Left a d (after_body a m).0
    after_body-Left (goes s) h = finished-Left a d s h
    after_body-Left (throws s e) h = settle-Left a d s e h
