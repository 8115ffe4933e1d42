-- ===== src/DevicePull/Pull/Returned.antt =====
-- What holds where a pull of apps/epoch/src/main/tools/device-backup/ios/iosBackupSource.ts reports
-- success.
use verichron_epoch.Prelude.{
  ℕ, ◌≡◌, refl, ap, ◌∙◌, inl, inr, true, false, ◌∷◌, none, some, Text, arith, is_some, eq_iff,
  Bool-cases,
}
use verichron_epoch.PrepareProgress.Patterns.{skip_spaces, is_empty}
use verichron_epoch.DevicePull.{
  Folder, absent, unreachable, folder, no_status, unreadable, snapshot, gives, incomplete_reason,
}
use verichron_epoch.DevicePull.Pull.{
  completed, PullRecord, pull_line, Answers, PullOptions, IosBackupSource, Destination, Pulling,
  Step, goes, throws, settle, after_body, start_pull, body, pull_backup,
}
use verichron_epoch.DevicePull.Pull.Stages.{Holds, Stage, Finished, body-Holds}

pub complete_backup :
    (f : Folder)
    → incomplete_reason f ≡ gives none
    → (bytes : ℕ) × (f ≡ folder (snapshot "finished") true bytes)
unfolding incomplete_reason
complete_backup absent e = absurd (ground arith)
complete_backup unreachable e = absurd (ground arith)
complete_backup (folder no_status manifest bytes) e = absurd (ground arith)
complete_backup (folder unreadable manifest bytes) e = absurd (ground arith)
complete_backup (folder (snapshot state) manifest bytes) e =
    (bytes, ground (arith, eq_iff state "finished"))

-- A finished backup stands in a folder that was not there, and the pull's line is the newest of the
-- record: completed, with how the copy of the crash logs went.
abbrev pub Completed : Answers → Destination → Destination → Type 0
Completed a d d' =
    (d.folder ≡ absent)
    × ((bytes : ℕ) × (d'.folder ≡ folder (snapshot "finished") true bytes))
    × ((line : PullRecord) × (d'.log ≡ pull_line line ∷ d.log)
        × (line.outcome ≡ completed)
        × (line.crash_reports ≡ some a.crash_reports))

settle-Completed :
    (a : Answers) (d : Destination) (s : Pulling) → Finished a d s → Completed a d (settle a s)
unfolding settle
settle-Completed a d s (at, written, outcome, crash, whole, new) =
    let (bytes, is) = complete_backup a.run.left whole in
    let settled : settle a s ≡ s.at = simp (outcome, written) refl in
    (
      new,
      (bytes, ap (λ (x : Destination). x.folder) (settled ∙ at) ∙ is),
      (s.record_line, ap (λ (x : Destination). x.log) (settled ∙ at), outcome, crash),
    )

-- A pull that does not throw made a finished backup, one that says so in its Status.plist and has a
-- Manifest.db, in a folder that was not there; its record is written; and the source is free again.
pub pull_backup-Completed :
    (a : Answers) (options : PullOptions) (udid : Text) (source : IosBackupSource) (d : Destination)
    → (pull_backup a options udid source d).2 ≡ none
    → let (source', d', thrown) = pull_backup a options udid source d in
      Completed a d d' × (source'.running ≡ false) × (source'.cancel_requested ≡ none)
unfolding pull_backup
pull_backup-Completed a options udid source d h =
    elim (Bool-cases (is_empty (skip_spaces options.password))) [
      | inl blank ↦ absurd (ground (arith, simp blank at h))
      | inr given ↦ elim (Bool-cases a.tools) [
        | inr missing ↦ absurd (ground (arith, simp (given, missing) at h))
        | inl there ↦ elim (Bool-cases (is_some source.cancel_requested)) [
          | inl busy ↦ absurd (ground (arith, simp (given, there, busy) at h))
          | inr free ↦ elim (Bool-cases source.copying_crash_logs) [
            | inl copies ↦ absurd (ground (arith, simp (given, there, free, copies) at h))
            | inr ready ↦
                let m : Step = body a options udid (start_pull d) in
                simp (given, there, free, ready)
                  (
                    after_body-Completed m (body-Holds a d options udid)
                        (simp (given, there, free, ready) at h),
                    refl,
                    refl,
                  )
          ]
        ]
      ]
    ]
  where
    after_body-Completed :
        (m : Step)
        → Holds (Finished a d) (Stage a d) m
        → (after_body a m).1 ≡ none
        → Completed a d (after_body a m).0
    after_body-Completed (goes s) h e = settle-Completed a d s h
    after_body-Completed (throws s x) h e = absurd (ground arith)
