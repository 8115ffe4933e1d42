-- ===== src/PrepareProgress/Laws.antt =====
-- What one line changes, and what it leaves alone.
use verichron_epoch.Prelude.{
  ℕ, ◌≡◌, refl, sym, ap, ◌∙◌, ◌≢◌, inl, inr, Bool, true, false, ◌&&◌, ◌||◌, not, List, none, some,
  Text, text_eq, text_eq_iff, arith, of_some, Option-cases, Bool-cases, lookup, insert,
  lookup-insert, is_some, if◌then◌else◌,
}
use verichron_epoch.PrepareProgress.Patterns.{trim_end}
use verichron_epoch.PrepareProgress.Matching.{
  backup_start, stage_line, is_skipped, is_done, ileapp, hash, decrypt, repair,
}
use verichron_epoch.PrepareProgress.{
  BackupProgress, PrepareRunProgress, BackupOverallState, failed, begin_backup,
  apply_prepare_log_line, finish_stage, fail_stage, is_failed, stage_after, index_of, stage_order,
}
use verichron_epoch.PrepareProgress.Changes.{
  Change, same, started, updated, apply-Change, Effect, reports, fails, finishes, read_line-Effect,
}

put-keys :
    (m : List (Text × BackupProgress)) (l label : Text) (old new : BackupProgress)
    → lookup l m ≡ some old
    → is_some (lookup label (insert l new m)) ≡ is_some (lookup label m)
put-keys m l label old new found = ground (arith, lookup-insert l label new m, text_eq_iff l label)

-- Every line keeps the order and the set of backups.
apply-keys :
    (state : PrepareRunProgress) (raw : Text) (now : ℕ) (label : Text)
    → let after = apply_prepare_log_line state raw now in
      (after.order ≡ state.order)
      × (is_some (lookup label after.by_label) ≡ is_some (lookup label state.by_label))
apply-keys state raw now label = keys (apply-Change state raw now)
  where
    keys :
        {after : PrepareRunProgress}
        → Change state (trim_end raw) now after
        → (after.order ≡ state.order)
          × (is_some (lookup label after.by_label) ≡ is_some (lookup label state.by_label))
    keys (same e) = rw e (refl, refl)
    keys (started l old e found s) = rw s (refl, put-keys state.by_label l label old _ found)
    keys (updated l old new e c found r s) =
        rw s (refl, put-keys state.by_label l label old new found)

-- The only backup that a line can change is the one that is current behind the line.
apply_frame :
    (state : PrepareRunProgress) (raw : Text) (now : ℕ) (label : Text)
    → let after = apply_prepare_log_line state raw now in
      lookup label after.by_label ≢ lookup label state.by_label → after.current_label ≡ some label
apply_frame state raw now label = frame (apply-Change state raw now)
  where
    frame :
        {after : PrepareRunProgress}
        → Change state (trim_end raw) now after
        → lookup label after.by_label ≢ lookup label state.by_label
        → after.current_label ≡ some label
    frame (same e) moved =
        absurd (moved (ap (λ (s : PrepareRunProgress). lookup label s.by_label) e))
    frame (started l old e found s) moved =
        ground
          (arith, lookup-insert l label (begin_backup old now) state.by_label, text_eq_iff l label)
    frame (updated l old new e c found r s) moved =
        ground (arith, lookup-insert l label new state.by_label, text_eq_iff l label)

stays_failed :
    (last : Bool) (o : BackupOverallState)
    → o ≡ failed
    → (if last && not (is_failed o) then BackupOverallState.done else o) ≡ failed
stays_failed last o f = ground arith

finish_stage-failed :
    (old : BackupProgress) (stage : Text) (is_skip : Bool) (now : ℕ)
    → old.overall ≡ failed
    → (finish_stage old stage is_skip now).overall ≡ failed
unfolding finish_stage
finish_stage-failed old stage is_skip now f = stays_failed _ old.overall f

read_line-failed :
    {old : BackupProgress} {line : Text} {now : ℕ} {new : BackupProgress}
    → Effect old line now new
    → old.overall ≡ failed
    → new.overall ≡ failed
unfolding fail_stage
read_line-failed (reports o s) f = o ∙ f
read_line-failed (fails stage message m e) f = ground arith
read_line-failed {old} {now} (finishes stage rest m ends e) f =
    rw e (finish_stage-failed old stage (is_skipped rest) now f)

-- A backup that failed stays failed until its start banner comes again.
apply-failed :
    (state : PrepareRunProgress) (raw : Text) (now : ℕ) (label : Text) (old : BackupProgress)
    → lookup label state.by_label ≡ some old
    → old.overall ≡ failed
    → backup_start (trim_end raw) ≢ some label
    → (new : BackupProgress) × (lookup label (apply_prepare_log_line state raw now).by_label
        ≡ some new)
      × (new.overall ≡ failed)
apply-failed state raw now label old there f no_start = stays (apply-Change state raw now)
  where
    stays :
        {after : PrepareRunProgress}
        → Change state (trim_end raw) now after
        → (new : BackupProgress) × (lookup label after.by_label ≡ some new) × (new.overall ≡ failed)
    stays (same e) = (old, rw e there, f)
    stays (started l was e found s) =
        let other : text_eq l label ≡ false = ground (arith, text_eq_iff l label) in
        (old, rw s (rw (lookup-insert l label _ state.by_label, other) there), f)
    stays (updated l was new e c found r s) = elim (Bool-cases (text_eq l label)) [
      | inl same_label ↦
          let equal : l ≡ label = (text_eq_iff l label).0 same_label in
          (
            new,
            rw s (rw (lookup-insert l label _ state.by_label, same_label)),
            read_line-failed (read_line-Effect was (trim_end raw) now new r)
                (ground (arith, equal)),
          )
      | inr other ↦ (old, rw s (rw (lookup-insert l label _ state.by_label, other) there), f)
    ]

index_of_last : (stage : Text) → stage_after (index_of stage stage_order 0) ≡ none → stage ≡ ileapp
index_of_last stage e = ground (
  arith,
  text_eq_iff hash stage,
  text_eq_iff decrypt stage,
  text_eq_iff repair stage,
  text_eq_iff ileapp stage,
)

read_line-done :
    {old : BackupProgress} {line : Text} {now : ℕ} {new : BackupProgress}
    → Effect old line now new
    → new.overall ≡ BackupOverallState.done
    → old.overall ≢ BackupOverallState.done
    → (rest : Text) × (stage_line line ≡ some (ileapp, rest))
      × ((is_skipped rest || is_done rest) ≡ true)
      × (old.overall ≢ failed)
unfolding finish_stage fail_stage
read_line-done (reports o s) d n = absurd (n (sym o ∙ d))
read_line-done (fails stage message m e) d n = ground arith
read_line-done (finishes stage rest m ends e) d n =
    elim (Option-cases (stage_after (index_of stage stage_order 0))) [
      | inl last ↦ (rest, rw (← index_of_last stage last) m, ends, ground arith)
      | inr (next, more) ↦ absurd (ground arith)
    ]

begin_backup-running :
    (old : BackupProgress) (now : ℕ) → (begin_backup old now).overall ≡ BackupOverallState.running
unfolding begin_backup
begin_backup-running old now = refl

-- A backup becomes done only by the "done" or "skipped" line of its last step, iLEAPP, while it is
-- the current backup and has not failed.
pub apply-done :
    (state : PrepareRunProgress) (raw : Text) (now : ℕ) (label : Text) (old new : BackupProgress)
    → lookup label state.by_label ≡ some old
    → lookup label (apply_prepare_log_line state raw now).by_label ≡ some new
    → old.overall ≢ BackupOverallState.done
    → new.overall ≡ BackupOverallState.done
    → (rest : Text) × (stage_line (trim_end raw) ≡ some (ileapp, rest))
      × ((is_skipped rest || is_done rest) ≡ true)
      × (old.overall ≢ failed)
      × (state.current_label ≡ some label)
apply-done state raw now label old new there then_new n d = by (apply-Change state raw now) then_new
  where
    unmoved : {A : Type 0} → lookup label state.by_label ≡ some new → A
    unmoved t = absurd (n (ap (λ (b : BackupProgress). b.overall) (of_some (sym there ∙ t)) ∙ d))

    by :
        {after : PrepareRunProgress}
        → Change state (trim_end raw) now after
        → lookup label after.by_label ≡ some new
        → (rest : Text) × (stage_line (trim_end raw) ≡ some (ileapp, rest))
          × ((is_skipped rest || is_done rest) ≡ true)
          × (old.overall ≢ failed)
          × (state.current_label ≡ some label)
    by (same e) t = unmoved (rw e at t)
    by (started l was e found s) t = elim (Bool-cases (text_eq l label)) [
      | inl it ↦
          let begun =
            rw (s, lookup-insert l label (begin_backup was now) state.by_label, it) at t in
          cc (
            begin_backup-running was now,
            ap (λ (b : BackupProgress). b.overall) (of_some begun),
            d,
          )
      | inr other ↦
          unmoved (rw (s, lookup-insert l label (begin_backup was now) state.by_label, other) at t)
    ]
    by (updated l was b e c found r s) t = elim (Bool-cases (text_eq l label)) [
      | inl it ↦
          let equal : l ≡ label = (text_eq_iff l label).0 it in
          let b_new : b ≡ new = of_some (rw (s, lookup-insert l label b state.by_label, it) at t) in
          let was_old : was ≡ old = of_some (sym found ∙ rw (← equal) at there) in
          let effect = read_line-Effect old (trim_end raw) now new (rw (← was_old, ← b_new) r) in
          let (rest, line, ends, unfailed) = read_line-done effect d n in
          (rest, line, ends, unfailed, rw (← equal) c)
      | inr other ↦ unmoved (rw (s, lookup-insert l label b state.by_label, other) at t)
    ]
