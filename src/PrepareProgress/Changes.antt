-- ===== src/PrepareProgress/Changes.antt =====
-- The shapes that the change made by one line can have.
use verichron_epoch.Prelude.{
  ℕ, ◌≡◌, refl, inl, inr, true, ◌||◌, [], ◌∷◌, Option, none, some, Text, arith, Option-cases,
  Bool-cases, lookup,
}
use verichron_epoch.PrepareProgress.Patterns.{trim_end}
use verichron_epoch.PrepareProgress.Matching.{
  backup_start, stage_error, stage_line, is_skipped, is_done, hash_progress, decrypt_progress,
  ileapp_module_line,
}
use verichron_epoch.PrepareProgress.{
  BackupProgress, PrepareRunProgress, read_line, begin_backup, truthy, put, start_backup,
  update_current, apply_prepare_log_line, finish_stage, fail_stage, on_stage_line, on_error_line,
  on_module_line, on_decrypt_line, on_hash_line,
}

-- A line either changes nothing, or gives one backup that is there a new value.
pub data Change (state : PrepareRunProgress) (line : Text) (now : ℕ) (after : PrepareRunProgress)
    : Type 0 where
  same : after ≡ state → Change state line now after
  started :
      (label : Text) (old : BackupProgress)
      → backup_start line ≡ some label
      → lookup label state.by_label ≡ some old
      → after ≡ record (put state label (begin_backup old now)) { current_label = some label }
      → Change state line now after
  updated :
      (label : Text) (old new : BackupProgress)
      → backup_start line ≡ none
      → state.current_label ≡ some label
      → lookup label state.by_label ≡ some old
      → read_line old line now ≡ some new
      → after ≡ put state label new
      → Change state line now after

truthy-some : (c : Option Text) {label : Text} → truthy c ≡ some label → c ≡ some label
truthy-some none e = cc
truthy-some (some []) e = cc
truthy-some (some (c ∷ s)) e = e

start-Change :
    (state : PrepareRunProgress) (line label : Text) (now : ℕ)
    → backup_start line ≡ some label
    → Change state line now (start_backup state label now)
unfolding start_backup
start-Change state line label now e = elim (Option-cases (lookup label state.by_label)) [
  | inl unknown ↦ rw (unknown, start_backup) (same refl)
  | inr (old, found) ↦ rw (found, start_backup) (started label old e found refl)
]

update-Change :
    (state : PrepareRunProgress) (line label : Text) (now : ℕ)
    → backup_start line ≡ none
    → state.current_label ≡ some label
    → Change state line now (update_current state (some label) line now)
unfolding update_current
update-Change state line label now e c = elim (Option-cases (lookup label state.by_label)) [
  | inl unknown ↦ rw (unknown, update_current) (same refl)
  | inr (old, found) ↦ elim (Option-cases (read_line old line now)) [
    | inl nothing ↦ rw (found, nothing, update_current) (same refl)
    | inr (new, changed) ↦
        rw (found, changed, update_current) (updated label old new e c found changed refl)
  ]
]

pub apply-Change :
    (state : PrepareRunProgress) (raw : Text) (now : ℕ)
    → Change state (trim_end raw) now (apply_prepare_log_line state raw now)
unfolding apply_prepare_log_line
apply-Change state raw now = elim (Option-cases (backup_start (trim_end raw))) [
  | inr (label, e) ↦ rw (e, apply_prepare_log_line) (start-Change state (trim_end raw) label now e)
  | inl e ↦ elim (Option-cases (truthy state.current_label)) [
    | inl idle ↦ rw (e, idle, apply_prepare_log_line) (same (unfold update_current in refl))
    | inr (label, c) ↦
        rw (e, c, apply_prepare_log_line)
          (update-Change state (trim_end raw) label now e (truthy-some state.current_label c))
  ]
]

-- What a line says of the current backup.
pub data Effect (old : BackupProgress) (line : Text) (now : ℕ) (new : BackupProgress) : Type 0 where
  reports : new.overall ≡ old.overall → new.stages ≡ old.stages → Effect old line now new
  fails :
      (stage message : Text)
      → stage_error line ≡ some (stage, message)
      → new ≡ fail_stage old stage message
      → Effect old line now new
  finishes :
      (stage rest : Text)
      → stage_line line ≡ some (stage, rest)
      → (is_skipped rest || is_done rest) ≡ true
      → new ≡ finish_stage old stage (is_skipped rest) now
      → Effect old line now new

module _ (old : BackupProgress) (line : Text) (now : ℕ) (new : BackupProgress) where
  stage-Effect :
      (found : Option (Text × Text))
      → stage_line line ≡ found
      → on_stage_line old now found ≡ some new
      → Effect old line now new
  unfolding on_stage_line
  stage-Effect none m e = cc
  stage-Effect (some (stage, rest)) m e = elim (Bool-cases (is_skipped rest || is_done rest)) [
    | inl ends ↦ finishes stage rest m ends (ground (arith, ends))
    | inr goes_on ↦ cc (rw goes_on at e)
  ]

  error-Effect :
      (found : Option (Text × Text)) (next : Option BackupProgress)
      → stage_error line ≡ found
      → (next ≡ some new → Effect old line now new)
      → on_error_line old found next ≡ some new
      → Effect old line now new
  unfolding on_error_line
  error-Effect none next m ih e = ih e
  error-Effect (some (stage, message)) next m ih e = fails stage message m (ground arith)

  module-Effect :
      (found : Option (ℕ × ℕ × Text)) (next : Option BackupProgress)
      → (next ≡ some new → Effect old line now new)
      → on_module_line old now found next ≡ some new
      → Effect old line now new
  unfolding on_module_line
  module-Effect none next ih e = ih e
  module-Effect (some (index, total, name)) next ih e = reports (ground arith) (ground arith)

  decrypt-Effect :
      (found : Option (ℕ × ℕ)) (next : Option BackupProgress)
      → (next ≡ some new → Effect old line now new)
      → on_decrypt_line old found next ≡ some new
      → Effect old line now new
  unfolding on_decrypt_line
  decrypt-Effect none next ih e = ih e
  decrypt-Effect (some counts) next ih e = reports (ground arith) (ground arith)

  hash-Effect :
      (found : Option (ℕ × ℕ)) (next : Option BackupProgress)
      → (next ≡ some new → Effect old line now new)
      → on_hash_line old found next ≡ some new
      → Effect old line now new
  unfolding on_hash_line
  hash-Effect none next ih e = ih e
  hash-Effect (some counts) next ih e = reports (ground arith) (ground arith)

  pub read_line-Effect : read_line old line now ≡ some new → Effect old line now new
  unfolding read_line
  read_line-Effect e =
      hash-Effect (hash_progress line) _
        (decrypt-Effect (decrypt_progress line) _ (
          module-Effect (ileapp_module_line line) _
            (error-Effect (stage_error line) _ refl (stage-Effect (stage_line line) refl))))
        e
