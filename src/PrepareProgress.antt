-- ===== src/PrepareProgress.antt =====
-- apps/epoch/src/shared/prepareProgress.ts: the processor's output lines as structured progress.
pub mod Patterns
pub mod Matching
pub mod Changes
pub mod Laws
pub mod Banner
use verichron_epoch.Prelude.{
  ℕ, zero, suc, is_some, Bool, true, false, ◌&&◌, ◌||◌, not, List, [], ◌∷◌, Option, none, some,
  Text, codes, text_eq, ◌==◌, if◌then◌else◌, lookup, insert,
}
use verichron_epoch.PrepareProgress.Patterns.{trim_end}
use verichron_epoch.PrepareProgress.Matching.{
  hash, decrypt, repair, ileapp, backup_start, stage_line, stage_error, hash_progress,
  decrypt_progress, ileapp_module_line, is_skipped, is_done,
}

pub data StageState : Type 0 where
  pending running done skipped error : StageState

pub data BackupOverallState : Type 0 where
  queued running done failed : BackupOverallState

pub record IleappModule : Type 0 where
  pub index : ℕ
  pub total : ℕ
  pub name : Text
  pub started_at : ℕ

pub record BackupProgress : Type 0 where
  pub label : Text
  pub overall : BackupOverallState
  pub stages : List (Text × StageState)
  pub error_message : Option Text
  pub stage_started_at : List (Text × ℕ)
  pub hashed : Option (ℕ × ℕ)
  pub decrypted : Option (ℕ × ℕ)
  pub ileapp_module : Option IleappModule

pub record PrepareRunProgress : Type 0 where
  pub order : List Text
  pub by_label : List (Text × BackupProgress)
  pub current_label : Option Text

abbrev pub stage_order : List Text
stage_order = hash ∷ decrypt ∷ repair ∷ ileapp ∷ []

abbrev pub empty_stages : List (Text × StageState)
empty_stages =
    (hash, StageState.pending)
    ∷ (decrypt, StageState.pending)
    ∷ (repair, StageState.pending)
    ∷ (ileapp, StageState.pending)
    ∷ []

abbrev pub queued_backup : Text → BackupProgress
queued_backup label = record {
  label = label;
  overall = queued;
  stages = empty_stages;
  error_message = none;
  stage_started_at = [];
  hashed = none;
  decrypted = none;
  ileapp_module = none;
}

-- The loop of `initPrepareProgress`.
seed : List (Text × BackupProgress) → List Text → List (Text × BackupProgress)
seed by_label [] = by_label
seed by_label (label ∷ labels) = seed (insert label (queued_backup label) by_label) labels

unfoldable pub init_prepare_progress : List Text → PrepareRunProgress
unfolding seed
init_prepare_progress labels = record {
  order = labels;
  by_label = seed [] labels;
  current_label = none;
}

abbrev pub is_failed : BackupOverallState → Bool
is_failed failed = true
is_failed _ = false

-- `STAGE_ORDER.indexOf(stage)`, with `none` for -1.
abbrev index_of : Text → List Text → ℕ → Option ℕ
index_of stage [] i = none
index_of stage (s ∷ ss) i = if text_eq s stage then some i else index_of stage ss (suc i)

-- `STAGE_ORDER[idx + 1]`, or `undefined` behind the last stage.
abbrev stage_after : Option ℕ → Option Text
stage_after none = some hash
stage_after (some zero) = some decrypt
stage_after (some (suc zero)) = some repair
stage_after (some (suc (suc zero))) = some ileapp
stage_after (some (suc (suc (suc i)))) = none

-- The step behind a finished one starts now.
unfoldable pub start_next :
    Option Text
    → ℕ
    → List (Text × StageState) × List (Text × ℕ)
    → List (Text × StageState) × List (Text × ℕ)
start_next none now (stages, started) = (stages, started)
start_next (some next) now (stages, started) =
    (insert next StageState.running stages, insert next now started)

-- A "done" or "skipped" line of a stage.
unfoldable pub finish_stage : BackupProgress → Text → Bool → ℕ → BackupProgress
unfolding start_next
finish_stage current stage is_skip now =
    let next = stage_after (index_of stage stage_order 0) in
    let finished = insert stage (if is_skip then StageState.skipped else StageState.done) stages in
    let (stages', started') = start_next next now (finished, stage_started_at) in
    let is_last = not (is_some next) in
    record current {
      stages = stages';
      stage_started_at = started';
      overall = if is_last && not (is_failed overall) then BackupOverallState.done else overall;
    }
  where
    open current use {stages, stage_started_at, overall}

-- `msg || undefined`
abbrev or_undefined : Text → Option Text
or_undefined [] = none
or_undefined (c ∷ s) = some (c ∷ s)

unfoldable pub fail_stage : BackupProgress → Text → Text → BackupProgress
fail_stage current stage message = record current {
  overall = failed;
  stages = insert stage StageState.error current.stages;
  error_message = or_undefined message;
}

-- What a stage's own line changes, or nothing for a line that only reports.
unfoldable pub on_stage_line : BackupProgress → ℕ → Option (Text × Text) → Option BackupProgress
on_stage_line current now none = none
on_stage_line current now (some (stage, rest)) =
    let is_skip = is_skipped rest in
    if is_skip || is_done rest then some (finish_stage current stage is_skip now) else none

unfoldable pub on_error_line :
    BackupProgress → Option (Text × Text) → Option BackupProgress → Option BackupProgress
on_error_line current none next = next
on_error_line current (some (stage, message)) next = some (fail_stage current stage message)

unfoldable pub on_module_line :
    BackupProgress → ℕ → Option (ℕ × ℕ × Text) → Option BackupProgress → Option BackupProgress
on_module_line current now none next = next
on_module_line current now (some (index, total, name)) next = some (record current {
  ileapp_module = some (record { index = index; total = total; name = name; started_at = now });
})

unfoldable pub on_decrypt_line :
    BackupProgress → Option (ℕ × ℕ) → Option BackupProgress → Option BackupProgress
on_decrypt_line current none next = next
on_decrypt_line current (some counts) next = some (record current { decrypted = some counts })

unfoldable pub on_hash_line :
    BackupProgress → Option (ℕ × ℕ) → Option BackupProgress → Option BackupProgress
on_hash_line current none next = next
on_hash_line current (some counts) next = some (record current { hashed = some counts })

-- The current backup after a line, or `none` where the code returns the state as it is.
unfoldable pub read_line : BackupProgress → Text → ℕ → Option BackupProgress
unfolding on_stage_line on_error_line on_module_line on_decrypt_line on_hash_line
read_line current line now = on_hash_line current (hash_progress line) (
    on_decrypt_line current (decrypt_progress line) (
      on_module_line current now (ileapp_module_line line)
        (on_error_line current (stage_error line) (on_stage_line current now (stage_line line)))))

unfoldable pub begin_backup : BackupProgress → ℕ → BackupProgress
begin_backup current now = record current {
  overall = BackupOverallState.running;
  stages = insert hash StageState.running current.stages;
  stage_started_at = (hash, now) ∷ [];
}

-- `!state.currentLabel`: the empty label counts as none.
abbrev pub truthy : Option Text → Option Text
truthy none = none
truthy (some []) = none
truthy (some (c ∷ s)) = some (c ∷ s)

abbrev pub put : PrepareRunProgress → Text → BackupProgress → PrepareRunProgress
put state label backup = record state { by_label = insert label backup state.by_label }

unfoldable pub start_backup : PrepareRunProgress → Text → ℕ → PrepareRunProgress
start_backup state label now = elim (lookup label state.by_label) [
  | none ↦ state
  | some current ↦ record (put state label (begin_backup current now)) {
    current_label = some label;
  }
]

unfoldable pub update_current : PrepareRunProgress → Option Text → Text → ℕ → PrepareRunProgress
update_current state none line now = state
update_current state (some label) line now = elim (lookup label state.by_label) [
  | none ↦ state
  | some current ↦ elim (read_line current line now) [ none ↦ state | some b ↦ put state label b ]
]

unfoldable pub apply_prepare_log_line : PrepareRunProgress → Text → ℕ → PrepareRunProgress
unfolding start_backup update_current
apply_prepare_log_line state raw_line now =
    let line = trim_end raw_line in
    elim (backup_start line) [
      | some label ↦ start_backup state label now
      | none ↦ update_current state (truthy state.current_label) line now
    ]
