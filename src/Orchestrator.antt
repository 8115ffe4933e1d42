-- ===== src/Orchestrator.antt =====
-- apps/orchestrator/src/types.ts and registration.ts: the stages, and what each of them reads.
pub mod Runs
pub mod Closing
pub mod Discovery
pub mod Order
pub mod Pipeline
pub mod Rows
pub mod Rounds
pub mod Resume
pub mod Evidence
pub mod Register
use verichron_epoch.Prelude.{ℕ, Bool, List, Option, none, some, String}

pub data StageInput : Type 0 where
  decrypted ileapp_output crash_reports indicator_set : StageInput

pub record StageManifest : Type 0 where
  pub entrypoint : String
  pub order : ℕ
  pub reads : StageInput
  pub parser_version : Option ℕ
  pub enabled : Bool

pub record StageDefinition : Type 0 where
  pub name : String
  pub dir : String
  pub manifest : StageManifest

pub record StageSet : Type 0 where
  pub enabled : List StageDefinition
  pub disabled : List StageDefinition

pub record Registration : Type 0 where
  pub evidence_id : String
  pub device_id : String
  pub decrypted_derivative_id : String
  pub ileapp_derivative_id : Option String
  pub crash_reports_derivative_id : Option String

-- The text of `NOT_ACQUIRED` for each input whose absence is a fact.
abbrev pub not_acquired : StageInput → Option String
not_acquired crash_reports =
    some
      "Crash logs were not acquired for this evidence. An iOS backup does not contain the device's crash logs; they are copied from the device separately."
not_acquired indicator_set = some "No indicator set is registered, so indicators were not checked."
not_acquired _ = none

unfoldable pub absent_input_reason : StageDefinition → Option String
absent_input_reason stage = not_acquired stage.manifest.reads

abbrev by_kind : StageInput → Registration → Option String
by_kind decrypted r = some r.decrypted_derivative_id
by_kind ileapp_output r = r.ileapp_derivative_id
by_kind crash_reports r = r.crash_reports_derivative_id
by_kind indicator_set r = none

unfoldable pub derivative_for : StageDefinition → Registration → Option String
derivative_for stage r = by_kind stage.manifest.reads r

pub record StageInputs : Type 0 where
  pub derivative_id : Option String
  pub indicator_set_id : Option String
  pub absent_reason : Option String

-- `id ? null : absentInputReason(stage)`; an id is a UUID, never empty.
abbrev reason_unless : Option String → Option String → Option String
reason_unless (some id) reason = none
reason_unless none reason = reason

abbrev inputs_by : StageInput → StageDefinition → Registration → Option String → StageInputs
inputs_by indicator_set stage r set = record {
  derivative_id = none;
  indicator_set_id = set;
  absent_reason = reason_unless set (not_acquired stage.manifest.reads);
}
inputs_by _ stage r set = record {
  derivative_id = by_kind stage.manifest.reads r;
  indicator_set_id = none;
  absent_reason =
      reason_unless (by_kind stage.manifest.reads r) (not_acquired stage.manifest.reads);
}

unfoldable pub inputs_for : StageDefinition → Registration → Option String → StageInputs
inputs_for stage r set = inputs_by stage.manifest.reads stage r set
