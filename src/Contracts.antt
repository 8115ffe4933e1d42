-- ===== src/Contracts.antt =====
-- packages/contracts/ts/derivativeMarker.ts: the completion markers of derivatives, as the schemas
-- there describe a valid one.
pub mod Identity
pub mod Backups
use verichron_epoch.Prelude.{ℕ, List, Option, String}

pub record ToolVersion : Type 0 where
  pub name : String
  pub version : String

pub data RepairProvenance : Type 0 where
  skipped : String → RepairProvenance
  ran : ToolVersion → ℕ → ℕ → List String → List String → RepairProvenance

pub record IleappModuleError : Type 0 where
  pub module_name : String
  pub artifact : String
  pub file_count : ℕ
  pub error : Option String

pub record IleappModules : Type 0 where
  pub total : ℕ
  pub complete : ℕ
  pub no_files_found : List String
  pub errors : List IleappModuleError

pub data InputType : Type 0 where
  itunes fs : InputType

pub record DecryptMarker : Type 0 where
  pub content_root : String
  pub tool : ToolVersion
  pub repair : RepairProvenance

pub record IleappMarker : Type 0 where
  pub content_root : String
  pub tool : ToolVersion
  pub input_type : InputType
  pub modules : IleappModules

pub record CrashReportsParams : Type 0 where
  pub acquired_at : String
  pub backup_finished_at : String
  pub files : ℕ
  pub bytes : ℕ
  pub reports_root : String

pub record CrashReportsMarker : Type 0 where
  pub content_root : String
  pub tool : ToolVersion
  pub params : CrashReportsParams

-- packages/contracts/ts/crashReportsAcquisition.ts
pub record CrashReportsAcquisition : Type 0 where
  pub tool : ToolVersion
  pub acquired_at : String
  pub backup_finished_at : String
  pub files : ℕ
  pub bytes : ℕ
