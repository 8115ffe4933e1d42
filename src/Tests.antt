-- ===== src/Tests.antt =====
-- The theorems at concrete inputs.
pub mod Processor
pub mod Ileapp
pub mod Epoch
pub mod Handlers
pub mod Preparing
pub mod AnalysisTargets
pub mod Backups
pub mod Orchestrator
pub mod Registration
pub mod DevicePull
