-- ===== src/Sessions.antt =====
-- apps/epoch/src/main/ipc/pipelineSessions.ts: the state of Prepare Evidence and Analyze, as the
-- main process keeps it, with what is sent to the renderer.
pub mod Log
pub mod Prepare
pub mod Analysis
pub mod Laws
use verichron_epoch.Prelude.{
  ℕ, ◌+◌, ◌-◌, Bool, List, [], ◌∷◌, Option, none, some, Text, is_some, if◌then◌else◌,
}

pub data SessionStatus : Type 0 where
  idle running finished : SessionStatus

pub record PreparedResult : Type 0 where
  pub label : Text
  pub success : Bool
  pub decrypted : Bool

pub data AnalysisStatus : Type 0 where
  succeeded failed skipped : AnalysisStatus

pub record StageResult : Type 0 where
  pub stage : Text
  pub success : Bool

pub record AnalysisResult : Type 0 where
  pub backup_path : Text
  pub status : AnalysisStatus
  pub run_id : Option Text
  pub stages : Option (List StageResult)
  pub error : Option Text

-- What a finished run reports. `none` is a field that is left out; an exit code that is null (the
-- process was killed) is `some none`.
pub record PipelineFinishedResult : Type 0 where
  pub success : Bool
  pub exit_code : Option (Option ℕ)
  pub error : Option Text
  pub workspace : Option Text
  pub backups : Option (List PreparedResult)
  pub analysis : Option (List AnalysisResult)
  pub cancelled : Option Bool
  pub timed_out : Option Bool

-- `Notifier`: a timer that is pending, when a change was last sent, and what was sent, the newest
-- first.
pub record Notifier (T : Type 0) : Type 0 where
  pub timer : Option ℕ
  pub last_sent : ℕ
  pub sent : List T

abbrev pub notify_interval_ms : ℕ
notify_interval_ms = 250

module _ {T : Type 0} where
  unfoldable pub new_notifier : Notifier T
  new_notifier = record { timer = none; last_sent = 0; sent = [] }

  -- `setTimeout` at the given time: it goes off at that time or later. `Math.max(0, …)` is the
  -- subtraction on ℕ.
  unfoldable pub soon : Notifier T → ℕ → Notifier T
  soon n now =
      if is_some n.timer
      then n
      else record n { timer = some (now + (n.last_sent + notify_interval_ms - now)) }

  unfoldable pub send_now : Notifier T → T → ℕ → Notifier T
  send_now n state now = record { timer = none; last_sent = now; sent = state ∷ n.sent }
