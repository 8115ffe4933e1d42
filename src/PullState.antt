-- ===== src/PullState.antt =====
-- apps/epoch/src/main/tools/device-backup/pullState.ts: the device pull that is running, as the
-- main process keeps it.
pub mod Laws
use verichron_epoch.Prelude.{
  ℕ, ◌-◌, Bool, true, false, ◌&&◌, ◌||◌, List, [], ◌∷◌, ◌++◌, Option, none, some, String, str_eq,
  ltb, if◌then◌else◌, length, drop, is_some,
}

pub data BackupProgressPhase : Type 0 where
  preparing device_action transferring verifying done error : BackupProgressPhase

pub data CrashReportsOutcome : Type 0 where
  copied failed unavailable : CrashReportsOutcome

pub record CrashReportsResult : Type 0 where
  pub outcome : CrashReportsOutcome
  pub backup_dir : String
  pub files : Option ℕ
  pub error : Option String
  pub locked : Option Bool

pub record BackupProgress : Type 0 where
  pub phase : BackupProgressPhase
  pub percent : Option ℕ
  pub message : String
  pub crash_reports : Option CrashReportsResult

pub record DeviceInfo : Type 0 where
  pub id : String
  pub name : String
  pub model : Option String
  pub os_version : Option String

pub record BackupStats : Type 0 where
  pub started_at : ℕ
  pub received_bytes : ℕ
  pub last_data_at : Option ℕ
  pub percent : Option ℕ
  pub estimated_bytes : Option ℕ

pub record DevicePullState : Type 0 where
  pub source_id : String
  pub device : DeviceInfo
  pub dest_dir : String
  pub started_at : ℕ
  pub progress : List BackupProgress
  pub stats : Option BackupStats
  pub device_action : Option String
  pub ended : Bool

-- The `state` of a PullStateTracker.
abbrev pub PullStateTracker : Type 0
PullStateTracker = Option DevicePullState

abbrev pub pull_state_progress_limit : ℕ
pull_state_progress_limit = 500

unfoldable pub next_device_action : Option String → BackupProgress → Option String
next_device_action prev p = elim p.phase [
  | device_action ↦ some p.message
  | preparing ↦ prev
  | transferring ↦ none
  | verifying ↦ none
  | done ↦ none
  | error ↦ none
]

-- `none` where `start` throws.
unfoldable pub start : PullStateTracker → String → DeviceInfo → String → ℕ → Option PullStateTracker
start (some _) source_id device dest_dir now = none
start none source_id device dest_dir now = some (
    some (record {
      source_id = source_id;
      device = device;
      dest_dir = dest_dir;
      started_at = now;
      progress = [];
      stats = none;
      device_action = none;
      ended = false;
    }))

-- `kept.length > limit ? kept.slice(-limit) : kept`
unfoldable pub newest : List BackupProgress → List BackupProgress
newest kept =
    if ltb pull_state_progress_limit (length kept)
    then drop (length kept - pull_state_progress_limit) kept
    else kept

abbrev pub is_end : BackupProgressPhase → Bool
is_end done = true
is_end error = true
is_end _ = false

unfoldable pub progress : PullStateTracker → BackupProgress → PullStateTracker
progress none p = none
progress (some s) p = some (record s {
  progress = newest (s.progress ++ p ∷ []);
  device_action = next_device_action s.device_action p;
  ended = is_end p.phase || s.ended;
})

unfoldable pub stats : PullStateTracker → BackupStats → PullStateTracker
stats none st = none
stats (some s) st = some (record s { stats = some st })

unfoldable pub reported_end : PullStateTracker → Bool
reported_end none = false
reported_end (some s) = s.ended

unfoldable pub end : PullStateTracker → PullStateTracker
end _ = none

unfoldable pub current : PullStateTracker → Option DevicePullState
current state = state

unfoldable pub running : PullStateTracker → Bool
running state = is_some state

unfoldable pub writes : PullStateTracker → String → String → Bool
writes none dest_dir device_id = false
writes (some s) dest_dir device_id = str_eq s.dest_dir dest_dir && str_eq s.device.id device_id
