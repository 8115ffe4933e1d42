-- ===== src/DevicePull/Run.antt =====
-- runBackup of apps/epoch/src/main/tools/device-backup/ios/iosBackupSource.ts: the variables of one
-- run of idevicebackup2, and its handlers: the tool's output, the timer, and the tool's end. A
-- failure's message is its kind; the output kept for that message is left out.
pub mod Reported
pub mod Reports
pub mod Heard
pub mod Settling
pub mod Settled
use verichron_epoch.Prelude.{
  ℕ, ◌-◌, Bool, true, false, ◌&&◌, ◌||◌, not, List, [], ◌∷◌, Option, none, some, Text, codes,
  text_eq, ltb, leb, is_some, get_or, if◌then◌else◌,
}
use verichron_epoch.PullState.{BackupStats, BackupProgressPhase, preparing, transferring}
use verichron_epoch.DevicePull.{received_percent}
use verichron_epoch.DevicePull.CrashLogs.{includes}
use verichron_epoch.DevicePull.Output
use verichron_epoch.DevicePull.Output.{OutputEvent, text_line, percent}
use verichron_epoch.DevicePull.Pull.{is_clean}

pub data RunError : Type 0 where
  not_spawned was_cancelled folder_unreadable : RunError
  exited : Option ℕ → RunError

-- What the promise is settled with.
pub data Settlement : Type 0 where
  resolved : ℕ → Settlement
  rejected : RunError → Settlement

-- A call of `onProgress` or `onStats`.
pub data Report : Type 0 where
  enter_passcode no_data arriving_again : Report
  tool_says : BackupProgressPhase → Text → Report
  fails : RunError → Report
  shown : BackupStats → Report

-- Whether the tool has closed, and its exit code while the folder is measured for the last time.
pub data Closing : Type 0 where
  not_closed closed : Closing
  measuring_last : Option ℕ → Closing

-- `reports` has the newest first; `errored` and `closing` say which listeners, each added by
-- `once`, have been called.
pub record Run : Type 0 where
  pub stats : BackupStats
  pub receiving : Bool
  pub stall_warned : Bool
  pub finished : Bool
  pub carry : Text
  pub measuring : Bool
  pub timer : Bool
  pub process : Bool
  pub errored : Bool
  pub closing : Closing
  pub settled : Option Settlement
  pub reports : List Report

abbrev pub stall_warning_ms : ℕ
stall_warning_ms = 180000

abbrev pub passcode_prompt : Text
passcode_prompt = codes "Waiting for passcode to be entered on the device"

abbrev pub report : Report → Run → Run
report r w = record w { reports = r ∷ w.reports }

unfoldable pub start_run : ℕ → Option ℕ → Run
start_run now estimated =
    let stats : BackupStats = record {
      started_at = now;
      received_bytes = 0;
      last_data_at = none;
      percent = none;
      estimated_bytes = estimated;
    } in
    record {
      stats = stats;
      receiving = false;
      stall_warned = false;
      finished = false;
      carry = [];
      measuring = false;
      timer = true;
      process = true;
      errored = false;
      closing = not_closed;
      settled = none;
      reports = shown stats ∷ [];
    }

abbrev pub tool_finished : Run → Run
tool_finished w =
    let stats = record w.stats {
      percent = received_percent w.stats.received_bytes w.stats.estimated_bytes true;
    } in
    report (shown stats) (record w { finished = true; stats = stats })

abbrev pub say_line : Text → Run → Run
say_line text w =
    let receiving = text_eq text (codes "Receiving files") || w.receiving in
    report (tool_says (if receiving then transferring else preparing) text)
      (record w { receiving = receiving })

unfoldable pub handle_event : OutputEvent → Run → Run
handle_event (percent value) w = if leb 100 value && not w.finished then tool_finished w else w
handle_event (text_line text) w =
    if includes passcode_prompt text then report enter_passcode w else say_line text w

unfoldable pub handle : List OutputEvent → Run → Run
handle [] w = w
handle (e ∷ es) w = handle es (handle_event e w)

-- The timer's interval passes; the measure that it starts ends in `measured`.
unfoldable pub interval : Run → Run
interval w = if w.timer && not w.measuring then record w { measuring = true } else w

abbrev pub tell_arriving : Run → Run
tell_arriving w =
    if w.stall_warned then report arriving_again (record w { stall_warned = false }) else w

abbrev pub with_growth : ℕ → ℕ → Run → Run
with_growth received now w = record w {
  stats = record w.stats {
    received_bytes = received;
    last_data_at = some now;
    percent = received_percent received w.stats.estimated_bytes w.finished;
  };
}

abbrev pub grown : ℕ → ℕ → Run → Run
grown received now w = tell_arriving (with_growth received now w)

abbrev pub is_stalled : ℕ → Run → Bool
is_stalled now w =
    w.receiving
    && not w.stall_warned
    && leb stall_warning_ms (now - get_or w.stats.last_data_at w.stats.started_at)

abbrev pub warn_stalled : ℕ → Run → Run
warn_stalled now w =
    if is_stalled now w then report no_data (record w { stall_warned = true }) else w

abbrev pub show_stats : Run → Run
show_stats w = report (shown w.stats) w

abbrev pub take_measure : ℕ → ℕ → Run → Run
take_measure received now w =
    if ltb w.stats.received_bytes received then grown received now w else warn_stalled now w

-- `folderSize` gives what was received, at the time `now`.
unfoldable pub measured : ℕ → ℕ → Run → Run
measured received now w =
    if w.measuring
    then show_stats (take_measure received now (record w { measuring = false }))
    else w

-- `finish`
unfoldable pub finish : Run → Run
finish w =
    let (events, carry) = Output.flush w.carry in
    handle events (record w { timer = false; process = false; carry = carry })

abbrev pub settle_with : Settlement → Run → Run
settle_with s w = if is_some w.settled then w else record w { settled = some s }

unfoldable pub fail : RunError → Run → Run
fail e w = settle_with (rejected e) (report (fails e) w)

-- The tool's 'error' event.
unfoldable pub on_error : Run → Run
on_error w = if w.errored then w else fail not_spawned (finish (record w { errored = true }))

-- The tool's 'close' event, up to the last measure.
unfoldable pub on_close : Option ℕ → Run → Run
on_close code w = elim w.closing [
  | not_closed ↦ record (finish w) { closing = measuring_last code }
  | closed ↦ w
  | measuring_last _ ↦ w
]

abbrev pub end_with : Option ℕ → ℕ → Bool → Run → Run
end_with code received cancelled w =
    if cancelled
    then fail was_cancelled w
    else if is_clean code
    then settle_with (resolved received) w
    else fail (exited code) w

abbrev pub after_close : Option ℕ → Option ℕ → Bool → Run → Run
after_close code none cancelled w = fail folder_unreadable w
after_close code (some received) cancelled w =
    end_with code received cancelled
      (report (shown (record w.stats { received_bytes = received })) w)

-- The last measure, `none` where the folder couldn't be read, and whether the user had cancelled.
unfoldable pub last_measure : Option ℕ → Bool → Run → Run
last_measure received cancelled w = elim w.closing [
  | not_closed ↦ w
  | closed ↦ w
  | measuring_last code ↦ after_close code received cancelled (record w { closing = closed })
]

pub data Happening : Type 0 where
  prints : List ℕ → Happening
  interval_passes : Happening
  measures : ℕ → ℕ → Happening
  errs : Happening
  closes : Option ℕ → Happening
  measures_last : Option ℕ → Bool → Happening

-- Node's `toString('utf-8')` of one chunk is a parameter: the code decodes each chunk by itself.
module _ (to_text : List ℕ → Text) where
  unfoldable pub stdout_data : List ℕ → Run → Run
  stdout_data chunk w =
      let (events, carry) = Output.push w.carry (to_text chunk) in
      handle events (record w { carry = carry })

  unfoldable pub happen : Happening → Run → Run
  unfolding interval measured on_error on_close last_measure
  happen (prints chunk) w = stdout_data chunk w
  happen interval_passes w = interval w
  happen (measures received now) w = measured received now w
  happen errs w = on_error w
  happen (closes code) w = on_close code w
  happen (measures_last received cancelled) w = last_measure received cancelled w

  unfoldable pub happen_all : List Happening → Run → Run
  happen_all [] w = w
  happen_all (h ∷ hs) w = happen_all hs (happen h w)
