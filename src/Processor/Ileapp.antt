-- ===== src/Processor/Ileapp.antt =====
-- IleappProgress of apps/processor/src/utils/ileapp.ts: how iLEAPP's lines move it through its
-- phases. The lines are as the four patterns there read them. Times are milliseconds, in place of
-- the ISO strings, and the clock does not go back.
pub mod Settled
pub mod Opened
pub mod Late
use verichron_epoch.Prelude.{
  ℕ, ◌+◌, ◌-◌, ◌/◌, Bool, true, false, List, [], ◌∷◌, Option, none, some, String, str_eq, ◌==◌,
  if◌then◌else◌,
}

pub data ModuleStatus : Type 0 where
  completed stopped running unfinished : ModuleStatus

pub record IleappModuleRecord : Type 0 where
  pub index : ℕ
  pub total : ℕ
  pub name : String
  pub module_name : String
  pub started_at : ℕ
  pub finished_at : Option ℕ
  pub seconds : Option ℕ
  pub status : ModuleStatus

-- In the code the phase of a module holds the record itself, which is the newest of `modules`.
pub data IleappPhase : Type 0 where
  setup in_module in_report done : IleappPhase

pub data IleappLine : Type 0 where
  module_started : ℕ → ℕ → String → String → IleappLine
  module_completed : String → IleappLine
  modules_done report_done other_line : IleappLine

-- What did not run, and why iLEAPP was stopped; the code makes a sentence of them.
pub data Rest : Type 0 where
  was_last : Rest
  one_left : ℕ → Rest
  many_left : ℕ → ℕ → Rest

pub data StopReason : Type 0 where
  silent_after overran : ℕ → ℕ → String → String → Rest → StopReason
  report_overran never_exited setup_overran : StopReason

-- `modules` has the newest first.
pub record IleappProgress : Type 0 where
  pub phase : IleappPhase
  pub phase_started : ℕ
  pub started : ℕ
  pub modules : List IleappModuleRecord
  pub setup_seconds : Option ℕ
  pub report_seconds : Option ℕ
  pub stopped_by : Option StopReason

unfoldable pub new_progress : ℕ → IleappProgress
new_progress now = record {
  phase = setup;
  phase_started = now;
  started = now;
  modules = [];
  setup_seconds = none;
  report_seconds = none;
  stopped_by = none;
}

-- `Math.round((to - from) / 1000)`
abbrev pub seconds_between : ℕ → ℕ → ℕ
seconds_between from to = (to - from + 500) / 1000

unfoldable pub finish : IleappModuleRecord → ℕ → ModuleStatus → IleappModuleRecord
finish r now status = record r {
  finished_at = some now;
  seconds = some (seconds_between r.started_at now);
  status = status;
}

abbrev pub is_running : ModuleStatus → Bool
is_running running = true
is_running _ = false

-- The record of the phase, where it still runs, is finished.
unfoldable pub finish_running : List IleappModuleRecord → ℕ → ModuleStatus → List IleappModuleRecord
unfolding finish
finish_running [] now status = []
finish_running (r ∷ rs) now status = (if is_running r.status then finish r now status else r) ∷ rs

unfoldable pub start_phase : IleappProgress → IleappPhase → ℕ → IleappProgress
start_phase s phase now = record s { phase = phase; phase_started = now }

unfoldable pub end_phase : IleappProgress → ℕ → ModuleStatus → IleappProgress
unfolding finish_running
end_phase s now status = elim s.phase [
  | setup ↦ record s { setup_seconds = some (seconds_between s.phase_started now) }
  | in_module ↦ record s { modules = finish_running s.modules now status }
  | in_report ↦ record s { report_seconds = some (seconds_between s.phase_started now) }
  | done ↦ s
]

abbrev pub is_in_module : IleappPhase → Bool
is_in_module in_module = true
is_in_module _ = false

abbrev pub is_in_report : IleappPhase → Bool
is_in_report in_report = true
is_in_report _ = false

abbrev pub newest : List IleappModuleRecord → Option IleappModuleRecord
newest [] = none
newest (r ∷ rs) = some r

unfoldable pub current : IleappProgress → Option IleappModuleRecord
current s = if is_in_module s.phase then newest s.modules else none

-- A line that says that the module of the phase completed.
unfoldable pub complete : List IleappModuleRecord → String → ℕ → Option (List IleappModuleRecord)
unfolding finish
complete [] name now = none
complete (r ∷ rs) name now =
    if str_eq r.module_name name then some (finish r now completed ∷ rs) else none

-- The state behind the line, and whether it starts a new phase.
unfoldable pub line : IleappProgress → IleappLine → ℕ → IleappProgress × Bool
unfolding end_phase start_phase complete
line s (module_started index total name module_name) now =
    let ended = end_phase s now completed in
    let opened : IleappModuleRecord = record {
      index = index;
      total = total;
      name = name;
      module_name = module_name;
      started_at = now;
      finished_at = none;
      seconds = none;
      status = running;
    } in
    (start_phase (record ended { modules = opened ∷ ended.modules }) in_module now, true)
line s (module_completed module_name) now =
    if is_in_module s.phase
    then elim (complete s.modules module_name now) [
      | none ↦ (s, false)
      | some modules ↦ (record s { modules = modules }, true)
    ]
    else (s, false)
line s modules_done now = (start_phase (end_phase s now completed) in_report now, true)
line s report_done now =
    if is_in_report s.phase
    then (start_phase (end_phase s now completed) done now, true)
    else (s, false)
line s other_line now = (s, false)

abbrev pub rest_of : ℕ → ℕ → Rest
rest_of index total =
    if index == total
    then was_last
    else if index + 1 == total
    then one_left total
    else many_left (index + 1) total

abbrev pub is_completed : ModuleStatus → Bool
is_completed completed = true
is_completed _ = false

abbrev pub stopped_in : Option IleappModuleRecord → StopReason
stopped_in none = setup_overran
stopped_in (some r) =
    if is_completed r.status
    then silent_after r.index r.total r.name r.module_name (rest_of r.index r.total)
    else overran r.index r.total r.name r.module_name (rest_of r.index r.total)

unfoldable pub stop : IleappProgress → ℕ → IleappProgress
unfolding end_phase
stop s now =
    let reason : StopReason = elim s.phase [
      | setup ↦ setup_overran
      | in_module ↦ stopped_in (newest s.modules)
      | in_report ↦ report_overran
      | done ↦ never_exited
    ] in
    record (end_phase s now stopped) { stopped_by = some reason }

-- The modules as the end of the run leaves them.
unfoldable pub summary_modules : IleappProgress → ℕ → List IleappModuleRecord
unfolding finish_running
summary_modules s now =
    if is_in_module s.phase then finish_running s.modules now unfinished else s.modules

pub record IleappSummary : Type 0 where
  pub limit_seconds : ℕ
  pub total_seconds : ℕ
  pub setup_seconds : Option ℕ
  pub report_seconds : Option ℕ
  pub stopped_by : Option StopReason
  pub modules : List IleappModuleRecord

unfoldable pub summary : IleappProgress → ℕ → ℕ → IleappSummary
unfolding summary_modules
summary s now limit = record {
  limit_seconds = seconds_between 0 limit;
  total_seconds = seconds_between s.started now;
  setup_seconds = s.setup_seconds;
  report_seconds = s.report_seconds;
  stopped_by = s.stopped_by;
  modules = summary_modules s now;
}
