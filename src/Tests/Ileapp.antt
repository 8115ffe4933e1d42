-- ===== src/Tests/Ileapp.antt =====
-- The theorems on iLEAPP's progress at concrete inputs.
use verichron_epoch.Prelude.{◌≡◌, refl, none, some, List, [], ◌∷◌, map, All}
use verichron_epoch.Processor.Ileapp.{
  IleappModuleRecord, IleappProgress, running, completed, in_module, overran, finish, line, stop,
  rest_of, module_started, module_completed, new_progress, summary,
}
use verichron_epoch.Processor.Ileapp.Settled.{
  Event, at_line, at_limit, after_events, Settled, summary-Settled,
}
use verichron_epoch.Processor.Ileapp.Opened.{opened_of, with_events, summary-with_events}
use verichron_epoch.Processor.Ileapp.Late.{stop-line}

-- The first module completes, and the limit stops the second.
abbrev stopped_run : List Event
stopped_run =
    at_line (module_started 1 2 "Accounts" "accounts") 1000
    ∷ at_line (module_completed "accounts") 3000
    ∷ at_line (module_started 2 2 "Messages" "messages") 3100
    ∷ at_limit 3603100
    ∷ []

summary-Settled_example :
    All Settled (summary (after_events (new_progress 0) stopped_run) 3604000 3600000).modules
summary-Settled_example = summary-Settled 0 3604000 3600000 stopped_run

summary-with_events_example :
    map opened_of (summary (after_events (new_progress 0) stopped_run) 3604000 3600000).modules
    ≡ with_events [] stopped_run
summary-with_events_example = summary-with_events 0 3604000 3600000 stopped_run

abbrev messages : IleappModuleRecord
messages = record {
  index = 2;
  total = 2;
  name = "Messages";
  module_name = "messages";
  started_at = 3100;
  finished_at = none;
  seconds = none;
  status = running;
}

abbrev in_messages : IleappProgress
in_messages = record {
  phase = in_module;
  phase_started = 3100;
  started = 0;
  modules = messages ∷ [];
  setup_seconds = some 1;
  report_seconds = none;
  stopped_by = none;
}

stop-line_example :
    let late = (line (stop in_messages 3603100) (module_completed "messages") 3603200).0 in
    let said = summary late 3604000 3600000 in
    (said.stopped_by ≡ some (overran 2 2 "Messages" "messages" (rest_of 2 2)))
    × (said.modules ≡ finish messages 3603200 completed ∷ [])
stop-line_example = stop-line in_messages messages [] 3603100 3603200 3604000 3600000 refl refl refl
