-- ===== src/Processor/Ileapp/Opened.antt =====
-- Which modules the record of an iLEAPP run lists, in apps/processor/src/utils/ileapp.ts.
use verichron_epoch.Prelude.{
  ℕ, ◌≡◌, refl, sym, ap, ◌∙◌, inl, inr, List, [], ◌∷◌, some, String, map, arith, str_eq, Bool-cases,
  Option-cases, of_some,
}
use verichron_epoch.Processor.Ileapp.{
  ModuleStatus, completed, stopped, unfinished, IleappModuleRecord, IleappPhase, setup, in_module,
  in_report, done, IleappLine, module_started, module_completed, modules_done, report_done,
  other_line, IleappProgress, new_progress, finish, is_running, finish_running, start_phase,
  end_phase, is_in_module, is_in_report, complete, line, stop, summary_modules, summary,
}
use verichron_epoch.Processor.Ileapp.Settled.{Event, at_line, at_limit, after_event, after_events}

pub record Opened : Type 0 where
  pub index : ℕ
  pub total : ℕ
  pub name : String
  pub module_name : String
  pub started_at : ℕ

abbrev pub opened_of : IleappModuleRecord → Opened
opened_of r = record {
  index = r.index;
  total = r.total;
  name = r.name;
  module_name = r.module_name;
  started_at = r.started_at;
}

-- What a line says has started, in front of what had.
unfoldable pub with_event : List Opened → Event → List Opened
with_event ks (at_line (module_started index total name module_name) now) =
    record {
      index = index;
      total = total;
      name = name;
      module_name = module_name;
      started_at = now;
    }
    ∷ ks
with_event ks (at_line (module_completed module_name) now) = ks
with_event ks (at_line modules_done now) = ks
with_event ks (at_line report_done now) = ks
with_event ks (at_line other_line now) = ks
with_event ks (at_limit now) = ks

unfoldable pub with_events : List Opened → List Event → List Opened
with_events ks [] = ks
with_events ks (e ∷ es) = with_events (with_event ks e) es

finish_running-opened :
    (ms : List IleappModuleRecord) (now : ℕ) (status : ModuleStatus)
    → map opened_of (finish_running ms now status) ≡ map opened_of ms
unfolding finish_running finish
finish_running-opened [] now status = refl
finish_running-opened (r ∷ rs) now status = elim (Bool-cases (is_running r.status)) [
  | inl runs ↦ simp runs refl
  | inr ended ↦ simp ended refl
]

end_phase-opened :
    (s : IleappProgress) (now : ℕ) (status : ModuleStatus)
    → map opened_of (end_phase s now status).modules ≡ map opened_of s.modules
unfolding end_phase
end_phase-opened s now status = go s.phase refl
  where
    go :
        (p : IleappPhase)
        → s.phase ≡ p
        → map opened_of (end_phase s now status).modules ≡ map opened_of s.modules
    go setup is = simp (is, end_phase) refl
    go in_module is = simp (is, end_phase) (finish_running-opened s.modules now status)
    go in_report is = simp (is, end_phase) refl
    go done is = simp (is, end_phase) refl

complete-opened :
    (ms done_ms : List IleappModuleRecord) (name : String) (now : ℕ)
    → complete ms name now ≡ some done_ms
    → map opened_of done_ms ≡ map opened_of ms
unfolding complete finish
complete-opened [] done_ms name now e = absurd (ground arith)
complete-opened (r ∷ rs) done_ms name now e = elim (Bool-cases (str_eq r.module_name name)) [
  | inl same ↦ rw (sym (of_some (simp same at e))) refl
  | inr other ↦ absurd (ground (arith, simp other at e))
]

line-opened :
    (s : IleappProgress) (l : IleappLine) (now : ℕ)
    → map opened_of (line s l now).0.modules ≡ with_event (map opened_of s.modules) (at_line l now)
unfolding line start_phase with_event
line-opened s (module_started index total name module_name) now =
    ap
      (λ (ks : List Opened).
        record {
          index = index;
          total = total;
          name = name;
          module_name = module_name;
          started_at = now;
        }
        ∷ ks)
      (end_phase-opened s now completed)
line-opened s (module_completed module_name) now = elim (Bool-cases (is_in_module s.phase)) [
  | inr outside ↦ simp outside refl
  | inl inside ↦ elim (Option-cases (complete s.modules module_name now)) [
    | inl other ↦ simp (inside, other) refl
    | inr (ms, e) ↦ simp (inside, e) (complete-opened s.modules ms module_name now e)
  ]
]
line-opened s modules_done now = end_phase-opened s now completed
line-opened s report_done now = elim (Bool-cases (is_in_report s.phase)) [
  | inr outside ↦ simp outside refl
  | inl inside ↦ simp inside (end_phase-opened s now completed)
]
line-opened s other_line now = refl

after_event-opened :
    (s : IleappProgress) (e : Event)
    → map opened_of (after_event s e).modules ≡ with_event (map opened_of s.modules) e
unfolding after_event stop with_event
after_event-opened s (at_line l now) = line-opened s l now
after_event-opened s (at_limit now) = end_phase-opened s now stopped

after_events-opened :
    (s : IleappProgress) (es : List Event)
    → map opened_of (after_events s es).modules ≡ with_events (map opened_of s.modules) es
unfolding after_events with_events
after_events-opened s [] = refl
after_events-opened s (e ∷ es) =
    after_events-opened (after_event s e) es
    ∙ ap (λ (ks : List Opened). with_events ks es) (after_event-opened s e)

summary_modules-opened :
    (s : IleappProgress) (now : ℕ) → map opened_of (summary_modules s now) ≡ map opened_of s.modules
unfolding summary_modules
summary_modules-opened s now = elim (Bool-cases (is_in_module s.phase)) [
  | inl inside ↦ simp inside (finish_running-opened s.modules now unfinished)
  | inr outside ↦ simp outside refl
]

-- Whatever lines iLEAPP prints and whenever the limit stops it, the summary of the run lists the
-- modules that iLEAPP said it started, each once and in their order, with the number, the names and
-- the time of its line.
pub summary-with_events :
    (start now limit : ℕ) (es : List Event)
    → map opened_of (summary (after_events (new_progress start) es) now limit).modules
      ≡ with_events [] es
unfolding summary new_progress
summary-with_events start now limit es =
    summary_modules-opened (after_events (new_progress start) es) now
    ∙ after_events-opened (new_progress start) es
