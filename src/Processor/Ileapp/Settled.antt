-- ===== src/Processor/Ileapp/Settled.antt =====
-- What the record of an iLEAPP run, which apps/processor/src/utils/ileapp.ts writes when the run ends, says of each module.
use verichron_epoch.Prelude.{
  ℕ, ◌≡◌, refl, sym, inl, inr, true, false, List, [], ◌∷◌, some, String, arith, is_some, str_eq,
  Bool-cases, Option-cases, All, of_some,
}
use verichron_epoch.Processor.Ileapp.{
  ModuleStatus, completed, stopped, unfinished, IleappModuleRecord, IleappPhase, setup, in_module,
  in_report, done, IleappLine, module_started, module_completed, modules_done, report_done,
  other_line, IleappProgress, new_progress, finish, is_running, finish_running, start_phase,
  end_phase, is_in_module, is_in_report, complete, line, stop, summary_modules, summary,
}

-- One line of iLEAPP, or the limit, at its time.
pub data Event : Type 0 where
  at_line : IleappLine → ℕ → Event
  at_limit : ℕ → Event

unfoldable pub after_event : IleappProgress → Event → IleappProgress
after_event s (at_line l now) = (line s l now).0
after_event s (at_limit now) = stop s now

unfoldable pub after_events : IleappProgress → List Event → IleappProgress
after_events s [] = s
after_events s (e ∷ es) = after_events (after_event s e) es

abbrev pub Settled : IleappModuleRecord → Type 0
Settled r =
    (is_running r.status ≡ false) × (is_some r.finished_at ≡ true) × (is_some r.seconds ≡ true)

-- Only the newest module can run.
abbrev Newest : List IleappModuleRecord → Type 0
Newest [] = Unit
Newest (r ∷ rs) = (is_running r.status ≡ false → Settled r) × All Settled rs

abbrev Fine : IleappPhase → List IleappModuleRecord → Type 0
Fine in_module ms = Newest ms
Fine setup ms = All Settled ms
Fine in_report ms = All Settled ms
Fine done ms = All Settled ms

finish_running-All :
    (ms : List IleappModuleRecord) (now : ℕ) (status : ModuleStatus)
    → is_running status ≡ false
    → Newest ms
    → All Settled (finish_running ms now status)
unfolding finish_running finish
finish_running-All [] now status e h = tt
finish_running-All (r ∷ rs) now status e h = elim (Bool-cases (is_running r.status)) [
  | inl runs ↦ simp runs ((e, refl, refl), h.1)
  | inr ended ↦ simp ended ((refl, (h.0 ended).1, (h.0 ended).2), h.1)
]

-- Where all have ended, the newest has.
All-Newest : (ms : List IleappModuleRecord) → All Settled ms → Newest ms
All-Newest [] h = tt
All-Newest (r ∷ rs) h = (λ e. h.0, h.1)

Fine-Newest : (p : IleappPhase) (ms : List IleappModuleRecord) → Fine p ms → Newest ms
Fine-Newest setup ms h = All-Newest ms h
Fine-Newest in_module ms h = h
Fine-Newest in_report ms h = All-Newest ms h
Fine-Newest done ms h = All-Newest ms h

All-Fine : (p : IleappPhase) (ms : List IleappModuleRecord) → All Settled ms → Fine p ms
All-Fine setup ms h = h
All-Fine in_module ms h = All-Newest ms h
All-Fine in_report ms h = h
All-Fine done ms h = h

end_phase-All :
    (s : IleappProgress) (now : ℕ) (status : ModuleStatus)
    → is_running status ≡ false
    → Fine s.phase s.modules
    → All Settled (end_phase s now status).modules
unfolding end_phase
end_phase-All s now status e h = go s.phase refl h
  where
    go :
        (p : IleappPhase)
        → s.phase ≡ p
        → Fine p s.modules
        → All Settled (end_phase s now status).modules
    go setup is f = simp (is, end_phase) f
    go in_module is f = simp (is, end_phase) (finish_running-All s.modules now status e f)
    go in_report is f = simp (is, end_phase) f
    go done is f = simp (is, end_phase) f

complete-Newest :
    (ms done_ms : List IleappModuleRecord) (name : String) (now : ℕ)
    → complete ms name now ≡ some done_ms
    → Newest ms
    → All Settled done_ms
unfolding complete finish
complete-Newest [] done_ms name now e h = absurd (ground arith)
complete-Newest (r ∷ rs) done_ms name now e h = elim (Bool-cases (str_eq r.module_name name)) [
  | inl same ↦ rw (sym (of_some (simp same at e))) ((refl, refl, refl), h.1)
  | inr other ↦ absurd (ground (arith, simp other at e))
]

line-Fine :
    (s : IleappProgress) (l : IleappLine) (now : ℕ)
    → Fine s.phase s.modules
    → Fine (line s l now).0.phase (line s l now).0.modules
unfolding line start_phase
line-Fine s (module_started index total name module_name) now h =
    (λ e. absurd (ground arith), end_phase-All s now completed refl h)
line-Fine s (module_completed module_name) now h = elim (Bool-cases (is_in_module s.phase)) [
  | inr outside ↦ simp outside h
  | inl inside ↦ elim (Option-cases (complete s.modules module_name now)) [
    | inl other ↦ simp (inside, other) h
    | inr (ms, e) ↦
        simp (inside, e)
          (All-Fine s.phase ms
            (complete-Newest s.modules ms module_name now e (Fine-Newest s.phase s.modules h)))
  ]
]
line-Fine s modules_done now h = end_phase-All s now completed refl h
line-Fine s report_done now h = elim (Bool-cases (is_in_report s.phase)) [
  | inr outside ↦ simp outside h
  | inl inside ↦ simp inside (end_phase-All s now completed refl h)
]
line-Fine s other_line now h = h

after_event-Fine :
    (s : IleappProgress) (e : Event)
    → Fine s.phase s.modules
    → Fine (after_event s e).phase (after_event s e).modules
unfolding after_event stop
after_event-Fine s (at_line l now) h = line-Fine s l now h
after_event-Fine s (at_limit now) h =
    All-Fine (end_phase s now stopped).phase (end_phase s now stopped).modules
      (end_phase-All s now stopped refl h)

after_events-Fine :
    (s : IleappProgress) (es : List Event)
    → Fine s.phase s.modules
    → Fine (after_events s es).phase (after_events s es).modules
unfolding after_events
after_events-Fine s [] h = h
after_events-Fine s (e ∷ es) h = after_events-Fine (after_event s e) es (after_event-Fine s e h)

summary_modules-All :
    (s : IleappProgress) (now : ℕ) → Fine s.phase s.modules → All Settled (summary_modules s now)
unfolding summary_modules
summary_modules-All s now f = go s.phase refl f
  where
    go : (p : IleappPhase) → s.phase ≡ p → Fine p s.modules → All Settled (summary_modules s now)
    go setup is f = simp is f
    go in_module is f = simp is (finish_running-All s.modules now unfinished refl f)
    go in_report is f = simp is f
    go done is f = simp is f

-- Whatever lines iLEAPP prints and whenever the limit stops it, each module in the summary of the
-- run has an end and a duration, and none is said to run still.
pub summary-Settled :
    (start now limit : ℕ) (es : List Event)
    → All Settled (summary (after_events (new_progress start) es) now limit).modules
unfolding summary new_progress
summary-Settled start now limit es =
    let s : IleappProgress = after_events (new_progress start) es in
    summary_modules-All s now (after_events-Fine (new_progress start) es tt)
