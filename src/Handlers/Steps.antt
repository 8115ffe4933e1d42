-- ===== src/Handlers/Steps.antt =====
-- What can happen to the orchestrator's handlers of apps/epoch/src/main/ipc/pipelineHandlers.ts, one
-- event after another.
use verichron_epoch.Prelude.{
  inl, inr, Bool-cases, ℕ, ◌≡◌, refl, Bool, true, false, ◌&&◌, List, [], ◌∷◌, Option, none, some,
  Text, arith, is_some, of_some, if◌then◌else◌, Option-cases,
}
use verichron_epoch.Sessions.{AnalysisResult}
use verichron_epoch.Sessions.Analysis.{AnalysisKind, AnalysisSession, workspace_run, retry}
use verichron_epoch.Handlers.{
  TerminationReason, cancelled, timeout, Timer, times_out, escalates, Child, Report, Handlers,
  new_handlers, clear_orchestrator_timers, kill_orchestrator, timer_fires, timer_of, clear_timer,
  kill_now, spawned, may_start, start_analysis, retry_run, cancel_analysis,
}
use verichron_epoch.Handlers.Life.{Life, none_lives, lives, failed, living, is_failed}
use verichron_epoch.Handlers.Ends.{
  reset, on_error, on_close, settle, report_close, report_at, is_clean,
}

-- The handlers and their child. No child is started between another one's error and its close.
pub data Step : Handlers → Life Child → Handlers → Life Child → Type 0 where
  starts :
      (h h' : Handlers) (l : Life Child) (c : Child) (target : Text) (targets : Bool) (now : ℕ)
      → is_failed l ≡ false
      → start_analysis h target targets now ≡ some (h', c)
      → Step h l h' (lives c)
  retries :
      (h h' : Handlers) (l : Life Child) (c : Child) (target : Text) (now : ℕ)
      → is_failed l ≡ false
      → retry_run h target now ≡ some (h', c)
      → Step h l h' (lives c)
  cancels : (h : Handlers) (l : Life Child) → Step h l (cancel_analysis h).0 l
  fires : (h : Handlers) (l : Life Child) (id : ℕ) → Step h l (timer_fires h id) l
  errs :
      (h : Handlers) (c : Child) (message : Text) (now : ℕ)
      → Step h (lives c) (on_error h c message now) (failed c)
  errs_again :
      (h : Handlers) (c : Child) (message : Text) (now : ℕ)
      → Step h (failed c) (on_error h c message now) (failed c)
  closes :
      (h : Handlers) (c : Child) (code : Option ℕ) (shown : Text) (now : ℕ)
      → Step h (lives c) (on_close h c code shown now) none_lives
  closes_failed :
      (h : Handlers) (c : Child) (code : Option ℕ) (shown : Text) (now : ℕ)
      → Step h (failed c) (on_close h c code shown now) none_lives
  settles :
      (h : Handlers) (l : Life Child) (i : ℕ) (analysis : Option (List AnalysisResult))
      (error : Option Text) (now : ℕ)
      → Step h l (settle h i analysis error now) l

pub data Reachable (session : AnalysisSession) : Handlers → Life Child → Type 0 where
  at_first : Reachable session (new_handlers session) none_lives
  after :
      (h h' : Handlers) (l l' : Life Child)
      → Reachable session h l
      → Step h l h' l'
      → Reachable session h' l'

abbrev pub workspace_of : AnalysisKind → Text → Option Text
workspace_of workspace_run target = some target
workspace_of retry target = none

abbrev pub backup_source_of : AnalysisKind → Text → Option Text
backup_source_of workspace_run target = none
backup_source_of retry target = some target

-- The variables say what lives: all are empty when nothing does, and otherwise the process is the
-- child's and the target is the child's, in the one variable of its kind.
abbrev pub IsWhole : Handlers → Option Child → Type 0
IsWhole h none =
    (h.running ≡ none)
    × (h.running_workspace ≡ none)
    × (h.running_backup_source ≡ none)
    × (h.termination_reason ≡ none)
    × (h.timeout_handle ≡ none)
    × (h.kill_escalation_handle ≡ none)
IsWhole h (some c) =
    (h.running ≡ some c.pid)
    × (h.running_workspace ≡ workspace_of c.kind c.target)
    × (h.running_backup_source ≡ backup_source_of c.kind c.target)

spawned-IsWhole :
    (h : Handlers) (o : Option Child) (kind : AnalysisKind) (target : Text) (now : ℕ)
    → is_some h.running ≡ false
    → IsWhole h o
    → IsWhole (spawned h kind target now).0 (some (spawned h kind target now).1)
unfolding spawned
spawned-IsWhole h none workspace_run target now idle w = (refl, refl, w.2)
spawned-IsWhole h none retry target now idle w = (refl, w.1, refl)
spawned-IsWhole h (some c) kind target now idle w = absurd (ground arith)

may_start-idle :
    (h : Handlers) (target : Text) → may_start h target ≡ true → is_some h.running ≡ false
may_start-idle h [] e = absurd (ground arith)
may_start-idle h (c ∷ target) e = ground arith

kill_orchestrator-IsWhole :
    (h : Handlers) (o : Option Child) (reason : TerminationReason)
    → IsWhole h o
    → IsWhole (kill_orchestrator h reason) o
unfolding kill_orchestrator
kill_orchestrator-IsWhole h none reason w = rw w.0 (refl, w.1, w.2, w.3, w.4, w.5)
kill_orchestrator-IsWhole h (some c) reason w = rw w.0 (refl, w.1, w.2)

kill_now-IsWhole : (h : Handlers) (o : Option Child) → IsWhole h o → IsWhole (kill_now h) o
unfolding kill_now
kill_now-IsWhole h none w = rw w.0 (refl, w.1, w.2, w.3, w.4, w.5)
kill_now-IsWhole h (some c) w = rw w.0 (refl, w.1, w.2)

fewer_timers-IsWhole :
    (h : Handlers) (o : Option Child) (timers : List (ℕ × Timer))
    → IsWhole h o
    → IsWhole (record h { timers = timers }) o
fewer_timers-IsWhole h none timers w = w
fewer_timers-IsWhole h (some c) timers w = w

timer_fires-IsWhole :
    (h : Handlers) (o : Option Child) (id : ℕ) → IsWhole h o → IsWhole (timer_fires h id) o
unfolding timer_fires
timer_fires-IsWhole h o id w =
    let h' : Handlers = record h { timers = clear_timer h.timers id } in
    let w' : IsWhole h' o = fewer_timers-IsWhole h o (clear_timer h.timers id) w in
    elim (Option-cases (timer_of h.timers id)) [
      | inl unset ↦ simp (unset, timer_fires) w
      | inr (t, set) ↦ simp (set, timer_fires) (goes t w')
    ]
  where
    goes :
        (t : Timer)
        → IsWhole (record h { timers = clear_timer h.timers id }) o
        → IsWhole
            (elim t [
              | times_out ↦
                  kill_orchestrator (record h { timers = clear_timer h.timers id }) timeout
              | escalates ↦ kill_now (record h { timers = clear_timer h.timers id })
            ])
            o
    goes times_out v =
        kill_orchestrator-IsWhole (record h { timers = clear_timer h.timers id }) o timeout v
    goes escalates v = kill_now-IsWhole (record h { timers = clear_timer h.timers id }) o v

settle-IsWhole :
    (h : Handlers) (o : Option Child) (i : ℕ) (analysis : Option (List AnalysisResult))
    (error : Option Text) (now : ℕ)
    → IsWhole h o
    → IsWhole (settle h i analysis error now) o
unfolding settle
settle-IsWhole h none i analysis error now w = elim (Option-cases (report_at h.reports i)) [
  | inl missing ↦ simp (missing, settle) w
  | inr (r, there) ↦ simp (there, settle) w
]
settle-IsWhole h (some c) i analysis error now w = elim (Option-cases (report_at h.reports i)) [
  | inl missing ↦ simp (missing, settle) w
  | inr (r, there) ↦ simp (there, settle) w
]

reset-targets :
    (h : Handlers) (kind : AnalysisKind) (target : Text)
    → h.running_workspace ≡ workspace_of kind target
    → h.running_backup_source ≡ backup_source_of kind target
    → ((reset h kind).running_workspace ≡ none) × ((reset h kind).running_backup_source ≡ none)
unfolding reset
reset-targets h workspace_run target w b = (refl, b)
reset-targets h retry target w b = (w, refl)

on_error-IsWhole :
    (h : Handlers) (c : Child) (message : Text) (now : ℕ)
    → IsWhole h (some c)
    → IsWhole (on_error h c message now) none
unfolding on_error reset clear_orchestrator_timers
on_error-IsWhole h c message now w =
    let (a, b) = reset-targets h c.kind c.target w.1 w.2 in (refl, a, b, refl, refl, refl)

report_close-IsWhole :
    (h : Handlers) (kind : AnalysisKind) (r : Report) (now : ℕ)
    → IsWhole h none
    → IsWhole (report_close h kind r now) none
unfolding report_close
report_close-IsWhole h workspace_run r now w = w
report_close-IsWhole h retry r now w = elim (Bool-cases (is_clean r.code)) [
  | inl clean ↦ simp clean w
  | inr other ↦ simp other w
]

on_close-IsWhole :
    (h : Handlers) (c : Child) (code : Option ℕ) (shown : Text) (now : ℕ)
    → (reset h c.kind).running_workspace ≡ none
    → (reset h c.kind).running_backup_source ≡ none
    → IsWhole (on_close h c code shown now) none
unfolding on_close reset clear_orchestrator_timers
on_close-IsWhole h c code shown now a b =
    report_close-IsWhole _ c.kind _ now (refl, a, b, refl, refl, refl)

emptied-targets :
    (h : Handlers) (kind : AnalysisKind)
    → IsWhole h none
    → ((reset h kind).running_workspace ≡ none) × ((reset h kind).running_backup_source ≡ none)
unfolding reset
emptied-targets h workspace_run w = (refl, w.2)
emptied-targets h retry w = (w.1, refl)

started-IsWhole :
    (h h' : Handlers) (o : Option Child) (c : Child) (kind : AnalysisKind) (target : Text) (now : ℕ)
    (b : Bool)
    → (b ≡ true → may_start h target ≡ true)
    → (if b then some (spawned h kind target now) else none) ≡ some (h', c)
    → IsWhole h o
    → IsWhole h' (some c)
started-IsWhole h h' o c kind target now false may e w = absurd (ground arith)
started-IsWhole h h' o c kind target now true may e w =
    rw (of_some e) at (spawned-IsWhole h o kind target now (may_start-idle h target (may refl)) w)

on_error_again-IsWhole :
    (h : Handlers) (c : Child) (message : Text) (now : ℕ)
    → IsWhole h none
    → IsWhole (on_error h c message now) none
unfolding on_error reset clear_orchestrator_timers
on_error_again-IsWhole h c message now w =
    let (a, b) = emptied-targets h c.kind w in (refl, a, b, refl, refl, refl)

step-IsWhole :
    {h h' : Handlers} {l l' : Life Child}
    → Step h l h' l'
    → IsWhole h (living l)
    → IsWhole h' (living l')
unfolding start_analysis retry_run cancel_analysis
step-IsWhole (starts h h' l c target targets now _ e) w =
    started-IsWhole h h' (living l) c workspace_run target now (may_start h target && targets)
      (λ b. ground arith) e w
step-IsWhole (retries h h' l c target now _ e) w =
    started-IsWhole h h' (living l) c retry target now (may_start h target) (λ b. b) e w
step-IsWhole (cancels h l) w = elim (Bool-cases (is_some h.running)) [
  | inl busy ↦ simp busy (kill_orchestrator-IsWhole h (living l) cancelled w)
  | inr free ↦ simp free w
]
step-IsWhole (fires h l id) w = timer_fires-IsWhole h (living l) id w
step-IsWhole (errs h c message now) w = on_error-IsWhole h c message now w
step-IsWhole (errs_again h c message now) w = on_error_again-IsWhole h c message now w
step-IsWhole (closes h c code shown now) w =
    let (a, b) = reset-targets h c.kind c.target w.1 w.2 in on_close-IsWhole h c code shown now a b
step-IsWhole (closes_failed h c code shown now) w =
    let (a, b) = emptied-targets h c.kind w in on_close-IsWhole h c code shown now a b
step-IsWhole (settles h l i analysis error now) w =
    settle-IsWhole h (living l) i analysis error now w

-- Whatever happens, in whatever order, as long as no child is started between another one's error
-- event and its close: the variables of the handlers say what lives. While a child lives and has had
-- no error, the process is that child and its target is in the one variable of its kind, the other
-- being empty; and when there is none, or it has had an error, they are all empty, the handles of
-- the timers included.
pub reachable-IsWhole :
    (session : AnalysisSession) {h : Handlers} {l : Life Child}
    → Reachable session h l
    → IsWhole h (living l)
unfolding new_handlers
reachable-IsWhole session at_first = (refl, refl, refl, refl, refl, refl)
reachable-IsWhole session (after h h' l l' r step) = step-IsWhole step (reachable-IsWhole session r)
