-- ===== src/Sessions/Laws.antt =====
-- What a page that mounts during a run reads back, and what the renderer was sent.
use verichron_epoch.Prelude.{
  ℕ, ◌+◌, ◌≤◌, ◌≡◌, refl, sym, ap, ◌∙◌, is_some, true, ◌⊎◌, inr, List, [], ◌∷◌, ◌++◌, Option, none,
  some, Text, arith, last,
}
use verichron_epoch.PrepareProgress.{
  PrepareRunProgress, init_prepare_progress, apply_prepare_log_line,
}
use verichron_epoch.Sessions.Log.{
  add, Stream, LogBuffer, clear, numbered, add_all, kept_log_lines, all_lines, add_all-last,
}
use verichron_epoch.Sessions.Prepare
use verichron_epoch.Sessions.Prepare.{PrepareSession, PrepareState}
use verichron_epoch.Sessions.{PipelineFinishedResult, notify_interval_ms, soon, send_now}

-- What happens in a run: the calls of the handlers, and the notifier's timer.
pub data Call : Type 0 where
  line : Stream → Text → ℕ → Call
  password_requested : Text → ℕ → Call
  password_submitted : ℕ → Call
  finish : PipelineFinishedResult → ℕ → Call
  timer : ℕ → Call

abbrev pub call : PrepareSession → Call → PrepareSession
call s (line stream text now) = (Prepare.line s stream text now).1
call s (password_requested backup now) = Prepare.password_requested s backup now
call s (password_submitted now) = Prepare.password_submitted s now
call s (finish result now) = Prepare.finish s result now
call s (timer now) = Prepare.timer_fired s now

abbrev pub calls : PrepareSession → List Call → PrepareSession
calls s [] = s
calls s (c ∷ cs) = calls (call s c) cs

abbrev pub lines_of : List Call → List (Stream × Text)
lines_of [] = []
lines_of (line stream text now ∷ cs) = (stream, text) ∷ lines_of cs
lines_of (_ ∷ cs) = lines_of cs

-- Reading the lines into the progress, one after another.
abbrev pub progress_of : PrepareRunProgress → List Call → PrepareRunProgress
progress_of p [] = p
progress_of p (line stream text now ∷ cs) = progress_of (apply_prepare_log_line p text now) cs
progress_of p (_ ∷ cs) = progress_of p cs

call-log : (s : PrepareSession) (c : Call) → (call s c).log ≡ add_all s.log (lines_of (c ∷ []))
unfolding Prepare.line Prepare.password_requested Prepare.password_submitted Prepare.finish
    Prepare.timer_fired
call-log s (line stream text now) = refl
call-log s (timer now) = ground arith
call-log s _ = refl

lines_of-cons : (c : Call) (cs : List Call) → lines_of (c ∷ cs) ≡ lines_of (c ∷ []) ++ lines_of cs
lines_of-cons (line stream text now) cs = refl
lines_of-cons _ cs = refl

add_all-append :
    (b : LogBuffer) (ls ms : List (Stream × Text))
    → add_all b (ls ++ ms) ≡ add_all (add_all b ls) ms
add_all-append b [] ms = refl
add_all-append b ((stream, text) ∷ ls) ms = add_all-append (add b stream text).1 ls ms

calls-log : (s : PrepareSession) (cs : List Call) → (calls s cs).log ≡ add_all s.log (lines_of cs)
calls-log s [] = refl
calls-log s (c ∷ cs) =
    calls-log (call s c) cs
    ∙ ap (λ b. add_all b (lines_of cs)) (call-log s c)
    ∙ sym (add_all-append s.log (lines_of (c ∷ [])) (lines_of cs))
    ∙ ap (add_all s.log) (sym (lines_of-cons c cs))

call-progress :
    (s : PrepareSession) (c : Call) (p : PrepareRunProgress)
    → s.state.progress ≡ some p
    → (call s c).state.progress ≡ some (progress_of p (c ∷ []))
unfolding Prepare.line Prepare.password_requested Prepare.password_submitted Prepare.finish
    Prepare.timer_fired
call-progress s (line stream text now) p e = rw e
call-progress s (timer now) p e = ground arith
call-progress s _ p e = e

progress_of-cons :
    (p : PrepareRunProgress) (c : Call) (cs : List Call)
    → progress_of p (c ∷ cs) ≡ progress_of (progress_of p (c ∷ [])) cs
progress_of-cons p (line stream text now) cs = refl
progress_of-cons p _ cs = refl

calls-progress :
    (s : PrepareSession) (cs : List Call) (p : PrepareRunProgress)
    → s.state.progress ≡ some p
    → (calls s cs).state.progress ≡ some (progress_of p cs)
calls-progress s [] p e = e
calls-progress s (c ∷ cs) p e =
    calls-progress (call s c) cs (progress_of p (c ∷ [])) (call-progress s c p e)
    ∙ ap (λ q. some q) (sym (progress_of-cons p c cs))

-- Whatever happens after a preparation has started, a page that mounts reads back the newest 2000
-- of the run's lines, numbered in order from where the last run stopped, and the progress that
-- reading all of them, dropped lines too, one after another gives.
pub calls-snapshot :
    (s : PrepareSession) (source workspace : Text) (labels : List Text) (now : ℕ) (cs : List Call)
    → let (state, log) =
        Prepare.snapshot (calls (Prepare.start s source workspace labels now) cs) in
      (log ≡ last kept_log_lines (numbered s.log.seq (lines_of cs)))
      × (state.progress ≡ some (progress_of (init_prepare_progress labels) cs))
unfolding Prepare.snapshot Prepare.start all_lines clear
calls-snapshot s source workspace labels now cs =
    let begun : PrepareSession = Prepare.start s source workspace labels now in
    (
      ap (λ (b : LogBuffer). b.lines)
          (calls-log begun cs ∙ add_all-last [] s.log.seq (lines_of cs)),
      calls-progress begun cs (init_prepare_progress labels) refl,
    )

abbrev latest : List PrepareState → Option PrepareState
latest [] = none
latest (x ∷ xs) = some x

-- What the renderer has: the state as it is now, unless a timer is set that will send it; and a
-- timer is never set for less than the interval after the last message.
pub record IsFresh (s : PrepareSession) : Type 0 where
  pub current : (is_some s.notifier.timer ≡ true) ⊎ (latest s.notifier.sent ≡ some s.state)
  pub spaced : (t : ℕ) → s.notifier.timer ≡ some t → s.notifier.last_sent + notify_interval_ms ≤ t

call-IsFresh : (s : PrepareSession) (c : Call) → IsFresh s → IsFresh (call s c)
unfolding Prepare.line Prepare.password_requested Prepare.password_submitted Prepare.finish
    Prepare.timer_fired soon send_now
call-IsFresh s (line stream text now) h = record {
  current = ground arith;
  spaced = λ t e. ground (arith, h.spaced t);
}
call-IsFresh s (password_requested backup now) h = record { current = inr refl; spaced = λ t e. cc }
call-IsFresh s (password_submitted now) h = record { current = inr refl; spaced = λ t e. cc }
call-IsFresh s (finish result now) h = record { current = inr refl; spaced = λ t e. cc }
call-IsFresh s (timer now) h = record {
  current = ground (arith, h.current);
  spaced = λ t e. ground (arith, h.spaced t);
}

start-IsFresh :
    (s : PrepareSession) (source workspace : Text) (labels : List Text) (now : ℕ)
    → IsFresh (Prepare.start s source workspace labels now)
unfolding Prepare.start send_now
start-IsFresh s source workspace labels now = record { current = inr refl; spaced = λ t e. cc }

calls-IsFresh : (s : PrepareSession) (cs : List Call) → IsFresh s → IsFresh (calls s cs)
calls-IsFresh s [] h = h
calls-IsFresh s (c ∷ cs) h = calls-IsFresh (call s c) cs (call-IsFresh s c h)

-- After a start, and whatever happens then, the renderer either has the newest state or is about
-- to be sent it by a timer, which is never set for earlier than 250 ms after the last message.
pub start-calls-IsFresh :
    (s : PrepareSession) (source workspace : Text) (labels : List Text) (now : ℕ) (cs : List Call)
    → IsFresh (calls (Prepare.start s source workspace labels now) cs)
start-calls-IsFresh s source workspace labels now cs =
    calls-IsFresh _ cs (start-IsFresh s source workspace labels now)
