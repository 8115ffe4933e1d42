-- ===== src/DevicePull/Run/Heard.antt =====
-- What a run of idevicebackup2 has heard from the tool: runBackup of
-- apps/epoch/src/main/tools/device-backup/ios/iosBackupSource.ts.
use verichron_epoch.Prelude.{
  ℕ, ◌≡◌, refl, ap, ◌∙◌, inl, inr, Bool, true, false, ◌&&◌, ◌||◌, not, List, [], ◌∷◌, Option, none,
  some, Text, leb, ltb, is_some, if◌then◌else◌, Bool-cases,
}
use verichron_epoch.DevicePull.CrashLogs.{includes}
use verichron_epoch.DevicePull.Output
use verichron_epoch.DevicePull.Output.{OutputEvent, text_line, percent}
use verichron_epoch.DevicePull.Pull.{is_clean}
use verichron_epoch.DevicePull.Run.{
  RunError, not_spawned, was_cancelled, exited, folder_unreadable, Settlement, resolved, rejected,
  Closing, not_closed, closed, measuring_last, Run, passcode_prompt, handle_event, handle,
  stdout_data, interval, is_stalled, tell_arriving, with_growth, take_measure, measured, finish,
  settle_with, fail, fails, report, shown, on_error, on_close, end_with, after_close, last_measure,
  Happening, prints, interval_passes, measures, errs, closes, measures_last, happen, happen_all,
}

-- A bar that ends in "Finished", at 100 percent or more.
unfoldable pub says_finished : List OutputEvent → Bool
says_finished [] = false
says_finished (percent value ∷ es) = leb 100 value || says_finished es
says_finished (text_line text ∷ es) = says_finished es

-- The text after the last break; whether an error and the close have come, which each end that text
-- once; and whether a finished bar was read.
pub record Heard : Type 0 where
  pub carry : Text
  pub errored : Bool
  pub ended : Bool
  pub finished : Bool

abbrev pub nothing_heard : Heard
nothing_heard = record { carry = []; errored = false; ended = false; finished = false }

abbrev told : List OutputEvent → Heard → Heard
told es s = record s { finished = s.finished || says_finished es }

abbrev rest_ends : Heard → Heard
rest_ends s = told (Output.flush s.carry).0 (record s { carry = (Output.flush s.carry).1 })

module _ (to_text : List ℕ → Text) where
  abbrev hear_chunk : Text → Heard → Heard
  hear_chunk text s =
      told (Output.push s.carry text).0 (record s { carry = (Output.push s.carry text).1 })

  unfoldable pub hear : Happening → Heard → Heard
  hear (prints chunk) s = hear_chunk (to_text chunk) s
  hear interval_passes s = s
  hear (measures received now) s = s
  hear errs s = if s.errored then s else rest_ends (record s { errored = true })
  hear (closes code) s = if s.ended then s else rest_ends (record s { ended = true })
  hear (measures_last received cancelled) s = s

  unfoldable pub hear_all : List Happening → Heard → Heard
  hear_all [] s = s
  hear_all (e ∷ es) s = hear_all es (hear e s)

abbrev has_ended : Closing → Bool
has_ended not_closed = false
has_ended closed = true
has_ended (measuring_last code) = true

-- What a run has kept of that.
unfoldable pub heard_of : Run → Heard
heard_of w = record {
  carry = w.carry;
  errored = w.errored;
  ended = has_ended w.closing;
  finished = w.finished;
}

told_twice :
    (e : OutputEvent) (es : List OutputEvent) (s : Heard)
    → told es (told (e ∷ []) s) ≡ told (e ∷ es) s
unfolding says_finished
told_twice (text_line text) es s = elim (Bool-cases s.finished) [
  | inl before ↦ simp before refl
  | inr never ↦ simp never refl
]
told_twice (percent value) es s = elim (Bool-cases s.finished) [
  | inl before ↦ simp before refl
  | inr never ↦ elim (Bool-cases (leb 100 value)) [
    | inl full ↦ simp (never, full) refl
    | inr low ↦ simp (never, low) refl
  ]
]

handle_event-heard_of :
    (e : OutputEvent) (w : Run) → heard_of (handle_event e w) ≡ told (e ∷ []) (heard_of w)
unfolding handle_event heard_of says_finished
handle_event-heard_of (text_line text) w = elim (Bool-cases w.finished) [
  | inl before ↦ elim (Bool-cases (includes passcode_prompt text)) [
    | inl asks ↦ simp (before, asks) refl
    | inr speaks ↦ simp (before, speaks) refl
  ]
  | inr never ↦ elim (Bool-cases (includes passcode_prompt text)) [
    | inl asks ↦ simp (never, asks) refl
    | inr speaks ↦ simp (never, speaks) refl
  ]
]
handle_event-heard_of (percent value) w = elim (Bool-cases w.finished) [
  | inl before ↦ elim (Bool-cases (leb 100 value)) [
    | inl full ↦ simp (before, full) refl
    | inr low ↦ simp (before, low) refl
  ]
  | inr never ↦ elim (Bool-cases (leb 100 value)) [
    | inl full ↦ simp (never, full) refl
    | inr low ↦ simp (never, low) refl
  ]
]

no_finished : (f : Bool) → f ≡ (f || says_finished [])
unfolding says_finished
no_finished true = refl
no_finished false = refl

none_told : (s : Heard) → s ≡ told [] s
none_told s = ap (λ f. record s { finished = f }) (no_finished s.finished)

handle-heard_of : (es : List OutputEvent) (w : Run) → heard_of (handle es w) ≡ told es (heard_of w)
unfolding handle
handle-heard_of [] w = none_told (heard_of w)
handle-heard_of (e ∷ es) w =
    handle-heard_of es (handle_event e w)
    ∙ ap (told es) (handle_event-heard_of e w)
    ∙ told_twice e es (heard_of w)

finish-heard_of : (w : Run) → heard_of (finish w) ≡ rest_ends (heard_of w)
unfolding finish heard_of
finish-heard_of w =
    handle-heard_of (Output.flush w.carry).0
      (record w { timer = false; process = false; carry = (Output.flush w.carry).1 })

settle_with-heard_of : (s : Settlement) (w : Run) → heard_of (settle_with s w) ≡ heard_of w
unfolding heard_of
settle_with-heard_of s w = elim (Bool-cases (is_some w.settled)) [
  | inl before ↦ simp before refl
  | inr first ↦ simp first refl
]

fail-heard_of : (e : RunError) (w : Run) → heard_of (fail e w) ≡ heard_of w
unfolding fail heard_of
fail-heard_of e w = settle_with-heard_of (rejected e) (report (fails e) w)

tell_arriving-heard_of : (w : Run) → heard_of (tell_arriving w) ≡ heard_of w
unfolding heard_of
tell_arriving-heard_of w = elim (Bool-cases w.stall_warned) [
  | inl warned ↦ simp warned refl
  | inr silent ↦ simp silent refl
]

take_measure-heard_of :
    (received now : ℕ) (w : Run) → heard_of (take_measure received now w) ≡ heard_of w
unfolding heard_of
take_measure-heard_of received now w = elim (Bool-cases (ltb w.stats.received_bytes received)) [
  | inl more ↦ simp more (tell_arriving-heard_of (with_growth received now w))
  | inr less ↦ elim (Bool-cases (is_stalled now w)) [
    | inl stalled ↦ simp (less, stalled) refl
    | inr flows ↦ simp (less, flows) refl
  ]
]

measured-heard_of : (received now : ℕ) (w : Run) → heard_of (measured received now w) ≡ heard_of w
unfolding measured heard_of
measured-heard_of received now w = elim (Bool-cases w.measuring) [
  | inl waits ↦ simp waits (take_measure-heard_of received now (record w { measuring = false }))
  | inr idle ↦ simp idle refl
]

end_with-heard_of :
    (code : Option ℕ) (received : ℕ) (cancelled : Bool) (w : Run)
    → heard_of (end_with code received cancelled w) ≡ heard_of w
end_with-heard_of code received true w = fail-heard_of was_cancelled w
end_with-heard_of code received false w = elim (Bool-cases (is_clean code)) [
  | inl clean ↦ simp clean (settle_with-heard_of (resolved received) w)
  | inr unclean ↦ simp unclean (fail-heard_of (exited code) w)
]

after_close-heard_of :
    (code received : Option ℕ) (cancelled : Bool) (w : Run)
    → heard_of (after_close code received cancelled w) ≡ heard_of w
unfolding heard_of
after_close-heard_of code none cancelled w = fail-heard_of folder_unreadable w
after_close-heard_of code (some received) cancelled w =
    end_with-heard_of code received cancelled
      (report (shown (record w.stats { received_bytes = received })) w)

last_measure-heard_of :
    (received : Option ℕ) (cancelled : Bool) (w : Run)
    → heard_of (last_measure received cancelled w) ≡ heard_of w
unfolding last_measure heard_of
last_measure-heard_of received cancelled w = go w.closing refl
  where
    go : (c : Closing) → w.closing ≡ c → heard_of (last_measure received cancelled w) ≡ heard_of w
    go not_closed e = simp (e, last_measure) refl
    go closed e = simp (e, last_measure) refl
    go (measuring_last code) e =
        simp (e, last_measure)
          (after_close-heard_of code received cancelled (record w { closing = closed }))

module _ (to_text : List ℕ → Text) where
  on_error-heard_of : (w : Run) → heard_of (on_error w) ≡ hear to_text errs (heard_of w)
  unfolding on_error heard_of hear
  on_error-heard_of w = elim (Bool-cases w.errored) [
    | inl again ↦ simp again refl
    | inr first ↦ simp first (
        fail-heard_of not_spawned (finish (record w { errored = true }))
        ∙ finish-heard_of (record w { errored = true }))
  ]

  on_close-heard_of :
      (code : Option ℕ) (w : Run)
      → heard_of (on_close code w) ≡ hear to_text (closes code) (heard_of w)
  unfolding on_close heard_of hear
  on_close-heard_of code w = go w.closing refl
    where
      go :
          (c : Closing)
          → w.closing ≡ c
          → heard_of (on_close code w) ≡ hear to_text (closes code) (heard_of w)
      go not_closed e =
          simp (e, on_close) (ap (λ (s : Heard). record s { ended = true }) (finish-heard_of w))
      go closed e = simp (e, on_close) refl
      go (measuring_last earlier) e = simp (e, on_close) refl

  happen-heard_of :
      (e : Happening) (w : Run) → heard_of (happen to_text e w) ≡ hear to_text e (heard_of w)
  unfolding happen stdout_data interval heard_of hear
  happen-heard_of (prints chunk) w =
      handle-heard_of (Output.push w.carry (to_text chunk)).0
        (record w { carry = (Output.push w.carry (to_text chunk)).1 })
  happen-heard_of interval_passes w = elim (Bool-cases (w.timer && not w.measuring)) [
    | inl due ↦ simp due refl
    | inr idle ↦ simp idle refl
  ]
  happen-heard_of (measures received now) w = measured-heard_of received now w
  happen-heard_of errs w = on_error-heard_of w
  happen-heard_of (closes code) w = on_close-heard_of code w
  happen-heard_of (measures_last received cancelled) w = last_measure-heard_of received cancelled w

  pub happen_all-heard_of :
      (es : List Happening) (w : Run)
      → heard_of (happen_all to_text es w) ≡ hear_all to_text es (heard_of w)
  unfolding happen_all hear_all
  happen_all-heard_of [] w = refl
  happen_all-heard_of (e ∷ es) w =
      happen_all-heard_of es (happen to_text e w) ∙ ap (hear_all to_text es) (happen-heard_of e w)
