-- ===== src/DevicePull/Run/Settling.antt =====
-- That a run of idevicebackup2 settles, and once: runBackup of
-- apps/epoch/src/main/tools/device-backup/ios/iosBackupSource.ts.
use verichron_epoch.Prelude.{
  ℕ, ◌≡◌, refl, ◌∙◌, inl, inr, Bool, true, false, ◌&&◌, not, List, [], ◌∷◌, Option, none, some,
  Text, arith, leb, ltb, is_some, Bool-cases, Option-cases,
}
use verichron_epoch.DevicePull.CrashLogs.{includes}
use verichron_epoch.DevicePull.Output
use verichron_epoch.DevicePull.Output.{OutputEvent, text_line, percent}
use verichron_epoch.DevicePull.Pull.{is_clean}
use verichron_epoch.DevicePull.Run.{
  RunError, not_spawned, was_cancelled, folder_unreadable, exited, Settlement, resolved, rejected,
  enter_passcode, fails, shown, Run, passcode_prompt, report, tool_finished, say_line, handle_event,
  handle, stdout_data, interval, tell_arriving, with_growth, grown, is_stalled, warn_stalled,
  take_measure, measured, finish, settle_with, fail, on_error, end_with, after_close,
}

-- A run later on, with the close of the tool no further.
pub record Beside (w w' : Run) : Type 0 where
  pub closing_same : w'.closing ≡ w.closing
  pub process_kept : w.process ≡ false → w'.process ≡ false
  pub timer_kept : w.timer ≡ false → w'.timer ≡ false
  pub settled_kept : (s : Settlement) → w.settled ≡ some s → w'.settled ≡ some s

abbrev beside : {w : Run} → Beside w w
beside = record {
  closing_same = refl;
  process_kept = λ h. h;
  timer_kept = λ h. h;
  settled_kept = λ s h. h;
}

Beside-trans : {a b c : Run} → Beside a b → Beside b c → Beside a c
Beside-trans h k = record {
  closing_same = k.closing_same ∙ h.closing_same;
  process_kept = λ e. k.process_kept (h.process_kept e);
  timer_kept = λ e. k.timer_kept (h.timer_kept e);
  settled_kept = λ s e. k.settled_kept s (h.settled_kept s e);
}

-- The fields that count here are the same.
same :
    (w w' : Run)
    → w'.closing ≡ w.closing
    → w'.process ≡ w.process
    → w'.timer ≡ w.timer
    → w'.settled ≡ w.settled
    → Beside w w'
same w w' c p t s = record {
  closing_same = c;
  process_kept = λ h. p ∙ h;
  timer_kept = λ h. t ∙ h;
  settled_kept = λ x h. s ∙ h;
}

handle_event-Beside : (e : OutputEvent) (w : Run) → Beside w (handle_event e w)
unfolding handle_event
handle_event-Beside (percent value) w = elim (Bool-cases (leb 100 value && not w.finished)) [
  | inl first ↦ simp first (same w (tool_finished w) refl refl refl refl)
  | inr other ↦ simp other beside
]
handle_event-Beside (text_line text) w = elim (Bool-cases (includes passcode_prompt text)) [
  | inl asks ↦ simp asks (same w (report enter_passcode w) refl refl refl refl)
  | inr speaks ↦ simp speaks (same w (say_line text w) refl refl refl refl)
]

handle-Beside : (es : List OutputEvent) (w : Run) → Beside w (handle es w)
unfolding handle
handle-Beside [] w = beside
handle-Beside (e ∷ es) w =
    Beside-trans (handle_event-Beside e w) (handle-Beside es (handle_event e w))

pub stdout_data-Beside :
    (to_text : List ℕ → Text) (chunk : List ℕ) (w : Run) → Beside w (stdout_data to_text chunk w)
unfolding stdout_data
stdout_data-Beside to_text chunk w = Beside-trans (same w _ refl refl refl refl) (
    handle-Beside (Output.push w.carry (to_text chunk)).0
      (record w { carry = (Output.push w.carry (to_text chunk)).1 }))

pub interval-Beside : (w : Run) → Beside w (interval w)
unfolding interval
interval-Beside w = elim (Bool-cases (w.timer && not w.measuring)) [
  | inl due ↦ simp due (same w (record w { measuring = true }) refl refl refl refl)
  | inr idle ↦ simp idle beside
]

tell_arriving-Beside : (w : Run) → Beside w (tell_arriving w)
tell_arriving-Beside w = elim (Bool-cases w.stall_warned) [
  | inl warned ↦ simp warned (same w _ refl refl refl refl)
  | inr silent ↦ simp silent beside
]

warn_stalled-Beside : (now : ℕ) (w : Run) → Beside w (warn_stalled now w)
warn_stalled-Beside now w = elim (Bool-cases (is_stalled now w)) [
  | inl stalled ↦ simp stalled (same w _ refl refl refl refl)
  | inr flows ↦ simp flows beside
]

grown-Beside : (received now : ℕ) (w : Run) → Beside w (grown received now w)
grown-Beside received now w =
    Beside-trans (same w (with_growth received now w) refl refl refl refl)
      (tell_arriving-Beside (with_growth received now w))

take_measure-Beside : (received now : ℕ) (w : Run) → Beside w (take_measure received now w)
take_measure-Beside received now w = elim (Bool-cases (ltb w.stats.received_bytes received)) [
  | inl more ↦ simp more (grown-Beside received now w)
  | inr less ↦ simp less (warn_stalled-Beside now w)
]

pub measured-Beside : (received now : ℕ) (w : Run) → Beside w (measured received now w)
unfolding measured
measured-Beside received now w = elim (Bool-cases w.measuring) [
  | inr idle ↦ simp idle beside
  | inl waits ↦
      let w' : Run = record w { measuring = false } in
      simp waits (
        Beside-trans (same w w' refl refl refl refl) (
          Beside-trans (take_measure-Beside received now w')
            (same (take_measure received now w') _ refl refl refl refl)))
]

pub finish-Beside : (w : Run) → Beside w (finish w)
unfolding finish
finish-Beside w =
    let w' : Run = record w { timer = false; process = false; carry = (Output.flush w.carry).1 } in
    Beside-trans
      (record {
        closing_same = refl;
        process_kept = λ h. refl;
        timer_kept = λ h. refl;
        settled_kept = λ s h. h;
      })
      (handle-Beside (Output.flush w.carry).0 w')

-- Neither the tool nor the timer runs.
abbrev pub Stopped : Run → Type 0
Stopped w = (w.process ≡ false) × (w.timer ≡ false)

pub Beside-Stopped : {w w' : Run} → Beside w w' → Stopped w → Stopped w'
Beside-Stopped h (p, t) = (h.process_kept p, h.timer_kept t)

pub finish-Stopped : (w : Run) → Stopped (finish w)
unfolding finish
finish-Stopped w =
    let w' : Run = record w { timer = false; process = false; carry = (Output.flush w.carry).1 } in
    Beside-Stopped (handle-Beside (Output.flush w.carry).0 w') (refl, refl)

settle_with-Beside : (s : Settlement) (w : Run) → Beside w (settle_with s w)
settle_with-Beside s w = elim (Option-cases w.settled) [
  | inl first ↦ simp first (record {
    closing_same = refl;
    process_kept = λ h. h;
    timer_kept = λ h. h;
    settled_kept = λ t h. absurd (ground (arith, simp first at h));
  })
  | inr (t, before) ↦ simp before beside
]

settle_with-settled : (s : Settlement) (w : Run) → is_some (settle_with s w).settled ≡ true
settle_with-settled s w = elim (Option-cases w.settled) [
  | inl first ↦ simp first refl
  | inr (t, before) ↦ simp before refl
]

fail-Beside : (e : RunError) (w : Run) → Beside w (fail e w)
unfolding fail
fail-Beside e w =
    Beside-trans (same w (report (fails e) w) refl refl refl refl)
      (settle_with-Beside (rejected e) (report (fails e) w))

fail-settled : (e : RunError) (w : Run) → is_some (fail e w).settled ≡ true
unfolding fail
fail-settled e w = settle_with-settled (rejected e) (report (fails e) w)

pub on_error-Beside : (w : Run) → Beside w (on_error w)
unfolding on_error
on_error-Beside w = elim (Bool-cases w.errored) [
  | inl again ↦ simp again beside
  | inr first ↦
      let w' : Run = record w { errored = true } in
      simp first (
        Beside-trans (same w w' refl refl refl refl)
          (Beside-trans (finish-Beside w') (fail-Beside not_spawned (finish w'))))
]

end_with-Beside :
    (code : Option ℕ) (received : ℕ) (cancelled : Bool) (w : Run)
    → Beside w (end_with code received cancelled w)
end_with-Beside code received true w = fail-Beside was_cancelled w
end_with-Beside code received false w = elim (Bool-cases (is_clean code)) [
  | inl clean ↦ simp clean (settle_with-Beside (resolved received) w)
  | inr unclean ↦ simp unclean (fail-Beside (exited code) w)
]

end_with-settled :
    (code : Option ℕ) (received : ℕ) (cancelled : Bool) (w : Run)
    → is_some (end_with code received cancelled w).settled ≡ true
end_with-settled code received true w = fail-settled was_cancelled w
end_with-settled code received false w = elim (Bool-cases (is_clean code)) [
  | inl clean ↦ simp clean (settle_with-settled (resolved received) w)
  | inr unclean ↦ simp unclean (fail-settled (exited code) w)
]

pub after_close-Beside :
    (code received : Option ℕ) (cancelled : Bool) (w : Run)
    → Beside w (after_close code received cancelled w)
after_close-Beside code none cancelled w = fail-Beside folder_unreadable w
after_close-Beside code (some received) cancelled w =
    let w' : Run = report (shown (record w.stats { received_bytes = received })) w in
    Beside-trans (same w w' refl refl refl refl) (end_with-Beside code received cancelled w')

pub after_close-settled :
    (code received : Option ℕ) (cancelled : Bool) (w : Run)
    → is_some (after_close code received cancelled w).settled ≡ true
after_close-settled code none cancelled w = fail-settled folder_unreadable w
after_close-settled code (some received) cancelled w =
    end_with-settled code received cancelled
      (report (shown (record w.stats { received_bytes = received })) w)
