-- ===== src/DevicePull/Run/Settled.antt =====
-- That the promise of a run of idevicebackup2 is settled, and once: runBackup of
-- apps/epoch/src/main/tools/device-backup/ios/iosBackupSource.ts.
use verichron_epoch.Prelude.{
  ℕ, ◌≤◌, ◌≡◌, refl, ap, inl, inr, Text, Bool, true, List, [], ◌∷◌, Option, none, some, arith,
  is_some, Option-cases,
}
use verichron_epoch.DevicePull.Run.{
  Settlement, Closing, not_closed, closed, measuring_last, Run, start_run, finish, after_close,
  on_close, last_measure, Happening, prints, interval_passes, measures, errs, closes, measures_last,
  happen, happen_all,
}
use verichron_epoch.DevicePull.Run.Settling.{
  Beside, Stopped, Beside-Stopped, finish-Beside, finish-Stopped, stdout_data-Beside,
  interval-Beside, measured-Beside, on_error-Beside, after_close-Beside, after_close-settled,
}

-- How far the close of the tool is.
abbrev pub stage : Closing → ℕ
stage not_closed = 0
stage (measuring_last _) = 1
stage closed = 2

abbrev EndingAt : Closing → Run → Type 0
EndingAt not_closed w = Unit
EndingAt (measuring_last _) w = Stopped w
EndingAt closed w = Stopped w × (is_some w.settled ≡ true)

abbrev Ending : Run → Type 0
Ending w = EndingAt w.closing w

record Later (w w' : Run) : Type 0 where
  stage_grows : stage w.closing ≤ stage w'.closing
  settled_kept : (s : Settlement) → w.settled ≡ some s → w'.settled ≡ some s
  ending_kept : Ending w → Ending w'

EndingAt-Beside : (c : Closing) (w w' : Run) → Beside w w' → EndingAt c w → EndingAt c w'
EndingAt-Beside not_closed w w' h e = tt
EndingAt-Beside (measuring_last _) w w' h e = Beside-Stopped h e
EndingAt-Beside closed w w' h (e, settled) = (Beside-Stopped h e, go w.settled refl settled)
  where
    go : (o : Option Settlement) → w.settled ≡ o → is_some o ≡ true → is_some w'.settled ≡ true
    go none same is = absurd (ground arith)
    go (some s) same is = ap is_some (h.settled_kept s same)

Beside-Later : (w w' : Run) → Beside w w' → Later w w'
Beside-Later w w' h = record {
  stage_grows = rw h.closing_same (omega arith);
  settled_kept = h.settled_kept;
  ending_kept = λ e. simp (h.closing_same) (EndingAt-Beside w.closing w w' h e);
}

Later-refl : (w : Run) → Later w w
Later-refl w = record { stage_grows = omega arith; settled_kept = λ s h. h; ending_kept = λ h. h }

Later-trans : (a b c : Run) → Later a b → Later b c → Later a c
Later-trans a b c h k = record {
  stage_grows = omega (arith, h.stage_grows, k.stage_grows);
  settled_kept = λ s e. k.settled_kept s (h.settled_kept s e);
  ending_kept = λ e. k.ending_kept (h.ending_kept e);
}

-- What `on_close` and `last_measure` come to, by how far the close is.
on_close_first :
    (code : Option ℕ) (w : Run)
    → w.closing ≡ not_closed
    → on_close code w ≡ record (finish w) { closing = measuring_last code }
unfolding on_close
on_close_first code w e = simp (e, on_close) refl

on_close_again : (code : Option ℕ) (w : Run) → 1 ≤ stage w.closing → on_close code w ≡ w
unfolding on_close
on_close_again code w h = go w.closing refl h
  where
    go : (c : Closing) → w.closing ≡ c → 1 ≤ stage c → on_close code w ≡ w
    go not_closed e h = absurd (omega arith)
    go closed e h = simp (e, on_close) refl
    go (measuring_last _) e h = simp (e, on_close) refl

last_measure_once :
    (received : Option ℕ) (cancelled : Bool) (code : Option ℕ) (w : Run)
    → w.closing ≡ measuring_last code
    → last_measure received cancelled w
      ≡ after_close code received cancelled (record w { closing = closed })
unfolding last_measure
last_measure_once received cancelled code w e = simp (e, last_measure) refl

on_close-Later : (code : Option ℕ) (w : Run) → Later w (on_close code w)
on_close-Later code w = go w.closing refl
  where
    go : (c : Closing) → w.closing ≡ c → Later w (on_close code w)
    go not_closed e = rw (on_close_first code w e) (record {
      stage_grows = rw e (omega arith);
      settled_kept = (finish-Beside w).settled_kept;
      ending_kept = λ h. finish-Stopped w;
    })
    go closed e = rw (on_close_again code w (rw e (omega arith))) (Later-refl w)
    go (measuring_last _) e = rw (on_close_again code w (rw e (omega arith))) (Later-refl w)

last_measure-Later :
    (received : Option ℕ) (cancelled : Bool) (w : Run) → Later w (last_measure received cancelled w)
unfolding last_measure
last_measure-Later received cancelled w = go w.closing refl
  where
    go : (c : Closing) → w.closing ≡ c → Later w (last_measure received cancelled w)
    go not_closed e = simp (e, last_measure) (Later-refl w)
    go closed e = simp (e, last_measure) (Later-refl w)
    go (measuring_last code) e =
        let w' : Run = record w { closing = closed } in
        let b = after_close-Beside code received cancelled w' in
        rw (last_measure_once received cancelled code w e) (record {
          stage_grows = rw (e, b.closing_same) (omega arith);
          settled_kept = b.settled_kept;
          ending_kept = λ h.
              rw b.closing_same
                (Beside-Stopped b (rw e at h), after_close-settled code received cancelled w');
        })

closed-Ending : (w : Run) → w.closing ≡ closed → Ending w → Stopped w × (is_some w.settled ≡ true)
closed-Ending w e h = simp e at h

still_closed : (w w' : Run) → Later w w' → w.closing ≡ closed → w'.closing ≡ closed
still_closed w w' h e = go w'.closing refl (omega (arith, h.stage_grows, ap stage e))
  where
    go : (c : Closing) → w'.closing ≡ c → 2 ≤ stage c → w'.closing ≡ closed
    go not_closed e h = absurd (omega arith)
    go (measuring_last _) e h = absurd (omega arith)
    go closed e h = e

module _ (to_text : List ℕ → Text) where
  happen-Later : (e : Happening) (w : Run) → Later w (happen to_text e w)
  unfolding happen
  happen-Later (prints chunk) w = Beside-Later w _ (stdout_data-Beside to_text chunk w)
  happen-Later interval_passes w = Beside-Later w _ (interval-Beside w)
  happen-Later (measures received now) w = Beside-Later w _ (measured-Beside received now w)
  happen-Later errs w = Beside-Later w _ (on_error-Beside w)
  happen-Later (closes code) w = on_close-Later code w
  happen-Later (measures_last received cancelled) w = last_measure-Later received cancelled w

  happen_all-Later : (es : List Happening) (w : Run) → Later w (happen_all to_text es w)
  unfolding happen_all
  happen_all-Later [] w = Later-refl w
  happen_all-Later (e ∷ es) w =
      Later-trans w (happen to_text e w) _ (happen-Later e w)
        (happen_all-Later es (happen to_text e w))

  closes_stage : (code : Option ℕ) (w : Run) → 1 ≤ stage (happen to_text (closes code) w).closing
  unfolding happen
  closes_stage code w = go w.closing refl
    where
      go : (c : Closing) → w.closing ≡ c → 1 ≤ stage (on_close code w).closing
      go not_closed e = rw (on_close_first code w e) (omega arith)
      go closed e = rw (on_close_again code w (rw e (omega arith)), e) (omega arith)
      go (measuring_last _) e = rw (on_close_again code w (rw e (omega arith)), e) (omega arith)

  measures_last_closed :
      (received : Option ℕ) (cancelled : Bool) (w : Run)
      → 1 ≤ stage w.closing
      → (happen to_text (measures_last received cancelled) w).closing ≡ closed
  unfolding happen last_measure
  measures_last_closed received cancelled w h = go w.closing refl h
    where
      go :
          (c : Closing)
          → w.closing ≡ c
          → 1 ≤ stage c
          → (last_measure received cancelled w).closing ≡ closed
      go not_closed e h = absurd (omega arith)
      go closed e h = simp (e, last_measure) refl
      go (measuring_last code) e h =
          rw (last_measure_once received cancelled code w e)
            (after_close-Beside code received cancelled
              (record w { closing = closed })).closing_same

  -- The run when the tool has closed and its folder has been measured for the last time, with what
  -- else happens before the close and between the two.
  unfoldable pub ended : List Happening → Option ℕ → List Happening → Option ℕ → Bool → Run → Run
  ended es code es' received cancelled w =
      happen to_text (measures_last received cancelled)
        (happen_all to_text es' (happen to_text (closes code) (happen_all to_text es w)))

  ended-closed :
      (es : List Happening) (code : Option ℕ) (es' : List Happening) (received : Option ℕ)
      (cancelled : Bool) (w : Run)
      → (ended es code es' received cancelled w).closing ≡ closed
  unfolding ended
  ended-closed es code es' received cancelled w =
      let w1 : Run = happen_all to_text es w in
      let w2 : Run = happen to_text (closes code) w1 in
      measures_last_closed received cancelled (happen_all to_text es' w2)
        (omega (arith, closes_stage code w1, (happen_all-Later es' w2).stage_grows))

  ended-Later :
      (es : List Happening) (code : Option ℕ) (es' : List Happening) (received : Option ℕ)
      (cancelled : Bool) (w : Run)
      → Later w (ended es code es' received cancelled w)
  unfolding ended
  ended-Later es code es' received cancelled w =
      let w1 : Run = happen_all to_text es w in
      let w2 : Run = happen to_text (closes code) w1 in
      let w3 : Run = happen_all to_text es' w2 in
      Later-trans w w1 _ (happen_all-Later es w) (
        Later-trans w1 w2 _ (happen-Later (closes code) w1) (
          Later-trans w2 w3 _ (happen_all-Later es' w2)
            (happen-Later (measures_last received cancelled) w3)))

  -- A run of idevicebackup2 in which the tool closes and its folder is then measured for the last time
  -- has settled its promise, with a result or an error, whatever else happened before and between; and
  -- whatever happens after that, it is settled with the same, the timer is cleared, and the process is
  -- let go.
  pub start_run-ended-settled :
      (now : ℕ) (estimated : Option ℕ) (es : List Happening) (code : Option ℕ)
      (es' : List Happening) (received : Option ℕ) (cancelled : Bool) (es'' : List Happening)
      → let w = ended es code es' received cancelled (start_run now estimated) in
        let w' = happen_all to_text es'' w in
        (s : Settlement) × (w.settled ≡ some s) × (w'.settled ≡ some s) × Stopped w'
  unfolding start_run
  start_run-ended-settled now estimated es code es' received cancelled es'' =
      let w : Run = ended es code es' received cancelled (start_run now estimated) in
      let before : Later (start_run now estimated) w =
        ended-Later es code es' received cancelled (start_run now estimated) in
      let after : Later w (happen_all to_text es'' w) = happen_all-Later es'' w in
      let e : w.closing ≡ closed =
        ended-closed es code es' received cancelled (start_run now estimated) in
      let h : Ending w = before.ending_kept tt in
      let h' = closed-Ending _ (still_closed w _ after e) (after.ending_kept h) in
      elim (Option-cases w.settled) [
        | inl none_yet ↦ absurd (ground (arith, none_yet, (closed-Ending w e h).1))
        | inr (s, is) ↦ (s, is, after.settled_kept s is, h'.0)
      ]
