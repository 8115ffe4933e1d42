-- ===== src/DevicePull/Run/Reports.antt =====
-- What a run of idevicebackup2 reports, whatever happens in it and in whatever order: runBackup of
-- apps/epoch/src/main/tools/device-backup/ios/iosBackupSource.ts.
use verichron_epoch.Prelude.{
  ℕ, ◌≡◌, refl, ap, Text, inl, inr, Bool, true, false, ◌&&◌, not, List, [], ◌∷◌, Option, none, some,
  is_some, Bool-cases,
}
use verichron_epoch.DevicePull.Pull.{is_clean}
use verichron_epoch.DevicePull.Run.{
  RunError, not_spawned, was_cancelled, folder_unreadable, exited, fails, Closing, not_closed,
  closed, measuring_last, Run, start_run, stdout_data, interval, finish, settle_with, fail,
  on_error, on_close, end_with, after_close, last_measure, Happening, prints, interval_passes,
  measures, errs, closes, measures_last, happen, happen_all, Settlement, resolved, rejected,
}
use verichron_epoch.DevicePull.Run.Heard.{
  Heard, heard_of, nothing_heard, hear_all, happen_all-heard_of,
}
use verichron_epoch.DevicePull.Run.Reported.{
  starts, shows, IsReported, report-IsReported, same-IsReported, handle-IsReported,
  measured-IsReported,
}

finish-IsReported : (w : Run) → IsReported w → IsReported (finish w)
unfolding finish
finish-IsReported w h = handle-IsReported _ _ (same-IsReported w _ refl refl refl refl h)

settle_with-IsReported : (s : Settlement) (w : Run) → IsReported w → IsReported (settle_with s w)
settle_with-IsReported s w h = elim (Bool-cases (is_some w.settled)) [
  | inl before ↦ simp before h
  | inr first ↦ simp first (same-IsReported w _ refl refl refl refl h)
]

fail-IsReported : (e : RunError) (w : Run) → IsReported w → IsReported (fail e w)
unfolding fail
fail-IsReported e w h =
    settle_with-IsReported (rejected e) _ (report-IsReported (fails e) w (refl, λ b rs t. t) h)

on_error-IsReported : (w : Run) → IsReported w → IsReported (on_error w)
unfolding on_error
on_error-IsReported w h = elim (Bool-cases w.errored) [
  | inl again ↦ simp again h
  | inr first ↦ simp first (
      fail-IsReported not_spawned _
        (finish-IsReported _ (same-IsReported w _ refl refl refl refl h)))
]

end_with-IsReported :
    (code : Option ℕ) (received : ℕ) (cancelled : Bool) (w : Run)
    → IsReported w
    → IsReported (end_with code received cancelled w)
end_with-IsReported code received true w h = fail-IsReported was_cancelled w h
end_with-IsReported code received false w h = elim (Bool-cases (is_clean code)) [
  | inl clean ↦ simp clean (settle_with-IsReported (resolved received) w h)
  | inr unclean ↦ simp unclean (fail-IsReported (exited code) w h)
]

after_close-IsReported :
    (code received : Option ℕ) (cancelled : Bool) (w : Run)
    → IsReported w
    → IsReported (after_close code received cancelled w)
unfolding IsReported
after_close-IsReported code none cancelled w h = fail-IsReported folder_unreadable w h
after_close-IsReported code (some received) cancelled w (p, h, t) =
    end_with-IsReported code received cancelled _ (p, shows w.finished _ w.reports p h, t)

last_measure-IsReported :
    (received : Option ℕ) (cancelled : Bool) (w : Run)
    → IsReported w
    → IsReported (last_measure received cancelled w)
unfolding last_measure
last_measure-IsReported received cancelled w h = go w.closing refl
  where
    go : (c : Closing) → w.closing ≡ c → IsReported (last_measure received cancelled w)
    go not_closed e = simp (e, last_measure) h
    go closed e = simp (e, last_measure) h
    go (measuring_last code) e =
        simp (e, last_measure)
          (after_close-IsReported code received cancelled _
            (same-IsReported w _ refl refl refl refl h))

on_close-IsReported : (code : Option ℕ) (w : Run) → IsReported w → IsReported (on_close code w)
unfolding on_close
on_close-IsReported code w h = go w.closing refl
  where
    go : (c : Closing) → w.closing ≡ c → IsReported (on_close code w)
    go not_closed e =
        simp (e, on_close)
          (same-IsReported (finish w) _ refl refl refl refl (finish-IsReported w h))
    go closed e = simp (e, on_close) h
    go (measuring_last earlier) e = simp (e, on_close) h

module _ (to_text : List ℕ → Text) where
  happen-IsReported : (e : Happening) (w : Run) → IsReported w → IsReported (happen to_text e w)
  unfolding happen stdout_data interval
  happen-IsReported (prints chunk) w h =
      handle-IsReported _ _ (same-IsReported w _ refl refl refl refl h)
  happen-IsReported interval_passes w h = elim (Bool-cases (w.timer && not w.measuring)) [
    | inl due ↦ simp due (same-IsReported w _ refl refl refl refl h)
    | inr idle ↦ simp idle h
  ]
  happen-IsReported (measures received now) w h = measured-IsReported received now w h
  happen-IsReported errs w h = on_error-IsReported w h
  happen-IsReported (closes code) w h = on_close-IsReported code w h
  happen-IsReported (measures_last received cancelled) w h =
      last_measure-IsReported received cancelled w h

  happen_all-IsReported :
      (es : List Happening) (w : Run) → IsReported w → IsReported (happen_all to_text es w)
  unfolding happen_all
  happen_all-IsReported [] w h = h
  happen_all-IsReported (e ∷ es) w h =
      happen_all-IsReported es (happen to_text e w) (happen-IsReported e w h)

  -- Whatever happens in a run of idevicebackup2, and in whatever order: each percentage reported is
  -- 100 from where the tool has said that the whole backup is finished, and at most 99, or none,
  -- before; the tool has said so once a bar of at least 100 percent that ends in "Finished" was read
  -- from what it had printed by then; and a warning that no data arrives is not repeated until it is
  -- reported that data arrives again, which is reported only after such a warning.
  pub start_run-happen_all-IsReported :
      (now : ℕ) (estimated : Option ℕ) (es : List Happening)
      → let w = happen_all to_text es (start_run now estimated) in
        IsReported w × (w.finished ≡ (hear_all to_text es nothing_heard).finished)
  unfolding start_run IsReported heard_of
  start_run-happen_all-IsReported now estimated es = (
    happen_all-IsReported es (start_run now estimated) (tt, shows false _ [] tt starts, refl),
    ap (λ (s : Heard). s.finished) (happen_all-heard_of to_text es (start_run now estimated)),
  )
