-- ===== src/DevicePull/Run/Reported.antt =====
-- The reports that the handlers of a run of idevicebackup2 make: runBackup of
-- apps/epoch/src/main/tools/device-backup/ios/iosBackupSource.ts.
use verichron_epoch.Prelude.{
  ℕ, ◌≤◌, ◌≡◌, refl, inl, inr, Bool, true, false, List, [], ◌∷◌, Option, none, some, Text, arith,
  leb, ltb, ◌==◌, Bool-cases,
}
use verichron_epoch.DevicePull.{received_percent}
use verichron_epoch.DevicePull.CrashLogs.{includes}
use verichron_epoch.DevicePull.Output.{OutputEvent, text_line, percent}
use verichron_epoch.PullState.{BackupStats}
use verichron_epoch.DevicePull.Run.{
  Report, enter_passcode, no_data, arriving_again, tool_says, fails, shown, Run, passcode_prompt,
  report, tool_finished, say_line, handle_event, handle, tell_arriving, grown, is_stalled,
  warn_stalled, show_stats, take_measure, measured,
}

-- A percentage, before and after the tool has said that the backup is finished.
abbrev pub PercentFor : Bool → Option ℕ → Type 0
PercentFor true p = p ≡ some 100
PercentFor false none = Unit
PercentFor false (some n) = n ≤ 99

abbrev is_shown : Report → Bool
is_shown (shown s) = true
is_shown _ = false

-- The reports, the newest first: each percentage is that of whether the tool had then said that it
-- was finished.
pub data Honest : Bool → List Report → Type 0 where
  starts : Honest false []
  finishes : (rs : List Report) → Honest false rs → Honest true rs
  shows :
      (f : Bool) (s : BackupStats) (rs : List Report)
      → PercentFor f s.percent
      → Honest f rs
      → Honest f (shown s ∷ rs)
  says :
      (f : Bool) (r : Report) (rs : List Report)
      → is_shown r ≡ false
      → Honest f rs
      → Honest f (r ∷ rs)

-- A warning that no data arrives and the report that it arrives again take turns, the warning
-- first; the flag is whether the last of them is a warning.
abbrev pub TakesTurns : Bool → List Report → Type 0
TakesTurns warned [] = warned ≡ false
TakesTurns warned (no_data ∷ rs) = (warned ≡ true) × TakesTurns false rs
TakesTurns warned (arriving_again ∷ rs) = (warned ≡ false) × TakesTurns true rs
TakesTurns warned (_ ∷ rs) = TakesTurns warned rs

unfoldable pub IsReported : Run → Type 0
IsReported w =
    PercentFor w.finished w.stats.percent
    × Honest w.finished w.reports
    × TakesTurns w.stall_warned w.reports

received_percent-PercentFor :
    (received : ℕ) (estimated : Option ℕ) (f : Bool)
    → PercentFor f (received_percent received estimated f)
unfolding received_percent
received_percent-PercentFor received estimated true = refl
received_percent-PercentFor received none false = tt
received_percent-PercentFor received (some estimated) false = elim (Bool-cases (estimated == 0)) [
  | inl empty ↦ simp empty tt
  | inr full ↦ simp full (omega arith)
]

is_plain : Report → Bool
is_plain enter_passcode = true
is_plain (tool_says _ _) = true
is_plain (fails _) = true
is_plain _ = false

abbrev pub Plain : Report → Type 0
Plain r =
    (is_shown r ≡ false) × ((b : Bool) (rs : List Report) → TakesTurns b rs → TakesTurns b (r ∷ rs))

pub report-IsReported : (r : Report) (w : Run) → Plain r → IsReported w → IsReported (report r w)
unfolding IsReported
report-IsReported r w (plain, turn) (p, h, t) =
    (p, says w.finished r w.reports plain h, turn w.stall_warned w.reports t)

-- What `IsReported` reads is the same in both.
pub same-IsReported :
    (w w' : Run)
    → w'.finished ≡ w.finished
    → w'.stats.percent ≡ w.stats.percent
    → w'.stall_warned ≡ w.stall_warned
    → w'.reports ≡ w.reports
    → IsReported w
    → IsReported w'
unfolding IsReported
same-IsReported w w' f p s r h = rw (f, p, s, r) h

show_stats-IsReported : (w : Run) → IsReported w → IsReported (show_stats w)
unfolding IsReported
show_stats-IsReported w (p, h, t) = (p, shows w.finished w.stats w.reports p h, t)

tool_finished-IsReported :
    (w : Run) → w.finished ≡ false → IsReported w → IsReported (tool_finished w)
unfolding IsReported received_percent
tool_finished-IsReported w e (p, h, t) =
    (refl, shows true _ w.reports refl (finishes w.reports (rw e at h)), t)

say_line-IsReported : (text : Text) (w : Run) → IsReported w → IsReported (say_line text w)
unfolding IsReported
say_line-IsReported text w (p, h, t) = (p, says w.finished (tool_says _ text) w.reports refl h, t)

handle_event-IsReported : (e : OutputEvent) (w : Run) → IsReported w → IsReported (handle_event e w)
unfolding handle_event
handle_event-IsReported (percent value) w h = elim (Bool-cases (leb 100 value)) [
  | inr low ↦ simp low h
  | inl full ↦ elim (Bool-cases w.finished) [
    | inl before ↦ simp (full, before) h
    | inr first ↦ simp (full, first) (tool_finished-IsReported w first h)
  ]
]
handle_event-IsReported (text_line text) w h = elim (Bool-cases (includes passcode_prompt text)) [
  | inl asks ↦ simp asks (report-IsReported enter_passcode w (refl, λ b rs t. t) h)
  | inr speaks ↦ simp speaks (say_line-IsReported text w h)
]

pub handle-IsReported : (es : List OutputEvent) (w : Run) → IsReported w → IsReported (handle es w)
unfolding handle
handle-IsReported [] w h = h
handle-IsReported (e ∷ es) w h =
    handle-IsReported es (handle_event e w) (handle_event-IsReported e w h)

arriving-IsReported :
    (w : Run)
    → w.stall_warned ≡ true
    → IsReported w
    → IsReported (report arriving_again (record w { stall_warned = false }))
unfolding IsReported
arriving-IsReported w e (p, h, t) =
    (p, says w.finished arriving_again w.reports refl h, (refl, rw e at t))

stalled-IsReported :
    (w : Run)
    → w.stall_warned ≡ false
    → IsReported w
    → IsReported (report no_data (record w { stall_warned = true }))
unfolding IsReported
stalled-IsReported w e (p, h, t) = (p, says w.finished no_data w.reports refl h, (refl, rw e at t))

tell_arriving-IsReported : (w : Run) → IsReported w → IsReported (tell_arriving w)
tell_arriving-IsReported w h = elim (Bool-cases w.stall_warned) [
  | inl warned ↦ simp warned (arriving-IsReported w warned h)
  | inr silent ↦ simp silent h
]

warn_stalled-IsReported : (now : ℕ) (w : Run) → IsReported w → IsReported (warn_stalled now w)
warn_stalled-IsReported now w h = elim (Bool-cases (is_stalled now w)) [
  | inl stalled ↦ simp stalled (stalled-IsReported w (ground (arith, stalled)) h)
  | inr flows ↦ simp flows h
]

grown-IsReported : (received now : ℕ) (w : Run) → IsReported w → IsReported (grown received now w)
unfolding IsReported
grown-IsReported received now w (p, h, t) =
    tell_arriving-IsReported _
      (received_percent-PercentFor received w.stats.estimated_bytes w.finished, h, t)

pub measured-IsReported :
    (received now : ℕ) (w : Run) → IsReported w → IsReported (measured received now w)
unfolding measured
measured-IsReported received now w h = elim (Bool-cases w.measuring) [
  | inr idle ↦ simp idle h
  | inl waits ↦
      let w' : Run = record w { measuring = false } in
      let h' : IsReported w' = same-IsReported w w' refl refl refl refl h in
      simp waits (
        show_stats-IsReported (take_measure received now w')
          (elim (Bool-cases (ltb w.stats.received_bytes received)) [
            | inl more ↦ simp more (grown-IsReported received now w' h')
            | inr same ↦ simp same (warn_stalled-IsReported now w' h')
          ]))
]
