-- ===== src/PullState/Laws.antt =====
-- What a tracked pull shows after any updates.
use verichron_epoch.Prelude.{
  ℕ, ◌∙◌, ◌-◌, ◌≡◌, refl, inl, inr, Bool, false, ◌||◌, List, [], ◌∷◌, ◌++◌, Option, none, some,
  String, ltb, arith, of_some, length, last, last-last_append, any, Bool-cases,
}
use mathlib.Core.List.{append_assoc, append-nil}
use verichron_epoch.PullState.{
  BackupProgress, BackupStats, DeviceInfo, DevicePullState, PullStateTracker, next_device_action,
  pull_state_progress_limit, newest, progress, stats, start, is_end, reported_end, current,
}

-- The calls that update a tracked pull.
pub data Update : Type 0 where
  report : BackupProgress → Update
  measure : BackupStats → Update

abbrev pub update : PullStateTracker → Update → PullStateTracker
update s (report p) = progress s p
update s (measure st) = stats s st

abbrev pub updates : PullStateTracker → List Update → PullStateTracker
updates s [] = s
updates s (u ∷ us) = updates (update s u) us

-- The reports among the updates.
abbrev pub reports : List Update → List BackupProgress
reports [] = []
reports (report p ∷ us) = p ∷ reports us
reports (measure st ∷ us) = reports us

abbrev pub is_end_report : BackupProgress → Bool
is_end_report p = is_end p.phase

-- The last 500 of a list.
abbrev pub last_kept : List BackupProgress → List BackupProgress
last_kept ps = last pull_state_progress_limit ps

abbrev pub banner_after : Option String → List BackupProgress → Option String
banner_after prev [] = prev
banner_after prev (p ∷ ps) = banner_after (next_device_action prev p) ps

-- The last measure among the updates.
abbrev pub last_stats : Option BackupStats → List Update → Option BackupStats
last_stats st [] = st
last_stats st (report p ∷ us) = last_stats st us
last_stats st (measure new ∷ us) = last_stats (some new) us

newest_lem : (ps : List BackupProgress) → newest ps ≡ last_kept ps
unfolding newest
newest_lem ps = elim (Bool-cases (ltb pull_state_progress_limit (length ps))) [
  | inl more ↦ rw more
  | inr few ↦
      let none_dropped : length ps - pull_state_progress_limit ≡ 0 = ground arith in
      rw (few, none_dropped)
]

newest-last_kept :
    (ps : List BackupProgress) (p : BackupProgress)
    → newest (last_kept ps ++ p ∷ []) ≡ last_kept (ps ++ p ∷ [])
newest-last_kept ps p =
    newest_lem (last_kept ps ++ p ∷ []) ∙ last-last_append pull_state_progress_limit ps p

-- A pull whose reports so far are `ps`.
abbrev shown : DevicePullState → List BackupProgress → DevicePullState
shown s ps = record s {
  progress = last_kept ps;
  device_action = banner_after none ps;
  ended = any is_end_report ps;
}

banner_after-append :
    (prev : Option String) (ps : List BackupProgress) (p : BackupProgress)
    → banner_after prev (ps ++ p ∷ []) ≡ next_device_action (banner_after prev ps) p
banner_after-append prev [] p = refl
banner_after-append prev (q ∷ ps) p = banner_after-append (next_device_action prev q) ps p

any-append :
    (ps : List BackupProgress) (p : BackupProgress)
    → any is_end_report (ps ++ p ∷ []) ≡ (is_end p.phase || any is_end_report ps)
any-append [] p = refl
any-append (q ∷ ps) p = ground (arith, any-append ps p)

progress-shown :
    (s : DevicePullState) (ps : List BackupProgress) (p : BackupProgress)
    → progress (some (shown s ps)) p ≡ some (shown s (ps ++ p ∷ []))
unfolding progress
progress-shown s ps p = rw (newest-last_kept ps p, banner_after-append none ps p, any-append ps p)

updates-shown :
    (s : DevicePullState) (ps : List BackupProgress) (us : List Update)
    → updates (some (shown s ps)) us
      ≡ some (shown (record s { stats = last_stats s.stats us }) (ps ++ reports us))
unfolding stats
updates-shown s ps [] = rw append-nil
updates-shown s ps (report p ∷ us) =
    rw (progress-shown s ps p)
      (rw (append_assoc ps (p ∷ []) (reports us)) at (updates-shown s (ps ++ p ∷ []) us))
updates-shown s ps (measure st ∷ us) = updates-shown (record s { stats = some st }) ps us

-- After a pull has started and had any reports and measures, what a panel that mounts is shown is
-- what the whole history gives: the last 500 reports, the banner that the reports leave in turn,
-- the last measure, and whether any report was the end. A second pull is refused all the while.
pub start-updates :
    (source_id : String) (device : DeviceInfo) (dest_dir : String) (now : ℕ) (us : List Update)
    (t : PullStateTracker)
    → start none source_id device dest_dir now ≡ some t
    → let after = updates t us in
      (current after
        ≡ some (record {
          source_id = source_id;
          device = device;
          dest_dir = dest_dir;
          started_at = now;
          progress = last_kept (reports us);
          stats = last_stats none us;
          device_action = banner_after none (reports us);
          ended = any is_end_report (reports us);
        }))
      × (reported_end after ≡ any is_end_report (reports us))
      × ((id : String) (other : DeviceInfo) (dir : String) (at : ℕ)
          → start after id other dir at ≡ none)
unfolding start current reported_end
start-updates source_id device dest_dir now us t e =
    let fresh : DevicePullState = record {
      source_id = source_id;
      device = device;
      dest_dir = dest_dir;
      started_at = now;
      progress = [];
      stats = none;
      device_action = none;
      ended = false;
    } in
    rw (← of_some e, updates-shown fresh [] us) (refl, refl, λ id other dir at. refl)
