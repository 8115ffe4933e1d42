-- ===== src/Processor/Run.antt =====
-- The loop over the backups in `runBackups` of apps/processor/src/main.ts, summary.json and the
-- exit code. A backup's folders are its own: the labels are different.
pub mod Within
pub mod Summary
use verichron_epoch.Prelude.{
  ℕ, Bool, true, false, not, List, [], ◌∷◌, String, map, is_some, if◌then◌else◌,
}
use verichron_epoch.Processor.{Slot, marker_of, has_name}
use verichron_epoch.Processor.Pass.{Config, Tools, Outside, Turn, now, turn}

-- A backup, what the outside does in its turn, and its folders before the run.
pub record Backup : Type 0 where
  pub label : String
  pub outside : Outside
  pub found : Slot

pub record RunState : Type 0 where
  pub cached_password : String
  pub have_cached : Bool
  pub failed_backups : List String
  pub repair_failures : List (String × List String)

abbrev pub start_state : RunState
start_state = record {
  cached_password = "";
  have_cached = false;
  failed_backups = [];
  repair_failures = [];
}

abbrev pub turn_at : RunState → Slot → Turn
turn_at s found = record {
  cached_password = s.cached_password;
  have_cached = s.have_cached;
  failed_backups = s.failed_backups;
  repair_failures = s.repair_failures;
  found = found;
  changed = [];
}

abbrev pub state_of : Turn → RunState
state_of t = record {
  cached_password = t.cached_password;
  have_cached = t.have_cached;
  failed_backups = t.failed_backups;
  repair_failures = t.repair_failures;
}

-- The state behind the loop, and each backup's folders.
unfoldable pub run_backups :
    Config → Tools → List Backup → RunState → RunState × List (String × Slot)
run_backups cfg tools [] s = (s, [])
run_backups cfg tools (b ∷ bs) s =
    let t = turn cfg tools b.label b.outside (turn_at s b.found) in
    let (s', slots) = run_backups cfg tools bs (state_of t) in (s', (b.label, now t) ∷ slots)

pub record BackupResult : Type 0 where
  pub label : String
  pub success : Bool
  pub decrypted : Bool

-- The code asks only whether the marker's file exists; here one that does not parse is none.
unfoldable pub result_of : RunState → String × Slot → BackupResult
result_of s (label, slot) = record {
  label = label;
  success = not (has_name label s.failed_backups);
  decrypted = is_some (marker_of slot.decrypted);
}

abbrev is_empty : List String → Bool
is_empty [] = true
is_empty (n ∷ ns) = false

-- The entries of summary.json, and the exit code.
unfoldable pub run : Config → Tools → List Backup → List BackupResult × ℕ
unfolding run_backups result_of
run cfg tools backups =
    let (s, slots) = run_backups cfg tools backups start_state in
    (map (result_of s) slots, if is_empty s.failed_backups then 0 else 1)
