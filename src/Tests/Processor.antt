-- ===== src/Tests/Processor.antt =====
-- The theorems on apps/processor at concrete inputs.
use verichron_epoch.Prelude.{
  ◌∷◌, List, All, ℕ, ◌+◌, ◌≤◌, ◌≡◌, ◌≢◌, refl, ap, true, false, ◌||◌, not, [], none, some, String,
  is_some, of_some, arith, ◌==◌, if◌then◌else◌,
}
use verichron_epoch.Contracts.{skipped, itunes, IleappModules, DecryptMarker, IleappMarker}
use verichron_epoch.Processor.{Slot, has_name}
use verichron_epoch.Processor.Sound.{IsSound, AlwaysSound}
use verichron_epoch.Processor.Password.{
  Answers, DecryptResult, decrypted, failed, wrong_password, LoopState, password_loop, with_result,
  after_failure, ran_once, cache, attempt_once, attempts,
}
use verichron_epoch.Processor.Password.Laws.{password_loop-runs, password_loop-failed}
use verichron_epoch.Processor.CrashReports.{prepare_crash_reports}
use verichron_epoch.Processor.Pass.{
  Config, Tools, Outside, Turn, now, turn, is_current, ileapp_is_current, did, fail, clear_stale,
  ask, check_again, mark_decrypt, decrypt_again, ileapp_again, run_ileapp, is_thrown,
  run_crash_reports, derive,
}
use verichron_epoch.Processor.Pass.Extension.{Stable}
use verichron_epoch.Processor.Pass.Soundness.{turn-IsSound, turn-AlwaysSound}
use verichron_epoch.Processor.Pass.Completeness.{turn-prepared, turn-reuse}
use verichron_epoch.Processor.Pass.Stale.{turn-stale}
use verichron_epoch.Processor.Run.{Backup, BackupResult, run}
use verichron_epoch.Processor.Run.Summary.{run-decrypted}

abbrev fresh_loop : LoopState
fresh_loop = record {
  cached_password = "";
  have_cached = false;
  failed_backups = [];
  decrypted = false;
  runs = 0;
  changes = [];
}

-- The first password is right.
abbrev right : Answers
right = record { prompt = λ n. some "pw"; decrypt = λ n pw. decrypted "root" }

-- No password is right.
abbrev wrong : Answers
wrong = record { prompt = λ n. some "pw"; decrypt = λ n pw. wrong_password }

-- The password prompt is closed.
abbrev closed : Answers
closed = record { prompt = λ n. none; decrypt = λ n pw. failed }

abbrev second_time : ℕ → String → DecryptResult
second_time n pw = if n == 1 then failed else decrypted "root"

-- The disk is full, and then it is not.
abbrev full_disk : Answers
full_disk = record { prompt = λ n. some "pw"; decrypt = second_time }

password_loop-runs_example : (password_loop true "phone" wrong fresh_loop).runs ≤ 0 + 3
password_loop-runs_example = password_loop-runs true "phone" wrong fresh_loop

right_decrypts : (password_loop true "phone" right fresh_loop).decrypted ≡ true
unfolding password_loop attempts attempt_once with_result after_failure ran_once cache
right_decrypts = refl

wrong_fails : (password_loop true "phone" wrong fresh_loop).decrypted ≡ false
unfolding password_loop attempts attempt_once with_result after_failure ran_once cache
wrong_fails = refl

password_loop-failed_example :
    ((password_loop true "phone" full_disk fresh_loop).decrypted ≡ true)
    × ((password_loop true "phone" full_disk fresh_loop).runs ≡ 0 + 2)
    × (has_name "phone" (password_loop true "phone" full_disk fresh_loop).failed_backups ≡ true)
password_loop-failed_example =
    password_loop-failed true "phone" full_disk fresh_loop "pw" "pw" "root" refl refl refl refl refl
      refl

abbrev tools : Tools
tools = record {
  decrypt = record { name = "decrypt"; version = "1" };
  ileapp = record { name = "iLEAPP"; version = "abc" };
}

abbrev config : Config
config = record { same_pass = false; force_decrypt = false; force = false }

abbrev no_modules : IleappModules
no_modules = record { total = 0; complete = 0; no_files_found = []; errors = [] }

-- A backup whose every step succeeds.
abbrev fine : Outside
fine = record {
  hash = some "root";
  answers = right;
  recheck = some "root";
  repair = some (skipped "no sqlite");
  ileapp = some (itunes, no_modules);
  crash_reports = record {
    has_record = false;
    has_dir = false;
    acquisition = none;
    source = none;
    copied = none;
  };
}

fine-Stable : Stable fine
fine-Stable n pw root read hashed again answered = ground arith

abbrev start_at : Slot → Turn
start_at s = record {
  cached_password = "";
  have_cached = false;
  failed_backups = [];
  repair_failures = [];
  found = s;
  changed = [];
}

abbrev nothing : Slot
nothing = record { decrypted = none; ileapp = none; crash_reports = none }

nothing-IsSound : IsSound nothing
nothing-IsSound =
    (λ m e. absurd (ground arith), λ m e. absurd (ground arith), λ m e. absurd (ground arith))

turn-IsSound_example : IsSound (now (turn config tools "phone" fine (start_at nothing)))
turn-IsSound_example =
    turn-IsSound config tools "phone" fine (start_at nothing) fine-Stable refl nothing-IsSound

nothing-stale :
    (root : String)
    → some "root" ≡ some root
    → (is_current nothing.decrypted root || not (is_some nothing.decrypted)) ≡ true
unfolding is_current
nothing-stale root e = refl

turn-AlwaysSound_example :
    AlwaysSound nothing (turn config tools "phone" fine (start_at nothing)).changed
turn-AlwaysSound_example =
    turn-AlwaysSound config tools "phone" fine (start_at nothing) fine-Stable refl nothing-IsSound
      nothing-stale

never_throws : (n : ℕ) → fine.answers.prompt n ≢ none
never_throws n e = ground arith

fine_unfailed :
    has_name "phone" (turn config tools "phone" fine (start_at nothing)).failed_backups ≡ false
unfolding turn decrypt_again ask password_loop attempts attempt_once with_result after_failure
    ran_once cache did clear_stale is_current check_again mark_decrypt derive run_ileapp
    ileapp_again run_crash_reports is_thrown prepare_crash_reports ileapp_is_current fail
fine_unfailed = refl

turn-prepared_example :
    (root : String) × (fine.hash ≡ some root)
    × (is_current (now (turn config tools "phone" fine (start_at nothing))).decrypted root ≡ true)
    × (ileapp_is_current
          (now (turn config tools "phone" fine (start_at nothing))).ileapp
          root
          tools.ileapp
        ≡ true)
turn-prepared_example =
    turn-prepared config tools "phone" fine (start_at nothing) never_throws refl fine_unfailed

abbrev decrypt_marker : String → DecryptMarker
decrypt_marker root = record {
  content_root = root;
  tool = tools.decrypt;
  repair = skipped "no sqlite";
}

abbrev made : String → Slot
made root = record {
  decrypted = some (record { marker = some (decrypt_marker root); made_from = some root });
  ileapp = some (record {
    marker = some (record {
      content_root = root;
      tool = tools.ileapp;
      input_type = itunes;
      modules = no_modules;
    });
    made_from = some root;
  });
  crash_reports = none;
}

root_is_made : is_current (made "root").decrypted "root" ≡ true
unfolding is_current
root_is_made = refl

output_is_made : ileapp_is_current (made "root").ileapp "root" tools.ileapp ≡ true
unfolding ileapp_is_current
output_is_made = refl

turn-reuse_example :
    ((now (turn config tools "phone" fine (start_at (made "root")))).decrypted
      ≡ (made "root").decrypted)
    × ((now (turn config tools "phone" fine (start_at (made "root")))).ileapp
        ≡ (made "root").ileapp)
turn-reuse_example =
    turn-reuse config tools "phone" "root" fine (start_at (made "root")) refl refl refl refl
      root_is_made output_is_made

made-IsSound : IsSound (made "old")
made-IsSound = (
  λ m e. ap (λ (k : DecryptMarker). some k.content_root) (of_some e),
  λ m e. ap (λ (k : IleappMarker). some k.content_root) (of_some e),
  λ m e. absurd (ground arith),
)

turn-stale_example :
    ¬ AlwaysSound (made "old") (turn config tools "phone" fine (start_at (made "old"))).changed
turn-stale_example =
    turn-stale config tools "phone" "root" fine (start_at (made "old")) (decrypt_marker "old")
      fine-Stable refl made-IsSound refl refl refl

abbrev phones : List Backup
phones =
    record { label = "phone"; outside = fine; found = nothing }
    ∷ record { label = "tablet"; outside = fine; found = made "old" }
    ∷ []

run-decrypted_example :
    All (λ (r : BackupResult). r.success ≡ true → r.decrypted ≡ true) (run config tools phones).0
run-decrypted_example = run-decrypted config tools phones (never_throws, (never_throws, tt))
