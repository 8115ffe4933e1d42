-- ===== src/Processor/Pass.antt =====
-- One backup's turn in `runBackups` of apps/processor/src/main.ts.
pub mod Steps
pub mod Extension
pub mod Soundness
pub mod Completeness
pub mod Stale
use verichron_epoch.Prelude.{
  Bool, true, false, ◌&&◌, not, List, [], ◌∷◌, ◌++◌, Option, none, some, String, str_eq, ltb,
  is_some, if◌then◌else◌, length,
}
use verichron_epoch.Contracts.{
  ToolVersion, RepairProvenance, skipped, ran, IleappModules, InputType, DecryptMarker,
  IleappMarker,
}
use verichron_epoch.Processor.{
  Slot, Folder, Change, on_decrypted, on_ileapp, on_crash_reports, marker_of, content_of, damage,
  withdraw, remove, begin, fill, mark, changes, add_name,
}
use verichron_epoch.Processor.Password.{Answers, password_loop}
use verichron_epoch.Processor.CrashReports.{
  CrashReportsSource, CrashReportsOutcome, thrown, prepare_crash_reports,
}

pub record Config : Type 0 where
  pub same_pass : Bool
  pub force_decrypt : Bool
  pub force : Bool

pub record Tools : Type 0 where
  pub decrypt : ToolVersion
  pub ileapp : ToolVersion

-- What the outside does in one backup's turn; `none` is a call that throws.
pub record Outside : Type 0 where
  pub hash : Option String
  pub answers : Answers
  pub recheck : Option String
  pub repair : Option RepairProvenance
  pub ileapp : Option (InputType × IleappModules)
  pub crash_reports : CrashReportsSource

-- The variables of `runBackups`, and this backup's folders as the turn found them and what it has
-- done to them since.
pub record Turn : Type 0 where
  pub cached_password : String
  pub have_cached : Bool
  pub failed_backups : List String
  pub repair_failures : List (String × List String)
  pub found : Slot
  pub changed : List Change

abbrev pub now : Turn → Slot
now s = changes s.found s.changed

unfoldable pub did : Turn → List Change → Turn
did s cs = record s { changed = s.changed ++ cs }

unfoldable pub fail : String → Turn → Turn
fail name s = record s { failed_backups = add_name name s.failed_backups }

-- `continue`, or on to the next step.
pub data Step : Type 0 where
  next_backup : Turn → Step
  go_on : Turn → Step

-- `previousDecrypt?.content_root === contentRoot`
unfoldable pub is_current : Option (Folder DecryptMarker) → String → Bool
is_current d root = elim (marker_of d) [ none ↦ false | some m ↦ str_eq m.content_root root ]

-- The stale decrypt, and all that was built on it, is removed as a whole.
unfoldable pub clear_stale : Slot → String → List Change
unfolding is_current
clear_stale slot root =
    if not (is_current slot.decrypted root) && is_some slot.decrypted
    then on_decrypted damage
      ∷ on_decrypted remove
      ∷ on_ileapp damage
      ∷ on_ileapp remove
      ∷ on_crash_reports damage
      ∷ on_crash_reports remove
      ∷ []
    else []

-- The two markers are withdrawn, and then the decrypt's folder is removed.
abbrev pub start_over : List Change
start_over =
    on_decrypted withdraw ∷ on_ileapp withdraw ∷ on_decrypted damage ∷ on_decrypted remove ∷ []

unfoldable pub ask : Config → String → Answers → Turn → Turn × Bool
unfolding password_loop
ask cfg name answers s =
    let l = password_loop cfg.same_pass name answers (record {
      cached_password = s.cached_password;
      have_cached = s.have_cached;
      failed_backups = s.failed_backups;
      decrypted = false;
      runs = 0;
      changes = [];
    }) in
    (
      record s {
        cached_password = l.cached_password;
        have_cached = l.have_cached;
        failed_backups = l.failed_backups;
        changed = s.changed ++ l.changes;
      },
      l.decrypted,
    )

unfoldable pub check_again : String → String → Option String → Turn → Step
unfolding fail
check_again name root none s = next_backup (fail name s)
check_again name root (some again) s =
    if str_eq again root then go_on s else next_backup (fail name s)

unfoldable pub mark_decrypt : Tools → String → String → Option RepairProvenance → Turn → Step
unfolding fail did
mark_decrypt tools name root none s = next_backup (fail name s)
mark_decrypt tools name root (some (skipped reason)) s = go_on (
    did s (
      on_decrypted
        (mark (record { content_root = root; tool = tools.decrypt; repair = skipped reason }))
      ∷ []))
mark_decrypt tools name root (some (ran tool scanned repaired files failed_files)) s =
    let s' = if ltb 0 (length failed_files) then fail name s else s in
    go_on (
      did (record s' { repair_failures = (name, failed_files) ∷ s.repair_failures })
        (on_decrypted (
            mark (record {
              content_root = root;
              tool = tools.decrypt;
              repair = ran tool scanned repaired files failed_files;
            }))
          ∷ []))

-- A decrypt that runs again, from the stale folders to the new marker.
unfoldable pub decrypt_again : Config → Tools → String → String → Outside → Turn → Step
unfolding clear_stale did ask check_again mark_decrypt
decrypt_again cfg tools name root o s =
    let (s', decrypted) = ask cfg name o.answers (did s (clear_stale s.found root ++ start_over)) in
    if decrypted
    then (elim (check_again name root o.recheck s') [
      | next_backup t ↦ next_backup t
      | go_on t ↦ mark_decrypt tools name root o.repair t
    ])
    else next_backup s'

-- What a reused decrypt's marker says of its repair.
unfoldable pub reuse_decrypt : String → Turn → Turn
reuse_decrypt name s = elim (marker_of s.found.decrypted) [
  | none ↦ s
  | some m ↦ elim m.repair [
    | skipped reason ↦ s
    | ran tool scanned repaired files failed_files ↦ record s {
      repair_failures = (name, failed_files) ∷ s.repair_failures;
    }
  ]
]

unfoldable pub ileapp_is_current : Option (Folder IleappMarker) → String → ToolVersion → Bool
ileapp_is_current f root tool = elim (marker_of f) [
  | none ↦ false
  | some m ↦ str_eq m.content_root root && str_eq m.tool.version tool.version
]

unfoldable pub ileapp_again :
    Tools → String → String → Option (InputType × IleappModules) → Turn → Turn
unfolding did fail
ileapp_again tools name root none s =
    fail name
      (did s (on_ileapp withdraw ∷ on_ileapp damage ∷ on_ileapp remove ∷ on_ileapp begin ∷ []))
ileapp_again tools name root (some (input_type, modules)) s = did s (
    on_ileapp withdraw
    ∷ on_ileapp damage
    ∷ on_ileapp remove
    ∷ on_ileapp begin
    ∷ on_ileapp (fill (content_of (now s).decrypted))
    ∷ on_ileapp (
        mark (record {
          content_root = root;
          tool = tools.ileapp;
          input_type = input_type;
          modules = modules;
        }))
    ∷ [])

unfoldable pub run_ileapp : Config → Tools → String → String → Bool → Outside → Turn → Turn
unfolding ileapp_is_current ileapp_again
run_ileapp cfg tools name root decrypt_ran o s =
    if not cfg.force && not decrypt_ran && ileapp_is_current (now s).ileapp root tools.ileapp
    then s
    else ileapp_again tools name root o.ileapp s

unfoldable pub is_thrown : CrashReportsOutcome → Bool
is_thrown thrown = true
is_thrown _ = false

unfoldable pub run_crash_reports : Config → String → String → Outside → Turn → Turn
unfolding did fail is_thrown
run_crash_reports cfg name root o s =
    let (cs, outcome) =
      prepare_crash_reports (now s).crash_reports o.crash_reports root cfg.force in
    if is_thrown outcome then fail name (did s cs) else did s cs

unfoldable pub derive : Config → Tools → String → String → Bool → Outside → Turn → Turn
unfolding run_ileapp run_crash_reports
derive cfg tools name root decrypt_ran o s =
    run_crash_reports cfg name root o (run_ileapp cfg tools name root decrypt_ran o s)

unfoldable pub turn : Config → Tools → String → Outside → Turn → Turn
unfolding fail decrypt_again derive reuse_decrypt is_current
turn cfg tools name o s = elim o.hash [
  | none ↦ fail name s
  | some root ↦
      if not cfg.force_decrypt && is_current s.found.decrypted root
      then derive cfg tools name root false o (reuse_decrypt name s)
      else (elim (decrypt_again cfg tools name root o s) [
        | next_backup t ↦ t
        | go_on t ↦ derive cfg tools name root true o t
      ])
]
