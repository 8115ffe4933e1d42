-- ===== src/Processor/CrashReports.antt =====
-- prepareCrashReports of apps/processor/src/utils/crashReports.ts.
use verichron_epoch.Prelude.{
  ℕ, Bool, false, ◌&&◌, not, List, [], ◌∷◌, Option, none, some, String, ◌==◌, str_eq, if◌then◌else◌,
}
use verichron_epoch.Contracts.{CrashReportsAcquisition, CrashReportsMarker}
use verichron_epoch.Processor.{
  Folder, Change, on_crash_reports, marker_of, damage, withdraw, remove, begin, fill, mark,
}

-- `hashTree` of a folder.
pub record TreeHash : Type 0 where
  pub content_root : String
  pub total_bytes : ℕ
  pub file_count : ℕ

-- What the pull left beside the backup, and how copying it goes.
pub record CrashReportsSource : Type 0 where
  pub has_record : Bool
  pub has_dir : Bool
  -- `none` where the record does not parse
  pub acquisition : Option CrashReportsAcquisition
  -- `none` where the folder cannot be hashed
  pub source : Option TreeHash
  -- the hash of the copy, `none` where copying or hashing it throws
  pub copied : Option TreeHash

pub data CrashReportsOutcome : Type 0 where
  -- `status: 'none'`, with whether its message names a folder that has no record
  absent : Bool → CrashReportsOutcome
  reused copied : ℕ → String → CrashReportsOutcome
  -- the call throws
  thrown : CrashReportsOutcome

-- `previous?.content_root === contentRoot && previous.params.reports_root === source.contentRoot`
is_copied : Option CrashReportsMarker → String → String → Bool
is_copied none content_root reports_root = false
is_copied (some m) content_root reports_root =
    str_eq m.content_root content_root && str_eq m.params.reports_root reports_root

unfoldable pub marker_for : String → CrashReportsAcquisition → String → CrashReportsMarker
marker_for content_root a reports_root = record {
  content_root = content_root;
  tool = a.tool;
  params = record {
    acquired_at = a.acquired_at;
    backup_finished_at = a.backup_finished_at;
    files = a.files;
    bytes = a.bytes;
    reports_root = reports_root;
  };
}

unfoldable pub copy_reports :
    String
    → CrashReportsAcquisition
    → TreeHash
    → Option TreeHash
    → List Change × CrashReportsOutcome
copy_reports content_root a source none = (
  on_crash_reports withdraw
      ∷ on_crash_reports damage
      ∷ on_crash_reports remove
      ∷ on_crash_reports begin
      ∷ [],
  thrown,
)
copy_reports content_root a source (some copy) =
    if str_eq copy.content_root source.content_root
    then (
      on_crash_reports withdraw
          ∷ on_crash_reports damage
          ∷ on_crash_reports remove
          ∷ on_crash_reports begin
          ∷ on_crash_reports (fill (some copy.content_root))
          ∷ on_crash_reports (mark (marker_for content_root a source.content_root))
          ∷ [],
      copied source.file_count source.content_root,
    )
    else (
      on_crash_reports withdraw
          ∷ on_crash_reports damage
          ∷ on_crash_reports remove
          ∷ on_crash_reports begin
          ∷ on_crash_reports (fill (some copy.content_root))
          ∷ [],
      thrown,
    )

unfoldable pub prepare_crash_reports :
    Option (Folder CrashReportsMarker)
    → CrashReportsSource
    → String
    → Bool
    → List Change × CrashReportsOutcome
unfolding is_copied copy_reports
prepare_crash_reports dest c content_root force =
    if not c.has_record then ([], absent c.has_dir) else (elim c.acquisition [
      | none ↦ ([], thrown)
      | some a ↦ elim c.source [
        | none ↦ ([], thrown)
        | some source ↦
            if source.file_count == a.files && source.total_bytes == a.bytes
            then if not force && is_copied (marker_of dest) content_root source.content_root
              then ([], reused source.file_count source.content_root)
              else copy_reports content_root a source c.copied
            else ([], thrown)
      ]
    ])
