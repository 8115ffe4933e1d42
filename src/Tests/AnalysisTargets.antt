-- ===== src/Tests/AnalysisTargets.antt =====
-- The theorems on the choice of an analysis' backups at concrete inputs.
use verichron_epoch.Prelude.{
  ◌≡◌, ◌≢◌, ◌&&◌, refl, true, List, [], ◌∷◌, map, Option, none, some, Text, codes, All,
}
use verichron_epoch.AnalysisTargets.Sorting.{IsSorted, IsDistinct}
use verichron_epoch.AnalysisTargets.{
  has, is_backup_name, ready, Listed, Stamp, text_le, insert_by, sort_by, unique,
  read_prepared_backups, Argument, name, targets, target_in, analysis_targets, analysis_selection,
}
use verichron_epoch.AnalysisTargets.Offered.{
  IsTarget, analysis_targets-All, analysis_selection-analysis_targets,
}

-- `path.basename`, for names without a separator.
abbrev same_name : Text → Text
same_name s = s

abbrev made : Option Stamp
made = some (record { content_root = "root"; completed_at = "2026-11-01T00:00:00Z" })

abbrev listing : Option (List Listed)
listing = some (
    record { name = codes "b"; is_directory = true; decrypt = made; ileapp = made }
    ∷ record { name = codes "a"; is_directory = true; decrypt = made; ileapp = made }
    ∷ record { name = codes "c"; is_directory = true; decrypt = made; ileapp = none }
    ∷ [])

abbrev workspace : List Text
workspace = codes "cases" ∷ []

abbrev asked : List Argument
asked = name (codes "b") ∷ name (codes "b") ∷ []

abbrev read : List (List Text)
read = target_in same_name workspace (codes "b") ∷ []

accepted : analysis_targets same_name workspace listing asked ≡ targets read
unfolding analysis_targets read_prepared_backups sort_by insert_by unique
accepted = refl

analysis_targets-All_example :
    All (IsTarget same_name workspace (read_prepared_backups listing)) read
analysis_targets-All_example = analysis_targets-All same_name workspace listing asked read accepted

abbrev included : List Text
included =
    (analysis_selection text_le (codes "b" ∷ codes "a" ∷ [])
      (read_prepared_backups listing)).included

some_included : included ≢ []
unfolding analysis_selection read_prepared_backups sort_by insert_by unique
some_included e = cc

plain_labels : All (λ l. is_backup_name same_name l ≡ true) (ready (read_prepared_backups listing))
unfolding read_prepared_backups sort_by insert_by
plain_labels = (refl, (refl, tt))

analysis_selection-analysis_targets_example :
    (analysis_targets same_name workspace listing (map name included)
      ≡ targets (map (target_in same_name workspace) included))
    × (has included (codes "b") ≡ (
        has (codes "b" ∷ codes "a" ∷ []) (codes "b")
        && has (ready (read_prepared_backups listing)) (codes "b")))
    × IsDistinct included
    × IsSorted included
analysis_selection-analysis_targets_example =
    analysis_selection-analysis_targets same_name text_le workspace listing
      (codes "b" ∷ codes "a" ∷ []) (codes "b") plain_labels some_included
