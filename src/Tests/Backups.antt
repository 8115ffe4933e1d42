-- ===== src/Tests/Backups.antt =====
-- The theorems on the discovery of backups at concrete inputs.
use mathlib.Core.List.{Memᴰ}
use verichron_epoch.Prelude.{
  ◌≡◌, ◌≢◌, ◌↔◌, Bool, true, false, List, [], ◌∷◌, none, Text, codes, leb, length,
}
use verichron_epoch.Contracts.Backups.{
  directory, Entries, nil, file, folder, Backup, backup_search_max_depth, discover_backups,
}
use verichron_epoch.Contracts.Backups.Found.{RootIn, discover_backups-RootIn}
use verichron_epoch.Contracts.Backups.Labels.{colliding, discover_backups-same_label}

abbrev shorter : Text → Text → Bool
shorter a b = leb (length a) (length b)

abbrev source : Entries
source = file (codes "notes.txt") (
    folder (codes "phone")
      (directory false true (folder (codes "00008") (directory true true nil) nil)) nil)

abbrev place : List Text
place = codes "phone" ∷ codes "00008" ∷ []

discover_backups-RootIn_example :
    ((b : Backup) × Memᴰ b (discover_backups shorter source none) × (b.path ≡ place))
    ↔ RootIn source backup_search_max_depth place
discover_backups-RootIn_example = discover_backups-RootIn shorter source place

discover_backups-same_label_example :
    let found = discover_backups shorter (colliding (codes "june") (codes "a") (codes "b")) none in
    (b : Backup) × (b' : Backup) × Memᴰ b found
    × Memᴰ b' found
    × (b.label ≡ b'.label)
    × (b.path ≢ b'.path)
discover_backups-same_label_example =
    discover_backups-same_label shorter (codes "june") (codes "a") (codes "b")
