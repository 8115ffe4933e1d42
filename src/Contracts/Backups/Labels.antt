-- ===== src/Contracts/Backups/Labels.antt =====
-- The labels that packages/contracts/ts/discoverBackups.ts gives the backups it finds.
use mathlib.Core.List.{Memᴰ}
use mathlib.Core.List.Memᴰ.{head, tail}
use verichron_epoch.Prelude.{◌≡◌, ◌≢◌, refl, Bool, true, false, [], ◌∷◌, ◌++◌, none, Text, codes}
use verichron_epoch.Contracts.Backups.{
  Directory, directory, Entries, nil, folder, Backup, find_backup_roots, found_in, discover_backups,
}
use verichron_epoch.Contracts.Backups.Found.{sort-to}

abbrev a_backup : Directory
a_backup = directory true true nil

-- An entry `top` that holds two backups: `y` within `x`, and one whose name is theirs, joined.
abbrev pub colliding : Text → Text → Text → Entries
colliding top x y =
    folder top
      (directory false true (
        folder x (directory false true (folder y a_backup nil))
          (folder (x ++ codes "__" ++ y) a_backup nil)))
      nil

-- Two backups in different directories can be given one label: an entry with a backup `y` in a folder
-- `x` and another in a folder `x__y` has two with the label that joins the three names, whatever the
-- names are.
pub discover_backups-same_label :
    (le : Text → Text → Bool) (top x y : Text)
    → let found = discover_backups le (colliding top x y) none in
      (b : Backup) × (b' : Backup) × Memᴰ b found
      × Memᴰ b' found
      × (b.label ≡ b'.label)
      × (b.path ≢ b'.path)
unfolding discover_backups found_in find_backup_roots
discover_backups-same_label le top x y =
    let label : Text = top ++ codes "__" ++ (x ++ codes "__" ++ y) in
    let b : Backup = record { label = label; path = top ∷ x ∷ y ∷ [] } in
    let b' : Backup = record { label = label; path = top ∷ (x ++ codes "__" ++ y) ∷ [] } in
    (
      b,
      b',
      sort-to le (found_in none (colliding top x y)) b (head refl),
      sort-to le (found_in none (colliding top x y)) b' (tail (head refl)),
      refl,
      λ e. cc,
    )
