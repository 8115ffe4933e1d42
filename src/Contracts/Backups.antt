-- ===== src/Contracts/Backups.antt =====
-- packages/contracts/ts/discoverBackups.ts: the backups of a source directory. A directory is
-- whether it looks like a backup, whether it can be listed, and its entries.
pub mod Found
pub mod Labels
use verichron_epoch.Prelude.{
  ℕ, zero, suc, ◌<◌, Bool, true, false, not, ◌&&◌, ◌||◌, List, [], ◌∷◌, ◌++◌, map, any, Option,
  none, some, Text, codes, text_eq, ltb, length, keep, if◌then◌else◌, ◌==◌,
}
use verichron_epoch.Lines.{cons_first}
use verichron_epoch.PrepareProgress.Patterns.{skip_spaces, trim_end}

mutual
  -- Whether it holds a Manifest.db or an Info.plist, and whether `readdir` works.
  pub data Directory : Type 0 where
    directory : Bool → Bool → Entries → Directory

  pub data Entries : Type 0 where
    nil : Entries
    file : Text → Entries → Entries
    folder : Text → Directory → Entries → Entries

abbrev pub backup_search_max_depth : ℕ
backup_search_max_depth = 3

unfoldable mutual
  pub find_backup_roots : Directory → ℕ → List (List Text)
  find_backup_roots (directory true lists es) depth = [] ∷ []
  find_backup_roots (directory false lists es) zero = []
  find_backup_roots (directory false false es) (suc depth) = []
  find_backup_roots (directory false true es) (suc depth) = find_in es depth

  pub find_in : Entries → ℕ → List (List Text)
  find_in nil depth = []
  find_in (file name es) depth = find_in es depth
  find_in (folder name dir es) depth =
      map (λ (p : List Text). name ∷ p) (find_backup_roots dir depth) ++ find_in es depth

-- `path.relative(topPath, root).split(path.sep).join('__')`
abbrev pub join : List Text → Text
join [] = []
join (name ∷ []) = name
join (name ∷ other ∷ names) = name ++ codes "__" ++ join (other ∷ names)

pub record Backup : Type 0 where
  pub label : Text
  pub path : List Text

abbrev pub label_of : Text → ℕ → List Text → Text
label_of name roots root = if ltb 1 roots then name ++ codes "__" ++ join root else name

-- `only`, where it is given.
abbrev pub Wanted : Type 0
Wanted = Option (List Text)

-- `split(',')`
unfoldable pub split_commas : Text → List Text
split_commas [] = [] ∷ []
split_commas (c ∷ s) =
    let rest = split_commas s in if c == b',' then [] ∷ rest else cons_first c rest

unfoldable pub wanted_of : Text → Wanted
unfolding split_commas skip_spaces trim_end
wanted_of [] = none
wanted_of (c ∷ s) = some (map (λ name. trim_end (skip_spaces name)) (split_commas (c ∷ s)))

abbrev pub has : List Text → Text → Bool
has names name = any (text_eq name) names

abbrev pub is_wanted : Wanted → Text → Text → Bool
is_wanted none label name = true
is_wanted (some names) label name = has names label || has names name

-- The backups of one entry of the source, the paths from the source down.
abbrev pub backups_of : Text → ℕ → List (List Text) → List Backup
backups_of name roots [] = []
backups_of name roots (root ∷ rest) =
    record { label = label_of name roots root; path = name ∷ root } ∷ backups_of name roots rest

abbrev pub wanted_backups : Wanted → Text → List Backup → List Backup
wanted_backups wanted name = keep (λ b. is_wanted wanted b.label name)

unfoldable pub found_in : Wanted → Entries → List Backup
unfolding find_backup_roots
found_in wanted nil = []
found_in wanted (file name es) = found_in wanted es
found_in wanted (folder name dir es) =
    let roots = find_backup_roots dir backup_search_max_depth in
    wanted_backups wanted name (backups_of name (length roots) roots) ++ found_in wanted es

-- `localeCompare(a, b) <= 0` is a parameter; the sort is stable.
module _ (le : Text → Text → Bool) where
  unfoldable pub insert_backup : Backup → List Backup → List Backup
  insert_backup b [] = b ∷ []
  insert_backup b (c ∷ cs) =
      let rest = insert_backup b cs in if le b.label c.label then b ∷ c ∷ cs else c ∷ rest

  unfoldable pub sort_backups : List Backup → List Backup
  unfolding insert_backup
  sort_backups [] = []
  sort_backups (b ∷ bs) = insert_backup b (sort_backups bs)

  unfoldable pub discover_backups : Entries → Wanted → List Backup
  unfolding found_in sort_backups
  discover_backups source wanted = sort_backups (found_in wanted source)
