-- ===== src/Processor.antt =====
-- apps/processor/src: the pass over the backups. The workspace's folders of one backup, and the
-- changes that the pass makes to them, one after another.
pub mod Password
pub mod CrashReports
pub mod Sound
pub mod Pass
pub mod Run
pub mod Ileapp
use verichron_epoch.Prelude.{
  ℕ, ◌≡◌, Bool, true, false, List, [], ◌∷◌, ◌++◌, Option, none, some, String, str_eq, if◌then◌else◌,
}
use verichron_epoch.Contracts.{DecryptMarker, IleappMarker, CrashReportsMarker}

-- A derivative's folder: its completion marker, and what its files are. `made_from` is the content
-- root that they were really made from, and `none` while they are not whole; the code never sees
-- it, it is there to state what a marker vouches for.
pub record Folder (M : Type 0) : Type 0 where
  pub marker : Option M
  pub made_from : Option String

pub data FolderChange (M : Type 0) : Type 0 where
  -- a recursive removal that is under way: files are gone, the marker may still be there
  damage : FolderChange M
  remove : FolderChange M
  -- the marker alone is removed
  withdraw : FolderChange M
  -- a tool has started to write into the folder
  begin : FolderChange M
  -- the tool is done: the files are whole
  fill : Option String → FolderChange M
  mark : M → FolderChange M

module _ {M : Type 0} where
  unfoldable pub change_folder : Option (Folder M) → FolderChange M → Option (Folder M)
  change_folder none damage = none
  change_folder (some f) damage = some (record f { made_from = none })
  change_folder f remove = none
  change_folder none withdraw = none
  change_folder (some f) withdraw = some (record f { marker = none })
  change_folder none begin = some (record { marker = none; made_from = none })
  change_folder (some f) begin = some (record f { made_from = none })
  change_folder none (fill root) = some (record { marker = none; made_from = root })
  change_folder (some f) (fill root) = some (record f { made_from = root })
  change_folder none (mark m) = some (record { marker = some m; made_from = none })
  change_folder (some f) (mark m) = some (record f { marker = some m })

  abbrev pub marker_of : Option (Folder M) → Option M
  marker_of none = none
  marker_of (some f) = f.marker

  abbrev pub content_of : Option (Folder M) → Option String
  content_of none = none
  content_of (some f) = f.made_from

-- The folders decrypted/<name>, ileapp/<name> and crash_reports/<name> of a workspace.
pub record Slot : Type 0 where
  pub decrypted : Option (Folder DecryptMarker)
  pub ileapp : Option (Folder IleappMarker)
  pub crash_reports : Option (Folder CrashReportsMarker)

pub data Change : Type 0 where
  on_decrypted : FolderChange DecryptMarker → Change
  on_ileapp : FolderChange IleappMarker → Change
  on_crash_reports : FolderChange CrashReportsMarker → Change

unfoldable pub change : Slot → Change → Slot
unfolding change_folder
change s (on_decrypted c) = record s { decrypted = change_folder s.decrypted c }
change s (on_ileapp c) = record s { ileapp = change_folder s.ileapp c }
change s (on_crash_reports c) = record s { crash_reports = change_folder s.crash_reports c }

unfoldable pub changes : Slot → List Change → Slot
changes s [] = s
changes s (c ∷ cs) = changes (change s c) cs

-- `set.add(name)`
unfoldable pub add_name : String → List String → List String
add_name name [] = name ∷ []
add_name name (n ∷ ns) = if str_eq n name then n ∷ ns else n ∷ add_name name ns

abbrev pub has_name : String → List String → Bool
has_name name [] = false
has_name name (n ∷ ns) = if str_eq n name then true else has_name name ns
