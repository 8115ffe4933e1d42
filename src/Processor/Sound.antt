-- ===== src/Processor/Sound.antt =====
-- What a completion marker vouches for, at one instant and at every instant of a list of changes.
use verichron_epoch.Prelude.{
  ◌≡◌, refl, sym, ap, ◌∙◌, List, [], ◌∷◌, ◌++◌, Option, none, some, String, of_some, arith,
}
use verichron_epoch.Contracts.{DecryptMarker, IleappMarker, CrashReportsMarker}
use verichron_epoch.Processor.{
  Folder, damage, remove, withdraw, begin, fill, mark, change_folder, marker_of, content_of, Slot,
  Change, change, changes,
}

-- A marker vouches for files that were really made from the root it names.
abbrev pub FolderIsSound : {M : Type 0} → (M → String) → Option (Folder M) → Type 0
FolderIsSound {M} root_of f = (m : M) → marker_of f ≡ some m → content_of f ≡ some (root_of m)

abbrev pub Unmarked : {M : Type 0} → Option (Folder M) → Type 0
Unmarked f = marker_of f ≡ none

pub Unmarked-FolderIsSound :
    {M : Type 0} (root_of : M → String) (f : Option (Folder M))
    → Unmarked f
    → FolderIsSound root_of f
Unmarked-FolderIsSound root_of f u m e = absurd (ground arith)

pub withdraw-Unmarked : {M : Type 0} (f : Option (Folder M)) → Unmarked (change_folder f withdraw)
unfolding change_folder
withdraw-Unmarked none = refl
withdraw-Unmarked (some f) = refl

pub remove-Unmarked : {M : Type 0} (f : Option (Folder M)) → Unmarked (change_folder f remove)
unfolding change_folder
remove-Unmarked f = refl

pub damage-Unmarked :
    {M : Type 0} (f : Option (Folder M)) → Unmarked f → Unmarked (change_folder f damage)
unfolding change_folder
damage-Unmarked none u = refl
damage-Unmarked (some f) u = u

pub begin-Unmarked :
    {M : Type 0} (f : Option (Folder M)) → Unmarked f → Unmarked (change_folder f begin)
unfolding change_folder
begin-Unmarked none u = refl
begin-Unmarked (some f) u = u

pub fill-Unmarked :
    {M : Type 0} (f : Option (Folder M)) (root : Option String)
    → Unmarked f
    → Unmarked (change_folder f (fill root))
unfolding change_folder
fill-Unmarked none root u = refl
fill-Unmarked (some f) root u = u

pub fill-content_of :
    {M : Type 0} (f : Option (Folder M)) (root : Option String)
    → content_of (change_folder f (fill root)) ≡ root
unfolding change_folder
fill-content_of none root = refl
fill-content_of (some f) root = refl

pub mark-content_of :
    {M : Type 0} (f : Option (Folder M)) (m : M)
    → content_of (change_folder f (mark m)) ≡ content_of f
unfolding change_folder
mark-content_of none m = refl
mark-content_of (some f) m = refl

pub mark-marker_of :
    {M : Type 0} (f : Option (Folder M)) (m : M) → marker_of (change_folder f (mark m)) ≡ some m
unfolding change_folder
mark-marker_of none m = refl
mark-marker_of (some f) m = refl

pub mark-FolderIsSound :
    {M : Type 0} (root_of : M → String) (f : Option (Folder M)) (m : M)
    → content_of f ≡ some (root_of m)
    → FolderIsSound root_of (change_folder f (mark m))
mark-FolderIsSound root_of f m c n e =
    mark-content_of f m ∙ c ∙ ap (λ k. some (root_of k)) (of_some (sym (mark-marker_of f m) ∙ e))

abbrev pub decrypt_root : DecryptMarker → String
decrypt_root m = m.content_root

abbrev pub ileapp_root : IleappMarker → String
ileapp_root m = m.content_root

-- Crash logs are no part of the backup: their files are named by the root of the pull's folder.
abbrev pub reports_root : CrashReportsMarker → String
reports_root m = m.params.reports_root

abbrev pub IsSound : Slot → Type 0
IsSound s =
    FolderIsSound decrypt_root s.decrypted
    × FolderIsSound ileapp_root s.ileapp
    × FolderIsSound reports_root s.crash_reports

-- Sound before the changes, after them, and between any two: wherever the process is killed.
abbrev pub AlwaysSound : Slot → List Change → Type 0
AlwaysSound s [] = IsSound s
AlwaysSound s (c ∷ cs) = IsSound s × AlwaysSound (change s c) cs

pub changes-append :
    (s : Slot) (cs ds : List Change) → changes s (cs ++ ds) ≡ changes (changes s cs) ds
unfolding changes
changes-append s [] ds = refl
changes-append s (c ∷ cs) ds = changes-append (change s c) cs ds

pub AlwaysSound-append :
    (s : Slot) (cs ds : List Change)
    → AlwaysSound s cs
    → AlwaysSound (changes s cs) ds
    → AlwaysSound s (cs ++ ds)
unfolding changes
AlwaysSound-append s [] ds h k = k
AlwaysSound-append s (c ∷ cs) ds h k = (h.0, AlwaysSound-append (change s c) cs ds h.1 k)

pub AlwaysSound-changes : (s : Slot) (cs : List Change) → AlwaysSound s cs → IsSound (changes s cs)
unfolding changes
AlwaysSound-changes s [] h = h
AlwaysSound-changes s (c ∷ cs) h = AlwaysSound-changes (change s c) cs h.1
