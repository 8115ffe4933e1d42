-- ===== src/Processor/Pass/Steps.antt =====
-- Every step of a backup's turn keeps the markers sound.
use verichron_epoch.Prelude.{
  ◌≡◌, refl, ap, ◌∙◌, inl, inr, Bool, true, ◌&&◌, List, [], ◌∷◌, Option, none, some, String, arith,
  Option-cases, Bool-cases, str_eq, eq_iff, ◌==◌,
}
use verichron_epoch.Contracts.{DecryptMarker, IleappMarker, CrashReportsAcquisition}
use verichron_epoch.Processor.{
  damage, remove, withdraw, begin, fill, mark, change_folder, content_of, Slot, Change,
  on_decrypted, on_ileapp, on_crash_reports, change, changes,
}
use verichron_epoch.Processor.Sound.{
  FolderIsSound, Unmarked, Unmarked-FolderIsSound, withdraw-Unmarked, remove-Unmarked,
  damage-Unmarked, begin-Unmarked, fill-Unmarked, fill-content_of, mark-FolderIsSound, decrypt_root,
  ileapp_root, reports_root, IsSound, AlwaysSound,
}
use verichron_epoch.Processor.Password.Writes.{is_write, AllWrites}
use verichron_epoch.Processor.CrashReports.{
  CrashReportsSource, TreeHash, marker_for, copy_reports, prepare_crash_reports,
}
use verichron_epoch.Processor.Pass.{start_over}

-- The decrypt's folder while the decrypt is made: no marker, and the others sound.
abbrev pub Making : Slot → Type 0
Making s =
    Unmarked s.decrypted
    × FolderIsSound ileapp_root s.ileapp
    × FolderIsSound reports_root s.crash_reports

pub Making-IsSound : (s : Slot) → Making s → IsSound s
Making-IsSound s (u, i, c) = (Unmarked-FolderIsSound decrypt_root s.decrypted u, i, c)

pub start_over-AlwaysSound :
    (s : Slot) → IsSound s → AlwaysSound s start_over × Making (changes s start_over)
unfolding change changes
start_over-AlwaysSound s (d, i, c) =
    let wd = withdraw-Unmarked s.decrypted in
    let wi =
      Unmarked-FolderIsSound ileapp_root (change_folder s.ileapp withdraw)
        (withdraw-Unmarked s.ileapp) in
    let gone = change_folder s.decrypted withdraw in
    let dd = damage-Unmarked gone wd in
    let rd = remove-Unmarked (change_folder gone damage) in
    let sound_gone = Unmarked-FolderIsSound decrypt_root gone wd in
    let sound_damaged = Unmarked-FolderIsSound decrypt_root (change_folder gone damage) dd in
    let sound_removed =
      Unmarked-FolderIsSound decrypt_root (change_folder (change_folder gone damage) remove) rd in
    (
      (
        (d, i, c),
        (
          (sound_gone, i, c),
          ((sound_gone, wi, c), ((sound_damaged, wi, c), (sound_removed, wi, c))),
        ),
      ),
      (rd, wi, c),
    )

write-Making : (s : Slot) (c : Change) → is_write c ≡ true → Making s → Making (change s c)
unfolding change
write-Making s (on_decrypted begin) w (u, i, c) = (begin-Unmarked s.decrypted u, i, c)
write-Making s (on_decrypted (fill root)) w (u, i, c) = (fill-Unmarked s.decrypted root u, i, c)
write-Making s (on_decrypted damage) w h = absurd (ground arith)
write-Making s (on_decrypted remove) w h = absurd (ground arith)
write-Making s (on_decrypted withdraw) w h = absurd (ground arith)
write-Making s (on_decrypted (mark m)) w h = absurd (ground arith)
write-Making s (on_ileapp x) w h = absurd (ground arith)
write-Making s (on_crash_reports x) w h = absurd (ground arith)

pub writes-AlwaysSound :
    (s : Slot) (cs : List Change)
    → AllWrites cs
    → Making s
    → AlwaysSound s cs × Making (changes s cs)
unfolding changes
writes-AlwaysSound s [] w h = (Making-IsSound s h, h)
writes-AlwaysSound s (c ∷ cs) w h =
    let (rest, making) = writes-AlwaysSound (change s c) cs w.1 (write-Making s c w.0 h) in
    ((Making-IsSound s h, rest), making)

-- Marking the decrypt that was made from the root the marker names.
pub mark-AlwaysSound :
    (s : Slot) (m : DecryptMarker)
    → Making s
    → content_of s.decrypted ≡ some m.content_root
    → AlwaysSound s (on_decrypted (mark m) ∷ [])
unfolding change
mark-AlwaysSound s m (u, i, c) e =
    (Making-IsSound s (u, i, c), (mark-FolderIsSound decrypt_root s.decrypted m e, i, c))

-- The iLEAPP output while it is made again.
ileapp_begin-AlwaysSound :
    (s : Slot) (cs : List Change)
    → IsSound s
    → ((t : Slot) → t.decrypted ≡ s.decrypted → Unmarked t.ileapp → IsSound t → AlwaysSound t cs)
    → AlwaysSound s
        (on_ileapp withdraw ∷ on_ileapp damage ∷ on_ileapp remove ∷ on_ileapp begin ∷ cs)
unfolding change
ileapp_begin-AlwaysSound s cs (d, i, c) rest =
    let f1 = change_folder s.ileapp withdraw in
    let f2 = change_folder f1 damage in
    let f3 = change_folder f2 remove in
    let f4 = change_folder f3 begin in
    let u1 = withdraw-Unmarked s.ileapp in
    let u2 = damage-Unmarked f1 u1 in
    let u3 = remove-Unmarked f2 in
    let u4 = begin-Unmarked f3 u3 in
    let sound = Unmarked-FolderIsSound ileapp_root in
    (
      (d, i, c),
      (
        (d, sound f1 u1, c),
        (
          (d, sound f2 u2, c),
          ((d, sound f3 u3, c), rest (record s { ileapp = f4 }) refl u4 (d, sound f4 u4, c)),
        ),
      ),
    )

pub ileapp_failed-AlwaysSound :
    (s : Slot)
    → IsSound s
    → AlwaysSound s
        (on_ileapp withdraw ∷ on_ileapp damage ∷ on_ileapp remove ∷ on_ileapp begin ∷ [])
ileapp_failed-AlwaysSound s h = ileapp_begin-AlwaysSound s [] h (λ t e u k. k)

pub ileapp_made-AlwaysSound :
    (s : Slot) (m : IleappMarker)
    → IsSound s
    → content_of s.decrypted ≡ some m.content_root
    → AlwaysSound s (
        on_ileapp withdraw
        ∷ on_ileapp damage
        ∷ on_ileapp remove
        ∷ on_ileapp begin
        ∷ on_ileapp (fill (content_of s.decrypted))
        ∷ on_ileapp (mark m)
        ∷ [])
unfolding change
ileapp_made-AlwaysSound s m h e =
    ileapp_begin-AlwaysSound s (on_ileapp (fill (content_of s.decrypted)) ∷ on_ileapp (mark m) ∷ [])
      h made
  where
    made :
        (t : Slot)
        → t.decrypted ≡ s.decrypted
        → Unmarked t.ileapp
        → IsSound t
        → AlwaysSound t (on_ileapp (fill (content_of s.decrypted)) ∷ on_ileapp (mark m) ∷ [])
    made t same u (d, i, c) =
        let root = content_of s.decrypted in
        let f = change_folder t.ileapp (fill root) in
        (
          (d, i, c),
          (
            (d, Unmarked-FolderIsSound ileapp_root f (fill-Unmarked t.ileapp root u), c),
            (d, mark-FolderIsSound ileapp_root f m (fill-content_of t.ileapp root ∙ e), c),
          ),
        )

-- The copy of the crash logs while it is made again.
crash_begin-AlwaysSound :
    (s : Slot) (cs : List Change)
    → IsSound s
    → ((t : Slot) → Unmarked t.crash_reports → IsSound t → AlwaysSound t cs)
    → AlwaysSound s (
        on_crash_reports withdraw
        ∷ on_crash_reports damage
        ∷ on_crash_reports remove
        ∷ on_crash_reports begin
        ∷ cs)
unfolding change
crash_begin-AlwaysSound s cs (d, i, c) rest =
    let f1 = change_folder s.crash_reports withdraw in
    let f2 = change_folder f1 damage in
    let f3 = change_folder f2 remove in
    let f4 = change_folder f3 begin in
    let u1 = withdraw-Unmarked s.crash_reports in
    let u2 = damage-Unmarked f1 u1 in
    let u3 = remove-Unmarked f2 in
    let u4 = begin-Unmarked f3 u3 in
    let sound = Unmarked-FolderIsSound reports_root in
    (
      (d, i, c),
      (
        (d, i, sound f1 u1),
        (
          (d, i, sound f2 u2),
          ((d, i, sound f3 u3), rest (record s { crash_reports = f4 }) u4 (d, i, sound f4 u4)),
        ),
      ),
    )

copy_reports-AlwaysSound :
    (s : Slot) (root : String) (a : CrashReportsAcquisition) (source : TreeHash)
    (copied : Option TreeHash)
    → IsSound s
    → AlwaysSound s (copy_reports root a source copied).0
unfolding change copy_reports marker_for
copy_reports-AlwaysSound s root a source none h = crash_begin-AlwaysSound s [] h (λ t u k. k)
copy_reports-AlwaysSound s root a source (some copy) h =
    elim (Bool-cases (str_eq copy.content_root source.content_root)) [
      | inl same ↦ rw same (
          crash_begin-AlwaysSound s
            (on_crash_reports (fill (some copy.content_root))
              ∷ on_crash_reports (mark (marker_for root a source.content_root))
              ∷ [])
            h (made same))
      | inr differs ↦ rw differs (
          crash_begin-AlwaysSound s (on_crash_reports (fill (some copy.content_root)) ∷ []) h
            unmarked)
    ]
  where
    unmarked :
        (t : Slot)
        → Unmarked t.crash_reports
        → IsSound t
        → AlwaysSound t (on_crash_reports (fill (some copy.content_root)) ∷ [])
    unmarked t u (d, i, c) =
        let root = some copy.content_root in
        let f = change_folder t.crash_reports (fill root) in
        (
          (d, i, c),
          (d, i, Unmarked-FolderIsSound reports_root f (fill-Unmarked t.crash_reports root u)),
        )

    made :
        str_eq copy.content_root source.content_root ≡ true
        → (t : Slot) → Unmarked t.crash_reports
        → IsSound t
        → AlwaysSound t (
            on_crash_reports (fill (some copy.content_root))
            ∷ on_crash_reports (mark (marker_for root a source.content_root))
            ∷ [])
    made same t u (d, i, c) =
        let files = some copy.content_root in
        let f = change_folder t.crash_reports (fill files) in
        (
          (d, i, c),
          (
            (d, i, Unmarked-FolderIsSound reports_root f (fill-Unmarked t.crash_reports files u)),
            (
              d,
              i,
              mark-FolderIsSound reports_root f (marker_for root a source.content_root) (
                  fill-content_of t.crash_reports files
                  ∙ ap some ((eq_iff copy.content_root source.content_root).0 same)),
            ),
          ),
        )

pub crash_reports-AlwaysSound :
    (s : Slot) (c : CrashReportsSource) (root : String) (force : Bool)
    → IsSound s
    → AlwaysSound s (prepare_crash_reports s.crash_reports c root force).0
unfolding prepare_crash_reports
crash_reports-AlwaysSound s c root force h = elim (Bool-cases c.has_record) [
  | inr missing ↦ rw missing h
  | inl there ↦ elim (Option-cases c.acquisition) [
    | inl unread ↦ rw (there, unread) h
    | inr (a, read) ↦ elim (Option-cases c.source) [
      | inl unhashed ↦ rw (there, read, unhashed) h
      | inr (source, hashed) ↦
          elim (Bool-cases (source.file_count == a.files && source.total_bytes == a.bytes)) [
            | inr changed ↦ rw (there, read, hashed, changed) h
            | inl same ↦
                rw (there, read, hashed, same)
                  (ground (arith, copy_reports-AlwaysSound s root a source c.copied h))
          ]
    ]
  ]
]
