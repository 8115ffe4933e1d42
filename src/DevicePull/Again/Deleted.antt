-- ===== src/DevicePull/Again/Deleted.antt =====
-- What the deletion of an incomplete backup of
-- apps/epoch/src/main/tools/device-backup/ios/iosBackupSource.ts may remove.
use verichron_epoch.Prelude.{
  ℕ, ◌≡◌, ◌⊎◌, refl, inl, inr, Bool, true, false, ◌∷◌, Option, none, some, String, Text, arith,
  str_eq, Bool-cases,
}
use verichron_epoch.DevicePull.{
  Folder, absent, unreachable, folder, no_status, unreadable, snapshot, Checked, raises, gives,
}
use verichron_epoch.DevicePull.Pull.{
  IosBackupSource, Destination, incomplete_deleted, is_identifier,
}
use verichron_epoch.DevicePull.Again.{
  DeleteError, deletion_unrecorded, not_removed, Removal, incomplete_backup, delete_checked,
  delete_incomplete_backup,
}

-- A backup that has recorded its state, and not as finished.
abbrev pub Unfinished : Folder → ℕ → Type 0
Unfinished f bytes =
    (state : String) × (manifest : Bool) × (f ≡ folder (snapshot state) manifest bytes)
    × (str_eq state "finished" ≡ false)

-- The backup is gone, and the pull record says so, unless that line could not be written; or its
-- removal failed, which leaves what the file system left and no line.
abbrev pub Removed : Removal → Destination → ℕ → Destination → Option DeleteError → Type 0
Removed a d bytes d' thrown =
    ((a.removes ≡ true)
      × (a.appends ≡ true)
      × (thrown ≡ none)
      × (d' ≡ record { folder = absent; log = incomplete_deleted bytes ∷ d.log }))
    ⊎ ((a.removes ≡ true)
        × (a.appends ≡ false)
        × (thrown ≡ some deletion_unrecorded)
        × (d' ≡ record d { folder = absent }))
    ⊎ ((a.removes ≡ false) × (thrown ≡ some not_removed) × (d' ≡ record d { folder = a.left }))

-- What a deletion did: nothing, with an error; or it set about a backup that has recorded its state,
-- and not as finished.
abbrev pub Deletion : Removal → Destination → Destination → Option DeleteError → Type 0
Deletion a d d' thrown =
    ((d' ≡ d) × ((e : DeleteError) × (thrown ≡ some e)))
    ⊎ ((bytes : ℕ) × Unfinished d.folder bytes × Removed a d bytes d' thrown)

unfoldable Deletes : Removal → Destination → Destination × Option DeleteError → Type 0
Deletes a d (d', thrown) = Deletion a d d' thrown

incomplete_backup-Unfinished :
    (f : Folder) (bytes : ℕ) → incomplete_backup f ≡ gives (some bytes) → Unfinished f bytes
unfolding incomplete_backup
incomplete_backup-Unfinished absent bytes e = absurd (ground arith)
incomplete_backup-Unfinished unreachable bytes e = absurd (ground arith)
incomplete_backup-Unfinished (folder no_status manifest size) bytes e = absurd (ground arith)
incomplete_backup-Unfinished (folder unreadable manifest size) bytes e = absurd (ground arith)
incomplete_backup-Unfinished (folder (snapshot state) manifest size) bytes e =
    elim (Bool-cases (str_eq state "finished")) [
      | inl whole ↦ absurd (ground (arith, rw whole at e))
      | inr other ↦ (state, manifest, ground (arith, rw other at e), other)
    ]

untouched : (a : Removal) (d : Destination) (e : DeleteError) → Deletes a d (d, some e)
unfolding Deletes
untouched a d e = inl (refl, (e, refl))

deleted :
    (a : Removal) (d : Destination) (bytes : ℕ) (d' : Destination) (thrown : Option DeleteError)
    → Unfinished d.folder bytes
    → Removed a d bytes d' thrown
    → Deletes a d (d', thrown)
unfolding Deletes
deleted a d bytes d' thrown unfinished gone = inr (bytes, unfinished, gone)

delete_checked-Deletes :
    (a : Removal) (d : Destination) → Deletes a d (delete_checked a d (incomplete_backup d.folder))
delete_checked-Deletes a d = go (incomplete_backup d.folder) refl
  where
    go :
        (c : Checked (Option ℕ))
        → incomplete_backup d.folder ≡ c
        → Deletes a d (delete_checked a d c)
    go raises e = untouched a d _
    go (gives none) e = untouched a d _
    go (gives (some bytes)) e =
        let unfinished = incomplete_backup-Unfinished d.folder bytes e in
        elim (Bool-cases a.removes) [
          | inr fails ↦
              simp fails (deleted a d bytes _ _ unfinished (inr (inr (fails, refl, refl))))
          | inl removed ↦ elim (Bool-cases a.appends) [
            | inl written ↦
                simp (removed, written)
                  (deleted a d bytes _ _ unfinished (inl (removed, written, refl, refl)))
            | inr unwritten ↦
                simp (removed, unwritten)
                  (deleted a d bytes _ _ unfinished (inr (inl (removed, unwritten, refl, refl))))
          ]
        ]

-- The deletion of an incomplete backup touches only a folder that has a Status.plist which says
-- something else than "finished", and never while the source runs a backup: otherwise it throws and
-- changes nothing. Where the removal succeeds, the folder is gone and the pull record has a line with
-- its bytes, or it throws to say that the line could not be written. Where the removal fails, which
-- may leave a part of the folder, it throws and the pull record has no line of it.
pub delete_incomplete_backup-Deletion :
    (a : Removal) (udid : Text) (source : IosBackupSource) (d : Destination)
    → let (d', thrown) = delete_incomplete_backup a udid source d in
      Deletion a d d' thrown × ((source.running ≡ false) ⊎ (d' ≡ d))
unfolding delete_incomplete_backup Deletes
delete_incomplete_backup-Deletion a udid source d = elim (Bool-cases source.running) [
  | inl runs ↦ simp runs (inl (refl, (_, refl)), inr refl)
  | inr idle ↦ elim (Bool-cases (is_identifier udid)) [
    | inr bad ↦ simp (idle, bad) (inl (refl, (_, refl)), inl refl)
    | inl good ↦ elim (Bool-cases a.plistutil) [
      | inr missing ↦ simp (idle, good, missing) (inl (refl, (_, refl)), inl refl)
      | inl there ↦ simp (idle, good, there) (delete_checked-Deletes a d, inl refl)
    ]
  ]
]
