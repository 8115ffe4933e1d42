-- ===== src/Processor/Pass/Completeness.antt =====
-- What a backup's turn of apps/processor/src/main.ts has done when it does not fail, and what it
-- leaves alone when everything is made already.
use verichron_epoch.Prelude.{
  ℕ, ◌≡◌, ◌≢◌, refl, ap, ◌∙◌, inl, inr, ◌⊎◌, Bool, true, false, not, ◌&&◌, [], ◌∷◌, ◌++◌, Option,
  none, some, String, arith, Option-cases, Bool-cases, str_eq, eq_refl, if◌then◌else◌, ltb, length,
}
use verichron_epoch.Contracts.{
  CrashReportsAcquisition, DecryptMarker, InputType, IleappModules, RepairProvenance, skipped, ran,
}
use verichron_epoch.Processor.{
  Folder, mark, change_folder, Slot, on_decrypted, change, changes, has_name,
}
use verichron_epoch.Processor.Sound.{changes-append}
use verichron_epoch.Processor.Password.{Answers}
use verichron_epoch.Processor.Password.Laws.{has_name-add_name, password_loop-RecordedOrRefused}
use verichron_epoch.Processor.CrashReports.{
  CrashReportsSource, TreeHash, copy_reports, prepare_crash_reports,
}
use verichron_epoch.Processor.Pass.Extension.{now-append}
use verichron_epoch.Processor.Pass.Soundness.{
  Outcome, unhashed, reuses, makes, turn-Outcome, reuse_decrypt-found,
}
use verichron_epoch.Processor.Pass.{
  Config, Tools, Outside, Turn, now, did, fail, Step, next_backup, go_on, is_current, clear_stale,
  start_over, ask, check_again, mark_decrypt, decrypt_again, reuse_decrypt, ileapp_is_current,
  ileapp_again, run_ileapp, is_thrown, run_crash_reports, derive, turn,
}

abbrev Recorded : String → Turn → Type 0
Recorded name s = has_name name s.failed_backups ≡ true

-- The crash logs' changes touch neither the decrypt nor the iLEAPP output.
abbrev SameWork : Slot → Slot → Type 0
SameWork s t = (t.decrypted ≡ s.decrypted) × (t.ileapp ≡ s.ileapp)

copy_reports-SameWork :
    (s : Slot) (root : String) (a : CrashReportsAcquisition) (source : TreeHash)
    (copy : Option TreeHash)
    → SameWork s (changes s (copy_reports root a source copy).0)
unfolding copy_reports changes change
copy_reports-SameWork s root a source none = (refl, refl)
copy_reports-SameWork s root a source (some copy) =
    elim (Bool-cases (str_eq copy.content_root source.content_root)) [
      | inl same ↦ rw same (refl, refl)
      | inr differs ↦ rw differs (refl, refl)
    ]

crash_reports-SameWork :
    (s : Slot) (c : CrashReportsSource) (root : String) (force : Bool)
    → SameWork s (changes s (prepare_crash_reports s.crash_reports c root force).0)
unfolding prepare_crash_reports changes
crash_reports-SameWork s c root force = elim (Bool-cases c.has_record) [
  | inr missing ↦ simp missing (refl, refl)
  | inl there ↦ elim (Option-cases c.acquisition) [
    | inl unread ↦ simp (there, unread) (refl, refl)
    | inr (a, read) ↦ elim (Option-cases c.source) [
      | inl unseen ↦ simp (there, read, unseen) (refl, refl)
      | inr (source, seen) ↦ ground (arith, copy_reports-SameWork s root a source c.copied)
    ]
  ]
]

run_crash_reports-SameWork :
    (cfg : Config) (name root : String) (o : Outside) (s : Turn)
    → let t = run_crash_reports cfg name root o s in
      SameWork (now s) (now t)
      × (has_name name t.failed_backups ≡ false → has_name name s.failed_backups ≡ false)
unfolding run_crash_reports did fail
run_crash_reports-SameWork cfg name root o s =
    let result = prepare_crash_reports (now s).crash_reports o.crash_reports root cfg.force in
    let same = crash_reports-SameWork (now s) o.crash_reports root cfg.force in
    elim (Bool-cases (is_thrown result.1)) [
      | inl thrown ↦ rw thrown (
        rw (now-append s result.0) same,
        λ e. absurd (ground (arith, has_name-add_name name s.failed_backups)),
      )
      | inr fine ↦ rw fine (rw (now-append s result.0) same, λ e. e)
    ]

-- Where the iLEAPP step does not fail, its output is current behind it, and the decrypt is as it was.
run_ileapp-current :
    (cfg : Config) (tools : Tools) (name root : String) (rerun : Bool) (o : Outside) (s : Turn)
    → let t = run_ileapp cfg tools name root rerun o s in
      has_name name t.failed_backups ≡ false
      → ((now t).decrypted ≡ (now s).decrypted)
        × (ileapp_is_current (now t).ileapp root tools.ileapp ≡ true)
        × (has_name name s.failed_backups ≡ false)
unfolding run_ileapp ileapp_again did fail changes change ileapp_is_current
run_ileapp-current cfg tools name root rerun o s unfailed =
    elim (Bool-cases
      (not cfg.force && not rerun && ileapp_is_current (now s).ileapp root tools.ileapp)) [
        | inl current ↦ simp current (refl, ground arith, simp current at unfailed)
        | inr again ↦ simp again (made o.ileapp (simp again at unfailed))
      ]
  where
    made :
        (result : Option (InputType × IleappModules))
        → has_name name (ileapp_again tools name root result s).failed_backups ≡ false
        → ((now (ileapp_again tools name root result s)).decrypted ≡ (now s).decrypted)
          × (ileapp_is_current
                (now (ileapp_again tools name root result s)).ileapp
                root
                tools.ileapp
              ≡ true)
          × (has_name name s.failed_backups ≡ false)
    made none e = absurd (ground (arith, has_name-add_name name s.failed_backups))
    made (some (input_type, modules)) e =
        rw (changes-append s.found s.changed)
          (refl, ground (arith, eq_refl root, eq_refl tools.ileapp.version), e)

derive-current :
    (cfg : Config) (tools : Tools) (name root : String) (rerun : Bool) (o : Outside) (s : Turn)
    → let t = derive cfg tools name root rerun o s in
      has_name name t.failed_backups ≡ false
      → ((now t).decrypted ≡ (now s).decrypted)
        × (ileapp_is_current (now t).ileapp root tools.ileapp ≡ true)
        × (has_name name s.failed_backups ≡ false)
unfolding derive
derive-current cfg tools name root rerun o s unfailed =
    let mid : Turn = run_ileapp cfg tools name root rerun o s in
    let ((d, i), e) = run_crash_reports-SameWork cfg name root o mid in
    let (same, current, before) = run_ileapp-current cfg tools name root rerun o s (e unfailed) in
    (d ∙ same, rw i current, before)

-- A step of the decrypt that goes on has marked it with the root; one that does not has recorded the
-- backup as failed, or reading a password has thrown.
abbrev Finished : String → String → Answers → Step → Type 0
Finished name root a (next_backup t) = Recorded name t ⊎ ((n : ℕ) × (a.prompt n ≡ none))
Finished name root a (go_on t) = is_current (now t).decrypted root ≡ true

mark-is_current :
    (f : Option (Folder DecryptMarker)) (m : DecryptMarker)
    → is_current (change_folder f (mark m)) m.content_root ≡ true
unfolding is_current change_folder
mark-is_current none m = eq_refl m.content_root
mark-is_current (some f) m = eq_refl m.content_root

marked :
    (s : Turn) (m : DecryptMarker)
    → is_current
        (changes s.found (s.changed ++ on_decrypted (mark m) ∷ [])).decrypted
        m.content_root
      ≡ true
unfolding changes change
marked s m =
    rw (changes-append s.found s.changed (on_decrypted (mark m) ∷ []))
      (mark-is_current (now s).decrypted m)

mark_decrypt-Finished :
    (tools : Tools) (name root : String) (a : Answers) (repair : Option RepairProvenance) (s : Turn)
    → Finished name root a (mark_decrypt tools name root repair s)
unfolding mark_decrypt did fail
mark_decrypt-Finished tools name root a none s = inl (has_name-add_name name s.failed_backups)
mark_decrypt-Finished tools name root a (some (skipped reason)) s =
    marked s (record { content_root = root; tool = tools.decrypt; repair = skipped reason })
mark_decrypt-Finished tools name root a (some (ran tool scanned repaired files failed_files)) s =
    marked (if ltb 0 (length failed_files) then fail name s else s) (record {
      content_root = root;
      tool = tools.decrypt;
      repair = ran tool scanned repaired files failed_files;
    })

ask-Recorded :
    (cfg : Config) (name : String) (a : Answers) (s : Turn)
    → (ask cfg name a s).1 ≡ false
    → Recorded name (ask cfg name a s).0 ⊎ ((n : ℕ) × (a.prompt n ≡ none))
unfolding ask
ask-Recorded cfg name a s =
    password_loop-RecordedOrRefused cfg.same_pass name a
      (record {
        cached_password = s.cached_password;
        have_cached = s.have_cached;
        failed_backups = s.failed_backups;
        decrypted = false;
        runs = 0;
        changes = [];
      })
      refl

decrypt_again-Finished :
    (cfg : Config) (tools : Tools) (name root : String) (o : Outside) (s : Turn)
    → Finished name root o.answers (decrypt_again cfg tools name root o s)
unfolding decrypt_again check_again fail
decrypt_again-Finished cfg tools name root o s =
    let s1 : Turn = did s (clear_stale s.found root ++ start_over) in
    let t : Turn = (ask cfg name o.answers s1).0 in
    elim (Bool-cases (ask cfg name o.answers s1).1) [
      | inr undone ↦ rw undone (ask-Recorded cfg name o.answers s1 undone)
      | inl done ↦ elim (Option-cases o.recheck) [
        | inl unread ↦ rw (done, unread) (inl (has_name-add_name name t.failed_backups))
        | inr (again, rehashed) ↦ elim (Bool-cases (str_eq again root)) [
          | inr differs ↦
              rw (done, rehashed, differs) (inl (has_name-add_name name t.failed_backups))
          | inl same ↦
              rw (done, rehashed, same) (mark_decrypt-Finished tools name root o.answers o.repair t)
        ]
      ]
    ]

-- A backup that is not among the failed ones after its turn is prepared: it hashes, its decrypt is
-- marked as made from the content root it hashes to, and its iLEAPP output from that root by the
-- installed iLEAPP. This holds where reading a password never throws.
pub turn-prepared :
    (cfg : Config) (tools : Tools) (name : String) (o : Outside) (s : Turn)
    → ((n : ℕ) → o.answers.prompt n ≢ none)
    → s.changed ≡ []
    → let t = turn cfg tools name o s in
      has_name name t.failed_backups ≡ false
      → (root : String) × (o.hash ≡ some root)
        × (is_current (now t).decrypted root ≡ true)
        × (ileapp_is_current (now t).ileapp root tools.ileapp ≡ true)
unfolding changes fail
turn-prepared cfg tools name o s answers fresh = by (turn-Outcome cfg tools name o s)
  where
    Prepared : Turn → Type 0
    Prepared t =
        has_name name t.failed_backups ≡ false
        → (root : String) × (o.hash ≡ some root)
          × (is_current (now t).decrypted root ≡ true)
          × (ileapp_is_current (now t).ileapp root tools.ileapp ≡ true)

    goes :
        (root : String) (step : Step)
        → o.hash ≡ some root
        → Finished name root o.answers step
        → Prepared (elim step [ next_backup t ↦ t | go_on t ↦ derive cfg tools name root true o t ])
    goes root (next_backup t) e (inl recorded) unfailed = absurd (ground arith)
    goes root (next_backup t) e (inr (n, throws)) unfailed = absurd (answers n throws)
    goes root (go_on t) e current unfailed =
        let (same, made, before) = derive-current cfg tools name root true o t unfailed in
        (root, e, rw same current, made)

    by : {t : Turn} → Outcome cfg tools name o s t → Prepared t
    by (unhashed e) unfailed = absurd (ground (arith, has_name-add_name name s.failed_backups))
    by (reuses root e current) unfailed =
        let t : Turn = reuse_decrypt name s in
        let (f, c) = reuse_decrypt-found name s in
        let (same, made, before) = derive-current cfg tools name root false o t unfailed in
        (root, e, rw (same, f, c, fresh) current, made)
    by (makes root t e old is) unfailed =
        let step = decrypt_again cfg tools name root o s in
        rw is
          (goes root step e (decrypt_again-Finished cfg tools name root o s) (rw is at unfailed))

-- Where the decrypt and the iLEAPP output are made already from what the backup hashes to, and
-- neither is forced, a turn leaves both folders as they are.
pub turn-reuse :
    (cfg : Config) (tools : Tools) (name root : String) (o : Outside) (s : Turn)
    → o.hash ≡ some root
    → cfg.force_decrypt ≡ false
    → cfg.force ≡ false
    → s.changed ≡ []
    → is_current s.found.decrypted root ≡ true
    → ileapp_is_current s.found.ileapp root tools.ileapp ≡ true
    → let t = turn cfg tools name o s in
      ((now t).decrypted ≡ s.found.decrypted) × ((now t).ileapp ≡ s.found.ileapp)
unfolding turn derive run_ileapp changes
turn-reuse cfg tools name root o s e keep_decrypt keep fresh current made =
    let t : Turn = reuse_decrypt name s in
    let (f, c) = reuse_decrypt-found name s in
    let at_start : now t ≡ s.found = rw (f, c, fresh) refl in
    let idle : run_ileapp cfg tools name root false o t ≡ t = simp (keep, at_start, made) refl in
    let ((d, i), x) = run_crash_reports-SameWork cfg name root o t in
    simp (e, turn, keep_decrypt, current, idle)
      (d ∙ ap (λ (k : Slot). k.decrypted) at_start, i ∙ ap (λ (k : Slot). k.ileapp) at_start)
