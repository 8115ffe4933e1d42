-- ===== src/Processor/Pass/Extension.antt =====
-- How the steps of a backup's turn extend what the turn has changed.
use mathlib.Core.List.{append_assoc, append-nil}
use verichron_epoch.Prelude.{
  ℕ, ◌≡◌, refl, sym, ap, ◌∙◌, inl, inr, true, false, not, ◌&&◌, List, [], ◌∷◌, ◌++◌, Option, none,
  some, String, arith, Bool-cases, is_some, if◌then◌else◌, ltb, length,
}
use verichron_epoch.Contracts.{DecryptMarker, RepairProvenance, skipped, ran}
use verichron_epoch.Processor.{
  begin, mark, change_folder, content_of, Slot, Change, on_decrypted, change, changes,
}
use verichron_epoch.Processor.Sound.{
  IsSound, AlwaysSound, changes-append, AlwaysSound-append, AlwaysSound-changes, fill-content_of,
  mark-content_of,
}
use verichron_epoch.Processor.Password.{Answers, decrypted, LoopState, password_loop}
use verichron_epoch.Processor.Password.Writes.{password_loop-AllWrites}
use verichron_epoch.Processor.Password.Laws.{DecryptedLast, password_loop-DecryptedLast}
use verichron_epoch.Processor.Pass.Steps.{
  Making, Making-IsSound, writes-AlwaysSound, mark-AlwaysSound,
}
use verichron_epoch.Processor.Pass.{
  Config, Tools, Outside, Turn, now, did, fail, Step, next_backup, go_on, is_current, clear_stale,
  ask, mark_decrypt,
}

-- A backup that hashes to one root before and after its decrypt was read as that root.
abbrev pub Stable : Outside → Type 0
Stable o =
    (n : ℕ) (pw root read : String)
    → o.hash ≡ some root
    → o.recheck ≡ some root
    → o.answers.decrypt n pw ≡ decrypted read
    → read ≡ root

-- `t` has made more changes than `s`, and the markers are sound all the while.
abbrev pub Extends : Turn → Turn → Type 0
Extends s t =
    (t.found ≡ s.found)
    × (cs : List Change) × (t.changed ≡ s.changed ++ cs)
    × AlwaysSound (now s) cs

pub now-append :
    (s : Turn) (cs : List Change) → changes s.found (s.changed ++ cs) ≡ changes (now s) cs
now-append s cs = changes-append s.found s.changed cs

pub Extends-now : (s t : Turn) (x : Extends s t) → now t ≡ changes (now s) x.1
Extends-now s t (f, cs, e, a) = rw (f, e) (now-append s cs)

pub Extends-IsSound : (s t : Turn) → Extends s t → IsSound (now t)
Extends-IsSound s t x = rw (Extends-now s t x) (AlwaysSound-changes (now s) x.1 x.3)

-- Nothing has changed in the folders.
pub still : (s t : Turn) → t.found ≡ s.found → t.changed ≡ s.changed → IsSound (now s) → Extends s t
still s t f e h = (f, [], e ∙ sym (append-nil s.changed), h)

pub did-Extends : (s : Turn) (cs : List Change) → AlwaysSound (now s) cs → Extends s (did s cs)
unfolding did
did-Extends s cs a = (refl, cs, refl, a)

pub Extends-trans : (s t u : Turn) → Extends s t → Extends t u → Extends s u
Extends-trans s t u (f, cs, e, a) (g, ds, d, b) = (
  g ∙ f,
  cs ++ ds,
  d ∙ rw e (append_assoc s.changed cs ds),
  AlwaysSound-append (now s) cs ds a (rw (f, e, now-append s cs) at b),
)

-- The turn once the old folders are out of the way.
abbrev pub cleared : String → Turn → Turn
cleared root s = did s (clear_stale s.found root)

empty-IsSound : IsSound (record { decrypted = none; ileapp = none; crash_reports = none })
empty-IsSound =
    (λ m e. absurd (ground arith), λ m e. absurd (ground arith), λ m e. absurd (ground arith))

pub cleared-IsSound :
    (root : String) (s : Turn) → s.changed ≡ [] → IsSound s.found → IsSound (now (cleared root s))
unfolding did clear_stale is_current changes change change_folder
cleared-IsSound root s fresh h =
    elim (Bool-cases (not (is_current s.found.decrypted root) && is_some s.found.decrypted)) [
      | inl stale ↦ rw (fresh, stale) empty-IsSound
      | inr current ↦ rw (fresh, current) h
    ]

-- What the decrypt's folder is made from, once the password loop has decrypted.
DecryptedLast-content_of :
    (a : Answers) (l : LoopState) (s : Slot)
    → DecryptedLast a l
    → (n : ℕ) × (pw : String) × (read : String) × (a.decrypt n pw ≡ decrypted read)
      × (content_of (changes s l.changes).decrypted ≡ some read)
unfolding changes change
DecryptedLast-content_of a l s (n, pw, read, before, answered, e) = (
  n,
  pw,
  read,
  answered,
  rw (e, changes-append)
      (fill-content_of (change_folder (changes s before).decrypted begin) (some read)),
)

-- The turn after the password loop: sound all the while, and the decrypt is not vouched for yet.
pub asked-Making :
    (cfg : Config) (name : String) (a : Answers) (s : Turn)
    → Making (now s)
    → let (t, done) = ask cfg name a s in
      Extends s t
      × Making (now t)
      × (done ≡ true
          → (n : ℕ) × (pw : String) × (read : String) × (a.decrypt n pw ≡ decrypted read)
            × (content_of (now t).decrypted ≡ some read))
unfolding ask
asked-Making cfg name a s h =
    let start : LoopState = record {
      cached_password = s.cached_password;
      have_cached = s.have_cached;
      failed_backups = s.failed_backups;
      decrypted = false;
      runs = 0;
      changes = [];
    } in
    let l : LoopState = password_loop cfg.same_pass name a start in
    let (sound, making) =
      writes-AlwaysSound (now s) l.changes (password_loop-AllWrites cfg.same_pass name a start tt)
        h in
    (
      (refl, l.changes, refl, sound),
      rw (now-append s l.changes) making,
      λ done. rw (now-append s l.changes) (
          DecryptedLast-content_of a l (now s)
            (password_loop-DecryptedLast cfg.same_pass name a start refl done)),
    )

-- The turn at a step that goes on, or to the next backup.
abbrev pub turn_of : Step → Turn
turn_of (next_backup t) = t
turn_of (go_on t) = t

abbrev pub GoesOn : Step → Type 0
GoesOn (next_backup t) = ⊥
GoesOn (go_on t) = Unit

pub fail-found :
    (name : String) (s : Turn)
    → ((fail name s).found ≡ s.found) × ((fail name s).changed ≡ s.changed)
unfolding fail
fail-found name s = (refl, refl)

pub fail-Extends : (name : String) (s : Turn) → IsSound (now s) → Extends s (fail name s)
fail-Extends name s = still s (fail name s) (fail-found name s).0 (fail-found name s).1

pub mark_decrypt-Extends :
    (tools : Tools) (name root : String) (repair : Option RepairProvenance) (s : Turn)
    → Making (now s)
    → content_of (now s).decrypted ≡ some root
    → let step = mark_decrypt tools name root repair s in
      Extends s (turn_of step)
      × (GoesOn step → content_of (now (turn_of step)).decrypted ≡ some root)
unfolding mark_decrypt did fail changes change
mark_decrypt-Extends tools name root none s h c =
    (still s (fail name s) refl refl (Making-IsSound (now s) h), λ on. absurd on)
mark_decrypt-Extends tools name root (some (skipped reason)) s h c =
    let m : DecryptMarker = record {
      content_root = root;
      tool = tools.decrypt;
      repair = skipped reason;
    } in
    (
      (refl, on_decrypted (mark m) ∷ [], refl, mark-AlwaysSound (now s) m h c),
      λ on.
          rw (now-append s (on_decrypted (mark m) ∷ [])) (mark-content_of (now s).decrypted m ∙ c),
    )
mark_decrypt-Extends tools name root (some (ran tool scanned repaired files failed_files)) s h c =
    let m : DecryptMarker = record {
      content_root = root;
      tool = tools.decrypt;
      repair = ran tool scanned repaired files failed_files;
    } in
    let t : Turn = if ltb 0 (length failed_files) then fail name s else s in
    let same : (t.found ≡ s.found) × (t.changed ≡ s.changed) = ground arith in
    (
      (
        same.0,
        on_decrypted (mark m) ∷ [],
        ap (λ cs. cs ++ on_decrypted (mark m) ∷ []) same.1,
        mark-AlwaysSound (now s) m h c,
      ),
      λ on.
          rw (same.0, same.1, now-append s (on_decrypted (mark m) ∷ []))
            (mark-content_of (now s).decrypted m ∙ c),
    )
