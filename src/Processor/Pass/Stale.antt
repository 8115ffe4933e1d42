-- ===== src/Processor/Pass/Stale.antt =====
-- How a stale decrypt is cleared in a backup's turn of apps/processor/src/main.ts.
use verichron_epoch.Prelude.{
  ◌≡◌, refl, sym, ◌∙◌, true, false, List, [], ◌∷◌, Option, none, some, String, of_some, arith,
  str_eq, is_some,
}
use verichron_epoch.Contracts.{DecryptMarker}
use verichron_epoch.Processor.{
  Folder, damage, remove, change_folder, marker_of, Slot, Change, on_decrypted, on_ileapp,
  on_crash_reports, change,
}
use verichron_epoch.Processor.Sound.{FolderIsSound, IsSound, AlwaysSound, decrypt_root}
use verichron_epoch.Processor.Pass.Extension.{Stable, Extends, cleared}
use verichron_epoch.Processor.Pass.Soundness.{
  Outcome, unhashed, reuses, makes, turn-Outcome, again-Extends,
}
use verichron_epoch.Processor.Pass.{
  Config, Tools, Outside, Turn, did, is_current, clear_stale, turn,
}

AlwaysSound-first : (s : Slot) (cs : List Change) → AlwaysSound s cs → IsSound s
AlwaysSound-first s [] h = h
AlwaysSound-first s (c ∷ cs) h = h.0

damaged :
    (f : Option (Folder DecryptMarker)) (m : DecryptMarker)
    → marker_of f ≡ some m
    → ¬ FolderIsSound decrypt_root (change_folder f damage)
unfolding change_folder
damaged none m e sound = absurd (ground arith)
damaged (some f) m e sound = absurd (ground (arith, sound m e))

marked_other :
    (f : Option (Folder DecryptMarker)) (m : DecryptMarker) (root : String)
    → marker_of f ≡ some m
    → str_eq m.content_root root ≡ false
    → (is_current f root ≡ false) × (is_some f ≡ true)
unfolding is_current
marked_other none m root e other = absurd (ground arith)
marked_other (some f) m root e other = ground arith

-- The changes of a turn that clears a stale decrypt begin with its removal being under way.
stale-damage :
    (s t : Turn) (root : String)
    → s.changed ≡ []
    → is_current s.found.decrypted root ≡ false
    → is_some s.found.decrypted ≡ true
    → Extends (cleared root s) t
    → (cs : List Change) × (t.changed ≡ on_decrypted damage ∷ cs)
unfolding did clear_stale
stale-damage s t root fresh old there (f, cs, e, a) = (
  on_decrypted remove
      ∷ on_ileapp damage
      ∷ on_ileapp remove
      ∷ on_crash_reports damage
      ∷ on_crash_reports remove
      ∷ cs,
  rw (e, fresh, old, there) refl,
)

-- While a stale decrypt is cleared, the process can be killed where its marker still stands before
-- a folder that is not whole: a turn that finds a decrypt marked with another root than the backup
-- hashes to is not sound at every instant, though the markers were sound before.
pub turn-stale :
    (cfg : Config) (tools : Tools) (name root : String) (o : Outside) (s : Turn) (m : DecryptMarker)
    → Stable o
    → s.changed ≡ []
    → IsSound s.found
    → o.hash ≡ some root
    → marker_of s.found.decrypted ≡ some m
    → str_eq m.content_root root ≡ false
    → ¬ AlwaysSound s.found (turn cfg tools name o s).changed
unfolding change
turn-stale cfg tools name root o s m stable fresh h e marked other =
    by (turn-Outcome cfg tools name o s)
  where
    by : {t : Turn} → Outcome cfg tools name o s t → ¬ AlwaysSound s.found t.changed
    by (unhashed x) always = absurd (ground arith)
    by (reuses r x current) always =
        let same : r ≡ root = of_some (sym x ∙ e) in
        absurd (ground (arith, same, (marked_other s.found.decrypted m root marked other).0))
    by (makes r t x old is) always =
        let same : r ≡ root = of_some (sym x ∙ e) in
        let (stale, there) = marked_other s.found.decrypted m r marked (rw same other) in
        let (cs, begins) =
          stale-damage s t r fresh stale there
            (rw is (again-Extends cfg tools name r o s stable x fresh h)) in
        damaged s.found.decrypted m marked
          (AlwaysSound-first (change s.found (on_decrypted damage)) cs (rw begins at always).1).0
