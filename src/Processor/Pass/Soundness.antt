-- ===== src/Processor/Pass/Soundness.antt =====
-- What a backup's turn of apps/processor/src/main.ts leaves in the workspace's folders.
use mathlib.Core.List.{append_assoc, append-nil}
use verichron_epoch.Prelude.{
  ◌≡◌, refl, sym, ap, ◌∙◌, inl, inr, Bool, true, false, not, ◌&&◌, ◌||◌, [], ◌++◌, Option, none,
  some, String, arith, Option-cases, Bool-cases, str_eq, eq_iff, is_some,
}
use verichron_epoch.Contracts.{InputType, IleappModules}
use verichron_epoch.Processor.{marker_of, content_of, Slot, changes}
use verichron_epoch.Processor.Sound.{IsSound, AlwaysSound}
use verichron_epoch.Processor.CrashReports.{prepare_crash_reports}
use verichron_epoch.Processor.Pass.Steps.{
  Making, start_over-AlwaysSound, ileapp_failed-AlwaysSound, ileapp_made-AlwaysSound,
  crash_reports-AlwaysSound,
}
use verichron_epoch.Processor.Pass.Extension.{
  Stable, Extends, Extends-now, Extends-IsSound, still, Extends-trans, cleared, cleared-IsSound,
  asked-Making, turn_of, GoesOn, fail-Extends, fail-found, mark_decrypt-Extends,
}
use verichron_epoch.Processor.Pass.{
  Config, Tools, Outside, Turn, now, did, fail, Step, next_backup, go_on, is_current, clear_stale,
  start_over, ask, check_again, mark_decrypt, decrypt_again, reuse_decrypt, ileapp_is_current,
  ileapp_again, run_ileapp, is_thrown, run_crash_reports, derive, turn,
}

ileapp_again-Extends :
    (tools : Tools) (name root : String) (made : Option (InputType × IleappModules)) (s : Turn)
    → IsSound (now s)
    → content_of (now s).decrypted ≡ some root
    → Extends s (ileapp_again tools name root made s)
unfolding ileapp_again did fail
ileapp_again-Extends tools name root none s h c =
    (refl, _, refl, ileapp_failed-AlwaysSound (now s) h)
ileapp_again-Extends tools name root (some (input_type, modules)) s h c = (
  refl,
  _,
  refl,
  ileapp_made-AlwaysSound (now s)
      (record {
        content_root = root;
        tool = tools.ileapp;
        input_type = input_type;
        modules = modules;
      })
      h c,
)

run_ileapp-Extends :
    (cfg : Config) (tools : Tools) (name root : String) (ran : Bool) (o : Outside) (s : Turn)
    → IsSound (now s)
    → content_of (now s).decrypted ≡ some root
    → Extends s (run_ileapp cfg tools name root ran o s)
unfolding run_ileapp
run_ileapp-Extends cfg tools name root ran o s h c =
    elim (Bool-cases
      (not cfg.force && not ran && ileapp_is_current (now s).ileapp root tools.ileapp)) [
        | inl current ↦ rw current (still s s refl refl h)
        | inr again ↦ rw again (ileapp_again-Extends tools name root o.ileapp s h c)
      ]

run_crash_reports-Extends :
    (cfg : Config) (name root : String) (o : Outside) (s : Turn)
    → IsSound (now s)
    → Extends s (run_crash_reports cfg name root o s)
unfolding run_crash_reports did fail
run_crash_reports-Extends cfg name root o s h =
    let result = prepare_crash_reports (now s).crash_reports o.crash_reports root cfg.force in
    let sound = crash_reports-AlwaysSound (now s) o.crash_reports root cfg.force h in
    elim (Bool-cases (is_thrown result.1)) [
      | inl thrown ↦ rw thrown (refl, result.0, refl, sound)
      | inr fine ↦ rw fine (refl, result.0, refl, sound)
    ]

derive-Extends :
    (cfg : Config) (tools : Tools) (name root : String) (ran : Bool) (o : Outside) (s : Turn)
    → IsSound (now s)
    → content_of (now s).decrypted ≡ some root
    → Extends s (derive cfg tools name root ran o s)
unfolding derive
derive-Extends cfg tools name root ran o s h c =
    let t = run_ileapp cfg tools name root ran o s in
    let first = run_ileapp-Extends cfg tools name root ran o s h c in
    Extends-trans s t (run_crash_reports cfg name root o t) first
      (run_crash_reports-Extends cfg name root o t (Extends-IsSound s t first))

-- A decrypt that is made again: sound from where the old folders are out of the way, and made from
-- the root when the turn goes on.
decrypt_again-Extends :
    (cfg : Config) (tools : Tools) (name root : String) (o : Outside) (s : Turn)
    → Stable o
    → o.hash ≡ some root
    → IsSound (now (cleared root s))
    → let step = decrypt_again cfg tools name root o s in
      Extends (cleared root s) (turn_of step)
      × (GoesOn step → content_of (now (turn_of step)).decrypted ≡ some root)
unfolding decrypt_again did check_again
decrypt_again-Extends cfg tools name root o s stable hashed h =
    let s0 : Turn = cleared root s in
    let s1 : Turn = did s (clear_stale s.found root ++ start_over) in
    let (always, making) = start_over-AlwaysSound (now s0) h in
    let begun : Extends s0 s1 = (
      refl,
      start_over,
      sym (append_assoc s.changed (clear_stale s.found root) start_over),
      always,
    ) in
    let ready : Making (now s1) = rw (Extends-now s0 s1 begun) making in
    let asked = asked-Making cfg name o.answers s1 ready in
    let t : Turn = (ask cfg name o.answers s1).0 in
    let so_far : Extends s0 t = Extends-trans s0 s1 t begun asked.0 in
    let failing : Extends s0 (fail name t) =
      Extends-trans s0 t (fail name t) so_far (fail-Extends name t (Extends-IsSound s0 t so_far)) in
    elim (Bool-cases (ask cfg name o.answers s1).1) [
      | inr undone ↦ rw undone (so_far, λ on. absurd on)
      | inl done ↦ elim (Option-cases o.recheck) [
        | inl unread ↦ rw (done, unread) (failing, λ on. absurd on)
        | inr (again, rehashed) ↦ elim (Bool-cases (str_eq again root)) [
          | inr differs ↦ rw (done, rehashed, differs) (failing, λ on. absurd on)
          | inl same ↦
              let equal : again ≡ root = (eq_iff again root).0 same in
              let (n, pw, read, answered, content) = asked.2 done in
              let from_root : content_of (now t).decrypted ≡ some root =
                content
                ∙ ap some (stable n pw root read hashed (rehashed ∙ ap some equal) answered) in
              let marked = mark_decrypt-Extends tools name root o.repair t asked.1 from_root in
              rw (done, rehashed, same)
                (
                  Extends-trans s0 t (turn_of (mark_decrypt tools name root o.repair t)) so_far
                      marked.0,
                  marked.1,
                )
        ]
      ]
    ]

is_current-content_of :
    (s : Slot) (root : String)
    → IsSound s
    → is_current s.decrypted root ≡ true
    → content_of s.decrypted ≡ some root
unfolding is_current
is_current-content_of s root h e = elim (Option-cases (marker_of s.decrypted)) [
  | inl unmarked ↦ absurd (ground arith)
  | inr (m, marked) ↦
      h.0 m marked ∙ ap some ((eq_iff m.content_root root).0 (rw (marked, is_current) at e))
]

pub reuse_decrypt-found :
    (name : String) (s : Turn)
    → ((reuse_decrypt name s).found ≡ s.found) × ((reuse_decrypt name s).changed ≡ s.changed)
unfolding reuse_decrypt
reuse_decrypt-found name s = ground arith

-- A turn that reuses the decrypt, and one that does not.
reused-Extends :
    (cfg : Config) (tools : Tools) (name root : String) (o : Outside) (s : Turn)
    → s.changed ≡ []
    → IsSound s.found
    → is_current s.found.decrypted root ≡ true
    → Extends s (derive cfg tools name root false o (reuse_decrypt name s))
unfolding changes
reused-Extends cfg tools name root o s fresh h e =
    let t : Turn = reuse_decrypt name s in
    let (f, c) = reuse_decrypt-found name s in
    let sound : IsSound (now s) = rw fresh h in
    let first : Extends s t = still s t f c sound in
    Extends-trans s t (derive cfg tools name root false o t) first (
      derive-Extends cfg tools name root false o t (rw (f, c) sound)
        (rw (f, c, fresh) (is_current-content_of s.found root h e)))

pub again-Extends :
    (cfg : Config) (tools : Tools) (name root : String) (o : Outside) (s : Turn)
    → Stable o
    → o.hash ≡ some root
    → s.changed ≡ []
    → IsSound s.found
    → Extends (cleared root s) (elim (decrypt_again cfg tools name root o s) [
      | next_backup t ↦ t
      | go_on t ↦ derive cfg tools name root true o t
    ])
again-Extends cfg tools name root o s stable hashed fresh h =
    let s0 : Turn = cleared root s in
    let (so_far, content) =
      decrypt_again-Extends cfg tools name root o s stable hashed
        (cleared-IsSound root s fresh h) in
    goes (decrypt_again cfg tools name root o s) so_far content
  where
    goes :
        (step : Step)
        → Extends (cleared root s) (turn_of step)
        → (GoesOn step → content_of (now (turn_of step)).decrypted ≡ some root)
        → Extends
            (cleared root s)
            (elim step [ next_backup t ↦ t | go_on t ↦ derive cfg tools name root true o t ])
    goes (next_backup t) so_far content = so_far
    goes (go_on t) so_far content =
        Extends-trans (cleared root s) t (derive cfg tools name root true o t) so_far (
          derive-Extends cfg tools name root true o t (Extends-IsSound (cleared root s) t so_far)
            (content tt))

-- What a turn is, by what it finds.
pub data Outcome (cfg : Config) (tools : Tools) (name : String) (o : Outside) (s : Turn)
    : Turn → Type 0 where
  unhashed : o.hash ≡ none → Outcome cfg tools name o s (fail name s)
  reuses :
      (root : String)
      → o.hash ≡ some root
      → is_current s.found.decrypted root ≡ true
      → Outcome cfg tools name o s (derive cfg tools name root false o (reuse_decrypt name s))
  makes :
      (root : String) (t : Turn)
      → o.hash ≡ some root
      → (not cfg.force_decrypt && is_current s.found.decrypted root) ≡ false
      → t ≡ elim (decrypt_again cfg tools name root o s) [
        | next_backup t ↦ t
        | go_on t ↦ derive cfg tools name root true o t
      ]
      → Outcome cfg tools name o s t

pub turn-Outcome :
    (cfg : Config) (tools : Tools) (name : String) (o : Outside) (s : Turn)
    → Outcome cfg tools name o s (turn cfg tools name o s)
unfolding turn
turn-Outcome cfg tools name o s = elim (Option-cases o.hash) [
  | inl e ↦ simp (e, turn) (unhashed e)
  | inr (root, e) ↦ elim (Bool-cases (not cfg.force_decrypt && is_current s.found.decrypted root)) [
    | inl reuse ↦ simp (e, reuse, turn) (reuses root e (ground arith))
    | inr again ↦ simp (e, again, turn) (makes root _ e again refl)
  ]
]

-- After a backup's turn every completion marker in the workspace vouches for what it says: the
-- decrypt and the iLEAPP output are made from the content root that their marker names, and the
-- crash logs are a copy with the root that theirs names. This holds on every branch, those that
-- fail included, provided that it held before the turn and that a backup that hashes to one root
-- before and after its decrypt was read as that root.
pub turn-IsSound :
    (cfg : Config) (tools : Tools) (name : String) (o : Outside) (s : Turn)
    → Stable o
    → s.changed ≡ []
    → IsSound s.found
    → IsSound (now (turn cfg tools name o s))
unfolding changes
turn-IsSound cfg tools name o s stable fresh h = by (turn-Outcome cfg tools name o s)
  where
    by : {t : Turn} → Outcome cfg tools name o s t → IsSound (now t)
    by (unhashed e) = let (f, c) = fail-found name s in rw (f, c, fresh) h
    by (reuses root e current) =
        Extends-IsSound s (derive cfg tools name root false o (reuse_decrypt name s))
          (reused-Extends cfg tools name root o s fresh h current)
    by (makes root t e old is) =
        Extends-IsSound (cleared root s) t
          (rw is (again-Extends cfg tools name root o s stable e fresh h))

-- The same at every instant of the turn, wherever the process is killed, provided also that no
-- stale decrypt stands in the workspace: there is none, or it was made from the backup as it is.
pub turn-AlwaysSound :
    (cfg : Config) (tools : Tools) (name : String) (o : Outside) (s : Turn)
    → Stable o
    → s.changed ≡ []
    → IsSound s.found
    → ((root : String)
        → o.hash ≡ some root
        → (is_current s.found.decrypted root || not (is_some s.found.decrypted)) ≡ true)
    → AlwaysSound s.found (turn cfg tools name o s).changed
unfolding changes clear_stale did
turn-AlwaysSound cfg tools name o s stable fresh h current = by (turn-Outcome cfg tools name o s)
  where
    always : (t : Turn) → Extends s t → AlwaysSound s.found t.changed
    always t (f, cs, e, a) = rw (e, fresh) (rw fresh at a)

    by : {t : Turn} → Outcome cfg tools name o s t → AlwaysSound s.found t.changed
    by (unhashed e) = let (f, c) = fail-found name s in rw (c, fresh) h
    by (reuses root e now_current) =
        always (derive cfg tools name root false o (reuse_decrypt name s))
          (reused-Extends cfg tools name root o s fresh h now_current)
    by (makes root t e old is) =
        let unclear : clear_stale s.found root ≡ [] = ground (arith, current root e) in
        always t (
          Extends-trans s (cleared root s) t
            (still s (cleared root s) refl (rw unclear (append-nil s.changed)) (rw fresh h))
            (rw is (again-Extends cfg tools name root o s stable e fresh h)))
