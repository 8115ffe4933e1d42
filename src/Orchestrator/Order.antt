-- ===== src/Orchestrator/Order.antt =====
-- The order of the stages that apps/orchestrator/src/discovery.ts discovers, and when
-- apps/orchestrator/src/migrations.ts lets an analysis start.
use Prim.Native.String.{◌++◌ as append}
use verichron_epoch.Prelude.{
  ℕ, ◌≤◌, ◌<◌, ◌≡◌, ◌≢◌, ◌↔◌, refl, ap, inl, inr, true, false, not, List, [], ◌∷◌, Option, none,
  some, String, str_eq, leb, ◌==◌, ==_iff, any, keep, All, arith, Bool-cases, of_some,
}
use verichron_epoch.Orchestrator.{StageDefinition, StageSet}
use verichron_epoch.Orchestrator.Discovery.{
  is_enabled, count_order, repeats_order, is_at, find_stage, max_order, insert_stage, sort_stages,
  reports_too_early, discover_stages, read_migration_status, migration_refusal, refusal, join,
}

-- Each stage's order is smaller than that of every stage behind it.
abbrev pub Ascending : List StageDefinition → Type 0
Ascending [] = Unit
Ascending (s ∷ ss) =
    All (λ (t : StageDefinition). s.manifest.order < t.manifest.order) ss × Ascending ss

abbrev Unlike : ℕ → List StageDefinition → Type 0
Unlike order ss = All (λ (t : StageDefinition). t.manifest.order ≢ order) ss

insert_stage-All :
    (P : StageDefinition → Type 0) (s : StageDefinition) (ss : List StageDefinition)
    → P s
    → All P ss
    → All P (insert_stage s ss)
unfolding insert_stage
insert_stage-All P s [] p h = (p, tt)
insert_stage-All P s (t ∷ ts) p h = elim (Bool-cases (leb s.manifest.order t.manifest.order)) [
  | inl before ↦ simp before (p, h)
  | inr behind ↦ simp behind (h.0, insert_stage-All P s ts p h.1)
]

sort_stages-All :
    (P : StageDefinition → Type 0) (ss : List StageDefinition) → All P ss → All P (sort_stages ss)
unfolding sort_stages
sort_stages-All P [] h = tt
sort_stages-All P (s ∷ ss) h = insert_stage-All P s (sort_stages ss) h.0 (sort_stages-All P ss h.1)

smaller :
    (a b : ℕ) (ss : List StageDefinition)
    → a < b
    → All (λ (t : StageDefinition). b < t.manifest.order) ss
    → All (λ (t : StageDefinition). a < t.manifest.order) ss
smaller a b [] l h = tt
smaller a b (t ∷ ts) l h = (omega (arith, l, h.0), smaller a b ts l h.1)

insert_stage-Ascending :
    (s : StageDefinition) (ss : List StageDefinition)
    → Unlike s.manifest.order ss
    → Ascending ss
    → Ascending (insert_stage s ss)
unfolding insert_stage
insert_stage-Ascending s [] u h = (tt, tt)
insert_stage-Ascending s (t ∷ ts) u h = elim (Bool-cases (leb s.manifest.order t.manifest.order)) [
  | inl before ↦
      let below : s.manifest.order < t.manifest.order = ground (arith, u.0) in
      simp before ((below, smaller s.manifest.order t.manifest.order ts below h.0), h)
  | inr behind ↦
      let above : t.manifest.order < s.manifest.order = ground arith in
      simp behind (
        insert_stage-All (λ x. t.manifest.order < x.manifest.order) s ts above h.0,
        insert_stage-Ascending s ts u.1 h.1,
      )
]

count_order-zero :
    (order : ℕ) (ss : List StageDefinition) → count_order order ss ≡ 0 → Unlike order ss
unfolding count_order
count_order-zero order [] e = tt
count_order-zero order (s ∷ ss) e = elim (Bool-cases (s.manifest.order == order)) [
  | inl same ↦ absurd (ground arith)
  | inr other ↦
      (ground (arith, ==_iff s.manifest.order order), count_order-zero order ss (simp other at e))
]

sort_stages-Ascending :
    (ss : List StageDefinition) → any (repeats_order ss) ss ≡ false → Ascending (sort_stages ss)
unfolding sort_stages repeats_order count_order
sort_stages-Ascending [] e = tt
sort_stages-Ascending (s ∷ ss) e =
    insert_stage-Ascending s (sort_stages ss)
      (sort_stages-All (λ t. t.manifest.order ≢ s.manifest.order) ss
        (count_order-zero s.manifest.order ss
          (ground (arith, ==_iff s.manifest.order s.manifest.order))))
      (sort_stages-Ascending ss (fewer s ss ss (ground arith)))
  where
    fewer :
        (s : StageDefinition) (ts us : List StageDefinition)
        → any (repeats_order (s ∷ ts)) us ≡ false
        → any (repeats_order ts) us ≡ false
    fewer s ts [] h = refl
    fewer s ts (u ∷ us) h = ground (arith, fewer s ts us)

weaker_max :
    (dir : String) (m n : ℕ) (ss : List StageDefinition)
    → m ≤ n
    → All (λ (t : StageDefinition). is_at dir t ≡ false → t.manifest.order ≤ m) ss
    → All (λ (t : StageDefinition). is_at dir t ≡ false → t.manifest.order ≤ n) ss
weaker_max dir m n [] l h = tt
weaker_max dir m n (t ∷ ts) l h = (λ e. omega (arith, l, h.0 e), weaker_max dir m n ts l h.1)

max_order-All :
    (dir : String) (ss : List StageDefinition)
    → All
        (λ (t : StageDefinition).
          is_at dir t ≡ false → t.manifest.order ≤ max_order (keep (λ s. not (is_at dir s)) ss))
        ss
unfolding max_order
max_order-All dir [] = tt
max_order-All dir (s ∷ ss) =
    let m : ℕ = max_order (keep (λ s. not (is_at dir s)) ss) in
    let n : ℕ = max_order (keep (λ s. not (is_at dir s)) (s ∷ ss)) in
    let kept : (m ≤ n) × (is_at dir s ≡ false → s.manifest.order ≤ n) =
      elim (Bool-cases (is_at dir s)) [
        | inl here ↦ simp here (omega arith, λ e. absurd (ground arith))
        | inr away ↦ simp away (omega arith, λ e. omega arith)
      ] in
    (kept.1, weaker_max dir m n ss kept.0 (max_order-All dir ss))

below_report :
    (dir : String) (m n : ℕ) (ss : List StageDefinition)
    → m < n
    → All (λ (t : StageDefinition). is_at dir t ≡ false → t.manifest.order ≤ m) ss
    → All (λ (t : StageDefinition). is_at dir t ≡ false → t.manifest.order < n) ss
below_report dir m n [] l h = tt
below_report dir m n (t ∷ ts) l h = (λ e. omega (arith, l, h.0 e), below_report dir m n ts l h.1)

-- Where the discovery does not throw, the enabled stages are in ascending order, no two sharing
-- one, and every other stage's order is smaller than the reporting stage's.
pub discover_stages-Ascending :
    (reporting_dir : String) (found : List StageDefinition) (set : StageSet)
    → discover_stages reporting_dir found ≡ some set
    → Ascending set.enabled
      × ((report : StageDefinition)
          → find_stage (is_at reporting_dir) (keep is_enabled found) ≡ some report
          → All
              (λ (t : StageDefinition).
                is_at reporting_dir t ≡ false → t.manifest.order < report.manifest.order)
              set.enabled)
unfolding discover_stages reports_too_early
discover_stages-Ascending dir found set e =
    let stages : List StageDefinition = keep is_enabled found in
    let m : ℕ = max_order (keep (λ s. not (is_at dir s)) stages) in
    elim (Bool-cases (any (repeats_order stages) stages)) [
      | inl repeats ↦ absurd (ground (arith, simp repeats at e))
      | inr unique ↦ elim (Bool-cases (reports_too_early dir stages)) [
        | inl early ↦ absurd (ground (arith, simp (unique, early) at e))
        | inr last ↦
            let sorted : sort_stages stages ≡ set.enabled =
              ap (λ (s : StageSet). s.enabled) (of_some (simp (unique, last) at e)) in
            (
              rw sorted at (sort_stages-Ascending stages unique),
              λ report there.
                  let later : m < report.manifest.order =
                    ground (arith, simp (there, reports_too_early) at last) in
                  rw sorted at (
                    sort_stages-All
                      (λ t. is_at dir t ≡ false → t.manifest.order < report.manifest.order) stages
                      (below_report dir m report.manifest.order stages later
                        (max_order-All dir stages))),
            )
      ]
    ]

abbrev pub IsApplied : List String → String → Type 0
IsApplied applied name = any (str_eq name) applied ≡ true

kept-All :
    (applied files : List String)
    → (keep (λ name. not (any (str_eq name) applied)) files ≡ []) ↔ All (IsApplied applied) files
kept-All applied [] = (λ e. tt, λ h. refl)
kept-All applied (f ∷ fs) = elim (Bool-cases (any (str_eq f) applied)) [
  | inl done ↦ simp done (λ e. (refl, (kept-All applied fs).0 e), λ h. (kept-All applied fs).1 h.1)
  | inr not_yet ↦ simp not_yet (λ e. absurd (ground arith), λ h. absurd (ground (arith, h.0)))
]

-- An analysis may start exactly when the database has a ledger of its migrations and every
-- migration file is in it.
migration_refusal-read_migration_status :
    (files : List String) (ledger : Option (List String))
    → (migration_refusal (read_migration_status files ledger) ≡ none)
      ↔ ((applied : List String) × (ledger ≡ some applied) × All (IsApplied applied) files)
unfolding migration_refusal read_migration_status
migration_refusal-read_migration_status files none =
    (λ e. absurd (ground arith), λ h. absurd (ground (arith, h.1)))
migration_refusal-read_migration_status files (some applied) = (
  λ e. (
    applied,
    refl,
    (kept-All applied files).0
        (nothing_pending (keep (λ name. not (any (str_eq name) applied)) files) e),
  ),
  λ h. rw ((kept-All applied files).1 (rw (of_some h.1) h.2)) refl,
)
  where
    nothing_pending :
        (names : List String)
        → (elim names as (λ n. Option String) [
          | [] ↦ none
          | name ∷ rest ↦ some (
              refusal
                (append "The database is missing migrations " (append (join (name ∷ rest)) ".")))
        ])
          ≡ none
        → names ≡ []
    nothing_pending [] e = refl
    nothing_pending (n ∷ ns) e = absurd (ground arith)
