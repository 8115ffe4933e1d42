-- ===== src/AnalysisTargets/Sorting.antt =====
-- What the sorted lists of different labels hold, of apps/epoch/src/main/ipc/analysisTargets.ts and
-- apps/epoch/src/shared/analysisSelection.ts.
use verichron_epoch.Prelude.{
  ◌≡◌, refl, sym, ap, ◌∙◌, inl, inr, Bool, true, false, not, ◌&&◌, ◌||◌, List, [], ◌∷◌, keep, Text,
  text_eq, text_eq_iff, arith, Bool-cases,
}
use verichron_epoch.AnalysisTargets.{text_le, insert_by, sort_by, has, unique}

text_le-total : (s t : Text) → text_le s t ≡ false → text_le t s ≡ true
text_le-total [] t e = absurd (ground arith)
text_le-total (a ∷ s) [] e = refl
text_le-total (a ∷ s) (b ∷ t) e = ground (arith, text_le-total s t)

text_eq-swap : (a b : Text) → text_eq a b ≡ false → text_eq b a ≡ false
text_eq-swap a b e = elim (Bool-cases (text_eq b a)) [
  | inr other ↦ other
  | inl same ↦ absurd (ground (arith, sym e ∙ (text_eq_iff a b).1 (sym ((text_eq_iff b a).0 same))))
]

-- No text of the list comes before the one that it follows, in the order of their characters.
abbrev pub Follows : Text → List Text → Type 0
Follows l [] = Unit
Follows l (m ∷ ls) = text_le l m ≡ true

abbrev pub IsSorted : List Text → Type 0
IsSorted [] = Unit
IsSorted (l ∷ ls) = Follows l ls × IsSorted ls

abbrev pub IsDistinct : List Text → Type 0
IsDistinct [] = Unit
IsDistinct (l ∷ ls) = (has ls l ≡ false) × IsDistinct ls

insert_by-Follows :
    (l m : Text) (ls : List Text)
    → text_le m l ≡ true
    → Follows m ls
    → Follows m (insert_by text_le l ls)
unfolding insert_by
insert_by-Follows l m [] e h = e
insert_by-Follows l m (n ∷ ls) e h = elim (Bool-cases (text_le l n)) [
  | inl before ↦ simp before e
  | inr behind ↦ simp behind h
]

insert_by-IsSorted : (l : Text) (ls : List Text) → IsSorted ls → IsSorted (insert_by text_le l ls)
unfolding insert_by
insert_by-IsSorted l [] h = (tt, tt)
insert_by-IsSorted l (m ∷ ls) (follows, h) = elim (Bool-cases (text_le l m)) [
  | inl before ↦ simp before (refl, (follows, h))
  | inr behind ↦
      simp behind
        (insert_by-Follows l m ls (text_le-total l m behind) follows, insert_by-IsSorted l ls h)
]

pub sort_by-IsSorted : (ls : List Text) → IsSorted (sort_by text_le ls)
unfolding sort_by
sort_by-IsSorted [] = tt
sort_by-IsSorted (l ∷ ls) = insert_by-IsSorted l (sort_by text_le ls) (sort_by-IsSorted ls)

insert_by-first : (l : Text) (ls : List Text) → Follows l ls → insert_by text_le l ls ≡ l ∷ ls
unfolding insert_by
insert_by-first l [] h = refl
insert_by-first l (m ∷ ls) h = simp h refl

pub sort_by-sorted : (ls : List Text) → IsSorted ls → sort_by text_le ls ≡ ls
unfolding sort_by
sort_by-sorted [] h = refl
sort_by-sorted (l ∷ ls) (follows, h) =
    ap (insert_by text_le l) (sort_by-sorted ls h) ∙ insert_by-first l ls follows

has-insert_by :
    (l : Text) (ls : List Text) (m : Text) → has (insert_by text_le l ls) m ≡ has (l ∷ ls) m
unfolding insert_by
has-insert_by l [] m = refl
has-insert_by l (n ∷ ls) m = elim (Bool-cases (text_le l n)) [
  | inl before ↦ simp before refl
  | inr behind ↦ simp behind (
      ap (λ (b : Bool). text_eq m n || b) (has-insert_by l ls m)
      ∙ swap (text_eq m n) (text_eq m l) (has ls m))
]
  where
    swap : (a b c : Bool) → (a || (b || c)) ≡ (b || (a || c))
    swap true true c = refl
    swap true false c = refl
    swap false b c = refl

pub has-sort_by : (ls : List Text) (m : Text) → has (sort_by text_le ls) m ≡ has ls m
unfolding sort_by
has-sort_by [] m = refl
has-sort_by (l ∷ ls) m =
    has-insert_by l (sort_by text_le ls) m ∙ ap (λ (b : Bool). text_eq m l || b) (has-sort_by ls m)

neither : (a : Bool) → (a && false) ≡ false
neither true = refl
neither false = refl

pub has-keep :
    (test : Text → Bool) (ls : List Text) (m : Text) → has (keep test ls) m ≡ (has ls m && test m)
has-keep test [] m = refl
has-keep test (l ∷ ls) m = elim (Bool-cases (test l)) [
  | inl kept ↦ elim (Bool-cases (text_eq m l)) [
    | inl same ↦ simp (kept, same, ap test ((text_eq_iff m l).0 same) ∙ kept) refl
    | inr other ↦ simp (kept, other) (has-keep test ls m)
  ]
  | inr left ↦ elim (Bool-cases (text_eq m l)) [
    | inl same ↦
        simp (left, same)
          (has-keep test ls m
            ∙ ap (λ (b : Bool). has ls m && b) (ap test ((text_eq_iff m l).0 same) ∙ left)
            ∙ neither (has ls m)
            ∙ sym (ap test ((text_eq_iff m l).0 same) ∙ left))
    | inr other ↦ simp (left, other) (has-keep test ls m)
  ]
]

pub has-unique : (ls : List Text) (m : Text) → has (unique ls) m ≡ has ls m
unfolding unique
has-unique [] m = refl
has-unique (l ∷ ls) m = elim (Bool-cases (text_eq m l)) [
  | inl same ↦ simp same refl
  | inr other ↦ simp other (
      has-keep (λ n. not (text_eq l n)) (unique ls) m
      ∙ simp (text_eq-swap m l other) (both (has (unique ls) m) ∙ has-unique ls m))
]
  where
    both : (a : Bool) → (a && true) ≡ a
    both true = refl
    both false = refl

has-keep-false :
    (test : Text → Bool) (ls : List Text) (m : Text)
    → has ls m ≡ false
    → has (keep test ls) m ≡ false
has-keep-false test ls m e = has-keep test ls m ∙ ap (λ (b : Bool). b && test m) e

pub keep-IsDistinct :
    (test : Text → Bool) (ls : List Text) → IsDistinct ls → IsDistinct (keep test ls)
keep-IsDistinct test [] h = tt
keep-IsDistinct test (l ∷ ls) (new, h) = elim (Bool-cases (test l)) [
  | inl kept ↦ simp kept (has-keep-false test ls l new, keep-IsDistinct test ls h)
  | inr left ↦ simp left (keep-IsDistinct test ls h)
]

pub unique-IsDistinct : (ls : List Text) → IsDistinct (unique ls)
unfolding unique
unique-IsDistinct [] = tt
unique-IsDistinct (l ∷ ls) = (
  has-keep (λ n. not (text_eq l n)) (unique ls) l
      ∙ simp ((text_eq_iff l l).1 refl) (neither (has (unique ls) l)),
  keep-IsDistinct (λ n. not (text_eq l n)) (unique ls) (unique-IsDistinct ls),
)

insert_by-IsDistinct :
    (l : Text) (ls : List Text)
    → has ls l ≡ false
    → IsDistinct ls
    → IsDistinct (insert_by text_le l ls)
unfolding insert_by
insert_by-IsDistinct l [] new h = (new, tt)
insert_by-IsDistinct l (m ∷ ls) new (first, h) = elim (Bool-cases (text_eq l m)) [
  | inl same ↦ absurd (ground (arith, simp same at new))
  | inr other ↦ elim (Bool-cases (text_le l m)) [
    | inl before ↦ simp before (new, (first, h))
    | inr behind ↦ simp behind (
      has-insert_by l ls m ∙ simp (text_eq-swap l m other) first,
      insert_by-IsDistinct l ls (simp other at new) h,
    )
  ]
]

pub sort_by-IsDistinct : (ls : List Text) → IsDistinct ls → IsDistinct (sort_by text_le ls)
unfolding sort_by
sort_by-IsDistinct [] h = tt
sort_by-IsDistinct (l ∷ ls) (new, h) =
    insert_by-IsDistinct l (sort_by text_le ls) (has-sort_by ls l ∙ new) (sort_by-IsDistinct ls h)

keep_others : (l : Text) (ls : List Text) → has ls l ≡ false → keep (λ m. not (text_eq l m)) ls ≡ ls
keep_others l [] e = refl
keep_others l (m ∷ ls) e = elim (Bool-cases (text_eq l m)) [
  | inl same ↦ absurd (ground (arith, simp same at e))
  | inr other ↦ simp other (ap (λ (ms : List Text). m ∷ ms) (keep_others l ls (simp other at e)))
]

pub unique-distinct : (ls : List Text) → IsDistinct ls → unique ls ≡ ls
unfolding unique
unique-distinct [] h = refl
unique-distinct (l ∷ ls) (new, h) =
    ap (λ (ms : List Text). l ∷ keep (λ m. not (text_eq l m)) ms) (unique-distinct ls h)
    ∙ ap (λ (ms : List Text). l ∷ ms) (keep_others l ls new)
