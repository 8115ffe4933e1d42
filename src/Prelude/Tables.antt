-- ===== src/Prelude/Tables.antt =====
-- A table of rows: the first row that matches, and INSERT … ON CONFLICT DO UPDATE.
use mathlib.Core.Path.{◌≡◌, refl, ap, ◌∙◌}
use mathlib.Core.Logic.{inl, inr}
use mathlib.Core.Bool.{Bool, true, false}
use mathlib.Core.Option.{Option, none, some}
use mathlib.Core.List.{List, [], ◌∷◌, map}
use native.Mathlib.Omega.{arith}
use verichron_epoch.Prelude.Tests.{if◌then◌else◌, Bool-cases, of_some}
use verichron_epoch.Prelude.Lists.{All}

module _ {ℓ} {A : Type ℓ} where
  unfoldable pub find : (A → Bool) → List A → Option A
  find p [] = none
  find p (x ∷ xs) = let rest = find p xs in if p x then some x else rest

  -- UPDATE … WHERE
  unfoldable pub update_where : (A → Bool) → (A → A) → List A → List A
  update_where p f [] = []
  update_where p f (x ∷ xs) = (if p x then f x else x) ∷ update_where p f xs

  -- The rows, the row that is returned, and whether it is new (`xmax = 0`).
  unfoldable pub upsert : (A → Bool) → (A → A) → A → List A → List A × A × Bool
  unfolding find update_where
  upsert p f new rows = elim (find p rows) [
    | none ↦ (new ∷ rows, new, true)
    | some row ↦ (update_where p f rows, f row, false)
  ]

  pub update_where-map :
      (p : A → Bool) (f : A → A) (rows : List A)
      → update_where p f rows ≡ map (λ x. if p x then f x else x) rows
  unfolding update_where
  update_where-map p f [] = refl
  update_where-map p f (x ∷ xs) =
      ap (λ (rest : List A). (if p x then f x else x) ∷ rest) (update_where-map p f xs)

  -- The row is the one found, and the update would change none that matches.
  abbrev pub Settled : (A → Bool) → (A → A) → A → List A → Type ℓ
  Settled p f row rows = (find p rows ≡ some row) × All (λ (x : A). p x ≡ true → f x ≡ x) rows

  find-none :
      (p : A → Bool) (f : A → A) (rows : List A)
      → find p rows ≡ none
      → All (λ (x : A). p x ≡ true → f x ≡ x) rows
  unfolding find
  find-none p f [] e = tt
  find-none p f (x ∷ xs) e = elim (Bool-cases (p x)) [
    | inl yes_x ↦ absurd (ground (arith, simp yes_x at e))
    | inr not_x ↦ (λ h. absurd (ground arith), find-none p f xs (simp not_x at e))
  ]

  module _ (p : A → Bool) (f : A → A) (keeps : (x : A) → p (f x) ≡ p x) where
    pub find-update_where :
        (rows : List A) (row : A)
        → find p rows ≡ some row
        → find p (update_where p f rows) ≡ some (f row)
    unfolding find update_where
    find-update_where [] row e = absurd (ground arith)
    find-update_where (x ∷ xs) row e = elim (Bool-cases (p x)) [
      | inl here ↦ simp (here, keeps x) (ap (λ (y : A). some (f y)) (of_some (simp here at e)))
      | inr there ↦ simp there (find-update_where xs row (simp there at e))
    ]

    update_where-All :
        (rows : List A)
        → ((x : A) → f (f x) ≡ f x)
        → All (λ (x : A). p x ≡ true → f x ≡ x) (update_where p f rows)
    unfolding update_where
    update_where-All [] idem = tt
    update_where-All (x ∷ xs) idem = elim (Bool-cases (p x)) [
      | inl here ↦ simp here (λ h. idem x, update_where-All xs idem)
      | inr there ↦ simp there (λ h. absurd (ground arith), update_where-All xs idem)
    ]

    pub upsert-Settled :
        (new : A) (rows : List A)
        → p new ≡ true
        → f new ≡ new
        → ((x : A) → f (f x) ≡ f x)
        → Settled p f (upsert p f new rows).1 (upsert p f new rows).0
    unfolding upsert find
    upsert-Settled new rows is_new same idem = go (find p rows) refl
      where
        go :
            (o : Option A)
            → find p rows ≡ o
            → Settled p f (upsert p f new rows).1 (upsert p f new rows).0
        go none absent =
            simp (absent, upsert) (simp is_new (refl, ((λ h. same), find-none p f rows absent)))
        go (some row) e =
            simp (e, upsert) (find-update_where rows row e, update_where-All rows idem)

  -- A second INSERT of a settled row changes nothing.
  update_twice :
      (p : A → Bool) (f : A → A) (rows : List A)
      → All (λ (x : A). p x ≡ true → f x ≡ x) rows
      → update_where p f rows ≡ rows
  unfolding update_where
  update_twice p f [] h = refl
  update_twice p f (x ∷ xs) h = elim (Bool-cases (p x)) [
    | inl here ↦ simp (here, h.0 here, update_twice p f xs h.1) refl
    | inr there ↦ simp (there, update_twice p f xs h.1) refl
  ]

  find-Settled :
      (p : A → Bool) (f : A → A) (rows : List A) (row : A) → Settled p f row rows → f row ≡ row
  unfolding find
  find-Settled p f [] row h = absurd (ground (arith, h.0))
  find-Settled p f (x ∷ xs) row h = elim (Bool-cases (p x)) [
    | inl here ↦ rw (of_some (simp here at h.0)) at (h.1.0 here)
    | inr there ↦ find-Settled p f xs row (simp there at h.0, h.1.1)
  ]

  pub upsert_twice :
      (p : A → Bool) (f : A → A) (new : A) (rows : List A) (row : A)
      → Settled p f row rows
      → upsert p f new rows ≡ (rows, row, false)
  unfolding upsert
  upsert_twice p f new rows row h =
      simp (h.0, upsert) (simp (update_twice p f rows h.1, find-Settled p f rows row h) refl)

  -- An INSERT of another row leaves a settled row as it is.
  module _ (p q : A → Bool) (f g : A → A) (same : (x : A) → p (g x) ≡ p x)
      (apart : (x : A) → q x ≡ true → p x ≡ false) where
    find-update_other : (rows : List A) → find p (update_where q g rows) ≡ find p rows
    unfolding find update_where
    find-update_other [] = refl
    find-update_other (x ∷ xs) = elim (Bool-cases (q x)) [
      | inl there ↦ simp (there, same x, apart x there) (find-update_other xs)
      | inr elsewhere ↦ simp (elsewhere, find-update_other xs) refl
    ]

    update_other-All :
        (rows : List A)
        → All (λ (x : A). p x ≡ true → f x ≡ x) rows
        → All (λ (x : A). p x ≡ true → f x ≡ x) (update_where q g rows)
    unfolding update_where
    update_other-All [] h = tt
    update_other-All (x ∷ xs) h = elim (Bool-cases (q x)) [
      | inl there ↦
          simp there
            ((λ e. absurd (ground (arith, same x, apart x there))), update_other-All xs h.1)
      | inr elsewhere ↦ simp elsewhere (h.0, update_other-All xs h.1)
    ]

    pub upsert_other-Settled :
        (new : A) (rows : List A) (row : A)
        → p new ≡ false
        → Settled p f row rows
        → Settled p f row (upsert q g new rows).0
    unfolding upsert find
    upsert_other-Settled new rows row other h = go (find q rows) refl
      where
        go : (o : Option A) → find q rows ≡ o → Settled p f row (upsert q g new rows).0
        go none absent =
            simp (absent, upsert) (simp other (h.0, ((λ e. absurd (ground arith)), h.1)))
        go (some found) e =
            simp (e, upsert) (find-update_other rows ∙ h.0, update_other-All rows h.1)
