-- ===== src/AnalysisTargets/Offered.antt =====
-- What apps/epoch/src/main/ipc/analysisTargets.ts accepts, and what
-- apps/epoch/src/shared/analysisSelection.ts offers it.
use verichron_epoch.Prelude.{
  ◌≡◌, ◌≢◌, refl, sym, ◌&&◌, ap, ◌∙◌, inl, inr, Bool, true, not, List, [], ◌∷◌, map, keep, Option,
  none, some, Text, text_eq, text_eq_iff, arith, All, Bool-cases,
}
use verichron_epoch.AnalysisTargets.Sorting.{
  IsSorted, IsDistinct, has-sort_by, has-keep, has-unique, sort_by-IsDistinct, keep-IsDistinct,
  unique-IsDistinct, sort_by-IsSorted, unique-distinct, sort_by-sorted,
}
use verichron_epoch.AnalysisTargets.{
  PreparedBackup, Listed, text_le, insert_by, sort_by, read_prepared_backups, ready, has, unique,
  Argument, name, names_of, Refusal, targets, is_backup_name, check_labels, target_in, targets_of,
  named_targets, checked_targets, analysis_targets, analysis_selection,
}

module _ {A : Type 0} (P : A → Type 0) where
  insert_by-All :
      (le : A → A → Bool) (x : A) (xs : List A) → P x → All P xs → All P (insert_by le x xs)
  unfolding insert_by
  insert_by-All le x [] p h = (p, tt)
  insert_by-All le x (y ∷ ys) p (q, h) = elim (Bool-cases (le x y)) [
    | inl before ↦ simp before (p, (q, h))
    | inr behind ↦ simp behind (q, insert_by-All le x ys p h)
  ]

  sort_by-All : (le : A → A → Bool) (xs : List A) → All P xs → All P (sort_by le xs)
  unfolding sort_by
  sort_by-All le [] h = tt
  sort_by-All le (x ∷ xs) (p, h) = insert_by-All le x (sort_by le xs) p (sort_by-All le xs h)

  keep-All : (test : A → Bool) (xs : List A) → All P xs → All P (keep test xs)
  keep-All test [] h = tt
  keep-All test (x ∷ xs) (p, h) = elim (Bool-cases (test x)) [
    | inl kept ↦ simp kept (p, keep-All test xs h)
    | inr left ↦ simp left (keep-All test xs h)
  ]

keep-holds : (test : Text → Bool) (ls : List Text) → All (λ l. test l ≡ true) (keep test ls)
keep-holds test [] = tt
keep-holds test (l ∷ ls) = elim (Bool-cases (test l)) [
  | inl kept ↦ simp kept (refl, keep-holds test ls)
  | inr left ↦ simp left (keep-holds test ls)
]

module _ (P : Text → Type 0) where
  unique-All : (ls : List Text) → All P ls → All P (unique ls)
  unfolding unique
  unique-All [] h = tt
  unique-All (l ∷ ls) (p, h) =
      (p, keep-All P (λ m. not (text_eq l m)) (unique ls) (unique-All ls h))

  All-has : (ls : List Text) (l : Text) → All P ls → has ls l ≡ true → P l
  All-has [] l h e = absurd (ground arith)
  All-has (m ∷ ls) l (p, h) e = elim (Bool-cases (text_eq l m)) [
    | inl same ↦ rw ((text_eq_iff l m).0 same) p
    | inr other ↦ All-has ls l h (simp other at e)
  ]

All-mono : (P Q : Text → Type 0) (ls : List Text) → ((l : Text) → P l → Q l) → All P ls → All Q ls
All-mono P Q [] f h = tt
All-mono P Q (l ∷ ls) f (p, h) = (f l p, All-mono P Q ls f h)

names_of-map : (ls : List Text) → names_of (map name ls) ≡ some ls
names_of-map [] = refl
names_of-map (l ∷ ls) = rw (names_of-map ls) refl

of_targets : {a b : List (List Text)} → targets a ≡ targets b → a ≡ b
of_targets e = cc

-- What the screen includes: the labels that are selected and prepared, each once, sorted.
included-IsChosen :
    (le : Text → Text → Bool) (selected : List Text) (backups : List PreparedBackup) (l : Text)
    → let included = (analysis_selection le selected backups).included in
      (has included l ≡ (has selected l && has (ready backups) l))
      × IsDistinct included
      × IsSorted included
unfolding analysis_selection
included-IsChosen le selected backups l =
    let known : List Text = unique (ready backups) in
    let chosen : List Text = unique selected in
    let kept : List Text = keep (has known) chosen in
    (
      has-sort_by kept l
          ∙ has-keep (has known) chosen l
          ∙ ap (λ (b : Bool). b && has known l) (has-unique selected l)
          ∙ ap (λ (b : Bool). has selected l && b) (has-unique (ready backups) l),
      sort_by-IsDistinct kept (keep-IsDistinct (has known) chosen (unique-IsDistinct selected)),
      sort_by-IsSorted kept,
    )

module _ (basename : Text → Text) where
  -- A label that an analysis accepts.
  abbrev pub Accepted : List PreparedBackup → Text → Type 0
  Accepted backups l = (is_backup_name basename l ≡ true) × (has (ready backups) l ≡ true)

  check_labels-All :
      (backups : List PreparedBackup) (ls : List Text)
      → All (Accepted backups) ls
      → check_labels basename (ready backups) ls ≡ none
  check_labels-All backups [] h = refl
  check_labels-All backups (l ∷ ls) ((plain, known), h) =
      simp (plain, known) (check_labels-All backups ls h)

  All-check_labels :
      (backups : List PreparedBackup) (ls : List Text)
      → check_labels basename (ready backups) ls ≡ none
      → All (Accepted backups) ls
  All-check_labels backups [] e = tt
  All-check_labels backups (l ∷ ls) e = elim (Bool-cases (is_backup_name basename l)) [
    | inr odd ↦ absurd (ground (arith, simp odd at e))
    | inl plain ↦ elim (Bool-cases (has (ready backups) l)) [
      | inr missing ↦ absurd (ground (arith, simp (plain, missing) at e))
      | inl known ↦ ((plain, known), All-check_labels backups ls (simp (plain, known) at e))
    ]
  ]

  included-All :
      (le : Text → Text → Bool) (selected : List Text) (backups : List PreparedBackup)
      → All (λ l. is_backup_name basename l ≡ true) (ready backups)
      → All (Accepted backups) (analysis_selection le selected backups).included
  unfolding analysis_selection
  included-All le selected backups plain =
      let known : List Text = unique (ready backups) in
      sort_by-All (Accepted backups) text_le (keep (has known) (unique selected)) (
        All-mono (λ l. has known l ≡ true) (Accepted backups) (keep (has known) (unique selected))
          (λ l e. (
            All-has (λ m. is_backup_name basename m ≡ true) (ready backups) l plain
                (sym (has-unique (ready backups) l) ∙ e),
            sym (has-unique (ready backups) l) ∙ e,
          ))
          (keep-holds (has known) (unique selected)))

  -- A path that an analysis reads: that of a backup that is prepared in this workspace.
  abbrev pub IsTarget : List Text → List PreparedBackup → List Text → Type 0
  IsTarget workspace backups path =
      (l : Text) × (path ≡ target_in basename workspace l) × Accepted backups l

  targets-All :
      (workspace : List Text) (backups : List PreparedBackup) (ls : List Text)
      → All (Accepted backups) ls
      → All (IsTarget workspace backups) (map (target_in basename workspace) ls)
  targets-All workspace backups [] h = tt
  targets-All workspace backups (l ∷ ls) (p, h) = ((l, refl, p), targets-All workspace backups ls h)

  checked_targets-All :
      (workspace : List Text) (backups : List PreparedBackup) (ls : List Text)
      (paths : List (List Text))
      → checked_targets basename workspace (ready backups) ls ≡ targets paths
      → All (IsTarget workspace backups) paths
  checked_targets-All workspace backups ls paths e =
      go (check_labels basename (ready backups) ls) refl
    where
      go :
          (o : Option Refusal)
          → check_labels basename (ready backups) ls ≡ o
          → All (IsTarget workspace backups) paths
      go (some refusal) is = absurd (ground (arith, simp is at e))
      go none is =
          let same : map (target_in basename workspace) ls ≡ paths = of_targets (simp is at e) in
          rw (← same) (targets-All workspace backups ls (All-check_labels backups ls is))

  -- Whatever the renderer asks for, an analysis that is not refused reads only backups of this
  -- workspace that are prepared in it now, each by the name of a folder directly in `decrypted`.
  pub analysis_targets-All :
      (workspace : List Text) (listing : Option (List Listed)) (labels : List Argument)
      (paths : List (List Text))
      → analysis_targets basename workspace listing labels ≡ targets paths
      → All (IsTarget workspace (read_prepared_backups listing)) paths
  unfolding analysis_targets
  analysis_targets-All workspace listing [] paths e = absurd (ground arith)
  analysis_targets-All workspace listing (a ∷ more) paths e = go (names_of (a ∷ more)) e
    where
      go :
          (o : Option (List Text))
          → named_targets basename workspace (ready (read_prepared_backups listing)) o
            ≡ targets paths
          → All (IsTarget workspace (read_prepared_backups listing)) paths
      go none e = absurd (ground arith)
      go (some ls) e =
          checked_targets-All workspace (read_prepared_backups listing)
            (sort_by text_le (unique ls)) paths e

  -- What the screen offers is accepted, and read as it is offered: where the backups are still
  -- prepared as the screen saw them, and their labels are names of folders, an analysis of all that
  -- the screen includes reads exactly the folders of those, in that order. What it includes are the
  -- labels that are selected and prepared, each once, in the order of their characters.
  pub analysis_selection-analysis_targets :
      (le : Text → Text → Bool) (workspace : List Text) (listing : Option (List Listed))
      (selected : List Text) (l : Text)
      → All (λ l. is_backup_name basename l ≡ true) (ready (read_prepared_backups listing))
      → (analysis_selection le selected (read_prepared_backups listing)).included ≢ []
      → let included = (analysis_selection le selected (read_prepared_backups listing)).included in
        (analysis_targets basename workspace listing (map name included)
          ≡ targets (map (target_in basename workspace) included))
        × (has included l ≡ (has selected l && has (ready (read_prepared_backups listing)) l))
        × IsDistinct included
        × IsSorted included
  unfolding analysis_targets
  analysis_selection-analysis_targets le workspace listing selected l plain some_included =
      let backups : List PreparedBackup = read_prepared_backups listing in
      let included : List Text = (analysis_selection le selected backups).included in
      let (member, distinct, sorted) = included-IsChosen le selected backups l in
      (
        accepts included some_included (included-All le selected backups plain)
            ∙ ap (λ (ls : List Text). targets (map (target_in basename workspace) ls))
                (ap (sort_by text_le) (unique-distinct included distinct)
                  ∙ sort_by-sorted included sorted),
        member,
        distinct,
        sorted,
      )
    where
      accepts :
          (ls : List Text)
          → ls ≢ []
          → All (Accepted (read_prepared_backups listing)) ls
          → analysis_targets basename workspace listing (map name ls)
            ≡ targets (map (target_in basename workspace) (sort_by text_le (unique ls)))
      accepts [] h all = absurd (h refl)
      accepts (l ∷ ls) h all =
          let backups : List PreparedBackup = read_prepared_backups listing in
          let sorted : List Text = sort_by text_le (unique (l ∷ ls)) in
          let good : All (Accepted backups) sorted =
            sort_by-All (Accepted backups) text_le (unique (l ∷ ls))
              (unique-All (Accepted backups) (l ∷ ls) all) in
          ap (named_targets basename workspace (ready backups)) (names_of-map (l ∷ ls))
          ∙ ap (targets_of basename workspace sorted) (check_labels-All backups sorted good)
