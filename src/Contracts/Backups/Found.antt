-- ===== src/Contracts/Backups/Found.antt =====
-- Which directories packages/contracts/ts/discoverBackups.ts finds.
use mathlib.Core.List.{Memᴰ}
use mathlib.Core.List.Memᴰ.{
  head, tail, append_left, append_right, append_cases, of_map, not-nil, map as mem_map,
}
use verichron_epoch.Prelude.{
  ℕ, zero, suc, ◌≡◌, ◌↔◌, ◌⊎◌, refl, sym, ap, inl, inr, Bool, true, false, List, [], ◌∷◌, map, none,
  Text, length, if◌then◌else◌,
}
use verichron_epoch.Contracts.Backups.{
  Directory, directory, Entries, nil, file, folder, backup_search_max_depth, find_backup_roots,
  find_in, Backup, label_of, backups_of, wanted_backups, found_in, insert_backup, sort_backups,
  discover_backups,
}

-- A directory among the entries of another.
pub data Entry (name : Text) (dir : Directory) : Entries → Type 0 where
  first : (es : Entries) → Entry name dir (folder name dir es)
  after_file : (other : Text) (es : Entries) → Entry name dir es → Entry name dir (file other es)
  after_folder :
      (other : Text) (beside : Directory) (es : Entries)
      → Entry name dir es
      → Entry name dir (folder other beside es)

-- A backup that stands `p` down a directory, at most `n` levels, with none above it.
pub data RootAt : Directory → ℕ → List Text → Type 0 where
  here : (lists : Bool) (es : Entries) (n : ℕ) → RootAt (directory true lists es) n []
  below :
      (es : Entries) (n : ℕ) (name : Text) (dir : Directory) (p : List Text)
      → Entry name dir es
      → RootAt dir n p
      → RootAt (directory false true es) (suc n) (name ∷ p)

-- A backup that stands `p` down one of the entries.
abbrev pub RootIn : Entries → ℕ → List Text → Type 0
RootIn es n [] = ⊥
RootIn es n (name ∷ p) = (dir : Directory) × Entry name dir es × RootAt dir n p

root_after :
    (es es' : Entries) (n : ℕ) (p : List Text)
    → ((name : Text) (dir : Directory) → Entry name dir es → Entry name dir es')
    → RootIn es n p
    → RootIn es' n p
root_after es es' n [] f h = h
root_after es es' n (name ∷ p) f (dir, e, r) = (dir, f name dir e, r)

mutual
  unfolding find_backup_roots

  found-RootAt :
      (dir : Directory) (n : ℕ) (p : List Text) → Memᴰ p (find_backup_roots dir n) → RootAt dir n p
  found-RootAt (directory true lists es) n p (head e) = rw e (here lists es n)
  found-RootAt (directory true lists es) n p (tail m) = absurd (not-nil m)
  found-RootAt (directory false lists es) zero p m = absurd (not-nil m)
  found-RootAt (directory false false es) (suc n) p m = absurd (not-nil m)
  found-RootAt (directory false true es) (suc n) [] m = absurd (found-RootIn es n [] m)
  found-RootAt (directory false true es) (suc n) (name ∷ p) m =
      let (dir, e, r) = found-RootIn es n (name ∷ p) m in below es n name dir p e r

  found-RootIn : (es : Entries) (n : ℕ) (p : List Text) → Memᴰ p (find_in es n) → RootIn es n p
  found-RootIn nil n p m = absurd (not-nil m)
  found-RootIn (file other es) n p m =
      root_after es (file other es) n p (λ name dir e. after_file other es e)
        (found-RootIn es n p m)
  found-RootIn (folder name dir es) n p m =
      elim (append_cases (map (λ (q : List Text). name ∷ q) (find_backup_roots dir n)) m) [
        | inl here_below ↦
            let (q, within, is) =
              of_map (λ (q : List Text). name ∷ q) (find_backup_roots dir n) here_below in
            rw (← is) (dir, first es, found-RootAt dir n q within)
        | inr beside ↦
            root_after es (folder name dir es) n p (λ other d e. after_folder name dir es e)
              (found-RootIn es n p beside)
      ]

entry-found :
    (n : ℕ) (name : Text) (dir : Directory) (p : List Text) (es : Entries)
    → Entry name dir es
    → Memᴰ p (find_backup_roots dir n)
    → Memᴰ (name ∷ p) (find_in es n)
unfolding find_backup_roots
entry-found n name dir p _ (first es) m =
    append_left (find_in es n) (mem_map (λ (q : List Text). name ∷ q) m)
entry-found n name dir p _ (after_file other es e) m = entry-found n name dir p es e m
entry-found n name dir p _ (after_folder other beside es e) m =
    append_right (map (λ (q : List Text). other ∷ q) (find_backup_roots beside n))
      (entry-found n name dir p es e m)

root-found :
    (dir : Directory) (n : ℕ) (p : List Text) → RootAt dir n p → Memᴰ p (find_backup_roots dir n)
unfolding find_backup_roots
root-found _ _ _ (here lists es n) = head refl
root-found _ _ _ (below es n name dir p e r) = entry-found n name dir p es e (root-found dir n p r)

wanted_backups-none : (name : Text) (bs : List Backup) → wanted_backups none name bs ≡ bs
wanted_backups-none name [] = refl
wanted_backups-none name (b ∷ bs) = ap (λ (r : List Backup). b ∷ r) (wanted_backups-none name bs)

backups_of-path :
    (name : Text) (n : ℕ) (roots : List (List Text)) (b : Backup)
    → Memᴰ b (backups_of name n roots)
    → (p : List Text) × Memᴰ p roots × (b.path ≡ name ∷ p)
backups_of-path name n [] b m = absurd (not-nil m)
backups_of-path name n (root ∷ roots) b (head e) = (root, head refl, ap (λ (x : Backup). x.path) e)
backups_of-path name n (root ∷ roots) b (tail m) =
    let (p, within, is) = backups_of-path name n roots b m in (p, tail within, is)

path-backups_of :
    (name : Text) (n : ℕ) (roots : List (List Text)) (p : List Text)
    → Memᴰ p roots
    → (b : Backup) × Memᴰ b (backups_of name n roots) × (b.path ≡ name ∷ p)
path-backups_of name n [] p m = absurd (not-nil m)
path-backups_of name n (root ∷ roots) p (head e) = (
  record { label = label_of name n root; path = name ∷ root },
  head refl,
  ap (λ (q : List Text). name ∷ q) (sym e),
)
path-backups_of name n (root ∷ roots) p (tail m) =
    let (b, within, is) = path-backups_of name n roots p m in (b, tail within, is)

found_in-RootIn :
    (es : Entries) (b : Backup)
    → Memᴰ b (found_in none es)
    → RootIn es backup_search_max_depth b.path
unfolding found_in
found_in-RootIn nil b m = absurd (not-nil m)
found_in-RootIn (file other es) b m =
    root_after es (file other es) _ b.path (λ name dir e. after_file other es e)
      (found_in-RootIn es b m)
found_in-RootIn (folder name dir es) b m =
    let roots : List (List Text) = find_backup_roots dir backup_search_max_depth in
    let bs : List Backup = backups_of name (length roots) roots in
    elim (append_cases bs (rw (wanted_backups-none name bs) at m)) [
      | inl own ↦
          let (p, within, is) = backups_of-path name (length roots) roots b own in
          rw is (dir, first es, found-RootAt dir backup_search_max_depth p within)
      | inr beside ↦
          root_after es (folder name dir es) _ b.path (λ other d e. after_folder name dir es e)
            (found_in-RootIn es b beside)
    ]

RootIn-found_in :
    (name : Text) (dir : Directory) (p : List Text) (es : Entries)
    → Entry name dir es
    → Memᴰ p (find_backup_roots dir backup_search_max_depth)
    → (b : Backup) × Memᴰ b (found_in none es) × (b.path ≡ name ∷ p)
unfolding found_in
RootIn-found_in name dir p _ (first es) m =
    let roots : List (List Text) = find_backup_roots dir backup_search_max_depth in
    let bs : List Backup = backups_of name (length roots) roots in
    let (b, within, is) = path-backups_of name (length roots) roots p m in
    (b, rw (wanted_backups-none name bs) (append_left (found_in none es) within), is)
RootIn-found_in name dir p _ (after_file other es e) m = RootIn-found_in name dir p es e m
RootIn-found_in name dir p _ (after_folder other beside es e) m =
    let (b, within, is) = RootIn-found_in name dir p es e m in (b, append_right _ within, is)

module _ (le : Text → Text → Bool) where
  insert-from :
      (c : Backup) (bs : List Backup) (b : Backup)
      → Memᴰ b (insert_backup le c bs)
      → (b ≡ c) ⊎ Memᴰ b bs
  unfolding insert_backup
  insert-from c [] b (head e) = inl e
  insert-from c [] b (tail m) = absurd (not-nil m)
  insert-from c (d ∷ ds) b m = go (le c.label d.label) m (insert-from c ds b)
    where
      go :
          (test : Bool)
          → Memᴰ b (if test then c ∷ d ∷ ds else d ∷ insert_backup le c ds)
          → (Memᴰ b (insert_backup le c ds) → (b ≡ c) ⊎ Memᴰ b ds)
          → (b ≡ c) ⊎ Memᴰ b (d ∷ ds)
      go true (head e) further = inl e
      go true (tail m) further = inr m
      go false (head e) further = inr (head e)
      go false (tail m) further = elim (further m) [ inl e ↦ inl e | inr m' ↦ inr (tail m') ]

  insert-to :
      (c : Backup) (bs : List Backup) (b : Backup)
      → (b ≡ c) ⊎ Memᴰ b bs
      → Memᴰ b (insert_backup le c bs)
  unfolding insert_backup
  insert-to c [] b (inl e) = head e
  insert-to c [] b (inr m) = absurd (not-nil m)
  insert-to c (d ∷ ds) b h = go (le c.label d.label) h (insert-to c ds b)
    where
      go :
          (test : Bool)
          → (b ≡ c) ⊎ Memᴰ b (d ∷ ds)
          → ((b ≡ c) ⊎ Memᴰ b ds → Memᴰ b (insert_backup le c ds))
          → Memᴰ b (if test then c ∷ d ∷ ds else d ∷ insert_backup le c ds)
      go true (inl e) further = head e
      go true (inr m) further = tail m
      go false (inl e) further = tail (further (inl e))
      go false (inr (head e)) further = head e
      go false (inr (tail m)) further = tail (further (inr m))

  sort-from : (bs : List Backup) (b : Backup) → Memᴰ b (sort_backups le bs) → Memᴰ b bs
  unfolding sort_backups
  sort-from [] b m = m
  sort-from (c ∷ cs) b m = elim (insert-from c (sort_backups le cs) b m) [
    | inl e ↦ head e
    | inr m' ↦ tail (sort-from cs b m')
  ]

  pub sort-to : (bs : List Backup) (b : Backup) → Memᴰ b bs → Memᴰ b (sort_backups le bs)
  unfolding sort_backups
  sort-to [] b m = m
  sort-to (c ∷ cs) b (head e) = insert-to c (sort_backups le cs) b (inl e)
  sort-to (c ∷ cs) b (tail m) = insert-to c (sort_backups le cs) b (inr (sort-to cs b m))

  -- The backups that are discovered, where none are asked for by name, are exactly the directories
  -- that look like one and stand under an entry of the source, at most three levels below it, with
  -- none that looks like one above them, and where each directory on the way can be listed.
  pub discover_backups-RootIn :
      (source : Entries) (path : List Text)
      → ((b : Backup) × Memᴰ b (discover_backups le source none) × (b.path ≡ path))
        ↔ RootIn source backup_search_max_depth path
  unfolding discover_backups
  discover_backups-RootIn source path = (from path, to path)
    where
      from :
          (path : List Text)
          → (b : Backup) × Memᴰ b (discover_backups le source none) × (b.path ≡ path)
          → RootIn source backup_search_max_depth path
      from path (b, m, is) =
          rw (← is) (found_in-RootIn source b (sort-from (found_in none source) b m))

      to :
          (path : List Text)
          → RootIn source backup_search_max_depth path
          → (b : Backup) × Memᴰ b (discover_backups le source none) × (b.path ≡ path)
      to [] h = absurd h
      to (name ∷ p) (dir, e, r) =
          let (b, within, is) =
            RootIn-found_in name dir p source e (root-found dir backup_search_max_depth p r) in
          (b, sort-to (found_in none source) b within, is)
