-- ===== src/PrepareProgress/Banner.antt =====
-- The banner that apps/processor/src/main.ts prints for each backup, as the app reads it.
use mathlib.Core.List.{append_assoc}
use verichron_epoch.Prelude.{
  ℕ, ◌≡◌, refl, sym, ap, ◌∙◌, inl, inr, true, false, [], ◌∷◌, ◌++◌, some, Text, codes, text_eq,
  text_eq_iff, arith, length, length-append, Bool-cases,
}
use verichron_epoch.PrepareProgress.Patterns.{
  trim_end, is_space, is_empty, literal, before, same_char, on_one_line,
}
use verichron_epoch.PrepareProgress.Matching.{backup_start}

-- console.log(`=== ${name} ===`)
unfoldable pub banner : Text → Text
banner name = codes "=== " ++ (name ++ codes " ===")

pub literal-append : (p s : Text) → literal same_char p (p ++ s) ≡ some (p, s)
unfolding literal
literal-append [] s = refl
literal-append (c ∷ p) s = ground (arith, literal-append p s)

pub before-append : (l suffix : Text) → before suffix (l ++ suffix) ≡ some l
unfolding before
before-append [] [] = refl
before-append [] (c ∷ s) = ground (arith, text_eq_iff s s)
before-append (c ∷ l) suffix = elim (Bool-cases (text_eq suffix (c ∷ (l ++ suffix)))) [
  | inl long ↦ absurd (
      omega (
        arith,
        ap length ((text_eq_iff suffix (c ∷ (l ++ suffix))).0 long),
        length-append l suffix,
      ))
  | inr differs ↦ rw (differs, before-append l suffix)
]

is_empty-append : (s : Text) (c : ℕ) → is_empty (s ++ c ∷ []) ≡ false
is_empty-append [] c = refl
is_empty-append (d ∷ s) c = refl

trim_end-append : (s : Text) (c : ℕ) → is_space c ≡ false → trim_end (s ++ c ∷ []) ≡ s ++ c ∷ []
unfolding trim_end
trim_end-append [] c h = rw h
trim_end-append (d ∷ s) c h = ground (arith, trim_end-append s c h, is_empty-append s c)

banner_trimmed : (name : Text) → trim_end (banner name) ≡ banner name
unfolding banner
banner_trimmed name =
    let regroup : banner name ≡ (codes "=== " ++ (name ++ codes " ==")) ++ codes "=" = sym (
      append_assoc (codes "=== ") (name ++ codes " ==") (codes "=")
      ∙ ap (λ r. codes "=== " ++ r) (append_assoc name (codes " ==") (codes "="))) in
    rw regroup
      (trim_end-append (codes "=== " ++ (name ++ codes " ==")) b'=' (unfold is_space in refl))

banner_head :
    (name : Text)
    → literal same_char (codes "=== ") (banner name) ≡ some (codes "=== ", name ++ codes " ===")
unfolding banner
banner_head name = literal-append (codes "=== ") (name ++ codes " ===")

-- The app reads the banner of a backup as the start of that backup, for every name that is not
-- empty and has no line break in it.
pub backup_start-banner :
    (name : Text)
    → is_empty name ≡ false
    → on_one_line name ≡ true
    → backup_start (trim_end (banner name)) ≡ some name
unfolding backup_start
backup_start-banner name some_name one_line =
    rw (banner_trimmed name, banner_head, before-append name (codes " ==="), some_name, one_line)
