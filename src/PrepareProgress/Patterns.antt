-- ===== src/PrepareProgress/Patterns.antt =====
-- The regular expressions of apps/epoch/src/shared/prepareProgress.ts as matchers over character
-- codes. Each star or plus is read greedily: what follows it in the pattern cannot match what it
-- takes, so no other way to match is lost.
use mathlib.Core.Option
use verichron_epoch.Prelude.{
  ℕ, ◌+◌, ◌-◌, ◌*◌, Bool, true, false, ◌&&◌, ◌||◌, not, [], ◌∷◌, Option, none, some, Text, text_eq,
  any, leb, ◌==◌, if◌then◌else◌,
}

-- JavaScript's `\s`.
unfoldable pub is_space : ℕ → Bool
is_space c =
    (leb 9 c && leb c 13)
    || c == 32
    || c == 160
    || c == 5760
    || (leb 8192 c && leb c 8202)
    || c == 8232
    || c == 8233
    || c == 8239
    || c == 8287
    || c == 12288
    || c == 65279

-- What `.` does not match.
unfoldable pub is_terminator : ℕ → Bool
is_terminator c = c == 10 || c == 13 || c == 8232 || c == 8233

unfoldable pub is_digit : ℕ → Bool
is_digit c = leb b'0' c && leb c b'9'

-- `\w`, for `\b`.
unfoldable pub is_word : ℕ → Bool
unfolding is_digit
is_word c = is_digit c || (leb b'a' c && leb c b'z') || (leb b'A' c && leb c b'Z') || c == b'_'

-- The `i` flag, on the ASCII letters of these patterns.
unfoldable pub lower : ℕ → ℕ
lower c = if leb b'A' c && leb c b'Z' then c + 32 else c

abbrev pub same_char : ℕ → ℕ → Bool
same_char a b = a == b

abbrev pub same_letter : ℕ → ℕ → Bool
same_letter a b = lower a == lower b

-- `.*$` or `.+$`: the text is on one line.
abbrev pub on_one_line : Text → Bool
on_one_line s = not (any is_terminator s)

abbrev pub is_empty : Text → Bool
is_empty [] = true
is_empty (_ ∷ _) = false

-- `rawLine.replace(/\s+$/, '')`.
unfoldable pub trim_end : Text → Text
unfolding is_space
trim_end [] = []
trim_end (c ∷ s) = let rest = trim_end s in if is_space c && is_empty rest then [] else c ∷ rest

-- `\s*`.
unfoldable pub skip_spaces : Text → Text
unfolding is_space
skip_spaces [] = []
skip_spaces (c ∷ s) = let rest = skip_spaces s in if is_space c then rest else c ∷ s

abbrev first_cons : ℕ → Text × Text → Text × Text
first_cons c (taken, rest) = (c ∷ taken, rest)

-- A literal part of a pattern at the start of a text: what it took, and the rest.
unfoldable pub literal : (ℕ → ℕ → Bool) → Text → Text → Option (Text × Text)
literal same [] s = some ([], s)
literal same (p ∷ ps) [] = none
literal same (p ∷ ps) (c ∷ s) =
    let rest = literal same ps s in if same p c then Option.map (first_cons c) rest else none

-- The rest after a literal part.
abbrev pub after : (ℕ → ℕ → Bool) → Text → Text → Option Text
after same p s = Option.map (λ (r : Text × Text). r.1) (literal same p s)

abbrev pub or_else {ℓ} : {A : Type ℓ} → Option A → Option A → Option A
or_else none y = y
or_else (some x) y = some x

-- `\d+`, and the rest.
unfoldable pub digits : Text → Text × Text
unfolding is_digit
digits [] = ([], [])
digits (c ∷ s) = let rest = digits s in if is_digit c then first_cons c rest else ([], c ∷ s)

abbrev number_from : ℕ → Text → ℕ
number_from acc [] = acc
number_from acc (c ∷ s) = number_from (acc * 10 + (c - b'0')) s

-- `Number(…)` of a run of digits.
abbrev to_number : Text → ℕ
to_number s = number_from 0 s

abbrev nonempty_number : Text × Text → Option (ℕ × Text)
nonempty_number ([], rest) = none
nonempty_number (c ∷ s, rest) = some (to_number (c ∷ s), rest)

unfoldable pub number : Text → Option (ℕ × Text)
unfolding digits
number s = nonempty_number (digits s)

-- A text that ends in `suffix`, without it.
unfoldable pub before : Text → Text → Option Text
before suffix [] = if text_eq suffix [] then some [] else none
before suffix (c ∷ s) =
    let rest = Option.map (λ (r : Text). c ∷ r) (before suffix s) in
    if text_eq suffix (c ∷ s) then some [] else rest

abbrev pub guard : Bool → Text → Option Text
guard b s = if b then some s else none
