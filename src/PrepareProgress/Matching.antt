-- ===== src/PrepareProgress/Matching.antt =====
-- The lines that apps/epoch/src/shared/prepareProgress.ts knows: its eight regular expressions.
use verichron_epoch.Prelude.{
  ℕ, Bool, true, ◌&&◌, not, [], ◌∷◌, Option, none, some, ◌>>=◌, Text, codes, text_eq, ◌==◌, is_some,
  ◌||◌, if◌then◌else◌,
}
use verichron_epoch.PrepareProgress.Patterns.{
  same_char, same_letter, on_one_line, is_empty, is_word, skip_spaces, literal, after, or_else,
  number, before, guard,
}

abbrev pub hash : Text
hash = codes "hash"

abbrev pub decrypt : Text
decrypt = codes "decrypt"

abbrev pub repair : Text
repair = codes "repair"

abbrev pub ileapp : Text
ileapp = codes "ileapp"

-- /^=== (.+) ===$/
unfoldable pub backup_start : Text → Option Text
unfolding literal before
backup_start s = do
  middle ← after same_char (codes "=== ") s
  label ← before (codes " ===") middle
  guard (not (is_empty label) && on_one_line label) label

-- (hash|decrypt|repair|ileapp), as it is spelled in the line.
stage_word : (ℕ → ℕ → Bool) → Text → Option (Text × Text)
unfolding literal
stage_word same s =
    or_else (literal same hash s)
      (or_else (literal same decrypt s) (or_else (literal same repair s) (literal same ileapp s)))

-- /^\s*\[(hash|decrypt|repair|ileapp)\]/
stage_tag : (ℕ → ℕ → Bool) → Text → Option (Text × Text)
unfolding literal skip_spaces stage_word
stage_tag same s = do
  inner ← after same (codes "[") (skip_spaces s)
  (stage, rest) ← stage_word same inner
  rest' ← after same (codes "]") rest
  some (stage, rest')

-- /^\s*\[(hash|decrypt|repair|ileapp)\]\s*(.*)$/
unfoldable pub stage_line : Text → Option (Text × Text)
unfolding stage_tag skip_spaces
stage_line s = do
  (stage, rest) ← stage_tag same_char s
  detail ← guard (on_one_line (skip_spaces rest)) (skip_spaces rest)
  some (stage, detail)

-- `\b` after a word.
abbrev at_boundary : Text → Bool
at_boundary [] = true
at_boundary (c ∷ s) = not (is_word c)

-- `:?`
abbrev skip_colon : Text → Text
skip_colon [] = []
skip_colon (c ∷ s) = if c == b':' then s else c ∷ s

-- /^\s*\[(hash|decrypt|repair|ileapp)\]\s*error\b:?\s*(.*)$/i
unfoldable pub stage_error : Text → Option (Text × Text)
unfolding stage_tag skip_spaces literal is_word
stage_error s = do
  (stage, rest) ← stage_tag same_letter s
  tail ← after same_letter (codes "error") (skip_spaces rest)
  let message = skip_spaces (skip_colon tail)
  message' ← guard (at_boundary tail && on_one_line message) message
  some (stage, message')

-- `\s+`
spaces : Text → Option Text
unfolding skip_spaces
spaces s = guard (not (text_eq (skip_spaces s) s)) (skip_spaces s)

abbrev at_end : ℕ × Text → Option ℕ
at_end (n, []) = some n
at_end (n, c ∷ s) = none

-- Two numbers, with what stands before, between and behind them.
two_numbers : Text → Text → Text → Text → Option (ℕ × ℕ)
unfolding literal number
two_numbers prefix between behind s = do
  (n, rest) ← after same_char prefix s >>= number
  (m, rest') ← after same_char between rest >>= number
  tail ← after same_char behind rest'
  m' ← at_end (m, tail)
  some (n, m')

-- /^\s*\[hash\]\s+progress (\d+) bytes, (\d+) files$/
unfoldable pub hash_progress : Text → Option (ℕ × ℕ)
unfolding literal skip_spaces spaces two_numbers
hash_progress s = do
  rest ← after same_char (codes "[hash]") (skip_spaces s) >>= spaces
  two_numbers (codes "progress ") (codes " bytes, ") (codes " files") rest

-- /^\s*\[decrypt\]\s+progress (\d+) of (\d+) bytes$/
unfoldable pub decrypt_progress : Text → Option (ℕ × ℕ)
unfolding literal skip_spaces spaces two_numbers
decrypt_progress s = do
  rest ← after same_char (codes "[decrypt]") (skip_spaces s) >>= spaces
  two_numbers (codes "progress ") (codes " of ") (codes " bytes") rest

-- /^\s*\[ileapp\]\s+module (\d+) of (\d+): (.+)$/
unfoldable pub ileapp_module_line : Text → Option (ℕ × ℕ × Text)
unfolding literal skip_spaces spaces number
ileapp_module_line s = do
  rest ← after same_char (codes "[ileapp]") (skip_spaces s) >>= spaces
  (n, rest') ← after same_char (codes "module ") rest >>= number
  (m, rest'') ← after same_char (codes " of ") rest' >>= number
  name ← after same_char (codes ": ") rest''
  name' ← guard (not (is_empty name) && on_one_line name) name
  some (n, m, name')

-- /^(already done, skipping|skipped)/i
unfoldable pub is_skipped : Text → Bool
unfolding literal
is_skipped s =
    is_some (after same_letter (codes "already done, skipping") s)
    || is_some (after same_letter (codes "skipped") s)

-- /^done\b/i
unfoldable pub is_done : Text → Bool
unfolding literal is_word
is_done s = is_some (after same_letter (codes "done") s >>= λ rest. guard (at_boundary rest) rest)
