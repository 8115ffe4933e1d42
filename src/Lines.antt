-- ===== src/Lines.antt =====
-- A child process's output as lines: `LineSplitter` of
-- apps/epoch/src/main/ipc/pipelineSessions.ts and `lineReader` of apps/processor/src/utils/lines.ts.
pub mod Laws
use verichron_epoch.Prelude.{ℕ, List, [], ◌∷◌, ◌++◌, Text, if◌then◌else◌, ◌==◌}

-- Node's StringDecoder, which the code only calls: `write` keeps the bytes of an unfinished
-- character, and `finish` gives what is left of one.
pub record Decoder : Type 1 where
  pub State : Type 0
  pub fresh : State
  pub write : State → List ℕ → Text × State
  pub finish : State → Text

abbrev pub newline : ℕ
newline = 10

abbrev pub cons_first : ℕ → List Text → List Text
cons_first c [] = (c ∷ []) ∷ []
cons_first c (l ∷ ls) = (c ∷ l) ∷ ls

-- `text.split('\n')`, which is never empty.
unfoldable pub split : Text → List Text
split [] = [] ∷ []
split (c ∷ s) = let rest = split s in if c == newline then [] ∷ rest else cons_first c rest

-- `parts.pop() ?? ''`, with what is left of `parts`.
unfoldable pub pop : List Text → List Text × Text
pop [] = ([], [])
pop (l ∷ []) = ([], l)
pop (l ∷ m ∷ ls) = let (parts, last) = pop (m ∷ ls) in (l ∷ parts, last)

-- `if (rest) onLine(rest)`: the lines handed on for a text that may be empty.
abbrev pub if_text : Text → List Text
if_text [] = []
if_text (c ∷ s) = (c ∷ s) ∷ []

module _ (d : Decoder) where
  pub record LineSplitter : Type 0 where
    pub decoder : d.State
    pub carry : Text

  unfoldable pub new_splitter : LineSplitter
  new_splitter = record { decoder = d.fresh; carry = [] }

  unfoldable pub push : LineSplitter → List ℕ → List Text × LineSplitter
  unfolding pop split
  push s chunk =
      let (text, decoder) = d.write s.decoder chunk in
      let (parts, carry) = pop (split (s.carry ++ text)) in
      (parts, record { decoder = decoder; carry = carry })

  unfoldable pub pending : LineSplitter → Text
  pending s = s.carry

  unfoldable pub take_pending : LineSplitter → Text × LineSplitter
  take_pending s = (s.carry, record s { carry = [] })

  unfoldable pub end : LineSplitter → Text × LineSplitter
  end s = (s.carry ++ d.finish s.decoder, record s { carry = [] })

  -- The lines that `lineReader` hands to `onLine` for one chunk.
  unfoldable pub reader_push : LineSplitter → List ℕ → List Text × LineSplitter
  unfolding push
  reader_push s chunk = push s chunk

  unfoldable pub reader_end : LineSplitter → List Text × LineSplitter
  reader_end s = (if_text (s.carry ++ d.finish s.decoder), record s { carry = [] })
