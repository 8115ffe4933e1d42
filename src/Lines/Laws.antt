-- ===== src/Lines/Laws.antt =====
-- What the lines are, however the stream was cut into chunks.
use mathlib.Core.List.{append_assoc}
use verichron_epoch.Prelude.{
  ℕ, ◌≡◌, refl, sym, ap, ◌∙◌, ◌≢◌, List, [], ◌∷◌, ◌++◌, Text, false, All, All-append, arith,
  Bool-cases, inl, inr, ◌==◌,
}
use verichron_epoch.Lines.{
  Decoder, newline, cons_first, split, pop, LineSplitter, new_splitter, push, end, if_text,
  reader_push, reader_end,
}

abbrev pub NoBreak : Text → Type 0
NoBreak = All (λ c. c ≢ newline)

cons_first-ne-nil : (c : ℕ) (p : List Text) → cons_first c p ≢ []
cons_first-ne-nil c [] e = cc
cons_first-ne-nil c (l ∷ ls) e = cc

pub split-ne-nil : (s : Text) → split s ≢ []
unfolding split
split-ne-nil [] e = cc
split-ne-nil (c ∷ s) e = elim (Bool-cases (c == newline)) [
  | inl same ↦ cc (rw same at e)
  | inr other ↦ cons_first-ne-nil c (split s) (rw other at e)
]

pub pop-concat : (parts : List Text) → parts ≢ [] → (pop parts).0 ++ (pop parts).1 ∷ [] ≡ parts
unfolding pop
pop-concat [] h = absurd (h refl)
pop-concat (l ∷ []) h = refl
pop-concat (l ∷ m ∷ ls) h = ap (λ r. l ∷ r) (pop-concat (m ∷ ls) (λ e. cc))

pub split_of_NoBreak : (s : Text) → NoBreak s → split s ≡ s ∷ []
unfolding split
split_of_NoBreak [] h = refl
split_of_NoBreak (c ∷ s) (p, h) = ground (arith, split_of_NoBreak s h)

-- A last line that goes on in `t`: splitting resumes where it stopped.
abbrev pub resumed : List Text → Text → List Text
resumed p t = (pop p).0 ++ split ((pop p).1 ++ t)

resumed-cons : (p : List Text) (t : Text) → p ≢ [] → resumed ([] ∷ p) t ≡ [] ∷ resumed p t
unfolding pop
resumed-cons [] t h = absurd (h refl)
resumed-cons (l ∷ ls) t h = refl

resumed-cons_first :
    (c : ℕ) (p : List Text) (t : Text)
    → p ≢ []
    → (c == newline) ≡ false
    → resumed (cons_first c p) t ≡ cons_first c (resumed p t)
unfolding pop split
resumed-cons_first c [] t h e = absurd (h refl)
resumed-cons_first c (l ∷ []) t h e = rw e
resumed-cons_first c (l ∷ m ∷ ls) t h e = refl

pub split-append : (s t : Text) → split (s ++ t) ≡ resumed (split s) t
unfolding split pop
split-append [] t = refl
split-append (c ∷ s) t = elim (Bool-cases (c == newline)) [
  | inl same ↦
      rw same
        (ap (λ r. [] ∷ r) (split-append s t) ∙ sym (resumed-cons (split s) t (split-ne-nil s)))
  | inr other ↦ rw other (
      ap (cons_first c) (split-append s t)
      ∙ sym (resumed-cons_first c (split s) t (split-ne-nil s) other))
]

pub split-All : (s : Text) → All NoBreak (split s)
unfolding split
split-All [] = (tt, tt)
split-All (c ∷ s) = elim (Bool-cases (c == newline)) [
  | inl same ↦ rw same (tt, split-All s)
  | inr other ↦ rw other (first (split s) (ground arith) (split-All s))
]
  where
    first : (p : List Text) → c ≢ newline → All NoBreak p → All NoBreak (cons_first c p)
    first [] ne h = ((ne, tt), tt)
    first (l ∷ ls) ne h = ((ne, h.0), h.1)

pub pop-All : (parts : List Text) → All NoBreak parts → NoBreak (pop parts).1
unfolding pop
pop-All [] h = tt
pop-All (l ∷ []) h = h.0
pop-All (l ∷ m ∷ ls) h = pop-All (m ∷ ls) h.1

pop-append : (ls : List Text) (l : Text) → pop (ls ++ l ∷ []) ≡ (ls, l)
unfolding pop
pop-append [] l = refl
pop-append (k ∷ []) l = refl
pop-append (k ∷ m ∷ ls) l = ap (λ (r : List Text × Text). (k ∷ r.0, r.1)) (pop-append (m ∷ ls) l)

module _ (d : Decoder) where
  -- Feeding chunks, with the lines in the order they come.
  abbrev pub feed : LineSplitter d → List (List ℕ) → List Text × LineSplitter d
  feed s [] = ([], s)
  feed s (chunk ∷ chunks) =
      let (lines, s') = push d s chunk in let (more, last) = feed s' chunks in (lines ++ more, last)

  -- The text that the decoder makes of the chunks, and the decoder after them.
  abbrev pub decode : d.State → List (List ℕ) → Text × d.State
  decode st [] = ([], st)
  decode st (chunk ∷ chunks) =
      let (text, st') = d.write st chunk in
      let (more, last) = decode st' chunks in (text ++ more, last)

  feed-decoder :
      (s : LineSplitter d) (chunks : List (List ℕ))
      → (feed s chunks).1.decoder ≡ (decode s.decoder chunks).1
  unfolding push
  feed-decoder s [] = refl
  feed-decoder s (chunk ∷ chunks) = feed-decoder (push d s chunk).1 chunks

  feed-split :
      (s : LineSplitter d) (chunks : List (List ℕ)) (t : Text)
      → (feed s chunks).0 ++ split ((feed s chunks).1.carry ++ t)
        ≡ split (s.carry ++ ((decode s.decoder chunks).0 ++ t))
  unfolding push
  feed-split s [] t = refl
  feed-split s (chunk ∷ chunks) t =
      let text : Text = (d.write s.decoder chunk).0 in
      let s' : LineSplitter d = (push d s chunk).1 in
      let rest : Text = (decode s'.decoder chunks).0 ++ t in
      append_assoc (push d s chunk).0 (feed s' chunks).0 _
      ∙ ap (λ r. (push d s chunk).0 ++ r) (feed-split s' chunks t)
      ∙ sym (split-append (s.carry ++ text) rest)
      ∙ ap split (
          append_assoc s.carry text rest
          ∙ ap (λ r. s.carry ++ r) (sym (append_assoc text (decode s'.decoder chunks).0 t)))

  carry-NoBreak : (s : LineSplitter d) (chunk : List ℕ) → NoBreak (push d s chunk).1.carry
  unfolding push
  carry-NoBreak s chunk =
      let text : Text = s.carry ++ (d.write s.decoder chunk).0 in
      pop-All (split text) (split-All text)

  feed-NoBreak :
      (s : LineSplitter d) (chunks : List (List ℕ))
      → NoBreak s.carry
      → NoBreak (feed s chunks).1.carry
  feed-NoBreak s [] h = h
  feed-NoBreak s (chunk ∷ chunks) h = feed-NoBreak (push d s chunk).1 chunks (carry-NoBreak s chunk)

  -- All that the decoder makes of a stream, its last unfinished character included.
  abbrev pub decode_all : List (List ℕ) → Text
  decode_all chunks = let (text, st) = decode d.fresh chunks in text ++ d.finish st

  -- However a child's output is cut into chunks, the lines that `push` returns and the text that
  -- `end` returns are the whole decoded output split at its line breaks, provided that what the
  -- decoder holds back at the end is no line break.
  feed-end :
      (chunks : List (List ℕ))
      → NoBreak (d.finish (decode d.fresh chunks).1)
      → let (lines, s) = feed (new_splitter d) chunks in
        lines ++ (end d s).0 ∷ [] ≡ split (decode_all chunks)
  unfolding end new_splitter
  feed-end chunks h =
      let s : LineSplitter d = (feed (new_splitter d) chunks).1 in
      let same = feed-decoder (new_splitter d) chunks in
      let whole = feed-split (new_splitter d) chunks (d.finish s.decoder) in
      let ends : NoBreak (s.carry ++ d.finish s.decoder) =
        All-append _ s.carry _ (feed-NoBreak (new_splitter d) chunks tt) (rw same h) in
      ap (λ r. (feed (new_splitter d) chunks).0 ++ r) (sym (split_of_NoBreak _ ends))
      ∙ whole
      ∙ ap (λ st. split ((decode d.fresh chunks).0 ++ d.finish st)) same

  abbrev pub reader_feed : LineSplitter d → List (List ℕ) → List Text × LineSplitter d
  reader_feed s [] = ([], s)
  reader_feed s (chunk ∷ chunks) =
      let (lines, s') = reader_push d s chunk in
      let (more, last) = reader_feed s' chunks in (lines ++ more, last)

  reader_feed_lem :
      (s : LineSplitter d) (chunks : List (List ℕ)) → reader_feed s chunks ≡ feed s chunks
  unfolding reader_push
  reader_feed_lem s [] = refl
  reader_feed_lem s (chunk ∷ chunks) =
      ap (λ (r : List Text × LineSplitter d). ((push d s chunk).0 ++ r.0, r.1))
        (reader_feed_lem (push d s chunk).1 chunks)

  -- The lines that `lineReader` hands to its callback, however the output is cut into chunks and at
  -- the end too, are the whole decoded output split at its line breaks, but for a last one that is
  -- empty: it is left out. This is where what the decoder holds back at the end is no line break.
  pub reader-lines :
      (chunks : List (List ℕ))
      → NoBreak (d.finish (decode d.fresh chunks).1)
      → let (lines, s) = reader_feed (new_splitter d) chunks in
        let (complete, last) = pop (split (decode_all chunks)) in
        lines ++ (reader_end d s).0 ≡ complete ++ if_text last
  unfolding end reader_end
  reader-lines chunks h =
      let (lines, s) = feed (new_splitter d) chunks in
      ap (λ (r : List Text × LineSplitter d). r.0 ++ if_text (r.1.carry ++ d.finish r.1.decoder))
        (reader_feed_lem (new_splitter d) chunks)
      ∙ ap (λ (r : List Text × Text). r.0 ++ if_text r.1)
          (sym (pop-append lines (s.carry ++ d.finish s.decoder)) ∙ ap pop (feed-end chunks h))
