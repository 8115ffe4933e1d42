-- ===== src/DevicePull/Output/Chunks.antt =====
-- What idevicebackup2's output is read as when it comes in chunks, each decoded by itself:
-- OutputParser of
-- apps/epoch/src/main/tools/device-backup/ios/backupRun.ts.
use mathlib.Core.List.{append_assoc, map-append, append-nil}
use verichron_epoch.Prelude.{ℕ, ◌≡◌, refl, sym, ap, ◌∙◌, List, [], ◌∷◌, ◌++◌, map, Text}
use verichron_epoch.Lines.{split, pop}
use verichron_epoch.Lines.Laws.{NoBreak, split-append, split_of_NoBreak, split-All, pop-All}
use verichron_epoch.DevicePull.Output.{OutputEvent, event, to_break, events, push, flush}

-- The events of the chunks, one after another, and of what is left at the end.
unfoldable pub feed : Text → List Text → List OutputEvent
feed carry [] = (flush carry).0
feed carry (chunk ∷ chunks) = let (found, carry') = push carry chunk in found ++ feed carry' chunks

unfoldable pub joined : List Text → Text
joined [] = []
joined (chunk ∷ chunks) = chunk ++ joined chunks

events-append : (a b : List Text) → events (a ++ b) ≡ events a ++ events b
events-append [] b = refl
events-append (part ∷ a) b =
    ap (λ (e : List OutputEvent). event part ++ e) (events-append a b)
    ∙ sym (append_assoc (event part) (events a) (events b))

feed-carried :
    (carry : Text) (chunks : List Text)
    → NoBreak carry
    → feed carry chunks ≡ events (split (carry ++ map to_break (joined chunks)))
unfolding feed joined push flush
feed-carried carry [] whole =
    sym (append-nil (event carry))
    ∙ ap events (sym (split_of_NoBreak carry whole) ∙ ap split (sym (append-nil carry)))
feed-carried carry (chunk ∷ chunks) whole =
    let parts : List Text = split (carry ++ map to_break chunk) in
    let rest : Text = map to_break (joined chunks) in
    ap (λ (e : List OutputEvent). events (pop parts).0 ++ e)
      (feed-carried (pop parts).1 chunks (pop-All parts (split-All (carry ++ map to_break chunk))))
    ∙ sym (events-append (pop parts).0 (split ((pop parts).1 ++ rest)))
    ∙ ap events (sym (split-append (carry ++ map to_break chunk) rest))
    ∙ ap (λ (t : Text). events (split t))
        (append_assoc carry (map to_break chunk) rest
          ∙ ap (λ (t : Text). carry ++ t) (sym (map-append to_break chunk (joined chunks))))

-- All the bytes of the chunks.
unfoldable pub all_bytes : List (List ℕ) → List ℕ
all_bytes [] = []
all_bytes (chunk ∷ chunks) = chunk ++ all_bytes chunks

-- However idevicebackup2's output is cut into chunks, as long as decoding each chunk by itself gives
-- the text of the whole output, as where no cut falls inside a character: the events read from the
-- chunks, that of the text after the last break included, are those of the whole output split at
-- its carriage returns and line breaks, in the same order.
pub feed-events :
    (to_text : List ℕ → Text) (chunks : List (List ℕ))
    → joined (map to_text chunks) ≡ to_text (all_bytes chunks)
    → feed [] (map to_text chunks) ≡ events (split (map to_break (to_text (all_bytes chunks))))
feed-events to_text chunks whole =
    feed-carried [] (map to_text chunks) tt
    ∙ ap (λ (t : Text). events (split (map to_break t))) whole
