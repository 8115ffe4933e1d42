-- ===== src/DevicePull/Output.antt =====
-- OutputParser of apps/epoch/src/main/tools/device-backup/ios/backupRun.ts: what idevicebackup2
-- prints, as lines and as the progress bar of the whole backup.
pub mod Chunks
use verichron_epoch.Prelude.{
  ℕ, Bool, true, false, ◌||◌, List, [], ◌∷◌, ◌++◌, map, Option, none, some, Text, codes, text_eq,
  ◌==◌, if◌then◌else◌,
}
use verichron_epoch.Lines.{split, pop, newline}
use verichron_epoch.PrepareProgress.Patterns.{skip_spaces, trim_end, number, is_space}

pub data OutputEvent : Type 0 where
  text_line : Text → OutputEvent
  percent : ℕ → OutputEvent

-- `[= ]*`
unfoldable pub skip_bar : Text → Text
skip_bar [] = []
skip_bar (c ∷ s) = let rest = skip_bar s in if c == b'=' || c == 32 then rest else c ∷ s

abbrev pub after_char : ℕ → Text → Option Text
after_char c [] = none
after_char c (d ∷ s) = if c == d then some s else none

-- `\s+`, and what follows it.
abbrev pub after_spaces : Text → Option Text
after_spaces [] = none
after_spaces (c ∷ s) = if is_space c then some (skip_spaces s) else none

-- `[^)]*\)`, and what follows it.
unfoldable pub after_paren : Text → Option Text
after_paren [] = none
after_paren (c ∷ s) = let rest = after_paren s in if c == b')' then some s else rest

-- `(\s+Finished)?$`: whether the group is there, where the pattern ends here.
unfoldable pub finished_part : Text → Option Bool
unfolding skip_spaces is_space
finished_part [] = some false
finished_part (c ∷ s) = elim (after_spaces (c ∷ s)) [
  | none ↦ none
  | some rest ↦ if text_eq rest (codes "Finished") then some true else none
]

-- `(?:\s+\([^)]*\))?`, which is there where a bracket follows the spaces.
abbrev skip_bytes : Text → Option Text
skip_bytes s = elim (after_spaces s) [
  | none ↦ some s
  | some rest ↦ elim (after_char b'(' rest) [ none ↦ some s | some inside ↦ after_paren inside ]
]

abbrev percent_part : Text → Option (ℕ × Bool)
percent_part s = elim (number s) [
  | none ↦ none
  | some (value, rest) ↦ elim (after_char b'%' rest) [
    | none ↦ none
    | some more ↦ elim (skip_bytes more) [
      | none ↦ none
      | some last ↦ elim (finished_part last) [
        | none ↦ none
        | some finished ↦ some (value, finished)
      ]
    ]
  ]
]

-- `BAR`: the percentage, and whether "Finished" follows it.
unfoldable pub bar : Text → Option (ℕ × Bool)
unfolding skip_bar skip_spaces is_space after_paren finished_part number
bar s = elim (after_char b'[' s) [
  | none ↦ none
  | some inside ↦ elim (after_char b']' (skip_bar inside)) [
    | none ↦ none
    | some rest ↦ percent_part (skip_spaces rest)
  ]
]

abbrev event_of : Text → List OutputEvent
event_of [] = []
event_of (c ∷ s) = elim (bar (c ∷ s)) [
  | none ↦ text_line (c ∷ s) ∷ []
  | some (value, true) ↦ percent value ∷ []
  | some (value, false) ↦ []
]

unfoldable pub event : Text → List OutputEvent
unfolding bar trim_end skip_spaces
event part = event_of (trim_end (skip_spaces part))

-- `/[\r\n]/` as one break.
abbrev pub to_break : ℕ → ℕ
to_break c = if c == 13 then newline else c

abbrev pub events : List Text → List OutputEvent
events [] = []
events (part ∷ parts) = event part ++ events parts

-- The events of a chunk, and the new carry, in which there is no break.
unfoldable pub push : Text → Text → List OutputEvent × Text
unfolding split pop event
push carry text =
    let (parts, rest) = pop (split (carry ++ map to_break text)) in (events parts, rest)

unfoldable pub flush : Text → List OutputEvent × Text
unfolding event
flush carry = (event carry, [])
