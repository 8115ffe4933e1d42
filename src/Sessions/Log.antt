-- ===== src/Sessions/Log.antt =====
-- `LogBuffer` of apps/epoch/src/main/ipc/pipelineSessions.ts: the newest lines of a run.
use verichron_epoch.Prelude.{
  ℕ, suc, ◌+◌, ◌-◌, ◌≡◌, inl, inr, List, [], ◌∷◌, ◌++◌, Text, ltb, if◌then◌else◌, length, drop,
  arith, last, last-last_append, Bool-cases,
}
use mathlib.Core.List.{append_assoc, append-nil}
use native.Mathlib.Nat.{add-zero}

pub data Stream : Type 0 where
  stdout stderr : Stream

pub record PipelineLogEntry : Type 0 where
  pub stream : Stream
  pub line : Text
  pub seq : ℕ

pub record LogBuffer : Type 0 where
  pub lines : List PipelineLogEntry
  pub seq : ℕ

abbrev pub kept_log_lines : ℕ
kept_log_lines = 2000

unfoldable pub new_log : LogBuffer
new_log = record { lines = []; seq = 0 }

-- `lines.splice(0, lines.length - KEPT_LOG_LINES)` drops from the front.
trim : List PipelineLogEntry → List PipelineLogEntry
trim lines =
    if ltb kept_log_lines (length lines) then drop (length lines - kept_log_lines) lines else lines

unfoldable pub add : LogBuffer → Stream → Text → PipelineLogEntry × LogBuffer
unfolding trim
add b stream line =
    let entry : PipelineLogEntry = record { stream = stream; line = line; seq = b.seq + 1 } in
    (entry, record { lines = trim (b.lines ++ entry ∷ []); seq = b.seq + 1 })

unfoldable pub clear : LogBuffer → LogBuffer
clear b = record b { lines = [] }

unfoldable pub all_lines : LogBuffer → List PipelineLogEntry
all_lines b = b.lines

-- The entries that a run of lines gets, numbered from `n + 1`.
abbrev pub numbered : ℕ → List (Stream × Text) → List PipelineLogEntry
numbered n [] = []
numbered n ((stream, line) ∷ ls) =
    record { stream = stream; line = line; seq = n + 1 } ∷ numbered (n + 1) ls

abbrev pub add_all : LogBuffer → List (Stream × Text) → LogBuffer
add_all b [] = b
add_all b ((stream, line) ∷ ls) = add_all (add b stream line).1 ls

trim_lem : (lines : List PipelineLogEntry) → trim lines ≡ last kept_log_lines lines
unfolding trim
trim_lem lines = elim (Bool-cases (ltb kept_log_lines (length lines))) [
  | inl more ↦ rw more
  | inr few ↦
      let none_dropped : length lines - kept_log_lines ≡ 0 = ground arith in rw (few, none_dropped)
]

pub add_all-last :
    (es : List PipelineLogEntry) (n : ℕ) (ls : List (Stream × Text))
    → add_all (record { lines = last kept_log_lines es; seq = n }) ls
      ≡ record { lines = last kept_log_lines (es ++ numbered n ls); seq = n + length ls }
unfolding add
add_all-last es n [] = rw (append-nil, add-zero)
add_all-last es n ((stream, line) ∷ ls) =
    let e : PipelineLogEntry = record { stream = stream; line = line; seq = n + 1 } in
    let count : n + suc (length ls) ≡ n + 1 + length ls = omega arith in
    rw (trim_lem (last kept_log_lines es ++ e ∷ []), last-last_append kept_log_lines es e, count)
      (rw (append_assoc es (e ∷ []) (numbered (n + 1) ls)) at
        (add_all-last (es ++ e ∷ []) (n + 1) ls))
