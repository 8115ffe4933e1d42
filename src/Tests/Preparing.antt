-- ===== src/Tests/Preparing.antt =====
-- The theorems on the processor's handlers at concrete inputs.
use verichron_epoch.Prelude.{ℕ, ◌≡◌, refl, true, List, [], ◌∷◌, ◌++◌, none, some, codes}
use verichron_epoch.PrepareProgress.Patterns.{
  on_one_line, skip_spaces, trim_end, literal, before, is_space, is_terminator,
}
use verichron_epoch.Lines.{Decoder, newline, push, pending, new_splitter, take_pending, split, pop}
use verichron_epoch.Sessions.Log.{stdout}
use verichron_epoch.Sessions.Prepare
use verichron_epoch.Handlers.Prepare.{
  StartPipelineOptions, Preparing, Processor, new_preparing, spawned, start_pipeline, on_chunk,
  submit_backup_password, prompted, emit, emit_all,
}
use verichron_epoch.Handlers.Prepare.Prompt.{password_prompt, Asked, on_chunk-password_prompt}
use verichron_epoch.Handlers.Life.{none_lives, lives}
use verichron_epoch.Handlers.Prepare.Events.{Reachable, at_first, after, starts, prints, awaiting}
use verichron_epoch.Handlers.Prepare.Steps.{Submission, submit-living}

abbrev bytes : Decoder
bytes = record { State = Unit; fresh = tt; write = λ st chunk. (chunk, st); finish = λ st. [] }

abbrev options : StartPipelineOptions
options = record { workspace = some (codes " /cases "); force_decrypt = true; only = [] }

abbrev at_start : Preparing
at_start = new_preparing Prepare.new_session

abbrev started : Preparing × Processor bytes
started = spawned bytes (codes "/in") options (codes "/cases") 1 at_start

abbrev asks : List ℕ
asks = codes "=== phone ===\n  password for phone: "

prompt_waits : pending bytes (push bytes started.1.out asks).1 ≡ password_prompt (codes "phone")
unfolding pending push split pop new_splitter password_prompt
prompt_waits = refl

one_line_name : on_one_line (codes "phone") ≡ true
unfolding is_terminator
one_line_name = refl

on_chunk-password_prompt_example :
    Asked bytes (codes "phone") 0 (on_chunk bytes stdout asks 2 started.1 started.0)
unfolding new_preparing
on_chunk-password_prompt_example =
    on_chunk-password_prompt bytes asks 2 started.1 started.0 (codes "phone") prompt_waits refl
      one_line_name

abbrev asked : Preparing
asked = (on_chunk bytes stdout asks 2 started.1 started.0).0

processor_starts :
    start_pipeline bytes (codes "/default") (codes "/in") options 1 at_start ≡ some started
unfolding start_pipeline new_preparing skip_spaces trim_end is_space
processor_starts = refl

abbrev asking : Processor bytes
asking = (on_chunk bytes stdout asks 2 started.1 started.0).1

is_asked : Reachable bytes Prepare.new_session asked (lives asking)
is_asked =
    after started.0 asked (lives started.1) _
      (after at_start started.0 none_lives (lives started.1) at_first (
        starts at_start started.0 none_lives started.1 (codes "/default") (codes "/in") options 1
          refl processor_starts))
      (prints started.0 started.1 stdout asks 2)

abbrev answered : Preparing
answered = record asked {
  pending_password = none;
  written = (0, codes "1234" ++ newline ∷ []) ∷ asked.written;
  session = Prepare.password_submitted asked.session 3;
}

is_answered : submit_backup_password (codes "1234") 3 asked ≡ some answered
unfolding submit_backup_password on_chunk emit_all emit prompted literal before is_terminator
    take_pending pending push split pop new_splitter new_preparing
is_answered = refl

submit-living_example :
    Submission bytes asked
      (lives asking)
      (awaiting bytes Prepare.new_session is_asked)
      (codes "1234")
      (codes "5678")
      4
      (submit_backup_password (codes "1234") 3 asked)
submit-living_example =
    submit-living bytes Prepare.new_session asked (lives asking) (codes "1234") (codes "5678") 3 4
      is_asked
