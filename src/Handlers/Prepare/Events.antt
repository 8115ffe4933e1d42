-- ===== src/Handlers/Prepare/Events.antt =====
-- What can happen to the processor's handlers of apps/epoch/src/main/ipc/pipelineHandlers.ts, one
-- event after another.
use verichron_epoch.Prelude.{ℕ, ◌≡◌, List, Option, none, some, Text, false}
use verichron_epoch.Lines.{Decoder, push, pending}
use verichron_epoch.Sessions.{PreparedResult}
use verichron_epoch.Sessions.Log.{Stream, stdout, stderr}
use verichron_epoch.Sessions.Prepare.{PrepareSession}
use verichron_epoch.Handlers.Life.{Life, none_lives, lives, failed, is_failed}
use verichron_epoch.Handlers.Prepare.{
  prompted, StartPipelineOptions, Closed, Preparing, new_preparing, Processor, on_chunk,
  start_pipeline, on_error, on_close, report_closed, submit_backup_password,
}

module _ (d : Decoder) where
  -- The handlers and their child. No child is started between another one's error and its close.
  pub data Step : Preparing → Life (Processor d) → Preparing → Life (Processor d) → Type 0 where
    starts :
        (p p' : Preparing) (l : Life (Processor d)) (c : Processor d) (default source : Text)
        (options : StartPipelineOptions) (now : ℕ)
        → is_failed l ≡ false
        → start_pipeline d default source options now p ≡ some (p', c)
        → Step p l p' (lives c)
    prints :
        (p : Preparing) (c : Processor d) (stream : Stream) (chunk : List ℕ) (now : ℕ)
        → Step p
            (lives c)
            (on_chunk d stream chunk now c p).0
            (lives (on_chunk d stream chunk now c p).1)
    prints_failed :
        (p : Preparing) (c : Processor d) (stream : Stream) (chunk : List ℕ) (now : ℕ)
        → Step p
            (failed c)
            (on_chunk d stream chunk now c p).0
            (failed (on_chunk d stream chunk now c p).1)
    submits :
        (p p' : Preparing) (l : Life (Processor d)) (password : Text) (now : ℕ)
        → submit_backup_password password now p ≡ some p'
        → Step p l p' l
    errs :
        (p : Preparing) (c : Processor d) (message : Text) (now : ℕ)
        → Step p (lives c) (on_error d message now c p) (failed c)
    errs_again :
        (p : Preparing) (c : Processor d) (message : Text) (now : ℕ)
        → Step p (failed c) (on_error d message now c p) (failed c)
    closes :
        (p : Preparing) (c : Processor d) (code : Option ℕ) (now : ℕ)
        → Step p (lives c) (on_close d code now c p) none_lives
    closes_failed :
        (p : Preparing) (c : Processor d) (code : Option ℕ) (now : ℕ)
        → Step p (failed c) (on_close d code now c p) none_lives
    reports :
        (p : Preparing) (l : Life (Processor d)) (c : Closed)
        (backups : Option (List PreparedResult)) (now : ℕ)
        → Step p l (report_closed d c backups now p) l

  pub data Reachable (session : PrepareSession) : Preparing → Life (Processor d) → Type 0 where
    at_first : Reachable session (new_preparing session) none_lives
    after :
        (p p' : Preparing) (l l' : Life (Processor d))
        → Reachable session p l
        → Step p l p' l'
        → Reachable session p' l'

  abbrev pub if_prompted : ℕ → Option Text → Option ℕ → Option ℕ
  if_prompted pid none before = before
  if_prompted pid (some label) before = some pid

  -- A prompt at the end of what the child has printed to stdout makes it wait for a password.
  abbrev pub awaiting_printed : Processor d → Stream → List ℕ → Option ℕ → Option ℕ
  awaiting_printed c stdout chunk before =
      if_prompted c.pid (prompted (pending d (push d c.out chunk).1)) before
  awaiting_printed c stderr chunk before = before

  unfoldable pub awaiting_after :
      {p p' : Preparing} {l l' : Life (Processor d)} → Step p l p' l' → Option ℕ → Option ℕ
  awaiting_after (starts _ _ _ _ _ _ _ _ _ _) before = none
  awaiting_after (prints _ c stream chunk _) before = awaiting_printed c stream chunk before
  awaiting_after (prints_failed _ c stream chunk _) before = awaiting_printed c stream chunk before
  awaiting_after (submits _ _ _ _ _ _) before = none
  awaiting_after (errs _ _ _ _) before = none
  awaiting_after (errs_again _ _ _ _) before = none
  awaiting_after (closes _ _ _ _) before = none
  awaiting_after (closes_failed _ _ _ _) before = none
  awaiting_after (reports _ _ _ _ _) before = before

  -- The child that waits for a password, by what has happened: the one whose prompt was the last
  -- since a start, an accepted password, an error and a close.
  unfoldable pub awaiting :
      (session : PrepareSession) {p : Preparing} {l : Life (Processor d)}
      → Reachable session p l
      → Option ℕ
  awaiting session at_first = none
  awaiting session (after _ _ _ _ before step) = awaiting_after step (awaiting session before)
