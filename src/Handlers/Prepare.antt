-- ===== src/Handlers/Prepare.antt =====
-- The processor's handlers in registerPipelineHandlers of apps/epoch/src/main/ipc/pipelineHandlers.ts:
-- one child at a time, its output, its password prompt, and its end.
pub mod Prompt
pub mod Events
pub mod Follows
pub mod Steps
use mathlib.Core.Option
use verichron_epoch.Prelude.{
  ℕ, zero, suc, Bool, true, false, not, ◌&&◌, List, [], ◌∷◌, ◌++◌, Option, none, some, Text, codes,
  is_some, if◌then◌else◌,
}
use verichron_epoch.PrepareProgress.Patterns.{
  same_char, after, before, or_else, guard, is_empty, on_one_line, skip_spaces, trim_end, literal,
}
use verichron_epoch.Lines.{
  Decoder, LineSplitter, new_splitter, push, pending, take_pending, end, newline,
}
use verichron_epoch.Sessions.{PipelineFinishedResult, PreparedResult}
use verichron_epoch.Sessions.Log.{Stream, stdout, stderr, PipelineLogEntry}
use verichron_epoch.Sessions.Prepare
use verichron_epoch.Sessions.Prepare.{PrepareSession}

abbrev pub if_label : Option Text → Option Text
if_label none = none
if_label (some label) = guard (not (is_empty label) && on_one_line label) label

-- `(.+): $`
abbrev pub label_of : Text → Option Text
label_of s = if_label (before (codes ": ") s)

-- `PASSWORD_PROMPT_RE.exec`: the label of the first match.
unfoldable pub prompted : Text → Option Text
unfolding literal
prompted [] = none
prompted (c ∷ s) =
    let rest = prompted s in
    elim (after same_char (codes "password for ") (c ∷ s)) [
      | none ↦ rest
      | some more ↦ or_else (label_of more) rest
    ]

pub record StartPipelineOptions : Type 0 where
  pub workspace : Option Text
  pub force_decrypt : Bool
  pub only : List Text

abbrev trim : Text → Text
trim s = trim_end (skip_spaces s)

-- `options?.workspace?.trim() || defaultWorkspace()`
abbrev pub workspace_path : Text → Option Text → Text
workspace_path default none = default
workspace_path default (some w) = if is_empty (trim w) then default else trim w

-- `only.join(',')`
abbrev pub join : List Text → Text
join [] = []
join (label ∷ []) = label
join (label ∷ other ∷ labels) = label ++ b',' ∷ join (other ∷ labels)

abbrev only_args : List Text → List Text
only_args [] = []
only_args (label ∷ labels) = codes "--only" ∷ join (label ∷ labels) ∷ []

unfoldable pub args_of : Text → Text → StartPipelineOptions → List Text
args_of source workspace options =
    codes "--filter"
      ∷ codes "@verichron/processor"
      ∷ codes "dev"
      ∷ codes "--"
      ∷ codes "--source"
      ∷ source
      ∷ codes "--workspace"
      ∷ workspace
      ∷ (if options.force_decrypt then codes "--force-decrypt" ∷ [] else [])
    ++ only_args options.only

-- A closed child whose summary.json is being read.
pub record Closed : Type 0 where
  pub workspace : Text
  pub code : Option ℕ

-- The variables of the handlers for the processor; and what is outside: what was written to a
-- child's stdin, and what was sent to the renderer's log, the newest first.
pub record Preparing : Type 0 where
  pub running_processor : Option ℕ
  -- `pendingPasswordResolve`, by the child that it writes to.
  pub pending_password : Option ℕ
  pub session : PrepareSession
  pub next_pid : ℕ
  pub written : List (ℕ × Text)
  pub sent : List PipelineLogEntry
  pub closed : List Closed

unfoldable pub new_preparing : PrepareSession → Preparing
new_preparing session = record {
  running_processor = none;
  pending_password = none;
  session = session;
  next_pid = 0;
  written = [];
  sent = [];
  closed = [];
}

unfoldable pub emit : Stream → ℕ → Text → Preparing → Preparing
emit stream now line p =
    let (entry, session) = Prepare.line p.session stream line now in
    record p { session = session; sent = entry ∷ p.sent }

unfoldable pub emit_all : Stream → ℕ → List Text → Preparing → Preparing
emit_all stream now [] p = p
emit_all stream now (line ∷ lines) p = emit_all stream now lines (emit stream now line p)

abbrev pub emit_rest : Stream → ℕ → Text → Preparing → Preparing
emit_rest stream now [] p = p
emit_rest stream now (c ∷ s) p = emit stream now (c ∷ s) p

-- `0` alone is a clean exit.
abbrev pub is_clean : Option ℕ → Bool
is_clean (some zero) = true
is_clean _ = false

module _ (d : Decoder) where
  -- A spawned child, with the buffers of its streams and what its handlers closed over.
  pub record Processor : Type 0 where
    pub pid : ℕ
    pub args : List Text
    pub workspace : Text
    pub out : LineSplitter d
    pub err : LineSplitter d

  abbrev pub request_password :
      ℕ → Processor → LineSplitter d → Text → Preparing → Preparing × Processor
  request_password now child splitter label p =
      let (text, rest) = take_pending d splitter in
      let asked = emit stdout now text p in
      (
        record asked {
          pending_password = some child.pid;
          session = Prepare.password_requested asked.session label now;
        },
        record child { out = rest },
      )

  abbrev pub read_prompt :
      ℕ → Processor → LineSplitter d → Option Text → Preparing → Preparing × Processor
  read_prompt now child splitter none p = (p, record child { out = splitter })
  read_prompt now child splitter (some label) p = request_password now child splitter label p

  -- `onChunk` of the two stream buffers.
  unfoldable pub on_chunk : Stream → List ℕ → ℕ → Processor → Preparing → Preparing × Processor
  unfolding emit_all prompted push pending take_pending
  on_chunk stdout chunk now child p =
      let (lines, splitter) = push d child.out chunk in
      read_prompt now child splitter (prompted (pending d splitter)) (emit_all stdout now lines p)
  on_chunk stderr chunk now child p =
      let (lines, splitter) = push d child.err chunk in
      (emit_all stderr now lines p, record child { err = splitter })

  abbrev pub spawned : Text → StartPipelineOptions → Text → ℕ → Preparing → Preparing × Processor
  spawned source options workspace now p = (
    record p {
      running_processor = some p.next_pid;
      pending_password = none;
      session = Prepare.start p.session source workspace options.only now;
      next_pid = suc p.next_pid;
    },
    record {
      pid = p.next_pid;
      args = args_of source workspace options;
      workspace = workspace;
      out = new_splitter d;
      err = new_splitter d;
    },
  )

  -- `none` where the handler throws.
  unfoldable pub start_pipeline :
      Text → Text → StartPipelineOptions → ℕ → Preparing → Option (Preparing × Processor)
  unfolding args_of new_splitter skip_spaces trim_end
  start_pipeline default source options now p =
      if is_some p.running_processor
      then none
      else if is_empty (skip_spaces source)
      then none
      else some (spawned source options (workspace_path default options.workspace) now p)

  abbrev pub no_result : Text → Bool → PipelineFinishedResult
  no_result workspace success = record {
    success = success;
    exit_code = none;
    error = none;
    workspace = some workspace;
    backups = none;
    analysis = none;
    cancelled = none;
    timed_out = none;
  }

  -- `child.on('error')`
  unfoldable pub on_error : Text → ℕ → Processor → Preparing → Preparing
  on_error message now child p = record p {
    running_processor = none;
    pending_password = none;
    session =
        Prepare.finish p.session (record (no_result child.workspace false) { error = some message })
          now;
  }

  -- `child.on('close')`, up to the reading of the summary.
  unfoldable pub on_close : Option ℕ → ℕ → Processor → Preparing → Preparing
  unfolding emit end
  on_close code now child p =
      let p1 = record p { running_processor = none; pending_password = none } in
      let p2 = emit_rest stdout now (end d child.out).0 p1 in
      let p3 = emit_rest stderr now (end d child.err).0 p2 in
      record p3 { closed = p3.closed ++ record { workspace = child.workspace; code = code } ∷ [] }

  -- The summary of a closed child has been read, which then reports.
  unfoldable pub report_closed : Closed → Option (List PreparedResult) → ℕ → Preparing → Preparing
  report_closed c backups now p = record p {
    session =
        Prepare.finish p.session
          (record (no_result c.workspace (is_clean c.code)) {
            exit_code = some c.code;
            backups = backups;
          })
          now;
  }

-- `epoch:submitBackupPassword`: `none` where it throws.
abbrev submit_to : Option ℕ → Text → ℕ → Preparing → Option Preparing
submit_to none password now p = none
submit_to (some pid) password now p = some (record p {
  pending_password = none;
  written = (pid, password ++ newline ∷ []) ∷ p.written;
  session = Prepare.password_submitted p.session now;
})

unfoldable pub submit_backup_password : Text → ℕ → Preparing → Option Preparing
submit_backup_password password now p =
    if is_some p.running_processor then submit_to p.pending_password password now p else none
