-- ===== src/Handlers/Prepare/Prompt.antt =====
-- The prompt that apps/processor/src/main.ts prints for a password, as
-- apps/epoch/src/main/ipc/pipelineHandlers.ts reads it.
use verichron_epoch.Prelude.{
  ℕ, List, [], ◌≡◌, refl, ap, ◌∙◌, Option, true, false, ◌++◌, some, Text, codes,
}
use verichron_epoch.Lines.{Decoder, LineSplitter, push, pending, take_pending}
use verichron_epoch.Sessions.Log.{stdout}
use verichron_epoch.Sessions.Prepare.{password_requested}
use verichron_epoch.PrepareProgress.Patterns.{or_else, is_empty, on_one_line}
use verichron_epoch.PrepareProgress.Banner.{before-append}
use verichron_epoch.Handlers.Prepare.{
  if_label, label_of, prompted, Preparing, Processor, request_password, emit_all, on_chunk,
}

-- `  password for ${name}: `
unfoldable pub password_prompt : Text → Text
password_prompt name = codes "  password for " ++ (name ++ codes ": ")

label_of-name :
    (name : Text)
    → is_empty name ≡ false
    → on_one_line name ≡ true
    → label_of (name ++ codes ": ") ≡ some name
label_of-name name some_name one_line =
    ap if_label (before-append name (codes ": ")) ∙ rw (some_name, one_line) refl

prompted-password_prompt :
    (name : Text)
    → is_empty name ≡ false
    → on_one_line name ≡ true
    → prompted (password_prompt name) ≡ some name
unfolding prompted password_prompt
prompted-password_prompt name some_name one_line =
    ap (λ (label : Option Text). or_else label (prompted (name ++ codes ": ")))
      (label_of-name name some_name one_line)

-- The app has asked for the password of the backup `name`, and waits to write it to the child.
abbrev pub Asked : (d : Decoder) → Text → ℕ → Preparing × Processor d → Type 0
Asked d name pid (p, child) =
    (p.pending_password ≡ some pid)
    × (p.session.state.password_for ≡ some name)
    × (child.out.carry ≡ [])

request_password-Asked :
    (d : Decoder) (now : ℕ) (child : Processor d) (splitter : LineSplitter d) (name : Text)
    (p : Preparing)
    → Asked d name child.pid (request_password d now child splitter name p)
unfolding take_pending password_requested
request_password-Asked d now child splitter name p = (refl, refl, refl)

-- A chunk of the processor's output that ends in its prompt for a password, alone on the last line, is
-- read as asking for the password of the backup that it names, for every name that is not empty and
-- has no line break in it; the prompt leaves the buffer, so that it is read once.
pub on_chunk-password_prompt :
    (d : Decoder) (chunk : List ℕ) (now : ℕ) (child : Processor d) (p : Preparing) (name : Text)
    → pending d (push d child.out chunk).1 ≡ password_prompt name
    → is_empty name ≡ false
    → on_one_line name ≡ true
    → Asked d name child.pid (on_chunk d stdout chunk now child p)
unfolding on_chunk
on_chunk-password_prompt d chunk now child p name waits some_name one_line =
    let (lines, splitter) = push d child.out chunk in
    let is : prompted (pending d splitter) ≡ some name =
      ap prompted waits ∙ prompted-password_prompt name some_name one_line in
    rw is (request_password-Asked d now child splitter name (emit_all stdout now lines p))
