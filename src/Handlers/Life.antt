-- ===== src/Handlers/Life.antt =====
-- How far the one child of the handlers of apps/epoch/src/main/ipc/pipelineHandlers.ts is.

use verichron_epoch.Prelude.{Bool, true, false, Option, none, some}

-- A failed child has had an 'error' event and has yet to close. It may live on and print: the event
-- comes also where the process could not be killed.
pub data Life (Child : Type 0) : Type 0 where
  none_lives : Life Child
  lives failed : Child → Life Child

-- The child that lives and has had no error.
abbrev pub living : {Child : Type 0} → Life Child → Option Child
living none_lives = none
living (lives c) = some c
living (failed c) = none

abbrev pub is_failed : {Child : Type 0} → Life Child → Bool
is_failed none_lives = false
is_failed (lives c) = false
is_failed (failed c) = true
