-- ===== src/DevicePull/Again/Recorded.antt =====
-- What a further copy of crash logs of apps/epoch/src/main/tools/device-backup/ios/iosBackupSource.ts
-- leaves.
use verichron_epoch.Prelude.{ℕ, ◌≡◌, true, ◌∷◌, some, Text}
use verichron_epoch.DevicePull.{folder, snapshot, gives}
use verichron_epoch.DevicePull.CrashLogs.{Beside, failed}
use verichron_epoch.DevicePull.CrashLogs.Accounted.{IsAccounted, Outcome}
use verichron_epoch.DevicePull.Pull.{Destination, copied_again}
use verichron_epoch.DevicePull.Again.{
  AgainError, copy_unrecorded, copy_kept, AgainResult, returns, throws, Answers, upper,
}

-- The backup is finished, and was made from the device, which is connected.
abbrev pub Ready : Answers → Text → Destination → Type 0
Ready a udid d =
    ((bytes : ℕ) × (d.folder ≡ folder (snapshot "finished") true bytes))
    × ((made_from : Text) × (a.made_from ≡ gives (some made_from)) × (upper made_from ≡ upper udid))
    × (a.name ≡ udid)
    × (a.listed ≡ some true)

-- Nothing is left beside the backup, unless the error says so.
abbrev pub Undone : AgainError → Beside → Beside → Type 0
Undone copy_kept b b' = Unit
Undone (copy_unrecorded (failed _ _ true)) b b' = Unit
Undone _ b b' = b' ≡ b

-- How a copy ends: with its own line, the newest of the pull record, or with an error and no line.
abbrev pub Recorded :
    Answers → Text → Destination → Beside → Destination → Beside → AgainResult → Type 0
Recorded a udid d b d' b' (returns c) =
    (d'.log ≡ copied_again c ∷ d.log)
    × (d'.folder ≡ d.folder)
    × Ready a udid d
    × Outcome a.copying b b' c
Recorded a udid d b d' b' (throws e) = (d' ≡ d) × Undone e b b'

unfoldable Ends :
    Answers → Text → Destination → Beside → Destination × Beside × AgainResult → Type 0
Ends a udid d b (d', b', result) = IsAccounted b' × Recorded a udid d b d' b' result
