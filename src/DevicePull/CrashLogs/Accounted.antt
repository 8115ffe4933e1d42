-- ===== src/DevicePull/CrashLogs/Accounted.antt =====
-- The record of a copy of crash logs, in
-- apps/epoch/src/main/tools/device-backup/ios/crashReports.ts, and what it accounts for.
use verichron_epoch.Prelude.{◌≡◌, true, false, none, some, codes, is_some}
use verichron_epoch.DevicePull.CrashLogs.{
  no_folder, holds, Acquisition, Beside, CrashReportCopy, copied, failed, unavailable, Answers,
  on_a_line, is_clean,
}

-- A record stands only beside the finished copy that it counts.
abbrev pub IsAccounted : Beside → Type 0
IsAccounted b = (r : Acquisition) → b.record_file ≡ some r → b.dir ≡ holds r.files r.bytes

-- What a copy says of what it left: a finished one is whole, recorded, new, and took nothing off the
-- device; any other recorded nothing, and left nothing unless it says so.
abbrev pub Outcome : Answers → Beside → Beside → CrashReportCopy → Type 0
Outcome a b b' (copied version files bytes) =
    (b'.dir ≡ holds files bytes)
    × (is_some b'.record_file ≡ true)
    × (b.dir ≡ no_folder)
    × (b.record_file ≡ none)
    × (is_clean a.run.code ≡ true)
    × (a.run.timed_out ≡ false)
    × (on_a_line true (codes "Move: ") a.run.output ≡ false)
Outcome a b b' (failed version error left) =
    (b'.record_file ≡ b.record_file) × (left ≡ false → b' ≡ b)
Outcome a b b' unavailable = b' ≡ b

Good : Answers → Beside → Beside × CrashReportCopy → Type 0
Good a b (b', c) = IsAccounted b' × Outcome a b b' c
