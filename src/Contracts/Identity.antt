-- ===== src/Contracts/Identity.antt =====
-- packages/contracts/ts/derivativeMarker.ts: which part of a derivative's parameters is its
-- identity. The key is SHA-256 over the canonical JSON of the tool and that part; the hash and
-- JSON.stringify are a parameter, a function of the two.
use verichron_epoch.Prelude.{
  ℕ, Bool, true, false, ◌&&◌, ◌||◌, List, [], ◌∷◌, map, String, Text, codes, ltb, ◌==◌,
  if◌then◌else◌,
}
use verichron_epoch.Contracts.{
  ToolVersion, RepairProvenance, skipped, ran, InputType, IleappModules, CrashReportsParams,
}
use verichron_epoch.PrepareProgress.Patterns.{is_digit}

pub data DerivativeParams : Type 0 where
  decrypt_params : RepairProvenance → DerivativeParams
  ileapp_params : InputType → IleappModules → DerivativeParams
  crash_reports_params : CrashReportsParams → DerivativeParams

-- `PRESERVED_AT`: a suffix of a name that reads as the time of a repair. `d` stands for a digit.
abbrev pub preserved_at : Text
preserved_at = codes ".corrupt-dddd-dd-ddTdd-dd-dd-dddZ"

abbrev fits : ℕ → ℕ → Bool
fits form c = if form == b'd' then is_digit c else form == c

abbrev pub reads_as : Text → Text → Bool
reads_as [] [] = true
reads_as (f ∷ form) (c ∷ s) = fits f c && reads_as form s
reads_as _ _ = false

-- `p.replace(PRESERVED_AT, '')`. The first letters of the form are in it once, so no earlier match
-- is lost. The letter `d` of the form's text is none of them.
unfoldable pub strip_preserved : Text → Text
unfolding is_digit
strip_preserved [] = []
strip_preserved (c ∷ s) =
    let rest = strip_preserved s in if reads_as preserved_at (c ∷ s) then [] else c ∷ rest

-- The order of `.sort()` on texts.
abbrev pub before : Text → Text → Bool
before [] _ = true
before (a ∷ s) [] = false
before (a ∷ s) (b ∷ t) = ltb a b || (a == b) && before s t

unfoldable pub insert_sorted : Text → List Text → List Text
insert_sorted s [] = s ∷ []
insert_sorted s (t ∷ ts) =
    let rest = insert_sorted s ts in if before s t then s ∷ t ∷ ts else t ∷ rest

unfoldable pub sorted : List Text → List Text
unfolding insert_sorted
sorted [] = []
sorted (s ∷ ss) = insert_sorted s (sorted ss)

pub data Identity : Type 0 where
  recorded : DerivativeParams → Identity
  repaired : ToolVersion → ℕ → ℕ → List String → List Text → Identity
  reports : ℕ → ℕ → String → Identity

unfoldable pub identity_params : DerivativeParams → Identity
unfolding strip_preserved sorted
identity_params (crash_reports_params p) = reports p.files p.bytes p.reports_root
identity_params (decrypt_params (ran tool scanned repaired_count failed_files originals)) =
    repaired tool scanned repaired_count failed_files
      (sorted (map (λ (p : String). strip_preserved (codes p)) originals))
identity_params (decrypt_params (skipped reason)) = recorded (decrypt_params (skipped reason))
identity_params (ileapp_params input modules) = recorded (ileapp_params input modules)

unfoldable pub provenance_key :
    (ToolVersion → Identity → String) → ToolVersion → DerivativeParams → String
unfolding identity_params
provenance_key hash tool params = hash tool (identity_params params)
