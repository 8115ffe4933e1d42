-- ===== src/Orchestrator/Discovery.antt =====
-- discoverStages of apps/orchestrator/src/discovery.ts, from the stages that were loaded on, and
-- apps/orchestrator/src/migrations.ts.
use Prim.Native.String.{◌++◌ as append}
use verichron_epoch.Prelude.{
  ℕ, suc, max, Bool, true, false, not, List, [], ◌∷◌, Option, none, some, String, str_eq, ltb, leb,
  ◌==◌, if◌then◌else◌, any, keep,
}
use verichron_epoch.Orchestrator.{StageDefinition, StageSet}

abbrev pub is_enabled : StageDefinition → Bool
is_enabled s = s.manifest.enabled

-- How many stages declare this order: the length of the list that `orderCounts` has for it.
unfoldable pub count_order : ℕ → List StageDefinition → ℕ
count_order order [] = 0
count_order order (s ∷ ss) =
    let rest = count_order order ss in if s.manifest.order == order then suc rest else rest

unfoldable pub repeats_order : List StageDefinition → StageDefinition → Bool
unfolding count_order
repeats_order stages s = ltb 1 (count_order s.manifest.order stages)

abbrev pub is_at : String → StageDefinition → Bool
is_at dir s = str_eq s.dir dir

unfoldable pub find_stage : (StageDefinition → Bool) → List StageDefinition → Option StageDefinition
find_stage p [] = none
find_stage p (s ∷ ss) = let rest = find_stage p ss in if p s then some s else rest

-- `Math.max(0, …)` over the orders.
unfoldable pub max_order : List StageDefinition → ℕ
max_order [] = 0
max_order (s ∷ ss) = max s.manifest.order (max_order ss)

-- `stages.sort((a, b) => a.order - b.order)`, which is stable.
unfoldable pub insert_stage : StageDefinition → List StageDefinition → List StageDefinition
insert_stage s [] = s ∷ []
insert_stage s (t ∷ ts) =
    let rest = insert_stage s ts in
    if leb s.manifest.order t.manifest.order then s ∷ t ∷ ts else t ∷ rest

unfoldable pub sort_stages : List StageDefinition → List StageDefinition
unfolding insert_stage
sort_stages [] = []
sort_stages (s ∷ ss) = insert_stage s (sort_stages ss)

-- `reportStage && reportStage.manifest.order <= maxExtractorOrder`
unfoldable pub reports_too_early : String → List StageDefinition → Bool
unfolding find_stage max_order
reports_too_early reporting_dir stages = elim (find_stage (is_at reporting_dir) stages) [
  | none ↦ false
  | some report ↦
      leb report.manifest.order (max_order (keep (λ s. not (is_at reporting_dir s)) stages))
]

-- `none` where it throws.
unfoldable pub discover_stages : String → List StageDefinition → Option StageSet
unfolding repeats_order reports_too_early sort_stages
discover_stages reporting_dir found =
    let stages = keep is_enabled found in
    if any (repeats_order stages) stages
    then none
    else if reports_too_early reporting_dir stages
    then none
    else some
        (record { enabled = sort_stages stages; disabled = keep (λ s. not (is_enabled s)) found })

pub record MigrationStatus : Type 0 where
  pub ledger : Bool
  pub pending : List String

-- `files` are the .sql files in order; `applied` is what the ledger lists, `none` where the database
-- has none.
unfoldable pub read_migration_status : List String → Option (List String) → MigrationStatus
read_migration_status files none = record { ledger = false; pending = files }
read_migration_status files (some applied) = record {
  ledger = true;
  pending = keep (λ name. not (any (str_eq name) applied)) files;
}

abbrev pub join : List String → String
join [] = ""
join (s ∷ []) = s
join (s ∷ t ∷ ts) = append s (append ", " (join (t ∷ ts)))

abbrev pub refusal : String → String
refusal cause =
    append cause
      " Analysis would fail against it, so nothing was started. Apply the migrations with: uv run python packages/etl-db-writer/migrate.py"

unfoldable pub migration_refusal : MigrationStatus → Option String
migration_refusal status = elim status.ledger [
  | false ↦
      some (refusal "The database has no record of its migrations (no schema_migrations table).")
  | true ↦ elim status.pending [
    | [] ↦ none
    | name ∷ names ↦
        some (
          refusal (append "The database is missing migrations " (append (join (name ∷ names)) ".")))
  ]
]
