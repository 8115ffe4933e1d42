-- ===== src/AnalysisTargets.antt =====
-- Which backups an analysis reads: apps/epoch/src/main/ipc/analysisTargets.ts and preparedBackups.ts
-- there, and apps/epoch/src/shared/analysisSelection.ts.
pub mod Sorting
pub mod Offered
use verichron_epoch.Prelude.{
  Bool, true, false, not, ◌&&◌, ◌||◌, List, [], ◌∷◌, ◌++◌, map, all, any, keep, Option, none, some,
  String, Text, codes, str_eq, text_eq, ltb, ℕ, ◌==◌, if◌then◌else◌,
}

pub data PreparedState : Type 0 where
  prepared partial : PreparedState

pub record PreparedBackup : Type 0 where
  pub label : Text
  pub state : PreparedState
  pub prepared_at : String

-- What a valid completion marker says.
pub record Stamp : Type 0 where
  pub content_root : String
  pub completed_at : String

-- An entry of `decrypted`, with the markers of the decrypt and of the iLEAPP output of that name.
pub record Listed : Type 0 where
  pub name : Text
  pub is_directory : Bool
  pub decrypt : Option Stamp
  pub ileapp : Option Stamp

-- The order of JavaScript's `sort()`.
abbrev pub text_le : Text → Text → Bool
text_le [] t = true
text_le (a ∷ s) [] = false
text_le (a ∷ s) (b ∷ t) = ltb a b || (a == b && text_le s t)

module _ {A : Type 0} where
  -- A stable sort.
  unfoldable pub insert_by : (A → A → Bool) → A → List A → List A
  insert_by le x [] = x ∷ []
  insert_by le x (y ∷ ys) = let rest = insert_by le x ys in if le x y then x ∷ y ∷ ys else y ∷ rest

  unfoldable pub sort_by : (A → A → Bool) → List A → List A
  unfolding insert_by
  sort_by le [] = []
  sort_by le (x ∷ xs) = insert_by le x (sort_by le xs)

abbrev is_current : Option Stamp → String → Bool
is_current none root = false
is_current (some stamp) root = str_eq stamp.content_root root

abbrev pub time_of : Option Stamp → String → String
time_of none other = other
time_of (some stamp) other = stamp.completed_at

abbrev prepared_with : Text → Option Stamp → Stamp → PreparedBackup
prepared_with label ileapp decrypt =
    if is_current ileapp decrypt.content_root
    then record {
      label = label;
      state = prepared;
      prepared_at = time_of ileapp decrypt.completed_at;
    }
    else record { label = label; state = partial; prepared_at = decrypt.completed_at }

abbrev prepared_of : Listed → Option Stamp → List PreparedBackup
prepared_of entry none = []
prepared_of entry (some decrypt) = prepared_with entry.name entry.ileapp decrypt ∷ []

abbrev read_each : List Listed → List PreparedBackup
read_each [] = []
read_each (entry ∷ entries) = prepared_of entry entry.decrypt ++ read_each entries

-- `none` where there is no folder `decrypted`.
unfoldable pub read_prepared_backups : Option (List Listed) → List PreparedBackup
unfolding sort_by
read_prepared_backups none = []
read_prepared_backups (some entries) =
    read_each (sort_by (λ a b. text_le a.name b.name) (keep (λ e. e.is_directory) entries))

abbrev pub is_prepared : PreparedState → Bool
is_prepared prepared = true
is_prepared partial = false

-- `new Set(...)` of the labels of the prepared backups.
abbrev pub ready : List PreparedBackup → List Text
ready [] = []
ready (b ∷ bs) = let rest = ready bs in if is_prepared b.state then b.label ∷ rest else rest

abbrev pub has : List Text → Text → Bool
has labels label = any (text_eq label) labels

-- `[...new Set(labels)]`: each label once, where it first stands.
unfoldable pub unique : List Text → List Text
unique [] = []
unique (l ∷ ls) = l ∷ keep (λ m. not (text_eq l m)) (unique ls)

-- An argument of the renderer.
pub data Argument : Type 0 where
  name : Text → Argument
  no_string : Argument

abbrev pub names_of : List Argument → Option (List Text)
names_of [] = some []
names_of (name l ∷ more) = elim (names_of more) [ none ↦ none | some ls ↦ some (l ∷ ls) ]
names_of (no_string ∷ more) = none

pub data Refusal : Type 0 where
  none_selected unnamed : Refusal
  no_backup_name not_prepared : Text → Refusal

-- The paths to read, the last name first.
pub data Targets : Type 0 where
  targets : List (List Text) → Targets
  refuses : Refusal → Targets

-- Node's `path.basename` is a parameter.
module _ (basename : Text → Text) where
  abbrev pub is_backup_name : Text → Bool
  is_backup_name label =
      text_eq label (basename label)
      && not (text_eq label (codes "."))
      && not (text_eq label (codes ".."))

  abbrev pub check_labels : List Text → List Text → Option Refusal
  check_labels known [] = none
  check_labels known (label ∷ labels) =
      let rest = check_labels known labels in
      if not (is_backup_name label)
      then some (no_backup_name label)
      else if not (has known label)
      then some (not_prepared label)
      else rest

  abbrev pub target_in : List Text → Text → List Text
  target_in workspace label = label ∷ codes "decrypted" ∷ workspace

  abbrev pub targets_of : List Text → List Text → Option Refusal → Targets
  targets_of workspace labels (some refusal) = refuses refusal
  targets_of workspace labels none = targets (map (target_in workspace) labels)

  abbrev pub checked_targets : List Text → List Text → List Text → Targets
  checked_targets workspace known labels = targets_of workspace labels (check_labels known labels)

  abbrev pub named_targets : List Text → List Text → Option (List Text) → Targets
  named_targets workspace known none = refuses unnamed
  named_targets workspace known (some labels) =
      checked_targets workspace known (sort_by text_le (unique labels))

  unfoldable pub analysis_targets : List Text → Option (List Listed) → List Argument → Targets
  unfolding read_prepared_backups sort_by unique
  analysis_targets workspace listing [] = refuses none_selected
  analysis_targets workspace listing (a ∷ more) =
      named_targets workspace (ready (read_prepared_backups listing)) (names_of (a ∷ more))

-- `orchestratorArgs`, the paths joined.
abbrev pub orchestrator_args : List Text → Text → List Text
orchestrator_args paths summary_path =
    codes "--filter"
    ∷ codes "@verichron/orchestrator"
    ∷ codes "investigate"
    ∷ codes "--"
    ∷ codes "--summary-path"
    ∷ summary_path
    ∷ paths

pub data NotIncludedReason : Type 0 where
  prepared_not_selected selected_not_prepared : NotIncludedReason

pub record AnalysisSelection : Type 0 where
  pub included : List Text
  pub not_included : List (Text × NotIncludedReason)

-- `localeCompare(a, b) <= 0` is a parameter.
unfoldable pub analysis_selection :
    (Text → Text → Bool) → List Text → List PreparedBackup → AnalysisSelection
unfolding sort_by unique
analysis_selection le selected backups =
    let chosen = unique selected in
    let known = unique (ready backups) in
    record {
      included = sort_by text_le (keep (has known) chosen);
      not_included =
          sort_by (λ (a b : Text × NotIncludedReason). le a.0 b.0)
            (map (λ (l : Text). (l, prepared_not_selected)) (keep (λ l. not (has chosen l)) known)
              ++ map (λ (l : Text). (l, selected_not_prepared))
                  (keep (λ l. not (has known l)) chosen));
    }
