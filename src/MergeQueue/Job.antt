-- ===== src/MergeQueue/Job.antt =====
-- `MergeConsolidationJob` of ymir/common/models.py, the outcomes of a submission, and the names of
-- the hash's fields. Moments are microseconds.
use Prim.Native.String.{compare}
use text.Mathlib.Text.{is_lt}
use ai_workflows.Common.{
  ℕ, String, ◌<>◌, Bool, true, false, Option, none, some, List, [], ◌∷◌, ◌==◌,
}
use ai_workflows.Effects.{Result}

pub record MergeConsolidationJob : Type 0 where
  pub package_name : String
  pub target_branch : String
  pub active : Bool
  pub submitted_at : ℕ
  pub source_issues : Option (List String)
  pub activated_at : Option ℕ
  pub release_strategy : Option String

pub data SubmitResult : Type 0 where
  submitted already_queued conflict : SubmitResult

unfoldable pub consolidation_field_key : String → String → String → String
consolidation_field_key pkg branch slot = pkg <> (":" <> (branch <> (":" <> slot)))

unfoldable pub heartbeat_field_key : String → String → String
heartbeat_field_key pkg branch = consolidation_field_key pkg branch "heartbeat"

-- pydantic's `model_dump_json` and `model_validate_json`
pub record Json : Type 0 where
  pub model_dump_json : MergeConsolidationJob → String
  pub model_validate_json : String → Result MergeConsolidationJob

abbrev order : Bool → Bool → String → String → List String → List String → List String
order true smaller x y ys inserted = y ∷ ys
order false true x y ys inserted = x ∷ y ∷ ys
order false false x y ys inserted = y ∷ inserted

abbrev insert : String → List String → List String
insert x [] = x ∷ []
insert x (y ∷ ys) =
    let inserted = insert x ys in order (x == y) (is_lt (compare x y)) x y ys inserted

-- `sorted(set(value))`; Python orders texts by their characters, as their bytes are ordered
unfoldable pub deduplicate_and_sort : List String → List String
deduplicate_and_sort [] = []
deduplicate_and_sort (x ∷ xs) = insert x (deduplicate_and_sort xs)

abbrev pub unique_sorted : Option (List String) → Option (List String)
unique_sorted none = none
unique_sorted (some xs) = some (deduplicate_and_sort xs)
