-- ===== src/Task/Verify.antt =====
-- Accepting a verification receipt (`_verified` of src/deep_agent/msty_task.py): it must be of the
-- plan that the checkpoint holds, and each check must have passed on the artifact whose hash it names.
pub mod Passing
use sanare_agent_core.Base.{
  ℕ, zero, suc, ◌+◌, String, Bool, true, false, not, ◌&&◌, ◌||◌, Option, none, some, List, [], ◌∷◌,
  ltb, leb, ◌==◌, if◌then◌else◌, length, str_eq, contains, starts_with, all_in,
}
use sanare_agent_core.Base.Dict
use sanare_agent_core.Base.Dict.{Dict}
use sanare_agent_core.Json
use sanare_agent_core.Json.{Value, null, int, text, dict, list, Fields, field, get, has, eq}
use sanare_agent_core.Json.Shapes.{
  is, keys_are, is_false, is_count, texts_satisfy, items_of, fields_of, is_list, is_text,
}
use sanare_agent_core.Task.{Host, Check, Plan}
use sanare_agent_core.Task.Learning.{journal, is_hash, learning_outcome}
use sanare_agent_core.Task.Planning.{plan_keys, receipt_keys, text_or_empty}

abbrev verify_keys : List String
verify_keys = "checks" ∷ "source_hashes" ∷ "receipt_path" ∷ "receipt_sha256" ∷ plan_keys

-- The receipt is of this plan and of a call that names it.
unfoldable pub verify_receipt_ok : Plan → Value → Fields → Bool
verify_receipt_ok p args receipt =
    receipt_keys verify_keys receipt
    && is (get "schema" receipt) "msty.task.verification.v1"
    && is (get "state" receipt) "passed"
    && eq args (dict (field "plan_id" (text p.plan_id) Json.end))
    && is (get "criteria_origin" receipt) "model_proposed"
    && is_false (get "whole_task_completion_verified" receipt)
    && is (get "plan_id" receipt) p.plan_id
    && is (get "plan_sha256" receipt) p.plan_sha256
    && eq (get "project_slug" receipt) p.project_slug
    && is_count (get "requirements_count" receipt) p.requirements_count
    && is_count (get "checks_count" receipt) p.checks_count
    && is_hash (get "receipt_sha256" receipt)
    && texts_satisfy (λ s. starts_with s journal) (get "receipt_path" receipt)
    && is_list (get "checks" receipt)
    && length (items_of (get "checks" receipt)) == p.checks_count
    && is_list (get "source_hashes" receipt)

-- A source that the verification read: its hash and its size.
pub record Source : Type 0 where
  pub sha256 : String
  pub size_bytes : ℕ

abbrev pub Sources : Type 0
Sources = Dict Source

source_of : Value → Value → Value → Sources → Option Sources
source_of (text path) (text sha256) (int bytes) sources =
    if is_hash (text sha256)
    then elim (Dict.get path sources) [
      | none ↦ some ((path, record { sha256 = sha256; size_bytes = bytes }) ∷ sources)
      | some earlier ↦ none
    ]
    else none
source_of path sha256 bytes sources = none

add_source : Value → Sources → Option Sources
unfolding source_of
add_source (dict source) sources =
    if keys_are ("path" ∷ "sha256" ∷ "size_bytes" ∷ []) source
    then source_of (get "path" source) (get "sha256" source) (get "size_bytes" source) sources
    else none
add_source source sources = none

-- The loop over the source hashes.
unfoldable pub sources_from : Sources → List Value → Option Sources
unfolding add_source
sources_from sources [] = some sources
sources_from sources (v ∷ vs) = elim (add_source v sources) [
  | none ↦ none
  | some more ↦ sources_from more vs
]

unfoldable pub paths_of : List Check → List String
paths_of [] = []
paths_of (c ∷ cs) = c.path ∷ paths_of cs

unfoldable pub source_paths : Sources → List String
source_paths [] = []
source_paths ((path, s) ∷ rest) = path ∷ source_paths rest

-- The check passed on the artifact that the source hashes name.
artifact_ok : Fields → Option Source → Bool
artifact_ok observed none = false
artifact_ok observed (some s) =
    is (get "artifact_sha256" observed) s.sha256
    && is_count (get "size_bytes" observed) s.size_bytes

unfoldable pub check_passed : Sources → Check → Value → Bool
unfolding artifact_ok
check_passed sources expected (dict observed) =
    keys_are
      ("index" ∷ "requirement_index" ∷ "kind" ∷ "status" ∷ "code" ∷ "artifact_sha256" ∷ "size_bytes"
        ∷ [])
      observed
    && is (get "status" observed) "passed"
    && is (get "code" observed) "match"
    && is_count (get "index" observed) expected.index
    && is_count (get "requirement_index" observed) expected.requirement_index
    && is (get "kind" observed) expected.kind
    && artifact_ok observed (Dict.get expected.path sources)
check_passed sources expected observed = false

-- zip stops at the shorter list; both are as long as `checks_count`.
unfoldable pub all_passed : Sources → List Check → List Value → Bool
unfolding check_passed
all_passed sources [] vs = true
all_passed sources (c ∷ cs) [] = true
all_passed sources (c ∷ cs) (v ∷ vs) = check_passed sources c v && all_passed sources cs vs

same_paths : Sources → List Check → Bool
unfolding paths_of source_paths
same_paths sources checks =
    all_in (source_paths sources) (paths_of checks)
    && all_in (paths_of checks) (source_paths sources)

checked_against : Host → Plan → Fields → Option Sources → Bool
unfolding same_paths all_passed
checked_against host p receipt none = false
checked_against host p receipt (some sources) =
    same_paths sources p.checks
    && all_passed sources p.checks (items_of (get "checks" receipt))
    && (not (has "learning" receipt)
        || learning_outcome host p.learning (text_or_empty (get "receipt_sha256" receipt))
            (get "state" receipt) (items_of (get "checks" receipt)) (get "learning" receipt))

-- _verified, of the plan in the contract.
unfoldable pub verified_by : Host → Plan → Value → Option Value → Bool
unfolding checked_against
verified_by host p args (some (dict receipt)) =
    verify_receipt_ok p args receipt
    && checked_against host p receipt (sources_from [] (items_of (get "source_hashes" receipt)))
verified_by host p args receipt = false
