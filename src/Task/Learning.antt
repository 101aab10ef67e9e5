-- ===== src/Task/Learning.antt =====
-- The optional learning parts of a receipt (`_learning_context`, `_learning_outcome`, `_hash` and
-- `_bounded_json` of src/deep_agent/msty_task.py): references only, never text that is trusted.
use sanare_agent_core.Base.{
  ℕ, suc, String, Bool, true, false, not, ◌&&◌, ◌||◌, Option, none, some, List, [], ◌∷◌, ltb, leb,
  if◌then◌else◌, length, string_append,
}
use sanare_agent_core.Text.Strings.{chars, hex_digits, every, is_word, json_name, behind}
use sanare_agent_core.Json
use sanare_agent_core.Json.{
  Value, null, int, text, dict, list, Fields, field, get, eq, is_null, elements,
}
use sanare_agent_core.Json.Shapes.{
  is, is_one_of, keys_are, is_false, is_bool, is_count, is_count_within, texts_satisfy, items_of,
  fields_of, is_dict, is_list,
}
use sanare_agent_core.Task.{Host, LearningContext}

abbrev pub journal : String
journal = "project-governance/changes/"

-- _hash
unfoldable pub is_hash : Value → Bool
is_hash v = texts_satisfy (hex_digits 64) v

fits : Option ℕ → ℕ → Bool
fits none limit = false
fits (some n) limit = leb n limit

-- _bounded_json
unfoldable pub bounded_json : Host → Value → ℕ → Bool
unfolding fits
bounded_json host v limit = fits (host.json_bytes v) limit

abbrev context_keys : List String
context_keys =
    "schema" ∷ "state" ∷ "authority" ∷ "retrieved_lesson_count" ∷ "used_lesson_count" ∷ "lessons"
    ∷ "quarantined_count" ∷ "scan_truncated" ∷ "reuse_receipt_path" ∷ "reuse_receipt_sha256"
    ∷ "code" ∷ []

abbrev lesson_keys : List String
lesson_keys =
    "id" ∷ "lesson" ∷ "source" ∷ "source_sha256" ∷ "lesson_sha256" ∷ "state" ∷ "authority"
    ∷ "published" ∷ "semantic_verification" ∷ []

abbrev outcome_keys : List String
outcome_keys =
    "schema" ∷ "state" ∷ "lesson_id" ∷ "lesson_receipt_path" ∷ "lesson_receipt_sha256"
    ∷ "source_sha256" ∷ "metrics" ∷ "engram" ∷ "code" ∷ []

abbrev metric_keys : List String
metric_keys =
    "outcome" ∷ "passed_checks" ∷ "failed_checks" ∷ "error_checks" ∷ "baseline_outcome"
    ∷ "baseline_source_sha256" ∷ "recovery_observed" ∷ "retrieved_lesson_count"
    ∷ "used_lesson_count" ∷ []

lesson_shape : Fields → Bool
lesson_shape lesson =
    keys_are lesson_keys lesson
    && texts_satisfy (λ s. ltb 0 (chars s) && leb (chars s) 110 && every is_word s)
        (get "id" lesson)
    && texts_satisfy (λ s. leb 10 (chars s) && leb (chars s) 2000) (get "lesson" lesson)
    && texts_satisfy (λ s. leb (chars s) 255 && json_name s) (get "source" lesson)
    && is_hash (get "source_sha256" lesson)
    && is_hash (get "lesson_sha256" lesson)
    && is (get "state" lesson) "candidate"
    && is (get "authority" lesson) "reference_only"
    && is_false (get "published" lesson)
    && is (get "semantic_verification" lesson) "not_performed"

-- The loop over the lessons, with the ids seen so far.
lessons_ok : List Value → List Value → Bool
lessons_ok seen [] = true
lessons_ok seen (dict lesson ∷ rest) =
    lesson_shape lesson
    && not (seen_in (get "id" lesson) seen)
    && lessons_ok (get "id" lesson ∷ seen) rest
  where
    seen_in : Value → List Value → Bool
    seen_in v [] = false
    seen_in v (w ∷ ws) = eq v w || seen_in v ws
lessons_ok seen (lesson ∷ rest) = false

-- The code of a context by its state.
context_code_ok : Fields → Bool
context_code_ok value =
    if is (get "state" value) "loaded"
    then is_null (get "code" value)
    else is_one_of (get "code" value)
        ("learning_context_unavailable" ∷ "learning_reuse_not_persisted" ∷ [])

-- The reuse receipt is the one of this plan, or is absent where the context was unavailable.
reuse_receipt_ok : String → Fields → Bool
reuse_receipt_ok plan_id value =
    if is_null (get "reuse_receipt_path" value)
    then is_null (get "reuse_receipt_sha256" value) && is (get "state" value) "unavailable"
    else is (get "reuse_receipt_path" value) (
        string_append journal
          (string_append "msty-learning-reuse-" (string_append (behind 9 plan_id) ".json")))
      && is_hash (get "reuse_receipt_sha256" value)

context_ok : Host → String → Fields → Bool
unfolding lessons_ok lesson_shape context_code_ok reuse_receipt_ok
context_ok host plan_id value =
    keys_are context_keys value
    && bounded_json host (dict value) 8192
    && is (get "schema" value) "msty.learning.context.v1"
    && is_one_of (get "state" value) ("loaded" ∷ "unavailable" ∷ [])
    && is (get "authority" value) "reference_only"
    && is_null (get "used_lesson_count" value)
    && is_count_within (get "retrieved_lesson_count" value) 3
    && is_count_within (get "quarantined_count" value) 256
    && is_bool (get "scan_truncated" value)
    && is_list (get "lessons" value)
    && is_count (get "retrieved_lesson_count" value) (length (items_of (get "lessons" value)))
    && context_code_ok value
    && reuse_receipt_ok plan_id value
    && lessons_ok [] (items_of (get "lessons" value))

-- _learning_context, of a receipt with this plan id.
unfoldable pub learning_context : Host → String → Value → Bool
unfolding context_ok
learning_context host plan_id (dict value) = context_ok host plan_id value
learning_context host plan_id v = false

-- Checks of the receipt with this status.
unfoldable pub checks_with : String → List Value → ℕ
checks_with status [] = 0
checks_with status (c ∷ cs) =
    if is (get "status" (fields_of c)) status
    then suc (checks_with status cs)
    else checks_with status cs

-- The state of a local lesson that was not kept.
not_persisted : Fields → Bool
not_persisted value =
    is (get "code" value) "local_learning_not_persisted"
    && is_null (get "lesson_id" value)
    && is_null (get "lesson_receipt_path" value)
    && is_null (get "lesson_receipt_sha256" value)
    && is_null (get "source_sha256" value)
    && is_null (get "metrics" value)
    && eq (get "engram" value) (
        dict (
          field "state" (text "not_attempted")
            (field "code" (text "local_lesson_not_persisted") (field "event_id" null Json.end))))

recorded_ok : String → Fields → Bool
recorded_ok source value =
    is (get "state" value) "recorded"
    && is_null (get "code" value)
    && is (get "source_sha256" value) source
    && is (get "lesson_id" value) (string_append "msty-brain-lesson-auto-" source)
    && is (get "lesson_receipt_path" value) (
        string_append journal
          (string_append "msty-brain-lesson-auto-" (string_append source ".json")))
    && is_hash (get "lesson_receipt_sha256" value)

recovered : Fields → Value → Bool
recovered metrics state =
    is_one_of (get "baseline_outcome" metrics) ("failed" ∷ "error" ∷ []) && is state "passed"

retrieved_ok : Option LearningContext → Fields → Bool
retrieved_ok none metrics = true
retrieved_ok (some context) metrics =
    is_count (get "retrieved_lesson_count" metrics) context.retrieved

-- count == sum(...), with at most 24 checks
count_ok : Fields → String → String → List Value → Bool
unfolding checks_with
count_ok metrics key status checks =
    is_count_within (get key metrics) 24 && is_count (get key metrics) (checks_with status checks)

metrics_ok : Option LearningContext → Value → List Value → Fields → Bool
unfolding recovered retrieved_ok count_ok
metrics_ok context state checks metrics =
    keys_are metric_keys metrics
    && eq (get "outcome" metrics) state
    && is_one_of (get "baseline_outcome" metrics) ("passed" ∷ "failed" ∷ "error" ∷ [])
    && is_hash (get "baseline_source_sha256" metrics)
    && is_bool (get "recovery_observed" metrics)
    && eq (get "recovery_observed" metrics) (Json.bool (recovered metrics state))
    && is_count_within (get "retrieved_lesson_count" metrics) 3
    && is_null (get "used_lesson_count" metrics)
    && retrieved_ok context metrics
    && count_ok metrics "passed_checks" "passed" checks
    && count_ok metrics "failed_checks" "failed" checks
    && count_ok metrics "error_checks" "error" checks

engram_state_ok : Fields → Bool
engram_state_ok engram =
    if is (get "state" engram) "recorded"
    then is_null (get "code" engram)
    else if is (get "state" engram) "not_attempted"
    then is_one_of (get "code" engram) ("engram_adapter_unavailable" ∷ "engram_adapter_error" ∷ [])
    else is (get "state" engram) "unknown"
      && is_one_of (get "code" engram) (
          "engram_timeout_no_retry" ∷ "engram_failed_outcome_unknown" ∷ "engram_adapter_error"
          ∷ "engram_prior_attempt_unconfirmed" ∷ "engram_delivery_record_unavailable" ∷ [])

engram_ok : String → Fields → Bool
unfolding engram_state_ok
engram_ok source engram =
    keys_are ("state" ∷ "code" ∷ "event_id" ∷ []) engram
    && is (get "event_id" engram) (string_append "msty-auto-" source)
    && engram_state_ok engram

outcome_ok : Host → Option LearningContext → String → Value → List Value → Fields → Bool
unfolding not_persisted recorded_ok metrics_ok engram_ok
outcome_ok host context source state checks value =
    keys_are outcome_keys value
    && bounded_json host (dict value) 4096
    && is (get "schema" value) "msty.learning.outcome.v1"
    && (if is (get "state" value) "error"
        then not_persisted value
        else recorded_ok source value
          && is_dict (get "metrics" value)
          && metrics_ok context state checks (fields_of (get "metrics" value))
          && is_dict (get "engram" value)
          && engram_ok source (fields_of (get "engram" value)))

-- _learning_outcome, of a receipt with this digest, state and checks.
unfoldable pub learning_outcome :
    Host → Option LearningContext → String → Value → List Value → Value → Bool
unfolding outcome_ok
learning_outcome host context source state checks (dict value) =
    outcome_ok host context source state checks value
learning_outcome host context source state checks v = false
