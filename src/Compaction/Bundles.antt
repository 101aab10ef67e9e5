-- ===== src/Compaction/Bundles.antt =====
-- Whole tool bundles: an assistant turn with its calls and exactly their results
-- (`_bundles` and `_complete_span` of src/deep_agent/msty_compaction.py).
pub mod Spans
use sanare_agent_core.Base.{
  ℕ, zero, suc, ◌+◌, ◌-◌, String, Bool, true, false, not, ◌&&◌, ◌||◌, Option, none, some, List, [],
  ◌∷◌, length, ltb, leb, ◌==◌, if◌then◌else◌, str_eq,
}
use sanare_agent_core.Message.{Role, Content, Call, Message, is_tool, contains}

with_id : Option String → Option (List String) → Option (List String)
with_id none rest = none
with_id (some x) none = none
with_id (some x) (some xs) = if str_eq x "" then none else some (x ∷ xs)

-- The ids of the calls, where every call has one that is not empty.
ids_of : List Call → Option (List String)
unfolding with_id
ids_of [] = some []
ids_of (c ∷ cs) = with_id c.id (ids_of cs)

distinct : List String → Bool
distinct [] = true
distinct (x ∷ xs) = not (contains x xs) && distinct xs

-- The ids of an assistant turn whose calls can have a whole bundle.
turn_ids : Role → Option (List Call) → Option (List String)
unfolding ids_of distinct
turn_ids Role.assistant (some (c ∷ cs)) = elim (ids_of (c ∷ cs)) [
  | some ids ↦ if distinct ids then some ids else none
  | none ↦ none
]
turn_ids _ _ = none

-- The tool results that follow at once.
unfoldable pub tool_run : List Message → List Message
tool_run [] = []
tool_run (m ∷ ms) = if is_tool m then m ∷ tool_run ms else []

result_in : List String → Option String → Bool
result_in ids none = false
result_in ids (some x) = contains x ids

all_results_in : List String → List Message → Bool
unfolding result_in
all_results_in ids [] = true
all_results_in ids (m ∷ ms) = result_in ids m.tool_call_id && all_results_in ids ms

is_result : String → Option String → Bool
is_result x none = false
is_result x (some y) = str_eq x y

has_result : String → List Message → Bool
unfolding is_result
has_result x [] = false
has_result x (m ∷ ms) = is_result x m.tool_call_id || has_result x ms

all_have_result : List String → List Message → Bool
unfolding has_result
all_have_result [] ms = true
all_have_result (x ∷ xs) ms = has_result x ms && all_have_result xs ms

is_text : Content → Bool
is_text (Content.text t) = true
is_text _ = false

all_text : List Message → Bool
unfolding is_text
all_text [] = true
all_text (m ∷ ms) = is_text m.content && all_text ms

readable : Content → Bool
readable Content.other = false
readable _ = true

-- Whether the results are those of the ids, one each, as text.
matches : List String → Content → List Message → Bool
unfolding all_results_in all_have_result readable all_text
matches ids content results =
    length results == length ids
    && all_results_in ids results
    && all_have_result ids results
    && readable content
    && all_text results

-- How many results the scan passes over after a turn (`index = cursor` against `index += 1`).
passed : Option (List String) → List Message → ℕ
passed none run = 0
passed (some ids) run = length run

-- The bundle of a turn at `index`, if it is whole, before the later ones.
emit : Option (List String) → ℕ → Content → List Message → List (ℕ × ℕ) → List (ℕ × ℕ)
unfolding matches
emit none index content run later = later
emit (some ids) index content run later =
    if matches ids content run then (index, index + 1 + length run) ∷ later else later

-- The scan at `index`, with `skip` messages to pass over before the next look.
bundles_from : ℕ → ℕ → List Message → List (ℕ × ℕ)
unfolding turn_ids tool_run passed emit
bundles_from index skip [] = []
bundles_from index (suc skip) (m ∷ ms) = bundles_from (index + 1) skip ms
bundles_from index zero (m ∷ ms) =
    let found = turn_ids m.role m.tool_calls in
    emit found index m.content (tool_run ms)
      (bundles_from (index + 1) (passed found (tool_run ms)) ms)

-- The whole bundles of a history as index ranges, the end excluded.
unfoldable pub bundles : List Message → List (ℕ × ℕ)
unfolding bundles_from
bundles = bundles_from 0 0

-- The walk over the bundles from `cursor`.
pub span_from : ℕ → ℕ → List (ℕ × ℕ) → Bool
span_from cursor end [] = false
span_from cursor end ((left, right) ∷ bs) =
    let past = span_from cursor end bs in
    let next = span_from right end bs in
    if ltb left cursor
    then past
    else if not (left == cursor) || ltb end right
    then false
    else if right == end
    then true
    else next

-- Whether the range is covered by adjacent whole bundles.
unfoldable pub complete_span : List Message → ℕ → ℕ → Bool
unfolding span_from
complete_span messages start end = span_from start end (bundles messages)
