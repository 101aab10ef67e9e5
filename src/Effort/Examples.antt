-- ===== src/Effort/Examples.antt =====
-- Levels at concrete limits, and a step behind a page that was read.
use sanare_agent_core.Base.{true, false, none, some, List, [], ◌∷◌, ◌≡◌, refl, str_eq, contains}
use sanare_agent_core.Json
use sanare_agent_core.Json.{Value, null, text, dict, list, Fields, field, get, find, elements}
use sanare_agent_core.Json.Shapes
use sanare_agent_core.Effort.{
  low, high, max, below, Words, Choice, fit, retry_level, retry_headroom_factor, role_of, is_owner,
}
use sanare_agent_core.Effort.Levels.{IsHighest, fit-IsHighest}
use sanare_agent_core.Effort.Steps
use sanare_agent_core.Effort.Steps.{
  StepChoice, step_effort, tool_batches, tool_chain, streak, held, all_simple,
}

fits_high : fit max 5_000 ≡ high
unfolding fit
fits_high = refl

retries_low : retry_level high 4_000 ≡ low
unfolding retry_level
retries_low = refl

fit-IsHighest_example :
    IsHighest 1 5_000 max (fit max 5_000)
    × IsHighest retry_headroom_factor 4_000 (below high) (retry_level high 4_000)
fit-IsHighest_example = fit-IsHighest max high 5_000 4_000

abbrev words : Words
words = record {
  forced = λ t. none;
  asks_max = λ t. false;
  greets = λ t. false;
  asks_deep = λ t. true;
  names_architect = λ t. false;
  simple_name = λ t. str_eq t "web_read";
}

abbrev turn : Choice
turn = record { level = high; reason = "deep_work" }

abbrev call : Value
call = dict (
    field "id" (text "c1") (field "name" (text "web_read") (field "args" (dict Json.end) Json.end)))

abbrev messages : List Fields
messages =
    field "role" (text "user") (field "content" (text "look") Json.end)
    ∷ field "role" (text "assistant") (field "tool_calls" (list (Json.item call Json.nil)) Json.end)
    ∷ field "role" (text "tool")
        (field "tool_call_id" (text "c1") (field "content" (text "page") Json.end))
    ∷ []

goes_on : step_effort words (λ t. none) (λ v. false) messages null turn ≡ record {
  chosen = record { level = low; reason = "tool_chain" };
  step = tool_chain;
  task_choice = some (turn, 1);
}
unfolding step_effort tool_batches get find elements Json.eq Shapes.is Shapes.is_one_of
    Shapes.items_of Shapes.fields_of role_of is_owner Steps.call_parts Steps.simple_tool
    Steps.last_role Steps.last_batch contains
goes_on = refl
