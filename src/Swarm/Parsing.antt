-- ===== src/Swarm/Parsing.antt =====
-- The plan of a swarm from the arguments of the lead's call (`_max_subtasks`, `_text` and `parse_plan`
-- of src/deep_agent/msty_swarm.py). A SwarmPlanError is `none`.
pub mod Limits
use sanare_agent_core.Base.{
  ℕ, zero, suc, ◌+◌, ◌-◌, ◌/◌, ◌%◌, min, max, String, Bool, true, false, not, ◌&&◌, Option, none,
  some, List, [], ◌∷◌, ltb, leb, if◌then◌else◌, length, str_eq, string_append, contains, distinct,
}
use Prim.Native.String.{slice}
use sanare_agent_core.Base.Options.{◌>>=◌}
use sanare_agent_core.Text.Strings.{chars, strip}
use sanare_agent_core.Json
use sanare_agent_core.Json.{
  Value, null, int, text, dict, list, Fields, get, find, keys_within, elements,
}
use sanare_agent_core.Json.Shapes.{items_of, is_list}
use sanare_agent_core.Swarm.{Subtask, SwarmPlan}

abbrev pub min_subtasks : ℕ
min_subtasks = 2

-- The ceiling of a swarm from its setting, an int of the environment; `none` where the text is no int.
-- A negative setting counts as 0.
unfoldable pub max_subtasks : Option ℕ → ℕ
max_subtasks none = 5
max_subtasks (some value) = min 100 (max min_subtasks value)

abbrev pub profiles : List String
profiles = "deepseek" ∷ "luna" ∷ []

abbrev pub default_profile : String
default_profile = "deepseek"

abbrev pub default_max_tokens : ℕ
default_max_tokens = 1_024

abbrev pub min_max_tokens : ℕ
min_max_tokens = 256

abbrev pub max_output_tokens : ℕ
max_output_tokens = 2_048

abbrev pub max_goal_chars : ℕ
max_goal_chars = 2_000

abbrev pub max_title_chars : ℕ
max_title_chars = 80

abbrev pub max_role_chars : ℕ
max_role_chars = 60

abbrev pub max_prompt_chars : ℕ
max_prompt_chars = 6_000

abbrev pub max_format_chars : ℕ
max_format_chars = 400

unfoldable pub within : ℕ → String → Option String
within limit t = if leb (chars t) limit then some t else none

-- _text
unfoldable pub text_field : Bool → ℕ → Value → Option String
unfolding within
text_field required limit (text t) =
    if required && str_eq (strip t) "" then none else within limit (strip t)
text_field required limit null = if required then none else some ""
text_field required limit v = none

-- str of an index; a plan has at most 100 parts, so three digits are enough.
digit : ℕ → String
digit d = slice "0123456789" d (d + 1)

decimal_on : ℕ → ℕ → String
unfolding digit
decimal_on zero n = ""
decimal_on (suc more) n =
    let front = decimal_on more (n / 10) in
    if ltb n 10 then digit n else string_append front (digit (n % 10))

unfoldable pub subtask_id : ℕ → String
unfolding decimal_on
subtask_id index = string_append "s" (decimal_on 3 index)

unfoldable pub profile_of : Option Value → Option String
profile_of none = some default_profile
profile_of (some (text p)) = if contains p profiles then some p else none
profile_of (some v) = none

unfoldable pub limit_of : Option Value → Option ℕ
limit_of none = some default_max_tokens
limit_of (some (int n)) = if leb min_max_tokens n && leb n max_output_tokens then some n else none
limit_of (some v) = none

unfoldable pub or_worker : String → String
or_worker role = if str_eq role "" then "исполнитель" else role

abbrev pub subtask_keys : List String
subtask_keys = "title" ∷ "role" ∷ "prompt" ∷ "output_format" ∷ "profile" ∷ "max_tokens" ∷ []

unfoldable pub subtask_from : ℕ → Fields → Option Subtask
unfolding profile_of limit_of or_worker
subtask_from index item = do
  profile ← profile_of (find "profile" item)
  limit ← limit_of (find "max_tokens" item)
  title ← text_field true max_title_chars (get "title" item)
  role ← text_field false max_role_chars (get "role" item)
  prompt ← text_field true max_prompt_chars (get "prompt" item)
  format ← text_field false max_format_chars (get "output_format" item)
  some (record {
    id = subtask_id index;
    title = title;
    role = or_worker role;
    prompt = prompt;
    output_format = format;
    profile = profile;
    max_tokens = limit;
  })

-- One part of the split, under its number.
unfoldable pub parse_subtask : ℕ → Value → Option Subtask
unfolding subtask_from
parse_subtask index (dict item) =
    if keys_within subtask_keys item then subtask_from index item else none
parse_subtask index v = none

-- The loop over the items, from `index`.
unfoldable pub parse_subtasks : ℕ → List Value → Option (List Subtask)
unfolding parse_subtask
parse_subtasks index [] = some []
parse_subtasks index (v ∷ vs) = do
  item ← parse_subtask index v
  rest ← parse_subtasks (suc index) vs
  some (item ∷ rest)

unfoldable pub prompts : List Subtask → List String
prompts [] = []
prompts (s ∷ ss) = s.prompt ∷ prompts ss

unfoldable pub unless_repeated : String → List Subtask → Option SwarmPlan
unfolding prompts
unless_repeated goal subtasks =
    if distinct (prompts subtasks) then some (record { goal = goal; subtasks = subtasks }) else none

unfoldable pub split_of : ℕ → Value → Option (List Subtask)
unfolding parse_subtasks
split_of most items =
    if is_list items
      && leb min_subtasks (length (items_of items))
      && leb (length (items_of items)) most
    then parse_subtasks 1 (items_of items)
    else none

unfoldable pub plan_from : ℕ → Fields → Option SwarmPlan
unfolding split_of unless_repeated
plan_from most args = do
  goal ← text_field true max_goal_chars (get "goal" args)
  subtasks ← split_of most (get "subtasks" args)
  unless_repeated goal subtasks

unfoldable pub parse_plan : ℕ → Value → Option SwarmPlan
unfolding plan_from
parse_plan most (dict args) =
    if keys_within ("goal" ∷ "subtasks" ∷ []) args then plan_from most args else none
parse_plan most v = none
