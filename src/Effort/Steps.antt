-- ===== src/Effort/Steps.antt =====
-- The level of a step inside a chain of tools (`_call_parts`, `simple_tool`, `_failed`, `tool_batches`
-- and `step_effort` of src/deep_agent/msty_effort.py).
use Prim.Native.Char.{code}
use sanare_agent_core.Base.{
  ℕ, suc, ◌+◌, String, Bool, true, false, not, ◌&&◌, ◌||◌, Option, none, some, List, [], ◌∷◌, ◌++◌,
  ltb, leb, ◌==◌, if◌then◌else◌, length, str_eq,
}
use sanare_agent_core.Text.Strings.{ends_with}
use sanare_agent_core.Json.{Value, null, text, dict, Fields, get, find, eq}
use sanare_agent_core.Json.Shapes.{is, is_one_of, items_of, fields_of}
use sanare_agent_core.Effort.{Level, low, medium, rank, Words, Choice, role_of, is_owner}

abbrev pub step_level : Level
step_level = low

abbrev pub failure_level : Level
failure_level = medium

abbrev pub failure_streak : ℕ
failure_streak = 2

or_value : Option Value → Value → Value
or_value none v = v
or_value (some given) v = given

parsed_text : (String → Option Value) → Value → Value
parsed_text parse (text t) = elim (parse t) [ none ↦ null | some v ↦ v ]
parsed_text parse v = v

-- Id, name and arguments of a call.
abbrev pub Parts : Type 0
Parts = Value × Value × Value

-- _call_parts
unfoldable pub call_parts : (String → Option Value) → Value → Parts
unfolding or_value parsed_text
call_parts parse (dict call) =
    let function = fields_of (get "function" call) in
    (
      get "id" call,
      or_value (find "name" call) (get "name" function),
      parsed_text parse (or_value (find "args" call) (get "arguments" function)),
    )
call_parts parse v = (null, null, null)

-- The text in capitals, of a word whose letters are A to Z.
spells : String → String → Bool
spells String.[] String.[] = true
spells (String.◌∷◌ c s) (String.◌∷◌ d t) = (code c == code d || code c == code d + 32) && spells s t
spells s t = false

reads : Value → Bool
unfolding spells
reads (text method) = spells method "GET" || spells method "HEAD"
reads v = false

-- simple_tool
unfoldable pub simple_tool : Words → Value → Value → Bool
unfolding reads
simple_tool words (text name) args =
    words.simple_name name
    || ((str_eq name "service_call" || ends_with name "_service_call")
        && reads (get "method" (fields_of args)))
simple_tool words name args = false

-- The calls of a batch and the answers to it.
pub record ToolBatch : Type 0 where
  pub calls : List Parts
  pub results : List Fields

-- Behind the latest message of the owner.
behind_owner : List Fields → List Fields → List Fields
unfolding is_owner
behind_owner rest [] = rest
behind_owner rest (m ∷ ms) = behind_owner (if is_owner m then ms else rest) ms

all_parts : (String → Option Value) → List Value → List Parts
unfolding call_parts
all_parts parse [] = []
all_parts parse (v ∷ vs) = call_parts parse v ∷ all_parts parse vs

-- A batch is kept if something answered it.
close : Option ToolBatch → List ToolBatch → List ToolBatch
close none rest = rest
close (some b) rest = elim b.results [ [] ↦ rest | _ ↦ b ∷ rest ]

opened : List Parts → Option ToolBatch
opened [] = none
opened (c ∷ cs) = some (record { calls = c ∷ cs; results = [] })

answer : Fields → Option ToolBatch → Option ToolBatch
answer m none = none
answer m (some b) = some (record b { results = b.results ++ m ∷ [] })

calling : Value → Bool
calling role = is_one_of role ("assistant" ∷ "ai" ∷ [])

module _ (parse : String → Option Value) where
  -- The loop over the messages, with the batch that is open.
  batches_from : Option ToolBatch → List Fields → List ToolBatch
  unfolding close opened answer calling all_parts
  batches_from current [] = close current []
  batches_from current (m ∷ ms) =
      let next = batches_from (opened (all_parts parse (items_of (get "tool_calls" m)))) ms in
      let kept = batches_from current ms in
      let answered = batches_from (answer m current) ms in
      if calling (role_of m)
      then close current next
      else if is (role_of m) "tool"
      then answered
      else kept

  unfoldable pub tool_batches : List Fields → List ToolBatch
  unfolding behind_owner batches_from
  tool_batches ms = batches_from none (behind_owner ms ms)

-- _failed, where `fails` is the classification of a tool's text.
unfoldable pub has_failed : (Value → Bool) → Fields → Bool
has_failed fails m = is (get "status" m) "error" || fails (get "content" m)

unfoldable pub any_failed : (Value → Bool) → List Fields → Bool
unfolding has_failed
any_failed fails [] = false
any_failed fails (m ∷ ms) = has_failed fails m || any_failed fails ms

-- The failed batches at the end, from the first one on: `n` counts those in a row so far.
unfoldable pub streak_from : (Value → Bool) → ℕ → List ToolBatch → ℕ
unfolding any_failed
streak_from fails n [] = n
streak_from fails n (b ∷ bs) =
    streak_from fails (if any_failed fails b.results then suc n else 0) bs

unfoldable pub streak : (Value → Bool) → List ToolBatch → ℕ
unfolding streak_from
streak fails bs = streak_from fails 0 bs

-- The call of an answer; the last of two calls with one id.
call_of : Value × Value → Value → List Parts → Value × Value
call_of best id [] = best
call_of best id ((i, name, args) ∷ cs) = call_of (if eq i id then (name, args) else best) id cs

simple_parts : Words → Value × Value → Bool
unfolding simple_tool
simple_parts words (name, args) = simple_tool words name args

unfoldable pub all_simple : Words → List Parts → List Fields → Bool
unfolding call_of simple_parts
all_simple words calls [] = true
all_simple words calls (m ∷ ms) =
    simple_parts words (call_of (null, null) (get "tool_call_id" m) calls)
    && all_simple words calls ms

-- The last of the batches; `none` of none.
unfoldable pub last_batch : List ToolBatch → Option ToolBatch
last_batch [] = none
last_batch (b ∷ []) = some b
last_batch (b ∷ c ∷ bs) = last_batch (c ∷ bs)

unfoldable pub last_role : Value → List Fields → Value
last_role role [] = role
last_role role (m ∷ ms) = last_role (role_of m) ms

pub data Step : Type 0 where
  plan tool_chain failure_rethink task : Step

-- A step's level; where it is not the turn's, the turn's choice and the number of batches.
pub record StepChoice : Type 0 where
  pub chosen : Choice
  pub step : Step
  pub task_choice : Option (Choice × ℕ)

-- The owner forced the level, or the step may call no tools.
unfoldable pub held : Value → Choice → Bool
held tool_choice turn =
    str_eq turn.reason "owner_force"
    || is tool_choice "none"
    || is (get "type" (fields_of tool_choice)) "none"

unfoldable pub at_turn : Choice → Step → StepChoice
at_turn turn step = record { chosen = turn; step = step; task_choice = none }

unfoldable pub instead : Choice → ℕ → Level → String → Step → StepChoice
instead turn steps level reason step = record {
  chosen = record { level = level; reason = reason };
  step = step;
  task_choice = some (turn, steps);
}

unfoldable pub chain_step : Words → Choice → ℕ → Option ToolBatch → StepChoice
unfolding at_turn instead all_simple rank
chain_step words turn steps none = at_turn turn task
chain_step words turn steps (some b) =
    if all_simple words b.calls b.results && ltb (rank step_level) (rank turn.level)
    then instead turn steps step_level "tool_chain" tool_chain
    else at_turn turn task

unfoldable pub step_within : Words → (Value → Bool) → Value → Choice → List ToolBatch → StepChoice
unfolding chain_step at_turn instead held streak
step_within words fails tool_choice turn batches =
    if held tool_choice turn
    then at_turn turn task
    else if leb failure_streak (streak fails batches)
    then instead turn (length batches) failure_level "tool_failures" failure_rethink
    else chain_step words turn (length batches) (last_batch batches)

unfoldable pub no_batches : List ToolBatch → Bool
no_batches [] = true
no_batches bs = false

-- step_effort, of the messages, the tool choice and the turn's choice.
unfoldable pub step_effort :
    Words → (String → Option Value) → (Value → Bool) → List Fields → Value → Choice → StepChoice
unfolding step_within no_batches at_turn
step_effort words parse fails ms tool_choice turn =
    let batches = tool_batches parse ms in
    if no_batches batches || not (is (last_role null ms) "tool")
    then at_turn turn (if no_batches batches then plan else task)
    else step_within words fails tool_choice turn batches
