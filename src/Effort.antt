-- ===== src/Effort.antt =====
-- The reasoning effort of a turn and of a step (src/deep_agent/msty_effort.py). The messages of the
-- state are dictionaries.
pub mod Levels
pub mod Steps
mod Examples
use sanare_agent_core.Base.{
  ℕ, zero, suc, ◌*◌, String, Bool, true, false, not, ◌&&◌, ◌||◌, Option, none, some, List, [], ◌∷◌,
  ltb, leb, ◌==◌, if◌then◌else◌, str_eq, contains,
}
use sanare_agent_core.Text.Strings.{chars, strip, join_with, every}
use sanare_agent_core.Json
use sanare_agent_core.Json.{Value, null, text, dict, list, Fields, get, find, elements}
use sanare_agent_core.Json.Shapes.{is, is_one_of, text_of, items_of}

pub data Level : Type 0 where
  low medium high max : Level

unfoldable pub rank : Level → ℕ
rank low = 0
rank medium = 1
rank high = 2
rank max = 3

-- LEVELS[index - 1]
unfoldable pub below : Level → Level
below low = low
below medium = low
below high = medium
below max = high

-- The regular expressions of the file: the level that an owner's token forces, and whether a text
-- asks for the most thought, is a greeting, asks for deep work, or names an architect.
pub record Words : Type 0 where
  pub forced : String → Option Level
  pub asks_max : String → Bool
  pub greets : String → Bool
  pub asks_deep : String → Bool
  pub names_architect : String → Bool
  pub simple_name : String → Bool

-- A level with its reason.
pub record Choice : Type 0 where
  pub level : Level
  pub reason : String

abbrev pub short_text : ℕ
short_text = 80

abbrev pub long_text : ℕ
long_text = 1_200

abbrev choice : Level → String → Choice
choice level reason = record { level = level; reason = reason }

ordinary : Words → Bool → Bool → String → Choice
ordinary words is_line architect t =
    if leb (chars t) short_text && words.greets t
    then choice low "greeting"
    else if words.asks_deep t || ltb long_text (chars t)
    then choice high (if leb (chars t) long_text then "deep_work" else "long_request")
    else if architect
    then choice high "architect"
    else if leb (chars t) short_text && is_line
    then choice low "short_question"
    else choice medium "ordinary"

unforced : Words → Bool → Bool → String → Choice
unfolding ordinary
unforced words is_line architect t =
    if words.asks_max t
    then choice max "owner_force"
    else if str_eq t ""
    then choice medium "no_owner_text"
    else ordinary words is_line architect t

-- A text without a line break.
one_line : String → Bool
one_line t = every (λ c. not (c == 10)) t

unfoldable pub classify : Words → Bool → String → Choice
unfolding unforced one_line
classify words architect t = elim (words.forced t) [
  | some level ↦ choice level "owner_force"
  | none ↦ unforced words (one_line t) architect t
]

text_of_item : Value → Option String
text_of_item (text t) = some t
text_of_item (dict item) = text_of (get "text" item)
text_of_item v = none

texts_of : List Value → List String
unfolding text_of_item
texts_of [] = []
texts_of (v ∷ vs) =
    let rest = texts_of vs in elim (text_of_item v) [ none ↦ rest | some t ↦ t ∷ rest ]

-- _text
unfoldable pub content_text : Value → String
unfolding texts_of
content_text (text t) = t
content_text (list parts) = join_with "\n" (texts_of (elements parts))
content_text v = ""

-- _role: message.get('role', message.get('type'))
unfoldable pub role_of : Fields → Value
role_of m = elim (find "role" m) [ none ↦ get "type" m | some v ↦ v ]

unfoldable pub is_owner : Fields → Bool
is_owner m = is_one_of (role_of m) ("user" ∷ "human" ∷ [])

last_owner : String → List Fields → String
unfolding is_owner content_text
last_owner t [] = t
last_owner t (m ∷ ms) =
    last_owner (if is_owner m then strip (content_text (get "content" m)) else t) ms

unfoldable pub latest_owner_text : List Fields → String
unfolding last_owner
latest_owner_text ms = last_owner "" ms

-- _architect: among the first `left` messages
architect_in : Words → ℕ → List Fields → Bool
unfolding content_text
architect_in words zero ms = false
architect_in words (suc left) [] = false
architect_in words (suc left) (m ∷ ms) =
    (is (role_of m) "system" && words.names_architect (content_text (get "content" m)))
    || architect_in words left ms

unfoldable pub choose_effort : Words → List Fields → Choice
unfolding architect_in
choose_effort words ms = classify words (architect_in words 3 ms) (latest_owner_text ms)

-- The output that a level of reasoning needs.
unfoldable pub min_output_tokens : Level → ℕ
min_output_tokens low = 0
min_output_tokens medium = 1_024
min_output_tokens high = 4_096
min_output_tokens max = 8_192

-- The loop of `fit` and of `retry_level`: down from the level while its floor, `factor` times, is
-- above the limit. There are `steps` levels below it.
unfoldable pub lowered : ℕ → ℕ → ℕ → Level → Level
unfolding min_output_tokens below
lowered factor limit zero level = level
lowered factor limit (suc steps) level =
    let rest = lowered factor limit steps (below level) in
    if ltb limit (factor * min_output_tokens level) then rest else level

unfoldable pub fit : Level → ℕ → Level
unfolding lowered rank
fit level output_limit = lowered 1 output_limit (rank level) level

abbrev pub retry_headroom_factor : ℕ
retry_headroom_factor = 4

unfoldable pub retry_level : Level → ℕ → Level
unfolding lowered rank below
retry_level applied headroom =
    lowered retry_headroom_factor headroom (rank (below applied)) (below applied)
