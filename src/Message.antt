-- ===== src/Message.antt =====
-- Chat messages in the form that the native graph keeps in its checkpoint: the fields that history
-- compaction reads (src/deep_agent/msty_compaction.py). A field of another type than the program
-- looks for is `other` or `none`.
use sanare_agent_core.Base.{
  String, Bool, true, false, Option, List, [], ◌∷◌, ℕ, take, drop, ◌-◌, if◌then◌else◌, str_eq,
}
use sanare_agent_core.Text.{Text}

pub data Role : Type 0 where
  system developer user assistant tool other : Role

pub data Content : Type 0 where
  text : Text → Content
  parts : List (Option Text) → Content
  null other : Content

-- `id` is `none` where the call is no dict or its id is no text; `is_dict` tells a dict.
pub record Call : Type 0 where
  pub is_dict : Bool
  pub id : Option String
  pub name : Text
  pub arguments : Text

pub record Message : Type 0 where
  pub role : Role
  pub content : Content
  pub tool_calls : Option (List Call)
  pub tool_call_id : Option String

abbrev pub is_tool : Message → Bool
is_tool m = elim m.role [ Role.tool ↦ true | _ ↦ false ]

abbrev pub is_user : Message → Bool
is_user m = elim m.role [ Role.user ↦ true | _ ↦ false ]

-- The roles whose text no compaction may drop.
abbrev pub is_protected : Message → Bool
is_protected m = elim m.role [
  | Role.system ↦ true
  | Role.developer ↦ true
  | Role.user ↦ true
  | _ ↦ false
]

-- The messages of these roles, in order.
unfoldable pub protected : List Message → List Message
protected [] = []
protected (m ∷ ms) = if is_protected m then m ∷ protected ms else protected ms

-- messages[a:b]
abbrev pub slice {ℓ} : {A : Type ℓ} → ℕ → ℕ → List A → List A
slice a b xs = take (b - a) (drop a xs)

unfoldable pub contains : String → List String → Bool
contains x [] = false
contains x (y ∷ ys) = if str_eq x y then true else contains x ys
