-- ===== src/Task/Conversation/Turns.antt =====
-- The messages of the current owner turn, as the conversation grows.
use sanare_agent_core.Base.{
  true, false, Option, none, some, List, [], ◌∷◌, ◌++◌, if◌then◌else◌, ◌≡◌, refl, ap, ◌∙◌,
  Bool-cases, inl, inr,
}
use sanare_agent_core.Json.{Fields}
use sanare_agent_core.Task.Conversation.{has_role, turn, turn_from, behind, current_messages}

or_last : Option (Fields × List Fields) → Fields → Option (Fields × List Fields)
or_last none m = none
or_last (some (u, rest)) m = some (u, rest ++ m ∷ [])

-- A message behind the owner's is one more of the turn.
turn_from-append :
    (best : Option (Fields × List Fields)) (ms : List Fields) (m : Fields)
    → has_role "user" m ≡ false
    → turn_from (or_last best m) (ms ++ m ∷ []) ≡ or_last (turn_from best ms) m
unfolding turn_from or_last
turn_from-append best [] m h = rw h refl
turn_from-append best (n ∷ ns) m h = elim (Bool-cases (has_role "user" n)) [
  | inl user ↦ rw (user, turn_from) (turn_from-append (some (n, ns)) ns m h)
  | inr other ↦ rw (other, turn_from) (turn_from-append best ns m h)
]

behind-or_last :
    (ms : List Fields) (o : Option (Fields × List Fields)) (m : Fields)
    → behind (ms ++ m ∷ []) (or_last o m) ≡ behind ms o ++ m ∷ []
unfolding behind or_last
behind-or_last ms none m = refl
behind-or_last ms (some (u, rest)) m = refl

pub current_messages-append :
    (ms : List Fields) (m : Fields)
    → has_role "user" m ≡ false
    → current_messages (ms ++ m ∷ []) ≡ current_messages ms ++ m ∷ []
unfolding current_messages turn or_last
current_messages-append ms m h =
    ap (behind (ms ++ m ∷ [])) (turn_from-append none ms m h)
    ∙ behind-or_last ms (turn_from none ms) m

turn_from-user :
    (best : Option (Fields × List Fields)) (ms : List Fields) (m : Fields)
    → has_role "user" m ≡ true
    → turn_from best (ms ++ m ∷ []) ≡ some (m, [])
unfolding turn_from
turn_from-user best [] m h = rw h refl
turn_from-user best (n ∷ ns) m h =
    turn_from-user (if has_role "user" n then some (n, ns ++ m ∷ []) else best) ns m h

-- A message of the owner begins a turn.
pub current_messages-user :
    (ms : List Fields) (m : Fields)
    → has_role "user" m ≡ true
    → current_messages (ms ++ m ∷ []) ≡ []
unfolding current_messages turn behind
current_messages-user ms m h = ap (behind (ms ++ m ∷ [])) (turn_from-user none ms m h)
