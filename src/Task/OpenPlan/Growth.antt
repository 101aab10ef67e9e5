-- ===== src/Task/OpenPlan/Growth.antt =====
-- Gates and conversations: how often the gate has fired in the turns of a history in which its calls
-- keep the ids that it gave them.
use sanare_agent_core.Base.{
  ℕ, ◌+◌, ◌≤◌, String, Bool, true, false, not, ◌&&◌, Option, some, List, [], ◌∷◌, ◌++◌, ◌≡◌, refl,
  sym, ap, ◌∙◌, subst, arith, Bool-cases, inl, inr,
}
use sanare_agent_core.Json.{Value, Fields, get}
use sanare_agent_core.Json.Shapes.{is, fields_of}
use sanare_agent_core.Task.{Host}
use sanare_agent_core.Task.Conversation.{State, has_role, calls_in, current_messages}
use sanare_agent_core.Task.Conversation.Turns.{current_messages-append, current_messages-user}
use sanare_agent_core.Task.OpenPlan.{
  Tool, History, Reply, is_gate_id, open_plan_gate_limit, history_call, history_calls, history_from,
  gate_history, released, open_plan_gate,
}
use sanare_agent_core.Task.OpenPlan.Limit.{message_of, history_from-append, open_plan_gate-Outcome}

-- No call of the message stands under a gate's id.
unfoldable pub without_gate : List Value → Bool
without_gate [] = true
without_gate (c ∷ cs) = not (is_gate_id (get "id" (fields_of c))) && without_gate cs

-- A conversation grows by the owner's messages, by messages without a gate's id, and by the answers
-- that the gate wrote, as the native tools answer them: a call that comes back from a client stands
-- under the client's id, and its message is one without a gate's id.
pub data Grows (host : Host) : List Fields → Type 0 where
  start : Grows host []
  owner :
      (ms : List Fields) (m : Fields)
      → Grows host ms
      → has_role "user" m ≡ true
      → Grows host (ms ++ m ∷ [])
  ordinary :
      (ms : List Fields) (m : Fields)
      → Grows host ms
      → has_role "user" m ≡ false
      → without_gate (calls_in m) ≡ true
      → Grows host (ms ++ m ∷ [])
  gated :
      (s : State) (fresh : String) (r r' : Reply) (tools : List Tool) (disabled : Bool)
      → Grows host s.messages
      → open_plan_gate host fresh s r tools disabled ≡ some r'
      → without_gate (calls_in (message_of r)) ≡ true
      → Grows host (s.messages ++ message_of r' ∷ [])

module _ (parse : String → Option Value) where
  history_call-fired :
      (c : Value) (h : History)
      → is_gate_id (get "id" (fields_of c)) ≡ false
      → (history_call parse c h).0 ≡ h.0
  unfolding history_call
  history_call-fired c (fired, since) free = rw free (ground arith)

  history_calls-fired :
      (cs : List Value) (h : History) → without_gate cs ≡ true → (history_calls parse cs h).0 ≡ h.0
  unfolding history_calls without_gate
  history_calls-fired [] h free = refl
  history_calls-fired (c ∷ cs) h free =
      history_calls-fired cs (history_call parse c h) (ground arith)
      ∙ history_call-fired c h (ground arith)

  history_message-fired :
      (m : Fields) (h : History)
      → without_gate (calls_in m) ≡ true
      → (history_from parse (m ∷ []) h).0 ≡ h.0
  unfolding history_from
  history_message-fired m h free = elim (Bool-cases (has_role "assistant" m)) [
    | inl assistant ↦ rw assistant (history_calls-fired (calls_in m) h free)
    | inr other ↦ rw other refl
  ]

-- The gates fired in the current turn of a history.
abbrev pub fired_in : (String → Option Value) → List Fields → ℕ
fired_in parse ms = (history_from parse (current_messages ms) (0, 0)).0

message_of-role : (r : Reply) → has_role "user" (message_of r) ≡ false
unfolding is get
message_of-role r = refl

released-calls :
    (items : List String) (r : Reply)
    → without_gate (calls_in (message_of r)) ≡ true
    → without_gate (calls_in (message_of (released items r))) ≡ true
unfolding released get
released-calls items r h = h

module _ (host : Host) where
  fired-append :
      (ms : List Fields) (m : Fields)
      → has_role "user" m ≡ false
      → fired_in host.parse (ms ++ m ∷ [])
        ≡ (history_from host.parse
            (m ∷ [])
            (history_from host.parse (current_messages ms) (0, 0))).0
  fired-append ms m h =
      ap (λ l. (history_from host.parse l (0, 0)).0) (current_messages-append ms m h)
      ∙ ap (λ g. g.0) (history_from-append host.parse (current_messages ms) m (0, 0))

  -- In a conversation that grows by the owner's messages, by messages without a gate's id, and by the
  -- gate's answers with the ids that it gave them, at most three calls of the current owner turn stand
  -- under a gate's id. A call that is stored under a client's id is not counted.
  pub Grows-fired :
      {ms : List Fields} → Grows host ms → fired_in host.parse ms ≤ open_plan_gate_limit
  unfolding history_from gate_history
  Grows-fired start = unfold history_from current_messages in omega arith
  Grows-fired (owner ms m g user) =
      let e : fired_in host.parse (ms ++ m ∷ []) ≡ 0 =
        ap (λ l. (history_from host.parse l (0, 0)).0) (current_messages-user ms m user)
        ∙ (unfold history_from in refl) in
      omega (arith, e)
  Grows-fired (ordinary ms m g other free) = omega (
    arith,
    fired-append ms m other,
    Grows-fired g,
    history_message-fired host.parse m (history_from host.parse (current_messages ms) (0, 0)) free,
  )
  Grows-fired (gated s fresh r r' tools disabled g fires free) =
      let past = history_from host.parse (current_messages s.messages) (0, 0) in
      let same = fired-append s.messages (message_of r') (message_of-role r') in
      elim (open_plan_gate-Outcome host fresh s r r' tools disabled fires) [
        | inl (p, out) ↦ omega (
          arith,
          same,
          Grows-fired g,
          history_message-fired host.parse (message_of r') past (
              subst (λ k. without_gate (calls_in (message_of k)) ≡ true) (sym out)
                (released-calls p.items r free)),
        )
        | inr (early, acted, counted) ↦
            let next : (history_from host.parse (message_of r' ∷ []) past).0 ≡ past.0 + 1 =
              ap (λ h. h.0) counted in
            omega (arith, same, early, next)
      ]
