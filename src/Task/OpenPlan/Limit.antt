-- ===== src/Task/OpenPlan/Limit.antt =====
-- The gate continues one owner turn at most three times, and never twice without an action between.
use sanare_agent_core.Base.{
  ◌+◌, ◌<◌, ◌⊎◌, String, Bool, true, false, ◌&&◌, ◌||◌, Option, none, some, List, [], ◌∷◌, ◌++◌,
  ltb, leb, ◌==◌, if◌then◌else◌, ◌≡◌, refl, sym, ap, arith, Bool-cases, inl, inr, string_append,
  starts_with-append,
}
use mathlib.Core.Option.{some-injective}
use sanare_agent_core.Json
use sanare_agent_core.Json.{Value, null, int, text, dict, list, Fields, field, get, elements, Items}
use sanare_agent_core.Json.Shapes.{is, fields_of, items_of}
use sanare_agent_core.Task.{Host}
use sanare_agent_core.Task.Conversation.{State, has_role, calls_in}
use sanare_agent_core.Task.OpenPlan.{
  Tool, Open, Kind, native, task, History, Reply, is_gate_id, plan_gate_prefix,
  open_plan_gate_limit, history_call, history_calls, history_from, gate_history, released,
  continued, one_call, continue_task, continue_plan, gate_with, gate_open, open_plan_gate,
  open_plan, allows, refused, has_tool, is_unset, selected_name, native_todos, task_check_suffix,
  first_named,
}

module _ (parse : String → Option Value) where
  pub history_from-append :
      (ms : List Fields) (m : Fields) (h : History)
      → history_from parse (ms ++ m ∷ []) h ≡ history_from parse (m ∷ []) (history_from parse ms h)
  unfolding history_from
  history_from-append [] m h = refl
  history_from-append (n ∷ ns) m h =
      history_from-append ns m
        (if has_role "assistant" n then history_calls parse (calls_in n) h else h)

abbrev call_values : List Fields → List Value
call_values [] = []
call_values (c ∷ cs) = dict c ∷ call_values cs

-- A message that the gate wrote into the history, with the call that it issued.
abbrev pub message_of : Reply → Fields
message_of r = field "role" (text "assistant") (
    field "content" r.content
      (field "tool_calls" (list (Json.from_elements (call_values r.tool_calls))) Json.end))

-- The reply calls a tool under this id.
abbrev CallsUnder : String → Reply → Type 0
CallsUnder id r = (name : Value) × (args : Fields) × (r.tool_calls ≡ one_call id name args)

continue_task-CallsUnder :
    (id : String) (p : Open) (r r' : Reply) (selected check : Option Value)
    → continue_task id p r selected check ≡ some r'
    → CallsUnder id r'
unfolding continue_task continued
continue_task-CallsUnder id p r r' selected none h = cc
continue_task-CallsUnder id p r r' selected (some check) h =
    elim (Bool-cases (allows selected check)) [
      | inl may ↦
          let e = some-injective _ r' (rw may at h) in (check, _, ap (λ k. k.tool_calls) (sym e))
      | inr may_not ↦ cc (rw may_not at h)
    ]

counted-CallsUnder :
    (parse : String → Option Value) (h : History) (fresh : String) (r : Reply)
    → CallsUnder (string_append plan_gate_prefix fresh) r
    → history_from parse (message_of r ∷ []) h ≡ (h.0 + 1, 0)
unfolding history_from history_calls history_call one_call get fields_of is is_gate_id items_of
    elements Json.from_elements
counted-CallsUnder parse (fired, since) fresh r (name, args, e) =
    rw (e, one_call) (rw (starts_with-append plan_gate_prefix fresh) refl)

module _ (parse : String → Option Value) (fresh : String) (p : Open) (s : State) (r r' : Reply)
    (tools : List Tool) where
  abbrev id : String
  id = string_append plan_gate_prefix fresh

  continue_kind-CallsUnder :
      (k : Kind) → p.kind ≡ k → continue_plan id p s r tools ≡ some r' → CallsUnder id r'
  unfolding continue_plan continued
  continue_kind-CallsUnder task e h =
      continue_task-CallsUnder id p r r' (selected_name s.tool_choice)
        (first_named task_check_suffix tools) (rw (e, continue_plan) at h)
  continue_kind-CallsUnder native e h =
      elim (Bool-cases (has_tool native_todos tools && is_unset (selected_name s.tool_choice))) [
        | inl may ↦
            let same = some-injective _ r' (rw (e, may, continue_plan) at h) in
            (text native_todos, p.args, ap (λ k. k.tool_calls) (sym same))
        | inr may_not ↦ cc (rw (e, may_not, continue_plan) at h)
      ]

  -- What a gate makes of a reply: it is released, or the turn goes on under the gate's id.
  abbrev Outcome : History → Type 0
  Outcome h =
      (r' ≡ released p.items r)
      ⊎ ((h.0 < open_plan_gate_limit) × ((h.0 ≡ 0) ⊎ (0 < h.1)) × CallsUnder id r')

  gate_with-Outcome : (h : History) → gate_with id p h s r tools ≡ some r' → Outcome h
  unfolding gate_with
  gate_with-Outcome (fired, progress) h =
      elim (Bool-cases (leb open_plan_gate_limit fired || (ltb 0 fired && progress == 0))) [
        | inl over ↦ inl (sym (some-injective (released p.items r) r' (rw over at h)))
        | inr go_on ↦
            inr (ground arith, ground arith, continue_kind-CallsUnder p.kind refl (rw go_on at h))
      ]

unless-some :
    (b : Bool) (o : Option Reply) (r : Reply) → (if b then none else o) ≡ some r → o ≡ some r
unless-some true o r h = cc
unless-some false o r h = h

module _ (host : Host) (fresh : String) (s : State) (r r' : Reply) (tools : List Tool)
    (disabled : Bool) where
  gate_open-plan :
      (o : Option Open)
      → gate_open host.parse (string_append plan_gate_prefix fresh) o s r tools ≡ some r'
      → (p : Open) × (gate_with
            (string_append plan_gate_prefix fresh)
            p
            (gate_history host.parse s)
            s
            r
            tools
          ≡ some r')
  unfolding gate_open
  gate_open-plan none h = cc
  gate_open-plan (some p) h = go p p.items refl h
    where
      go :
          (p : Open) (items : List String)
          → p.items ≡ items
          → gate_open host.parse (string_append plan_gate_prefix fresh) (some p) s r tools ≡ some r'
          → (p : Open) × (gate_with
                (string_append plan_gate_prefix fresh)
                p
                (gate_history host.parse s)
                s
                r
                tools
              ≡ some r')
      go p [] e h = cc (rw (e, gate_open) at h)
      go p (i ∷ is) e h = (p, rw (e, gate_open) at h)

  -- An answer that the gate replaces by a call goes out before its third time, with an action since
  -- the last time, and the history that it leaves counts one more; else it is released as it stands,
  -- with its open items named.
  pub open_plan_gate-Outcome :
      open_plan_gate host fresh s r tools disabled ≡ some r'
      → ((p : Open) × (r' ≡ released p.items r))
        ⊎ (((gate_history host.parse s).0 < open_plan_gate_limit)
            × (((gate_history host.parse s).0 ≡ 0) ⊎ (0 < (gate_history host.parse s).1))
            × (history_from host.parse (message_of r' ∷ []) (gate_history host.parse s)
                ≡ ((gate_history host.parse s).0 + 1, 0)))
  unfolding open_plan_gate
  open_plan_gate-Outcome h =
      let (p, fires) =
        gate_open-plan (open_plan host.parse s) (unless-some (refused host s r disabled) _ r' h) in
      elim (gate_with-Outcome host.parse fresh p s r r' tools (gate_history host.parse s) fires) [
        | inl out ↦ inl (p, out)
        | inr (early, acted, under) ↦
            inr (
              early,
              acted,
              counted-CallsUnder host.parse (gate_history host.parse s) fresh r' under,
            )
      ]
