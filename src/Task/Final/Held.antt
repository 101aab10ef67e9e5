-- ===== src/Task/Final/Held.antt =====
-- The answers of the gates do not end a turn: they call a tool or are marked as blocked.
use sanare_agent_core.Base.{
  String, Bool, false, not, ◌&&◌, Option, none, some, List, [], ◌∷◌, ◌≡◌, refl, inl, inr, arith,
  Bool-cases, eq_iff, leb, subst,
}
use mathlib.Core.Option.{some-injective}
use sanare_agent_core.Json
use sanare_agent_core.Json.{Value, Fields, field, get, put, truthy}
use sanare_agent_core.Execution.Progress.{max_actions}
use sanare_agent_core.Task.{Host, Plan}
use sanare_agent_core.Task.Observe.{verify_suffix}
use sanare_agent_core.Task.Conversation.{State}
use sanare_agent_core.Task.OpenPlan.{Tool, Reply, one_call, selected_name}
use sanare_agent_core.Task.Sites.{
  Jobs, Progress, site_jobs, pending, any_failed, tools_named, only_tool, block, call_instead,
  exempt, site_gate, gate_jobs, unchecked, ask_executor, check_or_poll, poll_or_stop, stalled,
  waits_for_check, site_progress,
}
use sanare_agent_core.Task.Final.{
  start_with, starts_freely, first_read, no_tool_calls, deny, ask_verification, ask_names, request,
  other_names,
}

-- The answer goes to the owner as it is: it calls nothing and is not marked as blocked.
unfoldable pub ends_turn : Reply → Bool
ends_turn r = no_tool_calls r && not (truthy (get "msty_blocked" r.metadata))

get-put : (k : String) (v : Value) (fs : Fields) → get k (put k v fs) ≡ v
unfolding get put
get-put k v Json.end = ground (arith, eq_iff k k)
get-put k v (field j w fs) = ground (arith, get-put k v fs, eq_iff k k, eq_iff j k)

pub block-ends_turn : (words gate : String) (r : Reply) → ends_turn (block words gate r) ≡ false
unfolding ends_turn block no_tool_calls truthy
block-ends_turn words gate r = rw (get-put) refl

deny-ends_turn : (words : String) (r : Reply) → ends_turn (deny words r) ≡ false
unfolding ends_turn deny truthy
deny-ends_turn words r = rw (get-put) (ground arith)

call_instead-ends_turn :
    (words gate id : String) (name : Value) (args : Fields) (r : Reply)
    → ends_turn (call_instead words gate (one_call id name args) r) ≡ false
unfolding ends_turn call_instead one_call no_tool_calls
call_instead-ends_turn words gate id name args r = refl

-- A gate that answers does not let the turn end.
abbrev pub Holds : Option Reply → Type 0
Holds o = (r : Reply) → o ≡ some r → ends_turn r ≡ false

holds : (r : Reply) → ends_turn r ≡ false → Holds (some r)
holds r h r' e = subst (λ k. ends_turn k ≡ false) (some-injective r r' e) h

Holds-none : Holds none
Holds-none r e = absurd cc

pub start_with-Holds :
    (fresh : String) (words : Option String) (s : State) (r : Reply) (tools : List Tool)
    (disabled : Bool)
    → Holds (start_with fresh words s r tools disabled)
unfolding start_with first_read
start_with-Holds fresh none s r tools disabled = Holds-none
start_with-Holds fresh (some words) s r tools disabled =
    elim (Bool-cases (starts_freely s r disabled)) [
      | inl free ↦ rw free Holds-none
      | inr due ↦ rw due (
          go (
            only_tool (tools_named "msty_admin_memory_search" tools) (selected_name s.tool_choice)))
    ]
  where
    go : (o : Option Value) → Holds (first_read fresh words o r)
    go none = Holds-none
    go (some name) = holds _ (call_instead-ends_turn _ _ _ _ _ r)

module _ (host : Host) (fresh job : String) (s : State) (r : Reply) (tools : List Tool) where
  poll_or_stop-ends_turn :
      (name : Value) (p : Progress) → ends_turn (poll_or_stop fresh job name p r) ≡ false
  unfolding poll_or_stop
  poll_or_stop-ends_turn name p = elim (Bool-cases (stalled p.latest p.repeated)) [
    | inl over ↦ rw over (block-ends_turn _ _ r)
    | inr going ↦ rw going (call_instead-ends_turn _ _ _ _ _ r)
  ]

  check_or_poll-ends_turn :
      (name : Value) (check : Option Value) (p : Progress)
      → ends_turn (check_or_poll fresh job name check p r) ≡ false
  unfolding check_or_poll
  check_or_poll-ends_turn name none p = poll_or_stop-ends_turn name p
  check_or_poll-ends_turn name (some check) p = call_instead-ends_turn _ _ _ _ _ r

  ask_executor-ends_turn :
      (name : Value) → ends_turn (ask_executor host fresh job name s r tools) ≡ false
  unfolding ask_executor
  ask_executor-ends_turn name =
      elim (Bool-cases (waits_for_check ((site_progress host job s).latest))) [
        | inl waits ↦ rw waits (
            check_or_poll-ends_turn name
              (only_tool (tools_named "msty_site_check" tools) (selected_name s.tool_choice))
              (site_progress host job s))
        | inr other ↦ rw other (poll_or_stop-ends_turn name (site_progress host job s))
      ]

  unchecked-ends_turn :
      (name : Option Value) → ends_turn (unchecked host fresh job name s r tools) ≡ false
  unfolding unchecked
  unchecked-ends_turn none = block-ends_turn _ _ r
  unchecked-ends_turn (some name) = elim (Bool-cases (leb max_actions s.actions_issued)) [
    | inl over ↦ rw over (block-ends_turn _ _ r)
    | inr going ↦ rw going (ask_executor-ends_turn name)
  ]

module _ (host : Host) (fresh : String) (s : State) (r : Reply) (tools : List Tool) where
  gate_jobs-Holds : (jobs : Jobs) → Holds (gate_jobs host fresh jobs s r tools)
  unfolding gate_jobs
  gate_jobs-Holds [] = Holds-none
  gate_jobs-Holds ((job, status) ∷ jobs) = elim (Bool-cases (any_failed ((job, status) ∷ jobs))) [
    | inl failed ↦ rw failed (holds _ (block-ends_turn _ _ r))
    | inr waits ↦ rw waits (
        holds _ (
          unchecked-ends_turn host fresh job s r tools
            (only_tool (tools_named "msty_site_status" tools) (selected_name s.tool_choice))))
  ]

  pub site_gate-Holds : (disabled : Bool) → Holds (site_gate host fresh s r tools disabled)
  unfolding site_gate
  site_gate-Holds disabled = elim (Bool-cases (exempt host s r disabled)) [
    | inl free ↦ rw free Holds-none
    | inr due ↦ rw due (gate_jobs-Holds (pending (site_jobs host.parse s)))
  ]

  -- A copy that is not clean holds an answer that would end the turn.
  pub site_gate-pending :
      (disabled : Bool)
      → exempt host s r disabled ≡ false
      → site_gate host fresh s r tools disabled ≡ none
      → pending (site_jobs host.parse s) ≡ []
  unfolding site_gate gate_jobs
  site_gate-pending disabled due h = go (pending (site_jobs host.parse s)) (rw due at h)
    where
      go : (jobs : Jobs) → gate_jobs host fresh jobs s r tools ≡ none → jobs ≡ []
      go [] e = refl
      go ((job, status) ∷ jobs) e = absurd cc

  ask_names-Holds :
      (names : List Value) (plan : Option Plan) → Holds (ask_names fresh names plan s r)
  unfolding ask_names request
  ask_names-Holds [] plan = holds _ (deny-ends_turn _ r)
  ask_names-Holds (a ∷ b ∷ names) plan = holds _ (deny-ends_turn _ r)
  ask_names-Holds (name ∷ []) plan = elim (Bool-cases (leb max_actions s.actions_issued)) [
    | inl over ↦ rw over (holds _ (deny-ends_turn _ r))
    | inr going ↦ rw going (go plan)
  ]
    where
      go : (plan : Option Plan) → Holds (request fresh name plan r)
      go none = Holds-none
      go (some p) = holds _ (call_instead-ends_turn _ _ _ _ _ r)

  pub ask_verification-Holds : (plan : Option Plan) → Holds (ask_verification fresh plan s r tools)
  unfolding ask_verification
  ask_verification-Holds plan =
      elim (Bool-cases
        (other_names (tools_named verify_suffix tools) (selected_name s.tool_choice))) [
          | inl denied ↦ rw denied (holds _ (deny-ends_turn _ r))
          | inr may ↦ rw may (ask_names-Holds (tools_named verify_suffix tools) plan)
        ]
