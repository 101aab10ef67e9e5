-- ===== src/Execution/Progress/Budget.antt =====
-- The actions of a task stay within its ceiling, over any number of generations.
use sanare_agent_core.Base.{
  ℕ, suc, ◌+◌, ◌-◌, ◌≤◌, ◌<◌, max, String, Bool, true, false, ◌||◌, Option, none, some, List, [],
  ◌∷◌, ltb, length, ◌≡◌, ◌≢◌, refl, arith, Bool-cases, inl, inr, subst,
}
use sanare_agent_core.Json.{Value, int, text, dict, Fields, get, find, end, field}
use sanare_agent_core.Execution.Limits.{
  Result, ok, raised, ◌>>=◌, refuse, first_step, ok-injective, refuse-ok, bad_counter, task_id,
}
use sanare_agent_core.Execution.Progress.{
  max_actions, Status, waiting_tools, ModelCall, Pending, Execution, Update, Outcome, outcome,
  next_execution, execution_from, execution_after, proper_ids, call_ids, saved_task, is_none_left,
  finish_reason, is_cut, is_blocked, batch, settled, incomplete, blocked, answered,
}

-- The fields of a checkpointed execution that the next generation reads.
abbrev pub saved_fields : Execution → Fields
saved_fields e =
    field "task_id" (text e.task_id)
      (field "step" (int e.step) (field "actions_issued" (int e.actions_issued) end))

abbrev pub saved : Execution → Value
saved e = dict (saved_fields e)

-- The number of calls that wait for results.
unfoldable pub waiting : Option Pending → ℕ
waiting none = 0
waiting (some p) = length p.calls

-- A batch is there exactly when the step waits for tools; its calls have ids, all different.
abbrev pub FitsStatus : Status → Option Pending → Type 0
FitsStatus s none = s ≢ waiting_tools
FitsStatus s (some p) =
    (s ≡ waiting_tools) × (0 < length p.calls) × (proper_ids (call_ids p.calls) ≡ true)

abbrev Meets : ℕ → Result Outcome → Type 0
Meets issued (ok o) =
    (o.issued ≡ issued + waiting o.pending)
    × (o.issued ≤ max max_actions issued)
    × FitsStatus o.status o.pending
Meets issued (raised e) = Unit {0}

none_left-pos : (cs : List ModelCall) → is_none_left cs ≡ false → 0 < length cs
unfolding is_none_left
none_left-pos [] h = cc
none_left-pos (c ∷ cs) h = omega arith

settled-Meets : (s : Status) (issued : ℕ) → s ≢ waiting_tools → Meets issued (settled s issued)
unfolding waiting
settled-Meets s issued h = (omega arith, omega arith, h)

module _ (u : Update) (batch_id : String) (issued : ℕ) where
  batch-Meets : is_none_left u.calls ≡ false → Meets issued (batch u batch_id issued)
  unfolding batch waiting
  batch-Meets some_call = elim (Bool-cases (ltb (max_actions - issued) (length u.calls))) [
    | inl over ↦ rw over tt
    | inr room ↦ elim (Bool-cases (proper_ids (call_ids u.calls))) [
      | inl proper ↦
          rw (room, proper) (refl, ground arith, (refl, none_left-pos u.calls some_call, proper))
      | inr repeated ↦ rw (room, repeated) tt
    ]
  ]

  outcome-Meets : Meets issued (outcome u batch_id issued)
  unfolding outcome
  outcome-Meets = elim (Bool-cases (is_cut (finish_reason u.metadata))) [
    | inl cut ↦ rw cut (settled-Meets incomplete issued (ground arith))
    | inr whole ↦ elim (Bool-cases (is_blocked u.metadata || u.rejected)) [
      | inl stopped ↦ rw (whole, stopped) (settled-Meets blocked issued (ground arith))
      | inr free ↦ elim (Bool-cases (is_none_left u.calls)) [
        | inl none_left ↦ rw (whole, free, none_left) (settled-Meets answered issued (ground arith))
        | inr some_call ↦ rw (whole, free, some_call) (batch-Meets some_call)
      ]
    ]
  ]

-- How an execution follows an earlier one.
pub record Follows (step issued : ℕ) (e : Execution) : Type 0 where
  pub stepped : e.step ≡ step + 1
  pub counted : e.actions_issued ≡ issued + waiting e.pending
  pub within : e.actions_issued ≤ max_actions
  pub batch : FitsStatus e.status e.pending

module _ (is_uuid : String → Bool) (fresh batch_id : String) (state : Fields) (u : Update) where
  next-Follows :
      (previous : Fields) (step issued : ℕ) (e : Execution)
      → next_execution is_uuid fresh batch_id state previous u (some step) (some issued) ≡ ok e
      → Follows step issued e
  unfolding next_execution
  next-Follows previous step issued e h =
      let (go, low, rest) = first_step (refuse (ltb max_actions issued) bad_counter) _ h in
      let (o, found, named) = first_step (outcome u batch_id issued) _ rest in
      let (t, identified, last) =
        first_step (task_id is_uuid fresh state (saved_task (get "task_id" previous))) _ named in
      let met : Meets issued (ok o) =
        subst (Meets issued) found (outcome-Meets u batch_id issued) in
      let small : ltb max_actions issued ≡ false =
        refuse-ok (ltb max_actions issued) bad_counter low in
      let fits : issued ≤ max_actions = ground arith in
      subst (Follows step issued) (ok-injective _ e last)
        (record { stepped = refl; counted = met.0; within = omega (arith, met.1); batch = met.2 })

  -- A generation that is accepted after an earlier execution counts one step and exactly the calls
  -- that it issues, never more than the ceiling in all, and a batch of calls with ids, all
  -- different, is there exactly when the task waits for tools.
  pub execution_after-Follows :
      (before e : Execution)
      → get "execution" state ≡ saved before
      → execution_after is_uuid fresh batch_id state u ≡ ok e
      → Follows before.step before.actions_issued e
  unfolding execution_after find
  execution_after-Follows before e at h =
      next-Follows (saved_fields before) before.step before.actions_issued e
        (subst (λ v. execution_from is_uuid fresh batch_id state v u ≡ ok e) at h)

-- The state that a checkpoint gives the next generation.
abbrev pub resumed : Execution → Fields
resumed e = field "execution" (saved e) end

-- Generations one after another, each from the checkpoint of the one before it: the last execution
-- and the number of calls issued in all.
unfoldable pub generate :
    (String → Bool) → String → Execution → List Update → Result (Execution × ℕ)
generate is_uuid batch_id e [] = ok (e, 0)
generate is_uuid batch_id e (u ∷ us) = execution_after is_uuid "" batch_id (resumed e) u >>= λ e'.
    generate is_uuid batch_id e' us >>= λ r. ok (r.0, waiting e'.pending + r.1)

abbrev Counted : Execution → ℕ → Execution × ℕ → Type 0
Counted before steps (after, issued) =
    (after.actions_issued ≡ before.actions_issued + issued)
    × (after.actions_issued ≤ max_actions)
    × (after.step ≡ before.step + steps)

-- Over any number of accepted generations the calls issued in all are those that the counter
-- gained, and the counter stays within the ceiling if it began there.
pub generate_budget :
    (is_uuid : String → Bool) (batch_id : String) (us : List Update) (before after : Execution)
    (issued : ℕ)
    → before.actions_issued ≤ max_actions
    → generate is_uuid batch_id before us ≡ ok (after, issued)
    → (after.actions_issued ≡ before.actions_issued + issued)
      × (after.actions_issued ≤ max_actions)
      × (after.step ≡ before.step + length us)
unfolding generate
generate_budget is_uuid batch_id [] before after issued low h =
    subst (Counted before 0) (ok-injective _ (after, issued) h) (omega arith)
generate_budget is_uuid batch_id (u ∷ us) before after issued low h =
    let (e, first, rest) =
      first_step (execution_after is_uuid "" batch_id (resumed before) u) _ h in
    let (r, others, last) = first_step (generate is_uuid batch_id e us) _ rest in
    let follows =
      execution_after-Follows is_uuid "" batch_id (resumed before) u before e (unfold get in refl)
        first in
    let same = ok-injective _ (after, issued) last in
    let later = generate_budget is_uuid batch_id us e r.0 r.1 follows.within others in
    subst (Counted before (suc (length us))) same
      (omega (arith, later, follows.counted, follows.stepped))
