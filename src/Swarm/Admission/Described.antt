-- ===== src/Swarm/Admission/Described.antt =====
-- The last check lets the plan of the lead's batch run, under whatever answer of the bridge to its
-- descriptor is accepted.
use sanare_agent_core.Base.{
  ℕ, String, true, not, ◌||◌, Option, none, some, List, [], ◌∷◌, ◌≡◌, refl, sym, ap, subst, arith,
  Bool-cases, inl, inr, eq_iff,
}
use mathlib.Core.Option.{some-injective}
use sanare_agent_core.Json.{Value, Fields, get}
use sanare_agent_core.Json.Shapes.{is, items_of}
use sanare_agent_core.Execution.Progress.{ModelCall, Pending}
use sanare_agent_core.Swarm.{SwarmPlan}
use sanare_agent_core.Swarm.Parsing.{parse_plan}
use sanare_agent_core.Swarm.Admission.{
  Descriptor, parts_of, swarm_calls, described, described_call, descriptor, same_ids, admitted_ok,
  check_admission, admission_record, same_parts, verify_execution,
}
use sanare_agent_core.Swarm.Admission.Granted.{
  same_parts_refl, check_admission-swarm_id, check_admission-admitted,
}

module _ (digest : SwarmPlan → String) (uuid5 : String → String) (most : ℕ) where
  -- The plan that a descriptor describes.
  abbrev pub DescribedBy : Pending → Descriptor → ModelCall → SwarmPlan → Type 0
  DescribedBy p d call plan =
      (swarm_calls p.calls ≡ call ∷ [])
      × (parse_plan most call.args ≡ some plan)
      × (d.tool_call_id ≡ call.id)
      × (d.plan_sha256 ≡ digest plan)
      × (d.subtasks ≡ parts_of plan.subtasks)

  described-DescribedBy :
      (p : Pending) (d : Descriptor) (calls : List ModelCall)
      → swarm_calls p.calls ≡ calls
      → described_call digest uuid5 most p.batch_id calls ≡ some d
      → (call : ModelCall) × (plan : SwarmPlan) × DescribedBy p d call plan
  unfolding described_call described
  described-DescribedBy p d [] e h = absurd cc
  described-DescribedBy p d (b ∷ c ∷ cs) e h = absurd cc
  described-DescribedBy p d (call ∷ []) e h = go (parse_plan most call.args) refl h
    where
      go :
          (o : Option SwarmPlan)
          → parse_plan most call.args ≡ o
          → described digest uuid5 most p.batch_id call o ≡ some d
          → (c : ModelCall) × (plan : SwarmPlan) × DescribedBy p d c plan
      go none parsed m = absurd cc
      go (some plan) parsed m =
          let same = some-injective _ d m in
          (
            call,
            plan,
            (
              e,
              parsed,
              ap (λ k. k.tool_call_id) (sym same),
              ap (λ k. k.plan_sha256) (sym same),
              ap (λ k. k.subtasks) (sym same),
            ),
          )

  admitted_ids :
      (plan : SwarmPlan) (d : Descriptor) (v : Value) (a : Fields)
      → d.subtasks ≡ parts_of plan.subtasks
      → check_admission d v ≡ some a
      → (not (is (get "status" a) "admitted")
          || same_ids (items_of (get "subtasks" a)) (parts_of plan.subtasks))
        ≡ true
  unfolding admitted_ok
  admitted_ids plan d v a parts accepted = elim (Bool-cases (is (get "status" a) "admitted")) [
    | inl admitted ↦
        let whole = check_admission-admitted d v a accepted admitted in
        let ids : same_ids (items_of (get "subtasks" a)) d.subtasks ≡ true = ground arith in
        ground (arith, subst (λ ps. same_ids (items_of (get "subtasks" a)) ps ≡ true) parts ids)
    | inr other ↦ rw other refl
  ]

  described-verify_execution :
      (call : ModelCall) (plan : SwarmPlan) (d : Descriptor) (v : Value) (a : Fields)
      → d.tool_call_id ≡ call.id
      → d.plan_sha256 ≡ digest plan
      → d.subtasks ≡ parts_of plan.subtasks
      → check_admission d v ≡ some a
      → verify_execution digest call plan (admission_record d a) ≡ true
  unfolding verify_execution
  described-verify_execution call plan d v a id sha parts accepted =
      let swarm = (check_admission-swarm_id d v a accepted).0 in
      let same : same_parts d.subtasks (parts_of plan.subtasks) ≡ true =
        subst (λ ps. same_parts d.subtasks ps ≡ true) parts (same_parts_refl d.subtasks) in
      ground (
        arith,
        swarm,
        same,
        admitted_ids plan d v a parts accepted,
        (eq_iff d.tool_call_id call.id).1 id,
        (eq_iff d.plan_sha256 (digest plan)).1 sha,
      )

  -- What the lead's batch asks for is what runs: the batch of a descriptor has one swarm call, whose
  -- plan was parsed, and whatever answer of the bridge to the descriptor is accepted, the last check
  -- finds that call and that plan to be what was admitted. This holds also of an accepted rejection,
  -- behind which nothing is run.
  pub verify_execution-descriptor :
      (p : Pending) (d : Descriptor) (v : Value) (a : Fields)
      → descriptor digest uuid5 most (some p) ≡ some d
      → check_admission d v ≡ some a
      → (call : ModelCall) × (plan : SwarmPlan) × (swarm_calls p.calls ≡ call ∷ [])
        × (parse_plan most call.args ≡ some plan)
        × (verify_execution digest call plan (admission_record d a) ≡ true)
  unfolding descriptor
  verify_execution-descriptor p d v a h accepted =
      let (call, plan, (one, parsed, id, sha, parts)) =
        described-DescribedBy p d (swarm_calls p.calls) refl h in
      (call, plan, one, parsed, described-verify_execution call plan d v a id sha parts accepted)
