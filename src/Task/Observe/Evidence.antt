-- ===== src/Task/Observe/Evidence.antt =====
-- A contract becomes verified only by a passed receipt of a verification that was issued.
use sanare_agent_core.Base.{
  ◌⊎◌, true, Option, none, some, List, [], ◌∷◌, ◌≡◌, ◌≢◌, refl, sym, ap, ◌∙◌, subst, Bool-cases,
  Option-cases, inl, inr,
}
use mathlib.Core.Option.{some-injective}
use mathlib.Core.List.{Memᴰ}
use sanare_agent_core.Json.{Value, text, Fields}
use sanare_agent_core.Json.Shapes.{fields_of}
use sanare_agent_core.Execution.Progress.{ModelCall}
use sanare_agent_core.Execution.Walk.{Bound, field_of}
use sanare_agent_core.Task.{Host, Plan, Status, planned, verified, blocked, Contract, named}
use sanare_agent_core.Task.Receipts.{decode}
use sanare_agent_core.Task.Planning.{plan_contract}
use sanare_agent_core.Task.Planning.Soundness.{
  IsSound, SoundFor, SoundContract, plan_contract-IsSound,
}
use sanare_agent_core.Task.Verify.{verified_by}
use sanare_agent_core.Task.Verify.Passing.{Passes, verified_by-Passes}
use sanare_agent_core.Task.Observe.{
  plan_suffix, verify_suffix, ambiguous, blocked_for, call_value, or_blocked, passes, after_verify,
  verify_step, observe_call, issued_call, observe_result, observe_all, observe,
}

blocked-SoundFor : (s : Status) (o : Option Plan) → SoundFor s o → SoundFor blocked o
blocked-SoundFor s none h = refl
blocked-SoundFor s (some p) h = h

module _ (host : Host) where
  or_blocked-IsSound :
      (call : Value) (args : Fields) (receipt : Option Value)
      → SoundContract (some (or_blocked (plan_contract host call args receipt)))
  unfolding or_blocked blocked_for
  or_blocked-IsSound call args receipt =
      elim (Option-cases (plan_contract host call args receipt)) [
        | inl refused ↦ rw refused refl
        | inr (c, accepted) ↦
            rw accepted ((plan_contract-IsSound host call args receipt c accepted).1)
      ]

  passes-SoundFor :
      (args : Value) (receipt : Option Value) (s : Status) (o : Option Plan)
      → passes host o args receipt ≡ true
      → SoundFor s o
      → SoundFor verified o
  unfolding passes
  passes-SoundFor args receipt s none h sound = cc
  passes-SoundFor args receipt s (some p) h sound = sound

  after_verify-IsSound :
      (call : ModelCall) (receipt : Option Value) (c : Contract)
      → SoundFor c.status c.plan
      → SoundContract (some (after_verify host call receipt c))
  unfolding after_verify
  after_verify-IsSound call receipt c h = elim (Bool-cases (passes host c.plan call.args receipt)) [
    | inl good ↦ rw good (passes-SoundFor call.args receipt c.status c.plan good h)
    | inr bad ↦ rw bad (blocked-SoundFor c.status c.plan h)
  ]

  verify_step-IsSound :
      (call : ModelCall) (receipt : Option Value) (o : Option Contract)
      → SoundContract o
      → SoundContract (verify_step host call receipt o)
  unfolding verify_step
  verify_step-IsSound call receipt none h = tt
  verify_step-IsSound call receipt (some c) h = after_verify-IsSound call receipt c h

  observe_call-IsSound :
      (call : ModelCall) (receipt : Option Value) (o : Option Contract)
      → SoundContract o
      → SoundContract (observe_call host call receipt o)
  unfolding observe_call
  observe_call-IsSound call receipt o h = elim (Bool-cases (named (text call.name) plan_suffix)) [
    | inl plan ↦ rw plan (or_blocked-IsSound (call_value call) (fields_of call.args) receipt)
    | inr other ↦ elim (Bool-cases (named (text call.name) verify_suffix)) [
      | inl verify ↦ rw (other, verify) (verify_step-IsSound call receipt o h)
      | inr neither ↦ rw (other, neither) h
    ]
  ]

  module _ (issued : Bound) where
    observe_result-IsSound :
        (r : Value) (o : Option Contract)
        → SoundContract o
        → SoundContract (observe_result host issued r o)
    unfolding observe_result
    observe_result-IsSound r o h =
        elim (Option-cases (issued_call issued (field_of "tool_call_id" r))) [
          | inl stray ↦ rw (stray, observe_result) h
          | inr (call, found) ↦
              rw (found, observe_result)
                (observe_call-IsSound call (decode host.parse (field_of "content" r)) o h)
        ]

    observe_all-IsSound :
        (rs : List Value) (o : Option Contract)
        → SoundContract o
        → SoundContract (observe_all host issued rs o)
    unfolding observe_all
    observe_all-IsSound [] o h = h
    observe_all-IsSound (r ∷ rs) o h =
        observe_all-IsSound rs (observe_result host issued r o) (observe_result-IsSound r o h)

  -- Whatever a batch brings, where the contract before it is sound, the one that it leaves is too: its
  -- plan has as many checks as it counts, within the limits, with one for each requirement, and
  -- without a plan it is blocked.
  pub observe-IsSound :
      (issued : Bound) (results : List Value) (o : Option Contract)
      → SoundContract o
      → SoundContract (observe host o issued results)
  unfolding observe blocked_for
  observe-IsSound issued results o h = elim (Bool-cases (ambiguous issued)) [
    | inl mixed ↦ rw mixed refl
    | inr clear ↦ rw clear (observe_all-IsSound issued results o h)
  ]

-- The contract was verified by this result: it answers an issued verification with a passed receipt
-- of the contract's plan.
pub record Earned (host : Host) (issued : Bound) (c : Contract) (r : Value) : Type 0 where
  pub plan : Plan
  pub of : c.plan ≡ some plan
  pub call : ModelCall
  pub answered : issued_call issued (field_of "tool_call_id" r) ≡ some call
  pub verification : named (text call.name) verify_suffix ≡ true
  pub passed : verified_by host plan call.args (decode host.parse (field_of "content" r)) ≡ true

module _ (host : Host) (issued : Bound) where
  passes-plan :
      (o : Option Plan) (args : Value) (receipt : Option Value)
      → passes host o args receipt ≡ true
      → (p : Plan) × (o ≡ some p) × (verified_by host p args receipt ≡ true)
  unfolding passes
  passes-plan none args receipt h = cc
  passes-plan (some p) args receipt h = (p, refl, h)

  or_blocked-unverified :
      (call : Value) (args : Fields) (receipt : Option Value)
      → (or_blocked (plan_contract host call args receipt)).status ≢ verified
  unfolding or_blocked blocked_for
  or_blocked-unverified call args receipt =
      elim (Option-cases (plan_contract host call args receipt)) [
        | inl refused ↦ rw refused (λ e. cc)
        | inr (d, accepted) ↦
            let e : d.status ≡ planned =
              (plan_contract-IsSound host call args receipt d accepted).0 in
            rw accepted (λ v. cc (sym e ∙ v))
      ]

  after_verify-plan :
      (call : ModelCall) (receipt : Option Value) (c : Contract)
      → (after_verify host call receipt c).status ≡ verified
      → ((after_verify host call receipt c).plan ≡ c.plan)
        × (passes host c.plan call.args receipt ≡ true)
  unfolding after_verify
  after_verify-plan call receipt c h = elim (Bool-cases (passes host c.plan call.args receipt)) [
    | inl good ↦ rw good (refl, refl)
    | inr bad ↦ cc (rw bad at h)
  ]

  module _ (r : Value) (call : ModelCall)
      (answered : issued_call issued (field_of "tool_call_id" r) ≡ some call) where
    verify_step-Earned :
        (o : Option Contract) (c : Contract)
        → named (text call.name) verify_suffix ≡ true
        → verify_step host call (decode host.parse (field_of "content" r)) o ≡ some c
        → c.status ≡ verified
        → Earned host issued c r
    unfolding verify_step
    verify_step-Earned none c name h v = cc
    verify_step-Earned (some before) c name h v =
        let receipt = decode host.parse (field_of "content" r) in
        let e : after_verify host call receipt before ≡ c = some-injective _ c h in
        let (kept, good) = after_verify-plan call receipt before (ap (λ k. k.status) e ∙ v) in
        let (p, of, passed) = passes-plan before.plan call.args receipt good in
        record {
          plan = p;
          of = ap (λ k. k.plan) (sym e) ∙ kept ∙ of;
          call = call;
          answered = answered;
          verification = name;
          passed = passed;
        }

    observe_call-Earned :
        (o : Option Contract) (c : Contract)
        → observe_call host call (decode host.parse (field_of "content" r)) o ≡ some c
        → c.status ≡ verified
        → (o ≡ some c) ⊎ Earned host issued c r
    unfolding observe_call
    observe_call-Earned o c h v = elim (Bool-cases (named (text call.name) plan_suffix)) [
      | inl plan ↦
          let e = some-injective _ c (rw plan at h) in
          absurd (
            or_blocked-unverified (call_value call) (fields_of call.args)
              (decode host.parse (field_of "content" r)) (ap (λ k. k.status) e ∙ v))
      | inr other ↦ elim (Bool-cases (named (text call.name) verify_suffix)) [
        | inl verify ↦ inr (verify_step-Earned o c verify (rw (other, verify) at h) v)
        | inr neither ↦ inl (rw (other, neither) at h)
      ]
    ]

  observe_result-Earned :
      (r : Value) (o : Option Contract) (c : Contract)
      → observe_result host issued r o ≡ some c
      → c.status ≡ verified
      → (o ≡ some c) ⊎ Earned host issued c r
  unfolding observe_result
  observe_result-Earned r o c h v =
      elim (Option-cases (issued_call issued (field_of "tool_call_id" r))) [
        | inl stray ↦ inl (rw (stray, observe_result) at h)
        | inr (call, answered) ↦
            observe_call-Earned r call answered o c (rw (answered, observe_result) at h) v
      ]

  observe_all-Earned :
      (rs : List Value) (o : Option Contract) (c : Contract)
      → observe_all host issued rs o ≡ some c
      → c.status ≡ verified
      → (o ≡ some c) ⊎ ((r : Value) × Memᴰ r rs × Earned host issued c r)
  unfolding observe_all
  observe_all-Earned [] o c h v = inl h
  observe_all-Earned (r ∷ rs) o c h v =
      elim (observe_all-Earned rs (observe_result host issued r o) c h v) [
        | inl same ↦ elim (observe_result-Earned r o c same v) [
          | inl unchanged ↦ inl unchanged
          | inr earned ↦ inr (r, Memᴰ.head refl, earned)
        ]
        | inr (s, later, earned) ↦ inr (s, Memᴰ.tail later, earned)
      ]

  -- A verified contract was verified before the batch, or one result of the batch verified it: that
  -- result answers an issued verification call, and its receipt is a passed one of the contract's
  -- plan, in which every check of the plan passed on an artifact of the reported hash and size.
  pub observe-Earned :
      (results : List Value) (o : Option Contract) (c : Contract)
      → SoundContract o
      → observe host o issued results ≡ some c
      → c.status ≡ verified
      → (o ≡ some c)
        ⊎ ((r : Value) × Memᴰ r results
            × (earned : Earned host issued c r) × (receipt : Value) × (decode host.parse
                  (field_of "content" r)
                ≡ some receipt)
            × Passes earned.plan receipt)
  unfolding observe blocked_for
  observe-Earned results o c sound h v = elim (Bool-cases (ambiguous issued)) [
    | inl mixed ↦ absurd (cc (rw mixed at h))
    | inr clear ↦ elim (observe_all-Earned results o c (rw clear at h) v) [
      | inl same ↦ inl same
      | inr (r, among, earned) ↦
          let whole : SoundContract (some c) =
            subst SoundContract h (observe-IsSound host issued results o sound) in
          let p : IsSound earned.plan = subst (SoundFor c.status) earned.of whole in
          let (receipt, read, passes) =
            verified_by-Passes host earned.plan earned.call.args
              (decode host.parse (field_of "content" r)) p.counted earned.passed in
          inr (r, among, earned, receipt, read, passes)
    ]
  ]
