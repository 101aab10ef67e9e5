-- ===== src/Task/Final/Kept.antt =====
-- The contract over a whole task: what the batches of results and the answers of the model make of
-- it, from no contract on.
use sanare_agent_core.Base.{
  String, Bool, true, false, ◌&&◌, ◌||◌, Option, none, some, List, [], ◌∷◌, ◌≡◌, refl, sym, ◌∙◌,
  inl, inr, arith, Bool-cases, ap, str_eq, eq_iff,
}
use mathlib.Core.Option.{some-injective}
use mathlib.Core.List.{Memᴰ}
use sanare_agent_core.Json.{Value, Fields}
use sanare_agent_core.Execution.Walk.{Bound, field_of}
use sanare_agent_core.Task.{Host, Plan, Status, planned, verified, blocked, Contract}
use sanare_agent_core.Task.Receipts.{decode}
use sanare_agent_core.Task.Planning.Soundness.{SoundFor, SoundContract}
use sanare_agent_core.Task.Verify.Passing.{Passes}
use sanare_agent_core.Task.Observe.{observe}
use sanare_agent_core.Task.Observe.Evidence.{Earned, observe-IsSound, observe-Earned}
use sanare_agent_core.Task.Conversation.{State, owner_control}
use sanare_agent_core.Task.Final.{
  reopened, new_work, has_plan_id, after_result, final_status, status_with, status_of,
  no_tools_chosen,
}

-- The calls that were issued in one batch, and the results that came back for them.
abbrev pub Batch : Type 0
Batch = Bound × List Value

-- The contracts that a task can hold after its batches, the latest first: none at its start, then
-- what a batch of results or an answer of the model makes of the one before.
pub data Kept (host : Host) : List Batch → Option Contract → Type 0 where
  start : Kept host [] none
  observed :
      (issued : Bound) (results : List Value) (batches : List Batch) (o : Option Contract)
      → Kept host batches o
      → Kept host ((issued, results) ∷ batches) (observe host o issued results)
  answered :
      (calls : List Fields) (batches : List Batch) (o : Option Contract)
      → Kept host batches o
      → Kept host batches (after_result o calls)

plan_id-SoundFor :
    (o : Option Plan) → has_plan_id o ≡ true → (s : Status) → SoundFor s o → SoundFor planned o
unfolding has_plan_id
plan_id-SoundFor none h s sound = absurd cc
plan_id-SoundFor (some p) h s sound = sound

reopened-SoundFor :
    (c : Contract) (calls : List Fields) (status : Status)
    → c.status ≡ status
    → SoundFor c.status c.plan
    → SoundFor ((reopened c calls).status) ((reopened c calls).plan)
unfolding reopened
reopened-SoundFor c calls planned e sound = rw e (rw e at sound)
reopened-SoundFor c calls blocked e sound = rw e (rw e at sound)
reopened-SoundFor c calls verified e sound =
    elim (Bool-cases (new_work calls && has_plan_id c.plan)) [
      | inl again ↦ rw (e, again) (plan_id-SoundFor c.plan (ground arith) c.status sound)
      | inr same ↦ rw (e, same) (rw e at sound)
    ]

after_result-IsSound :
    (o : Option Contract) (calls : List Fields)
    → SoundContract o
    → SoundContract (after_result o calls)
unfolding after_result
after_result-IsSound none calls h = h
after_result-IsSound (some c) calls h = reopened-SoundFor c calls c.status refl h

module _ (host : Host) where
  Kept-IsSound : {bs : List Batch} {o : Option Contract} → Kept host bs o → SoundContract o
  Kept-IsSound start = tt
  Kept-IsSound (observed issued results bs o k) =
      observe-IsSound host issued results o (Kept-IsSound k)
  Kept-IsSound (answered calls bs o k) = after_result-IsSound o calls (Kept-IsSound k)

  -- A result of one of the batches that verified the contract.
  abbrev pub Evidence : List Batch → Contract → Type 0
  Evidence bs c =
      (issued : Bound) × (results : List Value) × Memᴰ (issued, results) bs
      × (r : Value) × Memᴰ r results
      × (earned : Earned host issued c r) × (receipt : Value) × (decode host.parse
            (field_of "content" r)
          ≡ some receipt)
      × Passes earned.plan receipt

  Evidence-before :
      (b : Batch) (bs : List Batch) (c : Contract) → Evidence bs c → Evidence (b ∷ bs) c
  Evidence-before b bs c (issued, results, batch, r, among, earned, receipt, read, passes) =
      (issued, results, Memᴰ.tail batch, r, among, earned, receipt, read, passes)

  -- Evidence is about the plan of a contract.
  Evidence-plan :
      (bs : List Batch) (c d : Contract) → d.plan ≡ c.plan → Evidence bs c → Evidence bs d
  Evidence-plan bs c d e (issued, results, batch, r, among, earned, receipt, read, passes) = (
    issued,
    results,
    batch,
    r,
    among,
    record {
      plan = earned.plan;
      of = e ∙ earned.of;
      call = earned.call;
      answered = earned.answered;
      verification = earned.verification;
      passed = earned.passed;
    },
    receipt,
    read,
    passes,
  )

  reopened-plan :
      (c : Contract) (calls : List Fields) (status : Status)
      → c.status ≡ status
      → (reopened c calls).plan ≡ c.plan
  unfolding reopened
  reopened-plan c calls planned e = rw e refl
  reopened-plan c calls blocked e = rw e refl
  reopened-plan c calls verified e = elim (Bool-cases (new_work calls && has_plan_id c.plan)) [
    | inl again ↦ rw (e, again) refl
    | inr same ↦ rw (e, same) refl
  ]

  reopened-verified :
      (c : Contract) (calls : List Fields) (status : Status)
      → c.status ≡ status
      → (reopened c calls).status ≡ verified
      → c.status ≡ verified
  unfolding reopened
  reopened-verified c calls planned e h = absurd (cc (rw e at h))
  reopened-verified c calls blocked e h = absurd (cc (rw e at h))
  reopened-verified c calls verified e h = e

  Kept-Evidence :
      {bs : List Batch} {o : Option Contract}
      → Kept host bs o
      → (c : Contract) → o ≡ some c
      → c.status ≡ verified
      → Evidence bs c
  unfolding after_result
  Kept-Evidence start c h v = absurd cc
  Kept-Evidence (observed issued results bs o k) c h v =
      elim (observe-Earned host issued results o c (Kept-IsSound k) h v) [
        | inl same ↦ Evidence-before (issued, results) bs c (Kept-Evidence k c same v)
        | inr (r, among, earned, receipt, read, passes) ↦
            (issued, results, Memᴰ.head refl, r, among, earned, receipt, read, passes)
      ]
  Kept-Evidence (answered calls bs none k) c h v = absurd cc
  Kept-Evidence (answered calls bs (some b) k) c h v =
      let e = some-injective (reopened b calls) c h in
      let was = reopened-verified b calls b.status refl (ap (λ k. k.status) e ∙ v) in
      Evidence-plan bs b c (ap (λ k. k.plan) (sym e) ∙ reopened-plan b calls b.status refl)
        (Kept-Evidence k b refl was)

  -- Texts with another spelling are not equal.
  differs : (a b : String) → str_eq a b ≡ false → ¬ (a ≡ b)
  differs a b h e = cc (h, ap (λ t. str_eq t b) e, (eq_iff b b).1 refl)

  status_of-verified :
      (status : Status) (free : Bool)
      → status_of status free ≡ "verified_against_observations"
      → status ≡ verified
  unfolding status_of
  status_of-verified verified free h = refl
  status_of-verified blocked free h = absurd (differs _ _ refl h)
  status_of-verified planned true h = absurd (differs _ _ refl h)
  status_of-verified planned false h = absurd (differs _ _ refl h)

  status_with-verified :
      (s : State) (o : Option Contract)
      → status_with host s o ≡ "verified_against_observations"
      → (c : Contract) × (o ≡ some c) × (c.status ≡ verified)
  unfolding status_with
  status_with-verified s none h = absurd (differs _ _ refl h)
  status_with-verified s (some c) h = (
    c,
    refl,
    status_of-verified c.status (owner_control host s || no_tools_chosen s.tool_choice) h,
  )

  -- A turn that was answered ends as verified only if its task has a verified contract, and a result
  -- of one of the task's batches verified it: the result answers a verification call that was issued
  -- in that batch, and its content is a passed receipt of the contract's plan, in which every check
  -- passed on an artifact of the reported hash and size. Beforehand the contract must be one that
  -- the task can hold after those batches.
  pub final_status-Evidence :
      (batches : List Batch) (s : State)
      → Kept host batches s.contract
      → final_status host s "answered" ≡ "verified_against_observations"
      → (c : Contract) × (s.contract ≡ some c) × Evidence batches c
  unfolding final_status
  final_status-Evidence batches s k h =
      let (c, held, v) = status_with-verified s s.contract h in (c, held, Kept-Evidence k c held v)
