-- ===== src/Task/Planning/Soundness.antt =====
-- A plan that was accepted has as many checks as it counts, within the limits, and each requirement
-- has a check of its own.
use sanare_agent_core.Base.{
  ℕ, zero, suc, ◌+◌, ◌≤◌, ◌<◌, true, Option, none, some, List, [], ◌∷◌, ◌==◌, length, ◌≡◌, refl,
  sym, ap, ◌∙◌, subst, arith, Bool-cases, Option-cases, inl, inr,
}
use mathlib.Core.Option.{some-injective}
use sanare_agent_core.Json
use sanare_agent_core.Json.{Value, null, int, text, dict, list, Fields, get}
use sanare_agent_core.Json.Shapes.{items_of}
use sanare_agent_core.Task.{Host, Check, Plan, Status, planned, blocked, Contract}
use sanare_agent_core.Task.Planning.{
  plan_receipt_ok, check_of, summaries, covers, covers_all, covered, plan_from, contract_of,
  plan_contract,
}

-- Every requirement below `n` has a check.
abbrev pub Covers : ℕ → List Check → Type 0
Covers n cs = (r : ℕ) → r < n → covers r cs ≡ true

pub record IsSound (p : Plan) : Type 0 where
  pub counted : length p.checks ≡ p.checks_count
  pub some_check : 0 < p.checks_count
  pub few_checks : p.checks_count ≤ 24
  pub some_requirement : 0 < p.requirements_count
  pub few_requirements : p.requirements_count ≤ 12
  pub covers : Covers p.requirements_count p.checks

-- A contract without a plan is blocked; a plan is sound.
abbrev pub SoundFor : Status → Option Plan → Type 0
SoundFor s none = s ≡ blocked
SoundFor s (some p) = IsSound p

abbrev pub SoundContract : Option Contract → Type 0
SoundContract none = Unit {0}
SoundContract (some c) = SoundFor c.status c.plan

length-summaries :
    (index n : ℕ) (vs : List Value) (cs : List Check)
    → summaries index n vs ≡ some cs
    → length cs ≡ length vs
unfolding summaries
length-summaries index n [] cs h = ap length (sym (some-injective [] cs h))
length-summaries index n (v ∷ vs) cs h = elim (Option-cases (check_of index n v)) [
  | inl absent ↦ cc (rw (absent, summaries) at h)
  | inr (c, found) ↦ elim (Option-cases (summaries (index + 1) n vs)) [
    | inl missing ↦ cc (rw (found, missing, summaries) at h)
    | inr (rest, later) ↦
        let e : c ∷ rest ≡ cs = some-injective (c ∷ rest) cs (rw (found, later, summaries) at h) in
        ap length (sym e) ∙ ap suc (length-summaries (index + 1) n vs rest later)
  ]
]

covers_all-Covers : (n : ℕ) (cs : List Check) → covers_all n cs ≡ true → Covers n cs
unfolding covers_all
covers_all-Covers zero cs h r less = elim less [ ]
covers_all-Covers (suc n) cs h r less = elim (Bool-cases (r == n)) [
  | inl same ↦
      let e : r ≡ n = ground arith in
      let last : covers n cs ≡ true = ground arith in ap (λ k. covers k cs) e ∙ last
  | inr other ↦ covers_all-Covers n cs (ground arith) r (ground arith)
]

receipt_ok-counts :
    (args receipt : Fields)
    → plan_receipt_ok args receipt ≡ true
    → (0 < length (items_of (get "requirements" args)))
      × (length (items_of (get "requirements" args)) ≤ 12)
      × (0 < length (items_of (get "checks" args)))
      × (length (items_of (get "checks" args)) ≤ 24)
unfolding plan_receipt_ok
receipt_ok-counts args receipt h = (ground arith, ground arith, ground arith, ground arith)

module _ (host : Host) (call : Value) (args receipt : Fields) where
  covered-IsSound :
      (o : Option (List Check)) (c : Contract)
      → plan_receipt_ok args receipt ≡ true
      → summaries 0 (length (items_of (get "requirements" args))) (items_of (get "checks" args)) ≡ o
      → covered host call args receipt o ≡ some c
      → (c.status ≡ planned) × SoundFor c.status c.plan
  unfolding covered contract_of plan_from
  covered-IsSound none c ok read h = cc
  covered-IsSound (some cs) c ok read h =
      let (p, q, r, s) = receipt_ok-counts args receipt ok in
      elim (Bool-cases (covers_all (length (items_of (get "requirements" args))) cs)) [
        | inl all ↦
            let e : contract_of (plan_from host call args receipt cs) ≡ c = ground arith in
            subst (λ k. (k.status ≡ planned) × SoundFor k.status k.plan) e
              (
                refl,
                record {
                  counted = length-summaries 0 _ (items_of (get "checks" args)) cs read;
                  some_check = r;
                  few_checks = s;
                  some_requirement = p;
                  few_requirements = q;
                  covers = covers_all-Covers (length (items_of (get "requirements" args))) cs all;
                },
              )
        | inr part ↦ cc (rw part at h)
      ]

pub plan_contract-IsSound :
    (host : Host) (call : Value) (args : Fields) (receipt : Option Value) (c : Contract)
    → plan_contract host call args receipt ≡ some c
    → (c.status ≡ planned) × SoundFor c.status c.plan
unfolding plan_contract
plan_contract-IsSound host call args (some (dict receipt)) c h =
    elim (Bool-cases (plan_receipt_ok args receipt)) [
      | inl ok ↦ covered-IsSound host call args receipt _ c ok refl (rw ok at h)
      | inr bad ↦ cc (rw bad at h)
    ]
plan_contract-IsSound host call args none c h = cc
plan_contract-IsSound host call args (some null) c h = cc
plan_contract-IsSound host call args (some (Json.bool b)) c h = cc
plan_contract-IsSound host call args (some (int k)) c h = cc
plan_contract-IsSound host call args (some (Json.negative k)) c h = cc
plan_contract-IsSound host call args (some (text s)) c h = cc
plan_contract-IsSound host call args (some (list xs)) c h = cc
