-- ===== src/Task/Final/Delivery.antt =====
-- What an answer that ends a turn has behind it: no unchecked copy, no plan without its checks.
use sanare_agent_core.Base.{
  String, Bool, true, false, Option, none, some, List, [], ◌≡◌, refl, inl, inr, arith, Bool-cases,
  subst,
}
use mathlib.Core.Option.{some-injective}
use sanare_agent_core.Task.{Host, Status, planned, verified, blocked, Contract}
use sanare_agent_core.Task.Conversation.{State, incident}
use sanare_agent_core.Task.OpenPlan.{Tool, Reply, no_calls}
use sanare_agent_core.Task.Sites.{Jobs, site_jobs, pending, exempt, site_gate}
use sanare_agent_core.Task.Final.{
  gate_final, gate_contract, outcome_start_gate, start_with, no_tool_calls, sites_verified,
  after_failure, is_planned, is_blocked, unless_gated,
}
use sanare_agent_core.Task.Final.Held.{
  ends_turn, Holds, block-ends_turn, start_with-Holds, site_gate-Holds, site_gate-pending,
  ask_verification-Holds,
}

-- The contract lets a turn end: it is verified, or failed but overruled by the site executor.
unfoldable pub settled : Jobs → Option Contract → Bool
settled jobs none = true
settled jobs (some c) = elim c.status [
  | planned ↦ false
  | verified ↦ true
  | blocked ↦ sites_verified jobs
]

-- A gate behind another one: either the first held the answer, or the second gave it.
gated-cases :
    (o later : Option Reply) (r' : Reply)
    → Holds o
    → unless_gated o later ≡ some r'
    → ends_turn r' ≡ true
    → (o ≡ none) × (later ≡ some r')
unfolding unless_gated
gated-cases none later r' holds h ends = (refl, h)
gated-cases (some r) later r' holds h ends = absurd (cc (holds r' h))

module _ (host : Host) (fresh : String) (s : State) (r r' : Reply) (tools : List Tool)
    (disabled : Bool) where
  -- The gates in front of the contract's did not hold the answer.
  reaches_contract :
      gate_final host fresh s r tools disabled ≡ some r'
      → ends_turn r' ≡ true
      → (site_gate host fresh s r tools disabled ≡ none)
        × (gate_contract host fresh s.contract s r tools disabled ≡ some r')
  unfolding gate_final outcome_start_gate
  reaches_contract h ends =
      let (free, later) =
        gated-cases (start_with fresh (incident host s) s r tools disabled) _ r'
          (start_with-Holds fresh (incident host s) s r tools disabled) h ends in
      gated-cases (site_gate host fresh s r tools disabled) _ r'
        (site_gate-Holds host fresh s r tools disabled) later ends

  after_failure-sites_verified :
      some (after_failure (site_jobs host.parse s) r) ≡ some r'
      → ends_turn r' ≡ true
      → sites_verified (site_jobs host.parse s) ≡ true
  unfolding after_failure
  after_failure-sites_verified h ends =
      elim (Bool-cases (sites_verified (site_jobs host.parse s))) [
        | inl all_done ↦ all_done
        | inr failed ↦
            let e = some-injective _ r' (rw failed at h) in
            absurd (
              cc (
                e,
                ends,
                block-ends_turn
                    "Выполнение не подтверждено: проверка артефакта не пройдена. Нужны фактическое исправление и успешная повторная проверка; внутренний список задач не подтверждает результат."
                    "failed_verification_preserved" r,
              ))
      ]

  failed-sites_verified :
      (c : Contract)
      → c.status ≡ blocked
      → no_tool_calls r ≡ true
      → gate_contract host fresh (some c) s r tools disabled ≡ some r'
      → ends_turn r' ≡ true
      → sites_verified (site_jobs host.parse s) ≡ true
  unfolding gate_contract is_blocked
  failed-sites_verified c failed calls h ends =
      after_failure-sites_verified (rw (failed, calls) at h) ends

  -- The checks of an artifact failed: an answer without calls ends the turn only where the copies of a
  -- site were edited and the executor has checked each of them, whatever the owner said and whatever
  -- tools there are.
  pub gate_final-sites_verified :
      (c : Contract)
      → s.contract ≡ some c
      → c.status ≡ blocked
      → no_tool_calls r ≡ true
      → gate_final host fresh s r tools disabled ≡ some r'
      → ends_turn r' ≡ true
      → sites_verified (site_jobs host.parse s) ≡ true
  gate_final-sites_verified c held failed calls h ends =
      failed-sites_verified c failed calls
        (subst (λ o. gate_contract host fresh o s r tools disabled ≡ some r') held
          ((reaches_contract h ends).1))
        ends

  contract-settled :
      (c : Contract) (status : Status)
      → c.status ≡ status
      → exempt host s r disabled ≡ false
      → no_tool_calls r ≡ true
      → gate_contract host fresh (some c) s r tools disabled ≡ some r'
      → ends_turn r' ≡ true
      → settled (site_jobs host.parse s) (some c) ≡ true
  unfolding gate_contract settled is_blocked is_planned
  contract-settled c verified e due calls h ends = rw e refl
  contract-settled c blocked e due calls h ends = rw e (failed-sites_verified c e calls h ends)
  contract-settled c planned e due calls h ends =
      absurd (cc (ask_verification-Holds host fresh s r tools c.plan r' (rw (e, due) at h)))

  settled-contract :
      (o : Option Contract)
      → exempt host s r disabled ≡ false
      → no_tool_calls r ≡ true
      → gate_contract host fresh o s r tools disabled ≡ some r'
      → ends_turn r' ≡ true
      → settled (site_jobs host.parse s) o ≡ true
  unfolding settled
  settled-contract none due calls h ends = refl
  settled-contract (some c) due calls h ends = contract-settled c c.status refl due calls h ends

  exempt-no_tool_calls : exempt host s r disabled ≡ false → no_tool_calls r ≡ true
  unfolding exempt no_calls no_tool_calls
  exempt-no_tool_calls due = ground arith

  -- An answer that the gates look at (it calls nothing, tools are not disabled, the owner's words
  -- suppress no action, it is neither blocked nor cut off) ends the turn only where no edited copy of a
  -- site is unchecked, and the contract is verified, or there is none, or it failed and the executor
  -- has checked every edited copy.
  pub gate_final-settled :
      exempt host s r disabled ≡ false
      → gate_final host fresh s r tools disabled ≡ some r'
      → ends_turn r' ≡ true
      → (pending (site_jobs host.parse s) ≡ [])
        × (settled (site_jobs host.parse s) s.contract ≡ true)
  gate_final-settled due h ends =
      let (no_site, contract) = reaches_contract h ends in
      (
        site_gate-pending host fresh s r tools disabled due no_site,
        settled-contract s.contract due (exempt-no_tool_calls due) contract ends,
      )
