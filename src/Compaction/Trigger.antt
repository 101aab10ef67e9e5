-- ===== src/Compaction/Trigger.antt =====
-- When a history is compacted (`trigger_tokens` and `mechanical_target_tokens` of
-- src/deep_agent/msty_compaction.py). The float product by TARGET_SHARE, 0.85, is exact on the token
-- counts that occur: the nearest double to it has the whole part of 85 / 100 of the count.
mod Examples
use sanare_agent_core.Base.{
  ℕ, ◌*◌, ◌-◌, ◌/◌, ◌+◌, ◌≤◌, ◌<◌, String, Bool, true, false, ◌&&◌, not, Option, none, some, min,
  max, ltb, leb, if◌then◌else◌, Bool-cases, ◌≡◌, refl, ap, ◌∙◌, sym, subst, inl, inr, arith, eq_iff,
  str_eq,
}
use sanare_agent_core.Json
use sanare_agent_core.Json.{Value, null, text, int, dict, list, Fields, get, find, eq}
use sanare_agent_core.Execution.Limits.{input_limit, legacy_input_limit}
use sanare_agent_core.Execution.Limits.Binding.{input_limit_bounds}

abbrev pub trigger_least : ℕ
trigger_least = 120_000

abbrev pub luna_price_tier : ℕ
luna_price_tier = 272_000

abbrev pub luna_headroom : ℕ
luna_headroom = 54_000

abbrev luna_trigger_most : ℕ
luna_trigger_most = luna_price_tier - luna_headroom

-- Four fifths of the limit, and for luna no more than the price tier less its headroom.
scaled : Bool → ℕ → ℕ
scaled luna limit = if luna then min (limit * 4 / 5) luna_trigger_most else limit * 4 / 5

trigger_of : Value → ℕ → ℕ
unfolding scaled
trigger_of (dict binding) limit =
    if leb limit legacy_input_limit
    then trigger_least
    else max trigger_least (scaled (eq (get "profile" binding) (text "luna")) limit)
trigger_of v limit = trigger_least

unfoldable pub trigger_tokens : Fields → ℕ
unfolding trigger_of
trigger_tokens state = trigger_of (get "task_budget_binding" state) (input_limit state)

unfoldable pub mechanical_target_tokens : Fields → ℕ
mechanical_target_tokens state = trigger_tokens state * 85 / 100

-- A task bound to luna starts compaction with the whole headroom left below the price tier.
pub luna_below_tier :
    (state b : Fields)
    → get "task_budget_binding" state ≡ dict b
    → get "profile" b ≡ text "luna"
    → trigger_tokens state + luna_headroom ≤ luna_price_tier
unfolding trigger_tokens trigger_of
luna_below_tier state b bound luna = rw (bound, luna) (unfold eq in ground arith)
