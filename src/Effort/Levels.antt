-- ===== src/Effort/Levels.antt =====
-- Fitting a level to an output limit gives the highest level that the limit holds.
use sanare_agent_core.Base.{
  ℕ, suc, subst, ◌*◌, ◌≤◌, ◌<◌, ◌⊎◌, ltb, ◌≡◌, refl, arith, Bool-cases, inl, inr,
}
use sanare_agent_core.Effort.{
  Level, low, medium, high, max, rank, below, min_output_tokens, lowered, fit, retry_level,
  retry_headroom_factor,
}

-- The result is the highest level, at most the given one, whose floor the limit holds; low has none.
pub record IsHighest (factor limit : ℕ) (level result : Level) : Type 0 where
  pub at_most : rank result ≤ rank level
  pub holds : factor * min_output_tokens result ≤ limit
  pub highest :
      (other : Level)
      → rank other ≤ rank level
      → factor * min_output_tokens other ≤ limit
      → rank other ≤ rank result

rank-cases :
    (other level : Level)
    → rank other ≤ rank level
    → (other ≡ level) ⊎ (rank other ≤ rank (below level))
unfolding rank below
rank-cases low low h = inl refl
rank-cases medium medium h = inl refl
rank-cases high high h = inl refl
rank-cases max max h = inl refl
rank-cases other level h = inr (omega arith)

module _ (factor limit : ℕ) where
  IsHighest-itself :
      (level : Level)
      → factor * min_output_tokens level ≤ limit
      → IsHighest factor limit level level
  IsHighest-itself level fits = record {
    at_most = omega arith;
    holds = fits;
    highest = λ other small enough. small;
  }

  IsHighest-below :
      (level result : Level)
      → rank (below level) ≤ rank level
      → limit < factor * min_output_tokens level
      → IsHighest factor limit (below level) result
      → IsHighest factor limit level result
  IsHighest-below level result down over h = record {
    at_most = omega (arith, h.at_most);
    holds = h.holds;
    highest = λ other small enough. elim (rank-cases other level small) [
      | inl same ↦
          absurd (omega (arith, subst (λ l. factor * min_output_tokens l ≤ limit) same enough))
      | inr smaller ↦ h.highest other smaller enough
    ];
  }

  lowered_step :
      (steps : ℕ) (level : Level)
      → rank (below level) ≤ rank level
      → IsHighest factor limit (below level) (lowered factor limit steps (below level))
      → IsHighest factor limit level (lowered factor limit (suc steps) level)
  unfolding lowered
  lowered_step steps level down h =
      elim (Bool-cases (ltb limit (factor * min_output_tokens level))) [
        | inl over ↦ rw over (IsHighest-below level _ down (ground arith) h)
        | inr fits ↦ rw fits (IsHighest-itself level (ground arith))
      ]

  medium-IsHighest : IsHighest factor limit medium (lowered factor limit 1 medium)
  unfolding lowered rank below min_output_tokens
  medium-IsHighest = lowered_step 0 medium (omega arith) (IsHighest-itself low (omega arith))

  high-IsHighest : IsHighest factor limit high (lowered factor limit 2 high)
  unfolding rank below
  high-IsHighest = lowered_step 1 high (omega arith) medium-IsHighest

  lowered-IsHighest :
      (level : Level) → IsHighest factor limit level (lowered factor limit (rank level) level)
  unfolding lowered rank below min_output_tokens
  lowered-IsHighest low = IsHighest-itself low (omega arith)
  lowered-IsHighest medium = medium-IsHighest
  lowered-IsHighest high = high-IsHighest
  lowered-IsHighest max = lowered_step 2 max (omega arith) high-IsHighest

-- The loops that lower a level end at the highest level that fits: for a step, the highest up to the
-- chosen one whose floor the output limit holds; for a retry, the highest up to the one below the
-- applied level whose floor the room holds four times.
pub fit-IsHighest :
    (level applied : Level) (output_limit headroom : ℕ)
    → IsHighest 1 output_limit level (fit level output_limit)
      × IsHighest retry_headroom_factor headroom (below applied) (retry_level applied headroom)
unfolding fit retry_level
fit-IsHighest level applied output_limit headroom = (
  lowered-IsHighest 1 output_limit level,
  lowered-IsHighest retry_headroom_factor headroom (below applied),
)
