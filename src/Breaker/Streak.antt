-- ===== src/Breaker/Streak.antt =====
-- What the breaker counts: the transient failures of a connection since its last success.
use sanare_agent_core.Base.{
  ℕ, zero, suc, ◌+◌, ◌-◌, ◌<◌, String, ◌≡◌, refl, ◌∙◌, ◌==◌, if◌then◌else◌, Option, none, some,
  List, [], ◌∷◌, arith, str_eq, eq_iff, ap,
}
use sanare_agent_core.Base.Dict
use sanare_agent_core.Breaker.{
  Breaker, Connection, reset, cooldown, failed, opens, or_fresh, remaining, open_remaining, admit,
  admit_of, admit_half_open, record_transient_failure,
}
use sanare_agent_core.Breaker.Events.{
  Event, admitted, succeeded, failed_at, released, step, run, entry, next_entry, entry-step,
  entry-step_self,
}

next_streak : String → ℕ → Event → ℕ
next_streak c n (succeeded d) = if str_eq d c then 0 else n
next_streak c n (failed_at now d) = if str_eq d c then n + 1 else n
next_streak c n e = n

streak_from : String → ℕ → List Event → ℕ
streak_from c n [] = n
streak_from c n (e ∷ es) = streak_from c (next_streak c n e) es

-- The number of transient failures of `c` after its last success.
unfoldable pub streak : String → List Event → ℕ
unfolding next_streak streak_from
streak c es = streak_from c 0 es

abbrev counting : ℕ → Connection
counting n = record { failures = n; open_until = 0; probe_until = 0; probe_token = 0 }

-- Below the threshold the entry is determined by the streak.
abbrev tracked : ℕ → Option Connection
tracked n = if n == 0 then none else some (counting n)

record Tracks (n : ℕ) (o : Option Connection) : Type 0 where
  low : n < 3 → o ≡ tracked n

module _ (c : String) where
  step-Tracks :
      (e : Event) (n : ℕ) (b : Breaker)
      → Tracks n (entry c b)
      → Tracks (next_streak c n e) (entry c (step e b))
  unfolding next_streak next_entry failed or_fresh
  step-Tracks (admitted now d) n b v = record {
    low = λ h. ground (arith, v.low h, entry-step (admitted now d) c b);
  }
  step-Tracks (succeeded d) n b v = record {
    low = λ h. ground (arith, v.low, entry-step (succeeded d) c b);
  }
  step-Tracks (failed_at now d) n b v = record {
    low = λ h. ground (arith, v.low, entry-step (failed_at now d) c b);
  }
  step-Tracks (released d t) n b v = record {
    low = λ h. ground (arith, v.low h, entry-step (released d t) c b);
  }

  run-Tracks :
      (es : List Event) (n : ℕ) (b : Breaker)
      → Tracks n (entry c b)
      → Tracks (streak_from c n es) (entry c (run es b))
  unfolding run streak_from
  run-Tracks [] n b v = v
  run-Tracks (e ∷ es) n b v = run-Tracks es (next_streak c n e) (step e b) (step-Tracks e n b v)

  reset-tracked :
      (es : List Event) (b : Breaker)
      → streak c es < 3
      → entry c (run es (reset b)) ≡ tracked (streak c es)
  unfolding streak
  reset-tracked es b h =
      (run-Tracks es 0 (reset b) (record { low = λ _. unfold Dict.get in refl })).low h

admit-tracked :
    (now n : ℕ) (c : String) (b : Breaker) → (admit_of now c b (tracked n)).0 ≡ (none, 0)
unfolding admit_of admit_half_open
admit-tracked now zero c b = refl
admit-tracked now (suc n) c b = ground arith

-- A circuit opens for failures only: while fewer than three transient failures of the connection
-- follow its last success, whatever else happened to it and to other connections, an admission is
-- granted, and without a probe token.
pub streak_admits :
    (es : List Event) (b : Breaker) (c : String) (now : ℕ)
    → streak c es < 3
    → (admit now c (run es (reset b))).0 ≡ (none, 0)
unfolding admit
streak_admits es b c now h =
    rw (reset-tracked c es b h) (admit-tracked now (streak c es) c (run es (reset b)))

opens-tracked : (n : ℕ) → n < 3 → opens (or_fresh (tracked n)) ≡ (n == 2)
unfolding opens or_fresh
opens-tracked n h = ground arith

remaining-tracked :
    (now m : ℕ)
    → m < now + cooldown
    → remaining m (failed now (or_fresh (tracked 2))) ≡ some (now + cooldown - m)
unfolding remaining failed or_fresh
remaining-tracked now m h = ground arith

opened-remaining :
    (now m : ℕ) (c : String) (b : Breaker)
    → m < now + cooldown
    → entry c b ≡ tracked 2
    → open_remaining m c (record_transient_failure now c b).1 ≡ some (now + cooldown - m)
unfolding open_remaining step next_entry
opened-remaining now m c b early h =
    rw (entry-step_self (failed_at now c) c b ((eq_iff c c).1 refl), h)
      (remaining-tracked now m early)

-- Let fewer than three transient failures of a connection have come since its last success, whatever
-- else came between. Then one more reports that the circuit has opened exactly if two had come, and in
-- that case the circuit reads as open, with the time that is left, until the cooldown is over.
pub streak_opens :
    (es : List Event) (b : Breaker) (c : String) (now m : ℕ)
    → streak c es < 3
    → m < now + cooldown
    → ((record_transient_failure now c (run es (reset b))).0 ≡ (streak c es == 2))
      × (streak c es ≡ 2
          → open_remaining m c (record_transient_failure now c (run es (reset b))).1
            ≡ some (now + cooldown - m))
streak_opens es b c now m h early = (
  unfold record_transient_failure in rw (reset-tracked c es b h) (opens-tracked (streak c es) h),
  λ two.
      opened-remaining now m c (run es (reset b)) early (reset-tracked c es b h ∙ ap tracked two),
)
