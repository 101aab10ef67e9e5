-- ===== src/Breaker/Invariant.antt =====
-- What holds of every entry that the breaker's functions can leave, and what follows of a probe.
use sanare_agent_core.Base.{
  ℕ, ◌≤◌, String, ◌≡◌, ◌≢◌, refl, sym, not, ◌&&◌, ◌==◌, Option, none, some, List, [], ◌∷◌, inl, inr,
  arith, str_eq, eq_iff, Bool-cases,
}
use sanare_agent_core.Base.Dict
use sanare_agent_core.Base.Dict.{get-put}
use sanare_agent_core.Breaker.{Breaker, Connection, reset, failed, or_fresh}
use sanare_agent_core.Breaker.Events.{
  Event, admitted, succeeded, failed_at, released, target, step, run, entry, next_entry,
  entry-step_self, next_seq, seq-step, seq-le-next_seq, waits, entry-step_other,
}

-- While closed or half-open at most two failures are counted; a running probe has a token and
-- stands one failure below the threshold; no token is above the last one issued.
pub record IsSound (seq : ℕ) (s : Connection) : Type 0 where
  pub below : s.open_until ≡ 0 → s.failures ≤ 2
  pub counted : 1 ≤ s.failures
  pub probe_closed : s.probe_until ≢ 0 → s.open_until ≡ 0
  pub probe_failures : s.probe_until ≢ 0 → s.failures ≡ 2
  pub probe_owned : s.probe_until ≢ 0 → s.probe_token ≢ 0
  pub issued : s.probe_token ≤ seq

abbrev pub SoundEntry : ℕ → Option Connection → Type 0
SoundEntry seq none = Unit {0}
SoundEntry seq (some s) = IsSound seq s

abbrev pub AllSound : Breaker → Type 0
AllSound b = (c : String) → SoundEntry b.token_seq (entry c b)

pub IsSound-mono : {m n : ℕ} {s : Connection} → m ≤ n → IsSound m s → IsSound n s
IsSound-mono h v = record {
  below = v.below;
  counted = v.counted;
  probe_closed = v.probe_closed;
  probe_failures = v.probe_failures;
  probe_owned = v.probe_owned;
  issued = omega arith;
}

SoundEntry-mono : {m n : ℕ} (o : Option Connection) → m ≤ n → SoundEntry m o → SoundEntry n o
SoundEntry-mono none h v = tt
SoundEntry-mono (some s) h v = IsSound-mono h v

failed-IsSound : (now seq : ℕ) (s : Connection) → IsSound seq s → IsSound seq (failed now s)
unfolding failed
failed-IsSound now seq s v = ground arith

failed_fresh-IsSound : (now seq : ℕ) → IsSound seq (failed now (or_fresh none))
unfolding failed or_fresh
failed_fresh-IsSound now seq = ground arith

-- An event keeps the soundness of its own connection's entry.
next-SoundEntry :
    (e : Event) (seq : ℕ) (o : Option Connection)
    → SoundEntry seq o
    → SoundEntry (next_seq e seq o) (next_entry e seq o)
unfolding next_entry next_seq or_fresh
next-SoundEntry (admitted now c) seq none v = tt
next-SoundEntry (admitted now c) seq (some s) v = elim (Bool-cases (waits now s)) [
  | inl stays ↦ rw stays v
  | inr free ↦ rw free (record {
    below = λ _. omega arith;
    counted = omega arith;
    probe_closed = λ _. refl;
    probe_failures = λ _. refl;
    probe_owned = λ _. omega arith;
    issued = omega arith;
  })
]
next-SoundEntry (succeeded c) seq o v = tt
next-SoundEntry (failed_at now c) seq none v = failed_fresh-IsSound now seq
next-SoundEntry (failed_at now c) seq (some s) v = failed-IsSound now seq s v
next-SoundEntry (released c token) seq none v = tt
next-SoundEntry (released c token) seq (some s) v =
    elim (Bool-cases (not (token == 0) && s.probe_token == token)) [
      | inl owner ↦ rw owner (record {
        below = v.below;
        counted = v.counted;
        probe_closed = λ h. absurd (h refl);
        probe_failures = λ h. absurd (h refl);
        probe_owned = λ h. absurd (h refl);
        issued = omega arith;
      })
      | inr other ↦ rw other v
    ]

-- Every event keeps every entry sound.
pub step-AllSound : (e : Event) (b : Breaker) → AllSound b → AllSound (step e b)
step-AllSound e b v j = elim (Bool-cases (str_eq (target e) j)) [
  | inl same ↦
      let at : j ≡ target e = sym ((eq_iff (target e) j).0 same) in
      rw (entry-step_self e j b same, seq-step e b, at)
        (next-SoundEntry e b.token_seq (entry (target e) b) (v (target e)))
  | inr other ↦
      rw (entry-step_other e j b other, seq-step e b)
        (SoundEntry-mono (entry j b) (seq-le-next_seq e b.token_seq (entry (target e) b)) (v j))
]

run-AllSound : (es : List Event) (b : Breaker) → AllSound b → AllSound (run es b)
unfolding run
run-AllSound [] b v = v
run-AllSound (e ∷ es) b v = run-AllSound es (step e b) (step-AllSound e b v)

-- After any sequence of admissions, successes, failures and releases from an empty table, every
-- connection's entry is sound.
pub reachable-AllSound : (es : List Event) (b : Breaker) → AllSound (run es (reset b))
reachable-AllSound es b = run-AllSound es (reset b) (λ c. unfold Dict.get in tt)
