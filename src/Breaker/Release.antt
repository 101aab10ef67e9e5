-- ===== src/Breaker/Release.antt =====
-- A probe that its owner gives back, and what the next admission of the connection then answers
-- (`release_probe` of src/deep_agent/msty_breaker.py, behind each way in which a call can end).
use sanare_agent_core.Base.{
  ℕ, ◌+◌, ◌-◌, String, ltb, Option, none, some, ◌≡◌, ◌≢◌, refl, sym, ◌∙◌, if◌then◌else◌, arith,
  eq_iff,
}
use sanare_agent_core.Breaker.{
  Breaker, Connection, cooldown, probing, opens, or_fresh, failed, remaining, open_remaining,
  open_remaining_of, admit, record_success, record_transient_failure, release_probe,
}
use sanare_agent_core.Breaker.Events.{
  succeeded, failed_at, released, step, entry, next_entry, entry-step_self,
}
use sanare_agent_core.Breaker.Probe.{open_remaining-eq-admit}

-- What an admission answers, by the entry of its connection.
refusal-entry :
    (m : ℕ) (c : String) (b : Breaker) (o : Option Connection)
    → entry c b ≡ o
    → (admit m c b).0.0 ≡ open_remaining_of m o
unfolding open_remaining
refusal-entry m c b o h = sym (open_remaining-eq-admit m c b) ∙ (rw h refl)

module _ (c : String) (token : ℕ) (b : Breaker) where
  entry-release_probe :
      (o : Option Connection)
      → entry c b ≡ o
      → entry c (release_probe c token b) ≡ next_entry (released c token) b.token_seq o
  unfolding step
  entry-release_probe o h =
      entry-step_self (released c token) c b ((eq_iff c c).1 refl) ∙ (rw h refl)

-- A failed probe, given back, refuses for the cooldown that the failure started.
failed_probe-remaining :
    (now later m seq : ℕ) (c : String) (token : ℕ)
    → open_remaining_of m
        (next_entry (released c token) seq (some (failed later (probing now token))))
      ≡ (if ltb m (later + cooldown) then some (later + cooldown - m) else none)
unfolding open_remaining_of remaining next_entry failed opens
failed_probe-remaining now later m seq c token = ground arith

given_back-remaining :
    (now m seq : ℕ) (c : String) (token : ℕ)
    → token ≢ 0
    → open_remaining_of m (next_entry (released c token) seq (some (probing now token))) ≡ none
unfolding open_remaining_of remaining next_entry
given_back-remaining now m seq c token pos = ground arith

module _ (now m : ℕ) (c : String) (token : ℕ) (b : Breaker) where
  -- A probe that is given back lets the next call in.
  pub release_probe-admits :
      entry c b ≡ some (probing now token)
      → token ≢ 0
      → (admit m c (release_probe c token b)).0.0 ≡ none
  release_probe-admits at pos =
      refusal-entry m c (release_probe c token b) _
        (entry-release_probe c token b (some (probing now token)) at)
      ∙ given_back-remaining now m b.token_seq c token pos

  -- So does one that is given back behind a success.
  pub success-admits : (admit m c (release_probe c token (record_success c b))).0.0 ≡ none
  unfolding step next_entry open_remaining_of
  success-admits = refusal-entry m c (release_probe c token (record_success c b)) none (
      entry-release_probe c token (record_success c b) none
        (entry-step_self (succeeded c) c b ((eq_iff c c).1 refl)))

  -- Behind a transient failure the next call is refused until the cooldown of that failure is over.
  pub failure-refuses :
      (later : ℕ)
      → entry c b ≡ some (probing now token)
      → (admit m c (release_probe c token (record_transient_failure later c b).1)).0.0
        ≡ (if ltb m (later + cooldown) then some (later + cooldown - m) else none)
  unfolding step next_entry or_fresh
  failure-refuses later at =
      let after = (record_transient_failure later c b).1 in
      refusal-entry m c (release_probe c token after) _ (
        entry-release_probe c token after (some (failed later (probing now token)))
          (entry-step_self (failed_at later c) c b ((eq_iff c c).1 refl) ∙ (rw at refl)))
      ∙ failed_probe-remaining now later m after.token_seq c token
