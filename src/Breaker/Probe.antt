-- ===== src/Breaker/Probe.antt =====
-- The half-open circuit: one probe at a time, how it ends, and what a refusal says.
use sanare_agent_core.Base.{
  ℕ, ◌+◌, ◌-◌, ◌<◌, String, Bool, ◌≡◌, ◌≢◌, refl, ◌∙◌, true, false, not, ◌&&◌, ltb, ◌==◌, Option,
  none, some, List, [], ◌∷◌, arith, str_eq, eq_iff, subst, &&-true, not-true,
}
use sanare_agent_core.Base.Dict.{get-put}
use sanare_agent_core.Breaker.{
  Breaker, Connection, reset, cooldown, probe_limit, probing, failed, opens, or_fresh, remaining,
  open_remaining, open_remaining_of, admit, admit_of, admit_half_open, record_transient_failure,
  release_probe,
}
use sanare_agent_core.Breaker.Events.{
  Event, admitted, succeeded, failed_at, released, step, run, entry, next_entry, entry-step,
  entry-step_self,
}
use sanare_agent_core.Breaker.Invariant.{IsSound, SoundEntry, reachable-AllSound}

open_remaining_of-eq-admit_of :
    (now : ℕ) (c : String) (b : Breaker) (o : Option Connection)
    → open_remaining_of now o ≡ (admit_of now c b o).0.0
unfolding open_remaining_of remaining admit_of admit_half_open
open_remaining_of-eq-admit_of now c b none = refl
open_remaining_of-eq-admit_of now c b (some s) = ground arith

-- The pure read reports exactly the refusal, with its seconds, that an admission would give.
pub open_remaining-eq-admit :
    (now : ℕ) (c : String) (b : Breaker) → open_remaining now c b ≡ (admit now c b).0.0
unfolding open_remaining admit
open_remaining-eq-admit now c b = open_remaining_of-eq-admit_of now c b (entry c b)

-- What an admission answers depends on the connection's own entry.
pub admit-entry :
    (now : ℕ) (c : String) (b : Breaker) (s : Connection)
    → entry c b ≡ some s
    → (admit now c b).0 ≡ (admit_of now c b (some s)).0
unfolding admit
admit-entry now c b s h = rw h

grant_of-entry :
    (now : ℕ) (c : String) (b : Breaker) (o : Option Connection) {token : ℕ}
    → (admit_of now c b o).0 ≡ (none, token)
    → token ≢ 0
    → entry c (admit_of now c b o).1 ≡ some (probing now token)
unfolding admit_of admit_half_open
grant_of-entry now c b none h t = ground arith
grant_of-entry now c b (some s) h t =
    ground (arith, get-put c c (probing now (b.token_seq + 1)) b.connections, eq_iff c c)

-- The one way to be given a token leaves the connection probing under that token.
pub grant-entry :
    (now : ℕ) (c : String) (b : Breaker) {token : ℕ}
    → (admit now c b).0 ≡ (none, token)
    → token ≢ 0
    → entry c (admit now c b).1 ≡ some (probing now token)
unfolding admit
grant-entry now c b h t = grant_of-entry now c b (entry c b) h t

-- The events that can end the probe which holds `token` until `limit`.
pub ends_probe : String → ℕ → ℕ → Event → Bool
ends_probe c token limit (admitted now d) = str_eq d c && not (ltb now limit)
ends_probe c token limit (succeeded d) = str_eq d c
ends_probe c token limit (failed_at now d) = str_eq d c
ends_probe c token limit (released d t) = str_eq d c && t == token

unfoldable pub none_ends : String → ℕ → ℕ → List Event → Bool
unfolding ends_probe
none_ends c token limit [] = true
none_ends c token limit (e ∷ es) = not (ends_probe c token limit e) && none_ends c token limit es

module _ (c : String) (now token : ℕ) where
  step-probing :
      (e : Event) (b : Breaker)
      → entry c b ≡ some (probing now token)
      → ends_probe c token (now + probe_limit) e ≡ false
      → entry c (step e b) ≡ some (probing now token)
  unfolding ends_probe next_entry
  step-probing (admitted m d) b h q = ground (arith, entry-step (admitted m d) c b)
  step-probing (succeeded d) b h q = ground (arith, entry-step (succeeded d) c b)
  step-probing (failed_at m d) b h q = ground (arith, entry-step (failed_at m d) c b)
  step-probing (released d t) b h q = ground (arith, entry-step (released d t) c b)

  run-probing :
      (es : List Event) (b : Breaker)
      → entry c b ≡ some (probing now token)
      → none_ends c token (now + probe_limit) es ≡ true
      → entry c (run es b) ≡ some (probing now token)
  unfolding run none_ends
  run-probing [] b h q = h
  run-probing (e ∷ es) b h q =
      let (kept, rest) = &&-true (not (ends_probe c token (now + probe_limit) e)) _ q in
      run-probing es (step e b) (step-probing e b h (not-true kept)) rest

admit-probing :
    (now m token : ℕ) (c : String) (b : Breaker)
    → m < now + probe_limit
    → (admit_of m c b (some (probing now token))).0 ≡ (some (now + probe_limit - m), 0)
unfolding admit_of admit_half_open
admit-probing now m token c b h = ground arith

-- While a probe runs no other call of its connection is admitted: after an admission that gave a
-- token at `now`, and any events that do not end that probe, every admission of the connection
-- before `now + probe_limit` is refused with the time that is left.
pub probe_exclusive :
    (now m token : ℕ) (c : String) (b : Breaker) (es : List Event)
    → (admit now c b).0 ≡ (none, token)
    → token ≢ 0
    → none_ends c token (now + probe_limit) es ≡ true
    → m < now + probe_limit
    → (admit m c (run es (admit now c b).1)).0 ≡ (some (now + probe_limit - m), 0)
probe_exclusive now m token c b es given t quiet early =
    admit-entry m c (run es (admit now c b).1) (probing now token)
      (run-probing c now token es (admit now c b).1 (grant-entry now c b given t) quiet)
    ∙ admit-probing now m token c (run es (admit now c b).1) early

failed-remaining :
    (now m : ℕ) (c : String) (b : Breaker) (s : Connection)
    → s.failures ≡ 2
    → s.open_until ≡ 0
    → m < now + cooldown
    → (opens s ≡ true) × ((admit_of m c b (some (failed now s))).0 ≡ (some (now + cooldown - m), 0))
unfolding admit_of admit_half_open failed
failed-remaining now m c b s f o early = (ground arith, ground arith)

entry-record_transient_failure :
    (now : ℕ) (c : String) (b : Breaker) (s : Connection)
    → entry c b ≡ some s
    → entry c (record_transient_failure now c b).1 ≡ some (failed now s)
unfolding record_transient_failure or_fresh
entry-record_transient_failure now c b s h =
    rw h (ground (arith, get-put c c (failed now s) b.connections, eq_iff c c))

opened-record_transient_failure :
    (now : ℕ) (c : String) (b : Breaker) (s : Connection)
    → entry c b ≡ some s
    → (record_transient_failure now c b).0 ≡ opens s
unfolding record_transient_failure or_fresh
opened-record_transient_failure now c b s h = rw h

-- One failed probe reopens the circuit. In every state that is reached from an empty table, a
-- transient failure of a connection whose probe is running reports that the circuit has just
-- opened, and until `now + cooldown` every admission is refused with the time that is left.
pub probe_failure_reopens :
    (es : List Event) (b : Breaker) (c : String) (s : Connection) (now m : ℕ)
    → entry c (run es (reset b)) ≡ some s
    → s.probe_until ≢ 0
    → m < now + cooldown
    → ((record_transient_failure now c (run es (reset b))).0 ≡ true)
      × ((admit m c (record_transient_failure now c (run es (reset b))).1).0
          ≡ (some (now + cooldown - m), 0))
probe_failure_reopens es b c s now m h p early =
    let sound : IsSound (run es (reset b)).token_seq s =
      subst (SoundEntry (run es (reset b)).token_seq) h (reachable-AllSound es b c) in
    let after = (record_transient_failure now c (run es (reset b))).1 in
    let (opened, refused) =
      failed-remaining now m c after s (sound.probe_failures p) (sound.probe_closed p) early in
    (
      opened-record_transient_failure now c (run es (reset b)) s h ∙ opened,
      admit-entry m c after (failed now s)
            (entry-record_transient_failure now c (run es (reset b)) s h)
          ∙ refused,
    )

entry-release :
    (c : String) (t : ℕ) (b : Breaker) (s : Connection)
    → entry c b ≡ some s
    → entry c (release_probe c t b) ≡ next_entry (released c t) b.token_seq (some s)
unfolding step
entry-release c t b s h =
    subst (λ o. entry c (release_probe c t b) ≡ next_entry (released c t) b.token_seq o) h
      (entry-step_self (released c t) c b ((eq_iff c c).1 refl))

release_other :
    (c : String) (t seq : ℕ) (s : Connection)
    → t ≢ s.probe_token
    → next_entry (released c t) seq (some s) ≡ some s
unfolding next_entry
release_other c t seq s h = ground arith

release_own :
    (c : String) (seq : ℕ) (s : Connection)
    → s.probe_token ≢ 0
    → next_entry (released c s.probe_token) seq (some s)
      ≡ some (record s { probe_until = 0; probe_token = 0 })
unfolding next_entry
release_own c seq s h = ground arith

abbrev released_probe : ℕ → ℕ → Connection
released_probe now token = record (probing now token) { probe_until = 0; probe_token = 0 }

opens-released : (now token : ℕ) → opens (released_probe now token) ≡ true
unfolding opens
opens-released now token = refl

admit_released :
    (now m token : ℕ) (c : String) (b : Breaker)
    → (admit_of m c b (some (released_probe now token))).0 ≡ (none, 0)
unfolding admit_of admit_half_open
admit_released now m token c b = ground arith

-- Only the owner of a probe can release it. Right after an admission that gave `token`, a release
-- under any other token leaves the connection probing; a release under `token` lets every later
-- caller in without a token, and the next transient failure still opens the circuit.
pub release_owner :
    (now : ℕ) (token t m : ℕ) (c : String) (b : Breaker)
    → (admit now c b).0 ≡ (none, token)
    → token ≢ 0
    → (t ≢ token → entry c (release_probe c t (admit now c b).1) ≡ some (probing now token))
      × ((admit m c (release_probe c token (admit now c b).1)).0 ≡ (none, 0))
      × ((record_transient_failure m c (release_probe c token (admit now c b).1)).0 ≡ true)
release_owner now token t m c b given pos =
    let b' = (admit now c b).1 in
    let at : entry c b' ≡ some (probing now token) = grant-entry now c b given pos in
    let freed : entry c (release_probe c token b') ≡ some (released_probe now token) =
      entry-release c token b' (probing now token) at
      ∙ release_own c b'.token_seq (probing now token) pos in
    (
      λ other.
          entry-release c t b' (probing now token) at
          ∙ release_other c t b'.token_seq (probing now token) other,
      admit-entry m c (release_probe c token b') (released_probe now token) freed
          ∙ admit_released now m token c (release_probe c token b'),
      opened-record_transient_failure m c (release_probe c token b') (released_probe now token)
            freed
          ∙ opens-released now token,
    )
