-- ===== src/Breaker/Events.antt =====
-- Sequences of breaker calls, as the runs of a process interleave them under the lock.
use sanare_agent_core.Base.{
  ℕ, ◌+◌, ◌≤◌, String, Bool, ◌≡◌, refl, false, true, ◌++◌, not, ◌&&◌, ◌||◌, Option, none, some,
  List, [], ◌∷◌, arith, ltb, ◌==◌, if◌then◌else◌, str_eq, eq_iff,
}
use sanare_agent_core.Base.Dict
use sanare_agent_core.Base.Dict.{get-put, get-remove}
use sanare_agent_core.Breaker.{
  Breaker, Connection, probing, failed, or_fresh, admit, admit_of, admit_half_open, release_of,
  record_success, record_transient_failure, release_probe,
}

pub data Event : Type 0 where
  admitted : (now : ℕ) (connection : String) → Event
  succeeded : (connection : String) → Event
  failed_at : (now : ℕ) (connection : String) → Event
  released : (connection : String) (token : ℕ) → Event

abbrev pub target : Event → String
target (admitted now c) = c
target (succeeded c) = c
target (failed_at now c) = c
target (released c token) = c

unfoldable pub step : Event → Breaker → Breaker
step (admitted now c) b = (admit now c b).1
step (succeeded c) b = record_success c b
step (failed_at now c) b = (record_transient_failure now c b).1
step (released c token) b = release_probe c token b

unfoldable pub run : List Event → Breaker → Breaker
run [] b = b
run (e ∷ es) b = run es (step e b)

abbrev pub entry : String → Breaker → Option Connection
entry c b = Dict.get c b.connections

-- The circuit refuses now, or is closed with nothing to probe.
abbrev pub waits : ℕ → Connection → Bool
waits now s = ltb now s.open_until || ltb now s.probe_until || s.open_until == 0

-- What an event of a connection does to that connection's own entry.
unfoldable pub next_entry : Event → ℕ → Option Connection → Option Connection
next_entry (admitted now c) seq none = none
next_entry (admitted now c) seq (some s) =
    if waits now s then some s else some (probing now (seq + 1))
next_entry (succeeded c) seq o = none
next_entry (failed_at now c) seq o = some (failed now (or_fresh o))
next_entry (released c token) seq none = none
next_entry (released c token) seq (some s) =
    if not (token == 0) && s.probe_token == token
    then some (record s { probe_until = 0; probe_token = 0 })
    else some s

-- The token counter after an event of a connection with this entry.
unfoldable pub next_seq : Event → ℕ → Option Connection → ℕ
next_seq (admitted now c) seq (some s) = if waits now s then seq else seq + 1
next_seq e seq o = seq

seq-admit_of :
    (now : ℕ) (c : String) (b : Breaker) (o : Option Connection)
    → (admit_of now c b o).1.token_seq ≡ next_seq (admitted now c) b.token_seq o
unfolding admit_of admit_half_open next_seq
seq-admit_of now c b none = refl
seq-admit_of now c b (some s) = ground arith

seq-release_of :
    (c : String) (token : ℕ) (b : Breaker) (o : Option Connection)
    → (release_of c token b o).token_seq ≡ b.token_seq
unfolding release_of
seq-release_of c token b none = refl
seq-release_of c token b (some s) = ground arith

pub seq-step :
    (e : Event) (b : Breaker) → (step e b).token_seq ≡ next_seq e b.token_seq (entry (target e) b)
unfolding step admit record_success record_transient_failure release_probe next_seq
seq-step (admitted now c) b = seq-admit_of now c b (entry c b)
seq-step (succeeded c) b = refl
seq-step (failed_at now c) b = refl
seq-step (released c token) b = seq-release_of c token b (entry c b)

pub seq-le-next_seq : (e : Event) (seq : ℕ) (o : Option Connection) → seq ≤ next_seq e seq o
unfolding next_seq
seq-le-next_seq (admitted now c) seq (some s) = ground arith
seq-le-next_seq _ seq o = omega arith

module _ (j : String) (b : Breaker) where
  entry-admit_of :
      (now : ℕ) (c : String) (o : Option Connection)
      → entry c b ≡ o
      → entry j (admit_of now c b o).1
        ≡ (if str_eq c j then next_entry (admitted now c) b.token_seq (entry j b) else entry j b)
  unfolding admit_of admit_half_open next_entry
  entry-admit_of now c none h = ground (arith, eq_iff c j)
  entry-admit_of now c (some s) h =
      ground (arith, eq_iff c j, get-put c j (probing now (b.token_seq + 1)) b.connections)

  entry-release_of :
      (c : String) (token : ℕ) (o : Option Connection)
      → entry c b ≡ o
      → entry j (release_of c token b o)
        ≡ (if str_eq c j then next_entry (released c token) b.token_seq (entry j b) else entry j b)
  unfolding release_of next_entry
  entry-release_of c token none h = ground (arith, eq_iff c j)
  entry-release_of c token (some s) h =
      ground (
        arith,
        eq_iff c j,
        get-put c j (record s { probe_until = 0; probe_token = 0 }) b.connections,
      )

  entry-failed :
      (now : ℕ) (c : String)
      → Dict.get j (Dict.put c (failed now (or_fresh (entry c b))) b.connections)
        ≡ (if str_eq c j then some (failed now (or_fresh (entry j b))) else entry j b)
  entry-failed now c =
      ground (arith, eq_iff c j, get-put c j (failed now (or_fresh (entry c b))) b.connections)

-- An event changes its own connection's entry by `next_entry` and no other entry.
pub entry-step :
    (e : Event) (j : String) (b : Breaker)
    → entry j (step e b)
      ≡ (if str_eq (target e) j then next_entry e b.token_seq (entry j b) else entry j b)
unfolding step admit record_success record_transient_failure release_probe next_entry
entry-step (admitted now c) j b = entry-admit_of j b now c (entry c b) refl
entry-step (succeeded c) j b = get-remove c j b.connections
entry-step (failed_at now c) j b = entry-failed j b now c
entry-step (released c token) j b = entry-release_of j b c token (entry c b) refl

module _ (e : Event) (j : String) (b : Breaker) where
  pub entry-step_other : str_eq (target e) j ≡ false → entry j (step e b) ≡ entry j b
  entry-step_other h = rw (entry-step, h)

  pub entry-step_self :
      str_eq (target e) j ≡ true → entry j (step e b) ≡ next_entry e b.token_seq (entry j b)
  entry-step_self h = rw (entry-step, h)

pub run-append : (es fs : List Event) (b : Breaker) → run (es ++ fs) b ≡ run fs (run es b)
unfolding run
run-append [] fs b = refl
run-append (e ∷ es) fs b = run-append es fs (step e b)
