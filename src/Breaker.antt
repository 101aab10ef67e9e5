-- ===== src/Breaker.antt =====
-- The circuit breaker on remote model calls (src/deep_agent/msty_breaker.py): one record per
-- connection, the table of them with the token counter, and each function as a state change.
-- Times are whole milliseconds of the monotonic clock, read by the caller and passed in as `now`.
-- The lock makes each function one atomic step; its `except` clauses catch nothing here.
pub mod Events
pub mod Invariant
pub mod Probe
pub mod Release
pub mod Streak
mod Examples
use sanare_agent_core.Base.{
  ℕ, ◌+◌, ◌-◌, String, Bool, not, ◌&&◌, Option, none, some, [], ltb, leb, ◌==◌, if◌then◌else◌,
}
use sanare_agent_core.Base.Dict
use sanare_agent_core.Base.Dict.{Dict}

abbrev pub failure_threshold : ℕ
failure_threshold = 3

abbrev pub cooldown : ℕ
cooldown = 60_000

abbrev pub probe_limit : ℕ
probe_limit = 150_000

-- A key that the Python dict lacks reads as 0: `probe_until` by the default of `get`, and
-- `probe_token` because it is only compared with tokens that are not 0.
pub record Connection : Type 0 where
  pub failures : ℕ
  pub open_until : ℕ
  pub probe_until : ℕ
  pub probe_token : ℕ

pub record Breaker : Type 0 where
  pub token_seq : ℕ
  pub connections : Dict Connection

abbrev pub reset : Breaker → Breaker
reset b = record b { connections = [] }

pub remaining : ℕ → Connection → Option ℕ
remaining now c =
    if ltb now c.open_until
    then some (c.open_until - now)
    else if ltb now c.probe_until
    then some (c.probe_until - now)
    else none

pub open_remaining_of : ℕ → Option Connection → Option ℕ
open_remaining_of now none = none
open_remaining_of now (some c) = remaining now c

pub open_remaining : ℕ → String → Breaker → Option ℕ
unfolding remaining open_remaining_of
open_remaining now connection b = open_remaining_of now (Dict.get connection b.connections)

-- The connection as the half-open circuit leaves it, under the token of its one probe.
abbrev pub probing : ℕ → ℕ → Connection
probing now token = record {
  failures = failure_threshold - 1;
  open_until = 0;
  probe_until = now + probe_limit;
  probe_token = token;
}

unfoldable pub admit_half_open : ℕ → String → Breaker → (Option ℕ × ℕ) × Breaker
admit_half_open now connection b =
    let token = b.token_seq + 1 in
    (
      (none, token),
      record {
        token_seq = token;
        connections = Dict.put connection (probing now token) b.connections;
      },
    )

unfoldable pub admit_of : ℕ → String → Breaker → Option Connection → (Option ℕ × ℕ) × Breaker
admit_of now connection b none = ((none, 0), b)
admit_of now connection b (some c) =
    if ltb now c.open_until
    then ((some (c.open_until - now), 0), b)
    else if ltb now c.probe_until
    then ((some (c.probe_until - now), 0), b)
    else if not (c.open_until == 0)
    then admit_half_open now connection b
    else ((none, 0), b)

unfoldable pub admit : ℕ → String → Breaker → (Option ℕ × ℕ) × Breaker
unfolding admit_of admit_half_open
admit now connection b = admit_of now connection b (Dict.get connection b.connections)

unfoldable pub record_success : String → Breaker → Breaker
record_success connection b = record b { connections = Dict.remove connection b.connections }

-- `setdefault`: what a connection without an entry starts from.
pub or_fresh : Option Connection → Connection
or_fresh none = record { failures = 0; open_until = 0; probe_until = 0; probe_token = 0 }
or_fresh (some c) = c

pub opens : Connection → Bool
opens c = leb failure_threshold (c.failures + 1) && c.open_until == 0

pub failed : ℕ → Connection → Connection
unfolding opens
failed now c = record c {
  failures = c.failures + 1;
  probe_until = 0;
  open_until = if opens c then now + cooldown else c.open_until;
}

-- The result says that the circuit has just opened.
unfoldable pub record_transient_failure : ℕ → String → Breaker → Bool × Breaker
unfolding or_fresh opens failed
record_transient_failure now connection b =
    let c = or_fresh (Dict.get connection b.connections) in
    (opens c, record b { connections = Dict.put connection (failed now c) b.connections })

unfoldable pub release_of : String → ℕ → Breaker → Option Connection → Breaker
release_of connection token b none = b
release_of connection token b (some c) =
    if not (token == 0) && c.probe_token == token
    then record b {
      connections =
          Dict.put connection (record c { probe_until = 0; probe_token = 0 }) b.connections;
    }
    else b

unfoldable pub release_probe : String → ℕ → Breaker → Breaker
unfolding release_of
release_probe connection token b = release_of connection token b (Dict.get connection b.connections)
