-- ===== src/Swarm/Worker/Circuit.antt =====
-- What a worker leaves of the circuit that let it in (`_worker_call` of src/deep_agent/msty_swarm.py,
-- with src/deep_agent/msty_breaker.py).
use sanare_agent_core.Base.{ℕ, ◌+◌, ◌-◌, true, Option, none, some, ltb, if◌then◌else◌}
use sanare_agent_core.Breaker.{Breaker, cooldown}
use sanare_agent_core.Swarm.Worker.{Call, raised}

-- What an admission at `m` answers behind a call that was the probe of its circuit and ended at
-- `later`: only a transient failure refuses, for its cooldown.
abbrev pub refused_for : ℕ → ℕ → Call → Option ℕ
refused_for later m (raised failure true) =
    if ltb m (later + cooldown) then some (later + cooldown - m) else none
refused_for later m call = none
