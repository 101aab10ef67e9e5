-- ===== src/Breaker/Examples.antt =====
-- The breaker's theorems at concrete runs, and runs of the functions themselves.
use sanare_agent_core.Base.{ℕ, ◌≡◌, refl, true, none, some, List, [], ◌∷◌, arith, ◌≢◌, ◌==◌}
use sanare_agent_core.Base.Dict
use sanare_agent_core.Breaker.{
  Breaker, reset, probing, admit, open_remaining, record_transient_failure, release_probe,
}
use sanare_agent_core.Breaker.Events.{
  Event, admitted, succeeded, failed_at, released, run, step, entry,
}
use sanare_agent_core.Breaker.Invariant.{AllSound, reachable-AllSound}
use sanare_agent_core.Breaker.Probe.{
  none_ends, probe_exclusive, probe_failure_reopens, release_owner, open_remaining-eq-admit,
}
use sanare_agent_core.Breaker.Streak.{streak, streak_admits, streak_opens}

abbrev empty : Breaker
empty = record { token_seq = 0; connections = [] }

-- Three failures, then an admission after the cooldown.
abbrev opened : List Event
opened = failed_at 10 "luna" ∷ failed_at 20 "luna" ∷ failed_at 30 "luna" ∷ []

abbrev half_open : List Event
half_open =
    failed_at 10 "luna" ∷ failed_at 20 "luna" ∷ failed_at 30 "luna" ∷ admitted 60_031 "luna" ∷ []

program : Unit {0}
unfolding run step streak none_ends admit open_remaining record_transient_failure release_probe
    Dict.put Dict.get Dict.remove
program = tt

probe_granted : (admit 60_031 "luna" (run opened empty)).0 ≡ (none, 1)
unfolding program
probe_granted = refl

refused_when_open : (admit 40 "luna" (run opened empty)).0 ≡ (some 59_990, 0)
unfolding program
refused_when_open = refl

half_open-entry : entry "luna" (run half_open empty) ≡ some (probing 60_031 1)
unfolding program
half_open-entry = refl

reachable-AllSound_example : AllSound (run half_open (reset empty))
reachable-AllSound_example = reachable-AllSound half_open empty

open_remaining-eq-admit_example :
    open_remaining 40 "luna" (run opened empty) ≡ (admit 40 "luna" (run opened empty)).0.0
open_remaining-eq-admit_example = open_remaining-eq-admit 40 "luna" (run opened empty)

abbrev meanwhile : List Event
meanwhile = admitted 60_040 "luna" ∷ succeeded "deepseek" ∷ released "luna" 7 ∷ []

meanwhile_quiet : none_ends "luna" 1 210_031 meanwhile ≡ true
unfolding program
meanwhile_quiet = refl

probe_exclusive_example :
    (admit 70_000 "luna" (run meanwhile (admit 60_031 "luna" (run opened empty)).1)).0
    ≡ (some 140_031, 0)
probe_exclusive_example =
    probe_exclusive 60_031 70_000 1 "luna" (run opened empty) meanwhile probe_granted (omega arith)
      meanwhile_quiet (omega arith)

release_owner_example :
    (◌≢◌ {A = ℕ} 7 1
      → entry "luna" (release_probe "luna" 7 (admit 60_031 "luna" (run opened empty)).1)
        ≡ some (probing 60_031 1))
    × ((admit 60_050 "luna" (release_probe "luna" 1 (admit 60_031 "luna" (run opened empty)).1)).0
        ≡ (none, 0))
    × ((record_transient_failure 60_050 "luna"
          (release_probe "luna" 1 (admit 60_031 "luna" (run opened empty)).1)).0
        ≡ true)
release_owner_example =
    release_owner 60_031 1 7 60_050 "luna" (run opened empty) probe_granted (omega arith)

abbrev two_failures : List Event
two_failures =
    failed_at 1 "luna"
    ∷ succeeded "luna"
    ∷ failed_at 10 "luna"
    ∷ failed_at 20 "deepseek"
    ∷ failed_at 20 "luna"
    ∷ []

two_streak : streak "luna" two_failures ≡ 2
unfolding program
two_streak = refl

streak_admits_example : (admit 25 "luna" (run two_failures (reset empty))).0 ≡ (none, 0)
streak_admits_example = streak_admits two_failures empty "luna" 25 (rw two_streak (omega arith))

streak_opens_example :
    ((record_transient_failure 30 "luna" (run two_failures (reset empty))).0
      ≡ (streak "luna" two_failures == 2))
    × (streak "luna" two_failures ≡ 2
        → open_remaining 40 "luna"
            (record_transient_failure 30 "luna" (run two_failures (reset empty))).1
          ≡ some 59_990)
streak_opens_example =
    streak_opens two_failures empty "luna" 30 40 (rw two_streak (omega arith)) (omega arith)

half_open_again : entry "luna" (run half_open (reset empty)) ≡ some (probing 60_031 1)
unfolding program
half_open_again = refl

probe_failure_reopens_example :
    ((record_transient_failure 60_050 "luna" (run half_open (reset empty))).0 ≡ true)
    × ((admit 60_100 "luna"
          (record_transient_failure 60_050 "luna" (run half_open (reset empty))).1).0
        ≡ (some 59_950, 0))
probe_failure_reopens_example =
    probe_failure_reopens half_open empty "luna" (probing 60_031 1) 60_050 60_100 half_open_again
      (λ h. cc) (omega arith)
