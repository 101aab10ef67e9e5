-- ===== src/Stream/Examples.antt =====
-- A relay that is fed two lines, and a stream whose transport breaks behind its first text.
use sanare_agent_core.Base.{true, false, List, [], ◌∷◌, ◌≡◌, refl}
use sanare_agent_core.Text.{codes, bytes, width}
use sanare_agent_core.Stream.Relay
use sanare_agent_core.Stream.Relay.{Outside, Relay, fresh_relay}
use sanare_agent_core.Stream.Relay.Bounded.{Op, fed, flushed, run, IsBounded, run-IsBounded}
use sanare_agent_core.Stream.Published.{
  text_delta, text_invalidated, Item, chunk, broken, fresh_stream, invoke, finish_with,
}
use sanare_agent_core.Stream.Published.Honest.{IsHonest, invoke-IsHonest}

abbrev outside : Outside
outside = record { redact = λ t. t; takes = λ n. true }

abbrev ops : List Op
ops = fed (codes "one\ntwo") ∷ flushed ∷ []

relayed : (run outside ops fresh_relay).events ≡ (1, codes "two") ∷ (0, codes "one\n") ∷ []
unfolding run fresh_relay Relay.cut_last Relay.has_line Relay.emit Relay.write bytes width
relayed = refl

run-IsBounded_example : IsBounded (run outside ops fresh_relay)
run-IsBounded_example = run-IsBounded outside ops

abbrev items : List Item
items = chunk (codes "so") false ∷ []

takes_back :
    (invoke broken items (fresh_stream false)).1.events
    ≡ text_invalidated ∷ text_delta 0 (codes "so") ∷ []
unfolding invoke fresh_stream bytes width
takes_back = refl

invoke-IsHonest_example :
    IsHonest
      (codes "so")
      false
      ((invoke broken items (fresh_stream false)).0)
      (finish_with (codes "so") false (invoke broken items (fresh_stream false)))
invoke-IsHonest_example = invoke-IsHonest broken items false (codes "so") false
