-- ===== src/Usage/Examples.antt =====
-- Reports of usage, and what the adapter makes of them.
use sanare_agent_core.Base.{ℕ, ◌+◌, none, some, [], ◌∷◌, ◌≡◌, refl}
use sanare_agent_core.Json
use sanare_agent_core.Json.{Value, null, int, dict, Fields, field, get, find}
use sanare_agent_core.Usage.{Usage, checked_openai_usage, count_of, all_within}
use sanare_agent_core.Usage.Consistency.{checked_openai_usage-Cached}

abbrev report : ℕ → Fields
report total = field "prompt_tokens" (int 100) (
    field "completion_tokens" (int 20) (
      field "total_tokens" (int total) (
        field "prompt_cache_hit_tokens" (int 70)
          (field "prompt_cache_miss_tokens" (int 30) Json.end))))

abbrev usage : Usage
usage = record {
  incoming = 100;
  outgoing = 20;
  total = 120;
  input = ("cache_read", 70) ∷ [];
  output = [];
}

program : Unit {0}
unfolding checked_openai_usage count_of all_within get find
program = tt

accepted : checked_openai_usage (some (dict (report 120))) null ≡ some usage
unfolding program
accepted = refl

wrong_total : checked_openai_usage (some (dict (report 121))) null ≡ none
unfolding program
wrong_total = refl

checked_openai_usage-Cached_example :
    (get "prompt_tokens" (report 120) ≡ int usage.incoming)
    × (count_of "cache_read" usage.input ≡ 70)
    × (70 + 30 ≡ usage.incoming)
checked_openai_usage-Cached_example =
    checked_openai_usage-Cached (report 120) null 70 30 usage (unfold program in refl)
      (unfold program in refl) accepted
