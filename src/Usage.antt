-- ===== src/Usage.antt =====
-- Token usage as a provider reports it (`_checked_openai_usage` of src/deep_agent/msty_models.py).
-- `none` stands for None, which the source gives for every malformed report, its own ValueError and
-- TypeError included. Of the usage the counts are kept, not the other keys of a supplied dictionary.
pub mod Consistency
mod Examples
use sanare_agent_core.Base.{
  ℕ, ◌+◌, String, Bool, true, false, ◌&&◌, Option, none, some, List, [], ◌∷◌, ◌++◌, leb, ◌==◌,
  if◌then◌else◌, str_eq,
}
use sanare_agent_core.Json
use sanare_agent_core.Json.{Value, null, int, dict, Fields, field, get, find, truthy}

abbrev pub Details : Type 0
Details = List (String × ℕ)

pub record Usage : Type 0 where
  pub incoming : ℕ
  pub outgoing : ℕ
  pub total : ℕ
  pub input : Details
  pub output : Details

infixl 5 ◌>>=◌
abbrev pub ◌>>=◌ {ℓ} : {A B : Type ℓ} → Option A → (A → Option B) → Option B
none >>= next = none
some value >>= next = next value

pub number : Value → Option ℕ
number (int n) = some n
number v = none

details_or_none : Value → Option Fields
details_or_none null = some Json.end
details_or_none (dict fs) = some fs
details_or_none v = none

-- A count that may be missing or None; under `target` in the details where it is there.
optional : String → String → Fields → Option Details
unfolding number
optional source target fs = elim (find source fs) [
  | none ↦ some []
  | some null ↦ some []
  | some v ↦ number v >>= λ n. some ((target, n) ∷ [])
]

-- The cached tokens by either name; both are the same where both are there.
pub cache_read : Details → Option Value → Option Details
unfolding number
cache_read read none = some read
cache_read [] (some v) = number v >>= λ hit. some (("cache_read", hit) ∷ [])
cache_read ((target, n) ∷ rest) (some v) =
    number v >>= λ hit. if n == hit then some (("cache_read", hit) ∷ []) else none

-- The tokens that missed the cache make up the rest of the prompt.
pub miss_fits : ℕ → Details → Option Value → Bool
unfolding number
miss_fits incoming read none = true
miss_fits incoming [] (some v) = false
miss_fits incoming ((target, n) ∷ rest) (some v) = elim (number v) [
  | none ↦ false
  | some miss ↦ miss + n == incoming
]

unfoldable pub count_of : String → Details → ℕ
count_of k [] = 0
count_of k ((j, n) ∷ ds) = if str_eq j k then n else count_of k ds

unfoldable pub all_within : ℕ → Details → Bool
all_within most [] = true
all_within most ((k, n) ∷ ds) = leb n most && all_within most ds

-- The checks that every report passes.
pub consistent : Usage → Bool
unfolding count_of all_within
consistent u =
    u.total == u.incoming + u.outgoing
    && leb (count_of "cache_read" u.input + count_of "cache_creation" u.input) u.incoming
    && all_within u.incoming u.input
    && all_within u.outgoing u.output

pub checked : Usage → Option Usage
unfolding consistent
checked u = if consistent u then some u else none

-- The details of a report, behind its three counts.
pub raw_details : Fields → ℕ → ℕ → ℕ → Fields → Fields → Option Usage
unfolding optional cache_read miss_fits
raw_details raw incoming outgoing total detail output = do
  cached ← optional "cached_tokens" "cache_read" detail
  written ← optional "cache_write_tokens" "cache_creation" detail
  heard ← optional "audio_tokens" "audio" detail
  read ← cache_read cached (find "prompt_cache_hit_tokens" raw)
  reasoned ← optional "reasoning_tokens" "reasoning" output
  spoken ← optional "audio_tokens" "audio" output
  if miss_fits incoming read (find "prompt_cache_miss_tokens" raw)
      then some (record {
        incoming = incoming;
        outgoing = outgoing;
        total = total;
        input = read ++ (written ++ heard);
        output = reasoned ++ spoken;
      })
      else none

pub raw_usage : Value → Option Usage
unfolding number details_or_none raw_details
raw_usage (dict raw) = do
  incoming ← number (get "prompt_tokens" raw)
  outgoing ← number (get "completion_tokens" raw)
  total ← number (get "total_tokens" raw)
  detail ← details_or_none (get "prompt_tokens_details" raw)
  output ← details_or_none (get "completion_tokens_details" raw)
  raw_details raw incoming outgoing total detail output
raw_usage v = none

-- Every value of the details is a count.
counts : Fields → Option Details
unfolding number
counts Json.end = some []
counts (field k v fs) = number v >>= (λ n. counts fs >>= (λ ds. some ((k, n) ∷ ds)))

counts_or_none : Value → Option Details
unfolding counts
counts_or_none (dict fs) = counts fs
counts_or_none v = if truthy v then none else some []

pub supplied_usage : Value → Option Usage
unfolding number counts_or_none
supplied_usage (dict value) = do
  incoming ← number (get "input_tokens" value)
  outgoing ← number (get "output_tokens" value)
  total ← number (get "total_tokens" value)
  input ← counts_or_none (get "input_token_details" value)
  output ← counts_or_none (get "output_token_details" value)
  some (record {
    incoming = incoming;
    outgoing = outgoing;
    total = total;
    input = input;
    output = output;
  })
supplied_usage v = none

-- `raw` is none where the adapter kept no report of the provider.
unfoldable pub checked_openai_usage : Option Value → Value → Option Usage
unfolding raw_usage supplied_usage checked
checked_openai_usage (some raw) supplied = raw_usage raw >>= checked
checked_openai_usage none supplied = supplied_usage supplied >>= checked
