-- ===== src/Usage/Consistency.antt =====
-- What an accepted usage can be: its counts add up, and its cached tokens are the provider's.
use sanare_agent_core.Base.{
  ℕ, ◌+◌, ◌≤◌, String, Bool, true, false, Option, none, some, [], ◌∷◌, ◌++◌, ◌==◌, ==_iff,
  if◌then◌else◌, str_eq, ◌≡◌, refl, sym, ap, subst, arith, Bool-cases, inl, inr,
}
use mathlib.Core.Option.{some-injective}
use sanare_agent_core.Json
use sanare_agent_core.Json.{Value, null, int, text, dict, list, Fields, get, find}
use sanare_agent_core.Usage.{
  Usage, Details, ◌>>=◌, number, details_or_none, optional, cache_read, miss_fits, count_of,
  all_within, consistent, checked, raw_details, raw_usage, checked_openai_usage,
}

-- A part of a report that is read gives a count, and the rest is read on from it.
read_step {ℓ} :
    {A B : Type ℓ} (part : Option A) (rest : A → Option B) {last : B}
    → (part >>= rest) ≡ some last
    → (value : A) × (part ≡ some value) × (rest value ≡ some last)
read_step none rest h = cc
read_step (some value) rest h = (value, refl, h)

all_within-le :
    (most : ℕ) (ds : Details) (k : String) → all_within most ds ≡ true → count_of k ds ≤ most
unfolding all_within count_of
all_within-le most [] k h = omega arith
all_within-le most ((j, n) ∷ ds) k h = elim (Bool-cases (str_eq j k)) [
  | inl same ↦ rw same (ground arith)
  | inr other ↦ rw other (all_within-le most ds k (ground arith))
]

-- The counts of a usage add up, and no detail exceeds what it is a detail of.
pub record Balanced (u : Usage) : Type 0 where
  pub sum : u.total ≡ u.incoming + u.outgoing
  pub cached : count_of "cache_read" u.input + count_of "cache_creation" u.input ≤ u.incoming
  pub prompt : (k : String) → count_of k u.input ≤ u.incoming
  pub answer : (k : String) → count_of k u.output ≤ u.outgoing

checked-Balanced : (v u : Usage) → checked v ≡ some u → Balanced u × (v ≡ u)
unfolding checked consistent
checked-Balanced v u h = elim (Bool-cases (consistent v)) [
  | inl good ↦
      let e : v ≡ u = some-injective v u (rw (good, checked) at h) in
      let within : all_within v.incoming v.input ≡ true = ground arith in
      let without : all_within v.outgoing v.output ≡ true = ground arith in
      (
        subst Balanced e (record {
          sum = (==_iff v.total (v.incoming + v.outgoing)).0 (ground arith);
          cached = ground arith;
          prompt = λ k. all_within-le v.incoming v.input k within;
          answer = λ k. all_within-le v.outgoing v.output k without;
        }),
        e,
      )
  | inr bad ↦ cc (rw (bad, checked) at h)
]

number-int : (v : Value) (n : ℕ) → number v ≡ some n → v ≡ int n
unfolding number
number-int (int k) n h = ap int (some-injective k n h)
number-int null n h = cc
number-int (Json.bool b) n h = cc
number-int (Json.negative k) n h = cc
number-int (text t) n h = cc
number-int (list xs) n h = cc
number-int (dict fs) n h = cc

cache_read-hit :
    (cached read : Details) (hit : ℕ)
    → cache_read cached (some (int hit)) ≡ some read
    → read ≡ ("cache_read", hit) ∷ []
unfolding cache_read number
cache_read-hit [] read hit h = sym (some-injective _ read h)
cache_read-hit ((target, n) ∷ ds) read hit h = elim (Bool-cases (n == hit)) [
  | inl same ↦ sym (some-injective _ read (rw same at h))
  | inr other ↦ cc (rw other at h)
]

cache_read-at :
    (cached read : Details) (v : Option Value) (hit : ℕ)
    → v ≡ some (int hit)
    → cache_read cached v ≡ some read
    → read ≡ ("cache_read", hit) ∷ []
cache_read-at cached read v hit at h =
    cache_read-hit cached read hit (subst (λ o. cache_read cached o ≡ some read) at h)

miss_fits-sum :
    (incoming hit miss : ℕ) (rest : Details)
    → miss_fits incoming (("cache_read", hit) ∷ rest) (some (int miss)) ≡ true
    → miss + hit ≡ incoming
unfolding miss_fits number
miss_fits-sum incoming hit miss rest h = (==_iff (miss + hit) incoming).0 h

miss_fits-at :
    (incoming hit miss : ℕ) (read : Details) (v : Option Value)
    → read ≡ ("cache_read", hit) ∷ []
    → v ≡ some (int miss)
    → miss_fits incoming read v ≡ true
    → miss + hit ≡ incoming
miss_fits-at incoming hit miss read v first at h = miss_fits-sum incoming hit miss [] (
    subst (λ o. miss_fits incoming (("cache_read", hit) ∷ []) o ≡ true) at
      (subst (λ r. miss_fits incoming r v ≡ true) first h))

kept : (b : Bool) (v u : Usage) → (if b then some v else none) ≡ some u → (b ≡ true) × (v ≡ u)
kept true v u h = (refl, some-injective v u h)
kept false v u h = cc

-- A usage with the cache counts of the report it was read from.
abbrev pub Cached : Fields → ℕ → ℕ → Usage → Type 0
Cached raw hit miss u =
    (get "prompt_tokens" raw ≡ int u.incoming)
    × (count_of "cache_read" u.input ≡ hit)
    × (hit + miss ≡ u.incoming)

raw_details-Cached :
    (raw : Fields) (incoming outgoing total hit miss : ℕ) (detail output : Fields) (u : Usage)
    → get "prompt_tokens" raw ≡ int incoming
    → find "prompt_cache_hit_tokens" raw ≡ some (int hit)
    → find "prompt_cache_miss_tokens" raw ≡ some (int miss)
    → raw_details raw incoming outgoing total detail output ≡ some u
    → Cached raw hit miss u
unfolding raw_details
raw_details-Cached raw incoming outgoing total hit miss detail output u prompt hit_at miss_at h0 =
    let (cached, e, h1) = read_step (optional "cached_tokens" "cache_read" detail) _ h0 in
    let (written, f, h2) = read_step (optional "cache_write_tokens" "cache_creation" detail) _ h1 in
    let (heard, g, h3) = read_step (optional "audio_tokens" "audio" detail) _ h2 in
    let (read, i, h4) = read_step (cache_read cached (find "prompt_cache_hit_tokens" raw)) _ h3 in
    let (reasoned, j, h5) = read_step (optional "reasoning_tokens" "reasoning" output) _ h4 in
    let (spoken, k, h6) = read_step (optional "audio_tokens" "audio" output) _ h5 in
    let first : read ≡ ("cache_read", hit) ∷ [] =
      cache_read-at cached read (find "prompt_cache_hit_tokens" raw) hit hit_at i in
    let (fits, same) =
      kept (miss_fits incoming read (find "prompt_cache_miss_tokens" raw)) _ u h6 in
    let sum : miss + hit ≡ incoming =
      miss_fits-at incoming hit miss read (find "prompt_cache_miss_tokens" raw) first miss_at
        fits in
    let found : count_of "cache_read" (read ++ (written ++ heard)) ≡ hit =
      subst (λ r. count_of "cache_read" (r ++ (written ++ heard)) ≡ hit) (sym first)
        (unfold count_of in refl) in
    subst (Cached raw hit miss) same (prompt, found, omega (arith, sum))

raw_usage-Cached :
    (raw : Fields) (hit miss : ℕ) (u : Usage)
    → find "prompt_cache_hit_tokens" raw ≡ some (int hit)
    → find "prompt_cache_miss_tokens" raw ≡ some (int miss)
    → raw_usage (dict raw) ≡ some u
    → Cached raw hit miss u
unfolding raw_usage
raw_usage-Cached raw hit miss u hit_at miss_at h0 =
    let (incoming, prompt, h1) = read_step (number (get "prompt_tokens" raw)) _ h0 in
    let (outgoing, a, h2) = read_step (number (get "completion_tokens" raw)) _ h1 in
    let (total, b, h3) = read_step (number (get "total_tokens" raw)) _ h2 in
    let (detail, c, h4) = read_step (details_or_none (get "prompt_tokens_details" raw)) _ h3 in
    let (output, d, h5) = read_step (details_or_none (get "completion_tokens_details" raw)) _ h4 in
    raw_details-Cached raw incoming outgoing total hit miss detail output u
      (number-int (get "prompt_tokens" raw) incoming prompt) hit_at miss_at h5

-- Where the provider reports cache hits and misses, an accepted usage has the reported prompt, its
-- cached tokens are the hits, and hits and misses make up the prompt.
pub checked_openai_usage-Cached :
    (raw : Fields) (supplied : Value) (hit miss : ℕ) (u : Usage)
    → find "prompt_cache_hit_tokens" raw ≡ some (int hit)
    → find "prompt_cache_miss_tokens" raw ≡ some (int miss)
    → checked_openai_usage (some (dict raw)) supplied ≡ some u
    → (get "prompt_tokens" raw ≡ int u.incoming)
      × (count_of "cache_read" u.input ≡ hit)
      × (hit + miss ≡ u.incoming)
unfolding checked_openai_usage
checked_openai_usage-Cached raw supplied hit miss u hit_at miss_at h =
    let (v, read, last) = read_step (raw_usage (dict raw)) _ h in
    subst (Cached raw hit miss) (checked-Balanced v u last).1
      (raw_usage-Cached raw hit miss v hit_at miss_at read)
