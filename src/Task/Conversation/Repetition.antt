-- ===== src/Task/Conversation/Repetition.antt =====
-- What a repetition that is reported stands for in the conversation.
use sanare_agent_core.Base.{
  ℕ, suc, ◌≤◌, true, false, some, List, [], ◌∷◌, leb, ◌==◌, ◌≡◌, sym, ap, subst, arith, Bool-cases,
  Option-cases, inl, inr, eq_iff,
}
use mathlib.Core.Option.{some-injective}
use sanare_agent_core.Base.Dict
use sanare_agent_core.Base.Dict.{get-put}
use sanare_agent_core.Json.{Fields}
use sanare_agent_core.Task.{Host}
use sanare_agent_core.Task.Conversation.{
  State, Key, Calls, same_key, times, next_calls, next_key, repeated_from, repeated_observation,
  current_messages,
}
use sanare_agent_core.Task.Conversation.Issued.{
  Answers, AllIssued, next_calls-AllIssued, next_key-Answers,
}

-- Messages behind those of `past`, the latest first.
unfoldable pub latest_first : List Fields → List Fields → List Fields
latest_first past [] = past
latest_first past (m ∷ ms) = latest_first (m ∷ past) ms

same_key-eq : (a b : Key) → same_key a b ≡ true → a ≡ b
unfolding same_key
same_key-eq a b h =
    let tool : a.tool_name ≡ b.tool_name = ground (arith, eq_iff a.tool_name b.tool_name) in
    let arguments : a.arguments_sha256 ≡ b.arguments_sha256 =
      ground (arith, eq_iff a.arguments_sha256 b.arguments_sha256) in
    let observed : a.observation_sha256 ≡ b.observation_sha256 =
      ground (arith, eq_iff a.observation_sha256 b.observation_sha256) in
    λ i. record {
      tool_name = tool i;
      arguments_sha256 = arguments i;
      observation_sha256 = observed i;
    }

module _ (host : Host) where
  -- Among these messages, the latest first, one answers a call of those before it under this key.
  pub data Once : List Fields → Key → Type 0 where
    now :
        (past : List Fields) (m : Fields) (k : Key) (answer : Answers host past m k)
        → Once (m ∷ past) k
    before : (past : List Fields) (m : Fields) (k : Key) (once : Once past k) → Once (m ∷ past) k

  -- Two of them do.
  pub data Twice : List Fields → Key → Type 0 where
    again :
        (past : List Fields) (m : Fields) (k : Key) (answer : Answers host past m k)
        (once : Once past k)
        → Twice (m ∷ past) k
    earlier :
        (past : List Fields) (m : Fields) (k : Key) (twice : Twice past k) → Twice (m ∷ past) k

  AllOnce : List Fields → List Key → Type 0
  AllOnce past seen = (k : Key) → (times k seen == 0) ≡ false → Once past k

  AllOnce-before :
      (past : List Fields) (m : Fields) (seen : List Key)
      → AllOnce past seen
      → AllOnce (m ∷ past) seen
  unfolding AllOnce
  AllOnce-before past m seen h k found = before past m k (h k found)

  AllOnce-now :
      (past : List Fields) (m : Fields) (k : Key) (seen : List Key)
      → Answers host past m k
      → AllOnce past seen
      → AllOnce (m ∷ past) (k ∷ seen)
  unfolding AllOnce times
  AllOnce-now past m k seen answer h j found = elim (Bool-cases (same_key j k)) [
    | inl same ↦ subst (Once (m ∷ past)) (sym (same_key-eq j k same)) (now past m k answer)
    | inr other ↦ before past m j (h j (rw other at found))
  ]

  latest_first-Twice :
      (past ms : List Fields) (k : Key) → Twice past k → Twice (latest_first past ms) k
  unfolding latest_first
  latest_first-Twice past [] k h = h
  latest_first-Twice past (m ∷ ms) k h = latest_first-Twice (m ∷ past) ms k (earlier past m k h)

  repeated_from-Twice :
      (past : List Fields) (calls : Calls) (seen : List Key) (ms : List Fields) (k : Key) (n : ℕ)
      → AllIssued host past calls
      → AllOnce past seen
      → repeated_from host calls seen ms ≡ some (k, n)
      → Twice (latest_first past ms) k × (2 ≤ n)
  unfolding repeated_from latest_first AllOnce
  repeated_from-Twice past calls seen [] k n issued once e = absurd cc
  repeated_from-Twice past calls seen (m ∷ ms) k n issued once e =
      elim (Option-cases (next_key host m calls)) [
        | inl no_key ↦
            repeated_from-Twice (m ∷ past) (next_calls host m calls) seen ms k n
              (next_calls-AllIssued host past m calls issued) (AllOnce-before past m seen once)
              (rw (no_key, repeated_from) at e)
        | inr (j, key) ↦
            let answer = next_key-Answers host past m calls j issued key in
            elim (Bool-cases (times j seen == 0)) [
              | inl first ↦
                  let few : leb 2 (suc (times j seen)) ≡ false = ground arith in
                  repeated_from-Twice (m ∷ past) (next_calls host m calls) (j ∷ seen) ms k n
                    (next_calls-AllIssued host past m calls issued)
                    (AllOnce-now past m j seen answer once) (rw (key, few, repeated_from) at e)
              | inr found ↦
                  let twice : leb 2 (suc (times j seen)) ≡ true = ground arith in
                  let same : (j, suc (times j seen)) ≡ (k, n) =
                    some-injective _ _ (rw (key, twice, repeated_from) at e) in
                  let counted : suc (times j seen) ≡ n = ap (λ p. p.1) same in
                  (
                    latest_first-Twice (m ∷ past) ms k (
                        subst (Twice (m ∷ past)) (ap (λ p. p.0) same)
                          (again past m j answer (once j found))),
                    ground (arith, counted, twice),
                  )
            ]
      ]

  -- A repetition is reported only where, among the messages of the current turn, two different ones
  -- are answers of tools to calls that the assistant made before them in this turn, both calls with
  -- the reported tool and the reported digest of the arguments, and both answers with the reported
  -- digest of content and name; and the count that is reported is at least two.
  pub repeated_observation-Twice :
      (s : State) (k : Key) (n : ℕ)
      → repeated_observation host s ≡ some (k, n)
      → Twice (latest_first [] (current_messages s.messages)) k × (2 ≤ n)
  unfolding repeated_observation AllOnce times Dict.get
  repeated_observation-Twice s k n e =
      repeated_from-Twice [] [] [] (current_messages s.messages) k n
        (λ id name sha256 found. absurd cc) (λ j found. absurd cc) e
