-- ===== src/Swarm/Worker/Outcome.antt =====
-- What the result of a worker says of its call.
use sanare_agent_core.Base.{
  ℕ, String, Bool, true, false, Option, none, some, [], ◌∷◌, ◌≡◌, ◌≢◌, refl, sym, ◌∙◌, ap,
  Bool-cases, inl, inr, str_eq,
}
use mathlib.Core.Option.{some-injective}
use sanare_agent_core.Text.Strings.{strip}
use sanare_agent_core.Json.{Value, dict}
use sanare_agent_core.Json.Shapes.{is_one_of}
use sanare_agent_core.Execution.Progress.{finish_reason}
use sanare_agent_core.Breaker.{Breaker, admit, release_probe}
use sanare_agent_core.Swarm.{Subtask}
use sanare_agent_core.Swarm.Worker.{
  done, Failure, timed_out, refused_model, other, Answer, Call, not_made, raised, rejected,
  answered, cancelled, content_text, shortened, WorkerResult, result_of, read_result, Reading,
  failure_reading, failure_status, verdict, words_reading, answer_reading, reading, recorded,
  connection_of, unavailable, finished, after_admission, worker_call,
}

-- A result that is done: the call answered, its answer was not cut for its length and has a text that
-- is not blank, and the result holds that text as the source shortens it.
pub record Delivered (call : Call) (r : WorkerResult) : Type 0 where
  pub answer : Answer
  pub of : call ≡ answered answer
  pub whole :
      is_one_of (finish_reason (dict answer.metadata)) ("length" ∷ "max_tokens" ∷ []) ≡ false
  pub content : String
  pub read : content_text answer.content ≡ some content
  pub written : str_eq (strip content) "" ≡ false
  pub words : r.text ≡ shortened (strip content)

failure_status-done : (failure : Failure) → failure_status failure ≢ done
unfolding failure_status
failure_status-done timed_out h = cc
failure_status-done refused_model h = cc
failure_status-done (other name) h = cc

verdict-done :
    (reason : Value) (words : String)
    → (verdict reason words).0 ≡ done
    → (is_one_of reason ("length" ∷ "max_tokens" ∷ []) ≡ false) × (str_eq words "" ≡ false)
unfolding verdict
verdict-done reason words h = elim (Bool-cases (is_one_of reason ("length" ∷ "max_tokens" ∷ []))) [
  | inl cut ↦ absurd (cc (rw cut at h))
  | inr whole ↦ elim (Bool-cases (str_eq words "")) [
    | inl blank ↦ absurd (cc (rw (whole, blank) at h))
    | inr written ↦ (whole, written)
  ]
]

module _ (sub : Subtask) (r : WorkerResult) where
  -- The status of a result is that of its reading.
  status_of-reading :
      (k j : Reading) → some j ≡ some k → read_result sub k ≡ r → r.status ≡ done → j.status ≡ done
  unfolding read_result result_of
  status_of-reading k j e same h =
      ap (λ i. i.status) (some-injective j k e) ∙ ap (λ i. i.status) same ∙ h

  text_of-reading :
      (k j : Reading) → some j ≡ some k → read_result sub k ≡ r → r.text ≡ shortened j.words
  unfolding read_result result_of
  text_of-reading k j e same =
      ap (λ i. i.text) (sym same) ∙ ap (λ i. shortened i.words) (sym (some-injective j k e))

  failure-undone :
      (started : Bool) (failure : Failure) (usage : _) (k : Reading)
      → some (failure_reading started usage failure) ≡ some k
      → read_result sub k ≡ r
      → r.status ≢ done
  unfolding failure_reading
  failure-undone started failure usage k e same h =
      failure_status-done failure
        (status_of-reading k (failure_reading started usage failure) e same h)

  words_reading-Delivered :
      (a : Answer) (o : Option String) (k : Reading)
      → content_text a.content ≡ o
      → some (words_reading a (finish_reason (dict a.metadata)) o) ≡ some k
      → read_result sub k ≡ r
      → r.status ≡ done
      → Delivered (answered a) r
  unfolding words_reading
  words_reading-Delivered a none k read e same h = absurd (
      failure_status-done (other "TypeError")
        (status_of-reading k (words_reading a (finish_reason (dict a.metadata)) none) e same h))
  words_reading-Delivered a (some content) k read e same h =
      let j = words_reading a (finish_reason (dict a.metadata)) (some content) in
      let (whole, written) =
        verdict-done (finish_reason (dict a.metadata)) (strip content)
          (status_of-reading k j e same h) in
      record {
        answer = a;
        of = refl;
        whole = whole;
        content = content;
        read = read;
        written = written;
        words = text_of-reading k j e same;
      }

  reading-Delivered :
      (call : Call) (k : Reading)
      → reading call ≡ some k
      → read_result sub k ≡ r
      → r.status ≡ done
      → Delivered call r
  unfolding reading answer_reading
  reading-Delivered (not_made failure) k e same h =
      absurd (failure-undone false failure _ k e same h)
  reading-Delivered (raised failure transient) k e same h =
      absurd (failure-undone true failure _ k e same h)
  reading-Delivered (rejected failure usage) k e same h =
      absurd (failure-undone true failure usage k e same h)
  reading-Delivered (answered a) k e same h =
      words_reading-Delivered a (content_text a.content) k refl e same h
  reading-Delivered cancelled k e same h = absurd cc

  after_admission-Delivered :
      (now : ℕ) (call : Call) (a : (Option ℕ × ℕ) × Breaker)
      → (after_admission now sub call a).result ≡ some r
      → r.status ≡ done
      → (a.0.0 ≡ none) × Delivered call r
  unfolding after_admission unavailable
  after_admission-Delivered now call ((some remaining, token), b) e h = absurd (
      cc (
        status_of-reading unavailable unavailable refl
          (some-injective (read_result sub unavailable) r e) h))
  after_admission-Delivered now call ((none, token), b) e h = (refl, go (reading call) refl e)
    where
      go :
          (o : Option Reading)
          → reading call ≡ o
          → (finished sub o (
              release_probe
                (connection_of sub)
                token
                (recorded now (connection_of sub) call b))).result
            ≡ some r
          → Delivered call r
      go none read m = absurd cc
      go (some k) read m = reading-Delivered call k read (some-injective (read_result sub k) r m) h

  -- A worker's result is done only where its circuit let it in, and the model answered, was not cut
  -- for its length, and wrote a text that is not blank: the result holds that text stripped and, past
  -- 6000 characters, cut to its first 6000 with a mark.
  pub worker_call-Delivered :
      (now later : ℕ) (call : Call) (b : Breaker)
      → (worker_call now later sub call b).result ≡ some r
      → r.status ≡ done
      → ((admit now (connection_of sub) b).0.0 ≡ none) × Delivered call r
  unfolding worker_call
  worker_call-Delivered now later call b e h =
      after_admission-Delivered later call (admit now (connection_of sub) b) e h
