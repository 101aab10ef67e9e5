-- ===== src/Execution/Walk/Observation.antt =====
-- The results that a resume appends answer the calls of the batch, each once.
use sanare_agent_core.Base.{
  not, Bool, contains, distinct, distinct-snoc, distinct-le, all_in, all_in-contains,
  contains-all_in, contains-append, suc, String, true, false, not, ◌||◌, Option, List, [], ◌∷◌,
  ◌++◌, length, ◌≡◌, refl, sym, ap, ◌∙◌, subst, arith, Bool-cases, Option-cases, inl, inr,
}
use sanare_agent_core.Json
use sanare_agent_core.Json.{Fields, get, Value, null, int, text, dict, list, eq}
use sanare_agent_core.Execution.Limits.{
  ok, refuse, first_step, ok-injective, repeated_pending, pending_changed,
}
use sanare_agent_core.Execution.Progress.{ModelCall}
use sanare_agent_core.Execution.Walk.{
  Bound, bound_ids, find_bound, Seen, field_of, calls_of, function_of, see_id, resent_args,
  same_call, see_pending, see_call, see_calls, see_result, see_message, see_all, same_set,
}

-- The call that a message answers.
unfoldable pub answers : List Value → List Value
answers [] = []
answers (m ∷ ms) = field_of "tool_call_id" m ∷ answers ms

unfoldable pub texts : List String → List Value
texts [] = []
texts (x ∷ xs) = text x ∷ texts xs

answers-append :
    (ms : List Value) (m : Value)
    → answers (ms ++ m ∷ []) ≡ answers ms ++ field_of "tool_call_id" m ∷ []
unfolding answers
answers-append [] m = refl
answers-append (n ∷ ms) m = ap (λ l. field_of "tool_call_id" n ∷ l) (answers-append ms m)

texts-append : (xs : List String) (x : String) → texts (xs ++ x ∷ []) ≡ texts xs ++ text x ∷ []
unfolding texts
texts-append [] x = refl
texts-append (y ∷ xs) x = ap (λ l. text y ∷ l) (texts-append xs x)

length-answers : (ms : List Value) → length (answers ms) ≡ length ms
unfolding answers
length-answers [] = refl
length-answers (m ∷ ms) = ap suc (length-answers ms)

length-texts : (xs : List String) → length (texts xs) ≡ length xs
unfolding texts
length-texts [] = refl
length-texts (x ∷ xs) = ap suc (length-texts xs)

-- What was seen so far: the messages kept answer the ids noted, each once, in order.
record Noted (results : List String) (new : List Value) : Type 0 where
  ids : List String
  apart : distinct ids ≡ true
  same : (x : String) → contains x ids ≡ contains x results
  kept : answers new ≡ texts ids

abbrev NotedIn : Seen → Type 0
NotedIn s = Noted s.results s.new

Noted-snoc :
    (results : List String) (new : List Value) (x : String) (m : Value)
    → field_of "tool_call_id" m ≡ text x
    → contains x results ≡ false
    → Noted results new
    → Noted (x ∷ results) (new ++ m ∷ [])
unfolding contains
Noted-snoc results new x m named absent n = record {
  ids = n.ids ++ x ∷ [];
  apart = distinct-snoc n.ids x n.apart (n.same x ∙ absent);
  same = λ y. rw (contains-append y n.ids (x ∷ []), n.same y) (ground arith);
  kept = rw (answers-append new m, texts-append n.ids x, named, n.kept) refl;
}

module _ (digest : Value → String) (parse : String → Option Value) (bound : Bound) where
  see_pending-Noted :
      (id : String) (original : ModelCall) (call : Fields) (s next : Seen)
      → NotedIn s
      → see_pending digest parse id original call s ≡ ok next
      → NotedIn next
  unfolding see_pending
  see_pending-Noted id original call s next n h =
      let (a, first, rest) = first_step (refuse (contains id s.calls) repeated_pending) _ h in
      let (function, shaped, rest) = first_step (function_of (get "function" call)) _ rest in
      let (args, second, rest) =
        first_step (resent_args digest parse (get "arguments" function)) _ rest in
      let changed : Bool = not (same_call digest parse original (get "name" function) args) in
      let (b, third, last) = first_step (refuse changed pending_changed) _ rest in
      subst NotedIn (ok-injective _ next last) n

  see_id-Noted :
      (id : Value) (call : Fields) (s next : Seen)
      → NotedIn s
      → see_id digest parse bound id call s ≡ ok next
      → NotedIn next
  unfolding see_id
  see_id-Noted (text id) call s next n h = elim (Option-cases (find_bound id bound)) [
    | inl absent ↦ subst NotedIn (ok-injective s next (rw (absent, see_id) at h)) n
    | inr (original, found) ↦ see_pending-Noted id original call s next n (rw (found, see_id) at h)
  ]
  see_id-Noted null call s next n h = subst NotedIn (ok-injective s next h) n
  see_id-Noted (Json.bool b) call s next n h = subst NotedIn (ok-injective s next h) n
  see_id-Noted (int k) call s next n h = subst NotedIn (ok-injective s next h) n
  see_id-Noted (Json.negative k) call s next n h = subst NotedIn (ok-injective s next h) n
  see_id-Noted (list xs) call s next n h = cc
  see_id-Noted (dict fs) call s next n h = cc

  see_call-Noted :
      (call : Value) (s next : Seen)
      → NotedIn s
      → see_call digest parse bound call s ≡ ok next
      → NotedIn next
  unfolding see_call
  see_call-Noted (dict call) s next n h = see_id-Noted (get "id" call) call s next n h
  see_call-Noted null s next n h = cc
  see_call-Noted (Json.bool b) s next n h = cc
  see_call-Noted (int k) s next n h = cc
  see_call-Noted (Json.negative k) s next n h = cc
  see_call-Noted (text t) s next n h = cc
  see_call-Noted (list xs) s next n h = cc

  see_calls-Noted :
      (calls : List Value) (s next : Seen)
      → NotedIn s
      → see_calls digest parse bound calls s ≡ ok next
      → NotedIn next
  unfolding see_calls
  see_calls-Noted [] s next n h = subst NotedIn (ok-injective s next h) n
  see_calls-Noted (call ∷ calls) s next n h =
      let (m, first, rest) = first_step (see_call digest parse bound call s) _ h in
      see_calls-Noted calls m next (see_call-Noted call s m n first) rest

  see_result-Noted :
      (id message : Value) (s next : Seen)
      → field_of "tool_call_id" message ≡ id
      → NotedIn s
      → see_result digest parse bound id message s ≡ ok next
      → NotedIn next
  unfolding see_result
  see_result-Noted (text id) message s next named n h =
      elim (Bool-cases (contains id (bound_ids bound))) [
        | inl ours ↦ elim (Bool-cases (not (contains id s.calls) || contains id s.results)) [
          | inl stray ↦ cc (rw (ours, stray) at h)
          | inr first ↦
              subst NotedIn (ok-injective _ next (rw (ours, first) at h))
                (Noted-snoc s.results s.new id message named (ground arith) n)
        ]
        | inr other ↦ subst NotedIn (ok-injective s next (rw other at h)) n
      ]
  see_result-Noted null message s next named n h = subst NotedIn (ok-injective s next h) n
  see_result-Noted (Json.bool b) message s next named n h = subst NotedIn (ok-injective s next h) n
  see_result-Noted (int k) message s next named n h = subst NotedIn (ok-injective s next h) n
  see_result-Noted (Json.negative k) message s next named n h =
      subst NotedIn (ok-injective s next h) n
  see_result-Noted (list xs) message s next named n h = cc
  see_result-Noted (dict fs) message s next named n h = cc

  see_message-Noted :
      (message : Value) (s next : Seen)
      → NotedIn s
      → see_message digest parse bound message s ≡ ok next
      → NotedIn next
  unfolding see_message
  see_message-Noted message s next n h =
      elim (Bool-cases (eq (field_of "role" message) (text "assistant"))) [
        | inl assistant ↦
            let (calls, listed, rest) =
              first_step (calls_of (field_of "tool_calls" message)) _ (rw assistant at h) in
            see_calls-Noted calls s next n rest
        | inr other ↦ elim (Bool-cases (eq (field_of "role" message) (text "tool"))) [
          | inl tool ↦
              see_result-Noted (field_of "tool_call_id" message) message s next refl n
                (rw (other, tool) at h)
          | inr rest ↦ subst NotedIn (ok-injective s next (rw (other, rest) at h)) n
        ]
      ]

  see_all-Noted :
      (messages : List Value) (s next : Seen)
      → NotedIn s
      → see_all digest parse bound messages s ≡ ok next
      → NotedIn next
  unfolding see_all
  see_all-Noted [] s next n h = subst NotedIn (ok-injective s next h) n
  see_all-Noted (message ∷ messages) s next n h =
      let (m, first, rest) = first_step (see_message digest parse bound message s) _ h in
      see_all-Noted messages m next (see_message-Noted message s m n first) rest

-- Messages that answer the ids given, each once, and no other call.
pub record Answered (ids : List String) (new : List Value) : Type 0 where
  pub order : List String
  pub apart : distinct order ≡ true
  pub named : answers new ≡ texts order
  pub asked : all_in order ids ≡ true
  pub complete : all_in ids order ≡ true

Answered-length :
    (ids : List String) (new : List Value)
    → distinct ids ≡ true
    → Answered ids new
    → length new ≡ length ids
Answered-length ids new d a =
    let n : length new ≡ length a.order =
      sym (length-answers new) ∙ ap length a.named ∙ length-texts a.order in
    omega (arith, n, distinct-le ids a.order d a.complete, distinct-le a.order ids a.apart a.asked)

Noted-Answered :
    (ids results : List String) (new : List Value)
    → Noted results new
    → same_set results ids ≡ true
    → Answered ids new
unfolding same_set
Noted-Answered ids results new n h =
    let within : all_in results ids ≡ true = ground arith in
    let whole : all_in ids results ≡ true = ground arith in
    record {
      order = n.ids;
      apart = n.apart;
      named = n.kept;
      asked =
          contains-all_in n.ids ids
            (λ x found. all_in-contains results ids x within (sym (n.same x) ∙ found));
      complete =
          contains-all_in ids n.ids
            (λ x found. n.same x ∙ all_in-contains ids results x whole found);
    }

abbrev pub nothing_seen : Seen
nothing_seen = record { calls = []; results = []; new = [] }

-- Where the walk ends with all results of the batch seen, the messages that it keeps answer every
-- call of the batch exactly once, and there are as many as calls.
pub see_all-Answered :
    (digest : Value → String) (parse : String → Option Value) (bound : Bound)
    (messages : List Value) (seen : Seen)
    → distinct (bound_ids bound) ≡ true
    → see_all digest parse bound messages nothing_seen ≡ ok seen
    → same_set seen.results (bound_ids bound) ≡ true
    → Answered (bound_ids bound) seen.new × (length seen.new ≡ length (bound_ids bound))
see_all-Answered digest parse bound messages seen d h all =
    let start : NotedIn nothing_seen =
      unfold distinct answers texts in
      record { ids = []; apart = refl; same = λ x. refl; kept = refl } in
    let a : Answered (bound_ids bound) seen.new =
      Noted-Answered (bound_ids bound) seen.results seen.new
        (see_all-Noted digest parse bound messages nothing_seen seen start h) all in
    (a, Answered-length (bound_ids bound) seen.new d a)
