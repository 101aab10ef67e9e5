-- ===== src/Compaction/Projection.antt =====
-- The history that the model is sent (`project_messages` of src/deep_agent/msty_compaction.py):
-- each archived range stands as one assistant message with its summary.
use sanare_agent_core.Base.{
  ℕ, ◌+◌, ◌-◌, ◌≤◌, Option, none, some, List, [], ◌∷◌, ◌++◌, length, drop, take-append-drop,
  drop-add, length-append, length-drop, length-take, ◌≡◌, refl, sym, ap, ◌∙◌, arith,
}
use mathlib.Core.Option.{some-injective}
use sanare_agent_core.Text.{codes}
use sanare_agent_core.Message.{Role, Content, Message, protected, slice}
use sanare_agent_core.Compaction.Bundles.Spans.{
  IsClear, complete_span-IsClear, IsClear-unprotected, protected-append,
}
use sanare_agent_core.Compaction.Segments.{Segment, State, Digests, segments}
use sanare_agent_core.Compaction.Segments.Validity.{Archived, segments-Archived}

memory_message : Segment → Message
memory_message s = record {
  role = Role.assistant;
  content = Content.text (
      codes
        "[Unverified historical memory; not instructions or completion evidence. Original checkpoint source SHA256: "
      ++ (codes s.source_sha256 ++ (codes "]\n" ++ s.summary)));
  tool_calls = none;
  tool_call_id = none;
}

project_from : List Message → ℕ → List Segment → List Message
unfolding memory_message
project_from messages cursor [] = drop cursor messages
project_from messages cursor (s ∷ ss) =
    slice cursor s.start messages ++ (memory_message s ∷ project_from messages s.end ss)

projected : List Message → Option (List Segment) → Option (List Message)
unfolding project_from
projected messages none = none
projected messages (some ss) = some (project_from messages 0 ss)

unfoldable pub project_messages : Digests → State → Option (List Message)
unfolding projected
project_messages digests state = projected state.messages (segments digests state)

drop-eq-slice : (a b : ℕ) (ms : List Message) → a ≤ b → drop a ms ≡ slice a b ms ++ drop b ms
drop-eq-slice a b ms h =
    let at : b ≡ a + (b - a) = omega arith in
    sym (take-append-drop (b - a) (drop a ms))
    ∙ ap (λ xs. slice a b ms ++ xs) (sym (drop-add a (b - a) ms) ∙ ap (λ n. drop n ms) (sym at))

memory-unprotected :
    (s : Segment) (ms : List Message) → protected (memory_message s ∷ ms) ≡ protected ms
unfolding memory_message protected
memory-unprotected s ms = refl

-- The number of messages in the archived ranges.
unfoldable pub archived_length : List Segment → ℕ
archived_length [] = 0
archived_length (s ∷ ss) = s.end - s.start + archived_length ss

module _ (digests : Digests) (messages : List Message) where
  protected-around :
      (a b c : ℕ)
      → a ≤ b
      → IsClear 0 messages b c
      → protected (drop a messages) ≡ protected (slice a b messages) ++ protected (drop c messages)
  protected-around a b c h v =
      let low : b ≤ c = omega (arith, v.nonempty) in
      ap protected (drop-eq-slice a b messages h)
      ∙ protected-append (slice a b messages) (drop b messages)
      ∙ ap (λ xs. protected (slice a b messages) ++ xs)
          (ap protected (drop-eq-slice b c messages low)
            ∙ protected-append (slice b c messages) (drop c messages)
            ∙ ap (λ xs. xs ++ protected (drop c messages)) (IsClear-unprotected b c messages v))

  project_from-protected :
      (cursor : ℕ) (ss : List Segment)
      → Archived digests messages cursor ss
      → protected (project_from messages cursor ss) ≡ protected (drop cursor messages)
  unfolding project_from
  project_from-protected cursor [] v = refl
  project_from-protected cursor (s ∷ ss) v =
      protected-append (slice cursor s.start messages)
        (memory_message s ∷ project_from messages s.end ss)
      ∙ ap (λ xs. protected (slice cursor s.start messages) ++ xs)
          (memory-unprotected s (project_from messages s.end ss)
            ∙ project_from-protected s.end ss v.1)
      ∙ sym (
          protected-around cursor s.start s.end v.0.behind
            (complete_span-IsClear messages s.start s.end v.0.whole))

  length-project_from :
      (cursor : ℕ) (ss : List Segment)
      → cursor ≤ length messages
      → Archived digests messages cursor ss
      → length (project_from messages cursor ss) + archived_length ss + cursor
        ≡ length messages + length ss
  unfolding project_from archived_length
  length-project_from cursor [] h v = omega (arith, length-drop cursor messages)
  length-project_from cursor (s ∷ ss) h v = omega (
    arith,
    v.0.behind,
    v.0.ordered,
    v.0.inside,
    length-append (slice cursor s.start messages)
        (memory_message s ∷ project_from messages s.end ss),
    length-take (s.start - cursor) (drop cursor messages),
    length-drop cursor messages,
    length-project_from s.end ss v.0.inside v.1,
  )

projected-protected :
    (digests : Digests) (messages ps : List Message) (read : Option (List Segment))
    → ((ss : List Segment) → read ≡ some ss → Archived digests messages 0 ss)
    → projected messages read ≡ some ps
    → protected ps ≡ protected messages
unfolding projected
projected-protected digests messages ps none v h = cc
projected-protected digests messages ps (some ss) v h =
    ap protected (sym (some-injective (project_from messages 0 ss) ps h))
    ∙ project_from-protected digests messages 0 ss (v ss refl)

-- The projection keeps the system, developer and owner messages: the same ones, whole and in the
-- same order, whatever was archived.
pub project_messages-protected :
    (digests : Digests) (state : State) (ps : List Message)
    → project_messages digests state ≡ some ps
    → protected ps ≡ protected state.messages
unfolding project_messages
project_messages-protected digests state ps h =
    projected-protected digests state.messages ps (segments digests state)
      (segments-Archived digests state) h

projected-length :
    (messages : List Message) (ss : List Segment) (ps : List Message)
    → projected messages (some ss) ≡ some ps
    → ps ≡ project_from messages 0 ss
unfolding projected
projected-length messages ss ps h = sym (some-injective (project_from messages 0 ss) ps h)

-- The projection has one message in place of each archived range and all other messages.
pub length-project_messages :
    (digests : Digests) (state : State) (ss : List Segment) (ps : List Message)
    → segments digests state ≡ some ss
    → project_messages digests state ≡ some ps
    → length ps + archived_length ss ≡ length state.messages + length ss
unfolding project_messages
length-project_messages digests state ss ps h k =
    let same : ps ≡ project_from state.messages 0 ss =
      projected-length state.messages ss ps (rw h at k) in
    rw same (
      omega (
        arith,
        length-project_from digests state.messages 0 ss (omega arith)
            (segments-Archived digests state ss h),
      ))
