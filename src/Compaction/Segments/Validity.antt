-- ===== src/Compaction/Segments/Validity.antt =====
-- What a read of the archived segments guarantees.
use sanare_agent_core.Base.{
  ℕ, ◌≤◌, ◌<◌, String, true, Option, none, some, List, [], ◌∷◌, length, leb, ◌≡◌, ◌≢◌, refl, ◌∙◌,
  arith, Bool-cases, subst, inl, inr, str_eq, eq_iff, &&-true,
}
use mathlib.Core.Option.{some-injective}
use sanare_agent_core.Message.{Message, slice}
use sanare_agent_core.Compaction.Bundles.{complete_span}
use sanare_agent_core.Compaction.Segments.{
  Segment, Memory, State, Digests, segment_ok, segments_ok, accepted, checked, segments,
  find_source, source_of, source_messages, max_segments,
}

module _ (digests : Digests) (messages : List Message) where
  -- A segment behind those that end at `from`: in range, with the digests of what it stands for.
  pub record IsArchived (from : ℕ) (s : Segment) : Type 0 where
    pub behind : from ≤ s.start
    pub ordered : s.start < s.end
    pub inside : s.end ≤ length messages
    pub named : s.summary ≢ []
    pub source_digest : digests.source (slice s.start s.end messages) ≡ s.source_sha256
    pub summary_digest : digests.text s.summary ≡ s.summary_sha256
    pub whole : complete_span messages s.start s.end ≡ true

  abbrev pub Archived : ℕ → List Segment → Type 0
  Archived from [] = Unit {0}
  Archived from (s ∷ ss) = IsArchived from s × Archived s.end ss

  segment_ok-IsArchived :
      (from : ℕ) (s : Segment) → segment_ok digests messages from s ≡ true → IsArchived from s
  unfolding segment_ok
  segment_ok-IsArchived from s h = ground (
    arith,
    eq_iff (digests.source (slice s.start s.end messages)) s.source_sha256,
    eq_iff (digests.text s.summary) s.summary_sha256,
  )

  IsArchived-segment_ok :
      (from : ℕ) (s : Segment) → IsArchived from s → segment_ok digests messages from s ≡ true
  unfolding segment_ok
  IsArchived-segment_ok from s v = ground (
    arith,
    eq_iff (digests.source (slice s.start s.end messages)) s.source_sha256,
    eq_iff (digests.text s.summary) s.summary_sha256,
  )

  segments_ok-Archived :
      (from : ℕ) (ss : List Segment)
      → segments_ok digests messages from ss ≡ true
      → Archived from ss
  unfolding segments_ok
  segments_ok-Archived from [] h = tt
  segments_ok-Archived from (s ∷ ss) h =
      let (here, later) = &&-true _ _ h in
      (segment_ok-IsArchived from s here, segments_ok-Archived s.end ss later)

  pub Archived-segments_ok :
      (from : ℕ) (ss : List Segment)
      → Archived from ss
      → segments_ok digests messages from ss ≡ true
  unfolding segments_ok
  Archived-segments_ok from [] v = refl
  Archived-segments_ok from (s ∷ ss) v =
      rw (IsArchived-segment_ok from s v.0, Archived-segments_ok s.end ss v.1)

  checked-Archived :
      (memory : Option Memory) (ss : List Segment)
      → checked digests messages memory ≡ some ss
      → Archived 0 ss
  unfolding checked
  checked-Archived none ss h = subst (Archived 0) (some-injective [] ss h) tt
  checked-Archived (some memory) ss h = elim (Bool-cases (accepted digests messages memory)) [
    | inl ok ↦
        let same : memory.segments ≡ ss = some-injective memory.segments ss (rw ok at h) in
        let (format, sound) = &&-true _ _ ok in
        subst (Archived 0) same (segments_ok-Archived 0 memory.segments sound)
    | inr bad ↦ cc (rw bad at h)
  ]

  -- A segment that a source is found under stands for messages with that digest.
  find_source-digest :
      (from : ℕ) (ss : List Segment) (sha : String) (found : List Message)
      → Archived from ss
      → find_source digests messages sha ss ≡ some found
      → digests.source found ≡ sha
  unfolding find_source
  find_source-digest from [] sha found v h = cc
  find_source-digest from (s ∷ ss) sha found v h = elim (Bool-cases (str_eq s.source_sha256 sha)) [
    | inl here ↦
        let slice_found : slice s.start s.end messages ≡ found =
          some-injective _ found (rw here at h) in
        subst (λ ms. digests.source ms ≡ sha) slice_found
          (v.0.source_digest ∙ (eq_iff s.source_sha256 sha).0 here)
    | inr later ↦ find_source-digest s.end ss sha found v.1 (rw later at h)
  ]

-- Every segment that a read hands out lies behind the one before it and inside the history, has a
-- summary, carries the digests of its messages and of its summary, and is made of whole bundles.
pub segments-Archived :
    (digests : Digests) (state : State) (ss : List Segment)
    → segments digests state ≡ some ss
    → Archived digests state.messages 0 ss
unfolding segments
segments-Archived digests state ss h =
    checked-Archived digests state.messages state.context_memory ss h

source_of-digest :
    (digests : Digests) (messages : List Message) (read : Option (List Segment)) (sha : String)
    (found : List Message)
    → ((ss : List Segment) → read ≡ some ss → Archived digests messages 0 ss)
    → source_of digests messages sha read ≡ some found
    → digests.source found ≡ sha
unfolding source_of
source_of-digest digests messages none sha found v h = cc
source_of-digest digests messages (some ss) sha found v h =
    find_source-digest digests messages 0 ss sha found (v ss refl) h

-- What is read back under a digest has that digest.
pub source_messages-digest :
    (digests : Digests) (state : State) (sha : String) (found : List Message)
    → source_messages digests state sha ≡ some found
    → digests.source found ≡ sha
unfolding source_messages
source_messages-digest digests state sha found h =
    source_of-digest digests state.messages (segments digests state) sha found
      (segments-Archived digests state) h

-- Segments that are archived, no more than the limit, are accepted when the checkpoint is read.
pub segments-of_Archived :
    (digests : Digests) (state : State) (ss : List Segment)
    → length ss ≤ max_segments
    → Archived digests state.messages 0 ss
    → segments digests
        (record state { context_memory = some (record { version = 1; segments = ss }) })
      ≡ some ss
unfolding segments
segments-of_Archived digests state ss h v =
    let fits : leb (length ss) max_segments ≡ true = ground arith in
    rw (fits, Archived-segments_ok digests state.messages 0 ss v)
