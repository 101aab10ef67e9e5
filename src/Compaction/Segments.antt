-- ===== src/Compaction/Segments.antt =====
-- The archived segments of a checkpoint and their validation on every read (`_segments`,
-- `source_messages` of src/deep_agent/msty_compaction.py). `none` stands for the raised
-- ExecutionProtocolError. The digests are parameters: SHA-256 over canonical JSON.
pub mod Validity
pub mod Order
use sanare_agent_core.Base.{
  ℕ, String, Bool, true, false, not, ◌&&◌, Option, none, some, List, [], ◌∷◌, length, ltb, leb,
  ◌==◌, if◌then◌else◌, str_eq,
}
use sanare_agent_core.Text.{Text}
use sanare_agent_core.Message.{Message, slice}
use sanare_agent_core.Compaction.Bundles.{complete_span}

abbrev pub max_segments : ℕ
max_segments = 64

pub record Segment : Type 0 where
  pub start : ℕ
  pub end : ℕ
  pub source_sha256 : String
  pub summary_sha256 : String
  pub summary : Text

pub record Memory : Type 0 where
  pub version : ℕ
  pub segments : List Segment

pub record State : Type 0 where
  pub messages : List Message
  pub context_memory : Option Memory

-- canonical_digest, of a range of messages and of a text.
pub record Digests : Type 0 where
  pub source : List Message → String
  pub text : Text → String

abbrev is_empty : Text → Bool
is_empty [] = true
is_empty (c ∷ t) = false

-- Behind every segment that starts no later.
insert_by_start : Segment → List Segment → List Segment
insert_by_start x [] = x ∷ []
insert_by_start x (s ∷ ss) = if leb s.start x.start then s ∷ insert_by_start x ss else x ∷ s ∷ ss

sort_from : List Segment → List Segment → List Segment
unfolding insert_by_start
sort_from sorted [] = sorted
sort_from sorted (x ∷ xs) = sort_from (insert_by_start x sorted) xs

-- sorted(segments, key=lambda s: s['start']), which is stable.
unfoldable pub sort_by_start : List Segment → List Segment
unfolding sort_from
sort_by_start = sort_from []

module _ (digests : Digests) where
  open digests use {source as digest, text as digest_text}

  -- The test of one segment, where the segments before it end at `from`.
  unfoldable pub segment_ok : List Message → ℕ → Segment → Bool
  segment_ok messages from s =
      leb from s.start
      && ltb s.start s.end
      && leb s.end (length messages)
      && not (is_empty s.summary)
      && str_eq (digest (slice s.start s.end messages)) s.source_sha256
      && str_eq (digest_text s.summary) s.summary_sha256
      && complete_span messages s.start s.end

  unfoldable pub segments_ok : List Message → ℕ → List Segment → Bool
  segments_ok messages from [] = true
  segments_ok messages from (s ∷ ss) = segment_ok messages from s && segments_ok messages s.end ss

  abbrev accepted : List Message → Memory → Bool
  accepted messages memory =
      (memory.version == 1 && leb (length memory.segments) max_segments)
      && segments_ok messages 0 memory.segments

  checked : List Message → Option Memory → Option (List Segment)
  unfolding segments_ok
  checked messages none = some []
  checked messages (some memory) = if accepted messages memory then some memory.segments else none

  unfoldable pub segments : State → Option (List Segment)
  unfolding checked
  segments state = checked state.messages state.context_memory

  find_source : List Message → String → List Segment → Option (List Message)
  find_source messages sha [] = none
  find_source messages sha (s ∷ ss) =
      if str_eq s.source_sha256 sha
      then some (slice s.start s.end messages)
      else find_source messages sha ss

  source_of : List Message → String → Option (List Segment) → Option (List Message)
  unfolding find_source
  source_of messages sha none = none
  source_of messages sha (some ss) = find_source messages sha ss

  -- The original messages of an archived source.
  unfoldable pub source_messages : State → String → Option (List Message)
  unfolding source_of
  source_messages state sha = source_of state.messages sha (segments state)
