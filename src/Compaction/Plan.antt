-- ===== src/Compaction/Plan.antt =====
-- Choosing what to summarise (`make_plan`, `_size` of src/deep_agent/msty_compaction.py): the
-- largest run of adjacent old bundles within the size limit that no segment overlaps.
pub mod Ranges
pub mod Soundness
use sanare_agent_core.Base.{
  ℕ, ◌+◌, ◌-◌, String, Bool, true, false, not, ◌&&◌, ◌||◌, Option, none, some, List, [], ◌∷◌,
  length, take, ltb, leb, ◌==◌, if◌then◌else◌,
}
use sanare_agent_core.Message.{Message, slice}
use sanare_agent_core.Compaction.Bundles.{bundles}
use sanare_agent_core.Compaction.Segments.{Segment, State, Digests, segments, max_segments}

abbrev pub max_source_bytes : ℕ
max_source_bytes = 400_000

abbrev pub min_source_bytes : ℕ
min_source_bytes = 16_384

pub record Plan : Type 0 where
  pub start : ℕ
  pub end : ℕ
  pub source_bytes : ℕ
  pub source_sha256 : String
  pub source : List Message

pub record Best : Type 0 where
  pub start : ℕ
  pub end : ℕ
  pub source_bytes : ℕ

-- messages[left:right] shares an index with a segment.
pub overlaps : ℕ → ℕ → List Segment → Bool
overlaps left right [] = false
overlaps left right (s ∷ ss) = (ltb left s.end && ltb s.start right) || overlaps left right ss

-- All bundles but the latest two.
abbrev pub candidates : List Message → List (ℕ × ℕ)
candidates messages = take (length (bundles messages) - 2) (bundles messages)

plan_of_best : Digests → List Message → Option Best → Option Plan
plan_of_best digests messages none = none
plan_of_best digests messages (some b) = some (record {
  start = b.start;
  end = b.end;
  source_bytes = b.source_bytes;
  source_sha256 = digests.source (slice b.start b.end messages);
  source = slice b.start b.end messages;
})

-- The length of each message as JSON is a parameter; a list adds its brackets and separators.
module _ (json_bytes : Message → ℕ) where
  pub weight : List Message → ℕ
  weight [] = 0
  weight (m ∷ ms) = json_bytes m + 2 + weight ms

  -- len(json.dumps(messages, ensure_ascii=False).encode('utf-8'))
  pub size : List Message → ℕ
  unfolding weight
  size [] = 2
  size (m ∷ ms) = weight (m ∷ ms)

  larger : ℕ → Option Best → Bool
  larger bytes none = true
  larger bytes (some b) = ltb b.source_bytes bytes

  better : ℕ → ℕ → ℕ → Option Best → Option Best
  unfolding larger
  better start end bytes best =
      if leb min_source_bytes bytes && larger bytes best
      then some (record { start = start; end = end; source_bytes = bytes })
      else best

  -- The inner loop: adjacent bundles from `start`, which reach to `cursor` and hold `bytes`.
  grow : List Message → List Segment → ℕ → ℕ → ℕ → Option Best → List (ℕ × ℕ) → Option Best
  unfolding overlaps size better
  grow messages ss start cursor bytes best [] = best
  grow messages ss start cursor bytes best ((left, end) ∷ rest) =
      let bytes' = bytes + size (slice left end messages) in
      let further = grow messages ss start end bytes' (better start end bytes' best) rest in
      if not (left == cursor) || overlaps left end ss || ltb max_source_bytes bytes'
      then best
      else further

  -- The outer loop: every candidate as a start.
  choose : List Message → List Segment → Option Best → List (ℕ × ℕ) → Option Best
  unfolding grow
  choose messages ss best [] = best
  choose messages ss best ((start, end) ∷ rest) =
      choose messages ss (grow messages ss start start 0 best ((start, end) ∷ rest)) rest

  plan_over : Digests → List Message → Option (List Segment) → Option (Option Plan)
  unfolding choose plan_of_best
  plan_over digests messages none = none
  plan_over digests messages (some ss) =
      if leb max_segments (length ss)
      then some none
      else some (plan_of_best digests messages (choose messages ss none (candidates messages)))

  -- `none`: the segments are refused; `some none`: there is nothing to plan.
  unfoldable pub make_plan : Digests → State → Option (Option Plan)
  unfolding plan_over
  make_plan digests state = plan_over digests state.messages (segments digests state)
