-- ===== src/Compaction/Commit.antt =====
-- Committing a summary to the checkpoint (`_commit`, `summary_limit`, `mechanical_summary`,
-- `accept_mechanical` of src/deep_agent/msty_compaction.py). `none` stands for the raised
-- ExecutionProtocolError; the fresh stage id and the JSON text of a non-text content are parameters.
pub mod Readable
use sanare_agent_core.Base.{
  ℕ, ◌/◌, min, String, Bool, ◌&&◌, Option, none, some, List, [], ◌∷◌, ◌++◌, leb, if◌then◌else◌,
}
use sanare_agent_core.Text.{Text, codes, clip, clip_bytes, join, bytes, has_ink}
use sanare_agent_core.Message.{Role, Content, Call, Message}
use sanare_agent_core.Compaction.Segments.{Segment, Memory, State, Digests, segments, sort_by_start}
use sanare_agent_core.Compaction.Plan.{Plan}

pub data StageStatus : Type 0 where
  ready applied : StageStatus

pub record Stage : Type 0 where
  pub version : ℕ
  pub status : StageStatus
  pub stage_id : String
  pub source_sha256 : String
  pub summary_sha256 : String

unfoldable pub summary_limit : Plan → ℕ
summary_limit plan = min 16_000 (plan.source_bytes / 2)

abbrev or_mark : Text → Text
or_mark [] = codes "?"
or_mark (c ∷ t) = c ∷ t

abbrev id_text : Option String → Text
id_text none = codes "None"
id_text (some x) = codes x

call_line : Call → Text
call_line c =
    codes "- "
    ++ (or_mark c.name ++ (codes "(" ++ (clip c.arguments 160 ++ (codes ") id=" ++ id_text c.id))))

call_lines : List Call → List Text
unfolding call_line
call_lines [] = []
call_lines (c ∷ cs) = let rest = call_lines cs in if c.is_dict then call_line c ∷ rest else rest

or_none : Option (List Call) → List Call
or_none none = []
or_none (some cs) = cs

-- The header line of the extract; `cause` says why no model summary stands here.
unfoldable pub headline : Plan → Text → Text
headline plan cause =
    codes "[Механическая выжимка: "
    ++ (cause
        ++ (codes ". Ниже — вызовы и начала их результатов; полные исходники остаются в checkpoint "
            ++ (codes plan.source_sha256 ++ codes ".]")))

module _ (dump : Content → Text) where
  content_text : Content → Text
  content_text (Content.text t) = t
  content_text content = dump content

  role_lines : Role → Message → List Text
  unfolding call_lines or_none content_text
  role_lines Role.assistant m = call_lines (or_none m.tool_calls)
  role_lines Role.tool m =
      (codes "  → "
        ++ (id_text m.tool_call_id ++ (codes ": " ++ clip (content_text m.content) 280)))
      ∷ []
  role_lines _ m = []

  unfoldable pub source_lines : List Message → List Text
  unfolding role_lines
  source_lines [] = []
  source_lines (m ∷ ms) = role_lines m.role m ++ source_lines ms

  -- The summary that is made without a model: the calls and the beginnings of their results.
  unfoldable pub mechanical_summary : Plan → Text → Text
  mechanical_summary plan cause =
      clip_bytes (join (10 ∷ []) (headline plan cause ∷ source_lines plan.source))
        (summary_limit plan)

-- The cause where the model's summary was refused for `reason`.
unfoldable pub rejected : Text → Text
rejected reason = codes "модельная сводка не прошла проверку (" ++ (clip reason 160 ++ codes ")")

module _ (digests : Digests) (stage_id : String) where
  unfoldable pub segment_of : Plan → Text → Segment
  segment_of plan summary = record {
    start = plan.start;
    end = plan.end;
    source_sha256 = plan.source_sha256;
    summary_sha256 = digests.text summary;
    summary = summary;
  }

  unfoldable pub stage_of : Segment → Stage
  stage_of s = record {
    version = 1;
    status = ready;
    stage_id = stage_id;
    source_sha256 = s.source_sha256;
    summary_sha256 = s.summary_sha256;
  }

  unfoldable pub committed : Segment → Option (List Segment) → Option (Memory × Stage)
  unfolding stage_of
  committed s none = none
  committed s (some ss) =
      some (record { version = 1; segments = sort_by_start (ss ++ s ∷ []) }, stage_of s)

  unfoldable pub commit : State → Plan → Text → Option (Memory × Stage)
  commit state plan summary =
      if has_ink summary && leb (bytes summary) (summary_limit plan)
      then committed (segment_of plan summary) (segments digests state)
      else none

  unfoldable pub accept_mechanical :
      (Content → Text) → State → Plan → Text → Option (Memory × Stage)
  accept_mechanical dump state plan reason =
      commit state plan (mechanical_summary dump plan (rejected reason))
