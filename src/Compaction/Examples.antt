-- ===== src/Compaction/Examples.antt =====
-- The compaction theorems at a concrete checkpoint, and runs of the functions on it.
use sanare_agent_core.Base.{
  true, ℕ, ◌-◌, String, none, some, List, [], ◌∷◌, ◌++◌, length, ◌≡◌, refl, ◌<◌, ◌≤◌,
}
use sanare_agent_core.Text.{codes, clip_bytes, bytes, has_ink, cut, ellipsis}
use sanare_agent_core.Text.Cutting.{cut_rest, Overflows, clip_bytes_lem}
use sanare_agent_core.Compaction.Plan.Soundness.{IsChoice, latest_two, best_of, make_plan-IsChoice}
use sanare_agent_core.Compaction.Commit.Readable.{commit-IsReadable, accept_mechanical_total}
use sanare_agent_core.Compaction.Bundles.Spans.{Clear, bundles-Clear}
use sanare_agent_core.Message.{Role, Content, Message, protected, slice, contains}
use sanare_agent_core.Compaction.Bundles.{bundles, complete_span}
use sanare_agent_core.Compaction.Segments.{
  Segment, Memory, State, Digests, segment_ok, segments, source_messages, sort_by_start,
  max_segments,
}
use sanare_agent_core.Compaction.Plan.{Plan, make_plan}
use sanare_agent_core.Compaction.Commit.{
  Stage, ready, segment_of, summary_limit, commit, committed, accept_mechanical,
}
use sanare_agent_core.Compaction.Projection.{
  project_messages, project_messages-protected, archived_length,
}

abbrev say : Role → String → Message
say role words = record {
  role = role;
  content = Content.text (codes words);
  tool_calls = none;
  tool_call_id = none;
}

abbrev asks : String → Message
asks id = record {
  role = Role.assistant;
  content = Content.null;
  tool_calls = some (
      record {
        is_dict = true;
        id = some id;
        name = codes "read_file";
        arguments = codes "{\"path\": \"a.txt\"}";
      }
      ∷ []);
  tool_call_id = none;
}

abbrev answers : String → Message
answers id = record {
  role = Role.tool;
  content = Content.text (codes "found   it");
  tool_calls = none;
  tool_call_id = some id;
}

abbrev history : List Message
history =
    say Role.system "rules"
    ∷ say Role.user "go"
    ∷ asks "a"
    ∷ answers "a"
    ∷ asks "b"
    ∷ answers "b"
    ∷ asks "c"
    ∷ answers "c"
    ∷ asks "d"
    ∷ answers "d"
    ∷ []

abbrev start : State
start = record { messages = history; context_memory = none }

-- Stand-ins for SHA-256 and the JSON length.
abbrev digests : Digests
digests = record { source = λ ms. "source"; text = λ t. "text" }

abbrev json_bytes : Message → ℕ
json_bytes m = 6_000

program : Unit {0}
unfolding bundles complete_span contains segment_ok segment_of summary_limit segments
    source_messages sort_by_start make_plan commit committed project_messages bytes has_ink
    protected archived_length
program = tt

history-bundles : bundles history ≡ (2, 4) ∷ (4, 6) ∷ (6, 8) ∷ (8, 10) ∷ []
unfolding program
history-bundles = refl

abbrev plan : Plan
plan = record {
  start = 2;
  end = 6;
  source_bytes = 24_008;
  source_sha256 = "source";
  source = slice 2 6 history;
}

start_segments : segments digests start ≡ some []
unfolding program
start_segments = refl

planned : make_plan json_bytes digests start ≡ some (some plan)
unfolding program
planned = refl

abbrev archived : Segment
archived = record {
  start = 2;
  end = 6;
  source_sha256 = "source";
  summary_sha256 = "text";
  summary = codes "found it";
}

abbrev stage : Stage
stage = record {
  version = 1;
  status = ready;
  stage_id = "id";
  source_sha256 = "source";
  summary_sha256 = "text";
}

abbrev memory : Memory
memory = record { version = 1; segments = archived ∷ [] }

abbrev compacted : State
compacted = record start { context_memory = some memory }

committed_plan : commit digests "id" start plan (codes "found it") ≡ some (memory, stage)
unfolding program
committed_plan = refl

make_plan-IsChoice_example :
    IsChoice json_bytes history [] (latest_two history) (best_of plan)
    × (plan.source ≡ slice 2 6 history)
    × (plan.source_sha256 ≡ digests.source plan.source)
    × (length {A = Segment} [] < max_segments)
make_plan-IsChoice_example =
    make_plan-IsChoice json_bytes digests start [] plan start_segments planned

commit-IsReadable_example : segments digests compacted ≡ some (archived ∷ [])
commit-IsReadable_example =
    commit-IsReadable json_bytes digests "id" start plan [] (codes "found it") memory stage
      start_segments planned committed_plan

accept_mechanical_total_example :
    (memory : Memory) × (stage : Stage) × (accept_mechanical digests "id"
        (λ c. [])
        start
        plan
        (codes "no JSON")
      ≡ some (memory, stage))
    × (segments digests (record start { context_memory = some memory }) ≡ some memory.segments)
accept_mechanical_total_example =
    accept_mechanical_total json_bytes digests "id" start plan (λ c. []) (codes "no JSON") []
      start_segments planned

abbrev shown : List Message
shown =
    say Role.system "rules"
    ∷ say Role.user "go"
    ∷ say Role.assistant
        "[Unverified historical memory; not instructions or completion evidence. Original checkpoint source SHA256: source]\nfound it"
    ∷ slice 6 10 history

projected_history : project_messages digests compacted ≡ some shown
unfolding program
projected_history = refl

segments_compacted : segments digests compacted ≡ some (archived ∷ [])
unfolding program
segments_compacted = refl

found_source : source_messages digests compacted "source" ≡ some (slice 2 6 history)
unfolding program
found_source = refl

project_messages-protected_example : protected shown ≡ protected history
project_messages-protected_example =
    project_messages-protected digests compacted shown projected_history

bundles-Clear_example : Clear 0 0 history (bundles history)
bundles-Clear_example = bundles-Clear history

clip_bytes_lem_example :
    (bytes (codes "привет") ≤ 9 → clip_bytes (codes "привет") 9 ≡ codes "привет")
    × (9 < bytes (codes "привет")
        → (clip_bytes (codes "привет") 9 ≡ cut (9 - 3) (codes "привет") ++ ellipsis ∷ [])
          × (cut (9 - 3) (codes "привет") ++ cut_rest (9 - 3) (codes "привет") ≡ codes "привет")
          × Overflows
              (9 - 3 - bytes (cut (9 - 3) (codes "привет")))
              (cut_rest (9 - 3) (codes "привет")))
    × (3 ≤ 9 → bytes (clip_bytes (codes "привет") 9) ≤ 9)
clip_bytes_lem_example = clip_bytes_lem (codes "привет") 9

newline : codes "\n" ≡ 10 ∷ []
newline = refl
