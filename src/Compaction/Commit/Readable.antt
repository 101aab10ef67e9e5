-- ===== src/Compaction/Commit/Readable.antt =====
-- What is committed can be read back, and a summary made without a model is always committed.
use mathlib.Core.Option.{some-injective}
use sanare_agent_core.Base.{
  ℕ, ◌≤◌, String, true, ◌&&◌, some, List, [], ◌∷◌, ◌++◌, length-append, leb, ◌≡◌, ◌≢◌, refl, sym,
  ap, ◌∙◌, arith, Bool-cases, subst, inl, inr, &&-true,
}
use sanare_agent_core.Text.{Text, bytes, has_ink, join}
use sanare_agent_core.Text.Cutting.{clip_bytes-le, has_ink-clip_bytes}
use sanare_agent_core.Message.{Message, Content, slice}
use sanare_agent_core.Compaction.Segments.{Segment, Memory, State, Digests, segments, sort_by_start}
use sanare_agent_core.Compaction.Segments.Validity.{
  IsArchived, segments-Archived, segments-of_Archived,
}
use sanare_agent_core.Compaction.Segments.Order.{
  AllApart, sort-Archived, length-sort, Archived-Pieces, Archived-Separate, Pieces-snoc,
  Separate-snoc,
}
use sanare_agent_core.Compaction.Bundles.Spans.{complete_span-IsClear}
use sanare_agent_core.Compaction.Plan.{Plan, make_plan, min_source_bytes}
use sanare_agent_core.Compaction.Plan.Ranges.{Free}
use sanare_agent_core.Compaction.Plan.Soundness.{IsChoice, latest_two, best_of, make_plan-IsChoice}
use sanare_agent_core.Compaction.Commit.{
  Stage, summary_limit, mechanical_summary, headline, source_lines, segment_of, stage_of, committed,
  commit, accept_mechanical, rejected,
}

has_ink-ne_nil : (t : Text) → has_ink t ≡ true → t ≢ []
unfolding has_ink
has_ink-ne_nil [] h = cc
has_ink-ne_nil (c ∷ t) h = ground arith

Free-AllApart : (x : Segment) (ss : List Segment) → Free x.start x.end ss → AllApart x ss
Free-AllApart x [] v = tt
Free-AllApart x (s ∷ ss) v = (v.0, Free-AllApart x ss v.1)

module _ (json_bytes : Message → ℕ) (digests : Digests) (stage_id : String) (state : State)
    (p : Plan) where
  segment_of-IsArchived :
      (ss : List Segment) (summary : Text)
      → has_ink summary ≡ true
      → IsChoice json_bytes state.messages ss (latest_two state.messages) (best_of p)
      → p.source ≡ slice p.start p.end state.messages
      → p.source_sha256 ≡ digests.source p.source
      → IsArchived digests state.messages 0 (segment_of digests stage_id p summary)
  unfolding segment_of
  segment_of-IsArchived ss summary ink v source sha =
      let clear = complete_span-IsClear state.messages p.start p.end v.whole in
      record {
        behind = omega arith;
        ordered = clear.nonempty;
        inside = omega (arith, clear.inside);
        named = has_ink-ne_nil summary ink;
        source_digest = ap digests.source (sym source) ∙ sym sha;
        summary_digest = refl;
        whole = v.whole;
      }

  abbrev IsReadable : Memory → Type 0
  IsReadable memory =
      segments digests (record state { context_memory = some memory }) ≡ some memory.segments

  merged-IsReadable :
      (ss : List Segment) (summary : Text)
      → segments digests state ≡ some ss
      → make_plan json_bytes digests state ≡ some (some p)
      → has_ink summary ≡ true
      → IsReadable (record {
        version = 1;
        segments = sort_by_start (ss ++ segment_of digests stage_id p summary ∷ []);
      })
  merged-IsReadable ss summary h k ink =
      let s : Segment = segment_of digests stage_id p summary in
      let (choice, source, sha, room) = make_plan-IsChoice json_bytes digests state ss p h k in
      let old = segments-Archived digests state ss h in
      let new = segment_of-IsArchived ss summary ink choice source sha in
      let apart : AllApart s ss = unfold segment_of in Free-AllApart s ss choice.apart in
      segments-of_Archived digests state (sort_by_start (ss ++ s ∷ []))
        (omega (arith, length-sort (ss ++ s ∷ []), length-append ss (s ∷ [])))
        (sort-Archived digests state.messages (ss ++ s ∷ [])
          (Pieces-snoc digests state.messages ss s (Archived-Pieces digests state.messages 0 ss old)
            new)
          (Separate-snoc ss s (Archived-Separate digests state.messages 0 ss old) apart))

  committed-IsReadable :
      (ss : List Segment) (summary : Text) (memory : Memory) (stage : Stage)
      → segments digests state ≡ some ss
      → make_plan json_bytes digests state ≡ some (some p)
      → has_ink summary ≡ true
      → committed digests stage_id (segment_of digests stage_id p summary) (some ss)
        ≡ some (memory, stage)
      → IsReadable memory
  unfolding committed
  committed-IsReadable ss summary memory stage h k ink e =
      subst IsReadable (ap (λ (r : Memory × Stage). r.0) (some-injective _ (memory, stage) e))
        (merged-IsReadable ss summary h k ink)

  -- A summary that is committed for a plan of the same state is read back without a refusal: the
  -- segments, the new one among them, pass the validation of the next read.
  pub commit-IsReadable :
      (ss : List Segment) (summary : Text) (memory : Memory) (stage : Stage)
      → segments digests state ≡ some ss
      → make_plan json_bytes digests state ≡ some (some p)
      → commit digests stage_id state p summary ≡ some (memory, stage)
      → segments digests (record state { context_memory = some memory }) ≡ some memory.segments
  unfolding commit committed
  commit-IsReadable ss summary memory stage h k e =
      elim (Bool-cases (has_ink summary && leb (bytes summary) (summary_limit p))) [
        | inl fits ↦ committed-IsReadable ss summary memory stage h k (&&-true _ _ fits).0 (
            subst
              (λ read.
                committed digests stage_id (segment_of digests stage_id p summary) read
                ≡ some (memory, stage))
              h (rw fits at e))
        | inr refused ↦ cc (rw refused at e)
      ]

headline_ink :
    (p : Plan) (cause : Text) (rest : List Text)
    → has_ink (join (10 ∷ []) (headline p cause ∷ rest)) ≡ true
unfolding headline join has_ink
headline_ink p cause [] = refl
headline_ink p cause (t ∷ rest) = refl

module _ (dump : Content → Text) (p : Plan) (cause : Text) where
  mechanical_summary-ink : has_ink (mechanical_summary dump p cause) ≡ true
  unfolding mechanical_summary
  mechanical_summary-ink =
      has_ink-clip_bytes (join (10 ∷ []) (headline p cause ∷ source_lines dump p.source))
        (summary_limit p) (headline_ink p cause (source_lines dump p.source))

  -- The summary made without a model is within the limit of its plan.
  pub mechanical_summary-le :
      min_source_bytes ≤ p.source_bytes → bytes (mechanical_summary dump p cause) ≤ summary_limit p
  unfolding mechanical_summary
  mechanical_summary-le h =
      clip_bytes-le (join (10 ∷ []) (headline p cause ∷ source_lines dump p.source))
        (summary_limit p) (unfold summary_limit in omega arith)

module _ (digests : Digests) (stage_id : String) (state : State) (p : Plan) where
  commit-fits :
      (ss : List Segment) (summary : Text)
      → segments digests state ≡ some ss
      → has_ink summary ≡ true
      → bytes summary ≤ summary_limit p
      → commit digests stage_id state p summary
        ≡ some (
          record {
            version = 1;
            segments = sort_by_start (ss ++ segment_of digests stage_id p summary ∷ []);
          },
          stage_of digests stage_id (segment_of digests stage_id p summary),
        )
  unfolding commit committed
  commit-fits ss summary h ink fits =
      let within : leb (bytes summary) (summary_limit p) ≡ true = ground arith in
      rw (ink, within, h)

module _ (json_bytes : Message → ℕ) (digests : Digests) (stage_id : String) (state : State)
    (p : Plan) where
  -- A summary made without a model is never refused: for every plan, whatever the reason given, it
  -- is committed, and what is committed is read back without a refusal.
  pub accept_mechanical_total :
      (dump : Content → Text) (reason : Text) (ss : List Segment)
      → segments digests state ≡ some ss
      → make_plan json_bytes digests state ≡ some (some p)
      → (memory : Memory) × (stage : Stage) × (accept_mechanical digests stage_id dump state p
            reason
          ≡ some (memory, stage))
        × (segments digests (record state { context_memory = some memory }) ≡ some memory.segments)
  unfolding accept_mechanical
  accept_mechanical_total dump reason ss h k =
      let summary : Text = mechanical_summary dump p (rejected reason) in
      let (choice, source, sha, room) = make_plan-IsChoice json_bytes digests state ss p h k in
      let done =
        commit-fits digests stage_id state p ss summary h
          (mechanical_summary-ink dump p (rejected reason))
          (mechanical_summary-le dump p (rejected reason) choice.large) in
      (_, _, done, commit-IsReadable json_bytes digests stage_id state p ss summary _ _ h k done)
