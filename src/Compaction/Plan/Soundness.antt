-- ===== src/Compaction/Plan/Soundness.antt =====
-- A plan names a run of whole old bundles that lies apart from every segment, within the limits.
use sanare_agent_core.Base.{
  ℕ, ◌+◌, ◌-◌, ◌≤◌, ◌<◌, true, not, ◌&&◌, ◌||◌, Option, none, some, List, [], ◌∷◌, ◌++◌, length,
  take, drop, take-append-drop, &&-true, ltb, leb, ◌==◌, ◌≡◌, ◌⊎◌, refl, sym, ap, ◌∙◌, arith,
  Bool-cases, subst, inl, inr, leb→le, leb_false→lt,
}
use mathlib.Core.Option.{some-injective}
use sanare_agent_core.Message.{Message, slice}
use sanare_agent_core.Compaction.Bundles.{bundles, span_from, complete_span}
use sanare_agent_core.Compaction.Bundles.Spans.{
  Clear, Clear-mono, IsClear, bundles-Clear, slice_join, span_skip, span_next, span_done,
  complete_span-eq-span_from,
}
use sanare_agent_core.Compaction.Segments.{Segment, State, Digests, segments, max_segments}
use sanare_agent_core.Compaction.Plan.Ranges.{
  Free, Proper, Free-join, overlaps-Free, weight-append, size-eq-weight, length-slice,
}
use sanare_agent_core.Compaction.Segments.Validity.{Archived, segments-Archived}
use sanare_agent_core.Compaction.Plan.{
  Plan, Best, overlaps, weight, size, larger, better, grow, choose, candidates, plan_of_best,
  plan_over, make_plan, max_source_bytes, min_source_bytes,
}

-- What a plan's range guarantees; `latest` are the bundles that stay verbatim.
pub record IsChoice (json_bytes : Message → ℕ) (messages : List Message) (ss : List Segment)
    (latest : List (ℕ × ℕ)) (b : Best) : Type 0 where
  pub whole : complete_span messages b.start b.end ≡ true
  pub apart : Free b.start b.end ss
  pub large : min_source_bytes ≤ b.source_bytes
  pub small : b.source_bytes ≤ max_source_bytes
  pub measured : b.source_bytes ≡ size json_bytes (slice b.start b.end messages)
  pub before : Clear b.end 0 messages latest

module _ (json_bytes : Message → ℕ) (messages : List Message) (ss : List Segment)
    (latest : List (ℕ × ℕ)) (proper : Proper ss) where
  abbrev Choice : Option Best → Type 0
  Choice none = Unit {0}
  Choice (some b) = IsChoice json_bytes messages ss latest b

  -- A run of bundles from `start` to `cursor`, with the bundles `rest` behind it.
  record IsRun (start cursor bytes : ℕ) (rest : List (ℕ × ℕ)) : Type 0 where
    reach :
        (end : ℕ)
        → cursor < end
        → span_from start end (bundles messages) ≡ span_from cursor end (rest ++ latest)
    behind : Clear cursor 0 messages (rest ++ latest)
    covered : (start ≡ cursor) ⊎ ((start < cursor) × Free start cursor ss)
    weighed : bytes ≡ weight json_bytes (slice start cursor messages)

  Clear-append :
      (lo : ℕ) (bs : List (ℕ × ℕ)) → Clear lo 0 messages (bs ++ latest) → Clear lo 0 messages latest
  Clear-append lo [] v = v
  Clear-append lo ((a, b) ∷ bs) v =
      Clear-mono lo b 0 messages latest (omega (arith, v.0, v.1.nonempty)) (Clear-append b bs v.2)

  run-covers :
      (start left end : ℕ)
      → left < end
      → Free left end ss
      → (start ≡ left) ⊎ ((start < left) × Free start left ss)
      → (start < end) × Free start end ss
  run-covers start left end h f (inl e) = (omega arith, subst (λ x. Free x end ss) (sym e) f)
  run-covers start left end h f (inr (lt, v)) =
      (omega arith, Free-join start left end ss lt h proper v f)

  run-weighs :
      (start left end : ℕ)
      → start ≤ left
      → IsClear 0 messages left end
      → weight json_bytes (slice start end messages)
        ≡ weight json_bytes (slice start left messages) + size json_bytes (slice left end messages)
  run-weighs start left end h v =
      let low : left ≤ end = omega (arith, v.nonempty) in
      let inside : end ≤ length messages = omega (arith, v.inside) in
      let some_left : 0 < length (slice left end messages) =
        omega (arith, v.nonempty, length-slice left end messages inside) in
      rw (slice_join start left end messages h low) (
        omega (
          arith,
          weight-append json_bytes (slice start left messages) (slice left end messages),
          size-eq-weight json_bytes (slice left end messages) some_left,
        ))

  IsRun-step :
      (start left end bytes : ℕ) (rest : List (ℕ × ℕ))
      → Free left end ss
      → IsRun start left bytes ((left, end) ∷ rest)
      → IsRun start end (bytes + size json_bytes (slice left end messages)) rest
  IsRun-step start left end bytes rest f v =
      let clear = v.behind.1 in
      let start_le : start ≤ left = omega (arith, v.covered) in
      record {
        reach = λ x h.
            v.reach x (omega (arith, clear.nonempty)) ∙ span_next left end x (rest ++ latest) h;
        behind = v.behind.2;
        covered = inr (run-covers start left end clear.nonempty f v.covered);
        weighed = omega (arith, v.weighed, run-weighs start left end start_le clear);
      }

  -- A run that has just taken a bundle is covered by whole bundles.
  run-whole :
      (start left end bytes : ℕ) (rest : List (ℕ × ℕ))
      → IsRun start left bytes ((left, end) ∷ rest)
      → complete_span messages start end ≡ true
  run-whole start left end bytes rest v =
      complete_span-eq-span_from messages start end
      ∙ v.reach end v.behind.1.nonempty
      ∙ span_done left end (rest ++ latest)

  better-Choice :
      (start end bytes : ℕ) (best : Option Best) (rest : List (ℕ × ℕ))
      → complete_span messages start end ≡ true
      → start < end
      → end ≤ length messages
      → bytes ≤ max_source_bytes
      → Free start end ss
      → IsRun start end bytes rest
      → Choice best
      → Choice (better json_bytes start end bytes best)
  unfolding better
  better-Choice start end bytes best rest w lt inside small f r c =
      elim (Bool-cases (leb min_source_bytes bytes && larger json_bytes bytes best)) [
        | inl chosen ↦ rw chosen (record {
          whole = w;
          apart = f;
          large = leb→le min_source_bytes bytes (&&-true _ _ chosen).0;
          small = small;
          measured =
              r.weighed
              ∙ sym (
                  size-eq-weight json_bytes (slice start end messages)
                    (omega (arith, length-slice start end messages inside)));
          before = Clear-append end rest r.behind;
        })
        | inr kept ↦ rw kept c
      ]

  grow-Choice :
      (start cursor bytes : ℕ) (best : Option Best) (rest : List (ℕ × ℕ))
      → IsRun start cursor bytes rest
      → Choice best
      → Choice (grow json_bytes messages ss start cursor bytes best rest)
  unfolding grow
  grow-Choice start cursor bytes best [] r c = c
  grow-Choice start cursor bytes best ((left, end) ∷ rest) r c =
      elim (Bool-cases (
        not (left == cursor)
        || overlaps left end ss
        || ltb max_source_bytes (bytes + size json_bytes (slice left end messages)))) [
          | inl stop ↦ rw stop c
          | inr goes ↦
              let e : cursor ≡ left = ground arith in
              let small : bytes + size json_bytes (slice left end messages) ≤ max_source_bytes =
                ground arith in
              let free = overlaps-Free left end ss (ground arith) in
              let at = subst (λ x. IsRun start x bytes ((left, end) ∷ rest)) e r in
              let next = IsRun-step start left end bytes rest free at in
              let covers = run-covers start left end at.behind.1.nonempty free at.covered in
              rw goes (
                grow-Choice start end (bytes + size json_bytes (slice left end messages)) _ rest
                  next
                  (better-Choice start end (bytes + size json_bytes (slice left end messages)) best
                    rest (run-whole start left end bytes rest at) covers.0
                    (omega (arith, at.behind.1.inside)) small covers.1 next c))
        ]

  weight-slice_self : (a : ℕ) → 0 ≡ weight json_bytes (slice a a messages)
  unfolding weight
  weight-slice_self a = let e : a - a ≡ 0 = omega arith in rw e

  -- The walk over all bundles comes to these, for any cursor from `lo` on.
  abbrev From : ℕ → List (ℕ × ℕ) → Type 0
  From lo bs =
      (c end : ℕ) → lo ≤ c → span_from c end (bundles messages) ≡ span_from c end (bs ++ latest)

  choose-Choice :
      (lo : ℕ) (best : Option Best) (bs : List (ℕ × ℕ))
      → From lo bs
      → Clear lo 0 messages (bs ++ latest)
      → Choice best
      → Choice (choose json_bytes messages ss best bs)
  unfolding choose
  choose-Choice lo best [] f v c = c
  choose-Choice lo best ((start, end) ∷ rest) f v c =
      choose-Choice end (grow json_bytes messages ss start start 0 best ((start, end) ∷ rest)) rest
        (λ x y h.
          f x y (omega (arith, v.0, v.1.nonempty))
          ∙ span_skip start end x y (rest ++ latest) (omega (arith, v.1.nonempty)))
        v.2
        (grow-Choice start start 0 best ((start, end) ∷ rest)
          (record {
            reach = λ x h. f start x v.0;
            behind = (omega arith, v.1, v.2);
            covered = inl refl;
            weighed = (weight-slice_self start);
          })
          c)

Archived-Proper :
    (digests : Digests) (messages : List Message) (from : ℕ) (ss : List Segment)
    → Archived digests messages from ss
    → Proper ss
Archived-Proper digests messages from [] v = tt
Archived-Proper digests messages from (s ∷ ss) v =
    (v.0.ordered, Archived-Proper digests messages s.end ss v.1)

-- The two latest bundles, or fewer.
abbrev pub latest_two : List Message → List (ℕ × ℕ)
latest_two messages = drop (length (bundles messages) - 2) (bundles messages)

abbrev pub best_of : Plan → Best
best_of p = record { start = p.start; end = p.end; source_bytes = p.source_bytes }

module _ (json_bytes : Message → ℕ) (digests : Digests) where
  chosen-Choice :
      (messages : List Message) (ss : List Segment)
      → Proper ss
      → (b : Best) → choose json_bytes messages ss none (candidates messages) ≡ some b
      → IsChoice json_bytes messages ss (latest_two messages) b
  chosen-Choice messages ss proper b h =
      let k = length (bundles messages) - 2 in
      let parts : take k (bundles messages) ++ drop k (bundles messages) ≡ bundles messages =
        take-append-drop k (bundles messages) in
      subst (Choice json_bytes messages ss (latest_two messages) proper) h (
        choose-Choice json_bytes messages ss (latest_two messages) proper 0 none
          (candidates messages) (λ c end h. ap (span_from c end) (sym parts))
          (rw parts (bundles-Clear messages)) tt)

  plan_of_best-source :
      (messages : List Message) (o : Option Best) (p : Plan)
      → plan_of_best digests messages o ≡ some p
      → (o ≡ some (best_of p))
        × (p.source ≡ slice p.start p.end messages)
        × (p.source_sha256 ≡ digests.source p.source)
  unfolding plan_of_best
  plan_of_best-source messages none p h = cc
  plan_of_best-source messages (some b) p h =
      let e = sym (some-injective _ p h) in (rw e, rw e, rw e)

  planned-Choice :
      (messages : List Message) (ss : List Segment) (p : Plan)
      → Proper ss
      → plan_over json_bytes digests messages (some ss) ≡ some (some p)
      → IsChoice json_bytes messages ss (latest_two messages) (best_of p)
        × (p.source ≡ slice p.start p.end messages)
        × (p.source_sha256 ≡ digests.source p.source)
        × (length ss < max_segments)
  unfolding plan_over
  planned-Choice messages ss p proper h = elim (Bool-cases (leb max_segments (length ss))) [
    | inl full ↦ cc (rw full at h)
    | inr room ↦
        let planned = some-injective _ (some p) (rw room at h) in
        let (chosen, source, sha) =
          plan_of_best-source messages (choose json_bytes messages ss none (candidates messages)) p
            planned in
        (
          chosen-Choice messages ss proper (best_of p) chosen,
          source,
          sha,
          leb_false→lt max_segments (length ss) room,
        )
  ]

  -- A plan is for a readable checkpoint with room for a segment. Its range is covered by whole
  -- bundles, lies apart from every segment and before the two latest bundles, and its size is that
  -- of its source, between the two limits; the source is the range, under its digest.
  pub make_plan-IsChoice :
      (state : State) (ss : List Segment) (p : Plan)
      → segments digests state ≡ some ss
      → make_plan json_bytes digests state ≡ some (some p)
      → IsChoice json_bytes state.messages ss (latest_two state.messages) (best_of p)
        × (p.source ≡ slice p.start p.end state.messages)
        × (p.source_sha256 ≡ digests.source p.source)
        × (length ss < max_segments)
  unfolding make_plan
  make_plan-IsChoice state ss p h k =
      planned-Choice state.messages ss p
        (Archived-Proper digests state.messages 0 ss (segments-Archived digests state ss h))
        (rw h at k)
