-- ===== src/Stream/Published/Honest.antt =====
-- What was shown of a generation is its final text, or it is taken back.
use sanare_agent_core.Base.{
  ◌+◌, ◌⊎◌, Bool, true, false, not, ◌&&◌, ◌||◌, List, [], ◌∷◌, ltb, length, ◌≡◌, refl, sym, ◌∙◌, ap,
  arith, Bool-cases, inl, inr,
}
use sanare_agent_core.Text.{Text, bytes}
use sanare_agent_core.Stream.Published.{
  max_text_bytes, Event, text_delta, text_invalidated, Item, chunk, bad_item, End, Stream,
  fresh_stream, invalidate_parts, invalidate, show, show_text, note_usage, step, confirmed,
  close_with, invoke, shown, same_text, finish, finish_with,
}

-- The events of these texts, the last one first, numbered from 0.
unfoldable pub deltas : List Text → List Event
deltas [] = []
deltas (t ∷ ts) = text_delta (length ts) t ∷ deltas ts

-- With the mark at the end if they were taken back.
unfoldable pub written : Bool → List Text → List Event
unfolding deltas
written false ts = deltas ts
written true ts = text_invalidated ∷ deltas ts

abbrev IsWritten : Stream → Type 0
IsWritten s = s.events ≡ written s.invalidated s.parts

-- Nothing was taken back so far.
abbrev IsLive : Stream → Type 0
IsLive s = (s.invalidated ≡ false) × (s.events ≡ deltas s.parts)

abbrev IsTakenBack : Stream → Type 0
IsTakenBack s = IsWritten s × ((s.invalidated ≡ true) ⊎ (s.parts ≡ []))

invalidate_parts-IsTakenBack :
    (ts : List Text) (b : Bool) (s : Stream)
    → s.parts ≡ ts
    → s.invalidated ≡ b
    → IsLive s
    → IsTakenBack (invalidate_parts ts b s)
unfolding invalidate_parts written
invalidate_parts-IsTakenBack [] b s e i (live, same) =
    (same ∙ ap (λ d. written d s.parts) (sym live), inr e)
invalidate_parts-IsTakenBack (t ∷ ts) true s e i (live, same) = absurd (cc (i, live))
invalidate_parts-IsTakenBack (t ∷ ts) false s e i (live, same) =
    (ap (λ l. text_invalidated ∷ l) same, inl refl)

invalidate-IsTakenBack : (s : Stream) → IsLive s → IsTakenBack (invalidate s)
unfolding invalidate
invalidate-IsTakenBack s live = invalidate_parts-IsTakenBack s.parts s.invalidated s refl refl live

show-IsLive : (t : Text) (b : Bool) (s : Stream) → IsLive s → IsLive (show t b s)
unfolding show deltas
show-IsLive t true s live = live
show-IsLive t false s (live, same) = (live, ap (λ l. text_delta (length s.parts) t ∷ l) same)

show_text-IsLive : (t : Text) (s : Stream) → IsLive s → IsLive ((show_text t s).1)
unfolding show_text
show_text-IsLive [] s live = live
show_text-IsLive (c ∷ t) s live =
    elim (Bool-cases (ltb max_text_bytes (s.bytes_seen + bytes (c ∷ t)))) [
      | inl over ↦ rw over live
      | inr fits ↦ rw fits (
          show-IsLive (c ∷ t) s.buffered (record s { bytes_seen = s.bytes_seen + bytes (c ∷ t) })
            live)
    ]

note_usage-IsLive : (b : Bool) (s : Stream) → IsLive s → IsLive (note_usage b s)
unfolding note_usage
note_usage-IsLive true s live = live
note_usage-IsLive false s live = live

step-IsLive : (i : Item) (s : Stream) → IsLive s → IsLive ((step i s).1)
unfolding step
step-IsLive bad_item s live = live
step-IsLive (chunk t final) s live =
    elim (Bool-cases (final && ltb 1 (note_usage final s).usages)) [
      | inl again ↦ rw again (note_usage-IsLive final s live)
      | inr first ↦ rw first (
          show_text-IsLive t (record (note_usage final s) { started = true })
            (note_usage-IsLive final s live))
    ]

-- A returned message leaves the stream live; a failure takes back what was shown.
abbrev Ended : Bool × Stream → Type 0
Ended (ok, s) = ((ok ≡ true) × IsLive s) ⊎ ((ok ≡ false) × IsTakenBack s)

close_with-Ended : (end : End) (s : Stream) → IsLive s → Ended (close_with end s)
unfolding close_with
close_with-Ended end s live = elim (Bool-cases (confirmed end s)) [
  | inl known ↦ rw known (inl (refl, live))
  | inr failed ↦ rw failed (inr (refl, invalidate-IsTakenBack s live))
]

invoke-Ended : (end : End) (is : List Item) (s : Stream) → IsLive s → Ended (invoke end is s)
unfolding invoke
invoke-Ended end [] s live = close_with-Ended end s live
invoke-Ended end (i ∷ is) s live = elim (Bool-cases ((step i s).0)) [
  | inl on ↦ rw on (invoke-Ended end is ((step i s).1) (step-IsLive i s live))
  | inr stop ↦ rw stop (inr (refl, invalidate-IsTakenBack ((step i s).1) (step-IsLive i s live)))
]

same_text-eq : (s t : Text) → same_text s t ≡ true → s ≡ t
unfolding same_text
same_text-eq [] [] h = refl
same_text-eq (c ∷ s) (d ∷ t) h = ground (arith, same_text-eq s t)
same_text-eq [] (d ∷ t) h = absurd cc
same_text-eq (c ∷ s) [] h = absurd cc

-- The text shown is the final one of a message that was returned and not blocked, or nothing was
-- shown, or it was taken back; the events are those of the texts shown.
abbrev pub IsHonest : Text → Bool → Bool → Stream → Type 0
IsHonest content blocked ok s =
    (s.events ≡ written s.invalidated s.parts)
    × ((s.invalidated ≡ true)
        ⊎ (s.parts ≡ [])
        ⊎ ((ok ≡ true) × (content ≡ shown s.parts) × (blocked ≡ false)))

IsTakenBack-IsHonest :
    (content : Text) (blocked ok : Bool) (s : Stream)
    → IsTakenBack s
    → IsHonest content blocked ok s
IsTakenBack-IsHonest content blocked ok s (same, inl marked) = (same, inl marked)
IsTakenBack-IsHonest content blocked ok s (same, inr nothing) = (same, inr (inl nothing))

finish-IsHonest :
    (content : Text) (blocked : Bool) (s : Stream)
    → IsLive s
    → IsHonest content blocked true (finish content blocked s)
unfolding finish deltas written
finish-IsHonest content blocked s (live, same) =
    elim (Bool-cases (not (same_text content (shown s.parts)) || blocked)) [
      | inl differs ↦ rw differs (
          IsTakenBack-IsHonest content blocked true (invalidate s)
            (invalidate-IsTakenBack s (live, same)))
      | inr agrees ↦ rw agrees (
        same ∙ ap (λ d. written d s.parts) (sym live),
        inr (inr (refl, same_text-eq content (shown s.parts) (ground arith), ground arith)),
      )
    ]

finish_with-IsHonest :
    (content : Text) (blocked : Bool) (r : Bool × Stream)
    → Ended r
    → IsHonest content blocked r.0 (finish_with content blocked r)
unfolding finish_with
finish_with-IsHonest content blocked (true, s) (inl (ok, live)) =
    finish-IsHonest content blocked s live
finish_with-IsHonest content blocked (true, s) (inr (ok, back)) = absurd cc
finish_with-IsHonest content blocked (false, s) (inl (ok, live)) = absurd cc
finish_with-IsHonest content blocked (false, s) (inr (ok, back)) =
    IsTakenBack-IsHonest content blocked false s back

-- However a stream goes (its chunks, a broken transport, a cancellation, an unknown finish reason),
-- what was shown is the text of the final message, which was returned and not blocked, or the last
-- event takes it back, or nothing was shown; the deltas are numbered from 0, and none comes behind the
-- event that takes them back.
pub invoke-IsHonest :
    (end : End) (items : List Item) (buffered : Bool) (content : Text) (blocked : Bool)
    → IsHonest content blocked
        ((invoke end items (fresh_stream buffered)).0)
        (finish_with content blocked (invoke end items (fresh_stream buffered)))
unfolding fresh_stream deltas
invoke-IsHonest end items buffered content blocked =
    finish_with-IsHonest content blocked (invoke end items (fresh_stream buffered))
      (invoke-Ended end items (fresh_stream buffered) (refl, refl))
