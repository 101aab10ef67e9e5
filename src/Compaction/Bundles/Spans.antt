-- ===== src/Compaction/Bundles/Spans.antt =====
-- Where whole bundles lie, and that they hold no owner, system or developer message.
use sanare_agent_core.Base.{
  ℕ, zero, suc, ◌+◌, ◌-◌, ◌≤◌, ◌<◌, String, true, false, not, ◌||◌, Option, none, some, List, [],
  ◌∷◌, ◌++◌, length, ltb, ◌==◌, ◌≡◌, refl, sym, ap, ap₂, ◌∙◌, arith, take, drop, take-add, drop-add,
  Bool-cases, subst, inl, inr,
}
use sanare_agent_core.Message.{Message, is_protected, protected, slice}
use sanare_agent_core.Compaction.Bundles.{
  turn_ids, tool_run, matches, passed, emit, bundles_from, bundles, span_from, complete_span,
}

pub protected-append : (xs ys : List Message) → protected (xs ++ ys) ≡ protected xs ++ protected ys
unfolding protected
protected-append [] ys = refl
protected-append (x ∷ xs) ys = ground (arith, protected-append xs ys)

-- A range of `ms`, counted from `base`, that lies in it and holds no protected message.
pub record IsClear (base : ℕ) (ms : List Message) (a b : ℕ) : Type 0 where
  pub above : base ≤ a
  pub nonempty : a < b
  pub inside : b ≤ base + length ms
  pub unprotected : protected (slice (a - base) (b - base) ms) ≡ []

-- Ranges in order from `lo`, none of them overlapping, all clear.
abbrev pub Clear : ℕ → ℕ → List Message → List (ℕ × ℕ) → Type 0
Clear lo base ms [] = Unit {0}
Clear lo base ms ((a, b) ∷ bs) = (lo ≤ a) × IsClear base ms a b × Clear b base ms bs

slice-suc :
    (x y : ℕ) (m : Message) (ms : List Message) → slice (suc x) (suc y) (m ∷ ms) ≡ slice x y ms
slice-suc x y m ms = let e : suc y - suc x ≡ y - x = omega arith in rw e

IsClear-cons :
    (base a b : ℕ) (m : Message) (ms : List Message)
    → IsClear (base + 1) ms a b
    → IsClear base (m ∷ ms) a b
IsClear-cons base a b m ms v = record {
  above = omega (arith, v.above);
  nonempty = v.nonempty;
  inside = omega (arith, v.inside);
  unprotected = shift;
}
  where
    from : a - base ≡ suc (a - (base + 1))
    from = omega (arith, v.above)

    to : b - base ≡ suc (b - (base + 1))
    to = omega (arith, v.above, v.nonempty)

    shift : protected (slice (a - base) (b - base) (m ∷ ms)) ≡ []
    shift = rw (from, to, slice-suc) v.unprotected

Clear-cons :
    (lo base : ℕ) (m : Message) (ms : List Message) (bs : List (ℕ × ℕ))
    → Clear lo (base + 1) ms bs
    → Clear lo base (m ∷ ms) bs
Clear-cons lo base m ms [] v = tt
Clear-cons lo base m ms ((a, b) ∷ bs) v =
    (v.0, IsClear-cons base a b m ms v.1, Clear-cons b base m ms bs v.2)

pub Clear-mono :
    (lo hi base : ℕ) (ms : List Message) (bs : List (ℕ × ℕ))
    → lo ≤ hi
    → Clear hi base ms bs
    → Clear lo base ms bs
Clear-mono lo hi base ms [] h v = tt
Clear-mono lo hi base ms ((a, b) ∷ bs) h v = (omega arith, v.1, v.2)

tool_run-length : (ms : List Message) → length (tool_run ms) ≤ length ms
unfolding tool_run
tool_run-length [] = omega arith
tool_run-length (m ∷ ms) = ground (arith, tool_run-length ms)

tool_run-prefix : (ms : List Message) → take (length (tool_run ms)) ms ≡ tool_run ms
unfolding tool_run
tool_run-prefix [] = refl
tool_run-prefix (m ∷ ms) = ground (arith, tool_run-prefix ms)

tool_run-unprotected : (ms : List Message) → protected (tool_run ms) ≡ []
unfolding tool_run protected
tool_run-unprotected [] = refl
tool_run-unprotected (m ∷ ms) = ground (arith, tool_run-unprotected ms)

-- Only an assistant turn can start a bundle.
turn-unprotected :
    (m : Message) (ids : List String)
    → turn_ids m.role m.tool_calls ≡ some ids
    → is_protected m ≡ false
unfolding turn_ids
turn-unprotected m ids h = ground arith

bundle-IsClear :
    (index : ℕ) (m : Message) (ms : List Message)
    → is_protected m ≡ false
    → IsClear index (m ∷ ms) index (index + 1 + length (tool_run ms))
bundle-IsClear index m ms h = record {
  above = omega arith;
  nonempty = omega arith;
  inside = omega (arith, tool_run-length ms);
  unprotected = head;
}
  where
    from : index - index ≡ 0
    from = omega arith

    to : index + 1 + length (tool_run ms) - index ≡ suc (length (tool_run ms))
    to = omega arith

    all : suc (length (tool_run ms)) - 0 ≡ suc (length (tool_run ms))
    all = omega arith

    head :
        protected (slice (index - index) (index + 1 + length (tool_run ms) - index) (m ∷ ms)) ≡ []
    head =
        rw (from, to, all)
          (unfold protected in rw (h, tool_run-prefix ms) (tool_run-unprotected ms))

emit-Clear :
    (found : Option (List String)) (index lo : ℕ) (m : Message) (ms : List Message)
    (later : List (ℕ × ℕ))
    → turn_ids m.role m.tool_calls ≡ found
    → lo ≤ index
    → Clear (index + 1 + passed found (tool_run ms)) (index + 1) ms later
    → Clear lo index (m ∷ ms) (emit found index m.content (tool_run ms) later)
unfolding emit passed
emit-Clear none index lo m ms later e h v =
    Clear-cons lo index m ms later (Clear-mono lo _ (index + 1) ms later (omega arith) v)
emit-Clear (some ids) index lo m ms later e h v =
    elim (Bool-cases (matches ids m.content (tool_run ms))) [
      | inl whole ↦
          rw whole (
            h,
            bundle-IsClear index m ms (turn-unprotected m ids e),
            Clear-cons _ index m ms later v,
          )
      | inr broken ↦
          rw broken
            (Clear-cons lo index m ms later (Clear-mono lo _ (index + 1) ms later (omega arith) v))
    ]

bundles_from-Clear :
    (index skip : ℕ) (ms : List Message)
    → Clear (index + skip) index ms (bundles_from index skip ms)
unfolding bundles_from
bundles_from-Clear index skip [] = tt
bundles_from-Clear index (suc skip) (m ∷ ms) =
    Clear-cons (index + suc skip) index m ms (bundles_from (index + 1) skip ms)
      (Clear-mono _ _ (index + 1) ms _ (omega arith) (bundles_from-Clear (index + 1) skip ms))
bundles_from-Clear index zero (m ∷ ms) =
    emit-Clear (turn_ids m.role m.tool_calls) index (index + 0) m ms _ refl (omega arith)
      (bundles_from-Clear (index + 1) _ ms)

-- The whole bundles of a history stand in order, do not overlap, lie inside it, and hold no owner,
-- system or developer message.
pub bundles-Clear : (messages : List Message) → Clear 0 0 messages (bundles messages)
unfolding bundles
bundles-Clear messages = bundles_from-Clear 0 0 messages

pub slice_join :
    (a b c : ℕ) (ms : List Message) → a ≤ b → b ≤ c → slice a c ms ≡ slice a b ms ++ slice b c ms
slice_join a b c ms h k =
    let all : c - a ≡ b - a + (c - b) = omega arith in
    let end : b ≡ a + (b - a) = omega arith in
    rw (all, take-add (b - a) (c - b) (drop a ms), ← drop-add a (b - a) ms, ← end)

slice_from_zero : (a b : ℕ) (ms : List Message) → slice (a - 0) (b - 0) ms ≡ slice a b ms
slice_from_zero a b ms =
    let e : a - 0 ≡ a = omega arith in let f : b - 0 ≡ b = omega arith in rw (e, f)

-- A clear range of the whole history, read without its base.
pub IsClear-unprotected :
    (a b : ℕ) (ms : List Message) → IsClear 0 ms a b → protected (slice a b ms) ≡ []
IsClear-unprotected a b ms v = ap protected (sym (slice_from_zero a b ms)) ∙ v.unprotected

pub IsClear-join :
    (a b c : ℕ) (ms : List Message) → IsClear 0 ms a b → IsClear 0 ms b c → IsClear 0 ms a c
IsClear-join a b c ms v w = record {
  above = omega arith;
  nonempty = omega (arith, v.nonempty, w.nonempty);
  inside = w.inside;
  unprotected = joined;
}
  where
    low : a ≤ b
    low = omega (arith, v.nonempty)

    high : b ≤ c
    high = omega (arith, w.nonempty)

    joined : protected (slice (a - 0) (c - 0) ms) ≡ []
    joined =
        ap protected (slice_from_zero a c ms ∙ slice_join a b c ms low high)
        ∙ protected-append (slice a b ms) (slice b c ms)
        ∙ ap₂ (λ xs ys. xs ++ ys) (IsClear-unprotected a b ms v) (IsClear-unprotected b c ms w)

span_from-IsClear :
    (cursor end lo : ℕ) (ms : List Message) (bs : List (ℕ × ℕ))
    → Clear lo 0 ms bs
    → span_from cursor end bs ≡ true
    → IsClear 0 ms cursor end
unfolding span_from
span_from-IsClear cursor end lo ms [] v h = cc
span_from-IsClear cursor end lo ms ((a, b) ∷ bs) v h = elim (Bool-cases (ltb a cursor)) [
  | inl past ↦ span_from-IsClear cursor end b ms bs v.2 (rw past at h)
  | inr ahead ↦ elim (Bool-cases (not (a == cursor) || ltb end b)) [
    | inl gap ↦ cc (rw (ahead, gap) at h)
    | inr adjacent ↦ elim (Bool-cases (b == end)) [
      | inl done ↦
          let ea : a ≡ cursor = ground arith in
          let eb : b ≡ end = ground arith in
          subst (λ x. IsClear 0 ms x end) ea (subst (λ y. IsClear 0 ms a y) eb v.1)
      | inr more ↦
          let ea : a ≡ cursor = ground arith in
          subst (λ x. IsClear 0 ms x end) ea
            (IsClear-join a b end ms v.1
              (span_from-IsClear b end b ms bs v.2 (rw (ahead, adjacent, more) at h)))
    ]
  ]
]

-- A range that adjacent whole bundles cover lies in the history and holds no owner, system or
-- developer message.
pub complete_span-IsClear :
    (ms : List Message) (a b : ℕ) → complete_span ms a b ≡ true → IsClear 0 ms a b
unfolding complete_span
complete_span-IsClear ms a b h = span_from-IsClear a b 0 ms (bundles ms) (bundles-Clear ms) h

-- The walk passes a bundle that starts earlier, goes on behind one that starts at its cursor, and
-- ends at one that also ends where the range does.
pub span_skip :
    (a b cursor end : ℕ) (bs : List (ℕ × ℕ))
    → a < cursor
    → span_from cursor end ((a, b) ∷ bs) ≡ span_from cursor end bs
unfolding span_from
span_skip a b cursor end bs h = ground arith

pub span_next :
    (a b end : ℕ) (bs : List (ℕ × ℕ)) → b < end → span_from a end ((a, b) ∷ bs) ≡ span_from b end bs
unfolding span_from
span_next a b end bs h = ground arith

pub span_done : (a b : ℕ) (bs : List (ℕ × ℕ)) → span_from a b ((a, b) ∷ bs) ≡ true
unfolding span_from
span_done a b bs = ground arith

pub complete_span-eq-span_from :
    (ms : List Message) (a b : ℕ) → complete_span ms a b ≡ span_from a b (bundles ms)
unfolding complete_span
complete_span-eq-span_from ms a b = refl
