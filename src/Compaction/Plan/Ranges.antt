-- ===== src/Compaction/Plan/Ranges.antt =====
-- Ranges that lie apart from segments, and the JSON lengths of ranges.
use sanare_agent_core.Base.{
  ℕ, ◌+◌, ◌-◌, ◌≤◌, ◌<◌, false, List, [], ◌∷◌, ◌++◌, length, drop, length-take, length-drop,
  length-append, ◌≡◌, ◌⊎◌, refl, arith,
}
use sanare_agent_core.Message.{Message, slice}
use sanare_agent_core.Compaction.Segments.{Segment}
use sanare_agent_core.Compaction.Plan.{overlaps, weight, size}

-- A range that shares no index with a segment of the list.
abbrev pub Free : ℕ → ℕ → List Segment → Type 0
Free left right [] = Unit {0}
Free left right (s ∷ ss) = ((right ≤ s.start) ⊎ (s.end ≤ left)) × Free left right ss

abbrev pub Proper : List Segment → Type 0
Proper [] = Unit {0}
Proper (s ∷ ss) = (s.start < s.end) × Proper ss

pub overlaps-Free :
    (left right : ℕ) (ss : List Segment) → overlaps left right ss ≡ false → Free left right ss
unfolding overlaps
overlaps-Free left right [] h = tt
overlaps-Free left right (s ∷ ss) h = (ground arith, overlaps-Free left right ss (ground arith))

pub Free-join :
    (a b c : ℕ) (ss : List Segment)
    → a < b
    → b < c
    → Proper ss
    → Free a b ss
    → Free b c ss
    → Free a c ss
Free-join a b c [] h k p v w = tt
Free-join a b c (s ∷ ss) h k p v w =
    (apart_join a b c s.start s.end h k p.0 v.0 w.0, Free-join a b c ss h k p.1 v.1 w.1)
  where
    apart_join :
        (a b c l r : ℕ)
        → a < b
        → b < c
        → l < r
        → (b ≤ l) ⊎ (r ≤ a)
        → (c ≤ l) ⊎ (r ≤ b)
        → (c ≤ l) ⊎ (r ≤ a)
    apart_join a b c l r h k p v w = omega arith

module _ (json_bytes : Message → ℕ) where
  pub weight-append :
      (xs ys : List Message)
      → weight json_bytes (xs ++ ys) ≡ weight json_bytes xs + weight json_bytes ys
  unfolding weight
  weight-append [] ys = omega arith
  weight-append (x ∷ xs) ys = omega (arith, weight-append xs ys)

  pub size-eq-weight :
      (xs : List Message) → 0 < length xs → size json_bytes xs ≡ weight json_bytes xs
  unfolding size weight
  size-eq-weight [] h = absurd (omega arith)
  size-eq-weight (x ∷ xs) h = refl

  -- The JSON length of a joined list is the sum, where neither part is empty.
  pub size-append :
      (xs ys : List Message)
      → 0 < length xs
      → 0 < length ys
      → size json_bytes (xs ++ ys) ≡ size json_bytes xs + size json_bytes ys
  size-append xs ys h k = omega (
    arith,
    weight-append xs ys,
    size-eq-weight xs h,
    size-eq-weight ys k,
    size-eq-weight (xs ++ ys) (omega (arith, length-append xs ys)),
  )

pub length-slice : (a b : ℕ) (ms : List Message) → b ≤ length ms → length (slice a b ms) ≡ b - a
length-slice a b ms h = omega (arith, length-take (b - a) (drop a ms), length-drop a ms)
