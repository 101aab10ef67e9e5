-- ===== src/Text/Cutting.antt =====
-- What cutting a text to a byte limit gives.
use sanare_agent_core.Base.{
  ℕ, ◌+◌, ◌-◌, ◌≤◌, ◌<◌, ◌≡◌, refl, ap, true, ◌||◌, [], ◌∷◌, ◌++◌, inl, inr, leb, if◌then◌else◌,
  arith, Bool-cases, leb→le, leb_false→lt,
}
use sanare_agent_core.Text.{has_ink, Text, width, bytes, cut, clip_bytes, ellipsis}

pub bytes-append : (s t : Text) → bytes (s ++ t) ≡ bytes s + bytes t
unfolding bytes
bytes-append [] t = omega arith
bytes-append (c ∷ s) t = omega (arith, bytes-append s t)

pub bytes-cut-le : (n : ℕ) (t : Text) → bytes (cut n t) ≤ n
unfolding bytes cut
bytes-cut-le n [] = omega arith
bytes-cut-le n (c ∷ t) = elim (Bool-cases (leb (width c) n)) [
  | inl fits ↦ rw fits (omega (arith, leb→le (width c) n fits, bytes-cut-le (n - width c) t))
  | inr over ↦ rw over (omega arith)
]

-- What the cut drops.
pub cut_rest : ℕ → Text → Text
cut_rest n [] = []
cut_rest n (c ∷ t) = let rest = cut_rest (n - width c) t in if leb (width c) n then rest else c ∷ t

cut-append-cut_rest : (n : ℕ) (t : Text) → cut n t ++ cut_rest n t ≡ t
unfolding cut cut_rest
cut-append-cut_rest n [] = refl
cut-append-cut_rest n (c ∷ t) = elim (Bool-cases (leb (width c) n)) [
  | inl fits ↦ rw fits (ap (λ l. c ∷ l) (cut-append-cut_rest (n - width c) t))
  | inr over ↦ rw over
]

-- The first character that the cut drops would not fit.
abbrev pub Overflows : ℕ → Text → Type 0
Overflows room [] = Unit {0}
Overflows room (c ∷ t) = room < width c

sub_sub : (a b c : ℕ) → a - (b + c) ≡ a - b - c
sub_sub a b c = omega arith

cut_maximal : (n : ℕ) (t : Text) → Overflows (n - bytes (cut n t)) (cut_rest n t)
unfolding cut cut_rest bytes
cut_maximal n [] = tt
cut_maximal n (c ∷ t) = elim (Bool-cases (leb (width c) n)) [
  | inl fits ↦
      rw fits (rw (sub_sub n (width c) (bytes (cut (n - width c) t))) (cut_maximal (n - width c) t))
  | inr over ↦ rw over (omega (arith, leb_false→lt (width c) n over))
]

bytes-marked-le :
    (t : Text) (limit : ℕ) → 3 ≤ limit → bytes (cut (limit - 3) t ++ ellipsis ∷ []) ≤ limit
bytes-marked-le t limit h =
    rw (bytes-append (cut (limit - 3) t) (ellipsis ∷ []))
      (unfold bytes in omega (arith, bytes-cut-le (limit - 3) t))

pub clip_bytes-le : (t : Text) (limit : ℕ) → 3 ≤ limit → bytes (clip_bytes t limit) ≤ limit
unfolding clip_bytes
clip_bytes-le t limit h = elim (Bool-cases (leb (bytes t) limit)) [
  | inl fits ↦ rw fits (leb→le (bytes t) limit fits)
  | inr over ↦ rw over (bytes-marked-le t limit h)
]

-- A text within the limit is kept whole. Any other becomes its longest prefix of whole characters
-- that leaves three bytes for the mark, then the mark, and is within a limit of at least three.
pub clip_bytes_lem :
    (text : Text) (limit : ℕ)
    → (bytes text ≤ limit → clip_bytes text limit ≡ text)
      × (limit < bytes text
          → (clip_bytes text limit ≡ cut (limit - 3) text ++ ellipsis ∷ [])
            × (cut (limit - 3) text ++ cut_rest (limit - 3) text ≡ text)
            × Overflows (limit - 3 - bytes (cut (limit - 3) text)) (cut_rest (limit - 3) text))
      × (3 ≤ limit → bytes (clip_bytes text limit) ≤ limit)
unfolding clip_bytes
clip_bytes_lem text limit = (
  λ h. ground arith,
  λ h. (ground arith, cut-append-cut_rest (limit - 3) text, cut_maximal (limit - 3) text),
  λ h. clip_bytes-le text limit h,
)

pub has_ink-append : (s t : Text) → has_ink (s ++ t) ≡ (has_ink s || has_ink t)
unfolding has_ink
has_ink-append [] t = refl
has_ink-append (c ∷ s) t = ground (arith, has_ink-append s t)

-- A cut text ends in the mark, so cutting never makes a text blank.
pub has_ink-clip_bytes :
    (t : Text) (limit : ℕ) → has_ink t ≡ true → has_ink (clip_bytes t limit) ≡ true
unfolding clip_bytes
has_ink-clip_bytes t limit h = elim (Bool-cases (leb (bytes t) limit)) [
  | inl fits ↦ rw fits h
  | inr over ↦
      rw (over, has_ink-append (cut (limit - 3) t) (ellipsis ∷ [])) (unfold has_ink in ground arith)
]
