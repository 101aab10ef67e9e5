-- ===== src/Compaction/Segments/Order.antt =====
-- Sorting segments that lie apart gives segments that a read accepts.
use sanare_agent_core.Base.{
  ℕ, suc, ◌+◌, ◌≤◌, List, [], ◌∷◌, ◌++◌, length, leb, ◌≡◌, ◌⊎◌, refl, arith, Bool-cases, inl, inr,
  leb→le, leb_false→lt,
}
use sanare_agent_core.Message.{Message}
use sanare_agent_core.Compaction.Segments.{
  Segment, Digests, insert_by_start, sort_from, sort_by_start,
}
use sanare_agent_core.Compaction.Segments.Validity.{IsArchived, Archived}

abbrev pub Apart : Segment → Segment → Type 0
Apart x y = (x.end ≤ y.start) ⊎ (y.end ≤ x.start)

abbrev pub AllApart : Segment → List Segment → Type 0
AllApart x [] = Unit {0}
AllApart x (y ∷ ys) = Apart x y × AllApart x ys

abbrev pub Separate : List Segment → Type 0
Separate [] = Unit {0}
Separate (x ∷ xs) = AllApart x xs × Separate xs

abbrev pub AllFar : List Segment → List Segment → Type 0
AllFar [] ys = Unit {0}
AllFar (x ∷ xs) ys = AllApart x ys × AllFar xs ys

Apart-symm : (x y : Segment) → Apart x y → Apart y x
Apart-symm x y (inl h) = inr h
Apart-symm x y (inr h) = inl h

module _ (digests : Digests) (messages : List Message) where
  abbrev pub Pieces : List Segment → Type 0
  Pieces [] = Unit {0}
  Pieces (x ∷ xs) = IsArchived digests messages 0 x × Pieces xs

  pub IsArchived-from :
      (m from : ℕ) (x : Segment)
      → from ≤ x.start
      → IsArchived digests messages m x
      → IsArchived digests messages from x
  IsArchived-from m from x h v = record {
    behind = h;
    ordered = v.ordered;
    inside = v.inside;
    named = v.named;
    source_digest = v.source_digest;
    summary_digest = v.summary_digest;
    whole = v.whole;
  }

  insert-Archived :
      (from : ℕ) (x : Segment) (ss : List Segment)
      → from ≤ x.start
      → IsArchived digests messages 0 x
      → Archived digests messages from ss
      → AllApart x ss
      → Archived digests messages from (insert_by_start x ss)
  unfolding insert_by_start
  insert-Archived from x [] h v w a = (IsArchived-from 0 from x h v, tt)
  insert-Archived from x (s ∷ ss) h v w a = elim (Bool-cases (leb s.start x.start)) [
    | inl later ↦ rw later (
      w.0,
      insert-Archived s.end x ss (omega (arith, a.0, leb→le s.start x.start later, w.0.ordered)) v
          w.1 a.1,
    )
    | inr earlier ↦ rw earlier (
      IsArchived-from 0 from x h v,
      (
        IsArchived-from from x.end s
            (omega (arith, a.0, leb_false→lt s.start x.start earlier, w.0.ordered)) w.0,
        w.1,
      ),
    )
  ]

insert-AllApart :
    (z x : Segment) (ss : List Segment)
    → Apart z x
    → AllApart z ss
    → AllApart z (insert_by_start x ss)
unfolding insert_by_start
insert-AllApart z x [] h a = (h, tt)
insert-AllApart z x (s ∷ ss) h a = elim (Bool-cases (leb s.start x.start)) [
  | inl later ↦ rw later (a.0, insert-AllApart z x ss h a.1)
  | inr earlier ↦ rw earlier (h, a)
]

insert-AllFar :
    (x : Segment) (zs ss : List Segment)
    → AllApart x zs
    → AllFar zs ss
    → AllFar zs (insert_by_start x ss)
insert-AllFar x [] ss h a = tt
insert-AllFar x (z ∷ zs) ss h a =
    (insert-AllApart z x ss (Apart-symm x z h.0) a.0, insert-AllFar x zs ss h.1 a.1)

module _ (digests : Digests) (messages : List Message) where
  sort_from-Archived :
      (xs ss : List Segment)
      → Pieces digests messages xs
      → Separate xs
      → AllFar xs ss
      → Archived digests messages 0 ss
      → Archived digests messages 0 (sort_from ss xs)
  unfolding sort_from
  sort_from-Archived [] ss p q f v = v
  sort_from-Archived (x ∷ xs) ss p q f v =
      sort_from-Archived xs (insert_by_start x ss) p.1 q.1 (insert-AllFar x xs ss q.0 f.1)
        (insert-Archived digests messages 0 x ss (omega arith) p.0 v f.0)

  AllFar-nil : (xs : List Segment) → AllFar xs []
  AllFar-nil [] = tt
  AllFar-nil (x ∷ xs) = (tt, AllFar-nil xs)

  -- Segments that each stand for whole bundles and lie apart are, once sorted, in order.
  pub sort-Archived :
      (xs : List Segment)
      → Pieces digests messages xs
      → Separate xs
      → Archived digests messages 0 (sort_by_start xs)
  unfolding sort_by_start
  sort-Archived xs p q = sort_from-Archived xs [] p q (AllFar-nil xs) tt

length-insert : (x : Segment) (ss : List Segment) → length (insert_by_start x ss) ≡ suc (length ss)
unfolding insert_by_start
length-insert x [] = refl
length-insert x (s ∷ ss) = ground (arith, length-insert x ss)

length-sort_from : (ss xs : List Segment) → length (sort_from ss xs) ≡ length ss + length xs
unfolding sort_from
length-sort_from ss [] = omega arith
length-sort_from ss (x ∷ xs) =
    omega (arith, length-sort_from (insert_by_start x ss) xs, length-insert x ss)

pub length-sort : (xs : List Segment) → length (sort_by_start xs) ≡ length xs
unfolding sort_by_start
length-sort xs = omega (arith, length-sort_from [] xs)

module _ (digests : Digests) (messages : List Message) where
  pub Archived-Pieces :
      (from : ℕ) (ss : List Segment)
      → Archived digests messages from ss
      → Pieces digests messages ss
  Archived-Pieces from [] v = tt
  Archived-Pieces from (s ∷ ss) v =
      (IsArchived-from digests messages from 0 s (omega arith) v.0, Archived-Pieces s.end ss v.1)

  Archived-AllApart :
      (x : Segment) (from : ℕ) (ss : List Segment)
      → x.end ≤ from
      → Archived digests messages from ss
      → AllApart x ss
  Archived-AllApart x from [] h v = tt
  Archived-AllApart x from (s ∷ ss) h v = (
    inl (omega (arith, v.0.behind)),
    Archived-AllApart x s.end ss (omega (arith, v.0.behind, v.0.ordered)) v.1,
  )

  pub Archived-Separate :
      (from : ℕ) (ss : List Segment) → Archived digests messages from ss → Separate ss
  Archived-Separate from [] v = tt
  Archived-Separate from (s ∷ ss) v =
      (Archived-AllApart s s.end ss (omega arith) v.1, Archived-Separate s.end ss v.1)

  pub Pieces-snoc :
      (ss : List Segment) (x : Segment)
      → Pieces digests messages ss
      → IsArchived digests messages 0 x
      → Pieces digests messages (ss ++ x ∷ [])
  Pieces-snoc [] x v w = (w, tt)
  Pieces-snoc (s ∷ ss) x v w = (v.0, Pieces-snoc ss x v.1 w)

AllApart-snoc :
    (s x : Segment) (ss : List Segment) → AllApart s ss → Apart s x → AllApart s (ss ++ x ∷ [])
AllApart-snoc s x [] v h = (h, tt)
AllApart-snoc s x (t ∷ ss) v h = (v.0, AllApart-snoc s x ss v.1 h)

pub Separate-snoc :
    (ss : List Segment) (x : Segment) → Separate ss → AllApart x ss → Separate (ss ++ x ∷ [])
Separate-snoc [] x v a = (tt, tt)
Separate-snoc (s ∷ ss) x v a =
    (AllApart-snoc s x ss v.0 (Apart-symm x s a.0), Separate-snoc ss x v.1 a.1)
