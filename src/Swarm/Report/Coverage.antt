-- ===== src/Swarm/Report/Coverage.antt =====
-- A report is in the plan's order whatever order the workers end in, and it is complete only if every
-- worker is done.
use sanare_agent_core.Base.{
  ℕ, suc, ◌≤◌, String, Bool, true, ◌&&◌, List, [], ◌∷◌, ltb, leb, ◌==◌, length, ◌≡◌, refl, sym, ◌∙◌,
  ap, arith, Bool-cases, inl, inr, ◌↔◌,
}
use mathlib.Core.List.{Perm}
use mathlib.Core.List.Perm
use sanare_agent_core.Swarm.{SwarmPlan}
use sanare_agent_core.Swarm.Worker.{WorkerResult}
use sanare_agent_core.Swarm.Report.{
  complete, is_done, count_done, swarm_status, summary, place_of, insert, sorted, run_report,
}

unfoldable pub all_done : List WorkerResult → Bool
all_done [] = true
all_done (r ∷ rs) = is_done r && all_done rs

module _ (place : WorkerResult → ℕ) where
  -- No result stands before the place.
  unfoldable pub from_place : ℕ → List WorkerResult → Bool
  from_place n [] = true
  from_place n (q ∷ qs) = leb n (place q) && from_place n qs

  unfoldable pub in_order : List WorkerResult → Bool
  unfolding from_place
  in_order [] = true
  in_order (r ∷ rs) = from_place (place r) rs && in_order rs

  from_place_mono :
      (n m : ℕ) (rs : List WorkerResult) → m ≤ n → from_place n rs ≡ true → from_place m rs ≡ true
  unfolding from_place
  from_place_mono n m [] le h = refl
  from_place_mono n m (q ∷ qs) le h = ground (arith, from_place_mono n m qs le)

  from_place-insert :
      (n : ℕ) (r : WorkerResult) (rs : List WorkerResult)
      → leb n (place r) ≡ true
      → from_place n rs ≡ true
      → from_place n (insert place r rs) ≡ true
  unfolding from_place insert
  from_place-insert n r [] first rest = ground arith
  from_place-insert n r (q ∷ qs) first rest = elim (Bool-cases (leb (place r) (place q))) [
    | inl front ↦ rw front (ground arith)
    | inr behind ↦ rw behind (ground (arith, from_place-insert n r qs first (ground arith)))
  ]

  in_order-insert :
      (r : WorkerResult) (rs : List WorkerResult)
      → in_order rs ≡ true
      → in_order (insert place r rs) ≡ true
  unfolding in_order insert from_place
  in_order-insert r [] h = refl
  in_order-insert r (q ∷ qs) h = elim (Bool-cases (leb (place r) (place q))) [
    | inl front ↦ rw front (ground (arith, h, front, from_place_mono (place q) (place r) qs))
    | inr behind ↦
        rw behind
          (ground (arith, h, behind, from_place-insert (place q) r qs, in_order-insert r qs))
  ]

  in_order-sorted : (rs : List WorkerResult) → in_order (sorted place rs) ≡ true
  unfolding in_order sorted
  in_order-sorted [] = refl
  in_order-sorted (r ∷ rs) = in_order-insert r (sorted place rs) (in_order-sorted rs)

  Perm-insert : (r : WorkerResult) (rs : List WorkerResult) → Perm (insert place r rs) (r ∷ rs)
  unfolding insert
  Perm-insert r [] = Perm.refl (r ∷ [])
  Perm-insert r (q ∷ qs) = elim (Bool-cases (leb (place r) (place q))) [
    | inl front ↦ rw front (Perm.refl (r ∷ q ∷ qs))
    | inr behind ↦ rw behind (Perm.trans (Perm.cons q (Perm-insert r qs)) (Perm.swap r q qs))
  ]

  Perm-sorted : (rs : List WorkerResult) → Perm (sorted place rs) rs
  unfolding sorted
  Perm-sorted [] = Perm.refl []
  Perm-sorted (r ∷ rs) = Perm.trans (Perm-insert r (sorted place rs)) (Perm.cons r (Perm-sorted rs))

  length-insert :
      (r : WorkerResult) (rs : List WorkerResult) → length (insert place r rs) ≡ suc (length rs)
  unfolding insert
  length-insert r [] = refl
  length-insert r (q ∷ qs) = elim (Bool-cases (leb (place r) (place q))) [
    | inl front ↦ rw front refl
    | inr behind ↦ rw behind (ap suc (length-insert r qs))
  ]

  length-sorted : (rs : List WorkerResult) → length (sorted place rs) ≡ length rs
  unfolding sorted
  length-sorted [] = refl
  length-sorted (r ∷ rs) = length-insert r (sorted place rs) ∙ ap suc (length-sorted rs)

  count_done-insert :
      (r : WorkerResult) (rs : List WorkerResult)
      → count_done (insert place r rs) ≡ count_done (r ∷ rs)
  unfolding insert count_done
  count_done-insert r [] = refl
  count_done-insert r (q ∷ qs) = elim (Bool-cases (leb (place r) (place q))) [
    | inl front ↦ rw front refl
    | inr behind ↦ rw behind (ground (arith, count_done-insert r qs))
  ]

  count_done-sorted : (rs : List WorkerResult) → count_done (sorted place rs) ≡ count_done rs
  unfolding sorted count_done
  count_done-sorted [] = refl
  count_done-sorted (r ∷ rs) =
      ground (arith, count_done-insert r (sorted place rs), count_done-sorted rs)

count_done_bound : (rs : List WorkerResult) → count_done rs ≤ length rs
unfolding count_done
count_done_bound [] = omega arith
count_done_bound (r ∷ rs) = ground (arith, count_done_bound rs)

count_done-all_done : (rs : List WorkerResult) → (count_done rs == length rs) ≡ all_done rs
unfolding count_done all_done
count_done-all_done [] = refl
count_done-all_done (r ∷ rs) = ground (arith, count_done-all_done rs, count_done_bound rs)

swarm_status-complete :
    (rs : List WorkerResult) → (swarm_status rs ≡ complete) ↔ (count_done rs == length rs ≡ true)
unfolding swarm_status
swarm_status-complete rs = elim (Bool-cases (count_done rs == length rs)) [
  | inl all ↦ (λ h. all, λ h. rw all refl)
  | inr short ↦ elim (Bool-cases (ltb 0 (count_done rs))) [
    | inl some_done ↦ (λ h. absurd (cc (rw (short, some_done) at h)), λ h. absurd (cc (short, h)))
    | inr no_done ↦ (λ h. absurd (cc (rw (short, no_done) at h)), λ h. absurd (cc (short, h)))
  ]
]

-- Whatever order the workers end in, the report has exactly their results, each as often as it came,
-- in the plan's order, counts those that are done, and is complete exactly where all of them are.
pub run_report-in_order :
    (swarm_id : String) (plan : SwarmPlan) (results : List WorkerResult) (lost : ℕ)
    → Perm (run_report swarm_id plan results lost).results results
      × (in_order (place_of plan.subtasks) (run_report swarm_id plan results lost).results ≡ true)
      × ((run_report swarm_id plan results lost).completed ≡ count_done results)
      × ((run_report swarm_id plan results lost).total ≡ length results)
      × (((run_report swarm_id plan results lost).status ≡ complete) ↔ (all_done results ≡ true))
unfolding run_report summary
run_report-in_order swarm_id plan results lost =
    let place = place_of plan.subtasks in
    let counts : (count_done (sorted place results) == length (sorted place results))
        ≡ all_done results =
      ap (λ n. n == length (sorted place results)) (count_done-sorted place results)
      ∙ ap (λ n. count_done results == n) (length-sorted place results)
      ∙ count_done-all_done results in
    let status = swarm_status-complete (sorted place results) in
    (
      Perm-sorted place results,
      in_order-sorted place results,
      count_done-sorted place results,
      length-sorted place results,
      (λ h. sym counts ∙ status.0 h, λ h. status.1 (counts ∙ h)),
    )
