-- ===== src/Execution/Limits/Binding.antt =====
-- What the admitted input of a request can be, and that a validated binding fixes it.
use sanare_agent_core.Base.{
  ℕ, ◌+◌, ◌/◌, ◌≤◌, ◌⊎◌, min, String, Bool, true, false, not, ◌&&◌, ◌||◌, Option, none, some,
  if◌then◌else◌, eq_iff, ◌≡◌, refl, sym, ap, ◌∙◌, arith, Bool-cases, Option-cases, inl, inr,
}
use mathlib.Core.Option.{some-injective}
use sanare_agent_core.Json
use sanare_agent_core.Json.{Value, null, int, text, dict, Fields, get, eq, keys_within, is_null}
use sanare_agent_core.Execution.Limits.{
  ok, binding_mismatch, refuse, legacy_input_limit, context_window, window_limit,
  window_input_limit, admitted_input, profile_limit, number_or, limit_of, first_step, bound_limit,
  input_limit, task_id, binding_ok, validate_binding,
}

windows :
    (profile : String) (window : ℕ)
    → context_window profile ≡ some window
    → (window ≡ 1_050_000) ⊎ ((window ≡ 1_000_000) ⊎ (window ≡ 200_000))
unfolding context_window
windows profile window h = ground arith

-- The reserve for output and counting is exactly what the largest admitted input leaves of a
-- profile's window.
pub window_limit_reserve :
    (profile : String) (window : ℕ)
    → context_window profile ≡ some window
    → (legacy_input_limit ≤ window_limit window)
      × (window_limit window + min 64_000 (window / 10) ≡ window)
unfolding window_limit
window_limit_reserve profile window h = omega (arith, windows profile window h)

admitted-le :
    (v : Value) (limit : Option ℕ)
    → admitted_input v limit ≡ true
    → (n : ℕ) × (l : ℕ) × (v ≡ int n) × (limit ≡ some l) × (legacy_input_limit ≤ n) × (n ≤ l)
unfolding admitted_input
admitted-le (int n) (some l) h = (n, l, refl, refl, ground arith, ground arith)
admitted-le (int n) none h = cc
admitted-le null l h = cc
admitted-le (Json.bool b) l h = cc
admitted-le (Json.negative n) l h = cc
admitted-le (text s) l h = cc
admitted-le (Json.list xs) l h = cc
admitted-le (dict fs) l h = cc

pub eq-text : (v : Value) (s : String) → eq v (text s) ≡ true → v ≡ text s
unfolding eq
eq-text (text t) s h = ap text ((eq_iff t s).0 h)
eq-text null s h = cc
eq-text (Json.bool true) s h = cc
eq-text (Json.bool false) s h = cc
eq-text (int n) s h = cc
eq-text (Json.negative n) s h = cc
eq-text (Json.list xs) s h = cc
eq-text (dict fs) s h = cc

window_le_most : (profile : String) (l : ℕ) → window_input_limit profile ≡ some l → l ≤ 986_000
unfolding window_input_limit limit_of
window_le_most profile l h = elim (Option-cases (context_window profile)) [
  | inl absent ↦ cc (rw (absent, window_input_limit) at h)
  | inr (w, found) ↦
      let e : window_limit w ≡ l = some-injective _ l (rw (found, window_input_limit) at h) in
      omega (arith, e, window_limit_reserve profile w found, windows profile w found)
]

profile_limit_most : (v : Value) (l : ℕ) → profile_limit v ≡ some l → l ≤ 986_000
unfolding profile_limit
profile_limit_most (text p) l h = window_le_most p l h
profile_limit_most null l h = cc
profile_limit_most (Json.bool b) l h = cc
profile_limit_most (int n) l h = cc
profile_limit_most (Json.negative n) l h = cc
profile_limit_most (Json.list xs) l h = cc
profile_limit_most (dict fs) l h = cc

bound_limit_admitted :
    (b : Fields) (n : ℕ)
    → admitted_input (get "input_limit" b) (profile_limit (get "profile" b)) ≡ true
    → get "input_limit" b ≡ int n
    → bound_limit (dict b) ≡ n
unfolding bound_limit
bound_limit_admitted b n h e = rw h (unfold number_or in rw e)

bound_limit_bounds : (v : Value) → (legacy_input_limit ≤ bound_limit v) × (bound_limit v ≤ 986_000)
unfolding bound_limit
bound_limit_bounds (dict b) =
    elim (Bool-cases (admitted_input (get "input_limit" b) (profile_limit (get "profile" b)))) [
      | inl admitted ↦
          let (n, l, number, limit, low, high) =
            admitted-le (get "input_limit" b) (profile_limit (get "profile" b)) admitted in
          rw (bound_limit_admitted b n admitted number)
            (low, omega (arith, profile_limit_most (get "profile" b) l limit))
      | inr other ↦ rw other (omega arith)
    ]
bound_limit_bounds null = omega arith
bound_limit_bounds _ = omega arith

-- Whatever the checkpoint says, the admitted input is between the legacy limit and the largest
-- that a window leaves.
pub input_limit_bounds :
    (state : Fields) → (legacy_input_limit ≤ input_limit state) × (input_limit state ≤ 986_000)
unfolding input_limit
input_limit_bounds state = bound_limit_bounds (get "task_budget_binding" state)

binding_ok-limit :
    (b : Fields) (profile : String) (output : ℕ)
    → binding_ok (dict b) profile output ≡ true
    → (get "profile" b ≡ text profile)
      × (admitted_input (get "input_limit" b) (window_input_limit profile) ≡ true)
unfolding binding_ok
binding_ok-limit b profile output h =
    (eq-text (get "profile" b) profile (ground arith), ground arith)

bound-binding :
    (unnamed : Bool) (b : Fields) (profile : String) (output : ℕ)
    → (if unnamed && is_null (dict b)
        then ok tt
        else refuse (unnamed || not (binding_ok (dict b) profile output)) binding_mismatch)
      ≡ ok tt
    → binding_ok (dict b) profile output ≡ true
bound-binding unnamed b profile output h = ground arith

validated-binding :
    (is_uuid : String → Bool) (fresh : String) (state : Fields) (previous : Option String)
    (profile : String) (output : ℕ) (b : Fields)
    → get "task_budget_binding" state ≡ dict b
    → validate_binding is_uuid fresh state previous profile output ≡ ok tt
    → binding_ok (dict b) profile output ≡ true
unfolding validate_binding
validated-binding is_uuid fresh state previous profile output b e h =
    let (a, identified, checked) = first_step (task_id is_uuid fresh state previous) _ h in
    bound-binding (is_null (get "execution_task_id" state)) b profile output (rw e at checked)

-- A validated binding is the one that the admission reads: the input limit of the request is the
-- binding's own, at most what the validated profile's window leaves.
pub validate_binding-input_limit :
    (is_uuid : String → Bool) (fresh : String) (state : Fields) (previous : Option String)
    (profile : String) (output : ℕ) (b : Fields)
    → get "task_budget_binding" state ≡ dict b
    → validate_binding is_uuid fresh state previous profile output ≡ ok tt
    → (get "input_limit" b ≡ int (input_limit state))
      × (l : ℕ) × (window_input_limit profile ≡ some l)
      × (input_limit state ≤ l)
unfolding input_limit
validate_binding-input_limit is_uuid fresh state previous profile output b e h =
    let (named, admitted) =
      binding_ok-limit b profile output
        (validated-binding is_uuid fresh state previous profile output b e h) in
    let (n, l, number, limit, low, high) =
      admitted-le (get "input_limit" b) (window_input_limit profile) admitted in
    let read : bound_limit (get "task_budget_binding" state) ≡ n =
      ap bound_limit e
      ∙ bound_limit_admitted b n (unfold profile_limit in rw named admitted) number in
    (number ∙ ap int (sym read), l, limit, rw read high)
