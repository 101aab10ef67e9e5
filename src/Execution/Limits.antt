-- ===== src/Execution/Limits.antt =====
-- The task's identity, its budget binding and the admitted input (`window_input_limit`,
-- `input_limit`, `task_id`, `validate_binding` of src/deep_agent/msty_execution.py). The state is the
-- checkpoint's dictionary. Whether a text is a canonical UUID, and a fresh UUID, are parameters.
pub mod Binding
use sanare_agent_core.Base.{
  contains, ℕ, zero, suc, ◌-◌, ◌/◌, min, max, String, Bool, true, false, not, ◌&&◌, ◌||◌, Option,
  none, some, List, [], ◌∷◌, ltb, leb, ◌==◌, if◌then◌else◌, str_eq, ◌≡◌, refl,
}
use sanare_agent_core.Json
use sanare_agent_core.Json.{Value, null, int, text, dict, Fields, get, eq, keys_within, is_null}

-- The reasons of an ExecutionProtocolError, one for each message of the source, and the TypeError or
-- AttributeError that Python raises on a value of a shape that the code does not expect.
pub data Refusal : Type 0 where
  bad_task_id task_changed binding_mismatch bad_counter actions_exhausted repeated_call : Refusal
  other_step bad_fields result_replaced stale_check bad_stream role_changed task_terms_changed :
      Refusal
  tools_changed output_raised bound_output_changed incomplete_mapping bad_mapping foreign_mapping :
      Refusal
  bad_history no_turn new_turn repeated_pending bad_arguments pending_changed stray_result : Refusal
  missing_results bad_catalog type_error : Refusal

-- What a call gives that may raise: `raised` stands for the exception.
pub data Result {ℓ} (A : Type ℓ) : Type ℓ where
  raised : Refusal → Result A
  ok : A → Result A

-- if bad: raise
abbrev pub refuse : Bool → Refusal → Result (Unit {0})
refuse false _ = ok tt
refuse true reason = raised reason

-- A guard that lets the code go on was not met.
pub refuse-ok :
    (bad : Bool) (reason : Refusal) {t : Unit {0}} → refuse bad reason ≡ ok t → bad ≡ false
refuse-ok false reason h = refl
refuse-ok true reason h = cc

infixl 5 ◌>>=◌ ◌>>◌
abbrev pub ◌>>=◌ {ℓ} : {A B : Type ℓ} → Result A → (A → Result B) → Result B
raised reason >>= next = raised reason
ok value >>= next = next value

abbrev pub ◌>>◌ : {B : Type 0} → Result (Unit {0}) → Result B → Result B
first >> second = first >>= (λ done. second)

pub ok-injective {ℓ} : {A : Type ℓ} (a b : A) → ok a ≡ ok b → a ≡ b
ok-injective a b h = cc

-- The steps of a call that returns: its first part returned a value, and the rest went on from it.
pub first_step {ℓ} :
    {A B : Type ℓ} (part : Result A) (rest : A → Result B) {last : B}
    → (part >>= rest) ≡ ok last
    → (value : A) × (part ≡ ok value) × (rest value ≡ ok last)
first_step (raised reason) rest h = cc
first_step (ok value) rest h = (value, refl, h)

abbrev pub legacy_input_limit : ℕ
legacy_input_limit = 180_000

-- CONTEXT_WINDOWS
unfoldable pub context_window : String → Option ℕ
context_window p =
    if contains p ("luna" ∷ "astra" ∷ "sol" ∷ "sol6" ∷ [])
    then some 1_050_000
    else if str_eq p "deepseek"
    then some 1_000_000
    else if contains p ("opus" ∷ "fable" ∷ "sonnet" ∷ "opus5" ∷ [])
    then some 200_000
    else none

unfoldable pub window_limit : ℕ → ℕ
window_limit window = max legacy_input_limit (window - min 64_000 (window / 10))

limit_of : Option ℕ → Option ℕ
limit_of none = none
limit_of (some w) = some (window_limit w)

-- `none` for a profile without a window, a KeyError in the source.
unfoldable pub window_input_limit : String → Option ℕ
unfolding window_limit limit_of
window_input_limit profile = limit_of (context_window profile)

-- LEGACY_INPUT_LIMIT <= value <= limit, of a value that is an int and no bool.
unfoldable pub admitted_input : Value → Option ℕ → Bool
admitted_input (int n) (some limit) = leb legacy_input_limit n && leb n limit
admitted_input _ _ = false

profile_limit : Value → Option ℕ
profile_limit (text p) = window_input_limit p
profile_limit _ = none

number_or : Value → ℕ → ℕ
number_or (int n) d = n
number_or _ d = d

bound_limit : Value → ℕ
unfolding admitted_input profile_limit number_or
bound_limit (dict binding) =
    let value = get "input_limit" binding in
    if admitted_input value (profile_limit (get "profile" binding))
    then number_or value legacy_input_limit
    else legacy_input_limit
bound_limit _ = legacy_input_limit

unfoldable pub input_limit : Fields → ℕ
unfolding bound_limit
input_limit state = bound_limit (get "task_budget_binding" state)

abbrev pub pricing_version : String
pricing_version = "2026-09-23-brain-model-profiles-v4-luna6"

-- BINDING_PROFILES
binding_profile : String → Bool
binding_profile p = contains p ("luna" ∷ "deepseek" ∷ "sol6" ∷ "opus5" ∷ [])

is_int : Value → Bool
is_int (int n) = true
is_int (Json.negative n) = true
is_int _ = false

binding_ok : Value → String → ℕ → Bool
unfolding binding_profile is_int
binding_ok (dict binding) profile output_limit =
    binding_profile profile
    && Json.size binding == 5
    && keys_within ("version" ∷ "pricing_version" ∷ "profile" ∷ "output_limit" ∷ "input_limit" ∷ [])
        binding
    && eq (get "version" binding) (int 1)
    && eq (get "pricing_version" binding) (text pricing_version)
    && eq (get "profile" binding) (text profile)
    && eq (get "output_limit" binding) (int output_limit)
    && is_int (get "version" binding)
    && is_int (get "output_limit" binding)
    && admitted_input (get "input_limit" binding) (window_input_limit profile)
binding_ok _ profile output_limit = false

module _ (is_uuid : String → Bool) (fresh : String) where
  -- `previous` is the task of the execution so far.
  choose_id : Value → Option String → Result String
  choose_id null none = ok fresh
  choose_id null (some previous) = if str_eq previous "" then ok fresh else ok previous
  choose_id (text supplied) none = if is_uuid supplied then ok supplied else raised bad_task_id
  choose_id (text supplied) (some previous) =
      if not (is_uuid supplied)
      then raised bad_task_id
      else if str_eq previous supplied
      then ok previous
      else raised task_changed
  choose_id _ previous = raised bad_task_id

  unfoldable pub task_id : Fields → Option String → Result String
  unfolding choose_id
  task_id state previous = choose_id (get "execution_task_id" state) previous

  -- No binding is asked of a task without an id and without one.
  unfoldable pub validate_binding : Fields → Option String → String → ℕ → Result (Unit {0})
  unfolding binding_ok
  validate_binding state previous profile output_limit = do
    _ ← task_id state previous
    let binding = get "task_budget_binding" state
    let unnamed = is_null (get "execution_task_id" state)
    if unnamed && is_null binding
        then ok tt
        else refuse (unnamed || not (binding_ok binding profile output_limit)) binding_mismatch
