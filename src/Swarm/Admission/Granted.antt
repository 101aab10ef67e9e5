-- ===== src/Swarm/Admission/Granted.antt =====
-- A plan that passes the last check is the plan that the bridge was told of, and each of its parts has
-- a grant.
use sanare_agent_core.Base.{
  ℕ, ◌≤◌, String, true, false, ◌&&◌, Option, some, List, [], ◌∷◌, if◌then◌else◌, ◌≡◌, refl, subst,
  arith, Bool-cases, inl, inr, str_eq, eq_iff,
}
use mathlib.Core.Option.{some-injective}
use sanare_agent_core.Json
use sanare_agent_core.Json.{Value, null, int, text, dict, list, Fields, get}
use sanare_agent_core.Json.Shapes.{is, is_count, items_of, fields_of, is-text, is_count-int}
use sanare_agent_core.Execution.Limits.{
  legacy_input_limit, window_input_limit, admitted_input, pricing_version,
}
use sanare_agent_core.Execution.Progress.{ModelCall}
use sanare_agent_core.Swarm.{Subtask, SwarmPlan}
use sanare_agent_core.Swarm.Admission.{
  Part, Descriptor, part_of, parts_of, binding_matches, item_admits, items_admit, same_ids,
  admitted_ok, rejection_ok, check_admission, admission_record, same_part, same_parts,
  verify_execution,
}

-- What the bridge grants a part: its profile and output limit under the price list, with an input
-- within the window of the profile.
pub record Grant (v : Value) (id profile : String) (max_tokens : ℕ) : Type 0 where
  pub binding : Fields
  pub of : get "binding" (fields_of v) ≡ dict binding
  pub named : get "id" (fields_of v) ≡ text id
  pub price : get "pricing_version" binding ≡ text pricing_version
  pub same_profile : get "profile" binding ≡ text profile
  pub output : get "output_limit" binding ≡ int max_tokens
  pub input : ℕ
  pub given : get "input_limit" binding ≡ int input
  pub least : legacy_input_limit ≤ input
  pub window : ℕ
  pub window_of : window_input_limit profile ≡ some window
  pub fits : input ≤ window

abbrev pub Granted : List Value → List Subtask → Type 0
Granted [] [] = Unit {0}
Granted (v ∷ vs) (s ∷ ss) = Grant v s.id s.profile s.max_tokens × Granted vs ss
Granted vs ss = ⊥

admitted_input-window :
    (v : Value) (w : Option ℕ)
    → admitted_input v w ≡ true
    → (n : ℕ) × (v ≡ int n) × (legacy_input_limit ≤ n) × (m : ℕ) × (w ≡ some m) × (n ≤ m)
unfolding admitted_input
admitted_input-window (int n) (some m) h = (n, refl, ground arith, m, refl, ground arith)
admitted_input-window v w h = absurd cc

binding_matches-Grant :
    (item binding : Fields) (s : Subtask)
    → get "binding" item ≡ dict binding
    → is (get "id" item) s.id ≡ true
    → binding_matches (dict binding) (part_of s) ≡ true
    → Grant (dict item) s.id s.profile s.max_tokens
unfolding binding_matches fields_of part_of
binding_matches-Grant item binding s e same m =
    let (input, input_limit, least, window, window_of, fits) =
      admitted_input-window (get "input_limit" binding) (window_input_limit s.profile)
        (ground arith) in
    record {
      binding = binding;
      of = e;
      named = is-text (get "id" item) s.id same;
      price = is-text (get "pricing_version" binding) pricing_version (ground arith);
      same_profile = is-text (get "profile" binding) s.profile (ground arith);
      output = is_count-int (get "output_limit" binding) s.max_tokens (ground arith);
      input = input;
      given = input_limit;
      least = least;
      window = window;
      window_of = window_of;
      fits = fits;
    }

binding_matches-dict :
    (v : Value) (p : Part) → binding_matches v p ≡ true → (b : Fields) × (v ≡ dict b)
unfolding binding_matches
binding_matches-dict (dict b) p h = (b, refl)
binding_matches-dict v p h = absurd cc

item_admits-Grant :
    (v : Value) (s : Subtask)
    → is (get "id" (fields_of v)) s.id ≡ true
    → item_admits v (part_of s) ≡ true
    → Grant v s.id s.profile s.max_tokens
unfolding item_admits fields_of
item_admits-Grant (dict item) s same h =
    let matches : binding_matches (get "binding" item) (part_of s) ≡ true = ground arith in
    let (binding, e) = binding_matches-dict (get "binding" item) (part_of s) matches in
    binding_matches-Grant item binding s e same (rw e at matches)
item_admits-Grant v s same h = absurd cc

items_admit-Granted :
    (vs : List Value) (ss : List Subtask)
    → same_ids vs (parts_of ss) ≡ true
    → items_admit vs (parts_of ss) ≡ true
    → Granted vs ss
unfolding same_ids items_admit parts_of part_of
items_admit-Granted [] [] ids admits = tt
items_admit-Granted (v ∷ vs) (s ∷ ss) ids admits = (
  item_admits-Grant v s (ground arith) (ground arith),
  items_admit-Granted vs ss (ground arith) (ground arith),
)
items_admit-Granted [] (s ∷ ss) ids admits = absurd cc
items_admit-Granted (v ∷ vs) [] ids admits = absurd cc

same_part-eq : (a b : Part) → same_part a b ≡ true → a ≡ b
unfolding same_part
same_part-eq a b h = ground (
  arith,
  eq_iff a.id b.id,
  eq_iff a.title b.title,
  eq_iff a.role b.role,
  eq_iff a.profile b.profile,
)

same_part_refl : (a : Part) → same_part a a ≡ true
unfolding same_part
same_part_refl a = ground (
  arith,
  eq_iff a.id a.id,
  eq_iff a.title a.title,
  eq_iff a.role a.role,
  eq_iff a.profile a.profile,
)

same_parts-eq : (ps qs : List Part) → same_parts ps qs ≡ true → ps ≡ qs
unfolding same_parts
same_parts-eq [] [] h = refl
same_parts-eq (a ∷ ps) (b ∷ qs) h =
    cc (same_part-eq a b (ground arith), same_parts-eq ps qs (ground arith))
same_parts-eq [] (b ∷ qs) h = absurd cc
same_parts-eq (a ∷ ps) [] h = absurd cc

pub same_parts_refl : (ps : List Part) → same_parts ps ps ≡ true
unfolding same_parts
same_parts_refl [] = refl
same_parts_refl (a ∷ ps) = ground (arith, same_part_refl a, same_parts_refl ps)

pub check_admission-swarm_id :
    (d : Descriptor) (v : Value) (a : Fields)
    → check_admission d v ≡ some a
    → (is (get "swarm_id" a) d.swarm_id ≡ true)
      × ((if is (get "status" a) "rejected" then rejection_ok a else admitted_ok d a) ≡ true)
unfolding check_admission
check_admission-swarm_id d (dict admission) a h =
    elim (Bool-cases (
      is_count (get "version" admission) 1
      && is (get "swarm_id" admission) d.swarm_id
      && (if is (get "status" admission) "rejected"
          then rejection_ok admission
          else admitted_ok d admission))) [
            | inl good ↦
                subst
                  (λ k.
                    (is (get "swarm_id" k) d.swarm_id ≡ true)
                    × ((if is (get "status" k) "rejected" then rejection_ok k else admitted_ok d k)
                        ≡ true))
                  (some-injective admission a (rw good at h)) (ground arith, ground arith)
            | inr bad ↦ absurd (cc (rw bad at h))
          ]
check_admission-swarm_id d v a h = absurd cc

-- A status is not two texts at once.
is-one : (v : Value) (s t : String) → str_eq s t ≡ false → is v s ≡ true → is v t ≡ false
unfolding is Json.eq
is-one v s t other h = rw (is-text v s h) other

pub check_admission-admitted :
    (d : Descriptor) (v : Value) (a : Fields)
    → check_admission d v ≡ some a
    → is (get "status" a) "admitted" ≡ true
    → admitted_ok d a ≡ true
check_admission-admitted d v a h admitted =
    rw (is-one (get "status" a) "admitted" "rejected" refl admitted) at
      ((check_admission-swarm_id d v a h).1)

-- A swarm that the bridge admits and that passes the last check runs the call and the plan of the
-- descriptor, and each part of that plan has an item of the admission with its id, in order, that
-- grants its profile and its output limit at the current price list, with an input limit within the
-- context window of the profile.
pub verify_execution-Granted :
    (digest : SwarmPlan → String) (call : ModelCall) (plan : SwarmPlan) (d : Descriptor) (v : Value)
    (a : Fields)
    → check_admission d v ≡ some a
    → is (get "status" a) "admitted" ≡ true
    → verify_execution digest call plan (admission_record d a) ≡ true
    → (d.tool_call_id ≡ call.id)
      × (d.plan_sha256 ≡ digest plan)
      × Granted (items_of (get "subtasks" a)) plan.subtasks
unfolding verify_execution admitted_ok
verify_execution-Granted digest call plan d v a h admitted runs =
    let whole = check_admission-admitted d v a h admitted in
    let same = same_parts-eq d.subtasks (parts_of plan.subtasks) (ground arith) in
    let admits : items_admit (items_of (get "subtasks" a)) d.subtasks ≡ true = ground arith in
    (
      (eq_iff d.tool_call_id call.id).0 (ground arith),
      (eq_iff d.plan_sha256 (digest plan)).0 (ground arith),
      items_admit-Granted (items_of (get "subtasks" a)) plan.subtasks (ground arith)
          (subst (λ ps. items_admit (items_of (get "subtasks" a)) ps ≡ true) same admits),
    )
