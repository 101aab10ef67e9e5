-- ===== src/Swarm/Parsing/Limits.antt =====
-- A plan that was parsed keeps the limits of the swarm, and numbers its parts in their order.
use sanare_agent_core.Base.{
  ℕ, suc, ◌≤◌, String, Bool, true, false, ◌&&◌, Option, none, some, List, [], ◌∷◌, leb, length, ◌≡◌,
  refl, ap, subst, arith, Bool-cases, inl, inr, str_eq, contains, distinct,
}
use mathlib.Core.Option.{some-injective}
use sanare_agent_core.Base.Options.{bind-some}
use sanare_agent_core.Text.Strings.{chars, strip}
use sanare_agent_core.Json.{Value, null, int, text, dict, Fields, get, find, keys_within}
use sanare_agent_core.Json.Shapes.{items_of, is_list}
use sanare_agent_core.Swarm.{Subtask, SwarmPlan}
use sanare_agent_core.Swarm.Parsing.{
  min_subtasks, profiles, default_profile, default_max_tokens, min_max_tokens, max_output_tokens,
  max_goal_chars, max_title_chars, max_role_chars, max_prompt_chars, max_format_chars, within,
  text_field, subtask_id, profile_of, limit_of, or_worker, subtask_from, parse_subtask,
  parse_subtasks, prompts, unless_repeated, split_of, plan_from, parse_plan, subtask_keys,
}

-- A part under its number.
pub record IsPart (index : ℕ) (s : Subtask) : Type 0 where
  pub id : s.id ≡ subtask_id index
  pub profile : contains s.profile profiles ≡ true
  pub least_tokens : min_max_tokens ≤ s.max_tokens
  pub most_tokens : s.max_tokens ≤ max_output_tokens
  pub title : chars s.title ≤ max_title_chars
  pub role : chars s.role ≤ max_role_chars
  pub prompt : chars s.prompt ≤ max_prompt_chars
  pub written : str_eq s.prompt "" ≡ false
  pub format : chars s.output_format ≤ max_format_chars

abbrev pub AreParts : ℕ → List Subtask → Type 0
AreParts index [] = Unit {0}
AreParts index (s ∷ ss) = IsPart index s × AreParts (suc index) ss

pub record IsPlan (most : ℕ) (p : SwarmPlan) : Type 0 where
  pub goal : chars p.goal ≤ max_goal_chars
  pub two : min_subtasks ≤ length p.subtasks
  pub few : length p.subtasks ≤ most
  pub parts : AreParts 1 p.subtasks
  pub different : distinct (prompts p.subtasks) ≡ true

within-chars : (limit : ℕ) (t u : String) → within limit t ≡ some u → (t ≡ u) × (chars u ≤ limit)
unfolding within
within-chars limit t u h = elim (Bool-cases (leb (chars t) limit)) [
  | inl fits ↦
      let e = some-injective t u (rw fits at h) in
      (e, subst (λ k. chars k ≤ limit) e (ground arith))
  | inr long ↦ absurd (cc (rw long at h))
]

text_field-chars :
    (required : Bool) (limit : ℕ) (v : Value) (t : String)
    → text_field required limit v ≡ some t
    → chars t ≤ limit
unfolding text_field
text_field-chars required limit (text s) t h = elim (Bool-cases (required && str_eq (strip s) "")) [
  | inl blank ↦ absurd (cc (rw blank at h))
  | inr written ↦ (within-chars limit (strip s) t (rw written at h)).1
]
text_field-chars true limit null t h = absurd cc
text_field-chars false limit null t h =
    subst (λ k. chars k ≤ limit) (some-injective "" t h) (omega arith)
text_field-chars required limit v t h = absurd cc

text_field-written :
    (limit : ℕ) (v : Value) (t : String) → text_field true limit v ≡ some t → str_eq t "" ≡ false
unfolding text_field
text_field-written limit (text s) t h = elim (Bool-cases (str_eq (strip s) "")) [
  | inl blank ↦ absurd (cc (rw blank at h))
  | inr written ↦
      let (e, fits) = within-chars limit (strip s) t (rw written at h) in
      subst (λ k. str_eq k "" ≡ false) e written
]
text_field-written limit v t h = absurd cc

profile_of-contains :
    (o : Option Value) (p : String) → profile_of o ≡ some p → contains p profiles ≡ true
unfolding profile_of contains
profile_of-contains none p h =
    subst (λ k. contains k profiles ≡ true) (some-injective default_profile p h) refl
profile_of-contains (some (text q)) p h = elim (Bool-cases (contains q profiles)) [
  | inl known ↦ subst (λ k. contains k profiles ≡ true) (some-injective q p (rw known at h)) known
  | inr other ↦ absurd (cc (rw other at h))
]
profile_of-contains (some v) p h = absurd cc

limit_of-bounds :
    (o : Option Value) (n : ℕ)
    → limit_of o ≡ some n
    → (min_max_tokens ≤ n) × (n ≤ max_output_tokens)
unfolding limit_of
limit_of-bounds none n h =
    subst (λ k. (min_max_tokens ≤ k) × (k ≤ max_output_tokens))
      (some-injective default_max_tokens n h) (omega arith)
limit_of-bounds (some (int m)) n h =
    elim (Bool-cases (leb min_max_tokens m && leb m max_output_tokens)) [
      | inl fits ↦
          subst (λ k. (min_max_tokens ≤ k) × (k ≤ max_output_tokens))
            (some-injective m n (rw fits at h)) (ground arith)
      | inr other ↦ absurd (cc (rw other at h))
    ]
limit_of-bounds (some v) n h = absurd cc

or_worker-chars :
    (role : String) → chars role ≤ max_role_chars → chars (or_worker role) ≤ max_role_chars
unfolding or_worker
or_worker-chars role h = elim (Bool-cases (str_eq role "")) [
  | inl blank ↦ rw blank (omega arith)
  | inr own ↦ rw own h
]

subtask_from-IsPart :
    (index : ℕ) (item : Fields) (s : Subtask) → subtask_from index item ≡ some s → IsPart index s
unfolding subtask_from
subtask_from-IsPart index item s h =
    let (profile, e1, h1) = bind-some (profile_of (find "profile" item)) _ s h in
    let (limit, e2, h2) = bind-some (limit_of (find "max_tokens" item)) _ s h1 in
    let (title, e3, h3) = bind-some (text_field true max_title_chars (get "title" item)) _ s h2 in
    let (role, e4, h4) = bind-some (text_field false max_role_chars (get "role" item)) _ s h3 in
    let (prompt, e5, h5) =
      bind-some (text_field true max_prompt_chars (get "prompt" item)) _ s h4 in
    let (format, e6, h6) =
      bind-some (text_field false max_format_chars (get "output_format" item)) _ s h5 in
    let (least, most) = limit_of-bounds (find "max_tokens" item) limit e2 in
    subst (IsPart index) (some-injective _ s h6) (record {
      id = refl;
      profile = profile_of-contains (find "profile" item) profile e1;
      least_tokens = least;
      most_tokens = most;
      title = text_field-chars true max_title_chars (get "title" item) title e3;
      role = or_worker-chars role (text_field-chars false max_role_chars (get "role" item) role e4);
      prompt = text_field-chars true max_prompt_chars (get "prompt" item) prompt e5;
      written = text_field-written max_prompt_chars (get "prompt" item) prompt e5;
      format = text_field-chars false max_format_chars (get "output_format" item) format e6;
    })

parse_subtask-IsPart :
    (index : ℕ) (v : Value) (s : Subtask) → parse_subtask index v ≡ some s → IsPart index s
unfolding parse_subtask
parse_subtask-IsPart index (dict item) s h = elim (Bool-cases (keys_within subtask_keys item)) [
  | inl known ↦ subtask_from-IsPart index item s (rw known at h)
  | inr other ↦ absurd (cc (rw other at h))
]
parse_subtask-IsPart index v s h = absurd cc

parse_subtasks-AreParts :
    (index : ℕ) (vs : List Value) (ss : List Subtask)
    → parse_subtasks index vs ≡ some ss
    → (length ss ≡ length vs) × AreParts index ss
unfolding parse_subtasks
parse_subtasks-AreParts index [] [] h = (refl, tt)
parse_subtasks-AreParts index [] (s ∷ ss) h = absurd cc
parse_subtasks-AreParts index (v ∷ vs) ss h =
    let (item, first, more) = bind-some (parse_subtask index v) _ ss h in
    let (rest, then_rest, done) = bind-some (parse_subtasks (suc index) vs) _ ss more in
    let (same, parts) = parse_subtasks-AreParts (suc index) vs rest then_rest in
    subst (λ k. (length k ≡ length (v ∷ vs)) × AreParts index k)
      (some-injective (item ∷ rest) ss done)
      (ap suc same, (parse_subtask-IsPart index v item first, parts))

split_of-AreParts :
    (most : ℕ) (v : Value) (ss : List Subtask)
    → split_of most v ≡ some ss
    → (min_subtasks ≤ length ss) × (length ss ≤ most) × AreParts 1 ss
unfolding split_of
split_of-AreParts most v ss h =
    elim (Bool-cases
      (is_list v && leb min_subtasks (length (items_of v)) && leb (length (items_of v)) most)) [
        | inl fits ↦
            let (same, parts) = parse_subtasks-AreParts 1 (items_of v) ss (rw fits at h) in
            (ground (arith, same), ground (arith, same), parts)
        | inr other ↦ absurd (cc (rw other at h))
      ]

plan_from-IsPlan :
    (most : ℕ) (args : Fields) (p : SwarmPlan) → plan_from most args ≡ some p → IsPlan most p
unfolding plan_from unless_repeated
plan_from-IsPlan most args p h =
    let (goal, e1, h1) = bind-some (text_field true max_goal_chars (get "goal" args)) _ p h in
    let (subtasks, e2, h2) = bind-some (split_of most (get "subtasks" args)) _ p h1 in
    let (two, few, parts) = split_of-AreParts most (get "subtasks" args) subtasks e2 in
    elim (Bool-cases (distinct (prompts subtasks))) [
      | inl different ↦ subst (IsPlan most) (some-injective _ p (rw different at h2)) (record {
        goal = text_field-chars true max_goal_chars (get "goal" args) goal e1;
        two = two;
        few = few;
        parts = parts;
        different = different;
      })
      | inr repeated ↦ absurd (cc (rw repeated at h2))
    ]

-- A plan that is parsed has at least two parts and at most as many as the setting allows, numbered in
-- order, each of a listed profile, with an output limit between 256 and 2048 and texts within their
-- limits, and no two parts with one prompt.
pub parse_plan-IsPlan :
    (most : ℕ) (v : Value) (p : SwarmPlan) → parse_plan most v ≡ some p → IsPlan most p
unfolding parse_plan
parse_plan-IsPlan most (dict args) p h =
    elim (Bool-cases (keys_within ("goal" ∷ "subtasks" ∷ []) args)) [
      | inl known ↦ plan_from-IsPlan most args p (rw known at h)
      | inr other ↦ absurd (cc (rw other at h))
    ]
parse_plan-IsPlan most v p h = absurd cc
