-- ===== src/Execution/Walk/Mapping.antt =====
-- The map of client ids to the pending calls is one to one.
use sanare_agent_core.Base.{
  contains, distinct, distinct-snoc, contains-append, ◌+◌, String, Bool, true, false, not, ◌&&◌,
  ◌||◌, some, List, [], ◌∷◌, ◌++◌, ◌==◌, str_eq, eq_iff, starts_with, length, length-append, ◌≡◌,
  refl, sym, ap, ◌∙◌, subst, arith, Bool-cases, Option-cases, inl, inr,
}
use mathlib.Core.Option.{some-injective}
use sanare_agent_core.Json
use sanare_agent_core.Json.{Value, null, int, text, dict, list, get, keys_within}
use sanare_agent_core.Execution.Limits.{ok, first_step, ok-injective}
use sanare_agent_core.Execution.Progress.{ModelCall, call_ids}
use sanare_agent_core.Execution.Walk.{Bound, bound_ids, find_call, bind_pair, bind_entry, bind_all}

unfoldable pub bound_calls : Bound → List ModelCall
bound_calls [] = []
bound_calls ((client, call) ∷ bs) = call ∷ bound_calls bs

find_call-id :
    (x : String) (cs : List ModelCall) (c : ModelCall) → find_call x cs ≡ some c → c.id ≡ x
unfolding find_call
find_call-id x [] c h = cc
find_call-id x (d ∷ ds) c h = elim (Option-cases (find_call x ds)) [
  | inl absent ↦ elim (Bool-cases (str_eq d.id x)) [
    | inl same ↦
        let e : d ≡ c = some-injective d c (rw (absent, same) at h) in
        subst (λ k. k.id ≡ x) e ((eq_iff d.id x).0 same)
    | inr other ↦ cc (rw (absent, other) at h)
  ]
  | inr (k, found) ↦ find_call-id x ds c (found ∙ (rw found at h))
]

-- What an accepted entry adds to the map so far.
abbrev pub Joins : List ModelCall → List String → Bound → String × ModelCall → Type 0
Joins calls used bound b =
    (contains b.0 (bound_ids bound) ≡ false)
    × (contains b.1.id used ≡ false)
    × (find_call b.1.id calls ≡ some b.1)

module _ (calls : List ModelCall) (used : List String) (bound : Bound) where
  bind_pair-Joins :
      (client model : Value) (b : String × ModelCall)
      → bind_pair calls used bound client model ≡ ok b
      → Joins calls used bound b
  unfolding bind_pair
  bind_pair-Joins (text client) (text model) b h =
      let odd : Bool =
        not (starts_with client "b1_")
        || contains client (bound_ids bound)
        || contains model used in
      elim (Bool-cases odd) [
        | inl bad ↦ cc (rw bad at h)
        | inr good ↦ elim (Option-cases (find_call model calls)) [
          | inl absent ↦ cc (rw (good, absent) at h)
          | inr (c, found) ↦
              let e : (client, c) ≡ b = ok-injective _ b (rw (good, found) at h) in
              let named : c.id ≡ model = find_call-id model calls c found in
              let unused : contains model used ≡ false = ground arith in
              subst (Joins calls used bound) e (
                ground arith,
                ap (λ x. contains x used) named ∙ unused,
                ap (λ x. find_call x calls) named ∙ found,
              )
        ]
      ]
  bind_pair-Joins (text client) null b h = cc
  bind_pair-Joins (text client) (Json.bool x) b h = cc
  bind_pair-Joins (text client) (int n) b h = cc
  bind_pair-Joins (text client) (Json.negative n) b h = cc
  bind_pair-Joins (text client) (list xs) b h = cc
  bind_pair-Joins (text client) (dict fs) b h = cc
  bind_pair-Joins null model b h = cc
  bind_pair-Joins (Json.bool x) model b h = cc
  bind_pair-Joins (int n) model b h = cc
  bind_pair-Joins (Json.negative n) model b h = cc
  bind_pair-Joins (list xs) model b h = cc
  bind_pair-Joins (dict fs) model b h = cc

  bind_entry-Joins :
      (entry : Value) (b : String × ModelCall)
      → bind_entry calls used bound entry ≡ ok b
      → Joins calls used bound b
  unfolding bind_entry
  bind_entry-Joins (dict entry) b h =
      elim (Bool-cases
        (Json.size entry == 2 && keys_within ("client_id" ∷ "model_id" ∷ []) entry)) [
          | inl formed ↦
              bind_pair-Joins (get "client_id" entry) (get "model_id" entry) b (rw formed at h)
          | inr other ↦ cc (rw other at h)
        ]
  bind_entry-Joins null b h = cc
  bind_entry-Joins (Json.bool x) b h = cc
  bind_entry-Joins (int n) b h = cc
  bind_entry-Joins (Json.negative n) b h = cc
  bind_entry-Joins (list xs) b h = cc
  bind_entry-Joins (text t) b h = cc

bound_ids-append :
    (bs : Bound) (b : String × ModelCall) → bound_ids (bs ++ b ∷ []) ≡ bound_ids bs ++ b.0 ∷ []
unfolding bound_ids
bound_ids-append [] b = refl
bound_ids-append (c ∷ bs) b = ap (λ l. c.0 ∷ l) (bound_ids-append bs b)

call_ids-append :
    (bs : Bound) (b : String × ModelCall)
    → call_ids (bound_calls (bs ++ b ∷ [])) ≡ call_ids (bound_calls bs) ++ b.1.id ∷ []
unfolding bound_calls call_ids
call_ids-append [] b = refl
call_ids-append (c ∷ bs) b = ap (λ l. c.1.id ∷ l) (call_ids-append bs b)

-- Every call of the map is one of the pending calls, under its own id.
unfoldable pub AllFound : List ModelCall → Bound → Type 0
AllFound calls [] = Unit {0}
AllFound calls (b ∷ bs) = (find_call b.1.id calls ≡ some b.1) × AllFound calls bs

AllFound-snoc :
    (calls : List ModelCall) (bs : Bound) (b : String × ModelCall)
    → AllFound calls bs
    → find_call b.1.id calls ≡ some b.1
    → AllFound calls (bs ++ b ∷ [])
unfolding AllFound
AllFound-snoc calls [] b all one = (one, tt)
AllFound-snoc calls (c ∷ bs) b all one = (all.0, AllFound-snoc calls bs b all.1 one)

-- A one-to-one map of different client ids to different pending calls.
pub record OneToOne (calls : List ModelCall) (bound : Bound) : Type 0 where
  pub clients : distinct (bound_ids bound) ≡ true
  pub models : distinct (call_ids (bound_calls bound)) ≡ true
  pub known : AllFound calls bound

-- The model ids used so far are those of the map.
abbrev Used : List String → Bound → Type 0
Used used bound = (x : String) → contains x used ≡ contains x (call_ids (bound_calls bound))

module _ (calls : List ModelCall) (bound : Bound) (b : String × ModelCall) where
  OneToOne-snoc :
      (used : List String)
      → OneToOne calls bound
      → Used used bound
      → Joins calls used bound b
      → OneToOne calls (bound ++ b ∷ [])
  OneToOne-snoc used o known joins = record {
    clients = rw (bound_ids-append bound b) (distinct-snoc (bound_ids bound) b.0 o.clients joins.0);
    models = rw (call_ids-append bound b) (
        distinct-snoc (call_ids (bound_calls bound)) b.1.id o.models
          (sym (known b.1.id) ∙ joins.1));
    known = AllFound-snoc calls bound b o.known joins.2;
  }

  Used-snoc : (used : List String) → Used used bound → Used (b.1.id ∷ used) (bound ++ b ∷ [])
  unfolding contains
  Used-snoc used known x =
      rw (call_ids-append bound b, contains-append x (call_ids (bound_calls bound)) (b.1.id ∷ []))
        (rw (known x) (ground arith))

bind_all-OneToOne :
    (calls : List ModelCall) (used : List String) (bound after : Bound) (entries : List Value)
    → OneToOne calls bound
    → Used used bound
    → bind_all calls used bound entries ≡ ok after
    → OneToOne calls after × (length after ≡ length bound + length entries)
unfolding bind_all
bind_all-OneToOne calls used bound after [] o known h =
    let e : bound ≡ after = ok-injective bound after h in
    subst (λ m. OneToOne calls m × (length m ≡ length bound + 0)) e (o, omega arith)
bind_all-OneToOne calls used bound after (entry ∷ entries) o known h =
    let (b, first, rest) = first_step (bind_entry calls used bound entry) _ h in
    let joins = bind_entry-Joins calls used bound entry b first in
    let (o', n) =
      bind_all-OneToOne calls (b.1.id ∷ used) (bound ++ b ∷ []) after entries
        (OneToOne-snoc calls bound b used o known joins) (Used-snoc calls bound b used known)
        rest in
    (o', omega (arith, n, length-append bound (b ∷ [])))

-- A mapping that is accepted gives each of its entries a client id of its own and a pending call of
-- its own, under the id that the call has in the batch.
pub bind_all_lem :
    (calls : List ModelCall) (entries : List Value) (after : Bound)
    → bind_all calls [] [] entries ≡ ok after
    → OneToOne calls after × (length after ≡ length entries)
unfolding bound_ids bound_calls distinct AllFound call_ids
bind_all_lem calls entries after h =
    let (o, n) =
      bind_all-OneToOne calls [] [] after entries
        (record { clients = refl; models = refl; known = tt }) (λ x. refl) h in
    (o, omega (arith, n))
