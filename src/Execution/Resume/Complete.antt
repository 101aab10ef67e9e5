-- ===== src/Execution/Resume/Complete.antt =====
-- What an accepted resume gives: the whole batch, answered, behind the history of the checkpoint.
use sanare_agent_core.Base.{
  distinct, ℕ, suc, String, Bool, true, false, not, ◌||◌, Option, none, List, [], ◌∷◌, ◌++◌, length,
  ◌==◌, ==_iff, ◌≡◌, refl, sym, ap, ◌∙◌, subst, arith, Bool-cases, inl, inr,
}
use sanare_agent_core.Json
use sanare_agent_core.Json.{
  Value, null, int, text, dict, list, Fields, get, eq, elements, is_null, truthy,
}
use sanare_agent_core.Execution.Limits.{
  ok, refuse, first_step, ok-injective, refuse-ok, other_step, bad_fields, missing_results,
}
use sanare_agent_core.Execution.Progress.{ModelCall, running}
use sanare_agent_core.Execution.Walk.{Bound, bound_ids, bind_all, Seen, see_all, same_set}
use sanare_agent_core.Execution.Walk.Mapping.{OneToOne, bind_all_lem}
use sanare_agent_core.Execution.Walk.Observation.{Answered, nothing_seen, see_all-Answered}
use sanare_agent_core.Execution.Checks.{
  Waiting, Resumed, as_dict, as_entries, check_step, check_input, check_output,
}
use sanare_agent_core.Execution.Resume.{
  validate_resume, matched, same_turn, observed, resumed, assistant_turn, paused_content,
  post_batch_catalog,
}

length-bound_ids : (bs : Bound) → length (bound_ids bs) ≡ length bs
unfolding bound_ids
length-bound_ids [] = refl
length-bound_ids (b ∷ bs) = ap suc (length-bound_ids bs)

as_dict-ok : (v : Value) (e : _) (fs : Fields) → as_dict v e ≡ ok fs → v ≡ dict fs
unfolding as_dict
as_dict-ok (dict gs) e fs h = ap dict (ok-injective gs fs h)
as_dict-ok null e fs h = cc
as_dict-ok (Json.bool b) e fs h = cc
as_dict-ok (int n) e fs h = cc
as_dict-ok (Json.negative n) e fs h = cc
as_dict-ok (text t) e fs h = cc
as_dict-ok (list xs) e fs h = cc

as_entries-length : (v : Value) (n : ℕ) (es : List Value) → as_entries v n ≡ ok es → length es ≡ n
unfolding as_entries
as_entries-length (list xs) n es h = elim (Bool-cases (length (elements xs) == n)) [
  | inl same ↦
      let e : elements xs ≡ es = ok-injective _ es (rw same at h) in
      ap length (sym e) ∙ (==_iff (length (elements xs)) n).0 same
  | inr other ↦ cc (rw other at h)
]
as_entries-length null n es h = cc
as_entries-length (Json.bool b) n es h = cc
as_entries-length (int k) n es h = cc
as_entries-length (Json.negative k) n es h = cc
as_entries-length (text t) n es h = cc
as_entries-length (dict fs) n es h = cc

-- The batch of the checkpoint, bound one to one and answered in full.
pub record WholeBatch (calls : List ModelCall) (bound : Bound) (new : List Value) : Type 0 where
  pub binding : OneToOne calls bound
  pub every : length bound ≡ length calls
  pub answered : Answered (bound_ids bound) new
  pub count : length new ≡ length calls

module _ (digest : Value → String) (turn_form : Value → Option Value)
    (parse : String → Option Value) (dump : Value → String) (check_tools : List Value → Bool)
    (observe : Bound → List Value → Value) where
  observed-Answered :
      (bound : Bound) (messages : List Value) (seen : Seen)
      → distinct (bound_ids bound) ≡ true
      → observed digest turn_form parse dump check_tools observe bound messages ≡ ok seen
      → Answered (bound_ids bound) seen.new × (length seen.new ≡ length (bound_ids bound))
  unfolding observed
  observed-Answered bound messages seen d h =
      let (s, walked, rest) = first_step (see_all digest parse bound messages nothing_seen) _ h in
      let missing : Bool =
        not (same_set s.calls (bound_ids bound)) || not (same_set s.results (bound_ids bound)) in
      let (go, complete, last) = first_step (refuse missing missing_results) _ rest in
      let all : missing ≡ false = refuse-ok missing missing_results complete in
      let results : same_set s.results (bound_ids bound) ≡ true = ground arith in
      subst (λ t. Answered (bound_ids bound) t.new × (length t.new ≡ length (bound_ids bound)))
        (ok-injective s seen last) (see_all-Answered digest parse bound messages s d walked results)

  matched-WholeBatch :
      (w : Waiting) (resume incoming : Fields) (m : Bound × Seen)
      → matched digest turn_form parse dump check_tools observe w resume incoming ≡ ok m
      → WholeBatch w.pending.calls m.0 m.1.new
  unfolding matched
  matched-WholeBatch w resume incoming m h =
      let (entries, listed, rest) =
        first_step (as_entries (get "tool_id_map" resume) (length w.pending.calls)) _ h in
      let (bound, mapped, rest) = first_step (bind_all w.pending.calls [] [] entries) _ rest in
      let (messages, turn, rest) =
        first_step
          (same_turn digest turn_form parse dump check_tools observe w (get "messages" incoming)) _
          rest in
      let (seen, walked, last) =
        first_step (observed digest turn_form parse dump check_tools observe bound messages) _
          rest in
      let (one, n) = bind_all_lem w.pending.calls entries bound mapped in
      let (answered, k) = observed-Answered bound messages seen one.clients walked in
      let e =
        as_entries-length (get "tool_id_map" resume) (length w.pending.calls) entries listed in
      subst (λ p. WholeBatch w.pending.calls p.0 p.1.new) (ok-injective _ m last)
        (record {
          binding = one;
          every = n ∙ e;
          answered = answered;
          count = k ∙ length-bound_ids bound ∙ n ∙ e;
        })

  -- What a resume that is accepted leaves behind.
  pub record Continues (w : Waiting) (r : Resumed) : Type 0 where
    pub bound : Bound
    pub new : List Value
    pub content : Value
    pub paused : paused_content w ≡ ok content
    pub whole : WholeBatch w.pending.calls bound new
    pub messages : r.messages ≡ w.messages ++ assistant_turn dump content bound ∷ new
    pub task : r.execution ≡ record w.execution { status = running; pending = none }
    pub contract : r.contract ≡ observe bound new

  -- The parts that an accepted resume is made of.
  pub record Parts (w : Waiting) (resume : Value) (r : Resumed) : Type 0 where
    pub fields : Fields
    pub sent : resume ≡ dict fields
    pub step : (t : Unit {0}) × (check_step w fields ≡ ok t)
    pub incoming : Fields
    pub input : get "input" fields ≡ dict incoming
    pub unchanged : (t : Unit {0}) × (check_input digest w incoming ≡ ok t)
    pub output : (n : ℕ) × (check_output w incoming ≡ ok n)
    pub found :
        (m : Bound × Seen) × (matched digest turn_form parse dump check_tools observe w fields
            incoming
          ≡ ok m)
    pub content : Value
    pub paused : paused_content w ≡ ok content
    pub tools : Value
    pub catalog : post_batch_catalog digest check_tools w fields ≡ ok tools
    pub result :
        resumed digest turn_form parse dump check_tools observe w incoming found.0.0 found.0.1
          content tools
        ≡ r

  pub validate_resume-Parts :
      (w : Waiting) (resume : Value) (r : Resumed)
      → validate_resume digest turn_form parse dump check_tools observe w resume ≡ ok r
      → Parts w resume r
  unfolding validate_resume
  validate_resume-Parts w resume r h =
      let (fields, sent, rest) = first_step (as_dict resume other_step) _ h in
      let (t, step, rest) = first_step (check_step w fields) _ rest in
      let (incoming, input, rest) = first_step (as_dict (get "input" fields) bad_fields) _ rest in
      let (u, unchanged, rest) = first_step (check_input digest w incoming) _ rest in
      let (n, output, rest) = first_step (check_output w incoming) _ rest in
      let (m, found, rest) =
        first_step (matched digest turn_form parse dump check_tools observe w fields incoming) _
          rest in
      let (content, paused, rest) = first_step (paused_content w) _ rest in
      let (tools, catalog, last) =
        first_step (post_batch_catalog digest check_tools w fields) _ rest in
      record {
        fields = fields;
        sent = as_dict-ok resume other_step fields sent;
        step = (t, step);
        incoming = incoming;
        input = as_dict-ok (get "input" fields) bad_fields incoming input;
        unchanged = (u, unchanged);
        output = (n, output);
        found = (m, found);
        content = content;
        paused = paused;
        tools = tools;
        catalog = catalog;
        result = ok-injective _ r last;
      }

  -- A resume that is accepted binds the batch of the checkpoint one to one to client ids, answers
  -- each call exactly once, appends to the history the paused answer and those answers only, and
  -- leaves the task's identity, step and action count as they were.
  pub validate_resume-Continues :
      (w : Waiting) (resume : Value) (r : Resumed)
      → validate_resume digest turn_form parse dump check_tools observe w resume ≡ ok r
      → Continues w r
  unfolding resumed
  validate_resume-Continues w resume r h =
      let p = validate_resume-Parts w resume r h in
      subst (Continues w) p.result (record {
        bound = p.found.0.0;
        new = p.found.0.1.new;
        content = p.content;
        paused = p.paused;
        whole = matched-WholeBatch w p.fields p.incoming p.found.0 p.found.1;
        messages = refl;
        task = refl;
        contract = refl;
      })
