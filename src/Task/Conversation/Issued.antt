-- ===== src/Task/Conversation/Issued.antt =====
-- The calls of the assistant in a turn, and which of them a tool's answer is about.
use sanare_agent_core.Base.{
  String, true, Option, none, some, List, [], ◌∷◌, ◌≡◌, refl, sym, ap, ◌∙◌, subst, Bool-cases, inl,
  inr, str_eq, eq_iff,
}
use mathlib.Core.Option.{some-injective}
use mathlib.Core.List.{Memᴰ}
use sanare_agent_core.Base.Dict
use sanare_agent_core.Base.Dict.{get-put}
use sanare_agent_core.Json
use sanare_agent_core.Json.{Value, text, dict, Fields, field, find, get}
use sanare_agent_core.Json.Shapes.{fields_of}
use sanare_agent_core.Task.{Host}
use sanare_agent_core.Task.Conversation.{
  Key, Calls, has_role, calls_in, call_args, note_parts, note_call, note_calls, found_call,
  content_or_empty, key_of, observation, next_calls, next_key,
}

module _ (host : Host) where
  -- A call of the assistant in these messages, under this id, with the name and the digest of the
  -- arguments.
  pub record Issued (past : List Fields) (id name sha256 : String) : Type 0 where
    pub message : Fields
    pub among : Memᴰ message past
    pub assistant : has_role "assistant" message ≡ true
    pub call : Value
    pub listed : Memᴰ call (calls_in message)
    pub under : get "id" (fields_of call) ≡ text id
    pub args : Fields
    pub parts : call_args host.parse call ≡ (text name, some args)
    pub digested : host.digest (dict args) ≡ sha256

  -- A tool's answer to a call of these messages, with the key's name and digests.
  pub record Answers (past : List Fields) (m : Fields) (k : Key) : Type 0 where
    pub tool : has_role "tool" m ≡ true
    pub id : String
    pub to : get "tool_call_id" m ≡ text id
    pub issued : Issued past id k.tool_name k.arguments_sha256
    pub observed :
        host.digest (
          dict (
            field "content"
              (content_or_empty (find "content" m))
              (field "name" (get "name" m) Json.end)))
        ≡ k.observation_sha256

  abbrev pub AllIssued : List Fields → Calls → Type 0
  AllIssued past calls =
      (id name sha256 : String)
      → Dict.get id calls ≡ some (name, sha256)
      → Issued past id name sha256

  Issued-before :
      (past : List Fields) (m : Fields) (id name sha256 : String)
      → Issued past id name sha256
      → Issued (m ∷ past) id name sha256
  Issued-before past m id name sha256 i = record {
    message = i.message;
    among = Memᴰ.tail i.among;
    assistant = i.assistant;
    call = i.call;
    listed = i.listed;
    under = i.under;
    args = i.args;
    parts = i.parts;
    digested = i.digested;
  }

  module _ (past : List Fields) (m : Fields) (assistant : has_role "assistant" m ≡ true) where
    noted :
        (c : Value) (id name : String) (args : Fields) (calls : Calls)
        → Memᴰ c (calls_in m)
        → get "id" (fields_of c) ≡ text id
        → call_args host.parse c ≡ (text name, some args)
        → AllIssued (m ∷ past) calls
        → AllIssued (m ∷ past) (Dict.put id (name, host.digest (dict args)) calls)
    noted c id name args calls listed under parts h j n d found =
        let put = get-put id j (name, host.digest (dict args)) calls in
        elim (Bool-cases (str_eq id j)) [
          | inl same ↦
              let e : (name, host.digest (dict args)) ≡ (n, d) =
                some-injective _ _ (sym (put ∙ (rw same refl)) ∙ found) in
              let k : id ≡ j = (eq_iff id j).0 same in
              record {
                message = m;
                among = Memᴰ.head refl;
                assistant = assistant;
                call = c;
                listed = listed;
                under = under ∙ ap text k;
                args = args;
                parts = parts ∙ ap (λ x. (text x, some args)) (ap (λ x. x.0) e);
                digested = ap (λ x. x.1) e;
              }
          | inr other ↦ h j n d (sym (put ∙ (rw other refl)) ∙ found)
        ]

    note_parts-AllIssued :
        (c v : Value) (p : Value × Option Fields) (calls : Calls)
        → Memᴰ c (calls_in m)
        → get "id" (fields_of c) ≡ v
        → call_args host.parse c ≡ p
        → AllIssued (m ∷ past) calls
        → AllIssued (m ∷ past) (note_parts host v p calls)
    unfolding note_parts
    note_parts-AllIssued c (text id) (text name, some args) calls listed under parts h =
        noted c id name args calls listed under parts h
    note_parts-AllIssued c v p calls listed under parts h = h

    note_calls-AllIssued :
        (cs : List Value) (calls : Calls)
        → ((c : Value) → Memᴰ c cs → Memᴰ c (calls_in m))
        → AllIssued (m ∷ past) calls
        → AllIssued (m ∷ past) (note_calls host cs calls)
    unfolding note_calls note_call
    note_calls-AllIssued [] calls within h = h
    note_calls-AllIssued (c ∷ cs) calls within h =
        note_calls-AllIssued cs _ (λ d at. within d (Memᴰ.tail at))
          (note_parts-AllIssued c (get "id" (fields_of c)) (call_args host.parse c) calls
            (within c (Memᴰ.head refl)) refl refl h)

    next_calls-AllIssued_here :
        (calls : Calls)
        → AllIssued past calls
        → AllIssued (m ∷ past) (note_calls host (calls_in m) calls)
    next_calls-AllIssued_here calls h =
        note_calls-AllIssued (calls_in m) calls (λ c at. at)
          (λ id n d found. Issued-before past m id n d (h id n d found))

  pub next_calls-AllIssued :
      (past : List Fields) (m : Fields) (calls : Calls)
      → AllIssued past calls
      → AllIssued (m ∷ past) (next_calls host m calls)
  unfolding next_calls
  next_calls-AllIssued past m calls h = elim (Bool-cases (has_role "assistant" m)) [
    | inl assistant ↦ rw assistant (next_calls-AllIssued_here past m assistant calls h)
    | inr other ↦ rw other (λ id n d found. Issued-before past m id n d (h id n d found))
  ]

  observation-Answers :
      (past : List Fields) (m : Fields) (calls : Calls) (k : Key)
      → AllIssued past calls
      → has_role "tool" m ≡ true
      → (v : Value) → get "tool_call_id" m ≡ v
      → (o : Option (String × String)) → found_call host v calls ≡ o
      → elim o [ none ↦ none | some call ↦ some (key_of host call m) ] ≡ some k
      → Answers past m k
  unfolding found_call key_of
  observation-Answers past m calls k h tool (text id) to (some (name, sha256)) found e =
      subst (Answers past m) (some-injective _ k e)
        (record { tool = tool; id = id; to = to; issued = h id name sha256 found; observed = refl })
  observation-Answers past m calls k h tool v to none found e = absurd cc
  observation-Answers past m calls k h tool v to (some call) found e = absurd (cc found)

  pub next_key-Answers :
      (past : List Fields) (m : Fields) (calls : Calls) (k : Key)
      → AllIssued past calls
      → next_key host m calls ≡ some k
      → Answers past m k
  unfolding next_key observation
  next_key-Answers past m calls k h e = elim (Bool-cases (has_role "assistant" m)) [
    | inl assistant ↦ absurd (cc (rw assistant at e))
    | inr other ↦ elim (Bool-cases (has_role "tool" m)) [
      | inl tool ↦
          observation-Answers past m calls k h tool (get "tool_call_id" m) refl _ refl
            (rw (other, tool) at e)
      | inr plain ↦ absurd (cc (rw (other, plain) at e))
    ]
  ]
