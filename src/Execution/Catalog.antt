-- ===== src/Execution/Catalog.antt =====
-- The tool catalog that a gateway stages for a batch (`_post_batch_catalog` of
-- src/deep_agent/msty_execution.py). Parameters: the digest, and the adapter's check of tool schemas.
use sanare_agent_core.Base.{
  contains, ℕ, String, Bool, true, false, not, ◌&&◌, ◌||◌, Option, none, some, List, [], ◌∷◌, ltb,
  ◌==◌, if◌then◌else◌, str_eq, length,
}
use sanare_agent_core.Json
use sanare_agent_core.Json.{
  Value, null, int, text, dict, list, Fields, field, Items, get, find, eq, is_null, keys_within,
  truthy, elements,
}
use sanare_agent_core.Execution.Limits.{Result, ok, raised, ◌>>=◌, ◌>>◌, refuse, bad_catalog}
use sanare_agent_core.Execution.Walk.{field_of}
use sanare_agent_core.Execution.Checks.{Waiting, or_empty_list, role_of}

as_list : Value → Result (List Value)
as_list (list xs) = ok (elements xs)
as_list v = raised bad_catalog

-- The name of a tool schema of the right form.
tool_name : Value → Option String
tool_name tool = elim (field_of "function" tool) [
  | dict function ↦ elim (get "parameters" function) [
    | dict p ↦ elim (get "name" function) [
      | text n ↦
          if eq (field_of "type" tool) (text "function") && not (str_eq n "") then some n else none
      | _ ↦ none
    ]
    | _ ↦ none
  ]
  | _ ↦ none
]

-- The names of the tools, where each has the right form and no name is there twice.
tool_names : List Value → Option (List String)
unfolding tool_name
tool_names [] = some []
tool_names (t ∷ ts) = elim (tool_name t) [
  | none ↦ none
  | some n ↦ elim (tool_names ts) [
    | none ↦ none
    | some ns ↦ if contains n ns then none else some (n ∷ ns)
  ]
]

names_ok : Option (List String) → Bool
names_ok none = false
names_ok (some ns) = true

is_one : Value → Bool
is_one (int n) = n == 1
is_one v = false

-- msty_models.MAX_TOOLS
abbrev max_tools : ℕ
max_tools = 256

module _ (digest : Value → String) (check_tools : List Value → Bool) where
  -- The fields of a staged catalog, which is for the lead, this task, this batch and these tools.
  foreign_catalog : Waiting → Fields → Bool
  unfolding is_one
  foreign_catalog w refresh =
      not (
        Json.size refresh == 6
        && keys_within
            ("version" ∷ "task_id" ∷ "batch_id" ∷ "previous_sha256" ∷ "next_sha256" ∷ "tools" ∷ [])
            refresh)
      || not (is_one (get "version" refresh))
      || not (eq (role_of w.fields) (text "lead"))
      || not (eq (get "task_id" refresh) (text w.execution.task_id))
      || not (eq (get "batch_id" refresh) (text w.pending.batch_id))
      || not (
          eq (get "previous_sha256" refresh) (text (digest (or_empty_list (get "tools" w.fields)))))

  misnamed : Fields → List Value → Bool
  unfolding tool_names names_ok
  misnamed refresh tools =
      not (names_ok (tool_names tools))
      || not (eq (get "next_sha256" refresh) (text (digest (get "tools" refresh))))

  -- The catalog that the gateway staged for this batch.
  refreshed : Waiting → Fields → Result Value
  unfolding as_list foreign_catalog misnamed
  refreshed w refresh = do
    refuse (foreign_catalog w refresh) bad_catalog
    tools ← as_list (get "tools" refresh)
    refuse (ltb max_tools (length tools) || not (check_tools tools)) bad_catalog
    refuse (misnamed refresh tools) bad_catalog
    ok (get "tools" refresh)

  catalog_from : Waiting → Value → Result Value
  unfolding refreshed
  catalog_from w null = ok (or_empty_list (get "tools" w.fields))
  catalog_from w (dict refresh) = refreshed w refresh
  catalog_from w v = raised bad_catalog

  unfoldable pub post_batch_catalog : Waiting → Fields → Result Value
  unfolding catalog_from
  post_batch_catalog w resume = catalog_from w (get "catalog_refresh" resume)
