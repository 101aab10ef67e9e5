-- ===== src/Task/Receipts.antt =====
-- Finding the receipt in a tool's answer (`_decode` of src/deep_agent/msty_task.py): JSON texts, MCP
-- text contents and HTTP envelopes, to a bounded depth.
use sanare_agent_core.Base.{
  ℕ, zero, suc, String, Bool, false, ◌&&◌, ◌||◌, Option, none, some, [], ◌∷◌, ltb, leb,
  if◌then◌else◌,
}
use sanare_agent_core.Json
use sanare_agent_core.Json.{
  Value, null, int, text, dict, list, Fields, Items, get, find, has, eq, truthy,
}
use sanare_agent_core.Json.Shapes.{is, keys_are}

-- 200 <= status < 300, of an int.
is_success : Value → Bool
is_success (int n) = leb 200 n && ltb n 300
is_success v = false

-- The two readings of a result; where both are there, they must agree.
agreed : Option Value → Option Value → Option Value
agreed (some structured) (some words) = if eq structured words then some structured else none
agreed (some structured) none = some structured
agreed none words = words

-- `levels` are the envelopes that may still be opened; the source counts them up from 0 to 8.
module _ (parse : String → Option Value) where
  decode_at : ℕ → Value → Option Value
  unfolding is_success agreed
  decode_at zero v = none
  decode_at (suc levels) (text s) = elim (parse s) [ none ↦ none | some v ↦ decode_at levels v ]
  decode_at (suc levels) (list (Json.item (dict part) Json.nil)) =
      let inner = decode_at levels (get "text" part) in
      if is (get "type" part) "text" then inner else none
  decode_at (suc levels) (dict fs) =
      let body = decode_at levels (get "body" fs) in
      let structured : Option Value = elim (find "structuredContent" fs) [
        | none ↦ none
        | some v ↦ decode_at levels v
      ] in
      let words : Option Value = elim (find "content" fs) [
        | none ↦ none
        | some v ↦ decode_at levels v
      ] in
      if truthy (get "isError" fs)
      then none
      else if has "status" fs || has "body" fs
      then (if keys_are ("status" ∷ "body" ∷ []) fs && is_success (get "status" fs)
          then body
          else none)
      else if has "schema" fs
      then some (dict fs)
      else agreed structured words
  decode_at (suc levels) v = none

  -- depth > 8 gives None: nine levels are read.
  unfoldable pub decode : Value → Option Value
  unfolding decode_at
  decode = decode_at 9
