-- ===== src/Stream/Chunks.antt =====
-- What a chunk of the stream says (`_summary_text`, `reasoning_text` and `text_content` of
-- src/deep_agent/msty_stream.py).
use sanare_agent_core.Base.{String, Option, none, some, List, [], ◌∷◌, ◌++◌, if◌then◌else◌}
use sanare_agent_core.Text.Strings.{join_with}
use sanare_agent_core.Json.{Value, text, dict, list, Fields, get, elements}
use sanare_agent_core.Json.Shapes.{is, items_of, fields_of, text_of}

-- A list with the text, if there is one.
one_text : Option String → List String
one_text none = []
one_text (some t) = t ∷ []

summary_items : List Value → List String
unfolding one_text
summary_items [] = []
summary_items (v ∷ vs) = one_text (text_of (get "text" (fields_of v))) ++ summary_items vs

-- _summary_text
unfoldable pub summary_text : Value → String
unfolding summary_items
summary_text v = join_with "" (summary_items (items_of v))

-- The reasoning of one block of the content.
block_texts : Value → List String
unfolding summary_text one_text
block_texts (dict block) =
    if is (get "type" block) "reasoning"
    then summary_text (get "summary" block) ∷ one_text (text_of (get "reasoning" block))
    else if is (get "type" block) "thinking"
    then one_text (text_of (get "thinking" block))
    else []
block_texts v = []

blocks_texts : List Value → List String
unfolding block_texts
blocks_texts [] = []
blocks_texts (v ∷ vs) = block_texts v ++ blocks_texts vs

reasoning_value : Value → List String
unfolding summary_text
reasoning_value (text t) = t ∷ []
reasoning_value (dict item) = summary_text (get "summary" item) ∷ []
reasoning_value v = []

-- The content of the chunk and its additional keys.
unfoldable pub reasoning_text : Value → Fields → String
unfolding blocks_texts reasoning_value one_text
reasoning_text content extra = join_with "" (
    blocks_texts (items_of content)
    ++ one_text (text_of (get "reasoning_content" extra))
    ++ reasoning_value (get "reasoning" extra)
    ++ one_text (text_of (get "thought" extra)))

content_block : Value → List String
unfolding one_text
content_block (text t) = t ∷ []
content_block (dict block) =
    if is (get "type" block) "text" then one_text (text_of (get "text" block)) else []
content_block v = []

content_blocks : List Value → List String
unfolding content_block
content_blocks [] = []
content_blocks (v ∷ vs) = content_block v ++ content_blocks vs

-- text_content; `none` is a StreamFailure.
unfoldable pub text_content : Value → Option String
unfolding content_blocks
text_content (text t) = some t
text_content (list parts) = some (join_with "" (content_blocks (elements parts)))
text_content v = none
