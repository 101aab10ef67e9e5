-- ===== src/Stream/Published.antt =====
-- The provisional text of a generation (`TextStream` of src/deep_agent/msty_stream.py): what was shown
-- and the mark that takes it back. A chunk's texts are given; the aggregate of the chunks, which is
-- what the library returns, is the content that `finish` is given.
pub mod Honest
use sanare_agent_core.Base.{
  ℕ, zero, suc, ◌+◌, String, Bool, true, false, not, ◌&&◌, ◌||◌, Option, none, some, List, [], ◌∷◌,
  ◌++◌, ltb, leb, ◌==◌, if◌then◌else◌, length,
}
use sanare_agent_core.Text.{Text, bytes}
use sanare_agent_core.Json.{Value}
use sanare_agent_core.Json.Shapes.{is_one_of}

abbrev pub max_text_bytes : ℕ
max_text_bytes = 262_144

abbrev known_finish : List String
known_finish =
    "stop" ∷ "tool_calls" ∷ "function_call" ∷ "end_turn" ∷ "tool_use" ∷ "stop_sequence"
    ∷ "max_tokens" ∷ "length" ∷ "model_context_window_exceeded" ∷ "refusal" ∷ "content_filter" ∷ []

pub data Event : Type 0 where
  text_delta : ℕ → Text → Event
  text_invalidated : Event

-- One item of the provider's stream: a chunk with its text, and whether it carries the final usage, or
-- one that is no chunk of a message or whose content is of another shape.
pub data Item : Type 0 where
  chunk : Text → Bool → Item
  bad_item : Item

-- How the items end: the provider is done with a reason, the transport breaks, or the run is cancelled.
pub data End : Type 0 where
  over : Value → End
  broken : End
  cancelled : End

-- The stream with the events written, the last one first. `parts` are the texts shown, the last one
-- first; `usages` counts the final usages seen, and `started` says that an item was taken.
pub record Stream : Type 0 where
  pub buffered : Bool
  pub parts : List Text
  pub bytes_seen : ℕ
  pub invalidated : Bool
  pub events : List Event
  pub usages : ℕ
  pub started : Bool

unfoldable pub fresh_stream : Bool → Stream
fresh_stream buffered = record {
  buffered = buffered;
  parts = [];
  bytes_seen = 0;
  invalidated = false;
  events = [];
  usages = 0;
  started = false;
}

unfoldable pub invalidate_parts : List Text → Bool → Stream → Stream
invalidate_parts [] done s = s
invalidate_parts (t ∷ ts) true s = s
invalidate_parts (t ∷ ts) false s = record s {
  invalidated = true;
  events = text_invalidated ∷ s.events;
}

unfoldable pub invalidate : Stream → Stream
unfolding invalidate_parts
invalidate s = invalidate_parts s.parts s.invalidated s

-- The text is shown, unless it is held back for the guarded result.
unfoldable pub show : Text → Bool → Stream → Stream
show t true s = s
show t false s = record s { parts = t ∷ s.parts; events = text_delta (length s.parts) t ∷ s.events }

-- The text of a chunk; `none` is a StreamFailure, with the stream as it is then.
unfoldable pub show_text : Text → Stream → Bool × Stream
unfolding show
show_text [] s = (true, s)
show_text (c ∷ t) s =
    let n = s.bytes_seen + bytes (c ∷ t) in
    let seen = record s { bytes_seen = n } in
    if ltb max_text_bytes n then (false, seen) else (true, show (c ∷ t) s.buffered seen)

unfoldable pub note_usage : Bool → Stream → Stream
note_usage true s = record s { usages = suc s.usages }
note_usage false s = s

-- One item of the stream, and whether it goes on.
unfoldable pub step : Item → Stream → Bool × Stream
unfolding show_text note_usage
step bad_item s = (false, s)
step (chunk t final) s =
    let noted = note_usage final s in
    if final && ltb 1 noted.usages
    then (false, noted)
    else show_text t (record noted { started = true })

-- The generation ended as the provider says, with a reason that is known.
unfoldable pub confirmed : End → Stream → Bool
confirmed (over reason) s = s.started && is_one_of reason known_finish
confirmed broken s = false
confirmed cancelled s = false

-- The items in their order, then the end. A failure takes back what was shown; true means that the
-- message is returned.
unfoldable pub close_with : End → Stream → Bool × Stream
unfolding confirmed invalidate
close_with end s = if confirmed end s then (true, s) else (false, invalidate s)

unfoldable pub invoke : End → List Item → Stream → Bool × Stream
unfolding close_with invalidate step
invoke end [] s = close_with end s
invoke end (i ∷ is) s =
    let (goes_on, next) = step i s in
    let rest = invoke end is next in if goes_on then rest else (false, invalidate next)

-- ''.join(parts)
unfoldable pub shown : List Text → Text
shown [] = []
shown (t ∷ ts) = shown ts ++ t

unfoldable pub same_text : Text → Text → Bool
same_text [] [] = true
same_text (c ∷ s) (d ∷ t) = c == d && same_text s t
same_text s t = false

-- The final message, with its text and whether it was blocked, against what was shown.
unfoldable pub finish : Text → Bool → Stream → Stream
unfolding same_text invalidate
finish content blocked s =
    if not (same_text content (shown s.parts)) || blocked then invalidate s else s

-- A message that is returned is compared with what was shown.
unfoldable pub finish_with : Text → Bool → Bool × Stream → Stream
unfolding finish
finish_with content blocked (true, s) = finish content blocked s
finish_with content blocked (false, s) = s
