-- ===== src/Swarm/Worker.antt =====
-- One worker of a swarm (`_content_text`, `_identity`, `_event`, `_result` and `_worker_call` of
-- src/deep_agent/msty_swarm.py): a single model call behind the circuit of its profile.
pub mod Circuit
pub mod Outcome
use sanare_agent_core.Base.{
  ℕ, String, Bool, true, false, not, ◌&&◌, ◌||◌, Option, none, some, List, [], ◌∷◌, ltb, leb,
  if◌then◌else◌, str_eq, string_append,
}
use sanare_agent_core.Base.Options.{◌>>=◌}
use sanare_agent_core.Text.Strings.{chars, strip, first, join_with}
use sanare_agent_core.Json
use sanare_agent_core.Json.{Value, null, text, dict, list, Fields, field, get, find, elements}
use sanare_agent_core.Json.Shapes.{is, is_one_of, text_of}
use sanare_agent_core.Execution.Progress.{finish_reason}
use sanare_agent_core.Breaker.{
  Breaker, admit, record_success, record_transient_failure, release_probe,
}
use sanare_agent_core.Swarm.{Subtask}

-- What the worker is asked.
unfoldable pub task_text : String → Subtask → String
task_text goal sub =
    string_append
      (join_with "" (
        "Общая цель роя: " ∷ goal ∷ "\n\nТвоя подзадача «" ∷ sub.title ∷ "» (роль: " ∷ sub.role
        ∷ "):\n" ∷ sub.prompt ∷ []))
      (if str_eq sub.output_format ""
        then ""
        else string_append "\n\nФормат ответа: " sub.output_format)

abbrev pub provider_unavailable : String
provider_unavailable = "provider_unavailable"

abbrev pub max_result_chars : ℕ
max_result_chars = 6_000

pub data WorkerStatus : Type 0 where
  running done incomplete failed timeout : WorkerStatus

-- An exception that the worker keeps: a timeout, the adapter's refusal of a model, or any other by
-- the name of its type.
pub data Failure : Type 0 where
  timed_out refused_model : Failure
  other : String → Failure

-- An answer of the model: its content, the checked usage (`none` where it cannot be told) and the
-- metadata that the adapter stamped.
pub record Answer : Type 0 where
  pub content : Value
  pub usage : Option Fields
  pub metadata : Fields

-- What becomes of the call: it cannot be made, it raises (a transient failure or not), its answer is
-- refused by the adapter, it answers, or the run is cancelled meanwhile.
pub data Call : Type 0 where
  not_made : Failure → Call
  raised : Failure → Bool → Call
  rejected : Failure → Option Fields → Call
  answered : Answer → Call
  cancelled : Call

-- part.get('text', ''), which `join` takes only if it is a text.
joined_text : Option Value → Option String
joined_text none = some ""
joined_text (some v) = text_of v

text_part : Value → Option String
unfolding joined_text
text_part (dict part) =
    if is (get "type" part) "text" then joined_text (find "text" part) else some ""
text_part v = some ""

text_parts : List Value → Option (List String)
unfolding text_part
text_parts [] = some []
text_parts (v ∷ vs) = do t ← text_part v; ts ← text_parts vs; some (t ∷ ts)

-- _content_text; `none` is the TypeError of `join` at a text that is none.
unfoldable pub content_text : Value → Option String
unfolding text_parts
content_text (text t) = some t
content_text (list parts) = do ts ← text_parts (elements parts); some (join_with "" ts)
content_text v = some ""

identity_from : List String → Fields → Fields
identity_from [] metadata = Json.end
identity_from (k ∷ ks) metadata =
    let rest = identity_from ks metadata in
    elim (text_of (get k metadata)) [ none ↦ rest | some t ↦ field k (text t) rest ]

-- _identity
unfoldable pub identity : Option Fields → Option Fields
unfolding identity_from
identity none = none
identity (some metadata) =
    elim (identity_from ("model_name" ∷ "msty_model_profile" ∷ "msty_model_provider" ∷ [])
      metadata) [ Json.end ↦ none | picked ↦ some picked ]

-- An event of the worker; the source's `elapsed_ms` is not kept.
pub record Event : Type 0 where
  pub subtask : String
  pub profile : String
  pub status : WorkerStatus
  pub started : Option Bool
  pub usage : Option Fields
  pub identity : Option Fields
  pub reason : Option String
  pub chars : ℕ
  pub error : Option String

-- The counts of a usage that a result names.
pub record WorkerResult : Type 0 where
  pub id : String
  pub title : String
  pub role : String
  pub profile : String
  pub status : WorkerStatus
  pub error : Option String
  pub reason : Option String
  pub usage : Option (Value × Value)
  pub text : String

usage_counts : Option Fields → Option (Value × Value)
usage_counts none = none
usage_counts (some usage) = some (get "input_tokens" usage, get "output_tokens" usage)

unfoldable pub shortened : String → String
shortened t =
    if ltb max_result_chars (chars t)
    then string_append (first max_result_chars t) "…(усечено)"
    else t

-- _result
unfoldable pub result_of :
    Subtask → WorkerStatus → Option String → Value → Option Fields → String → WorkerResult
unfolding usage_counts shortened
result_of sub status error reason usage words = record {
  id = sub.id;
  title = sub.title;
  role = sub.role;
  profile = sub.profile;
  status = status;
  error = error;
  reason = text_of reason;
  usage = usage_counts usage;
  text = shortened words;
}

-- What the call leaves: whether it was started, the status and the error, and what was read of it.
pub record Reading : Type 0 where
  pub started : Bool
  pub status : WorkerStatus
  pub error : Option String
  pub reason : Value
  pub usage : Option Fields
  pub metadata : Option Fields
  pub words : String

unfoldable pub failure_status : Failure → WorkerStatus
failure_status timed_out = timeout
failure_status failure = failed

unfoldable pub failure_error : Bool → Failure → String
failure_error started timed_out = "timeout"
failure_error started refused_model = if started then "model_identity" else "model_setup"
failure_error started (other name) = first 60 name

unfoldable pub failure_reading : Bool → Option Fields → Failure → Reading
unfolding failure_status failure_error
failure_reading started usage failure = record {
  started = started;
  status = failure_status failure;
  error = some (failure_error started failure);
  reason = null;
  usage = usage;
  metadata = none;
  words = "";
}

-- The status and the error of an answer.
unfoldable pub verdict : Value → String → WorkerStatus × Option String
verdict reason words =
    if is_one_of reason ("length" ∷ "max_tokens" ∷ [])
    then (incomplete, none)
    else if str_eq words ""
    then (failed, some "empty")
    else (done, none)

-- An answer is read after its usage, its metadata and its reason are known.
unfoldable pub words_reading : Answer → Value → Option String → Reading
unfolding verdict failure_status failure_error
words_reading a reason none = record {
  started = true;
  status = failure_status (other "TypeError");
  error = some (failure_error true (other "TypeError"));
  reason = reason;
  usage = a.usage;
  metadata = some a.metadata;
  words = "";
}
words_reading a reason (some content) =
    let words = strip content in
    record {
      started = true;
      status = (verdict reason words).0;
      error = (verdict reason words).1;
      reason = reason;
      usage = a.usage;
      metadata = some a.metadata;
      words = words;
    }

unfoldable pub answer_reading : Answer → Reading
unfolding words_reading content_text
answer_reading a = words_reading a (finish_reason (dict a.metadata)) (content_text a.content)

-- `none` where the run is cancelled: then the exception goes on.
unfoldable pub reading : Call → Option Reading
unfolding answer_reading failure_reading
reading (not_made failure) = some (failure_reading false none failure)
reading (raised failure transient) = some (failure_reading true none failure)
reading (rejected failure usage) = some (failure_reading true usage failure)
reading (answered a) = some (answer_reading a)
reading cancelled = none

-- What the call does to the circuit of its profile.
unfoldable pub recorded : ℕ → String → Call → Breaker → Breaker
recorded now connection (not_made failure) b = b
recorded now connection (raised failure true) b = (record_transient_failure now connection b).1
recorded now connection (raised failure false) b = record_success connection b
recorded now connection (rejected failure usage) b = record_success connection b
recorded now connection (answered a) b = record_success connection b
recorded now connection cancelled b = b

unfoldable pub connection_of : Subtask → String
connection_of sub = string_append "model:" sub.profile

unfoldable pub running_event : Subtask → Event
running_event sub = record {
  subtask = sub.id;
  profile = sub.profile;
  status = running;
  started = none;
  usage = none;
  identity = none;
  reason = none;
  chars = 0;
  error = none;
}

unfoldable pub final_event : Subtask → Reading → Event
unfolding identity
final_event sub r = record {
  subtask = sub.id;
  profile = sub.profile;
  status = r.status;
  started = some r.started;
  usage = r.usage;
  identity = identity r.metadata;
  reason = text_of r.reason;
  chars = chars r.words;
  error = r.error;
}

-- A circuit that is open: nothing is called.
unfoldable pub unavailable : Reading
unavailable = record {
  started = false;
  status = failed;
  error = some provider_unavailable;
  reason = null;
  usage = none;
  metadata = none;
  words = "";
}

unfoldable pub read_result : Subtask → Reading → WorkerResult
unfolding result_of
read_result sub r = result_of sub r.status r.error r.reason r.usage r.words

-- The result, the events and the circuits. `call` is what becomes of the model call if it is made.
pub record Run : Type 0 where
  pub result : Option WorkerResult
  pub events : List Event
  pub breaker : Breaker

abbrev pub finished : Subtask → Option Reading → Breaker → Run
finished sub none b = record { result = none; events = running_event sub ∷ []; breaker = b }
finished sub (some r) b = record {
  result = some (read_result sub r);
  events = running_event sub ∷ final_event sub r ∷ [];
  breaker = b;
}

unfoldable pub after_admission : ℕ → Subtask → Call → (Option ℕ × ℕ) × Breaker → Run
unfolding reading recorded
after_admission now sub call ((some remaining, token), b) = record {
  result = some (read_result sub unavailable);
  events = final_event sub unavailable ∷ [];
  breaker = b;
}
after_admission now sub call ((none, token), b) =
    finished sub (reading call)
      (release_probe (connection_of sub) token (recorded now (connection_of sub) call b))

-- _worker_call: `now` is the time of the admission, `later` that of a failure.
unfoldable pub worker_call : ℕ → ℕ → Subtask → Call → Breaker → Run
unfolding after_admission
worker_call now later sub call b = after_admission later sub call (admit now (connection_of sub) b)
