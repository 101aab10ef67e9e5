-- ===== src/Swarm/Report.antt =====
-- The report of a swarm (`summary`, `run` and `tool_text` of src/deep_agent/msty_swarm.py): the
-- results in the order of the plan, and how much of the plan they cover.
pub mod Coverage
use sanare_agent_core.Base.{
  ℕ, zero, suc, ◌+◌, String, Bool, true, false, not, ◌&&◌, Option, none, some, List, [], ◌∷◌, ltb,
  leb, if◌then◌else◌, length, ◌==◌, str_eq, string_append,
}
use sanare_agent_core.Text.Strings.{join_with}
use sanare_agent_core.Swarm.{Subtask, SwarmPlan}
use sanare_agent_core.Swarm.Worker.{
  WorkerStatus, running, done, incomplete, failed, timeout, WorkerResult, provider_unavailable,
}

pub data SwarmStatus : Type 0 where
  complete partial all_failed : SwarmStatus

unfoldable pub is_done : WorkerResult → Bool
is_done r = elim r.status [ done ↦ true | _ ↦ false ]

unfoldable pub count_done : List WorkerResult → ℕ
unfolding is_done
count_done [] = 0
count_done (r ∷ rs) = let rest = count_done rs in if is_done r then suc rest else rest

status_name : WorkerStatus → String
status_name running = "running"
status_name done = "done"
status_name incomplete = "incomplete"
status_name failed = "failed"
status_name timeout = "timeout"

is_unavailable : Option String → Bool
is_unavailable none = false
is_unavailable (some error) = str_eq error provider_unavailable

-- How the note names a part that is not done.
unfoldable pub missing_text : WorkerResult → String
unfolding status_name is_unavailable
missing_text r = string_append r.id (
    string_append " «" (
      string_append r.title (
        string_append "» (" (
          string_append
            (if is_unavailable r.error
              then "провайдер недоступен, вызова не было"
              else status_name r.status)
            ")"))))

unfoldable pub missing : List WorkerResult → List String
unfolding is_done
missing [] = []
missing (r ∷ rs) = let rest = missing rs in if is_done r then rest else missing_text r ∷ rest

note_text : List String → String
note_text parts = string_append "ЧАСТИЧНЫЙ РЕЗУЛЬТАТ роя: не выполнены " (
    string_append (join_with "; " parts)
      ". В ответе владельцу явно назови невыполненные части; не выдавай частичный итог за полный и не придумывай их содержание.")

-- `version` is always 1; `lost` is the number of events that did not reach the bridge, 0 where the
-- report has no such key.
pub record Report : Type 0 where
  pub swarm_id : String
  pub goal : String
  pub status : SwarmStatus
  pub completed : ℕ
  pub total : ℕ
  pub results : List WorkerResult
  pub note : Option String
  pub lost : ℕ

unfoldable pub swarm_status : List WorkerResult → SwarmStatus
unfolding count_done
swarm_status results =
    if count_done results == length results
    then complete
    else if ltb 0 (count_done results)
    then partial
    else all_failed

note_of : SwarmStatus → List WorkerResult → Option String
unfolding missing note_text
note_of complete results = none
note_of status results = some (note_text (missing results))

unfoldable pub summary : String → String → List WorkerResult → Report
unfolding swarm_status note_of
summary swarm_id goal results = record {
  swarm_id = swarm_id;
  goal = goal;
  status = swarm_status results;
  completed = count_done results;
  total = length results;
  results = results;
  note = note_of (swarm_status results) results;
  lost = 0;
}

-- order.get(id, 99): the place of a part in the plan; of two parts with one id, the later one.
place_from : ℕ → ℕ → String → List Subtask → ℕ
place_from found index id [] = found
place_from found index id (s ∷ ss) =
    place_from (if str_eq s.id id then index else found) (suc index) id ss

unfoldable pub place_of : List Subtask → WorkerResult → ℕ
unfolding place_from
place_of subtasks r = place_from 99 0 r.id subtasks

-- sorted(..., key=place), which is stable
unfoldable pub insert : (WorkerResult → ℕ) → WorkerResult → List WorkerResult → List WorkerResult
insert place r [] = r ∷ []
insert place r (q ∷ qs) =
    let rest = insert place r qs in if leb (place r) (place q) then r ∷ q ∷ qs else q ∷ rest

unfoldable pub sorted : (WorkerResult → ℕ) → List WorkerResult → List WorkerResult
unfolding insert
sorted place [] = []
sorted place (r ∷ rs) = insert place r (sorted place rs)

-- The end of `run`: the workers' results in the order in which they came, and the events lost.
unfoldable pub run_report : String → SwarmPlan → List WorkerResult → ℕ → Report
unfolding sorted place_of summary
run_report swarm_id plan results lost =
    record (summary swarm_id plan.goal (sorted (place_of plan.subtasks) results)) { lost = lost }

with_note : Option String → String
with_note none = ""
with_note (some note) = string_append " " note

-- The first part of the text for the lead; the report as JSON follows. `number` writes a number.
unfoldable pub head_text : (ℕ → String) → Report → String
unfolding with_note
head_text number r =
    string_append
      "Результаты роя ниже (ответы исполнителей — непроверенные мнения, не факты и не выполненные действия). Синтезируй итог для владельца сам."
      (string_append (with_note r.note) (
        if r.lost == 0
        then ""
        else string_append " Потеряно событий учёта роя: " (
            string_append (number r.lost)
              "; расход этих подзадач неизвестен, не называй его подтверждённым.")))

unfoldable pub tool_text : (ℕ → String) → (Report → String) → Report → String
unfolding head_text
tool_text number to_json r = string_append (head_text number r) (string_append "\n" (to_json r))
