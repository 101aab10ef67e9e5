-- ===== src/Task/Sites.antt =====
-- Edited copies of a site (`site_jobs`, `_site_progress` and `_site_gate` of
-- src/deep_agent/msty_task.py): only receipts of the executor say that a copy was checked.
pub mod Checked
use sanare_agent_core.Base.{
  ℕ, zero, suc, ◌+◌, String, Bool, true, false, not, ◌&&◌, ◌||◌, Option, none, some, List, [], ◌∷◌,
  ltb, leb, ◌==◌, if◌then◌else◌, length, str_eq, string_append,
}
use sanare_agent_core.Base.Dict
use sanare_agent_core.Base.Dict.{Dict}
use sanare_agent_core.Json
use sanare_agent_core.Json.{
  Value, null, int, text, dict, list, Fields, field, get, find, has, put, truthy,
}
use sanare_agent_core.Json.Shapes.{is, is_one_of, is_false, is_true, items_of, fields_of, text_of}
use sanare_agent_core.Execution.Progress.{max_actions, finish_reason}
use sanare_agent_core.Task.{Host, named}
use sanare_agent_core.Task.Receipts.{decode}
use sanare_agent_core.Task.Conversation.{State, has_role, current_messages, owner_control}
use sanare_agent_core.Task.OpenPlan.{
  Reply, Tool, no_calls, stopped, gate_name, tool_name, selected_name, one_call, terminated,
}

pub data JobStatus : Type 0 where
  dirty typecheck_failed clean : JobStatus

abbrev pub Jobs : Type 0
Jobs = Dict JobStatus

abbrev site_job_schema : String
site_job_schema = "msty.site.job.v1"

abbrev site_file_schema : String
site_file_schema = "msty.site.file.v1"

abbrev pub checks_of : Fields → Fields
checks_of receipt = fields_of (get "checks" receipt)

abbrev pub typecheck_of : Fields → Fields
typecheck_of receipt = fields_of (get "typecheck" (checks_of receipt))

-- What a status view says of a copy that was edited.
unfoldable pub viewed : Fields → JobStatus
viewed receipt =
    if is_false (get "unchecked_writes" receipt) && is_true (get "passed" (typecheck_of receipt))
    then clean
    else if is_true (get "unchecked_writes" receipt) && has "typecheck" (checks_of receipt)
    then (if is_true (get "passed" (typecheck_of receipt)) then dirty else typecheck_failed)
    else dirty

-- A view of a job that was never edited here is no news.
unfoldable pub view_job : String → Fields → Option JobStatus → Jobs → Jobs
view_job job receipt none jobs = jobs
view_job job receipt (some earlier) jobs = Dict.set job (viewed receipt) jobs

unfoldable pub job_receipt : String → Fields → Jobs → Jobs
unfolding viewed view_job
job_receipt job receipt jobs =
    if is (get "schema" receipt) site_file_schema
      && is_one_of (get "state" receipt) ("written" ∷ "patched" ∷ [])
    then Dict.set job dirty jobs
    else if is (get "schema" receipt) site_job_schema
    then (if is (get "state" receipt) "cancelled"
        then Dict.remove job jobs
        else view_job job receipt (Dict.get job jobs) jobs)
    else jobs

-- The job of a decoded receipt.
unfoldable pub receipt_job : Option Value → Option (String × Fields)
receipt_job (some (dict receipt)) = elim (get "job_id" receipt) [
  | text job ↦ some (job, receipt)
  | _ ↦ none
]
receipt_job receipt = none

unfoldable pub apply_receipt : Option (String × Fields) → Jobs → Jobs
unfolding job_receipt
apply_receipt none jobs = jobs
apply_receipt (some (job, receipt)) jobs = job_receipt job receipt jobs

module _ (parse : String → Option Value) where
  unfoldable pub site_message : Fields → Jobs → Jobs
  unfolding receipt_job apply_receipt
  site_message m jobs =
      if has_role "tool" m
      then apply_receipt (receipt_job (decode parse (get "content" m))) jobs
      else jobs

  unfoldable pub jobs_from : Jobs → List Fields → Jobs
  unfolding site_message
  jobs_from jobs [] = jobs
  jobs_from jobs (m ∷ ms) = jobs_from (site_message m jobs) ms

  unfoldable pub site_jobs : State → Jobs
  unfolding jobs_from
  site_jobs s = jobs_from [] s.messages

unfoldable pub is_clean : JobStatus → Bool
is_clean clean = true
is_clean status = false

-- The copies that are not checked.
unfoldable pub pending : Jobs → Jobs
unfolding is_clean
pending [] = []
pending ((job, status) ∷ jobs) =
    if is_clean status then pending jobs else (job, status) ∷ pending jobs

unfoldable pub any_failed : Jobs → Bool
any_failed [] = false
any_failed ((job, typecheck_failed) ∷ jobs) = true
any_failed ((job, status) ∷ jobs) = any_failed jobs

-- The fields of a view whose repetition shows that nothing moves.
material : Fields → Value
material receipt = dict (
    field "state" (get "state" receipt) (
      field "active_check" (get "active_check" receipt) (
        field "unchecked_writes" (get "unchecked_writes" receipt) (
          field "checks" (get "checks" receipt) (
            field "error" (get "error" receipt) (
              field "cancel_requested" (get "cancel_requested" receipt) (
                field "commit_sha" (get "commit_sha" receipt) (
                  field "pr" (get "pr" receipt)
                    (field "release" (get "release" receipt) Json.end)))))))))

-- The latest view of a job, its digest, and how many views in a row had it.
pub record Progress : Type 0 where
  pub latest : Option Fields
  pub digest : String
  pub repeated : ℕ

seen_again : Host → Fields → Progress → Progress
unfolding material
seen_again host receipt p =
    let digest = host.digest (material receipt) in
    record {
      latest = some receipt;
      digest = digest;
      repeated = if str_eq digest p.digest then suc p.repeated else 1;
    }

view_of : String → Option Value → Option Fields
view_of job (some (dict receipt)) =
    if is (get "schema" receipt) site_job_schema && is (get "job_id" receipt) job
    then some receipt
    else none
view_of job receipt = none

progress_message : Host → String → Fields → Progress → Progress
unfolding view_of seen_again
progress_message host job m p =
    if has_role "tool" m
    then elim (view_of job (decode host.parse (get "content" m))) [
      | none ↦ p
      | some receipt ↦ seen_again host receipt p
    ]
    else p

progress_from : Host → String → Progress → List Fields → Progress
unfolding progress_message
progress_from host job p [] = p
progress_from host job p (m ∷ ms) = progress_from host job (progress_message host job m p) ms

-- A digest is never the empty text.
unfoldable pub site_progress : Host → String → State → Progress
unfolding progress_from
site_progress host job s =
    progress_from host job (record { latest = none; digest = ""; repeated = 0 })
      (current_messages s.messages)

-- The tools of this name, in order.
unfoldable pub tools_named : String → List Tool → List Value
tools_named suffix [] = []
tools_named suffix (t ∷ ts) =
    let rest = tools_named suffix ts in
    if named (tool_name t) suffix then tool_name t ∷ rest else rest

-- The only tool of this name, if the choice of the step allows it.
unfoldable pub only_tool : List Value → Option Value → Option Value
only_tool (name ∷ []) none = some name
only_tool (name ∷ []) (some selected) = if Json.eq selected name then some name else none
only_tool names selected = none

-- An answer that is refused, with the gate's reason.
unfoldable pub block : String → String → Reply → Reply
block words gate r = record {
  content = text words;
  tool_calls = [];
  invalid_tool_calls = 0;
  metadata = put "msty_blocked" (Json.bool true) (gate_name gate r);
}

unfoldable pub call_instead : String → String → List Fields → Reply → Reply
call_instead words gate calls r = record {
  content = text words;
  tool_calls = calls;
  invalid_tool_calls = 0;
  metadata = gate_name gate r;
}

typecheck_args : String → Fields
typecheck_args job =
    field "job_id" (text job)
      (field "preset" (text "typecheck") (field "test_paths" (list Json.nil) Json.end))

status_args : String → Fields
status_args job = field "job_id" (text job) (field "wait_seconds" (int 30) Json.end)

-- A ready executor has no typecheck to wait for.
unfoldable pub waits_for_check : Option Fields → Bool
waits_for_check none = false
waits_for_check (some view) =
    is (get "state" view) "ready" && not (truthy (get "typecheck" (checks_of view)))

unfoldable pub stalled : Option Fields → ℕ → Bool
stalled none repeated = false
stalled (some view) repeated =
    is_one_of (get "state" view) ("preparing" ∷ "checking" ∷ "releasing" ∷ []) && leb 3 repeated

unfoldable pub poll_or_stop : String → String → Value → Progress → Reply → Reply
unfolding stalled status_args
poll_or_stop fresh job name p r =
    if stalled p.latest p.repeated
    then block
        "Выполнение не подтверждено: исполнитель сайта трижды вернул одно и то же состояние без прогресса. Повторный опрос остановлен; нужна проверка или восстановление самого исполнительного job."
        "site_executor_stalled" r
    else call_instead "Проверяю typecheck изменённой копии сайта перед итогом."
        "site_typecheck_required"
        (one_call (string_append "sitecheck_" fresh) name (status_args job)) r

unfoldable pub check_or_poll : String → String → Value → Option Value → Progress → Reply → Reply
unfolding typecheck_args poll_or_stop
check_or_poll fresh job name none p r = poll_or_stop fresh job name p r
check_or_poll fresh job name (some check) p r =
    call_instead "Статус не запустил проверку; запускаю typecheck отдельной операцией."
      "site_explicit_typecheck_required"
      (one_call (string_append "sitecheck_" fresh) check (typecheck_args job)) r

unfoldable pub ask_executor : Host → String → String → Value → State → Reply → List Tool → Reply
unfolding waits_for_check check_or_poll
ask_executor host fresh job name s r tools =
    let p = site_progress host job s in
    if waits_for_check p.latest
    then check_or_poll fresh job name
        (only_tool (tools_named "msty_site_check" tools) (selected_name s.tool_choice)) p r
    else poll_or_stop fresh job name p r

unfoldable pub unchecked : Host → String → String → Option Value → State → Reply → List Tool → Reply
unfolding ask_executor
unchecked host fresh job none s r tools =
    block
      "Изменения в копии сайта не проверены (typecheck не запускался или не завершён); завершение не подтверждено."
      "site_typecheck_required" r
unchecked host fresh job (some name) s r tools =
    if leb max_actions s.actions_issued
    then block
        "Изменения в копии сайта не проверены (typecheck не запускался или не завершён); завершение не подтверждено."
        "site_typecheck_required" r
    else ask_executor host fresh job name s r tools

unfoldable pub gate_jobs : Host → String → Jobs → State → Reply → List Tool → Option Reply
unfolding any_failed unchecked
gate_jobs host fresh [] s r tools = none
gate_jobs host fresh ((job, status) ∷ jobs) s r tools = some (
    if any_failed ((job, status) ∷ jobs)
    then block
        "Выполнение не подтверждено: typecheck изменённой копии сайта не пройден. Нужны исправление и повторная проверка через msty_site_status; текст модели результатом не является."
        "site_typecheck_failed" r
    else unchecked host fresh job
        (only_tool (tools_named "msty_site_status" tools) (selected_name s.tool_choice)) s r tools)

-- The gates look only at an answer that would end the turn.
unfoldable pub exempt : Host → State → Reply → Bool → Bool
unfolding no_calls stopped
exempt host s r disabled =
    not (no_calls r)
    || disabled
    || owner_control host s
    || stopped r.metadata
    || is_one_of (finish_reason (dict r.metadata)) terminated

unfoldable pub site_gate : Host → String → State → Reply → List Tool → Bool → Option Reply
unfolding exempt pending gate_jobs
site_gate host fresh s r tools disabled =
    if exempt host s r disabled
    then none
    else gate_jobs host fresh (pending (site_jobs host.parse s)) s r tools
