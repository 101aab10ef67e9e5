-- ===== src/Task/Sites/Checked.antt =====
-- A copy counts as checked only by a view of the executor behind the last change of it.
use sanare_agent_core.Base.{
  String, Bool, true, false, not, ◌&&◌, ◌||◌, Option, none, some, List, [], ◌∷◌, if◌then◌else◌, ◌≡◌,
  refl, sym, ◌∙◌, ◌⊎◌, inl, inr, arith, Bool-cases, Option-cases, str_eq,
}
use mathlib.Core.Option.{some-injective}
use sanare_agent_core.Base.Dict
use sanare_agent_core.Base.Dict.{Dict, get-set, get-remove}
use sanare_agent_core.Json.{Value, Fields, get}
use sanare_agent_core.Json.Shapes.{is, is_one_of, is_false, is_true}
use sanare_agent_core.Task.Receipts.{decode}
use sanare_agent_core.Task.Conversation.{State, has_role}
use sanare_agent_core.Task.Sites.{
  JobStatus, dirty, clean, Jobs, typecheck_of, viewed, view_job, job_receipt, receipt_job,
  apply_receipt, site_message, jobs_from, site_jobs, site_file_schema, site_job_schema,
}

-- The receipt changes a file of the copy.
unfoldable pub changes_copy : String → Option (String × Fields) → Bool
changes_copy job none = false
changes_copy job (some (j, receipt)) =
    str_eq j job
    && is (get "schema" receipt) site_file_schema
    && is_one_of (get "state" receipt) ("written" ∷ "patched" ∷ [])

-- The receipt is a view of the copy with no unchecked change and a passed typecheck.
unfoldable pub shows_checked : String → Option (String × Fields) → Bool
shows_checked job none = false
shows_checked job (some (j, receipt)) =
    str_eq j job
    && is (get "schema" receipt) site_job_schema
    && is_false (get "unchecked_writes" receipt)
    && is_true (get "passed" (typecheck_of receipt))

module _ (parse : String → Option Value) (job : String) where
  -- What a message tells of a copy.
  abbrev told : Fields → Option (String × Fields)
  told m = if has_role "tool" m then receipt_job (decode parse (get "content" m)) else none

  unfoldable pub unchanged : List Fields → Bool
  unchanged [] = true
  unchanged (m ∷ ms) = not (changes_copy job (told m)) && unchanged ms

  -- Some message shows the copy checked, and none behind it changes the copy.
  unfoldable pub checked_last : List Fields → Bool
  unfolding unchanged
  checked_last [] = false
  checked_last (m ∷ ms) = (shows_checked job (told m) && unchanged ms) || checked_last ms

viewed-clean :
    (receipt : Fields)
    → viewed receipt ≡ clean
    → is_false (get "unchecked_writes" receipt) && is_true (get "passed" (typecheck_of receipt))
      ≡ true
unfolding viewed
viewed-clean receipt h = ground (arith, h)

module _ (job j : String) (jobs : Jobs) where
  set-clean :
      (s : JobStatus)
      → Dict.get job (Dict.set j s jobs) ≡ some clean
      → ((Dict.get job jobs ≡ some clean) × (str_eq j job ≡ false))
        ⊎ ((str_eq j job ≡ true) × (s ≡ clean))
  set-clean s h =
      let e : (if str_eq j job then some s else Dict.get job jobs) ≡ some clean =
        sym (get-set j job s jobs) ∙ h in
      elim (Bool-cases (str_eq j job)) [
        | inl same ↦ inr (same, some-injective s clean (rw same at e))
        | inr other ↦ inl (rw other at e, other)
      ]

  remove-clean : Dict.get job (Dict.remove j jobs) ≡ some clean → Dict.get job jobs ≡ some clean
  remove-clean h = ground (arith, h, get-remove j job jobs)

  -- What a receipt about `j` says of the copy, if it leaves it clean.
  abbrev LeavesClean : Fields → Type 0
  LeavesClean receipt =
      ((Dict.get job jobs ≡ some clean) × (changes_copy job (some (j, receipt)) ≡ false))
      ⊎ (shows_checked job (some (j, receipt)) ≡ true)

  view_job-clean :
      (receipt : Fields)
      → Dict.get job (view_job j receipt (Dict.get j jobs) jobs) ≡ some clean
      → (Dict.get job jobs ≡ some clean) ⊎ ((str_eq j job ≡ true) × (viewed receipt ≡ clean))
  unfolding view_job
  view_job-clean receipt h = elim (Option-cases (Dict.get j jobs)) [
    | inl absent ↦ inl (rw (absent, view_job) at h)
    | inr (earlier, there) ↦ elim (set-clean (viewed receipt) (rw (there, view_job) at h)) [
      | inl (before, other) ↦ inl before
      | inr shown ↦ inr shown
    ]
  ]

  job_view-clean :
      (receipt : Fields)
      → (is (get "schema" receipt) site_file_schema
          && is_one_of (get "state" receipt) ("written" ∷ "patched" ∷ []))
        ≡ false
      → is (get "schema" receipt) site_job_schema ≡ true
      → Dict.get job (view_job j receipt (Dict.get j jobs) jobs) ≡ some clean
      → LeavesClean receipt
  unfolding changes_copy shows_checked
  job_view-clean receipt no_write schema h = elim (view_job-clean receipt h) [
    | inl before ↦ inl (before, ground arith)
    | inr (same, shown) ↦ inr (ground (arith, viewed-clean receipt shown))
  ]

  -- A receipt leaves a copy clean that was clean and that it does not change, or shows it checked.
  job_receipt-clean :
      (receipt : Fields)
      → Dict.get job (job_receipt j receipt jobs) ≡ some clean
      → LeavesClean receipt
  unfolding job_receipt changes_copy shows_checked
  job_receipt-clean receipt h =
      elim (Bool-cases (
        is (get "schema" receipt) site_file_schema
        && is_one_of (get "state" receipt) ("written" ∷ "patched" ∷ []))) [
          | inl write ↦ elim (set-clean dirty (rw write at h)) [
            | inl (before, other) ↦ inl (before, ground arith)
            | inr (same, wrong) ↦ cc
          ]
          | inr no_write ↦ elim (Bool-cases (is (get "schema" receipt) site_job_schema)) [
            | inl schema ↦ elim (Bool-cases (is (get "state" receipt) "cancelled")) [
              | inl over ↦ inl (remove-clean (rw (no_write, schema, over) at h), ground arith)
              | inr going ↦
                  job_view-clean receipt no_write schema (rw (no_write, schema, going) at h)
            ]
            | inr other ↦ inl (rw (no_write, other) at h, ground arith)
          ]
        ]

module _ (parse : String → Option Value) (job : String) where
  apply_receipt-clean :
      (t : Option (String × Fields)) (jobs : Jobs)
      → Dict.get job (apply_receipt t jobs) ≡ some clean
      → ((Dict.get job jobs ≡ some clean) × (changes_copy job t ≡ false))
        ⊎ (shows_checked job t ≡ true)
  unfolding apply_receipt changes_copy
  apply_receipt-clean none jobs h = inl (h, refl)
  apply_receipt-clean (some (j, receipt)) jobs h = job_receipt-clean job j jobs receipt h

  site_message-clean :
      (m : Fields) (jobs : Jobs)
      → Dict.get job (site_message parse m jobs) ≡ some clean
      → ((Dict.get job jobs ≡ some clean) × (changes_copy job (told parse job m) ≡ false))
        ⊎ (shows_checked job (told parse job m) ≡ true)
  unfolding site_message changes_copy
  site_message-clean m jobs h = elim (Bool-cases (has_role "tool" m)) [
    | inl tool ↦
        rw tool
          (apply_receipt-clean (receipt_job (decode parse (get "content" m))) jobs (rw tool at h))
    | inr other ↦ inl (rw other at h, rw other refl)
  ]

  jobs_from-clean :
      (ms : List Fields) (jobs : Jobs)
      → Dict.get job (jobs_from parse jobs ms) ≡ some clean
      → ((Dict.get job jobs ≡ some clean) × (unchanged parse job ms ≡ true))
        ⊎ (checked_last parse job ms ≡ true)
  unfolding jobs_from unchanged checked_last
  jobs_from-clean [] jobs h = inl (h, refl)
  jobs_from-clean (m ∷ ms) jobs h = elim (jobs_from-clean ms (site_message parse m jobs) h) [
    | inl (now, rest) ↦ elim (site_message-clean m jobs now) [
      | inl (before, kept) ↦ inl (before, ground arith)
      | inr shown ↦ inr (ground arith)
    ]
    | inr later ↦ inr (ground arith)
  ]

-- A copy is clean only if a message holds a view of the executor that shows no unchecked change and a
-- passed typecheck of it, and no message behind that one holds a receipt that changes it.
pub site_jobs-checked_last :
    (parse : String → Option Value) (job : String) (s : State)
    → Dict.get job (site_jobs parse s) ≡ some clean
    → checked_last parse job s.messages ≡ true
unfolding site_jobs Dict.get
site_jobs-checked_last parse job s h = elim (jobs_from-clean parse job s.messages [] h) [
  | inl (nothing, rest) ↦ absurd (cc)
  | inr shown ↦ shown
]
