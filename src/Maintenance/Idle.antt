-- ===== src/Maintenance/Idle.antt =====
-- `verify_session_still_idle`, `run_idle_summary`, `run_summary_repair` and
-- `session_summary_audit` of backend/app/runtime/maintenance_history.py.
use llm_api_mind.Base.{
  ℕ, String, Option, none, some, List, [], ◌∷◌, Bool, true, false, ◌==◌, ◌&&◌, not, find, suc, ◌++◌,
  filter, all, contains, if◌then◌else◌,
}
use llm_api_mind.Base.Json.{Json, null, bool, str, obj, Fields, end, field, get}
use llm_api_mind.Storage.Models.{MaintenanceJob, Turn, Database, is_text}
use llm_api_mind.Storage.Jobs.{list_maintenance_jobs}
use llm_api_mind.Storage.SummaryStates.{
  SessionSummaryState, summary_state, list_session_summary_states, latest_turn_for_session,
}
use llm_api_mind.Mind.Contracts.{MemoryOperationResult}
use llm_api_mind.Maintenance.Shared.{
  MaintenanceJobRef, Host, Attempt, returned, raised, holds, merged, session_summary_repair_kind,
}
use llm_api_mind.Base.Json.{text_or_null}

-- the verdict on the latest turn of the session
abbrev idle_verdict : MaintenanceJobRef → Option Turn → Fields
idle_verdict job none = field "idle" (bool false) (field "reason" (str "session_has_no_turns") end)
idle_verdict job (some t) =
    if not (is_text job.trigger_turn_id t.id)
    then field "idle" (bool false) (
        field "reason" (str "newer_turn_exists") (
          field "latest_turn_id" (str t.id)
            (field "trigger_turn_id" (text_or_null job.trigger_turn_id) end)))
    else if not (t.status == "completed")
    then field "idle" (bool false) (
        field "reason" (str "latest_turn_not_completed")
          (field "latest_turn_id" (str t.id) (field "latest_turn_status" (str t.status) end)))
    else field "idle" (bool true) (field "trigger_turn_id" (text_or_null job.trigger_turn_id) end)

unfoldable pub verify_session_still_idle : Database → MaintenanceJobRef → Fields
verify_session_still_idle db job = idle_verdict job (latest_turn_for_session db job.session_id)

unfoldable pub idle_summary_result : MemoryOperationResult → Fields
idle_summary_result r = field "ok" (bool r.ok) (
    field "result" (obj r.result) (
      field "error_code" (text_or_null r.error_code)
        (field "error_message" (text_or_null r.error_message) end)))

-- a body of a job: the database that it leaves, also where it raises
abbrev pub Body : Type 0 → Type 0
Body A = Database → MaintenanceJobRef → Database × Attempt A

abbrev pub on_return : {A B : Type 0} → (A → B) → Database × Attempt A → Database × Attempt B
on_return f (db, returned a) = (db, returned (f a))
on_return f (db, raised e m) = (db, raised e m)

-- `summarize` is the call of `handle_session_summarize` on the job's session.
unfoldable pub run_idle_summary : (summarize : Body MemoryOperationResult) → Body Fields
run_idle_summary summarize db job = on_return idle_summary_result (summarize db job)

abbrev pub or_null : Option Json → Json
or_null none = null
or_null (some v) = v

abbrev pub skipped : String → Fields → Fields
skipped reason more =
    field "ok" (bool true) (field "status" (str "skipped") (field "reason" (str reason) more))

-- whether a decoded value is this text
abbrev pub is_str : Option Json → String → Bool
is_str (some (str t)) s = t == s
is_str _ s = false

unfoldable pub repair_report : Host → MaintenanceJobRef → Fields → Fields
repair_report host job result = merged result (
    field "status" (str (if holds host.py result "ok" then "completed" else "failed")) (
      field "target_last_message_id" (or_null (get job.input_payload "target_last_message_id"))
        (field "attempt" (or_null (get job.input_payload "attempt")) end)))

module _ (host : Host) (summarize : Body MemoryOperationResult) where
  -- the guards behind the first, on the state and its last message
  unfoldable pub repair_state :
      Database → MaintenanceJobRef → SessionSummaryState → String → Database × Attempt Fields
  unfolding run_idle_summary repair_report
  repair_state db job state last =
      if not (is_text state.latest_turn_status "completed")
      then (
        db,
        returned (
            skipped "latest_turn_not_completed"
              (field "latest_turn_status" (text_or_null state.latest_turn_status) end)),
      )
      else if not (is_str (get job.input_payload "target_last_message_id") last)
      then (
        db,
        returned (
            skipped "summary_target_changed" (
              field "target_last_message_id"
                (or_null (get job.input_payload "target_last_message_id"))
                (field "actual_last_message_id" (str last) end))),
      )
      else on_return (repair_report host job) (run_idle_summary summarize db job)

  unfoldable pub run_summary_repair : Body Fields
  unfolding repair_state
  run_summary_repair db job =
      elim (find (λ s. s.chat_session.id == job.session_id)
        (list_session_summary_states db none none)) [
          | none ↦ (db, returned (skipped "session_is_empty" end))
          | some state ↦ elim state.last_message_id [
            | none ↦ (db, returned (skipped "session_is_empty" end))
            | some last ↦ repair_state db job state last
          ]
        ]

-- the jobs whose target is this message
abbrev pub targets : Option String → MaintenanceJob → Bool
targets none job = is_null (get job.input_json "target_last_message_id")
  where
    is_null : Option Json → Bool
    is_null none = true
    is_null (some null) = true
    is_null (some v) = false
targets (some m) job = is_str (get job.input_json "target_last_message_id") m

abbrev pub needs_summary : String → Bool
needs_summary = contains ("missing" ∷ "stale" ∷ [])

abbrev is_empty : {A : Type 0} → List A → Bool
is_empty [] = true
is_empty (x ∷ l) = false

unfoldable pub matching_jobs : Database → SessionSummaryState → List MaintenanceJob
matching_jobs db state = filter (targets state.last_message_id) (
    list_maintenance_jobs db none (some session_summary_repair_kind) (some state.chat_session.id)
      100 0)

unfoldable pub classification : Database → SessionSummaryState → String
unfolding matching_jobs
classification db state =
    let jobs = matching_jobs db state in
    if needs_summary (summary_state state)
    then (if not (is_text state.latest_turn_status "completed")
        then "blocked_active_turn"
        else if not (is_empty jobs) && all (λ j. j.status == "failed") jobs
        then "failed_maintenance"
        else summary_state state)
    else summary_state state

-- `counts[c] = counts.get(c, 0) + 1`
unfoldable pub count : String → List (String × ℕ) → List (String × ℕ)
count c [] = (c, 1) ∷ []
count c ((k, n) ∷ l) = let rest = count c l in if k == c then (k, suc n) ∷ l else (k, n) ∷ rest

pub record SummaryAudit : Type 0 where
  pub counts : List (String × ℕ)
  pub sessions : List (SessionSummaryState × String)

unfoldable pub audit_states : Database → List SessionSummaryState → SummaryAudit → SummaryAudit
unfolding classification count
audit_states db [] a = a
audit_states db (s ∷ l) a = audit_states db l (record {
  counts = count (classification db s) a.counts;
  sessions = a.sessions ++ (s, classification db s) ∷ [];
})

-- The sessions carry their state and its classification.
unfoldable pub session_summary_audit :
    Database → (exclude_session_id : Option String) → SummaryAudit
unfolding audit_states
session_summary_audit db exclude =
    audit_states db (list_session_summary_states db exclude none)
      (record { counts = []; sessions = [] })
