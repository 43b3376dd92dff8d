-- ===== src/Maintenance/Runner.antt =====
-- `run_maintenance_job` and `_finish_job` of backend/app/runtime/maintenance_scheduler.py.
use Prim.Native.String.{◌++◌ as ◌<>◌}
use llm_api_mind.Base.{
  ℕ, String, Option, none, some, Bool, true, ◌==◌, ◌&&◌, not, if◌then◌else◌, ◌>>=◌,
}
use llm_api_mind.Base.Json.{bool, str, obj, Fields, end, field}
use llm_api_mind.Storage.Models.{MaintenanceJob, Database}
use llm_api_mind.Storage.Jobs.{get_maintenance_job, start_maintenance_job, complete_maintenance_job}
use llm_api_mind.Mind.Contracts.{MemoryOperationResult}
use llm_api_mind.Maintenance.Shared.{
  MaintenanceJobRef, Host, Attempt, returned, raised, holds, maintenance_event, record_event,
  job_ref, session_history_compaction_kind, session_summary_repair_kind,
  session_idle_maintenance_kind,
}
use llm_api_mind.Storage.Shared.{Stamp}
use llm_api_mind.Maintenance.Idle.{
  Body, run_idle_summary, run_summary_repair, verify_session_still_idle,
}

-- What a job calls outside this component: `run_history_compaction`, `handle_session_summarize` on
-- the job's session, and `run_memory_review`. Each may write to the database and may raise.
pub record Workers : Type 0 where
  pub compact : Body Fields
  pub summarize : Body MemoryOperationResult
  pub review : Body Fields

-- the times and ids that one run draws
pub record Ticks : Type 0 where
  pub started_at : ℕ
  pub started_event : Stamp
  pub finished_at : ℕ
  pub finished_event : Stamp

-- the arguments of `_finish_job` that a body decides
pub record Verdict : Type 0 where
  pub status : String
  pub result : Fields
  pub error : Option Fields

unfoldable pub started_payload : MaintenanceJobRef → Fields
started_payload ref = field "job_id" (str ref.id) (field "kind" (str ref.kind) end)

unfoldable pub finished_payload : MaintenanceJob → Fields → Fields
finished_payload completed result =
    field "job_id" (str completed.id)
      (field "kind" (str completed.kind) (field "result" (obj result) end))

unfoldable pub report : String → String → Fields → Fields
report job_id status result =
    field "job_id" (str job_id) (field "status" (str status) (field "result" (obj result) end))

-- `_finish_job`; `none` is the `ValueError` of a missing job. The row that is completed is read
-- again: `complete_maintenance_job` returns it.
unfoldable pub finish_job :
    Ticks → MaintenanceJobRef → Verdict → Database → Option (Database × Fields)
unfolding finished_payload report
finish_job t ref v db = do
  db' ← complete_maintenance_job db ref.id t.finished_at v.result v.status v.error
  completed ← get_maintenance_job db' ref.id
  some (
    record_event db' (
        maintenance_event t.finished_event ref.session_id ref.trigger_turn_id
          ("maintenance.job." <> v.status) (finished_payload completed v.result) v.status
          ref.trigger_event_id),
    report ref.id v.status v.result,
  )

-- `{"error": type(exc).__name__, "message": str(exc)}`
unfoldable pub failure : (name message : String) → Verdict
failure name message =
    let result : Fields = field "error" (str name) (field "message" (str message) end) in
    record { status = "failed"; result = result; error = some result }

abbrev pub completed_if : Bool → Fields → Verdict
completed_if ok result =
    if ok
    then record { status = "completed"; result = result; error = none }
    else record { status = "failed"; result = result; error = some result }

abbrev pub skipped_with : Fields → Verdict
skipped_with result = record { status = "skipped"; result = result; error = none }

-- what one body returned decides the status
abbrev pub decided :
    {A : Type 0} → (A → Verdict) → Database × Attempt A → Database × Attempt Verdict
decided f (db, returned a) = (db, returned (f a))
decided f (db, raised e m) = (db, raised e m)

-- one body after another; an exception of the first skips the second
abbrev pub after :
    {A B : Type 0}
    → Database × Attempt A
    → (Database → A → Database × Attempt B)
    → Database × Attempt B
after (db, returned a) f = f db a
after (db, raised e m) f = (db, raised e m)

unfoldable pub idle_result : (summary review : Fields) → Fields
idle_result summary review =
    field "idle" (bool true)
      (field "summary" (obj summary) (field "memory_review" (obj review) end))

-- the handler of an exception that `_finish_job` raises in the `try`
abbrev pub handled :
    Ticks → MaintenanceJobRef → Database → Option (Database × Fields) → Option (Database × Fields)
handled t ref db none =
    finish_job t ref (failure "ValueError" ("Maintenance job not found: " <> ref.id)) db
handled t ref db (some r) = some r

-- An exception of the body, or of `_finish_job` behind it, ends in a failed job. `none` is an
-- exception of the handler's own `_finish_job`.
abbrev pub settled :
    Ticks → MaintenanceJobRef → Database × Attempt Verdict → Option (Database × Fields)
settled t ref (db, returned v) = handled t ref db (finish_job t ref v db)
settled t ref (db, raised name message) = finish_job t ref (failure name message) db

module _ (host : Host) (workers : Workers) where
  open workers use {compact, summarize, review}

  -- the last part of the `try`: the session is still idle
  unfoldable pub run_idle : Body Verdict
  unfolding idle_result
  run_idle db ref = after (run_idle_summary summarize db ref) (λ db' summary.
      decided
        (λ reviewed.
          completed_if (holds host.py summary "ok" && holds host.py reviewed "ok")
            (idle_result summary reviewed))
        (review db' ref))

  -- the body of the `try`, up to the call of `_finish_job`
  unfoldable pub run_kind : Body Verdict
  unfolding run_idle
  run_kind db ref =
      if ref.kind == session_history_compaction_kind
      then decided (λ r. completed_if (holds host.py r "ok") r) (compact db ref)
      else if ref.kind == session_summary_repair_kind
      then decided (λ r. completed_if (holds host.py r "ok") r)
          (run_summary_repair host summarize db ref)
      else if not (ref.kind == session_idle_maintenance_kind)
      then (
        db,
        returned (
            skipped_with (field "reason" (str ("Unknown maintenance job kind: " <> ref.kind)) end)),
      )
      else (let idle = verify_session_still_idle db ref in
          if not (holds host.py idle "idle")
          then (db, returned (skipped_with idle))
          else run_idle db ref)

  -- The `try` with its handler.
  unfoldable pub run_started : Ticks → MaintenanceJobRef → Database → Option (Database × Fields)
  unfolding run_kind
  run_started t ref db = settled t ref (run_kind db ref)

  -- The row that is started is read again: `start_maintenance_job` returns it.
  unfoldable pub run_maintenance_job :
      Database → (job_id : String) → Ticks → Option (Database × Fields)
  unfolding run_started started_payload
  run_maintenance_job db job_id t = elim (start_maintenance_job db job_id t.started_at) [
    | none ↦ some (db, field "job_id" (str job_id) (field "status" (str "not_pending") end))
    | some db' ↦ elim (get_maintenance_job db' job_id) [
      | none ↦ none
      | some job ↦ run_started t (job_ref job) (
          record_event db' (
            maintenance_event t.started_event job.session_id job.trigger_turn_id
              "maintenance.job.started" (started_payload (job_ref job)) "running"
              job.trigger_event_id))
    ]
  ]
