-- ===== src/Maintenance/Examples.antt =====
-- The maintenance theorems at a table of two due jobs, one of whose workers raises.
use llm_api_mind.Base.{
  Option, some, none, List, [], ◌∷◌, ◌≡◌, refl, All, length, ◌≤◌, arith, Bool-cases, inl, inr,
}
use llm_api_mind.Base.Json.{Fields, Json, str, get, end, field}
use llm_api_mind.Storage.Samples.{job_request}
use llm_api_mind.Storage.Events.{add_event}
use llm_api_mind.Maintenance.Shared.{record_event, job_ref}
use llm_api_mind.Storage.Models.{MaintenanceJob, Message, Database}
use llm_api_mind.Storage.Jobs.{
  start_maintenance_job, complete_maintenance_job, schedule_session_maintenance_job,
  get_maintenance_job, list_due_maintenance_jobs, list_maintenance_jobs,
}
use llm_api_mind.Base.Sorting.{sort_by}
use llm_api_mind.Maintenance.Runner.{
  run_maintenance_job, run_started, run_kind, finish_job, failure, report,
}
use llm_api_mind.Maintenance.Repairs.{
  schedule_summary_repairs, repair_states, due_attempt, next_attempt,
}
use llm_api_mind.Maintenance.Idle.{matching_jobs}
use llm_api_mind.Storage.SummaryStates.{summary_state, list_session_summary_states}
use llm_api_mind.Chronology.Samples.{session}
use llm_api_mind.Maintenance.Worker.{run_due_maintenance_jobs}
use llm_api_mind.Maintenance.Moves.{Moves}
use llm_api_mind.Maintenance.Runs.{Ends}
use llm_api_mind.Maintenance.Batch.{IsPast, run_pending-Ends}
use llm_api_mind.Maintenance.Attempts.{IsBounded, is_repair, repairs, live_repairs}
use llm_api_mind.Maintenance.Attempts.Loop.{repairs-IsBounded}
use llm_api_mind.Maintenance.Due.{run_due_finishes}
use llm_api_mind.Maintenance.System.{none_yet, then_act, schedules, ended_job_stays}
use llm_api_mind.Maintenance.Samples.{
  host, settings, workers, workers-Polite, database, database-Fresh, draw, draw-Distinct, ticks,
  job, idle_turn,
}

j2_found : get_maintenance_job database "j2" ≡ some (job "j2" "session.history_compaction")
unfolding get_maintenance_job
j2_found = refl

run_pending-Ends_example :
    Ends database "j2" 70 (run_maintenance_job host workers database "j2" (ticks 0))
run_pending-Ends_example =
    run_pending-Ends host workers workers-Polite database "j2" (ticks 0)
      (job "j2" "session.history_compaction") refl j2_found refl

-- The sample session has no summary, and a repair of it has failed once.
abbrev failed_repair : MaintenanceJob
failed_repair = record (job "j5" "session.summary_repair") {
  status = "failed";
  input_json = field "target_last_message_id" (str "m") end;
}

abbrev answer : Message
answer = record {
  id = "m";
  session_id = "s";
  turn_id = some "t";
  role = "assistant";
  content = "hello";
  provider_message_id = none;
  raw_content_json = none;
  created_at = 2;
  metadata_json = end;
}

abbrev unsummarised : Database
unsummarised = record database {
  sessions = session ∷ [];
  messages = answer ∷ [];
  jobs = failed_repair ∷ [];
}

unsummarised-IsBounded : IsBounded 3 unsummarised.jobs
unsummarised-IsBounded = record {
  attempts = λ s m. elim (Bool-cases (repairs s m failed_repair)) [
    | inl e ↦ rw e (omega arith)
    | inr e ↦ rw e (omega arith)
  ];
  one_live = λ s m. elim (Bool-cases (live_repairs s m failed_repair)) [
    | inl e ↦ rw e (omega arith)
    | inr e ↦ rw e (omega arith)
  ];
}

repairs-IsBounded_example :
    let r = schedule_summary_repairs host settings unsummarised none none draw in
    IsBounded 3 r.0.jobs × (length r.1 ≤ 2)
repairs-IsBounded_example =
    repairs-IsBounded host settings draw unsummarised none none unsummarised-IsBounded (λ s.
      elim (Bool-cases (is_repair s failed_repair)) [
        | inl e ↦ rw e (omega arith)
        | inr e ↦ rw e (omega arith)
      ])

-- A second attempt is scheduled.
second_attempt : length (schedule_summary_repairs host settings unsummarised none none draw).1 ≡ 1
unfolding schedule_summary_repairs repair_states due_attempt next_attempt matching_jobs
    list_session_summary_states summary_state sort_by list_maintenance_jobs
second_attempt = refl

-- the same session while a turn runs
abbrev busy : Database
busy = record unsummarised { turns = record idle_turn { status = "running" } ∷ [] }

run_due_finishes_example :
    let scheduled = (schedule_summary_repairs host settings database none none draw).0 in
    let due = list_due_maintenance_jobs scheduled 50 5 in
    (db' : Database) × (reports : List Fields) × (run_due_maintenance_jobs host settings workers
        database 50 draw ticks
      ≡ some (db', reports))
    × (length reports ≡ length due)
    × Moves database db'
    × All (λ x. IsPast x.id db') due
run_due_finishes_example =
    run_due_finishes host settings workers workers-Polite draw draw-Distinct refl database 50 ticks
      refl database-Fresh

abbrev ended_row : MaintenanceJob
ended_row = record (job "j3" "session.idle_maintenance") { status = "skipped" }

abbrev ended_database : Database
ended_database = record database { jobs = ended_row ∷ [] }

ended_row_found : get_maintenance_job ended_database "j3" ≡ some ended_row
unfolding get_maintenance_job
ended_row_found = refl

abbrev rescheduled : Database
rescheduled = (schedule_session_maintenance_job ended_database (job_request "t") "j4" 5 6).0

ended_job_stays_example :
    (j : MaintenanceJob) × (get_maintenance_job rescheduled "j3" ≡ some j) × (j.status ≡ "skipped")
ended_job_stays_example =
    ended_job_stays host workers workers-Polite "j3" ended_row refl ended_row_found refl
      (then_act none_yet (schedules (job_request "t") "j4" 5 6 refl refl))

status_of : Option (Database × Fields) → Option Json
status_of none = none
status_of (some (db, report)) = get report "status"

-- The compaction raised, and its job has failed.
failed_test :
    status_of (run_maintenance_job host workers database "j2" (ticks 0)) ≡ some (str "failed")
unfolding status_of run_maintenance_job run_started run_kind finish_job failure
    start_maintenance_job complete_maintenance_job get_maintenance_job report record_event add_event
    job_ref
failed_test = refl
