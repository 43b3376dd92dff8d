-- ===== src/Storage/Jobs.antt =====
-- The maintenance jobs of backend/app/storage/repository/runtime.py.
pub mod Schedule
use Prim.Native.Nat.{compare as compare_nat}
use Prim.Native.String.{◌++◌ as ◌<>◌, compare as compare_text}
use llm_api_mind.Base.{
  ℕ, ◌+◌, String, Option, none, some, List, [], ◌∷◌, ◌++◌, map, Bool, ◌==◌, ◌&&◌, leb, find, filter,
  take, drop, matches, if◌then◌else◌, ◌>>=◌,
}
use llm_api_mind.Base.Json.{Fields, end}
use llm_api_mind.Base.Sorting.{sort_by, then_by, by_time}
use llm_api_mind.Storage.Models.{MaintenanceJob, Database}

-- what a call of `schedule_session_maintenance_job` carries
pub record JobRequest : Type 0 where
  pub kind : String
  pub session_id : String
  pub trigger_turn_id : Option String
  pub trigger_event_id : Option String
  pub due_at : ℕ
  pub input_payload : Fields
  pub idempotency_key : Option String

-- `trigger_turn_id or 'session'`, where an empty text counts as absent
abbrev or_default : Option String → String → String
or_default none d = d
or_default (some t) d = if t == "" then d else t

unfoldable pub resolved_key : JobRequest → String
resolved_key r =
    or_default r.idempotency_key
      (r.kind <> ":" <> r.session_id <> ":" <> or_default r.trigger_turn_id "session")

unfoldable pub find_by_key : List MaintenanceJob → String → Option MaintenanceJob
find_by_key jobs key = find (λ j. j.idempotency_key == key) jobs

-- the pending jobs of the same session and kind
unfoldable pub is_pending_for : JobRequest → MaintenanceJob → Bool
is_pending_for r j = j.session_id == r.session_id && j.kind == r.kind && j.status == "pending"

unfoldable pub supersede_job :
    JobRequest → (id : String) (now : ℕ) → MaintenanceJob → MaintenanceJob
unfolding is_pending_for
supersede_job r id now j =
    if is_pending_for r j
    then record j {
      status = "superseded";
      completed_at = some now;
      superseded_by_job_id = some id;
      updated_at = now;
    }
    else j

unfoldable pub new_job : JobRequest → (id : String) (created : ℕ) → MaintenanceJob
unfolding resolved_key
new_job r id created = record {
  id = id;
  kind = r.kind;
  status = "pending";
  session_id = r.session_id;
  trigger_turn_id = r.trigger_turn_id;
  trigger_event_id = r.trigger_event_id;
  due_at = r.due_at;
  started_at = none;
  completed_at = none;
  superseded_by_job_id = none;
  idempotency_key = resolved_key r;
  input_json = r.input_payload;
  result_json = end;
  error_json = none;
  created_at = created;
  updated_at = created;
}

-- the rows of the pending jobs, by creation time and id
unfoldable pub pending_jobs : JobRequest → List MaintenanceJob → List MaintenanceJob
pending_jobs r jobs =
    sort_by (λ j k. by_time j.created_at j.id k.created_at k.id) (filter (is_pending_for r) jobs)

-- The database after the call, the job that it returns, and the jobs that it superseded: the
-- existing job of the same key, or a new one that supersedes the pending jobs of its session and
-- kind.
unfoldable pub schedule_session_maintenance_job :
    Database
    → JobRequest
    → (id : String) (created now : ℕ) → Database × MaintenanceJob × List MaintenanceJob
unfolding supersede_job new_job find_by_key pending_jobs
schedule_session_maintenance_job db r id created now = elim (find_by_key db.jobs (resolved_key r)) [
  | some existing ↦ (db, existing, [])
  | none ↦ (
    record db { jobs = map (supersede_job r id now) db.jobs ++ new_job r id created ∷ [] },
    new_job r id created,
    map (supersede_job r id now) (pending_jobs r db.jobs),
  )
]

unfoldable pub list_due_maintenance_jobs : Database → (now limit : ℕ) → List MaintenanceJob
list_due_maintenance_jobs db now limit = take limit (
    sort_by
      (λ j k. then_by (compare_nat j.due_at k.due_at) (by_time j.created_at j.id k.created_at k.id))
      (filter (λ j. j.status == "pending" && leb j.due_at now) db.jobs))

unfoldable pub list_maintenance_jobs :
    Database → (status kind session_id : Option String) → (limit offset : ℕ) → List MaintenanceJob
list_maintenance_jobs db status kind session_id limit offset = take limit (
    drop offset (
      sort_by
        (λ j k.
          then_by (compare_nat k.created_at j.created_at)
            (then_by (compare_nat k.due_at j.due_at) (compare_text j.id k.id)))
        (filter
          (λ j. matches status j.status && matches kind j.kind && matches session_id j.session_id)
          db.jobs)))

unfoldable pub get_maintenance_job : Database → String → Option MaintenanceJob
get_maintenance_job db job_id = find (λ j. j.id == job_id) db.jobs

-- the row of this primary key is rewritten
abbrev pub update_job : String → (MaintenanceJob → MaintenanceJob) → Database → Database
update_job id f db = record db { jobs = map (λ j. if j.id == id then f j else j) db.jobs }

-- `none` is the refusal: no such job, or one that is not pending
unfoldable pub start_maintenance_job : Database → (job_id : String) (now : ℕ) → Option Database
unfolding get_maintenance_job
start_maintenance_job db job_id now = do
  job ← get_maintenance_job db job_id
  if job.status == "pending"
      then some (
          update_job job_id
            (λ j. record j { status = "running"; started_at = some now; updated_at = now }) db)
      else none

-- `none` is the `ValueError` of a missing job
unfoldable pub complete_maintenance_job :
    Database
    → (job_id : String) (now : ℕ) → (result : Fields) → (status : String) → (error : Option Fields)
    → Option Database
unfolding get_maintenance_job
complete_maintenance_job db job_id now result status error = do
  job ← get_maintenance_job db job_id
  some (
      update_job job_id
        (λ j. record j {
          status = status;
          completed_at = some now;
          result_json = result;
          error_json = error;
          updated_at = now;
        })
        db)
