-- ===== src/Maintenance/Moves.antt =====
-- What the operations on the table of jobs keep: the keys, and the life of every job.
use llm_api_mind.Base.{
  ℕ, String, none, some, true, false, ◌≡◌, refl, sym, subst, ◌==◌, contains, distinct,
}
use Prim.Native.String.{◌++◌ as ◌<>◌}
use llm_api_mind.Storage.Models.{MaintenanceJob, Database}
use llm_api_mind.Storage.Events.{add_event}
use llm_api_mind.Storage.Jobs.{
  get_maintenance_job, start_maintenance_job, complete_maintenance_job, update_job,
}
use llm_api_mind.Maintenance.Shared.{MaintenanceJobRef, record_event, maintenance_event}
use llm_api_mind.Maintenance.Runner.{Ticks, Verdict, finished_payload, finish_job, report}
use llm_api_mind.Maintenance.Lifecycle.{
  Step, finish, stay, next, final, Evolves, Evolves-refl, Evolves-trans, job_ids, KeepsId, found,
  ids-rewritten, found-rewritten, rewritten-Evolves,
}

-- no two jobs share a primary key
abbrev pub IsKeyed : Database → Type 0
IsKeyed db = distinct (job_ids db.jobs) ≡ true

-- what an operation on the jobs keeps
pub record Moves (db db' : Database) : Type 0 where
  pub keyed : IsKeyed db'
  pub evolves : Evolves db.jobs db'.jobs

pub Moves-trans : (a b c : Database) → Moves a b → Moves b c → Moves a c
Moves-trans a b c m n = record {
  keyed = n.keyed;
  evolves = Evolves-trans a.jobs b.jobs c.jobs m.evolves n.evolves;
}

pub same-Moves : (a b : Database) → IsKeyed a → b.jobs ≡ a.jobs → Moves a b
same-Moves a b k e = record {
  keyed = subst (λ l. distinct (job_ids l) ≡ true) (sym e) k;
  evolves = subst (Evolves a.jobs) (sym e) (Evolves-refl a.jobs);
}

-- one row found by its key is rewritten, one step on
pub update_job-Moves :
    (id : String) (f : MaintenanceJob → MaintenanceJob) (db : Database) (i : MaintenanceJob)
    → KeepsId f
    → IsKeyed db
    → found id db.jobs ≡ some i
    → Step i.status (f i).status
    → Moves db (update_job id f db)
update_job-Moves id f db i same k e st = record {
  keyed = subst (λ l. distinct l ≡ true) (sym (ids-rewritten id f same db.jobs)) k;
  evolves = rewritten-Evolves id f same db.jobs i e k (next stay st);
}

-- The job is there, running, under its key.
abbrev pub IsRunning : String → Database → Type 0
IsRunning id db = (j : MaintenanceJob) × (found id db.jobs ≡ some j) × (j.status ≡ "running")

-- the job has ended with this status, at this time
abbrev pub IsFinished : String → String → ℕ → Database → Type 0
IsFinished id status at db =
    (j : MaintenanceJob) × (get_maintenance_job db id ≡ some j)
    × (j.status ≡ status)
    × (j.completed_at ≡ some at)

-- the assignments of `complete_maintenance_job`
abbrev closed : Verdict → ℕ → MaintenanceJob → MaintenanceJob
closed v at j = record j {
  status = v.status;
  completed_at = some at;
  result_json = v.result;
  error_json = v.error;
  updated_at = at;
}

-- the assignments of `start_maintenance_job`
abbrev pub started : ℕ → MaintenanceJob → MaintenanceJob
started at j = record j { status = "running"; started_at = some at; updated_at = at }

pub complete_found :
    (db : Database) (id : String) (at : ℕ) (v : Verdict) (j : MaintenanceJob)
    → found id db.jobs ≡ some j
    → complete_maintenance_job db id at v.result v.status v.error
      ≡ some (update_job id (closed v at) db)
unfolding complete_maintenance_job get_maintenance_job
complete_found db id at v j e = rw e refl

pub start_found :
    (db : Database) (id : String) (at : ℕ) (j : MaintenanceJob)
    → found id db.jobs ≡ some j
    → j.status ≡ "pending"
    → start_maintenance_job db id at ≡ some (update_job id (started at) db)
unfolding start_maintenance_job get_maintenance_job
start_found db id at j e p = rw e (rw p refl)

pub start_other :
    (db : Database) (id : String) (at : ℕ) (j : MaintenanceJob)
    → found id db.jobs ≡ some j
    → (j.status == "pending") ≡ false
    → start_maintenance_job db id at ≡ none
unfolding start_maintenance_job get_maintenance_job
start_other db id at j e p = rw e (rw p refl)

pub start_unknown :
    (db : Database) (id : String) (at : ℕ)
    → found id db.jobs ≡ none
    → start_maintenance_job db id at ≡ none
unfolding start_maintenance_job get_maintenance_job
start_unknown db id at e = rw e refl

pub finish_running :
    (t : Ticks) (ref : MaintenanceJobRef) (v : Verdict) (db : Database)
    → IsKeyed db
    → IsRunning ref.id db
    → contains final v.status ≡ true
    → (db' : Database) × (finish_job t ref v db ≡ some (db', report ref.id v.status v.result))
      × Moves db db'
      × IsFinished ref.id v.status t.finished_at db'
unfolding finish_job get_maintenance_job record_event add_event
finish_running t ref v db k (j, e, r) h =
    let f : MaintenanceJob → MaintenanceJob = closed v t.finished_at in
    let again = found-rewritten ref.id f (λ i. refl) db.jobs j e in
    let moved : Moves db (update_job ref.id f db) =
      update_job-Moves ref.id f db j (λ i. refl) k e (finish r h) in
    (
      record_event (update_job ref.id f db) (
          maintenance_event t.finished_event ref.session_id ref.trigger_turn_id
            ("maintenance.job." <> v.status) (finished_payload (f j) v.result) v.status
            ref.trigger_event_id),
      rw (complete_found db ref.id t.finished_at v j e) (rw again refl),
      record { keyed = moved.keyed; evolves = moved.evolves },
      (f j, again, refl, refl),
    )
