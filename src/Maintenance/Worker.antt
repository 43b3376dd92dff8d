-- ===== src/Maintenance/Worker.antt =====
-- `run_due_maintenance_jobs` of backend/app/runtime/maintenance_scheduler.py.
use llm_api_mind.Base.{ℕ, suc, Option, none, some, List, [], ◌∷◌, ◌>>=◌, if◌then◌else◌, not}
use llm_api_mind.Base.Json.{Fields}
use llm_api_mind.Storage.Models.{MaintenanceJob, Database}
use llm_api_mind.Storage.Jobs.{list_due_maintenance_jobs}
use llm_api_mind.Maintenance.Shared.{Settings, Host}
use llm_api_mind.Maintenance.Runner.{Workers, Ticks, run_maintenance_job}
use llm_api_mind.Maintenance.Repairs.{RepairDraw, schedule_summary_repairs}

module _ (host : Host) (workers : Workers) where
  -- The runs, one after another; the first exception ends the batch.
  unfoldable pub run_jobs :
      Database
      → (ticks : ℕ → Ticks) → (n : ℕ) → List MaintenanceJob
      → Option (Database × List Fields)
  run_jobs db ticks n [] = some (db, [])
  run_jobs db ticks n (job ∷ jobs) = do
    (db', report) ← run_maintenance_job host workers db job.id (ticks n)
    (db'', reports) ← run_jobs db' ticks (suc n) jobs
    some (db'', report ∷ reports)

module _ (host : Host) (settings : Settings) (workers : Workers) where
  -- `now` is the clock where the caller gives none.
  unfoldable pub run_due_maintenance_jobs :
      Database
      → (now : ℕ) → (draw : ℕ → RepairDraw) → (ticks : ℕ → Ticks) → Option (Database × List Fields)
  unfolding run_jobs
  run_due_maintenance_jobs db now draw ticks =
      if not settings.maintenance_enabled
      then some (db, [])
      else (let (db', _) = schedule_summary_repairs host settings db none none draw in
          run_jobs host workers db' ticks 0
            (list_due_maintenance_jobs db' now settings.maintenance_job_batch_size))
