-- ===== src/Maintenance/Due.antt =====
-- `run_due_maintenance_jobs` as a whole: the scheduling of repairs and the batch behind it.
use llm_api_mind.Base.{
  ap, if◌then◌else◌, not, ℕ, none, some, List, [], ◌∷◌, true, ◌≡◌, ◌∙◌, inl, inr, ◌==◌, eq_refl,
  Bool-cases, All, All-map, length, filter-All, take-All, find-hit, find-miss,
}
use llm_api_mind.Base.Sorting.{sort_by-All}
use llm_api_mind.Base.Json.{Fields}
use llm_api_mind.Storage.Models.{MaintenanceJob, Database}
use llm_api_mind.Storage.Jobs.{list_due_maintenance_jobs}
use llm_api_mind.Maintenance.Shared.{Host, Settings}
use llm_api_mind.Maintenance.Runner.{Workers, Ticks}
use llm_api_mind.Maintenance.Repairs.{RepairDraw, schedule_summary_repairs}
use llm_api_mind.Maintenance.Worker.{run_jobs, run_due_maintenance_jobs}
use llm_api_mind.Maintenance.Lifecycle.{found}
use llm_api_mind.Maintenance.Moves.{IsKeyed, Moves, Moves-trans}
use llm_api_mind.Maintenance.Runs.{Polite}
use llm_api_mind.Maintenance.Batch.{Stand, IsPast, run_jobs_finish}
use llm_api_mind.Maintenance.Scheduled.{Fresh, Distinct, repairs_scheduled-Moves}

-- every row of a table is found by its key
found_row : (l : List MaintenanceJob) → All (λ x. (j : MaintenanceJob) × (found x.id l ≡ some j)) l
found_row [] = tt
found_row (i ∷ l) =
    ((i, find-hit (λ y. y.id == i.id) i l (eq_refl i.id)), All-map _ _ later l (found_row l))
  where
    later :
        (x : MaintenanceJob)
        → (j : MaintenanceJob) × (found x.id l ≡ some j)
        → (j : MaintenanceJob) × (found x.id (i ∷ l) ≡ some j)
    later x (j, e) = elim (Bool-cases (i.id == x.id)) [
      | inl here ↦ (i, find-hit (λ y. y.id == x.id) i l here)
      | inr other ↦ (j, find-miss (λ y. y.id == x.id) i l other ∙ e)
    ]

due-Stand : (db : Database) (now limit : ℕ) → Stand (list_due_maintenance_jobs db now limit) db
unfolding list_due_maintenance_jobs
due-Stand db now limit =
    take-All _ limit _ (sort_by-All _ _ _ (filter-All _ _ db.jobs (found_row db.jobs)))

-- the call with maintenance on
due_on :
    (host : Host) (settings : Settings) (w : Workers) (db : Database) (now : ℕ)
    → (draw : ℕ → RepairDraw) (ticks : ℕ → Ticks) → settings.maintenance_enabled ≡ true
    → run_due_maintenance_jobs host settings w db now draw ticks ≡ (
        let scheduled = (schedule_summary_repairs host settings db none none draw).0 in
        run_jobs host w scheduled ticks 0
          (list_due_maintenance_jobs scheduled now settings.maintenance_job_batch_size))
unfolding run_due_maintenance_jobs
due_on host settings w db now draw ticks on =
    let scheduled : Database = (schedule_summary_repairs host settings db none none draw).0 in
    ap
      (λ b.
        if not b
        then some (db, [])
        else run_jobs host w scheduled ticks 0
            (list_due_maintenance_jobs scheduled now settings.maintenance_job_batch_size))
      on

module _ (host : Host) (settings : Settings) (w : Workers) (polite : Polite w)
    (draw : ℕ → RepairDraw) (apart : Distinct draw) (on : settings.maintenance_enabled ≡ true) where
  -- With maintenance on, no two jobs with one id, new and different drawn ids, and workers that write
  -- no job, the call returns: it schedules the repairs and runs the jobs that are then due, with one
  -- report for each; no job id is lost or doubled, every job moves along its life only, and none of
  -- the due jobs is left pending, whatever the workers return or raise.
  pub run_due_finishes :
      (db : Database) (now : ℕ) (ticks : ℕ → Ticks)
      → IsKeyed db
      → Fresh draw 0 db
      → let scheduled = (schedule_summary_repairs host settings db none none draw).0 in
        let due = list_due_maintenance_jobs scheduled now settings.maintenance_job_batch_size in
        (db' : Database) × (reports : List Fields) × (run_due_maintenance_jobs host settings w db
            now draw ticks
          ≡ some (db', reports))
        × (length reports ≡ length due)
        × Moves db db'
        × All (λ x. IsPast x.id db') due
  run_due_finishes db now ticks k fresh =
      let scheduled : Database = (schedule_summary_repairs host settings db none none draw).0 in
      let moved = repairs_scheduled-Moves host settings draw apart db none none k fresh in
      let (db', reports, ran, count, later, past) =
        run_jobs_finish host w polite ticks
          (list_due_maintenance_jobs scheduled now settings.maintenance_job_batch_size) 0 scheduled
          moved.keyed (due-Stand scheduled now settings.maintenance_job_batch_size) in
      (
        db',
        reports,
        due_on host settings w db now draw ticks on ∙ ran,
        count,
        Moves-trans db scheduled db' moved later,
        past,
      )
