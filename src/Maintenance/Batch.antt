-- ===== src/Maintenance/Batch.antt =====
-- A batch of due jobs: every run returns, and none of its jobs is left pending.
use llm_api_mind.Base.{
  ℕ, suc, String, Option, none, some, List, [], ◌∷◌, true, false, ◌≡◌, ◌≢◌, refl, sym, subst, ap,
  ◌∙◌, inl, inr, arith, ◌==◌, eq_iff, contains, Bool-cases, find-hit, find-miss, All, All-map,
  length,
}
use llm_api_mind.Base.Json.{Fields, end, field, str}
use llm_api_mind.Storage.Models.{MaintenanceJob, Database}
use llm_api_mind.Storage.Events.{add_event}
use llm_api_mind.Storage.Jobs.{get_maintenance_job, start_maintenance_job, update_job}
use llm_api_mind.Maintenance.Shared.{Host, record_event, job_ref, maintenance_event}
use llm_api_mind.Maintenance.Runner.{
  Workers, Ticks, run_started, run_maintenance_job, report, started_payload,
}
use llm_api_mind.Maintenance.Worker.{run_jobs}
use llm_api_mind.Maintenance.Lifecycle.{
  Step, start, supersede, finish, Lifecycle, stay, next, Evolves, found, found-rewritten, final,
}
use llm_api_mind.Maintenance.Moves.{
  IsKeyed, Moves, Moves-trans, same-Moves, update_job-Moves, started, start_found, start_other,
}
use llm_api_mind.Maintenance.Runs.{Polite, Ends, run_started-Ends}

found-id :
    (id : String) (l : List MaintenanceJob) (j : MaintenanceJob) → found id l ≡ some j → j.id ≡ id
found-id id [] j e = cc
found-id id (i ∷ l) j e = elim (Bool-cases (i.id == id)) [
  | inl here ↦ ground (arith, e, here, eq_iff i.id id)
  | inr other ↦ found-id id l j (ground (arith, e, other))
]

Ends-from :
    (a b : Database) (id : String) (at : ℕ) (r : Option (Database × Fields))
    → Moves a b
    → Ends b id at r
    → Ends a id at r
Ends-from a b id at r m e = record {
  after_run = e.after_run;
  status = e.status;
  result = e.result;
  reported = e.reported;
  is_final = e.is_final;
  moved = Moves-trans a b e.after_run m e.moved;
  finished = e.finished;
}

-- the call on a job that cannot be started
pub run_refused :
    (host : Host) (w : Workers) (db : Database) (id : String) (t : Ticks)
    → start_maintenance_job db id t.started_at ≡ none
    → run_maintenance_job host w db id t
      ≡ some (db, field "job_id" (str id) (field "status" (str "not_pending") end))
unfolding run_maintenance_job
run_refused host w db id t e = rw (run_maintenance_job, e) refl

-- the database at the start of the `try`
abbrev at_start : Database → Ticks → MaintenanceJob → Database
at_start db t job = record_event db (
    maintenance_event t.started_event job.session_id job.trigger_turn_id "maintenance.job.started"
      (started_payload (job_ref job)) "running" job.trigger_event_id)

-- the call on a job that is started
run_found :
    (host : Host) (w : Workers) (db db' : Database) (id : String) (t : Ticks) (job : MaintenanceJob)
    → start_maintenance_job db id t.started_at ≡ some db'
    → get_maintenance_job db' id ≡ some job
    → run_maintenance_job host w db id t ≡ run_started host w t (job_ref job) (at_start db' t job)
unfolding run_maintenance_job
run_found host w db db' id t job e g = rw (run_maintenance_job, e) (rw g refl)

-- what no step comes back to
step_past_pending : {s t : String} → Step s t → t ≢ "pending"
step_past_pending (start _ e) h = cc ((eq_iff "running" "pending").1 (sym e ∙ h))
step_past_pending (supersede _ e) h = cc ((eq_iff "superseded" "pending").1 (sym e ∙ h))
step_past_pending (finish _ f) h = cc (subst (λ x. contains final x ≡ true) h f)

pending_before : {s t : String} → Lifecycle s t → t ≡ "pending" → s ≡ "pending"
pending_before stay h = h
pending_before (next l st) h = absurd (step_past_pending st h)

-- a row of the later table was there before, with an earlier status, or is none of the old ids
pub earlier :
    (id : String) (l k : List MaintenanceJob) (i : MaintenanceJob)
    → Evolves l k
    → found id l ≡ some i
    → (j : MaintenanceJob) × (found id k ≡ some j) × Lifecycle i.status j.status
earlier id [] k i v e = cc
earlier id (h ∷ l) [] i v e = elim v [ ]
earlier id (h ∷ l) (j ∷ k) i v e = elim (Bool-cases (h.id == id)) [
  | inl here ↦
      let at_head : h ≡ i = ground (arith, e, here) in
      (
        j,
        find-hit (λ x. x.id == id) j k (subst (λ x. (x == id) ≡ true) (sym v.0) here),
        subst (λ x. Lifecycle x.status j.status) at_head v.1,
      )
  | inr other ↦
      let (x, there, life) = earlier id l k i v.2 (ground (arith, e, other)) in
      (
        x,
        find-miss (λ y. y.id == id) j k (subst (λ y. (y == id) ≡ false) (sym v.0) other) ∙ there,
        life,
      )
]

-- The job of this key is there, and is no longer pending.
abbrev pub IsPast : String → Database → Type 0
IsPast id db = (j : MaintenanceJob) × (found id db.jobs ≡ some j) × (j.status ≢ "pending")

Moves-IsPast : (a b : Database) (id : String) → Moves a b → IsPast id a → IsPast id b
Moves-IsPast a b id m (i, e, n) =
    let (j, there, l) = earlier id a.jobs b.jobs i m.evolves e in
    (j, there, λ p. n (pending_before l p))

-- all jobs of a list stand in the table
abbrev pub Stand : List MaintenanceJob → Database → Type 0
Stand l db = All (λ x. (j : MaintenanceJob) × (found x.id db.jobs ≡ some j)) l

Moves-Stand : (a b : Database) (l : List MaintenanceJob) → Moves a b → Stand l a → Stand l b
Moves-Stand a b l m h =
    All-map _ _
      (λ x found_row.
        let (i, e) = found_row in
        let (j, there, _) = earlier x.id a.jobs b.jobs i m.evolves e in (j, there))
      l h

module _ (host : Host) (w : Workers) (polite : Polite w) where
  -- Where no two jobs share an id and the workers write no job, the run of a pending job returns:
  -- its report carries the status with which the job stands in the table, which is completed, failed
  -- or skipped, whatever the workers return or raise; no id is lost or doubled, and every other job
  -- moves along its life only.
  pub run_pending-Ends :
      (db : Database) (id : String) (t : Ticks) (j : MaintenanceJob)
      → IsKeyed db
      → get_maintenance_job db id ≡ some j
      → j.status ≡ "pending"
      → Ends db id t.finished_at (run_maintenance_job host w db id t)
  unfolding get_maintenance_job record_event add_event job_ref
  run_pending-Ends db id t j k e p =
      let f : MaintenanceJob → MaintenanceJob = started t.started_at in
      let again : found id (update_job id f db).jobs ≡ some (f j) =
        found-rewritten id f (λ i. refl) db.jobs j e in
      let moved : Moves db (update_job id f db) =
        update_job-Moves id f db j (λ i. refl) k e (start p refl) in
      let begun : Database = at_start (update_job id f db) t (f j) in
      let named : j.id ≡ id = found-id id db.jobs j e in
      subst (Ends db id t.finished_at)
        (sym
          (run_found host w db (update_job id f db) id t (f j) (start_found db id _ j e p) again))
        (subst (λ x. Ends db x t.finished_at (run_started host w t (job_ref (f j)) begun)) named
          (Ends-from db begun j.id t.finished_at _
            (Moves-trans db (update_job id f db) begun moved (same-Moves _ begun moved.keyed refl))
            (run_started-Ends host w polite t (job_ref (f j)) begun moved.keyed
              (f j, subst (λ x. found x begun.jobs ≡ some (f j)) (sym named) again, refl))))

  -- the run of any job that is there
  pub run_any :
      (db : Database) (id : String) (t : Ticks) (j : MaintenanceJob)
      → IsKeyed db
      → found id db.jobs ≡ some j
      → (db' : Database) × (r : Fields) × (run_maintenance_job host w db id t ≡ some (db', r))
        × Moves db db'
        × IsPast id db'
  unfolding get_maintenance_job
  run_any db id t j k e = elim (Bool-cases (j.status == "pending")) [
    | inl p ↦
        let ends = run_pending-Ends db id t j k e ((eq_iff j.status "pending").0 p) in
        let (i, there, is_status, _) = ends.finished in
        (
          ends.after_run,
          report id ends.status ends.result,
          ends.reported,
          ends.moved,
          (
            i,
            there,
            λ pending.
                cc (subst (λ x. contains final x ≡ true) (sym is_status ∙ pending) ends.is_final),
          ),
        )
    | inr n ↦ (
      db,
      field "job_id" (str id) (field "status" (str "not_pending") end),
      run_refused host w db id t (start_other db id t.started_at j e n),
      same-Moves db db k refl,
      (j, e, λ p. cc (sym n ∙ (eq_iff j.status "pending").1 p)),
    )
  ]

  -- Where no two jobs share an id and the workers write no job, the runs of a list of jobs of the
  -- table return one report each, keep every job on its life, and leave none of the list pending.
  pub run_jobs_finish :
      (ticks : ℕ → Ticks) (jobs : List MaintenanceJob) (n : ℕ) (db : Database)
      → IsKeyed db
      → Stand jobs db
      → (db' : Database) × (reports : List Fields) × (run_jobs host w db ticks n jobs
          ≡ some (db', reports))
        × (length reports ≡ length jobs)
        × Moves db db'
        × All (λ x. IsPast x.id db') jobs
  unfolding run_jobs
  run_jobs_finish ticks [] n db k s = (db, [], refl, refl, same-Moves db db k refl, tt)
  run_jobs_finish ticks (x ∷ jobs) n db k ((j, e), s) =
      let (db1, r, ran, moved, past) = run_any db x.id (ticks n) j k e in
      let (db2, rs, rest, count, moved', pasts) =
        run_jobs_finish ticks jobs (suc n) db1 moved.keyed (Moves-Stand db db1 jobs moved s) in
      (
        db2,
        r ∷ rs,
        rw ran (rw rest refl),
        ap suc count,
        Moves-trans db db1 db2 moved moved',
        (Moves-IsPast db1 db2 x.id moved' past, pasts),
      )
