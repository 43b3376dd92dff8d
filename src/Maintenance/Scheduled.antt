-- ===== src/Maintenance/Scheduled.antt =====
-- What the scheduling of summary repairs leaves in the table of jobs.
use llm_api_mind.Base.{
  ℕ, ◌+◌, ◌≤◌, ◌<◌, String, Option, none, some, List, [], ◌∷◌, ◌++◌, map, true, false, ◌≡◌, refl,
  sym, subst, ap, ◌∙◌, inl, inr, arith, ◌==◌, eq_iff, contains, contains-append, distinct,
  Bool-cases, Option-cases, not, ◌||◌, length, length-append, leb,
}
use llm_api_mind.Storage.Models.{MaintenanceJob, Database}
use llm_api_mind.Storage.Jobs.{
  JobRequest, resolved_key, find_by_key, supersede_job, new_job, schedule_session_maintenance_job,
  is_pending_for,
}
use llm_api_mind.Storage.Jobs.Schedule.{schedule_new, schedule_known}
use llm_api_mind.Storage.SummaryStates.{SessionSummaryState, list_session_summary_states}
use llm_api_mind.Maintenance.Shared.{Host, Settings}
use llm_api_mind.Maintenance.Repairs.{
  RepairDraw, repair_states, due_attempt, repair_request, schedule_summary_repairs, given_limit,
}
use llm_api_mind.Maintenance.Lifecycle.{
  supersede, Lifecycle, stay, next, Evolves-append, Evolves-map, job_ids,
}
use llm_api_mind.Maintenance.Moves.{IsKeyed, Moves, Moves-trans, same-Moves}

supersede_row :
    (r : JobRequest) (id : String) (now : ℕ) (j : MaintenanceJob)
    → ((supersede_job r id now j).id ≡ j.id) × Lifecycle j.status (supersede_job r id now j).status
unfolding supersede_job
supersede_row r id now j = elim (Bool-cases (is_pending_for r j)) [
  | inl e ↦ rw e (
    refl,
    next stay
        (supersede (unfold is_pending_for in ground (arith, e, eq_iff j.status "pending")) refl),
  )
  | inr e ↦ rw e (refl, stay)
]

supersede-ids :
    (r : JobRequest) (id : String) (now : ℕ) (l : List MaintenanceJob)
    → job_ids (map (supersede_job r id now) l) ≡ job_ids l
supersede-ids r id now [] = refl
supersede-ids r id now (j ∷ l) =
    rw (supersede_row r id now j).0 (ap (λ k. j.id ∷ k) (supersede-ids r id now l))

ids-append : (l k : List MaintenanceJob) → job_ids (l ++ k) ≡ job_ids l ++ job_ids k
ids-append [] k = refl
ids-append (j ∷ l) k = ap (λ m. j.id ∷ m) (ids-append l k)

distinct-snoc :
    (l : List String) (x : String)
    → distinct l ≡ true
    → contains l x ≡ false
    → distinct (l ++ x ∷ []) ≡ true
distinct-snoc [] x d f = refl
distinct-snoc (y ∷ l) x d f =
    ground (arith, contains-append l (x ∷ []) y, distinct-snoc l x, eq_iff x y, eq_iff y x)

-- what a call of the storage leaves, where the drawn id is new
pub record Scheduled (db : Database) (id : String) (db' : Database) : Type 0 where
  pub moved : Moves db db'
  pub ids :
      (x : String)
      → (x == id) ≡ false
      → contains (job_ids db.jobs) x ≡ false
      → contains (job_ids db'.jobs) x ≡ false

schedule_ids :
    (db : Database) (r : JobRequest) (id : String) (created now : ℕ)
    → job_ids (map (supersede_job r id now) db.jobs ++ new_job r id created ∷ [])
      ≡ job_ids db.jobs ++ id ∷ []
unfolding new_job
schedule_ids db r id created now =
    ids-append (map (supersede_job r id now) db.jobs) (new_job r id created ∷ [])
    ∙ ap (λ l. l ++ id ∷ []) (supersede-ids r id now db.jobs)

pub schedule-Scheduled :
    (db : Database) (r : JobRequest) (id : String) (created now : ℕ)
    → IsKeyed db
    → contains (job_ids db.jobs) id ≡ false
    → Scheduled db id (schedule_session_maintenance_job db r id created now).0
schedule-Scheduled db r id created now k fresh =
    elim (Option-cases (find_by_key db.jobs (resolved_key r))) [
      | inl e ↦
          subst (λ s. Scheduled db id s.0) (sym (schedule_new db r id created now e))
            (record {
              moved = record {
                keyed =
                    subst (λ l. distinct l ≡ true) (sym (schedule_ids db r id created now))
                      (distinct-snoc (job_ids db.jobs) id k fresh);
                evolves =
                    Evolves-append db.jobs (map (supersede_job r id now) db.jobs) _
                      (Evolves-map (supersede_job r id now) (supersede_row r id now) db.jobs);
              };
              ids = λ x other old.
                  subst (λ l. contains l x ≡ false) (sym (schedule_ids db r id created now))
                    (contains-append (job_ids db.jobs) (id ∷ []) x ∙ ground (arith, old, other));
            })
      | inr (job, e) ↦
          subst (λ s. Scheduled db id s.0) (sym (schedule_known db r id created now e))
            (record { moved = same-Moves db db k refl; ids = λ x other old. old })
    ]

-- No draw from the n-th on gives an id that a job of the table has.
abbrev pub Fresh : (ℕ → RepairDraw) → ℕ → Database → Type 0
Fresh draw n db = (m : ℕ) → n ≤ m → contains (job_ids db.jobs) (draw m).drawn.id ≡ false

-- a later draw gives another id
abbrev pub Distinct : (ℕ → RepairDraw) → Type 0
Distinct draw = (n m : ℕ) → n < m → ((draw m).drawn.id == (draw n).drawn.id) ≡ false

Scheduled-Fresh :
    (draw : ℕ → RepairDraw) (n : ℕ) (db db' : Database)
    → Distinct draw
    → Fresh draw n db
    → Scheduled db (draw n).drawn.id db'
    → Fresh draw (n + 1) db'
Scheduled-Fresh draw n db db' apart fresh s m h =
    s.ids (draw m).drawn.id (apart n m (omega arith)) (fresh m (omega arith))

module _ (host : Host) (settings : Settings) (draw : ℕ → RepairDraw) (batch_limit : ℕ) where
  -- the call of the storage that a due state leads to
  abbrev repaired :
      Database
      → SessionSummaryState
      → (last : String) (attempt n : ℕ) → Database × MaintenanceJob × List MaintenanceJob
  repaired db state last attempt n =
      schedule_session_maintenance_job db
        (repair_request host settings state last attempt (draw n).clock) (draw n).drawn.id
        (draw n).drawn.created (draw n).drawn.updated

  module _ (db : Database) (scheduled : List MaintenanceJob) (state : SessionSummaryState)
      (states : List SessionSummaryState) where
    pub repair_full :
        leb batch_limit (length scheduled) ≡ true
        → repair_states host settings draw batch_limit db scheduled (state ∷ states)
          ≡ (db, scheduled)
    unfolding repair_states
    repair_full h = rw (repair_states, h) refl

    pub repair_skip :
        leb batch_limit (length scheduled) ≡ false
        → due_attempt host settings db state ≡ none
        → repair_states host settings draw batch_limit db scheduled (state ∷ states)
          ≡ repair_states host settings draw batch_limit db scheduled states
    unfolding repair_states
    repair_skip h e = rw (repair_states, h) (rw (repair_states, e) refl)

    pub repair_due :
        (last : String) (attempt : ℕ)
        → leb batch_limit (length scheduled) ≡ false
        → due_attempt host settings db state ≡ some (last, attempt)
        → repair_states host settings draw batch_limit db scheduled (state ∷ states) ≡ (
            let s = repaired db state last attempt (length scheduled) in
            repair_states host settings draw batch_limit s.0 (scheduled ++ s.1 ∷ []) states)
    unfolding repair_states
    repair_due last attempt h e = rw (repair_states, h) (rw (repair_states, e) refl)

  repairs-Moves :
      Distinct draw
      → (states : List SessionSummaryState) (db : Database) (scheduled : List MaintenanceJob)
      → IsKeyed db
      → Fresh draw (length scheduled) db
      → Moves db (repair_states host settings draw batch_limit db scheduled states).0
  repairs-Moves apart [] db scheduled k fresh = unfold repair_states in same-Moves db db k refl
  repairs-Moves apart (state ∷ states) db scheduled k fresh =
      elim (Bool-cases (leb batch_limit (length scheduled))) [
        | inl full ↦
            subst (λ r. Moves db r.0) (sym (repair_full db scheduled state states full))
              (same-Moves db db k refl)
        | inr room ↦ elim (Option-cases (due_attempt host settings db state)) [
          | inl e ↦
              subst (λ r. Moves db r.0) (sym (repair_skip db scheduled state states room e))
                (repairs-Moves apart states db scheduled k fresh)
          | inr ((last, attempt), e) ↦
              let n : ℕ = length scheduled in
              let s : Database × MaintenanceJob × List MaintenanceJob =
                repaired db state last attempt n in
              let call : Scheduled db (draw n).drawn.id s.0 =
                schedule-Scheduled db _ (draw n).drawn.id (draw n).drawn.created
                  (draw n).drawn.updated k (fresh n (omega arith)) in
              subst (λ r. Moves db r.0)
                (sym (repair_due db scheduled state states last attempt room e))
                (Moves-trans db s.0 _ call.moved (
                  repairs-Moves apart states s.0 (scheduled ++ s.1 ∷ []) call.moved.keyed (
                    subst (λ m. Fresh draw m s.0) (sym (length-append scheduled (s.1 ∷ [])))
                      (Scheduled-Fresh draw n db s.0 apart fresh call))))
        ]
      ]

module _ (host : Host) (settings : Settings) (draw : ℕ → RepairDraw) (apart : Distinct draw) where
  -- Where the drawn ids are new and differ, the scheduling of summary repairs loses and doubles no
  -- job id and moves every job along its life only.
  pub repairs_scheduled-Moves :
      (db : Database) (limit : Option ℕ) (exclude : Option String)
      → IsKeyed db
      → Fresh draw 0 db
      → Moves db (schedule_summary_repairs host settings db limit exclude draw).0
  unfolding schedule_summary_repairs
  repairs_scheduled-Moves db limit exclude k fresh =
      elim (Bool-cases
        (not settings.maintenance_enabled || not settings.summary_reconcile_enabled)) [
          | inl off ↦ rw off (same-Moves db db k refl)
          | inr on ↦ rw on (
              repairs-Moves host settings draw
                (given_limit limit settings.summary_reconcile_batch_size) apart
                (list_session_summary_states db exclude none) db [] k fresh)
        ]
