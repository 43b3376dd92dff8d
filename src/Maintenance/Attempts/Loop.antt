-- ===== src/Maintenance/Attempts/Loop.antt =====
-- The loop of `schedule_summary_repairs` keeps the bounds on the repair jobs of a target.
use llm_api_mind.Base.{
  ℕ, ◌+◌, ◌≤◌, String, Option, none, some, List, [], ◌∷◌, ◌++◌, map, false, ◌≡◌, refl, sym, subst,
  ap, inl, inr, arith, ◌||◌, Bool-cases, Option-cases, not, length, length-append, leb, ◌-◌, suc,
}
use llm_api_mind.Base.Numbers.{number_of}
use llm_api_mind.Storage.Models.{MaintenanceJob, Database}
use llm_api_mind.Storage.Jobs.{resolved_key, find_by_key, schedule_session_maintenance_job}
use llm_api_mind.Storage.Jobs.Schedule.{schedule_new, schedule_known}
use llm_api_mind.Storage.SummaryStates.{SessionSummaryState, list_session_summary_states}
use llm_api_mind.Maintenance.Shared.{Host, Settings}
use llm_api_mind.Maintenance.Repairs.{
  RepairDraw, repair_states, due_attempt, schedule_summary_repairs, given_limit,
}
use llm_api_mind.Maintenance.Scheduled.{repair_full, repair_skip, repair_due}
use llm_api_mind.Maintenance.Attempts.{is_repair, IsBounded, asked, added-IsBounded, added_few}

room_left :
    (n : ℕ) (l : List MaintenanceJob) (j : MaintenanceJob)
    → leb n (length l) ≡ false
    → length (l ++ j ∷ []) + (n - suc (length l)) ≡ n
room_left n l j h = ground (arith, length-append l (j ∷ []))

length-map :
    (f : MaintenanceJob → MaintenanceJob) (l : List MaintenanceJob) → length (map f l) ≡ length l
length-map f [] = refl
length-map f (j ∷ l) = ap suc (length-map f l)

module _ (host : Host) (settings : Settings) where
  -- the bounds, and room for so many more repair jobs in what a query returns
  record Holds (more : ℕ) (db : Database) : Type 0 where
    bounded : IsBounded settings.summary_reconcile_max_attempts db.jobs
    room : (s : String) → number_of (is_repair s) db.jobs + more ≤ 100

  Holds-less : (m n : ℕ) (db : Database) → m ≤ n → Holds n db → Holds m db
  Holds-less m n db h k = record { bounded = k.bounded; room = λ s. omega (arith, k.room s) }

  -- one job for a due state
  due-Holds :
      (db : Database) (state : SessionSummaryState) (last : String) (attempt clock : ℕ)
      (id : String) (created now more : ℕ)
      → due_attempt host settings db state ≡ some (last, attempt)
      → Holds (more + 1) db
      → Holds more
          (schedule_session_maintenance_job db
            (asked host settings db state last attempt clock id created now)
            id
            created
            now).0
  due-Holds db state last attempt clock id created now more e k =
      let r = asked host settings db state last attempt clock id created now in
      elim (Option-cases (find_by_key db.jobs (resolved_key r))) [
        | inl new ↦
            subst (λ s. Holds more s.0) (sym (schedule_new db r id created now new))
              (record {
                bounded =
                    added-IsBounded host settings db state last attempt clock id created now e
                      (omega (arith, k.room state.chat_session.id)) k.bounded;
                room = λ s. omega (
                  arith,
                  k.room s,
                  added_few host settings db state last attempt clock id created now s,
                );
              })
        | inr (job, known) ↦
            subst (λ s. Holds more s.0) (sym (schedule_known db r id created now known))
              (Holds-less more (more + 1) db (omega arith) k)
      ]

module _ (host : Host) (settings : Settings) (draw : ℕ → RepairDraw) (batch_limit : ℕ) where
  abbrev Kept : Database × List MaintenanceJob → Type 0
  Kept r = IsBounded settings.summary_reconcile_max_attempts r.0.jobs × (length r.1 ≤ batch_limit)

  loop-Kept :
      (states : List SessionSummaryState) (db : Database) (scheduled : List MaintenanceJob)
      (more : ℕ)
      → length scheduled + more ≡ batch_limit
      → Holds host settings more db
      → Kept (repair_states host settings draw batch_limit db scheduled states)
  unfolding repair_states
  loop-Kept [] db scheduled more e k = (k.bounded, omega arith)
  loop-Kept (state ∷ states) db scheduled more e k =
      elim (Bool-cases (leb batch_limit (length scheduled))) [
        | inl full ↦
            subst Kept
              (sym (repair_full host settings draw batch_limit db scheduled state states full))
              (k.bounded, omega arith)
        | inr open_ ↦ elim (Option-cases (due_attempt host settings db state)) [
          | inl idle ↦
              subst Kept
                (sym
                  (repair_skip host settings draw batch_limit db scheduled state states open_ idle))
                (loop-Kept states db scheduled more e k)
          | inr ((last, attempt), due) ↦
              let d : RepairDraw = draw (length scheduled) in
              let after =
                due-Holds host settings db state last attempt d.clock d.drawn.id d.drawn.created
                  d.drawn.updated (batch_limit - suc (length scheduled)) due
                  (Holds-less host settings (batch_limit - suc (length scheduled) + 1) more db
                    (ground (arith, open_, e)) k) in
              subst Kept
                (sym (
                  repair_due host settings draw batch_limit db scheduled state states last attempt
                    open_ due))
                (loop-Kept states _ _ (batch_limit - suc (length scheduled))
                  (room_left batch_limit scheduled _ open_) after)
        ]
      ]

-- Suppose that every session and last message have at most `summary_reconcile_max_attempts` repair
-- jobs, of which at most one is pending, running or completed, and that no session has so many
-- repair jobs that this call's could bring them above 100, the limit of the query for them. Then
-- both bounds hold after the scheduling of summary repairs, whatever ids and times it draws, and
-- the call returns no more jobs than its limit, or the configured batch size where it has none.
pub repairs-IsBounded :
    (host : Host) (settings : Settings) (draw : ℕ → RepairDraw) (db : Database) (limit : Option ℕ)
    (exclude : Option String)
    → IsBounded settings.summary_reconcile_max_attempts db.jobs
    → ((s : String)
        → number_of (is_repair s) db.jobs + given_limit limit settings.summary_reconcile_batch_size
          ≤ 100)
    → let r = schedule_summary_repairs host settings db limit exclude draw in
      IsBounded settings.summary_reconcile_max_attempts r.0.jobs
      × (length r.1 ≤ given_limit limit settings.summary_reconcile_batch_size)
unfolding schedule_summary_repairs
repairs-IsBounded host settings draw db limit exclude bounded room =
    elim (Bool-cases (not settings.maintenance_enabled || not settings.summary_reconcile_enabled)) [
      | inl off ↦ rw off (bounded, omega arith)
      | inr on ↦
          let n = given_limit limit settings.summary_reconcile_batch_size in
          let states = list_session_summary_states db exclude none in
          let (kept, few) =
            loop-Kept host settings draw n states db [] n (omega arith)
              (record { bounded = bounded; room = room }) in
          rw on (kept, omega (arith, length-map _ _, few))
    ]
