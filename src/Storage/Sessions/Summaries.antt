-- ===== src/Storage/Sessions/Summaries.antt =====
-- `upsert_session_summary` against `get_session_summary`.
use llm_api_mind.Base.{
  ℕ, String, Option, none, some, List, [], ◌∷◌, ◌++◌, Bool, true, false, ◌≡◌, refl, sym, ap, ◌∙◌,
  subst, arith, ◌==◌, eq_iff, eq_refl, find, find-hit, find-miss, Bool-cases, Option-cases, inl,
  inr, if◌then◌else◌,
}
use llm_api_mind.Storage.Models.{SessionSummary, Database}
use llm_api_mind.Storage.Sessions.{
  SummaryInput, get_session_summary, write_summary, new_summary, update_first,
  upsert_session_summary,
}

abbrev of_session : String → SessionSummary → Bool
of_session s r = r.session_id == s

-- the row as the operations build it
abbrev written :
    Option SessionSummary → String → String → SummaryInput → (created now : ℕ) → SessionSummary
written none id session_id x created now = new_summary id session_id x created now
written (some r) id session_id x created now = write_summary x now r

find-snoc :
    (s : String) (rows : List SessionSummary) (r : SessionSummary)
    → find (of_session s) rows ≡ none
    → find (of_session s) (rows ++ r ∷ []) ≡ find (of_session s) (r ∷ [])
find-snoc s [] r h = refl
find-snoc s (q ∷ rows) r h = ground (arith, find-snoc s rows r)

find-snoc_other :
    (s : String) (rows : List SessionSummary) (r : SessionSummary)
    → (r.session_id == s) ≡ false
    → find (of_session s) (rows ++ r ∷ []) ≡ find (of_session s) rows
find-snoc_other s [] r h = ground (arith, h)
find-snoc_other s (q ∷ rows) r h = ground (arith, h, find-snoc_other s rows r h)

row_inj : {q r : SessionSummary} → some q ≡ some r → q ≡ r
row_inj e = cc

find-passes :
    (s : String) (rows : List SessionSummary) (r : SessionSummary)
    → find (of_session s) rows ≡ some r
    → r.session_id ≡ s
find-passes s [] r h = cc
find-passes s (q ∷ rows) r h = elim (Bool-cases (of_session s q)) [
  | inl e ↦
      subst (λ t. t.session_id ≡ s) (row_inj (sym (find-hit (of_session s) q rows e) ∙ h))
        ((eq_iff q.session_id s).0 e)
  | inr e ↦ find-passes s rows r (sym (find-miss (of_session s) q rows e) ∙ h)
]

module _ (x : SummaryInput) (now : ℕ) (id : String) where
  write_keeps : (r : SessionSummary) → (write_summary x now r).session_id ≡ r.session_id
  unfolding write_summary
  write_keeps r = refl

  write_keeps_session :
      (r : SessionSummary) → of_session id r ≡ true → of_session id (write_summary x now r) ≡ true
  unfolding write_summary
  write_keeps_session r e = e

  abbrev kept : Option SessionSummary → Option SessionSummary
  kept none = none
  kept (some r) = some (write_summary x now r)

  find-update_first :
      (rows : List SessionSummary) (r : SessionSummary)
      → find (of_session id) rows ≡ some r
      → find (of_session id) (update_first (of_session id) (write_summary x now) rows)
        ≡ some (write_summary x now r)
  unfolding update_first
  find-update_first [] r h = cc
  find-update_first (q ∷ rows) r h = elim (Bool-cases (of_session id q)) [
    | inl e ↦
        rw (update_first, e)
          (find-hit (of_session id) (write_summary x now q) rows (write_keeps_session q e)
            ∙ ap (λ o. kept o) (sym (find-hit (of_session id) q rows e) ∙ h))
    | inr e ↦
        rw (update_first, e)
          (find-miss (of_session id) q (update_first (of_session id) (write_summary x now) rows) e
            ∙ find-update_first rows r (sym (find-miss (of_session id) q rows e) ∙ h))
  ]

  find-update_first_other :
      (s : String) (rows : List SessionSummary)
      → (s == id) ≡ false
      → find (of_session s) (update_first (of_session id) (write_summary x now) rows)
        ≡ find (of_session s) rows
  unfolding update_first
  find-update_first_other s [] h = refl
  find-update_first_other s (q ∷ rows) h = ground (
    arith,
    h,
    find-update_first_other s rows h,
    write_keeps q,
    eq_iff q.session_id s,
    eq_iff q.session_id id,
    eq_iff s id,
  )

module _ (db : Database) (new_id session_id : String) (created now : ℕ) (x : SummaryInput) where
  abbrev fresh : SessionSummary
  fresh = new_summary new_id session_id x created now

  own : of_session session_id fresh ≡ true
  unfolding new_summary
  own = eq_refl session_id

  apart : (s : String) → (s == session_id) ≡ false → of_session s fresh ≡ false
  unfolding new_summary
  apart s h = ground (arith, h, eq_iff s session_id, eq_iff session_id s)

  upsert_new :
      get_session_summary db session_id ≡ none
      → upsert_session_summary db new_id session_id created now x
        ≡ record db { summaries = db.summaries ++ new_summary new_id session_id x created now ∷ [] }
  unfolding upsert_session_summary
  upsert_new e = rw (upsert_session_summary, e) refl

  upsert_known :
      (r : SessionSummary)
      → get_session_summary db session_id ≡ some r
      → upsert_session_summary db new_id session_id created now x ≡ record db {
        summaries = update_first (of_session session_id) (write_summary x now) db.summaries;
      }
  unfolding upsert_session_summary
  upsert_known r e = rw (upsert_session_summary, e) refl

  get-upsert_written :
      (s : String)
      → get_session_summary (upsert_session_summary db new_id session_id created now x) s ≡ (
          if s == session_id
          then some (written (get_session_summary db session_id) new_id session_id x created now)
          else get_session_summary db s)
  unfolding get_session_summary
  get-upsert_written s = elim (Option-cases (get_session_summary db session_id)) [
    | inl e ↦ elim (Bool-cases (s == session_id)) [
      | inl same ↦
          rw (upsert_new e, e, same)
            (subst (λ t. find (of_session t) (db.summaries ++ fresh ∷ []) ≡ some fresh)
              (sym ((eq_iff s session_id).0 same))
              (find-snoc session_id db.summaries fresh e
                ∙ find-hit (of_session session_id) fresh [] own))
      | inr other ↦
          rw (upsert_new e, e, other) (find-snoc_other s db.summaries fresh (apart s other))
    ]
    | inr (r, e) ↦ elim (Bool-cases (s == session_id)) [
      | inl same ↦
          rw (upsert_known r e, e, same)
            (subst
              (λ t.
                find (of_session t)
                  (update_first (of_session session_id) (write_summary x now) db.summaries)
                ≡ some (write_summary x now r))
              (sym ((eq_iff s session_id).0 same))
              (find-update_first x now session_id db.summaries r e))
      | inr other ↦
          rw (upsert_known r e, e, other)
            (find-update_first_other x now session_id s db.summaries other)
    ]
  ]

abbrev first_id : String → Option SessionSummary → String
first_id new_id none = new_id
first_id new_id (some r) = r.id

abbrev first_created : ℕ → Option SessionSummary → ℕ
first_created created none = created
first_created created (some r) = r.created_at

-- The row of a session after a call: every value comes from the call, but the id and the time of
-- creation come from the row that was there before, where there was one.
abbrev pub recorded :
    Option SessionSummary
    → (new_id session_id : String) → (created now : ℕ) → SummaryInput
    → SessionSummary
recorded before new_id session_id created now x = record {
  id = first_id new_id before;
  session_id = session_id;
  summary = x.summary;
  topics_json = x.topics;
  decisions_json = x.decisions;
  open_questions_json = x.open_questions;
  memory_ids_json = x.memory_ids;
  message_count = x.message_count;
  source_turn_count = x.source_turn_count;
  last_message_id = x.last_message_id;
  status = x.status;
  summary_version = x.summary_version;
  created_at = first_created created before;
  updated_at = now;
  metadata_json = x.metadata;
}

module _ (db : Database) (new_id session_id : String) (created now : ℕ) (x : SummaryInput) where
  written_recorded :
      written (get_session_summary db session_id) new_id session_id x created now
      ≡ recorded (get_session_summary db session_id) new_id session_id created now x
  unfolding write_summary new_summary get_session_summary
  written_recorded = elim (Option-cases (get_session_summary db session_id)) [
    | inl e ↦ rw e refl
    | inr (r, e) ↦
        let own : r.session_id ≡ session_id = find-passes session_id db.summaries r e in
        rw (e, own) refl
  ]

  -- After an upsert, a lookup of the call's session finds a row whose every value is the call's,
  -- whose update time is the call's, and whose id and creation time are those of the row that was
  -- there before, or the call's if there was none. For every other session the lookup finds what it
  -- found before.
  pub get-upsert :
      (s : String)
      → get_session_summary (upsert_session_summary db new_id session_id created now x) s ≡ (
          if s == session_id
          then some (recorded (get_session_summary db session_id) new_id session_id created now x)
          else get_session_summary db s)
  get-upsert s =
      get-upsert_written db new_id session_id created now x s
      ∙ ap (λ r. if s == session_id then some r else get_session_summary db s) written_recorded
