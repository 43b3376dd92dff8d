-- ===== src/Storage/History/Create.antt =====
-- `create_history_compaction` keeps the chain of every session.
use llm_api_mind.Base.{
  ℕ, suc, String, Option, none, some, List, [], ◌∷◌, ◌++◌, map, true, false, ◌≡◌, refl, sym, ap,
  ◌∙◌, subst, arith, contains, contains-append, distinct, last?, ◌==◌, eq_iff, Bool-cases, ◌⊎◌, inl,
  inr,
}
use mathlib.Core.List.{append-nil, map-append}
use llm_api_mind.Base.Sorting.{sort_by}
use llm_api_mind.Storage.Models.{HistoryCompaction, Database}
use llm_api_mind.Storage.History.{
  CompactionInput, get_latest_history_compaction, supersede, retire, new_artifact,
  create_history_compaction,
}
use llm_api_mind.Storage.History.Chain.{
  ids, rows_of, IsChain, filter_active, rows_of-append, rows_of-retire, map-retire_absent,
  ids-retire, IsChain-prolong, apart, distinct-rows_of, contains-last, head-sort_by,
}

-- Ids are primary keys, and the rows of every session form a chain from generation 1.
pub record IsLinked (rows : List HistoryCompaction) : Type 0 where
  pub unique : distinct (ids rows) ≡ true
  pub chains : (s : String) → IsChain 0 none (rows_of s rows)

last_cases :
    (l : List HistoryCompaction) → (l ≡ []) ⊎ ((p : HistoryCompaction) × (last? l ≡ some p))
last_cases [] = inl refl
last_cases (c ∷ []) = inr (c, refl)
last_cases (c ∷ d ∷ l) = elim (last_cases (d ∷ l)) [ inl e ↦ inr (d, cc) | inr (p, e) ↦ inr (p, e) ]

latest-eq-last :
    (db : Database) (s : String)
    → IsChain 0 none (rows_of s db.compactions)
    → get_latest_history_compaction db s none ≡ last? (rows_of s db.compactions)
unfolding get_latest_history_compaction
latest-eq-last db s chain =
    rw (filter_active s db.compactions) (elim (last_cases (rows_of s db.compactions)) [
      | inl e ↦ rw e (unfold sort_by in refl)
      | inr (p, e) ↦ head-sort_by 0 none (rows_of s db.compactions) chain e ∙ sym e
    ])

last-active :
    (n : ℕ) (previous : Option String) (l : List HistoryCompaction) {p : HistoryCompaction}
    → IsChain n previous l
    → last? l ≡ some p
    → (p.status == "active") ≡ true
last-active n pv [] h e = cc
last-active n pv (c ∷ []) h e = ground arith
last-active n pv (c ∷ d ∷ l) h e = last-active (suc n) (some c.id) (d ∷ l) h.3 e

rows_of-own :
    (s : String) (a : HistoryCompaction) → (a.session_id == s) ≡ true → rows_of s (a ∷ []) ≡ a ∷ []
rows_of-own s a e = ground (arith, e)

rows_of-foreign :
    (s : String) (a : HistoryCompaction) → (a.session_id == s) ≡ false → rows_of s (a ∷ []) ≡ []
rows_of-foreign s a e = ground (arith, e)

ids-append :
    (l : List HistoryCompaction) (a : HistoryCompaction) → ids (l ++ a ∷ []) ≡ ids l ++ a.id ∷ []
ids-append l a = map-append (λ c. c.id) l (a ∷ [])

distinct-snoc :
    (l : List String) (i : String)
    → distinct l ≡ true
    → contains l i ≡ false
    → distinct (l ++ i ∷ []) ≡ true
distinct-snoc [] i d h = refl
distinct-snoc (j ∷ l) i d h =
    ground (arith, distinct-snoc l i, contains-append l (i ∷ []) j, eq_iff i j, eq_iff j i)

module _ (rows : List HistoryCompaction) (linked : IsLinked rows) (a : HistoryCompaction) where
  abbrev mine : List HistoryCompaction
  mine = rows_of a.session_id rows

  -- The rows after the step, where the session had a last artifact `p`.
  module _ (p : HistoryCompaction) (now : ℕ) (at_end : last? mine ≡ some p) where
    abbrev next : List HistoryCompaction
    next = map (retire p now) rows ++ a ∷ []

    own-IsChain :
        a.generation ≡ suc p.generation
        → a.previous_compaction_id ≡ some p.id
        → (a.status == "active") ≡ true
        → IsChain 0 none (map (retire p now) mine ++ a ∷ [])
    own-IsChain g q t =
        IsChain-prolong 0 none mine p a now (linked.chains a.session_id) at_end
          (distinct-rows_of a.session_id rows linked.unique) g q t

    other_rows :
        (s : String)
        → (a.session_id == s) ≡ false
        → map (retire p now) (rows_of s rows) ≡ rows_of s rows
    other_rows s ne =
        map-retire_absent p now (rows_of s rows)
          (apart s a.session_id p.id rows ne linked.unique (contains-last mine at_end))

    next_rows :
        (s : String) → rows_of s next ≡ map (retire p now) (rows_of s rows) ++ rows_of s (a ∷ [])
    next_rows s =
        rows_of-append s (map (retire p now) rows) (a ∷ [])
        ∙ ap (λ l. l ++ rows_of s (a ∷ [])) (rows_of-retire p now s rows)

    next-IsChain :
        (s : String)
        → a.generation ≡ suc p.generation
        → a.previous_compaction_id ≡ some p.id
        → (a.status == "active") ≡ true
        → IsChain 0 none (rows_of s next)
    next-IsChain s g q t = elim (Bool-cases (a.session_id == s)) [
      | inl same ↦ subst (IsChain 0 none) (sym (next_rows s)) (
          rw (rows_of-own s a same) (
            subst (λ r. IsChain 0 none (map (retire p now) (rows_of r rows) ++ a ∷ []))
              ((eq_iff a.session_id s).0 same) (own-IsChain g q t)))
      | inr differ ↦
          subst (IsChain 0 none) (sym (next_rows s))
            (rw (other_rows s differ, rows_of-foreign s a differ, append-nil) (linked.chains s))
    ]

  -- The rows after the step, where the session had none.
  first-IsChain :
      (s : String)
      → mine ≡ []
      → a.generation ≡ 1
      → a.previous_compaction_id ≡ none
      → (a.status == "active") ≡ true
      → IsChain 0 none (rows_of s (rows ++ a ∷ []))
  first-IsChain s empty g q t = elim (Bool-cases (a.session_id == s)) [
    | inl same ↦
        subst (IsChain 0 none)
          (sym
            (rows_of-append s rows (a ∷ []) ∙ ap (λ l. rows_of s rows ++ l) (rows_of-own s a same)))
          (subst (λ l. IsChain 0 none (l ++ a ∷ []))
            (sym (subst (λ r. rows_of r rows ≡ []) ((eq_iff a.session_id s).0 same) empty))
            (g, q, t))
    | inr differ ↦
        subst (IsChain 0 none)
          (sym (
            rows_of-append s rows (a ∷ [])
            ∙ ap (λ l. rows_of s rows ++ l) (rows_of-foreign s a differ)
            ∙ append-nil (rows_of s rows)))
          (linked.chains s)
  ]

supersede_active :
    (p : HistoryCompaction) (now : ℕ) (rows : List HistoryCompaction)
    → (p.status == "active") ≡ true
    → supersede (some p) now rows ≡ map (retire p now) rows
unfolding supersede
supersede_active p now rows e = rw e

module _ (db : Database) (new_id : String) (created now : ℕ) (x : CompactionInput)
    (linked : IsLinked db.compactions) (fresh : contains (ids db.compactions) new_id ≡ false) where
  created_rows : List HistoryCompaction
  created_rows = (create_history_compaction db new_id created now x).compactions

  abbrev latest : Option HistoryCompaction
  latest = get_latest_history_compaction db x.session_id none

  step_none :
      rows_of x.session_id db.compactions ≡ []
      → IsLinked (supersede none now db.compactions ++ new_artifact x new_id created now none ∷ [])
  unfolding supersede new_artifact
  step_none empty = record {
    unique =
        subst (λ l. distinct l ≡ true) (sym (ids-append db.compactions _))
          (distinct-snoc (ids db.compactions) new_id linked.unique fresh);
    chains = λ s. first-IsChain db.compactions linked _ s empty refl refl refl;
  }

  step_some :
      (p : HistoryCompaction)
      → last? (rows_of x.session_id db.compactions) ≡ some p
      → IsLinked
          (supersede (some p) now db.compactions ++ new_artifact x new_id created now (some p) ∷ [])
  step_some p at_end =
      rw
        (supersede_active p now db.compactions (
          last-active 0 none (rows_of x.session_id db.compactions) (linked.chains x.session_id)
            at_end))
        (unfold new_artifact in
          record {
            unique =
                subst (λ l. distinct l ≡ true)
                  (sym (
                    ids-append (map (retire p now) db.compactions) _
                    ∙ ap (λ l. l ++ new_id ∷ []) (ids-retire p now db.compactions)))
                  (distinct-snoc (ids db.compactions) new_id linked.unique fresh);
            chains =
                λ s. next-IsChain db.compactions linked _ p now at_end s (omega arith) refl refl;
          })

  -- If ids are unique and the artifacts of every session form a chain, then they do so after an
  -- artifact is created under a fresh id. In a chain the generations count up from 1, each artifact
  -- names its predecessor, and only the newest one is active.
  pub create-IsLinked : IsLinked (create_history_compaction db new_id created now x).compactions
  unfolding create_history_compaction
  create-IsLinked = elim (last_cases (rows_of x.session_id db.compactions)) [
    | inl empty ↦
        rw (latest-eq-last db x.session_id (linked.chains x.session_id), empty) (step_none empty)
    | inr (p, at_end) ↦
        rw (latest-eq-last db x.session_id (linked.chains x.session_id), at_end)
          (step_some p at_end)
  ]
