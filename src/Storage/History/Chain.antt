-- ===== src/Storage/History/Chain.antt =====
-- The compaction artifacts of a session form a chain, and a new artifact prolongs it.
use llm_api_mind.Base.{
  ℕ, suc, ◌<◌, String, Option, some, List, [], ◌∷◌, ◌++◌, map, true, false, ◌≡◌, refl, sym, ap, ◌∙◌,
  subst, arith, filter, contains, distinct, head?, last?, ◌==◌, eq_iff, eq_refl, ◌&&◌, not,
  and-true,
}
use llm_api_mind.Base.Sorting.{sort_by, insert_by}
use llm_api_mind.Storage.Models.{HistoryCompaction}
use llm_api_mind.Storage.History.{newest_first, retire}

abbrev pub ids : List HistoryCompaction → List String
ids = map (λ c. c.id)

abbrev pub rows_of : String → List HistoryCompaction → List HistoryCompaction
rows_of s = filter (λ c. c.session_id == s)

-- Generations count up from `n + 1`, each artifact names its predecessor, and exactly the last one
-- is active.
abbrev pub IsChain : ℕ → Option String → List HistoryCompaction → Type 0
IsChain n previous [] = Unit
IsChain n previous (c ∷ []) =
    (c.generation ≡ suc n) × (c.previous_compaction_id ≡ previous) × ((c.status == "active") ≡ true)
IsChain n previous (c ∷ d ∷ rest) =
    (c.generation ≡ suc n)
    × (c.previous_compaction_id ≡ previous)
    × ((c.status == "active") ≡ false)
    × IsChain (suc n) (some c.id) (d ∷ rest)

-- the newest row stands first in the sorted rows of a chain
newest-insert :
    (c d : HistoryCompaction) (l : List HistoryCompaction)
    → head? l ≡ some d
    → c.generation < d.generation
    → head? (insert_by newest_first c l) ≡ some d
unfolding insert_by newest_first
newest-insert c d [] h lt = cc
newest-insert c d (e ∷ l) h lt = ground arith

last_above :
    (n : ℕ) (previous : Option String) (l : List HistoryCompaction) {d : HistoryCompaction}
    → IsChain n previous l
    → last? l ≡ some d
    → n < d.generation
last_above n pv [] h e = cc
last_above n pv (c ∷ []) h e = ground arith
last_above n pv (c ∷ c' ∷ l) h e = omega (arith, last_above (suc n) (some c.id) (c' ∷ l) h.3 e)

pub head-sort_by :
    (n : ℕ) (previous : Option String) (l : List HistoryCompaction) {d : HistoryCompaction}
    → IsChain n previous l
    → last? l ≡ some d
    → head? (sort_by newest_first l) ≡ some d
unfolding sort_by
head-sort_by n pv [] h e = cc
head-sort_by n pv (c ∷ []) h e = unfold insert_by in e
head-sort_by n pv (c ∷ c' ∷ l) {d} h e =
    newest-insert c d (sort_by newest_first (c' ∷ l))
      (head-sort_by (suc n) (some c.id) (c' ∷ l) h.3 e)
      (omega (arith, last_above (suc n) (some c.id) (c' ∷ l) h.3 e))

pub filter_active :
    (s : String) (l : List HistoryCompaction)
    → filter (λ c. c.session_id == s && true) l ≡ rows_of s l
filter_active s [] = refl
filter_active s (c ∷ l) = ground (arith, filter_active s l)

pub rows_of-append :
    (s : String) (l k : List HistoryCompaction) → rows_of s (l ++ k) ≡ rows_of s l ++ rows_of s k
rows_of-append s [] k = refl
rows_of-append s (c ∷ l) k = ground (arith, rows_of-append s l k)

module _ (p : HistoryCompaction) (now : ℕ) where
  pub rows_of-retire :
      (s : String) (l : List HistoryCompaction)
      → rows_of s (map (retire p now) l) ≡ map (retire p now) (rows_of s l)
  unfolding retire
  rows_of-retire s [] = refl
  rows_of-retire s (c ∷ l) = ground (arith, rows_of-retire s l)

  -- rows with other ids stay as they are
  pub map-retire_absent :
      (l : List HistoryCompaction) → contains (ids l) p.id ≡ false → map (retire p now) l ≡ l
  unfolding retire
  map-retire_absent [] h = refl
  map-retire_absent (c ∷ l) h =
      ground (arith, map-retire_absent l, eq_iff c.id p.id, eq_iff p.id c.id)

  pub ids-retire : (l : List HistoryCompaction) → ids (map (retire p now) l) ≡ ids l
  unfolding retire
  ids-retire [] = refl
  ids-retire (c ∷ l) = ground (arith, ids-retire l)

pub contains-last :
    (l : List HistoryCompaction) {p : HistoryCompaction}
    → last? l ≡ some p
    → contains (ids l) p.id ≡ true
contains-last [] e = cc
contains-last (c ∷ []) e = ground (arith, eq_refl c.id)
contains-last (c ∷ d ∷ l) {p} e = ground (arith, contains-last (d ∷ l) e)

retire_other : (p c : HistoryCompaction) (now : ℕ) → (c.id == p.id) ≡ false → retire p now c ≡ c
unfolding retire
retire_other p c now e = rw e

retire_self :
    (p : HistoryCompaction) (now : ℕ)
    → retire p now p ≡ record p { status = "superseded"; updated_at = now }
unfolding retire
retire_self p now = rw (eq_refl p.id)

some_inj : {c p : HistoryCompaction} → some c ≡ some p → c ≡ p
some_inj e = cc

-- one more row behind a chain whose last row is `p`
pub IsChain-prolong :
    (n : ℕ) (previous : Option String) (l : List HistoryCompaction) (p a : HistoryCompaction)
    (now : ℕ)
    → IsChain n previous l
    → last? l ≡ some p
    → distinct (ids l) ≡ true
    → a.generation ≡ suc p.generation
    → a.previous_compaction_id ≡ some p.id
    → (a.status == "active") ≡ true
    → IsChain n previous (map (retire p now) l ++ a ∷ [])
IsChain-prolong n pv [] p a now h e d g q t = cc
IsChain-prolong n pv (c ∷ []) p a now h e d g q t =
    let same : c ≡ p = some_inj e in
    subst (λ x. IsChain n pv (x ∷ a ∷ [])) (sym (ap (retire p now) same ∙ retire_self p now))
      (ground (arith, h, same))
IsChain-prolong n pv (c ∷ c' ∷ l) p a now h e d g q t =
    let (fresh, rest) = and-true (not (contains (ids (c' ∷ l)) c.id)) (distinct (ids (c' ∷ l))) d in
    let other : (c.id == p.id) ≡ false =
      ground (arith, contains-last (c' ∷ l) e, eq_iff c.id p.id) in
    let ih = IsChain-prolong (suc n) (some c.id) (c' ∷ l) p a now h.3 e rest g q t in
    subst (λ x. IsChain n pv (x ∷ map (retire p now) (c' ∷ l) ++ a ∷ []))
      (sym (retire_other p c now other)) (h.0, h.1, h.2, ih)

pub contains-rows_of :
    (s i : String) (l : List HistoryCompaction)
    → contains (ids (rows_of s l)) i ≡ true
    → contains (ids l) i ≡ true
contains-rows_of s i [] h = h
contains-rows_of s i (c ∷ l) h = ground (arith, contains-rows_of s i l)

-- an id that stands in one session's rows stands in no other's
pub apart :
    (s t i : String) (l : List HistoryCompaction)
    → (t == s) ≡ false
    → distinct (ids l) ≡ true
    → contains (ids (rows_of t l)) i ≡ true
    → contains (ids (rows_of s l)) i ≡ false
apart s t i [] ne d h = refl
apart s t i (c ∷ l) ne d h = ground (
  arith,
  apart s t i l,
  contains-rows_of s i l,
  contains-rows_of t i l,
  eq_iff c.session_id s,
  eq_iff c.session_id t,
  eq_iff t s,
  eq_iff i c.id,
)

pub distinct-rows_of :
    (s : String) (l : List HistoryCompaction)
    → distinct (ids l) ≡ true
    → distinct (ids (rows_of s l)) ≡ true
distinct-rows_of s [] d = refl
distinct-rows_of s (c ∷ l) d = ground (arith, distinct-rows_of s l, contains-rows_of s c.id l)
