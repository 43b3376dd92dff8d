-- ===== src/Maintenance/Lifecycle.antt =====
-- The life of a maintenance job, as its column `status` tells it, and tables whose jobs follow it.
use llm_api_mind.Base.{
  String, Option, some, List, [], ◌∷◌, ◌++◌, map, true, false, ◌≡◌, refl, sym, subst, ◌∙◌, inl, inr,
  arith, ◌==◌, eq_iff, contains, distinct, find, Bool-cases, if◌then◌else◌,
}
use llm_api_mind.Storage.Models.{MaintenanceJob}

-- the statuses with which a run ends
abbrev pub final : List String
final = "completed" ∷ "failed" ∷ "skipped" ∷ []

-- The steps: a pending job is started or superseded, and a running job is finished.
pub data Step (s t : String) : Type 0 where
  start : s ≡ "pending" → t ≡ "running" → Step s t
  supersede : s ≡ "pending" → t ≡ "superseded" → Step s t
  finish : s ≡ "running" → contains final t ≡ true → Step s t

pub data Lifecycle (s : String) : String → Type 0 where
  stay : Lifecycle s s
  next : {t u : String} → Lifecycle s t → Step t u → Lifecycle s u

pub Lifecycle-trans : {s t u : String} → Lifecycle s t → Lifecycle t u → Lifecycle s u
Lifecycle-trans a stay = a
Lifecycle-trans a (next b st) = next (Lifecycle-trans a b) st

-- statuses that no step leaves
abbrev pub ended : List String
ended = "superseded" ∷ final

ended_stuck : {s t : String} → contains ended s ≡ true → ¬ Step s t
ended_stuck h (start e _) = cc (subst (λ x. contains ended x ≡ true) e h)
ended_stuck h (supersede e _) = cc (subst (λ x. contains ended x ≡ true) e h)
ended_stuck h (finish e _) = cc (subst (λ x. contains ended x ≡ true) e h)

pub ended_stays : {s t : String} → contains ended s ≡ true → Lifecycle s t → t ≡ s
ended_stays h stay = refl
ended_stays h (next l st) =
    absurd (ended_stuck (subst (λ x. contains ended x ≡ true) (sym (ended_stays h l)) h) st)

abbrev pub job_ids : List MaintenanceJob → List String
job_ids jobs = map (λ j. j.id) jobs

-- Every row of the first table stands in the second, in its place, with a status that its life
-- reaches; rows may follow.
abbrev pub Evolves : List MaintenanceJob → List MaintenanceJob → Type 0
Evolves [] k = Unit
Evolves (i ∷ l) [] = ⊥
Evolves (i ∷ l) (j ∷ k) = (j.id ≡ i.id) × Lifecycle i.status j.status × Evolves l k

pub Evolves-refl : (l : List MaintenanceJob) → Evolves l l
Evolves-refl [] = tt
Evolves-refl (j ∷ l) = (refl, stay, Evolves-refl l)

pub Evolves-trans : (l k m : List MaintenanceJob) → Evolves l k → Evolves k m → Evolves l m
Evolves-trans [] k m a b = tt
Evolves-trans (h ∷ l) [] m a b = elim a [ ]
Evolves-trans (h ∷ l) (i ∷ k) [] a b = elim b [ ]
Evolves-trans (h ∷ l) (i ∷ k) (j ∷ m) a b =
    (b.0 ∙ a.0, Lifecycle-trans a.1 b.1, Evolves-trans l k m a.2 b.2)

pub Evolves-append : (l k m : List MaintenanceJob) → Evolves l k → Evolves l (k ++ m)
Evolves-append [] k m a = tt
Evolves-append (i ∷ l) [] m a = elim a [ ]
Evolves-append (i ∷ l) (j ∷ k) m a = (a.0, a.1, Evolves-append l k m a.2)

pub Evolves-map :
    (f : MaintenanceJob → MaintenanceJob)
    → ((j : MaintenanceJob) → ((f j).id ≡ j.id) × Lifecycle j.status (f j).status)
    → (l : List MaintenanceJob) → Evolves l (map f l)
Evolves-map f h [] = tt
Evolves-map f h (j ∷ l) = ((h j).0, (h j).1, Evolves-map f h l)

-- the rows of this primary key are rewritten
abbrev pub rewritten :
    String → (MaintenanceJob → MaintenanceJob) → List MaintenanceJob → List MaintenanceJob
rewritten id f = map (λ j. if j.id == id then f j else j)

untouched :
    (id : String) (f : MaintenanceJob → MaintenanceJob) (l : List MaintenanceJob)
    → contains (job_ids l) id ≡ false
    → rewritten id f l ≡ l
untouched id f [] h = refl
untouched id f (j ∷ l) h = ground (arith, h, eq_iff j.id id, eq_iff id j.id, untouched id f l)

abbrev pub found : String → List MaintenanceJob → Option MaintenanceJob
found id = find (λ j. j.id == id)

abbrev pub KeepsId : (MaintenanceJob → MaintenanceJob) → Type 0
KeepsId f = (j : MaintenanceJob) → (f j).id ≡ j.id

module _ (id : String) (f : MaintenanceJob → MaintenanceJob) (same : KeepsId f) where
  pub ids-rewritten : (l : List MaintenanceJob) → job_ids (rewritten id f l) ≡ job_ids l
  ids-rewritten [] = refl
  ids-rewritten (j ∷ l) = ground (arith, ids-rewritten l, same j)

  pub found-rewritten :
      (l : List MaintenanceJob) (i : MaintenanceJob)
      → found id l ≡ some i
      → found id (rewritten id f l) ≡ some (f i)
  found-rewritten [] i e = cc
  found-rewritten (j ∷ l) i e = ground (arith, e, same j, found-rewritten l i)

  own_row :
      (j : MaintenanceJob)
      → Lifecycle j.status (f j).status
      → let r = if j.id == id then f j else j in (r.id ≡ j.id) × Lifecycle j.status r.status
  own_row j st = elim (Bool-cases (j.id == id)) [
    | inl here ↦ rw here (same j, st)
    | inr other ↦ rw other (refl, stay)
  ]

  other_row :
      (j : MaintenanceJob)
      → (j.id == id) ≡ false
      → let r = if j.id == id then f j else j in (r.id ≡ j.id) × Lifecycle j.status r.status
  other_row j other = rw other (refl, stay)

  pub rewritten-Evolves :
      (l : List MaintenanceJob) (i : MaintenanceJob)
      → found id l ≡ some i
      → distinct (job_ids l) ≡ true
      → Lifecycle i.status (f i).status
      → Evolves l (rewritten id f l)
  rewritten-Evolves [] i e d st = tt
  rewritten-Evolves (j ∷ l) i e d st = elim (Bool-cases (j.id == id)) [
    | inl here ↦
        let alone : contains (job_ids l) id ≡ false = ground (arith, d, here, eq_iff j.id id) in
        let at_head : j ≡ i = ground (arith, e, here) in
        let row = own_row j (subst (λ k. Lifecycle k.status (f k).status) (sym at_head) st) in
        (row.0, row.1, subst (Evolves l) (sym (untouched id f l alone)) (Evolves-refl l))
    | inr other ↦
        let row = other_row j other in
        (row.0, row.1, rewritten-Evolves l i (ground (arith, e, other)) (ground (arith, d)) st)
  ]
