-- ===== src/Mind/Focus/Active.antt =====
-- A set or shift of the focus leaves the profile with one active focus, the new one.
use llm_api_mind.Base.{
  ℕ, suc, String, Option, none, some, List, [], ◌∷◌, ◌++◌, map, Bool, true, ◌≡◌, refl, sym, ap,
  subst, ◌∙◌, inl, inr, arith, ◌==◌, ◌||◌, eq_iff, eq_refl, contains, find, find-hit, find-miss,
  filter, filter-append, filter-keep, filter-reject, filter-All, All, All-map, map-All, and-true,
  Bool-cases, Option-cases, head?, if◌then◌else◌,
}
use llm_api_mind.Base.Json.{Fields, end, field, str}
use llm_api_mind.Base.Sorting.{
  sort_by, insert_by, sort_by-All, insert_by_first, insert_by_later, before,
}
use llm_api_mind.Storage.OrganRows.{FocusRecord, FocusTransition}
use llm_api_mind.Storage.Models.{Database}
use llm_api_mind.Storage.Sessions.{touch_session, add_trace}
use llm_api_mind.Storage.Events.{add_event}
use llm_api_mind.Storage.Shared.{Stamp, touch_source}
use llm_api_mind.Storage.Focus.{
  active_focus_statuses, get_focus_record, get_active_focus, list_active_focus_records,
  is_active_of, newest_focus, create_focus_record, new_focus, close_focus_record, closed_focus,
  FocusClosing, write_focus, add_focus_transition,
}
use llm_api_mind.Mind.Contracts.{MemoryOperationResult, text_or}
use llm_api_mind.Mind.Focus.{
  FocusBody, Source, record_focus_event, trace_focus_operation, success, refusal,
}
use llm_api_mind.Mind.Focus.Write.{
  Draws, close_previous, focus_input, set_focus, set_object, set_or_shift_focus, written_through,
  supersedes,
}

abbrev pub ids : List FocusRecord → List String
ids l = map (λ f. f.id) l

-- the writes around a row leave the table of the focuses alone
touch-focuses :
    (o : Option String) (at : ℕ) (db : Database) → (touch_source o at db).focuses ≡ db.focuses
unfolding touch_session
touch-focuses none at db = refl
touch-focuses (some s) at db = refl

event-focuses :
    (iso : ℕ → String) (db : Database) (stamp : Stamp) (type : String) (f : FocusRecord)
    → (source : Source) (payload : Fields)
    → (record_focus_event iso db stamp type f source payload).focuses ≡ db.focuses
unfolding record_focus_event add_event
event-focuses iso db stamp type f source payload = elim (Option-cases source.session_id) [
  | inl e ↦ rw e refl
  | inr (s, e) ↦ rw e refl
]

trace-focuses :
    (db : Database) (stamp : Stamp) (touched : ℕ) (source : Source) (operation : String)
    → (payload : Fields)
    → (trace_focus_operation db stamp touched source operation payload).focuses ≡ db.focuses
unfolding trace_focus_operation add_trace touch_session
trace-focuses db stamp touched source operation payload = elim (Option-cases source.session_id) [
  | inl e ↦ rw e refl
  | inr (s, e) ↦ rw e refl
]

-- no row of a table is active for the profile, save those with these ids
abbrev pub Covered : String → List String → List FocusRecord → Type 0
Covered owner rest = All (λ f. is_active_of owner f ≡ true → contains rest f.id ≡ true)

-- the rows of this key are closed as superseded
abbrev pub closed_rows : FocusClosing → ℕ → String → List FocusRecord → List FocusRecord
closed_rows x now id = map (λ f. if f.id == id then closed_focus x now f else f)

closed-ids :
    (x : FocusClosing) (now : ℕ) (id : String) (l : List FocusRecord)
    → ids (closed_rows x now id l) ≡ ids l
unfolding closed_focus
closed-ids x now id [] = refl
closed-ids x now id (f ∷ l) = ground (arith, closed-ids x now id l)

closed-Covered :
    (owner : String) (x : FocusClosing) (now : ℕ) (id : String) (rest : List String)
    → (l : List FocusRecord) → x.status ≡ "superseded"
    → Covered owner (id ∷ rest) l
    → Covered owner rest (closed_rows x now id l)
unfolding closed_focus is_active_of
closed-Covered owner x now id rest l e c =
    map-All (λ f. is_active_of owner f ≡ true → contains rest f.id ≡ true) _ l (All-map _ _ row l c)
  where
    row :
        (f : FocusRecord)
        → (is_active_of owner f ≡ true → contains (id ∷ rest) f.id ≡ true)
        → let g = if f.id == id then closed_focus x now f else f in
          is_active_of owner g ≡ true → contains rest g.id ≡ true
    row f h = elim (Bool-cases (f.id == id)) [
      | inl here ↦ rw here (λ active. cc (
          subst (λ s. contains active_focus_statuses s ≡ true) e
            (and-true (f.owner_profile_id == owner) (contains active_focus_statuses x.status)
              active).1))
      | inr other ↦ rw other (λ active.
          (let here : contains (id ∷ rest) f.id ≡ true = h active in ground (arith, here, other)))
    ]

none_active :
    (owner : String) (l : List FocusRecord)
    → Covered owner [] l
    → filter (is_active_of owner) l ≡ []
none_active owner [] c = refl
none_active owner (f ∷ l) c = elim (Bool-cases (is_active_of owner f)) [
  | inl e ↦ cc (c.0 e)
  | inr e ↦ filter-reject (is_active_of owner) f l e ∙ none_active owner l c.1
]

pub find_id :
    (l : List FocusRecord) (id : String)
    → contains (ids l) id ≡ true
    → (f : FocusRecord) × (find (λ f. f.id == id) l ≡ some f)
find_id [] id h = cc
find_id (f ∷ l) id h = elim (Bool-cases (f.id == id)) [
  | inl e ↦ (f, find-hit (λ f. f.id == id) f l e)
  | inr e ↦
      let (g, there) = find_id l id (ground (arith, h, e, eq_iff f.id id, eq_iff id f.id)) in
      (g, find-miss (λ f. f.id == id) f l e ∙ there)
]

or_right : (a b : Bool) → b ≡ true → (a || b) ≡ true
or_right a b h = ground arith

insert-ids :
    (f : FocusRecord) (l : List FocusRecord) (a : String)
    → contains (ids (insert_by newest_focus f l)) a ≡ contains (ids (f ∷ l)) a
unfolding insert_by
insert-ids f [] a = refl
insert-ids f (g ∷ l) a = elim (Bool-cases (before (newest_focus f g))) [
  | inl e ↦ ap (λ k. contains (ids k) a) (insert_by_first newest_focus f g l e)
  | inr e ↦
      ap (λ k. contains (ids k) a) (insert_by_later newest_focus f g l e)
      ∙ ground (arith, insert-ids f l a)
]

sort-ids :
    (l : List FocusRecord) (a : String)
    → contains (ids (sort_by newest_focus l)) a ≡ contains (ids l) a
unfolding sort_by
sort-ids [] a = refl
sort-ids (f ∷ l) a = insert-ids f (sort_by newest_focus l) a ∙ ground (arith, sort-ids l a)

filter-Covered :
    (owner : String) (l : List FocusRecord) → Covered owner (ids (filter (is_active_of owner) l)) l
filter-Covered owner [] = tt
filter-Covered owner (f ∷ l) = elim (Bool-cases (is_active_of owner f)) [
  | inl e ↦
      subst (λ k. Covered owner (ids k) (f ∷ l)) (sym (filter-keep (is_active_of owner) f l e))
        (
          (λ active. ground (arith, eq_refl f.id)),
          All-map _ _ (λ g h active. or_right (g.id == f.id) _ (h active)) l
              (filter-Covered owner l),
        )
  | inr e ↦
      subst (λ k. Covered owner (ids k) (f ∷ l)) (sym (filter-reject (is_active_of owner) f l e))
        ((λ active. cc (sym e ∙ active)), filter-Covered owner l)
]

-- every row's id is among the ids
own-ids : (l : List FocusRecord) → All (λ f. contains (ids l) f.id ≡ true) l
own-ids [] = tt
own-ids (f ∷ l) = (
  ground (arith, eq_refl f.id),
  All-map _ _ (λ g h. or_right (g.id == f.id) (contains (ids l) g.id) h) l (own-ids l),
)

active-Covered :
    (db : Database) (owner : String)
    → Covered owner (ids (list_active_focus_records db owner)) db.focuses
unfolding list_active_focus_records
active-Covered db owner =
    All-map _ _ (λ f h active. sort-ids (filter (is_active_of owner) db.focuses) f.id ∙ h active)
      db.focuses (filter-Covered owner db.focuses)

pub active-ids :
    (db : Database) (owner : String)
    → All (λ f. contains (ids db.focuses) f.id ≡ true) (list_active_focus_records db owner)
unfolding list_active_focus_records
active-ids db owner = sort_by-All newest_focus _ _ (filter-All _ _ db.focuses (own-ids db.focuses))

-- the call on a row that is there
close_found :
    (db : Database) (id : String) (now : ℕ) (x : FocusClosing) (f : FocusRecord)
    → get_focus_record db id ≡ some f
    → close_focus_record db id now x
      ≡ some (
        touch_source f.source_session_id now (write_focus id (closed_focus x now) db),
        closed_focus x now f,
      )
unfolding close_focus_record
close_found db id now x f e = rw (close_focus_record, e) refl

module _ (iso : ℕ → String) (d : Draws) (request : FocusBody) (owner : String) (source : Source)
    (intent reason : String) where
  -- what the loop passes to the storage
  abbrev retirement : FocusClosing
  retirement = record {
    status = "superseded";
    resolution = some (supersedes iso d request owner source intent);
    impossible_reason = none;
    metadata = end;
  }

  -- the database behind one round
  abbrev round : Database → ℕ → FocusRecord → FocusRecord → Database
  round db n p f =
      record_focus_event iso
        (touch_source f.source_session_id (d.closed_at n)
          (write_focus p.id (closed_focus retirement (d.closed_at n)) db))
        (d.closed_event n) "organ.focus.closed" (closed_focus retirement (d.closed_at n) f) source
        (field "closed_as" (str "superseded") (field "reason" (str reason) end))

  round-focuses :
      (db : Database) (n : ℕ) (p f : FocusRecord)
      → (round db n p f).focuses ≡ closed_rows retirement (d.closed_at n) p.id db.focuses
  round-focuses db n p f =
      event-focuses iso _ (d.closed_event n) _ _ source _
      ∙ touch-focuses f.source_session_id (d.closed_at n) _

  -- The loop closes every row that it is given: it raises nothing, and leaves no row active where
  -- the active ones are all given.
  close_previous_clears :
      (rest : List FocusRecord) (db : Database) (n : ℕ)
      → Covered owner (ids rest) db.focuses
      → All (λ p. contains (ids db.focuses) p.id ≡ true) rest
      → (db' : Database) × (closed : List FocusRecord) × (close_previous iso d request owner source
            intent reason db n rest
          ≡ some (db', closed))
        × (filter (is_active_of owner) db'.focuses ≡ [])
  unfolding close_previous
  close_previous_clears [] db n c there = (db, [], refl, none_active owner db.focuses c)
  close_previous_clears (p ∷ rest) db n c (here, there) =
      let (f, e) = find_id db.focuses p.id here in
      let db1 : Database = round db n p f in
      let same = round-focuses db n p f in
      let (db', closed, ran, clear) =
        close_previous_clears rest db1 (suc n)
          (subst (Covered owner (ids rest)) (sym same)
            (closed-Covered owner retirement (d.closed_at n) p.id (ids rest) db.focuses refl c))
          (subst (λ l. All (λ q. contains (ids l) q.id ≡ true) rest) (sym same)
            (subst (λ l. All (λ q. contains l q.id ≡ true) rest)
              (sym (closed-ids retirement (d.closed_at n) p.id db.focuses)) there)) in
      (
        db',
        closed_focus retirement (d.closed_at n) f ∷ closed,
        rw (close_found db p.id (d.closed_at n) retirement f (unfold get_focus_record in e))
            (rw ran refl),
        clear,
      )

  written-focuses :
      (db : Database) (t : FocusTransition) (type : String) (f : FocusRecord) (a b : Fields)
      → (written_through iso d request owner source intent db t type f a b).focuses ≡ db.focuses
  unfolding written_through add_focus_transition
  written-focuses db t type f a b =
      trace-focuses _ d.trace d.trace_touch source _ b
      ∙ event-focuses iso _ d.event type f source a
      ∙ touch-focuses t.source_session_id d.transition_touch _

  -- the row that a set or shift creates
  abbrev pub created : String → FocusRecord
  created object =
      new_focus d.focus.id d.focus.at (focus_input iso d request owner source intent object reason)

  set-focuses :
      (object : String) (previous : Option FocusRecord) (db : Database)
      → (set_focus iso d request owner source intent object reason previous db).0.focuses
        ≡ db.focuses ++ created object ∷ []
  unfolding set_focus create_focus_record
  set-focuses object previous db = written-focuses _ _ _ _ _ _ ∙ touch-focuses _ d.focus.at _

  only_created :
      (object : String) (previous : Option FocusRecord) (db : Database)
      → filter (is_active_of owner) db.focuses ≡ []
      → list_active_focus_records
          (set_focus iso d request owner source intent object reason previous db).0
          owner
        ≡ created object ∷ []
  unfolding list_active_focus_records sort_by insert_by
  only_created object previous db clear = ap (sort_by newest_focus) (
      ap (filter (is_active_of owner)) (set-focuses object previous db)
      ∙ filter-append (is_active_of owner) db.focuses (created object ∷ [])
      ∙ ap (λ l. l ++ filter (is_active_of owner) (created object ∷ [])) clear
      ∙ filter-keep (is_active_of owner) (created object) [] is_active)
    where
      is_active : is_active_of owner (created object) ≡ true
      is_active =
          unfold is_active_of in
          unfold new_focus in unfold focus_input in ground (arith, eq_refl owner)

module _ (iso : ℕ → String) (d : Draws) (request : FocusBody) (owner : String) (source : Source)
    (intent : String) where
  set_named :
      (db : Database) (object : String)
      → request.object ≡ some object
      → set_or_shift_focus iso d request owner source intent db
        ≡ set_object iso d request owner source intent object db
  unfolding set_or_shift_focus
  set_named db object named =
      ap
        (λ o. elim o [
          | none ↦ some (db, refusal "focus.missing_object" "set and shift actions require object.")
          | some x ↦ set_object iso d request owner source intent x db
        ])
        named

  set_cleared :
      (db : Database) (object : String) {db1 : Database} {closed : List FocusRecord}
      → close_previous iso d request owner source intent
          (text_or request.reason intent)
          db
          0
          (list_active_focus_records db owner)
        ≡ some (db1, closed)
      → set_object iso d request owner source intent object db
        ≡ some (
            set_focus iso d request owner source intent object
              (text_or request.reason intent)
              (head? closed)
              db1)
  unfolding set_object
  set_cleared db object ran = rw (set_object, ran) refl

  -- A set or shift that names an object succeeds, with no assertion failing, however many focuses
  -- were active before: afterwards the new focus is the only active one of the profile, carries the
  -- object, and is what `get_active_focus` returns.
  pub set_leaves_one_active :
      (db : Database) (object : String)
      → request.object ≡ some object
      → (db' : Database) × (result : MemoryOperationResult) × (focus : FocusRecord)
        × (set_or_shift_focus iso d request owner source intent db ≡ some (db', result))
        × (result.ok ≡ true)
        × (focus.focus_object ≡ object)
        × (list_active_focus_records db' owner ≡ focus ∷ [])
        × (get_active_focus db' owner ≡ some focus)
  unfolding get_active_focus set_focus success
  set_leaves_one_active db object named =
      let reason : String = text_or request.reason intent in
      let (db1, closed, ran, clear) =
        close_previous_clears iso d request owner source intent reason
          (list_active_focus_records db owner) db 0 (active-Covered db owner)
          (active-ids db owner) in
      let only =
        only_created iso d request owner source intent reason object (head? closed) db1 clear in
      (
        (set_focus iso d request owner source intent object reason (head? closed) db1).0,
        (set_focus iso d request owner source intent object reason (head? closed) db1).1,
        created iso d request owner source intent reason object,
        set_named db object named ∙ set_cleared db object ran,
        refl,
        unfold new_focus in unfold focus_input in refl,
        only,
        ap head? only,
      )
