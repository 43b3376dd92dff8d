-- ===== src/Mind/Focus/Returns.antt =====
-- No request ends in an `AssertionError`.
use llm_api_mind.Base.{
  ℕ, String, Option, none, some, List, [], ◌∷◌, true, ◌≡◌, refl, sym, ap, ◌∙◌, subst, inl, inr,
  arith, Option-cases, Bool-cases, All, head?, contains, find, is_some, ◌==◌, eq_refl,
  if◌then◌else◌,
}
use llm_api_mind.Base.Json.{Fields}
use llm_api_mind.Storage.Models.{Database}
use llm_api_mind.Storage.OrganRows.{FocusRecord}
use llm_api_mind.Storage.Focus.{
  get_focus_record, get_active_focus, list_active_focus_records, update_focus_record,
  close_focus_record,
}
use llm_api_mind.Mind.Contracts.{MindApiContext, MemoryOperationResult}
use llm_api_mind.Mind.Focus.{
  FocusBody, Source, Action, set, update, hold, shift, defer, resolve, impossible, read, list,
  search, timeline, owner_profile_id, source_payload,
}
use llm_api_mind.Mind.Focus.Write.{
  Draws, set_or_shift_focus, update_or_hold_focus, close_focus, close_target, focus_at, owned,
  target_focus, closing_refusal,
}
use llm_api_mind.Mind.Focus.Read.{Host, by_action, invalid_body, dispatch, handle_focus}
use llm_api_mind.Mind.Focus.Active.{ids, active-ids, find_id, set_leaves_one_active}

head-All {ℓ} : {A : Type 0} (P : A → Type ℓ) (l : List A) (x : A) → All P l → head? l ≡ some x → P x
head-All P [] x a h = cc
head-All P (y ∷ l) x a h = subst P (cc h) a.0

-- the row of a key is among the ids
found-ids :
    (l : List FocusRecord) (id : String) (f : FocusRecord)
    → find (λ g. g.id == id) l ≡ some f
    → contains (ids l) f.id ≡ true
found-ids [] id f e = cc
found-ids (g ∷ l) id f e = ground (arith, e, found-ids l id f, eq_refl g.id)

-- the call ends with a result
abbrev Returns : Option (Database × MemoryOperationResult) → Type 0
Returns o = is_some o ≡ true

answered :
    (db : Database) (r : MemoryOperationResult)
    → let pair : Database × MemoryOperationResult = (db, r) in is_some (some pair) ≡ true
answered db r = refl

active_there :
    (db : Database) (owner : String) (f : FocusRecord)
    → get_active_focus db owner ≡ some f
    → contains (ids db.focuses) f.id ≡ true
unfolding get_active_focus
active_there db owner f e =
    head-All (λ g. contains (ids db.focuses) g.id ≡ true) (list_active_focus_records db owner) f
      (active-ids db owner) e

owned_there :
    (db : Database) (owner id : String) (f : FocusRecord)
    → owned owner (get_focus_record db id) ≡ some f
    → contains (ids db.focuses) f.id ≡ true
owned_there db owner id f e = elim (Option-cases (get_focus_record db id)) [
  | inl absent ↦ cc (sym (ap (owned owner) absent) ∙ e)
  | inr (g, there) ↦ elim (Bool-cases (g.owner_profile_id == owner)) [
    | inl own ↦
        let same : g ≡ f = ground (arith, sym (ap (owned owner) there) ∙ e, own) in
        subst (λ x. contains (ids db.focuses) x.id ≡ true) same
          (found-ids db.focuses id g (unfold get_focus_record in there))
    | inr foreign ↦ absurd (ground (arith, sym (ap (owned owner) there) ∙ e, foreign))
  ]
]

-- The target of a request is a row of the table.
target_there :
    (db : Database) (owner : String) (at : Option String) (f : FocusRecord)
    → focus_at db owner at ≡ some f
    → contains (ids db.focuses) f.id ≡ true
unfolding focus_at
target_there db owner none f e = active_there db owner f e
target_there db owner (some id) f e = elim (Bool-cases (id == "")) [
  | inl empty ↦ active_there db owner f (
      sym (
        ap (λ b. if b then get_active_focus db owner else owned owner (get_focus_record db id))
          empty)
      ∙ e)
  | inr given ↦ owned_there db owner id f (
      sym (
        ap (λ b. if b then get_active_focus db owner else owned owner (get_focus_record db id))
          given)
      ∙ e)
]

module _ (iso : ℕ → String) (d : Draws) (request : FocusBody) (owner : String) (source : Source)
    (intent : String) where
  set_returns :
      (db : Database) → is_some (set_or_shift_focus iso d request owner source intent db) ≡ true
  set_returns db = elim (Option-cases request.object) [
    | inl e ↦ unfold set_or_shift_focus in rw (set_or_shift_focus, e) refl
    | inr (object, e) ↦
        let (_, _, _, ran, _, _, _, _) =
          set_leaves_one_active iso d request owner source intent db object e in
        ap is_some ran
  ]

  row_there :
      (db : Database) (f : FocusRecord)
      → target_focus db request owner ≡ some f
      → (g : FocusRecord) × (get_focus_record db f.id ≡ some g)
  unfolding target_focus get_focus_record
  row_there db f e = find_id db.focuses f.id (target_there db owner request.focus_id f e)

  update_returns :
      (db : Database) → is_some (update_or_hold_focus iso d request owner source intent db) ≡ true
  unfolding update_or_hold_focus update_focus_record
  update_returns db = elim (Option-cases (target_focus db request owner)) [
    | inl e ↦ rw (update_or_hold_focus, e) refl
    | inr (f, e) ↦
        let (g, there) = row_there db f e in
        rw (update_or_hold_focus, e) (rw (update_focus_record, there) refl)
  ]

  close_returns :
      (db : Database) → is_some (close_focus iso d request owner source intent db) ≡ true
  unfolding close_focus close_target close_focus_record
  close_returns db = elim (Option-cases (target_focus db request owner)) [
    | inl e ↦ rw (close_focus, e) refl
    | inr (f, e) ↦
        let (g, there) = row_there db f e in
        elim (Option-cases (closing_refusal iso d request owner source intent request.action)) [
          | inl free ↦
              rw (close_focus, e) (rw free (rw (close_target, close_focus_record, there) refl))
          | inr (r, refused) ↦ rw (close_focus, e) (rw refused refl)
        ]
  ]

module _ (host : Host) (in_order : List String → List String) (d : Draws) where
  by_action_returns :
      (db : Database) (request : FocusBody) (owner : String) (source : Source) (intent : String)
      → (a : Action) → is_some (by_action host in_order d db request owner source intent a) ≡ true
  unfolding by_action
  by_action_returns db request owner source intent set =
      set_returns host.isoformat d request owner source intent db
  by_action_returns db request owner source intent shift =
      set_returns host.isoformat d request owner source intent db
  by_action_returns db request owner source intent update =
      update_returns host.isoformat d request owner source intent db
  by_action_returns db request owner source intent hold =
      update_returns host.isoformat d request owner source intent db
  by_action_returns db request owner source intent defer =
      close_returns host.isoformat d request owner source intent db
  by_action_returns db request owner source intent resolve =
      close_returns host.isoformat d request owner source intent db
  by_action_returns db request owner source intent impossible =
      close_returns host.isoformat d request owner source intent db
  by_action_returns db request owner source intent read = refl
  by_action_returns db request owner source intent timeline = refl
  by_action_returns db request owner source intent list = refl
  by_action_returns db request owner source intent search = refl

  -- Every request, of any body and with or without a context, returns: no assertion of the handlers
  -- fails, since each row that they write was read from the table before.
  pub handle_returns :
      (db : Database) (body : Fields) (context : Option MindApiContext) (intent : String)
      → is_some (handle_focus host in_order d db body context intent) ≡ true
  unfolding handle_focus dispatch
  handle_returns db body none intent = refl
  handle_returns db body (some context) intent =
      elim (host.validate body)
        as (λ v. Returns (elim v [
          | inl errors ↦ some (db, invalid_body host in_order d errors)
          | inr request ↦
              dispatch host in_order d db request (owner_profile_id context)
                (source_payload db context) intent
        ])) [
          | inl errors ↦ answered db (invalid_body host in_order d errors)
          | inr request ↦ by_action_returns db request _ _ intent request.action
        ]
