-- ===== src/Mind/Focus/Refusals.antt =====
-- A request that is refused has written nothing.
use llm_api_mind.Base.{
  ℕ, String, Option, none, some, List, false, ◌≡◌, refl, subst, inl, inr, arith, Option-cases,
}
use llm_api_mind.Base.Json.{Fields}
use llm_api_mind.Storage.Models.{Database}
use llm_api_mind.Storage.OrganRows.{FocusRecord}
use llm_api_mind.Mind.Contracts.{MindApiContext, MemoryOperationResult}
use llm_api_mind.Mind.Focus.{
  FocusBody, Source, success, Action, set, update, hold, shift, defer, resolve, impossible, read,
  list, search, timeline, owner_profile_id, source_payload,
}
use llm_api_mind.Mind.Focus.Write.{
  Draws, set_or_shift_focus, set_object, set_focus, update_or_hold_focus, close_focus, close_target,
  target_focus, closing_refusal,
}
use llm_api_mind.Mind.Focus.Read.{Host, by_action, invalid_body, dispatch, handle_focus}

-- If the call returns a refusal, the database is as before.
Refuses : Database → Option (Database × MemoryOperationResult) → Type 0
Refuses db none = Unit
Refuses db (some (db', r)) = r.ok ≡ false → db' ≡ db

kept-Refuses : (db : Database) (r : MemoryOperationResult) → Refuses db (some (db, r))
unfolding Refuses
kept-Refuses db r h = refl

module _ (iso : ℕ → String) (d : Draws) (request : FocusBody) (owner : String) (source : Source)
    (intent : String) where
  set-Refuses :
      (db : Database) → Refuses db (set_or_shift_focus iso d request owner source intent db)
  unfolding set_or_shift_focus set_object set_focus success Refuses
  set-Refuses db = ground arith

  update-Refuses :
      (db : Database) → Refuses db (update_or_hold_focus iso d request owner source intent db)
  unfolding update_or_hold_focus success Refuses
  update-Refuses db = ground arith

  target-Refuses :
      (db : Database) (focus : FocusRecord)
      → Refuses db (close_target iso d request owner source intent db focus)
  unfolding close_target success Refuses
  target-Refuses db focus = ground arith

  close-Refuses : (db : Database) → Refuses db (close_focus iso d request owner source intent db)
  unfolding close_focus Refuses
  close-Refuses db = elim (Option-cases (target_focus db request owner)) [
    | inl e ↦ rw (close_focus, e) (λ h. refl)
    | inr (f, e) ↦ rw (close_focus, e) (guarded f)
  ]
    where
      guarded :
          (f : FocusRecord)
          → Refuses db (elim (closing_refusal iso d request owner source intent request.action) [
            | some refused ↦ some (db, refused)
            | none ↦ close_target iso d request owner source intent db f
          ])
      guarded f =
          elim (Option-cases (closing_refusal iso d request owner source intent request.action)) [
            | inl e ↦ rw e (target-Refuses db f)
            | inr (r, e) ↦ rw e (λ h. refl)
          ]

module _ (host : Host) (in_order : List String → List String) (d : Draws) where
  by_action-Refuses :
      (db : Database) (request : FocusBody) (owner : String) (source : Source) (intent : String)
      → (a : Action) → Refuses db (by_action host in_order d db request owner source intent a)
  unfolding by_action
  by_action-Refuses db request owner source intent set =
      set-Refuses host.isoformat d request owner source intent db
  by_action-Refuses db request owner source intent shift =
      set-Refuses host.isoformat d request owner source intent db
  by_action-Refuses db request owner source intent update =
      update-Refuses host.isoformat d request owner source intent db
  by_action-Refuses db request owner source intent hold =
      update-Refuses host.isoformat d request owner source intent db
  by_action-Refuses db request owner source intent defer =
      close-Refuses host.isoformat d request owner source intent db
  by_action-Refuses db request owner source intent resolve =
      close-Refuses host.isoformat d request owner source intent db
  by_action-Refuses db request owner source intent impossible =
      close-Refuses host.isoformat d request owner source intent db
  by_action-Refuses db request owner source intent read = kept-Refuses db _
  by_action-Refuses db request owner source intent timeline = kept-Refuses db _
  by_action-Refuses db request owner source intent list = kept-Refuses db _
  by_action-Refuses db request owner source intent search = kept-Refuses db _

  handle-Refuses :
      (db : Database) (body : Fields) (context : Option MindApiContext) (intent : String)
      → Refuses db (handle_focus host in_order d db body context intent)
  unfolding handle_focus dispatch
  handle-Refuses db body none intent = kept-Refuses db _
  handle-Refuses db body (some context) intent =
      elim (host.validate body)
        as (λ v. Refuses db (elim v [
          | inl errors ↦ some (db, invalid_body host in_order d errors)
          | inr request ↦
              dispatch host in_order d db request (owner_profile_id context)
                (source_payload db context) intent
        ])) [
          | inl errors ↦ kept-Refuses db _
          | inr request ↦ by_action-Refuses db request _ _ intent request.action
        ]

  -- The database before a request of any action, valid or not, with or without a context, is the
  -- database after it, if the result is a refusal.
  pub refused_unchanged :
      (db : Database) (body : Fields) (context : Option MindApiContext) (intent : String)
      → {db' : Database} {r : MemoryOperationResult}
      → handle_focus host in_order d db body context intent ≡ some (db', r)
      → r.ok ≡ false
      → db' ≡ db
  unfolding Refuses
  refused_unchanged db body context intent ran refused =
      subst (Refuses db) ran (handle-Refuses db body context intent) refused
