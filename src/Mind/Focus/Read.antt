-- ===== src/Mind/Focus/Read.antt =====
-- `_read_focus`, `_list_or_search_focus`, `_focus_timeline` and `handle_focus` of
-- backend/app/mind/focus.py.
use Prim.Native.String.{◌++◌ as ◌<>◌}
use llm_api_mind.Base.{
  ℕ, ◌+◌, String, Option, none, some, List, [], ◌∷◌, ◌++◌, map, false, ◌==◌, find, take, length,
  ltb, flat_map, contains, once, is_some, ◌⊎◌, inl, inr, if◌then◌else◌,
}
use llm_api_mind.Base.Json.{
  Json, null, bool, num, str, arr, of_list, Fields, end, field, text_or_null,
}
use llm_api_mind.Storage.OrganRows.{FocusRecord, FocusTransition}
use llm_api_mind.Storage.Models.{Database}
use llm_api_mind.Storage.Shared.{TextSearch}
use llm_api_mind.Storage.Focus.{
  active_focus_statuses, get_focus_record, list_focus_records, list_focus_transitions,
}
use llm_api_mind.Mind.Contracts.{MindApiContext, MemoryOperationResult}
use llm_api_mind.Mind.Focus.{
  Action, set, update, hold, shift, defer, resolve, impossible, read, list, search, timeline,
  action_text, FocusBody, Source, owner_profile_id, source_payload, focus_payload,
  transition_payload, focus_policy, refusal, success,
}
use llm_api_mind.Mind.Focus.Write.{
  Draws, target_focus, set_or_shift_focus, update_or_hold_focus, close_focus,
}

-- What the module takes from outside: `isoformat`, the decimal text of an integer, the search of
-- texts, and `FocusBody.model_validate`, which gives the body or the text of its errors.
pub record Host : Type 0 where
  pub isoformat : ℕ → String
  pub decimal : ℕ → String
  pub text : TextSearch
  pub validate : Fields → String ⊎ FocusBody

module _ (host : Host) (request : FocusBody) (owner : String) where
  open host use {isoformat, decimal, text}

  abbrev items_of : List FocusRecord → Json
  items_of l = arr (of_list (map (focus_payload isoformat) l))

  abbrev edges_of : List FocusTransition → Json
  edges_of l = arr (of_list (map (transition_payload isoformat) l))

  abbrev active_or_null : FocusRecord → Json
  active_or_null f =
      if contains active_focus_statuses f.status then focus_payload isoformat f else null

  unfoldable pub read_focus : Database → MemoryOperationResult
  read_focus db = elim (target_focus db request owner) [
    | none ↦ missing request.focus_id
    | some f ↦ success (
        field "operation" (str "focus.read") (
          field "active_focus" (active_or_null f) (
            field "focus" (focus_payload isoformat f) (
              field "transitions" (edges_of (list_focus_transitions db owner (some f.id) 10 0))
                (field "focus_policy" focus_policy end)))))
  ]
    where
      missing : Option String → MemoryOperationResult
      missing (some id) = refusal "focus.not_found" ("No focus matched id " <> id <> ".")
      missing none = success (
          field "operation" (str "focus.read") (
            field "active_focus" null (
              field "focus" null
                (field "transitions" (arr (of_list [])) (field "focus_policy" focus_policy end)))))

  abbrev searched : Action → Option String
  searched search = request.query
  searched _ = none

  -- a page of one row more than the limit tells whether there is more
  unfoldable pub list_or_search_focus : Database → MemoryOperationResult
  list_or_search_focus db =
      let page : List FocusRecord =
        list_focus_records text db owner request.status (searched request.action)
          (request.limit + 1) request.offset in
      let records : List FocusRecord = take request.limit page in
      success (
        field "operation" (str ("focus." <> action_text request.action)) (
          field "items" (items_of records) (
            field "count" (num (decimal (length records))) (
              field "has_more" (bool (ltb request.limit (length page))) (
                field "limit" (num (decimal request.limit)) (
                  field "offset" (num (decimal request.offset)) (
                    field "query" (text_or_null request.query) (
                      field "status" (text_or_null request.status)
                        (field "focus_policy" focus_policy end)))))))))

  abbrev listed : Option String → List String
  listed none = []
  listed (some t) = t ∷ []

  -- the ends of the transitions and the focus that is asked for, each once
  unfoldable pub node_ids : List FocusTransition → List String
  node_ids transitions = once [] (
      flat_map (λ t. listed t.from_focus_id ++ listed t.to_focus_id) transitions
      ++ listed request.focus_id)

  -- the loop that fetches the nodes that the records lack
  unfoldable pub add_nodes : Database → List FocusRecord → List String → List FocusRecord
  add_nodes db records [] = records
  add_nodes db records (id ∷ ids) =
      let with_row =
        λ (f : FocusRecord). if f.owner_profile_id == owner then records ++ f ∷ [] else records in
      let next : List FocusRecord =
        if is_some (find (λ f. f.id == id) records)
        then records
        else elim (get_focus_record db id) [ none ↦ records | some f ↦ with_row f ] in
      add_nodes db next ids

  -- The iteration order of the set of node ids is a parameter.
  unfoldable pub focus_timeline :
      (in_order : List String → List String) → Database → MemoryOperationResult
  unfolding node_ids add_nodes
  focus_timeline in_order db =
      let page : List FocusTransition =
        list_focus_transitions db owner request.focus_id (request.limit + 1) request.offset in
      let transitions : List FocusTransition = take request.limit page in
      let records : List FocusRecord =
        list_focus_records text db owner request.status request.query request.limit
          request.offset in
      success (
        field "operation" (str "focus.timeline") (
          field "nodes" (items_of (add_nodes db records (in_order (node_ids transitions)))) (
            field "edges" (edges_of transitions) (
              field "edge_count" (num (decimal (length transitions))) (
                field "has_more_edges" (bool (ltb request.limit (length page))) (
                  field "focus_id" (text_or_null request.focus_id) (
                    field "query" (text_or_null request.query) (
                      field "status" (text_or_null request.status) (
                        field "limit" (num (decimal request.limit)) (
                          field "offset" (num (decimal request.offset))
                            (field "focus_policy" focus_policy end)))))))))))

module _ (host : Host) (in_order : List String → List String) (d : Draws) where
  -- the operation of an action
  unfoldable pub by_action :
      Database
      → FocusBody
      → (owner : String) → Source
      → (intent : String) → Action
      → Option (Database × MemoryOperationResult)
  by_action db request owner source intent set =
      set_or_shift_focus host.isoformat d request owner source intent db
  by_action db request owner source intent shift =
      set_or_shift_focus host.isoformat d request owner source intent db
  by_action db request owner source intent update =
      update_or_hold_focus host.isoformat d request owner source intent db
  by_action db request owner source intent hold =
      update_or_hold_focus host.isoformat d request owner source intent db
  by_action db request owner source intent defer =
      close_focus host.isoformat d request owner source intent db
  by_action db request owner source intent resolve =
      close_focus host.isoformat d request owner source intent db
  by_action db request owner source intent impossible =
      close_focus host.isoformat d request owner source intent db
  by_action db request owner source intent read = some (db, read_focus host request owner db)
  by_action db request owner source intent timeline =
      some (db, focus_timeline host request owner in_order db)
  by_action db request owner source intent list =
      some (db, list_or_search_focus host request owner db)
  by_action db request owner source intent search =
      some (db, list_or_search_focus host request owner db)

  unfoldable pub dispatch :
      Database
      → FocusBody
      → (owner : String) → Source
      → (intent : String) → Option (Database × MemoryOperationResult)
  unfolding by_action
  dispatch db request owner source intent = by_action db request owner source intent request.action

  unfoldable pub invalid_body : (errors : String) → MemoryOperationResult
  invalid_body errors = record {
    ok = false;
    result = field "operation" (str "focus") end;
    error_code = some "focus.invalid_body";
    error_message = some errors;
  }

  -- `none` is an `AssertionError`. The list of validation errors in the refusal is left out.
  unfoldable pub handle_focus :
      Database
      → (body : Fields) → Option MindApiContext
      → (intent : String) → Option (Database × MemoryOperationResult)
  unfolding dispatch invalid_body
  handle_focus db body none intent = some (
    db,
    refusal "focus.context_missing"
        "/mind/focus needs an active Mind API context so the backend can attach profile and provenance.",
  )
  handle_focus db body (some context) intent = elim (host.validate body) [
    | inl errors ↦ some (db, invalid_body errors)
    | inr request ↦
        dispatch db request (owner_profile_id context) (source_payload db context) intent
  ]
