-- ===== src/Storage/Focus.antt =====
-- The focus records of backend/app/storage/repository/organs.py.
use Prim.Native.Nat.{Ordering, compare as compare_nat}
use Prim.Native.String.{compare as compare_text}
use llm_api_mind.Base.{
  ℕ, String, Option, none, some, List, [], ◌∷◌, ◌++◌, map, Bool, ◌==◌, ◌&&◌, ◌||◌, find, filter,
  take, drop, head?, matches, contains, true, if◌then◌else◌, ◌>>=◌,
}
use llm_api_mind.Base.Json.{Fields, updated}
use llm_api_mind.Base.Sorting.{sort_by, then_by}
use llm_api_mind.Storage.OrganRows.{FocusRecord, FocusTransition}
use llm_api_mind.Storage.Models.{Database, is_text}
use llm_api_mind.Storage.Shared.{
  TextSearch, has_option, needle_of, sought, touch_source, assigned, assigned_option,
}

abbrev pub active_focus_statuses : List String
active_focus_statuses = "active" ∷ "held" ∷ []

unfoldable pub get_focus_record : Database → String → Option FocusRecord
get_focus_record db focus_id = find (λ f. f.id == focus_id) db.focuses

-- the active rows of a profile
unfoldable pub is_active_of : String → FocusRecord → Bool
is_active_of owner f = f.owner_profile_id == owner && contains active_focus_statuses f.status

abbrev pub newest_focus : FocusRecord → FocusRecord → Ordering
newest_focus f g =
    then_by (compare_nat g.updated_at f.updated_at) (compare_nat g.created_at f.created_at)

unfoldable pub list_active_focus_records : Database → (owner : String) → List FocusRecord
unfolding is_active_of
list_active_focus_records db owner = sort_by newest_focus (filter (is_active_of owner) db.focuses)

unfoldable pub get_active_focus : Database → (owner : String) → Option FocusRecord
unfolding list_active_focus_records
get_active_focus db owner = head? (list_active_focus_records db owner)

unfoldable pub has_focus_text : TextSearch → FocusRecord → String → Bool
has_focus_text t f needle =
    t.has f.focus_object needle
    || t.has f.focus_type needle
    || t.has f.reason needle
    || has_option t f.resolution needle
    || has_option t f.impossible_reason needle

unfoldable pub list_focus_records :
    TextSearch
    → Database
    → (owner : String) → (status query : Option String) → (limit offset : ℕ) → List FocusRecord
unfolding has_focus_text
list_focus_records t db owner status query limit offset = take limit (
    drop offset (
      sort_by newest_focus (
        filter
          (λ f.
            f.owner_profile_id == owner
            && matches status f.status
            && sought (needle_of t query) (has_focus_text t f))
          db.focuses)))

-- what a call of `create_focus_record` carries
pub record FocusInput : Type 0 where
  pub owner_profile_id : String
  pub focus_object : String
  pub focus_type : String
  pub reason : String
  pub intensity : String
  pub duration_policy : Option String
  pub created_by : String
  pub source_session_id : Option String
  pub source_turn_id : Option String
  pub source_message_id : Option String
  pub metadata : Fields

unfoldable pub new_focus : (id : String) (now : ℕ) → FocusInput → FocusRecord
new_focus id now x = record {
  id = id;
  owner_profile_id = x.owner_profile_id;
  status = "active";
  focus_object = x.focus_object;
  focus_type = x.focus_type;
  intensity = x.intensity;
  duration_policy = x.duration_policy;
  reason = x.reason;
  resolution = none;
  impossible_reason = none;
  created_by = x.created_by;
  source_session_id = x.source_session_id;
  source_turn_id = x.source_turn_id;
  source_message_id = x.source_message_id;
  created_at = now;
  updated_at = now;
  closed_at = none;
  metadata_json = x.metadata;
}

unfoldable pub create_focus_record :
    Database → (id : String) (now : ℕ) → FocusInput → Database × FocusRecord
unfolding new_focus
create_focus_record db id now x = (
  touch_source x.source_session_id now
      (record db { focuses = db.focuses ++ new_focus id now x ∷ [] }),
  new_focus id now x,
)

-- the row of this primary key is rewritten
abbrev pub write_focus : String → (FocusRecord → FocusRecord) → Database → Database
write_focus id f db = record db { focuses = map (λ x. if x.id == id then f x else x) db.focuses }

-- the fields that a call of `update_focus_record` may give
pub record FocusUpdate : Type 0 where
  pub focus_object : Option String
  pub focus_type : Option String
  pub reason : Option String
  pub intensity : Option String
  pub duration_policy : Option String
  pub status : Option String
  pub metadata : Fields

unfoldable pub updated_focus : FocusUpdate → (now : ℕ) → FocusRecord → FocusRecord
updated_focus x now f = record f {
  focus_object = assigned x.focus_object f.focus_object;
  focus_type = assigned x.focus_type f.focus_type;
  reason = assigned x.reason f.reason;
  intensity = assigned x.intensity f.intensity;
  duration_policy = assigned_option x.duration_policy f.duration_policy;
  status = assigned x.status f.status;
  metadata_json = updated f.metadata_json x.metadata;
  updated_at = now;
}

-- The database after the call and the row; `none` is the `None` of a missing row.
unfoldable pub update_focus_record :
    Database → (focus_id : String) (now : ℕ) → FocusUpdate → Option (Database × FocusRecord)
unfolding get_focus_record updated_focus
update_focus_record db focus_id now x = do
  focus ← get_focus_record db focus_id
  some (
    touch_source focus.source_session_id now (write_focus focus_id (updated_focus x now) db),
    updated_focus x now focus,
  )

pub record FocusClosing : Type 0 where
  pub status : String
  pub resolution : Option String
  pub impossible_reason : Option String
  pub metadata : Fields

unfoldable pub closed_focus : FocusClosing → (now : ℕ) → FocusRecord → FocusRecord
closed_focus x now f = record f {
  status = x.status;
  resolution = x.resolution;
  impossible_reason = x.impossible_reason;
  closed_at = some now;
  updated_at = now;
  metadata_json = updated f.metadata_json x.metadata;
}

unfoldable pub close_focus_record :
    Database → (focus_id : String) (now : ℕ) → FocusClosing → Option (Database × FocusRecord)
unfolding get_focus_record closed_focus
close_focus_record db focus_id now x = do
  focus ← get_focus_record db focus_id
  some (
    touch_source focus.source_session_id now (write_focus focus_id (closed_focus x now) db),
    closed_focus x now focus,
  )

-- The row is the transition that the call builds; `now` is the clock of the touch.
unfoldable pub add_focus_transition : Database → FocusTransition → (now : ℕ) → Database
add_focus_transition db transition now =
    touch_source transition.source_session_id now
      (record db { focus_transitions = db.focus_transitions ++ transition ∷ [] })

unfoldable pub joins : Option String → FocusTransition → Bool
joins none e = true
joins (some id) e = is_text e.from_focus_id id || is_text e.to_focus_id id

unfoldable pub list_focus_transitions :
    Database
    → (owner : String) → (focus_id : Option String) → (limit offset : ℕ) → List FocusTransition
unfolding joins
list_focus_transitions db owner focus_id limit offset = take limit (
    drop offset (
      sort_by (λ d e. then_by (compare_nat e.created_at d.created_at) (compare_text d.id e.id))
        (filter (λ e. e.owner_profile_id == owner && joins focus_id e) db.focus_transitions)))
