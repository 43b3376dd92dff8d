-- ===== src/Storage/Intentions.antt =====
-- The intention records of backend/app/storage/repository/organs.py.
use Prim.Native.Nat.{Ordering, compare as compare_nat}
use Prim.Native.String.{compare as compare_text}
use llm_api_mind.Base.{
  ℕ, ◌+◌, String, Option, none, some, List, [], ◌∷◌, ◌++◌, map, Bool, ◌==◌, ◌&&◌, ◌||◌, find,
  filter, take, drop, leb, matches, contains, if◌then◌else◌, ◌>>=◌,
}
use llm_api_mind.Base.Json.{Fields, updated}
use llm_api_mind.Base.Sorting.{sort_by, then_by}
use llm_api_mind.Storage.OrganRows.{IntentionRecord, IntentionLink}
use llm_api_mind.Storage.Models.{Database}
use llm_api_mind.Storage.Shared.{
  TextSearch, has_option, needle_of, sought, touch_source, assigned, assigned_option,
}

abbrev pub open_intention_statuses : List String
open_intention_statuses = "active" ∷ "deferred" ∷ "in_review" ∷ []

unfoldable pub get_intention_record : Database → String → Option IntentionRecord
get_intention_record db intention_id = find (λ i. i.id == intention_id) db.intentions

unfoldable pub is_open_of : String → IntentionRecord → Bool
is_open_of owner i = i.owner_profile_id == owner && contains open_intention_statuses i.status

abbrev pub newest_intention : IntentionRecord → IntentionRecord → Ordering
newest_intention i j =
    then_by (compare_nat j.updated_at i.updated_at) (compare_nat j.created_at i.created_at)

unfoldable pub list_open_intention_records :
    Database → (owner : String) → (limit offset : ℕ) → List IntentionRecord
unfolding is_open_of
list_open_intention_records db owner limit offset =
    take limit (drop offset (sort_by newest_intention (filter (is_open_of owner) db.intentions)))

-- `next_review_at <= due_at`, or NULL where unscheduled rows are asked for
unfoldable pub is_due : (now : ℕ) → (include_unscheduled : Bool) → Option ℕ → Bool
is_due now unscheduled none = unscheduled
is_due now unscheduled (some t) = leb t now

-- `ORDER BY next_review_at`, where SQLite puts NULL first
abbrev by_review : Option ℕ → Option ℕ → Ordering
by_review none none = Ordering.eq
by_review none (some u) = Ordering.lt
by_review (some t) none = Ordering.gt
by_review (some t) (some u) = compare_nat t u

unfoldable pub list_due_intention_records :
    Database
    → (owner : String) → (now : ℕ) → (include_unscheduled : Bool) → (limit offset : ℕ)
    → List IntentionRecord
unfolding is_open_of is_due
list_due_intention_records db owner now unscheduled limit offset = take limit (
    drop offset (
      sort_by (λ i j. then_by (by_review i.next_review_at j.next_review_at) (newest_intention i j))
        (filter (λ i. is_open_of owner i && is_due now unscheduled i.next_review_at)
          db.intentions)))

unfoldable pub has_intention_text : TextSearch → IntentionRecord → String → Bool
has_intention_text t i needle =
    t.has i.desire needle
    || t.has i.origin needle
    || has_option t i.horizon needle
    || t.has i.autonomy_level needle
    || t.has i.reason needle
    || has_option t i.next_possible_reflection needle
    || has_option t i.resolution needle
    || has_option t i.impossible_reason needle

unfoldable pub list_intention_records :
    TextSearch
    → Database
    → (owner : String) → (status query : Option String) → (limit offset : ℕ) → List IntentionRecord
unfolding has_intention_text
list_intention_records t db owner status query limit offset = take limit (
    drop offset (
      sort_by newest_intention (
        filter
          (λ i.
            i.owner_profile_id == owner
            && matches status i.status
            && sought (needle_of t query) (has_intention_text t i))
          db.intentions)))

-- what a call of `create_intention_record` carries
pub record IntentionInput : Type 0 where
  pub owner_profile_id : String
  pub desire : String
  pub reason : String
  pub origin : String
  pub horizon : Option String
  pub intensity : String
  pub autonomy_level : String
  pub next_possible_reflection : Option String
  pub next_review_at : Option ℕ
  pub review_interval_seconds : Option ℕ
  pub created_by : String
  pub source_session_id : Option String
  pub source_turn_id : Option String
  pub source_message_id : Option String
  pub source_focus_id : Option String
  pub metadata : Fields

unfoldable pub new_intention : (id : String) (now : ℕ) → IntentionInput → IntentionRecord
new_intention id now x = record {
  id = id;
  owner_profile_id = x.owner_profile_id;
  status = "active";
  desire = x.desire;
  origin = x.origin;
  horizon = x.horizon;
  intensity = x.intensity;
  autonomy_level = x.autonomy_level;
  reason = x.reason;
  next_possible_reflection = x.next_possible_reflection;
  last_reviewed_at = none;
  next_review_at = x.next_review_at;
  review_interval_seconds = x.review_interval_seconds;
  review_count = 0;
  resolution = none;
  impossible_reason = none;
  created_by = x.created_by;
  source_session_id = x.source_session_id;
  source_turn_id = x.source_turn_id;
  source_message_id = x.source_message_id;
  source_focus_id = x.source_focus_id;
  created_at = now;
  updated_at = now;
  closed_at = none;
  metadata_json = x.metadata;
}

unfoldable pub create_intention_record :
    Database → (id : String) (now : ℕ) → IntentionInput → Database × IntentionRecord
unfolding new_intention
create_intention_record db id now x = (
  touch_source x.source_session_id now
      (record db { intentions = db.intentions ++ new_intention id now x ∷ [] }),
  new_intention id now x,
)

abbrev pub write_intention : String → (IntentionRecord → IntentionRecord) → Database → Database
write_intention id f db = record db {
  intentions = map (λ x. if x.id == id then f x else x) db.intentions;
}

-- the fields that a call of `update_intention_record` may give
pub record IntentionUpdate : Type 0 where
  pub desire : Option String
  pub status : Option String
  pub origin : Option String
  pub horizon : Option String
  pub intensity : Option String
  pub autonomy_level : Option String
  pub reason : Option String
  pub next_possible_reflection : Option String
  pub last_reviewed_at : Option ℕ
  pub next_review_at : Option ℕ
  pub review_interval_seconds : Option ℕ
  pub increment_review_count : Bool
  pub resolution : Option String
  pub impossible_reason : Option String
  pub metadata : Fields

unfoldable pub updated_intention : IntentionUpdate → (now : ℕ) → IntentionRecord → IntentionRecord
updated_intention x now i = record i {
  desire = assigned x.desire i.desire;
  status = assigned x.status i.status;
  origin = assigned x.origin i.origin;
  horizon = assigned_option x.horizon i.horizon;
  intensity = assigned x.intensity i.intensity;
  autonomy_level = assigned x.autonomy_level i.autonomy_level;
  reason = assigned x.reason i.reason;
  next_possible_reflection = assigned_option x.next_possible_reflection i.next_possible_reflection;
  last_reviewed_at = assigned_option x.last_reviewed_at i.last_reviewed_at;
  next_review_at = assigned_option x.next_review_at i.next_review_at;
  review_interval_seconds = assigned_option x.review_interval_seconds i.review_interval_seconds;
  review_count = if x.increment_review_count then i.review_count + 1 else i.review_count;
  resolution = assigned_option x.resolution i.resolution;
  impossible_reason = assigned_option x.impossible_reason i.impossible_reason;
  metadata_json = updated i.metadata_json x.metadata;
  updated_at = now;
}

unfoldable pub update_intention_record :
    Database
    → (intention_id : String) (now : ℕ) → IntentionUpdate
    → Option (Database × IntentionRecord)
unfolding get_intention_record updated_intention
update_intention_record db intention_id now x = do
  intention ← get_intention_record db intention_id
  some (
    touch_source intention.source_session_id now
        (write_intention intention_id (updated_intention x now) db),
    updated_intention x now intention,
  )

pub record IntentionClosing : Type 0 where
  pub status : String
  pub resolution : Option String
  pub impossible_reason : Option String
  pub metadata : Fields

unfoldable pub closed_intention : IntentionClosing → (now : ℕ) → IntentionRecord → IntentionRecord
closed_intention x now i = record i {
  status = x.status;
  resolution = x.resolution;
  impossible_reason = x.impossible_reason;
  closed_at = some now;
  updated_at = now;
  metadata_json = updated i.metadata_json x.metadata;
}

unfoldable pub close_intention_record :
    Database
    → (intention_id : String) (now : ℕ) → IntentionClosing
    → Option (Database × IntentionRecord)
unfolding get_intention_record closed_intention
close_intention_record db intention_id now x = do
  intention ← get_intention_record db intention_id
  some (
    touch_source intention.source_session_id now
        (write_intention intention_id (closed_intention x now) db),
    closed_intention x now intention,
  )

unfoldable pub add_intention_link : Database → IntentionLink → Database
add_intention_link db link = record db { intention_links = db.intention_links ++ link ∷ [] }

unfoldable pub list_intention_links :
    Database → (intention_id : String) → (limit : ℕ) → List IntentionLink
list_intention_links db intention_id limit = take limit (
    sort_by (λ k l. then_by (compare_nat l.created_at k.created_at) (compare_text k.id l.id))
      (filter (λ l. l.intention_id == intention_id) db.intention_links))
