-- ===== src/Storage/History.antt =====
-- backend/app/storage/repository/history.py: the append-only chain of compaction artifacts.
pub mod Chain
pub mod Create
use Prim.Native.Nat.{Ordering, compare as compare_nat}
use Prim.Native.String.{compare as compare_text}
use llm_api_mind.Base.{
  ℕ, ◌+◌, String, Option, none, some, List, [], ◌∷◌, ◌++◌, map, ◌==◌, find, filter, head?, matches,
  ◌&&◌, if◌then◌else◌,
}
use llm_api_mind.Base.Json.{Fields}
use llm_api_mind.Base.Sorting.{sort_by, then_by}
use llm_api_mind.Storage.Models.{HistoryCompaction, Database}

unfoldable pub get_history_compaction : Database → String → Option HistoryCompaction
get_history_compaction db compaction_id = find (λ c. c.id == compaction_id) db.compactions

-- `ORDER BY generation DESC, created_at DESC, id`
unfoldable pub newest_first : HistoryCompaction → HistoryCompaction → Ordering
newest_first c d =
    then_by (compare_nat d.generation c.generation)
      (then_by (compare_nat d.created_at c.created_at) (compare_text c.id d.id))

-- `ORDER BY generation, created_at, id`
unfoldable pub oldest_first : HistoryCompaction → HistoryCompaction → Ordering
oldest_first c d =
    then_by (compare_nat c.generation d.generation)
      (then_by (compare_nat c.created_at d.created_at) (compare_text c.id d.id))

unfoldable pub get_latest_history_compaction :
    Database → (session_id : String) → (status : Option String) → Option HistoryCompaction
unfolding newest_first
get_latest_history_compaction db session_id status = head? (
    sort_by newest_first
      (filter (λ c. c.session_id == session_id && matches status c.status) db.compactions))

unfoldable pub list_history_compactions :
    Database → (session_id : String) → (status : Option String) → List HistoryCompaction
unfolding oldest_first
list_history_compactions db session_id status =
    sort_by oldest_first
      (filter (λ c. c.session_id == session_id && matches status c.status) db.compactions)

-- what a call of `create_history_compaction` carries
pub record CompactionInput : Type 0 where
  pub session_id : String
  pub summary : String
  pub summary_sha256 : String
  pub source_history_sha256 : String
  pub covered_through_turn_id : String
  pub covered_turn_ids : List String
  pub covered_sources : List Fields
  pub source_estimated_tokens : ℕ
  pub summary_estimated_tokens : ℕ
  pub trigger_turn_id : Option String
  pub model : Option String
  pub provider_message_id : Option String
  pub metadata : Fields

abbrev next_generation : Option HistoryCompaction → ℕ
next_generation none = 1
next_generation (some previous) = previous.generation + 1

abbrev id_of : Option HistoryCompaction → Option String
id_of none = none
id_of (some previous) = some previous.id

unfoldable pub new_artifact :
    CompactionInput → (id : String) (created now : ℕ) → Option HistoryCompaction → HistoryCompaction
new_artifact x id created now previous = record {
  id = id;
  session_id = x.session_id;
  generation = next_generation previous;
  status = "active";
  summary = x.summary;
  summary_sha256 = x.summary_sha256;
  source_history_sha256 = x.source_history_sha256;
  covered_through_turn_id = x.covered_through_turn_id;
  trigger_turn_id = x.trigger_turn_id;
  previous_compaction_id = id_of previous;
  covered_turn_ids_json = x.covered_turn_ids;
  covered_sources_json = x.covered_sources;
  source_estimated_tokens = x.source_estimated_tokens;
  summary_estimated_tokens = x.summary_estimated_tokens;
  model = x.model;
  provider_message_id = x.provider_message_id;
  metadata_json = x.metadata;
  created_at = created;
  updated_at = now;
}

-- the row of the previous artifact, found by its primary key
unfoldable pub retire : HistoryCompaction → ℕ → HistoryCompaction → HistoryCompaction
retire previous now c =
    if c.id == previous.id then record c { status = "superseded"; updated_at = now } else c

-- `if previous is not None and previous.status == "active"`
unfoldable pub supersede :
    Option HistoryCompaction → ℕ → List HistoryCompaction → List HistoryCompaction
unfolding retire
supersede none now rows = rows
supersede (some previous) now rows =
    if previous.status == "active" then map (retire previous now) rows else rows

-- `new_id`, `created` and `now` are what `uuid4` and the clock give.
unfoldable pub create_history_compaction :
    Database → (new_id : String) (created now : ℕ) → CompactionInput → Database
unfolding get_latest_history_compaction supersede new_artifact
create_history_compaction db new_id created now x =
    let previous = get_latest_history_compaction db x.session_id none in
    record db {
      compactions =
          supersede previous now db.compactions ++ new_artifact x new_id created now previous ∷ [];
    }
