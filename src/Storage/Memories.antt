-- ===== src/Storage/Memories.antt =====
-- The memory rows of backend/app/storage/repository/memory.py.
use Prim.Native.Nat.{compare as compare_nat}
use Prim.Native.String.{compare as compare_text}
use llm_api_mind.Base.{
  ℕ, ◌+◌, String, Option, none, some, List, [], ◌∷◌, ◌++◌, map, Bool, true, ◌==◌, find,
  if◌then◌else◌, ◌>>=◌,
}
use llm_api_mind.Base.Json.{Fields}
use llm_api_mind.Base.Sorting.{sort_by, then_by}
use llm_api_mind.Storage.Models.{MemoryRecord, MemoryActivity, Database}
use llm_api_mind.Storage.Sessions.{touch_session}

-- newest first; the filter on confidence is accepted and not used
unfoldable pub list_all_memories : Database → List MemoryRecord
list_all_memories db =
    sort_by (λ m n. then_by (compare_nat n.created_at m.created_at) (compare_text m.id n.id))
      db.memories

unfoldable pub get_memory : Database → String → Option MemoryRecord
get_memory db memory_id = find (λ m. m.id == memory_id) db.memories

abbrev pub update_memory : String → (MemoryRecord → MemoryRecord) → Database → Database
update_memory id f db = record db {
  memories = map (λ m. if m.id == id then f m else m) db.memories;
}

-- A missing memory is left alone.
unfoldable pub update_memory_source_message :
    Database → (memory_id source_message_id : String) → Database
update_memory_source_message db memory_id source_message_id =
    update_memory memory_id (λ m. record m { source_message_id = some source_message_id }) db

unfoldable pub add_memory_activity : Database → MemoryActivity → Database
add_memory_activity db activity = record db { activities = db.activities ++ activity ∷ [] }

abbrev or_kept {ℓ} : {A : Type ℓ} → Option A → A → A
or_kept none a = a
or_kept (some b) a = b

abbrev touch_source : Bool → Option String → ℕ → Database → Database
touch_source true (some session_id) now db = touch_session db session_id now
touch_source _ _ now db = db

unfoldable pub update_memory_lifecycle :
    Database
    → (memory_id : String) → (status : Option String) → (metadata : Option Fields)
    → (touch_source_session : Bool) → (now : ℕ) → Option Database
unfolding get_memory touch_session
update_memory_lifecycle db memory_id status metadata touch now = do
  memory ← get_memory db memory_id
  some (
      touch_source touch memory.source_session_id now (
        update_memory memory_id
          (λ m. record m {
            status = or_kept status m.status;
            metadata_json = or_kept metadata m.metadata_json;
            updated_at = now;
          })
          db))

unfoldable pub mark_memory_used : Database → (memory_id : String) (now : ℕ) → Option Database
unfolding get_memory
mark_memory_used db memory_id now = do
  memory ← get_memory db memory_id
  some (
      update_memory memory_id
        (λ m. record m {
          usage_count = m.usage_count + 1;
          updated_at = now;
          last_used_at = some now;
        })
        db)
