-- ===== src/Chronology.antt =====
-- backend/app/runtime/history_compaction.py: the source map of a session's history, and the plan that
-- partitions it.
pub mod Python
pub mod Messages
pub mod SourceMap
pub mod Partition
pub mod Samples
pub mod Examples
