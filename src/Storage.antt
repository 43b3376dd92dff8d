-- ===== src/Storage.antt =====
-- The SQLite tables and the repository functions over them (backend/app/storage).
pub mod OrganRows
pub mod Models
pub mod Sessions
pub mod SummaryStates
pub mod History
pub mod Events
pub mod Jobs
pub mod Memories
pub mod Shared
pub mod Focus
pub mod Intentions
pub mod Settings
pub mod Samples
pub mod Examples
