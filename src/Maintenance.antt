-- ===== src/Maintenance.antt =====
-- The background jobs of backend/app/runtime: maintenance_scheduler.py, maintenance_history.py,
-- maintenance_shared.py and `record_event` of events.py.
pub mod Shared
pub mod Idle
pub mod Runner
pub mod Scheduling
pub mod Repairs
pub mod Worker
pub mod Lifecycle
pub mod Moves
pub mod Runs
pub mod Batch
pub mod Scheduled
pub mod Attempts
pub mod Due
pub mod System
pub mod Samples
pub mod Examples
