-- ===== src/Provenance.antt =====
-- backend/app/runtime/memory_provenance.py: the audit of where memories come from, and the repair of
-- a missing source message.
pub mod Text
pub mod Classify
pub mod Audit
pub mod Repair
pub mod Resolves
pub mod Guard
pub mod Samples
pub mod Examples
