-- ===== src/Modules.antt =====
-- The Agentic Module contracts and activation planning: backend/scarlet_agentic_module_sdk and
-- backend/app/agentic_modules.
pub mod Semver
pub mod Manifest
pub mod Ledger
pub mod Graph
pub mod Plan
pub mod Samples
pub mod Examples
