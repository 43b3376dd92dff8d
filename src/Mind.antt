-- ===== src/Mind.antt =====
-- The organs of backend/app/mind.
pub mod Contracts
pub mod Focus
pub mod Modes
