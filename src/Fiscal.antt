-- ===== src/Fiscal.antt =====
-- The fiscal part (backend/app/domain/fiscal): the LMNP engine, the blocked rules, and
-- the trust of its output.
pub mod Engine
pub mod Validation
pub mod Trust
pub mod Stamp
pub mod Exports
pub mod Blocks
pub mod Blocked
mod Tests
