-- ===== src/Filing.antt =====
-- The accounting file of the tax office: backend/app/domain/filing.
pub mod Fec
mod Tests
