-- ===== src/Closing.antt =====
-- The closing of a year: backend/app/services/result_closing.py over statements.py.
pub mod Central
mod Tests
