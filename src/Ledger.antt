-- ===== src/Ledger.antt =====
-- The ledger: backend/app/services/ledger.py over the tables of backend/app/models/ledger.py, and
-- the routes of backend/app/api/ledger.py that change it.
pub mod State
pub mod Service
pub mod Post
pub mod Reversal
pub mod Projection
pub mod Routes
pub mod Table
pub mod Step
pub mod Checks
pub mod Refines
pub mod Posting
pub mod Serve
pub mod Invariant
pub mod Preserved
pub mod History
pub mod Audit
pub mod Mirror
pub mod Sourced
mod Tests
