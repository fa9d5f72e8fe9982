-- ===== src/Operations.antt =====
-- Business operations and bank matches: backend/app/services/operations.py over the tables of
-- backend/app/models/operations.py.
pub mod State
pub mod Loans
pub mod Bank
pub mod Service
pub mod Settle
pub mod Writes
pub mod Settled
pub mod Routes
pub mod Kept
pub mod Books
pub mod Replay
pub mod Served
pub mod Remembered
mod Tests
