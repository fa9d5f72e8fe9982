-- ===== src/Assets.antt =====
-- Fixed assets (backend/app/domain/assets, backend/app/services/assets.py): the account pairs, the
-- plans, and what the ledger must hold.
pub mod Accounts
pub mod Plan
pub mod Registration
pub mod Register
mod Tests
