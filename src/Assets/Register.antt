-- ===== src/Assets/Register.antt =====
-- The register of fixed assets with its schedules, periods and postings:
-- backend/app/services/assets.py and asset_registration.py over the tables of
-- backend/app/models/assets.py.
pub mod State
pub mod Create
pub mod Schedules
pub mod Booking
pub mod Posting
pub mod Routes
pub mod Sound
pub mod Rows
pub mod Kept
pub mod Planned
pub mod Posted
pub mod Batches
pub mod Run
pub mod Replayed
mod Tests
