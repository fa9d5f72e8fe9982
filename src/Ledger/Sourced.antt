-- ===== src/Ledger/Sourced.antt =====
-- What the other services do to write an entry: they validate the input, create a draft, note what
-- the entry comes from, and post it (`post_period` and `property_entry` of
-- backend/app/services/assets.py, `post_business` of operations.py, `_post` of result_closing.py,
-- `generate_opening` of opening_posting.py).
pub mod Posted
use solo_lmnp.Prelude.{Bool, Option, some}
use solo_lmnp.Prelude.Text.{Text}
use solo_lmnp.Prelude.Outcome.{Outcome, ◌>>=◌}
use solo_lmnp.Ledger.State.{Entry, Db, EntryInput, Clock, Error, save}
use solo_lmnp.Ledger.Service.{create_draft}
use solo_lmnp.Ledger.Post.{post_entry}
use solo_lmnp.Ledger.Reversal.{model_validate}

-- `entry.source_type = ...; entry.source_id = ...`
unfoldable pub sourced : Text → Text → Entry → Entry
sourced source_type source_id drafted = record drafted {
  source_type = source_type;
  source_id = some source_id;
}

module _ (fields_valid : EntryInput → Bool) where
  unfoldable pub post_sourced : Text → Text → Clock → Db → EntryInput → Outcome Error (Entry × Db)
  post_sourced source_type source_id clock db input = do
    payload ← model_validate fields_valid input
    drafted ← create_draft db payload
    let entry = sourced source_type source_id drafted.0
    let stored = record (drafted.1) { entries = save entry drafted.1.entries }
    post_entry clock stored entry entry.version
