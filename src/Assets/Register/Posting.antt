-- ===== src/Assets/Register/Posting.antt =====
-- `post_period`, `_post_one` and `post_period_batch` of backend/app/services/assets.py, over
-- `posted_item`, `error_item`, `skipped_item` and `summarize` of
-- backend/app/domain/assets/posting_batch.py.
--
-- `fingerprint` stands for the SHA-256 of a lot. A savepoint that is rolled back leaves the tables
-- as they were.
use solo_lmnp.Prelude.{
  ℕ, ◌+◌, ◌==◌, ltb, Bool, true, false, Option, none, some, List, [], ◌∷◌, if◌then◌else◌,
}
use solo_lmnp.Prelude.Text.{Text, codes, same_text}
use solo_lmnp.Prelude.Outcome.{Outcome, ok, err, ◌>>=◌, ◌>>◌, guard}
use solo_lmnp.Ledger.State.{
  Entry, LineInput, EntryInput, Clock, depreciation_batch, operation_details, find_entry,
}
use solo_lmnp.Ledger.Service.{get_year, log}
use solo_lmnp.Ledger.Sourced.{post_sourced}
use solo_lmnp.Assets.Plan.{Schedule, Period, PeriodStatus, calculated, posted}
use solo_lmnp.Assets.Register.State.{
  Estate, DepreciationPostInput, BatchItem, Item, ItemStatus, posted_item, error_item, skipped_item,
  BatchResult, BatchRecord, AssetError, period_not_found, entry_missing, zero_depreciation,
  schedule_not_found, period_year_mismatch, idempotency_conflict, in_books, existing, find_schedule,
  find_period, save_period, find_batch,
}
use solo_lmnp.Assets.Register.Booking.{require_schedule_booked}

abbrev pub charge_label : Text
charge_label = codes "Dotation aux amortissements"

abbrev pub charge_line : Text → ℕ → ℕ → LineInput
charge_line number debit credit = record {
  account_number = number;
  label = charge_label;
  debit = debit;
  credit = credit;
}

abbrev pub charge_account : Text
charge_account = codes "681100"

abbrev pub charge_of : Period → Schedule → DepreciationPostInput → EntryInput
charge_of p s input = record {
  fiscal_year_id = p.fiscal_year_id;
  journal_code = codes "OD";
  accounting_date = p.period_end;
  piece_reference = input.piece_reference;
  piece_date = p.period_end;
  label = charge_label;
  lines =
      charge_line charge_account p.amount 0 ∷ charge_line s.depreciation_account 0 p.amount ∷ [];
}

abbrev pub marked : Period → ℕ → Period
marked p k = record p { status = posted k }

abbrev pub is_posted : PeriodStatus → Bool
is_posted calculated = false
is_posted (posted k) = true

-- The item of an attempt, and the tables after it.
abbrev pub report : Estate → ℕ → Bool → Outcome AssetError (Entry × Estate) → ItemStatus × Estate
report e period_id already (ok r) = (posted_item r.0.id already, r.1)
report e period_id already (err x) = (error_item x, e)

abbrev pub is_error : ItemStatus → Bool
is_error (posted_item k replayed) = false
is_error (error_item x) = true
is_error skipped_item = false

module _ (fields_valid : EntryInput → Bool) where
  -- A period that is not posted yet.
  unfoldable pub post_new :
      Clock → Estate → Period → DepreciationPostInput → Outcome AssetError (Entry × Estate)
  unfolding save_period
  post_new clock e p input = do
    year ← in_books (get_year e.db p.fiscal_year_id true)
    guard (ltb 0 p.amount) zero_depreciation
    s ← existing (find_schedule p.schedule_id e.schedules) schedule_not_found
    require_schedule_booked e s year
    entry ← in_books (
        post_sourced fields_valid (codes "DEPRECIATION") input.request_id clock e.db
          (charge_of p s input))
    ok (entry.0, record e { db = entry.1; periods = save_period (marked p entry.0.id) e.periods })

  unfoldable pub post_by_status :
      Clock
      → Estate
      → Period
      → DepreciationPostInput
      → PeriodStatus
      → Outcome AssetError (Entry × Estate)
  post_by_status clock e p input (posted k) = do
    entry ← existing (find_entry k e.db.entries) entry_missing
    ok (entry, e)
  post_by_status clock e p input calculated = post_new clock e p input

  unfoldable pub post_period :
      Clock → Estate → ℕ → DepreciationPostInput → Outcome AssetError (Entry × Estate)
  unfolding post_by_status
  post_period clock e period_id input = do
    p ← existing (find_period period_id e.periods) period_not_found
    post_by_status clock e p input p.status

  abbrev pub attempt : Clock → Estate → ℕ → BatchItem → Option Period → ItemStatus × Estate
  attempt clock e year_id item none = (error_item period_not_found, e)
  attempt clock e year_id item (some p) =
      let tried = report e item.period_id (is_posted p.status) (
        post_period clock e item.period_id
          (record { request_id = item.request_id; piece_reference = item.piece_reference })) in
      if p.fiscal_year_id == year_id then tried else (error_item period_year_mismatch, e)

  unfoldable pub post_one : Clock → Estate → ℕ → BatchItem → ItemStatus × Estate
  post_one clock e year_id item =
      attempt clock e year_id item (find_period item.period_id e.periods)

  -- The loop, with whether it has stopped.
  unfoldable pub post_items : Clock → Estate → ℕ → Bool → List BatchItem → List Item × Estate
  unfolding post_one
  post_items clock e year_id stopped [] = ([], e)
  post_items clock e year_id true (item ∷ rest) =
      let more = post_items clock e year_id true rest in
      (record { period_id = item.period_id; status = skipped_item } ∷ more.0, more.1)
  post_items clock e year_id false (item ∷ rest) =
      let one = post_one clock e year_id item in
      let more = post_items clock one.1 year_id (is_error one.0) rest in
      (record { period_id = item.period_id; status = one.0 } ∷ more.0, more.1)

abbrev pub posted_one : ItemStatus → ℕ
posted_one (posted_item k replayed) = 1
posted_one (error_item x) = 0
posted_one skipped_item = 0

abbrev pub failed_one : ItemStatus → ℕ
failed_one (posted_item k replayed) = 0
failed_one (error_item x) = 1
failed_one skipped_item = 0

abbrev pub skipped_one : ItemStatus → ℕ
skipped_one (posted_item k replayed) = 0
skipped_one (error_item x) = 0
skipped_one skipped_item = 1

abbrev pub count_of : (ItemStatus → ℕ) → List Item → ℕ
count_of f [] = 0
count_of f (i ∷ rest) = f i.status + count_of f rest

unfoldable pub summarize : Text → List Item → Bool → BatchResult
summarize key items replayed = record {
  idempotency_key = key;
  replayed = replayed;
  posted_count = count_of posted_one items;
  failed_count = count_of failed_one items;
  skipped_count = count_of skipped_one items;
  items = items;
}

-- A key that was used before.
abbrev pub stored_batch : Text → BatchRecord → Outcome AssetError BatchResult
stored_batch digest b =
    if same_text b.fingerprint digest
    then ok (record (b.result) { replayed = true })
    else err idempotency_conflict

module _ (fields_valid : EntryInput → Bool) (fingerprint : List BatchItem → Text) where
  unfoldable pub run_batch :
      Clock → Estate → ℕ → Text → List BatchItem → Outcome AssetError (BatchResult × Estate)
  unfolding log post_items summarize
  run_batch clock e year_id key items = do
    year ← in_books (get_year e.db year_id true)
    let done = post_items fields_valid clock e year_id false items
    let result = summarize key done.0 false
    ok (
      result,
      record (done.1) {
        db = log depreciation_batch none (operation_details year_id key) done.1.db;
        batches =
            record { idempotency_key = key; fingerprint = fingerprint items; result = result }
            ∷ done.1.batches;
      },
    )

  unfoldable pub post_period_batch :
      Clock → Estate → ℕ → Text → List BatchItem → Outcome AssetError (BatchResult × Estate)
  unfolding find_batch run_batch
  post_period_batch clock e year_id key items = elim (find_batch key e.batches) [
    | none ↦ run_batch clock e year_id key items
    | some b ↦ (stored_batch (fingerprint items) b >>= λ result. ok (result, e))
  ]
