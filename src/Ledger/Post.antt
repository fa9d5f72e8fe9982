-- ===== src/Ledger/Post.antt =====
-- The posting of an entry: `post_entry` of backend/app/services/ledger.py.
use solo_lmnp.Prelude.{
  ℕ, ◌+◌, Bool, true, Option, none, some, List, [], ◌∷◌, ◌++◌, length, ◌==◌, leb, if◌then◌else◌,
}
use solo_lmnp.Prelude.Text.{Text}
use solo_lmnp.Prelude.Text.Decimal.{padded}
use solo_lmnp.Prelude.Outcome.{Outcome, ok, ◌>>=◌, ◌>>◌, guard}
use solo_lmnp.Ledger.State.{
  validated, FiscalYear, Journal, Line, Entry, entry_validated, entry_change, Db, Clock, Error,
  date_outside_year, future_date, too_few_lines, unbalanced, total_too_large, clock_regression,
  save,
}
use solo_lmnp.Ledger.Service.{
  max_cents, is_validated, get_year, check_draft, active_journal, active_account, within, log,
}

unfoldable pub total_debit : List Line → ℕ
total_debit [] = 0
total_debit (line ∷ lines) = line.debit + total_debit lines

unfoldable pub total_credit : List Line → ℕ
total_credit [] = 0
total_credit (line ∷ lines) = line.credit + total_credit lines

-- The loop that checks the account of each line and freezes its label.
unfoldable pub freeze_labels : Db → List Line → Outcome Error (List Line)
unfolding active_account
freeze_labels db [] = ok []
freeze_labels db (line ∷ lines) = do
  account ← active_account db line.account_number
  rest ← freeze_labels db lines
  ok (record line { account_label = some account.label } ∷ rest)

-- `select max(sequence)` and `select max(validated_at)` of a year; `none` is SQL's NULL.
abbrev pub larger : Option ℕ → Option ℕ → Option ℕ
larger none b = b
larger (some a) none = some a
larger (some a) (some b) = some (if leb a b then b else a)

unfoldable pub max_sequence : ℕ → List Entry → Option ℕ
max_sequence year_id [] = none
max_sequence year_id (e ∷ es) =
    if e.fiscal_year_id == year_id
    then larger e.sequence (max_sequence year_id es)
    else max_sequence year_id es

unfoldable pub max_validated_at : ℕ → List Entry → Option ℕ
max_validated_at year_id [] = none
max_validated_at year_id (e ∷ es) =
    if e.fiscal_year_id == year_id
    then larger e.validated_at (max_validated_at year_id es)
    else max_validated_at year_id es

-- `... or 0`
abbrev pub or_zero : Option ℕ → ℕ
or_zero none = 0
or_zero (some n) = n

-- `latest is not None and timestamp < latest` fails.
abbrev pub not_before : ℕ → Option ℕ → Bool
not_before timestamp none = true
not_before timestamp (some latest) = leb latest timestamp

-- f"{year:04d}-{sequence:06d}"
unfoldable pub format_number : ℕ → ℕ → Text
unfolding padded
format_number year sequence = padded 4 year ++ (b'-' ∷ padded 6 sequence)

-- The row of a draft once it is posted.
unfoldable pub posted_row : Clock → FiscalYear → Journal → ℕ → List Line → Entry → Entry
unfolding format_number
posted_row clock year journal sequence lines entry = record entry {
  lines = lines;
  sequence = some (sequence + 1);
  entry_number = some (format_number year.year (sequence + 1));
  journal_label = some journal.label;
  validated_at = some clock.now;
  status = validated;
  version = entry.version + 1;
}

-- The checks of the dates, of the lines and of the totals.
unfoldable pub check_posting : Clock → FiscalYear → Entry → Outcome Error (Unit {0})
unfolding total_debit total_credit
check_posting clock year entry = do
  guard (within year entry.accounting_date) date_outside_year
  guard (leb entry.accounting_date clock.today) future_date
  guard (leb 2 (length entry.lines)) too_few_lines
  guard (total_debit entry.lines == total_credit entry.lines) unbalanced
  guard (leb (total_debit entry.lines) max_cents) total_too_large

-- The next number, the check of the clock, and the writes.
unfoldable pub record_posting :
    Clock → Db → FiscalYear → Journal → List Line → Entry → Outcome Error (Entry × Db)
unfolding max_sequence max_validated_at posted_row save log
record_posting clock db year journal lines entry = do
  let sequence = or_zero (max_sequence year.id db.entries)
  guard (not_before clock.now (max_validated_at year.id db.entries)) clock_regression
  let posted = posted_row clock year journal sequence lines entry
  let stored = record db { entries = save posted db.entries }
  ok (posted, log entry_validated (some posted.id) (entry_change none (some posted)) stored)

unfoldable pub post_draft : Clock → Db → Entry → ℕ → Outcome Error (Entry × Db)
unfolding check_draft get_year active_journal check_posting freeze_labels record_posting
post_draft clock db entry version = do
  check_draft entry version
  year ← get_year db entry.fiscal_year_id true
  journal ← active_journal db entry.journal_code
  check_posting clock year entry
  lines ← freeze_labels db entry.lines
  record_posting clock db year journal lines entry

-- Posting a validated entry again reads the entry.
unfoldable pub post_entry : Clock → Db → Entry → ℕ → Outcome Error (Entry × Db)
post_entry clock db entry version =
    if is_validated entry.status then ok (entry, db) else post_draft clock db entry version
