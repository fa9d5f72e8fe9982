-- ===== src/Ledger/Checks.antt =====
-- What the checks of the ledger service have established once they pass.
use solo_lmnp.Prelude.{ℕ, ◌≤◌, ◌≡◌, true, none, some, List, [], ◌∷◌, length, arith}
use solo_lmnp.Prelude.Outcome.{ok, >>=-eq-ok, guard-eq-ok}
use solo_lmnp.Ledger.State.{
  draft, year_open, FiscalYear, Journal, Line, Entry, entry_validated, entry_change, Db, EntryInput,
  Clock, date_outside_year, find_year, save,
}
use solo_lmnp.Ledger.Service.{
  within, get_year, check_draft, active_journal, check_input, max_cents, log, active_account,
}
use solo_lmnp.Ledger.Post.{
  total_debit, total_credit, freeze_labels, not_before, max_validated_at, max_sequence, or_zero,
  posted_row, post_draft, check_posting, record_posting,
}
use solo_lmnp.Ledger.Step.{InOpenYear, YearIsOpen}

pub get_year-eq-ok :
    (db : Db) (year_id : ℕ) {y : FiscalYear}
    → get_year db year_id true ≡ ok y
    → (find_year year_id db.years ≡ some y) × (y.status ≡ year_open)
unfolding get_year
get_year-eq-ok db year_id h = ground arith

pub check_draft-eq-ok :
    (e : Entry) (version : ℕ)
    → check_draft e version ≡ ok tt
    → (e.version ≡ version) × (e.status ≡ draft)
unfolding check_draft
check_draft-eq-ok e version h = ground arith

pub year_open_of :
    (db : Db) (e : Entry) {y : FiscalYear}
    → get_year db e.fiscal_year_id true ≡ ok y
    → YearIsOpen db e
year_open_of db e {y} h =
    let p = get_year-eq-ok db e.fiscal_year_id h in
    record { year = y; found_year = p.0; is_open = p.1 }

within-le :
    (y : FiscalYear) (day : ℕ) → within y day ≡ true → (y.start_date ≤ day) × (day ≤ y.end_date)
within-le y day h = ground arith

-- A checked input can become an entry of an open year.
pub check_input-eq-ok :
    (db : Db) (input : EntryInput) (e : Entry)
    → e.fiscal_year_id ≡ input.fiscal_year_id
    → e.accounting_date ≡ input.accounting_date
    → check_input db input ≡ ok tt
    → InOpenYear db e
unfolding check_input
check_input-eq-ok db input e same_year same_date h =
    let (y, e1, h1) = >>=-eq-ok (get_year db input.fiscal_year_id true) _ h in
    let (e2, h2) = guard-eq-ok (within y input.accounting_date) date_outside_year _ h1 in
    let p = get_year-eq-ok db input.fiscal_year_id e1 in
    let q = within-le y input.accounting_date e2 in
    record {
      year = y;
      found_year = rw same_year p.0;
      is_open = p.1;
      not_early = rw same_date q.0;
      not_late = rw same_date q.1;
    }

-- Freezing the labels changes no amount.
pub freeze_labels-totals :
    (db : Db) (lines frozen : List Line)
    → freeze_labels db lines ≡ ok frozen
    → (length frozen ≡ length lines)
      × (total_debit frozen ≡ total_debit lines)
      × (total_credit frozen ≡ total_credit lines)
unfolding freeze_labels total_debit total_credit
freeze_labels-totals db [] frozen h = ground arith
freeze_labels-totals db (line ∷ lines) frozen h =
    let (a, e1, h1) = >>=-eq-ok (active_account db line.account_number) _ h in
    let (rest, e2, h2) = >>=-eq-ok (freeze_labels db lines) _ h1 in
    let ih = freeze_labels-totals db lines rest e2 in ground arith

-- A draft that is posted has passed every check.
pub record PostFacts (clock : Clock) (db : Db) (entry : Entry) (version : ℕ) (r : Entry × Db)
    : Type 0 where
  pub year : FiscalYear
  pub journal : Journal
  pub lines : List Line
  pub checked : check_draft entry version ≡ ok tt
  pub got_year : get_year db entry.fiscal_year_id true ≡ ok year
  pub got_journal : active_journal db entry.journal_code ≡ ok journal
  pub posting : check_posting clock year entry ≡ ok tt
  pub frozen : freeze_labels db entry.lines ≡ ok lines
  pub recorded : record_posting clock db year journal lines entry ≡ ok r

pub post_draft-eq-ok :
    (clock : Clock) (db : Db) (entry : Entry) (version : ℕ) (r : Entry × Db)
    → post_draft clock db entry version ≡ ok r
    → PostFacts clock db entry version r
unfolding post_draft
post_draft-eq-ok clock db entry version r h =
    let (u, e0, h0) = >>=-eq-ok (check_draft entry version) _ h in
    let (y, e1, h1) = >>=-eq-ok (get_year db entry.fiscal_year_id true) _ h0 in
    let (j, e2, h2) = >>=-eq-ok (active_journal db entry.journal_code) _ h1 in
    let (v, e3, h3) = >>=-eq-ok (check_posting clock y entry) _ h2 in
    let (ls, e4, h4) = >>=-eq-ok (freeze_labels db entry.lines) _ h3 in
    record {
      year = y;
      journal = j;
      lines = ls;
      checked = e0;
      got_year = e1;
      got_journal = e2;
      posting = e3;
      frozen = e4;
      recorded = h4;
    }

pub record PostingChecks (clock : Clock) (y : FiscalYear) (entry : Entry) : Type 0 where
  pub not_early : y.start_date ≤ entry.accounting_date
  pub not_late : entry.accounting_date ≤ y.end_date
  pub not_future : entry.accounting_date ≤ clock.today
  pub two_lines : 2 ≤ length entry.lines
  pub balanced : total_debit entry.lines ≡ total_credit entry.lines
  pub fits : total_debit entry.lines ≤ max_cents

pub check_posting-eq-ok :
    (clock : Clock) (y : FiscalYear) (entry : Entry)
    → check_posting clock y entry ≡ ok tt
    → PostingChecks clock y entry
unfolding check_posting
check_posting-eq-ok clock y entry h = ground arith

-- The row that is written, and the state after it.
pub record_posting-eq-ok :
    (clock : Clock) (db : Db) (y : FiscalYear) (j : Journal) (lines : List Line) (entry : Entry)
    (r : Entry × Db)
    → record_posting clock db y j lines entry ≡ ok r
    → (not_before clock.now (max_validated_at y.id db.entries) ≡ true)
      × (r.0 ≡ posted_row clock y j (or_zero (max_sequence y.id db.entries)) lines entry)
      × (r.1
          ≡ log entry_validated
              (some r.0.id)
              (entry_change none (some r.0))
              (record db { entries = save r.0 db.entries }))
unfolding record_posting
record_posting-eq-ok clock db y j lines entry r h = ground arith
