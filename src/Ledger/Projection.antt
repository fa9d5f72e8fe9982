-- ===== src/Ledger/Projection.antt =====
-- `projection` of backend/app/services/ledger.py: the trial balance of a year and its ledger. Money
-- is left in cents: `debit` and `credit` are numbers, a balance is an integer.
pub mod Totals
pub mod Balanced
pub mod Running
pub mod Listed
use solo_lmnp.Prelude.{
  ℕ, ◌+◌, Bool, true, false, ◌&&◌, ◌||◌, Option, none, some, List, [], ◌∷◌, ◌++◌, ◌==◌, ltb,
  if◌then◌else◌,
}
use solo_lmnp.Prelude.Int.{ℤ, pos, ◌-ℤ◌, neg, max_ℤ}
use solo_lmnp.Prelude.Text.{Text, same_text, is_before}
use solo_lmnp.Prelude.Outcome.{Outcome, ok, ◌>>=◌}
use solo_lmnp.Ledger.State.{Line, Entry, Db, Error}
use solo_lmnp.Ledger.Service.{is_validated, get_year}
use solo_lmnp.Ledger.Post.{or_zero}

-- A row of the query: a line with its entry.
pub record Row : Type 0 where
  pub line : Line
  pub entry : Entry

pub record Cell : Type 0 where
  pub account_number : Text
  pub label : Option Text
  pub debit_cents : ℕ
  pub credit_cents : ℕ

pub record LedgerRow : Type 0 where
  pub account_number : Text
  pub account_label : Option Text
  pub entry_id : ℕ
  pub entry_number : Option Text
  pub date : ℕ
  pub journal_code : Text
  pub piece_reference : Text
  pub label : Text
  pub debit : ℕ
  pub credit : ℕ
  pub balance : ℤ

pub record BalanceRow : Type 0 where
  pub account_number : Text
  pub label : Option Text
  pub total_debit : ℕ
  pub total_credit : ℕ
  pub debit_balance : ℤ
  pub credit_balance : ℤ

pub record Projection : Type 0 where
  pub fiscal_year_id : ℕ
  pub total_debit : ℕ
  pub total_credit : ℕ
  pub balanced : Bool
  pub balance : List BalanceRow
  pub ledger : List LedgerRow

-- `account is None or account == line.account_number`
abbrev pub chosen : Option Text → Line → Bool
chosen none l = true
chosen (some a) l = same_text l.account_number a

-- The joined rows that the conditions leave.
unfoldable pub entry_rows : Option Text → Entry → List Line → List Row
entry_rows account e [] = []
entry_rows account e (l ∷ ls) =
    if chosen account l
    then record { line = l; entry = e } ∷ entry_rows account e ls
    else entry_rows account e ls

abbrev pub in_projection : ℕ → Entry → Bool
in_projection year_id e = e.fiscal_year_id == year_id && is_validated e.status

unfoldable pub selected : ℕ → Option Text → List Entry → List Row
unfolding entry_rows
selected year_id account [] = []
selected year_id account (e ∷ es) =
    if in_projection year_id e
    then entry_rows account e e.lines ++ selected year_id account es
    else selected year_id account es

-- `order_by(accounting_date, sequence, position)`; NULL comes first.
abbrev pub row_before : Row → Row → Bool
row_before r s =
    ltb r.entry.accounting_date s.entry.accounting_date
    || (r.entry.accounting_date == s.entry.accounting_date
        && (ltb (or_zero r.entry.sequence) (or_zero s.entry.sequence)
            || (or_zero r.entry.sequence == or_zero s.entry.sequence
                && ltb r.line.position s.line.position)))

unfoldable pub insert_row : Row → List Row → List Row
insert_row r [] = r ∷ []
insert_row r (s ∷ rows) = if row_before s r then s ∷ insert_row r rows else r ∷ s ∷ rows

unfoldable pub order_rows : List Row → List Row
unfolding insert_row
order_rows [] = []
order_rows (r ∷ rows) = insert_row r (order_rows rows)

-- `setdefault` with an empty cell, and the two additions.
unfoldable pub add_line : Line → List Cell → List Cell
add_line l [] =
    record {
      account_number = l.account_number;
      label = l.account_label;
      debit_cents = l.debit;
      credit_cents = l.credit;
    }
    ∷ []
add_line l (c ∷ cells) =
    if same_text c.account_number l.account_number
    then record c {
      debit_cents = c.debit_cents + l.debit;
      credit_cents = c.credit_cents + l.credit;
    }
      ∷ cells
    else c ∷ add_line l cells

-- What the cell of an account holds, debit less credit.
unfoldable pub net_of : Text → List Cell → ℤ
net_of a [] = pos 0
net_of a (c ∷ cells) =
    if same_text c.account_number a then pos c.debit_cents -ℤ pos c.credit_cents else net_of a cells

abbrev pub ledger_row : Row → List Cell → LedgerRow
ledger_row r cells = record {
  account_number = r.line.account_number;
  account_label = r.line.account_label;
  entry_id = r.entry.id;
  entry_number = r.entry.entry_number;
  date = r.entry.accounting_date;
  journal_code = r.entry.journal_code;
  piece_reference = r.entry.piece_reference;
  label = r.line.label;
  debit = r.line.debit;
  credit = r.line.credit;
  balance = net_of r.line.account_number cells;
}

-- The variables of the loop over the rows.
pub record Sums : Type 0 where
  pub cells : List Cell
  pub ledger : List LedgerRow
  pub total_debit : ℕ
  pub total_credit : ℕ

unfoldable pub add_row : Bool → Option Text → Sums → Row → Sums
unfolding add_line net_of
add_row include_ledger account s r =
    let cells = add_line r.line s.cells in
    record {
      cells = cells;
      ledger =
          if include_ledger && chosen account r.line
          then s.ledger ++ (ledger_row r cells ∷ [])
          else s.ledger;
      total_debit = s.total_debit + r.line.debit;
      total_credit = s.total_credit + r.line.credit;
    }

unfoldable pub add_rows : Bool → Option Text → Sums → List Row → Sums
unfolding add_row
add_rows include_ledger account s [] = s
add_rows include_ledger account s (r ∷ rows) =
    add_rows include_ledger account (add_row include_ledger account s r) rows

-- `sorted(balances)`
unfoldable pub insert_cell : Cell → List Cell → List Cell
insert_cell c [] = c ∷ []
insert_cell c (d ∷ cells) =
    if is_before d.account_number c.account_number then d ∷ insert_cell c cells else c ∷ d ∷ cells

unfoldable pub order_cells : List Cell → List Cell
unfolding insert_cell
order_cells [] = []
order_cells (c ∷ cells) = insert_cell c (order_cells cells)

abbrev pub balance_row : Cell → BalanceRow
balance_row c =
    let net = pos c.debit_cents -ℤ pos c.credit_cents in
    record {
      account_number = c.account_number;
      label = c.label;
      total_debit = c.debit_cents;
      total_credit = c.credit_cents;
      debit_balance = max_ℤ net (pos 0);
      credit_balance = max_ℤ (neg net) (pos 0);
    }

abbrev pub balance_rows : List Cell → List BalanceRow
balance_rows [] = []
balance_rows (c ∷ cells) = balance_row c ∷ balance_rows cells

abbrev pub no_sums : Sums
no_sums = record { cells = []; ledger = []; total_debit = 0; total_credit = 0 }

unfoldable pub projection : Db → ℕ → Option Text → Bool → Outcome Error Projection
unfolding get_year selected order_rows add_rows order_cells
projection db year_id account include_ledger = do
  year ← get_year db year_id false
  let s = add_rows include_ledger account no_sums (order_rows (selected year_id account db.entries))
  ok (record {
    fiscal_year_id = year_id;
    total_debit = s.total_debit;
    total_credit = s.total_credit;
    balanced = s.total_debit == s.total_credit;
    balance = balance_rows (order_cells s.cells);
    ledger = s.ledger;
  })
