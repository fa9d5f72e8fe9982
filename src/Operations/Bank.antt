-- ===== src/Operations/Bank.antt =====
-- `account`, `bank`, `match` and `unmatch` of backend/app/services/operations.py.
use solo_lmnp.Prelude.{
  ℕ, ◌==◌, Bool, true, false, ◌&&◌, ◌||◌, not, Option, none, some, List, [], ◌∷◌, ◌++◌,
  if◌then◌else◌,
}
use solo_lmnp.Prelude.Int.{pos, ◌-ℤ◌, eqb_ℤ}
use solo_lmnp.Prelude.Text.{Text, codes, same_text, starts_with}
use solo_lmnp.Prelude.Outcome.{Outcome, ok, err, ◌>>=◌, ◌>>◌, guard}
use solo_lmnp.Ledger.State.{
  FiscalYear, Account, Line, Entry, Db, find_account, find_entry, bank_matched, bank_unmatched,
  match_details,
}
use solo_lmnp.Ledger.Service.{get_year, is_validated, within, log}
use solo_lmnp.Ledger.Reversal.{names}
use solo_lmnp.Operations.State.{
  BankAccount, Transaction, BankMatch, World, OperationError, account_kind, bank_not_found,
  match_not_found, match_inconsistent, already_matched, not_matched, line_not_found, integrity,
  lift, find_bank, find_transaction, find_match,
}

abbrev pub of_kind : Text → Text → Option Account → Outcome OperationError Account
of_kind number prefix none = err account_kind
of_kind number prefix (some row) =
    if row.active && starts_with prefix number then ok row else err account_kind

unfoldable pub account : Db → Text → Text → Outcome OperationError Account
unfolding find_account
account db number prefix = of_kind number prefix (find_account number db.accounts)

abbrev pub given {ℓ} : {A : Type ℓ} → Option A → OperationError → Outcome OperationError A
given none e = err e
given (some a) e = ok a

unfoldable pub bank : World → ℕ → Outcome OperationError BankAccount
unfolding find_bank account
bank w bank_id = do
  row ← given (find_bank bank_id w.banks) bank_not_found
  found ← account w.db row.account_number (codes "512")
  ok row

-- `reversed_entry`: a validated entry reverses this one.
unfoldable pub reversed_in : ℕ → List Entry → Bool
reversed_in k [] = false
reversed_in k (e ∷ es) = (is_validated e.status && names k e.reversal_of_id) || reversed_in k es

unfoldable pub find_line : ℕ → List Line → Option Line
find_line k [] = none
find_line k (l ∷ rest) = if l.position == k then some l else find_line k rest

-- The entry of a line, and the line.
abbrev pub line_of : ℕ → Option Entry → Option (Entry × Line)
line_of position none = none
line_of position (some e) = elim (find_line position e.lines) [ none ↦ none | some l ↦ some (e, l) ]

unfoldable pub find_entry_line : Db → ℕ → ℕ → Option (Entry × Line)
unfolding find_entry find_line
find_entry_line db entry_id position = line_of position (find_entry entry_id db.entries)

-- The condition under which a movement and a line may be matched.
unfoldable pub is_consistent : Db → FiscalYear → Text → Transaction → Entry → Line → Bool
unfolding reversed_in
is_consistent db year number transaction entry row =
    is_validated entry.status
    && (not (reversed_in entry.id db.entries)
        && (same_text row.account_number number
            && (eqb_ℤ (pos row.debit -ℤ pos row.credit) transaction.amount
                && (within year transaction.date && (entry.accounting_date == transaction.date)))))

abbrev pub line_matched : ℕ → ℕ → List BankMatch → Bool
line_matched e p [] = false
line_matched e p (m ∷ rest) = (m.entry_id == e && m.position == p) || line_matched e p rest

-- The new row and its event; the entry has a matched line from now on.
unfoldable pub record_match : World → ℕ → ℕ → ℕ → World
unfolding log
record_match w transaction_id entry_id position = record w {
  matches =
      w.matches
      ++ (record { transaction_id = transaction_id; entry_id = entry_id; position = position }
          ∷ []);
  db =
      log bank_matched (some entry_id) (match_details transaction_id [])
        (record (w.db) { matched = w.db.matched ++ (entry_id ∷ []) });
}

-- A movement that is matched already.
abbrev pub keep_or_match : World → ℕ → ℕ → ℕ → Option BankMatch → Outcome OperationError World
keep_or_match w transaction_id entry_id position none =
    if line_matched entry_id position w.matches
    then err integrity
    else ok (record_match w transaction_id entry_id position)
keep_or_match w transaction_id entry_id position (some old) =
    if old.entry_id == entry_id && old.position == position then ok w else err already_matched

unfoldable pub match : World → ℕ → ℕ → ℕ → Outcome OperationError World
unfolding find_transaction find_entry_line bank is_consistent find_match record_match
match w transaction_id entry_id position = do
  transaction ← given (find_transaction transaction_id w.transactions) match_not_found
  found ← given (find_entry_line w.db entry_id position) match_not_found
  year ← lift (get_year w.db found.0.fiscal_year_id true)
  row ← bank w transaction.bank_account_id
  guard (is_consistent w.db year row.account_number transaction found.0 found.1) match_inconsistent
  keep_or_match w transaction_id entry_id position (find_match transaction_id w.matches)

unfoldable pub drop_match : ℕ → List BankMatch → List BankMatch
drop_match k [] = []
drop_match k (m ∷ rest) = if m.transaction_id == k then rest else m ∷ drop_match k rest

unfoldable pub drop_one : ℕ → List ℕ → List ℕ
drop_one k [] = []
drop_one k (j ∷ rest) = if j == k then rest else j ∷ drop_one k rest

unfoldable pub unmatch : World → ℕ → Text → Outcome OperationError World
unfolding find_match find_entry_line drop_match drop_one log
unmatch w transaction_id reason = do
  row ← given (find_match transaction_id w.matches) not_matched
  found ← given (find_entry_line w.db row.entry_id row.position) line_not_found
  year ← lift (get_year w.db found.0.fiscal_year_id true)
  let logged = log bank_unmatched (some found.0.id) (match_details transaction_id reason) w.db
  ok (record w {
    matches = drop_match transaction_id w.matches;
    db = record logged { matched = drop_one row.entry_id w.db.matched };
  })
