-- ===== src/Operations/Settle.antt =====
-- `settle`, `cancel` and `principal_balance` of backend/app/services/operations.py.
use solo_lmnp.Prelude.{
  ℕ, zero, suc, ltb, Bool, true, false, ◌&&◌, ◌||◌, not, Option, none, some, List, [], ◌∷◌, ◌++◌,
  ◌==◌, if◌then◌else◌,
}
use solo_lmnp.Prelude.Int.{ℤ, pos, ◌+ℤ◌, ◌-ℤ◌, ltb_ℤ}
use solo_lmnp.Prelude.Text.{Text, codes, same_text}
use solo_lmnp.Prelude.Outcome.{Outcome, ok, err, ◌>>=◌, ◌>>◌, guard}
use solo_lmnp.Ledger.State.{
  Line, Entry, EntryInput, ReversalInput, Clock, business_reversed, operation_details,
}
use solo_lmnp.Ledger.Service.{get_entry, is_validated, log}
use solo_lmnp.Ledger.Reversal.{reverse_entry}
use solo_lmnp.Operations.State.{
  Kind, revenue, expense, settlement, loan_payment, loan_funding, Loan, Operation, BankMatch, World,
  SettlementInput, Payload, of_settlement, OperationError, operation_not_found, settlement_exceeds,
  reversal_date, settlements_exist, loan_payments_exist, lift, find_loan, find_operation,
}
use solo_lmnp.Operations.Bank.{bank, given, unmatch}
use solo_lmnp.Operations.Service.{
  is_live_child, remaining, replay, line, Posting, is_revenue_kind, post_business, once,
}

abbrev pub is_settled_kind : Kind → Bool
is_settled_kind revenue = true
is_settled_kind expense = true
is_settled_kind settlement = false
is_settled_kind loan_payment = false
is_settled_kind loan_funding = false

-- `text[:n]`
abbrev pub take : ℕ → Text → Text
take zero t = []
take (suc n) [] = []
take (suc n) (c ∷ t) = c ∷ take n t

-- The operation that is settled: a revenue or an expense.
abbrev pub settled_parent : Option Operation → Outcome OperationError Operation
settled_parent none = err operation_not_found
settled_parent (some parent) =
    if is_settled_kind parent.kind then ok parent else err operation_not_found

abbrev pub control_account : Operation → Text
control_account parent = if is_revenue_kind parent.kind then codes "411000" else codes "401000"

abbrev pub settlement_label : Operation → Text
settlement_label parent = codes "Règlement : " ++ take 280 parent.description

abbrev pub settlement_posting : Text → Operation → SettlementInput → Text → Posting
settlement_posting hash parent input number = record {
  request_id = input.request_id;
  hash = hash;
  kind = settlement;
  property_id = parent.property_id;
  year_id = input.fiscal_year_id;
  day = input.date;
  piece_date = input.date;
  piece = input.piece_reference;
  description = settlement_label parent;
  amount = input.amount;
  accounting_account = control_account parent;
  lines =
      if is_revenue_kind parent.kind
      then line number input.amount 0 (settlement_label parent)
        ∷ line (control_account parent) 0 input.amount (settlement_label parent)
        ∷ []
      else line (control_account parent) input.amount 0 (settlement_label parent)
        ∷ line number 0 input.amount (settlement_label parent)
        ∷ [];
  bank_id = some input.bank_account_id;
  bank_transaction_id = input.bank_transaction_id;
  counterparty = [];
  parent_id = some parent.id;
  deductible = 10000;
  fiscal_treatment = codes "REQUIRES_REVIEW";
}

-- What validated entries, generated openings apart, credit less debit to an account.
abbrev pub balance_of : Text → List Line → ℤ
balance_of number [] = pos 0
balance_of number (l ∷ rest) =
    (if same_text l.account_number number then pos l.credit -ℤ pos l.debit else pos 0)
    +ℤ balance_of number rest

unfoldable pub account_balance : Text → List Entry → ℤ
account_balance number [] = pos 0
account_balance number (e ∷ es) =
    (if is_validated e.status && not (same_text e.source_type (codes "OPENING"))
      then balance_of number e.lines
      else pos 0)
    +ℤ account_balance number es

unfoldable pub principal_balance : World → Loan → ℤ
unfolding account_balance
principal_balance w loan = account_balance loan.principal_account w.db.entries

-- A drawdown is not cancelled once some of it is repaid.
abbrev pub is_repaid : World → Operation → Option Loan → Bool
is_repaid w row none = true
is_repaid w row (some loan) = ltb_ℤ (principal_balance w loan) (pos row.amount)

abbrev pub loan_of : World → Option ℕ → Option Loan
loan_of w none = none
loan_of w (some loan_id) = find_loan loan_id w.loans

abbrev pub funding_blocks : World → Operation → Kind → Bool
funding_blocks w row loan_funding = is_repaid w row (loan_of w row.loan_id)
funding_blocks w row revenue = false
funding_blocks w row expense = false
funding_blocks w row settlement = false
funding_blocks w row loan_payment = false

abbrev pub any_live_child : List Entry → ℕ → List Operation → Bool
any_live_child entries k [] = false
any_live_child entries k (o ∷ rest) = is_live_child entries k o || any_live_child entries k rest

abbrev pub matches_of : ℕ → List BankMatch → List BankMatch
matches_of k [] = []
matches_of k (m ∷ rest) = if m.entry_id == k then m ∷ matches_of k rest else matches_of k rest

unfoldable pub unmatch_all : World → Text → List BankMatch → Outcome OperationError World
unmatch_all w reason [] = ok w
unmatch_all w reason (m ∷ rest) = do
  next ← unmatch w m.transaction_id reason
  unmatch_all next reason rest

module _ (fields_valid : EntryInput → Bool) where
  unfoldable pub cancel : Clock → World → ℕ → ReversalInput → Outcome OperationError (Entry × World)
  unfolding find_operation find_loan principal_balance unmatch_all
  cancel clock w operation_id input = do
    row ← given (find_operation operation_id w.operations) operation_not_found
    guard (not (ltb input.accounting_date row.date)) reversal_date
    guard (not (any_live_child w.db.entries row.id w.operations)) settlements_exist
    guard (not (funding_blocks w row row.kind)) loan_payments_exist
    entry ← lift (get_entry w.db row.accounting_entry_id)
    freed ← unmatch_all w input.reason (matches_of entry.id w.matches)
    reversal ← lift (reverse_entry fields_valid clock freed.db entry input true)
    ok (
      reversal.0,
      record freed {
        db =
            log business_reversed (some entry.id) (operation_details row.id input.reason)
              reversal.1;
      },
    )

  module _ (digest : Payload → Text) where
    unfoldable pub new_settlement :
        Clock → World → ℕ → SettlementInput → Outcome OperationError (Operation × World)
    unfolding find_operation remaining
    new_settlement clock w parent_id input = do
      parent ← settled_parent (find_operation parent_id w.operations)
      guard (not (ltb input.date parent.date || ltb_ℤ (remaining w parent) (pos input.amount)))
          settlement_exceeds
      row ← bank w input.bank_account_id
      post_business fields_valid clock w (
          settlement_posting (digest (of_settlement parent_id input)) parent input
            row.account_number)

    unfoldable pub settle :
        Clock → World → ℕ → SettlementInput → Outcome OperationError (Operation × World)
    settle clock w parent_id input = do
      old ← replay w input.request_id (digest (of_settlement parent_id input))
      once w old (new_settlement clock w parent_id input)
