-- ===== src/Operations/State.antt =====
-- The tables of backend/app/models/operations.py beside those of the ledger, the inputs of
-- backend/app/api/operation_schemas.py, and the errors of the service.
--
-- The lines of an entry have no ids of their own here: a line is its entry and its position.
use solo_lmnp.Prelude.{ℕ, ◌==◌, Bool, Option, none, some, List, [], ◌∷◌, if◌then◌else◌}
use solo_lmnp.Prelude.Int.{ℤ}
use solo_lmnp.Prelude.Text.{Text, codes, same_text}
use solo_lmnp.Prelude.Outcome.{Outcome, ok, err}
use solo_lmnp.Ledger.State.{Db, Error}

pub data Kind : Type 0 where
  revenue expense settlement loan_payment loan_funding : Kind

abbrev pub kind_text : Kind → Text
kind_text revenue = codes "REVENUE"
kind_text expense = codes "EXPENSE"
kind_text settlement = codes "SETTLEMENT"
kind_text loan_payment = codes "LOAN_PAYMENT"
kind_text loan_funding = codes "LOAN_FUNDING"

pub record BankAccount : Type 0 where
  pub id : ℕ
  pub account_number : Text

pub record Loan : Type 0 where
  pub id : ℕ
  pub principal_account : Text

-- The four parts of a loan payment are left out.
pub record Operation : Type 0 where
  pub id : ℕ
  pub request_id : Text
  pub request_hash : Text
  pub kind : Kind
  pub property_id : ℕ
  pub fiscal_year_id : ℕ
  pub date : ℕ
  pub amount : ℕ
  pub description : Text
  pub counterparty : Text
  pub accounting_account : Text
  pub bank_account_id : Option ℕ
  pub parent_id : Option ℕ
  pub loan_id : Option ℕ
  pub accounting_entry_id : ℕ
  pub deductible_basis_points : ℕ
  pub fiscal_treatment : Text

pub record Transaction : Type 0 where
  pub id : ℕ
  pub bank_account_id : ℕ
  pub date : ℕ
  pub amount : ℤ

pub record BankMatch : Type 0 where
  pub transaction_id : ℕ
  pub entry_id : ℕ
  pub position : ℕ

pub record World : Type 0 where
  pub db : Db
  pub properties : List ℕ
  pub banks : List BankAccount
  pub loans : List Loan
  pub transactions : List Transaction
  pub matches : List BankMatch
  pub operations : List Operation
  pub next_operation : ℕ

pub record OperationInput : Type 0 where
  pub request_id : Text
  pub is_revenue : Bool
  pub property_id : ℕ
  pub fiscal_year_id : ℕ
  pub date : ℕ
  pub piece_date : ℕ
  pub piece_reference : Text
  pub amount : ℕ
  pub description : Text
  pub counterparty : Text
  pub accounting_account : Text
  pub bank_account_id : Option ℕ
  pub deductible_percentage : ℕ
  pub fiscal_treatment : Text
  pub bank_transaction_id : Option ℕ

pub record SettlementInput : Type 0 where
  pub request_id : Text
  pub fiscal_year_id : ℕ
  pub date : ℕ
  pub piece_reference : Text
  pub amount : ℕ
  pub bank_account_id : ℕ
  pub bank_transaction_id : Option ℕ

-- What `digest` is taken of.
pub data Payload : Type 0 where
  of_operation : OperationInput → Payload
  of_settlement : ℕ → SettlementInput → Payload

-- `integrity` is the refusal of the database: a line may be matched once.
pub data OperationError : Type 0 where
  in_ledger : Error → OperationError
  account_kind bank_not_found property_not_found idempotency_conflict : OperationError
  operation_not_found settlement_exceeds bank_required bank_line_ambiguous : OperationError
  match_not_found match_inconsistent already_matched not_matched line_not_found : OperationError
  reversal_date settlements_exist loan_payments_exist integrity : OperationError

abbrev pub lift {ℓ} : {A : Type ℓ} → Outcome Error A → Outcome OperationError A
lift (ok a) = ok a
lift (err e) = err (in_ledger e)

-- `session.get` of a row by its key.
unfoldable pub find_bank : ℕ → List BankAccount → Option BankAccount
find_bank k [] = none
find_bank k (b ∷ rest) = if b.id == k then some b else find_bank k rest

unfoldable pub find_loan : ℕ → List Loan → Option Loan
find_loan k [] = none
find_loan k (l ∷ rest) = if l.id == k then some l else find_loan k rest

unfoldable pub find_transaction : ℕ → List Transaction → Option Transaction
find_transaction k [] = none
find_transaction k (t ∷ rest) = if t.id == k then some t else find_transaction k rest

unfoldable pub find_match : ℕ → List BankMatch → Option BankMatch
find_match k [] = none
find_match k (m ∷ rest) = if m.transaction_id == k then some m else find_match k rest

unfoldable pub find_operation : ℕ → List Operation → Option Operation
find_operation k [] = none
find_operation k (o ∷ rest) = if o.id == k then some o else find_operation k rest

-- `select ... where request_id == id`
unfoldable pub find_request : Text → List Operation → Option Operation
find_request r [] = none
find_request r (o ∷ rest) = if same_text o.request_id r then some o else find_request r rest
