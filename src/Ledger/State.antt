-- ===== src/Ledger/State.antt =====
-- The tables of backend/app/models/ledger.py that the ledger service reads and writes, and the
-- values of backend/app/api/ledger_schemas.py that it is given.
--
-- Money is whole cents: a debit or credit is not negative (`parse_money` and the table's check),
-- so it is a natural number. A date or a time stamp is only compared, so it is its ordinal.
-- `fail` raises, and the transaction of the request is rolled back: a failed action has no state.
use solo_lmnp.Prelude.{ℕ, Bool, Option, none, some, List, [], ◌∷◌, ◌==◌, if◌then◌else◌}
use solo_lmnp.Prelude.Text.{Text, same_text}

pub data EntryStatus : Type 0 where
  draft validated : EntryStatus

pub data YearStatus : Type 0 where
  year_open ready_to_close closed : YearStatus

pub record FiscalYear : Type 0 where
  pub id : ℕ
  pub year : ℕ
  pub start_date : ℕ
  pub end_date : ℕ
  pub status : YearStatus

pub data JournalType : Type 0 where
  general bank sales purchase opening : JournalType

pub data AccountType : Type 0 where
  asset liability equity expense income : AccountType

pub record Journal : Type 0 where
  pub code : Text
  pub label : Text
  pub journal_type : JournalType
  pub active : Bool

pub record Account : Type 0 where
  pub number : Text
  pub label : Text
  pub account_type : AccountType
  pub active : Bool

pub record Line : Type 0 where
  pub position : ℕ
  pub account_number : Text
  pub label : Text
  pub debit : ℕ
  pub credit : ℕ
  pub account_label : Option Text

pub record Entry : Type 0 where
  pub id : ℕ
  pub fiscal_year_id : ℕ
  pub journal_code : Text
  pub entry_number : Option Text
  pub sequence : Option ℕ
  pub accounting_date : ℕ
  pub piece_reference : Text
  pub piece_date : ℕ
  pub label : Text
  pub source_type : Text
  pub source_id : Option Text
  pub status : EntryStatus
  pub version : ℕ
  pub validated_at : Option ℕ
  pub reversal_of_id : Option ℕ
  pub journal_label : Option Text
  pub lines : List Line

pub data EventAction : Type 0 where
  draft_created draft_updated draft_deleted entry_validated entry_reversed : EventAction
  account_created account_active_changed journal_created journal_active_changed : EventAction
  business_posted business_reversed bank_matched bank_unmatched depreciation_batch : EventAction

-- The details of a row of the audit log: an entry before and after, a reversal with its reason, a
-- new row of the chart or of the journals, a switch of `active`, or the number of an operation or
-- of a bank transaction with a text.
pub data Details : Type 0 where
  entry_change : Option Entry → Option Entry → Details
  reversal_details : ℕ → Text → Details
  account_row : Account → Details
  journal_row : Journal → Details
  switch_details : Text → Bool → Bool → Details
  operation_details : ℕ → Text → Details
  match_details : ℕ → Text → Details

pub record Event : Type 0 where
  pub entry_id : Option ℕ
  pub action : EventAction
  pub details : Details

-- `matched` lists the entries with a line in a `BankMatch`; `next_id` is SQLite's AUTOINCREMENT.
pub record Db : Type 0 where
  pub years : List FiscalYear
  pub journals : List Journal
  pub accounts : List Account
  pub entries : List Entry
  pub events : List Event
  pub next_id : ℕ
  pub matched : List ℕ

pub record LineInput : Type 0 where
  pub account_number : Text
  pub label : Text
  pub debit : ℕ
  pub credit : ℕ

pub record EntryInput : Type 0 where
  pub fiscal_year_id : ℕ
  pub journal_code : Text
  pub accounting_date : ℕ
  pub piece_reference : Text
  pub piece_date : ℕ
  pub label : Text
  pub lines : List LineInput

pub record ReversalInput : Type 0 where
  pub accounting_date : ℕ
  pub piece_reference : Text
  pub reason : Text

-- `utc_now()`: its date and its time stamp.
pub record Clock : Type 0 where
  pub today : ℕ
  pub now : ℕ

-- The codes of `fail`; `invalid_input` is pydantic's refusal of a value.
pub data Error : Type 0 where
  year_not_found year_locked entry_not_found version_conflict already_validated : Error
  date_outside_year inactive_journal inactive_account future_date too_few_lines : Error
  unbalanced total_too_large clock_regression business_reversal_required : Error
  bank_match_exists not_validated reversal_chain already_reversed invalid_input : Error
  account_exists account_not_found journal_exists journal_not_found : Error

-- `session.get` of a row by its key.
unfoldable pub find_year : ℕ → List FiscalYear → Option FiscalYear
find_year k [] = none
find_year k (y ∷ ys) = if y.id == k then some y else find_year k ys

unfoldable pub find_journal : Text → List Journal → Option Journal
find_journal k [] = none
find_journal k (j ∷ js) = if same_text j.code k then some j else find_journal k js

unfoldable pub find_account : Text → List Account → Option Account
find_account k [] = none
find_account k (a ∷ rest) = if same_text a.number k then some a else find_account k rest

unfoldable pub find_entry : ℕ → List Entry → Option Entry
find_entry k [] = none
find_entry k (e ∷ es) = if e.id == k then some e else find_entry k es

-- The flush of a changed row, and of a deleted one.
unfoldable pub save : Entry → List Entry → List Entry
save e [] = []
save e (x ∷ es) = if x.id == e.id then e ∷ es else x ∷ save e es

unfoldable pub remove : ℕ → List Entry → List Entry
remove k [] = []
remove k (x ∷ es) = if x.id == k then es else x ∷ remove k es
