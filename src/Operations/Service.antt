-- ===== src/Operations/Service.antt =====
-- `remaining`, `replay`, `post_business`, `create_operation`, `settle` and `cancel` of
-- backend/app/services/operations.py.
--
-- `digest` stands for the SHA-256 of a payload, and `fields_valid` for pydantic's own constraints on
-- an entry.
use solo_lmnp.Prelude.{
  ℕ, ◌+◌, Bool, true, false, ◌&&◌, ◌||◌, not, Option, none, some, List, [], ◌∷◌, ◌++◌,
  if◌then◌else◌,
}
use solo_lmnp.Prelude.Int.{ℤ, pos, ◌-ℤ◌}
use solo_lmnp.Prelude.Text.{Text, codes, same_text}
use solo_lmnp.Prelude.Outcome.{Outcome, ok, err, ◌>>=◌, ◌>>◌, guard}
use solo_lmnp.Ledger.State.{
  Line, Entry, Db, LineInput, EntryInput, Clock, business_posted, operation_details,
}
use solo_lmnp.Ledger.Service.{log}
use solo_lmnp.Ledger.Reversal.{names, mem_id}
use solo_lmnp.Ledger.Sourced.{post_sourced}
use solo_lmnp.Operations.State.{
  Kind, revenue, expense, settlement, loan_payment, loan_funding, kind_text, Operation, World,
  OperationInput, Payload, of_operation, OperationError, property_not_found, idempotency_conflict,
  bank_required, bank_line_ambiguous, lift, find_request,
}
use solo_lmnp.Operations.Bank.{account, bank, reversed_in, match}

-- A settlement of the operation whose entry is not reversed.
abbrev pub is_live_child : List Entry → ℕ → Operation → Bool
is_live_child entries k o = names k o.parent_id && not (reversed_in o.accounting_entry_id entries)

unfoldable pub used : List Entry → ℕ → List Operation → ℕ
unfolding reversed_in
used entries k [] = 0
used entries k (o ∷ rest) =
    (if is_live_child entries k o then o.amount else 0) + used entries k rest

abbrev pub is_some {ℓ} : {A : Type ℓ} → Option A → Bool
is_some none = false
is_some (some a) = true

unfoldable pub remaining : World → Operation → ℤ
unfolding reversed_in used
remaining w row =
    if is_some row.bank_account_id || reversed_in row.accounting_entry_id w.db.entries
    then pos 0
    else pos row.amount -ℤ pos (used w.db.entries row.id w.operations)

-- A request that was served before.
abbrev pub same_payload : Text → Option Operation → Outcome OperationError (Option Operation)
same_payload hash none = ok none
same_payload hash (some old) =
    if same_text old.request_hash hash then ok (some old) else err idempotency_conflict

unfoldable pub replay : World → Text → Text → Outcome OperationError (Option Operation)
unfolding find_request
replay w request_id hash = same_payload hash (find_request request_id w.operations)

abbrev pub line : Text → ℕ → ℕ → Text → LineInput
line number debit credit label = record {
  account_number = number;
  label = label;
  debit = debit;
  credit = credit;
}

-- The arguments of `post_business`.
pub record Posting : Type 0 where
  pub request_id : Text
  pub hash : Text
  pub kind : Kind
  pub property_id : ℕ
  pub year_id : ℕ
  pub day : ℕ
  pub piece_date : ℕ
  pub piece : Text
  pub description : Text
  pub amount : ℕ
  pub accounting_account : Text
  pub lines : List LineInput
  pub bank_id : Option ℕ
  pub bank_transaction_id : Option ℕ
  pub counterparty : Text
  pub parent_id : Option ℕ
  pub deductible : ℕ
  pub fiscal_treatment : Text

abbrev pub is_revenue_kind : Kind → Bool
is_revenue_kind revenue = true
is_revenue_kind expense = false
is_revenue_kind settlement = false
is_revenue_kind loan_payment = false
is_revenue_kind loan_funding = false

abbrev pub entry_of : Posting → EntryInput
entry_of p = record {
  fiscal_year_id = p.year_id;
  journal_code =
      if is_some p.bank_id
      then codes "BQ"
      else if is_revenue_kind p.kind
      then codes "VE"
      else codes "AC";
  accounting_date = p.day;
  piece_date = p.piece_date;
  piece_reference = p.piece;
  label = p.description;
  lines = p.lines;
}

abbrev pub operation_of : ℕ → ℕ → Posting → Operation
operation_of id entry_id p = record {
  id = id;
  request_id = p.request_id;
  request_hash = p.hash;
  kind = p.kind;
  property_id = p.property_id;
  fiscal_year_id = p.year_id;
  date = p.day;
  amount = p.amount;
  description = p.description;
  counterparty = p.counterparty;
  accounting_account = p.accounting_account;
  bank_account_id = p.bank_id;
  parent_id = p.parent_id;
  loan_id = none;
  accounting_entry_id = entry_id;
  deductible_basis_points = p.deductible;
  fiscal_treatment = p.fiscal_treatment;
}

unfoldable pub lines_on : Text → List Line → List Line
lines_on number [] = []
lines_on number (l ∷ rest) =
    if same_text l.account_number number then l ∷ lines_on number rest else lines_on number rest

abbrev pub only_one : List Line → Outcome OperationError Line
only_one [] = err bank_line_ambiguous
only_one (l ∷ []) = ok l
only_one (l ∷ m ∷ rest) = err bank_line_ambiguous

-- The bank movement of a posting is matched with the one line of its bank account.
abbrev pub match_payment : World → Entry → Option ℕ → Option ℕ → Outcome OperationError World
match_payment w entry bank_id none = ok w
match_payment w entry none (some transaction_id) = err bank_required
match_payment w entry (some bank_id) (some transaction_id) = do
  row ← bank w bank_id
  candidate ← only_one (lines_on row.account_number entry.lines)
  match w transaction_id entry.id candidate.position

-- The rows of the entry and of the operation.
abbrev pub stored_operation : World → Posting → Entry × Db → World
stored_operation w p posted = record w {
  db = posted.1;
  operations = w.operations ++ (operation_of w.next_operation posted.0.id p ∷ []);
  next_operation = w.next_operation + 1;
}

-- A request that was served before gives its row again.
abbrev pub once :
    World
    → Option Operation
    → Outcome OperationError (Operation × World)
    → Outcome OperationError (Operation × World)
once w none fresh = fresh
once w (some old) fresh = ok (old, w)

-- The account on the other side: the bank, or the customers or suppliers.
unfoldable pub counter_account : World → OperationInput → Outcome OperationError Text
counter_account w input = elim input.bank_account_id [
  | some bank_id ↦ (bank w bank_id >>= λ row. ok row.account_number)
  | none ↦ ok (if input.is_revenue then codes "411000" else codes "401000")
]

abbrev pub counter_prefix : OperationInput → Text
counter_prefix input =
    if is_some input.bank_account_id
    then codes "512"
    else if input.is_revenue
    then codes "411"
    else codes "401"

abbrev pub operation_posting : Text → OperationInput → Text → Posting
operation_posting hash input number = record {
  request_id = input.request_id;
  hash = hash;
  kind = if input.is_revenue then revenue else expense;
  property_id = input.property_id;
  year_id = input.fiscal_year_id;
  day = input.date;
  piece_date = input.piece_date;
  piece = input.piece_reference;
  description = input.description;
  amount = input.amount;
  accounting_account = input.accounting_account;
  lines =
      if input.is_revenue
      then line number input.amount 0 input.description
        ∷ line input.accounting_account 0 input.amount input.description
        ∷ []
      else line input.accounting_account input.amount 0 input.description
        ∷ line number 0 input.amount input.description
        ∷ [];
  bank_id = input.bank_account_id;
  bank_transaction_id = input.bank_transaction_id;
  counterparty = input.counterparty;
  parent_id = none;
  deductible = input.deductible_percentage;
  fiscal_treatment = input.fiscal_treatment;
}

module _ (fields_valid : EntryInput → Bool) where
  unfoldable pub post_business :
      Clock → World → Posting → Outcome OperationError (Operation × World)
  post_business clock w p = do
    guard (mem_id p.property_id w.properties) property_not_found
    posted ←
        lift (post_sourced fields_valid (kind_text p.kind) p.request_id clock w.db (entry_of p))
    let row = operation_of w.next_operation posted.0.id p
    matched ← match_payment (stored_operation w p posted) posted.0 p.bank_id p.bank_transaction_id
    ok (
      row,
      record matched {
        db =
            log business_posted (some posted.0.id) (operation_details row.id (kind_text p.kind))
              matched.db;
      },
    )

module _ (fields_valid : EntryInput → Bool) (digest : Payload → Text) where
  unfoldable pub new_operation :
      Clock → World → OperationInput → Outcome OperationError (Operation × World)
  new_operation clock w input = do
    charged ←
        account w.db input.accounting_account (if input.is_revenue then codes "7" else codes "6")
    number ← counter_account w input
    checked ← account w.db number (counter_prefix input)
    post_business fields_valid clock w
        (operation_posting (digest (of_operation input)) input number)

  unfoldable pub create_operation :
      Clock → World → OperationInput → Outcome OperationError (Operation × World)
  create_operation clock w input = do
    old ← replay w input.request_id (digest (of_operation input))
    once w old (new_operation clock w input)
