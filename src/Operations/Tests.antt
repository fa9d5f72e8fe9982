-- ===== src/Operations/Tests.antt =====
-- A small world: an invoice that is issued, sent twice, and settled in two payments.
use mathlib.Core.Bool.{xor}
use solo_lmnp.Prelude.{ℕ, ◌≡◌, refl, Bool, true, Option, none, some, List, [], ◌∷◌, arith}
use solo_lmnp.Prelude.Int.{pos, ◌-ℤ◌}
use solo_lmnp.Prelude.Text.{Text, codes}
use solo_lmnp.Prelude.Outcome.{Outcome, ok, err}
use solo_lmnp.Ledger.State.{year_open, bank, sales, asset, income, EntryInput, Clock}
use solo_lmnp.Ledger.Service.{create_draft}
use solo_lmnp.Ledger.Post.{post_draft, post_entry}
use solo_lmnp.Ledger.Reversal.{model_validate, mem_id}
use solo_lmnp.Ledger.Sourced.{sourced, post_sourced}
use solo_lmnp.Operations.State.{
  Operation, World, OperationInput, SettlementInput, Payload, of_operation, of_settlement,
  OperationError, idempotency_conflict, find_transaction, find_match, find_operation, revenue,
}
use solo_lmnp.Prelude.{false, ◌↔◌}
use solo_lmnp.Operations.Loans.{
  property_entry, funding, choose_posting_path, funding_before_entry_refused,
  entry_outstanding_allowed, choose_posting_path-allowed,
}
use solo_lmnp.Operations.Bank.{account, match, unmatch}
use solo_lmnp.Operations.Service.{
  replay, counter_account, post_business, new_operation, create_operation, lines_on,
}
use solo_lmnp.Operations.Settle.{new_settlement, settle, cancel}
use solo_lmnp.Operations.Routes.{
  Action, create_one, settle_one, cancel_one, match_one, unmatch_one, perform, perform_one, act,
}
use solo_lmnp.Operations.Settled.{IsBooks}
use solo_lmnp.Operations.Books.{perform-IsBooks}
use solo_lmnp.Operations.Remembered.{submit-remembered}
use solo_lmnp.Operations.Served.{submit}

abbrev any_fields : EntryInput → Bool
any_fields input = true

-- A digest that tells amounts apart.
abbrev amount_digest : Payload → Text
amount_digest (of_operation input) = input.amount ∷ []
amount_digest (of_settlement parent_id input) = input.amount ∷ []

abbrev new_books : World
new_books = record {
  db = record {
    years =
        record { id = 1; year = 2026; start_date = 100; end_date = 464; status = year_open } ∷ [];
    journals =
        record { code = codes "BQ"; label = codes "Banque"; journal_type = bank; active = true }
        ∷ record { code = codes "VE"; label = codes "Ventes"; journal_type = sales; active = true }
        ∷ [];
    accounts =
        record {
          number = codes "512000";
          label = codes "Banques";
          account_type = asset;
          active = true;
        }
        ∷ record {
          number = codes "411000";
          label = codes "Clients";
          account_type = asset;
          active = true;
        }
        ∷ record {
          number = codes "706000";
          label = codes "Loyers";
          account_type = income;
          active = true;
        }
        ∷ [];
    entries = [];
    events = [];
    next_id = 1;
    matched = [];
  };
  properties = 7 ∷ [];
  banks = record { id = 1; account_number = codes "512000" } ∷ [];
  loans = [];
  transactions = record { id = 5; bank_account_id = 1; date = 130; amount = pos 50000 } ∷ [];
  matches = [];
  operations = [];
  next_operation = 1;
}

none_found : (k : ℕ) (o : Operation) → find_operation k [] ≡ some o → ⊥
unfolding find_operation
none_found k o h = cc

new_books-IsBooks : IsBooks new_books
new_books-IsBooks = record {
  ledger = record {
    fresh = tt;
    rows = tt;
    numbers = λ y k. ground arith;
    reversed_once = λ k. omega arith;
  };
  in_order = tt;
  settled = λ k o f. absurd (none_found k o f);
}

abbrev invoice : ℕ → OperationInput
invoice amount = record {
  request_id = codes "R1";
  is_revenue = true;
  property_id = 7;
  fiscal_year_id = 1;
  date = 120;
  piece_date = 120;
  piece_reference = codes "F1";
  amount = amount;
  description = codes "Loyer";
  counterparty = codes "Locataire";
  accounting_account = codes "706000";
  bank_account_id = none;
  deductible_percentage = 10000;
  fiscal_treatment = codes "REQUIRES_REVIEW";
  bank_transaction_id = none;
}

abbrev payment : Text → ℕ → Option ℕ → SettlementInput
payment request amount transaction_id = record {
  request_id = request;
  fiscal_year_id = 1;
  date = 130;
  piece_reference = codes "P1";
  amount = amount;
  bank_account_id = 1;
  bank_transaction_id = transaction_id;
}

abbrev at : ℕ → Clock
at t = record { today = 200; now = t }

abbrev value_of : Outcome OperationError (Operation × World) → Option (Operation × World)
value_of (ok r) = some r
value_of (err e) = none

abbrev world_of : World → Outcome OperationError (Operation × World) → World
world_of w (ok r) = r.1
world_of w (err e) = w

abbrev row_of : Operation → List Operation → Operation
row_of o [] = o
row_of o (x ∷ xs) = x

abbrev no_row : Operation
no_row = record {
  id = 0;
  request_id = [];
  request_hash = [];
  kind = revenue;
  property_id = 0;
  fiscal_year_id = 0;
  date = 0;
  amount = 0;
  description = [];
  counterparty = [];
  accounting_account = [];
  bank_account_id = none;
  parent_id = none;
  loan_id = none;
  accounting_entry_id = 0;
  deductible_basis_points = 0;
  fiscal_treatment = [];
}

abbrev invoiced : World
invoiced =
    world_of new_books (create_operation any_fields amount_digest (at 1) new_books (invoice 70000))

abbrev invoiced_row : Operation
invoiced_row = row_of no_row invoiced.operations

issues_invoice :
    create_operation any_fields amount_digest (at 1) new_books (invoice 70000)
    ≡ ok (invoiced_row, invoiced)
unfolding create_operation new_operation post_business replay account counter_account post_sourced
    model_validate create_draft post_entry post_draft sourced match xor mem_id
issues_invoice = refl

-- The first payment is matched with its bank movement, the second is above what is left and is
-- refused, and the invoice is not cancelled while a payment of it stands.
abbrev actions : List (Clock × Action)
actions =
    (at 1, create_one (invoice 70000))
    ∷ (at 2, settle_one 1 (payment (codes "S1") 50000 (some 5)))
    ∷ (at 3, settle_one 1 (payment (codes "S2") 30000 none))
    ∷ (
      at 4,
      cancel_one 1
          (record { accounting_date = 140; piece_reference = codes "X1"; reason = codes "erreur" }),
    )
    ∷ (at 5, unmatch_one 5 (codes "erreur"))
    ∷ (at 6, match_one 5 2 1)
    ∷ (at 7, settle_one 1 (payment (codes "S3") 20000 none))
    ∷ []

abbrev amounts_of : List Operation → List ℕ
amounts_of [] = []
amounts_of (o ∷ rest) = o.amount ∷ amounts_of rest

perform_amounts :
    let w = perform any_fields amount_digest new_books actions in
    ((amounts_of w.operations ≡ 70000 ∷ 50000 ∷ 20000 ∷ []) × (w.db.matched ≡ 2 ∷ []))
unfolding perform perform_one act create_operation new_operation post_business replay account
    counter_account post_sourced model_validate create_draft post_entry post_draft sourced match xor
    mem_id settle new_settlement cancel unmatch find_transaction find_match ◌-ℤ◌ lines_on
perform_amounts = (refl, refl)

perform-IsBooks_example : IsBooks (perform any_fields amount_digest new_books actions)
perform-IsBooks_example =
    perform-IsBooks any_fields amount_digest new_books actions new_books-IsBooks

-- What happens after the invoice is issued.
abbrev later_actions : List (Clock × Action)
later_actions =
    (at 2, settle_one 1 (payment (codes "S1") 50000 (some 5)))
    ∷ (at 3, create_one (invoice 80000))
    ∷ (at 4, unmatch_one 5 (codes "erreur"))
    ∷ []

-- The reference of the invoice is not free for a payment of another digest.
submit-remembered_example :
    let w' = perform any_fields amount_digest invoiced later_actions in
    submit any_fields amount_digest (at 9) w' (of_settlement 1 (payment (codes "R1") 20000 none))
    ≡ err idempotency_conflict
submit-remembered_example =
    submit-remembered any_fields amount_digest (at 1) (at 9) new_books
      (of_operation (invoice 70000)) (of_settlement 1 (payment (codes "R1") 20000 none))
      (invoiced_row, invoiced) later_actions issues_invoice refl

choose_posting_path-allowed_example :
    (choose_posting_path 50 (some 100) false ≡ funding
      ↔ funding_before_entry_refused 50 100 false ≡ false)
    × (choose_posting_path 50 (some 100) false ≡ property_entry
        → entry_outstanding_allowed 50 100 ≡ true)
choose_posting_path-allowed_example = choose_posting_path-allowed 50 100 false
