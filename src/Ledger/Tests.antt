-- ===== src/Ledger/Tests.antt =====
-- A small ledger: a year, a journal and two accounts, a sale that is posted and reversed.
use mathlib.Core.Bool.{xor}
use solo_lmnp.Prelude.{ℕ, ◌≡◌, refl, Bool, true, false, Option, none, some, List, [], ◌∷◌, arith}
use solo_lmnp.Prelude.Text.{Text, codes}
use solo_lmnp.Prelude.Outcome.{Outcome, ok, err}
use solo_lmnp.Ledger.State.{
  validated, year_open, closed, general, asset, income, FiscalYear, Entry, Db, EntryInput,
  ReversalInput, Clock, find_entry, find_year, Error, draft_created, entry_validated,
  entry_reversed,
}
use solo_lmnp.Ledger.Service.{
  create_draft, apply_input, new_entry, get_entry, replace_draft, delete_draft,
}
use solo_lmnp.Ledger.Post.{post_draft, post_entry}
use solo_lmnp.Ledger.Reversal.{
  check_reversal, linked, reversal_payload, model_validate, reverse_entry,
}
use solo_lmnp.Ledger.Routes.{
  Request, create, validate, reverse, edit, delete, handle, serve_one, serve,
}
use solo_lmnp.Ledger.Invariant.{IsLedger}
use solo_lmnp.Ledger.Preserved.{serve-IsLedger, serve-Steps}
use solo_lmnp.Ledger.Step.{Steps}
use solo_lmnp.Ledger.Sourced.{sourced, post_sourced}
use solo_lmnp.Ledger.Sourced.Posted.{IsSourced, post_sourced-IsSourced}
use solo_lmnp.Ledger.History.{entries_of, IsLocked, serve-keeps_validated, serve-keeps_locked_year}
use solo_lmnp.Ledger.Audit.{Tells}
use solo_lmnp.Ledger.Audit.Served.{owed_all, serve-Tells}
use solo_lmnp.Prelude.Int.{ℤ, pos, ◌-ℤ◌}
use solo_lmnp.Ledger.Projection.{LedgerRow, Projection, projection}
use solo_lmnp.Ledger.Projection.Listed.{IsListed, projection-IsListed}
use solo_lmnp.Ledger.Projection.Balanced.{IsBalance, projection-IsBalance}
use solo_lmnp.Ledger.Mirror.{IsMirror, post_entry_idem, reverse_entry-IsMirror}

abbrev any_fields : EntryInput → Bool
any_fields input = true

abbrev year_2026 : FiscalYear
year_2026 = record { id = 1; year = 2026; start_date = 100; end_date = 464; status = year_open }

abbrev year_2025 : FiscalYear
year_2025 = record { id = 2; year = 2025; start_date = 0; end_date = 99; status = closed }

abbrev empty_db : Db
empty_db = record {
  years = year_2026 ∷ year_2025 ∷ [];
  journals =
      record { code = codes "OD"; label = codes "Divers"; journal_type = general; active = true }
      ∷ [];
  accounts =
      record {
        number = codes "512000";
        label = codes "Banques";
        account_type = asset;
        active = true;
      }
      ∷ record {
        number = codes "706000";
        label = codes "Ventes";
        account_type = income;
        active = true;
      }
      ∷ [];
  entries = [];
  events = [];
  next_id = 1;
  matched = [];
}

empty_db-IsLedger : IsLedger empty_db
empty_db-IsLedger = record {
  fresh = tt;
  rows = tt;
  numbers = λ y k. ground arith;
  reversed_once = λ k. omega arith;
}

abbrev sale : ℕ → EntryInput
sale credit = record {
  fiscal_year_id = 1;
  journal_code = codes "OD";
  accounting_date = 120;
  piece_reference = codes "Q1";
  piece_date = 120;
  label = codes "Loyer";
  lines =
      record { account_number = codes "512000"; label = codes "Loyer"; debit = 70000; credit = 0 }
      ∷ record {
        account_number = codes "706000";
        label = codes "Loyer";
        debit = 0;
        credit = credit;
      }
      ∷ [];
}

abbrev at : ℕ → Clock
at t = record { today = 200; now = t }

abbrev correction : ReversalInput
correction = record { accounting_date = 130; piece_reference = codes "X1"; reason = codes "erreur" }

abbrev first_requests : List (Clock × Request)
first_requests = (at 1, create (sale 70000)) ∷ (at 2, validate 1 1) ∷ []

abbrev more_requests : List (Clock × Request)
more_requests =
    (at 3, create (sale 69999))
    ∷ (at 4, validate 2 1)
    ∷ (at 5, delete 1 2)
    ∷ (at 6, edit 1 (sale 1) 2)
    ∷ (at 7, reverse 1 correction)
    ∷ (at 8, reverse 1 correction)
    ∷ []

abbrev posted_sale : Entry
posted_sale = record {
  id = 1;
  fiscal_year_id = 1;
  journal_code = codes "OD";
  entry_number = some (codes "2026-000001");
  sequence = some 1;
  accounting_date = 120;
  piece_reference = codes "Q1";
  piece_date = 120;
  label = codes "Loyer";
  source_type = codes "MANUAL";
  source_id = none;
  status = validated;
  version = 2;
  validated_at = some 2;
  reversal_of_id = none;
  journal_label = some (codes "Divers");
  lines =
      record {
        position = 1;
        account_number = codes "512000";
        label = codes "Loyer";
        debit = 70000;
        credit = 0;
        account_label = some (codes "Banques");
      }
      ∷ record {
        position = 2;
        account_number = codes "706000";
        label = codes "Loyer";
        debit = 0;
        credit = 70000;
        account_label = some (codes "Ventes");
      }
      ∷ [];
}

abbrev db_1 : Db
db_1 = serve any_fields empty_db first_requests

sale_posted : find_entry 1 db_1.entries ≡ some posted_sale
unfolding serve serve_one handle model_validate create_draft get_entry post_entry post_draft xor
sale_posted = refl

db_1-IsLedger : IsLedger db_1
db_1-IsLedger = serve-IsLedger any_fields empty_db first_requests empty_db-IsLedger

abbrev entry_numbers : List Entry → List (Option Text)
entry_numbers [] = []
entry_numbers (e ∷ es) = e.entry_number ∷ entry_numbers es

-- The unbalanced draft stays a draft, the deletion, the edition and the second reversal are refused.
reversal_posted :
    let d = serve any_fields db_1 more_requests in
    (entry_numbers d.entries ≡ some (codes "2026-000001") ∷ none ∷ some (codes "2026-000002") ∷ [])
unfolding serve serve_one handle model_validate create_draft get_entry post_entry post_draft
    delete_draft replace_draft reverse_entry check_reversal linked reversal_payload xor
reversal_posted = refl

serve-IsLedger_example : IsLedger (serve any_fields db_1 more_requests)
serve-IsLedger_example = serve-IsLedger any_fields db_1 more_requests db_1-IsLedger

serve-keeps_validated_example :
    find_entry 1 (serve any_fields db_1 more_requests).entries ≡ some posted_sale
serve-keeps_validated_example =
    serve-keeps_validated any_fields db_1 more_requests 1 posted_sale db_1-IsLedger sale_posted refl

year_2025-IsLocked : IsLocked db_1 2
unfolding find_year serve serve_one handle model_validate create_draft get_entry post_entry
    post_draft xor
year_2025-IsLocked = record { row = year_2025; found_row = refl; not_open = λ e. cc }

serve-keeps_locked_year_example :
    entries_of 2 (serve any_fields db_1 more_requests).entries ≡ entries_of 2 db_1.entries
serve-keeps_locked_year_example =
    serve-keeps_locked_year any_fields db_1 more_requests 2 db_1-IsLedger year_2025-IsLocked

-- Of the six requests, the creation of a draft and the first reversal are served.
owed_rows :
    owed_all any_fields db_1 more_requests
    ≡ (draft_created, some 2)
      ∷ (draft_created, some 3)
      ∷ (entry_validated, some 3)
      ∷ (entry_reversed, some 1)
      ∷ []
unfolding serve serve_one handle model_validate create_draft get_entry post_entry post_draft
    delete_draft replace_draft reverse_entry check_reversal linked reversal_payload xor
owed_rows = refl

serve-Tells_example :
    Tells (owed_all any_fields db_1 more_requests) db_1 (serve any_fields db_1 more_requests)
serve-Tells_example = serve-Tells any_fields db_1 more_requests

year_2026-found : find_year 1 db_1.years ≡ some year_2026
unfolding find_year serve serve_one handle model_validate create_draft get_entry post_entry
    post_draft xor
year_2026-found = refl

projection-IsBalance_example :
    (p : Projection) × (projection db_1 1 none true ≡ ok p) × IsBalance db_1 1 p
projection-IsBalance_example =
    projection-IsBalance db_1 1 true year_2026 db_1-IsLedger year_2026-found

-- The ledger of the bank account after the sale and its reversal.
abbrev two_balances : List LedgerRow → List ℤ
two_balances [] = []
two_balances (r ∷ rows) = r.balance ∷ two_balances rows

abbrev bank_ledger : Outcome Error Projection → List ℤ
bank_ledger (ok p) = two_balances p.ledger
bank_ledger (err e) = []

abbrev db_2 : Db
db_2 = serve any_fields db_1 more_requests

bank_balances :
    bank_ledger (projection db_2 1 (some (codes "512000")) true) ≡ pos 70000 ∷ pos 0 ∷ []
unfolding projection ◌-ℤ◌ serve serve_one handle model_validate create_draft get_entry post_entry
    post_draft delete_draft replace_draft reverse_entry check_reversal linked reversal_payload xor
bank_balances = refl

projection-IsListed_example :
    (p : Projection) × (projection db_1 1 (some (codes "512000")) true ≡ ok p)
    × IsListed db_1 1 (some (codes "512000")) p
projection-IsListed_example =
    projection-IsListed db_1 1 (some (codes "512000")) year_2026 year_2026-found

abbrev value_of : Outcome Error (Entry × Db) → Entry × Db
value_of (ok r) = r
value_of (err e) = (posted_sale, empty_db)

abbrev db_0 : Db
db_0 = serve_one any_fields (at 1) empty_db (create (sale 70000))

abbrev first_draft : Entry
first_draft = apply_input (new_entry 1) (sale 70000)

abbrev first_posting : Entry × Db
first_posting = value_of (post_entry (at 2) db_0 first_draft 1)

posts_first : post_entry (at 2) db_0 first_draft 1 ≡ ok first_posting
unfolding serve_one handle model_validate create_draft post_entry post_draft apply_input xor
posts_first = refl

post_entry_idem_example : post_entry (at 11) first_posting.1 first_posting.0 3 ≡ ok first_posting
post_entry_idem_example =
    post_entry_idem (at 2) (at 11) db_0 first_draft 1 3 first_posting posts_first

abbrev reversed : Entry × Db
reversed = value_of (reverse_entry any_fields (at 7) db_1 posted_sale correction false)

reverses : reverse_entry any_fields (at 7) db_1 posted_sale correction false ≡ ok reversed
unfolding serve serve_one handle model_validate create_draft get_entry post_entry post_draft
    reverse_entry check_reversal linked reversal_payload xor
reverses = refl

reverse_entry-IsMirror_example : IsMirror posted_sale reversed.0
reverse_entry-IsMirror_example =
    reverse_entry-IsMirror any_fields (at 7) db_1 posted_sale correction false reversed reverses

serve-Steps_example : Steps db_1 (serve any_fields db_1 more_requests)
serve-Steps_example = serve-Steps any_fields db_1 more_requests db_1-IsLedger

abbrev booked : Entry × Db
booked =
    value_of (post_sourced any_fields (codes "REVENUE") (codes "R1") (at 2) empty_db (sale 70000))

books_sale :
    post_sourced any_fields (codes "REVENUE") (codes "R1") (at 2) empty_db (sale 70000) ≡ ok booked
unfolding post_sourced model_validate create_draft sourced post_entry post_draft xor
books_sale = refl

post_sourced-IsSourced_example :
    IsSourced (codes "REVENUE") (codes "R1") empty_db (sale 70000) booked
post_sourced-IsSourced_example =
    post_sourced-IsSourced any_fields (codes "REVENUE") (codes "R1") (at 2) empty_db (sale 70000)
      booked tt books_sale
