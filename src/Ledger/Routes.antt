-- ===== src/Ledger/Routes.antt =====
-- The routes of backend/app/api/ledger.py that create, edit, delete, validate or reverse an entry, and
-- those that create or switch an account or a journal: one request, one transaction. A refused
-- request leaves the database as it was. The routes of the activity, of years, of the inventory, of
-- the opening, of the centralisation and of the appropriation are not modelled.
use solo_lmnp.Prelude.{ℕ, Bool, true, false, none, List, [], ◌∷◌, ◌++◌, if◌then◌else◌}
use solo_lmnp.Prelude.Text.{Text, same_text}
use solo_lmnp.Prelude.Outcome.{Outcome, ok, err, ◌>>=◌, ◌>>◌, guard}
use solo_lmnp.Ledger.State.{
  Account, Journal, AccountType, JournalType, account_created, account_active_changed,
  journal_created, journal_active_changed, account_row, journal_row, switch_details, Db, EntryInput,
  ReversalInput, Clock, account_exists, account_not_found, journal_exists, journal_not_found,
  find_account, find_journal, Error,
}
use solo_lmnp.Ledger.Service.{
  get_entry, create_draft, replace_draft, delete_draft, log, found, is_none,
}
use solo_lmnp.Ledger.Post.{post_entry}
use solo_lmnp.Ledger.Reversal.{model_validate, reverse_entry}

pub data Request : Type 0 where
  create : EntryInput → Request
  edit : ℕ → EntryInput → ℕ → Request
  delete : ℕ → ℕ → Request
  validate : ℕ → ℕ → Request
  reverse : ℕ → ReversalInput → Request
  create_account : Text → Text → AccountType → Request
  account_active : Text → Bool → Request
  create_journal : Text → Text → JournalType → Request
  journal_active : Text → Bool → Request

unfoldable pub set_account_active : Text → Bool → List Account → List Account
set_account_active number active [] = []
set_account_active number active (a ∷ rest) =
    if same_text a.number number
    then record a { active = active } ∷ rest
    else a ∷ set_account_active number active rest

unfoldable pub set_journal_active : Text → Bool → List Journal → List Journal
set_journal_active code active [] = []
set_journal_active code active (j ∷ rest) =
    if same_text j.code code
    then record j { active = active } ∷ rest
    else j ∷ set_journal_active code active rest

unfoldable pub add_account : Db → Text → Text → AccountType → Outcome Error Db
unfolding find_account log
add_account db number label account_type = do
  guard (is_none (find_account number db.accounts)) account_exists
  let row : Account = record {
    number = number;
    label = label;
    account_type = account_type;
    active = true;
  }
  let stored = record db { accounts = db.accounts ++ (row ∷ []) }
  ok (log account_created none (account_row row) stored)

unfoldable pub switch_account : Db → Text → Bool → Outcome Error Db
unfolding find_account set_account_active log
switch_account db number active = do
  row ← found (find_account number db.accounts) account_not_found
  let stored = record db { accounts = set_account_active number active db.accounts }
  ok (log account_active_changed none (switch_details number row.active active) stored)

unfoldable pub add_journal : Db → Text → Text → JournalType → Outcome Error Db
unfolding find_journal log
add_journal db code label journal_type = do
  guard (is_none (find_journal code db.journals)) journal_exists
  let row : Journal = record {
    code = code;
    label = label;
    journal_type = journal_type;
    active = true;
  }
  let stored = record db { journals = db.journals ++ (row ∷ []) }
  ok (log journal_created none (journal_row row) stored)

unfoldable pub switch_journal : Db → Text → Bool → Outcome Error Db
unfolding find_journal set_journal_active log
switch_journal db code active = do
  row ← found (find_journal code db.journals) journal_not_found
  let stored = record db { journals = set_journal_active code active db.journals }
  ok (log journal_active_changed none (switch_details code row.active active) stored)

module _ (fields_valid : EntryInput → Bool) where
  unfoldable pub handle : Clock → Db → Request → Outcome Error Db
  handle clock db (create input) = do
    data' ← model_validate fields_valid input
    done ← create_draft db data'
    ok done.1
  handle clock db (edit entry_id input version) = do
    data' ← model_validate fields_valid input
    row ← get_entry db entry_id
    done ← replace_draft db row data' version
    ok done.1
  handle clock db (delete entry_id version) = do
    row ← get_entry db entry_id
    delete_draft db row version
  handle clock db (validate entry_id version) = do
    row ← get_entry db entry_id
    done ← post_entry clock db row version
    ok done.1
  handle clock db (reverse entry_id data') = do
    row ← get_entry db entry_id
    done ← reverse_entry fields_valid clock db row data' false
    ok done.1
  handle clock db (create_account number label account_type) =
      add_account db number label account_type
  handle clock db (account_active number active) = switch_account db number active
  handle clock db (create_journal code label journal_type) = add_journal db code label journal_type
  handle clock db (journal_active code active) = switch_journal db code active

  -- A request that raises is rolled back.
  unfoldable pub serve_one : Clock → Db → Request → Db
  serve_one clock db request = elim (handle clock db request) [ ok db' ↦ db' | err e ↦ db ]

  -- Requests one after another, each at its own time: every write takes one lock.
  unfoldable pub serve : Db → List (Clock × Request) → Db
  serve db [] = db
  serve db ((clock, request) ∷ requests) = serve (serve_one clock db request) requests
