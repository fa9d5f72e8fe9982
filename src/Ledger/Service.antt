-- ===== src/Ledger/Service.antt =====
-- backend/app/services/ledger.py: drafts, posting and reversal.
use solo_lmnp.Prelude.{
  ℕ, ◌+◌, ◌-◌, ◌^◌, Bool, true, false, ◌&&◌, ◌||◌, not, Option, none, some, List, [], ◌∷◌, ◌++◌,
  ◌==◌, leb, if◌then◌else◌,
}
use solo_lmnp.Prelude.Text.{Text, codes}
use solo_lmnp.Prelude.Outcome.{Outcome, ok, err, ◌>>=◌, ◌>>◌, guard}
use solo_lmnp.Ledger.State.{
  EntryStatus, draft, validated, YearStatus, year_open, FiscalYear, Journal, Account, Line, Entry,
  EventAction, draft_created, draft_updated, draft_deleted, Details, entry_change, Db, LineInput,
  EntryInput, Error, year_not_found, year_locked, entry_not_found, version_conflict,
  already_validated, date_outside_year, inactive_journal, inactive_account, find_year, find_journal,
  find_account, find_entry, save, remove,
}

-- backend/app/core/money.py
abbrev pub max_cents : ℕ
max_cents = 2 ^ 63 - 1

abbrev pub is_open : YearStatus → Bool
is_open year_open = true
is_open _ = false

abbrev pub is_validated : EntryStatus → Bool
is_validated validated = true
is_validated draft = false

abbrev pub found : {A : Type 0} → Option A → Error → Outcome Error A
found none e = err e
found (some a) e = ok a

abbrev pub is_none : {A : Type 0} → Option A → Bool
is_none none = true
is_none (some _) = false

unfoldable pub get_year : Db → ℕ → Bool → Outcome Error FiscalYear
unfolding find_year
get_year db year_id writable = do
  year ← found (find_year year_id db.years) year_not_found
  guard (not writable || is_open year.status) year_locked
  ok year

unfoldable pub get_entry : Db → ℕ → Outcome Error Entry
unfolding find_entry
get_entry db entry_id = found (find_entry entry_id db.entries) entry_not_found

unfoldable pub check_draft : Entry → ℕ → Outcome Error (Unit {0})
check_draft entry version = do
  guard (entry.version == version) version_conflict
  guard (not (is_validated entry.status)) already_validated

-- `row is None or not row.active`, for a journal and for an account.
abbrev pub active_row : {A : Type 0} → Option A → (A → Bool) → Error → Outcome Error A
active_row none active e = err e
active_row (some a) active e = if active a then ok a else err e

unfoldable pub active_journal : Db → Text → Outcome Error Journal
unfolding find_journal
active_journal db code = active_row (find_journal code db.journals) (λ j. j.active) inactive_journal

unfoldable pub active_account : Db → Text → Outcome Error Account
unfolding find_account
active_account db number =
    active_row (find_account number db.accounts) (λ a. a.active) inactive_account

abbrev pub within : FiscalYear → ℕ → Bool
within year day = leb year.start_date day && leb day year.end_date

-- The loop over the accounts of the lines. (The source goes through the set of their numbers.)
unfoldable pub check_accounts : Db → List LineInput → Outcome Error (Unit {0})
unfolding active_account
check_accounts db [] = ok tt
check_accounts db (line ∷ lines) = do
  account ← active_account db line.account_number
  check_accounts db lines

unfoldable pub check_input : Db → EntryInput → Outcome Error (Unit {0})
unfolding get_year active_journal check_accounts
check_input db input = do
  year ← get_year db input.fiscal_year_id true
  guard (within year input.accounting_date) date_outside_year
  journal ← active_journal db input.journal_code
  check_accounts db input.lines

-- `enumerate(data.lines, 1)`
unfoldable pub entry_lines : ℕ → List LineInput → List Line
entry_lines index [] = []
entry_lines index (line ∷ lines) =
    record {
      position = index;
      account_number = line.account_number;
      label = line.label;
      debit = line.debit;
      credit = line.credit;
      account_label = none;
    }
    ∷ entry_lines (index + 1) lines

unfoldable pub apply_input : Entry → EntryInput → Entry
unfolding entry_lines
apply_input entry input = record entry {
  fiscal_year_id = input.fiscal_year_id;
  journal_code = input.journal_code;
  accounting_date = input.accounting_date;
  piece_reference = input.piece_reference;
  piece_date = input.piece_date;
  label = input.label;
  lines = entry_lines 1 input.lines;
}

-- `AccountingEntry()` with the defaults of its columns.
abbrev pub new_entry : ℕ → Entry
new_entry k = record {
  id = k;
  fiscal_year_id = 0;
  journal_code = [];
  entry_number = none;
  sequence = none;
  accounting_date = 0;
  piece_reference = [];
  piece_date = 0;
  label = [];
  source_type = codes "MANUAL";
  source_id = none;
  status = draft;
  version = 1;
  validated_at = none;
  reversal_of_id = none;
  journal_label = none;
  lines = [];
}

-- `event`: one more row of the audit log.
unfoldable pub log : EventAction → Option ℕ → Details → Db → Db
log action entry_id details db = record db {
  events = db.events ++ (record { entry_id = entry_id; action = action; details = details } ∷ []);
}

unfoldable pub create_draft : Db → EntryInput → Outcome Error (Entry × Db)
unfolding check_input apply_input log
create_draft db input = do
  check_input db input
  let entry = apply_input (new_entry db.next_id) input
  let stored = record db { entries = db.entries ++ (entry ∷ []); next_id = db.next_id + 1 }
  ok (entry, log draft_created (some entry.id) (entry_change none (some entry)) stored)

unfoldable pub replace_draft : Db → Entry → EntryInput → ℕ → Outcome Error (Entry × Db)
unfolding check_draft get_year check_input apply_input save log
replace_draft db entry input version = do
  check_draft entry version
  year ← get_year db entry.fiscal_year_id true
  check_input db input
  let changed = apply_input entry input
  let after = record changed { version = entry.version + 1 }
  ok (
    after,
    log draft_updated (some after.id) (entry_change (some entry) (some after))
        (record db { entries = save after db.entries }),
  )

-- The route that deletes a draft.
unfoldable pub delete_draft : Db → Entry → ℕ → Outcome Error Db
unfolding check_draft get_year remove log
delete_draft db entry version = do
  check_draft entry version
  year ← get_year db entry.fiscal_year_id true
  let logged = log draft_deleted (some entry.id) (entry_change (some entry) none) db
  ok (record logged { entries = remove entry.id logged.entries })
