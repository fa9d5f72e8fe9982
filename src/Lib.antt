-- ===== src/Lib.antt =====
-- SoloLMNP keeps the accounts of a French furnished rental (LMNP) and computes its tax result.
-- This library models the parts of it that carry the law of the books: the ledger, the operations
-- that write to it, the plans of the assets, the tax engine, and the trust that an output may
-- claim.
--
-- The ledger (backend/app/services/ledger.py, with the tables of backend/app/models/ledger.py and
-- the routes of backend/app/api/ledger.py):
--   Ledger/State.antt: the tables as records (FiscalYear, Journal, Account, Line, Entry,
--     Event, Db) and the values of a request; `find_*`, `save` and `remove` are the session's
--     reads and writes of a row.
--   Ledger/Service.antt: get_year, get_entry, check_draft, check_input, create_draft,
--     replace_draft and the deletion of a draft. Ledger/Post.antt: post_entry.
--     Ledger/Reversal.antt: reverse_entry.
--   Ledger/Routes.antt: a request that writes an entry, an account or a journal, its handler, and
--     `serve`, the run of a list of requests.
--   Ledger/Step.antt: what a write may do to the tables, as a relation; Table, Checks,
--     Refines, Posting and Serve relate the handlers to it. Invariant and Preserved: sound
--     ledgers. History: validated entries, and years that are not open. Audit, with its
--     children: the rows of the log, read again. Mirror: reversals.
--   Ledger/Projection.antt: `projection`, the trial balance and the ledger that are shown. Its
--     children Totals, Balanced, Running and Listed: what they hold.
--   Ledger/Sourced.antt: the pattern by which the other services write an entry: validate the
--     input, create a draft, note its source, post it. Sourced/Posted: what that gives.
--
-- The operations (backend/app/services/operations.py, with the tables of
-- backend/app/models/operations.py and the routes of backend/app/api/operations.py):
--   Operations/State.antt: the tables beside those of the ledger, as one World, and the
--     inputs. Operations/Bank.antt: account, bank, reversed_entry, match and unmatch.
--     Operations/Service.antt: remaining, replay, line, post_business and create_operation.
--     Operations/Settle.antt: settle, principal_balance and cancel. Operations/Loans.antt:
--     backend/app/domain/loans/posting.py. Operations/Routes.antt: the routes, and `perform`,
--     the run of a list of them.
--   Writes and Settled: what an action does to the ledger and to the settlements. Kept and
--     Books: sound books. Replay, Served and Remembered: requests sent again.
--
-- The tax engine (backend/app/domain/fiscal/engine.py):
--   Fiscal/Engine.antt: Stock, Movement, FiscalSplit, the loops of _consume and
--     _expire_losses, and apply_lmnp. Consume, Expiry and Split: their laws.
--
-- The blocked rules (backend/app/domain/fiscal/blocks.py):
--   Fiscal/Blocks.antt: ACCOUNT_RULES, DISPOSAL_RULES and triggered_rule_ids.
--     Fiscal/Blocked.antt: which rules are triggered.
--
-- The trust of an output (backend/app/domain/fiscal/output_status.py):
--   Fiscal/Validation.antt: load_validation, is_validated, rules_version and rules_aligned
--     over the JSON of Prelude/Json.antt.
--   Fiscal/Trust.antt: resolve_trust, the postures and classify. Fiscal/Exports.antt:
--     align_controlled_exports. Fiscal/Stamp.antt: apply_output_status. Trust/Postures,
--     Exports/Aligned and Stamp/Restamp: their laws.
--
-- The account pairs of fixed assets (backend/app/domain/assets/accounts.py) and their plans
-- (backend/app/services/assets.py):
--   Assets/Accounts.antt: category_of_account, mirror_depreciation_account and the two
--     validations. Accounts/Pairs: what is accepted.
--   Assets/Plan.antt: add_months and the amounts of calculate_year. Plan/Amounts: the amounts
--     of a plan.
--   Assets/Registration.antt: registration_gap (backend/app/domain/assets/registration.py).
--     Registration/Covered: what it compares.
--   Assets/Register/State.antt: the tables of backend/app/models/assets.py beside those of the
--     ledger, as one Estate, and the inputs. Assets/Register/Create.antt: create_asset and
--     create_component. Assets/Register/Schedules.antt: ensure_schedules and calculate_year.
--     Assets/Register/Booking.antt: gross_pieces, and
--     backend/app/services/asset_registration.py. Assets/Register/Posting.antt: post_period and
--     post_period_batch. Assets/Register/Routes.antt: the routes, and `run`, the run of a list
--     of them and of requests to the ledger.
--   Register/Sound, Rows, Kept, Planned, Posted, Batches, Run and Replayed: sound registers,
--     and what is posted twice.
--
-- The FEC (backend/app/domain/filing/fec.py):
--   Filing/Fec.antt: fec_text, _row, _format, _money, _amount, and the reading of lines and
--     cells by validate_fec. Fec/Cells, Rows and Money: what is written and read again.
--
-- The closing of a year (backend/app/services/result_closing.py over statements.py):
--   Closing/Central.antt: ledger_income, and _closing_lines. Central/Balanced: what the lines
--     settle.
--
-- How the code is rendered. Amounts are whole cents: the debit and credit of a line are natural
-- numbers, since the schema and the table refuse others, and the amounts of the engine are
-- integers. Dates and time stamps are only compared, so they are ordinals. An exception is the
-- `err` of Prelude/Outcome.antt, and a request that raises leaves the database as it was, since
-- its transaction is rolled back. A request holds the one write lock, so requests run one after
-- another. The amounts of a reversal pass through their decimal text and back in the source; here
-- they are the same numbers. The decimal text of a number is written with as much fuel as the
-- number is large, plus one: each step divides it by ten.
--
-- Parameters stand for what is not in the source: the field constraints of pydantic
-- (`fields_valid`), the files of a vintage, Python's Unicode tests and `date.fromisoformat`, the
-- SHA-256 of a payload or of a lot (`digest`, `fingerprint`), and the lengths of the months
-- (`Calendar`). A line of an entry has no id of its own: it is named by its entry and its
-- position. The quotient of a plan is rounded half up from its exact value; the 28 digits of a
-- Decimal leave no difference, since a quotient by a number of days is half a cent or far from
-- it.
--
-- Not modelled: the JSON answers, error messages and other wording, `created_at`, the triggers of
-- the migrations, authentication and ownership of rows, files, PDF and spreadsheet output, the CSV
-- import, the activity and its years, inventory entries, opening balances, the entry of a property,
-- the corrections of assets, the checks and the order of the FEC, the liasse, the payments of loans,
-- tenants, the rest of the closing of a year and the user interface.
pub mod Prelude
pub mod Fiscal
pub mod Ledger
pub mod Assets
pub mod Operations
pub mod Filing
pub mod Closing
