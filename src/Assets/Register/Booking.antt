-- ===== src/Assets/Register/Booking.antt =====
-- `gross_pieces` of backend/app/services/assets.py, and `_ledger_gross`, `_snapshot`, `booking_of`,
-- `require_schedule_booked` and `year_asset_booking` of backend/app/services/asset_registration.py.
use solo_lmnp.Prelude.{ℕ, ◌==◌, ◌&&◌, none, some, List, [], ◌∷◌, ◌++◌, if◌then◌else◌}
use solo_lmnp.Prelude.Int.{ℤ, pos, ◌-ℤ◌}
use solo_lmnp.Prelude.Text.{Text, mem_text}
use solo_lmnp.Prelude.Outcome.{Outcome, ok, err}
use solo_lmnp.Ledger.State.{Line, Entry, FiscalYear}
use solo_lmnp.Ledger.Service.{is_validated}
use solo_lmnp.Assets.Plan.{Schedule}
use solo_lmnp.Assets.Registration.{RegisterPiece, Fix, add_gross, registration_gap}
use solo_lmnp.Assets.Register.State.{
  Asset, Component, Estate, AssetError, not_booked, components_of,
}
use solo_lmnp.Assets.Register.Create.{is_given, total_value}

abbrev pub component_pieces : ℕ → List Component → List RegisterPiece
component_pieces day [] = []
component_pieces day (c ∷ rest) =
    record { account = c.asset_account; cents = pos c.value; acquired = day }
    ∷ component_pieces day rest

abbrev pub remainder_pieces : Asset → ℕ → List RegisterPiece
remainder_pieces asset used =
    if used == asset.acquisition_value
    then []
    else record {
      account = asset.asset_account;
      cents = pos asset.acquisition_value -ℤ pos used;
      acquired = asset.acquisition_date;
    }
      ∷ []

-- The components first, then what they leave of the asset.
unfoldable pub gross_pieces : List Component → Asset → List RegisterPiece
unfolding components_of ◌-ℤ◌
gross_pieces components asset =
    let own = components_of asset.id components in
    component_pieces asset.acquisition_date own ++ remainder_pieces asset (total_value own)

unfoldable pub pieces_of : List Component → List Asset → List RegisterPiece
unfolding gross_pieces
pieces_of components [] = []
pieces_of components (asset ∷ rest) =
    let more = pieces_of components rest in
    if is_given asset.disposed_at then more else gross_pieces components asset ++ more

abbrev pub accounts_of : List RegisterPiece → List Text
accounts_of [] = []
accounts_of (p ∷ rest) = p.account ∷ accounts_of rest

-- The lines of the accounts, debit less credit.
unfoldable pub add_lines : List Text → List Line → List (Text × ℤ) → List (Text × ℤ)
unfolding add_gross ◌-ℤ◌
add_lines accounts [] totals = totals
add_lines accounts (l ∷ rest) totals = add_lines accounts rest (
    if mem_text l.account_number accounts
    then add_gross l.account_number (pos l.debit -ℤ pos l.credit) totals
    else totals)

unfoldable pub ledger_gross : ℕ → List Text → List Entry → List (Text × ℤ) → List (Text × ℤ)
unfolding add_lines
ledger_gross year_id accounts [] totals = totals
ledger_gross year_id accounts (e ∷ rest) totals = ledger_gross year_id accounts rest (
    if e.fiscal_year_id == year_id && is_validated e.status
    then add_lines accounts e.lines totals
    else totals)

pub record Snapshot : Type 0 where
  pub pieces : List RegisterPiece
  pub ledger : List (Text × ℤ)
  pub year_start : ℕ
  pub year_end : ℕ

unfoldable pub snapshot : Estate → FiscalYear → Snapshot
unfolding pieces_of ledger_gross
snapshot e year =
    let pieces = pieces_of e.components e.assets in
    record {
      pieces = pieces;
      ledger = ledger_gross year.id (accounts_of pieces) e.db.entries [];
      year_start = year.start_date;
      year_end = year.end_date;
    }

unfoldable pub booking_of : Snapshot → Text → Fix
booking_of s account =
    (registration_gap s.pieces s.ledger s.year_end s.year_start (some (account ∷ []))).1

unfoldable pub year_fix : Snapshot → Fix
year_fix s = (registration_gap s.pieces s.ledger s.year_end s.year_start none).1

abbrev pub require_fix : Fix → Outcome AssetError (Unit {0})
require_fix Fix.ok = ok tt
require_fix Fix.entry = err (not_booked Fix.entry)
require_fix Fix.journal = err (not_booked Fix.journal)

unfoldable pub require_schedule_booked :
    Estate → Schedule → FiscalYear → Outcome AssetError (Unit {0})
unfolding snapshot booking_of
require_schedule_booked e s year = require_fix (booking_of (snapshot e year) s.asset_account)
