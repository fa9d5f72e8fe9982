-- ===== src/Assets/Register/Routes.antt =====
-- The routes of backend/app/api/assets.py that write, beside those of the ledger, and runs of them. A
-- request that fails leaves the tables as they were.
--
-- The corrections of backend/app/services/structuring.py, the entry of a property and the plan of a
-- dwelling are left out.
use solo_lmnp.Prelude.{ℕ, Bool, List, [], ◌∷◌}
use solo_lmnp.Prelude.Text.{Text}
use solo_lmnp.Prelude.Outcome.{Outcome, ok, err, ◌>>=◌}
use solo_lmnp.Ledger.State.{EntryInput, Clock}
use solo_lmnp.Ledger.Routes.{Request, serve_one}
use solo_lmnp.Assets.Plan.{Calendar}
use solo_lmnp.Assets.Register.State.{
  Estate, AssetInput, ComponentInput, DepreciationPostInput, BatchItem, AssetError,
}
use solo_lmnp.Assets.Register.Create.{create_asset, create_component}
use solo_lmnp.Assets.Register.Schedules.{calculate_year}
use solo_lmnp.Assets.Register.Posting.{post_period, post_period_batch}

pub data AssetRequest : Type 0 where
  create : AssetInput → AssetRequest
  component : ℕ → ComponentInput → AssetRequest
  calculate : ℕ → AssetRequest
  post : ℕ → DepreciationPostInput → AssetRequest
  post_year : ℕ → Text → List BatchItem → AssetRequest
  in_ledger : Request → AssetRequest

-- What is not under src/: pydantic's constraints on an entry and on an asset, the calendar, and the
-- SHA-256 of a lot.
pub record Outside : Type 0 where
  pub fields_valid : EntryInput → Bool
  pub asset_valid : AssetInput → Bool
  pub calendar : Calendar
  pub fingerprint : List BatchItem → Text

module _ (o : Outside) where
  unfoldable pub handle_asset : Clock → Estate → AssetRequest → Outcome AssetError Estate
  handle_asset clock e (create input) =
      create_asset o.calendar o.asset_valid e input >>= λ r. ok r.1
  handle_asset clock e (component asset_id input) =
      create_component o.calendar e asset_id input >>= λ r. ok r.1
  handle_asset clock e (calculate year_id) = calculate_year o.calendar e year_id >>= λ r. ok r.1
  handle_asset clock e (post period_id input) =
      post_period o.fields_valid clock e period_id input >>= λ r. ok r.1
  handle_asset clock e (post_year year_id key items) =
      post_period_batch o.fields_valid o.fingerprint clock e year_id key items >>= λ r. ok r.1
  handle_asset clock e (in_ledger request) =
      ok (record e { db = serve_one o.fields_valid clock e.db request })

  unfoldable pub run_one : Clock → Estate → AssetRequest → Estate
  run_one clock e request = elim (handle_asset clock e request) [ ok e' ↦ e' | err x ↦ e ]

  unfoldable pub run : Estate → List (Clock × AssetRequest) → Estate
  unfolding run_one
  run e [] = e
  run e (r ∷ rest) = run (run_one r.0 e r.1) rest
