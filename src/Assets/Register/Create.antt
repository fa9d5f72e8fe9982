-- ===== src/Assets/Register/Create.antt =====
-- `create_asset` and `create_component` of backend/app/services/assets.py, with the validators of
-- their inputs.
--
-- `fields_valid` stands for pydantic's own constraints, with the length of the stripped reason.
use solo_lmnp.Prelude.{
  ℕ, ◌+◌, ◌==◌, ltb, Bool, true, false, ◌&&◌, not, Option, none, some, List, [], ◌∷◌, ◌++◌,
  if◌then◌else◌,
}
use solo_lmnp.Prelude.Text.{Text}
use solo_lmnp.Prelude.Outcome.{Outcome, ok, ◌>>=◌, ◌>>◌, guard}
use solo_lmnp.Ledger.State.{Account, Db, find_account}
use solo_lmnp.Ledger.Reversal.{mem_id}
use solo_lmnp.Assets.Accounts.{
  Category, land, building, improvement, equipment, furniture, other, validate_asset_accounts,
  validate_component_accounts,
}
use solo_lmnp.Assets.Plan.{Calendar}
use solo_lmnp.Assets.Register.State.{
  Method, no_method, linear, Asset, Component, Estate, AssetInput, ComponentInput, AssetError,
  account_invalid, property_not_found, plan_refused, asset_not_found, component_parent_invalid,
  component_date_invalid, component_total_exceeds, in_pair, existing, find_asset, components_of,
}

abbrev pub is_land : Category → Bool
is_land land = true
is_land building = false
is_land improvement = false
is_land equipment = false
is_land furniture = false
is_land other = false

abbrev pub is_building : Category → Bool
is_building land = false
is_building building = true
is_building improvement = false
is_building equipment = false
is_building furniture = false
is_building other = false

abbrev pub is_linear : Method → Bool
is_linear no_method = false
is_linear linear = true

abbrev pub is_given {ℓ} : {A : Type ℓ} → Option A → Bool
is_given none = false
is_given (some a) = true

abbrev pub is_later : Option ℕ → ℕ → Bool
is_later none day = true
is_later (some d) day = not (ltb d day)

-- The amounts of the validator `plan`, by category.
abbrev pub amounts_valid : AssetInput → Bool
amounts_valid input =
    if is_land input.category
    then input.depreciable_value == 0
      && (input.residual_value == 0
          && (not (is_linear input.method)
              && (not (is_given input.useful_life_months)
                  && not (is_given input.depreciation_account))))
    else ltb input.residual_value input.depreciable_value
      && (input.non_depreciable_value == 0
          && (is_linear input.method
              && (is_given input.useful_life_months && is_given input.depreciation_account)))

unfoldable pub plan_valid : Calendar → AssetInput → Bool
plan_valid calendar input =
    ltb 0 input.acquisition_value
    && (input.depreciable_value + input.non_depreciable_value == input.acquisition_value
        && (not (ltb (calendar.ordinal input.service_start_date) input.acquisition_date)
            && (is_later input.disposed_at (calendar.ordinal input.service_start_date)
                && amounts_valid input)))

-- `_active_account`
abbrev pub is_active : Option Account → Bool
is_active none = false
is_active (some row) = row.active

unfoldable pub active_account : Db → Text → Outcome AssetError (Unit {0})
unfolding find_account
active_account db number = guard (is_active (find_account number db.accounts)) account_invalid

abbrev pub active_if_given : Db → Option Text → Outcome AssetError (Unit {0})
active_if_given db none = ok tt
active_if_given db (some number) = active_account db number

unfoldable pub require_asset_accounts :
    Db → Category → Text → Option Text → Outcome AssetError (Unit {0})
unfolding active_account validate_asset_accounts
require_asset_accounts db category asset_account depreciation_account = do
  in_pair (validate_asset_accounts (some category) asset_account depreciation_account)
  active_account db asset_account
  active_if_given db depreciation_account

unfoldable pub require_component_accounts : Db → Text → Text → Outcome AssetError (Unit {0})
unfolding active_account validate_component_accounts
require_component_accounts db asset_account depreciation_account = do
  in_pair (validate_component_accounts asset_account depreciation_account)
  active_account db asset_account
  active_account db depreciation_account

abbrev pub asset_of : ℕ → AssetInput → Asset
asset_of id input = record {
  id = id;
  property_id = input.property_id;
  category = input.category;
  label = input.label;
  acquisition_date = input.acquisition_date;
  service_start_date = input.service_start_date;
  acquisition_value = input.acquisition_value;
  depreciable_value = input.depreciable_value;
  non_depreciable_value = input.non_depreciable_value;
  residual_value = input.residual_value;
  method = input.method;
  useful_life_months = input.useful_life_months;
  asset_account = input.asset_account;
  depreciation_account = input.depreciation_account;
  disposed_at = input.disposed_at;
}

abbrev pub component_of : ℕ → ℕ → ComponentInput → Component
component_of id asset_id input = record {
  id = id;
  asset_id = asset_id;
  label = input.label;
  value = input.value;
  useful_life_months = input.useful_life_months;
  service_start_date = input.service_start_date;
  asset_account = input.asset_account;
  depreciation_account = input.depreciation_account;
}

abbrev pub total_value : List Component → ℕ
total_value [] = 0
total_value (c ∷ rest) = c.value + total_value rest

module _ (calendar : Calendar) (fields_valid : AssetInput → Bool) where
  unfoldable pub create_asset : Estate → AssetInput → Outcome AssetError (Asset × Estate)
  unfolding plan_valid require_asset_accounts
  create_asset e input = do
    guard (fields_valid input && plan_valid calendar input) plan_refused
    guard (mem_id input.property_id e.properties) property_not_found
    require_asset_accounts e.db input.category input.asset_account input.depreciation_account
    let row = asset_of e.next_asset input
    ok (row, record e { assets = e.assets ++ (row ∷ []); next_asset = e.next_asset + 1 })

module _ (calendar : Calendar) where
  unfoldable pub create_component :
      Estate → ℕ → ComponentInput → Outcome AssetError (Component × Estate)
  unfolding find_asset components_of require_component_accounts
  create_component e asset_id input = do
    guard (ltb 0 input.value) plan_refused
    asset ← existing (find_asset asset_id e.assets) asset_not_found
    guard (is_building asset.category) component_parent_invalid
    guard
        (not (
          ltb (calendar.ordinal input.service_start_date)
            (calendar.ordinal asset.service_start_date)))
        component_date_invalid
    require_component_accounts e.db input.asset_account input.depreciation_account
    guard
        (not (
          ltb asset.depreciable_value (
            total_value (components_of asset.id e.components)
            + input.value
            + asset.residual_value)))
        component_total_exceeds
    let row = component_of e.next_component asset.id input
    ok (
      row,
      record e { components = e.components ++ (row ∷ []); next_component = e.next_component + 1 },
    )
