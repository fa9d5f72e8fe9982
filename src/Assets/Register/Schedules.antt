-- ===== src/Assets/Register/Schedules.antt =====
-- `ensure_schedules` and `calculate_year` of backend/app/services/assets.py.
use solo_lmnp.Prelude.{
  ℕ, ◌+◌, ◌-◌, ◌==◌, Bool, true, false, Option, none, some, List, [], ◌∷◌, ◌++◌, if◌then◌else◌,
}
use solo_lmnp.Prelude.Text.{Text}
use solo_lmnp.Prelude.Outcome.{Outcome, ok, err, ◌>>=◌, ◌>>◌, guard}
use solo_lmnp.Ledger.State.{FiscalYear}
use solo_lmnp.Ledger.Service.{get_year}
use solo_lmnp.Ledger.Reversal.{names}
use solo_lmnp.Assets.Plan.{Date, Calendar, add_months, Schedule, Period, plan_period}
use solo_lmnp.Assets.Register.State.{
  Asset, Component, Estate, AssetError, decomposition_incomplete, asset_plan_invalid,
  component_not_found, asset_not_found, in_books, existing, find_asset, find_component,
  find_period_for, components_of,
}
use solo_lmnp.Assets.Register.Create.{is_land, total_value}

-- What a schedule is made from: an asset, or one of its components.
pub record Target : Type 0 where
  pub asset_id : Option ℕ
  pub component_id : Option ℕ
  pub base : ℕ
  pub life : ℕ
  pub start : Date
  pub asset_account : Text
  pub depreciation_account : Text

abbrev pub component_targets : List Component → List Target
component_targets [] = []
component_targets (c ∷ rest) =
    record {
      asset_id = none;
      component_id = some c.id;
      base = c.value;
      life = c.useful_life_months;
      start = c.service_start_date;
      asset_account = c.asset_account;
      depreciation_account = c.depreciation_account;
    }
    ∷ component_targets rest

-- The one target of an asset that is not decomposed.
abbrev pub whole_target : Asset → Option ℕ → Option Text → Outcome AssetError (List Target)
whole_target asset none account = err asset_plan_invalid
whole_target asset (some life) none = err asset_plan_invalid
whole_target asset (some life) (some account) = ok (
    record {
      asset_id = some asset.id;
      component_id = none;
      base = asset.depreciable_value - asset.residual_value;
      life = life;
      start = asset.service_start_date;
      asset_account = asset.asset_account;
      depreciation_account = account;
    }
    ∷ [])

abbrev pub targets_from : Asset → List Component → Outcome AssetError (List Target)
targets_from asset [] = whole_target asset asset.useful_life_months asset.depreciation_account
targets_from asset (c ∷ rest) = do
  guard (total_value (c ∷ rest) + asset.residual_value == asset.depreciable_value)
      decomposition_incomplete
  ok (component_targets (c ∷ rest))

-- Whether a schedule is the one of a target.
abbrev pub is_of : Option ℕ → Option ℕ → Schedule → Bool
is_of asset_id (some c) s = names c s.component_id
is_of (some a) none s = names a s.asset_id
is_of none none s = false

unfoldable pub find_schedule_of : Target → List Schedule → Option Schedule
find_schedule_of t [] = none
find_schedule_of t (s ∷ rest) =
    if is_of t.asset_id t.component_id s then some s else find_schedule_of t rest

module _ (calendar : Calendar) where
  unfoldable pub schedule_of : ℕ → Target → Schedule
  unfolding add_months
  schedule_of id t = record {
    id = id;
    asset_id = t.asset_id;
    component_id = t.component_id;
    base = t.base;
    useful_life_months = t.life;
    service_start = calendar.ordinal t.start;
    end_date = calendar.ordinal (add_months calendar t.start t.life) - 1;
    asset_account = t.asset_account;
    depreciation_account = t.depreciation_account;
  }

  abbrev pub keep_or_add : Estate → Target → Option Schedule → Schedule × Estate
  keep_or_add e t (some s) = (s, e)
  keep_or_add e t none = (
    schedule_of e.next_schedule t,
    record e {
      schedules = e.schedules ++ (schedule_of e.next_schedule t ∷ []);
      next_schedule = e.next_schedule + 1;
    },
  )

  unfoldable pub ensure_targets : Estate → List Target → List Schedule × Estate
  unfolding schedule_of find_schedule_of
  ensure_targets e [] = ([], e)
  ensure_targets e (t ∷ rest) =
      let one = keep_or_add e t (find_schedule_of t e.schedules) in
      let more = ensure_targets one.1 rest in (one.0 ∷ more.0, more.1)

  unfoldable pub ensure_assets : Estate → List Asset → Outcome AssetError (List Schedule × Estate)
  unfolding ensure_targets components_of
  ensure_assets e [] = ok ([], e)
  ensure_assets e (asset ∷ rest) = elim (is_land asset.category) [
    | true ↦ ensure_assets e rest
    | false ↦
        (targets_from asset (components_of asset.id e.components) >>= λ targets.
        let one = ensure_targets e targets in
        ensure_assets one.1 rest >>= λ more. ok (one.0 ++ more.0, more.1))
  ]

  unfoldable pub ensure_schedules : Estate → Outcome AssetError (List Schedule × Estate)
  unfolding ensure_assets
  ensure_schedules e = ensure_assets e e.assets

-- The asset of a schedule.
abbrev pub asset_key : Estate → Option ℕ → Option ℕ → Outcome AssetError ℕ
asset_key e (some asset_id) component_id = ok asset_id
asset_key e none none = err component_not_found
asset_key e none (some component_id) = do
  component ← existing (find_component component_id e.components) component_not_found
  ok component.asset_id

unfoldable pub asset_of_schedule : Estate → Schedule → Outcome AssetError Asset
unfolding find_asset find_component
asset_of_schedule e s = do
  key ← asset_key e s.asset_id s.component_id
  existing (find_asset key e.assets) asset_not_found

-- A period that is there already is kept.
abbrev pub keep_or_store : Estate → Period → Option Period → Period × Estate
keep_or_store e p (some old) = (old, e)
keep_or_store e p none =
    (p, record e { periods = e.periods ++ (p ∷ []); next_period = e.next_period + 1 })

abbrev pub stored_period : Estate → FiscalYear → Schedule → Option Period → List Period × Estate
stored_period e year s none = ([], e)
stored_period e year s (some p) =
    let kept = keep_or_store e p (find_period_for s.id year.id e.periods) in (kept.0 ∷ [], kept.1)

unfoldable pub periods_of :
    Estate → FiscalYear → List Schedule → Outcome AssetError (List Period × Estate)
unfolding asset_of_schedule plan_period find_period_for
periods_of e year [] = ok ([], e)
periods_of e year (s ∷ rest) = do
  asset ← asset_of_schedule e s
  let planned = plan_period s asset.disposed_at e.next_period year.id year.start_date year.end_date
  let one = stored_period e year s planned
  more ← periods_of one.1 year rest
  ok (one.0 ++ more.0, more.1)

unfoldable pub calculate_year : Calendar → Estate → ℕ → Outcome AssetError (List Period × Estate)
unfolding ensure_schedules periods_of
calculate_year calendar e year_id = do
  year ← in_books (get_year e.db year_id true)
  schedules ← ensure_schedules calendar e
  periods_of schedules.1 year schedules.0
