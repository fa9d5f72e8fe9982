-- ===== src/Assets/Register/State.antt =====
-- The tables of backend/app/models/assets.py beside those of the ledger, the inputs of
-- backend/app/api/asset_schemas.py, and the errors of backend/app/services/assets.py.
--
-- A date of entry into service is a calendar date, since months are added to it; the other dates are
-- ordinals. `batches` holds the details of the events of a batch, the last one first.
use solo_lmnp.Prelude.{ℕ, ◌==◌, Bool, Option, none, some, List, [], ◌∷◌, ◌&&◌, if◌then◌else◌}
use solo_lmnp.Prelude.Text.{Text, same_text}
use solo_lmnp.Prelude.Outcome.{Outcome, ok, err}
use solo_lmnp.Ledger.State.{Db, Error}
use solo_lmnp.Assets.Accounts.{Category, Refusal}
use solo_lmnp.Assets.Plan.{Date, Schedule, Period}
use solo_lmnp.Assets.Registration.{Fix}

pub data Method : Type 0 where
  no_method linear : Method

pub record Asset : Type 0 where
  pub id : ℕ
  pub property_id : ℕ
  pub category : Category
  pub label : Text
  pub acquisition_date : ℕ
  pub service_start_date : Date
  pub acquisition_value : ℕ
  pub depreciable_value : ℕ
  pub non_depreciable_value : ℕ
  pub residual_value : ℕ
  pub method : Method
  pub useful_life_months : Option ℕ
  pub asset_account : Text
  pub depreciation_account : Option Text
  pub disposed_at : Option ℕ

pub record Component : Type 0 where
  pub id : ℕ
  pub asset_id : ℕ
  pub label : Text
  pub value : ℕ
  pub useful_life_months : ℕ
  pub service_start_date : Date
  pub asset_account : Text
  pub depreciation_account : Text

-- The codes of `fail`; `plan_refused` is the validator of an input.
pub data AssetError : Type 0 where
  in_ledger : Error → AssetError
  pair_invalid : Refusal → AssetError
  not_booked : Fix → AssetError
  account_invalid property_not_found plan_refused asset_not_found : AssetError
  component_parent_invalid component_date_invalid component_total_exceeds : AssetError
  decomposition_incomplete asset_plan_invalid component_not_found : AssetError
  period_not_found entry_missing zero_depreciation schedule_not_found : AssetError
  period_year_mismatch idempotency_conflict : AssetError

-- An item of the report of a batch.
pub data ItemStatus : Type 0 where
  posted_item : ℕ → Bool → ItemStatus
  error_item : AssetError → ItemStatus
  skipped_item : ItemStatus

pub record Item : Type 0 where
  pub period_id : ℕ
  pub status : ItemStatus

pub record BatchResult : Type 0 where
  pub idempotency_key : Text
  pub replayed : Bool
  pub posted_count : ℕ
  pub failed_count : ℕ
  pub skipped_count : ℕ
  pub items : List Item

pub record BatchRecord : Type 0 where
  pub idempotency_key : Text
  pub fingerprint : Text
  pub result : BatchResult

pub record Estate : Type 0 where
  pub db : Db
  pub properties : List ℕ
  pub assets : List Asset
  pub components : List Component
  pub schedules : List Schedule
  pub periods : List Period
  pub batches : List BatchRecord
  pub next_asset : ℕ
  pub next_component : ℕ
  pub next_schedule : ℕ
  pub next_period : ℕ

pub record AssetInput : Type 0 where
  pub property_id : ℕ
  pub category : Category
  pub label : Text
  pub acquisition_date : ℕ
  pub service_start_date : Date
  pub acquisition_value : ℕ
  pub depreciable_value : ℕ
  pub non_depreciable_value : ℕ
  pub residual_value : ℕ
  pub method : Method
  pub useful_life_months : Option ℕ
  pub asset_account : Text
  pub depreciation_account : Option Text
  pub duration_reason : Text
  pub disposed_at : Option ℕ

pub record ComponentInput : Type 0 where
  pub label : Text
  pub value : ℕ
  pub useful_life_months : ℕ
  pub service_start_date : Date
  pub asset_account : Text
  pub depreciation_account : Text

pub record DepreciationPostInput : Type 0 where
  pub request_id : Text
  pub piece_reference : Text

pub record BatchItem : Type 0 where
  pub period_id : ℕ
  pub request_id : Text
  pub piece_reference : Text

abbrev pub in_books {ℓ} : {A : Type ℓ} → Outcome Error A → Outcome AssetError A
in_books (ok a) = ok a
in_books (err e) = err (in_ledger e)

abbrev pub in_pair {ℓ} : {A : Type ℓ} → Outcome Refusal A → Outcome AssetError A
in_pair (ok a) = ok a
in_pair (err e) = err (pair_invalid e)

abbrev pub existing {ℓ} : {A : Type ℓ} → Option A → AssetError → Outcome AssetError A
existing none e = err e
existing (some a) e = ok a

-- `session.get` of a row by its key.
unfoldable pub find_asset : ℕ → List Asset → Option Asset
find_asset k [] = none
find_asset k (a ∷ rest) = if a.id == k then some a else find_asset k rest

unfoldable pub find_component : ℕ → List Component → Option Component
find_component k [] = none
find_component k (c ∷ rest) = if c.id == k then some c else find_component k rest

unfoldable pub find_schedule : ℕ → List Schedule → Option Schedule
find_schedule k [] = none
find_schedule k (s ∷ rest) = if s.id == k then some s else find_schedule k rest

unfoldable pub find_period : ℕ → List Period → Option Period
find_period k [] = none
find_period k (p ∷ rest) = if p.id == k then some p else find_period k rest

-- The period of a schedule and a year.
abbrev pub is_for : ℕ → ℕ → Period → Bool
is_for s y p = p.schedule_id == s && p.fiscal_year_id == y

unfoldable pub find_period_for : ℕ → ℕ → List Period → Option Period
find_period_for s y [] = none
find_period_for s y (p ∷ rest) = if is_for s y p then some p else find_period_for s y rest

-- The flush of a changed period.
unfoldable pub save_period : Period → List Period → List Period
save_period p [] = []
save_period p (x ∷ rest) = if x.id == p.id then p ∷ rest else x ∷ save_period p rest

unfoldable pub find_batch : Text → List BatchRecord → Option BatchRecord
find_batch key [] = none
find_batch key (b ∷ rest) = if same_text b.idempotency_key key then some b else find_batch key rest

-- `where(AssetComponent.asset_id == k)`, and the sum of their values.
unfoldable pub components_of : ℕ → List Component → List Component
components_of k [] = []
components_of k (c ∷ rest) =
    let more = components_of k rest in if c.asset_id == k then c ∷ more else more
