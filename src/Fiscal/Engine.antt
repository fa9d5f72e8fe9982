-- ===== src/Fiscal/Engine.antt =====
-- backend/app/domain/fiscal/engine.py: one year of the LMNP réel simplifié, in integer cents.
-- Python's integers are unbounded, so an amount or a year is an integer; an id is only copied.
pub mod Consume
pub mod Expiry
pub mod Split
mod Tests
use solo_lmnp.Prelude.{ℕ, Bool, List, [], ◌∷◌, ◌++◌, if◌then◌else◌}
use solo_lmnp.Prelude.Int.{ℤ, pos, ◌+ℤ◌, ◌-ℤ◌, neg, leb_ℤ, ltb_ℤ, min_ℤ, max_ℤ}

abbrev pub tax_loss_horizon_years : ℤ
tax_loss_horizon_years = pos 10

pub data MovementKind : Type 0 where
  used expired : MovementKind

pub record Stock : Type 0 where
  pub origin_year_id : ℕ
  pub origin_year : ℤ
  pub created : ℤ
  pub used_before : ℤ
  pub expired_before : ℤ

pub record Movement : Type 0 where
  pub origin_year_id : ℕ
  pub origin_year : ℤ
  pub kind : MovementKind
  pub amount : ℤ
  pub remaining_after : ℤ

pub record FiscalSplit : Type 0 where
  pub accounting_result : ℤ
  pub additions : ℤ
  pub income : ℤ
  pub other_charges : ℤ
  pub accounting_depreciation : ℤ
  pub capacity : ℤ
  pub current_deductible : ℤ
  pub unused_depreciation : ℤ
  pub prior_depreciation_used : ℤ
  pub depreciation_uses : List Movement
  pub fiscal_before_losses : ℤ
  pub prior_tax_loss_used : ℤ
  pub tax_loss_uses : List Movement
  pub tax_loss_expiries : List Movement
  pub fiscal_result : ℤ
  pub tax_loss : ℤ

-- The keyword arguments of `apply_lmnp`.
pub record YearInput : Type 0 where
  pub year : ℤ
  pub income : ℤ
  pub other_charges : ℤ
  pub depreciation : ℤ
  pub additions : ℤ
  pub depreciation_stocks : List Stock
  pub tax_loss_stocks : List Stock

unfoldable pub remaining_before : Stock → ℤ
remaining_before s = max_ℤ (pos 0) (s.created -ℤ s.used_before -ℤ s.expired_before)

unfoldable pub use_movement : Stock → ℤ → ℤ → Movement
use_movement s available take = record {
  origin_year_id = s.origin_year_id;
  origin_year = s.origin_year;
  kind = used;
  amount = take;
  remaining_after = available -ℤ take;
}

-- The loop of `_consume` over its three variables: `break` once the budget is spent, `continue`
-- past a stock that gives nothing.
unfoldable pub consume_loop : List Stock → ℤ → List Movement → ℤ → List Movement × ℤ
consume_loop [] remaining_budget uses used_total = (uses, used_total)
consume_loop (s ∷ stocks) remaining_budget uses used_total =
    let available = remaining_before s in
    let take = min_ℤ available remaining_budget in
    let skip = consume_loop stocks remaining_budget uses used_total in
    let go =
      consume_loop stocks (remaining_budget -ℤ take) (uses ++ (use_movement s available take ∷ []))
        (used_total +ℤ take) in
    if leb_ℤ remaining_budget (pos 0)
    then (uses, used_total)
    else if leb_ℤ take (pos 0)
    then skip
    else go

-- `_consume`
unfoldable pub consume : List Stock → ℤ → List Movement × ℤ
unfolding consume_loop
consume stocks budget = consume_loop stocks budget [] (pos 0)

unfoldable pub loss_is_inside_horizon : ℤ → ℤ → Bool
loss_is_inside_horizon origin_year current_year =
    leb_ℤ (current_year -ℤ tax_loss_horizon_years) origin_year

unfoldable pub expiry_movement : Stock → ℤ → Movement
expiry_movement s available = record {
  origin_year_id = s.origin_year_id;
  origin_year = s.origin_year;
  kind = expired;
  amount = available;
  remaining_after = pos 0;
}

-- One turn of the loop of `_expire_losses`, on the two lists that it appends to.
unfoldable pub expire_one : ℤ → List Movement × List Stock → Stock → List Movement × List Stock
unfolding loss_is_inside_horizon expiry_movement
expire_one year (expiries, usable) s =
    let available = remaining_before s in
    if leb_ℤ available (pos 0)
    then (expiries, usable)
    else if loss_is_inside_horizon s.origin_year year
    then (expiries, usable ++ (s ∷ []))
    else (expiries ++ (expiry_movement s available ∷ []), usable)

unfoldable pub expire_loop :
    ℤ → List Movement × List Stock → List Stock → List Movement × List Stock
unfolding expire_one
expire_loop year acc [] = acc
expire_loop year acc (s ∷ stocks) = expire_loop year (expire_one year acc s) stocks

-- `_expire_losses`
unfoldable pub expire_losses : ℤ → List Stock → List Movement × List Stock
unfolding expire_loop
expire_losses year stocks = expire_loop year ([], []) stocks

-- `[stock for stock in depreciation_stocks if stock.remaining_before() > 0]`
unfoldable pub with_remaining : List Stock → List Stock
with_remaining [] = []
with_remaining (s ∷ stocks) =
    if ltb_ℤ (pos 0) (remaining_before s) then s ∷ with_remaining stocks else with_remaining stocks

unfoldable pub apply_lmnp : YearInput → FiscalSplit
unfolding with_remaining consume expire_losses remaining_before use_movement
apply_lmnp i =
    let capacity = max_ℤ (pos 0) (i.income -ℤ (i.other_charges -ℤ i.additions)) in
    let current_deductible = min_ℤ (max_ℤ (pos 0) i.depreciation) capacity in
    let unused = max_ℤ (pos 0) i.depreciation -ℤ current_deductible in
    let capacity_left = capacity -ℤ current_deductible in
    let (depreciation_uses, prior_depreciation_used) =
      consume (with_remaining i.depreciation_stocks) capacity_left in
    let deductible = current_deductible +ℤ prior_depreciation_used in
    let fiscal_before_losses = i.income -ℤ i.other_charges -ℤ deductible +ℤ i.additions in
    let (expiries, usable) = expire_losses i.year i.tax_loss_stocks in
    let (loss_uses, prior_tax_loss_used) = consume usable (max_ℤ (pos 0) fiscal_before_losses) in
    let fiscal_result = fiscal_before_losses -ℤ prior_tax_loss_used in
    record {
      accounting_result = i.income -ℤ i.other_charges -ℤ i.depreciation;
      additions = i.additions;
      income = i.income;
      other_charges = i.other_charges;
      accounting_depreciation = i.depreciation;
      capacity = capacity;
      current_deductible = current_deductible;
      unused_depreciation = unused;
      prior_depreciation_used = prior_depreciation_used;
      depreciation_uses = depreciation_uses;
      fiscal_before_losses = fiscal_before_losses;
      prior_tax_loss_used = prior_tax_loss_used;
      tax_loss_uses = loss_uses;
      tax_loss_expiries = expiries;
      fiscal_result = fiscal_result;
      tax_loss = max_ℤ (pos 0) (neg fiscal_result);
    }
