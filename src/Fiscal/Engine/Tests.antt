-- ===== src/Fiscal/Engine/Tests.antt =====
-- Concrete years of the LMNP engine.
use solo_lmnp.Prelude.{◌≡◌, refl, List, [], ◌∷◌, ◌⊎◌, arith, All}
use solo_lmnp.Prelude.Int.{ℤ, pos, negsuc, ◌+ℤ◌, ◌-ℤ◌, neg, ◌≤ℤ◌, min_ℤ, max_ℤ}
use solo_lmnp.Fiscal.Engine.{Stock, YearInput, expired, consume, expire_losses, apply_lmnp}
use solo_lmnp.Fiscal.Engine.Consume.{
  total_remaining, total_amount, oldest_first, consume-oldest_first,
}
use solo_lmnp.Fiscal.Engine.Expiry.{IsExpiry, IsUsable, expire_losses-IsSplit}
use solo_lmnp.Fiscal.Engine.Split.{
  tax_loss-eq_shortfall, depreciation_cap, fiscal_result-reconciles, positive_result-exhausts,
}

abbrev stock : ℤ → ℤ → ℤ → Stock
stock year created taken = record {
  origin_year_id = 1;
  origin_year = year;
  created = created;
  used_before = taken;
  expired_before = pos 0;
}

-- Rents of 10 000, charges of 4 000, a depreciation of 5 000: 1 000 are left for former years.
abbrev good_year : YearInput
good_year = record {
  year = pos 2026;
  income = pos 1000000;
  other_charges = pos 400000;
  depreciation = pos 500000;
  additions = pos 0;
  depreciation_stocks =
      stock (pos 2024) (pos 30000) (pos 10000) ∷ stock (pos 2025) (pos 5000) (pos 0) ∷ [];
  tax_loss_stocks = stock (pos 2015) (pos 700) (pos 0) ∷ stock (pos 2016) (pos 900) (pos 100) ∷ [];
}

good_year_result : (apply_lmnp good_year).fiscal_result ≡ pos 74200
unfolding apply_lmnp ◌+ℤ◌ ◌-ℤ◌ min_ℤ max_ℤ
good_year_result = refl

good_year_expiry :
    (apply_lmnp good_year).tax_loss_expiries
    ≡ record {
      origin_year_id = 1;
      origin_year = pos 2015;
      kind = expired;
      amount = pos 700;
      remaining_after = pos 0;
    }
      ∷ []
unfolding apply_lmnp ◌+ℤ◌ ◌-ℤ◌ min_ℤ max_ℤ
good_year_expiry = refl

-- A year whose charges pass the rents: no depreciation is deducted.
abbrev bad_year : YearInput
bad_year = record good_year { other_charges = pos 1200000 }

bad_year_loss : (apply_lmnp bad_year).tax_loss ≡ pos 200000
unfolding apply_lmnp ◌+ℤ◌ ◌-ℤ◌ min_ℤ max_ℤ neg
bad_year_loss = refl

abbrev two_stocks : List Stock
two_stocks = stock (pos 2024) (pos 30) (pos 10) ∷ stock (pos 2025) (pos 50) (pos 0) ∷ []

consume-oldest_first_example :
    let (uses, used_total) = consume two_stocks (pos 25) in
    (uses ≡ oldest_first (pos 0) two_stocks (pos 25))
    × (used_total ≡ min_ℤ (max_ℤ (pos 0) (pos 25)) (total_remaining two_stocks))
    × (total_amount uses ≡ used_total)
consume-oldest_first_example = consume-oldest_first two_stocks (pos 25)

expire_losses-IsSplit_example :
    let (expiries, usable) = expire_losses (pos 2035) two_stocks in
    All (IsExpiry (pos 2035)) expiries
    × All (IsUsable (pos 2035)) usable
    × (total_amount expiries +ℤ total_remaining usable ≡ total_remaining two_stocks)
expire_losses-IsSplit_example = expire_losses-IsSplit (pos 2035) two_stocks

tax_loss-eq_shortfall_example :
    (apply_lmnp bad_year).tax_loss ≡ max_ℤ (pos 0) (neg (pos 1000000 -ℤ pos 1200000 +ℤ pos 0))
tax_loss-eq_shortfall_example = tax_loss-eq_shortfall bad_year

-- A year whose depreciation account is left in credit.
abbrev credit_year : YearInput
credit_year = record good_year { depreciation = negsuc 49999 }

credit_year_result :
    ((apply_lmnp credit_year).accounting_result ≡ pos 650000)
    × ((apply_lmnp credit_year).current_deductible ≡ pos 0)
unfolding apply_lmnp ◌+ℤ◌ ◌-ℤ◌ min_ℤ max_ℤ
credit_year_result = (refl, refl)

depreciation_cap_example :
    let s = apply_lmnp good_year in
    (s.current_deductible +ℤ s.unused_depreciation ≡ max_ℤ (pos 0) (pos 500000))
    × (pos 0 ≤ℤ s.current_deductible)
    × (pos 0 ≤ℤ s.unused_depreciation)
    × (s.current_deductible +ℤ s.prior_depreciation_used ≤ℤ s.capacity)
    × ((s.unused_depreciation ≡ pos 0)
        ⊎ ((s.current_deductible ≡ s.capacity) × (s.prior_depreciation_used ≡ pos 0)))
depreciation_cap_example = depreciation_cap good_year

fiscal_result-reconciles_example :
    let s = apply_lmnp credit_year in
    s.fiscal_result
    ≡ s.accounting_result
      +ℤ s.additions
      +ℤ s.unused_depreciation
      -ℤ s.prior_depreciation_used
      -ℤ s.prior_tax_loss_used
      +ℤ min_ℤ (pos 0) (negsuc 49999)
fiscal_result-reconciles_example = fiscal_result-reconciles credit_year

positive_result-exhausts_example :
    let s = apply_lmnp good_year in
    (s.unused_depreciation ≡ pos 0)
    × (s.prior_depreciation_used ≡ total_remaining good_year.depreciation_stocks)
    × (s.prior_tax_loss_used
        ≡ total_remaining (expire_losses good_year.year good_year.tax_loss_stocks).1)
unfolding apply_lmnp ◌+ℤ◌ ◌-ℤ◌ min_ℤ max_ℤ
positive_result-exhausts_example = positive_result-exhausts good_year (omega arith)
