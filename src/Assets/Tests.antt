-- ===== src/Assets/Tests.antt =====
-- Concrete account pairs, and a plan over three years.
use solo_lmnp.Prelude.{ℕ, ◌+◌, ◌≡◌, refl, ◌⊎◌, false, Option, none, some, List, [], ◌∷◌, arith}
use solo_lmnp.Prelude.Text.{Text, codes}
use solo_lmnp.Prelude.Outcome.{err}
use solo_lmnp.Ledger.State.{year_open, FiscalYear}
use solo_lmnp.Assets.Registration.{
  RegisterPiece, ok, entry, journal, amount_at, active, register_from, scope, registration_gap,
}
use solo_lmnp.Assets.Registration.Covered.{gross, registration_gap-ok}
use solo_lmnp.Prelude.Int.{ℤ, pos, ltb_ℤ, ◌-ℤ◌, ◌+ℤ◌}
use solo_lmnp.Prelude.{All, ◌↔◌}
use solo_lmnp.Assets.Plan.{Schedule, Period, share, period_of, plan_period}
use solo_lmnp.Assets.Plan.Amounts.{
  amount_of, plan_total, IsPeriod, plan_total-eq_base, plan_period-IsPeriod,
}
use solo_lmnp.Assets.Accounts.{
  land, improvement, building, wrong_account, category_of_account, mirror_depreciation_account,
  is_contra, validate_asset_accounts, require_mirror, best_prefix, drop_last,
}
use solo_lmnp.Assets.Accounts.Pairs.{IsMirror, validate_asset_accounts-eq-ok}

fittings_are_no_building :
    validate_asset_accounts (some building) (codes "213500") (some (codes "281350"))
    ≡ err wrong_account
unfolding validate_asset_accounts category_of_account best_prefix
fittings_are_no_building = refl

validate_asset_accounts-eq-ok_example :
    (category_of_account (codes "213500") ≡ some improvement)
    × (is_contra (codes "213500") ≡ false)
    × (((improvement ≡ land) × (◌≡◌ {A = Option Text} (some (codes "281350")) none))
        ⊎ ((m : Text) × (◌≡◌ {A = Option Text} (some (codes "281350")) (some m))
            × IsMirror (codes "213500") m))
unfolding validate_asset_accounts category_of_account best_prefix require_mirror
    mirror_depreciation_account drop_last
validate_asset_accounts-eq-ok_example =
    validate_asset_accounts-eq-ok improvement (codes "213500") (some (codes "281350")) refl

-- A plan of two years over the cost of a boiler.
abbrev boiler : Schedule
boiler = record {
  id = 1;
  asset_id = some 1;
  component_id = none;
  base = 100001;
  useful_life_months = 24;
  service_start = 150;
  end_date = 879;
  asset_account = codes "215100";
  depreciation_account = codes "281510";
}

abbrev year_from : ℕ → ℕ → ℕ → FiscalYear
year_from k first last = record {
  id = k;
  year = 2024 + k;
  start_date = first;
  end_date = last;
  status = year_open;
}

abbrev three_years : List FiscalYear
three_years = year_from 1 100 464 ∷ year_from 2 465 829 ∷ year_from 3 830 1194 ∷ []

-- The three years take 43151, 50001 and 6849 cents.
boiler_amounts :
    (amount_of (plan_period boiler none 1 1 100 464) ≡ 43151)
    × (amount_of (plan_period boiler none 2 2 465 829) ≡ 50001)
    × (amount_of (plan_period boiler none 3 3 830 1194) ≡ 6849)
unfolding plan_period
boiler_amounts = (refl, refl, refl)

plan_total-eq_base_example :
    (plan_total boiler none three_years ≡ share 100001 730 730)
    × (◌≡◌ {A = Option ℕ} none none → plan_total boiler none three_years ≡ 100001)
plan_total-eq_base_example =
    plan_total-eq_base boiler none 100 three_years
      (record { in_order = omega arith; disposed_later = omega arith })
      (refl, omega arith, (refl, omega arith, (refl, omega arith, tt))) (omega arith) (omega arith)

abbrev first_period : Period
first_period = period_of boiler 1 1 150 464

plan_period-IsPeriod_example : IsPeriod boiler first_period
unfolding plan_period
plan_period-IsPeriod_example = plan_period-IsPeriod boiler none 1 1 100 464 first_period refl

abbrev piece : Text → ℕ → ℕ → RegisterPiece
piece number cents acquired = record { account = number; cents = pos cents; acquired = acquired }

abbrev pieces : List RegisterPiece
pieces =
    piece (codes "213100") 900 80
    ∷ piece (codes "213100") 100 120
    ∷ piece (codes "215100") 50 300
    ∷ []

abbrev booked : ℕ → List (Text × ℤ)
booked cents = (codes "213100", pos cents) ∷ []

-- The third piece is acquired later.
gaps :
    (registration_gap pieces (booked 700) 200 100 none ≡ ((codes "213100", pos 300) ∷ [], entry))
    × (registration_gap pieces (booked 1000) 200 100 none ≡ ([], ok))
    × (registration_gap pieces (booked 1000) 300 100 none
        ≡ ((codes "215100", pos 50) ∷ [], journal))
unfolding registration_gap ◌-ℤ◌ ◌+ℤ◌
gaps = (refl, refl, refl)

registration_gap-ok_example :
    (registration_gap pieces (booked 1000) 200 100 none).1 ≡ ok
    ↔ All
        (λ a. ltb_ℤ (amount_at a (booked 1000)) (gross a (active 200 pieces)) ≡ false)
        (scope none (register_from [] (active 200 pieces)))
registration_gap-ok_example = registration_gap-ok pieces (booked 1000) 200 100 none
