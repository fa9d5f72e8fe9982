-- ===== src/Closing/Tests.antt =====
-- A small result: a rent, a charge, and the bank.
use solo_lmnp.Prelude.{◌≡◌, refl, true, false, some, List, [], ◌∷◌, if◌then◌else◌}
use solo_lmnp.Prelude.Int.{ℤ, pos, negsuc, neg}
use solo_lmnp.Prelude.Text.{Text, codes, same_text, starts_with}
use solo_lmnp.Ledger.State.{AccountType, asset, expense, income}
use solo_lmnp.Closing.Central.{ledger_income, central_line, closing_lines}
use solo_lmnp.Closing.Central.Balanced.{net_where, class_net, closing_lines-settles}

abbrev by_class : Text → AccountType
by_class number =
    if starts_with (codes "7") number
    then income
    else if starts_with (codes "6") number
    then expense
    else asset

abbrev nets : List (Text × ℤ)
nets = (codes "512000", pos 700) ∷ (codes "615000", pos 200) ∷ (codes "706000", negsuc 899) ∷ []

-- The charge is credited, the rent is debited, and the result of 700 goes to the account 120.
central_entry :
    closing_lines (ledger_income by_class nets) (some (codes "120000"))
    ≡ central_line (codes "615000") 0 200
      ∷ central_line (codes "706000") 900 0
      ∷ central_line (codes "120000") 0 700
      ∷ []
unfolding closing_lines ledger_income
central_entry = refl

closing_lines-settles_example :
    (net_where (λ k. true) (closing_lines (ledger_income by_class nets) (some (codes "120000")))
      ≡ pos 0)
    × ((a : Text)
        → same_text (codes "120000") a ≡ false
        → net_where
            (λ k. same_text k a)
            (closing_lines (ledger_income by_class nets) (some (codes "120000")))
          ≡ neg (class_net by_class (λ k. same_text k a) nets))
closing_lines-settles_example = closing_lines-settles by_class nets (codes "120000")
