-- ===== src/Closing/Central.antt =====
-- The centralisation of the result: the groups of `ledger_income` (`_classify` of
-- backend/app/services/statements.py), and `_closing_lines`, `_line` and `_has_class_balance` of
-- backend/app/services/result_closing.py.
--
-- Amounts pass through their decimal text in the source; here they are the same cents. The balances
-- are those that `_load` and `_validate` let through, and `kind_of` gives the type of an account;
-- the labels of the rows and the count of drafts are left out. `_closing_lines` is called with the
-- result of its report, which is a field here.
pub mod Balanced
use solo_lmnp.Prelude.{
  ℕ, Bool, true, false, ◌||◌, not, Option, none, some, List, [], ◌∷◌, ◌++◌, if◌then◌else◌,
}
use solo_lmnp.Prelude.Int.{ℤ, pos, negsuc, pos_part, neg_part, neg, ◌+ℤ◌, ◌-ℤ◌, ltb_ℤ, eqb_ℤ}
use solo_lmnp.Prelude.Text.{Text, codes}
use solo_lmnp.Ledger.State.{AccountType, asset, liability, equity, expense, income, LineInput}

pub record Report : Type 0 where
  pub income_rows : List (Text × ℤ)
  pub expense_rows : List (Text × ℤ)
  pub result : ℤ

abbrev pub total_of : List (Text × ℤ) → ℤ
total_of [] = pos 0
total_of (x ∷ xs) = x.1 +ℤ total_of xs

abbrev pub is_income : AccountType → Bool
is_income asset = false
is_income liability = false
is_income equity = false
is_income expense = false
is_income income = true

abbrev pub is_expense : AccountType → Bool
is_expense asset = false
is_expense liability = false
is_expense equity = false
is_expense expense = true
is_expense income = false

-- The group of the incomes, credit less debit, and of the expenses, debit less credit.
unfoldable pub incomes : (Text → AccountType) → List (Text × ℤ) → List (Text × ℤ)
unfolding neg
incomes kind_of [] = []
incomes kind_of (x ∷ xs) =
    let rest = incomes kind_of xs in if is_income (kind_of x.0) then (x.0, neg x.1) ∷ rest else rest

unfoldable pub expenses : (Text → AccountType) → List (Text × ℤ) → List (Text × ℤ)
expenses kind_of [] = []
expenses kind_of (x ∷ xs) =
    let rest = expenses kind_of xs in if is_expense (kind_of x.0) then x ∷ rest else rest

unfoldable pub ledger_income : (Text → AccountType) → List (Text × ℤ) → Report
unfolding incomes expenses ◌-ℤ◌ ◌+ℤ◌
ledger_income kind_of nets = record {
  income_rows = incomes kind_of nets;
  expense_rows = expenses kind_of nets;
  result = total_of (incomes kind_of nets) -ℤ total_of (expenses kind_of nets);
}

abbrev pub any_amount : List (Text × ℤ) → Bool
any_amount [] = false
any_amount (x ∷ xs) = not (eqb_ℤ x.1 (pos 0)) || any_amount xs

unfoldable pub has_class_balance : Report → Bool
has_class_balance r = any_amount r.income_rows || any_amount r.expense_rows

abbrev pub central_line : Text → ℕ → ℕ → LineInput
central_line number debit credit = record {
  account_number = number;
  label = codes "Centralisation";
  debit = debit;
  credit = credit;
}

-- An amount to the credit, a negative one to the debit; and the other way round.
unfoldable pub to_credit : Text → ℤ → List LineInput
to_credit number cents =
    if ltb_ℤ (pos 0) cents
    then central_line number 0 (pos_part cents) ∷ []
    else if ltb_ℤ cents (pos 0)
    then central_line number (neg_part cents) 0 ∷ []
    else []

unfoldable pub to_debit : Text → ℤ → List LineInput
to_debit number cents =
    if ltb_ℤ (pos 0) cents
    then central_line number (pos_part cents) 0 ∷ []
    else if ltb_ℤ cents (pos 0)
    then central_line number 0 (neg_part cents) ∷ []
    else []

unfoldable pub expense_lines : List (Text × ℤ) → List LineInput
unfolding to_credit
expense_lines [] = []
expense_lines (x ∷ xs) = to_credit x.0 x.1 ++ expense_lines xs

unfoldable pub income_lines : List (Text × ℤ) → List LineInput
unfolding to_debit
income_lines [] = []
income_lines (x ∷ xs) = to_debit x.0 x.1 ++ income_lines xs

abbrev pub result_lines : ℤ → Option Text → List LineInput
result_lines result none = []
result_lines result (some number) = to_credit number result

unfoldable pub closing_lines : Report → Option Text → List LineInput
unfolding expense_lines income_lines to_credit
closing_lines r result_account =
    expense_lines r.expense_rows
    ++ (income_lines r.income_rows ++ result_lines r.result result_account)
