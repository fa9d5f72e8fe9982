-- ===== src/Closing/Central/Balanced.antt =====
-- The entry of the centralisation is balanced, and takes the incomes and expenses to zero.
use solo_lmnp.Prelude.{
  ◌≡◌, refl, ap, ◌∙◌, sym, inl, inr, Bool, true, false, ◌||◌, some, List, [], ◌∷◌, ◌++◌,
  if◌then◌else◌, arith, Bool-cases,
}
use solo_lmnp.Prelude.Int.{ℤ, pos, neg, ◌+ℤ◌, ◌-ℤ◌, int_laws, parts_of_eq}
use solo_lmnp.Prelude.Text.{Text, same_text}
use solo_lmnp.Ledger.State.{AccountType, LineInput}
use solo_lmnp.Closing.Central.{
  total_of, is_income, is_expense, incomes, expenses, ledger_income, to_credit, to_debit,
  expense_lines, income_lines, closing_lines,
}

-- Debit less credit of the lines on the accounts of a set.
unfoldable pub net_where : (Text → Bool) → List LineInput → ℤ
net_where f [] = pos 0
net_where f (l ∷ ls) =
    (if f l.account_number then pos l.debit -ℤ pos l.credit else pos 0) +ℤ net_where f ls

unfoldable pub sum_where : (Text → Bool) → List (Text × ℤ) → ℤ
sum_where f [] = pos 0
sum_where f (x ∷ xs) = (if f x.0 then x.1 else pos 0) +ℤ sum_where f xs

plus_assoc : (a b c : ℤ) → (a +ℤ b) +ℤ c ≡ a +ℤ (b +ℤ c)
plus_assoc a b c = grind int_laws

zero_left : (a : ℤ) → pos 0 +ℤ a ≡ a
zero_left a = grind (int_laws, a)

zero_right : (a : ℤ) → a +ℤ pos 0 ≡ a
zero_right a = grind (int_laws, a)

net_where-append :
    (f : Text → Bool) (xs ys : List LineInput)
    → net_where f (xs ++ ys) ≡ net_where f xs +ℤ net_where f ys
unfolding net_where
net_where-append f [] ys = sym (zero_left _)
net_where-append f (x ∷ xs) ys =
    ap (λ n. (if f x.account_number then pos x.debit -ℤ pos x.credit else pos 0) +ℤ n)
      (net_where-append f xs ys)
    ∙ sym (plus_assoc _ _ _)

net_where-to_credit :
    (f : Text → Bool) (number : Text) (cents : ℤ)
    → net_where f (to_credit number cents) ≡ (if f number then neg cents else pos 0)
unfolding net_where to_credit ◌+ℤ◌ ◌-ℤ◌ neg
net_where-to_credit f number cents = ground arith

net_where-to_debit :
    (f : Text → Bool) (number : Text) (cents : ℤ)
    → net_where f (to_debit number cents) ≡ (if f number then cents else pos 0)
unfolding net_where to_debit ◌+ℤ◌ ◌-ℤ◌
net_where-to_debit f number cents = ground arith

neg_plus : (a b : ℤ) → neg a +ℤ neg b ≡ neg (a +ℤ b)
neg_plus a b = grind int_laws

net_where-expense_lines :
    (f : Text → Bool) (rows : List (Text × ℤ))
    → net_where f (expense_lines rows) ≡ neg (sum_where f rows)
unfolding net_where expense_lines sum_where
net_where-expense_lines f [] = omega int_laws
net_where-expense_lines f (x ∷ xs) =
    net_where-append f (to_credit x.0 x.1) (expense_lines xs) ∙ elim (Bool-cases (f x.0)) [
      | inl e ↦ rw (net_where-to_credit f x.0 x.1, e, net_where-expense_lines f xs) (neg_plus _ _)
      | inr e ↦
          rw (net_where-to_credit f x.0 x.1, e, net_where-expense_lines f xs) (grind (int_laws))
    ]

net_where-income_lines :
    (f : Text → Bool) (rows : List (Text × ℤ)) → net_where f (income_lines rows) ≡ sum_where f rows
unfolding net_where income_lines sum_where
net_where-income_lines f [] = refl
net_where-income_lines f (x ∷ xs) =
    net_where-append f (to_debit x.0 x.1) (income_lines xs)
    ∙ rw (net_where-to_debit f x.0 x.1, net_where-income_lines f xs) refl

-- What the incomes and expenses of a set of accounts add up to, debit less credit.
unfoldable pub class_net : (Text → AccountType) → (Text → Bool) → List (Text × ℤ) → ℤ
class_net kind_of f [] = pos 0
class_net kind_of f (x ∷ xs) =
    (if f x.0
      then if is_income (kind_of x.0) || is_expense (kind_of x.0) then x.1 else pos 0
      else pos 0)
    +ℤ class_net kind_of f xs

not_both : (k : AccountType) → is_income k ≡ true → is_expense k ≡ false
not_both AccountType.asset h = refl
not_both AccountType.liability h = refl
not_both AccountType.equity h = refl
not_both AccountType.expense h = cc
not_both AccountType.income h = refl

income_step : (x i e c : ℤ) → i -ℤ e ≡ neg c → (neg x +ℤ i) -ℤ e ≡ neg (x +ℤ c)
income_step x i e c h = let q = parts_of_eq h in grind int_laws

expense_step : (x i e c : ℤ) → i -ℤ e ≡ neg c → i -ℤ (x +ℤ e) ≡ neg (x +ℤ c)
expense_step x i e c h = let q = parts_of_eq h in grind int_laws

idle_step : (i e c : ℤ) → i -ℤ e ≡ neg c → (pos 0 +ℤ i) -ℤ e ≡ neg (pos 0 +ℤ c)
idle_step i e c h = let q = parts_of_eq h in grind int_laws

idle_expense : (i e c : ℤ) → i -ℤ e ≡ neg c → i -ℤ (pos 0 +ℤ e) ≡ neg (pos 0 +ℤ c)
idle_expense i e c h = let q = parts_of_eq h in grind int_laws

no_step : (i e c : ℤ) → i -ℤ e ≡ neg c → i -ℤ e ≡ neg (pos 0 +ℤ c)
no_step i e c h = let q = parts_of_eq h in grind int_laws

class_net-split :
    (kind_of : Text → AccountType) (f : Text → Bool) (nets : List (Text × ℤ))
    → sum_where f (incomes kind_of nets) -ℤ sum_where f (expenses kind_of nets)
      ≡ neg (class_net kind_of f nets)
unfolding sum_where incomes expenses class_net
class_net-split kind_of f [] = omega int_laws
class_net-split kind_of f (x ∷ xs) =
    let ih = class_net-split kind_of f xs in
    elim (Bool-cases (is_income (kind_of x.0))) [
      | inl e ↦
          let other = not_both (kind_of x.0) e in
          elim (Bool-cases (f x.0)) [
            | inl q ↦ rw (e, other, q) (income_step x.1 _ _ _ ih)
            | inr q ↦ rw (e, other, q) (idle_step _ _ _ ih)
          ]
      | inr e ↦ elim (Bool-cases (is_expense (kind_of x.0))) [
        | inl d ↦ elim (Bool-cases (f x.0)) [
          | inl q ↦ rw (e, d, q) (expense_step x.1 _ _ _ ih)
          | inr q ↦ rw (e, d, q) (idle_expense _ _ _ ih)
        ]
        | inr d ↦ elim (Bool-cases (f x.0)) [
          | inl q ↦ rw (e, d, q) (no_step _ _ _ ih)
          | inr q ↦ rw (e, d, q) (no_step _ _ _ ih)
        ]
      ]
    ]

total_of-sum_where : (l : List (Text × ℤ)) → total_of l ≡ sum_where (λ k. true) l
unfolding sum_where
total_of-sum_where [] = refl
total_of-sum_where (x ∷ xs) = ap (λ n. x.1 +ℤ n) (total_of-sum_where xs)

whole : (i e : ℤ) → neg e +ℤ (i +ℤ neg (i -ℤ e)) ≡ pos 0
whole i e = grind int_laws

others : (i e : ℤ) → neg e +ℤ (i +ℤ pos 0) ≡ i -ℤ e
others i e = grind int_laws

-- The three parts of the entry.
closing_net :
    (kind_of : Text → AccountType) (nets : List (Text × ℤ)) (number : Text) (f : Text → Bool)
    → net_where f (closing_lines (ledger_income kind_of nets) (some number))
      ≡ neg (sum_where f (expenses kind_of nets))
        +ℤ (sum_where f (incomes kind_of nets)
            +ℤ (if f number
                then neg (total_of (incomes kind_of nets) -ℤ total_of (expenses kind_of nets))
                else pos 0))
unfolding closing_lines ledger_income
closing_net kind_of nets number f =
    let result = total_of (incomes kind_of nets) -ℤ total_of (expenses kind_of nets) in
    net_where-append f (expense_lines (expenses kind_of nets))
      (income_lines (incomes kind_of nets) ++ to_credit number result)
    ∙ rw
        (
          net_where-expense_lines f (expenses kind_of nets),
          net_where-append f (income_lines (incomes kind_of nets)) (to_credit number result),
          net_where-income_lines f (incomes kind_of nets),
          net_where-to_credit f number result,
        )
        refl

-- The lines of the centralisation on a result account are balanced, and on any other account they
-- are the opposite of what is left on it if it is an account of incomes or expenses, and nothing if
-- it is not.
pub closing_lines-settles :
    (kind_of : Text → AccountType) (nets : List (Text × ℤ)) (number : Text)
    → (net_where (λ k. true) (closing_lines (ledger_income kind_of nets) (some number)) ≡ pos 0)
      × ((a : Text)
          → same_text number a ≡ false
          → net_where
              (λ k. same_text k a)
              (closing_lines (ledger_income kind_of nets) (some number))
            ≡ neg (class_net kind_of (λ k. same_text k a) nets))
unfolding closing_lines ledger_income
closing_lines-settles kind_of nets number = (
  closing_net kind_of nets number (λ k. true)
      ∙ rw (total_of-sum_where (incomes kind_of nets), total_of-sum_where (expenses kind_of nets))
          (whole (sum_where (λ k. true) (incomes kind_of nets))
            (sum_where (λ k. true) (expenses kind_of nets))),
  λ a other.
      closing_net kind_of nets number (λ k. same_text k a)
      ∙ rw other (
          others (sum_where (λ k. same_text k a) (incomes kind_of nets))
            (sum_where (λ k. same_text k a) (expenses kind_of nets)))
      ∙ class_net-split kind_of (λ k. same_text k a) nets,
)
