-- ===== src/Filing/Fec/Money.antt =====
-- An amount is read as it was written.
use solo_lmnp.Prelude.{
  ℕ, ◌/◌, ◌%◌, ◌<◌, ◌≡◌, refl, ap, ◌∙◌, true, false, some, [], ◌∷◌, ◌++◌, ◌==◌, length, arith, All,
}
use solo_lmnp.Prelude.Text.{Text}
use solo_lmnp.Prelude.Text.Decimal.{
  decimal, padded, value_from, value_from-decimal, value_from-padded, IsDigit, decimal-IsDigit,
  padded-IsDigit, length-padded_two, not_empty,
}
use solo_lmnp.Filing.Fec.{Python, all_of, money, split_comma, has_digits, amount}

-- What Python's tests and `int` do on the digits from 0 to 9.
pub record IsPython (p : Python) : Type 0 where
  pub digits : (c : ℕ) → IsDigit c → p.is_digit c ≡ true
  pub reads : (t : Text) → All IsDigit t → p.int_of t ≡ value_from 0 t

split_comma-append : (s t : Text) → All IsDigit s → split_comma (s ++ (b',' ∷ t)) ≡ some (s, t)
unfolding split_comma
split_comma-append [] t h = refl
split_comma-append (c ∷ s) t h =
    let digit = h.0 in
    let other : (c == b',') ≡ false = ground (arith, digit) in
    rw (other, split_comma-append s t h.1) refl

all_of-IsDigit : (p : Python) → IsPython p → (t : Text) → All IsDigit t → all_of p.is_digit t ≡ true
all_of-IsDigit p k [] h = refl
all_of-IsDigit p k (c ∷ t) h = rw (k.digits c h.0) (all_of-IsDigit p k t h.1)

has_digits-IsDigit :
    (p : Python) → IsPython p → (t : Text) → All IsDigit t → 0 < length t → has_digits p t ≡ true
has_digits-IsDigit p k [] h n = absurd (no_less n)
  where
    no_less : 0 < 0 → ⊥
    no_less q = omega (arith, q)
has_digits-IsDigit p k (c ∷ t) h n = all_of-IsDigit p k (c ∷ t) h

-- The amount of a cell that was written from some cents is those cents.
pub amount-money : (p : Python) (cents : ℕ) → IsPython p → amount p (money cents) ≡ some cents
unfolding amount money
amount-money p cents k =
    let whole = decimal (cents / 100) in
    let part = padded 2 (cents % 100) in
    let split = split_comma-append whole part (decimal-IsDigit (cents / 100)) in
    let two = length-padded_two (cents % 100) (omega arith) in
    let whole_digits =
      has_digits-IsDigit p k whole (decimal-IsDigit (cents / 100)) (not_empty (cents / 100)) in
    let part_digits =
      has_digits-IsDigit p k part (padded-IsDigit 2 (cents % 100)) (omega (arith, two)) in
    let whole_value =
      k.reads whole (decimal-IsDigit (cents / 100)) ∙ value_from-decimal (cents / 100) in
    let part_value =
      k.reads part (padded-IsDigit 2 (cents % 100)) ∙ value_from-padded 2 (cents % 100) in
    rw (split, two, whole_digits, part_digits, whole_value, part_value) (ap some (omega arith))
