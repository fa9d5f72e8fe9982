-- ===== src/Prelude/Text/Decimal.antt =====
-- Decimal numerals, as Python's `str` and the formats `:02d`, `:04d`, `:06d` write them.
use solo_lmnp.Prelude.{
  ℕ, zero, suc, ◌+◌, ◌-◌, ◌*◌, ◌/◌, ◌%◌, ◌<◌, ◌≡◌, refl, sym, ap, ◌∙◌, inl, inr, List, [], ◌∷◌,
  ◌++◌, ◌≤◌, All, All-append, length-append, true, length, ltb, if◌then◌else◌, arith, Bool-cases,
}

-- The digits of a number; the fuel is one more than the number, which is more than its digits.
unfoldable pub digits_fuel : ℕ → ℕ → List ℕ
digits_fuel zero n = []
digits_fuel (suc fuel) n =
    let more = digits_fuel fuel (n / 10) ++ ((b'0' + n % 10) ∷ []) in
    if ltb n 10 then (b'0' + n) ∷ [] else more

unfoldable pub decimal : ℕ → List ℕ
unfolding digits_fuel
decimal n = digits_fuel (suc n) n

unfoldable pub zeros : ℕ → List ℕ
zeros zero = []
zeros (suc k) = b'0' ∷ zeros k

-- A number written with at least `width` digits.
unfoldable pub padded : ℕ → ℕ → List ℕ
unfolding zeros decimal
padded width n = let d = decimal n in zeros (width - length d) ++ d

-- The number that a row of digits stands for.
unfoldable pub value_from : ℕ → List ℕ → ℕ
value_from acc [] = acc
value_from acc (c ∷ t) = value_from (acc * 10 + (c - b'0')) t

pub value_from-append :
    (acc : ℕ) (s t : List ℕ) → value_from acc (s ++ t) ≡ value_from (value_from acc s) t
unfolding value_from
value_from-append acc [] t = refl
value_from-append acc (c ∷ s) t = value_from-append (acc * 10 + (c - b'0')) s t

value_from-digits_fuel : (fuel n : ℕ) → n < fuel → value_from 0 (digits_fuel fuel n) ≡ n
unfolding digits_fuel value_from
value_from-digits_fuel zero n h = elim h [ ]
value_from-digits_fuel (suc fuel) n h = elim (Bool-cases (ltb n 10)) [
  | inl small ↦ rw small (omega arith)
  | inr large ↦
      let ih : value_from 0 (digits_fuel fuel (n / 10)) ≡ n / 10 =
        value_from-digits_fuel fuel (n / 10) (ground arith) in
      rw (large, value_from-append 0 (digits_fuel fuel (n / 10)) ((b'0' + n % 10) ∷ []), ih)
        (omega arith)
]

pub value_from-decimal : (n : ℕ) → value_from 0 (decimal n) ≡ n
unfolding decimal
value_from-decimal n = value_from-digits_fuel (suc n) n (omega arith)

value_from-zeros : (k : ℕ) (t : List ℕ) → value_from 0 (zeros k ++ t) ≡ value_from 0 t
unfolding zeros value_from
value_from-zeros zero t = refl
value_from-zeros (suc k) t = value_from-zeros k t

-- Reading a padded number gives the number back.
pub value_from-padded : (width n : ℕ) → value_from 0 (padded width n) ≡ n
unfolding padded decimal
value_from-padded width n =
    value_from-zeros (width - length (decimal n)) (decimal n)
    ∙ value_from-digits_fuel (suc n) n (omega arith)

pub padded-injective : (width : ℕ) {m n : ℕ} → padded width m ≡ padded width n → m ≡ n
padded-injective width {m} {n} h =
    sym (value_from-padded width m) ∙ ap (value_from 0) h ∙ value_from-padded width n

-- The code points of the digits.
abbrev pub IsDigit : ℕ → Type 0
IsDigit c = (b'0' ≤ c) × (c ≤ b'9')

digits_fuel-IsDigit : (fuel n : ℕ) → All IsDigit (digits_fuel fuel n)
unfolding digits_fuel
digits_fuel-IsDigit zero n = tt
digits_fuel-IsDigit (suc fuel) n = elim (Bool-cases (ltb n 10)) [
  | inl small ↦ rw small ((ground (arith, small), ground (arith, small)), tt)
  | inr large ↦ rw large (
      All-append IsDigit (digits_fuel fuel (n / 10)) ((b'0' + n % 10) ∷ [])
        (digits_fuel-IsDigit fuel (n / 10)) ((omega arith, omega arith), tt))
]

pub decimal-IsDigit : (n : ℕ) → All IsDigit (decimal n)
unfolding decimal
decimal-IsDigit n = digits_fuel-IsDigit (suc n) n

zeros-IsDigit : (k : ℕ) → All IsDigit (zeros k)
unfolding zeros
zeros-IsDigit zero = tt
zeros-IsDigit (suc k) = ((omega arith, omega arith), zeros-IsDigit k)

pub padded-IsDigit : (width n : ℕ) → All IsDigit (padded width n)
unfolding padded
padded-IsDigit width n =
    All-append IsDigit (zeros (width - length (decimal n))) (decimal n) (zeros-IsDigit _)
      (decimal-IsDigit n)

-- A number below a hundred takes two digits.
pub length-padded_two : (n : ℕ) → n < 100 → length (padded 2 n) ≡ 2
unfolding padded decimal digits_fuel zeros
length-padded_two zero h = refl
length-padded_two (suc n) h = elim (Bool-cases (ltb (suc n) 10)) [
  | inl small ↦ rw small refl
  | inr large ↦ let tens : ltb (suc n / 10) 10 ≡ true = ground arith in rw (large, tens) refl
]

pub not_empty : (n : ℕ) → 0 < length (decimal n)
unfolding decimal digits_fuel
not_empty n = elim (Bool-cases (ltb n 10)) [
  | inl small ↦ rw small (omega arith)
  | inr large ↦
      rw (large, length-append (digits_fuel n (n / 10)) ((b'0' + n % 10) ∷ [])) (omega arith)
]
