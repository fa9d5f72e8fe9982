-- ===== src/Fiscal/Engine/Consume.antt =====
-- `_consume` of engine.py against an independent description: the oldest stock gives first.
use mathlib.Core.List.{append-nil, append_assoc}
use solo_lmnp.Prelude.{
  ◌≡◌, refl, sym, ap, inl, inr, true, false, List, [], ◌∷◌, ◌++◌, if◌then◌else◌, arith, Bool-cases,
}
use solo_lmnp.Prelude.Int.{
  ℤ, pos, ◌+ℤ◌, ◌-ℤ◌, ◌≤ℤ◌, leb_ℤ, min_ℤ, max_ℤ, int_laws, order_laws, -ℤ_parts, eq_of_parts,
  parts_of_eq, leb_ℤ→le, leb_ℤ→gt, min_ℤ_parts, max_ℤ_parts,
}
use solo_lmnp.Fiscal.Engine.{Stock, Movement, remaining_before, use_movement, consume_loop, consume}

-- What all the stocks still hold.
abbrev pub total_remaining : List Stock → ℤ
total_remaining [] = pos 0
total_remaining (s ∷ stocks) = remaining_before s +ℤ total_remaining stocks

abbrev pub total_amount : List Movement → ℤ
total_amount [] = pos 0
total_amount (m ∷ moves) = m.amount +ℤ total_amount moves

-- The share of a stock behind older ones that hold `before`: what the budget leaves them, at most
-- its own remainder.
abbrev pub share : ℤ → Stock → ℤ → ℤ
share before s budget = min_ℤ (remaining_before s) (max_ℤ (pos 0) (budget -ℤ before))

-- One movement for each stock with a positive share, in the order of the stocks.
abbrev pub oldest_first : ℤ → List Stock → ℤ → List Movement
oldest_first before [] budget = []
oldest_first before (s ∷ stocks) budget =
    let t = share before s budget in
    let rest = oldest_first (before +ℤ remaining_before s) stocks budget in
    if leb_ℤ t (pos 0) then rest else use_movement s (remaining_before s) t ∷ rest

pub remaining_nonneg : (s : Stock) → pos 0 ≤ℤ remaining_before s
unfolding remaining_before
remaining_nonneg s = omega order_laws

pub total_remaining_nonneg : (stocks : List Stock) → pos 0 ≤ℤ total_remaining stocks
total_remaining_nonneg [] = omega arith
total_remaining_nonneg (s ∷ stocks) =
    omega (int_laws, remaining_nonneg s, total_remaining_nonneg stocks)

share_spent :
    (before : ℤ) (s : Stock) (budget : ℤ)
    → budget ≤ℤ before
    → leb_ℤ (share before s budget) (pos 0) ≡ true
share_spent before s budget h = grind (
  arith,
  -ℤ_parts budget before,
  min_ℤ_parts (remaining_before s) (max_ℤ (pos 0) (budget -ℤ before)),
  max_ℤ_parts (pos 0) (budget -ℤ before),
)

oldest_first-spent :
    (before : ℤ) (stocks : List Stock) (budget : ℤ)
    → budget ≤ℤ before
    → oldest_first before stocks budget ≡ []
oldest_first-spent before [] budget h = refl
oldest_first-spent before (s ∷ stocks) budget h = rw (share_spent before s budget h) (
    oldest_first-spent (before +ℤ remaining_before s) stocks budget
      (omega (int_laws, remaining_nonneg s)))

-- While the budget lasts, what is left of it is the budget less what older stocks hold.
share-take :
    (before : ℤ) (s : Stock) (budget left : ℤ)
    → max_ℤ (pos 0) left ≡ max_ℤ (pos 0) (budget -ℤ before)
    → leb_ℤ left (pos 0) ≡ false
    → share before s budget ≡ min_ℤ (remaining_before s) left
share-take before s budget left h go = rw (← h) (ap (min_ℤ (remaining_before s)) positive)
  where
    positive : max_ℤ (pos 0) left ≡ left
    positive = grind (arith, max_ℤ_parts (pos 0) left, eq_of_parts (max_ℤ (pos 0) left) left)

left-step :
    (before r budget left : ℤ)
    → pos 0 ≤ℤ r
    → max_ℤ (pos 0) left ≡ max_ℤ (pos 0) (budget -ℤ before)
    → max_ℤ (pos 0) (left -ℤ min_ℤ r left) ≡ max_ℤ (pos 0) (budget -ℤ (before +ℤ r))
left-step before r budget left nonneg h = let e = parts_of_eq h in omega order_laws

left-skip :
    (before r budget left : ℤ)
    → pos 0 ≤ℤ r
    → max_ℤ (pos 0) left ≡ max_ℤ (pos 0) (budget -ℤ before)
    → leb_ℤ left (pos 0) ≡ false
    → leb_ℤ (min_ℤ r left) (pos 0) ≡ true
    → max_ℤ (pos 0) left ≡ max_ℤ (pos 0) (budget -ℤ (before +ℤ r))
left-skip before r budget left nonneg h go skip =
    let e = parts_of_eq h in
    let p = leb_ℤ→gt left (pos 0) go in
    let q = leb_ℤ→le (min_ℤ r left) (pos 0) skip in omega order_laws

left-stop :
    (before budget left : ℤ)
    → max_ℤ (pos 0) left ≡ max_ℤ (pos 0) (budget -ℤ before)
    → leb_ℤ left (pos 0) ≡ true
    → budget ≤ℤ before
left-stop before budget left h stop =
    let e = parts_of_eq h in let p = leb_ℤ→le left (pos 0) stop in omega order_laws

pair_eq {ℓ κ} :
    {A : Type ℓ} {B : Type κ} {a c : A} {b d : B} → a ≡ c → b ≡ d → ◌≡◌ {A = A × B} (a, b) (c, d)
pair_eq p q = cc

consume_loop-oldest_first :
    (stocks : List Stock) (before budget left : ℤ) (uses : List Movement) (used_total : ℤ)
    → max_ℤ (pos 0) left ≡ max_ℤ (pos 0) (budget -ℤ before)
    → consume_loop stocks left uses used_total ≡ (
      uses ++ oldest_first before stocks budget,
      used_total +ℤ total_amount (oldest_first before stocks budget),
    )
unfolding consume_loop
consume_loop-oldest_first [] before budget left uses used_total h =
    pair_eq (sym (append-nil uses)) (omega int_laws)
consume_loop-oldest_first (s ∷ stocks) before budget left uses used_total h =
    elim (Bool-cases (leb_ℤ left (pos 0))) [
      | inl stop ↦
          rw
            (
              stop,
              oldest_first-spent before (s ∷ stocks) budget (left-stop before budget left h stop),
            )
            (pair_eq (sym (append-nil uses)) (omega int_laws))
      | inr go ↦ elim (Bool-cases (leb_ℤ (min_ℤ (remaining_before s) left) (pos 0))) [
        | inl skip ↦
            rw (share-take before s budget left h go, go, skip)
              (consume_loop-oldest_first stocks (before +ℤ remaining_before s) budget left uses
                used_total
                (left-skip before (remaining_before s) budget left (remaining_nonneg s) h go skip))
        | inr take ↦
            rw (share-take before s budget left h go, go, take)
              (rw
                (consume_loop-oldest_first stocks (before +ℤ remaining_before s) budget
                  (left -ℤ min_ℤ (remaining_before s) left)
                  (uses
                    ++ (use_movement s (remaining_before s) (min_ℤ (remaining_before s) left) ∷ []))
                  (used_total +ℤ min_ℤ (remaining_before s) left)
                  (left-step before (remaining_before s) budget left (remaining_nonneg s) h))
                (pair_eq (append_assoc uses _ _) (unfold use_movement in omega int_laws)))
      ]
    ]

-- The shares of all stocks add up to the budget, or to all that the stocks hold.
total_amount-oldest_first :
    (before : ℤ) (stocks : List Stock) (budget : ℤ)
    → total_amount (oldest_first before stocks budget)
      ≡ min_ℤ (max_ℤ (pos 0) (budget -ℤ before)) (total_remaining stocks)
unfolding use_movement
total_amount-oldest_first before [] budget = omega order_laws
total_amount-oldest_first before (s ∷ stocks) budget =
    let ih = total_amount-oldest_first (before +ℤ remaining_before s) stocks budget in
    let e = parts_of_eq ih in
    let r = remaining_nonneg s in
    let t = total_remaining_nonneg stocks in
    elim (Bool-cases (leb_ℤ (share before s budget) (pos 0))) [
      | inl none_left ↦
          let p = leb_ℤ→le (share before s budget) (pos 0) none_left in
          rw none_left (omega order_laws)
      | inr some_left ↦
          let p = leb_ℤ→gt (share before s budget) (pos 0) some_left in
          rw some_left (omega order_laws)
    ]

-- The loop takes from the stocks oldest first: it makes exactly one movement for each stock with
-- a positive share, in order, and the amount that it reports is the smaller of the budget (0 if
-- the budget is negative) and of what all the stocks hold.
pub consume-oldest_first :
    (stocks : List Stock) (budget : ℤ)
    → (let (uses, used_total) = consume stocks budget in
        (uses ≡ oldest_first (pos 0) stocks budget)
        × (used_total ≡ min_ℤ (max_ℤ (pos 0) budget) (total_remaining stocks))
        × (total_amount uses ≡ used_total))
unfolding consume
consume-oldest_first stocks budget =
    let e = consume_loop-oldest_first stocks (pos 0) budget budget [] (pos 0) (omega order_laws) in
    let all = total_amount-oldest_first (pos 0) stocks budget in
    rw e (refl, rw all (omega order_laws), omega order_laws)
