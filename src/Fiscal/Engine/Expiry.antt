-- ===== src/Fiscal/Engine/Expiry.antt =====
-- `_expire_losses` of engine.py: the tax losses are split by the ten-year horizon.
use solo_lmnp.Prelude.{
  ◌≡◌, refl, ◌∙◌, inl, inr, true, false, List, [], ◌∷◌, ◌++◌, Bool-cases, All, All-append,
}
use solo_lmnp.Prelude.Int.{ℤ, pos, ◌+ℤ◌, ◌-ℤ◌, ◌≤ℤ◌, ◌<ℤ◌, leb_ℤ, int_laws, leb_ℤ→le, leb_ℤ→gt}
use solo_lmnp.Fiscal.Engine.{
  Stock, Movement, expired, remaining_before, loss_is_inside_horizon, expiry_movement, expire_one,
  expire_loop, expire_losses, tax_loss_horizon_years,
}
use solo_lmnp.Fiscal.Engine.Consume.{total_remaining, total_amount, remaining_nonneg}

-- A loss that can still be deducted in `year`: something is left, and the origin year is one of
-- the ten years before.
pub record IsUsable (year : ℤ) (s : Stock) : Type 0 where
  pub left : pos 0 <ℤ remaining_before s
  pub inside : year ≤ℤ s.origin_year +ℤ pos 10

-- The movement of a loss that is lost in `year`.
pub record IsExpiry (year : ℤ) (m : Movement) : Type 0 where
  pub is_expired : m.kind ≡ expired
  pub positive : pos 0 <ℤ m.amount
  pub nothing_left : m.remaining_after ≡ pos 0
  pub outside : m.origin_year +ℤ pos 10 <ℤ year

-- What the two lists of the loop hold together.
abbrev held : List Movement × List Stock → ℤ
held (expiries, usable) = total_amount expiries +ℤ total_remaining usable

abbrev IsSplit : ℤ → List Movement × List Stock → Type 0
IsSplit year (expiries, usable) = All (IsExpiry year) expiries × All (IsUsable year) usable

total_amount-append :
    (xs ys : List Movement) → total_amount (xs ++ ys) ≡ total_amount xs +ℤ total_amount ys
total_amount-append [] ys = omega int_laws
total_amount-append (x ∷ xs) ys = rw (total_amount-append xs ys) (omega int_laws)

total_remaining-append :
    (xs ys : List Stock) → total_remaining (xs ++ ys) ≡ total_remaining xs +ℤ total_remaining ys
total_remaining-append [] ys = omega int_laws
total_remaining-append (x ∷ xs) ys = rw (total_remaining-append xs ys) (omega int_laws)

inside_lem :
    (s : Stock) (year : ℤ)
    → loss_is_inside_horizon s.origin_year year ≡ true
    → year ≤ℤ s.origin_year +ℤ pos 10
unfolding loss_is_inside_horizon
inside_lem s year h =
    let p = leb_ℤ→le (year -ℤ tax_loss_horizon_years) s.origin_year h in omega int_laws

outside_lem :
    (s : Stock) (year : ℤ)
    → loss_is_inside_horizon s.origin_year year ≡ false
    → s.origin_year +ℤ pos 10 <ℤ year
unfolding loss_is_inside_horizon
outside_lem s year h =
    let p = leb_ℤ→gt (year -ℤ tax_loss_horizon_years) s.origin_year h in omega int_laws

-- One turn keeps the two lists sorted out, and moves what the stock holds into one of them.
expire_one-IsSplit :
    (year : ℤ) (acc : List Movement × List Stock) (s : Stock)
    → IsSplit year acc
    → IsSplit year (expire_one year acc s)
      × (held (expire_one year acc s) ≡ held acc +ℤ remaining_before s)
unfolding expire_one
expire_one-IsSplit year (expiries, usable) s h =
    let r = remaining_nonneg s in
    elim (Bool-cases (leb_ℤ (remaining_before s) (pos 0))) [
      | inl empty ↦
          let p = leb_ℤ→le (remaining_before s) (pos 0) empty in rw empty (h, omega int_laws)
      | inr some_left ↦
          let p = leb_ℤ→gt (remaining_before s) (pos 0) some_left in
          elim (Bool-cases (loss_is_inside_horizon s.origin_year year)) [
            | inl inside ↦
                rw (some_left, inside)
                  (
                    (
                      h.0,
                      All-append (IsUsable year) usable (s ∷ []) h.1
                          (record { left = p; inside = inside_lem s year inside }, tt),
                    ),
                    rw (total_remaining-append usable (s ∷ [])) (omega int_laws),
                  )
            | inr outside ↦
                rw (some_left, outside)
                  (
                    (
                      All-append (IsExpiry year) expiries
                          (expiry_movement s (remaining_before s) ∷ []) h.0
                          (
                            record {
                              is_expired = refl;
                              positive = p;
                              nothing_left = refl;
                              outside = outside_lem s year outside;
                            },
                            tt,
                          ),
                      h.1,
                    ),
                    rw (total_amount-append expiries (expiry_movement s (remaining_before s) ∷ []))
                        (omega int_laws),
                  )
          ]
    ]

expire_loop-IsSplit :
    (year : ℤ) (acc : List Movement × List Stock) (stocks : List Stock)
    → IsSplit year acc
    → IsSplit year (expire_loop year acc stocks)
      × (held (expire_loop year acc stocks) ≡ held acc +ℤ total_remaining stocks)
unfolding expire_loop
expire_loop-IsSplit year acc [] h = (h, omega int_laws)
expire_loop-IsSplit year acc (s ∷ stocks) h =
    let one = expire_one-IsSplit year acc s h in
    let rest = expire_loop-IsSplit year (expire_one year acc s) stocks one.0 in
    (rest.0, rw (rest.1, one.1) (omega int_laws))

-- Every loss with something left is either usable, and then it is at most ten years old, or it
-- expires in full, and then it is older; what the two lists hold together is what the stocks held.
pub expire_losses-IsSplit :
    (year : ℤ) (stocks : List Stock)
    → (let (expiries, usable) = expire_losses year stocks in
        All (IsExpiry year) expiries
        × All (IsUsable year) usable
        × (total_amount expiries +ℤ total_remaining usable ≡ total_remaining stocks))
unfolding expire_losses
expire_losses-IsSplit year stocks =
    let all = expire_loop-IsSplit year ([], []) stocks (tt, tt) in
    (all.0.0, all.0.1, all.1 ∙ (omega int_laws))
