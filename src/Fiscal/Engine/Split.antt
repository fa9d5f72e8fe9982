-- ===== src/Fiscal/Engine/Split.antt =====
-- `apply_lmnp` of engine.py: the cap on the depreciation, the carry-forwards and the result.
use solo_lmnp.Prelude.{◌≡◌, refl, inl, inr, List, [], ◌∷◌, ◌⊎◌, Bool-cases}
use solo_lmnp.Prelude.Int.{
  ℤ, pos, ◌+ℤ◌, ◌-ℤ◌, neg, ◌≤ℤ◌, ◌<ℤ◌, ◌≈◌, ltb_ℤ, min_ℤ, max_ℤ, int_laws, order_laws, ltb_ℤ→ge,
  leb_ℤ→le, leb_ℤ→gt, leb_ℤ, parts_of_eq,
}
use solo_lmnp.Fiscal.Engine.{
  Stock, YearInput, FiscalSplit, remaining_before, expire_losses, with_remaining, apply_lmnp,
}
use solo_lmnp.Fiscal.Engine.Consume.{
  total_remaining, remaining_nonneg, total_remaining_nonneg, consume-oldest_first,
}

-- The stocks that are left out hold nothing.
total_remaining-with_remaining :
    (stocks : List Stock) → total_remaining (with_remaining stocks) ≡ total_remaining stocks
unfolding with_remaining
total_remaining-with_remaining [] = refl
total_remaining-with_remaining (s ∷ stocks) =
    let ih = total_remaining-with_remaining stocks in
    let r = remaining_nonneg s in
    elim (Bool-cases (ltb_ℤ (pos 0) (remaining_before s))) [
      | inl full ↦ rw full (rw ih refl)
      | inr empty ↦
          let p = ltb_ℤ→ge (pos 0) (remaining_before s) empty in rw empty (rw ih (omega int_laws))
    ]

module _ (i : YearInput) where
  -- Rents less the other deductible charges, before any depreciation.
  abbrev pub base : ℤ
  base = i.income -ℤ i.other_charges +ℤ i.additions

  -- What `_consume` returns for the depreciation of former years.
  prior_depreciation :
      (apply_lmnp i).prior_depreciation_used
      ≡ min_ℤ
          ((apply_lmnp i).capacity -ℤ (apply_lmnp i).current_deductible)
          (total_remaining i.depreciation_stocks)
  unfolding apply_lmnp
  prior_depreciation =
      let left =
        max_ℤ (pos 0) (i.income -ℤ (i.other_charges -ℤ i.additions))
        -ℤ min_ℤ (max_ℤ (pos 0) i.depreciation)
            (max_ℤ (pos 0) (i.income -ℤ (i.other_charges -ℤ i.additions))) in
      let c = consume-oldest_first (with_remaining i.depreciation_stocks) left in
      rw (c.1, total_remaining-with_remaining i.depreciation_stocks) (omega order_laws)

  prior_losses :
      (apply_lmnp i).prior_tax_loss_used
      ≡ min_ℤ
          (max_ℤ (pos 0) (apply_lmnp i).fiscal_before_losses)
          (total_remaining (expire_losses i.year i.tax_loss_stocks).1)
  unfolding apply_lmnp
  prior_losses =
      let c =
        consume-oldest_first (expire_losses i.year i.tax_loss_stocks).1
          (max_ℤ (pos 0) (apply_lmnp i).fiscal_before_losses) in
      rw (c.1) (omega order_laws)

  -- The amounts of the year, each by the earlier ones.
  record Amounts (s : FiscalSplit) : Type 0 where
    capacity_lem : s.capacity ≈ max_ℤ (pos 0) base
    current_lem : s.current_deductible ≈ min_ℤ (max_ℤ (pos 0) i.depreciation) s.capacity
    unused_lem : s.unused_depreciation ≈ max_ℤ (pos 0) i.depreciation -ℤ s.current_deductible
    prior_lem :
        s.prior_depreciation_used
        ≈ min_ℤ (s.capacity -ℤ s.current_deductible) (total_remaining i.depreciation_stocks)
    before_lem :
        s.fiscal_before_losses ≈ base -ℤ (s.current_deductible +ℤ s.prior_depreciation_used)
    losses_lem :
        s.prior_tax_loss_used
        ≈ min_ℤ
            (max_ℤ (pos 0) s.fiscal_before_losses)
            (total_remaining (expire_losses i.year i.tax_loss_stocks).1)
    result_lem : s.fiscal_result ≈ s.fiscal_before_losses -ℤ s.prior_tax_loss_used
    loss_lem : s.tax_loss ≈ max_ℤ (pos 0) (neg s.fiscal_result)
    accounting_lem : s.accounting_result ≈ i.income -ℤ i.other_charges -ℤ i.depreciation
    additions_lem : s.additions ≈ i.additions
    stocks_nonneg : pos 0 ≤ℤ total_remaining i.depreciation_stocks
    losses_nonneg : pos 0 ≤ℤ total_remaining (expire_losses i.year i.tax_loss_stocks).1

  amounts : Amounts (apply_lmnp i)
  unfolding apply_lmnp
  amounts = record {
    capacity_lem = omega order_laws;
    current_lem = refl;
    unused_lem = refl;
    prior_lem = parts_of_eq prior_depreciation;
    before_lem = omega int_laws;
    losses_lem = parts_of_eq prior_losses;
    result_lem = refl;
    loss_lem = refl;
    accounting_lem = refl;
    additions_lem = refl;
    stocks_nonneg = total_remaining_nonneg i.depreciation_stocks;
    losses_nonneg = total_remaining_nonneg (expire_losses i.year i.tax_loss_stocks).1;
  }

  -- Neither the depreciation of the year, nor that of former years, nor a former loss makes or
  -- enlarges the loss of the year: it is the shortfall of the rents against the other deductible
  -- charges, and 0 if there is none.
  pub tax_loss-eq_shortfall : (apply_lmnp i).tax_loss ≡ max_ℤ (pos 0) (neg base)
  tax_loss-eq_shortfall = let a = amounts in omega order_laws

  -- The charge of the year, which is its depreciation or 0 if that is negative, is deducted or carried
  -- forward, never both; together with that of former years it stays within the capacity; and some
  -- is carried forward only where the capacity is used up, and then nothing of former years is
  -- deducted.
  pub depreciation_cap :
      let s = apply_lmnp i in
      (s.current_deductible +ℤ s.unused_depreciation ≡ max_ℤ (pos 0) i.depreciation)
      × (pos 0 ≤ℤ s.current_deductible)
      × (pos 0 ≤ℤ s.unused_depreciation)
      × (s.current_deductible +ℤ s.prior_depreciation_used ≤ℤ s.capacity)
      × ((s.unused_depreciation ≡ pos 0)
          ⊎ ((s.current_deductible ≡ s.capacity) × (s.prior_depreciation_used ≡ pos 0)))
  depreciation_cap =
      let a = amounts in
      let s = apply_lmnp i in
      (
        omega order_laws,
        omega order_laws,
        omega order_laws,
        omega order_laws,
        elim (Bool-cases (leb_ℤ s.unused_depreciation (pos 0))) [
          | inl all_deducted ↦
              let p = leb_ℤ→le s.unused_depreciation (pos 0) all_deducted in inl (omega order_laws)
          | inr some_left ↦
              let p = leb_ℤ→gt s.unused_depreciation (pos 0) some_left in
              inr (omega order_laws, omega order_laws)
        ],
      )

  -- The fiscal result is the accounting result with the additions, plus the depreciation that is
  -- carried forward, less the former depreciation and the former losses that are deducted; a
  -- negative depreciation, which the accounting result counts as a gain, is taken out of it.
  pub fiscal_result-reconciles :
      let s = apply_lmnp i in
      s.fiscal_result
      ≡ s.accounting_result
        +ℤ s.additions
        +ℤ s.unused_depreciation
        -ℤ s.prior_depreciation_used
        -ℤ s.prior_tax_loss_used
        +ℤ min_ℤ (pos 0) i.depreciation
  fiscal_result-reconciles = let a = amounts in omega order_laws

  -- A positive fiscal result is left only where every carry-forward is used up: all the
  -- depreciation of the year is deducted, and so are all of the former years and every former loss
  -- inside the horizon.
  pub positive_result-exhausts :
      pos 0 <ℤ (apply_lmnp i).fiscal_result
      → let s = apply_lmnp i in
        (s.unused_depreciation ≡ pos 0)
        × (s.prior_depreciation_used ≡ total_remaining i.depreciation_stocks)
        × (s.prior_tax_loss_used ≡ total_remaining (expire_losses i.year i.tax_loss_stocks).1)
  positive_result-exhausts h =
      let a = amounts in (omega order_laws, omega order_laws, omega order_laws)
