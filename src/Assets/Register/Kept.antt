-- ===== src/Assets/Register/Kept.antt =====
-- The creation of assets and components keeps the register sound.
use solo_lmnp.Prelude.{
  ℕ, ◌+◌, ◌≤◌, ◌<◌, ◌≡◌, refl, ap, subst, inl, inr, Bool, true, ◌&&◌, not, ltb, Option, none, some,
  List, [], ◌∷◌, ◌==◌, arith, All, Bool-cases,
}
use solo_lmnp.Prelude.Outcome.{ok, ok_inj, >>=-eq-ok, guard-eq-ok}
use solo_lmnp.Ledger.Reversal.{mem_id}
use solo_lmnp.Assets.Plan.{Calendar}
use solo_lmnp.Assets.Register.State.{
  Asset, Component, Estate, AssetInput, ComponentInput, AssetError, plan_refused,
  property_not_found, asset_not_found, component_parent_invalid, component_date_invalid,
  component_total_exceeds, existing, find_asset, components_of,
}
use solo_lmnp.Assets.Register.Create.{
  is_land, is_building, plan_valid, total_value, require_asset_accounts, require_component_accounts,
  create_asset, create_component,
}
use solo_lmnp.Assets.Register.Sound.{IsEstate}
use solo_lmnp.Assets.Register.Rows.{add_asset-IsEstate, add_component-IsEstate}

residual_le :
    (calendar : Calendar) (input : AssetInput)
    → plan_valid calendar input ≡ true
    → input.residual_value ≤ input.depreciable_value
unfolding plan_valid
residual_le calendar input h = elim (Bool-cases (is_land input.category)) [
  | inl e ↦ ground (arith, h, e)
  | inr e ↦ ground (arith, h, e)
]

pub create_asset-IsEstate :
    (calendar : Calendar) (fields_valid : AssetInput → Bool) (e : Estate) (input : AssetInput)
    (r : Asset × Estate)
    → IsEstate e
    → create_asset calendar fields_valid e input ≡ ok r
    → IsEstate r.1
unfolding create_asset
create_asset-IsEstate calendar fields_valid e input r inv h =
    let (valid, h1) =
      guard-eq-ok (fields_valid input && plan_valid calendar input) plan_refused _ h in
    let (known, h2) = guard-eq-ok (mem_id input.property_id e.properties) property_not_found _ h1 in
    let (paired, e3, h3) =
      >>=-eq-ok
        (require_asset_accounts e.db input.category input.asset_account input.depreciation_account)
        _ h2 in
    let plan : plan_valid calendar input ≡ true = ground (arith, valid) in
    subst (λ (x : Asset × Estate). IsEstate x.1) (ok_inj h3)
      (add_asset-IsEstate e _ inv refl (residual_le calendar input plan))

pub existing-eq-ok {ℓ} :
    {A : Type ℓ} (o : Option A) (x : AssetError) {a : A} → existing o x ≡ ok a → o ≡ some a
existing-eq-ok none x h = cc
existing-eq-ok (some b) x h = ap some (ok_inj h)

find_asset-below :
    (k n : ℕ) (l : List Asset) (a : Asset)
    → All (λ x. x.id < n) l
    → find_asset k l ≡ some a
    → (a.id ≡ k) × (k < n)
unfolding find_asset
find_asset-below k n [] a h f = cc
find_asset-below k n (x ∷ l) a h f = elim (Bool-cases (x.id == k)) [
  | inl e ↦
      let same : x ≡ a = some_inj x a (rw e at f) in
      let le = h.0 in
      subst (λ (y : Asset). (y.id ≡ k) × (k < n)) same (ground (arith, e), ground (arith, e, le))
  | inr e ↦ find_asset-below k n l a h.1 (rw e at f)
]
  where
    some_inj : (x y : Asset) → ◌≡◌ {A = Option Asset} (some x) (some y) → x ≡ y
    some_inj x y q = cc

pub create_component-IsEstate :
    (calendar : Calendar) (e : Estate) (asset_id : ℕ) (input : ComponentInput)
    (r : Component × Estate)
    → IsEstate e
    → create_component calendar e asset_id input ≡ ok r
    → IsEstate r.1
unfolding create_component
create_component-IsEstate calendar e asset_id input r inv h =
    let (positive, h0) = guard-eq-ok (ltb 0 input.value) plan_refused _ h in
    let (asset, e1, h1) =
      >>=-eq-ok (existing (find_asset asset_id e.assets) asset_not_found) _ h0 in
    let (parent, h2) = guard-eq-ok (is_building asset.category) component_parent_invalid _ h1 in
    let (later, h3) =
      guard-eq-ok
        (not (
          ltb (calendar.ordinal input.service_start_date)
            (calendar.ordinal asset.service_start_date)))
        component_date_invalid _ h2 in
    let (paired, e4, h4) =
      >>=-eq-ok (require_component_accounts e.db input.asset_account input.depreciation_account) _
        h3 in
    let (within, h5) =
      guard-eq-ok
        (not (
          ltb asset.depreciable_value (
            total_value (components_of asset.id e.components)
            + input.value
            + asset.residual_value)))
        component_total_exceeds _ h4 in
    let found = existing-eq-ok (find_asset asset_id e.assets) asset_not_found e1 in
    let (same, less) = find_asset-below asset_id e.next_asset e.assets asset inv.asset_rows found in
    subst (λ (x : Component × Estate). IsEstate x.1) (ok_inj h5)
      (add_component-IsEstate e _ asset inv (rw same found) (rw same less) (ground (arith, within)))
