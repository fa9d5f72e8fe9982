-- ===== src/Assets/Register/Rows.antt =====
-- New rows of the register, and a period that is marked as posted.
use solo_lmnp.Prelude.{
  ℕ, ◌+◌, ◌≤◌, ◌<◌, ◌≡◌, ◌⊎◌, refl, sym, subst, ◌∙◌, inl, inr, Option, none, some, List, [], ◌∷◌,
  ◌++◌, ◌==◌, if◌then◌else◌, arith, All, All-append, All-map, Bool-cases,
}
use solo_lmnp.Ledger.State.{Entry}
use solo_lmnp.Assets.Plan.{Schedule, Period, calculated}
use solo_lmnp.Assets.Plan.Amounts.{IsPeriod}
use solo_lmnp.Assets.Register.State.{
  Asset, Component, Estate, find_asset, find_schedule, find_period, find_period_for, is_for,
  save_period, components_of,
}
use solo_lmnp.Assets.Register.Create.{total_value}
use solo_lmnp.Assets.Register.Posting.{marked}
use solo_lmnp.Assets.Register.Sound.{
  IsBooked, BookedAs, IsRow, count_for, count_for-append, count_for-none, IsEstate,
}

later-IsRow :
    (entries : List Entry) (l : List Schedule) (n : ℕ) (p : Period)
    → IsRow entries l n p
    → IsRow entries l (n + 1) p
later-IsRow entries l n p r = record {
  fresh = let f = r.fresh in omega (arith, f);
  schedule = r.schedule;
  found = r.found;
  planned = r.planned;
  booked = r.booked;
}

no_booking :
    (entries : List Entry) (s : Schedule) (p : Period)
    → p.status ≡ calculated
    → BookedAs entries s p p.status
no_booking entries s p h = rw h tt

one_more :
    (s y : ℕ) (l : List Period) (p : Period)
    → find_period_for p.schedule_id p.fiscal_year_id l ≡ none
    → count_for s y l ≤ 1
    → count_for s y (l ++ (p ∷ [])) ≤ 1
one_more s y l p h k = elim (Bool-cases (is_for s y p)) [
  | inl e ↦
      let none_yet = count_for-none p.schedule_id p.fiscal_year_id l h in
      let same_s : p.schedule_id ≡ s = ground (arith, e) in
      let same_y : p.fiscal_year_id ≡ y = ground (arith, e) in
      let zero_now : count_for s y l ≡ 0 = rw (same_s, same_y) at none_yet in
      rw (count_for-append s y l p, e) (omega (arith, zero_now))
  | inr e ↦ rw (count_for-append s y l p, e) (omega (arith, k))
]

pub add_period-IsEstate :
    (e : Estate) (p : Period) (s : Schedule)
    → IsEstate e
    → p.id ≡ e.next_period
    → find_schedule p.schedule_id e.schedules ≡ some s
    → IsPeriod s p
    → p.status ≡ calculated
    → find_period_for p.schedule_id p.fiscal_year_id e.periods ≡ none
    → IsEstate (record e { periods = e.periods ++ (p ∷ []); next_period = e.next_period + 1 })
add_period-IsEstate e p s inv same found planned new h = record {
  ledger = inv.ledger;
  asset_rows = inv.asset_rows;
  component_rows = inv.component_rows;
  decomposed = inv.decomposed;
  schedule_rows = inv.schedule_rows;
  period_rows =
      All-append (IsRow e.db.entries e.schedules (e.next_period + 1)) e.periods (p ∷ [])
        (All-map (IsRow e.db.entries e.schedules e.next_period)
          (IsRow e.db.entries e.schedules (e.next_period + 1))
          (later-IsRow e.db.entries e.schedules e.next_period) e.periods inv.period_rows)
        (
          record {
            fresh = omega (arith, same);
            schedule = s;
            found = found;
            planned = planned;
            booked = no_booking e.db.entries s p new;
          },
          tt,
        );
  one_each = λ a y. one_more a y e.periods p h (inv.one_each a y);
}

pub find_period-id : (k : ℕ) (l : List Period) (p : Period) → find_period k l ≡ some p → p.id ≡ k
unfolding find_period
find_period-id k [] p h = cc
find_period-id k (x ∷ l) p h = ground (arith, find_period-id k l p)

All-find_period {ℓ} :
    (P : Period → Type ℓ) (k : ℕ) (l : List Period) (p : Period)
    → All P l
    → find_period k l ≡ some p
    → P p
unfolding find_period
All-find_period P k [] p a h = absurd (no_period p h)
  where
    no_period : (x : Period) → ◌≡◌ {A = Option Period} none (some x) → ⊥
    no_period x e = cc
All-find_period P k (x ∷ l) p a h = elim (Bool-cases (x.id == k)) [
  | inl e ↦ subst P (same_period x p (rw e at h)) a.0
  | inr e ↦ All-find_period P k l p a.1 (rw e at h)
]
  where
    same_period : (x y : Period) → ◌≡◌ {A = Option Period} (some x) (some y) → x ≡ y
    same_period x y e = cc

All-save_period {ℓ} :
    (P : Period → Type ℓ) (p : Period) (l : List Period) → P p → All P l → All P (save_period p l)
unfolding save_period
All-save_period P p [] h a = tt
All-save_period P p (x ∷ l) h a = elim (Bool-cases (x.id == p.id)) [
  | inl e ↦ rw e (h, a.1)
  | inr e ↦ rw e (a.0, All-save_period P p l h a.1)
]

count_for-save_period :
    (s y k : ℕ) (p : Period) (l : List Period)
    → find_period p.id l ≡ some p
    → count_for s y (save_period (marked p k) l) ≡ count_for s y l
unfolding count_for find_period save_period
count_for-save_period s y k p [] h = cc
count_for-save_period s y k p (x ∷ l) h = ground (arith, count_for-save_period s y k p l)

-- What is planned does not depend on the status.
marked-IsPeriod : (s : Schedule) (p : Period) (k : ℕ) → IsPeriod s p → IsPeriod s (marked p k)
marked-IsPeriod s p k h = record {
  in_order = h.in_order;
  of_days = h.of_days;
  not_early = h.not_early;
  not_late = h.not_late;
  part = h.part;
  book = h.book;
}

marked-IsBooked :
    (entries : List Entry) (s : Schedule) (p : Period) (k : ℕ)
    → IsBooked entries s p k
    → IsBooked entries s (marked p k) k
marked-IsBooked entries s p k b = record {
  entry = b.entry;
  found = b.found;
  is_final = b.is_final;
  in_year = b.in_year;
  on_last_day = b.on_last_day;
  charged = b.charged;
  depreciated = b.depreciated;
}

pub period-IsRow :
    (e : Estate) (k : ℕ) (p : Period)
    → IsEstate e
    → find_period k e.periods ≡ some p
    → IsRow e.db.entries e.schedules e.next_period p
period-IsRow e k p inv h =
    All-find_period (IsRow e.db.entries e.schedules e.next_period) k e.periods p inv.period_rows h

pub mark_period-IsEstate :
    (e : Estate) (p : Period) (s : Schedule) (k : ℕ)
    → IsEstate e
    → find_period p.id e.periods ≡ some p
    → find_schedule p.schedule_id e.schedules ≡ some s
    → IsBooked e.db.entries s p k
    → IsEstate (record e { periods = save_period (marked p k) e.periods })
mark_period-IsEstate e p s k inv there found booked =
    let old = period-IsRow e p.id p inv there in
    let same : old.schedule ≡ s = same_schedule old.schedule s (sym old.found ∙ found) in
    record {
      ledger = inv.ledger;
      asset_rows = inv.asset_rows;
      component_rows = inv.component_rows;
      decomposed = inv.decomposed;
      schedule_rows = inv.schedule_rows;
      period_rows =
          All-save_period (IsRow e.db.entries e.schedules e.next_period) (marked p k) e.periods
            (record {
              fresh = old.fresh;
              schedule = s;
              found = found;
              planned = marked-IsPeriod s p k (subst (λ x. IsPeriod x p) same old.planned);
              booked = marked-IsBooked e.db.entries s p k booked;
            })
            inv.period_rows;
      one_each = λ a y. rw (count_for-save_period a y k p e.periods there) (inv.one_each a y);
    }
  where
    same_schedule : (x y : Schedule) → ◌≡◌ {A = Option Schedule} (some x) (some y) → x ≡ y
    same_schedule x y h = cc

components_of-append :
    (k : ℕ) (l : List Component) (c : Component)
    → total_value (components_of k (l ++ (c ∷ [])))
      ≡ total_value (components_of k l) + (if c.asset_id == k then c.value else 0)
unfolding components_of
components_of-append k [] c = ground arith
components_of-append k (x ∷ l) c = ground (arith, components_of-append k l c)

components_of-fresh :
    (n : ℕ) (l : List Component) → All (λ c. c.asset_id < n) l → total_value (components_of n l) ≡ 0
unfolding components_of
components_of-fresh n [] h = refl
components_of-fresh n (c ∷ l) h = ground (arith, components_of-fresh n l)

find_asset-append :
    (k : ℕ) (row a : Asset) (l : List Asset)
    → find_asset k (l ++ (row ∷ [])) ≡ some a
    → (find_asset k l ≡ some a) ⊎ ((row ≡ a) × (row.id ≡ k))
unfolding find_asset
find_asset-append k row a [] h = elim (Bool-cases (row.id == k)) [
  | inl e ↦ inr (some_inj row a (rw e at h), ground (arith, e))
  | inr e ↦ absurd (not_some a (rw e at h))
]
  where
    some_inj : (x y : Asset) → ◌≡◌ {A = Option Asset} (some x) (some y) → x ≡ y
    some_inj x y q = cc

    not_some : (y : Asset) → ◌≡◌ {A = Option Asset} none (some y) → ⊥
    not_some y q = cc
find_asset-append k row a (x ∷ l) h = elim (Bool-cases (x.id == k)) [
  | inl e ↦ inl (rw e (rw e at h))
  | inr e ↦ rw e (find_asset-append k row a l (rw e at h))
]

pub add_asset-IsEstate :
    (e : Estate) (row : Asset)
    → IsEstate e
    → row.id ≡ e.next_asset
    → row.residual_value ≤ row.depreciable_value
    → IsEstate (record e { assets = e.assets ++ (row ∷ []); next_asset = e.next_asset + 1 })
add_asset-IsEstate e row inv same le = record {
  ledger = inv.ledger;
  asset_rows =
      All-append (λ a. a.id < e.next_asset + 1) e.assets (row ∷ [])
        (All-map (λ a. a.id < e.next_asset) (λ a. a.id < e.next_asset + 1) (λ a h. omega (arith, h))
          e.assets inv.asset_rows)
        (omega (arith, same), tt);
  component_rows =
      All-map (λ c. c.asset_id < e.next_asset) (λ c. c.asset_id < e.next_asset + 1)
        (λ c h. omega (arith, h)) e.components inv.component_rows;
  decomposed = λ k a h. elim (find_asset-append k row a e.assets h) [
    | inl old ↦ inv.decomposed k a old
    | inr new ↦
        let empty = components_of-fresh e.next_asset e.components inv.component_rows in
        let number : e.next_asset ≡ k = sym same ∙ new.1 in
        let nothing : total_value (components_of k e.components) ≡ 0 = rw number at empty in
        subst
          (λ (x : Asset).
            total_value (components_of k e.components) + x.residual_value ≤ x.depreciable_value)
          new.0 (omega (arith, nothing, le))
  ];
  schedule_rows = inv.schedule_rows;
  period_rows = inv.period_rows;
  one_each = inv.one_each;
}

pub add_component-IsEstate :
    (e : Estate) (c : Component) (asset : Asset)
    → IsEstate e
    → find_asset c.asset_id e.assets ≡ some asset
    → c.asset_id < e.next_asset
    → total_value (components_of c.asset_id e.components) + c.value + asset.residual_value
      ≤ asset.depreciable_value
    → IsEstate
        (record e { components = e.components ++ (c ∷ []); next_component = e.next_component + 1 })
add_component-IsEstate e c asset inv found old le = record {
  ledger = inv.ledger;
  asset_rows = inv.asset_rows;
  component_rows =
      All-append (λ x. x.asset_id < e.next_asset) e.components (c ∷ []) inv.component_rows
        (old, tt);
  decomposed = λ k a h. elim (Bool-cases (c.asset_id == k)) [
    | inl same ↦
        let number : c.asset_id ≡ k = ground (arith, same) in
        let this : asset ≡ a = same_asset asset a (sym found ∙ (rw number h)) in
        let total = components_of-append k e.components c in
        rw (total, same)
          (subst
            (λ (x : Asset).
              total_value (components_of k e.components) + c.value + x.residual_value
              ≤ x.depreciable_value)
            this
            (subst
              (λ n.
                total_value (components_of n e.components) + c.value + asset.residual_value
                ≤ asset.depreciable_value)
              number le))
    | inr other ↦
        let bound = inv.decomposed k a h in
        rw (components_of-append k e.components c, other) (omega (arith, bound))
  ];
  schedule_rows = inv.schedule_rows;
  period_rows = inv.period_rows;
  one_each = inv.one_each;
}
  where
    same_asset : (x y : Asset) → ◌≡◌ {A = Option Asset} (some x) (some y) → x ≡ y
    same_asset x y q = cc
