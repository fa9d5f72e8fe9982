-- ===== src/Assets/Register/Planned.antt =====
-- The calculation of a year keeps the register sound.
use solo_lmnp.Prelude.{
  ℕ, ◌+◌, ◌≡◌, refl, sym, subst, inl, inr, true, leb, Option, none, some, List, [], ◌∷◌, ◌++◌,
  arith, All, All-append, All-map, Bool-cases, if_some,
}
use solo_lmnp.Prelude.Outcome.{ok, ok_inj, >>=-eq-ok}
use solo_lmnp.Ledger.State.{FiscalYear}
use solo_lmnp.Ledger.Service.{get_year}
use solo_lmnp.Assets.Plan.{
  Calendar, Schedule, Period, calculated, period_of, plan_period, first_day, last_day,
}
use solo_lmnp.Assets.Plan.Amounts.{IsPeriod, plan_period-IsPeriod}
use solo_lmnp.Assets.Register.State.{
  Asset, Estate, in_books, find_schedule, find_period_for, components_of,
}
use solo_lmnp.Assets.Register.Create.{is_land}
use solo_lmnp.Assets.Register.Schedules.{
  Target, targets_from, find_schedule_of, schedule_of, keep_or_add, ensure_targets, ensure_assets,
  ensure_schedules, asset_of_schedule, keep_or_store, stored_period, periods_of, calculate_year,
}
use solo_lmnp.Assets.Register.Sound.{IsKnown, IsEstate, find_schedule-append, add_schedule-IsEstate}
use solo_lmnp.Assets.Register.Rows.{add_period-IsEstate}

-- What is known of the schedules that are returned.
pub record IsEnsured (e : Estate) (r : List Schedule × Estate) : Type 0 where
  pub sound : IsEstate r.1
  pub grows :
      (k : ℕ) (s : Schedule)
      → find_schedule k e.schedules ≡ some s
      → find_schedule k r.1.schedules ≡ some s
  pub found : All (λ s. find_schedule s.id r.1.schedules ≡ some s) r.0

find_schedule_of-known :
    (t : Target) (known l : List Schedule) (n : ℕ) (s : Schedule)
    → All (IsKnown known n) l
    → find_schedule_of t l ≡ some s
    → find_schedule s.id known ≡ some s
unfolding find_schedule_of
find_schedule_of-known t known [] n s h f = cc
find_schedule_of-known t known (x ∷ l) n s h f =
    let here = h.0.found in ground (arith, here, find_schedule_of-known t known l n s h.1)

All-last :
    (P : Schedule → Type 0) (l : List Schedule) (row : Schedule) → All P (l ++ (row ∷ [])) → P row
All-last P [] row h = h.0
All-last P (x ∷ l) row h = All-last P l row h.1

schedule_of-id : (calendar : Calendar) (n : ℕ) (t : Target) → (schedule_of calendar n t).id ≡ n
unfolding schedule_of
schedule_of-id calendar n t = refl

module _ (calendar : Calendar) where
  keep_or_add-IsEnsured :
      (e : Estate) (t : Target) (o : Option Schedule)
      → IsEstate e
      → find_schedule_of t e.schedules ≡ o
      → IsEnsured e ((keep_or_add calendar e t o).0 ∷ [], (keep_or_add calendar e t o).1)
  keep_or_add-IsEnsured e t (some s) inv f = record {
    sound = inv;
    grows = λ k x h. h;
    found = (
      find_schedule_of-known t e.schedules e.schedules e.next_schedule s inv.schedule_rows f,
      tt,
    );
  }
  keep_or_add-IsEnsured e t none inv f =
      let row = schedule_of calendar e.next_schedule t in
      let sound = add_schedule-IsEstate e row inv (schedule_of-id calendar e.next_schedule t) in
      record {
        sound = sound;
        grows = λ k x h. find_schedule-append k x row e.schedules h;
        found = (
          (All-last (IsKnown (e.schedules ++ (row ∷ [])) (e.next_schedule + 1)) e.schedules row
              sound.schedule_rows).found,
          tt,
        );
      }

  ensure_targets-IsEnsured :
      (e : Estate) (ts : List Target) → IsEstate e → IsEnsured e (ensure_targets calendar e ts)
  unfolding ensure_targets
  ensure_targets-IsEnsured e [] inv = record { sound = inv; grows = λ k s h. h; found = tt }
  ensure_targets-IsEnsured e (t ∷ ts) inv =
      let one = keep_or_add-IsEnsured e t (find_schedule_of t e.schedules) inv refl in
      let e1 = (keep_or_add calendar e t (find_schedule_of t e.schedules)).1 in
      let more = ensure_targets-IsEnsured e1 ts one.sound in
      record {
        sound = more.sound;
        grows = λ k s h. more.grows k s (one.grows k s h);
        found = (more.grows _ _ (one.found.0), more.found);
      }

  ensure_assets-IsEnsured :
      (e : Estate) (assets : List Asset) (r : List Schedule × Estate)
      → IsEstate e
      → ensure_assets calendar e assets ≡ ok r
      → IsEnsured e r
  unfolding ensure_assets
  ensure_assets-IsEnsured e [] r inv h =
      subst (IsEnsured e) (ok_inj h) (record { sound = inv; grows = λ k s f. f; found = tt })
  ensure_assets-IsEnsured e (asset ∷ rest) r inv h = elim (Bool-cases (is_land asset.category)) [
    | inl land ↦ ensure_assets-IsEnsured e rest r inv (rw (land, ensure_assets) at h)
    | inr other ↦
        let (targets, e0, h0) =
          >>=-eq-ok (targets_from asset (components_of asset.id e.components)) _
            (rw (other, ensure_assets) at h) in
        let one = ensure_targets-IsEnsured e targets inv in
        let made = ensure_targets calendar e targets in
        let (more, e1, h1) = >>=-eq-ok (ensure_assets calendar made.1 rest) _ h0 in
        let then_more = ensure_assets-IsEnsured made.1 rest more one.sound e1 in
        subst (IsEnsured e) (ok_inj h1) (record {
          sound = then_more.sound;
          grows = λ k s f. then_more.grows k s (one.grows k s f);
          found =
              All-append (λ s. find_schedule s.id more.1.schedules ≡ some s) made.0 more.0
                (All-map (λ s. find_schedule s.id made.1.schedules ≡ some s)
                  (λ s. find_schedule s.id more.1.schedules ≡ some s)
                  (λ s f. then_more.grows s.id s f) made.0 one.found)
                then_more.found;
        })
  ]

-- The facts of a planned period.
record IsPlanned (s : Schedule) (id year_id : ℕ) (p : Period) : Type 0 where
  pub planned : IsPeriod s p
  pub own_id : p.id ≡ id
  pub own_schedule : p.schedule_id ≡ s.id
  pub own_year : p.fiscal_year_id ≡ year_id
  pub not_posted : p.status ≡ calculated

plan_period-row :
    (s : Schedule) (d : Option ℕ) (id year_id a b : ℕ) (p : Period)
    → plan_period s d id year_id a b ≡ some p
    → (p.id ≡ id) × (p.schedule_id ≡ s.id) × (p.fiscal_year_id ≡ year_id) × (p.status ≡ calculated)
unfolding plan_period period_of
plan_period-row s d id year_id a b p h =
    let (in_order, same) =
      if_some (leb (first_day s a) (last_day s d b))
        (period_of s id year_id (first_day s a) (last_day s d b)) p h in
    subst
      (λ (x : Period).
        (x.id ≡ id)
        × (x.schedule_id ≡ s.id)
        × (x.fiscal_year_id ≡ year_id)
        × (x.status ≡ calculated))
      same (refl, refl, refl, refl)

plan_period-IsPlanned :
    (s : Schedule) (d : Option ℕ) (id year_id a b : ℕ) (p : Period)
    → plan_period s d id year_id a b ≡ some p
    → IsPlanned s id year_id p
plan_period-IsPlanned s d id year_id a b p h =
    let planned = plan_period-IsPeriod s d id year_id a b p h in
    let (row, schedule, year, status) = plan_period-row s d id year_id a b p h in
    record {
      planned = planned;
      own_id = row;
      own_schedule = schedule;
      own_year = year;
      not_posted = status;
    }

stored_period-IsEstate :
    (e : Estate) (year : FiscalYear) (s : Schedule) (o : Option Period)
    → IsEstate e
    → find_schedule s.id e.schedules ≡ some s
    → ((p : Period) → o ≡ some p → IsPlanned s e.next_period year.id p)
    → IsEstate (stored_period e year s o).1 × ((stored_period e year s o).1.schedules ≡ e.schedules)
stored_period-IsEstate e year s none inv f h = (inv, refl)
stored_period-IsEstate e year s (some p) inv f h = go (find_period_for s.id year.id e.periods) refl
  where
    go :
        (old : Option Period)
        → find_period_for s.id year.id e.periods ≡ old
        → IsEstate (keep_or_store e p old).1 × ((keep_or_store e p old).1.schedules ≡ e.schedules)
    go (some old) q = (inv, refl)
    go none q =
        let k = h p refl in
        (
          add_period-IsEstate e p s inv k.own_id (rw k.own_schedule f) k.planned k.not_posted
              (rw (k.own_schedule, k.own_year) q),
          refl,
        )

periods_of-IsEstate :
    (e : Estate) (year : FiscalYear) (l : List Schedule) (r : List Period × Estate)
    → IsEstate e
    → All (λ s. find_schedule s.id e.schedules ≡ some s) l
    → periods_of e year l ≡ ok r
    → IsEstate r.1
unfolding periods_of
periods_of-IsEstate e year [] r inv f h =
    subst (λ (x : List Period × Estate). IsEstate x.1) (ok_inj h) inv
periods_of-IsEstate e year (s ∷ rest) r inv f h =
    let (asset, e0, h0) = >>=-eq-ok (asset_of_schedule e s) _ h in
    let planned =
      plan_period s asset.disposed_at e.next_period year.id year.start_date year.end_date in
    let (sound, same) = stored_period-IsEstate e year s planned inv f.0 (
      plan_period-IsPlanned s asset.disposed_at e.next_period year.id year.start_date
        year.end_date) in
    let kept = stored_period e year s planned in
    let (more, e1, h1) = >>=-eq-ok (periods_of kept.1 year rest) _ h0 in
    subst (λ (x : List Period × Estate). IsEstate x.1) (ok_inj h1)
      (periods_of-IsEstate kept.1 year rest more sound
        (subst (λ ss. All (λ s. find_schedule s.id ss ≡ some s) rest) (sym same) f.1) e1)

pub calculate_year-IsEstate :
    (calendar : Calendar) (e : Estate) (year_id : ℕ) (r : List Period × Estate)
    → IsEstate e
    → calculate_year calendar e year_id ≡ ok r
    → IsEstate r.1
unfolding calculate_year ensure_schedules
calculate_year-IsEstate calendar e year_id r inv h =
    let (year, e0, h0) = >>=-eq-ok (in_books (get_year e.db year_id true)) _ h in
    let (schedules, e1, h1) = >>=-eq-ok (ensure_schedules calendar e) _ h0 in
    let ensured = ensure_assets-IsEnsured calendar e e.assets schedules inv e1 in
    periods_of-IsEstate schedules.1 year schedules.0 r ensured.sound ensured.found h1
