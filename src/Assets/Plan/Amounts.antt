-- ===== src/Assets/Plan/Amounts.antt =====
-- The amounts of a plan: each period within the base, and the periods of consecutive years together.
use solo_lmnp.Prelude.{
  ℕ, ◌+◌, ◌-◌, ◌*◌, ◌≤◌, ◌<◌, ◌≡◌, refl, Option, none, some, List, [], ◌∷◌, arith, leb, Bool-cases,
  if_some, inl, inr, ap, subst, ◌∙◌,
}
use native.Mathlib.Nat.{div-eq_of_lt, div-eq_of_lt-le, div-mul-le_self, zero-add, le-div_iff_mul-le}
use solo_lmnp.Ledger.State.{FiscalYear}
use solo_lmnp.Assets.Plan.{
  max, min, Schedule, Period, share, cut, first_day, last_day, total_days, period_of, plan_period,
}

share_zero : (base total : ℕ) → 0 < total → share base 0 total ≡ 0
unfolding share
share_zero base total h = div-eq_of_lt (omega arith)

share_full : (base total : ℕ) → 0 < total → share base total total ≡ base
unfolding share
share_full base total h = div-eq_of_lt-le (2 * total) (grind arith) (grind arith)

share_mono : (base a b total : ℕ) → 0 < total → a ≤ b → share base a total ≤ share base b total
unfolding share
share_mono base a b total h le =
    let twice : 0 < 2 * total = omega arith in
    let more : base * a ≤ base * b = grind arith in
    let fits = div-mul-le_self (2 * (base * a) + total) (2 * total) in
    (le-div_iff_mul-le twice).1 (omega arith)

-- The days of the plan before a day, where it ends after `last`.
abbrev days_before : Schedule → ℕ → ℕ → ℕ
days_before s last day = min (max day s.service_start) (last + 1) - s.service_start

-- What is depreciated before a day.
abbrev done_before : Schedule → ℕ → ℕ → ℕ
done_before s last day = share s.base (days_before s last day) (total_days s)

abbrev pub amount_of : Option Period → ℕ
amount_of none = 0
amount_of (some p) = p.amount

abbrev pub last_of : Schedule → Option ℕ → ℕ
last_of s disposed_at = cut disposed_at s.end_date

last_day_eq :
    (s : Schedule) (disposed_at : Option ℕ) (b : ℕ)
    → last_day s disposed_at b ≡ min b (last_of s disposed_at)
last_day_eq s none b = refl
last_day_eq s (some d) b = ground arith

last_of-le : (s : Schedule) (disposed_at : Option ℕ) → last_of s disposed_at ≤ s.end_date
last_of-le s none = omega arith
last_of-le s (some d) = ground arith

-- A plan whose disposal is not before its start.
pub record IsPlan (s : Schedule) (disposed_at : Option ℕ) : Type 0 where
  pub in_order : s.service_start ≤ s.end_date
  pub disposed_later : s.service_start ≤ last_of s disposed_at

-- The days at the two ends of a period.
period_days :
    (s : Schedule) (a b last : ℕ)
    → s.service_start ≤ last
    → last ≤ s.end_date
    → max a s.service_start ≤ min b last
    → (max a s.service_start - s.service_start ≡ days_before s last a)
      × (min (total_days s) (min b last - s.service_start + 1) ≡ days_before s last (b + 1))
      × (days_before s last a ≤ days_before s last (b + 1))
period_days s a b last h k order = (ground arith, ground arith, ground arith)

no_days :
    (s : Schedule) (a b last : ℕ)
    → s.service_start ≤ last
    → a ≤ b + 1
    → min b last < max a s.service_start
    → days_before s last a ≡ days_before s last (b + 1)
no_days s a b last h le order = ground arith

period_amount :
    (s : Schedule) (id year_id a b last : ℕ)
    → s.service_start ≤ last
    → last ≤ s.end_date
    → max a s.service_start ≤ min b last
    → (period_of s id year_id (max a s.service_start) (min b last)).amount + done_before s last a
      ≡ done_before s last (b + 1)
unfolding period_of
period_amount s id year_id a b last h k order =
    let (before, after, le) = period_days s a b last h k order in
    let grows =
      share_mono s.base (days_before s last a) (days_before s last (b + 1)) (total_days s)
        (omega arith) le in
    rw (before, after) (omega (arith, grows))

plan_amount :
    (s : Schedule) (disposed_at : Option ℕ) (id year_id a b : ℕ)
    → IsPlan s disposed_at
    → a ≤ b + 1
    → amount_of (plan_period s disposed_at id year_id a b) + done_before s (last_of s disposed_at) a
      ≡ done_before s (last_of s disposed_at) (b + 1)
unfolding plan_period
plan_amount s d id year_id a b h le =
    let last = last_of s d in
    let below = last_of-le s d in
    rw (last_day_eq s d b) (elim (Bool-cases (leb (max a s.service_start) (min b last))) [
      | inl e ↦ rw e (period_amount s id year_id a b last h.disposed_later below (ground arith))
      | inr e ↦
          rw (e, zero-add)
            (ap (λ n. share s.base n (total_days s))
              (no_days s a b last h.disposed_later le (ground arith)))
    ])

-- Years that follow one another without a gap, from a day on.
abbrev pub Consecutive : ℕ → List FiscalYear → Type 0
Consecutive day [] = Unit
Consecutive day (y ∷ ys) =
    (y.start_date ≡ day) × (y.start_date ≤ y.end_date + 1) × Consecutive (y.end_date + 1) ys

-- The day after the last of them.
abbrev pub day_after : ℕ → List FiscalYear → ℕ
day_after day [] = day
day_after day (y ∷ ys) = day_after (y.end_date + 1) ys

-- The amounts of a plan over some years.
unfoldable pub plan_total : Schedule → Option ℕ → List FiscalYear → ℕ
unfolding plan_period
plan_total s disposed_at [] = 0
plan_total s disposed_at (y ∷ ys) =
    amount_of (plan_period s disposed_at 0 y.id y.start_date y.end_date)
    + plan_total s disposed_at ys

plan_total-done :
    (s : Schedule) (disposed_at : Option ℕ) (day : ℕ) (years : List FiscalYear)
    → IsPlan s disposed_at
    → Consecutive day years
    → plan_total s disposed_at years + done_before s (last_of s disposed_at) day
      ≡ done_before s (last_of s disposed_at) (day_after day years)
unfolding plan_total
plan_total-done s d day [] h c = zero-add _
plan_total-done s d day (y ∷ ys) h (e, le, c) =
    let one = plan_amount s d 0 y.id y.start_date y.end_date h le in
    let rest = plan_total-done s d (y.end_date + 1) ys h c in
    let start = ap (λ n. done_before s (last_of s d) n) e in omega (arith, one, rest, start)

-- Over consecutive years that cover a plan, its amounts add up to the share of the days up to the
-- disposal, and to the whole base if there is none.
pub plan_total-eq_base :
    (s : Schedule) (disposed_at : Option ℕ) (day : ℕ) (years : List FiscalYear)
    → IsPlan s disposed_at
    → Consecutive day years
    → day ≤ s.service_start
    → last_of s disposed_at < day_after day years
    → (plan_total s disposed_at years
        ≡ share s.base (last_of s disposed_at + 1 - s.service_start) (total_days s))
      × (disposed_at ≡ none → plan_total s disposed_at years ≡ s.base)
plan_total-eq_base s d day years h c early late =
    let days_first : days_before s (last_of s d) day ≡ 0 = ground arith in
    let days_last : days_before s (last_of s d) (day_after day years)
        ≡ last_of s d + 1 - s.service_start =
      ground arith in
    let none_yet : done_before s (last_of s d) day ≡ 0 =
      ap (λ n. share s.base n (total_days s)) days_first
      ∙ share_zero s.base (total_days s) (omega arith) in
    let up_to = ap (λ n. share s.base n (total_days s)) days_last in
    let total = plan_total-done s d day years h c in
    let shared : plan_total s d years
        ≡ share s.base (last_of s d + 1 - s.service_start) (total_days s) =
      omega (arith, none_yet, up_to, total) in
    (
      shared,
      λ e.
          let ends = ap (last_of s) e in
          let whole : last_of s d + 1 - s.service_start ≡ total_days s = omega (arith, ends) in
          shared
          ∙ ap (λ n. share s.base n (total_days s)) whole
          ∙ share_full s.base (total_days s) (omega arith),
    )

-- A period lies in its plan, its amount is a part of what is accumulated, and
-- the net book value is what is left of the base.
pub record IsPeriod (s : Schedule) (p : Period) : Type 0 where
  pub in_order : p.period_start ≤ p.period_end
  pub of_days : p.days + p.period_start ≡ p.period_end + 1
  pub not_early : s.service_start ≤ p.period_start
  pub not_late : p.period_end ≤ s.end_date
  pub part : p.amount ≤ p.accumulated
  pub book : p.net_book_value + p.accumulated ≡ s.base

period_of-IsPeriod :
    (s : Schedule) (id year_id first last : ℕ)
    → s.service_start ≤ first
    → first ≤ last
    → last ≤ s.end_date
    → IsPeriod s (period_of s id year_id first last)
unfolding period_of
period_of-IsPeriod s id year_id first last h order k =
    let days : min (total_days s) (last - s.service_start + 1) ≤ total_days s = ground arith in
    let cap =
      share_mono s.base (min (total_days s) (last - s.service_start + 1)) (total_days s)
        (total_days s) (omega arith) days in
    let full = share_full s.base (total_days s) (omega arith) in
    record {
      in_order = order;
      of_days = omega arith;
      not_early = h;
      not_late = k;
      part = omega arith;
      book = omega (arith, cap, full);
    }

-- A calculated period has its days in order and within the plan, its amount is a part of what is
-- accumulated, and the accumulated amount and the net book value add up to the base.
pub plan_period-IsPeriod :
    (s : Schedule) (disposed_at : Option ℕ) (id year_id a b : ℕ) (p : Period)
    → plan_period s disposed_at id year_id a b ≡ some p
    → IsPeriod s p
unfolding plan_period
plan_period-IsPeriod s d id year_id a b p h =
    let (in_order, same) =
      if_some (leb (first_day s a) (last_day s d b))
        (period_of s id year_id (first_day s a) (last_day s d b)) p h in
    let below = last_of-le s d in
    let last_eq = last_day_eq s d b in
    subst (IsPeriod s) same (
      period_of-IsPeriod s id year_id (first_day s a) (last_day s d b) (ground arith)
        (ground (arith, in_order)) (ground (arith, below, last_eq)))
