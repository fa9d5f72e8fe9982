-- ===== src/Assets/Register/Sound.antt =====
-- What a sound register is, and the writes that keep it so.
use solo_lmnp.Prelude.{
  ℕ, ◌+◌, ◌≤◌, ◌<◌, ◌≡◌, refl, none, some, List, [], ◌∷◌, ◌++◌, if◌then◌else◌, arith, All,
  All-append, All-map,
}
use solo_lmnp.Ledger.State.{validated, Entry, Db, find_entry}
use solo_lmnp.Ledger.Step.{Steps}
use solo_lmnp.Ledger.Invariant.{IsLedger}
use solo_lmnp.Ledger.Preserved.{Steps-IsLedger}
use solo_lmnp.Ledger.History.{Steps-keeps}
use solo_lmnp.Ledger.Mirror.{debit_of, credit_of}
use solo_lmnp.Assets.Plan.{Schedule, Period, PeriodStatus, calculated, posted}
use solo_lmnp.Assets.Plan.Amounts.{IsPeriod}
use solo_lmnp.Assets.Register.State.{
  Asset, Estate, find_asset, find_schedule, find_period_for, is_for, components_of,
}
use solo_lmnp.Assets.Register.Create.{total_value}
use solo_lmnp.Assets.Register.Posting.{charge_account}

-- A posted period has a validated entry of its year and its last day, with its amount on the account
-- of the charge and on the depreciation account of its schedule.
pub record IsBooked (entries : List Entry) (s : Schedule) (p : Period) (k : ℕ) : Type 0 where
  pub entry : Entry
  pub found : find_entry k entries ≡ some entry
  pub is_final : entry.status ≡ validated
  pub in_year : entry.fiscal_year_id ≡ p.fiscal_year_id
  pub on_last_day : entry.accounting_date ≡ p.period_end
  pub charged : debit_of charge_account entry.lines ≡ p.amount
  pub depreciated : credit_of s.depreciation_account entry.lines ≡ p.amount

abbrev pub BookedAs : List Entry → Schedule → Period → PeriodStatus → Type 0
BookedAs entries s p calculated = Unit
BookedAs entries s p (posted k) = IsBooked entries s p k

pub record IsRow (entries : List Entry) (schedules : List Schedule) (next : ℕ) (p : Period)
    : Type 0 where
  pub fresh : p.id < next
  pub schedule : Schedule
  pub found : find_schedule p.schedule_id schedules ≡ some schedule
  pub planned : IsPeriod schedule p
  pub booked : BookedAs entries schedule p p.status

-- A schedule is found by its id.
pub record IsKnown (schedules : List Schedule) (next : ℕ) (s : Schedule) : Type 0 where
  pub fresh : s.id < next
  pub found : find_schedule s.id schedules ≡ some s

-- The periods of one schedule and one year.
unfoldable pub count_for : ℕ → ℕ → List Period → ℕ
count_for s y [] = 0
count_for s y (p ∷ rest) = (if is_for s y p then 1 else 0) + count_for s y rest

pub record IsEstate (e : Estate) : Type 0 where
  pub ledger : IsLedger e.db
  pub asset_rows : All (λ a. a.id < e.next_asset) e.assets
  pub component_rows : All (λ c. c.asset_id < e.next_asset) e.components
  pub decomposed :
      (k : ℕ) (a : Asset)
      → find_asset k e.assets ≡ some a
      → total_value (components_of k e.components) + a.residual_value ≤ a.depreciable_value
  pub schedule_rows : All (IsKnown e.schedules e.next_schedule) e.schedules
  pub period_rows : All (IsRow e.db.entries e.schedules e.next_period) e.periods
  pub one_each : (s y : ℕ) → count_for s y e.periods ≤ 1

IsBooked-Steps :
    {d d' : Db} (s : Schedule) (p : Period) (k : ℕ)
    → Steps d d'
    → IsBooked d.entries s p k
    → IsBooked d'.entries s p k
IsBooked-Steps s p k w b = record {
  entry = b.entry;
  found = Steps-keeps k b.entry w b.found b.is_final;
  is_final = b.is_final;
  in_year = b.in_year;
  on_last_day = b.on_last_day;
  charged = b.charged;
  depreciated = b.depreciated;
}

BookedAs-Steps :
    {d d' : Db} (s : Schedule) (p : Period) (status : PeriodStatus)
    → Steps d d'
    → BookedAs d.entries s p status
    → BookedAs d'.entries s p status
BookedAs-Steps s p calculated w b = tt
BookedAs-Steps s p (posted k) w b = IsBooked-Steps s p k w b

IsRow-Steps :
    {d d' : Db} (schedules : List Schedule) (n : ℕ) (p : Period)
    → Steps d d'
    → IsRow d.entries schedules n p
    → IsRow d'.entries schedules n p
IsRow-Steps schedules n p w r = record {
  fresh = r.fresh;
  schedule = r.schedule;
  found = r.found;
  planned = r.planned;
  booked = BookedAs-Steps r.schedule p p.status w r.booked;
}

-- Any writes to the ledger keep the register sound.
pub Steps-IsEstate :
    (e : Estate) (d : Db) → IsEstate e → Steps e.db d → IsEstate (record e { db = d })
Steps-IsEstate e d inv w = record {
  ledger = Steps-IsLedger inv.ledger w;
  asset_rows = inv.asset_rows;
  component_rows = inv.component_rows;
  decomposed = inv.decomposed;
  schedule_rows = inv.schedule_rows;
  period_rows =
      All-map (IsRow e.db.entries e.schedules e.next_period)
        (IsRow d.entries e.schedules e.next_period) (λ p. IsRow-Steps e.schedules e.next_period p w)
        e.periods inv.period_rows;
  one_each = inv.one_each;
}

pub find_schedule-append :
    (k : ℕ) (s row : Schedule) (l : List Schedule)
    → find_schedule k l ≡ some s
    → find_schedule k (l ++ (row ∷ [])) ≡ some s
unfolding find_schedule
find_schedule-append k s row [] h = cc
find_schedule-append k s row (x ∷ l) h = ground (arith, find_schedule-append k s row l)

IsRow-append :
    (entries : List Entry) (l : List Schedule) (row : Schedule) (n : ℕ) (p : Period)
    → IsRow entries l n p
    → IsRow entries (l ++ (row ∷ [])) n p
IsRow-append entries l row n p r = record {
  fresh = r.fresh;
  schedule = r.schedule;
  found = find_schedule-append p.schedule_id r.schedule row l r.found;
  planned = r.planned;
  booked = r.booked;
}

later-IsKnown :
    (l : List Schedule) (row : Schedule) (n : ℕ) (s : Schedule)
    → IsKnown l n s
    → IsKnown (l ++ (row ∷ [])) (n + 1) s
later-IsKnown l row n s k = record {
  fresh = let f = k.fresh in omega (arith, f);
  found = find_schedule-append s.id s row l k.found;
}

find_schedule-new :
    (known l : List Schedule) (n : ℕ) (row : Schedule)
    → All (IsKnown known n) l
    → row.id ≡ n
    → find_schedule row.id (l ++ (row ∷ [])) ≡ some row
unfolding find_schedule
find_schedule-new known [] n row h e = ground arith
find_schedule-new known (x ∷ l) n row h e =
    let below = h.0.fresh in ground (arith, below, find_schedule-new known l n row h.1 e)

pub add_schedule-IsEstate :
    (e : Estate) (row : Schedule)
    → IsEstate e
    → row.id ≡ e.next_schedule
    → IsEstate
        (record e { schedules = e.schedules ++ (row ∷ []); next_schedule = e.next_schedule + 1 })
add_schedule-IsEstate e row inv same = record {
  ledger = inv.ledger;
  asset_rows = inv.asset_rows;
  component_rows = inv.component_rows;
  decomposed = inv.decomposed;
  schedule_rows =
      All-append (IsKnown (e.schedules ++ (row ∷ [])) (e.next_schedule + 1)) e.schedules (row ∷ [])
        (All-map (IsKnown e.schedules e.next_schedule)
          (IsKnown (e.schedules ++ (row ∷ [])) (e.next_schedule + 1))
          (later-IsKnown e.schedules row e.next_schedule) e.schedules inv.schedule_rows)
        (
          record {
            fresh = omega (arith, same);
            found =
                find_schedule-new e.schedules e.schedules e.next_schedule row inv.schedule_rows
                  same;
          },
          tt,
        );
  period_rows =
      All-map (IsRow e.db.entries e.schedules e.next_period)
        (IsRow e.db.entries (e.schedules ++ (row ∷ [])) e.next_period)
        (λ p. IsRow-append e.db.entries e.schedules row e.next_period p) e.periods inv.period_rows;
  one_each = inv.one_each;
}

pub count_for-append :
    (s y : ℕ) (l : List Period) (p : Period)
    → count_for s y (l ++ (p ∷ [])) ≡ count_for s y l + (if is_for s y p then 1 else 0)
unfolding count_for
count_for-append s y [] p = omega arith
count_for-append s y (x ∷ l) p = let ih = count_for-append s y l p in omega (arith, ih)

pub count_for-none :
    (s y : ℕ) (l : List Period) → find_period_for s y l ≡ none → count_for s y l ≡ 0
unfolding count_for find_period_for
count_for-none s y [] h = refl
count_for-none s y (x ∷ l) h = ground (arith, count_for-none s y l)
