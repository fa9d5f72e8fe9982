-- ===== src/Assets/Register/Posted.antt =====
-- The posting of a period: what it writes, that it keeps the register sound, and that it is done once.
use solo_lmnp.Prelude.{
  ℕ, ◌≡◌, ◌≢◌, refl, ap, sym, subst, ◌∙◌, inl, inr, Bool, true, ltb, Option, some, List, [], ◌∷◌,
  arith, Bool-cases,
}
use solo_lmnp.Prelude.Text.{Text, codes, same_text, same_text_refl}
use solo_lmnp.Prelude.Outcome.{Outcome, ok, err, ok_inj, >>=-eq-ok, guard-eq-ok}
use solo_lmnp.Ledger.State.{Entry, Db, EntryInput, Clock, find_entry, Error}
use solo_lmnp.Ledger.Service.{get_year, entry_lines}
use solo_lmnp.Ledger.Table.{find_entry-id}
use solo_lmnp.Ledger.Mirror.{debit_of, credit_of}
use solo_lmnp.Ledger.Sourced.{post_sourced}
use solo_lmnp.Ledger.Sourced.Posted.{IsSourced, post_sourced-IsSourced}
use solo_lmnp.Assets.Plan.{Schedule, Period, PeriodStatus, calculated, posted}
use solo_lmnp.Assets.Register.State.{
  Estate, DepreciationPostInput, period_not_found, entry_missing, zero_depreciation,
  schedule_not_found, in_books, existing, find_schedule, find_period, save_period,
}
use solo_lmnp.Assets.Register.Booking.{require_schedule_booked}
use solo_lmnp.Assets.Register.Posting.{
  charge_account, charge_of, marked, post_new, post_by_status, post_period,
}
use solo_lmnp.Assets.Register.Sound.{IsBooked, IsEstate, Steps-IsEstate}
use solo_lmnp.Assets.Register.Rows.{find_period-id, mark_period-IsEstate}
use solo_lmnp.Assets.Register.Kept.{existing-eq-ok}

in_books-eq-ok {ℓ} : {A : Type ℓ} (o : Outcome Error A) {a : A} → in_books o ≡ ok a → o ≡ ok a
in_books-eq-ok (ok b) h = ap ok (ok_inj h)
in_books-eq-ok (err x) h = cc

-- The amounts of the two lines.
charge_amounts :
    (p : Period) (s : Schedule) (input : DepreciationPostInput)
    → (debit_of charge_account (entry_lines 1 (charge_of p s input).lines) ≡ p.amount)
      × (credit_of s.depreciation_account (entry_lines 1 (charge_of p s input).lines) ≡ p.amount)
unfolding entry_lines
charge_amounts p s input =
    let same = same_text_refl s.depreciation_account in
    (
      elim (Bool-cases (same_text s.depreciation_account charge_account)) [
        | inl e ↦ rw e (omega arith)
        | inr e ↦ rw e (omega arith)
      ],
      elim (Bool-cases (same_text charge_account s.depreciation_account)) [
        | inl e ↦ rw (e, same) (omega arith)
        | inr e ↦ rw (e, same) (omega arith)
      ],
    )

IsSourced-IsBooked :
    (p : Period) (s : Schedule) (input : DepreciationPostInput) (source : Text) (db : Db)
    (r : Entry × Db)
    → IsSourced source input.request_id db (charge_of p s input) r
    → IsBooked r.1.entries s p r.0.id
IsSourced-IsBooked p s input source db r i =
    let amounts = charge_amounts p s input in
    record {
      entry = r.0;
      found = i.found;
      is_final = i.now_validated;
      in_year = i.in_year;
      on_last_day = i.on_date;
      charged = (i.amounts charge_account).0 ∙ amounts.0;
      depreciated = (i.amounts s.depreciation_account).1 ∙ amounts.1;
    }

-- What the posting of a new period does.
pub record IsPosting (e : Estate) (p : Period) (r : Entry × Estate) : Type 0 where
  pub sound : IsEstate r.1
  pub found : find_entry r.0.id r.1.db.entries ≡ some r.0
  pub saved : r.1.periods ≡ save_period (marked p r.0.id) e.periods

find_period-save_self :
    (k j : ℕ) (p : Period) (l : List Period)
    → find_period k l ≡ some p
    → p.id ≡ k
    → find_period k (save_period (marked p j) l) ≡ some (marked p j)
unfolding find_period save_period
find_period-save_self k j p [] h e = cc
find_period-save_self k j p (x ∷ l) h e = ground (arith, find_period-save_self k j p l)

find_period-save_other :
    (k j : ℕ) (p x : Period) (l : List Period)
    → find_period k l ≡ some x
    → p.id ≢ k
    → find_period k (save_period (marked p j) l) ≡ some x
unfolding find_period save_period
find_period-save_other k j p x [] h e = cc
find_period-save_other k j p x (y ∷ l) h e = ground (arith, find_period-save_other k j p x l)

posted_is_not : (k : ℕ) (s : PeriodStatus) → s ≡ posted k → s ≡ calculated → ⊥
posted_is_not k s h e = cc

some_period : (x y : Period) → ◌≡◌ {A = Option Period} (some x) (some y) → x ≡ y
some_period x y h = cc

-- After the posting, the period names the entry that is returned.
pub record IsPostedAs (k : ℕ) (r : Entry × Estate) : Type 0 where
  pub period : Period
  pub there : find_period k r.1.periods ≡ some period
  pub is_posted : period.status ≡ posted r.0.id
  pub entry_found : find_entry r.0.id r.1.db.entries ≡ some r.0

module _ (fields_valid : EntryInput → Bool) where
  post_new-IsPosting :
      (clock : Clock) (e : Estate) (p : Period) (input : DepreciationPostInput) (r : Entry × Estate)
      → IsEstate e
      → find_period p.id e.periods ≡ some p
      → post_new fields_valid clock e p input ≡ ok r
      → IsPosting e p r
  unfolding post_new
  post_new-IsPosting clock e p input r inv there h =
      let (year, e0, h0) = >>=-eq-ok (in_books (get_year e.db p.fiscal_year_id true)) _ h in
      let (some_amount, h1) = guard-eq-ok (ltb 0 p.amount) zero_depreciation _ h0 in
      let (s, e2, h2) =
        >>=-eq-ok (existing (find_schedule p.schedule_id e.schedules) schedule_not_found) _ h1 in
      let (booked, e3, h3) = >>=-eq-ok (require_schedule_booked e s year) _ h2 in
      let (entry, e4, h4) =
        >>=-eq-ok
          (in_books (
            post_sourced fields_valid (codes "DEPRECIATION") input.request_id clock e.db
              (charge_of p s input)))
          _ h3 in
      let sourced =
        post_sourced-IsSourced fields_valid (codes "DEPRECIATION") input.request_id clock e.db
          (charge_of p s input) entry inv.ledger.fresh (in_books-eq-ok _ e4) in
      let known = existing-eq-ok (find_schedule p.schedule_id e.schedules) schedule_not_found e2 in
      subst (IsPosting e p) (ok_inj h4) (record {
        sound =
            mark_period-IsEstate (record e { db = entry.1 }) p s entry.0.id
              (Steps-IsEstate e entry.1 inv sourced.writes) there known
              (IsSourced-IsBooked p s input (codes "DEPRECIATION") e.db entry sourced);
        found = sourced.found;
        saved = refl;
      })

  post_by_status-IsEstate :
      (clock : Clock) (e : Estate) (p : Period) (input : DepreciationPostInput)
      (status : PeriodStatus) (r : Entry × Estate)
      → IsEstate e
      → find_period p.id e.periods ≡ some p
      → post_by_status fields_valid clock e p input status ≡ ok r
      → IsEstate r.1
  unfolding post_by_status
  post_by_status-IsEstate clock e p input calculated r inv there h =
      (post_new-IsPosting clock e p input r inv there h).sound
  post_by_status-IsEstate clock e p input (posted k) r inv there h =
      let (entry, e0, h0) = >>=-eq-ok (existing (find_entry k e.db.entries) entry_missing) _ h in
      subst (λ (x : Entry × Estate). IsEstate x.1) (ok_inj h0) inv

  pub post_period-IsEstate :
      (clock : Clock) (e : Estate) (k : ℕ) (input : DepreciationPostInput) (r : Entry × Estate)
      → IsEstate e
      → post_period fields_valid clock e k input ≡ ok r
      → IsEstate r.1
  unfolding post_period
  post_period-IsEstate clock e k input r inv h =
      let (p, e0, h0) = >>=-eq-ok (existing (find_period k e.periods) period_not_found) _ h in
      let found = existing-eq-ok (find_period k e.periods) period_not_found e0 in
      let same = find_period-id k e.periods p found in
      post_by_status-IsEstate clock e p input p.status r inv (rw same found) h0

  post_by_status-IsPostedAs :
      (clock : Clock) (e : Estate) (p : Period) (input : DepreciationPostInput)
      (status : PeriodStatus) (r : Entry × Estate)
      → IsEstate e
      → p.status ≡ status
      → find_period p.id e.periods ≡ some p
      → post_by_status fields_valid clock e p input status ≡ ok r
      → IsPostedAs p.id r
  unfolding post_by_status
  post_by_status-IsPostedAs clock e p input calculated r inv was there h =
      let w = post_new-IsPosting clock e p input r inv there h in
      record {
        period = marked p r.0.id;
        there = rw (w.saved) (find_period-save_self p.id r.0.id p e.periods there refl);
        is_posted = refl;
        entry_found = w.found;
      }
  post_by_status-IsPostedAs clock e p input (posted k) r inv was there h =
      let (entry, e0, h0) = >>=-eq-ok (existing (find_entry k e.db.entries) entry_missing) _ h in
      let found = existing-eq-ok (find_entry k e.db.entries) entry_missing e0 in
      let same = find_entry-id k entry e.db.entries found in
      subst (IsPostedAs p.id) (ok_inj h0) (record {
        period = p;
        there = there;
        is_posted = was ∙ ap posted (sym same);
        entry_found = rw same found;
      })

  pub post_period-IsPostedAs :
      (clock : Clock) (e : Estate) (k : ℕ) (input : DepreciationPostInput) (r : Entry × Estate)
      → IsEstate e
      → post_period fields_valid clock e k input ≡ ok r
      → IsPostedAs k r
  unfolding post_period
  post_period-IsPostedAs clock e k input r inv h =
      let (p, e0, h0) = >>=-eq-ok (existing (find_period k e.periods) period_not_found) _ h in
      let found = existing-eq-ok (find_period k e.periods) period_not_found e0 in
      let same = find_period-id k e.periods p found in
      subst (λ j. IsPostedAs j r) same
        (post_by_status-IsPostedAs clock e p input p.status r inv refl (rw same found) h0)

  -- A period that has been posted is posted again, at any later time and with any input, by giving
  -- its entry and writing nothing.
  pub post_period_idem :
      (clock later : Clock) (e : Estate) (k : ℕ) (input other : DepreciationPostInput)
      (r : Entry × Estate)
      → IsEstate e
      → post_period fields_valid clock e k input ≡ ok r
      → post_period fields_valid later r.1 k other ≡ ok r
  unfolding post_period post_by_status
  post_period_idem clock later e k input other r inv h =
      let done = post_period-IsPostedAs clock e k input r inv h in
      rw (done.there, done.is_posted, done.entry_found) refl

  post_by_status-keeps :
      (clock : Clock) (e : Estate) (p : Period) (input : DepreciationPostInput)
      (status : PeriodStatus) (r : Entry × Estate) (k j : ℕ) (x : Period)
      → IsEstate e
      → p.status ≡ status
      → find_period p.id e.periods ≡ some p
      → find_period k e.periods ≡ some x
      → x.status ≡ posted j
      → post_by_status fields_valid clock e p input status ≡ ok r
      → find_period k r.1.periods ≡ some x
  unfolding post_by_status
  post_by_status-keeps clock e p input calculated r k j x inv was there f done h =
      let w = post_new-IsPosting clock e p input r inv there h in
      let differ : p.id ≢ k = λ q. posted_is_not j x.status done (
        subst (λ (y : Period). y.status ≡ calculated)
          (some_period p x (sym there ∙ subst (λ n. find_period n e.periods ≡ some x) (sym q) f))
          was) in
      rw (w.saved) (find_period-save_other k r.0.id p x e.periods f differ)
  post_by_status-keeps clock e p input (posted m) r k j x inv was there f done h =
      let (entry, e0, h0) = >>=-eq-ok (existing (find_entry m e.db.entries) entry_missing) _ h in
      subst (λ (y : Entry × Estate). find_period k y.1.periods ≡ some x) (ok_inj h0) f

  -- A posted period stays as it is.
  pub post_period-keeps :
      (clock : Clock) (e : Estate) (n : ℕ) (input : DepreciationPostInput) (r : Entry × Estate)
      (k j : ℕ) (x : Period)
      → IsEstate e
      → find_period k e.periods ≡ some x
      → x.status ≡ posted j
      → post_period fields_valid clock e n input ≡ ok r
      → find_period k r.1.periods ≡ some x
  unfolding post_period
  post_period-keeps clock e n input r k j x inv f done h =
      let (p, e0, h0) = >>=-eq-ok (existing (find_period n e.periods) period_not_found) _ h in
      let found = existing-eq-ok (find_period n e.periods) period_not_found e0 in
      let same = find_period-id n e.periods p found in
      post_by_status-keeps clock e p input p.status r k j x inv refl (rw same found) f done h0
