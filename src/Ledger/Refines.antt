-- ===== src/Ledger/Refines.antt =====
-- Every operation of the ledger service is a chain of the writes of Step.antt.
use solo_lmnp.Prelude.{
  ℕ, ◌+◌, ◌≡◌, refl, ap, subst, inl, true, Option, some, List, [], ◌∷◌, ◌++◌, arith,
}
use solo_lmnp.Prelude.Outcome.{ok_inj, ok, >>=-eq-ok}
use solo_lmnp.Ledger.State.{
  FiscalYear, Entry, EventAction, Details, Db, EntryInput, find_year, find_entry, draft_created,
  draft_updated, draft_deleted,
}
use solo_lmnp.Ledger.Service.{
  get_year, check_draft, check_input, apply_input, new_entry, create_draft, replace_draft,
  delete_draft, log,
}
use solo_lmnp.Ledger.Step.{Frame, InOpenYear, Step, added, changed, deleted}
use solo_lmnp.Ledger.Checks.{check_draft-eq-ok, year_open_of, check_input-eq-ok}

-- A write to the entries, and one more row of the log.
pub log-Frame :
    (action : EventAction) (k : Option ℕ) (details : Details) (d d1 : Db)
    → d1.years ≡ d.years
    → d1.matched ≡ d.matched
    → d1.events ≡ d.events
    → Frame d (log action k details d1)
unfolding log
log-Frame action k details d d1 years matched events = record {
  same_years = years;
  same_matched = matched;
  logged = record { entry_id = k; action = action; details = details } ∷ [];
  grown = rw events refl;
}

pub find_year-id :
    (k : ℕ) (y : FiscalYear) (ys : List FiscalYear) → find_year k ys ≡ some y → y.id ≡ k
unfolding find_year
find_year-id k y [] h = cc
find_year-id k y (x ∷ ys) h = ground (arith, find_year-id k y ys)

-- A new draft is stored under the next id.
pub record IsCreated (db : Db) (input : EntryInput) (r : Entry × Db) : Type 0 where
  pub row : r.0 ≡ apply_input (new_entry db.next_id) input
  pub stored : r.1.entries ≡ db.entries ++ (r.0 ∷ [])
  pub next : r.1.next_id ≡ db.next_id + 1
  pub in_year : InOpenYear db r.0
  pub framed : Frame db r.1

pub create_draft-eq-ok :
    (db : Db) (input : EntryInput) (r : Entry × Db)
    → create_draft db input ≡ ok r
    → IsCreated db input r
unfolding create_draft
create_draft-eq-ok db input r h =
    let (u, e, k) = >>=-eq-ok (check_input db input) _ h in
    subst (IsCreated db input) (ok_inj k) (record {
      row = refl;
      stored = refl;
      next = refl;
      in_year = check_input-eq-ok db input (apply_input (new_entry db.next_id) input) refl refl e;
      framed = log-Frame draft_created _ _ db _ refl refl refl;
    })

pub IsCreated-Step :
    (db : Db) (input : EntryInput) (r : Entry × Db) → IsCreated db input r → Step db r.1
unfolding apply_input
IsCreated-Step db input r c =
    added r.0 c.framed (ap (λ (e : Entry). e.id) c.row)
      (record {
        status_lem = ap (λ (e : Entry). e.status) c.row;
        no_sequence = ap (λ (e : Entry). e.sequence) c.row;
        no_number = ap (λ (e : Entry). e.entry_number) c.row;
        no_stamp = ap (λ (e : Entry). e.validated_at) c.row;
      })
      (ap (λ (e : Entry). e.reversal_of_id) c.row) c.in_year c.stored c.next

pub create_draft-Step :
    (db : Db) (input : EntryInput) (r : Entry × Db) → create_draft db input ≡ ok r → Step db r.1
create_draft-Step db input r h = IsCreated-Step db input r (create_draft-eq-ok db input r h)

pub replace_draft-Step :
    (db : Db) (entry : Entry) (input : EntryInput) (version : ℕ) (r : Entry × Db)
    → find_entry entry.id db.entries ≡ some entry
    → replace_draft db entry input version ≡ ok r
    → Step db r.1
unfolding replace_draft
replace_draft-Step db entry input version r f h =
    let (u, e0, h0) = >>=-eq-ok (check_draft entry version) _ h in
    let (y, e1, h1) = >>=-eq-ok (get_year db entry.fiscal_year_id true) _ h0 in
    let (v, e2, h2) = >>=-eq-ok (check_input db input) _ h1 in
    let after = record (apply_input entry input) { version = entry.version + 1 } in
    subst (λ x. Step db x.1) (ok_inj h2)
      (changed entry after (log-Frame draft_updated _ _ db _ refl refl refl) f
        (check_draft-eq-ok entry version e0).1 (year_open_of db entry e1)
        (check_input-eq-ok db input after refl refl e2) refl refl refl refl (inl refl) refl refl)

pub delete_draft-Step :
    (db : Db) (entry : Entry) (version : ℕ) (r : Db)
    → find_entry entry.id db.entries ≡ some entry
    → delete_draft db entry version ≡ ok r
    → Step db r
unfolding delete_draft
delete_draft-Step db entry version r f h =
    let (u, e0, h0) = >>=-eq-ok (check_draft entry version) _ h in
    let (y, e1, h1) = >>=-eq-ok (get_year db entry.fiscal_year_id true) _ h0 in
    subst (Step db) (ok_inj h1) (
      deleted entry (log-Frame draft_deleted _ _ db _ refl refl refl) f
        (check_draft-eq-ok entry version e0).1 (year_open_of db entry e1) refl refl)
