-- ===== src/Ledger/History.antt =====
-- What never changes: a validated entry, and the entries of a year that is not open.
use solo_lmnp.Prelude.{
  ℕ, ◌≡◌, ◌≢◌, refl, sym, ap, subst, ◌∙◌, inl, inr, Bool, false, Option, none, some, List, [], ◌∷◌,
  ◌++◌, ◌==◌, ==_iff, if◌then◌else◌, arith, Bool-cases,
}
use solo_lmnp.Ledger.State.{
  draft, validated, EntryStatus, year_open, FiscalYear, Entry, Db, EntryInput, Clock, find_year,
  find_entry, save, remove,
}
use solo_lmnp.Ledger.Routes.{Request, serve}
use solo_lmnp.Ledger.Step.{
  Frame, Step, added, changed, posted, deleted, aside, Steps, here, next, Steps-Frame,
}
use solo_lmnp.Ledger.Table.{find_entry-append, find_entry-save_ne, find_entry-remove_ne}
use solo_lmnp.Ledger.Invariant.{IsLedger}
use solo_lmnp.Ledger.Preserved.{serve-Steps}

draft-ne-validated : {s : EntryStatus} → s ≡ draft → s ≡ validated → ⊥
draft-ne-validated p q = cc

-- A validated row is not the draft that a write replaces.
other_row :
    (k j : ℕ) (e old : Entry) (es : List Entry)
    → find_entry k es ≡ some e
    → e.status ≡ validated
    → find_entry j es ≡ some old
    → old.status ≡ draft
    → k ≢ j
other_row k j e old es f v g s eq =
    let same : some e ≡ some old = sym f ∙ ap (λ i. find_entry i es) eq ∙ g in
    draft-ne-validated s (subst (λ (o : Option Entry). status_or e o ≡ validated) same v)
  where
    status_or : Entry → Option Entry → EntryStatus
    status_or d none = d.status
    status_or d (some x) = x.status

Step-keeps :
    {d d' : Db} (k : ℕ) (e : Entry)
    → Step d d'
    → find_entry k d.entries ≡ some e
    → e.status ≡ validated
    → find_entry k d'.entries ≡ some e
Step-keeps {d} k e (added x _ _ _ _ _ en _) f v = rw en (find_entry-append k e d.entries (x ∷ []) f)
Step-keeps {d} k e (changed old x _ g s _ _ _ _ _ _ _ en _) f v =
    rw (en, find_entry-save_ne k x d.entries (other_row k x.id e old d.entries f v g s)) f
Step-keeps {d} k e (posted old x _ g p en _) f v =
    rw (en, find_entry-save_ne k x d.entries (other_row k x.id e old d.entries f v g p.was_draft)) f
Step-keeps {d} k e (deleted old _ g s _ en _) f v =
    rw (en, find_entry-remove_ne k old.id d.entries (other_row k old.id e old d.entries f v g s)) f
Step-keeps {d} k e (aside _ en _) f v = rw en f

pub Steps-keeps :
    {d d' : Db} (k : ℕ) (e : Entry)
    → Steps d d'
    → find_entry k d.entries ≡ some e
    → e.status ≡ validated
    → find_entry k d'.entries ≡ some e
Steps-keeps k e here f v = f
Steps-keeps k e (next p s) f v = Step-keeps k e s (Steps-keeps k e p f v) v

-- The entries of one year, in the order of the table.
unfoldable pub entries_of : ℕ → List Entry → List Entry
entries_of y [] = []
entries_of y (e ∷ es) = if e.fiscal_year_id == y then e ∷ entries_of y es else entries_of y es

entries_of-append :
    (y : ℕ) (e : Entry) (es : List Entry)
    → (e.fiscal_year_id == y) ≡ false
    → entries_of y (es ++ (e ∷ [])) ≡ entries_of y es
unfolding entries_of
entries_of-append y e [] h = rw h refl
entries_of-append y e (x ∷ es) h = rw (entries_of-append y e es h) refl

entries_of-save :
    (y : ℕ) (e old : Entry) (es : List Entry)
    → find_entry e.id es ≡ some old
    → (e.fiscal_year_id == y) ≡ false
    → (old.fiscal_year_id == y) ≡ false
    → entries_of y (save e es) ≡ entries_of y es
unfolding entries_of find_entry save
entries_of-save y e old [] f h g = cc
entries_of-save y e old (x ∷ es) f h g = ground (arith, entries_of-save y e old es)

entries_of-remove :
    (y k : ℕ) (old : Entry) (es : List Entry)
    → find_entry k es ≡ some old
    → (old.fiscal_year_id == y) ≡ false
    → entries_of y (remove k es) ≡ entries_of y es
unfolding entries_of find_entry remove
entries_of-remove y k old [] f g = cc
entries_of-remove y k old (x ∷ es) f g = ground (arith, entries_of-remove y k old es)

-- The year is there and is not open.
pub record IsLocked (d : Db) (y : ℕ) : Type 0 where
  pub row : FiscalYear
  pub found_row : find_year y d.years ≡ some row
  pub not_open : row.status ≢ year_open

other_year :
    (d : Db) (y z : ℕ) (yr : FiscalYear)
    → IsLocked d y
    → find_year z d.years ≡ some yr
    → yr.status ≡ year_open
    → (z == y) ≡ false
other_year d y z yr l f o = elim (Bool-cases (z == y)) [
  | inr other ↦ other
  | inl same ↦
      let e : find_year z d.years ≡ find_year y d.years =
        ap (λ i. find_year i d.years) ((==_iff z y).0 same) in
      let same_row : yr ≡ l.row = cc (e, f, l.found_row) in
      absurd (l.not_open (subst (λ (r : FiscalYear). r.status ≡ year_open) same_row o))
]

Step-frozen :
    {d d' : Db} (y : ℕ)
    → Step d d'
    → IsLocked d y
    → entries_of y d'.entries ≡ entries_of y d.entries
Step-frozen {d} y (added x _ _ _ _ i en _) l = rw en (
    entries_of-append y x d.entries
      (other_year d y x.fiscal_year_id i.year l i.found_year i.is_open))
Step-frozen {d} y (changed old x _ g _ o i _ _ _ _ _ en _) l = rw en (
    entries_of-save y x old d.entries g
      (other_year d y x.fiscal_year_id i.year l i.found_year i.is_open)
      (other_year d y old.fiscal_year_id o.year l o.found_year o.is_open))
Step-frozen {d} y (posted old x _ g p en _) l =
    let n =
      other_year d y x.fiscal_year_id p.in_year.year l p.in_year.found_year p.in_year.is_open in
    rw en (entries_of-save y x old d.entries g n (rw p.same_year at n))
Step-frozen {d} y (deleted old _ g _ o en _) l = rw en (
    entries_of-remove y old.id old d.entries g
      (other_year d y old.fiscal_year_id o.year l o.found_year o.is_open))
Step-frozen y (aside _ en _) l = rw en refl

IsLocked-Frame : {d d' : Db} (y : ℕ) → Frame d d' → IsLocked d y → IsLocked d' y
IsLocked-Frame y f l = record {
  row = l.row;
  found_row = rw f.same_years l.found_row;
  not_open = l.not_open;
}

Steps-frozen :
    {d d' : Db} (y : ℕ)
    → Steps d d'
    → IsLocked d y
    → entries_of y d'.entries ≡ entries_of y d.entries
Steps-frozen y here l = refl
Steps-frozen y (next p s) l =
    Step-frozen y s (IsLocked-Frame y (Steps-Frame p) l) ∙ Steps-frozen y p l

module _ (fields_valid : EntryInput → Bool) (db : Db) (requests : List (Clock × Request)) where
  -- From a sound ledger, a validated entry is the same, field by field and line by line, after any
  -- requests.
  pub serve-keeps_validated :
      (k : ℕ) (e : Entry)
      → IsLedger db
      → find_entry k db.entries ≡ some e
      → e.status ≡ validated
      → find_entry k (serve fields_valid db requests).entries ≡ some e
  serve-keeps_validated k e inv = Steps-keeps k e (serve-Steps fields_valid db requests inv)

  -- From a sound ledger, the entries of a year that is not open, drafts included, are the same after
  -- any requests, and in the same order.
  pub serve-keeps_locked_year :
      (y : ℕ)
      → IsLedger db
      → IsLocked db y
      → entries_of y (serve fields_valid db requests).entries ≡ entries_of y db.entries
  serve-keeps_locked_year y inv = Steps-frozen y (serve-Steps fields_valid db requests inv)
