-- ===== src/Ledger/Projection/Listed.antt =====
-- The ledger of a year or of an account, as `projection` of backend/app/services/ledger.py lists it.
use solo_lmnp.Prelude.{
  ℕ, ◌≡◌, refl, inl, inr, true, false, Option, some, List, [], ◌∷◌, ◌==◌, arith, Bool-cases, All,
  All-append,
}
use solo_lmnp.Prelude.Text.{Text}
use solo_lmnp.Ledger.State.{Line, Entry}
use solo_lmnp.Ledger.Projection.{
  Row, chosen, in_projection, entry_rows, selected, row_before, insert_row, order_rows, add_rows,
  no_sums,
}
use mathlib.Core.List.{Perm}
use mathlib.Core.List.Perm
use solo_lmnp.Prelude.Outcome.{ok}
use solo_lmnp.Ledger.State.{FiscalYear, Db, find_year}
use solo_lmnp.Ledger.Service.{get_year}
use solo_lmnp.Ledger.Projection.{Projection, order_cells, balance_rows, projection}
use solo_lmnp.Ledger.Projection.Running.{with_running, Holds, add_rows-ledger}

-- Every row of the query is on the account that was asked for.
entry_rows-chosen :
    (account : Option Text) (e : Entry) (ls : List Line)
    → All (λ r. chosen account r.line ≡ true) (entry_rows account e ls)
unfolding entry_rows
entry_rows-chosen account e [] = tt
entry_rows-chosen account e (l ∷ ls) = elim (Bool-cases (chosen account l)) [
  | inl h ↦ rw h (h, entry_rows-chosen account e ls)
  | inr h ↦ rw h (entry_rows-chosen account e ls)
]

selected-chosen :
    (y : ℕ) (account : Option Text) (es : List Entry)
    → All (λ r. chosen account r.line ≡ true) (selected y account es)
unfolding selected
selected-chosen y account [] = tt
selected-chosen y account (e ∷ es) = elim (Bool-cases (in_projection y e)) [
  | inl h ↦ rw h (
      All-append (λ r. chosen account r.line ≡ true) (entry_rows account e e.lines)
        (selected y account es) (entry_rows-chosen account e e.lines)
        (selected-chosen y account es))
  | inr h ↦ rw h (selected-chosen y account es)
]

All-insert_row :
    (P : Row → Type 0) (r : Row) (rows : List Row) → P r → All P rows → All P (insert_row r rows)
unfolding insert_row
All-insert_row P r [] p h = (p, tt)
All-insert_row P r (s ∷ rows) p h = elim (Bool-cases (row_before s r)) [
  | inl e ↦ rw e (h.0, All-insert_row P r rows p h.1)
  | inr e ↦ rw e (p, h)
]

All-order_rows : (P : Row → Type 0) (rows : List Row) → All P rows → All P (order_rows rows)
unfolding order_rows
All-order_rows P [] h = tt
All-order_rows P (r ∷ rows) h = All-insert_row P r (order_rows rows) h.0 (All-order_rows P rows h.1)

-- No row comes before the one above it.
abbrev NotBefore : Row → List Row → Type 0
NotBefore r [] = Unit
NotBefore r (s ∷ rows) = row_before s r ≡ false

abbrev pub IsOrdered : List Row → Type 0
IsOrdered [] = Unit
IsOrdered (r ∷ rows) = NotBefore r rows × IsOrdered rows

row_before-asym : (r s : Row) → row_before r s ≡ true → row_before s r ≡ false
row_before-asym r s h = ground arith

NotBefore-insert_row :
    (s r : Row) (rows : List Row)
    → row_before s r ≡ true
    → NotBefore s rows
    → NotBefore s (insert_row r rows)
unfolding insert_row
NotBefore-insert_row s r [] h n = row_before-asym s r h
NotBefore-insert_row s r (t ∷ rows) h n = elim (Bool-cases (row_before t r)) [
  | inl e ↦ rw e n
  | inr e ↦ rw e (row_before-asym s r h)
]

insert_row-IsOrdered : (r : Row) (rows : List Row) → IsOrdered rows → IsOrdered (insert_row r rows)
unfolding insert_row
insert_row-IsOrdered r [] o = (tt, tt)
insert_row-IsOrdered r (s ∷ rows) o = elim (Bool-cases (row_before s r)) [
  | inl e ↦ rw e (NotBefore-insert_row s r rows e o.0, insert_row-IsOrdered r rows o.1)
  | inr e ↦ rw e (e, o)
]

order_rows-IsOrdered : (rows : List Row) → IsOrdered (order_rows rows)
unfolding order_rows
order_rows-IsOrdered [] = tt
order_rows-IsOrdered (r ∷ rows) =
    insert_row-IsOrdered r (order_rows rows) (order_rows-IsOrdered rows)

insert_row-perm : (r : Row) (rows : List Row) → Perm (insert_row r rows) (r ∷ rows)
unfolding insert_row
insert_row-perm r [] = Perm.refl (r ∷ [])
insert_row-perm r (s ∷ rows) = elim (Bool-cases (row_before s r)) [
  | inl e ↦ rw e (Perm.trans (Perm.cons s (insert_row-perm r rows)) (Perm.swap r s rows))
  | inr e ↦ rw e (Perm.refl (r ∷ s ∷ rows))
]

order_rows-perm : (rows : List Row) → Perm (order_rows rows) rows
unfolding order_rows
order_rows-perm [] = Perm.refl []
order_rows-perm (r ∷ rows) =
    Perm.trans (insert_row-perm r (order_rows rows)) (Perm.cons r (order_rows-perm rows))

-- The ledger lists some rows: the lines of the validated entries of the year, on the account if one
-- is given, in the order of date, number and position.
pub record IsListed (db : Db) (y : ℕ) (account : Option Text) (p : Projection) : Type 0 where
  pub rows : List Row
  pub all_rows : Perm rows (selected y account db.entries)
  pub in_order : IsOrdered rows
  pub listed : p.ledger ≡ with_running [] rows

module _ (db : Db) (y : ℕ) (account : Option Text) where
  -- For a year that is there, the ledger that is listed holds each line of the validated entries of
  -- the year once, on the account if one is given, in the order of date, number and position; and the
  -- balance beside a line is what is debited less what is credited to its account from the first
  -- line listed up to it.
  pub projection-IsListed :
      (row : FiscalYear)
      → find_year y db.years ≡ some row
      → (p : Projection) × (projection db y account true ≡ ok p) × IsListed db y account p
  unfolding projection get_year
  projection-IsListed row found =
      let rows = order_rows (selected y account db.entries) in
      let t = add_rows true account no_sums rows in
      let start : Holds [] [] = record {
        once = λ a. omega arith;
        debits = λ a. refl;
        credits = λ a. refl;
      } in
      (
        record {
          fiscal_year_id = y;
          total_debit = t.total_debit;
          total_credit = t.total_credit;
          balanced = t.total_debit == t.total_credit;
          balance = balance_rows (order_cells t.cells);
          ledger = t.ledger;
        },
        rw found refl,
        record {
          rows = rows;
          all_rows = order_rows-perm (selected y account db.entries);
          in_order = order_rows-IsOrdered (selected y account db.entries);
          listed = add_rows-ledger account no_sums [] rows start (
              All-order_rows (λ r. chosen account r.line ≡ true) (selected y account db.entries)
                (selected-chosen y account db.entries));
        },
      )
