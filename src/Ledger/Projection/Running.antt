-- ===== src/Ledger/Projection/Running.antt =====
-- The ledger that `projection` of backend/app/services/ledger.py lists, with its running balances.
use solo_lmnp.Prelude.{
  ◌+◌, ◌≤◌, ◌≡◌, refl, ap, sym, ◌∙◌, inl, inr, Bool, true, Option, List, [], ◌∷◌, ◌++◌, arith,
  Bool-cases, All,
}
use mathlib.Core.List.{append-nil, append_assoc}
use solo_lmnp.Prelude.Int.{ℤ, pos, ◌-ℤ◌}
use solo_lmnp.Prelude.Text.{Text, same_text}
use solo_lmnp.Ledger.Projection.{
  Row, Cell, LedgerRow, Sums, chosen, add_line, net_of, add_row, add_rows,
}
use solo_lmnp.Ledger.Projection.Totals.{
  row_sum, cell_sum, debit_in, credit_in, cell_debit, cell_credit, cell_of, row_sum-append,
  add_line-once, add_line-sums,
}

abbrev pub on : Text → Text → Bool
on a n = same_text n a

-- The movement on an account, debit less credit, over some rows.
abbrev pub net_over : Text → List Row → ℤ
net_over a rows = pos (row_sum (debit_in (on a)) rows) -ℤ pos (row_sum (credit_in (on a)) rows)

-- A row of the ledger: a line with what its entry says, and a balance.
abbrev pub row_with : Row → ℤ → LedgerRow
row_with r balance = record {
  account_number = r.line.account_number;
  account_label = r.line.account_label;
  entry_id = r.entry.id;
  entry_number = r.entry.entry_number;
  date = r.entry.accounting_date;
  journal_code = r.entry.journal_code;
  piece_reference = r.entry.piece_reference;
  label = r.line.label;
  debit = r.line.debit;
  credit = r.line.credit;
  balance = balance;
}

-- The rows, each with the movement on its account from the first row up to it.
abbrev pub with_running : List Row → List Row → List LedgerRow
with_running seen [] = []
with_running seen (r ∷ rows) =
    row_with r (net_over r.line.account_number (seen ++ (r ∷ [])))
    ∷ with_running (seen ++ (r ∷ [])) rows

no_cell :
    (a : Text) (cells : List Cell)
    → cell_sum (cell_of a) cells ≡ 0
    → (cell_sum (cell_debit (on a)) cells ≡ 0) × (cell_sum (cell_credit (on a)) cells ≡ 0)
no_cell a [] h = (refl, refl)
no_cell a (c ∷ cells) h = elim (Bool-cases (same_text c.account_number a)) [
  | inl e ↦ let k = rw e at h in absurd (omega (arith, k))
  | inr e ↦
      let k = rw e at h in
      let ih = no_cell a cells (omega (arith, k)) in rw e (omega (arith, ih.0), omega (arith, ih.1))
]

zero_net : pos 0 -ℤ pos 0 ≡ pos 0
unfolding ◌-ℤ◌
zero_net = refl

-- Where an account has one cell at most, that cell holds all of it.
net_of-sums :
    (a : Text) (cells : List Cell)
    → cell_sum (cell_of a) cells ≤ 1
    → net_of a cells
      ≡ pos (cell_sum (cell_debit (on a)) cells) -ℤ pos (cell_sum (cell_credit (on a)) cells)
unfolding net_of
net_of-sums a [] h = sym zero_net
net_of-sums a (c ∷ cells) h = elim (Bool-cases (same_text c.account_number a)) [
  | inl e ↦
      let k = rw e at h in
      let z = no_cell a cells (omega (arith, k)) in
      let d : c.debit_cents ≡ c.debit_cents + cell_sum (cell_debit (on a)) cells =
        omega (arith, z.0) in
      let d' : c.credit_cents ≡ c.credit_cents + cell_sum (cell_credit (on a)) cells =
        omega (arith, z.1) in
      rw e (λ i. pos (d i) -ℤ pos (d' i))
  | inr e ↦
      let k = rw e at h in
      let ih = net_of-sums a cells (omega (arith, k)) in
      let d : cell_sum (cell_debit (on a)) cells ≡ 0 + cell_sum (cell_debit (on a)) cells =
        omega arith in
      let d' : cell_sum (cell_credit (on a)) cells ≡ 0 + cell_sum (cell_credit (on a)) cells =
        omega arith in
      rw e (ih ∙ λ i. pos (d i) -ℤ pos (d' i))
]

-- The cells hold the movements of the rows that were seen, one cell for each account.
pub record Holds (cells : List Cell) (seen : List Row) : Type 0 where
  pub once : (a : Text) → cell_sum (cell_of a) cells ≤ 1
  pub debits : (a : Text) → cell_sum (cell_debit (on a)) cells ≡ row_sum (debit_in (on a)) seen
  pub credits : (a : Text) → cell_sum (cell_credit (on a)) cells ≡ row_sum (credit_in (on a)) seen

Holds-add_line :
    (cells : List Cell) (seen : List Row) (r : Row)
    → Holds cells seen
    → Holds (add_line r.line cells) (seen ++ (r ∷ []))
Holds-add_line cells seen r h = record {
  once = λ a. add_line-once a r.line cells (h.once a);
  debits = λ a.
      let l = add_line-sums (on a) r.line cells in
      let q = row_sum-append (debit_in (on a)) seen (r ∷ []) in omega (arith, l.0, q, h.debits a);
  credits = λ a.
      let l = add_line-sums (on a) r.line cells in
      let q = row_sum-append (credit_in (on a)) seen (r ∷ []) in omega (arith, l.1, q, h.credits a);
}

Holds-net :
    (a : Text) (cells : List Cell) (seen : List Row)
    → Holds cells seen
    → net_of a cells ≡ net_over a seen
Holds-net a cells seen h =
    net_of-sums a cells (h.once a) ∙ λ i. pos (h.debits a i) -ℤ pos (h.credits a i)

pub add_rows-ledger :
    (account : Option Text) (s : Sums) (seen rows : List Row)
    → Holds s.cells seen
    → All (λ r. chosen account r.line ≡ true) rows
    → (add_rows true account s rows).ledger ≡ s.ledger ++ with_running seen rows
unfolding add_rows
add_rows-ledger account s seen [] h c = sym (append-nil s.ledger)
add_rows-ledger account s seen (r ∷ rows) h c =
    let cells = add_line r.line s.cells in
    let h' = Holds-add_line s.cells seen r h in
    let bal = Holds-net r.line.account_number cells (seen ++ (r ∷ [])) h' in
    let ih = add_rows-ledger account (add_row true account s r) (seen ++ (r ∷ [])) rows h' c.1 in
    let later = with_running (seen ++ (r ∷ [])) rows in
    ih
    ∙ rw (c.0) (
        ap (λ (x : LedgerRow). (s.ledger ++ (x ∷ [])) ++ later) (λ i. row_with r (bal i))
        ∙ append_assoc s.ledger
            (row_with r (net_over r.line.account_number (seen ++ (r ∷ []))) ∷ []) later)
