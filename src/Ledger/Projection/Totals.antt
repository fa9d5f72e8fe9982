-- ===== src/Ledger/Projection/Totals.antt =====
-- What the loops of `projection` (backend/app/services/ledger.py) add up to, whatever the order of
-- the rows.
use solo_lmnp.Prelude.{
  ℕ, ◌+◌, ◌≤◌, ◌≡◌, refl, ap, sym, subst, ◌∙◌, inl, inr, Bool, true, false, Option, none, List, [],
  ◌∷◌, ◌++◌, if◌then◌else◌, arith, Bool-cases,
}
use solo_lmnp.Prelude.Text.{Text, same_text, same_text_refl, same_text-eq, is_before}
use solo_lmnp.Ledger.State.{Line, Entry}
use solo_lmnp.Ledger.Table.{total}
use solo_lmnp.Ledger.Projection.{
  Row, Cell, BalanceRow, Sums, in_projection, entry_rows, selected, row_before, insert_row,
  order_rows, add_line, add_row, add_rows, insert_cell, order_cells, balance_row, balance_rows,
}

abbrev pub line_sum : (Line → ℕ) → List Line → ℕ
line_sum f [] = 0
line_sum f (l ∷ ls) = f l + line_sum f ls

abbrev pub row_sum : (Line → ℕ) → List Row → ℕ
row_sum f [] = 0
row_sum f (r ∷ rows) = f r.line + row_sum f rows

abbrev pub cell_sum : (Cell → ℕ) → List Cell → ℕ
cell_sum f [] = 0
cell_sum f (c ∷ cells) = f c + cell_sum f cells

abbrev pub balance_sum : (BalanceRow → ℕ) → List BalanceRow → ℕ
balance_sum f [] = 0
balance_sum f (b ∷ rows) = f b + balance_sum f rows

-- The amounts on the accounts that a test chooses.
abbrev pub debit_in : (Text → Bool) → Line → ℕ
debit_in on l = if on l.account_number then l.debit else 0

abbrev pub credit_in : (Text → Bool) → Line → ℕ
credit_in on l = if on l.account_number then l.credit else 0

abbrev pub cell_debit : (Text → Bool) → Cell → ℕ
cell_debit on c = if on c.account_number then c.debit_cents else 0

abbrev pub cell_credit : (Text → Bool) → Cell → ℕ
cell_credit on c = if on c.account_number then c.credit_cents else 0

abbrev pub cell_of : Text → Cell → ℕ
cell_of a c = if same_text c.account_number a then 1 else 0

-- Sorting leaves a sum.
row_sum-insert_row :
    (f : Line → ℕ) (r : Row) (rows : List Row)
    → row_sum f (insert_row r rows) ≡ f r.line + row_sum f rows
unfolding insert_row
row_sum-insert_row f r [] = refl
row_sum-insert_row f r (s ∷ rows) = elim (Bool-cases (row_before s r)) [
  | inl e ↦ rw e (omega (arith, row_sum-insert_row f r rows))
  | inr e ↦ rw e refl
]

pub row_sum-order_rows :
    (f : Line → ℕ) (rows : List Row) → row_sum f (order_rows rows) ≡ row_sum f rows
unfolding order_rows
row_sum-order_rows f [] = refl
row_sum-order_rows f (r ∷ rows) =
    omega (arith, row_sum-insert_row f r (order_rows rows), row_sum-order_rows f rows)

cell_sum-insert_cell :
    (f : Cell → ℕ) (c : Cell) (cells : List Cell)
    → cell_sum f (insert_cell c cells) ≡ f c + cell_sum f cells
unfolding insert_cell
cell_sum-insert_cell f c [] = refl
cell_sum-insert_cell f c (d ∷ cells) =
    elim (Bool-cases (is_before d.account_number c.account_number)) [
      | inl e ↦ rw e (omega (arith, cell_sum-insert_cell f c cells))
      | inr e ↦ rw e refl
    ]

pub cell_sum-order_cells :
    (f : Cell → ℕ) (cells : List Cell) → cell_sum f (order_cells cells) ≡ cell_sum f cells
unfolding order_cells
cell_sum-order_cells f [] = refl
cell_sum-order_cells f (c ∷ cells) =
    omega (arith, cell_sum-insert_cell f c (order_cells cells), cell_sum-order_cells f cells)

pub balance_sum-balance_rows :
    (f : BalanceRow → ℕ) (cells : List Cell)
    → balance_sum f (balance_rows cells) ≡ cell_sum (λ c. f (balance_row c)) cells
balance_sum-balance_rows f [] = refl
balance_sum-balance_rows f (c ∷ cells) =
    ap (λ n. f (balance_row c) + n) (balance_sum-balance_rows f cells)

-- The rows of the query hold the lines of the entries that the conditions leave.
pub row_sum-append :
    (f : Line → ℕ) (xs ys : List Row) → row_sum f (xs ++ ys) ≡ row_sum f xs + row_sum f ys
row_sum-append f [] ys = omega arith
row_sum-append f (x ∷ xs) ys = omega (arith, row_sum-append f xs ys)

row_sum-entry_rows :
    (f : Line → ℕ) (e : Entry) (ls : List Line) → row_sum f (entry_rows none e ls) ≡ line_sum f ls
unfolding entry_rows
row_sum-entry_rows f e [] = refl
row_sum-entry_rows f e (l ∷ ls) = ap (λ n. f l + n) (row_sum-entry_rows f e ls)

abbrev pub projected : (Line → ℕ) → ℕ → Entry → ℕ
projected f y e = if in_projection y e then line_sum f e.lines else 0

pub row_sum-selected :
    (f : Line → ℕ) (y : ℕ) (es : List Entry)
    → row_sum f (selected y none es) ≡ total (projected f y) es
unfolding selected
row_sum-selected f y [] = refl
row_sum-selected f y (e ∷ es) =
    let ih = row_sum-selected f y es in
    elim (Bool-cases (in_projection y e)) [
      | inl b ↦
          rw (b, row_sum-append f (entry_rows none e e.lines) (selected y none es))
            (omega (arith, ih, row_sum-entry_rows f e e.lines))
      | inr b ↦ rw b (omega (arith, ih))
    ]

-- The amounts of a line are added to one cell.
pub add_line-sums :
    (on : Text → Bool) (l : Line) (cells : List Cell)
    → (cell_sum (cell_debit on) (add_line l cells) ≡ cell_sum (cell_debit on) cells + debit_in on l)
      × (cell_sum (cell_credit on) (add_line l cells)
          ≡ cell_sum (cell_credit on) cells + credit_in on l)
unfolding add_line
add_line-sums on l [] = (omega arith, omega arith)
add_line-sums on l (c ∷ cells) =
    let ih = add_line-sums on l cells in
    elim (Bool-cases (same_text c.account_number l.account_number)) [
      | inl b ↦
          let e : on c.account_number ≡ on l.account_number =
            ap on (same_text-eq c.account_number l.account_number b) in
          elim (Bool-cases (on l.account_number)) [
            | inl p ↦ let q = e ∙ p in rw (b, p, q) (omega arith, omega arith)
            | inr p ↦ let q = e ∙ p in rw (b, p, q) (omega arith, omega arith)
          ]
      | inr b ↦ rw b (omega (arith, ih.0), omega (arith, ih.1))
    ]

clash : {b : Bool} → b ≡ true → b ≡ false → ⊥
clash p q = cc

-- A line of another account adds no cell of this one.
add_line-other :
    (a : Text) (l : Line) (cells : List Cell)
    → same_text l.account_number a ≡ false
    → cell_sum (cell_of a) (add_line l cells) ≡ cell_sum (cell_of a) cells
unfolding add_line
add_line-other a l [] h = rw h refl
add_line-other a l (c ∷ cells) h = elim (Bool-cases (same_text c.account_number l.account_number)) [
  | inl b ↦ rw b refl
  | inr b ↦ rw b (omega (arith, add_line-other a l cells h))
]

other_account :
    (a c l : Text) → same_text c a ≡ true → same_text c l ≡ false → same_text l a ≡ false
other_account a c l p b = elim (Bool-cases (same_text l a)) [
  | inr q ↦ q
  | inl q ↦
      let e : c ≡ l = same_text-eq c a p ∙ sym (same_text-eq l a q) in
      absurd (clash (subst (λ t. same_text c t ≡ true) e (same_text_refl c)) b)
]

pub add_line-once :
    (a : Text) (l : Line) (cells : List Cell)
    → cell_sum (cell_of a) cells ≤ 1
    → cell_sum (cell_of a) (add_line l cells) ≤ 1
unfolding add_line
add_line-once a l [] h = ground arith
add_line-once a l (c ∷ cells) h = elim (Bool-cases (same_text c.account_number l.account_number)) [
  | inl b ↦ rw b h
  | inr b ↦ elim (Bool-cases (same_text c.account_number a)) [
    | inl p ↦
        let differ = other_account a c.account_number l.account_number p b in
        let kept = add_line-other a l cells differ in
        let before = rw p at h in rw (b, p) (omega (arith, kept, before))
    | inr p ↦
        let ih = add_line-once a l cells (let before = rw p at h in omega (arith, before)) in
        rw (b, p) (omega (arith, ih))
  ]
]

pub add_rows-once :
    (a : Text) (b : Bool) (account : Option Text) (s : Sums) (rows : List Row)
    → cell_sum (cell_of a) s.cells ≤ 1
    → cell_sum (cell_of a) (add_rows b account s rows).cells ≤ 1
unfolding add_rows
add_rows-once a b account s [] h = h
add_rows-once a b account s (r ∷ rows) h =
    add_rows-once a b account (add_row b account s r) rows (add_line-once a r.line s.cells h)

pub add_rows-sums :
    (on : Text → Bool) (b : Bool) (account : Option Text) (s : Sums) (rows : List Row)
    → let t = add_rows b account s rows in
      (cell_sum (cell_debit on) t.cells
        ≡ cell_sum (cell_debit on) s.cells + row_sum (debit_in on) rows)
      × (cell_sum (cell_credit on) t.cells
          ≡ cell_sum (cell_credit on) s.cells + row_sum (credit_in on) rows)
unfolding add_rows
add_rows-sums on b account s [] = (omega arith, omega arith)
add_rows-sums on b account s (r ∷ rows) =
    let ih = add_rows-sums on b account (add_row b account s r) rows in
    let one = add_line-sums on r.line s.cells in
    (omega (arith, ih.0, one.0), omega (arith, ih.1, one.1))

pub add_rows-totals :
    (b : Bool) (account : Option Text) (s : Sums) (rows : List Row)
    → let t = add_rows b account s rows in
      (t.total_debit ≡ s.total_debit + row_sum (λ l. l.debit) rows)
      × (t.total_credit ≡ s.total_credit + row_sum (λ l. l.credit) rows)
unfolding add_rows
add_rows-totals b account s [] = (omega arith, omega arith)
add_rows-totals b account s (r ∷ rows) =
    let ih = add_rows-totals b account (add_row b account s r) rows in
    (omega (arith, ih.0), omega (arith, ih.1))
