-- ===== src/Ledger/Projection/Balanced.antt =====
-- The trial balance of a sound ledger: `projection` of backend/app/services/ledger.py.
use solo_lmnp.Prelude.{
  ℕ, ◌+◌, ◌≤◌, ◌≡◌, refl, ap, ◌∙◌, inl, inr, Bool, true, false, ◌&&◌, none, some, List, [], ◌∷◌,
  ◌==◌, ==_iff, if◌then◌else◌, arith, Bool-cases, All,
}
use solo_lmnp.Prelude.Int.{ℤ, pos, ◌+ℤ◌, ◌≈◌, order_laws}
use solo_lmnp.Prelude.Text.{Text, same_text}
use solo_lmnp.Prelude.Outcome.{ok}
use solo_lmnp.Ledger.State.{EntryStatus, draft, validated, FiscalYear, Line, Entry, Db, find_year}
use solo_lmnp.Ledger.Service.{is_validated, get_year}
use solo_lmnp.Ledger.Post.{total_debit, total_credit}
use solo_lmnp.Ledger.Table.{total}
use solo_lmnp.Ledger.Invariant.{RowIs, IsRow, IsLedger}
use solo_lmnp.Ledger.Mirror.{debit_of, credit_of}
use solo_lmnp.Ledger.Projection.{
  Cell, BalanceRow, Projection, in_projection, selected, order_rows, add_rows, order_cells,
  balance_rows, no_sums, projection,
}
use solo_lmnp.Ledger.Projection.Totals.{
  line_sum, cell_sum, balance_sum, debit_in, credit_in, cell_debit, cell_credit, cell_of, projected,
  row_sum-order_rows, cell_sum-order_cells, balance_sum-balance_rows, row_sum-selected,
  add_rows-once, add_rows-sums, add_rows-totals,
}

-- A number of each validated entry of a year, added up.
abbrev pub year_total : (List Line → ℕ) → ℕ → List Entry → ℕ
year_total f y es = total (λ e. if in_projection y e then f e.lines else 0) es

abbrev pub sum_ℤ : (BalanceRow → ℤ) → List BalanceRow → ℤ
sum_ℤ f [] = pos 0
sum_ℤ f (b ∷ rows) = f b +ℤ sum_ℤ f rows

abbrev pub on_account : (BalanceRow → ℕ) → Text → BalanceRow → ℕ
on_account f a b = if same_text b.account_number a then f b else 0

-- A balanced trial balance, with each account once and the amounts that the entries have on it.
pub record IsBalance (db : Db) (y : ℕ) (p : Projection) : Type 0 where
  pub reported : p.balanced ≡ true
  pub same_totals : p.total_debit ≡ p.total_credit
  pub all_debits : p.total_debit ≡ year_total total_debit y db.entries
  pub adds_debit : balance_sum (λ b. b.total_debit) p.balance ≡ p.total_debit
  pub adds_credit : balance_sum (λ b. b.total_credit) p.balance ≡ p.total_credit
  pub same_balances :
      sum_ℤ (λ b. b.debit_balance) p.balance ≡ sum_ℤ (λ b. b.credit_balance) p.balance
  pub once : (a : Text) → balance_sum (on_account (λ b. 1) a) p.balance ≤ 1
  pub debits :
      (a : Text)
      → balance_sum (on_account (λ b. b.total_debit) a) p.balance
        ≡ year_total (debit_of a) y db.entries
  pub credits :
      (a : Text)
      → balance_sum (on_account (λ b. b.total_credit) a) p.balance
        ≡ year_total (credit_of a) y db.entries

abbrev all : Text → Bool
all n = true

abbrev is : Text → Text → Bool
is a n = same_text n a

-- The sums of the lines of an entry are those of the ledger.
line_sum-debit : (ls : List Line) → line_sum (λ l. l.debit) ls ≡ total_debit ls
unfolding total_debit
line_sum-debit [] = refl
line_sum-debit (l ∷ ls) = ap (λ n. l.debit + n) (line_sum-debit ls)

line_sum-credit : (ls : List Line) → line_sum (λ l. l.credit) ls ≡ total_credit ls
unfolding total_credit
line_sum-credit [] = refl
line_sum-credit (l ∷ ls) = ap (λ n. l.credit + n) (line_sum-credit ls)

line_sum-debit_of : (a : Text) (ls : List Line) → line_sum (debit_in (is a)) ls ≡ debit_of a ls
line_sum-debit_of a [] = refl
line_sum-debit_of a (l ∷ ls) = ap (λ n. debit_in (is a) l + n) (line_sum-debit_of a ls)

line_sum-credit_of : (a : Text) (ls : List Line) → line_sum (credit_in (is a)) ls ≡ credit_of a ls
line_sum-credit_of a [] = refl
line_sum-credit_of a (l ∷ ls) = ap (λ n. credit_in (is a) l + n) (line_sum-credit_of a ls)

-- Sums over the entries of a year that agree on each of them.
year_total-same :
    (f : Line → ℕ) (g : List Line → ℕ) (y : ℕ) (es : List Entry)
    → ((ls : List Line) → line_sum f ls ≡ g ls)
    → total (projected f y) es ≡ year_total g y es
year_total-same f g y [] h = refl
year_total-same f g y (e ∷ es) h =
    rw (h e.lines)
      (ap (λ n. (if in_projection y e then g e.lines else 0) + n) (year_total-same f g y es h))

row_balanced :
    (s : EntryStatus) (years : List FiscalYear) (e : Entry)
    → RowIs s years e
    → is_validated s ≡ true
    → total_debit e.lines ≡ total_credit e.lines
row_balanced draft years e r h = cc
row_balanced validated years e r h = r.balanced

both : (a b : Bool) → (a && b) ≡ true → b ≡ true
both true b h = h
both false b h = cc

year_balanced :
    (y : ℕ) (years : List FiscalYear) (es : List Entry)
    → All (IsRow years) es
    → year_total total_debit y es ≡ year_total total_credit y es
year_balanced y years [] h = refl
year_balanced y years (e ∷ es) h =
    let ih = year_balanced y years es h.1 in
    elim (Bool-cases (in_projection y e)) [
      | inl b ↦
          let same =
            row_balanced e.status years e h.0
              (both (e.fiscal_year_id == y) (is_validated e.status) b) in
          rw b (omega (arith, ih, same))
      | inr b ↦ rw b (omega (arith, ih))
    ]

-- The balances of an account differ by its amounts.
balances-amounts :
    (cells : List Cell)
    → sum_ℤ (λ b. b.debit_balance) (balance_rows cells)
        +ℤ pos (cell_sum (λ c. c.credit_cents) cells)
      ≈ sum_ℤ (λ b. b.credit_balance) (balance_rows cells)
        +ℤ pos (cell_sum (λ c. c.debit_cents) cells)
balances-amounts [] = omega order_laws
balances-amounts (c ∷ cells) = let ih = balances-amounts cells in omega (order_laws, ih)

module _ (y : ℕ) (b : Bool) (es : List Entry) where
  abbrev sums_rows : List Cell
  sums_rows = (add_rows b none no_sums (order_rows (selected y none es))).cells

  cells-debit :
      (on : Text → Bool)
      → cell_sum (cell_debit on) (order_cells sums_rows) ≡ total (projected (debit_in on) y) es
  cells-debit on =
      let rows = order_rows (selected y none es) in
      let s = (add_rows-sums on b none no_sums rows).0 in
      let o = cell_sum-order_cells (cell_debit on) sums_rows in
      let r = row_sum-order_rows (debit_in on) (selected y none es) in
      let t = row_sum-selected (debit_in on) y es in omega (arith, s, o, r, t)

  cells-credit :
      (on : Text → Bool)
      → cell_sum (cell_credit on) (order_cells sums_rows) ≡ total (projected (credit_in on) y) es
  cells-credit on =
      let rows = order_rows (selected y none es) in
      let s = (add_rows-sums on b none no_sums rows).1 in
      let o = cell_sum-order_cells (cell_credit on) sums_rows in
      let r = row_sum-order_rows (credit_in on) (selected y none es) in
      let t = row_sum-selected (credit_in on) y es in omega (arith, s, o, r, t)

  -- The columns of the balance add up to the totals.
  columns :
      let t = add_rows b none no_sums (order_rows (selected y none es)) in
      (cell_sum (λ c. c.debit_cents) (order_cells t.cells) ≡ t.total_debit)
      × (cell_sum (λ c. c.credit_cents) (order_cells t.cells) ≡ t.total_credit)
      × (t.total_debit ≡ year_total total_debit y es)
      × (t.total_credit ≡ year_total total_credit y es)
  columns =
      let rows = order_rows (selected y none es) in
      let s = add_rows-totals b none no_sums rows in
      let d = row_sum-order_rows (λ l. l.debit) (selected y none es) in
      let d1 = row_sum-selected (λ l. l.debit) y es in
      let d2 = year_total-same (λ l. l.debit) total_debit y es line_sum-debit in
      let d3 = cells-debit all in
      let c = row_sum-order_rows (λ l. l.credit) (selected y none es) in
      let c1 = row_sum-selected (λ l. l.credit) y es in
      let c2 = year_total-same (λ l. l.credit) total_credit y es line_sum-credit in
      let c3 = cells-credit all in
      (
        omega (arith, s.0, d, d1, d3),
        omega (arith, s.1, c, c1, c3),
        omega (arith, s.0, d, d1, d2),
        omega (arith, s.1, c, c1, c2),
      )

module _ (db : Db) (y : ℕ) (include_ledger : Bool) where
  -- In a sound ledger, the trial balance of a year that is there is always returned: it is reported
  -- as balanced, its totals are those of the validated entries of the year, and the columns of its
  -- rows add up to them; the debit balances add up to the credit balances; and each account has one
  -- row at most, with what the validated entries of the year have on it in debit and in credit, which
  -- is nothing where it has no row.
  pub projection-IsBalance :
      (row : FiscalYear)
      → IsLedger db
      → find_year y db.years ≡ some row
      → (p : Projection) × (projection db y none include_ledger ≡ ok p) × IsBalance db y p
  unfolding projection get_year
  projection-IsBalance row inv found =
      let t = add_rows include_ledger none no_sums (order_rows (selected y none db.entries)) in
      let cells = order_cells t.cells in
      let c = columns y include_ledger db.entries in
      let even = year_balanced y db.years db.entries inv.rows in
      let same : t.total_debit ≡ t.total_credit = omega (arith, c.2, c.3, even) in
      let b = balances-amounts cells in
      (
        record {
          fiscal_year_id = y;
          total_debit = t.total_debit;
          total_credit = t.total_credit;
          balanced = t.total_debit == t.total_credit;
          balance = balance_rows cells;
          ledger = t.ledger;
        },
        rw found refl,
        record {
          reported = (==_iff t.total_debit t.total_credit).1 same;
          same_totals = same;
          all_debits = c.2;
          adds_debit = balance_sum-balance_rows (λ b. b.total_debit) cells ∙ c.0;
          adds_credit = balance_sum-balance_rows (λ b. b.total_credit) cells ∙ c.1;
          same_balances = omega (order_laws, b, c.0, c.1, same);
          once = λ a.
              (let n = balance_sum-balance_rows (on_account (λ b. 1) a) cells in
                let o = cell_sum-order_cells (cell_of a) t.cells in
                let k =
                  add_rows-once a include_ledger none no_sums
                    (order_rows (selected y none db.entries)) (omega arith) in
                omega (arith, n, o, k));
          debits = λ a.
              balance_sum-balance_rows (on_account (λ b. b.total_debit) a) cells
              ∙ cells-debit y include_ledger db.entries (is a)
              ∙ year_total-same (debit_in (is a)) (debit_of a) y db.entries (line_sum-debit_of a);
          credits = λ a.
              balance_sum-balance_rows (on_account (λ b. b.total_credit) a) cells
              ∙ cells-credit y include_ledger db.entries (is a)
              ∙ year_total-same (credit_in (is a)) (credit_of a) y db.entries
                  (line_sum-credit_of a);
        },
      )
