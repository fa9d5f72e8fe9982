-- ===== src/Ledger/Invariant.antt =====
-- The invariant of the ledger, kept by every write: ids are fresh, each row is a proper draft or a
-- balanced posting in its year, the numbers of a year run from 1 with no gap and none given twice,
-- and no entry is reversed twice.
use solo_lmnp.Prelude.{
  ℕ, ◌+◌, ◌≤◌, ◌<◌, ◌≡◌, refl, subst, ◌∙◌, inl, inr, false, ◌&&◌, Option, none, some, List, [], ◌∷◌,
  ◌==◌, ==_iff, leb, length, if◌then◌else◌, arith, Bool-cases, All,
}
use solo_lmnp.Ledger.State.{
  EntryStatus, draft, validated, FiscalYear, Entry, Db, find_year, find_entry, save,
}
use solo_lmnp.Ledger.Service.{max_cents}
use solo_lmnp.Ledger.Post.{total_debit, total_credit, format_number}
use solo_lmnp.Ledger.Reversal.{has_reversal, names}
use solo_lmnp.Ledger.Step.{KeepsReversals}
use solo_lmnp.Ledger.Table.{
  total, total-save, find_entry-id, All-find, number_in, highest, highest-save,
}

-- The year of a posting, by the years of the table.
pub record IsPosted (years : List FiscalYear) (e : Entry) : Type 0 where
  pub year : FiscalYear
  pub found_year : find_year e.fiscal_year_id years ≡ some year
  pub not_early : year.start_date ≤ e.accounting_date
  pub not_late : e.accounting_date ≤ year.end_date
  pub number : ℕ
  pub numbered : e.sequence ≡ some (number + 1)
  pub titled : e.entry_number ≡ some (format_number year.year (number + 1))
  pub stamp : ℕ
  pub stamped : e.validated_at ≡ some stamp
  pub two_lines : 2 ≤ length e.lines
  pub balanced : total_debit e.lines ≡ total_credit e.lines
  pub fits : total_debit e.lines ≤ max_cents

abbrev pub RowIs : EntryStatus → List FiscalYear → Entry → Type 0
RowIs draft years e = (e.sequence ≡ none) × (e.entry_number ≡ none) × (e.validated_at ≡ none)
RowIs validated years e = IsPosted years e

abbrev pub IsRow : List FiscalYear → Entry → Type 0
IsRow years e = RowIs e.status years e

abbrev pub holds : ℕ → Option ℕ → ℕ
holds k none = 0
holds k (some j) = if j == k then 1 else 0

-- How often a number of a year is borne: 1 or 0 for each entry.
abbrev pub bears : ℕ → ℕ → Entry → ℕ
bears y k e = if e.fiscal_year_id == y then holds k e.sequence else 0

abbrev pub reverses : ℕ → Entry → ℕ
reverses k e = if names k e.reversal_of_id then 1 else 0

pub record IsLedger (d : Db) : Type 0 where
  pub fresh : All (λ x. x.id < d.next_id) d.entries
  pub rows : All (IsRow d.years) d.entries
  pub numbers :
      (y k : ℕ)
      → total (bears y k) d.entries ≡ (if leb 1 k && leb k (highest y d.entries) then 1 else 0)
  pub reversed_once : (k : ℕ) → total (reverses k) d.entries ≤ 1

pub bears-none : (y k : ℕ) (e : Entry) → e.sequence ≡ none → bears y k e ≡ 0
bears-none y k e h = rw h (ground arith)

pub number_in-none : (y : ℕ) (e : Entry) → e.sequence ≡ none → number_in y e ≡ 0
number_in-none y e h = rw h (ground arith)

has_reversal-total :
    (k : ℕ) (es : List Entry) → has_reversal k es ≡ false → total (reverses k) es ≡ 0
unfolding has_reversal
has_reversal-total k [] h = refl
has_reversal-total k (e ∷ es) h = ground (arith, has_reversal-total k es)

pub draft_row :
    (years : List FiscalYear) (e : Entry) → e.status ≡ draft → IsRow years e → e.sequence ≡ none
draft_row years e h r = (subst (λ s. RowIs s years e) h r).0

-- One more number on top of those from 1 to `m`.
next_count :
    (k m t t' top : ℕ)
    → t ≡ (if leb 1 k && leb k m then 1 else 0)
    → t' ≡ t + (if (m + 1) == k then 1 else 0)
    → top ≡ m + 1
    → t' ≡ (if leb 1 k && leb k top then 1 else 0)
next_count k m t t' top h h' htop = ground arith

-- What one write needs of the row that it replaces or removes.
module _ (d : Db) (inv : IsLedger d) where
  pub old_sequence :
      (k : ℕ) (old : Entry)
      → find_entry k d.entries ≡ some old
      → old.status ≡ draft
      → old.sequence ≡ none
  old_sequence k old f s =
      draft_row d.years old s (All-find (IsRow d.years) k old d.entries f inv.rows)

  pub old_id : (k : ℕ) (old : Entry) → find_entry k d.entries ≡ some old → k < d.next_id
  old_id k old f =
      let p = All-find (λ x. x.id < d.next_id) k old d.entries f inv.fresh in
      omega (arith, find_entry-id k old d.entries f)

  -- A row with no number takes the place of one with no number, and the numbers stay.
  pub numbers-save-none :
      (old e : Entry)
      → find_entry e.id d.entries ≡ some old
      → old.sequence ≡ none
      → e.sequence ≡ none
      → (y k : ℕ)
      → total (bears y k) (save e d.entries)
        ≡ (if leb 1 k && leb k (highest y (save e d.entries)) then 1 else 0)
  numbers-save-none old e f no_old no_new y k =
      let t = total-save (bears y k) e old d.entries f in
      let h = highest-save y e old d.entries f (number_in-none y old no_old) in
      let z = number_in-none y e no_new in
      let a = bears-none y k old no_old in
      let b = bears-none y k e no_new in
      let top : highest y (save e d.entries) ≡ highest y d.entries = omega (arith, h, z) in
      let same : total (bears y k) (save e d.entries) ≡ total (bears y k) d.entries =
        omega (arith, t, a, b) in
      rw (same, top) (inv.numbers y k)

  -- The next number of a year is taken once, and becomes its highest.
  pub numbers-save_next :
      (old e : Entry)
      → find_entry e.id d.entries ≡ some old
      → old.sequence ≡ none
      → e.sequence ≡ some (highest e.fiscal_year_id d.entries + 1)
      → (y k : ℕ)
      → total (bears y k) (save e d.entries)
        ≡ (if leb 1 k && leb k (highest y (save e d.entries)) then 1 else 0)
  numbers-save_next old e f no_old taken y k =
      let t = total-save (bears y k) e old d.entries f in
      let h = highest-save y e old d.entries f (number_in-none y old no_old) in
      let a = bears-none y k old no_old in
      let i = inv.numbers y k in
      elim (Bool-cases (e.fiscal_year_id == y)) [
        | inl here_year ↦
            let eq_year : e.fiscal_year_id ≡ y = (==_iff e.fiscal_year_id y).0 here_year in
            let taken' : e.sequence ≡ some (highest y d.entries + 1) =
              subst (λ z. e.sequence ≡ some (highest z d.entries + 1)) eq_year taken in
            let n : number_in y e ≡ highest y d.entries + 1 = rw (here_year, taken') refl in
            let b : bears y k e ≡ (if (highest y d.entries + 1) == k then 1 else 0) =
              rw (here_year, taken') refl in
            next_count k (highest y d.entries) _ _ _ i (omega (arith, t, a, b))
              (omega (arith, h, n))
        | inr other_year ↦
            let n : number_in y e ≡ 0 = rw other_year refl in
            let b : bears y k e ≡ 0 = rw other_year refl in
            let top : highest y (save e d.entries) ≡ highest y d.entries = omega (arith, h, n) in
            let same : total (bears y k) (save e d.entries) ≡ total (bears y k) d.entries =
              omega (arith, t, a, b) in
            rw (same, top) i
      ]

  pub reversed-save :
      (old e : Entry)
      → find_entry e.id d.entries ≡ some old
      → KeepsReversals d old e
      → (k : ℕ) → total (reverses k) (save e d.entries) ≤ 1
  reversed-save old e f (inl same) k =
      let t = total-save (reverses k) e old d.entries f in
      let r : reverses k e ≡ reverses k old = rw same refl in
      omega (arith, t, r, inv.reversed_once k)
  reversed-save old e f (inr (j, now, before, free)) k =
      let t = total-save (reverses k) e old d.entries f in
      let o : reverses k old ≡ 0 = rw before refl in
      let n : reverses k e ≡ (if j == k then 1 else 0) = rw now refl in
      elim (Bool-cases (j == k)) [
        | inl same ↦
            let eq : j ≡ k = (==_iff j k).0 same in
            let z : total (reverses k) d.entries ≡ 0 =
              has_reversal-total k d.entries
                (subst (λ x. has_reversal x d.entries ≡ false) eq free) in
            let m : reverses k e ≡ 1 = n ∙ rw same refl in omega (arith, t, o, m, z)
        | inr other ↦
            let m : reverses k e ≡ 0 = n ∙ rw other refl in
            omega (arith, t, o, m, inv.reversed_once k)
      ]
