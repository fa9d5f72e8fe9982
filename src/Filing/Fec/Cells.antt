-- ===== src/Filing/Fec/Cells.antt =====
-- The lines of a file are read as they were written, and free texts hold no separator.
use mathlib.Core.List.{append_assoc}
use solo_lmnp.Prelude.{
  ℕ, ◌≡◌, ◌≢◌, refl, ap, ◌∙◌, inl, inr, false, ◌&&◌, ◌||◌, List, [], ◌∷◌, ◌++◌, ◌==◌, if◌then◌else◌,
  arith, All, All-append, Bool-cases,
}
use solo_lmnp.Prelude.Text.{Text}
use solo_lmnp.Filing.Fec.{
  Python, any_of, is_mark, is_formula, safe_cell, spaced, fec_text, columns, joined, format,
  all_lines, payload, onto_first, split_lines, split_cells, drop_empty_last, cells_of, read_rows,
}

-- Neither a tab nor an end of line.
abbrev pub IsClean : ℕ → Type 0
IsClean c = (c ≢ 9) × (c ≢ 13) × (c ≢ 10)

spaced-IsClean : (t : Text) → All IsClean (spaced t)
unfolding spaced
spaced-IsClean [] = tt
spaced-IsClean (c ∷ t) = (clean c, spaced-IsClean t)
  where
    clean : (d : ℕ) → IsClean (if any_of d (9 ∷ 13 ∷ 10 ∷ []) then b' ' else d)
    clean d = elim (Bool-cases (any_of d (9 ∷ 13 ∷ 10 ∷ []))) [
      | inl e ↦ rw e (λ h. omega (arith, h), λ h. omega (arith, h), λ h. omega (arith, h))
      | inr e ↦
          rw e (λ h. ground (arith, e, h), λ h. ground (arith, e, h), λ h. ground (arith, e, h))
    ]

safe_cell-IsClean : (p : Python) (t : Text) → All IsClean t → All IsClean (safe_cell p t)
unfolding safe_cell
safe_cell-IsClean p t h = elim (Bool-cases (is_mark t || is_formula p t)) [
  | inl e ↦ rw e ((λ q. omega (arith, q), λ q. omega (arith, q), λ q. omega (arith, q)), h)
  | inr e ↦ rw e h
]

-- A free text holds no tab and no end of line once it is a cell.
pub fec_text-IsClean : (p : Python) (t : Text) → All IsClean (fec_text p t)
unfolding fec_text
fec_text-IsClean p t = safe_cell-IsClean p (spaced t) (spaced-IsClean t)

split_cells-clean : (s : Text) → All IsClean s → split_cells s ≡ s ∷ []
unfolding split_cells
split_cells-clean [] h = refl
split_cells-clean (c ∷ s) h =
    let other : (c == 9) ≡ false = not_tab c h.0 in rw (other, split_cells-clean s h.1) refl
  where
    not_tab : (d : ℕ) → IsClean d → (d == 9) ≡ false
    not_tab d k = let q = k.0 in ground (arith, q)

split_cells-append : (s t : Text) → All IsClean s → split_cells (s ++ (9 ∷ t)) ≡ s ∷ split_cells t
unfolding split_cells
split_cells-append [] t h = refl
split_cells-append (c ∷ s) t h =
    let other : (c == 9) ≡ false = not_tab c h.0 in rw (other, split_cells-append s t h.1) refl
  where
    not_tab : (d : ℕ) → IsClean d → (d == 9) ≡ false
    not_tab d k = let q = k.0 in ground (arith, q)

-- A row of cells, one at least.
abbrev pub IsRow : List Text → Type 0
IsRow [] = ⊥
IsRow (x ∷ rest) = All (All IsClean) (x ∷ rest)

split_cells-joined :
    (x : Text) (rest : List Text)
    → All (All IsClean) (x ∷ rest)
    → split_cells (joined (x ∷ rest)) ≡ x ∷ rest
unfolding joined
split_cells-joined x [] h = split_cells-clean x h.0
split_cells-joined x (y ∷ rest) h =
    split_cells-append x (joined (y ∷ rest)) h.0 ∙ ap (λ l. x ∷ l) (split_cells-joined y rest h.1)

-- No carriage return.
abbrev NoReturn : ℕ → Type 0
NoReturn c = c ≢ 13

cell-NoReturn : (s : Text) → All IsClean s → All NoReturn s
cell-NoReturn [] h = tt
cell-NoReturn (c ∷ s) h = (h.0.1, cell-NoReturn s h.1)

joined-NoReturn :
    (x : Text) (rest : List Text) → All (All IsClean) (x ∷ rest) → All NoReturn (joined (x ∷ rest))
unfolding joined
joined-NoReturn x [] h = cell-NoReturn x h.0
joined-NoReturn x (y ∷ rest) h =
    All-append NoReturn x (9 ∷ joined (y ∷ rest)) (cell-NoReturn x h.0)
      ((λ q. omega (arith, q)), joined-NoReturn y rest h.1)

split_lines-append :
    (s t : Text) → All NoReturn s → split_lines (s ++ (13 ∷ 10 ∷ t)) ≡ s ∷ split_lines t
unfolding split_lines
split_lines-append [] t h = refl
split_lines-append (c ∷ []) t h =
    let no = h.0 in
    let other : (c == 13 && 13 == 10) ≡ false = ground (arith, no) in rw (other, split_lines) refl
split_lines-append (c ∷ d ∷ s) t h =
    let no = h.0 in
    let other : (c == 13 && d == 10) ≡ false = ground (arith, no) in
    let ih = split_lines-append (d ∷ s) t h.1 in rw (other, split_lines) (ap (onto_first c) ih)

texts_of : List (List Text) → List Text
texts_of [] = []
texts_of (r ∷ rest) = joined r ∷ texts_of rest

split_lines-format :
    (x : Text) (rest : List Text) (t : Text)
    → All (All IsClean) (x ∷ rest)
    → split_lines (format (x ∷ rest) ++ t) ≡ joined (x ∷ rest) ∷ split_lines t
unfolding format
split_lines-format x rest t h =
    ap split_lines (append_assoc (joined (x ∷ rest)) (13 ∷ 10 ∷ []) t)
    ∙ split_lines-append (joined (x ∷ rest)) t (joined-NoReturn x rest h)

split_lines-all_lines :
    (rows : List (List Text))
    → All IsRow rows
    → split_lines (all_lines rows) ≡ texts_of rows ++ ([] ∷ [])
unfolding all_lines texts_of split_lines
split_lines-all_lines [] h = refl
split_lines-all_lines ([] ∷ rows) h = absurd (h.0)
split_lines-all_lines ((x ∷ rest) ∷ rows) h =
    split_lines-format x rest (all_lines rows) h.0
    ∙ ap (λ l. joined (x ∷ rest) ∷ l) (split_lines-all_lines rows h.1)

drop_empty_last-append : (l : List Text) → drop_empty_last (l ++ ([] ∷ [])) ≡ l
drop_empty_last-append [] = refl
drop_empty_last-append ([] ∷ []) = refl
drop_empty_last-append ((c ∷ t) ∷ []) = refl
drop_empty_last-append ([] ∷ y ∷ l) = ap (λ m. [] ∷ m) (drop_empty_last-append (y ∷ l))
drop_empty_last-append ((c ∷ t) ∷ y ∷ l) = ap (λ m. (c ∷ t) ∷ m) (drop_empty_last-append (y ∷ l))

cells_of-texts_of : (rows : List (List Text)) → All IsRow rows → cells_of (texts_of rows) ≡ rows
unfolding cells_of texts_of
cells_of-texts_of [] h = refl
cells_of-texts_of ([] ∷ rows) h = absurd (h.0)
cells_of-texts_of ((x ∷ rest) ∷ rows) h =
    rw (split_cells-joined x rest h.0, cells_of-texts_of rows h.1) refl

-- The names of the columns hold no separator.
columns-IsRow : IsRow columns
columns-IsRow = omega arith

-- The lines of a file whose cells hold no tab and no end of line are read as they were written: the
-- names of the columns, then the rows, in their order and each with its cells.
pub read_rows-payload :
    (rows : List (List Text)) → All IsRow rows → read_rows (payload rows) ≡ columns ∷ rows
unfolding read_rows payload
read_rows-payload rows h =
    ap (λ l. cells_of (drop_empty_last l))
      (split_lines-all_lines (columns ∷ rows) (columns-IsRow, h))
    ∙ ap cells_of (drop_empty_last-append (texts_of (columns ∷ rows)))
    ∙ cells_of-texts_of (columns ∷ rows) (columns-IsRow, h)
