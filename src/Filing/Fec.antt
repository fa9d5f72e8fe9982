-- ===== src/Filing/Fec.antt =====
-- The lines of the FEC: `fec_text`, `_row`, `_format`, `_money`, `_amount` and the reading of the lines
-- by `validate_fec` of backend/app/domain/filing/fec.py, and `safe_cell` of
-- backend/app/core/csv_text.py.
--
-- `Python` stands for Python's Unicode tests (`isdigit`, and the `\d` and `\s` of `re`), its `int`, and the eight digits of a date
-- and of a time stamp or of `datetime.min`.
pub mod Cells
pub mod Money
pub mod Rows
use solo_lmnp.Prelude.{
  ℕ, ◌+◌, ◌*◌, ◌/◌, ◌%◌, ◌==◌, Bool, true, false, ◌&&◌, ◌||◌, not, Option, none, some, List, [],
  ◌∷◌, ◌++◌, length, if◌then◌else◌,
}
use solo_lmnp.Prelude.Text.{Text, codes, starts_with, same_text}
use solo_lmnp.Prelude.Text.Decimal.{decimal, padded}
use solo_lmnp.Ledger.State.{Line, Entry, Journal, Account}

pub record Python : Type 0 where
  pub is_digit : ℕ → Bool
  pub is_decimal : ℕ → Bool
  pub int_of : Text → ℕ
  pub is_space : ℕ → Bool
  pub day_text : ℕ → Text
  pub time_text : Option ℕ → Text

abbrev pub any_of : ℕ → List ℕ → Bool
any_of c [] = false
any_of c (d ∷ rest) = c == d || any_of c rest

abbrev pub all_of : (ℕ → Bool) → Text → Bool
all_of f [] = true
all_of f (c ∷ t) = f c && all_of f t

-- `value[:1] in {"=", "+", "@", "\t", "\r"}`
abbrev pub is_mark : Text → Bool
is_mark [] = false
is_mark (c ∷ t) = any_of c (b'=' ∷ b'+' ∷ b'@' ∷ 9 ∷ 13 ∷ [])

-- `-[\d\s\u00a0\u202f.,]+`, after the dash.
abbrev pub is_amount : Python → Text → Bool
is_amount p [] = false
is_amount p (c ∷ t) =
    all_of (λ d. p.is_decimal d || (p.is_space d || any_of d (160 ∷ 8239 ∷ b'.' ∷ b',' ∷ [])))
      (c ∷ t)

abbrev pub is_formula : Python → Text → Bool
is_formula p [] = false
is_formula p (c ∷ t) = c == b'-' && not (is_amount p t)

abbrev pub quote : ℕ
quote = 39

unfoldable pub safe_cell : Python → Text → Text
safe_cell p t = if is_mark t || is_formula p t then quote ∷ t else t

-- The three replacements.
unfoldable pub spaced : Text → Text
spaced [] = []
spaced (c ∷ t) = (if any_of c (9 ∷ 13 ∷ 10 ∷ []) then b' ' else c) ∷ spaced t

unfoldable pub fec_text : Python → Text → Text
unfolding spaced safe_cell
fec_text p t = safe_cell p (spaced t)

unfoldable pub money : ℕ → Text
unfolding decimal padded
money cents = decimal (cents / 100) ++ (b',' ∷ padded 2 (cents % 100))

abbrev pub push : ℕ → Option (Text × Text) → Option (Text × Text)
push c none = none
push c (some parts) = some (c ∷ parts.0, parts.1)

-- `value.split(",", 1)`, where there is a comma.
unfoldable pub split_comma : Text → Option (Text × Text)
split_comma [] = none
split_comma (c ∷ t) = let rest = push c (split_comma t) in if c == b',' then some ([], t) else rest

abbrev pub has_digits : Python → Text → Bool
has_digits p [] = false
has_digits p (c ∷ t) = all_of p.is_digit (c ∷ t)

abbrev pub cents_of : Python → Option (Text × Text) → Option ℕ
cents_of p none = none
cents_of p (some parts) =
    if has_digits p parts.0 && (length parts.1 == 2 && has_digits p parts.1)
    then some (p.int_of parts.0 * 100 + p.int_of parts.1)
    else none

unfoldable pub amount : Python → Text → Option ℕ
unfolding split_comma
amount p t = cents_of p (split_comma t)

abbrev pub columns : List Text
columns =
    codes "JournalCode"
    ∷ codes "JournalLib"
    ∷ codes "EcritureNum"
    ∷ codes "EcritureDate"
    ∷ codes "CompteNum"
    ∷ codes "CompteLib"
    ∷ codes "CompAuxNum"
    ∷ codes "CompAuxLib"
    ∷ codes "PieceRef"
    ∷ codes "PieceDate"
    ∷ codes "EcritureLib"
    ∷ codes "Debit"
    ∷ codes "Credit"
    ∷ codes "EcritureLet"
    ∷ codes "DateLet"
    ∷ codes "ValidDate"
    ∷ codes "Montantdevise"
    ∷ codes "Idevise"
    ∷ []

abbrev pub text_or : Option Text → Text → Text
text_or none t = t
text_or (some []) t = t
text_or (some (c ∷ s)) t = c ∷ s

-- The cells of a line, in the order of the columns.
unfoldable pub row : Python → Line → Entry → Journal → Account → List Text
unfolding fec_text money
row p line entry journal account =
    entry.journal_code
    ∷ fec_text p (text_or entry.journal_label journal.label)
    ∷ text_or entry.entry_number []
    ∷ p.day_text entry.accounting_date
    ∷ line.account_number
    ∷ fec_text p (text_or line.account_label account.label)
    ∷ []
    ∷ []
    ∷ fec_text p entry.piece_reference
    ∷ p.day_text entry.piece_date
    ∷ fec_text p line.label
    ∷ money line.debit
    ∷ money line.credit
    ∷ []
    ∷ []
    ∷ p.time_text entry.validated_at
    ∷ []
    ∷ []
    ∷ []

-- `"\t".join`, and a line with its end.
unfoldable pub joined : List Text → Text
joined [] = []
joined (x ∷ []) = x
joined (x ∷ y ∷ rest) = x ++ (9 ∷ joined (y ∷ rest))

unfoldable pub format : List Text → Text
unfolding joined
format cells = joined cells ++ (13 ∷ 10 ∷ [])

unfoldable pub all_lines : List (List Text) → Text
unfolding format
all_lines [] = []
all_lines (r ∷ rest) = format r ++ all_lines rest

unfoldable pub payload : List (List Text) → Text
unfolding all_lines
payload rows = format columns ++ all_lines rows

abbrev pub onto_first : ℕ → List Text → List Text
onto_first c [] = (c ∷ []) ∷ []
onto_first c (x ∷ xs) = (c ∷ x) ∷ xs

-- `text.split("\r\n")`, and `raw.split("\t")`.
unfoldable pub split_lines : Text → List Text
split_lines [] = [] ∷ []
split_lines (c ∷ []) = (c ∷ []) ∷ []
split_lines (c ∷ d ∷ t) = elim (c == 13 && d == 10) [
  | true ↦ [] ∷ split_lines t
  | false ↦ onto_first c (split_lines (d ∷ t))
]

unfoldable pub split_cells : Text → List Text
split_cells [] = [] ∷ []
split_cells (c ∷ t) = let rest = split_cells t in if c == 9 then [] ∷ rest else onto_first c rest

-- The last line is dropped if it is empty.
abbrev pub drop_empty_last : List Text → List Text
drop_empty_last [] = []
drop_empty_last ([] ∷ []) = []
drop_empty_last ((c ∷ t) ∷ []) = (c ∷ t) ∷ []
drop_empty_last (x ∷ y ∷ rest) = x ∷ drop_empty_last (y ∷ rest)

unfoldable pub cells_of : List Text → List (List Text)
unfolding split_cells
cells_of [] = []
cells_of (l ∷ rest) = split_cells l ∷ cells_of rest

unfoldable pub read_rows : Text → List (List Text)
unfolding split_lines cells_of
read_rows t = cells_of (drop_empty_last (split_lines t))
