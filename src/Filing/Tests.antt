-- ===== src/Filing/Tests.antt =====
-- Concrete lines of a file.
use solo_lmnp.Prelude.{◌≡◌, refl, true, false, none, some, List, [], ◌∷◌, ◌&&◌, leb, arith}
use solo_lmnp.Prelude.Text.{Text, codes}
use solo_lmnp.Prelude.Text.Decimal.{value_from}
use solo_lmnp.Ledger.State.{validated, asset, bank, Line, Entry, Journal, Account}
use solo_lmnp.Filing.Fec.{Python, money, amount, fec_text, row, columns, payload, read_rows}
use solo_lmnp.Filing.Fec.Money.{IsPython, amount-money}
use solo_lmnp.Filing.Fec.Cells.{IsRow, read_rows-payload}
use solo_lmnp.Filing.Fec.Rows.{IsLine, row-IsRow}

abbrev ascii : Python
ascii = record {
  is_digit = λ c. leb b'0' c && leb c b'9';
  is_decimal = λ c. leb b'0' c && leb c b'9';
  int_of = value_from 0;
  is_space = λ c. false;
  day_text = λ d. codes "20260101";
  time_text = λ t. codes "20260201";
}

ascii-IsPython : IsPython ascii
ascii-IsPython = record { digits = λ c h. ground (arith, h.0, h.1); reads = λ t h. refl }

written : money 120005 ≡ codes "1200,05"
unfolding money
written = refl

amount-money_example : amount ascii (money 120005) ≡ some 120005
amount-money_example = amount-money ascii 120005 ascii-IsPython

-- A formula is quoted, and a tab becomes a space.
formula_quoted : fec_text ascii (codes "=A1\tB") ≡ codes "'=A1 B"
unfolding fec_text
formula_quoted = refl

abbrev rent_line : Line
rent_line = record {
  position = 1;
  account_number = codes "512000";
  label = codes "Loyer\tmars";
  debit = 70000;
  credit = 0;
  account_label = none;
}

abbrev rent_entry : Entry
rent_entry = record {
  id = 1;
  fiscal_year_id = 1;
  journal_code = codes "BQ";
  entry_number = some (codes "2026-000001");
  sequence = some 1;
  accounting_date = 120;
  piece_reference = codes "Q1";
  piece_date = 120;
  label = codes "Loyer";
  source_type = codes "MANUAL";
  source_id = none;
  status = validated;
  version = 2;
  validated_at = some 2;
  reversal_of_id = none;
  journal_label = none;
  lines = rent_line ∷ [];
}

abbrev bank_journal : Journal
bank_journal = record {
  code = codes "BQ";
  label = codes "Banque";
  journal_type = bank;
  active = true;
}

abbrev bank_account : Account
bank_account = record {
  number = codes "512000";
  label = codes "Banques";
  account_type = asset;
  active = true;
}

rent-IsLine : IsLine ascii rent_line rent_entry
rent-IsLine = record {
  code = omega arith;
  number = omega arith;
  account = omega arith;
  day = omega arith;
  piece_day = omega arith;
  stamp = omega arith;
}

row-IsRow_example : IsRow (row ascii rent_line rent_entry bank_journal bank_account)
row-IsRow_example = row-IsRow ascii rent_line rent_entry bank_journal bank_account rent-IsLine

abbrev rent_rows : List (List Text)
rent_rows = row ascii rent_line rent_entry bank_journal bank_account ∷ []

read_rows-payload_example : read_rows (payload rent_rows) ≡ columns ∷ rent_rows
read_rows-payload_example =
    read_rows-payload rent_rows
      (row-IsRow ascii rent_line rent_entry bank_journal bank_account rent-IsLine, tt)
