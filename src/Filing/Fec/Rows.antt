-- ===== src/Filing/Fec/Rows.antt =====
-- The cells of a line of the ledger hold no separator.
use solo_lmnp.Ledger.State.{Line, Entry, Journal, Account}
use solo_lmnp.Prelude.Text.Decimal.{decimal, padded, IsDigit, decimal-IsDigit, padded-IsDigit}
use solo_lmnp.Prelude.{ℕ, ◌/◌, ◌%◌, All-map, [], ◌∷◌, arith, All, All-append}
use solo_lmnp.Filing.Fec.{Python, row, money, text_or}
use solo_lmnp.Filing.Fec.Cells.{IsClean, IsRow, fec_text-IsClean}

-- The cells that are not free texts: the codes, the numbers and the dates.
pub record IsLine (p : Python) (line : Line) (entry : Entry) : Type 0 where
  pub code : All IsClean entry.journal_code
  pub number : All IsClean (text_or entry.entry_number [])
  pub account : All IsClean line.account_number
  pub day : All IsClean (p.day_text entry.accounting_date)
  pub piece_day : All IsClean (p.day_text entry.piece_date)
  pub stamp : All IsClean (p.time_text entry.validated_at)

digit_clean : (c : ℕ) → IsDigit c → IsClean c
digit_clean c h =
    let low = h.0 in
    (λ q. omega (arith, q, low), λ q. omega (arith, q, low), λ q. omega (arith, q, low))

money-IsClean : (cents : ℕ) → All IsClean (money cents)
unfolding money
money-IsClean cents =
    All-append IsClean (decimal (cents / 100)) (b',' ∷ padded 2 (cents % 100))
      (All-map IsDigit IsClean digit_clean (decimal (cents / 100)) (decimal-IsDigit (cents / 100)))
      (
        (λ q. omega (arith, q), λ q. omega (arith, q), λ q. omega (arith, q)),
        All-map IsDigit IsClean digit_clean (padded 2 (cents % 100))
            (padded-IsDigit 2 (cents % 100)),
      )

-- The row of a line holds no separator, whatever its free texts, where its codes, its numbers and its
-- dates hold none.
pub row-IsRow :
    (p : Python) (line : Line) (entry : Entry) (journal : Journal) (account : Account)
    → IsLine p line entry
    → IsRow (row p line entry journal account)
unfolding row
row-IsRow p line entry journal account k = (
  k.code,
  (
    fec_text-IsClean p (text_or entry.journal_label journal.label),
    (
      k.number,
      (
        k.day,
        (
          k.account,
          (
            fec_text-IsClean p (text_or line.account_label account.label),
            (
              tt,
              (
                tt,
                (
                  fec_text-IsClean p entry.piece_reference,
                  (
                    k.piece_day,
                    (
                      fec_text-IsClean p line.label,
                      (
                        money-IsClean line.debit,
                        (money-IsClean line.credit, (tt, (tt, (k.stamp, (tt, (tt, tt)))))),
                      ),
                    ),
                  ),
                ),
              ),
            ),
          ),
        ),
      ),
    ),
  ),
)
