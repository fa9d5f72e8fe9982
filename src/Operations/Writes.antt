-- ===== src/Operations/Writes.antt =====
-- What the operations do to the ledger: chains of the writes of Ledger/Step.antt, and changes of the
-- list of the entries with a matched line.
use solo_lmnp.Prelude.{
  ℕ, ◌≡◌, refl, ◌∙◌, subst, sym, true, Option, none, some, List, [], ◌∷◌, ◌++◌, ◌==◌, ◌&&◌, arith,
}
use solo_lmnp.Prelude.Text.{Text}
use solo_lmnp.Prelude.Outcome.{ok, ok_inj, if_err-eq-ok, if_ok-eq-ok, >>=-eq-ok, guard-eq-ok}
use solo_lmnp.Ledger.State.{
  draft, Entry, Db, find_entry, save, remove, bank_matched, bank_unmatched, match_details,
}
use solo_lmnp.Ledger.Service.{get_year, log}
use solo_lmnp.Ledger.Step.{Step, added, changed, posted, deleted, aside, Steps, here, next}
use solo_lmnp.Ledger.Refines.{log-Frame}
use solo_lmnp.Ledger.Invariant.{IsLedger}
use solo_lmnp.Ledger.Preserved.{Steps-IsLedger}
use solo_lmnp.Operations.State.{
  BankMatch, World, lift, match_not_found, not_matched, line_not_found, match_inconsistent,
  integrity, already_matched, find_transaction, find_match,
}
use solo_lmnp.Operations.Bank.{
  bank, given, reversed_in, find_entry_line, is_consistent, line_matched, record_match,
  keep_or_match, match, unmatch, drop_one,
}

pub data Writes (d : Db) : Db → Type 0 where
  nothing : Writes d d
  ledger : {d1 d2 : Db} → Writes d d1 → Steps d1 d2 → Writes d d2
  rematched :
      {d1 d2 : Db} → Writes d d1 → (m : List ℕ) → d2 ≡ record d1 { matched = m } → Writes d d2

pub Writes-append : {d d1 d2 : Db} → Writes d d1 → Writes d1 d2 → Writes d d2
Writes-append p nothing = p
Writes-append p (ledger q s) = ledger (Writes-append p q) s
Writes-append p (rematched q m e) = rematched (Writes-append p q) m e

matched-IsLedger : (d : Db) (m : List ℕ) → IsLedger d → IsLedger (record d { matched = m })
matched-IsLedger d m inv = record {
  fresh = inv.fresh;
  rows = inv.rows;
  numbers = inv.numbers;
  reversed_once = inv.reversed_once;
}

pub Writes-IsLedger : {d d' : Db} → Writes d d' → IsLedger d → IsLedger d'
Writes-IsLedger nothing inv = inv
Writes-IsLedger (ledger p s) inv = Steps-IsLedger (Writes-IsLedger p inv) s
Writes-IsLedger (rematched {d1} p m e) inv =
    subst IsLedger (sym e) (matched-IsLedger d1 m (Writes-IsLedger p inv))

-- An entry that a validated one reverses stays reversed.
reversed_in-append :
    (k : ℕ) (es fs : List Entry) → reversed_in k es ≡ true → reversed_in k (es ++ fs) ≡ true
unfolding reversed_in
reversed_in-append k [] fs h = cc
reversed_in-append k (e ∷ es) fs h = ground (arith, reversed_in-append k es fs)

reversed_in-save :
    (k : ℕ) (e old : Entry) (es : List Entry)
    → find_entry e.id es ≡ some old
    → old.status ≡ draft
    → reversed_in k es ≡ true
    → reversed_in k (save e es) ≡ true
unfolding reversed_in find_entry save
reversed_in-save k e old [] f d h = cc
reversed_in-save k e old (x ∷ es) f d h = ground (arith, reversed_in-save k e old es)

reversed_in-remove :
    (k j : ℕ) (old : Entry) (es : List Entry)
    → find_entry j es ≡ some old
    → old.status ≡ draft
    → reversed_in k es ≡ true
    → reversed_in k (remove j es) ≡ true
unfolding reversed_in find_entry remove
reversed_in-remove k j old [] f d h = cc
reversed_in-remove k j old (x ∷ es) f d h = ground (arith, reversed_in-remove k j old es)

Step-reversed :
    (k : ℕ) {d d' : Db}
    → Step d d'
    → reversed_in k d.entries ≡ true
    → reversed_in k d'.entries ≡ true
Step-reversed k {d} (added e f _ _ _ _ en _) h = rw en (reversed_in-append k d.entries (e ∷ []) h)
Step-reversed k {d} (changed old e f found was _ _ _ _ _ _ _ en _) h =
    rw en (reversed_in-save k e old d.entries found was h)
Step-reversed k {d} (posted old e f found p en _) h =
    rw en (reversed_in-save k e old d.entries found p.was_draft h)
Step-reversed k {d} (deleted old f found was _ en _) h =
    rw en (reversed_in-remove k old.id old d.entries found was h)
Step-reversed k {d} (aside f en _) h = rw en h

Steps-reversed :
    (k : ℕ) {d d' : Db}
    → Steps d d'
    → reversed_in k d.entries ≡ true
    → reversed_in k d'.entries ≡ true
Steps-reversed k here h = h
Steps-reversed k (next p s) h = Step-reversed k s (Steps-reversed k p h)

pub Writes-reversed :
    (k : ℕ) {d d' : Db}
    → Writes d d'
    → reversed_in k d.entries ≡ true
    → reversed_in k d'.entries ≡ true
Writes-reversed k nothing h = h
Writes-reversed k (ledger p s) h = Steps-reversed k s (Writes-reversed k p h)
Writes-reversed k (rematched p m e) h = rw e (Writes-reversed k p h)

-- The operations are left alone, and the ledger is only written to.
pub record Touches (w w' : World) : Type 0 where
  pub writes : Writes w.db w'.db
  pub same_operations : w'.operations ≡ w.operations
  pub same_next : w'.next_operation ≡ w.next_operation

pub Touches-refl : (w : World) → Touches w w
Touches-refl w = record { writes = nothing; same_operations = refl; same_next = refl }

pub Touches-trans : {w w1 w2 : World} → Touches w w1 → Touches w1 w2 → Touches w w2
Touches-trans s t = record {
  writes = Writes-append s.writes t.writes;
  same_operations = t.same_operations ∙ s.same_operations;
  same_next = t.same_next ∙ s.same_next;
}

record_match-Touches : (w : World) (t e p : ℕ) → Touches w (record_match w t e p)
unfolding record_match
record_match-Touches w t e p =
    let m = record (w.db) { matched = w.db.matched ++ (e ∷ []) } in
    record {
      writes =
          ledger (rematched nothing (w.db.matched ++ (e ∷ [])) refl)
            (next here (aside (log-Frame bank_matched _ _ m _ refl refl refl) refl refl));
      same_operations = refl;
      same_next = refl;
    }

keep_or_match-Touches :
    (w : World) (t e p : ℕ) (old : Option BankMatch) (w' : World)
    → keep_or_match w t e p old ≡ ok w'
    → Touches w w'
keep_or_match-Touches w t e p none w' h =
    subst (Touches w) (if_err-eq-ok (line_matched e p w.matches) integrity _ h).1
      (record_match-Touches w t e p)
keep_or_match-Touches w t e p (some old) w' h =
    subst (Touches w) (if_ok-eq-ok (old.entry_id == e && old.position == p) already_matched _ h).1
      (Touches-refl w)

pub match-Touches : (w : World) (t e p : ℕ) (w' : World) → match w t e p ≡ ok w' → Touches w w'
unfolding match
match-Touches w t e p w' h =
    let (transaction, e0, h0) =
      >>=-eq-ok (given (find_transaction t w.transactions) match_not_found) _ h in
    let (found, e1, h1) = >>=-eq-ok (given (find_entry_line w.db e p) match_not_found) _ h0 in
    let (year, e2, h2) = >>=-eq-ok (lift (get_year w.db found.0.fiscal_year_id true)) _ h1 in
    let (row, e3, h3) = >>=-eq-ok (bank w transaction.bank_account_id) _ h2 in
    let (g, h4) =
      guard-eq-ok (is_consistent w.db year row.account_number transaction found.0 found.1)
        match_inconsistent _ h3 in
    keep_or_match-Touches w t e p (find_match t w.matches) w' h4

pub unmatch-Touches :
    (w : World) (t : ℕ) (reason : Text) (w' : World) → unmatch w t reason ≡ ok w' → Touches w w'
unfolding unmatch
unmatch-Touches w t reason w' h =
    let (row, e0, h0) = >>=-eq-ok (given (find_match t w.matches) not_matched) _ h in
    let (found, e1, h1) =
      >>=-eq-ok (given (find_entry_line w.db row.entry_id row.position) line_not_found) _ h0 in
    let (year, e2, h2) = >>=-eq-ok (lift (get_year w.db found.0.fiscal_year_id true)) _ h1 in
    let logged = log bank_unmatched (some found.0.id) (match_details t reason) w.db in
    let written =
      next here (aside (log-Frame bank_unmatched _ _ w.db _ refl refl refl) refl refl) in
    subst (Touches w) (ok_inj h2) (record {
      writes = rematched (ledger nothing written) (drop_one row.entry_id w.db.matched) refl;
      same_operations = refl;
      same_next = refl;
    })
