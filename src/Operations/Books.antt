-- ===== src/Operations/Books.antt =====
-- The books after any operations.
use solo_lmnp.Prelude.{ℕ, ◌≡◌, refl, subst, Bool, true, some, List, [], ◌∷◌, not, ltb}
use solo_lmnp.Prelude.Text.{Text}
use solo_lmnp.Prelude.Outcome.{Outcome, ok, err, ◌>>=◌, ok_inj, >>=-eq-ok, guard-eq-ok}
use solo_lmnp.Ledger.State.{
  Entry, Db, operation_details, EntryInput, ReversalInput, Clock, business_reversed,
}
use solo_lmnp.Ledger.Service.{get_entry, log}
use solo_lmnp.Ledger.Reversal.{reverse_entry}
use solo_lmnp.Ledger.Step.{aside, here, next}
use solo_lmnp.Ledger.Refines.{log-Frame}
use solo_lmnp.Ledger.Posting.{reverse_entry-Steps}
use solo_lmnp.Operations.State.{
  BankMatch, World, Payload, OperationError, operation_not_found, reversal_date, settlements_exist,
  loan_payments_exist, lift, find_operation,
}
use solo_lmnp.Operations.Bank.{given, unmatch}
use solo_lmnp.Operations.Service.{create_operation}
use solo_lmnp.Operations.Settle.{
  funding_blocks, any_live_child, matches_of, unmatch_all, cancel, settle,
}
use solo_lmnp.Operations.Routes.{
  Action, create_one, settle_one, cancel_one, match_one, unmatch_one, act, perform_one, perform,
}
use solo_lmnp.Operations.Writes.{
  ledger, Writes-IsLedger, Touches, Touches-refl, Touches-trans, match-Touches, unmatch-Touches,
}
use solo_lmnp.Operations.Settled.{IsBooks, Touches-IsBooks}
use solo_lmnp.Operations.Kept.{lift-eq-ok, create_operation-IsBooks, settle-IsBooks}

pub unmatch_all-Touches :
    (w : World) (reason : Text) (l : List BankMatch) (w' : World)
    → unmatch_all w reason l ≡ ok w'
    → Touches w w'
unfolding unmatch_all
unmatch_all-Touches w reason [] w' h = subst (Touches w) (ok_inj h) (Touches-refl w)
unmatch_all-Touches w reason (m ∷ rest) w' h =
    let (w1, e, k) = >>=-eq-ok (unmatch w m.transaction_id reason) _ h in
    Touches-trans (unmatch-Touches w m.transaction_id reason w1 e)
      (unmatch_all-Touches w1 reason rest w' k)

module _ (fields_valid : EntryInput → Bool) where
  -- What follows the checks of a cancellation.
  reversed-Touches :
      (clock : Clock) (w freed : World) (entry : Entry) (input : ReversalInput) (r : Entry × Db)
      → IsBooks w
      → Touches w freed
      → reverse_entry fields_valid clock freed.db entry input true ≡ ok r
      → Touches w (record freed { db = r.1 })
  reversed-Touches clock w freed entry input r inv t h =
      let fresh = (Writes-IsLedger t.writes inv.ledger).fresh in
      record {
        writes =
            ledger t.writes
              (reverse_entry-Steps fields_valid clock freed.db entry input true r fresh h);
        same_operations = t.same_operations;
        same_next = t.same_next;
      }

  unmatched-Touches :
      (clock : Clock) (w : World) (entry : Entry) (k : ℕ) (input : ReversalInput)
      (r : Entry × World)
      → IsBooks w
      → (do
        freed ← unmatch_all w input.reason (matches_of entry.id w.matches)
        reversal ← lift (reverse_entry fields_valid clock freed.db entry input true)
        ok (
          reversal.0,
          record freed {
            db =
                log business_reversed (some entry.id) (operation_details k input.reason) reversal.1;
          },
        ))
        ≡ ok r
      → Touches w r.1
  unfolding log
  unmatched-Touches clock w entry k input r inv h =
      let (freed, e0, h0) =
        >>=-eq-ok (unmatch_all w input.reason (matches_of entry.id w.matches)) _ h in
      let (done, e1, h1) =
        >>=-eq-ok (lift (reverse_entry fields_valid clock freed.db entry input true)) _ h0 in
      let t =
        reversed-Touches clock w freed entry input done inv
          (unmatch_all-Touches w input.reason _ freed e0) (lift-eq-ok _ e1) in
      let logged =
        next here (aside (log-Frame business_reversed _ _ done.1 _ refl refl refl) refl refl) in
      subst (λ (x : Entry × World). Touches w x.1) (ok_inj h1)
        (record {
          writes = ledger t.writes logged;
          same_operations = t.same_operations;
          same_next = t.same_next;
        })

  cancel-Touches :
      (clock : Clock) (w : World) (operation_id : ℕ) (input : ReversalInput) (r : Entry × World)
      → IsBooks w
      → cancel fields_valid clock w operation_id input ≡ ok r
      → Touches w r.1
  unfolding cancel
  cancel-Touches clock w operation_id input r inv h =
      let (row, e0, h0) =
        >>=-eq-ok (given (find_operation operation_id w.operations) operation_not_found) _ h in
      let (g1, h1) = guard-eq-ok (not (ltb input.accounting_date row.date)) reversal_date _ h0 in
      let (g2, h2) =
        guard-eq-ok (not (any_live_child w.db.entries row.id w.operations)) settlements_exist _
          h1 in
      let (g3, h3) = guard-eq-ok (not (funding_blocks w row row.kind)) loan_payments_exist _ h2 in
      let (entry, e4, h4) = >>=-eq-ok (lift (get_entry w.db row.accounting_entry_id)) _ h3 in
      unmatched-Touches clock w entry row.id input r inv h4

module _ (fields_valid : EntryInput → Bool) (digest : Payload → Text) where
  act-IsBooks :
      (clock : Clock) (w : World) (a : Action) (w' : World)
      → IsBooks w
      → act fields_valid digest clock w a ≡ ok w'
      → IsBooks w'
  unfolding act
  act-IsBooks clock w (create_one input) w' inv h =
      let (r, e, k) = >>=-eq-ok (create_operation fields_valid digest clock w input) _ h in
      subst IsBooks (ok_inj k) (create_operation-IsBooks fields_valid digest clock w input r inv e)
  act-IsBooks clock w (settle_one p input) w' inv h =
      let (r, e, k) = >>=-eq-ok (settle fields_valid digest clock w p input) _ h in
      subst IsBooks (ok_inj k) (settle-IsBooks fields_valid digest clock w p input r inv e)
  act-IsBooks clock w (cancel_one o input) w' inv h =
      let (r, e, k) = >>=-eq-ok (cancel fields_valid clock w o input) _ h in
      subst IsBooks (ok_inj k)
        (Touches-IsBooks w r.1 inv (cancel-Touches fields_valid clock w o input r inv e))
  act-IsBooks clock w (match_one t e p) w' inv h =
      Touches-IsBooks w w' inv (match-Touches w t e p w' h)
  act-IsBooks clock w (unmatch_one t reason) w' inv h =
      Touches-IsBooks w w' inv (unmatch-Touches w t reason w' h)

  perform_one-IsBooks :
      (clock : Clock) (w : World) (a : Action)
      → IsBooks w
      → IsBooks (perform_one fields_valid digest clock w a)
  unfolding perform_one
  perform_one-IsBooks clock w a inv = go (act fields_valid digest clock w a) refl
    where
      go :
          (o : Outcome OperationError World)
          → act fields_valid digest clock w a ≡ o
          → IsBooks (elim o [ ok w' ↦ w' | err e ↦ w ])
      go (ok w') e = act-IsBooks clock w a w' inv e
      go (err x) e = inv

  -- From sound books, whatever the operations and whichever fail, the books stay sound: the ledger
  -- is sound, and the settlements of no operation whose entries are not reversed add up to more than
  -- its amount.
  pub perform-IsBooks :
      (w : World) (actions : List (Clock × Action))
      → IsBooks w
      → IsBooks (perform fields_valid digest w actions)
  unfolding perform
  perform-IsBooks w [] inv = inv
  perform-IsBooks w ((clock, a) ∷ rest) inv =
      perform-IsBooks (perform_one fields_valid digest clock w a) rest
        (perform_one-IsBooks clock w a inv)
