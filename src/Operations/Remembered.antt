-- ===== src/Operations/Remembered.antt =====
-- References that were used before: `replay` of backend/app/services/operations.py, after a run of
-- other requests.
use solo_lmnp.Prelude.{
  ℕ, ◌≡◌, refl, sym, ap, subst, ◌∙◌, Bool, true, some, List, [], ◌∷◌, if◌then◌else◌, not, ltb,
}
use solo_lmnp.Prelude.Text.{Text, same_text}
use solo_lmnp.Prelude.Outcome.{Outcome, ok, err, ok_inj, >>=-eq-ok, guard-eq-ok}
use solo_lmnp.Ledger.State.{Entry, EntryInput, ReversalInput, Clock}
use solo_lmnp.Ledger.Service.{get_entry}
use solo_lmnp.Ledger.Reversal.{reverse_entry}
use solo_lmnp.Operations.State.{
  Operation, World, Payload, of_operation, of_settlement, OperationError, idempotency_conflict,
  operation_not_found, reversal_date, settlements_exist, loan_payments_exist, lift, find_request,
  find_operation,
}
use solo_lmnp.Operations.Bank.{given}
use solo_lmnp.Operations.Service.{create_operation}
use solo_lmnp.Operations.Settle.{
  settle, funding_blocks, any_live_child, matches_of, unmatch_all, cancel,
}
use solo_lmnp.Operations.Routes.{
  Action, create_one, settle_one, cancel_one, match_one, unmatch_one, act, perform_one, perform,
}
use solo_lmnp.Operations.Writes.{match-Touches, unmatch-Touches}
use solo_lmnp.Operations.Books.{unmatch_all-Touches}
use solo_lmnp.Operations.Served.{
  reference, find_request-keeps, Extends, Extends-same, Extends-trans, submit, submit-IsServed,
  submit-taken,
}

module _ (fields_valid : EntryInput → Bool) (digest : Payload → Text) where
  cancel-same :
      (clock : Clock) (w : World) (k : ℕ) (input : ReversalInput) (r : Entry × World)
      → cancel fields_valid clock w k input ≡ ok r
      → r.1.operations ≡ w.operations
  unfolding cancel
  cancel-same clock w k input r h =
      let (row, e0, h0) =
        >>=-eq-ok (given (find_operation k w.operations) operation_not_found) _ h in
      let (g1, h1) = guard-eq-ok (not (ltb input.accounting_date row.date)) reversal_date _ h0 in
      let (g2, h2) =
        guard-eq-ok (not (any_live_child w.db.entries row.id w.operations)) settlements_exist _
          h1 in
      let (g3, h3) = guard-eq-ok (not (funding_blocks w row row.kind)) loan_payments_exist _ h2 in
      let (entry, e4, h4) = >>=-eq-ok (lift (get_entry w.db row.accounting_entry_id)) _ h3 in
      let (freed, e5, h5) =
        >>=-eq-ok (unmatch_all w input.reason (matches_of entry.id w.matches)) _ h4 in
      let (reversal, e6, h6) =
        >>=-eq-ok (lift (reverse_entry fields_valid clock freed.db entry input true)) _ h5 in
      ap (λ (x : Entry × World). x.1.operations) (sym (ok_inj h6))
      ∙ (unmatch_all-Touches w input.reason _ freed e5).same_operations

  act-Extends :
      (clock : Clock) (w : World) (a : Action) (w' : World)
      → act fields_valid digest clock w a ≡ ok w'
      → Extends w w'
  unfolding act
  act-Extends clock w (create_one input) w' h =
      let (r, e, k) = >>=-eq-ok (create_operation fields_valid digest clock w input) _ h in
      subst (Extends w) (ok_inj k)
        (submit-IsServed fields_valid digest clock w (of_operation input) r e).kept
  act-Extends clock w (settle_one p input) w' h =
      let (r, e, k) = >>=-eq-ok (settle fields_valid digest clock w p input) _ h in
      subst (Extends w) (ok_inj k)
        (submit-IsServed fields_valid digest clock w (of_settlement p input) r e).kept
  act-Extends clock w (cancel_one o input) w' h =
      let (r, e, k) = >>=-eq-ok (cancel fields_valid clock w o input) _ h in
      subst (Extends w) (ok_inj k) (Extends-same w r.1 (cancel-same clock w o input r e))
  act-Extends clock w (match_one t e p) w' h =
      Extends-same w w' (match-Touches w t e p w' h).same_operations
  act-Extends clock w (unmatch_one t reason) w' h =
      Extends-same w w' (unmatch-Touches w t reason w' h).same_operations

  perform_one-Extends :
      (clock : Clock) (w : World) (a : Action)
      → Extends w (perform_one fields_valid digest clock w a)
  unfolding perform_one
  perform_one-Extends clock w a = go (act fields_valid digest clock w a) refl
    where
      go :
          (o : Outcome OperationError World)
          → act fields_valid digest clock w a ≡ o
          → Extends w (elim o [ ok w' ↦ w' | err e ↦ w ])
      go (ok w') e = act-Extends clock w a w' e
      go (err x) e = Extends-same w w refl

  perform-Extends :
      (w : World) (actions : List (Clock × Action))
      → Extends w (perform fields_valid digest w actions)
  unfolding perform
  perform-Extends w [] = Extends-same w w refl
  perform-Extends w ((clock, a) ∷ rest) =
      let w1 = perform_one fields_valid digest clock w a in
      Extends-trans w w1 (perform fields_valid digest w1 rest) (perform_one-Extends clock w a)
        (perform-Extends w1 rest)

  -- The reference of an operation or of a settlement that was served is taken from then on: after
  -- any actions, whichever fail, and at any later time, an operation or a settlement under that
  -- reference gives the first row again and writes nothing if its payload has the digest of the
  -- first, and is refused as a conflict if it has another.
  pub submit-remembered :
      (clock later : Clock) (w : World) (first again : Payload) (r : Operation × World)
      (actions : List (Clock × Action))
      → submit fields_valid digest clock w first ≡ ok r
      → reference again ≡ reference first
      → let w' = perform fields_valid digest r.1 actions in
        submit fields_valid digest later w' again ≡ (
          if same_text (digest first) (digest again)
          then ok (r.0, w')
          else err idempotency_conflict)
  submit-remembered clock later w first again r actions h same =
      let s = submit-IsServed fields_valid digest clock w first r h in
      let x = perform-Extends r.1 actions in
      let w' = perform fields_valid digest r.1 actions in
      let f : find_request (reference again) w'.operations ≡ some r.0 =
        rw (same, x.grown)
          (find_request-keeps (reference first) r.1.operations x.added r.0 s.found_row) in
      subst
        (λ hash.
          submit fields_valid digest later w' again
          ≡ (if same_text hash (digest again) then ok (r.0, w') else err idempotency_conflict))
        s.bears_hash (submit-taken fields_valid digest later w' again r.0 f)
