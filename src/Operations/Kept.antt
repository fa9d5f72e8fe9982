-- ===== src/Operations/Kept.antt =====
-- Every operation keeps the books.
use solo_lmnp.Prelude.{
  ℕ, ◌+◌, ◌≤◌, ◌≡◌, refl, ap, subst, sym, Bool, true, false, Option, none, some, [], ◌∷◌, ◌++◌,
  ◌||◌, not, ltb, if◌then◌else◌, arith, ==_iff,
}
use solo_lmnp.Prelude.Int.{pos, ltb_ℤ, ◌-ℤ◌, ltb_ℤ→ge, int_laws}
use solo_lmnp.Prelude.Text.{Text, codes}
use solo_lmnp.Prelude.Outcome.{Outcome, ok, err, ok_inj, >>=-eq-ok, guard-eq-ok, if_ok-eq-ok}
use solo_lmnp.Ledger.State.{Entry, EntryInput, Clock, business_posted, Error}
use solo_lmnp.Ledger.Service.{log}
use solo_lmnp.Ledger.Reversal.{names, mem_id}
use solo_lmnp.Ledger.Step.{aside, here, next}
use solo_lmnp.Ledger.Refines.{log-Frame}
use solo_lmnp.Ledger.Sourced.{post_sourced}
use solo_lmnp.Ledger.Sourced.Posted.{post_sourced-IsSourced}
use solo_lmnp.Operations.State.{
  Operation, World, OperationInput, SettlementInput, Payload, of_operation, of_settlement,
  OperationError, lift, property_not_found, settlement_exceeds, operation_not_found, kind_text,
  find_operation,
}
use solo_lmnp.Operations.Bank.{account, bank, reversed_in}
use solo_lmnp.Operations.Service.{
  is_some, used, remaining, replay, Posting, entry_of, lines_on, only_one, match_payment,
  stored_operation, post_business, once, counter_account, counter_prefix, operation_posting,
  new_operation, create_operation,
}
use solo_lmnp.Operations.Settle.{
  is_settled_kind, settled_parent, settlement_posting, new_settlement, settle,
}
use solo_lmnp.Operations.Writes.{
  nothing, ledger, Writes-append, Touches, Touches-refl, match-Touches,
}
use solo_lmnp.Operations.Settled.{Below, IsBooks, IsAdded, IsAdded-IsBooks, find_operation-Below}

pub lift-eq-ok : {A : Type 0} (m : Outcome Error A) {a : A} → lift m ≡ ok a → m ≡ ok a
lift-eq-ok (ok b) h = ap ok (ok_inj h)
lift-eq-ok (err e) h = cc

match_payment-Touches :
    (w : World) (entry : Entry) (b t : Option ℕ) (w' : World)
    → match_payment w entry b t ≡ ok w'
    → Touches w w'
match_payment-Touches w entry b none w' h = subst (Touches w) (ok_inj h) (Touches-refl w)
match_payment-Touches w entry none (some t) w' h = cc
match_payment-Touches w entry (some b) (some t) w' h =
    let (row, e0, h0) = >>=-eq-ok (bank w b) _ h in
    let (candidate, e1, h1) = >>=-eq-ok (only_one (lines_on row.account_number entry.lines)) _ h0 in
    match-Touches w t entry.id candidate.position w' h1

once-IsBooks :
    (w : World) (old : Option Operation) (fresh : Outcome OperationError (Operation × World))
    (r : Operation × World)
    → IsBooks w
    → (fresh ≡ ok r → IsBooks r.1)
    → once w old fresh ≡ ok r
    → IsBooks r.1
once-IsBooks w none fresh r inv kept h = kept h
once-IsBooks w (some row) fresh r inv kept h =
    subst (λ (x : Operation × World). IsBooks x.1) (ok_inj h) inv

settled_parent-eq-ok :
    (o : Option Operation) (parent : Operation) → settled_parent o ≡ ok parent → o ≡ some parent
settled_parent-eq-ok none parent h = cc
settled_parent-eq-ok (some row) parent h =
    ap some (if_ok-eq-ok (is_settled_kind row.kind) operation_not_found row h).1

false_is_not : false ≡ true → ⊥
false_is_not h = cc

neither : (a b : Bool) → not (a || b) ≡ true → b ≡ false
neither true b h = cc
neither false true h = cc
neither false false h = refl

-- There is room for what a posting settles.
abbrev pub HasRoom : World → Option ℕ → ℕ → Type 0
HasRoom w parent amount =
    Below w.next_operation parent
    × ((k : ℕ) (o : Operation)
        → names k parent ≡ true
        → find_operation k w.operations ≡ some o
        → used w.db.entries k w.operations + amount ≤ o.amount)

module _ (fields_valid : EntryInput → Bool) where
  post_business-IsAdded :
      (clock : Clock) (w : World) (p : Posting) (r : Operation × World)
      → IsBooks w
      → HasRoom w p.parent_id p.amount
      → post_business fields_valid clock w p ≡ ok r
      → IsAdded w r.1 r.0
  unfolding post_business log
  post_business-IsAdded clock w p r inv room h =
      let (g, h0) = guard-eq-ok (mem_id p.property_id w.properties) property_not_found _ h in
      let (posted, e1, h1) =
        >>=-eq-ok
          (lift (post_sourced fields_valid (kind_text p.kind) p.request_id clock w.db (entry_of p)))
          _ h0 in
      let (matched, e2, h2) =
        >>=-eq-ok
          (match_payment (stored_operation w p posted) posted.0 p.bank_id p.bank_transaction_id) _
          h1 in
      let s =
        post_sourced-IsSourced fields_valid (kind_text p.kind) p.request_id clock w.db (entry_of p)
          posted inv.ledger.fresh (lift-eq-ok _ e1) in
      let t =
        match_payment-Touches (stored_operation w p posted) posted.0 p.bank_id p.bank_transaction_id
          matched e2 in
      let logged =
        next here (aside (log-Frame business_posted _ _ matched.db _ refl refl refl) refl refl) in
      subst (λ (x : Operation × World). IsAdded w x.1 x.0) (ok_inj h2)
        (record {
          writes = ledger (Writes-append (ledger nothing s.writes) t.writes) logged;
          stored = t.same_operations;
          next = t.same_next;
          new_id = refl;
          after = room.0;
          room = room.1;
        })

room_left :
    (b : Bool) (u a p : ℕ)
    → u ≤ p
    → ltb_ℤ (if b then pos 0 else pos p -ℤ pos u) (pos a) ≡ false
    → u + a ≤ p
room_left true u a p le h = let k = ltb_ℤ→ge (pos 0) (pos a) h in omega (int_laws, k)
room_left false u a p le h = let k = ltb_ℤ→ge (pos p -ℤ pos u) (pos a) h in omega (int_laws, k)

module _ (fields_valid : EntryInput → Bool) where
  -- The row of a posting bears the request.
  pub post_business-row :
      (clock : Clock) (w : World) (p : Posting) (r : Operation × World)
      → post_business fields_valid clock w p ≡ ok r
      → (r.0.request_id ≡ p.request_id)
        × (r.0.request_hash ≡ p.hash)
        × (r.1.operations ≡ w.operations ++ (r.0 ∷ []))
  unfolding post_business
  post_business-row clock w p r h =
      let (g, h0) = guard-eq-ok (mem_id p.property_id w.properties) property_not_found _ h in
      let (posted, e1, h1) =
        >>=-eq-ok
          (lift (post_sourced fields_valid (kind_text p.kind) p.request_id clock w.db (entry_of p)))
          _ h0 in
      let (matched, e2, h2) =
        >>=-eq-ok
          (match_payment (stored_operation w p posted) posted.0 p.bank_id p.bank_transaction_id) _
          h1 in
      let t =
        match_payment-Touches (stored_operation w p posted) posted.0 p.bank_id p.bank_transaction_id
          matched e2 in
      subst
        (λ (x : Operation × World).
          (x.0.request_id ≡ p.request_id)
          × (x.0.request_hash ≡ p.hash)
          × (x.1.operations ≡ w.operations ++ (x.0 ∷ [])))
        (ok_inj h2) (refl, refl, t.same_operations)

-- The parent of a settlement has room for it.
settlement_room :
    (w : World) (parent : Operation) (k amount : ℕ)
    → IsBooks w
    → find_operation k w.operations ≡ some parent
    → ltb_ℤ (remaining w parent) (pos amount) ≡ false
    → HasRoom w (some parent.id) amount
unfolding remaining
settlement_room w parent k amount inv f h =
    let at = find_operation-Below w.next_operation k w.operations parent inv.in_order f in
    let f' = subst (λ j. find_operation j w.operations ≡ some parent) (sym at.0) f in
    let fits =
      room_left
        (is_some parent.bank_account_id || reversed_in parent.accounting_entry_id w.db.entries)
        (used w.db.entries parent.id w.operations) amount parent.amount
        (inv.settled parent.id parent f') h in
    (
      omega (arith, at),
      λ j o e g.
          let here_j : parent.id ≡ j = (==_iff parent.id j).0 e in
          let g' = subst (λ i. find_operation i w.operations ≡ some o) (sym here_j) g in
          let same : parent ≡ o = cc (f', g') in
          let moved =
            subst (λ (x : Operation). used w.db.entries parent.id w.operations + amount ≤ x.amount)
              same fits in
          subst (λ i. used w.db.entries i w.operations + amount ≤ o.amount) here_j moved,
    )

module _ (fields_valid : EntryInput → Bool) (digest : Payload → Text) where
  posted-IsBooks :
      (clock : Clock) (w : World) (p : Posting) (r : Operation × World)
      → IsBooks w
      → HasRoom w p.parent_id p.amount
      → post_business fields_valid clock w p ≡ ok r
      → IsBooks r.1
  posted-IsBooks clock w p r inv room h =
      IsAdded-IsBooks w r.1 r.0 inv (post_business-IsAdded fields_valid clock w p r inv room h)

  new_operation-IsBooks :
      (clock : Clock) (w : World) (input : OperationInput) (r : Operation × World)
      → IsBooks w
      → new_operation fields_valid digest clock w input ≡ ok r
      → IsBooks r.1
  unfolding new_operation
  new_operation-IsBooks clock w input r inv h =
      let (charged, e0, h0) =
        >>=-eq-ok
          (account w.db input.accounting_account
            (if input.is_revenue then codes "7" else codes "6"))
          _ h in
      let (number, e1, h1) = >>=-eq-ok (counter_account w input) _ h0 in
      let (checked, e2, h2) = >>=-eq-ok (account w.db number (counter_prefix input)) _ h1 in
      posted-IsBooks clock w (operation_posting (digest (of_operation input)) input number) r inv
        (tt, λ k o e f. absurd (false_is_not e)) h2

  pub create_operation-IsBooks :
      (clock : Clock) (w : World) (input : OperationInput) (r : Operation × World)
      → IsBooks w
      → create_operation fields_valid digest clock w input ≡ ok r
      → IsBooks r.1
  unfolding create_operation
  create_operation-IsBooks clock w input r inv h =
      let (old, e, k) = >>=-eq-ok (replay w input.request_id (digest (of_operation input))) _ h in
      once-IsBooks w old (new_operation fields_valid digest clock w input) r inv
        (new_operation-IsBooks clock w input r inv) k

  new_settlement-IsBooks :
      (clock : Clock) (w : World) (parent_id : ℕ) (input : SettlementInput) (r : Operation × World)
      → IsBooks w
      → new_settlement fields_valid digest clock w parent_id input ≡ ok r
      → IsBooks r.1
  unfolding new_settlement
  new_settlement-IsBooks clock w parent_id input r inv h =
      let (parent, e0, h0) =
        >>=-eq-ok (settled_parent (find_operation parent_id w.operations)) _ h in
      let (g, h1) =
        guard-eq-ok
          (not (ltb input.date parent.date || ltb_ℤ (remaining w parent) (pos input.amount)))
          settlement_exceeds _ h0 in
      let (row, e2, h2) = >>=-eq-ok (bank w input.bank_account_id) _ h1 in
      let found = settled_parent-eq-ok (find_operation parent_id w.operations) parent e0 in
      posted-IsBooks clock w
        (settlement_posting (digest (of_settlement parent_id input)) parent input
          row.account_number)
        r inv
        (settlement_room w parent parent_id input.amount inv found
          (neither (ltb input.date parent.date) (ltb_ℤ (remaining w parent) (pos input.amount)) g))
        h2

  pub settle-IsBooks :
      (clock : Clock) (w : World) (parent_id : ℕ) (input : SettlementInput) (r : Operation × World)
      → IsBooks w
      → settle fields_valid digest clock w parent_id input ≡ ok r
      → IsBooks r.1
  unfolding settle
  settle-IsBooks clock w parent_id input r inv h =
      let (old, e, k) =
        >>=-eq-ok (replay w input.request_id (digest (of_settlement parent_id input))) _ h in
      once-IsBooks w old (new_settlement fields_valid digest clock w parent_id input) r inv
        (new_settlement-IsBooks clock w parent_id input r inv) k
