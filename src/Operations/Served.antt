-- ===== src/Operations/Served.antt =====
-- What a served request leaves: `replay`, `create_operation` and `settle` of
-- backend/app/services/operations.py, for an operation and for a settlement alike.
use solo_lmnp.Prelude.{
  ℕ, ◌≡◌, refl, sym, ap, subst, ◌∙◌, inl, inr, Bool, Option, none, some, List, [], ◌∷◌, ◌++◌,
  if◌then◌else◌, Bool-cases, not, ltb, ◌||◌,
}
use mathlib.Core.List.{append-nil, append_assoc}
use solo_lmnp.Prelude.Int.{pos, ltb_ℤ}
use solo_lmnp.Prelude.Text.{Text, codes, same_text, same_text-eq}
use solo_lmnp.Prelude.Outcome.{Outcome, ok, err, ◌>>=◌, ok_inj, >>=-eq-ok, guard-eq-ok, if_ok-eq-ok}
use solo_lmnp.Ledger.State.{EntryInput, Clock}
use solo_lmnp.Operations.State.{
  Operation, World, OperationInput, SettlementInput, Payload, of_operation, of_settlement,
  OperationError, idempotency_conflict, settlement_exceeds, find_request, find_operation,
}
use solo_lmnp.Operations.Bank.{account, bank}
use solo_lmnp.Operations.Service.{
  remaining, same_payload, replay, once, counter_account, counter_prefix, operation_posting,
  new_operation, create_operation,
}
use solo_lmnp.Operations.Settle.{settled_parent, settlement_posting, new_settlement, settle}
use solo_lmnp.Operations.Kept.{post_business-row}
use solo_lmnp.Operations.Replay.{find_request-append, same_payload-eq-ok, replay_shown}

-- A request that bears a reference: an operation, or the settlement of one.
abbrev pub reference : Payload → Text
reference (of_operation input) = input.request_id
reference (of_settlement parent_id input) = input.request_id

-- An operation that is found by its request stays found when rows are added.
pub find_request-keeps :
    (k : Text) (ops more : List Operation) (row : Operation)
    → find_request k ops ≡ some row
    → find_request k (ops ++ more) ≡ some row
unfolding find_request
find_request-keeps k [] more row h = cc
find_request-keeps k (x ∷ ops) more row h = elim (Bool-cases (same_text x.request_id k)) [
  | inl e ↦ rw e (rw e at h)
  | inr e ↦ rw e (find_request-keeps k ops more row (rw e at h))
]

-- The operations are those that were there, and others after them.
pub record Extends (w w' : World) : Type 0 where
  pub added : List Operation
  pub grown : w'.operations ≡ w.operations ++ added

pub Extends-same : (w w' : World) → w'.operations ≡ w.operations → Extends w w'
Extends-same w w' h = record { added = []; grown = h ∙ sym (append-nil w.operations) }

pub Extends-trans : (w w1 w2 : World) → Extends w w1 → Extends w1 w2 → Extends w w2
Extends-trans w w1 w2 s t = record {
  added = s.added ++ t.added;
  grown =
      t.grown
      ∙ ap (λ (l : List Operation). l ++ t.added) s.grown
      ∙ append_assoc w.operations s.added t.added;
}

-- The row of a request that was served: it is found, it bears the digest, and the other rows are kept.
pub record IsServed (k hash : Text) (w : World) (r : Operation × World) : Type 0 where
  pub found_row : find_request k r.1.operations ≡ some r.0
  pub bears_hash : r.0.request_hash ≡ hash
  pub kept : Extends w r.1

module _ (w : World) (k hash : Text) where
  new-IsServed :
      (r : Operation × World)
      → find_request k w.operations ≡ none
      → (r.0.request_id ≡ k)
        × (r.0.request_hash ≡ hash)
        × (r.1.operations ≡ w.operations ++ (r.0 ∷ []))
      → IsServed k hash w r
  new-IsServed r unseen facts = record {
    found_row = rw facts.2 (find_request-append k w.operations r.0 unseen facts.0);
    bears_hash = facts.1;
    kept = record { added = r.0 ∷ []; grown = facts.2 };
  }

  -- Both services replay a row that is there, and write a new one if there is none.
  once-IsServed :
      (fresh : Outcome OperationError (Operation × World)) (r : Operation × World)
      → (find_request k w.operations ≡ none → fresh ≡ ok r → IsServed k hash w r)
      → (replay w k hash >>= λ old. once w old fresh) ≡ ok r
      → IsServed k hash w r
  once-IsServed fresh r served h =
      let (old, e, h1) = >>=-eq-ok (replay w k hash) (λ old. once w old fresh) h in
      let shown = replay_shown w k hash old e in
      go old (same_payload-eq-ok hash (find_request k w.operations) old shown) shown h1
    where
      go :
          (old : Option Operation)
          → find_request k w.operations ≡ old
          → same_payload hash (find_request k w.operations) ≡ ok old
          → once w old fresh ≡ ok r
          → IsServed k hash w r
      go none f shown h1 = served f h1
      go (some o) f shown h1 =
          let same : same_payload hash (some o) ≡ ok (some o) = rw f at shown in
          let b =
            (if_ok-eq-ok (same_text o.request_hash hash) idempotency_conflict (some o) same).0 in
          subst (λ (x : Operation × World). IsServed k hash w x) (ok_inj h1)
            (record {
              found_row = f;
              bears_hash = same_text-eq o.request_hash hash b;
              kept = Extends-same w w refl;
            })

module _ (fields_valid : EntryInput → Bool) (digest : Payload → Text) where
  new_operation-IsServed :
      (clock : Clock) (w : World) (input : OperationInput) (r : Operation × World)
      → find_request input.request_id w.operations ≡ none
      → new_operation fields_valid digest clock w input ≡ ok r
      → IsServed input.request_id (digest (of_operation input)) w r
  unfolding new_operation
  new_operation-IsServed clock w input r unseen h =
      let (charged, e0, h0) =
        >>=-eq-ok
          (account w.db input.accounting_account
            (if input.is_revenue then codes "7" else codes "6"))
          _ h in
      let (number, e1, h1) = >>=-eq-ok (counter_account w input) _ h0 in
      let (checked, e2, h2) = >>=-eq-ok (account w.db number (counter_prefix input)) _ h1 in
      new-IsServed w input.request_id (digest (of_operation input)) r unseen (
        post_business-row fields_valid clock w
          (operation_posting (digest (of_operation input)) input number) r h2)

  new_settlement-IsServed :
      (clock : Clock) (w : World) (k : ℕ) (input : SettlementInput) (r : Operation × World)
      → find_request input.request_id w.operations ≡ none
      → new_settlement fields_valid digest clock w k input ≡ ok r
      → IsServed input.request_id (digest (of_settlement k input)) w r
  unfolding new_settlement
  new_settlement-IsServed clock w k input r unseen h =
      let (parent, e0, h0) = >>=-eq-ok (settled_parent (find_operation k w.operations)) _ h in
      let (g, h1) =
        guard-eq-ok
          (not (ltb input.date parent.date || ltb_ℤ (remaining w parent) (pos input.amount)))
          settlement_exceeds _ h0 in
      let (row, e2, h2) = >>=-eq-ok (bank w input.bank_account_id) _ h1 in
      new-IsServed w input.request_id (digest (of_settlement k input)) r unseen (
        post_business-row fields_valid clock w
          (settlement_posting (digest (of_settlement k input)) parent input row.account_number) r
          h2)

  -- The service that takes a payload.
  abbrev pub submit : Clock → World → Payload → Outcome OperationError (Operation × World)
  submit clock w (of_operation input) = create_operation fields_valid digest clock w input
  submit clock w (of_settlement k input) = settle fields_valid digest clock w k input

  pub submit-IsServed :
      (clock : Clock) (w : World) (p : Payload) (r : Operation × World)
      → submit clock w p ≡ ok r
      → IsServed (reference p) (digest p) w r
  unfolding create_operation settle
  submit-IsServed clock w (of_operation input) r h =
      once-IsServed w input.request_id (digest (of_operation input))
        (new_operation fields_valid digest clock w input) r (new_operation-IsServed clock w input r)
        h
  submit-IsServed clock w (of_settlement k input) r h =
      once-IsServed w input.request_id (digest (of_settlement k input))
        (new_settlement fields_valid digest clock w k input) r
        (new_settlement-IsServed clock w k input r) h

  -- A payload whose reference is taken is replayed, or refused by its digest.
  pub submit-taken :
      (clock : Clock) (w : World) (p : Payload) (row : Operation)
      → find_request (reference p) w.operations ≡ some row
      → submit clock w p
        ≡ (if same_text row.request_hash (digest p) then ok (row, w) else err idempotency_conflict)
  unfolding create_operation settle replay
  submit-taken clock w (of_operation input) row f =
      elim (Bool-cases (same_text row.request_hash (digest (of_operation input)))) [
        | inl e ↦ rw (f, e) refl
        | inr e ↦ rw (f, e) refl
      ]
  submit-taken clock w (of_settlement k input) row f =
      elim (Bool-cases (same_text row.request_hash (digest (of_settlement k input)))) [
        | inl e ↦ rw (f, e) refl
        | inr e ↦ rw (f, e) refl
      ]
