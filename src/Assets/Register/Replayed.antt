-- ===== src/Assets/Register/Replayed.antt =====
-- A batch whose key was used before.
use solo_lmnp.Prelude.{ℕ, ◌≡◌, ◌≢◌, refl, ap, subst, Bool, true, false, Option, none, some, List}
use solo_lmnp.Prelude.Text.{Text, same_text, same_text_refl, same_text-eq, differs}
use solo_lmnp.Prelude.Outcome.{ok, err, ◌>>=◌, ok_inj, >>=-eq-ok, if_ok-eq-ok}
use solo_lmnp.Ledger.State.{EntryInput, Clock}
use solo_lmnp.Ledger.Service.{get_year}
use solo_lmnp.Assets.Register.State.{
  Estate, BatchItem, BatchResult, BatchRecord, idempotency_conflict, in_books, find_batch,
}
use solo_lmnp.Assets.Register.Posting.{
  post_items, summarize, stored_batch, run_batch, post_period_batch,
}

-- The batch is stored under its key.
record IsStored (key digest : Text) (r : BatchResult × Estate) : Type 0 where
  pub batch : BatchRecord
  pub there : find_batch key r.1.batches ≡ some batch
  pub same_lot : batch.fingerprint ≡ digest
  pub same_result :
      ◌≡◌ {A = BatchResult}
        (record (batch.result) { replayed = true })
        (record (r.0) { replayed = true })

module _ (fields_valid : EntryInput → Bool) (fingerprint : List BatchItem → Text) where
  run_batch-IsStored :
      (clock : Clock) (e : Estate) (year_id : ℕ) (key : Text) (items : List BatchItem)
      (r : BatchResult × Estate)
      → run_batch fields_valid fingerprint clock e year_id key items ≡ ok r
      → IsStored key (fingerprint items) r
  unfolding run_batch find_batch
  run_batch-IsStored clock e year_id key items r h =
      let (year, e0, h0) = >>=-eq-ok (in_books (get_year e.db year_id true)) _ h in
      subst (IsStored key (fingerprint items)) (ok_inj h0) (record {
        batch = record {
          idempotency_key = key;
          fingerprint = fingerprint items;
          result = summarize key (post_items fields_valid clock e year_id false items).0 false;
        };
        there = rw (same_text_refl key) refl;
        same_lot = refl;
        same_result = refl;
      })

  post_period_batch-IsStored :
      (clock : Clock) (e : Estate) (year_id : ℕ) (key : Text) (items : List BatchItem)
      (r : BatchResult × Estate)
      → post_period_batch fields_valid fingerprint clock e year_id key items ≡ ok r
      → IsStored key (fingerprint items) r
  unfolding post_period_batch
  post_period_batch-IsStored clock e year_id key items r h = go (find_batch key e.batches) refl h
    where
      again :
          (b : BatchRecord)
          → find_batch key e.batches ≡ some b
          → (stored_batch (fingerprint items) b >>= λ result. ok (result, e)) ≡ ok r
          → IsStored key (fingerprint items) r
      again b f q =
          let (result, e0, h0) = >>=-eq-ok (stored_batch (fingerprint items) b) _ q in
          let (same, is) =
            if_ok-eq-ok (same_text b.fingerprint (fingerprint items)) idempotency_conflict
              (record (b.result) { replayed = true }) e0 in
          subst (IsStored key (fingerprint items)) (ok_inj h0) (record {
            batch = b;
            there = f;
            same_lot = same_text-eq b.fingerprint (fingerprint items) same;
            same_result = ap (λ (x : BatchResult). record x { replayed = true }) is;
          })

      go :
          (o : Option BatchRecord)
          → find_batch key e.batches ≡ o
          → elim o [
            | none ↦ run_batch fields_valid fingerprint clock e year_id key items
            | some b ↦ (stored_batch (fingerprint items) b >>= λ result. ok (result, e))
          ]
            ≡ ok r
          → IsStored key (fingerprint items) r
      go none f q = run_batch-IsStored clock e year_id key items r q
      go (some b) f q = again b f q

  -- A batch that is sent again under its key, at any later time, gives its report again, marked as
  -- replayed, and writes nothing; another lot under that key, with another digest, is refused.
  pub post_period_batch_replay :
      (clock later : Clock) (e : Estate) (year_id : ℕ) (key : Text) (items : List BatchItem)
      (r : BatchResult × Estate)
      → post_period_batch fields_valid fingerprint clock e year_id key items ≡ ok r
      → (post_period_batch fields_valid fingerprint later r.1 year_id key items
          ≡ ok (record (r.0) { replayed = true }, r.1))
        × ((others : List BatchItem)
            → fingerprint items ≢ fingerprint others
            → post_period_batch fields_valid fingerprint later r.1 year_id key others
              ≡ err idempotency_conflict)
  unfolding post_period_batch
  post_period_batch_replay clock later e year_id key items r h =
      let s = post_period_batch-IsStored clock e year_id key items r h in
      (
        rw (s.there, post_period_batch, s.same_lot, same_text_refl (fingerprint items))
            (ap (λ x. ok (x, r.1)) s.same_result),
        λ others differ.
            let other = differs (fingerprint items) (fingerprint others) differ in
            rw (s.there, post_period_batch, s.same_lot, other) refl,
      )
