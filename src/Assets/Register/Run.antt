-- ===== src/Assets/Register/Run.antt =====
-- A batch as a whole, and the register after any requests.
use solo_lmnp.Prelude.{
  ℕ, ◌+◌, ◌≤◌, ◌≡◌, refl, subst, Bool, true, false, Option, none, some, List, [], ◌∷◌, length,
}
use solo_lmnp.Prelude.Text.{Text}
use solo_lmnp.Prelude.Outcome.{Outcome, ok, err, ◌>>=◌, ok_inj, >>=-eq-ok}
use solo_lmnp.Ledger.State.{EntryInput, Clock, depreciation_batch, operation_details}
use solo_lmnp.Ledger.Service.{get_year, log}
use solo_lmnp.Ledger.Step.{aside, here, next}
use solo_lmnp.Ledger.Refines.{log-Frame}
use solo_lmnp.Ledger.Serve.{serve_one-Steps}
use solo_lmnp.Assets.Register.State.{
  Estate, BatchItem, BatchResult, BatchRecord, AssetError, in_books, find_batch,
}
use solo_lmnp.Assets.Register.Create.{create_asset, create_component}
use solo_lmnp.Assets.Register.Schedules.{calculate_year}
use solo_lmnp.Assets.Register.Posting.{
  post_period, post_items, summarize, stored_batch, run_batch, post_period_batch,
}
use solo_lmnp.Assets.Register.Routes.{
  AssetRequest, create, component, calculate, post, post_year, in_ledger, Outside, handle_asset,
  run_one, run,
}
use solo_lmnp.Assets.Register.Sound.{IsEstate, Steps-IsEstate}
use solo_lmnp.Assets.Register.Kept.{create_asset-IsEstate, create_component-IsEstate}
use solo_lmnp.Assets.Register.Planned.{calculate_year-IsEstate}
use solo_lmnp.Assets.Register.Posted.{post_period-IsEstate}
use solo_lmnp.Assets.Register.Batches.{
  IsReport, ids_of, asked_ids, post_items-IsDone, report_counts,
}

batches-IsEstate :
    (e : Estate) (l : List BatchRecord) → IsEstate e → IsEstate (record e { batches = l })
batches-IsEstate e l inv = record {
  ledger = inv.ledger;
  asset_rows = inv.asset_rows;
  component_rows = inv.component_rows;
  decomposed = inv.decomposed;
  schedule_rows = inv.schedule_rows;
  period_rows = inv.period_rows;
  one_each = inv.one_each;
}

-- What a batch that is not a replay returns.
pub record IsBatch (items : List BatchItem) (key : Text) (r : BatchResult × Estate) : Type 0 where
  pub sound : IsEstate r.1
  pub reported : IsReport r.1.periods r.0.items
  pub same_ids : ids_of r.0.items ≡ asked_ids items
  pub counted : r.0.posted_count + r.0.failed_count + r.0.skipped_count ≡ length r.0.items
  pub one_failure : r.0.failed_count ≤ 1

stored_batch-IsEstate :
    (e : Estate) (digest : Text) (b : BatchRecord) (r : BatchResult × Estate)
    → IsEstate e
    → (stored_batch digest b >>= λ result. ok (result, e)) ≡ ok r
    → IsEstate r.1
stored_batch-IsEstate e digest b r inv h =
    let (result, e0, h0) = >>=-eq-ok (stored_batch digest b) _ h in
    subst (λ (x : BatchResult × Estate). IsEstate x.1) (ok_inj h0) inv

module _ (fields_valid : EntryInput → Bool) (fingerprint : List BatchItem → Text) where
  -- From a sound register, a batch that runs reports on the periods it was given, in their order:
  -- posted items first, each of whose periods is posted with the entry that is reported, then one
  -- error at most, then skipped items only; its three counts add up to the items, and the register
  -- stays sound.
  pub run_batch-IsBatch :
      (clock : Clock) (e : Estate) (year_id : ℕ) (key : Text) (items : List BatchItem)
      (r : BatchResult × Estate)
      → IsEstate e
      → run_batch fields_valid fingerprint clock e year_id key items ≡ ok r
      → IsBatch items key r
  unfolding run_batch summarize log
  run_batch-IsBatch clock e year_id key items r inv h =
      let (year, e0, h0) = >>=-eq-ok (in_books (get_year e.db year_id true)) _ h in
      let done = post_items fields_valid clock e year_id false items in
      let facts = post_items-IsDone fields_valid clock e year_id false items inv in
      let counts = report_counts done.1.periods done.0 (facts.reported refl) in
      let logged = log depreciation_batch none (operation_details year_id key) done.1.db in
      let written =
        next here (aside (log-Frame depreciation_batch _ _ done.1.db _ refl refl refl) refl refl) in
      subst (IsBatch items key) (ok_inj h0) (record {
        sound = batches-IsEstate _ _ (Steps-IsEstate done.1 logged facts.sound written);
        reported = facts.reported refl;
        same_ids = facts.same_ids;
        counted = counts.0;
        one_failure = counts.1;
      })

  post_period_batch-IsEstate :
      (clock : Clock) (e : Estate) (year_id : ℕ) (key : Text) (items : List BatchItem)
      (r : BatchResult × Estate)
      → IsEstate e
      → post_period_batch fields_valid fingerprint clock e year_id key items ≡ ok r
      → IsEstate r.1
  unfolding post_period_batch
  post_period_batch-IsEstate clock e year_id key items r inv h = go (find_batch key e.batches) h
    where
      go :
          (o : Option BatchRecord)
          → elim o [
            | none ↦ run_batch fields_valid fingerprint clock e year_id key items
            | some b ↦ (stored_batch (fingerprint items) b >>= λ result. ok (result, e))
          ]
            ≡ ok r
          → IsEstate r.1
      go none q = (run_batch-IsBatch clock e year_id key items r inv q).sound
      go (some b) q = stored_batch-IsEstate e (fingerprint items) b r inv q

module _ (o : Outside) where
  handle_asset-IsEstate :
      (clock : Clock) (e : Estate) (request : AssetRequest) (e' : Estate)
      → IsEstate e
      → handle_asset o clock e request ≡ ok e'
      → IsEstate e'
  unfolding handle_asset
  handle_asset-IsEstate clock e (create input) e' inv h =
      let (r, q, k) = >>=-eq-ok (create_asset o.calendar o.asset_valid e input) _ h in
      subst IsEstate (ok_inj k) (create_asset-IsEstate o.calendar o.asset_valid e input r inv q)
  handle_asset-IsEstate clock e (component a input) e' inv h =
      let (r, q, k) = >>=-eq-ok (create_component o.calendar e a input) _ h in
      subst IsEstate (ok_inj k) (create_component-IsEstate o.calendar e a input r inv q)
  handle_asset-IsEstate clock e (calculate year_id) e' inv h =
      let (r, q, k) = >>=-eq-ok (calculate_year o.calendar e year_id) _ h in
      subst IsEstate (ok_inj k) (calculate_year-IsEstate o.calendar e year_id r inv q)
  handle_asset-IsEstate clock e (post p input) e' inv h =
      let (r, q, k) = >>=-eq-ok (post_period o.fields_valid clock e p input) _ h in
      subst IsEstate (ok_inj k) (post_period-IsEstate o.fields_valid clock e p input r inv q)
  handle_asset-IsEstate clock e (post_year y key items) e' inv h =
      let (r, q, k) =
        >>=-eq-ok (post_period_batch o.fields_valid o.fingerprint clock e y key items) _ h in
      subst IsEstate (ok_inj k)
        (post_period_batch-IsEstate o.fields_valid o.fingerprint clock e y key items r inv q)
  handle_asset-IsEstate clock e (in_ledger request) e' inv h =
      subst IsEstate (ok_inj h) (
        Steps-IsEstate e _ inv (serve_one-Steps o.fields_valid clock e.db request inv.ledger.fresh))

  run_one-IsEstate :
      (clock : Clock) (e : Estate) (request : AssetRequest)
      → IsEstate e
      → IsEstate (run_one o clock e request)
  unfolding run_one
  run_one-IsEstate clock e request inv = go (handle_asset o clock e request) refl
    where
      go :
          (r : Outcome AssetError Estate)
          → handle_asset o clock e request ≡ r
          → IsEstate (elim r [ ok e' ↦ e' | err x ↦ e ])
      go (ok e') q = handle_asset-IsEstate clock e request e' inv q
      go (err x) q = inv

  -- From a sound register, whatever the requests of the register and of the ledger and whichever
  -- fail, the register stays sound: the ledger is sound; the components of an asset stay within its
  -- base; a schedule has one period at most for a year, within its plan and its base; and each
  -- posted period has its validated entry, of its year and its last day, with its amount on the
  -- account of the charge and on the depreciation account of its schedule.
  pub run-IsEstate :
      (e : Estate) (requests : List (Clock × AssetRequest))
      → IsEstate e
      → IsEstate (run o e requests)
  unfolding run
  run-IsEstate e [] inv = inv
  run-IsEstate e ((clock, r) ∷ rest) inv =
      run-IsEstate (run_one o clock e r) rest (run_one-IsEstate clock e r inv)
