-- ===== src/Assets/Register/Tests.antt =====
-- A small register: a piece of furniture that is booked, planned over a year, and posted by a batch.
use mathlib.Core.Bool.{xor}
use solo_lmnp.Prelude.{
  ℕ, ◌+◌, ◌*◌, ◌≡◌, ◌≢◌, refl, Bool, true, false, none, some, List, [], ◌∷◌, arith,
}
use solo_lmnp.Prelude.Int.{◌+ℤ◌}
use solo_lmnp.Prelude.Text.{Text, codes}
use solo_lmnp.Prelude.Outcome.{Outcome, ok, err, value_or, value_or-is_ok}
use solo_lmnp.Ledger.State.{
  draft, year_open, general, asset, equity, expense, Entry, EntryInput, Clock,
}
use solo_lmnp.Ledger.Service.{create_draft, get_entry}
use solo_lmnp.Ledger.Post.{post_draft, post_entry}
use solo_lmnp.Ledger.Reversal.{model_validate, mem_id}
use solo_lmnp.Ledger.Routes.{Request, validate, handle, serve_one}
use solo_lmnp.Ledger.Sourced.{sourced, post_sourced}
use solo_lmnp.Assets.Accounts.{furniture}
use solo_lmnp.Assets.Plan.{Calendar}
use solo_lmnp.Assets.Registration.{registration_gap}
use solo_lmnp.Assets.Register.State.{
  linear, Estate, AssetInput, BatchItem, BatchResult, Item, ItemStatus, posted_item, error_item,
  skipped_item, AssetError, period_not_found, idempotency_conflict, DepreciationPostInput,
  find_period, find_schedule, find_asset, Asset,
}
use solo_lmnp.Assets.Register.Create.{create_asset}
use solo_lmnp.Assets.Register.Schedules.{calculate_year}
use solo_lmnp.Assets.Register.Booking.{require_schedule_booked}
use solo_lmnp.Assets.Register.Posting.{
  post_new, post_by_status, post_period, post_one, post_items, run_batch, post_period_batch,
}
use solo_lmnp.Assets.Register.Routes.{
  AssetRequest, create, calculate, post_year, in_ledger, Outside, handle_asset, run_one, run,
}
use solo_lmnp.Assets.Register.Sound.{IsEstate, count_for}
use solo_lmnp.Assets.Register.Run.{IsBatch, run_batch-IsBatch, run-IsEstate}
use solo_lmnp.Assets.Register.Posted.{post_period_idem}
use solo_lmnp.Assets.Register.Replayed.{post_period_batch_replay}

-- A calendar whose months have thirty days.
abbrev thirty_days : Calendar
thirty_days = record {
  month_length = λ y m. 30;
  ordinal = λ d. (d.year * 12 + d.month) * 30 + d.day;
}

abbrev pieces_digest : List BatchItem → Text
pieces_digest [] = []
pieces_digest (i ∷ rest) = i.period_id ∷ pieces_digest rest

abbrev any_entry : EntryInput → Bool
any_entry input = true

abbrev outside : Outside
outside = record {
  fields_valid = any_entry;
  asset_valid = λ input. true;
  calendar = thirty_days;
  fingerprint = pieces_digest;
}

abbrev new_estate : Estate
new_estate = record {
  db = record {
    years =
        record { id = 1; year = 2026; start_date = 729391; end_date = 729750; status = year_open }
        ∷ [];
    journals =
        record { code = codes "OD"; label = codes "Divers"; journal_type = general; active = true }
        ∷ [];
    accounts =
        record {
          number = codes "218400";
          label = codes "Mobilier";
          account_type = asset;
          active = true;
        }
        ∷ record {
          number = codes "281840";
          label = codes "Amortissement";
          account_type = asset;
          active = true;
        }
        ∷ record {
          number = codes "681100";
          label = codes "Dotations";
          account_type = expense;
          active = true;
        }
        ∷ record {
          number = codes "108000";
          label = codes "Exploitant";
          account_type = equity;
          active = true;
        }
        ∷ [];
    entries = [];
    events = [];
    next_id = 1;
    matched = [];
  };
  properties = 7 ∷ [];
  assets = [];
  components = [];
  schedules = [];
  periods = [];
  batches = [];
  next_asset = 1;
  next_component = 1;
  next_schedule = 1;
  next_period = 1;
}

new_estate-IsEstate : IsEstate new_estate
unfolding count_for find_asset
new_estate-IsEstate = record {
  ledger = record {
    fresh = tt;
    rows = tt;
    numbers = λ y k. ground arith;
    reversed_once = λ k. omega arith;
  };
  asset_rows = tt;
  component_rows = tt;
  decomposed = λ k a h. absurd (no_asset k a h);
  schedule_rows = tt;
  period_rows = tt;
  one_each = λ s y. omega arith;
}
  where
    no_asset : (k : ℕ) (a : Asset) → find_asset k [] ≡ some a → ⊥
    no_asset k a h = cc

abbrev purchase : EntryInput
purchase = record {
  fiscal_year_id = 1;
  journal_code = codes "OD";
  accounting_date = 729391;
  piece_reference = codes "M1";
  piece_date = 729391;
  label = codes "Mobilier";
  lines =
      record {
        account_number = codes "218400";
        label = codes "Mobilier";
        debit = 120000;
        credit = 0;
      }
      ∷ record {
        account_number = codes "108000";
        label = codes "Mobilier";
        debit = 0;
        credit = 120000;
      }
      ∷ [];
}

abbrev furniture_input : AssetInput
furniture_input = record {
  property_id = 7;
  category = furniture;
  label = codes "Mobilier";
  acquisition_date = 729391;
  service_start_date = record { year = 2026; month = 1; day = 1 };
  acquisition_value = 120000;
  depreciable_value = 120000;
  non_depreciable_value = 0;
  residual_value = 0;
  method = linear;
  useful_life_months = some 24;
  asset_account = codes "218400";
  depreciation_account = some (codes "281840");
  duration_reason = codes "usage";
  disposed_at = none;
}

abbrev at : ℕ → Clock
at t = record { today = 729800; now = t }

abbrev first_requests : List (Clock × AssetRequest)
first_requests =
    (at 1, in_ledger (Request.create purchase))
    ∷ (at 2, in_ledger (validate 1 1))
    ∷ (at 3, create furniture_input)
    ∷ (at 4, calculate 1)
    ∷ []

abbrev planned : Estate
planned = run outside new_estate first_requests

abbrev batch_item : ℕ → BatchItem
batch_item k = record { period_id = k; request_id = codes "D1"; piece_reference = codes "DOT" }

abbrev lot : List BatchItem
lot = batch_item 1 ∷ batch_item 9 ∷ batch_item 1 ∷ []

abbrev value_of : Outcome AssetError (BatchResult × Estate) → List Item × Estate
value_of (ok r) = (r.0.items, r.1)
value_of (err e) = ([], new_estate)

abbrev statuses : List Item → List ItemStatus
statuses [] = []
statuses (i ∷ rest) = i.status ∷ statuses rest

-- The year takes half of the base. The first period is posted, the second is not there, and the rest is skipped.
batch_report :
    statuses (value_of (run_batch any_entry pieces_digest (at 5) planned 1 (codes "K1") lot)).0
    ≡ posted_item 2 false ∷ error_item period_not_found ∷ skipped_item ∷ []
unfolding run run_one handle_asset serve_one handle model_validate create_draft get_entry post_entry
    post_draft create_asset calculate_year run_batch post_items post_one post_period post_by_status
    post_new require_schedule_booked post_sourced sourced xor mem_id find_period find_schedule
    registration_gap ◌+ℤ◌
batch_report = refl

planned-IsEstate : IsEstate planned
planned-IsEstate = run-IsEstate outside new_estate first_requests new_estate-IsEstate

run-IsEstate_example :
    IsEstate (run outside planned ((at 5, post_year 1 (codes "K1") lot) ∷ first_requests))
run-IsEstate_example =
    run-IsEstate outside planned ((at 5, post_year 1 (codes "K1") lot) ∷ first_requests)
      planned-IsEstate

abbrev nothing_posted : BatchResult × Estate
nothing_posted = (
  record {
    idempotency_key = [];
    replayed = false;
    posted_count = 0;
    failed_count = 0;
    skipped_count = 0;
    items = [];
  },
  new_estate,
)

abbrev first_batch : BatchResult × Estate
first_batch =
    value_or nothing_posted (run_batch any_entry pieces_digest (at 5) planned 1 (codes "K1") lot)

runs_batch : run_batch any_entry pieces_digest (at 5) planned 1 (codes "K1") lot ≡ ok first_batch
unfolding run run_one handle_asset serve_one handle model_validate create_draft get_entry post_entry
    post_draft create_asset calculate_year run_batch post_items post_one post_period post_by_status
    post_new require_schedule_booked post_sourced sourced xor mem_id find_period find_schedule
    registration_gap ◌+ℤ◌ post_period_batch
runs_batch =
    value_or-is_ok nothing_posted
      (run_batch any_entry pieces_digest (at 5) planned 1 (codes "K1") lot) refl

run_batch-IsBatch_example : IsBatch lot (codes "K1") first_batch
run_batch-IsBatch_example =
    run_batch-IsBatch any_entry pieces_digest (at 5) planned 1 (codes "K1") lot first_batch
      planned-IsEstate runs_batch

abbrev first_posts : BatchResult × Estate
first_posts =
    value_or nothing_posted
      (post_period_batch any_entry pieces_digest (at 5) planned 1 (codes "K1") lot)

posts_batch :
    post_period_batch any_entry pieces_digest (at 5) planned 1 (codes "K1") lot ≡ ok first_posts
unfolding run run_one handle_asset serve_one handle model_validate create_draft get_entry post_entry
    post_draft create_asset calculate_year run_batch post_items post_one post_period post_by_status
    post_new require_schedule_booked post_sourced sourced xor mem_id find_period find_schedule
    registration_gap ◌+ℤ◌ post_period_batch
posts_batch =
    value_or-is_ok nothing_posted
      (post_period_batch any_entry pieces_digest (at 5) planned 1 (codes "K1") lot) refl

post_period_batch_replay_example :
    (post_period_batch any_entry pieces_digest (at 6) first_posts.1 1 (codes "K1") lot
      ≡ ok (record (first_posts.0) { replayed = true }, first_posts.1))
    × ((others : List BatchItem)
        → pieces_digest lot ≢ pieces_digest others
        → post_period_batch any_entry pieces_digest (at 6) first_posts.1 1 (codes "K1") others
          ≡ err idempotency_conflict)
post_period_batch_replay_example =
    post_period_batch_replay any_entry pieces_digest (at 5) (at 6) planned 1 (codes "K1") lot
      first_posts posts_batch

abbrev charge : Text → DepreciationPostInput
charge piece = record { request_id = codes "D1"; piece_reference = piece }

abbrev no_entry : Entry
no_entry = record {
  id = 0;
  fiscal_year_id = 0;
  journal_code = [];
  entry_number = none;
  sequence = none;
  accounting_date = 0;
  piece_reference = [];
  piece_date = 0;
  label = [];
  source_type = [];
  source_id = none;
  status = draft;
  version = 0;
  validated_at = none;
  reversal_of_id = none;
  journal_label = none;
  lines = [];
}

abbrev first_charge : Entry × Estate
first_charge =
    value_or (no_entry, new_estate) (post_period any_entry (at 5) planned 1 (charge (codes "A")))

posts_charge : post_period any_entry (at 5) planned 1 (charge (codes "A")) ≡ ok first_charge
unfolding run run_one handle_asset serve_one handle model_validate create_draft get_entry post_entry
    post_draft create_asset calculate_year run_batch post_items post_one post_period post_by_status
    post_new require_schedule_booked post_sourced sourced xor mem_id find_period find_schedule
    registration_gap ◌+ℤ◌ post_period_batch
posts_charge =
    value_or-is_ok (no_entry, new_estate)
      (post_period any_entry (at 5) planned 1 (charge (codes "A"))) refl

post_period_idem_example :
    post_period any_entry (at 6) first_charge.1 1 (charge (codes "B")) ≡ ok first_charge
post_period_idem_example =
    post_period_idem any_entry (at 5) (at 6) planned 1 (charge (codes "A")) (charge (codes "B"))
      first_charge planned-IsEstate posts_charge
