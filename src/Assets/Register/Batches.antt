-- ===== src/Assets/Register/Batches.antt =====
-- A batch of postings: its report, and a batch that is sent again.
use solo_lmnp.Prelude.{
  ℕ, ◌+◌, ◌≤◌, ◌≡◌, refl, ap, inl, inr, Bool, true, false, Option, none, some, List, [], ◌∷◌, ◌==◌,
  arith, Bool-cases, length,
}
use solo_lmnp.Prelude.Outcome.{Outcome, ok, err}
use solo_lmnp.Ledger.State.{Entry, EntryInput, Clock}
use solo_lmnp.Assets.Plan.{Period, posted}
use solo_lmnp.Assets.Register.State.{
  Estate, BatchItem, Item, ItemStatus, posted_item, error_item, skipped_item, AssetError,
  find_period, DepreciationPostInput,
}
use solo_lmnp.Assets.Register.Posting.{
  post_period, is_posted, report, attempt, post_one, is_error, post_items, posted_one, failed_one,
  skipped_one, count_of,
}
use solo_lmnp.Assets.Register.Sound.{IsEstate}
use solo_lmnp.Assets.Register.Posted.{
  post_period-IsEstate, post_period-IsPostedAs, post_period-keeps,
}

-- The period is posted with the entry.
pub record IsPostedIn (periods : List Period) (k j : ℕ) : Type 0 where
  pub period : Period
  pub there : find_period k periods ≡ some period
  pub names_entry : period.status ≡ posted j

-- What a status says of the period of its item.
abbrev pub Holds : List Period → ℕ → ItemStatus → Type 0
Holds periods k (posted_item j replayed) = IsPostedIn periods k j
Holds periods k (error_item x) = Unit
Holds periods k skipped_item = ⊥

-- The periods that are posted stay as they are.
abbrev pub Keeps : Estate → Estate → Type 0
Keeps e e' =
    (k j : ℕ) (x : Period)
    → find_period k e.periods ≡ some x
    → x.status ≡ posted j
    → find_period k e'.periods ≡ some x

abbrev IsStep : Estate → ℕ → ItemStatus × Estate → Type 0
IsStep e k r = IsEstate r.1 × Keeps e r.1 × Holds r.1.periods k r.0

abbrev pub AllSkipped : List Item → Type 0
AllSkipped [] = Unit
AllSkipped (i ∷ rest) = (i.status ≡ skipped_item) × AllSkipped rest

module _ (fields_valid : EntryInput → Bool) where
  report-IsStep :
      (clock : Clock) (e : Estate) (k : ℕ) (input : DepreciationPostInput) (already : Bool)
      (o : Outcome AssetError (Entry × Estate))
      → IsEstate e
      → post_period fields_valid clock e k input ≡ o
      → IsStep e k (report e k already o)
  report-IsStep clock e k input already (err x) inv h = (inv, λ n j p f q. f, tt)
  report-IsStep clock e k input already (ok r) inv h =
      let done = post_period-IsPostedAs fields_valid clock e k input r inv h in
      (
        post_period-IsEstate fields_valid clock e k input r inv h,
        λ n j p f q. post_period-keeps fields_valid clock e k input r n j p inv f q h,
        record { period = done.period; there = done.there; names_entry = done.is_posted },
      )

  attempt-IsStep :
      (clock : Clock) (e : Estate) (year_id : ℕ) (item : BatchItem) (o : Option Period)
      → IsEstate e
      → IsStep e item.period_id (attempt fields_valid clock e year_id item o)
  attempt-IsStep clock e year_id item none inv = (inv, λ n j p f q. f, tt)
  attempt-IsStep clock e year_id item (some p) inv =
      elim (Bool-cases (p.fiscal_year_id == year_id)) [
        | inl same ↦ rw same (
            report-IsStep clock e item.period_id
              (record { request_id = item.request_id; piece_reference = item.piece_reference })
              (is_posted p.status) _ inv refl)
        | inr other ↦ rw other (inv, λ n j x f q. f, tt)
      ]

  post_one-IsStep :
      (clock : Clock) (e : Estate) (year_id : ℕ) (item : BatchItem)
      → IsEstate e
      → IsStep e item.period_id (post_one fields_valid clock e year_id item)
  unfolding post_one
  post_one-IsStep clock e year_id item inv =
      attempt-IsStep clock e year_id item (find_period item.period_id e.periods) inv

-- What a status asks: of a posted item, of what follows an error; an item is not skipped first.
abbrev pub ReportFrom : ItemStatus → (ℕ → Type 0) → Type 0 → Type 0
ReportFrom (posted_item j replayed) P S = P j
ReportFrom (error_item x) P S = S
ReportFrom skipped_item P S = ⊥

-- A report: posted items, whose periods are posted with their entries, then, after the first error,
-- skipped items only.
abbrev pub IsReport : List Period → List Item → Type 0
IsReport periods [] = Unit
IsReport periods (i ∷ rest) =
    ReportFrom i.status (λ j. IsPostedIn periods i.period_id j × IsReport periods rest)
      (AllSkipped rest)

abbrev pub ids_of : List Item → List ℕ
ids_of [] = []
ids_of (i ∷ rest) = i.period_id ∷ ids_of rest

abbrev pub asked_ids : List BatchItem → List ℕ
asked_ids [] = []
asked_ids (i ∷ rest) = i.period_id ∷ asked_ids rest

IsPostedIn-Keeps :
    (e e' : Estate) (k j : ℕ) → Keeps e e' → IsPostedIn e.periods k j → IsPostedIn e'.periods k j
IsPostedIn-Keeps e e' k j f p = record {
  period = p.period;
  there = f k j p.period p.there p.names_entry;
  names_entry = p.names_entry;
}

-- The facts of a loop.
pub record IsDone (e : Estate) (stopped : Bool) (asked : List BatchItem) (r : List Item × Estate)
    : Type 0 where
  pub sound : IsEstate r.1
  pub keeps : Keeps e r.1
  pub same_ids : ids_of r.0 ≡ asked_ids asked
  pub after_stop : stopped ≡ true → AllSkipped r.0
  pub reported : stopped ≡ false → IsReport r.1.periods r.0

joined :
    (e : Estate) (one : ItemStatus × Estate) (item : BatchItem) (rest : List BatchItem)
    (more : List Item × Estate)
    → IsStep e item.period_id one
    → IsDone one.1 (is_error one.0) rest more
    → IsReport more.1.periods (record { period_id = item.period_id; status = one.0 } ∷ more.0)
joined e (posted_item j replayed, e1) item rest more s d =
    (IsPostedIn-Keeps e1 more.1 item.period_id j d.keeps s.2, d.reported refl)
joined e (error_item x, e1) item rest more s d = d.after_stop refl
joined e (skipped_item, e1) item rest more s d = s.2

module _ (fields_valid : EntryInput → Bool) where
  pub post_items-IsDone :
      (clock : Clock) (e : Estate) (year_id : ℕ) (stopped : Bool) (items : List BatchItem)
      → IsEstate e
      → IsDone e stopped items (post_items fields_valid clock e year_id stopped items)
  unfolding post_items
  post_items-IsDone clock e year_id stopped [] inv = record {
    sound = inv;
    keeps = λ k j x f q. f;
    same_ids = refl;
    after_stop = λ h. tt;
    reported = λ h. tt;
  }
  post_items-IsDone clock e year_id true (item ∷ rest) inv =
      let more = post_items-IsDone clock e year_id true rest inv in
      record {
        sound = more.sound;
        keeps = more.keeps;
        same_ids = ap (λ l. item.period_id ∷ l) more.same_ids;
        after_stop = λ h. (refl, more.after_stop refl);
        reported = λ h. cc;
      }
  post_items-IsDone clock e year_id false (item ∷ rest) inv =
      let one = post_one fields_valid clock e year_id item in
      let step = post_one-IsStep fields_valid clock e year_id item inv in
      let more = post_items-IsDone clock one.1 year_id (is_error one.0) rest step.0 in
      record {
        sound = more.sound;
        keeps = λ k j x f q. more.keeps k j x (step.1 k j x f q) q;
        same_ids = ap (λ l. item.period_id ∷ l) more.same_ids;
        after_stop = λ h. cc;
        reported = λ h. joined e one item rest _ step more;
      }

skipped_counts :
    (l : List Item)
    → AllSkipped l
    → (count_of posted_one l ≡ 0)
      × (count_of failed_one l ≡ 0)
      × (count_of skipped_one l ≡ length l)
skipped_counts [] h = (refl, refl, refl)
skipped_counts (i ∷ l) h =
    let ih = skipped_counts l h.1 in
    rw (h.0) (omega (arith, ih.0), omega (arith, ih.1), omega (arith, ih.2))

pub report_counts :
    (periods : List Period) (l : List Item)
    → IsReport periods l
    → (count_of posted_one l + count_of failed_one l + count_of skipped_one l ≡ length l)
      × (count_of failed_one l ≤ 1)
report_counts periods [] h = (refl, omega arith)
report_counts periods (i ∷ l) h = go i.status refl h (report_counts periods l)
  where
    go :
        (s : ItemStatus)
        → i.status ≡ s
        → ReportFrom s (λ j. IsPostedIn periods i.period_id j × IsReport periods l) (AllSkipped l)
        → (IsReport periods l
            → (count_of posted_one l + count_of failed_one l + count_of skipped_one l ≡ length l)
              × (count_of failed_one l ≤ 1))
        → (count_of posted_one (i ∷ l) + count_of failed_one (i ∷ l) + count_of skipped_one (i ∷ l)
            ≡ length (i ∷ l))
          × (count_of failed_one (i ∷ l) ≤ 1)
    go (posted_item j replayed) e q rest =
        let ih = rest q.1 in rw e (omega (arith, ih.0), omega (arith, ih.1))
    go (error_item x) e q rest =
        let c = skipped_counts l q in rw e (omega (arith, c.0, c.1, c.2), omega (arith, c.1))
    go skipped_item e q rest = absurd q
