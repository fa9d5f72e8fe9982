-- ===== src/Ledger/Posting.antt =====
-- Posting and reversal are chains of the writes of Step.antt.
use mathlib.Core.List.{append-nil}
use solo_lmnp.Prelude.{
  ℕ, ◌<◌, ◌≡◌, refl, ap, sym, subst, ◌∙◌, inl, inr, Bool, false, none, some, List, [], ◌∷◌, ◌++◌,
  arith, Bool-cases, All,
}
use solo_lmnp.Prelude.Outcome.{ok_inj, ok, >>=-eq-ok}
use solo_lmnp.Ledger.State.{
  validated, Entry, Db, EntryInput, ReversalInput, Clock, find_entry, save, entry_validated,
  entry_reversed,
}
use solo_lmnp.Ledger.Service.{is_validated, apply_input, create_draft, log}
use solo_lmnp.Ledger.Post.{posted_row, post_draft, post_entry, max_sequence, or_zero}
use solo_lmnp.Ledger.Reversal.{
  has_reversal, check_reversal, linked, reversal_payload, model_validate, reverse_entry,
}
use solo_lmnp.Ledger.Step.{
  Frame, InOpenYear, IsPosting, Step, posted, changed, aside, Steps, here, next, Steps-append,
}
use solo_lmnp.Ledger.Checks.{
  get_year-eq-ok, check_draft-eq-ok, freeze_labels-totals, PostFacts, post_draft-eq-ok,
  check_posting-eq-ok, record_posting-eq-ok,
}
use solo_lmnp.Ledger.Table.{find_entry-append_fresh, find_entry-save_self}
use solo_lmnp.Ledger.Refines.{
  log-Frame, find_year-id, IsCreated, create_draft-eq-ok, IsCreated-Step,
}

pub InOpenYear-Frame : {d d' : Db} (e : Entry) → Frame d d' → InOpenYear d e → InOpenYear d' e
InOpenYear-Frame e f y = record {
  year = y.year;
  found_year = rw f.same_years y.found_year;
  is_open = y.is_open;
  not_early = y.not_early;
  not_late = y.not_late;
}

-- The row that a posting writes fits the relation.
explicit_row-IsPosting :
    (clock : Clock) (db : Db) (entry : Entry) (version : ℕ) (r : Entry × Db)
    → (p : PostFacts clock db entry version r)
    → IsPosting db entry (
        posted_row clock p.year p.journal
          (or_zero (max_sequence entry.fiscal_year_id db.entries))
          p.lines
          entry)
unfolding posted_row
explicit_row-IsPosting clock db entry version r p =
    let w = record_posting-eq-ok clock db p.year p.journal p.lines entry r p.recorded in
    let y = get_year-eq-ok db entry.fiscal_year_id p.got_year in
    let c = check_posting-eq-ok clock p.year entry p.posting in
    let t = freeze_labels-totals db entry.lines p.lines p.frozen in
    let same_id = find_year-id entry.fiscal_year_id p.year db.years y.0 in
    record {
      was_draft = (check_draft-eq-ok entry version p.checked).1;
      now_validated = refl;
      same_year = refl;
      in_year = record {
        year = p.year;
        found_year = y.0;
        is_open = y.1;
        not_early = c.not_early;
        not_late = c.not_late;
      };
      next_sequence = refl;
      numbered = refl;
      stamp = clock.now;
      stamped = refl;
      in_order = rw same_id at (w.0);
      same_reversal = refl;
      two_lines = omega (arith, t.0);
      balanced = omega (arith, t.1, t.2);
      fits = omega (arith, t.1);
    }

posted_row-IsPosting :
    (clock : Clock) (db : Db) (entry : Entry) (version : ℕ) (r : Entry × Db)
    → PostFacts clock db entry version r
    → IsPosting db entry r.0
      × Frame db r.1
      × (r.0.id ≡ entry.id)
      × (r.1.entries ≡ save r.0 db.entries)
      × (r.1.next_id ≡ db.next_id)
unfolding posted_row log
posted_row-IsPosting clock db entry version r p =
    let w = record_posting-eq-ok clock db p.year p.journal p.lines entry r p.recorded in
    let y = get_year-eq-ok db entry.fiscal_year_id p.got_year in
    let row = rw (find_year-id entry.fiscal_year_id p.year db.years y.0) at (w.1) in
    (
      subst (IsPosting db entry) (sym row) (explicit_row-IsPosting clock db entry version r p),
      subst (Frame db) (sym w.2) (log-Frame entry_validated _ _ db _ refl refl refl),
      ap (λ (e : Entry). e.id) row,
      ap (λ (d : Db). d.entries) w.2,
      ap (λ (d : Db). d.next_id) w.2,
    )

pub post_draft-Step :
    (clock : Clock) (db : Db) (entry : Entry) (version : ℕ) (r : Entry × Db)
    → find_entry entry.id db.entries ≡ some entry
    → post_draft clock db entry version ≡ ok r
    → Step db r.1
post_draft-Step clock db entry version r f h =
    let q =
      posted_row-IsPosting clock db entry version r (post_draft-eq-ok clock db entry version r h) in
    posted entry r.0 q.1 (rw q.2 f) q.0 q.3 q.4

pub post_entry-Steps :
    (clock : Clock) (db : Db) (entry : Entry) (version : ℕ) (r : Entry × Db)
    → find_entry entry.id db.entries ≡ some entry
    → post_entry clock db entry version ≡ ok r
    → Steps db r.1
unfolding post_entry
post_entry-Steps clock db entry version r f h = elim (Bool-cases (is_validated entry.status)) [
  | inl done ↦ subst (λ x. Steps db x.1) (ok_inj (rw done at h)) here
  | inr open_draft ↦ next here (post_draft-Step clock db entry version r f (rw open_draft at h))
]

has_reversal-append_none :
    (k : ℕ) (e : Entry) (es : List Entry)
    → e.reversal_of_id ≡ none
    → has_reversal k (es ++ (e ∷ [])) ≡ has_reversal k es
unfolding has_reversal
has_reversal-append_none k e [] h = rw h refl
has_reversal-append_none k e (x ∷ es) h = rw (has_reversal-append_none k e es h) refl

check_reversal-eq-ok :
    (db : Db) (original : Entry) (business : Bool)
    → check_reversal db original business ≡ ok tt
    → (original.status ≡ validated)
      × (original.reversal_of_id ≡ none)
      × (has_reversal original.id db.entries ≡ false)
unfolding check_reversal
check_reversal-eq-ok db original business h = ground arith

-- The new draft is tied to its original.
linked-Step :
    (db : Db) (input : EntryInput) (original : Entry) (r : Entry × Db)
    → All (λ x. x.id < db.next_id) db.entries
    → has_reversal original.id db.entries ≡ false
    → IsCreated db input r
    → let entry = linked original r.0 in
      Step r.1 (record (r.1) { entries = save entry r.1.entries })
      × (find_entry r.0.id r.1.entries ≡ some r.0)
unfolding linked apply_input
linked-Step db input original r fresh unreversed c =
    let same_id : r.0.id ≡ db.next_id = ap (λ (e : Entry). e.id) c.row in
    let found : find_entry r.0.id r.1.entries ≡ some r.0 =
      rw (c.stored) (find_entry-append_fresh r.0 db.entries (rw same_id fresh)) in
    let y = InOpenYear-Frame r.0 c.framed c.in_year in
    (
      changed r.0 (linked original r.0)
          (record {
            same_years = refl;
            same_matched = refl;
            logged = [];
            grown = sym (append-nil r.1.events);
          })
          found (ap (λ (e : Entry). e.status) c.row)
          (record { year = y.year; found_year = y.found_year; is_open = y.is_open })
          (record {
            year = y.year;
            found_year = y.found_year;
            is_open = y.is_open;
            not_early = y.not_early;
            not_late = y.not_late;
          })
          refl refl refl refl
          (inr (
            original.id,
            refl,
            ap (λ (e : Entry). e.reversal_of_id) c.row,
            rw c.stored (
                has_reversal-append_none original.id r.0 db.entries
                  (ap (λ (e : Entry). e.reversal_of_id) c.row)
                ∙ unreversed),
          ))
          refl refl,
      found,
    )

found_linked :
    (original : Entry) (r : Entry × Db)
    → find_entry r.0.id r.1.entries ≡ some r.0
    → find_entry r.0.id (save (linked original r.0) r.1.entries) ≡ some (linked original r.0)
unfolding linked
found_linked original r f = find_entry-save_self (linked original r.0) r.0 r.1.entries f

module _ (fields_valid : EntryInput → Bool) where
  -- A reversal adds a draft, ties it to the original, posts it and logs the reversal.
  pub reverse_entry-Steps :
      (clock : Clock) (db : Db) (original : Entry) (input : ReversalInput) (business : Bool)
      (r : Entry × Db)
      → All (λ x. x.id < db.next_id) db.entries
      → reverse_entry fields_valid clock db original input business ≡ ok r
      → Steps db r.1
  unfolding reverse_entry linked log
  reverse_entry-Steps clock db original input business r fresh h =
      let (u, e0, h0) = >>=-eq-ok (check_reversal db original business) _ h in
      let (payload, e1, h1) =
        >>=-eq-ok (model_validate fields_valid (reversal_payload original input)) _ h0 in
      let (drafted, e2, h2) = >>=-eq-ok (create_draft db payload) _ h1 in
      let c = create_draft-eq-ok db payload drafted e2 in
      let l =
        linked-Step db payload original drafted fresh
          (check_reversal-eq-ok db original business e0).2 c in
      let entry = linked original drafted.0 in
      let stored = record (drafted.1) { entries = save entry drafted.1.entries } in
      let (done, e3, h3) = >>=-eq-ok (post_entry clock stored entry entry.version) _ h2 in
      let p =
        post_entry-Steps clock stored entry entry.version done (found_linked original drafted l.1)
          e3 in
      subst (λ x. Steps db x.1) (ok_inj h3)
        (next (Steps-append (next (next here (IsCreated-Step db payload drafted c)) l.0) p)
          (aside (log-Frame entry_reversed _ _ done.1 done.1 refl refl refl) refl refl))
