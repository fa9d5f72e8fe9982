-- ===== src/Ledger/Preserved.antt =====
-- Every write keeps the invariant of the ledger, and so do all requests.
use solo_lmnp.Prelude.{
  ◌+◌, ◌<◌, ◌≡◌, sym, subst, ◌∙◌, inl, Bool, none, some, List, [], ◌∷◌, ◌++◌, arith, All,
  All-append, All-map,
}
use solo_lmnp.Ledger.State.{draft, Entry, Db, EntryInput, Clock, find_entry, save, remove}
use solo_lmnp.Ledger.Post.{max_sequence, or_zero}
use solo_lmnp.Ledger.Routes.{Request, serve_one, serve}
use solo_lmnp.Ledger.Step.{
  Frame, IsDraft, IsPosting, Step, added, changed, posted, deleted, aside, Steps, here, next,
  Steps-append, KeepsReversals,
}
use solo_lmnp.Ledger.Serve.{serve_one-Steps}
use solo_lmnp.Ledger.Table.{
  total, total-append, total-remove, All-find, All-save, All-remove, max_sequence-highest,
  highest-append, highest-remove,
}
use solo_lmnp.Ledger.Invariant.{
  IsPosted, RowIs, IsRow, bears, reverses, IsLedger, bears-none, number_in-none, old_sequence,
  old_id, numbers-save-none, numbers-save_next, reversed-save,
}

module _ (d d' : Db) (inv : IsLedger d) where
  added-IsLedger :
      (e : Entry)
      → Frame d d'
      → e.id ≡ d.next_id
      → IsDraft e
      → e.reversal_of_id ≡ none
      → d'.entries ≡ d.entries ++ (e ∷ [])
      → d'.next_id ≡ d.next_id + 1
      → IsLedger d'
  added-IsLedger e f id_lem dr rev entries_lem next_lem = record {
    fresh =
        rw (entries_lem, next_lem)
          (All-append _ d.entries (e ∷ [])
            (All-map (λ x. x.id < d.next_id) _ (λ x h. omega arith) d.entries inv.fresh)
            (omega arith, tt));
    rows =
        rw (entries_lem, f.same_years)
          (All-append (IsRow d.years) d.entries (e ∷ []) inv.rows
            (rw dr.status_lem (dr.no_sequence, dr.no_number, dr.no_stamp), tt));
    numbers = λ y k.
        rw
          (
            entries_lem,
            total-append (bears y k) d.entries (e ∷ []),
            bears-none y k e dr.no_sequence,
            highest-append y e d.entries (number_in-none y e dr.no_sequence),
          )
          (omega (arith, inv.numbers y k));
    reversed_once = λ k.
        rw (entries_lem, total-append (reverses k) d.entries (e ∷ []), rev)
          (omega (arith, inv.reversed_once k));
  }

  -- A saved row keeps the ids fresh.
  save-fresh :
      (old e : Entry)
      → find_entry e.id d.entries ≡ some old
      → d'.entries ≡ save e d.entries
      → d'.next_id ≡ d.next_id
      → All (λ x. x.id < d'.next_id) d'.entries
  save-fresh old e f entries_lem next_lem =
      rw (entries_lem, next_lem) (All-save _ e d.entries (old_id d inv e.id old f) inv.fresh)

  changed-IsLedger :
      (old e : Entry)
      → Frame d d'
      → find_entry e.id d.entries ≡ some old
      → old.status ≡ draft
      → e.status ≡ old.status
      → e.sequence ≡ old.sequence
      → e.entry_number ≡ old.entry_number
      → e.validated_at ≡ old.validated_at
      → KeepsReversals d old e
      → d'.entries ≡ save e d.entries
      → d'.next_id ≡ d.next_id
      → IsLedger d'
  changed-IsLedger old e f found was st sq nm va kr entries_lem next_lem =
      let r =
        subst (λ s. RowIs s d.years old) was
          (All-find (IsRow d.years) e.id old d.entries found inv.rows) in
      record {
        fresh = save-fresh old e found entries_lem next_lem;
        rows =
            rw (entries_lem, f.same_years)
              (All-save (IsRow d.years) e d.entries
                (subst (λ s. RowIs s d.years e) (sym (st ∙ was)) (sq ∙ r.0, nm ∙ r.1, va ∙ r.2))
                inv.rows);
        numbers = λ y k. rw entries_lem (numbers-save-none d inv old e found r.0 (sq ∙ r.0) y k);
        reversed_once = λ k. rw entries_lem (reversed-save d inv old e found kr k);
      }

  posted-IsLedger :
      (old e : Entry)
      → Frame d d'
      → find_entry e.id d.entries ≡ some old
      → IsPosting d old e
      → d'.entries ≡ save e d.entries
      → d'.next_id ≡ d.next_id
      → IsLedger d'
  posted-IsLedger old e f found p entries_lem next_lem =
      let no_old = old_sequence d inv e.id old found p.was_draft in
      let row : IsPosted d.years e = record {
        year = p.in_year.year;
        found_year = p.in_year.found_year;
        not_early = p.in_year.not_early;
        not_late = p.in_year.not_late;
        number = or_zero (max_sequence e.fiscal_year_id d.entries);
        numbered = p.next_sequence;
        titled = p.numbered;
        stamp = p.stamp;
        stamped = p.stamped;
        two_lines = p.two_lines;
        balanced = p.balanced;
        fits = p.fits;
      } in
      record {
        fresh = save-fresh old e found entries_lem next_lem;
        rows =
            rw (entries_lem, f.same_years)
              (All-save (IsRow d.years) e d.entries
                (subst (λ s. RowIs s d.years e) (sym p.now_validated) row) inv.rows);
        numbers = λ y k. rw entries_lem (
            numbers-save_next d inv old e found no_old (rw max_sequence-highest at p.next_sequence)
              y k);
        reversed_once =
            λ k. rw entries_lem (reversed-save d inv old e found (inl p.same_reversal) k);
      }

  deleted-IsLedger :
      (old : Entry)
      → Frame d d'
      → find_entry old.id d.entries ≡ some old
      → old.status ≡ draft
      → d'.entries ≡ remove old.id d.entries
      → d'.next_id ≡ d.next_id
      → IsLedger d'
  deleted-IsLedger old f found was entries_lem next_lem =
      let no_old = old_sequence d inv old.id old found was in
      record {
        fresh = rw (entries_lem, next_lem) (All-remove _ old.id d.entries inv.fresh);
        rows =
            rw (entries_lem, f.same_years) (All-remove (IsRow d.years) old.id d.entries inv.rows);
        numbers = λ y k.
            rw
              (
                entries_lem,
                highest-remove y old.id old d.entries found (number_in-none y old no_old),
              )
              (let t = total-remove (bears y k) old.id old d.entries found in
                let z = bears-none y k old no_old in
                let same : total (bears y k) (remove old.id d.entries)
                    ≡ total (bears y k) d.entries =
                  omega (arith, t, z) in
                rw same (inv.numbers y k));
        reversed_once = λ k. rw entries_lem (
            omega
              (arith, total-remove (reverses k) old.id old d.entries found, inv.reversed_once k));
      }

  aside-IsLedger : Frame d d' → d'.entries ≡ d.entries → d'.next_id ≡ d.next_id → IsLedger d'
  aside-IsLedger f entries_lem next_lem = record {
    fresh = rw (entries_lem, next_lem) inv.fresh;
    rows = rw (entries_lem, f.same_years) inv.rows;
    numbers = λ y k. rw entries_lem (inv.numbers y k);
    reversed_once = λ k. rw entries_lem (inv.reversed_once k);
  }

pub Step-IsLedger : {d d' : Db} → Step d d' → IsLedger d → IsLedger d'
Step-IsLedger {d} {d'} (added e f i dr rev _ en nx) inv = added-IsLedger d d' inv e f i dr rev en nx
Step-IsLedger {d} {d'} (changed old e f found was _ _ st sq nm va kr en nx) inv =
    changed-IsLedger d d' inv old e f found was st sq nm va kr en nx
Step-IsLedger {d} {d'} (posted old e f found p en nx) inv =
    posted-IsLedger d d' inv old e f found p en nx
Step-IsLedger {d} {d'} (deleted old f found was _ en nx) inv =
    deleted-IsLedger d d' inv old f found was en nx
Step-IsLedger {d} {d'} (aside f en nx) inv = aside-IsLedger d d' inv f en nx

pub Steps-IsLedger : {d d' : Db} → IsLedger d → Steps d d' → IsLedger d'
Steps-IsLedger inv here = inv
Steps-IsLedger inv (next p s) = Step-IsLedger s (Steps-IsLedger inv p)

module _ (fields_valid : EntryInput → Bool) where
  -- From a sound ledger, what any requests do to the tables is a chain of the writes of Step.antt:
  -- a new draft, a draft that is changed, posted or deleted, or the log alone.
  pub serve-Steps :
      (db : Db) (requests : List (Clock × Request))
      → IsLedger db
      → Steps db (serve fields_valid db requests)
  unfolding serve
  serve-Steps db [] inv = here
  serve-Steps db ((clock, request) ∷ requests) inv =
      let first = serve_one-Steps fields_valid clock db request inv.fresh in
      Steps-append first
        (serve-Steps (serve_one fields_valid clock db request) requests (Steps-IsLedger inv first))

  -- From a sound ledger, whatever the requests and whichever fail, the ledger stays sound: each
  -- validated entry has two lines or more and equal totals within 64 bits, lies in the dates of its
  -- year and bears its number; the numbers of each year run from 1 up with no gap and none given
  -- twice; and no entry is reversed twice.
  pub serve-IsLedger :
      (db : Db) (requests : List (Clock × Request))
      → IsLedger db
      → IsLedger (serve fields_valid db requests)
  serve-IsLedger db requests inv = Steps-IsLedger inv (serve-Steps db requests inv)
