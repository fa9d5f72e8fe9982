-- ===== src/Ledger/Step.antt =====
-- What a write of the ledger may do to the tables, as a relation. A draft is added, changed, posted
-- or deleted, each in an open year; nothing is done to a validated entry.
use solo_lmnp.Prelude.{
  ℕ, ◌+◌, ◌≤◌, ◌≡◌, refl, sym, ap, ◌∙◌, ◌⊎◌, true, false, none, some, List, [], ◌∷◌, ◌++◌, length,
}
use mathlib.Core.List.{append-nil, append_assoc}
use solo_lmnp.Ledger.State.{
  draft, validated, year_open, FiscalYear, Entry, Event, Db, find_year, find_entry, save, remove,
}
use solo_lmnp.Ledger.Service.{max_cents}
use solo_lmnp.Ledger.Post.{
  total_debit, total_credit, max_sequence, max_validated_at, or_zero, not_before, format_number,
}
use solo_lmnp.Ledger.Reversal.{has_reversal}

-- The years and the bank matches are left alone, and the audit log only grows.
pub record Frame (d d' : Db) : Type 0 where
  pub same_years : d'.years ≡ d.years
  pub same_matched : d'.matched ≡ d.matched
  pub logged : List Event
  pub grown : d'.events ≡ d.events ++ logged

-- The year of an entry is open, and the accounting date lies in it.
pub record InOpenYear (d : Db) (e : Entry) : Type 0 where
  pub year : FiscalYear
  pub found_year : find_year e.fiscal_year_id d.years ≡ some year
  pub is_open : year.status ≡ year_open
  pub not_early : year.start_date ≤ e.accounting_date
  pub not_late : e.accounting_date ≤ year.end_date

pub record YearIsOpen (d : Db) (e : Entry) : Type 0 where
  pub year : FiscalYear
  pub found_year : find_year e.fiscal_year_id d.years ≡ some year
  pub is_open : year.status ≡ year_open

pub record IsDraft (e : Entry) : Type 0 where
  pub status_lem : e.status ≡ draft
  pub no_sequence : e.sequence ≡ none
  pub no_number : e.entry_number ≡ none
  pub no_stamp : e.validated_at ≡ none

-- The reversal that an entry names stays, or it is set, on an entry that named none, to one that no
-- entry of the table names.
abbrev pub KeepsReversals : Db → Entry → Entry → Type 0
KeepsReversals d old e =
    (e.reversal_of_id ≡ old.reversal_of_id)
    ⊎ ((k : ℕ) × (e.reversal_of_id ≡ some k)
        × (old.reversal_of_id ≡ none)
        × (has_reversal k d.entries ≡ false))

-- `old` is posted as `e`: it is balanced, it takes the next number of its year, and its time stamp is
-- not before any earlier one.
pub record IsPosting (d : Db) (old e : Entry) : Type 0 where
  pub was_draft : old.status ≡ draft
  pub now_validated : e.status ≡ validated
  pub same_year : e.fiscal_year_id ≡ old.fiscal_year_id
  pub in_year : InOpenYear d e
  pub next_sequence : e.sequence ≡ some (or_zero (max_sequence e.fiscal_year_id d.entries) + 1)
  pub numbered :
      e.entry_number
      ≡ some
          (format_number in_year.year.year (or_zero (max_sequence e.fiscal_year_id d.entries) + 1))
  pub stamp : ℕ
  pub stamped : e.validated_at ≡ some stamp
  pub in_order : not_before stamp (max_validated_at e.fiscal_year_id d.entries) ≡ true
  pub same_reversal : e.reversal_of_id ≡ old.reversal_of_id
  pub two_lines : 2 ≤ length e.lines
  pub balanced : total_debit e.lines ≡ total_credit e.lines
  pub fits : total_debit e.lines ≤ max_cents

pub data Step (d d' : Db) : Type 0 where
  added :
      (e : Entry)
      → Frame d d'
      → e.id ≡ d.next_id
      → IsDraft e
      → e.reversal_of_id ≡ none
      → InOpenYear d e
      → d'.entries ≡ d.entries ++ (e ∷ [])
      → d'.next_id ≡ d.next_id + 1
      → Step d d'
  changed :
      (old e : Entry)
      → Frame d d'
      → find_entry e.id d.entries ≡ some old
      → old.status ≡ draft
      → YearIsOpen d old
      → InOpenYear d e
      → e.status ≡ old.status
      → e.sequence ≡ old.sequence
      → e.entry_number ≡ old.entry_number
      → e.validated_at ≡ old.validated_at
      → KeepsReversals d old e
      → d'.entries ≡ save e d.entries
      → d'.next_id ≡ d.next_id
      → Step d d'
  posted :
      (old e : Entry)
      → Frame d d'
      → find_entry e.id d.entries ≡ some old
      → IsPosting d old e
      → d'.entries ≡ save e d.entries
      → d'.next_id ≡ d.next_id
      → Step d d'
  deleted :
      (old : Entry)
      → Frame d d'
      → find_entry old.id d.entries ≡ some old
      → old.status ≡ draft
      → YearIsOpen d old
      → d'.entries ≡ remove old.id d.entries
      → d'.next_id ≡ d.next_id
      → Step d d'
  aside : Frame d d' → d'.entries ≡ d.entries → d'.next_id ≡ d.next_id → Step d d'

-- A chain of such writes.
pub data Steps (d : Db) : Db → Type 0 where
  here : Steps d d
  next : {d1 d2 : Db} → Steps d d1 → Step d1 d2 → Steps d d2

pub Steps-append : {d d1 d2 : Db} → Steps d d1 → Steps d1 d2 → Steps d d2
Steps-append p here = p
Steps-append p (next q s) = next (Steps-append p q) s

pub Step-Frame : {d d' : Db} → Step d d' → Frame d d'
Step-Frame (added e f _ _ _ _ _ _) = f
Step-Frame (changed old e f _ _ _ _ _ _ _ _ _ _ _) = f
Step-Frame (posted old e f _ _ _ _) = f
Step-Frame (deleted old f _ _ _ _ _) = f
Step-Frame (aside f _ _) = f

pub Frame-refl : (d : Db) → Frame d d
Frame-refl d = record {
  same_years = refl;
  same_matched = refl;
  logged = [];
  grown = sym (append-nil d.events);
}

pub Frame-trans : {d d1 d2 : Db} → Frame d d1 → Frame d1 d2 → Frame d d2
Frame-trans {d} f g = record {
  same_years = g.same_years ∙ f.same_years;
  same_matched = g.same_matched ∙ f.same_matched;
  logged = f.logged ++ g.logged;
  grown =
      g.grown
      ∙ ap (λ (l : List Event). l ++ g.logged) f.grown
      ∙ append_assoc d.events f.logged g.logged;
}

pub Steps-Frame : {d d' : Db} → Steps d d' → Frame d d'
Steps-Frame {d} here = Frame-refl d
Steps-Frame (next p s) = Frame-trans (Steps-Frame p) (Step-Frame s)
