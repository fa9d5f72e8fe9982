-- ===== src/Ledger/Sourced/Posted.antt =====
-- The entry that another service posts, and what it does to the ledger.
use mathlib.Core.List.{append-nil}
use solo_lmnp.Prelude.{◌<◌, ◌≡◌, refl, ap, sym, subst, ◌∙◌, inl, Bool, false, some, [], arith, All}
use solo_lmnp.Prelude.Text.{Text}
use solo_lmnp.Prelude.Outcome.{ok, >>=-eq-ok}
use solo_lmnp.Ledger.State.{draft, validated, Entry, Db, EntryInput, Clock, find_entry, save}
use solo_lmnp.Ledger.Service.{is_validated, entry_lines, apply_input, create_draft}
use solo_lmnp.Ledger.Post.{post_entry}
use solo_lmnp.Ledger.Reversal.{model_validate}
use solo_lmnp.Ledger.Step.{Step, changed, Steps, here, next, Steps-append}
use solo_lmnp.Ledger.Table.{find_entry-append_fresh, find_entry-save_self}
use solo_lmnp.Ledger.Refines.{IsCreated, create_draft-eq-ok, IsCreated-Step}
use solo_lmnp.Ledger.Posting.{InOpenYear-Frame, post_entry-Steps}
use solo_lmnp.Ledger.Mirror.{debit_of, credit_of, Posts, post_draft-Posts, validated_payload}
use solo_lmnp.Ledger.Sourced.{sourced, post_sourced}

-- A new validated entry with the amounts, the date and the year of the input, and its source.
pub record IsSourced (source_type source_id : Text) (db : Db) (input : EntryInput) (r : Entry × Db)
    : Type 0 where
  pub writes : Steps db r.1
  pub now_validated : r.0.status ≡ validated
  pub from_source : (r.0.source_type ≡ source_type) × (r.0.source_id ≡ some source_id)
  pub in_year : r.0.fiscal_year_id ≡ input.fiscal_year_id
  pub on_date : r.0.accounting_date ≡ input.accounting_date
  pub new_id : r.0.id ≡ db.next_id
  pub found : find_entry r.0.id r.1.entries ≡ some r.0
  pub amounts :
      (a : Text)
      → (debit_of a r.0.lines ≡ debit_of a (entry_lines 1 input.lines))
        × (credit_of a r.0.lines ≡ credit_of a (entry_lines 1 input.lines))

module _ (source_type source_id : Text) (db : Db) (input : EntryInput) (r : Entry × Db)
    (fresh : All (λ x. x.id < db.next_id) db.entries) (c : IsCreated db input r) where
  new_draft-id : r.0.id ≡ db.next_id
  unfolding apply_input
  new_draft-id = ap (λ (e : Entry). e.id) c.row

  sourced_found : find_entry r.0.id r.1.entries ≡ some r.0
  sourced_found =
      let same_id = new_draft-id in
      rw (c.stored) (find_entry-append_fresh r.0 db.entries (rw same_id fresh))

  sourced-Step :
      Step r.1 (record (r.1) { entries = save (sourced source_type source_id r.0) r.1.entries })
  unfolding sourced apply_input
  sourced-Step =
      let y = InOpenYear-Frame r.0 c.framed c.in_year in
      changed r.0 (sourced source_type source_id r.0)
        (record {
          same_years = refl;
          same_matched = refl;
          logged = [];
          grown = sym (append-nil r.1.events);
        })
        sourced_found (ap (λ (e : Entry). e.status) c.row)
        (record { year = y.year; found_year = y.found_year; is_open = y.is_open })
        (record {
          year = y.year;
          found_year = y.found_year;
          is_open = y.is_open;
          not_early = y.not_early;
          not_late = y.not_late;
        })
        refl refl refl refl (inl refl) refl refl

-- The posted entry has the facts of its draft.
sourced-Posts :
    (source_type source_id : Text) (clock : Clock) (db : Db) (e : Entry) (r : Entry × Db)
    → e.status ≡ draft
    → post_entry clock db
        (sourced source_type source_id e)
        (sourced source_type source_id e).version
      ≡ ok r
    → Posts db (sourced source_type source_id e) r
unfolding post_entry sourced
sourced-Posts t i clock db e r was h =
    let open_draft : is_validated (sourced t i e).status ≡ false = ground (arith, was) in
    post_draft-Posts clock db (sourced t i e) (sourced t i e).version r (rw open_draft at h)

IsCreated-IsSourced :
    (t i : Text) (clock : Clock) (db : Db) (input : EntryInput) (d r : Entry × Db)
    → All (λ x. x.id < db.next_id) db.entries
    → IsCreated db input d
    → post_entry clock
        (record (d.1) { entries = save (sourced t i d.0) d.1.entries })
        (sourced t i d.0)
        (sourced t i d.0).version
      ≡ ok r
    → IsSourced t i db input r
unfolding sourced apply_input
IsCreated-IsSourced t i clock db input d r fresh c h =
    let stored = record (d.1) { entries = save (sourced t i d.0) d.1.entries } in
    let there =
      find_entry-save_self (sourced t i d.0) d.0 d.1.entries
        (sourced_found t i db input d fresh c) in
    let writes =
      post_entry-Steps clock stored (sourced t i d.0) (sourced t i d.0).version r there h in
    let p = sourced-Posts t i clock stored d.0 r (ap (λ (e : Entry). e.status) c.row) h in
    record {
      writes =
          Steps-append
            (next (next here (IsCreated-Step db input d c)) (sourced-Step t i db input d fresh c))
            writes;
      now_validated = p.now_validated;
      from_source = p.same_source;
      in_year = p.same_year ∙ ap (λ (e : Entry). e.fiscal_year_id) c.row;
      on_date = p.same_date ∙ ap (λ (e : Entry). e.accounting_date) c.row;
      new_id = p.same_id ∙ ap (λ (e : Entry). e.id) c.row;
      found =
          subst (λ es. find_entry r.0.id es ≡ some r.0) (sym p.stored)
            (find_entry-save_self r.0 (sourced t i d.0) stored.entries (
              subst (λ k. find_entry k stored.entries ≡ some (sourced t i d.0)) (sym p.same_id)
                there));
      amounts = λ a. (
        (p.amounts a).0 ∙ ap (λ (e : Entry). debit_of a e.lines) c.row,
        (p.amounts a).1 ∙ ap (λ (e : Entry). credit_of a e.lines) c.row,
      );
    }

module _ (fields_valid : EntryInput → Bool) where
  -- What `post_sourced` returns is a new validated entry with the amounts, the date and the year of
  -- its input and with its source, and the ledger is changed by the writes of Step.antt alone.
  pub post_sourced-IsSourced :
      (t i : Text) (clock : Clock) (db : Db) (input : EntryInput) (r : Entry × Db)
      → All (λ x. x.id < db.next_id) db.entries
      → post_sourced fields_valid t i clock db input ≡ ok r
      → IsSourced t i db input r
  unfolding post_sourced
  post_sourced-IsSourced t i clock db input r fresh h =
      let (payload, e0, h0) = >>=-eq-ok (model_validate fields_valid input) _ h in
      let (d, e1, h1) = >>=-eq-ok (create_draft db payload) _ h0 in
      let same = validated_payload fields_valid input payload e0 in
      subst (λ (x : EntryInput). IsSourced t i db x r) same
        (IsCreated-IsSourced t i clock db payload d r fresh (create_draft-eq-ok db payload d e1) h1)
