-- ===== src/Ledger/Mirror.antt =====
-- A reversal mirrors its original, and posting again is a read.
use solo_lmnp.Prelude.{
  ℕ, ◌+◌, ◌≡◌, refl, ap, subst, ◌∙◌, inl, inr, Bool, true, false, some, List, [], ◌∷◌,
  if◌then◌else◌, arith, Bool-cases,
}
use solo_lmnp.Prelude.Text.{Text, same_text}
use solo_lmnp.Prelude.Outcome.{ok_inj, ok, >>=-eq-ok}
use solo_lmnp.Ledger.State.{
  draft, validated, Line, Entry, Db, EntryInput, ReversalInput, Clock, save,
}
use solo_lmnp.Ledger.Service.{
  is_validated, entry_lines, apply_input, new_entry, create_draft, active_account, log,
}
use solo_lmnp.Ledger.Post.{freeze_labels, posted_row, post_draft, post_entry}
use solo_lmnp.Ledger.Reversal.{
  check_reversal, swapped, reversal_payload, linked, model_validate, reverse_entry,
}
use solo_lmnp.Ledger.Checks.{post_draft-eq-ok, record_posting-eq-ok}
use solo_lmnp.Ledger.Refines.{create_draft-eq-ok}

-- What an entry writes to the debit and to the credit of an account.
abbrev pub debit_of : Text → List Line → ℕ
debit_of a [] = 0
debit_of a (line ∷ lines) =
    (if same_text line.account_number a then line.debit else 0) + debit_of a lines

abbrev pub credit_of : Text → List Line → ℕ
credit_of a [] = 0
credit_of a (line ∷ lines) =
    (if same_text line.account_number a then line.credit else 0) + credit_of a lines

swapped-mirror :
    (a : Text) (k : ℕ) (lines : List Line)
    → (debit_of a (entry_lines k (swapped lines)) ≡ credit_of a lines)
      × (credit_of a (entry_lines k (swapped lines)) ≡ debit_of a lines)
unfolding entry_lines swapped
swapped-mirror a k [] = (refl, refl)
swapped-mirror a k (line ∷ lines) =
    let ih = swapped-mirror a (k + 1) lines in (rw (ih.0) refl, rw (ih.1) refl)

-- Freezing the labels leaves the amounts of every account.
freeze_labels-amounts :
    (a : Text) (db : Db) (lines frozen : List Line)
    → freeze_labels db lines ≡ ok frozen
    → (debit_of a frozen ≡ debit_of a lines) × (credit_of a frozen ≡ credit_of a lines)
unfolding freeze_labels
freeze_labels-amounts a db [] frozen h =
    subst (λ f. (debit_of a f ≡ 0) × (credit_of a f ≡ 0)) (ok_inj h) (refl, refl)
freeze_labels-amounts a db (line ∷ lines) frozen h =
    let (acc, e1, h1) = >>=-eq-ok (active_account db line.account_number) _ h in
    let (rest, e2, h2) = >>=-eq-ok (freeze_labels db lines) _ h1 in
    let ih = freeze_labels-amounts a db lines rest e2 in
    subst
      (λ f.
        (debit_of a f ≡ debit_of a (line ∷ lines)) × (credit_of a f ≡ credit_of a (line ∷ lines)))
      (ok_inj h2) (rw (ih.0) refl, rw (ih.1) refl)

-- The row that a posting returns.
pub record Posts (db : Db) (entry : Entry) (r : Entry × Db) : Type 0 where
  pub now_validated : r.0.status ≡ validated
  pub same_reversal : r.0.reversal_of_id ≡ entry.reversal_of_id
  pub same_year : r.0.fiscal_year_id ≡ entry.fiscal_year_id
  pub same_id : r.0.id ≡ entry.id
  pub same_date : r.0.accounting_date ≡ entry.accounting_date
  pub same_source : (r.0.source_type ≡ entry.source_type) × (r.0.source_id ≡ entry.source_id)
  pub stored : r.1.entries ≡ save r.0 db.entries
  pub amounts :
      (a : Text)
      → (debit_of a r.0.lines ≡ debit_of a entry.lines)
        × (credit_of a r.0.lines ≡ credit_of a entry.lines)

pub post_draft-Posts :
    (clock : Clock) (db : Db) (entry : Entry) (version : ℕ) (r : Entry × Db)
    → post_draft clock db entry version ≡ ok r
    → Posts db entry r
unfolding posted_row log
post_draft-Posts clock db entry version r h =
    let p = post_draft-eq-ok clock db entry version r h in
    let w = record_posting-eq-ok clock db p.year p.journal p.lines entry r p.recorded in
    record {
      now_validated = ap (λ (e : Entry). e.status) w.1;
      same_reversal = ap (λ (e : Entry). e.reversal_of_id) w.1;
      same_year = ap (λ (e : Entry). e.fiscal_year_id) w.1;
      same_id = ap (λ (e : Entry). e.id) w.1;
      same_date = ap (λ (e : Entry). e.accounting_date) w.1;
      same_source = (ap (λ (e : Entry). e.source_type) w.1, ap (λ (e : Entry). e.source_id) w.1);
      stored = ap (λ (d : Db). d.entries) w.2;
      amounts = λ a.
          let f = freeze_labels-amounts a db entry.lines p.lines p.frozen in
          (
            ap (λ (e : Entry). debit_of a e.lines) w.1 ∙ f.0,
            ap (λ (e : Entry). credit_of a e.lines) w.1 ∙ f.1,
          );
    }

-- A posting returns a validated row.
post_entry-validated :
    (clock : Clock) (db : Db) (entry : Entry) (version : ℕ) (r : Entry × Db)
    → post_entry clock db entry version ≡ ok r
    → is_validated r.0.status ≡ true
unfolding post_entry
post_entry-validated clock db entry version r h = elim (Bool-cases (is_validated entry.status)) [
  | inl done ↦
      subst (λ (x : Entry × Db). is_validated x.0.status ≡ true) (ok_inj (rw done at h)) done
  | inr open_draft ↦
      rw (post_draft-Posts clock db entry version r (rw open_draft at h)).now_validated refl
]

-- Posting what a posting returned, with any version and at any time, returns it again and writes
-- nothing.
pub post_entry_idem :
    (clock later : Clock) (db : Db) (entry : Entry) (version other : ℕ) (r : Entry × Db)
    → post_entry clock db entry version ≡ ok r
    → post_entry later r.1 r.0 other ≡ ok r
unfolding post_entry
post_entry_idem clock later db entry version other r h =
    rw (post_entry-validated clock db entry version r h) refl

-- The link leaves the lines and the status of the new draft.
linked_lines : (original drafted : Entry) → (linked original drafted).lines ≡ drafted.lines
unfolding linked
linked_lines original drafted = refl

linked_draft :
    (original drafted : Entry)
    → drafted.status ≡ draft
    → is_validated (linked original drafted).status ≡ false
unfolding linked
linked_draft original drafted h = rw h refl

linked_to : (original drafted : Entry) → (linked original drafted).reversal_of_id ≡ some original.id
unfolding linked
linked_to original drafted = refl

payload-mirror :
    (a : Text) (k : ℕ) (original : Entry) (input : ReversalInput)
    → let lines = (apply_input (new_entry k) (reversal_payload original input)).lines in
      (debit_of a lines ≡ credit_of a original.lines)
      × (credit_of a lines ≡ debit_of a original.lines)
unfolding apply_input reversal_payload
payload-mirror a k original input = swapped-mirror a 1 original.lines

created_draft : (k : ℕ) (input : EntryInput) → (apply_input (new_entry k) input).status ≡ draft
unfolding apply_input
created_draft k input = refl

-- The entry is validated, names the original, and exchanges its debits and credits.
abbrev pub IsMirror : Entry → Entry → Type 0
IsMirror original e =
    (e.status ≡ validated)
    × (e.reversal_of_id ≡ some original.id)
    × ((a : Text)
        → (debit_of a e.lines ≡ credit_of a original.lines)
          × (credit_of a e.lines ≡ debit_of a original.lines))

posted-IsMirror :
    (clock : Clock) (db : Db) (original drafted : Entry) (payload : EntryInput) (k : ℕ)
    → drafted ≡ apply_input (new_entry k) payload
    → (input : ReversalInput) → payload ≡ reversal_payload original input
    → (done : Entry × Db)
    → post_entry clock db (linked original drafted) (linked original drafted).version ≡ ok done
    → IsMirror original done.0
unfolding post_entry
posted-IsMirror clock db original drafted payload k row input same done h =
    let open_draft =
      linked_draft original drafted (ap (λ (e : Entry). e.status) row ∙ created_draft k payload) in
    let p =
      post_draft-Posts clock db (linked original drafted) (linked original drafted).version done
        (rw open_draft at h) in
    let lines : (linked original drafted).lines
        ≡ (apply_input (new_entry k) (reversal_payload original input)).lines =
      linked_lines original drafted
      ∙ ap (λ (e : Entry). e.lines) row
      ∙ ap (λ (i : EntryInput). (apply_input (new_entry k) i).lines) same in
    (
      p.now_validated,
      p.same_reversal ∙ linked_to original drafted,
      λ a.
          let m = payload-mirror a k original input in
          (
            (p.amounts a).0 ∙ ap (debit_of a) lines ∙ m.0,
            (p.amounts a).1 ∙ ap (credit_of a) lines ∙ m.1,
          ),
    )

module _ (fields_valid : EntryInput → Bool) where
  pub validated_payload :
      (input payload : EntryInput)
      → model_validate fields_valid input ≡ ok payload
      → payload ≡ input
  unfolding model_validate
  validated_payload input payload h = ground arith

  -- An entry that a reversal returns is validated, names its original, and on every account its
  -- debit is the credit of the original and its credit the debit.
  pub reverse_entry-IsMirror :
      (clock : Clock) (db : Db) (original : Entry) (input : ReversalInput) (business : Bool)
      (r : Entry × Db)
      → reverse_entry fields_valid clock db original input business ≡ ok r
      → IsMirror original r.0
  unfolding reverse_entry
  reverse_entry-IsMirror clock db original input business r h =
      let (u, e0, h0) = >>=-eq-ok (check_reversal db original business) _ h in
      let (payload, e1, h1) =
        >>=-eq-ok (model_validate fields_valid (reversal_payload original input)) _ h0 in
      let (drafted, e2, h2) = >>=-eq-ok (create_draft db payload) _ h1 in
      let c = create_draft-eq-ok db payload drafted e2 in
      let entry = linked original drafted.0 in
      let stored = record (drafted.1) { entries = save entry drafted.1.entries } in
      let (done, e3, h3) = >>=-eq-ok (post_entry clock stored entry entry.version) _ h2 in
      subst (λ (x : Entry × Db). IsMirror original x.0) (ok_inj h3)
        (posted-IsMirror clock stored original drafted.0 (reversal_payload original input)
          db.next_id
          (c.row
            ∙ ap (apply_input (new_entry db.next_id))
                (validated_payload (reversal_payload original input) payload e1))
          input refl done e3)
