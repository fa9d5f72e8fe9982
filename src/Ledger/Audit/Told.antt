-- ===== src/Ledger/Audit/Told.antt =====
-- The writes of backend/app/services/ledger.py and of the routes of backend/app/api/ledger.py beside
-- the rows of the audit log (Audit.antt).
use solo_lmnp.Prelude.{
  ℕ, ◌≡◌, refl, sym, ap, subst, ◌∙◌, inl, inr, Bool, true, false, none, some, List, [], ◌∷◌,
  if◌then◌else◌, arith, Bool-cases,
}
use solo_lmnp.Prelude.Text.{Text}
use solo_lmnp.Prelude.Outcome.{ok, ok_inj, >>=-eq-ok, guard-eq-ok}
use solo_lmnp.Ledger.State.{
  Entry, AccountType, JournalType, Db, draft_created, draft_updated, draft_deleted, entry_validated,
  entry_reversed, account_created, account_active_changed, journal_created, journal_active_changed,
  account_exists, account_not_found, journal_exists, journal_not_found, EntryInput, ReversalInput,
  Clock, find_account, find_journal, save,
}
use solo_lmnp.Ledger.Service.{
  is_validated, is_none, found, get_year, check_draft, check_input, apply_input, create_draft,
  replace_draft, delete_draft,
}
use solo_lmnp.Ledger.Post.{posted_row, post_draft, post_entry}
use solo_lmnp.Ledger.Reversal.{
  check_reversal, linked, reversal_payload, model_validate, reverse_entry,
}
use solo_lmnp.Ledger.Routes.{add_account, switch_account, add_journal, switch_journal}
use solo_lmnp.Ledger.Checks.{post_draft-eq-ok, record_posting-eq-ok}
use solo_lmnp.Ledger.Refines.{create_draft-eq-ok}
use solo_lmnp.Ledger.Audit.{Heading, Tells, Tells-refl, Tells-append, log-Tells}

pub create_draft-Tells :
    (db : Db) (input : EntryInput) (r : Entry × Db)
    → create_draft db input ≡ ok r
    → Tells ((draft_created, some db.next_id) ∷ []) db r.1
unfolding create_draft apply_input
create_draft-Tells db input r h =
    let (u, e, k) = >>=-eq-ok (check_input db input) _ h in
    subst (λ (x : Entry × Db). Tells ((draft_created, some db.next_id) ∷ []) db x.1) (ok_inj k)
      (log-Tells draft_created _ _ db _ refl refl)

pub replace_draft-Tells :
    (db : Db) (entry : Entry) (input : EntryInput) (version : ℕ) (r : Entry × Db)
    → replace_draft db entry input version ≡ ok r
    → Tells ((draft_updated, some entry.id) ∷ []) db r.1
unfolding replace_draft apply_input
replace_draft-Tells db entry input version r h =
    let (u, e0, h0) = >>=-eq-ok (check_draft entry version) _ h in
    let (y, e1, h1) = >>=-eq-ok (get_year db entry.fiscal_year_id true) _ h0 in
    let (v, e2, h2) = >>=-eq-ok (check_input db input) _ h1 in
    subst (λ (x : Entry × Db). Tells ((draft_updated, some entry.id) ∷ []) db x.1) (ok_inj h2)
      (log-Tells draft_updated _ _ db _ refl refl)

pub delete_draft-Tells :
    (db : Db) (entry : Entry) (version : ℕ) (r : Db)
    → delete_draft db entry version ≡ ok r
    → Tells ((draft_deleted, some entry.id) ∷ []) db r
unfolding delete_draft
delete_draft-Tells db entry version r h =
    let (u, e0, h0) = >>=-eq-ok (check_draft entry version) _ h in
    let (y, e1, h1) = >>=-eq-ok (get_year db entry.fiscal_year_id true) _ h0 in
    subst (Tells ((draft_deleted, some entry.id) ∷ []) db) (ok_inj h1)
      (log-Tells draft_deleted _ _ db _ refl refl)

-- The posting of a row tells of the row that is written; the rows of the table may be an earlier
-- write of the same row, of which the log says nothing.
post_draft-Tells :
    (clock : Clock) (db before : Db) (entry : Entry) (version : ℕ) (r : Entry × Db)
    → post_draft clock db entry version ≡ ok r
    → (save r.0 before.entries ≡ save r.0 db.entries)
    → before.events ≡ db.events
    → before.accounts ≡ db.accounts
    → before.journals ≡ db.journals
    → Tells ((entry_validated, some entry.id) ∷ []) before r.1
unfolding posted_row
post_draft-Tells clock db before entry version r h saved events accounts journals =
    let p = post_draft-eq-ok clock db entry version r h in
    let w = record_posting-eq-ok clock db p.year p.journal p.lines entry r p.recorded in
    let same_id : r.0.id ≡ entry.id = ap (λ (e : Entry). e.id) w.1 in
    let told : Tells ((entry_validated, some r.0.id) ∷ []) before r.1 =
      subst (Tells ((entry_validated, some r.0.id) ∷ []) before) (sym w.2) (
        log-Tells entry_validated _ _ before _ (sym events)
          (λ i. record { entries = saved i; accounts = accounts i; journals = journals i })) in
    subst (λ k. Tells ((entry_validated, some k) ∷ []) before r.1) same_id told

save-save : (e e' : Entry) (es : List Entry) → e.id ≡ e'.id → save e (save e' es) ≡ save e es
unfolding save
save-save e e' [] h = refl
save-save e e' (x ∷ es) h = ground (arith, save-save e e' es)

posted_id :
    (clock : Clock) (db : Db) (entry : Entry) (version : ℕ) (r : Entry × Db)
    → post_draft clock db entry version ≡ ok r
    → r.0.id ≡ entry.id
unfolding posted_row
posted_id clock db entry version r h =
    let p = post_draft-eq-ok clock db entry version r h in
    ap (λ (e : Entry). e.id)
      (record_posting-eq-ok clock db p.year p.journal p.lines entry r p.recorded).1

abbrev pub owed_posting : Entry → List Heading
owed_posting entry = if is_validated entry.status then [] else (entry_validated, some entry.id) ∷ []

pub post_entry-Tells :
    (clock : Clock) (db : Db) (entry : Entry) (version : ℕ) (r : Entry × Db)
    → post_entry clock db entry version ≡ ok r
    → Tells (owed_posting entry) db r.1
unfolding post_entry
post_entry-Tells clock db entry version r h = elim (Bool-cases (is_validated entry.status)) [
  | inl done ↦
      rw done (subst (λ (x : Entry × Db). Tells [] db x.1) (ok_inj (rw done at h)) (Tells-refl db))
  | inr waits ↦
      rw waits (post_draft-Tells clock db db entry version r (rw waits at h) refl refl refl refl)
]

post_entry-draft :
    (clock : Clock) (db : Db) (entry : Entry) (version : ℕ)
    → is_validated entry.status ≡ false
    → post_entry clock db entry version ≡ post_draft clock db entry version
unfolding post_entry
post_entry-draft clock db entry version h = rw h refl

module _ (fields_valid : EntryInput → Bool) where
  pub reverse_entry-Tells :
      (clock : Clock) (db : Db) (original : Entry) (input : ReversalInput) (business : Bool)
      (r : Entry × Db)
      → reverse_entry fields_valid clock db original input business ≡ ok r
      → Tells
          ((draft_created, some db.next_id)
            ∷ (entry_validated, some db.next_id)
            ∷ (entry_reversed, some original.id)
            ∷ [])
          db
          r.1
  unfolding reverse_entry linked apply_input
  reverse_entry-Tells clock db original input business r h =
      let (u, e0, h0) = >>=-eq-ok (check_reversal db original business) _ h in
      let (payload, e1, h1) =
        >>=-eq-ok (model_validate fields_valid (reversal_payload original input)) _ h0 in
      let (drafted, e2, h2) = >>=-eq-ok (create_draft db payload) _ h1 in
      let row = (create_draft-eq-ok db payload drafted e2).row in
      let entry = linked original drafted.0 in
      let stored = record (drafted.1) { entries = save entry drafted.1.entries } in
      let (done, e3, h3) = >>=-eq-ok (post_entry clock stored entry entry.version) _ h2 in
      let is_draft : is_validated entry.status ≡ false =
        ap (λ (e : Entry). is_validated e.status) row in
      let e4 : post_draft clock stored entry entry.version ≡ ok done =
        sym (post_entry-draft clock stored entry entry.version is_draft) ∙ e3 in
      let new_id : drafted.0.id ≡ db.next_id = ap (λ (e : Entry). e.id) row in
      let saved =
        save-save done.0 entry drafted.1.entries
          (posted_id clock stored entry entry.version done e4) in
      let posting =
        post_draft-Tells clock stored drafted.1 entry entry.version done e4 (sym saved) refl refl
          refl in
      let validated : Tells ((entry_validated, some db.next_id) ∷ []) drafted.1 done.1 =
        subst (λ k. Tells ((entry_validated, some k) ∷ []) drafted.1 done.1) new_id posting in
      subst
        (λ (x : Entry × Db).
          Tells
            ((draft_created, some db.next_id)
              ∷ (entry_validated, some db.next_id)
              ∷ (entry_reversed, some original.id)
              ∷ [])
            db x.1)
        (ok_inj h3)
        (Tells-append (create_draft-Tells db payload drafted e2)
          (Tells-append validated (log-Tells entry_reversed _ _ done.1 done.1 refl refl)))

module _ (db : Db) (text : Text) (r : Db) where
  pub add_account-Tells :
      (l : Text) (t : AccountType)
      → add_account db text l t ≡ ok r
      → Tells ((account_created, none) ∷ []) db r
  unfolding add_account
  add_account-Tells l t h =
      let (e, k) = guard-eq-ok (is_none (find_account text db.accounts)) account_exists _ h in
      subst (Tells _ db) (ok_inj k) (log-Tells account_created _ _ db _ refl refl)

  pub switch_account-Tells :
      (b : Bool)
      → switch_account db text b ≡ ok r
      → Tells ((account_active_changed, none) ∷ []) db r
  unfolding switch_account
  switch_account-Tells b h =
      let (row, e, k) = >>=-eq-ok (found (find_account text db.accounts) account_not_found) _ h in
      subst (Tells _ db) (ok_inj k) (log-Tells account_active_changed _ _ db _ refl refl)

  pub add_journal-Tells :
      (l : Text) (t : JournalType)
      → add_journal db text l t ≡ ok r
      → Tells ((journal_created, none) ∷ []) db r
  unfolding add_journal
  add_journal-Tells l t h =
      let (e, k) = guard-eq-ok (is_none (find_journal text db.journals)) journal_exists _ h in
      subst (Tells _ db) (ok_inj k) (log-Tells journal_created _ _ db _ refl refl)

  pub switch_journal-Tells :
      (b : Bool)
      → switch_journal db text b ≡ ok r
      → Tells ((journal_active_changed, none) ∷ []) db r
  unfolding switch_journal
  switch_journal-Tells b h =
      let (row, e, k) = >>=-eq-ok (found (find_journal text db.journals) journal_not_found) _ h in
      subst (Tells _ db) (ok_inj k) (log-Tells journal_active_changed _ _ db _ refl refl)
