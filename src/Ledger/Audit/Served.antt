-- ===== src/Ledger/Audit/Served.antt =====
-- The audit log over any requests of the routes of backend/app/api/ledger.py.
use solo_lmnp.Prelude.{
  ℕ, ◌≡◌, refl, sym, subst, Bool, false, Option, none, some, List, [], ◌∷◌, ◌++◌, arith,
}
use solo_lmnp.Prelude.Outcome.{Outcome, ok, err, ok_inj, >>=-eq-ok}
use solo_lmnp.Ledger.State.{
  Entry, Db, draft_created, draft_updated, draft_deleted, entry_validated, entry_reversed,
  account_created, account_active_changed, journal_created, journal_active_changed, EntryInput,
  Clock, Error, find_entry,
}
use solo_lmnp.Ledger.Service.{get_entry, create_draft, replace_draft}
use solo_lmnp.Ledger.Post.{post_entry}
use solo_lmnp.Ledger.Reversal.{model_validate, reverse_entry}
use solo_lmnp.Ledger.Routes.{
  Request, create, edit, delete, validate, reverse, create_account, account_active, create_journal,
  journal_active, handle, serve_one, serve,
}
use solo_lmnp.Ledger.Table.{find_entry-id}
use solo_lmnp.Ledger.Audit.{Heading, Tells, Tells-refl, Tells-append}
use solo_lmnp.Ledger.Audit.Told.{
  owed_posting, create_draft-Tells, replace_draft-Tells, delete_draft-Tells, post_entry-Tells,
  reverse_entry-Tells, add_account-Tells, switch_account-Tells, add_journal-Tells,
  switch_journal-Tells,
}

abbrev pub owed_validation : Option Entry → List Heading
owed_validation none = []
owed_validation (some e) = owed_posting e

-- The rows that a request owes to the log if it is served: none for an entry that is validated
-- already, three for a reversal, and one for any other request.
abbrev pub owed : Db → Request → List Heading
owed db (create input) = (draft_created, some db.next_id) ∷ []
owed db (edit k input version) = (draft_updated, some k) ∷ []
owed db (delete k version) = (draft_deleted, some k) ∷ []
owed db (validate k version) = owed_validation (find_entry k db.entries)
owed db (reverse k input) =
    (draft_created, some db.next_id)
    ∷ (entry_validated, some db.next_id)
    ∷ (entry_reversed, some k)
    ∷ []
owed db (create_account n l t) = (account_created, none) ∷ []
owed db (account_active n b) = (account_active_changed, none) ∷ []
owed db (create_journal n l t) = (journal_created, none) ∷ []
owed db (journal_active n b) = (journal_active_changed, none) ∷ []

-- The row that is read, and its id.
get_entry-row :
    (db : Db) (k : ℕ) (e : Entry)
    → get_entry db k ≡ ok e
    → (find_entry k db.entries ≡ some e) × (e.id ≡ k)
unfolding get_entry
get_entry-row db k e h =
    let p : find_entry k db.entries ≡ some e = ground arith in (p, find_entry-id k e db.entries p)

module _ (fields_valid : EntryInput → Bool) where
  handle-Tells :
      (clock : Clock) (db : Db) (request : Request) (r : Db)
      → handle fields_valid clock db request ≡ ok r
      → Tells (owed db request) db r
  unfolding handle
  handle-Tells clock db (create input) r h =
      let (i, e0, h0) = >>=-eq-ok (model_validate fields_valid input) _ h in
      let (d, e1, h1) = >>=-eq-ok (create_draft db i) _ h0 in
      subst (Tells (owed db (create input)) db) (ok_inj h1) (create_draft-Tells db i d e1)
  handle-Tells clock db (edit k input version) r h =
      let (i, e0, h0) = >>=-eq-ok (model_validate fields_valid input) _ h in
      let (row, e1, h1) = >>=-eq-ok (get_entry db k) _ h0 in
      let (d, e2, h2) = >>=-eq-ok (replace_draft db row i version) _ h1 in
      subst (λ j. Tells ((draft_updated, some j) ∷ []) db r) (get_entry-row db k row e1).1
        (subst (Tells ((draft_updated, some row.id) ∷ []) db) (ok_inj h2)
          (replace_draft-Tells db row i version d e2))
  handle-Tells clock db (delete k version) r h =
      let (row, e0, h0) = >>=-eq-ok (get_entry db k) _ h in
      subst (λ j. Tells ((draft_deleted, some j) ∷ []) db r) (get_entry-row db k row e0).1
        (delete_draft-Tells db row version r h0)
  handle-Tells clock db (validate k version) r h =
      let (row, e0, h0) = >>=-eq-ok (get_entry db k) _ h in
      let (d, e1, h1) = >>=-eq-ok (post_entry clock db row version) _ h0 in
      subst (λ o. Tells (owed_validation o) db r) (sym (get_entry-row db k row e0).0)
        (subst (Tells (owed_posting row) db) (ok_inj h1)
          (post_entry-Tells clock db row version d e1))
  handle-Tells clock db (reverse k input) r h =
      let (row, e0, h0) = >>=-eq-ok (get_entry db k) _ h in
      let (d, e1, h1) = >>=-eq-ok (reverse_entry fields_valid clock db row input false) _ h0 in
      subst (λ j. Tells (owed db (reverse j input)) db r) (get_entry-row db k row e0).1
        (subst (Tells (owed db (reverse row.id input)) db) (ok_inj h1)
          (reverse_entry-Tells fields_valid clock db row input false d e1))
  handle-Tells clock db (create_account n l t) r h = add_account-Tells db n r l t h
  handle-Tells clock db (account_active n b) r h = switch_account-Tells db n r b h
  handle-Tells clock db (create_journal n l t) r h = add_journal-Tells db n r l t h
  handle-Tells clock db (journal_active n b) r h = switch_journal-Tells db n r b h

  -- What the requests owe together: a request that fails owes nothing.
  abbrev pub owed_one : Clock → Db → Request → List Heading
  owed_one clock db request = elim (handle fields_valid clock db request) [
    | ok db' ↦ owed db request
    | err e ↦ []
  ]

  abbrev pub owed_all : Db → List (Clock × Request) → List Heading
  owed_all db [] = []
  owed_all db ((clock, request) ∷ requests) =
      owed_one clock db request ++ owed_all (serve_one fields_valid clock db request) requests

  serve_one-Tells :
      (clock : Clock) (db : Db) (request : Request)
      → Tells (owed_one clock db request) db (serve_one fields_valid clock db request)
  unfolding serve_one
  serve_one-Tells clock db request = go (handle fields_valid clock db request) refl
    where
      go :
          (o : Outcome Error Db)
          → handle fields_valid clock db request ≡ o
          → Tells
              (elim o [ ok db' ↦ owed db request | err e ↦ [] ])
              db
              (elim o [ ok db' ↦ db' | err e ↦ db ])
      go (ok r) e = handle-Tells clock db request r e
      go (err x) e = Tells-refl db

  -- Whatever the requests, those that fail add no row to the audit log, and those that are served
  -- add the rows that they owe, each with its action and its entry: three for a reversal, none for
  -- an entry that was validated already, and one for any other; and the tables of entries, accounts
  -- and journals after the requests are those before, once each of the new rows is done again, in
  -- the order of the log.
  pub serve-Tells :
      (db : Db) (requests : List (Clock × Request))
      → Tells (owed_all db requests) db (serve fields_valid db requests)
  unfolding serve
  serve-Tells db [] = Tells-refl db
  serve-Tells db ((clock, request) ∷ requests) =
      Tells-append (serve_one-Tells clock db request)
        (serve-Tells (serve_one fields_valid clock db request) requests)
