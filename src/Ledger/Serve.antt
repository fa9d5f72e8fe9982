-- ===== src/Ledger/Serve.antt =====
-- Every request of the ledger routes is a chain of the writes of Step.antt, or leaves the database.
use solo_lmnp.Prelude.{ℕ, ◌<◌, ◌≡◌, refl, sym, subst, Bool, false, some, arith, All}
use solo_lmnp.Prelude.Text.{Text}
use solo_lmnp.Prelude.Outcome.{ok_inj, Outcome, ok, err, >>=-eq-ok, guard-eq-ok}
use solo_lmnp.Ledger.State.{
  Entry, AccountType, JournalType, Db, EntryInput, Clock, account_exists, account_not_found,
  journal_exists, journal_not_found, find_entry, find_account, find_journal, account_created,
  account_active_changed, journal_created, journal_active_changed, Error,
}
use solo_lmnp.Ledger.Service.{get_entry, create_draft, replace_draft, found, is_none}
use solo_lmnp.Ledger.Post.{post_entry}
use solo_lmnp.Ledger.Reversal.{model_validate, reverse_entry}
use solo_lmnp.Ledger.Routes.{
  Request, create, edit, delete, validate, reverse, create_account, account_active, create_journal,
  journal_active, add_account, switch_account, add_journal, switch_journal, handle, serve_one,
}
use solo_lmnp.Ledger.Step.{Step, aside, Steps, here, next}
use solo_lmnp.Ledger.Refines.{log-Frame, create_draft-Step, replace_draft-Step, delete_draft-Step}
use solo_lmnp.Ledger.Posting.{post_entry-Steps, reverse_entry-Steps}
use solo_lmnp.Ledger.Table.{find_entry-id}

get_entry-found :
    (db : Db) (k : ℕ) (e : Entry) → get_entry db k ≡ ok e → find_entry e.id db.entries ≡ some e
unfolding get_entry
get_entry-found db k e h =
    let p : find_entry k db.entries ≡ some e = ground arith in
    subst (λ j. find_entry j db.entries ≡ some e) (sym (find_entry-id k e db.entries p)) p

module _ (db : Db) (text : Text) (r : Db) where
  add_account-Step : (l : Text) (t : AccountType) → add_account db text l t ≡ ok r → Step db r
  unfolding add_account
  add_account-Step l t h =
      let (e, k) = guard-eq-ok (is_none (find_account text db.accounts)) account_exists _ h in
      subst (Step db) (ok_inj k)
        (aside (log-Frame account_created _ _ db _ refl refl refl) refl refl)

  switch_account-Step : (b : Bool) → switch_account db text b ≡ ok r → Step db r
  unfolding switch_account
  switch_account-Step b h =
      let (row, e, k) = >>=-eq-ok (found (find_account text db.accounts) account_not_found) _ h in
      subst (Step db) (ok_inj k)
        (aside (log-Frame account_active_changed _ _ db _ refl refl refl) refl refl)

  add_journal-Step : (l : Text) (t : JournalType) → add_journal db text l t ≡ ok r → Step db r
  unfolding add_journal
  add_journal-Step l t h =
      let (e, k) = guard-eq-ok (is_none (find_journal text db.journals)) journal_exists _ h in
      subst (Step db) (ok_inj k)
        (aside (log-Frame journal_created _ _ db _ refl refl refl) refl refl)

  switch_journal-Step : (b : Bool) → switch_journal db text b ≡ ok r → Step db r
  unfolding switch_journal
  switch_journal-Step b h =
      let (row, e, k) = >>=-eq-ok (found (find_journal text db.journals) journal_not_found) _ h in
      subst (Step db) (ok_inj k)
        (aside (log-Frame journal_active_changed _ _ db _ refl refl refl) refl refl)

-- Ids are given in order.
abbrev pub IsFresh : Db → Type 0
IsFresh db = All (λ x. x.id < db.next_id) db.entries

module _ (fields_valid : EntryInput → Bool) where
  pub handle-Steps :
      (clock : Clock) (db : Db) (request : Request) (r : Db)
      → IsFresh db
      → handle fields_valid clock db request ≡ ok r
      → Steps db r
  unfolding handle
  handle-Steps clock db (create input) r fresh h =
      let (i, e0, h0) = >>=-eq-ok (model_validate fields_valid input) _ h in
      let (d, e1, h1) = >>=-eq-ok (create_draft db i) _ h0 in
      subst (Steps db) (ok_inj h1) (next here (create_draft-Step db i d e1))
  handle-Steps clock db (edit k input version) r fresh h =
      let (i, e0, h0) = >>=-eq-ok (model_validate fields_valid input) _ h in
      let (row, e1, h1) = >>=-eq-ok (get_entry db k) _ h0 in
      let (d, e2, h2) = >>=-eq-ok (replace_draft db row i version) _ h1 in
      subst (Steps db) (ok_inj h2)
        (next here (replace_draft-Step db row i version d (get_entry-found db k row e1) e2))
  handle-Steps clock db (delete k version) r fresh h =
      let (row, e0, h0) = >>=-eq-ok (get_entry db k) _ h in
      next here (delete_draft-Step db row version r (get_entry-found db k row e0) h0)
  handle-Steps clock db (validate k version) r fresh h =
      let (row, e0, h0) = >>=-eq-ok (get_entry db k) _ h in
      let (d, e1, h1) = >>=-eq-ok (post_entry clock db row version) _ h0 in
      subst (Steps db) (ok_inj h1)
        (post_entry-Steps clock db row version d (get_entry-found db k row e0) e1)
  handle-Steps clock db (reverse k input) r fresh h =
      let (row, e0, h0) = >>=-eq-ok (get_entry db k) _ h in
      let (d, e1, h1) = >>=-eq-ok (reverse_entry fields_valid clock db row input false) _ h0 in
      subst (Steps db) (ok_inj h1)
        (reverse_entry-Steps fields_valid clock db row input false d fresh e1)
  handle-Steps clock db (create_account n l t) r fresh h = next here (add_account-Step db n r l t h)
  handle-Steps clock db (account_active n b) r fresh h = next here (switch_account-Step db n r b h)
  handle-Steps clock db (create_journal n l t) r fresh h = next here (add_journal-Step db n r l t h)
  handle-Steps clock db (journal_active n b) r fresh h = next here (switch_journal-Step db n r b h)

  pub serve_one-Steps :
      (clock : Clock) (db : Db) (request : Request)
      → IsFresh db
      → Steps db (serve_one fields_valid clock db request)
  unfolding serve_one
  serve_one-Steps clock db request fresh = go (handle fields_valid clock db request) refl
    where
      go :
          (o : Outcome Error Db)
          → handle fields_valid clock db request ≡ o
          → Steps db (elim o [ ok db' ↦ db' | err e ↦ db ])
      go (ok r) e = handle-Steps clock db request r fresh e
      go (err x) e = here
