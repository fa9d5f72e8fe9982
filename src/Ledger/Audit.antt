-- ===== src/Ledger/Audit.antt =====
-- What the audit log says: the rows that `event` of backend/app/services/ledger.py and of
-- backend/app/api/ledger.py adds, read again as writes to the tables of entries, accounts and
-- journals.
pub mod Told
pub mod Served
use mathlib.Core.List.{append-nil, append_assoc}
use solo_lmnp.Prelude.{ℕ, ◌≡◌, refl, sym, ap, ◌∙◌, Bool, Option, none, some, List, [], ◌∷◌, ◌++◌}
use solo_lmnp.Prelude.Text.{Text}
use solo_lmnp.Ledger.State.{
  Entry, Account, Journal, Db, Event, EventAction, draft_created, draft_updated, draft_deleted,
  entry_validated, entry_reversed, account_created, account_active_changed, journal_created,
  journal_active_changed, business_posted, business_reversed, bank_matched, bank_unmatched,
  depreciation_batch, Details, entry_change, reversal_details, account_row, journal_row,
  switch_details, operation_details, match_details, save, remove,
}
use solo_lmnp.Ledger.Service.{log}
use solo_lmnp.Ledger.Routes.{set_account_active, set_journal_active}

-- The tables that the rows of the log tell of.
pub record Tables : Type 0 where
  pub entries : List Entry
  pub accounts : List Account
  pub journals : List Journal

abbrev pub tables : Db → Tables
tables d = record { entries = d.entries; accounts = d.accounts; journals = d.journals }

abbrev with_after : (Entry → List Entry → List Entry) → Details → List Entry → List Entry
with_after write (entry_change before (some e)) es = write e es
with_after write (entry_change before none) es = es
with_after write (reversal_details k t) es = es
with_after write (account_row a) es = es
with_after write (journal_row j) es = es
with_after write (switch_details k b a) es = es
with_after write (operation_details k t) es = es
with_after write (match_details k t) es = es

abbrev without_before : Details → List Entry → List Entry
without_before (entry_change (some e) after) es = remove e.id es
without_before (entry_change none after) es = es
without_before (reversal_details k t) es = es
without_before (account_row a) es = es
without_before (journal_row j) es = es
without_before (switch_details k b a) es = es
without_before (operation_details k t) es = es
without_before (match_details k t) es = es

abbrev new_account : Details → List Account → List Account
new_account (account_row a) l = l ++ (a ∷ [])
new_account (entry_change b a) l = l
new_account (reversal_details k t) l = l
new_account (journal_row j) l = l
new_account (switch_details k b a) l = l
new_account (operation_details k t) l = l
new_account (match_details k t) l = l

abbrev new_journal : Details → List Journal → List Journal
new_journal (journal_row j) l = l ++ (j ∷ [])
new_journal (entry_change b a) l = l
new_journal (reversal_details k t) l = l
new_journal (account_row a) l = l
new_journal (switch_details k b a) l = l
new_journal (operation_details k t) l = l
new_journal (match_details k t) l = l

abbrev switched {ℓ} : {A : Type ℓ} → (Text → Bool → List A → List A) → Details → List A → List A
switched set (switch_details k before after) l = set k after l
switched set (entry_change b a) l = l
switched set (reversal_details k t) l = l
switched set (account_row a) l = l
switched set (journal_row j) l = l
switched set (operation_details k t) l = l
switched set (match_details k t) l = l

-- The write that a row of the log tells of.
abbrev pub redo : EventAction → Details → Tables → Tables
redo draft_created d t = record t { entries = with_after (λ e es. es ++ (e ∷ [])) d t.entries }
redo draft_updated d t = record t { entries = with_after save d t.entries }
redo entry_validated d t = record t { entries = with_after save d t.entries }
redo draft_deleted d t = record t { entries = without_before d t.entries }
redo account_created d t = record t { accounts = new_account d t.accounts }
redo account_active_changed d t = record t { accounts = switched set_account_active d t.accounts }
redo journal_created d t = record t { journals = new_journal d t.journals }
redo journal_active_changed d t = record t { journals = switched set_journal_active d t.journals }
redo entry_reversed d t = t
redo business_posted d t = t
redo business_reversed d t = t
redo bank_matched d t = t
redo bank_unmatched d t = t
redo depreciation_batch d t = t

abbrev pub replay_log : List Event → Tables → Tables
replay_log [] t = t
replay_log (row ∷ rows) t = replay_log rows (redo row.action row.details t)

-- What a row is about: its action, and its entry if it has one.
abbrev pub Heading : Type 0
Heading = EventAction × Option ℕ

abbrev pub headings : List Event → List Heading
headings [] = []
headings (row ∷ rows) = (row.action, row.entry_id) ∷ headings rows

replay_log-append :
    (xs ys : List Event) (t : Tables) → replay_log (xs ++ ys) t ≡ replay_log ys (replay_log xs t)
replay_log-append [] ys t = refl
replay_log-append (x ∷ xs) ys t = replay_log-append xs ys (redo x.action x.details t)

headings-append : (xs ys : List Event) → headings (xs ++ ys) ≡ headings xs ++ headings ys
headings-append [] ys = refl
headings-append (x ∷ xs) ys = ap (λ l. (x.action, x.entry_id) ∷ l) (headings-append xs ys)

-- The log grows by rows with these headings, which tell all that is written to the tables.
pub record Tells (owed : List Heading) (d d' : Db) : Type 0 where
  pub rows : List Event
  pub grown : d'.events ≡ d.events ++ rows
  pub told : replay_log rows (tables d) ≡ tables d'
  pub headed : headings rows ≡ owed

pub Tells-refl : (d : Db) → Tells [] d d
Tells-refl d = record { rows = []; grown = sym (append-nil d.events); told = refl; headed = refl }

pub Tells-append :
    {first second : List Heading} {d d1 d2 : Db}
    → Tells first d d1
    → Tells second d1 d2
    → Tells (first ++ second) d d2
Tells-append {d} s t = record {
  rows = s.rows ++ t.rows;
  grown =
      t.grown ∙ ap (λ (l : List Event). l ++ t.rows) s.grown ∙ append_assoc d.events s.rows t.rows;
  told = replay_log-append s.rows t.rows (tables d) ∙ ap (replay_log t.rows) s.told ∙ t.told;
  headed = headings-append s.rows t.rows ∙ rw (s.headed, t.headed) refl;
}

-- A write, and the one row that tells it.
pub log-Tells :
    (action : EventAction) (k : Option ℕ) (details : Details) (d d1 : Db)
    → d1.events ≡ d.events
    → redo action details (tables d) ≡ tables d1
    → Tells ((action, k) ∷ []) d (log action k details d1)
unfolding log
log-Tells action k details d d1 same told = record {
  rows = record { entry_id = k; action = action; details = details } ∷ [];
  grown = rw same refl;
  told = told;
  headed = refl;
}
