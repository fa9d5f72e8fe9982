-- ===== src/Ledger/Reversal.antt =====
-- `reverse_entry` of backend/app/services/ledger.py, and the checks of `EntryInput` and `LineInput`
-- of backend/app/api/ledger_schemas.py that its payload passes.
use mathlib.Core.Bool.{xor}
use solo_lmnp.Prelude.{
  ℕ, Bool, true, false, ◌&&◌, ◌||◌, not, Option, none, some, List, [], ◌∷◌, ◌++◌, length, ◌==◌, leb,
}
use solo_lmnp.Prelude.Text.{Text, codes, mem_text}
use solo_lmnp.Prelude.Text.Decimal.{decimal}
use solo_lmnp.Prelude.Outcome.{Outcome, ok, ◌>>=◌, ◌>>◌, guard}
use solo_lmnp.Ledger.State.{
  Line, Entry, entry_reversed, reversal_details, Db, LineInput, EntryInput, ReversalInput, Clock,
  business_reversal_required, bank_match_exists, not_validated, reversal_chain, already_reversed,
  invalid_input, save, Error,
}
use solo_lmnp.Ledger.Service.{is_none, is_validated, create_draft, log}
use solo_lmnp.Ledger.Post.{post_entry}

-- `one_side`: exactly one side of a line is positive.
unfoldable pub one_side : LineInput → Bool
one_side line = xor (line.debit == 0) (line.credit == 0)

unfoldable pub all_one_side : List LineInput → Bool
unfolding one_side
all_one_side [] = true
all_one_side (line ∷ lines) = one_side line && all_one_side lines

-- The source types that the journal may reverse by itself.
abbrev pub direct_sources : List Text
direct_sources =
    codes "MANUAL"
    ∷ codes "REVERSAL"
    ∷ codes "INVENTORY"
    ∷ codes "CENTRALIZATION"
    ∷ codes "APPROPRIATION"
    ∷ codes "ACQUISITION"
    ∷ []

unfoldable pub mem_id : ℕ → List ℕ → Bool
mem_id k [] = false
mem_id k (j ∷ l) = j == k || mem_id k l

abbrev pub names : ℕ → Option ℕ → Bool
names k none = false
names k (some j) = j == k

-- `select ... where reversal_of_id == id`
unfoldable pub has_reversal : ℕ → List Entry → Bool
has_reversal k [] = false
has_reversal k (e ∷ es) = names k e.reversal_of_id || has_reversal k es

-- f"Extourne {entry_number}"; Python writes `None` for a missing number.
abbrev reversal_label : Option Text → Text
reversal_label none = codes "Extourne None"
reversal_label (some number) = codes "Extourne " ++ number

-- The lines with their sides exchanged. The amounts pass through their decimal text.
unfoldable pub swapped : List Line → List LineInput
swapped [] = []
swapped (line ∷ lines) =
    record {
      account_number = line.account_number;
      label = line.label;
      debit = line.credit;
      credit = line.debit;
    }
    ∷ swapped lines

unfoldable pub reversal_payload : Entry → ReversalInput → EntryInput
unfolding swapped
reversal_payload original data' = record {
  fiscal_year_id = original.fiscal_year_id;
  journal_code = original.journal_code;
  accounting_date = data'.accounting_date;
  piece_date = data'.accounting_date;
  piece_reference = data'.piece_reference;
  label = reversal_label original.entry_number;
  lines = swapped original.lines;
}

-- The refusals, in the order of the source.
unfoldable pub check_reversal : Db → Entry → Bool → Outcome Error (Unit {0})
unfolding mem_id has_reversal
check_reversal db original business = do
  guard (mem_text original.source_type direct_sources || business) business_reversal_required
  guard (not (mem_id original.id db.matched)) bank_match_exists
  guard (is_validated original.status) not_validated
  guard (is_none original.reversal_of_id) reversal_chain
  guard (not (has_reversal original.id db.entries)) already_reversed

-- The new draft, tied to the entry that it reverses.
unfoldable pub linked : Entry → Entry → Entry
linked original drafted = record drafted {
  reversal_of_id = some original.id;
  source_type = codes "REVERSAL";
  source_id = some (decimal original.id);
}

-- `fields_valid` stands for pydantic's own constraints on the fields: the patterns of account
-- numbers and journal codes, and the lengths of the texts.
module _ (fields_valid : EntryInput → Bool) where
  -- `EntryInput.model_validate`
  unfoldable pub model_validate : EntryInput → Outcome Error EntryInput
  unfolding all_one_side
  model_validate input = do
    guard (fields_valid input) invalid_input
    guard (leb 2 (length input.lines) && leb (length input.lines) 100) invalid_input
    guard (all_one_side input.lines) invalid_input
    ok input

  unfoldable pub reverse_entry :
      Clock → Db → Entry → ReversalInput → Bool → Outcome Error (Entry × Db)
  reverse_entry clock db original data' business = do
    check_reversal db original business
    payload ← model_validate (reversal_payload original data')
    drafted ← create_draft db payload
    let entry = linked original drafted.0
    let stored = record (drafted.1) { entries = save entry drafted.1.entries }
    done ← post_entry clock stored entry entry.version
    ok (
      done.0,
      log entry_reversed (some original.id) (reversal_details done.0.id data'.reason) done.1,
    )
