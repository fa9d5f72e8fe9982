-- ===== src/Operations/Routes.antt =====
-- The routes of backend/app/api/operations.py that create, settle and reverse an operation and that
-- match and unmatch a bank movement, and runs of them. A request that fails leaves the tables as they
-- were. The other routes that write there (properties, tenants, rents, banks, loans and imports) are
-- not modelled.
use solo_lmnp.Prelude.{ℕ, Bool, List, [], ◌∷◌}
use solo_lmnp.Prelude.Text.{Text}
use solo_lmnp.Prelude.Outcome.{Outcome, ok, err, ◌>>=◌}
use solo_lmnp.Ledger.State.{EntryInput, ReversalInput, Clock}
use solo_lmnp.Operations.State.{World, OperationInput, SettlementInput, Payload, OperationError}
use solo_lmnp.Operations.Bank.{match, unmatch}
use solo_lmnp.Operations.Service.{create_operation}
use solo_lmnp.Operations.Settle.{settle, cancel}

pub data Action : Type 0 where
  create_one : OperationInput → Action
  settle_one : ℕ → SettlementInput → Action
  cancel_one : ℕ → ReversalInput → Action
  match_one : ℕ → ℕ → ℕ → Action
  unmatch_one : ℕ → Text → Action

module _ (fields_valid : EntryInput → Bool) (digest : Payload → Text) where
  unfoldable pub act : Clock → World → Action → Outcome OperationError World
  act clock w (create_one input) =
      create_operation fields_valid digest clock w input >>= λ r. ok r.1
  act clock w (settle_one parent_id input) =
      settle fields_valid digest clock w parent_id input >>= λ r. ok r.1
  act clock w (cancel_one operation_id input) =
      cancel fields_valid clock w operation_id input >>= λ r. ok r.1
  act clock w (match_one transaction_id entry_id position) =
      match w transaction_id entry_id position
  act clock w (unmatch_one transaction_id reason) = unmatch w transaction_id reason

  unfoldable pub perform_one : Clock → World → Action → World
  perform_one clock w action = elim (act clock w action) [ ok w' ↦ w' | err e ↦ w ]

  unfoldable pub perform : World → List (Clock × Action) → World
  unfolding perform_one
  perform w [] = w
  perform w (a ∷ rest) = perform (perform_one a.0 w a.1) rest
