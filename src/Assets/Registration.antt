-- ===== src/Assets/Registration.antt =====
-- What the register of assets holds and the ledger does not: `registration_gap` of
-- backend/app/domain/assets/registration.py.
--
-- A mapping is a list of keys with their amounts, and a set of accounts a list.
pub mod Covered
use solo_lmnp.Prelude.{
  ℕ, ◌≡◌, ◌≢◌, ◌↔◌, refl, ap, sym, subst, ◌∙◌, inl, inr, Bool, true, false, ◌&&◌, Option, none,
  some, List, [], ◌∷◌, if◌then◌else◌, arith, leb, Bool-cases, All,
}
use solo_lmnp.Prelude.Int.{ℤ, pos, ◌+ℤ◌, ◌-ℤ◌, ltb_ℤ, int_laws}
use solo_lmnp.Prelude.Text.{Text, same_text, same_text_refl, same_text-eq}

pub record RegisterPiece : Type 0 where
  pub account : Text
  pub cents : ℤ
  pub acquired : ℕ

pub data Fix : Type 0 where
  ok entry journal : Fix

-- `mapping.get(account, 0)`
unfoldable pub amount_at : Text → List (Text × ℤ) → ℤ
amount_at a [] = pos 0
amount_at a (x ∷ xs) = if same_text x.0 a then x.1 else amount_at a xs

unfoldable pub active : ℕ → List RegisterPiece → List RegisterPiece
active as_of [] = []
active as_of (p ∷ ps) =
    let rest = active as_of ps in
    if ltb_ℤ (pos 0) p.cents && leb p.acquired as_of then p ∷ rest else rest

-- `register[account] = register.get(account, 0) + cents`
unfoldable pub add_gross : Text → ℤ → List (Text × ℤ) → List (Text × ℤ)
add_gross a c [] = (a, pos 0 +ℤ c) ∷ []
add_gross a c (x ∷ xs) =
    let rest = add_gross a c xs in if same_text x.0 a then (x.0, x.1 +ℤ c) ∷ xs else x ∷ rest

unfoldable pub register_from : List (Text × ℤ) → List RegisterPiece → List (Text × ℤ)
unfolding add_gross
register_from register [] = register
register_from register (p ∷ ps) = register_from (add_gross p.account p.cents register) ps

abbrev pub keys : List (Text × ℤ) → List Text
keys [] = []
keys (x ∷ xs) = x.0 ∷ keys xs

abbrev pub scope : Option (List Text) → List (Text × ℤ) → List Text
scope none register = keys register
scope (some accounts) register = accounts

unfoldable pub short_of : List (Text × ℤ) → List (Text × ℤ) → List Text → List (Text × ℤ)
unfolding amount_at
short_of register ledger [] = []
short_of register ledger (a ∷ rest) =
    let more = short_of register ledger rest in
    let needed = amount_at a register in
    let have = amount_at a ledger in if ltb_ℤ have needed then (a, needed -ℤ have) ∷ more else more

abbrev pub has_key : Text → List (Text × ℤ) → Bool
has_key a [] = false
has_key a (x ∷ xs) = if same_text x.0 a then true else has_key a xs

abbrev pub covers_opening : ℕ → List (Text × ℤ) → List RegisterPiece → Bool
covers_opening year_start short [] = false
covers_opening year_start short (p ∷ ps) =
    if has_key p.account short && leb p.acquired year_start
    then true
    else covers_opening year_start short ps

abbrev pub fix_of : ℕ → List RegisterPiece → List (Text × ℤ) → Fix
fix_of year_start pieces [] = ok
fix_of year_start pieces (x ∷ xs) =
    if covers_opening year_start (x ∷ xs) pieces then entry else journal

unfoldable pub registration_gap :
    List RegisterPiece → List (Text × ℤ) → ℕ → ℕ → Option (List Text) → List (Text × ℤ) × Fix
unfolding active register_from short_of
registration_gap pieces ledger as_of year_start accounts =
    let held = active as_of pieces in
    let register = register_from [] held in
    let short = short_of register ledger (scope accounts register) in
    (short, fix_of year_start held short)
