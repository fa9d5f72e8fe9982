-- ===== src/Assets/Accounts.antt =====
-- The allowed pairs of accounts of a fixed asset: backend/app/domain/assets/accounts.py.
pub mod Pairs
use solo_lmnp.Prelude.{
  ℕ, Bool, true, false, Option, none, some, List, [], ◌∷◌, ◌++◌, ◌&&◌, ◌||◌, not, ◌==◌, ltb, length,
  if◌then◌else◌,
}
use solo_lmnp.Prelude.Text.{Text, codes, starts_with, same_text}
use solo_lmnp.Prelude.Outcome.{Outcome, ok, err, ◌>>=◌, ◌>>◌, guard}

pub data Category : Type 0 where
  land building improvement equipment furniture other : Category

-- `AssetAccountError`, by its reason.
pub data Refusal : Type 0 where
  unknown_category contra_asset wrong_account land_depreciation too_coarse not_mirror : Refusal

abbrev pub prefixes : List (Text × Category)
prefixes =
    (codes "2135", improvement)
    ∷ (codes "2181", improvement)
    ∷ (codes "2182", equipment)
    ∷ (codes "2183", equipment)
    ∷ (codes "2184", furniture)
    ∷ (codes "211", land)
    ∷ (codes "212", building)
    ∷ (codes "213", building)
    ∷ (codes "214", building)
    ∷ (codes "215", equipment)
    ∷ (codes "218", other)
    ∷ []

-- `best is None or len(prefix) > best[0]`
abbrev pub is_longer : ℕ → Option (ℕ × Category) → Bool
is_longer n none = true
is_longer n (some best) = ltb best.0 n

-- The loop over the prefixes, with the best match so far.
unfoldable pub best_prefix :
    Text → List (Text × Category) → Option (ℕ × Category) → Option (ℕ × Category)
best_prefix number [] best = best
best_prefix number (p ∷ rest) best =
    best_prefix number rest (
      if starts_with p.0 number && is_longer (length p.0) best
      then some (length p.0, p.1)
      else best)

abbrev pub category_of : Option (ℕ × Category) → Option Category
category_of none = none
category_of (some best) = some best.1

unfoldable pub category_of_account : Text → Option Category
unfolding best_prefix
category_of_account number = category_of (best_prefix number prefixes none)

-- `t[1:]` and `t[:-1]`
abbrev pub drop_first : Text → Text
drop_first [] = []
drop_first (c ∷ t) = t

unfoldable pub drop_last : Text → Text
drop_last [] = []
drop_last (c ∷ []) = []
drop_last (c ∷ d ∷ t) = c ∷ drop_last (d ∷ t)

unfoldable pub mirror_depreciation_account : Text → Option Text
unfolding drop_last
mirror_depreciation_account asset_account =
    if ltb (length asset_account) 4 || not (starts_with (codes "21") asset_account)
    then none
    else some (codes "28" ++ drop_last (drop_first asset_account))

abbrev pub index : Category → ℕ
index land = 0
index building = 1
index improvement = 2
index equipment = 3
index furniture = 4
index other = 5

-- `found == category`
abbrev pub is_category : Category → Option Category → Bool
is_category c none = false
is_category c (some found) = index found == index c

abbrev pub is_contra : Text → Bool
is_contra number = starts_with (codes "28") number || starts_with (codes "29") number

abbrev pub same_account : Option Text → Text → Bool
same_account none mirror = false
same_account (some d) mirror = same_text d mirror

abbrev pub check_mirror : Option Text → Option Text → Outcome Refusal (Unit {0})
check_mirror none depreciation = err too_coarse
check_mirror (some mirror) depreciation = guard (same_account depreciation mirror) not_mirror

unfoldable pub require_mirror : Text → Option Text → Outcome Refusal (Unit {0})
unfolding mirror_depreciation_account
require_mirror asset_account depreciation =
    check_mirror (mirror_depreciation_account asset_account) depreciation

abbrev pub no_account : Option Text → Bool
no_account none = true
no_account (some d) = false

-- The last step: land has no depreciation account, any other category has the mirror.
abbrev pub check_depreciation : Category → Text → Option Text → Outcome Refusal (Unit {0})
unfolding require_mirror
check_depreciation category asset depreciation =
    if index category == index land
    then guard (no_account depreciation) land_depreciation
    else require_mirror asset depreciation

-- A category that `CATEGORIES` does not have is `none`.
unfoldable pub validate_asset_accounts :
    Option Category → Text → Option Text → Outcome Refusal (Unit {0})
unfolding category_of_account require_mirror
validate_asset_accounts none asset depreciation = err unknown_category
validate_asset_accounts (some category) asset depreciation = do
  guard (not (is_contra asset)) contra_asset
  guard (is_category category (category_of_account asset)) wrong_account
  check_depreciation category asset depreciation

abbrev pub is_component : Option Category → Bool
is_component found = is_category building found || is_category improvement found

unfoldable pub validate_component_accounts : Text → Text → Outcome Refusal (Unit {0})
unfolding category_of_account require_mirror
validate_component_accounts asset depreciation = do
  guard (not (is_contra asset)) contra_asset
  guard (is_component (category_of_account asset)) wrong_account
  require_mirror asset (some depreciation)
