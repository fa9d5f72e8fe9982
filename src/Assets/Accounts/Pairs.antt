-- ===== src/Assets/Accounts/Pairs.antt =====
-- What an accepted pair of accounts is.
use solo_lmnp.Prelude.{
  ℕ, ◌≡◌, refl, sym, ap, subst, if◌then◌else◌, ◌∙◌, ◌⊎◌, inl, inr, Bool, true, false, Option, none,
  some, [], ◌∷◌, ◌++◌, ◌==◌, length, arith, ==_iff, ltb, ◌||◌, not,
}
use solo_lmnp.Prelude.Text.{Text, codes, starts_with, same_text, same_text-eq}
use solo_lmnp.Prelude.Outcome.{ok, guard, guard-eq-ok}
use solo_lmnp.Assets.Accounts.{
  Refusal, not_mirror, Category, land, building, improvement, equipment, furniture, other,
  category_of_account, drop_last, mirror_depreciation_account, index, is_category, is_contra,
  check_mirror, require_mirror, check_depreciation, validate_asset_accounts,
}

of_index : ℕ → Category
of_index n =
    if n == 0
    then land
    else if n == 1
    then building
    else if n == 2
    then improvement
    else if n == 3
    then equipment
    else if n == 4
    then furniture
    else other

of_index-index : (c : Category) → of_index (index c) ≡ c
unfolding of_index
of_index-index land = refl
of_index-index building = refl
of_index-index improvement = refl
of_index-index equipment = refl
of_index-index furniture = refl
of_index-index other = refl

index_inj : (c d : Category) → (index c == index d) ≡ true → c ≡ d
index_inj c d h =
    sym (of_index-index c) ∙ (ap of_index ((==_iff (index c) (index d)).0 h) ∙ of_index-index d)

length-drop_last : (c : ℕ) (t : Text) → length (drop_last (c ∷ t)) ≡ length t
unfolding drop_last
length-drop_last c [] = refl
length-drop_last c (d ∷ t) = omega (arith, length-drop_last d t)

-- The account `m` is the depreciation account of `asset`: of class 28, and as long.
pub record IsMirror (asset m : Text) : Type 0 where
  pub found : mirror_depreciation_account asset ≡ some m
  pub in_class : starts_with (codes "28") m ≡ true
  pub same_length : length m ≡ length asset

if_some : (b : Bool) (x m : Text) → (if b then none else some x) ≡ some m → x ≡ m
if_some true x m h = cc
if_some false x m h = cc

guard-eq-true : (t : Bool) (e : Refusal) → guard t e ≡ ok tt → t ≡ true
guard-eq-true true e h = refl
guard-eq-true false e h = cc

not-eq-true : (b : Bool) → not b ≡ true → b ≡ false
not-eq-true true h = cc
not-eq-true false h = refl

mirror_depreciation_account-IsMirror :
    (a m : Text) → mirror_depreciation_account a ≡ some m → IsMirror a m
unfolding mirror_depreciation_account
mirror_depreciation_account-IsMirror [] m h = cc
mirror_depreciation_account-IsMirror (c ∷ []) m h = cc
mirror_depreciation_account-IsMirror (c ∷ d ∷ t) m h =
    let e : codes "28" ++ drop_last (d ∷ t) ≡ m =
      if_some (ltb (length (c ∷ d ∷ t)) 4 || not (starts_with (codes "21") (c ∷ d ∷ t)))
        (codes "28" ++ drop_last (d ∷ t)) m h in
    let long = length-drop_last d t in
    record {
      found = h;
      in_class = subst (λ x. starts_with (codes "28") x ≡ true) e refl;
      same_length = subst (λ x. length x ≡ length (c ∷ d ∷ t)) e (omega (arith, long));
    }

is_category-eq-true :
    (c : Category) (found : Option Category) → is_category c found ≡ true → found ≡ some c
is_category-eq-true c none h = cc
is_category-eq-true c (some d) h = ap some (index_inj d c h)

check_mirror-eq-ok :
    (mirror depreciation : Option Text)
    → check_mirror mirror depreciation ≡ ok tt
    → (m : Text) × (depreciation ≡ some m) × (mirror ≡ some m)
check_mirror-eq-ok none depreciation h = cc
check_mirror-eq-ok (some m) none h = cc
check_mirror-eq-ok (some m) (some d) h =
    (d, refl, ap some (sym (same_text-eq d m (guard-eq-true (same_text d m) not_mirror h))))

mirrored :
    (asset : Text) (depreciation : Option Text)
    → require_mirror asset depreciation ≡ ok tt
    → (m : Text) × (depreciation ≡ some m) × IsMirror asset m
unfolding require_mirror
mirrored asset depreciation h =
    let (m, e, found) = check_mirror-eq-ok (mirror_depreciation_account asset) depreciation h in
    (m, e, mirror_depreciation_account-IsMirror asset m found)

check_depreciation-eq-ok :
    (category : Category) (asset : Text) (depreciation : Option Text)
    → check_depreciation category asset depreciation ≡ ok tt
    → ((category ≡ land) × (depreciation ≡ none))
      ⊎ ((m : Text) × (depreciation ≡ some m) × IsMirror asset m)
unfolding require_mirror
check_depreciation-eq-ok land asset none h = inl (refl, refl)
check_depreciation-eq-ok land asset (some d) h = cc
check_depreciation-eq-ok building asset d h = inr (mirrored asset d h)
check_depreciation-eq-ok improvement asset d h = inr (mirrored asset d h)
check_depreciation-eq-ok equipment asset d h = inr (mirrored asset d h)
check_depreciation-eq-ok furniture asset d h = inr (mirrored asset d h)
check_depreciation-eq-ok other asset d h = inr (mirrored asset d h)

-- An accepted pair: the account is of the category, and is no depreciation account; land has no
-- depreciation account, and any other category has the mirror of its account, of class 28 and as
-- long.
pub validate_asset_accounts-eq-ok :
    (category : Category) (asset : Text) (depreciation : Option Text)
    → validate_asset_accounts (some category) asset depreciation ≡ ok tt
    → (category_of_account asset ≡ some category)
      × (is_contra asset ≡ false)
      × (((category ≡ land) × (depreciation ≡ none))
          ⊎ ((m : Text) × (depreciation ≡ some m) × IsMirror asset m))
unfolding validate_asset_accounts
validate_asset_accounts-eq-ok category asset depreciation h =
    let (contra, h1) = guard-eq-ok (not (is_contra asset)) _ _ h in
    let (found, h2) = guard-eq-ok (is_category category (category_of_account asset)) _ _ h1 in
    (
      is_category-eq-true category (category_of_account asset) found,
      not-eq-true (is_contra asset) contra,
      check_depreciation-eq-ok category asset depreciation h2,
    )
