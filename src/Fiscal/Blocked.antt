-- ===== src/Fiscal/Blocked.antt =====
-- Which rules are triggered.
use solo_lmnp.Prelude.{
  ◌≡◌, refl, ap, sym, subst, ◌∙◌, inl, inr, Bool, true, false, ◌&&◌, ◌||◌, List, [], ◌∷◌, ◌++◌,
  Bool-cases,
}
use solo_lmnp.Prelude.Text.{is_before, Text, same_text, same_text-eq, mem_text, starts_with}
use solo_lmnp.Fiscal.Blocks.{
  account_rules, disposal_rules, insert, sorted, add_new, add_all, add_rules, add_numbers,
  triggered_rule_ids,
}

or_assoc : (a b c : Bool) → (a || b) || c ≡ a || (b || c)
or_assoc true b c = refl
or_assoc false b c = refl

mem_text-append : (x : Text) (l m : List Text) → mem_text x (l ++ m) ≡ mem_text x l || mem_text x m
mem_text-append x [] m = refl
mem_text-append x (y ∷ l) m =
    ap (λ b. same_text x y || b) (mem_text-append x l m)
    ∙ sym (or_assoc (same_text x y) (mem_text x l) (mem_text x m))

or_idle : (a b : Bool) → (b ≡ true → a ≡ true) → a ≡ a || b
or_idle true b f = refl
or_idle false true f = f refl
or_idle false false f = refl

or_false : (b : Bool) → b || false ≡ b
or_false true = refl
or_false false = refl

or_swap : (a b c : Bool) → a || (b || c) ≡ b || (a || c)
or_swap true true c = refl
or_swap true false c = refl
or_swap false b c = refl

or_twice : (a b : Bool) → a || b ≡ a || (a || b)
or_twice true b = refl
or_twice false b = refl

mem_text-add_new :
    (x r : Text) (found : List Text)
    → mem_text x (add_new r found) ≡ mem_text x found || same_text x r
mem_text-add_new x r found = elim (Bool-cases (mem_text r found)) [
  | inl e ↦ rw e (
      or_idle (mem_text x found) (same_text x r)
        (λ h. subst (λ t. mem_text t found ≡ true) (sym (same_text-eq x r h)) e))
  | inr e ↦ rw e (
      mem_text-append x found (r ∷ []) ∙ ap (λ b. mem_text x found || b) (or_false (same_text x r)))
]

mem_text-add_all :
    (x : Text) (rs found : List Text)
    → mem_text x (add_all rs found) ≡ mem_text x found || mem_text x rs
unfolding add_all
mem_text-add_all x [] found = sym (or_false _)
mem_text-add_all x (r ∷ rs) found =
    mem_text-add_all x rs (add_new r found)
    ∙ ap (λ b. b || mem_text x rs) (mem_text-add_new x r found)
    ∙ or_assoc (mem_text x found) (same_text x r) (mem_text x rs)

-- Whether a rule is listed for the account.
unfoldable pub is_given : Text → Text → List (Text × List Text) → Bool
is_given x number [] = false
is_given x number (rule ∷ rest) =
    (starts_with rule.0 number && mem_text x rule.1) || is_given x number rest

mem_text-add_rules :
    (x number : Text) (rules : List (Text × List Text)) (found : List Text)
    → mem_text x (add_rules number rules found) ≡ mem_text x found || is_given x number rules
unfolding add_rules is_given
mem_text-add_rules x number [] found = sym (or_false _)
mem_text-add_rules x number (rule ∷ rest) found = elim (Bool-cases (starts_with rule.0 number)) [
  | inl e ↦ rw e (
      mem_text-add_rules x number rest (add_all rule.1 found)
      ∙ ap (λ b. b || is_given x number rest) (mem_text-add_all x rule.1 found)
      ∙ or_assoc (mem_text x found) (mem_text x rule.1) (is_given x number rest))
  | inr e ↦ rw e (mem_text-add_rules x number rest found)
]

-- Whether it is listed for one of the accounts.
unfoldable pub is_given_by_one : Text → List Text → Bool
unfolding is_given account_rules
is_given_by_one x [] = false
is_given_by_one x (number ∷ rest) = is_given x number account_rules || is_given_by_one x rest

mem_text-add_numbers :
    (x : Text) (numbers found : List Text)
    → mem_text x (add_numbers numbers found) ≡ mem_text x found || is_given_by_one x numbers
unfolding add_numbers is_given_by_one
mem_text-add_numbers x [] found = sym (or_false _)
mem_text-add_numbers x (number ∷ rest) found =
    mem_text-add_numbers x rest (add_rules number account_rules found)
    ∙ ap (λ b. b || is_given_by_one x rest) (mem_text-add_rules x number account_rules found)
    ∙ or_assoc (mem_text x found) (is_given x number account_rules) (is_given_by_one x rest)

is_given_by_one-insert :
    (x a : Text) (l : List Text) → is_given_by_one x (insert a l) ≡ is_given_by_one x (a ∷ l)
unfolding insert is_given_by_one
is_given_by_one-insert x a [] = refl
is_given_by_one-insert x a (y ∷ l) = elim (Bool-cases (same_text a y)) [
  | inl e ↦ rw e (
      subst
        (λ t.
          is_given x y account_rules || is_given_by_one x l
          ≡ is_given x t account_rules || (is_given x y account_rules || is_given_by_one x l))
        (sym (same_text-eq a y e)) (or_twice (is_given x y account_rules) (is_given_by_one x l)))
  | inr e ↦ elim (Bool-cases (is_before a y)) [
    | inl f ↦ rw (e, f) refl
    | inr f ↦
        rw (e, f)
          (ap (λ b. is_given x y account_rules || b) (is_given_by_one-insert x a l)
            ∙ or_swap (is_given x y account_rules) (is_given x a account_rules)
                (is_given_by_one x l))
  ]
]

is_given_by_one-sorted :
    (x : Text) (l : List Text) → is_given_by_one x (sorted l) ≡ is_given_by_one x l
unfolding sorted is_given_by_one
is_given_by_one-sorted x [] = refl
is_given_by_one-sorted x (a ∷ l) =
    is_given_by_one-insert x a (sorted l)
    ∙ ap (λ b. is_given x a account_rules || b) (is_given_by_one-sorted x l)

-- A rule is triggered exactly when it is listed for the prefix of one of the accounts, or there is
-- a disposal and it is one of the rules of disposals.
pub mem_text-triggered_rule_ids :
    (x : Text) (numbers : List Text) (disposal : Bool)
    → mem_text x (triggered_rule_ids numbers disposal)
      ≡ is_given_by_one x numbers || (disposal && mem_text x disposal_rules)
unfolding triggered_rule_ids
mem_text-triggered_rule_ids x numbers true =
    mem_text-add_all x disposal_rules (add_numbers (sorted numbers) [])
    ∙ ap (λ b. b || mem_text x disposal_rules)
        (mem_text-add_numbers x (sorted numbers) [] ∙ is_given_by_one-sorted x numbers)
mem_text-triggered_rule_ids x numbers false =
    mem_text-add_numbers x (sorted numbers) [] ∙ is_given_by_one-sorted x numbers ∙ sym (or_false _)
