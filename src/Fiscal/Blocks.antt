-- ===== src/Fiscal/Blocks.antt =====
-- The rules that stop a tax computation: `triggered_rule_ids` of
-- backend/app/domain/fiscal/blocks.py.
use solo_lmnp.Prelude.{Bool, List, [], ◌∷◌, ◌++◌, if◌then◌else◌}
use solo_lmnp.Prelude.Text.{is_before, Text, codes, same_text, mem_text, starts_with}

abbrev pub cession : Text
cession = codes "RULE-BLOCKED-CESSION-001"

abbrev pub plus_value : Text
plus_value = codes "RULE-BLOCKED-PLUS-VALUE-001"

unfoldable pub account_rules : List (Text × List Text)
account_rules =
    (codes "445", codes "RULE-BLOCKED-TVA-001" ∷ [])
    ∷ (codes "675", cession ∷ plus_value ∷ [])
    ∷ (codes "775", cession ∷ plus_value ∷ [])
    ∷ []

unfoldable pub disposal_rules : List Text
disposal_rules = cession ∷ plus_value ∷ []

unfoldable pub insert : Text → List Text → List Text
insert a [] = a ∷ []
insert a (x ∷ xs) =
    let rest = insert a xs in
    if same_text a x then x ∷ xs else if is_before a x then a ∷ x ∷ xs else x ∷ rest

-- `sorted(set(numbers))`
unfoldable pub sorted : List Text → List Text
unfolding insert
sorted [] = []
sorted (a ∷ rest) = insert a (sorted rest)

-- `if rule_id not in found: found.append(rule_id)`
abbrev pub add_new : Text → List Text → List Text
add_new r found = if mem_text r found then found else found ++ (r ∷ [])

unfoldable pub add_all : List Text → List Text → List Text
add_all [] found = found
add_all (r ∷ rest) found = add_all rest (add_new r found)

unfoldable pub add_rules : Text → List (Text × List Text) → List Text → List Text
unfolding add_all
add_rules number [] found = found
add_rules number (rule ∷ rest) found =
    add_rules number rest (if starts_with rule.0 number then add_all rule.1 found else found)

unfoldable pub add_numbers : List Text → List Text → List Text
unfolding add_rules account_rules
add_numbers [] found = found
add_numbers (number ∷ rest) found = add_numbers rest (add_rules number account_rules found)

unfoldable pub triggered_rule_ids : List Text → Bool → List Text
unfolding sorted add_numbers add_all disposal_rules
triggered_rule_ids numbers disposal =
    let found = add_numbers (sorted numbers) [] in
    if disposal then add_all disposal_rules found else found
