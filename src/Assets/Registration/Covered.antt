-- ===== src/Assets/Registration/Covered.antt =====
-- What is left to register, against the gross of the pieces.
use solo_lmnp.Prelude.{
  ℕ, ◌≡◌, ◌↔◌, refl, ap, sym, subst, ◌∙◌, inl, inr, true, false, Option, List, [], ◌∷◌,
  if◌then◌else◌, Bool-cases, All,
}
use solo_lmnp.Prelude.Int.{ℤ, pos, ◌+ℤ◌, ltb_ℤ, int_laws}
use solo_lmnp.Prelude.Text.{Text, same_text, same_text_refl, same_text-eq}
use solo_lmnp.Assets.Registration.{
  RegisterPiece, ok, amount_at, active, add_gross, register_from, scope, short_of, covers_opening,
  fix_of, registration_gap,
}

-- The gross of an account, as a sum over its pieces.
unfoldable pub gross : Text → List RegisterPiece → ℤ
gross a [] = pos 0
gross a (p ∷ ps) = (if same_text p.account a then p.cents else pos 0) +ℤ gross a ps

zero_right : (a : ℤ) → a +ℤ pos 0 ≡ a
zero_right a = grind (int_laws, a)

zero_left : (a : ℤ) → pos 0 +ℤ a ≡ a
zero_left a = grind (int_laws, a)

plus_assoc : (a b c : ℤ) → (a +ℤ b) +ℤ c ≡ a +ℤ (b +ℤ c)
plus_assoc a b c = grind int_laws

true_or_false : true ≡ false → ⊥
true_or_false h = cc

not_both : (x k a : Text) → same_text x k ≡ false → same_text x a ≡ true → same_text k a ≡ false
not_both x k a other e = elim (Bool-cases (same_text k a)) [
  | inl f ↦
      let same : x ≡ k = same_text-eq x a e ∙ sym (same_text-eq k a f) in
      absurd
        (true_or_false (sym (subst (λ t. same_text x t ≡ true) same (same_text_refl x)) ∙ other))
  | inr f ↦ f
]

add_here :
    (a k : Text) (n c : ℤ) (xs : List (Text × ℤ))
    → amount_at a ((k, n +ℤ c) ∷ xs)
      ≡ amount_at a ((k, n) ∷ xs) +ℤ (if same_text k a then c else pos 0)
unfolding amount_at
add_here a k n c xs = elim (Bool-cases (same_text k a)) [
  | inl e ↦ rw e refl
  | inr e ↦ rw e (sym (zero_right _))
]

add_there :
    (a k : Text) (c : ℤ) (x : Text × ℤ) (xs : List (Text × ℤ))
    → same_text x.0 k ≡ false
    → amount_at a (add_gross k c xs) ≡ amount_at a xs +ℤ (if same_text k a then c else pos 0)
    → amount_at a (x ∷ add_gross k c xs)
      ≡ amount_at a (x ∷ xs) +ℤ (if same_text k a then c else pos 0)
unfolding amount_at
add_there a k c x xs other ih = elim (Bool-cases (same_text x.0 a)) [
  | inl e ↦
      let differ : same_text k a ≡ false = not_both x.0 k a other e in
      rw (e, differ) (sym (zero_right _))
  | inr e ↦ rw e ih
]

add_gross_lem :
    (a k : Text) (c : ℤ) (register : List (Text × ℤ))
    → amount_at a (add_gross k c register)
      ≡ amount_at a register +ℤ (if same_text k a then c else pos 0)
unfolding amount_at add_gross
add_gross_lem a k c [] = elim (Bool-cases (same_text k a)) [
  | inl e ↦ rw e refl
  | inr e ↦ rw e (sym (zero_right (pos 0)))
]
add_gross_lem a k c (x ∷ xs) = elim (Bool-cases (same_text x.0 k)) [
  | inl e ↦
      let same = same_text-eq x.0 k e in
      rw e (
        subst
          (λ t.
            amount_at a ((x.0, x.1 +ℤ c) ∷ xs)
            ≡ amount_at a (x ∷ xs) +ℤ (if same_text t a then c else pos 0))
          same (add_here a x.0 x.1 c xs))
  | inr e ↦ rw e (add_there a k c x xs e (add_gross_lem a k c xs))
]

register_from_lem :
    (a : Text) (register : List (Text × ℤ)) (ps : List RegisterPiece)
    → amount_at a (register_from register ps) ≡ amount_at a register +ℤ gross a ps
unfolding register_from gross
register_from_lem a register [] = sym (zero_right _)
register_from_lem a register (p ∷ ps) =
    register_from_lem a (add_gross p.account p.cents register) ps
    ∙ ap (λ n. n +ℤ gross a ps) (add_gross_lem a p.account p.cents register)
    ∙ plus_assoc _ _ _

not_nil : (x : Text × ℤ) (xs : List (Text × ℤ)) → x ∷ xs ≡ [] → ⊥
not_nil x xs h = cc

-- Nothing is short exactly when no account of the list is.
short_of-empty :
    (register ledger : List (Text × ℤ)) (held : List RegisterPiece) (l : List Text)
    → ((a : Text) → amount_at a register ≡ gross a held)
    → short_of register ledger l ≡ []
      ↔ All (λ a. ltb_ℤ (amount_at a ledger) (gross a held) ≡ false) l
unfolding short_of
short_of-empty register ledger held [] f = (λ h. tt, λ h. refl)
short_of-empty register ledger held (a ∷ rest) f =
    let ih = short_of-empty register ledger held rest f in
    elim (Bool-cases (ltb_ℤ (amount_at a ledger) (gross a held))) [
      | inl e ↦ rw (f a, e) (λ h. absurd (not_nil _ _ h), λ h. absurd (true_or_false h.0))
      | inr e ↦ rw (f a, e) (λ h. (refl, ih.0 h), λ h. ih.1 h.1)
    ]

fix_of-ok :
    (year_start : ℕ) (held : List RegisterPiece) (short : List (Text × ℤ))
    → fix_of year_start held short ≡ ok ↔ short ≡ []
fix_of-ok year_start held [] = (λ h. refl, λ h. refl)
fix_of-ok year_start held (x ∷ xs) = elim (Bool-cases (covers_opening year_start (x ∷ xs) held)) [
  | inl e ↦ rw e (λ h. cc, λ h. cc)
  | inr e ↦ rw e (λ h. cc, λ h. cc)
]

-- A check finds nothing to fix exactly when, for each account in its scope, the ledger holds at
-- least the gross of the pieces acquired by its date.
pub registration_gap-ok :
    (pieces : List RegisterPiece) (ledger : List (Text × ℤ)) (as_of year_start : ℕ)
    (accounts : Option (List Text))
    → (registration_gap pieces ledger as_of year_start accounts).1 ≡ ok
      ↔ All
          (λ a. ltb_ℤ (amount_at a ledger) (gross a (active as_of pieces)) ≡ false)
          (scope accounts (register_from [] (active as_of pieces)))
unfolding registration_gap amount_at
registration_gap-ok pieces ledger as_of year_start accounts =
    let held = active as_of pieces in
    let register = register_from [] held in
    let sums : (a : Text) → amount_at a register ≡ gross a held =
      λ a. register_from_lem a [] held ∙ zero_left (gross a held) in
    let l = scope accounts register in
    let none_short = short_of-empty register ledger held l sums in
    let fixed = fix_of-ok year_start held (short_of register ledger l) in
    (λ h. none_short.0 (fixed.0 h), λ h. fixed.1 (none_short.1 h))
