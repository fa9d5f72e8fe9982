-- ===== src/Prelude/Text.antt =====
-- Texts as lists of code points: equality, membership, prefixes, decimal numbers and padding.
pub mod Decimal
use Prim.Native.Char.{code}
use Prim.Native.String.{String}
use solo_lmnp.Prelude.{
  ℕ, ◌≡◌, refl, ap, ◌↔◌, Bool, true, false, ◌&&◌, ◌||◌, List, [], ◌∷◌, ◌==◌, ltb, arith, ◌≢◌, inl,
  inr, Bool-cases,
}

abbrev pub Text : Type 0
Text = List ℕ

-- A text literal. `String` has its own `[]` and `∷`.
abbrev pub codes : String → Text
codes String.[] = []
codes (String.◌∷◌ c s) = code c ∷ codes s

-- `a == b` of two Python texts.
abbrev pub same_text : Text → Text → Bool
same_text [] [] = true
same_text [] (d ∷ t) = false
same_text (c ∷ s) [] = false
same_text (c ∷ s) (d ∷ t) = (c == d) && same_text s t

-- `a in (b, c, ...)`
abbrev pub mem_text : Text → List Text → Bool
mem_text a [] = false
mem_text a (b ∷ l) = same_text a b || mem_text a l

-- `s.startswith(prefix)`, the prefix first.
abbrev pub starts_with : Text → Text → Bool
starts_with [] s = true
starts_with (c ∷ p) [] = false
starts_with (c ∷ p) (d ∷ s) = (c == d) && starts_with p s

-- The order of Python's strings.
abbrev pub is_before : Text → Text → Bool
is_before [] [] = false
is_before [] (d ∷ t) = true
is_before (c ∷ s) [] = false
is_before (c ∷ s) (d ∷ t) = ltb c d || ((c == d) && is_before s t)

pub same_text_refl : (s : Text) → same_text s s ≡ true
same_text_refl [] = refl
same_text_refl (c ∷ s) = ground (arith, same_text_refl s)

pub same_text-eq : (s t : Text) → same_text s t ≡ true → s ≡ t
same_text-eq [] [] h = refl
same_text-eq [] (d ∷ t) h = cc
same_text-eq (c ∷ s) [] h = cc
same_text-eq (c ∷ s) (d ∷ t) h = ground (arith, same_text-eq s t)

pub differs : (s t : Text) → s ≢ t → same_text s t ≡ false
differs s t h = elim (Bool-cases (same_text s t)) [
  | inl e ↦ absurd (h (same_text-eq s t e))
  | inr e ↦ e
]
