-- ===== src/Fiscal/Stamp/Restamp.antt =====
-- Stamping a package again.
use solo_lmnp.Prelude.{◌≡◌, refl, ap, Bool, true, Option, List, [], ◌∷◌, ◌++◌, Bool-cases, inl, inr}
use solo_lmnp.Prelude.Text.{Text}
use solo_lmnp.Fiscal.Validation.{Platform, load_validation}
use solo_lmnp.Fiscal.Trust.{Trust, recherche, provisoire, declarable, Summary, classify}
use solo_lmnp.Fiscal.Stamp.{
  Warning, Package, is_managed, unmanaged, trust_warning, replace_trust_warning, shown_status,
  all_to, first_copy_complete, stamp_with, apply_output_status,
}

unmanaged-append :
    (ws : List Warning) (t : Trust) → unmanaged (unmanaged ws ++ trust_warning t) ≡ unmanaged ws
unfolding unmanaged
unmanaged-append [] recherche = refl
unmanaged-append [] provisoire = refl
unmanaged-append [] declarable = refl
unmanaged-append (w ∷ ws) t = elim (Bool-cases (is_managed w)) [
  | inl e ↦ rw e (unmanaged-append ws t)
  | inr e ↦ rw (e, e) (ap (λ l. w ∷ l) (unmanaged-append ws t))
]

all_to-all_to : (s t : Text) (l : List Text) → all_to s (all_to t l) ≡ all_to s l
all_to-all_to s t [] = refl
all_to-all_to s t (_ ∷ rest) = ap (λ l. s ∷ l) (all_to-all_to s t rest)

stamp_with-stamp_with :
    (p : Platform) (s s' : Summary) (k : Package)
    → stamp_with p s' (stamp_with p s k) ≡ stamp_with p s' k
unfolding stamp_with replace_trust_warning
stamp_with-stamp_with p s s' k =
    rw
      (
        unmanaged-append k.warnings s.output_status,
        all_to-all_to (shown_status s'.output_status) (shown_status s.output_status) k.fields,
      )
      refl

-- Stamping a package again, with other facts of its year and of its FEC, gives the package that the
-- second stamp alone gives.
pub apply_output_status-apply_output_status :
    (p : Platform) (k : Package) (year_closed year_closed' : Bool)
    → (fec_blocked fec_blocked' : Option Bool)
    → apply_output_status p
        (apply_output_status p k year_closed fec_blocked)
        year_closed'
        fec_blocked'
      ≡ apply_output_status p k year_closed' fec_blocked'
unfolding apply_output_status stamp_with classify
apply_output_status-apply_output_status p k y y' f f' =
    let again = λ (b : Option Bool). λ (closed : Bool).
      classify p (load_validation p k.vintage) (first_copy_complete k k.copy_complete) closed true
        b in
    stamp_with-stamp_with p (again f y) (again f' y') k
