-- ===== src/Fiscal/Stamp.antt =====
-- `apply_output_status` of backend/app/domain/fiscal/output_status.py, which stamps a compiled
-- package, and `_replace_trust_warning`.
pub mod Restamp
use solo_lmnp.Prelude.{
  ℕ, ◌≡◌, refl, Bool, true, false, Option, none, some, List, [], ◌∷◌, ◌++◌, ◌&&◌, not,
  if◌then◌else◌,
}
use solo_lmnp.Prelude.Text.{Text, codes, same_text, mem_text}
use solo_lmnp.Fiscal.Validation.{Platform, load_validation}
use solo_lmnp.Fiscal.Trust.{
  Trust, recherche, provisoire, declarable, Summary, classify, is_declarable,
}

-- An item of `warnings`: its code where it is a dictionary with a code that is a text; `none` stands
-- for any other item, which is always kept. A message is a function of its code.
abbrev pub Warning : Type 0
Warning = Option Text

-- A compiled package, as far as the stamp reads or writes it. `has_errors` is the truth of
-- `errors`. `fields` are the statuses of the fields that are dictionaries. `summary` is what
-- `package.update` wrote, and what `declarable` was is overwritten by it.
pub record Package : Type 0 where
  pub vintage : Text
  pub status : Text
  pub declarable : Bool
  pub has_errors : Bool
  pub copy_complete : Option Bool
  pub fields : List Text
  pub warnings : List Warning
  pub summary : Option Summary

abbrev pub is_managed : Warning → Bool
is_managed none = false
is_managed (some code) = mem_text code (codes "RESEARCH_ONLY" ∷ codes "OUTPUT_PROVISOIRE" ∷ [])

unfoldable pub unmanaged : List Warning → List Warning
unmanaged [] = []
unmanaged (w ∷ ws) = if is_managed w then unmanaged ws else w ∷ unmanaged ws

abbrev pub trust_warning : Trust → List Warning
trust_warning recherche = some (codes "RESEARCH_ONLY") ∷ []
trust_warning provisoire = some (codes "OUTPUT_PROVISOIRE") ∷ []
trust_warning declarable = []

unfoldable pub replace_trust_warning : Trust → List Warning → List Warning
unfolding unmanaged
replace_trust_warning trust warnings = unmanaged warnings ++ trust_warning trust

-- `"research_only" if trust == OUTPUT_RECHERCHE else trust`
abbrev pub shown_status : Trust → Text
shown_status recherche = codes "research_only"
shown_status provisoire = codes "provisoire"
shown_status declarable = codes "declarable"

abbrev pub all_to : Text → List Text → List Text
all_to status [] = []
all_to status (_ ∷ rest) = status ∷ all_to status rest

-- `copy_complete` is set where the package has none.
abbrev pub first_copy_complete : Package → Option Bool → Bool
first_copy_complete bundle none =
    same_text bundle.status (codes "ready") && (bundle.declarable && not bundle.has_errors)
first_copy_complete bundle (some b) = b

module _ (p : Platform) where
  unfoldable pub stamp_with : Summary → Package → Package
  unfolding replace_trust_warning
  stamp_with summary bundle = record bundle {
    status = shown_status summary.output_status;
    declarable = summary.declarable;
    copy_complete = some summary.copy_complete;
    fields = all_to (shown_status summary.output_status) bundle.fields;
    warnings = replace_trust_warning summary.output_status bundle.warnings;
    summary = some summary;
  }

  unfoldable pub apply_output_status : Package → Bool → Option Bool → Package
  unfolding load_validation classify stamp_with
  apply_output_status bundle year_closed fec_blocked =
      stamp_with
        (classify p (load_validation p bundle.vintage)
          (first_copy_complete bundle bundle.copy_complete) year_closed true fec_blocked)
        bundle
