-- ===== src/Fiscal/Trust.antt =====
-- The trust of a fiscal output and the postures of its exports: `resolve_trust`,
-- `artifact_posture`, `controlled_fec_posture`, `classify`, `presentation`, `export_slot` and
-- `align_controlled_exports` of backend/app/domain/fiscal/output_status.py.
pub mod Postures
use solo_lmnp.Prelude.{
  Bool, true, false, Option, none, some, List, [], ◌∷◌, ◌&&◌, ◌||◌, not, if◌then◌else◌,
}
use solo_lmnp.Prelude.Text.{Text, codes, same_text}
use solo_lmnp.Prelude.Json.{Members}
use solo_lmnp.Fiscal.Validation.{Platform, is_validated, rules_aligned, load_validation}

pub data Trust : Type 0 where
  recherche provisoire declarable : Trust

pub data Posture : Type 0 where
  posture_provisoire posture_bloquee posture_finale : Posture

abbrev pub is_declarable : Trust → Bool
is_declarable recherche = false
is_declarable provisoire = false
is_declarable declarable = true

abbrev pub is_bloquee : Posture → Bool
is_bloquee posture_provisoire = false
is_bloquee posture_bloquee = true
is_bloquee posture_finale = false

unfoldable pub resolve_trust : Bool → Bool → Bool → Trust
resolve_trust record_valid rules_aligned copy_complete =
    if not record_valid
    then recherche
    else if not rules_aligned || not copy_complete
    then provisoire
    else declarable

unfoldable pub artifact_posture : Bool → Bool → Bool → Posture
artifact_posture produced blocked final =
    if not produced || blocked
    then posture_bloquee
    else if final
    then posture_finale
    else posture_provisoire

-- A posture as it is read from a mapping: `none` is a text that is not in `POSTURES`.
abbrev pub known : Option Posture → Posture
known none = posture_bloquee
known (some p) = p

abbrev pub follow : Posture → Posture
follow posture_finale = posture_finale
follow posture_bloquee = posture_bloquee
follow posture_provisoire = posture_provisoire

unfoldable pub controlled_fec_posture : Option Posture → Bool → Bool → Posture
controlled_fec_posture liasse year_closed fec_blocked =
    if not year_closed || (fec_blocked || is_bloquee (known liasse))
    then posture_bloquee
    else follow (known liasse)

-- What the screen says of a trust. A research disclaimer says whether the copy is complete.
pub data Disclaimer : Type 0 where
  ready_to_copy not_declarable : Disclaimer
  research_only : Bool → Disclaimer

pub record Presentation : Type 0 where
  pub output_label : Text
  pub output_headline : Text
  pub disclaimer : Disclaimer

unfoldable pub presentation : Trust → Bool → Presentation
presentation declarable copy_complete = record {
  output_label = codes "Déclarable";
  output_headline = codes "Déclarable — Prête à recopier";
  disclaimer = ready_to_copy;
}
presentation provisoire copy_complete = record {
  output_label = codes "Provisoire";
  output_headline = codes "Provisoire";
  disclaimer = not_declarable;
}
presentation recherche copy_complete = record {
  output_label = codes "Recherche";
  output_headline = codes "Recherche";
  disclaimer = research_only copy_complete;
}

pub record Slot : Type 0 where
  pub posture : Posture
  pub download : Bool

-- The label of a slot is a function of its posture.
unfoldable pub export_slot : Option Posture → Slot
export_slot raw = record { posture = known raw; download = not (is_bloquee (known raw)) }

pub record Summary : Type 0 where
  pub output_status : Trust
  pub shown : Presentation
  pub declarable : Bool
  pub copy_complete : Bool
  pub export_posture : Posture
  pub liasse : Slot
  pub pdf : Slot
  pub fec : Slot
  pub archive : Slot
  pub validation : Members
  pub effective : Bool

-- `False if fec_blocked is None else fec_blocked`
abbrev pub or_false : Option Bool → Bool
or_false none = false
or_false (some b) = b

unfoldable pub liasse_posture : Trust → Bool → Bool → Bool → Posture
unfolding artifact_posture
liasse_posture trust copy_complete year_closed produced =
    artifact_posture produced (not copy_complete)
      (is_declarable trust && (year_closed && copy_complete))

module _ (p : Platform) where
  unfoldable pub classify : Members → Bool → Bool → Bool → Option Bool → Summary
  unfolding is_validated rules_aligned resolve_trust liasse_posture controlled_fec_posture
      presentation export_slot
  classify validation copy_complete year_closed produced fec_blocked =
      let record_valid = is_validated p validation in
      let aligned = rules_aligned p validation in
      let trust = resolve_trust record_valid aligned copy_complete in
      let liasse = liasse_posture trust copy_complete year_closed produced in
      let fec = controlled_fec_posture (some liasse) year_closed (or_false fec_blocked) in
      record {
        output_status = trust;
        shown = presentation trust copy_complete;
        declarable = is_declarable trust;
        copy_complete = copy_complete;
        export_posture = liasse;
        liasse = export_slot (some liasse);
        pdf = export_slot (some liasse);
        fec = export_slot (some fec);
        archive = export_slot (some fec);
        validation = validation;
        effective = record_valid && aligned;
      }

  unfoldable pub calculation_status : Text → Summary
  unfolding load_validation classify
  calculation_status vintage = classify (load_validation p vintage) true false true none
