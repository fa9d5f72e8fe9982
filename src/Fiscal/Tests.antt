-- ===== src/Fiscal/Tests.antt =====
-- Concrete runs of the output status.
use solo_lmnp.Prelude.{
  ◌≤◌, ◌≡◌, refl, ◌↔◌, true, false, none, some, [], ◌∷◌, ◌&&◌, leb, ◌==◌, length,
}
use solo_lmnp.Prelude.Text.{Text, codes, mem_text}
use solo_lmnp.Prelude.{List, ◌||◌}
use solo_lmnp.Fiscal.Blocks.{cession, plus_value, disposal_rules, triggered_rule_ids}
use solo_lmnp.Fiscal.Blocked.{is_given_by_one, mem_text-triggered_rule_ids}
use solo_lmnp.Prelude.Json.{bool, text, array, object, no_items, item, Members, no_members, member}
use solo_lmnp.Fiscal.Validation.{
  Platform, load_validation, is_validated, rules_aligned, rules_version, research_record,
}
use solo_lmnp.Fiscal.Trust.{
  posture_provisoire, posture_finale, export_slot, or_false, classify, resolve_trust,
  liasse_posture, artifact_posture, controlled_fec_posture,
}
use solo_lmnp.Fiscal.Trust.Postures.{rank, IsAttested, classify-final, classify-fec_le_liasse}
use solo_lmnp.Fiscal.Stamp.{Package, apply_output_status}
use solo_lmnp.Fiscal.Stamp.Restamp.{apply_output_status-apply_output_status}
use solo_lmnp.Fiscal.Exports.{Exports, stamp_slots, slot_of, liasse_slot, align_controlled_exports}
use solo_lmnp.Fiscal.Exports.Aligned.{align-fec_le_liasse}

abbrev attestation : Members
attestation = member (codes "vintage") (text (codes "2024")) (
    member (codes "status") (text (codes "validated")) (
      member (codes "declarable") (bool true) (
        member (codes "version") (text (codes "1")) (
          member (codes "rules_version") (text (codes "7")) (
            member (codes "validated_on") (text (codes "2025-01-31")) (
              member (codes "official_source")
                (object (
                  member (codes "reference") (text (codes "BOI"))
                    (member (codes "url") (text (codes "https://a")) no_members)))
                (member (codes "scope")
                  (object (
                    member (codes "activity") (text (codes "LMNP")) (
                      member (codes "regime") (text (codes "reel")) (
                        member (codes "excluded") (array (item (text (codes "TVA")) no_items))
                          no_members))))
                  no_members)))))))

-- ASCII digits and blanks, any text of ten characters as a date, and one vintage on disk.
abbrev disk : Platform
disk = record {
  is_digit = λ c. leb b'0' c && leb c b'9';
  is_space = λ c. c == b' ';
  is_iso_date = λ t. length t == 10;
  validation_file = λ vintage. some (some (object attestation));
  rules_file =
      λ vintage. some (some (object (member (codes "version") (text (codes "7")) no_members)));
}

attested_run :
    (classify disk (load_validation disk (codes "2024")) true true true (some false)).fec.posture
    ≡ posture_finale
unfolding load_validation classify is_validated rules_aligned rules_version resolve_trust
    liasse_posture artifact_posture controlled_fec_posture export_slot
attested_run = refl

other_vintage_run :
    (classify disk (load_validation disk (codes "2023")) true true true none).liasse.posture
    ≡ posture_provisoire
unfolding load_validation research_record classify is_validated resolve_trust liasse_posture
    artifact_posture controlled_fec_posture export_slot
other_vintage_run = refl

classify-final_example :
    ((classify disk attestation true true true (some true)).liasse.posture ≡ posture_finale
      ↔ (IsAttested disk attestation × (true ≡ true) × (true ≡ true) × (true ≡ true)))
    × ((classify disk attestation true true true (some true)).fec.posture ≡ posture_finale ↔ (
        ((classify disk attestation true true true (some true)).liasse.posture ≡ posture_finale)
        × (or_false (some true) ≡ false)))
classify-final_example = classify-final disk attestation true true true (some true)

classify-fec_le_liasse_example :
    (rank (classify disk attestation true false true none).fec.posture
      ≤ rank (classify disk attestation true false true none).liasse.posture)
    × ((classify disk attestation true false true none).archive
        ≡ (classify disk attestation true false true none).fec)
    × ((classify disk attestation true false true none).archive.download ≡ true
        → (classify disk attestation true false true none).liasse.download ≡ true)
classify-fec_le_liasse_example = classify-fec_le_liasse disk attestation true false true none

abbrev compiled : Package
compiled = record {
  vintage = codes "2024";
  status = codes "ready";
  declarable = true;
  has_errors = false;
  copy_complete = none;
  fields = codes "ready" ∷ codes "ready" ∷ [];
  warnings = some (codes "ROUNDED") ∷ some (codes "RESEARCH_ONLY") ∷ none ∷ [];
  summary = none;
}

apply_output_status-apply_output_status_example :
    apply_output_status disk (apply_output_status disk compiled false none) true (some false)
    ≡ apply_output_status disk compiled true (some false)
apply_output_status-apply_output_status_example =
    apply_output_status-apply_output_status disk compiled false true none (some false)

abbrev read_exports : Exports
read_exports =
    (codes "liasse", some posture_provisoire)
    ∷ (codes "fec", some posture_finale)
    ∷ (codes "pdf", none)
    ∷ []

align-fec_le_liasse_example :
    (slot_of (codes "archive") (export_slot none) (align_controlled_exports read_exports true false)
      ≡ slot_of (codes "fec") (export_slot none) (align_controlled_exports read_exports true false))
    × (rank
          (slot_of
            (codes "fec")
            (export_slot none)
            (align_controlled_exports read_exports true false)).posture
        ≤ rank (liasse_slot (align_controlled_exports read_exports true false)).posture)
    × (liasse_slot (align_controlled_exports read_exports true false)
        ≡ liasse_slot (stamp_slots read_exports))
align-fec_le_liasse_example = align-fec_le_liasse read_exports true false (export_slot none)

abbrev sold : List Text
sold = codes "775000" ∷ codes "706000" ∷ codes "445710" ∷ codes "775000" ∷ []

triggered_sold :
    triggered_rule_ids sold true ≡ codes "RULE-BLOCKED-TVA-001" ∷ cession ∷ plus_value ∷ []
unfolding triggered_rule_ids
triggered_sold = refl

mem_text-triggered_rule_ids_example :
    mem_text cession (triggered_rule_ids sold false)
    ≡ is_given_by_one cession sold || (false && mem_text cession disposal_rules)
mem_text-triggered_rule_ids_example = mem_text-triggered_rule_ids cession sold false
