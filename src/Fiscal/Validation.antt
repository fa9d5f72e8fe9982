-- ===== src/Fiscal/Validation.antt =====
-- The attestation of a vintage: `load_validation`, `is_validated`, `rules_version` and
-- `rules_aligned` of backend/app/domain/fiscal/output_status.py.
--
-- The files of fiscal/<vintage>/, the Unicode tables behind `isdigit` and `strip`, and
-- `date.fromisoformat` are parameters.
use solo_lmnp.Prelude.{
  ℕ, Bool, true, false, Option, none, some, [], ◌∷◌, ◌&&◌, ◌||◌, not, ◌==◌, ltb, length,
  if◌then◌else◌,
}
use solo_lmnp.Prelude.Text.{Text, codes, same_text, starts_with}
use solo_lmnp.Prelude.Json.{
  Json, null, bool, text, Members, no_members, member, get, is_text, is_object, is_filled_list,
  is_true,
}

-- `none`: no such file. `some none`: `json.loads` raises on it.
abbrev pub JsonFile : Type 0
JsonFile = Option (Option Json)

pub record Platform : Type 0 where
  pub is_digit : ℕ → Bool
  pub is_space : ℕ → Bool
  pub is_iso_date : Text → Bool
  pub validation_file : Text → JsonFile
  pub rules_file : Text → JsonFile

abbrev pub all_digits : (ℕ → Bool) → Text → Bool
all_digits is_digit [] = true
all_digits is_digit (c ∷ t) = is_digit c && all_digits is_digit t

-- `bool(value.strip())`
abbrev pub has_ink : (ℕ → Bool) → Text → Bool
has_ink is_space [] = false
has_ink is_space (c ∷ t) = not (is_space c) || has_ink is_space t

module _ (p : Platform) where
  -- `vintage.isdigit() and len(vintage) == 4`
  abbrev pub is_vintage : Text → Bool
  is_vintage t = all_digits p.is_digit t && (length t == 4)

  -- `_text`
  abbrev pub filled : Json → Bool
  filled = is_text (has_ink p.is_space)

  abbrev pub is_url : Text → Bool
  is_url url = starts_with (codes "https://") url && ltb (length (codes "https://")) (length url)

  abbrev pub source_is_complete : Members → Bool
  source_is_complete source =
      filled (get source (codes "reference")) && is_text is_url (get source (codes "url"))

  abbrev pub scope_is_complete : Members → Bool
  scope_is_complete scope =
      filled (get scope (codes "activity"))
      && (filled (get scope (codes "regime"))
          && is_filled_list filled (get scope (codes "excluded")))

  unfoldable pub is_validated : Members → Bool
  is_validated r =
      is_text (λ t. same_text t (codes "validated")) (get r (codes "status"))
      && (is_true (get r (codes "declarable"))
          && (is_text is_vintage (get r (codes "vintage"))
              && (filled (get r (codes "version"))
                  && (filled (get r (codes "rules_version"))
                      && (is_object source_is_complete (get r (codes "official_source"))
                          && (is_text p.is_iso_date (get r (codes "validated_on"))
                              && is_object scope_is_complete (get r (codes "scope"))))))))

  -- The version that a rules document names.
  abbrev pub version_of : JsonFile → Option Text
  version_of (some (some (Json.object document))) = elim (get document (codes "version")) [
    | text t ↦ (if has_ink p.is_space t then some t else none)
    | _ ↦ none
  ]
  version_of _ = none

  unfoldable pub rules_version : Text → Option Text
  rules_version vintage = version_of (p.rules_file vintage)

  abbrev pub same_version : Text → Option Text → Bool
  same_version recorded none = false
  same_version recorded (some version) = same_text recorded version

  unfoldable pub rules_aligned : Members → Bool
  unfolding rules_version
  rules_aligned r =
      is_text
        (λ vintage.
          is_text
            (λ recorded.
              has_ink p.is_space recorded && same_version recorded (rules_version vintage))
            (get r (codes "rules_version")))
        (get r (codes "vintage"))

  -- `_research_record`
  unfoldable pub research_record : Text → Text → Members
  research_record vintage defect = member (codes "vintage") (text vintage) (
      member (codes "version") null (
        member (codes "status") (text (codes "research_only")) (
          member (codes "declarable") (bool false) (
            member (codes "official_source") null (
              member (codes "validated_on") null (
                member (codes "scope") null (
                  member (codes "rules_version") null
                    (member (codes "defect") (text defect) no_members))))))))

  -- The document of the file, where it is an object that names the vintage.
  abbrev pub checked_document : Text → Option Json → Members
  unfolding research_record
  checked_document vintage none = research_record vintage (codes "VALIDATION_UNREADABLE")
  checked_document vintage (some (Json.object document)) =
      if is_text (λ t. same_text t vintage) (get document (codes "vintage"))
      then document
      else research_record vintage (codes "VALIDATION_MISMATCH")
  checked_document vintage (some _) = research_record vintage (codes "VALIDATION_MISMATCH")

  abbrev pub document_of : Text → JsonFile → Members
  unfolding research_record
  document_of vintage none = research_record vintage (codes "VALIDATION_MISSING")
  document_of vintage (some read) = checked_document vintage read

  unfoldable pub load_validation : Text → Members
  unfolding research_record
  load_validation vintage =
      if is_vintage vintage
      then document_of vintage (p.validation_file vintage)
      else research_record vintage (codes "UNKNOWN_VINTAGE")
