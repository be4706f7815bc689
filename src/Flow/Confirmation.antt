-- ===== src/Flow/Confirmation.antt =====
-- src/flow.rs: the bearer confirmation of the subject.
pub mod Sound
use risaml.Prelude.{
  ℕ, suc, String, Bool, true, false, not, Option, none, some, List, [], ◌∷◌, filter_map, ok, err,
  ◌>>=◌, ◌==◌, string_eq, option_eq, if◌then◌else◌, ℤ,
}
use risaml.Errors.{SamlError, SamlResult, SubjectConfirmationReason}
use risaml.Util.Value.{Value, str, array, get, get_str, as_str, to_list}
use risaml.Validator.{verify_time_at}
use risaml.Xml.Extract.{ExtractorField, new, attrs, extract_with_limits}
use risaml.Flow.Options.{Environment, FlowOptions, ClockReading, validation_now}

abbrev pub bearer : String
bearer = "urn:oasis:names:tc:SAML:2.0:cm:bearer"

abbrev confirmations_of : Option Value → List String
confirmations_of (some (str xml)) = xml ∷ []
confirmations_of (some (array items)) = filter_map as_str (to_list items)
confirmations_of _ = []

unfoldable pub subject_confirmation_xmls : Value → List String
subject_confirmation_xmls extracted = confirmations_of (get extracted "subjectConfirmation")

pub data SubjectConfirmationCheck : Type 0 where
  valid : SubjectConfirmationCheck
  invalid : SubjectConfirmationReason → SubjectConfirmationCheck

unfoldable pub confirmation_fields : List ExtractorField
confirmation_fields =
    attrs ("Method" ∷ []) (new "subjectConfirmation" ("SubjectConfirmation" ∷ []))
    ∷ attrs ("NotOnOrAfter" ∷ "Recipient" ∷ "InResponseTo" ∷ [])
        (new "subjectConfirmationData" ("SubjectConfirmation" ∷ "SubjectConfirmationData" ∷ []))
    ∷ []

-- An expectation that is not met: `if let Some(expected) = …`.
abbrev pub differs : Option String → Option String → Bool
differs none actual = false
differs (some expected) actual = not (actual == some expected)

-- `unwrap_or`
abbrev pub reason_or_missing : Option SubjectConfirmationReason → SubjectConfirmationReason
reason_or_missing none = SubjectConfirmationReason.missing_bearer_confirmation
reason_or_missing (some reason) = reason

module _ (env : Environment) (opts : FlowOptions) (expected_recipient : Option String) where
  -- The checks of the data, behind the time window.
  unfoldable pub check_data : Value → SubjectConfirmationCheck
  check_data extracted =
      if differs expected_recipient (get_str extracted "subjectConfirmationData.recipient")
      then invalid SubjectConfirmationReason.recipient_mismatch
      else if differs opts.expected_in_response_to
          (get_str extracted "subjectConfirmationData.inResponseTo")
      then invalid SubjectConfirmationReason.in_response_to_mismatch
      else valid

  unfoldable pub check_bearer_subject_confirmation :
      ℕ → String → SamlResult SubjectConfirmationCheck
  check_bearer_subject_confirmation position xml =
      extract_with_limits env.unicode env.xml opts.xml_limits xml confirmation_fields
      >>= λ extracted. elim (get_str extracted "subjectConfirmation" == some bearer) [
        | false ↦ ok (invalid SubjectConfirmationReason.invalid_method)
        | true ↦ elim (get_str extracted "subjectConfirmationData.notOnOrAfter") [
          | none ↦ ok (invalid SubjectConfirmationReason.missing_not_on_or_after)
          | some not_on_or_after ↦
              validation_now env opts (ClockReading.at_confirmation position) >>= λ now.
              elim (verify_time_at env.time none (some not_on_or_after) opts.clock_drifts now) [
                | false ↦ ok (invalid SubjectConfirmationReason.time_window_invalid)
                | true ↦ ok (check_data extracted)
              ]
        ]
      ]

  -- The loop over the confirmations, with the reason of the last one that failed.
  unfoldable pub try_confirmations :
      ℕ → Option SubjectConfirmationReason → List String → SamlResult (Unit {0})
  try_confirmations position reason [] =
      err (SamlError.subject_confirmation_invalid (reason_or_missing reason))
  try_confirmations position reason (xml ∷ xmls) =
      check_bearer_subject_confirmation position xml >>= λ check. elim check [
        | valid ↦ ok tt
        | invalid current ↦ try_confirmations (suc position) (some current) xmls
      ]

  unfoldable pub validate_subject_confirmation : Value → SamlResult (Unit {0})
  validate_subject_confirmation extracted =
      try_confirmations 0 none (subject_confirmation_xmls extracted)
