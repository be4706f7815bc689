-- ===== src/Errors.antt =====
-- src/error.rs: the error values. An error that wraps one of a foreign library carries its text.
-- `RelayStateParam` (src/model/relay.rs) stands here because an error carries two of them.
use risaml.Prelude.{String, Option, Result}
use risaml.Constants.{Binding}

pub data SignatureVerificationReason : Type 0 where
  xml_signature detached_message_signature : SignatureVerificationReason
  relay_state_correlation reference_digest : SignatureVerificationReason

pub data ReferenceResolutionReason : Type 0 where
  external_reference unsupported_reference_uri : ReferenceResolutionReason
  missing_signature_reference unresolved_reference : ReferenceResolutionReason

pub data SubjectConfirmationReason : Type 0 where
  invalid_method missing_not_on_or_after time_window_invalid : SubjectConfirmationReason
  recipient_mismatch in_response_to_mismatch : SubjectConfirmationReason
  missing_bearer_confirmation : SubjectConfirmationReason

pub data TimeWindowField : Type 0 where
  idp_issuance_expiration logout_request_not_on_or_after : TimeWindowField
  session_not_on_or_after conditions replay_expiration : TimeWindowField
  metadata_valid_until pending_request_expiration : TimeWindowField

pub record RelayState : Type 0 where
  pub text : String

pub data RelayStateParam : Type 0 where
  absent present_empty : RelayStateParam
  present_value : RelayState → RelayStateParam

pub data SamlError : Type 0 where
  deflate base64 xml invalid protocol_profile unsupported : String → SamlError
  unsupported_binding : Binding → SamlError
  issuer_mismatch : String → Option String → SamlError
  destination_mismatch : String → Option String → SamlError
  in_response_to_mismatch : Option String → Option String → SamlError
  relay_state_mismatch : RelayStateParam → RelayStateParam → SamlError
  audience_mismatch : String → SamlError
  status_not_success : String → Option String → SamlError
  time_window_invalid : TimeWindowField → SamlError
  subject_confirmation_invalid : SubjectConfirmationReason → SamlError
  replay_detected : String → SamlError
  signature_missing : SamlError
  missing_binding_parameter : String → SamlError
  signature_verification : SignatureVerificationReason → SamlError
  reference_resolution : ReferenceResolutionReason → SamlError
  signed_reference_mismatch assertion_signature_required : SamlError
  no_trusted_certificate certificate_mismatch : SamlError
  unmatch_issuer unmatch_audience unmatch_destination : SamlError
  invalid_in_response_to undefined_status : SamlError
  failed_status : String → String → SamlError
  expired_session subject_unconfirmed potential_wrapping_attack : SamlError
  missing_sig_alg failed_message_signature_verification : SamlError
  failed_to_verify_signature unmatch_certificate undefined_binding : SamlError
  missing_metadata missing_key crypto : String → SamlError

-- `Result<A, SamlError>`.
abbrev pub SamlResult : Type 0 → Type 0
SamlResult A = Result SamlError A

-- `Result` of a foreign library: its error by its text.
abbrev pub Foreign : Type 0 → Type 0
Foreign A = Result String A
