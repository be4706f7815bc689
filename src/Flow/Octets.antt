-- ===== src/Flow/Octets.antt =====
-- src/flow.rs: the octet string that a detached signature covers, against the fields of the request
-- that are consumed.
pub mod Agreement
use risaml.Prelude.{
  String, Bool, true, false, ◌||◌, not, Option, none, some, List, [], ◌∷◌, Result, ok, err, ◌>>=◌,
  ◌>>◌, fail_if, ok_or, ◌==◌, string_eq, option_eq, if◌then◌else◌,
}
use risaml.Prelude.Text.{concat}
use risaml.Constants.{Binding, ParserType, query_param}
use risaml.Errors.{SamlError, SamlResult, SignatureVerificationReason, RelayStateParam}
use risaml.Libraries.Web.{UrlLibrary}
use risaml.Model.Relay.{try_from_option}
use risaml.Flow.Params.{Parameters, HttpRequest, single_param, query_get, body_get}

abbrev pub missing_binding_parameter : String → SamlError
missing_binding_parameter name = SamlError.missing_binding_parameter name

abbrev pub detached_signature_verification : SamlError
detached_signature_verification =
    SamlError.signature_verification SignatureVerificationReason.detached_message_signature

abbrev relay_state_param : Option String → Option RelayStateParam
relay_state_param value = elim (try_from_option value) [ ok param ↦ some param | err _ ↦ none ]

unfoldable pub detached_relay_state_mismatch : Option String → Option String → SamlError
detached_relay_state_mismatch expected actual = elim (relay_state_param expected) [
  | none ↦ SamlError.signature_verification SignatureVerificationReason.relay_state_correlation
  | some e ↦ elim (relay_state_param actual) [
    | none ↦ SamlError.signature_verification SignatureVerificationReason.relay_state_correlation
    | some a ↦ SamlError.relay_state_mismatch e a
  ]
]

abbrev pub is_present : Option String → Bool
is_present none = false
is_present (some _) = true

module _ (urls : UrlLibrary) (parser_type : ParserType) (request : HttpRequest) where
  unfoldable pub ensure_redirect_octet_matches_consumed_fields :
      String → String → SamlResult (Unit {0})
  ensure_redirect_octet_matches_consumed_fields sig_alg octet = do
    let direction = query_param parser_type
    let signed = urls.form_parse octet
    signature ← single_param signed "Signature"
    fail_if (is_present signature) detached_signature_verification
    found ← single_param signed direction
    signed_message ← ok_or found (missing_binding_parameter direction)
    given ← query_get request direction
    consumed_message ← ok_or given (missing_binding_parameter direction)
    fail_if (not (signed_message == consumed_message)) detached_signature_verification
    algorithm ← single_param signed "SigAlg"
    signed_sig_alg ← ok_or algorithm (missing_binding_parameter "SigAlg")
    fail_if (not (signed_sig_alg == sig_alg)) detached_signature_verification
    signed_relay_state ← single_param signed "RelayState"
    consumed_relay_state ← query_get request "RelayState"
    fail_if (not (signed_relay_state == consumed_relay_state))
        (detached_relay_state_mismatch signed_relay_state consumed_relay_state)
    ok tt

-- The octet strings that fit a message, its RelayState and its algorithm.
unfoldable pub simplesign_octets : String → String → Option String → String → List String
simplesign_octets direction xml (some relay) sig_alg =
    concat (direction ∷ "=" ∷ xml ∷ "&RelayState=" ∷ relay ∷ "&SigAlg=" ∷ sig_alg ∷ []) ∷ []
simplesign_octets direction xml none sig_alg =
    concat (direction ∷ "=" ∷ xml ∷ "&SigAlg=" ∷ sig_alg ∷ [])
    ∷ concat (direction ∷ "=" ∷ xml ∷ "&RelayState=&SigAlg=" ∷ sig_alg ∷ [])
    ∷ []

abbrev pub is_one_of : String → List String → Bool
is_one_of octet [] = false
is_one_of octet (expected ∷ rest) = octet == expected || is_one_of octet rest

module _ (parser_type : ParserType) (request : HttpRequest) (xml : String) where
  unfoldable pub ensure_simplesign_octet_matches_consumed_fields :
      String → String → SamlResult (Unit {0})
  ensure_simplesign_octet_matches_consumed_fields sig_alg octet = do
    let direction = query_param parser_type
    message ← body_get request direction
    present ← ok_or message (missing_binding_parameter direction)
    relay_state ← body_get request "RelayState"
    fail_if (not (is_one_of octet (simplesign_octets direction xml relay_state sig_alg)))
        detached_signature_verification
    ok tt

unfoldable pub ensure_detached_octet_matches_consumed_fields :
    UrlLibrary
    → Binding
    → ParserType
    → HttpRequest
    → String
    → String
    → String
    → SamlResult (Unit {0})
ensure_detached_octet_matches_consumed_fields urls Binding.redirect parser_type request xml sig_alg
      octet =
    ensure_redirect_octet_matches_consumed_fields urls parser_type request sig_alg octet
ensure_detached_octet_matches_consumed_fields urls Binding.simple_sign parser_type request xml
      sig_alg octet =
    ensure_simplesign_octet_matches_consumed_fields parser_type request xml sig_alg octet
ensure_detached_octet_matches_consumed_fields urls _ parser_type request xml sig_alg octet = ok tt
