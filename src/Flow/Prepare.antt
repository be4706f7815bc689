-- ===== src/Flow/Prepare.antt =====
-- src/flow.rs: the embedded signatures of a message, its decryption, and the content that is used.
pub mod Cbc
pub mod Responded
pub mod Origin
use risaml.Prelude.{
  String, Bool, true, false, ◌&&◌, ◌||◌, not, Option, none, some, List, [], ◌∷◌, any, filter,
  filter_map, ok, err, ◌>>=◌, ◌>>◌, fail_if, ok_or, ◌==◌, string_eq, if◌then◌else◌,
}
use risaml.Constants.{ParserType, parser_type_eq, is_xml_encryption_cbc_algorithm}
use risaml.Errors.{SamlError, SamlResult, SignatureVerificationReason}
use risaml.Libraries.Xml.{XmlLibrary}
use risaml.Validator.Status.{is_valid_xml_with_limits}
use risaml.Xml.Dom.{XmlLimits}
use risaml.Xml.Dom.Tree.{Node, local_name, children, attr}
use risaml.Xml.Dom.Parse.{parse_with_limits}
use risaml.Xml.Profile.{validate_protocol_profile}
use risaml.Crypto.Decrypt.{child, require_software_rsa_opt_in, decrypt_assertion_with_limits}
use risaml.Crypto.Keys.{load_private_key}
use risaml.Crypto.Verify.{
  is_some, has_xml_signature_with_limits, SignatureVerification,
  verify_signatures_detailed_with_limits,
}
use risaml.Flow.Options.{
  Environment, FlowOptions, AssertionSignatureRequirement, is_direct, ResponseSignatureRequirement,
  PreparedMessage,
}

unfoldable pub required_xml_signature_failed : Bool → SamlError
required_xml_signature_failed true =
    SamlError.signature_verification SignatureVerificationReason.xml_signature
required_xml_signature_failed false = SamlError.signature_missing

unfoldable pub require_direct_assertion_coverage :
    AssertionSignatureRequirement → Bool → SamlResult (Unit {0})
require_direct_assertion_coverage requirement covered =
    fail_if (is_direct requirement && not covered) SamlError.assertion_signature_required

unfoldable pub require_response_coverage : Bool → Bool → SamlResult (Unit {0})
require_response_coverage required covered =
    fail_if (required && not covered) SamlError.signed_reference_mismatch

abbrev child_of : String → Node → Option Node
child_of name n = child n name

-- The algorithms of the encrypted assertions below the root.
abbrev encryption_algorithms : Node → List String
encryption_algorithms root = filter_map (attr "Algorithm") (
    filter_map (child_of "EncryptionMethod") (
      filter_map (child_of "EncryptedData")
        (filter (λ c. local_name c == "EncryptedAssertion") (children root))))

unfoldable pub response_uses_cbc_encrypted_assertion :
    XmlLibrary → String → XmlLimits → SamlResult Bool
response_uses_cbc_encrypted_assertion xml source limits = do
  root ← parse_with_limits xml source limits
  ok (any is_xml_encryption_cbc_algorithm (encryption_algorithms root))

unfoldable pub response_signature_is_required :
    XmlLibrary → ResponseSignatureRequirement → String → XmlLimits → SamlResult Bool
response_signature_is_required xml ResponseSignatureRequirement.optional source limits = ok false
response_signature_is_required xml ResponseSignatureRequirement.required_for_encrypted_cbc source
      limits =
    response_uses_cbc_encrypted_assertion xml source limits
response_signature_is_required xml ResponseSignatureRequirement.required source limits = ok true

abbrev unwrap_or_default : Option String → String
unwrap_or_default none = ""
unwrap_or_default (some s) = s

-- The requirement on the response as it came.
unfoldable pub require_signed_response : Bool → Bool → SignatureVerification → SamlResult (Unit {0})
require_signed_response required signature_present evidence =
    if required
    then fail_if (not evidence.verified) (required_xml_signature_failed signature_present)
      >> require_response_coverage required evidence.response_covered
    else ok tt

module _ (env : Environment) (opts : FlowOptions) where
  -- The evidence is the verification itself, field by field.
  unfoldable pub verify_embedded_signature : String → SamlResult SignatureVerification
  verify_embedded_signature source =
      verify_signatures_detailed_with_limits env.crypto env.xml source opts.signing_certs
        opts.xml_limits

  unfoldable pub load_key : SamlResult env.crypto.Key
  load_key = load_private_key env.crypto (unwrap_or_default opts.decrypt_key) opts.decrypt_key_pass

  -- The document with its assertion decrypted, and checked again.
  unfoldable pub decrypt_and_validate : String → ParserType → SamlResult (String × String)
  decrypt_and_validate source parser_type = do
    key ← load_key
    decrypted ←
        decrypt_assertion_with_limits env.crypto env.xml source key opts.allow_insecure_software_rsa
          opts.xml_limits
    is_valid_xml_with_limits env.xml env.schema decrypted.0 opts.xml_limits
    validate_protocol_profile env.xml decrypted.0 parser_type opts.xml_limits
    ok decrypted

  -- The signature that a part of a decrypted message is to carry.
  unfoldable pub verify_decrypted :
      AssertionSignatureRequirement → String → SamlResult SignatureVerification
  verify_decrypted requirement source = do
    signature_present ← has_xml_signature_with_limits env.xml source opts.xml_limits
    evidence ← verify_embedded_signature source
    fail_if (not evidence.verified) (required_xml_signature_failed signature_present)
    require_direct_assertion_coverage requirement evidence.assertion_directly_covered
    ok evidence

  abbrev pub check_direct : AssertionSignatureRequirement → String → SamlResult (Unit {0})
  check_direct AssertionSignatureRequirement.compatible assertion = ok tt
  check_direct AssertionSignatureRequirement.direct assertion =
      verify_decrypted AssertionSignatureRequirement.direct assertion >>= λ _. ok tt

  -- Signed, then encrypted: the verified content is a response with an encrypted assertion.
  unfoldable pub prepare_signed_then_encrypted :
      ParserType → AssertionSignatureRequirement → Bool → String → SamlResult PreparedMessage
  prepare_signed_then_encrypted parser_type requirement response_covered verified_node = do
    decrypted ← decrypt_and_validate verified_node parser_type
    check_direct requirement decrypted.1
    ok (record {
      saml_content = decrypted.0;
      assertion = some decrypted.1;
      response_authenticated = response_covered;
    })

  -- Encrypted, then signed: the message is decrypted first.
  unfoldable pub prepare_encrypted_then_signed :
      String → ParserType → AssertionSignatureRequirement → SamlResult PreparedMessage
  prepare_encrypted_then_signed source parser_type requirement = do
    decrypted ← decrypt_and_validate source parser_type
    evidence ←
        verify_decrypted requirement (if is_direct requirement then decrypted.1 else decrypted.0)
    ok (record {
      saml_content = decrypted.0;
      assertion = if is_direct requirement then some decrypted.1 else evidence.signed_content;
      response_authenticated = false;
    })

  -- The verified message, without decryption.
  unfoldable pub prepare_verified :
      String
      → ParserType
      → AssertionSignatureRequirement
      → SignatureVerification
      → SamlResult PreparedMessage
  prepare_verified source parser_type requirement evidence = do
    require_direct_assertion_coverage requirement evidence.assertion_directly_covered
    (if parser_type == ParserType.saml_response
        then ok (record {
          saml_content = source;
          assertion = evidence.signed_content;
          response_authenticated = evidence.response_covered;
        })
        else (ok_or evidence.signed_content SamlError.signed_reference_mismatch >>= λ content.
            ok (record {
              saml_content = content;
              assertion = none;
              response_authenticated = evidence.response_covered;
            })))

  -- The branches behind the signature of the message as it came.
  unfoldable pub prepare :
      String
      → ParserType
      → AssertionSignatureRequirement
      → Bool
      → SignatureVerification
      → SamlResult PreparedMessage
  prepare source parser_type requirement signature_present evidence =
      if is_some opts.decrypt_key && not evidence.verified
      then prepare_encrypted_then_signed source parser_type requirement
      else if not evidence.verified
      then err (required_xml_signature_failed signature_present)
      else elim evidence.signed_content [
        | none ↦ prepare_verified source parser_type requirement evidence
        | some verified_node ↦
            if is_some opts.decrypt_key && parser_type == ParserType.saml_response
            then prepare_signed_then_encrypted parser_type requirement evidence.response_covered
                verified_node
            else prepare_verified source parser_type requirement evidence
      ]

  -- `verify_and_prepare`, of a build with a crypto provider.
  unfoldable pub verify_and_prepare :
      String
      → ParserType
      → AssertionSignatureRequirement
      → ResponseSignatureRequirement
      → SamlResult PreparedMessage
  verify_and_prepare source parser_type assertion_signature response_signature = do
    signature_present ← has_xml_signature_with_limits env.xml source opts.xml_limits
    evidence ← verify_embedded_signature source
    required ← response_signature_is_required env.xml response_signature source opts.xml_limits
    require_signed_response required signature_present evidence
    (if is_some opts.decrypt_key
        then require_software_rsa_opt_in env.crypto opts.allow_insecure_software_rsa
        else ok tt)
    prepare source parser_type assertion_signature signature_present evidence
