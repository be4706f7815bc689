-- ===== src/Flow/Run.antt =====
-- src/flow.rs: the whole flow of an inbound message.
pub mod Trusted
pub mod Screened
use risaml.Prelude.{
  String, Bool, true, false, ◌&&◌, Option, none, some, List, [], ◌∷◌, ok, err, ◌>>=◌, ◌>>◌, ok_or,
  map_ok, ◌==◌, if◌then◌else◌,
}
use risaml.Constants.{Binding, ParserType, parser_type_eq}
use risaml.Errors.{SamlError, SamlResult}
use risaml.Libraries.Unicode.{UnicodeLibrary}
use risaml.Libraries.Xml.{XmlLibrary}
use risaml.Util.Value.{Value, get_str}
use risaml.Validator.Status.{is_valid_xml_with_limits, check_status_with_limits}
use risaml.Xml.Dom.{XmlLimits}
use risaml.Xml.Extract.{ExtractorField, new, with_context, extract_with_limits}
use risaml.Xml.Fields.{
  login_request_fields, login_response_fields, logout_request_fields, logout_response_fields,
}
use risaml.Xml.Profile.{validate_protocol_profile}
use risaml.Flow.Context.{validate_context}
use risaml.Flow.Decode.{decode_message}
use risaml.Flow.Detached.{verify_detached}
use risaml.Flow.Octets.{missing_binding_parameter}
use risaml.Flow.Options.{
  Environment, FlowOptions, AssertionSignatureRequirement, is_direct, ResponseSignatureRequirement,
  PreparedMessage,
}
use risaml.Flow.Params.{HttpRequest}
use risaml.Flow.Prepare.{verify_and_prepare}

pub record FlowResult : Type 0 where
  pub saml_content : String
  pub extract : Value
  pub sig_alg : Option String

unfoldable pub default_fields : ParserType → Option String → SamlResult (List ExtractorField)
default_fields ParserType.saml_request assertion = ok login_request_fields
default_fields ParserType.saml_response assertion =
    map_ok login_response_fields (ok_or assertion (SamlError.xml "ERR_EMPTY_ASSERTION"))
default_fields ParserType.logout_request assertion = ok logout_request_fields
default_fields ParserType.logout_response assertion = ok logout_response_fields

unfoldable pub assertion_shortcut :
    UnicodeLibrary → XmlLibrary → String → XmlLimits → SamlResult (Option String)
assertion_shortcut unicode xml source limits = do
  extracted ←
      extract_with_limits unicode xml limits source
        (with_context (new "assertion" ("Response" ∷ "Assertion" ∷ [])) ∷ [])
  ok (get_str extracted "assertion")

abbrev pub is_detached : Binding → Bool
is_detached Binding.redirect = true
is_detached Binding.simple_sign = true
is_detached _ = false

-- The content, the assertion, the algorithm of a detached signature, and whether the response is
-- authenticated.
pub record Authenticated : Type 0 where
  pub saml_content : String
  pub assertion : Option String
  pub sig_alg : Option String
  pub response_authenticated : Bool

abbrev pub authenticated : PreparedMessage → Option String → Bool → Authenticated
authenticated p sig_alg flag = record {
  saml_content = p.saml_content;
  assertion = p.assertion;
  sig_alg = sig_alg;
  response_authenticated = flag;
}

module _ (env : Environment) (opts : FlowOptions) (request : HttpRequest) where
  -- The message as it came, with the assertion of a response.
  unfoldable pub prepare_plain : String → ParserType → SamlResult PreparedMessage
  prepare_plain source parser_type = do
    assertion ←
        (if parser_type == ParserType.saml_response
          then assertion_shortcut env.unicode env.xml source opts.xml_limits
          else ok none)
    ok (record { saml_content = source; assertion = assertion; response_authenticated = false })

  unfoldable pub authenticate_detached :
      Binding → ParserType → String → AssertionSignatureRequirement → SamlResult Authenticated
  authenticate_detached binding parser_type source assertion_signature = do
    sig_alg ←
        verify_detached env.crypto env.codec env.urls binding parser_type request opts.signing_certs
          source
    prepared ←
        (if parser_type == ParserType.saml_response && is_direct assertion_signature
          then verify_and_prepare env opts source parser_type assertion_signature
              ResponseSignatureRequirement.optional
          else prepare_plain source parser_type)
    ok (authenticated prepared (some sig_alg) true)

  unfoldable pub authenticate_embedded :
      ParserType
      → String
      → AssertionSignatureRequirement
      → ResponseSignatureRequirement
      → SamlResult Authenticated
  authenticate_embedded parser_type source assertion_signature response_signature = do
    prepared ← verify_and_prepare env opts source parser_type assertion_signature response_signature
    ok (authenticated prepared none prepared.response_authenticated)

  unfoldable pub authenticate :
      Binding
      → ParserType
      → String
      → AssertionSignatureRequirement
      → ResponseSignatureRequirement
      → SamlResult Authenticated
  authenticate binding parser_type source assertion_signature response_signature =
      if opts.check_signature
      then if is_detached binding
        then authenticate_detached binding parser_type source assertion_signature
        else authenticate_embedded parser_type source assertion_signature response_signature
      else (prepare_plain source parser_type >>= λ prepared. ok (authenticated prepared none false))

  -- The message as text, behind the checks that need no key.
  unfoldable pub read_message : Binding → ParserType → SamlResult String
  read_message binding parser_type = do
    source ←
        decode_message env.codec binding parser_type request opts.redirect_inflate_max_bytes
          opts.xml_limits
    is_valid_xml_with_limits env.xml env.schema source opts.xml_limits
    validate_protocol_profile env.xml source parser_type opts.xml_limits
    check_status_with_limits env.unicode env.xml source parser_type opts.xml_limits
    ok source

  unfoldable pub flow_inner :
      Option String
      → AssertionSignatureRequirement
      → ResponseSignatureRequirement
      → SamlResult FlowResult
  flow_inner expected_recipient assertion_signature response_signature = do
    binding ← ok_or opts.binding (missing_binding_parameter "binding")
    parser_type ← ok_or opts.parser_type (SamlError.invalid "ERR_UNDEFINED_PARSERTYPE")
    source ← read_message binding parser_type
    a ← authenticate binding parser_type source assertion_signature response_signature
    fields ← default_fields parser_type a.assertion
    extracted ← extract_with_limits env.unicode env.xml opts.xml_limits a.saml_content fields
    validate_context env opts parser_type a.assertion extracted expected_recipient
        a.response_authenticated
    ok (record { saml_content = a.saml_content; extract = extracted; sig_alg = a.sig_alg })

  unfoldable pub flow : SamlResult FlowResult
  flow =
      flow_inner none AssertionSignatureRequirement.compatible ResponseSignatureRequirement.optional

  unfoldable pub flow_with_expected_recipient :
      String → AssertionSignatureRequirement → ResponseSignatureRequirement → SamlResult FlowResult
  flow_with_expected_recipient expected_recipient assertion_signature response_signature =
      flow_inner (some expected_recipient) assertion_signature response_signature
