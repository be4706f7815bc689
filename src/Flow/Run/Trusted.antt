-- ===== src/Flow/Run/Trusted.antt =====
-- What the whole flow of src/flow.rs promises of a result.
use risaml.Prelude.{
  String, Bool, true, false, Option, none, some, List, ok, >>=-eq-ok, of_ok, ok_or-ok, ok_or, ◌≡◌,
  refl, sym, ◌∙◌, if◌then◌else◌,
}
use risaml.Constants.{Binding, ParserType}
use risaml.Errors.{SamlError, SamlResult}
use risaml.Libraries.Time.{IsLawful}
use risaml.Xml.Extract.{ExtractorField, extract_with_limits}
use risaml.Xml.Fields.{login_response_fields}
use risaml.Flow.Context.{validate_context}
use risaml.Flow.Context.Accepted.{IsAccepted, validate_context-IsAccepted}
use risaml.Flow.Octets.{missing_binding_parameter}
use risaml.Flow.Options.{
  Environment, FlowOptions, AssertionSignatureRequirement, ResponseSignatureRequirement,
  PreparedMessage,
}
use risaml.Flow.Params.{HttpRequest}
use risaml.Flow.Prepare.{verify_and_prepare}
use risaml.Flow.Prepare.Origin.{Origin, verify_and_prepare-Origin}
use risaml.Flow.Run.{
  FlowResult, Authenticated, authenticated, default_fields, is_detached, read_message, authenticate,
  authenticate_embedded, flow_inner,
}

-- The result of a response that was to be signed within: what the request holds was read and
-- attested, the fields were extracted from the attested assertion, and they are accepted.
pub record IsTrusted (env : Environment) (opts : FlowOptions) (request : HttpRequest)
    (binding : Binding) (recipient : Option String) (requirement : AssertionSignatureRequirement)
    (result : FlowResult) : Type 0 where
  pub source : String
  pub is_read : read_message env opts request binding ParserType.saml_response ≡ ok source
  pub prepared : PreparedMessage
  pub origin : Origin env opts source requirement prepared
  pub assertion : String
  pub is_assertion : prepared.assertion ≡ some assertion
  pub is_extracted :
      extract_with_limits env.unicode env.xml opts.xml_limits prepared.saml_content
        (login_response_fields assertion)
      ≡ ok result.extract
  pub is_accepted :
      IsAccepted env opts (some assertion) result.extract recipient prepared.response_authenticated
  pub is_content : result.saml_content ≡ prepared.saml_content

second_branch :
    (c d : Bool) (x y z : SamlResult Authenticated)
    → c ≡ true
    → d ≡ false
    → (if c then if d then x else y else z) ≡ y
second_branch c d x y z e f = rw (e, f)

module _ (env : Environment) (opts : FlowOptions) (request : HttpRequest) where
  -- The steps of a run that succeeds.
  abbrev pub Runs :
      Binding
      → ParserType
      → Option String
      → AssertionSignatureRequirement
      → ResponseSignatureRequirement
      → FlowResult
      → Type 0
  Runs binding parser_type recipient requirement response result =
      (source : String) × (read_message env opts request binding parser_type ≡ ok source)
      × (a : Authenticated) × (authenticate env opts request binding parser_type source requirement
            response
          ≡ ok a)
      × (fields : List ExtractorField) × (default_fields parser_type a.assertion ≡ ok fields)
      × (extract_with_limits env.unicode env.xml opts.xml_limits a.saml_content fields
          ≡ ok result.extract)
      × (validate_context env opts parser_type a.assertion result.extract recipient
            a.response_authenticated
          ≡ ok tt)
      × (result.saml_content ≡ a.saml_content)
      × (result.sig_alg ≡ a.sig_alg)

  pub flow_inner-Runs :
      (binding : Binding) (parser_type : ParserType) (recipient : Option String)
      (requirement : AssertionSignatureRequirement) (response : ResponseSignatureRequirement)
      (result : FlowResult)
      → opts.binding ≡ some binding
      → opts.parser_type ≡ some parser_type
      → flow_inner env opts request recipient requirement response ≡ ok result
      → Runs binding parser_type recipient requirement response result
  unfolding flow_inner
  flow_inner-Runs binding parser_type recipient requirement response result bound kind h =
      let (b, is_b, h1) =
        >>=-eq-ok (ok_or opts.binding (missing_binding_parameter "binding")) _ h in
      let (k, is_k, h2) =
        >>=-eq-ok (ok_or opts.parser_type (SamlError.invalid "ERR_UNDEFINED_PARSERTYPE")) _ h1 in
      let (source, read, h3) = >>=-eq-ok (read_message env opts request b k) _ h2 in
      let (a, authentic, h4) =
        >>=-eq-ok (authenticate env opts request b k source requirement response) _ h3 in
      let (fields, chosen, h5) = >>=-eq-ok (default_fields k a.assertion) _ h4 in
      let (extracted, found, h6) =
        >>=-eq-ok (extract_with_limits env.unicode env.xml opts.xml_limits a.saml_content fields) _
          h5 in
      let (_, valid, h7) =
        >>=-eq-ok
          (validate_context env opts k a.assertion extracted recipient a.response_authenticated) _
          h6 in
      let same_binding : b ≡ binding = cc (ok_or-ok opts.binding _ b is_b) in
      let same_kind : k ≡ parser_type = cc (ok_or-ok opts.parser_type _ k is_k) in
      rw (← same_binding, ← same_kind)
        (
          source,
          read,
          a,
          authentic,
          fields,
          chosen,
          of_ok
              (λ (r : FlowResult).
                extract_with_limits env.unicode env.xml opts.xml_limits a.saml_content fields
                ≡ ok r.extract)
              h7 found,
          of_ok
              (λ (r : FlowResult).
                validate_context env opts k a.assertion r.extract recipient a.response_authenticated
                ≡ ok tt)
              h7 valid,
          of_ok (λ (r : FlowResult). r.saml_content ≡ a.saml_content) h7 refl,
          of_ok (λ (r : FlowResult). r.sig_alg ≡ a.sig_alg) h7 refl,
        )

  authenticate_embedded-prepared :
      (binding : Binding) (source : String) (requirement : AssertionSignatureRequirement)
      (response : ResponseSignatureRequirement) (a : Authenticated)
      → is_detached binding ≡ false
      → opts.check_signature ≡ true
      → authenticate env opts request binding ParserType.saml_response source requirement response
        ≡ ok a
      → (p : PreparedMessage) × (verify_and_prepare env opts source ParserType.saml_response
            requirement response
          ≡ ok p)
        × (a ≡ authenticated p none p.response_authenticated)
  unfolding authenticate authenticate_embedded
  authenticate_embedded-prepared binding source requirement response a embedded checked h =
      let (p, prepared, h1) =
        >>=-eq-ok (verify_and_prepare env opts source ParserType.saml_response requirement response)
          _
          (sym (second_branch opts.check_signature (is_detached binding) _ _ _ checked embedded)
            ∙ h) in
      (p, prepared, of_ok (λ x. x ≡ authenticated p none p.response_authenticated) h1 refl)

  default_fields-assertion :
      (assertion : Option String) (fields : List ExtractorField)
      → default_fields ParserType.saml_response assertion ≡ ok fields
      → (text : String) × (assertion ≡ some text) × (fields ≡ login_response_fields text)
  unfolding default_fields
  default_fields-assertion none fields h = cc
  default_fields-assertion (some text) fields h =
      (text, refl, of_ok (λ f. f ≡ login_response_fields text) h refl)

  -- With a lawful clock, a response of a binding without detached signatures, checked for its
  -- signature, yields a result only if it can be trusted: its source passed every check of the message, the content was attested
  -- in one of the three ways that the signing and the encryption of a response allow, the fields were
  -- extracted with the attested assertion, and the response is accepted for the caller.
  pub flow_inner-IsTrusted :
      IsLawful env.time
      → (binding : Binding) (recipient : Option String)
        (requirement : AssertionSignatureRequirement) (response : ResponseSignatureRequirement)
        (result : FlowResult)
      → opts.binding ≡ some binding
      → is_detached binding ≡ false
      → opts.parser_type ≡ some ParserType.saml_response
      → opts.check_signature ≡ true
      → flow_inner env opts request recipient requirement response ≡ ok result
      → IsTrusted env opts request binding recipient requirement result
  flow_inner-IsTrusted lawful binding recipient requirement response result bound embedded kind
        checked h =
      let (source, read, a, authentic, fields, chosen, found, valid, content, _) =
        flow_inner-Runs binding ParserType.saml_response recipient requirement response result bound
          kind h in
      let (p, prepared, is_p) =
        authenticate_embedded-prepared binding source requirement response a embedded checked
          authentic in
      let (text, is_text, is_fields) = default_fields-assertion a.assertion fields chosen in
      record {
        source = source;
        is_read = read;
        prepared = p;
        origin = (verify_and_prepare-Origin env opts source requirement response p prepared).0;
        assertion = text;
        is_assertion = rw is_p at is_text;
        is_extracted = rw (is_p, is_fields) at found;
        is_accepted =
            validate_context-IsAccepted env lawful opts (some text) result.extract recipient
              p.response_authenticated (rw (is_text, is_p) at valid);
        is_content = rw is_p at content;
      }
