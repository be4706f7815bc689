-- ===== src/Xml/Fields.antt =====
-- src/xml/fields.rs: which fields are read from each message.
use risaml.Prelude.{String, List, [], ◌∷◌}
use risaml.Xml.Extract.{ExtractorField, new, attrs, with_context, with_aggregate, with_shortcut}

unfoldable pub login_request_fields : List ExtractorField
login_request_fields =
    attrs
      ("ID" ∷ "IssueInstant" ∷ "Destination" ∷ "AssertionConsumerServiceURL" ∷ "ProtocolBinding"
        ∷ "AssertionConsumerServiceIndex" ∷ [])
      (new "request" ("AuthnRequest" ∷ []))
    ∷ new "issuer" ("AuthnRequest" ∷ "Issuer" ∷ [])
    ∷ attrs ("Format" ∷ "AllowCreate" ∷ [])
        (new "nameIDPolicy" ("AuthnRequest" ∷ "NameIDPolicy" ∷ []))
    ∷ new "authnContextClassRef" ("AuthnRequest" ∷ "AuthnContextClassRef" ∷ [])
    ∷ with_context (new "signature" ("AuthnRequest" ∷ "Signature" ∷ []))
    ∷ []

unfoldable pub login_response_status_fields : List ExtractorField
login_response_status_fields =
    attrs ("Value" ∷ []) (new "top" ("Response" ∷ "Status" ∷ "StatusCode" ∷ []))
    ∷ attrs ("Value" ∷ []) (new "second" ("Response" ∷ "Status" ∷ "StatusCode" ∷ "StatusCode" ∷ []))
    ∷ []

unfoldable pub logout_response_status_fields : List ExtractorField
logout_response_status_fields =
    attrs ("Value" ∷ []) (new "top" ("LogoutResponse" ∷ "Status" ∷ "StatusCode" ∷ []))
    ∷ attrs ("Value" ∷ [])
        (new "second" ("LogoutResponse" ∷ "Status" ∷ "StatusCode" ∷ "StatusCode" ∷ []))
    ∷ []

unfoldable pub login_response_fields : String → List ExtractorField
login_response_fields assertion =
    with_shortcut assertion
      (attrs ("ID" ∷ "IssueInstant" ∷ []) (new "assertion" ("Assertion" ∷ [])))
    ∷ with_shortcut assertion (
        attrs ("NotBefore" ∷ "NotOnOrAfter" ∷ [])
          (new "conditions" ("Assertion" ∷ "Conditions" ∷ [])))
    ∷ with_shortcut assertion
        (with_context (new "oneTimeUse" ("Assertion" ∷ "Conditions" ∷ "OneTimeUse" ∷ [])))
    ∷ with_shortcut assertion (
        with_context
          (new "proxyRestriction" ("Assertion" ∷ "Conditions" ∷ "ProxyRestriction" ∷ [])))
    ∷ attrs ("ID" ∷ "IssueInstant" ∷ "Destination" ∷ "InResponseTo" ∷ [])
        (new "response" ("Response" ∷ []))
    ∷ with_shortcut assertion
        (new "audience" ("Assertion" ∷ "Conditions" ∷ "AudienceRestriction" ∷ "Audience" ∷ []))
    ∷ with_shortcut assertion (new "issuer" ("Assertion" ∷ "Issuer" ∷ []))
    ∷ with_shortcut assertion (new "nameID" ("Assertion" ∷ "Subject" ∷ "NameID" ∷ []))
    ∷ with_shortcut assertion
        (attrs ("Format" ∷ []) (new "nameIDFormat" ("Assertion" ∷ "Subject" ∷ "NameID" ∷ [])))
    ∷ with_shortcut assertion (
        with_context
          (new "subjectConfirmation" ("Assertion" ∷ "Subject" ∷ "SubjectConfirmation" ∷ [])))
    ∷ with_shortcut assertion (
        attrs ("AuthnInstant" ∷ "SessionNotOnOrAfter" ∷ "SessionIndex" ∷ [])
          (new "sessionIndex" ("Assertion" ∷ "AuthnStatement" ∷ [])))
    ∷ with_shortcut assertion (
        with_aggregate ("Name" ∷ []) ("AttributeValue" ∷ [])
          (new "attributes" ("Assertion" ∷ "AttributeStatement" ∷ "Attribute" ∷ [])))
    ∷ []

unfoldable pub logout_request_fields : List ExtractorField
logout_request_fields =
    attrs ("ID" ∷ "IssueInstant" ∷ "Destination" ∷ "NotOnOrAfter" ∷ [])
      (new "request" ("LogoutRequest" ∷ []))
    ∷ new "issuer" ("LogoutRequest" ∷ "Issuer" ∷ [])
    ∷ new "nameID" ("LogoutRequest" ∷ "NameID" ∷ [])
    ∷ new "sessionIndex" ("LogoutRequest" ∷ "SessionIndex" ∷ [])
    ∷ with_context (new "signature" ("LogoutRequest" ∷ "Signature" ∷ []))
    ∷ []

unfoldable pub logout_response_fields : List ExtractorField
logout_response_fields =
    attrs ("ID" ∷ "IssueInstant" ∷ "Destination" ∷ "InResponseTo" ∷ [])
      (new "response" ("LogoutResponse" ∷ []))
    ∷ new "issuer" ("LogoutResponse" ∷ "Issuer" ∷ [])
    ∷ with_context (new "signature" ("LogoutResponse" ∷ "Signature" ∷ []))
    ∷ []
