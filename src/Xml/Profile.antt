-- ===== src/Xml/Profile.antt =====
-- src/xml/profile.rs: what a protocol message must look like, checked over the events of the document.
pub mod Attributes
pub mod Children
pub mod Root
pub mod Balanced
pub mod Once
use risaml.Prelude.{
  ℕ, String, len, Bool, true, false, ◌&&◌, ◌||◌, not, Option, none, some, List, [], ◌∷◌, is_nil,
  head, Result, ok, err, ◌>>=◌, ◌>>◌, fail_if, map_err, ◌==◌, string_eq, if◌then◌else◌, contains,
}
use risaml.Prelude.Text.{concat}
use risaml.Constants.{ParserType, parser_type_eq, ns_protocol}
use risaml.Errors.{SamlError, SamlResult, Foreign}
use risaml.Libraries.Xml.{Element, Event, Resolved, XmlLibrary}
use risaml.Xml.Dom.{XmlLimits, check_input_bytes}
use risaml.Xml.Profile.Attributes.{
  NamespaceKind, kind_eq, classify_namespace, profile_error, validate_unqualified_attributes,
  validate_closed_unqualified_attributes, require_version_2, require_issue_instant,
  require_optional_saml_utc_date_time, is_count,
}
use risaml.Xml.Profile.Children.{
  ExpandedName, is, expected_child_namespace, consumed_attributes, top_is,
}

abbrev pub parser_root : ParserType → String
parser_root ParserType.saml_request = "AuthnRequest"
parser_root ParserType.saml_response = "Response"
parser_root ParserType.logout_request = "LogoutRequest"
parser_root ParserType.logout_response = "LogoutResponse"

abbrev pub root_consumed_attributes : ParserType → List String
root_consumed_attributes ParserType.saml_request =
    "ID" ∷ "Version" ∷ "IssueInstant" ∷ "Destination" ∷ "AssertionConsumerServiceURL"
    ∷ "ProtocolBinding" ∷ "AssertionConsumerServiceIndex" ∷ []
root_consumed_attributes ParserType.logout_request =
    "ID" ∷ "Version" ∷ "IssueInstant" ∷ "Destination" ∷ "NotOnOrAfter" ∷ []
root_consumed_attributes _ = "ID" ∷ "Version" ∷ "IssueInstant" ∷ "Destination" ∷ "InResponseTo" ∷ []

abbrev pub always_required : List String
always_required = "ID" ∷ "Version" ∷ "IssueInstant" ∷ []

unfoldable pub validate_root : Element → NamespaceKind → ParserType → SamlResult (Unit {0})
validate_root element namespace parser_type = do
  let expected = parser_root parser_type
  fail_if (not (element.local_name == expected) || not (namespace == NamespaceKind.protocol)) (
      profile_error (
        concat
          ("expected root {" ∷ ns_protocol ∷ "}" ∷ expected ∷ ", got " ∷ element.local_name ∷ [])))
  attributes ←
      validate_unqualified_attributes element (root_consumed_attributes parser_type) always_required
  require_version_2 attributes element
  require_issue_instant attributes element
  (if parser_type == ParserType.logout_request
      then require_optional_saml_utc_date_time attributes element "NotOnOrAfter"
      else ok tt)

abbrev pub conditions_children : List String
conditions_children = "AudienceRestriction" ∷ "OneTimeUse" ∷ "ProxyRestriction" ∷ []

-- The checks of an element whose place is known.
unfoldable pub validate_expected : Element → ExpandedName → SamlResult (Unit {0})
validate_expected element expanded =
    let consumed = consumed_attributes expanded in
    if is expanded "Assertion" NamespaceKind.assertion
    then (validate_unqualified_attributes element consumed always_required >>= λ attributes.
        require_version_2 attributes element >> require_issue_instant attributes element)
    else if is expanded "Conditions" NamespaceKind.assertion
    then (validate_closed_unqualified_attributes element consumed [] >>= λ _. ok tt)
    else if is expanded "OneTimeUse" NamespaceKind.assertion
        || is expanded "AudienceRestriction" NamespaceKind.assertion
    then (validate_closed_unqualified_attributes element [] [] >>= λ _. ok tt)
    else if is expanded "ProxyRestriction" NamespaceKind.assertion
    then (validate_closed_unqualified_attributes element ("Count" ∷ []) [] >>= λ attributes.
        fail_if (not (is_count attributes))
          (profile_error "ProxyRestriction Count must be a non-negative integer"))
    else if not (is_nil consumed)
    then (validate_unqualified_attributes element consumed [] >>= λ _. ok tt)
    else ok tt

abbrev pub opened : Element → NamespaceKind → ExpandedName
opened element namespace = record {
  local = element.local_name;
  namespace = namespace;
  conditions_seen = false;
  one_time_use_seen = false;
  proxy_restriction_seen = false;
}

-- An element below the root. The stack has the innermost element first.
unfoldable pub validate_inner : Element → NamespaceKind → List ExpandedName → SamlResult (Unit {0})
validate_inner element namespace stack = do
  let local = element.local_name
  fail_if (top_is stack "Conditions" && not (contains conditions_children local))
      (profile_error "unsupported assertion condition")
  fail_if
      (top_is stack "OneTimeUse"
        || (top_is stack "ProxyRestriction" || top_is stack "AudienceRestriction")
          && not (local == "Audience"))
      (profile_error "unsupported child of assertion condition")
  elim (expected_child_namespace stack local) [
    | none ↦ ok tt
    | some expected ↦ do
      fail_if (not (namespace == expected))
          (profile_error (concat (local ∷ " has an invalid namespace" ∷ [])))
      validate_expected element (opened element namespace)
  ]

unfoldable pub validate_element :
    Element → NamespaceKind → List ExpandedName → ParserType → SamlResult (Unit {0})
validate_element element namespace [] parser_type = validate_root element namespace parser_type
validate_element element namespace (top ∷ stack) parser_type =
    validate_inner element namespace (top ∷ stack)

-- The mark of a use condition on the open `Conditions`.
abbrev pub mark_use : String → ExpandedName → SamlResult ExpandedName
mark_use local parent =
    if local == "OneTimeUse"
    then fail_if parent.one_time_use_seen
        (profile_error "repeated assertion use condition is unsupported")
      >> ok (record parent { one_time_use_seen = true })
    else if local == "ProxyRestriction"
    then fail_if parent.proxy_restriction_seen
        (profile_error "repeated assertion use condition is unsupported")
      >> ok (record parent { proxy_restriction_seen = true })
    else ok parent

-- The mark of `Conditions` on the open assertion.
abbrev pub mark_conditions : String → ExpandedName → SamlResult ExpandedName
mark_conditions local parent =
    if local == "Conditions" && is parent "Assertion" NamespaceKind.assertion
    then fail_if parent.conditions_seen (SamlError.invalid "multiple assertion Conditions elements")
      >> ok (record parent { conditions_seen = true })
    else ok parent

-- The marks that an element of the assertion namespace leaves on its parent.
abbrev pub mark_parent : String → ExpandedName → SamlResult ExpandedName
mark_parent local parent = do
  used ←
      (if is parent "Conditions" NamespaceKind.assertion then mark_use local parent else ok parent)
  mark_conditions local used

unfoldable pub mark_stack :
    Element → NamespaceKind → List ExpandedName → SamlResult (List ExpandedName)
mark_stack element namespace [] = ok []
mark_stack element namespace (parent ∷ stack) =
    if namespace == NamespaceKind.assertion
    then (mark_parent element.local_name parent >>= λ marked. ok (marked ∷ stack))
    else ok (parent ∷ stack)

-- The open elements, and whether an element was seen.
pub record ProfileReader : Type 0 where
  pub stack : List ExpandedName
  pub saw_root : Bool

abbrev pub pop : List ExpandedName → List ExpandedName
pop [] = []
pop (top ∷ stack) = stack

-- One turn of the loop of `validate_protocol_profile`.
unfoldable pub profile_step : ParserType → ProfileReader → Resolved → SamlResult ProfileReader
profile_step parser_type r e = elim e.event [
  | Event.start element ↦ do
    let namespace = classify_namespace e.namespace
    marked ← mark_stack element namespace r.stack
    validate_element element namespace marked parser_type
    ok (record { stack = opened element namespace ∷ marked; saw_root = true })
  | Event.empty element ↦ do
    let namespace = classify_namespace e.namespace
    marked ← mark_stack element namespace r.stack
    validate_element element namespace marked parser_type
    ok (record { stack = marked; saw_root = true })
  | Event.close ↦ ok (record r { stack = pop r.stack })
  | _ ↦ ok r
]

unfoldable pub profile_run :
    ParserType → ProfileReader → List (Foreign Resolved) → SamlResult ProfileReader
profile_run parser_type r [] = ok r
profile_run parser_type r (e ∷ events) = do
  event ← map_err SamlError.xml e
  next ← profile_step parser_type r event
  profile_run parser_type next events

abbrev pub unread : ProfileReader
unread = record { stack = []; saw_root = false }

unfoldable pub validate_protocol_profile :
    XmlLibrary → String → ParserType → XmlLimits → SamlResult (Unit {0})
validate_protocol_profile xml source parser_type limits = do
  check_input_bytes limits (len source)
  r ←
      profile_run parser_type unread
        (xml.read_resolved_events (some limits.max_attributes_per_element) source)
  fail_if (not r.saw_root) (profile_error "missing SAML protocol root")
