-- ===== src/Crypto/Preflight.antt =====
-- src/crypto/verify.rs: the check of every XML signature of a document, before the backend sees it.
pub mod Paths
pub mod Positions
use risaml.Prelude.{
  String, Bool, true, false, ◌&&◌, ◌||◌, not, Option, none, some, List, [], ◌∷◌, Result, ok, err,
  ◌>>=◌, ◌>>◌, fail_if, map_err, map_ok, ◌==◌, string_eq, option_eq, if◌then◌else◌, any, contains,
}
use risaml.Constants.{ns_protocol, ns_assertion, ns_metadata, ns_dsig}
use risaml.Errors.{SamlError, SamlResult, Foreign}
use risaml.Libraries.Xml.{Namespace, XmlAttribute, Element, Event, Resolved, XmlLibrary}
use risaml.Crypto.Targets.{
  verified_target_from_uri, signature_transform_preserves_content, algorithm_preserves,
}

pub data SignatureScope : Type 0 where
  other signature signed_info reference transforms : SignatureScope

pub data SignaturePosition : Type 0 where
  message response direct_assertion elsewhere : SignaturePosition

abbrev pub permits_signature : SignaturePosition → Bool
permits_signature SignaturePosition.elsewhere = false
permits_signature _ = true

pub record SignatureFrame : Type 0 where
  pub scope : SignatureScope
  pub position : SignaturePosition

abbrev pub in_namespace : Option String → String → Bool
in_namespace none expected = true
in_namespace (some namespace) expected = namespace == expected

abbrev pub protocol_messages : List String
protocol_messages =
    "AuthnRequest" ∷ "LogoutRequest" ∷ "LogoutResponse" ∷ "ArtifactResolve" ∷ "ArtifactResponse"
    ∷ "AssertionIDRequest" ∷ "SubjectQuery" ∷ "AuthnQuery" ∷ "AttributeQuery" ∷ "AuthzDecisionQuery"
    ∷ "ManageNameIDRequest" ∷ "ManageNameIDResponse" ∷ "NameIDMappingRequest"
    ∷ "NameIDMappingResponse" ∷ []

-- `signature_position` of an element without ancestors.
unfoldable pub root_position : String → Option String → SignaturePosition
root_position name namespace =
    if name == "Assertion" && in_namespace namespace ns_assertion
    then SignaturePosition.message
    else if (name == "EntityDescriptor" || name == "EntitiesDescriptor")
        && in_namespace namespace ns_metadata
    then SignaturePosition.message
    else if in_namespace namespace ns_protocol
    then (if name == "Response"
        then SignaturePosition.response
        else if contains protocol_messages name
        then SignaturePosition.message
        else SignaturePosition.elsewhere)
    else SignaturePosition.elsewhere

abbrev pub is_response : SignaturePosition → Bool
is_response SignaturePosition.response = true
is_response _ = false

-- The ancestors from the innermost to the root.
unfoldable pub signature_position :
    Element → Option String → List SignatureFrame → SignaturePosition
signature_position element namespace [] = root_position element.local_name namespace
signature_position element namespace (parent ∷ []) =
    if is_response parent.position
      && element.local_name == "Assertion"
      && in_namespace namespace ns_assertion
    then SignaturePosition.direct_assertion
    else SignaturePosition.elsewhere
signature_position element namespace _ = SignaturePosition.elsewhere

unfoldable pub signature_namespace : Namespace → SamlResult (Option String)
signature_namespace Namespace.unbound = ok none
signature_namespace (Namespace.bound raw normalized) =
    map_ok some (map_err SamlError.xml normalized)
signature_namespace Namespace.unknown = ok (some "")

-- The attributes from one on, with the value that was found before it.
unfoldable pub signature_attribute_from :
    List (Foreign XmlAttribute) → String → Option String → SamlResult (Option String)
signature_attribute_from [] name value = ok value
signature_attribute_from (a ∷ rest) name value = do
  attribute ← map_err SamlError.xml a
  next ←
      if not (attribute.is_namespace_binding) && attribute.local_name == name
      then (fail_if (not (attribute.key == name))
            (SamlError.xml "qualified XML signature reference attribute")
          >>= λ _. map_ok some (map_err SamlError.xml (attribute.value)))
      else ok value
  signature_attribute_from rest name next

unfoldable pub signature_attribute : Element → String → SamlResult (Option String)
signature_attribute element name = signature_attribute_from element.attributes name none

unwrap_or_default : Option String → String
unwrap_or_default none = ""
unwrap_or_default (some s) = s

-- `preflight_signature_element` of an element of the XML-DSig namespace.
unfoldable pub preflight_dsig_element : Element → SignatureScope → SamlResult SignatureScope
unfolding unwrap_or_default
preflight_dsig_element element parent =
    if element.local_name == "Signature" then ok SignatureScope.signature else elim parent [
      | SignatureScope.signature ↦ ok (
          if element.local_name == "SignedInfo"
          then SignatureScope.signed_info
          else SignatureScope.other)
      | SignatureScope.signed_info ↦
          if element.local_name == "Reference"
          then (signature_attribute element "URI" >>= λ uri.
              verified_target_from_uri (unwrap_or_default uri) >>= λ _. ok SignatureScope.reference)
          else ok SignatureScope.other
      | SignatureScope.reference ↦ ok (
          if element.local_name == "Transforms"
          then SignatureScope.transforms
          else SignatureScope.other)
      | SignatureScope.transforms ↦
          if element.local_name == "Transform"
          then (signature_attribute element "Algorithm" >>= λ algorithm.
              fail_if (not (algorithm_preserves algorithm)) SamlError.signed_reference_mismatch
              >>= λ _. ok SignatureScope.other)
          else ok SignatureScope.other
      | SignatureScope.other ↦ ok SignatureScope.other
    ]

unfoldable pub preflight_signature_element :
    Element → Bool → SignatureScope → SamlResult SignatureScope
preflight_signature_element element false parent = ok SignatureScope.other
preflight_signature_element element true parent = preflight_dsig_element element parent

abbrev pub parent_scope : List SignatureFrame → SignatureScope
parent_scope [] = SignatureScope.other
parent_scope (frame ∷ _) = frame.scope

abbrev pub parent_permits : List SignatureFrame → Bool
parent_permits [] = false
parent_permits (frame ∷ _) = permits_signature frame.position

abbrev pub is_signature : SignatureFrame → Bool
is_signature frame = elim frame.scope [ SignatureScope.signature ↦ true | _ ↦ false ]

-- A start tag or an empty element: the frame that it opens.
unfoldable pub preflight_element :
    List SignatureFrame → Option String → Element → SamlResult SignatureFrame
preflight_element scopes namespace element = do
  let is_dsig = namespace == some ns_dsig
  fail_if (is_dsig && element.local_name == "Object" && any is_signature scopes)
      SamlError.potential_wrapping_attack
  fail_if (is_dsig && element.local_name == "Signature" && not (parent_permits scopes))
      SamlError.potential_wrapping_attack
  scope ← preflight_signature_element element is_dsig (parent_scope scopes)
  ok (record { scope = scope; position = signature_position element namespace scopes })

abbrev pub pop : List SignatureFrame → List SignatureFrame
pop [] = []
pop (_ ∷ scopes) = scopes

-- One event, and the open elements behind it.
unfoldable pub preflight_event : List SignatureFrame → Resolved → SamlResult (List SignatureFrame)
preflight_event scopes e = do
  namespace ← signature_namespace (e.namespace)
  elim e.event [
    | Event.start element ↦ do
      frame ← preflight_element scopes namespace element
      ok (frame ∷ scopes)
    | Event.empty element ↦ do frame ← preflight_element scopes namespace element; ok scopes
    | Event.close ↦ ok (pop scopes)
    | _ ↦ ok scopes
  ]

unfoldable pub preflight_from :
    List SignatureFrame → List (Foreign Resolved) → SamlResult (Unit {0})
preflight_from scopes [] = ok tt
preflight_from scopes (e ∷ events) = do
  event ← map_err SamlError.xml e
  next ← preflight_event scopes event
  preflight_from next events

unfoldable pub preflight_backend_signatures : XmlLibrary → String → SamlResult (Unit {0})
preflight_backend_signatures xml source = preflight_from [] (xml.read_resolved_events none source)
