-- ===== src/Metadata/Policy.antt =====
-- src/metadata/policy.rs: the end of the validity, the certificates and the names of a metadata
-- document.
pub mod Expiration
use risaml.Prelude.{
  String, Bool, true, false, not, ◌&&◌, ◌||◌, Option, none, some, List, [], ◌∷◌, ◌++◌, map, filter,
  flat_map, any, contains, ok, err, ◌>>=◌, ◌>>◌, fail_if, ok_or, map_err, ◌==◌, string_eq,
  if◌then◌else◌, ℤ,
}
use risaml.Prelude.Text.{contains_str}
use risaml.Constants.{ns_metadata}
use risaml.Errors.{SamlError, SamlResult, TimeWindowField, Foreign}
use risaml.Libraries.Time.{TimeLibrary}
use risaml.Libraries.Xml.{Namespace, XmlAttribute, Element, Event, Resolved, XmlLibrary}
use risaml.Util.Value.{Value, str, array_of, object_of}
use risaml.Xml.Dom.Tree.{Node, local_name, children, text, attr}
use risaml.Xml.DateTime.{parse_saml_utc_date_time}
use risaml.Model.Session.{earlier}
use risaml.Crypto.Preflight.{signature_namespace}

abbrev pub invalid_expiration : SamlError
invalid_expiration = SamlError.time_window_invalid TimeWindowField.metadata_valid_until

unfoldable pub valid_until : TimeLibrary → String → SamlResult ℤ
valid_until t written = do
  value ← ok_or (parse_saml_utc_date_time written) invalid_expiration
  ok_or (t.parse_rfc3339 value) invalid_expiration

-- The loop over the root and its roles, with the earliest deadline so far.
unfoldable pub expiration_from : TimeLibrary → Option ℤ → List Node → SamlResult (Option ℤ)
expiration_from t earliest [] = ok earliest
expiration_from t earliest (n ∷ nodes) = elim (attr "validUntil" n) [
  | none ↦ expiration_from t earliest nodes
  | some written ↦
      valid_until t written >>= λ deadline. expiration_from t (earlier earliest deadline) nodes
]

unfoldable pub effective_expiration : TimeLibrary → Node → List Node → SamlResult (Option ℤ)
effective_expiration t root roles = expiration_from t none (root ∷ roles)

abbrev pub named : String → Node → List Node
named name n = filter (λ c. local_name c == name) (children n)

-- The certificates of one key descriptor.
abbrev pub descriptor_certificates : Node → List Value
descriptor_certificates descriptor =
    map (λ c. str (text c))
      (flat_map (named "X509Certificate")
        (flat_map (named "X509Data") (named "KeyInfo" descriptor)))

abbrev pub is_purpose : Option String → Bool
is_purpose none = true
is_purpose (some purpose) = purpose == "signing" || purpose == "encryption"

abbrev pub is_not : String → Option String → Bool
is_not purpose none = true
is_not purpose (some other) = not (other == purpose)

abbrev pub unless_for : String → Node → List Value
unless_for other descriptor =
    if is_not other (attr "use" descriptor) then descriptor_certificates descriptor else []

-- The loop over the descriptors of every role: the signing and the encryption certificates.
unfoldable pub certificates_from : List Node → SamlResult (List Value × List Value)
certificates_from [] = ok ([], [])
certificates_from (descriptor ∷ rest) = do
  fail_if (not (is_purpose (attr "use" descriptor)))
      (SamlError.protocol_profile "invalid metadata KeyDescriptor use")
  later ← certificates_from rest
  ok (unless_for "encryption" descriptor ++ later.0, unless_for "signing" descriptor ++ later.1)

unfoldable pub certificates_for_roles : List Node → SamlResult Value
certificates_for_roles roles = do
  certificates ← certificates_from (flat_map (named "KeyDescriptor") roles)
  ok (
      object_of
        (("signing", array_of certificates.0) ∷ ("encryption", array_of certificates.1) ∷ []))

abbrev pub is_role : String → Bool
is_role local = local == "SPSSODescriptor" || local == "IDPSSODescriptor"

abbrev pub role_children : List String
role_children =
    "KeyDescriptor" ∷ "SingleLogoutService" ∷ "NameIDFormat" ∷ "SingleSignOnService"
    ∷ "AssertionConsumerService" ∷ []

-- Whether an element is of the vocabulary that is read, by the open elements around it.
unfoldable pub is_metadata_element : List String → String → Bool
is_metadata_element [] local = local == "EntityDescriptor"
is_metadata_element (parent ∷ _) local =
    parent == "EntityDescriptor" && is_role local || is_role parent && contains role_children local

abbrev pub consumed_metadata_attributes : List String
consumed_metadata_attributes =
    "entityID" ∷ "validUntil" ∷ "use" ∷ "Binding" ∷ "Location" ∷ "index" ∷ "isDefault"
    ∷ "WantAuthnRequestsSigned" ∷ "WantAssertionsSigned" ∷ "AuthnRequestsSigned" ∷ []

unfoldable pub unqualified_attributes : List (Foreign XmlAttribute) → SamlResult (Unit {0})
unqualified_attributes [] = ok tt
unqualified_attributes (a ∷ rest) = do
  attribute ← map_err SamlError.xml a
  fail_if
      (not attribute.is_namespace_binding
        && contains_str ":" attribute.key
        && contains consumed_metadata_attributes attribute.local_name)
      (SamlError.protocol_profile "consumed metadata attributes must be unqualified")
  unqualified_attributes rest

abbrev pub is_foreign : Option String → Bool
is_foreign none = false
is_foreign (some actual) = not (actual == ns_metadata)

unfoldable pub metadata_element : List String → Option String → Element → SamlResult (Unit {0})
metadata_element stack namespace element =
    if is_metadata_element stack element.local_name
    then fail_if (is_foreign namespace)
        (SamlError.protocol_profile "metadata element has an invalid namespace")
      >> unqualified_attributes element.attributes
    else ok tt

abbrev pub pop : List String → List String
pop [] = []
pop (_ ∷ rest) = rest

unfoldable pub metadata_step : List String → Resolved → SamlResult (List String)
metadata_step stack e = do
  namespace ← signature_namespace e.namespace
  elim e.event [
    | Event.start element ↦ do
      metadata_element stack namespace element
      ok (element.local_name ∷ stack)
    | Event.empty element ↦ do metadata_element stack namespace element; ok stack
    | Event.close ↦ ok (pop stack)
    | _ ↦ ok stack
  ]

unfoldable pub metadata_run : List String → List (Foreign Resolved) → SamlResult (List String)
metadata_run stack [] = ok stack
metadata_run stack (e ∷ events) = do
  event ← map_err SamlError.xml e
  next ← metadata_step stack event
  metadata_run next events

-- The reader has the limits of `NsReader` itself.
unfoldable pub validate_metadata_namespaces : XmlLibrary → String → SamlResult (Unit {0})
validate_metadata_namespaces xml source = do
  stack ← metadata_run [] (xml.read_resolved_events none source)
  ok tt
