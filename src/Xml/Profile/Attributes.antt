-- ===== src/Xml/Profile/Attributes.antt =====
-- src/xml/profile.rs: namespaces, and the attributes of an element.
use risaml.Prelude.{
  String, Bool, true, false, ◌&&◌, ◌||◌, not, Option, none, some, List, [], ◌∷◌, any, all, find, ok,
  ◌>>=◌, ◌>>◌, fail_if, ok_or, map_err, Eq, ◌==◌, string_eq, nat_eq, option_eq, if◌then◌else◌,
  contains, is_nil, leb, ◌≡◌, ◌↔◌, arith,
}
use mathlib.Core.Option
use risaml.Prelude.Text.{concat, trim_matches, strip_prefix, as_bytes, Bytes}
use risaml.Constants.{ns_protocol, ns_assertion, ns_dsig}
use risaml.Errors.{SamlError, SamlResult, Foreign}
use risaml.Libraries.Xml.{Namespace, XmlAttribute, Element}
use risaml.Xml.DateTime.{parse_saml_utc_date_time, is_xml_schema_whitespace}

pub data NamespaceKind : Type 0 where
  protocol assertion dsig xml_encryption unbound other unknown : NamespaceKind

abbrev pub kind_beq : NamespaceKind → NamespaceKind → Bool
kind_beq NamespaceKind.protocol NamespaceKind.protocol = true
kind_beq NamespaceKind.assertion NamespaceKind.assertion = true
kind_beq NamespaceKind.dsig NamespaceKind.dsig = true
kind_beq NamespaceKind.xml_encryption NamespaceKind.xml_encryption = true
kind_beq NamespaceKind.unbound NamespaceKind.unbound = true
kind_beq NamespaceKind.other NamespaceKind.other = true
kind_beq NamespaceKind.unknown NamespaceKind.unknown = true
kind_beq _ _ = false

pub kind_beq_iff : (a b : NamespaceKind) → (kind_beq a b ≡ true) ↔ (a ≡ b)
kind_beq_iff NamespaceKind.protocol b = ground arith
kind_beq_iff _ b = ground arith

instance abbrev pub kind_eq : Eq NamespaceKind
kind_eq = record { test = kind_beq; decides = kind_beq_iff }

abbrev xml_encryption_ns : String
xml_encryption_ns = "http://www.w3.org/2001/04/xmlenc#"

unfoldable pub classify_namespace : Namespace → NamespaceKind
classify_namespace Namespace.unbound = NamespaceKind.unbound
classify_namespace Namespace.unknown = NamespaceKind.unknown
classify_namespace (Namespace.bound value _) =
    if value == ns_protocol
    then NamespaceKind.protocol
    else if value == ns_assertion
    then NamespaceKind.assertion
    else if value == ns_dsig
    then NamespaceKind.dsig
    else if value == xml_encryption_ns
    then NamespaceKind.xml_encryption
    else NamespaceKind.other

abbrev pub profile_error : String → SamlError
profile_error message = SamlError.protocol_profile message

pub data UnexpectedAttributePolicy : Type 0 where
  ignore reject : UnexpectedAttributePolicy

abbrev pub rejects : UnexpectedAttributePolicy → Bool
rejects UnexpectedAttributePolicy.ignore = false
rejects UnexpectedAttributePolicy.reject = true

abbrev pub is_unqualified : Namespace → Bool
is_unqualified Namespace.unbound = true
is_unqualified _ = false

-- The consumed attributes, by their names, in the order of the element.
abbrev pub AttributeValues : Type 0
AttributeValues = List (String × String)

module _ (element : Element) (consumed : List String) (unexpected : UnexpectedAttributePolicy) where
  -- One turn of the loop over the attributes, and what it pushes.
  unfoldable pub read_attribute : XmlAttribute → SamlResult (Option (String × String))
  read_attribute attribute =
      if attribute.is_namespace_binding
      then ok none
      else if not (contains consumed attribute.local_name)
      then fail_if (rejects unexpected) (
          profile_error
            (concat ("unexpected attribute " ∷ attribute.key ∷ " on " ∷ element.local_name ∷ [])))
        >> ok none
      else do
        fail_if (not (is_unqualified attribute.namespace)) (
            profile_error (
              concat (
                "attribute " ∷ attribute.local_name ∷ " on " ∷ element.local_name
                ∷ " must be unqualified" ∷ [])))
        value ← map_err SamlError.xml attribute.value
        ok (some (attribute.local_name, value))

  abbrev pushed : Option (String × String) → AttributeValues → AttributeValues
  pushed none values = values
  pushed (some v) values = v ∷ values

  unfoldable pub read_attributes : List (Foreign XmlAttribute) → SamlResult AttributeValues
  read_attributes [] = ok []
  read_attributes (a ∷ rest) = do
    attribute ← map_err SamlError.xml a
    value ← read_attribute attribute
    values ← read_attributes rest
    ok (pushed value values)

  -- The loop over the names that are required.
  unfoldable pub require_attributes : AttributeValues → List String → SamlResult (Unit {0})
  require_attributes values [] = ok tt
  require_attributes values (name ∷ names) = do
    fail_if (not (any (λ (v : String × String). v.0 == name) values)) (
        profile_error
          (concat (element.local_name ∷ " is missing required unqualified attribute " ∷ name ∷ [])))
    require_attributes values names

  unfoldable pub validate_attributes : List String → SamlResult AttributeValues
  validate_attributes required = do
    values ← read_attributes element.attributes
    require_attributes values required
    ok values

unfoldable pub validate_unqualified_attributes :
    Element → List String → List String → SamlResult AttributeValues
validate_unqualified_attributes element consumed required =
    validate_attributes element consumed UnexpectedAttributePolicy.ignore required

unfoldable pub validate_closed_unqualified_attributes :
    Element → List String → List String → SamlResult AttributeValues
validate_closed_unqualified_attributes element consumed required =
    validate_attributes element consumed UnexpectedAttributePolicy.reject required

-- The first value under a name.
abbrev pub value_of : String → AttributeValues → Option String
value_of name values =
    Option.map (λ (v : String × String). v.1) (find (λ (v : String × String). v.0 == name) values)

unfoldable pub require_version_2 : AttributeValues → Element → SamlResult (Unit {0})
require_version_2 values element =
    fail_if (not (value_of "Version" values == some "2.0"))
      (profile_error (concat (element.local_name ∷ " Version must be 2.0" ∷ [])))

abbrev pub is_present : Option String → Bool
is_present none = false
is_present (some _) = true

abbrev is_date_time : String → Bool
is_date_time s = is_present (parse_saml_utc_date_time s)

unfoldable pub require_issue_instant : AttributeValues → Element → SamlResult (Unit {0})
require_issue_instant values element = do
  issue_instant ← ok_or (value_of "IssueInstant" values) (
      profile_error (
        concat
          (element.local_name ∷ " is missing required unqualified attribute IssueInstant" ∷ [])))
  fail_if (not (is_date_time issue_instant)) (
      profile_error (
        concat (
          element.local_name
          ∷ " IssueInstant must use the SAML-conformant UTC xs:dateTime form ending in Z" ∷ [])))

abbrev is_date_time_or_absent : Option String → Bool
is_date_time_or_absent none = true
is_date_time_or_absent (some s) = is_date_time s

unfoldable pub require_optional_saml_utc_date_time :
    AttributeValues → Element → String → SamlResult (Unit {0})
require_optional_saml_utc_date_time values element attribute =
    fail_if (not (is_date_time_or_absent (value_of attribute values))) (
      profile_error (
        concat (
          element.local_name ∷ " " ∷ attribute
          ∷ " must use the SAML-conformant UTC xs:dateTime form ending in Z" ∷ [])))

abbrev is_ascii_digit : Bytes → Bool
is_ascii_digit bytes = not (is_nil bytes) && all (λ b. leb b'0' b && leb b b'9') bytes

abbrev is_negative_zero : String → Bool
is_negative_zero count = elim (strip_prefix "-" count) [
  | none ↦ false
  | some digits ↦ not (is_nil (as_bytes digits)) && all (λ b. b == b'0') (as_bytes digits)
]

abbrev without_plus : String → String
without_plus count = elim (strip_prefix "+" count) [ none ↦ count | some digits ↦ digits ]

-- The test on the `Count` of a `ProxyRestriction`, if there is one.
unfoldable pub is_count : AttributeValues → Bool
is_count [] = true
is_count ((_, value) ∷ _) =
    let count = trim_matches is_xml_schema_whitespace value in
    is_negative_zero count || is_ascii_digit (as_bytes (without_plus count))
