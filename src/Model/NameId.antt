-- ===== src/Model/NameId.antt =====
-- The name identifier formats of src/config/algorithms.rs and src/constants.rs, and the policy of
-- src/model/subject.rs.
use risaml.Prelude.{
  String, Bool, true, false, Option, none, some, ◌≡◌, refl, sym, ◌==◌, string_eq, eq_iff,
  Bool-cases, inl, inr, if◌then◌else◌,
}

pub data NameIdFormat : Type 0 where
  email_address persistent transient entity unspecified kerberos : NameIdFormat
  windows_domain_qualified_name x509_subject_name : NameIdFormat
  custom : String → NameIdFormat

abbrev pub as_uri : NameIdFormat → String
as_uri NameIdFormat.email_address = "urn:oasis:names:tc:SAML:1.1:nameid-format:emailAddress"
as_uri NameIdFormat.persistent = "urn:oasis:names:tc:SAML:2.0:nameid-format:persistent"
as_uri NameIdFormat.transient = "urn:oasis:names:tc:SAML:2.0:nameid-format:transient"
as_uri NameIdFormat.entity = "urn:oasis:names:tc:SAML:2.0:nameid-format:entity"
as_uri NameIdFormat.unspecified = "urn:oasis:names:tc:SAML:1.1:nameid-format:unspecified"
as_uri NameIdFormat.kerberos = "urn:oasis:names:tc:SAML:2.0:nameid-format:kerberos"
as_uri NameIdFormat.windows_domain_qualified_name =
    "urn:oasis:names:tc:SAML:1.1:nameid-format:WindowsDomainQualifiedName"
as_uri NameIdFormat.x509_subject_name = "urn:oasis:names:tc:SAML:1.1:nameid-format:X509SubjectName"
as_uri (NameIdFormat.custom uri) = uri

-- One arm of the match on a URI.
abbrev arm : NameIdFormat → String → NameIdFormat → NameIdFormat
arm format uri otherwise = if uri == as_uri format then format else otherwise

unfoldable pub name_id_format_from_uri : String → NameIdFormat
name_id_format_from_uri uri = arm NameIdFormat.email_address uri (
    arm NameIdFormat.persistent uri (
      arm NameIdFormat.transient uri (
        arm NameIdFormat.entity uri (
          arm NameIdFormat.unspecified uri (
            arm NameIdFormat.kerberos uri (
              arm NameIdFormat.windows_domain_qualified_name uri
                (arm NameIdFormat.x509_subject_name uri (NameIdFormat.custom uri))))))))

as_uri-arm :
    (format : NameIdFormat) (uri : String) (otherwise : NameIdFormat)
    → as_uri otherwise ≡ uri
    → as_uri (arm format uri otherwise) ≡ uri
as_uri-arm format uri otherwise h = elim (Bool-cases (uri == as_uri format)) [
  | inl same ↦ rw same (sym ((eq_iff uri (as_uri format)).0 same))
  | inr other ↦ rw other h
]

-- A format that was read of a URI is written as that URI.
pub as_uri-name_id_format_from_uri : (uri : String) → as_uri (name_id_format_from_uri uri) ≡ uri
unfolding name_id_format_from_uri
as_uri-name_id_format_from_uri uri = as_uri-arm NameIdFormat.email_address uri _ (
    as_uri-arm NameIdFormat.persistent uri _ (
      as_uri-arm NameIdFormat.transient uri _ (
        as_uri-arm NameIdFormat.entity uri _ (
          as_uri-arm NameIdFormat.unspecified uri _ (
            as_uri-arm NameIdFormat.kerberos uri _ (
              as_uri-arm NameIdFormat.windows_domain_qualified_name uri _
                (as_uri-arm NameIdFormat.x509_subject_name uri (NameIdFormat.custom uri) refl)))))))

pub data NameIdCreationRequest : Type 0 where
  unspecified allow_create do_not_allow_create : NameIdCreationRequest

pub record NameIdPolicy : Type 0 where
  pub format : Option NameIdFormat
  pub creation_request : NameIdCreationRequest

abbrev pub creation_request_of : Option Bool → NameIdCreationRequest
creation_request_of none = NameIdCreationRequest.unspecified
creation_request_of (some true) = NameIdCreationRequest.allow_create
creation_request_of (some false) = NameIdCreationRequest.do_not_allow_create

unfoldable pub from_parsed : Option NameIdFormat → Option Bool → Option NameIdPolicy
from_parsed none none = none
from_parsed format allowed =
    some (record { format = format; creation_request = creation_request_of allowed })
