-- ===== src/Crypto/Targets.antt =====
-- src/crypto/verify.rs: the targets of verified references, and the transforms that a reference
-- may have.
pub mod Laws
use risaml.Prelude.{
  String, Bool, true, false, ◌&&◌, ◌||◌, not, Option, none, some, List, [], ◌∷◌, Result, ok, err,
  ◌>>=◌, ◌>>◌, fail_if, ok_or, for_each, traverse, ◌==◌, string_eq, if◌then◌else◌, is_nil, contains,
  ◌≡◌, ◌≢◌, refl, arith, >>=-eq-ok, All, ◌⊎◌, inl, inr, Result-cases, of_ok,
}
use mathlib.Core.Option
use risaml.Prelude.Text.{is_empty, strip_prefix, strip_suffix, starts_with}
use risaml.Errors.{SamlError, SamlResult, ReferenceResolutionReason, SignatureVerificationReason}
use risaml.Xml.Dom.Tree.{Node, attr, local_name}
use risaml.Libraries.Crypto.{VerifiedReference}
use risaml.Crypto.Guards.{children_named}

pub data VerifiedTarget : Type 0 where
  whole_document : VerifiedTarget
  id : String → VerifiedTarget

abbrev pub reference_resolution : ReferenceResolutionReason → SamlError
reference_resolution reason = SamlError.reference_resolution reason

unfoldable pub is_external_reference : String → Bool
is_external_reference uri = not (is_empty uri) && not (starts_with "#" uri)

-- The identifier of `xpointer(id('...'))`.
unfoldable pub xpointer_id : String → Option String
xpointer_id fragment = elim (strip_prefix "xpointer(id('" fragment) [
  | none ↦ none
  | some rest ↦ strip_suffix "'))" rest
]

unfoldable pub fragment_target : String → SamlResult VerifiedTarget
fragment_target fragment =
    if is_empty fragment
    then err (reference_resolution ReferenceResolutionReason.unsupported_reference_uri)
    else elim (xpointer_id fragment) [
      | some name ↦
          if is_empty name
          then err (reference_resolution ReferenceResolutionReason.unsupported_reference_uri)
          else ok (VerifiedTarget.id name)
      | none ↦
          if starts_with "xpointer(" fragment
          then err (reference_resolution ReferenceResolutionReason.unsupported_reference_uri)
          else ok (VerifiedTarget.id fragment)
    ]

unfoldable pub verified_target_from_uri : String → SamlResult VerifiedTarget
verified_target_from_uri uri =
    if is_empty uri || uri == "#xpointer(/)"
    then ok VerifiedTarget.whole_document
    else ok_or (strip_prefix "#" uri)
        (reference_resolution ReferenceResolutionReason.external_reference)
      >>= fragment_target

abbrev pub is_id : VerifiedTarget → Bool
is_id VerifiedTarget.whole_document = false
is_id (VerifiedTarget.id _) = true

unfoldable pub verified_target : VerifiedReference → SamlResult VerifiedTarget
verified_target reference = do
  fail_if (is_external_reference reference.uri)
      (reference_resolution ReferenceResolutionReason.external_reference)
  fail_if (not (reference.digest_verified))
      (SamlError.signature_verification SignatureVerificationReason.reference_digest)
  target ← verified_target_from_uri reference.uri
  fail_if (is_id target && not (reference.is_resolved))
      (reference_resolution ReferenceResolutionReason.unresolved_reference)
  ok target

unfoldable pub verified_targets : List VerifiedReference → SamlResult (List VerifiedTarget)
verified_targets references = do
  fail_if (is_nil references)
      (reference_resolution ReferenceResolutionReason.missing_signature_reference)
  traverse verified_target references

unfoldable pub signature_transform_preserves_content : String → Bool
signature_transform_preserves_content algorithm =
    algorithm == "http://www.w3.org/2000/09/xmldsig#enveloped-signature"
    || algorithm == "http://www.w3.org/2001/10/xml-exc-c14n#"
    || algorithm == "http://www.w3.org/2001/10/xml-exc-c14n#WithComments"
    || algorithm == "http://www.w3.org/TR/2001/REC-xml-c14n-20010315"
    || algorithm == "http://www.w3.org/TR/2001/REC-xml-c14n-20010315#WithComments"
    || algorithm == "http://www.w3.org/2006/12/xml-c14n11"
    || algorithm == "http://www.w3.org/2006/12/xml-c14n11#WithComments"

abbrev pub algorithm_preserves : Option String → Bool
algorithm_preserves none = false
algorithm_preserves (some algorithm) = signature_transform_preserves_content algorithm

unfoldable pub ensure_reference_transforms_preserve_content : Node → SamlResult (Unit {0})
ensure_reference_transforms_preserve_content reference =
    for_each
      (λ transforms.
        for_each
          (λ transform.
            fail_if (not (algorithm_preserves (attr "Algorithm" transform)))
              SamlError.signed_reference_mismatch)
          (children_named transforms "Transform"))
      (children_named reference "Transforms")

unfoldable pub ensure_signature_transforms_preserve_content : List Node → SamlResult (Unit {0})
ensure_signature_transforms_preserve_content signatures =
    for_each
      (λ signature.
        for_each
          (λ signed_info.
            for_each ensure_reference_transforms_preserve_content
              (children_named signed_info "Reference"))
          (children_named signature "SignedInfo"))
      signatures

unfoldable pub ensure_metadata_signature_transforms_preserve_descriptor :
    Node → SamlResult (Unit {0})
ensure_metadata_signature_transforms_preserve_descriptor root =
    if not (local_name root == "EntityDescriptor")
    then ok tt
    else ensure_signature_transforms_preserve_content (children_named root "Signature")

abbrev unwrap_or_default : Option String → String
unwrap_or_default none = ""
unwrap_or_default (some s) = s

unfoldable pub preflight_saml_reference_uris : List Node → SamlResult (Unit {0})
preflight_saml_reference_uris signatures =
    for_each
      (λ signature.
        for_each
          (λ signed_info.
            for_each
              (λ reference.
                verified_target_from_uri (unwrap_or_default (attr "URI" reference)) >>= λ _. ok tt)
              (children_named signed_info "Reference"))
          (children_named signature "SignedInfo"))
      signatures
