-- ===== src/Tests/Crypto.antt =====
-- The verification of src/crypto/verify.rs at a signed response.
use risaml.Prelude.{
  true, false, ℕ, String, Bool, true, false, Option, none, some, List, [], ◌∷◌, ◌≡◌, ◌≢◌, ◌↔◌, ◌≤◌,
  refl, Result, ok, inr, Any, any, count, string_eq, filter,
}
use risaml.Xml.Dom.{default_limits}
use risaml.Xml.Dom.Tree.{Node}
use risaml.Xml.Dom.Parse.{parse_with_limits}
use risaml.Crypto.Guards.{wrapping_detected, duplicate_saml_id}
use risaml.Crypto.Guards.Wrapping.{Below, Within, IsForbidden, wrapping_detected_lem}
use risaml.Crypto.Guards.Identifiers.{saml_ids, duplicate_saml_id_lem}
use risaml.Crypto.Targets.{VerifiedTarget, verified_target_from_uri, verified_targets}
use risaml.Crypto.Targets.Laws.{
  NamesId, AllTrusted, verified_target_from_uri-id, verified_targets-AllTrusted,
}
use risaml.Crypto.Coverage.{verified_content}
use risaml.Crypto.Coverage.Laws.{IsCovered, verified_content-IsCovered}
use risaml.Crypto.Preflight.{preflight_backend_signatures}
use risaml.Crypto.Preflight.Paths.{ArePlaced}
use risaml.Crypto.Preflight.Positions.{preflight_backend_signatures-ArePlaced}
use risaml.Crypto.Verify.{
  SignatureVerification, verify_signatures_detailed_with_limits, verify_signature_with_limits,
  try_certificates, no_attempts,
}
use risaml.Crypto.Verify.Detailed.{IsAuthentic, verify_signatures_detailed_with_limits-IsAuthentic}
use risaml.Crypto.Verify.Sound.{IsGuarded, Vouches, verify_signature_with_limits-Vouches}
use risaml.Crypto.Verify.Rolling.{is_loadable, try_certificates-filter}
use risaml.Tests.Documents.{
  sample_xml, sample_crypto, signed_source, signed_resolved, signed_root, response_reference,
}

abbrev assertion_source : String
assertion_source = "<Assertion ID=\"a\"/>"

abbrev response_target : List VerifiedTarget
response_target = VerifiedTarget.id "r" ∷ []

verdict :
    verify_signature_with_limits sample_crypto sample_xml signed_source ("AAAA" ∷ []) default_limits
    ≡ ok (true, some assertion_source)
unfolding verify_signature_with_limits parse_with_limits risaml.Xml.Dom.Parse.parse_roots_inner
    risaml.Xml.Dom.check_input_bytes risaml.Xml.Dom.Parse.run risaml.Xml.Dom.Parse.open_element
    risaml.Xml.Dom.checked_node_count risaml.Xml.Dom.check_depth risaml.Xml.Dom.read_attrs
    risaml.Xml.Dom.read_attrs_from risaml.Xml.Dom.push_child risaml.Xml.Dom.Parse.only_root
    risaml.Crypto.Verify.signature_candidates risaml.Prelude.Text.contains_str wrapping_detected
    risaml.Crypto.Guards.children_named duplicate_saml_id risaml.Crypto.Guards.scan_node
    risaml.Crypto.Coverage.id_target_matches_node risaml.Crypto.Coverage.node_saml_id
    risaml.Crypto.Coverage.response_is_covered risaml.Crypto.Coverage.target_matches_node
    verified_content risaml.Crypto.Coverage.verified_response_content
    risaml.Crypto.Guards.saml_id_attr risaml.Crypto.Guards.saml_signature_candidates
    risaml.Crypto.Keys.ensure_crypto_provider_initialized risaml.Crypto.Keys.load_certificate
    risaml.Crypto.Keys.to_cert_pem preflight_backend_signatures
    risaml.Crypto.Preflight.preflight_dsig_element risaml.Crypto.Preflight.preflight_element
    risaml.Crypto.Preflight.preflight_event risaml.Crypto.Preflight.preflight_from
    risaml.Crypto.Preflight.preflight_signature_element risaml.Crypto.Preflight.root_position
    risaml.Crypto.Preflight.signature_attribute risaml.Crypto.Preflight.signature_attribute_from
    risaml.Crypto.Preflight.signature_namespace risaml.Crypto.Preflight.signature_position
    risaml.Crypto.Targets.ensure_reference_transforms_preserve_content
    risaml.Crypto.Targets.ensure_signature_transforms_preserve_content
    risaml.Crypto.Targets.fragment_target risaml.Crypto.Targets.is_external_reference
    risaml.Crypto.Targets.preflight_saml_reference_uris risaml.Crypto.Targets.verified_target
    verified_target_from_uri verified_targets risaml.Crypto.Targets.xpointer_id
    risaml.Crypto.Verify.check_candidates risaml.Crypto.Verify.check_inline_cert
    risaml.Crypto.Verify.descendant_cert risaml.Crypto.Verify.inline_signature_cert try_certificates
    risaml.Prelude.Text.after_last risaml.Prelude.Text.concat risaml.Prelude.Text.filter_chars
    risaml.Util.normalize_cert_string risaml.Util.remove risaml.Util.strip_pem
    risaml.Xml.Dom.Tree.attr risaml.Xml.Dom.find_lt
verdict = refl

verify_signature_with_limits-Vouches_example :
    (root : Node) × (parse_with_limits sample_xml signed_source default_limits ≡ ok root)
    × IsGuarded sample_xml signed_source root
    × Any (Vouches sample_crypto root signed_source (some assertion_source)) ("AAAA" ∷ [])
verify_signature_with_limits-Vouches_example =
    verify_signature_with_limits-Vouches sample_crypto sample_xml signed_source ("AAAA" ∷ [])
      default_limits (some assertion_source) verdict

preflight_passes : preflight_backend_signatures sample_xml signed_source ≡ ok tt
unfolding preflight_backend_signatures risaml.Crypto.Preflight.preflight_from
    risaml.Crypto.Preflight.preflight_event risaml.Crypto.Preflight.signature_namespace
    risaml.Crypto.Preflight.preflight_element risaml.Crypto.Preflight.preflight_signature_element
    risaml.Crypto.Preflight.signature_position risaml.Crypto.Preflight.root_position
    risaml.Crypto.Preflight.preflight_dsig_element risaml.Crypto.Preflight.signature_attribute
    risaml.Crypto.Preflight.signature_attribute_from verified_target_from_uri
    risaml.Prelude.Text.strip_prefix risaml.Crypto.Targets.fragment_target
    risaml.Crypto.Targets.xpointer_id
preflight_passes = refl

preflight_backend_signatures-ArePlaced_example : ArePlaced [] signed_resolved
preflight_backend_signatures-ArePlaced_example =
    preflight_backend_signatures-ArePlaced sample_xml signed_source preflight_passes

wrapping_detected_lem_example :
    (wrapping_detected signed_root ≡ true)
    ↔ Below "Assertion"
        (Below "Subject"
          (Below "SubjectConfirmation" (Below "SubjectConfirmationData" (Within IsForbidden))))
        signed_root
wrapping_detected_lem_example = wrapping_detected_lem signed_root

duplicate_saml_id_lem_example :
    (duplicate_saml_id signed_root [] ≡ none) ↔ ((v : String) → count v (saml_ids signed_root) ≤ 1)
duplicate_saml_id_lem_example = duplicate_saml_id_lem signed_root

content : verified_content signed_root signed_source response_target ≡ ok (some assertion_source)
unfolding verified_content risaml.Prelude.Text.contains_str
    risaml.Crypto.Coverage.verified_response_content risaml.Crypto.Guards.children_named
    risaml.Crypto.Coverage.id_target_matches_node risaml.Crypto.Coverage.node_saml_id
    risaml.Xml.Dom.Tree.attr risaml.Crypto.Coverage.response_is_covered
    risaml.Crypto.Coverage.target_matches_node
content = refl

verified_content-IsCovered_example :
    IsCovered signed_root signed_source response_target assertion_source
verified_content-IsCovered_example =
    verified_content-IsCovered signed_root signed_source response_target assertion_source content

targets : verified_targets (response_reference ∷ []) ≡ ok response_target
unfolding verified_targets risaml.Crypto.Targets.verified_target
    risaml.Crypto.Targets.is_external_reference risaml.Prelude.Text.strip_prefix
    verified_target_from_uri risaml.Crypto.Targets.fragment_target risaml.Crypto.Targets.xpointer_id
targets = refl

verified_targets-AllTrusted_example :
    ((response_reference ∷ []) ≢ []) × AllTrusted (response_reference ∷ []) response_target
verified_targets-AllTrusted_example =
    verified_targets-AllTrusted (response_reference ∷ []) response_target targets

pointer : verified_target_from_uri "#xpointer(id('r'))" ≡ ok (VerifiedTarget.id "r")
unfolding verified_target_from_uri risaml.Prelude.Text.strip_prefix
    risaml.Crypto.Targets.fragment_target risaml.Crypto.Targets.xpointer_id
    risaml.Prelude.Text.strip_suffix
pointer = refl

verified_target_from_uri-id_example : (◌≢◌ {A = String} "r" "") × NamesId "#xpointer(id('r'))" "r"
verified_target_from_uri-id_example = verified_target_from_uri-id "#xpointer(id('r'))" "r" pointer

some_loads : any (is_loadable sample_crypto) ("BBBB" ∷ "AAAA" ∷ []) ≡ true
unfolding is_loadable risaml.Crypto.Keys.load_certificate
    risaml.Crypto.Keys.ensure_crypto_provider_initialized risaml.Crypto.Keys.to_cert_pem
    risaml.Prelude.Text.contains_str risaml.Prelude.Text.concat risaml.Util.normalize_cert_string
    risaml.Util.strip_pem risaml.Prelude.Text.filter_chars risaml.Util.remove
some_loads = refl

try_certificates-filter_example :
    try_certificates sample_crypto sample_xml signed_root signed_source
      ("BBBB" ∷ "AAAA" ∷ [])
      no_attempts
    ≡ try_certificates sample_crypto sample_xml signed_root signed_source
        (filter (is_loadable sample_crypto) ("BBBB" ∷ "AAAA" ∷ []))
        no_attempts
try_certificates-filter_example =
    try_certificates-filter sample_crypto sample_xml signed_root signed_source
      ("BBBB" ∷ "AAAA" ∷ []) no_attempts none (inr some_loads)

abbrev report : SignatureVerification
report = record {
  verified = true;
  signed_content = some assertion_source;
  assertion_directly_covered = false;
  response_covered = true;
}

reported :
    verify_signatures_detailed_with_limits sample_crypto sample_xml signed_source
      ("AAAA" ∷ [])
      default_limits
    ≡ ok report
unfolding verify_signatures_detailed_with_limits parse_with_limits
    risaml.Xml.Dom.Parse.parse_roots_inner risaml.Xml.Dom.check_input_bytes risaml.Xml.Dom.Parse.run
    risaml.Xml.Dom.Parse.open_element risaml.Xml.Dom.checked_node_count risaml.Xml.Dom.check_depth
    risaml.Xml.Dom.read_attrs risaml.Xml.Dom.read_attrs_from risaml.Xml.Dom.push_child
    risaml.Xml.Dom.Parse.only_root risaml.Crypto.Verify.signature_candidates
    risaml.Prelude.Text.contains_str wrapping_detected risaml.Crypto.Guards.children_named
    duplicate_saml_id risaml.Crypto.Guards.scan_node risaml.Crypto.Coverage.id_target_matches_node
    risaml.Crypto.Coverage.node_saml_id risaml.Crypto.Coverage.response_is_covered
    risaml.Crypto.Coverage.target_matches_node verified_content
    risaml.Crypto.Coverage.verified_response_content risaml.Crypto.Guards.saml_id_attr
    risaml.Crypto.Guards.saml_signature_candidates
    risaml.Crypto.Keys.ensure_crypto_provider_initialized risaml.Crypto.Keys.load_certificate
    risaml.Crypto.Keys.to_cert_pem preflight_backend_signatures
    risaml.Crypto.Preflight.preflight_dsig_element risaml.Crypto.Preflight.preflight_element
    risaml.Crypto.Preflight.preflight_event risaml.Crypto.Preflight.preflight_from
    risaml.Crypto.Preflight.preflight_signature_element risaml.Crypto.Preflight.root_position
    risaml.Crypto.Preflight.signature_attribute risaml.Crypto.Preflight.signature_attribute_from
    risaml.Crypto.Preflight.signature_namespace risaml.Crypto.Preflight.signature_position
    risaml.Crypto.Targets.ensure_reference_transforms_preserve_content
    risaml.Crypto.Targets.ensure_signature_transforms_preserve_content
    risaml.Crypto.Targets.fragment_target risaml.Crypto.Targets.is_external_reference
    risaml.Crypto.Targets.preflight_saml_reference_uris risaml.Crypto.Targets.verified_target
    verified_target_from_uri verified_targets risaml.Crypto.Targets.xpointer_id
    risaml.Crypto.Verify.check_candidates risaml.Crypto.Verify.check_inline_cert
    risaml.Crypto.Verify.descendant_cert risaml.Crypto.Verify.inline_signature_cert
    risaml.Crypto.Verify.gather_certificates risaml.Crypto.Verify.gather_results
    risaml.Crypto.Verify.detailed_verdict risaml.Crypto.Coverage.assertion_is_directly_covered
    risaml.Prelude.Text.after_last risaml.Prelude.Text.concat risaml.Prelude.Text.filter_chars
    risaml.Util.normalize_cert_string risaml.Util.remove risaml.Util.strip_pem
    risaml.Xml.Dom.Tree.attr risaml.Xml.Dom.find_lt
reported = refl

verify_signatures_detailed_with_limits-IsAuthentic_example :
    (root : Node) × (parse_with_limits sample_xml signed_source default_limits ≡ ok root)
    × IsGuarded sample_xml signed_source root
    × IsAuthentic sample_crypto sample_xml signed_source ("AAAA" ∷ []) root report
verify_signatures_detailed_with_limits-IsAuthentic_example =
    verify_signatures_detailed_with_limits-IsAuthentic sample_crypto sample_xml signed_source
      ("AAAA" ∷ []) default_limits report reported refl
