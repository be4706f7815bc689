-- ===== src/Tests/Run.antt =====
-- The flow of src/flow.rs at a signed response.
use risaml.Prelude.{ℕ, String, true, Option, none, some, List, [], ◌∷◌, Result, ok, err, ◌≡◌, refl}
use risaml.Constants.{Binding, ParserType}
use risaml.Util.Value.{Value, null, str, object_of, array_of}
use risaml.Validator.Status.{is_valid_xml_with_limits, check_status_with_limits}
use risaml.Xml.Dom.{default_limits}
use risaml.Xml.Extract.{extract_with_limits}
use risaml.Xml.Fields.{login_response_fields}
use risaml.Xml.Profile.{validate_protocol_profile}
use risaml.Flow.Audience.{audience_restrictions_contain}
use risaml.Flow.Audience.Sound.{IsFor, audience_restrictions_contain-AllAdmit}
use risaml.Flow.Context.Accepted.{IsAccepted, validate_context-IsAccepted}
use risaml.Flow.Prepare.Origin.{Origin, verify_and_prepare-Origin}
use risaml.Flow.Prepare.Responded.{IsResponded}
use risaml.Xml.Profile.Root.{StartsWithRoot, validate_protocol_profile-StartsWithRoot}
use risaml.Flow.Context.{validate_context}
use risaml.Flow.Decode.{decode_message}
use risaml.Flow.Options.{
  AssertionSignatureRequirement, ResponseSignatureRequirement, PreparedMessage,
}
use risaml.Flow.Prepare.{verify_and_prepare}
use risaml.Flow.Run.{
  FlowResult, flow_inner, read_message, authenticate, authenticate_embedded, default_fields,
}
use risaml.Flow.Run.Trusted.{IsTrusted, flow_inner-IsTrusted}
use risaml.Flow.Run.Screened.{IsScreened, flow_inner-IsScreened}
use risaml.Tests.Browser.{clock-IsLawful}
use risaml.Tests.Responses.{
  ascii, response_xml, response_environment, response_options, response_request,
}

abbrev extracted : Value
extracted = object_of (
    ("assertion", object_of (("id", str "a") ∷ ("issueInstant", str "2024-01-01T00:00:00Z") ∷ []))
    ∷ ("conditions", object_of (("notOnOrAfter", str "7") ∷ []))
    ∷ ("oneTimeUse", null)
    ∷ ("proxyRestriction", null)
    ∷ (
      "response",
      object_of (
          ("id", str "r")
          ∷ ("issueInstant", str "2024-01-01T00:00:00Z")
          ∷ ("destination", str "https://sp/acs")
          ∷ []),
    )
    ∷ ("audience", str "https://sp")
    ∷ ("issuer", null)
    ∷ ("nameID", null)
    ∷ ("nameIDFormat", null)
    ∷ ("subjectConfirmation", str "C")
    ∷ ("sessionIndex", array_of [])
    ∷ ("attributes", object_of [])
    ∷ [])

abbrev result : FlowResult
result = record { saml_content = "RSACU"; extract = extracted; sig_alg = none }

abbrev acs : Option String
acs = some "https://sp/acs"

screened : is_valid_xml_with_limits response_xml none "RSACU" default_limits ≡ ok tt
unfolding is_valid_xml_with_limits risaml.Xml.Dom.Parse.parse_with_limits
    risaml.Xml.Dom.Parse.parse_roots_inner risaml.Xml.Dom.check_input_bytes risaml.Xml.Dom.Parse.run
    risaml.Xml.Dom.Parse.open_element risaml.Xml.Dom.checked_node_count risaml.Xml.Dom.check_depth
    risaml.Xml.Dom.read_attrs risaml.Xml.Dom.read_attrs_from risaml.Xml.Dom.push_child
    risaml.Xml.Dom.Parse.append_text_to risaml.Xml.Dom.checked_append_text
    risaml.Xml.Dom.Parse.only_root
screened = refl

profiled :
    validate_protocol_profile response_xml "RSACU" ParserType.saml_response default_limits ≡ ok tt
unfolding validate_protocol_profile risaml.Xml.Dom.check_input_bytes risaml.Xml.Profile.profile_run
    risaml.Xml.Profile.profile_step risaml.Xml.Profile.mark_stack
    risaml.Xml.Profile.validate_element risaml.Xml.Profile.validate_root
    risaml.Xml.Profile.Attributes.classify_namespace
    risaml.Xml.Profile.Attributes.validate_unqualified_attributes
    risaml.Xml.Profile.Attributes.validate_attributes risaml.Xml.Profile.Attributes.read_attributes
    risaml.Xml.Profile.Attributes.read_attribute risaml.Xml.Profile.Attributes.require_attributes
    risaml.Xml.Profile.Attributes.require_version_2
    risaml.Xml.Profile.Attributes.require_issue_instant risaml.Xml.DateTime.parse_saml_utc_date_time
    risaml.Prelude.Text.strip_suffix risaml.Prelude.Text.as_bytes risaml.Prelude.Text.concat
    risaml.Prelude.Text.show risaml.Prelude.Text.strip_prefix risaml.Prelude.Text.to_char
    risaml.Prelude.Text.trim_end risaml.Prelude.Text.trim_matches risaml.Prelude.Text.trim_start
    risaml.Xml.DateTime.digit_value risaml.Xml.DateTime.has_separators
    risaml.Xml.DateTime.is_leap_year risaml.Xml.DateTime.is_valid_calendar_day
    risaml.Xml.DateTime.is_valid_fraction risaml.Xml.DateTime.is_valid_hour
    risaml.Xml.DateTime.is_valid_year risaml.Xml.DateTime.max_day risaml.Xml.DateTime.parse_bytes
    risaml.Xml.DateTime.parse_fields risaml.Xml.DateTime.parse_saml_utc_date_time_with_seconds
    risaml.Xml.DateTime.parse_two_ascii_digits risaml.Xml.DateTime.position
    risaml.Xml.DateTime.signed_year_modulo risaml.Xml.DateTime.year_modulo
    risaml.Xml.DateTime.year_modulo_from risaml.Xml.Profile.Attributes.is_count
    risaml.Xml.Profile.Attributes.require_optional_saml_utc_date_time
    risaml.Xml.Profile.Attributes.validate_closed_unqualified_attributes
    risaml.Xml.Profile.Children.consumed_attributes
    risaml.Xml.Profile.Children.expected_child_namespace risaml.Xml.Profile.validate_expected
    risaml.Xml.Profile.validate_inner
profiled = refl

succeeded :
    check_status_with_limits ascii response_xml "RSACU" ParserType.saml_response default_limits
    ≡ ok tt
unfolding check_status_with_limits extract_with_limits risaml.Xml.Dom.Parse.parse_with_limits
    risaml.Xml.Dom.Parse.parse_roots_inner risaml.Xml.Dom.check_input_bytes risaml.Xml.Dom.Parse.run
    risaml.Xml.Dom.Parse.open_element risaml.Xml.Dom.checked_node_count risaml.Xml.Dom.check_depth
    risaml.Xml.Dom.read_attrs risaml.Xml.Dom.read_attrs_from risaml.Xml.Dom.push_child
    risaml.Xml.Dom.Parse.append_text_to risaml.Xml.Dom.checked_append_text
    risaml.Xml.Dom.Parse.only_root risaml.Xml.Extract.extract_fields
    risaml.Xml.Fields.login_response_status_fields risaml.Prelude.Text.concat
    risaml.Prelude.Text.contains_str risaml.Prelude.Text.show risaml.Prelude.Text.split
    risaml.Prelude.Text.strip_prefix risaml.Prelude.Text.to_char risaml.Util.Case.camel_case
    risaml.Util.Case.words_from risaml.Util.Value.add_entry risaml.Util.Value.get
    risaml.Util.Value.get_path risaml.Util.Value.get_str risaml.Util.Value.insert_entry
    risaml.Util.Value.uniq risaml.Util.Value.zip_into risaml.Util.Value.zip_object
    risaml.Validator.Status.status_of risaml.Xml.Dom.Parse.add_child
    risaml.Xml.Dom.Parse.general_ref_text risaml.Xml.Dom.Parse.push_general_ref
    risaml.Xml.Dom.Parse.step risaml.Xml.Dom.Tree.attr risaml.Xml.Dom.find_lt
    risaml.Xml.Dom.is_xml_whitespace risaml.Xml.Dom.reject_non_document_content
    risaml.Xml.Extract.Select.descend risaml.Xml.Extract.Select.seg_matches
    risaml.Xml.Extract.Select.select_path risaml.Xml.Extract.Select.walk
    risaml.Xml.Extract.aggregate risaml.Xml.Extract.extract_field
    risaml.Xml.Fields.logout_response_status_fields
succeeded = refl

decoded :
    decode_message response_environment.codec Binding.post ParserType.saml_response response_request
      1_048_576 default_limits
    ≡ ok "RSACU"
unfolding decode_message risaml.Flow.Decode.decode_bytes risaml.Flow.Params.body_get
    risaml.Flow.Params.single_param risaml.Encoding.base64_decode_with_limit
    risaml.Encoding.max_encoded_len risaml.Encoding.count_non_whitespace
    risaml.Prelude.Text.as_bytes risaml.Encoding.normalized risaml.Prelude.Text.is_ascii
    risaml.Xml.Dom.check_input_bytes risaml.Prelude.Text.from_utf8
decoded = refl

read :
    read_message response_environment response_options response_request Binding.post
      ParserType.saml_response
    ≡ ok "RSACU"
unfolding read_message
read = rw (decoded, screened, profiled, succeeded)

abbrev prepared : PreparedMessage
prepared = record { saml_content = "RSACU"; assertion = some "ACU"; response_authenticated = true }

prepares :
    verify_and_prepare response_environment response_options "RSACU" ParserType.saml_response
      AssertionSignatureRequirement.compatible ResponseSignatureRequirement.required
    ≡ ok prepared
unfolding verify_and_prepare risaml.Crypto.Verify.has_xml_signature_with_limits
    risaml.Xml.Dom.Parse.parse_with_limits risaml.Xml.Dom.Parse.parse_roots_inner
    risaml.Xml.Dom.check_input_bytes risaml.Xml.Dom.Parse.run risaml.Xml.Dom.Parse.open_element
    risaml.Xml.Dom.checked_node_count risaml.Xml.Dom.check_depth risaml.Xml.Dom.read_attrs
    risaml.Xml.Dom.read_attrs_from risaml.Xml.Dom.push_child risaml.Xml.Dom.Parse.append_text_to
    risaml.Xml.Dom.checked_append_text risaml.Xml.Dom.Parse.only_root
    risaml.Crypto.Preflight.preflight_backend_signatures risaml.Crypto.Preflight.preflight_from
    risaml.Crypto.Preflight.preflight_event risaml.Crypto.Preflight.signature_namespace
    risaml.Crypto.Preflight.preflight_element risaml.Crypto.Preflight.preflight_signature_element
    risaml.Crypto.Preflight.signature_position risaml.Crypto.Preflight.root_position
    risaml.Crypto.Preflight.preflight_dsig_element risaml.Crypto.Preflight.signature_attribute
    risaml.Crypto.Preflight.signature_attribute_from risaml.Crypto.Targets.verified_target_from_uri
    risaml.Prelude.Text.strip_prefix risaml.Crypto.Targets.fragment_target
    risaml.Crypto.Targets.xpointer_id risaml.Flow.Prepare.verify_embedded_signature
    risaml.Crypto.Verify.verify_signatures_detailed_with_limits
    risaml.Crypto.Verify.signature_candidates risaml.Prelude.Text.contains_str
    risaml.Crypto.Guards.wrapping_detected risaml.Crypto.Guards.children_named
    risaml.Crypto.Guards.has_descendant risaml.Crypto.Guards.duplicate_saml_id
    risaml.Crypto.Guards.scan_node risaml.Crypto.Guards.saml_id_attr risaml.Prelude.Text.after_last
    risaml.Crypto.Guards.saml_signature_candidates risaml.Crypto.Verify.check_candidates
    risaml.Crypto.Targets.preflight_saml_reference_uris risaml.Xml.Dom.Tree.attr
    risaml.Crypto.Targets.ensure_signature_transforms_preserve_content
    risaml.Crypto.Targets.ensure_reference_transforms_preserve_content
    risaml.Crypto.Verify.check_inline_cert risaml.Crypto.Verify.inline_signature_cert
    risaml.Crypto.Verify.descendant_cert risaml.Crypto.Keys.ensure_crypto_provider_initialized
    risaml.Crypto.Verify.gather_certificates risaml.Crypto.Keys.load_certificate
    risaml.Crypto.Keys.to_cert_pem risaml.Prelude.Text.concat risaml.Util.normalize_cert_string
    risaml.Util.strip_pem risaml.Prelude.Text.filter_chars risaml.Util.remove
    risaml.Crypto.Verify.gather_results risaml.Crypto.Targets.verified_targets
    risaml.Crypto.Targets.verified_target risaml.Crypto.Targets.is_external_reference
    risaml.Crypto.Verify.detailed_verdict risaml.Crypto.Coverage.verified_content
    risaml.Crypto.Coverage.verified_response_content risaml.Crypto.Coverage.id_target_matches_node
    risaml.Crypto.Coverage.node_saml_id risaml.Crypto.Coverage.response_is_covered
    risaml.Crypto.Coverage.target_matches_node risaml.Flow.Prepare.response_signature_is_required
    risaml.Flow.Prepare.require_signed_response risaml.Flow.Prepare.require_response_coverage
    risaml.Flow.Prepare.prepare risaml.Flow.Prepare.prepare_verified
    risaml.Flow.Prepare.require_direct_assertion_coverage risaml.Xml.Dom.find_lt
prepares = refl

prepares_optional :
    verify_and_prepare response_environment response_options "RSACU" ParserType.saml_response
      AssertionSignatureRequirement.compatible ResponseSignatureRequirement.optional
    ≡ ok prepared
unfolding verify_and_prepare risaml.Crypto.Verify.has_xml_signature_with_limits
    risaml.Xml.Dom.Parse.parse_with_limits risaml.Xml.Dom.Parse.parse_roots_inner
    risaml.Xml.Dom.check_input_bytes risaml.Xml.Dom.Parse.run risaml.Xml.Dom.Parse.open_element
    risaml.Xml.Dom.checked_node_count risaml.Xml.Dom.check_depth risaml.Xml.Dom.read_attrs
    risaml.Xml.Dom.read_attrs_from risaml.Xml.Dom.push_child risaml.Xml.Dom.Parse.append_text_to
    risaml.Xml.Dom.checked_append_text risaml.Xml.Dom.Parse.only_root
    risaml.Crypto.Preflight.preflight_backend_signatures risaml.Crypto.Preflight.preflight_from
    risaml.Crypto.Preflight.preflight_event risaml.Crypto.Preflight.signature_namespace
    risaml.Crypto.Preflight.preflight_element risaml.Crypto.Preflight.preflight_signature_element
    risaml.Crypto.Preflight.signature_position risaml.Crypto.Preflight.root_position
    risaml.Crypto.Preflight.preflight_dsig_element risaml.Crypto.Preflight.signature_attribute
    risaml.Crypto.Preflight.signature_attribute_from risaml.Crypto.Targets.verified_target_from_uri
    risaml.Prelude.Text.strip_prefix risaml.Crypto.Targets.fragment_target
    risaml.Crypto.Targets.xpointer_id risaml.Flow.Prepare.verify_embedded_signature
    risaml.Crypto.Verify.verify_signatures_detailed_with_limits
    risaml.Crypto.Verify.signature_candidates risaml.Prelude.Text.contains_str
    risaml.Crypto.Guards.wrapping_detected risaml.Crypto.Guards.children_named
    risaml.Crypto.Guards.has_descendant risaml.Crypto.Guards.duplicate_saml_id
    risaml.Crypto.Guards.scan_node risaml.Crypto.Guards.saml_id_attr risaml.Prelude.Text.after_last
    risaml.Crypto.Guards.saml_signature_candidates risaml.Crypto.Verify.check_candidates
    risaml.Crypto.Targets.preflight_saml_reference_uris risaml.Xml.Dom.Tree.attr
    risaml.Crypto.Targets.ensure_signature_transforms_preserve_content
    risaml.Crypto.Targets.ensure_reference_transforms_preserve_content
    risaml.Crypto.Verify.check_inline_cert risaml.Crypto.Verify.inline_signature_cert
    risaml.Crypto.Verify.descendant_cert risaml.Crypto.Keys.ensure_crypto_provider_initialized
    risaml.Crypto.Verify.gather_certificates risaml.Crypto.Keys.load_certificate
    risaml.Crypto.Keys.to_cert_pem risaml.Prelude.Text.concat risaml.Util.normalize_cert_string
    risaml.Util.strip_pem risaml.Prelude.Text.filter_chars risaml.Util.remove
    risaml.Crypto.Verify.gather_results risaml.Crypto.Targets.verified_targets
    risaml.Crypto.Targets.verified_target risaml.Crypto.Targets.is_external_reference
    risaml.Crypto.Verify.detailed_verdict risaml.Crypto.Coverage.verified_content
    risaml.Crypto.Coverage.verified_response_content risaml.Crypto.Coverage.id_target_matches_node
    risaml.Crypto.Coverage.node_saml_id risaml.Crypto.Coverage.response_is_covered
    risaml.Crypto.Coverage.target_matches_node risaml.Flow.Prepare.response_signature_is_required
    risaml.Flow.Prepare.require_signed_response risaml.Flow.Prepare.prepare
    risaml.Flow.Prepare.prepare_verified risaml.Flow.Prepare.require_direct_assertion_coverage
    risaml.Xml.Dom.find_lt
prepares_optional = refl

extracts :
    extract_with_limits ascii response_xml default_limits "RSACU" (login_response_fields "ACU")
    ≡ ok extracted
unfolding extract_with_limits risaml.Xml.Dom.Parse.parse_with_limits
    risaml.Xml.Dom.Parse.parse_roots_inner risaml.Xml.Dom.check_input_bytes risaml.Xml.Dom.Parse.run
    risaml.Xml.Dom.Parse.open_element risaml.Xml.Dom.checked_node_count risaml.Xml.Dom.check_depth
    risaml.Xml.Dom.read_attrs risaml.Xml.Dom.read_attrs_from risaml.Xml.Dom.push_child
    risaml.Xml.Dom.Parse.append_text_to risaml.Xml.Dom.checked_append_text
    risaml.Xml.Dom.Parse.only_root risaml.Xml.Extract.extract_fields login_response_fields
    risaml.Xml.Extract.extract_field risaml.Prelude.Text.concat risaml.Prelude.Text.contains_str
    risaml.Prelude.Text.show risaml.Prelude.Text.strip_prefix risaml.Prelude.Text.to_char
    risaml.Util.Case.camel_case risaml.Util.Case.words_from risaml.Util.Value.add_entry
    risaml.Util.Value.insert_entry risaml.Util.Value.uniq risaml.Util.Value.zip_into
    risaml.Util.Value.zip_object risaml.Xml.Dom.Parse.add_child
    risaml.Xml.Dom.Parse.general_ref_text risaml.Xml.Dom.Parse.push_general_ref
    risaml.Xml.Dom.Parse.step risaml.Xml.Dom.Tree.attr risaml.Xml.Dom.find_lt
    risaml.Xml.Dom.is_xml_whitespace risaml.Xml.Dom.reject_non_document_content
    risaml.Xml.Extract.Select.descend risaml.Xml.Extract.Select.seg_matches
    risaml.Xml.Extract.Select.select_path risaml.Xml.Extract.Select.walk
    risaml.Xml.Extract.aggregate
extracts = refl

accepts :
    validate_context response_environment response_options ParserType.saml_response
      (some "ACU")
      extracted
      acs
      true
    ≡ ok tt
unfolding validate_context extract_with_limits risaml.Xml.Dom.Parse.parse_with_limits
    risaml.Xml.Dom.Parse.parse_roots_inner risaml.Xml.Dom.check_input_bytes risaml.Xml.Dom.Parse.run
    risaml.Xml.Dom.Parse.open_element risaml.Xml.Dom.checked_node_count risaml.Xml.Dom.check_depth
    risaml.Xml.Dom.read_attrs risaml.Xml.Dom.read_attrs_from risaml.Xml.Dom.push_child
    risaml.Xml.Dom.Parse.append_text_to risaml.Xml.Dom.checked_append_text
    risaml.Xml.Dom.Parse.only_root risaml.Xml.DateTime.parse_saml_utc_date_time
    risaml.Prelude.Text.strip_suffix risaml.Prelude.Text.as_bytes risaml.Prelude.Text.concat
    risaml.Prelude.Text.show risaml.Prelude.Text.strip_prefix risaml.Prelude.Text.to_char
    risaml.Prelude.Text.trim_end risaml.Prelude.Text.trim_matches risaml.Prelude.Text.trim_start
    risaml.Xml.DateTime.digit_value risaml.Xml.DateTime.has_separators
    risaml.Xml.DateTime.is_leap_year risaml.Xml.DateTime.is_valid_calendar_day
    risaml.Xml.DateTime.is_valid_fraction risaml.Xml.DateTime.is_valid_hour
    risaml.Xml.DateTime.is_valid_year risaml.Xml.DateTime.max_day risaml.Xml.DateTime.parse_bytes
    risaml.Xml.DateTime.parse_fields risaml.Xml.DateTime.parse_saml_utc_date_time_with_seconds
    risaml.Xml.DateTime.parse_two_ascii_digits risaml.Xml.DateTime.position
    risaml.Xml.DateTime.signed_year_modulo risaml.Xml.DateTime.year_modulo
    risaml.Xml.DateTime.year_modulo_from risaml.Xml.Extract.extract_fields
    risaml.Xml.Fields.login_response_status_fields risaml.Prelude.Text.contains_str
    risaml.Prelude.Text.split risaml.Util.Case.camel_case risaml.Util.Case.words_from
    risaml.Util.Value.add_entry risaml.Util.Value.get risaml.Util.Value.get_path
    risaml.Util.Value.get_str risaml.Util.Value.insert_entry risaml.Util.Value.uniq
    risaml.Util.Value.zip_into risaml.Util.Value.zip_object risaml.Xml.Dom.Parse.add_child
    risaml.Xml.Dom.Parse.general_ref_text risaml.Xml.Dom.Parse.push_general_ref
    risaml.Xml.Dom.Parse.step risaml.Xml.Dom.Tree.attr risaml.Xml.Dom.find_lt
    risaml.Xml.Dom.is_xml_whitespace risaml.Xml.Dom.reject_non_document_content
    risaml.Xml.Extract.Select.descend risaml.Xml.Extract.Select.seg_matches
    risaml.Xml.Extract.Select.select_path risaml.Xml.Extract.Select.walk
    risaml.Xml.Extract.aggregate risaml.Xml.Extract.extract_field
    risaml.Xml.Fields.logout_response_status_fields risaml.Prelude.Text.is_ascii
    risaml.Prelude.Text.from_utf8 risaml.Prelude.Text.after_last risaml.Util.normalize_cert_string
    risaml.Util.strip_pem risaml.Prelude.Text.filter_chars risaml.Util.remove
    risaml.Flow.Context.validate_response_destination risaml.Flow.Context.validate_issuer
    risaml.Flow.Context.validate_in_response_to risaml.Flow.Context.validate_audience
    risaml.Flow.Context.validate_sessions risaml.Flow.Context.validate_conditions
    risaml.Flow.Context.validate_saml_response risaml.Flow.Context.validate_logout_request
    risaml.Flow.Audience.audience_field risaml.Flow.Audience.audience_restriction_field
    risaml.Flow.Audience.names_audience risaml.Flow.Audience.audience_restriction_contains
    risaml.Flow.Audience.all_restrictions_contain risaml.Flow.Audience.restrictions_contain
    risaml.Flow.Audience.audience_restrictions_contain
    risaml.Flow.Confirmation.subject_confirmation_xmls risaml.Flow.Confirmation.confirmation_fields
    risaml.Flow.Confirmation.check_data risaml.Flow.Confirmation.check_bearer_subject_confirmation
    risaml.Flow.Confirmation.try_confirmations
    risaml.Flow.Confirmation.validate_subject_confirmation risaml.Validator.Status.bounds_of
    risaml.Validator.Status.conditions_time_bounds risaml.Validator.Status.status_of
    risaml.Validator.Status.check_status_with_limits
    risaml.Validator.Status.is_valid_xml_with_limits
    risaml.Validator.offset_datetime_from_system_time risaml.Validator.verify_time_at
    risaml.Flow.Options.validation_now risaml.Util.Value.get_key risaml.Util.Value.insert
    risaml.Prelude.◌+ℤ◌ risaml.Prelude.scale
    risaml.Model.Session.authn_statement_not_on_or_after_values
    risaml.Model.Session.authn_statement_values
    risaml.Model.Session.earliest_authn_session_expiration risaml.Model.Session.earliest_from
accepts = refl

succeeds :
    flow_inner response_environment response_options response_request acs
      AssertionSignatureRequirement.compatible ResponseSignatureRequirement.optional
    ≡ ok result
unfolding flow_inner authenticate authenticate_embedded default_fields
succeeds = rw (read, prepares_optional, extracts, accepts)

flow_inner-IsTrusted_example :
    IsTrusted response_environment response_options response_request Binding.post acs
      AssertionSignatureRequirement.compatible result
flow_inner-IsTrusted_example =
    flow_inner-IsTrusted response_environment response_options response_request clock-IsLawful
      Binding.post acs AssertionSignatureRequirement.compatible
      ResponseSignatureRequirement.optional result refl refl refl refl succeeds

flow_inner-IsScreened_example :
    (source : String) × IsScreened response_environment response_options response_request
      Binding.post ParserType.saml_response source
flow_inner-IsScreened_example =
    flow_inner-IsScreened response_environment response_options response_request Binding.post
      ParserType.saml_response acs AssertionSignatureRequirement.compatible
      ResponseSignatureRequirement.optional result refl refl succeeds

verify_and_prepare-Origin_example :
    Origin response_environment response_options "RSACU" AssertionSignatureRequirement.compatible
      prepared
    × IsResponded response_environment response_options "RSACU"
        ResponseSignatureRequirement.required
verify_and_prepare-Origin_example =
    verify_and_prepare-Origin response_environment response_options "RSACU"
      AssertionSignatureRequirement.compatible ResponseSignatureRequirement.required prepared
      prepares

validate_context-IsAccepted_example :
    IsAccepted response_environment response_options (some "ACU") extracted acs true
validate_context-IsAccepted_example =
    validate_context-IsAccepted response_environment clock-IsLawful response_options (some "ACU")
      extracted acs true accepts

validate_protocol_profile-StartsWithRoot_example :
    StartsWithRoot ParserType.saml_response
      (response_xml.read_resolved_events (some default_limits.max_attributes_per_element) "RSACU")
validate_protocol_profile-StartsWithRoot_example =
    validate_protocol_profile-StartsWithRoot response_xml "RSACU" ParserType.saml_response
      default_limits profiled

heard :
    audience_restrictions_contain ascii response_xml "https://sp" default_limits (some "ACU")
    ≡ ok true
unfolding audience_restrictions_contain extract_with_limits risaml.Xml.Dom.Parse.parse_with_limits
    risaml.Xml.Dom.Parse.parse_roots_inner risaml.Xml.Dom.check_input_bytes risaml.Xml.Dom.Parse.run
    risaml.Xml.Dom.Parse.open_element risaml.Xml.Dom.checked_node_count risaml.Xml.Dom.check_depth
    risaml.Xml.Dom.read_attrs risaml.Xml.Dom.read_attrs_from risaml.Xml.Dom.push_child
    risaml.Xml.Dom.Parse.append_text_to risaml.Xml.Dom.checked_append_text
    risaml.Xml.Dom.Parse.only_root risaml.Prelude.Text.strip_suffix risaml.Prelude.Text.as_bytes
    risaml.Prelude.Text.concat risaml.Prelude.Text.show risaml.Prelude.Text.strip_prefix
    risaml.Prelude.Text.to_char risaml.Prelude.Text.trim_end risaml.Prelude.Text.trim_matches
    risaml.Prelude.Text.trim_start risaml.Xml.Extract.extract_fields
    risaml.Xml.Fields.login_response_status_fields risaml.Prelude.Text.contains_str
    risaml.Prelude.Text.split risaml.Util.Case.camel_case risaml.Util.Case.words_from
    risaml.Util.Value.add_entry risaml.Util.Value.get risaml.Util.Value.get_path
    risaml.Util.Value.get_str risaml.Util.Value.insert_entry risaml.Util.Value.uniq
    risaml.Util.Value.zip_into risaml.Util.Value.zip_object risaml.Xml.Dom.Parse.add_child
    risaml.Xml.Dom.Parse.general_ref_text risaml.Xml.Dom.Parse.push_general_ref
    risaml.Xml.Dom.Parse.step risaml.Xml.Dom.Tree.attr risaml.Xml.Dom.find_lt
    risaml.Xml.Dom.is_xml_whitespace risaml.Xml.Dom.reject_non_document_content
    risaml.Xml.Extract.Select.descend risaml.Xml.Extract.Select.seg_matches
    risaml.Xml.Extract.Select.select_path risaml.Xml.Extract.Select.walk
    risaml.Xml.Extract.aggregate risaml.Xml.Extract.extract_field
    risaml.Xml.Fields.logout_response_status_fields risaml.Prelude.Text.is_ascii
    risaml.Prelude.Text.from_utf8 risaml.Prelude.Text.after_last risaml.Util.normalize_cert_string
    risaml.Util.strip_pem risaml.Prelude.Text.filter_chars risaml.Util.remove
    risaml.Flow.Audience.audience_field risaml.Flow.Audience.audience_restriction_field
    risaml.Flow.Audience.names_audience risaml.Flow.Audience.audience_restriction_contains
    risaml.Flow.Audience.all_restrictions_contain risaml.Flow.Audience.restrictions_contain
    risaml.Flow.Options.validation_now risaml.Util.Value.get_key risaml.Util.Value.insert
    risaml.Prelude.◌+ℤ◌ risaml.Prelude.scale
heard = refl

audience_restrictions_contain-AllAdmit_example :
    IsFor ascii response_xml "https://sp" default_limits (some "ACU")
audience_restrictions_contain-AllAdmit_example =
    audience_restrictions_contain-AllAdmit ascii response_xml "https://sp" default_limits
      (some "ACU") heard
