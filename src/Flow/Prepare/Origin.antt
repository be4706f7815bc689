-- ===== src/Flow/Prepare/Origin.antt =====
-- Where the content of a response comes from that `verify_and_prepare` (src/flow.rs) returns.
use risaml.Prelude.{
  String, Bool, true, false, not, some, ok, >>=-eq-ok, of_ok, fail_if-ok, fail_if, ◌≡◌, refl, inl,
  inr, Bool-cases, Option-cases, if◌then◌else◌,
}
use risaml.Constants.{ParserType}
use risaml.Crypto.Decrypt.{require_software_rsa_opt_in}
use risaml.Crypto.Verify.{is_some, has_xml_signature_with_limits, SignatureVerification}
use risaml.Flow.Options.{
  Environment, FlowOptions, AssertionSignatureRequirement, is_direct, ResponseSignatureRequirement,
  PreparedMessage,
}
use risaml.Flow.Prepare.Responded.{holds, IsAttested, IsResponded, respond}
use risaml.Flow.Prepare.{
  required_xml_signature_failed, require_direct_assertion_coverage, response_signature_is_required,
  verify_embedded_signature, decrypt_and_validate, verify_decrypted, check_direct,
  prepare_signed_then_encrypted, prepare_encrypted_then_signed, prepare_verified, prepare,
  require_signed_response, verify_and_prepare,
}

module _ (env : Environment) (opts : FlowOptions) where
  -- The assertion is covered by a reference of its own, if that is asked for.
  abbrev pub CoversDirectly : AssertionSignatureRequirement → SignatureVerification → Type 0
  CoversDirectly AssertionSignatureRequirement.compatible v = Unit
  CoversDirectly AssertionSignatureRequirement.direct v = v.assertion_directly_covered ≡ true

  abbrev pub IsDirectlyAttested : AssertionSignatureRequirement → String → Type 0
  IsDirectlyAttested AssertionSignatureRequirement.compatible assertion = Unit
  IsDirectlyAttested AssertionSignatureRequirement.direct assertion =
      (w : SignatureVerification) × IsAttested env opts assertion w
      × (w.assertion_directly_covered ≡ true)

  -- The three ways in which a response may have been signed and encrypted.
  pub data Origin (source : String) (requirement : AssertionSignatureRequirement)
      (p : PreparedMessage) : Type 0 where
    signed :
        (v : SignatureVerification)
        → IsAttested env opts source v
        → CoversDirectly requirement v
        → p ≡ record {
          saml_content = source;
          assertion = v.signed_content;
          response_authenticated = v.response_covered;
        }
        → Origin source requirement p
    signed_then_encrypted :
        (v : SignatureVerification) (node : String) (plain : String × String)
        → IsAttested env opts source v
        → v.signed_content ≡ some node
        → decrypt_and_validate env opts node ParserType.saml_response ≡ ok plain
        → IsDirectlyAttested requirement plain.1
        → p ≡ record {
          saml_content = plain.0;
          assertion = some plain.1;
          response_authenticated = v.response_covered;
        }
        → Origin source requirement p
    encrypted_then_signed :
        (w : SignatureVerification) (plain : String × String)
        → decrypt_and_validate env opts source ParserType.saml_response ≡ ok plain
        → IsAttested env opts (if is_direct requirement then plain.1 else plain.0) w
        → CoversDirectly requirement w
        → p ≡ record {
          saml_content = plain.0;
          assertion = if is_direct requirement then some plain.1 else w.signed_content;
          response_authenticated = false;
        }
        → Origin source requirement p

  require_direct-CoversDirectly :
      (requirement : AssertionSignatureRequirement) (v : SignatureVerification)
      → require_direct_assertion_coverage requirement v.assertion_directly_covered ≡ ok tt
      → CoversDirectly requirement v
  unfolding require_direct_assertion_coverage
  require_direct-CoversDirectly AssertionSignatureRequirement.compatible v h = tt
  require_direct-CoversDirectly AssertionSignatureRequirement.direct v h =
      elim (Bool-cases v.assertion_directly_covered) [
        | inl covered ↦ covered
        | inr uncovered ↦ cc (rw uncovered at h)
      ]

  verify_decrypted-IsAttested :
      (requirement : AssertionSignatureRequirement) (document : String) (w : SignatureVerification)
      → verify_decrypted env opts requirement document ≡ ok w
      → IsAttested env opts document w × CoversDirectly requirement w
  unfolding verify_decrypted
  verify_decrypted-IsAttested requirement document w h =
      let (present, _, h1) =
        >>=-eq-ok (has_xml_signature_with_limits env.xml document opts.xml_limits) _ h in
      let (v, report, h2) = >>=-eq-ok (verify_embedded_signature env opts document) _ h1 in
      let (_, verified, h3) =
        >>=-eq-ok (fail_if (not v.verified) (required_xml_signature_failed present)) _ h2 in
      let (_, covered, h4) =
        >>=-eq-ok (require_direct_assertion_coverage requirement v.assertion_directly_covered) _
          h3 in
      of_ok (λ w. IsAttested env opts document w × CoversDirectly requirement w) h4
        (
          record {
            is_report = report;
            is_verified =
                holds v.verified (fail_if-ok _ (required_xml_signature_failed present) tt verified);
          },
          require_direct-CoversDirectly requirement v covered,
        )

  check_direct-IsDirectlyAttested :
      (requirement : AssertionSignatureRequirement) (assertion : String)
      → check_direct env opts requirement assertion ≡ ok tt
      → IsDirectlyAttested requirement assertion
  check_direct-IsDirectlyAttested AssertionSignatureRequirement.compatible assertion h = tt
  check_direct-IsDirectlyAttested AssertionSignatureRequirement.direct assertion h =
      let (w, checked, _) =
        >>=-eq-ok (verify_decrypted env opts AssertionSignatureRequirement.direct assertion) _ h in
      let (attested, covered) =
        verify_decrypted-IsAttested AssertionSignatureRequirement.direct assertion w checked in
      (w, attested, covered)

  module _ (source : String) (requirement : AssertionSignatureRequirement) where
    prepare_verified-Origin :
        (v : SignatureVerification) (p : PreparedMessage)
        → IsAttested env opts source v
        → prepare_verified env opts source ParserType.saml_response requirement v ≡ ok p
        → Origin source requirement p
    unfolding prepare_verified
    prepare_verified-Origin v p attested h =
        let (_, covered, h1) =
          >>=-eq-ok (require_direct_assertion_coverage requirement v.assertion_directly_covered) _
            h in
        of_ok (Origin source requirement) h1
          (Origin.signed v attested (require_direct-CoversDirectly requirement v covered) refl)

    prepare_signed_then_encrypted-Origin :
        (v : SignatureVerification) (node : String) (p : PreparedMessage)
        → IsAttested env opts source v
        → v.signed_content ≡ some node
        → prepare_signed_then_encrypted env opts ParserType.saml_response requirement
            v.response_covered node
          ≡ ok p
        → Origin source requirement p
    unfolding prepare_signed_then_encrypted
    prepare_signed_then_encrypted-Origin v node p attested content h =
        let (plain, decrypted, h1) =
          >>=-eq-ok (decrypt_and_validate env opts node ParserType.saml_response) _ h in
        let (_, direct, h2) = >>=-eq-ok (check_direct env opts requirement plain.1) _ h1 in
        of_ok (Origin source requirement) h2 (
          Origin.signed_then_encrypted v node plain attested content decrypted
            (check_direct-IsDirectlyAttested requirement plain.1 direct) refl)

    prepare_encrypted_then_signed-Origin :
        (p : PreparedMessage)
        → prepare_encrypted_then_signed env opts source ParserType.saml_response requirement ≡ ok p
        → Origin source requirement p
    unfolding prepare_encrypted_then_signed
    prepare_encrypted_then_signed-Origin p h =
        let (plain, decrypted, h1) =
          >>=-eq-ok (decrypt_and_validate env opts source ParserType.saml_response) _ h in
        let (w, verified, h2) =
          >>=-eq-ok
            (verify_decrypted env opts requirement
              (if is_direct requirement then plain.1 else plain.0))
            _ h1 in
        let (attested, covered) = verify_decrypted-IsAttested requirement _ w verified in
        of_ok (Origin source requirement) h2
          (Origin.encrypted_then_signed w plain decrypted attested covered refl)

    unsigned_fails :
        (present : Bool) (v : SignatureVerification) (p : PreparedMessage)
        → v.verified ≡ false
        → prepare env opts source ParserType.saml_response requirement present v ≡ ok p
        → Origin source requirement p
    unfolding prepare
    unsigned_fails present v p unsigned h = elim (Bool-cases (is_some opts.decrypt_key)) [
      | inl keyed ↦ prepare_encrypted_then_signed-Origin p (rw (unsigned, keyed) at h)
      | inr keyless ↦ cc (rw (unsigned, keyless) at h)
    ]

    prepare-Origin :
        (present : Bool) (v : SignatureVerification) (p : PreparedMessage)
        → verify_embedded_signature env opts source ≡ ok v
        → prepare env opts source ParserType.saml_response requirement present v ≡ ok p
        → Origin source requirement p
    unfolding prepare
    prepare-Origin present v p report h = elim (Bool-cases v.verified) [
      | inr unsigned ↦ unsigned_fails present v p unsigned h
      | inl verified ↦
          let attested : IsAttested env opts source v = record {
            is_report = report;
            is_verified = verified;
          } in
          elim (Option-cases v.signed_content) [
            | inl empty ↦
                prepare_verified-Origin v p attested (elim (Bool-cases (is_some opts.decrypt_key)) [
                  | inl keyed ↦ rw (verified, empty, keyed) at h
                  | inr keyless ↦ rw (verified, empty, keyless) at h
                ])
            | inr (node, content) ↦ elim (Bool-cases (is_some opts.decrypt_key)) [
              | inl keyed ↦
                  prepare_signed_then_encrypted-Origin v node p attested content
                    (rw (verified, content, keyed) at h)
              | inr keyless ↦
                  prepare_verified-Origin v p attested (rw (verified, content, keyless) at h)
            ]
          ]
    ]

    -- What is returned for a response was attested in one of three ways: the response as it came is
    -- verified; or the verified content was decrypted; or the response was decrypted, and what came
    -- out is verified. Where the assertion is to be signed itself, it is covered directly in each of
    -- them. Where the response is to be signed, the response as it came is verified and covered; where
    -- it is to be signed for an encryption in CBC mode, it is so too, or no assertion below its root is
    -- encrypted by one of those algorithms.
    pub verify_and_prepare-Origin :
        (response : ResponseSignatureRequirement) (p : PreparedMessage)
        → verify_and_prepare env opts source ParserType.saml_response requirement response ≡ ok p
        → Origin source requirement p × IsResponded env opts source response
    unfolding verify_and_prepare
    verify_and_prepare-Origin response p h =
        let (present, _, h1) =
          >>=-eq-ok (has_xml_signature_with_limits env.xml source opts.xml_limits) _ h in
        let (v, report, h2) = >>=-eq-ok (verify_embedded_signature env opts source) _ h1 in
        let (required, asked, h3) =
          >>=-eq-ok (response_signature_is_required env.xml response source opts.xml_limits) _ h2 in
        let (_, passed, h4) = >>=-eq-ok (require_signed_response required present v) _ h3 in
        let (_, _, h5) =
          >>=-eq-ok
            (if is_some opts.decrypt_key
              then require_software_rsa_opt_in env.crypto opts.allow_insecure_software_rsa
              else ok tt)
            _ h4 in
        (
          prepare-Origin present v p report h5,
          respond env opts source response required present v report asked passed,
        )
