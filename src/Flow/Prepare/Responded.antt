-- ===== src/Flow/Prepare/Responded.antt =====
-- What `verify_and_prepare` (src/flow.rs) finds where a response is to be signed.
use risaml.Prelude.{
  String, Bool, true, false, not, ok, >>=-eq-ok, of_ok, fail_if-ok, fail_if, ◌≡◌, ◌⊎◌, refl, inl,
  inr,
}
use risaml.Errors.{SamlError}
use risaml.Crypto.Verify.{SignatureVerification}
use risaml.Flow.Options.{Environment, FlowOptions, ResponseSignatureRequirement}
use risaml.Flow.Prepare.Cbc.{IsCbcFree, response_uses_cbc_encrypted_assertion-IsCbcFree}
use risaml.Flow.Prepare.{
  required_xml_signature_failed, require_response_coverage, response_signature_is_required,
  verify_embedded_signature, require_signed_response,
}

pub holds : (b : Bool) → not b ≡ false → b ≡ true
holds true h = refl
holds false h = cc

module _ (env : Environment) (opts : FlowOptions) where
  -- The document is verified, with this report.
  pub record IsAttested (document : String) (v : SignatureVerification) : Type 0 where
    pub is_report : verify_embedded_signature env opts document ≡ ok v
    pub is_verified : v.verified ≡ true

  module _ (source : String) where
    responds :
        (required present : Bool) (v : SignatureVerification)
        → verify_embedded_signature env opts source ≡ ok v
        → require_signed_response required present v ≡ ok tt
        → required ≡ true
        → IsAttested source v × (v.response_covered ≡ true)
    unfolding require_signed_response require_response_coverage
    responds required present v report passed e =
        let (_, verified, rest) =
          >>=-eq-ok (fail_if (not v.verified) (required_xml_signature_failed present)) _
            (rw e at passed) in
        (
          record {
            is_report = report;
            is_verified =
                holds v.verified (fail_if-ok _ (required_xml_signature_failed present) tt verified);
          },
          holds v.response_covered (fail_if-ok _ SamlError.signed_reference_mismatch tt rest),
        )

    -- The response as it came is verified, and covered.
    abbrev pub IsCovered : Type 0
    IsCovered = (v : SignatureVerification) × IsAttested source v × (v.response_covered ≡ true)

    -- The response is covered where it is to be signed: in any case, or where an assertion of it is
    -- encrypted in CBC mode.
    abbrev pub IsResponded : ResponseSignatureRequirement → Type 0
    IsResponded ResponseSignatureRequirement.optional = Unit
    IsResponded ResponseSignatureRequirement.required_for_encrypted_cbc =
        IsCbcFree env.xml source opts.xml_limits ⊎ IsCovered
    IsResponded ResponseSignatureRequirement.required = IsCovered

    pub respond :
        (response : ResponseSignatureRequirement) (required present : Bool)
        (v : SignatureVerification)
        → verify_embedded_signature env opts source ≡ ok v
        → response_signature_is_required env.xml response source opts.xml_limits ≡ ok required
        → require_signed_response required present v ≡ ok tt
        → IsResponded response
    unfolding response_signature_is_required
    respond ResponseSignatureRequirement.optional required present v report asked passed = tt
    respond ResponseSignatureRequirement.required_for_encrypted_cbc true present v report asked
          passed =
        let (attested, covered) = responds true present v report passed refl in
        inr (v, attested, covered)
    respond ResponseSignatureRequirement.required_for_encrypted_cbc false present v report asked
          passed =
        inl (response_uses_cbc_encrypted_assertion-IsCbcFree env.xml source opts.xml_limits asked)
    respond ResponseSignatureRequirement.required required present v report asked passed =
        let is_required : required ≡ true = of_ok (λ b. b ≡ true) asked refl in
        let (attested, covered) = responds required present v report passed is_required in
        (v, attested, covered)
