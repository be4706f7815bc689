-- ===== src/Crypto/Verify/Detailed.antt =====
-- What the detailed verdict of src/crypto/verify.rs rests on.
use risaml.Prelude.{
  String, true, false, ◌&&◌, Option, List, ok, ◌>>=◌, >>=-eq-ok, of_ok, is_nil, ◌≡◌, refl, ◌⊎◌, inl,
  inr, Any, All, Bool-cases,
}
use risaml.Prelude.Text.{contains_str}
use risaml.Libraries.Xml.{XmlLibrary}
use risaml.Libraries.Crypto.{CryptoLibrary}
use risaml.Xml.Dom.{XmlLimits}
use risaml.Xml.Dom.Tree.{Node, local_name}
use risaml.Xml.Dom.Parse.{parse_with_limits}
use risaml.Crypto.Keys.{ensure_crypto_provider_initialized}
use risaml.Crypto.Targets.{VerifiedTarget}
use risaml.Crypto.Coverage.{verified_content, assertion_is_directly_covered, response_is_covered}
use risaml.Crypto.Verify.{
  Gathered, Attempts, nothing_gathered, gather_certificates, no_verdict, not_verified,
  SignatureVerification, detailed_verdict, signature_candidates, check_candidates,
  verify_signatures_detailed_with_limits,
}
use risaml.Crypto.Verify.Sound.{
  IsGuarded, ContentIsCovered, signature_candidates-IsGuarded, content-ContentIsCovered,
}
use risaml.Crypto.Verify.Gathering.{
  All-map, YieldsTarget, VerifiesFirst, gather_certificates-IsSound,
}

-- The verdict of a document: the first signature was verified with the key of one of the
-- certificates, every target that was used comes from a trusted reference of a result that is valid
-- for one of them, and the content, and what is said to be covered, rests on these targets.
pub record IsAuthentic (crypto : CryptoLibrary) (xml : XmlLibrary) (source : String)
    (certs : List String) (root : Node) (v : SignatureVerification) : Type 0 where
  pub targets : List VerifiedTarget
  pub first_is_verified : Any (VerifiesFirst crypto xml source) certs
  pub are_yielded : All (λ t. Any (YieldsTarget crypto xml source t) certs) targets
  pub content_is_covered : ContentIsCovered root source targets v.signed_content
  pub assertion_flag : v.assertion_directly_covered ≡ assertion_is_directly_covered root targets
  pub response_flag :
      v.response_covered
      ≡ (contains_str "Response" (local_name root) && response_is_covered targets root)

only_yielded : {A : Type 0} (P : A → Type 0) (xs : List A) → All (λ a. ⊥ ⊎ P a) xs → All P xs
only_yielded P xs h =
    All-map xs (λ a y. elim y [ inl impossible ↦ absurd impossible | inr p ↦ p ]) h

module _ (crypto : CryptoLibrary) (xml : XmlLibrary) (source : String) (certs : List String) where
  negative_report :
      (a : Attempts) (v : SignatureVerification)
      → (no_verdict a >>= λ _. ok not_verified) ≡ ok v
      → v.verified ≡ false
  negative_report a v h =
      let (_, _, last) = >>=-eq-ok (no_verdict a) _ h in
      of_ok (λ (w : SignatureVerification). w.verified ≡ false) last refl

  authentic :
      (root : Node) (g : Gathered) (v : SignatureVerification) (content : Option String)
      → gather_certificates crypto xml source certs nothing_gathered ≡ ok g
      → g.first_signature_verified ≡ true
      → verified_content root source g.targets ≡ ok content
      → v ≡ record {
        verified = true;
        signed_content = content;
        assertion_directly_covered = assertion_is_directly_covered root g.targets;
        response_covered =
            contains_str "Response" (local_name root) && response_is_covered g.targets root;
      }
      → IsAuthentic crypto xml source certs root v
  authentic root g v content gathered first read shape =
      let (sound, flag) =
        gather_certificates-IsSound crypto xml source (λ t. ⊥) certs nothing_gathered g gathered
          tt in
      let is_first : Any (VerifiesFirst crypto xml source) certs = elim flag [
        | inl never ↦ cc
        | inr found ↦ found
      ] in
      record {
        targets = g.targets;
        first_is_verified = is_first;
        are_yielded =
            only_yielded (λ t. Any (YieldsTarget crypto xml source t) certs) g.targets sound;
        content_is_covered = rw shape (content-ContentIsCovered root source g.targets content read);
        assertion_flag = rw shape refl;
        response_flag = rw shape refl;
      }

  detailed_verdict-IsAuthentic :
      (root : Node) (g : Gathered) (v : SignatureVerification)
      → gather_certificates crypto xml source certs nothing_gathered ≡ ok g
      → detailed_verdict crypto xml root source g ≡ ok v
      → v.verified ≡ true
      → IsAuthentic crypto xml source certs root v
  unfolding detailed_verdict
  detailed_verdict-IsAuthentic root g v gathered h verified =
      elim (Bool-cases g.attempts.have_key) [
        | inr keyless ↦ cc (negative_report _ v (rw (detailed_verdict, keyless) at h))
        | inl keyed ↦ elim (Bool-cases g.first_signature_verified) [
          | inr unsigned ↦ cc (negative_report _ v (rw (detailed_verdict, keyed, unsigned) at h))
          | inl first ↦ elim (Bool-cases (is_nil g.targets)) [
            | inl empty ↦ cc (negative_report _ v (rw (detailed_verdict, keyed, first, empty) at h))
            | inr targeted ↦
                let h0 = rw (detailed_verdict, keyed, first, targeted) at h in
                let (content, read, last) =
                  >>=-eq-ok (verified_content root source g.targets) _ h0 in
                of_ok (λ w. IsAuthentic crypto xml source certs root w) last
                  (authentic root g _ content gathered first read refl)
          ]
        ]
      ]

  -- A document that the detailed verification reports as verified has passed the guards, and the
  -- report is authentic: it rests on the first signature, on trusted references that the keys of
  -- the certificates verified, and its content is covered by their targets.
  pub verify_signatures_detailed_with_limits-IsAuthentic :
      (limits : XmlLimits) (v : SignatureVerification)
      → verify_signatures_detailed_with_limits crypto xml source certs limits ≡ ok v
      → v.verified ≡ true
      → (root : Node) × (parse_with_limits xml source limits ≡ ok root)
        × IsGuarded xml source root
        × IsAuthentic crypto xml source certs root v
  unfolding verify_signatures_detailed_with_limits
  verify_signatures_detailed_with_limits-IsAuthentic limits v h verified =
      let (root, parsed, h1) = >>=-eq-ok (parse_with_limits xml source limits) _ h in
      let (signatures, guarded, h2) = >>=-eq-ok (signature_candidates xml source root) _ h1 in
      elim (Bool-cases (is_nil signatures)) [
        | inl unsigned ↦
            cc (of_ok (λ (w : SignatureVerification). w.verified ≡ false) (rw unsigned at h2) refl)
        | inr signed ↦
            let (_, _, h3) = >>=-eq-ok (check_candidates signatures certs) _ (rw signed at h2) in
            let (_, _, h4) = >>=-eq-ok (ensure_crypto_provider_initialized crypto) _ h3 in
            let (g, gathered, h5) =
              >>=-eq-ok (gather_certificates crypto xml source certs nothing_gathered) _ h4 in
            (
              root,
              parsed,
              (signature_candidates-IsGuarded xml source root signatures guarded).0,
              detailed_verdict-IsAuthentic root g v gathered h5 verified,
            )
      ]
