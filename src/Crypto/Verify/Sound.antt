-- ===== src/Crypto/Verify/Sound.antt =====
-- What a verdict of src/crypto/verify.rs rests on.
use risaml.Prelude.{
  String, Bool, true, false, ◌&&◌, Option, none, some, List, [], ◌∷◌, ok, >>=-eq-ok, of_ok,
  fail_if-ok, fail_if, is_nil, ◌≡◌, refl, inl, inr, Any, Result-cases, Bool-cases, count, ◌≤◌,
  string_eq,
}
use risaml.Prelude.Text.{contains_str}
use risaml.Errors.{SamlResult}
use risaml.Libraries.Xml.{XmlLibrary}
use risaml.Libraries.Crypto.{CryptoLibrary, VerifyResult, VerifiedReference}
use risaml.Xml.Dom.{XmlLimits}
use risaml.Xml.Dom.Tree.{Node, local_name}
use risaml.Xml.Dom.Parse.{parse_with_limits}
use risaml.Crypto.Keys.{load_certificate, ensure_crypto_provider_initialized}
use risaml.Crypto.Guards.{wrapping_detected, duplicate_saml_id, saml_signature_candidates}
use risaml.Crypto.Guards.Identifiers.{saml_ids, duplicate_saml_id_lem}
use risaml.Crypto.Targets.{VerifiedTarget, verified_targets}
use risaml.Crypto.Targets.Laws.{AllTrusted, verified_targets-AllTrusted}
use risaml.Crypto.Coverage.{verified_content}
use risaml.Crypto.Coverage.Laws.{IsCovered, verified_content-IsCovered}
use risaml.Crypto.Preflight.{preflight_backend_signatures}
use risaml.Crypto.Preflight.Paths.{ArePlaced}
use risaml.Crypto.Preflight.Positions.{preflight_backend_signatures-ArePlaced}
use risaml.Crypto.Verify.{
  is_some, context, Attempts, no_attempts, unloadable, no_verdict, try_certificates,
  signature_candidates, check_candidates, verify_signature_with_limits,
}

-- The document passed the guards.
pub record IsGuarded (xml : XmlLibrary) (source : String) (root : Node) : Type 0 where
  pub not_wrapped : (contains_str "Response" (local_name root) && wrapping_detected root) ≡ false
  pub ids_are_distinct : (v : String) → count v (saml_ids root) ≤ 1
  pub signatures_are_placed : ArePlaced [] (xml.read_resolved_events none source)

-- The content, where there is one, is covered.
abbrev pub ContentIsCovered : Node → String → List VerifiedTarget → Option String → Type 0
ContentIsCovered root source targets none = Unit
ContentIsCovered root source targets (some s) = IsCovered root source targets s

-- A certificate whose key the backend verified the document with, by references that are all
-- trusted and whose targets cover the content.
pub record Vouches (crypto : CryptoLibrary) (root : Node) (source : String)
    (content : Option String) (cert : String) : Type 0 where
  pub key : crypto.Key
  pub references : List VerifiedReference
  pub targets : List VerifiedTarget
  pub is_loaded : load_certificate crypto cert ≡ ok key
  pub is_verified : crypto.verify (context key) source ≡ ok (VerifyResult.valid references)
  pub are_trusted : AllTrusted references targets
  pub covered : ContentIsCovered root source targets content

pub signature_candidates-IsGuarded :
    (xml : XmlLibrary) (source : String) (root : Node) (signatures : List Node)
    → signature_candidates xml source root ≡ ok signatures
    → IsGuarded xml source root × (signatures ≡ saml_signature_candidates root)
unfolding signature_candidates
signature_candidates-IsGuarded xml source root signatures h =
    let (u, unwrapped, h1) =
      >>=-eq-ok (fail_if (contains_str "Response" (local_name root) && wrapping_detected root) _) _
        h in
    let (w, distinct, h2) = >>=-eq-ok (fail_if (is_some (duplicate_saml_id root [])) _) _ h1 in
    let (x, placed, h3) = >>=-eq-ok (preflight_backend_signatures xml source) _ h2 in
    let no_duplicate = is_none (duplicate_saml_id root []) (fail_if-ok _ _ w distinct) in
    (
      record {
        not_wrapped = fail_if-ok _ _ u unwrapped;
        ids_are_distinct = (duplicate_saml_id_lem root).0 no_duplicate;
        signatures_are_placed = preflight_backend_signatures-ArePlaced xml source placed;
      },
      of_ok (λ s. s ≡ saml_signature_candidates root) h3 refl,
    )
  where
    is_none : (o : Option String) → is_some o ≡ false → o ≡ none
    is_none none h = refl
    is_none (some s) h = cc

pub content-ContentIsCovered :
    (root : Node) (source : String) (targets : List VerifiedTarget) (content : Option String)
    → verified_content root source targets ≡ ok content
    → ContentIsCovered root source targets content
content-ContentIsCovered root source targets none h = tt
content-ContentIsCovered root source targets (some s) h =
    verified_content-IsCovered root source targets s h

same_content :
    {a b : Option String}
    → ◌≡◌ {A = SamlResult (Bool × Option String)} (ok (true, a)) (ok (true, b))
    → a ≡ b
same_content h = cc

module _ (crypto : CryptoLibrary) (xml : XmlLibrary) (root : Node) (source : String) where
  -- An early end with `true` comes from some certificate of the list.
  try_certificates-Vouches :
      (certs : List String) (a : Attempts) (content : Option String)
      → try_certificates crypto xml root source certs a ≡ ok (true, content)
      → Any (Vouches crypto root source content) certs
  unfolding try_certificates
  try_certificates-Vouches [] a content h = let (_, _, last) = >>=-eq-ok (no_verdict a) _ h in cc
  try_certificates-Vouches (cert ∷ certs) a content h =
      elim (Result-cases (load_certificate crypto cert)) [
        | inr (e, unread) ↦ Any.there (
            try_certificates-Vouches certs (unloadable e a) content
              (rw (try_certificates, unread) at h))
        | inl (key, loaded) ↦ elim (Result-cases (crypto.verify (context key) source)) [
          | inr (e, broken) ↦ Any.there (
              try_certificates-Vouches certs _ content (rw (try_certificates, loaded, broken) at h))
          | inl (VerifyResult.invalid, refused) ↦ Any.there (
              try_certificates-Vouches certs _ content
                (rw (try_certificates, loaded, refused) at h))
          | inl (VerifyResult.valid references, verified) ↦
              let h0 = rw (try_certificates, loaded, verified) at h in
              let (targets, found, h1) = >>=-eq-ok (verified_targets references) _ h0 in
              let (text, read, last) = >>=-eq-ok (verified_content root source targets) _ h1 in
              let same = same_content last in
              Any.here (record {
                key = key;
                references = references;
                targets = targets;
                is_loaded = loaded;
                is_verified = verified;
                are_trusted = (verified_targets-AllTrusted references targets found).1;
                covered = rw (← same) (content-ContentIsCovered root source targets text read);
              })
        ]
      ]

-- A document that is verified has passed the guards, and some certificate of the metadata vouches
-- for it: its key verified the document, by trusted references that cover the content returned.
pub verify_signature_with_limits-Vouches :
    (crypto : CryptoLibrary) (xml : XmlLibrary) (source : String) (certs : List String)
    (limits : XmlLimits) (content : Option String)
    → verify_signature_with_limits crypto xml source certs limits ≡ ok (true, content)
    → (root : Node) × (parse_with_limits xml source limits ≡ ok root)
      × IsGuarded xml source root
      × Any (Vouches crypto root source content) certs
unfolding verify_signature_with_limits
verify_signature_with_limits-Vouches crypto xml source certs limits content h =
    let (root, parsed, h1) = >>=-eq-ok (parse_with_limits xml source limits) _ h in
    let (signatures, guarded, h2) = >>=-eq-ok (signature_candidates xml source root) _ h1 in
    elim (Bool-cases (is_nil signatures)) [
      | inl unsigned ↦ cc (rw unsigned at h2)
      | inr signed ↦
          let (_, _, h3) = >>=-eq-ok (check_candidates signatures certs) _ (rw signed at h2) in
          let (_, _, h4) = >>=-eq-ok (ensure_crypto_provider_initialized crypto) _ h3 in
          (
            root,
            parsed,
            (signature_candidates-IsGuarded xml source root signatures guarded).0,
            try_certificates-Vouches crypto xml root source certs no_attempts content h4,
          )
    ]
