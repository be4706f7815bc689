-- ===== src/Crypto/Verify.antt =====
-- src/crypto/verify.rs: the verification of the XML signatures of a document against the
-- certificates of the sender's metadata, and of a metadata document.
pub mod Sound
pub mod Gathering
pub mod Detailed
pub mod Rolling
use risaml.Prelude.{
  ℕ, String, Bool, true, false, ◌&&◌, ◌||◌, not, Option, none, some, List, [], ◌∷◌, ◌++◌, Result,
  ok, err, ◌>>=◌, ◌>>◌, fail_if, ok_or, map_err, map_ok, traverse, ◌==◌, string_eq, if◌then◌else◌,
  any, is_nil, find_map,
}
use risaml.Prelude.Text.{contains_str, is_empty}
use risaml.Errors.{SamlError, SamlResult}
use risaml.Libraries.Xml.{XmlLibrary}
use risaml.Libraries.Crypto.{CryptoLibrary, DsigContext, VerifyResult, VerifiedReference}
use risaml.Util.{normalize_cert_string}
use risaml.Xml.Dom.{XmlLimits, default_limits}
use risaml.Xml.Dom.Tree.{Node, Nodes, node, nil, cons, local_name}
use risaml.Xml.Dom.Parse.{parse_with_limits}
use risaml.Crypto.Keys.{load_certificate, ensure_crypto_provider_initialized}
use risaml.Crypto.Guards.{
  children_named, saml_signature_candidates, wrapping_detected, duplicate_saml_id,
}
use risaml.Crypto.Targets.{
  VerifiedTarget, verified_targets, preflight_saml_reference_uris,
  ensure_signature_transforms_preserve_content,
  ensure_metadata_signature_transforms_preserve_descriptor,
}
use risaml.Crypto.Coverage.{verified_content, assertion_is_directly_covered, response_is_covered}
use risaml.Crypto.Preflight.{preflight_backend_signatures}

abbrev pub is_some {ℓ} : {A : Type ℓ} → Option A → Bool
is_some none = false
is_some (some _) = true

-- `has_xml_signature_with_limits`
unfoldable pub has_xml_signature_with_limits : XmlLibrary → String → XmlLimits → SamlResult Bool
has_xml_signature_with_limits xml source limits = do
  root ← parse_with_limits xml source limits
  preflight_backend_signatures xml source
  ok (not (is_nil (saml_signature_candidates root)))

-- `descendant_cert`: the first certificate of an element or of one inside it.
unfoldable mutual
  pub descendant_cert : Node → Option String
  descendant_cert (node name _ c text _ _) =
      let inner = descendant_certs c in
      if name == "X509Certificate" && not (is_empty text) then some text else inner

  pub descendant_certs : Nodes → Option String
  descendant_certs nil = none
  descendant_certs (cons n ns) =
      let rest = descendant_certs ns in
      elim (descendant_cert n) [ none ↦ rest | some cert ↦ some cert ]

unfoldable pub inline_signature_cert : List Node → Option String
inline_signature_cert signatures = find_map descendant_cert signatures

-- The checks of the document, as far as the list of its signatures.
unfoldable pub signature_candidates : XmlLibrary → String → Node → SamlResult (List Node)
signature_candidates xml source root = do
  fail_if (contains_str "Response" (local_name root) && wrapping_detected root)
      SamlError.potential_wrapping_attack
  fail_if (is_some (duplicate_saml_id root [])) SamlError.potential_wrapping_attack
  preflight_backend_signatures xml source
  ok (saml_signature_candidates root)

-- An embedded certificate must be one of the metadata.
unfoldable pub check_inline_cert : List Node → List String → SamlResult (Unit {0})
check_inline_cert signatures metadata_certs = elim (inline_signature_cert signatures) [
  | none ↦ ok tt
  | some inline ↦
      fail_if
        (not (is_nil metadata_certs)
          && not
              (any (λ c. normalize_cert_string c == normalize_cert_string inline) metadata_certs))
        SamlError.certificate_mismatch
]

unfoldable pub check_candidates : List Node → List String → SamlResult (Unit {0})
check_candidates signatures metadata_certs = do
  preflight_saml_reference_uris signatures
  ensure_signature_transforms_preserve_content signatures
  check_inline_cert signatures metadata_certs

-- `DsigContext` of one pinned key.
abbrev pub context : {Key : Type 0} → Key → DsigContext Key
context key = record {
  key = key;
  trusted_keys_only = true;
  strict_verification = true;
  require_reference_digests = true;
  hmac_min_out_len = 160;
  insecure = true;
}

-- What the loop over the certificates has seen.
pub record Attempts : Type 0 where
  pub have_key : Bool
  pub key_load_error : Option SamlError
  pub tried_invalid : Bool
  pub last_err : Option SamlError

abbrev pub no_attempts : Attempts
no_attempts = record {
  have_key = false;
  key_load_error = none;
  tried_invalid = false;
  last_err = none;
}

abbrev pub unloadable : SamlError → Attempts → Attempts
unloadable e a = record a {
  key_load_error = elim a.key_load_error [ none ↦ some e | some first ↦ some first ];
}

-- `Err` of the loop's end, unless the verdict is a plain "not verified".
unfoldable pub no_verdict : Attempts → SamlResult (Unit {0})
no_verdict a =
    if not a.have_key
    then err (elim a.key_load_error [ none ↦ SamlError.no_trusted_certificate | some e ↦ e ])
    else elim a.last_err [ none ↦ ok tt | some e ↦ if a.tried_invalid then ok tt else err e ]

module _ (crypto : CryptoLibrary) (xml : XmlLibrary) where
  -- The loop of `verify_signature_with_limits`.
  unfoldable pub try_certificates :
      Node → String → List String → Attempts → SamlResult (Bool × Option String)
  try_certificates root source [] a = no_verdict a >>= λ _. ok (false, none)
  try_certificates root source (cert ∷ certs) a = elim (load_certificate crypto cert) [
    | err e ↦ try_certificates root source certs (unloadable e a)
    | ok key ↦ elim (crypto.verify (context key) source) [
      | ok (VerifyResult.valid references) ↦ do
        targets ← verified_targets references
        content ← verified_content root source targets
        ok (true, content)
      | ok VerifyResult.invalid ↦
          try_certificates root source certs (record a { have_key = true; tried_invalid = true })
      | err e ↦
          try_certificates root source certs
            (record a { have_key = true; last_err = some (SamlError.crypto e) })
    ]
  ]

  unfoldable pub verify_signature_with_limits :
      String → List String → XmlLimits → SamlResult (Bool × Option String)
  verify_signature_with_limits source metadata_certs limits = do
    root ← parse_with_limits xml source limits
    signatures ← signature_candidates xml source root
    if is_nil signatures
        then ok (false, none)
        else (check_candidates signatures metadata_certs >>= λ _.
            ensure_crypto_provider_initialized crypto >>= λ _.
            try_certificates root source metadata_certs no_attempts)

  unfoldable pub verify_signature : String → List String → SamlResult (Bool × Option String)
  verify_signature source metadata_certs =
      verify_signature_with_limits source metadata_certs default_limits

-- `SignatureVerification`
pub record SignatureVerification : Type 0 where
  pub verified : Bool
  pub signed_content : Option String
  pub assertion_directly_covered : Bool
  pub response_covered : Bool

abbrev pub not_verified : SignatureVerification
not_verified = record {
  verified = false;
  signed_content = none;
  assertion_directly_covered = false;
  response_covered = false;
}

-- What the loop of `verify_signatures_detailed_with_limits` has seen besides.
pub record Gathered : Type 0 where
  pub attempts : Attempts
  pub first_signature_verified : Bool
  pub targets : List VerifiedTarget

abbrev pub nothing_gathered : Gathered
nothing_gathered = record { attempts = no_attempts; first_signature_verified = false; targets = [] }

abbrev pub is_valid : VerifyResult → Bool
is_valid (VerifyResult.valid _) = true
is_valid VerifyResult.invalid = false

abbrev pub first_is_valid : List VerifyResult → Bool
first_is_valid [] = false
first_is_valid (r ∷ _) = is_valid r

-- The results of one certificate, one after another.
unfoldable pub gather_results : List VerifyResult → Gathered → SamlResult Gathered
gather_results [] g = ok g
gather_results (VerifyResult.valid references ∷ rest) g = do
  targets ← verified_targets references
  gather_results rest (record g { targets = g.targets ++ targets })
gather_results (VerifyResult.invalid ∷ rest) g =
    gather_results rest (record g { attempts = record (g.attempts) { tried_invalid = true } })

module _ (crypto : CryptoLibrary) (xml : XmlLibrary) where
  unfoldable pub gather_certificates : String → List String → Gathered → SamlResult Gathered
  gather_certificates source [] g = ok g
  gather_certificates source (cert ∷ certs) g = elim (load_certificate crypto cert) [
    | err e ↦ gather_certificates source certs (record g { attempts = unloadable e g.attempts })
    | ok key ↦ elim (crypto.verify_all (context key) source) [
      | ok results ↦ do
        next ← gather_results results (record g {
          attempts = record (g.attempts) { have_key = true };
          first_signature_verified = g.first_signature_verified || first_is_valid results;
        })
        gather_certificates source certs next
      | err e ↦ gather_certificates source certs (record g {
        attempts = record (g.attempts) { have_key = true; last_err = some (SamlError.crypto e) };
      })
    ]
  ]

  -- The end of `verify_signatures_detailed_with_limits`.
  unfoldable pub detailed_verdict : Node → String → Gathered → SamlResult SignatureVerification
  detailed_verdict root source g =
      if not g.attempts.have_key
      then (no_verdict g.attempts >>= λ _. ok not_verified)
      else if g.first_signature_verified && not (is_nil g.targets)
      then (verified_content root source g.targets >>= λ content. ok (record {
        verified = true;
        signed_content = content;
        assertion_directly_covered = assertion_is_directly_covered root g.targets;
        response_covered =
            contains_str "Response" (local_name root) && response_is_covered g.targets root;
      }))
      else no_verdict g.attempts >>= λ _. ok not_verified

  unfoldable pub verify_signatures_detailed_with_limits :
      String → List String → XmlLimits → SamlResult SignatureVerification
  verify_signatures_detailed_with_limits source metadata_certs limits = do
    root ← parse_with_limits xml source limits
    signatures ← signature_candidates xml source root
    if is_nil signatures
        then ok not_verified
        else (check_candidates signatures metadata_certs >>= λ _.
            ensure_crypto_provider_initialized crypto >>= λ _.
            gather_certificates source metadata_certs nothing_gathered >>= λ g.
            detailed_verdict root source g)

  -- `verify_metadata_signature_detailed_with_limits`: the signed descriptor, if it is verified.
  unfoldable pub verify_metadata_signature_detailed_with_limits :
      String → List String → XmlLimits → SamlResult (Option String)
  verify_metadata_signature_detailed_with_limits source trusted limits = do
    root ← parse_with_limits xml source limits
    ensure_metadata_signature_transforms_preserve_descriptor root
    verdict ← verify_signature_with_limits crypto xml source trusted limits
    if not verdict.0
        then ok none
        else map_ok some (ok_or verdict.1 SamlError.signed_reference_mismatch)

  unfoldable pub verify_metadata_signature_with_limits :
      String → List String → XmlLimits → SamlResult Bool
  verify_metadata_signature_with_limits source trusted limits =
      map_ok is_some (verify_metadata_signature_detailed_with_limits source trusted limits)
