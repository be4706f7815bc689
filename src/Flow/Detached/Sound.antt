-- ===== src/Flow/Detached/Sound.antt =====
-- What the verdict on a detached signature (src/flow.rs) rests on, and certificates that fail.
use risaml.Prelude.{
  String, true, false, not, ◌&&◌, any, some, List, [], ◌∷◌, ok, >>=-eq-ok, of_ok, ok_or-ok, ok_or,
  map_err, map_err-ok, ◌≡◌, ◌⊎◌, refl, Any, Result-cases, Bool-cases, inl, inr,
}
use risaml.Prelude.Text.{
  Bytes, as_bytes, filter_chars, is_ascii, is_ascii_whitespace, is_whitespace,
}
use risaml.Constants.{Binding, ParserType}
use risaml.Errors.{SamlError}
use risaml.Libraries.Web.{UrlLibrary, Codec}
use risaml.Libraries.Crypto.{CryptoLibrary}
use risaml.Crypto.Keys.{ensure_crypto_provider_initialized, load_certificate, to_cert_pem}
use risaml.Encoding.{base64_decode}
use risaml.Flow.Params.{Parameters, HttpRequest, query_get, body_get}
use risaml.Flow.Params.Laws.{HasOnly, single_param_lem}
use risaml.Flow.Octets.{missing_binding_parameter, ensure_detached_octet_matches_consumed_fields}
use risaml.Flow.Octets.Agreement.{
  RedirectAgrees, SimpleSignAgrees, ensure_redirect_octet-RedirectAgrees,
  ensure_simplesign_octet_matches_consumed_fields_lem,
}
use risaml.Flow.Detached.{
  Tried, nothing_tried, after_error, get_from, verify_message_signature, try_message_certificates,
  verify_detached,
}

-- The bytes that the codec reads of a text, as it is or without its whitespace.
abbrev pub IsBase64Of : Codec → String → Bytes → Type 0
IsBase64Of codec text bytes =
    (codec.base64_decode text ≡ ok bytes)
    ⊎ (codec.base64_decode (filter_chars (λ c. not (is_whitespace c)) text) ≡ ok bytes)

-- The backend verified the signature of the octet string, which the codec read of the text without
-- its whitespace, with the key of the certificate, by the algorithm.
pub record Signs (crypto : CryptoLibrary) (codec : Codec) (octet signature sig_alg cert : String)
    : Type 0 where
  pub key : crypto.Key
  pub is_key : crypto.load_x509_cert_pem (to_cert_pem cert) ≡ ok key
  pub verifying : crypto.VerifyingKey
  pub is_verifying : crypto.to_signing_key key ≡ ok (some verifying)
  pub algorithm : crypto.Algorithm
  pub is_algorithm : crypto.from_uri sig_alg ≡ ok algorithm
  pub bytes : Bytes
  pub are_bytes : IsBase64Of codec signature bytes
  pub is_verified : crypto.algorithm_verify algorithm verifying octet bytes ≡ ok true

module _ (crypto : CryptoLibrary) (codec : Codec) where
  load_certificate-ok :
      (cert : String) (key : crypto.Key)
      → load_certificate crypto cert ≡ ok key
      → crypto.load_x509_cert_pem (to_cert_pem cert) ≡ ok key
  unfolding load_certificate
  load_certificate-ok cert key h =
      let (_, _, h1) = >>=-eq-ok (ensure_crypto_provider_initialized crypto) _ h in
      map_err-ok _ _ key h1

  base64_decode-ok :
      (text : String) (bytes : Bytes)
      → base64_decode codec text ≡ ok bytes
      → IsBase64Of codec text bytes
  unfolding base64_decode
  base64_decode-ok text bytes h =
      elim (Bool-cases (is_ascii text && not (any is_ascii_whitespace (as_bytes text)))) [
        | inl plain ↦ inl (map_err-ok _ _ bytes (rw plain at h))
        | inr spaced ↦ inr (map_err-ok _ _ bytes (rw spaced at h))
      ]

  verify_message_signature-Signs :
      (octet signature cert sig_alg : String)
      → verify_message_signature crypto codec octet signature cert sig_alg ≡ ok true
      → Signs crypto codec octet signature sig_alg cert
  unfolding verify_message_signature
  verify_message_signature-Signs octet signature cert sig_alg h =
      let (key, loaded, h1) = >>=-eq-ok (load_certificate crypto cert) _ h in
      let (found, signing, h2) =
        >>=-eq-ok (map_err SamlError.crypto (crypto.to_signing_key key)) _ h1 in
      let (verifying, present, h3) = >>=-eq-ok (ok_or found _) _ h2 in
      let (algorithm, named, h4) =
        >>=-eq-ok (map_err SamlError.crypto (crypto.from_uri sig_alg)) _ h3 in
      let (bytes, decoded, h5) = >>=-eq-ok (base64_decode codec signature) _ h4 in
      record {
        key = key;
        is_key = load_certificate-ok cert key loaded;
        verifying = verifying;
        is_verifying = rw (← ok_or-ok found _ verifying present) (map_err-ok _ _ found signing);
        algorithm = algorithm;
        is_algorithm = map_err-ok _ _ algorithm named;
        bytes = bytes;
        are_bytes = base64_decode-ok signature bytes decoded;
        is_verified = map_err-ok _ _ true h5;
      }

module _ (crypto : CryptoLibrary) (codec : Codec) (octet signature sig_alg : String) where
  try_message_certificates-Signs :
      (certs : List String) (t : Tried) (out : String)
      → try_message_certificates crypto codec octet signature sig_alg certs t ≡ ok out
      → (sig_alg ≡ out) × Any (Signs crypto codec octet signature sig_alg) certs
  unfolding try_message_certificates
  try_message_certificates-Signs [] t out h = cc
  try_message_certificates-Signs (cert ∷ certs) t out h =
      elim (Result-cases (verify_message_signature crypto codec octet signature cert sig_alg)) [
        | inl (true, verified) ↦
            of_ok
              (λ o. (sig_alg ≡ o) × Any (Signs crypto codec octet signature sig_alg) (cert ∷ certs))
              (rw (try_message_certificates, verified) at h)
              (
                refl,
                Any.here (
                    verify_message_signature-Signs crypto codec octet signature cert sig_alg
                      verified),
              )
        | inl (false, refused) ↦
            let rest =
              try_message_certificates-Signs certs _ out
                (rw (try_message_certificates, refused) at h) in
            (rest.0, Any.there rest.1)
        | inr (e, failed) ↦
            let rest =
              try_message_certificates-Signs certs (after_error e t) out
                (rw (try_message_certificates, failed) at h) in
            (rest.0, Any.there rest.1)
      ]

-- The parameters of a request that its binding reads.
abbrev pub parameters_of : Binding → HttpRequest → Parameters
parameters_of Binding.redirect request = request.query
parameters_of _ request = request.body

get_from-HasOnly :
    (binding : Binding) (request : HttpRequest) (key value : String)
    → get_from binding request key ≡ ok (some value)
    → HasOnly key value (parameters_of binding request)
unfolding query_get body_get
get_from-HasOnly Binding.redirect request key value h =
    (single_param_lem request.query key value).0 h
get_from-HasOnly Binding.post request key value h = (single_param_lem request.body key value).0 h
get_from-HasOnly Binding.simple_sign request key value h =
    (single_param_lem request.body key value).0 h
get_from-HasOnly Binding.artifact request key value h =
    (single_param_lem request.body key value).0 h

-- The octet string says what the flow consumes of the request and its message.
abbrev pub Agrees :
    UrlLibrary → Binding → ParserType → HttpRequest → String → String → String → Type 0
Agrees urls Binding.redirect parser_type request xml sig_alg octet =
    RedirectAgrees urls parser_type request sig_alg octet
Agrees urls Binding.simple_sign parser_type request xml sig_alg octet =
    SimpleSignAgrees parser_type request xml sig_alg octet
Agrees urls _ parser_type request xml sig_alg octet = Unit

ensure_detached_octet-Agrees :
    (urls : UrlLibrary) (binding : Binding) (parser_type : ParserType) (request : HttpRequest)
    (xml sig_alg octet : String)
    → ensure_detached_octet_matches_consumed_fields urls binding parser_type request xml sig_alg
        octet
      ≡ ok tt
    → Agrees urls binding parser_type request xml sig_alg octet
unfolding ensure_detached_octet_matches_consumed_fields
ensure_detached_octet-Agrees urls Binding.redirect parser_type request xml sig_alg octet h =
    ensure_redirect_octet-RedirectAgrees urls parser_type request sig_alg octet h
ensure_detached_octet-Agrees urls Binding.simple_sign parser_type request xml sig_alg octet h =
    (ensure_simplesign_octet_matches_consumed_fields_lem parser_type request xml sig_alg octet).0 h
ensure_detached_octet-Agrees urls Binding.post parser_type request xml sig_alg octet h = tt
ensure_detached_octet-Agrees urls Binding.artifact parser_type request xml sig_alg octet h = tt

-- What an accepted request says: its signature and its algorithm once each, an octet string that
-- agrees with what is consumed, and a certificate for which the backend verified the signature of
-- that string.
pub record IsSignedBy (crypto : CryptoLibrary) (codec : Codec) (urls : UrlLibrary)
    (binding : Binding) (parser_type : ParserType) (request : HttpRequest) (certs : List String)
    (xml sig_alg : String) : Type 0 where
  pub octet : String
  pub is_octet : request.octet_string ≡ some octet
  pub signature : String
  pub is_signature : HasOnly "Signature" signature (parameters_of binding request)
  pub is_algorithm : HasOnly "SigAlg" sig_alg (parameters_of binding request)
  pub agrees : Agrees urls binding parser_type request xml sig_alg octet
  pub signs : Any (Signs crypto codec octet signature sig_alg) certs

-- A detached signature is accepted only where the backend verified it: the parameters of the request
-- have one signature and one algorithm, which is returned; the octet string of a redirect or of a
-- SimpleSign form agrees with the message, the RelayState and the algorithm that are consumed; and
-- with the key of some certificate of the metadata, and by that algorithm, the backend verified that
-- signature over that octet string.
pub verify_detached-Signs :
    (crypto : CryptoLibrary) (codec : Codec) (urls : UrlLibrary) (binding : Binding)
    (parser_type : ParserType) (request : HttpRequest) (certs : List String) (xml sig_alg : String)
    → verify_detached crypto codec urls binding parser_type request certs xml ≡ ok sig_alg
    → IsSignedBy crypto codec urls binding parser_type request certs xml sig_alg
unfolding verify_detached
verify_detached-Signs crypto codec urls binding parser_type request certs xml sig_alg h =
    let (given, read, h1) = >>=-eq-ok (get_from binding request "Signature") _ h in
    let (signature, is_signature, h2) = >>=-eq-ok (ok_or given SamlError.signature_missing) _ h1 in
    let (named, read_named, h3) = >>=-eq-ok (get_from binding request "SigAlg") _ h2 in
    let (algorithm, is_named, h4) =
      >>=-eq-ok (ok_or named (missing_binding_parameter "SigAlg")) _ h3 in
    let (octet, is_octet, h5) =
      >>=-eq-ok (ok_or request.octet_string (missing_binding_parameter "octet_string")) _ h4 in
    let (_, fits, h6) =
      >>=-eq-ok
        (ensure_detached_octet_matches_consumed_fields urls binding parser_type request xml
          algorithm octet)
        _ h5 in
    let (_, _, h7) = >>=-eq-ok (ensure_crypto_provider_initialized crypto) _ h6 in
    let (same, signs) =
      try_message_certificates-Signs crypto codec octet signature algorithm certs nothing_tried
        sig_alg h7 in
    let read_signature : get_from binding request "Signature" ≡ ok (some signature) =
      rw (← ok_or-ok given _ signature is_signature) read in
    let read_algorithm : get_from binding request "SigAlg" ≡ ok (some algorithm) =
      rw (← ok_or-ok named _ algorithm is_named) read_named in
    rw (← same) (record {
      octet = octet;
      is_octet = ok_or-ok request.octet_string _ octet is_octet;
      signature = signature;
      is_signature = get_from-HasOnly binding request "Signature" signature read_signature;
      is_algorithm = get_from-HasOnly binding request "SigAlg" algorithm read_algorithm;
      agrees =
          ensure_detached_octet-Agrees urls binding parser_type request xml algorithm octet fits;
      signs = signs;
    })
