-- ===== src/Flow/Detached.antt =====
-- src/flow.rs and src/crypto/sign.rs: the verification of a detached message signature.
pub mod Sound
use risaml.Prelude.{
  String, Bool, true, false, Option, none, some, List, [], ◌∷◌, Result, ok, err, ◌>>=◌, ◌>>◌, ok_or,
  map_err, if◌then◌else◌,
}
use risaml.Prelude.Text.{as_bytes}
use risaml.Constants.{Binding, ParserType}
use risaml.Errors.{SamlError, SamlResult}
use risaml.Libraries.Web.{UrlLibrary, Codec}
use risaml.Libraries.Crypto.{CryptoLibrary}
use risaml.Crypto.Keys.{load_certificate, ensure_crypto_provider_initialized}
use risaml.Encoding.{base64_decode}
use risaml.Flow.Params.{HttpRequest, query_get, body_get}
use risaml.Flow.Octets.{
  missing_binding_parameter, detached_signature_verification,
  ensure_detached_octet_matches_consumed_fields,
}

-- What the loop over the certificates has seen.
pub record Tried : Type 0 where
  pub provider_error : Option SamlError
  pub tried_invalid : Bool

abbrev pub nothing_tried : Tried
nothing_tried = record { provider_error = none; tried_invalid = false }

-- `get_or_insert`
abbrev pub keep_first : Option SamlError → SamlError → Option SamlError
keep_first none e = some e
keep_first (some first) e = some first

abbrev pub after_error : SamlError → Tried → Tried
after_error (SamlError.crypto text) t = record t {
  provider_error = keep_first t.provider_error (SamlError.crypto text);
}
after_error _ t = t

abbrev pub final_error : Tried → SamlError
final_error t = elim t.provider_error [
  | none ↦ detached_signature_verification
  | some e ↦ if t.tried_invalid then detached_signature_verification else e
]

abbrev pub get_from : Binding → HttpRequest → String → SamlResult (Option String)
get_from Binding.redirect request key = query_get request key
get_from _ request key = body_get request key

module _ (crypto : CryptoLibrary) (codec : Codec) where
  -- `verify_message_signature` of src/crypto/sign.rs
  unfoldable pub verify_message_signature : String → String → String → String → SamlResult Bool
  verify_message_signature octet signature cert sig_alg = do
    key ← load_certificate crypto cert
    found ← map_err SamlError.crypto (crypto.to_signing_key key)
    verifying ← ok_or found (SamlError.missing_key "no verification key")
    algorithm ← map_err SamlError.crypto (crypto.from_uri sig_alg)
    bytes ← base64_decode codec signature
    map_err SamlError.crypto (crypto.algorithm_verify algorithm verifying octet bytes)

  -- The loop of `verify_detached`.
  unfoldable pub try_message_certificates :
      String → String → String → List String → Tried → SamlResult String
  try_message_certificates octet signature sig_alg [] t = err (final_error t)
  try_message_certificates octet signature sig_alg (cert ∷ certs) t =
      elim (verify_message_signature octet signature cert sig_alg) [
        | ok true ↦ ok sig_alg
        | ok false ↦
            try_message_certificates octet signature sig_alg certs
              (record t { tried_invalid = true })
        | err e ↦ try_message_certificates octet signature sig_alg certs (after_error e t)
      ]

  -- The certificates are those of `opts.signing_certs`.
  unfoldable pub verify_detached :
      UrlLibrary → Binding → ParserType → HttpRequest → List String → String → SamlResult String
  verify_detached urls binding parser_type request signing_certs xml = do
    given ← get_from binding request "Signature"
    signature ← ok_or given SamlError.signature_missing
    named ← get_from binding request "SigAlg"
    sig_alg ← ok_or named (missing_binding_parameter "SigAlg")
    octet ← ok_or request.octet_string (missing_binding_parameter "octet_string")
    ensure_detached_octet_matches_consumed_fields urls binding parser_type request xml sig_alg octet
    ensure_crypto_provider_initialized crypto
    try_message_certificates octet signature sig_alg signing_certs nothing_tried
