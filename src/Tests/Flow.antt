-- ===== src/Tests/Flow.antt =====
-- Parameters, Base64 and detached signatures (src/flow.rs, src/binding/encoding.rs) at requests.
use risaml.Prelude.{
  of_ok, arith, ℕ, String, Option, none, some, List, [], ◌∷◌, ◌≡◌, ◌↔◌, ◌≤◌, refl, Result, ok, Any,
  length,
}
use risaml.Constants.{Binding, ParserType}
use risaml.Encoding.{base64_decode_with_limit, count_non_whitespace}
use risaml.Encoding.Limit.{base64_decode_with_limit-le}
use risaml.Libraries.Web.{ReadsWithin}
use risaml.Inflate.{deflate_raw_decode_with_limit}
use risaml.Inflate.Total.{Returns, deflate_raw_decode_with_limit-Returns}
use risaml.Flow.Params.{HttpRequest, Parameters, single_param}
use risaml.Flow.Params.Laws.{HasOnly, single_param_lem}
use risaml.Flow.Octets.{
  simplesign_octets, ensure_redirect_octet_matches_consumed_fields,
  ensure_simplesign_octet_matches_consumed_fields, ensure_detached_octet_matches_consumed_fields,
}
use risaml.Flow.Octets.Agreement.{
  RedirectAgrees, ensure_redirect_octet-RedirectAgrees, SimpleSignAgrees,
  ensure_simplesign_octet_matches_consumed_fields_lem,
}
use risaml.Flow.Detached.{get_from, verify_detached}
use risaml.Flow.Detached.Sound.{IsSignedBy, verify_detached-Signs}
use risaml.Tests.Documents.{sample_crypto, sample_codec, sample_urls}

abbrev three : List ℕ
three = 0 ∷ 0 ∷ 0 ∷ []

decoded : base64_decode_with_limit sample_codec "AA\nAA" 3 ≡ ok three
unfolding base64_decode_with_limit risaml.Encoding.max_encoded_len count_non_whitespace
    risaml.Prelude.Text.as_bytes risaml.Encoding.normalized risaml.Prelude.Text.filter_chars
    risaml.Prelude.Text.is_whitespace
decoded = refl

base64_decode_with_limit-le_example : (length three ≤ 3) × (count_non_whitespace "AA\nAA" ≤ 4)
base64_decode_with_limit-le_example =
    base64_decode_with_limit-le sample_codec "AA\nAA" 3 three decoded

abbrev query : Parameters
query = ("SAMLRequest", "M") ∷ ("SigAlg", "A") ∷ ("Signature", "AAAA") ∷ []

single_param_lem_example :
    (single_param query "SigAlg" ≡ ok (some "A")) ↔ HasOnly "SigAlg" "A" query
single_param_lem_example = single_param_lem query "SigAlg" "A"

abbrev redirected : HttpRequest
redirected = record { query = query; body = []; octet_string = some "SAMLRequest=M&SigAlg=A" }

redirect_passes :
    ensure_redirect_octet_matches_consumed_fields sample_urls ParserType.saml_request redirected "A"
      "SAMLRequest=M&SigAlg=A"
    ≡ ok tt
unfolding ensure_redirect_octet_matches_consumed_fields single_param risaml.Flow.Params.query_get
redirect_passes = refl

ensure_redirect_octet-RedirectAgrees_example :
    RedirectAgrees sample_urls ParserType.saml_request redirected "A" "SAMLRequest=M&SigAlg=A"
ensure_redirect_octet-RedirectAgrees_example =
    ensure_redirect_octet-RedirectAgrees sample_urls ParserType.saml_request redirected "A"
      "SAMLRequest=M&SigAlg=A" redirect_passes

abbrev posted : HttpRequest
posted = record {
  query = [];
  body = ("SAMLRequest", "PHg+") ∷ ("RelayState", "s") ∷ [];
  octet_string = some "SAMLRequest=<x>&RelayState=s&SigAlg=A";
}

simplesign_passes :
    ensure_simplesign_octet_matches_consumed_fields ParserType.saml_request posted "<x>" "A"
      "SAMLRequest=<x>&RelayState=s&SigAlg=A"
    ≡ ok tt
unfolding ensure_simplesign_octet_matches_consumed_fields risaml.Flow.Params.body_get single_param
    simplesign_octets risaml.Prelude.Text.concat
simplesign_passes = refl

ensure_simplesign_octet_matches_consumed_fields_lem_example :
    (ensure_simplesign_octet_matches_consumed_fields ParserType.saml_request posted "<x>" "A"
        "SAMLRequest=<x>&RelayState=s&SigAlg=A"
      ≡ ok tt)
    ↔ SimpleSignAgrees ParserType.saml_request posted "<x>" "A"
        "SAMLRequest=<x>&RelayState=s&SigAlg=A"
ensure_simplesign_octet_matches_consumed_fields_lem_example =
    ensure_simplesign_octet_matches_consumed_fields_lem ParserType.saml_request posted "<x>" "A"
      "SAMLRequest=<x>&RelayState=s&SigAlg=A"

accepted :
    verify_detached sample_crypto sample_codec sample_urls Binding.redirect ParserType.saml_request
      redirected
      ("BBBB" ∷ "AAAA" ∷ [])
      "<x>"
    ≡ ok "A"
unfolding verify_detached risaml.Flow.Params.query_get single_param
    ensure_detached_octet_matches_consumed_fields ensure_redirect_octet_matches_consumed_fields
    risaml.Crypto.Keys.ensure_crypto_provider_initialized
    risaml.Flow.Detached.try_message_certificates risaml.Flow.Detached.verify_message_signature
    risaml.Crypto.Keys.load_certificate risaml.Crypto.Keys.to_cert_pem
    risaml.Prelude.Text.contains_str risaml.Prelude.Text.concat risaml.Util.normalize_cert_string
    risaml.Util.strip_pem risaml.Prelude.Text.filter_chars risaml.Util.remove
    risaml.Encoding.base64_decode risaml.Prelude.Text.is_ascii risaml.Prelude.Text.as_bytes
accepted = refl

verify_detached-Signs_example :
    IsSignedBy sample_crypto sample_codec sample_urls Binding.redirect ParserType.saml_request
      redirected
      ("BBBB" ∷ "AAAA" ∷ [])
      "<x>"
      "A"
verify_detached-Signs_example =
    verify_detached-Signs sample_crypto sample_codec sample_urls Binding.redirect
      ParserType.saml_request redirected ("BBBB" ∷ "AAAA" ∷ []) "<x>" "A" accepted

sample_codec-ReadsWithin : ReadsWithin sample_codec
sample_codec-ReadsWithin = record {
  consumed_le = λ decoder input room r h. of_ok (λ r. r.consumed ≤ length input) h (omega arith);
}

deflate_raw_decode_with_limit-Returns_example :
    Returns sample_codec 8 (deflate_raw_decode_with_limit sample_codec three 8)
deflate_raw_decode_with_limit-Returns_example =
    deflate_raw_decode_with_limit-Returns sample_codec three 8 sample_codec-ReadsWithin

inflated : deflate_raw_decode_with_limit sample_codec three 8 ≡ some (ok three)
unfolding deflate_raw_decode_with_limit risaml.Inflate.inflate
inflated = refl
