-- ===== src/Tests/Input.antt =====
-- A signed redirect and a signed form, and the theorems of src/browser/input.rs at them.
use risaml.Prelude.{
  String, Bool, true, false, none, some, List, [], ◌∷◌, ok, ◌≡◌, refl, ◌==◌, nat_eq,
}
use risaml.Prelude.Text.{trim_start}
use risaml.Constants.{ParserType}
use risaml.Flow.Params.{HttpRequest}
use risaml.Browser.Input.{
  FormField, MessageField, BrowserInput, raw_query_params, fields_to_pairs, http_request_from_input,
}
use risaml.Browser.Input.Octet.{IsQuery, http_request_from_input-IsQuery}
use risaml.Browser.Input.SimpleSign.{IsBuilt, http_request_from_input-IsBuilt}
use risaml.Tests.Documents.{sample_codec, sample_urls}

abbrev raw : String
raw = "?SAMLRequest=M&RelayState=&SigAlg=A&Signature=S"

abbrev redirected : HttpRequest
redirected = record {
  query = [];
  body = [];
  octet_string = some "SAMLRequest=M&RelayState=&SigAlg=A";
}

redirects :
    http_request_from_input sample_codec sample_urls
      (BrowserInput.redirect raw)
      true
      MessageField.request
    ≡ ok redirected
unfolding http_request_from_input risaml.Browser.Input.redirect_octet_from_raw_query
    risaml.Browser.Input.validate_query_message_kind risaml.Browser.Input.unique_encoded_query_value
    raw_query_params risaml.Prelude.Text.split trim_start risaml.Browser.Input.raw_query_param
    risaml.Prelude.Text.concat
redirects = refl

http_request_from_input-IsQuery_example :
    (true ≡ true)
    × (redirected.body ≡ [])
    × (redirected.query ≡ sample_urls.form_parse (trim_start (λ c. c == b'?') raw))
    × IsQuery
        (raw_query_params (trim_start (λ c. c == b'?') raw))
        MessageField.request
        redirected.octet_string
http_request_from_input-IsQuery_example =
    http_request_from_input-IsQuery sample_codec sample_urls raw true MessageField.request
      redirected redirects

abbrev field : String → String → FormField
field name value = record { name = name; value = value }

abbrev fields : List FormField
fields =
    field "SAMLRequest" "AAAA"
    ∷ field "SigAlg" "A"
    ∷ field "RelayState" "state"
    ∷ field "Signature" "S"
    ∷ []

abbrev posted : HttpRequest
posted = record {
  query = [];
  body = fields_to_pairs fields;
  octet_string = some "SAMLRequest=\0\0\0&RelayState=state&SigAlg=A";
}

posts :
    http_request_from_input sample_codec sample_urls
      (BrowserInput.simple_sign_post "" fields)
      true
      MessageField.request
    ≡ ok posted
unfolding http_request_from_input risaml.Browser.Input.simplesign_octet_from_fields
    risaml.Browser.Input.validate_form_message_kind risaml.Browser.Input.field_value
    risaml.Encoding.base64_decode_with_limit risaml.Encoding.max_encoded_len
    risaml.Encoding.count_non_whitespace risaml.Prelude.Text.as_bytes risaml.Encoding.normalized
    risaml.Prelude.Text.is_ascii risaml.Prelude.Text.from_utf8 risaml.Prelude.Text.concat
posts = refl

http_request_from_input-IsBuilt_example : IsBuilt sample_codec ParserType.saml_request posted
http_request_from_input-IsBuilt_example =
    http_request_from_input-IsBuilt sample_codec sample_urls ParserType.saml_request
      MessageField.request refl "" fields true posted posts
