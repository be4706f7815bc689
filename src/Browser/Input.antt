-- ===== src/Browser/Input.antt =====
-- src/browser/input.rs: what a browser sends, as the request that the flow reads. The kind of message
-- that the type of an input names is an argument. `FormField` is of src/browser/forms.rs.
pub mod Octet
pub mod SimpleSign
use Prim.Native.Char.{Char, code}
use Prim.Native.String as Text
use risaml.Prelude.{
  ℕ, String, Bool, true, false, not, Option, none, some, List, [], ◌∷◌, map, filter, is_nil, Result,
  ok, err, ◌>>=◌, ◌>>◌, fail_if, ok_or, ◌==◌, string_eq, nat_eq, if◌then◌else◌,
}
use risaml.Prelude.Text.{is_empty, concat, split, trim_start, from_utf8}
use risaml.Prelude.Text.Utf8.{utf8_error}
use risaml.Errors.{SamlError, SamlResult}
use risaml.Libraries.Web.{Codec, UrlLibrary}
use risaml.Encoding.{base64_decode_with_limit}
use risaml.Xml.Dom.{default_limits}
use risaml.Flow.Params.{Parameters, HttpRequest, post}

pub record FormField : Type 0 where
  pub name : String
  pub value : String

pub data MessageField : Type 0 where
  request response : MessageField

abbrev pub param_name : MessageField → String
param_name MessageField.request = "SAMLRequest"
param_name MessageField.response = "SAMLResponse"

abbrev pub opposite_param_name : MessageField → String
opposite_param_name MessageField.request = "SAMLResponse"
opposite_param_name MessageField.response = "SAMLRequest"

pub data BrowserInput : Type 0 where
  redirect : (raw_query : String) → BrowserInput
  post_fields : (fields : List FormField) → BrowserInput
  simple_sign_post : (raw_body : String) (fields : List FormField) → BrowserInput

pub record RawQueryParam : Type 0 where
  pub name : String
  pub encoded_value : String

-- `split_once('=')` of a segment: the name grows by the characters before the first sign.
abbrev longer : Char → RawQueryParam → RawQueryParam
longer c p = record p { name = Text.◌∷◌ c p.name }

unfoldable pub raw_query_param : String → RawQueryParam
raw_query_param Text.[] = record { name = ""; encoded_value = "" }
raw_query_param (Text.◌∷◌ c s) =
    if code c == b'=' then record { name = ""; encoded_value = s } else longer c (raw_query_param s)

unfoldable pub raw_query_params : String → List RawQueryParam
raw_query_params raw_query =
    map raw_query_param (filter (λ segment. not (is_empty segment)) (split b'&' raw_query))

-- What an iterator yields first, if nothing comes second.
abbrev pub unique : SamlError → List String → SamlResult (Option String)
unique ambiguous [] = ok none
unique ambiguous (v ∷ []) = ok (some v)
unique ambiguous _ = err ambiguous

abbrev pub encoded_values : List RawQueryParam → String → List String
encoded_values params key =
    map (λ (p : RawQueryParam). p.encoded_value)
      (filter (λ (p : RawQueryParam). p.name == key) params)

unfoldable pub unique_encoded_query_value : List RawQueryParam → String → SamlResult (Option String)
unique_encoded_query_value params key =
    unique (SamlError.invalid (concat ("ambiguous Redirect field " ∷ key ∷ [])))
      (encoded_values params key)

-- The message of this kind, where none of the other kind stands beside it.
abbrev pub only_expected : String → MessageField → Option String → Option String → SamlResult String
only_expected place m (some value) none = ok value
only_expected place m none none =
    err (SamlError.invalid (concat ("missing " ∷ place ∷ " field " ∷ param_name m ∷ [])))
only_expected place m _ (some _) = err (
    SamlError.invalid (
      concat
        ("expected " ∷ place ∷ " field " ∷ param_name m ∷ ", found " ∷ opposite_param_name m ∷ [])))

unfoldable pub validate_query_message_kind : List RawQueryParam → MessageField → SamlResult String
validate_query_message_kind params m = do
  expected ← unique_encoded_query_value params (param_name m)
  opposite ← unique_encoded_query_value params (opposite_param_name m)
  only_expected "Redirect" m expected opposite

abbrev pub octet_of : String → String → Option String → String → String
octet_of name message (some relay_state) sig_alg =
    concat (name ∷ "=" ∷ message ∷ "&RelayState=" ∷ relay_state ∷ "&SigAlg=" ∷ sig_alg ∷ [])
octet_of name message none sig_alg = concat (name ∷ "=" ∷ message ∷ "&SigAlg=" ∷ sig_alg ∷ [])

-- An octet string, if the algorithm and the signature are both there.
abbrev pub signed_octet :
    String → String → Option String → Option String → Option String → SamlResult (Option String)
signed_octet name message relay_state (some sig_alg) (some signature) =
    ok (some (octet_of name message relay_state sig_alg))
signed_octet name message relay_state none none = ok none
signed_octet name message relay_state _ _ =
    err (SamlError.invalid "incomplete Redirect signature parameters")

unfoldable pub redirect_octet_from_raw_query : String → MessageField → SamlResult (Option String)
redirect_octet_from_raw_query raw_query m = do
  let params = raw_query_params raw_query
  message ← validate_query_message_kind params m
  relay_state ← unique_encoded_query_value params "RelayState"
  sig_alg ← unique_encoded_query_value params "SigAlg"
  signature ← unique_encoded_query_value params "Signature"
  signed_octet (param_name m) message relay_state sig_alg signature

abbrev pub fields_to_pairs : List FormField → Parameters
fields_to_pairs fields = map (λ (f : FormField). (f.name, f.value)) fields

abbrev pub field_values : List FormField → String → List String
field_values fields key =
    map (λ (f : FormField). f.value) (filter (λ (f : FormField). f.name == key) fields)

unfoldable pub field_value : List FormField → String → SamlResult (Option String)
field_value fields key = unique (SamlError.invalid "ambiguous form field") (field_values fields key)

unfoldable pub validate_form_message_kind : List FormField → MessageField → SamlResult String
validate_form_message_kind fields m = do
  expected ← field_value fields (param_name m)
  opposite ← field_value fields (opposite_param_name m)
  only_expected "form" m expected opposite

module _ (codec : Codec) where
  unfoldable pub simplesign_octet_from_fields : List FormField → MessageField → SamlResult String
  simplesign_octet_from_fields fields m = do
    encoded ← validate_form_message_kind fields m
    bytes ← base64_decode_with_limit codec encoded default_limits.max_bytes
    raw_xml ← ok_or (from_utf8 bytes) (SamlError.xml (utf8_error bytes))
    found ← field_value fields "SigAlg"
    sig_alg ← ok_or found SamlError.missing_sig_alg
    relay_state ← field_value fields "RelayState"
    ok (octet_of (param_name m) raw_xml relay_state sig_alg)

module _ (urls : UrlLibrary) where
  abbrev pub parse_form_fields : String → List FormField
  parse_form_fields raw =
      map (λ (p : String × String). record { name = p.0; value = p.1 }) (urls.form_parse raw)

  -- `simple_sign_body`
  abbrev pub simple_sign_body : String → BrowserInput
  simple_sign_body raw_body = BrowserInput.simple_sign_post raw_body (parse_form_fields raw_body)

  abbrev pub fields_of : String → List FormField → List FormField
  fields_of raw_body fields = if is_nil fields then parse_form_fields raw_body else fields

module _ (codec : Codec) (urls : UrlLibrary) where
  unfoldable pub http_request_from_input :
      BrowserInput → Bool → MessageField → SamlResult HttpRequest
  http_request_from_input (BrowserInput.redirect raw) allow_redirect m = do
    fail_if (not allow_redirect) SamlError.undefined_binding
    let raw_query = trim_start (λ c. c == b'?') raw
    octet_string ← redirect_octet_from_raw_query raw_query m
    ok (record { query = urls.form_parse raw_query; body = []; octet_string = octet_string })
  http_request_from_input (BrowserInput.post_fields fields) allow_redirect m = do
    message ← validate_form_message_kind fields m
    ok (post (fields_to_pairs fields))
  http_request_from_input (BrowserInput.simple_sign_post raw_body given) allow_redirect m = do
    let fields = fields_of urls raw_body given
    octet_string ← simplesign_octet_from_fields codec fields m
    ok (record (post (fields_to_pairs fields)) { octet_string = some octet_string })

  -- `HttpRequest::try_from` of an input of each type.
  abbrev pub try_from_authn_request : BrowserInput → SamlResult HttpRequest
  try_from_authn_request value = http_request_from_input value true MessageField.request

  abbrev pub try_from_sso_response : BrowserInput → SamlResult HttpRequest
  try_from_sso_response value = http_request_from_input value false MessageField.response

  abbrev pub try_from_logout_request : BrowserInput → SamlResult HttpRequest
  try_from_logout_request value = http_request_from_input value true MessageField.request

  abbrev pub try_from_logout_response : BrowserInput → SamlResult HttpRequest
  try_from_logout_response value = http_request_from_input value true MessageField.response
