-- ===== src/Browser/Input/Octet.antt =====
-- The octet string of a redirect that src/browser/input.rs builds, against the query that it read.
use risaml.Prelude.{
  String, Bool, true, false, Option, none, some, List, [], ◌∷◌, ok, >>=-eq-ok, of_ok, ◌≡◌, refl,
  ◌==◌, string_eq, nat_eq,
}
use risaml.Prelude.Text.{trim_start}
use risaml.Errors.{SamlError}
use risaml.Libraries.Web.{Codec, UrlLibrary}
use risaml.Flow.Params.{HttpRequest}
use risaml.Browser.Input.{
  MessageField, param_name, opposite_param_name, BrowserInput, RawQueryParam, raw_query_params,
  unique, encoded_values, unique_encoded_query_value, only_expected, validate_query_message_kind,
  octet_of, signed_octet, redirect_octet_from_raw_query, http_request_from_input,
}

abbrev pub values_are : Option String → List String
values_are none = []
values_are (some v) = v ∷ []

unique_lem :
    (e : SamlError) (vs : List String) (found : Option String)
    → unique e vs ≡ ok found
    → vs ≡ values_are found
unique_lem e [] found h = of_ok (λ o. [] ≡ values_are o) h refl
unique_lem e (v ∷ []) found h = of_ok (λ o. v ∷ [] ≡ values_are o) h refl
unique_lem e (v ∷ w ∷ vs) found h = cc

pub only_expected_lem :
    (place : String) (m : MessageField) (expected opposite : Option String) (message : String)
    → only_expected place m expected opposite ≡ ok message
    → (expected ≡ some message) × (opposite ≡ none)
only_expected_lem place m (some value) none message h =
    (of_ok (λ v. some value ≡ some v) h refl, refl)
only_expected_lem place m none none message h = cc
only_expected_lem place m none (some other) message h = cc
only_expected_lem place m (some value) (some other) message h = cc

-- What a query says of the signature that it carries: both of its parameters once, and the octet
-- string of what stands in the query as it is; or none of them.
abbrev pub IsSigned : List RawQueryParam → MessageField → String → Option String → Type 0
IsSigned params m message none =
    (encoded_values params "SigAlg" ≡ []) × (encoded_values params "Signature" ≡ [])
IsSigned params m message (some octet) =
    (relay_state : Option String) × (sig_alg : String) × (signature : String) × (encoded_values
        params "RelayState"
      ≡ values_are relay_state)
    × (encoded_values params "SigAlg" ≡ sig_alg ∷ [])
    × (encoded_values params "Signature" ≡ signature ∷ [])
    × (octet ≡ octet_of (param_name m) message relay_state sig_alg)

-- A query with one message, of the expected kind.
abbrev pub IsQuery : List RawQueryParam → MessageField → Option String → Type 0
IsQuery params m octet =
    (message : String) × (encoded_values params (param_name m) ≡ message ∷ [])
    × (encoded_values params (opposite_param_name m) ≡ [])
    × IsSigned params m message octet

signed_octet-IsSigned :
    (params : List RawQueryParam) (m : MessageField) (message : String)
    (relay_state sig_alg signature octet : Option String)
    → encoded_values params "RelayState" ≡ values_are relay_state
    → encoded_values params "SigAlg" ≡ values_are sig_alg
    → encoded_values params "Signature" ≡ values_are signature
    → signed_octet (param_name m) message relay_state sig_alg signature ≡ ok octet
    → IsSigned params m message octet
signed_octet-IsSigned params m message relay_state (some a) (some s) octet relays algs signs h =
    of_ok (IsSigned params m message) h (relay_state, a, s, relays, algs, signs, refl)
signed_octet-IsSigned params m message relay_state none none octet relays algs signs h =
    of_ok (IsSigned params m message) h (algs, signs)
signed_octet-IsSigned params m message relay_state none (some s) octet relays algs signs h = cc
signed_octet-IsSigned params m message relay_state (some a) none octet relays algs signs h = cc

unique_encoded_query_value_lem :
    (params : List RawQueryParam) (key : String) (found : Option String)
    → unique_encoded_query_value params key ≡ ok found
    → encoded_values params key ≡ values_are found
unfolding unique_encoded_query_value
unique_encoded_query_value_lem params key found h = unique_lem _ (encoded_values params key) found h

redirect_octet_from_raw_query-IsQuery :
    (raw_query : String) (m : MessageField) (octet : Option String)
    → redirect_octet_from_raw_query raw_query m ≡ ok octet
    → IsQuery (raw_query_params raw_query) m octet
unfolding redirect_octet_from_raw_query validate_query_message_kind
redirect_octet_from_raw_query-IsQuery raw_query m octet h =
    let params = raw_query_params raw_query in
    let (message, valid, h1) = >>=-eq-ok (validate_query_message_kind params m) _ h in
    let (expected, has, v1) =
      >>=-eq-ok (unique_encoded_query_value params (param_name m)) _ valid in
    let (opposite, lacks, v2) =
      >>=-eq-ok (unique_encoded_query_value params (opposite_param_name m)) _ v1 in
    let (is_message, is_absent) = only_expected_lem "Redirect" m expected opposite message v2 in
    let (relay_state, relays, h2) =
      >>=-eq-ok (unique_encoded_query_value params "RelayState") _ h1 in
    let (sig_alg, algs, h3) = >>=-eq-ok (unique_encoded_query_value params "SigAlg") _ h2 in
    let (signature, signs, h4) = >>=-eq-ok (unique_encoded_query_value params "Signature") _ h3 in
    let read = unique_encoded_query_value_lem params in
    (
      message,
      rw (is_message) at (read (param_name m) expected has),
      rw (is_absent) at (read (opposite_param_name m) opposite lacks),
      signed_octet-IsSigned params m message relay_state sig_alg signature octet
          (read "RelayState" relay_state relays) (read "SigAlg" sig_alg algs)
          (read "Signature" signature signs) h4,
    )

module _ (codec : Codec) (urls : UrlLibrary) where
  -- A redirect becomes a request only for a message that may come by it. The query then has one
  -- message, of the expected kind, and the request all of its pairs. Its octet string is that of the
  -- parameters as they stand in the query, with one algorithm, one signature and at most one
  -- RelayState; and there is none exactly where the query names neither an algorithm nor a
  -- signature.
  pub http_request_from_input-IsQuery :
      (raw : String) (allow_redirect : Bool) (m : MessageField) (r : HttpRequest)
      → http_request_from_input codec urls (BrowserInput.redirect raw) allow_redirect m ≡ ok r
      → (allow_redirect ≡ true)
        × (r.body ≡ [])
        × (r.query ≡ urls.form_parse (trim_start (λ c. c == b'?') raw))
        × IsQuery (raw_query_params (trim_start (λ c. c == b'?') raw)) m r.octet_string
  unfolding http_request_from_input
  http_request_from_input-IsQuery raw false m r h = cc
  http_request_from_input-IsQuery raw true m r h =
      let raw_query = trim_start (λ c. c == b'?') raw in
      let (octet, built, h1) = >>=-eq-ok (redirect_octet_from_raw_query raw_query m) _ h in
      (
        refl,
        of_ok (λ (q : HttpRequest). q.body ≡ []) h1 refl,
        of_ok (λ (q : HttpRequest). q.query ≡ urls.form_parse raw_query) h1 refl,
        of_ok (λ (q : HttpRequest). IsQuery (raw_query_params raw_query) m q.octet_string) h1
            (redirect_octet_from_raw_query-IsQuery raw_query m octet built),
      )
