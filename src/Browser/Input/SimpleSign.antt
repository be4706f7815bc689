-- ===== src/Browser/Input/SimpleSign.antt =====
-- The octet string that src/browser/input.rs builds of the fields of a SimpleSign form, against the
-- check of src/flow.rs.
use risaml.Prelude.{
  String, Bool, true, Option, none, some, List, [], ◌∷◌, ok, >>=-eq-ok, of_ok, ok_or, ok_or-ok, ◌≡◌,
  refl, ap, ◌==◌, string_eq, eq_refl, Bool-cases, inl, inr,
}
use risaml.Prelude.Text.{Bytes, from_utf8}
use risaml.Constants.{ParserType, query_param}
use risaml.Errors.{SamlError}
use risaml.Libraries.Web.{Codec, UrlLibrary}
use risaml.Encoding.{base64_decode_with_limit}
use risaml.Xml.Dom.{default_limits}
use risaml.Flow.Params.{HttpRequest, values_of, only_value, single_param, body_get, post}
use risaml.Flow.Octets.{
  is_one_of, simplesign_octets, ensure_simplesign_octet_matches_consumed_fields,
}
use risaml.Browser.Input.{
  FormField, MessageField, param_name, opposite_param_name, BrowserInput, unique, octet_of,
  fields_to_pairs, field_values, field_value, validate_form_message_kind,
  simplesign_octet_from_fields, fields_of, http_request_from_input,
}
use risaml.Browser.Input.Octet.{only_expected_lem}

values_of-fields_to_pairs :
    (fields : List FormField) (key : String)
    → values_of (fields_to_pairs fields) key ≡ field_values fields key
values_of-fields_to_pairs [] key = refl
values_of-fields_to_pairs (f ∷ fields) key = elim (Bool-cases (f.name == key)) [
  | inl same ↦ rw same (ap (λ vs. f.value ∷ vs) (values_of-fields_to_pairs fields key))
  | inr other ↦ rw other (values_of-fields_to_pairs fields key)
]

unique-only_value :
    (e : SamlError) (vs : List String) (found : Option String)
    → unique e vs ≡ ok found
    → only_value vs ≡ ok found
unique-only_value e [] found h = of_ok (λ o. only_value [] ≡ ok o) h refl
unique-only_value e (v ∷ []) found h = of_ok (λ o. only_value (v ∷ []) ≡ ok o) h refl
unique-only_value e (v ∷ w ∷ vs) found h = cc

-- A field that is read of the form is read of the request's body too.
single_param-fields_to_pairs :
    (fields : List FormField) (key : String) (found : Option String)
    → field_value fields key ≡ ok found
    → single_param (fields_to_pairs fields) key ≡ ok found
unfolding field_value single_param
single_param-fields_to_pairs fields key found h =
    rw (values_of-fields_to_pairs fields key)
      (unique-only_value _ (field_values fields key) found h)

octet_of-is_one_of :
    (direction xml : String) (relay_state : Option String) (sig_alg : String)
    → is_one_of
        (octet_of direction xml relay_state sig_alg)
        (simplesign_octets direction xml relay_state sig_alg)
      ≡ true
unfolding simplesign_octets
octet_of-is_one_of direction xml (some relay) sig_alg =
    rw (eq_refl (octet_of direction xml (some relay) sig_alg)) refl
octet_of-is_one_of direction xml none sig_alg =
    rw (eq_refl (octet_of direction xml none sig_alg)) refl

-- The octet string of a request stands for its fields: the text in its message, and its algorithm,
-- with which the check of the flow accepts it.
pub record IsBuilt (codec : Codec) (parser_type : ParserType) (r : HttpRequest) : Type 0 where
  pub encoded : String
  pub is_message : single_param r.body (query_param parser_type) ≡ ok (some encoded)
  pub bytes : Bytes
  pub are_bytes : base64_decode_with_limit codec encoded default_limits.max_bytes ≡ ok bytes
  pub xml : String
  pub is_xml : from_utf8 bytes ≡ some xml
  pub sig_alg : String
  pub is_sig_alg : single_param r.body "SigAlg" ≡ ok (some sig_alg)
  pub octet : String
  pub is_octet : r.octet_string ≡ some octet
  pub is_accepted :
      ensure_simplesign_octet_matches_consumed_fields parser_type r xml sig_alg octet ≡ ok tt

ensures :
    (parser_type : ParserType) (r : HttpRequest) (encoded xml sig_alg : String)
    (relay_state : Option String) (octet : String)
    → single_param r.body (query_param parser_type) ≡ ok (some encoded)
    → single_param r.body "RelayState" ≡ ok relay_state
    → octet_of (query_param parser_type) xml relay_state sig_alg ≡ octet
    → ensure_simplesign_octet_matches_consumed_fields parser_type r xml sig_alg octet ≡ ok tt
unfolding ensure_simplesign_octet_matches_consumed_fields body_get
ensures parser_type r encoded xml sig_alg relay_state octet message relays is_octet =
    rw
      (
        message,
        relays,
        ← is_octet,
        octet_of-is_one_of (query_param parser_type) xml relay_state sig_alg,
      )
      refl

module _ (codec : Codec) where
  signed_post :
      (parser_type : ParserType) (m : MessageField)
      → query_param parser_type ≡ param_name m
      → (fields : List FormField) (octet : String)
      → simplesign_octet_from_fields codec fields m ≡ ok octet
      → IsBuilt codec parser_type
          (record (post (fields_to_pairs fields)) { octet_string = some octet })
  unfolding simplesign_octet_from_fields validate_form_message_kind
  signed_post parser_type m same fields octet h =
      let (encoded, valid, h1) = >>=-eq-ok (validate_form_message_kind fields m) _ h in
      let (expected, has, v1) = >>=-eq-ok (field_value fields (param_name m)) _ valid in
      let (opposite, lacks, v2) = >>=-eq-ok (field_value fields (opposite_param_name m)) _ v1 in
      let (is_message, _) = only_expected_lem "form" m expected opposite encoded v2 in
      let (bytes, are_bytes, h2) =
        >>=-eq-ok (base64_decode_with_limit codec encoded default_limits.max_bytes) _ h1 in
      let (xml, is_text, h3) = >>=-eq-ok (ok_or (from_utf8 bytes) _) _ h2 in
      let (found, algs, h4) = >>=-eq-ok (field_value fields "SigAlg") _ h3 in
      let (sig_alg, is_alg, h5) = >>=-eq-ok (ok_or found SamlError.missing_sig_alg) _ h4 in
      let (relay_state, relays, h6) = >>=-eq-ok (field_value fields "RelayState") _ h5 in
      let r : HttpRequest = record (post (fields_to_pairs fields)) { octet_string = some octet } in
      let message : single_param r.body (query_param parser_type) ≡ ok (some encoded) =
        rw (same, ← is_message) (single_param-fields_to_pairs fields (param_name m) expected has) in
      let is_octet : octet_of (query_param parser_type) xml relay_state sig_alg ≡ octet =
        rw same (cc) in
      record {
        encoded = encoded;
        is_message = message;
        bytes = bytes;
        are_bytes = are_bytes;
        xml = xml;
        is_xml = ok_or-ok _ _ xml is_text;
        sig_alg = sig_alg;
        is_sig_alg =
            rw (← ok_or-ok found _ sig_alg is_alg)
              (single_param-fields_to_pairs fields "SigAlg" found algs);
        octet = octet;
        is_octet = refl;
        is_accepted =
            ensures parser_type r encoded xml sig_alg relay_state octet message
              (single_param-fields_to_pairs fields "RelayState" relay_state relays) is_octet;
      }

module _ (codec : Codec) (urls : UrlLibrary) where
  -- A SimpleSign form becomes a request whose octet string the flow accepts for the message, the
  -- RelayState and the algorithm that it reads of the request itself, where the flow expects a
  -- message of the same kind.
  pub http_request_from_input-IsBuilt :
      (parser_type : ParserType) (m : MessageField)
      → query_param parser_type ≡ param_name m
      → (raw_body : String) (fields : List FormField) (allow_redirect : Bool) (r : HttpRequest)
      → http_request_from_input codec urls
          (BrowserInput.simple_sign_post raw_body fields)
          allow_redirect
          m
        ≡ ok r
      → IsBuilt codec parser_type r
  unfolding http_request_from_input
  http_request_from_input-IsBuilt parser_type m same raw_body given allow_redirect r h =
      let fields = fields_of urls raw_body given in
      let (octet, built, h1) = >>=-eq-ok (simplesign_octet_from_fields codec fields m) _ h in
      of_ok (IsBuilt codec parser_type) h1 (signed_post codec parser_type m same fields octet built)
