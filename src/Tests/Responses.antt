-- ===== src/Tests/Responses.antt =====
-- A signed response with an assertion, as its request carries it, and the libraries that read it. A
-- document is written by one letter for each of its larger elements.
use Prim.Native.Char.{Char, code}
use Prim.Native.String as Text
use risaml.Prelude.{
  ℕ, ◌+◌, ◌-◌, ◌&&◌, leb, String, Bool, true, Option, none, some, List, [], ◌∷◌, ◌++◌, map, ok, err,
  ◌==◌, string_eq, if◌then◌else◌, pos,
}
use risaml.Prelude.Text.{to_char}
use risaml.Constants.{Binding, ParserType}
use risaml.Errors.{Foreign}
use risaml.Libraries.Unicode.{UnicodeLibrary}
use risaml.Libraries.Xml.{Namespace, XmlAttribute, Element, Event, XmlLibrary}
use risaml.Flow.Options.{Environment, FlowOptions, default_options}
use risaml.Flow.Params.{HttpRequest, post}
use risaml.Tests.Documents.{attribute, dsig, at, resolved, sample_crypto, sample_codec, sample_urls}
use risaml.Tests.Browser.{clock}

abbrev protocol : Namespace
protocol =
    Namespace.bound "urn:oasis:names:tc:SAML:2.0:protocol"
      (ok "urn:oasis:names:tc:SAML:2.0:protocol")

abbrev assertion : Namespace
assertion =
    Namespace.bound "urn:oasis:names:tc:SAML:2.0:assertion"
      (ok "urn:oasis:names:tc:SAML:2.0:assertion")

-- An event with its place and the namespace of its element.
pub record Row : Type 0 where
  pub namespace : Namespace
  pub before : ℕ
  pub after : ℕ
  pub event : Event

abbrev row : Namespace → ℕ → ℕ → Event → Row
row namespace before after event = record {
  namespace = namespace;
  before = before;
  after = after;
  event = event;
}

abbrev element : String → List (Foreign XmlAttribute) → Element
element name attributes = record { local_name = name; attributes = attributes }

abbrev instant : String
instant = "2024-01-01T00:00:00Z"

abbrev issued : String → List (Foreign XmlAttribute)
issued id = attribute "ID" id ∷ attribute "Version" "2.0" ∷ attribute "IssueInstant" instant ∷ []

-- The confirmation from this position on, as a document of its own and within the others.
abbrev confirmation_rows : ℕ → List Row
confirmation_rows n =
    row assertion n n (
      Event.start (
        element "SubjectConfirmation"
          (attribute "Method" "urn:oasis:names:tc:SAML:2.0:cm:bearer" ∷ [])))
    ∷ row assertion n n (
        Event.empty (
          element "SubjectConfirmationData"
            (attribute "NotOnOrAfter" "7" ∷ attribute "Recipient" "https://sp/acs" ∷ [])))
    ∷ row assertion n (n + 1) Event.close
    ∷ []

abbrev audience_rows : ℕ → List Row
audience_rows n =
    row assertion n n (Event.start (element "AudienceRestriction" []))
    ∷ row assertion n n (Event.start (element "Audience" []))
    ∷ row assertion n n (Event.text (ok "https://sp"))
    ∷ row assertion n n Event.close
    ∷ row assertion n (n + 1) Event.close
    ∷ []

abbrev assertion_rows : ℕ → List Row
assertion_rows n =
    row assertion n n (Event.start (element "Assertion" (issued "a")))
      ∷ row assertion n n (Event.start (element "Subject" []))
      ∷ confirmation_rows (n + 1)
    ++ row assertion n n Event.close
      ∷ row assertion n n (Event.start (element "Conditions" (attribute "NotOnOrAfter" "7" ∷ [])))
      ∷ audience_rows (n + 2)
    ++ row assertion n n Event.close ∷ row assertion n (n + 3) Event.close ∷ []

abbrev response_rows : List Row
response_rows =
    row protocol 0 0
        (Event.start (element "Response" (attribute "Destination" "https://sp/acs" ∷ issued "r")))
      ∷ row protocol 0 0 (Event.start (element "Status" []))
      ∷ row protocol 0 0 (
          Event.empty (
            element "StatusCode"
              (attribute "Value" "urn:oasis:names:tc:SAML:2.0:status:Success" ∷ [])))
      ∷ row protocol 0 0 Event.close
      ∷ row dsig 1 1 (Event.start (element "Signature" []))
      ∷ row dsig 1 1 (Event.start (element "SignedInfo" []))
      ∷ row dsig 1 1 (Event.empty (element "Reference" (attribute "URI" "#r" ∷ [])))
      ∷ row dsig 1 1 Event.close
      ∷ row dsig 1 2 Event.close
      ∷ assertion_rows 2
    ++ row protocol 5 5 Event.close ∷ []

abbrev rows_of : String → List Row
rows_of source =
    if source == "RSACU"
    then response_rows
    else if source == "ACU"
    then assertion_rows 0
    else if source == "C"
    then confirmation_rows 0
    else if source == "U"
    then audience_rows 0
    else []

abbrev pub response_xml : XmlLibrary
response_xml = record {
  read_events = λ source. map (λ (r : Row). at r.before r.after r.event) (rows_of source);
  read_resolved_events =
      λ _ source. map (λ (r : Row). resolved r.namespace r.event) (rows_of source);
  predefined_entity = λ name. none;
}

-- The tables of Unicode, as far as ASCII goes.
abbrev is_lower : Char → Bool
is_lower c = leb b'a' (code c) && leb (code c) b'z'

abbrev is_upper : Char → Bool
is_upper c = leb b'A' (code c) && leb (code c) b'Z'

abbrev one_char : Option Char → String
one_char none = ""
one_char (some c) = Text.◌∷◌ c ""

abbrev lower : Char → String
lower c = if is_upper c then one_char (to_char (code c + 32)) else Text.◌∷◌ c ""

abbrev upper : Char → String
upper c = if is_lower c then one_char (to_char (code c - 32)) else Text.◌∷◌ c ""

abbrev lowered : String → String
lowered Text.[] = ""
lowered (Text.◌∷◌ c s) = Text.◌++◌ (lower c) (lowered s)

abbrev pub ascii : UnicodeLibrary
ascii = record {
  is_lowercase = is_lower;
  is_uppercase = is_upper;
  to_lowercase = lowered;
  to_uppercase = upper;
}

abbrev pub response_environment : Environment
response_environment = record {
  crypto = sample_crypto;
  codec = record sample_codec {
    base64_decode =
        λ text. if text == "UlNBQ1U=" then ok (82 ∷ 83 ∷ 65 ∷ 67 ∷ 85 ∷ []) else err "invalid byte";
  };
  urls = sample_urls;
  xml = response_xml;
  unicode = ascii;
  time = clock;
  schema = none;
  now_utc = λ _. pos 3;
}

abbrev pub response_options : FlowOptions
response_options = record default_options {
  binding = some Binding.post;
  parser_type = some ParserType.saml_response;
  check_signature = true;
  signing_certs = "AAAA" ∷ [];
  expected_audience = some "https://sp";
}

abbrev pub response_request : HttpRequest
response_request = post (("SAMLResponse", "UlNBQ1U=") ∷ [])
