-- ===== src/Constants.antt =====
-- src/constants.rs: bindings, message kinds, URNs and the algorithm tables.
use risaml.Prelude.{
  String, Bool, true, false, ◌||◌, Option, none, some, [], ◌∷◌, ◌≡◌, refl, ◌↔◌, arith, find, Eq,
  ◌==◌, string_eq, if◌then◌else◌,
}

pub data Binding : Type 0 where
  redirect post simple_sign artifact : Binding

abbrev pub urn : Binding → String
urn Binding.redirect = "urn:oasis:names:tc:SAML:2.0:bindings:HTTP-Redirect"
urn Binding.post = "urn:oasis:names:tc:SAML:2.0:bindings:HTTP-POST"
urn Binding.simple_sign = "urn:oasis:names:tc:SAML:2.0:bindings:HTTP-POST-SimpleSign"
urn Binding.artifact = "urn:oasis:names:tc:SAML:2.0:bindings:HTTP-Artifact"

abbrev pub short_name : Binding → String
short_name Binding.redirect = "redirect"
short_name Binding.post = "post"
short_name Binding.simple_sign = "simpleSign"
short_name Binding.artifact = "artifact"

unfoldable pub from_short_name : String → Option Binding
from_short_name name =
    if name == "redirect"
    then some Binding.redirect
    else if name == "post"
    then some Binding.post
    else if name == "simpleSign"
    then some Binding.simple_sign
    else if name == "artifact"
    then some Binding.artifact
    else none

unfoldable pub from_urn : String → Option Binding
from_urn text =
    find (λ b. urn b == text)
      (Binding.redirect ∷ Binding.post ∷ Binding.simple_sign ∷ Binding.artifact ∷ [])

pub data ParserType : Type 0 where
  saml_request saml_response logout_request logout_response : ParserType

abbrev pub parser_type_beq : ParserType → ParserType → Bool
parser_type_beq ParserType.saml_request ParserType.saml_request = true
parser_type_beq ParserType.saml_response ParserType.saml_response = true
parser_type_beq ParserType.logout_request ParserType.logout_request = true
parser_type_beq ParserType.logout_response ParserType.logout_response = true
parser_type_beq _ _ = false

pub parser_type_beq_iff : (a b : ParserType) → (parser_type_beq a b ≡ true) ↔ (a ≡ b)
parser_type_beq_iff ParserType.saml_request b = ground arith
parser_type_beq_iff _ b = ground arith

instance abbrev pub parser_type_eq : Eq ParserType
parser_type_eq = record { test = parser_type_beq; decides = parser_type_beq_iff }

-- `ParserType::query_param`: which parameter carries the message.
abbrev pub query_param : ParserType → String
query_param ParserType.saml_request = "SAMLRequest"
query_param ParserType.logout_request = "SAMLRequest"
query_param ParserType.saml_response = "SAMLResponse"
query_param ParserType.logout_response = "SAMLResponse"

abbrev pub ns_protocol : String
ns_protocol = "urn:oasis:names:tc:SAML:2.0:protocol"

abbrev pub ns_assertion : String
ns_assertion = "urn:oasis:names:tc:SAML:2.0:assertion"

abbrev pub ns_metadata : String
ns_metadata = "urn:oasis:names:tc:SAML:2.0:metadata"

abbrev pub ns_dsig : String
ns_dsig = "http://www.w3.org/2000/09/xmldsig#"

abbrev pub status_success : String
status_success = "urn:oasis:names:tc:SAML:2.0:status:Success"

-- `digest_for_signature`, with the URIs of `signature_algorithm` and `digest_algorithm`.
unfoldable pub digest_for_signature : String → Option String
digest_for_signature sig_alg =
    if sig_alg == "http://www.w3.org/2000/09/xmldsig#rsa-sha1"
    then some "http://www.w3.org/2000/09/xmldsig#sha1"
    else if sig_alg == "http://www.w3.org/2001/04/xmldsig-more#rsa-sha256"
    then some "http://www.w3.org/2001/04/xmlenc#sha256"
    else if sig_alg == "http://www.w3.org/2007/05/xmldsig-more#sha256-rsa-MGF1"
    then some "http://www.w3.org/2001/04/xmlenc#sha256"
    else if sig_alg == "http://www.w3.org/2001/04/xmldsig-more#rsa-sha384"
    then some "http://www.w3.org/2001/04/xmldsig-more#sha384"
    else if sig_alg == "http://www.w3.org/2001/04/xmldsig-more#rsa-sha512"
    then some "http://www.w3.org/2001/04/xmlenc#sha512"
    else none

unfoldable pub is_xml_encryption_cbc_algorithm : String → Bool
is_xml_encryption_cbc_algorithm algorithm =
    algorithm == "http://www.w3.org/2001/04/xmlenc#aes128-cbc"
    || algorithm == "http://www.w3.org/2001/04/xmlenc#aes192-cbc"
    || algorithm == "http://www.w3.org/2001/04/xmlenc#aes256-cbc"
    || algorithm == "http://www.w3.org/2001/04/xmlenc#tripledes-cbc"

pub from_short_name-short_name : (b : Binding) → from_short_name (short_name b) ≡ some b
unfolding from_short_name
from_short_name-short_name Binding.redirect = refl
from_short_name-short_name _ = refl

pub from_urn-urn : (b : Binding) → from_urn (urn b) ≡ some b
unfolding from_urn
from_urn-urn Binding.redirect = refl
from_urn-urn _ = refl
