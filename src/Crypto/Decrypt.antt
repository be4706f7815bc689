-- ===== src/Crypto/Decrypt.antt =====
-- src/crypto/enc.rs: the decryption of the assertion of a response.
use Prim.Native.String as Text
use risaml.Prelude.{
  String, len, slice, Bool, ◌&&◌, not, Option, none, some, [], ◌∷◌, find, ok, ◌>>=◌, ◌>>◌, fail_if,
  ok_or, map_err, ◌==◌, string_eq,
}
use risaml.Prelude.Text.{concat, trim_start, is_whitespace, strip_prefix}
use risaml.Errors.{SamlError, SamlResult}
use risaml.Libraries.Xml.{XmlLibrary}
use risaml.Libraries.Crypto.{CryptoLibrary}
use risaml.Xml.Dom.{XmlLimits, check_input_bytes}
use risaml.Xml.Dom.Tree.{Node, local_name, children, start}
use risaml.Xml.Dom.Tree
use risaml.Xml.Dom.Parse.{parse_with_limits}
use risaml.Crypto.Keys.{ensure_crypto_provider_initialized}

abbrev pub software_rsa_decryption_disabled : SamlError
software_rsa_decryption_disabled =
    SamlError.unsupported
      "XML-Enc RSA key-transport decryption with software private keys is disabled by default because the bundled RustCrypto rsa backend is affected by RUSTSEC-2023-0071. Both the crypto-legacy-rsa-decryption feature and allow_insecure_software_rsa_key_transport_decryption option are required for an explicit compatibility exception."

-- Whether the caller opted in.
unfoldable pub require_software_rsa_opt_in : CryptoLibrary → Bool → SamlResult (Unit {0})
require_software_rsa_opt_in crypto allowed =
    fail_if (crypto.is_rustcrypto && not allowed) software_rsa_decryption_disabled

unfoldable pub child : Node → String → Option Node
child n name = find (λ c. local_name c == name) (children n)

-- The part behind the first "?>".
unfoldable pub after_declaration : String → Option String
after_declaration Text.[] = none
after_declaration (Text.◌∷◌ c s) = elim (strip_prefix "?>" (Text.◌∷◌ c s)) [
  | some rest ↦ some rest
  | none ↦ after_declaration s
]

abbrev unless_found : String → Option String → String
unless_found trimmed none = trimmed
unless_found trimmed (some rest) = trim_start is_whitespace rest

unfoldable pub strip_xml_declaration : String → String
unfolding after_declaration
strip_xml_declaration xml =
    let trimmed = trim_start is_whitespace xml in
    elim (strip_prefix "<?xml" trimmed) [
      | none ↦ trimmed
      | some rest ↦ unless_found trimmed (after_declaration rest)
    ]

module _ (crypto : CryptoLibrary) (xml : XmlLibrary) where
  -- The document with the plain assertion in place of the encrypted one, and that assertion.
  unfoldable pub decrypt_assertion_with_limits :
      String → crypto.Key → Bool → XmlLimits → SamlResult (String × String)
  decrypt_assertion_with_limits source key allowed limits = do
    ensure_crypto_provider_initialized crypto
    require_software_rsa_opt_in crypto allowed
    root ← parse_with_limits xml source limits
    encrypted ←
        ok_or (child root "EncryptedAssertion")
          (SamlError.crypto "ERR_UNDEFINED_ENCRYPTED_ASSERTION")
    encrypted_data ←
        ok_or (child encrypted "EncryptedData")
          (SamlError.crypto "ERR_UNDEFINED_ENCRYPTED_ASSERTION")
    decrypted ←
        map_err SamlError.crypto
          (crypto.decrypt key (slice source (start encrypted_data) (Tree.end encrypted_data)))
    let assertion = strip_xml_declaration decrypted
    let response = concat (
        slice source 0 (start encrypted)
        ∷ assertion
        ∷ slice source (Tree.end encrypted) (len source)
        ∷ [])
    check_input_bytes limits (len response)
    check_input_bytes limits (len assertion)
    ok (response, assertion)
