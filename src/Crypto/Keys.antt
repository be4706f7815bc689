-- ===== src/Crypto/Keys.antt =====
-- src/crypto/keys.rs and the initialisation of src/crypto/provider.rs: a certificate as a
-- verification key.
use Prim.Native.String as Text
use risaml.Prelude.{
  ℕ, suc, ◌%◌, String, not, ◌&&◌, Option, ◌>>◌, map_err, [], ◌∷◌, ◌==◌, nat_eq, if◌then◌else◌,
}
use risaml.Prelude.Text.{concat, contains_str, is_empty}
use risaml.Errors.{SamlError, SamlResult}
use risaml.Libraries.Crypto.{CryptoLibrary}
use risaml.Util.{normalize_cert_string}

-- The characters from the one with this index on, a line end before every 64th.
wrapped : ℕ → String → String
wrapped index Text.[] = ""
wrapped index (Text.◌∷◌ c s) =
    let rest = Text.◌∷◌ c (wrapped (suc index) s) in
    if not (index == 0) && index % 64 == 0 then concat ("\n" ∷ rest ∷ []) else rest

unfoldable pub to_cert_pem : String → String
unfolding wrapped
to_cert_pem cert =
    if contains_str "BEGIN CERTIFICATE" cert
    then cert
    else let b64 = normalize_cert_string cert in
      let body = concat (wrapped 0 b64 ∷ (if is_empty b64 then "" else "\n") ∷ []) in
      concat ("-----BEGIN CERTIFICATE-----\n" ∷ body ∷ "-----END CERTIFICATE-----\n" ∷ [])

unfoldable pub provider_error : String → String → SamlError
provider_error action error =
    SamlError.crypto (concat ("crypto provider " ∷ action ∷ " failed: " ∷ error ∷ []))

module _ (crypto : CryptoLibrary) where
  unfoldable pub ensure_crypto_provider_initialized : SamlResult (Unit {0})
  ensure_crypto_provider_initialized = map_err (provider_error "initialization") crypto.initialize

  unfoldable pub load_certificate : String → SamlResult crypto.Key
  load_certificate cert = do
    ensure_crypto_provider_initialized
    map_err SamlError.crypto (crypto.load_x509_cert_pem (to_cert_pem cert))

  unfoldable pub load_private_key : String → Option String → SamlResult crypto.Key
  load_private_key pem password = do
    ensure_crypto_provider_initialized
    map_err SamlError.crypto (crypto.load_pem_auto pem password)
