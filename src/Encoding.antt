-- ===== src/Encoding.antt =====
-- src/binding/encoding.rs: Base64 with the whitespace that SAML allows, and with a limit.
pub mod Limit
use risaml.Prelude.{
  ℕ, ◌+◌, ◌*◌, ◌/◌, ◌-◌, ◌^◌, String, len, Bool, true, false, ◌&&◌, not, List, [], ◌∷◌, length,
  filter, any, Result, ok, err, ◌>>=◌, ◌>>◌, fail_if, map_err, ltb, min, ◌==◌, nat_eq,
  if◌then◌else◌,
}
use risaml.Prelude.Text.{
  Bytes, as_bytes, filter_chars, is_ascii, is_ascii_whitespace, is_whitespace,
}
use risaml.Errors.{SamlError, SamlResult}
use risaml.Libraries.Web.{Codec}

unfoldable pub base64_decode : Codec → String → SamlResult Bytes
base64_decode codec input =
    if is_ascii input && not (any is_ascii_whitespace (as_bytes input))
    then map_err SamlError.base64 (codec.base64_decode input)
    else map_err SamlError.base64
        (codec.base64_decode (filter_chars (λ c. not (is_whitespace c)) input))

abbrev limit_exceeded : SamlError
limit_exceeded = SamlError.invalid "ERR_BASE64_OUTPUT_LIMIT_EXCEEDED"

abbrev usize_max : ℕ
usize_max = 2 ^ 64 - 1

-- The most Base64 characters that so many bytes can have, as `saturating_add`, `saturating_div` and
-- `saturating_mul` compute it.
unfoldable pub max_encoded_len : ℕ → ℕ
max_encoded_len max_output_len = min (min (max_output_len + 2) usize_max / 3 * 4) usize_max

unfoldable pub count_non_whitespace : String → ℕ
count_non_whitespace input =
    length (filter (λ byte. not (is_ascii_whitespace byte)) (as_bytes input))

unfoldable pub normalized : String → String
normalized input =
    if count_non_whitespace input == len input && is_ascii input
    then input
    else filter_chars (λ c. not (is_whitespace c)) input

unfoldable pub base64_decode_with_limit : Codec → String → ℕ → SamlResult Bytes
base64_decode_with_limit codec input max_output_len = do
  let normalized_len = count_non_whitespace input
  fail_if (ltb (max_encoded_len max_output_len) normalized_len) limit_exceeded
  out ← map_err SamlError.base64 (codec.base64_decode (normalized input))
  fail_if (ltb max_output_len (length out)) limit_exceeded
  ok out
