-- ===== src/Encoding/Limit.antt =====
-- The limit of src/binding/encoding.rs, as a bound on the bytes that are decoded.
use risaml.Prelude.{
  ℕ, ◌+◌, ◌*◌, ◌/◌, ◌≤◌, String, Bool, length, ok, ◌≡◌, arith, >>=-eq-ok, of_ok, fail_if-ok,
  fail_if, map_err, ltb,
}
use risaml.Prelude.Text.{Bytes}
use risaml.Errors.{SamlError}
use risaml.Libraries.Web.{Codec}
use risaml.Encoding.{max_encoded_len, count_non_whitespace, normalized, base64_decode_with_limit}

encoded_bound : (max n : ℕ) → ltb (max_encoded_len max) n ≡ Bool.false → n ≤ (max + 2) / 3 * 4
unfolding max_encoded_len
encoded_bound max n h = ground arith

-- What is decoded within a limit is no longer than the limit, and the input that was handed to the
-- decoder has at most four characters, besides whitespace, for every three bytes of the limit,
-- rounded up.
pub base64_decode_with_limit-le :
    (codec : Codec) (input : String) (max : ℕ) (out : Bytes)
    → base64_decode_with_limit codec input max ≡ ok out
    → (length out ≤ max) × (count_non_whitespace input ≤ (max + 2) / 3 * 4)
unfolding base64_decode_with_limit max_encoded_len
base64_decode_with_limit-le codec input max out h =
    let (u, short, h1) =
      >>=-eq-ok (fail_if (ltb (max_encoded_len max) (count_non_whitespace input)) _) _ h in
    let few = fail_if-ok _ _ u short in
    let (decoded, _, h2) =
      >>=-eq-ok (map_err SamlError.base64 (codec.base64_decode (normalized input))) _ h1 in
    let (w, fits, h3) = >>=-eq-ok (fail_if (ltb max (length decoded)) _) _ h2 in
    let bounded = fail_if-ok _ _ w fits in
    let within : length decoded ≤ max = ground arith in
    (of_ok (λ o. length o ≤ max) h3 within, encoded_bound max (count_non_whitespace input) few)
