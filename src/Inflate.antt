-- ===== src/Inflate.antt =====
-- src/binding/deflate.rs: raw DEFLATE, inflated within a limit.
pub mod Total
use risaml.Prelude.{
  ℕ, zero, suc, ◌+◌, ◌-◌, ◌^◌, Bool, true, false, ◌&&◌, Option, none, some, List, [], ◌++◌, Result,
  ok, err, map_err, ltb, min, length, drop, ◌==◌, nat_eq, if◌then◌else◌,
}
use risaml.Prelude.Text.{Bytes}
use risaml.Errors.{SamlError, SamlResult}
use risaml.Libraries.Web.{Codec, Inflated, Status}

abbrev pub max_deflate_raw_decode_bytes : ℕ
max_deflate_raw_decode_bytes = 1_048_576

abbrev usize_max : ℕ
usize_max = 2 ^ 64 - 1

unfoldable pub deflate_raw_encode : Codec → Bytes → SamlResult Bytes
deflate_raw_encode codec input = map_err SamlError.deflate (codec.deflate input)

abbrev pub ends_stream : Status → Bool
ends_stream Status.stream_end = true
ends_stream _ = false

-- The length of the slice of the buffer that the decoder may fill: `read_limit` is a saturating sum.
abbrev pub output_len : ℕ → Bytes → ℕ
output_len max out = min 4096 (min (max + 1) usize_max - length out)

module _ (codec : Codec) (max : ℕ) where
  -- The loop, with so many turns; `none` if they do not suffice.
  unfoldable pub inflate : ℕ → codec.Decoder → Bytes → Bytes → Option (SamlResult Bytes)
  inflate zero decoder input out = none
  inflate (suc fuel) decoder input out =
      elim (codec.decompress decoder input (output_len max out)) [
        | err e ↦ some (err (SamlError.deflate e))
        | ok r ↦ elim (ltb max (length (out ++ r.written))) [
          | true ↦ some (err (SamlError.invalid "ERR_DEFLATE_OUTPUT_LIMIT_EXCEEDED"))
          | false ↦ elim (ends_stream r.status) [
            | true ↦ some (ok (out ++ r.written))
            | false ↦ elim (r.consumed == 0 && length r.written == 0) [
              | true ↦ some (err (SamlError.deflate "incomplete DEFLATE stream"))
              | false ↦ inflate fuel r.decoder (drop r.consumed input) (out ++ r.written)
            ]
          ]
        ]
      ]

-- Each turn reads or writes, so a turn for each byte of the input and of the limit is enough.
unfoldable pub deflate_raw_decode_with_limit : Codec → Bytes → ℕ → Option (SamlResult Bytes)
deflate_raw_decode_with_limit codec input max =
    inflate codec max (length input + max + 1) codec.raw_decoder input []

unfoldable pub deflate_raw_decode : Codec → Bytes → Option (SamlResult Bytes)
deflate_raw_decode codec input =
    deflate_raw_decode_with_limit codec input max_deflate_raw_decode_bytes
