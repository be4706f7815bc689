-- ===== src/Inflate/Total.antt =====
-- The loop of src/binding/deflate.rs ends, and what it returns is within the limit.
use risaml.Prelude.{
  ℕ, zero, suc, ◌+◌, ◌-◌, ◌<◌, ◌≤◌, false, ◌&&◌, Option, some, [], ◌++◌, ok, err, ltb, length, drop,
  length-append, length-drop, ◌==◌, nat_eq, ◌≡◌, refl, arith, Result-cases, Bool-cases, inl, inr,
}
use risaml.Prelude.Text.{Bytes}
use risaml.Errors.{SamlError, SamlResult}
use risaml.Libraries.Web.{Codec, ReadsWithin}
use risaml.Inflate.{inflate, output_len, ends_stream, deflate_raw_decode_with_limit}

not_both_zero : (a b : ℕ) → (a == 0 && b == 0) ≡ false → 1 ≤ a + b
not_both_zero a b h = ground arith

module _ (codec : Codec) (max : ℕ) where
  -- Enough turns, and the loop returns, with no more bytes than the limit if with any.
  abbrev pub Returns : Option (SamlResult Bytes) → Type 0
  Returns o = (r : SamlResult Bytes) × (o ≡ some r) × IsWithin r
    where
      IsWithin : SamlResult Bytes → Type 0
      IsWithin (ok out) = length out ≤ max
      IsWithin (err _) = Unit

  inflate-Returns :
      ReadsWithin codec
      → (fuel : ℕ) (decoder : codec.Decoder) (input out : Bytes)
      → length input + (max - length out) < fuel
      → Returns (inflate codec max fuel decoder input out)
  unfolding inflate
  inflate-Returns reads zero decoder input out enough = absurd (omega (arith, enough))
  inflate-Returns reads (suc fuel) decoder input out enough =
      elim (Result-cases (codec.decompress decoder input (output_len max out))) [
        | inr (e, failed) ↦ rw (inflate, failed) (err (SamlError.deflate e), refl, tt)
        | inl (r, done) ↦ elim (Bool-cases (ltb max (length (out ++ r.written)))) [
          | inl over ↦ rw (inflate, done, over) (_, refl, tt)
          | inr within ↦
              let fits : length (out ++ r.written) ≤ max = ground arith in
              elim (Bool-cases (ends_stream r.status)) [
                | inl ended ↦ rw (inflate, done, within, ended) (ok (out ++ r.written), refl, fits)
                | inr runs ↦ elim (Bool-cases (r.consumed == 0 && length r.written == 0)) [
                  | inl stuck ↦ rw (inflate, done, within, runs, stuck) (_, refl, tt)
                  | inr moved ↦
                      rw (inflate, done, within, runs, moved)
                        (inflate-Returns reads fuel r.decoder (drop r.consumed input)
                          (out ++ r.written)
                          (omega (
                            arith,
                            enough,
                            fits,
                            length-append out r.written,
                            length-drop r.consumed input,
                            not_both_zero r.consumed (length r.written) moved,
                            reads.consumed_le decoder input (output_len max out) r done,
                          )))
                ]
              ]
        ]
      ]

-- Inflation ends on every input, whatever the decoder does as long as it reads no more than it is
-- given, and what it returns, if it is no error, is no longer than the limit.
pub deflate_raw_decode_with_limit-Returns :
    (codec : Codec) (input : Bytes) (max : ℕ)
    → ReadsWithin codec
    → Returns codec max (deflate_raw_decode_with_limit codec input max)
unfolding deflate_raw_decode_with_limit
deflate_raw_decode_with_limit-Returns codec input max reads =
    inflate-Returns codec max reads (length input + max + 1) codec.raw_decoder input []
      (omega arith)
