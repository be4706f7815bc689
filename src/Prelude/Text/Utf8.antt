-- ===== src/Prelude/Text/Utf8.antt =====
-- The error of `String::from_utf8`, as it is displayed.
use Prim.Native.Nat.{ℕ, zero, suc, ◌+◌, ◌*◌, ◌-◌}
use Prim.Native.String.{String}
use mathlib.Core.Path.{◌≡◌, refl}
use mathlib.Core.Option.{none, some}
use mathlib.Core.List.{[], ◌∷◌}
use risaml.Prelude.Tests.{◌==◌, nat_eq, if◌then◌else◌, ltb}
use risaml.Prelude.Text.{Bytes, Decoding, between, expect, lead, within, concat, show}

abbrev incomplete_sequence : ℕ → String
incomplete_sequence index = concat ("incomplete utf-8 byte sequence from index " ∷ show index ∷ [])

abbrev invalid_sequence : ℕ → ℕ → String
invalid_sequence length index =
    concat ("invalid utf-8 sequence of " ∷ show length ∷ " bytes from index " ∷ show index ∷ [])

-- The index of the sequence that is read, and how many bytes of it were.
utf8_error_in : Decoding → ℕ → ℕ → Bytes → String
utf8_error_in d index read [] = if d.due == 0 then "" else incomplete_sequence index
utf8_error_in d index read (b ∷ bs) = elim d.due [
  | zero ↦
      if ltb b 0x80
      then utf8_error_in between (suc index) 0 bs
      else elim (lead b) [ none ↦ invalid_sequence 1 index | some d' ↦ utf8_error_in d' index 1 bs ]
  | suc n ↦
      if within d.low d.high b
      then if n == 0
        then utf8_error_in between (index + suc read) 0 bs
        else utf8_error_in (expect n 0x80 0xbf (d.value * 64 + (b - 0x80))) index (suc read) bs
      else invalid_sequence read index
]

-- For bytes that are no UTF-8.
unfoldable pub utf8_error : Bytes → String
unfolding utf8_error_in
utf8_error bytes = utf8_error_in between 0 0 bytes

overlong_test :
    utf8_error (97 ∷ 0xc0 ∷ 0x80 ∷ []) ≡ "invalid utf-8 sequence of 1 bytes from index 1"
unfolding utf8_error concat show
overlong_test = refl

cut_test :
    utf8_error (0xc3 ∷ 0x9f ∷ 0xe2 ∷ 0x82 ∷ []) ≡ "incomplete utf-8 byte sequence from index 2"
unfolding utf8_error concat show
cut_test = refl

broken_test : utf8_error (0xe2 ∷ 0x82 ∷ 97 ∷ []) ≡ "invalid utf-8 sequence of 2 bytes from index 0"
unfolding utf8_error concat show
broken_test = refl
