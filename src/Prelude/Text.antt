-- ===== src/Prelude/Text.antt =====
-- What the program uses of `str`, `char` and `String` of Rust's standard library, over the native
-- texts, and UTF-8 in both directions.
pub mod Affixes
pub mod Utf8
use Prim.Native.Nat.{ℕ, zero, suc, ◌+◌, ◌-◌, ◌*◌, ◌/◌, ◌%◌, compare, Ordering}
use Prim.Native.Char.{Char, code, len_utf8, char}
use Prim.Native.String
use Prim.Native.String.{String}
use mathlib.Core.Path.{◌≡◌, refl}
use mathlib.Core.Bool.{Bool, true, false, ◌&&◌, ◌||◌, not}
use mathlib.Core.Logic.{◌⊎◌, inl, inr}
use mathlib.Core.Option
use mathlib.Core.Option.{Option, none, some}
use mathlib.Core.List.{List, [], ◌∷◌, ◌++◌}
use risaml.Prelude.Tests.{◌==◌, nat_eq, string_eq, if◌then◌else◌, leb, ltb}

abbrev pub is_empty : String → Bool
is_empty String.[] = true
is_empty (String.◌∷◌ c s) = false

-- The parts one after another: `format!`.
unfoldable pub concat : List String → String
concat [] = ""
concat (s ∷ ss) = String.◌++◌ s (concat ss)

-- `strip_prefix`, the prefix first.
unfoldable pub strip_prefix : String → String → Option String
strip_prefix String.[] s = some s
strip_prefix (String.◌∷◌ c p) String.[] = none
strip_prefix (String.◌∷◌ c p) (String.◌∷◌ d s) = if code c == code d then strip_prefix p s else none

abbrev pub starts_with : String → String → Bool
starts_with p s = elim (strip_prefix p s) [ none ↦ false | some _ ↦ true ]

-- `strip_suffix`, the suffix first.
unfoldable pub strip_suffix : String → String → Option String
strip_suffix t String.[] = if is_empty t then some "" else none
strip_suffix t (String.◌∷◌ c s) =
    if String.◌∷◌ c s == t then some "" else Option.map (String.◌∷◌ c) (strip_suffix t s)

-- `s.contains(sub)`, the part first.
unfoldable pub contains_str : String → String → Bool
unfolding strip_prefix
contains_str sub String.[] = is_empty sub
contains_str sub (String.◌∷◌ c s) = starts_with sub (String.◌∷◌ c s) || contains_str sub s

-- `trim_start_matches` and `trim_end_matches` of a test on characters.
unfoldable pub trim_start : (ℕ → Bool) → String → String
trim_start p String.[] = ""
trim_start p (String.◌∷◌ c s) = if p (code c) then trim_start p s else String.◌∷◌ c s

unfoldable pub trim_end : (ℕ → Bool) → String → String
trim_end p String.[] = ""
trim_end p (String.◌∷◌ c s) =
    let rest = trim_end p s in if is_empty rest && p (code c) then "" else String.◌∷◌ c rest

unfoldable pub trim_matches : (ℕ → Bool) → String → String
unfolding trim_start trim_end
trim_matches p s = trim_end p (trim_start p s)

unfoldable pub filter_chars : (ℕ → Bool) → String → String
filter_chars p String.[] = ""
filter_chars p (String.◌∷◌ c s) =
    if p (code c) then String.◌∷◌ c (filter_chars p s) else filter_chars p s

-- `split(sep)` at one character.
unfoldable pub split : ℕ → String → List String
split sep String.[] = "" ∷ []
split sep (String.◌∷◌ c s) =
    let rest = split sep s in if code c == sep then "" ∷ rest else push_head c rest
  where
    push_head : Char → List String → List String
    push_head d [] = String.◌∷◌ d "" ∷ []
    push_head d (w ∷ ws) = String.◌∷◌ d w ∷ ws

-- The part behind the last separator: `rsplit(sep).next()`, which is never `None`.
unfoldable pub after_last : ℕ → String → String
unfolding split
after_last sep s = last_or "" (split sep s)
  where
    last_or : String → List String → String
    last_or d [] = d
    last_or d (w ∷ ws) = last_or w ws

abbrev within : ℕ → ℕ → ℕ → Bool
within lo hi c = leb lo c && leb c hi

-- `char::is_whitespace`: the Unicode property White_Space.
unfoldable pub is_whitespace : ℕ → Bool
is_whitespace c =
    within 0x09 0x0d c
    || c == 0x20
    || c == 0x85
    || c == 0xa0
    || c == 0x1680
    || within 0x2000 0x200a c
    || c == 0x2028
    || c == 0x2029
    || c == 0x202f
    || c == 0x205f
    || c == 0x3000

-- `u8::is_ascii_whitespace`: no vertical tab.
abbrev pub is_ascii_whitespace : ℕ → Bool
is_ascii_whitespace c = c == 0x20 || c == 0x09 || c == 0x0a || c == 0x0c || c == 0x0d

unfoldable pub trim : String → String
unfolding trim_matches is_whitespace
trim s = trim_matches is_whitespace s

unfoldable pub is_ascii : String → Bool
is_ascii String.[] = true
is_ascii (String.◌∷◌ c s) = ltb (code c) 128 && is_ascii s

abbrev pub Bytes : Type 0
Bytes = List ℕ

-- The UTF-8 of one character, by its number.
abbrev encode_code : ℕ → Bytes
encode_code n =
    if ltb n 0x80
    then n ∷ []
    else if ltb n 0x800
    then (0xc0 + n / 64) ∷ (0x80 + n % 64) ∷ []
    else if ltb n 0x10000
    then (0xe0 + n / 4096) ∷ (0x80 + n / 64 % 64) ∷ (0x80 + n % 64) ∷ []
    else (0xf0 + n / 262144) ∷ (0x80 + n / 4096 % 64) ∷ (0x80 + n / 64 % 64) ∷ (0x80 + n % 64) ∷ []

-- `as_bytes`.
unfoldable pub as_bytes : String → Bytes
as_bytes String.[] = []
as_bytes (String.◌∷◌ c s) = encode_code (code c) ++ as_bytes s

Ordering-cases : (o : Ordering) → (o ≡ Ordering.lt) ⊎ ((o ≡ Ordering.eq) ⊎ (o ≡ Ordering.gt))
Ordering-cases Ordering.lt = inl refl
Ordering-cases Ordering.eq = inr (inl refl)
Ordering-cases Ordering.gt = inr (inr refl)

-- `char::from_u32`.
unfoldable pub to_char : ℕ → Option Char
unfolding Ordering-cases
to_char n = elim (Ordering-cases (compare n 55296)) [
  | inl low ↦ some (char n (rw low tt))
  | inr high ↦ high_char high
]
  where
    high_char : (compare n 55296 ≡ Ordering.eq) ⊎ (compare n 55296 ≡ Ordering.gt) → Option Char
    high_char h = elim (Ordering-cases (compare 57343 n)) [
      | inl above ↦ elim (Ordering-cases (compare n 1114112)) [
        | inl below ↦
            some (
              char n (elim h [ inl e ↦ rw (e, above, below) tt | inr e ↦ rw (e, above, below) tt ]))
        | inr _ ↦ none
      ]
      | inr _ ↦ none
    ]

-- `String::from_utf8`, byte by byte: how many continuation bytes are due, the range of the next
-- one, and the number read so far.
record Decoding : Type 0 where
  due : ℕ
  low : ℕ
  high : ℕ
  value : ℕ

abbrev between : Decoding
between = record { due = 0; low = 0; high = 0; value = 0 }

abbrev expect : ℕ → ℕ → ℕ → ℕ → Decoding
expect n lo hi v = record { due = n; low = lo; high = hi; value = v }

abbrev lead : ℕ → Option Decoding
lead b =
    if within 0xc2 0xdf b
    then some (expect 1 0x80 0xbf (b - 0xc0))
    else if b == 0xe0
    then some (expect 2 0xa0 0xbf 0)
    else if b == 0xed
    then some (expect 2 0x80 0x9f 13)
    else if within 0xe1 0xef b
    then some (expect 2 0x80 0xbf (b - 0xe0))
    else if b == 0xf0
    then some (expect 3 0x90 0xbf 0)
    else if within 0xf1 0xf3 b
    then some (expect 3 0x80 0xbf (b - 0xf0))
    else if b == 0xf4
    then some (expect 3 0x80 0x8f 4)
    else none

from_utf8_in : Decoding → Bytes → Option String
unfolding to_char
from_utf8_in d [] = if d.due == 0 then some "" else none
from_utf8_in d (b ∷ bs) = elim d.due [
  | zero ↦
      if ltb b 0x80
      then push (to_char b) (from_utf8_in between bs)
      else elim (lead b) [ none ↦ none | some d' ↦ from_utf8_in d' bs ]
  | suc n ↦
      if within d.low d.high b
      then if n == 0
        then push (to_char (d.value * 64 + (b - 0x80))) (from_utf8_in between bs)
        else from_utf8_in (expect n 0x80 0xbf (d.value * 64 + (b - 0x80))) bs
      else none
]
  where
    push : Option Char → Option String → Option String
    push none s = none
    push (some c) s = Option.map (String.◌∷◌ c) s

unfoldable pub from_utf8 : Bytes → Option String
unfolding from_utf8_in
from_utf8 bs = from_utf8_in between bs

abbrev digit : ℕ → String
digit d = elim (to_char (48 + d % 10)) [ none ↦ "" | some c ↦ String.◌∷◌ c "" ]

-- At most `i + 1` digits of a number.
show_digits : ℕ → ℕ → String
show_digits zero n = digit n
show_digits (suc i) n =
    let longer = String.◌++◌ (show_digits i (n / 10)) (digit n) in
    if ltb n 10 then digit n else longer

-- The decimal form of a number below 10 ^ 20.
unfoldable pub show : ℕ → String
unfolding show_digits to_char
show n = show_digits 19 n

show_test : show 1048576 ≡ "1048576"
unfolding show
show_test = refl

utf8_test : from_utf8 (as_bytes "aß€𝄞") ≡ some "aß€𝄞"
unfolding from_utf8 as_bytes
utf8_test = refl

utf8_overlong : from_utf8 (0xc0 ∷ 0x80 ∷ []) ≡ none
unfolding from_utf8
utf8_overlong = refl

split_test : split b'.' "a.bc." ≡ "a" ∷ "bc" ∷ "" ∷ []
unfolding split
split_test = refl

strip_test : strip_suffix "'))" "ab'))" ≡ some "ab"
unfolding strip_suffix
strip_test = refl

trim_test : trim " \ta b \n" ≡ "a b"
unfolding trim
trim_test = refl
