-- ===== src/Xml/DateTime.antt =====
-- src/xml/date_time.rs: the UTC subset of `xs:dateTime` that SAML uses.
pub mod Calendar
use risaml.Prelude.{
  ℕ, ◌+◌, ◌-◌, ◌*◌, ◌%◌, String, Bool, true, false, ◌&&◌, ◌||◌, not, Option, none, some, List, [],
  ◌∷◌, ltb, leb, ◌==◌, nat_eq, option_eq, if◌then◌else◌, length, take, drop, get_elem?, all, head,
}
use mathlib.Core.Option
use risaml.Prelude.Text.{Bytes, as_bytes, trim_matches, strip_suffix}
use risaml.Validator.{and_then}

-- `digit.checked_sub(b'0')`, at most 9.
unfoldable pub digit_value : ℕ → Option ℕ
digit_value b = if leb b'0' b && leb b b'9' then some (b - b'0') else none

-- `value.get(offset)?.checked_sub(b'0')?` for two digits. A sum of two such values fits in a byte.
unfoldable pub parse_two_ascii_digits : Bytes → ℕ → Option ℕ
parse_two_ascii_digits value offset =
    and_then (and_then (get_elem? value offset) digit_value) λ tens.
      and_then (and_then (get_elem? value (offset + 1)) digit_value) λ ones. some (tens * 10 + ones)

-- The `try_fold` over the digits, from a remainder. The sums fit in 16 bits for a modulus up to 6552.
unfoldable pub year_modulo_from : ℕ → ℕ → Bytes → Option ℕ
year_modulo_from modulus remainder [] = some remainder
year_modulo_from modulus remainder (b ∷ bs) = elim (digit_value b) [
  | none ↦ none
  | some d ↦ year_modulo_from modulus ((remainder * 10 + d) % modulus) bs
]

unfoldable pub year_modulo : Bytes → ℕ → Option ℕ
unfolding year_modulo_from
year_modulo year modulus = year_modulo_from modulus 0 year

unfoldable pub signed_year_modulo : Bytes → Bool → ℕ → Option ℕ
signed_year_modulo year negative modulus =
    Option.map (λ magnitude. if negative then (modulus + 1 - magnitude) % modulus else magnitude)
      (year_modulo year modulus)

unfoldable pub is_leap_year : Bytes → Bool → Bool
is_leap_year year negative =
    signed_year_modulo year negative 400 == some 0
    || signed_year_modulo year negative 4 == some 0
      && not (signed_year_modulo year negative 100 == some 0)

unfoldable pub max_day : Bytes → Bool → ℕ → Option ℕ
max_day year negative_year month =
    if month == 1
      || month == 3
      || month == 5
      || month == 7
      || month == 8
      || month == 10
      || month == 12
    then some 31
    else if month == 4 || month == 6 || month == 9 || month == 11
    then some 30
    else if month == 2
    then some (if is_leap_year year negative_year then 29 else 28)
    else none

unfoldable pub is_valid_calendar_day : Bytes → Bool → ℕ → ℕ → Bool
is_valid_calendar_day year negative_year month day = elim (max_day year negative_year month) [
  | none ↦ false
  | some last ↦ leb 1 day && leb day last
]

abbrev pub is_xml_schema_whitespace : ℕ → Bool
is_xml_schema_whitespace c = c == b' ' || c == b'\t' || c == b'\n' || c == b'\r'

-- `position` of a byte.
unfoldable pub position : ℕ → Bytes → Option ℕ
position b [] = none
position b (c ∷ cs) = if c == b then some 0 else Option.map (λ n. n + 1) (position b cs)

abbrev is_ascii_digit : ℕ → Bool
is_ascii_digit b = leb b'0' b && leb b b'9'

abbrev is_at : Bytes → ℕ → ℕ → Bool
is_at bytes i b = get_elem? bytes i == some b

unfoldable pub is_valid_year : Bytes → Bool
is_valid_year year = not (
    ltb (length year) 4
    || (ltb 4 (length year) && head year == some b'0')
    || all (λ digit. digit == b'0') year
    || year_modulo year 400 == none)

unfoldable pub has_separators : Bytes → ℕ → Bool
has_separators bytes at =
    leb (at + 15) (length bytes)
    && is_at bytes at b'-'
    && is_at bytes (at + 3) b'-'
    && is_at bytes (at + 6) b'T'
    && is_at bytes (at + 9) b':'
    && is_at bytes (at + 12) b':'

unfoldable pub is_valid_fraction : Bytes → Bool
is_valid_fraction [] = true
is_valid_fraction (b ∷ digits) = b == b'.' && ltb 0 (length digits) && all is_ascii_digit digits

-- An hour of 24 is the end of the day.
unfoldable pub is_valid_hour : ℕ → ℕ → ℕ → Bytes → Bool
is_valid_hour hour minute second fractional =
    ltb hour 24
    || hour == 24 && minute == 0 && second == 0 && all (λ digit. digit == b'0') (drop 1 fractional)

-- The part behind the year, whose separator stands at `at`, and the second that it names.
unfoldable pub parse_fields : Bytes → Bytes → Bool → ℕ → Option ℕ
parse_fields bytes year negative_year at = and_then (parse_two_ascii_digits bytes (at + 1)) λ month.
    and_then (parse_two_ascii_digits bytes (at + 4)) λ day.
      and_then (parse_two_ascii_digits bytes (at + 7)) λ hour.
        and_then (parse_two_ascii_digits bytes (at + 10)) λ minute.
          and_then (parse_two_ascii_digits bytes (at + 13)) λ second.
            if is_valid_calendar_day year negative_year month day
              && not (ltb 59 minute)
              && not (ltb 60 second)
              && is_valid_fraction (drop (at + 15) bytes)
              && is_valid_hour hour minute second (drop (at + 15) bytes)
            then some second
            else none

-- The text without its `Z`, as bytes, with the sign of the year.
unfoldable pub parse_bytes : Bytes → Option ℕ
parse_bytes bytes =
    let negative_year = head bytes == some b'-' in
    let year_start : ℕ = if negative_year then 1 else 0 in
    and_then (position b'-' (drop year_start bytes)) λ offset.
      let year = take offset (drop year_start bytes) in
      if is_valid_year year && has_separators bytes (year_start + offset)
      then parse_fields bytes year negative_year (year_start + offset)
      else none

unfoldable pub parse_saml_utc_date_time_with_seconds : String → Option (String × ℕ)
unfolding parse_bytes
parse_saml_utc_date_time_with_seconds value =
    let trimmed = trim_matches is_xml_schema_whitespace value in
    and_then (strip_suffix "Z" trimmed) λ without_timezone.
      Option.map (λ second. (trimmed, second)) (parse_bytes (as_bytes without_timezone))

unfoldable pub parse_saml_utc_date_time : String → Option String
unfolding parse_saml_utc_date_time_with_seconds
parse_saml_utc_date_time value =
    Option.map (λ (p : String × ℕ). p.0) (parse_saml_utc_date_time_with_seconds value)

unfoldable pub parse_generated_saml_utc_date_time : String → Option String
unfolding parse_saml_utc_date_time_with_seconds
parse_generated_saml_utc_date_time value =
    and_then (parse_saml_utc_date_time_with_seconds value)
      λ (p : String × ℕ). if ltb p.1 60 then some p.0 else none
