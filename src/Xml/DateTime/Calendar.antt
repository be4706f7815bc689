-- ===== src/Xml/DateTime/Calendar.antt =====
-- The leap years of src/xml/date_time.rs, read from the digits of a year of any length, against the
-- Gregorian rule on its number.
use risaml.Prelude.{
  ℕ, ◌+◌, ◌-◌, ◌*◌, ◌%◌, ◌<◌, ◌≤◌, Bool, true, false, ◌&&◌, ◌||◌, not, some, [], ◌∷◌, ◌==◌, nat_eq,
  if◌then◌else◌, All, ◌≡◌, refl, arith,
}
use risaml.Prelude.Text.{Bytes}
use risaml.Xml.DateTime.{
  digit_value, year_modulo, year_modulo_from, signed_year_modulo, is_leap_year,
}

-- The bytes of ASCII digits, and the number that they write.
abbrev pub IsDigit : ℕ → Type 0
IsDigit b = (b'0' ≤ b) × (b ≤ b'9')

abbrev pub decimal_from : ℕ → Bytes → ℕ
decimal_from acc [] = acc
decimal_from acc (b ∷ bs) = decimal_from (acc * 10 + (b - b'0')) bs

abbrev pub decimal : Bytes → ℕ
decimal bs = decimal_from 0 bs

-- Year 0 is 1 BCE.
abbrev pub is_gregorian_leap_year : ℕ → Bool
is_gregorian_leap_year y = y % 400 == 0 || y % 4 == 0 && not (y % 100 == 0)

-- Before year 1, year -n is the astronomical year 1 - n, and as far from 0 as n - 1.
abbrev pub distance : ℕ → Bool → ℕ
distance n negative = if negative then n - 1 else n

-- A modulus that the program uses, by the one fact that the fold rests on.
abbrev Steps : ℕ → Type 0
Steps m = (a d : ℕ) → (a % m * 10 + d) % m ≡ (a * 10 + d) % m

digit_value-some : (b : ℕ) → IsDigit b → digit_value b ≡ some (b - b'0')
unfolding digit_value
digit_value-some b h = ground arith

year_modulo_from_lem :
    (m : ℕ)
    → Steps m
    → (acc : ℕ) (year : Bytes) → All IsDigit year
    → year_modulo_from m (acc % m) year ≡ some (decimal_from acc year % m)
unfolding year_modulo_from
year_modulo_from_lem m steps acc [] digits = refl
year_modulo_from_lem m steps acc (b ∷ bs) digits =
    rw (year_modulo_from, digit_value-some b digits.0, steps acc (b - b'0'))
      (year_modulo_from_lem m steps (acc * 10 + (b - b'0')) bs digits.1)

module _ (year : Bytes) (digits : All IsDigit year) where
  modulo_400 : year_modulo year 400 ≡ some (decimal year % 400)
  unfolding year_modulo
  modulo_400 = year_modulo_from_lem 400 (λ a d. omega arith) 0 year digits

  modulo_100 : year_modulo year 100 ≡ some (decimal year % 100)
  unfolding year_modulo
  modulo_100 = year_modulo_from_lem 100 (λ a d. omega arith) 0 year digits

  modulo_4 : year_modulo year 4 ≡ some (decimal year % 4)
  unfolding year_modulo
  modulo_4 = year_modulo_from_lem 4 (λ a d. omega arith) 0 year digits

  -- For a year of digits that is not zero, the program finds a leap year exactly where the Gregorian
  -- rule does, with no bound on the number of digits and on either side of the common era.
  pub is_leap_year_lem :
      (negative : Bool)
      → 0 < decimal year
      → is_leap_year year negative ≡ is_gregorian_leap_year (distance (decimal year) negative)
  unfolding is_leap_year signed_year_modulo
  is_leap_year_lem false positive = rw (modulo_400, modulo_100, modulo_4)
  is_leap_year_lem true positive = rw (
    modulo_400,
    modulo_100,
    modulo_4,
    at_400 (decimal year) positive,
    at_100 (decimal year) positive,
    at_4 (decimal year) positive,
  )
    where
      at_400 : (n : ℕ) → 0 < n → ((400 + 1 - n % 400) % 400 == 0) ≡ ((n - 1) % 400 == 0)
      at_400 n h = ground arith

      at_100 : (n : ℕ) → 0 < n → ((100 + 1 - n % 100) % 100 == 0) ≡ ((n - 1) % 100 == 0)
      at_100 n h = ground arith

      at_4 : (n : ℕ) → 0 < n → ((4 + 1 - n % 4) % 4 == 0) ≡ ((n - 1) % 4 == 0)
      at_4 n h = ground arith
