-- ===== src/Libraries/Time.antt =====
-- The `time` crate and the platform's clock. An `OffsetDateTime` is its Unix timestamp in
-- nanoseconds, by which the crate orders it; so is a `SystemTime`. A signed duration counts
-- nanoseconds too, and a `std::time::Duration` is a natural number of them.
use risaml.Prelude.{ℕ, String, Option, some, ℤ, pos, neg, ◌+ℤ◌, ◌≡◌}

pub record TimeLibrary : Type 0 where
  -- `OffsetDateTime::parse(_, &Rfc3339)`
  pub parse_rfc3339 : String → Option ℤ
  -- `OffsetDateTime::checked_add`
  pub checked_add : ℤ → ℤ → Option ℤ
  -- `time::Duration::try_from(std::time::Duration)`
  pub from_std : ℕ → Option ℤ
  -- `SystemTime::checked_add`
  pub system_checked_add : ℤ → ℕ → Option ℤ
  -- `SystemTime::checked_sub`
  pub system_checked_sub : ℤ → ℕ → Option ℤ
  -- the calendar fields of an instant, in UTC
  pub year : ℤ → ℤ
  pub month : ℤ → ℕ
  pub day : ℤ → ℕ
  pub hour : ℤ → ℕ
  pub minute : ℤ → ℕ
  pub second : ℤ → ℕ
  pub nanosecond : ℤ → ℕ

-- What the crate documents of its arithmetic: a sum that is in range is the sum.
pub record IsLawful (t : TimeLibrary) : Type 0 where
  pub checked_add_lem : (a d u : ℤ) → t.checked_add a d ≡ some u → u ≡ a +ℤ d
  pub from_std_lem : (n : ℕ) (d : ℤ) → t.from_std n ≡ some d → d ≡ pos n
  pub system_checked_add_lem :
      (a : ℤ) (n : ℕ) (u : ℤ) → t.system_checked_add a n ≡ some u → u ≡ a +ℤ pos n
  pub system_checked_sub_lem :
      (a : ℤ) (n : ℕ) (u : ℤ) → t.system_checked_sub a n ≡ some u → u ≡ a +ℤ neg (pos n)
