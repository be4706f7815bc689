-- ===== src/Browser/Pending/Deadline.antt =====
-- The deadline of a pending request, in src/browser/pending.rs, and `format_saml_utc_date_time` of
-- src/entity.rs.
use risaml.Prelude.{
  ℕ, zero, suc, ◌-◌, String, len, Bool, Option, none, some, ok, ◌>>=◌, ◌>>◌, fail_if, ok_or,
  map_err, map_ok, transpose, ◌==◌, nat_eq, if◌then◌else◌, [], ◌∷◌, ℤ, pos, negsuc, le_int, lt_int,
}
use risaml.Prelude.Text.{concat, show, trim_end}
use risaml.Errors.{SamlResult}
use risaml.Libraries.Time.{TimeLibrary}
use risaml.Model.Identifiers.{SamlInstant, saml_instant}
use risaml.Validator.{offset_datetime_from_system_time}
use risaml.Browser.Pending.{Pending, pending_expired}

unfoldable pub zeros : ℕ → String
zeros zero = ""
zeros (suc n) = concat ("0" ∷ zeros n ∷ [])

-- `{:0w$}`; the sign of a negative number counts in the width.
unfoldable pub padded : ℕ → ℕ → String
padded width n = let digits = show n in concat (zeros (width - len digits) ∷ digits ∷ [])

unfoldable pub padded_year : ℤ → String
padded_year (pos n) = padded 4 n
padded_year (negsuc n) = concat ("-" ∷ padded 3 (suc n) ∷ [])

unfoldable pub format_saml_utc_date_time : TimeLibrary → ℤ → String
format_saml_utc_date_time t i = concat (
    padded_year (t.year i)
    ∷ "-"
    ∷ padded 2 (t.month i)
    ∷ "-"
    ∷ padded 2 (t.day i)
    ∷ "T"
    ∷ padded 2 (t.hour i)
    ∷ ":"
    ∷ padded 2 (t.minute i)
    ∷ ":"
    ∷ padded 2 (t.second i)
    ∷ "Z"
    ∷ [])

-- The instant with its nanoseconds, as a pending request keeps it.
unfoldable pub serialize : TimeLibrary → ℤ → SamlResult SamlInstant
serialize t i = saml_instant (
    concat (
      trim_end (λ c. c == b'Z') (format_saml_utc_date_time t i)
      ∷ "."
      ∷ padded 9 (t.nanosecond i)
      ∷ "Z"
      ∷ []))

abbrev pub is_later : ℤ → Option ℤ → Bool
is_later bound none = Bool.true
is_later bound (some deadline) = lt_int bound deadline

module _ {D : Type 0} (t : TimeLibrary) where
  unfoldable pub completion_deadline : Pending D → SamlResult (Option ℤ)
  completion_deadline p =
      transpose (λ (i : SamlInstant). ok_or (t.parse_rfc3339 i.text) pending_expired) p.expires_at

  -- `validate_at`: the second instant is a `SystemTime`.
  unfoldable pub validate_at : Pending D → ℤ → SamlResult (Unit {0})
  validate_at p now = do
    instant ← offset_datetime_from_system_time t now
    elim p.expires_at [
      | none ↦ ok tt
      | some text ↦ do
        deadline ← ok_or (t.parse_rfc3339 (text.text)) pending_expired
        fail_if (le_int deadline instant) pending_expired
    ]

  unfoldable pub record_issue : ℤ → Pending D → SamlResult (Pending D)
  record_issue now p = elim p.issued_at [
    | some _ ↦ ok p
    | none ↦ map_ok (λ i. record p { issued_at = some i }) (serialize t now)
  ]

  -- `with_local_lifetime`, the lifetime in nanoseconds.
  unfoldable pub with_local_lifetime : Pending D → ℤ → ℕ → SamlResult (Pending D)
  with_local_lifetime p now lifetime = do
    fail_if (lifetime == 0) pending_expired
    end ← ok_or (t.system_checked_add now lifetime) pending_expired
    instant ← map_err (λ _. pending_expired) (offset_datetime_from_system_time t now)
    expires ← map_err (λ _. pending_expired) (offset_datetime_from_system_time t end)
    issued ← record_issue instant p
    existing ← completion_deadline issued
    if is_later expires existing
        then map_ok (λ i. record issued { expires_at = some i }) (serialize t expires)
        else ok issued
