-- ===== src/Model/Session/Earliest.antt =====
-- The expiration that src/model/session.rs finds for the statements of an assertion.
use risaml.Prelude.{
  String, Option, none, some, List, [], ◌∷◌, ok, >>=-eq-ok, ok_or-ok, ok_or, of_ok, ◌≡◌, refl, ◌⊎◌,
  inl, inr, All, Any, Bool-cases, arith, ℤ, ◌≤ℤ◌, lt_int,
}
use risaml.Errors.{SamlError, TimeWindowField}
use risaml.Libraries.Time.{TimeLibrary}
use risaml.Model.Session.{earlier, earliest_from, earliest_authn_session_expiration}

-- The value is an instant, and no earlier than this one; or it is this one.
abbrev pub NoEarlier : TimeLibrary → ℤ → String → Type 0
NoEarlier t first value = (at : ℤ) × (t.parse_rfc3339 value ≡ some at) × (first ≤ℤ at)

-- No value, or the first of the instants that the values name.
abbrev pub IsFirst : TimeLibrary → List String → Option ℤ → Type 0
IsFirst t values none = values ≡ []
IsFirst t values (some first) =
    All (NoEarlier t first) values × Any (λ v. t.parse_rfc3339 v ≡ some first) values

-- One turn of the loop keeps the lesser of two instants.
pub lesser :
    (c d : ℤ) → (m : ℤ) × (earlier (some c) d ≡ some m) × (m ≤ℤ c) × (m ≤ℤ d) × ((m ≡ c) ⊎ (m ≡ d))
lesser c d = elim (Bool-cases (lt_int d c)) [
  | inl before ↦ (d, rw before, ground arith, omega arith, inr refl)
  | inr after ↦ (c, rw after, omega arith, ground arith, inl refl)
]

module _ (t : TimeLibrary) (error_field : TimeWindowField) where
  earliest_from_lem :
      (values : List String) (c : ℤ) (out : Option ℤ)
      → earliest_from t error_field (some c) values ≡ ok out
      → (u : ℤ) × (out ≡ some u)
        × (u ≤ℤ c)
        × All (NoEarlier t u) values
        × ((u ≡ c) ⊎ Any (λ v. t.parse_rfc3339 v ≡ some u) values)
  unfolding earliest_from
  earliest_from_lem [] c out h = (c, of_ok (λ o. o ≡ some c) h refl, omega arith, tt, inl refl)
  earliest_from_lem (value ∷ values) c out h =
      let (d, parsed, rest) =
        >>=-eq-ok (ok_or (t.parse_rfc3339 value) (SamlError.time_window_invalid error_field)) _ h in
      let at = ok_or-ok _ _ d parsed in
      let (m, kept, le_c, le_d, chosen) = lesser c d in
      let (u, is_out, le_m, all, from) = earliest_from_lem values m out (rw kept at rest) in
      (
        u,
        is_out,
        omega arith,
        ((d, at, omega arith), all),
        elim from [
          | inr later ↦ inr (Any.there later)
          | inl same ↦ elim chosen [
            | inl first ↦ inl (rw same first)
            | inr second ↦ inr (Any.here (rw (same, second) at))
          ]
        ],
      )

  -- The expiration that is found is the earliest instant that any statement names, and there is none
  -- exactly where no statement names one.
  pub earliest_authn_session_expiration-IsFirst :
      (values : List String) (out : Option ℤ)
      → earliest_authn_session_expiration t values error_field ≡ ok out
      → IsFirst t values out
  unfolding earliest_authn_session_expiration earliest_from
  earliest_authn_session_expiration-IsFirst [] out h = of_ok (IsFirst t []) h (refl)
  earliest_authn_session_expiration-IsFirst (value ∷ values) out h =
      let (d, parsed, rest) =
        >>=-eq-ok (ok_or (t.parse_rfc3339 value) (SamlError.time_window_invalid error_field)) _ h in
      let at = ok_or-ok _ _ d parsed in
      let (u, is_out, le_d, all, from) = earliest_from_lem values d out rest in
      rw is_out (
        ((d, at, le_d), all),
        elim from [ inl same ↦ Any.here {x = value} (rw same at) | inr later ↦ Any.there later ],
      )
