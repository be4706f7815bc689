-- ===== src/Validator.antt =====
-- src/validator.rs: time windows, the status of a response, and the bounds of `Conditions`.
pub mod Window
pub mod Status
pub mod Deadline
use risaml.Prelude.{
  ℕ, ◌*◌, String, Bool, true, false, ◌&&◌, Option, none, some, Result, ok, err, ◌>>=◌, ok_or, ℤ,
  pos, negsuc, scale, neg, le_int, lt_int, if◌then◌else◌,
}
use mathlib.Core.Option
use risaml.Errors.{SamlError, SamlResult, TimeWindowField}
use risaml.Libraries.Time.{TimeLibrary}

abbrev pub and_then {ℓ κ} : {A : Type ℓ} {B : Type κ} → Option A → (A → Option B) → Option B
and_then none f = none
and_then (some a) f = f a

-- `SystemTime` and `OffsetDateTime` are both nanoseconds since the epoch; `checked_sub` of a
-- duration is `checked_add` of its negation.
unfoldable pub offset_datetime_from_system_time : TimeLibrary → ℤ → SamlResult ℤ
offset_datetime_from_system_time t (pos n) =
    ok_or (and_then (t.from_std n) (λ elapsed. t.checked_add (pos 0) elapsed))
      (SamlError.invalid "validation instant is outside the supported SAML time range")
offset_datetime_from_system_time t (negsuc n) =
    ok_or
      (and_then (t.from_std (Prim.Native.Nat.suc n))
        (λ elapsed. t.checked_add (pos 0) (neg elapsed)))
      (SamlError.invalid "validation instant is outside the supported SAML time range")

-- `Duration::milliseconds`
abbrev pub milliseconds : ℤ → ℤ
milliseconds ms = scale 1_000_000 ms

abbrev is_some_and {ℓ} : {A : Type ℓ} → (A → Bool) → Option A → Bool
is_some_and p none = false
is_some_and p (some a) = p a

-- `t.checked_add(drift).is_some_and(|bound| bound <= now)`, and the same for the end.
not_before_holds : TimeLibrary → ℤ → ℤ → ℤ → Bool
not_before_holds t now drift bound =
    is_some_and (λ shifted. le_int shifted now) (t.checked_add bound (milliseconds drift))

not_on_or_after_holds : TimeLibrary → ℤ → ℤ → ℤ → Bool
not_on_or_after_holds t now drift bound =
    is_some_and (λ shifted. lt_int now shifted) (t.checked_add bound (milliseconds drift))

unfoldable pub verify_time_at : TimeLibrary → Option String → Option String → ℤ × ℤ → ℤ → Bool
unfolding not_before_holds not_on_or_after_holds
verify_time_at t none none drift now = true
verify_time_at t (some nb) none drift now =
    is_some_and (not_before_holds t now drift.0) (t.parse_rfc3339 nb)
verify_time_at t none (some na) drift now =
    is_some_and (not_on_or_after_holds t now drift.1) (t.parse_rfc3339 na)
verify_time_at t (some nb) (some na) drift now = elim (t.parse_rfc3339 nb) [
  | none ↦ false
  | some b ↦ elim (t.parse_rfc3339 na) [
    | none ↦ false
    | some a ↦ not_before_holds t now drift.0 b && not_on_or_after_holds t now drift.1 a
  ]
]
