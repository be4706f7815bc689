-- ===== src/Model/Relay.antt =====
-- src/model/relay.rs: RelayState, absent, present and empty, or present with a value.
pub mod Laws
use risaml.Prelude.{
  ℕ, String, len, Bool, ◌&&◌, Option, none, some, ok, err, ◌>>=◌, ◌>>◌, fail_if, map_ok, ltb,
  if◌then◌else◌,
}
use risaml.Prelude.Text.{is_empty}
use risaml.Errors.{
  SamlError, SamlResult, RelayState, RelayStateParam, absent, present_empty, present_value,
}

abbrev pub max_relay_state_bytes : ℕ
max_relay_state_bytes = 80

validate_relay_state_bytes : String → SamlResult (Unit {0})
validate_relay_state_bytes value =
    fail_if (ltb max_relay_state_bytes (len value))
      (SamlError.invalid "RelayState exceeds SAML Bindings 80-byte limit")

unfoldable pub relay_state : String → SamlResult RelayState
unfolding validate_relay_state_bytes
relay_state value = do validate_relay_state_bytes value; ok (record { text = value })

unfoldable pub try_from_option : Option String → SamlResult RelayStateParam
unfolding relay_state
try_from_option none = ok absent
try_from_option (some value) =
    if is_empty value then ok present_empty else map_ok present_value (relay_state value)

abbrev pub as_deref : RelayStateParam → Option String
as_deref absent = none
as_deref present_empty = some ""
as_deref (present_value value) = some value.text

abbrev is_empty_value : RelayStateParam → Bool
is_empty_value (present_value value) = is_empty value.text
is_empty_value _ = Bool.false

unfoldable pub validate : RelayStateParam → SamlResult (Unit {0})
unfolding validate_relay_state_bytes
validate param = do
  fail_if (is_empty_value param) (SamlError.invalid "RelayState PresentValue must not be empty")
  elim (as_deref param) [ none ↦ ok tt | some value ↦ validate_relay_state_bytes value ]
