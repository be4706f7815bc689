-- ===== src/Flow/Context.antt =====
-- src/flow.rs: the checks of the extracted fields against what the caller expects.
pub mod Accepted
use risaml.Prelude.{
  String, Bool, true, false, ◌&&◌, not, Option, none, some, ok, err, ◌>>=◌, ◌>>◌, fail_if, ok_or,
  ◌==◌, string_eq, option_eq, if◌then◌else◌, ℤ, le_int,
}
use risaml.Constants.{ParserType}
use risaml.Errors.{SamlError, SamlResult, TimeWindowField}
use risaml.Libraries.Time.{TimeLibrary}
use risaml.Model.Session.{authn_statement_not_on_or_after_values, earliest_authn_session_expiration}
use risaml.Util.Value.{Value, get_str}
use risaml.Validator.{verify_time_at, milliseconds}
use risaml.Validator.Deadline.{logout_request_not_on_or_after_deadline}
use risaml.Validator.Status.{conditions_time_bounds}
use risaml.Flow.Audience.{audience_restrictions_contain}
use risaml.Flow.Confirmation.{validate_subject_confirmation}
use risaml.Flow.Options.{Environment, FlowOptions, ClockReading, validation_now}

abbrev pub is_absent : Option String → Bool
is_absent none = true
is_absent (some _) = false

-- A destination that is given and is not this one.
abbrev pub is_other : String → Option String → Bool
is_other expected none = false
is_other expected (some destination) = not (destination == expected)

abbrev pub destination_is : String → Option String → Bool → SamlResult (Unit {0})
destination_is expected destination response_authenticated = do
  fail_if (response_authenticated && is_absent destination)
      (SamlError.destination_mismatch expected none)
  fail_if (is_other expected destination) (SamlError.destination_mismatch expected destination)

unfoldable pub validate_response_destination : Value → Option String → Bool → SamlResult (Unit {0})
validate_response_destination extracted none response_authenticated = ok tt
validate_response_destination extracted (some expected) response_authenticated =
    destination_is expected (get_str extracted "response.destination") response_authenticated

abbrev pub is_issuer : Option String → Option String → SamlResult (Unit {0})
is_issuer none actual = ok tt
is_issuer (some expected) actual =
    fail_if (not (actual == some expected)) (SamlError.issuer_mismatch expected actual)

-- `should_validate_issuer` holds of every kind of message.
unfoldable pub validate_issuer : FlowOptions → Value → SamlResult (Unit {0})
validate_issuer opts extracted = is_issuer opts.from_issuer (get_str extracted "issuer")

abbrev pub answers : Option String → Option String → SamlResult (Unit {0})
answers none actual = ok tt
answers (some expected) actual =
    fail_if (not (actual == some expected))
      (SamlError.in_response_to_mismatch (some expected) actual)

unfoldable pub validate_in_response_to : FlowOptions → Value → SamlResult (Unit {0})
validate_in_response_to opts extracted =
    answers opts.expected_in_response_to (get_str extracted "response.inResponseTo")

abbrev pub session_expired : SamlError
session_expired = SamlError.time_window_invalid TimeWindowField.session_not_on_or_after

module _ (env : Environment) (opts : FlowOptions) where
  abbrev pub hears : Option String → Option String → SamlResult (Unit {0})
  hears none assertion = ok tt
  hears (some expected) assertion = do
    contained ← audience_restrictions_contain env.unicode env.xml expected opts.xml_limits assertion
    fail_if (not contained) (SamlError.audience_mismatch expected)

  unfoldable pub validate_audience : Option String → SamlResult (Unit {0})
  validate_audience assertion = hears opts.expected_audience assertion

  abbrev pub not_expired : Option ℤ → SamlResult (Unit {0})
  not_expired none = ok tt
  not_expired (some raw_expiration) = do
    expiration ←
        ok_or (env.time.checked_add raw_expiration (milliseconds opts.clock_drifts.1))
          session_expired
    now ← validation_now env opts ClockReading.at_session
    fail_if (le_int expiration now) session_expired

  unfoldable pub validate_sessions : Value → SamlResult (Unit {0})
  validate_sessions extracted = do
    session_bounds ← authn_statement_not_on_or_after_values extracted
    earliest ←
        earliest_authn_session_expiration env.time session_bounds
          TimeWindowField.session_not_on_or_after
    not_expired earliest

  unfoldable pub validate_conditions : Value → SamlResult (Unit {0})
  validate_conditions extracted = do
    bounds ← conditions_time_bounds extracted
    now ← validation_now env opts ClockReading.at_conditions
    fail_if (not (verify_time_at env.time bounds.0 bounds.1 opts.clock_drifts now))
        (SamlError.time_window_invalid TimeWindowField.conditions)

  unfoldable pub validate_saml_response :
      Option String → Value → Option String → Bool → SamlResult (Unit {0})
  validate_saml_response assertion extracted expected_recipient response_authenticated = do
    validate_response_destination extracted expected_recipient response_authenticated
    validate_subject_confirmation env opts expected_recipient extracted
    validate_audience assertion
    validate_sessions extracted
    validate_conditions extracted

  unfoldable pub validate_logout_request : Value → SamlResult (Unit {0})
  validate_logout_request extracted = do
    now ← validation_now env opts ClockReading.at_logout
    deadline ← logout_request_not_on_or_after_deadline env.time extracted now opts.clock_drifts.1
    ok tt

  unfoldable pub validate_context :
      ParserType → Option String → Value → Option String → Bool → SamlResult (Unit {0})
  validate_context ParserType.saml_request assertion extracted recipient authenticated =
      validate_issuer opts extracted
  validate_context ParserType.saml_response assertion extracted recipient authenticated = do
    validate_issuer opts extracted
    validate_in_response_to opts extracted
    validate_saml_response assertion extracted recipient authenticated
  validate_context ParserType.logout_request assertion extracted recipient authenticated = do
    validate_issuer opts extracted
    validate_logout_request extracted
  validate_context ParserType.logout_response assertion extracted recipient authenticated = do
    validate_issuer opts extracted
    validate_in_response_to opts extracted
