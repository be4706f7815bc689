-- ===== src/Validator/Deadline.antt =====
-- src/validator.rs: the deadline of a logout request.
use risaml.Prelude.{String, Option, none, some, ok, ◌>>=◌, ◌>>◌, fail_if, ok_or, ℤ, le_int}
use risaml.Errors.{SamlError, SamlResult, TimeWindowField}
use risaml.Libraries.Time.{TimeLibrary}
use risaml.Util.Value.{Value, get_str}
use risaml.Validator.{milliseconds}
use risaml.Xml.DateTime.{parse_saml_utc_date_time}

abbrev logout_deadline : SamlError
logout_deadline = SamlError.time_window_invalid TimeWindowField.logout_request_not_on_or_after

unfoldable pub deadline_of : TimeLibrary → Option String → ℤ → ℤ → SamlResult (Option ℤ)
deadline_of t none now skew = ok none
deadline_of t (some value) now skew = do
  normalized ← ok_or (parse_saml_utc_date_time value) logout_deadline
  deadline ← ok_or (t.parse_rfc3339 normalized) logout_deadline
  effective_deadline ← ok_or (t.checked_add deadline (milliseconds skew)) logout_deadline
  fail_if (le_int effective_deadline now) logout_deadline
  ok (some effective_deadline)

unfoldable pub logout_request_not_on_or_after_deadline :
    TimeLibrary → Value → ℤ → ℤ → SamlResult (Option ℤ)
unfolding deadline_of
logout_request_not_on_or_after_deadline t extracted now skew =
    deadline_of t (get_str extracted "request.notOnOrAfter") now skew
