-- ===== src/Tests/Browser.antt =====
-- Pending requests, RelayState and time windows (src/browser/pending.rs, src/model/relay.rs,
-- src/validator.rs) at concrete values.
use risaml.Prelude.{
  neg, ℕ, suc, zero, String, Bool, true, false, Option, none, some, ◌≡◌, ◌≢◌, ◌↔◌, refl, Result, ok,
  of_ok, err, ◌==◌, string_eq, if◌then◌else◌, ℤ, pos, negsuc, ◌+ℤ◌, ◌<ℤ◌,
}
use risaml.Errors.{RelayStateParam}
use risaml.Libraries.Time.{TimeLibrary, IsLawful}
use risaml.Model.Identifiers.{SamlInstant}
use risaml.Model.Relay.{try_from_option, as_deref, validate}
use risaml.Model.Relay.Laws.{try_from_option-as_deref, as_deref-try_from_option}
use risaml.Browser.Bindings.{SsoRequestBinding, SsoResponseBinding, LogoutBinding}
use risaml.Browser.Pending.{
  PendingAuthnRequest, PendingLogoutRequest, authn_from_snapshot, authn_snapshot,
  logout_from_snapshot, logout_snapshot,
}
use risaml.Browser.Pending.Snapshots.{
  IsWellFormed, IsValidAuthn, authn_from_snapshot-authn_snapshot,
  logout_from_snapshot-logout_snapshot, authn_from_snapshot-IsValidAuthn,
}
use risaml.Browser.Pending.Deadline.{validate_at, with_local_lifetime}
use risaml.Browser.Pending.Lifetime.{validate_at-lt}
use risaml.Browser.Pending.Shortened.{IsIssued, IsReadBack, with_local_lifetime-validate_at}
use risaml.Validator.{verify_time_at}
use risaml.Validator.Window.{StartsBy, EndsAfter, verify_time_at_lem}
use risaml.Tests.Documents.{sample_urls}

abbrev relay : RelayStateParam
relay = RelayStateParam.present_value (record { text = "state" })

abbrev authn : PendingAuthnRequest
authn = record {
  id = record { text = "_r1" };
  relay_state = relay;
  details = record {
    request_binding = some SsoRequestBinding.redirect;
    response_binding = SsoResponseBinding.post;
    acs = record {
      binding = SsoResponseBinding.post;
      url = record { text = "https://sp/acs" };
      index = some 2;
      is_default = true;
    };
  };
  peer_entity_id = record { text = "https://idp" };
  issued_at = some (record { text = "2" });
  expires_at = some (record { text = "7" });
}

abbrev logout : PendingLogoutRequest
logout = record {
  id = record { text = "_r2" };
  relay_state = RelayStateParam.absent;
  details = record { binding = LogoutBinding.redirect };
  peer_entity_id = record { text = "https://idp" };
  issued_at = none;
  expires_at = none;
}

authn_common : IsWellFormed authn
unfolding validate risaml.Model.Identifiers.message_id risaml.Model.Identifiers.is_blank
    risaml.Model.Identifiers.entity_id
authn_common = record {
  relay_is_valid = refl;
  id_is_made = refl;
  peer_is_made = refl;
  timing = λ e. cc;
}

authn_is_valid : IsValidAuthn sample_urls authn
unfolding risaml.Model.Identifiers.endpoint_url
authn_is_valid = record { common = authn_common; url_is_made = refl; bindings_match = refl }

authn_from_snapshot-authn_snapshot_example :
    authn_from_snapshot sample_urls (authn_snapshot authn) ≡ ok authn
authn_from_snapshot-authn_snapshot_example =
    authn_from_snapshot-authn_snapshot sample_urls authn authn_is_valid

authn_from_snapshot-IsValidAuthn_example : IsValidAuthn sample_urls authn
authn_from_snapshot-IsValidAuthn_example =
    authn_from_snapshot-IsValidAuthn sample_urls (authn_snapshot authn) authn
      authn_from_snapshot-authn_snapshot_example

logout_is_valid : IsWellFormed logout
unfolding validate risaml.Model.Identifiers.message_id risaml.Model.Identifiers.is_blank
    risaml.Model.Identifiers.entity_id
logout_is_valid = record {
  relay_is_valid = refl;
  id_is_made = refl;
  peer_is_made = refl;
  timing = λ e. refl;
}

logout_from_snapshot-logout_snapshot_example :
    logout_from_snapshot (logout_snapshot logout) ≡ ok logout
logout_from_snapshot-logout_snapshot_example =
    logout_from_snapshot-logout_snapshot logout logout_is_valid

relay_read : try_from_option (some "state") ≡ ok relay
unfolding try_from_option
relay_read = refl

try_from_option-as_deref_example : (as_deref relay ≡ some "state") × (validate relay ≡ ok tt)
try_from_option-as_deref_example = try_from_option-as_deref (some "state") relay relay_read

relay_valid : validate relay ≡ ok tt
unfolding validate
relay_valid = refl

as_deref-try_from_option_example : try_from_option (as_deref relay) ≡ ok relay
as_deref-try_from_option_example = as_deref-try_from_option relay relay_valid

-- A clock without bounds, whose instants are written as one digit.
abbrev pub clock : TimeLibrary
clock = record {
  parse_rfc3339 =
      λ text. if text == "2" then some (pos 2) else if text == "7" then some (pos 7) else none;
  checked_add = λ a d. some (a +ℤ d);
  from_std = λ n. some (pos n);
  system_checked_add = λ a n. some (a +ℤ pos n);
  system_checked_sub = λ a n. some (a +ℤ neg (pos n));
  year = λ _. pos 1970;
  month = λ _. 1;
  day = λ _. 1;
  hour = λ _. 0;
  minute = λ _. 0;
  second = λ _. 0;
  nanosecond = λ _. 0;
}

pub clock-IsLawful : IsLawful clock
clock-IsLawful = record {
  checked_add_lem = λ a d u h. cc;
  from_std_lem = λ n d h. cc;
  system_checked_add_lem = λ a n u h. cc;
  system_checked_sub_lem = λ a n u h. cc;
}

verify_time_at_lem_example :
    (verify_time_at clock (some "2") (some "7") (pos 0, pos 0) (pos 3) ≡ true)
    ↔ (StartsBy clock (pos 3) (pos 0) (some "2") × EndsAfter clock (pos 3) (pos 0) (some "7"))
verify_time_at_lem_example =
    verify_time_at_lem clock clock-IsLawful (some "2") (some "7") (pos 0, pos 0) (pos 3)

in_time : validate_at clock authn (pos 3) ≡ ok tt
unfolding validate_at risaml.Validator.offset_datetime_from_system_time ◌+ℤ◌
in_time = refl

validate_at-lt_example :
    (deadline : ℤ) × (clock.parse_rfc3339 "7" ≡ some deadline) × (pos 3 <ℤ deadline)
validate_at-lt_example =
    validate_at-lt clock clock-IsLawful authn (pos 3) (record { text = "7" }) in_time refl

-- A clock that counts seconds, and a request whose deadline is the ninth.
abbrev seconds : ℤ → ℕ
seconds (pos n) = n
seconds (negsuc n) = 0

abbrev second_clock : TimeLibrary
second_clock = record clock {
  parse_rfc3339 = λ text.
      if text == "1970-01-01T00:00:08.000000000Z"
      then some (pos 8)
      else if text == "9"
      then some (pos 9)
      else none;
  second = seconds;
}

second_clock-IsLawful : IsLawful second_clock
second_clock-IsLawful = record {
  checked_add_lem = λ a d u h. cc;
  from_std_lem = λ n d h. cc;
  system_checked_add_lem = λ a n u h. cc;
  system_checked_sub_lem = λ a n u h. cc;
}

abbrev open_ended : PendingLogoutRequest
open_ended = record logout { issued_at = none; expires_at = some (record { text = "9" }) }

abbrev stored : PendingLogoutRequest
stored = record logout {
  issued_at = some (record { text = "1970-01-01T00:00:03.000000000Z" });
  expires_at = some (record { text = "1970-01-01T00:00:08.000000000Z" });
}

limited : with_local_lifetime second_clock open_ended (pos 3) 5 ≡ ok stored
unfolding with_local_lifetime risaml.Validator.offset_datetime_from_system_time ◌+ℤ◌
    risaml.Browser.Pending.Deadline.record_issue risaml.Browser.Pending.Deadline.serialize
    risaml.Model.Identifiers.saml_instant risaml.Model.Identifiers.is_blank
    risaml.Prelude.Text.concat risaml.Browser.Pending.Deadline.format_saml_utc_date_time
    risaml.Browser.Pending.Deadline.padded_year risaml.Browser.Pending.Deadline.padded
    risaml.Browser.Pending.Deadline.zeros risaml.Prelude.Text.show
    risaml.Browser.Pending.Deadline.completion_deadline
limited = refl

read_back : IsReadBack second_clock (pos 3 +ℤ pos 5)
unfolding ◌+ℤ◌ risaml.Browser.Pending.Deadline.serialize risaml.Model.Identifiers.saml_instant
    risaml.Model.Identifiers.is_blank risaml.Prelude.Text.concat
    risaml.Browser.Pending.Deadline.format_saml_utc_date_time
    risaml.Browser.Pending.Deadline.padded_year risaml.Browser.Pending.Deadline.padded
    risaml.Browser.Pending.Deadline.zeros risaml.Prelude.Text.show
read_back text h =
    of_ok (λ (i : SamlInstant). second_clock.parse_rfc3339 i.text ≡ some (pos 8)) h refl

with_local_lifetime-validate_at_example :
    (◌≢◌ {A = ℕ} 5 0)
    × IsIssued second_clock (pos 3) none stored.issued_at
    × ((validate_at second_clock stored (pos 7) ≡ ok tt)
        ↔ ((validate_at second_clock open_ended (pos 7) ≡ ok tt) × (pos 7 <ℤ pos 3 +ℤ pos 5)))
with_local_lifetime-validate_at_example =
    with_local_lifetime-validate_at second_clock second_clock-IsLawful open_ended stored (pos 3) 5
      (pos 7) read_back limited
