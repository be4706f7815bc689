-- ===== src/Flow/Context/Accepted.antt =====
-- What holds of the fields of a message that `validate_context` (src/flow.rs) lets pass.
use risaml.Prelude.{
  String, Bool, true, false, not, Option, none, some, ok, >>=-eq-ok, fail_if-ok, ok_or, ok_or-ok,
  ◌==◌, string_eq, option_eq, option_beq_iff, eq_iff, ◌≡◌, refl, List, inl, inr, Any, Bool-cases, ℤ,
  ◌+ℤ◌, ◌<ℤ◌, le_int, arith,
}
use risaml.Constants.{ParserType}
use risaml.Errors.{TimeWindowField}
use risaml.Libraries.Time.{IsLawful}
use risaml.Model.Session.{authn_statement_not_on_or_after_values, earliest_authn_session_expiration}
use risaml.Model.Session.Earliest.{IsFirst, earliest_authn_session_expiration-IsFirst}
use risaml.Util.Value.{Value, get_str}
use risaml.Validator.{milliseconds}
use risaml.Validator.Window.{StartsBy, EndsAfter, verify_time_at_lem}
use risaml.Validator.Status.{conditions_time_bounds}
use risaml.Flow.Audience.{audience_restrictions_contain}
use risaml.Flow.Audience.Sound.{IsFor, audience_restrictions_contain-AllAdmit}
use risaml.Flow.Confirmation.{subject_confirmation_xmls, validate_subject_confirmation}
use risaml.Flow.Confirmation.Sound.{Meets, IsConfirmed, validate_subject_confirmation-IsConfirmed}
use risaml.Flow.Context.{
  destination_is, hears, not_expired, session_expired, validate_issuer, validate_in_response_to,
  validate_response_destination, validate_audience, validate_sessions, validate_conditions,
  validate_saml_response, validate_context,
}
use risaml.Flow.Options.{Environment, FlowOptions, ClockReading, validation_now}

-- The response names this destination, or none where it is not authenticated.
abbrev pub IsDestined : Option String → Bool → Option String → Type 0
IsDestined none authenticated destination = Unit
IsDestined (some expected) authenticated none = authenticated ≡ false
IsDestined (some expected) authenticated (some destination) = destination ≡ expected

-- The audience is the expected one, if there is one.
abbrev pub IsAudience : Environment → FlowOptions → Option String → Option String → Type 0
IsAudience env opts assertion none = Unit
IsAudience env opts assertion (some expected) =
    IsFor env.unicode env.xml expected opts.xml_limits assertion

-- The session ends behind the present, with the drift, if it ends.
abbrev pub IsOpenUntil : Environment → FlowOptions → Option ℤ → Type 0
IsOpenUntil env opts none = Unit
IsOpenUntil env opts (some first) =
    (now : ℤ) × (validation_now env opts ClockReading.at_session ≡ ok now)
    × (now <ℤ first +ℤ milliseconds opts.clock_drifts.1)

-- A response that is for the caller, and is not over.
pub record IsAccepted (env : Environment) (opts : FlowOptions) (assertion : Option String)
    (extracted : Value) (recipient : Option String) (authenticated : Bool) : Type 0 where
  pub by_issuer : Meets opts.from_issuer (get_str extracted "issuer")
  pub in_response_to :
      Meets opts.expected_in_response_to (get_str extracted "response.inResponseTo")
  pub destined : IsDestined recipient authenticated (get_str extracted "response.destination")
  pub confirmed : Any (IsConfirmed env opts recipient) (subject_confirmation_xmls extracted)
  pub audience : IsAudience env opts assertion opts.expected_audience
  -- the bounds of the statements about the session, and the first of them
  pub bounds : List String
  pub are_bounds : authn_statement_not_on_or_after_values extracted ≡ ok bounds
  pub first : Option ℤ
  pub is_first : IsFirst env.time bounds first
  pub session_open : IsOpenUntil env opts first
  pub conditions : Option String × Option String
  pub are_conditions : conditions_time_bounds extracted ≡ ok conditions
  pub now : ℤ
  pub is_now : validation_now env opts ClockReading.at_conditions ≡ ok now
  pub starts_by : StartsBy env.time now opts.clock_drifts.0 conditions.0
  pub ends_after : EndsAfter env.time now opts.clock_drifts.1 conditions.1

same_text :
    (actual : Option String) (expected : String)
    → not (actual == some expected) ≡ false
    → actual ≡ some expected
same_text actual expected h = elim (Bool-cases (actual == some expected)) [
  | inl same ↦ (option_beq_iff string_eq actual (some expected)).0 same
  | inr other ↦ cc (rw other at h)
]

-- `is_issuer` and `answers` compare in the same way.
meets :
    (expected actual : Option String)
    → ((e : String) → expected ≡ some e → not (actual == some e) ≡ false)
    → Meets expected actual
meets none actual h = tt
meets (some e) actual h = same_text actual e (h e refl)

validate_issuer-Meets :
    (opts : FlowOptions) (extracted : Value)
    → validate_issuer opts extracted ≡ ok tt
    → Meets opts.from_issuer (get_str extracted "issuer")
unfolding validate_issuer
validate_issuer-Meets opts extracted h =
    meets opts.from_issuer (get_str extracted "issuer")
      (λ e expected. fail_if-ok _ _ tt (rw expected at h))

validate_in_response_to-Meets :
    (opts : FlowOptions) (extracted : Value)
    → validate_in_response_to opts extracted ≡ ok tt
    → Meets opts.expected_in_response_to (get_str extracted "response.inResponseTo")
unfolding validate_in_response_to
validate_in_response_to-Meets opts extracted h =
    meets opts.expected_in_response_to (get_str extracted "response.inResponseTo")
      (λ e expected. fail_if-ok _ _ tt (rw expected at h))

destination_is-IsDestined :
    (expected : String) (destination : Option String) (authenticated : Bool)
    → destination_is expected destination authenticated ≡ ok tt
    → IsDestined (some expected) authenticated destination
destination_is-IsDestined expected none true h = cc
destination_is-IsDestined expected none false h = refl
destination_is-IsDestined expected (some d) true h = (eq_iff d expected).0 (ground arith)
destination_is-IsDestined expected (some d) false h = (eq_iff d expected).0 (ground arith)

validate_response_destination-IsDestined :
    (extracted : Value) (recipient : Option String) (authenticated : Bool)
    → validate_response_destination extracted recipient authenticated ≡ ok tt
    → IsDestined recipient authenticated (get_str extracted "response.destination")
unfolding validate_response_destination
validate_response_destination-IsDestined extracted none authenticated h = tt
validate_response_destination-IsDestined extracted (some expected) authenticated h =
    destination_is-IsDestined expected (get_str extracted "response.destination") authenticated h

module _ (env : Environment) (opts : FlowOptions) where
  hears-IsAudience :
      (expected assertion : Option String)
      → hears env opts expected assertion ≡ ok tt
      → IsAudience env opts assertion expected
  hears-IsAudience none assertion h = tt
  hears-IsAudience (some expected) assertion h =
      let (contained, found, h1) =
        >>=-eq-ok
          (audience_restrictions_contain env.unicode env.xml expected opts.xml_limits assertion) _
          h in
      elim (Bool-cases contained) [
        | inl yes_ ↦
            audience_restrictions_contain-AllAdmit env.unicode env.xml expected opts.xml_limits
              assertion (rw (← yes_) found)
        | inr no_ ↦ cc (rw no_ at h1)
      ]

  not_expired-IsOpenUntil :
      IsLawful env.time
      → (first : Option ℤ) → not_expired env opts first ≡ ok tt
      → IsOpenUntil env opts first
  not_expired-IsOpenUntil lawful none h = tt
  not_expired-IsOpenUntil lawful (some first) h =
      let (end, shifted, h1) =
        >>=-eq-ok
          (ok_or (env.time.checked_add first (milliseconds opts.clock_drifts.1)) session_expired) _
          h in
      let (now, is_now, h2) = >>=-eq-ok (validation_now env opts ClockReading.at_session) _ h1 in
      let sum = lawful.checked_add_lem first _ end (ok_or-ok _ _ end shifted) in
      let before : le_int end now ≡ false = fail_if-ok _ _ tt h2 in
      (now, is_now, rw (← sum) (ground arith))

-- With a lawful clock, a response passes only if it is accepted, as far as the options name what
-- they expect, and the caller a recipient: it comes from the expected issuer and answers the
-- expected request; its destination is the recipient, and is not left out where the
-- response is authenticated; a bearer confirmation for the recipient and the request is in time; each
-- of its audience restrictions names the audience; the first end of a session is ahead; and the
-- present lies within the window of its conditions.
pub validate_context-IsAccepted :
    (env : Environment)
    → IsLawful env.time
    → (opts : FlowOptions) (assertion : Option String) (extracted : Value)
      (recipient : Option String) (authenticated : Bool)
    → validate_context env opts ParserType.saml_response assertion extracted recipient authenticated
      ≡ ok tt
    → IsAccepted env opts assertion extracted recipient authenticated
unfolding validate_context validate_saml_response validate_audience validate_sessions
    validate_conditions
validate_context-IsAccepted env lawful opts assertion extracted recipient authenticated h =
    let (_, issued, h1) = >>=-eq-ok (validate_issuer opts extracted) _ h in
    let (_, answered, h2) = >>=-eq-ok (validate_in_response_to opts extracted) _ h1 in
    let (_, destined, h3) =
      >>=-eq-ok (validate_response_destination extracted recipient authenticated) _ h2 in
    let (_, confirmed, h4) =
      >>=-eq-ok (validate_subject_confirmation env opts recipient extracted) _ h3 in
    let (_, heard, h5) = >>=-eq-ok (hears env opts opts.expected_audience assertion) _ h4 in
    let (_, in_session, h6) = >>=-eq-ok (validate_sessions env opts extracted) _ h5 in
    let (bounds, read, s1) =
      >>=-eq-ok (authn_statement_not_on_or_after_values extracted) _ in_session in
    let (first, earliest, s2) =
      >>=-eq-ok
        (earliest_authn_session_expiration env.time bounds TimeWindowField.session_not_on_or_after)
        _ s1 in
    let (conditions, bounded, h7) = >>=-eq-ok (conditions_time_bounds extracted) _ h6 in
    let (now, is_now, h8) = >>=-eq-ok (validation_now env opts ClockReading.at_conditions) _ h7 in
    let window =
      (verify_time_at_lem env.time lawful conditions.0 conditions.1 opts.clock_drifts now).0
        (ground (arith, fail_if-ok _ _ tt h8)) in
    record {
      by_issuer = validate_issuer-Meets opts extracted issued;
      in_response_to = validate_in_response_to-Meets opts extracted answered;
      destined =
          validate_response_destination-IsDestined extracted recipient authenticated destined;
      confirmed =
          validate_subject_confirmation-IsConfirmed env lawful opts recipient extracted confirmed;
      audience = hears-IsAudience env opts opts.expected_audience assertion heard;
      bounds = bounds;
      are_bounds = read;
      first = first;
      is_first =
          earliest_authn_session_expiration-IsFirst env.time TimeWindowField.session_not_on_or_after
            bounds first earliest;
      session_open = not_expired-IsOpenUntil env opts lawful first s2;
      conditions = conditions;
      are_conditions = bounded;
      now = now;
      is_now = is_now;
      starts_by = window.0;
      ends_after = window.1;
    }
