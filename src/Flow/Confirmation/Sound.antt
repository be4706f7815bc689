-- ===== src/Flow/Confirmation/Sound.antt =====
-- When `validate_subject_confirmation` (src/flow.rs) lets a subject pass.
use risaml.Prelude.{
  ℕ, suc, String, false, Option, none, some, List, [], ◌∷◌, ok, >>=-eq-ok, of_ok, ◌==◌, string_eq,
  option_eq, option_beq_iff, ◌≡◌, refl, inl, inr, Any, Bool-cases, Option-cases, Result-cases, ℤ,
}
use risaml.Errors.{SubjectConfirmationReason}
use risaml.Libraries.Time.{IsLawful}
use risaml.Util.Value.{Value, get_str}
use risaml.Validator.{verify_time_at}
use risaml.Validator.Window.{EndsAfter, verify_time_at_lem}
use risaml.Xml.Extract.{extract_with_limits}
use risaml.Flow.Options.{Environment, FlowOptions, ClockReading, validation_now}
use risaml.Flow.Confirmation.{
  bearer, subject_confirmation_xmls, valid, invalid, confirmation_fields, differs, check_data,
  check_bearer_subject_confirmation, try_confirmations, validate_subject_confirmation,
}

-- An expectation is met, if there is one.
abbrev pub Meets : Option String → Option String → Type 0
Meets none actual = Unit
Meets (some expected) actual = actual ≡ some expected

pub differs-Meets :
    (expected actual : Option String) → differs expected actual ≡ false → Meets expected actual
differs-Meets none actual h = tt
differs-Meets (some e) actual h = elim (Bool-cases (actual == some e)) [
  | inl same ↦ (option_beq_iff string_eq actual (some e)).0 same
  | inr other ↦ cc (rw other at h)
]

-- A bearer confirmation that is for this recipient and this request, and has not expired.
pub record IsConfirmed (env : Environment) (opts : FlowOptions) (recipient : Option String)
    (xml : String) : Type 0 where
  pub extracted : Value
  pub is_extracted :
      extract_with_limits env.unicode env.xml opts.xml_limits xml confirmation_fields ≡ ok extracted
  pub is_bearer : get_str extracted "subjectConfirmation" ≡ some bearer
  pub position : ℕ
  pub now : ℤ
  pub is_now : validation_now env opts (ClockReading.at_confirmation position) ≡ ok now
  pub bound : String
  pub is_bound : get_str extracted "subjectConfirmationData.notOnOrAfter" ≡ some bound
  pub ends_after : EndsAfter env.time now opts.clock_drifts.1 (some bound)
  pub for_recipient : Meets recipient (get_str extracted "subjectConfirmationData.recipient")
  pub for_request :
      Meets opts.expected_in_response_to (get_str extracted "subjectConfirmationData.inResponseTo")

module _ (env : Environment) (lawful : IsLawful env.time) (opts : FlowOptions)
    (recipient : Option String) where
  check_data-valid :
      (extracted : Value)
      → check_data env opts recipient extracted ≡ valid
      → Meets recipient (get_str extracted "subjectConfirmationData.recipient")
        × Meets opts.expected_in_response_to
            (get_str extracted "subjectConfirmationData.inResponseTo")
  unfolding check_data
  check_data-valid extracted h =
      elim (Bool-cases
        (differs recipient (get_str extracted "subjectConfirmationData.recipient"))) [
          | inl wrong ↦ cc (rw wrong at h)
          | inr right ↦
              elim (Bool-cases (
                differs opts.expected_in_response_to
                  (get_str extracted "subjectConfirmationData.inResponseTo"))) [
                    | inl wrong ↦ cc (rw (right, wrong) at h)
                    | inr answers ↦ (differs-Meets _ _ right, differs-Meets _ _ answers)
                  ]
        ]

  check_bearer-IsConfirmed :
      (position : ℕ) (xml : String)
      → check_bearer_subject_confirmation env opts recipient position xml ≡ ok valid
      → IsConfirmed env opts recipient xml
  unfolding check_bearer_subject_confirmation
  check_bearer-IsConfirmed position xml h =
      let (extracted, read, h1) =
        >>=-eq-ok (extract_with_limits env.unicode env.xml opts.xml_limits xml confirmation_fields)
          _ h in
      elim (Bool-cases (get_str extracted "subjectConfirmation" == some bearer)) [
        | inr other ↦ cc (rw other at h1)
        | inl is_bearer ↦
            elim (Option-cases (get_str extracted "subjectConfirmationData.notOnOrAfter")) [
              | inl unbounded ↦ cc (rw (is_bearer, unbounded) at h1)
              | inr (bound, bounded) ↦
                  let (now, is_now, h2) =
                    >>=-eq-ok (validation_now env opts (ClockReading.at_confirmation position)) _
                      (rw (is_bearer, bounded) at h1) in
                  elim (Bool-cases
                    (verify_time_at env.time none (some bound) opts.clock_drifts now)) [
                      | inr over ↦ cc (rw over at h2)
                      | inl open_window ↦
                          let checked : check_data env opts recipient extracted ≡ valid =
                            of_ok (λ c. check_data env opts recipient extracted ≡ c)
                              (rw open_window at h2) refl in
                          let (for_recipient, for_request) = check_data-valid extracted checked in
                          record {
                            extracted = extracted;
                            is_extracted = read;
                            is_bearer = (option_beq_iff string_eq _ (some bearer)).0 is_bearer;
                            position = position;
                            now = now;
                            is_now = is_now;
                            bound = bound;
                            is_bound = bounded;
                            ends_after =
                                ((verify_time_at_lem env.time lawful none (some bound)
                                    opts.clock_drifts now).0
                                  open_window).1;
                            for_recipient = for_recipient;
                            for_request = for_request;
                          }
                    ]
            ]
      ]

  try_confirmations-IsConfirmed :
      (xmls : List String) (position : ℕ) (reason : Option SubjectConfirmationReason)
      → try_confirmations env opts recipient position reason xmls ≡ ok tt
      → Any (IsConfirmed env opts recipient) xmls
  unfolding try_confirmations
  try_confirmations-IsConfirmed [] position reason h = cc
  try_confirmations-IsConfirmed (xml ∷ xmls) position reason h =
      elim (Result-cases (check_bearer_subject_confirmation env opts recipient position xml)) [
        | inl (valid, checked) ↦ Any.here (check_bearer-IsConfirmed position xml checked)
        | inl (invalid r, checked) ↦ Any.there (
            try_confirmations-IsConfirmed xmls (suc position) (some r)
              (rw (try_confirmations, checked) at h))
        | inr (e, failed) ↦ cc (rw (try_confirmations, failed) at h)
      ]

  -- A subject is confirmed only by one of its confirmations: a bearer confirmation that is read, that
  -- names the expected recipient and request, and whose end lies behind the present, with the drift.
  pub validate_subject_confirmation-IsConfirmed :
      (extracted : Value)
      → validate_subject_confirmation env opts recipient extracted ≡ ok tt
      → Any (IsConfirmed env opts recipient) (subject_confirmation_xmls extracted)
  unfolding validate_subject_confirmation
  validate_subject_confirmation-IsConfirmed extracted h =
      try_confirmations-IsConfirmed (subject_confirmation_xmls extracted) 0 none h
