-- ===== src/Model/Replay.antt =====
-- src/model/validation.rs: the replay keys and the caller's context of validation.
pub mod Stored
use risaml.Prelude.{
  ℕ, String, Bool, true, false, Option, none, some, List, [], ◌∷◌, Result, ok, err, ◌>>=◌, ◌>>◌,
  fail_if, ok_or, ◌==◌, nat_eq, if◌then◌else◌, ℤ, pos, negsuc, suc,
}
use risaml.Prelude.Text.{concat}
use risaml.Errors.{SamlError, SamlResult, TimeWindowField}
use risaml.Libraries.Time.{TimeLibrary}
use risaml.Model.Identifiers.{MessageId, AssertionId}

pub data ReplayKey : Type 0 where
  completed_authn_request_id completed_logout_request_id : MessageId → ReplayKey
  authn_request_id logout_request_id logout_response_id : MessageId → ReplayKey
  response_id : MessageId → ReplayKey
  assertion_id : AssertionId → ReplayKey

abbrev pub kind : ReplayKey → String
kind (ReplayKey.completed_authn_request_id _) = "completed_authn_request_id"
kind (ReplayKey.completed_logout_request_id _) = "completed_logout_request_id"
kind (ReplayKey.authn_request_id _) = "authn_request_id"
kind (ReplayKey.logout_request_id _) = "logout_request_id"
kind (ReplayKey.logout_response_id _) = "logout_response_id"
kind (ReplayKey.response_id _) = "response_id"
kind (ReplayKey.assertion_id _) = "assertion_id"

abbrev pub value : ReplayKey → String
value (ReplayKey.completed_authn_request_id m) = m.text
value (ReplayKey.completed_logout_request_id m) = m.text
value (ReplayKey.authn_request_id m) = m.text
value (ReplayKey.logout_request_id m) = m.text
value (ReplayKey.logout_response_id m) = m.text
value (ReplayKey.response_id m) = m.text
value (ReplayKey.assertion_id a) = a.text

unfoldable pub cache_key : ReplayKey → String
cache_key key = concat (kind key ∷ ":" ∷ value key ∷ [])

-- The caller's `ReplayCache`: `check_and_store` of a key and an expiry, on the state of the storage.
pub record ReplayCache (Storage : Type 0) : Type 0 where
  pub check_and_store : Storage → ReplayKey → ℤ → Storage × SamlResult (Unit {0})

pub data ReplayPolicy (Storage : Type 0) : Type 0 where
  disabled_for_compatibility : ReplayPolicy Storage
  require_cache : ReplayCache Storage → ReplayPolicy Storage

-- `SamlValidationContext`, without the clock skew; the retention counts nanoseconds.
pub record ValidationContext (Storage : Type 0) : Type 0 where
  pub now : ℤ
  pub replay : ReplayPolicy Storage
  pub replay_retention : Option ℕ

abbrev pub replay_expiration : SamlError
replay_expiration = SamlError.time_window_invalid TimeWindowField.replay_expiration

abbrev pub is_none {ℓ} : {A : Type ℓ} → Option A → Bool
is_none none = true
is_none (some _) = false

abbrev pub requires_cache : {S : Type 0} → ReplayPolicy S → Bool
requires_cache ReplayPolicy.disabled_for_compatibility = false
requires_cache (ReplayPolicy.require_cache _) = true

-- The instant of an `OffsetDateTime` as a `SystemTime`.
unfoldable pub system_time_from_offset_datetime : TimeLibrary → ℤ → SamlResult ℤ
system_time_from_offset_datetime t (pos n) =
    ok_or (t.system_checked_add (pos 0) n) replay_expiration
system_time_from_offset_datetime t (negsuc n) =
    ok_or (t.system_checked_sub (pos 0) (suc n)) replay_expiration

module _ {S : Type 0} (t : TimeLibrary) where
  unfoldable pub require_pending_expiration : ValidationContext S → Option ℤ → SamlResult (Unit {0})
  require_pending_expiration c deadline =
      if requires_cache c.replay
      then fail_if (is_none deadline)
          (SamlError.time_window_invalid TimeWindowField.pending_request_expiration)
      else ok tt

  unfoldable pub message_replay_expires_at : ValidationContext S → SamlResult ℤ
  message_replay_expires_at c = do
    retention ← ok_or c.replay_retention replay_expiration
    fail_if (retention == 0) replay_expiration
    ok_or (t.system_checked_add c.now retention) replay_expiration

  -- The expiry that is stored with a key: the deadline, if there is one, or the retention.
  unfoldable pub replay_expires_at : ValidationContext S → Option ℤ → SamlResult ℤ
  replay_expires_at c none = message_replay_expires_at c
  replay_expires_at c (some deadline) = system_time_from_offset_datetime t deadline

  -- The storage behind the call, and the verdict.
  unfoldable pub check_and_store_message_replay_until :
      ValidationContext S → S → ReplayKey → Option ℤ → S × SamlResult (Unit {0})
  check_and_store_message_replay_until c storage key deadline = elim c.replay [
    | ReplayPolicy.disabled_for_compatibility ↦ (storage, ok tt)
    | ReplayPolicy.require_cache cache ↦ elim (replay_expires_at c deadline) [
      | err e ↦ (storage, err e)
      | ok expires ↦ cache.check_and_store storage key expires
    ]
  ]

  unfoldable pub check_and_store_message_replay :
      ValidationContext S → S → ReplayKey → S × SamlResult (Unit {0})
  check_and_store_message_replay c storage key =
      check_and_store_message_replay_until c storage key none
