-- ===== src/Model/Identifiers.antt =====
-- src/model/identifiers.rs, src/model/endpoint.rs and `EntityId` of src/config/descriptors.rs:
-- texts that are checked when they are made.
use risaml.Prelude.{
  String, Bool, ◌&&◌, ◌||◌, ◌≡◌, arith, ok, err, ◌>>=◌, ◌>>◌, fail_if, map_err, ◌==◌, string_eq,
  if◌then◌else◌,
}
use risaml.Prelude.Text.{trim, is_empty}
use risaml.Errors.{SamlError, SamlResult}
use risaml.Libraries.Web.{UrlLibrary}

pub record MessageId : Type 0 where
  pub text : String

pub record AssertionId : Type 0 where
  pub text : String

pub record SamlInstant : Type 0 where
  pub text : String

pub record SessionIndex : Type 0 where
  pub text : String

pub record EntityId : Type 0 where
  pub text : String

pub record EndpointUrl : Type 0 where
  pub text : String

-- `value.trim().is_empty()`
unfoldable pub is_blank : String → Bool
unfolding trim
is_blank value = is_empty (trim value)

unfoldable pub message_id : String → SamlResult MessageId
message_id value = do
  fail_if (is_blank value) (SamlError.invalid "SAML message ID must not be empty")
  ok (record { text = value })

unfoldable pub assertion_id : String → SamlResult AssertionId
assertion_id value = do
  fail_if (is_blank value) (SamlError.invalid "assertion ID must not be empty")
  ok (record { text = value })

unfoldable pub saml_instant : String → SamlResult SamlInstant
saml_instant value = do
  fail_if (is_blank value) (SamlError.invalid "SAML instant must not be empty")
  ok (record { text = value })

unfoldable pub session_index : String → SamlResult SessionIndex
session_index value = do
  fail_if (is_blank value) (SamlError.invalid "SessionIndex must not be empty")
  ok (record { text = value })

unfoldable pub entity_id : String → SamlResult EntityId
entity_id value = do
  fail_if (is_blank value) (SamlError.invalid "entity ID must not be empty")
  ok (record { text = value })

unfoldable pub endpoint_url : UrlLibrary → String → SamlResult EndpointUrl
endpoint_url urls value = do
  parsed ← map_err SamlError.invalid (urls.parse value)
  if (parsed.scheme == "http" || parsed.scheme == "https") && parsed.has_host
      then ok (record { text = value })
      else err (SamlError.invalid "endpoint URL must be absolute HTTP(S)")

-- A value that was made is made again of its own text.
pub message_id-text :
    (value : String) (id : MessageId) → message_id value ≡ ok id → message_id id.text ≡ ok id
unfolding message_id
message_id-text value id h = ground arith

pub entity_id-text :
    (value : String) (id : EntityId) → entity_id value ≡ ok id → entity_id id.text ≡ ok id
unfolding entity_id
entity_id-text value id h = ground arith

pub endpoint_url-text :
    (urls : UrlLibrary) (value : String) (url : EndpointUrl)
    → endpoint_url urls value ≡ ok url
    → endpoint_url urls url.text ≡ ok url
unfolding endpoint_url
endpoint_url-text urls value url h = ground arith
