-- ===== src/Browser/Pending.antt =====
-- src/browser/pending.rs: the correlation state of a request that was sent, its snapshot for the
-- caller's storage, and its deadline.
pub mod Snapshots
pub mod Deadline
pub mod Lifetime
pub mod Shortened
use risaml.Prelude.{
  ℕ, String, Bool, false, ◌&&◌, not, Option, none, some, Result, ok, err, ◌>>=◌, ◌>>◌, fail_if,
  ok_or, map_err, map_ok, transpose, ◌==◌, nat_eq, if◌then◌else◌, List, [], ◌∷◌, ℤ, le_int, lt_int,
}
use mathlib.Core.Option
use risaml.Constants.{Binding, short_name, from_short_name, from_urn}
use risaml.Errors.{SamlError, SamlResult, RelayStateParam, TimeWindowField, undefined_binding}
use risaml.Libraries.Web.{UrlLibrary}
use risaml.Model.Identifiers.{
  MessageId, EntityId, SamlInstant, message_id, entity_id, saml_instant, endpoint_url,
}
use risaml.Model.Relay as Relay
use risaml.Browser.Bindings.{
  SsoRequestBinding, SsoResponseBinding, LogoutBinding, sso_request_as_binding,
  sso_request_try_from, sso_response_as_binding, sso_response_try_from, logout_as_binding,
  logout_try_from, sso_response_eq, logout_eq,
}
use risaml.Browser.Endpoints.{AcsEndpoint, acs_endpoint, with_default_flag, with_index}

pub record AuthnPendingDetails : Type 0 where
  pub request_binding : Option SsoRequestBinding
  pub response_binding : SsoResponseBinding
  pub acs : AcsEndpoint

pub record LogoutPendingDetails : Type 0 where
  pub binding : LogoutBinding

-- `PendingSnapshot`, for either message.
pub record PendingSnapshot : Type 0 where
  pub id : String
  pub relay_state : RelayStateParam
  pub peer_entity_id : String
  pub expected_binding : String
  pub request_binding : Option String
  pub acs_url : String
  pub acs_binding : String
  pub acs_index : Option ℕ
  pub acs_is_default : Bool
  pub issued_at : Option SamlInstant
  pub expires_at : Option SamlInstant

-- `Pending<Message>`, by the details of the message.
pub record Pending (Details : Type 0) : Type 0 where
  pub id : MessageId
  pub relay_state : RelayStateParam
  pub details : Details
  pub peer_entity_id : EntityId
  pub issued_at : Option SamlInstant
  pub expires_at : Option SamlInstant

abbrev pub PendingAuthnRequest : Type 0
PendingAuthnRequest = Pending AuthnPendingDetails

abbrev pub PendingLogoutRequest : Type 0
PendingLogoutRequest = Pending LogoutPendingDetails

abbrev pub pending_expired : SamlError
pending_expired = SamlError.time_window_invalid TimeWindowField.pending_request_expiration

validate_common : RelayStateParam → EntityId → SamlResult (Unit {0})
validate_common relay peer = do Relay.validate relay; peer' ← entity_id peer.text; ok tt

unfoldable pub validate_snapshot_timing :
    Option SamlInstant → Option SamlInstant → SamlResult (Unit {0})
validate_snapshot_timing none (some expires) =
    err (SamlError.invalid "pending snapshot expiration requires an issue instant")
validate_snapshot_timing _ _ = ok tt

abbrev pub with_issue_instant : {D : Type 0} → SamlInstant → Pending D → Pending D
with_issue_instant instant p = record p { issued_at = some instant }

abbrev pub with_expiration : {D : Type 0} → SamlInstant → Pending D → Pending D
with_expiration instant p = record p { expires_at = some instant }

-- `PendingSnapshot::authn_request` and `PendingSnapshot::logout_request`.
abbrev authn_request_snapshot :
    String → RelayStateParam → String → String → String → String → PendingSnapshot
authn_request_snapshot id relay peer expected url binding = record {
  id = id;
  relay_state = relay;
  peer_entity_id = peer;
  expected_binding = expected;
  request_binding = none;
  acs_url = url;
  acs_binding = binding;
  acs_index = none;
  acs_is_default = false;
  issued_at = none;
  expires_at = none;
}

abbrev logout_request_snapshot : String → RelayStateParam → String → LogoutBinding → PendingSnapshot
logout_request_snapshot id relay peer binding = record {
  id = id;
  relay_state = relay;
  peer_entity_id = peer;
  expected_binding = short_name (logout_as_binding binding);
  request_binding = some (short_name (logout_as_binding binding));
  acs_url = "";
  acs_binding = "";
  acs_index = none;
  acs_is_default = false;
  issued_at = none;
  expires_at = none;
}

-- A snapshot names a binding by its short name or by its URN.
abbrev named_binding : String → SamlResult Binding
named_binding value =
    ok_or (elim (from_short_name value) [ none ↦ from_urn value | some b ↦ some b ])
      undefined_binding

unfoldable pub sso_response_binding_of : String → SamlResult SsoResponseBinding
sso_response_binding_of value = do binding ← named_binding value; sso_response_try_from binding

unfoldable pub sso_request_binding_of : String → SamlResult SsoRequestBinding
sso_request_binding_of value = do binding ← named_binding value; sso_request_try_from binding

unfoldable pub logout_binding_of : String → SamlResult LogoutBinding
logout_binding_of value = do binding ← named_binding value; logout_try_from binding

-- `Pending::<AuthnRequest>::try_new`
unfoldable pub authn_pending :
    MessageId
    → RelayStateParam
    → AcsEndpoint
    → SsoResponseBinding
    → EntityId
    → SamlResult PendingAuthnRequest
unfolding validate_common
authn_pending id relay acs response idp = do
  validate_common relay idp
  fail_if (not (acs.binding == response))
      (SamlError.invalid "ACS binding must match expected response binding")
  ok (record {
    id = id;
    relay_state = relay;
    details = record { request_binding = none; response_binding = response; acs = acs };
    peer_entity_id = idp;
    issued_at = none;
    expires_at = none;
  })

abbrev pub with_request_binding : SsoRequestBinding → PendingAuthnRequest → PendingAuthnRequest
with_request_binding binding p = record p {
  details = record (p.details) { request_binding = some binding };
}

abbrev with_index_if : Option ℕ → AcsEndpoint → AcsEndpoint
with_index_if none acs = acs
with_index_if (some index) acs = with_index index acs

-- `Pending::<AuthnRequest>::from_snapshot` and `snapshot`.
unfoldable pub authn_from_snapshot : UrlLibrary → PendingSnapshot → SamlResult PendingAuthnRequest
authn_from_snapshot urls s = do
  Relay.validate s.relay_state
  validate_snapshot_timing s.issued_at s.expires_at
  request_id ← message_id s.id
  idp ← entity_id s.peer_entity_id
  response ← sso_response_binding_of s.expected_binding
  binding ← sso_response_binding_of s.acs_binding
  url ← endpoint_url urls s.acs_url
  let acs =
      with_index_if s.acs_index (with_default_flag s.acs_is_default (acs_endpoint binding url))
  request ← transpose sso_request_binding_of s.request_binding
  pending ← authn_pending request_id s.relay_state acs response idp
  ok (record pending {
    details = record (pending.details) { request_binding = request };
    issued_at = s.issued_at;
    expires_at = s.expires_at;
  })

unfoldable pub authn_snapshot : PendingAuthnRequest → PendingSnapshot
authn_snapshot p =
    let base =
      authn_request_snapshot p.id.text p.relay_state p.peer_entity_id.text
        (short_name (sso_response_as_binding p.details.response_binding)) p.details.acs.url.text
        (short_name (sso_response_as_binding p.details.acs.binding)) in
    record base {
      request_binding =
          Option.map (λ b. short_name (sso_request_as_binding b)) p.details.request_binding;
      acs_index = p.details.acs.index;
      acs_is_default = p.details.acs.is_default;
      issued_at = p.issued_at;
      expires_at = p.expires_at;
    }

-- `Pending::<LogoutRequest>::try_new`
unfoldable pub logout_pending :
    MessageId → RelayStateParam → LogoutBinding → EntityId → SamlResult PendingLogoutRequest
unfolding validate_common
logout_pending id relay binding peer = do
  validate_common relay peer
  ok (record {
    id = id;
    relay_state = relay;
    details = record { binding = binding };
    peer_entity_id = peer;
    issued_at = none;
    expires_at = none;
  })

abbrev unwrap_or {ℓ} : {A : Type ℓ} → A → Option A → A
unwrap_or d none = d
unwrap_or d (some a) = a

-- `Pending::<LogoutRequest>::from_snapshot` and `snapshot`.
unfoldable pub logout_from_snapshot : PendingSnapshot → SamlResult PendingLogoutRequest
logout_from_snapshot s = do
  Relay.validate s.relay_state
  validate_snapshot_timing s.issued_at s.expires_at
  request_id ← message_id s.id
  peer ← entity_id s.peer_entity_id
  response ← logout_binding_of s.expected_binding
  tracked ← transpose logout_binding_of s.request_binding
  let request = unwrap_or response tracked
  fail_if (not (request == response))
      (SamlError.invalid "logout request and response bindings must match")
  pending ← logout_pending request_id s.relay_state response peer
  ok (record pending { issued_at = s.issued_at; expires_at = s.expires_at })

unfoldable pub logout_snapshot : PendingLogoutRequest → PendingSnapshot
logout_snapshot p =
    let base =
      logout_request_snapshot p.id.text p.relay_state p.peer_entity_id.text p.details.binding in
    record base { issued_at = p.issued_at; expires_at = p.expires_at }
