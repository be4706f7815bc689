-- ===== src/Browser/Pending/Snapshots.antt =====
-- Storing a pending request and reading it back.
use risaml.Prelude.{
  ℕ, Bool, Option, none, some, ◌≡◌, refl, ap, ◌∙◌, sym, arith, ok, transpose, >>=-eq-ok, of_ok,
}
use mathlib.Core.Option
use risaml.Constants.{from_short_name, short_name}
use risaml.Libraries.Web.{UrlLibrary}
use risaml.Errors.{RelayStateParam}
use risaml.Browser.Endpoints.{AcsEndpoint, acs_endpoint, with_default_flag}
use risaml.Model.Identifiers.{
  SamlInstant, MessageId, EntityId, EndpointUrl, message_id, entity_id, endpoint_url,
  message_id-text, entity_id-text, endpoint_url-text,
}
use risaml.Model.Relay as Relay
use risaml.Browser.Bindings.{
  SsoRequestBinding, SsoResponseBinding, LogoutBinding, sso_request_as_binding,
  sso_response_as_binding, logout_as_binding, sso_response_eq, logout_eq, sso_response_beq_iff,
  logout_beq_iff,
}
use risaml.Browser.Pending.{
  Pending, PendingAuthnRequest, PendingLogoutRequest, with_index_if, PendingSnapshot,
  sso_response_binding_of, sso_request_binding_of, logout_binding_of, validate_snapshot_timing,
  authn_pending, authn_from_snapshot, authn_snapshot, logout_pending, logout_from_snapshot,
  logout_snapshot,
}

-- What the constructors of a pending request establish, with the fields it has for every message.
pub record IsWellFormed {D : Type 0} (p : Pending D) : Type 0 where
  pub relay_is_valid : Relay.validate p.relay_state ≡ ok tt
  pub id_is_made : message_id p.id.text ≡ ok p.id
  pub peer_is_made : entity_id p.peer_entity_id.text ≡ ok p.peer_entity_id
  -- an expiration stands only beside an issue instant
  pub timing : p.issued_at ≡ none → p.expires_at ≡ none

pub record IsValidAuthn (urls : UrlLibrary) (p : PendingAuthnRequest) : Type 0 where
  pub common : IsWellFormed p
  pub url_is_made : endpoint_url urls p.details.acs.url.text ≡ ok p.details.acs.url
  pub bindings_match : p.details.acs.binding ≡ p.details.response_binding

timing_passes :
    (issued expires : Option SamlInstant)
    → (issued ≡ none → expires ≡ none)
    → validate_snapshot_timing issued expires ≡ ok tt
unfolding validate_snapshot_timing
timing_passes none none h = refl
timing_passes none (some e) h = cc (h refl)
timing_passes (some i) none h = refl
timing_passes (some i) (some e) h = refl

timing_of_passes :
    (issued expires : Option SamlInstant)
    → validate_snapshot_timing issued expires ≡ ok tt
    → issued ≡ none
    → expires ≡ none
unfolding validate_snapshot_timing
timing_of_passes none none h e = refl
timing_of_passes none (some x) h e = cc
timing_of_passes (some i) expires h e = cc

response_name :
    (b : SsoResponseBinding)
    → sso_response_binding_of (short_name (sso_response_as_binding b)) ≡ ok b
unfolding sso_response_binding_of from_short_name
response_name SsoResponseBinding.post = refl
response_name _ = refl

request_name :
    (b : Option SsoRequestBinding)
    → transpose sso_request_binding_of (Option.map (λ c. short_name (sso_request_as_binding c)) b)
      ≡ ok b
unfolding sso_request_binding_of from_short_name
request_name none = refl
request_name (some SsoRequestBinding.redirect) = refl
request_name (some _) = refl

logout_name : (b : LogoutBinding) → logout_binding_of (short_name (logout_as_binding b)) ≡ ok b
unfolding logout_binding_of from_short_name
logout_name LogoutBinding.redirect = refl
logout_name _ = refl

acs_of_fields :
    (binding : SsoResponseBinding) (url : EndpointUrl) (index : Option ℕ) (flag : Bool)
    → with_index_if index (with_default_flag flag (acs_endpoint binding url))
      ≡ record { binding = binding; url = url; index = index; is_default = flag }
acs_of_fields binding url none flag = refl
acs_of_fields binding url (some i) flag = refl

-- Reading the snapshot of a valid pending AuthnRequest gives it back, every field as it was.
pub authn_from_snapshot-authn_snapshot :
    (urls : UrlLibrary) (p : PendingAuthnRequest)
    → IsValidAuthn urls p
    → authn_from_snapshot urls (authn_snapshot p) ≡ ok p
unfolding authn_from_snapshot authn_snapshot authn_pending
authn_from_snapshot-authn_snapshot urls p v =
    let c = v.common in
    simp (
      c.relay_is_valid,
      timing_passes _ _ c.timing,
      c.id_is_made,
      c.peer_is_made,
      v.url_is_made,
      response_name,
      request_name,
      acs_of_fields,
      (sso_response_beq_iff _ _).1 v.bindings_match,
    )

-- Reading the snapshot of a valid pending LogoutRequest gives it back.
pub logout_from_snapshot-logout_snapshot :
    (p : PendingLogoutRequest) → IsWellFormed p → logout_from_snapshot (logout_snapshot p) ≡ ok p
unfolding logout_from_snapshot logout_snapshot logout_pending
logout_from_snapshot-logout_snapshot p v =
    let b = p.details.binding in
    simp (
      v.relay_is_valid,
      timing_passes _ _ v.timing,
      v.id_is_made,
      v.peer_is_made,
      logout_name,
      (logout_beq_iff b b).1 refl,
    )

module _ (urls : UrlLibrary) where
  -- What `authn_pending` returns keeps its arguments and is valid where they were made.
  authn_pending-IsValidAuthn :
      (id : MessageId) (relay : RelayStateParam) (acs : AcsEndpoint) (response : SsoResponseBinding)
      (idp : EntityId) (p : PendingAuthnRequest)
      → authn_pending id relay acs response idp ≡ ok p
      → (Relay.validate relay ≡ ok tt)
        × (acs.binding ≡ response)
        × (p.id ≡ id)
        × (p.relay_state ≡ relay)
        × (p.peer_entity_id ≡ idp)
        × (p.details.acs ≡ acs)
        × (p.details.response_binding ≡ response)
  unfolding authn_pending
  authn_pending-IsValidAuthn id relay acs response idp p h =
      grind (arith, sso_response_beq_iff acs.binding response)

-- Every pending AuthnRequest that is read from a snapshot is valid, whatever the snapshot holds.
pub authn_from_snapshot-IsValidAuthn :
    (urls : UrlLibrary) (s : PendingSnapshot) (p : PendingAuthnRequest)
    → authn_from_snapshot urls s ≡ ok p
    → IsValidAuthn urls p
unfolding authn_from_snapshot
authn_from_snapshot-IsValidAuthn urls s p h =
    let (_, relay, h1) = >>=-eq-ok (Relay.validate s.relay_state) _ h in
    let (_, timing, h2) = >>=-eq-ok (validate_snapshot_timing s.issued_at s.expires_at) _ h1 in
    let (id, made_id, h3) = >>=-eq-ok (message_id s.id) _ h2 in
    let (idp, made_idp, h4) = >>=-eq-ok (entity_id s.peer_entity_id) _ h3 in
    let (response, _, h5) = >>=-eq-ok (sso_response_binding_of s.expected_binding) _ h4 in
    let (binding, _, h6) = >>=-eq-ok (sso_response_binding_of s.acs_binding) _ h5 in
    let (url, made_url, h7) = >>=-eq-ok (endpoint_url urls s.acs_url) _ h6 in
    let (request, _, h8) = >>=-eq-ok (transpose sso_request_binding_of s.request_binding) _ h7 in
    let acs =
      with_index_if s.acs_index (with_default_flag s.acs_is_default (acs_endpoint binding url)) in
    let (q, made, last) = >>=-eq-ok (authn_pending id s.relay_state acs response idp) _ h8 in
    let (_, bindings, e_id, e_relay, e_idp, e_acs, e_response) =
      authn_pending-IsValidAuthn urls id s.relay_state acs response idp q made in
    let fields = acs_of_fields binding url s.acs_index s.acs_is_default in
    let e_url : q.details.acs.url ≡ url = ap (λ (a : AcsEndpoint). a.url) (e_acs ∙ fields) in
    let a : Relay.validate q.relay_state ≡ ok tt = rw e_relay relay in
    let b : message_id q.id.text ≡ ok q.id = rw e_id (message_id-text s.id id made_id) in
    let c : entity_id q.peer_entity_id.text ≡ ok q.peer_entity_id =
      rw e_idp (entity_id-text s.peer_entity_id idp made_idp) in
    let d : endpoint_url urls q.details.acs.url.text ≡ ok q.details.acs.url =
      rw e_url (endpoint_url-text urls s.acs_url url made_url) in
    let e : q.details.acs.binding ≡ q.details.response_binding =
      ap (λ (a : AcsEndpoint). a.binding) e_acs ∙ bindings ∙ sym e_response in
    of_ok (IsValidAuthn urls) last (record {
      common = record {
        relay_is_valid = a;
        id_is_made = b;
        peer_is_made = c;
        timing = timing_of_passes s.issued_at s.expires_at timing;
      };
      url_is_made = d;
      bindings_match = e;
    })
