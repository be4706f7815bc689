-- ===== src/Browser/Endpoints.antt =====
-- `AcsEndpoint` of src/browser/endpoints.rs.
use risaml.Prelude.{ℕ, Bool, false, Option, none, some}
use risaml.Model.Identifiers.{EndpointUrl}
use risaml.Browser.Bindings.{SsoResponseBinding}

pub record AcsEndpoint : Type 0 where
  pub binding : SsoResponseBinding
  pub url : EndpointUrl
  -- a `u16`, which is only copied
  pub index : Option ℕ
  pub is_default : Bool

abbrev pub acs_endpoint : SsoResponseBinding → EndpointUrl → AcsEndpoint
acs_endpoint binding url = record { binding = binding; url = url; index = none; is_default = false }

abbrev pub with_default_flag : Bool → AcsEndpoint → AcsEndpoint
with_default_flag flag acs = record acs { is_default = flag }

abbrev pub with_index : ℕ → AcsEndpoint → AcsEndpoint
with_index index acs = record acs { index = some index }
