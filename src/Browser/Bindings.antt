-- ===== src/Browser/Bindings.antt =====
-- src/browser/bindings.rs: the bindings that each message of the typed API may use.
use risaml.Prelude.{Bool, true, false, ◌≡◌, ◌↔◌, arith, ok, err, Eq}
use risaml.Constants.{Binding}
use risaml.Errors.{SamlResult, undefined_binding}

pub data SsoRequestBinding : Type 0 where
  redirect post simple_sign : SsoRequestBinding

pub data SsoResponseBinding : Type 0 where
  post simple_sign : SsoResponseBinding

pub data LogoutBinding : Type 0 where
  redirect post simple_sign : LogoutBinding

abbrev pub sso_request_as_binding : SsoRequestBinding → Binding
sso_request_as_binding SsoRequestBinding.redirect = Binding.redirect
sso_request_as_binding SsoRequestBinding.post = Binding.post
sso_request_as_binding SsoRequestBinding.simple_sign = Binding.simple_sign

abbrev pub sso_request_try_from : Binding → SamlResult SsoRequestBinding
sso_request_try_from Binding.redirect = ok SsoRequestBinding.redirect
sso_request_try_from Binding.post = ok SsoRequestBinding.post
sso_request_try_from Binding.simple_sign = ok SsoRequestBinding.simple_sign
sso_request_try_from Binding.artifact = err undefined_binding

abbrev pub sso_response_as_binding : SsoResponseBinding → Binding
sso_response_as_binding SsoResponseBinding.post = Binding.post
sso_response_as_binding SsoResponseBinding.simple_sign = Binding.simple_sign

abbrev pub sso_response_try_from : Binding → SamlResult SsoResponseBinding
sso_response_try_from Binding.post = ok SsoResponseBinding.post
sso_response_try_from Binding.simple_sign = ok SsoResponseBinding.simple_sign
sso_response_try_from Binding.redirect = err undefined_binding
sso_response_try_from Binding.artifact = err undefined_binding

abbrev pub logout_as_binding : LogoutBinding → Binding
logout_as_binding LogoutBinding.redirect = Binding.redirect
logout_as_binding LogoutBinding.post = Binding.post
logout_as_binding LogoutBinding.simple_sign = Binding.simple_sign

abbrev pub logout_try_from : Binding → SamlResult LogoutBinding
logout_try_from Binding.redirect = ok LogoutBinding.redirect
logout_try_from Binding.post = ok LogoutBinding.post
logout_try_from Binding.simple_sign = ok LogoutBinding.simple_sign
logout_try_from Binding.artifact = err undefined_binding

-- The derived `PartialEq` of the two enumerations that the code compares.
abbrev pub sso_response_beq : SsoResponseBinding → SsoResponseBinding → Bool
sso_response_beq SsoResponseBinding.post SsoResponseBinding.post = true
sso_response_beq SsoResponseBinding.simple_sign SsoResponseBinding.simple_sign = true
sso_response_beq _ _ = false

pub sso_response_beq_iff : (a b : SsoResponseBinding) → (sso_response_beq a b ≡ true) ↔ (a ≡ b)
sso_response_beq_iff a b = ground arith

instance abbrev pub sso_response_eq : Eq SsoResponseBinding
sso_response_eq = record { test = sso_response_beq; decides = sso_response_beq_iff }

abbrev pub logout_beq : LogoutBinding → LogoutBinding → Bool
logout_beq LogoutBinding.redirect LogoutBinding.redirect = true
logout_beq LogoutBinding.post LogoutBinding.post = true
logout_beq LogoutBinding.simple_sign LogoutBinding.simple_sign = true
logout_beq _ _ = false

pub logout_beq_iff : (a b : LogoutBinding) → (logout_beq a b ≡ true) ↔ (a ≡ b)
logout_beq_iff a b = ground arith

instance abbrev pub logout_eq : Eq LogoutBinding
logout_eq = record { test = logout_beq; decides = logout_beq_iff }
