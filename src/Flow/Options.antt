-- ===== src/Flow/Options.antt =====
-- src/flow.rs: the options of a run, and what it calls outside the library.
use risaml.Prelude.{ℕ, String, Bool, true, false, Option, none, some, List, [], ok, ℤ, pos}
use risaml.Constants.{Binding, ParserType}
use risaml.Errors.{SamlResult}
use risaml.Libraries.Crypto.{CryptoLibrary}
use risaml.Libraries.Time.{TimeLibrary}
use risaml.Libraries.Unicode.{UnicodeLibrary}
use risaml.Libraries.Web.{UrlLibrary, Codec}
use risaml.Libraries.Xml.{XmlLibrary}
use risaml.Inflate.{max_deflate_raw_decode_bytes}
use risaml.Validator.{offset_datetime_from_system_time}
use risaml.Validator.Status.{SchemaValidator}
use risaml.Xml.Dom.{XmlLimits, default_limits}

-- The places that read the process clock, where no instant is given. Two readings may differ; a
-- subject confirmation is named by its position.
pub data ClockReading : Type 0 where
  at_confirmation : ℕ → ClockReading
  at_session at_conditions at_logout : ClockReading

-- The libraries behind a run, the registered schema validator, and the clock.
pub record Environment : Type 1 where
  pub crypto : CryptoLibrary
  pub codec : Codec
  pub urls : UrlLibrary
  pub xml : XmlLibrary
  pub unicode : UnicodeLibrary
  pub time : TimeLibrary
  pub schema : SchemaValidator
  -- `OffsetDateTime::now_utc`
  pub now_utc : ClockReading → ℤ

pub record FlowOptions : Type 0 where
  pub binding : Option Binding
  pub parser_type : Option ParserType
  pub redirect_inflate_max_bytes : ℕ
  pub xml_limits : XmlLimits
  pub check_signature : Bool
  pub from_issuer : Option String
  pub signing_certs : List String
  pub decrypt_key : Option String
  pub decrypt_key_pass : Option String
  pub allow_insecure_software_rsa : Bool
  pub clock_drifts : ℤ × ℤ
  pub now : Option ℤ
  pub expected_audience : Option String
  pub expected_in_response_to : Option String

-- `FlowOptions::default`
abbrev pub default_options : FlowOptions
default_options = record {
  binding = none;
  parser_type = none;
  redirect_inflate_max_bytes = max_deflate_raw_decode_bytes;
  xml_limits = default_limits;
  check_signature = false;
  from_issuer = none;
  signing_certs = [];
  decrypt_key = none;
  decrypt_key_pass = none;
  allow_insecure_software_rsa = false;
  clock_drifts = (pos 0, pos 0);
  now = none;
  expected_audience = none;
  expected_in_response_to = none;
}

abbrev instant_or : Environment → Option ℤ → ClockReading → SamlResult ℤ
instant_or env none place = ok (env.now_utc place)
instant_or env (some given) place = offset_datetime_from_system_time env.time given

unfoldable pub validation_now : Environment → FlowOptions → ClockReading → SamlResult ℤ
validation_now env opts place = instant_or env opts.now place

pub data AssertionSignatureRequirement : Type 0 where
  compatible direct : AssertionSignatureRequirement

abbrev pub is_direct : AssertionSignatureRequirement → Bool
is_direct AssertionSignatureRequirement.compatible = false
is_direct AssertionSignatureRequirement.direct = true

pub data ResponseSignatureRequirement : Type 0 where
  optional required_for_encrypted_cbc required : ResponseSignatureRequirement

pub record PreparedMessage : Type 0 where
  pub saml_content : String
  pub assertion : Option String
  pub response_authenticated : Bool
