-- ===== src/Libraries/Crypto.antt =====
-- The `ribergshamra` crate: keys, XML-DSig, XML-Enc and detached signatures.
use risaml.Prelude.{ℕ, String, Bool, Option, List}
use risaml.Errors.{Foreign}
use risaml.Prelude.Text.{Bytes}

pub record VerifiedReference : Type 0 where
  pub uri : String
  pub digest_verified : Bool
  -- `resolved_node.is_some()`
  pub is_resolved : Bool

pub data VerifyResult : Type 0 where
  valid : List VerifiedReference → VerifyResult
  invalid : VerifyResult

-- `DsigContext` over a manager with one key.
pub record DsigContext (Key : Type 0) : Type 0 where
  pub key : Key
  pub trusted_keys_only : Bool
  pub strict_verification : Bool
  pub require_reference_digests : Bool
  pub hmac_min_out_len : ℕ
  pub insecure : Bool

pub record CryptoLibrary : Type 1 where
  pub Key : Type 0
  pub VerifyingKey : Type 0
  pub Algorithm : Type 0
  -- `initialize_backend`
  pub initialize : Foreign (Unit {0})
  -- `load_x509_cert_pem`, `load_pem_auto`
  pub load_x509_cert_pem : String → Foreign Key
  pub load_pem_auto : String → Option String → Foreign Key
  -- `verify`, `verify_all`
  pub verify : DsigContext Key → String → Foreign VerifyResult
  pub verify_all : DsigContext Key → String → Foreign (List VerifyResult)
  -- `Key::to_signing_key`, `crypto::sign::from_uri` and `verify` of an algorithm
  pub to_signing_key : Key → Foreign (Option VerifyingKey)
  pub from_uri : String → Foreign Algorithm
  pub algorithm_verify : Algorithm → VerifyingKey → String → Bytes → Foreign Bool
  -- `decrypt` with a manager of one key
  pub decrypt : Key → String → Foreign String
  -- `cfg!(feature = "crypto-rustcrypto")`
  pub is_rustcrypto : Bool
