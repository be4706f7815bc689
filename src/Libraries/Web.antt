-- ===== src/Libraries/Web.antt =====
-- The `url`, `base64` and `flate2` crates.
use risaml.Prelude.{Result, length, ◌≡◌, ◌≤◌, ℕ, String, Bool, List}
use risaml.Prelude.Text.{Bytes}
use risaml.Errors.{Foreign}

pub record Url : Type 0 where
  pub scheme : String
  pub has_host : Bool

pub record UrlLibrary : Type 0 where
  -- `Url::parse`
  pub parse : String → Foreign Url
  -- `form_urlencoded::parse`, collected
  pub form_parse : String → List (String × String)
  -- `form_urlencoded::byte_serialize`, collected
  pub byte_serialize : String → String

-- `flate2::Status`
pub data Status : Type 0 where
  ok buf_error stream_end : Status

-- One call of `Decompress::decompress`: the decoder behind it, and the growth of `total_in` and
-- `total_out`, the latter with the bytes written.
pub record Inflated (Decoder : Type 0) : Type 0 where
  pub decoder : Decoder
  pub consumed : ℕ
  pub written : Bytes
  pub status : Status

pub record Codec : Type 1 where
  -- `STANDARD.decode`
  pub base64_decode : String → Foreign Bytes
  -- `STANDARD.encode`
  pub base64_encode : Bytes → String
  pub Decoder : Type 0
  -- `Decompress::new(false)`
  pub raw_decoder : Decoder
  -- the remaining input and the room in the output buffer
  pub decompress : Decoder → Bytes → ℕ → Foreign (Inflated Decoder)
  -- `DeflateEncoder` on a whole input
  pub deflate : Bytes → Foreign Bytes

-- What `Decompress` documents of `total_in`: a call reads no more than it is given.
pub record ReadsWithin (codec : Codec) : Type 0 where
  pub consumed_le :
      (decoder : codec.Decoder) (input : Bytes) (room : ℕ) (r : Inflated codec.Decoder)
      → codec.decompress decoder input room ≡ Result.ok r
      → r.consumed ≤ length input
