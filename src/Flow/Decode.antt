-- ===== src/Flow/Decode.antt =====
-- src/flow.rs: the message of a request, as text.
use risaml.Prelude.{ℕ, String, Option, none, some, err, ◌>>=◌, ◌>>◌, ok_or, length, min}
use risaml.Prelude.Text.{Bytes, from_utf8}
use risaml.Prelude.Text.Utf8.{utf8_error}
use risaml.Constants.{Binding, ParserType, query_param}
use risaml.Encoding.{base64_decode_with_limit}
use risaml.Errors.{SamlError, SamlResult}
use risaml.Inflate.{deflate_raw_decode_with_limit}
use risaml.Libraries.Web.{Codec}
use risaml.Xml.Dom.{XmlLimits, check_input_bytes}
use risaml.Flow.Params.{HttpRequest, query_get, body_get}
use risaml.Flow.Octets.{missing_binding_parameter}

-- The fuel of the decoder is enough wherever `Decompress` reads within its input, so that the first
-- case does not arise.
abbrev pub returned : Option (SamlResult Bytes) → SamlResult Bytes
returned none = err (SamlError.deflate "out of fuel")
returned (some r) = r

-- The bytes behind the transport encoding.
unfoldable pub decode_bytes :
    Codec → Binding → ParserType → HttpRequest → ℕ → XmlLimits → SamlResult Bytes
decode_bytes codec Binding.redirect parser_type request redirect_inflate_max_bytes limits = do
  let direction = query_param parser_type
  found ← query_get request direction
  content ← ok_or found (missing_binding_parameter direction)
  let redirect_max_bytes = min redirect_inflate_max_bytes limits.max_bytes
  compressed ← base64_decode_with_limit codec content redirect_max_bytes
  returned (deflate_raw_decode_with_limit codec compressed redirect_max_bytes)
decode_bytes codec Binding.artifact parser_type request redirect_inflate_max_bytes limits =
    err (SamlError.unsupported_binding Binding.artifact)
decode_bytes codec _ parser_type request redirect_inflate_max_bytes limits = do
  let direction = query_param parser_type
  found ← body_get request direction
  content ← ok_or found (missing_binding_parameter direction)
  base64_decode_with_limit codec content limits.max_bytes

unfoldable pub decode_message :
    Codec → Binding → ParserType → HttpRequest → ℕ → XmlLimits → SamlResult String
decode_message codec binding parser_type request redirect_inflate_max_bytes limits = do
  bytes ← decode_bytes codec binding parser_type request redirect_inflate_max_bytes limits
  check_input_bytes limits (length bytes)
  ok_or (from_utf8 bytes) (SamlError.xml (utf8_error bytes))
