-- ===== src/Flow/Run/Screened.antt =====
-- What every message has passed that the flow of src/flow.rs returns, whatever its options.
use risaml.Prelude.{
  ℕ, String, Option, none, some, List, ok, >>=-eq-ok, of_ok, ok_or-ok, ◌≤◌, ◌≡◌, ap, arith, ◌==◌,
  string_eq, eq_iff, inl, inr, Bool-cases, Option-cases, length,
}
use risaml.Prelude.Text.{Bytes, from_utf8, is_empty}
use risaml.Constants.{Binding, ParserType, status_success}
use risaml.Util.Value.{Value, get_str}
use risaml.Validator.Status.{
  status_of, status_fields, check_status_with_limits, is_valid_xml_with_limits,
}
use risaml.Xml.Dom.{XmlLimits, check_input_bytes}
use risaml.Xml.Extract.{ExtractorField, extract_with_limits}
use risaml.Xml.Profile.{validate_protocol_profile}
use risaml.Flow.Decode.{decode_bytes, decode_message}
use risaml.Flow.Options.{
  Environment, FlowOptions, AssertionSignatureRequirement, ResponseSignatureRequirement,
}
use risaml.Flow.Params.{HttpRequest}
use risaml.Flow.Run.{FlowResult, read_message, flow_inner}
use risaml.Flow.Run.Trusted.{flow_inner-Runs}

status_of-success :
    (code second : Option String) → status_of code second ≡ ok tt → code ≡ some status_success
unfolding status_of
status_of-success none second h = cc
status_of-success (some code) second h = elim (Bool-cases (code == status_success)) [
  | inl same ↦ ap some ((eq_iff code status_success).0 same)
  | inr other ↦ elim (Bool-cases (is_empty code)) [
    | inl empty ↦ cc (rw (other, empty) at h)
    | inr full ↦ cc (rw (other, full) at h)
  ]
]

check_input_bytes-le :
    (limits : XmlLimits) (n : ℕ) → check_input_bytes limits n ≡ ok tt → n ≤ limits.max_bytes
unfolding check_input_bytes
check_input_bytes-le limits n h = ground arith

module _ (env : Environment) (opts : FlowOptions) (request : HttpRequest) where
  -- A message that carries a status carries success.
  abbrev pub Succeeds : String → Option (List ExtractorField) → Type 0
  Succeeds source none = Unit
  Succeeds source (some fields) =
      (result : Value) × (extract_with_limits env.unicode env.xml opts.xml_limits source fields
        ≡ ok result)
      × (get_str result "top" ≡ some status_success)

  check_status-Succeeds :
      (parser_type : ParserType) (source : String)
      → check_status_with_limits env.unicode env.xml source parser_type opts.xml_limits ≡ ok tt
      → Succeeds source (status_fields parser_type)
  unfolding check_status_with_limits
  check_status-Succeeds parser_type source h = elim (Option-cases (status_fields parser_type)) [
    | inl unchecked ↦ rw unchecked tt
    | inr (fields, chosen) ↦
        let (result, read, h1) =
          >>=-eq-ok (extract_with_limits env.unicode env.xml opts.xml_limits source fields) _
            (rw (check_status_with_limits, chosen) at h) in
        rw chosen
          (result, read, status_of-success (get_str result "top") (get_str result "second") h1)
  ]

  -- The checks of the message as it was decoded.
  pub record IsScreened (binding : Binding) (parser_type : ParserType) (source : String)
      : Type 0 where
    pub bytes : Bytes
    pub are_decoded :
        decode_bytes env.codec binding parser_type request opts.redirect_inflate_max_bytes
          opts.xml_limits
        ≡ ok bytes
    pub are_utf8 : from_utf8 bytes ≡ some source
    pub within_limit : length bytes ≤ opts.xml_limits.max_bytes
    pub is_well_formed : is_valid_xml_with_limits env.xml env.schema source opts.xml_limits ≡ ok tt
    pub fits_profile : validate_protocol_profile env.xml source parser_type opts.xml_limits ≡ ok tt
    pub succeeds : Succeeds source (status_fields parser_type)

  read_message-IsScreened :
      (binding : Binding) (parser_type : ParserType) (source : String)
      → read_message env opts request binding parser_type ≡ ok source
      → IsScreened binding parser_type source
  unfolding read_message decode_message
  read_message-IsScreened binding parser_type source h =
      let (text, decoded, h1) =
        >>=-eq-ok
          (decode_message env.codec binding parser_type request opts.redirect_inflate_max_bytes
            opts.xml_limits)
          _ h in
      let (bytes, read, d1) =
        >>=-eq-ok
          (decode_bytes env.codec binding parser_type request opts.redirect_inflate_max_bytes
            opts.xml_limits)
          _ decoded in
      let (_, small, d2) = >>=-eq-ok (check_input_bytes opts.xml_limits (length bytes)) _ d1 in
      let (_, well_formed, h2) =
        >>=-eq-ok (is_valid_xml_with_limits env.xml env.schema text opts.xml_limits) _ h1 in
      let (_, profiled, h3) =
        >>=-eq-ok (validate_protocol_profile env.xml text parser_type opts.xml_limits) _ h2 in
      let (_, checked, h4) =
        >>=-eq-ok (check_status_with_limits env.unicode env.xml text parser_type opts.xml_limits) _
          h3 in
      of_ok (IsScreened binding parser_type) h4 (record {
        bytes = bytes;
        are_decoded = read;
        are_utf8 = ok_or-ok _ _ text d2;
        within_limit = check_input_bytes-le opts.xml_limits (length bytes) small;
        is_well_formed = well_formed;
        fits_profile = profiled;
        succeeds = check_status-Succeeds parser_type text checked;
      })

  -- Whatever the options ask for, signature or not: a result comes only from a message within the
  -- limit of bytes that is UTF-8, passes `is_valid_xml_with_limits` and the protocol profile of its
  -- kind, and whose top status, where its kind carries one, is Success.
  pub flow_inner-IsScreened :
      (binding : Binding) (parser_type : ParserType) (recipient : Option String)
      (requirement : AssertionSignatureRequirement) (response : ResponseSignatureRequirement)
      (result : FlowResult)
      → opts.binding ≡ some binding
      → opts.parser_type ≡ some parser_type
      → flow_inner env opts request recipient requirement response ≡ ok result
      → (source : String) × IsScreened binding parser_type source
  flow_inner-IsScreened binding parser_type recipient requirement response result bound kind h =
      let runs =
        flow_inner-Runs env opts request binding parser_type recipient requirement response result
          bound kind h in
      (runs.0, read_message-IsScreened binding parser_type runs.0 runs.1)
