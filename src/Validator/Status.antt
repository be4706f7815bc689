-- ===== src/Validator/Status.antt =====
-- src/validator.rs: the status of a response, and the bounds of `Conditions`. src/context.rs: the
-- checks of any document.
use risaml.Prelude.{
  String, Option, none, some, List, ok, err, ◌>>=◌, map_err, ◌==◌, string_eq, if◌then◌else◌,
}
use risaml.Prelude.Text.{is_empty}
use risaml.Constants.{ParserType, status_success}
use risaml.Errors.{SamlError, SamlResult, Foreign}
use risaml.Libraries.Xml.{XmlLibrary}
use risaml.Libraries.Unicode.{UnicodeLibrary}
use risaml.Util.Value.{Value, array, object, nil, get, get_str}
use risaml.Xml.Dom.{XmlLimits}
use risaml.Xml.Dom.Parse.{parse_with_limits}
use risaml.Xml.Extract.{ExtractorField, extract_with_limits}
use risaml.Xml.Fields.{login_response_status_fields, logout_response_status_fields}

-- `conditions_time_bounds`, behind the look-up of the conditions.
unfoldable pub bounds_of : Option Value → SamlResult (Option String × Option String)
bounds_of none = ok (none, none)
bounds_of (some (array nil)) = ok (none, none)
bounds_of (some (object es)) =
    ok (get_str (object es) "notBefore", get_str (object es) "notOnOrAfter")
bounds_of (some _) =
    err (SamlError.invalid "Assertion Conditions must be absent or occur exactly once")

unfoldable pub conditions_time_bounds : Value → SamlResult (Option String × Option String)
unfolding bounds_of
conditions_time_bounds extracted = bounds_of (get extracted "conditions")

abbrev pub not_empty : Option String → Option String
not_empty none = none
not_empty (some s) = if is_empty s then none else some s

unfoldable pub status_of : Option String → Option String → SamlResult (Unit {0})
status_of none second = err SamlError.undefined_status
status_of (some code) second =
    if code == status_success
    then ok tt
    else if is_empty code
    then err SamlError.undefined_status
    else err (SamlError.status_not_success code (not_empty second))

abbrev pub status_fields : ParserType → Option (List ExtractorField)
status_fields ParserType.saml_response = some login_response_status_fields
status_fields ParserType.logout_response = some logout_response_status_fields
status_fields _ = none

unfoldable pub check_status_with_limits :
    UnicodeLibrary → XmlLibrary → String → ParserType → XmlLimits → SamlResult (Unit {0})
unfolding status_of
check_status_with_limits unicode xml content parser_type limits = elim (status_fields parser_type) [
  | none ↦ ok tt
  | some fields ↦ do
    result ← extract_with_limits unicode xml limits content fields
    status_of (get_str result "top") (get_str result "second")
]

-- `SCHEMA_VALIDATOR` of src/context.rs: what is registered, if anything is.
abbrev pub SchemaValidator : Type 0
SchemaValidator = Option (String → Foreign (Unit {0}))

abbrev pub validate_schema : SchemaValidator → String → SamlResult (Unit {0})
validate_schema none xml = ok tt
validate_schema (some validate) xml = map_err SamlError.invalid (validate xml)

unfoldable pub is_valid_xml_with_limits :
    XmlLibrary → SchemaValidator → String → XmlLimits → SamlResult (Unit {0})
is_valid_xml_with_limits xml schema source limits = do
  root ← parse_with_limits xml source limits
  validate_schema schema source
