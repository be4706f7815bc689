-- ===== src/Model/Extract.antt =====
-- src/model/extract.rs: what the typed messages read of the extracted fields. The numbers of
-- `optional_u16` and the statements about a session are not here; the latter are in Model/Session.
use risaml.Prelude.{
  String, Bool, true, false, Option, none, some, List, [], ◌∷◌, filter_map, ok, err, ◌>>=◌, ok_or,
  traverse, transpose, ◌||◌, ◌==◌, string_eq, if◌then◌else◌,
}
use risaml.Prelude.Text.{concat, is_empty}
use risaml.Errors.{SamlError, SamlResult}
use risaml.Libraries.Web.{UrlLibrary}
use risaml.Util.Value.{
  Value, Entries, null, str, array, object, end, entry, get, get_str, to_list, as_str,
}
use risaml.Validator.Status.{conditions_time_bounds}
use risaml.Model.Identifiers.{
  MessageId, SamlInstant, SessionIndex, EntityId, EndpointUrl, message_id, saml_instant,
  session_index, entity_id, endpoint_url,
}
use risaml.Model.NameId.{NameIdFormat, NameIdPolicy, name_id_format_from_uri, from_parsed}

unfoldable pub required_str : Value → String → SamlResult String
required_str extract path =
    ok_or (get_str extract path)
      (SamlError.invalid (concat ("missing extracted field " ∷ path ∷ [])))

abbrev pub non_empty : Option String → Option String
non_empty none = none
non_empty (some s) = if is_empty s then none else some s

unfoldable pub optional_request_id : Value → String → SamlResult (Option MessageId)
optional_request_id extract path = transpose message_id (non_empty (get_str extract path))

unfoldable pub optional_endpoint : UrlLibrary → Value → String → SamlResult (Option EndpointUrl)
optional_endpoint urls extract path = transpose (endpoint_url urls) (get_str extract path)

unfoldable pub conditions_instants : Value → SamlResult (Option SamlInstant × Option SamlInstant)
conditions_instants extract = do
  bounds ← conditions_time_bounds extract
  not_before ← transpose saml_instant bounds.0
  not_on_or_after ← transpose saml_instant bounds.1
  ok (not_before, not_on_or_after)

unfoldable pub parse_bool : String → SamlResult Bool
parse_bool value =
    if value == "true" || value == "1"
    then ok true
    else if value == "false" || value == "0"
    then ok false
    else err (SamlError.invalid "NameIDPolicy AllowCreate must be a boolean")

abbrev pub format_of : Option String → Option NameIdFormat
format_of none = none
format_of (some uri) = some (name_id_format_from_uri uri)

unfoldable pub name_id_policy_from_extract : Value → SamlResult (Option NameIdPolicy)
name_id_policy_from_extract extract = do
  allowed ← transpose parse_bool (get_str extract "nameIDPolicy.allowCreate")
  ok (from_parsed (format_of (get_str extract "nameIDPolicy.format")) allowed)

unfoldable pub value_strings : Value → List String
value_strings (str s) = s ∷ []
value_strings (array vs) = filter_map as_str (to_list vs)
value_strings null = []
value_strings (object _) = []

-- `Attribute` of src/model/attributes.rs; an `AttributeValue` is its text.
pub record Attribute : Type 0 where
  pub name : String
  pub name_format : Option String
  pub values : List String

abbrev pub attributes_of : Entries → List Attribute
attributes_of end = []
attributes_of (entry name value rest) =
    record { name = name; name_format = none; values = value_strings value } ∷ attributes_of rest

abbrev pub attributes_in : Option Value → List Attribute
attributes_in (some (object entries)) = attributes_of entries
attributes_in _ = []

unfoldable pub attributes_from_extract : Value → List Attribute
attributes_from_extract extract = attributes_in (get extract "attributes")

abbrev pub strings_of : Option Value → List String
strings_of none = []
strings_of (some value) = value_strings value

-- A `SubjectConfirmation` is the text of its element.
unfoldable pub subject_confirmations_from_extract : Value → List String
subject_confirmations_from_extract extract = strings_of (get extract "subjectConfirmation")

unfoldable pub entity_ids_from_value : Option Value → SamlResult (List EntityId)
entity_ids_from_value value = traverse entity_id (strings_of value)

unfoldable pub session_indexes_from_value : Option Value → SamlResult (List SessionIndex)
session_indexes_from_value value = traverse session_index (strings_of value)
