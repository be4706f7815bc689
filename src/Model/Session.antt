-- ===== src/Model/Session.antt =====
-- src/model/session.rs, and the reading of `AuthnStatement`s in src/model/extract.rs.
pub mod Earliest
use risaml.Prelude.{
  String, Option, none, some, List, [], ◌∷◌, map, filter_map, ok, err, ◌>>=◌, traverse, transpose,
  map_ok, ok_or, ℤ, lt_int, if◌then◌else◌,
}
use risaml.Prelude.Text.{concat}
use risaml.Errors.{SamlError, SamlResult, TimeWindowField}
use risaml.Libraries.Time.{TimeLibrary}
use risaml.Util.Value.{Value, null, str, array, object, get, to_list}
use risaml.Model.Identifiers.{SessionIndex, SamlInstant, session_index, saml_instant}

pub record AuthnSession : Type 0 where
  pub session_index : Option SessionIndex
  pub authn_instant : Option SamlInstant
  pub not_on_or_after : Option SamlInstant

abbrev is_statement : Value → SamlResult Value
is_statement (object es) = ok (object es)
is_statement _ = err (SamlError.invalid "extracted AuthnStatement array must contain only objects")

abbrev statements_of : Option Value → SamlResult (List Value)
statements_of none = ok []
statements_of (some null) = ok []
statements_of (some (object es)) = ok (object es ∷ [])
statements_of (some (array vs)) = traverse is_statement (to_list vs)
statements_of (some (str _)) =
    err (SamlError.invalid "extracted AuthnStatement must be an object or array of objects")

unfoldable pub authn_statement_values : Value → SamlResult (List Value)
authn_statement_values extract = statements_of (get extract "sessionIndex")

abbrev optional_str : String → Option Value → SamlResult (Option String)
optional_str field none = ok none
optional_str field (some null) = ok none
optional_str field (some (str s)) = ok (some s)
optional_str field (some _) =
    err
      (SamlError.invalid (concat ("extracted AuthnStatement " ∷ field ∷ " must be a string" ∷ [])))

unfoldable pub optional_authn_statement_str : Value → String → SamlResult (Option String)
optional_authn_statement_str statement field = optional_str field (get statement field)

unfoldable pub authn_statement_not_on_or_after_values : Value → SamlResult (List String)
authn_statement_not_on_or_after_values extract = do
  statements ← authn_statement_values extract
  values ← traverse (λ s. optional_authn_statement_str s "sessionNotOnOrAfter") statements
  ok (filter_map (λ v. v) values)

abbrev session_of : Value → SamlResult AuthnSession
session_of statement = do
  index ← optional_authn_statement_str statement "sessionIndex"
  session ← transpose session_index index
  instant ← optional_authn_statement_str statement "authnInstant"
  authn ← transpose saml_instant instant
  bound ← optional_authn_statement_str statement "sessionNotOnOrAfter"
  not_after ← transpose saml_instant bound
  ok (record { session_index = session; authn_instant = authn; not_on_or_after = not_after })

unfoldable pub authn_sessions_from_extract : Value → SamlResult (List AuthnSession)
authn_sessions_from_extract extract = do
  statements ← authn_statement_values extract
  traverse session_of statements

-- `earliest.is_none_or(|current| candidate < current)`
abbrev pub earlier : Option ℤ → ℤ → Option ℤ
earlier none candidate = some candidate
earlier (some current) candidate = some (if lt_int candidate current then candidate else current)

-- The loop over the values, with the earliest so far.
unfoldable pub earliest_from :
    TimeLibrary → TimeWindowField → Option ℤ → List String → SamlResult (Option ℤ)
earliest_from t error_field earliest [] = ok earliest
earliest_from t error_field earliest (value ∷ values) = do
  candidate ← ok_or (t.parse_rfc3339 value) (SamlError.time_window_invalid error_field)
  earliest_from t error_field (earlier earliest candidate) values

unfoldable pub earliest_authn_session_expiration :
    TimeLibrary → List String → TimeWindowField → SamlResult (Option ℤ)
earliest_authn_session_expiration t values error_field = earliest_from t error_field none values
