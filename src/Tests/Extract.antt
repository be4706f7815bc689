-- ===== src/Tests/Extract.antt =====
-- Extraction from the sample response, and the functions below it, at concrete values.
use risaml.Prelude.{
  false, String, some, [], ◌∷◌, ok, ◌≡◌, refl, ◌↔◌, Any, All, pos, arith, ◌==◌, string_eq,
  if◌then◌else◌,
}
use risaml.Prelude.Text.{Bytes}
use risaml.Errors.{TimeWindowField}
use risaml.Util.Value.{str, object, Entries, insert, get_key, null}
use risaml.Util.Value.Objects.{get_key-insert}
use risaml.Xml.Dom.{default_limits}
use risaml.Xml.Extract.{extract_with_limits}
use risaml.Xml.Extract.Select.{select_path}
use risaml.Xml.Extract.Paths.{IsAtPath, select_path_lem}
use risaml.Xml.Extract.Shortcut.{extract_each, extract_with_limits_lem}
use risaml.Xml.Fields.{login_response_fields}
use risaml.Xml.DateTime.{is_leap_year}
use risaml.Xml.DateTime.Calendar.{
  IsDigit, is_gregorian_leap_year, distance, decimal, is_leap_year_lem,
}
use risaml.Model.Session.{earliest_from, earliest_authn_session_expiration}
use risaml.Model.Session.Earliest.{IsFirst, earliest_authn_session_expiration-IsFirst}
use risaml.Tests.Browser.{clock}
use risaml.Tests.Documents.{signed_root}
use risaml.Tests.Responses.{ascii, response_xml}

select_path_lem_example :
    Any (λ m. m ≡ signed_root) (select_path signed_root ("Response" ∷ []))
    ↔ IsAtPath signed_root ("Response" ∷ []) signed_root
select_path_lem_example = select_path_lem signed_root ("Response" ∷ []) signed_root

extract_with_limits_lem_example :
    extract_with_limits ascii response_xml default_limits "RSACU" (login_response_fields "ACU")
    ≡ extract_each ascii response_xml default_limits "RSACU" (login_response_fields "ACU")
extract_with_limits_lem_example =
    extract_with_limits_lem ascii response_xml default_limits "RSACU" (login_response_fields "ACU")

abbrev entries : Entries
entries = Entries.entry "id" (str "r") Entries.end

get_key-insert_example :
    get_key (insert (object entries) "issuer" null) "id"
    ≡ (if ◌==◌ {B = String} "issuer" "id" then some null else get_key (object entries) "id")
get_key-insert_example = get_key-insert entries "issuer" "id" null

abbrev year : Bytes
year = b'2' ∷ b'0' ∷ b'2' ∷ b'4' ∷ []

year-IsDigit : All IsDigit year
year-IsDigit = (two, ((omega arith, omega arith), (two, ((omega arith, omega arith), tt))))
  where
    two : IsDigit b'2'
    two = (omega arith, omega arith)

is_leap_year_lem_example :
    is_leap_year year false ≡ is_gregorian_leap_year (distance (decimal year) false)
is_leap_year_lem_example = is_leap_year_lem year year-IsDigit false (omega arith)

first_is :
    earliest_authn_session_expiration clock ("7" ∷ "2" ∷ []) TimeWindowField.session_not_on_or_after
    ≡ ok (some (pos 2))
unfolding earliest_authn_session_expiration earliest_from
first_is = refl

earliest_authn_session_expiration-IsFirst_example : IsFirst clock ("7" ∷ "2" ∷ []) (some (pos 2))
earliest_authn_session_expiration-IsFirst_example =
    earliest_authn_session_expiration-IsFirst clock TimeWindowField.session_not_on_or_after
      ("7" ∷ "2" ∷ []) (some (pos 2)) first_is
