-- ===== src/Tests/Metadata.antt =====
-- A metadata document whose role ends before it, and the theorem on its deadline at it.
use risaml.Prelude.{
  String, Option, none, some, List, [], ◌∷◌, ok, ◌≡◌, refl, ◌==◌, string_eq, if◌then◌else◌, ℤ, pos,
}
use risaml.Libraries.Time.{TimeLibrary}
use risaml.Xml.Dom.Tree.{Node, node, nil}
use risaml.Metadata.Policy.{effective_expiration}
use risaml.Metadata.Policy.Expiration.{IsFirstEnd, effective_expiration-IsFirstEnd}
use risaml.Tests.Browser.{clock}

abbrev years : TimeLibrary
years = record clock {
  parse_rfc3339 = λ text.
      if text == "2024-01-01T00:00:00Z"
      then some (pos 4)
      else if text == "2023-01-01T00:00:00Z"
      then some (pos 3)
      else none;
}

abbrev ends : String → String → Node
ends name year = node name (("validUntil", year) ∷ []) nil "" 0 1

abbrev entity : Node
entity = ends "EntityDescriptor" "2024-01-01T00:00:00Z"

abbrev role : Node
role = ends "SPSSODescriptor" "2023-01-01T00:00:00Z"

expires : effective_expiration years entity (role ∷ []) ≡ ok (some (pos 3))
unfolding effective_expiration risaml.Metadata.Policy.expiration_from risaml.Xml.Dom.Tree.attr
    risaml.Metadata.Policy.valid_until risaml.Xml.DateTime.parse_saml_utc_date_time
    risaml.Prelude.Text.strip_suffix risaml.Prelude.Text.trim_matches risaml.Xml.DateTime.position
    risaml.Prelude.Text.as_bytes risaml.Xml.DateTime.is_valid_year risaml.Xml.DateTime.year_modulo
    risaml.Xml.DateTime.digit_value risaml.Xml.DateTime.has_separators
    risaml.Xml.DateTime.parse_fields risaml.Xml.DateTime.parse_two_ascii_digits
    risaml.Xml.DateTime.is_valid_calendar_day risaml.Xml.DateTime.max_day
    risaml.Xml.DateTime.is_valid_fraction risaml.Xml.DateTime.is_valid_hour
expires = refl

effective_expiration-IsFirstEnd_example : IsFirstEnd years (entity ∷ role ∷ []) (some (pos 3))
effective_expiration-IsFirstEnd_example =
    effective_expiration-IsFirstEnd years entity (role ∷ []) (some (pos 3)) expires
