-- ===== src/Flow/Audience.antt =====
-- src/flow.rs: the audiences of an assertion.
pub mod Sound
use risaml.Prelude.{
  String, Bool, true, false, Option, none, some, List, [], ◌∷◌, any, ok, ◌>>=◌, ◌==◌, string_eq,
  option_eq, if◌then◌else◌,
}
use risaml.Errors.{SamlResult}
use risaml.Libraries.Unicode.{UnicodeLibrary}
use risaml.Libraries.Xml.{XmlLibrary}
use risaml.Util.Value.{Value, str, array, cons, get, as_str, to_list}
use risaml.Xml.Dom.{XmlLimits}
use risaml.Xml.Extract.{ExtractorField, new, with_context, extract_with_limits}

unfoldable pub audience_field : ExtractorField
audience_field = new "audience" ("AudienceRestriction" ∷ "Audience" ∷ [])

unfoldable pub audience_restriction_field : ExtractorField
audience_restriction_field =
    with_context
      (new "audienceRestriction" ("Assertion" ∷ "Conditions" ∷ "AudienceRestriction" ∷ []))

-- The audiences that were extracted from one restriction.
unfoldable pub names_audience : String → Option Value → Bool
names_audience expected (some (str audience)) = audience == expected
names_audience expected (some (array audiences)) =
    any (λ v. as_str v == some expected) (to_list audiences)
names_audience expected _ = false

module _ (unicode : UnicodeLibrary) (xml : XmlLibrary) (expected : String)
    (limits : XmlLimits) where
  unfoldable pub audience_restriction_contains : String → SamlResult Bool
  audience_restriction_contains audience_restriction = do
    extracted ← extract_with_limits unicode xml limits audience_restriction (audience_field ∷ [])
    ok (names_audience expected (get extracted "audience"))

  -- The loop over the restrictions.
  unfoldable pub all_restrictions_contain : List Value → SamlResult Bool
  all_restrictions_contain [] = ok true
  all_restrictions_contain (v ∷ vs) = elim (as_str v) [
    | none ↦ ok false
    | some restriction ↦ audience_restriction_contains restriction >>= λ contained. elim contained [
      | true ↦ all_restrictions_contain vs
      | false ↦ ok false
    ]
  ]

  unfoldable pub restrictions_contain : Option Value → SamlResult Bool
  restrictions_contain (some (str restriction)) = audience_restriction_contains restriction
  restrictions_contain (some (array (cons v vs))) = all_restrictions_contain (to_list (cons v vs))
  restrictions_contain _ = ok false

  unfoldable pub audience_restrictions_contain : Option String → SamlResult Bool
  unfolding restrictions_contain
  audience_restrictions_contain none = ok false
  audience_restrictions_contain (some assertion) = do
    extracted ← extract_with_limits unicode xml limits assertion (audience_restriction_field ∷ [])
    restrictions_contain (get extracted "audienceRestriction")
