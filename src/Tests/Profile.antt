-- ===== src/Tests/Profile.antt =====
-- A document whose assertion has conditions twice, and the theorem on the profile at it.
use risaml.Prelude.{String, none, [], ◌∷◌, ok, ◌≢◌, refl, inr}
use risaml.Constants.{ParserType}
use risaml.Libraries.Xml.{Namespace, Element, Event, Resolved, XmlLibrary}
use risaml.Xml.Dom.{default_limits}
use risaml.Xml.Profile.{validate_protocol_profile}
use risaml.Xml.Profile.Balanced.{Events, IsBalanced}
use risaml.Xml.Profile.Once.{IsWhole, validate_protocol_profile-once}

abbrev assertion : Namespace
assertion =
    Namespace.bound "urn:oasis:names:tc:SAML:2.0:assertion"
      (ok "urn:oasis:names:tc:SAML:2.0:assertion")

abbrev element : String → Element
element name = record { local_name = name; attributes = [] }

abbrev starts : String → Resolved
starts name = record { namespace = assertion; event = Event.start (element name) }

abbrev closes : Resolved
closes = record { namespace = assertion; event = Event.close }

abbrev again : Resolved
again = record { namespace = assertion; event = Event.empty (element "Conditions") }

abbrev blank : Resolved
blank = record { namespace = assertion; event = Event.text (ok " ") }

abbrev twice : Events
twice =
    ok (starts "Response")
    ∷ ok (starts "Assertion")
    ∷ ok (starts "Subject")
    ∷ ok closes
    ∷ ok (starts "Conditions")
    ∷ ok closes
    ∷ ok blank
    ∷ ok again
    ∷ ok closes
    ∷ ok closes
    ∷ []

abbrev twice_xml : XmlLibrary
twice_xml = record {
  read_events = λ _. [];
  read_resolved_events = λ _ _. twice;
  predefined_entity = λ _. none;
}

validate_protocol_profile-once_example :
    validate_protocol_profile twice_xml "twice" ParserType.saml_response default_limits ≢ ok tt
unfolding risaml.Xml.Profile.Attributes.classify_namespace
validate_protocol_profile-once_example =
    validate_protocol_profile-once twice_xml "twice" ParserType.saml_response default_limits
      (ok (starts "Response") ∷ []) (starts "Assertion") (starts "Conditions") again
      (ok closes ∷ ok closes ∷ []) (element "Assertion", refl, refl, refl)
      (IsBalanced.nested (starts "Subject") closes [] [] (element "Subject") refl IsBalanced.done
        refl IsBalanced.done)
      (IsWhole.around (element "Conditions") closes [] refl refl refl IsBalanced.done refl)
      (IsBalanced.flat {e = blank} tt IsBalanced.done) (element "Conditions", inr refl, refl, refl)
      refl
