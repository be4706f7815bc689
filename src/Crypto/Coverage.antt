-- ===== src/Crypto/Coverage.antt =====
-- src/crypto/verify.rs: which content a set of verified targets covers.
pub mod Laws
use risaml.Prelude.{
  String, slice, Bool, true, false, ◌&&◌, ◌||◌, not, Option, none, some, List, [], ◌∷◌, Result, ok,
  err, ◌>>=◌, map_ok, ◌==◌, string_eq, if◌then◌else◌, any,
}
use risaml.Prelude.Text.{contains_str}
use risaml.Errors.{SamlError, SamlResult}
use risaml.Xml.Dom.Tree.{Node, attr, local_name, start, end}
use risaml.Crypto.Guards.{children_named, has_child}
use risaml.Crypto.Targets.{VerifiedTarget}

unfoldable pub node_saml_id : Node → Option String
node_saml_id n = elim (attr "ID" n) [ some v ↦ some v | none ↦ attr "AssertionID" n ]

abbrev pub is_some_of : String → Option String → Bool
is_some_of v none = false
is_some_of v (some w) = w == v

abbrev pub matches : Node → VerifiedTarget → Bool
matches n VerifiedTarget.whole_document = true
matches n (VerifiedTarget.id v) = is_some_of v (node_saml_id n)

abbrev pub id_matches : Node → VerifiedTarget → Bool
id_matches n VerifiedTarget.whole_document = false
id_matches n (VerifiedTarget.id v) = is_some_of v (node_saml_id n)

unfoldable pub target_matches_node : List VerifiedTarget → Node → Bool
target_matches_node targets n = any (matches n) targets

unfoldable pub id_target_matches_node : List VerifiedTarget → Node → Bool
id_target_matches_node targets n = any (id_matches n) targets

unfoldable pub response_is_covered : List VerifiedTarget → Node → Bool
response_is_covered targets root = target_matches_node targets root

-- The source text of an element.
abbrev pub source_of : String → Node → String
source_of xml n = slice xml (start n) (end n)

unfoldable pub verified_root_content : Node → String → List VerifiedTarget → SamlResult String
verified_root_content root xml targets =
    if target_matches_node targets root
    then ok (source_of xml root)
    else err SamlError.signed_reference_mismatch

-- The branches of `verified_content` behind those of an assertion and of a response.
unfoldable pub verified_message_content :
    Node → String → List VerifiedTarget → SamlResult (Option String)
verified_message_content root xml targets =
    if local_name root == "EntityDescriptor"
    then (if target_matches_node targets root
        then ok (some (source_of xml root))
        else err SamlError.signed_reference_mismatch)
    else if local_name root == "AuthnRequest"
        || local_name root == "LogoutRequest"
        || local_name root == "LogoutResponse"
    then map_ok some (verified_root_content root xml targets)
    else ok none

-- `verified_content`: of a root that is an assertion, that names a response, or else.
unfoldable pub verified_response_content :
    Node → String → List VerifiedTarget → List Node → SamlResult (Option String)
verified_response_content root xml targets [] =
    if has_child root "EncryptedAssertion"
    then (if response_is_covered targets root
        then ok (some (source_of xml root))
        else err SamlError.signed_reference_mismatch)
    else verified_message_content root xml targets
verified_response_content root xml targets (a ∷ []) =
    if id_target_matches_node targets a || response_is_covered targets root
    then ok (some (source_of xml a))
    else err SamlError.signed_reference_mismatch
verified_response_content root xml targets _ = err SamlError.potential_wrapping_attack

unfoldable pub verified_content : Node → String → List VerifiedTarget → SamlResult (Option String)
verified_content root xml targets =
    if local_name root == "Assertion"
    then map_ok some (verified_root_content root xml targets)
    else if contains_str "Response" (local_name root)
    then verified_response_content root xml targets (children_named root "Assertion")
    else verified_message_content root xml targets

abbrev pub covers_lone : List VerifiedTarget → List Node → Bool
covers_lone targets (a ∷ []) = id_target_matches_node targets a
covers_lone targets _ = false

unfoldable pub assertion_is_directly_covered : Node → List VerifiedTarget → Bool
assertion_is_directly_covered root targets =
    if local_name root == "Assertion"
    then target_matches_node targets root
    else if contains_str "Response" (local_name root)
    then covers_lone targets (children_named root "Assertion")
    else false
