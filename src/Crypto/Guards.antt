-- ===== src/Crypto/Guards.antt =====
-- src/crypto/verify.rs: which elements of a document are looked at, and the guards against
-- wrapping and against duplicate identifiers.
pub mod Identifiers
pub mod Wrapping
use risaml.Prelude.{
  String, Bool, true, false, ◌&&◌, ◌||◌, not, Option, none, some, List, [], ◌∷◌, ◌++◌, Result, ok,
  err, ◌>>=◌, ◌==◌, string_eq, if◌then◌else◌, any, filter, flat_map, contains, is_nil,
}
use risaml.Prelude.Text.{after_last, is_empty}
use risaml.Xml.Dom.Tree.{Node, Nodes, node, nil, cons, local_name, attrs, children}

unfoldable pub children_named : Node → String → List Node
children_named n name = filter (λ c. local_name c == name) (children n)

unfoldable pub has_child : Node → String → Bool
has_child n name = any (λ c. local_name c == name) (children n)

-- The signatures of the root, then those of its assertions.
unfoldable pub saml_signature_candidates : Node → List Node
saml_signature_candidates root =
    children_named root "Signature"
    ++ flat_map (λ assertion. children_named assertion "Signature")
        (children_named root "Assertion")

unfoldable mutual
  pub has_descendant : Node → List String → Bool
  has_descendant (node _ _ c _ _ _) names = any_descendant c names

  pub any_descendant : Nodes → List String → Bool
  any_descendant nil names = false
  any_descendant (cons n ns) names =
      (contains names (local_name n) || has_descendant n names) || any_descendant ns names

unfoldable pub wrapping_detected : Node → Bool
wrapping_detected root =
    any
      (λ assertion.
        any
          (λ subject.
            any
              (λ sc.
                any (λ scd. has_descendant scd ("Assertion" ∷ "Signature" ∷ []))
                  (children_named sc "SubjectConfirmationData"))
              (children_named subject "SubjectConfirmation"))
          (children_named assertion "Subject"))
      (children_named root "Assertion")

unfoldable pub saml_id_attr : String → Bool
saml_id_attr name = name == "ID" || name == "AssertionID"

abbrev pub is_counted_id : String × String → Bool
is_counted_id a = saml_id_attr (after_last b':' a.0) && not (is_empty a.1)

-- The set of what was seen, as a list, behind the attributes; the first value seen twice ends it.
unfoldable pub scan_attrs : List (String × String) → List String → Result String (List String)
scan_attrs [] seen = ok seen
scan_attrs (a ∷ rest) seen =
    if is_counted_id a
    then (if contains seen a.1 then err a.1 else scan_attrs rest (a.1 ∷ seen))
    else scan_attrs rest seen

unfoldable mutual
  unfolding scan_attrs

  pub scan_node : Node → List String → Result String (List String)
  scan_node (node _ a c _ _ _) seen = scan_attrs a seen >>= scan_nodes c

  pub scan_nodes : Nodes → List String → Result String (List String)
  scan_nodes nil seen = ok seen
  scan_nodes (cons n ns) seen = scan_node n seen >>= scan_nodes ns

unfoldable pub duplicate_saml_id : Node → List String → Option String
duplicate_saml_id n seen = elim (scan_node n seen) [ ok _ ↦ none | err value ↦ some value ]
