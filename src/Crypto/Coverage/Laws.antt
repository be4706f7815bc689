-- ===== src/Crypto/Coverage/Laws.antt =====
-- What `verified_content` of src/crypto/verify.rs returns is covered by a target.
use risaml.Prelude.{
  String, true, ◌||◌, Option, none, some, List, [], ◌∷◌, ok, err, map_ok, ◌==◌, string_eq,
  if◌then◌else◌, ◌≡◌, refl, ◌⊎◌, inl, inr, arith, Any, Bool-cases, eq_iff,
}
use risaml.Prelude.Text.{contains_str}
use risaml.Errors.{SamlError, SamlResult}
use risaml.Xml.Dom.Tree.{Node, local_name}
use risaml.Crypto.Guards.{children_named, has_child}
use risaml.Crypto.Targets.{VerifiedTarget}
use risaml.Crypto.Coverage.{
  node_saml_id, is_some_of, target_matches_node, id_target_matches_node, response_is_covered,
  source_of, verified_root_content, verified_message_content, verified_response_content,
  verified_content,
}

-- The target is the identifier of the element.
abbrev pub Names : Node → VerifiedTarget → Type 0
Names n t = (v : String) × (t ≡ VerifiedTarget.id v) × (node_saml_id n ≡ some v)

-- Some target is the whole document, or the identifier of the element.
abbrev pub Covers : List VerifiedTarget → Node → Type 0
Covers targets n = Any (λ t. (t ≡ VerifiedTarget.whole_document) ⊎ Names n t) targets

abbrev pub CoversById : List VerifiedTarget → Node → Type 0
CoversById targets n = Any (Names n) targets

names_of : (v : String) (o : Option String) → is_some_of v o ≡ true → o ≡ some v
names_of v none h = cc
names_of v (some w) h = let e : w ≡ v = (eq_iff w v).0 h in rw e

target_matches_node-Covers :
    (targets : List VerifiedTarget) (n : Node)
    → target_matches_node targets n ≡ true
    → Covers targets n
unfolding target_matches_node
target_matches_node-Covers [] n h = cc
target_matches_node-Covers (VerifiedTarget.whole_document ∷ ts) n h = Any.here (inl refl)
target_matches_node-Covers (VerifiedTarget.id v ∷ ts) n h =
    elim (Bool-cases (is_some_of v (node_saml_id n))) [
      | inl same ↦ Any.here (inr (v, refl, names_of v (node_saml_id n) same))
      | inr other ↦ Any.there (target_matches_node-Covers ts n (rw other at h))
    ]

id_target_matches_node-CoversById :
    (targets : List VerifiedTarget) (n : Node)
    → id_target_matches_node targets n ≡ true
    → CoversById targets n
unfolding id_target_matches_node
id_target_matches_node-CoversById [] n h = cc
id_target_matches_node-CoversById (VerifiedTarget.whole_document ∷ ts) n h =
    Any.there (id_target_matches_node-CoversById ts n h)
id_target_matches_node-CoversById (VerifiedTarget.id v ∷ ts) n h =
    elim (Bool-cases (is_some_of v (node_saml_id n))) [
      | inl same ↦ Any.here (v, refl, names_of v (node_saml_id n) same)
      | inr other ↦ Any.there (id_target_matches_node-CoversById ts n (rw other at h))
    ]

-- The text is the source of the root, which a target covers, or of the root's only assertion, and
-- then a target covers the root or is that assertion's identifier.
unfoldable pub IsCovered : Node → String → List VerifiedTarget → String → Type 0
IsCovered root xml targets s =
    ((s ≡ source_of xml root) × Covers targets root)
    ⊎ ((a : Node) × (children_named root "Assertion" ≡ a ∷ [])
        × (s ≡ source_of xml a)
        × (Covers targets root ⊎ CoversById targets a))

module _ (root : Node) (xml : String) (targets : List VerifiedTarget) (s : String) where
  root_text :
      (m : SamlResult (Option String))
      → m ≡ (
          if target_matches_node targets root
          then ok (some (source_of xml root))
          else err SamlError.signed_reference_mismatch)
      → m ≡ ok (some s)
      → IsCovered root xml targets s
  unfolding IsCovered
  root_text m d h = elim (Bool-cases (target_matches_node targets root)) [
    | inl covered ↦ inl (ground arith, target_matches_node-Covers targets root covered)
    | inr missed ↦ ground arith
  ]

  root_content-IsCovered :
      map_ok some (verified_root_content root xml targets) ≡ ok (some s)
      → IsCovered root xml targets s
  unfolding verified_root_content
  root_content-IsCovered h = root_text _ (ground arith) h

  message_content-IsCovered :
      verified_message_content root xml targets ≡ ok (some s) → IsCovered root xml targets s
  unfolding verified_message_content
  message_content-IsCovered h = elim (Bool-cases (local_name root == "EntityDescriptor")) [
    | inl descriptor ↦ root_text _ (rw descriptor refl) h
    | inr other ↦
        elim (Bool-cases (
          local_name root == "AuthnRequest"
          || local_name root == "LogoutRequest"
          || local_name root == "LogoutResponse")) [
            | inl message ↦ root_content-IsCovered (rw (other, message) at h)
            | inr unknown ↦ cc (rw (other, unknown) at h)
          ]
  ]

  response_content-IsCovered :
      (assertions : List Node)
      → children_named root "Assertion" ≡ assertions
      → verified_response_content root xml targets assertions ≡ ok (some s)
      → IsCovered root xml targets s
  unfolding verified_response_content response_is_covered IsCovered
  response_content-IsCovered [] shape h = elim (Bool-cases (has_child root "EncryptedAssertion")) [
    | inl encrypted ↦ root_text _ (rw encrypted refl) h
    | inr plain ↦ message_content-IsCovered (rw plain at h)
  ]
  response_content-IsCovered (a ∷ []) shape h =
      elim (Bool-cases (id_target_matches_node targets a)) [
        | inl named ↦
            inr (a, shape, ground arith, inr (id_target_matches_node-CoversById targets a named))
        | inr unnamed ↦ elim (Bool-cases (target_matches_node targets root)) [
          | inl covered ↦
              inr (a, shape, ground arith, inl (target_matches_node-Covers targets root covered))
          | inr missed ↦ ground arith
        ]
      ]
  response_content-IsCovered (a ∷ b ∷ more) shape h = cc

  -- A content that is returned as verified is covered.
  pub verified_content-IsCovered :
      verified_content root xml targets ≡ ok (some s) → IsCovered root xml targets s
  unfolding verified_content
  verified_content-IsCovered h = elim (Bool-cases (local_name root == "Assertion")) [
    | inl assertion ↦ root_content-IsCovered (rw assertion at h)
    | inr other ↦ elim (Bool-cases (contains_str "Response" (local_name root))) [
      | inl response ↦
          response_content-IsCovered (children_named root "Assertion") refl
            (rw (other, response) at h)
      | inr message ↦ message_content-IsCovered (rw (other, message) at h)
    ]
  ]
