-- ===== src/Flow/Prepare/Cbc.antt =====
-- The encryption in CBC mode that src/flow.rs looks for before it trusts a response, as a property
-- of the tree of a document.
use risaml.Prelude.{
  String, true, false, ◌==◌, string_eq, some, List, [], ◌∷◌, ok, >>=-eq-ok, of_ok, ◌≡◌, ◌≢◌, ◌⊎◌,
  inl, inr, Bool-cases, find, refl, Any, Any-map, Any-filter, Any-filter_map, any, any-true, eq_iff,
}
use risaml.Constants.{is_xml_encryption_cbc_algorithm}
use risaml.Libraries.Xml.{XmlLibrary}
use risaml.Xml.Dom.{XmlLimits}
use risaml.Xml.Dom.Tree.{Node, local_name, children, attr}
use risaml.Xml.Dom.Parse.{parse_with_limits}
use risaml.Crypto.Decrypt.{child}
use risaml.Flow.Prepare.{child_of, encryption_algorithms, response_uses_cbc_encrypted_assertion}

-- The algorithms of XML Encryption in CBC mode.
abbrev pub cbc_algorithms : List String
cbc_algorithms =
    "http://www.w3.org/2001/04/xmlenc#tripledes-cbc" ∷ "http://www.w3.org/2001/04/xmlenc#aes128-cbc"
    ∷ "http://www.w3.org/2001/04/xmlenc#aes192-cbc" ∷ "http://www.w3.org/2001/04/xmlenc#aes256-cbc"
    ∷ []

-- The first of these elements with this name.
abbrev pub IsFirstNamed : String → Node → List Node → Type 0
IsFirstNamed name n [] = ⊥
IsFirstNamed name n (c ∷ cs) =
    ((local_name c ≡ name) × (c ≡ n)) ⊎ ((local_name c ≢ name) × IsFirstNamed name n cs)

-- An encrypted assertion whose data names such an algorithm.
pub record IsCbcEncrypted (n : Node) : Type 0 where
  pub is_encrypted : local_name n ≡ "EncryptedAssertion"
  pub data_ : Node
  pub has_data : IsFirstNamed "EncryptedData" data_ (children n)
  pub method : Node
  pub has_method : IsFirstNamed "EncryptionMethod" method (children data_)
  pub algorithm : String
  pub names_algorithm : attr "Algorithm" method ≡ some algorithm
  pub is_cbc : Any (λ cbc. algorithm ≡ cbc) cbc_algorithms

find_first :
    (name : String) (n : Node) (cs : List Node)
    → IsFirstNamed name n cs
    → find (λ c. local_name c == name) cs ≡ some n
find_first name n [] h = absurd h
find_first name n (c ∷ cs) (inl (named, same)) =
    rw ((eq_iff (local_name c) name).1 named, same) refl
find_first name n (c ∷ cs) (inr (other, later)) = elim (Bool-cases (local_name c == name)) [
  | inl named ↦ absurd (other ((eq_iff (local_name c) name).0 named))
  | inr differs ↦ rw differs (find_first name n cs later)
]

child_of-some :
    (name : String) (n c : Node) → IsFirstNamed name c (children n) → child_of name n ≡ some c
unfolding child
child_of-some name n c h = find_first name c (children n) h

cbc_algorithms-true :
    (algorithm : String)
    → Any (λ cbc. algorithm ≡ cbc) cbc_algorithms
    → is_xml_encryption_cbc_algorithm algorithm ≡ true
unfolding is_xml_encryption_cbc_algorithm
cbc_algorithms-true algorithm (Any.here e) = rw e refl
cbc_algorithms-true algorithm (Any.there (Any.here e)) = rw e refl
cbc_algorithms-true algorithm (Any.there (Any.there (Any.here e))) = rw e refl
cbc_algorithms-true algorithm (Any.there (Any.there (Any.there (Any.here e)))) = rw e refl
cbc_algorithms-true algorithm (Any.there (Any.there (Any.there (Any.there later)))) = elim later [ ]

-- The program finds every one of them below the root.
cbc_is_found :
    (root : Node)
    → Any IsCbcEncrypted (children root)
    → any is_xml_encryption_cbc_algorithm (encryption_algorithms root) ≡ true
cbc_is_found root found = any-true is_xml_encryption_cbc_algorithm (
    Any-filter_map (attr "Algorithm") (
      Any-filter_map (child_of "EncryptionMethod") (
        Any-filter_map (child_of "EncryptedData")
          (Any-filter (λ c. local_name c == "EncryptedAssertion") (Any-map by_parts found)))))
  where
    by_parts :
        (n : Node)
        → IsCbcEncrypted n
        → ((local_name n == "EncryptedAssertion") ≡ true)
          × ((d : Node) × (child_of "EncryptedData" n ≡ some d)
              × ((m : Node) × (child_of "EncryptionMethod" d ≡ some m)
                  × ((a : String) × (attr "Algorithm" m ≡ some a)
                      × (is_xml_encryption_cbc_algorithm a ≡ true))))
    by_parts n h = (
      (eq_iff (local_name n) "EncryptedAssertion").1 h.is_encrypted,
      (
        h.data_,
        child_of-some "EncryptedData" n h.data_ h.has_data,
        (
          h.method,
          child_of-some "EncryptionMethod" h.data_ h.method h.has_method,
          (h.algorithm, h.names_algorithm, cbc_algorithms-true h.algorithm h.is_cbc),
        ),
      ),
    )

-- A document that can be read and has no assertion encrypted in CBC mode below its root.
abbrev pub IsCbcFree : XmlLibrary → String → XmlLimits → Type 0
IsCbcFree xml source limits =
    (root : Node) × (parse_with_limits xml source limits ≡ ok root)
    × (¬ Any IsCbcEncrypted (children root))

pub response_uses_cbc_encrypted_assertion-IsCbcFree :
    (xml : XmlLibrary) (source : String) (limits : XmlLimits)
    → response_uses_cbc_encrypted_assertion xml source limits ≡ ok false
    → IsCbcFree xml source limits
unfolding response_uses_cbc_encrypted_assertion
response_uses_cbc_encrypted_assertion-IsCbcFree xml source limits h =
    let (root, parsed, h1) = >>=-eq-ok (parse_with_limits xml source limits) _ h in
    let unused : any is_xml_encryption_cbc_algorithm (encryption_algorithms root) ≡ false =
      of_ok (λ b. any is_xml_encryption_cbc_algorithm (encryption_algorithms root) ≡ b) h1 refl in
    (root, parsed, λ found. cc (cbc_is_found root found))
