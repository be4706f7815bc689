-- ===== src/Crypto/Guards/Identifiers.antt =====
-- The duplicate-identifier guard of src/crypto/verify.rs, against the list of all identifiers.
use risaml.Prelude.{
  String, true, false, none, List, [], ◌∷◌, ◌++◌, Result, ok, err, ◌>>=◌, ◌==◌, string_eq,
  if◌then◌else◌, contains, count, ℕ, ◌+◌, ◌≤◌, ◌≡◌, refl, sym, ◌∙◌, eq_iff, eq_refl, Result-cases,
  ◌↔◌, arith, Bool-cases, inl, inr,
}
use risaml.Xml.Dom.Tree.{Node, Nodes, node, nil, cons}
use risaml.Crypto.Guards.{is_counted_id, scan_attrs, scan_node, scan_nodes, duplicate_saml_id}

-- The values of the attributes `ID` and `AssertionID`, under any prefix, that are not empty.
unfoldable pub attr_ids : List (String × String) → List String
attr_ids [] = []
attr_ids (a ∷ rest) = let ids = attr_ids rest in if is_counted_id a then a.1 ∷ ids else ids

-- Those of a tree, in document order.
unfoldable mutual
  unfolding attr_ids

  pub saml_ids : Node → List String
  saml_ids (node _ a c _ _ _) = attr_ids a ++ all_saml_ids c

  pub all_saml_ids : Nodes → List String
  all_saml_ids nil = []
  all_saml_ids (cons n ns) = saml_ids n ++ all_saml_ids ns

-- No value of the list stands in it twice.
abbrev pub Distinct : List String → Type 0
Distinct [] = Unit
Distinct (x ∷ xs) = (contains xs x ≡ false) × Distinct xs

unfoldable scan_ids : List String → List String → Result String (List String)
scan_ids [] seen = ok seen
scan_ids (x ∷ xs) seen = if contains seen x then err x else scan_ids xs (x ∷ seen)

scan_ids-nil : (seen : List String) → scan_ids [] seen ≡ ok seen
unfolding scan_ids
scan_ids-nil seen = refl

scan_ids-append :
    (xs ys seen : List String) → scan_ids (xs ++ ys) seen ≡ (scan_ids xs seen >>= scan_ids ys)
unfolding scan_ids
scan_ids-append [] ys seen = refl
scan_ids-append (x ∷ xs) ys seen = ground (arith, scan_ids-append xs ys (x ∷ seen))

scan_attrs_lem :
    (a : List (String × String)) (seen : List String)
    → scan_attrs a seen ≡ scan_ids (attr_ids a) seen
unfolding scan_attrs scan_ids attr_ids
scan_attrs_lem [] seen = refl
scan_attrs_lem (a ∷ rest) seen = elim (Bool-cases (is_counted_id a)) [
  | inl counted ↦ rw (counted, scan_attrs_lem rest (a.1 ∷ seen))
  | inr other ↦ rw (other, scan_attrs_lem rest seen)
]

>>=-congruent :
    {A B : Type 0} (m : Result String A) (f g : A → Result String B)
    → ((a : A) → f a ≡ g a)
    → (m >>= f) ≡ (m >>= g)
>>=-congruent (ok a) f g h = h a
>>=-congruent (err e) f g h = refl

mutual
  unfolding scan_node saml_ids

  scan_node_lem : (n : Node) (seen : List String) → scan_node n seen ≡ scan_ids (saml_ids n) seen
  scan_node_lem (node _ a c _ _ _) seen =
      rw (scan_attrs_lem a seen, scan_ids-append (attr_ids a) (all_saml_ids c) seen)
        (>>=-congruent (scan_ids (attr_ids a) seen) (scan_nodes c) (scan_ids (all_saml_ids c))
          (scan_nodes_lem c))

  scan_nodes_lem :
      (c : Nodes) (seen : List String) → scan_nodes c seen ≡ scan_ids (all_saml_ids c) seen
  scan_nodes_lem nil seen = sym (scan_ids-nil seen)
  scan_nodes_lem (cons n ns) seen =
      rw (scan_node_lem n seen, scan_ids-append (saml_ids n) (all_saml_ids ns) seen)
        (>>=-congruent (scan_ids (saml_ids n) seen) (scan_nodes ns) (scan_ids (all_saml_ids ns))
          (scan_nodes_lem ns))

abbrev times_seen : List String → String → ℕ
times_seen seen v = if contains seen v then 1 else 0

-- A new value, put to what was seen, counts as one more of the list.
times_seen-new :
    (xs seen : List String) (x v : String)
    → contains seen x ≡ false
    → count v (x ∷ xs) + times_seen seen v ≡ count v xs + times_seen (x ∷ seen) v
times_seen-new xs seen x v fresh = elim (Bool-cases (x == v)) [
  | inl same ↦
      let e : x ≡ v = (eq_iff x v).0 same in
      let new : contains seen v ≡ false = rw (← e) fresh in rw (same, new) (omega arith)
  | inr other ↦ rw other (omega arith)
]

-- The scan passes exactly if no value of the list, or of what was seen before it, comes twice.
scan_ids-ok :
    (xs seen out : List String) (v : String)
    → scan_ids xs seen ≡ ok out
    → count v xs + times_seen seen v ≤ 1
unfolding scan_ids
scan_ids-ok [] seen out v h = ground arith
scan_ids-ok (x ∷ xs) seen out v h = elim (Bool-cases (contains seen x)) [
  | inl repeated ↦ cc (rw repeated at h)
  | inr fresh ↦
      omega
        (arith, times_seen-new xs seen x v fresh, scan_ids-ok xs (x ∷ seen) out v (rw fresh at h))
]

too_many :
    (xs seen : List String) (x : String)
    → contains seen x ≡ true
    → count x (x ∷ xs) + times_seen seen x ≤ 1
    → ⊥
too_many xs seen x repeated h = omega (arith, count-self xs x, rw repeated at h)
  where
    count-self : (xs : List String) (x : String) → 1 ≤ count x (x ∷ xs)
    count-self xs x = rw (eq_refl x) (omega arith)

scan_ids-passes :
    (xs seen : List String)
    → ((v : String) → count v xs + times_seen seen v ≤ 1)
    → (out : List String) × (scan_ids xs seen ≡ ok out)
unfolding scan_ids
scan_ids-passes [] seen h = (seen, refl)
scan_ids-passes (x ∷ xs) seen h = elim (Bool-cases (contains seen x)) [
  | inl repeated ↦ absurd (too_many xs seen x repeated (h x))
  | inr fresh ↦
      rw fresh
        (scan_ids-passes xs (x ∷ seen) (λ v. omega (arith, times_seen-new xs seen x v fresh, h v)))
]

-- A document passes the guard exactly if no identifier stands in it twice.
pub duplicate_saml_id_lem :
    (root : Node)
    → (duplicate_saml_id root [] ≡ none) ↔ ((v : String) → count v (saml_ids root) ≤ 1)
unfolding duplicate_saml_id
duplicate_saml_id_lem root = (
  (λ h v. elim (Result-cases (scan_node root [])) [
    | inl (out, passed) ↦
        let scanned : scan_ids (saml_ids root) [] ≡ ok out = sym (scan_node_lem root []) ∙ passed in
        omega (arith, scan_ids-ok (saml_ids root) [] out v scanned)
    | inr (value, failed) ↦ cc (rw (duplicate_saml_id, failed) at h)
  ]),
  λ h.
      let passes = scan_ids-passes (saml_ids root) [] (λ v. omega (arith, h v)) in
      rw (duplicate_saml_id, scan_node_lem root [], passes.1),
)
