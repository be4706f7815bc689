-- ===== src/Crypto/Guards/Wrapping.antt =====
-- The wrapping guard of src/crypto/verify.rs, against paths in the document.
use risaml.Prelude.{
  ℕ, String, Bool, true, List, [], ◌∷◌, ◌==◌, string_eq, any, contains, ◌≡◌, refl, ◌↔◌, ◌⊎◌, arith,
  Bool-cases, inl, inr, filter, eq_iff, Any,
}
use risaml.Xml.Dom.Tree.{Node, Nodes, node, nil, cons, local_name, children}
use risaml.Crypto.Guards.{children_named, has_descendant, any_descendant, wrapping_detected}

-- Some child of this name satisfies the predicate.
abbrev pub Below : String → (Node → Type 0) → Node → Type 0
Below name P n = Any (λ c. (local_name c ≡ name) × P c) (children n)

-- Some element inside this one, at any depth, satisfies the predicate.
mutual
  pub data Within (P : Node → Type 0) : Node → Type 0 where
    inside :
        {name : String} {attributes : List (String × String)} {c : Nodes} {text : String}
        {start end : ℕ}
        → Among P c
        → Within P (node name attributes c text start end)

  pub data Among (P : Node → Type 0) : Nodes → Type 0 where
    first : {n : Node} {ns : Nodes} → P n → Among P (cons n ns)
    in_first : {n : Node} {ns : Nodes} → Within P n → Among P (cons n ns)
    later : {n : Node} {ns : Nodes} → Among P ns → Among P (cons n ns)

abbrev pub IsForbidden : Node → Type 0
IsForbidden n = (local_name n ≡ "Assertion") ⊎ (local_name n ≡ "Signature")

abbrev forbidden : List String
forbidden = "Assertion" ∷ "Signature" ∷ []

forbidden_iff : (n : Node) → (contains forbidden (local_name n) ≡ true) ↔ IsForbidden n
forbidden_iff n =
    grind (arith, eq_iff "Assertion" (local_name n), eq_iff "Signature" (local_name n))

mutual
  unfolding has_descendant

  descendant-Within : (n : Node) → has_descendant n forbidden ≡ true → Within IsForbidden n
  descendant-Within (node _ _ c _ _ _) h = Within.inside (descendant-Among c h)

  descendant-Among : (c : Nodes) → any_descendant c forbidden ≡ true → Among IsForbidden c
  descendant-Among nil h = cc
  descendant-Among (cons n ns) h = elim (Bool-cases (any_descendant ns forbidden)) [
    | inl rest ↦ Among.later (descendant-Among ns rest)
    | inr no_rest ↦ elim (Bool-cases (has_descendant n forbidden)) [
      | inl deep ↦ Among.in_first (descendant-Within n deep)
      | inr shallow ↦ Among.first ((forbidden_iff n).0 (ground arith))
    ]
  ]

mutual
  unfolding has_descendant

  Within-descendant : (n : Node) → Within IsForbidden n → has_descendant n forbidden ≡ true
  Within-descendant (node _ _ c _ _ _) (Within.inside h) = Among-descendant c h

  Among-descendant : (c : Nodes) → Among IsForbidden c → any_descendant c forbidden ≡ true
  Among-descendant nil h = elim h [ ]
  Among-descendant (cons n ns) (Among.first h) = rw ((forbidden_iff n).1 h) refl
  Among-descendant (cons n ns) (Among.in_first h) = ground (arith, Within-descendant n h)
  Among-descendant (cons n ns) (Among.later h) = ground (arith, Among-descendant ns h)

module _ (name : String) (f : Node → Bool) (P : Node → Type 0)
    (decides : (n : Node) → (f n ≡ true) ↔ P n) where
  any-Any :
      (ns : List Node)
      → any f (filter (λ c. local_name c == name) ns) ≡ true
      → Any (λ c. (local_name c ≡ name) × P c) ns
  any-Any [] h = cc
  any-Any (n ∷ ns) h = elim (Bool-cases (local_name n == name)) [
    | inl named ↦ elim (Bool-cases (f n)) [
      | inl holds ↦ Any.here ((eq_iff (local_name n) name).0 named, (decides n).0 holds)
      | inr fails ↦ Any.there (any-Any ns (rw (named, fails) at h))
    ]
    | inr other ↦ Any.there (any-Any ns (rw other at h))
  ]

  Any-any :
      (ns : List Node)
      → Any (λ c. (local_name c ≡ name) × P c) ns
      → any f (filter (λ c. local_name c == name) ns) ≡ true
  Any-any [] h = elim h [ ]
  Any-any (n ∷ ns) (Any.here h) = rw ((eq_iff (local_name n) name).1 h.0, (decides n).1 h.1) refl
  Any-any (n ∷ ns) (Any.there h) = elim (Bool-cases (local_name n == name)) [
    | inl named ↦ rw named (ground (arith, Any-any ns h))
    | inr other ↦ rw other (Any-any ns h)
  ]

  any_named_iff : (n : Node) → (any f (children_named n name) ≡ true) ↔ Below name P n
  unfolding children_named
  any_named_iff n = (any-Any (children n), Any-any (children n))

-- The guard fires exactly if an assertion or a signature lies, at any depth, in the data of a
-- subject confirmation of an assertion that is a child of the root.
pub wrapping_detected_lem :
    (root : Node)
    → (wrapping_detected root ≡ true)
      ↔ Below "Assertion"
          (Below "Subject"
            (Below "SubjectConfirmation" (Below "SubjectConfirmationData" (Within IsForbidden))))
          root
unfolding wrapping_detected
wrapping_detected_lem root =
    any_named_iff "Assertion" _ _
      (any_named_iff "Subject" _ _ (
        any_named_iff "SubjectConfirmation" _ _ (
          any_named_iff "SubjectConfirmationData" _ _
            (λ scd. (descendant-Within scd, Within-descendant scd)))))
      root
