-- ===== src/Metadata/Policy/Expiration.antt =====
-- The deadline that src/metadata/policy.rs finds for a document and its roles.
use risaml.Prelude.{
  String, Option, none, some, List, [], ◌∷◌, ok, >>=-eq-ok, ok_or-ok, ok_or, of_ok, ◌≡◌, refl, ◌⊎◌,
  inl, inr, All, Any, Option-cases, arith, ℤ, ◌≤ℤ◌,
}
use risaml.Libraries.Time.{TimeLibrary}
use risaml.Xml.Dom.Tree.{Node, attr}
use risaml.Xml.DateTime.{parse_saml_utc_date_time}
use risaml.Model.Session.Earliest.{lesser}
use risaml.Metadata.Policy.{invalid_expiration, valid_until, expiration_from, effective_expiration}

-- An element that says when it ends.
abbrev pub EndsAt : TimeLibrary → ℤ → Node → Type 0
EndsAt t at n =
    (written : String) × (attr "validUntil" n ≡ some written)
    × (value : String) × (parse_saml_utc_date_time written ≡ some value)
    × (t.parse_rfc3339 value ≡ some at)

abbrev pub IsEndless : Node → Type 0
IsEndless n = attr "validUntil" n ≡ none

-- An element that ends at this instant at the earliest.
abbrev pub EndsFrom : TimeLibrary → ℤ → Node → Type 0
EndsFrom t first n = IsEndless n ⊎ ((at : ℤ) × EndsAt t at n × (first ≤ℤ at))

-- No element ends, or the first of them ends at this instant.
abbrev pub IsFirstEnd : TimeLibrary → List Node → Option ℤ → Type 0
IsFirstEnd t nodes none = All IsEndless nodes
IsFirstEnd t nodes (some first) = All (EndsFrom t first) nodes × Any (EndsAt t first) nodes

module _ (t : TimeLibrary) where
  valid_until-EndsAt :
      (n : Node) (written : String) (at : ℤ)
      → attr "validUntil" n ≡ some written
      → valid_until t written ≡ ok at
      → EndsAt t at n
  unfolding valid_until
  valid_until-EndsAt n written at present h =
      let (value, fits, h1) =
        >>=-eq-ok (ok_or (parse_saml_utc_date_time written) invalid_expiration) _ h in
      (written, present, value, ok_or-ok _ _ value fits, ok_or-ok _ _ at h1)

  expiration_from-some :
      (nodes : List Node) (c : ℤ) (out : Option ℤ)
      → expiration_from t (some c) nodes ≡ ok out
      → (u : ℤ) × (out ≡ some u)
        × (u ≤ℤ c)
        × All (EndsFrom t u) nodes
        × ((u ≡ c) ⊎ Any (EndsAt t u) nodes)
  unfolding expiration_from
  expiration_from-some [] c out h = (c, of_ok (λ o. o ≡ some c) h refl, omega arith, tt, inl refl)
  expiration_from-some (n ∷ nodes) c out h = elim (Option-cases (attr "validUntil" n)) [
    | inl endless ↦
        let (u, is_out, le_c, all, from) =
          expiration_from-some nodes c out (rw (expiration_from, endless) at h) in
        (
          u,
          is_out,
          le_c,
          (inl endless, all),
          elim from [ inl same ↦ inl same | inr later ↦ inr (Any.there later) ],
        )
    | inr (written, present) ↦
        let (d, read, rest) =
          >>=-eq-ok (valid_until t written) _ (rw (expiration_from, present) at h) in
        let at = valid_until-EndsAt n written d present read in
        let (m, kept, le_c, le_d, chosen) = lesser c d in
        let (u, is_out, le_m, all, from) = expiration_from-some nodes m out (rw kept at rest) in
        (
          u,
          is_out,
          omega arith,
          (inr (d, at, omega arith), all),
          elim from [
            | inr later ↦ inr (Any.there later)
            | inl same ↦ elim chosen [
              | inl first ↦ inl (rw same first)
              | inr second ↦ inr (Any.here (rw (same, second) at))
            ]
          ],
        )
  ]

  expiration_from-none :
      (nodes : List Node) (out : Option ℤ)
      → expiration_from t none nodes ≡ ok out
      → IsFirstEnd t nodes out
  unfolding expiration_from
  expiration_from-none [] out h = of_ok (IsFirstEnd t []) h tt
  expiration_from-none (n ∷ nodes) out h = elim (Option-cases (attr "validUntil" n)) [
    | inl endless ↦
        without n nodes endless out
          (expiration_from-none nodes out (rw (expiration_from, endless) at h))
    | inr (written, present) ↦
        let (d, read, rest) =
          >>=-eq-ok (valid_until t written) _ (rw (expiration_from, present) at h) in
        let at = valid_until-EndsAt n written d present read in
        let (u, is_out, le_d, all, from) = expiration_from-some nodes d out rest in
        rw is_out (
          (inr (d, at, le_d), all),
          elim from [ inl same ↦ Any.here {x = n} (rw same at) | inr later ↦ Any.there later ],
        )
  ]
    where
      without :
          (n : Node) (nodes : List Node)
          → IsEndless n
          → (out : Option ℤ) → IsFirstEnd t nodes out
          → IsFirstEnd t (n ∷ nodes) out
      without n nodes endless none all = (endless, all)
      without n nodes endless (some first) (all, one) = ((inl endless, all), Any.there one)

  -- The deadline of a document is the earliest at which the document or one of its roles ends, so that
  -- no other extends it; and there is none exactly where none of them ends.
  pub effective_expiration-IsFirstEnd :
      (root : Node) (roles : List Node) (out : Option ℤ)
      → effective_expiration t root roles ≡ ok out
      → IsFirstEnd t (root ∷ roles) out
  unfolding effective_expiration
  effective_expiration-IsFirstEnd root roles out h = expiration_from-none (root ∷ roles) out h
