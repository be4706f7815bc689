-- ===== src/Flow/Params/Laws.antt =====
-- A parameter that is read stands in the request once.
use risaml.Prelude.{
  String, false, none, some, List, [], ◌∷◌, ◌++◌, ok, ◌≡◌, refl, ap, ◌↔◌, ◌==◌, string_eq, eq_iff,
  eq_refl, Bool-cases, inl, inr, All, arith,
}
use risaml.Flow.Params.{Parameters, values_of, only_value, single_param}

-- No pair has this key.
abbrev pub Lacks : String → Parameters → Type 0
Lacks key params = All (λ p. (p.0 == key) ≡ false) params

-- One pair has this key, and this is its value.
abbrev pub HasOnly : String → String → Parameters → Type 0
HasOnly key value params =
    (before : Parameters) × (after : Parameters) × (params ≡ before ++ ((key, value) ∷ after))
    × Lacks key before
    × Lacks key after

values_of-Lacks :
    (key : String) (params : Parameters) → values_of params key ≡ [] → Lacks key params
values_of-Lacks key [] h = tt
values_of-Lacks key (p ∷ params) h = elim (Bool-cases (p.0 == key)) [
  | inl same ↦ cc (rw same at h)
  | inr other ↦ (other, values_of-Lacks key params (rw other at h))
]

Lacks-values_of :
    (key : String) (params : Parameters) → Lacks key params → values_of params key ≡ []
Lacks-values_of key [] h = refl
Lacks-values_of key (p ∷ params) (other, h) = rw other (Lacks-values_of key params h)

values_of-HasOnly :
    (key value : String) (params : Parameters)
    → values_of params key ≡ value ∷ []
    → HasOnly key value params
values_of-HasOnly key value [] h = cc
values_of-HasOnly key value (p ∷ params) h = elim (Bool-cases (p.0 == key)) [
  | inl same ↦
      let h1 = rw same at h in
      let e : p.0 ≡ key = (eq_iff p.0 key).0 same in
      let v : p.1 ≡ value = cc h1 in
      let rest : values_of params key ≡ [] = cc h1 in
      ([], params, rw (← e, ← v) refl, tt, values_of-Lacks key params rest)
  | inr other ↦
      let (before, after, shape, lacks, lacks_too) =
        values_of-HasOnly key value params (rw other at h) in
      (p ∷ before, after, ap (λ (ps : Parameters). p ∷ ps) shape, (other, lacks), lacks_too)
]

HasOnly-values_of :
    (key value : String) (before after : Parameters)
    → Lacks key before
    → Lacks key after
    → values_of (before ++ ((key, value) ∷ after)) key ≡ value ∷ []
HasOnly-values_of key value [] after h k = rw (eq_refl key, Lacks-values_of key after k)
HasOnly-values_of key value (p ∷ before) after (other, h) k =
    rw other (HasOnly-values_of key value before after h k)

only_value-some : (vs : List String) (v : String) → only_value vs ≡ ok (some v) → vs ≡ v ∷ []
only_value-some vs v h = ground arith

only_value-none : (vs : List String) → only_value vs ≡ ok none → vs ≡ []
only_value-none vs h = ground arith

-- A value is read exactly if one pair has the key, and that value.
pub single_param_lem :
    (params : Parameters) (key value : String)
    → (single_param params key ≡ ok (some value)) ↔ HasOnly key value params
unfolding single_param
single_param_lem params key value = (
  (λ h. values_of-HasOnly key value params (only_value-some (values_of params key) value h)),
  λ (before, after, shape, lacks, lacks_too).
      rw (shape, HasOnly-values_of key value before after lacks lacks_too) refl,
)

-- No value is read exactly if no pair has the key.
pub single_param-Lacks :
    (params : Parameters) (key : String) → (single_param params key ≡ ok none) ↔ Lacks key params
unfolding single_param
single_param-Lacks params key = (
  (λ h. values_of-Lacks key params (only_value-none (values_of params key) h)),
  λ lacks. rw (Lacks-values_of key params lacks) refl,
)
