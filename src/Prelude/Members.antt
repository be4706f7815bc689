-- ===== src/Prelude/Members.antt =====
-- "Some element" through the operations on lists.
use mathlib.Core.Path.{◌≡◌, refl}
use mathlib.Core.Logic.{inl, inr}
use mathlib.Core.Bool.{Bool, true}
use mathlib.Core.Option.{Option, some}
use mathlib.Core.List.{List, [], ◌∷◌}
use risaml.Prelude.Tests.{Bool-cases, Option-cases}
use risaml.Prelude.Lists.{
  Any, Any-append_left, Any-append_right, Any-cases_append, filter, filter_map, flat_map, any,
}

module _ {ℓ κ} {A : Type ℓ} {P : A → Type κ} where
  -- The element that is meant, and back.
  pub Any-pick : {xs : List A} → Any P xs → (a : A) × Any (λ u. u ≡ a) xs × P a
  Any-pick (Any.here {x = x} p) = (x, Any.here refl, p)
  Any-pick (Any.there later) = let (a, at, p) = Any-pick later in (a, Any.there at, p)

  pub Any-put : {a : A} {xs : List A} → Any (λ u. u ≡ a) xs → P a → Any P xs
  Any-put (Any.here e) p = Any.here (rw e p)
  Any-put (Any.there later) p = Any.there (Any-put later p)

  pub Any-map {μ} : {Q : A → Type μ} {xs : List A} → ((a : A) → P a → Q a) → Any P xs → Any Q xs
  Any-map f (Any.here {x = x} p) = Any.here (f x p)
  Any-map f (Any.there later) = Any.there (Any-map f later)

  kept {μ} :
      {Q : A → Type μ} {x : A} {xs ys : List A}
      → (P x → Q x)
      → (Any P xs → Any Q ys)
      → Any P (x ∷ xs)
      → Any Q (x ∷ ys)
  kept f g (Any.here h) = Any.here (f h)
  kept f g (Any.there later) = Any.there (g later)

  pub Any-of_filter :
      (p : A → Bool) (xs : List A) → Any P (filter p xs) → Any (λ a. (p a ≡ true) × P a) xs
  Any-of_filter p [] later = elim later [ ]
  Any-of_filter p (x ∷ xs) a = elim (Bool-cases (p x)) [
    | inl keep ↦ kept (λ h. (keep, h)) (Any-of_filter p xs) (rw keep at a)
    | inr drop ↦ Any.there (Any-of_filter p xs (rw drop at a))
  ]

  pub Any-filter :
      (p : A → Bool) {xs : List A} → Any (λ a. (p a ≡ true) × P a) xs → Any P (filter p xs)
  Any-filter p (Any.here (keep, h)) = rw keep (Any.here h)
  Any-filter p (Any.there {x = x} later) = elim (Bool-cases (p x)) [
    | inl keep ↦ rw keep (Any.there (Any-filter p later))
    | inr drop ↦ rw drop (Any-filter p later)
  ]

module _ {ℓ κ μ} {A : Type ℓ} {B : Type κ} {P : B → Type μ} (f : A → List B) where
  pub Any-of_flat_map : (xs : List A) → Any P (flat_map f xs) → Any (λ a. Any P (f a)) xs
  Any-of_flat_map [] later = elim later [ ]
  Any-of_flat_map (x ∷ xs) a = elim (Any-cases_append (f x) (flat_map f xs) a) [
    | inl first ↦ Any.here first
    | inr later ↦ Any.there (Any-of_flat_map xs later)
  ]

  pub Any-flat_map : {xs : List A} → Any (λ a. Any P (f a)) xs → Any P (flat_map f xs)
  Any-flat_map (Any.here {xs = xs} first) = Any-append_left (flat_map f xs) first
  Any-flat_map (Any.there {x = x} later) = Any-append_right (f x) (Any-flat_map later)

module _ {ℓ κ μ} {A : Type ℓ} {B : Type κ} {P : B → Type μ} (f : A → Option B) where
  pub Any-filter_map :
      {xs : List A} → Any (λ a. (b : B) × (f a ≡ some b) × P b) xs → Any P (filter_map f xs)
  Any-filter_map (Any.here (b, e, h)) = rw (filter_map, e) (Any.here h)
  Any-filter_map (Any.there {x = x} later) = elim (Option-cases (f x)) [
    | inl out ↦ rw (filter_map, out) (Any-filter_map later)
    | inr (b, e) ↦ rw (filter_map, e) (Any.there (Any-filter_map later))
  ]

-- Some element passes the test.
pub any-true {ℓ} :
    {A : Type ℓ} (p : A → Bool) {xs : List A} → Any (λ a. p a ≡ true) xs → any p xs ≡ true
any-true p (Any.here h) = rw h refl
any-true p (Any.there {x = x} later) = elim (Bool-cases (p x)) [
  | inl yes_ ↦ rw yes_ refl
  | inr no_ ↦ rw no_ (any-true p later)
]
