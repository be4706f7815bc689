-- ===== src/Crypto/Targets/Laws.antt =====
-- Reference URIs and verified references of src/crypto/verify.rs.
use Prim.Native.String as Text
use risaml.Prelude.{
  String, Bool, true, false, ◌&&◌, ◌||◌, not, some, List, [], ◌∷◌, ok, fail_if, traverse, ◌==◌,
  string_eq, is_nil, ◌≡◌, ◌≢◌, refl, ap, >>=-eq-ok, ◌⊎◌, inl, inr, Result-cases, Option-cases,
  Bool-cases, of_ok, fail_if-ok,
}
use risaml.Prelude.Text.{is_empty, strip_prefix, starts_with}
use risaml.Prelude.Text.Affixes.{strip_prefix_lem, strip_suffix_lem}
use risaml.Errors.{SamlResult}
use risaml.Libraries.Crypto.{VerifiedReference}
use risaml.Crypto.Targets.{
  VerifiedTarget, xpointer_id, fragment_target, verified_target_from_uri, is_external_reference,
  verified_target, verified_targets, is_id,
}

-- The URIs that name an element by its identifier.
abbrev pub NamesId : String → String → Type 0
NamesId uri v =
    (uri ≡ Text.◌++◌ "#" v) ⊎ (uri ≡ Text.◌++◌ "#" (Text.◌++◌ "xpointer(id('" (Text.◌++◌ v "'))")))

ok_eq : {A : Type 0} {a b : A} → ◌≡◌ {A = SamlResult A} (ok a) (ok b) → a ≡ b
ok_eq h = cc

id_eq : {v w : String} → VerifiedTarget.id v ≡ VerifiedTarget.id w → v ≡ w
id_eq h = cc

xpointer_id_lem :
    (fragment v : String)
    → xpointer_id fragment ≡ some v
    → fragment ≡ Text.◌++◌ "xpointer(id('" (Text.◌++◌ v "'))")
unfolding xpointer_id
xpointer_id_lem fragment v h = elim (Option-cases (strip_prefix "xpointer(id('" fragment)) [
  | inl absent ↦ cc (rw (xpointer_id, absent) at h)
  | inr (rest, stripped) ↦
      rw (← strip_suffix_lem "'))" rest v (rw (xpointer_id, stripped) at h))
        (strip_prefix_lem "xpointer(id('" fragment rest stripped)
]

not_empty : (v : String) → is_empty v ≡ false → v ≢ ""
not_empty v h e = cc (rw e at h)

fragment_target-id :
    (fragment v : String)
    → fragment_target fragment ≡ ok (VerifiedTarget.id v)
    → (v ≢ "") × NamesId (Text.◌++◌ "#" fragment) v
unfolding fragment_target
fragment_target-id fragment v h = elim (Bool-cases (is_empty fragment)) [
  | inl empty ↦ cc (rw empty at h)
  | inr full ↦ elim (Option-cases (xpointer_id fragment)) [
    | inl plain ↦ elim (Bool-cases (starts_with "xpointer(" fragment)) [
      | inl other ↦ cc (rw (full, plain, other) at h)
      | inr bare ↦
          let e : fragment ≡ v = id_eq (ok_eq (rw (full, plain, bare) at h)) in
          rw (← e) (not_empty fragment full, inl refl)
    ]
    | inr (name, pointer) ↦ elim (Bool-cases (is_empty name)) [
      | inl blank ↦ cc (rw (full, pointer, blank) at h)
      | inr filled ↦
          let e : name ≡ v = id_eq (ok_eq (rw (full, pointer, filled) at h)) in
          rw (← e) (
            not_empty name filled,
            inr (ap (Text.◌++◌ "#") (xpointer_id_lem fragment name pointer)),
          )
    ]
  ]
]

-- A URI that is read as an identifier is a fragment that is that identifier, or an `xpointer` of
-- it, and the identifier is not empty.
pub verified_target_from_uri-id :
    (uri v : String)
    → verified_target_from_uri uri ≡ ok (VerifiedTarget.id v)
    → (v ≢ "") × NamesId uri v
unfolding verified_target_from_uri
verified_target_from_uri-id uri v h = elim (Bool-cases (is_empty uri || uri == "#xpointer(/)")) [
  | inl whole ↦ cc (rw whole at h)
  | inr part ↦ elim (Option-cases (strip_prefix "#" uri)) [
    | inl outside ↦ cc (rw (part, outside) at h)
    | inr (fragment, stripped) ↦
        rw (strip_prefix_lem "#" uri fragment stripped)
          (fragment_target-id fragment v (rw (part, stripped) at h))
  ]
]

-- What a reference must be for its target to count.
abbrev pub IsTrusted : VerifiedReference → VerifiedTarget → Type 0
IsTrusted r target =
    (is_external_reference r.uri ≡ false)
    × (r.digest_verified ≡ true)
    × (verified_target_from_uri r.uri ≡ ok target)
    × ((target ≡ VerifiedTarget.whole_document) ⊎ (r.is_resolved ≡ true))

-- The targets are those of the references, in order, each one trusted.
pub data AllTrusted : List VerifiedReference → List VerifiedTarget → Type 0 where
  none_left : AllTrusted [] []
  and_then :
      {r : VerifiedReference} {t : VerifiedTarget} {rs : List VerifiedReference}
      {ts : List VerifiedTarget}
      → IsTrusted r t
      → AllTrusted rs ts
      → AllTrusted (r ∷ rs) (t ∷ ts)

verified_target-IsTrusted :
    (r : VerifiedReference) (t : VerifiedTarget) → verified_target r ≡ ok t → IsTrusted r t
unfolding verified_target
verified_target-IsTrusted r t h =
    let (u, inside, h1) = >>=-eq-ok (fail_if (is_external_reference r.uri) _) _ h in
    let (w, digested, h2) = >>=-eq-ok (fail_if (not r.digest_verified) _) _ h1 in
    let (target, read, h3) = >>=-eq-ok (verified_target_from_uri r.uri) _ h2 in
    let (x, resolved, h4) = >>=-eq-ok (fail_if (is_id target && not r.is_resolved) _) _ h3 in
    of_ok (IsTrusted r) h4 (
      fail_if-ok _ _ u inside,
      is_verified r.digest_verified (fail_if-ok _ _ w digested),
      read,
      is_resolved_if target r.is_resolved (fail_if-ok _ _ x resolved),
    )
  where
    is_verified : (b : Bool) → not b ≡ false → b ≡ true
    is_verified true h = refl
    is_verified false h = cc

    is_resolved_if :
        (target : VerifiedTarget) (resolved : Bool)
        → (is_id target && not resolved) ≡ false
        → (target ≡ VerifiedTarget.whole_document) ⊎ (resolved ≡ true)
    is_resolved_if VerifiedTarget.whole_document resolved h = inl refl
    is_resolved_if (VerifiedTarget.id v) true h = inr refl
    is_resolved_if (VerifiedTarget.id v) false h = cc

traverse-AllTrusted :
    (rs : List VerifiedReference) (ts : List VerifiedTarget)
    → traverse verified_target rs ≡ ok ts
    → AllTrusted rs ts
traverse-AllTrusted [] ts h = of_ok (AllTrusted []) h AllTrusted.none_left
traverse-AllTrusted (r ∷ rs) ts h =
    let (t, first, h1) = >>=-eq-ok (verified_target r) _ h in
    elim (Result-cases (traverse verified_target rs)) [
      | inl (others, rest) ↦ of_ok (AllTrusted (r ∷ rs)) (rw rest at h1) (
          AllTrusted.and_then (verified_target-IsTrusted r t first)
            (traverse-AllTrusted rs others rest))
      | inr (e, failed) ↦ cc (rw failed at h1)
    ]

-- Targets come from at least one reference, and every one from a reference of its own that is in
-- the document, has a verified digest and is resolved, unless it is the whole document.
pub verified_targets-AllTrusted :
    (rs : List VerifiedReference) (ts : List VerifiedTarget)
    → verified_targets rs ≡ ok ts
    → (rs ≢ []) × AllTrusted rs ts
unfolding verified_targets
verified_targets-AllTrusted rs ts h =
    let (u, some_left, h1) = >>=-eq-ok (fail_if (is_nil rs) _) _ h in
    ((λ e. cc (fail_if-ok _ _ u some_left)), traverse-AllTrusted rs ts h1)
