-- ===== src/Crypto/Verify/Gathering.antt =====
-- What the loop over the certificates of `verify_signatures_detailed_with_limits`
-- (src/crypto/verify.rs) has gathered.
use risaml.Prelude.{
  String, Bool, true, ◌||◌, List, [], ◌∷◌, ◌++◌, ok, >>=-eq-ok, of_ok, ◌≡◌, refl, ◌∙◌, ◌⊎◌, inl,
  inr, Any, All, All-append, arith, Result-cases, Bool-cases,
}
use risaml.Libraries.Xml.{XmlLibrary}
use risaml.Libraries.Crypto.{CryptoLibrary, VerifyResult, VerifiedReference}
use risaml.Crypto.Keys.{load_certificate}
use risaml.Crypto.Targets.{VerifiedTarget, verified_targets}
use risaml.Crypto.Targets.Laws.{AllTrusted, verified_targets-AllTrusted}
use risaml.Crypto.Verify.{context, Gathered, first_is_valid, gather_results, gather_certificates}

-- The result is valid, and the target is one of those of its references, which are all trusted.
abbrev pub Yields : VerifiedTarget → VerifyResult → Type 0
Yields t r =
    (references : List VerifiedReference) × (targets : List VerifiedTarget) × (r
      ≡ VerifyResult.valid references)
    × AllTrusted references targets
    × Any (λ u. u ≡ t) targets

-- The backend's results for the certificate's key have a property.
abbrev pub HasResults : CryptoLibrary → String → (List VerifyResult → Type 0) → String → Type 0
HasResults crypto source P cert =
    (key : crypto.Key) × (results : List VerifyResult) × (load_certificate crypto cert ≡ ok key)
    × (crypto.verify_all (context key) source ≡ ok results)
    × P results

pub All-map :
    {A : Type 0} {P Q : A → Type 0} (xs : List A) → ((a : A) → P a → Q a) → All P xs → All Q xs
All-map [] f h = tt
All-map (x ∷ xs) f (p, h) = (f x p, All-map xs f h)

All-members : {A : Type 0} (xs : List A) → All (λ a. Any (λ u. u ≡ a) xs) xs
All-members [] = tt
All-members (x ∷ xs) = (Any.here refl, All-map xs (λ a m. Any.there m) (All-members xs))

gather_results-Yields :
    (Q : VerifiedTarget → Type 0) (rs : List VerifyResult) (g out : Gathered)
    → gather_results rs g ≡ ok out
    → All Q g.targets
    → All (λ t. Q t ⊎ Any (Yields t) rs) out.targets
      × (out.first_signature_verified ≡ g.first_signature_verified)
unfolding gather_results
gather_results-Yields Q [] g out h all =
    of_ok
      (λ (o : Gathered).
        All (λ t. Q t ⊎ Any (Yields t) []) o.targets
        × (o.first_signature_verified ≡ g.first_signature_verified))
      h (All-map g.targets (λ t q. inl q) all, refl)
gather_results-Yields Q (VerifyResult.valid references ∷ rest) g out h all =
    let (targets, found, h1) = >>=-eq-ok (verified_targets references) _ h in
    let trusted = (verified_targets-AllTrusted references targets found).1 in
    let yields : All (λ t. Yields t (VerifyResult.valid references)) targets =
      All-map targets (λ t m. (references, targets, refl, trusted, m)) (All-members targets) in
    let both : All (λ t. Q t ⊎ Yields t (VerifyResult.valid references)) (g.targets ++ targets) =
      All-append _ g.targets targets (All-map g.targets (λ t q. inl q) all)
        (All-map targets (λ t y. inr y) yields) in
    let (later, same) =
      gather_results-Yields (λ t. Q t ⊎ Yields t (VerifyResult.valid references)) rest _ out h1
        both in
    (
      All-map out.targets
          (λ t y. elim y [
            | inl (inl q) ↦ inl q
            | inl (inr now) ↦ inr (Any.here now)
            | inr after ↦ inr (Any.there after)
          ])
          later,
      same,
    )
gather_results-Yields Q (VerifyResult.invalid ∷ rest) g out h all =
    let (later, same) = gather_results-Yields Q rest _ out h all in
    (
      All-map out.targets (λ t y. elim y [ inl q ↦ inl q | inr after ↦ inr (Any.there after) ])
          later,
      same,
    )

or_true : (a b : Bool) → (a || b) ≡ true → (a ≡ true) ⊎ (b ≡ true)
or_true a b h = ground arith

module _ (crypto : CryptoLibrary) (xml : XmlLibrary) (source : String) where
  -- The certificate yields the target; the first signature is valid for it.
  abbrev pub YieldsTarget : VerifiedTarget → String → Type 0
  YieldsTarget t = HasResults crypto source (λ results. Any (Yields t) results)

  abbrev pub VerifiesFirst : String → Type 0
  VerifiesFirst = HasResults crypto source (λ results. first_is_valid results ≡ true)

  -- What is known behind some certificates is known behind one more.
  abbrev IsSound : (VerifiedTarget → Type 0) → List String → Bool → Gathered → Type 0
  IsSound Q certs first out =
      All (λ t. Q t ⊎ Any (YieldsTarget t) certs) out.targets
      × ((out.first_signature_verified ≡ first) ⊎ Any VerifiesFirst certs)

  one_more :
      (Q : VerifiedTarget → Type 0) (cert : String) (certs : List String) (first : Bool)
      (out : Gathered)
      → IsSound Q certs first out
      → IsSound Q (cert ∷ certs) first out
  one_more Q cert certs first out (sound, flag) = (
    All-map out.targets (λ t y. elim y [ inl q ↦ inl q | inr later ↦ inr (Any.there later) ]) sound,
    elim flag [ inl same ↦ inl same | inr later ↦ inr (Any.there later) ],
  )

  first_of :
      (cert : String) (certs : List String) (key : crypto.Key) (results : List VerifyResult)
      (before : Bool) (out : Gathered)
      → load_certificate crypto cert ≡ ok key
      → crypto.verify_all (context key) source ≡ ok results
      → out.first_signature_verified ≡ (before || first_is_valid results)
      → (out.first_signature_verified ≡ before) ⊎ Any VerifiesFirst (cert ∷ certs)
  first_of cert certs key results before out loaded read flag =
      elim (Bool-cases (first_is_valid results)) [
        | inl valid ↦ inr (Any.here (key, results, loaded, read, valid))
        | inr not_first ↦ inl (ground arith)
      ]

  pub gather_certificates-IsSound :
      (Q : VerifiedTarget → Type 0) (certs : List String) (g out : Gathered)
      → gather_certificates crypto xml source certs g ≡ ok out
      → All Q g.targets
      → IsSound Q certs g.first_signature_verified out
  unfolding gather_certificates
  gather_certificates-IsSound Q [] g out h all =
      of_ok (IsSound Q [] g.first_signature_verified) h
        (All-map g.targets (λ t q. inl q) all, inl refl)
  gather_certificates-IsSound Q (cert ∷ certs) g out h all =
      elim (Result-cases (load_certificate crypto cert)) [
        | inr (e, unread) ↦
            one_more Q cert certs g.first_signature_verified out (
              gather_certificates-IsSound Q certs _ out (rw (gather_certificates, unread) at h) all)
        | inl (key, loaded) ↦ elim (Result-cases (crypto.verify_all (context key) source)) [
          | inr (e, broken) ↦ one_more Q cert certs g.first_signature_verified out (
              gather_certificates-IsSound Q certs _ out
                (rw (gather_certificates, loaded, broken) at h) all)
          | inl (results, read) ↦
              let h0 = rw (gather_certificates, loaded, read) at h in
              let (next, gathered, h1) = >>=-eq-ok (gather_results results _) _ h0 in
              let (yields, same) = gather_results-Yields Q results _ next gathered all in
              let (sound, flag) =
                gather_certificates-IsSound (λ t. Q t ⊎ Any (Yields t) results) certs next out h1
                  yields in
              (
                All-map out.targets
                    (λ t y. elim y [
                      | inl (inl q) ↦ inl q
                      | inl (inr now) ↦ inr (Any.here (key, results, loaded, read, now))
                      | inr later ↦ inr (Any.there later)
                    ])
                    sound,
                elim flag [
                  | inl kept ↦
                      first_of cert certs key results g.first_signature_verified out loaded read
                        (kept ∙ same)
                  | inr later ↦ inr (Any.there later)
                ],
              )
        ]
      ]
