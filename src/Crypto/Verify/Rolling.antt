-- ===== src/Crypto/Verify/Rolling.antt =====
-- Certificates that cannot be loaded, in the loop of src/crypto/verify.rs.
use risaml.Prelude.{
  String, Bool, true, false, Option, List, [], ◌∷◌, Result, ok, err, any, filter, ◌≡◌, refl, ◌⊎◌,
  inl, inr, Result-cases,
}
use risaml.Errors.{SamlError}
use risaml.Libraries.Xml.{XmlLibrary}
use risaml.Libraries.Crypto.{CryptoLibrary, VerifyResult}
use risaml.Xml.Dom.Tree.{Node}
use risaml.Crypto.Keys.{load_certificate}
use risaml.Crypto.Verify.{context, Attempts, unloadable, no_verdict, try_certificates}

abbrev pub is_ok {ℓ κ} : {E : Type ℓ} {A : Type κ} → Result E A → Bool
is_ok (ok _) = true
is_ok (err _) = false

unfoldable pub is_loadable : CryptoLibrary → String → Bool
is_loadable crypto cert = is_ok (load_certificate crypto cert)

module _ (crypto : CryptoLibrary) (xml : XmlLibrary) (root : Node) (source : String) where
  filter-loaded :
      (cert : String) (certs : List String) (key : crypto.Key)
      → load_certificate crypto cert ≡ ok key
      → filter (is_loadable crypto) (cert ∷ certs) ≡ cert ∷ filter (is_loadable crypto) certs
  unfolding is_loadable
  filter-loaded cert certs key loaded = rw loaded refl

  filter-unread :
      (cert : String) (certs : List String) (e : SamlError)
      → load_certificate crypto cert ≡ err e
      → filter (is_loadable crypto) (cert ∷ certs) ≡ filter (is_loadable crypto) certs
  unfolding is_loadable
  filter-unread cert certs e unread = rw unread refl

  any-unread :
      (cert : String) (certs : List String) (e : SamlError) (a : Attempts)
      → load_certificate crypto cert ≡ err e
      → (a.have_key ≡ true) ⊎ (any (is_loadable crypto) (cert ∷ certs) ≡ true)
      → (a.have_key ≡ true) ⊎ (any (is_loadable crypto) certs ≡ true)
  unfolding is_loadable
  any-unread cert certs e a unread some_key = rw unread at some_key

  -- Leaving the certificates out that cannot be loaded does not change what the loop returns, as
  -- long as one can, or one was loaded before it; nor does an error of loading that was kept.
  pub try_certificates-filter :
      (certs : List String) (a : Attempts) (kept : Option SamlError)
      → (a.have_key ≡ true) ⊎ (any (is_loadable crypto) certs ≡ true)
      → try_certificates crypto xml root source certs a
        ≡ try_certificates crypto xml root source
            (filter (is_loadable crypto) certs)
            (record a { key_load_error = kept })
  unfolding try_certificates no_verdict
  try_certificates-filter [] a kept (inl has) = rw has
  try_certificates-filter [] a kept (inr absent) = cc
  try_certificates-filter (cert ∷ certs) a kept some_key =
      elim (Result-cases (load_certificate crypto cert)) [
        | inr (e, unread) ↦
            rw (filter-unread cert certs e unread, try_certificates, unread)
              (try_certificates-filter certs (unloadable e a) kept
                (any-unread cert certs e a unread some_key))
        | inl (key, loaded) ↦ elim (Result-cases (crypto.verify (context key) source)) [
          | inr (e, broken) ↦
              rw (filter-loaded cert certs key loaded, try_certificates, loaded, broken)
                (try_certificates-filter certs _ kept (inl refl))
          | inl (VerifyResult.invalid, refused) ↦
              rw (filter-loaded cert certs key loaded, try_certificates, loaded, refused)
                (try_certificates-filter certs _ kept (inl refl))
          | inl (VerifyResult.valid references, verified) ↦
              rw (filter-loaded cert certs key loaded, try_certificates, loaded, verified) refl
        ]
      ]
