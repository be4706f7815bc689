-- ===== src/Flow/Audience/Sound.antt =====
-- When `audience_restrictions_contain` (src/flow.rs) finds the expected audience.
use risaml.Prelude.{
  String, true, false, Option, none, some, List, [], ◌∷◌, any, ok, >>=-eq-ok, of_ok, ◌==◌,
  string_eq, option_eq, eq_iff, ◌≡◌, ◌≢◌, refl, ap, inl, inr, Any, All, Bool-cases, Result-cases,
}
use risaml.Libraries.Unicode.{UnicodeLibrary}
use risaml.Libraries.Xml.{XmlLibrary}
use risaml.Util.Value.{Value, null, str, array, object, nil, cons, get, as_str, to_list}
use risaml.Xml.Dom.{XmlLimits}
use risaml.Xml.Extract.{extract_with_limits}
use risaml.Flow.Audience.{
  audience_field, audience_restriction_field, names_audience, audience_restriction_contains,
  all_restrictions_contain, restrictions_contain, audience_restrictions_contain,
}

-- The audience is the only one, or one of several.
abbrev pub NamesAudience : String → Option Value → Type 0
NamesAudience expected (some (str audience)) = audience ≡ expected
NamesAudience expected (some (array audiences)) = Any (λ v. v ≡ str expected) (to_list audiences)
NamesAudience expected _ = ⊥

any_str :
    (expected : String) (vs : List Value)
    → any (λ v. as_str v == some expected) vs ≡ true
    → Any (λ v. v ≡ str expected) vs
any_str expected [] h = cc
any_str expected (str s ∷ vs) h = elim (Bool-cases (s == expected)) [
  | inl same ↦ Any.here (ap str ((eq_iff s expected).0 same))
  | inr other ↦ Any.there (any_str expected vs (rw other at h))
]
any_str expected (null ∷ vs) h = Any.there (any_str expected vs h)
any_str expected (array _ ∷ vs) h = Any.there (any_str expected vs h)
any_str expected (object _ ∷ vs) h = Any.there (any_str expected vs h)

names_audience-NamesAudience :
    (expected : String) (found : Option Value)
    → names_audience expected found ≡ true
    → NamesAudience expected found
unfolding names_audience
names_audience-NamesAudience expected none h = cc
names_audience-NamesAudience expected (some null) h = cc
names_audience-NamesAudience expected (some (str s)) h = (eq_iff s expected).0 h
names_audience-NamesAudience expected (some (array vs)) h = any_str expected (to_list vs) h
names_audience-NamesAudience expected (some (object es)) h = cc

module _ (unicode : UnicodeLibrary) (xml : XmlLibrary) (expected : String)
    (limits : XmlLimits) where
  -- A restriction that names the audience.
  abbrev pub Admits : String → Type 0
  Admits restriction =
      (extracted : Value) × (extract_with_limits unicode xml limits restriction
          (audience_field ∷ [])
        ≡ ok extracted)
      × NamesAudience expected (get extracted "audience")

  -- What was extracted is one restriction, or several, and each of them admits.
  abbrev IsAdmitting : Value → Type 0
  IsAdmitting v = (r : String) × (v ≡ str r) × Admits r

  abbrev pub AllAdmit : Option Value → Type 0
  AllAdmit (some (str restriction)) = Admits restriction
  AllAdmit (some (array vs)) = (vs ≢ nil) × All IsAdmitting (to_list vs)
  AllAdmit _ = ⊥

  audience_restriction_contains-Admits :
      (restriction : String)
      → audience_restriction_contains unicode xml expected limits restriction ≡ ok true
      → Admits restriction
  unfolding audience_restriction_contains
  audience_restriction_contains-Admits restriction h =
      let (extracted, read, h1) =
        >>=-eq-ok (extract_with_limits unicode xml limits restriction (audience_field ∷ [])) _ h in
      (
        extracted,
        read,
        names_audience-NamesAudience expected (get extracted "audience")
            (of_ok (λ b. names_audience expected (get extracted "audience") ≡ b) h1 refl),
      )

  all_restrictions_contain-All :
      (vs : List Value)
      → all_restrictions_contain unicode xml expected limits vs ≡ ok true
      → All IsAdmitting vs
  unfolding all_restrictions_contain
  all_restrictions_contain-All [] h = tt
  all_restrictions_contain-All (str r ∷ vs) h =
      elim (Result-cases (audience_restriction_contains unicode xml expected limits r)) [
        | inl (true, contained) ↦ (
          (r, refl, audience_restriction_contains-Admits r contained),
          all_restrictions_contain-All vs (rw (all_restrictions_contain, contained) at h),
        )
        | inl (false, missing) ↦ cc (rw (all_restrictions_contain, missing) at h)
        | inr (e, failed) ↦ cc (rw (all_restrictions_contain, failed) at h)
      ]
  all_restrictions_contain-All (null ∷ vs) h = cc
  all_restrictions_contain-All (array _ ∷ vs) h = cc
  all_restrictions_contain-All (object _ ∷ vs) h = cc

  restrictions_contain-AllAdmit :
      (found : Option Value)
      → restrictions_contain unicode xml expected limits found ≡ ok true
      → AllAdmit found
  unfolding restrictions_contain
  restrictions_contain-AllAdmit none h = cc
  restrictions_contain-AllAdmit (some null) h = cc
  restrictions_contain-AllAdmit (some (object es)) h = cc
  restrictions_contain-AllAdmit (some (str r)) h = audience_restriction_contains-Admits r h
  restrictions_contain-AllAdmit (some (array nil)) h = cc
  restrictions_contain-AllAdmit (some (array (cons v vs))) h =
      ((λ e. cc), all_restrictions_contain-All (v ∷ to_list vs) h)

  -- The conditions of the assertion restrict the audience, and each restriction admits.
  abbrev pub IsFor : Option String → Type 0
  IsFor assertion =
      (text : String) × (assertion ≡ some text)
      × (extracted : Value) × (extract_with_limits unicode xml limits text
            (audience_restriction_field ∷ [])
          ≡ ok extracted)
      × AllAdmit (get extracted "audienceRestriction")

  -- An assertion is for an audience only if its conditions restrict the audience, and every one of
  -- their restrictions names it.
  pub audience_restrictions_contain-AllAdmit :
      (assertion : Option String)
      → audience_restrictions_contain unicode xml expected limits assertion ≡ ok true
      → IsFor assertion
  unfolding audience_restrictions_contain
  audience_restrictions_contain-AllAdmit none h = cc
  audience_restrictions_contain-AllAdmit (some text) h =
      let (extracted, read, h1) =
        >>=-eq-ok (extract_with_limits unicode xml limits text (audience_restriction_field ∷ [])) _
          h in
      (
        text,
        refl,
        extracted,
        read,
        restrictions_contain-AllAdmit (get extracted "audienceRestriction") h1,
      )
