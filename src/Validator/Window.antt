-- ===== src/Validator/Window.antt =====
-- Time windows, as predicates on instants.
use risaml.Prelude.{
  String, Bool, true, ◌&&◌, Option, none, some, ◌≡◌, ◌≢◌, refl, ◌↔◌, arith, ℤ, ◌+ℤ◌, ◌≤ℤ◌, ◌<ℤ◌,
  Option-cases, inl, inr,
}
use risaml.Libraries.Time.{TimeLibrary, IsLawful}
use risaml.Validator.{
  is_some_and, verify_time_at, milliseconds, not_before_holds, not_on_or_after_holds,
}

-- A bound that is present was parsed, shifting it by the drift stays in the crate's range, and the
-- instant `now` is on the right side of the shifted bound.
abbrev pub StartsBy : TimeLibrary → ℤ → ℤ → Option String → Type 0
StartsBy t now drift none = Unit
StartsBy t now drift (some text) =
    (bound : ℤ) × (t.parse_rfc3339 text ≡ some bound)
    × (t.checked_add bound (milliseconds drift) ≢ none)
    × (bound +ℤ milliseconds drift ≤ℤ now)

abbrev pub EndsAfter : TimeLibrary → ℤ → ℤ → Option String → Type 0
EndsAfter t now drift none = Unit
EndsAfter t now drift (some text) =
    (bound : ℤ) × (t.parse_rfc3339 text ≡ some bound)
    × (t.checked_add bound (milliseconds drift) ≢ none)
    × (now <ℤ bound +ℤ milliseconds drift)

module _ (t : TimeLibrary) (lawful : IsLawful t) (now drift bound : ℤ) where
  not_before_holds_iff :
      (not_before_holds t now drift bound ≡ true)
      ↔ ((t.checked_add bound (milliseconds drift) ≢ none) × (bound +ℤ milliseconds drift ≤ℤ now))
  unfolding not_before_holds
  not_before_holds_iff = elim (Option-cases (t.checked_add bound (milliseconds drift))) [
    | inl out ↦ rw out (λ h. cc, λ h. absurd (h.0 refl))
    | inr (u, shifted) ↦
        let sum = lawful.checked_add_lem bound (milliseconds drift) u shifted in
        rw (shifted, ← sum) (λ h. ((λ e. cc), ground arith), λ h. ground arith)
  ]

  not_on_or_after_holds_iff :
      (not_on_or_after_holds t now drift bound ≡ true)
      ↔ ((t.checked_add bound (milliseconds drift) ≢ none) × (now <ℤ bound +ℤ milliseconds drift))
  unfolding not_on_or_after_holds
  not_on_or_after_holds_iff = elim (Option-cases (t.checked_add bound (milliseconds drift))) [
    | inl out ↦ rw out (λ h. cc, λ h. absurd (h.0 refl))
    | inr (u, shifted) ↦
        let sum = lawful.checked_add_lem bound (milliseconds drift) u shifted in
        rw (shifted, ← sum) (λ h. ((λ e. cc), ground arith), λ h. ground arith)
  ]

module _ (t : TimeLibrary) (lawful : IsLawful t) (now drift : ℤ) (text : String) where
  StartsBy-iff :
      (is_some_and (not_before_holds t now drift) (t.parse_rfc3339 text) ≡ true)
      ↔ StartsBy t now drift (some text)
  StartsBy-iff = (
    (λ h. elim (Option-cases (t.parse_rfc3339 text)) [
      | inl unread ↦ cc (rw unread at h)
      | inr (b, read) ↦
          let holds = (not_before_holds_iff t lawful now drift b).0 (rw read at h) in
          (b, read, holds.0, holds.1)
    ]),
    λ h. rw (h.1) ((not_before_holds_iff t lawful now drift (h.0)).1 (h.2, h.3)),
  )

  EndsAfter-iff :
      (is_some_and (not_on_or_after_holds t now drift) (t.parse_rfc3339 text) ≡ true)
      ↔ EndsAfter t now drift (some text)
  EndsAfter-iff = (
    (λ h. elim (Option-cases (t.parse_rfc3339 text)) [
      | inl unread ↦ cc (rw unread at h)
      | inr (b, read) ↦
          let holds = (not_on_or_after_holds_iff t lawful now drift b).0 (rw read at h) in
          (b, read, holds.0, holds.1)
    ]),
    λ h. rw (h.1) ((not_on_or_after_holds_iff t lawful now drift (h.0)).1 (h.2, h.3)),
  )

and_iff : (a b : Bool) → ((a && b) ≡ true) ↔ ((a ≡ true) × (b ≡ true))
and_iff a b = ground arith

both_bounds :
    (t : TimeLibrary) (b a : String) (drift : ℤ × ℤ) (now : ℤ)
    → verify_time_at t (some b) (some a) drift now ≡ (
        is_some_and (not_before_holds t now drift.0) (t.parse_rfc3339 b)
        && is_some_and (not_on_or_after_holds t now drift.1) (t.parse_rfc3339 a))
unfolding verify_time_at
both_bounds t b a drift now = ground arith

module _ (t : TimeLibrary) (lawful : IsLawful t) where
  -- With a lawful clock, the test holds exactly if every bound that is present can be read and
  -- shifted by its drift, `now` is not before the shifted start, and is before the shifted end.
  pub verify_time_at_lem :
      (nb na : Option String) (drift : ℤ × ℤ) (now : ℤ)
      → (verify_time_at t nb na drift now ≡ true)
        ↔ (StartsBy t now drift.0 nb × EndsAfter t now drift.1 na)
  unfolding verify_time_at
  verify_time_at_lem none none drift now = (λ _. (tt, tt), λ _. refl)
  verify_time_at_lem (some b) none drift now =
      let starts = StartsBy-iff t lawful now drift.0 b in (λ h. (starts.0 h, tt), λ h. starts.1 h.0)
  verify_time_at_lem none (some a) drift now =
      let ends = EndsAfter-iff t lawful now drift.1 a in (λ h. (tt, ends.0 h), λ h. ends.1 h.1)
  verify_time_at_lem (some b) (some a) drift now =
      let starts = StartsBy-iff t lawful now drift.0 b in
      let ends = EndsAfter-iff t lawful now drift.1 a in
      rw (both_bounds t b a drift now) (
        (λ h. let both = (and_iff _ _).0 h in (starts.0 both.0, ends.0 both.1)),
        λ h. (and_iff _ _).1 (starts.1 h.0, ends.1 h.1),
      )
