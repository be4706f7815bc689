-- ===== src/Browser/Pending/Lifetime.antt =====
-- The deadline of a pending request (src/browser/pending.rs), as a bound on the instant at which
-- the request is completed.
use risaml.Prelude.{
  suc, false, none, some, ◌≡◌, refl, ◌↔◌, inl, inr, ok, >>=-eq-ok, fail_if-ok, ℤ, pos, negsuc, neg,
  ◌<ℤ◌, le_int, arith, Option-cases, eq_of_parts, +ℤ_parts, neg_parts,
}
use risaml.Libraries.Time.{TimeLibrary, IsLawful}
use risaml.Model.Identifiers.{SamlInstant}
use risaml.Validator.{offset_datetime_from_system_time}
use risaml.Browser.Pending.{Pending}
use risaml.Browser.Pending.Deadline.{validate_at}

module _ (t : TimeLibrary) (lawful : IsLawful t) where
  pub offset_datetime_from_system_time-eq :
      (now i : ℤ) → offset_datetime_from_system_time t now ≡ ok i → i ≡ now
  unfolding offset_datetime_from_system_time
  offset_datetime_from_system_time-eq (pos n) i h = elim (Option-cases (t.from_std n)) [
    | inl out ↦ cc (rw out at h)
    | inr (d, elapsed) ↦ elim (Option-cases (t.checked_add (pos 0) d)) [
      | inl out ↦ cc (rw (elapsed, out) at h)
      | inr (u, sum) ↦
          let e : u ≡ i = cc (rw (elapsed, sum) at h) in
          let duration : d ≡ pos n = lawful.from_std_lem n d elapsed in
          rw (← e, lawful.checked_add_lem (pos 0) d u sum, duration)
            (eq_of_parts _ _ (omega (arith, +ℤ_parts (pos 0) (pos n))))
    ]
  ]
  offset_datetime_from_system_time-eq (negsuc n) i h = elim (Option-cases (t.from_std (suc n))) [
    | inl out ↦ cc (rw out at h)
    | inr (d, elapsed) ↦ elim (Option-cases (t.checked_add (pos 0) (neg d))) [
      | inl out ↦ cc (rw (elapsed, out) at h)
      | inr (u, sum) ↦
          let e : u ≡ i = cc (rw (elapsed, sum) at h) in
          let duration : d ≡ pos (suc n) = lawful.from_std_lem (suc n) d elapsed in
          rw (← e, lawful.checked_add_lem (pos 0) (neg d) u sum, duration)
            (eq_of_parts _ _
              (omega (arith, +ℤ_parts (pos 0) (neg (pos (suc n))), neg_parts (pos (suc n)))))
    ]
  ]

  -- A request with a deadline that is accepted at an instant has a deadline that can be read and
  -- lies behind the instant.
  pub validate_at-lt :
      {D : Type 0} (p : Pending D) (now : ℤ) (text : SamlInstant)
      → validate_at t p now ≡ ok tt
      → p.expires_at ≡ some text
      → (deadline : ℤ) × (t.parse_rfc3339 text.text ≡ some deadline) × (now <ℤ deadline)
  unfolding validate_at
  validate_at-lt p now text h limited =
      let (i, instant, h1) = >>=-eq-ok (offset_datetime_from_system_time t now) _ h in
      let same = offset_datetime_from_system_time-eq now i instant in
      elim (Option-cases (t.parse_rfc3339 text.text)) [
        | inl unread ↦ cc (rw (limited, unread) at h1)
        | inr (deadline, read) ↦
            let h2 = rw (limited, read) at h1 in
            let later : le_int deadline now ≡ false = rw (← same) (fail_if-ok _ _ tt h2) in
            (deadline, read, ground arith)
      ]

  -- An instant that the conversion takes.
  abbrev pub IsConverted : ℤ → Type 0
  IsConverted now = offset_datetime_from_system_time t now ≡ ok now

  validate_at-IsConverted :
      {D : Type 0} (p : Pending D) (now : ℤ) → validate_at t p now ≡ ok tt → IsConverted now
  unfolding validate_at
  validate_at-IsConverted p now h =
      let (i, instant, _) = >>=-eq-ok (offset_datetime_from_system_time t now) _ h in
      rw (offset_datetime_from_system_time-eq now i instant) at instant

  -- The requests that are accepted at an instant, by their deadline.
  pub validate_at_endless :
      {D : Type 0} (p : Pending D) (now : ℤ)
      → p.expires_at ≡ none
      → (validate_at t p now ≡ ok tt) ↔ IsConverted now
  unfolding validate_at
  validate_at_endless p now endless =
      (validate_at-IsConverted p now, λ converted. rw (converted, endless) refl)

  pub validate_at_limited :
      {D : Type 0} (p : Pending D) (now deadline : ℤ) (text : SamlInstant)
      → p.expires_at ≡ some text
      → t.parse_rfc3339 text.text ≡ some deadline
      → (validate_at t p now ≡ ok tt) ↔ (IsConverted now × (now <ℤ deadline))
  unfolding validate_at
  validate_at_limited p now deadline text limited read = (
    (λ h.
        let (d, same, later) = validate_at-lt p now text h limited in
        let e : d ≡ deadline = cc in (validate_at-IsConverted p now h, rw (← e) later)),
    λ (converted, later).
        let open_ : le_int deadline now ≡ false = ground arith in
        rw (converted, limited, read, open_) refl,
  )
