-- ===== src/Browser/Pending/Shortened.antt =====
-- The lifetime that src/browser/pending.rs gives to a pending request, by the instants at which the
-- request is accepted then.
use risaml.Prelude.{
  ℕ, false, Option, none, some, ◌≡◌, ◌≢◌, ◌∙◌, refl, ◌↔◌, inl, inr, ok, >>=-eq-ok, of_ok,
  fail_if-ok, fail_if, ok_or, ok_or-ok, map_ok, map_err, map_err-ok, ℤ, pos, ◌+ℤ◌, ◌<ℤ◌, ◌≤ℤ◌,
  lt_int, arith, if◌then◌else◌, ◌==◌, nat_eq, Result-cases, Option-cases, Bool-cases,
}
use risaml.Libraries.Time.{TimeLibrary, IsLawful}
use risaml.Model.Identifiers.{SamlInstant}
use risaml.Validator.{offset_datetime_from_system_time}
use risaml.Browser.Pending.{Pending, pending_expired}
use risaml.Browser.Pending.Deadline.{
  serialize, completion_deadline, validate_at, with_local_lifetime, record_issue, is_later,
}
use risaml.Browser.Pending.Lifetime.{
  offset_datetime_from_system_time-eq, validate_at_endless, validate_at_limited,
}

-- The issue instant is kept, or it is the text of the present.
abbrev pub IsIssued : TimeLibrary → ℤ → Option SamlInstant → Option SamlInstant → Type 0
IsIssued t now none after = (text : SamlInstant) × (serialize t now ≡ ok text) × (after ≡ some text)
IsIssued t now (some issue) after = after ≡ some issue

-- The text that is written for an instant is read as the instant.
abbrev pub IsReadBack : TimeLibrary → ℤ → Type 0
IsReadBack t i = (text : SamlInstant) → serialize t i ≡ ok text → t.parse_rfc3339 text.text ≡ some i

-- The deadline behind a lifetime that ends here: the end, if it comes before the old deadline, and
-- the old deadline otherwise.
pub data IsShortened (t : TimeLibrary) (end : ℤ) (before after : Option SamlInstant) : Type 0 where
  first :
      (text : SamlInstant)
      → before ≡ none
      → serialize t end ≡ ok text
      → after ≡ some text
      → IsShortened t end before after
  sooner :
      (old text : SamlInstant) (deadline : ℤ)
      → before ≡ some old
      → t.parse_rfc3339 old.text ≡ some deadline
      → end <ℤ deadline
      → serialize t end ≡ ok text
      → after ≡ some text
      → IsShortened t end before after
  kept :
      (old : SamlInstant) (deadline : ℤ)
      → before ≡ some old
      → t.parse_rfc3339 old.text ≡ some deadline
      → deadline ≤ℤ end
      → after ≡ some old
      → IsShortened t end before after

module _ {D : Type 0} (t : TimeLibrary) where
  record_issue-IsIssued :
      (now : ℤ) (p issued : Pending D)
      → record_issue t now p ≡ ok issued
      → IsIssued t now p.issued_at issued.issued_at × (issued.expires_at ≡ p.expires_at)
  unfolding record_issue
  record_issue-IsIssued now p issued h = elim (Option-cases p.issued_at) [
    | inl new ↦ elim (Result-cases (serialize t now)) [
      | inl (text, made) ↦
          of_ok (λ q. IsIssued t now p.issued_at q.issued_at × (q.expires_at ≡ p.expires_at))
            (rw (new, made) at h) (rw new (text, made, refl), refl)
      | inr (e, failed) ↦ cc (rw (new, failed) at h)
    ]
    | inr (text, old) ↦
        of_ok (λ q. IsIssued t now p.issued_at q.issued_at × (q.expires_at ≡ p.expires_at))
          (rw old at h) (rw old refl, refl)
  ]

  shorten :
      (issued q : Pending D) (end : ℤ) (existing : Option ℤ)
      → completion_deadline t issued ≡ ok existing
      → (if is_later end existing
          then map_ok (λ i. record issued { expires_at = some i }) (serialize t end)
          else ok issued)
        ≡ ok q
      → (q.issued_at ≡ issued.issued_at) × IsShortened t end issued.expires_at q.expires_at
  unfolding completion_deadline
  shorten issued q end existing known h = elim (Option-cases issued.expires_at) [
    | inl endless ↦
        let none_known : none ≡ existing = of_ok (λ e. none ≡ e) (rw endless at known) refl in
        elim (Result-cases (serialize t end)) [
          | inl (text, made) ↦
              of_ok
                (λ r.
                  (r.issued_at ≡ issued.issued_at)
                  × IsShortened t end issued.expires_at r.expires_at)
                (rw (← none_known, made) at h) (refl, IsShortened.first text endless made refl)
          | inr (e, failed) ↦ cc (rw (← none_known, failed) at h)
        ]
    | inr (old, limited) ↦ elim (Option-cases (t.parse_rfc3339 old.text)) [
      | inl unread ↦ cc (rw (limited, unread) at known)
      | inr (deadline, read) ↦
          let is_known : some deadline ≡ existing =
            of_ok (λ e. some deadline ≡ e) (rw (limited, read) at known) refl in
          by_deadline old deadline limited read (rw (← is_known) at h)
    ]
  ]
    where
      by_deadline :
          (old : SamlInstant) (deadline : ℤ)
          → issued.expires_at ≡ some old
          → t.parse_rfc3339 old.text ≡ some deadline
          → (if is_later end (some deadline)
              then map_ok (λ i. record issued { expires_at = some i }) (serialize t end)
              else ok issued)
            ≡ ok q
          → (q.issued_at ≡ issued.issued_at) × IsShortened t end issued.expires_at q.expires_at
      by_deadline old deadline limited read e = elim (Bool-cases (lt_int end deadline)) [
        | inl before ↦ elim (Result-cases (serialize t end)) [
          | inl (text, made) ↦
              of_ok
                (λ r.
                  (r.issued_at ≡ issued.issued_at)
                  × IsShortened t end issued.expires_at r.expires_at)
                (rw (before, made) at e)
                (refl, IsShortened.sooner old text deadline limited read (ground arith) made refl)
          | inr (x, failed) ↦ cc (rw (before, failed) at e)
        ]
        | inr after ↦
            of_ok
              (λ r.
                (r.issued_at ≡ issued.issued_at) × IsShortened t end issued.expires_at r.expires_at)
              (rw after at e)
              (refl, IsShortened.kept old deadline limited read (ground arith) limited)
      ]

  with_local_lifetime-IsShortened :
      (lawful : IsLawful t) (p q : Pending D) (now : ℤ) (lifetime : ℕ)
      → with_local_lifetime t p now lifetime ≡ ok q
      → (lifetime ≢ 0)
        × IsIssued t now p.issued_at q.issued_at
        × IsShortened t (now +ℤ pos lifetime) p.expires_at q.expires_at
  unfolding with_local_lifetime
  with_local_lifetime-IsShortened lawful p q now lifetime h =
      let (u, positive, h1) = >>=-eq-ok (fail_if (lifetime == 0) _) _ h in
      let (end, ends, h2) =
        >>=-eq-ok (ok_or (t.system_checked_add now lifetime) pending_expired) _ h1 in
      let (instant, converted, h3) =
        >>=-eq-ok (map_err (λ _. pending_expired) (offset_datetime_from_system_time t now)) _ h2 in
      let (expires, converted_end, h4) =
        >>=-eq-ok (map_err (λ _. pending_expired) (offset_datetime_from_system_time t end)) _ h3 in
      let (issued, dated, h5) = >>=-eq-ok (record_issue t instant p) _ h4 in
      let (existing, known, h6) = >>=-eq-ok (completion_deadline t issued) _ h5 in
      let nonzero : (lifetime == 0) ≡ false = fail_if-ok _ _ u positive in
      let lasting : lifetime ≢ 0 = λ e. cc (rw e at nonzero) in
      let is_now : instant ≡ now =
        offset_datetime_from_system_time-eq t lawful now instant
          (map_err-ok _ _ instant converted) in
      let is_end : expires ≡ now +ℤ pos lifetime =
        offset_datetime_from_system_time-eq t lawful end expires
          (map_err-ok _ _ expires converted_end)
        ∙ lawful.system_checked_add_lem now lifetime end (ok_or-ok _ _ end ends) in
      let (is_issued, same_deadline) = record_issue-IsIssued instant p issued dated in
      let (same_issue, shortened) = shorten issued q expires existing known h6 in
      (lasting, rw (← is_now, same_issue) is_issued, rw (← is_end, ← same_deadline) shortened)

  validate_at-shortened :
      (lawful : IsLawful t) (p q : Pending D) (end x : ℤ)
      → IsReadBack t end
      → IsShortened t end p.expires_at q.expires_at
      → (validate_at t q x ≡ ok tt) ↔ ((validate_at t p x ≡ ok tt) × (x <ℤ end))
  validate_at-shortened lawful p q end x reads (IsShortened.first text endless made is_text) =
      let after = validate_at_limited t lawful q x end text is_text (reads text made) in
      let before = validate_at_endless t lawful p x endless in
      (λ h. (before.1 (after.0 h).0, (after.0 h).1), λ (h, early). after.1 (before.0 h, early))
  validate_at-shortened lawful p q end x reads
        (IsShortened.sooner old text deadline limited read ahead made is_text) =
      let after = validate_at_limited t lawful q x end text is_text (reads text made) in
      let before = validate_at_limited t lawful p x deadline old limited read in
      (
        (λ h. let (converted, early) = after.0 h in (before.1 (converted, omega arith), early)),
        λ (h, early). after.1 ((before.0 h).0, early),
      )
  validate_at-shortened lawful p q end x reads
        (IsShortened.kept old deadline limited read in_time is_old) =
      let after = validate_at_limited t lawful q x deadline old is_old read in
      let before = validate_at_limited t lawful p x deadline old limited read in
      (
        (λ h. let (converted, early) = after.0 h in (before.1 (converted, early), omega arith)),
        λ (h, early). after.1 (before.0 h),
      )

  -- A request that is given a lifetime, which is not zero, has an issue instant: its own, or the
  -- present. From then on it is accepted exactly at the instants at which it was accepted before and
  -- that come before the present with the lifetime, where the clock is lawful and the text that is
  -- written for that end is read as the end.
  pub with_local_lifetime-validate_at :
      IsLawful t
      → (p q : Pending D) (now : ℤ) (lifetime : ℕ) (x : ℤ) → IsReadBack t (now +ℤ pos lifetime)
      → with_local_lifetime t p now lifetime ≡ ok q
      → (lifetime ≢ 0)
        × IsIssued t now p.issued_at q.issued_at
        × ((validate_at t q x ≡ ok tt) ↔ ((validate_at t p x ≡ ok tt) × (x <ℤ now +ℤ pos lifetime)))
  with_local_lifetime-validate_at lawful p q now lifetime x reads h =
      let (lasting, issued, shortened) =
        with_local_lifetime-IsShortened lawful p q now lifetime h in
      (lasting, issued, validate_at-shortened lawful p q (now +ℤ pos lifetime) x reads shortened)
