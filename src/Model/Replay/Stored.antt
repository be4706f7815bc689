-- ===== src/Model/Replay/Stored.antt =====
-- What a replay check that passes has stored (src/model/validation.rs).
use risaml.Prelude.{
  suc, Option, none, some, ok, >>=-eq-ok, fail_if-ok, ok_or-ok, fail_if, ok_or, ◌==◌, nat_eq, ◌≡◌,
  inl, inr, arith, Result-cases, ℤ, pos, negsuc, neg, ◌<ℤ◌, eq_of_parts, +ℤ_parts, neg_parts,
}
use risaml.Libraries.Time.{TimeLibrary, IsLawful}
use risaml.Model.Replay.{
  ReplayKey, ReplayCache, ReplayPolicy, ValidationContext, replay_expiration,
  system_time_from_offset_datetime, message_replay_expires_at, replay_expires_at,
  check_and_store_message_replay_until,
}

-- The expiry is the deadline that was derived; without one it lies behind the instant of validation.
abbrev pub IsExpiry : ℤ → Option ℤ → ℤ → Type 0
IsExpiry now none expires = now <ℤ expires
IsExpiry now (some deadline) expires = expires ≡ deadline

module _ (t : TimeLibrary) (lawful : IsLawful t) where
  system_time_from_offset_datetime-eq :
      (deadline expires : ℤ)
      → system_time_from_offset_datetime t deadline ≡ ok expires
      → expires ≡ deadline
  unfolding system_time_from_offset_datetime
  system_time_from_offset_datetime-eq (pos n) expires h =
      let sum = lawful.system_checked_add_lem (pos 0) n expires (ok_or-ok _ _ expires h) in
      rw sum (eq_of_parts _ _ (omega (arith, +ℤ_parts (pos 0) (pos n))))
  system_time_from_offset_datetime-eq (negsuc n) expires h =
      let sum = lawful.system_checked_sub_lem (pos 0) (suc n) expires (ok_or-ok _ _ expires h) in
      rw sum (
        eq_of_parts _ _
          (omega (arith, +ℤ_parts (pos 0) (neg (pos (suc n))), neg_parts (pos (suc n)))))

module _ {S : Type 0} (t : TimeLibrary) (lawful : IsLawful t) where
  message_replay_expires_at-lt :
      (c : ValidationContext S) (expires : ℤ)
      → message_replay_expires_at t c ≡ ok expires
      → c.now <ℤ expires
  unfolding message_replay_expires_at
  message_replay_expires_at-lt c expires h =
      let (retention, _, h1) = >>=-eq-ok (ok_or c.replay_retention replay_expiration) _ h in
      let (u, lasting, h2) = >>=-eq-ok (fail_if (retention == 0) _) _ h1 in
      let positive = fail_if-ok _ _ u lasting in
      let sum = lawful.system_checked_add_lem c.now retention expires (ok_or-ok _ _ expires h2) in
      rw sum (ground (arith, +ℤ_parts c.now (pos retention)))

  replay_expires_at-IsExpiry :
      (c : ValidationContext S) (deadline : Option ℤ) (expires : ℤ)
      → replay_expires_at t c deadline ≡ ok expires
      → IsExpiry c.now deadline expires
  unfolding replay_expires_at
  replay_expires_at-IsExpiry c none expires h = message_replay_expires_at-lt c expires h
  replay_expires_at-IsExpiry c (some deadline) expires h =
      system_time_from_offset_datetime-eq t lawful deadline expires h

  -- A replay check that passes under a policy that requires a cache has the cache accept the key,
  -- with an expiry that is the derived deadline or, without one, lies behind the instant of
  -- validation; the storage behind it is the cache's.
  pub check_and_store_message_replay_until-IsExpiry :
      (c : ValidationContext S) (cache : ReplayCache S) (storage next : S) (key : ReplayKey)
      (deadline : Option ℤ)
      → c.replay ≡ ReplayPolicy.require_cache cache
      → check_and_store_message_replay_until t c storage key deadline ≡ (next, ok tt)
      → (expires : ℤ) × IsExpiry c.now deadline expires
        × (cache.check_and_store storage key expires ≡ (next, ok tt))
  unfolding check_and_store_message_replay_until
  check_and_store_message_replay_until-IsExpiry c cache storage next key deadline required h =
      elim (Result-cases (replay_expires_at t c deadline)) [
        | inl (expires, derived) ↦ (
          expires,
          replay_expires_at-IsExpiry c deadline expires derived,
          rw (check_and_store_message_replay_until, required, derived) at h,
        )
        | inr (e, failed) ↦ cc (rw (check_and_store_message_replay_until, required, failed) at h)
      ]
