-- ===== src/Tests/Replay.antt =====
-- Replay checks (src/model/validation.rs) with a cache that is a list of keys.
use risaml.Prelude.{
  ℕ, String, Bool, true, false, Option, none, some, List, [], ◌∷◌, Result, ok, err, ◌≡◌, refl,
  contains, string_eq, if◌then◌else◌, ℤ, pos,
}
use risaml.Errors.{SamlError}
use risaml.Model.Replay.{
  ReplayKey, ReplayCache, ReplayPolicy, ValidationContext, cache_key,
  check_and_store_message_replay_until,
}
use risaml.Model.Replay.Stored.{IsExpiry, check_and_store_message_replay_until-IsExpiry}
use risaml.Tests.Browser.{clock, clock-IsLawful}

abbrev seen_keys : ReplayCache (List String)
seen_keys = record {
  check_and_store = λ seen key expires.
      if contains seen (cache_key key)
      then (seen, err (SamlError.replay_detected (cache_key key)))
      else (cache_key key ∷ seen, ok tt);
}

abbrev caller : ValidationContext (List String)
caller = record {
  now = pos 3;
  replay = ReplayPolicy.require_cache seen_keys;
  replay_retention = some 60;
}

abbrev key : ReplayKey
key = ReplayKey.response_id (record { text = "_r1" })

stored :
    check_and_store_message_replay_until clock caller [] key none ≡ ("response_id:_r1" ∷ [], ok tt)
unfolding check_and_store_message_replay_until risaml.Model.Replay.replay_expires_at
    risaml.Model.Replay.message_replay_expires_at cache_key risaml.Prelude.Text.concat
stored = refl

check_and_store_message_replay_until-IsExpiry_example :
    (expires : ℤ) × IsExpiry (pos 3) none expires
    × (seen_keys.check_and_store [] key expires ≡ ("response_id:_r1" ∷ [], ok tt))
check_and_store_message_replay_until-IsExpiry_example =
    check_and_store_message_replay_until-IsExpiry clock clock-IsLawful caller seen_keys []
      ("response_id:_r1" ∷ []) key none refl stored
