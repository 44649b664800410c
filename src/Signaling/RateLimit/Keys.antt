-- ===== src/Signaling/RateLimit/Keys.antt =====
-- Sweeping the buckets forgives nothing that still counts.
use screen_sharing.Prelude.{ℕ, Option, none, some, if◌then◌else◌}
use screen_sharing.Prelude.Text.{js_string_eq}
use screen_sharing.Signaling.RateLimit.{RateLimitConfig, Bucket, is_idle}

-- What `sweep` leaves of a key.
abbrev kept : RateLimitConfig → ℕ → Option Bucket → Option Bucket
kept cfg now none = none
kept cfg now (some bucket) = if is_idle cfg now bucket then none else some bucket
