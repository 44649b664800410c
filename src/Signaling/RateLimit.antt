-- ===== src/Signaling/RateLimit.antt =====
-- src/main/signaling/rate-limit.ts: handshake attempts per IP, by a sliding window and a backoff that
-- doubles. The clock's value is an argument; numbers are exact.
pub mod Window
pub mod Keys
use screen_sharing.Prelude.{
  ℕ, ◌+◌, ◌-◌, ◌*◌, ◌^◌, min, Bool, not, ◌&&◌, Option, none, some, List, [], ◌∷◌, ◌++◌, ltb, leb,
  if◌then◌else◌, length, keep_if, every,
}
use screen_sharing.Prelude.Dictionary.{Dictionary, get, set, delete}
use screen_sharing.Prelude.Text.{JsString, js_string_eq}

pub record RateLimitConfig : Type 0 where
  pub burst : ℕ
  pub window_ms : ℕ
  pub base_backoff_ms : ℕ
  pub max_backoff_ms : ℕ

abbrev pub default_rate_limit : RateLimitConfig
default_rate_limit = record {
  burst = 5;
  window_ms = 60_000;
  base_backoff_ms = 2_000;
  max_backoff_ms = 15 * 60_000;
}

pub record Bucket : Type 0 where
  pub hits : List ℕ
  pub blocked_until : ℕ
  pub overflow_count : ℕ

abbrev pub empty_bucket : Bucket
empty_bucket = record { hits = []; blocked_until = 0; overflow_count = 0 }

-- `now - t < windowMs`, over the integers.
abbrev pub is_fresh : ℕ → ℕ → ℕ → Bool
is_fresh window_ms now t = ltb now (t + window_ms)

-- The part of `take` that works on the bucket; `none` is `null`, the attempt is allowed.
unfoldable pub take_bucket : RateLimitConfig → ℕ → Bucket → Bucket × Option ℕ
take_bucket cfg now bucket =
    let hits = keep_if (is_fresh cfg.window_ms now) bucket.hits in
    let backoff = min (cfg.base_backoff_ms * 2 ^ bucket.overflow_count) cfg.max_backoff_ms in
    if ltb now bucket.blocked_until
    then (bucket, some (bucket.blocked_until - now))
    else if leb cfg.burst (length hits)
    then (
      record {
        hits = hits;
        blocked_until = now + backoff;
        overflow_count = bucket.overflow_count + 1;
      },
      some backoff,
    )
    else (record bucket { hits = hits ++ (now ∷ []) }, none)

abbrev pub Buckets : Type 0
Buckets = Dictionary JsString Bucket

abbrev pub or_empty : Option Bucket → Bucket
or_empty none = empty_bucket
or_empty (some bucket) = bucket

unfoldable pub take_attempt : RateLimitConfig → ℕ → JsString → Buckets → Buckets × Option ℕ
take_attempt cfg now key buckets =
    let (bucket, result) = take_bucket cfg now (or_empty (get key buckets)) in
    (set key bucket buckets, result)

-- Called on a successful handshake: reset the peer's standing.
unfoldable pub clear : JsString → Buckets → Buckets
clear key buckets = delete key buckets

unfoldable pub is_idle : RateLimitConfig → ℕ → Bucket → Bool
is_idle cfg now bucket =
    ltb bucket.blocked_until now && every (λ t. leb (t + cfg.window_ms) now) bucket.hits

-- Drop stale buckets.
unfoldable pub sweep : RateLimitConfig → ℕ → Buckets → Buckets
sweep cfg now [] = []
sweep cfg now ((key, bucket) ∷ rest) =
    if is_idle cfg now bucket then sweep cfg now rest else (key, bucket) ∷ sweep cfg now rest
