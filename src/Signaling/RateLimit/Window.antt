-- ===== src/Signaling/RateLimit/Window.antt =====
-- What the limiter allows over time.
use native.Mathlib.Nat.{le_refl}
use screen_sharing.Prelude.{
  ℕ, ◌+◌, ◌-◌, ◌*◌, ◌^◌, ◌≤◌, ◌<◌, ◌≡◌, ◌≢◌, ◌⊎◌, refl, sym, ap, ◌∙◌, min, Option, none, some, List,
  [], ◌∷◌, ◌++◌, length, keep_if, arith, length-append, inl, inr, Option-cases,
}
use screen_sharing.Prelude.Text.{js_string_eq}
use screen_sharing.Signaling.RateLimit.{
  RateLimitConfig, Bucket, empty_bucket, is_fresh, take_bucket,
}

-- The times of the allowed attempts, after one more.
abbrev pub log_after : List ℕ → ℕ → Option ℕ → List ℕ
log_after log now none = log ++ (now ∷ [])
log_after log now (some wait) = log

-- A bucket after attempts at the given times, with the times of those that were allowed.
unfoldable pub attempts : RateLimitConfig → Bucket → List ℕ → List ℕ → Bucket × List ℕ
attempts cfg bucket log [] = (bucket, log)
attempts cfg bucket log (now ∷ times) =
    attempts cfg (take_bucket cfg now bucket).0 (log_after log now (take_bucket cfg now bucket).1)
      times

abbrev pub IsChronological : ℕ → List ℕ → Type 0
IsChronological last [] = Unit {0}
IsChronological last (t ∷ ts) = (last ≤ t) × IsChronological t ts

abbrev pub last_time : ℕ → List ℕ → ℕ
last_time last [] = last
last_time last (t ∷ ts) = last_time t ts

keep_fresh-append :
    (w now : ℕ) (xs ys : List ℕ)
    → keep_if (is_fresh w now) (xs ++ ys)
      ≡ keep_if (is_fresh w now) xs ++ keep_if (is_fresh w now) ys
keep_fresh-append w now [] ys = refl
keep_fresh-append w now (x ∷ xs) ys = ground (arith, keep_fresh-append w now xs ys)

-- Dropping what is stale now loses nothing that is fresh later.
keep_fresh-later :
    (w now later : ℕ) (xs : List ℕ)
    → now ≤ later
    → keep_if (is_fresh w later) (keep_if (is_fresh w now) xs) ≡ keep_if (is_fresh w later) xs
keep_fresh-later w now later [] h = refl
keep_fresh-later w now later (x ∷ xs) h = ground (arith, keep_fresh-later w now later xs h)

keep_fresh-shorter :
    (w now later : ℕ) (xs : List ℕ)
    → now ≤ later
    → length (keep_if (is_fresh w later) xs) ≤ length (keep_if (is_fresh w now) xs)
keep_fresh-shorter w now later [] h = omega arith
keep_fresh-shorter w now later (x ∷ xs) h = ground (arith, keep_fresh-shorter w now later xs h)

module _ (cfg : RateLimitConfig) where
  -- The hits know every allowed attempt that still counts, and are within the burst.
  record Tracks (hits log : List ℕ) (last : ℕ) : Type 0 where
    known :
        (now : ℕ)
        → last ≤ now
        → keep_if (is_fresh cfg.window_ms now) log ≡ keep_if (is_fresh cfg.window_ms now) hits
    within : length (keep_if (is_fresh cfg.window_ms last) hits) ≤ cfg.burst

  module _ (hits log : List ℕ) (last now : ℕ) (h : last ≤ now) (s : Tracks hits log last) where
    abbrev cut : List ℕ
    cut = keep_if (is_fresh cfg.window_ms now) hits

    Tracks-later : Tracks hits log now
    Tracks-later = record {
      known = λ t later. s.known t (omega arith);
      within = omega (arith, keep_fresh-shorter cfg.window_ms last now hits h, s.within);
    }

    Tracks-cut : Tracks cut log now
    Tracks-cut = record {
      known = λ t later.
          s.known t (omega arith) ∙ sym (keep_fresh-later cfg.window_ms now t hits later);
      within = omega (
        arith,
        ap (length {A = ℕ}) (keep_fresh-later cfg.window_ms now now hits (le_refl now)),
        keep_fresh-shorter cfg.window_ms last now hits h,
        s.within,
      );
    }

    Tracks-push : length cut < cfg.burst → Tracks (cut ++ (now ∷ [])) (log ++ (now ∷ [])) now
    Tracks-push room = record {
      known = λ t later. rw (
        keep_fresh-append cfg.window_ms t log (now ∷ []),
        keep_fresh-append cfg.window_ms t cut (now ∷ []),
        s.known t (omega arith),
        keep_fresh-later cfg.window_ms now t hits later,
      );
      within =
          rw
            (
              keep_fresh-append cfg.window_ms now cut (now ∷ []),
              keep_fresh-later cfg.window_ms now now hits (le_refl now),
              length-append cut (keep_if (is_fresh cfg.window_ms now) (now ∷ [])),
            )
            (ground arith);
    }

-- The three ways of an attempt.
take_bucket_cases :
    (cfg : RateLimitConfig) (now : ℕ) (bucket : Bucket)
    → ((take_bucket cfg now bucket).0.hits ≡ bucket.hits) × ((take_bucket cfg now bucket).1 ≢ none)
      ⊎ ((take_bucket cfg now bucket).0.hits ≡ keep_if (is_fresh cfg.window_ms now) bucket.hits)
        × ((take_bucket cfg now bucket).1 ≢ none)
      ⊎ ((take_bucket cfg now bucket).0.hits
          ≡ keep_if (is_fresh cfg.window_ms now) bucket.hits ++ (now ∷ []))
        × ((take_bucket cfg now bucket).1 ≡ none)
        × (length (keep_if (is_fresh cfg.window_ms now) bucket.hits) < cfg.burst)
unfolding take_bucket
take_bucket_cases cfg now bucket = ground arith

Tracks-step :
    (cfg : RateLimitConfig) (bucket : Bucket) (log : List ℕ) (last now : ℕ)
    → last ≤ now
    → Tracks cfg bucket.hits log last
    → Tracks cfg
        (take_bucket cfg now bucket).0.hits
        (log_after log now (take_bucket cfg now bucket).1)
        now
Tracks-step cfg bucket log last now h s = elim (take_bucket_cases cfg now bucket) [
  | inl (hits, refused) ↦ rw hits (logged refused (Tracks-later cfg bucket.hits log last now h s))
  | inr (inl (hits, refused)) ↦
      rw hits (logged refused (Tracks-cut cfg bucket.hits log last now h s))
  | inr (inr (hits, allowed, room)) ↦
      rw (hits, allowed) (Tracks-push cfg bucket.hits log last now h s room)
]
  where
    logged :
        {hits : List ℕ}
        → (take_bucket cfg now bucket).1 ≢ none
        → Tracks cfg hits log now
        → Tracks cfg hits (log_after log now (take_bucket cfg now bucket).1) now
    logged refused t = elim (Option-cases (take_bucket cfg now bucket).1) [
      | inl e ↦ absurd (refused e)
      | inr (w, e) ↦ rw e t
    ]

Tracks-attempts :
    (cfg : RateLimitConfig) (times : List ℕ) (bucket : Bucket) (log : List ℕ) (last : ℕ)
    → IsChronological last times
    → Tracks cfg bucket.hits log last
    → Tracks cfg
        (attempts cfg bucket log times).0.hits
        (attempts cfg bucket log times).1
        (last_time last times)
unfolding attempts
Tracks-attempts cfg [] bucket log last c s = s
Tracks-attempts cfg (now ∷ times) bucket log last (c, cs) s =
    Tracks-attempts cfg times (take_bucket cfg now bucket).0 _ now cs
      (Tracks-step cfg bucket log last now c s)

-- Sliding window: of the attempts that were allowed by a fresh bucket, whatever the times of all
-- attempts, as long as the clock does not run backwards, at most `burst` lie less than `windowMs` before
-- the last attempt, or before any later time.
pub allowed_within_burst :
    (cfg : RateLimitConfig) (times : List ℕ) (now : ℕ)
    → IsChronological 0 times
    → last_time 0 times ≤ now
    → length (keep_if (is_fresh cfg.window_ms now) (attempts cfg empty_bucket [] times).1)
      ≤ cfg.burst
allowed_within_burst cfg times now c later =
    let t =
      Tracks-attempts cfg times empty_bucket [] 0 c
        (record { known = λ n h. refl; within = omega arith }) in
    rw (t.known now later) (
      omega (
        arith,
        t.within,
        keep_fresh-shorter cfg.window_ms (last_time 0 times) now
            (attempts cfg empty_bucket [] times).0.hits later,
      ))

-- A refused attempt asks the caller to wait at most the longest backoff, or what is left of an earlier
-- one; until that time has passed every further attempt is refused with what is left of it, and changes
-- nothing; and the first refusal of a round doubles the wait of the round before, up to the longest.
pub backoff_blocks :
    (cfg : RateLimitConfig) (now : ℕ) (bucket : Bucket) (wait later : ℕ)
    → (take_bucket cfg now bucket).1 ≡ some wait
    → now ≤ later
    → later < now + wait
    → (take_bucket cfg later (take_bucket cfg now bucket).0
        ≡ ((take_bucket cfg now bucket).0, some (now + wait - later)))
      × (bucket.blocked_until ≤ now
          → (wait ≡ min (cfg.base_backoff_ms * 2 ^ bucket.overflow_count) cfg.max_backoff_ms)
            × ((take_bucket cfg now bucket).0.overflow_count ≡ bucket.overflow_count + 1))
unfolding take_bucket
backoff_blocks cfg now bucket wait later e h k = (ground arith, λ p. (ground arith, ground arith))
