-- ===== src/Signaling/Examples.antt =====
-- Concrete runs for the theorems on rate limits and heartbeats.
use screen_sharing.Prelude.{
  ℕ, ◌≤◌, ◌≡◌, refl, true, false, none, some, List, [], ◌∷◌, length, keep_if, leb, if◌then◌else◌,
  arith,
}
use screen_sharing.Prelude.Text.{units, js_string_eq}
use screen_sharing.Signaling.RateLimit.{
  default_rate_limit, Bucket, Buckets, empty_bucket, is_fresh, take_bucket,
}
use screen_sharing.Signaling.RateLimit.Window.{attempts, allowed_within_burst}
use screen_sharing.Signaling.Heartbeat
use screen_sharing.Signaling.Heartbeat.{Heartbeat}
use screen_sharing.Signaling.Heartbeat.Liveness.{
  Event, starts, ticks, pongs, run, deaths, silence, IsWaiting, IsAnswered, round_events,
  on_dead_once, dead_after_max_missed, IsAnswered-stays_alive,
}

-- Six attempts, of which the sixth is one too many.
abbrev six_times : List ℕ
six_times = 1_000 ∷ 2_000 ∷ 3_000 ∷ 4_000 ∷ 5_000 ∷ 6_000 ∷ []

allowed_within_burst_example :
    length (
      keep_if
        (is_fresh default_rate_limit.window_ms 6_500)
        (attempts default_rate_limit empty_bucket [] six_times).1)
    ≤ default_rate_limit.burst
allowed_within_burst_example =
    allowed_within_burst default_rate_limit six_times 6_500
      (omega arith, (omega arith, (omega arith, (omega arith, (omega arith, (omega arith, tt))))))
      (omega arith)

-- Five attempts within the window.
abbrev full_bucket : Bucket
full_bucket = record {
  hits = 1_000 ∷ 2_000 ∷ 3_000 ∷ 4_000 ∷ 5_000 ∷ [];
  blocked_until = 0;
  overflow_count = 0;
}

sixth_waits : (take_bucket default_rate_limit 6_000 full_bucket).1 ≡ some 2_000
unfolding take_bucket
sixth_waits = refl

abbrev two_buckets : Buckets
two_buckets = (units "10.0.0.1", full_bucket) ∷ (units "10.0.0.2", empty_bucket) ∷ []

abbrev lossy_events : List Event
lossy_events =
    starts 1 0 ∷ ticks 2 10 ∷ pongs 2 11 ∷ ticks 3 20 ∷ ticks 4 30 ∷ ticks 5 40 ∷ ticks 6 50 ∷ []

on_dead_once_example :
    deaths (run (Heartbeat.new 3) lossy_events).1
    ≡ (if (run (Heartbeat.new 3) lossy_events).0.dead then 1 else 0)
on_dead_once_example = on_dead_once 3 lossy_events

-- A peer that has been sent its first ping.
abbrev pinged : Heartbeat
pinged = record {
  max_missed = 3;
  missed = 0;
  outstanding = some 1;
  last_pong_at = 0;
  dead = false;
  started = true;
}

pinged-IsWaiting : IsWaiting 0 pinged
pinged-IsWaiting = record { is_started = refl; is_live = refl; counted = refl; owes = λ e. cc }

dead_after_max_missed_example :
    (run pinged (silence ((2, 10) ∷ (3, 20) ∷ (4, 30) ∷ []))).0.dead ≡ leb 3 3
dead_after_max_missed_example =
    dead_after_max_missed pinged ((2, 10) ∷ (3, 20) ∷ (4, 30) ∷ []) pinged-IsWaiting (omega arith)

abbrev quiet : Heartbeat
quiet = record pinged { outstanding = none }

quiet-IsAnswered : IsAnswered quiet
quiet-IsAnswered = record {
  is_started = refl;
  is_live = refl;
  none_missed = refl;
  owes_nothing = refl;
}

IsAnswered-stays_alive_example :
    IsAnswered (run quiet (round_events ((2, 10, (9, 11) ∷ [], 12) ∷ (3, 20, [], 21) ∷ []))).0
IsAnswered-stays_alive_example =
    IsAnswered-stays_alive quiet ((2, 10, (9, 11) ∷ [], 12) ∷ (3, 20, [], 21) ∷ []) quiet-IsAnswered
      ((λ e. omega arith, tt), (tt, tt))
