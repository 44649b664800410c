-- ===== src/Sfu/Examples.antt =====
-- Concrete streams for the theorems on the quality control loop.
use screen_sharing.Prelude.{ℕ, ◌≡◌, refl, true, false, none, [], ◌∷◌}
use screen_sharing.Prelude.Text.{units}
use screen_sharing.Sfu.Governor.{Governor, StreamState, is_unhealthy, bandwidth}

abbrev governor : Governor
governor = record { base_kbps = 8_000; loss_threshold = 50_000; recovery_windows = 4; streams = [] }

-- A stream at the third rung, with a loss of so many millionths.
abbrev stream : ℕ → StreamState
stream loss = record {
  owner_peer_id = units "bob";
  level = 2;
  paused = false;
  healthy_streak = 0;
  last_reason = bandwidth;
  subs =
      (
        units "eve",
        record {
          stream_id = units "s1";
          subscriber_peer_id = units "eve";
          fraction_lost = loss;
          rtt_ms = 20;
          fps = 30;
        },
      )
      ∷ [];
  pub_sample = none;
}

clean_healthy : is_unhealthy 50_000 (stream 1_000) ≡ false
unfolding is_unhealthy
clean_healthy = refl

lossy_unhealthy : is_unhealthy 50_000 (stream 90_000) ≡ true
unfolding is_unhealthy
lossy_unhealthy = refl

-- A stream at the second rung that has had three good windows.
abbrev begun : StreamState
begun = record (stream 1_000) { healthy_streak = 3 }
