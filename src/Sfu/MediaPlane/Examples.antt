-- ===== src/Sfu/MediaPlane/Examples.antt =====
-- Concrete events and streams for the theorems on the media plane.
use screen_sharing.Prelude.{refl, true, false, none, some, List, [], ◌∷◌, ok, arith, All}
use screen_sharing.Prelude.Text.{units}
use screen_sharing.Protocol.{Body, StreamInfo}
use screen_sharing.Sfu.Governor
use screen_sharing.Sfu.MediaPlane
use screen_sharing.Sfu.MediaPlane.{MediaPlane, run_governor}
use screen_sharing.Sfu.MediaPlane.Governed.{
  Event, receives, published, evaluates, leaves, run, IsTracking, run-IsTracking,
}
use screen_sharing.Sfu.MediaPlane.Directives.{IsAccepted, run_governor-IsAccepted}

abbrev screen : StreamInfo
screen = record { stream_id = units "s1"; owner_peer_id = units "bob"; video = true; audio = true }

abbrev evening : List Event
evening =
    receives (units "bob") 4 (Body.publish_offer (units "s1") true true (units "v=0"))
    ∷ published screen 4 (record { video = true; audio = true }) (ok (some (units "v=0")))
    ∷ receives (units "eve") 5 (Body.subscribe (units "s1"))
    ∷ evaluates
    ∷ leaves (units "bob")
    ∷ []

run-IsTracking_example : IsTracking (run (MediaPlane.new (some 4_000)) evening)
run-IsTracking_example = run-IsTracking (some 4_000) evening

-- A stream at the third rung, whose viewer loses a tenth of the packets.
abbrev lossy : Governor.StreamState
lossy = record {
  owner_peer_id = units "bob";
  level = 2;
  paused = false;
  healthy_streak = 0;
  last_reason = Governor.bandwidth;
  subs =
      (
        units "eve",
        record {
          stream_id = units "s1";
          subscriber_peer_id = units "eve";
          fraction_lost = 100_000;
          rtt_ms = 20;
          fps = 30;
        },
      )
      ∷ [];
  pub_sample = none;
}

abbrev plane : MediaPlane
plane = record {
  router = record { publishers = []; subscriptions = []; closed = false };
  governor = record {
    base_kbps = 8_000;
    loss_threshold = 50_000;
    recovery_windows = 4;
    streams = (units "s1", lossy) ∷ [];
  };
}

run_governor-IsAccepted_example : All IsAccepted (run_governor plane).1
run_governor-IsAccepted_example = run_governor-IsAccepted plane (omega arith) (refl, tt)
