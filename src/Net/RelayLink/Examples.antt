-- ===== src/Net/RelayLink/Examples.antt =====
-- Concrete links and attempts for the theorems on the links.
use screen_sharing.Prelude.{ℕ, suc, ◌+◌, ◌/◌, ◌≡◌, refl, true, false, none, some, List, [], ◌∷◌}
use screen_sharing.Prelude.Text.{units}
use screen_sharing.Net.RelayWire.{RelayControl, ready, peer_up, peer_down, payload_frame}
use screen_sharing.Net.RelayLink.{HostLink, on_connection}
use screen_sharing.Net.RelayLink.Handover.{host_frames, handed, on_connection-host_frames}
use screen_sharing.Net.RelayLink.Retry.{
  Attempt, failed, relay_link_error, Ends, open_with_retry, open_with_retry-Ends,
}

abbrev fresh : HostLink
fresh = record {
  peers = [];
  transports = [];
  next_transport = 0;
  listens = false;
  pending_peers = [];
  closed = false;
  opening = true;
}

abbrev survivors : List RelayControl
survivors =
    ready none (some (units "token"))
    ∷ peer_up 4
    ∷ peer_up 9
    ∷ payload_frame (some 9) true (1 ∷ 2 ∷ [])
    ∷ peer_down 4
    ∷ []

on_connection-host_frames_example :
    let (early, handed_early) = host_frames survivors fresh in
    let (late, handed_late) = host_frames survivors (on_connection fresh).0 in
    (handed_early ≡ [])
    × (handed (on_connection early).1 ≡ handed_late)
    × ((on_connection early).0 ≡ late)
on_connection-host_frames_example = on_connection-host_frames survivors fresh refl refl

-- A relay that refuses for lack of room, half a second each time.
abbrev full : ℕ → Attempt
full n = record { duration = 500; result = failed (relay_link_error (some (units "server_full"))) }

open_with_retry-Ends_example :
    Ends (100 + 9_000) (suc (suc (9_000 / 1_500))) (open_with_retry (some 9_000) none full 100)
open_with_retry-Ends_example = open_with_retry-Ends (some 9_000) none full 100
