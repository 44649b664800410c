-- ===== src/Signaling/Server/Examples.antt =====
-- Concrete rooms for the theorems on the signaling server.
use screen_sharing.Prelude.{◌+◌, ◌≡◌, refl, true, false, none, some, List, [], ◌∷◌, any, map}
use screen_sharing.Prelude.Sort.{sort}
use screen_sharing.Prelude.Dictionary.{values, get}
use screen_sharing.Prelude.Text.{JsString, units, js_string_eq}
use screen_sharing.Protocol.{host_transfer, ping, pong}
use screen_sharing.Election.Succession.{
  designated_heir, succession_order, election_entries_from_roster,
}
use screen_sharing.Signaling.RateLimit.{default_rate_limit}
use screen_sharing.Signaling.Roster
use screen_sharing.Signaling.Roster.{RosterEntry}
use screen_sharing.Signaling.Server
use screen_sharing.Signaling.Server.{Server, ServerOptions, PeerLink, transfer_host, send}
use screen_sharing.Signaling.Server.Events.{
  Event, connects, handshake_succeeds, joins, ticks, says, goes, transfers, source_closes, run,
}
use screen_sharing.Signaling.Server.Consistent.{IsConsistent}
use screen_sharing.Signaling.Server.Invariant.{run-IsConsistent}
use screen_sharing.Signaling.Server.Handover.{
  bodies, outputs, touches, concerns, transfer_host_lem, transfer_host-pong,
}

abbrev as_is : JsString → JsString
as_is s = s

abbrev opts : ServerOptions
opts = record {
  room_params = record {
    max_participants = 8;
    max_recommended_subscriptions = 4;
    video_bitrate_kbps = 4_000;
  };
  rate_limit = default_rate_limit;
  max_missed = none;
  verify_inbound = true;
  epoch = 2;
  has_media = true;
}

abbrev evening : List Event
evening =
    connects 1_000 5 (units "10.0.0.5")
    ∷ handshake_succeeds (units "10.0.0.5")
    ∷ joins 17 1_100 5 (units "10.0.0.5") (units "p1") (units "eve")
        (record { can_host = true; inbound_port = 4_000 }) []
    ∷ says 1_200 (units "p1") (pong 17 1_100)
    ∷ ticks 18 6_100 (units "p1")
    ∷ goes (units "p1")
    ∷ transfers
    ∷ []

run-IsConsistent_example :
    IsConsistent (run as_is (Server.new opts (units "h") (units "ann")) evening)
run-IsConsistent_example = run-IsConsistent as_is opts (units "h") (units "ann") evening

abbrev eve : RosterEntry
eve = record {
  peer_id = units "p1";
  nickname = units "eve";
  join_seq = 1;
  is_host = false;
  inbound_verified = true;
  inbound_endpoint = none;
  publishing = none;
}

abbrev eves : PeerLink
eves = record {
  peer_id = units "p1";
  conn = 5;
  ip = units "10.0.0.5";
  heartbeat = none;
  reason = Server.said_bye;
}

-- A room of the host and Eve.
abbrev two : Server
two = record {
  opts = opts;
  buckets = [];
  roster = record {
    entries = (units "h", Server.host_entry (units "h") (units "ann")) ∷ (units "p1", eve) ∷ [];
    next_join_seq = 2;
  };
  links = (units "p1", eves) ∷ [];
  active_handshakes = 0;
  closing = false;
}

eve_succeeds :
    designated_heir (election_entries_from_roster (Roster.snapshot two.roster)) ≡ some (units "p1")
unfolding designated_heir Roster.snapshot sort succession_order election_entries_from_roster
eve_succeeds = refl

abbrev meanwhile : List Event
meanwhile = goes (units "p1") ∷ connects 9_000 6 (units "10.0.0.6") ∷ source_closes ∷ []

transfer_host_lem_example :
    ((transfer_host two).1
      ≡ map
          (λ (link : PeerLink). send link.conn (host_transfer (units "p1") (2 + 1)))
          (values two.links))
    × (bodies (outputs as_is (transfer_host two).0 meanwhile) ≡ [])
    × (any (touches 1) (outputs as_is (transfer_host two).0 meanwhile) ≡ any (concerns 1) meanwhile)
transfer_host_lem_example =
    transfer_host_lem as_is two (units "p1") meanwhile 1 eve_succeeds (tt, (tt, (tt, tt)))

transfer_host-pong_example :
    bodies (outputs as_is (transfer_host two).0 (says 9_000 (units "p1") (ping 3 8_990) ∷ []))
    ≡ (5, pong 3 8_990) ∷ []
unfolding get
transfer_host-pong_example =
    transfer_host-pong as_is two (units "p1") (units "p1") eves 9_000 3 8_990 eve_succeeds refl
