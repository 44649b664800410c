-- ===== src/Signaling/Client/Examples.antt =====
-- A client in a concrete room.
use screen_sharing.Prelude.{◌≡◌, refl, true, none, some, List, [], ◌∷◌}
use screen_sharing.Prelude.Dictionary.{get, set}
use screen_sharing.Prelude.Text.{units, js_string_eq}
use screen_sharing.Signaling.Roster
use screen_sharing.Signaling.Roster.{Roster, RosterEntry, Patch, snapshot}
use screen_sharing.Signaling.Roster.Order.{new-IsOrdered}
use screen_sharing.Signaling.Server.{host_entry}
use screen_sharing.Signaling.Client.{Client}
use screen_sharing.Signaling.Client.Following.{
  Change, arrives, leaves, changes, follow, after, IsFresh, IsKnown, follow_lem,
}

abbrev anns : RosterEntry
anns = host_entry (units "h") (units "ann")

abbrev start : Roster
start = Roster.new anns

start-IsKnown : IsKnown start
unfolding Roster.new get
start-IsKnown = record {
  ordered = new-IsOrdered anns;
  keyed = record { unique = (refl, tt); own = (refl, tt) };
}

abbrev bob : Client
bob = record {
  opts = record {
    nickname = units "bob";
    can_host = none;
    inbound_port = none;
    max_missed = none;
    min_epoch = none;
  };
  connected = true;
  peer_id = units "p0";
  roster = snapshot start;
  streams = [];
  epoch = 0;
  heartbeat = none;
}

abbrev reachable : Patch
reachable = record { inbound_verified = some true; inbound_endpoint = none; publishing = none }

abbrev evening : List Change
evening =
    arrives (units "p1") (units "eve")
    ∷ arrives (units "p2") (units "dan")
    ∷ changes (units "p1") reachable
    ∷ leaves (units "p2")
    ∷ []

evening-IsFresh : IsFresh evening start
unfolding get set after Roster.new Roster.add Roster.allocate_join_seq
evening-IsFresh = (refl, (refl, tt))

follow_lem_example : (follow 0 evening start bob).1.roster ≡ snapshot (follow 0 evening start bob).0
follow_lem_example = follow_lem 0 evening start bob start-IsKnown evening-IsFresh refl
