-- ===== src/Relay/Examples.antt =====
-- Concrete runs of a relay for the theorems on its registry.
use mathlib.Core.List.{flat_map}
use screen_sharing.Prelude.{
  ℕ, ◌≡◌, ◌≢◌, refl, true, false, none, some, List, [], ◌∷◌, nat_eq, arith,
}
use screen_sharing.Prelude.Dictionary.{get, set, delete}
use screen_sharing.Prelude.Bytes.{Bytes}
use screen_sharing.Prelude.Text.{JsString, units, js_string_eq}
use screen_sharing.Prelude.Json.Concrete.{concrete_json}
use screen_sharing.Relay.Wire
use screen_sharing.Relay.Wire.{Hello, Role}
use screen_sharing.Net.RelayWire.{
  encode_data_h, encode_data_p, encode_kick, encode_handoff, decode_relay_frame, payload_frame,
}
use screen_sharing.Relay.Registry
use screen_sharing.Relay.Registry.{
  on_message, on_close, on_hello, put_room, peer_hello, allow, joins,
}
use screen_sharing.Relay.Registry.State.{Socket, Room, Attached, Relay, send, close, default_limits}
use screen_sharing.Relay.Registry.Invariant.{
  Event, hello, closed, settle, step, run, IsValid, IsRoom,
}
use screen_sharing.Relay.Registry.Preservation.{run-IsValid}
use screen_sharing.Relay.Registry.Routing.{
  IsIn, on_message_from_peer, on_message_from_host, peer_hello_joins,
}
use screen_sharing.Relay.Registry.Handoff.{
  handing_off, claimed, graceful_handoff, superseded_host_kicks,
}
use screen_sharing.Relay.Registry.Teardown.{room_ends}
use screen_sharing.Relay.Registry.Stale.{on_close_evicts}

abbrev socket : ℕ → Socket
socket id = record { id = id; ip = units "10.0.0.1" }

abbrev room_id : JsString
room_id = units "0badcafe"

abbrev as_host : Hello
as_host = record {
  role = Role.host;
  room_id = room_id;
  app = units "app";
  proto = 1;
  host_token = none;
}

abbrev as_peer : Hello
as_peer = record {
  role = Role.peer;
  room_id = room_id;
  app = units "app";
  proto = 1;
  host_token = none;
}

-- Host 1 opens the room, peer 2 joins, host 1 ends, host 3 opens the room again, peer 4 joins.
abbrev reopened_events : List Event
reopened_events =
    hello 0 (units "t1") (socket 1) as_host
    ∷ hello 1 [] (socket 2) as_peer
    ∷ closed (socket 1)
    ∷ hello 2 (units "t3") (socket 3) as_host
    ∷ hello 3 [] (socket 4) as_peer
    ∷ []

run-IsValid_example :
    IsValid default_limits (run concrete_json (Registry.new default_limits) reopened_events)
run-IsValid_example = run-IsValid default_limits concrete_json reopened_events

abbrev room : Room
room = record {
  room_id = room_id;
  host_token = units "t3";
  host = socket 3;
  peers = (1, socket 4) ∷ [];
  next_conn_id = 2;
  handoff_deadline = none;
}

abbrev host_attached : Attached
host_attached = record { role = Role.host; room_id = room_id; conn_id = none }

abbrev peer_attached : Attached
peer_attached = record { role = Role.peer; room_id = room_id; conn_id = some 1 }

abbrev reopened : Relay
reopened = record {
  rooms = (room_id, room) ∷ [];
  attached = (2, peer_attached) ∷ (3, host_attached) ∷ (4, peer_attached) ∷ [];
  rate = (units "10.0.0.1", record { creates = 0 ∷ 2 ∷ []; joins = 1 ∷ 3 ∷ [] }) ∷ [];
  limits = default_limits;
}

run-reopened : run concrete_json (Registry.new default_limits) reopened_events ≡ reopened
unfolding run step on_hello get on_close Registry.new Registry.host_hello allow set peer_hello
    Registry.teardown_room delete
run-reopened = refl

abbrev old_host : Socket
old_host = socket 3

host-IsIn : IsIn reopened old_host host_attached room
unfolding get
host-IsIn = record { attached = refl; found = refl }

peer-IsIn : IsIn reopened (socket 4) peer_attached room
unfolding get
peer-IsIn = record { attached = refl; found = refl }

peer_there : get 1 room.peers ≡ some (socket 4)
unfolding get
peer_there = refl

room_there : get room_id reopened.rooms ≡ some room
unfolding get
room_there = refl

new_socket : get 5 reopened.attached ≡ none
unfolding get
new_socket = refl

abbrev hi : Bytes
hi = units "hi"

room_ends_example :
    let (r', outputs) = on_close concrete_json old_host reopened in
    (outputs
      ≡ flat_map
          (λ (conn_id, peer). send peer Wire.host_gone ∷ close peer 1001 (units "host gone") ∷ [])
          room.peers)
    × (get room_id r'.rooms ≡ none)
    × (units "0123abcd" ≢ room_id
        → get (units "0123abcd") r'.rooms ≡ get (units "0123abcd") reopened.rooms)
    × (on_message 9 (socket 4) (encode_data_p true hi) r' ≡ some (r', []))
    × (on_close concrete_json (socket 4) r' ≡ (record r' { attached = delete 4 r'.attached }, []))
unfolding encode_data_p
room_ends_example =
    room_ends concrete_json old_host (socket 4) reopened host_attached peer_attached room
      (units "0123abcd") 9 (encode_data_p true hi) host-IsIn refl refl refl refl peer-IsIn refl
      (omega arith) refl

on_message_from_peer_example :
    (room.handoff_deadline ≡ none
      → (bytes : Bytes) × (on_message 9 (socket 4) (encode_data_p true hi) reopened
          ≡ some (reopened, send (socket 3) bytes ∷ []))
        × (decode_relay_frame concrete_json bytes ≡ some (payload_frame (some 1) true hi)))
    × ((deadline : ℕ)
        → room.handoff_deadline ≡ some deadline
        → on_message 9 (socket 4) (encode_data_p true hi) reopened ≡ some (reopened, []))
on_message_from_peer_example =
    on_message_from_peer concrete_json 9 (socket 4) reopened peer_attached room 1 true hi peer-IsIn
      refl refl (omega arith)

on_message_from_host_example :
    (buf : Bytes) × (encode_data_h 1 false hi ≡ some buf)
    × ((peer : Socket)
        → get 1 room.peers ≡ some peer
        → (bytes : Bytes) × (on_message 9 old_host buf reopened
            ≡ some (reopened, send peer bytes ∷ []))
          × (decode_relay_frame concrete_json bytes ≡ some (payload_frame none false hi)))
    × (get 1 room.peers ≡ none → on_message 9 old_host buf reopened ≡ some (reopened, []))
on_message_from_host_example =
    on_message_from_host concrete_json 9 old_host reopened host_attached room 1 false hi host-IsIn
      refl (omega arith)

room-IsRoom : IsRoom reopened.limits room_id room
room-IsRoom = record { keyed = refl; ids_below = (omega arith, tt); peers_capped = omega arith }

within_rate : (allow 9 (units "10.0.0.1") joins reopened).1 ≡ true
unfolding allow get
within_rate = refl

peer_hello_joins_example :
    (peer_hello concrete_json 9 (socket 5) as_peer reopened).1
    ≡ send (socket 5) (Wire.ready_peer concrete_json 2)
      ∷ send (socket 3) (Wire.peer_up concrete_json 2)
      ∷ []
peer_hello_joins_example =
    (peer_hello_joins concrete_json 9 (socket 5) as_peer reopened room (units "other") 1 room_there
      room-IsRoom (omega arith) within_rate).0

-- The relay after the host's HANDOFF.
abbrev pending : Relay
pending = record reopened { rooms = (room_id, handing_off 100 room) ∷ [] }

pending_there : get room_id pending.rooms ≡ some (handing_off 100 room)
unfolding get
pending_there = refl

graceful_handoff_example :
    let (r₁, sent₁) = settle reopened (on_message 100 old_host encode_handoff reopened) in
    let (r₂, sent₂) = on_close concrete_json old_host r₁ in
    let (r₃, sent₃) = on_hello concrete_json 200 (units "t5") (socket 5) as_host r₂ in
    (sent₁ ≡ [])
    × (sent₂ ≡ [])
    × (sent₃
        ≡ send (socket 5) (Wire.ready_host concrete_json (units "t5"))
          ∷ flat_map
              (λ (conn_id, peer).
                send (socket 5) (Wire.peer_up concrete_json conn_id)
                ∷ send peer Wire.host_claimed
                ∷ [])
              room.peers)
    × (get room_id r₃.rooms ≡ some (claimed (socket 5) (units "t5") room))
graceful_handoff_example =
    graceful_handoff concrete_json 100 200 (units "t5") old_host (socket 5) as_host reopened
      host_attached room host-IsIn refl refl refl new_socket refl refl refl (omega arith)

superseded_host_kicks_example :
    (buf : Bytes) × (encode_kick 1 ≡ some buf)
    × (let (r₁, _) = settle reopened (on_message 100 old_host encode_handoff reopened) in
        let (r₂, _) = on_hello concrete_json 200 (units "t5") (socket 5) as_host r₁ in
        on_message 300 old_host buf r₂
        ≡ some (
          put_room
              (record (claimed (socket 5) (units "t5") room) { peers = delete 1 room.peers })
              r₂,
          close (socket 4) 1000 (units "kicked") ∷ [],
        ))
superseded_host_kicks_example =
    superseded_host_kicks concrete_json 100 200 300 (units "t5") old_host (socket 5) as_host
      reopened host_attached room 1 (socket 4) host-IsIn refl refl refl new_socket refl refl refl
      (omega arith) (omega arith) peer_there

-- The room before its first host ends.
abbrev first_room : Room
first_room = record {
  room_id = room_id;
  host_token = units "t1";
  host = socket 1;
  peers = (1, socket 2) ∷ [];
  next_conn_id = 2;
  handoff_deadline = none;
}

abbrev first : Relay
first = record {
  rooms = (room_id, first_room) ∷ [];
  attached = (1, host_attached) ∷ (2, peer_attached) ∷ [];
  rate = (units "10.0.0.1", record { creates = 0 ∷ []; joins = 1 ∷ [] }) ∷ [];
  limits = default_limits;
}

first_host-IsIn : IsIn first (socket 1) host_attached first_room
unfolding get
first_host-IsIn = record { attached = refl; found = refl }

first_peer-IsIn : IsIn first (socket 2) peer_attached first_room
unfolding get
first_peer-IsIn = record { attached = refl; found = refl }

on_close_evicts_example :
    let (r₁, _) = on_close concrete_json (socket 1) first in
    let (r₂, _) = on_hello concrete_json 2 (units "t3") (socket 3) as_host r₁ in
    let (r₃, _) = on_hello concrete_json 3 (units "t3") (socket 4) as_peer r₂ in
    let (r₄, sent) = on_close concrete_json (socket 2) r₃ in
    (before : Room) × (after : Room) × (get room_id r₃.rooms ≡ some before)
    × (get 1 before.peers ≡ some (socket 4))
    × (get room_id r₄.rooms ≡ some after)
    × (get 1 after.peers ≡ none)
    × (sent ≡ send (socket 3) (Wire.peer_down concrete_json 1) ∷ [])
    × (get 4 r₄.attached ≡ some peer_attached)
unfolding on_close on_hello get set delete allow Registry.teardown_room Registry.host_hello
on_close_evicts_example =
    on_close_evicts concrete_json 2 3 (units "t3") (socket 1) (socket 2) (socket 3) (socket 4)
      as_host as_peer first host_attached peer_attached first_room first_host-IsIn refl refl refl
      refl first_peer-IsIn refl refl refl (omega arith) refl refl refl refl refl (omega arith) refl
      refl refl (omega arith) (omega arith) refl refl
