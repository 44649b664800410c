-- ===== src/Relay/Registry.antt =====
-- server/src/relay.ts: the room registry and the routing of messages. The clock and fresh host tokens are
-- arguments. `on_message` answers `none` where Node throws a RangeError (a connection id of 2^32 or more).
pub mod State
pub mod Invariant
pub mod Preservation
pub mod Routing
pub mod Handoff
pub mod Teardown
pub mod Reopening
pub mod Stale
use mathlib.Core.Option
use screen_sharing.Prelude.{
  ℕ, ◌+◌, Bool, true, false, not, ◌&&◌, Option, none, some, List, [], ◌∷◌, ◌++◌, ltb, leb, ◌==◌,
  if◌then◌else◌, length, keep_if, every, get_elem?,
}
use screen_sharing.Prelude.Dictionary.{Dictionary, get, set, delete, has, values}
use screen_sharing.Prelude.Bytes.{Bytes, byte_is}
use screen_sharing.Prelude.Text.{JsString, units, js_string_eq}
use screen_sharing.Prelude.Json.{Json}
use screen_sharing.Prelude.{nat_eq}
use screen_sharing.Relay.Wire
use screen_sharing.Relay.Wire.{
  Hello, Role, RejectReason, reason_text, HostData, PeerData, relay_protocol_version,
}
use screen_sharing.Relay.Wire.Tag
use State.{
  Socket, RelayLimits, Room, Attached, RateBucket, Relay, Output, send, close, handoff_grace_ms,
}

unfoldable pub new : RelayLimits → Relay
new limits = record { rooms = []; attached = []; rate = []; limits = limits }

abbrev pub room_count : Relay → ℕ
room_count r = length r.rooms

abbrev pub peers_of : Option Room → ℕ
peers_of none = 0
peers_of (some room) = length room.peers

unfoldable pub peer_count : JsString → Relay → ℕ
peer_count room_id r = peers_of (get room_id r.rooms)

abbrev pub put_room : Room → Relay → Relay
put_room room r = record r { rooms = set room.room_id room r.rooms }

abbrev pub attach : Socket → Attached → Relay → Relay
attach socket att r = record r { attached = set socket.id att r.attached }

-- `now - t < rateWindowMs`, over the integers.
abbrev pub is_fresh : ℕ → ℕ → ℕ → Bool
is_fresh window now t = ltb now (t + window)

pub data Kind : Type 0 where
  creates joins : Kind

abbrev pub or_new_bucket : Option RateBucket → RateBucket
or_new_bucket none = record { creates = []; joins = [] }
or_new_bucket (some bucket) = bucket

abbrev pub times_of : Kind → RateBucket → List ℕ
times_of creates b = b.creates
times_of joins b = b.joins

abbrev pub cap_of : Kind → RelayLimits → ℕ
cap_of creates l = l.room_creates_per_window
cap_of joins l = l.joins_per_window

abbrev pub with_times : Kind → List ℕ → RateBucket → RateBucket
with_times creates ts b = record b { creates = ts }
with_times joins ts b = record b { joins = ts }

-- `#allow`
unfoldable pub allow : ℕ → JsString → Kind → Relay → Relay × Bool
allow now ip kind r =
    let bucket = or_new_bucket (get ip r.rate) in
    let fresh = keep_if (is_fresh r.limits.rate_window_ms now) (times_of kind bucket) in
    if leb (cap_of kind r.limits) (length fresh)
    then (record r { rate = set ip (with_times kind fresh bucket) r.rate }, false)
    else (record r { rate = set ip (with_times kind (fresh ++ (now ∷ [])) bucket) r.rate }, true)

-- `existing?.handoffDeadline !== undefined && now < existing.handoffDeadline`
abbrev pub in_grace : ℕ → Option ℕ → Bool
in_grace now none = false
in_grace now (some deadline) = ltb now deadline

-- `handoffDeadline !== undefined`
abbrev pub is_pending : Option ℕ → Bool
is_pending none = false
is_pending (some deadline) = true

-- `handoffDeadline !== undefined && now >= handoffDeadline`
abbrev pub is_expired : ℕ → Option ℕ → Bool
is_expired now none = false
is_expired now (some deadline) = leb deadline now

abbrev pub sends_host_gone : Dictionary ℕ Socket → List Output
sends_host_gone [] = []
sends_host_gone ((conn_id, peer) ∷ peers) =
    send peer Wire.host_gone ∷ close peer 1001 (units "host gone") ∷ sends_host_gone peers

unfoldable pub teardown_room : Room → Relay → Relay × List Output
teardown_room room r =
    (record r { rooms = delete room.room_id r.rooms }, sends_host_gone room.peers)

module _ (json : Json) where
  -- `#kick`: refuse a socket.
  unfoldable pub refuse : Socket → RejectReason → Relay → Relay × List Output
  refuse socket reason r =
      (r, send socket (Wire.reject json reason) ∷ close socket 1008 (reason_text reason) ∷ [])

  abbrev pub announce_peers : Socket → Dictionary ℕ Socket → List Output
  announce_peers host [] = []
  announce_peers host ((conn_id, peer) ∷ peers) =
      send host (Wire.peer_up json conn_id)
      ∷ send peer Wire.host_claimed
      ∷ announce_peers host peers

  -- A successor claims a room in its grace window.
  unfoldable pub claim_handoff : JsString → Socket → Room → Relay → Relay × List Output
  claim_handoff token socket room r = (
    attach socket (record { role = Role.host; room_id = room.room_id; conn_id = none })
        (put_room (record room { host = socket; handoff_deadline = none; host_token = token }) r),
    send socket (Wire.ready_host json token) ∷ announce_peers socket room.peers,
  )

  -- The end of `#hostHello`, after `#allow`.
  abbrev pub create_room :
      JsString → Socket → JsString → Option Room → Relay × Bool → Relay × List Output
  create_room token socket room_id existing (r, false) = refuse socket RejectReason.rate_limited r
  create_room token socket room_id (some room) (r, true) = refuse socket RejectReason.room_exists r
  create_room token socket room_id none (r, true) = (
    attach socket (record { role = Role.host; room_id = room_id; conn_id = none })
        (put_room
          (record {
            room_id = room_id;
            host_token = token;
            host = socket;
            peers = [];
            next_conn_id = 1;
            handoff_deadline = none;
          })
          r),
    send socket (Wire.ready_host json token) ∷ [],
  )

  abbrev pub open_room :
      ℕ → JsString → Socket → JsString → Option Room → Relay → Relay × List Output
  open_room now token socket room_id existing r =
      if leb r.limits.max_rooms (length r.rooms)
      then refuse socket RejectReason.server_full r
      else create_room token socket room_id existing (allow now socket.ip creates r)

  abbrev pub host_hello_on :
      ℕ → JsString → Socket → JsString → Option Room → Relay → Relay × List Output
  host_hello_on now token socket room_id none r = open_room now token socket room_id none r
  host_hello_on now token socket room_id (some room) r =
      if in_grace now room.handoff_deadline
      then claim_handoff token socket room r
      else open_room now token socket room_id (some room) r

  unfoldable pub host_hello : ℕ → JsString → Socket → Hello → Relay → Relay × List Output
  host_hello now token socket hello r =
      host_hello_on now token socket hello.room_id (get hello.room_id r.rooms) r

  -- The end of `#peerHello`, after `#allow`.
  abbrev pub join_room : Socket → Room → Relay × Bool → Relay × List Output
  join_room socket room (r, false) = refuse socket RejectReason.rate_limited r
  join_room socket room (r, true) = (
    attach socket
        (record { role = Role.peer; room_id = room.room_id; conn_id = some room.next_conn_id })
        (put_room
          (record room {
            next_conn_id = room.next_conn_id + 1;
            peers = set room.next_conn_id socket room.peers;
          })
          r),
    send socket (Wire.ready_peer json room.next_conn_id)
        ∷ send room.host (Wire.peer_up json room.next_conn_id)
        ∷ [],
  )

  abbrev pub peer_hello_on : ℕ → Socket → Option Room → Relay → Relay × List Output
  peer_hello_on now socket none r = refuse socket RejectReason.no_such_room r
  peer_hello_on now socket (some room) r =
      if leb r.limits.max_peers_per_room (length room.peers)
      then refuse socket RejectReason.room_full r
      else join_room socket room (allow now socket.ip joins r)

  unfoldable pub peer_hello : ℕ → Socket → Hello → Relay → Relay × List Output
  peer_hello now socket hello r = peer_hello_on now socket (get hello.room_id r.rooms) r

  abbrev pub role_hello : ℕ → JsString → Socket → Hello → Role → Relay → Relay × List Output
  role_hello now token socket hello Role.host r = host_hello now token socket hello r
  role_hello now token socket hello Role.peer r = peer_hello now socket hello r

  unfoldable pub on_hello : ℕ → JsString → Socket → Hello → Relay → Relay × List Output
  on_hello now token socket hello r =
      if has socket.id r.attached
      then refuse socket RejectReason.bad_hello r
      else if not (hello.proto == relay_protocol_version)
      then refuse socket RejectReason.proto_mismatch r
      else role_hello now token socket hello hello.role r

-- KICK from a host: the peer it names, if it is there, is dropped and closed.
abbrev pub kick_found : Room → Option ℕ → Relay → Relay × List Output
kick_found room none r = (r, [])
kick_found room (some conn_id) r = elim (get conn_id room.peers) [
  | none ↦ (r, [])
  | some peer ↦ (
    put_room (record room { peers = delete conn_id room.peers }) r,
    close peer 1000 (units "kicked") ∷ [],
  )
]

abbrev pub deliver_to_peer : Room → Option HostData → List Output
deliver_to_peer room none = []
deliver_to_peer room (some frame) = elim (get frame.conn_id room.peers) [
  | none ↦ []
  | some peer ↦ send peer (Wire.data_to_peer frame.is_binary frame.payload) ∷ []
]

abbrev pub deliver_to_host : Room → Option ℕ → Option PeerData → Option (List Output)
deliver_to_host room conn_id none = some []
deliver_to_host room none (some frame) = some []
deliver_to_host room (some conn_id) (some frame) =
    Option.map (λ bytes. send room.host bytes ∷ [])
      (Wire.data_to_host conn_id frame.is_binary frame.payload)

unfoldable pub host_message : ℕ → Socket → Bytes → Room → Relay → Relay × List Output
host_message now socket buf room r =
    if byte_is buf 0 Tag.kick
    then kick_found room (Wire.decode_kick buf) r
    else if byte_is buf 0 Tag.handoff
    then (if room.host.id == socket.id
        then (put_room (record room { handoff_deadline = some (now + handoff_grace_ms) }) r, [])
        else (r, []))
    else (r, deliver_to_peer room (Wire.decode_data_from_host buf))

unfoldable pub peer_message : Attached → Bytes → Room → Option (List Output)
peer_message att buf room =
    if is_pending room.handoff_deadline
    then some []
    else deliver_to_host room att.conn_id (Wire.decode_data_from_peer buf)

abbrev pub role_message :
    ℕ → Socket → Bytes → Attached → Role → Room → Relay → Option (Relay × List Output)
role_message now socket buf att Role.host room r = some (host_message now socket buf room r)
role_message now socket buf att Role.peer room r =
    Option.map (λ outputs. (r, outputs)) (peer_message att buf room)

abbrev pub room_message :
    ℕ → Socket → Bytes → Attached → Option Room → Relay → Option (Relay × List Output)
room_message now socket buf att none r = some (r, [])
room_message now socket buf att (some room) r = role_message now socket buf att att.role room r

abbrev pub attached_message :
    ℕ → Socket → Bytes → Option Attached → Relay → Option (Relay × List Output)
attached_message now socket buf none r = some (r, [])
attached_message now socket buf (some att) r =
    room_message now socket buf att (get att.room_id r.rooms) r

unfoldable pub on_message : ℕ → Socket → Bytes → Relay → Option (Relay × List Output)
on_message now socket buf r =
    if byte_is buf 0 Tag.ping
    then some (r, send socket Wire.pong ∷ [])
    else attached_message now socket buf (get socket.id r.attached) r

module _ (json : Json) where
  abbrev pub close_peer : Option ℕ → Room → Relay → Relay × List Output
  close_peer none room r = (r, [])
  close_peer (some conn_id) room r = (
    put_room (record room { peers = delete conn_id room.peers }) r,
    send room.host (Wire.peer_down json conn_id) ∷ [],
  )

  abbrev pub close_role : Socket → Attached → Role → Room → Relay → Relay × List Output
  close_role socket att Role.host room r =
      if not (room.host.id == socket.id)
      then (r, [])
      else if is_pending room.handoff_deadline
      then (r, [])
      else teardown_room room r
  close_role socket att Role.peer room r = close_peer att.conn_id room r

  abbrev pub close_in : Socket → Attached → Option Room → Relay → Relay × List Output
  close_in socket att none r = (r, [])
  close_in socket att (some room) r = close_role socket att att.role room r

  abbrev pub close_attached : Socket → Option Attached → Relay → Relay × List Output
  close_attached socket none r = (r, [])
  close_attached socket (some att) r =
      close_in socket att (get att.room_id r.rooms)
        (record r { attached = delete socket.id r.attached })

  unfoldable pub on_close : Socket → Relay → Relay × List Output
  on_close socket r = close_attached socket (get socket.id r.attached) r

-- The first loop of `sweep`, over the rooms there were when it began.
unfoldable pub sweep_rooms : ℕ → List Room → Relay → Relay × List Output
sweep_rooms now [] r = (r, [])
sweep_rooms now (room ∷ rooms) r =
    if is_expired now room.handoff_deadline
    then (
      (sweep_rooms now rooms (teardown_room room r).0).0,
      (teardown_room room r).1 ++ (sweep_rooms now rooms (teardown_room room r).0).1,
    )
    else sweep_rooms now rooms r

abbrev pub is_idle : RelayLimits → ℕ → RateBucket → Bool
is_idle limits now b =
    every (λ t. leb (t + limits.rate_window_ms) now) b.creates
    && every (λ t. leb (t + limits.rate_window_ms) now) b.joins

unfoldable pub sweep_rate :
    RelayLimits → ℕ → Dictionary JsString RateBucket → Dictionary JsString RateBucket
sweep_rate limits now [] = []
sweep_rate limits now ((ip, b) ∷ rest) =
    if is_idle limits now b
    then sweep_rate limits now rest
    else (ip, b) ∷ sweep_rate limits now rest

unfoldable pub sweep : ℕ → Relay → Relay × List Output
unfolding sweep_rooms sweep_rate
sweep now r =
    let (swept, outputs) = sweep_rooms now (values r.rooms) r in
    (record swept { rate = sweep_rate swept.limits now swept.rate }, outputs)
