-- ===== src/Relay/Registry/Routing.antt =====
-- Where the relay sends a message, end to end with the clients' links.
use screen_sharing.Prelude.{
  ℕ, ◌+◌, ◌<◌, ◌^◌, ◌≡◌, ◌≢◌, refl, Bool, true, false, none, some, [], ◌∷◌, ◌++◌, leb,
  if◌then◌else◌, length, arith, nat_eq, subst, sym, ap, ◌∙◌, beq_ne,
}
use screen_sharing.Prelude.Dictionary.{Dictionary, get, set, delete, Entries, get-set, get-set_self}
use screen_sharing.Prelude.Bytes.{Bytes, byte_is, be_bytes, write_uint32_be_fits}
use screen_sharing.Prelude.Text.{JsString, units, js_string_eq}
use screen_sharing.Prelude.Json.{Json}
use screen_sharing.Relay.Wire
use screen_sharing.Relay.Wire.{Role, HostData, PeerData, Hello}
use screen_sharing.Relay.Wire.Tag
use screen_sharing.Net.RelayWire.{
  decode_relay_frame, encode_data_p, encode_data_h, payload_frame, encode_kick,
}
use screen_sharing.Net.RelayWire.Compat.{
  peer_to_host, encode_data_h_lem, decode_data_from_host_lem, decode_relay_frame_data_p,
  decode_kick_lem,
}
use screen_sharing.Relay.Registry.State.{Socket, Room, Attached, Relay, send, close}
use screen_sharing.Relay.Registry
use screen_sharing.Relay.Registry.{
  on_message, host_message, peer_message, put_room, peer_hello, allow, joins, join_room,
}
use screen_sharing.Relay.Registry.Invariant.{IsBelow, IsRoom}
use screen_sharing.Relay.Registry.Preservation.{allow_keeps}

-- A socket attached to a room that exists.
pub record IsIn (r : Relay) (socket : Socket) (att : Attached) (room : Room) : Type 0 where
  pub attached : get socket.id r.attached ≡ some att
  pub found : get att.room_id r.rooms ≡ some room

on_message_attached :
    (now : ℕ) (socket : Socket) (buf : Bytes) (r : Relay) (att : Attached) (room : Room)
    → IsIn r socket att room
    → byte_is buf 0 Tag.ping ≡ false
    → on_message now socket buf r ≡ Registry.role_message now socket buf att att.role room r
unfolding on_message
on_message_attached now socket buf r att room i no_ping = rw (no_ping, i.attached, i.found)

-- Peer to host: what a peer's link sends (`encodeDataP`) goes to its room's host alone, as one frame that
-- the host's link reads as that payload and flag under the peer's connection id (below 2^32); the relay's
-- state stays. While a handoff is pending it is dropped, and nothing is sent.
pub on_message_from_peer :
    (json : Json) (now : ℕ) (socket : Socket) (r : Relay) (att : Attached) (room : Room) (c : ℕ)
    (b : Bool) (p : Bytes)
    → IsIn r socket att room
    → att.role ≡ Role.peer
    → att.conn_id ≡ some c
    → c < 2 ^ 32
    → (room.handoff_deadline ≡ none
        → (bytes : Bytes) × (on_message now socket (encode_data_p b p) r
            ≡ some (r, send room.host bytes ∷ []))
          × (decode_relay_frame json bytes ≡ some (payload_frame (some c) b p)))
      × ((deadline : ℕ)
          → room.handoff_deadline ≡ some deadline
          → on_message now socket (encode_data_p b p) r ≡ some (r, []))
unfolding peer_message
on_message_from_peer json now socket r att room c b p i role conn fits =
    let (read, (bytes, written, decoded)) = peer_to_host json c b p fits in
    let routed =
      on_message_attached now socket (encode_data_p b p) r att room i
        (unfold encode_data_p in refl) in
    (
      λ calm.
          (bytes, routed ∙ rw (role, calm, read, conn, written, Registry.deliver_to_host), decoded),
      λ deadline e. routed ∙ rw (role, e),
    )

-- Host to peer: what a host's link sends to a connection id below 2^32 (`encodeDataH`) goes to the peer
-- with that id in its room, and to nobody if there is none, as one frame that the peer's link reads as
-- that payload and flag; the relay's state stays.
pub on_message_from_host :
    (json : Json) (now : ℕ) (socket : Socket) (r : Relay) (att : Attached) (room : Room) (c : ℕ)
    (b : Bool) (p : Bytes)
    → IsIn r socket att room
    → att.role ≡ Role.host
    → c < 2 ^ 32
    → (buf : Bytes) × (encode_data_h c b p ≡ some buf)
      × ((peer : Socket)
          → get c room.peers ≡ some peer
          → (bytes : Bytes) × (on_message now socket buf r ≡ some (r, send peer bytes ∷ []))
            × (decode_relay_frame json bytes ≡ some (payload_frame none b p)))
      × (get c room.peers ≡ none → on_message now socket buf r ≡ some (r, []))
unfolding host_message
on_message_from_host json now socket r att room c b p i role fits = (
  frame,
  encode_data_h_lem c b p fits,
  λ peer e. (
    Wire.data_to_peer b p,
    routed ∙ rw (e, Registry.deliver_to_peer),
    unfold Wire.data_to_peer in decode_relay_frame_data_p json b p,
  ),
  λ e. routed ∙ rw (e, Registry.deliver_to_peer),
)
  where
    frame : Bytes
    frame = 0x10 ∷ (be_bytes 4 c ++ ((if b then 1 else 0) ∷ p))

    routed :
        on_message now socket frame r
        ≡ some (
          r,
          Registry.deliver_to_peer room (some (record { conn_id = c; is_binary = b; payload = p })),
        )
    routed =
        on_message_attached now socket frame r att room i refl
        ∙ rw (role, host_message, decode_data_from_host_lem c b p fits)

-- A kick (`encodeKick`) of a connection id below 2^32 by an attached host takes the peer with that id out
-- of the room and closes its socket; if there is no such peer, nothing changes and nothing is sent.
pub on_message_kick :
    (now : ℕ) (socket : Socket) (r : Relay) (att : Attached) (room : Room) (c : ℕ)
    → IsIn r socket att room
    → att.role ≡ Role.host
    → c < 2 ^ 32
    → (buf : Bytes) × (encode_kick c ≡ some buf)
      × ((peer : Socket)
          → get c room.peers ≡ some peer
          → on_message now socket buf r
            ≡ some (
              put_room (record room { peers = delete c room.peers }) r,
              close peer 1000 (units "kicked") ∷ [],
            ))
      × (get c room.peers ≡ none → on_message now socket buf r ≡ some (r, []))
unfolding encode_kick host_message
on_message_kick now socket r att room c i role fits = (
  frame,
  rw (write_uint32_be_fits c fits),
  λ peer e. routed ∙ rw (e, Registry.kick_found),
  λ e. routed ∙ rw (e, Registry.kick_found),
)
  where
    frame : Bytes
    frame = 0x07 ∷ be_bytes 4 c

    routed : on_message now socket frame r ≡ some (Registry.kick_found room (some c) r)
    routed =
        on_message_attached now socket frame r att room i refl
        ∙ rw (role, host_message, decode_kick_lem c fits)

fresh_id :
    (next : ℕ) (peers : Dictionary ℕ Socket) → Entries (IsBelow next) peers → get next peers ≡ none
unfolding get
fresh_id next [] h = refl
fresh_id next ((c, p) ∷ ps) (b, h) = ground (arith, fresh_id next ps h)

-- The room after a join.
abbrev pub joined : Socket → Room → Room
joined socket room = record room {
  next_conn_id = room.next_conn_id + 1;
  peers = set room.next_conn_id socket room.peers;
}

pub join_shape :
    (json : Json) (now : ℕ) (socket : Socket) (h : Hello) (r : Relay) (room : Room)
    → get h.room_id r.rooms ≡ some room
    → length room.peers < r.limits.max_peers_per_room
    → (allow now socket.ip joins r).1 ≡ true
    → peer_hello json now socket h r
      ≡ join_room json socket room ((allow now socket.ip joins r).0, true)
unfolding peer_hello
join_shape json now socket h r room found free allowed = rw found (
    rw (full (length room.peers) r.limits.max_peers_per_room free)
      (ap (λ b. join_room json socket room ((allow now socket.ip joins r).0, b)) allowed))
  where
    full : (a b : ℕ) → a < b → leb b a ≡ false
    full a b k = ground arith

-- A peer that says hello to a room with a place left, within its rate: it is told the room's next
-- connection id, which nobody there has; the host is told of it; the peer is attached under that id, the
-- peers that were there keep theirs, and no other room changes.
pub peer_hello_joins :
    (json : Json) (now : ℕ) (socket : Socket) (h : Hello) (r : Relay) (room : Room) (key : JsString)
    (old : ℕ)
    → get h.room_id r.rooms ≡ some room
    → IsRoom r.limits h.room_id room
    → length room.peers < r.limits.max_peers_per_room
    → (allow now socket.ip joins r).1 ≡ true
    → let (r', outputs) = peer_hello json now socket h r in
      (outputs
        ≡ send socket (Wire.ready_peer json room.next_conn_id)
          ∷ send room.host (Wire.peer_up json room.next_conn_id)
          ∷ [])
      × (get room.next_conn_id room.peers ≡ none)
      × (get h.room_id r'.rooms ≡ some (joined socket room))
      × (get room.next_conn_id (joined socket room).peers ≡ some socket)
      × (old ≢ room.next_conn_id → get old (joined socket room).peers ≡ get old room.peers)
      × (key ≢ h.room_id → get key r'.rooms ≡ get key r.rooms)
      × (get socket.id r'.attached
          ≡ some
              (record { role = Role.peer; room_id = h.room_id; conn_id = some room.next_conn_id }))
peer_hello_joins json now socket h r room key old found is free allowed =
    let (rooms, _, _) = allow_keeps now socket.ip joins r in
    rw (join_shape json now socket h r room found free allowed) (
      refl,
      fresh_id room.next_conn_id room.peers is.ids_below,
      subst
          (λ k.
            get k (set room.room_id (joined socket room) after.rooms) ≡ some (joined socket room))
          is.keyed (get-set_self room.room_id (joined socket room) after.rooms),
      get-set_self room.next_conn_id socket room.peers,
      λ d. rw (
        get-set room.next_conn_id old socket room.peers,
        beq_ne {A = ℕ} room.next_conn_id old (λ e. d (sym e)),
      ),
      λ d. rw (
        get-set room.room_id key (joined socket room) after.rooms,
        beq_ne {A = JsString} room.room_id key (λ e. d (sym e ∙ is.keyed)),
        rooms,
      ),
      get-set_self socket.id _ after.attached ∙ ap (λ k. some (attachment k)) is.keyed,
    )
  where
    after : Relay
    after = (allow now socket.ip joins r).0

    attachment : JsString → Attached
    attachment k = record { role = Role.peer; room_id = k; conn_id = some room.next_conn_id }
