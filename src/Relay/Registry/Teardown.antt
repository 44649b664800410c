-- ===== src/Relay/Registry/Teardown.antt =====
-- The end of a room with its host's socket: what `#teardownRoom` sends, and what is left of the room's
-- sockets.
use mathlib.Core.List.{flat_map}
use screen_sharing.Prelude.{
  ℕ, ◌≡◌, ◌≢◌, refl, false, none, some, [], ◌∷◌, nat_eq, subst, sym, ap, ◌∙◌, beq_ne, ==_self,
}
use screen_sharing.Prelude.Dictionary.{Dictionary, get, delete, get-delete, get-delete_self}
use screen_sharing.Prelude.Bytes.{Bytes, byte_is}
use screen_sharing.Prelude.Text.{JsString, units, js_string_eq}
use screen_sharing.Prelude.Json.{Json}
use screen_sharing.Relay.Wire
use screen_sharing.Relay.Wire.{Role, Hello}
use screen_sharing.Relay.Wire.Tag
use screen_sharing.Relay.Registry.State.{Socket, Room, Attached, Relay, send, close}
use screen_sharing.Relay.Registry.{on_close, on_message, teardown_room, sends_host_gone}
use screen_sharing.Relay.Registry.Routing.{IsIn}

sends_host_gone_lem :
    (peers : Dictionary ℕ Socket)
    → sends_host_gone peers
      ≡ flat_map
          (λ (conn_id, peer). send peer Wire.host_gone ∷ close peer 1001 (units "host gone") ∷ [])
          peers
unfolding flat_map
sends_host_gone_lem [] = refl
sends_host_gone_lem ((conn_id, peer) ∷ peers) =
    ap (λ rest. send peer Wire.host_gone ∷ close peer 1001 (units "host gone") ∷ rest)
      (sends_host_gone_lem peers)

-- The relay after the end of a host's socket that takes its room along.
abbrev pub without_room : Socket → Room → Relay → Relay
without_room old room r = record r {
  attached = delete old.id r.attached;
  rooms = delete room.room_id r.rooms;
}

pub on_close_tears_down :
    (json : Json) (old : Socket) (r : Relay) (att : Attached) (room : Room)
    → IsIn r old att room
    → att.role ≡ Role.host
    → room.host.id ≡ old.id
    → room.handoff_deadline ≡ none
    → on_close json old r ≡ (without_room old room r, sends_host_gone room.peers)
unfolding on_close teardown_room
on_close_tears_down json old r att room i role own calm =
    rw (i.attached, i.found, role, own, ==_self old.id, calm) refl

orphan_message :
    (now : ℕ) (peer : Socket) (buf : Bytes) (r : Relay) (att : Attached)
    → get peer.id r.attached ≡ some att
    → get att.room_id r.rooms ≡ none
    → byte_is buf 0 Tag.ping ≡ false
    → on_message now peer buf r ≡ some (r, [])
unfolding on_message
orphan_message now peer buf r att there gone no_ping = rw (no_ping, there, gone) refl

orphan_close :
    (json : Json) (peer : Socket) (r : Relay) (att : Attached)
    → get peer.id r.attached ≡ some att
    → get att.room_id r.rooms ≡ none
    → on_close json peer r ≡ (record r { attached = delete peer.id r.attached }, [])
unfolding on_close
orphan_close json peer r att there gone = rw (there, gone) refl

-- When the socket of a room's host ends with no handoff pending: each peer of the room, in their order, is
-- sent HOST_GONE and closed with 1001, and nothing else is sent or closed; the room is gone, and the other
-- rooms stay. A socket that was attached to the gone room has nobody left then: whatever it sends, but a
-- ping, and its own end, reach nobody and change no room.
pub room_ends :
    (json : Json) (old peer : Socket) (r : Relay) (att att' : Attached) (room : Room)
    (key : JsString) (now : ℕ) (buf : Bytes)
    → IsIn r old att room
    → att.role ≡ Role.host
    → room.host.id ≡ old.id
    → room.handoff_deadline ≡ none
    → room.room_id ≡ att.room_id
    → IsIn r peer att' room
    → att'.room_id ≡ att.room_id
    → peer.id ≢ old.id
    → byte_is buf 0 Tag.ping ≡ false
    → let (r', outputs) = on_close json old r in
      (outputs
        ≡ flat_map
            (λ (conn_id, peer). send peer Wire.host_gone ∷ close peer 1001 (units "host gone") ∷ [])
            room.peers)
      × (get att.room_id r'.rooms ≡ none)
      × (key ≢ att.room_id → get key r'.rooms ≡ get key r.rooms)
      × (on_message now peer buf r' ≡ some (r', []))
      × (on_close json peer r' ≡ (record r' { attached = delete peer.id r'.attached }, []))
room_ends json old peer r att att' room key now buf i role own calm keyed j same apart no_ping =
    rw (on_close_tears_down json old r att room i role own calm) (
      sends_host_gone_lem room.peers,
      gone,
      λ d. rw (
        get-delete room.room_id key r.rooms,
        beq_ne {A = JsString} room.room_id key (λ e. d (sym e ∙ keyed)),
      ),
      orphan_message now peer buf (without_room old room r) att' still none_there no_ping,
      orphan_close json peer (without_room old room r) att' still none_there,
    )
  where
    gone : get att.room_id (delete room.room_id r.rooms) ≡ none
    gone =
        subst (λ k. get k (delete room.room_id r.rooms) ≡ none) keyed
          (get-delete_self room.room_id r.rooms)

    none_there : get att'.room_id (delete room.room_id r.rooms) ≡ none
    none_there = subst (λ k. get k (delete room.room_id r.rooms) ≡ none) (sym same) gone

    still : get peer.id (delete old.id r.attached) ≡ some att'
    still =
        rw
          (get-delete old.id peer.id r.attached, beq_ne {A = ℕ} old.id peer.id (λ e. apart (sym e)))
          j.attached
