-- ===== src/Relay/Registry/Preservation.antt =====
-- Every event keeps the relay valid.
use mathlib.Core.Option
use screen_sharing.Prelude.{
  ℕ, ◌+◌, ◌<◌, ◌≡◌, refl, Bool, true, false, Option, none, some, List, [], ◌∷◌, leb, ◌==◌, length,
  arith, Bool-cases, Option-cases, inl, inr, nat_eq, sym, ap, not, ◌∙◌, leb-false,
}
use screen_sharing.Prelude.Dictionary.{
  get, set, delete, has, values, Entries-set, Entries-delete, length-set_le, length-delete_le,
}
use screen_sharing.Prelude.Bytes.{Bytes, byte_is}
use screen_sharing.Prelude.Text.{JsString, js_string_eq}
use screen_sharing.Prelude.Json.{Json}
use screen_sharing.Relay.Wire
use screen_sharing.Relay.Wire.{Hello, Role, RejectReason}
use screen_sharing.Relay.Wire.Tag
use screen_sharing.Relay.Registry.State.{Socket, RelayLimits, Room, Attached, Relay, Output}
use screen_sharing.Relay.Registry
use screen_sharing.Relay.Registry.{
  put_room, attach, allow, refuse, claim_handoff, host_hello, peer_hello, on_hello, host_message,
  peer_message, on_message, on_close, teardown_room, sweep_rooms, sweep, creates, joins,
}
use screen_sharing.Relay.Registry.Invariant.{
  Event, hello, message, closed, swept, settle, step, run, IsBelow, IsRoom, IsValid,
  ids-IsBelow-suc, put_room-IsValid, IsValid-rooms, found_room,
}

-- Rate accounting touches neither the rooms nor the attachments.
pub allow_keeps :
    (now : ℕ) (ip : JsString) (kind : Registry.Kind) (r : Relay)
    → ((allow now ip kind r).0.rooms ≡ r.rooms)
      × ((allow now ip kind r).0.limits ≡ r.limits)
      × ((allow now ip kind r).0.attached ≡ r.attached)
unfolding allow
allow_keeps now ip kind r = ground arith

module _ (limits : RelayLimits) where
  teardown_room-IsValid :
      (room : Room) (r : Relay) → IsValid limits r → IsValid limits (teardown_room room r).0
  unfolding teardown_room
  teardown_room-IsValid room r v = record {
    same_limits = v.same_limits;
    rooms_capped = omega (arith, length-delete_le room.room_id r.rooms, v.rooms_capped);
    all_rooms = Entries-delete (IsRoom limits) room.room_id r.rooms v.all_rooms;
  }

  allow-IsValid :
      (now : ℕ) (ip : JsString) (kind : Registry.Kind) (r : Relay)
      → IsValid limits r
      → IsValid limits (allow now ip kind r).0
  allow-IsValid now ip kind r v =
      let (rooms, same, _) = allow_keeps now ip kind r in
      IsValid-rooms limits r (allow now ip kind r).0 rooms same v

  module _ (json : Json) (now : ℕ) (token : JsString) (socket : Socket) where
    claim_handoff-IsValid :
        (key : JsString) (room : Room) (r : Relay)
        → get key r.rooms ≡ some room
        → IsValid limits r
        → IsValid limits (claim_handoff json token socket room r).0
    unfolding claim_handoff
    claim_handoff-IsValid key room r e v =
        let (is, _, there) = found_room limits key room r v e in
        IsValid-rooms limits
          (put_room (record room { host = socket; handoff_deadline = none; host_token = token }) r)
          _ refl refl
          (put_room-IsValid limits _ r there
            (record { keyed = refl; ids_below = is.ids_below; peers_capped = is.peers_capped }) v)

    create_room-IsValid :
        (room_id : JsString) (existing : Option Room) (s : Relay × Bool)
        → get room_id s.0.rooms ≡ existing
        → length s.0.rooms < limits.max_rooms
        → IsValid limits s.0
        → IsValid limits (Registry.create_room json token socket room_id existing s).0
    unfolding refuse
    create_room-IsValid room_id existing (s, false) e below v = v
    create_room-IsValid room_id (some room) (s, true) e below v = v
    create_room-IsValid room_id none (s, true) e below v = record {
      same_limits = v.same_limits;
      rooms_capped = omega (arith, length-set_le room_id fresh s.rooms);
      all_rooms =
          Entries-set (IsRoom limits) room_id fresh s.rooms
            (λ j p. record { keyed = sym p; ids_below = tt; peers_capped = omega arith })
            v.all_rooms;
    }
      where
        fresh : Room
        fresh = record {
          room_id = room_id;
          host_token = token;
          host = socket;
          peers = [];
          next_conn_id = 1;
          handoff_deadline = none;
        }

    open_room-IsValid :
        (room_id : JsString) (existing : Option Room) (r : Relay)
        → get room_id r.rooms ≡ existing
        → IsValid limits r
        → IsValid limits (Registry.open_room json now token socket room_id existing r).0
    unfolding refuse
    open_room-IsValid room_id existing r e v =
        elim (Bool-cases (leb r.limits.max_rooms (length r.rooms))) [
          | inl full ↦ rw full v
          | inr room ↦
              let (rooms, same, _) = allow_keeps now socket.ip creates r in
              rw room (
                create_room-IsValid room_id existing (allow now socket.ip creates r)
                  (ap (get room_id) rooms ∙ e)
                  (omega (
                    arith,
                    leb-false _ _ room,
                    ap (length {A = JsString × Room}) rooms,
                    ap (λ (l : RelayLimits). l.max_rooms) v.same_limits,
                  ))
                  (allow-IsValid now socket.ip creates r v))
        ]

    host_hello-IsValid :
        (h : Hello) (r : Relay)
        → IsValid limits r
        → IsValid limits (host_hello json now token socket h r).0
    unfolding host_hello
    host_hello-IsValid h r v = elim (Option-cases (get h.room_id r.rooms)) [
      | inl e ↦ rw e (open_room-IsValid h.room_id none r e v)
      | inr (room, e) ↦ rw e (existing room e)
    ]
      where
        existing :
            (room : Room)
            → get h.room_id r.rooms ≡ some room
            → IsValid limits
                (Registry.host_hello_on json now token socket h.room_id (some room) r).0
        existing room e = elim (Bool-cases (Registry.in_grace now room.handoff_deadline)) [
          | inl t ↦ rw t (claim_handoff-IsValid h.room_id room r e v)
          | inr f ↦ rw f (open_room-IsValid h.room_id (some room) r e v)
        ]

    join_room-IsValid :
        (key : JsString) (room : Room) (s : Relay × Bool)
        → get key s.0.rooms ≡ some room
        → length room.peers < limits.max_peers_per_room
        → IsValid limits s.0
        → IsValid limits (Registry.join_room json socket room s).0
    unfolding refuse
    join_room-IsValid key room (s, false) e below v = v
    join_room-IsValid key room (s, true) e below v =
        let (is, _, there) = found_room limits key room s v e in
        IsValid-rooms limits (put_room joined s) _ refl refl (
          put_room-IsValid limits joined s there
            (record {
              keyed = refl;
              ids_below =
                  Entries-set (IsBelow (room.next_conn_id + 1)) room.next_conn_id socket room.peers
                    (λ j p. omega arith)
                    (ids-IsBelow-suc room.next_conn_id room.peers is.ids_below);
              peers_capped = omega (arith, length-set_le room.next_conn_id socket room.peers);
            })
            v)
      where
        joined : Room
        joined = record room {
          next_conn_id = room.next_conn_id + 1;
          peers = set room.next_conn_id socket room.peers;
        }

    peer_hello-IsValid :
        (h : Hello) (r : Relay)
        → IsValid limits r
        → IsValid limits (peer_hello json now socket h r).0
    unfolding peer_hello refuse
    peer_hello-IsValid h r v = elim (Option-cases (get h.room_id r.rooms)) [
      | inl e ↦ rw e v
      | inr (room, e) ↦ rw e (existing room e)
    ]
      where
        existing :
            (room : Room)
            → get h.room_id r.rooms ≡ some room
            → IsValid limits (Registry.peer_hello_on json now socket (some room) r).0
        existing room e = elim (Bool-cases (leb r.limits.max_peers_per_room (length room.peers))) [
          | inl full ↦ rw full v
          | inr free ↦
              let (rooms, same, _) = allow_keeps now socket.ip joins r in
              rw free (
                join_room-IsValid h.room_id room (allow now socket.ip joins r)
                  (ap (get h.room_id) rooms ∙ e)
                  (omega (
                    arith,
                    leb-false _ _ free,
                    ap (λ (l : RelayLimits). l.max_peers_per_room) v.same_limits,
                  ))
                  (allow-IsValid now socket.ip joins r v))
        ]

    on_hello-IsValid :
        (h : Hello) (r : Relay)
        → IsValid limits r
        → IsValid limits (on_hello json now token socket h r).0
    unfolding on_hello refuse
    on_hello-IsValid h r v = elim (Bool-cases (has socket.id r.attached)) [
      | inl t ↦ rw t v
      | inr f ↦ rw f (elim (Bool-cases (not (h.proto == 1))) [
        | inl t ↦ rw t v
        | inr g ↦ rw g (by_role h.role)
      ])
    ]
      where
        by_role :
            (role : Role) → IsValid limits (Registry.role_hello json now token socket h role r).0
        by_role Role.host = host_hello-IsValid h r v
        by_role Role.peer = peer_hello-IsValid h r v

  -- A room written back with fewer peers.
  fewer_peers-IsValid :
      (key : JsString) (room : Room) (conn_id : ℕ) (r : Relay)
      → get key r.rooms ≡ some room
      → IsValid limits r
      → IsValid limits (put_room (record room { peers = delete conn_id room.peers }) r)
  fewer_peers-IsValid key room conn_id r e v =
      let (is, _, there) = found_room limits key room r v e in
      put_room-IsValid limits _ r there
        (record {
          keyed = refl;
          ids_below = Entries-delete (IsBelow room.next_conn_id) conn_id room.peers is.ids_below;
          peers_capped = omega (arith, length-delete_le conn_id room.peers, is.peers_capped);
        })
        v

  kick_found-IsValid :
      (key : JsString) (room : Room) (conn_id : Option ℕ) (r : Relay)
      → get key r.rooms ≡ some room
      → IsValid limits r
      → IsValid limits (Registry.kick_found room conn_id r).0
  kick_found-IsValid key room none r e v = v
  kick_found-IsValid key room (some c) r e v = elim (Option-cases (get c room.peers)) [
    | inl n ↦ rw (n, Registry.kick_found) v
    | inr (peer, p) ↦ rw (p, Registry.kick_found) (fewer_peers-IsValid key room c r e v)
  ]

  host_message-IsValid :
      (now : ℕ) (socket : Socket) (buf : Bytes) (key : JsString) (room : Room) (r : Relay)
      → get key r.rooms ≡ some room
      → IsValid limits r
      → IsValid limits (host_message now socket buf room r).0
  unfolding host_message
  host_message-IsValid now socket buf key room r e v = elim (Bool-cases (byte_is buf 0 Tag.kick)) [
    | inl t ↦ rw t (kick_found-IsValid key room (Wire.decode_kick buf) r e v)
    | inr f ↦ rw f (elim (Bool-cases (byte_is buf 0 Tag.handoff)) [
      | inl t ↦ rw t (elim (Bool-cases (room.host.id == socket.id)) [
        | inl own ↦ rw own begun
        | inr other ↦ rw other v
      ])
      | inr g ↦ rw g v
    ])
  ]
    where
      begun :
          IsValid limits
            (put_room (record room { handoff_deadline = some (now + Registry.handoff_grace_ms) }) r)
      begun =
          let (is, _, there) = found_room limits key room r v e in
          put_room-IsValid limits _ r there
            (record { keyed = refl; ids_below = is.ids_below; peers_capped = is.peers_capped }) v

  peer_message-IsValid :
      (outputs : Option (List Output)) (r : Relay)
      → IsValid limits r
      → IsValid limits (settle r (Option.map (λ o. (r, o)) outputs)).0
  peer_message-IsValid none r v = v
  peer_message-IsValid (some o) r v = v

  room_message-IsValid :
      (now : ℕ) (socket : Socket) (buf : Bytes) (att : Attached) (role : Role) (room : Room)
      (r : Relay)
      → get att.room_id r.rooms ≡ some room
      → IsValid limits r
      → IsValid limits (settle r (Registry.role_message now socket buf att role room r)).0
  room_message-IsValid now socket buf att Role.host room r e v =
      host_message-IsValid now socket buf att.room_id room r e v
  room_message-IsValid now socket buf att Role.peer room r e v =
      peer_message-IsValid (peer_message att buf room) r v

  attached_message-IsValid :
      (now : ℕ) (socket : Socket) (buf : Bytes) (att : Option Attached) (r : Relay)
      → IsValid limits r
      → IsValid limits (settle r (Registry.attached_message now socket buf att r)).0
  attached_message-IsValid now socket buf none r v = v
  attached_message-IsValid now socket buf (some att) r v =
      elim (Option-cases (get att.room_id r.rooms)) [
        | inl n ↦ rw n v
        | inr (room, e) ↦ rw e (room_message-IsValid now socket buf att att.role room r e v)
      ]

  on_message-IsValid :
      (now : ℕ) (socket : Socket) (buf : Bytes) (r : Relay)
      → IsValid limits r
      → IsValid limits (settle r (on_message now socket buf r)).0
  unfolding on_message
  on_message-IsValid now socket buf r v = elim (Bool-cases (byte_is buf 0 Tag.ping)) [
    | inl t ↦ rw t v
    | inr f ↦ rw f (attached_message-IsValid now socket buf (get socket.id r.attached) r v)
  ]

  module _ (json : Json) (socket : Socket) where
    close_peer-IsValid :
        (key : JsString) (conn_id : Option ℕ) (room : Room) (r : Relay)
        → get key r.rooms ≡ some room
        → IsValid limits r
        → IsValid limits (Registry.close_peer json conn_id room r).0
    close_peer-IsValid key none room r e v = v
    close_peer-IsValid key (some c) room r e v = fewer_peers-IsValid key room c r e v

    close_role-IsValid :
        (att : Attached) (role : Role) (room : Room) (r : Relay)
        → get att.room_id r.rooms ≡ some room
        → IsValid limits r
        → IsValid limits (Registry.close_role json socket att role room r).0
    close_role-IsValid att Role.peer room r e v =
        close_peer-IsValid att.room_id att.conn_id room r e v
    close_role-IsValid att Role.host room r e v = elim (Bool-cases (room.host.id == socket.id)) [
      | inr other ↦ rw other v
      | inl own ↦ rw own (elim (Bool-cases (Registry.is_pending room.handoff_deadline)) [
        | inl t ↦ rw t v
        | inr f ↦ rw f (teardown_room-IsValid room r v)
      ])
    ]

    close_in-IsValid :
        (att : Attached) (r : Relay)
        → IsValid limits r
        → IsValid limits (Registry.close_in json socket att (get att.room_id r.rooms) r).0
    close_in-IsValid att r v = elim (Option-cases (get att.room_id r.rooms)) [
      | inl n ↦ rw n v
      | inr (room, e) ↦ rw e (close_role-IsValid att att.role room r e v)
    ]

    on_close-IsValid : (r : Relay) → IsValid limits r → IsValid limits (on_close json socket r).0
    unfolding on_close
    on_close-IsValid r v = elim (Option-cases (get socket.id r.attached)) [
      | inl n ↦ rw n v
      | inr (att, e) ↦ rw e (
          close_in-IsValid att (record r { attached = delete socket.id r.attached })
            (IsValid-rooms limits r _ refl refl v))
    ]

  sweep_rooms-IsValid :
      (now : ℕ) (rooms : List Room) (r : Relay)
      → IsValid limits r
      → IsValid limits (sweep_rooms now rooms r).0
  unfolding sweep_rooms
  sweep_rooms-IsValid now [] r v = v
  sweep_rooms-IsValid now (room ∷ rooms) r v =
      elim (Bool-cases (Registry.is_expired now room.handoff_deadline)) [
        | inl t ↦ rw t (
            sweep_rooms-IsValid now rooms (teardown_room room r).0 (teardown_room-IsValid room r v))
        | inr f ↦ rw f (sweep_rooms-IsValid now rooms r v)
      ]

  sweep-IsValid : (now : ℕ) (r : Relay) → IsValid limits r → IsValid limits (sweep now r).0
  unfolding sweep
  sweep-IsValid now r v =
      IsValid-rooms limits (sweep_rooms now (values r.rooms) r).0 _ refl refl
        (sweep_rooms-IsValid now (values r.rooms) r v)

  step-IsValid :
      (json : Json) (r : Relay) (e : Event) → IsValid limits r → IsValid limits (step json r e).0
  unfolding step
  step-IsValid json r (hello now token socket h) v = on_hello-IsValid json now token socket h r v
  step-IsValid json r (message now socket buf) v = on_message-IsValid now socket buf r v
  step-IsValid json r (closed socket) v = on_close-IsValid json socket r v
  step-IsValid json r (swept now) v = sweep-IsValid now r v

  run_from-IsValid :
      (json : Json) (r : Relay) (es : List Event)
      → IsValid limits r
      → IsValid limits (run json r es)
  unfolding run
  run_from-IsValid json r [] v = v
  run_from-IsValid json r (e ∷ es) v =
      run_from-IsValid json (step json r e).0 es (step-IsValid json r e v)

-- After any sequence of events (hellos, messages, closed sockets, sweeps, at any times and with any
-- tokens) a relay that started empty is valid: it has at most `maxRooms` rooms, each stands under its
-- own id with at most `maxPeersPerRoom` peers, and every connection id in use is below the room's next.
pub run-IsValid :
    (limits : RelayLimits) (json : Json) (es : List Event)
    → IsValid limits (run json (Registry.new limits) es)
unfolding Registry.new
run-IsValid limits json es =
    run_from-IsValid limits json (Registry.new limits) es
      (record { same_limits = refl; rooms_capped = omega arith; all_rooms = tt })
