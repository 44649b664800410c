-- ===== src/Relay/Registry/Handoff.antt =====
-- The graceful handoff of a room: HANDOFF from the host, its socket's end, the successor's claim, or the
-- end of the grace window.
use mathlib.Core.List.{flat_map}
use screen_sharing.Prelude.{
  ap, ℕ, ◌+◌, ◌<◌, ◌^◌, ◌≡◌, ◌≢◌, refl, true, none, some, [], ◌∷◌, ◌==◌, if◌then◌else◌, arith,
  nat_eq, subst, sym, ◌∙◌, beq_ne,
}
use screen_sharing.Prelude.Dictionary.{
  Dictionary, get, set, delete, get-set, get-set_self, get-delete,
}
use screen_sharing.Prelude.Bytes.{Bytes}
use screen_sharing.Prelude.Text.{JsString, units, js_string_eq}
use screen_sharing.Prelude.Json.{Json}
use screen_sharing.Relay.Wire
use screen_sharing.Relay.Wire.{Role, Hello}
use screen_sharing.Net.RelayWire.{encode_handoff, encode_kick}
use screen_sharing.Relay.Registry.State.{
  Socket, Room, Attached, Relay, send, close, handoff_grace_ms,
}
use screen_sharing.Relay.Registry
use screen_sharing.Relay.Registry.{
  on_message, on_close, on_hello, host_hello, host_message, put_room, claim_handoff, teardown_room,
  announce_peers, sends_host_gone, sweep_rooms, attach,
}
use screen_sharing.Relay.Registry.Routing.{IsIn, on_message_kick}
use screen_sharing.Relay.Registry.Invariant.{settle}

-- The room after the host's HANDOFF.
abbrev pub handing_off : ℕ → Room → Room
handing_off now room = record room { handoff_deadline = some (now + handoff_grace_ms) }

-- HANDOFF (`encodeHandoff`) from an attached host reserves its room until 8 s later, and changes nothing
-- if the socket is no longer the room's host; nothing is sent.
pub on_message_handoff :
    (now : ℕ) (socket : Socket) (r : Relay) (att : Attached) (room : Room)
    → IsIn r socket att room
    → att.role ≡ Role.host
    → on_message now socket encode_handoff r
      ≡ some ((if room.host.id == socket.id then put_room (handing_off now room) r else r), [])
unfolding on_message host_message
on_message_handoff now socket r att room i role = rw (i.attached, i.found, role) (ground arith)

-- The room after a successor's claim.
abbrev pub claimed : Socket → JsString → Room → Room
claimed successor token room = record room {
  host = successor;
  handoff_deadline = none;
  host_token = token;
}

-- The relay after the claim.
abbrev pub claimed_relay : Socket → JsString → Room → Relay → Relay
claimed_relay successor token room r =
    attach successor (record { role = Role.host; room_id = room.room_id; conn_id = none })
      (put_room (claimed successor token room) r)

on_hello_claim :
    (json : Json) (now deadline : ℕ) (token : JsString) (successor : Socket) (h : Hello) (r : Relay)
    (room : Room)
    → get successor.id r.attached ≡ none
    → h.proto ≡ 1
    → h.role ≡ Role.host
    → get h.room_id r.rooms ≡ some room
    → room.handoff_deadline ≡ some deadline
    → now < deadline
    → on_hello json now token successor h r ≡ (
      claimed_relay successor token room r,
      send successor (Wire.ready_host json token) ∷ announce_peers json successor room.peers,
    )
unfolding on_hello host_hello claim_handoff
on_hello_claim json now deadline token successor h r room new proto role found pending early =
    rw (new, proto, role, found, in_time)
  where
    in_time : Registry.in_grace now room.handoff_deadline ≡ true
    in_time = rw pending (ground arith)

-- A fresh socket that says hello as host of a room within the room's grace window takes it over: it gets
-- a READY and a PEER_UP for every peer of the room, each of which gets HOST_CLAIMED; the room keeps its
-- peers and their connection ids. No limit on rooms or rates is asked.
pub on_hello_claims :
    (json : Json) (now deadline : ℕ) (token : JsString) (successor : Socket) (h : Hello) (r : Relay)
    (room : Room)
    → get successor.id r.attached ≡ none
    → h.proto ≡ 1
    → h.role ≡ Role.host
    → get h.room_id r.rooms ≡ some room
    → room.room_id ≡ h.room_id
    → room.handoff_deadline ≡ some deadline
    → now < deadline
    → let (r', outputs) = on_hello json now token successor h r in
      (outputs
        ≡ send successor (Wire.ready_host json token) ∷ announce_peers json successor room.peers)
      × (get h.room_id r'.rooms ≡ some (claimed successor token room))
      × (get successor.id r'.attached
          ≡ some (record { role = Role.host; room_id = room.room_id; conn_id = none }))
on_hello_claims json now deadline token successor h r room new proto role found keyed pending
      early =
    rw
      (on_hello_claim json now deadline token successor h r room new proto role found pending early)
      (
        refl,
        subst
            (λ k.
              get k (set room.room_id (claimed successor token room) r.rooms)
              ≡ some (claimed successor token room))
            keyed (get-set_self room.room_id (claimed successor token room) r.rooms),
        get-set_self successor.id _ r.attached,
      )

close_pending :
    (json : Json) (socket : Socket) (r : Relay) (att : Attached) (room : Room) (deadline : ℕ)
    → IsIn r socket att room
    → att.role ≡ Role.host
    → room.handoff_deadline ≡ some deadline
    → on_close json socket r ≡ (record r { attached = delete socket.id r.attached }, [])
unfolding on_close
close_pending json socket r att room deadline i role e =
    rw (i.attached, i.found, role) (ground arith)

module _ (t₀ : ℕ) (old : Socket) (r : Relay) (att : Attached) (room : Room)
    (i : IsIn r old att room) (role : att.role ≡ Role.host) (own : room.host.id ≡ old.id)
    (keyed : room.room_id ≡ att.room_id) where
  abbrev begun_relay : Relay
  begun_relay = put_room (handing_off t₀ room) r

  handoff_begins : on_message t₀ old encode_handoff r ≡ some (begun_relay, [])
  handoff_begins =
      subst (λ b. on_message t₀ old encode_handoff r ≡ some ((if b then begun_relay else r), []))
        own_socket (on_message_handoff t₀ old r att room i role)
    where
      own_socket : (room.host.id == old.id) ≡ true
      own_socket = ground arith

  handoff_found : get att.room_id begun_relay.rooms ≡ some (handing_off t₀ room)
  handoff_found =
      subst
        (λ k. get k (set room.room_id (handing_off t₀ room) r.rooms) ≡ some (handing_off t₀ room))
        keyed (get-set_self room.room_id (handing_off t₀ room) r.rooms)

  handoff-IsIn : IsIn begun_relay old att (handing_off t₀ room)
  handoff-IsIn = record { attached = i.attached; found = handoff_found }

announce_peers_lem :
    (json : Json) (host : Socket) (peers : Dictionary ℕ Socket)
    → announce_peers json host peers
      ≡ flat_map
          (λ (conn_id, peer).
            send host (Wire.peer_up json conn_id) ∷ send peer Wire.host_claimed ∷ [])
          peers
unfolding flat_map
announce_peers_lem json host [] = refl
announce_peers_lem json host ((conn_id, peer) ∷ peers) =
    ap (λ rest. send host (Wire.peer_up json conn_id) ∷ send peer Wire.host_claimed ∷ rest)
      (announce_peers_lem json host peers)

-- The whole graceful handoff: a room's host sends HANDOFF and its socket ends, and before 8 s have passed
-- a fresh socket says hello as host of that room, in protocol 1. Then nothing was sent or closed when the
-- old host left; on the claim the new host gets a READY, and for each of the room's peers, in their order, the new host
-- gets a PEER_UP with its connection id and the peer gets a HOST_CLAIMED, and nothing else is sent or
-- closed; the new host's room has the same peers under the same connection ids.
pub graceful_handoff :
    (json : Json) (t₀ t₁ : ℕ) (token : JsString) (old successor : Socket) (h : Hello) (r : Relay)
    (att : Attached) (room : Room)
    → IsIn r old att room
    → att.role ≡ Role.host
    → room.host.id ≡ old.id
    → room.room_id ≡ att.room_id
    → get successor.id r.attached ≡ none
    → h.proto ≡ 1
    → h.role ≡ Role.host
    → h.room_id ≡ att.room_id
    → t₁ < t₀ + handoff_grace_ms
    → let (r₁, sent₁) = settle r (on_message t₀ old encode_handoff r) in
      let (r₂, sent₂) = on_close json old r₁ in
      let (r₃, sent₃) = on_hello json t₁ token successor h r₂ in
      (sent₁ ≡ [])
      × (sent₂ ≡ [])
      × (sent₃
          ≡ send successor (Wire.ready_host json token)
            ∷ flat_map
                (λ (conn_id, peer).
                  send successor (Wire.peer_up json conn_id) ∷ send peer Wire.host_claimed ∷ [])
                room.peers)
      × (get h.room_id r₃.rooms ≡ some (claimed successor token room))
graceful_handoff json t₀ t₁ token old successor h r att room i role own keyed new proto hrole hroom
      early =
    let (sent, there, _) =
      on_hello_claims json t₁ (t₀ + handoff_grace_ms) token successor h r₂ (handing_off t₀ room)
        still_new proto hrole found (keyed ∙ sym hroom) refl early in
    rw (handoff_begins t₀ old r att room i role own keyed, closes)
      (
        refl,
        refl,
        sent
            ∙ ap (λ l. send successor (Wire.ready_host json token) ∷ l)
                (announce_peers_lem json successor room.peers),
        there,
      )
  where
    r₁ : Relay
    r₁ = begun_relay t₀ old r att room i role own keyed

    r₂ : Relay
    r₂ = record r₁ { attached = delete old.id r.attached }

    closes : on_close json old r₁ ≡ (r₂, [])
    closes =
        close_pending json old r₁ att (handing_off t₀ room) (t₀ + handoff_grace_ms)
          (handoff-IsIn t₀ old r att room i role own keyed) role refl

    still_new : get successor.id r₂.attached ≡ none
    still_new = rw (get-delete old.id successor.id r.attached, new) (ground arith)

    found : get h.room_id r₂.rooms ≡ some (handing_off t₀ room)
    found = rw hroom (handoff_found t₀ old r att room i role own keyed)

-- A host whose handoff was claimed by another socket, and whose own socket has not ended, still kicks the
-- peers of what is now the successor's room: the peer with the id that it names (below 2^32) leaves that
-- room and its socket is closed.
pub superseded_host_kicks :
    (json : Json) (t₀ t₁ t₂ : ℕ) (token : JsString) (old successor : Socket) (h : Hello) (r : Relay)
    (att : Attached) (room : Room) (c : ℕ) (peer : Socket)
    → IsIn r old att room
    → att.role ≡ Role.host
    → room.host.id ≡ old.id
    → room.room_id ≡ att.room_id
    → get successor.id r.attached ≡ none
    → h.proto ≡ 1
    → h.role ≡ Role.host
    → h.room_id ≡ att.room_id
    → t₁ < t₀ + handoff_grace_ms
    → c < 2 ^ 32
    → get c room.peers ≡ some peer
    → (buf : Bytes) × (encode_kick c ≡ some buf)
      × (let (r₁, _) = settle r (on_message t₀ old encode_handoff r) in
          let (r₂, _) = on_hello json t₁ token successor h r₁ in
          on_message t₂ old buf r₂
          ≡ some (
            put_room (record (claimed successor token room) { peers = delete c room.peers }) r₂,
            close peer 1000 (units "kicked") ∷ [],
          ))
superseded_host_kicks json t₀ t₁ t₂ token old successor h r att room c peer i role own keyed new
      proto hrole hroom early fits there =
    let (buf, written, kicks, _) =
      on_message_kick t₂ old r₂ att (claimed successor token room) c inside role fits in
    (buf, written, rw (handoff_begins t₀ old r att room i role own keyed, claim) (kicks peer there))
  where
    r₁ : Relay
    r₁ = begun_relay t₀ old r att room i role own keyed

    r₂ : Relay
    r₂ = claimed_relay successor token (handing_off t₀ room) r₁

    claim : on_hello json t₁ token successor h r₁ ≡ (
      r₂,
      send successor (Wire.ready_host json token) ∷ announce_peers json successor room.peers,
    )
    claim =
        on_hello_claim json t₁ (t₀ + handoff_grace_ms) token successor h r₁ (handing_off t₀ room)
          new proto hrole (rw hroom (handoff_found t₀ old r att room i role own keyed)) refl early

    apart : successor.id ≢ old.id
    apart e = cc (i.attached, new, e)

    inside : IsIn r₂ old att (claimed successor token room)
    inside = record {
      attached =
          rw (get-set successor.id old.id _ r.attached, beq_ne {A = ℕ} successor.id old.id apart)
            i.attached;
      found =
          subst (λ k. get k r₂.rooms ≡ some (claimed successor token room)) keyed
            (get-set_self room.room_id (claimed successor token room) r₁.rooms);
    }
