-- ===== src/Relay/Registry/Reopening.antt =====
-- What a hello that opens a room, and one that joins it, leave of the relay.
use screen_sharing.Prelude.{
  ℕ, ◌<◌, ◌≡◌, ◌≢◌, refl, true, false, none, some, [], nat_eq, subst, sym, ap, ◌∙◌, length, arith,
  beq_ne, leb, List,
}
use screen_sharing.Prelude.Dictionary.{
  Dictionary, get, set, delete, get-set, get-set_self, get-delete,
}
use screen_sharing.Prelude.Text.{JsString, js_string_eq}
use screen_sharing.Prelude.Json.{Json}
use screen_sharing.Relay.Wire.{Role, Hello}
use screen_sharing.Relay.Registry.State.{Socket, Room, Attached, Relay, Output}
use screen_sharing.Relay.Registry
use screen_sharing.Relay.Registry.{
  on_close, on_hello, on_message, allow, creates, joins, attach, put_room, teardown_room,
  sends_host_gone, host_hello, peer_hello,
}
use screen_sharing.Relay.Registry.Routing.{joined, join_shape}
use screen_sharing.Relay.Registry.Preservation.{allow_keeps}

-- A room that a hello opens.
abbrev pub opened : JsString → Socket → JsString → Room
opened token socket room_id = record {
  room_id = room_id;
  host_token = token;
  host = socket;
  peers = [];
  next_conn_id = 1;
  handoff_deadline = none;
}

on_hello_opens :
    (json : Json) (now : ℕ) (token : JsString) (socket : Socket) (h : Hello) (r : Relay)
    → get socket.id r.attached ≡ none
    → h.proto ≡ 1
    → h.role ≡ Role.host
    → get h.room_id r.rooms ≡ none
    → length r.rooms < r.limits.max_rooms
    → (allow now socket.ip creates r).1 ≡ true
    → (on_hello json now token socket h r).0
      ≡ attach socket
          (record { role = Role.host; room_id = h.room_id; conn_id = none })
          (put_room (opened token socket h.room_id) (allow now socket.ip creates r).0)
unfolding on_hello host_hello
on_hello_opens json now token socket h r new proto role none_there free allowed =
    rw (new, proto, role, none_there)
      (rw (full (length r.rooms) r.limits.max_rooms free) (
        ap
          (λ b.
            (Registry.create_room json token socket h.room_id none
              ((allow now socket.ip creates r).0, b)).0)
          allowed))
  where
    full : (a b : ℕ) → a < b → leb b a ≡ false
    full a b k = ground arith

on_hello_joins :
    (json : Json) (now : ℕ) (token : JsString) (socket : Socket) (h : Hello) (r : Relay)
    (room : Room)
    → get socket.id r.attached ≡ none
    → h.proto ≡ 1
    → h.role ≡ Role.peer
    → get h.room_id r.rooms ≡ some room
    → length room.peers < r.limits.max_peers_per_room
    → (allow now socket.ip joins r).1 ≡ true
    → (on_hello json now token socket h r).0
      ≡ attach socket
          (record { role = Role.peer; room_id = room.room_id; conn_id = some room.next_conn_id })
          (put_room (joined socket room) (allow now socket.ip joins r).0)
unfolding on_hello peer_hello
on_hello_joins json now token socket h r room new proto role found free allowed =
    rw (new, proto, role)
      (ap (λ (q : Relay × List Output). q.0)
        (join_shape json now socket h r room found free allowed))

get-set_other :
    {V : Type 0} (k j : ℕ) (v : V) (m : Dictionary ℕ V) → k ≢ j → get j (set k v m) ≡ get j m
get-set_other k j v m d = rw (get-set k j v m, beq_ne {A = ℕ} k j d) refl

pub get-delete_other :
    {V : Type 0} (k j : ℕ) (m : Dictionary ℕ V) → k ≢ j → get j (delete k m) ≡ get j m
get-delete_other k j m d = rw (get-delete k j m, beq_ne {A = ℕ} k j d) refl

-- What a hello leaves of the other sockets, and its room.
pub on_hello-opened :
    (json : Json) (now : ℕ) (token : JsString) (socket : Socket) (h : Hello) (r : Relay)
    → get socket.id r.attached ≡ none
    → h.proto ≡ 1
    → h.role ≡ Role.host
    → get h.room_id r.rooms ≡ none
    → length r.rooms < r.limits.max_rooms
    → (allow now socket.ip creates r).1 ≡ true
    → let r' = (on_hello json now token socket h r).0 in
      (get h.room_id r'.rooms ≡ some (opened token socket h.room_id))
      × ((k : ℕ) → k ≢ socket.id → get k r'.attached ≡ get k r.attached)
      × (r'.limits ≡ r.limits)
on_hello-opened json now token socket h r new proto role none_there free allowed =
    let (_, limits, attached) = allow_keeps now socket.ip creates r in
    rw (on_hello_opens json now token socket h r new proto role none_there free allowed) (
      get-set_self h.room_id (opened token socket h.room_id) _,
      λ k d. get-set_other socket.id k _ _ (λ e. d (sym e)) ∙ ap (get k) attached,
      limits,
    )

pub on_hello-joined :
    (json : Json) (now : ℕ) (token : JsString) (socket : Socket) (h : Hello) (r : Relay)
    (room : Room)
    → get socket.id r.attached ≡ none
    → h.proto ≡ 1
    → h.role ≡ Role.peer
    → get h.room_id r.rooms ≡ some room
    → room.room_id ≡ h.room_id
    → length room.peers < r.limits.max_peers_per_room
    → (allow now socket.ip joins r).1 ≡ true
    → let r' = (on_hello json now token socket h r).0 in
      (get h.room_id r'.rooms ≡ some (joined socket room))
      × ((k : ℕ) → k ≢ socket.id → get k r'.attached ≡ get k r.attached)
      × (get socket.id r'.attached
          ≡ some
              (record { role = Role.peer; room_id = h.room_id; conn_id = some room.next_conn_id }))
on_hello-joined json now token socket h r room new proto role found keyed free allowed =
    let (_, _, attached) = allow_keeps now socket.ip joins r in
    rw (on_hello_joins json now token socket h r room new proto role found free allowed) (
      subst
          (λ k.
            get k (set room.room_id (joined socket room) (allow now socket.ip joins r).0.rooms)
            ≡ some (joined socket room))
          keyed
          (get-set_self room.room_id (joined socket room) (allow now socket.ip joins r).0.rooms),
      λ k d. get-set_other socket.id k _ _ (λ e. d (sym e)) ∙ ap (get k) attached,
      get-set_self socket.id _ _ ∙ ap (λ k. some (attachment k)) keyed,
    )
  where
    attachment : JsString → Attached
    attachment k = record { role = Role.peer; room_id = k; conn_id = some room.next_conn_id }
