-- ===== src/Relay/Registry/Invariant.antt =====
-- What holds of the relay after any sequence of events: its limits, and the freshness of connection ids.
use screen_sharing.Prelude.{
  ℕ, ◌+◌, ◌≤◌, ◌<◌, ◌≡◌, refl, true, Option, none, some, List, [], ◌∷◌, length, arith, nat_eq,
  subst, sym, ◌∙◌,
}
use screen_sharing.Prelude.Dictionary.{
  Dictionary, get, has, Entries, Entries-set, Entries-get, length-set_old,
}
use screen_sharing.Prelude.Bytes.{Bytes}
use screen_sharing.Prelude.Text.{JsString, js_string_eq}
use screen_sharing.Prelude.Json.{Json}
use screen_sharing.Relay.Wire.{Hello}
use screen_sharing.Relay.Registry.State.{Socket, RelayLimits, Room, Relay, Output}
use screen_sharing.Relay.Registry

pub data Event : Type 0 where
  hello : (now : ℕ) (token : JsString) → Socket → Hello → Event
  message : (now : ℕ) → Socket → Bytes → Event
  closed : Socket → Event
  swept : (now : ℕ) → Event

-- A message on which the relay throws changes nothing and sends nothing.
abbrev pub settle : Relay → Option (Relay × List Output) → Relay × List Output
settle r none = (r, [])
settle r (some result) = result

unfoldable pub step : Json → Relay → Event → Relay × List Output
step json r (hello now token socket h) = Registry.on_hello json now token socket h r
step json r (message now socket buf) = settle r (Registry.on_message now socket buf r)
step json r (closed socket) = Registry.on_close json socket r
step json r (swept now) = Registry.sweep now r

unfoldable pub run : Json → Relay → List Event → Relay
run json r [] = r
run json r (e ∷ es) = run json (step json r e).0 es

abbrev pub IsBelow : ℕ → ℕ → Socket → Type 0
IsBelow next conn_id peer = conn_id < next

pub record IsRoom (limits : RelayLimits) (key : JsString) (room : Room) : Type 0 where
  pub keyed : room.room_id ≡ key
  pub ids_below : Entries (IsBelow room.next_conn_id) room.peers
  pub peers_capped : length room.peers ≤ limits.max_peers_per_room

pub record IsValid (limits : RelayLimits) (r : Relay) : Type 0 where
  pub same_limits : r.limits ≡ limits
  pub rooms_capped : length r.rooms ≤ limits.max_rooms
  pub all_rooms : Entries (IsRoom limits) r.rooms

pub ids-IsBelow-suc :
    (next : ℕ) (peers : Dictionary ℕ Socket)
    → Entries (IsBelow next) peers
    → Entries (IsBelow (next + 1)) peers
ids-IsBelow-suc next [] h = tt
ids-IsBelow-suc next ((c, p) ∷ ps) (b, h) = (omega arith, ids-IsBelow-suc next ps h)

module _ (limits : RelayLimits) where
  -- Writing back a room under its own id.
  pub put_room-IsValid :
      (room : Room) (r : Relay)
      → has room.room_id r.rooms ≡ true
      → IsRoom limits room.room_id room
      → IsValid limits r
      → IsValid limits (Registry.put_room room r)
  put_room-IsValid room r there is v = record {
    same_limits = v.same_limits;
    rooms_capped = omega (arith, length-set_old room.room_id room r.rooms there, v.rooms_capped);
    all_rooms =
        Entries-set (IsRoom limits) room.room_id room r.rooms
          (λ j e. subst (λ k. IsRoom limits k room) (sym e) is) v.all_rooms;
  }

  -- Only the rooms and the limits matter.
  pub IsValid-rooms :
      (r s : Relay) → s.rooms ≡ r.rooms → s.limits ≡ r.limits → IsValid limits r → IsValid limits s
  IsValid-rooms r s e f v = record {
    same_limits = f ∙ v.same_limits;
    rooms_capped = rw e v.rooms_capped;
    all_rooms = rw e v.all_rooms;
  }

  -- The room that a lookup finds.
  pub found_room :
      (key : JsString) (room : Room) (r : Relay)
      → IsValid limits r
      → get key r.rooms ≡ some room
      → IsRoom limits room.room_id room × (room.room_id ≡ key) × (has room.room_id r.rooms ≡ true)
  found_room key room r v e =
      let is = Entries-get (IsRoom limits) key room r.rooms v.all_rooms e in
      (
        record { keyed = refl; ids_below = is.ids_below; peers_capped = is.peers_capped },
        is.keyed,
        rw (is.keyed, e) refl,
      )
