-- ===== src/Relay/Registry/Stale.antt =====
-- Sockets that outlive their room, or their turn as its host.
use screen_sharing.Prelude.{
  ℕ, ◌<◌, ◌≡◌, ◌≢◌, refl, true, none, some, [], ◌∷◌, nat_eq, subst, sym, ap, ◌∙◌, length,
}
use screen_sharing.Prelude.Dictionary.{get, set, delete, get-set_self, get-delete_self}
use screen_sharing.Prelude.Text.{JsString, js_string_eq}
use screen_sharing.Prelude.Json.{Json}
use screen_sharing.Relay.Wire
use screen_sharing.Relay.Wire.{Role, Hello}
use screen_sharing.Relay.Registry.State.{Socket, Room, Attached, Relay, RelayLimits, send}
use screen_sharing.Relay.Registry.{on_close, on_hello, allow, creates, joins, put_room}
use screen_sharing.Relay.Registry.Routing.{IsIn, joined}
use screen_sharing.Relay.Registry.Teardown.{on_close_tears_down}
use screen_sharing.Relay.Registry.Reopening.{
  opened, on_hello-opened, on_hello-joined, get-delete_other,
}

-- What the end of an attached peer's socket does.
on_close_peer :
    (json : Json) (socket : Socket) (r : Relay) (att : Attached) (room : Room) (c : ℕ)
    → IsIn r socket att room
    → att.role ≡ Role.peer
    → att.conn_id ≡ some c
    → on_close json socket r ≡ (
      put_room
          (record room { peers = delete c room.peers })
          (record r { attached = delete socket.id r.attached }),
      send room.host (Wire.peer_down json c) ∷ [],
    )
unfolding on_close
on_close_peer json socket r att room c i role conn = rw (i.attached, i.found, role, conn) refl

-- A socket that outlives its room. A host's socket ends with no handoff pending, while a peer with
-- connection id 1 is attached to its room; another host opens a room under that id, and a newcomer joins it,
-- on fresh sockets, in protocol 1 and within the limits and rates; only then the old peer's socket ends. Then the newcomer,
-- who was there under connection id 1, is no longer in the room, its host is told PEER_DOWN for it, and
-- the newcomer itself is told nothing and stays attached.
pub on_close_evicts :
    (json : Json) (t₁ t₂ : ℕ) (token : JsString) (old stale host newcomer : Socket) (h h' : Hello)
    (r : Relay) (att att' : Attached) (room : Room)
    → IsIn r old att room
    → att.role ≡ Role.host
    → room.host.id ≡ old.id
    → room.handoff_deadline ≡ none
    → room.room_id ≡ att.room_id
    → IsIn r stale att' room
    → att'.role ≡ Role.peer
    → att'.room_id ≡ att.room_id
    → att'.conn_id ≡ some 1
    → stale.id ≢ old.id
    → get host.id r.attached ≡ none
    → h.proto ≡ 1
    → h.role ≡ Role.host
    → h.room_id ≡ att.room_id
    → get newcomer.id r.attached ≡ none
    → newcomer.id ≢ host.id
    → h'.proto ≡ 1
    → h'.role ≡ Role.peer
    → h'.room_id ≡ att.room_id
    → length (on_close json old r).0.rooms < r.limits.max_rooms
    → 0 < r.limits.max_peers_per_room
    → (allow t₁ host.ip creates (on_close json old r).0).1 ≡ true
    → (allow t₂ newcomer.ip joins (on_hello json t₁ token host h (on_close json old r).0).0).1
      ≡ true
    → let (r₁, _) = on_close json old r in
      let (r₂, _) = on_hello json t₁ token host h r₁ in
      let (r₃, _) = on_hello json t₂ token newcomer h' r₂ in
      let (r₄, sent) = on_close json stale r₃ in
      (before : Room) × (after : Room) × (get att.room_id r₃.rooms ≡ some before)
      × (get 1 before.peers ≡ some newcomer)
      × (get att.room_id r₄.rooms ≡ some after)
      × (get 1 after.peers ≡ none)
      × (sent ≡ send host (Wire.peer_down json 1) ∷ [])
      × (get newcomer.id r₄.attached
          ≡ some (record { role = Role.peer; room_id = att.room_id; conn_id = some 1 }))
on_close_evicts json t₁ t₂ token old stale host newcomer h h' r att att' room i role own calm keyed
      j peer same conn apart new proto hrole hroom new' apart' proto' hrole' hroom' free places rate
      rate' =
    let e₁ = on_close_tears_down json old r att room i role own calm in
    let gone : get h.room_id (on_close json old r).0.rooms ≡ none =
      rw (e₁, hroom, ← keyed) (get-delete_self room.room_id r.rooms) in
    let kept : (k : ℕ) → k ≢ old.id → get k (on_close json old r).0.attached ≡ get k r.attached =
      λ k d. rw e₁ (get-delete_other old.id k r.attached (λ e. d (sym e))) in
    let same_limits : (on_close json old r).0.limits ≡ r.limits = rw e₁ refl in
    let (open_now, kept₂, limits₂) =
      on_hello-opened json t₁ token host h (on_close json old r).0
        (kept host.id (λ e. cc (i.attached, new, e)) ∙ new) proto hrole gone
        (subst (λ (l : RelayLimits). length (on_close json old r).0.rooms < l.max_rooms)
          (sym same_limits) free)
        rate in
    let r₂ : Relay = (on_hello json t₁ token host h (on_close json old r).0).0 in
    let (full_now, kept₃, attached) =
      on_hello-joined json t₂ token newcomer h' r₂ (opened token host h.room_id)
        (kept₂ newcomer.id apart' ∙ (kept newcomer.id (λ e. cc (i.attached, new', e)) ∙ new'))
        proto' hrole' (ap (λ k. get k r₂.rooms) (hroom' ∙ sym hroom) ∙ open_now)
        (hroom ∙ sym hroom')
        (subst (λ (l : RelayLimits). 0 < l.max_peers_per_room) (sym (limits₂ ∙ same_limits)) places)
        rate' in
    let r₃ : Relay = (on_hello json t₂ token newcomer h' r₂).0 in
    let before : Room = joined newcomer (opened token host h.room_id) in
    let after : Room = record before { peers = delete 1 before.peers } in
    let found : get att.room_id r₃.rooms ≡ some before =
      ap (λ k. get k r₃.rooms) (sym hroom') ∙ full_now in
    let stale_in : IsIn r₃ stale att' before = record {
      attached =
          kept₃ stale.id (λ e. cc (j.attached, new', e))
          ∙ (kept₂ stale.id (λ e. cc (j.attached, new, e)) ∙ (kept stale.id apart ∙ j.attached));
      found = ap (λ k. get k r₃.rooms) same ∙ found;
    } in
    rw (on_close_peer json stale r₃ att' before 1 stale_in peer conn) (
      before,
      after,
      found,
      get-set_self 1 newcomer [],
      subst (λ k. get k (set h.room_id after r₃.rooms) ≡ some after) hroom
          (get-set_self h.room_id after r₃.rooms),
      get-delete_self 1 before.peers,
      refl,
      get-delete_other stale.id newcomer.id r₃.attached (λ e. cc (j.attached, new', e))
          ∙ (attached
              ∙ ap (λ k. some (record { role = Role.peer; room_id = k; conn_id = some 1 })) hroom'),
    )
