-- ===== src/Signaling/Server/Consistent.antt =====
-- A well-formed signaling server, and the operations on who is there that keep it so.
use screen_sharing.Prelude.{
  ℕ, ◌≤◌, ◌≡◌, refl, subst, max, Bool, true, false, ◌&&◌, Option, none, some, List, [],
  if◌then◌else◌, arith, Bool-cases, Option-cases, inl, inr,
}
use screen_sharing.Prelude.Dictionary.{
  get, delete, has, get-set, get-delete, length-set_old, length-delete_le,
}
use screen_sharing.Prelude.Text.{JsString, str_eq_iff, js_string_eq}
use screen_sharing.Protocol.{Body}
use screen_sharing.Signaling.Roster
use screen_sharing.Signaling.Roster.{Roster, RosterEntry, Patch}
use screen_sharing.Signaling.Roster.Order.{IsOrdered, remove-IsOrdered, update-IsOrdered}
use screen_sharing.Signaling.Server
use screen_sharing.Signaling.Server.{
  Server, ServerOptions, PeerLink, Output, put_link, on_connection, on_handshake_failed,
  on_handshake_done, on_admission_failed, admit, welcome, on_tick, on_probed, on_peer_message,
  on_peer_gone, stop_all, close, crash, transfer_host, transfer_to, close_for_handoff,
}

pub record IsConsistent (s : Server) : Type 0 where
  pub few_handshakes : s.active_handshakes ≤ 3
  pub capped : Roster.size s.roster ≤ max 1 s.opts.room_params.max_participants
  pub ordered : IsOrdered s.roster
  -- every link stands under its own peer's id, and that peer is in the roster
  pub linked :
      (id : JsString) (link : PeerLink)
      → get id s.links ≡ some link
      → (link.peer_id ≡ id) × (has id s.roster.entries ≡ true)

-- What only touches links that are there, and keeps the roster.
pub relink :
    (s : Server) (id : JsString) (old new : PeerLink)
    → get id s.links ≡ some old
    → new.peer_id ≡ old.peer_id
    → IsConsistent s
    → IsConsistent (put_link new s)
relink s id old new there same c = record {
  few_handshakes = c.few_handshakes;
  capped = c.capped;
  ordered = c.ordered;
  linked = λ j link h.
      let (own, member) = c.linked id old there in
      ground (
        arith,
        get-set new.peer_id j new s.links,
        str_eq_iff new.peer_id j,
        own,
        member,
        same,
        c.linked j link,
      );
}

pub branches :
    (b : Bool) (x y : Server × List Output)
    → (b ≡ true → IsConsistent x.0)
    → (b ≡ false → IsConsistent y.0)
    → IsConsistent (if b then x else y).0
branches true x y hx hy = hx refl
branches false x y hx hy = hy refl

-- What keeps the roster, the links and the options.
pub same_room :
    (s s' : Server)
    → s'.roster ≡ s.roster
    → s'.links ≡ s.links
    → s'.opts ≡ s.opts
    → s'.active_handshakes ≤ 3
    → IsConsistent s
    → IsConsistent s'
same_room s s' r l o few c = record {
  few_handshakes = few;
  capped = rw (r, o) c.capped;
  ordered = rw r c.ordered;
  linked = rw (l, r) c.linked;
}

-- A change of the roster that loses nobody.
pub reroster :
    (s : Server) (roster : Roster)
    → IsOrdered roster
    → Roster.size roster ≤ Roster.size s.roster
    → ((id : JsString) → has id s.roster.entries ≡ true → has id roster.entries ≡ true)
    → IsConsistent s
    → IsConsistent (record s { roster = roster })
reroster s roster o fewer kept c = record {
  few_handshakes = c.few_handshakes;
  capped = omega (arith, c.capped, fewer);
  ordered = o;
  linked = λ id link h. let (own, member) = c.linked id link h in (own, kept id member);
}

pub on_connection-IsConsistent :
    (now conn : ℕ) (ip : JsString) (s : Server)
    → IsConsistent s
    → IsConsistent (on_connection now conn ip s).0
unfolding on_connection
on_connection-IsConsistent now conn ip s c =
    same_room s (on_connection now conn ip s).0 (ground arith) (ground arith) (ground arith)
      (ground (arith, c.few_handshakes)) c

pub on_tick-IsConsistent :
    (nonce now : ℕ) (id : JsString) (s : Server)
    → IsConsistent s
    → IsConsistent (on_tick nonce now id s).0
unfolding on_tick
on_tick-IsConsistent nonce now id s c = elim (Option-cases (get id s.links)) [
  | inl e ↦ rw e c
  | inr (link, e) ↦ rw e (elim (Option-cases link.heartbeat) [
    | inl none_yet ↦ rw none_yet c
    | inr (h, started) ↦ rw started (relink s id link _ e refl c)
  ])
]

pub update_keeps :
    (id : JsString) (patch : Patch) (r : Roster)
    → (Roster.size (Roster.update id patch r).0 ≤ Roster.size r)
      × ((j : JsString)
          → has j r.entries ≡ true
          → has j (Roster.update id patch r).0.entries ≡ true)
unfolding Roster.update Roster.size
update_keeps id patch r = elim (Option-cases (get id r.entries)) [
  | inl e ↦ rw e (omega arith, λ j h. h)
  | inr (old, e) ↦ rw e (
    omega (arith, length-set_old id (Roster.patched patch old) r.entries (rw e refl)),
    λ j h. ground (arith, get-set id j (Roster.patched patch old) r.entries),
  )
]

pub on_probed-IsConsistent :
    (id ip : JsString) (port : ℕ) (reachable : Bool) (s : Server)
    → IsConsistent s
    → IsConsistent (on_probed id ip port reachable s).0
unfolding on_probed
on_probed-IsConsistent id ip port reachable s c = elim (Bool-cases (has id s.links)) [
  | inl t ↦ rw t (told (Roster.update id (Server.verified reachable ip port) s.roster) refl)
  | inr f ↦ rw f c
]
  where
    patch : Patch
    patch = Server.verified reachable ip port

    changed : IsConsistent (record s { roster = (Roster.update id patch s.roster).0 })
    changed =
        reroster s (Roster.update id patch s.roster).0
          (update-IsOrdered id patch s.roster c.ordered) (update_keeps id patch s.roster).0
          (update_keeps id patch s.roster).1 c

    told :
        (u : Roster × Option RosterEntry)
        → Roster.update id patch s.roster ≡ u
        → IsConsistent (Server.tell_changed s u).0
    told (roster, none) e = subst (λ u. IsConsistent (record s { roster = u.0 })) e changed
    told (roster, some entry) e = subst (λ u. IsConsistent (record s { roster = u.0 })) e changed

pub on_peer_gone-IsConsistent :
    (id : JsString) (s : Server) → IsConsistent s → IsConsistent (on_peer_gone id s).0
unfolding on_peer_gone Roster.remove Roster.size
on_peer_gone-IsConsistent id s c = branches s.closing _ _ (λ t. c) (λ f. gone)
  where
    gone :
        IsConsistent
          (record s { roster = (Roster.remove id s.roster).0; links = delete id s.links })
    gone = record {
      few_handshakes = c.few_handshakes;
      capped = omega (arith, c.capped, length-delete_le id s.roster.entries);
      ordered = remove-IsOrdered id s.roster c.ordered;
      linked = λ j link h.
          ground
            (arith, get-delete id j s.links, get-delete id j s.roster.entries, c.linked j link);
    }

pub unlinked :
    (s : Server) → IsConsistent s → IsConsistent (record s { closing = true; links = [] })
unfolding get
unlinked s c = record {
  few_handshakes = c.few_handshakes;
  capped = c.capped;
  ordered = c.ordered;
  linked = λ j link h. cc;
}

pub on_peer_message-IsConsistent :
    (now : ℕ) (id : JsString) (body : Body) (s : Server)
    → IsConsistent s
    → IsConsistent (on_peer_message now id body s).0
unfolding on_peer_message
on_peer_message-IsConsistent now id body s c = elim (Option-cases (get id s.links)) [
  | inl e ↦ rw e c
  | inr (link, e) ↦ rw e (from_link link e body)
]
  where
    other : (link : PeerLink) (b : Body) → IsConsistent (Server.unexpected link.peer_id b s).0
    other link b = elim (Bool-cases (Server.is_media_message b && s.opts.has_media)) [
      | inl t ↦ rw t c
      | inr f ↦ rw f c
    ]

    from_link :
        (link : PeerLink)
        → get id s.links ≡ some link
        → (b : Body) → IsConsistent (Server.message_from now link b s).0
    from_link link e (Body.ping nonce sent_at) = c
    from_link link e (Body.pong nonce sent_at) = relink s id link _ e refl c
    from_link link e (Body.bye reason) = relink s id link _ e refl c
    from_link link e (Body.join nickname caps) = other link (Body.join nickname caps)
    from_link link e (Body.joined j) = other link (Body.joined j)
    from_link link e (Body.host_transfer successor epoch) =
        other link (Body.host_transfer successor epoch)
    from_link link e (Body.roster_update added removed changed) =
        other link (Body.roster_update added removed changed)
    from_link link e (Body.rejected reason) = other link (Body.rejected reason)
    from_link link e (Body.publish_offer stream_id video audio sdp) =
        other link (Body.publish_offer stream_id video audio sdp)
    from_link link e (Body.publish_answer stream_id sdp) =
        other link (Body.publish_answer stream_id sdp)
    from_link link e (Body.unpublish stream_id) = other link (Body.unpublish stream_id)
    from_link link e (Body.subscribe stream_id) = other link (Body.subscribe stream_id)
    from_link link e (Body.subscribe_offer stream_id sdp) =
        other link (Body.subscribe_offer stream_id sdp)
    from_link link e (Body.subscribe_answer stream_id sdp) =
        other link (Body.subscribe_answer stream_id sdp)
    from_link link e (Body.unsubscribe stream_id) = other link (Body.unsubscribe stream_id)
    from_link link e (Body.stream_state stream state) = other link (Body.stream_state stream state)
    from_link link e (Body.media_error stream_id reason) =
        other link (Body.media_error stream_id reason)
    from_link link e (Body.quality_directive d) = other link (Body.quality_directive d)
    from_link link e (Body.stats_report subs pubs) = other link (Body.stats_report subs pubs)
