-- ===== src/Signaling/Server/Admission.antt =====
-- Admission and handover keep the signaling server well-formed.
use screen_sharing.Prelude.{
  ℕ, ◌<◌, ◌≡◌, refl, ◌∙◌, Option, none, some, List, [], ◌∷◌, arith, Bool-cases, inl, inr, leb,
  leb-false,
}
use screen_sharing.Prelude.Dictionary.{Dictionary, get, set, get-set, length-set_le}
use screen_sharing.Prelude.Text.{JsString, str_eq, str_eq_iff, js_string_eq}
use screen_sharing.Protocol.{ClientCaps, StreamInfo}
use screen_sharing.Signaling.Roster
use screen_sharing.Signaling.Roster.{Roster, RosterEntry, Patch}
use screen_sharing.Signaling.Roster.Order.{add-IsOrdered}
use screen_sharing.Signaling.Server
use screen_sharing.Signaling.Server.{
  Server, ServerOptions, PeerLink, Output, put_link, on_connection, on_handshake_failed,
  on_handshake_done, on_admission_failed, admit, welcome, on_tick, on_probed, on_peer_message,
  on_peer_gone, stop_all, close, crash, transfer_host, transfer_to, close_for_handoff,
}
use screen_sharing.Signaling.Server.Consistent.{IsConsistent, branches, unlinked}

pub welcome-IsConsistent :
    (nonce now conn : ℕ) (ip id nickname : JsString) (caps : ClientCaps) (streams : List StreamInfo)
    (s : Server)
    → Roster.size s.roster < s.opts.room_params.max_participants
    → IsConsistent s
    → IsConsistent (welcome nonce now conn ip id nickname caps streams s).0
unfolding welcome Roster.size Roster.allocate_join_seq Roster.add
welcome-IsConsistent nonce now conn ip id nickname caps streams s room c = record {
  few_handshakes = c.few_handshakes;
  capped = omega (arith, room, length-set_le id entry s.roster.entries);
  ordered = add-IsOrdered entry s.roster refl c.ordered;
  linked = λ j link h. ground (
    arith,
    get-set id j started (set id quiet s.links),
    get-set id j quiet s.links,
    get-set id j entry s.roster.entries,
    str_eq_iff id j,
    c.linked j link,
  );
}
  where
    entry : RosterEntry
    entry = Server.new_entry id nickname s.roster.next_join_seq

    quiet : PeerLink
    quiet = record {
      peer_id = id;
      conn = conn;
      ip = ip;
      heartbeat = none;
      reason = Server.said_bye;
    }

    started : PeerLink
    started = (Server.start_heartbeat nonce now s.opts quiet).0

pub admit-IsConsistent :
    (lower : JsString → JsString) (nonce now conn : ℕ) (ip id nickname : JsString)
    (caps : ClientCaps) (streams : List StreamInfo) (s : Server)
    → IsConsistent s
    → IsConsistent (admit lower nonce now conn ip id nickname caps streams s).0
unfolding admit
admit-IsConsistent lower nonce now conn ip id nickname caps streams s c =
    branches (leb s.opts.room_params.max_participants (Roster.size s.roster)) _ _ (λ full. c)
      (λ room.
        branches (Roster.has_nickname lower nickname s.roster) _ _ (λ taken. c)
          (λ free.
            welcome-IsConsistent nonce now conn ip id nickname caps streams s
              (leb-false s.opts.room_params.max_participants (Roster.size s.roster) room) c))

pub get-stop_all :
    (id : JsString) (links : Dictionary JsString PeerLink) (link : PeerLink)
    → get id (stop_all links) ≡ some link
    → (old : PeerLink) × (get id links ≡ some old) × (link.peer_id ≡ old.peer_id)
unfolding get stop_all
get-stop_all id [] link h = absurd cc
get-stop_all id ((j, old) ∷ links) link h = elim (Bool-cases (str_eq j id)) [
  | inl t ↦ (old, rw t refl, ground (arith, t))
  | inr f ↦
      let (found, there, same) = get-stop_all id links link (ground (arith, f)) in
      (found, rw f there, same)
]

pub transfer_to-IsConsistent :
    (s : Server) (o : Option JsString) → IsConsistent s → IsConsistent (transfer_to s o).0
unfolding transfer_to close
transfer_to-IsConsistent s none c = unlinked s c
transfer_to-IsConsistent s (some successor) c = record {
  few_handshakes = c.few_handshakes;
  capped = c.capped;
  ordered = c.ordered;
  linked = λ id link h.
      let (old, there, same) = get-stop_all id s.links link h in
      let (own, member) = c.linked id old there in (same ∙ own, member);
}

pub transfer_host-IsConsistent : (s : Server) → IsConsistent s → IsConsistent (transfer_host s).0
unfolding transfer_host
transfer_host-IsConsistent s c = transfer_to-IsConsistent s _ c
