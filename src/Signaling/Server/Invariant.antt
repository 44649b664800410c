-- ===== src/Signaling/Server/Invariant.antt =====
-- What holds of the signaling server after any sequence of events.
use screen_sharing.Prelude.{refl, List, [], ◌∷◌, arith}
use screen_sharing.Prelude.Dictionary.{get}
use screen_sharing.Prelude.Text.{JsString, js_string_eq}
use screen_sharing.Signaling.Roster
use screen_sharing.Signaling.Roster.{Roster, RosterEntry, Patch}
use screen_sharing.Signaling.Roster.Order.{new-IsOrdered}
use screen_sharing.Signaling.Server
use screen_sharing.Signaling.Server.{
  Server, ServerOptions, PeerLink, Output, put_link, on_connection, on_handshake_failed,
  on_handshake_done, on_admission_failed, admit, welcome, on_tick, on_probed, on_peer_message,
  on_peer_gone, stop_all, close, crash, transfer_host, transfer_to, close_for_handoff,
}
use screen_sharing.Signaling.Server.Events.{
  Event, connects, handshake_fails, handshake_succeeds, admission_fails, joins, ticks, probed, says,
  media_replies, goes, transfers, source_closes, closes, crashes, step, run,
}
use screen_sharing.Signaling.Server.Consistent.{
  IsConsistent, same_room, on_connection-IsConsistent, on_tick-IsConsistent, on_probed-IsConsistent,
  on_peer_gone-IsConsistent, unlinked, on_peer_message-IsConsistent,
}
use screen_sharing.Signaling.Server.Admission.{admit-IsConsistent, transfer_host-IsConsistent}

step-IsConsistent :
    (lower : JsString → JsString) (s : Server) (e : Event)
    → IsConsistent s
    → IsConsistent (step lower s e).0
unfolding step on_handshake_failed on_handshake_done on_admission_failed close crash
    close_for_handoff
step-IsConsistent lower s (connects now conn ip) c = on_connection-IsConsistent now conn ip s c
step-IsConsistent lower s (handshake_fails conn ip reason) c =
    same_room s _ refl refl refl (omega (arith, c.few_handshakes)) c
step-IsConsistent lower s (handshake_succeeds ip) c =
    same_room s _ refl refl refl (omega (arith, c.few_handshakes)) c
step-IsConsistent lower s (admission_fails conn) c = c
step-IsConsistent lower s (joins nonce now conn ip id nickname caps streams) c =
    admit-IsConsistent lower nonce now conn ip id nickname caps streams s c
step-IsConsistent lower s (ticks nonce now id) c = on_tick-IsConsistent nonce now id s c
step-IsConsistent lower s (probed id ip port reachable) c =
    on_probed-IsConsistent id ip port reachable s c
step-IsConsistent lower s (says now id body) c = on_peer_message-IsConsistent now id body s c
step-IsConsistent lower s (media_replies id reply) c = c
step-IsConsistent lower s (goes id) c = on_peer_gone-IsConsistent id s c
step-IsConsistent lower s transfers c = transfer_host-IsConsistent s c
step-IsConsistent lower s source_closes c = unlinked s c
step-IsConsistent lower s closes c = unlinked s c
step-IsConsistent lower s (crashes owns_source) c = unlinked s c

run_from-IsConsistent :
    (lower : JsString → JsString) (s : Server) (es : List Event)
    → IsConsistent s
    → IsConsistent (run lower s es)
unfolding run
run_from-IsConsistent lower s [] c = c
run_from-IsConsistent lower s (e ∷ es) c =
    run_from-IsConsistent lower (step lower s e).0 es (step-IsConsistent lower s e c)

-- After any sequence of events (connections, handshakes that end either way, joins, messages, timers,
-- probes, departures, transfers and closes, with any ids drawn) a server that started with its host alone
-- runs at most three handshakes, has at most `maxParticipants` in its roster (or the host alone), gives no
-- two of them one sequence number, and keeps links only to peers that are in the roster.
pub run-IsConsistent :
    (lower : JsString → JsString) (opts : ServerOptions) (host_peer_id nickname : JsString)
    (es : List Event)
    → IsConsistent (run lower (Server.new opts host_peer_id nickname) es)
unfolding Server.new Roster.size get Roster.new
run-IsConsistent lower opts host_peer_id nickname es =
    run_from-IsConsistent lower (Server.new opts host_peer_id nickname) es (record {
      few_handshakes = omega arith;
      capped = omega arith;
      ordered = new-IsOrdered (Server.host_entry host_peer_id nickname);
      linked = λ id link h. absurd cc;
    })
