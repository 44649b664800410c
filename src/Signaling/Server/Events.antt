-- ===== src/Signaling/Server/Events.antt =====
-- What can happen to the server of src/main/signaling/server.ts, and runs of it.
use screen_sharing.Prelude.{ℕ, Bool, Option, List, [], ◌∷◌}
use screen_sharing.Prelude.Text.{JsString, js_string_eq}
use screen_sharing.Protocol.{Body, ClientCaps, StreamInfo}
use screen_sharing.Signaling.Server
use screen_sharing.Signaling.Server.{
  Server, ServerOptions, PeerLink, Output, put_link, on_connection, on_handshake_failed,
  on_handshake_done, on_admission_failed, admit, welcome, on_tick, on_probed, on_peer_message,
  on_peer_gone, stop_all, close, crash, transfer_host, transfer_to, close_for_handoff,
}

pub data Event : Type 0 where
  connects : (now conn : ℕ) (ip : JsString) → Event
  handshake_fails : (conn : ℕ) (ip reason : JsString) → Event
  handshake_succeeds : (ip : JsString) → Event
  admission_fails : (conn : ℕ) → Event
  joins :
      (nonce now conn : ℕ) (ip peer_id nickname : JsString) → ClientCaps → List StreamInfo → Event
  ticks : (nonce now : ℕ) (peer_id : JsString) → Event
  probed : (peer_id ip : JsString) (port : ℕ) (reachable : Bool) → Event
  says : (now : ℕ) (peer_id : JsString) → Body → Event
  media_replies : (peer_id : JsString) → Option Body → Event
  goes : (peer_id : JsString) → Event
  transfers source_closes closes : Event
  crashes : (owns_source : Bool) → Event

unfoldable pub step : (JsString → JsString) → Server → Event → Server × List Output
step lower s (connects now conn ip) = on_connection now conn ip s
step lower s (handshake_fails conn ip reason) = on_handshake_failed conn ip reason s
step lower s (handshake_succeeds ip) = (on_handshake_done ip s, [])
step lower s (admission_fails conn) = on_admission_failed conn s
step lower s (joins nonce now conn ip peer_id nickname caps streams) =
    admit lower nonce now conn ip peer_id nickname caps streams s
step lower s (ticks nonce now peer_id) = on_tick nonce now peer_id s
step lower s (probed peer_id ip port reachable) = on_probed peer_id ip port reachable s
step lower s (says now peer_id body) = on_peer_message now peer_id body s
step lower s (media_replies peer_id reply) = (s, Server.on_media_reply peer_id reply s)
step lower s (goes peer_id) = on_peer_gone peer_id s
step lower s transfers = transfer_host s
step lower s source_closes = close_for_handoff s
step lower s closes = close s
step lower s (crashes owns_source) = crash owns_source s

unfoldable pub run : (JsString → JsString) → Server → List Event → Server
run lower s [] = s
run lower s (e ∷ es) = run lower (step lower s e).0 es
