-- ===== src/Net/RelayLink.antt =====
-- src/main/net/relay-link.ts: the client's links to the relay. A virtual transport is a number; its closed
-- flag stands in a table of its link. A callback that is called, and a frame that is sent, is an output.
pub mod Retry
pub mod Handover
mod Examples
use screen_sharing.Prelude.{
  nat_eq, ℕ, ◌+◌, Bool, true, false, not, ◌&&◌, Option, none, some, List, [], ◌∷◌, ◌++◌,
  if◌then◌else◌,
}
use screen_sharing.Prelude.Bytes.{Bytes}
use screen_sharing.Prelude.Dictionary.{Dictionary, get, set, delete, values}
use screen_sharing.Prelude.Json.{Json}
use screen_sharing.Prelude.Text.{JsString, units}
use screen_sharing.Net.RelayWire.{
  RelayControl, ready, reject, peer_up, peer_down, host_gone, host_claimed, pong, payload_frame,
  decode_relay_frame, encode_data_p, encode_data_h, encode_kick, encode_handoff,
}

pub data Output : Type 0 where
  resolve_open : (conn_id : Option ℕ) (host_token : Option JsString) → Output
  reject_open : (reason : JsString) → Output
  send : Bytes → Output
  close_socket : Output
  message : Bytes → (is_binary : Bool) → Output
  closed_with : (code : ℕ) (reason : JsString) → Output
  handoff_ready : Output
  connection : (transport : ℕ) → Output
  transport_message : (transport : ℕ) → Bytes → (is_binary : Bool) → Output
  transport_closed : (transport code : ℕ) (reason : JsString) → Output
  source_closed : (reason : JsString) → Output

-- `opening`: `#pendingOpen` is there; `listens`: `#onHandoffReady` is.
pub record PeerLink : Type 0 where
  pub closed : Bool
  pub opening : Bool
  pub listens : Bool
  pub already_claimed : Bool

-- `#fail` of the peer's link.
unfoldable pub peer_fail : ℕ → JsString → PeerLink → PeerLink × List Output
peer_fail code reason l =
    if l.closed then (l, []) else (record l { closed = true }, closed_with code reason ∷ [])

-- The peer's message handler, on a decoded frame.
unfoldable pub peer_frame : RelayControl → PeerLink → PeerLink × List Output
unfolding peer_fail
peer_frame (ready conn_id host_token) l =
    if l.opening
    then (record l { opening = false }, resolve_open conn_id host_token ∷ [])
    else (l, [])
peer_frame (reject reason) l =
    if l.opening then (record l { opening = false }, reject_open reason ∷ []) else (l, [])
peer_frame (payload_frame conn_id is_binary payload) l = (l, message payload is_binary ∷ [])
peer_frame host_gone l = peer_fail 1001 (units "host gone") l
peer_frame host_claimed l =
    if l.listens then (l, handoff_ready ∷ []) else (record l { already_claimed = true }, [])
peer_frame (peer_up conn_id) l = (l, [])
peer_frame (peer_down conn_id) l = (l, [])
peer_frame pong l = (l, [])

unfoldable pub on_handoff_ready : PeerLink → PeerLink × List Output
on_handoff_ready l =
    if l.already_claimed
    then (record l { listens = true; already_claimed = false }, handoff_ready ∷ [])
    else (record l { listens = true }, [])

unfoldable pub peer_send : Bool → Bytes → PeerLink → List Output
peer_send is_binary payload l = if l.closed then [] else send (encode_data_p is_binary payload) ∷ []

unfoldable pub peer_close : PeerLink → PeerLink × List Output
peer_close l = if l.closed then (l, []) else (record l { closed = true }, close_socket ∷ [])

-- `transports`: whether each virtual transport is closed; `listens`: `#onConnection` is there.
pub record HostLink : Type 0 where
  pub peers : Dictionary ℕ ℕ
  pub transports : Dictionary ℕ Bool
  pub next_transport : ℕ
  pub listens : Bool
  pub pending_peers : List ℕ
  pub closed : Bool
  pub opening : Bool

abbrev pub drop_unless : ℕ → ℕ → JsString → Option Bool → HostLink → HostLink × List Output
drop_unless t code reason (some false) l =
    (record l { transports = set t true l.transports }, transport_closed t code reason ∷ [])
drop_unless t code reason (some true) l = (l, [])
drop_unless t code reason none l = (l, [])

-- `_dropped`
unfoldable pub dropped : JsString → ℕ → HostLink → HostLink × List Output
dropped reason t l = drop_unless t 1001 reason (get t l.transports) l

abbrev pub without : ℕ → HostLink × List Output → HostLink × List Output
without conn_id (l, outputs) = (record l { peers = delete conn_id l.peers }, outputs)

abbrev pub down_found : ℕ → Option ℕ → HostLink → HostLink × List Output
down_found conn_id none l = without conn_id (l, [])
down_found conn_id (some t) l = without conn_id (dropped (units "peer left") t l)

abbrev deliver_found : Option ℕ → Bytes → Bool → List Output
deliver_found none payload is_binary = []
deliver_found (some t) payload is_binary = transport_message t payload is_binary ∷ []

abbrev pub deliver_to : Option ℕ → Bytes → Bool → HostLink → List Output
deliver_to none payload is_binary l = []
deliver_to (some conn_id) payload is_binary l =
    deliver_found (get conn_id l.peers) payload is_binary

-- A new virtual transport.
abbrev pub connected : ℕ → HostLink → HostLink
connected conn_id l = record l {
  peers = set conn_id l.next_transport l.peers;
  transports = set l.next_transport false l.transports;
  next_transport = l.next_transport + 1;
}

-- The host's message handler, on a decoded frame.
unfoldable pub host_frame : RelayControl → HostLink → HostLink × List Output
unfolding dropped
host_frame (ready conn_id host_token) l =
    if l.opening
    then (record l { opening = false }, resolve_open conn_id host_token ∷ [])
    else (l, [])
host_frame (reject reason) l =
    if l.opening then (record l { opening = false }, reject_open reason ∷ []) else (l, [])
host_frame (peer_up conn_id) l =
    if l.listens then (connected conn_id l, connection l.next_transport ∷ []) else (
      record (connected conn_id l) { pending_peers = l.pending_peers ++ (l.next_transport ∷ []) },
      [],
    )
host_frame (peer_down conn_id) l = down_found conn_id (get conn_id l.peers) l
host_frame (payload_frame conn_id is_binary payload) l = (l, deliver_to conn_id payload is_binary l)
host_frame host_gone l = (l, [])
host_frame host_claimed l = (l, [])
host_frame pong l = (l, [])

abbrev pub connections : List ℕ → List Output
connections [] = []
connections (t ∷ ts) = connection t ∷ connections ts

unfoldable pub on_connection : HostLink → HostLink × List Output
on_connection l = (record l { listens = true; pending_peers = [] }, connections l.pending_peers)

abbrev sent : Option Bytes → List Output
sent none = []
sent (some frame) = send frame ∷ []

-- `_sendToPeer`; `is_open` is the state of the socket.
unfoldable pub send_to_peer : Bool → ℕ → Bool → Bytes → List Output
send_to_peer is_open conn_id is_binary payload =
    if is_open then sent (encode_data_h conn_id is_binary payload) else []

abbrev send_unless : Bool → ℕ → Bool → Bytes → Option Bool → List Output
send_unless is_open conn_id is_binary payload (some false) =
    send_to_peer is_open conn_id is_binary payload
send_unless is_open conn_id is_binary payload (some true) = []
send_unless is_open conn_id is_binary payload none = []

-- `send` of a virtual transport, with the payload as bytes.
unfoldable pub transport_send : Bool → ℕ → ℕ → Bool → Bytes → HostLink → List Output
unfolding send_to_peer
transport_send is_open conn_id t is_binary payload l =
    send_unless is_open conn_id is_binary payload (get t l.transports)

-- `_kick`
unfoldable pub kick : Bool → ℕ → HostLink → HostLink × List Output
kick is_open conn_id l = (
  record l { peers = delete conn_id l.peers },
  if is_open then sent (encode_kick conn_id) else [],
)

abbrev kick_unless : Bool → ℕ → ℕ → Option Bool → HostLink → HostLink × List Output
kick_unless is_open conn_id t (some false) l =
    let (l', outputs) = kick is_open conn_id (record l { transports = set t true l.transports }) in
    (l', outputs ++ (transport_closed t 1000 (units "closed by host") ∷ []))
kick_unless is_open conn_id t (some true) l = (l, [])
kick_unless is_open conn_id t none l = (l, [])

-- `close` of a virtual transport.
unfoldable pub transport_close : Bool → ℕ → ℕ → HostLink → HostLink × List Output
unfolding kick
transport_close is_open conn_id t l = kick_unless is_open conn_id t (get t l.transports) l

unfoldable pub handoff : Bool → List Output
handoff is_open = if is_open then send encode_handoff ∷ [] else []

unfoldable pub host_close : HostLink → HostLink × List Output
host_close l = if l.closed then (l, []) else (record l { closed = true }, close_socket ∷ [])

-- The loop of `#tearDown`.
unfoldable pub drop_all : JsString → List ℕ → HostLink → HostLink × List Output
unfolding dropped
drop_all reason [] l = (l, [])
drop_all reason (t ∷ ts) l = (
  (drop_all reason ts (dropped reason t l).0).0,
  (dropped reason t l).1 ++ (drop_all reason ts (dropped reason t l).0).1,
)

-- `#tearDown`
unfoldable pub tear_down : JsString → HostLink → HostLink × List Output
unfolding drop_all
tear_down reason l =
    let (l', outputs) = drop_all reason (values l.peers) (record l { closed = true }) in
    if l.closed then (l, []) else (record l' { peers = [] }, outputs ++ (source_closed reason ∷ []))

-- What a binary message from the relay does, if it is a frame.
abbrev pub decoded {ℓ} :
    {L : Type ℓ} → (RelayControl → L → L × List Output) → Option RelayControl → L → L × List Output
decoded handle none l = (l, [])
decoded handle (some frame) l = handle frame l

unfoldable pub on_message {ℓ} :
    {L : Type ℓ} → Json → (RelayControl → L → L × List Output) → Bytes → Bool → L → L × List Output
on_message json handle bytes is_binary l =
    if is_binary then decoded handle (decode_relay_frame json bytes) l else (l, [])
