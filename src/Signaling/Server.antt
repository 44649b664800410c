-- ===== src/Signaling/Server.antt =====
-- src/main/signaling/server.ts: the signaling server of the host. Connections are numbers, and an async
-- method is a step before and after each await. The clock, nonces, new peer ids and `toLowerCase` are
-- arguments. A `send` that throws is caught by the code, or ends the connection; here it is an output.
-- The connection source is there until it is closed; closing it again, which does nothing, is an output too.
pub mod Events
pub mod Consistent
pub mod Admission
pub mod Invariant
pub mod Handover
mod Examples
use screen_sharing.Prelude.{
  ℕ, ◌+◌, ◌-◌, Bool, true, false, not, ◌&&◌, Option, none, some, List, [], ◌∷◌, ◌++◌, ltb, leb,
  ◌==◌, if◌then◌else◌,
}
use screen_sharing.Prelude.Dictionary.{Dictionary, get, set, delete, has, values}
use screen_sharing.Prelude.Text.{JsString, units, str_eq, js_string_eq}
use screen_sharing.Protocol.{
  HandshakeMessage, handshake_reject, RefusalReason, RoomParams, ClientCaps, StreamInfo, Body,
  Joined, RejectedReason, join, joined, host_transfer, roster_update, rejected, ping, pong, bye,
  publish_offer, publish_answer, unpublish, subscribe, subscribe_offer, subscribe_answer,
  unsubscribe, stream_state, media_error, quality_directive, stats_report,
}
use screen_sharing.Signaling.RateLimit
use screen_sharing.Signaling.RateLimit.{RateLimitConfig, Buckets}
use screen_sharing.Signaling.Heartbeat
use screen_sharing.Signaling.Heartbeat.{Heartbeat}
use screen_sharing.Signaling.Roster
use screen_sharing.Signaling.Roster.{Roster, RosterEntry}
use screen_sharing.Election.Succession.{designated_heir, election_entries_from_roster}
use screen_sharing.Sfu.MediaPlane.{is_media_message}

abbrev pub max_concurrent_handshakes : ℕ
max_concurrent_handshakes = 3

abbrev pub heartbeat_max_missed : ℕ
heartbeat_max_missed = 3

pub data LeaveReason : Type 0 where
  said_bye timeout : LeaveReason

-- `heartbeat` comes with its timer.
pub record PeerLink : Type 0 where
  pub peer_id : JsString
  pub conn : ℕ
  pub ip : JsString
  pub heartbeat : Option Heartbeat
  pub reason : LeaveReason

pub record ServerOptions : Type 0 where
  pub room_params : RoomParams
  pub rate_limit : RateLimitConfig
  pub max_missed : Option ℕ
  pub verify_inbound : Bool
  pub epoch : ℕ
  pub has_media : Bool

pub record Server : Type 0 where
  pub opts : ServerOptions
  pub buckets : Buckets
  pub roster : Roster
  pub links : Dictionary JsString PeerLink
  pub active_handshakes : ℕ
  pub closing : Bool

pub data Output : Type 0 where
  send : (conn : ℕ) → Body → Output
  send_handshake : (conn : ℕ) → HandshakeMessage → Output
  close_conn : (conn code : ℕ) (reason : JsString) → Output
  begin_handshake : (conn : ℕ) → Output
  peer_joined : (peer_id nickname : JsString) → Output
  peer_left : (peer_id nickname : JsString) → LeaveReason → Output
  peer_rejected : (ip reason : JsString) → Output
  emit_error : Output
  probe : (peer_id ip : JsString) (port : ℕ) → Output
  to_media : (peer_id : JsString) → Body → Output
  media_gone : (peer_id : JsString) → Output
  close_source terminate_source : Output

abbrev pub host_entry : JsString → JsString → RosterEntry
host_entry host_peer_id host_nickname = record {
  peer_id = host_peer_id;
  nickname = host_nickname;
  join_seq = 0;
  is_host = true;
  inbound_verified = true;
  inbound_endpoint = none;
  publishing = none;
}

unfoldable pub new : ServerOptions → JsString → JsString → Server
unfolding Roster.new
new opts host_peer_id host_nickname = record {
  opts = opts;
  buckets = [];
  roster = Roster.new (host_entry host_peer_id host_nickname);
  links = [];
  active_handshakes = 0;
  closing = false;
}

abbrev pub send_all : Body → List PeerLink → List Output
send_all body [] = []
send_all body (link ∷ links) = send link.conn body ∷ send_all body links

abbrev pub send_others : JsString → Body → List PeerLink → List Output
send_others except body [] = []
send_others except body (link ∷ links) =
    if str_eq link.peer_id except
    then send_others except body links
    else send link.conn body ∷ send_others except body links

-- `broadcast(body)`
unfoldable pub broadcast : Body → Server → List Output
broadcast body s = send_all body (values s.links)

-- `broadcast(body, exceptPeerId)`
unfoldable pub broadcast_except : JsString → Body → Server → List Output
broadcast_except except body s = send_others except body (values s.links)

abbrev pub send_found : Body → Option PeerLink → List Output
send_found body none = []
send_found body (some link) = send link.conn body ∷ []

unfoldable pub send_to : JsString → Body → Server → List Output
send_to peer_id body s = send_found body (get peer_id s.links)

abbrev pub refuse : ℕ → RefusalReason → ℕ → JsString → List Output
refuse conn reason code text =
    send_handshake conn (handshake_reject reason) ∷ close_conn conn code text ∷ []

abbrev pub connect_limited : ℕ → JsString → Server → Buckets × Option ℕ → Server × List Output
connect_limited conn ip s (buckets, some wait) = (
  record s { buckets = buckets },
  refuse conn RefusalReason.rate_limited 1008 (units "rate limited")
      ++ (peer_rejected ip (units "rate_limited") ∷ []),
)
connect_limited conn ip s (buckets, none) =
    if leb max_concurrent_handshakes s.active_handshakes
    then (
      record s { buckets = buckets },
      refuse conn RefusalReason.too_many_handshakes 1013 (units "busy")
          ++ (peer_rejected ip (units "too_many_handshakes") ∷ []),
    )
    else (
      record s { buckets = buckets; active_handshakes = s.active_handshakes + 1 },
      begin_handshake conn ∷ [],
    )

-- `#handleConnection`, before it awaits the handshake.
unfoldable pub on_connection : ℕ → ℕ → JsString → Server → Server × List Output
on_connection now conn ip s =
    if s.closing
    then (s, refuse conn RefusalReason.closing_room 1001 (units "room closing"))
    else connect_limited conn ip s (RateLimit.take_attempt s.opts.rate_limit now ip s.buckets)

-- The handshake threw; `reason` is the error's, or 'error'.
unfoldable pub on_handshake_failed : ℕ → JsString → JsString → Server → Server × List Output
on_handshake_failed conn ip reason s = (
  record s { active_handshakes = s.active_handshakes - 1 },
  peer_rejected ip reason ∷ close_conn conn 1002 (units "handshake failed") ∷ [],
)

-- The handshake is done; what follows awaits the peer's `join`.
unfoldable pub on_handshake_done : JsString → Server → Server
on_handshake_done ip s = record s {
  active_handshakes = s.active_handshakes - 1;
  buckets = RateLimit.clear ip s.buckets;
}

-- No `join` came in time, or something else came: `#admit` threw.
unfoldable pub on_admission_failed : ℕ → Server → Server × List Output
on_admission_failed conn s = (s, emit_error ∷ close_conn conn 1002 (units "admission failed") ∷ [])

abbrev or_default_missed : Option ℕ → ℕ
or_default_missed none = heartbeat_max_missed
or_default_missed (some n) = n

-- The callbacks of a link's heartbeat.
abbrev pub heartbeat_outputs : ℕ → List Heartbeat.Output → List Output
heartbeat_outputs conn [] = []
heartbeat_outputs conn (Heartbeat.send_ping nonce sent_at ∷ os) =
    send conn (ping nonce sent_at) ∷ heartbeat_outputs conn os
heartbeat_outputs conn (Heartbeat.on_dead ∷ os) =
    close_conn conn 4000 (units "heartbeat timeout") ∷ heartbeat_outputs conn os

abbrev pub has_died : List Heartbeat.Output → Bool
has_died [] = false
has_died (Heartbeat.send_ping nonce sent_at ∷ os) = has_died os
has_died (Heartbeat.on_dead ∷ os) = true

-- A link after its heartbeat ran.
abbrev pub beaten : PeerLink → Heartbeat × List Heartbeat.Output → PeerLink × List Output
beaten link (h, os) = (
  record link { heartbeat = some h; reason = if has_died os then timeout else link.reason },
  heartbeat_outputs link.conn os,
)

-- `#startHeartbeat`
unfoldable pub start_heartbeat : ℕ → ℕ → ServerOptions → PeerLink → PeerLink × List Output
unfolding Heartbeat.new Heartbeat.start
start_heartbeat nonce now opts link =
    beaten link (Heartbeat.start nonce now (Heartbeat.new (or_default_missed opts.max_missed)))

abbrev pub put_link : PeerLink → Server → Server
put_link link s = record s { links = set link.peer_id link s.links }

abbrev pub reject_join : ℕ → JsString → RejectedReason → JsString → JsString → List Output
reject_join conn ip reason text name =
    send conn (rejected reason) ∷ close_conn conn 1000 text ∷ peer_rejected ip name ∷ []

abbrev pub probes : Bool → JsString → JsString → ClientCaps → List Output
probes false peer_id ip caps = []
probes true peer_id ip caps =
    if ltb 0 caps.inbound_port then probe peer_id ip caps.inbound_port ∷ [] else []

abbrev pub new_entry : JsString → JsString → ℕ → RosterEntry
new_entry peer_id nickname join_seq = record {
  peer_id = peer_id;
  nickname = nickname;
  join_seq = join_seq;
  is_host = false;
  inbound_verified = false;
  inbound_endpoint = none;
  publishing = none;
}

-- The end of `#admit`: the peer has passed the checks. `streams` is the media plane's list.
unfoldable pub welcome :
    ℕ
    → ℕ
    → ℕ
    → JsString
    → JsString
    → JsString
    → ClientCaps
    → List StreamInfo
    → Server
    → Server × List Output
unfolding broadcast_except start_heartbeat
welcome nonce now conn ip peer_id nickname caps streams s =
    let (allocated, join_seq) = Roster.allocate_join_seq s.roster in
    let entry = new_entry peer_id nickname join_seq in
    let roster = Roster.add entry allocated in
    let link : PeerLink = record {
      peer_id = peer_id;
      conn = conn;
      ip = ip;
      heartbeat = none;
      reason = said_bye;
    } in
    let s' = put_link link (record s { roster = roster }) in
    let (started, beats) = start_heartbeat nonce now s.opts link in
    (
      put_link started s',
      send conn (
            joined (record {
              peer_id = peer_id;
              join_seq = join_seq;
              epoch = s.opts.epoch;
              room_params = s.opts.room_params;
              roster = Roster.snapshot roster;
              streams = streams;
            }))
          ∷ (broadcast_except peer_id (roster_update (entry ∷ []) [] []) s'
              ++ (peer_joined peer_id nickname
                  ∷ (beats ++ probes s.opts.verify_inbound peer_id ip caps))),
    )

module _ (lower : JsString → JsString) where
  -- `#admit`, with the peer's `join`; `peer_id` is the id drawn for it.
  unfoldable pub admit :
      ℕ
      → ℕ
      → ℕ
      → JsString
      → JsString
      → JsString
      → ClientCaps
      → List StreamInfo
      → Server
      → Server × List Output
  unfolding welcome
  admit nonce now conn ip peer_id nickname caps streams s =
      if leb s.opts.room_params.max_participants (Roster.size s.roster)
      then (s, reject_join conn ip RejectedReason.room_full (units "room full") (units "room_full"))
      else if Roster.has_nickname lower nickname s.roster
      then (
        s,
        reject_join conn ip RejectedReason.duplicate_nickname (units "duplicate nickname")
            (units "duplicate_nickname"),
      )
      else welcome nonce now conn ip peer_id nickname caps streams s

abbrev pub tick_found : ℕ → ℕ → Server → PeerLink → Option Heartbeat → Server × List Output
tick_found nonce now s link none = (s, [])
tick_found nonce now s link (some h) =
    let (link', outputs) = beaten link (Heartbeat.tick nonce now h) in (put_link link' s, outputs)

abbrev pub tick_link : ℕ → ℕ → Server → Option PeerLink → Server × List Output
tick_link nonce now s none = (s, [])
tick_link nonce now s (some link) = tick_found nonce now s link link.heartbeat

-- The timer of a link's heartbeat.
unfoldable pub on_tick : ℕ → ℕ → JsString → Server → Server × List Output
on_tick nonce now peer_id s = tick_link nonce now s (get peer_id s.links)

abbrev pub verified : Bool → JsString → ℕ → Roster.Patch
verified reachable ip port = record {
  inbound_verified = some reachable;
  inbound_endpoint = some (if reachable then some (record { address = ip; port = port }) else none);
  publishing = none;
}

abbrev pub tell_changed : Server → Roster × Option RosterEntry → Server × List Output
tell_changed s (roster, none) = (record s { roster = roster }, [])
tell_changed s (roster, some entry) =
    (record s { roster = roster }, send_all (roster_update [] [] (entry ∷ [])) (values s.links))

-- `#probeInbound`, after its await.
unfoldable pub on_probed : JsString → JsString → ℕ → Bool → Server → Server × List Output
on_probed peer_id ip port reachable s =
    if has peer_id s.links
    then tell_changed s (Roster.update peer_id (verified reachable ip port) s.roster)
    else (s, [])

abbrev pub pong_heard : ℕ → ℕ → Option Heartbeat → Option Heartbeat
pong_heard nonce now none = none
pong_heard nonce now (some h) = some (Heartbeat.on_pong nonce now h)

abbrev pub unexpected : JsString → Body → Server → Server × List Output
unexpected peer_id body s =
    if is_media_message body && s.opts.has_media
    then (s, to_media peer_id body ∷ [])
    else (s, emit_error ∷ [])

abbrev pub message_from : ℕ → PeerLink → Body → Server → Server × List Output
message_from now link (ping nonce sent_at) s = (s, send link.conn (pong nonce sent_at) ∷ [])
message_from now link (pong nonce sent_at) s =
    (put_link (record link { heartbeat = pong_heard nonce now link.heartbeat }) s, [])
message_from now link (bye reason) s =
    (put_link (record link { reason = said_bye }) s, close_conn link.conn 1000 (units "bye") ∷ [])
message_from now link (join nickname client_caps) s =
    unexpected link.peer_id (join nickname client_caps) s
message_from now link (joined j) s = unexpected link.peer_id (joined j) s
message_from now link (host_transfer successor_peer_id epoch) s =
    unexpected link.peer_id (host_transfer successor_peer_id epoch) s
message_from now link (roster_update added removed changed) s =
    unexpected link.peer_id (roster_update added removed changed) s
message_from now link (rejected reason) s = unexpected link.peer_id (rejected reason) s
message_from now link (publish_offer stream_id video audio sdp) s =
    unexpected link.peer_id (publish_offer stream_id video audio sdp) s
message_from now link (publish_answer stream_id sdp) s =
    unexpected link.peer_id (publish_answer stream_id sdp) s
message_from now link (unpublish stream_id) s = unexpected link.peer_id (unpublish stream_id) s
message_from now link (subscribe stream_id) s = unexpected link.peer_id (subscribe stream_id) s
message_from now link (subscribe_offer stream_id sdp) s =
    unexpected link.peer_id (subscribe_offer stream_id sdp) s
message_from now link (subscribe_answer stream_id sdp) s =
    unexpected link.peer_id (subscribe_answer stream_id sdp) s
message_from now link (unsubscribe stream_id) s = unexpected link.peer_id (unsubscribe stream_id) s
message_from now link (stream_state stream state) s =
    unexpected link.peer_id (stream_state stream state) s
message_from now link (media_error stream_id reason) s =
    unexpected link.peer_id (media_error stream_id reason) s
message_from now link (quality_directive d) s = unexpected link.peer_id (quality_directive d) s
message_from now link (stats_report subscriptions publications) s =
    unexpected link.peer_id (stats_report subscriptions publications) s

abbrev pub message_found : ℕ → Body → Server → Option PeerLink → Server × List Output
message_found now body s none = (s, [])
message_found now body s (some link) = message_from now link body s

-- `#onPeerMessage`
unfoldable pub on_peer_message : ℕ → JsString → Body → Server → Server × List Output
on_peer_message now peer_id body s = message_found now body s (get peer_id s.links)

abbrev pub reply_of : Option Body → Option PeerLink → List Output
reply_of none link = []
reply_of (some reply) none = []
reply_of (some reply) (some link) = send link.conn reply ∷ []

-- `#handleMedia`, after its await.
unfoldable pub on_media_reply : JsString → Option Body → Server → List Output
on_media_reply peer_id reply s = reply_of reply (get peer_id s.links)

abbrev pub reason_of : Option PeerLink → LeaveReason
reason_of none = said_bye
reason_of (some link) = link.reason

abbrev pub media_told : Bool → JsString → List Output
media_told false peer_id = []
media_told true peer_id = media_gone peer_id ∷ []

abbrev pub told_gone : JsString → LeaveReason → Server → Option RosterEntry → List Output
told_gone peer_id reason s none = []
told_gone peer_id reason s (some entry) =
    send_all (roster_update [] (peer_id ∷ []) []) (values s.links)
    ++ (peer_left peer_id entry.nickname reason ∷ [])

-- `#onPeerGone`; the link's timer and heartbeat go with the link.
unfoldable pub on_peer_gone : JsString → Server → Server × List Output
on_peer_gone peer_id s =
    let (roster, removed) = Roster.remove peer_id s.roster in
    let s' = record s { roster = roster; links = delete peer_id s.links } in
    if s.closing then (s, []) else (
      s',
      media_told s.opts.has_media peer_id
          ++ told_gone peer_id (reason_of (get peer_id s.links)) s' removed,
    )

abbrev pub stopped : Option Heartbeat → Option Heartbeat
stopped none = none
stopped (some h) = some (Heartbeat.stop h)

-- The loops that stop every link's timer and heartbeat.
unfoldable pub stop_all : Dictionary JsString PeerLink → Dictionary JsString PeerLink
stop_all [] = []
stop_all ((peer_id, link) ∷ links) =
    (peer_id, record link { heartbeat = stopped link.heartbeat }) ∷ stop_all links

abbrev pub byes : List PeerLink → List Output
byes [] = []
byes (link ∷ links) =
    send link.conn (bye (units "room_closing"))
    ∷ close_conn link.conn 1001 (units "room closing")
    ∷ byes links

unfoldable pub close : Server → Server × List Output
close s = (record s { closing = true; links = [] }, byes (values s.links) ++ (close_source ∷ []))

abbrev pub crashes : List PeerLink → List Output
crashes [] = []
crashes (link ∷ links) = close_conn link.conn 4001 (units "crash") ∷ crashes links

-- `owns_source`: the source is the server's own WebSocketServer.
unfoldable pub crash : Bool → Server → Server × List Output
crash owns_source s = (
  record s { closing = true; links = [] },
  crashes (values s.links) ++ ((if owns_source then terminate_source else close_source) ∷ []),
)

unfoldable pub transfer_to : Server → Option JsString → Server × List Output
unfolding close broadcast
transfer_to s none = close s
transfer_to s (some successor) = (
  record s { closing = true; links = stop_all s.links },
  broadcast (host_transfer successor (s.opts.epoch + 1)) s,
)

-- `transferHost`, up to the wait of its grace time.
unfoldable pub transfer_host : Server → Server × List Output
unfolding stop_all transfer_to
transfer_host s =
    transfer_to s (designated_heir (election_entries_from_roster (Roster.snapshot s.roster)))

-- `#closeForHandoff`
unfoldable pub close_for_handoff : Server → Server × List Output
close_for_handoff s = (record s { closing = true; links = [] }, close_source ∷ [])
