-- ===== src/Protocol/Schema.antt =====
-- src/shared/protocol.ts: what its schemas ask of the parts of a message, as tests.
use screen_sharing.Prelude.{
  ℕ, ◌*◌, Bool, true, ◌&&◌, ◌||◌, Option, none, some, ltb, leb, ◌==◌, length, every,
}
use screen_sharing.Prelude.Text.{JsString}
use screen_sharing.Signaling.Roster.{RosterEntry, InboundEndpoint, Publishing}
use screen_sharing.Protocol.{
  ArgonParams, HandshakeMessage, hello, hello_ack, pake_peer, pake_host, pake_confirm,
  handshake_reject, RoomParams, ClientCaps, StreamInfo, QualityDirective, SubscriptionStats,
  PublicationStats, Joined, Body, Envelope, join, joined, host_transfer, roster_update, rejected,
  ping, pong, bye, publish_offer, publish_answer, unpublish, subscribe, subscribe_offer,
  subscribe_answer, unsubscribe, stream_state, media_error, quality_directive, stats_report,
}

-- `z.string().max(n)`
abbrev pub has_max : ℕ → JsString → Bool
has_max n s = leb (length s) n

-- `z.string().min(1).max(n)`
abbrev pub has_between : ℕ → JsString → Bool
has_between n s = leb 1 (length s) && leb (length s) n

-- [0-9a-f]
abbrev pub is_hex_unit : ℕ → Bool
is_hex_unit c = leb b'0' c && leb c b'9' || leb b'a' c && leb c b'f'

-- `hex(bytes)`
unfoldable pub is_hex : ℕ → JsString → Bool
is_hex bytes s = length s == bytes * 2 && every is_hex_unit s

abbrev pub argon_params_ok : ArgonParams → Bool
argon_params_ok a = ltb 0 a.m && ltb 0 a.t && ltb 0 a.p

unfoldable pub handshake_message_ok : HandshakeMessage → Bool
unfolding is_hex
handshake_message_ok (hello app_version proto_version room_id) =
    has_max 32 app_version && is_hex 4 room_id
handshake_message_ok (hello_ack proto_version sid argon_params) =
    is_hex 16 sid && argon_params_ok argon_params
handshake_message_ok (pake_peer ya) = is_hex 32 ya
handshake_message_ok (pake_host yb mac_host) = is_hex 32 yb && is_hex 32 mac_host
handshake_message_ok (pake_confirm mac_peer) = is_hex 32 mac_peer
handshake_message_ok (handshake_reject reason) = true

abbrev pub room_params_ok : RoomParams → Bool
room_params_ok p =
    ltb 0 p.max_participants && ltb 0 p.max_recommended_subscriptions && ltb 0 p.video_bitrate_kbps

abbrev pub publishing_ok : Option Publishing → Bool
publishing_ok none = true
publishing_ok (some p) = has_max 64 p.stream_id

abbrev pub inbound_endpoint_ok : Option InboundEndpoint → Bool
inbound_endpoint_ok none = true
inbound_endpoint_ok (some e) = has_max 64 e.address && leb 1 e.port && leb e.port 65_535

abbrev pub roster_entry_ok : RosterEntry → Bool
roster_entry_ok e =
    has_max 64 e.peer_id
    && has_max 48 e.nickname
    && inbound_endpoint_ok e.inbound_endpoint
    && publishing_ok e.publishing

abbrev pub client_caps_ok : ClientCaps → Bool
client_caps_ok c = leb c.inbound_port 65_535

abbrev pub stream_info_ok : StreamInfo → Bool
stream_info_ok s = has_between 64 s.stream_id && has_max 64 s.owner_peer_id

abbrev pub joined_ok : Joined → Bool
joined_ok j =
    has_max 64 j.peer_id
    && room_params_ok j.room_params
    && leb (length j.roster) 64
    && every roster_entry_ok j.roster
    && leb (length j.streams) 64
    && every stream_info_ok j.streams

abbrev pub sdp_ok : JsString → Bool
sdp_ok s = has_between 60_000 s

abbrev pub quality_directive_ok : QualityDirective → Bool
quality_directive_ok d =
    has_between 64 d.stream_id
    && leb d.max_kbps 20_000
    && leb d.max_fps 120
    && leb 10 d.scale_down_tenths
    && leb d.scale_down_tenths 80

abbrev pub subscription_stats_ok : SubscriptionStats → Bool
subscription_stats_ok s =
    has_between 64 s.stream_id
    && leb s.fraction_lost 1_000_000
    && leb s.jitter_ms 10_000
    && leb s.rtt_ms 10_000
    && leb s.fps 240

abbrev pub publication_stats_ok : PublicationStats → Bool
publication_stats_ok p = has_between 64 p.stream_id && leb p.cpu_pressure 1_000_000 && leb p.fps 240

unfoldable pub body_ok : Body → Bool
body_ok (join nickname client_caps) = has_between 48 nickname && client_caps_ok client_caps
body_ok (joined j) = joined_ok j
body_ok (host_transfer successor_peer_id epoch) = has_max 64 successor_peer_id
body_ok (roster_update added removed changed) =
    leb (length added) 64
    && every roster_entry_ok added
    && leb (length removed) 64
    && every (has_max 64) removed
    && leb (length changed) 64
    && every roster_entry_ok changed
body_ok (rejected reason) = true
body_ok (ping nonce sent_at) = true
body_ok (pong nonce sent_at) = true
body_ok (bye reason) = has_max 120 reason
body_ok (publish_offer stream_id video audio sdp) = has_between 64 stream_id && sdp_ok sdp
body_ok (publish_answer stream_id sdp) = has_between 64 stream_id && sdp_ok sdp
body_ok (unpublish stream_id) = has_between 64 stream_id
body_ok (subscribe stream_id) = has_between 64 stream_id
body_ok (subscribe_offer stream_id sdp) = has_between 64 stream_id && sdp_ok sdp
body_ok (subscribe_answer stream_id sdp) = has_between 64 stream_id && sdp_ok sdp
body_ok (unsubscribe stream_id) = has_between 64 stream_id
body_ok (stream_state stream state) = stream_info_ok stream
body_ok (media_error stream_id reason) = has_between 64 stream_id && has_max 160 reason
body_ok (quality_directive d) = quality_directive_ok d
body_ok (stats_report subscriptions publications) =
    leb (length subscriptions) 32
    && every subscription_stats_ok subscriptions
    && leb (length publications) 8
    && every publication_stats_ok publications

unfoldable pub envelope_ok : Envelope → Bool
unfolding body_ok
envelope_ok e = has_max 64 e.sender && body_ok e.body
