-- ===== src/Protocol.antt =====
-- src/shared/protocol.ts: the messages of the control plane. A fraction is a whole number of millionths,
-- a scale factor of tenths, and a text of the schemas' hex its string. Where a schema also admits a negative
-- or a fractional number (versions, nonces, times, rates), the model has the natural numbers of it.
pub mod Schema
use screen_sharing.Prelude.{ℕ, Bool, Option, List}
use screen_sharing.Prelude.Text.{JsString}
use screen_sharing.Signaling.Roster.{RosterEntry}

abbrev pub protocol_version : ℕ
protocol_version = 1

pub record ArgonParams : Type 0 where
  pub m : ℕ
  pub t : ℕ
  pub p : ℕ

pub data RefusalReason : Type 0 where
  room_id_mismatch version_mismatch rate_limited too_many_handshakes : RefusalReason
  closing_room bad_message : RefusalReason

pub data HandshakeMessage : Type 0 where
  hello : (app_version : JsString) (proto_version : ℕ) (room_id : JsString) → HandshakeMessage
  hello_ack : (proto_version : ℕ) (sid : JsString) (argon_params : ArgonParams) → HandshakeMessage
  pake_peer : (ya : JsString) → HandshakeMessage
  pake_host : (yb mac_host : JsString) → HandshakeMessage
  pake_confirm : (mac_peer : JsString) → HandshakeMessage
  handshake_reject : (reason : RefusalReason) → HandshakeMessage

pub record RoomParams : Type 0 where
  pub max_participants : ℕ
  pub max_recommended_subscriptions : ℕ
  pub video_bitrate_kbps : ℕ

pub record ClientCaps : Type 0 where
  pub can_host : Bool
  pub inbound_port : ℕ

pub record StreamInfo : Type 0 where
  pub stream_id : JsString
  pub owner_peer_id : JsString
  pub video : Bool
  pub audio : Bool

pub data RejectedReason : Type 0 where
  room_full duplicate_nickname room_closing malformed : RejectedReason

pub data StreamStatus : Type 0 where
  live ended : StreamStatus

pub data QualityReason : Type 0 where
  no_viewers restored bandwidth cpu : QualityReason

pub record SubscriptionStats : Type 0 where
  pub stream_id : JsString
  pub fraction_lost : ℕ
  pub jitter_ms : ℕ
  pub rtt_ms : ℕ
  pub fps : ℕ

pub record PublicationStats : Type 0 where
  pub stream_id : JsString
  pub cpu_pressure : ℕ
  pub fps : ℕ

pub record QualityDirective : Type 0 where
  pub stream_id : JsString
  pub max_kbps : ℕ
  pub max_fps : ℕ
  pub scale_down_tenths : ℕ
  pub reason : QualityReason

pub record Joined : Type 0 where
  pub peer_id : JsString
  pub join_seq : ℕ
  pub epoch : ℕ
  pub room_params : RoomParams
  pub roster : List RosterEntry
  pub streams : List StreamInfo

pub data Body : Type 0 where
  join : (nickname : JsString) (client_caps : ClientCaps) → Body
  joined : Joined → Body
  host_transfer : (successor_peer_id : JsString) (epoch : ℕ) → Body
  roster_update :
      (added : List RosterEntry) (removed : List JsString) (changed : List RosterEntry) → Body
  rejected : (reason : RejectedReason) → Body
  ping pong : (nonce sent_at : ℕ) → Body
  bye : (reason : JsString) → Body
  publish_offer : (stream_id : JsString) (video audio : Bool) (sdp : JsString) → Body
  publish_answer : (stream_id sdp : JsString) → Body
  unpublish : (stream_id : JsString) → Body
  subscribe : (stream_id : JsString) → Body
  subscribe_offer subscribe_answer : (stream_id sdp : JsString) → Body
  unsubscribe : (stream_id : JsString) → Body
  stream_state : (stream : StreamInfo) (state : StreamStatus) → Body
  media_error : (stream_id reason : JsString) → Body
  quality_directive : QualityDirective → Body
  stats_report :
      (subscriptions : List SubscriptionStats) (publications : List PublicationStats) → Body

pub record Envelope : Type 0 where
  pub v : ℕ
  pub epoch : ℕ
  pub seq : ℕ
  pub sender : JsString
  pub body : Body
