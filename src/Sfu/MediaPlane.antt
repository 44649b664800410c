-- ===== src/Sfu/MediaPlane.antt =====
-- src/main/sfu/media-plane.ts: media messages turned into calls of the router, and the router's events into
-- calls of the governor. A message whose handling awaits is handled in two steps.
pub mod Tracking
pub mod Governed
pub mod Directives
mod Examples
use screen_sharing.Prelude.{
  ℕ, Bool, true, false, Option, none, some, List, [], ◌∷◌, ◌++◌, ◌==◌, if◌then◌else◌, take, Result,
  ok, err,
}
use screen_sharing.Prelude.Text.{JsString, units}
use screen_sharing.Protocol.{
  StreamInfo, Body, StreamStatus, QualityReason, QualityDirective, SubscriptionStats,
  PublicationStats, join, joined, host_transfer, roster_update, rejected, ping, pong, bye,
  publish_offer, publish_answer, unpublish, subscribe, subscribe_offer, subscribe_answer,
  unsubscribe, stream_state, media_error, quality_directive, stats_report,
}
use screen_sharing.Sfu.Governor
use screen_sharing.Sfu.Governor.{Governor, Directive, Reason}
use screen_sharing.Sfu.Router
use screen_sharing.Sfu.Router.{
  Router, Publisher, Tracks, SfuError, stream_live, stream_ended, demand_changed, dispose, close_pc,
  set_answer, request_pli, sfu_closed, no_forwardable_tracks, already_subscribed,
  no_pending_subscription, no_description, already_published, no_such_stream, publish_failed,
  subscribe_failed,
}

-- `isMediaMessage`
unfoldable pub is_media_message : Body → Bool
is_media_message (publish_offer stream_id video audio sdp) = true
is_media_message (unpublish stream_id) = true
is_media_message (subscribe stream_id) = true
is_media_message (subscribe_answer stream_id sdp) = true
is_media_message (unsubscribe stream_id) = true
is_media_message (stats_report subscriptions publications) = true
is_media_message (join nickname client_caps) = false
is_media_message (joined j) = false
is_media_message (host_transfer successor_peer_id epoch) = false
is_media_message (roster_update added removed changed) = false
is_media_message (rejected reason) = false
is_media_message (ping nonce sent_at) = false
is_media_message (pong nonce sent_at) = false
is_media_message (bye reason) = false
is_media_message (publish_answer stream_id sdp) = false
is_media_message (subscribe_offer stream_id sdp) = false
is_media_message (stream_state stream state) = false
is_media_message (media_error stream_id reason) = false
is_media_message (quality_directive d) = false

pub record MediaPlane : Type 0 where
  pub router : Router
  pub governor : Governor

pub data Output : Type 0 where
  broadcast : Body → Output
  send_to : (peer_id : JsString) → Body → Output
  effect : Router.Output → Output

unfoldable pub new : Option ℕ → MediaPlane
unfolding Governor.new
new none = record { router = Router.new; governor = Governor.new 2_500 none none }
new (some kbps) = record { router = Router.new; governor = Governor.new kbps none none }

abbrev pub wire_reason : Reason → QualityReason
wire_reason Governor.bandwidth = QualityReason.bandwidth
wire_reason Governor.cpu = QualityReason.cpu
wire_reason Governor.restored = QualityReason.restored

-- `toWire`
unfoldable pub to_wire : Directive → QualityDirective
to_wire d = record {
  stream_id = d.stream_id;
  max_kbps = d.max_kbps;
  max_fps = d.max_fps;
  scale_down_tenths = d.scale_down_tenths;
  reason = wire_reason d.reason;
}

abbrev pub ended_stream : JsString → StreamInfo
ended_stream stream_id = record {
  stream_id = stream_id;
  owner_peer_id = [];
  video = false;
  audio = false;
}

abbrev pub pause_directive : JsString → QualityDirective
pause_directive stream_id = record {
  stream_id = stream_id;
  max_kbps = 0;
  max_fps = 0;
  scale_down_tenths = 10;
  reason = QualityReason.no_viewers;
}

abbrev pub send_directive : Option Directive → List Output
send_directive none = []
send_directive (some d) = send_to d.owner_peer_id (quality_directive (to_wire d)) ∷ []

abbrev pub resume : JsString → Option Directive → List Output
resume owner_peer_id none = []
resume owner_peer_id (some d) = send_to owner_peer_id (quality_directive (to_wire d)) ∷ []

-- The handlers of the router's events that the constructor installs.
unfoldable pub react : Router.Output → Governor → Governor × List Output
unfolding to_wire
react (stream_live info) g = (
  Governor.register info.stream_id info.owner_peer_id g,
  broadcast (stream_state info StreamStatus.live) ∷ [],
)
react (stream_ended stream_id) g = (
  Governor.forget stream_id g,
  broadcast (stream_state (ended_stream stream_id) StreamStatus.ended) ∷ [],
)
react (demand_changed stream_id owner_peer_id subscribers) g =
    if subscribers == 0
    then (
      Governor.set_paused stream_id true g,
      send_to owner_peer_id (quality_directive (pause_directive stream_id)) ∷ [],
    )
    else (
      Governor.set_paused stream_id false g,
      resume owner_peer_id
          (Governor.resume_directive stream_id (Governor.set_paused stream_id false g)),
    )
react (dispose pc d) g = (g, effect (dispose pc d) ∷ [])
react (close_pc pc) g = (g, effect (close_pc pc) ∷ [])
react (set_answer pc sdp) g = (g, effect (set_answer pc sdp) ∷ [])
react (request_pli pc) g = (g, effect (request_pli pc) ∷ [])

unfoldable pub react_all : List Router.Output → Governor → Governor × List Output
unfolding react
react_all [] g = (g, [])
react_all (o ∷ os) g =
    ((react_all os (react o g).0).0, (react o g).1 ++ (react_all os (react o g).0).1)

-- A call of the router, and the governor's reaction to its events.
abbrev pub reacted : Governor → Router × List Router.Output → MediaPlane × List Output
reacted g (r, events) =
    (record { router = r; governor = (react_all events g).0 }, (react_all events g).1)

abbrev pub directives : List Directive → List Output
directives [] = []
directives (d ∷ ds) = send_to d.owner_peer_id (quality_directive (to_wire d)) ∷ directives ds

-- `#runGovernor`
unfoldable pub run_governor : MediaPlane → MediaPlane × List Output
run_governor m =
    let (g, ds) = Governor.evaluate m.governor in (record m { governor = g }, directives ds)

unfoldable pub on_peer_gone : JsString → MediaPlane → MediaPlane × List Output
on_peer_gone peer_id m =
    reacted (Governor.drop_subscriber peer_id m.governor) (Router.remove_peer peer_id m.router)

unfoldable pub close : MediaPlane → MediaPlane × List Output
close m = reacted m.governor (Router.close m.router)

-- The messages of the errors that the router throws.
unfoldable pub error_text : SfuError → JsString
error_text sfu_closed = units "sfu closed"
error_text no_forwardable_tracks = units "stream has no forwardable tracks yet"
error_text already_subscribed = units "already subscribed"
error_text no_pending_subscription = units "no pending subscription"
error_text no_description = units "no local description after negotiation"
error_text (already_published stream_id) =
    units "stream " ++ (stream_id ++ units " already published")
error_text (no_such_stream stream_id) = units "no such stream: " ++ stream_id
error_text (publish_failed message) = units "publish negotiation failed: " ++ message
error_text (subscribe_failed message) = units "subscribe offer failed: " ++ message

-- The `catch` of `handleMessage`.
unfoldable pub failure : JsString → SfuError → Body
failure stream_id e = media_error stream_id (take 160 (error_text e))

-- What `handleMessage` has come to: its answer, or an await.
pub data Progress : Type 0 where
  answered : Option Body → Progress
  negotiates_publish : StreamInfo → Progress
  negotiates_subscribe : (subscriber stream_id : JsString) → Publisher → Progress
  sets_answer : (stream_id : JsString) → Progress

unfoldable pub ingest_subscriptions : JsString → List SubscriptionStats → Governor → Governor
ingest_subscriptions peer_id [] g = g
ingest_subscriptions peer_id (sub ∷ subs) g = ingest_subscriptions peer_id subs (
    Governor.ingest_subscriber
      (record {
        stream_id = sub.stream_id;
        subscriber_peer_id = peer_id;
        fraction_lost = sub.fraction_lost;
        rtt_ms = sub.rtt_ms;
        fps = sub.fps;
      })
      g)

unfoldable pub ingest_publications : List PublicationStats → Governor → Governor
ingest_publications [] g = g
ingest_publications (p ∷ ps) g = ingest_publications ps (
    Governor.ingest_publisher
      (record { stream_id = p.stream_id; cpu_pressure = p.cpu_pressure; fps = p.fps }) g)

abbrev pub begun_publish : StreamInfo → Result SfuError (Unit {0}) → Progress
begun_publish info (err e) = answered (some (failure info.stream_id e))
begun_publish info (ok u) = negotiates_publish info

abbrev pub begun_subscribe : JsString → JsString → Result SfuError Publisher → Progress
begun_subscribe peer_id stream_id (err e) = answered (some (failure stream_id e))
begun_subscribe peer_id stream_id (ok publisher) = negotiates_subscribe peer_id stream_id publisher

abbrev pub begun_answer : JsString → Result SfuError (Unit {0}) → Progress
begun_answer stream_id (err e) = answered (some (failure stream_id e))
begun_answer stream_id (ok u) = sets_answer stream_id

abbrev pub with_progress : Progress → MediaPlane × List Output → MediaPlane × List Output × Progress
with_progress p (m, outputs) = (m, outputs, p)

-- `handleMessage` up to its first await; `pc` is the peer connection that it opens, if it opens one.
unfoldable pub handle_message :
    JsString → ℕ → Body → MediaPlane → MediaPlane × List Output × Progress
unfolding failure ingest_subscriptions ingest_publications
handle_message peer_id pc (publish_offer stream_id video audio sdp) m = (
  m,
  [],
  begun_publish
      (record { stream_id = stream_id; owner_peer_id = peer_id; video = video; audio = audio })
      (Router.publish_begin stream_id m.router),
)
handle_message peer_id pc (unpublish stream_id) m =
    with_progress (answered none) (reacted m.governor (Router.unpublish stream_id m.router))
handle_message peer_id pc (subscribe stream_id) m =
    let (result, events) = Router.subscribe_begin peer_id stream_id pc m.router in
    with_progress (begun_subscribe peer_id stream_id result) (reacted m.governor (m.router, events))
handle_message peer_id pc (subscribe_answer stream_id sdp) m =
    let (result, events) = Router.complete_subscribe peer_id stream_id sdp m.router in
    with_progress (begun_answer stream_id result) (reacted m.governor (m.router, events))
handle_message peer_id pc (unsubscribe stream_id) m =
    with_progress (answered none)
      (reacted m.governor (Router.unsubscribe peer_id stream_id m.router))
handle_message peer_id pc (stats_report subscriptions publications) m = (
  record m {
    governor =
        ingest_publications publications (ingest_subscriptions peer_id subscriptions m.governor);
  },
  [],
  answered none,
)
handle_message peer_id pc (join nickname client_caps) m = (m, [], answered none)
handle_message peer_id pc (joined j) m = (m, [], answered none)
handle_message peer_id pc (host_transfer successor_peer_id epoch) m = (m, [], answered none)
handle_message peer_id pc (roster_update added removed changed) m = (m, [], answered none)
handle_message peer_id pc (rejected reason) m = (m, [], answered none)
handle_message peer_id pc (ping nonce sent_at) m = (m, [], answered none)
handle_message peer_id pc (pong nonce sent_at) m = (m, [], answered none)
handle_message peer_id pc (bye reason) m = (m, [], answered none)
handle_message peer_id pc (publish_answer stream_id sdp) m = (m, [], answered none)
handle_message peer_id pc (subscribe_offer stream_id sdp) m = (m, [], answered none)
handle_message peer_id pc (stream_state stream state) m = (m, [], answered none)
handle_message peer_id pc (media_error stream_id reason) m = (m, [], answered none)
handle_message peer_id pc (quality_directive d) m = (m, [], answered none)

abbrev pub answer_publish : JsString → Result SfuError JsString → Body
answer_publish stream_id (err e) = failure stream_id e
answer_publish stream_id (ok sdp) = publish_answer stream_id sdp

-- `publish_offer`, after its negotiation.
unfoldable pub publish_negotiated :
    StreamInfo
    → ℕ
    → Tracks
    → Result JsString (Option JsString)
    → MediaPlane
    → MediaPlane × List Output × Body
publish_negotiated info pc tracks negotiation m =
    let (r, events, result) = Router.publish_end info pc tracks negotiation m.router in
    let (m', outputs) = reacted m.governor (r, events) in
    (m', outputs, answer_publish info.stream_id result)

abbrev pub answer_subscribe : JsString → Result SfuError JsString → Body
answer_subscribe stream_id (err e) = failure stream_id e
answer_subscribe stream_id (ok sdp) = subscribe_offer stream_id sdp

-- `subscribe`, after its offer.
unfoldable pub subscribe_negotiated :
    JsString
    → JsString
    → ℕ
    → Publisher
    → Result JsString (Option JsString)
    → MediaPlane
    → MediaPlane × List Output × Body
subscribe_negotiated peer_id stream_id pc publisher negotiation m =
    let (r, events, result) =
      Router.subscribe_end peer_id stream_id pc publisher negotiation m.router in
    let (m', outputs) = reacted m.governor (r, events) in
    (m', outputs, answer_subscribe stream_id result)
