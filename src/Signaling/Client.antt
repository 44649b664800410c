-- ===== src/Signaling/Client.antt =====
-- src/main/signaling/client.ts: the signaling client of a peer. `connect` is a step after each of its
-- awaits. The clock and nonces are arguments; what the connection and the consumer are told is an output.

pub mod Mirror
pub mod Following
mod Examples
use screen_sharing.Prelude.{
  ℕ, Bool, true, false, not, Option, none, some, List, [], ◌∷◌, ◌++◌, ltb, if◌then◌else◌, map,
  keep_if, any,
}
use screen_sharing.Prelude.Dictionary.{get}
use screen_sharing.Prelude.Sort.{sort}
use screen_sharing.Prelude.Text.{JsString, units, str_eq, js_string_eq}
use screen_sharing.Protocol.{
  ClientCaps, StreamInfo, RejectedReason, Body, Joined, Envelope, StreamStatus, live, ended, join,
  joined, host_transfer, roster_update, rejected, ping, pong, bye, publish_offer, publish_answer,
  unpublish, subscribe, subscribe_offer, subscribe_answer, unsubscribe, stream_state, media_error,
  quality_directive, stats_report,
}
use screen_sharing.Signaling.Heartbeat
use screen_sharing.Signaling.Heartbeat.{Heartbeat}
use screen_sharing.Signaling.Roster.{RosterEntry, not_later}

abbrev pub heartbeat_max_missed : ℕ
heartbeat_max_missed = 3

pub record ClientOptions : Type 0 where
  pub nickname : JsString
  pub can_host : Option Bool
  pub inbound_port : Option ℕ
  pub max_missed : Option ℕ
  pub min_epoch : Option ℕ

-- `connected`: `#conn` is there.
pub record Client : Type 0 where
  pub opts : ClientOptions
  pub connected : Bool
  pub peer_id : JsString
  pub roster : List RosterEntry
  pub streams : List StreamInfo
  pub epoch : ℕ
  pub heartbeat : Option Heartbeat

-- What `connect` throws after the handshake.
pub data JoinError : Type 0 where
  timed_out closed_before_joined stale_epoch : JoinError
  join_rejected : RejectedReason → JoinError
  host_said_bye : (reason : JsString) → JoinError

pub data Output : Type 0 where
  send : Body → Output
  set_outbound_from : (peer_id : JsString) → Output
  close_conn : (code : ℕ) (reason : JsString) → Output
  emit_roster : List RosterEntry → Output
  emit_streams : List StreamInfo → Output
  emit_message : Envelope → Output
  emit_media : Body → Output
  emit_host_lost : Output
  emit_host_transfer : (successor_peer_id : JsString) (epoch : ℕ) → Output
  emit_close : (code : ℕ) (reason : JsString) → Output

unfoldable pub new : ClientOptions → Client
new opts = record {
  opts = opts;
  connected = false;
  peer_id = [];
  roster = [];
  streams = [];
  epoch = 0;
  heartbeat = none;
}

abbrev or_else {ℓ} : {A : Type ℓ} → Option A → A → A
or_else none a = a
or_else (some b) a = b

-- `connect`, once the handshake is done: the `join` goes out.
unfoldable pub ask_to_join : Client → Client × List Output
ask_to_join c = (
  record c { connected = true },
  set_outbound_from (units "pending")
      ∷ send (
          join c.opts.nickname (record {
            can_host = or_else c.opts.can_host false;
            inbound_port = or_else c.opts.inbound_port 0;
          }))
      ∷ [],
)

-- What the message listener of `#waitForJoined` does with an envelope.
pub data Waiting : Type 0 where
  waits : Waiting
  joins : Joined → Waiting
  fails : JoinError → Waiting

unfoldable pub wait_for_joined : Body → Waiting
wait_for_joined (joined j) = joins j
wait_for_joined (rejected reason) = fails (join_rejected reason)
wait_for_joined (bye reason) = fails (host_said_bye reason)
wait_for_joined (join nickname caps) = waits
wait_for_joined (host_transfer successor epoch) = waits
wait_for_joined (roster_update added removed changed) = waits
wait_for_joined (ping nonce sent_at) = waits
wait_for_joined (pong nonce sent_at) = waits
wait_for_joined (publish_offer stream_id video audio sdp) = waits
wait_for_joined (publish_answer stream_id sdp) = waits
wait_for_joined (unpublish stream_id) = waits
wait_for_joined (subscribe stream_id) = waits
wait_for_joined (subscribe_offer stream_id sdp) = waits
wait_for_joined (subscribe_answer stream_id sdp) = waits
wait_for_joined (unsubscribe stream_id) = waits
wait_for_joined (stream_state stream state) = waits
wait_for_joined (media_error stream_id reason) = waits
wait_for_joined (quality_directive d) = waits
wait_for_joined (stats_report subs pubs) = waits

-- Its timer.
abbrev pub wait_timed_out : Waiting
wait_timed_out = fails timed_out

-- Its close listener.
abbrev pub wait_closed : Waiting
wait_closed = fails closed_before_joined

abbrev stopped : Option Heartbeat → Option Heartbeat
stopped none = none
stopped (some h) = some (Heartbeat.stop h)

-- `#stopHeartbeat`
unfoldable pub stop_heartbeat : Client → Client
unfolding Heartbeat.stop
stop_heartbeat c = record c { heartbeat = stopped c.heartbeat }

-- The callbacks of the heartbeat; `onDead` stops it.
abbrev pub beaten : Client → List Heartbeat.Output → Client × List Output
beaten c [] = (c, [])
beaten c (Heartbeat.send_ping nonce sent_at ∷ os) =
    let (c', outputs) = beaten c os in (c', send (ping nonce sent_at) ∷ outputs)
beaten c (Heartbeat.on_dead ∷ os) =
    let (c', outputs) = beaten c os in (stop_heartbeat c', emit_host_lost ∷ outputs)

abbrev with_heartbeat : Client → Heartbeat × List Heartbeat.Output → Client × List Output
with_heartbeat c (h, os) = beaten (record c { heartbeat = some h }) os

-- `#startHeartbeat`
unfoldable pub start_heartbeat : ℕ → ℕ → Client → Client × List Output
unfolding Heartbeat.new Heartbeat.start
start_heartbeat nonce now c =
    with_heartbeat c
      (Heartbeat.start nonce now (Heartbeat.new (or_else c.opts.max_missed heartbeat_max_missed)))

abbrev tick_found : ℕ → ℕ → Client → Option Heartbeat → Client × List Output
tick_found nonce now c none = (c, [])
tick_found nonce now c (some h) = with_heartbeat c (Heartbeat.tick nonce now h)

-- The heartbeat's timer.
unfoldable pub on_tick : ℕ → ℕ → Client → Client × List Output
on_tick nonce now c = tick_found nonce now c c.heartbeat

-- The rest of `connect`, with the host's `joined`.
unfoldable pub on_joined : ℕ → ℕ → Joined → Client → Client × List Output × Option JoinError
unfolding start_heartbeat
on_joined nonce now j c =
    let known = record c {
      peer_id = j.peer_id;
      roster = j.roster;
      epoch = j.epoch;
      streams = j.streams;
    } in
    let (c', beats) = start_heartbeat nonce now known in
    if ltb j.epoch (or_else c.opts.min_epoch 0)
    then (c, close_conn 1000 (units "stale epoch") ∷ [], some stale_epoch)
    else (
      c',
      set_outbound_from j.peer_id ∷ beats ++ (emit_roster j.roster ∷ emit_streams j.streams ∷ []),
      none,
    )

-- `close`
unfoldable pub close : JsString → Client → Client × List Output
unfolding stop_heartbeat
close reason c =
    if c.connected
    then (stop_heartbeat c, send (bye reason) ∷ close_conn 1000 (units "bye") ∷ [])
    else (stop_heartbeat c, [])

-- `detach`
unfoldable pub detach : Client → Client
unfolding stop_heartbeat
detach c = stop_heartbeat c

-- The connection's close event.
unfoldable pub on_close : ℕ → JsString → Client → Client × List Output
unfolding stop_heartbeat
on_close code reason c = (stop_heartbeat c, emit_close code reason ∷ [])

-- `new Map(changed.map((e) => [e.peerId, e]))`, read at an id: of two entries the last counts.
abbrev pub last_of : JsString → List RosterEntry → Option RosterEntry → Option RosterEntry
last_of id [] found = found
last_of id (e ∷ es) found = last_of id es (if str_eq e.peer_id id then some e else found)

abbrev pub changed_entry : List RosterEntry → RosterEntry → RosterEntry
changed_entry changed e = or_else (last_of e.peer_id changed none) e

-- The roster after a `roster_update`.
unfoldable pub updated_roster :
    List RosterEntry → List JsString → List RosterEntry → List RosterEntry → List RosterEntry
updated_roster added removed changed roster = sort not_later (
    map (changed_entry changed) (keep_if (λ e. not (any (str_eq e.peer_id) removed)) roster)
    ++ added)

-- The streams after a `stream_state`.
unfoldable pub updated_streams : StreamInfo → StreamStatus → List StreamInfo → List StreamInfo
updated_streams stream ended streams =
    keep_if (λ s. not (str_eq s.stream_id stream.stream_id)) streams
updated_streams stream live streams =
    keep_if (λ s. not (str_eq s.stream_id stream.stream_id)) streams ++ (stream ∷ [])

abbrev pong_heard : ℕ → ℕ → Option Heartbeat → Option Heartbeat
pong_heard nonce now none = none
pong_heard nonce now (some h) = some (Heartbeat.on_pong nonce now h)

abbrev pub handle : ℕ → Envelope → Body → Client → Client × List Output
handle now env (roster_update added removed changed) c =
    let roster = updated_roster added removed changed c.roster in
    (record c { roster = roster }, emit_roster roster ∷ [])
handle now env (ping nonce sent_at) c = (c, send (pong nonce sent_at) ∷ [])
handle now env (pong nonce sent_at) c =
    (record c { heartbeat = pong_heard nonce now c.heartbeat }, [])
handle now env (host_transfer successor epoch) c = (c, emit_host_transfer successor epoch ∷ [])
handle now env (bye reason) c = (stop_heartbeat c, emit_close 1000 reason ∷ [])
handle now env (stream_state stream state) c =
    let streams = updated_streams stream state c.streams in
    (record c { streams = streams }, emit_streams streams ∷ [])
handle now env (publish_answer stream_id sdp) c =
    (c, emit_media (publish_answer stream_id sdp) ∷ [])
handle now env (subscribe_offer stream_id sdp) c =
    (c, emit_media (subscribe_offer stream_id sdp) ∷ [])
handle now env (media_error stream_id reason) c =
    (c, emit_media (media_error stream_id reason) ∷ [])
handle now env (quality_directive d) c = (c, emit_media (quality_directive d) ∷ [])
handle now env (join nickname caps) c = (c, emit_message env ∷ [])
handle now env (joined j) c = (c, emit_message env ∷ [])
handle now env (rejected reason) c = (c, emit_message env ∷ [])
handle now env (publish_offer stream_id video audio sdp) c = (c, emit_message env ∷ [])
handle now env (unpublish stream_id) c = (c, emit_message env ∷ [])
handle now env (subscribe stream_id) c = (c, emit_message env ∷ [])
handle now env (subscribe_answer stream_id sdp) c = (c, emit_message env ∷ [])
handle now env (unsubscribe stream_id) c = (c, emit_message env ∷ [])
handle now env (stats_report subs pubs) c = (c, emit_message env ∷ [])

-- `#onMessage`
unfoldable pub on_message : ℕ → Envelope → Client → Client × List Output
unfolding updated_roster updated_streams stop_heartbeat
on_message now env c = handle now env env.body c
