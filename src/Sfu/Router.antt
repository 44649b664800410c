-- ===== src/Sfu/Router.antt =====
-- src/main/sfu/router.ts: publishers and subscriptions of the forwarding unit. A werift peer connection is
-- a number; its negotiation, and the tracks that it has got, are arguments. An async method is two steps,
-- before and after its await, between which other calls may run.
pub mod Removal
pub mod Overlap
mod Examples
use screen_sharing.Prelude.{
  ℕ, suc, ◌+◌, Bool, true, false, not, ◌&&◌, ◌||◌, Option, none, some, List, [], ◌∷◌, ◌++◌, ltb,
  ◌==◌, if◌then◌else◌, length, drop, Result, ok, err, map, any,
}
use screen_sharing.Prelude.Dictionary.{Dictionary, get, set, delete, has, values}
use screen_sharing.Prelude.Text.{JsString, units, str_eq, js_string_eq}
use screen_sharing.Prelude.Affix.{starts_with, ends_with}
use screen_sharing.Protocol.{StreamInfo}

abbrev pub pli_min_interval_ms : ℕ
pli_min_interval_ms = 1_000

pub data SfuError : Type 0 where
  sfu_closed no_forwardable_tracks already_subscribed no_pending_subscription no_description :
      SfuError
  already_published no_such_stream : (stream_id : JsString) → SfuError
  publish_failed subscribe_failed : (message : JsString) → SfuError

pub record Tracks : Type 0 where
  pub video : Bool
  pub audio : Bool

pub record Publisher : Type 0 where
  pub pc : ℕ
  pub info : StreamInfo
  pub tracks : Tracks
  pub last_pli_at : ℕ

-- What a subscription holds on to: the forwarding of a track's packets, the forwarding of PLIs.
pub data Disposer : Type 0 where
  forward_video forward_audio forward_pli : Disposer

pub record Subscription : Type 0 where
  pub pc : ℕ
  pub disposers : List Disposer

pub data Output : Type 0 where
  stream_live : StreamInfo → Output
  stream_ended : (stream_id : JsString) → Output
  demand_changed : (stream_id owner_peer_id : JsString) (subscribers : ℕ) → Output
  dispose : (pc : ℕ) → Disposer → Output
  close_pc : (pc : ℕ) → Output
  set_answer : (pc : ℕ) (sdp : JsString) → Output
  request_pli : (pc : ℕ) → Output

pub record Router : Type 0 where
  pub publishers : Dictionary JsString Publisher
  pub subscriptions : Dictionary JsString Subscription
  pub closed : Bool

abbrev pub new : Router
new = record { publishers = []; subscriptions = []; closed = false }

-- `::${streamId}`
abbrev pub stream_suffix : JsString → JsString
stream_suffix stream_id = b':' ∷ b':' ∷ stream_id

unfoldable pub sub_key : JsString → JsString → JsString
sub_key peer_id stream_id = peer_id ++ stream_suffix stream_id

abbrev pub count_ending : JsString → Dictionary JsString Subscription → ℕ
count_ending suffix [] = 0
count_ending suffix ((key, sub) ∷ subs) =
    if ends_with suffix key then suc (count_ending suffix subs) else count_ending suffix subs

unfoldable pub subscriber_count : JsString → Router → ℕ
subscriber_count stream_id r = count_ending (stream_suffix stream_id) r.subscriptions

-- `#emitDemand`
abbrev pub demand : JsString → JsString → Router → List Output
demand stream_id owner_peer_id r =
    demand_changed stream_id owner_peer_id (subscriber_count stream_id r) ∷ []

abbrev pub disposals : ℕ → List Disposer → List Output
disposals pc [] = []
disposals pc (d ∷ ds) = dispose pc d ∷ disposals pc ds

-- What `#dropSubscription` does besides the deletion.
abbrev pub dropped : Subscription → List Output
dropped sub = disposals sub.pc sub.disposers ++ (close_pc sub.pc ∷ [])

-- A loop over the subscriptions that drops those whose key passes a test.
unfoldable pub drop_where :
    (JsString → Bool)
    → Dictionary JsString Subscription
    → Dictionary JsString Subscription × List Output
drop_where test [] = ([], [])
drop_where test ((key, sub) ∷ subs) =
    if test key
    then ((drop_where test subs).0, dropped sub ++ (drop_where test subs).1)
    else ((key, sub) ∷ (drop_where test subs).0, (drop_where test subs).1)

-- `publish`, before it awaits the negotiation.
unfoldable pub publish_begin : JsString → Router → Result SfuError (Unit {0})
publish_begin stream_id r =
    if r.closed
    then err sfu_closed
    else if has stream_id r.publishers
    then err (already_published stream_id)
    else ok tt

-- `mustSdp`
abbrev pub must_sdp : Option JsString → Result SfuError JsString
must_sdp none = err no_description
must_sdp (some sdp) = ok sdp

-- `publish`, after the negotiation: it failed with a message, or there may be a local description.
unfoldable pub publish_end :
    StreamInfo
    → ℕ
    → Tracks
    → Result JsString (Option JsString)
    → Router
    → Router × List Output × Result SfuError JsString
publish_end info pc tracks (err message) r = (r, close_pc pc ∷ [], err (publish_failed message))
publish_end info pc tracks (ok sdp) r = (
  record r {
    publishers =
        set info.stream_id (record { pc = pc; info = info; tracks = tracks; last_pli_at = 0 })
          r.publishers;
  },
  stream_live info ∷ [],
  must_sdp sdp,
)

abbrev pub unpublish_found : JsString → Router → Option Publisher → Router × List Output
unpublish_found stream_id r none = (r, [])
unpublish_found stream_id r (some publisher) =
    let (kept, outputs) = drop_where (ends_with (stream_suffix stream_id)) r.subscriptions in
    (
      record r { publishers = delete stream_id r.publishers; subscriptions = kept },
      outputs ++ (close_pc publisher.pc ∷ stream_ended stream_id ∷ []),
    )

unfoldable pub unpublish : JsString → Router → Router × List Output
unfolding drop_where
unpublish stream_id r = unpublish_found stream_id r (get stream_id r.publishers)

-- The states of a werift peer connection.
pub data ConnectionState : Type 0 where
  pc_new pc_connecting pc_connected pc_disconnected pc_failed pc_closed : ConnectionState

-- `state === 'failed' || state === 'closed' || state === 'disconnected'`
abbrev pub is_down : ConnectionState → Bool
is_down pc_new = false
is_down pc_connecting = false
is_down pc_connected = false
is_down pc_disconnected = true
is_down pc_failed = true
is_down pc_closed = true

-- What `publish` subscribes to the connection state of the peer connection `pc`: the callback knows
-- its stream id, and does not look at `pc`.
unfoldable pub on_publisher_state :
    (pc : ℕ) → JsString → ConnectionState → Router → Router × List Output
unfolding unpublish
on_publisher_state pc stream_id state r = if is_down state then unpublish stream_id r else (r, [])

-- The loop over the kinds of `subscribe`.
abbrev pub forwarders : Tracks → List Disposer
forwarders tracks =
    (if tracks.video then forward_video ∷ [] else [])
    ++ (if tracks.audio then forward_audio ∷ [] else [])

abbrev pub subscribe_found :
    JsString → JsString → ℕ → Router → Option Publisher → Result SfuError Publisher × List Output
subscribe_found subscriber stream_id pc r none = (err (no_such_stream stream_id), [])
subscribe_found subscriber stream_id pc r (some publisher) =
    if has (sub_key subscriber stream_id) r.subscriptions
    then (err already_subscribed, [])
    else if length (forwarders publisher.tracks) == 0
    then (err no_forwardable_tracks, close_pc pc ∷ [])
    else (ok publisher, [])

-- `subscribe`, before it awaits the offer.
unfoldable pub subscribe_begin :
    JsString → JsString → ℕ → Router → Result SfuError Publisher × List Output
subscribe_begin subscriber stream_id pc r =
    if r.closed
    then (err sfu_closed, [])
    else subscribe_found subscriber stream_id pc r (get stream_id r.publishers)

-- `subscribe`, after the offer; `publisher` is what it read before, as it was then.
unfoldable pub subscribe_end :
    JsString
    → JsString
    → ℕ
    → Publisher
    → Result JsString (Option JsString)
    → Router
    → Router × List Output × Result SfuError JsString
subscribe_end subscriber stream_id pc publisher (err message) r =
    (r, close_pc pc ∷ disposals pc (forwarders publisher.tracks), err (subscribe_failed message))
subscribe_end subscriber stream_id pc publisher (ok sdp) r =
    let r' = record r {
      subscriptions =
          set (sub_key subscriber stream_id)
            (record {
              pc = pc;
              disposers =
                  forwarders publisher.tracks
                  ++ (if publisher.tracks.video then forward_pli ∷ [] else []);
            })
            r.subscriptions;
    } in
    (r', demand stream_id publisher.info.owner_peer_id r', must_sdp sdp)

-- `#requestKeyframe`, on the publisher that a subscription captured.
unfoldable pub request_keyframe : ℕ → Publisher → Publisher × List Output
request_keyframe now publisher =
    if not publisher.tracks.video
    then (publisher, [])
    else if ltb now (publisher.last_pli_at + pli_min_interval_ms)
    then (publisher, [])
    else (record publisher { last_pli_at = now }, request_pli publisher.pc ∷ [])

abbrev pub complete_found :
    JsString → Option Subscription → Result SfuError (Unit {0}) × List Output
complete_found answer_sdp none = (err no_pending_subscription, [])
complete_found answer_sdp (some sub) = (ok tt, set_answer sub.pc answer_sdp ∷ [])

-- `completeSubscribe`, up to its await.
unfoldable pub complete_subscribe :
    JsString → JsString → JsString → Router → Result SfuError (Unit {0}) × List Output
complete_subscribe subscriber stream_id answer_sdp r =
    complete_found answer_sdp (get (sub_key subscriber stream_id) r.subscriptions)

abbrev pub demand_of : JsString → Router → Option Publisher → List Output
demand_of stream_id r none = []
demand_of stream_id r (some publisher) = demand stream_id publisher.info.owner_peer_id r

abbrev pub unsubscribe_found :
    JsString → JsString → Router → Option Subscription → Router × List Output
unsubscribe_found key stream_id r none = (r, [])
unsubscribe_found key stream_id r (some sub) =
    let r' = record r { subscriptions = delete key r.subscriptions } in
    (r', dropped sub ++ demand_of stream_id r' (get stream_id r'.publishers))

unfoldable pub unsubscribe : JsString → JsString → Router → Router × List Output
unsubscribe subscriber stream_id r =
    unsubscribe_found (sub_key subscriber stream_id) stream_id r
      (get (sub_key subscriber stream_id) r.subscriptions)

abbrev pub is_connected : ConnectionState → Bool
is_connected pc_connected = true
is_connected pc_new = false
is_connected pc_connecting = false
is_connected pc_disconnected = false
is_connected pc_failed = false
is_connected pc_closed = false

-- What `subscribe` subscribes to the connection state; `publisher` is the object that it captured, and
-- is given back as it is then.
unfoldable pub on_subscription_state :
    ℕ
    → JsString
    → JsString
    → Publisher
    → ConnectionState
    → Router
    → Router × Publisher × List Output
unfolding request_keyframe unsubscribe
on_subscription_state now subscriber stream_id publisher state r =
    if is_connected state
    then (r, (request_keyframe now publisher).0, (request_keyframe now publisher).1)
    else if is_down state
    then ((unsubscribe subscriber stream_id r).0, publisher, (unsubscribe subscriber stream_id r).1)
    else (r, publisher, [])

-- The first loop of `removePeer`, over the publishers there were when it began.
unfoldable pub unpublish_owned :
    JsString → Dictionary JsString Publisher → Router → Router × List Output
unpublish_owned peer_id [] r = (r, [])
unpublish_owned peer_id ((stream_id, publisher) ∷ rest) r =
    if str_eq publisher.info.owner_peer_id peer_id
    then (
      (unpublish_owned peer_id rest (unpublish stream_id r).0).0,
      (unpublish stream_id r).1 ++ (unpublish_owned peer_id rest (unpublish stream_id r).0).1,
    )
    else unpublish_owned peer_id rest r

-- `${peerId}::`
abbrev pub peer_prefix : JsString → JsString
peer_prefix peer_id = peer_id ++ (b':' ∷ b':' ∷ [])

-- The set `touched`, in the order in which its elements were added.
abbrev pub touched : JsString → Dictionary JsString Subscription → List JsString → List JsString
touched peer_id [] seen = seen
touched peer_id ((key, sub) ∷ subs) seen =
    let stream_id = drop (length peer_id + 2) key in
    if starts_with (peer_prefix peer_id) key
    then touched peer_id subs
        (if any (str_eq stream_id) seen then seen else seen ++ (stream_id ∷ []))
    else touched peer_id subs seen

abbrev pub demands : List JsString → Router → List Output
demands [] r = []
demands (stream_id ∷ rest) r = demand_of stream_id r (get stream_id r.publishers) ++ demands rest r

unfoldable pub remove_peer : JsString → Router → Router × List Output
unfolding unpublish_owned drop_where
remove_peer peer_id r =
    let (r₁, ended) = unpublish_owned peer_id r.publishers r in
    let (kept, outputs) = drop_where (starts_with (peer_prefix peer_id)) r₁.subscriptions in
    let r₂ = record r₁ { subscriptions = kept } in
    (r₂, ended ++ (outputs ++ demands (touched peer_id r₁.subscriptions []) r₂))

unfoldable pub list_streams : Router → List StreamInfo
list_streams r = map (λ publisher. publisher.info) (values r.publishers)

abbrev pub closings : List Publisher → List Output
closings [] = []
closings (publisher ∷ rest) = close_pc publisher.pc ∷ closings rest

unfoldable pub close : Router → Router × List Output
unfolding drop_where
close r =
    let (kept, outputs) = drop_where (λ key. true) r.subscriptions in
    (
      record { publishers = []; subscriptions = kept; closed = true },
      outputs ++ closings (values r.publishers),
    )
