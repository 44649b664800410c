-- ===== src/Sfu/MediaPlane/Governed.antt =====
-- The governor follows the router's events: it governs exactly the streams that are published.
use screen_sharing.Prelude.{
  ℕ, ◌≡◌, refl, sym, ap, ◌∙◌, Bool, true, false, Option, none, some, List, [], ◌∷◌, if◌then◌else◌,
  arith, Result, Option-cases, inl, inr,
}
use screen_sharing.Prelude.Dictionary.{Dictionary, get, has, get-set, get-delete}
use screen_sharing.Prelude.Text.{JsString, str_eq, str_eq_iff, js_string_eq}
use screen_sharing.Protocol.{StreamInfo, Body, SubscriptionStats, PublicationStats}
use screen_sharing.Sfu.Governor
use screen_sharing.Sfu.Governor.{Governor, StreamState}
use screen_sharing.Sfu.Router
use screen_sharing.Sfu.Router.{
  Router, Publisher, Subscription, Tracks, Disposer, stream_live, stream_ended, demand_changed,
  dispose, close_pc, set_answer, request_pli, disposals, dropped, drop_where, demands, demand_of,
  stream_suffix, touched, peer_prefix,
}
use screen_sharing.Sfu.MediaPlane
use screen_sharing.Sfu.MediaPlane.Tracking.{
  live_event, live_after, is_published, Describes, publish_end-Describes, unpublish-Describes,
  remove_peer-Describes, unsubscribe-Describes, subscribe_begin-Describes,
  complete_subscribe-Describes, subscribe_end-Describes,
}
use screen_sharing.Sfu.MediaPlane.{
  MediaPlane, react, react_all, on_peer_gone, handle_message, publish_negotiated,
  subscribe_negotiated, run_governor,
}

abbrev pub is_governed : JsString → Governor → Bool
is_governed id g = has id g.streams

change_found-keeps :
    (stream_id id : JsString) (change : StreamState → StreamState) (g : Governor)
    → is_governed id (Governor.change_found stream_id change (get stream_id g.streams) g)
      ≡ is_governed id g
change_found-keeps stream_id id change g = elim (Option-cases (get stream_id g.streams)) [
  | inl e ↦ rw e refl
  | inr (s, e) ↦
      rw e (ground (arith, get-set stream_id id (change s) g.streams, str_eq_iff stream_id id, e))
]

each_stream-keeps :
    (id : JsString) (change : StreamState → StreamState) (m : Dictionary JsString StreamState)
    → has id (Governor.each_stream change m) ≡ has id m
unfolding get
each_stream-keeps id change [] = refl
each_stream-keeps id change ((j, s) ∷ m) = ground (arith, each_stream-keeps id change m)

evaluate_all-keeps :
    (id : JsString) (g : Governor) (m : Dictionary JsString StreamState)
    → has id (Governor.evaluate_all g m).0 ≡ has id m
unfolding get Governor.evaluate_all
evaluate_all-keeps id g [] = refl
evaluate_all-keeps id g ((j, s) ∷ m) = ground (arith, evaluate_all-keeps id g m)

ingest_subscriptions-keeps :
    (id peer_id : JsString) (subs : List SubscriptionStats) (g : Governor)
    → is_governed id (MediaPlane.ingest_subscriptions peer_id subs g) ≡ is_governed id g
unfolding MediaPlane.ingest_subscriptions Governor.ingest_subscriber
ingest_subscriptions-keeps id peer_id [] g = refl
ingest_subscriptions-keeps id peer_id (sub ∷ subs) g =
    ingest_subscriptions-keeps id peer_id subs _ ∙ change_found-keeps sub.stream_id id _ g

ingest_publications-keeps :
    (id : JsString) (ps : List PublicationStats) (g : Governor)
    → is_governed id (MediaPlane.ingest_publications ps g) ≡ is_governed id g
unfolding MediaPlane.ingest_publications Governor.ingest_publisher
ingest_publications-keeps id [] g = refl
ingest_publications-keeps id (p ∷ ps) g =
    ingest_publications-keeps id ps _ ∙ change_found-keeps p.stream_id id _ g

register-governs :
    (id stream_id owner : JsString) (g : Governor)
    → is_governed id (Governor.register stream_id owner g)
      ≡ (if str_eq stream_id id then true else is_governed id g)
unfolding Governor.register
register-governs id stream_id owner g =
    ground
      (arith, get-set stream_id id (Governor.new_stream owner) g.streams, str_eq_iff stream_id id)

-- The governor does with an event what the event says.
react-governs :
    (id : JsString) (o : Router.Output) (g : Governor)
    → is_governed id (react o g).0 ≡ live_event id (is_governed id g) o
unfolding react Governor.forget Governor.set_paused
react-governs id (stream_live info) g = register-governs id info.stream_id info.owner_peer_id g
react-governs id (stream_ended stream_id) g = ground (arith, get-delete stream_id id g.streams)
react-governs id (demand_changed stream_id owner subscribers) g = ground (
  arith,
  change_found-keeps stream_id id (λ s. record s { paused = true }) g,
  change_found-keeps stream_id id (λ s. record s { paused = false }) g,
)
react-governs id (dispose pc d) g = refl
react-governs id (close_pc pc) g = refl
react-governs id (set_answer pc sdp) g = refl
react-governs id (request_pli pc) g = refl

react_all-governs :
    (id : JsString) (os : List Router.Output) (g : Governor)
    → is_governed id (react_all os g).0 ≡ live_after id (is_governed id g) os
unfolding react_all
react_all-governs id [] g = refl
react_all-governs id (o ∷ os) g =
    react_all-governs id os (react o g).0 ∙ ap (λ b. live_after id b os) (react-governs id o g)

-- The governor has a state for a stream exactly when the stream is published.
abbrev pub IsTracking : MediaPlane → Type 0
IsTracking m = (id : JsString) → is_governed id m.governor ≡ is_published id m.router

reacted-IsTracking :
    (g : Governor) (r : Router) (call : Router × List Router.Output)
    → Describes r call
    → ((id : JsString) → is_governed id g ≡ is_published id r)
    → IsTracking (MediaPlane.reacted g call).0
reacted-IsTracking g r (r', events) d h id =
    react_all-governs id events g ∙ ap (λ b. live_after id b events) (h id) ∙ sym (d id)

-- What can happen to a media plane before it is closed: messages, the ends of their negotiations, peer
-- connections that go down, peers that leave, and the governor's timer.
pub data Event : Type 0 where
  receives : (peer_id : JsString) (pc : ℕ) → Body → Event
  published : StreamInfo → (pc : ℕ) → Tracks → Result JsString (Option JsString) → Event
  subscribed :
      (peer_id stream_id : JsString) (pc : ℕ)
      → Publisher
      → Result JsString (Option JsString)
      → Event
  publisher_down : (stream_id : JsString) → Event
  subscription_down : (peer_id stream_id : JsString) → Event
  leaves : (peer_id : JsString) → Event
  evaluates : Event

unfoldable pub step : MediaPlane → Event → MediaPlane
step m (receives peer_id pc body) = (handle_message peer_id pc body m).0
step m (published info pc tracks negotiation) = (publish_negotiated info pc tracks negotiation m).0
step m (subscribed peer_id stream_id pc publisher negotiation) =
    (subscribe_negotiated peer_id stream_id pc publisher negotiation m).0
step m (publisher_down stream_id) =
    (MediaPlane.reacted m.governor (Router.unpublish stream_id m.router)).0
step m (subscription_down peer_id stream_id) =
    (MediaPlane.reacted m.governor (Router.unsubscribe peer_id stream_id m.router)).0
step m (leaves peer_id) = (on_peer_gone peer_id m).0
step m evaluates = (run_governor m).0

unfoldable pub run : MediaPlane → List Event → MediaPlane
run m [] = m
run m (e ∷ es) = run (step m e) es

handle_message-IsTracking :
    (peer_id : JsString) (pc : ℕ) (body : Body) (m : MediaPlane)
    → IsTracking m
    → IsTracking (handle_message peer_id pc body m).0
unfolding handle_message
handle_message-IsTracking peer_id pc (Body.unpublish stream_id) m h =
    reacted-IsTracking m.governor m.router (Router.unpublish stream_id m.router)
      (unpublish-Describes stream_id m.router) h
handle_message-IsTracking peer_id pc (Body.subscribe stream_id) m h =
    reacted-IsTracking m.governor m.router
      (m.router, (Router.subscribe_begin peer_id stream_id pc m.router).1)
      (subscribe_begin-Describes peer_id stream_id pc m.router) h
handle_message-IsTracking peer_id pc (Body.subscribe_answer stream_id sdp) m h =
    reacted-IsTracking m.governor m.router
      (m.router, (Router.complete_subscribe peer_id stream_id sdp m.router).1)
      (complete_subscribe-Describes peer_id stream_id sdp m.router) h
handle_message-IsTracking peer_id pc (Body.unsubscribe stream_id) m h =
    reacted-IsTracking m.governor m.router (Router.unsubscribe peer_id stream_id m.router)
      (unsubscribe-Describes peer_id stream_id m.router) h
handle_message-IsTracking peer_id pc (Body.stats_report subs pubs) m h = λ id.
    ingest_publications-keeps id pubs _
    ∙ ingest_subscriptions-keeps id peer_id subs m.governor
    ∙ h id
handle_message-IsTracking peer_id pc (Body.publish_offer stream_id video audio sdp) m h = h
handle_message-IsTracking peer_id pc (Body.join nickname client_caps) m h = h
handle_message-IsTracking peer_id pc (Body.joined j) m h = h
handle_message-IsTracking peer_id pc (Body.host_transfer successor epoch) m h = h
handle_message-IsTracking peer_id pc (Body.roster_update added removed changed) m h = h
handle_message-IsTracking peer_id pc (Body.rejected reason) m h = h
handle_message-IsTracking peer_id pc (Body.ping nonce sent_at) m h = h
handle_message-IsTracking peer_id pc (Body.pong nonce sent_at) m h = h
handle_message-IsTracking peer_id pc (Body.bye reason) m h = h
handle_message-IsTracking peer_id pc (Body.publish_answer stream_id sdp) m h = h
handle_message-IsTracking peer_id pc (Body.subscribe_offer stream_id sdp) m h = h
handle_message-IsTracking peer_id pc (Body.stream_state stream state) m h = h
handle_message-IsTracking peer_id pc (Body.media_error stream_id reason) m h = h
handle_message-IsTracking peer_id pc (Body.quality_directive d) m h = h

step-IsTracking : (m : MediaPlane) (e : Event) → IsTracking m → IsTracking (step m e)
unfolding step publish_negotiated subscribe_negotiated on_peer_gone run_governor
    Governor.drop_subscriber Governor.evaluate
step-IsTracking m (receives peer_id pc body) h = handle_message-IsTracking peer_id pc body m h
step-IsTracking m (published info pc tracks negotiation) h =
    reacted-IsTracking m.governor m.router
      (
        (Router.publish_end info pc tracks negotiation m.router).0,
        (Router.publish_end info pc tracks negotiation m.router).1,
      )
      (publish_end-Describes info pc tracks negotiation m.router) h
step-IsTracking m (subscribed peer_id stream_id pc publisher negotiation) h =
    reacted-IsTracking m.governor m.router
      (
        (Router.subscribe_end peer_id stream_id pc publisher negotiation m.router).0,
        (Router.subscribe_end peer_id stream_id pc publisher negotiation m.router).1,
      )
      (subscribe_end-Describes peer_id stream_id pc publisher negotiation m.router) h
step-IsTracking m (publisher_down stream_id) h =
    reacted-IsTracking m.governor m.router (Router.unpublish stream_id m.router)
      (unpublish-Describes stream_id m.router) h
step-IsTracking m (subscription_down peer_id stream_id) h =
    reacted-IsTracking m.governor m.router (Router.unsubscribe peer_id stream_id m.router)
      (unsubscribe-Describes peer_id stream_id m.router) h
step-IsTracking m (leaves peer_id) h =
    reacted-IsTracking (Governor.drop_subscriber peer_id m.governor) m.router
      (Router.remove_peer peer_id m.router) (remove_peer-Describes peer_id m.router)
      (λ id. each_stream-keeps id _ m.governor.streams ∙ h id)
step-IsTracking m evaluates h = λ id. evaluate_all-keeps id m.governor m.governor.streams ∙ h id

run_from-IsTracking : (m : MediaPlane) (es : List Event) → IsTracking m → IsTracking (run m es)
unfolding run
run_from-IsTracking m [] h = h
run_from-IsTracking m (e ∷ es) h = run_from-IsTracking (step m e) es (step-IsTracking m e h)

-- Whatever happens to a media plane before it is closed, in whatever order, also between the two halves of
-- a negotiation: the governor governs exactly the streams that the router publishes.
pub run-IsTracking : (kbps : Option ℕ) (es : List Event) → IsTracking (run (MediaPlane.new kbps) es)
unfolding MediaPlane.new get
run-IsTracking none es = run_from-IsTracking (MediaPlane.new none) es (λ id. refl)
run-IsTracking (some kbps) es = run_from-IsTracking (MediaPlane.new (some kbps)) es (λ id. refl)
