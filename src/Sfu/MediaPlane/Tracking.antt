-- ===== src/Sfu/MediaPlane/Tracking.antt =====
-- The router's events say which streams are published, and the governor follows them.
use screen_sharing.Prelude.{
  ℕ, ◌≡◌, refl, sym, ap, ◌∙◌, Bool, true, false, Option, none, some, List, [], ◌∷◌, ◌++◌,
  if◌then◌else◌, arith, Result, ok, err, Option-cases, inl, inr,
}
use screen_sharing.Prelude.Dictionary.{Dictionary, get, has, get-set, get-delete}
use screen_sharing.Prelude.Text.{JsString, str_eq, js_string_eq}
use screen_sharing.Prelude.Affix.{starts_with, ends_with}
use screen_sharing.Protocol.{StreamInfo}
use screen_sharing.Sfu.Router
use screen_sharing.Sfu.Router.{
  Router, Publisher, Subscription, Tracks, Disposer, stream_live, stream_ended, demand_changed,
  dispose, close_pc, set_answer, request_pli, disposals, dropped, drop_where, demands, demand_of,
  stream_suffix, touched, peer_prefix,
}

-- Whether a stream is published after events, if it was or was not before.
abbrev pub live_event : JsString → Bool → Router.Output → Bool
live_event id live (stream_live info) = if str_eq info.stream_id id then true else live
live_event id live (stream_ended stream_id) = if str_eq stream_id id then false else live
live_event id live (demand_changed stream_id owner_peer_id subscribers) = live
live_event id live (dispose pc d) = live
live_event id live (close_pc pc) = live
live_event id live (set_answer pc sdp) = live
live_event id live (request_pli pc) = live

abbrev pub live_after : JsString → Bool → List Router.Output → Bool
live_after id live [] = live
live_after id live (o ∷ os) = live_after id (live_event id live o) os

live_after-append :
    (id : JsString) (live : Bool) (xs ys : List Router.Output)
    → live_after id live (xs ++ ys) ≡ live_after id (live_after id live xs) ys
live_after-append id live [] ys = refl
live_after-append id live (x ∷ xs) ys = live_after-append id (live_event id live x) xs ys

live_after-disposals :
    (id : JsString) (live : Bool) (pc : ℕ) (ds : List Disposer)
    → live_after id live (disposals pc ds) ≡ live
live_after-disposals id live pc [] = refl
live_after-disposals id live pc (d ∷ ds) = live_after-disposals id live pc ds

live_after-dropped :
    (id : JsString) (live : Bool) (sub : Subscription) → live_after id live (dropped sub) ≡ live
live_after-dropped id live sub =
    live_after-append id live (disposals sub.pc sub.disposers) (close_pc sub.pc ∷ [])
    ∙ live_after-disposals id live sub.pc sub.disposers

live_after-drop_where :
    (id : JsString) (live : Bool) (test : JsString → Bool) (m : Dictionary JsString Subscription)
    → live_after id live (drop_where test m).1 ≡ live
unfolding drop_where
live_after-drop_where id live test [] = refl
live_after-drop_where id live test ((key, sub) ∷ m) = ground (
  arith,
  live_after-append id live (dropped sub) (drop_where test m).1,
  live_after-dropped id live sub,
  live_after-drop_where id live test m,
)

live_after-demand_of :
    (id stream_id : JsString) (live : Bool) (r : Router) (o : Option Publisher)
    → live_after id live (demand_of stream_id r o) ≡ live
live_after-demand_of id stream_id live r none = refl
live_after-demand_of id stream_id live r (some p) = refl

live_after-demands :
    (id : JsString) (live : Bool) (ids : List JsString) (r : Router)
    → live_after id live (demands ids r) ≡ live
live_after-demands id live [] r = refl
live_after-demands id live (s ∷ ss) r =
    live_after-append id live (demand_of s r (get s r.publishers)) (demands ss r)
    ∙ ap (λ b. live_after id b (demands ss r))
        (live_after-demand_of id s live r (get s r.publishers))
    ∙ live_after-demands id live ss r

abbrev pub is_published : JsString → Router → Bool
is_published id r = has id r.publishers

-- A call of the router whose events describe what it does to its streams.
abbrev pub Describes : Router → Router × List Router.Output → Type 0
Describes r (r', events) =
    (id : JsString) → is_published id r' ≡ live_after id (is_published id r) events

pub publish_end-Describes :
    (info : StreamInfo) (pc : ℕ) (tracks : Tracks) (negotiation : Result JsString (Option JsString))
    (r : Router)
    → let (r', events, result) = Router.publish_end info pc tracks negotiation r in
      Describes r (r', events)
unfolding Router.publish_end
publish_end-Describes info pc tracks (err message) r id = refl
publish_end-Describes info pc tracks (ok sdp) r id =
    rw
      (get-set info.stream_id id (record { pc = pc; info = info; tracks = tracks; last_pli_at = 0 })
        r.publishers)
      (ground arith)

pub unpublish-Describes :
    (stream_id : JsString) (r : Router) → Describes r (Router.unpublish stream_id r)
unfolding Router.unpublish
unpublish-Describes stream_id r id = elim (Option-cases (get stream_id r.publishers)) [
  | inl e ↦ rw e refl
  | inr (p, e) ↦ rw e (
      ground (
        arith,
        get-delete stream_id id r.publishers,
        live_after-append id (is_published id r)
            (drop_where (ends_with (stream_suffix stream_id)) r.subscriptions).1
            (close_pc p.pc ∷ stream_ended stream_id ∷ []),
        live_after-drop_where id (is_published id r) (ends_with (stream_suffix stream_id))
            r.subscriptions,
      ))
]

unpublish_owned-Describes :
    (peer_id : JsString) (rest : Dictionary JsString Publisher) (r : Router)
    → Describes r (Router.unpublish_owned peer_id rest r)
unfolding Router.unpublish_owned
unpublish_owned-Describes peer_id [] r id = refl
unpublish_owned-Describes peer_id ((j, p) ∷ rest) r id = ground (
  arith,
  unpublish-Describes j r id,
  unpublish_owned-Describes peer_id rest (Router.unpublish j r).0 id,
  unpublish_owned-Describes peer_id rest r id,
  live_after-append id (is_published id r) (Router.unpublish j r).1
      (Router.unpublish_owned peer_id rest (Router.unpublish j r).0).1,
)

pub remove_peer-Describes :
    (peer_id : JsString) (r : Router) → Describes r (Router.remove_peer peer_id r)
unfolding Router.remove_peer
remove_peer-Describes peer_id r id =
    let r₁ = (Router.unpublish_owned peer_id r.publishers r).0 in
    let ended = (Router.unpublish_owned peer_id r.publishers r).1 in
    let outputs = (drop_where (starts_with (peer_prefix peer_id)) r₁.subscriptions).1 in
    let kept = (drop_where (starts_with (peer_prefix peer_id)) r₁.subscriptions).0 in
    let told = demands (touched peer_id r₁.subscriptions []) (record r₁ { subscriptions = kept }) in
    unpublish_owned-Describes peer_id r.publishers r id
    ∙ sym (
        live_after-append id (is_published id r) ended (outputs ++ told)
        ∙ live_after-append id (live_after id (is_published id r) ended) outputs told
        ∙ live_after-demands id _ (touched peer_id r₁.subscriptions [])
            (record r₁ { subscriptions = kept })
        ∙ live_after-drop_where id _ (starts_with (peer_prefix peer_id)) r₁.subscriptions)

pub unsubscribe-Describes :
    (peer_id stream_id : JsString) (r : Router)
    → Describes r (Router.unsubscribe peer_id stream_id r)
unfolding Router.unsubscribe
unsubscribe-Describes peer_id stream_id r id =
    elim (Option-cases (get (Router.sub_key peer_id stream_id) r.subscriptions)) [
      | inl e ↦ rw e refl
      | inr (sub, e) ↦ rw e (
          sym (
            live_after-append id (is_published id r) (dropped sub)
              (demand_of stream_id _ (get stream_id r.publishers))
            ∙ live_after-demand_of id stream_id _ _ (get stream_id r.publishers)
            ∙ live_after-dropped id (is_published id r) sub))
    ]

pub subscribe_begin-Describes :
    (peer_id stream_id : JsString) (pc : ℕ) (r : Router)
    → Describes r (r, (Router.subscribe_begin peer_id stream_id pc r).1)
unfolding Router.subscribe_begin
subscribe_begin-Describes peer_id stream_id pc r id = ground arith

pub complete_subscribe-Describes :
    (peer_id stream_id sdp : JsString) (r : Router)
    → Describes r (r, (Router.complete_subscribe peer_id stream_id sdp r).1)
unfolding Router.complete_subscribe
complete_subscribe-Describes peer_id stream_id sdp r id = ground arith

pub subscribe_end-Describes :
    (peer_id stream_id : JsString) (pc : ℕ) (publisher : Publisher)
    (negotiation : Result JsString (Option JsString)) (r : Router)
    → let (r', events, result) =
        Router.subscribe_end peer_id stream_id pc publisher negotiation r in
      Describes r (r', events)
unfolding Router.subscribe_end
subscribe_end-Describes peer_id stream_id pc publisher (err message) r id =
    sym (live_after-disposals id (is_published id r) pc (Router.forwarders publisher.tracks))
subscribe_end-Describes peer_id stream_id pc publisher (ok sdp) r id = refl
