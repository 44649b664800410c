-- ===== src/Sfu/Router/Removal.antt =====
-- What is left when a stream ends or a peer leaves.
use screen_sharing.Prelude.{
  ℕ, ◌≡◌, ◌≢◌, ◌↔◌, refl, sym, ap, ◌∙◌, Bool, true, false, Option, none, some, [], ◌∷◌, ◌++◌,
  if◌then◌else◌, arith, Option-cases, inl, inr, beq_ne, ok,
}
use mathlib.Core.List.{append_assoc}
use screen_sharing.Prelude.Dictionary.{
  Dictionary, get, IsUnique, get-delete, get-delete_self, delete-set_new, get-set_self,
}
use screen_sharing.Prelude.Text.{JsString, str_eq, str_eq_iff, js_string_eq}
use screen_sharing.Prelude.Affix.{
  starts_with, ends_with, has_colon, starts_with-append, ends_with-append, ends_with→append,
  colons_part,
}
use screen_sharing.Sfu.Router.{
  Router, Publisher, Subscription, drop_where, count_ending, subscriber_count, stream_suffix,
  peer_prefix, sub_key, unpublish, unpublish_owned, unsubscribe, subscribe_end, remove_peer,
}

get-drop_where :
    (test : JsString → Bool) (m : Dictionary JsString Subscription) (key : JsString)
    → get key (drop_where test m).0 ≡ (if test key then none else get key m)
unfolding get drop_where
get-drop_where test [] key = ground arith
get-drop_where test ((j, sub) ∷ m) key =
    ground (arith, str_eq_iff j key, get-drop_where test m key, ap test)

count-drop_where :
    (suffix : JsString) (m : Dictionary JsString Subscription)
    → count_ending suffix (drop_where (ends_with suffix) m).0 ≡ 0
unfolding drop_where
count-drop_where suffix [] = refl
count-drop_where suffix ((j, sub) ∷ m) = ground (arith, count-drop_where suffix m)

-- When a published stream ends, nobody publishes or subscribes to it any more: its publisher is gone, and so
-- is every subscription whose key ends with it, of which it then counts none. The other publishers and
-- subscriptions stay.
pub unpublish_lem :
    (stream_id : JsString) (r : Router) (publisher : Publisher)
    → get stream_id r.publishers ≡ some publisher
    → let r' = (unpublish stream_id r).0 in
      (get stream_id r'.publishers ≡ none)
      × (subscriber_count stream_id r' ≡ 0)
      × ((other : JsString) → other ≢ stream_id → get other r'.publishers ≡ get other r.publishers)
      × ((key : JsString)
          → get key r'.subscriptions
            ≡ (if ends_with (stream_suffix stream_id) key then none else get key r.subscriptions))
unfolding unpublish subscriber_count
unpublish_lem stream_id r publisher there = rw there (
  get-delete_self stream_id r.publishers,
  count-drop_where (stream_suffix stream_id) r.subscriptions,
  λ other d. rw (
    get-delete stream_id other r.publishers,
    beq_ne {A = JsString} stream_id other (λ e. d (sym e)),
  ),
  get-drop_where (ends_with (stream_suffix stream_id)) r.subscriptions,
)

-- The publisher of a stream, unless a peer owns it.
abbrev pub not_owned : JsString → Option Publisher → Option Publisher
not_owned peer_id none = none
not_owned peer_id (some publisher) =
    if str_eq publisher.info.owner_peer_id peer_id then none else some publisher

pub unpublish_publishers :
    (stream_id other : JsString) (r : Router)
    → get other (unpublish stream_id r).0.publishers
      ≡ (if str_eq stream_id other then none else get other r.publishers)
unfolding unpublish
unpublish_publishers stream_id other r = elim (Option-cases (get stream_id r.publishers)) [
  | inl e ↦ rw e (ground (arith, e, str_eq_iff stream_id other))
  | inr (p, e) ↦ rw e (get-delete stream_id other r.publishers)
]

abbrev owns : JsString → Option Publisher → Bool
owns peer_id none = false
owns peer_id (some publisher) = str_eq publisher.info.owner_peer_id peer_id

unpublish_owned_publishers :
    (peer_id other : JsString) (rest : Dictionary JsString Publisher) (r : Router)
    → IsUnique rest
    → get other (unpublish_owned peer_id rest r).0.publishers
      ≡ (if owns peer_id (get other rest) then none else get other r.publishers)
unfolding unpublish_owned get
unpublish_owned_publishers peer_id other [] r u = refl
unpublish_owned_publishers peer_id other ((j, p) ∷ rest) r (new, u) = ground (
  arith,
  str_eq_iff j other,
  unpublish_publishers j other r,
  unpublish_owned_publishers peer_id other rest (unpublish j r).0 u,
  unpublish_owned_publishers peer_id other rest r u,
  new,
)

or_not_owned :
    (peer_id : JsString) (o : Option Publisher)
    → (if owns peer_id o then none else o) ≡ not_owned peer_id o
or_not_owned peer_id none = refl
or_not_owned peer_id (some p) = refl

-- When a peer is removed, every stream that it owned has ended and all others are published as before, and
-- it holds no subscription, to whatever stream.
pub remove_peer_lem :
    (peer_id : JsString) (r : Router)
    → IsUnique r.publishers
    → let r' = (remove_peer peer_id r).0 in
      ((stream_id : JsString)
        → get stream_id r'.publishers ≡ not_owned peer_id (get stream_id r.publishers))
      × ((stream_id : JsString) → get (sub_key peer_id stream_id) r'.subscriptions ≡ none)
unfolding remove_peer sub_key
remove_peer_lem peer_id r u = (
  λ stream_id.
      unpublish_owned_publishers peer_id stream_id r.publishers r u
      ∙ or_not_owned peer_id (get stream_id r.publishers),
  λ stream_id.
      let key = peer_id ++ stream_suffix stream_id in
      let starts : starts_with (peer_prefix peer_id) key ≡ true =
        ap (starts_with (peer_prefix peer_id))
          (sym (append_assoc peer_id (b':' ∷ b':' ∷ []) stream_id))
        ∙ starts_with-append (peer_prefix peer_id) stream_id in
      get-drop_where (starts_with (peer_prefix peer_id))
        (unpublish_owned peer_id r.publishers r).0.subscriptions key
      ∙ ap
          (λ b.
            if b then none else get key (unpublish_owned peer_id r.publishers r).0.subscriptions)
          starts,
)

-- The test that finds a stream's subscriptions by the end of their keys is exact for stream ids without a
-- colon. It also takes in the subscriptions of every stream whose id ends with two colons and this id.
pub ends_with-sub_key :
    (peer_id stream_id other : JsString)
    → (has_colon stream_id ≡ false
        → has_colon other ≡ false
        → (ends_with (stream_suffix stream_id) (sub_key peer_id other) ≡ true)
          ↔ (other ≡ stream_id))
      × (ends_with (stream_suffix stream_id) (sub_key peer_id (other ++ stream_suffix stream_id))
          ≡ true)
unfolding sub_key
ends_with-sub_key peer_id stream_id other = (
  λ hs ho. (
    λ h.
        let (a, e) =
          ends_with→append (stream_suffix stream_id) (peer_id ++ stream_suffix other) h in
        colons_part peer_id other a stream_id ho hs e,
    λ e.
        ap (λ s. ends_with (stream_suffix stream_id) (peer_id ++ stream_suffix s)) e
        ∙ ends_with-append peer_id (stream_suffix stream_id),
  ),
  ap (ends_with (stream_suffix stream_id))
        (sym (append_assoc peer_id (b':' ∷ b':' ∷ other) (stream_suffix stream_id)))
      ∙ ends_with-append (peer_id ++ (b':' ∷ b':' ∷ other)) (stream_suffix stream_id),
)

-- A subscription that was not there before, once its offer has been made, and its end leave the router as
-- it was.
pub unsubscribe-subscribe_end :
    (subscriber stream_id : JsString) (pc : ℕ) (publisher : Publisher) (sdp : Option JsString)
    (r : Router)
    → get (sub_key subscriber stream_id) r.subscriptions ≡ none
    → (unsubscribe subscriber stream_id
        (subscribe_end subscriber stream_id pc publisher (ok sdp) r).0).0
      ≡ r
unfolding unsubscribe subscribe_end
unsubscribe-subscribe_end subscriber stream_id pc publisher sdp r new =
    rw (get-set_self (sub_key subscriber stream_id) _ r.subscriptions) (
      ap (λ m. record r { subscriptions = m })
        (delete-set_new (sub_key subscriber stream_id) _ r.subscriptions new))
