-- ===== src/Sfu/Router/Overlap.antt =====
-- Two publishers that negotiate the same stream id at once.
use screen_sharing.Prelude.{
  ℕ, Bool, true, false, ◌≡◌, refl, Option, none, some, [], ◌∷◌, ◌++◌, ◌∙◌, ok, err, any, any-append,
  subst, arith, ◌||◌, ◌==◌, ==_self,
}
use screen_sharing.Prelude.Dictionary.{get, get-set_self}
use screen_sharing.Prelude.Text.{JsString, js_string_eq, str_eq, str_eq_self}
use screen_sharing.Prelude.Affix.{ends_with}
use screen_sharing.Protocol.{StreamInfo}
use screen_sharing.Sfu.Router.Removal.{unpublish_publishers}
use screen_sharing.Sfu.Router.{
  Router, Publisher, Tracks, Output, ConnectionState, stream_live, stream_ended, demand_changed,
  dispose, close_pc, set_answer, request_pli, publish_begin, publish_end, unpublish, drop_where,
  stream_suffix, is_down, on_publisher_state, already_published,
}

-- Outside of an overlap: a publish is refused, before anything is negotiated, exactly when the router is
-- closed or the stream is published, and after a successful negotiation the stream is published.
pub publish_begin-publish_end :
    (info : StreamInfo) (pc : ℕ) (tracks : Tracks) (sdp : Option JsString) (r : Router)
    → r.closed ≡ false
    → let (r', outputs, result) = publish_end info pc tracks (ok sdp) r in
      (publish_begin info.stream_id r' ≡ err (already_published info.stream_id))
      × (outputs ≡ stream_live info ∷ [])
unfolding publish_begin publish_end
publish_begin-publish_end info pc tracks sdp r running =
    rw (running, get-set_self info.stream_id _ r.publishers) (refl, refl)

-- Whether an output closes the peer connection, and whether it is the end of the stream.
abbrev pub closes : ℕ → Output → Bool
closes pc (close_pc c) = c == pc
closes pc (stream_live info) = false
closes pc (stream_ended id) = false
closes pc (demand_changed id owner n) = false
closes pc (dispose c d) = false
closes pc (set_answer c sdp) = false
closes pc (request_pli c) = false

abbrev pub ends : JsString → Output → Bool
ends stream_id (stream_ended id) = str_eq id stream_id
ends stream_id (stream_live info) = false
ends stream_id (demand_changed id owner n) = false
ends stream_id (dispose c d) = false
ends stream_id (close_pc c) = false
ends stream_id (set_answer c sdp) = false
ends stream_id (request_pli c) = false

or_true : (b : Bool) → (b || true) ≡ true
or_true b = ground arith

-- The end of a published stream closes its publisher's peer connection and says so.
unpublish_tells :
    (stream_id : JsString) (r : Router) (publisher : Publisher)
    → get stream_id r.publishers ≡ some publisher
    → (any (closes publisher.pc) (unpublish stream_id r).1 ≡ true)
      × (any (ends stream_id) (unpublish stream_id r).1 ≡ true)
unfolding unpublish
unpublish_tells stream_id r publisher there =
    let dropped = (drop_where (ends_with (stream_suffix stream_id)) r.subscriptions).1 in
    let last = close_pc publisher.pc ∷ stream_ended stream_id ∷ [] in
    rw there (
      any-append (closes publisher.pc) dropped last ∙ rw (==_self publisher.pc) (or_true _),
      any-append (ends stream_id) dropped last ∙ rw (str_eq_self stream_id) (or_true _),
    )

down_publisher :
    (pc : ℕ) (stream_id : JsString) (state : ConnectionState) (r : Router) (publisher : Publisher)
    → is_down state ≡ true
    → get stream_id r.publishers ≡ some publisher
    → let (r', outputs) = on_publisher_state pc stream_id state r in
      (get stream_id r'.publishers ≡ none)
      × (any (closes publisher.pc) outputs ≡ true)
      × (any (ends stream_id) outputs ≡ true)
unfolding on_publisher_state
down_publisher pc stream_id state r publisher down there = rw down (
  unpublish_publishers stream_id stream_id r ∙ rw (str_eq_self stream_id) refl,
  (unpublish_tells stream_id r publisher there).0,
  (unpublish_tells stream_id r publisher there).1,
)

-- If two publishers of one stream id begin before one of them has ended, both succeed: the one that ends second
-- stands in the map, and no peer connection is closed. When afterwards the peer connection of the one that
-- was replaced fails, closes or disconnects, its callback takes down the stream of the other: its publisher
-- is gone, its peer connection is closed, and the end of the stream is told.
pub overlapping_publish :
    (first second : StreamInfo) (pc pc' : ℕ) (tracks tracks' : Tracks) (sdp sdp' : JsString)
    (state : ConnectionState) (r : Router)
    → second.stream_id ≡ first.stream_id
    → publish_begin first.stream_id r ≡ ok tt
    → is_down state ≡ true
    → let (r₁, outputs₁, result₁) = publish_end first pc tracks (ok (some sdp)) r in
      let (r₂, outputs₂, result₂) = publish_end second pc' tracks' (ok (some sdp')) r₁ in
      let (r₃, outputs₃) = on_publisher_state pc first.stream_id state r₂ in
      (result₁ ≡ ok sdp)
      × (result₂ ≡ ok sdp')
      × (outputs₁ ++ outputs₂ ≡ stream_live first ∷ stream_live second ∷ [])
      × (get second.stream_id r₂.publishers
          ≡ some (record { pc = pc'; info = second; tracks = tracks'; last_pli_at = 0 }))
      × (get second.stream_id r₃.publishers ≡ none)
      × (any (closes pc') outputs₃ ≡ true)
      × (any (ends second.stream_id) outputs₃ ≡ true)
unfolding publish_end
overlapping_publish first second pc pc' tracks tracks' sdp sdp' state r same free down =
    let (gone, closed, ended) =
      subst
        (λ id.
          let (r₃, outputs) = on_publisher_state pc id state r₂ in
          (get second.stream_id r₃.publishers ≡ none)
          × (any (closes pc') outputs ≡ true)
          × (any (ends second.stream_id) outputs ≡ true))
        same (down_publisher pc second.stream_id state r₂ latest down stands) in
    (refl, refl, refl, stands, gone, closed, ended)
  where
    latest : Publisher
    latest = record { pc = pc'; info = second; tracks = tracks'; last_pli_at = 0 }

    r₁ : Router
    r₁ = (publish_end first pc tracks (ok (some sdp)) r).0

    r₂ : Router
    r₂ = (publish_end second pc' tracks' (ok (some sdp')) r₁).0

    stands : get second.stream_id r₂.publishers ≡ some latest
    stands = get-set_self second.stream_id latest r₁.publishers
