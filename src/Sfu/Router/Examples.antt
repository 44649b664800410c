-- ===== src/Sfu/Router/Examples.antt =====
-- Concrete streams and peers for the theorems on the router.
use screen_sharing.Prelude.{
  ◌≡◌, ◌≢◌, ◌↔◌, refl, true, false, none, some, [], ◌∷◌, ◌++◌, ok, if◌then◌else◌, any,
}
use screen_sharing.Prelude.Dictionary.{get}
use screen_sharing.Prelude.Text.{JsString, units, js_string_eq}
use screen_sharing.Prelude.Affix.{ends_with, has_colon}
use screen_sharing.Protocol.{StreamInfo}
use screen_sharing.Sfu.Router.{
  Router, Publisher, Tracks, forward_video, forward_pli, subscriber_count, stream_suffix, sub_key,
  unpublish, remove_peer, publish_begin, publish_end, stream_live, on_publisher_state, pc_failed,
}
use screen_sharing.Sfu.Router.Removal.{unpublish_lem, remove_peer_lem, ends_with-sub_key, not_owned}
use screen_sharing.Sfu.Router.Overlap.{overlapping_publish, closes, ends}

abbrev both : Tracks
both = record { video = true; audio = true }

abbrev screen : StreamInfo
screen = record { stream_id = units "s1"; owner_peer_id = units "bob"; video = true; audio = true }

abbrev bobs : Publisher
bobs = record { pc = 4; info = screen; tracks = both; last_pli_at = 0 }

-- Bob's screen, with Eve watching.
abbrev watched : Router
watched = record {
  publishers = (units "s1", bobs) ∷ [];
  subscriptions =
      (units "eve::s1", record { pc = 5; disposers = forward_video ∷ forward_pli ∷ [] }) ∷ [];
  closed = false;
}

unpublish_lem_example :
    let r' = (unpublish (units "s1") watched).0 in
    (get (units "s1") r'.publishers ≡ none)
    × (subscriber_count (units "s1") r' ≡ 0)
    × ((other : JsString)
        → other ≢ units "s1"
        → get other r'.publishers ≡ get other watched.publishers)
    × ((key : JsString)
        → get key r'.subscriptions ≡ (
            if ends_with (stream_suffix (units "s1")) key
            then none
            else get key watched.subscriptions))
unfolding get
unpublish_lem_example = unpublish_lem (units "s1") watched bobs refl

remove_peer_lem_example :
    let r' = (remove_peer (units "bob") watched).0 in
    ((stream_id : JsString)
      → get stream_id r'.publishers ≡ not_owned (units "bob") (get stream_id watched.publishers))
    × ((stream_id : JsString) → get (sub_key (units "bob") stream_id) r'.subscriptions ≡ none)
unfolding get
remove_peer_lem_example = remove_peer_lem (units "bob") watched (refl, tt)

ends_with-sub_key_example :
    (has_colon (units "s1") ≡ false
      → has_colon (units "s2") ≡ false
      → (ends_with (stream_suffix (units "s1")) (sub_key (units "eve") (units "s2")) ≡ true)
        ↔ (units "s2" ≡ units "s1"))
    × (ends_with
          (stream_suffix (units "s1"))
          (sub_key (units "eve") (units "s2" ++ stream_suffix (units "s1")))
        ≡ true)
ends_with-sub_key_example = ends_with-sub_key (units "eve") (units "s1") (units "s2")

abbrev idle : Router
idle = record { publishers = []; subscriptions = []; closed = false }

abbrev rival : StreamInfo
rival = record { stream_id = units "s1"; owner_peer_id = units "eve"; video = true; audio = false }

free : publish_begin (units "s1") idle ≡ ok tt
unfolding publish_begin get
free = refl

overlapping_publish_example :
    let (r₁, outputs₁, result₁) = publish_end screen 4 both (ok (some (units "a4"))) idle in
    let (r₂, outputs₂, result₂) = publish_end rival 7 both (ok (some (units "a7"))) r₁ in
    let (r₃, outputs₃) = on_publisher_state 4 (units "s1") pc_failed r₂ in
    (result₁ ≡ ok (units "a4"))
    × (result₂ ≡ ok (units "a7"))
    × (outputs₁ ++ outputs₂ ≡ stream_live screen ∷ stream_live rival ∷ [])
    × (get (units "s1") r₂.publishers
        ≡ some (record { pc = 7; info = rival; tracks = both; last_pli_at = 0 }))
    × (get (units "s1") r₃.publishers ≡ none)
    × (any (closes 7) outputs₃ ≡ true)
    × (any (ends (units "s1")) outputs₃ ≡ true)
overlapping_publish_example =
    overlapping_publish screen rival 4 7 both both (units "a4") (units "a7") pc_failed idle refl
      free refl
