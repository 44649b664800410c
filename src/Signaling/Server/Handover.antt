-- ===== src/Signaling/Server/Handover.antt =====
-- The grace time between `transferHost` and the close of the server's source.
use screen_sharing.Prelude.{
  ℕ, ◌+◌, ◌≡◌, refl, sym, ap, ap₂, ◌∙◌, subst, Bool, true, false, Option, none, some, List, [], ◌∷◌,
  ◌++◌, if◌then◌else◌, arith, Bool-cases, Option-cases, inl, inr, All, any, any-append, map, ◌||◌,
  ◌==◌,
}
use screen_sharing.Prelude.Dictionary.{
  some_eq, Dictionary, get, values, Entries, Entries-set, Entries-get,
}
use screen_sharing.Prelude.Text.{JsString, str_eq, js_string_eq}
use screen_sharing.Protocol.{Body, host_transfer, ping, pong}
use screen_sharing.Election.Succession.{designated_heir, election_entries_from_roster}
use screen_sharing.Signaling.Heartbeat
use screen_sharing.Signaling.Heartbeat.{Heartbeat}
use screen_sharing.Signaling.Roster
use screen_sharing.Signaling.Server
use screen_sharing.Signaling.Server.{
  Server, PeerLink, Output, send, send_handshake, close_conn, begin_handshake, peer_joined,
  peer_left, peer_rejected, emit_error, probe, to_media, media_gone, close_source, terminate_source,
  on_connection, on_tick, on_peer_gone, on_peer_message, transfer_host, transfer_to, stop_all,
  broadcast, on_handshake_failed, on_handshake_done, on_admission_failed, close_for_handoff,
  send_all,
}
use screen_sharing.Signaling.Server.Events.{
  Event, connects, handshake_fails, handshake_succeeds, admission_fails, joins, ticks, probed, says,
  media_replies, goes, transfers, source_closes, closes, crashes, step,
}

-- The encrypted messages among outputs.
abbrev pub bodies : List Output → List (ℕ × Body)
bodies [] = []
bodies (send conn body ∷ os) = (conn, body) ∷ bodies os
bodies (send_handshake conn m ∷ os) = bodies os
bodies (close_conn conn code reason ∷ os) = bodies os
bodies (begin_handshake conn ∷ os) = bodies os
bodies (peer_joined id nickname ∷ os) = bodies os
bodies (peer_left id nickname reason ∷ os) = bodies os
bodies (peer_rejected ip reason ∷ os) = bodies os
bodies (emit_error ∷ os) = bodies os
bodies (probe id ip port ∷ os) = bodies os
bodies (to_media id body ∷ os) = bodies os
bodies (media_gone id ∷ os) = bodies os
bodies (close_source ∷ os) = bodies os
bodies (terminate_source ∷ os) = bodies os

bodies-append : (xs ys : List Output) → bodies (xs ++ ys) ≡ bodies xs ++ bodies ys
bodies-append [] ys = refl
bodies-append (send conn body ∷ os) ys = ap (λ l. (conn, body) ∷ l) (bodies-append os ys)
bodies-append (send_handshake conn m ∷ os) ys = bodies-append os ys
bodies-append (close_conn conn code reason ∷ os) ys = bodies-append os ys
bodies-append (begin_handshake conn ∷ os) ys = bodies-append os ys
bodies-append (peer_joined id nickname ∷ os) ys = bodies-append os ys
bodies-append (peer_left id nickname reason ∷ os) ys = bodies-append os ys
bodies-append (peer_rejected ip reason ∷ os) ys = bodies-append os ys
bodies-append (emit_error ∷ os) ys = bodies-append os ys
bodies-append (probe id ip port ∷ os) ys = bodies-append os ys
bodies-append (to_media id body ∷ os) ys = bodies-append os ys
bodies-append (media_gone id ∷ os) ys = bodies-append os ys
bodies-append (close_source ∷ os) ys = bodies-append os ys
bodies-append (terminate_source ∷ os) ys = bodies-append os ys

-- Whether an output is something on the connection: a message, a handshake or a close.
abbrev pub touches : ℕ → Output → Bool
touches conn (send c body) = c == conn
touches conn (send_handshake c m) = c == conn
touches conn (close_conn c code reason) = c == conn
touches conn (begin_handshake c) = c == conn
touches conn (peer_joined id nickname) = false
touches conn (peer_left id nickname reason) = false
touches conn (peer_rejected ip reason) = false
touches conn emit_error = false
touches conn (probe id ip port) = false
touches conn (to_media id body) = false
touches conn (media_gone id) = false
touches conn close_source = false
touches conn terminate_source = false

-- Whether an event is the coming of the connection, or the failure of its handshake or admission.
abbrev pub concerns : ℕ → Event → Bool
concerns conn (connects now c ip) = c == conn
concerns conn (handshake_fails c ip reason) = c == conn
concerns conn (admission_fails c) = c == conn
concerns conn (handshake_succeeds ip) = false
concerns conn (ticks nonce now id) = false
concerns conn (goes id) = false
concerns conn source_closes = false
concerns conn (joins nonce now c ip id nickname caps streams) = false
concerns conn (probed id ip port reachable) = false
concerns conn (says now id body) = false
concerns conn (media_replies id reply) = false
concerns conn transfers = false
concerns conn closes = false
concerns conn (crashes owns_source) = false

or_false : (b : Bool) → (b || false) ≡ b
or_false b = ground arith

or_twice : (b : Bool) → (b || (b || false)) ≡ b
or_twice b = ground arith

abbrev pub IsStill : JsString → PeerLink → Type 0
IsStill id link = (h : Heartbeat) → link.heartbeat ≡ some h → h.started ≡ false

pub record IsQuiet (s : Server) : Type 0 where
  pub is_closing : s.closing ≡ true
  pub still : Entries IsStill s.links

stopped-still :
    (o : Option Heartbeat) (h : Heartbeat) → Server.stopped o ≡ some h → h.started ≡ false
unfolding Heartbeat.stop
stopped-still none h e = absurd cc
stopped-still (some old) h e = ap (started_or true) (sym e)
  where
    started_or : Bool → Option Heartbeat → Bool
    started_or b none = b
    started_or b (some g) = g.started

stop_all-IsStill : (links : Dictionary JsString PeerLink) → Entries IsStill (stop_all links)
unfolding stop_all
stop_all-IsStill [] = tt
stop_all-IsStill ((id, link) ∷ links) =
    (λ h e. stopped-still link.heartbeat h e, stop_all-IsStill links)

-- Connections that come, handshakes that end, timers, departures, and the end of the grace time.
abbrev pub IsBystander : Event → Type 0
IsBystander (connects now conn ip) = Unit
IsBystander (handshake_fails conn ip reason) = Unit
IsBystander (handshake_succeeds ip) = Unit
IsBystander (admission_fails conn) = Unit
IsBystander (ticks nonce now id) = Unit
IsBystander (goes id) = Unit
IsBystander source_closes = Unit
IsBystander (joins nonce now conn ip id nickname caps streams) = ⊥
IsBystander (probed id ip port reachable) = ⊥
IsBystander (says now id body) = ⊥
IsBystander (media_replies id reply) = ⊥
IsBystander transfers = ⊥
IsBystander closes = ⊥
IsBystander (crashes owns_source) = ⊥

tick-still :
    (nonce now : ℕ) (h : Heartbeat) → h.started ≡ false → Heartbeat.tick nonce now h ≡ (h, [])
unfolding Heartbeat.tick
tick-still nonce now h e = ground (arith, e)

-- No encrypted message, and something on the connection exactly as said.
abbrev IsSilent : ℕ → Bool → Server × List Output → Type 0
IsSilent conn b r = IsQuiet r.0 × (bodies r.1 ≡ []) × (any (touches conn) r.1 ≡ b)

IsSilent-if_true :
    (conn : ℕ) (c b : Bool) (x y : Server × List Output)
    → b ≡ true
    → IsSilent conn c x
    → IsSilent conn c (if b then x else y)
IsSilent-if_true conn c true x y t h = h
IsSilent-if_true conn c false x y t h = absurd cc

on_tick-IsSilent :
    (conn nonce now : ℕ) (id : JsString) (s : Server)
    → IsQuiet s
    → IsSilent conn false (on_tick nonce now id s)
unfolding on_tick
on_tick-IsSilent conn nonce now id s q = elim (Option-cases (get id s.links)) [
  | inl e ↦ rw e (q, refl, refl)
  | inr (link, e) ↦ rw e (elim (Option-cases link.heartbeat) [
    | inl none_yet ↦ rw none_yet (q, refl, refl)
    | inr (h, there) ↦
        rw there (still_link link h there (Entries-get IsStill id link s.links q.still e h there))
  ])
]
  where
    still_link :
        (link : PeerLink) (h : Heartbeat)
        → link.heartbeat ≡ some h
        → h.started ≡ false
        → IsSilent conn false (Server.tick_found nonce now s link (some h))
    still_link link h there off = rw (tick-still nonce now h off) (
      record {
        is_closing = q.is_closing;
        still =
            Entries-set IsStill link.peer_id
              (record link { heartbeat = some h; reason = link.reason }) s.links
              (λ j same g eq. subst (λ x. x.started ≡ false) (some_eq eq) off) q.still;
      },
      refl,
      refl,
    )

step-IsSilent :
    (lower : JsString → JsString) (conn : ℕ) (s : Server) (e : Event)
    → IsBystander e
    → IsQuiet s
    → IsSilent conn (concerns conn e) (step lower s e)
unfolding step on_connection on_handshake_failed on_handshake_done on_admission_failed on_peer_gone
    close_for_handoff
step-IsSilent lower conn s (connects now c ip) b q =
    IsSilent-if_true conn (c == conn) s.closing _ _ q.is_closing (q, refl, or_twice (c == conn))
step-IsSilent lower conn s (handshake_fails c ip reason) b q =
    (record { is_closing = q.is_closing; still = q.still }, refl, or_false (c == conn))
step-IsSilent lower conn s (handshake_succeeds ip) b q =
    (record { is_closing = q.is_closing; still = q.still }, refl, refl)
step-IsSilent lower conn s (admission_fails c) b q = (q, refl, or_false (c == conn))
step-IsSilent lower conn s (ticks nonce now id) b q = on_tick-IsSilent conn nonce now id s q
step-IsSilent lower conn s (goes id) b q =
    IsSilent-if_true conn false s.closing _ _ q.is_closing (q, refl, refl)
step-IsSilent lower conn s source_closes b q =
    (record { is_closing = refl; still = tt }, refl, refl)
step-IsSilent lower conn s (joins nonce now c ip id nickname caps streams) b q = absurd b
step-IsSilent lower conn s (probed id ip port reachable) b q = absurd b
step-IsSilent lower conn s (says now id body) b q = absurd b
step-IsSilent lower conn s (media_replies id reply) b q = absurd b
step-IsSilent lower conn s transfers b q = absurd b
step-IsSilent lower conn s closes b q = absurd b
step-IsSilent lower conn s (crashes owns_source) b q = absurd b

-- What a server puts out over a sequence of events.
unfoldable pub outputs : (JsString → JsString) → Server → List Event → List Output
outputs lower s [] = []
outputs lower s (e ∷ es) = (step lower s e).1 ++ outputs lower (step lower s e).0 es

run_quiet :
    (lower : JsString → JsString) (conn : ℕ) (s : Server) (es : List Event)
    → All IsBystander es
    → IsQuiet s
    → (bodies (outputs lower s es) ≡ [])
      × (any (touches conn) (outputs lower s es) ≡ any (concerns conn) es)
unfolding outputs
run_quiet lower conn s [] b q = (refl, refl)
run_quiet lower conn s (e ∷ es) b q =
    let (s', now) = step lower s e in
    let (quiet, silent, apart) = step-IsSilent lower conn s e b.0 q in
    let (later, later_apart) = run_quiet lower conn s' es b.1 quiet in
    (
      bodies-append now (outputs lower s' es) ∙ ap₂ (λ x y. x ++ y) silent later,
      any-append (touches conn) now (outputs lower s' es) ∙ ap₂ (λ x y. x || y) apart later_apart,
    )

transfer_to-IsQuiet :
    (s : Server) (successor : JsString) → IsQuiet (transfer_to s (some successor)).0
unfolding transfer_to
transfer_to-IsQuiet s successor = record { is_closing = refl; still = stop_all-IsStill s.links }

send_all_lem :
    (body : Body) (links : List PeerLink)
    → send_all body links ≡ map (λ (link : PeerLink). send link.conn body) links
send_all_lem body [] = refl
send_all_lem body (link ∷ links) = ap (λ rest. send link.conn body ∷ rest) (send_all_lem body links)

-- When a host with a successor starts its handover, it sends each link, in the order of the links, the news
-- of the successor and of the next epoch, once, and puts out nothing else. From then on, through connections,
-- ends of handshakes, timers, departures and the end of the grace time, in any order and number, it sends no
-- encrypted message, and whatever the connection, it does something on it (a handshake message or a close)
-- exactly if one of those events is its coming in, or the failure of its handshake or admission.
pub transfer_host_lem :
    (lower : JsString → JsString) (s : Server) (successor : JsString) (es : List Event) (conn : ℕ)
    → designated_heir (election_entries_from_roster (Roster.snapshot s.roster)) ≡ some successor
    → All IsBystander es
    → ((transfer_host s).1
        ≡ map
            (λ (link : PeerLink). send link.conn (host_transfer successor (s.opts.epoch + 1)))
            (values s.links))
      × (bodies (outputs lower (transfer_host s).0 es) ≡ [])
      × (any (touches conn) (outputs lower (transfer_host s).0 es) ≡ any (concerns conn) es)
unfolding transfer_host transfer_to broadcast
transfer_host_lem lower s successor es conn heir b = rw heir (
    let (silent, apart) = run_quiet lower conn _ es b (transfer_to-IsQuiet s successor) in
    (send_all_lem (host_transfer successor (s.opts.epoch + 1)) (values s.links), silent, apart))

abbrev stilled : PeerLink → PeerLink
stilled link = record link { heartbeat = Server.stopped link.heartbeat }

get-stop_all-some :
    (id : JsString) (links : Dictionary JsString PeerLink) (link : PeerLink)
    → get id links ≡ some link
    → get id (stop_all links) ≡ some (stilled link)
unfolding get stop_all
get-stop_all-some id [] link h = absurd cc
get-stop_all-some id ((j, other) ∷ links) link h = elim (Bool-cases (str_eq j id)) [
  | inl t ↦ rw t (ap (λ l. some (stilled l)) (some_eq (rw t at h)))
  | inr f ↦ rw f (get-stop_all-some id links link (rw f at h))
]

-- A peer that is linked when the handover starts, and whose `ping` comes in the grace time, is sent a `pong`
-- encrypted with the keys of the dying session: the handover does not stop that.
pub transfer_host-pong :
    (lower : JsString → JsString) (s : Server) (successor : JsString) (id : JsString)
    (link : PeerLink) (now nonce sent_at : ℕ)
    → designated_heir (election_entries_from_roster (Roster.snapshot s.roster)) ≡ some successor
    → get id s.links ≡ some link
    → bodies (outputs lower (transfer_host s).0 (says now id (ping nonce sent_at) ∷ []))
      ≡ (link.conn, pong nonce sent_at) ∷ []
unfolding transfer_host transfer_to outputs step on_peer_message
transfer_host-pong lower s successor id link now nonce sent_at heir there =
    rw heir (rw (get-stop_all-some id s.links link there) refl)
