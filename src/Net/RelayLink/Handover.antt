-- ===== src/Net/RelayLink/Handover.antt =====
-- Signals that reach a link before the program listens for them.
use mathlib.Core.List.{append_assoc, append-nil}
use screen_sharing.Prelude.{
  nat_eq, ℕ, ◌≡◌, refl, sym, ap, ◌∙◌, Bool, true, false, Option, none, some, List, [], ◌∷◌, ◌++◌,
  if◌then◌else◌,
}
use screen_sharing.Prelude.Bytes.{Bytes}
use screen_sharing.Prelude.Dictionary.{get, set, delete}
use screen_sharing.Net.RelayWire.{
  RelayControl, ready, reject, peer_up, peer_down, host_gone, host_claimed, pong, payload_frame,
}
use screen_sharing.Net.RelayLink
use screen_sharing.Net.RelayLink.{
  Output, HostLink, host_frame, on_connection, connections, connection, resolve_open, reject_open,
  send, close_socket, message, closed_with, handoff_ready, transport_message, transport_closed,
  source_closed, dropped, PeerLink, peer_frame, on_handoff_ready,
}

-- The transports that are handed over.
abbrev pub handed : List Output → List ℕ
handed [] = []
handed (connection t ∷ os) = t ∷ handed os
handed (resolve_open conn_id host_token ∷ os) = handed os
handed (reject_open reason ∷ os) = handed os
handed (send frame ∷ os) = handed os
handed (close_socket ∷ os) = handed os
handed (message payload is_binary ∷ os) = handed os
handed (closed_with code reason ∷ os) = handed os
handed (handoff_ready ∷ os) = handed os
handed (transport_message t payload is_binary ∷ os) = handed os
handed (transport_closed t code reason ∷ os) = handed os
handed (source_closed reason ∷ os) = handed os

handed-connections : (ts : List ℕ) → handed (connections ts) ≡ ts
handed-connections [] = refl
handed-connections (t ∷ ts) = ap (λ l. t ∷ l) (handed-connections ts)

-- Successive frames: the link after them, and the transports handed over.
unfoldable pub host_frames : List RelayControl → HostLink → HostLink × List ℕ
host_frames [] l = (l, [])
host_frames (f ∷ fs) l =
    let (l', os) = host_frame f l in ((host_frames fs l').0, handed os ++ (host_frames fs l').1)

abbrev pub waiting : List ℕ → HostLink → HostLink
waiting p l = record l { listens = false; pending_peers = p }

abbrev pub listening : HostLink → HostLink
listening l = record l { listens = true; pending_peers = [] }

-- One frame at a link that waits and at one that listens.
abbrev IsAlike : List ℕ → HostLink × List Output → HostLink × List Output → Type 0
IsAlike p w l = (w.0 ≡ waiting (p ++ handed l.1) l.0) × (handed w.1 ≡ []) × (l.0 ≡ listening l.0)

quiet :
    (p : List ℕ) (m : HostLink) (os : List Output)
    → handed os ≡ []
    → IsAlike p (waiting p m, os) (listening m, os)
quiet p m os none_handed = (
  ap (λ q. waiting q m) (sym (append-nil p) ∙ ap (λ ts. p ++ ts) (sym none_handed)),
  none_handed,
  refl,
)

abbrev gone : ℕ → HostLink → HostLink
gone conn_id m = record m { peers = delete conn_id m.peers }

drop-IsAlike :
    (p : List ℕ) (conn_id t : ℕ) (o : Option Bool) (m : HostLink)
    → IsAlike p
        (RelayLink.without conn_id
          (RelayLink.drop_unless t 1001 (RelayLink.units "peer left") o (waiting p m)))
        (RelayLink.without conn_id
          (RelayLink.drop_unless t 1001 (RelayLink.units "peer left") o (listening m)))
drop-IsAlike p conn_id t none m = quiet p (gone conn_id m) [] refl
drop-IsAlike p conn_id t (some true) m = quiet p (gone conn_id m) [] refl
drop-IsAlike p conn_id t (some false) m =
    quiet p (record (gone conn_id m) { transports = set t true m.transports })
      (transport_closed t 1001 (RelayLink.units "peer left") ∷ []) refl

down-IsAlike :
    (p : List ℕ) (conn_id : ℕ) (o : Option ℕ) (m : HostLink)
    → IsAlike p
        (RelayLink.down_found conn_id o (waiting p m))
        (RelayLink.down_found conn_id o (listening m))
unfolding dropped
down-IsAlike p conn_id none m = quiet p (gone conn_id m) [] refl
down-IsAlike p conn_id (some t) m = drop-IsAlike p conn_id t (get t m.transports) m

open-IsAlike :
    (b : Bool) (p : List ℕ) (m : HostLink) (o : Output)
    → handed (o ∷ []) ≡ []
    → IsAlike p
        (if b then (record (waiting p m) { opening = false }, o ∷ []) else (waiting p m, []))
        (if b then (record (listening m) { opening = false }, o ∷ []) else (listening m, []))
open-IsAlike true p m o h = quiet p (record m { opening = false }) (o ∷ []) h
open-IsAlike false p m o h = quiet p m [] refl

handed-deliver_found :
    (o : Option ℕ) (payload : Bytes) (is_binary : Bool)
    → handed (RelayLink.deliver_found o payload is_binary) ≡ []
handed-deliver_found none payload is_binary = refl
handed-deliver_found (some t) payload is_binary = refl

deliver-IsAlike :
    (o : Option ℕ) (payload : Bytes) (is_binary : Bool) (p : List ℕ) (m : HostLink)
    → IsAlike p
        (waiting p m, RelayLink.deliver_to o payload is_binary (waiting p m))
        (listening m, RelayLink.deliver_to o payload is_binary (listening m))
deliver-IsAlike none payload is_binary p m = quiet p m [] refl
deliver-IsAlike (some conn_id) payload is_binary p m =
    quiet p m (RelayLink.deliver_found (get conn_id m.peers) payload is_binary)
      (handed-deliver_found (get conn_id m.peers) payload is_binary)

host_frame-IsAlike :
    (f : RelayControl) (p : List ℕ) (m : HostLink)
    → IsAlike p (host_frame f (waiting p m)) (host_frame f (listening m))
unfolding host_frame
host_frame-IsAlike (peer_up conn_id) p m = (refl, refl, refl)
host_frame-IsAlike (peer_down conn_id) p m = down-IsAlike p conn_id (get conn_id m.peers) m
host_frame-IsAlike (ready conn_id host_token) p m =
    open-IsAlike m.opening p m (resolve_open conn_id host_token) refl
host_frame-IsAlike (reject reason) p m = open-IsAlike m.opening p m (reject_open reason) refl
host_frame-IsAlike (payload_frame conn_id is_binary payload) p m =
    deliver-IsAlike conn_id payload is_binary p m
host_frame-IsAlike host_gone p m = quiet p m [] refl
host_frame-IsAlike host_claimed p m = quiet p m [] refl
host_frame-IsAlike pong p m = quiet p m [] refl

host_frames-IsAlike :
    (fs : List RelayControl) (p : List ℕ) (m : HostLink)
    → let w = host_frames fs (waiting p m) in
      let l = host_frames fs (listening m) in
      (w.0 ≡ waiting (p ++ l.1) l.0) × (w.1 ≡ []) × (l.0 ≡ listening l.0)
unfolding host_frames
host_frames-IsAlike [] p m = (ap (λ q. waiting q m) (sym (append-nil p)), refl, refl)
host_frames-IsAlike (f ∷ fs) p m =
    let (w, none_handed, l) = host_frame-IsAlike f p m in
    let next = (host_frame f (listening m)).0 in
    let first = handed (host_frame f (listening m)).1 in
    let (ws, none_later, ls) = host_frames-IsAlike fs (p ++ first) next in
    (
      ap (λ x. (host_frames fs x).0) w
          ∙ (ws
              ∙ (ap (λ x. waiting ((p ++ first) ++ (host_frames fs x).1) (host_frames fs x).0)
                    (sym l)
                  ∙ ap (λ q. waiting q (host_frames fs next).0)
                      (append_assoc p first (host_frames fs next).1))),
      ap (λ ts. ts ++ (host_frames fs (host_frame f (waiting p m)).0).1) none_handed
          ∙ (ap (λ x. (host_frames fs x).1) w ∙ none_later),
      ap (λ x. (host_frames fs x).0) l ∙ (ls ∙ sym (ap (λ x. listening (host_frames fs x).0) l)),
    )

-- However many frames of whatever kind the relay sends before the server listens for connections: when it
-- does, it is handed exactly the virtual transports that it would have been handed had it listened from the
-- start, in the same order, and the link is left the same.
pub on_connection-host_frames :
    (fs : List RelayControl) (l : HostLink)
    → l.listens ≡ false
    → l.pending_peers ≡ []
    → let (early, handed_early) = host_frames fs l in
      let (late, handed_late) = host_frames fs (on_connection l).0 in
      (handed_early ≡ [])
      × (handed (on_connection early).1 ≡ handed_late)
      × ((on_connection early).0 ≡ late)
unfolding on_connection
on_connection-host_frames fs l w e =
    let (ws, none_handed, ls) = host_frames-IsAlike fs [] l in
    (
      ap (λ x. (host_frames fs x).1) still ∙ none_handed,
      handed-connections (host_frames fs l).0.pending_peers
          ∙ (ap (λ x. (host_frames fs x).0.pending_peers) still ∙ ap (λ x. x.pending_peers) ws),
      ap (λ x. listening (host_frames fs x).0) still ∙ (ap listening ws ∙ sym ls),
    )
  where
    still : l ≡ waiting [] l
    still = λ i. record l { listens = w i; pending_peers = e i }
