-- ===== src/Signaling/Handshake/Success.antt =====
-- The two roles of the handshake against each other.
use screen_sharing.Prelude.{ℕ, zero, suc, ◌≡◌, refl, ap, ◌∙◌, true, List, [], ◌∷◌, ◌++◌}
use screen_sharing.Prelude.Bytes.{Bytes}
use screen_sharing.Prelude.Text.{units, str_eq_self}
use screen_sharing.Protocol.{
  protocol_version, HandshakeMessage, hello, hello_ack, pake_peer, pake_host, pake_confirm,
}
use screen_sharing.Crypto.Kdf.{
  Hashes, TransportKeys, argon_params_acceptable, derive_transport_keys,
}
use screen_sharing.Crypto.Cpace.{Group}
use screen_sharing.Crypto.Cpace.Agreement.{
  IsPair, begun, answered, peer_begin_lem, host_respond_lem, finish_lem, verify_peer_lem,
}
use screen_sharing.Signaling.Handshake
use screen_sharing.Signaling.Handshake.{
  Hex, Output, Event, hears, send_handshake, upgrade, HostConfig, PeerConfig, HostState, PeerState,
  binding_of, host_step, peer_start, peer_step, awaits_hello, awaits_pake_peer, awaits_confirm,
  host_done, awaits_ack, awaits_pake_host, peer_done,
}

abbrev pub messages : List Output → List HandshakeMessage
messages [] = []
messages (send_handshake m ∷ os) = m ∷ messages os
messages (upgrade keys ∷ os) = messages os

-- The keys that the connection is upgraded with.
abbrev pub upgrades : List Output → List TransportKeys
upgrades [] = []
upgrades (send_handshake m ∷ os) = upgrades os
upgrades (upgrade keys ∷ os) = keys ∷ upgrades os

module _ (h : Hashes) (g : Group) (hex : Hex) (a b : ℕ) (sid : Bytes) (host_cfg : HostConfig)
    (peer_cfg : PeerConfig) where
  -- A role hears messages one after the other; what it puts out.
  abbrev pub host_hears :
      List HandshakeMessage → HostState h g hex → HostState h g hex × List Output
  host_hears [] s = (s, [])
  host_hears (m ∷ ms) s =
      let (s', outputs) = host_step h g hex sid b host_cfg s (hears m) in
      ((host_hears ms s').0, outputs ++ (host_hears ms s').1)

  abbrev pub peer_hears :
      List HandshakeMessage → PeerState h g hex → PeerState h g hex × List Output
  peer_hears [] s = (s, [])
  peer_hears (m ∷ ms) s =
      let (s', outputs) = peer_step h g hex a peer_cfg s (hears m) in
      ((peer_hears ms s').0, outputs ++ (peer_hears ms s').1)

  -- Both roles, and what each has put out.
  abbrev pub Talk : Type 0
  Talk = HostState h g hex × PeerState h g hex × List Output × List Output

  abbrev after_outputs : List Output → List Output → Talk → Talk
  after_outputs back forth (s, t, from_host, from_peer) =
      (s, t, back ++ from_host, forth ++ from_peer)

  -- Rounds of a talk in which every message arrives.
  unfoldable pub talk : ℕ → List HandshakeMessage → HostState h g hex → PeerState h g hex → Talk
  talk zero ms s t = (s, t, [], [])
  talk (suc n) ms s t =
      let (s', back) = host_hears ms s in
      let (t', forth) = peer_hears (messages back) t in
      after_outputs back forth (talk n (messages forth) s' t')

  talk_silent :
      (n : ℕ) (s : HostState h g hex) (t : PeerState h g hex) → talk n [] s t ≡ (s, t, [], [])
  unfolding talk
  talk_silent zero s t = refl
  talk_silent (suc n) s t = ap (after_outputs [] []) (talk_silent n s t)

  -- A message, its answer, and what the answer is answered with.
  talk-round :
      (n : ℕ) (m m' : HandshakeMessage) (s s' : HostState h g hex) (t t' : PeerState h g hex)
      (os : List Output)
      → host_step h g hex sid b host_cfg s (hears m) ≡ (s', send_handshake m' ∷ [])
      → peer_step h g hex a peer_cfg t (hears m') ≡ (t', os)
      → talk (suc n) (m ∷ []) s t
        ≡ after_outputs (send_handshake m' ∷ []) (os ++ []) (talk n (messages (os ++ [])) s' t')
  unfolding talk
  talk-round n m m' s s' t t' os e f = rw (e, f) refl

  talk-last :
      (n : ℕ) (m : HandshakeMessage) (s s' : HostState h g hex) (t : PeerState h g hex)
      (keys : Handshake.TransportKeys)
      → host_step h g hex sid b host_cfg s (hears m) ≡ (s', upgrade keys ∷ [])
      → talk (suc n) (m ∷ []) s t ≡ after_outputs (upgrade keys ∷ []) [] (talk n [] s' t)
  unfolding talk
  talk-last n m s s' t keys e = rw e refl

  abbrev pub params : Handshake.ArgonParams
  params = Handshake.or_default host_cfg.argon_params

  hello_heard :
      host_step h g hex sid b host_cfg awaits_hello
        (hears (hello (units "0.1.0") protocol_version (hex.to_hex host_cfg.room_id)))
      ≡ (
        awaits_pake_peer sid,
        send_handshake (hello_ack protocol_version (hex.to_hex sid) params) ∷ [],
      )
  unfolding host_step
  hello_heard = rw (str_eq_self (hex.to_hex host_cfg.room_id)) refl

  module _ (same_room : peer_cfg.room_id ≡ host_cfg.room_id)
      (same_key : peer_cfg.derive_w params ≡ host_cfg.w)
      (strong : argon_params_acceptable params ≡ true)
      (pair : IsPair h g a b host_cfg.w (binding_of host_cfg.room_id) sid) where
    abbrev binding : Handshake.CpaceBinding
    binding = binding_of host_cfg.room_id

    abbrev peers : Handshake.PeerHandshake h g
    peers = begun h g a b host_cfg.w binding sid

    abbrev hosts : Handshake.HostHandshake h g
    hosts = answered h g a b host_cfg.w binding sid

    ack_heard :
        peer_step h g hex a peer_cfg awaits_ack
          (hears (hello_ack protocol_version (hex.to_hex sid) params))
        ≡ (awaits_pake_host peers, send_handshake (pake_peer (hex.to_hex peers.ya)) ∷ [])
    unfolding peer_step
    ack_heard =
        rw
          (
            strong,
            same_key,
            same_room,
            hex.from_hex-to_hex sid,
            peer_begin_lem h g a b host_cfg.w binding sid pair.sid_length,
          )
          refl

    pake_peer_heard :
        host_step h g hex sid b host_cfg
          (awaits_pake_peer sid)
          (hears (pake_peer (hex.to_hex peers.ya)))
        ≡ (
          awaits_confirm hosts,
          send_handshake (pake_host (hex.to_hex hosts.yb) (hex.to_hex hosts.mac_host)) ∷ [],
        )
    unfolding host_step
    pake_peer_heard =
        rw (hex.from_hex-to_hex peers.ya, host_respond_lem h g a b host_cfg.w binding sid pair) refl

    pake_host_heard :
        peer_step h g hex a peer_cfg
          (awaits_pake_host peers)
          (hears (pake_host (hex.to_hex hosts.yb) (hex.to_hex hosts.mac_host)))
        ≡ (
          peer_done hosts.isk,
          send_handshake (pake_confirm (hex.to_hex hosts.expected_peer))
              ∷ upgrade (derive_transport_keys h hosts.isk)
              ∷ [],
        )
    unfolding peer_step
    pake_host_heard =
        rw
          (
            hex.from_hex-to_hex hosts.yb,
            hex.from_hex-to_hex hosts.mac_host,
            finish_lem h g a b host_cfg.w binding sid pair,
          )
          refl

    confirm_heard :
        host_step h g hex sid b host_cfg
          (awaits_confirm hosts)
          (hears (pake_confirm (hex.to_hex hosts.expected_peer)))
        ≡ (host_done hosts.isk, upgrade (derive_transport_keys h hosts.isk) ∷ [])
    unfolding host_step
    confirm_heard = rw (hex.from_hex-to_hex hosts.expected_peer, verify_peer_lem h g hosts) refl

    abbrev keys : TransportKeys
    keys = derive_transport_keys h hosts.isk

    abbrev ack : Output
    ack = send_handshake (hello_ack protocol_version (hex.to_hex sid) params)

    abbrev peers_share : Output
    peers_share = send_handshake (pake_peer (hex.to_hex peers.ya))

    abbrev hosts_share : Output
    hosts_share = send_handshake (pake_host (hex.to_hex hosts.yb) (hex.to_hex hosts.mac_host))

    abbrev confirmation : Output
    confirmation = send_handshake (pake_confirm (hex.to_hex hosts.expected_peer))

    talk_lem :
        (n : ℕ)
        → talk
            (suc (suc (suc n)))
            (messages (peer_start h g hex peer_cfg).1)
            awaits_hello
            (peer_start h g hex peer_cfg).0
          ≡ (
            host_done hosts.isk,
            peer_done hosts.isk,
            ack ∷ hosts_share ∷ upgrade keys ∷ [],
            peers_share ∷ confirmation ∷ upgrade keys ∷ [],
          )
    unfolding peer_start
    talk_lem n =
        ap
          (λ room.
            talk (suc (suc (suc n))) (hello (units "0.1.0") protocol_version (hex.to_hex room) ∷ [])
              awaits_hello awaits_ack)
          same_room
        ∙ (talk-round (suc (suc n)) _ _ _ _ _ _ _ hello_heard ack_heard
            ∙ ap (after_outputs (ack ∷ []) (peers_share ∷ [])) (
                talk-round (suc n) _ _ _ _ _ _ _ pake_peer_heard pake_host_heard
                ∙ ap (after_outputs (hosts_share ∷ []) (confirmation ∷ upgrade keys ∷ [])) (
                    talk-last n _ _ _ (peer_done hosts.isk) _ confirm_heard
                    ∙ ap (after_outputs (upgrade keys ∷ []) []) (talk_silent n _ _))))

-- A host and a peer of one room with the same password key, whose messages all arrive, both end the
-- handshake within three rounds with the same session key, and stay so, however many rounds follow. Each
-- has upgraded its connection exactly once, with the transport keys of that session key.
-- For argon parameters that the peer accepts, and under the conditions of the key exchange.
pub handshake_lem :
    (h : Hashes) (g : Group) (hex : Hex) (a b : ℕ) (sid : Bytes) (host_cfg : HostConfig)
    (peer_cfg : PeerConfig)
    → peer_cfg.room_id ≡ host_cfg.room_id
    → peer_cfg.derive_w (params h g hex a b sid host_cfg peer_cfg) ≡ host_cfg.w
    → argon_params_acceptable (params h g hex a b sid host_cfg peer_cfg) ≡ true
    → IsPair h g a b host_cfg.w (binding_of host_cfg.room_id) sid
    → (n : ℕ)
    → let (host, peer, from_host, from_peer) =
        talk h g hex a b sid host_cfg peer_cfg
          (suc (suc (suc n)))
          (messages (peer_start h g hex peer_cfg).1)
          awaits_hello
          (peer_start h g hex peer_cfg).0 in
      (isk : Bytes) × (host ≡ host_done isk)
      × (peer ≡ peer_done isk)
      × (upgrades from_host ≡ derive_transport_keys h isk ∷ [])
      × (upgrades from_peer ≡ derive_transport_keys h isk ∷ [])
handshake_lem h g hex a b sid host_cfg peer_cfg same_room same_key strong pair n =
    rw (talk_lem h g hex a b sid host_cfg peer_cfg same_room same_key strong pair n)
      (_, refl, refl, refl, refl)
