-- ===== src/Signaling/Handshake.antt =====
-- src/main/signaling/handshake.ts: the handshake of both roles, as the steps between their awaits. The new
-- session id and the random scalars are arguments, and the password key that `deriveW` gives.
pub mod Success
pub mod Refusal
mod Examples
use screen_sharing.Prelude.{
  ℕ, Bool, true, false, not, Option, none, some, List, [], ◌∷◌, ◌++◌, ◌==◌, if◌then◌else◌, Result,
  ok, err, ◌≡◌,
}
use screen_sharing.Prelude.Bytes.{Bytes}
use screen_sharing.Prelude.Text.{JsString, units, str_eq}
use screen_sharing.Protocol.{
  protocol_version, ArgonParams, HandshakeMessage, RefusalReason, hello, hello_ack, pake_peer,
  pake_host, pake_confirm, handshake_reject,
}
use screen_sharing.Crypto.Kdf.{
  Hashes, TransportKeys, default_argon_params, argon_params_acceptable, derive_transport_keys,
}
use screen_sharing.Crypto.Cpace.{
  Group, CpaceError, CpaceBinding, PeerHandshake, PeerResult, HostHandshake, peer_begin, finish,
  host_respond, verify_peer,
}

-- bytesToHex and hexToBytes of @noble/hashes; the schemas let only hex through.
pub record Hex : Type 0 where
  pub to_hex : Bytes → JsString
  pub from_hex : JsString → Bytes
  pub from_hex-to_hex : (bytes : Bytes) → from_hex (to_hex bytes) ≡ bytes

pub data Reason : Type 0 where
  room_id_mismatch version_mismatch bad_password bad_message timeout closed : Reason

-- A HandshakeError, or a CpaceError that is not caught.
pub data Failure : Type 0 where
  handshake_error : Reason → Failure
  cpace_error : CpaceError → Failure

-- What ends a `waitFor`.
pub data Event : Type 0 where
  hears : HandshakeMessage → Event
  times_out closes errors : Event

pub data Output : Type 0 where
  send_handshake : HandshakeMessage → Output
  upgrade : TransportKeys → Output

pub record HelloFields : Type 0 where
  pub proto_version : ℕ
  pub room_id : JsString

pub record AckFields : Type 0 where
  pub proto_version : ℕ
  pub sid : JsString
  pub argon_params : ArgonParams

-- The fields of a message, if it has the type that is waited for.
abbrev pub hello_fields : HandshakeMessage → Option HelloFields
hello_fields (hello app version room_id) =
    some (record { proto_version = version; room_id = room_id })
hello_fields (hello_ack version sid params) = none
hello_fields (pake_peer ya) = none
hello_fields (pake_host yb mac) = none
hello_fields (pake_confirm mac) = none
hello_fields (handshake_reject reason) = none

abbrev pub ack_fields : HandshakeMessage → Option AckFields
ack_fields (hello_ack version sid params) =
    some (record { proto_version = version; sid = sid; argon_params = params })
ack_fields (hello app version room_id) = none
ack_fields (pake_peer ya) = none
ack_fields (pake_host yb mac) = none
ack_fields (pake_confirm mac) = none
ack_fields (handshake_reject reason) = none

abbrev pub pake_peer_field : HandshakeMessage → Option JsString
pake_peer_field (pake_peer ya) = some ya
pake_peer_field (hello app version room_id) = none
pake_peer_field (hello_ack version sid params) = none
pake_peer_field (pake_host yb mac) = none
pake_peer_field (pake_confirm mac) = none
pake_peer_field (handshake_reject reason) = none

abbrev pub pake_host_fields : HandshakeMessage → Option (JsString × JsString)
pake_host_fields (pake_host yb mac) = some (yb, mac)
pake_host_fields (hello app version room_id) = none
pake_host_fields (hello_ack version sid params) = none
pake_host_fields (pake_peer ya) = none
pake_host_fields (pake_confirm mac) = none
pake_host_fields (handshake_reject reason) = none

abbrev pub confirm_field : HandshakeMessage → Option JsString
confirm_field (pake_confirm mac) = some mac
confirm_field (hello app version room_id) = none
confirm_field (hello_ack version sid params) = none
confirm_field (pake_peer ya) = none
confirm_field (pake_host yb mac) = none
confirm_field (handshake_reject reason) = none

abbrev expected {ℓ} : {A : Type ℓ} → Option A → Result Reason A
expected none = err bad_message
expected (some a) = ok a

-- `waitFor`
unfoldable pub wait_for {ℓ} : {A : Type ℓ} → (HandshakeMessage → Option A) → Event → Result Reason A
wait_for fields (hears message) = expected (fields message)
wait_for fields times_out = err timeout
wait_for fields closes = err closed
wait_for fields errors = err bad_message

pub record HostConfig : Type 0 where
  pub room_id : Bytes
  pub w : Bytes
  pub argon_params : Option ArgonParams

pub record PeerConfig : Type 0 where
  pub room_id : Bytes
  pub derive_w : ArgonParams → Bytes

abbrev or_default : Option ArgonParams → ArgonParams
or_default none = default_argon_params
or_default (some p) = p

abbrev pub binding_of : Bytes → CpaceBinding
binding_of room_id = record { room_id = room_id; version = units "1" }

module _ (h : Hashes) (g : Group) (hex : Hex) where
  -- Where `runHostHandshake` waits, or how it ended.
  pub data HostState : Type 0 where
    awaits_hello : HostState
    awaits_pake_peer : (sid : Bytes) → HostState
    awaits_confirm : HostHandshake h g → HostState
    host_done : (isk : Bytes) → HostState
    host_failed : Failure → HostState

  abbrev greet : Bytes → HostConfig → Result Reason HelloFields → HostState × List Output
  greet sid cfg (err reason) = (host_failed (handshake_error reason), [])
  greet sid cfg (ok fields) =
      if not (fields.proto_version == protocol_version)
      then (
        host_failed (handshake_error version_mismatch),
        send_handshake (handshake_reject RefusalReason.version_mismatch) ∷ [],
      )
      else if not (str_eq fields.room_id (hex.to_hex cfg.room_id))
      then (
        host_failed (handshake_error room_id_mismatch),
        send_handshake (handshake_reject RefusalReason.room_id_mismatch) ∷ [],
      )
      else (
        awaits_pake_peer sid,
        send_handshake (hello_ack protocol_version (hex.to_hex sid) (or_default cfg.argon_params))
            ∷ [],
      )

  abbrev responded : Result CpaceError (HostHandshake h g) → HostState × List Output
  responded (err e) = (host_failed (handshake_error bad_message), [])
  responded (ok r) =
      (awaits_confirm r, send_handshake (pake_host (hex.to_hex r.yb) (hex.to_hex r.mac_host)) ∷ [])

  abbrev respond : ℕ → Bytes → HostConfig → Result Reason JsString → HostState × List Output
  respond scalar sid cfg (err reason) = (host_failed (handshake_error reason), [])
  respond scalar sid cfg (ok ya) =
      responded (host_respond h g scalar cfg.w (binding_of cfg.room_id) sid (hex.from_hex ya))

  abbrev confirm : HostHandshake h g → Result Reason JsString → HostState × List Output
  confirm r (err reason) = (host_failed (handshake_error reason), [])
  confirm r (ok mac) =
      if verify_peer h g r (hex.from_hex mac)
      then (host_done r.isk, upgrade (derive_transport_keys h r.isk) ∷ [])
      else (host_failed (handshake_error bad_password), [])

  -- `runHostHandshake`
  unfoldable pub host_step : Bytes → ℕ → HostConfig → HostState → Event → HostState × List Output
  unfolding wait_for host_respond verify_peer derive_transport_keys
  host_step new_sid scalar cfg awaits_hello e = greet new_sid cfg (wait_for hello_fields e)
  host_step new_sid scalar cfg (awaits_pake_peer sid) e =
      respond scalar sid cfg (wait_for pake_peer_field e)
  host_step new_sid scalar cfg (awaits_confirm r) e = confirm r (wait_for confirm_field e)
  host_step new_sid scalar cfg (host_done isk) e = (host_done isk, [])
  host_step new_sid scalar cfg (host_failed f) e = (host_failed f, [])

  -- Where `runPeerHandshake` waits, or how it ended.
  pub data PeerState : Type 0 where
    awaits_ack : PeerState
    awaits_pake_host : PeerHandshake h g → PeerState
    peer_done : (isk : Bytes) → PeerState
    peer_failed : Failure → PeerState

  -- `runPeerHandshake`, up to its first await.
  unfoldable pub peer_start : PeerConfig → PeerState × List Output
  peer_start cfg = (
    awaits_ack,
    send_handshake (hello (units "0.1.0") protocol_version (hex.to_hex cfg.room_id)) ∷ [],
  )

  abbrev began : Result CpaceError (PeerHandshake h g) → PeerState × List Output
  began (err e) = (peer_failed (cpace_error e), [])
  began (ok p) = (awaits_pake_host p, send_handshake (pake_peer (hex.to_hex p.ya)) ∷ [])

  abbrev acknowledge : ℕ → PeerConfig → Result Reason AckFields → PeerState × List Output
  acknowledge scalar cfg (err reason) = (peer_failed (handshake_error reason), [])
  acknowledge scalar cfg (ok ack) =
      if not (ack.proto_version == protocol_version)
      then (peer_failed (handshake_error version_mismatch), [])
      else if not (argon_params_acceptable ack.argon_params)
      then (peer_failed (handshake_error bad_message), [])
      else began (
          peer_begin h g scalar (cfg.derive_w ack.argon_params) (binding_of cfg.room_id)
            (hex.from_hex ack.sid))

  abbrev finished : Result CpaceError (PeerResult h g) → PeerState × List Output
  finished (err e) = (
    peer_failed (handshake_error bad_message),
    send_handshake (handshake_reject RefusalReason.bad_message) ∷ [],
  )
  finished (ok r) =
      let confirmation = send_handshake (pake_confirm (hex.to_hex r.mac_peer)) in
      if r.host_confirmed
      then (peer_done r.isk, confirmation ∷ upgrade (derive_transport_keys h r.isk) ∷ [])
      else (peer_failed (handshake_error bad_password), confirmation ∷ [])

  abbrev conclude :
      PeerHandshake h g → Result Reason (JsString × JsString) → PeerState × List Output
  conclude p (err reason) = (peer_failed (handshake_error reason), [])
  conclude p (ok (yb, mac)) = finished (finish h g p (hex.from_hex yb) (hex.from_hex mac))

  -- `runPeerHandshake`, from an await to the next.
  unfoldable pub peer_step : ℕ → PeerConfig → PeerState → Event → PeerState × List Output
  unfolding wait_for peer_begin finish derive_transport_keys argon_params_acceptable
  peer_step scalar cfg awaits_ack e = acknowledge scalar cfg (wait_for ack_fields e)
  peer_step scalar cfg (awaits_pake_host p) e = conclude p (wait_for pake_host_fields e)
  peer_step scalar cfg (peer_done isk) e = (peer_done isk, [])
  peer_step scalar cfg (peer_failed f) e = (peer_failed f, [])
