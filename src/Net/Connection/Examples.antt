-- ===== src/Net/Connection/Examples.antt =====
-- A concrete connection for the theorems on connections.
use screen_sharing.Prelude.{
  ℕ, zero, suc, take, ◌≤◌, ◌<◌, ◌≡◌, refl, true, false, Option, none, some, List, [], ◌∷◌, length,
  arith, map,
}
use screen_sharing.Prelude.Bytes.{Bytes, be_bytes, length-be_bytes}
use screen_sharing.Prelude.Text.{units}
use screen_sharing.Crypto.Aead.{Gcm}
use screen_sharing.Crypto.Kdf.{TransportKeys}
use screen_sharing.Protocol.{Envelope, Body}
use screen_sharing.Protocol.Schema.{envelope_ok, body_ok}
use screen_sharing.Net.FrameCodec.{
  FrameEncoder, FrameDecoder, max_plaintext_bytes, client_to_server,
}
use screen_sharing.Net.FrameCodec.RoundTrip.{InStep}
use screen_sharing.Net.Connection
use screen_sharing.Net.Connection.{
  Connection, ConnectionError, InboxItem, Listening, MessageCodec, Output, receive, upgrade,
  is_encrypted, new, message_item, emit_item, emit_error, close_transport, too_many_early,
  text_after_upgrade,
}
use screen_sharing.Net.Connection.Early.{receive_all, upgrade-receive_all, early_flood}
use screen_sharing.Net.Connection.EndToEnd.{envelopes, exchange, exchange_lem}

abbrev plain_gcm : Gcm
plain_gcm = record {
  encrypt = λ key nonce aad p. p;
  auth_tag = λ key nonce aad p. be_bytes 16 7;
  decrypt = λ key nonce aad body tag. some body;
  length-auth_tag = λ key nonce aad p. length-be_bytes 16 7;
  decrypt-encrypt = λ key nonce aad p. refl;
}

-- What the messages without a form of their own become: no frame holds it.
too_long : Bytes
too_long = be_bytes (suc max_plaintext_bytes) 0

length-too_long : max_plaintext_bytes < length too_long
unfolding too_long
length-too_long = omega (arith, length-be_bytes (suc max_plaintext_bytes) 0)

-- A form of the messages of a heartbeat.
print_body : Envelope → Body → Bytes
print_body e (Body.ping nonce sent_at) = 1 ∷ e.v ∷ e.epoch ∷ e.seq ∷ nonce ∷ sent_at ∷ e.sender
print_body e (Body.pong nonce sent_at) = 2 ∷ e.v ∷ e.epoch ∷ e.seq ∷ nonce ∷ sent_at ∷ e.sender
print_body e (Body.join nickname caps) = too_long
print_body e (Body.joined j) = too_long
print_body e (Body.host_transfer successor epoch) = too_long
print_body e (Body.roster_update added removed changed) = too_long
print_body e (Body.rejected reason) = too_long
print_body e (Body.bye reason) = too_long
print_body e (Body.publish_offer stream_id video audio sdp) = too_long
print_body e (Body.publish_answer stream_id sdp) = too_long
print_body e (Body.unpublish stream_id) = too_long
print_body e (Body.subscribe stream_id) = too_long
print_body e (Body.subscribe_offer stream_id sdp) = too_long
print_body e (Body.subscribe_answer stream_id sdp) = too_long
print_body e (Body.unsubscribe stream_id) = too_long
print_body e (Body.stream_state stream state) = too_long
print_body e (Body.media_error stream_id reason) = too_long
print_body e (Body.quality_directive d) = too_long
print_body e (Body.stats_report subs pubs) = too_long

parse_body : Bytes → Option Envelope
parse_body (suc zero ∷ v ∷ epoch ∷ seq ∷ nonce ∷ sent_at ∷ sender) =
    some
      (record { v = v; epoch = epoch; seq = seq; sender = sender; body = Body.ping nonce sent_at })
parse_body (suc (suc zero) ∷ v ∷ epoch ∷ seq ∷ nonce ∷ sent_at ∷ sender) =
    some
      (record { v = v; epoch = epoch; seq = seq; sender = sender; body = Body.pong nonce sent_at })
parse_body bytes = none

with_body : Envelope → Body → Envelope
with_body e body = record { v = e.v; epoch = e.epoch; seq = e.seq; sender = e.sender; body = body }

parse-print_body :
    (e : Envelope) (body : Body)
    → length (print_body e body) ≤ max_plaintext_bytes
    → parse_body (print_body e body) ≡ some (with_body e body)
unfolding print_body parse_body with_body
parse-print_body e (Body.ping nonce sent_at) fits = refl
parse-print_body e (Body.pong nonce sent_at) fits = refl
parse-print_body e (Body.join nickname caps) fits = absurd (omega (arith, fits, length-too_long))
parse-print_body e (Body.joined j) fits = absurd (omega (arith, fits, length-too_long))
parse-print_body e (Body.host_transfer successor epoch) fits =
    absurd (omega (arith, fits, length-too_long))
parse-print_body e (Body.roster_update added removed changed) fits =
    absurd (omega (arith, fits, length-too_long))
parse-print_body e (Body.rejected reason) fits = absurd (omega (arith, fits, length-too_long))
parse-print_body e (Body.bye reason) fits = absurd (omega (arith, fits, length-too_long))
parse-print_body e (Body.publish_offer stream_id video audio sdp) fits =
    absurd (omega (arith, fits, length-too_long))
parse-print_body e (Body.publish_answer stream_id sdp) fits =
    absurd (omega (arith, fits, length-too_long))
parse-print_body e (Body.unpublish stream_id) fits = absurd (omega (arith, fits, length-too_long))
parse-print_body e (Body.subscribe stream_id) fits = absurd (omega (arith, fits, length-too_long))
parse-print_body e (Body.subscribe_offer stream_id sdp) fits =
    absurd (omega (arith, fits, length-too_long))
parse-print_body e (Body.subscribe_answer stream_id sdp) fits =
    absurd (omega (arith, fits, length-too_long))
parse-print_body e (Body.unsubscribe stream_id) fits = absurd (omega (arith, fits, length-too_long))
parse-print_body e (Body.stream_state stream state) fits =
    absurd (omega (arith, fits, length-too_long))
parse-print_body e (Body.media_error stream_id reason) fits =
    absurd (omega (arith, fits, length-too_long))
parse-print_body e (Body.quality_directive d) fits = absurd (omega (arith, fits, length-too_long))
parse-print_body e (Body.stats_report subs pubs) fits =
    absurd (omega (arith, fits, length-too_long))

heartbeat_codec : MessageCodec
unfolding with_body
heartbeat_codec = record {
  print_handshake = λ m. [];
  parse_handshake = λ bytes. none;
  print_envelope = λ e. print_body e e.body;
  parse_envelope = parse_body;
  parse_envelope-print = λ e valid fits. parse-print_body e e.body fits;
}

abbrev still_listening : InboxItem → Listening → Listening
still_listening item l = l

abbrev salt : Bytes
salt = 9 ∷ 8 ∷ 7 ∷ 6 ∷ []

abbrev keys : TransportKeys
keys = record {
  c2s = record { key = be_bytes 32 5; nonce_salt = salt };
  s2c = record { key = be_bytes 32 6; nonce_salt = salt };
}

abbrev enc : FrameEncoder
enc = record { key = be_bytes 32 5; salt = salt; direction = client_to_server; counter = 3 }

abbrev dec : FrameDecoder
dec = record {
  key = be_bytes 32 5;
  salt = salt;
  expected_direction = client_to_server;
  last_counter = some 2;
}

in_step : InStep enc dec
in_step = record {
  same_key = refl;
  same_salt = refl;
  same_direction = refl;
  key_length = length-be_bytes 32 5;
  salt_length = omega arith;
  fresh = refl;
}

-- A connection that was just made.
abbrev fresh : Connection.ConnectionRole → Connection
fresh role = record {
  role = role;
  encoder = none;
  decoder = none;
  pending_binary = [];
  inbox = [];
  closed = false;
  outbound_from = units "unknown";
  epoch = 0;
  seq = 0;
  listening = record { handshake = false; message = false };
}

abbrev sender : Connection
sender = record (fresh Connection.peer) { encoder = some enc }

abbrev receiver : Connection
receiver = record (fresh Connection.host) {
  encoder = some enc;
  decoder = some dec;
  listening = record { handshake = false; message = true };
}

abbrev two_beats : List Body
two_beats = Body.ping 70 1_000 ∷ Body.pong 71 1_001 ∷ []

exchange_lem_example :
    exchange heartbeat_codec plain_gcm still_listening two_beats sender receiver
    ≡ map (λ e. emit_item (message_item e)) (envelopes 0 0 (units "unknown") two_beats)
unfolding heartbeat_codec print_body envelope_ok body_ok
exchange_lem_example =
    exchange_lem heartbeat_codec plain_gcm still_listening (λ e l h. h) two_beats sender receiver
      enc dec
      (record { sends = refl; upgraded = refl; receives = refl; heard = refl; in_step = in_step })
      (omega arith) ((refl, omega arith), ((refl, omega arith), tt))

abbrev early_frame : Bytes
early_frame = 1 ∷ 2 ∷ 3 ∷ []

upgrade-receive_all_example :
    let frames : List Bytes = early_frame ∷ early_frame ∷ [] in
    let (early, emitted) =
      receive_all heartbeat_codec plain_gcm still_listening frames (fresh Connection.host) in
    let late = (upgrade heartbeat_codec plain_gcm still_listening keys (fresh Connection.host)).0 in
    (emitted ≡ [])
    × ((upgrade heartbeat_codec plain_gcm still_listening keys early).2 ≡ none
        → upgrade heartbeat_codec plain_gcm still_listening keys early ≡ (
          (receive_all heartbeat_codec plain_gcm still_listening frames late).0,
          (receive_all heartbeat_codec plain_gcm still_listening frames late).1,
          none,
        ))
upgrade-receive_all_example =
    upgrade-receive_all heartbeat_codec plain_gcm still_listening keys
      (early_frame ∷ early_frame ∷ []) (fresh Connection.host) refl refl (omega arith) (omega arith)
      (omega arith)

-- So many times the same frame.
abbrev repeated : ℕ → List Bytes
repeated zero = []
repeated (suc n) = early_frame ∷ repeated n

early_flood_example :
    receive_all heartbeat_codec plain_gcm still_listening (repeated 70) (fresh Connection.host) ≡ (
      record (fresh Connection.host) { pending_binary = take 64 (repeated 70); closed = true },
      emit_error too_many_early ∷ close_transport 1002 (units "protocol error") ∷ [],
    )
early_flood_example =
    early_flood heartbeat_codec plain_gcm still_listening (repeated 70) (fresh Connection.host) refl
      refl refl (omega arith)
