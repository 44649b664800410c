-- ===== src/Net/Connection.antt =====
-- src/main/net/connection.ts: one control connection between a peer and the host. JSON and zod are a
-- parameter (`MessageCodec`); what the consumer's listeners do with the listeners themselves is one too.
pub mod Early
pub mod EndToEnd
mod Examples
use screen_sharing.Prelude.{
  ℕ, ◌+◌, Bool, true, false, not, Option, none, some, List, [], ◌∷◌, ◌++◌, ltb, ◌==◌, if◌then◌else◌,
  length, Result, ok, err, ◌≡◌, ◌≤◌,
}
use screen_sharing.Prelude.Bytes.{Bytes}
use screen_sharing.Prelude.Text.{JsString, units}
use screen_sharing.Crypto.Aead.{Gcm}
use screen_sharing.Crypto.Kdf.{TransportKey, TransportKeys}
use screen_sharing.Protocol.{HandshakeMessage, Envelope, Body, protocol_version}
use screen_sharing.Protocol.Schema.{envelope_ok}
use screen_sharing.Net.FrameCodec.{
  FrameEncoder, FrameDecoder, FrameError, Direction, client_to_server, server_to_client, encode,
  decode, new_encoder, new_decoder, max_plaintext_bytes,
}

-- JSON.stringify and UTF-8 one way; UTF-8, JSON.parse and the zod schema the other way, `none` if one
-- of them throws. An envelope that meets the schema, and fits a frame, comes back as it was.
pub record MessageCodec : Type 0 where
  pub print_handshake : HandshakeMessage → Bytes
  pub parse_handshake : Bytes → Option HandshakeMessage
  pub print_envelope : Envelope → Bytes
  pub parse_envelope : Bytes → Option Envelope
  pub parse_envelope-print :
      (e : Envelope)
      → envelope_ok e ≡ true
      → length (print_envelope e) ≤ max_plaintext_bytes
      → parse_envelope (print_envelope e) ≡ some e

pub data ConnectionRole : Type 0 where
  host peer : ConnectionRole

pub data ConnectionError : Type 0 where
  handshake_after_upgrade already_upgraded send_before_upgrade text_after_upgrade : ConnectionError
  bad_version too_many_early invalid_message no_decoder : ConnectionError
  frame_error : FrameError → ConnectionError

pub data InboxItem : Type 0 where
  handshake_item : HandshakeMessage → InboxItem
  message_item : Envelope → InboxItem

pub data Output : Type 0 where
  send_text send_binary : Bytes → Output
  close_transport emit_close : (code : ℕ) (reason : JsString) → Output
  emit_item : InboxItem → Output
  emit_error : ConnectionError → Output

-- Whether somebody listens for handshake messages, and for envelopes.
pub record Listening : Type 0 where
  pub handshake : Bool
  pub message : Bool

pub record Connection : Type 0 where
  pub role : ConnectionRole
  pub encoder : Option FrameEncoder
  pub decoder : Option FrameDecoder
  pub pending_binary : List Bytes
  pub inbox : List InboxItem
  pub closed : Bool
  pub outbound_from : JsString
  pub epoch : ℕ
  pub seq : ℕ
  pub listening : Listening

unfoldable pub new : ConnectionRole → Connection
new role = record {
  role = role;
  encoder = none;
  decoder = none;
  pending_binary = [];
  inbox = [];
  closed = false;
  outbound_from = units "unknown";
  epoch = 0;
  seq = 0;
  listening = record { handshake = false; message = false };
}

-- What a call leaves: the connection, what it sent and emitted, and what it threw.
abbrev pub Step : Type 0
Step = Connection × List Output × Option ConnectionError

abbrev pub is_encrypted : Option FrameEncoder → Bool
is_encrypted none = false
is_encrypted (some enc) = true

abbrev pub is_heard : Listening → InboxItem → Bool
is_heard l (handshake_item m) = l.handshake
is_heard l (message_item e) = l.message

-- `close`
unfoldable pub close : ℕ → JsString → Connection → Connection × List Output
close code reason c =
    if c.closed then (c, []) else (record c { closed = true }, close_transport code reason ∷ [])

-- `#fail`
unfoldable pub fail : ConnectionError → Connection → Connection × List Output
fail e c = if c.closed then (c, []) else (
  record c { closed = true },
  emit_error e ∷ close_transport 1002 (units "protocol error") ∷ [],
)

-- The transport's close callback.
unfoldable pub on_transport_close : ℕ → JsString → Connection → Connection × List Output
on_transport_close code reason c = (record c { closed = true }, emit_close code reason ∷ [])

-- `consumer` gives who listens after a listener has handled an item.
module _ (codec : MessageCodec) (gcm : Gcm) (consumer : InboxItem → Listening → Listening) where
  unfoldable pub send_handshake : HandshakeMessage → Connection → Step
  send_handshake msg c =
      if is_encrypted c.encoder
      then (c, [], some handshake_after_upgrade)
      else (c, send_text (codec.print_handshake msg) ∷ [], none)

  -- `#deliver`
  unfoldable pub deliver : InboxItem → Connection → Connection × List Output
  deliver item c =
      if is_heard c.listening item
      then (record c { listening = consumer item c.listening }, emit_item item ∷ [])
      else (record c { inbox = c.inbox ++ (item ∷ []) }, [])

  abbrev pub delivered : Connection × List Output → Step
  delivered (c, outputs) = (c, outputs, none)

  abbrev pub open_envelope : Connection → Option Envelope → Step
  open_envelope c none = (c, [], some invalid_message)
  open_envelope c (some e) =
      if not (e.v == protocol_version)
      then (c, [], some bad_version)
      else delivered (deliver (message_item e) c)

  abbrev pub open_decoded : Connection → FrameDecoder × Result FrameError Bytes → Step
  open_decoded c (dec, err e) = (record c { decoder = some dec }, [], some (frame_error e))
  open_decoded c (dec, ok plaintext) =
      open_envelope (record c { decoder = some dec }) (codec.parse_envelope plaintext)

  -- `this.#decoder!`, which is undefined if only the encoder could be made.
  abbrev pub open_binary : Bytes → Connection → Option FrameDecoder → Step
  open_binary bytes c none = (c, [], some no_decoder)
  open_binary bytes c (some dec) = open_decoded c (decode gcm dec bytes)

  abbrev pub open_text : Connection → Option HandshakeMessage → Step
  open_text c none = (c, [], some invalid_message)
  open_text c (some msg) = delivered (deliver (handshake_item msg) c)

  -- `#onMessage`
  unfoldable pub on_message : Bytes → Bool → Connection → Step
  unfolding deliver
  on_message bytes is_binary c =
      if is_encrypted c.encoder
      then (if not is_binary
          then (c, [], some text_after_upgrade)
          else open_binary bytes c c.decoder)
      else if is_binary
      then (if ltb (length c.pending_binary) 64
          then (record c { pending_binary = c.pending_binary ++ (bytes ∷ []) }, [], none)
          else (c, [], some too_many_early))
      else open_text c (codec.parse_handshake bytes)

  abbrev pub caught : Step → Connection × List Output
  caught (c, outputs, none) = (c, outputs)
  caught (c, outputs, some e) = ((fail e c).0, outputs ++ (fail e c).1)

  -- The transport's message callback, which catches what `#onMessage` throws.
  unfoldable pub receive : Bytes → Bool → Connection → Connection × List Output
  unfolding on_message
  receive bytes is_binary c = caught (on_message bytes is_binary c)

  -- A call, and what follows it if it did not throw.
  abbrev pub continued : Step → (Connection → Step) → Step
  continued (c, outputs, some e) rest = (c, outputs, some e)
  continued (c, outputs, none) rest = ((rest c).0, outputs ++ (rest c).1, (rest c).2)

  -- The loop at the end of `upgrade`; what a frame throws ends it, with the other frames lost.
  unfoldable pub replay : List Bytes → Connection → Step
  unfolding on_message
  replay [] c = (c, [], none)
  replay (frame ∷ frames) c = continued (on_message frame true c) (replay frames)

  abbrev pub send_keys : ConnectionRole → TransportKeys → TransportKey
  send_keys host keys = keys.s2c
  send_keys peer keys = keys.c2s

  abbrev pub recv_keys : ConnectionRole → TransportKeys → TransportKey
  recv_keys host keys = keys.c2s
  recv_keys peer keys = keys.s2c

  abbrev pub send_direction : ConnectionRole → Direction
  send_direction host = server_to_client
  send_direction peer = client_to_server

  abbrev pub recv_direction : ConnectionRole → Direction
  recv_direction host = client_to_server
  recv_direction peer = server_to_client

  abbrev pub install :
      Connection → Result FrameError FrameEncoder → Result FrameError FrameDecoder → Step
  install c (err e) decoder = (c, [], some (frame_error e))
  install c (ok enc) (err e) = (record c { encoder = some enc }, [], some (frame_error e))
  install c (ok enc) (ok dec) =
      replay c.pending_binary
        (record c { encoder = some enc; decoder = some dec; pending_binary = [] })

  unfoldable pub upgrade : TransportKeys → Connection → Step
  unfolding replay new_encoder new_decoder
  upgrade keys c =
      let send_key = send_keys c.role keys in
      let recv_key = recv_keys c.role keys in
      if is_encrypted c.encoder
      then (c, [], some already_upgraded)
      else install c (new_encoder send_key.key send_key.nonce_salt (send_direction c.role))
          (new_decoder recv_key.key recv_key.nonce_salt (recv_direction c.role))

  abbrev pub next_envelope : Body → Connection → Envelope
  next_envelope body c = record {
    v = protocol_version;
    epoch = c.epoch;
    seq = c.seq;
    sender = c.outbound_from;
    body = body;
  }

  -- The sequence number has advanced also if `encode` throws.
  abbrev pub sent : Connection → FrameEncoder × Result FrameError Bytes → Step
  sent c (enc, err e) = (record c { encoder = some enc; seq = c.seq + 1 }, [], some (frame_error e))
  sent c (enc, ok frame) =
      (record c { encoder = some enc; seq = c.seq + 1 }, send_binary frame ∷ [], none)

  abbrev pub send_with : Body → Connection → Option FrameEncoder → Step
  send_with body c none = (c, [], some send_before_upgrade)
  send_with body c (some enc) =
      sent c (encode gcm enc (codec.print_envelope (next_envelope body c)))

  unfoldable pub send : Body → Connection → Step
  send body c = send_with body c c.encoder

  -- The loop of `#flush`, over what the inbox held.
  unfoldable pub flush_items : List InboxItem → Connection → Connection × List Output
  unfolding deliver
  flush_items [] c = (c, [])
  flush_items (item ∷ items) c = (
    (flush_items items (deliver item c).0).0,
    (deliver item c).1 ++ (flush_items items (deliver item c).0).1,
  )

  unfoldable pub flush : Connection → Connection × List Output
  unfolding flush_items
  flush c = flush_items c.inbox (record c { inbox = [] })
