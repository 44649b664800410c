-- ===== src/Net/RelayWire/Compat.antt =====
-- The two halves of the relay's wire format, src/main/net/relay-wire.ts and server/src/wire.ts, against
-- each other: what either side sends, the other side reads.
use mathlib.Core.Option
use screen_sharing.Prelude.{
  ℕ, suc, ◌<◌, ◌^◌, ◌≤◌, ◌≡◌, refl, Bool, true, false, Option, none, some, [], ◌∷◌, ◌++◌, length,
  ltb, arith, every,
}
use screen_sharing.Prelude.Bytes.{
  Bytes, be_bytes, write_uint32_be_fits, write_uint32_be_throws, read_uint32_be-tagged,
}
use screen_sharing.Prelude.Text.{JsString, units, js_string_eq}
use screen_sharing.Prelude.Json.{Json}
use screen_sharing.Prelude.Dictionary.{get}
use screen_sharing.Relay.Wire
use screen_sharing.Relay.Wire.{
  RejectReason, reason_text, HelloSchema, MeetsHelloSchema, is_hex_digit,
}
use screen_sharing.Net.RelayWire
use screen_sharing.Net.RelayWire.{
  RelayControl, ready, peer_up, peer_down, payload_frame, reject, host_gone, host_claimed, pong,
  encode_data_h, encode_data_p, encode_kick, encode_hello, decode_relay_frame, decode_json_body,
  RelayHelloFields, RelayRole,
}

pub encode_data_h_lem :
    (id : ℕ) (b : Bool) (p : Bytes)
    → id < 2 ^ 32
    → encode_data_h id b p ≡ some (0x10 ∷ (be_bytes 4 id ++ (RelayWire.flag b ∷ p)))
unfolding encode_data_h
encode_data_h_lem id b p h = rw (write_uint32_be_fits id h)

pub decode_data_from_host_lem :
    (id : ℕ) (b : Bool) (p : Bytes)
    → id < 2 ^ 32
    → Wire.decode_data_from_host (0x10 ∷ (be_bytes 4 id ++ (RelayWire.flag b ∷ p)))
      ≡ some (record { conn_id = id; is_binary = b; payload = p })
decode_data_from_host_lem id true p h =
    let e = read_uint32_be-tagged 0x10 id (1 ∷ p) h in
    unfold Wire.decode_data_from_host be_bytes in ground arith
decode_data_from_host_lem id false p h =
    let e = read_uint32_be-tagged 0x10 id (0 ∷ p) h in
    unfold Wire.decode_data_from_host be_bytes in ground arith

decode_relay_frame_data_h :
    (json : Json) (id : ℕ) (b : Bool) (p : Bytes)
    → id < 2 ^ 32
    → decode_relay_frame json (0x10 ∷ (be_bytes 4 id ++ (RelayWire.flag b ∷ p)))
      ≡ some (payload_frame (some id) b p)
decode_relay_frame_data_h json id true p h =
    let e = read_uint32_be-tagged 0x10 id (1 ∷ p) h in
    unfold decode_relay_frame be_bytes in ground arith
decode_relay_frame_data_h json id false p h =
    let e = read_uint32_be-tagged 0x10 id (0 ∷ p) h in
    unfold decode_relay_frame be_bytes in ground arith

pub decode_relay_frame_data_p :
    (json : Json) (b : Bool) (p : Bytes)
    → decode_relay_frame json (0x11 ∷ RelayWire.flag b ∷ p) ≡ some (payload_frame none b p)
unfolding decode_relay_frame
decode_relay_frame_data_p json true p = ground arith
decode_relay_frame_data_p json false p = ground arith

-- Host to peer: for a connection id below 2^32, what the host's link writes with `encodeDataH` the relay
-- reads with `decodeDataFromHost` as that id, flag and payload, and what it then writes with `dataToPeer`
-- the peer's link reads as a data frame with no id and the same flag and payload.
pub host_to_peer :
    (json : Json) (id : ℕ) (b : Bool) (p : Bytes)
    → id < 2 ^ 32
    → (buf : Bytes) × (encode_data_h id b p ≡ some buf)
      × (Wire.decode_data_from_host buf
          ≡ some (record { conn_id = id; is_binary = b; payload = p }))
      × (decode_relay_frame json (Wire.data_to_peer b p) ≡ some (payload_frame none b p))
unfolding Wire.data_to_peer
host_to_peer json id b p h = (
  0x10 ∷ (be_bytes 4 id ++ (RelayWire.flag b ∷ p)),
  encode_data_h_lem id b p h,
  decode_data_from_host_lem id b p h,
  decode_relay_frame_data_p json b p,
)

decode_data_from_peer_lem :
    (b : Bool) (p : Bytes)
    → Wire.decode_data_from_peer (0x11 ∷ RelayWire.flag b ∷ p)
      ≡ some (record { is_binary = b; payload = p })
unfolding Wire.decode_data_from_peer
decode_data_from_peer_lem true p = ground arith
decode_data_from_peer_lem false p = ground arith

-- Peer to host: what the peer's link writes with `encodeDataP` the relay reads with
-- `decodeDataFromPeer`, and for a connection id below 2^32 what it then writes with `dataToHost` the
-- host's link reads as a data frame with that id and the same flag and payload.
pub peer_to_host :
    (json : Json) (id : ℕ) (b : Bool) (p : Bytes)
    → id < 2 ^ 32
    → (Wire.decode_data_from_peer (encode_data_p b p)
        ≡ some (record { is_binary = b; payload = p }))
      × ((buf : Bytes) × (Wire.data_to_host id b p ≡ some buf)
          × (decode_relay_frame json buf ≡ some (payload_frame (some id) b p)))
unfolding encode_data_p Wire.data_to_host
peer_to_host json id b p h = (
  decode_data_from_peer_lem b p,
  (
    0x10 ∷ (be_bytes 4 id ++ (RelayWire.flag b ∷ p)),
    rw (write_uint32_be_fits id h),
    decode_relay_frame_data_h json id b p h,
  ),
)

pub decode_kick_lem : (id : ℕ) → id < 2 ^ 32 → Wire.decode_kick (0x07 ∷ be_bytes 4 id) ≡ some id
unfolding Wire.decode_kick
decode_kick_lem id h = let e = read_uint32_be-tagged 0x07 id [] h in unfold be_bytes in ground arith

-- The relay reads the kick that a host's link writes: for an id below 2^32 `decodeKick` returns the id
-- given to `encodeKick`, and at 2^32 and above `encodeKick` throws.
pub decode_kick-encode_kick :
    (id : ℕ)
    → (id < 2 ^ 32 → (buf : Bytes) × (encode_kick id ≡ some buf) × (Wire.decode_kick buf ≡ some id))
      × (2 ^ 32 ≤ id → encode_kick id ≡ none)
unfolding encode_kick
decode_kick-encode_kick id = (
  λ h. (0x07 ∷ be_bytes 4 id, rw (write_uint32_be_fits id h), decode_kick_lem id h),
  λ h. rw (write_uint32_be_throws id h),
)

-- What the relay's eight control messages mean to a client: a READY carries the peer's connection id, or
-- the host's token, and nothing else; the others carry what they were built from.
pub decode_relay_frame-control :
    (json : Json) (id : ℕ) (token : JsString) (reason : RejectReason)
    → (decode_relay_frame json (Wire.ready_peer json id) ≡ some (ready (some id) none))
      × (decode_relay_frame json (Wire.ready_host json token) ≡ some (ready none (some token)))
      × (decode_relay_frame json (Wire.reject json reason) ≡ some (reject (reason_text reason)))
      × (decode_relay_frame json (Wire.peer_up json id) ≡ some (peer_up id))
      × (decode_relay_frame json (Wire.peer_down json id) ≡ some (peer_down id))
      × (decode_relay_frame json Wire.host_gone ≡ some host_gone)
      × (decode_relay_frame json Wire.host_claimed ≡ some host_claimed)
      × (decode_relay_frame json Wire.pong ≡ some pong)
unfolding decode_relay_frame Wire.ready_peer Wire.ready_host Wire.reject Wire.peer_up Wire.peer_down
    get
decode_relay_frame-control json id token reason = (
  rw json.parse-stringify,
  rw json.parse-stringify,
  rw (json.parse-stringify, json.to_string-text),
  rw json.parse-stringify,
  rw json.parse-stringify,
  refl,
  refl,
  refl,
)

-- The Hello that the relay should see for the fields that a client sends.
abbrev server_role : RelayRole → Wire.Role
server_role RelayRole.host = Wire.Role.host
server_role RelayRole.peer = Wire.Role.peer

-- A token that the client sends: the empty one is left out.
abbrev sent_token : Option JsString → Option JsString
sent_token none = none
sent_token (some []) = none
sent_token (some (c ∷ s)) = some (c ∷ s)

abbrev pub ShortToken : Option JsString → Type 0
ShortToken none = Unit {0}
ShortToken (some s) = length s ≤ 64

abbrev pub hello_seen : RelayHelloFields → Wire.Hello
hello_seen f = record {
  role = server_role f.role;
  room_id = f.room_id;
  app = f.app;
  proto = 1;
  host_token = sent_token f.host_token;
}

role_text_lem : (r : RelayRole) → RelayWire.role_text r ≡ Wire.role_text (server_role r)
role_text_lem RelayRole.host = refl
role_text_lem RelayRole.peer = refl

host_token_meets :
    (t : Option JsString)
    → ShortToken t
    → Wire.HelloTokenMeets (sent_token t) (get (units "hostToken") (RelayWire.token_field t))
unfolding get
host_token_meets none h = refl
host_token_meets (some []) h = refl
host_token_meets (some (c ∷ s)) h = (refl, ground arith)

hello_fields-MeetsHelloSchema :
    (f : RelayHelloFields)
    → every is_hex_digit f.room_id ≡ true
    → length f.room_id ≡ 8
    → length f.app ≤ 32
    → ShortToken f.host_token
    → MeetsHelloSchema (RelayWire.hello_fields f) (hello_seen f)
unfolding get
hello_fields-MeetsHelloSchema f hex len app token = record {
  role_ok = rw (role_text_lem f.role);
  room_id_ok = refl;
  room_id_hex = hex;
  room_id_length = len;
  app_ok = refl;
  app_max = ground arith;
  proto_ok = refl;
  host_token_ok = host_token_meets f.host_token token;
}

-- The relay's `decodeHello` accepts the HELLO that a client's `encodeHello` writes, with the same role,
-- room, app and token (an empty token counts as none) and protocol version 1: for a room id of eight hex
-- digits, an app of at most 32 and a token of at most 64 code units.
pub decode_hello-encode_hello :
    (json : Json) (schema : HelloSchema) (f : RelayHelloFields)
    → every is_hex_digit f.room_id ≡ true
    → length f.room_id ≡ 8
    → length f.app ≤ 32
    → ShortToken f.host_token
    → Wire.decode_hello json schema (encode_hello json f) ≡ some (hello_seen f)
unfolding Wire.decode_hello encode_hello Option.bind
decode_hello-encode_hello json schema f hex len app token =
    let e = json.parse-stringify (RelayWire.hello_fields f) in
    let a =
      schema.accepts (RelayWire.hello_fields f) (hello_seen f)
        (hello_fields-MeetsHelloSchema f hex len app token) in
    rw (long, e) a
  where
    long : (ltb (suc (length (json.stringify (RelayWire.hello_fields f)))) 2) ≡ false
    long = ground (arith, json.stringify_nonempty (RelayWire.hello_fields f))
