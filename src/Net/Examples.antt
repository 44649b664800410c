-- ===== src/Net/Examples.antt =====
-- Concrete frames, streams and hellos for the theorems on the frame codec and the relay's wire format.
use screen_sharing.Prelude.{
  ◌++◌, ℕ, ◌+◌, ◌^◌, ◌<◌, ◌≡◌, ◌≢◌, refl, Option, none, some, List, [], ◌∷◌, ok, err, arith,
  if◌then◌else◌,
}
use screen_sharing.Prelude.Bytes.{Bytes, be_bytes, length-be_bytes, read_uint_be, be_value}
use screen_sharing.Prelude.Text.{JsString, units, js_string_eq, str_eq}
use screen_sharing.Prelude.Dictionary.{get}
use screen_sharing.Prelude.Json.{
  JsonValue, Fields, Scalar, number, text, null_scalar, other, object, null_value,
}
use screen_sharing.Crypto.Aead
use screen_sharing.Crypto.Aead.{Gcm}
use screen_sharing.Relay.Wire
use screen_sharing.Relay.Wire.{HelloSchema, MeetsHelloSchema, Hello, Role, room_full}
use screen_sharing.Net.RelayWire
use screen_sharing.Net.RelayWire.{
  RelayHelloFields, encode_hello, encode_data_h, encode_data_p, encode_kick, decode_relay_frame,
  payload_frame, ready,
}
use screen_sharing.Net.FrameCodec
use screen_sharing.Net.FrameCodec.{
  FrameEncoder, FrameDecoder, FrameError, client_to_server, server_to_client, encode, decode,
  replay, unexpected_direction, not_advanced, header,
}
use screen_sharing.Net.FrameCodec.RoundTrip.{InStep, decode-encode, frame_of}
use screen_sharing.Net.FrameCodec.Stream.{encode_all, decode_all, decode_all-encode_all}
use screen_sharing.Net.FrameCodec.Replay.{
  decode_refuses_replay, decode_refuses_reflection, nonces_differ, encoder_after,
}

-- A cipher that leaves the plaintext as it is and has one constant tag.
abbrev plain_tag : Bytes
plain_tag = be_bytes 16 7

abbrev plain_gcm : Gcm
plain_gcm = record {
  encrypt = λ key nonce aad p. p;
  auth_tag = λ key nonce aad p. plain_tag;
  decrypt = λ key nonce aad body tag. some body;
  length-auth_tag = λ key nonce aad p. length-be_bytes 16 7;
  decrypt-encrypt = λ key nonce aad p. refl;
}

abbrev key : Bytes
key = be_bytes 32 5

abbrev salt : Bytes
salt = 9 ∷ 8 ∷ 7 ∷ 6 ∷ []

abbrev client : FrameEncoder
client = record { key = key; salt = salt; direction = client_to_server; counter = 3 }

abbrev server : FrameDecoder
server = record {
  key = key;
  salt = salt;
  expected_direction = client_to_server;
  last_counter = some 2;
}

abbrev reflecting : FrameDecoder
reflecting = record server { expected_direction = server_to_client }

abbrev hi : Bytes
hi = units "hi"

ends-InStep : InStep client server
ends-InStep = record {
  same_key = refl;
  same_salt = refl;
  same_direction = refl;
  key_length = length-be_bytes 32 5;
  salt_length = omega arith;
  fresh = refl;
}

decode-encode_example :
    (frame : Bytes) × (encode plain_gcm client hi ≡ (record client { counter = 3 + 1 }, ok frame))
    × (decode plain_gcm server frame ≡ (record server { last_counter = some 3 }, ok hi))
    × InStep (record client { counter = 3 + 1 }) (record server { last_counter = some 3 })
decode-encode_example =
    decode-encode plain_gcm client server hi ends-InStep (omega arith) (omega arith)

decode_all-encode_all_example :
    (frames : List Bytes) × (encode_all plain_gcm client (hi ∷ [] ∷ hi ∷ []) ≡ some frames)
    × (decode_all plain_gcm server frames ≡ some (hi ∷ [] ∷ hi ∷ []))
decode_all-encode_all_example =
    decode_all-encode_all plain_gcm (hi ∷ [] ∷ hi ∷ []) client server ends-InStep (omega arith)
      (omega arith, (omega arith, (omega arith, tt)))

-- The client's frame for `hi`.
abbrev hi_frame : Bytes
hi_frame = frame_of plain_gcm client hi

hi_encoded : (encode plain_gcm client hi).1 ≡ ok hi_frame
unfolding encode Aead.seal be_bytes FrameCodec.nonce FrameCodec.header
hi_encoded = refl

hi_decoded : decode plain_gcm server hi_frame ≡ (record server { last_counter = some 3 }, ok hi)
unfolding decode FrameCodec.header FrameCodec.open_frame Aead.open_sealed be_bytes read_uint_be
    be_value FrameCodec.nonce
hi_decoded = refl

decode_refuses_replay_example :
    decode plain_gcm (record server { last_counter = some 3 }) hi_frame
    ≡ (record server { last_counter = some 3 }, err replay)
decode_refuses_replay_example =
    decode_refuses_replay plain_gcm server (record server { last_counter = some 3 }) hi_frame hi
      hi_decoded

decode_refuses_reflection_example :
    decode plain_gcm reflecting hi_frame ≡ (reflecting, err unexpected_direction)
decode_refuses_reflection_example =
    decode_refuses_reflection plain_gcm client reflecting hi hi_frame hi_encoded refl

next_counter_fits : (encoder_after plain_gcm client (hi ∷ [])).counter < 2 ^ 64
unfolding encoder_after encode Aead.seal
next_counter_fits = omega arith

nonces_differ_example :
    let later = encoder_after plain_gcm client (hi ∷ []) in
    let aad = header client.direction client.counter in
    let aad' = header client.direction later.counter in
    (n : Bytes) × (n' : Bytes) × (n' ≢ n)
    × ((cipher : Gcm)
        → ((encode cipher client hi).1
            ≡ ok (
                aad ++ (cipher.encrypt client.key n aad hi ++ cipher.auth_tag client.key n aad hi)))
          × ((encode cipher later hi).1
              ≡ ok (
                  aad'
                  ++ (cipher.encrypt client.key n' aad' hi
                      ++ cipher.auth_tag client.key n' aad' hi))))
nonces_differ_example =
    nonces_differ plain_gcm client hi hi [] (length-be_bytes 32 5) (omega arith) (omega arith)
      (omega arith) next_counter_fits

-- A schema that accepts what `helloSchema` asks for.
as_role : Option Scalar → Option Role
as_role none = none
as_role (some (number n)) = none
as_role (some null_scalar) = none
as_role (some (other k)) = none
as_role (some (text s)) =
    if str_eq s (units "host")
    then some Role.host
    else if str_eq s (units "peer")
    then some Role.peer
    else none

as_text : Option Scalar → JsString
as_text none = []
as_text (some (number n)) = []
as_text (some null_scalar) = []
as_text (some (other k)) = []
as_text (some (text s)) = s

as_number : Option Scalar → ℕ
as_number none = 0
as_number (some (number n)) = n
as_number (some null_scalar) = 0
as_number (some (other k)) = 0
as_number (some (text s)) = 0

as_token : Option Scalar → Option JsString
as_token none = none
as_token (some (number n)) = none
as_token (some null_scalar) = none
as_token (some (other k)) = none
as_token (some (text s)) = some s

with_role : Fields → Option Role → Option Hello
unfolding as_text as_number as_token
with_role o none = none
with_role o (some role) = some (record {
  role = role;
  room_id = as_text (get (units "roomId") o);
  app = as_text (get (units "app") o);
  proto = as_number (get (units "proto") o);
  host_token = as_token (get (units "hostToken") o);
})

parse_hello : JsonValue → Option Hello
unfolding as_role with_role
parse_hello null_value = none
parse_hello (object o) = with_role o (as_role (get (units "role") o))

as_role_text : (r : Role) → as_role (some (text (Wire.role_text r))) ≡ some r
unfolding as_role
as_role_text Role.host = refl
as_role_text Role.peer = refl

as_token_met : (t : Option JsString) (v : Option Scalar) → Wire.HelloTokenMeets t v → as_token v ≡ t
unfolding as_token
as_token_met none v h = rw h refl
as_token_met (some s) v h = rw (h.0) refl

parse_hello_accepts :
    (o : Fields) (h : Hello) → MeetsHelloSchema o h → parse_hello (object o) ≡ some h
unfolding parse_hello with_role as_text as_number
parse_hello_accepts o h m =
    rw
      (
        m.role_ok,
        as_role_text h.role,
        m.room_id_ok,
        m.app_ok,
        m.proto_ok,
        as_token_met h.host_token (get (units "hostToken") o) m.host_token_ok,
      )
      refl

abbrev lenient_schema : HelloSchema
lenient_schema = record { safe_parse = parse_hello; accepts = parse_hello_accepts }

abbrev host_fields : RelayHelloFields
host_fields = record {
  role = RelayWire.RelayRole.host;
  room_id = units "0badcafe";
  app = units "screen-sharing";
  host_token = some (units "t0");
}
