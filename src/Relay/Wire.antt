-- ===== src/Relay/Wire.antt =====
-- server/src/wire.ts: the relay's half of its wire format. A function that throws in Node, because a
-- connection id does not fit in 32 bits, answers `none`.
pub mod Tag
use mathlib.Core.Option
use screen_sharing.Prelude.{
  ℕ, ◌≡◌, Bool, true, false, not, ◌||◌, Option, none, some, List, [], ◌∷◌, ◌++◌, ltb, leb, ◌==◌,
  if◌then◌else◌, length, drop, every, ◌&&◌,
}
use screen_sharing.Prelude.Dictionary.{get}
use screen_sharing.Prelude.Bytes.{Bytes, byte_is, write_uint32_be, read_uint_be}
use screen_sharing.Prelude.Text.{JsString, units, js_string_eq}
use screen_sharing.Prelude.Json.{Json, JsonValue, Fields, Scalar, number, text, object}
use Tag

abbrev pub relay_protocol_version : ℕ
relay_protocol_version = 1

pub data Role : Type 0 where
  host peer : Role

pub record Hello : Type 0 where
  pub role : Role
  pub room_id : JsString
  pub app : JsString
  pub proto : ℕ
  pub host_token : Option JsString

pub data RejectReason : Type 0 where
  room_exists no_such_room host_absent room_full : RejectReason
  rate_limited bad_hello proto_mismatch server_full : RejectReason

abbrev pub reason_text : RejectReason → JsString
reason_text room_exists = units "room_exists"
reason_text no_such_room = units "no_such_room"
reason_text host_absent = units "host_absent"
reason_text room_full = units "room_full"
reason_text rate_limited = units "rate_limited"
reason_text bad_hello = units "bad_hello"
reason_text proto_mismatch = units "proto_mismatch"
reason_text server_full = units "server_full"

abbrev pub role_text : Role → JsString
role_text host = units "host"
role_text peer = units "peer"

-- [0-9a-f]
abbrev pub is_hex_digit : ℕ → Bool
is_hex_digit c = leb b'0' c && leb c b'9' || leb b'a' c && leb c b'f'

abbrev pub HelloTokenMeets : Option JsString → Option Scalar → Type 0
HelloTokenMeets none v = v ≡ none
HelloTokenMeets (some s) v = (v ≡ some (text s)) × (leb (length s) 64 ≡ true)

-- What `helloSchema` asks of an object, and the Hello that it yields.
pub record MeetsHelloSchema (o : Fields) (h : Hello) : Type 0 where
  pub role_ok : get (units "role") o ≡ some (text (role_text h.role))
  pub room_id_ok : get (units "roomId") o ≡ some (text h.room_id)
  pub room_id_hex : every is_hex_digit h.room_id ≡ true
  pub room_id_length : length h.room_id ≡ 8
  pub app_ok : get (units "app") o ≡ some (text h.app)
  pub app_max : leb (length h.app) 32 ≡ true
  pub proto_ok : get (units "proto") o ≡ some (number h.proto)
  pub host_token_ok : HelloTokenMeets h.host_token (get (units "hostToken") o)

-- zod's `helloSchema.safeParse`.
pub record HelloSchema : Type 0 where
  pub safe_parse : JsonValue → Option Hello
  pub accepts : (o : Fields) (h : Hello) → MeetsHelloSchema o h → safe_parse (object o) ≡ some h

unfoldable pub decode_hello : Json → HelloSchema → Bytes → Option Hello
decode_hello json schema buf =
    if ltb (length buf) 2 || not (byte_is buf 0 Tag.hello)
    then none
    else Option.bind (json.parse (drop 1 buf)) schema.safe_parse

unfoldable pub json_frame : Json → ℕ → Fields → Bytes
json_frame json type obj = type ∷ json.stringify obj

module _ (json : Json) where
  -- `ready({ connId })` and `ready({ hostToken })`
  unfoldable pub ready_peer : ℕ → Bytes
  unfolding json_frame
  ready_peer conn_id = json_frame json Tag.ready ((units "connId", number conn_id) ∷ [])

  unfoldable pub ready_host : JsString → Bytes
  unfolding json_frame
  ready_host host_token = json_frame json Tag.ready ((units "hostToken", text host_token) ∷ [])

  unfoldable pub reject : RejectReason → Bytes
  unfolding json_frame
  reject reason = json_frame json Tag.reject ((units "reason", text (reason_text reason)) ∷ [])

  unfoldable pub peer_up : ℕ → Bytes
  unfolding json_frame
  peer_up conn_id = json_frame json Tag.peer_up ((units "connId", number conn_id) ∷ [])

  unfoldable pub peer_down : ℕ → Bytes
  unfolding json_frame
  peer_down conn_id = json_frame json Tag.peer_down ((units "connId", number conn_id) ∷ [])

abbrev pub host_gone : Bytes
host_gone = Tag.host_gone ∷ []

abbrev pub host_claimed : Bytes
host_claimed = Tag.host_claimed ∷ []

abbrev pub pong : Bytes
pong = Tag.pong ∷ []

pub record HostData : Type 0 where
  pub conn_id : ℕ
  pub is_binary : Bool
  pub payload : Bytes

pub record PeerData : Type 0 where
  pub is_binary : Bool
  pub payload : Bytes

-- host -> relay -> peer: strip the connId, deliver as DATA_P
unfoldable pub decode_data_from_host : Bytes → Option HostData
decode_data_from_host buf =
    if ltb (length buf) 6 || not (byte_is buf 0 Tag.data_h)
    then none
    else Option.map
        (λ id. record { conn_id = id; is_binary = byte_is buf 5 1; payload = drop 6 buf })
        (read_uint_be 4 buf 1)

-- peer -> relay -> host: add the connId, deliver as DATA_H
unfoldable pub decode_data_from_peer : Bytes → Option PeerData
decode_data_from_peer buf =
    if ltb (length buf) 2 || not (byte_is buf 0 Tag.data_p)
    then none
    else some (record { is_binary = byte_is buf 1 1; payload = drop 2 buf })

abbrev pub flag : Bool → ℕ
flag is_binary = if is_binary then 1 else 0

unfoldable pub data_to_peer : Bool → Bytes → Bytes
data_to_peer is_binary payload = Tag.data_p ∷ flag is_binary ∷ payload

unfoldable pub data_to_host : ℕ → Bool → Bytes → Option Bytes
data_to_host conn_id is_binary payload =
    Option.map (λ id. Tag.data_h ∷ (id ++ (flag is_binary ∷ payload))) (write_uint32_be conn_id)

unfoldable pub kick : ℕ → Option Bytes
kick conn_id = Option.map (λ id. Tag.kick ∷ id) (write_uint32_be conn_id)

unfoldable pub decode_kick : Bytes → Option ℕ
decode_kick buf =
    if ltb (length buf) 5 || not (byte_is buf 0 Tag.kick) then none else read_uint_be 4 buf 1

unfoldable pub is_handoff : Bytes → Bool
is_handoff buf = leb 1 (length buf) && byte_is buf 0 Tag.handoff
