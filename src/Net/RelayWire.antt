-- ===== src/Net/RelayWire.antt =====
-- src/main/net/relay-wire.ts: the clients' half of the relay's wire format. A function that throws in
-- Node, because a connection id does not fit in 32 bits, answers `none`.
pub mod Tag
pub mod Compat
use mathlib.Core.Option
use screen_sharing.Prelude.{
  ℕ, ◌≡◌, Bool, true, false, not, ◌||◌, Option, none, some, List, [], ◌∷◌, ◌++◌, ltb, leb, ◌==◌,
  if◌then◌else◌, length, drop,
}
use screen_sharing.Prelude.Dictionary.{get}
use screen_sharing.Prelude.Bytes.{Bytes, byte_is, write_uint32_be, read_uint_be}
use screen_sharing.Prelude.Text.{JsString, units, js_string_eq}
use screen_sharing.Prelude.Json.{
  Json, JsonValue, Fields, Scalar, number, text, null_scalar, other, object, null_value,
}
use Tag

abbrev pub relay_protocol_version : ℕ
relay_protocol_version = 1

pub data RelayRole : Type 0 where
  host peer : RelayRole

abbrev pub role_text : RelayRole → JsString
role_text host = units "host"
role_text peer = units "peer"

pub record RelayHelloFields : Type 0 where
  pub role : RelayRole
  pub room_id : JsString
  pub app : JsString
  pub host_token : Option JsString

-- `f.hostToken ? { hostToken: f.hostToken } : {}`: an empty token is falsy.
abbrev pub token_field : Option JsString → Fields
token_field none = []
token_field (some []) = []
token_field (some (c ∷ s)) = (units "hostToken", text (c ∷ s)) ∷ []

abbrev pub hello_fields : RelayHelloFields → Fields
hello_fields f =
    (units "role", text (role_text f.role))
    ∷ (units "roomId", text f.room_id)
    ∷ (units "app", text f.app)
    ∷ (units "proto", number relay_protocol_version)
    ∷ token_field f.host_token

unfoldable pub encode_hello : Json → RelayHelloFields → Bytes
encode_hello json f = Tag.hello ∷ json.stringify (hello_fields f)

pub data RelayControl : Type 0 where
  ready : (conn_id : Option ℕ) (host_token : Option JsString) → RelayControl
  reject : (reason : JsString) → RelayControl
  peer_up peer_down : (conn_id : ℕ) → RelayControl
  host_gone host_claimed pong : RelayControl
  payload_frame : (conn_id : Option ℕ) (is_binary : Bool) (payload : Bytes) → RelayControl

abbrev as_number : Option Scalar → Option ℕ
as_number none = none
as_number (some (number n)) = some n
as_number (some (text s)) = none
as_number (some null_scalar) = none
as_number (some (other k)) = none

abbrev as_text : Option Scalar → Option JsString
as_text none = none
as_text (some (number n)) = none
as_text (some (text s)) = some s
as_text (some null_scalar) = none
as_text (some (other k)) = none

-- `obj['reason'] ?? 'unknown'`
abbrev or_unknown : Option Scalar → Scalar
or_unknown none = text (units "unknown")
or_unknown (some null_scalar) = text (units "unknown")
or_unknown (some (number n)) = number n
or_unknown (some (text s)) = text s
or_unknown (some (other k)) = other k

abbrev peer_event : ℕ → Option ℕ → Option RelayControl
peer_event type none = none
peer_event type (some conn_id) =
    some (if type == Tag.peer_up then peer_up conn_id else peer_down conn_id)

-- The four types with a JSON body; a body that is no JSON, or `null`, is garbage.
unfoldable pub decode_json_body : Json → ℕ → Option JsonValue → Option RelayControl
decode_json_body json type none = none
decode_json_body json type (some null_value) = none
decode_json_body json type (some (object obj)) =
    if type == Tag.ready
    then some (ready (as_number (get (units "connId") obj)) (as_text (get (units "hostToken") obj)))
    else if type == Tag.reject
    then some (reject (json.to_string (or_unknown (get (units "reason") obj))))
    else peer_event type (as_number (get (units "connId") obj))

-- Parse one relay frame the client received; `none` on garbage.
unfoldable pub decode_relay_frame : Json → Bytes → Option RelayControl
unfolding decode_json_body
decode_relay_frame json [] = none
decode_relay_frame json (type ∷ rest) =
    let buf : Bytes = type ∷ rest in
    if type == Tag.ready || type == Tag.reject || type == Tag.peer_up || type == Tag.peer_down
    then decode_json_body json type (json.parse rest)
    else if type == Tag.host_gone
    then some host_gone
    else if type == Tag.host_claimed
    then some host_claimed
    else if type == Tag.pong
    then some pong
    else if type == Tag.data_h
    then (if ltb (length buf) 6
        then none
        else Option.map (λ id. payload_frame (some id) (byte_is buf 5 1) (drop 6 buf))
            (read_uint_be 4 buf 1))
    else if type == Tag.data_p
    then (if ltb (length buf) 2
        then none
        else some (payload_frame none (byte_is buf 1 1) (drop 2 buf)))
    else none

abbrev pub flag : Bool → ℕ
flag is_binary = if is_binary then 1 else 0

-- peer -> relay
unfoldable pub encode_data_p : Bool → Bytes → Bytes
encode_data_p is_binary payload = Tag.data_p ∷ flag is_binary ∷ payload

-- host -> relay
unfoldable pub encode_data_h : ℕ → Bool → Bytes → Option Bytes
encode_data_h conn_id is_binary payload =
    Option.map (λ id. Tag.data_h ∷ (id ++ (flag is_binary ∷ payload))) (write_uint32_be conn_id)

unfoldable pub encode_kick : ℕ → Option Bytes
encode_kick conn_id = Option.map (λ id. Tag.kick ∷ id) (write_uint32_be conn_id)

abbrev pub encode_ping : Bytes
encode_ping = Tag.ping ∷ []

-- host -> relay: "I'm leaving gracefully, hold this room for a successor"
abbrev pub encode_handoff : Bytes
encode_handoff = Tag.handoff ∷ []
