-- ===== src/Net/FrameCodec.antt =====
-- src/main/net/frame-codec.ts: the authenticated frames of the control plane.
pub mod RoundTrip
pub mod Stream
pub mod Replay
use screen_sharing.Prelude.{
  ℕ, ◌+◌, ◌*◌, ◌-◌, ◌^◌, ◌≡◌, Bool, true, false, not, ◌||◌, Option, none, some, List, [], ◌∷◌, ◌++◌,
  ltb, leb, ◌==◌, if◌then◌else◌, length, take, drop, Result, ok, err, map_err, map_ok, ◌>>=◌,
}
use screen_sharing.Prelude.Bytes.{Bytes, be_bytes, byte_is, read_uint_be, subarray}
use screen_sharing.Crypto.Aead.{Gcm, AeadError, seal, open_sealed}

abbrev pub frame_version : ℕ
frame_version = 1

abbrev pub header_bytes : ℕ
header_bytes = 10

abbrev pub max_plaintext_bytes : ℕ
max_plaintext_bytes = 256 * 1024

pub data Direction : Type 0 where
  client_to_server server_to_client : Direction

abbrev pub direction_byte : Direction → ℕ
direction_byte client_to_server = 1
direction_byte server_to_client = 2

pub data FrameError : Type 0 where
  salt_too_short plaintext_too_long counter_exhausted : FrameError
  frame_too_short unknown_version unexpected_direction replay decoded_too_long : FrameError
  aead : AeadError → FrameError

abbrev pub max_u64 : ℕ
max_u64 = 2 ^ 64 - 1

unfoldable pub header : Direction → ℕ → Bytes
header direction counter = frame_version ∷ direction_byte direction ∷ be_bytes 8 counter

unfoldable pub nonce : Bytes → Bytes → Bytes
nonce nonce_salt counter_bytes = take 4 nonce_salt ++ take 8 counter_bytes

pub record FrameEncoder : Type 0 where
  pub key : Bytes
  pub salt : Bytes
  pub direction : Direction
  pub counter : ℕ

-- `last_counter` is `none` for -1n.
pub record FrameDecoder : Type 0 where
  pub key : Bytes
  pub salt : Bytes
  pub expected_direction : Direction
  pub last_counter : Option ℕ

unfoldable pub new_encoder : Bytes → Bytes → Direction → Result FrameError FrameEncoder
new_encoder key nonce_salt direction =
    if ltb (length nonce_salt) 4
    then err salt_too_short
    else ok (record { key = key; salt = nonce_salt; direction = direction; counter = 0 })

unfoldable pub new_decoder : Bytes → Bytes → Direction → Result FrameError FrameDecoder
new_decoder key nonce_salt direction =
    if ltb (length nonce_salt) 4
    then err salt_too_short
    else ok (record {
      key = key;
      salt = nonce_salt;
      expected_direction = direction;
      last_counter = none;
    })

-- `counter <= this.#lastCounter`
abbrev pub not_advanced : ℕ → Option ℕ → Bool
not_advanced counter none = false
not_advanced counter (some last) = leb counter last

module _ (gcm : Gcm) where
  -- The counter advances before `seal` runs, so it has advanced also if `seal` throws.
  unfoldable pub encode : FrameEncoder → Bytes → FrameEncoder × Result FrameError Bytes
  encode enc plaintext =
      if ltb max_plaintext_bytes (length plaintext)
      then (enc, err plaintext_too_long)
      else if ltb max_u64 enc.counter
      then (enc, err counter_exhausted)
      else (
        record enc { counter = enc.counter + 1 },
        map_ok (λ sealed. header enc.direction enc.counter ++ sealed)
            (map_err aead (
              seal gcm enc.key (nonce enc.salt (drop 2 (header enc.direction enc.counter)))
                plaintext (header enc.direction enc.counter))),
      )

  -- The plaintext of a frame whose header has been accepted.
  unfoldable pub open_frame : FrameDecoder → Bytes → Result FrameError Bytes
  open_frame dec buf = map_err aead (
      open_sealed gcm dec.key (nonce dec.salt (subarray buf 2 header_bytes)) (drop header_bytes buf)
        (take header_bytes buf))

  -- The decoder after a plaintext was opened, and the result.
  abbrev finish :
      FrameDecoder → ℕ → Result FrameError Bytes → FrameDecoder × Result FrameError Bytes
  finish dec counter (err e) = (dec, err e)
  finish dec counter (ok plaintext) =
      if ltb max_plaintext_bytes (length plaintext)
      then (dec, err decoded_too_long)
      else (record dec { last_counter = some counter }, ok plaintext)

  -- `readBigUInt64BE(2)`, which cannot read past the end of a frame of 26 bytes or more.
  abbrev decode_counter : FrameDecoder → Bytes → Option ℕ → FrameDecoder × Result FrameError Bytes
  decode_counter dec frame none = (dec, err frame_too_short)
  decode_counter dec frame (some counter) =
      if not_advanced counter dec.last_counter
      then (dec, err replay)
      else finish dec counter (open_frame dec frame)

  unfoldable pub decode : FrameDecoder → Bytes → FrameDecoder × Result FrameError Bytes
  decode dec frame =
      if ltb (length frame) (header_bytes + 16)
      then (dec, err frame_too_short)
      else if not (byte_is frame 0 frame_version)
      then (dec, err unknown_version)
      else if not (byte_is frame 1 (direction_byte dec.expected_direction))
      then (dec, err unexpected_direction)
      else decode_counter dec frame (read_uint_be 8 frame 2)
