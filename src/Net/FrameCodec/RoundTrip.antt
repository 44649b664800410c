-- ===== src/Net/FrameCodec/RoundTrip.antt =====
-- What an encoder frames, a decoder in step with it reads; one message at a time and over a stream.
use screen_sharing.Prelude.{
  ℕ, ◌+◌, ◌^◌, ◌≤◌, ◌<◌, ◌≡◌, refl, true, false, some, [], ◌∷◌, ◌++◌, length, take, drop, ok, arith,
  length-append, length-take, length-drop, ==_self,
}
use screen_sharing.Prelude.Bytes.{
  Bytes, byte_is, be_bytes, length-be_bytes, read_uint_be, read_uint_be-be_bytes,
}
use screen_sharing.Crypto.Aead.{Gcm}
use screen_sharing.Crypto.Aead.Laws.{sealed_form, length-sealed_form, seal_lem, open_sealed-seal}
use screen_sharing.Net.FrameCodec.{
  FrameEncoder, FrameDecoder, Direction, direction_byte, max_plaintext_bytes, header, nonce, encode,
  decode, open_frame, not_advanced,
}

-- Both ends of one direction: the same keys, and the next counter not yet seen.
pub record InStep (enc : FrameEncoder) (dec : FrameDecoder) : Type 0 where
  pub same_key : dec.key ≡ enc.key
  pub same_salt : dec.salt ≡ enc.salt
  pub same_direction : dec.expected_direction ≡ enc.direction
  pub key_length : length enc.key ≡ 32
  pub salt_length : 4 ≤ length enc.salt
  pub fresh : not_advanced enc.counter dec.last_counter ≡ false

length-nonce : (salt c : Bytes) → 4 ≤ length salt → length c ≡ 8 → length (nonce salt c) ≡ 12
unfolding nonce
length-nonce salt c h k =
    omega (arith, length-append (take 4 salt) (take 8 c), length-take 4 salt, length-take 8 c)

-- The nonce and the frame of the encoder's next message.
abbrev pub frame_nonce : FrameEncoder → Bytes
frame_nonce enc = nonce enc.salt (drop 2 (header enc.direction enc.counter))

abbrev pub frame_of : Gcm → FrameEncoder → Bytes → Bytes
frame_of gcm enc p =
    header enc.direction enc.counter
    ++ sealed_form gcm enc.key (frame_nonce enc) (header enc.direction enc.counter) p

length-header : (d : Direction) (c : ℕ) → length (header d c) ≡ 10
unfolding header
length-header d c = omega (arith, length-be_bytes 8 c)

length-frame_nonce : (enc : FrameEncoder) → 4 ≤ length enc.salt → length (frame_nonce enc) ≡ 12
length-frame_nonce enc h = length-nonce enc.salt (drop 2 (header enc.direction enc.counter)) h (
    omega (
      arith,
      length-drop 2 (header enc.direction enc.counter),
      length-header enc.direction enc.counter,
    ))

module _ (gcm : Gcm) (enc : FrameEncoder) (p : Bytes) where
  pub encode_lem :
      length enc.key ≡ 32
      → 4 ≤ length enc.salt
      → enc.counter < 2 ^ 64
      → length p ≤ max_plaintext_bytes
      → encode gcm enc p ≡ (record enc { counter = enc.counter + 1 }, ok (frame_of gcm enc p))
  unfolding encode
  encode_lem key_ok salt_ok fits small = ground (
    arith,
    seal_lem gcm enc.key (frame_nonce enc) (header enc.direction enc.counter) p key_ok
        (length-frame_nonce enc salt_ok),
  )

  counter_read : enc.counter < 2 ^ 64 → read_uint_be 8 (frame_of gcm enc p) 2 ≡ some enc.counter
  unfolding header
  counter_read fits =
      read_uint_be-be_bytes 8 enc.counter (1 ∷ direction_byte enc.direction ∷ []) _ fits

  -- The decoder cuts a frame where the encoder joined it.
  frame_parts :
      (take 10 (frame_of gcm enc p) ≡ header enc.direction enc.counter)
      × (drop 10 (frame_of gcm enc p)
          ≡ sealed_form gcm enc.key (frame_nonce enc) (header enc.direction enc.counter) p)
      × (take 8 (drop 2 (frame_of gcm enc p)) ≡ drop 2 (header enc.direction enc.counter))
      × (byte_is (frame_of gcm enc p) 0 1 ≡ true)
      × (byte_is (frame_of gcm enc p) 1 (direction_byte enc.direction) ≡ true)
  unfolding header be_bytes
  frame_parts = (refl, refl, refl, refl, ==_self (direction_byte enc.direction))

  pub length-frame_of : 26 ≤ length (frame_of gcm enc p)
  length-frame_of = omega (
    arith,
    length-append (header enc.direction enc.counter)
        (sealed_form gcm enc.key (frame_nonce enc) (header enc.direction enc.counter) p),
    length-header enc.direction enc.counter,
    length-sealed_form gcm enc.key (frame_nonce enc) (header enc.direction enc.counter) p,
  )

module _ (gcm : Gcm) (enc : FrameEncoder) (dec : FrameDecoder) (p : Bytes)
    (s : InStep enc dec) where
  open_frame_lem : open_frame gcm dec (frame_of gcm enc p) ≡ ok p
  unfolding open_frame
  open_frame_lem = rw (
    s.same_key,
    s.same_salt,
    (frame_parts gcm enc p).0,
    (frame_parts gcm enc p).1,
    (frame_parts gcm enc p).2,
    open_sealed-seal gcm enc.key (frame_nonce enc) (header enc.direction enc.counter) p s.key_length
        (length-frame_nonce enc s.salt_length),
  )

  pub decode_lem :
      enc.counter < 2 ^ 64
      → length p ≤ max_plaintext_bytes
      → decode gcm dec (frame_of gcm enc p) ≡ (record dec { last_counter = some enc.counter }, ok p)
  unfolding decode
  decode_lem fits small = ground (
    arith,
    s.same_direction,
    s.fresh,
    length-frame_of gcm enc p,
    (frame_parts gcm enc p).3,
    rw (← s.same_direction) at ((frame_parts gcm enc p).4),
    counter_read gcm enc p fits,
    open_frame_lem,
  )

-- For an encoder and a decoder in step, a counter below 2^64 and a plaintext of at most 256 KiB:
-- `encode` frames the plaintext, `decode` returns it, and both ends are in step again afterwards.
pub decode-encode :
    (gcm : Gcm) (enc : FrameEncoder) (dec : FrameDecoder) (p : Bytes)
    → InStep enc dec
    → enc.counter < 2 ^ 64
    → length p ≤ max_plaintext_bytes
    → (frame : Bytes) × (encode gcm enc p ≡ (record enc { counter = enc.counter + 1 }, ok frame))
      × (decode gcm dec frame ≡ (record dec { last_counter = some enc.counter }, ok p))
      × InStep
          (record enc { counter = enc.counter + 1 })
          (record dec { last_counter = some enc.counter })
decode-encode gcm enc dec p s fits small = (
  frame_of gcm enc p,
  encode_lem gcm enc p s.key_length s.salt_length fits small,
  decode_lem gcm enc dec p s fits small,
  record {
    same_key = s.same_key;
    same_salt = s.same_salt;
    same_direction = s.same_direction;
    key_length = s.key_length;
    salt_length = s.salt_length;
    fresh = ground arith;
  },
)
