-- ===== src/Net/FrameCodec/Stream.antt =====
-- A whole stream of messages through one direction of a session.
use mathlib.Core.Option
use screen_sharing.Prelude.{
  ◌+◌, ◌^◌, ◌≤◌, ◌≡◌, refl, Option, none, some, List, [], ◌∷◌, length, ok, err, arith, All,
}
use screen_sharing.Prelude.Bytes.{Bytes}
use screen_sharing.Crypto.Aead.{Gcm}
use screen_sharing.Net.FrameCodec.{FrameEncoder, FrameDecoder, max_plaintext_bytes, encode, decode}
use screen_sharing.Net.FrameCodec.RoundTrip.{InStep, decode-encode}

module _ (gcm : Gcm) where
  -- The frames of successive messages; `none` if one of them throws.
  unfoldable pub encode_all : FrameEncoder → List Bytes → Option (List Bytes)
  encode_all enc [] = some []
  encode_all enc (p ∷ ps) = elim (encode gcm enc p).1 [
    | err e ↦ none
    | ok frame ↦ Option.map (λ frames. frame ∷ frames) (encode_all (encode gcm enc p).0 ps)
  ]

  unfoldable pub decode_all : FrameDecoder → List Bytes → Option (List Bytes)
  decode_all dec [] = some []
  decode_all dec (frame ∷ frames) = elim (decode gcm dec frame).1 [
    | err e ↦ none
    | ok p ↦ Option.map (λ ps. p ∷ ps) (decode_all (decode gcm dec frame).0 frames)
  ]

module _ (gcm : Gcm) where
  encode_all_step :
      (enc enc' : FrameEncoder) (p frame : Bytes) (ps frames : List Bytes)
      → encode gcm enc p ≡ (enc', ok frame)
      → encode_all gcm enc' ps ≡ some frames
      → encode_all gcm enc (p ∷ ps) ≡ some (frame ∷ frames)
  unfolding encode_all
  encode_all_step enc enc' p frame ps frames e h = ground arith

  decode_all_step :
      (dec dec' : FrameDecoder) (p frame : Bytes) (ps frames : List Bytes)
      → decode gcm dec frame ≡ (dec', ok p)
      → decode_all gcm dec' frames ≡ some ps
      → decode_all gcm dec (frame ∷ frames) ≡ some (p ∷ ps)
  unfolding decode_all
  decode_all_step dec dec' p frame ps frames e h = ground arith

-- A stream of messages, each of at most 256 KiB, through ends in step whose counter does not pass 2^64:
-- the encoder frames all of them, and the decoder returns exactly these messages in this order.
pub decode_all-encode_all :
    (gcm : Gcm) (ps : List Bytes) (enc : FrameEncoder) (dec : FrameDecoder)
    → InStep enc dec
    → enc.counter + length ps ≤ 2 ^ 64
    → All (λ p. length p ≤ max_plaintext_bytes) ps
    → (frames : List Bytes) × (encode_all gcm enc ps ≡ some frames)
      × (decode_all gcm dec frames ≡ some ps)
unfolding encode_all decode_all
decode_all-encode_all gcm [] enc dec s fits small = ([], refl, refl)
decode_all-encode_all gcm (p ∷ ps) enc dec s fits (small, rest) =
    let (frame, sent, got, s') = decode-encode gcm enc dec p s (omega arith) small in
    let (frames, all_sent, all_got) = decode_all-encode_all gcm ps _ _ s' (omega arith) rest in
    (
      frame ∷ frames,
      encode_all_step gcm enc _ p frame ps frames sent all_sent,
      decode_all_step gcm dec _ p frame ps frames got all_got,
    )
