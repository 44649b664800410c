-- ===== src/Net/FrameCodec/Replay.antt =====
-- What a decoder refuses, whatever bytes arrive, and why no nonce is used twice.
use mathlib.Core.List.{append_cancel_left}
use screen_sharing.Prelude.{
  ℕ, ◌+◌, ◌^◌, ◌≤◌, ◌<◌, ◌≡◌, ◌≢◌, refl, sym, true, false, some, List, [], ◌∷◌, ◌++◌, length, take,
  ok, err, arith, ◌∙◌, ap, take-all, subst, ap₂, Result,
}
use screen_sharing.Prelude.Bytes.{
  Bytes, byte_is, be_bytes, be_value, be_value-be_bytes, length-be_bytes, read_uint_be,
}
use screen_sharing.Crypto.Aead.{Gcm, seal}
use screen_sharing.Net.FrameCodec.{
  FrameEncoder, FrameDecoder, FrameError, Direction, direction_byte, client_to_server,
  server_to_client, header, nonce, encode, decode, max_plaintext_bytes, not_advanced, replay,
  unexpected_direction,
}
use screen_sharing.Net.FrameCodec.RoundTrip.{frame_of, frame_nonce, length-frame_of, encode_lem}
use screen_sharing.Crypto.Aead.Laws.{sealed_form}

-- Whatever bytes arrive: a frame that is accepted carries a counter above every earlier one, which
-- becomes the decoder's last counter; a frame that is refused leaves the decoder as it was.
pub decode_advances :
    (gcm : Gcm) (dec : FrameDecoder) (frame : Bytes)
    → ((p : Bytes)
        → (decode gcm dec frame).1 ≡ ok p
        → (c : ℕ) × (read_uint_be 8 frame 2 ≡ some c)
          × (not_advanced c dec.last_counter ≡ false)
          × ((decode gcm dec frame).0 ≡ record dec { last_counter = some c }))
      × ((e : FrameError) → (decode gcm dec frame).1 ≡ err e → (decode gcm dec frame).0 ≡ dec)
unfolding decode
decode_advances gcm dec frame = (λ p h. ground arith, λ e h. ground arith)

-- A frame that was accepted is refused as a replay if it arrives again.
pub decode_refuses_replay :
    (gcm : Gcm) (dec dec' : FrameDecoder) (frame p : Bytes)
    → decode gcm dec frame ≡ (dec', ok p)
    → decode gcm dec' frame ≡ (dec', err replay)
unfolding decode
decode_refuses_replay gcm dec dec' frame p h = ground arith

abbrev pub opposite : Direction → Direction
opposite client_to_server = server_to_client
opposite server_to_client = client_to_server

encode_frame :
    (gcm : Gcm) (enc : FrameEncoder) (p frame : Bytes)
    → (encode gcm enc p).1 ≡ ok frame
    → frame ≡ frame_of gcm enc p
unfolding encode seal
encode_frame gcm enc p frame h = ground arith

first_bytes :
    (gcm : Gcm) (enc : FrameEncoder) (p : Bytes)
    → (byte_is (frame_of gcm enc p) 0 1 ≡ true)
      × (byte_is (frame_of gcm enc p) 1 (direction_byte (opposite enc.direction)) ≡ false)
unfolding header
first_bytes gcm enc p = (refl, ground arith)

-- What an encoder frames is refused, with the decoder unchanged, by every decoder that expects the other
-- direction, whatever its keys and counter: a frame cannot be reflected to its sender.
pub decode_refuses_reflection :
    (gcm : Gcm) (enc : FrameEncoder) (dec : FrameDecoder) (p frame : Bytes)
    → (encode gcm enc p).1 ≡ ok frame
    → dec.expected_direction ≡ opposite enc.direction
    → decode gcm dec frame ≡ (dec, err unexpected_direction)
unfolding decode
decode_refuses_reflection gcm enc dec p frame h d = rw (encode_frame gcm enc p frame h) (
    ground
      (arith, d, length-frame_of gcm enc p, (first_bytes gcm enc p).0, (first_bytes gcm enc p).1))

-- The encoder after a list of messages, whether they were framed or refused.
unfoldable pub encoder_after : Gcm → FrameEncoder → List Bytes → FrameEncoder
encoder_after gcm enc [] = enc
encoder_after gcm enc (p ∷ ps) = encoder_after gcm (encode gcm enc p).0 ps

encode_counter :
    (gcm : Gcm) (enc : FrameEncoder) (p : Bytes)
    → (enc.counter ≤ (encode gcm enc p).0.counter)
      × ((encode gcm enc p).0.salt ≡ enc.salt)
      × ((encode gcm enc p).0.key ≡ enc.key)
      × ((encode gcm enc p).0.direction ≡ enc.direction)
unfolding encode
encode_counter gcm enc p = (ground arith, ground arith, ground arith, ground arith)

encoder_after_counter :
    (gcm : Gcm) (enc : FrameEncoder) (ps : List Bytes)
    → (enc.counter ≤ (encoder_after gcm enc ps).counter)
      × ((encoder_after gcm enc ps).salt ≡ enc.salt)
      × ((encoder_after gcm enc ps).key ≡ enc.key)
      × ((encoder_after gcm enc ps).direction ≡ enc.direction)
unfolding encoder_after
encoder_after_counter gcm enc [] = (omega arith, refl, refl, refl)
encoder_after_counter gcm enc (p ∷ ps) =
    let (grows, salt, key, direction) = encode_counter gcm enc p in
    let (grows', salt', key', direction') = encoder_after_counter gcm (encode gcm enc p).0 ps in
    (omega arith, salt' ∙ salt, key' ∙ key, direction' ∙ direction)

take_all_of : (n : ℕ) (xs : Bytes) → length xs ≡ n → take n xs ≡ xs
take_all_of n xs e = rw (← e) (take-all xs)

-- The nonce determines the counter.
frame_nonce-counter :
    (a b : FrameEncoder)
    → b.salt ≡ a.salt
    → a.counter < 2 ^ 64
    → b.counter < 2 ^ 64
    → frame_nonce b ≡ frame_nonce a
    → b.counter ≡ a.counter
unfolding nonce header
frame_nonce-counter a b s fa fb e =
    sym (be_value-be_bytes 8 b.counter fb)
    ∙ ap (be_value 0) (sym (whole b.counter) ∙ counters ∙ whole a.counter)
    ∙ be_value-be_bytes 8 a.counter fa
  where
    whole : (c : ℕ) → take 8 (be_bytes 8 c) ≡ be_bytes 8 c
    whole c = take_all_of 8 (be_bytes 8 c) (length-be_bytes 8 c)

    moved :
        take 4 a.salt ++ take 8 (be_bytes 8 b.counter)
        ≡ take 4 a.salt ++ take 8 (be_bytes 8 a.counter)
    moved = ap (λ l. take 4 l ++ take 8 (be_bytes 8 b.counter)) (sym s) ∙ e

    counters : take 8 (be_bytes 8 b.counter) ≡ take 8 (be_bytes 8 a.counter)
    counters = append_cancel_left (take 4 a.salt) _ _ moved

frame_nonces_differ :
    (gcm : Gcm) (enc : FrameEncoder) (p : Bytes) (ps : List Bytes)
    → length enc.key ≡ 32
    → 4 ≤ length enc.salt
    → length p ≤ max_plaintext_bytes
    → (encoder_after gcm enc (p ∷ ps)).counter < 2 ^ 64
    → frame_nonce (encoder_after gcm enc (p ∷ ps)) ≢ frame_nonce enc
unfolding encoder_after
frame_nonces_differ gcm enc p ps key_ok salt_ok small fits e =
    let (grows, salt, _, _) = encode_counter gcm enc p in
    let (grows', salt', _, _) = encoder_after_counter gcm (encode gcm enc p).0 ps in
    let low : enc.counter < 2 ^ 64 = omega arith in
    let next : (encode gcm enc p).0.counter ≡ enc.counter + 1 =
      rw (encode_lem gcm enc p key_ok salt_ok low small) refl in
    let same =
      frame_nonce-counter enc (encoder_after gcm (encode gcm enc p).0 ps) (salt' ∙ salt) low fits
        e in
    absurd (omega (arith, next))

-- No nonce is used twice with a key: a message and any later one of the same encoder, whatever was framed or
-- refused in between, are sealed under two different nonces. That these are the nonces is read from the
-- frames, for every cipher: header, ciphertext and tag under the encoder's key, that nonce, the header and
-- the message. For a key of 32 bytes, a salt of at least 4, messages within the limit and counters below
-- 2^64.
pub nonces_differ :
    (gcm : Gcm) (enc : FrameEncoder) (p q : Bytes) (ps : List Bytes)
    → length enc.key ≡ 32
    → 4 ≤ length enc.salt
    → length p ≤ max_plaintext_bytes
    → length q ≤ max_plaintext_bytes
    → (encoder_after gcm enc (p ∷ ps)).counter < 2 ^ 64
    → let later = encoder_after gcm enc (p ∷ ps) in
      let aad = header enc.direction enc.counter in
      let aad' = header enc.direction later.counter in
      (n : Bytes) × (n' : Bytes) × (n' ≢ n)
      × ((cipher : Gcm)
          → ((encode cipher enc p).1
              ≡ ok (aad ++ (cipher.encrypt enc.key n aad p ++ cipher.auth_tag enc.key n aad p)))
            × ((encode cipher later q).1
                ≡ ok (
                    aad'
                    ++ (cipher.encrypt enc.key n' aad' q ++ cipher.auth_tag enc.key n' aad' q))))
nonces_differ gcm enc p q ps key_ok salt_ok small small' fits =
    let (grows, salt, key, direction) = encoder_after_counter gcm enc (p ∷ ps) in
    let later = encoder_after gcm enc (p ∷ ps) in
    let low : enc.counter < 2 ^ 64 = omega arith in
    (
      frame_nonce enc,
      frame_nonce later,
      frame_nonces_differ gcm enc p ps key_ok salt_ok small fits,
      λ cipher. (
        ap (λ (r : FrameEncoder × Result FrameError Bytes). r.1)
            (encode_lem cipher enc p key_ok salt_ok low small),
        ap (λ (r : FrameEncoder × Result FrameError Bytes). r.1)
              (encode_lem cipher later q (ap (length {A = ℕ}) key ∙ key_ok)
                (subst (λ l. 4 ≤ length l) (sym salt) salt_ok) fits small')
            ∙ ap₂
                (λ k d. ok (
                  header d later.counter
                  ++ sealed_form cipher k (frame_nonce later) (header d later.counter) q))
                key direction,
      ),
    )
