-- ===== src/Net/Connection/EndToEnd.antt =====
-- Messages through both ends of an upgraded connection, and the close of a connection.
use screen_sharing.Prelude.{
  ℕ, ◌+◌, ◌^◌, ◌≤◌, ◌≡◌, refl, true, false, none, some, List, [], ◌∷◌, ◌++◌, length, ok, arith, ap,
  All, map,
}
use screen_sharing.Prelude.Bytes.{Bytes}
use screen_sharing.Prelude.Text.{JsString}
use screen_sharing.Crypto.Aead.{Gcm}
use screen_sharing.Protocol.{Envelope, Body}
use screen_sharing.Protocol.Schema.{envelope_ok}
use screen_sharing.Net.FrameCodec.{FrameEncoder, FrameDecoder, max_plaintext_bytes, encode, decode}
use screen_sharing.Net.FrameCodec.RoundTrip.{InStep, decode-encode}
use screen_sharing.Net.Connection.{
  Connection, Listening, InboxItem, MessageCodec, Output, receive, on_message, deliver, send,
  next_envelope, message_item, emit_item, send_binary, send_text, close_transport, emit_close,
  emit_error, is_encrypted,
}

-- Two ends with keys in step, and a consumer that listens for envelopes at the receiving one.
pub record IsLinked (s r : Connection) (enc : FrameEncoder) (dec : FrameDecoder) : Type 0 where
  pub sends : s.encoder ≡ some enc
  pub upgraded : is_encrypted r.encoder ≡ true
  pub receives : r.decoder ≡ some dec
  pub heard : r.listening.message ≡ true
  pub in_step : InStep enc dec

-- Envelopes of successive bodies, as a sender numbers them.
abbrev pub envelopes : (epoch seq : ℕ) → JsString → List Body → List Envelope
envelopes epoch seq sender [] = []
envelopes epoch seq sender (body ∷ bodies) =
    record { v = 1; epoch = epoch; seq = seq; sender = sender; body = body }
    ∷ envelopes epoch (seq + 1) sender bodies

module _ (codec : MessageCodec) (gcm : Gcm) (consumer : InboxItem → Listening → Listening) where
  -- What can be sent: it meets the schema, and fits a frame.
  abbrev pub Fits : Envelope → Type 0
  Fits e = (envelope_ok e ≡ true) × (length (codec.print_envelope e) ≤ max_plaintext_bytes)

  -- What one end sent, arriving at the other.
  abbrev pub carry : List Output → Connection → Connection × List Output
  carry [] r = (r, [])
  carry (send_text bytes ∷ os) r =
      let (r', emitted) = receive codec gcm consumer bytes false r in
      ((carry os r').0, emitted ++ (carry os r').1)
  carry (send_binary bytes ∷ os) r =
      let (r', emitted) = receive codec gcm consumer bytes true r in
      ((carry os r').0, emitted ++ (carry os r').1)
  carry (close_transport code reason ∷ os) r = carry os r
  carry (emit_close code reason ∷ os) r = carry os r
  carry (emit_item item ∷ os) r = carry os r
  carry (emit_error e ∷ os) r = carry os r

  -- Send the bodies one after the other, each arriving at once; what the receiver emits.
  unfoldable pub exchange : List Body → Connection → Connection → List Output
  exchange [] s r = []
  exchange (body ∷ bodies) s r =
      let (s', outputs, thrown) = send codec gcm consumer body s in
      let (r', emitted) = carry outputs r in emitted ++ exchange bodies s' r'

module _ (codec : MessageCodec) (gcm : Gcm) (consumer : InboxItem → Listening → Listening) where
  send_lem :
      (body : Body) (s : Connection) (enc enc' : FrameEncoder) (frame : Bytes)
      → s.encoder ≡ some enc
      → encode gcm enc (codec.print_envelope (next_envelope codec gcm consumer body s))
        ≡ (enc', ok frame)
      → send codec gcm consumer body s
        ≡ (record s { encoder = some enc'; seq = s.seq + 1 }, send_binary frame ∷ [], none)
  unfolding send
  send_lem body s enc enc' frame e h = rw (e, h) refl

  receive_lem :
      (r : Connection) (dec dec' : FrameDecoder) (frame : Bytes) (e : Envelope)
      → is_encrypted r.encoder ≡ true
      → r.decoder ≡ some dec
      → r.listening.message ≡ true
      → e.v ≡ 1
      → envelope_ok e ≡ true
      → length (codec.print_envelope e) ≤ max_plaintext_bytes
      → decode gcm dec frame ≡ (dec', ok (codec.print_envelope e))
      → receive codec gcm consumer frame true r ≡ (
        record r { decoder = some dec'; listening = consumer (message_item e) r.listening },
        emit_item (message_item e) ∷ [],
      )
  unfolding receive on_message deliver
  receive_lem r dec dec' frame e up d heard version valid size h =
      rw (up, d, h, codec.parse_envelope-print e valid size, version, heard) refl

-- Messages through an upgraded connection whose ends are in step, as long as the counter does not pass 2^64:
-- for bodies whose envelopes meet the schema and fit a frame, and a consumer that keeps listening, the
-- receiver emits exactly these bodies in this order, with consecutive sequence numbers.
pub exchange_lem :
    (codec : MessageCodec) (gcm : Gcm) (consumer : InboxItem → Listening → Listening)
    → ((e : Envelope) (l : Listening)
        → l.message ≡ true
        → (consumer (message_item e) l).message ≡ true)
    → (bodies : List Body) (s r : Connection) (enc : FrameEncoder) (dec : FrameDecoder)
    → IsLinked s r enc dec
    → enc.counter + length bodies ≤ 2 ^ 64
    → All (Fits codec gcm consumer) (envelopes s.epoch s.seq s.outbound_from bodies)
    → exchange codec gcm consumer bodies s r
      ≡ map (λ e. emit_item (message_item e)) (envelopes s.epoch s.seq s.outbound_from bodies)
unfolding exchange
exchange_lem codec gcm consumer keeps [] s r enc dec l few small = refl
exchange_lem codec gcm consumer keeps (body ∷ bodies) s r enc dec l few ((valid, size), rest) =
    let e = next_envelope codec gcm consumer body s in
    let (frame, encoded, decoded, step) =
      decode-encode gcm enc dec (codec.print_envelope e) l.in_step (omega arith) size in
    let sent = send_lem codec gcm consumer body s enc _ frame l.sends encoded in
    let got =
      receive_lem codec gcm consumer r dec _ frame e l.upgraded l.receives l.heard refl valid size
        decoded in
    let more =
      exchange_lem codec gcm consumer keeps bodies _ _ _ _
        (record {
          sends = refl;
          upgraded = l.upgraded;
          receives = refl;
          heard = keeps e r.listening l.heard;
          in_step = step;
        })
        (omega arith) rest in
    rw (sent, got) (ap (λ os. emit_item (message_item e) ∷ os) more)
