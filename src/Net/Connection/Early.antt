-- ===== src/Net/Connection/Early.antt =====
-- Frames that arrive before `upgrade` ran, and what ends a connection.
use screen_sharing.Prelude.{
  ℕ, zero, suc, take, ◌+◌, ◌≤◌, ◌<◌, ◌≡◌, refl, true, false, none, some, List, [], ◌∷◌, ◌++◌,
  length, arith, ◌∙◌, ap, sym, length-append,
}
use mathlib.Core.List.{append_assoc, append-nil}
use screen_sharing.Prelude.Bytes.{Bytes}
use screen_sharing.Prelude.Text.{units}
use screen_sharing.Crypto.Aead.{Gcm}
use screen_sharing.Crypto.Kdf.{TransportKeys}
use screen_sharing.Net.FrameCodec.{new_encoder, new_decoder}
use screen_sharing.Net.Connection
use screen_sharing.Net.Connection.{
  Connection, ConnectionError, Listening, InboxItem, MessageCodec, Output, Step, on_message,
  receive, replay, upgrade, send_keys, recv_keys, emit_error, close_transport, send_text,
  send_binary, emit_close, emit_item, fail, close, on_transport_close, deliver, flush, flush_items,
  send, send_handshake, text_after_upgrade, too_many_early, is_encrypted,
}

module _ (codec : MessageCodec) (gcm : Gcm) (consumer : InboxItem → Listening → Listening) where
  -- Successive binary frames.
  unfoldable pub receive_all : List Bytes → Connection → Connection × List Output
  receive_all [] c = (c, [])
  receive_all (frame ∷ frames) c =
      let (c', outputs) = receive codec gcm consumer frame true c in
      ((receive_all frames c').0, outputs ++ (receive_all frames c').1)

module _ (codec : MessageCodec) (gcm : Gcm) (consumer : InboxItem → Listening → Listening) where
  receive_early :
      (frame : Bytes) (c : Connection)
      → c.encoder ≡ none
      → length c.pending_binary < 64
      → receive codec gcm consumer frame true c
        ≡ (record c { pending_binary = c.pending_binary ++ (frame ∷ []) }, [])
  unfolding receive on_message
  receive_early frame c plain room = rw plain (ground arith)

  receive_all_early :
      (frames : List Bytes) (c : Connection)
      → c.encoder ≡ none
      → length c.pending_binary + length frames ≤ 64
      → receive_all codec gcm consumer frames c
        ≡ (record c { pending_binary = c.pending_binary ++ frames }, [])
  unfolding receive_all
  receive_all_early [] c plain room =
      ap (λ l. (record c { pending_binary = l }, [])) (sym (append-nil c.pending_binary))
  receive_all_early (frame ∷ frames) c plain room =
      let waiting = c.pending_binary ++ (frame ∷ []) in
      let rest =
        receive_all_early frames (record c { pending_binary = waiting }) plain
          (omega (arith, length-append c.pending_binary (frame ∷ []))) in
      rw (receive_early frame c plain (omega arith)) (
        rest
        ∙ ap (λ l. (record c { pending_binary = l }, []))
            (append_assoc c.pending_binary (frame ∷ []) frames))

  replay_received :
      (frames : List Bytes) (c : Connection)
      → (replay codec gcm consumer frames c).2 ≡ none
      → replay codec gcm consumer frames c ≡ (
        (receive_all codec gcm consumer frames c).0,
        (receive_all codec gcm consumer frames c).1,
        none,
      )
  unfolding replay receive_all receive
  replay_received [] c fine = refl
  replay_received (frame ∷ frames) c fine =
      let (c', outputs, thrown) = on_message codec gcm consumer frame true c in
      ground (arith, replay_received frames (on_message codec gcm consumer frame true c).0)

  -- A connection with the keys in place.
  abbrev pub upgraded : TransportKeys → Connection → Connection
  upgraded keys c = record c {
    encoder = some (record {
      key = (send_keys codec gcm consumer c.role keys).key;
      salt = (send_keys codec gcm consumer c.role keys).nonce_salt;
      direction = Connection.send_direction codec gcm consumer c.role;
      counter = 0;
    });
    decoder = some (record {
      key = (recv_keys codec gcm consumer c.role keys).key;
      salt = (recv_keys codec gcm consumer c.role keys).nonce_salt;
      expected_direction = Connection.recv_direction codec gcm consumer c.role;
      last_counter = none;
    });
    pending_binary = [];
  }

  upgrade_lem :
      (keys : TransportKeys) (c : Connection)
      → c.encoder ≡ none
      → 4 ≤ length (send_keys codec gcm consumer c.role keys).nonce_salt
      → 4 ≤ length (recv_keys codec gcm consumer c.role keys).nonce_salt
      → upgrade codec gcm consumer keys c
        ≡ replay codec gcm consumer c.pending_binary (upgraded keys c)
  unfolding upgrade new_encoder new_decoder
  upgrade_lem keys c plain s r = rw plain (ground arith)

-- Binary frames that arrive before `upgrade` ran (at most 64) emit nothing. If the `upgrade` that follows
-- throws nothing, it leaves the connection, sends and emits as if the same frames had arrived in the same
-- order right after an `upgrade` with the same keys. For salts of at least 4 bytes.
pub upgrade-receive_all :
    (codec : MessageCodec) (gcm : Gcm) (consumer : InboxItem → Listening → Listening)
    (keys : TransportKeys) (frames : List Bytes) (c : Connection)
    → c.encoder ≡ none
    → c.pending_binary ≡ []
    → length frames ≤ 64
    → 4 ≤ length (send_keys codec gcm consumer c.role keys).nonce_salt
    → 4 ≤ length (recv_keys codec gcm consumer c.role keys).nonce_salt
    → let (early, emitted) = receive_all codec gcm consumer frames c in
      let late = (upgrade codec gcm consumer keys c).0 in
      (emitted ≡ [])
      × ((upgrade codec gcm consumer keys early).2 ≡ none
          → upgrade codec gcm consumer keys early ≡ (
            (receive_all codec gcm consumer frames late).0,
            (receive_all codec gcm consumer frames late).1,
            none,
          ))
unfolding replay
upgrade-receive_all codec gcm consumer keys frames c plain empty few s r =
    rw (waits, now, later)
      (refl, replay_received codec gcm consumer frames (upgraded codec gcm consumer keys c))
  where
    held : Connection
    held = record c { pending_binary = frames }

    waits : receive_all codec gcm consumer frames c ≡ (held, [])
    waits =
        receive_all_early codec gcm consumer frames c plain
          (omega (arith, ap (length {A = Bytes}) empty))
        ∙ ap (λ l. (record c { pending_binary = l ++ frames }, [])) empty

    now :
        upgrade codec gcm consumer keys held
        ≡ replay codec gcm consumer frames (upgraded codec gcm consumer keys c)
    now = upgrade_lem codec gcm consumer keys held plain s r

    later : upgrade codec gcm consumer keys c ≡ (upgraded codec gcm consumer keys c, [], none)
    later = upgrade_lem codec gcm consumer keys c plain s r ∙ rw (empty, replay)

module _ (codec : MessageCodec) (gcm : Gcm) (consumer : InboxItem → Listening → Listening) where
  -- A closed connection whose buffer is full.
  receive_ignores :
      (frame : Bytes) (c : Connection)
      → c.encoder ≡ none
      → 64 ≤ length c.pending_binary
      → c.closed ≡ true
      → receive codec gcm consumer frame true c ≡ (c, [])
  unfolding receive on_message fail
  receive_ignores frame c plain full shut = rw plain (ground arith)

  receive_all_closed :
      (frames : List Bytes) (c : Connection)
      → c.encoder ≡ none
      → 64 ≤ length c.pending_binary
      → c.closed ≡ true
      → receive_all codec gcm consumer frames c ≡ (c, [])
  unfolding receive_all
  receive_all_closed [] c plain full shut = refl
  receive_all_closed (frame ∷ frames) c plain full shut =
      rw (receive_ignores frame c plain full shut) (receive_all_closed frames c plain full shut)

  abbrev gives_up : List Output
  gives_up = emit_error too_many_early ∷ close_transport 1002 (units "protocol error") ∷ []

  receive_overflows :
      (frame : Bytes) (c : Connection)
      → c.encoder ≡ none
      → 64 ≤ length c.pending_binary
      → c.closed ≡ false
      → receive codec gcm consumer frame true c ≡ (record c { closed = true }, gives_up)
  unfolding receive on_message fail
  receive_overflows frame c plain full running = rw plain (ground arith)

  -- With room for `k` more.
  receive_all_floods :
      (k : ℕ) (frames : List Bytes) (c : Connection)
      → c.encoder ≡ none
      → c.closed ≡ false
      → length c.pending_binary + k ≡ 64
      → k < length frames
      → receive_all codec gcm consumer frames c
        ≡ (record c { pending_binary = c.pending_binary ++ take k frames; closed = true }, gives_up)
  unfolding receive_all
  receive_all_floods k [] c plain running room many = absurd (omega (arith, many))
  receive_all_floods zero (frame ∷ frames) c plain running room many =
      rw (receive_overflows frame c plain (omega arith) running) (
        rw (receive_all_closed frames (record c { closed = true }) plain (omega arith) refl) (
          ap (λ l. (record c { pending_binary = l; closed = true }, gives_up))
            (sym (append-nil c.pending_binary))))
  receive_all_floods (suc k) (frame ∷ frames) c plain running room many =
      let waiting = c.pending_binary ++ (frame ∷ []) in
      rw (receive_early codec gcm consumer frame c plain (omega arith)) (
        receive_all_floods k frames (record c { pending_binary = waiting }) plain running
          (omega (arith, length-append c.pending_binary (frame ∷ []))) (omega arith)
        ∙ ap (λ l. (record c { pending_binary = l; closed = true }, gives_up))
            (append_assoc c.pending_binary (frame ∷ []) (take k frames)))

-- A flood before `upgrade`: whatever binary frames arrive at an open connection without keys, if they are more
-- than 64, it holds exactly the first 64 of them, delivers nothing, reports one error, closes the
-- transport once with 1002, and does nothing more however many follow.
pub early_flood :
    (codec : MessageCodec) (gcm : Gcm) (consumer : InboxItem → Listening → Listening)
    (frames : List Bytes) (c : Connection)
    → c.encoder ≡ none
    → c.closed ≡ false
    → c.pending_binary ≡ []
    → 64 < length frames
    → receive_all codec gcm consumer frames c ≡ (
      record c { pending_binary = take 64 frames; closed = true },
      emit_error too_many_early ∷ close_transport 1002 (units "protocol error") ∷ [],
    )
early_flood codec gcm consumer frames c plain running empty many =
    receive_all_floods codec gcm consumer 64 frames c plain running
      (omega (arith, ap (length {A = Bytes}) empty)) many
    ∙ ap
        (λ l. (
          record c { pending_binary = l ++ take 64 frames; closed = true },
          gives_up codec gcm consumer,
        ))
        empty
