-- ===== src/Signaling/Handshake/Refusal.antt =====
-- What a host asks for before it upgrades a connection, whatever it hears.
use mathlib.Core.List.{Memᴰ}
use screen_sharing.Prelude.{
  ℕ, ◌≡◌, ◌⊎◌, refl, true, not, List, [], ◌∷◌, ◌++◌, ◌==◌, ok, err, inl, inr, Bool-cases, ap,
  Result,
}
use screen_sharing.Prelude.Bytes.{Bytes}
use screen_sharing.Prelude.Text.{JsString, str_eq}
use screen_sharing.Protocol.{
  hello, hello_ack, pake_peer, pake_host, pake_confirm, handshake_reject, protocol_version,
}
use screen_sharing.Crypto.Kdf.{Hashes, derive_transport_keys}
use screen_sharing.Crypto.Cpace.{Group, CpaceError, HostHandshake, host_respond, verify_peer}
use screen_sharing.Signaling.Handshake
use screen_sharing.Signaling.Handshake.{
  Hex, Event, Output, HostConfig, HostState, Failure, hears, times_out, closes, errors, host_step,
  awaits_hello, awaits_pake_peer, awaits_confirm, host_failed, host_done, binding_of,
}
use screen_sharing.Signaling.Handshake.Success.{upgrades}

module _ (h : Hashes) (g : Group) (hex : Hex) (sid : Bytes) (scalar : ℕ) (cfg : HostConfig) where
  -- What a host puts out over a sequence of events.
  unfoldable pub host_outputs : List Event → HostState h g hex → List Output
  host_outputs [] s = []
  host_outputs (e ∷ es) s =
      let (s', outputs) = host_step h g hex sid scalar cfg s e in outputs ++ host_outputs es s'

  failed_silent : (es : List Event) (f : Failure) → host_outputs es (host_failed f) ≡ []
  unfolding host_outputs host_step
  failed_silent [] f = refl
  failed_silent (e ∷ es) f = failed_silent es f

  done_silent : (es : List Event) (isk : Bytes) → host_outputs es (host_done isk) ≡ []
  unfolding host_outputs host_step
  done_silent [] isk = refl
  done_silent (e ∷ es) isk = done_silent es isk

  -- The upgrade of a host that waits for the confirmation.
  abbrev IsConfirmed : List Event → HostHandshake h g → JsString → Type 0
  IsConfirmed es r mac =
      Memᴰ (hears (pake_confirm mac)) es
      × (verify_peer h g r (hex.from_hex mac) ≡ true)
      × (upgrades (host_outputs es (awaits_confirm r)) ≡ derive_transport_keys h r.isk ∷ [])

  after_confirm :
      (es : List Event) (r : HostHandshake h g)
      → (upgrades (host_outputs es (awaits_confirm r)) ≡ [])
        ⊎ ((mac : JsString) × IsConfirmed es r mac)
  unfolding host_outputs host_step
  after_confirm [] r = inl refl
  after_confirm (hears (pake_confirm mac) ∷ es) r =
      elim (Bool-cases (verify_peer h g r (hex.from_hex mac))) [
        | inl t ↦ inr (
          mac,
          (
            Memᴰ.head refl,
            t,
            rw t (ap (λ os. derive_transport_keys h r.isk ∷ upgrades os) (done_silent es r.isk)),
          ),
        )
        | inr f ↦ inl (rw f (ap upgrades (failed_silent es _)))
      ]
  after_confirm (hears (hello app version room) ∷ es) r = inl (ap upgrades (failed_silent es _))
  after_confirm (hears (hello_ack version s p) ∷ es) r = inl (ap upgrades (failed_silent es _))
  after_confirm (hears (pake_peer ya) ∷ es) r = inl (ap upgrades (failed_silent es _))
  after_confirm (hears (pake_host yb mac) ∷ es) r = inl (ap upgrades (failed_silent es _))
  after_confirm (hears (handshake_reject reason) ∷ es) r = inl (ap upgrades (failed_silent es _))
  after_confirm (times_out ∷ es) r = inl (ap upgrades (failed_silent es _))
  after_confirm (closes ∷ es) r = inl (ap upgrades (failed_silent es _))
  after_confirm (errors ∷ es) r = inl (ap upgrades (failed_silent es _))

  -- The upgrade of a host that waits for the peer's share.
  abbrev IsAgreed : List Event → JsString → JsString → HostHandshake h g → List Output → Type 0
  IsAgreed es ya mac r outputs =
      Memᴰ (hears (pake_peer ya)) es
      × (host_respond h g scalar cfg.w (binding_of cfg.room_id) sid (hex.from_hex ya) ≡ ok r)
      × Memᴰ (hears (pake_confirm mac)) es
      × (verify_peer h g r (hex.from_hex mac) ≡ true)
      × (upgrades outputs ≡ derive_transport_keys h r.isk ∷ [])

  abbrev IsEarned : List Event → List Output → Type 0
  IsEarned es outputs =
      (upgrades outputs ≡ [])
      ⊎ ((ya : JsString) × (mac : JsString) × (r : HostHandshake h g) × IsAgreed es ya mac r
            outputs)

  respond_cases :
      (ya : JsString) (es : List Event) (answer : Result CpaceError (HostHandshake h g))
      → host_respond h g scalar cfg.w (binding_of cfg.room_id) sid (hex.from_hex ya) ≡ answer
      → IsEarned (hears (pake_peer ya) ∷ es) (
          (Handshake.responded h g hex answer).1
          ++ host_outputs es (Handshake.responded h g hex answer).0)
  respond_cases ya es (err e) same = inl (ap upgrades (failed_silent es _))
  respond_cases ya es (ok r) same = elim (after_confirm es r) [
    | inl none_yet ↦ inl none_yet
    | inr (mac, (heard, right, put_out)) ↦
        inr (ya, mac, r, (Memᴰ.head refl, same, Memᴰ.tail heard, right, put_out))
  ]

  after_pake_peer : (es : List Event) → IsEarned es (host_outputs es (awaits_pake_peer sid))
  unfolding host_outputs host_step
  after_pake_peer [] = inl refl
  after_pake_peer (hears (pake_peer ya) ∷ es) = respond_cases ya es _ refl
  after_pake_peer (hears (hello app version room) ∷ es) = inl (ap upgrades (failed_silent es _))
  after_pake_peer (hears (hello_ack version s p) ∷ es) = inl (ap upgrades (failed_silent es _))
  after_pake_peer (hears (pake_host yb mac) ∷ es) = inl (ap upgrades (failed_silent es _))
  after_pake_peer (hears (pake_confirm mac) ∷ es) = inl (ap upgrades (failed_silent es _))
  after_pake_peer (hears (handshake_reject reason) ∷ es) = inl (ap upgrades (failed_silent es _))
  after_pake_peer (times_out ∷ es) = inl (ap upgrades (failed_silent es _))
  after_pake_peer (closes ∷ es) = inl (ap upgrades (failed_silent es _))
  after_pake_peer (errors ∷ es) = inl (ap upgrades (failed_silent es _))

  IsEarned-later :
      (e : Event) (es : List Event) (os : List Output) → IsEarned es os → IsEarned (e ∷ es) os
  IsEarned-later e es os (inl none_yet) = inl none_yet
  IsEarned-later e es os (inr (ya, mac, r, (share, answer, heard, right, put_out))) =
      inr (ya, mac, r, (Memᴰ.tail share, answer, Memᴰ.tail heard, right, put_out))

  after_hello : (es : List Event) → IsEarned es (host_outputs es awaits_hello)
  unfolding host_outputs host_step
  after_hello [] = inl refl
  after_hello (hears (hello app version room) ∷ es) =
      elim (Bool-cases (not (version == protocol_version))) [
        | inl t ↦ inl (rw t (ap upgrades (failed_silent es _)))
        | inr f ↦ rw f (elim (Bool-cases (not (str_eq room (hex.to_hex cfg.room_id)))) [
          | inl t ↦ inl (rw t (ap upgrades (failed_silent es _)))
          | inr same ↦
              rw same
                (IsEarned-later _ es (host_outputs es (awaits_pake_peer sid)) (after_pake_peer es))
        ])
      ]
  after_hello (hears (hello_ack version s p) ∷ es) = inl (ap upgrades (failed_silent es _))
  after_hello (hears (pake_peer ya) ∷ es) = inl (ap upgrades (failed_silent es _))
  after_hello (hears (pake_host yb mac) ∷ es) = inl (ap upgrades (failed_silent es _))
  after_hello (hears (pake_confirm mac) ∷ es) = inl (ap upgrades (failed_silent es _))
  after_hello (hears (handshake_reject reason) ∷ es) = inl (ap upgrades (failed_silent es _))
  after_hello (times_out ∷ es) = inl (ap upgrades (failed_silent es _))
  after_hello (closes ∷ es) = inl (ap upgrades (failed_silent es _))
  after_hello (errors ∷ es) = inl (ap upgrades (failed_silent es _))

-- Whatever a host hears, in any order, and however its waits end: either it never upgrades its connection, or
-- it does so once, with the keys of an exchange in which it has heard the peer's share and a
-- confirmation that is the one expected for that exchange. What comes after changes nothing of it.
pub upgrade_confirmed :
    (h : Hashes) (g : Group) (hex : Hex) (sid : Bytes) (scalar : ℕ) (cfg : HostConfig)
    (es : List Event)
    → let outputs = host_outputs h g hex sid scalar cfg es awaits_hello in
      (upgrades outputs ≡ [])
      ⊎ ((ya : JsString) × (mac : JsString) × (r : HostHandshake h g) × Memᴰ
            (hears (pake_peer ya))
            es
          × (host_respond h g scalar cfg.w (binding_of cfg.room_id) sid (hex.from_hex ya) ≡ ok r)
          × Memᴰ (hears (pake_confirm mac)) es
          × (verify_peer h g r (hex.from_hex mac) ≡ true)
          × (upgrades outputs ≡ derive_transport_keys h r.isk ∷ []))
upgrade_confirmed h g hex sid scalar cfg es = elim (after_hello h g hex sid scalar cfg es) [
  | inl none_yet ↦ inl none_yet
  | inr (ya, mac, r, (share, answer, heard, right, put_out)) ↦
      inr (ya, mac, r, share, answer, heard, right, put_out)
]
