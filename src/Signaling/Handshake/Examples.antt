-- ===== src/Signaling/Handshake/Examples.antt =====
-- A concrete handshake.
use mathlib.Core.List.{Memᴰ}
use screen_sharing.Prelude.{
  List, ok, ◌⊎◌, ℕ, suc, ◌+◌, ◌≤◌, ◌≡◌, refl, true, false, none, some, [], ◌∷◌, ◌==◌, arith, Option,
  length,
}
use screen_sharing.Prelude.Bytes.{Bytes, be_bytes, length-be_bytes}
use screen_sharing.Prelude.Text.{units}
use screen_sharing.Protocol.{hello, pake_peer, pake_confirm, protocol_version}
use screen_sharing.Crypto.Kdf.{
  Hashes, default_argon_params, argon_params_acceptable, derive_transport_keys,
}
use screen_sharing.Crypto.Cpace.{
  Group, HostHandshake, calculate_generator, verify_peer, host_respond,
}
use screen_sharing.Crypto.Cpace.Agreement.{IsPair, generator_string-injective}
use screen_sharing.Signaling.Handshake.{
  Hex, Event, HostConfig, PeerConfig, hears, peer_start, binding_of, awaits_hello, host_done,
  peer_done,
}
use screen_sharing.Signaling.Handshake.Success.{talk, messages, upgrades, handshake_lem}
use screen_sharing.Signaling.Handshake.Refusal.{host_outputs, upgrade_confirmed}

abbrev plain_hashes : Hashes
plain_hashes = record {
  sha512 = λ bytes. bytes;
  hmac_sha256 = λ key message. message;
  hkdf_sha256 = λ ikm info n. be_bytes n 7;
  hkdf_sha512 = λ ikm info n. be_bytes n 7;
  argon2id = λ password salt cost n. be_bytes n 9;
  normalize = λ s. s;
  utf8 = λ s. s;
  length-hkdf_sha512 = λ ikm info n. length-be_bytes n 7;
}

abbrev first_byte : Bytes → Option ℕ
first_byte [] = none
first_byte (x ∷ xs) = some x

sum-nonzero : (p a : ℕ) → 1 ≤ a → (p + a == 0) ≡ false
sum-nonzero p a low = ground (arith, low)

-- Numbers under addition.
abbrev sums : Group
sums = record {
  Point = ℕ;
  order = 1_000;
  derive_to_curve = λ bytes. suc (length bytes);
  multiply = λ p a. p + a;
  from_bytes = first_byte;
  to_bytes = λ p. p ∷ be_bytes 31 0;
  is0 = λ p. p == 0;
  multiply_comm = λ p a b. omega arith;
  multiply-is0 = λ p a nonzero low high. sum-nonzero p a low;
  from_bytes-to_bytes = λ p. refl;
  length-to_bytes = λ p. omega (arith, length-be_bytes 31 0);
}

abbrev plain_hex : Hex
plain_hex = record { to_hex = λ b. b; from_hex = λ s. s; from_hex-to_hex = λ b. refl }

abbrev room : Bytes
room = 1 ∷ 2 ∷ 3 ∷ 4 ∷ []

abbrev sid : Bytes
sid = be_bytes 16 3

abbrev key : Bytes
key = 5 ∷ 6 ∷ 7 ∷ []

abbrev host_cfg : HostConfig
host_cfg = record { room_id = room; w = key; argon_params = none }

abbrev peer_cfg : PeerConfig
peer_cfg = record { room_id = room; derive_w = λ p. key }

pair : IsPair plain_hashes sums 12 34 key (binding_of room) sid
unfolding calculate_generator
pair = record {
  sid_length = length-be_bytes 16 3;
  generator = ground arith;
  peer_scalar = (omega arith, omega arith);
  host_scalar = (omega arith, omega arith);
}

strong : argon_params_acceptable default_argon_params ≡ true
unfolding argon_params_acceptable
strong = refl

handshake_lem_example :
    let (host, peer, from_host, from_peer) =
      talk plain_hashes sums plain_hex 12 34 sid host_cfg peer_cfg
        (suc (suc (suc 0)))
        (messages (peer_start plain_hashes sums plain_hex peer_cfg).1)
        awaits_hello
        (peer_start plain_hashes sums plain_hex peer_cfg).0 in
    (isk : Bytes) × (host ≡ host_done isk)
    × (peer ≡ peer_done isk)
    × (upgrades from_host ≡ derive_transport_keys plain_hashes isk ∷ [])
    × (upgrades from_peer ≡ derive_transport_keys plain_hashes isk ∷ [])
handshake_lem_example =
    handshake_lem plain_hashes sums plain_hex 12 34 sid host_cfg peer_cfg refl refl strong pair 0

-- A hello, a share, and a confirmation.
abbrev heard : List Event
heard =
    hears (hello (units "0.1.0") protocol_version room)
    ∷ hears (pake_peer (19 ∷ be_bytes 31 0))
    ∷ hears (pake_confirm (6 ∷ []))
    ∷ []

upgrade_confirmed_example :
    let outputs = host_outputs plain_hashes sums plain_hex sid 34 host_cfg heard awaits_hello in
    (upgrades outputs ≡ [])
    ⊎ ((ya : Bytes) × (mac : Bytes) × (r : HostHandshake plain_hashes sums) × Memᴰ
          (hears (pake_peer ya))
          heard
        × (host_respond plain_hashes sums 34 key (binding_of room) sid ya ≡ ok r)
        × Memᴰ (hears (pake_confirm mac)) heard
        × (verify_peer plain_hashes sums r mac ≡ true)
        × (upgrades outputs ≡ derive_transport_keys plain_hashes r.isk ∷ []))
upgrade_confirmed_example = upgrade_confirmed plain_hashes sums plain_hex sid 34 host_cfg heard

generator_string-injective_example : (key ≡ key) × (room ≡ room) × (sid ≡ sid)
generator_string-injective_example =
    generator_string-injective plain_hashes key key room room sid sid refl
