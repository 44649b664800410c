-- ===== src/Crypto/Kdf.antt =====
-- src/main/crypto/kdf.ts: key derivation. The hashes are a parameter.
use screen_sharing.Prelude.{
  ℕ, ◌≡◌, Bool, ◌&&◌, List, [], ◌∷◌, ◌++◌, leb, ◌==◌, if◌then◌else◌, length, map, any,
}
use screen_sharing.Prelude.Bytes.{Bytes}
use screen_sharing.Prelude.Text.{JsString, units}
use screen_sharing.Protocol.{ArgonParams}

-- The functions of @noble/hashes that the code calls, String.prototype.normalize('NFC') and utf8ToBytes.
pub record Hashes : Type 0 where
  pub sha512 : Bytes → Bytes
  pub hmac_sha256 : (key message : Bytes) → Bytes
  pub hkdf_sha256 : (ikm info : Bytes) (length : ℕ) → Bytes
  pub hkdf_sha512 : (ikm info : Bytes) (length : ℕ) → Bytes
  pub argon2id : (password salt : Bytes) → ArgonParams → (length : ℕ) → Bytes
  pub normalize : JsString → JsString
  pub utf8 : JsString → Bytes
  pub length-hkdf_sha512 : (ikm info : Bytes) (n : ℕ) → length (hkdf_sha512 ikm info n) ≡ n

pub record TransportKey : Type 0 where
  pub key : Bytes
  pub nonce_salt : Bytes

pub record TransportKeys : Type 0 where
  pub c2s : TransportKey
  pub s2c : TransportKey

abbrev pub default_argon_params : ArgonParams
default_argon_params = record { m = 65_536; t = 3; p = 1 }

abbrev pub min_argon_params : ArgonParams
min_argon_params = record { m = 19_456; t = 2; p = 1 }

unfoldable pub argon_params_acceptable : ArgonParams → Bool
argon_params_acceptable p =
    leb min_argon_params.m p.m
    && leb min_argon_params.t p.t
    && leb 1 p.p
    && leb p.m 1_048_576
    && leb p.t 16
    && leb p.p 4

abbrev non_ascii_spaces : List ℕ
non_ascii_spaces =
    0x00a0 ∷ 0x1680 ∷ 0x2000 ∷ 0x2001 ∷ 0x2002 ∷ 0x2003 ∷ 0x2004 ∷ 0x2005 ∷ 0x2006 ∷ 0x2007 ∷ 0x2008
    ∷ 0x2009 ∷ 0x200a ∷ 0x202f ∷ 0x205f ∷ 0x3000 ∷ []

abbrev plain_space : ℕ → ℕ
plain_space c = if any (λ s. s == c) non_ascii_spaces then 0x20 else c

module _ (h : Hashes) where
  unfoldable pub prepare_password : JsString → Bytes
  prepare_password password = h.utf8 (h.normalize (map plain_space password))

  unfoldable pub expand_key : Bytes → JsString → ℕ → Bytes
  expand_key ikm info n = h.hkdf_sha512 ikm (h.utf8 (units "erros-share/" ++ info)) n

  unfoldable pub derive_argon_salt : Bytes → Bytes → Bytes
  derive_argon_salt room_id code_salt =
      h.hkdf_sha256 (room_id ++ code_salt) (h.utf8 (units "erros-share/argon-salt/v1")) 16

  unfoldable pub derive_password_key : JsString → Bytes → ArgonParams → Bytes
  unfolding prepare_password
  derive_password_key password argon_salt params =
      h.argon2id (prepare_password password) argon_salt params 32

  unfoldable pub derive_transport_keys : Bytes → TransportKeys
  unfolding expand_key
  derive_transport_keys isk = record {
    c2s = record {
      key = expand_key isk (units "frame-c2s/v1") 32;
      nonce_salt = expand_key isk (units "frame-c2s-salt/v1") 4;
    };
    s2c = record {
      key = expand_key isk (units "frame-s2c/v1") 32;
      nonce_salt = expand_key isk (units "frame-s2c-salt/v1") 4;
    };
  }

  unfoldable pub derive_room_media_key : Bytes → Bytes
  unfolding expand_key
  derive_room_media_key w = expand_key w (units "media-key/v1") 32
