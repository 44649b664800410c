-- ===== src/Crypto/Aead.antt =====
-- src/main/crypto/aead.ts: AES-256-GCM with the tag behind the ciphertext. Node's cipher is a
-- parameter, with what its documentation promises: decryption undoes encryption, and the tag has
-- 16 bytes.
pub mod Laws
use screen_sharing.Prelude.{
  ℕ, ◌-◌, ◌+◌, ◌≤◌, ◌≡◌, refl, Bool, not, Option, none, some, List, [], ◌∷◌, ◌++◌, ◌==◌, ltb,
  if◌then◌else◌, length, take, drop, arith, Result, ok, err, subst, sym, length-append,
}
use screen_sharing.Prelude.Bytes.{Bytes}
use mathlib.Core.List.{append-nil}

abbrev pub key_bytes : ℕ
key_bytes = 32

abbrev pub nonce_bytes : ℕ
nonce_bytes = 12

abbrev pub tag_bytes : ℕ
tag_bytes = 16

-- createCipheriv('aes-256-gcm') and createDecipheriv; `none` is a failed authentication.
pub record Gcm : Type 0 where
  pub encrypt : (key nonce aad plaintext : Bytes) → Bytes
  pub auth_tag : (key nonce aad plaintext : Bytes) → Bytes
  pub decrypt : (key nonce aad body tag : Bytes) → Option Bytes
  pub length-auth_tag : (key nonce aad p : Bytes) → length (auth_tag key nonce aad p) ≡ 16
  pub decrypt-encrypt :
      (key nonce aad p : Bytes)
      → decrypt key nonce aad (encrypt key nonce aad p) (auth_tag key nonce aad p) ≡ some p

pub data AeadError : Type 0 where
  bad_key bad_nonce too_short authentication_failed : AeadError

or_unauthentic : Option Bytes → Result AeadError Bytes
or_unauthentic none = err authentication_failed
or_unauthentic (some p) = ok p

module _ (gcm : Gcm) where
  unfoldable pub seal : (key nonce plaintext aad : Bytes) → Result AeadError Bytes
  seal key nonce plaintext aad =
      if not (length key == key_bytes)
      then err bad_key
      else if not (length nonce == nonce_bytes)
      then err bad_nonce
      else ok (gcm.encrypt key nonce aad plaintext ++ gcm.auth_tag key nonce aad plaintext)

  unfoldable pub open_sealed : (key nonce sealed aad : Bytes) → Result AeadError Bytes
  unfolding or_unauthentic
  open_sealed key nonce sealed aad =
      if not (length key == key_bytes)
      then err bad_key
      else if not (length nonce == nonce_bytes)
      then err bad_nonce
      else if ltb (length sealed) tag_bytes
      then err too_short
      else or_unauthentic (
          gcm.decrypt key nonce aad (take (length sealed - tag_bytes) sealed)
            (drop (length sealed - tag_bytes) sealed))
