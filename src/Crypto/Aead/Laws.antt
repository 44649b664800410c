-- ===== src/Crypto/Aead/Laws.antt =====
-- What is sealed opens again.
use screen_sharing.Prelude.{
  ◌-◌, ◌≤◌, ◌≡◌, ◌++◌, length, take, drop, arith, ok, length-append, take-append_length,
  drop-append_length,
}
use screen_sharing.Prelude.Bytes.{Bytes}
use screen_sharing.Crypto.Aead.{Gcm, seal, open_sealed}

module _ (gcm : Gcm) (key nonce aad p : Bytes) where
  -- The sealed form of `p`, for a key and a nonce of the right lengths.
  abbrev pub sealed_form : Bytes
  sealed_form = gcm.encrypt key nonce aad p ++ gcm.auth_tag key nonce aad p

  body_length : length sealed_form - 16 ≡ length (gcm.encrypt key nonce aad p)
  body_length = omega (
    arith,
    length-append (gcm.encrypt key nonce aad p) (gcm.auth_tag key nonce aad p),
    gcm.length-auth_tag key nonce aad p,
  )

  body_taken : take (length sealed_form - 16) sealed_form ≡ gcm.encrypt key nonce aad p
  body_taken = rw body_length (take-append_length (gcm.encrypt key nonce aad p) _)

  tag_left : drop (length sealed_form - 16) sealed_form ≡ gcm.auth_tag key nonce aad p
  tag_left = rw body_length (drop-append_length (gcm.encrypt key nonce aad p) _)

  pub length-sealed_form : 16 ≤ length sealed_form
  length-sealed_form = omega (
    arith,
    length-append (gcm.encrypt key nonce aad p) (gcm.auth_tag key nonce aad p),
    gcm.length-auth_tag key nonce aad p,
  )

  module _ (key_ok : length key ≡ 32) (nonce_ok : length nonce ≡ 12) where
    pub seal_lem : seal gcm key nonce p aad ≡ ok sealed_form
    unfolding seal
    seal_lem = rw (key_ok, nonce_ok)

    pub open_sealed-seal : open_sealed gcm key nonce sealed_form aad ≡ ok p
    unfolding open_sealed
    open_sealed-seal =
        ground
          (arith, body_taken, tag_left, length-sealed_form, gcm.decrypt-encrypt key nonce aad p)
