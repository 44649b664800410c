-- ===== src/Crypto/Cpace.antt =====
-- src/main/crypto/cpace.ts: the password-authenticated key exchange. The group and the hashes are
-- parameters; random bytes are an argument.
pub mod Agreement
use screen_sharing.Prelude.{
  ℕ, zero, suc, ◌+◌, ◌-◌, ◌*◌, ◌/◌, ◌%◌, ◌≤◌, ◌<◌, ◌≡◌, Bool, true, false, Option, none, some, List,
  [], ◌∷◌, ◌++◌, leb, ltb, ◌==◌, if◌then◌else◌, length, Result, ok, err,
}
use Prim.Native.Nat.{bit_or, bit_xor}
use screen_sharing.Prelude.Bytes.{Bytes}
use screen_sharing.Prelude.Text.{JsString, units}
use screen_sharing.Crypto.Lv.{lv_cat, concat_bytes}
use screen_sharing.Crypto.Kdf.{Hashes, expand_key}

-- ristretto255 of @noble/curves: a group of prime order, whose encoding is read back.
pub record Group : Type 1 where
  pub Point : Type 0
  pub order : ℕ
  pub derive_to_curve : Bytes → Point
  pub multiply : Point → ℕ → Point
  pub from_bytes : Bytes → Option Point
  pub to_bytes : Point → Bytes
  pub is0 : Point → Bool
  pub multiply_comm : (p : Point) (a b : ℕ) → multiply (multiply p a) b ≡ multiply (multiply p b) a
  pub multiply-is0 :
      (p : Point) (a : ℕ) → is0 p ≡ false → 1 ≤ a → a < order → is0 (multiply p a) ≡ false
  pub from_bytes-to_bytes : (p : Point) → from_bytes (to_bytes p) ≡ some p
  pub length-to_bytes : (p : Point) → length (to_bytes p) ≡ 32

abbrev pub sid_bytes : ℕ
sid_bytes = 16

abbrev pub point_bytes : ℕ
point_bytes = 32

abbrev pub zpad_target : ℕ
zpad_target = 128

pub data Who : Type 0 where
  host peer : Who

pub data CpaceError : Type 0 where
  bad_sid identity_secret : CpaceError
  share_length share_invalid share_identity : Who → CpaceError

-- `version`: the decimal digits of `protocolVersion`.
pub record CpaceBinding : Type 0 where
  pub room_id : Bytes
  pub version : JsString

-- The loop of `lvLen`, on fuel; each round divides `v` by 128.
unfoldable lv_len_loop : ℕ → ℕ → ℕ
lv_len_loop zero v = 0
lv_len_loop (suc fuel) v = let rest = lv_len_loop fuel (v / 128) in if ltb 0 v then suc rest else 0

unfoldable pub lv_len : ℕ → ℕ
unfolding lv_len_loop
lv_len n = suc (lv_len_loop n (n / 128))

abbrev zeros : ℕ → Bytes
zeros zero = []
zeros (suc n) = 0 ∷ zeros n

-- The loop of `constantTimeEqual`.
unfoldable pub differences : ℕ → Bytes → Bytes → ℕ
differences diff [] ys = diff
differences diff (x ∷ xs) [] = diff
differences diff (x ∷ xs) (y ∷ ys) = differences (bit_or diff (bit_xor x y)) xs ys

unfoldable pub constant_time_equal : Bytes → Bytes → Bool
unfolding differences
constant_time_equal a b = if length a == length b then differences 0 a b == 0 else false

-- The number in `randomScalar`, the last byte first.
abbrev pub le_value : Bytes → ℕ
le_value [] = 0
le_value (b ∷ bytes) = b + 256 * le_value bytes

-- `randomScalar`, with successive draws of 64 random bytes; `none` if none of them serves.
unfoldable pub random_scalar : ℕ → List Bytes → Option ℕ
random_scalar order [] = none
random_scalar order (bytes ∷ draws) =
    let later = random_scalar order draws in
    let s = remainder order (le_value bytes) in if leb 1 s then some s else later
  where
    remainder : ℕ → ℕ → ℕ
    remainder k n = n % k

module _ (h : Hashes) where
  unfoldable pub channel_id : CpaceBinding → Bytes
  channel_id b =
      concat_bytes (h.utf8 (units "erros-share/v" ++ (b.version ++ units "/")) ∷ b.room_id ∷ [])

  abbrev pub dsi : Bytes
  dsi = h.utf8 (units "CPaceRistretto255")

  abbrev pub dsi_isk : Bytes
  dsi_isk = h.utf8 (units "CPaceRistretto255_ISK")

  abbrev pub zpad_length : Bytes → ℕ
  zpad_length w =
      zpad_target - 1 - (lv_len (length w) + length w) - (lv_len (length dsi) + length dsi)

  unfoldable pub generator_string : Bytes → Bytes → Bytes → Bytes
  unfolding lv_len
  generator_string w ci sid = lv_cat (dsi ∷ w ∷ zeros (zpad_length w) ∷ ci ∷ sid ∷ [])

  unfoldable pub derive_isk : Bytes → Bytes → Bytes → Bytes → Bytes → Bytes → Bytes
  derive_isk sid k msg_a ad_a msg_b ad_b = h.sha512 (
      concat_bytes (
        lv_cat (dsi_isk ∷ sid ∷ k ∷ [])
        ∷ lv_cat (msg_a ∷ ad_a ∷ [])
        ∷ lv_cat (msg_b ∷ ad_b ∷ [])
        ∷ []))

  unfoldable pub confirm_key : Bytes → Bytes
  confirm_key isk = expand_key h isk (units "cpace-confirm/v1") 32

  abbrev pub tag_of : Who → JsString
  tag_of host = units "host"
  tag_of peer = units "peer"

  unfoldable pub mac_for : Bytes → Who → Bytes → Bytes → Bytes → Bytes
  unfolding confirm_key
  mac_for isk tag sid ya yb =
      h.hmac_sha256 (confirm_key isk) (concat_bytes (h.utf8 (tag_of tag) ∷ sid ∷ ya ∷ yb ∷ []))

  module _ (g : Group) where
    unfoldable pub calculate_generator : Bytes → CpaceBinding → Bytes → g.Point
    unfolding generator_string channel_id
    calculate_generator w binding sid =
        g.derive_to_curve (h.sha512 (generator_string w (channel_id binding) sid))

    abbrev decoded : Who → Option g.Point → Result CpaceError g.Point
    decoded who none = err (share_invalid who)
    decoded who (some p) = if g.is0 p then err (share_identity who) else ok p

    unfoldable pub decode_share : Bytes → Who → Result CpaceError g.Point
    decode_share bytes who =
        if length bytes == point_bytes
        then decoded who (g.from_bytes bytes)
        else err (share_length who)

    -- What `peerBegin` returns, with what its `finish` keeps.
    pub record PeerHandshake : Type 0 where
      pub ya : Bytes
      pub scalar : ℕ
      pub sid : Bytes

    pub record PeerResult : Type 0 where
      pub isk : Bytes
      pub mac_peer : Bytes
      pub host_confirmed : Bool

    unfoldable pub peer_begin : ℕ → Bytes → CpaceBinding → Bytes → Result CpaceError PeerHandshake
    unfolding calculate_generator
    peer_begin scalar w binding sid =
        if length sid == sid_bytes
        then ok (record {
          ya = g.to_bytes (g.multiply (calculate_generator w binding sid) scalar);
          scalar = scalar;
          sid = sid;
        })
        else err bad_sid

    abbrev finish_with : PeerHandshake → Bytes → Bytes → g.Point → Result CpaceError PeerResult
    finish_with p yb mac_host k =
        let isk = derive_isk p.sid (g.to_bytes k) p.ya [] yb [] in
        if g.is0 k
        then err identity_secret
        else ok (record {
          isk = isk;
          mac_peer = mac_for isk peer p.sid p.ya yb;
          host_confirmed = constant_time_equal mac_host (mac_for isk host p.sid p.ya yb);
        })

    abbrev finish_shared :
        PeerHandshake → Bytes → Bytes → Result CpaceError g.Point → Result CpaceError PeerResult
    finish_shared p yb mac_host (err e) = err e
    finish_shared p yb mac_host (ok point) = finish_with p yb mac_host (g.multiply point p.scalar)

    unfoldable pub finish : PeerHandshake → Bytes → Bytes → Result CpaceError PeerResult
    unfolding derive_isk mac_for decode_share constant_time_equal
    finish p yb mac_host = finish_shared p yb mac_host (decode_share yb host)

    -- `expected_peer` is what `verifyPeer` compares with.
    pub record HostHandshake : Type 0 where
      pub yb : Bytes
      pub mac_host : Bytes
      pub isk : Bytes
      pub expected_peer : Bytes

    unfoldable pub verify_peer : HostHandshake → Bytes → Bool
    unfolding constant_time_equal
    verify_peer h mac_peer = constant_time_equal mac_peer h.expected_peer

    abbrev respond_with : Bytes → Bytes → Bytes → g.Point → Result CpaceError HostHandshake
    respond_with sid ya yb k =
        let isk = derive_isk sid (g.to_bytes k) ya [] yb [] in
        if g.is0 k
        then err identity_secret
        else ok (record {
          yb = yb;
          mac_host = mac_for isk host sid ya yb;
          isk = isk;
          expected_peer = mac_for isk peer sid ya yb;
        })

    abbrev respond_shared :
        ℕ
        → Bytes
        → CpaceBinding
        → Bytes
        → Bytes
        → Result CpaceError g.Point
        → Result CpaceError HostHandshake
    respond_shared scalar w binding sid ya (err e) = err e
    respond_shared scalar w binding sid ya (ok point) =
        respond_with sid ya (g.to_bytes (g.multiply (calculate_generator w binding sid) scalar))
          (g.multiply point scalar)

    unfoldable pub host_respond :
        ℕ → Bytes → CpaceBinding → Bytes → Bytes → Result CpaceError HostHandshake
    unfolding derive_isk mac_for calculate_generator decode_share
    host_respond scalar w binding sid ya =
        if length sid == sid_bytes
        then respond_shared scalar w binding sid ya (decode_share ya peer)
        else err bad_sid
