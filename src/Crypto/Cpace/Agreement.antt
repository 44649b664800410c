-- ===== src/Crypto/Cpace/Agreement.antt =====
-- The two sides of the key exchange against each other.
use Prim.Native.Nat.{digits, differ, bit_or, bit_xor, bit_xor-bitwise, bit_or-bitwise}
use screen_sharing.Prelude.{
  ℕ, zero, suc, ◌/◌, ◌%◌, ◌≤◌, ◌<◌, ◌≡◌, refl, ap, ◌∙◌, true, false, List, [], ◌∷◌, length, ok,
  arith,
}
use screen_sharing.Prelude.Bytes.{Bytes}
use screen_sharing.Crypto.Lv.Unambiguous.{lv_cat-injective}
use screen_sharing.Crypto.Kdf.{Hashes}
use screen_sharing.Crypto.Cpace
use screen_sharing.Crypto.Cpace.{
  Group, Who, CpaceError, CpaceBinding, PeerHandshake, PeerResult, HostHandshake, generator_string,
  calculate_generator, decode_share, peer_begin, finish, host_respond, verify_peer,
  constant_time_equal, differences, mac_for, derive_isk,
}

differ_self : (x : ℕ) → differ x x ≡ 0
differ_self zero = refl
differ_self (suc x) = differ_self x

digits_self : (n a : ℕ) → a ≤ n → digits (λ b. b) differ n a a ≡ 0
digits_self zero a h = omega (arith, h)
digits_self (suc n) zero h = refl
digits_self (suc n) (suc a) h =
    omega (arith, digits_self n (suc a / 2) (omega (arith, h)), differ_self (suc a % 2))

bit_xor_self : (a : ℕ) → bit_xor a a ≡ 0
bit_xor_self a = bit_xor-bitwise a a ∙ digits_self a a (omega arith)

differences_self : (xs : Bytes) → differences 0 xs xs ≡ 0
unfolding differences
differences_self [] = refl
differences_self (x ∷ xs) =
    ap (λ d. differences d xs xs) (ap (bit_or 0) (bit_xor_self x) ∙ bit_or-bitwise 0 0)
    ∙ differences_self xs

pub constant_time_equal_self : (xs : Bytes) → constant_time_equal xs xs ≡ true
unfolding constant_time_equal
constant_time_equal_self xs = ground (arith, differences_self xs)

module _ (h : Hashes) (g : Group) where
  decode_share-to_bytes :
      (p : g.Point) (who : Who) → g.is0 p ≡ false → decode_share h g (g.to_bytes p) who ≡ ok p
  unfolding decode_share
  decode_share-to_bytes p who there = rw (g.length-to_bytes p, g.from_bytes-to_bytes p, there) refl

-- What one side of the exchange knows: a scalar, the password key, the binding and the session id.
pub record IsPair (h : Hashes) (g : Group) (a b : ℕ) (w : Bytes) (binding : CpaceBinding)
    (sid : Bytes) : Type 0 where
  pub sid_length : length sid ≡ 16
  pub generator : g.is0 (calculate_generator h g w binding sid) ≡ false
  pub peer_scalar : (1 ≤ a) × (a < g.order)
  pub host_scalar : (1 ≤ b) × (b < g.order)

module _ (h : Hashes) (g : Group) (a b : ℕ) (w : Bytes) (binding : CpaceBinding) (sid : Bytes) where
  abbrev base : g.Point
  base = calculate_generator h g w binding sid

  abbrev pub begun : PeerHandshake h g
  begun = record { ya = g.to_bytes (g.multiply base a); scalar = a; sid = sid }

  abbrev host_share : Bytes
  host_share = g.to_bytes (g.multiply base b)

  abbrev pub secret : Bytes
  secret =
      derive_isk h sid (g.to_bytes (g.multiply (g.multiply base a) b)) begun.ya [] host_share []

  abbrev pub answered : HostHandshake h g
  answered = record {
    yb = host_share;
    mac_host = mac_for h secret Cpace.host sid begun.ya host_share;
    isk = secret;
    expected_peer = mac_for h secret Cpace.peer sid begun.ya host_share;
  }

  pub peer_begin_lem : length sid ≡ 16 → peer_begin h g a w binding sid ≡ ok begun
  unfolding peer_begin
  peer_begin_lem e = rw e refl

  pub host_respond_lem :
      IsPair h g a b w binding sid → host_respond h g b w binding sid begun.ya ≡ ok answered
  unfolding host_respond
  host_respond_lem p =
      let ya_there = g.multiply-is0 base a p.generator p.peer_scalar.0 p.peer_scalar.1 in
      rw
        (
          p.sid_length,
          decode_share-to_bytes h g (g.multiply base a) Cpace.peer ya_there,
          g.multiply-is0 (g.multiply base a) b ya_there p.host_scalar.0 p.host_scalar.1,
        )
        refl

  pub finish_lem :
      IsPair h g a b w binding sid
      → finish h g begun answered.yb answered.mac_host
        ≡ ok (record { isk = secret; mac_peer = answered.expected_peer; host_confirmed = true })
  unfolding finish
  finish_lem p =
      let yb_there = g.multiply-is0 base b p.generator p.host_scalar.0 p.host_scalar.1 in
      rw
        (
          decode_share-to_bytes h g (g.multiply base b) Cpace.host yb_there,
          g.multiply_comm base b a,
          g.multiply-is0 (g.multiply base a) b
              (g.multiply-is0 base a p.generator p.peer_scalar.0 p.peer_scalar.1) p.host_scalar.0
              p.host_scalar.1,
          constant_time_equal_self answered.mac_host,
        )
        refl

pub verify_peer_lem :
    (h : Hashes) (g : Group) (r : HostHandshake h g) → verify_peer h g r r.expected_peer ≡ true
unfolding verify_peer
verify_peer_lem h g r = constant_time_equal_self r.expected_peer

-- A host and a peer with the same password key, binding and session id both end the exchange without an
-- error, with one and the same session key, and each accepts the other's confirmation. For scalars below
-- the group's order, a session id of 16 bytes, and a generator that is not the identity.
pub host_respond-finish :
    (h : Hashes) (g : Group) (a b : ℕ) (w : Bytes) (binding : CpaceBinding) (sid : Bytes)
    → IsPair h g a b w binding sid
    → (p : PeerHandshake h g) × (r : HostHandshake h g) × (isk : Bytes) × (mac_peer : Bytes)
      × (peer_begin h g a w binding sid ≡ ok p)
      × (host_respond h g b w binding sid p.ya ≡ ok r)
      × (finish h g p r.yb r.mac_host
          ≡ ok (record { isk = isk; mac_peer = mac_peer; host_confirmed = true }))
      × (r.isk ≡ isk)
      × (verify_peer h g r mac_peer ≡ true)
host_respond-finish h g a b w binding sid p =
    let r = answered h g a b w binding sid in
    (
      begun h g a b w binding sid,
      r,
      r.isk,
      r.expected_peer,
      peer_begin_lem h g a b w binding sid p.sid_length,
      host_respond_lem h g a b w binding sid p,
      finish_lem h g a b w binding sid p,
      refl,
      verify_peer_lem h g r,
    )

-- The string that the generator is hashed from tells the password key, the channel id and the session id
-- apart: it is one string only for the same three.
pub generator_string-injective :
    (h : Hashes) (w w' ci ci' sid sid' : Bytes)
    → generator_string h w ci sid ≡ generator_string h w' ci' sid'
    → (w ≡ w') × (ci ≡ ci') × (sid ≡ sid')
unfolding generator_string
generator_string-injective h w w' ci ci' sid sid' e =
    let same = lv_cat-injective _ _ refl e in
    (ap (field 1) same, ap (field 3) same, ap (field 4) same)
  where
    field : ℕ → List Bytes → Bytes
    field n [] = []
    field zero (x ∷ xs) = x
    field (suc n) (x ∷ xs) = field n xs
