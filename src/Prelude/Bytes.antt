-- ===== src/Prelude/Bytes.antt =====
-- Node's `Buffer` as a list of bytes, with its big-endian reads and writes. A read past the end and a
-- write of a value that does not fit throw in Node; here they answer `none`.
use Prim.Native.Nat.{ℕ, zero, suc, ◌+◌, ◌-◌, ◌*◌, ◌/◌, ◌%◌, ◌^◌, ◌<◌, ◌≤◌}
use mathlib.Core.Path.{◌≡◌, refl, subst}
use native.Mathlib.Nat.{pow-suc}
use mathlib.Core.Bool.{Bool, false}
use mathlib.Core.Option.{Option, none, some}
use mathlib.Core.List.{List, [], ◌∷◌, ◌++◌}
use native.Mathlib.Omega.{arith}
use screen_sharing.Prelude.Tests.{ltb, ◌==◌, if◌then◌else◌}
use screen_sharing.Prelude.Lists.{
  length, take, drop, get_elem?, All, All-append, length-append, take-append_length,
  drop-append_length,
}

abbrev pub Bytes : Type 0
Bytes = List ℕ

abbrev pub IsByte : ℕ → Type 0
IsByte b = b < 256

-- `n` big-endian bytes of `v`, of its low 8 * n bits.
unfoldable pub be_bytes : ℕ → ℕ → Bytes
be_bytes zero v = []
be_bytes (suc n) v = be_bytes n (v / 256) ++ (v % 256 ∷ [])

-- The number that a list of bytes stands for, the first byte highest.
unfoldable pub be_value : ℕ → Bytes → ℕ
be_value acc [] = acc
be_value acc (b ∷ bs) = be_value (acc * 256 + b) bs

pub length-be_bytes : (n v : ℕ) → length (be_bytes n v) ≡ n
unfolding be_bytes
length-be_bytes zero v = refl
length-be_bytes (suc n) v =
    omega (arith, length-append (be_bytes n (v / 256)) (v % 256 ∷ []), length-be_bytes n (v / 256))

pub IsByte-be_bytes : (n v : ℕ) → All IsByte (be_bytes n v)
unfolding be_bytes
IsByte-be_bytes zero v = tt
IsByte-be_bytes (suc n) v =
    All-append IsByte (be_bytes n (v / 256)) _ (IsByte-be_bytes n (v / 256)) (omega arith)

pub be_value-append :
    (acc : ℕ) (xs ys : Bytes) → be_value acc (xs ++ ys) ≡ be_value (be_value acc xs) ys
unfolding be_value
be_value-append acc [] ys = refl
be_value-append acc (x ∷ xs) ys = be_value-append (acc * 256 + x) xs ys

pub be_value-be_bytes : (n v : ℕ) → v < 256 ^ n → be_value 0 (be_bytes n v) ≡ v
unfolding be_value be_bytes
be_value-be_bytes zero v h = omega arith
be_value-be_bytes (suc n) v h =
    rw
      (
        be_value-append 0 (be_bytes n (v / 256)) (v % 256 ∷ []),
        be_value-be_bytes n (v / 256) (omega (arith, rw (pow-suc 256 n) at h)),
      )
      (omega arith)

-- `buf.writeUInt32BE(v)` into four fresh bytes; Node throws a RangeError above 2^32 - 1.
unfoldable pub write_uint32_be : ℕ → Option Bytes
write_uint32_be v = if ltb v (2 ^ 32) then some (be_bytes 4 v) else none

-- `buf.subarray(start, end)`, with `start ≤ end`.
abbrev pub subarray : Bytes → ℕ → ℕ → Bytes
subarray buf start end = take (end - start) (drop start buf)

-- `buf.readUIntBE(offset, n)`; Node throws when it would read past the end.
unfoldable pub read_uint_be : ℕ → Bytes → ℕ → Option ℕ
read_uint_be n buf offset =
    if ltb (length buf) (offset + n) then none else some (be_value 0 (take n (drop offset buf)))

-- Reading back `n` bytes that were written behind a header.
pub read_uint_be-be_bytes :
    (n v : ℕ) (front rest : Bytes)
    → v < 256 ^ n
    → read_uint_be n (front ++ (be_bytes n v ++ rest)) (length front) ≡ some v
unfolding read_uint_be
read_uint_be-be_bytes n v front rest h = ground (
  arith,
  length-append front (be_bytes n v ++ rest),
  length-append (be_bytes n v) rest,
  length-be_bytes n v,
  drop-append_length front (be_bytes n v ++ rest),
  take_front,
  be_value-be_bytes n v h,
)
  where
    take_front : take n (be_bytes n v ++ rest) ≡ be_bytes n v
    take_front =
        subst (λ k. take k (be_bytes n v ++ rest) ≡ be_bytes n v) (length-be_bytes n v)
          (take-append_length (be_bytes n v) rest)

-- `buf[i] === b`, false past the end.
abbrev pub byte_is : Bytes → ℕ → ℕ → Bool
byte_is buf i b = elim (get_elem? buf i) [ none ↦ false | some x ↦ x == b ]

-- A write that Node accepts, and the value read back behind a one-byte tag.
pub write_uint32_be_fits : (v : ℕ) → v < 2 ^ 32 → write_uint32_be v ≡ some (be_bytes 4 v)
unfolding write_uint32_be
write_uint32_be_fits v h = ground arith

pub write_uint32_be_throws : (v : ℕ) → 2 ^ 32 ≤ v → write_uint32_be v ≡ none
unfolding write_uint32_be
write_uint32_be_throws v h = ground arith

pub read_uint32_be-tagged :
    (tag v : ℕ) (rest : Bytes)
    → v < 2 ^ 32
    → read_uint_be 4 (tag ∷ (be_bytes 4 v ++ rest)) 1 ≡ some v
read_uint32_be-tagged tag v rest h = read_uint_be-be_bytes 4 v (tag ∷ []) rest h
