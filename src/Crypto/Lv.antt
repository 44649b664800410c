-- ===== src/Crypto/Lv.antt =====
-- src/main/crypto/lv.ts: length-value concatenation.
pub mod Unambiguous
use screen_sharing.Prelude.{
  ℕ, zero, suc, ◌+◌, ◌/◌, ◌%◌, ◌<◌, ◌≡◌, List, [], ◌∷◌, ◌++◌, map, length, ltb, if◌then◌else◌,
}
use screen_sharing.Prelude.Bytes.{Bytes}
use Prim.Native.Nat.{bit_and, bit_or}

-- The `do … while (n > 0)` of `leb128`, on fuel; each round divides `n` by 128.
unfoldable pub leb128_loop : ℕ → ℕ → Bytes
leb128_loop zero n = []
leb128_loop (suc fuel) n =
    let byte : ℕ = bit_and n 0x7f in
    let rest = leb128_loop fuel (n / 128) in
    if ltb 0 (n / 128) then bit_or byte 0x80 ∷ rest else byte ∷ []

unfoldable pub leb128 : ℕ → Bytes
unfolding leb128_loop
leb128 value = leb128_loop (suc value) value

-- prepend_len(bytes)
unfoldable pub prepend_len : Bytes → Bytes
prepend_len bytes = leb128 (length bytes) ++ bytes

unfoldable pub concat_bytes : List Bytes → Bytes
concat_bytes [] = []
concat_bytes (a ∷ rest) = a ++ concat_bytes rest

-- lv_cat(a, b, c, ...)
unfoldable pub lv_cat : List Bytes → Bytes
lv_cat fields = concat_bytes (map prepend_len fields)
