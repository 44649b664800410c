-- ===== src/Crypto/Lv/Unambiguous.antt =====
-- The encoding of a list of fields determines the fields: no field can bleed into the next.
use mathlib.Core.List.{append_assoc}
use screen_sharing.Prelude.{
  ℕ, zero, suc, ◌+◌, ◌*◌, ◌/◌, ◌%◌, ◌≤◌, ◌<◌, ◌≡◌, refl, Option, none, some, List, [], ◌∷◌, ◌++◌,
  map, ltb, length, if◌then◌else◌, arith, take, drop, take-append_length, drop-append_length,
  length-append, Bool-cases, inl, inr,
}
use screen_sharing.Prelude.Bytes.{Bytes}
use screen_sharing.Prelude.Bits.{low_seven_bits, set_top_bit}
use screen_sharing.Crypto.Lv.{leb128, leb128_loop, prepend_len, concat_bytes, lv_cat}

-- Reading a LEB128 number: the groups of seven bits up to a byte without the top bit, and the rest.
unfoldable pub read_leb128 : Bytes → Option (ℕ × Bytes)
read_leb128 [] = none
read_leb128 (b ∷ bs) =
    let rest = read_leb128 bs in
    if ltb b 128
    then some (b, bs)
    else elim rest [ none ↦ none | some (v, r) ↦ some (b % 128 + 128 * v, r) ]

-- Reading a field: its length, then so many bytes.
unfoldable pub read_field : Bytes → Option (Bytes × Bytes)
read_field buf = elim (read_leb128 buf) [
  | none ↦ none
  | some (n, rest) ↦ if ltb (length rest) n then none else some (take n rest, drop n rest)
]

-- Reading so many fields.
unfoldable pub read_fields : ℕ → Bytes → Option (List Bytes × Bytes)
read_fields zero buf = some ([], buf)
read_fields (suc k) buf = elim (read_field buf) [
  | none ↦ none
  | some (field, rest) ↦ elim (read_fields k rest) [
    | none ↦ none
    | some (fields, left) ↦ some (field ∷ fields, left)
  ]
]

leb128_loop_last : (fuel n : ℕ) → n < 128 → leb128_loop (suc fuel) n ≡ n ∷ []
unfolding leb128_loop
leb128_loop_last fuel n h = ground (arith, low_seven_bits n)

leb128_loop_more :
    (fuel n : ℕ) → 128 ≤ n → leb128_loop (suc fuel) n ≡ (n % 128 + 128) ∷ leb128_loop fuel (n / 128)
unfolding leb128_loop
leb128_loop_more fuel n h = ground (arith, low_seven_bits n, set_top_bit (n % 128))

read_leb128-loop :
    (fuel n : ℕ) (rest : Bytes)
    → n < fuel
    → read_leb128 (leb128_loop fuel n ++ rest) ≡ some (n, rest)
unfolding read_leb128
read_leb128-loop zero n rest h = absurd (omega arith)
read_leb128-loop (suc fuel) n rest h = elim (Bool-cases (ltb n 128)) [
  | inl t ↦ rw (leb128_loop_last fuel n (ground arith)) (ground arith)
  | inr f ↦
      rw (leb128_loop_more fuel n (ground arith))
        (ground (arith, read_leb128-loop fuel (n / 128) rest (ground arith)))
]

-- `leb128` never runs out of its fuel, and a reader gets back the number it was given, whatever follows:
-- the encodings form a prefix code.
pub read_leb128-leb128 : (n : ℕ) (rest : Bytes) → read_leb128 (leb128 n ++ rest) ≡ some (n, rest)
unfolding leb128
read_leb128-leb128 n rest = read_leb128-loop (suc n) n rest (omega arith)

read_field-prepend_len :
    (field rest : Bytes) → read_field (prepend_len field ++ rest) ≡ some (field, rest)
unfolding read_field prepend_len
read_field-prepend_len field rest = rw (append_assoc (leb128 (length field)) field rest) (
    ground (
      arith,
      read_leb128-leb128 (length field) (field ++ rest),
      take-append_length field rest,
      drop-append_length field rest,
      length-append field rest,
    ))

-- A reader that knows how many fields were concatenated gets exactly these fields back from `lvCat`,
-- and whatever was put behind them.
pub read_fields-lv_cat :
    (fields : List Bytes) (rest : Bytes)
    → read_fields (length fields) (lv_cat fields ++ rest) ≡ some (fields, rest)
unfolding read_fields lv_cat concat_bytes
read_fields-lv_cat [] rest = refl
read_fields-lv_cat (f ∷ fs) rest =
    rw (append_assoc (prepend_len f) (concat_bytes (map prepend_len fs)) rest) (
      ground (
        arith,
        read_field-prepend_len f (concat_bytes (map prepend_len fs) ++ rest),
        read_fields-lv_cat fs rest,
      ))

-- Two lists of as many fields with one encoding are the same list: no field bleeds into the next.
pub lv_cat-injective :
    (xs ys : List Bytes) → length xs ≡ length ys → lv_cat xs ≡ lv_cat ys → xs ≡ ys
lv_cat-injective xs ys h e = cc (read_fields-lv_cat xs [], read_fields-lv_cat ys [], h, e)
