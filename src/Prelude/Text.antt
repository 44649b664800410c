-- ===== src/Prelude/Text.antt =====
-- JavaScript strings as their lists of UTF-16 code units: `===`, `<`, `startsWith`, `endsWith`.
use Prim.Native.Char.{code}
use Prim.Native.String.{String}
use Prim.Native.Nat.{ℕ, compare, Ordering}
use mathlib.Core.Path.{◌≡◌, refl}
use mathlib.Core.Logic.{◌↔◌, inl, inr}
use mathlib.Core.Bool.{Bool, true, false, ◌&&◌}
use mathlib.Core.List.{List, [], ◌∷◌}
use native.Mathlib.Omega.{arith}
use screen_sharing.Prelude.Tests.{Eq, ◌==◌, Bool-cases}

abbrev pub JsString : Type 0
JsString = List ℕ

-- The code units of a literal, whose characters all lie below U+10000.
abbrev pub units : String → JsString
units String.[] = []
units (String.◌∷◌ c s) = code c ∷ units s

abbrev pub str_eq : JsString → JsString → Bool
str_eq [] [] = true
str_eq [] (y ∷ ys) = false
str_eq (x ∷ xs) [] = false
str_eq (x ∷ xs) (y ∷ ys) = x == y && str_eq xs ys

pub str_eq→eq : (a b : JsString) → str_eq a b ≡ true → a ≡ b
str_eq→eq [] [] h = refl
str_eq→eq [] (y ∷ ys) h = cc
str_eq→eq (x ∷ xs) [] h = cc
str_eq→eq (x ∷ xs) (y ∷ ys) h = ground (arith, str_eq→eq xs ys)

pub str_eq_self : (a : JsString) → str_eq a a ≡ true
str_eq_self [] = refl
str_eq_self (x ∷ xs) = ground (arith, str_eq_self xs)

pub str_eq_iff : (a b : JsString) → (str_eq a b ≡ true) ↔ (a ≡ b)
str_eq_iff a b = (str_eq→eq a b, λ p. rw p (str_eq_self b))

instance abbrev pub js_string_eq : Eq JsString
js_string_eq = record { beq = str_eq; beq_iff = str_eq_iff }

-- `a < b`: the first differing code unit decides, and a proper prefix is smaller.
abbrev pub str_lt : JsString → JsString → Bool
str_lt [] [] = false
str_lt [] (y ∷ ys) = true
str_lt (x ∷ xs) [] = false
str_lt (x ∷ xs) (y ∷ ys) = elim (compare x y) [
  | Ordering.lt ↦ true
  | Ordering.eq ↦ str_lt xs ys
  | Ordering.gt ↦ false
]

pub str_lt_irrefl : (a : JsString) → str_lt a a ≡ false
str_lt_irrefl [] = refl
str_lt_irrefl (x ∷ xs) = ground (arith, str_lt_irrefl xs)

pub str_lt_trans : (a b c : JsString) → str_lt a b ≡ true → str_lt b c ≡ true → str_lt a c ≡ true
str_lt_trans [] [] c h k = cc
str_lt_trans [] (y ∷ ys) [] h k = cc
str_lt_trans [] (y ∷ ys) (z ∷ zs) h k = refl
str_lt_trans (x ∷ xs) [] c h k = cc
str_lt_trans (x ∷ xs) (y ∷ ys) [] h k = cc
str_lt_trans (x ∷ xs) (y ∷ ys) (z ∷ zs) h k = ground (arith, str_lt_trans xs ys zs)

pub str_lt_connected : (a b : JsString) → str_lt a b ≡ false → str_lt b a ≡ false → a ≡ b
str_lt_connected [] [] h k = refl
str_lt_connected [] (y ∷ ys) h k = cc
str_lt_connected (x ∷ xs) [] h k = cc
str_lt_connected (x ∷ xs) (y ∷ ys) h k = ground (arith, str_lt_connected xs ys)

pub str_lt_asymm : (a b : JsString) → str_lt a b ≡ true → str_lt b a ≡ false
str_lt_asymm [] [] h = cc
str_lt_asymm [] (y ∷ ys) h = refl
str_lt_asymm (x ∷ xs) [] h = cc
str_lt_asymm (x ∷ xs) (y ∷ ys) h = ground (arith, str_lt_asymm xs ys)

-- "Not smaller" is transitive.
pub str_ge_trans : (a b c : JsString) → str_lt b a ≡ false → str_lt c b ≡ false → str_lt c a ≡ false
str_ge_trans a b c h k = elim (Bool-cases (str_lt c a)) [
  | inr f ↦ f
  | inl t ↦ elim (Bool-cases (str_lt b c)) [
    | inl u ↦ cc (str_lt_trans b c a u t, h)
    | inr v ↦ cc (str_lt_connected b c v k, h)
  ]
]
