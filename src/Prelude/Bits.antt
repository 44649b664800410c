-- ===== src/Prelude/Bits.antt =====
-- The bit masks of the code as arithmetic.
use Prim.Native.Nat.{
  ℕ, zero, suc, ◌+◌, ◌*◌, ◌/◌, ◌%◌, ◌≤◌, ◌<◌, min, bit_and, bit_or, digits, bit_and-bitwise,
}
use mathlib.Core.Path.{◌≡◌, refl}
use mathlib.Core.Bool.{Bool, true, ◌&&◌}
use native.Mathlib.Nat.{le_refl}
use native.Mathlib.Omega.{arith}
use screen_sharing.Prelude.Tests.{◌==◌, ==_iff}

-- A test at every number below a bound, by evaluation.
holds_below : ℕ → (ℕ → Bool) → Bool
holds_below zero test = true
holds_below (suc k) test = test k && holds_below k test

holds_below_at :
    (k : ℕ) (test : ℕ → Bool) (i : ℕ) → holds_below k test ≡ true → i < k → test i ≡ true
unfolding holds_below
holds_below_at zero test i e h = absurd (omega arith)
holds_below_at (suc k) test i e h = ground (arith, holds_below_at k test i)

set_top_bit_table : holds_below 128 (λ g. bit_or g 0x80 == g + 128) ≡ true
unfolding holds_below
set_top_bit_table = refl

-- `byte | 0x80` on seven bits.
pub set_top_bit : (g : ℕ) → g < 128 → bit_or g 0x80 ≡ g + 128
set_top_bit g h = (==_iff _ (g + 128)).0 (holds_below_at 128 _ g set_top_bit_table h)

-- `&` digit by digit: the recursion that the native operation stands for, on any fuel that suffices.
abbrev and_on : ℕ → ℕ → ℕ → ℕ
and_on fuel n mask = digits (λ rest. zero) min fuel n mask

and_on_enough : (f g n mask : ℕ) → n ≤ f → n ≤ g → and_on f n mask ≡ and_on g n mask
and_on_enough zero zero n mask hf hg = refl
and_on_enough zero (suc g) zero mask hf hg = refl
and_on_enough zero (suc g) (suc n) mask hf hg = absurd (omega arith)
and_on_enough (suc f) zero zero mask hf hg = refl
and_on_enough (suc f) zero (suc n) mask hf hg = absurd (omega arith)
and_on_enough (suc f) (suc g) zero mask hf hg = refl
and_on_enough (suc f) (suc g) (suc n) mask hf hg =
    omega (arith, and_on_enough f g (suc n / 2) (mask / 2) (omega arith) (omega arith))

bit_and_digit :
    (n mask : ℕ) → bit_and n mask ≡ bit_and (n / 2) (mask / 2) * 2 + min (n % 2) (mask % 2)
bit_and_digit zero mask = omega (arith, bit_and-bitwise 0 mask, bit_and-bitwise 0 (mask / 2))
bit_and_digit (suc n) mask = omega (
  arith,
  bit_and-bitwise (suc n) mask,
  bit_and-bitwise (suc n / 2) (mask / 2),
  and_on_enough n (suc n / 2) (suc n / 2) (mask / 2) (omega arith) (omega arith),
)

no_mask : (fuel n : ℕ) → n ≤ fuel → bit_and n 0 ≡ 0
no_mask fuel zero h = refl
no_mask zero (suc n) h = absurd (omega arith)
no_mask (suc fuel) (suc n) h =
    omega (arith, bit_and_digit (suc n) 0, no_mask fuel (suc n / 2) (omega arith))

low_bit : (n : ℕ) → bit_and n 1 ≡ n % 2
low_bit n = omega (arith, bit_and_digit n 1, no_mask _ (n / 2) (le_refl _))

low_two_bits : (n : ℕ) → bit_and n 3 ≡ n % 4
low_two_bits n = omega (arith, bit_and_digit n 3, low_bit (n / 2))

low_three_bits : (n : ℕ) → bit_and n 7 ≡ n % 8
low_three_bits n = omega (arith, bit_and_digit n 7, low_two_bits (n / 2))

low_four_bits : (n : ℕ) → bit_and n 15 ≡ n % 16
low_four_bits n = omega (arith, bit_and_digit n 15, low_three_bits (n / 2))

low_five_bits : (n : ℕ) → bit_and n 31 ≡ n % 32
low_five_bits n = omega (arith, bit_and_digit n 31, low_four_bits (n / 2))

low_six_bits : (n : ℕ) → bit_and n 63 ≡ n % 64
low_six_bits n = omega (arith, bit_and_digit n 63, low_five_bits (n / 2))

-- `n & 0x7f` keeps the low seven bits.
pub low_seven_bits : (n : ℕ) → bit_and n 0x7f ≡ n % 128
low_seven_bits n = omega (arith, bit_and_digit n 127, low_six_bits (n / 2))
