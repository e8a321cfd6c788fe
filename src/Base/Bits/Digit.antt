-- ===== src/Base/Bits/Digit.antt =====
-- One binary digit of `&` and `|`: the native operations mean a recursion on digits with fuel,
-- and here the fuel is dropped.
use Prim.Native.Nat.{
  ℕ, zero, suc, ◌+◌, ◌*◌, ◌/◌, ◌%◌, ◌≤◌, bit_and, bit_or, min, max, digits, bit_and-bitwise,
  bit_or-bitwise,
}
use mathlib.Core.Path.{◌≡◌, refl}
use native.Mathlib.Omega.{arith}

module _ (rest : ℕ → ℕ) (bit : ℕ → ℕ → ℕ) where
  -- Any two amounts of fuel that cover the first number agree.
  enough_fuel : (f g a b : ℕ) → a ≤ f → a ≤ g → digits rest bit f a b ≡ digits rest bit g a b
  enough_fuel zero zero zero b h k = refl
  enough_fuel zero (suc g) zero b h k = refl
  enough_fuel (suc f) zero zero b h k = refl
  enough_fuel (suc f) (suc g) zero b h k = refl
  enough_fuel zero g (suc a) b h k = absurd (omega arith)
  enough_fuel (suc f) zero (suc a) b h k = absurd (omega arith)
  enough_fuel (suc f) (suc g) (suc a) b h k =
      rw (enough_fuel f g (suc a / 2) (b / 2) (omega arith) (omega arith))

pub bit_and_low : (a b : ℕ) → bit_and a b ≡ 2 * bit_and (a / 2) (b / 2) + min (a % 2) (b % 2)
bit_and_low zero b = omega (arith, bit_and-bitwise 0 b, bit_and-bitwise 0 (b / 2))
bit_and_low (suc a) b = omega (
  arith,
  bit_and-bitwise (suc a) b,
  bit_and-bitwise (suc a / 2) (b / 2),
  enough_fuel (λ _. 0) min a (suc a / 2) (suc a / 2) (b / 2) (omega arith) (omega arith),
)

pub bit_or_low : (a b : ℕ) → bit_or a b ≡ 2 * bit_or (a / 2) (b / 2) + max (a % 2) (b % 2)
bit_or_low zero b = omega (arith, bit_or-bitwise 0 b, bit_or-bitwise 0 (b / 2))
bit_or_low (suc a) b = omega (
  arith,
  bit_or-bitwise (suc a) b,
  bit_or-bitwise (suc a / 2) (b / 2),
  enough_fuel (λ y. y) max a (suc a / 2) (suc a / 2) (b / 2) (omega arith) (omega arith),
)
