-- ===== src/Prelude/Bits/Digits.antt =====
-- The native bit operations by one binary digit at a time.
use Prim.Native.Nat.{
  ℕ, zero, suc, ◌+◌, ◌*◌, ◌/◌, ◌%◌, ◌≤◌, ◌<◌, min, max, digits, bit_and, bit_or, bit_and-bitwise,
  bit_or-bitwise,
}
use mathlib.Core.Path.{◌≡◌, refl, ap}
use native.Mathlib.Nat.{div-div-eq-div-mul, div-add-mod}
use native.Mathlib.Omega.{arith}

-- The count of digits to go does not matter while it is large enough.
module _ (z : ℕ → ℕ) (f : ℕ → ℕ → ℕ) where
  enough : (n m a b : ℕ) → a ≤ n → a ≤ m → digits z f n a b ≡ digits z f m a b
  enough zero zero zero b p q = refl
  enough zero (suc m) zero b p q = refl
  enough (suc n) zero zero b p q = refl
  enough (suc n) (suc m) zero b p q = refl
  enough zero m (suc a) b p q = absurd (omega arith)
  enough (suc n) zero (suc a) b p q = absurd (omega arith)
  enough (suc n) (suc m) (suc a) b p q =
      rw (enough n m (suc a / 2) (b / 2) (omega arith) (omega arith))

  -- Any operation that goes by digits is computed from the halves and the lowest digits.
  by_halves :
      (op : ℕ → ℕ → ℕ)
      → ((x y : ℕ) → op x y ≡ digits z f x x y)
      → (x y : ℕ) → op (suc x) y ≡ f (suc x % 2) (y % 2) + 2 * op (suc x / 2) (y / 2)
  by_halves op by_digits x y =
      let half = by_digits (suc x / 2) (y / 2) in
      let whole = by_digits (suc x) y in
      let same = enough x (suc x / 2) (suc x / 2) (y / 2) (omega arith) (omega arith) in omega arith

pub none_of_zero : (y : ℕ) → bit_and 0 y ≡ 0
none_of_zero y = bit_and-bitwise 0 y

pub bit_and_step : (x y : ℕ) → bit_and x y ≡ min (x % 2) (y % 2) + 2 * bit_and (x / 2) (y / 2)
bit_and_step (suc x) y = by_halves (λ _. 0) min bit_and bit_and-bitwise x y
bit_and_step zero y = omega (arith, none_of_zero (y / 2), none_of_zero y)

pub bit_or_step : (x y : ℕ) → bit_or x y ≡ max (x % 2) (y % 2) + 2 * bit_or (x / 2) (y / 2)
bit_or_step (suc x) y = by_halves (λ y. y) max bit_or bit_or-bitwise x y
bit_or_step zero y = omega (arith, bit_or-bitwise 0 (y / 2), bit_or-bitwise 0 y)

and_zero_below : (bound x : ℕ) → x < bound → bit_and x 0 ≡ 0
and_zero_below (suc bound) (suc x) below =
    let half = and_zero_below bound (suc x / 2) (omega arith) in
    omega (arith, half, bit_and_step (suc x) 0)
and_zero_below (suc bound) zero below = none_of_zero 0
and_zero_below zero x below = absurd (omega arith)

pub bit_and-zero : (a : ℕ) → bit_and a 0 ≡ 0
bit_and-zero a = and_zero_below (suc a) a (omega arith)

-- The remainder by 2 * m from the remainder of the half by m.
pub mod_two_mul : (a m : ℕ) → 0 < m → a % (2 * m) ≡ 2 * (a / 2 % m) + a % 2
mod_two_mul a m pos = omega (
  arith,
  ap (λ (t : ℕ). 2 * m * t) (div-div-eq-div-mul a 2 m),
  div-add-mod (a / 2) m,
  div-add-mod a (2 * m),
)
