-- ===== src/Prelude/Bits/Power.antt =====
-- The test `x & (x - 1) == 0` finds exactly the powers of two, and zero.
use Prim.Native.Nat.{ℕ, zero, suc, ◌-◌, ◌/◌, ◌%◌, ◌^◌, ◌≤◌, ◌<◌, bit_and}
use mathlib.Core.Path.{◌≡◌, refl}
use mathlib.Core.Logic.{◌⊎◌, inl, inr}
use native.Mathlib.Omega.{arith}
use mimalloc_mc.Prelude.Bits.{two_pow_suc, two_pow_pos}
use mimalloc_mc.Prelude.Bits.Digits.{bit_and_step, none_of_zero}

bit_and_self_below : (n a : ℕ) → a ≤ n → bit_and a a ≡ a
bit_and_self_below n zero h = none_of_zero 0
bit_and_self_below zero (suc a) h = absurd (omega arith)
bit_and_self_below (suc n) (suc a) h =
    omega (arith, bit_and_step (suc a) (suc a), bit_and_self_below n (suc a / 2) (omega arith))

parity : (n : ℕ) → (n % 2 ≡ 0) ⊎ (n % 2 ≡ 1)
parity zero = inl refl
parity (suc n) = elim (parity n) [ inl e ↦ inr (omega arith) | inr e ↦ inl (omega arith) ]

-- `n + 1` shares no digit with `n` only if it is a power of two.
power_below : (m n : ℕ) → n < m → bit_and (suc n) n ≡ 0 → (k : ℕ) × (suc n ≡ 2 ^ k)
power_below zero n h e = absurd (omega arith)
power_below (suc m) n h e = elim (parity n) [
  | inl even ↦
      let same : suc n / 2 ≡ n / 2 = omega arith in
      let none_above : n / 2 ≡ 0 = omega (
        arith,
        rw same at (bit_and_step (suc n) n),
        bit_and_self_below (n / 2) (n / 2) (omega arith),
      ) in
      (0, omega arith)
  | inr odd ↦
      let next : suc n / 2 ≡ suc (n / 2) = omega arith in
      let (k, half) =
        power_below m (n / 2) (omega arith) (omega (arith, rw next at (bit_and_step (suc n) n))) in
      (suc k, omega (arith, two_pow_suc k))
]

pub power_of_bit_and : (a : ℕ) → 0 < a → bit_and a (a - 1) ≡ 0 → (k : ℕ) × (a ≡ 2 ^ k)
power_of_bit_and zero h e = absurd (omega arith)
power_of_bit_and (suc n) h e =
    let pred : suc n - 1 ≡ n = omega arith in power_below (suc n) n (omega arith) (rw pred at e)

disjoint_below : (k : ℕ) → bit_and (2 ^ k) (2 ^ k - 1) ≡ 0
disjoint_below zero = refl
disjoint_below (suc k) =
    let up : 2 ^ suc k / 2 ≡ 2 ^ k = omega (arith, two_pow_suc k) in
    let down : (2 ^ suc k - 1) / 2 ≡ 2 ^ k - 1 = omega (arith, two_pow_suc k, two_pow_pos k) in
    let even : 2 ^ suc k % 2 ≡ 0 = omega (arith, two_pow_suc k) in
    omega
      (arith, rw (up, down, even) at (bit_and_step (2 ^ suc k) (2 ^ suc k - 1)), disjoint_below k)

pub bit_and_of_power : (a k : ℕ) → a ≡ 2 ^ k → bit_and a (a - 1) ≡ 0
bit_and_of_power a k e = rw e (disjoint_below k)
