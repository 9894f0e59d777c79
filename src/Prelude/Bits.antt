-- ===== src/Prelude/Bits.antt =====
-- Binary digits of native numbers: what `&` and `|` do digit by digit, and the masks of the source.
mod Digits
pub mod Power
use Digits.{bit_and_step, bit_or_step}
use Prim.Native.Nat.{
  ℕ, zero, suc, ◌+◌, ◌-◌, ◌*◌, ◌/◌, ◌%◌, ◌^◌, ◌≤◌, ◌<◌, min, max, bit_and, bit_or,
}
use mathlib.Core.Path.{◌≡◌, refl, ap}
use mathlib.Core.Logic.{◌⊎◌, inl, inr}
use native.Mathlib.Nat.{pow-suc, one-le-pow}
use native.Mathlib.Omega.{arith}

-- The digit of weight 2 ^ i.
abbrev pub bit : ℕ → ℕ → ℕ
bit zero x = x % 2
bit (suc i) x = bit i (x / 2)

pub bit-lt : (i x : ℕ) → bit i x < 2
bit-lt zero x = omega arith
bit-lt (suc i) x = bit-lt i (x / 2)

pub bit-zero : (i : ℕ) → bit i 0 ≡ 0
bit-zero zero = refl
bit-zero (suc i) = bit-zero i

pub bit-bit_and : (i a b : ℕ) → bit i (bit_and a b) ≡ min (bit i a) (bit i b)
bit-bit_and zero a b = omega (arith, bit_and_step a b)
bit-bit_and (suc i) a b =
    let half : bit_and a b / 2 ≡ bit_and (a / 2) (b / 2) = omega (arith, bit_and_step a b) in
    rw half (bit-bit_and i (a / 2) (b / 2))

pub bit-bit_or : (i a b : ℕ) → bit i (bit_or a b) ≡ max (bit i a) (bit i b)
bit-bit_or zero a b = omega (arith, bit_or_step a b)
bit-bit_or (suc i) a b =
    let half : bit_or a b / 2 ≡ bit_or (a / 2) (b / 2) = omega (arith, bit_or_step a b) in
    rw half (bit-bit_or i (a / 2) (b / 2))

pub two_pow_suc : (k : ℕ) → 2 ^ suc k ≡ 2 * 2 ^ k
two_pow_suc k = omega (arith, pow-suc 2 k)

pub two_pow_add : (j k : ℕ) → 2 ^ (j + k) ≡ 2 ^ j * 2 ^ k
two_pow_add zero k = let e : zero + k ≡ k = omega arith in rw e (omega arith)
two_pow_add (suc j) k =
    let e : suc j + k ≡ suc (j + k) = omega arith in
    rw e (
      omega
        (arith, two_pow_suc (j + k), two_pow_add j k, ap (λ (t : ℕ). t * 2 ^ k) (two_pow_suc j)))

pub two_pow_pos : (k : ℕ) → 0 < 2 ^ k
two_pow_pos k = one-le-pow k 2 (omega arith)

-- Numbers below 2 ^ w with the same w digits are equal.
pub bit_ext : (w a b : ℕ) → a < 2 ^ w → b < 2 ^ w → ((i : ℕ) → i < w → bit i a ≡ bit i b) → a ≡ b
bit_ext zero a b ha hb h = omega arith
bit_ext (suc w) a b ha hb h = omega (
  arith,
  h 0 (omega arith),
  bit_ext w (a / 2) (b / 2) (omega (arith, two_pow_suc w)) (omega (arith, two_pow_suc w))
      (λ i p. h (suc i) (omega arith)),
)

pub bit_and-zero : (a : ℕ) → bit_and a 0 ≡ 0
bit_and-zero a = Digits.bit_and-zero a

pub bit_or-lt : (w a b : ℕ) → a < 2 ^ w → b < 2 ^ w → bit_or a b < 2 ^ w
bit_or-lt zero a b ha hb = rw (ea, eb) (omega arith)
  where
    ea : a ≡ 0
    ea = omega arith

    eb : b ≡ 0
    eb = omega arith
bit_or-lt (suc w) a b ha hb = omega (
  arith,
  two_pow_suc w,
  bit_or_step a b,
  bit_or-lt w (a / 2) (b / 2) (omega (arith, two_pow_suc w)) (omega (arith, two_pow_suc w)),
)

pub bit_and-le : (n a b : ℕ) → a ≤ n → bit_and a b ≤ a
bit_and-le zero zero b h = omega (arith, Digits.none_of_zero b)
bit_and-le zero (suc a) b h = absurd (omega arith)
bit_and-le (suc n) zero b h = omega (arith, Digits.none_of_zero b)
bit_and-le (suc n) (suc a) b h =
    omega (arith, bit_and_step (suc a) b, bit_and-le n (suc a / 2) (b / 2) (omega arith))

mod_two_pow_suc : (a k : ℕ) → a % 2 ^ suc k ≡ 2 * (a / 2 % 2 ^ k) + a % 2
mod_two_pow_suc a k = rw (two_pow_suc k) (Digits.mod_two_mul a (2 ^ k) (two_pow_pos k))

-- A mask of k low ones takes the remainder.
pub bit_and_low : (k a : ℕ) → bit_and a (2 ^ k - 1) ≡ a % 2 ^ k
bit_and_low zero a = omega (arith, bit_and-zero a)
bit_and_low (suc k) a =
    let half : (2 ^ suc k - 1) / 2 ≡ 2 ^ k - 1 = omega (arith, two_pow_suc k, two_pow_pos k) in
    let odd : (2 ^ suc k - 1) % 2 ≡ 1 = omega (arith, two_pow_suc k, two_pow_pos k) in
    omega (
      arith,
      rw (half, odd) at (bit_and_step a (2 ^ suc k - 1)),
      bit_and_low k (a / 2),
      mod_two_pow_suc a k,
    )

-- A mask of w - k high ones, on a word of w digits, clears the k low ones.
pub bit_and_high : (w k a : ℕ) → k ≤ w → a < 2 ^ w → bit_and a (2 ^ w - 2 ^ k) + a % 2 ^ k ≡ a
bit_and_high w zero a h fits =
    omega (arith, bit_and_low w a, native.Mathlib.Nat.mod-eq_of_lt {n = a} {m = 2 ^ w} fits)
bit_and_high zero (suc k) a h fits = absurd (omega arith)
bit_and_high (suc w) (suc k) a h fits =
    let half : (2 ^ suc w - 2 ^ suc k) / 2 ≡ 2 ^ w - 2 ^ k =
      omega (arith, two_pow_suc w, two_pow_suc k) in
    let even : (2 ^ suc w - 2 ^ suc k) % 2 ≡ 0 = omega (arith, two_pow_suc w, two_pow_suc k) in
    omega (
      arith,
      rw (half, even) at (bit_and_step a (2 ^ suc w - 2 ^ suc k)),
      bit_and_high w k (a / 2) (omega arith) (omega (arith, two_pow_suc w)),
      mod_two_pow_suc a k,
    )

or_zero_below : (n a : ℕ) → a ≤ n → bit_or a 0 ≡ a
or_zero_below n zero h = refl
or_zero_below zero (suc a) h = absurd (omega arith)
or_zero_below (suc n) (suc a) h =
    omega (arith, bit_or_step (suc a) 0, or_zero_below n (suc a / 2) (omega arith))

pub bit_or-zero : (a : ℕ) → bit_or a 0 ≡ a
bit_or-zero a = or_zero_below a a (omega arith)

-- `|` adds numbers without a common digit: a multiple of 2 ^ k and one below.
pub bit_or_disjoint : (k a r : ℕ) → a % 2 ^ k ≡ 0 → r < 2 ^ k → bit_or a r ≡ a + r
bit_or_disjoint zero a r e h =
    let none : r ≡ 0 = omega arith in rw none (omega (arith, bit_or-zero a))
bit_or_disjoint (suc k) a r e h = omega (
  arith,
  bit_or_step a r,
  mod_two_pow_suc a k,
  bit_or_disjoint k (a / 2) (r / 2) (omega (arith, mod_two_pow_suc a k))
      (omega (arith, two_pow_suc k)),
)
