-- ===== src/Size/Align.antt =====
-- Alignment and rounding of mimalloc-custom/mimalloc-internal.h: `_mi_is_power_of_two`,
-- `_mi_align_up`, `_mi_divide_up` and `_mi_wsize_from_size`, on words of 64 bits.
use native.Mathlib.Nat.{
  div-eq_of_lt-le, mod-eq_of_lt, mul-mod_left, div-add-mod', mod-lt, pow-le-pow_right,
}
use mimalloc_mc.Prelude.{
  ℕ, zero, suc, ◌+◌, ◌-◌, ◌*◌, ◌/◌, ◌%◌, ◌^◌, ◌≤◌, ◌<◌, bit_and, ◌≡◌, refl, ap, ◌⊎◌, inl, inr, ◌↔◌,
  Bool, true, arith, ◌==◌, if◌then◌else◌, Bool-cases, ==_iff, ne→==, eq→==,
}
use mimalloc_mc.Prelude.Bits.{bit_and_high, two_pow_pos}
use mimalloc_mc.Prelude.Bits.Power.{power_of_bit_and, bit_and_of_power}
use mimalloc_mc.Size.{word_mod, word, word_not, intptr_size}

unfoldable pub is_power_of_two : ℕ → Bool
is_power_of_two x = bit_and x (word (x + word_mod - 1)) == 0

unfoldable pub align_up : ℕ → ℕ → ℕ
align_up sz alignment =
    let mask = alignment - 1 in
    if bit_and alignment mask == 0
    then bit_and (word (sz + mask)) (word_not mask)
    else word (word (sz + mask) / alignment * alignment)

unfoldable pub divide_up : ℕ → ℕ → ℕ
divide_up size divider =
    if divider == 0 then size else word (word (size + divider) + word_mod - 1) / divider

unfoldable pub wsize_from_size : ℕ → ℕ
wsize_from_size size = word (word (size + intptr_size) + word_mod - 1) / intptr_size

-- What rounding up to a multiple means.
pub record IsAlignedUp (sz alignment r : ℕ) : Type 0 where
  pub above : sz ≤ r
  pub near : r < sz + alignment
  pub multiple : r % alignment ≡ 0

power-le : (k : ℕ) → 2 ^ k ≤ word_mod → k ≤ 64
power-le k h = elim (le_or_gt k) [
  | inl e ↦ e
  | inr e ↦ absurd (omega (arith, pow-le-pow_right {n = 2} (omega arith) e))
]
  where
    le_or_gt : (k : ℕ) → (k ≤ 64) ⊎ (65 ≤ k)
    le_or_gt k = omega arith

-- Clearing the digits below 2 ^ k in a word is rounding down.
pub clear_low : (k x : ℕ) → k ≤ 64 → x < word_mod → bit_and x (word_not (2 ^ k - 1)) ≡ x - x % 2 ^ k
clear_low k x h fits =
    let mask : word_not (2 ^ k - 1) ≡ 2 ^ 64 - 2 ^ k = omega (arith, two_pow_pos k) in
    rw mask (omega (arith, bit_and_high 64 k x h fits))

-- The next multiple.
pub next_multiple : (x d : ℕ) → 0 < d → (x + (d - x % d)) % d ≡ 0
next_multiple x d pos =
    let whole : x + (d - x % d) ≡ (x / d + 1) * d = omega (arith, div-add-mod' x d, mod-lt x pos) in
    rw whole (mul-mod_left (x / d + 1) d)

-- Rounding down a sum that went up by the alignment less one.
round_down : (sz d : ℕ) → 0 < d → IsAlignedUp sz d ((sz + (d - 1)) - (sz + (d - 1)) % d)
round_down sz d pos = record {
  above = omega (arith, mod-lt (sz + (d - 1)) pos);
  near = omega (arith, mod-lt (sz + (d - 1)) pos);
  multiple =
      let whole : (sz + (d - 1)) - (sz + (d - 1)) % d ≡ (sz + (d - 1)) / d * d =
        omega (arith, div-add-mod' (sz + (d - 1)) d) in
      rw whole (mul-mod_left ((sz + (d - 1)) / d) d);
}

align_up_power :
    (sz d k : ℕ)
    → d ≡ 2 ^ k
    → sz + d ≤ word_mod
    → bit_and (sz + (d - 1)) (word_not (d - 1)) ≡ (sz + (d - 1)) - (sz + (d - 1)) % d
align_up_power sz d k e fits =
    rw e (clear_low k (sz + (2 ^ k - 1)) (power-le k (omega arith)) (omega (arith, two_pow_pos k)))

-- The two branches of `_mi_align_up` compute one number.
pub align_up-eq :
    (sz d : ℕ) → 0 < d → sz + d ≤ word_mod → align_up sz d ≡ (sz + (d - 1)) - (sz + (d - 1)) % d
unfolding align_up
align_up-eq sz d pos fits =
    let small : sz + (d - 1) < word_mod = omega arith in
    let whole : (sz + (d - 1)) / d * d ≡ (sz + (d - 1)) - (sz + (d - 1)) % d =
      omega (arith, div-add-mod' (sz + (d - 1)) d) in
    let below : (sz + (d - 1)) / d * d < word_mod = omega arith in
    elim (Bool-cases (bit_and d (d - 1) == 0)) [
      | inl power ↦
          let (k, e) = power_of_bit_and d pos (ground arith) in
          rw (power, mod-eq_of_lt small) (align_up_power sz d k e fits)
      | inr other ↦ rw (other, mod-eq_of_lt small, mod-eq_of_lt below) whole
    ]

-- For an alignment above 0 and a size such that their sum is at most 2^64, `_mi_align_up` returns
-- the least multiple of the alignment that is not below the size, whether the alignment is a power
-- of two or not.
pub align_up-IsAlignedUp : (sz d : ℕ) → 0 < d → sz + d ≤ word_mod → IsAlignedUp sz d (align_up sz d)
align_up-IsAlignedUp sz d pos fits = rw (align_up-eq sz d pos fits) (round_down sz d pos)

pub align_up-lt : (sz d : ℕ) → 0 < d → sz + d ≤ word_mod → align_up sz d < word_mod
align_up-lt sz d pos fits = omega (arith, (align_up-IsAlignedUp sz d pos fits).near)

-- Nothing moves that is aligned already.
pub align_up_of_multiple : (sz d : ℕ) → 0 < d → sz + d ≤ word_mod → sz % d ≡ 0 → align_up sz d ≡ sz
align_up_of_multiple sz d pos fits e = rw (align_up-eq sz d pos fits) (
    omega (
      arith,
      div-add-mod' sz d,
      div-add-mod' (sz + (d - 1)) d,
      ap (λ (t : ℕ). t * d)
          (div-eq_of_lt-le {k = sz / d} d {m = sz + (d - 1)} (omega (arith, div-add-mod' sz d))
            (omega (arith, div-add-mod' sz d))),
    ))

-- For a divider above 0 and a size such that their sum is at most 2^64, the result of
-- `_mi_divide_up` times the divider is at least the size and less than the size plus the divider.
pub divide_up_bounds :
    (s d : ℕ) → 0 < d → s + d ≤ word_mod → (s ≤ divide_up s d * d) × (divide_up s d * d < s + d)
unfolding divide_up
divide_up_bounds s d pos fits =
    let sum : word (word (s + d) + word_mod - 1) ≡ s + (d - 1) = omega arith in
    let r = round_down s d pos in
    let whole : (s + (d - 1)) / d * d ≡ (s + (d - 1)) - (s + (d - 1)) % d =
      omega (arith, div-add-mod' (s + (d - 1)) d) in
    rw (ne→== d 0 (omega arith), sum, whole) (r.above, r.near)

-- For a size of at most 2^64 - 9 bytes, the words of `_mi_wsize_from_size` hold the size, with
-- less than a word to spare.
pub wsize_bounds :
    (size : ℕ)
    → size ≤ word_mod - 1 - intptr_size
    → (size ≤ wsize_from_size size * intptr_size)
      × (wsize_from_size size * intptr_size < size + intptr_size)
unfolding wsize_from_size
wsize_bounds size fits = omega arith

-- On a word, `_mi_is_power_of_two` says yes exactly for 0 and the powers of two.
pub is_power_of_two_iff :
    (x : ℕ) → x < word_mod → (is_power_of_two x ≡ true) ↔ ((x ≡ 0) ⊎ ((k : ℕ) × (x ≡ 2 ^ k)))
unfolding is_power_of_two
is_power_of_two_iff zero fits = (λ _. inl refl, λ _. refl)
is_power_of_two_iff (suc n) fits =
    let pred : word (suc n + word_mod - 1) ≡ suc n - 1 = omega arith in
    rw pred (
      λ e. inr (power_of_bit_and (suc n) (omega arith) ((==_iff _ 0).0 e)),
      λ c.
          eq→== _ 0 (elim c [
            | inl none ↦ absurd (omega arith)
            | inr (k, e) ↦ bit_and_of_power (suc n) k e
          ]),
    )
