-- ===== src/Size/Bin/Bsr.antt =====
-- The highest digit, for `bsr32` and `bsr`.
use mimalloc_mc.Prelude.{
  ℕ, zero, suc, ◌+◌, ◌/◌, ◌%◌, ◌^◌, ◌≤◌, ◌<◌, ◌≡◌, inl, inr, arith, ltb, ◌==◌, Bool-cases, ne→==,
}
use mimalloc_mc.Prelude.Bits.{two_pow_suc, two_pow_add}
use mimalloc_mc.Size.{word_mod}
use mimalloc_mc.Size.Bin.{bsr_rounds, bsr32, bsr}

-- `b` is the index of the highest digit of `x`.
pub record IsHighest (x b : ℕ) : Type 0 where
  pub reached : 2 ^ b ≤ x
  pub none_above : x < 2 ^ suc b

pub bsr_rounds-IsHighest : (n x : ℕ) → 0 < x → x < 2 ^ n → IsHighest x (bsr_rounds n x)
unfolding bsr_rounds
bsr_rounds-IsHighest zero x pos fits = absurd (omega arith)
bsr_rounds-IsHighest (suc n) x pos fits = elim (Bool-cases (ltb x 2)) [
  | inl e ↦ rw e (record { reached = pos; none_above = ground arith })
  | inr e ↦
      let two : 2 ≤ x = ground arith in
      let half = bsr_rounds-IsHighest n (x / 2) (omega arith) (omega (arith, two_pow_suc n)) in
      rw e (record {
        reached = omega (arith, half.reached, two_pow_suc (bsr_rounds n (x / 2)));
        none_above = omega (arith, half.none_above, two_pow_suc (suc (bsr_rounds n (x / 2))));
      })
]

pub bsr32-IsHighest : (x : ℕ) → 0 < x → x < 2 ^ 32 → IsHighest x (bsr32 x)
unfolding bsr32
bsr32-IsHighest x pos fits = bsr_rounds-IsHighest 32 x pos fits

shift_up : (x b : ℕ) → IsHighest (x / 2 ^ 32) b → IsHighest x (32 + b)
shift_up x b h =
    let next : suc (32 + b) ≡ 32 + suc b = omega arith in
    record {
      reached = omega (arith, h.reached, two_pow_add 32 b);
      none_above = rw next (omega (arith, h.none_above, two_pow_add 32 (suc b)));
    }

-- For a word above 0, `_mi_bsr` returns the index of its highest binary digit.
pub bsr-IsHighest : (x : ℕ) → 0 < x → x < word_mod → IsHighest x (bsr x)
unfolding bsr
bsr-IsHighest x pos fits = elim (Bool-cases (x / 2 ^ 32 == 0)) [
  | inl low ↦
      let small : x < 2 ^ 32 = ground arith in
      let whole : x % 2 ^ 32 ≡ x = omega arith in
      rw (ne→== x 0 (omega arith), low, whole) (bsr32-IsHighest x pos small)
  | inr high ↦
      let some : 0 < x / 2 ^ 32 = ground arith in
      rw (ne→== x 0 (omega arith), high)
        (shift_up x (bsr32 (x / 2 ^ 32)) (bsr32-IsHighest (x / 2 ^ 32) some (omega arith)))
]
