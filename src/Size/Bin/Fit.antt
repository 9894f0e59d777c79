-- ===== src/Size/Bin/Fit.antt =====
-- Sizes and the block sizes of their classes.
use mimalloc_mc.Prelude.{
  ap, leb→le, all_below, all_below_sound, ℕ, suc, ◌+◌, ◌-◌, ◌*◌, ◌%◌, ◌^◌, ◌≤◌, ◌<◌, ◌≡◌, refl, ◌⊎◌,
  inl, inr, Bool, true, ◌&&◌, ◌||◌, arith, ltb, leb, ◌==◌,
}
use native.Mathlib.Nat.{pow-le-pow_right}
use mimalloc_mc.Prelude.Lists.{get_or}
use mimalloc_mc.Prelude.Bits.{two_pow_suc}
use mimalloc_mc.Size.{word_mod, large_obj_size_max}
use mimalloc_mc.Size.Align.{wsize_from_size, wsize_bounds}
use mimalloc_mc.Size.Bin.{bsr_rounds, bsr32, bin, bin_wsizes, bin_size}
use mimalloc_mc.Size.Bin.Table.{IsClass, bin_small, bin_even, bin-IsClass, bin_is_huge}

-- The block size of the class of a size, in the terms of its region.
pub data Region (size w k : ℕ) : Type 0 where
  tiny : w ≤ 1 → k ≡ 1 → Region size w k
  even : 1 < w → w ≤ 8 → k ≡ w + w % 2 → Region size w k
  geometric : 8 < w → w ≤ 8192 → IsClass (w - 1) k → Region size w k
  huge : 8192 < w → k ≡ 73 → Region size w k

pub region : (size : ℕ) → Region size (wsize_from_size size) (bin size)
region size = elim (split (wsize_from_size size)) [
  | inl a ↦ tiny a (bin_small size a)
  | inr (inl b) ↦ even b.0 b.1 (bin_even size b.0 b.1)
  | inr (inr (inl c)) ↦ geometric c.0 c.1 (bin-IsClass size c.0 c.1)
  | inr (inr (inr d)) ↦ huge d (bin_is_huge size d)
]
  where
    split : (w : ℕ) → (w ≤ 1) ⊎ ((1 < w) × (w ≤ 8)) ⊎ ((8 < w) × (w ≤ 8192)) ⊎ (8192 < w)
    split w = grind arith

exact_entry : ℕ → Bool
exact_entry k = get_or bin_wsizes k 0 == k || leb 9 k || leb k 0

exact_table : all_below 9 exact_entry ≡ true
unfolding all_below exact_entry
exact_table = refl

-- Up to eight words a bin is its own size.
bin_wsize_exact : (k : ℕ) → 0 < k → k ≤ 8 → get_or bin_wsizes k 0 ≡ k
unfolding exact_entry
bin_wsize_exact k lo hi = ground (arith, all_below_sound 9 exact_entry k exact_table)

wsize-le : (size : ℕ) → size ≤ large_obj_size_max → wsize_from_size size ≤ 8192
wsize-le size h = omega (arith, wsize_bounds size (omega arith))

pub record IsFit (size k : ℕ) : Type 0 where
  pub regular : (0 < k) × (k ≤ 48)
  pub covers : size ≤ bin_size k
  pub waste : (bin_size k ≤ size + 15) ⊎ (4 * bin_size k < 5 * size)

Region-IsFit :
    (size w k : ℕ) → size ≤ w * 8 → w * 8 < size + 8 → w ≤ 8192 → Region size w k → IsFit size k
unfolding bin_size
Region-IsFit size w k up near max (tiny a e) =
    rw e (record { regular = omega arith; covers = omega arith; waste = inl (omega arith) })
Region-IsFit size w k up near max (even a b e) =
    let exact = bin_wsize_exact k (omega arith) (omega arith) in
    record {
      regular = omega arith;
      covers = omega (arith, exact);
      waste = inl (omega (arith, exact));
    }
Region-IsFit size w k up near max (geometric a b c) = record {
  regular = omega (arith, c.b_lt, c.q_lt, c.index);
  covers = omega (arith, c.words, c.to);
  waste = inr (omega (arith, c.words, c.from));
}
Region-IsFit size w k up near max (huge a e) = absurd (omega arith)

-- A size up to MI_LARGE_OBJ_SIZE_MAX has a regular bin, its block holds the size, and the block is
-- at most 15 bytes larger or less than 5/4 of the size.
pub bin-IsFit : (size : ℕ) → size ≤ large_obj_size_max → IsFit size (bin size)
bin-IsFit size h =
    let (up, near) = wsize_bounds size (omega arith) in
    Region-IsFit size (wsize_from_size size) (bin size) up near (wsize-le size h) (region size)

fixed_entry : ℕ → Bool
fixed_entry k = k == 0 || (k % 2 == 1 && ltb 1 k && ltb k 9) || bin (bin_size k) == k

fixed_table : all_below 49 fixed_entry ≡ true
unfolding all_below fixed_entry bin bin_size wsize_from_size bsr32 bsr_rounds
fixed_table = refl

Region-fixed : (size w k : ℕ) → w ≤ 8192 → Region size w k → bin (bin_size k) ≡ k
unfolding fixed_entry
Region-fixed size w k max (tiny a e) =
    rw e (ground (arith, all_below_sound 49 fixed_entry 1 fixed_table))
Region-fixed size w k max (even a b e) =
    ground (arith, all_below_sound 49 fixed_entry k fixed_table)
Region-fixed size w k max (geometric a b c) =
    ground (arith, all_below_sound 49 fixed_entry k fixed_table, c.b_lt, c.q_lt, c.index)
Region-fixed size w k max (huge a e) = absurd (omega arith)

-- For a size up to MI_LARGE_OBJ_SIZE_MAX, the block size of its bin is of the same bin again: a
-- page is found in the queue that it came from.
pub bin-bin_size : (size : ℕ) → size ≤ large_obj_size_max → bin (bin_size (bin size)) ≡ bin size
bin-bin_size size h =
    Region-fixed size (wsize_from_size size) (bin size) (wsize-le size h) (region size)

quarter_mono : (a b p : ℕ) → (a + 4) * p < (b + 5) * p → a ≤ b
quarter_mono a b p h = grind arith

three_quarters : (q p : ℕ) → q < 4 → q * p ≤ 3 * p
three_quarters q p h = grind arith

IsClass-mono : (w v j k : ℕ) → w ≤ v → IsClass w j → IsClass v k → j ≤ k
IsClass-mono w v j k h c d = elim (three_ways c.b d.b) [
  | inl below ↦ omega (arith, c.index, d.index, c.q_lt)
  | inr (inl same) ↦
      let below : (c.q + 4) * 2 ^ (d.b + 1) < (d.q + 5) * 2 ^ (d.b + 1) =
        omega (arith, d.to, ap (λ (b : ℕ). (c.q + 4) * 2 ^ (b + 1)) same, c.from) in
      omega (arith, c.index, d.index, quarter_mono c.q d.q (2 ^ (d.b + 1)) below)
  | inr (inr above) ↦ absurd (
      omega (
        arith,
        c.from,
        d.to,
        three_quarters d.q (2 ^ (d.b + 1)) d.q_lt,
        two_pow_suc (d.b + 1),
        pow-le-pow_right {n = 2} (omega arith) {i = suc (d.b + 1)} {j = c.b + 1} (omega arith),
      ))
]
  where
    three_ways : (a b : ℕ) → (a < b) ⊎ (a ≡ b) ⊎ (b < a)
    three_ways a b = grind arith

Region-mono : (s t w v j k : ℕ) → w ≤ v → Region s w j → Region t v k → j ≤ k
Region-mono s t w v j k h (geometric a b c) (geometric a' b' c') =
    IsClass-mono (w - 1) (v - 1) j k (omega arith) c c'
Region-mono s t w v j k h (tiny a e) (tiny a' e') = omega arith
Region-mono s t w v j k h (tiny a e) (even a' b' e') = omega arith
Region-mono s t w v j k h (tiny a e) (geometric a' b' c') = omega (arith, c'.index)
Region-mono s t w v j k h (tiny a e) (huge a' e') = omega arith
Region-mono s t w v j k h (even a b e) (tiny a' e') = absurd (omega arith)
Region-mono s t w v j k h (even a b e) (even a' b' e') = omega arith
Region-mono s t w v j k h (even a b e) (geometric a' b' c') = omega (arith, c'.index)
Region-mono s t w v j k h (even a b e) (huge a' e') = omega arith
Region-mono s t w v j k h (geometric a b c) (tiny a' e') = absurd (omega arith)
Region-mono s t w v j k h (geometric a b c) (even a' b' e') = absurd (omega arith)
Region-mono s t w v j k h (geometric a b c) (huge a' e') = omega (arith, c.index, c.b_lt, c.q_lt)
Region-mono s t w v j k h (huge a e) (tiny a' e') = absurd (omega arith)
Region-mono s t w v j k h (huge a e) (even a' b' e') = absurd (omega arith)
Region-mono s t w v j k h (huge a e) (geometric a' b' c') = absurd (omega arith)
Region-mono s t w v j k h (huge a e) (huge a' e') = omega arith

wsize_mono : (s t : ℕ) → s ≤ t → t ≤ word_mod - 9 → wsize_from_size s ≤ wsize_from_size t
unfolding wsize_from_size
wsize_mono s t h fits = omega arith

-- For sizes up to 2^64 - 9, a larger size never has a smaller bin.
pub bin_mono : (s t : ℕ) → s ≤ t → t ≤ word_mod - 9 → bin s ≤ bin t
bin_mono s t h fits =
    Region-mono s t (wsize_from_size s) (wsize_from_size t) (bin s) (bin t) (wsize_mono s t h fits)
      (region s) (region t)

bound_table : all_below 49 (λ k. leb (bin_size k) 65536) ≡ true
unfolding all_below bin_size
bound_table = refl

bin_size-le : (k : ℕ) → k ≤ 48 → bin_size k ≤ 65536
bin_size-le k h =
    leb→le (bin_size k) 65536
      (all_below_sound 49 (λ k. leb (bin_size k) 65536) k bound_table (omega arith))

-- Among the regular bins that are the bin of their own block size, no bin whose blocks hold a size
-- is smaller than the bin of the size.
pub bin_best : (size k : ℕ) → k ≤ 48 → bin (bin_size k) ≡ k → size ≤ bin_size k → bin size ≤ k
bin_best size k regular used holds =
    omega (arith, bin_mono size (bin_size k) holds (omega (arith, bin_size-le k regular)))
