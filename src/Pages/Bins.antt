-- ===== src/Pages/Bins.antt =====
-- The bin of a size is that of a queue for pages which are not full.
use mimalloc_mc.Prelude.{
  ℕ, ◌≤◌, ◌<◌, ◌≡◌, ◌≢◌, refl, Bool, true, ◌||◌, all_below, all_below_sound, arith, ◌==◌,
}
use mimalloc_mc.Size.{bin_full}
use mimalloc_mc.Size.Align.{wsize_from_size}
use mimalloc_mc.Size.Bin.{bsr_rounds, bsr32, bin, bin_size}
use mimalloc_mc.Size.Bin.Fit.{Region, region, tiny, even, geometric, huge}
use mimalloc_mc.Queue.Direct.{IsUsed}

odd_row : ℕ → Bool
odd_row k = (k == 0) || (k == 3) || (k == 5) || (k == 7) || (bin (bin_size k) == k)

odd_table : all_below 25 odd_row ≡ true
unfolding odd_row all_below bin bin_size wsize_from_size bsr32 bsr_rounds
odd_table = refl

-- The bins of sizes.
reached : (size w k : ℕ) → Region size w k → (0 < k) × (k ≤ 73) × (k ≢ 3) × (k ≢ 5) × (k ≢ 7)
reached size w k (tiny a e) = (
  omega (arith, e),
  omega (arith, e),
  λ z. omega (arith, e, z),
  λ z. omega (arith, e, z),
  λ z. omega (arith, e, z),
)
reached size w k (even a b e) = (
  omega (arith, e, a),
  omega (arith, e, b),
  λ z. omega (arith, e, z),
  λ z. omega (arith, e, z),
  λ z. omega (arith, e, z),
)
reached size w k (geometric a b c) = (
  omega (arith, c.index),
  omega (arith, c.index, c.b_lt, c.q_lt),
  λ z. omega (arith, c.index, z),
  λ z. omega (arith, c.index, z),
  λ z. omega (arith, c.index, z),
)
reached size w k (huge a e) = (
  omega (arith, e),
  omega (arith, e),
  λ z. omega (arith, e, z),
  λ z. omega (arith, e, z),
  λ z. omega (arith, e, z),
)

reached-IsUsed : (k : ℕ) → (0 < k) × (k ≤ 73) × (k ≢ 3) × (k ≢ 5) × (k ≢ 7) → IsUsed k
unfolding odd_row
reached-IsUsed k h = record {
  some_bin = h.0;
  in_heap = omega (arith, h.1);
  own = λ le.
      ground (arith, all_below_sound 25 odd_row k odd_table (omega arith), h.0, h.2, h.3, h.4);
}

pub bin-IsUsed : (size : ℕ) → IsUsed (bin size) × (bin size ≢ bin_full)
bin-IsUsed size =
    let h = reached size (wsize_from_size size) (bin size) (region size) in
    (reached-IsUsed (bin size) h, λ e. omega (arith, h.1, e))

pub full-IsUsed : IsUsed bin_full
full-IsUsed = record {
  some_bin = omega arith;
  in_heap = omega arith;
  own = λ le. absurd (omega (arith, le));
}
