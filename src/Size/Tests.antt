-- ===== src/Size/Tests.antt =====
-- Sizes, one for each theorem.
use mimalloc_mc.Prelude.{ℕ, ◌*◌, ◌≡◌, true, false, arith, leb, if◌then◌else◌}
use mimalloc_mc.Size.{word_mod, size_max}
use mimalloc_mc.Size.Count.{count_size_overflow, count_size_overflow_lem}
use mimalloc_mc.Size.Bin.{bin, bin_size}
use mimalloc_mc.Size.Bin.Fit.{IsFit, bin-IsFit, bin-bin_size}

abbrev mixed : ℕ
mixed = 96

count_size_overflow_example : count_size_overflow 8589934592 4294967296 ≡ (
    if leb word_mod (8589934592 * 4294967296)
    then (true, size_max)
    else (false, 8589934592 * 4294967296))
count_size_overflow_example = count_size_overflow_lem 8589934592 4294967296 (omega arith)

bin_example : IsFit 264 (bin 264)
bin_example = bin-IsFit 264 (omega arith)

bin-bin_size_example : bin (bin_size (bin 264)) ≡ bin 264
bin-bin_size_example = bin-bin_size 264 (omega arith)
