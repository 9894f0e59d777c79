-- ===== src/Size/Bin.antt =====
-- The size classes of mimalloc-custom/page-queue.c: `mi_bsr32`, `_mi_bsr`, `_mi_bin`,
-- `_mi_bin_size` and `mi_good_size`, and the block sizes of `MI_PAGE_QUEUES_EMPTY` in
-- mimalloc-custom/init.c. `MI_MAX_ALIGN_SIZE` is 16, which is `MI_ALIGN2W`.
pub mod Bsr
pub mod Table
pub mod Fit
use mimalloc_mc.Prelude.{
  ℕ, zero, suc, ◌+◌, ◌-◌, ◌*◌, ◌/◌, ◌%◌, ◌^◌, bit_and, List, [], ◌∷◌, map, ltb, leb, ◌==◌,
  if◌then◌else◌,
}
use mimalloc_mc.Prelude.Lists.{get_or}
use mimalloc_mc.Size.{word, large_obj_size_max, large_obj_wsize_max, bin_huge}
use mimalloc_mc.Size.Align.{wsize_from_size, align_up}

-- The index of the highest digit, by halving; `n` rounds reach it in a number below 2 ^ n.
unfoldable pub bsr_rounds : ℕ → ℕ → ℕ
bsr_rounds zero x = 0
bsr_rounds (suc n) x = let above = suc (bsr_rounds n (x / 2)) in if ltb x 2 then 0 else above

-- `31 - __builtin_clz(x)`, which is not defined at zero.
unfoldable pub bsr32 : ℕ → ℕ
bsr32 x = bsr_rounds 32 x

unfoldable pub bsr : ℕ → ℕ
bsr x =
    if x == 0
    then 0
    else let hi = x / 2 ^ 32 in if hi == 0 then bsr32 (x % 2 ^ 32) else 32 + bsr32 hi

unfoldable pub bin : ℕ → ℕ
bin size =
    let wsize = wsize_from_size size in
    if leb wsize 1
    then 1
    else if leb wsize 8
    then bit_and (wsize + 1) (2 ^ 64 - 1 - 1) % 2 ^ 8
    else if ltb large_obj_wsize_max wsize
    then bin_huge
    else let w = wsize - 1 in
      let b = bsr32 (w % 2 ^ 32) in (b * 2 ^ 2 + bit_and (w / 2 ^ (b - 2)) 3 % 2 ^ 8 - 3) % 2 ^ 8

-- `QNULL(sz)` for each bin: the regular ones, the huge one and the full one.
abbrev pub bin_wsizes : List ℕ
bin_wsizes =
    1
    ∷ 1
    ∷ 2
    ∷ 3
    ∷ 4
    ∷ 5
    ∷ 6
    ∷ 7
    ∷ 8
    ∷ 10
    ∷ 12
    ∷ 14
    ∷ 16
    ∷ 20
    ∷ 24
    ∷ 28
    ∷ 32
    ∷ 40
    ∷ 48
    ∷ 56
    ∷ 64
    ∷ 80
    ∷ 96
    ∷ 112
    ∷ 128
    ∷ 160
    ∷ 192
    ∷ 224
    ∷ 256
    ∷ 320
    ∷ 384
    ∷ 448
    ∷ 512
    ∷ 640
    ∷ 768
    ∷ 896
    ∷ 1024
    ∷ 1280
    ∷ 1536
    ∷ 1792
    ∷ 2048
    ∷ 2560
    ∷ 3072
    ∷ 3584
    ∷ 4096
    ∷ 5120
    ∷ 6144
    ∷ 7168
    ∷ 8192
    ∷ 10240
    ∷ 12288
    ∷ 14336
    ∷ 16384
    ∷ 20480
    ∷ 24576
    ∷ 28672
    ∷ 32768
    ∷ 40960
    ∷ 49152
    ∷ 57344
    ∷ 65536
    ∷ 81920
    ∷ 98304
    ∷ 114688
    ∷ 131072
    ∷ 163840
    ∷ 196608
    ∷ 229376
    ∷ 262144
    ∷ 327680
    ∷ 393216
    ∷ 458752
    ∷ 524288
    ∷ (large_obj_wsize_max + 1)
    ∷ (large_obj_wsize_max + 2)
    ∷ []

unfoldable pub bin_size : ℕ → ℕ
bin_size b = get_or bin_wsizes b 0 * 8

-- `os_page_size` is what the operating system reports.
unfoldable pub good_size : (os_page_size size : ℕ) → ℕ
good_size os_page_size size =
    if leb size large_obj_size_max then bin_size (bin size) else align_up size os_page_size
