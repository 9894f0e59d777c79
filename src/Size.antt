-- ===== src/Size.antt =====
-- Sizes: the constants of mimalloc-custom/mimalloc-types.h for a 64-bit platform in the default
-- build (`MI_DEBUG` 2, `MI_PADDING` 1, `MI_SECURE` 0), and the size arithmetic of
-- mimalloc-custom/mimalloc-internal.h and mimalloc-custom/page-queue.c in the children.
pub mod Align
pub mod Bin
pub mod Count
mod Tests
use mimalloc_mc.Prelude.{ℕ, ◌-◌, ◌*◌, ◌/◌, ◌%◌, ◌^◌, ◌+◌}

-- The number of values of a `uintptr_t` and of a `size_t`.
abbrev pub word_mod : ℕ
word_mod = 2 ^ 64

abbrev pub size_max : ℕ
size_max = 2 ^ 64 - 1

-- A result as it is stored in a `size_t`.
abbrev pub word : ℕ → ℕ
word n = n % word_mod

-- `~m` on a word.
abbrev pub word_not : ℕ → ℕ
word_not m = size_max - m

abbrev pub intptr_size : ℕ
intptr_size = 8

abbrev pub max_align_size : ℕ
max_align_size = 16

abbrev pub padding_size : ℕ
padding_size = 8

abbrev pub small_page_size : ℕ
small_page_size = 2 ^ 13

abbrev pub medium_page_size : ℕ
medium_page_size = 2 ^ 15

abbrev pub large_page_size : ℕ
large_page_size = 2 ^ 17

abbrev pub segment_size : ℕ
segment_size = large_page_size

abbrev pub small_obj_size_max : ℕ
small_obj_size_max = small_page_size / 4

abbrev pub medium_obj_size_max : ℕ
medium_obj_size_max = medium_page_size / 4

abbrev pub large_obj_size_max : ℕ
large_obj_size_max = large_page_size / 2

abbrev pub large_obj_wsize_max : ℕ
large_obj_wsize_max = large_obj_size_max / intptr_size

abbrev pub huge_obj_size_max : ℕ
huge_obj_size_max = 2 * intptr_size * segment_size

abbrev pub huge_block_size : ℕ
huge_block_size = huge_obj_size_max % 2 ^ 32

abbrev pub bin_huge : ℕ
bin_huge = 73

abbrev pub bin_full : ℕ
bin_full = bin_huge + 1
