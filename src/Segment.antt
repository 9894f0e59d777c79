-- ===== src/Segment.antt =====
-- Segments, aligned areas of memory that are divided into pages: `mi_segment_t` of
-- mimalloc-custom/mimalloc-types.h and the places in it that mimalloc-custom/segment.c and
-- mimalloc-custom/mimalloc-internal.h compute. A segment is at the address `base`.
pub mod Layout
pub mod Store
pub mod Reset
pub mod Cache
pub mod Released
pub mod Cached
pub mod Abandon
pub mod Expired
pub mod Disowned
pub mod Abandoning
pub mod PageFree
pub mod Claim
pub mod Kept
pub mod Untouched
pub mod Invariant
pub mod Queues
pub mod Pages
pub mod Claimed
pub mod Find
pub mod Given
mod Tests
use mimalloc_mc.Prelude.{
  ℕ, ◌+◌, ◌-◌, ◌*◌, ◌/◌, ◌%◌, ◌^◌, Bool, true, false, ◌&&◌, ltb, leb, ◌==◌, if◌then◌else◌, bit_and,
}
use mimalloc_mc.Size.{
  word_mod, word, word_not, segment_size, max_align_size, huge_block_size, padding_size,
}
use mimalloc_mc.Size.Align.{align_up}
use mimalloc_mc.Page.{Page}

pub data PageKind : Type 0 where
  small_page : PageKind
  medium_page : PageKind
  large_page : PageKind
  huge_page : PageKind

pub record Segment : Type 0 where
  pub memid : ℕ
  pub mem_is_fixed : Bool
  pub mem_is_committed : Bool
  pub abandoned_next : ℕ
  pub abandoned : ℕ
  pub abandoned_visits : ℕ
  pub used : ℕ
  pub capacity : ℕ
  pub segment_size : ℕ
  pub segment_info_size : ℕ
  pub cookie : ℕ
  pub page_shift : ℕ
  pub thread_id : ℕ
  pub page_kind : PageKind
  pub pages : ℕ → Page

abbrev pub page_huge_align : ℕ
page_huge_align = 256 * 1024

-- `sizeof(mi_page_t)` and `sizeof(mi_segment_t)`.
abbrev pub sizeof_page : ℕ
sizeof_page = 64

abbrev pub sizeof_segment : ℕ
sizeof_segment = 184

-- `kind == MI_PAGE_HUGE` and `kind <= MI_PAGE_MEDIUM`.
unfoldable pub is_huge : PageKind → Bool
is_huge huge_page = true
is_huge kind = false

unfoldable pub is_at_most_medium : PageKind → Bool
is_at_most_medium small_page = true
is_at_most_medium medium_page = true
is_at_most_medium kind = false

-- A difference in a `size_t`.
abbrev pub word_sub : ℕ → ℕ → ℕ
word_sub a b = word (a + word_mod - b)

pub record Area : Type 0 where
  pub start : ℕ
  pub size : ℕ

unfoldable pub page_size : Segment → ℕ
page_size s = if ltb 1 s.capacity then word (2 ^ s.page_shift) else s.segment_size

unfoldable pub raw_page_start : (base : ℕ) → Segment → Page → Area
raw_page_start base s p =
    let psize = if is_huge s.page_kind then s.segment_size else word (2 ^ s.page_shift) in
    let start = word (base + p.segment_idx * psize) in
    if p.segment_idx == 0
    then record {
      start = word (start + s.segment_info_size);
      size = word_sub psize s.segment_info_size;
    }
    else record { start = start; size = psize }

-- Drop the bytes before the first multiple of the block size.
unfoldable pub adjust_start : Area → (block_size : ℕ) → Area
adjust_start raw block_size =
    let adjust = word_sub block_size (raw.start % block_size) in
    if ltb adjust block_size
    then record { start = word (raw.start + adjust); size = word_sub raw.size adjust }
    else raw

unfoldable pub page_start : (base : ℕ) → Segment → Page → (block_size : ℕ) → Area
page_start base s p block_size =
    let raw = raw_page_start base s p in
    if (p.segment_idx == 0) && ltb 0 block_size && is_at_most_medium s.page_kind
    then adjust_start raw block_size
    else raw

pub record Sizes : Type 0 where
  pub total : ℕ
  pub pre_size : ℕ
  pub info_size : ℕ

unfoldable pub segment_sizes : (capacity required : ℕ) → Sizes
segment_sizes capacity required =
    let minsize = word (sizeof_segment + (capacity - 1) * sizeof_page + 16) in
    let isize = align_up minsize (16 * max_align_size) in
    record {
      total =
          if required == 0
          then segment_size
          else align_up (word (required + isize)) page_huge_align;
      pre_size = isize;
      info_size = isize;
    }

unfoldable pub ptr_segment : ℕ → ℕ
ptr_segment p = bit_and p (word_not (segment_size - 1))

unfoldable pub page_idx_of : (base : ℕ) → Segment → ℕ → ℕ
page_idx_of base s p = word_sub p base / 2 ^ s.page_shift

unfoldable pub page_of : (base : ℕ) → Segment → ℕ → Page
page_of base s p = s.pages (page_idx_of base s p)

unfoldable pub page_block_size : (base : ℕ) → Segment → Page → ℕ
page_block_size base s p =
    if ltb p.xblock_size huge_block_size
    then p.xblock_size
    else (page_start base s p p.xblock_size).size

unfoldable pub page_usable_block_size : (base : ℕ) → Segment → Page → ℕ
page_usable_block_size base s p = word_sub (page_block_size base s p) padding_size
