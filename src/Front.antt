-- ===== src/Front.antt =====
-- The front end of mimalloc-custom/alloc.c and mimalloc-custom/alloc-aligned.c: the allocation
-- functions over the pages. What they call, `_mi_page_malloc` on the page for a small size,
-- `_mi_malloc_generic`, `mi_free`, `mi_usable_size` and `_mi_block_zero_init`, is an interface.
pub mod Counted
pub mod Aligned
mod Tests
use mimalloc_mc.Prelude.{
  ℕ, ◌+◌, ◌-◌, ◌*◌, ◌/◌, ◌^◌, Bool, true, false, not, ◌&&◌, ◌||◌, ltb, leb, ◌==◌, if◌then◌else◌,
  bit_and,
}
use mimalloc_mc.Size.{word, word_mod, padding_size, intptr_size, medium_obj_size_max}
use mimalloc_mc.Size.Align.{is_power_of_two}
use mimalloc_mc.Size.Count.{count_size_overflow}
use mimalloc_mc.Queue.{small_size_max}

-- An address, or null, with the state after the call.
pub record Block (S : Type 0) : Type 0 where
  pub ptr : ℕ
  pub state : S

pub record Core (S : Type 0) : Type 0 where
  pub page_malloc : ℕ → S → Block S
  pub malloc_generic : ℕ → S → Block S
  pub free : ℕ → S → S
  pub usable_size : S → ℕ → ℕ
  pub zero_init : (p size : ℕ) → S → S
  pub small_page_free : ℕ → S → ℕ  -- `page->free` of the page for a small size
  pub set_has_aligned : ℕ → S → S

abbrev pub ptrdiff_max : ℕ
ptrdiff_max = 2 ^ 63 - 1

unfoldable pub fits_still : (size newsize : ℕ) → Bool
fits_still size newsize = leb newsize size && leb (size / 2) newsize

module _ {S : Type 0} (core : Core S) where
  unfoldable pub heap_malloc_small : ℕ → S → Block S
  heap_malloc_small size st =
      let size' = if size == 0 then intptr_size else size in
      core.page_malloc (size' + padding_size) st

  -- The sum with the padding is a `size_t`.
  unfoldable pub heap_malloc : ℕ → S → Block S
  heap_malloc size st =
      if leb size small_size_max
      then heap_malloc_small size st
      else core.malloc_generic (word (size + padding_size)) st

  unfoldable pub heap_malloc_zero : ℕ → Bool → S → Block S
  heap_malloc_zero size zero_it st =
      let block = heap_malloc size st in
      if zero_it && not (block.ptr == 0)
      then record { ptr = block.ptr; state = core.zero_init block.ptr size block.state }
      else block

  unfoldable pub heap_zalloc : ℕ → S → Block S
  heap_zalloc size st = heap_malloc_zero size true st

  unfoldable pub heap_calloc : (count size : ℕ) → S → Block S
  heap_calloc count size st =
      let (overflow, total) = count_size_overflow count size in
      if overflow then record { ptr = 0; state = st } else heap_zalloc total st

  unfoldable pub heap_mallocn : (count size : ℕ) → S → Block S
  heap_mallocn count size st =
      let (overflow, total) = count_size_overflow count size in
      if overflow then record { ptr = 0; state = st } else heap_malloc total st

  unfoldable pub expand : (p newsize : ℕ) → S → ℕ
  expand p newsize st = if p == 0 then 0 else if ltb (core.usable_size st p) newsize then 0 else p

  unfoldable pub heap_realloc_zero : (p newsize : ℕ) → Bool → S → Block S
  heap_realloc_zero p newsize zero_it st =
      let block = heap_malloc newsize st in
      if p == 0
      then heap_malloc_zero newsize zero_it st
      else if fits_still (core.usable_size st p) newsize
      then record { ptr = p; state = st }
      else if block.ptr == 0
      then block
      else record { ptr = block.ptr; state = core.free p block.state }

  unfoldable pub heap_realloc : (p newsize : ℕ) → S → Block S
  heap_realloc p newsize st = heap_realloc_zero p newsize false st

  unfoldable pub heap_rezalloc : (p newsize : ℕ) → S → Block S
  heap_rezalloc p newsize st = heap_realloc_zero p newsize true st

  unfoldable pub heap_reallocn : (p count size : ℕ) → S → Block S
  heap_reallocn p count size st =
      let (overflow, total) = count_size_overflow count size in
      if overflow then record { ptr = 0; state = st } else heap_realloc p total st

  unfoldable pub heap_recalloc : (p count size : ℕ) → S → Block S
  heap_recalloc p count size st =
      let (overflow, total) = count_size_overflow count size in
      if overflow then record { ptr = 0; state = st } else heap_rezalloc p total st

  unfoldable pub heap_reallocf : (p newsize : ℕ) → S → Block S
  heap_reallocf p newsize st =
      let block = heap_realloc p newsize st in
      if (block.ptr == 0) && not (p == 0)
      then record { ptr = block.ptr; state = core.free p block.state }
      else block

  -- The block at an aligned place, with the bytes before it skipped.
  unfoldable pub align_within : (alignment offset : ℕ) → Block S → Block S
  align_within alignment offset block =
      let adjust = alignment - bit_and (word (block.ptr + offset)) (alignment - 1) in
      let aligned = if adjust == alignment then block.ptr else word (block.ptr + adjust) in
      if block.ptr == 0 then block else record {
        ptr = aligned;
        state =
            if aligned == block.ptr
            then block.state
            else core.set_has_aligned block.ptr block.state;
      }

  -- The first free block of the small page has just the right alignment.
  unfoldable pub is_aligned_small : (padsize alignment offset : ℕ) → S → Bool
  is_aligned_small padsize alignment offset st =
      let first = core.small_page_free padsize st in
      leb padsize small_size_max
      && (not (first == 0) && (bit_and (word (first + offset)) (alignment - 1) == 0))

  unfoldable pub heap_malloc_zero_aligned_at : (size alignment offset : ℕ) → Bool → S → Block S
  heap_malloc_zero_aligned_at size alignment offset zero_it st =
      let padsize = word (size + padding_size) in
      let small = core.page_malloc padsize st in
      if ltb ptrdiff_max size || (alignment == 0) || not (is_power_of_two alignment)
      then record { ptr = 0; state = st }
      else if is_aligned_small padsize alignment offset st
      then record {
        ptr = small.ptr;
        state = if zero_it then core.zero_init small.ptr size small.state else small.state;
      }
      else if (offset == 0)
          && leb alignment padsize
          && leb padsize medium_obj_size_max
          && (bit_and padsize (alignment - 1) == 0)
      then heap_malloc_zero size zero_it st
      else align_within alignment offset (heap_malloc_zero (word (size + alignment - 1)) zero_it st)

  unfoldable pub heap_malloc_aligned_at : (size alignment offset : ℕ) → S → Block S
  heap_malloc_aligned_at size alignment offset st =
      heap_malloc_zero_aligned_at size alignment offset false st

  unfoldable pub heap_malloc_aligned : (size alignment : ℕ) → S → Block S
  heap_malloc_aligned size alignment st = heap_malloc_aligned_at size alignment 0 st

  unfoldable pub heap_zalloc_aligned_at : (size alignment offset : ℕ) → S → Block S
  heap_zalloc_aligned_at size alignment offset st =
      heap_malloc_zero_aligned_at size alignment offset true st

  unfoldable pub heap_zalloc_aligned : (size alignment : ℕ) → S → Block S
  heap_zalloc_aligned size alignment st = heap_zalloc_aligned_at size alignment 0 st

  unfoldable pub heap_calloc_aligned_at : (count size alignment offset : ℕ) → S → Block S
  heap_calloc_aligned_at count size alignment offset st =
      let (overflow, total) = count_size_overflow count size in
      if overflow
      then record { ptr = 0; state = st }
      else heap_zalloc_aligned_at total alignment offset st
