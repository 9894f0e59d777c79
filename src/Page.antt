-- ===== src/Page.antt =====
-- A page of blocks of one size: `mi_page_t` of mimalloc-custom/mimalloc-types.h, the queries on it
-- in mimalloc-custom/mimalloc-internal.h, and, in the children, what
-- mimalloc-custom/page.c and mimalloc-custom/alloc.c do to its three lists of free blocks. The
-- free lists are not encoded (`MI_ENCODE_FREELIST` is off), so a block's first word is the address
-- of the next block.
pub mod Blocks
pub mod Grow
pub mod Invariant
pub mod Transfer
pub mod Collect
pub mod Link
pub mod Extend
pub mod Life
pub mod Queries
mod Tests
use mathlib.Core.Bool.{true}
use mimalloc_mc.Prelude.{
  ℕ, ◌+◌, ◌-◌, ◌/◌, ◌%◌, ◌^◌, Bool, not, ◌||◌, ltb, leb, ◌==◌, Option, none, some,
}
use mimalloc_mc.Prelude.Chain.{Memory}
use mimalloc_mc.ThreadFree.{tf_block}

pub record Page : Type 0 where
  pub segment_idx : ℕ
  pub segment_in_use : Bool
  pub is_reset : Bool
  pub is_committed : Bool
  pub is_zero_init : Bool
  pub capacity : ℕ
  pub reserved : ℕ
  pub in_full : Bool
  pub has_aligned : Bool
  pub is_zero : Bool
  pub retire_expire : ℕ
  pub free : ℕ
  pub used : ℕ
  pub xblock_size : ℕ
  pub local_free : ℕ
  pub xthread_free : ℕ
  pub xheap : ℕ
  pub next : ℕ
  pub prev : ℕ

-- A page with the memory that holds the first word of its blocks.
pub record State : Type 0 where
  pub mem : Memory
  pub page : Page

unfoldable pub all_free : Page → Bool
all_free p = p.used == 0

unfoldable pub has_any_available : Page → Bool
has_any_available p = ltb p.used p.reserved || not (tf_block p.xthread_free == 0)

unfoldable pub immediate_available : Page → Bool
immediate_available p = not (p.free == 0)

-- `reserved - used` is taken in `uint32_t`.
unfoldable pub mostly_used : Option Page → Bool
mostly_used none = true
mostly_used (some p) = leb ((p.reserved + 2 ^ 32 - p.used) % 2 ^ 32) (p.reserved / 8)
