-- ===== src/Pages.antt =====
-- The pages of a heap: mimalloc-custom/page.c above the single page, that is, how pages come to a
-- heap, move between its queues and leave it, and the frees of mimalloc-custom/alloc.c that move
-- them. Other threads run between the operations, not inside of them; the module Delayed has their
-- interleavings. A result `none` says that a loop ran out of fuel or waits for another thread.
pub mod Move
pub mod Retired
pub mod Search
pub mod Free
pub mod Generic
pub mod Invariant
pub mod Kept
pub mod Moved
pub mod Quiet
pub mod Picked
pub mod Searched
pub mod Bins
pub mod Leave
pub mod Shrink
pub mod Append
pub mod Routes
pub mod Freed
pub mod Ready
pub mod Allocated
mod Tests
use mimalloc_mc.Prelude.{ℕ, Bool, Option, ◌==◌, update}
use mimalloc_mc.Page.{Page, State}
use mimalloc_mc.Queue.{Heap}

-- The heap of the running thread and all pages, by address, each with the memory of its own blocks.
-- `thread_delayed_free` has the list of every heap, by the heap's address. A page's fields `next`, `prev`, `in_full` and `xblock_size` stand in `heap`; `in_full`, `next`
-- and `prev` of the page in `pages` are not used, and `xblock_size` is kept in both. `rest` is what
-- the segments, other heaps and a program's callbacks have.
pub record Store (S : Type 0) : Type 0 where
  pub heap : Heap
  pub pages : ℕ → State
  pub page_retired_min : ℕ
  pub page_retired_max : ℕ
  pub thread_delayed_free : ℕ → ℕ
  pub heartbeat : ℕ
  pub recurse : Bool
  pub rest : S

-- A page, or null, with the store after the call.
pub record Found (S : Type 0) : Type 0 where
  pub page : ℕ
  pub store : Store S

-- What the heap's operations call: where the blocks of a page start and how many bytes they have
-- (`_mi_page_start`), the page of a pointer, what a segment has as its cookie, thread and kind,
-- `_mi_segment_page_alloc`, `_mi_segment_page_free` and `_mi_segment_huge_page_free`; and the
-- addresses of `_mi_page_empty` and of the heap, the thread's number and `_mi_ptr_cookie`.
pub record Segments (S : Type 0) : Type 0 where
  pub area : S → ℕ → ℕ
  pub page_size : S → ℕ → ℕ
  pub page_of : S → ℕ → ℕ
  pub is_huge : S → (page : ℕ) → Bool
  pub cookie : S → (segment : ℕ) → ℕ
  pub thread_id : S → (segment : ℕ) → ℕ
  pub page_alloc : (block_size : ℕ) → Store S → Found S
  pub page_free : (page : ℕ) → (force : Bool) → Store S → Store S
  pub huge_page_free : (page block : ℕ) → Store S → Store S
  pub empty_page : ℕ
  pub heap_address : ℕ
  pub this_thread : ℕ
  pub ptr_cookie : ℕ → ℕ

module _ {S : Type 0} where
  abbrev pub set_page : ℕ → State → Store S → Store S
  set_page page s st = record st { pages = update st.pages page s }

  abbrev pub set_heap : Heap → Store S → Store S
  set_heap h st = record st { heap = h }

  abbrev pub page_field : ℕ → Store S → Page
  page_field page st = (st.pages page).page

  abbrev pub set_field : ℕ → Page → Store S → Store S
  set_field page p st = set_page page (record (st.pages page) { page = p }) st
