-- ===== src/Pages/Move.antt =====
-- `_mi_page_unfull`, `mi_page_to_full`, `_mi_page_free`, `_mi_page_retire`, `_mi_page_reclaim`,
-- `mi_page_fresh_alloc` and `mi_page_fresh` of mimalloc-custom/page.c.
use mimalloc_mc.Prelude.{
  ℕ, ◌/◌, Bool, true, false, not, ◌&&◌, Option, none, some, ltb, leb, ◌==◌, if◌then◌else◌, update,
}
use mimalloc_mc.Prelude.Partial.{◌>>=◌}
use mimalloc_mc.Size.{small_obj_size_max, large_obj_size_max, bin_full}
use mimalloc_mc.Size.Bin.{bin, bin_size}
use mimalloc_mc.Page.Blocks.{free_collect}
use mimalloc_mc.Page.Grow.{page_init, block_size_of}
use mimalloc_mc.Queue.{page_queue_of, queue_remove, queue_push, queue_enqueue_from}
use mimalloc_mc.Pages.{Store, Found, Segments, set_page, set_heap, page_field, set_field}

-- `MI_MAX_RETIRE_SIZE` and `MI_RETIRE_CYCLES`.
abbrev pub max_retire_size : ℕ
max_retire_size = large_obj_size_max

abbrev pub retire_cycles : ℕ
retire_cycles = 8

module _ {S : Type 0} where
  -- `_mi_page_free_collect` on a page of the store.
  abbrev pub collect_page : (page : ℕ) → (force : Bool) → Store S → Option (Store S)
  collect_page page force st = do s ← free_collect force (st.pages page); some (set_page page s st)

module _ {S : Type 0} (seg : Segments S) where
  unfoldable pub page_reclaim : (page : ℕ) → Store S → Store S
  page_reclaim page st =
      let size = block_size_of (page_field page st) (seg.page_size st.rest page) in
      set_heap (queue_push seg.empty_page (bin size) page st.heap) st

  -- The queue is null for a huge page, which joins none.
  abbrev pub join_queue : Option ℕ → ℕ → Store S → Store S
  join_queue none page st = st
  join_queue (some b) page st = set_heap (queue_push seg.empty_page b page st.heap) st

  unfoldable pub page_fresh_alloc : (to : Option ℕ) → (block_size : ℕ) → Store S → Option (Found S)
  page_fresh_alloc to block_size st =
      let found = seg.page_alloc block_size st in
      let page = found.page in
      let st₁ = found.store in
      if page == 0 then some found else do
        s ←
            page_init seg.heap_address (seg.area st₁.rest page) (seg.page_size st₁.rest page)
              block_size (st₁.pages page)
        let sized = record (st₁.heap) {
          xblock_size = update st₁.heap.xblock_size page s.page.xblock_size;
        }
        let st₂ = set_heap sized (set_page page s st₁)
        some (record { page = page; store = join_queue to page st₂ })

  unfoldable pub page_fresh : (b : ℕ) → Store S → Option (Found S)
  page_fresh b st = page_fresh_alloc (some b) (bin_size b) st

  unfoldable pub page_unfull : (page : ℕ) → Store S → Store S
  page_unfull page st =
      let regular = record (st.heap) { in_full = update st.heap.in_full page false } in
      let to = page_queue_of page regular in
      let flagged = record regular { in_full = update regular.in_full page true } in
      if not (st.heap.in_full page)
      then st
      else set_heap (queue_enqueue_from seg.empty_page to bin_full page flagged) st

  unfoldable pub page_to_full : (page b : ℕ) → Store S → Option (Store S)
  page_to_full page b st =
      if st.heap.in_full page
      then some st
      else collect_page page false
          (set_heap (queue_enqueue_from seg.empty_page bin_full b page st.heap) st)

  unfoldable pub page_free : (page b : ℕ) → (force : Bool) → Store S → Store S
  page_free page b force st =
      let st₁ = set_field page (record (page_field page st) { has_aligned = false }) st in
      let st₂ = set_heap (queue_remove seg.empty_page b page st₁.heap) st₁ in
      let st₃ = set_field page (record (page_field page st₂) { xheap = 0 }) st₂ in
      seg.page_free page force st₃

  -- The counters that say how long a page of a size stays retired.
  abbrev pub cycles_for : (size : ℕ) → ℕ
  cycles_for size = if leb size small_obj_size_max then retire_cycles else retire_cycles / 4

  -- The branch that keeps the page for a while.
  abbrev pub keep_retired : (page b : ℕ) → Store S → Store S
  keep_retired page b st =
      let st' =
        set_field page
          (record (page_field page st) { retire_expire = cycles_for (st.heap.xblock_size page) })
          st in
      record st' {
        page_retired_min = if ltb b st.page_retired_min then b else st.page_retired_min;
        page_retired_max = if ltb st.page_retired_max b then b else st.page_retired_max;
      }

  -- Is it the only page of a regular queue?
  abbrev pub is_only : (page b : ℕ) → Store S → Bool
  is_only page b st =
      (leb (st.heap.xblock_size page) max_retire_size && not (st.heap.in_full page))
      && (((st.heap.queues b).last == page) && ((st.heap.queues b).first == page))

  unfoldable pub page_retire : (page : ℕ) → Store S → Store S
  page_retire page st =
      let st₁ = set_field page (record (page_field page st) { has_aligned = false }) st in
      let b = page_queue_of page st.heap in
      if is_only page b st₁ then keep_retired page b st₁ else page_free page b false st₁
