-- ===== src/Pages/Search.antt =====
-- `mi_page_queue_find_free_ex` and `mi_find_free_page` of mimalloc-custom/page.c. `MI_SECURE` is 0,
-- and the count of the search's steps, a statistic, is left out.
use mimalloc_mc.Prelude.{
  ℕ, zero, suc, ◌+◌, Bool, true, false, not, Option, none, some, ltb, ◌==◌, if◌then◌else◌,
}
use mimalloc_mc.Prelude.Partial.{◌>>=◌}
use mimalloc_mc.Size.Bin.{bin}
use mimalloc_mc.Page.{immediate_available}
use mimalloc_mc.Page.Blocks.{free_collect}
use mimalloc_mc.Page.Grow.{extend_free}
use mimalloc_mc.Pages.{Store, Found, Segments, set_page}
use mimalloc_mc.Pages.Move.{page_to_full, page_fresh}
use mimalloc_mc.Pages.Retired.{set_expire, collect_retired}

-- How a round of the search ends: with `break`, or with the page moved away.
pub data Round (S : Type 0) : Type 0 where
  pick : Store S → Round S
  skip : Store S → Round S

module _ {S : Type 0} (seg : Segments S) where
  -- The body of the loop.
  unfoldable pub visit : (b page : ℕ) → Store S → Option (Round S)
  visit b page st = do
    s ← free_collect false (st.pages page)
    let st' = set_page page s st
    let grown = extend_free (seg.area st.rest page) (seg.page_size st.rest page) s
    if immediate_available s.page
        then some (pick st')
        else if ltb s.page.capacity s.page.reserved
        then (grown >>= λ t. some (pick (set_page page t st)))
        else page_to_full seg page b st' >>= λ st''. some (skip st'')

  unfoldable pub search : (fuel b page : ℕ) → Store S → Option (Found S)
  search zero b page st = none
  search (suc fuel) b page st =
      let next = st.heap.links.next page in
      if page == 0
      then some (record { page = 0; store = st })
      else visit b page st >>= λ r. elim r [
        | pick st' ↦ some (record { page = page; store = st' })
        | skip st' ↦ search fuel b next st'
      ]

  -- When no page of the queue will do: collect, take a fresh page, and perhaps try once again.
  unfoldable pub after_search :
      (b : ℕ) → (again : Store S → Option (Found S)) → Found S → Option (Found S)
  after_search b again found =
      if not (found.page == 0)
      then some (record found { store = set_expire seg found.page 0 found.store })
      else do
        fresh ← page_fresh seg b (collect_retired seg false found.store)
        if fresh.page == 0 then again fresh.store else some fresh

  -- A queue has at most as many pages as the heap.
  abbrev pub search_queue : (b : ℕ) → Store S → Option (Found S)
  search_queue b st = search (st.heap.page_count + 1) b ((st.heap.queues b).first) st

  -- `mi_page_queue_find_free_ex` with `first_try` false.
  unfoldable pub find_free_again : (b : ℕ) → Store S → Option (Found S)
  find_free_again b st =
      search_queue b st >>= after_search b (λ st'. some (record { page = 0; store = st' }))

  -- `mi_page_queue_find_free_ex`; a second call has `first_try` false.
  unfoldable pub queue_find_free_ex : (b : ℕ) → (first_try : Bool) → Store S → Option (Found S)
  queue_find_free_ex b false st = find_free_again b st
  queue_find_free_ex b true st = search_queue b st >>= after_search b (find_free_again b)

  unfoldable pub find_free_page : (size : ℕ) → Store S → Option (Found S)
  find_free_page size st =
      let b = bin size in
      let page = (st.heap.queues b).first in
      let slow = queue_find_free_ex b true in
      if page == 0 then slow st else do
        s ← free_collect false (st.pages page)
        let st' = set_page page s st
        if immediate_available s.page
            then some (record { page = page; store = set_expire seg page 0 st' })
            else slow st'
