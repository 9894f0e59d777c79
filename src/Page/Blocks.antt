-- ===== src/Page/Blocks.antt =====
-- Taking a block from a page and giving it back: the fast path of `_mi_page_malloc`, the local
-- push of `mi_free` and `_mi_free_block`, the push of another thread in `_mi_free_block_mt`
-- (mimalloc-custom/alloc.c), and `_mi_page_thread_free_collect` and `_mi_page_free_collect`
-- (mimalloc-custom/page.c). A compare-and-swap loop that retries until it succeeds is one exchange
-- here; the interleavings are in the module Delayed.
use mimalloc_mc.Prelude.{
  ℕ, zero, suc, ◌+◌, ◌-◌, ◌%◌, ◌^◌, Bool, false, not, ◌&&◌, ◌||◌, Option, none, some, ltb, leb,
  ◌==◌, if◌then◌else◌, update,
}
use mathlib.Core.Option
use mimalloc_mc.Prelude.Chain.{Memory}
use mimalloc_mc.ThreadFree.{tf_block, tf_set_block}
use mimalloc_mc.Page.{Page, State}

-- `none` stands for the call of `_mi_malloc_generic`.
unfoldable pub page_malloc : State → Option (ℕ × State)
page_malloc s =
    let p = s.page in
    if p.free == 0
    then none
    else some
        (p.free, record s { page = record p { free = s.mem p.free; used = (p.used + 1) % 2 ^ 32 } })

unfoldable pub free_local : ℕ → State → State
free_local block s =
    let p = s.page in
    record {
      mem = update s.mem block p.local_free;
      page = record p { local_free = block; used = (p.used + 2 ^ 32 - 1) % 2 ^ 32 };
    }

-- The branch for a flag other than `MI_USE_DELAYED_FREE`.
unfoldable pub free_mt : ℕ → State → State
free_mt block s =
    let p = s.page in
    record {
      mem = update s.mem block (tf_block p.xthread_free);
      page = record p { xthread_free = tf_set_block p.xthread_free block };
    }

-- The walk to the tail. It goes on while `count <= max_count`, so at most `max_count` rounds from
-- a count of 1; `rounds` is how many of them are left.
unfoldable pub find_tail : (rounds : ℕ) → Memory → (max_count count tail : ℕ) → ℕ × ℕ
find_tail zero m max_count count tail = (tail, count)
find_tail (suc rounds) m max_count count tail =
    let rest = find_tail rounds m max_count (count + 1) (m tail) in
    if not (m tail == 0) && leb count max_count then rest else (tail, count)

unfoldable pub thread_free_collect : State → State
thread_free_collect s =
    let p = s.page in
    let head = tf_block p.xthread_free in
    let p' = record p { xthread_free = tf_set_block p.xthread_free 0 } in
    if head == 0
    then record s { page = p' }
    else let (tail, count) = find_tail p.capacity s.mem p.capacity 1 head in
      if ltb p.capacity count then record s { page = p' } else record {
        mem = update s.mem tail p.local_free;
        page = record p' { local_free = head; used = (p.used + 2 ^ 32 - count) % 2 ^ 32 };
      }

-- The walk of a forced collection, which has no bound of its own; `none` when the fuel runs out.
unfoldable pub list_tail : (fuel : ℕ) → Memory → ℕ → Option ℕ
list_tail zero m tail = none
list_tail (suc fuel) m tail =
    let rest = list_tail fuel m (m tail) in if m tail == 0 then some tail else rest

abbrev pub free_from_local : State → Page
free_from_local s = record (s.page) { free = s.page.local_free; local_free = 0; is_zero = false }

unfoldable pub local_collect : (force : Bool) → State → Option State
local_collect force s =
    let p = s.page in
    if p.local_free == 0
    then some s
    else if p.free == 0
    then some (record s { page = free_from_local s })
    else if force
    then Option.map (λ tail. record { mem = update s.mem tail p.free; page = free_from_local s })
        (list_tail (p.capacity + 1) s.mem p.local_free)
    else some s

unfoldable pub free_collect : (force : Bool) → State → Option State
free_collect force s =
    local_collect force
      (if force || not (tf_block s.page.xthread_free == 0) then thread_free_collect s else s)
