-- ===== src/Delayed.antt =====
-- Freeing from other threads: `_mi_free_block_mt` (mimalloc-custom/alloc.c) against the owner's
-- `_mi_page_use_delayed_free`, `_mi_page_thread_free_collect`, `_mi_heap_delayed_free`
-- (mimalloc-custom/page.c) and `_mi_free_delayed_block` (mimalloc-custom/alloc.c), one atomic access
-- at a time, for one page and the heap that owns it.
-- Atomic accesses take effect in one order that all threads see; weaker memory orders are not
-- modelled. A weak compare-and-swap may fail at any time.
pub mod Family
pub mod Invariant
pub mod Threads
pub mod Publish
pub mod Moves
pub mod Round
pub mod OwnerMoves
pub mod Runs
pub mod Safety
mod Tests
pub mod Progress
use mimalloc_mc.Prelude.{
  ℕ, ◌≡◌, ◌≢◌, ◌<◌, ◌+◌, List, ◌∷◌, ◌++◌, Option, none, some, Bool, true, false, not, ◌&&◌,
  if◌then◌else◌, update,
}
use mimalloc_mc.Prelude.Chain.{Memory, Chain, count, erase}
use mimalloc_mc.ThreadFree.{
  Delayed, use_delayed_free, delayed_freeing, no_delayed_free, never_delayed_free, tf_block,
  tf_delayed, tf_set_delayed, tf_set_block,
}

abbrev pub same_delayed : Delayed → Delayed → Bool
same_delayed use_delayed_free use_delayed_free = true
same_delayed delayed_freeing delayed_freeing = true
same_delayed no_delayed_free no_delayed_free = true
same_delayed never_delayed_free never_delayed_free = true
same_delayed _ _ = false

-- One round of `_mi_page_use_delayed_free` whose compare-and-swap, if any, succeeds: the new word,
-- or `none` when the round must be repeated.
unfoldable pub use_delayed_round : (delay : Delayed) (override_never : Bool) (tfree : ℕ) → Option ℕ
use_delayed_round delay override_never tfree =
    let old_delay = tf_delayed tfree in
    if same_delayed old_delay delayed_freeing
    then none
    else if same_delayed delay old_delay
    then some tfree
    else if not override_never && same_delayed old_delay never_delayed_free
    then some tfree
    else some (tf_set_delayed tfree delay)

-- The body of the first loop of `_mi_free_block_mt`, between its read and its compare-and-swap.
abbrev pub use_delayed : ℕ → Bool
use_delayed tfree = same_delayed (tf_delayed tfree) use_delayed_free

unfoldable pub prepare_mem : (block tfree : ℕ) → Memory → Memory
prepare_mem block tfree m = if use_delayed tfree then m else update m block (tf_block tfree)

unfoldable pub prepare_word : (block tfree : ℕ) → ℕ
prepare_word block tfree =
    if use_delayed tfree then tf_set_delayed tfree delayed_freeing else tf_set_block tfree block

-- Where a thread stands in `_mi_free_block_mt`, with its local variables.
pub data Pc : Type 0 where
  idle : Pc
  entered : (block : ℕ) → Pc  -- head of the first loop
  loaded : (block tfree : ℕ) → Pc
  prepared : (block tfree : ℕ) → Pc  -- before the first compare-and-swap
  delaying : (block : ℕ) → Pc  -- the flag is `MI_DELAYED_FREEING`
  delayed_loaded : (block dfree : ℕ) → Pc
  delayed_linked : (block dfree : ℕ) → Pc  -- before the second compare-and-swap
  leaving : Pc  -- head of the last loop
  leaving_loaded : (tfree : ℕ) → Pc  -- before the last compare-and-swap

-- The owner walks the delayed list that it took over, and is inside `_mi_free_delayed_block` with
-- one block after `_mi_page_use_delayed_free` has returned.
pub data Owner : Type 0 where
  at_rest : Owner
  holding : (block : ℕ) → Owner

-- The page's `xthread_free` and `xheap`, the heap's `thread_delayed_free`, the memory of the
-- blocks, the blocks on the owner's own free lists, and those that programs hold.
pub record Shared : Type 0 where
  pub mem : Memory
  pub xthread_free : ℕ
  pub thread_delayed_free : ℕ
  pub xheap : ℕ
  pub walk : ℕ
  pub owner : Owner
  pub own : List ℕ
  pub live : List ℕ

-- The source reads the heap once, before its second loop; here every round of that loop reads it.
pub data Move (s : Shared) : Pc → Shared → Pc → Type 0 where
  enter :
      (b : ℕ) → 0 < count b s.live → Move s idle (record s { live = erase b s.live }) (entered b)
  load : {b : ℕ} → Move s (entered b) s (loaded b s.xthread_free)
  prepare :
      {b tfree : ℕ}
      → Move s (loaded b tfree) (record s { mem = prepare_mem b tfree s.mem }) (prepared b tfree)
  cas_lost : {b tfree : ℕ} → Move s (prepared b tfree) s (entered b)
  cas_won :
      {b tfree : ℕ}
      → s.xthread_free ≡ tfree
      → Move s
          (prepared b tfree)
          (record s { xthread_free = prepare_word b tfree })
          (if use_delayed tfree then delaying b else idle)
  no_heap : {b : ℕ} → s.xheap ≡ 0 → Move s (delaying b) s leaving
  delayed_load :
      {b : ℕ} → s.xheap ≢ 0 → Move s (delaying b) s (delayed_loaded b s.thread_delayed_free)
  delayed_link :
      {b dfree : ℕ}
      → Move s
          (delayed_loaded b dfree)
          (record s { mem = update s.mem b dfree })
          (delayed_linked b dfree)
  delayed_lost : {b dfree : ℕ} → Move s (delayed_linked b dfree) s (delaying b)
  delayed_won :
      {b dfree : ℕ}
      → s.thread_delayed_free ≡ dfree
      → Move s (delayed_linked b dfree) (record s { thread_delayed_free = b }) leaving
  leave_load : Move s leaving s (leaving_loaded s.xthread_free)
  leave_lost : {tfree : ℕ} → Move s (leaving_loaded tfree) s leaving
  leave_won :
      {tfree : ℕ}
      → s.xthread_free ≡ tfree
      → Move s
          (leaving_loaded tfree)
          (record s { xthread_free = tf_set_delayed tfree no_delayed_free })
          idle

pub data OwnerMove (s : Shared) : Shared → Type 0 where
  -- The owner links its own free blocks, and programs write in what they hold.
  writes :
      (a v : ℕ)
      → 0 < count a s.own + count a s.live
      → OwnerMove s (record s { mem = update s.mem a v })
  allocates :
      (b : ℕ)
      → 0 < count b s.own
      → OwnerMove s (record s { own = erase b s.own; live = b ∷ s.live })
  frees :
      (b : ℕ)
      → 0 < count b s.live
      → OwnerMove s (record s { own = b ∷ s.own; live = erase b s.live })
  -- `_mi_page_thread_free_collect`: the exchange, with the list that it detaches.
  collects :
      (thread : List ℕ)
      → Chain s.mem (tf_block s.xthread_free) thread
      → OwnerMove s
          (record s { xthread_free = tf_set_block s.xthread_free 0; own = thread ++ s.own })
  -- The first loop of `_mi_heap_delayed_free`.
  takes :
      s.walk ≡ 0 → OwnerMove s (record s { walk = s.thread_delayed_free; thread_delayed_free = 0 })
  -- The next block of its second loop, up to the return of `_mi_page_use_delayed_free`.
  opens :
      {b tfree : ℕ}
      → s.owner ≡ at_rest
      → s.walk ≡ b
      → b ≢ 0
      → use_delayed_round use_delayed_free false s.xthread_free ≡ some tfree
      → OwnerMove s (record s { xthread_free = tfree; walk = s.mem b; owner = holding b })
  -- The rest of `_mi_free_delayed_block`.
  closes :
      {b : ℕ} → s.owner ≡ holding b → OwnerMove s (record s { owner = at_rest; own = b ∷ s.own })
  -- `_mi_page_use_delayed_free` before a page is abandoned, and when one is reclaimed.
  forbids :
      {tfree : ℕ}
      → use_delayed_round never_delayed_free false s.xthread_free ≡ some tfree
      → OwnerMove s (record s { xthread_free = tfree })
  permits :
      {tfree : ℕ}
      → s.xheap ≢ 0
      → use_delayed_round use_delayed_free true s.xthread_free ≡ some tfree
      → OwnerMove s (record s { xthread_free = tfree })
  -- `_mi_page_abandon` clears the heap, and a reclaim sets it again.
  abandons : tf_delayed s.xthread_free ≡ never_delayed_free → OwnerMove s (record s { xheap = 0 })
  adopts :
      (heap : ℕ)
      → heap ≢ 0
      → tf_delayed s.xthread_free ≡ never_delayed_free
      → OwnerMove s (record s { xheap = heap })

pub record System : Type 0 where
  pub shared : Shared
  pub pc : ℕ → Pc

-- `n` threads and the owner, interleaved in any order.
pub data Step (n : ℕ) (s : System) : System → Type 0 where
  thread_moves :
      (i : ℕ) {t : Shared} {p : Pc}
      → i < n
      → Move s.shared (s.pc i) t p
      → Step n s (record { shared = t; pc = update s.pc i p })
  owner_moves : {t : Shared} → OwnerMove s.shared t → Step n s (record { shared = t; pc = s.pc })

pub data Reach (n : ℕ) (s : System) : System → Type 0 where
  start : Reach n s s
  later : {t u : System} → Reach n s t → Step n t u → Reach n s u
