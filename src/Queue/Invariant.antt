-- ===== src/Queue/Invariant.antt =====
-- A heap's queues as lists of pages.
use mimalloc_mc.Prelude.{ℕ, ◌*◌, ◌≤◌, ◌<◌, ◌≡◌, ◌≢◌, List}
use mimalloc_mc.Prelude.Lists.{length}
use mimalloc_mc.Prelude.Chain.{count}
use mimalloc_mc.Size.{word_mod, bin_full}
use mimalloc_mc.Size.Bin.{bin}
use mimalloc_mc.Delayed.Family.{total}
use mimalloc_mc.Links.{IsQueue}
use mimalloc_mc.Queue.{Heap, queue_is_full, first_page}

-- Which list a bin has.
abbrev pub Lists : Type 0
Lists = ℕ → List ℕ

-- A page in the queue of a bin is of that bin, by its size or, if it is full, by its flag.
abbrev pub HasPlace : Heap → (b page : ℕ) → Type 0
HasPlace h b page =
    (h.in_full page ≡ queue_is_full b) × ((b ≢ bin_full) → bin (h.xblock_size page) ≡ b)

-- The queues and the direct table represent the lists.
pub record IsQueues (empty : ℕ) (h : Heap) (lists : Lists) : Type 0 where
  pub queue : (b : ℕ) → IsQueue h.links (h.queues b) (lists b)
  pub apart : (b c a : ℕ) → b ≢ c → 0 < count a (lists b) → count a (lists c) ≡ 0
  pub direct : (w : ℕ) → w ≤ 128 → h.direct w ≡ first_page empty (h.queues (bin (w * 8)))

pub record IsHeap (empty : ℕ) (h : Heap) (lists : Lists) : Type 0 where
  pub queues : IsQueues empty h lists
  pub place : (b a : ℕ) → 0 < count a (lists b) → HasPlace h b a
  pub counted : h.page_count ≡ total length 75 lists
  pub fits : h.page_count < word_mod
