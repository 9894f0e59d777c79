-- ===== src/Segment/PageFree.antt =====
-- `_mi_segment_page_free` of mimalloc-custom/segment.c for a page of a segment that stays with its
-- thread.
use mimalloc_mc.Prelude.{ℕ, ◌+◌, ◌≡◌, false, List, ◌==◌, if◌then◌else◌, update}
use mimalloc_mc.Prelude.Chain.{Chain}
use mimalloc_mc.Segment.Store.{Store}
use mimalloc_mc.Segment.Kept.{in_use}
use mimalloc_mc.Segment.Invariant.{Lists, IsStore, joined}
use mimalloc_mc.Segment.Abandon.{Shared}

-- A page of a segment is free again, and its segment, which other pages of the thread are in, is in the
-- queue of segments with free pages, at the end when it was full.
pub record IsPageFreed {W : Type 0} (base idx : ℕ) (lists : Lists) (owned : List ℕ)
    (sh sh' : Shared W) : Type 0 where
  pub queues :
      IsStore sh'.store
        (if (sh.store.segments base).used == (sh.store.segments base).capacity
          then joined (sh.store.segments base).page_kind base lists
          else lists)
        owned
  pub used : (sh'.store.segments base).used + 1 ≡ (sh.store.segments base).used
  pub pages :
      (i : ℕ)
      → in_use (sh'.store.segments base) i ≡ update (in_use (sh.store.segments base)) idx false i
  pub lists_same : sh'.lists ≡ sh.lists
