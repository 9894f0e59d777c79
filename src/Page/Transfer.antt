-- ===== src/Page/Transfer.antt =====
-- Taking and giving back a block of a valid page.
use mimalloc_mc.Prelude.{
  ℕ, ◌+◌, ◌-◌, ◌%◌, ◌^◌, ◌<◌, ◌≡◌, refl, List, [], ◌∷◌, none, some, arith, update, eq→==, ne→==,
}
use mimalloc_mc.Prelude.Chain.{Chain-update, Chain-start, count, erase, count-erase, length-erase}
use mimalloc_mc.ThreadFree.{tf_block, tf_delayed, tf_set_block}
use mimalloc_mc.ThreadFree.Tags.{tf_make_fields, tf_make-lt}
use mimalloc_mc.Page.{State}
use mimalloc_mc.Page.Blocks.{page_malloc, free_local, free_mt}
use mimalloc_mc.Page.Invariant.{IsPage, parts_once, part_pointer}

-- With an empty free list the fast path leaves the page to the generic routine.
pub page_malloc_empty :
    {area bsize : ℕ} {s : State} {local thread live : List ℕ}
    → IsPage area bsize s [] local thread live
    → page_malloc s ≡ none
unfolding page_malloc
page_malloc_empty {s} v = rw (eq→== s.page.free 0 v.free_chain)

abbrev taken : State → ℕ → State
taken s b = record s { page = record (s.page) { free = s.mem b; used = s.page.used + 1 } }

page_malloc-taken :
    {area bsize : ℕ} {s : State} {b : ℕ} {free local thread live : List ℕ}
    → IsPage area bsize s (b ∷ free) local thread live
    → page_malloc s ≡ some (b, taken s b)
unfolding page_malloc
page_malloc-taken {s} {b} v =
    let first : s.page.free ≡ b = v.free_chain.0 in
    let small : (s.page.used + 1) % 2 ^ 32 ≡ s.page.used + 1 =
      omega (arith, v.total, v.within, v.small) in
    rw (small, first, ne→== b 0 (v.free_chain.1)) refl

-- On a valid page with a nonempty free list, `_mi_page_malloc` hands out the first block of the
-- list, and the page is valid with that block held by a program and the rest of the list free.
pub page_malloc-IsPage :
    {area bsize : ℕ} {s : State} {b : ℕ} {free local thread live : List ℕ}
    → IsPage area bsize s (b ∷ free) local thread live
    → (t : State) × (page_malloc s ≡ some (b, t)) × IsPage area bsize t free local thread (b ∷ live)
page_malloc-IsPage {s} {b} v = (
  taken s b,
  page_malloc-taken v,
  record {
    free_chain = v.free_chain.2;
    local_chain = v.local_chain;
    thread_chain = v.thread_chain;
    tag_word = v.tag_word;
    parts = λ a. ground (arith, v.parts a);
    in_use = omega (arith, v.in_use);
    total = omega (arith, v.total);
    within = v.within;
    small = v.small;
    area_ok = v.area_ok;
  },
)

module _ {area bsize : ℕ} {s : State} {free local thread live : List ℕ} (b : ℕ)
    (v : IsPage area bsize s free local thread live) (held : 0 < count b live) where
  outside_free : count b free ≡ 0
  outside_free = omega (arith, parts_once v b)

  outside_local : count b local ≡ 0
  outside_local = omega (arith, parts_once v b)

  outside_thread : count b thread ≡ 0
  outside_thread = omega (arith, parts_once v b)

  -- On a valid page, a free by the page's own thread of a block that a program holds leaves a
  -- valid page with the block in front of the local free list.
  pub free_local-IsPage : IsPage area bsize (free_local b s) free (b ∷ local) thread (erase b live)
  unfolding free_local
  free_local-IsPage =
      let size = length-erase b live held in
      let used_less : (s.page.used + 2 ^ 32 - 1) % 2 ^ 32 ≡ s.page.used - 1 =
        omega (arith, v.total, v.within, v.small, v.in_use, size) in
      record {
        free_chain = Chain-update s.mem b _ _ free outside_free v.free_chain;
        local_chain = (
          refl,
          (part_pointer v b (omega arith)).1,
          Chain-start (update s.mem b s.page.local_free) _ _ local (ground arith)
              (Chain-update s.mem b _ _ local outside_local v.local_chain),
        );
        thread_chain = Chain-update s.mem b _ _ thread outside_thread v.thread_chain;
        tag_word = v.tag_word;
        parts = λ a. ground (arith, v.parts a, count-erase b a live held);
        in_use = rw used_less (omega (arith, v.in_use, size));
        total = rw used_less (omega (arith, v.total, v.in_use, size));
        within = v.within;
        small = v.small;
        area_ok = v.area_ok;
      }

  -- On a valid page, the direct push of another thread (a flag other than MI_USE_DELAYED_FREE) of
  -- a block that a program holds leaves a valid page with the block in front of the thread free
  -- list.
  pub free_mt-IsPage : IsPage area bsize (free_mt b s) free local (b ∷ thread) (erase b live)
  unfolding free_mt tf_set_block
  free_mt-IsPage =
      let size = length-erase b live held in
      let pointer = part_pointer v b (omega arith) in
      let tag = tf_make_fields b (tf_delayed s.page.xthread_free) pointer.0 in
      record {
        free_chain = Chain-update s.mem b _ _ free outside_free v.free_chain;
        local_chain = Chain-update s.mem b _ _ local outside_local v.local_chain;
        thread_chain = (
          tag.0,
          pointer.1,
          Chain-start (update s.mem b (tf_block s.page.xthread_free)) _ _ thread (ground arith)
              (Chain-update s.mem b _ _ thread outside_thread v.thread_chain),
        );
        tag_word = tf_make-lt b (tf_delayed s.page.xthread_free) pointer.0;
        parts = λ a. ground (arith, v.parts a, count-erase b a live held);
        in_use = omega (arith, v.in_use, size);
        total = v.total;
        within = v.within;
        small = v.small;
        area_ok = v.area_ok;
      }
