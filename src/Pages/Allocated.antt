-- ===== src/Pages/Allocated.antt =====
-- `_mi_malloc_generic` when the queue of the size has a page with room.
use mimalloc_mc.Prelude.{
  ℕ, zero, suc, ◌+◌, ◌-◌, ◌%◌, ◌≤◌, ◌<◌, ◌≡◌, ◌≢◌, refl, ap, ◌∙◌, true, false, List, [], ◌∷◌, none,
  some, arith, ltb, ne→==, eq→==, update,
}
use mimalloc_mc.Prelude.Lists.{length}
use mimalloc_mc.Prelude.Chain.{count}
use mimalloc_mc.Size.{padding_size, large_obj_size_max, word_mod}
use mimalloc_mc.Size.Bin.{bin}
use mimalloc_mc.Page.{State}
use mimalloc_mc.Page.Blocks.{page_malloc}
use mimalloc_mc.Page.Invariant.{IsPage, parts_once, part_pointer}
use mimalloc_mc.Page.Queries.{immediate_available_iff}
use mimalloc_mc.Page.Transfer.{page_malloc-IsPage}
use mimalloc_mc.Queue.Invariant.{Lists}
use mimalloc_mc.Segment.{word_sub}
use mimalloc_mc.Pages.{Store, Found, Segments, set_page, page_field}
use mimalloc_mc.Pages.Search.{find_free_page}
use mimalloc_mc.Pages.Generic.{
  Calls, Given, take_block, find_page, malloc_generic, deferred_free, run_deferred,
  heap_delayed_free, free_delayed_list,
}
use mimalloc_mc.Pages.Invariant.{Contents, IsFrame, IsStore, set_page-IsStore, inside_not_null}
use mimalloc_mc.Pages.Kept.{page_malloc-IsFrame}
use mimalloc_mc.Pages.Quiet.{block_size_kept}
use mimalloc_mc.Pages.Ready.{IsReady, find_free_page-IsReady}

-- An allocated block: one that no program held, in a page of the queue of the bin.
pub record IsAllocated {S : Type 0} (seg : Segments S) (b : ℕ) (k : ℕ → Contents) (given : Given S)
    : Type 0 where
  pub lists : Lists
  pub after : ℕ → Contents
  pub page : ℕ
  pub inside : 0 < count page (lists b)
  pub valid : IsStore seg given.store lists after
  pub some_block : given.block ≢ 0
  pub new : count given.block (k page).live ≡ 0
  pub held : (after page).live ≡ given.block ∷ (k page).live
  pub others : (a : ℕ) → page ≢ a → (after a).live ≡ (k a).live

-- A block is taken from a page with a nonempty free list.
take-HasContents :
    {area bsize : ℕ} {s : State} (k : Contents)
    → IsPage area bsize s k.free k.local k.thread k.live
    → k.free ≢ []
    → (block : ℕ) × (t : State) × (new : Contents) × (page_malloc s ≡ some (block, t))
      × IsPage area bsize t new.free new.local new.thread new.live
      × (new.live ≡ block ∷ k.live)
      × (count block k.live ≡ 0)
      × (block ≢ 0)
      × IsFrame s.page t.page
take-HasContents {area} {bsize} {s} k v ne = go k.free ne v
  where
    go :
        (free : List ℕ)
        → free ≢ []
        → IsPage area bsize s free k.local k.thread k.live
        → (block : ℕ) × (t : State) × (new : Contents) × (page_malloc s ≡ some (block, t))
          × IsPage area bsize t new.free new.local new.thread new.live
          × (new.live ≡ block ∷ k.live)
          × (count block k.live ≡ 0)
          × (block ≢ 0)
          × IsFrame s.page t.page
    go [] ne' v' = absurd (ne' refl)
    go (block ∷ free) ne' v' =
        let (t, result, valid) = page_malloc-IsPage v' in
        let here : 0 < count block (block ∷ free) = ground arith in
        (
          block,
          t,
          record { free = free; local = k.local; thread = k.thread; live = block ∷ k.live },
          result,
          valid,
          refl,
          omega (arith, parts_once v' block, here),
          (part_pointer v' block (omega (arith, here))).1,
          page_malloc-IsFrame s (block, t) result,
        )

ltb_off : (a b : ℕ) → b ≤ a → ltb a b ≡ false
ltb_off a b h = ground arith

module _ {S : Type 0} (seg : Segments S) where
  -- The block of the page that was found.
  take_block-IsAllocated :
      {b : ℕ} {st : Store S} {k : ℕ → Contents} {found : Found S} (calls : Calls S)
      → IsReady seg b st k found
      → (given : Given S) × (take_block seg calls found ≡ some given) × IsAllocated seg b k given
  take_block-IsAllocated {b} {k} {found} calls r =
      let page = found.page in
      let held = r.valid.contents b page r.inside in
      let some_free = (immediate_available_iff held).0 r.ready in
      let (block, t, new, result, valid, live, fresh, nz, frame) =
        take-HasContents (r.after page) held some_free in
      (
        record { block = block; store = set_page page t found.store },
        rw result refl,
        record {
          lists = r.lists;
          after = update r.after page new;
          page = page;
          inside = r.inside;
          valid =
              set_page-IsStore r.valid page t new
                (rw (block_size_kept _ _ (seg.page_size found.store.rest page) frame) valid) frame;
          some_block = nz;
          new = rw (← r.quiet.live page) fresh;
          held = rw (eq→== page page refl) (live ∙ ap (block ∷◌) (r.quiet.live page));
          others = λ a ne. rw (ne→== page a ne) (r.quiet.live a);
        },
      )

  -- The list of delayed frees and the heartbeat say nothing of the pages.
  beat-IsStore :
      {st : Store S} {lists : Lists} {k : ℕ → Contents} (tdf : ℕ → ℕ) (beat : ℕ)
      → IsStore seg st lists k
      → IsStore seg (record st { thread_delayed_free = tdf; heartbeat = beat }) lists k
  beat-IsStore tdf beat v = record {
    heap = v.heap;
    used = v.used;
    contents = v.contents;
    sized = v.sized;
  }

  module _ (calls : Calls S) where
    -- The store once the heartbeat is counted and an empty list of delayed frees is taken over.
    abbrev quiet_store : Store S → Store S
    quiet_store st = record st {
      thread_delayed_free = update st.thread_delayed_free seg.heap_address 0;
      heartbeat = (st.heartbeat + 1) % word_mod;
    }

    delayed_none :
        (fuel : ℕ) (st : Store S)
        → 0 < fuel
        → calls.deferred ≡ none
        → st.thread_delayed_free seg.heap_address ≡ 0
        → heap_delayed_free seg calls fuel (deferred_free seg calls false st)
          ≡ some (quiet_store st)
    unfolding deferred_free run_deferred heap_delayed_free free_delayed_list
    delayed_none zero st pos no_fun no_delayed = absurd (omega arith)
    delayed_none (suc fuel) st pos no_fun no_delayed = rw (no_fun, no_delayed) refl

    find_page_small :
        (size : ℕ) (st : Store S)
        → padding_size ≤ size
        → size ≤ large_obj_size_max
        → find_page seg calls size st ≡ find_free_page seg size st
    unfolding find_page
    find_page_small size st lo hi =
        let req : word_sub size padding_size ≡ size - padding_size = omega arith in
        rw (req, ltb_off (large_obj_size_max - padding_size) (size - padding_size) (omega arith))
          refl

    -- On a valid store of an initialised heap with no delayed frees and no registered function, for
    -- a size, with its padding, of a regular page, where the queue of the size has a page with fewer
    -- blocks in use than it has room for, `_mi_malloc_generic` returns a block that is not null and
    -- that no program held, in a page of that queue. The store is valid, with the block held, and
    -- in all other pages programs hold what they held.
    pub malloc_generic-IsAllocated :
        (fuel size a : ℕ) (st : Store S) (lists : Lists) (k : ℕ → Contents)
        → 0 < fuel
        → IsStore seg st lists k
        → calls.is_initialized st ≡ true
        → calls.deferred ≡ none
        → st.thread_delayed_free seg.heap_address ≡ 0
        → padding_size ≤ size
        → size ≤ large_obj_size_max
        → 0 < count a (lists (bin size))
        → length (k a).live < (page_field a st).reserved
        → (given : Given S) × (malloc_generic seg calls fuel size st ≡ some given)
          × IsAllocated seg (bin size) k given
    unfolding malloc_generic
    malloc_generic-IsAllocated fuel size a st lists k pos v ready no_fun no_delayed lo hi inside
          room =
        let st' = quiet_store st in
        let (found, result, r) =
          find_free_page-IsReady seg size a st' lists k (beat-IsStore _ _ v) inside room in
        let (given, taken, allocated) = take_block-IsAllocated calls r in
        let small = find_page_small size st' lo hi ∙ result in
        let nz = inside_not_null (bin size) found.page r.valid r.inside in
        (
          given,
          rw
              (
                ready,
                delayed_none fuel st pos no_fun no_delayed,
                small,
                ne→== found.page 0 nz,
                ne→== found.page 0 nz,
              )
              taken,
          allocated,
        )
