-- ===== src/Pages/Generic.antt =====
-- The general allocation of mimalloc-custom/page.c: `_mi_malloc_generic` and what it calls. What
-- belongs to other files is an argument: the start of a thread, `mi_heap_collect`, the deferred free
-- that a program has registered and the size of a page of the operating system.
use mimalloc_mc.Prelude.{
  ℕ, zero, suc, ◌+◌, ◌-◌, ◌%◌, Bool, true, false, Option, none, some, ltb, ◌==◌, if◌then◌else◌,
  update,
}
use mimalloc_mc.Prelude.Partial.{◌>>=◌}
use mimalloc_mc.Size.{padding_size, large_obj_size_max, word_mod}
use mimalloc_mc.Page.Blocks.{page_malloc}
use mimalloc_mc.Segment.{word_sub}
use mimalloc_mc.Front.{ptrdiff_max}
use mimalloc_mc.System.Sizes.{good_alloc_size}
use mimalloc_mc.Pages.{Store, Found, Segments, set_page, page_field, set_field}
use mimalloc_mc.Pages.Move.{page_fresh_alloc}
use mimalloc_mc.Pages.Search.{find_free_page}
use mimalloc_mc.Pages.Free.{free_delayed_block}

pub record Calls (S : Type 0) : Type 0 where
  pub is_initialized : Store S → Bool
  pub thread_init : Store S → Store S
  pub heap_collect : (force : Bool) → Store S → Option (Store S)
  pub deferred : Option ((force : Bool) → (heartbeat : ℕ) → Store S → Store S)
  pub os_page_size : ℕ

-- A block, or null, with the store after the call.
pub record Given (S : Type 0) : Type 0 where
  pub block : ℕ
  pub store : Store S

module _ {S : Type 0} (seg : Segments S) (calls : Calls S) where
  -- The registered function runs with `recurse` set.
  unfoldable pub run_deferred :
      Option ((force : Bool) → (heartbeat : ℕ) → Store S → Store S)
      → (force : Bool) → Store S
      → Store S
  run_deferred none force st = st
  run_deferred (some f) force st =
      if st.recurse
      then st
      else record (f force st.heartbeat (record st { recurse = true })) { recurse = false }

  unfoldable pub deferred_free : (force : Bool) → Store S → Store S
  deferred_free force st =
      run_deferred calls.deferred force (record st { heartbeat = (st.heartbeat + 1) % word_mod })

  -- Free the blocks of a list; `none` also when the fuel runs out.
  unfoldable pub free_delayed_list : (fuel block : ℕ) → Store S → Option (Store S)
  free_delayed_list zero block st = none
  free_delayed_list (suc fuel) block st =
      let next = (st.pages (seg.page_of st.rest block)).mem block in
      if block == 0
      then some st
      else free_delayed_block seg block st >>= λ st'. free_delayed_list fuel next st'

  unfoldable pub heap_delayed_free : (fuel : ℕ) → Store S → Option (Store S)
  heap_delayed_free fuel st =
      let heap = seg.heap_address in
      free_delayed_list fuel (st.thread_delayed_free heap)
        (record st { thread_delayed_free = update st.thread_delayed_free heap 0 })

  unfoldable pub huge_page_alloc : (size : ℕ) → Store S → Option (Found S)
  huge_page_alloc size st = do
    found ← page_fresh_alloc seg none (good_alloc_size calls.os_page_size size) st
    let page = found.page
    let p = page_field page found.store
    if page == 0
        then some found
        else some (record found { store = set_field page (record p { xheap = 0 }) found.store })

  unfoldable pub find_page : (size : ℕ) → Store S → Option (Found S)
  find_page size st =
      let req_size = word_sub size padding_size in
      if ltb (large_obj_size_max - padding_size) req_size
      then (if ltb ptrdiff_max req_size
          then some (record { page = 0; store = st })
          else huge_page_alloc size st)
      else find_free_page seg size st

  -- `_mi_page_malloc` on a page that was found; it finds a free block, so that it does not call the
  -- general allocation again.
  abbrev pub take_block : Found S → Option (Given S)
  take_block found = do
    r ← page_malloc (found.store.pages found.page)
    some (record { block = r.0; store = set_page found.page r.1 found.store })

  unfoldable pub malloc_generic : (fuel size : ℕ) → Store S → Option (Given S)
  malloc_generic fuel size st =
      let st₁ = if calls.is_initialized st then st else calls.thread_init st in
      do
        st₂ ← heap_delayed_free fuel (deferred_free false st₁)
        first ← find_page size st₂
        let retry = calls.heap_collect true first.store >>= λ st₃. find_page size st₃
        found ← if first.page == 0 then retry else some first
        if found.page == 0
            then some (record { block = 0; store = found.store })
            else take_block found
