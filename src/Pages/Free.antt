-- ===== src/Pages/Free.antt =====
-- `mi_free` and what it calls in mimalloc-custom/alloc.c, with `mi_usable_size`, in the default
-- debug build without encoded free lists: the checks for a double free and of the padding do
-- nothing, and a pointer outside of the regions only causes a warning.
use mimalloc_mc.Prelude.{
  ℕ, ◌-◌, ◌%◌, Bool, true, false, not, ◌&&◌, Option, some, ◌==◌, if◌then◌else◌, update, bit_and,
}
use mimalloc_mc.Prelude.Partial.{◌>>=◌}
use mimalloc_mc.Size.{intptr_size, padding_size}
use mimalloc_mc.ThreadFree.{use_delayed_free, no_delayed_free, tf_set_delayed}
use mimalloc_mc.Page.{all_free}
use mimalloc_mc.Page.Blocks.{free_local}
use mimalloc_mc.Page.Grow.{block_size_of}
use mimalloc_mc.Delayed.{use_delayed, use_delayed_round, prepare_mem, prepare_word}
use mimalloc_mc.Segment.{ptr_segment, word_sub}
use mimalloc_mc.Pages.{Store, Segments, set_page, page_field, set_field}
use mimalloc_mc.Pages.Move.{collect_page, page_unfull, page_retire}

module _ {S : Type 0} (seg : Segments S) where
  abbrev pub block_size_at : (page : ℕ) → Store S → ℕ
  block_size_at page st = block_size_of (page_field page st) (seg.page_size st.rest page)

  -- The push on the delayed list of the page's heap, with the flag reset after it.
  unfoldable pub push_delayed : (page block : ℕ) → Store S → Store S
  push_delayed page block st =
      let s = st.pages page in
      let heap = s.page.xheap in
      let mem = update s.mem block (st.thread_delayed_free heap) in
      let pushed = record (set_page page (record s { mem = mem }) st) {
        thread_delayed_free = update st.thread_delayed_free heap block;
      } in
      let st' = if heap == 0 then st else pushed in
      let p = page_field page st' in
      set_field page (record p { xthread_free = tf_set_delayed p.xthread_free no_delayed_free }) st'

  unfoldable pub free_block_mt : (page block : ℕ) → Store S → Store S
  free_block_mt page block st =
      let s = st.pages page in
      let tfree = s.page.xthread_free in
      let st' =
        set_page page
          (record {
            mem = prepare_mem block tfree s.mem;
            page = record (s.page) { xthread_free = prepare_word block tfree };
          })
          st in
      if seg.is_huge st.rest page
      then seg.huge_page_free page block st
      else if use_delayed tfree
      then push_delayed page block st'
      else st'

  abbrev pub push_local : (page block : ℕ) → Store S → Store S
  push_local page block st = set_page page (free_local block (st.pages page)) st

  unfoldable pub free_block : (page : ℕ) → (local : Bool) → (block : ℕ) → Store S → Store S
  free_block page local block st =
      let st' = push_local page block st in
      if not local
      then free_block_mt page block st
      else if all_free (page_field page st')
      then page_retire seg page st'
      else if st.heap.in_full page
      then page_unfull seg page st'
      else st'

  unfoldable pub ptr_unalign : (page p : ℕ) → Store S → ℕ
  ptr_unalign page p st =
      let diff = word_sub p (seg.area st.rest page) in word_sub p (diff % block_size_at page st)

  unfoldable pub free_generic : (local : Bool) → (p : ℕ) → Store S → Store S
  free_generic local p st =
      let page = seg.page_of st.rest p in
      let block = if (page_field page st).has_aligned then ptr_unalign page p st else p in
      free_block page local block st

  -- `page->flags.full_aligned == 0`.
  abbrev pub no_flags : (page : ℕ) → Store S → Bool
  no_flags page st = not (st.heap.in_full page) && not ((page_field page st).has_aligned)

  unfoldable pub free : (p : ℕ) → Store S → Store S
  free p st =
      let segment = ptr_segment p in
      let local = seg.this_thread == seg.thread_id st.rest segment in
      let page = seg.page_of st.rest p in
      let st' = push_local page p st in
      if not (bit_and p (intptr_size - 1) == 0)
      then st
      else if segment == 0
      then st
      else if not (seg.ptr_cookie segment == seg.cookie st.rest segment)
      then st
      else if not (local && no_flags page st)
      then free_generic local p st
      else if all_free (page_field page st')
      then page_retire seg page st'
      else st'

  -- `none` when another thread is about to push on a delayed list of this page, which the code waits
  -- for. A result is always true.
  unfoldable pub free_delayed_block : (block : ℕ) → Store S → Option (Store S)
  free_delayed_block block st =
      let page = seg.page_of st.rest block in
      let p = page_field page st in
      do
        w ← use_delayed_round use_delayed_free false p.xthread_free
        st' ← collect_page page false (set_field page (record p { xthread_free = w }) st)
        some (free_block page true block st')

  unfoldable pub usable_size : (p : ℕ) → Store S → ℕ
  usable_size p st =
      let page = seg.page_of st.rest p in
      let size = word_sub (block_size_at page st) padding_size in
      let adjust = word_sub p (ptr_unalign page p st) in
      if p == 0 then 0 else if (page_field page st).has_aligned then word_sub size adjust else size
