-- ===== src/Pages/Freed.antt =====
-- A free by the page's own thread, on a valid store.
use mimalloc_mc.Prelude.{
  ℕ, ◌+◌, ◌*◌, ◌%◌, ◌<◌, ◌≡◌, ◌≢◌, refl, sym, ap, ◌∙◌, subst, inl, inr, Bool-cases, true, false, [],
  ◌∷◌, arith, if◌then◌else◌, eq→==, ==→ne, update,
}
use native.Mathlib.Nat.{mul-add-mod_self_right, mod-eq_of_lt}
use mimalloc_mc.Prelude.Chain.{count, erase}
use mimalloc_mc.Size.{bin_full, word_mod}
use mimalloc_mc.Size.Bin.{bin}
use mimalloc_mc.Page.{all_free}
use mimalloc_mc.Page.Blocks.{free_local}
use mimalloc_mc.Page.Queries.{all_free_iff}
use mimalloc_mc.Page.Transfer.{free_local-IsPage}
use mimalloc_mc.Queue.{queue_is_full}
use mimalloc_mc.Queue.Operations.{is_full}
use mimalloc_mc.Queue.Invariant.{Lists}
use mimalloc_mc.Segment.{ptr_segment, word_sub}
use mimalloc_mc.Pages.{Store, Segments, page_field}
use mimalloc_mc.Pages.Free.{free, ptr_unalign, free_generic, free_block, push_local, block_size_at}
use mimalloc_mc.Pages.Invariant.{Contents, IsStore, set_page-IsStore, inside_not_null}
use mimalloc_mc.Pages.Moved.{moved_lists}
use mimalloc_mc.Pages.Leave.{page_unfull-IsStore, page_unfull-pages, full_is_full}
use mimalloc_mc.Pages.Shrink.{IsRetired, page_retire-IsRetired}
use mimalloc_mc.Pages.Routes.{IsAccepted, free-free_generic}

true-false : true ≢ false
true-false e = cc

-- A block that a program held is on the local free list.
abbrev pub given_back : (block : ℕ) → Contents → Contents
given_back block k = record k { local = block ∷ k.local; live = erase block k.live }

-- The store after a free: a page with other blocks in use stays in its list, or moves from the queue of
-- full pages to the queue of its size; one without stays, or is handed over to the segments.
pub data IsFreed {S : Type 0} (seg : Segments S) (b to page : ℕ) (lists : Lists) (k : ℕ → Contents)
    : Store S → Type 0 where
  used_still :
      {st : Store S}
      → (page_field page st).used ≢ 0
      → b ≢ bin_full
      → IsStore seg st lists k
      → IsFreed seg b to page lists k st
  full_no_more :
      {st : Store S}
      → (page_field page st).used ≢ 0
      → b ≡ bin_full
      → IsStore seg st (moved_lists bin_full to page lists) k
      → IsFreed seg b to page lists k st
  idle :
      {st : Store S}
      → (k page).live ≡ []
      → IsRetired seg b page lists k st
      → IsFreed seg b to page lists k st

module _ {S : Type 0} (seg : Segments S) (st : Store S) (lists : Lists) (k : ℕ → Contents)
    (v : IsStore seg st lists k) (b page block : ℕ) (inside : 0 < count page (lists b))
    (held : 0 < count block (k page).live) where
  pushed-IsStore :
      IsStore seg (push_local seg page block st) lists (update k page (given_back block (k page)))
  unfolding free_local
  pushed-IsStore =
      set_page-IsStore v page (free_local block (st.pages page)) (given_back block (k page))
        (free_local-IsPage block (v.contents b page inside) held)
        (record { xblock_size = refl; reserved = refl })

  -- On a valid store, `_mi_free_block` by the page's own thread of a block that a program holds, in
  -- a page of a queue, puts the block on the local free list. If another block of the page is in use,
  -- the store is valid, with the page in the queue where it was or, from the queue of full pages, in
  -- that of its size; else the page stays too, or is handed over to the segments.
  pub free_block-IsFreed :
      IsFreed seg b
        (bin (st.heap.xblock_size page))
        page
        lists
        (update k page (given_back block (k page)))
        (free_block seg page true block st)
  unfolding free_block all_free
  free_block-IsFreed =
      let w = pushed-IsStore in
      let st' = push_local seg page block st in
      let some_used : all_free (page_field page st') ≡ false → (page_field page st').used ≢ 0 =
        λ e. ==→ne _ 0 e in
      elim (Bool-cases (all_free (page_field page st'))) [
        | inl none ↦
            let unused = ((all_free_iff (w.contents b page inside)).0 none).1 in
            rw none (idle unused (page_retire-IsRetired b page w inside unused))
        | inr busy ↦ elim (Bool-cases (st.heap.in_full page)) [
          | inl full ↦
              let at : b ≡ bin_full =
                is_full b (v.used b page inside).in_heap
                  (sym (v.heap.place b page inside).0 ∙ full) in
              rw (busy, full)
                (full_no_more
                  (λ z.
                    some_used busy
                      (ap (λ f. (f page).page.used) (sym (page_unfull-pages seg page st')) ∙ z))
                  at
                  (page_unfull-IsStore seg w page (subst (λ c. 0 < count page (lists c)) at inside)
                    (inside_not_null b page v inside)))
          | inr room ↦
              let regular : b ≢ bin_full = λ e. true-false (
                sym full_is_full
                ∙ ap queue_is_full (sym e)
                ∙ sym (v.heap.place b page inside).0
                ∙ room) in
              rw (busy, room) (used_still (some_used busy) regular w)
        ]
      ]

word_sub-add : (a b : ℕ) → a + b < word_mod → word_sub (a + b) a ≡ b
word_sub-add a b h = omega (arith, h)

mod_add : (i b r : ℕ) → r < b → (i * b + r) % b ≡ r
mod_add i b r h = mul-add-mod_self_right i b r ∙ mod-eq_of_lt h

module _ {S : Type 0} (seg : Segments S) (st : Store S) (page : ℕ) where
  -- For an address in a block of a page that lies in the address space, `_mi_page_ptr_unalign` gives
  -- the start of the block.
  pub ptr_unalign_lem :
      (i offset : ℕ)
      → offset < block_size_at seg page st
      → seg.area st.rest page + (i * block_size_at seg page st + offset) < word_mod
      → ptr_unalign seg page (seg.area st.rest page + (i * block_size_at seg page st + offset)) st
        ≡ seg.area st.rest page + i * block_size_at seg page st
  unfolding ptr_unalign
  ptr_unalign_lem i offset inside fits =
      rw
        (
          word_sub-add (seg.area st.rest page) _ fits,
          mod_add i (block_size_at seg page st) offset inside,
        )
        (omega (arith, fits))

module _ {S : Type 0} (seg : Segments S) (st : Store S) (lists : Lists) (k : ℕ → Contents)
    (v : IsStore seg st lists k) (b p : ℕ) where
  -- The block that a pointer is in.
  abbrev block_of : ℕ
  block_of =
      let page = seg.page_of st.rest p in
      if (page_field page st).has_aligned then ptr_unalign seg page p st else p

  -- On a valid store, `mi_free` by the page's own thread of a pointer that passes the checks, to a
  -- block that a program holds, at its start or, in a page with aligned allocations, inside of it, in a
  -- page of a queue, puts that block, and no other, on the local free list. If another block of the
  -- page counts as used, the store is valid, with the page in the queue where it was or, from the queue
  -- of full pages, in that of its size. Else the store is valid with the page where it was, or the page
  -- has left its queue and its heap and has gone to `_mi_segment_page_free`, with a store in which all
  -- other pages are valid; what that call does is not part of this statement.
  pub free-IsFreed :
      IsAccepted seg p st
      → seg.this_thread ≡ seg.thread_id st.rest (ptr_segment p)
      → let page = seg.page_of st.rest p in
        0 < count page (lists b)
        → 0 < count block_of (k page).live
        → IsFreed seg b
            (bin (st.heap.xblock_size page))
            page
            lists
            (update k page (given_back block_of (k page)))
            (free seg p st)
  unfolding free_generic
  free-IsFreed ok own inside held =
      rw (free-free_generic seg p st ok, eq→== _ _ own)
        (free_block-IsFreed seg st lists k v b (seg.page_of st.rest p) block_of inside held)
