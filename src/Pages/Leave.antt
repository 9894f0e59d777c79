-- ===== src/Pages/Leave.antt =====
-- Pages that leave their queue: `_mi_page_free`, `_mi_page_retire` and `_mi_page_unfull`.
use mimalloc_mc.Prelude.{
  ℕ, ◌<◌, ◌≡◌, ◌≢◌, refl, sym, ap, ◌∙◌, subst, inl, inr, Bool, Bool-cases, true, false, List, arith,
  ◌==◌, ==_iff, ne→==, eq→==, update,
}
use mathlib.Core.Path.{fun_ext}
use mimalloc_mc.Prelude.Chain.{count}
use mimalloc_mc.Size.{bin_full}
use mimalloc_mc.Size.Bin.{bin, bin_size}
use mimalloc_mc.Page.{State}
use mimalloc_mc.Page.Invariant.{IsPage}
use mimalloc_mc.Queue.{Heap, queue_remove, page_queue_of, queue_is_full, queue_enqueue_from}
use mimalloc_mc.Queue.Change.{xblock_size_kept}
use mimalloc_mc.Queue.Invariant.{Lists, IsHeap}
use mimalloc_mc.Queue.Operations.{gone, queue_remove-IsHeap, queue_enqueue_from-IsHeap}
use mimalloc_mc.Pages.{Store, Segments, set_field, set_heap, page_field}
use mimalloc_mc.Pages.Move.{page_free, page_unfull}
use mimalloc_mc.Pages.Invariant.{Contents, IsStore, set_page-IsStore, set_heap-IsStore}
use mimalloc_mc.Pages.Moved.{left_lists, moved_lists, count-left_lists, moved_from, moved-IsUsed}
use mimalloc_mc.Pages.Bins.{bin-IsUsed, full-IsUsed}

-- A page has left its queue and its heap, and the segments get it: what they make of it is a call of
-- `_mi_segment_page_free` on a store in which all other pages are as valid as before.
pub record IsHandedOver {S : Type 0} (seg : Segments S) (b page : ℕ) (force : Bool) (lists : Lists)
    (k : ℕ → Contents) (st : Store S) : Type 0 where
  pub before : Store S
  pub call : st ≡ seg.page_free page force before
  pub valid : IsStore seg before (left_lists b page lists) k
  pub alone : (c : ℕ) → count page (left_lists b page lists c) ≡ 0
  pub no_heap : (page_field page before).xheap ≡ 0

queue_remove-xblock_size :
    (empty b page : ℕ) (h : Heap) → (queue_remove empty b page h).xblock_size ≡ h.xblock_size
unfolding queue_remove
queue_remove-xblock_size empty b page h = xblock_size_kept _ empty b _

module _ {S : Type 0} (seg : Segments S) (b page : ℕ) where
  -- On a valid store, `_mi_page_free` takes the page out of the list of its queue, and hands it over.
  pub page_free-IsHandedOver :
      {st : Store S} {lists : Lists} {k : ℕ → Contents} (force : Bool)
      → IsStore seg st lists k
      → 0 < count page (lists b)
      → IsHandedOver seg b page force lists k (page_free seg page b force st)
  unfolding page_free
  page_free-IsHandedOver {st} {lists} {k} force v inside =
      let used = v.used b page inside in
      let other : (c a : ℕ) → 0 < count a (left_lists b page lists c) → page ≢ a = λ c a m e.
        omega (
          arith,
          gone b page v.heap used inside c,
          subst (λ x. 0 < count x (left_lists b page lists c)) (sym e) m,
        ) in
      let was : (c a : ℕ) → 0 < count a (left_lists b page lists c) → 0 < count a (lists c) =
        λ c a m. omega (arith, m, count-left_lists b page lists inside c a) in
      let freed = set_field page (record (page_field page st) { has_aligned = false }) st in
      let gone_from = set_heap (queue_remove seg.empty_page b page freed.heap) freed in
      record {
        before = set_field page (record (page_field page gone_from) { xheap = 0 }) gone_from;
        call = refl;
        alone = λ c. gone b page v.heap used inside c;
        no_heap = rw (page_field, eq→== page page refl) refl;
        valid = record {
          heap = queue_remove-IsHeap b page v.heap used inside;
          used = λ c a m. v.used c a (was c a m);
          contents = λ c a m. rw (ne→== page a (other c a m)) (v.contents c a (was c a m));
          sized = λ c a m.
              rw (page_field, ne→== page a (other c a m))
                (ap (λ f. f a) (queue_remove-xblock_size seg.empty_page b page st.heap)
                  ∙ v.sized c a (was c a m));
        };
      }

-- The flags of a page say nothing of its blocks.
flags-IsPage :
    {area bsize : ℕ} {s : State} {free local thread live : List ℕ} (has_aligned : Bool) (expire : ℕ)
    → IsPage area bsize s free local thread live
    → IsPage area bsize
        (record s { page = record (s.page) { has_aligned = has_aligned; retire_expire = expire } })
        free
        local
        thread
        live
flags-IsPage has_aligned expire v = record {
  free_chain = v.free_chain;
  local_chain = v.local_chain;
  thread_chain = v.thread_chain;
  tag_word = v.tag_word;
  parts = v.parts;
  in_use = v.in_use;
  total = v.total;
  within = v.within;
  small = v.small;
  area_ok = v.area_ok;
}

update_same : (f : ℕ → Contents) (page : ℕ) → update f page (f page) ≡ f
update_same f page = fun_ext (λ a. elim (Bool-cases (page == a)) [
  | inl here ↦ rw here (ap f ((==_iff page a).0 here))
  | inr there ↦ rw there refl
])

module _ {S : Type 0} (seg : Segments S) {st : Store S} {lists : Lists} {k : ℕ → Contents}
    (v : IsStore seg st lists k) (b page : ℕ) (inside : 0 < count page (lists b)) where
  -- Only the flags of a page have changed.
  pub flags-IsStore :
      (has_aligned : Bool) (expire : ℕ)
      → IsStore seg
          (set_field page
            (record (page_field page st) { has_aligned = has_aligned; retire_expire = expire })
            st)
          lists
          k
  flags-IsStore has_aligned expire = subst (IsStore seg _ lists) (update_same k page) (
      set_page-IsStore v page _ (k page)
        (flags-IsPage has_aligned expire (v.contents b page inside))
        (record { xblock_size = refl; reserved = refl }))

-- A move between queues changes no page.
pub page_unfull-pages :
    {S : Type 0} (seg : Segments S) (page : ℕ) (st : Store S)
    → (page_unfull seg page st).pages ≡ st.pages
unfolding page_unfull
page_unfull-pages seg page st = elim (Bool-cases (st.heap.in_full page)) [
  | inl full ↦ rw full refl
  | inr room ↦ rw room refl
]

pub full_is_full : queue_is_full bin_full ≡ true
unfolding queue_is_full bin_size
full_is_full = refl

regular_queue :
    (page : ℕ) (h : Heap)
    → page_queue_of page (record h { in_full = update h.in_full page false })
      ≡ bin (h.xblock_size page)
unfolding page_queue_of
regular_queue page h = rw (eq→== page page refl) refl

enqueue_from-xblock_size :
    (empty to b page : ℕ) (h : Heap)
    → (queue_enqueue_from empty to b page h).xblock_size ≡ h.xblock_size
unfolding queue_enqueue_from
enqueue_from-xblock_size empty to b page h =
    xblock_size_kept _ empty to _ ∙ xblock_size_kept _ empty b _

-- The flag is set again.
flagged : (f : ℕ → Bool) (page : ℕ) → f page ≡ true → update (update f page false) page true ≡ f
flagged f page e = fun_ext (λ a. elim (Bool-cases (page == a)) [
  | inl here ↦ rw here (sym e ∙ ap f ((==_iff page a).0 here))
  | inr there ↦ rw there refl
])

module _ {S : Type 0} (seg : Segments S) {st : Store S} {lists : Lists} {k : ℕ → Contents}
    (v : IsStore seg st lists k) (page : ℕ) (inside : 0 < count page (lists bin_full)) where
  is_flagged : st.heap.in_full page ≡ true
  is_flagged = (v.heap.place bin_full page inside).0 ∙ full_is_full

  -- On a valid store, `_mi_page_unfull` moves a page of the queue of full pages to the end of the
  -- queue of its size.
  pub page_unfull-IsStore :
      page ≢ 0
      → IsStore seg
          (page_unfull seg page st)
          (moved_lists bin_full (bin (st.heap.xblock_size page)) page lists)
          k
  unfolding page_unfull
  page_unfull-IsStore nz =
      let to = bin (st.heap.xblock_size page) in
      let (used_to, ne) = bin-IsUsed (st.heap.xblock_size page) in
      let same = flagged st.heap.in_full page is_flagged in
      let h = record (st.heap) { in_full = update (update st.heap.in_full page false) page true } in
      let valid : IsHeap seg.empty_page h lists =
        subst (λ f. IsHeap seg.empty_page (record (st.heap) { in_full = f }) lists) (sym same)
          v.heap in
      rw (is_flagged, regular_queue page st.heap)
        (set_heap-IsStore v (queue_enqueue_from seg.empty_page to bin_full page h)
          (moved_lists bin_full to page lists)
          (queue_enqueue_from-IsHeap bin_full page valid full-IsUsed to used_to (λ z. ne (sym z))
            inside nz (λ z. refl))
          (enqueue_from-xblock_size seg.empty_page to bin_full page h)
          (moved-IsUsed bin_full page lists inside v.used to used_to)
          (λ c a. moved_from bin_full page lists inside to c a))
