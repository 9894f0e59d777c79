-- ===== src/Pages/Shrink.antt =====
-- What retiring pages, and collecting the retired ones, leaves of a heap.
use mimalloc_mc.Prelude.{
  ℕ, ◌+◌, ◌≤◌, ◌<◌, ◌≡◌, ◌≢◌, ◌⊎◌, inl, inr, Bool, Bool-cases, true, false, [],
}
use mimalloc_mc.Prelude.Chain.{count}
use mimalloc_mc.Queue.Operations.{page_queue_of_lem}
use mimalloc_mc.Queue.Invariant.{Lists}
use mimalloc_mc.Pages.{Store, Segments, page_field, set_field}
use mimalloc_mc.Pages.Move.{page_retire, is_only}
use mimalloc_mc.Links.{Links}
use mimalloc_mc.Pages.Retired.{Sweep}
use mimalloc_mc.Pages.Invariant.{Contents, IsStore}
use mimalloc_mc.Pages.Leave.{IsHandedOver, flags-IsStore, page_free-IsHandedOver}

-- The store after a page without a block in use may have gone: it is still in its list, or has been
-- handed over to the segments.
pub data IsRetired {S : Type 0} (seg : Segments S) (b page : ℕ) (lists : Lists) (k : ℕ → Contents)
    : Store S → Type 0 where
  stays : {st : Store S} → IsStore seg st lists k → IsRetired seg b page lists k st
  leaves :
      {st : Store S} (force : Bool)
      → (k page).live ≡ []
      → IsHandedOver seg b page force lists k st
      → IsRetired seg b page lists k st

-- What a sweep makes of one bin: it has no page or the first page is not retired; that page is in use
-- again; it is left for some more sweeps, and its bin is one to look at; or it is handed over.
pub data IsSwept {S : Type 0} (seg : Segments S) (force : Bool) (b : ℕ) (lists : Lists)
    (k : ℕ → Contents) (w : Sweep S) : Sweep S → Type 0 where
  nothing :
      ((lists b) ≡ []) ⊎ ((page_field (w.store.heap.queues b).first w.store).retire_expire ≡ 0)
      → IsSwept seg force b lists k w w
  in_use :
      {w' : Sweep S}
      → (page_field (w.store.heap.queues b).first w.store).used ≢ 0
      → IsStore seg w'.store lists k
      → (page_field (w.store.heap.queues b).first w'.store).retire_expire ≡ 0
      → w'.min ≡ w.min
      → w'.max ≡ w.max
      → IsSwept seg force b lists k w w'
  waits :
      {w' : Sweep S}
      → force ≡ false
      → IsStore seg w'.store lists k
      → (page_field (w.store.heap.queues b).first w'.store).retire_expire + 1
        ≡ (page_field (w.store.heap.queues b).first w.store).retire_expire
      → 0 < (page_field (w.store.heap.queues b).first w'.store).retire_expire
      → (w'.min ≤ b) × (w'.min ≤ w.min) × (b ≤ w'.max) × (w.max ≤ w'.max)
      → IsSwept seg force b lists k w w'
  goes :
      {w' : Sweep S}
      → (force ≡ true) ⊎ ((page_field (w.store.heap.queues b).first w.store).retire_expire ≡ 1)
      → (k (w.store.heap.queues b).first).live ≡ []
      → IsHandedOver seg b (w.store.heap.queues b).first force lists k w'.store
      → w'.min ≡ w.min
      → w'.max ≡ w.max
      → IsSwept seg force b lists k w w'

module _ {S : Type 0} {seg : Segments S} {k : ℕ → Contents} where
  -- The bins of retired pages say nothing of the lists.
  retired-IsStore :
      {st : Store S} {lists : Lists} (min max : ℕ)
      → IsStore seg st lists k
      → IsStore seg (record st { page_retired_min = min; page_retired_max = max }) lists k
  retired-IsStore min max v = record {
    heap = v.heap;
    used = v.used;
    contents = v.contents;
    sized = v.sized;
  }

  -- On a valid store, `_mi_page_retire` on a page of a queue without a block in use leaves a valid
  -- store, or hands the page over to the segments.
  pub page_retire-IsRetired :
      (b page : ℕ) {st : Store S} {lists : Lists}
      → IsStore seg st lists k
      → 0 < count page (lists b)
      → (k page).live ≡ []
      → IsRetired seg b page lists k (page_retire seg page st)
  unfolding page_retire
  page_retire-IsRetired b page {st} {lists} v inside idle =
      let used = v.used b page inside in
      let plain = flags-IsStore seg v b page inside false (page_field page st).retire_expire in
      let st' = set_field page (record (page_field page st) { has_aligned = false }) st in
      rw (page_queue_of_lem b page v.heap used.in_heap inside)
        (elim (Bool-cases (is_only seg page b st')) [
          | inl only ↦
              rw only (stays (retired-IsStore _ _ (flags-IsStore seg plain b page inside _ _)))
          | inr more ↦
              rw more (leaves false idle (page_free-IsHandedOver seg b page false plain inside))
        ])
