-- ===== src/Pages/Append.antt =====
-- `_mi_page_queue_append` of mimalloc-custom/page-queue.c: the pages of a queue of another heap come
-- to the heap.
use mimalloc_mc.Prelude.{
  ℕ, zero, suc, ◌≤◌, ◌<◌, ◌≡◌, ◌≢◌, refl, sym, ap, ◌∙◌, subst, inl, inr, Bool-cases, false, List,
  [], ◌∷◌, ◌++◌, Option, none, some, arith, ◌==◌, ==_iff, if◌then◌else◌, eq→==, ne→==, update,
}
use mimalloc_mc.Prelude.Lists.{length}
use mimalloc_mc.Prelude.Chain.{count}
use mimalloc_mc.Prelude.Partial.{◌>>=◌}
use mimalloc_mc.ThreadFree.{
  use_delayed_free, delayed_freeing, never_delayed_free, tf_delayed, tf_set_delayed,
}
use mimalloc_mc.Delayed.{same_delayed, use_delayed_round}
use mimalloc_mc.Links.{Ends, Linked, IsQueue}
use mimalloc_mc.Page.{Page}
use mimalloc_mc.Queue.{queue_join}
use mimalloc_mc.Queue.Direct.{IsUsed}
use mimalloc_mc.Queue.Invariant.{Lists, IsQueues}
use mimalloc_mc.Queue.Append.{queue_join-IsQueues}
use mimalloc_mc.Pages.Picked.{set_page_field}
use mimalloc_mc.Pages.{Store, Segments, set_heap, set_field, page_field}

-- How many pages have come, with the store.
pub record Adopted (S : Type 0) : Type 0 where
  pub number : ℕ
  pub store : Store S

module _ {S : Type 0} (seg : Segments S) where
  -- The loop that gives the pages to the heap; `none` when the fuel runs out, and when a thread is
  -- about to push on the delayed list of a page, which the code waits for.
  unfoldable pub adopt_pages : (fuel page : ℕ) → Store S → Option (Adopted S)
  adopt_pages zero page st = none
  adopt_pages (suc fuel) page st =
      let p = page_field page st in
      let next = st.heap.links.next page in
      if page == 0 then some (record { number = 0; store = st }) else do
        w ← use_delayed_round use_delayed_free false p.xthread_free
        r ←
            adopt_pages fuel next
              (set_field page (record p { xheap = seg.heap_address; xthread_free = w }) st)
        some (record { number = suc r.number; store = r.store })

  unfoldable pub queue_append : (fuel b : ℕ) → (append : Ends) → Store S → Option (Adopted S)
  queue_append fuel b append st =
      if append.first == 0 then some (record { number = 0; store = st }) else do
        r ← adopt_pages fuel append.first st
        some (record {
          number = r.number;
          store = set_heap (queue_join seg.empty_page b append r.store.heap) r.store;
        })

round_done :
    (tfree : ℕ)
    → same_delayed (tf_delayed tfree) delayed_freeing ≡ false
    → (w : ℕ) × (use_delayed_round use_delayed_free false tfree ≡ some w)
unfolding use_delayed_round
round_done tfree h = rw h (elim (Bool-cases (same_delayed use_delayed_free (tf_delayed tfree))) [
  | inl same ↦ rw same (tfree, refl)
  | inr other ↦ rw other (elim (Bool-cases (same_delayed (tf_delayed tfree) never_delayed_free)) [
    | inl never ↦ rw never (tfree, refl)
    | inr some' ↦ rw some' (tf_set_delayed tfree use_delayed_free, refl)
  ])
])

count_rest : (y a : ℕ) (ys : List ℕ) → (y == a) ≡ false → 0 < count a (y ∷ ys) → 0 < count a ys
count_rest y a ys other m = ground (arith, m)

-- The store after the loop over a list of pages.
pub record IsAdopted {S : Type 0} (seg : Segments S) (st : Store S) (ys : List ℕ) (r : Adopted S)
    : Type 0 where
  pub number : r.number ≡ length ys
  pub heap : r.store.heap ≡ st.heap
  pub owner : (a : ℕ) → 0 < count a ys → (page_field a r.store).xheap ≡ seg.heap_address
  pub others : (a : ℕ) → count a ys ≡ 0 → r.store.pages a ≡ st.pages a

module _ {S : Type 0} (seg : Segments S) where
  adopted_more :
      {st : Store S} {r : Adopted S} (y : ℕ) (ys : List ℕ) (p : Page)
      → p.xheap ≡ seg.heap_address
      → count y ys ≡ 0
      → IsAdopted seg (set_field y p st) ys r
      → IsAdopted seg st (y ∷ ys) (record { number = suc r.number; store = r.store })
  adopted_more {st} {r} y ys p own once i = record {
    number = ap suc i.number;
    heap = i.heap;
    owner = λ a m. elim (Bool-cases (y == a)) [
      | inl same ↦
          subst (λ x. (page_field x r.store).xheap ≡ seg.heap_address) ((==_iff y a).0 same)
            (ap (λ s. s.page.xheap) (i.others y once)
              ∙ ap (λ q. q.xheap) (set_page_field st y (record (st.pages y) { page = p }))
              ∙ own)
      | inr other ↦ i.owner a (count_rest y a ys other m)
    ];
    others = λ a out.
        i.others a (ground (arith, out)) ∙ rw (ne→== y a (λ e. ground (arith, e, out))) refl;
  }

  -- No thread is about to push on the delayed list of a page of the list.
  abbrev pub Settled : Store S → List ℕ → Type 0
  Settled st ys =
      (a : ℕ)
      → 0 < count a ys
      → same_delayed (tf_delayed (page_field a st).xthread_free) delayed_freeing ≡ false

  still-Settled :
      (st : Store S) (y : ℕ) (ys : List ℕ) (p : Page)
      → count y ys ≡ 0
      → Settled st (y ∷ ys)
      → Settled (set_field y p st) ys
  still-Settled st y ys p once settled a m =
      let ne : y ≢ a = λ e. omega (arith, once, subst (λ x. 0 < count x ys) (sym e) m) in
      rw (page_field, ne→== y a ne) (settled a (ground (arith, m)))

  adopt_pages-IsAdopted :
      (fuel before page : ℕ) (ys : List ℕ) (st : Store S)
      → Linked st.heap.links before page ys
      → ((a : ℕ) → count a ys ≤ 1)
      → Settled st ys
      → length ys < fuel
      → (r : Adopted S) × (adopt_pages seg fuel page st ≡ some r) × IsAdopted seg st ys r
  unfolding adopt_pages
  adopt_pages-IsAdopted zero before page ys st c once settled few = absurd (omega arith)
  adopt_pages-IsAdopted (suc fuel) before page [] st c once settled few = (
    record { number = 0; store = st },
    rw (eq→== page 0 c) refl,
    record {
      number = refl;
      heap = refl;
      owner = λ a m. absurd (omega (arith, m));
      others = λ a out. refl;
    },
  )
  adopt_pages-IsAdopted (suc fuel) before page (y ∷ ys) st c once settled few =
      let p = page_field y st in
      let (w, round) = round_done p.xthread_free (settled y (ground arith)) in
      let p' = record p { xheap = seg.heap_address; xthread_free = w } in
      let alone : count y ys ≡ 0 = ground (arith, once y) in
      let (r, result, i) =
        adopt_pages-IsAdopted fuel y (st.heap.links.next y) ys (set_field y p' st) c.3
          (λ a. ground (arith, once a)) (still-Settled st y ys p' alone settled)
          (omega (arith, few)) in
      (
        record { number = suc r.number; store = r.store },
        subst
            (λ q.
              adopt_pages seg (suc fuel) q st
              ≡ some (record { number = suc r.number; store = r.store }))
            (sym c.0) (rw (ne→== y 0 c.1, round, result) refl),
        adopted_more y ys p' refl alone i,
      )

  -- When no thread is about to push on the delayed list of one of the pages, with more fuel than there
  -- are pages, `_mi_page_queue_append` of a queue with a page, of another heap, returns the number of
  -- its pages. They belong to the heap, in their order behind the pages of its queue, and the direct
  -- table follows.
  pub queue_append-IsQueues :
      (fuel b : ℕ) (append : Ends) (z : ℕ) (zs : List ℕ) (st : Store S) (lists : Lists)
      → IsQueues seg.empty_page st.heap lists
      → IsUsed b
      → IsQueue st.heap.links append (z ∷ zs)
      → ((c a : ℕ) → 0 < count a (z ∷ zs) → count a (lists c) ≡ 0)
      → Settled st (z ∷ zs)
      → length (z ∷ zs) < fuel
      → (r : Adopted S) × (queue_append seg fuel b append st ≡ some r)
        × (r.number ≡ length (z ∷ zs))
        × IsQueues seg.empty_page r.store.heap (update lists b (lists b ++ z ∷ zs))
        × ((a : ℕ) → 0 < count a (z ∷ zs) → (page_field a r.store).xheap ≡ seg.heap_address)
  unfolding queue_append
  queue_append-IsQueues fuel b append z zs st lists v used q nowhere settled few =
      let (r, result, i) =
        adopt_pages-IsAdopted fuel 0 append.first (z ∷ zs) st q.linked q.once settled few in
      let ne : append.first ≢ 0 = λ e. q.linked.1 (sym q.linked.0 ∙ e) in
      (
        record {
          number = r.number;
          store = set_heap (queue_join seg.empty_page b append r.store.heap) r.store;
        },
        rw (ne→== append.first 0 ne, result) refl,
        i.number,
        subst
            (λ h.
              IsQueues seg.empty_page (queue_join seg.empty_page b append h)
                (update lists b (lists b ++ z ∷ zs)))
            (sym i.heap) (queue_join-IsQueues b append z zs v used q nowhere),
        i.owner,
      )
