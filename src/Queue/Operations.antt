-- ===== src/Queue/Operations.antt =====
-- `mi_page_queue_remove`, `mi_page_queue_push`, `mi_page_queue_enqueue_from` and
-- `mi_page_queue_of` on the lists of a heap.
use mimalloc_mc.Prelude.{
  ℕ, suc, ◌+◌, ◌≤◌, ◌<◌, ◌≡◌, ◌≢◌, refl, sym, ap, subst, ◌∙◌, inl, inr, List, [], ◌∷◌, ◌++◌, true,
  false, not, ◌||◌, arith, ◌==◌, update, all_below, all_below_sound, Bool-cases, ==→ne, ne→==,
  ==_iff,
}
use mimalloc_mc.Prelude.Lists.{length, length-append}
use mimalloc_mc.Prelude.Chain.{count, erase, count-erase, count-append, length-erase}
use mimalloc_mc.Size.{word_mod, bin_full}
use mimalloc_mc.Size.Bin.{bin, bin_size}
use mimalloc_mc.Delayed.Family.{total, total-update}
use mimalloc_mc.Links.{IsQueue-outside, push_front, push_front_ends}
use mimalloc_mc.Queue.{
  Heap, queue_is_full, page_queue_of, queue_remove, queue_push, queue_enqueue_from,
}
use mimalloc_mc.Queue.Direct.{IsUsed}
use mimalloc_mc.Queue.Invariant.{Lists, HasPlace, IsQueues, IsHeap}
use mimalloc_mc.Queue.Change.{
  in_full_kept, xblock_size_kept, page_count_kept, unlink-IsQueues, push_front-IsQueues,
  push_back-IsQueues,
}

pub full_table : all_below 75 (λ b. not (queue_is_full b) || b == bin_full) ≡ true
unfolding all_below queue_is_full bin_size
full_table = refl

not_full : (b : ℕ) → b ≤ bin_full → queue_is_full b ≡ false → b ≢ bin_full
unfolding queue_is_full bin_size
not_full b h e z = cc (rw z at e)

pub is_full : (b : ℕ) → b ≤ bin_full → queue_is_full b ≡ true → b ≡ bin_full
is_full b h e = ground (
  arith,
  all_below_sound 75 (λ b. not (queue_is_full b) || b == bin_full) b full_table (omega arith),
)

-- `mi_page_queue_of` finds the queue that a page of a valid heap is in.
pub page_queue_of_lem :
    {empty : ℕ} {h : Heap} {lists : Lists} (b page : ℕ)
    → IsHeap empty h lists
    → b ≤ bin_full
    → 0 < count page (lists b)
    → page_queue_of page h ≡ b
unfolding page_queue_of
page_queue_of_lem {h} b page v le inside =
    let (flag, size) = v.place b page inside in
    elim (Bool-cases (queue_is_full b)) [
      | inl full ↦ rw (flag, full) (sym (is_full b le full))
      | inr regular ↦ rw (flag, regular) (size (not_full b le regular))
    ]

appended : (page a : ℕ) (xs : List ℕ) → 0 < count a (xs ++ page ∷ []) → page ≢ a → 0 < count a xs
appended page a xs m ne = ground (arith, count-append a xs (page ∷ []))

-- The places after a page has joined the list of a queue.
placed :
    (h h' : Heap) (rest : Lists) (to page : ℕ) (ys : List ℕ)
    → ((c a : ℕ) → 0 < count a (rest c) → HasPlace h c a)
    → ((c : ℕ) → count page (rest c) ≡ 0)
    → (to ≢ bin_full → bin (h.xblock_size page) ≡ to)
    → ((a : ℕ) → 0 < count a ys → page ≢ a → 0 < count a (rest to))
    → h'.in_full ≡ update h.in_full page (queue_is_full to)
    → h'.xblock_size ≡ h.xblock_size
    → (c a : ℕ) → 0 < count a (update rest to ys c)
    → HasPlace h' c a
placed h h' rest to page ys old nowhere right only flags sizes c a m =
    rw (flags, sizes)
      (elim (Bool-cases (page == a)) [
        | inl new ↦
            let e : page ≡ a = (==_iff page a).0 new in
            let here : to ≡ c = elim (Bool-cases (to == c)) [
              | inl at ↦ (==_iff to c).0 at
              | inr off ↦
                  absurd
                    (let m' = rw off at m in omega (arith, nowhere c, ap (λ x. count x (rest c)) e))
            ] in
            rw new (rw (← here, ← e) (refl, right))
        | inr other ↦ rw other (
            old c a (elim (Bool-cases (to == c)) [
              | inl at ↦
                  let e : to ≡ c = (==_iff to c).0 at in
                  rw (← e) (only a (rw at at m) (==→ne page a other))
              | inr off ↦ rw off at m
            ]))
      ])

module _ {empty : ℕ} {h : Heap} {lists : Lists} (b page : ℕ) (v : IsHeap empty h lists)
    (used : IsUsed b) where
  -- A page that has left its queue is in none.
  pub gone :
      0 < count page (lists b) → (c : ℕ) → count page (update lists b (erase page (lists b)) c) ≡ 0
  gone inside c = elim (Bool-cases (b == c)) [
    | inl here ↦
        rw here
          (ground (arith, count-erase page page (lists b) inside, (v.queues.queue b).once page))
    | inr there ↦ rw there (v.queues.apart b c page (==→ne b c there) inside)
  ]

  was_there :
      0 < count page (lists b)
      → (c a : ℕ) → 0 < count a (update lists b (erase page (lists b)) c)
      → 0 < count a (lists c)
  was_there inside c a m = elim (Bool-cases (b == c)) [
    | inl here ↦
        let e : b ≡ c = (==_iff b c).0 here in
        omega
          (arith, count-erase page a (lists b) inside, rw here at m, ap (λ x. count a (lists x)) e)
    | inr there ↦ rw there at m
  ]

  one_less :
      0 < count page (lists b)
      → suc (total length 75 (update lists b (erase page (lists b)))) ≡ total length 75 lists
  one_less inside = omega (
    arith,
    total-update length 75 lists b (erase page (lists b)) (omega (arith, used.in_heap)),
    length-erase page (lists b) inside,
  )

  -- On a valid heap, `mi_page_queue_remove` takes a page out of the list of its queue; the other
  -- pages stay where they are, the direct table follows, and the page count goes down by one.
  pub queue_remove-IsHeap :
      0 < count page (lists b)
      → IsHeap empty (queue_remove empty b page h) (update lists b (erase page (lists b)))
  unfolding queue_remove
  queue_remove-IsHeap inside =
      let u = unlink-IsQueues page v.queues used inside in
      let less = one_less inside in
      record {
        queues = record {
          queue = λ c.
              IsQueue-outside {xs = page ∷ []}
                (record {
                  next = λ a out. ground (arith, out);
                  prev = λ a out. ground (arith, out);
                })
                (λ a m. ground (arith, gone inside c, m)) (u.queue c);
          apart = u.apart;
          direct = u.direct;
        };
        place = λ c a m.
            let old = v.place c a (was_there inside c a m) in
            let other : page ≢ a = λ z. ground (arith, gone inside c, m, z) in
            (rw (ne→== page a other) old.0, rw xblock_size_kept old.1);
        counted = omega (arith, v.counted, v.fits, less);
        fits = omega arith;
      }

  -- On a valid heap, `mi_page_queue_push` puts a page that is in no queue in front of the list of a
  -- queue that its size or fullness asks for; the direct table follows, and the page count goes up
  -- by one.
  pub queue_push-IsHeap :
      page ≢ 0
      → ((c : ℕ) → count page (lists c) ≡ 0)
      → (b ≢ bin_full → bin (h.xblock_size page) ≡ b)
      → h.page_count + 1 < word_mod
      → IsHeap empty (queue_push empty b page h) (update lists b (page ∷ lists b))
  unfolding queue_push
  queue_push-IsHeap nz nowhere right room =
      let flagged : IsQueues empty (record h { in_full = update h.in_full page (queue_is_full b) })
          lists =
        record { queue = v.queues.queue; apart = v.queues.apart; direct = v.queues.direct } in
      let u = push_front-IsQueues page flagged used nz nowhere in
      let after = record h {
        in_full = update h.in_full page (queue_is_full b);
        links = push_front page h.links (h.queues b);
        queues = update h.queues b (push_front_ends page (h.queues b));
      } in
      record {
        queues = record { queue = u.queue; apart = u.apart; direct = u.direct };
        place =
            placed h (queue_push empty b page h) lists b page (page ∷ lists b) v.place nowhere right
              (λ a m ne. ground arith) (in_full_kept true empty b after)
              (xblock_size_kept true empty b after);
        counted = omega (
          arith,
          v.counted,
          room,
          total-update length 75 lists b (page ∷ lists b) (omega (arith, used.in_heap)),
        );
        fits = omega arith;
      }

  -- On a valid heap, `mi_page_queue_enqueue_from` moves a page from the list of its queue to the end
  -- of another that its size or fullness asks for; the direct table follows.
  pub queue_enqueue_from-IsHeap :
      (to : ℕ)
      → IsUsed to
      → b ≢ to
      → 0 < count page (lists b)
      → page ≢ 0
      → (to ≢ bin_full → bin (h.xblock_size page) ≡ to)
      → IsHeap empty (queue_enqueue_from empty to b page h) (
          let rest = update lists b (erase page (lists b)) in
          update rest to (lists to ++ page ∷ []))
  unfolding queue_enqueue_from
  queue_enqueue_from-IsHeap to used_to ne inside nz right =
      let rest = update lists b (erase page (lists b)) in
      let u = unlink-IsQueues page v.queues used inside in
      let same : rest to ≡ lists to = rw (ne→== b to ne) refl in
      let w = push_back-IsQueues page u used_to nz (gone inside) in
      let less = one_less inside in
      let moved : h.page_count ≡ total length 75 (update rest to (lists to ++ page ∷ [])) = omega (
        arith,
        v.counted,
        less,
        total-update length 75 rest to (lists to ++ page ∷ []) (omega (arith, used_to.in_heap)),
        ap length same,
        length-append (lists to) (page ∷ []),
      ) in
      record {
        queues =
            subst
              (λ ys.
                IsQueues empty (queue_enqueue_from empty to b page h)
                  (update rest to (ys ++ page ∷ [])))
              same (record { queue = w.queue; apart = w.apart; direct = w.direct });
        place =
            placed h (queue_enqueue_from empty to b page h) rest to page (lists to ++ page ∷ [])
              (λ c a m. v.place c a (was_there inside c a m)) (gone inside) right
              (λ a m ne'. rw same (appended page a (lists to) m ne')) refl
              (xblock_size_kept _ empty to _ ∙ xblock_size_kept _ empty b _);
        counted = page_count_kept _ empty to _ ∙ page_count_kept _ empty b _ ∙ moved;
        fits =
            subst (λ k. k < word_mod)
              (sym (page_count_kept _ empty to _ ∙ page_count_kept _ empty b _)) v.fits;
      }
