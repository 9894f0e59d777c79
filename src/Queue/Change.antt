-- ===== src/Queue/Change.antt =====
-- The changes of the queues, as changes of the lists.
use mimalloc_mc.Prelude.{
  ℕ, ◌*◌, ◌≤◌, ◌<◌, ◌≡◌, ◌≢◌, refl, sym, ap, ◌∙◌, inl, inr, List, [], ◌∷◌, ◌++◌, Bool, true, false,
  arith, ◌==◌, if◌then◌else◌, update, Bool-cases, ==→ne, eq→==, ne→==, ==_iff,
}
use mimalloc_mc.Prelude.Chain.{count, erase, count-erase, count-append}
use mimalloc_mc.Size.Bin.{bin}
use mimalloc_mc.Links.{
  Links, Ends, IsQueue, IsOutside, IsQueue-outside, unlink, unlink_ends, push_front,
  push_front_ends, push_back, push_back_ends,
}
use mimalloc_mc.Links.Remove.{unlink-IsQueue, unlink-IsOutside}
use mimalloc_mc.Links.Insert.{
  push_front-IsQueue, push_front-IsOutside, push_back-IsQueue, push_back-IsOutside,
}
use mimalloc_mc.Queue.{Heap, first_page, queue_first_update}
use mimalloc_mc.Queue.Direct.{IsUsed, queue_first_update-direct}
use mimalloc_mc.Queue.Invariant.{Lists, IsQueues}

-- The heap with or without an update of its direct table.
abbrev pub updated : (t : Bool) (empty b : ℕ) → Heap → Heap
updated t empty b h = if t then queue_first_update empty b h else h

module _ (t : Bool) (empty b : ℕ) (h : Heap) where
  pub links_kept : (updated t empty b h).links ≡ h.links
  unfolding queue_first_update
  links_kept = ground arith

  pub queues_kept : (updated t empty b h).queues ≡ h.queues
  unfolding queue_first_update
  queues_kept = ground arith

  pub in_full_kept : (updated t empty b h).in_full ≡ h.in_full
  unfolding queue_first_update
  in_full_kept = ground arith

  pub xblock_size_kept : (updated t empty b h).xblock_size ≡ h.xblock_size
  unfolding queue_first_update
  xblock_size_kept = ground arith

  pub page_count_kept : (updated t empty b h).page_count ≡ h.page_count
  unfolding queue_first_update
  page_count_kept = ground arith

  -- The table is right again after the first page of one queue has changed, if it is updated or the
  -- first page is the one it was.
  direct_after :
      (old : Ends)
      → IsUsed b
      → ((w : ℕ) → w ≤ 128 → bin (w * 8) ≡ b → h.direct w ≡ first_page empty old)
      → ((w : ℕ)
          → w ≤ 128
          → bin (w * 8) ≢ b
          → h.direct w ≡ first_page empty (h.queues (bin (w * 8))))
      → (t ≡ false → old.first ≡ (h.queues b).first)
      → (w : ℕ) → w ≤ 128
      → (updated t empty b h).direct w ≡ first_page empty (h.queues (bin (w * 8)))
  direct_after old used same others kept w fits = elim (Bool-cases t) [
    | inl yes' ↦
        rw yes' (queue_first_update-direct empty b (first_page empty old) h used same others w fits)
    | inr no' ↦ rw no' (elim (Bool-cases (bin (w * 8) == b)) [
      | inl mine ↦
          let e : bin (w * 8) ≡ b = (==_iff _ _).0 mine in
          rw e (same w fits e ∙ ap (λ p. if p == 0 then empty else p) (kept no'))
      | inr theirs ↦ others w fits (==→ne _ _ theirs)
    ])
  ]

-- One queue changes, with all its list's nodes; the others and the table follow.
pub change-IsQueues :
    (t : Bool) (empty b : ℕ) (h : Heap) (lists : Lists) (l : Links) (e : Ends) (xs around : List ℕ)
    → IsQueues empty h lists
    → IsUsed b
    → IsQueue l e xs
    → IsOutside h.links l around
    → ((c a : ℕ) → b ≢ c → 0 < count a (lists c) → count a around ≡ 0)
    → ((a : ℕ) → 0 < count a xs → 0 < count a around)
    → (t ≡ false → (h.queues b).first ≡ e.first)
    → IsQueues empty
        (updated t empty b (record h { links = l; queues = update h.queues b e }))
        (update lists b xs)
change-IsQueues t empty b h lists l e xs around v used q o apart within kept =
    let h' = record h { links = l; queues = update h.queues b e } in
    record {
      queue = λ c.
          rw (links_kept t empty b h', queues_kept t empty b h')
            (elim (Bool-cases (b == c)) [
              | inl here ↦ rw here q
              | inr there ↦
                  rw there (IsQueue-outside o (λ a m. apart c a (==→ne b c there) m) (v.queue c))
            ]);
      apart = λ c d a ne m. apart_lists c d a ne m;
      direct = λ w fits. rw (queues_kept t empty b h') (
          direct_after t empty b h' (h.queues b) used
            (λ w' f e'. v.direct w' f ∙ ap (λ c. first_page empty (h.queues c)) e')
            (λ w' f ne. v.direct w' f ∙ rw (ne→== b (bin (w' * 8)) (λ z. ne (sym z))) refl)
            (λ no'. kept no' ∙ rw (eq→== b b refl) refl) w fits);
    }
  where
    apart_lists :
        (c d a : ℕ) → c ≢ d → 0 < count a (update lists b xs c) → count a (update lists b xs d) ≡ 0
    apart_lists c d a ne m = elim (Bool-cases (b == c)) [
      | inl here ↦
          let other : b ≢ d = λ z. ne (sym ((==_iff b c).0 here) ∙ z) in
          rw (ne→== b d other) (ground (arith, within a (rw here at m), apart d a other))
      | inr there ↦ elim (Bool-cases (b == d)) [
        | inl at_d ↦ rw at_d (ground (arith, within a, apart c a (==→ne b c there) (rw there at m)))
        | inr not_d ↦ rw not_d (v.apart c d a ne (rw there at m))
      ]
    ]

module _ {empty b : ℕ} {h : Heap} {lists : Lists} (page : ℕ) (v : IsQueues empty h lists)
    (used : IsUsed b) where
  -- A page leaves its queue.
  pub unlink-IsQueues :
      0 < count page (lists b)
      → IsQueues empty
          (updated (page == (h.queues b).first) empty b (record h {
            links = unlink page h.links;
            queues = update h.queues b (unlink_ends page h.links (h.queues b));
          }))
          (update lists b (erase page (lists b)))
  unlink-IsQueues inside =
      change-IsQueues (page == (h.queues b).first) empty b h lists _ _ (erase page (lists b))
        (lists b) v used (unlink-IsQueue page (v.queue b) inside)
        (unlink-IsOutside page (v.queue b) inside) (λ c a ne m. v.apart c b a (λ z. ne (sym z)) m)
        (λ a m. omega (arith, count-erase page a (lists b) inside)) (λ no'. rw no' refl)

  module _ (nz : page ≢ 0) (nowhere : (c : ℕ) → count page (lists c) ≡ 0) where
    -- A new page in front.
    pub push_front-IsQueues :
        IsQueues empty
          (updated true empty b (record h {
            links = push_front page h.links (h.queues b);
            queues = update h.queues b (push_front_ends page (h.queues b));
          }))
          (update lists b (page ∷ lists b))
    push_front-IsQueues =
        change-IsQueues true empty b h lists _ _ (page ∷ lists b) (page ∷ lists b) v used
          (push_front-IsQueue h.links (h.queues b) page nz (lists b) (v.queue b) (nowhere b))
          (push_front-IsOutside h.links (h.queues b) page nz (lists b) (v.queue b))
          (λ c a ne m. ground (arith, v.apart c b a (λ z. ne (sym z)) m, nowhere c)) (λ a m. m)
          (λ no'. cc)

    -- A new page behind.
    pub push_back-IsQueues :
        IsQueues empty
          (updated ((h.queues b).last == 0) empty b (record h {
            links = push_back page h.links (h.queues b);
            queues = update h.queues b (push_back_ends page (h.queues b));
          }))
          (update lists b (lists b ++ page ∷ []))
    push_back-IsQueues =
        change-IsQueues ((h.queues b).last == 0) empty b h lists _ _ (lists b ++ page ∷ [])
          (lists b ++ page ∷ []) v used
          (push_back-IsQueue h.links (h.queues b) page nz (lists b) (v.queue b) (nowhere b))
          (push_back-IsOutside h.links (h.queues b) page nz (lists b) (v.queue b))
          (λ c a ne m. ground (
            arith,
            v.apart c b a (λ z. ne (sym z)) m,
            nowhere c,
            count-append a (lists b) (page ∷ []),
          ))
          (λ a m. m) (λ no'. rw no' refl)
