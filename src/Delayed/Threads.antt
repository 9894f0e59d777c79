-- ===== src/Delayed/Threads.antt =====
-- The steps of a thread in `_mi_free_block_mt` that publish nothing, against the invariant.
use mimalloc_mc.Prelude.{
  ℕ, ◌+◌, ◌≤◌, ◌<◌, ◌≡◌, ◌≢◌, ap, ◌∙◌, inl, inr, List, [], ◌∷◌, true, false, arith, update, leb,
  leb→le, Bool-cases, ne→==,
}
use mimalloc_mc.Prelude.Lists.{length}
use mimalloc_mc.Prelude.Chain.{Chain, Chain-update, count, erase, count-erase}
use mimalloc_mc.ThreadFree.{tf_block}
use mimalloc_mc.ThreadFree.Tags.{IsBlockPointer}
use mimalloc_mc.Delayed.{Pc, idle, entered, Shared}
use mimalloc_mc.Delayed.Family.{total, total-update, two-le-total, le-total}
use mimalloc_mc.Delayed.Invariant.{
  Inv, IsBlocks, IsReady, IsReady-update, all_updated, hand, owner_hand, critical, has_queued,
}

module _ {n : ℕ} {all : ℕ → ℕ} {s : Shared} {pc : ℕ → Pc} {thread delayed pending : List ℕ}
    (ok : IsBlocks all) (v : Inv n all s pc thread delayed pending) where
  pub parts_le :
      (a : ℕ)
      → count a thread
          + count a delayed
          + count a pending
          + count a s.own
          + count a s.live
          + owner_hand a s.owner
          + total (hand a) n pc
        ≤ 1
  parts_le a = omega (arith, v.parts a, ok.once a)

  -- The head of the thread list is null or a block.
  pub head-pointer : IsBlockPointer (tf_block s.xthread_free)
  head-pointer = go thread v.thread_chain (λ a h. omega (arith, v.parts a))
    where
      go :
          (xs : List ℕ)
          → Chain s.mem (tf_block s.xthread_free) xs
          → ((a : ℕ) → 0 < count a xs → 0 < all a)
          → IsBlockPointer (tf_block s.xthread_free)
      go [] c h = rw c (omega arith)
      go (x ∷ xs) c h = rw c.0 ((ok.pointer x (h x (ground arith))).0)

module _ {n : ℕ} {all : ℕ → ℕ} {s : Shared} {pc : ℕ → Pc} {thread delayed pending : List ℕ}
    (ok : IsBlocks all) (v : Inv n all s pc thread delayed pending) (i : ℕ) (lt : i < n) where
  pub quiet_updated : (p : Pc) (j : ℕ) → n ≤ j → update pc i p j ≡ idle
  quiet_updated p j h = rw (ne→== i j (λ e. omega (arith, e))) (v.quiet j h)

  -- A block that this thread has in hand is in no list, and in no other hand.
  pub held_alone :
      (q : Pc) (b : ℕ)
      → pc i ≡ q
      → hand b q ≡ 1
      → (count b thread ≡ 0)
        × (count b delayed ≡ 0)
        × (count b pending ≡ 0)
        × ((j : ℕ) → i ≢ j → hand b (pc j) ≡ 0)
  held_alone q b e h =
      let mine : hand b (pc i) ≡ 1 = ap (hand b) e ∙ h in
      let one = le-total (hand b) n pc i lt in
      let bound = parts_le ok v b in
      (
        omega arith,
        omega arith,
        omega arith,
        λ j ne. elim (Bool-cases (leb n j)) [
          | inl out ↦ ap (hand b) (v.quiet j (leb→le n j out))
          | inr inside ↦
              let two = two-le-total (hand b) n pc i j lt (ground arith) ne in
              omega (arith, two, bound)
        ],
      )

  -- A step that changes only the thread's own variables.
  pub local-Inv :
      (q p : Pc)
      → pc i ≡ q
      → ((a : ℕ) → hand a p ≡ hand a q)
      → critical p ≡ critical q
      → IsReady s.mem p
      → (has_queued p ≡ true → 0 < length delayed + length pending)
      → Inv n all s (update pc i p) thread delayed pending
  local-Inv q p e same_hand same_critical now_ready now_queued = record {
    thread_chain = v.thread_chain;
    delayed_chain = v.delayed_chain;
    pending_chain = v.pending_chain;
    tag_word = v.tag_word;
    parts = λ a.
        omega (arith, v.parts a, total-update (hand a) n pc i p lt, same_hand a, ap (hand a) e);
    one_critical =
        omega
          (arith, v.one_critical, total-update critical n pc i p lt, same_critical, ap critical e);
    ready = all_updated (IsReady s.mem) pc i p now_ready (λ j _. v.ready j);
    queued =
        all_updated (λ r. has_queued r ≡ true → 0 < length delayed + length pending) pc i p
          now_queued (λ j _. v.queued j);
    served = v.served;
    owned = v.owned;
    quiet = quiet_updated p;
  }

  -- A step that also stores to the block in hand.
  pub store-Inv :
      (q p : Pc) (b x : ℕ)
      → pc i ≡ q
      → hand b q ≡ 1
      → ((a : ℕ) → hand a p ≡ hand a q)
      → critical p ≡ critical q
      → IsReady (update s.mem b x) p
      → has_queued p ≡ false
      → Inv n all (record s { mem = update s.mem b x }) (update pc i p) thread delayed pending
  store-Inv q p b x e mine same_hand same_critical now_ready not_queued =
      let (out_thread, out_delayed, out_pending, out_hands) = held_alone q b e mine in
      record {
        thread_chain = Chain-update s.mem b x _ thread out_thread v.thread_chain;
        delayed_chain = Chain-update s.mem b x _ delayed out_delayed v.delayed_chain;
        pending_chain = Chain-update s.mem b x _ pending out_pending v.pending_chain;
        tag_word = v.tag_word;
        parts = λ a.
            omega (arith, v.parts a, total-update (hand a) n pc i p lt, same_hand a, ap (hand a) e);
        one_critical = omega (
          arith,
          v.one_critical,
          total-update critical n pc i p lt,
          same_critical,
          ap critical e,
        );
        ready =
            all_updated (IsReady (update s.mem b x)) pc i p now_ready
              (λ j ne. IsReady-update s.mem b x (pc j) (out_hands j ne) (v.ready j));
        queued =
            all_updated (λ r. has_queued r ≡ true → 0 < length delayed + length pending) pc i p
              (λ h. cc) (λ j _. v.queued j);
        served = v.served;
        owned = v.owned;
        quiet = quiet_updated p;
      }

  pub enter-Inv :
      (b : ℕ)
      → pc i ≡ idle
      → 0 < count b s.live
      → Inv n all
          (record s { live = erase b s.live })
          (update pc i (entered b))
          thread
          delayed
          pending
  enter-Inv b e held = record {
    thread_chain = v.thread_chain;
    delayed_chain = v.delayed_chain;
    pending_chain = v.pending_chain;
    tag_word = v.tag_word;
    parts = λ a. ground (
      arith,
      v.parts a,
      total-update (hand a) n pc i (entered b) lt,
      ap (hand a) e,
      count-erase b a s.live held,
    );
    one_critical =
        omega (arith, v.one_critical, total-update critical n pc i (entered b) lt, ap critical e);
    ready = all_updated (IsReady s.mem) pc i (entered b) tt (λ j _. v.ready j);
    queued =
        all_updated (λ r. has_queued r ≡ true → 0 < length delayed + length pending) pc i
          (entered b) (λ h. cc) (λ j _. v.queued j);
    served = v.served;
    owned = v.owned;
    quiet = quiet_updated (entered b);
  }

  pub hand-pointer : (q : Pc) (b : ℕ) → pc i ≡ q → hand b q ≡ 1 → IsBlockPointer b × (b ≢ 0)
  hand-pointer q b e mine =
      ok.pointer b (omega (arith, v.parts b, le-total (hand b) n pc i lt, ap (hand b) e))
