-- ===== src/Delayed/OwnerMoves.antt =====
-- The steps of the page's owner, one by one.
use mimalloc_mc.Prelude.{
  ℕ, ap, ◌+◌, ◌<◌, ◌≡◌, ◌≢◌, refl, ◌∙◌, sym, inl, inr, List, [], ◌∷◌, ◌++◌, Bool, true, false,
  arith, update, leb, leb→le, Bool-cases,
}
use mimalloc_mc.Prelude.Lists.{length}
use mimalloc_mc.Prelude.Chain.{Chain, Chain-update, Chain-start, Chain-unique, count, count-append}
use mimalloc_mc.ThreadFree.{
  Delayed, use_delayed_free, no_delayed_free, never_delayed_free, tf_block, tf_delayed,
  tf_set_block,
}
use mimalloc_mc.ThreadFree.Tags.{tf_make_fields, tf_make-lt}
use mimalloc_mc.Delayed.{
  Pc, idle, entered, loaded, prepared, delaying, delayed_loaded, delayed_linked, leaving,
  leaving_loaded, Owner, at_rest, holding, Shared,
}
use mimalloc_mc.Delayed.Threads.{parts_le}
use mimalloc_mc.Delayed.Family.{le-total}
use mimalloc_mc.Delayed.Invariant.{
  Inv, IsBlocks, IsReady-update, has_queued, hand, owner_hand, freeing_weight, critical,
}
use mimalloc_mc.Delayed.Round.{IsRound}

queued_critical : (p : Pc) → has_queued p ≡ true → critical p ≡ 0 → ⊥
queued_critical leaving h c = omega arith
queued_critical (leaving_loaded _) h c = omega arith
queued_critical idle h c = cc
queued_critical (entered _) h c = cc
queued_critical (loaded _ _) h c = cc
queued_critical (prepared _ _) h c = cc
queued_critical (delaying _) h c = cc
queued_critical (delayed_loaded _ _) h c = cc
queued_critical (delayed_linked _ _) h c = cc

module _ {n : ℕ} {all : ℕ → ℕ} {s : Shared} {pc : ℕ → Pc} {thread delayed pending : List ℕ}
    (ok : IsBlocks all) (v : Inv n all s pc thread delayed pending) where
  -- While the flag is not `MI_DELAYED_FREEING` no thread is in the critical section.
  pub none_critical : freeing_weight (tf_delayed s.xthread_free) ≡ 0 → (j : ℕ) → critical (pc j) ≡ 0
  none_critical w j = elim (Bool-cases (leb n j)) [
    | inl out ↦ ap critical (v.quiet j (leb→le n j out))
    | inr inside ↦ omega (arith, v.one_critical, le-total critical n pc j (ground arith))
  ]

  pub none_queued :
      freeing_weight (tf_delayed s.xthread_free) ≡ 0 → (j : ℕ) → has_queued (pc j) ≡ true → ⊥
  none_queued w j h = queued_critical (pc j) h (none_critical w j)

  pub round-Inv :
      {d : Delayed} {o : Bool} {new : ℕ}
      → IsRound d o s.xthread_free new
      → d ≢ no_delayed_free
      → (s.xheap ≡ 0 → tf_delayed new ≡ never_delayed_free)
      → Inv n all (record s { xthread_free = new }) pc thread delayed pending
  round-Inv {new} r ne still = record {
    thread_chain = Chain-start s.mem _ (tf_block s.xthread_free) thread r.same_list v.thread_chain;
    delayed_chain = v.delayed_chain;
    pending_chain = v.pending_chain;
    tag_word = r.word;
    parts = v.parts;
    one_critical = omega (arith, v.one_critical, r.weight, r.weight_new);
    ready = v.ready;
    queued = v.queued;
    served = λ h. elim r.flag [
      | inl f ↦ absurd (ne (sym f ∙ h))
      | inr f ↦ let was = f.1 in let now = ap tf_delayed f.2 in cc
    ];
    owned = still;
    quiet = v.quiet;
  }

  pub writes-Inv :
      (a x : ℕ)
      → 0 < count a s.own + count a s.live
      → Inv n all (record s { mem = update s.mem a x }) pc thread delayed pending
  writes-Inv a x mine =
      let bound = parts_le ok v a in
      record {
        thread_chain = Chain-update s.mem a x _ thread (omega arith) v.thread_chain;
        delayed_chain = Chain-update s.mem a x _ delayed (omega arith) v.delayed_chain;
        pending_chain = Chain-update s.mem a x _ pending (omega arith) v.pending_chain;
        tag_word = v.tag_word;
        parts = v.parts;
        one_critical = v.one_critical;
        ready = λ j. IsReady-update s.mem a x (pc j) (no_hand j) (v.ready j);
        queued = v.queued;
        served = v.served;
        owned = v.owned;
        quiet = v.quiet;
      }
    where
      no_hand : (j : ℕ) → hand a (pc j) ≡ 0
      no_hand j = elim (Bool-cases (leb n j)) [
        | inl out ↦ ap (hand a) (v.quiet j (leb→le n j out))
        | inr inside ↦ omega (arith, parts_le ok v a, le-total (hand a) n pc j (ground arith))
      ]

  -- `_mi_free_delayed_block` takes the next block of the list that the owner walks.
  pub opens-Inv :
      {b new : ℕ} {rest : List ℕ}
      → s.owner ≡ at_rest
      → Chain s.mem s.walk (b ∷ rest)
      → pending ≡ b ∷ rest
      → IsRound use_delayed_free false s.xthread_free new
      → Inv n all
          (record s { xthread_free = new; walk = s.mem b; owner = holding b })
          pc
          thread
          delayed
          rest
  opens-Inv {b} {new} {rest} resting c e r = record {
    thread_chain = Chain-start s.mem _ (tf_block s.xthread_free) thread r.same_list v.thread_chain;
    delayed_chain = v.delayed_chain;
    pending_chain = c.2;
    tag_word = r.word;
    parts = λ a. ground (arith, v.parts a, ap (owner_hand a) resting, ap (count a) e);
    one_critical = omega (arith, v.one_critical, r.weight, r.weight_new);
    ready = v.ready;
    queued = λ j h. absurd (none_queued r.weight j h);
    served = λ h. elim r.flag [
      | inl f ↦ let no = f in cc
      | inr f ↦ let was = f.1 in let now = ap tf_delayed f.2 in cc
    ];
    owned = λ h. ap tf_delayed (r.never refl (v.owned h)) ∙ v.owned h;
    quiet = v.quiet;
  }

  -- The owner's exchange detaches the whole list of the page.
  pub collects-Inv :
      Inv n all
        (record s { xthread_free = tf_set_block s.xthread_free 0; own = thread ++ s.own })
        pc
        []
        delayed
        pending
  unfolding tf_set_block
  collects-Inv =
      let fields = tf_make_fields 0 (tf_delayed s.xthread_free) (omega arith, omega arith) in
      record {
        thread_chain = fields.0;
        delayed_chain = v.delayed_chain;
        pending_chain = v.pending_chain;
        tag_word = tf_make-lt 0 (tf_delayed s.xthread_free) (omega arith, omega arith);
        parts = λ a. omega (arith, v.parts a, count-append a thread s.own);
        one_critical = omega (arith, v.one_critical, ap freeing_weight fields.1);
        ready = v.ready;
        queued = v.queued;
        served = λ h. v.served (sym fields.1 ∙ h);
        owned = λ h. fields.1 ∙ v.owned h;
        quiet = v.quiet;
      }

  pub takes-Inv :
      s.walk ≡ 0
      → Inv n all
          (record s { walk = s.thread_delayed_free; thread_delayed_free = 0 })
          pc
          thread
          []
          delayed
  takes-Inv done =
      let empty : pending ≡ [] = Chain-unique s.mem s.walk pending [] v.pending_chain done in
      record {
        thread_chain = v.thread_chain;
        delayed_chain = refl;
        pending_chain = v.delayed_chain;
        tag_word = v.tag_word;
        parts = λ a. omega (arith, v.parts a, ap (count a) empty);
        one_critical = v.one_critical;
        ready = v.ready;
        queued = λ j h. omega (arith, v.queued j h, ap length empty);
        served = λ h. omega (arith, v.served h, ap length empty);
        owned = v.owned;
        quiet = v.quiet;
      }

  -- A step that moves blocks between the owner, its free lists and the programs, or changes the heap.
  pub moved-Inv :
      {o : Owner} {own live : List ℕ} {heap : ℕ}
      → ((a : ℕ)
          → count a own + count a live + owner_hand a o
            ≡ count a s.own + count a s.live + owner_hand a s.owner)
      → (heap ≡ 0 → tf_delayed s.xthread_free ≡ never_delayed_free)
      → Inv n all
          (record s { xheap = heap; owner = o; own = own; live = live })
          pc
          thread
          delayed
          pending
  moved-Inv same still = record {
    thread_chain = v.thread_chain;
    delayed_chain = v.delayed_chain;
    pending_chain = v.pending_chain;
    tag_word = v.tag_word;
    parts = λ a. omega (arith, v.parts a, same a);
    one_critical = v.one_critical;
    ready = v.ready;
    queued = v.queued;
    served = v.served;
    owned = still;
    quiet = v.quiet;
  }
