-- ===== src/Delayed/Publish.antt =====
-- The steps of a thread in `_mi_free_block_mt` that publish a new word: the three compare-and-swaps
-- that succeed.
use mimalloc_mc.Prelude.{
  ℕ, ◌+◌, ◌≤◌, ◌<◌, ◌≡◌, refl, ap, sym, subst, ◌∙◌, List, ◌∷◌, true, false, arith, update,
}
use mimalloc_mc.Prelude.Lists.{length}
use mimalloc_mc.Prelude.Chain.{Chain-start}
use mimalloc_mc.ThreadFree.{
  Delayed, use_delayed_free, delayed_freeing, no_delayed_free, never_delayed_free, tf_block,
  tf_delayed, tf_set_delayed, tf_set_block,
}
use mimalloc_mc.ThreadFree.Tags.{IsBlockPointer, tf_make_fields, tf_make-lt}
use mimalloc_mc.Delayed.{
  Pc, idle, prepared, delaying, delayed_linked, leaving, leaving_loaded, use_delayed, Shared,
}
use mimalloc_mc.Delayed.Family.{total-update, le-total}
use mimalloc_mc.Delayed.Invariant.{
  Inv, IsBlocks, IsReady, all_updated, hand, critical, has_queued, freeing_weight,
}
use mimalloc_mc.Delayed.Threads.{hand-pointer, head-pointer, quiet_updated}

module _ {n : ℕ} {all : ℕ → ℕ} {s : Shared} {pc : ℕ → Pc} {thread delayed pending : List ℕ}
    (ok : IsBlocks all) (v : Inv n all s pc thread delayed pending) (i : ℕ) (lt : i < n) where
  pub push-Inv :
      (b tfree : ℕ)
      → pc i ≡ prepared b tfree
      → s.xthread_free ≡ tfree
      → use_delayed tfree ≡ false
      → Inv n all
          (record s { xthread_free = tf_set_block tfree b })
          (update pc i idle)
          (b ∷ thread)
          delayed
          pending
  unfolding tf_set_block
  push-Inv b tfree e now plain =
      let pointer = hand-pointer ok v i lt (prepared b tfree) b e (ground arith) in
      let fields = tf_make_fields b (tf_delayed tfree) pointer.0 in
      let mine : IsReady s.mem (prepared b tfree) = subst (IsReady s.mem) e (v.ready i) in
      let same : tf_delayed s.xthread_free ≡ tf_delayed tfree = ap tf_delayed now in
      record {
        thread_chain = (
          fields.0,
          pointer.1,
          Chain-start s.mem (s.mem b) (tf_block s.xthread_free) thread
              (mine plain ∙ ap tf_block (sym now)) v.thread_chain,
        );
        delayed_chain = v.delayed_chain;
        pending_chain = v.pending_chain;
        tag_word = tf_make-lt b (tf_delayed tfree) pointer.0;
        parts = λ a. ground (arith, v.parts a, total-update (hand a) n pc i idle lt, ap (hand a) e);
        one_critical = omega (
          arith,
          v.one_critical,
          total-update critical n pc i idle lt,
          ap critical e,
          ap freeing_weight (fields.1 ∙ sym same),
        );
        ready = all_updated (IsReady s.mem) pc i idle tt (λ j _. v.ready j);
        queued =
            all_updated (λ r. has_queued r ≡ true → 0 < length delayed + length pending) pc i idle
              (λ h. cc) (λ j _. v.queued j);
        served = λ h. v.served (same ∙ sym fields.1 ∙ h);
        owned = λ h. fields.1 ∙ sym same ∙ v.owned h;
        quiet = quiet_updated ok v i lt idle;
      }

  pub claim-Inv :
      (b tfree : ℕ)
      → pc i ≡ prepared b tfree
      → s.xthread_free ≡ tfree
      → tf_delayed tfree ≡ use_delayed_free
      → Inv n all
          (record s { xthread_free = tf_set_delayed tfree delayed_freeing })
          (update pc i (delaying b))
          thread
          delayed
          pending
  unfolding tf_set_delayed
  claim-Inv b tfree e now flag =
      let head : IsBlockPointer (tf_block tfree) =
        subst IsBlockPointer (ap tf_block now) (head-pointer ok v) in
      let fields = tf_make_fields (tf_block tfree) delayed_freeing head in
      let was : tf_delayed s.xthread_free ≡ use_delayed_free = ap tf_delayed now ∙ flag in
      record {
        thread_chain =
            Chain-start s.mem _ (tf_block s.xthread_free) thread (fields.0 ∙ ap tf_block (sym now))
              v.thread_chain;
        delayed_chain = v.delayed_chain;
        pending_chain = v.pending_chain;
        tag_word = tf_make-lt (tf_block tfree) delayed_freeing head;
        parts = λ a.
            omega (arith, v.parts a, total-update (hand a) n pc i (delaying b) lt, ap (hand a) e);
        one_critical = omega (
          arith,
          v.one_critical,
          total-update critical n pc i (delaying b) lt,
          ap critical e,
          ap freeing_weight fields.1,
          ap freeing_weight was,
        );
        ready = all_updated (IsReady s.mem) pc i (delaying b) tt (λ j _. v.ready j);
        queued =
            all_updated (λ r. has_queued r ≡ true → 0 < length delayed + length pending) pc i
              (delaying b) (λ h. cc) (λ j _. v.queued j);
        served = λ h. cc (fields.1);
        owned = λ h. cc (v.owned h);
        quiet = quiet_updated ok v i lt (delaying b);
      }

  pub queue-Inv :
      (b dfree : ℕ)
      → pc i ≡ delayed_linked b dfree
      → s.thread_delayed_free ≡ dfree
      → Inv n all
          (record s { thread_delayed_free = b })
          (update pc i leaving)
          thread
          (b ∷ delayed)
          pending
  queue-Inv b dfree e now =
      let pointer = hand-pointer ok v i lt (delayed_linked b dfree) b e (ground arith) in
      let mine : s.mem b ≡ dfree = subst (IsReady s.mem) e (v.ready i) in
      record {
        thread_chain = v.thread_chain;
        delayed_chain = (
          refl,
          pointer.1,
          Chain-start s.mem (s.mem b) s.thread_delayed_free delayed (mine ∙ sym now)
              v.delayed_chain,
        );
        pending_chain = v.pending_chain;
        tag_word = v.tag_word;
        parts =
            λ a. ground (arith, v.parts a, total-update (hand a) n pc i leaving lt, ap (hand a) e);
        one_critical =
            omega (arith, v.one_critical, total-update critical n pc i leaving lt, ap critical e);
        ready = all_updated (IsReady s.mem) pc i leaving tt (λ j _. v.ready j);
        queued = λ j h. omega arith;
        served = λ h. omega arith;
        owned = v.owned;
        quiet = quiet_updated ok v i lt leaving;
      }

  -- A thread in the critical section sees the flag `MI_DELAYED_FREEING`.
  pub critical-freeing :
      (q : Pc) → pc i ≡ q → critical q ≡ 1 → tf_delayed s.xthread_free ≡ delayed_freeing
  critical-freeing q e h =
      weight_one (tf_delayed s.xthread_free)
        (omega (arith, v.one_critical, le-total critical n pc i lt, ap critical e))
    where
      weight_one : (d : Delayed) → 1 ≤ freeing_weight d → d ≡ delayed_freeing
      weight_one delayed_freeing w = refl
      weight_one use_delayed_free w = absurd (omega arith)
      weight_one no_delayed_free w = absurd (omega arith)
      weight_one never_delayed_free w = absurd (omega arith)

  pub release-Inv :
      (tfree : ℕ)
      → pc i ≡ leaving_loaded tfree
      → s.xthread_free ≡ tfree
      → Inv n all
          (record s { xthread_free = tf_set_delayed tfree no_delayed_free })
          (update pc i idle)
          thread
          delayed
          pending
  unfolding tf_set_delayed
  release-Inv tfree e now =
      let head : IsBlockPointer (tf_block tfree) =
        subst IsBlockPointer (ap tf_block now) (head-pointer ok v) in
      let fields = tf_make_fields (tf_block tfree) no_delayed_free head in
      let was = critical-freeing (leaving_loaded tfree) e refl in
      record {
        thread_chain =
            Chain-start s.mem _ (tf_block s.xthread_free) thread (fields.0 ∙ ap tf_block (sym now))
              v.thread_chain;
        delayed_chain = v.delayed_chain;
        pending_chain = v.pending_chain;
        tag_word = tf_make-lt (tf_block tfree) no_delayed_free head;
        parts = λ a. omega (arith, v.parts a, total-update (hand a) n pc i idle lt, ap (hand a) e);
        one_critical = omega (
          arith,
          v.one_critical,
          total-update critical n pc i idle lt,
          ap critical e,
          ap freeing_weight fields.1,
          ap freeing_weight was,
        );
        ready = all_updated (IsReady s.mem) pc i idle tt (λ j _. v.ready j);
        queued =
            all_updated (λ r. has_queued r ≡ true → 0 < length delayed + length pending) pc i idle
              (λ h. cc) (λ j _. v.queued j);
        served = λ _. v.queued i (ap has_queued e);
        owned = λ h. cc (v.owned h);
        quiet = quiet_updated ok v i lt idle;
      }
