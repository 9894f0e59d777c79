-- ===== src/Delayed/Moves.antt =====
-- The steps of a thread, one by one.
use mimalloc_mc.Prelude.{
  ℕ, ap, ◌<◌, ◌≡◌, refl, inl, inr, ◌∷◌, true, arith, if◌then◌else◌, update, Bool-cases,
}
use mimalloc_mc.ThreadFree.{
  Delayed, use_delayed_free, delayed_freeing, no_delayed_free, never_delayed_free, tf_block,
  tf_delayed,
}
use mimalloc_mc.Delayed.{
  Pc, idle, loaded, prepared, delaying, use_delayed, same_delayed, prepare_mem, prepare_word,
  Shared, Move, enter, load, prepare, cas_lost, cas_won, no_heap, delayed_load, delayed_link,
  delayed_lost, delayed_won, leave_load, leave_lost, leave_won,
}
use mimalloc_mc.Delayed.Invariant.{Inv, Holds, IsBlocks, has_queued}
use mimalloc_mc.Delayed.Threads.{local-Inv, store-Inv, enter-Inv}
use mimalloc_mc.Delayed.Publish.{push-Inv, claim-Inv, queue-Inv, critical-freeing, release-Inv}

use-eq : (d : Delayed) → same_delayed d use_delayed_free ≡ true → d ≡ use_delayed_free
use-eq use_delayed_free h = refl
use-eq delayed_freeing h = cc
use-eq no_delayed_free h = cc
use-eq never_delayed_free h = cc

module _ {n : ℕ} {all : ℕ → ℕ} {s : Shared} {pc : ℕ → Pc} (ok : IsBlocks all) (h : Holds n all s pc)
    (i : ℕ) (lt : i < n) where
  kept :
      {t : Shared} (p : Pc)
      → Inv n all t (update pc i p) h.thread h.delayed h.pending
      → Holds n all t (update pc i p)
  kept p v = record { thread = h.thread; delayed = h.delayed; pending = h.pending; inv = v }

  prepare-Holds :
      (b tfree : ℕ)
      → pc i ≡ loaded b tfree
      → Holds n all (record s { mem = prepare_mem b tfree s.mem }) (update pc i (prepared b tfree))
  unfolding prepare_mem
  prepare-Holds b tfree e = elim (Bool-cases (use_delayed tfree)) [
    | inl delayed ↦ rw delayed (
        kept _ (
          local-Inv ok h.inv i lt (loaded b tfree) (prepared b tfree) e (λ a. refl) refl
            (λ plain. cc) (λ q. cc)))
    | inr plain ↦ rw plain (
        kept _ (
          store-Inv ok h.inv i lt (loaded b tfree) (prepared b tfree) b (tf_block tfree) e
            (ground arith) (λ a. refl) refl (λ _. ground arith) refl))
  ]

  cas_won-Holds :
      (b tfree : ℕ)
      → pc i ≡ prepared b tfree
      → s.xthread_free ≡ tfree
      → Holds n all
          (record s { xthread_free = prepare_word b tfree })
          (update pc i (if use_delayed tfree then delaying b else idle))
  unfolding prepare_word
  cas_won-Holds b tfree e now = elim (Bool-cases (use_delayed tfree)) [
    | inl delayed ↦
        rw delayed
          (kept _ (claim-Inv ok h.inv i lt b tfree e now (use-eq (tf_delayed tfree) delayed)))
    | inr plain ↦ rw plain (record {
      thread = b ∷ h.thread;
      delayed = h.delayed;
      pending = h.pending;
      inv = push-Inv ok h.inv i lt b tfree e now plain;
    })
  ]

-- Whatever step a thread takes, the invariant holds again.
pub Move-Holds :
    {n : ℕ} {all : ℕ → ℕ} {s t : Shared} {pc : ℕ → Pc} {q p : Pc}
    → IsBlocks all
    → Holds n all s pc
    → (i : ℕ) → i < n
    → pc i ≡ q
    → Move s q t p
    → Holds n all t (update pc i p)
Move-Holds ok h i lt e (enter b held) = kept ok h i lt _ (enter-Inv ok h.inv i lt b e held)
Move-Holds ok h i lt e (load {b}) =
    kept ok h i lt _ (local-Inv ok h.inv i lt _ _ e (λ a. refl) refl tt (λ q. cc))
Move-Holds ok h i lt e (prepare {b} {tfree}) = prepare-Holds ok h i lt b tfree e
Move-Holds ok h i lt e (cas_lost {b} {tfree}) =
    kept ok h i lt _ (local-Inv ok h.inv i lt _ _ e (λ a. refl) refl tt (λ q. cc))
Move-Holds ok h i lt e (cas_won {b} {tfree} now) = cas_won-Holds ok h i lt b tfree e now
Move-Holds ok h i lt e (no_heap {b} none) =
    let forbidden = h.inv.owned none in
    let freeing = critical-freeing ok h.inv i lt (delaying b) e refl in cc
Move-Holds ok h i lt e (delayed_load {b} heap) =
    kept ok h i lt _ (local-Inv ok h.inv i lt _ _ e (λ a. refl) refl tt (λ q. cc))
Move-Holds ok h i lt e (delayed_link {b} {dfree}) =
    kept ok h i lt _
      (store-Inv ok h.inv i lt _ _ b dfree e (ground arith) (λ a. refl) refl (ground arith) refl)
Move-Holds ok h i lt e (delayed_lost {b} {dfree}) =
    kept ok h i lt _ (local-Inv ok h.inv i lt _ _ e (λ a. refl) refl tt (λ q. cc))
Move-Holds ok h i lt e (delayed_won {b} {dfree} now) = record {
  thread = h.thread;
  delayed = b ∷ h.delayed;
  pending = h.pending;
  inv = queue-Inv ok h.inv i lt b dfree e now;
}
Move-Holds ok h i lt e leave_load =
    kept ok h i lt _
      (local-Inv ok h.inv i lt _ _ e (λ a. refl) refl tt (λ q. h.inv.queued i (ap has_queued e)))
Move-Holds ok h i lt e (leave_lost {tfree}) =
    kept ok h i lt _
      (local-Inv ok h.inv i lt _ _ e (λ a. refl) refl tt (λ q. h.inv.queued i (ap has_queued e)))
Move-Holds ok h i lt e (leave_won {tfree} now) =
    kept ok h i lt _ (release-Inv ok h.inv i lt tfree e now)
