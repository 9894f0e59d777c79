-- ===== src/Delayed/Runs.antt =====
-- The invariant along a run, whoever takes the steps.
use mimalloc_mc.Prelude.{
  ℕ, ap, ◌+◌, ◌≡◌, ◌≢◌, refl, ◌∙◌, sym, inl, inr, List, [], ◌∷◌, Bool, some, false, arith,
}
use mimalloc_mc.Prelude.Chain.{Chain, Chain-unique, count, count-erase}
use mimalloc_mc.ThreadFree.{Delayed, use_delayed_free, tf_block, tf_delayed}
use mimalloc_mc.Delayed.{
  Pc, idle, use_delayed_round, at_rest, holding, Shared, OwnerMove, writes, allocates, frees,
  collects, takes, opens, closes, forbids, permits, abandons, adopts, System, Step, thread_moves,
  owner_moves, Reach, start, later,
}
use mimalloc_mc.Delayed.Family.{total-zero}
use mimalloc_mc.Delayed.Invariant.{
  Inv, Holds, IsBlocks, hand, owner_hand, critical, has_queued, freeing_weight,
}
use mimalloc_mc.Delayed.Round.{IsRound, use_delayed_round-IsRound}
use mimalloc_mc.Delayed.Threads.{head-pointer}
use mimalloc_mc.Delayed.Moves.{Move-Holds}
use mimalloc_mc.Delayed.OwnerMoves.{
  round-Inv, writes-Inv, opens-Inv, collects-Inv, takes-Inv, moved-Inv,
}

module _ {n : ℕ} {all : ℕ → ℕ} {s : Shared} {pc : ℕ → Pc} (ok : IsBlocks all)
    (h : Holds n all s pc) where
  returned-IsRound :
      {d : Delayed} {o : Bool} {new : ℕ}
      → freeing_weight d ≡ 0
      → use_delayed_round d o s.xthread_free ≡ some new
      → IsRound d o s.xthread_free new
  returned-IsRound {d} {o} {new} w e =
      use_delayed_round-IsRound d o s.xthread_free new (tf_delayed s.xthread_free) refl
        h.inv.tag_word (head-pointer ok h.inv) w e

  opens-Holds :
      {b new : ℕ} (pending : List ℕ)
      → s.owner ≡ at_rest
      → s.walk ≡ b
      → b ≢ 0
      → Chain s.mem s.walk pending
      → pending ≡ h.pending
      → IsRound use_delayed_free false s.xthread_free new
      → Holds n all (record s { xthread_free = new; walk = s.mem b; owner = holding b }) pc
  opens-Holds [] resting at ne c same r = absurd (ne (sym at ∙ c))
  opens-Holds {b} (x ∷ rest) resting at ne c same r =
      let here : x ≡ b = sym c.0 ∙ at in
      record {
        thread = h.thread;
        delayed = h.delayed;
        pending = rest;
        inv = opens-Inv ok h.inv resting (rw here at c) (sym same ∙ ap (λ y. y ∷ rest) here) r;
      }

  same_lists : {t : Shared} → Inv n all t pc h.thread h.delayed h.pending → Holds n all t pc
  same_lists v = record { thread = h.thread; delayed = h.delayed; pending = h.pending; inv = v }

OwnerMove-Holds :
    {n : ℕ} {all : ℕ → ℕ} {s t : Shared} {pc : ℕ → Pc}
    → IsBlocks all
    → Holds n all s pc
    → OwnerMove s t
    → Holds n all t pc
OwnerMove-Holds ok h (writes a v mine) = same_lists ok h (writes-Inv ok h.inv a v mine)
OwnerMove-Holds {s} ok h (allocates b mine) =
    same_lists ok h
      (moved-Inv ok h.inv (λ a. ground (arith, count-erase b a s.own mine)) h.inv.owned)
OwnerMove-Holds {s} ok h (frees b mine) =
    same_lists ok h
      (moved-Inv ok h.inv (λ a. ground (arith, count-erase b a s.live mine)) h.inv.owned)
OwnerMove-Holds {s} ok h (collects thread c) =
    let same = Chain-unique s.mem _ h.thread thread h.inv.thread_chain c in
    record {
      thread = [];
      delayed = h.delayed;
      pending = h.pending;
      inv = rw same at (collects-Inv ok h.inv);
    }
OwnerMove-Holds ok h (takes done) = record {
  thread = h.thread;
  delayed = [];
  pending = h.delayed;
  inv = takes-Inv ok h.inv done;
}
OwnerMove-Holds ok h (opens resting at ne e) =
    opens-Holds ok h h.pending resting at ne h.inv.pending_chain refl (returned-IsRound ok h refl e)
OwnerMove-Holds ok h (closes held) =
    same_lists ok h (moved-Inv ok h.inv (λ a. ground (arith, ap (owner_hand a) held)) h.inv.owned)
OwnerMove-Holds ok h (forbids e) =
    let r = returned-IsRound ok h refl e in
    same_lists ok h (
      round-Inv ok h.inv r (λ x. cc)
        (λ none. elim r.flag [ inl f ↦ f | inr f ↦ ap tf_delayed f.2 ∙ f.1 ]))
OwnerMove-Holds ok h (permits heap e) =
    same_lists ok h
      (round-Inv ok h.inv (returned-IsRound ok h refl e) (λ x. cc) (λ none. absurd (heap none)))
OwnerMove-Holds ok h (abandons flag) = same_lists ok h (moved-Inv ok h.inv (λ a. refl) (λ _. flag))
OwnerMove-Holds ok h (adopts heap ne flag) =
    same_lists ok h (moved-Inv ok h.inv (λ a. refl) (λ _. flag))

Step-Holds :
    {n : ℕ} {all : ℕ → ℕ} {s t : System}
    → IsBlocks all
    → Holds n all s.shared s.pc
    → Step n s t
    → Holds n all t.shared t.pc
Step-Holds ok h (thread_moves i lt m) = Move-Holds ok h i lt refl m
Step-Holds ok h (owner_moves m) = OwnerMove-Holds ok h m

-- A page after `mi_page_init`: nothing freed by another thread yet, every thread outside of
-- `_mi_free_block_mt`, and each block of the page on a free list of the owner or held by a program.
pub record IsStart (n : ℕ) (all : ℕ → ℕ) (s : System) : Type 0 where
  pub no_thread_free : s.shared.xthread_free ≡ 0
  pub no_delayed : s.shared.thread_delayed_free ≡ 0
  pub no_walk : s.shared.walk ≡ 0
  pub resting : s.shared.owner ≡ at_rest
  pub has_heap : s.shared.xheap ≢ 0
  pub all_idle : (j : ℕ) → s.pc j ≡ idle
  pub blocks : IsBlocks all
  pub parts : (a : ℕ) → count a s.shared.own + count a s.shared.live ≡ all a

IsStart-Holds : {n : ℕ} {all : ℕ → ℕ} {s : System} → IsStart n all s → Holds n all s.shared s.pc
unfolding tf_block tf_delayed
IsStart-Holds {n} {all} {s} st = record {
  thread = [];
  delayed = [];
  pending = [];
  inv = record {
    thread_chain = ap tf_block st.no_thread_free;
    delayed_chain = st.no_delayed;
    pending_chain = st.no_walk;
    tag_word = omega (arith, st.no_thread_free);
    parts = λ a. omega (
      arith,
      st.parts a,
      total-zero (hand a) n s.pc (λ j. ap (hand a) (st.all_idle j)),
      ap (owner_hand a) st.resting,
    );
    one_critical = omega (
      arith,
      total-zero critical n s.pc (λ j. ap critical (st.all_idle j)),
      ap (λ x. freeing_weight (tf_delayed x)) st.no_thread_free,
    );
    ready = λ j. rw (st.all_idle j) tt;
    queued = λ j h. let e = ap has_queued (st.all_idle j) in cc;
    served = λ h. let fresh = ap tf_delayed st.no_thread_free in cc;
    owned = λ h. absurd (st.has_heap h);
    quiet = λ j _. st.all_idle j;
  };
}

pub Reach-Holds :
    {n : ℕ} {all : ℕ → ℕ} {s t : System} → IsStart n all s → Reach n s t → Holds n all t.shared t.pc
Reach-Holds st start = IsStart-Holds st
Reach-Holds st (later r step) = Step-Holds st.blocks (Reach-Holds st r) step
