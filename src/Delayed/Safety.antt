-- ===== src/Delayed/Safety.antt =====
-- Runs of the threads and the owner: the assertions of `_mi_free_block_mt`, the exclusion by
-- `MI_DELAYED_FREEING`, and the places of the blocks.
use mimalloc_mc.Prelude.{
  ◌↔◌, Option-cases, ℕ, ap, ◌+◌, ◌≤◌, ◌<◌, ◌≡◌, ◌≢◌, ◌⊎◌, refl, ◌∙◌, sym, inl, inr, List, [], ◌∷◌,
  Bool, none, arith,
}
use mimalloc_mc.Prelude.Lists.{length}
use mimalloc_mc.Prelude.Chain.{Chain, count}
use mimalloc_mc.ThreadFree.{
  Delayed, delayed_freeing, no_delayed_free, never_delayed_free, tf_block, tf_delayed,
}
use mimalloc_mc.ThreadFree.{tf_set_block}
use mimalloc_mc.ThreadFree.Tags.{IsBlockPointer, tf_make_fields}
use mimalloc_mc.Delayed.Threads.{hand-pointer}
use mimalloc_mc.Delayed.{
  prepare_word, Pc, delaying, use_delayed_round, Shared, Move, enter, load, prepare, cas_lost,
  cas_won, System, Reach,
}
use mimalloc_mc.Delayed.Family.{total, two-le-total, total-zero}
use mimalloc_mc.Delayed.Invariant.{hand, owner_hand, critical, freeing_weight}
use mimalloc_mc.Delayed.Publish.{critical-freeing}
use mimalloc_mc.Delayed.Round.{round_returns, round_weight}
use mimalloc_mc.Delayed.OwnerMoves.{none_critical}
use mimalloc_mc.Delayed.Runs.{IsStart, Reach-Holds}

-- In every state that a run reaches from a fresh page, a thread about to read the heap for its
-- delayed block finds a heap that is not null: the first assertion of the loop in
-- `_mi_free_block_mt` holds.
pub heap_is_set :
    {n : ℕ} {all : ℕ → ℕ} {s t : System}
    → IsStart n all s
    → Reach n s t
    → (i b : ℕ) → i < n
    → t.pc i ≡ delaying b
    → t.shared.xheap ≢ 0
heap_is_set st r i b lt e null =
    let h = Reach-Holds st r in
    let freeing = critical-freeing st.blocks h.inv i lt (delaying b) e refl in
    let never = h.inv.owned null in cc

-- In every state that a run reaches from a fresh page, the flag is `MI_DELAYED_FREEING` for as long
-- as some thread is in the part of `_mi_free_block_mt` that touches the heap; so the assertion on
-- the flag that it reads before it resets it holds.
pub flag_is_freeing :
    {n : ℕ} {all : ℕ → ℕ} {s t : System}
    → IsStart n all s
    → Reach n s t
    → (i : ℕ) → i < n
    → critical (t.pc i) ≡ 1
    → tf_delayed t.shared.xthread_free ≡ delayed_freeing
flag_is_freeing {t} st r i lt inside =
    critical-freeing st.blocks (Reach-Holds st r).inv i lt (t.pc i) refl inside

-- In every state that a run reaches from a fresh page, of two different threads at most one is in
-- the part of `_mi_free_block_mt` that touches the heap.
pub one_in_heap :
    {n : ℕ} {all : ℕ → ℕ} {s t : System}
    → IsStart n all s
    → Reach n s t
    → (i j : ℕ) → i < n
    → j < n
    → i ≢ j
    → critical (t.pc i) + critical (t.pc j) ≤ 1
one_in_heap {n} {t} st r i j lt lt' ne =
    let h = Reach-Holds st r in
    ground (
      arith,
      two-le-total critical n t.pc i j lt lt' ne,
      h.inv.one_critical,
      weight-le (tf_delayed t.shared.xthread_free),
    )
  where
    weight-le : (d : Delayed) → freeing_weight d ≤ 1
    weight-le delayed_freeing = omega arith
    weight-le _ = omega arith

-- In every state that a run reaches from a fresh page, a round of `_mi_page_use_delayed_free` ends
-- its loop, if its compare-and-swap succeeds, exactly when no thread is in the part of
-- `_mi_free_block_mt` that touches the heap.
pub use_delayed_round_iff :
    {n : ℕ} {all : ℕ → ℕ} {s t : System}
    → IsStart n all s
    → Reach n s t
    → (delay : Delayed) (override_never : Bool)
    → (use_delayed_round delay override_never t.shared.xthread_free ≢ none)
      ↔ ((i : ℕ) → critical (t.pc i) ≡ 0)
use_delayed_round_iff {n} {t} st r delay o =
    let h = Reach-Holds st r in
    (
      λ returns.
          none_critical st.blocks h.inv
            (elim (Option-cases (use_delayed_round delay o t.shared.xthread_free)) [
              | inl stays ↦ absurd (returns stays)
              | inr (new, e) ↦ round_weight delay o t.shared.xthread_free new _ refl e
            ]),
      λ quiet.
          round_returns delay o t.shared.xthread_free _ refl
            (omega (arith, h.inv.one_critical, total-zero critical n t.pc quiet)),
    )

-- Where the blocks of a page are: the blocks of the three shared lists, and how often each address
-- stands in a place.
pub record Places (n : ℕ) (all : ℕ → ℕ) (s : System) : Type 0 where
  thread : List ℕ
  delayed : List ℕ
  walked : List ℕ
  thread_chain : Chain s.shared.mem (tf_block s.shared.xthread_free) thread
  delayed_chain : Chain s.shared.mem s.shared.thread_delayed_free delayed
  walked_chain : Chain s.shared.mem s.shared.walk walked
  once :
      (a : ℕ)
      → count a thread
          + count a delayed
          + count a walked
          + count a s.shared.own
          + count a s.shared.live
          + owner_hand a s.shared.owner
          + total (hand a) n s.pc
        ≡ all a

-- In every state that a run reaches from a fresh page, each block is in exactly one place: on the
-- page's thread list, on the heap's delayed list, on the list that the owner walks, in the owner's
-- hand, on its free lists, with a program, or in the hand of one thread; and the three shared
-- lists are what the pointers lead through.
pub block_conserved :
    {n : ℕ} {all : ℕ → ℕ} {s t : System} → IsStart n all s → Reach n s t → Places n all t
block_conserved st r =
    let h = Reach-Holds st r in
    record {
      thread = h.thread;
      delayed = h.delayed;
      walked = h.pending;
      thread_chain = h.inv.thread_chain;
      delayed_chain = h.inv.delayed_chain;
      walked_chain = h.inv.pending_chain;
      once = h.inv.parts;
    }

-- In every state that a run reaches from a fresh page, when the flag is `MI_NO_DELAYED_FREE` some
-- block is on the heap's delayed list or on the list that the owner took from it.
pub no_delayed_free-served :
    {n : ℕ} {all : ℕ → ℕ} {s t : System}
    → IsStart n all s
    → Reach n s t
    → tf_delayed t.shared.xthread_free ≡ no_delayed_free
    → (t.shared.thread_delayed_free ≢ 0) ⊎ (t.shared.walk ≢ 0)
no_delayed_free-served {t} st r flag =
    let h = Reach-Holds st r in
    go h.delayed h.pending h.inv.delayed_chain h.inv.pending_chain (h.inv.served flag)
  where
    go :
        (xs ys : List ℕ)
        → Chain t.shared.mem t.shared.thread_delayed_free xs
        → Chain t.shared.mem t.shared.walk ys
        → 0 < length xs + length ys
        → (t.shared.thread_delayed_free ≢ 0) ⊎ (t.shared.walk ≢ 0)
    go [] [] c d few = absurd (omega (arith, few))
    go [] (y ∷ ys) c d few = inr (λ e. d.1 (sym d.0 ∙ e))
    go (x ∷ xs) ys c d few = inl (λ e. c.1 (sym c.0 ∙ e))

prepare_word-never :
    (b tfree : ℕ)
    → IsBlockPointer b
    → tf_delayed tfree ≡ never_delayed_free
    → tf_delayed (prepare_word b tfree) ≡ never_delayed_free
unfolding prepare_word tf_set_block
prepare_word-never b tfree pointer e = rw e ((tf_make_fields b never_delayed_free pointer).1)

-- In every state that a run reaches from a fresh page, once the flag is `MI_NEVER_DELAYED_FREE` no
-- step of a thread changes the heap's delayed list, the heap, or the flag: the owner may abandon
-- the page.
pub never_delayed_free-stays :
    {n : ℕ} {all : ℕ → ℕ} {s t : System} {u : Shared} {p : Pc}
    → IsStart n all s
    → Reach n s t
    → tf_delayed t.shared.xthread_free ≡ never_delayed_free
    → (i : ℕ) → i < n
    → Move t.shared (t.pc i) u p
    → (u.thread_delayed_free ≡ t.shared.thread_delayed_free)
      × (u.xheap ≡ t.shared.xheap)
      × (tf_delayed u.xthread_free ≡ never_delayed_free)
never_delayed_free-stays {t} st r flag i lt m =
    let h = Reach-Holds st r in go refl (none_critical st.blocks h.inv (ap freeing_weight flag) i) m
  where
    go :
        {q p : Pc} {u : Shared}
        → t.pc i ≡ q
        → critical q ≡ 0
        → Move t.shared q u p
        → (u.thread_delayed_free ≡ t.shared.thread_delayed_free)
          × (u.xheap ≡ t.shared.xheap)
          × (tf_delayed u.xthread_free ≡ never_delayed_free)
    go e z (enter b mine) = (refl, refl, flag)
    go e z load = (refl, refl, flag)
    go e z prepare = (refl, refl, flag)
    go e z cas_lost = (refl, refl, flag)
    go e z (cas_won {b} {tfree} now) = (
      refl,
      refl,
      prepare_word-never b tfree
          (hand-pointer st.blocks (Reach-Holds st r).inv i lt _ b e (ground arith)).0
          (ap tf_delayed (sym now) ∙ flag),
    )
    go e z _ = absurd (omega (arith, z))
