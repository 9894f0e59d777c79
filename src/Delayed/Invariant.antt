-- ===== src/Delayed/Invariant.antt =====
-- The invariant of a run: where each block of the page is, who is inside the critical section of
-- `MI_DELAYED_FREEING`, and what a flag `MI_NO_DELAYED_FREE` says of the delayed list (the comment
-- above `mi_page_t` in mimalloc-custom/mimalloc-types.h).
use mimalloc_mc.Prelude.{
  ℕ, ◌+◌, ◌≤◌, ◌<◌, ◌≡◌, ◌≢◌, inl, inr, List, [], ◌∷◌, Bool, true, false, arith, ◌==◌, update,
  Bool-cases, ==→ne,
}
use mimalloc_mc.Prelude.Lists.{length}
use mimalloc_mc.Prelude.Chain.{Memory, Chain, count}
use mimalloc_mc.Size.{word_mod}
use mimalloc_mc.ThreadFree.{
  Delayed, use_delayed_free, delayed_freeing, no_delayed_free, never_delayed_free, tf_block,
  tf_delayed,
}
use mimalloc_mc.ThreadFree.Tags.{IsBlockPointer}
use mimalloc_mc.Delayed.{
  Pc, idle, entered, loaded, prepared, delaying, delayed_loaded, delayed_linked, leaving,
  leaving_loaded, use_delayed, Owner, at_rest, holding, Shared,
}
use mimalloc_mc.Delayed.Family.{total}

-- How often a thread has a block in hand: it does until the block is published.
abbrev pub hand : ℕ → Pc → ℕ
hand a idle = 0
hand a (entered b) = count a (b ∷ [])
hand a (loaded b _) = count a (b ∷ [])
hand a (prepared b _) = count a (b ∷ [])
hand a (delaying b) = count a (b ∷ [])
hand a (delayed_loaded b _) = count a (b ∷ [])
hand a (delayed_linked b _) = count a (b ∷ [])
hand a leaving = 0
hand a (leaving_loaded _) = 0

abbrev pub owner_hand : ℕ → Owner → ℕ
owner_hand a at_rest = 0
owner_hand a (holding b) = count a (b ∷ [])

-- A thread that set `MI_DELAYED_FREEING` and has not reset it: it may touch the heap.
abbrev pub critical : Pc → ℕ
critical idle = 0
critical (entered _) = 0
critical (loaded _ _) = 0
critical (prepared _ _) = 0
critical (delaying _) = 1
critical (delayed_loaded _ _) = 1
critical (delayed_linked _ _) = 1
critical leaving = 1
critical (leaving_loaded _) = 1

-- A thread whose block is on the heap's delayed list.
abbrev pub has_queued : Pc → Bool
has_queued leaving = true
has_queued (leaving_loaded _) = true
has_queued _ = false

abbrev pub freeing_weight : Delayed → ℕ
freeing_weight use_delayed_free = 0
freeing_weight delayed_freeing = 1
freeing_weight no_delayed_free = 0
freeing_weight never_delayed_free = 0

-- Before a compare-and-swap the block in hand leads to the list that it will be put in front of.
abbrev pub IsReady : Memory → Pc → Type 0
IsReady m (prepared b tfree) = use_delayed tfree ≡ false → m b ≡ tf_block tfree
IsReady m (delayed_linked b dfree) = m b ≡ dfree
IsReady m _ = Unit {0}

-- `all a` says how often `a` is a block of the page.
pub record IsBlocks (all : ℕ → ℕ) : Type 0 where
  pub once : (a : ℕ) → all a ≤ 1
  pub pointer : (a : ℕ) → 0 < all a → IsBlockPointer a × (a ≢ 0)

pub record Inv (n : ℕ) (all : ℕ → ℕ) (s : Shared) (pc : ℕ → Pc) (thread delayed pending : List ℕ)
    : Type 0 where
  pub thread_chain : Chain s.mem (tf_block s.xthread_free) thread
  pub delayed_chain : Chain s.mem s.thread_delayed_free delayed
  pub pending_chain : Chain s.mem s.walk pending
  pub tag_word : s.xthread_free < word_mod
  pub parts :
      (a : ℕ)
      → count a thread
          + count a delayed
          + count a pending
          + count a s.own
          + count a s.live
          + owner_hand a s.owner
          + total (hand a) n pc
        ≡ all a
  pub one_critical : total critical n pc ≡ freeing_weight (tf_delayed s.xthread_free)
  pub ready : (j : ℕ) → IsReady s.mem (pc j)
  pub queued : (j : ℕ) → has_queued (pc j) ≡ true → 0 < length delayed + length pending
  pub served : tf_delayed s.xthread_free ≡ no_delayed_free → 0 < length delayed + length pending
  pub owned : s.xheap ≡ 0 → tf_delayed s.xthread_free ≡ never_delayed_free
  pub quiet : (j : ℕ) → n ≤ j → pc j ≡ idle

-- A thread's memory requirement survives a store to a block that it does not have in hand.
pub IsReady-update :
    (m : Memory) (b v : ℕ) (p : Pc) → hand b p ≡ 0 → IsReady m p → IsReady (update m b v) p
IsReady-update m b v (prepared c tfree) h r = λ plain. ground (arith, r plain)
IsReady-update m b v (delayed_linked c dfree) h r = ground arith
IsReady-update m b v idle h r = tt
IsReady-update m b v (entered _) h r = tt
IsReady-update m b v (loaded _ _) h r = tt
IsReady-update m b v (delaying _) h r = tt
IsReady-update m b v (delayed_loaded _ _) h r = tt
IsReady-update m b v leaving h r = tt
IsReady-update m b v (leaving_loaded _) h r = tt

-- A property of every thread after one of them has moved.
pub all_updated {ℓ} :
    (P : Pc → Type ℓ) (pc : ℕ → Pc) (i : ℕ) (p : Pc)
    → P p
    → ((j : ℕ) → i ≢ j → P (pc j))
    → (j : ℕ) → P (update pc i p j)
all_updated P pc i p here there j = elim (Bool-cases (i == j)) [
  | inl e ↦ rw e here
  | inr e ↦ rw e (there j (==→ne i j e))
]

-- The invariant for some division of the shared lists.
pub record Holds (n : ℕ) (all : ℕ → ℕ) (s : Shared) (pc : ℕ → Pc) : Type 0 where
  pub thread : List ℕ
  pub delayed : List ℕ
  pub pending : List ℕ
  pub inv : Inv n all s pc thread delayed pending
