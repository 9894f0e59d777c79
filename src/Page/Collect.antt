-- ===== src/Page/Collect.antt =====
-- Collecting the thread free list and the local free list of a page.
use mimalloc_mc.Prelude.{
  ℕ, zero, suc, ◌+◌, ◌-◌, ◌%◌, ◌^◌, ◌≤◌, ◌<◌, ◌≡◌, refl, sym, ◌∙◌, List, [], ◌∷◌, ◌++◌, some, Bool,
  true, false, not, ◌||◌, arith, ltb, ◌==◌, update, if◌then◌else◌, eq→==, ne→==, le→leb,
}
use mimalloc_mc.Prelude.Lists.{length, length-append}
use mimalloc_mc.Prelude.Chain.{
  Memory, Chain, Chain-update, Chain-append, count, count-append, last_or, count-last,
}
use mimalloc_mc.ThreadFree.{tf_block, tf_delayed, tf_set_block}
use mimalloc_mc.ThreadFree.Tags.{IsBlockPointer, tf_make_fields, tf_make-lt}
use mimalloc_mc.Page.{State}
use mimalloc_mc.Page.Blocks.{
  find_tail, thread_free_collect, list_tail, local_collect, free_collect, free_from_local,
}
use mimalloc_mc.Page.Invariant.{IsPage, parts_once}

-- On a list no longer than the rounds and the limit allow, the walk ends at the last block with the list's length.
find_tail-last :
    (rounds : ℕ) (m : Memory) (max n p x : ℕ) (xs : List ℕ)
    → Chain m p (x ∷ xs)
    → length xs ≤ rounds
    → n + length xs ≤ max
    → find_tail rounds m max n x ≡ (last_or x xs, n + length xs)
unfolding find_tail
find_tail-last zero m max n p x [] c few fits = ground arith
find_tail-last zero m max n p x (y ∷ xs) c few fits = absurd (omega arith)
find_tail-last (suc rounds) m max n p x [] c few fits =
    let last : (m x == 0) ≡ true = eq→== (m x) 0 c.2 in rw last (ground arith)
find_tail-last (suc rounds) m max n p x (y ∷ xs) c few fits =
    let next : m x ≡ y = c.2.0 in
    rw (next, ne→== y 0 c.2.1, le→leb n max (omega arith))
      (find_tail-last rounds m max (n + 1) (m x) y xs c.2 (omega arith) (omega arith)
        ∙ ground arith)

list_tail-last :
    (fuel : ℕ) (m : Memory) (p x : ℕ) (xs : List ℕ)
    → Chain m p (x ∷ xs)
    → length xs < fuel
    → list_tail fuel m x ≡ some (last_or x xs)
unfolding list_tail
list_tail-last zero m p x xs c few = absurd (omega arith)
list_tail-last (suc fuel) m p x [] c few = rw (eq→== (m x) 0 c.2)
list_tail-last (suc fuel) m p x (y ∷ xs) c few =
    let next : m x ≡ y = c.2.0 in
    rw (next, ne→== y 0 c.2.1) (list_tail-last fuel m (m x) y xs c.2 (omega arith))

null_pointer : IsBlockPointer 0
null_pointer = omega arith

-- On a valid page, `_mi_page_thread_free_collect` leaves a valid page whose thread free list is
-- empty and stands, in order, in front of the old local free list; its blocks no longer count as
-- used.
pub thread_free_collect-IsPage :
    {area bsize : ℕ} {s : State} {free local live : List ℕ} (thread : List ℕ)
    → IsPage area bsize s free local thread live
    → IsPage area bsize (thread_free_collect s) free (thread ++ local) [] live
unfolding thread_free_collect tf_set_block
thread_free_collect-IsPage {s} [] v =
    rw (eq→== (tf_block s.page.xthread_free) 0 v.thread_chain) (record {
      free_chain = v.free_chain;
      local_chain = v.local_chain;
      thread_chain = (tf_make_fields 0 (tf_delayed s.page.xthread_free) null_pointer).0;
      tag_word = tf_make-lt 0 (tf_delayed s.page.xthread_free) null_pointer;
      parts = λ a. omega (arith, v.parts a);
      in_use = v.in_use;
      total = v.total;
      within = v.within;
      small = v.small;
      area_ok = v.area_ok;
    })
thread_free_collect-IsPage {s} {free} {local} (x ∷ xs) v =
    let head : tf_block s.page.xthread_free ≡ x = v.thread_chain.0 in
    let walk =
      find_tail-last s.page.capacity s.mem s.page.capacity 1 _ x xs v.thread_chain
        (omega (arith, v.total, v.in_use)) (omega (arith, v.total, v.in_use)) in
    let last = last_or x xs in
    let outside : count last free ≡ 0 = omega (arith, parts_once v last, count-last x xs) in
    let used_less : (s.page.used + 2 ^ 32 - (1 + length xs)) % 2 ^ 32
        ≡ s.page.used - (1 + length xs) =
      omega (arith, v.in_use, v.total, v.within, v.small) in
    rw (head, ne→== x 0 v.thread_chain.1, walk, not_over)
      (record {
        free_chain = Chain-update s.mem last _ _ free outside v.free_chain;
        local_chain =
            Chain-append s.mem x s.page.local_free x xs local
              (refl, v.thread_chain.1, v.thread_chain.2) v.local_chain
              (λ a. omega (arith, parts_once v a));
        thread_chain = (tf_make_fields 0 (tf_delayed s.page.xthread_free) null_pointer).0;
        tag_word = tf_make-lt 0 (tf_delayed s.page.xthread_free) null_pointer;
        parts = λ a. omega (arith, v.parts a, count-append a (x ∷ xs) local);
        in_use = rw used_less (omega (arith, v.in_use));
        total = rw used_less (omega (arith, v.total, v.in_use, length-append {0} (x ∷ xs) local));
        within = v.within;
        small = v.small;
        area_ok = v.area_ok;
      })
  where
    not_over : ltb s.page.capacity (1 + length xs) ≡ false
    not_over = ground (arith, v.total, v.in_use)

-- The two ways in which the local free list becomes, or joins, the free list.
local_collect_fresh :
    {area bsize : ℕ} {s : State} {thread live : List ℕ} (x : ℕ) (xs : List ℕ) (force : Bool)
    → IsPage area bsize s [] (x ∷ xs) thread live
    → (t : State) × (local_collect force s ≡ some t) × IsPage area bsize t (x ∷ xs) [] thread live
unfolding local_collect
local_collect_fresh {s} x xs force v = (
  record s { page = free_from_local s },
  rw
      (
        ne→== s.page.local_free 0 (λ e. v.local_chain.1 (sym v.local_chain.0 ∙ e)),
        eq→== s.page.free 0 v.free_chain,
      )
      refl,
  record {
    free_chain = v.local_chain;
    local_chain = refl;
    thread_chain = v.thread_chain;
    tag_word = v.tag_word;
    parts = λ a. omega (arith, v.parts a);
    in_use = v.in_use;
    total = omega (arith, v.total);
    within = v.within;
    small = v.small;
    area_ok = v.area_ok;
  },
)

local_collect_joined :
    {area bsize : ℕ} {s : State} {thread live : List ℕ} (y x : ℕ) (ys xs : List ℕ)
    → IsPage area bsize s (y ∷ ys) (x ∷ xs) thread live
    → (t : State) × (local_collect true s ≡ some t)
      × IsPage area bsize t ((x ∷ xs) ++ y ∷ ys) [] thread live
unfolding local_collect
local_collect_joined {s} {thread} y x ys xs v =
    let first : s.page.local_free ≡ x = v.local_chain.0 in
    let last = last_or x xs in
    let walk =
      list_tail-last (s.page.capacity + 1) s.mem _ x xs v.local_chain (omega (arith, v.total)) in
    let outside : count last thread ≡ 0 = omega (arith, parts_once v last, count-last x xs) in
    (
      record { mem = update s.mem last s.page.free; page = free_from_local s },
      rw
          (
            first,
            ne→== x 0 v.local_chain.1,
            ne→== s.page.free 0 (λ e. v.free_chain.1 (sym v.free_chain.0 ∙ e)),
            walk,
          )
          refl,
      record {
        free_chain =
            Chain-append s.mem _ s.page.free x xs (y ∷ ys) v.local_chain v.free_chain
              (λ a. omega (arith, parts_once v a));
        local_chain = refl;
        thread_chain = Chain-update s.mem last _ _ thread outside v.thread_chain;
        tag_word = v.tag_word;
        parts = λ a. omega (arith, v.parts a, count-append a (x ∷ xs) (y ∷ ys));
        in_use = v.in_use;
        total = omega (arith, v.total, length-append {0} (x ∷ xs) (y ∷ ys));
        within = v.within;
        small = v.small;
        area_ok = v.area_ok;
      },
    )

-- Where the two lists go, by the code's branches.
abbrev pub collected : (force : Bool) → (free local : List ℕ) → List ℕ × List ℕ
collected force free [] = (free, [])
collected force [] (x ∷ xs) = (x ∷ xs, [])
collected true (y ∷ ys) (x ∷ xs) = ((x ∷ xs) ++ y ∷ ys, [])
collected false (y ∷ ys) (x ∷ xs) = (y ∷ ys, x ∷ xs)

pub local_collect-IsPage :
    {area bsize : ℕ} {s : State} {thread live : List ℕ} (force : Bool) (free local : List ℕ)
    → IsPage area bsize s free local thread live
    → let after = collected force free local in
      (t : State) × (local_collect force s ≡ some t)
      × IsPage area bsize t after.0 after.1 thread live
local_collect-IsPage {s} force free [] v =
    (s, unfold local_collect in rw (eq→== s.page.local_free 0 v.local_chain), v)
local_collect-IsPage force [] (x ∷ xs) v = local_collect_fresh x xs force v
local_collect-IsPage true (y ∷ ys) (x ∷ xs) v = local_collect_joined y x ys xs v
local_collect-IsPage {s} false (y ∷ ys) (x ∷ xs) v = (
  s,
  unfold local_collect in
      rw
        (
          ne→== s.page.local_free 0 (λ e. v.local_chain.1 (sym v.local_chain.0 ∙ e)),
          ne→== s.page.free 0 (λ e. v.free_chain.1 (sym v.free_chain.0 ∙ e)),
        )
        refl,
  v,
)

thread_step :
    {area bsize : ℕ} {s : State} {free local live : List ℕ} (force : Bool) (thread : List ℕ)
    → IsPage area bsize s free local thread live
    → IsPage area bsize
        (if force || not (tf_block s.page.xthread_free == 0) then thread_free_collect s else s)
        free
        (thread ++ local)
        []
        live
thread_step {s} true thread v = thread_free_collect-IsPage thread v
thread_step {s} false [] v = rw (eq→== (tf_block s.page.xthread_free) 0 v.thread_chain) v
thread_step {s} false (x ∷ xs) v =
    rw (ne→== (tf_block s.page.xthread_free) 0 (λ e. v.thread_chain.1 (sym v.thread_chain.0 ∙ e)))
      (thread_free_collect-IsPage (x ∷ xs) v)

-- On a valid page, `_mi_page_free_collect` returns and leaves a valid page with an empty thread
-- free list. The blocks of the thread list followed by the local list become the free list if that
-- was empty, are put in front of it if the collection is forced, and are the local list otherwise.
pub free_collect-IsPage :
    {area bsize : ℕ} {s : State} {free local thread live : List ℕ} (force : Bool)
    → IsPage area bsize s free local thread live
    → let after = collected force free (thread ++ local) in
      (t : State) × (free_collect force s ≡ some t) × IsPage area bsize t after.0 after.1 [] live
unfolding free_collect
free_collect-IsPage {free} {local} {thread} force v =
    local_collect-IsPage force free (thread ++ local) (thread_step force thread v)
