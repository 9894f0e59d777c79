-- ===== src/Page/Extend.antt =====
-- `mi_page_extend_free` and `mi_page_init` make new free blocks out of untouched memory.
use mimalloc_mc.Prelude.{
  ℕ, zero, suc, ◌+◌, ◌-◌, ◌/◌, ◌%◌, ◌^◌, ◌≤◌, ◌<◌, ◌≡◌, refl, ap, subst, ◌∙◌, inl, inr, List, [],
  ◌∷◌, ◌++◌, some, false, arith, ltb, leb, if◌then◌else◌, Bool-cases, eq→==, leb→le,
}
use mathlib.Core.Option
use native.Mathlib.Nat.{le-div_iff_mul-le}
use mimalloc_mc.Prelude.Lists.{length}
use mimalloc_mc.Prelude.Chain.{Memory, Chain, count}
use mimalloc_mc.Size.{huge_block_size}
use mimalloc_mc.ThreadFree.{tf_block}
use mimalloc_mc.Page.{Page, State}
use mimalloc_mc.Page.Grow.{
  block_at, free_list_extend, extend_count, block_size_of, enable, extend_free, page_init,
}
use mimalloc_mc.Page.Invariant.{IsPage, IsArea, blocks, count_above}
use mimalloc_mc.Page.Link.{run, kept-Chain, free_list_extend-Chain}

-- At least one block is added, and no more than are left.
pub extend_count_bounds :
    (bsize left : ℕ) → 0 < left → (0 < extend_count bsize left) × (extend_count bsize left ≤ left)
unfolding extend_count
extend_count_bounds bsize left h = ground arith

count-run :
    (area bsize i n a : ℕ)
    → count a (blocks area bsize (i + n))
      ≡ count a (blocks area bsize i) + count a (run area bsize i n)
count-run area bsize i zero a = let e : i + zero ≡ i = omega arith in rw e (omega arith)
count-run area bsize i (suc n) a =
    let e : i + suc n ≡ suc i + n = omega arith in
    let e' : i + 1 ≡ suc i = omega arith in
    rw (e, e') (ground (arith, count-run area bsize (suc i) n a))

length-run : (area bsize i n : ℕ) → length (run area bsize i n) ≡ n
length-run area bsize i zero = refl
length-run area bsize i (suc n) = omega (arith, length-run area bsize (i + 1) n)

append-nil' : (xs : List ℕ) → xs ++ [] ≡ xs
append-nil' [] = refl
append-nil' (x ∷ xs) = ap (◌∷◌ x) (append-nil' xs)

-- The blocks of a list of a page lie below the end of its capacity.
part-lt :
    (area bsize n a : ℕ) → 0 < bsize → 0 < count a (blocks area bsize n) → a < block_at area bsize n
part-lt area bsize n a pos h = elim (Bool-cases (leb (block_at area bsize n) a)) [
  | inl e ↦ absurd (omega (arith, count_above area bsize n a pos (leb→le _ _ e)))
  | inr e ↦ ground arith
]

module _ {area bsize : ℕ} {s : State} {local thread live : List ℕ}
    (v : IsPage area bsize s [] local thread live) where
  below_capacity :
      (a : ℕ)
      → 0 < count a local + count a thread + count a live
      → a < block_at area bsize s.page.capacity
  below_capacity a h =
      part-lt area bsize s.page.capacity a v.area_ok.some_size (omega (arith, v.parts a))

  -- The page once its first `n + 1` untouched blocks are linked and counted.
  extended-IsPage :
      (n : ℕ) (m : Memory) (t : State)
      → s.page.capacity + suc n ≤ s.page.reserved
      → t
        ≡ enable (suc n) (record {
          mem = m;
          page = record (s.page) { free = block_at area bsize s.page.capacity };
        })
      → Chain m (block_at area bsize s.page.capacity) (run area bsize s.page.capacity (suc n) ++ [])
      → ((a : ℕ) → a < block_at area bsize s.page.capacity → m a ≡ s.mem a)
      → IsPage area bsize t (run area bsize s.page.capacity (suc n)) local thread live
        × (t.page.capacity ≡ s.page.capacity + suc n)
  extended-IsPage n m t room e c same =
      let grown : (s.page.capacity + suc n % 2 ^ 16) % 2 ^ 16 ≡ s.page.capacity + suc n =
        omega (arith, v.small) in
      let long = length-run area bsize s.page.capacity (suc n) in
      rw e (
        record {
          free_chain = rw append-nil' at c;
          local_chain =
              kept-Chain s.mem m _ _ local same (λ a h. below_capacity a (omega arith))
                v.local_chain;
          thread_chain =
              kept-Chain s.mem m _ _ thread same (λ a h. below_capacity a (omega arith))
                v.thread_chain;
          tag_word = v.tag_word;
          parts = λ a.
              rw grown (omega (arith, v.parts a, count-run area bsize s.page.capacity (suc n) a));
          in_use = v.in_use;
          total = rw grown (omega (arith, v.total, long));
          within = rw grown room;
          small = v.small;
          area_ok = v.area_ok;
        },
        grown,
      )

  -- The general form, for the lists that a page may have when no assertion is checked.
  pub extend_free-IsPage_any :
      (page_size : ℕ)
      → block_size_of s.page page_size ≡ bsize
      → s.page.capacity < s.page.reserved
      → let k = extend_count bsize (s.page.reserved - s.page.capacity) in
        (t : State) × (extend_free area page_size s ≡ some t)
        × (0 < k)
        × (t.page.capacity ≡ s.page.capacity + k)
        × IsPage area bsize t (run area bsize s.page.capacity k) local thread live
  unfolding extend_free
  extend_free-IsPage_any page_size size room =
      let bounds = extend_count_bounds bsize (s.page.reserved - s.page.capacity) (omega arith) in
      let some_k : extend_count bsize (s.page.reserved - s.page.capacity)
          ≡ suc (extend_count bsize (s.page.reserved - s.page.capacity) - 1) =
        omega (arith, bounds) in
      rw (eq→== s.page.free 0 v.free_chain, full, size)
        (go (extend_count bsize (s.page.reserved - s.page.capacity))
          (extend_count bsize (s.page.reserved - s.page.capacity) - 1) some_k bounds)
    where
      full : leb s.page.reserved s.page.capacity ≡ false
      full = ground arith

      go :
          (k n : ℕ)
          → k ≡ suc n
          → (0 < k) × (k ≤ s.page.reserved - s.page.capacity)
          → (t : State) × (Option.map (enable k) (free_list_extend area bsize k s) ≡ some t)
            × (0 < k)
            × (t.page.capacity ≡ s.page.capacity + k)
            × IsPage area bsize t (run area bsize s.page.capacity k) local thread live
      go k n e b =
          let (m, result, c, same) =
            free_list_extend-Chain area bsize n s [] v.area_ok.some_size v.area_ok.not_null
              v.free_chain (λ a h. absurd (omega arith)) in
          let t = enable (suc n) (record {
            mem = m;
            page = record (s.page) { free = block_at area bsize s.page.capacity };
          }) in
          let (valid, grown) = extended-IsPage n m t (omega arith) refl c same in
          rw e (t, ap (Option.map (enable (suc n))) result, omega arith, grown, valid)

-- On a valid page with an empty free list and an empty local free list, as the function asserts, whose
-- capacity is below its reserved number of blocks, `mi_page_extend_free` returns, and leaves a valid
-- page with at least one more block; the new blocks are the free list, in the order of their addresses,
-- and the list of other threads and the blocks in use are as before.
pub extend_free-IsPage :
    {area bsize : ℕ} {s : State} {thread live : List ℕ} (page_size : ℕ)
    → IsPage area bsize s [] [] thread live
    → block_size_of s.page page_size ≡ bsize
    → s.page.capacity < s.page.reserved
    → let k = extend_count bsize (s.page.reserved - s.page.capacity) in
      (t : State) × (extend_free area page_size s ≡ some t)
      × (0 < k)
      × (t.page.capacity ≡ s.page.capacity + k)
      × IsPage area bsize t (run area bsize s.page.capacity k) [] thread live
extend_free-IsPage page_size v size room = extend_free-IsPage_any v page_size size room

-- A page as `mi_page_init` asserts to find it.
pub record IsFresh (p : Page) : Type 0 where
  pub no_capacity : p.capacity ≡ 0
  pub no_free : p.free ≡ 0
  pub no_local : p.local_free ≡ 0
  pub none_used : p.used ≡ 0
  pub no_thread : p.xthread_free ≡ 0

-- The size of the blocks that a page for `block_size` has: a huge page is one block.
abbrev pub actual_size : (page_size block_size : ℕ) → ℕ
actual_size page_size block_size = if ltb block_size huge_block_size then block_size else page_size

abbrev initial : (heap page_size block_size : ℕ) → State → State
initial heap page_size block_size s = record s {
  page = record (s.page) {
    xheap = heap;
    xblock_size = if ltb block_size huge_block_size then block_size % 2 ^ 32 else huge_block_size;
    reserved = page_size / block_size % 2 ^ 16;
    is_zero = s.page.is_zero_init;
  };
}

tf_block-zero : tf_block 0 ≡ 0
unfolding tf_block
tf_block-zero = refl

module _ (heap area page_size block_size : ℕ) (s : State) (fresh : IsFresh s.page)
    (some_size : 0 < block_size) (one_fits : block_size ≤ page_size)
    (few : page_size / block_size < 2 ^ 16)
    (ok : IsArea area (actual_size page_size block_size) (page_size / block_size)) where
  reserved_whole : page_size / block_size % 2 ^ 16 ≡ page_size / block_size
  reserved_whole = omega arith

  size_is_actual :
      block_size_of (initial heap page_size block_size s).page page_size
      ≡ actual_size page_size block_size
  size_is_actual = ground arith

  initial-IsPage :
      IsPage area
        (actual_size page_size block_size)
        (initial heap page_size block_size s)
        []
        []
        []
        []
  initial-IsPage = record {
    free_chain = fresh.no_free;
    local_chain = fresh.no_local;
    thread_chain = ap tf_block fresh.no_thread ∙ tf_block-zero;
    tag_word = omega (arith, fresh.no_thread);
    parts = λ a. rw fresh.no_capacity refl;
    in_use = fresh.none_used;
    total = omega (arith, fresh.none_used, fresh.no_capacity);
    within = omega (arith, fresh.no_capacity);
    small = omega arith;
    area_ok = rw reserved_whole ok;
  }

  -- On a page that is empty as `mi_page_init` asserts, with an area that is not null, aligned to 8
  -- bytes and within the address space, for a block size that fits the area at least once and less
  -- than 2^16 times, `mi_page_init` returns and leaves a valid page with at least one block, all
  -- of them free in the order of their addresses.
  pub page_init-IsPage :
      (t : State) × (page_init heap area page_size block_size s ≡ some t)
      × (k : ℕ) × (0 < k)
      × (t.page.capacity ≡ k)
      × IsPage area
          (actual_size page_size block_size)
          t
          (run area (actual_size page_size block_size) 0 k)
          []
          []
          []
  unfolding page_init
  page_init-IsPage =
      let one : 1 ≤ page_size / block_size = (le-div_iff_mul-le some_size).1 (omega arith) in
      let (t, result, pos, grown, valid) =
        extend_free-IsPage_any initial-IsPage page_size size_is_actual
          (omega (arith, one, fresh.no_capacity)) in
      let from : s.page.capacity ≡ 0 = fresh.no_capacity in
      let bsize = actual_size page_size block_size in
      let k = extend_count bsize (page_size / block_size % 2 ^ 16 - s.page.capacity) in
      (
        t,
        result,
        k,
        pos,
        omega (arith, grown, from),
        subst (λ c. IsPage area bsize t (run area bsize c k) [] [] []) from valid,
      )
