-- ===== src/Page/Invariant.antt =====
-- The free lists of a page as lists of blocks: the invariant that `mi_page_is_valid_init` of
-- mimalloc-custom/page.c asserts, `used + |free| + |local_free| == capacity`, where `used` counts the
-- blocks in use and those on the thread free list, with the owners of the blocks in use. The comment
-- above `mi_page_t` in mimalloc-custom/mimalloc-types.h subtracts `|thread_free|` here, which differs
-- when that list is not empty.
use mimalloc_mc.Prelude.{
  ℕ, zero, suc, ◌+◌, ◌*◌, ◌%◌, ◌^◌, ◌≤◌, ◌<◌, ◌≡◌, ◌≢◌, refl, inl, inr, Bool-cases, List, [], ◌∷◌,
  arith, ◌==◌,
}
use mimalloc_mc.Prelude.Lists.{length}
use mimalloc_mc.Prelude.Chain.{Chain, count}
use mimalloc_mc.Size.{word_mod}
use mimalloc_mc.ThreadFree.{tf_block}
use mimalloc_mc.ThreadFree.Tags.{IsBlockPointer}
use mimalloc_mc.Page.{State}
use mimalloc_mc.Page.Grow.{block_at}

-- The first `n` blocks of an area.
abbrev pub blocks : (area bsize n : ℕ) → List ℕ
blocks area bsize zero = []
blocks area bsize (suc n) = block_at area bsize n ∷ blocks area bsize n

pub length-blocks : (area bsize n : ℕ) → length (blocks area bsize n) ≡ n
length-blocks area bsize zero = refl
length-blocks area bsize (suc n) = omega (arith, length-blocks area bsize n)

-- An area for `n` blocks: aligned to words, not at null, within the address space.
pub record IsArea (area bsize n : ℕ) : Type 0 where
  pub some_size : 0 < bsize
  pub area_aligned : area % 8 ≡ 0
  pub size_aligned : bsize % 8 ≡ 0
  pub not_null : 0 < area
  pub in_space : area + n * bsize < word_mod

-- The lists `free`, `local` and `thread` of blocks, and the blocks `live` that programs hold.
pub record IsPage (area bsize : ℕ) (s : State) (free local thread live : List ℕ) : Type 0 where
  pub free_chain : Chain s.mem s.page.free free
  pub local_chain : Chain s.mem s.page.local_free local
  pub thread_chain : Chain s.mem (tf_block s.page.xthread_free) thread
  pub tag_word : s.page.xthread_free < word_mod
  -- Every block of the page is in one place, once, and nothing else is anywhere.
  pub parts :
      (a : ℕ)
      → count a free + count a local + count a thread + count a live
        ≡ count a (blocks area bsize s.page.capacity)
  pub in_use : s.page.used ≡ length thread + length live
  pub total : s.page.used + length free + length local ≡ s.page.capacity
  pub within : s.page.capacity ≤ s.page.reserved
  pub small : s.page.reserved < 2 ^ 16
  pub area_ok : IsArea area bsize s.page.reserved

mod_mul : (i b : ℕ) → b % 8 ≡ 0 → i * b % 8 ≡ 0
mod_mul zero b h = omega arith
mod_mul (suc i) b h = omega (arith, mod_mul i b h)

pub count_above :
    (area bsize n a : ℕ) → 0 < bsize → area + n * bsize ≤ a → count a (blocks area bsize n) ≡ 0
count_above area bsize zero a pos h = refl
count_above area bsize (suc n) a pos h =
    ground (arith, count_above area bsize n a pos (omega arith))

-- A block is counted once.
pub count-blocks_le : (area bsize n a : ℕ) → 0 < bsize → count a (blocks area bsize n) ≤ 1
count-blocks_le area bsize zero a pos = omega arith
count-blocks_le area bsize (suc n) a pos =
    ground (arith, count_above area bsize n a pos, count-blocks_le area bsize n a pos)

-- What is counted is a block: a pointer to a word that is not null.
pub blocks_pointer :
    (area bsize n r a : ℕ)
    → n ≤ r
    → IsArea area bsize r
    → 0 < count a (blocks area bsize n)
    → IsBlockPointer a × (a ≢ 0)
blocks_pointer area bsize zero r a le ok h = absurd (omega arith)
blocks_pointer area bsize (suc n) r a le ok h = elim (Bool-cases (a == block_at area bsize n)) [
  | inl e ↦
      let here : a ≡ area + n * bsize = ground arith in
      let below : n * bsize + bsize ≤ r * bsize = grind arith in
      rw here (
        (
          omega (arith, ok.in_space, ok.some_size),
          omega (arith, mod_mul n bsize ok.size_aligned, ok.area_aligned),
        ),
        λ z. omega (arith, ok.not_null, z),
      )
  | inr e ↦ blocks_pointer area bsize n r a (omega arith) ok (ground arith)
]

-- No block of a valid page stands in two of its lists, or twice in one.
pub parts_once :
    {area bsize : ℕ} {s : State} {free local thread live : List ℕ}
    → IsPage area bsize s free local thread live
    → (a : ℕ) → count a free + count a local + count a thread + count a live ≤ 1
parts_once {area} {bsize} {s} v a =
    omega (arith, v.parts a, count-blocks_le area bsize s.page.capacity a v.area_ok.some_size)

-- A block in one of the lists is a pointer and not null.
pub part_pointer :
    {area bsize : ℕ} {s : State} {free local thread live : List ℕ}
    → IsPage area bsize s free local thread live
    → (a : ℕ) → 0 < count a free + count a local + count a thread + count a live
    → IsBlockPointer a × (a ≢ 0)
part_pointer {area} {bsize} {s} v a h =
    blocks_pointer area bsize s.page.capacity s.page.reserved a v.within v.area_ok
      (omega (arith, v.parts a))
