-- ===== src/Front/Tests.antt =====
-- A core that never gives an address twice: the state is the list of the live blocks, which all have
-- room for 2^32 bytes.
use mimalloc_mc.Prelude.{
  ℕ, ◌+◌, ◌-◌, ◌%◌, ◌*◌, ◌^◌, ◌≤◌, ◌≡◌, ◌⊎◌, refl, List, [], ◌∷◌, false, ltb, leb, ◌==◌,
  if◌then◌else◌, arith,
}
use mimalloc_mc.Size.{word, word_mod, padding_size}
use mimalloc_mc.Front.{
  Block, Core, heap_malloc, heap_malloc_small, heap_malloc_zero, heap_zalloc, heap_realloc_zero,
  heap_realloc, heap_rezalloc, heap_reallocf, fits_still, is_aligned_small,
  heap_malloc_zero_aligned_at,
}
use mimalloc_mc.Front.Counted.{Results, null_block, counted_lem}
use mimalloc_mc.Front.Aligned.{aligned_at_lem}

abbrev drop_block : ℕ → List ℕ → List ℕ
drop_block p [] = []
drop_block p (x ∷ xs) = let rest = drop_block p xs in if p == x then rest else x ∷ rest

abbrev sum : List ℕ → ℕ
sum [] = 0
sum (x ∷ xs) = x + sum xs

abbrev bump : List ℕ → Block (List ℕ)
bump xs = record { ptr = 1 + sum xs; state = (1 + sum xs) ∷ xs }

abbrev bumping : Core (List ℕ)
bumping = record {
  page_malloc = λ n xs. bump xs;
  malloc_generic = λ n xs.
      if ltb (2 ^ 32) (word (n + word_mod - padding_size))
      then record { ptr = 0; state = xs }
      else bump xs;
  free = drop_block;
  usable_size = λ xs q. 2 ^ 32;
  zero_init = λ p size xs. xs;
  small_page_free = λ n xs. 0;
  set_has_aligned = λ p xs. xs;
}

abbrev two_live : List ℕ
two_live = 5 ∷ 9 ∷ []

abbrev overflowing : ℕ
overflowing = 2 ^ 33

counted_example :
    if leb word_mod (overflowing * overflowing)
    then Results bumping 9 overflowing overflowing two_live
        (null_block bumping two_live)
        (null_block bumping two_live)
        (null_block bumping two_live)
        (null_block bumping two_live)
    else Results bumping 9 overflowing overflowing two_live
        (heap_zalloc bumping (overflowing * overflowing) two_live)
        (heap_malloc bumping (overflowing * overflowing) two_live)
        (heap_realloc bumping 9 (overflowing * overflowing) two_live)
        (heap_rezalloc bumping 9 (overflowing * overflowing) two_live)
counted_example = counted_lem bumping 9 overflowing overflowing two_live (omega arith)

moved : (heap_realloc_zero bumping 9 100 false two_live).ptr ≡ 15
unfolding heap_realloc_zero heap_malloc heap_malloc_small fits_still
moved = refl

freed : (heap_reallocf bumping 9 overflowing two_live).state ≡ 5 ∷ []
unfolding heap_reallocf heap_realloc heap_realloc_zero heap_malloc fits_still
freed = refl

-- The next block is at 1000.
abbrev live_to_999 : List ℕ
live_to_999 = 999 ∷ []

aligned_at_example :
    let block = heap_malloc_zero bumping (word (100 + 2 ^ 6 - 1)) false live_to_999 in
    let r = heap_malloc_zero_aligned_at bumping 100 (2 ^ 6) 8 false live_to_999 in
    ((r.ptr + 8) % 2 ^ 6 ≡ 0)
    × (r.ptr % 8 ≡ 0)
    × (block.ptr ≤ r.ptr)
    × (r.ptr + 100 ≤ block.ptr + (100 + 2 ^ 6 - 1))
    × ((r ≡ block) ⊎ (r.state ≡ bumping.set_has_aligned block.ptr block.state))
unfolding is_aligned_small heap_malloc_zero heap_malloc heap_malloc_small
aligned_at_example =
    aligned_at_lem bumping 6 100 8 false live_to_999 (omega arith) (omega arith) refl (omega arith)
      refl refl (omega arith) (omega arith) (omega arith)
