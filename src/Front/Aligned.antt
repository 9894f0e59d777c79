-- ===== src/Front/Aligned.antt =====
-- Aligned allocation in mimalloc-custom/alloc-aligned.c: the place inside a larger block.
use native.Mathlib.Nat.{
  mod-eq_of_lt, mod-lt, mod-mod_of_dvd, dvd_of_mod-eq-zero, mul-mod_right, pow-le-pow_right,
}
use mimalloc_mc.Prelude.{
  ℕ, ◌+◌, ◌-◌, ◌*◌, ◌%◌, ◌^◌, ◌≤◌, ◌<◌, ◌≡◌, ◌≢◌, ◌⊎◌, refl, sym, ap, ◌∙◌, inl, inr, Bool, true,
  false, ltb, leb, ◌==◌, ◌&&◌, if◌then◌else◌, bit_and, arith, Bool-cases, ==_iff, ne→==,
}
use mimalloc_mc.Prelude.Bits.{bit_and_low, two_pow_pos, two_pow_add}
use mimalloc_mc.Size.{word, word_mod}
use mimalloc_mc.Size.Align.{next_multiple}
use mimalloc_mc.Size.{padding_size, medium_obj_size_max}
use mimalloc_mc.Size.Align.{is_power_of_two, is_power_of_two_iff}
use mimalloc_mc.Front.{
  Block, Core, ptrdiff_max, align_within, heap_malloc_zero, is_aligned_small,
  heap_malloc_zero_aligned_at,
}

module _ {S : Type 0} (core : Core S) where
  -- The aligned place inside of a larger block.
  align_within_lem :
      (k size offset : ℕ) (block : Block S)
      → block.ptr ≢ 0
      → block.ptr + offset < word_mod
      → block.ptr + size + 2 ^ k ≤ word_mod
      → let r = align_within core (2 ^ k) offset block in
        ((r.ptr + offset) % 2 ^ k ≡ 0)
        × (block.ptr ≤ r.ptr)
        × (r.ptr + size ≤ block.ptr + (size + 2 ^ k - 1))
  unfolding align_within
  align_within_lem k size offset block nz small fits =
      let pos = two_pow_pos k in
      let sum : word (block.ptr + offset) ≡ block.ptr + offset = mod-eq_of_lt small in
      let rest = mod-lt (block.ptr + offset) pos in
      rw (sum, bit_and_low k (block.ptr + offset), ne→== block.ptr 0 nz)
        (elim (Bool-cases (2 ^ k - (block.ptr + offset) % 2 ^ k == 2 ^ k)) [
          | inl already ↦ rw already (ground (arith, rest), omega arith, omega (arith, pos))
          | inr skip ↦
              let inside : word (block.ptr + (2 ^ k - (block.ptr + offset) % 2 ^ k))
                  ≡ block.ptr + (2 ^ k - (block.ptr + offset) % 2 ^ k) =
                mod-eq_of_lt (ground (arith, rest, pos)) in
              let order : block.ptr + (2 ^ k - (block.ptr + offset) % 2 ^ k) + offset
                  ≡ block.ptr + offset + (2 ^ k - (block.ptr + offset) % 2 ^ k) =
                omega arith in
              rw (skip, inside)
                (
                  ap (λ n. n % 2 ^ k) order ∙ next_multiple (block.ptr + offset) (2 ^ k) pos,
                  omega arith,
                  ground (arith, rest),
                )
        ])

  -- A place that was moved marks the page.
  align_within_state :
      (alignment offset : ℕ) (block : Block S)
      → block.ptr ≢ 0
      → let r = align_within core alignment offset block in
        (r ≡ block) ⊎ (r.state ≡ core.set_has_aligned block.ptr block.state)
  unfolding align_within
  align_within_state alignment offset block nz =
      let adjust = alignment - bit_and (word (block.ptr + offset)) (alignment - 1) in
      let aligned = if adjust == alignment then block.ptr else word (block.ptr + adjust) in
      rw (ne→== block.ptr 0 nz) (elim (Bool-cases (aligned == block.ptr)) [
        | inl same ↦ rw same (inl (rw ((==_iff _ _).0 same) refl))
        | inr moved ↦ rw moved (inr refl)
      ])

  -- An address is a multiple of 8 when it is one plus an offset that is.
  words_aligned : (k a offset : ℕ) → 3 ≤ k → offset % 8 ≡ 0 → (a + offset) % 2 ^ k ≡ 0 → a % 8 ≡ 0
  words_aligned k a offset low words e =
      let split : 2 ^ k ≡ 2 ^ 3 * 2 ^ (k - 3) =
        ap (λ n. 2 ^ n) (omega (arith, low)) ∙ two_pow_add 3 (k - 3) in
      let divides = dvd_of_mod-eq-zero 8 (ap (λ n. n % 8) split ∙ mul-mod_right 8 (2 ^ (k - 3))) in
      let small : (a + offset) % 8 ≡ 0 =
        sym (mod-mod_of_dvd 8 (a + offset) divides) ∙ ap (λ n. n % 8) e in
      omega (arith, words, small)

  -- The regular allocation is aligned already.
  abbrev pub is_regular : (size alignment offset : ℕ) → Bool
  is_regular size alignment offset =
      let padsize = word (size + padding_size) in
      (offset == 0)
      && leb alignment padsize
      && leb padsize medium_obj_size_max
      && (bit_and padsize (alignment - 1) == 0)

  -- For an alignment that is a power of two from 8 on, an offset that is a multiple of 8, and a size
  -- that an object may have, when neither the first block of the small page nor a regular block is
  -- known to be aligned, `mi_heap_malloc_zero_aligned_at` allocates a block that is larger by the
  -- alignment less one. When that is not null, and the block with the alignment and the offset lies
  -- within the address space, the place that is returned has the offset behind it aligned, is itself a multiple of 8, as the code asserts, and lies in the block with room for the
  -- size; and it is the block itself, or the page of the block is marked as one with aligned blocks.
  pub aligned_at_lem :
      (k size offset : ℕ) (zero_it : Bool) (st : S)
      → 3 ≤ k
      → k < 64
      → offset % 8 ≡ 0
      → size ≤ ptrdiff_max
      → is_aligned_small core (word (size + padding_size)) (2 ^ k) offset st ≡ false
      → is_regular size (2 ^ k) offset ≡ false
      → let block = heap_malloc_zero core (word (size + 2 ^ k - 1)) zero_it st in
        let r = heap_malloc_zero_aligned_at core size (2 ^ k) offset zero_it st in
        block.ptr ≢ 0
        → block.ptr + offset < word_mod
        → block.ptr + size + 2 ^ k ≤ word_mod
        → ((r.ptr + offset) % 2 ^ k ≡ 0)
          × (r.ptr % 8 ≡ 0)
          × (block.ptr ≤ r.ptr)
          × (r.ptr + size ≤ block.ptr + (size + 2 ^ k - 1))
          × ((r ≡ block) ⊎ (r.state ≡ core.set_has_aligned block.ptr block.state))
  unfolding heap_malloc_zero_aligned_at
  aligned_at_lem k size offset zero_it st low high words fits slow irregular nz small room =
      let block = heap_malloc_zero core (word (size + 2 ^ k - 1)) zero_it st in
      let pos = two_pow_pos k in
      let bound : 2 ^ k ≤ 2 ^ 63 =
        pow-le-pow_right {n = 2} (omega arith) {j = 63} (omega (arith, high)) in
      let power : is_power_of_two (2 ^ k) ≡ true =
        (is_power_of_two_iff (2 ^ k) (omega (arith, bound))).1 (inr (k, refl)) in
      let some_size : ltb ptrdiff_max size ≡ false = ground (arith, fits) in
      let some_alignment : (2 ^ k == 0) ≡ false = ne→== (2 ^ k) 0 (λ z. omega (arith, pos, z)) in
      let state = align_within_state (2 ^ k) offset block in
      rw (some_size, some_alignment, power, slow, irregular)
        (let (aligned, from, to) = align_within_lem k size offset block nz small room in
          (aligned, words_aligned k _ offset low words aligned, from, to, state nz))
