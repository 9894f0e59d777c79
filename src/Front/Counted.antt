-- ===== src/Front/Counted.antt =====
-- The allocation functions that take a count and a size: `mi_heap_calloc`, `mi_heap_mallocn`,
-- `mi_heap_reallocn` and `mi_heap_recalloc` of mimalloc-custom/alloc.c.
use mimalloc_mc.Prelude.{ℕ, ◌*◌, ◌<◌, ◌≡◌, refl, inl, inr, Bool-cases, leb, if◌then◌else◌}
use mimalloc_mc.Size.{word_mod}
use mimalloc_mc.Size.Count.{count_size_overflow_lem}
use mimalloc_mc.Front.{
  Block, Core, heap_calloc, heap_zalloc, heap_mallocn, heap_malloc, heap_reallocn, heap_realloc,
  heap_recalloc, heap_rezalloc,
}

-- What the four functions return and leave.
pub record Results {S : Type 0} (core : Core S) (p count size : ℕ) (st : S)
    (calloc mallocn reallocn recalloc : Block S) : Type 0 where
  pub calloc_is : heap_calloc core count size st ≡ calloc
  pub mallocn_is : heap_mallocn core count size st ≡ mallocn
  pub reallocn_is : heap_reallocn core p count size st ≡ reallocn
  pub recalloc_is : heap_recalloc core p count size st ≡ recalloc

module _ {S : Type 0} (core : Core S) where
  -- Null, with nothing changed.
  abbrev pub null_block : S → Block S
  null_block st = record { ptr = 0; state = st }

  -- For a size that is a word: when the product of count and size does not fit a word, `mi_heap_calloc`,
  -- `mi_heap_mallocn`, `mi_heap_reallocn` and `mi_heap_recalloc` return null and change nothing, so a
  -- block that was to be reallocated is still there; when it does, they are the functions without a
  -- count for that product, zeroing in the first and the last case.
  pub counted_lem :
      (p count size : ℕ) (st : S)
      → size < word_mod
      → (if leb word_mod (count * size)
          then Results core p count size st
              (null_block st)
              (null_block st)
              (null_block st)
              (null_block st)
          else Results core p count size st
              (heap_zalloc core (count * size) st)
              (heap_malloc core (count * size) st)
              (heap_realloc core p (count * size) st)
              (heap_rezalloc core p (count * size) st))
  unfolding heap_calloc heap_mallocn heap_reallocn heap_recalloc
  counted_lem p count size st fits =
      let e = count_size_overflow_lem count size fits in
      elim (Bool-cases (leb word_mod (count * size))) [
        | inl big ↦ rw big (record {
          calloc_is = rw (e, big) refl;
          mallocn_is = rw (e, big) refl;
          reallocn_is = rw (e, big) refl;
          recalloc_is = rw (e, big) refl;
        })
        | inr fine ↦ rw fine (record {
          calloc_is = rw (e, fine) refl;
          mallocn_is = rw (e, fine) refl;
          reallocn_is = rw (e, fine) refl;
          recalloc_is = rw (e, fine) refl;
        })
      ]
