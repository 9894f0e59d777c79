-- ===== src/System/Ids.antt =====
-- The identifiers of memory: `mi_memid_create`, `mi_memid_create_from_arena` and `mi_memid_is_arena`
-- of mimalloc-custom/region.c, `mi_arena_id_create` and `mi_arena_id_indices` of
-- mimalloc-custom/arena.c. A region is named by its index in the array `regions`.
use mimalloc_mc.Prelude.{
  ℕ, ◌+◌, ◌*◌, ◌/◌, ◌%◌, ◌^◌, ◌<◌, ◌≡◌, ◌≢◌, refl, ◌∙◌, arith, ◌==◌, if◌then◌else◌, bit_and, bit_or,
}
use mimalloc_mc.Prelude.Bits.{bit_and_low, bit_or_disjoint}
use mimalloc_mc.Size.{word, word_mod}
use mimalloc_mc.Bitmap.{field_bits}
use mimalloc_mc.Segment.{word_sub}

-- What `mi_memid_is_arena` finds in an identifier.
pub data Origin : Type 0 where
  from_arena : (arena_memid : ℕ) → Origin
  from_region : (region bit_idx : ℕ) → Origin

unfoldable pub memid_create : (region bit_idx : ℕ) → ℕ
memid_create region bit_idx = word ((region * field_bits + bit_idx) * 2)

unfoldable pub memid_create_from_arena : (arena_memid : ℕ) → ℕ
memid_create_from_arena arena_memid = bit_or (word (arena_memid * 2)) 1

unfoldable pub memid_is_arena : (id : ℕ) → Origin
memid_is_arena id =
    if bit_and id 1 == 1
    then from_arena (id / 2)
    else from_region (id / 2 / field_bits) (id / 2 % field_bits)

unfoldable pub arena_id_create : (arena_index bitmap_index : ℕ) → ℕ
arena_id_create arena_index bitmap_index =
    bit_or (word (bitmap_index * 2 ^ 8)) (bit_and (arena_index + 1) 255)

-- The arena and the block of an identifier.
unfoldable pub arena_id_indices : (memid : ℕ) → ℕ × ℕ
arena_id_indices memid = (word_sub (bit_and memid 255) 1, memid / 2 ^ 8)

odd_id : (m : ℕ) → m < 2 ^ 63 → memid_create_from_arena m ≡ m * 2 + 1
unfolding memid_create_from_arena
odd_id m h =
    let whole : word (m * 2) ≡ m * 2 = omega arith in
    rw whole (bit_or_disjoint 1 (m * 2) 1 (omega arith) (omega arith))

arena_id : (a b : ℕ) → a < 254 → b < 2 ^ 56 → arena_id_create a b ≡ b * 2 ^ 8 + (a + 1)
unfolding arena_id_create
arena_id a b ha hb =
    let whole : word (b * 2 ^ 8) ≡ b * 2 ^ 8 = omega arith in
    let low : bit_and (a + 1) 255 ≡ a + 1 = bit_and_low 8 (a + 1) ∙ omega arith in
    rw (whole, low) (bit_or_disjoint 8 (b * 2 ^ 8) (a + 1) (omega arith) (omega arith))

-- The identifier of a block of a region, and that of an arena's memory, are told apart and give back
-- what they were made of, for identifiers that fit a word and a block within a field.
pub memid_roundtrip :
    (region bit_idx arena_memid : ℕ)
    → bit_idx < field_bits
    → (region * field_bits + bit_idx) * 2 < word_mod
    → arena_memid < 2 ^ 63
    → (memid_is_arena (memid_create region bit_idx) ≡ from_region region bit_idx)
      × (memid_is_arena (memid_create_from_arena arena_memid) ≡ from_arena arena_memid)
unfolding memid_create memid_is_arena
memid_roundtrip region bit_idx arena_memid inside fits few =
    let id = (region * field_bits + bit_idx) * 2 in
    let whole : word id ≡ id = omega (arith, fits) in
    let even : bit_and id 1 ≡ 0 = bit_and_low 1 id ∙ omega arith in
    let half : id / 2 ≡ region * field_bits + bit_idx = omega arith in
    let odd : bit_and (arena_memid * 2 + 1) 1 ≡ 1 =
      bit_and_low 1 (arena_memid * 2 + 1) ∙ omega arith in
    let half' : (arena_memid * 2 + 1) / 2 ≡ arena_memid = omega arith in
    let region' : (region * field_bits + bit_idx) / field_bits ≡ region = omega (arith, inside) in
    let bit' : (region * field_bits + bit_idx) % field_bits ≡ bit_idx = omega (arith, inside) in
    (rw (whole, even, half, region', bit') refl, rw (odd_id arena_memid few, odd, half') refl)

-- The identifier of a block in an arena gives back the arena and the block, and is not the one of
-- memory that comes from the operating system, for an arena index below 0xFE and a block index of at
-- most 56 bits.
pub arena_id_roundtrip :
    (arena_index bitmap_index : ℕ)
    → arena_index < 254
    → bitmap_index < 2 ^ 56
    → (arena_id_indices (arena_id_create arena_index bitmap_index) ≡ (arena_index, bitmap_index))
      × (arena_id_create arena_index bitmap_index ≢ 0)
unfolding arena_id_indices
arena_id_roundtrip a b ha hb =
    let id = b * 2 ^ 8 + (a + 1) in
    let low : bit_and id 255 ≡ a + 1 = bit_and_low 8 id ∙ omega (arith, ha) in
    let index : word_sub (a + 1) 1 ≡ a = omega (arith, ha) in
    let high : id / 2 ^ 8 ≡ b = omega (arith, ha) in
    rw (arena_id a b ha hb) (rw (low, index, high) refl, λ e. omega (arith, e))
