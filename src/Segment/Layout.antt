-- ===== src/Segment/Layout.antt =====
-- Where the pages of a segment are: `_mi_segment_page_start`, `_mi_ptr_segment` and
-- `_mi_segment_page_idx_of` agree with one another.
use native.Mathlib.Nat.{mul-le-mul_right, pow-le-pow_right, div-eq_of_lt-le, mod-eq_of_lt, mod-lt}
use mimalloc_mc.Prelude.{
  ℕ, suc, ◌+◌, ◌-◌, ◌*◌, ◌%◌, ◌^◌, ◌≤◌, ◌<◌, ◌≡◌, refl, inl, inr, arith, true, false, ltb, ◌==◌,
  ◌&&◌, if◌then◌else◌, Bool-cases, ne→==, eq→==,
}
use mimalloc_mc.Size.{word_mod, word, segment_size}
use mimalloc_mc.Size.Align.{clear_low, next_multiple, align_up, align_up-IsAlignedUp}
use mimalloc_mc.Segment.{
  Segment, Area, adjust_start, is_huge, is_at_most_medium, word_sub, raw_page_start, page_start,
  ptr_segment, page_idx_of, sizeof_segment, sizeof_page, page_huge_align, segment_sizes,
}

-- The pages of a segment of small, medium or large pages fill it; its own data is in the first.
pub record IsLaidOut (base : ℕ) (s : Segment) : Type 0 where
  pub aligned : base % segment_size ≡ 0
  pub fits : base + segment_size < word_mod
  pub regular : is_huge s.page_kind ≡ false
  pub shift : s.page_shift ≤ 17
  pub full : s.capacity * 2 ^ s.page_shift ≡ segment_size
  pub info : s.segment_info_size < 2 ^ s.page_shift
  pub indexed : (i : ℕ) → i < s.capacity → (s.pages i).segment_idx ≡ i

-- The addresses of the page with the index `i`.
abbrev pub InPage : (base : ℕ) → Segment → (i a : ℕ) → Type 0
InPage base s i a =
    (base + i * 2 ^ s.page_shift ≤ a) × (a < base + i * 2 ^ s.page_shift + 2 ^ s.page_shift)

-- The area without the bytes before the first multiple of the block size.
adjusted :
    (raw : Area) (d : ℕ)
    → 0 < d
    → d ≤ raw.size
    → raw.start + raw.size < word_mod
    → let area = adjust_start raw d in
      (raw.start ≤ area.start)
      × (area.start + area.size ≡ raw.start + raw.size)
      × (area.start % d ≡ 0)
unfolding adjust_start
adjusted raw d pos room fits =
    let r = mod-lt raw.start pos in
    let adjust : word_sub d (raw.start % d) ≡ d - raw.start % d = omega arith in
    rw adjust (elim (Bool-cases (ltb (d - raw.start % d) d)) [
      | inl less ↦
          let start : word (raw.start + (d - raw.start % d)) ≡ raw.start + (d - raw.start % d) =
            omega arith in
          rw (less, start) (omega arith, omega arith, next_multiple raw.start d pos)
      | inr even ↦ rw even (omega arith, refl, ground arith)
    ])

-- A page is inside its segment.
pub below_end :
    {base : ℕ} {s : Segment} (i : ℕ)
    → IsLaidOut base s
    → i < s.capacity
    → i * 2 ^ s.page_shift + 2 ^ s.page_shift ≤ segment_size
below_end {s = s} i v h =
    omega (
      arith,
      v.full,
      mul-le-mul_right {m = suc i} {n = s.capacity} (2 ^ s.page_shift) (omega arith),
    )

module _ {base : ℕ} {s : Segment} (v : IsLaidOut base s) where
  size_of_page : word (2 ^ s.page_shift) ≡ 2 ^ s.page_shift
  size_of_page = mod-eq_of_lt (omega (arith, pow-le-pow_right {n = 2} (omega arith) v.shift))

  -- Clearing the low digits of any address in a page gives the segment, and the distance from there
  -- shifted by the size of the pages gives the page's index.
  pub ptr_segment-InPage : (i a : ℕ) → i < s.capacity → InPage base s i a → ptr_segment a ≡ base
  unfolding ptr_segment
  ptr_segment-InPage i a h p =
      let e = below_end i v h in
      omega (arith, clear_low 17 a (omega arith) (omega (arith, v.fits, p)), v.aligned, v.fits, p)

  pub page_idx_of-InPage : (i a : ℕ) → i < s.capacity → InPage base s i a → page_idx_of base s a ≡ i
  unfolding page_idx_of
  page_idx_of-InPage i a h p =
      let e = below_end i v h in
      let d : word_sub a base ≡ a - base = omega (arith, p, v.fits) in
      rw d (
        div-eq_of_lt-le {k = i} (2 ^ s.page_shift) {m = a - base} (omega (arith, p))
          (omega (arith, p)))

  -- The raw area of a page is the page, without the segment's own data.
  raw_area :
      (i : ℕ)
      → i < s.capacity
      → let raw = raw_page_start base s (s.pages i) in
        (raw.start ≡ base + i * 2 ^ s.page_shift + (if i == 0 then s.segment_info_size else 0))
        × (raw.start + raw.size ≡ base + i * 2 ^ s.page_shift + 2 ^ s.page_shift)
  unfolding raw_page_start
  raw_area i h =
      let e = below_end i v h in
      rw (v.regular, size_of_page, v.indexed i h)
        (elim (Bool-cases (i == 0)) [
          | inl first ↦
              rw first (omega (arith, e, v.fits, v.info), omega (arith, e, v.fits, v.info))
          | inr other ↦ rw other (omega (arith, e, v.fits), omega (arith, e, v.fits))
        ])

  -- The area of a page for blocks that fit into it is within the page, it starts behind the
  -- segment's own data, and if it is the first page of a segment of small or medium pages, at a
  -- multiple of the block size.
  pub page_start-within :
      (i block_size : ℕ)
      → i < s.capacity
      → s.segment_info_size + block_size ≤ 2 ^ s.page_shift
      → let area = page_start base s (s.pages i) block_size in
        (base + i * 2 ^ s.page_shift + (if i == 0 then s.segment_info_size else 0) ≤ area.start)
        × (area.start + area.size ≡ base + i * 2 ^ s.page_shift + 2 ^ s.page_shift)
        × (i ≡ 0
            → 0 < block_size
            → is_at_most_medium s.page_kind ≡ true
            → area.start % block_size ≡ 0)
  unfolding page_start
  page_start-within i block_size h room =
      let (from, to) = raw_area i h in
      let e = below_end i v h in
      elim (Bool-cases
        (((s.pages i).segment_idx == 0) && ltb 0 block_size && is_at_most_medium s.page_kind)) [
          | inl aligned ↦
              let pos : 0 < block_size = ground arith in
              let own : (if i == 0 then s.segment_info_size else 0) ≤ s.segment_info_size =
                ground arith in
              let (up, same, multiple) =
                adjusted (raw_page_start base s (s.pages i)) block_size pos
                  (omega (arith, from, to, room, own)) (omega (arith, to, e, v.fits)) in
              rw aligned (omega (arith, up, from), omega (arith, same, to), λ _ _ _. multiple)
          | inr plain ↦ rw plain (
            omega (arith, from),
            to,
            λ z pos kind. absurd (
                let index : (s.pages i).segment_idx ≡ 0 = omega (arith, v.indexed i h, z) in
                ground arith),
          )
        ]

  -- In a segment of small, medium or large pages, for a block size that fits a page behind the
  -- segment's own data, the segment and the index of a page are found again from any byte of its area
  -- for blocks, so a block that is freed finds its page.
  pub ptr-page_start :
      (i block_size a : ℕ)
      → i < s.capacity
      → s.segment_info_size + block_size ≤ 2 ^ s.page_shift
      → let area = page_start base s (s.pages i) block_size in
        area.start ≤ a
        → a < area.start + area.size
        → (ptr_segment a ≡ base) × (page_idx_of base s a ≡ i)
  ptr-page_start i block_size a h room lo hi =
      let (from, to, _) = page_start-within i block_size h room in
      let here : InPage base s i a = (omega (arith, from, lo), omega (arith, to, hi)) in
      (ptr_segment-InPage i a h here, page_idx_of-InPage i a h here)

-- For a required size whose sum with the sizes of the segment's own data and of the alignment is a
-- word, the total size of a segment has room for both, and the place of the data is a multiple of 256
-- that has room for the segment and its pages.
pub segment_sizes_lem :
    (capacity required : ℕ)
    → 0 < capacity
    → capacity < 2 ^ 16
    → required + 2 ^ 24 < word_mod
    → let sizes = segment_sizes capacity required in
      (sizeof_segment + (capacity - 1) * sizeof_page < sizes.info_size)
      × (sizes.info_size % 256 ≡ 0)
      × (0 < required
          → (required + sizes.info_size ≤ sizes.total) × (sizes.total % page_huge_align ≡ 0))
      × (required ≡ 0 → sizes.total ≡ segment_size)
unfolding segment_sizes
segment_sizes_lem capacity required pos few fits =
    let minsize : word (sizeof_segment + (capacity - 1) * sizeof_page + 16)
        ≡ sizeof_segment + (capacity - 1) * sizeof_page + 16 =
      omega arith in
    let own =
      align_up-IsAlignedUp (sizeof_segment + (capacity - 1) * sizeof_page + 16) 256 (omega arith)
        (omega arith) in
    let isize = align_up (sizeof_segment + (capacity - 1) * sizeof_page + 16) 256 in
    let small : isize < 2 ^ 23 = omega (arith, own.near) in
    let sum : word (required + isize) ≡ required + isize = omega (arith, small) in
    let whole =
      align_up-IsAlignedUp (required + isize) page_huge_align (omega arith)
        (omega (arith, small)) in
    rw minsize (
      omega (arith, own.above),
      own.multiple,
      λ nz. rw (ne→== required 0 (omega (arith, nz)), sum) (whole.above, whole.multiple),
      λ z. rw (eq→== required 0 z) refl,
    )
