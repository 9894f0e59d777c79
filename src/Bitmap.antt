-- ===== src/Bitmap.antt =====
-- The atomic bitmaps of mimalloc-custom/bitmap.inc.c, fields of 64 bits. A function runs from its
-- read to its compare-and-swap with no access of another thread in between; a compare-and-swap
-- that fails stands for such an access and is not modelled.
pub mod Mask
pub mod Claim
pub mod Search
mod Tests
use mimalloc_mc.Prelude.{
  ℕ, zero, suc, ◌+◌, ◌-◌, ◌*◌, ◌/◌, ◌%◌, ◌^◌, bit_and, bit_or, Bool, true, false, not, Option, none,
  some, ltb, leb, ◌==◌, if◌then◌else◌, update,
}
use mimalloc_mc.Size.{word, size_max, word_not}
use mimalloc_mc.Size.Bin.{bsr_rounds}

abbrev pub field_bits : ℕ
field_bits = 64

abbrev pub field_full : ℕ
field_full = size_max

-- The fields by their index.
abbrev pub Bitmap : Type 0
Bitmap = ℕ → ℕ

abbrev pub index_create : (idx bitidx : ℕ) → ℕ
index_create idx bitidx = idx * field_bits + bitidx

abbrev pub index_field : ℕ → ℕ
index_field bitmap_idx = bitmap_idx / field_bits

abbrev pub index_bit_in_field : ℕ → ℕ
index_bit_in_field bitmap_idx = bitmap_idx % field_bits

unfoldable pub mask_of : (count bitidx : ℕ) → ℕ
mask_of count bitidx =
    if count == field_bits then field_full else word ((2 ^ count - 1) * 2 ^ bitidx)

-- The index of the lowest digit, in a number with one among its first `n` digits.
unfoldable pub bsf_rounds : ℕ → ℕ → ℕ
bsf_rounds zero x = 0
bsf_rounds (suc n) x = let above = suc (bsf_rounds n (x / 2)) in if x % 2 == 1 then 0 else above

unfoldable pub bitmap_bsf : ℕ → ℕ
bitmap_bsf x = if x == 0 then 64 else bsf_rounds 64 x

unfoldable pub bitmap_bsr : ℕ → ℕ
bitmap_bsr x = if x == 0 then 64 else bsr_rounds 64 x

-- The field with the claimed bits, if they were free.
unfoldable pub try_claim_field : (count bitmap_idx : ℕ) → Bitmap → Bool × Bitmap
try_claim_field count bitmap_idx bitmap =
    let idx = index_field bitmap_idx in
    let mask = mask_of count (index_bit_in_field bitmap_idx) in
    let field = bitmap idx in
    if bit_and field mask == 0
    then (true, update bitmap idx (bit_or field mask))
    else (false, bitmap)

-- The scan of `mi_bitmap_try_find_claim_field` from `bitidx`: the position of the free bits.
unfoldable pub scan_field : (rounds : ℕ) → (map mask count bitidx : ℕ) → Option ℕ
scan_field zero map mask count bitidx = none
scan_field (suc rounds) map mask count bitidx =
    let m = word (mask * 2 ^ bitidx) in
    let shift = if count == 1 then 1 else bitmap_bsr (bit_and map m) - bitidx + 1 in
    let rest = scan_field rounds map mask count (bitidx + shift) in
    if leb bitidx (field_bits - count)
    then (if bit_and map m == 0 then some bitidx else rest)
    else none

-- What its compare-and-swap stores, and the index that it returns.
unfoldable pub claim_found : (idx count : ℕ) → Bitmap → Option ℕ → Option ℕ × Bitmap
claim_found idx count bitmap none = (none, bitmap)
claim_found idx count bitmap (some bitidx) = (
  some (index_create idx bitidx),
  update bitmap idx (bit_or (bitmap idx) (word (mask_of count 0 * 2 ^ bitidx))),
)

unfoldable pub try_find_claim_field : (idx count : ℕ) → Bitmap → Option ℕ × Bitmap
try_find_claim_field idx count bitmap =
    let map = bitmap idx in
    if map == field_full
    then (none, bitmap)
    else claim_found idx count bitmap
        (scan_field 65 map (mask_of count 0) count (bitmap_bsf (word_not map)))

unfoldable pub unclaim : (count bitmap_idx : ℕ) → Bitmap → Bool × Bitmap
unclaim count bitmap_idx bitmap =
    let idx = index_field bitmap_idx in
    let mask = mask_of count (index_bit_in_field bitmap_idx) in
    let prev = bitmap idx in
    (bit_and prev mask == mask, update bitmap idx (bit_and prev (word_not mask)))

-- The result, `*any_zero` and the bitmap.
unfoldable pub claim : (count bitmap_idx : ℕ) → Bitmap → Bool × Bool × Bitmap
claim count bitmap_idx bitmap =
    let idx = index_field bitmap_idx in
    let mask = mask_of count (index_bit_in_field bitmap_idx) in
    let prev = bitmap idx in
    (bit_and prev mask == 0, not (bit_and prev mask == mask), update bitmap idx (bit_or prev mask))

-- The result and `*any_ones`.
unfoldable pub is_claimedx : (count bitmap_idx : ℕ) → Bitmap → Bool × Bool
is_claimedx count bitmap_idx bitmap =
    let mask = mask_of count (index_bit_in_field bitmap_idx) in
    let field = bitmap (index_field bitmap_idx) in
    (bit_and field mask == mask, not (bit_and field mask == 0))

unfoldable pub is_claimed : (count bitmap_idx : ℕ) → Bitmap → Bool
is_claimed count bitmap_idx bitmap = (is_claimedx count bitmap_idx bitmap).0

unfoldable pub is_any_claimed : (count bitmap_idx : ℕ) → Bitmap → Bool
is_any_claimed count bitmap_idx bitmap = (is_claimedx count bitmap_idx bitmap).1
