-- ===== src/Abandoned/Tags.antt =====
-- The tag of the word `abandoned`.

use mimalloc_mc.Prelude.{ℕ, suc, ◌+◌, ◌%◌, ◌^◌, ◌<◌, ◌≡◌, ap, arith}
use mimalloc_mc.Prelude.Bits.{bit_or_disjoint, bit_and_low}
use mimalloc_mc.Size.{word_mod, segment_size}
use mimalloc_mc.Size.Align.{clear_low}
use mimalloc_mc.Abandoned.{tagged_segment_ptr, tagged_segment}

-- An address of a segment, or null.
pub record IsBase (segment : ℕ) : Type 0 where
  pub aligned : segment % segment_size ≡ 0
  pub address : segment < word_mod

-- The tag is what the address leaves.
abbrev pub tag_of : ℕ → ℕ
tag_of ts = ts % segment_size

tagged_segment_lem :
    (segment ts : ℕ)
    → IsBase segment
    → tagged_segment segment ts ≡ segment + (tag_of ts + 1) % segment_size
unfolding tagged_segment
tagged_segment_lem segment ts v =
    rw (bit_and_low 17 ts, bit_and_low 17 (ts % 2 ^ 17 + 1))
      (bit_or_disjoint 17 segment ((ts % 2 ^ 17 + 1) % 2 ^ 17) v.aligned (omega arith))

-- A tagged word holds the segment's address, and its tag is the next of the tag of the word before.
pub ptr-tagged_segment :
    (segment ts : ℕ)
    → IsBase segment
    → (tagged_segment_ptr (tagged_segment segment ts) ≡ segment)
      × (tag_of (tagged_segment segment ts) ≡ (tag_of ts + 1) % segment_size)
unfolding tagged_segment_ptr
ptr-tagged_segment segment ts v =
    let e = tagged_segment_lem segment ts v in
    let fits : segment + (tag_of ts + 1) % segment_size < word_mod =
      omega (arith, v.aligned, v.address) in
    rw e (
      omega (
        arith,
        clear_low 17 (segment + (tag_of ts + 1) % segment_size) (omega arith) fits,
        v.aligned,
      ),
      omega (arith, v.aligned),
    )

-- The word after a number of updates, each with the address of some segment, or null.
pub data Updates (ts : ℕ) : (n t : ℕ) → Type 0 where
  no_update : Updates ts 0 ts
  then_update :
      {n t : ℕ} (segment : ℕ)
      → Updates ts n t
      → IsBase segment
      → Updates ts (suc n) (tagged_segment segment t)

tag-Updates : {ts n t : ℕ} → Updates ts n t → tag_of t ≡ (tag_of ts + n) % segment_size
tag-Updates no_update = omega arith
tag-Updates (then_update {n} {t} segment u v) =
    omega (arith, tag-Updates u, (ptr-tagged_segment segment t v).1)

-- When a compare-and-swap finds the word that was read before, and less than 2^17 updates have
-- happened since, then none has: no list that was changed in between is taken for the old one, even
-- if it has the same first segment.
pub same_word-no_update : {ts n t : ℕ} → Updates ts n t → n < segment_size → t ≡ ts → n ≡ 0
same_word-no_update {ts} {n} {t} u few same = omega (arith, tag-Updates u, ap tag_of same)
