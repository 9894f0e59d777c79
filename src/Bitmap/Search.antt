-- ===== src/Bitmap/Search.antt =====
-- The search for free bits in one field, `mi_bitmap_try_find_claim_field`.
use mimalloc_mc.Prelude.{
  ℕ, zero, suc, ◌+◌, ◌-◌, ◌*◌, ◌/◌, ◌%◌, ◌^◌, ◌≤◌, ◌<◌, ◌≡◌, ◌≢◌, refl, ap, ◌∙◌, inl, inr, bit_and,
  Option, none, some, true, false, ltb, leb, ◌==◌, if◌then◌else◌, arith, ==_iff, eq→==, ==→ne,
  Bool-cases, leb→le,
}
use native.Mathlib.Nat.{pow-le-pow_right}
use mimalloc_mc.Prelude.Bits.{bit, bit-lt, bit-zero, bit-bit_and, bit_and-le, two_pow_suc}
use mimalloc_mc.Size.{word, word_mod, size_max, word_not}
use mimalloc_mc.Size.Bin.{bsr_rounds}
use mimalloc_mc.Size.Bin.Bsr.{bsr_rounds-IsHighest}
use mimalloc_mc.Bitmap.{
  Bitmap, index_create, try_claim_field, claim_found, try_find_claim_field, mask_of, bitmap_bsr,
  bsf_rounds, bitmap_bsf, scan_field,
}
use mimalloc_mc.Bitmap.Mask.{inside, bit-mask, mask-lt, none_set_bits, none_set_word, bit-word_not}

-- `count` free bits from `p` on.
pub record IsFree (map count p : ℕ) : Type 0 where
  pub within : count + p ≤ 64
  pub zeros : (i : ℕ) → i < 64 → inside count p i ≡ true → bit i map ≡ 0

-- The first place, or none at all.
pub data FirstFit (map count : ℕ) : Option ℕ → Type 0 where
  found :
      {p : ℕ}
      → IsFree map count p
      → ((q : ℕ) → q < p → IsFree map count q → ⊥)
      → FirstFit map count (some p)
  full : ((q : ℕ) → IsFree map count q → ⊥) → FirstFit map count none

bit-highest : (h x : ℕ) → 2 ^ h ≤ x → x < 2 ^ suc h → bit h x ≡ 1
bit-highest zero x lo hi = omega (arith, two_pow_suc 0)
bit-highest (suc h) x lo hi =
    bit-highest h (x / 2) (omega (arith, two_pow_suc h)) (omega (arith, two_pow_suc (suc h)))

highest-lt : (h x : ℕ) → 2 ^ h ≤ x → x < word_mod → h < 64
highest-lt h x lo fits = elim (Bool-cases (leb 64 h)) [
  | inl big ↦
      absurd
        (omega (arith, pow-le-pow_right {n = 2} (omega arith) {i = 64} {j = h} (leb→le 64 h big)))
  | inr small ↦ ground arith
]

lowest :
    (n x : ℕ)
    → 0 < x
    → x < 2 ^ n
    → (bit (bsf_rounds n x) x ≡ 1) × ((i : ℕ) → i < bsf_rounds n x → bit i x ≡ 0)
unfolding bsf_rounds
lowest zero x pos fits = absurd (omega arith)
lowest (suc n) x pos fits = elim (Bool-cases (x % 2 == 1)) [
  | inl odd ↦ rw odd (ground arith, λ i lt. absurd (omega (arith, lt)))
  | inr even ↦
      let half = lowest n (x / 2) (ground arith) (omega (arith, two_pow_suc n)) in
      rw even (half.0, below half.1 (ground arith))
]
  where
    below :
        ((i : ℕ) → i < bsf_rounds n (x / 2) → bit i (x / 2) ≡ 0)
        → x % 2 ≡ 0
        → (i : ℕ) → i < suc (bsf_rounds n (x / 2))
        → bit i x ≡ 0
    below h e zero lt = e
    below h e (suc i) lt = h i (omega arith)

mask_shift : (c b : ℕ) → c + b ≤ 64 → word (mask_of c 0 * 2 ^ b) ≡ mask_of c b
unfolding mask_of
mask_shift c b h = elim (Bool-cases (c == 64)) [
  | inl whole ↦ let none : b ≡ 0 = ground arith in rw (whole, none) refl
  | inr part ↦
      let low : word ((2 ^ c - 1) * 2 ^ 0) ≡ 2 ^ c - 1 = omega (arith, mask-lt c 0 (omega arith)) in
      rw (part, low) refl
]

module _ (map count : ℕ) (fits : map < word_mod) (some_bits : 0 < count)
    (in_field : count ≤ 64) where
  -- The highest claimed bit among the wanted ones rules out every place up to it.
  blocked :
      (b : ℕ)
      → count + b ≤ 64
      → bit_and map (mask_of count b) ≢ 0
      → let h = bsr_rounds 64 (bit_and map (mask_of count b)) in
        (b ≤ h) × (h < b + count) × ((q : ℕ) → b ≤ q → q ≤ h → IsFree map count q → ⊥)
  blocked b room ne =
      let x = bit_and map (mask_of count b) in
      let small : x < word_mod =
        omega (arith, bit_and-le map map (mask_of count b) (omega arith)) in
      let high = bsr_rounds-IsHighest 64 x (omega (arith, ne)) small in
      let h = bsr_rounds 64 x in
      let one = bit-highest h x high.reached high.none_above in
      let lt = highest-lt h x high.reached small in
      let both = bit-bit_and h map (mask_of count b) in
      let place = bit-mask count b h room lt in
      (
        ground (arith, one, both, place, bit-lt h map),
        ground (arith, one, both, place, bit-lt h map),
        λ q lo hi free. ground (arith, one, both, place, bit-lt h map, free.zeros h lt),
      )

  shift_of :
      (b : ℕ)
      → count + b ≤ 64
      → (bit_and map (mask_of count b) == 0) ≡ false
      → (if count == 1 then 1 else bitmap_bsr (bit_and map (mask_of count b)) - b + 1)
        ≡ bsr_rounds 64 (bit_and map (mask_of count b)) - b + 1
  unfolding bitmap_bsr
  shift_of b room ne = let stop = blocked b room (==→ne _ 0 ne) in rw ne (ground arith)

  scan_field-FirstFit :
      (rounds b : ℕ)
      → 65 ≤ rounds + b
      → ((q : ℕ) → q < b → IsFree map count q → ⊥)
      → FirstFit map count (scan_field rounds map (mask_of count 0) count b)
  unfolding scan_field
  scan_field-FirstFit zero b enough earlier =
      full (λ q free. earlier q (omega (arith, free.within)) free)
  scan_field-FirstFit (suc rounds) b enough earlier = elim (Bool-cases (leb b (64 - count))) [
    | inr past ↦ rw past (full (λ q free. earlier q (ground (arith, free.within)) free))
    | inl below_end ↦
        let room : count + b ≤ 64 = ground (arith, below_end) in
        elim (Bool-cases (bit_and map (mask_of count b) == 0)) [
          | inl free ↦
              rw (below_end, mask_shift count b room, free)
                (found
                  (record {
                    within = room;
                    zeros = λ i lt here.
                        none_set_bits map (mask_of count b) i ((==_iff _ 0).0 free)
                          (bit-mask count b i room lt ∙ ground arith);
                  })
                  earlier)
          | inr taken ↦
              let stop = blocked b room (==→ne _ 0 taken) in
              rw (below_end, mask_shift count b room, taken, shift_of b room taken)
                (scan_field-FirstFit rounds _ (omega (arith, stop.0)) (λ q lt free.
                  elim (Bool-cases (ltb q b)) [
                    | inl before ↦ earlier q (ground arith) free
                    | inr after ↦ stop.2 q (ground arith) (omega (arith, stop.0)) free
                  ]))
        ]
  ]

  not_before : 0 < word_not map → (q : ℕ) → q < bitmap_bsf (word_not map) → IsFree map count q → ⊥
  unfolding bitmap_bsf
  not_before pos q lt free =
      let low = lowest 64 (word_not map) pos (omega arith) in
      let inside_word : q < 64 = omega (arith, free.within) in
      ground (
        arith,
        low.1 q,
        bit-word_not q map inside_word fits,
        free.zeros q inside_word,
        bit-lt q map,
      )

  full_field : map ≡ size_max → (q : ℕ) → IsFree map count q → ⊥
  full_field e q free =
      let inside_word : q < 64 = omega (arith, free.within) in
      let set = bit-word_not q 0 inside_word (omega arith) in
      ground (arith, set, bit-zero q, ap (bit q) e, free.zeros q inside_word)

-- The search and the claim at the place it found.
abbrev pub claimed_at : (idx count : ℕ) → Bitmap → Option ℕ → Option ℕ × Bitmap
claimed_at idx count bitmap none = (none, bitmap)
claimed_at idx count bitmap (some p) =
    (some (index_create idx p), (try_claim_field count (index_create idx p) bitmap).1)

claim_found-claimed_at :
    (idx count : ℕ) (bitmap : Bitmap) (r : Option ℕ)
    → bitmap idx < word_mod
    → 0 < count
    → FirstFit (bitmap idx) count r
    → claim_found idx count bitmap r ≡ claimed_at idx count bitmap r
unfolding claim_found try_claim_field
claim_found-claimed_at idx count bitmap none fits some_bits (full _) = refl
claim_found-claimed_at idx count bitmap (some p) fits some_bits (found free first) =
    let field : (idx * 64 + p) / 64 ≡ idx = omega (arith, free.within) in
    let place : (idx * 64 + p) % 64 ≡ p = omega (arith, free.within) in
    let empty =
      none_set_word (bitmap idx) (mask_of count p) fits
        (λ i lt set. free.zeros i lt (ground (arith, bit-mask count p i free.within lt))) in
    rw (field, place, mask_shift count p free.within, eq→== _ 0 empty) refl

-- On a field that is a word, for 1 to 64 bits, `mi_bitmap_try_find_claim_field` finds the lowest
-- place in the field with so many free bits, whenever there is one: it then returns the index of
-- that place and has claimed the bits there as `mi_bitmap_try_claim_field` does. If there is none,
-- it fails and changes nothing.
pub try_find_claim_field-FirstFit :
    (idx count : ℕ) (bitmap : Bitmap)
    → bitmap idx < word_mod
    → 0 < count
    → count ≤ 64
    → (r : Option ℕ) × FirstFit (bitmap idx) count r
      × (try_find_claim_field idx count bitmap ≡ claimed_at idx count bitmap r)
unfolding try_find_claim_field
try_find_claim_field-FirstFit idx count bitmap fits some_bits most =
    elim (Bool-cases (bitmap idx == size_max)) [
      | inl all_set ↦ rw all_set (
        none,
        full (full_field (bitmap idx) count fits some_bits most ((==_iff _ _).0 all_set)),
        refl,
      )
      | inr room ↦
          let from = bitmap_bsf (word_not (bitmap idx)) in
          let pos : 0 < word_not (bitmap idx) = omega (arith, ==→ne _ _ room) in
          let r = scan_field 65 (bitmap idx) (mask_of count 0) count from in
          let fit =
            scan_field-FirstFit (bitmap idx) count fits some_bits most 65 from (omega arith)
              (not_before (bitmap idx) count fits some_bits most pos) in
          rw room (r, fit, claim_found-claimed_at idx count bitmap r fits some_bits fit)
    ]
