-- ===== src/Bitmap/Claim.antt =====
-- Claiming, releasing and testing a sequence of bits.
use mimalloc_mc.Prelude.{
  ◌⊎◌, ℕ, ◌+◌, ◌≤◌, ◌<◌, ◌≡◌, ◌≢◌, ◌↔◌, refl, ap, ◌∙◌, inl, inr, bit_and, bit_or, Bool, true, false,
  ◌==◌, if◌then◌else◌, arith, ==_iff, eq→==, Bool-cases, update,
}
use mimalloc_mc.Prelude.Bits.{bit, bit-lt, bit-bit_and, bit-bit_or, bit_ext, bit_or-lt, bit_and-le}
use mimalloc_mc.Size.{word_mod, word_not}
use mimalloc_mc.Bitmap.{
  Bitmap, index_field, index_bit_in_field, mask_of, try_claim_field, unclaim, claim, is_claimed,
  is_any_claimed, is_claimedx,
}
use mimalloc_mc.Bitmap.Mask.{
  inside, bit-mask, none_set_bits, none_set_word, all_set_bits, all_set_word, mask_of-lt,
  bit-word_not,
}

-- The sequence of `count` bits at an index stays in one field, whose value is a word.
pub record IsSequence (count bitmap_idx : ℕ) (bitmap : Bitmap) : Type 0 where
  pub within : count + index_bit_in_field bitmap_idx ≤ 64
  pub field_word : bitmap (index_field bitmap_idx) < word_mod

-- Bit `i` of the field of a sequence.
abbrev pub bit_at : (bitmap_idx i : ℕ) → Bitmap → ℕ
bit_at bitmap_idx i bitmap = bit i (bitmap (index_field bitmap_idx))

-- Is bit `i` of the field one of the sequence?
abbrev pub in_sequence : (count bitmap_idx i : ℕ) → Bool
in_sequence count bitmap_idx i = inside count (index_bit_in_field bitmap_idx) i

-- All bits of the sequence are `digit`.
abbrev pub HasBits : (count bitmap_idx digit : ℕ) → Bitmap → Type 0
HasBits count bitmap_idx digit bitmap =
    (i : ℕ) → i < 64 → in_sequence count bitmap_idx i ≡ true → bit_at bitmap_idx i bitmap ≡ digit

-- The bits of the sequence are `digit` afterwards, and no other bit has changed.
pub record HasStored (count bitmap_idx digit : ℕ) (bitmap after : Bitmap) : Type 0 where
  pub in_field :
      (i : ℕ)
      → i < 64
      → bit_at bitmap_idx i after
        ≡ (if in_sequence count bitmap_idx i then digit else bit_at bitmap_idx i bitmap)
  pub elsewhere : (j : ℕ) → index_field bitmap_idx ≢ j → after j ≡ bitmap j

module _ {count bitmap_idx : ℕ} {bitmap : Bitmap} (v : IsSequence count bitmap_idx bitmap) where
  abbrev mask : ℕ
  mask = mask_of count (index_bit_in_field bitmap_idx)

  abbrev field : ℕ
  field = bitmap (index_field bitmap_idx)

  in_mask : (i : ℕ) → i < 64 → bit i mask ≡ (if in_sequence count bitmap_idx i then 1 else 0)
  in_mask i lt = bit-mask count (index_bit_in_field bitmap_idx) i v.within lt

  mask_word : mask < word_mod
  mask_word = mask_of-lt count (index_bit_in_field bitmap_idx) v.within

  pub none_claimed_iff : (bit_and field mask ≡ 0) ↔ HasBits count bitmap_idx 0 bitmap
  none_claimed_iff = (
    λ e i lt here. none_set_bits field mask i e (ground (arith, in_mask i lt)),
    λ free.
        none_set_word field mask v.field_word
          (λ i lt set. free i lt (ground (arith, in_mask i lt))),
  )

  pub all_claimed_iff : (bit_and field mask ≡ mask) ↔ HasBits count bitmap_idx 1 bitmap
  all_claimed_iff = (
    λ e i lt here. all_set_bits field mask i e (ground (arith, in_mask i lt)),
    λ free.
        all_set_word field mask v.field_word mask_word
          (λ i lt set. free i lt (ground (arith, in_mask i lt))),
  )

  claimed_bit :
      (i : ℕ)
      → i < 64
      → bit i (bit_or field mask) ≡ (if in_sequence count bitmap_idx i then 1 else bit i field)
  claimed_bit i lt = ground (arith, bit-bit_or i field mask, in_mask i lt, bit-lt i field)

  released_bit :
      (i : ℕ)
      → i < 64
      → bit i (bit_and field (word_not mask))
        ≡ (if in_sequence count bitmap_idx i then 0 else bit i field)
  released_bit i lt = ground (
    arith,
    bit-bit_and i field (word_not mask),
    in_mask i lt,
    bit-lt i field,
    bit-word_not i mask lt mask_word,
  )

  -- A claim of a sequence of bits within one field, with no other access in between, succeeds if
  -- all of them are 0, and has then set these bits and no other; otherwise it fails and changes
  -- nothing.
  pub try_claim_field_lem :
      (HasBits count bitmap_idx 0 bitmap
        × ((try_claim_field count bitmap_idx bitmap).0 ≡ true)
        × HasStored count bitmap_idx 1 bitmap (try_claim_field count bitmap_idx bitmap).1)
      ⊎ ((HasBits count bitmap_idx 0 bitmap → ⊥)
          × (try_claim_field count bitmap_idx bitmap ≡ (false, bitmap)))
  unfolding try_claim_field
  try_claim_field_lem = elim (Bool-cases (bit_and field mask == 0)) [
    | inl yes' ↦ rw yes' (
        inl (
          none_claimed_iff.0 ((==_iff _ 0).0 yes'),
          refl,
          record {
            in_field = λ i lt. ground (arith, claimed_bit i lt);
            elsewhere = λ j ne. ground arith;
          },
        ))
    | inr no' ↦ rw no' (inr (λ all_free. ground (arith, none_claimed_iff.1 all_free), refl))
  ]

  claimed_mask : bit_and (bit_or field mask) mask ≡ mask
  claimed_mask =
      all_set_word (bit_or field mask) mask (bit_or-lt 64 field mask v.field_word mask_word)
        mask_word (λ i lt set. omega (arith, bit-bit_or i field mask, set, bit-lt i field))

  released_claim : bit_and field mask ≡ 0 → bit_and (bit_or field mask) (word_not mask) ≡ field
  released_claim free =
      let claimed-lt = bit_or-lt 64 field mask v.field_word mask_word in
      bit_ext 64 (bit_and (bit_or field mask) (word_not mask)) field
        (omega
          (arith, bit_and-le (bit_or field mask) (bit_or field mask) (word_not mask) (omega arith)))
        v.field_word
        (λ i lt. grind (
          arith,
          bit-bit_and i (bit_or field mask) (word_not mask),
          bit-bit_or i field mask,
          bit-word_not i mask lt mask_word,
          none_set_bits field mask i free,
          bit-lt i field,
          bit-lt i mask,
        ))

  -- Releasing a sequence of bits within one field that was just claimed says that all of them were
  -- claimed, and gives back the bitmap as it was before the claim.
  pub unclaim-try_claim_field :
      (try_claim_field count bitmap_idx bitmap).0 ≡ true
      → ((unclaim count bitmap_idx (try_claim_field count bitmap_idx bitmap).1).0 ≡ true)
        × ((j : ℕ)
            → (unclaim count bitmap_idx (try_claim_field count bitmap_idx bitmap).1).1 j ≡ bitmap j)
  unfolding try_claim_field unclaim
  unclaim-try_claim_field e = elim (Bool-cases (bit_and field mask == 0)) [
    | inl yes' ↦
        let read : update bitmap (index_field bitmap_idx) (bit_or field mask)
              (index_field bitmap_idx)
            ≡ bit_or field mask =
          ground arith in
        let back = released_claim ((==_iff _ 0).0 yes') in
        rw (yes', read)
          (
            eq→== _ _ claimed_mask,
            λ j. elim (Bool-cases (index_field bitmap_idx == j)) [
              | inl here ↦
                  let at : index_field bitmap_idx ≡ j = ground arith in
                  rw here (back ∙ ap bitmap at)
              | inr there ↦ rw there (ground arith)
            ],
          )
    | inr no' ↦ cc (rw no' at e)
  ]

  -- `mi_bitmap_is_claimed` says yes exactly when all bits of a sequence within one field are 1, and
  -- `mi_bitmap_is_any_claimed` says no exactly when all of them are 0.
  pub is_claimed_iff :
      ((is_claimed count bitmap_idx bitmap ≡ true) ↔ HasBits count bitmap_idx 1 bitmap)
      × ((is_any_claimed count bitmap_idx bitmap ≡ false) ↔ HasBits count bitmap_idx 0 bitmap)
  unfolding is_claimed is_any_claimed is_claimedx
  is_claimed_iff = (
    (λ e. all_claimed_iff.0 ((==_iff _ _).0 e), λ h. eq→== _ _ (all_claimed_iff.1 h)),
    (λ e. none_claimed_iff.0 (ground (arith, e)), λ h. rw (none_claimed_iff.1 h) refl),
  )

  -- `mi_bitmap_claim` on a sequence of bits within one field sets them and no other bit, and
  -- reports whether all of them were 0, and whether not all of them were 1.
  pub claim_lem :
      (((claim count bitmap_idx bitmap).0 ≡ true) ↔ HasBits count bitmap_idx 0 bitmap)
      × (((claim count bitmap_idx bitmap).1 ≡ false) ↔ HasBits count bitmap_idx 1 bitmap)
      × HasStored count bitmap_idx 1 bitmap (claim count bitmap_idx bitmap).2
  unfolding claim
  claim_lem = (
    (λ e. none_claimed_iff.0 ((==_iff _ _).0 e), λ h. eq→== _ _ (none_claimed_iff.1 h)),
    (λ e. all_claimed_iff.0 (ground (arith, e)), λ h. ground (arith, all_claimed_iff.1 h)),
    record {
      in_field = λ i lt. ground (arith, claimed_bit i lt);
      elsewhere = λ j ne. ground arith;
    },
  )

  -- `mi_bitmap_unclaim` on a sequence of bits within one field clears them and no other bit, and
  -- reports whether all of them were 1.
  pub unclaim_lem :
      (((unclaim count bitmap_idx bitmap).0 ≡ true) ↔ HasBits count bitmap_idx 1 bitmap)
      × HasStored count bitmap_idx 0 bitmap (unclaim count bitmap_idx bitmap).1
  unfolding unclaim
  unclaim_lem = (
    (λ e. all_claimed_iff.0 ((==_iff _ _).0 e), λ h. eq→== _ _ (all_claimed_iff.1 h)),
    record {
      in_field = λ i lt. ground (arith, released_bit i lt);
      elsewhere = λ j ne. ground arith;
    },
  )
