-- ===== src/Size/Count.antt =====
-- `mi_mul_overflow` (its portable branch) and `mi_count_size_overflow` of
-- mimalloc-custom/mimalloc-internal.h, which `mi_calloc` and its relatives call. The error message
-- is not modelled.
use native.Mathlib.Nat.{div-lt_iff_lt-mul, mod-eq_of_lt}
use mimalloc_mc.Prelude.{
  leb→le, ℕ, ◌*◌, ◌/◌, ◌^◌, ◌≤◌, ◌<◌, ◌≡◌, refl, ◌↔◌, inl, inr, Bool, true, false, ◌&&◌, ◌||◌,
  arith, ltb, leb, ◌==◌, if◌then◌else◌, Bool-cases, ℕ-cases, ==_iff,
}
use mimalloc_mc.Size.{word_mod, size_max, word}

abbrev mul_no_overflow : ℕ
mul_no_overflow = 2 ^ 32

-- The flag, and `*total`.
unfoldable pub mul_overflow : ℕ → ℕ → Bool × ℕ
mul_overflow count size = (
  (leb mul_no_overflow size || leb mul_no_overflow count)
      && (ltb 0 size && ltb (size_max / size) count),
  word (count * size),
)

unfoldable pub count_size_overflow : ℕ → ℕ → Bool × ℕ
count_size_overflow count size =
    if count == 1
    then (false, size)
    else let (overflow, total) = mul_overflow count size in
      if overflow then (true, size_max) else (false, total)

quotient_test : (count size : ℕ) → 0 < size → (size_max / size < count) ↔ (word_mod ≤ count * size)
quotient_test count size pos =
    (λ h. omega (arith, (div-lt_iff_lt-mul pos).0 h), λ h. (div-lt_iff_lt-mul pos).1 (omega arith))

small_product : (count size : ℕ) → count < 2 ^ 32 → size < 2 ^ 32 → count * size < word_mod
small_product count size hc hs = grind arith

-- The portable test of `mi_mul_overflow` reports an overflow exactly when the product does not fit
-- a word of 64 bits.
pub mul_overflow_iff :
    (count size : ℕ) → ((mul_overflow count size).0 ≡ true) ↔ (word_mod ≤ count * size)
unfolding mul_overflow
mul_overflow_iff count size = elim (ℕ-cases size) [
  | inl zero_size ↦ rw zero_size (ground arith)
  | inr pos ↦ ground (arith, quotient_test count size pos, small_product count size)
]

mul_overflow_total : (count size : ℕ) → (mul_overflow count size).1 ≡ word (count * size)
unfolding mul_overflow
mul_overflow_total count size = refl

-- For a size that is a word, `mi_count_size_overflow` reports an overflow with the largest size as
-- total when the product does not fit a word, and otherwise no overflow with the product as total.
pub count_size_overflow_lem :
    (count size : ℕ)
    → size < word_mod
    → count_size_overflow count size
      ≡ (if leb word_mod (count * size) then (true, size_max) else (false, count * size))
unfolding count_size_overflow
count_size_overflow_lem count size fits =
    let iff = mul_overflow_iff count size in
    let total = mul_overflow_total count size in
    elim (Bool-cases (count == 1)) [
      | inl one ↦
          let e : count ≡ 1 = (==_iff count 1).0 one in
          let small : leb word_mod (1 * size) ≡ false = ground arith in rw (e, small) (ground arith)
      | inr more ↦ elim (Bool-cases (leb word_mod (count * size))) [
        | inl big ↦ rw (more, big) (ground (arith, iff.1 (leb→le _ _ big)))
        | inr small ↦
            let fits_product : count * size < word_mod = ground arith in
            rw (more, small)
              (ground
                (arith, iff.0, total, mod-eq_of_lt {n = count * size} {m = word_mod} fits_product))
      ]
    ]
