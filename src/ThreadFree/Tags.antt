-- ===== src/ThreadFree/Tags.antt =====
-- The two parts of a tagged pointer.
use mimalloc_mc.Prelude.{ℕ, ◌+◌, ◌-◌, ◌%◌, ◌<◌, ◌≡◌, ap, ◌∙◌, arith}
use mimalloc_mc.Prelude.Bits.{bit_or_disjoint, bit_and_low}
use mimalloc_mc.Size.{word_mod}
use mimalloc_mc.Size.Align.{clear_low}
use mimalloc_mc.ThreadFree.{
  Delayed, use_delayed_free, delayed_code, delayed_of, tf_block, tf_delayed, tf_make,
  tf_set_delayed, tf_set_block,
}

-- Blocks are aligned to words of eight bytes.
abbrev pub IsBlockPointer : ℕ → Type 0
IsBlockPointer b = (b < word_mod) × (b % 8 ≡ 0)

pub code_lt : (d : Delayed) → delayed_code d < 4
code_lt use_delayed_free = omega arith
code_lt _ = omega arith

pub tf_make-sum : (b : ℕ) (d : Delayed) → b % 4 ≡ 0 → tf_make b d ≡ b + delayed_code d
unfolding tf_make
tf_make-sum b d aligned = bit_or_disjoint 2 b (delayed_code d) aligned (code_lt d)

tf_block-eq : (tf : ℕ) → tf < word_mod → tf_block tf ≡ tf - tf % 4
unfolding tf_block
tf_block-eq tf fits = clear_low 2 tf (omega arith) fits

tf_delayed-eq : (tf : ℕ) → tf_delayed tf ≡ delayed_of (tf % 4)
unfolding tf_delayed
tf_delayed-eq tf = rw (bit_and_low 2 tf)

delayed_of-code : (d : Delayed) (n : ℕ) → n % 4 ≡ delayed_code d → delayed_of (n % 4) ≡ d
delayed_of-code use_delayed_free n e = rw e
delayed_of-code _ n e = rw e

code-delayed_of : (n : ℕ) → n < 4 → delayed_code (delayed_of n) ≡ n
code-delayed_of n h = ground arith

-- The block and the flag are read back as they were put together.
pub tf_make_fields :
    (b : ℕ) (d : Delayed)
    → IsBlockPointer b
    → (tf_block (tf_make b d) ≡ b) × (tf_delayed (tf_make b d) ≡ d)
tf_make_fields b d p =
    let small = code_lt d in
    let sum = tf_make-sum b d (omega arith) in
    rw sum (
      omega (arith, tf_block-eq (b + delayed_code d) (omega arith)),
      tf_delayed-eq (b + delayed_code d) ∙ delayed_of-code d (b + delayed_code d) (omega arith),
    )

-- On a word whose address part is aligned to 8 bytes: setting the flag keeps the address and is
-- read back, setting the address to a block keeps the flag and is read back, and making a word of
-- its two parts gives the word itself.
pub tf_set_fields :
    (tf b : ℕ) (d : Delayed)
    → tf < word_mod
    → tf_block tf % 8 ≡ 0
    → IsBlockPointer b
    → (tf_block (tf_set_delayed tf d) ≡ tf_block tf)
      × (tf_delayed (tf_set_delayed tf d) ≡ d)
      × (tf_block (tf_set_block tf b) ≡ b)
      × (tf_delayed (tf_set_block tf b) ≡ tf_delayed tf)
      × (tf_make (tf_block tf) (tf_delayed tf) ≡ tf)
unfolding tf_set_delayed tf_set_block
tf_set_fields tf b d fits aligned p =
    let eq = tf_block-eq tf fits in
    let (block, delayed) = tf_make_fields (tf_block tf) d (omega arith, aligned) in
    let (block', delayed') = tf_make_fields b (tf_delayed tf) p in
    (block, delayed, block', delayed', remake)
  where
    remake : tf_make (tf_block tf) (tf_delayed tf) ≡ tf
    remake = omega (
      arith,
      tf_make-sum (tf_block tf) (tf_delayed tf) (omega arith),
      tf_block-eq tf fits,
      ap delayed_code (tf_delayed-eq tf),
      code-delayed_of (tf % 4) (omega arith),
    )

pub tf_make-lt : (b : ℕ) (d : Delayed) → IsBlockPointer b → tf_make b d < word_mod
tf_make-lt b d p = omega (arith, tf_make-sum b d (omega arith), code_lt d)
