-- ===== src/Bitmap/Mask.antt =====
-- The digits of a mask, and what the tests against it say.
use mimalloc_mc.Prelude.{
  ℕ, zero, suc, ◌+◌, ◌-◌, ◌*◌, ◌/◌, ◌^◌, ◌≤◌, ◌<◌, ◌≡◌, inl, inr, ap, ◌∙◌, bit_and, Bool, ltb, leb,
  ◌&&◌, ◌==◌, if◌then◌else◌, arith, Bool-cases,
}
use native.Mathlib.Nat.{mod-eq_of_lt, pow-le-pow_right}
use mimalloc_mc.Prelude.Bits.{
  bit, bit-lt, bit-zero, bit-bit_and, two_pow_suc, two_pow_add, two_pow_pos, bit_ext, bit_and-le,
}
use mimalloc_mc.Size.{word, word_mod, word_not}
use mimalloc_mc.Bitmap.{mask_of}

-- Is digit `i` one of `count` digits from `bitidx` on?
abbrev pub inside : (count bitidx i : ℕ) → Bool
inside count bitidx i = leb bitidx i && ltb i (bitidx + count)

bit-ones : (i c : ℕ) → bit i (2 ^ c - 1) ≡ (if ltb i c then 1 else 0)
bit-ones i zero = let e : 2 ^ 0 - 1 ≡ 0 = omega arith in rw e (bit-zero i ∙ ground arith)
bit-ones zero (suc c) = ground (arith, two_pow_suc c, two_pow_pos c)
bit-ones (suc i) (suc c) =
    let half : (2 ^ suc c - 1) / 2 ≡ 2 ^ c - 1 = omega (arith, two_pow_suc c, two_pow_pos c) in
    rw half (bit-ones i c ∙ ground arith)

bit-shift : (i b x : ℕ) → bit i (x * 2 ^ b) ≡ (if leb b i then bit (i - b) x else 0)
bit-shift i zero x = let e : x * 2 ^ 0 ≡ x = omega arith in rw e (ground arith)
bit-shift zero (suc b) x =
    let even : x * 2 ^ suc b ≡ 2 * (x * 2 ^ b) =
      omega (arith, ap (λ (t : ℕ). x * t) (two_pow_suc b)) in
    ground (arith, even)
bit-shift (suc i) (suc b) x =
    let half : x * 2 ^ suc b / 2 ≡ x * 2 ^ b =
      omega (arith, ap (λ (t : ℕ). x * t) (two_pow_suc b)) in
    rw half (bit-shift i b x ∙ ground arith)

power_pred : (c : ℕ) → 2 ^ c ≡ (2 ^ c - 1) + 1
power_pred c = omega (arith, two_pow_pos c)

pub mask-lt : (c b : ℕ) → c + b ≤ 64 → (2 ^ c - 1) * 2 ^ b < word_mod
mask-lt c b h = omega (
  arith,
  two_pow_add c b,
  two_pow_pos b,
  pow-le-pow_right {n = 2} (omega arith) {i = c + b} {j = 64} h,
  ap (λ (t : ℕ). t * 2 ^ b) (power_pred c),
)

pub bit-mask :
    (c b i : ℕ) → c + b ≤ 64 → i < 64 → bit i (mask_of c b) ≡ (if inside c b i then 1 else 0)
unfolding mask_of
bit-mask c b i h lt = elim (Bool-cases (c == 64)) [
  | inl full ↦ let whole : c ≡ 64 = ground arith in rw whole (bit-ones i 64 ∙ ground arith)
  | inr part ↦
      let fits : word ((2 ^ c - 1) * 2 ^ b) ≡ (2 ^ c - 1) * 2 ^ b = mod-eq_of_lt (mask-lt c b h) in
      rw (part, fits) (bit-shift i b (2 ^ c - 1) ∙ ground (arith, bit-ones (i - b) c))
]

pub none_set_bits : (x m i : ℕ) → bit_and x m ≡ 0 → bit i m ≡ 1 → bit i x ≡ 0
none_set_bits x m i e set =
    omega (arith, bit-bit_and i x m, ap (bit i) e, bit-zero i, set, bit-lt i x)

pub none_set_word :
    (x m : ℕ) → x < word_mod → ((i : ℕ) → i < 64 → bit i m ≡ 1 → bit i x ≡ 0) → bit_and x m ≡ 0
none_set_word x m fits free =
    bit_ext 64 (bit_and x m) 0 (omega (arith, bit_and-le x x m (omega arith))) (omega arith)
      (λ i lt. ground (arith, bit-bit_and i x m, bit-zero i, free i lt, bit-lt i x, bit-lt i m))

pub all_set_bits : (x m i : ℕ) → bit_and x m ≡ m → bit i m ≡ 1 → bit i x ≡ 1
all_set_bits x m i e set = omega (arith, bit-bit_and i x m, ap (bit i) e, set, bit-lt i x)

pub all_set_word :
    (x m : ℕ)
    → x < word_mod
    → m < word_mod
    → ((i : ℕ) → i < 64 → bit i m ≡ 1 → bit i x ≡ 1)
    → bit_and x m ≡ m
all_set_word x m fits fits' set =
    bit_ext 64 (bit_and x m) m (omega (arith, bit_and-le x x m (omega arith))) fits'
      (λ i lt. ground (arith, bit-bit_and i x m, set i lt, bit-lt i x, bit-lt i m))

pub mask_of-lt : (c b : ℕ) → c + b ≤ 64 → mask_of c b < word_mod
unfolding mask_of
mask_of-lt c b h = ground (arith, mask-lt c b h)

bit_not : (w i x : ℕ) → i < w → x < 2 ^ w → bit i (2 ^ w - 1 - x) ≡ 1 - bit i x
bit_not zero i x lt fits = absurd (omega arith)
bit_not (suc w) zero x lt fits = omega (arith, two_pow_suc w)
bit_not (suc w) (suc i) x lt fits =
    let half : (2 ^ suc w - 1 - x) / 2 ≡ 2 ^ w - 1 - x / 2 = omega (arith, two_pow_suc w) in
    rw half (bit_not w i (x / 2) (omega arith) (omega (arith, two_pow_suc w)))

pub bit-word_not : (i x : ℕ) → i < 64 → x < word_mod → bit i (word_not x) ≡ 1 - bit i x
bit-word_not i x lt fits = bit_not 64 i x lt fits
