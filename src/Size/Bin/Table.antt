-- ===== src/Size/Bin/Table.antt =====
-- The classes of `_mi_bin`, case by case, against the table of block sizes.
use mimalloc_mc.Prelude.{
  all_below, all_below_sound, ℕ, suc, ◌+◌, ◌-◌, ◌*◌, ◌/◌, ◌%◌, ◌^◌, ◌≤◌, ◌<◌, bit_and, ◌≡◌, refl,
  ◌⊎◌, inl, inr, Bool, true, ◌&&◌, ◌||◌, arith, leb, ◌==◌,
}
use native.Mathlib.Nat.{
  pow-le-pow_right, le-div_iff_mul-le, div-lt_iff_lt-mul, div-mul-le_self, lt-div-mul-add,
}
use native.Mathlib.Numerals.{towards_suc}
use mimalloc_mc.Prelude.Bits.{two_pow_suc, two_pow_pos}
use mimalloc_mc.Prelude.Lists.{get_or}
use mimalloc_mc.Size.Align.{wsize_from_size}
use mimalloc_mc.Size.Bin.{bsr32, bin, bin_wsizes}
use mimalloc_mc.Size.Bin.Bsr.{IsHighest, bsr32-IsHighest}

-- The class of `w + 1` words, `w` from 8 on, with highest digit at `b` and quarter `q` above it.
abbrev pub class_of : (b q : ℕ) → ℕ
class_of b q = (b * 2 ^ 2 + bit_and q 3 % 2 ^ 8 - 3) % 2 ^ 8

abbrev entry : ℕ → ℕ → Bool
entry b q =
    (class_of (b + 3) (q + 4) == 4 * b + q + 9)
    && (get_or bin_wsizes (class_of (b + 3) (q + 4)) 0 == (q + 5) * 2 ^ (b + 1))

table : all_below 10 (λ b. all_below 4 (entry b)) ≡ true
unfolding all_below
table = refl

entry_lem :
    (b q : ℕ)
    → b < 10
    → q < 4
    → (class_of (b + 3) (q + 4) ≡ 4 * b + q + 9)
      × (get_or bin_wsizes (class_of (b + 3) (q + 4)) 0 ≡ (q + 5) * 2 ^ (b + 1))
entry_lem b q hb hq = ground (
  arith,
  all_below_sound 4 (entry b) q (all_below_sound 10 (λ b. all_below 4 (entry b)) b table hb) hq,
)

-- The class of `w + 1` words: bin `4 * b + q + 9`, which holds `(q + 5) * 2 ^ (b + 1)` words.
pub record IsClass (w k : ℕ) : Type 0 where
  pub b : ℕ
  pub q : ℕ
  pub b_lt : b < 10
  pub q_lt : q < 4
  pub index : k ≡ 4 * b + q + 9
  pub words : get_or bin_wsizes k 0 ≡ (q + 5) * 2 ^ (b + 1)
  pub from : (q + 4) * 2 ^ (b + 1) ≤ w
  pub to : w < (q + 5) * 2 ^ (b + 1)

exponent_bounds : (w h : ℕ) → 8 ≤ w → w < 8192 → IsHighest w h → (3 ≤ h) × (h < 13)
exponent_bounds w h lo hi top = (
  elim (le_or_lt 3 h) [
    | inl e ↦ e
    | inr e ↦ absurd (omega (arith, top.none_above, pow-le-pow_right {n = 2} (omega arith) e))
  ],
  elim (le_or_lt 13 h) [
    | inl e ↦ absurd (omega (arith, top.reached, pow-le-pow_right {n = 2} (omega arith) e))
    | inr e ↦ e
  ],
)
  where
    le_or_lt : (a b : ℕ) → (a ≤ b) ⊎ (b < a)
    le_or_lt a b = omega arith

-- With the highest digit at `b + 3`, the next two digits give the quarter.
quarter :
    (w b : ℕ)
    → IsHighest w (b + 3)
    → (q : ℕ) × (w / 2 ^ (b + 1) ≡ q + 4)
      × (q < 4)
      × ((q + 4) * 2 ^ (b + 1) ≤ w)
      × (w < (q + 5) * 2 ^ (b + 1))
quarter w b top =
    let p = 2 ^ (b + 1) in
    let four : 2 ^ (b + 3) ≡ 4 * p =
      simp towards_suc
        (omega (arith, two_pow_suc b, two_pow_suc (suc b), two_pow_suc (suc (suc b)))) in
    let eight : 2 ^ suc (b + 3) ≡ 8 * p = omega (arith, two_pow_suc (b + 3), four) in
    let pos : 0 < p = two_pow_pos (b + 1) in
    let lo : 4 ≤ w / p = (le-div_iff_mul-le pos).1 (omega (arith, top.reached, four)) in
    let hi : w / p < 8 = (div-lt_iff_lt-mul pos).1 (omega (arith, top.none_above, eight)) in
    let back : w / p - 4 + 4 ≡ w / p = omega arith in
    let next : w / p - 4 + 5 ≡ w / p + 1 = omega arith in
    (
      w / p - 4,
      omega arith,
      omega arith,
      rw back (div-mul-le_self w p),
      rw next (omega (arith, lt-div-mul-add {a = w} {b = p} pos)),
    )

at-IsClass :
    (w b : ℕ) → b < 10 → IsHighest w (b + 3) → IsClass w (class_of (b + 3) (w / 2 ^ (b + 1)))
at-IsClass w b hb top =
    let (q, quotient, small, from, to) = quarter w b top in
    let e = entry_lem b q hb small in
    rw quotient (record {
      b = b;
      q = q;
      b_lt = hb;
      q_lt = small;
      index = e.0;
      words = e.1;
      from = from;
      to = to;
    })

shifted-IsClass :
    (w h b : ℕ) → h ≡ b + 3 → b < 10 → IsHighest w h → IsClass w (class_of h (w / 2 ^ (h - 2)))
shifted-IsClass w h b e hb =
    let shift : b + 3 - 2 ≡ b + 1 = omega arith in rw (e, shift) (at-IsClass w b hb)

pub class_of-IsClass :
    (w h : ℕ) → 8 ≤ w → w < 8192 → IsHighest w h → IsClass w (class_of h (w / 2 ^ (h - 2)))
class_of-IsClass w h lo hi top =
    let (low, high) = exponent_bounds w h lo hi top in
    shifted-IsClass w h (h - 3) (omega arith) (omega arith) top

-- The three regions of `_mi_bin`, by the size in words.
pub bin_small : (size : ℕ) → wsize_from_size size ≤ 1 → bin size ≡ 1
unfolding bin
bin_small size h = ground arith

small_entry : ℕ → Bool
small_entry w = leb w 1 || bit_and (w + 1) (2 ^ 64 - 1 - 1) % 2 ^ 8 == w + w % 2

small_table : all_below 9 small_entry ≡ true
unfolding all_below small_entry
small_table = refl

pub bin_even :
    (size : ℕ)
    → 1 < wsize_from_size size
    → wsize_from_size size ≤ 8
    → bin size ≡ wsize_from_size size + wsize_from_size size % 2
unfolding bin small_entry
bin_even size lo hi =
    ground (arith, all_below_sound 9 small_entry (wsize_from_size size) small_table)

pub bin-IsClass :
    (size : ℕ)
    → 8 < wsize_from_size size
    → wsize_from_size size ≤ 8192
    → IsClass (wsize_from_size size - 1) (bin size)
bin-IsClass size lo hi =
    let w = wsize_from_size size - 1 in
    let fits : w % 2 ^ 32 ≡ w = omega arith in
    let code : bin size ≡ class_of (bsr32 w) (w / 2 ^ (bsr32 w - 2)) =
      unfold bin in rw fits (ground arith) in
    rw code (
      class_of-IsClass w (bsr32 w) (omega arith) (omega arith)
        (bsr32-IsHighest w (omega arith) (omega arith)))

pub bin_is_huge : (size : ℕ) → 8192 < wsize_from_size size → bin size ≡ 73
unfolding bin
bin_is_huge size h = ground arith
