-- ===== src/Random/Counter.antt =====
-- The counter of the generator.
use mimalloc_mc.Prelude.{ℕ, ◌+◌, ◌*◌, ◌%◌, ◌^◌, ◌<◌, ◌≡◌, ◌≢◌, inl, inr, arith, ◌==◌, Bool-cases}
use mimalloc_mc.Random.{Array, Context, next_counter, chacha_block}

-- The number of 96 bits in the words 12, 13 and 14.
abbrev pub counter : Array → ℕ
counter input = input 12 + input 13 * 2 ^ 32 + input 14 * 2 ^ 64

next_counter_lem :
    (input : Array)
    → input 12 < 2 ^ 32
    → input 13 < 2 ^ 32
    → input 14 < 2 ^ 32
    → counter (next_counter input) ≡ (counter input + 1) % 2 ^ 96
unfolding next_counter
next_counter_lem input a b c = elim (Bool-cases ((input 12 + 1) % 2 ^ 32 == 0)) [
  | inl carry ↦ elim (Bool-cases ((input 13 + 1) % 2 ^ 32 == 0)) [
    | inl carry' ↦ rw (carry, carry') (ground arith)
    | inr stop ↦ rw (carry, stop) (ground arith)
  ]
  | inr stop ↦ rw stop (ground arith)
]

-- Each block increments the number in the words 12 to 14 of the input, as long as these are words of
-- 32 bits, and it starts again at 0 after 2^96 blocks, and the
-- other words keep their values.
pub chacha_block-counter :
    (ctx : Context)
    → ctx.input 12 < 2 ^ 32
    → ctx.input 13 < 2 ^ 32
    → ctx.input 14 < 2 ^ 32
    → (counter (chacha_block ctx).input ≡ (counter ctx.input + 1) % 2 ^ 96)
      × ((i : ℕ) → i ≢ 12 → i ≢ 13 → i ≢ 14 → (chacha_block ctx).input i ≡ ctx.input i)
unfolding chacha_block next_counter
chacha_block-counter ctx a b c = (next_counter_lem ctx.input a b c, λ i x y z. ground arith)
