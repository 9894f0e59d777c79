-- ===== src/Random/Words.antt =====
-- The words that calls of `chacha_next32` hand out one after another.
use mimalloc_mc.Prelude.{
  ℕ, zero, suc, ◌+◌, ◌-◌, ◌≤◌, ◌<◌, ◌≡◌, ◌≢◌, refl, ap, ◌∙◌, List, [], ◌∷◌, arith, update, ne→==,
  eq→==,
}
use mimalloc_mc.Random.{Array, Context, chacha_block, chacha_next32}

abbrev pub draw : ℕ → Context → List ℕ
draw zero ctx = []
draw (suc n) ctx = let word = chacha_next32 ctx in word.value ∷ draw n word.context

-- `n` words of an array from `i` on.
abbrev pub slice : ℕ → Array → (i : ℕ) → List ℕ
slice zero x i = []
slice (suc n) x i = x i ∷ slice n x (i + 1)

-- A word before the slice does not matter.
slice-update : (n : ℕ) (x : Array) (i j v : ℕ) → j < i → slice n (update x j v) i ≡ slice n x i
slice-update zero x i j v h = refl
slice-update (suc n) x i j v h =
    rw (ne→== j i (omega arith)) (ap (λ xs. x i ∷ xs) (slice-update n x (i + 1) j v (omega arith)))

next_context :
    (ctx : Context)
    → ctx.output_available ≢ 0
    → (chacha_next32 ctx) ≡ record {
      value = ctx.output (16 - ctx.output_available);
      context = record ctx {
        output = update ctx.output (16 - ctx.output_available) 0;
        output_available = ctx.output_available - 1;
      };
    }
unfolding chacha_next32
next_context ctx nz = rw (ne→== ctx.output_available 0 nz) refl

-- While at most 16 words are available, as many calls of `chacha_next32` hand out the next words of
-- the output in their order, each once.
pub draw_lem :
    (n : ℕ) (ctx : Context)
    → n ≤ ctx.output_available
    → ctx.output_available ≤ 16
    → draw n ctx ≡ slice n ctx.output (16 - ctx.output_available)
draw_lem zero ctx h few = refl
draw_lem (suc n) ctx h few =
    let at = 16 - ctx.output_available in
    let after = record ctx {
      output = update ctx.output at 0;
      output_available = ctx.output_available - 1;
    } in
    let next : 16 - (ctx.output_available - 1) ≡ at + 1 = omega arith in
    let rest : draw n after ≡ slice n ctx.output (at + 1) =
      draw_lem n after (omega (arith, h)) (omega (arith, few))
      ∙ ap (λ i. slice n after.output i) next
      ∙ slice-update n ctx.output (at + 1) at 0 (omega arith) in
    let first = next_context ctx (omega (arith, h)) in
    ap (λ word. word.value ∷ draw n word.context) first ∙ ap (λ xs. ctx.output at ∷ xs) rest

refilled : Context → Context
refilled ctx = record (chacha_block ctx) { output_available = 16 }

next_refilled :
    (ctx : Context) → ctx.output_available ≡ 0 → chacha_next32 ctx ≡ chacha_next32 (refilled ctx)
unfolding chacha_next32 refilled
next_refilled ctx empty = rw (eq→== ctx.output_available 0 empty) refl

-- When no word is available, up to sixteen calls of `chacha_next32` hand out the words of a new block
-- from the first on, in their order.
pub draw-chacha_block :
    (n : ℕ) (ctx : Context)
    → n < 16
    → ctx.output_available ≡ 0
    → draw (suc n) ctx ≡ slice (suc n) (chacha_block ctx).output 0
unfolding refilled
draw-chacha_block n ctx few empty =
    ap (λ word. word.value ∷ draw n word.context) (next_refilled ctx empty)
    ∙ draw_lem (suc n) (refilled ctx) (omega arith) (omega arith)
