-- ===== src/Random.antt =====
-- The random numbers of mimalloc-custom/random.c: the ChaCha generator, and the functions of its
-- interface as they are, which do not use it. Arrays of 16 words are functions.
pub mod Counter
pub mod Words
mod Tests
use mimalloc_mc.Prelude.{
  ℕ, zero, suc, ◌+◌, ◌-◌, ◌*◌, ◌/◌, ◌%◌, ◌^◌, Bool, leb, ◌==◌, if◌then◌else◌, update, bit_or,
  bit_xor,
}

abbrev pub Array : Type 0
Array = ℕ → ℕ

pub record Context : Type 0 where
  pub input : Array
  pub output : Array
  pub output_available : ℕ

abbrev pub chacha_rounds : ℕ
chacha_rounds = 20

-- A sum in a `uint32_t`.
abbrev pub add32 : ℕ → ℕ → ℕ
add32 a b = (a + b) % 2 ^ 32

unfoldable pub rotl : (x shift : ℕ) → ℕ
rotl x shift = bit_or (x * 2 ^ shift % 2 ^ 32) (x / 2 ^ (32 - shift))

-- `x[a] += x[b]; x[d] = rotl(x[d] ^ x[a], shift)`.
unfoldable pub mix : (a b d shift : ℕ) → Array → Array
mix a b d shift x =
    let y = update x a (add32 (x a) (x b)) in update y d (rotl (bit_xor (y d) (y a)) shift)

unfoldable pub qround : (a b c d : ℕ) → Array → Array
qround a b c d x = mix c d b 7 (mix a b d 8 (mix c d b 12 (mix a b d 16 x)))

unfoldable pub double_round : Array → Array
double_round x =
    let columns = qround 3 7 11 15 (qround 2 6 10 14 (qround 1 5 9 13 (qround 0 4 8 12 x))) in
    qround 3 4 9 14 (qround 2 7 8 13 (qround 1 6 11 12 (qround 0 5 10 15 columns)))

unfoldable pub double_rounds : ℕ → Array → Array
double_rounds zero x = x
double_rounds (suc n) x = double_rounds n (double_round x)

-- The counter with its carries.
unfoldable pub next_counter : Array → Array
next_counter input =
    let low = update input 12 (add32 (input 12) 1) in
    let middle = update low 13 (add32 (low 13) 1) in
    if low 12 == 0
    then (if middle 13 == 0 then update middle 14 (add32 (middle 14) 1) else middle)
    else low

unfoldable pub chacha_block : Context → Context
chacha_block ctx =
    let x = double_rounds (chacha_rounds / 2) ctx.input in
    record {
      input = next_counter ctx.input;
      output = λ i. add32 (x i) (ctx.input i);
      output_available = 16;
    }

pub record Word : Type 0 where
  pub value : ℕ
  pub context : Context

unfoldable pub chacha_next32 : Context → Word
chacha_next32 ctx =
    let ready =
      if ctx.output_available == 0
      then record (chacha_block ctx) { output_available = 16 }
      else ctx in
    let at = 16 - ready.output_available in
    record {
      value = ready.output at;
      context = record ready {
        output = update ready.output at 0;
        output_available = ready.output_available - 1;
      };
    }

unfoldable pub read32 : (p : Array) → (idx32 : ℕ) → ℕ
read32 p idx32 =
    let i = 4 * idx32 in
    bit_or (bit_or (bit_or (p i) (p (i + 1) * 2 ^ 8 % 2 ^ 32)) (p (i + 2) * 2 ^ 16 % 2 ^ 32))
      (p (i + 3) * 2 ^ 24 % 2 ^ 32)

-- It returns at once.
abbrev pub chacha_init : Context → (key : Array) → (nonce : ℕ) → Context
chacha_init ctx key nonce = ctx

-- Nothing is left of it.
abbrev pub random_split : Context → Context → Context × Context
random_split ctx ctx_new = (ctx, ctx_new)

abbrev pub random_next : Context → Word
random_next ctx = record { value = 0; context = ctx }
