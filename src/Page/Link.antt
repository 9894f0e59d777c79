-- ===== src/Page/Link.antt =====
-- `mi_page_free_list_extend`: the loop over the new blocks links each to the one behind it.
use mimalloc_mc.Prelude.{
  ℕ, zero, suc, ◌+◌, ◌-◌, ◌*◌, ◌≤◌, ◌<◌, ◌≡◌, ◌≢◌, refl, ap, ◌∙◌, ◌⊎◌, inl, inr, List, [], ◌∷◌,
  ◌++◌, some, true, false, arith, leb, ◌==◌, update, Bool-cases, eq→==, ne→==, le→leb,
}
use mathlib.Core.Option
use mimalloc_mc.Prelude.Chain.{Memory, Chain, Chain-start, count}
use mimalloc_mc.Page.{State}
use mimalloc_mc.Page.Grow.{block_at, link_blocks, free_list_extend}

-- The blocks from the `i`-th on, in order.
abbrev pub run : (area bsize i n : ℕ) → List ℕ
run area bsize i zero = []
run area bsize i (suc n) = block_at area bsize i ∷ run area bsize (i + 1) n

-- After the loop the blocks from `i` up to `i + n` are linked, and nothing else has changed.
pub record IsLinked (m m' : Memory) (area bsize i n : ℕ) : Type 0 where
  pub inside :
      (j : ℕ) → i ≤ j → j < i + n → m' (block_at area bsize j) ≡ block_at area bsize (j + 1)
  pub outside :
      (a : ℕ) → (a < block_at area bsize i) ⊎ (block_at area bsize (i + n) ≤ a) → m' a ≡ m a

IsLinked-step :
    (m m' : Memory) (area bsize i n : ℕ)
    → 0 < bsize
    → IsLinked
        (update m (block_at area bsize i) (block_at area bsize (i + 1)))
        m'
        area
        bsize
        (i + 1)
        n
    → IsLinked m m' area bsize i (suc n)
IsLinked-step m m' area bsize i n pos rest = record {
  inside = λ j lo hi. elim (Bool-cases (i == j)) [
    | inl e ↦
        let here : j ≡ i = ground arith in
        rw here (rest.outside (block_at area bsize i) (inl (omega arith)) ∙ ground arith)
    | inr e ↦ rest.inside j (ground arith) (omega arith)
  ];
  outside = λ a far.
      let far' : (a < block_at area bsize (i + 1)) ⊎ (block_at area bsize (i + 1 + n) ≤ a) =
        elim far [ inl below ↦ inl (omega arith) | inr above ↦ inr (omega arith) ] in
      let other : block_at area bsize i ≢ a =
        λ e. elim far [ inl below ↦ omega arith | inr above ↦ omega arith ] in
      rest.outside a far' ∙ rw (ne→== (block_at area bsize i) a other) refl;
}

pub link_blocks-IsLinked :
    (fuel : ℕ) (m : Memory) (area bsize last i n : ℕ)
    → 0 < bsize
    → n < fuel
    → last + bsize ≡ block_at area bsize (i + n)
    → (m' : Memory) × (link_blocks fuel m bsize last (block_at area bsize i) ≡ some m')
      × IsLinked m m' area bsize i n
unfolding link_blocks
link_blocks-IsLinked zero m area bsize last i n pos few e = absurd (omega arith)
link_blocks-IsLinked (suc fuel) m area bsize last i zero pos few e =
    let stop : leb (block_at area bsize i) last ≡ false = ground arith in
    (m, rw stop refl, record { inside = λ j lo hi. absurd (omega arith); outside = λ a far. refl })
link_blocks-IsLinked (suc fuel) m area bsize last i (suc n) pos few e =
    let go : leb (block_at area bsize i) last ≡ true =
      le→leb (block_at area bsize i) last (omega arith) in
    let next : block_at area bsize i + bsize ≡ block_at area bsize (i + 1) = omega arith in
    let (m', result, linked) =
      link_blocks-IsLinked fuel (update m (block_at area bsize i) (block_at area bsize (i + 1)))
        area bsize last (i + 1) n pos (omega arith) (omega arith) in
    (m', rw (go, next) result, IsLinked-step m m' area bsize i n pos linked)

-- Linked blocks, the last of which leads to another list, are one list.
run-Chain :
    (m : Memory) (area bsize q i n : ℕ) (rest : List ℕ)
    → 0 < area
    → ((j : ℕ) → i ≤ j → j < i + n → m (block_at area bsize j) ≡ block_at area bsize (j + 1))
    → m (block_at area bsize (i + n)) ≡ q
    → Chain m q rest
    → Chain m (block_at area bsize i) (run area bsize i (suc n) ++ rest)
run-Chain m area bsize q i zero rest pos inside end c =
    let here : i + 0 ≡ i = omega arith in
    (refl, (λ e. omega (arith, e)), Chain-start m _ q rest (rw here at end) c)
run-Chain m area bsize q i (suc n) rest pos inside end c =
    let shift : i + 1 + n ≡ i + suc n = omega arith in
    (
      refl,
      (λ e. omega (arith, e)),
      Chain-start m _ (block_at area bsize (i + 1)) (run area bsize (i + 1) (suc n) ++ rest)
          (inside i (omega arith) (omega arith))
          (run-Chain m area bsize q (i + 1) n rest pos
            (λ j lo hi. inside j (omega arith) (omega arith)) (rw shift end) c),
    )

times_mono : (a b c : ℕ) → a ≤ b → a * c ≤ b * c
times_mono a b c h = grind arith

-- A list below the new blocks is not touched by the loop or by the last store.
pub kept-Chain :
    (m m' : Memory) (bound p : ℕ) (free : List ℕ)
    → ((a : ℕ) → a < bound → m' a ≡ m a)
    → ((a : ℕ) → 0 < count a free → a < bound)
    → Chain m p free
    → Chain m' p free
kept-Chain m m' bound p [] same below c = c
kept-Chain m m' bound p (x ∷ xs) same below c = (
  c.0,
  c.1,
  Chain-start m' (m' x) (m x) xs (same x (below x (ground arith)))
      (kept-Chain m m' bound (m x) xs same (λ a h. below a (ground arith)) c.2),
)

module _ (m m' : Memory) (area bsize i n last q : ℕ) (free : List ℕ) (pos : 0 < bsize)
    (some_area : 0 < area) (e : last ≡ block_at area bsize (i + n))
    (linked : IsLinked m m' area bsize i (suc n)) (c : Chain m q free)
    (below : (a : ℕ) → 0 < count a free → a < block_at area bsize i) where
  joined-frame : (a : ℕ) → a < block_at area bsize i → update m' last q a ≡ m a
  joined-frame a h =
      let other : last ≢ a = λ same. omega (arith, same) in
      rw (ne→== last a other) (linked.outside a (inl h))

  joined-inside :
      (j : ℕ)
      → i ≤ j
      → j < i + n
      → update m' last q (block_at area bsize j) ≡ block_at area bsize (j + 1)
  joined-inside j lo hi =
      let step = times_mono (j + 1) (i + n) bsize (omega arith) in
      let other : last ≢ block_at area bsize j = λ same. omega (arith, same) in
      rw (ne→== last (block_at area bsize j) other) (linked.inside j lo (omega arith))

  joined-Chain : Chain (update m' last q) (block_at area bsize i) (run area bsize i (suc n) ++ free)
  joined-Chain =
      run-Chain (update m' last q) area bsize q i n free some_area joined-inside
        (rw (eq→== last (block_at area bsize (i + n)) e) refl)
        (kept-Chain m (update m' last q) (block_at area bsize i) q free joined-frame below c)

-- `n + 1` new blocks from the capacity on are put in front of the free list, in order of address.
-- Memory below them does not change.
pub free_list_extend-Chain :
    (area bsize n : ℕ) (s : State) (free : List ℕ)
    → 0 < bsize
    → 0 < area
    → Chain s.mem s.page.free free
    → ((a : ℕ) → 0 < count a free → a < block_at area bsize s.page.capacity)
    → (m : Memory) × (free_list_extend area bsize (suc n) s
        ≡ some (record {
          mem = m;
          page = record (s.page) { free = block_at area bsize s.page.capacity };
        }))
      × Chain m
          (block_at area bsize s.page.capacity)
          (run area bsize s.page.capacity (suc n) ++ free)
      × ((a : ℕ) → a < block_at area bsize s.page.capacity → m a ≡ s.mem a)
unfolding free_list_extend
free_list_extend-Chain area bsize n s free pos some_area c below =
    let last = block_at area bsize (s.page.capacity + suc n - 1) in
    let at : last ≡ block_at area bsize (s.page.capacity + n) =
      ap (block_at area bsize) (omega arith) in
    let (m, result, linked) =
      link_blocks-IsLinked (suc n + 1) s.mem area bsize last s.page.capacity (suc n) pos
        (omega arith) (omega (arith, at)) in
    (
      update m last s.page.free,
      ap
          (Option.map (λ m. record {
            mem = update m last s.page.free;
            page = record (s.page) { free = block_at area bsize s.page.capacity };
          }))
          result,
      joined-Chain s.mem m area bsize s.page.capacity n last s.page.free free pos some_area at
          linked c below,
      joined-frame s.mem m area bsize s.page.capacity n last s.page.free free pos some_area at
          linked c below,
    )
