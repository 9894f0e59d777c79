-- ===== src/Prelude/Chain.antt =====
-- Singly linked lists in memory. A memory maps the address of a block to the `next` field in it;
-- the null pointer is 0.
use Prim.Native.Nat.{ℕ, suc, ◌+◌, ◌≤◌, ◌<◌}
use mathlib.Core.Path.{◌≡◌, refl, ◌∙◌}
use mathlib.Core.Logic.{◌≢◌, inl, inr}
use mathlib.Core.List.{List, [], ◌∷◌, ◌++◌}
use native.Mathlib.Omega.{arith}
use mimalloc_mc.Prelude.Tests.{◌==◌, if◌then◌else◌, update, Bool-cases}
use mimalloc_mc.Prelude.Lists.{length}

abbrev pub Memory : Type 0
Memory = ℕ → ℕ

-- From `p` the `next` fields lead through `xs` to null.
abbrev pub Chain : Memory → ℕ → List ℕ → Type 0
Chain m p [] = p ≡ 0
Chain m p (x ∷ xs) = (p ≡ x) × (x ≢ 0) × Chain m (m x) xs

-- How often an address stands in a list.
abbrev pub count : (block : ℕ) → List ℕ → ℕ
count block (first ∷ rest) = if block == first then suc (count block rest) else count block rest
count block [] = 0

pub count-append :
    (block : ℕ) (before after : List ℕ)
    → count block (before ++ after) ≡ count block before + count block after
count-append block (first ∷ before) after = ground (arith, count-append block before after)
count-append block [] after = omega arith

-- A list without the first occurrence of an address.
abbrev pub erase : ℕ → List ℕ → List ℕ
erase a [] = []
erase a (x ∷ xs) = if a == x then xs else x ∷ erase a xs

pub length-erase : (a : ℕ) (xs : List ℕ) → 0 < count a xs → suc (length (erase a xs)) ≡ length xs
length-erase a [] h = absurd (omega arith)
length-erase a (x ∷ xs) h = ground (arith, length-erase a xs)

pub count-erase :
    (a b : ℕ) (xs : List ℕ) → 0 < count a xs → count b (erase a xs) + count b (a ∷ []) ≡ count b xs
count-erase a b [] h = absurd (omega arith)
count-erase a b (x ∷ xs) h = ground (arith, count-erase a b xs)

-- A store to a block outside of a list leaves the list alone.
pub Chain-update :
    (m : Memory) (a v p : ℕ) (xs : List ℕ)
    → count a xs ≡ 0
    → Chain m p xs
    → Chain (update m a v) p xs
Chain-update m a v p [] out c = c
Chain-update m a v p (x ∷ xs) out c = elim (Bool-cases (a == x)) [
  | inl e ↦ absurd (ground arith)
  | inr e ↦ (c.0, c.1, rw e (Chain-update m a v (m x) xs (ground arith) c.2))
]

-- The last block of a nonempty list.
abbrev pub last_or : ℕ → List ℕ → ℕ
last_or d [] = d
last_or d (x ∷ xs) = last_or x xs

pub count-last : (x : ℕ) (xs : List ℕ) → 0 < count (last_or x xs) (x ∷ xs)
count-last x [] = ground arith
count-last x (y ∷ xs) = ground (arith, count-last y xs)

update_self : (m : Memory) (a v : ℕ) → update m a v a ≡ v
update_self m a v = ground arith

update_ne : (m : Memory) (a v b : ℕ) → a ≢ b → update m a v b ≡ m b
update_ne m a v b h = ground arith

pub Chain-start : (m : Memory) (p q : ℕ) (xs : List ℕ) → p ≡ q → Chain m q xs → Chain m p xs
Chain-start m p q xs e c = rw e c

-- Storing a second list's head in the last block joins two lists without a common block.
pub Chain-append :
    (m : Memory) (p q x : ℕ) (xs ys : List ℕ)
    → Chain m p (x ∷ xs)
    → Chain m q ys
    → ((a : ℕ) → count a (x ∷ xs) + count a ys ≤ 1)
    → Chain (update m (last_or x xs) q) p ((x ∷ xs) ++ ys)
Chain-append m p q x [] ys c d apart = (
  c.0,
  c.1,
  Chain-start (update m x q) (update m x q x) q ys (update_self m x q)
      (Chain-update m x q q ys (ground (arith, apart x)) d),
)
Chain-append m p q x (y ∷ xs) ys c d apart =
    let rest = Chain-append m (m x) q y xs ys c.2 d (λ a. ground (arith, apart a)) in
    let other : last_or y xs ≢ x = λ e. ground (arith, count-last y xs, apart (last_or y xs), e) in
    (c.0, c.1, (update_ne m (last_or y xs) q x other ∙ rest.0, rest.1, rest.2))

-- A chain determines its list.
pub Chain-unique : (m : Memory) (p : ℕ) (xs ys : List ℕ) → Chain m p xs → Chain m p ys → xs ≡ ys
Chain-unique m p [] [] c d = refl
Chain-unique m p [] (y ∷ ys) c d = absurd (d.1 (omega arith))
Chain-unique m p (x ∷ xs) [] c d = absurd (c.1 (omega arith))
Chain-unique m p (x ∷ xs) (y ∷ ys) c d =
    let same : x ≡ y = omega arith in
    rw (same, Chain-unique m (m y) xs ys (rw same at c.2) d.2) refl
