-- ===== src/Delayed/Family.antt =====
-- Sums over the first `n` threads.
use mimalloc_mc.Prelude.{
  ℕ, zero, suc, ◌+◌, ◌≤◌, ◌<◌, ◌≡◌, ◌≢◌, refl, inl, inr, arith, ◌==◌, update, Bool-cases,
}

abbrev pub total {ℓ} : {A : Type ℓ} → (A → ℕ) → ℕ → (ℕ → A) → ℕ
total w zero f = 0
total w (suc n) f = total w n f + w (f n)

module _ {ℓ} {A : Type ℓ} (w : A → ℕ) where
  total-above : (n : ℕ) (f : ℕ → A) (i : ℕ) (a : A) → n ≤ i → total w n (update f i a) ≡ total w n f
  total-above zero f i a h = refl
  total-above (suc n) f i a h = ground (arith, total-above n f i a)

  -- An update at one thread exchanges one summand.
  pub total-update :
      (n : ℕ) (f : ℕ → A) (i : ℕ) (a : A)
      → i < n
      → total w n (update f i a) + w (f i) ≡ total w n f + w a
  total-update zero f i a h = absurd (omega arith)
  total-update (suc n) f i a h = elim (Bool-cases (i == n)) [
    | inl last ↦ ground (arith, total-above n f i a)
    | inr below ↦ ground (arith, total-update n f i a)
  ]

  pub le-total : (n : ℕ) (f : ℕ → A) (i : ℕ) → i < n → w (f i) ≤ total w n f
  le-total zero f i h = absurd (omega arith)
  le-total (suc n) f i h = elim (Bool-cases (i == n)) [
    | inl last ↦ ground arith
    | inr below ↦ ground (arith, le-total n f i)
  ]

  -- Two threads have two summands.
  pub two-le-total :
      (n : ℕ) (f : ℕ → A) (i j : ℕ) → i < n → j < n → i ≢ j → w (f i) + w (f j) ≤ total w n f
  two-le-total zero f i j h k ne = absurd (omega arith)
  two-le-total (suc n) f i j h k ne = elim (Bool-cases (i == n)) [
    | inl last ↦ ground (arith, le-total n f j)
    | inr below ↦ elim (Bool-cases (j == n)) [
      | inl last ↦ ground (arith, le-total n f i)
      | inr below' ↦ ground (arith, two-le-total n f i j)
    ]
  ]

  pub total-zero : (n : ℕ) (f : ℕ → A) → ((i : ℕ) → w (f i) ≡ 0) → total w n f ≡ 0
  total-zero zero f z = refl
  total-zero (suc n) f z = omega (arith, total-zero n f z, z n)
