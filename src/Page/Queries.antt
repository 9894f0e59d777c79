-- ===== src/Page/Queries.antt =====
-- What the queries on a page say of a valid page.
use mimalloc_mc.Prelude.{
  ℕ, ◌+◌, ◌≤◌, ◌≡◌, ◌≢◌, ◌↔◌, refl, sym, ap, ◌∙◌, inl, inr, List, [], ◌∷◌, true, false, arith, ◌==◌,
  Bool-cases, ==→ne, eq→==, some, ◌/◌, ◌-◌, ◌^◌, ◌%◌,
}
use mimalloc_mc.Prelude.Lists.{length}
use mimalloc_mc.Prelude.Chain.{Chain}
use mimalloc_mc.ThreadFree.{tf_block}
use mimalloc_mc.Page.{State, all_free, has_any_available, immediate_available, mostly_used}
use mimalloc_mc.Page.Invariant.{IsPage}

empty_length : (xs : List ℕ) → length xs ≡ 0 → xs ≡ []
empty_length [] h = refl
empty_length (x ∷ xs) h = absurd (omega arith)

null_head : (m : ℕ → ℕ) (p : ℕ) (xs : List ℕ) → Chain m p xs → (p ≡ 0) ↔ (xs ≡ [])
null_head m p [] c = (λ _. refl, λ _. c)
null_head m p (x ∷ xs) c = (λ e. absurd (c.1 (sym c.0 ∙ e)), λ e. cc)

module _ {area bsize : ℕ} {s : State} {free local thread live : List ℕ}
    (v : IsPage area bsize s free local thread live) where
  -- On a valid page, `mi_page_all_free` says yes exactly when no program holds a block of it and
  -- its thread free list is empty.
  pub all_free_iff : (all_free s.page ≡ true) ↔ ((thread ≡ []) × (live ≡ []))
  unfolding all_free
  all_free_iff = (
    λ e.
        let none : s.page.used ≡ 0 = ground arith in
        (
          empty_length thread (omega (arith, v.in_use)),
          empty_length live (omega (arith, v.in_use)),
        ),
    λ e. eq→== s.page.used 0 (omega (arith, v.in_use, ap length e.0, ap length e.1)),
  )

  -- On a valid page, `mi_page_immediate_available` says yes exactly when the free list is not
  -- empty.
  pub immediate_available_iff : (immediate_available s.page ≡ true) ↔ (free ≢ [])
  unfolding immediate_available
  immediate_available_iff =
      let head = null_head s.mem s.page.free free v.free_chain in
      elim (Bool-cases (s.page.free == 0)) [
        | inl null ↦ rw null (λ e. cc, λ ne. absurd (ne (head.0 (ground arith))))
        | inr some' ↦ rw some' (λ _ e. ==→ne s.page.free 0 some' (head.1 e), λ _. refl)
      ]

  -- On a valid page, `mi_page_has_any_available` is false exactly when the thread free list is
  -- empty and programs hold as many blocks as the page has reserved.
  pub has_any_available_iff :
      (has_any_available s.page ≡ false) ↔ ((thread ≡ []) × (length live ≡ s.page.reserved))
  unfolding has_any_available
  has_any_available_iff =
      let head = null_head s.mem (tf_block s.page.xthread_free) thread v.thread_chain in
      elim (Bool-cases (tf_block s.page.xthread_free == 0)) [
        | inl null ↦
            let none = head.0 (ground arith) in
            let few = ap length none in
            rw null (
              λ e. (none, ground (arith, few, v.in_use, v.total, v.within)),
              λ e. ground (arith, few, e.1, v.in_use),
            )
        | inr some' ↦ rw some' (
          λ e. absurd (ground arith),
          λ e. absurd (==→ne (tf_block s.page.xthread_free) 0 some' (head.1 e.0)),
        )
      ]

  -- On a valid page, `mi_page_mostly_used` says yes exactly when at most an eighth of the reserved
  -- blocks is neither held by a program nor on the thread free list.
  pub mostly_used_iff :
      (mostly_used (some s.page) ≡ true)
      ↔ (s.page.reserved - (length thread + length live) ≤ s.page.reserved / 8)
  unfolding mostly_used
  mostly_used_iff =
      let exact : (s.page.reserved + 2 ^ 32 - s.page.used) % 2 ^ 32
          ≡ s.page.reserved - (length thread + length live) =
        omega (arith, v.in_use, v.total, v.within, v.small) in
      rw exact (ground arith)
