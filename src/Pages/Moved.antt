-- ===== src/Pages/Moved.antt =====
-- Lists of a heap after a page has moved from one to another, or has left.
use mimalloc_mc.Prelude.{
  ℕ, ◌≤◌, ◌<◌, ◌≡◌, subst, inl, inr, Bool-cases, [], ◌∷◌, ◌++◌, arith, ◌==◌, ==_iff, update,
}
use mimalloc_mc.Prelude.Chain.{count, erase, count-append, count-erase}
use mimalloc_mc.Queue.Direct.{IsUsed}
use mimalloc_mc.Queue.Invariant.{Lists}

abbrev pub left_lists : (from page : ℕ) → Lists → Lists
left_lists from page lists = update lists from (erase page (lists from))

-- To the end of the list `to`.
abbrev pub moved_lists : (from to page : ℕ) → Lists → Lists
moved_lists from to page lists = update (left_lists from page lists) to (lists to ++ page ∷ [])

module _ (from page : ℕ) (lists : Lists) (inside : 0 < count page (lists from)) where
  pub count-left_lists : (c a : ℕ) → count a (left_lists from page lists c) ≤ count a (lists c)
  count-left_lists c a = elim (Bool-cases (from == c)) [
    | inl here ↦
        let e : from ≡ c = (==_iff from c).0 here in
        rw (here, ← e) (omega (arith, count-erase page a (lists from) inside))
    | inr there ↦ rw there (omega arith)
  ]

  pub moved_from :
      (to c a : ℕ)
      → 0 < count a (moved_lists from to page lists c)
      → (x : ℕ) × (0 < count a (lists x))
  moved_from to c a m = elim (Bool-cases (to == c)) [
    | inl here ↦ elim (Bool-cases (page == a)) [
      | inl same ↦ let e : page ≡ a = (==_iff page a).0 same in (from, rw (← e) inside)
      | inr other ↦
          (to, let m' = rw here at m in ground (arith, count-append a (lists to) (page ∷ []), m'))
    ]
    | inr there ↦ (c, let m' = rw there at m in omega (arith, m', count-left_lists c a))
  ]

  pub moved-IsUsed :
      ((c a : ℕ) → 0 < count a (lists c) → IsUsed c)
      → (to : ℕ) → IsUsed to
      → (c a : ℕ) → 0 < count a (moved_lists from to page lists c)
      → IsUsed c
  moved-IsUsed used to used_to c a m = elim (Bool-cases (to == c)) [
    | inl here ↦ subst IsUsed ((==_iff to c).0 here) used_to
    | inr there ↦ used c a (let m' = rw there at m in omega (arith, m', count-left_lists c a))
  ]
