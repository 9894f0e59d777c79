-- ===== src/Queue/Append.antt =====
-- The pages of another heap's queue behind those of a queue.
use mimalloc_mc.Prelude.{
  ℕ, ◌+◌, ◌≤◌, ◌<◌, ◌≡◌, ◌≢◌, refl, sym, ap, ◌∙◌, subst, inl, inr, Bool-cases, ==_iff, ==→ne, List,
  [], ◌∷◌, ◌++◌, true, false, arith, ◌==◌, eq→==, ne→==, update,
}
use mimalloc_mc.Prelude.Chain.{count, count-append, count-last}
use mimalloc_mc.Links.{Ends, IsQueue}
use mimalloc_mc.Links.Remove.{no_null}
use mimalloc_mc.Links.Join.{join-IsQueue, join-IsOutside}
use mimalloc_mc.Queue.{Heap, queue_join}
use mimalloc_mc.Queue.Direct.{IsUsed}
use mimalloc_mc.Queue.Invariant.{Lists, IsQueues}
use mimalloc_mc.Queue.Change.{change-IsQueues}

pos_of : (n : ℕ) → n ≢ 0 → 0 < n
pos_of n ne = ground (arith, ne)

module _ {empty : ℕ} {h : Heap} {lists : Lists} (b : ℕ) (append : Ends) (z : ℕ) (zs : List ℕ)
    (v : IsQueues empty h lists) (used : IsUsed b) (q : IsQueue h.links append (z ∷ zs))
    (nowhere : (c a : ℕ) → 0 < count a (z ∷ zs) → count a (lists c) ≡ 0) where
  -- A page of a list is not among the new ones.
  old_is_not_new : (c a : ℕ) → 0 < count a (lists c) → count a (z ∷ zs) ≡ 0
  old_is_not_new c a m = elim (Bool-cases (count a (z ∷ zs) == 0)) [
    | inl none' ↦ (==_iff _ 0).0 none'
    | inr some' ↦
        let there : 0 < count a (z ∷ zs) = pos_of _ (==→ne _ 0 some') in
        absurd (omega (arith, nowhere c a there, m))
  ]

  not_in_both :
      (xs : List ℕ)
      → lists b ≡ xs
      → ((a : ℕ) → count a xs ≤ 1)
      → (a : ℕ) → count a xs + count a (z ∷ zs) ≤ 1
  not_in_both xs e once a = elim (Bool-cases (count a xs == 0)) [
    | inl none' ↦ let n = (==_iff _ 0).0 none' in omega (arith, n, q.once a)
    | inr some' ↦
        let new = old_is_not_new b a (rw e (pos_of _ (==→ne _ 0 some'))) in
        omega (arith, new, once a)
  ]

  -- The cases of an empty queue and of another.
  joined-IsQueues :
      (xs : List ℕ)
      → lists b ≡ xs
      → IsQueue h.links (h.queues b) xs
      → IsQueues empty (queue_join empty b append h) (update lists b (xs ++ z ∷ zs))
  unfolding queue_join
  joined-IsQueues [] e r = rw (eq→== (h.queues b).last 0 r.ends) (
      let u =
        change-IsQueues true empty b h lists h.links append (z ∷ zs) (z ∷ zs) v used q
          (record { next = λ a out. refl; prev = λ a out. refl }) (λ c a ne m. old_is_not_new c a m)
          (λ a m. m) (λ no'. cc) in
      record { queue = u.queue; apart = u.apart; direct = u.direct })
  joined-IsQueues (x ∷ xs) e r =
      let some' : (h.queues b).last ≢ 0 = λ n. omega (
        arith,
        no_null h.links 0 (h.queues b).first (x ∷ xs) r.linked,
        subst (λ a. 0 < count a (x ∷ xs)) (sym r.ends ∙ n) (count-last x xs),
      ) in
      rw (ne→== _ 0 some') (
        let u =
          change-IsQueues false empty b h lists _ _ ((x ∷ xs) ++ z ∷ zs) ((x ∷ xs) ++ z ∷ zs) v used
            (join-IsQueue h.links (h.queues b) append x z xs zs r q (not_in_both (x ∷ xs) e r.once))
            (join-IsOutside h.links (h.queues b) append x z xs zs r q)
            (λ c a ne m. omega (
              arith,
              count-append a (x ∷ xs) (z ∷ zs),
              old_is_not_new c a m,
              v.apart c b a (λ e'. ne (sym e')) m,
              ap (count a) e,
            ))
            (λ a m. m) (λ no'. refl) in
        record { queue = u.queue; apart = u.apart; direct = u.direct })

  pub queue_join-IsQueues :
      IsQueues empty (queue_join empty b append h) (update lists b (lists b ++ z ∷ zs))
  queue_join-IsQueues = joined-IsQueues (lists b) refl (v.queue b)
