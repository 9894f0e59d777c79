-- ===== src/Links/Join.antt =====
-- Putting one doubly linked list behind another.
use mimalloc_mc.Prelude.{
  ℕ, ◌+◌, ◌≤◌, ◌<◌, ◌≡◌, ◌≢◌, refl, sym, subst, ◌∙◌, List, [], ◌∷◌, ◌++◌, arith, update,
}
use mimalloc_mc.Prelude.Chain.{count, count-append, last_or, count-last}
use mimalloc_mc.Links.{Links, Ends, Linked, IsQueue, IsOutside, Linked-agree}

abbrev pub join : (before behind : Ends) → Links → Links
join before behind l = record {
  next = update l.next before.last behind.first;
  prev = update l.prev behind.first before.last;
}

abbrev pub join_ends : (before behind : Ends) → Ends
join_ends before behind = record { first = before.first; last = behind.last }

module _ (l : Links) (e e' : Ends) where
  next_last : (join e e' l).next e.last ≡ e'.first
  next_last = ground arith

  next_other : (a : ℕ) → a ≢ e.last → (join e e' l).next a ≡ l.next a
  next_other a ne = ground arith

  prev_first : (join e e' l).prev e'.first ≡ e.last
  prev_first = ground arith

  prev_other : (a : ℕ) → a ≢ e'.first → (join e e' l).prev a ≡ l.prev a
  prev_other a ne = ground arith

  behind-Linked :
      (z : ℕ) (zs : List ℕ)
      → Linked l 0 e'.first (z ∷ zs)
      → count e.last (z ∷ zs) ≡ 0
      → ((a : ℕ) → count a (z ∷ zs) ≤ 1)
      → Linked (join e e' l) e.last e'.first (z ∷ zs)
  behind-Linked z zs c out once = (
    c.0,
    c.1,
    subst (λ a. (join e e' l).prev a ≡ e.last) c.0 prev_first,
    (rw (next_other z (λ n. ground (arith, n, out))) (
        Linked-agree l (join e e' l) z (l.next z) zs
          (λ a h. (
            next_other a (λ n. ground (arith, n, out)),
            prev_other a (λ n. ground (arith, n, c.0, once a)),
          ))
          c.3)),
  )

  join-Linked :
      (before p y z : ℕ) (ys zs : List ℕ)
      → Linked l before p (y ∷ ys)
      → e.last ≡ last_or y ys
      → Linked l 0 e'.first (z ∷ zs)
      → ((a : ℕ) → count a (y ∷ ys) + count a (z ∷ zs) ≤ 1)
      → Linked (join e e' l) before p ((y ∷ ys) ++ z ∷ zs)
  join-Linked before p y z [] zs c ends d apart =
      let other : y ≢ e'.first = λ n. ground (arith, n, d.0, apart y) in
      (
        c.0,
        c.1,
        prev_other y other ∙ c.2,
        subst (λ q. Linked (join e e' l) q ((join e e' l).next q) (z ∷ zs)) ends
            (subst (λ q. Linked (join e e' l) e.last q (z ∷ zs)) (sym next_last)
              (behind-Linked z zs d (ground (arith, ends, apart e.last))
                (λ a. omega (arith, apart a)))),
      )
  join-Linked before p y z (x ∷ ys) zs c ends d apart =
      let other : y ≢ e'.first = λ n. ground (arith, n, d.0, apart y) in
      let inner : y ≢ e.last = λ n. ground (arith, count-last x ys, apart y, n ∙ ends) in
      (
        c.0,
        c.1,
        prev_other y other ∙ c.2,
        rw (next_other y inner)
            (join-Linked y (l.next y) x z ys zs c.3 ends d (λ a. ground (arith, apart a))),
      )

  last_joined : (d z : ℕ) (xs zs : List ℕ) → last_or d (xs ++ z ∷ zs) ≡ last_or z zs
  last_joined d z [] zs = refl
  last_joined d z (x ∷ xs) zs = last_joined x z xs zs

  -- The list of two queues without a common node.
  pub join-IsQueue :
      (y z : ℕ) (ys zs : List ℕ)
      → IsQueue l e (y ∷ ys)
      → IsQueue l e' (z ∷ zs)
      → ((a : ℕ) → count a (y ∷ ys) + count a (z ∷ zs) ≤ 1)
      → IsQueue (join e e' l) (join_ends e e') ((y ∷ ys) ++ z ∷ zs)
  join-IsQueue y z ys zs q r apart = record {
    linked = join-Linked 0 e.first y z ys zs q.linked q.ends r.linked apart;
    ends = r.ends ∙ sym (last_joined y z ys zs);
    once = λ a. omega (arith, count-append a (y ∷ ys) (z ∷ zs), apart a);
  }

  pub join-IsOutside :
      (y z : ℕ) (ys zs : List ℕ)
      → IsQueue l e (y ∷ ys)
      → IsQueue l e' (z ∷ zs)
      → IsOutside l (join e e' l) ((y ∷ ys) ++ z ∷ zs)
  join-IsOutside y z ys zs q r = record {
    next = λ a out. next_other a (λ n. outside_last a n out);
    prev = λ a out. prev_other a (λ n. outside_first a n out);
  }
    where
      outside_last : (a : ℕ) → a ≡ e.last → count a ((y ∷ ys) ++ z ∷ zs) ≡ 0 → ⊥
      outside_last a n out = omega (
        arith,
        count-append a (y ∷ ys) (z ∷ zs),
        out,
        subst (λ x. 0 < count x (y ∷ ys)) (sym (n ∙ q.ends)) (count-last y ys),
      )

      outside_first : (a : ℕ) → a ≡ e'.first → count a ((y ∷ ys) ++ z ∷ zs) ≡ 0 → ⊥
      outside_first a n out = ground (arith, count-append a (y ∷ ys) (z ∷ zs), n ∙ r.linked.0)
