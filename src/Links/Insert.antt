-- ===== src/Links/Insert.antt =====
-- Putting a node into a doubly linked list.
use mimalloc_mc.Prelude.{
  ℕ, ◌≤◌, ◌≡◌, ◌≢◌, refl, sym, subst, ◌∙◌, List, [], ◌∷◌, ◌++◌, arith, eq→==, ne→==,
}
use mimalloc_mc.Prelude.Chain.{count, count-append, last_or, count-last}
use mimalloc_mc.Links.Remove.{no_null}
use mimalloc_mc.Links.{
  Links, Ends, Linked, IsQueue, IsOutside, Linked-agree, push_front, push_front_ends, push_back,
  push_back_ends,
}

module _ (l : Links) (e : Ends) (x : ℕ) (nz : x ≢ 0) where
  front_next : (push_front x l e).next x ≡ e.first
  front_next = ground arith

  front_next_other : (a : ℕ) → a ≢ x → (push_front x l e).next a ≡ l.next a
  front_next_other a ne = ground arith

  front_prev : e.first ≢ x → (push_front x l e).prev x ≡ 0
  front_prev ne = ground arith

  front_prev_first : e.first ≢ 0 → (push_front x l e).prev (e.first) ≡ x
  front_prev_first ne = ground arith

  front_prev_other : (a : ℕ) → a ≢ x → a ≢ e.first → (push_front x l e).prev a ≡ l.prev a
  front_prev_other a ne ne' = ground arith

  -- A new node in front of a queue.
  pub push_front-IsQueue :
      (xs : List ℕ)
      → IsQueue l e xs
      → count x xs ≡ 0
      → IsQueue (push_front x l e) (push_front_ends x e) (x ∷ xs)
  push_front-IsQueue [] q out = record {
    linked = (refl, nz, front_prev (λ n. nz (sym n ∙ q.linked)), front_next ∙ q.linked);
    ends = ground (arith, q.linked);
    once = λ a. ground arith;
  }
  push_front-IsQueue (y ∷ ys) q out =
      let c = q.linked in
      let some' : e.first ≢ 0 = λ n. c.1 (sym c.0 ∙ n) in
      let other : y ≢ x = λ n. ground (arith, n) in
      record {
        linked = (
          refl,
          nz,
          front_prev (λ n. other (sym c.0 ∙ n)),
          rw front_next (
            c.0,
            c.1,
            subst (λ a. (push_front x l e).prev a ≡ x) c.0 (front_prev_first some'),
            rw (front_next_other y other) (
                Linked-agree l (push_front x l e) y (l.next y) ys
                  (λ a h. (
                    front_next_other a (λ n. ground (arith, n)),
                    front_prev_other a (λ n. ground (arith, n))
                        (λ n. ground (arith, n, c.0, q.once a)),
                  ))
                  c.3),
          ),
        );
        ends = rw (ne→== e.first 0 some') q.ends;
        once = λ a. ground (arith, q.once a);
      }

  pub push_front-IsOutside :
      (xs : List ℕ) → IsQueue l e xs → IsOutside l (push_front x l e) (x ∷ xs)
  push_front-IsOutside [] q = record {
    next = λ a out. front_next_other a (λ n. ground (arith, n));
    prev = λ a out. ground (arith, q.linked);
  }
  push_front-IsOutside (y ∷ ys) q =
      let c = q.linked in
      record {
        next = λ a out. front_next_other a (λ n. ground (arith, n));
        prev = λ a out. front_prev_other a (λ n. ground (arith, n)) (λ n. ground (arith, n, c.0));
      }

  back_next : e.last ≢ x → (push_back x l e).next x ≡ 0
  back_next ne = ground arith

  back_next_last : e.last ≢ 0 → (push_back x l e).next (e.last) ≡ x
  back_next_last ne = ground arith

  back_next_other : (a : ℕ) → a ≢ x → a ≢ e.last → (push_back x l e).next a ≡ l.next a
  back_next_other a ne ne' = ground arith

  back_prev : (push_back x l e).prev x ≡ e.last
  back_prev = ground arith

  back_prev_other : (a : ℕ) → a ≢ x → (push_back x l e).prev a ≡ l.prev a
  back_prev_other a ne = ground arith

  back-Linked :
      (before p y : ℕ) (ys : List ℕ)
      → Linked l before p (y ∷ ys)
      → e.last ≡ last_or y ys
      → ((a : ℕ) → count a (y ∷ ys) ≤ 1)
      → count x (y ∷ ys) ≡ 0
      → Linked (push_back x l e) before p ((y ∷ ys) ++ x ∷ [])
  back-Linked before p y [] c ends once out =
      let other : y ≢ x = λ n. ground (arith, n) in
      (
        c.0,
        c.1,
        back_prev_other y other ∙ c.2,
        (
          subst (λ a. (push_back x l e).next a ≡ x) ends (back_next_last (λ n. c.1 (sym ends ∙ n))),
          nz,
          back_prev ∙ ends,
          back_next (λ n. other (sym ends ∙ n)),
        ),
      )
  back-Linked before p y (z ∷ zs) c ends once out =
      let other : y ≢ x = λ n. ground (arith, n) in
      let inner : y ≢ e.last = λ n. ground (arith, count-last z zs, once y, n ∙ ends) in
      (
        c.0,
        c.1,
        back_prev_other y other ∙ c.2,
        rw (back_next_other y other inner) (
            back-Linked y (l.next y) z zs c.3 ends (λ a. ground (arith, once a))
              (ground (arith, out))),
      )

  last-append : (d : ℕ) (xs : List ℕ) → last_or d (xs ++ x ∷ []) ≡ x
  last-append d [] = refl
  last-append d (y ∷ ys) = last-append y ys

  -- A new node behind a queue.
  pub push_back-IsQueue :
      (xs : List ℕ)
      → IsQueue l e xs
      → count x xs ≡ 0
      → IsQueue (push_back x l e) (push_back_ends x e) (xs ++ x ∷ [])
  push_back-IsQueue [] q out = rw (eq→== e.last 0 q.ends) (record {
    linked = (refl, nz, ground (arith, q.ends), ground arith);
    ends = refl;
    once = λ a. ground arith;
  })
  push_back-IsQueue (y ∷ ys) q out =
      let c = q.linked in
      let some' : e.last ≢ 0 =
        λ n. ground (arith, no_null l 0 e.first (y ∷ ys) c, count-last y ys, q.ends, n) in
      let head : e.first ≡ (push_back_ends x e).first = rw (ne→== e.last 0 some') refl in
      record {
        linked =
            subst (λ p. Linked (push_back x l e) 0 p ((y ∷ ys) ++ x ∷ [])) head
              (back-Linked 0 e.first y ys c q.ends q.once out);
        ends = sym (last-append 0 (y ∷ ys));
        once = λ a. ground (arith, count-append a (y ∷ ys) (x ∷ []), q.once a);
      }

  pub push_back-IsOutside :
      (xs : List ℕ) → IsQueue l e xs → IsOutside l (push_back x l e) (xs ++ x ∷ [])
  push_back-IsOutside [] q = record {
    next = λ a out. ground (arith, q.ends);
    prev = λ a out. ground arith;
  }
  push_back-IsOutside (y ∷ ys) q = record {
    next = λ a out.
        back_next_other a (λ n. ground (arith, count-append a (y ∷ ys) (x ∷ []), n))
          (λ n. ground (arith, count-append a (y ∷ ys) (x ∷ []), count-last y ys, q.ends, n));
    prev = λ a out. back_prev_other a (λ n. ground (arith, count-append a (y ∷ ys) (x ∷ []), n));
  }
