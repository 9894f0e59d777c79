-- ===== src/Links/Remove.antt =====
-- Taking a node out of a doubly linked list.
use mimalloc_mc.Prelude.{
  ℕ, ◌≤◌, ◌<◌, ◌≡◌, ◌≢◌, ◌⊎◌, refl, sym, subst, ◌∙◌, inl, inr, List, [], ◌∷◌, arith, ◌==◌,
  if◌then◌else◌, Bool-cases, ==→ne, eq→==, ne→==,
}
use mimalloc_mc.Prelude.Chain.{count, erase, last_or, count-erase, count-last}
use mimalloc_mc.Links.{
  Links, Ends, Linked, IsQueue, IsOutside, Linked-agree, clear, unlink, unlink_ends,
}

-- What stands before a node: the start of the list, or another node.
prev_place :
    (l : Links) (before p x : ℕ) (xs : List ℕ)
    → Linked l before p xs
    → ((a : ℕ) → count a xs ≤ 1)
    → 0 < count x xs
    → ((p ≡ x) × (l.prev x ≡ before)) ⊎ ((p ≢ x) × (0 < count (l.prev x) xs))
prev_place l before p x [] c once h = absurd (omega arith)
prev_place l before p x (y ∷ ys) c once h = elim (Bool-cases (x == y)) [
  | inl here ↦ let at : x ≡ y = ground arith in inl (c.0 ∙ sym at, rw at c.2)
  | inr there ↦
      let ne = ==→ne x y there in
      elim (prev_place l y (l.next y) x ys c.3 (λ a. ground (arith, once a)) (ground arith)) [
        | inl near ↦ inr (λ e. ne (sym e ∙ c.0), rw near.1 (ground arith))
        | inr far ↦ inr (λ e. ne (sym e ∙ c.0), ground (arith, far.1))
      ]
]

-- What stands behind a node: nothing, or another node.
next_place :
    (l : Links) (before p x : ℕ) (xs : List ℕ)
    → Linked l before p xs
    → 0 < count x xs
    → (l.next x ≡ 0) ⊎ (0 < count (l.next x) xs)
next_place l before p x [] c h = absurd (omega arith)
next_place l before p x (y ∷ []) c h = let at : x ≡ y = ground arith in inl (rw at c.3)
next_place l before p x (y ∷ z ∷ zs) c h = elim (Bool-cases (x == y)) [
  | inl here ↦ let at : x ≡ y = ground arith in inr (rw (at, c.3.0) (ground arith))
  | inr there ↦ elim (next_place l y (l.next y) x (z ∷ zs) c.3 (ground arith)) [
    | inl none' ↦ inl none'
    | inr some' ↦ inr (ground (arith, some'))
  ]
]

module _ (l : Links) (x : ℕ) where
  next_other : (a : ℕ) → a ≢ l.prev x → (unlink x l).next a ≡ l.next a
  next_other a ne = ground arith

  next_before : l.prev x ≢ 0 → (unlink x l).next (l.prev x) ≡ l.next x
  next_before ne = ground arith

  prev_other : (a : ℕ) → a ≢ l.next x → (unlink x l).prev a ≡ l.prev a
  prev_other a ne = ground arith

  prev_after : l.next x ≢ 0 → (unlink x l).prev (l.next x) ≡ l.prev x
  prev_after ne = ground arith

  member-ne : (a b : ℕ) (xs : List ℕ) → 0 < count a xs → count b xs ≡ 0 → a ≢ b
  member-ne a b xs h out e = omega (arith, rw e at h)

  -- What follows the node is linked to what precedes it.
  unlink_rest :
      (before : ℕ) (ys : List ℕ)
      → Linked l x (l.next x) ys
      → ((a : ℕ) → count a ys ≤ 1)
      → l.prev x ≡ before
      → count before ys ≡ 0
      → Linked (unlink x l) before (l.next x) ys
  unlink_rest before [] c once e out = c
  unlink_rest before (z ∷ zs) c once e out =
      let some' : l.next x ≢ 0 = λ n. c.1 (sym c.0 ∙ n) in
      let after : (unlink x l).prev z ≡ before =
        subst (λ a. (unlink x l).prev a ≡ before) c.0 (prev_after some' ∙ e) in
      let same : (unlink x l).next z ≡ l.next z =
        next_other z (λ n. member-ne z before (z ∷ zs) (ground arith) out (n ∙ e)) in
      (
        c.0,
        c.1,
        after,
        rw same (
            Linked-agree l (unlink x l) z (l.next z) zs
              (λ a h. (
                next_other a (λ n. member-ne a before zs h (ground arith) (n ∙ e)),
                prev_other a (λ n. member-ne a z zs h (ground (arith, once z)) (n ∙ c.0)),
              ))
              c.3),
      )

  -- A part of the list with the node in it, after the node is taken out.
  unlink-Linked :
      (before p : ℕ) (xs : List ℕ)
      → Linked l before p xs
      → ((a : ℕ) → count a xs ≤ 1)
      → count before xs ≡ 0
      → count 0 xs ≡ 0
      → 0 < count x xs
      → Linked (unlink x l) before (if p == x then l.next x else p) (erase x xs)
  unlink-Linked before p [] c once out null h = absurd (omega arith)
  unlink-Linked before p (y ∷ ys) c once out null h = elim (Bool-cases (x == y)) [
    | inl here ↦
        let at : x ≡ y = ground arith in
        let start : p ≡ x = c.0 ∙ sym at in
        rw (eq→== p x start, here)
          (unlink_rest before ys (subst (λ a. Linked l a (l.next a) ys) (sym at) c.3)
            (λ a. ground (arith, once a)) (subst (λ a. l.prev a ≡ before) (sym at) c.2)
            (ground (arith, out)))
    | inr there ↦
        let ne = ==→ne x y there in
        let inside : 0 < count x ys = ground arith in
        let apart : count y ys ≡ 0 = ground (arith, once y) in
        let rest =
          unlink-Linked y (l.next y) ys c.3 (λ a. ground (arith, once a)) apart
            (ground (arith, null)) inside in
        rw (ne→== p x (λ e. ne (sym e ∙ c.0)), there)
          (
            c.0,
            c.1,
            prev_other y (behind y ys c.3 inside apart c.1) ∙ c.2,
            rw (junction y ys c.3 (λ a. ground (arith, once a)) inside apart c.1) rest,
          )
  ]
    where
      behind :
          (y : ℕ) (ys : List ℕ)
          → Linked l y (l.next y) ys
          → 0 < count x ys
          → count y ys ≡ 0
          → y ≢ 0
          → y ≢ l.next x
      behind y ys c h apart nz e = elim (next_place l y (l.next y) x ys c h) [
        | inl none' ↦ nz (e ∙ none')
        | inr some' ↦ member-ne (l.next x) y ys some' apart (sym e)
      ]

      junction :
          (y : ℕ) (ys : List ℕ)
          → Linked l y (l.next y) ys
          → ((a : ℕ) → count a ys ≤ 1)
          → 0 < count x ys
          → count y ys ≡ 0
          → y ≢ 0
          → (unlink x l).next y ≡ (if l.next y == x then l.next x else l.next y)
      junction y ys c once h apart nz = elim (prev_place l y (l.next y) x ys c once h) [
        | inl near ↦ rw (eq→== _ _ near.0) (
            subst (λ a. (unlink x l).next a ≡ l.next x) near.1
              (next_before (λ z. nz (sym near.1 ∙ z))))
        | inr far ↦
            rw (ne→== _ _ far.0) (next_other y (λ e. member-ne (l.prev x) y ys far.1 apart (sym e)))
      ]

  last-erase :
      (before p : ℕ) (xs : List ℕ)
      → Linked l before p xs
      → ((a : ℕ) → count a xs ≤ 1)
      → 0 < count x xs
      → (if x == last_or before xs then l.prev x else last_or before xs)
        ≡ last_or before (erase x xs)
  last-erase before p [] c once h = absurd (omega arith)
  last-erase before p (y ∷ []) c once h =
      let at : x ≡ y = ground arith in rw at (ground (arith, c.2))
  last-erase before p (y ∷ z ∷ zs) c once h = elim (Bool-cases (x == y)) [
    | inl here ↦
        let at : x ≡ y = ground arith in
        let other : last_or z zs ≢ x =
          λ e. ground (arith, count-last z zs, once (last_or z zs), e) in
        rw (here, ne→== x (last_or z zs) (λ e. other (sym e))) refl
    | inr there ↦
        rw there (last-erase y (l.next y) (z ∷ zs) c.3 (λ a. ground (arith, once a)) (ground arith))
  ]

-- Null is no element.
pub no_null : (l : Links) (before p : ℕ) (ys : List ℕ) → Linked l before p ys → count 0 ys ≡ 0
no_null l before p [] c = refl
no_null l before p (y ∷ ys) c = ground (arith, no_null l y (l.next y) ys c.3)

-- Taking a node out of a queue leaves the queue of the other elements, in their order, and changes
-- no field outside of the queue.
module _ {l : Links} {e : Ends} {xs : List ℕ} (x : ℕ) (q : IsQueue l e xs)
    (inside : 0 < count x xs) where
  first_out :
      (if x == e.first then l.next x else e.first) ≡ (if e.first == x then l.next x else e.first)
  first_out = ground arith

  last_out : (unlink_ends x l e).last ≡ last_or 0 (erase x xs)
  last_out =
      subst (λ t. (if x == t then l.prev x else t) ≡ last_or 0 (erase x xs)) (sym q.ends)
        (last-erase l x 0 e.first xs q.linked q.once inside)

  erase-le : (a : ℕ) → count a (erase x xs) ≤ count a xs
  erase-le a = omega (arith, count-erase x a xs inside)

  pub unlink-IsQueue : IsQueue (unlink x l) (unlink_ends x l e) (erase x xs)
  unlink-IsQueue = record {
    linked = rw first_out (
        unlink-Linked l x 0 e.first xs q.linked q.once (no_null l 0 e.first xs q.linked)
          (no_null l 0 e.first xs q.linked) inside);
    ends = last_out;
    once = λ a. omega (arith, erase-le a, q.once a);
  }

  pub unlink-IsOutside : IsOutside l (unlink x l) xs
  unlink-IsOutside = record {
    next = λ a out. elim (prev_place l 0 e.first x xs q.linked q.once inside) [
      | inl near ↦ rw (eq→== (l.prev x) 0 near.1) refl
      | inr far ↦ next_other l x a (λ n. member-ne l x (l.prev x) a xs far.1 out (sym n))
    ];
    prev = λ a out. elim (next_place l 0 e.first x xs q.linked inside) [
      | inl none' ↦ rw (eq→== (l.next x) 0 none') refl
      | inr some' ↦ prev_other l x a (λ n. member-ne l x (l.next x) a xs some' out (sym n))
    ];
  }

  -- The fields of the node that left are not those of the queue.
  pub clear-IsQueue : IsQueue (clear x (unlink x l)) (unlink_ends x l e) (erase x xs)
  clear-IsQueue =
      let v = unlink-IsQueue in
      record {
        linked =
            Linked-agree (unlink x l) (clear x (unlink x l)) 0 (unlink_ends x l e).first
              (erase x xs)
              (λ a h.
                let ne : a ≢ x = λ n. ground (arith, count-erase x a xs inside, q.once a, n) in
                (ground arith, ground arith))
              v.linked;
        ends = v.ends;
        once = v.once;
      }

  pub clear-IsOutside : IsOutside l (clear x (unlink x l)) xs
  clear-IsOutside =
      let o = unlink-IsOutside in
      record {
        next = λ a out. let ne : a ≢ x = λ n. ground (arith, n) in ground (arith, o.next a out);
        prev = λ a out. let ne : a ≢ x = λ n. ground (arith, n) in ground (arith, o.prev a out);
      }
