-- ===== src/Segment/Queues.antt =====
-- A segment leaves its queue or enters it: `mi_segment_remove_from_free_queue` and
-- `mi_segment_insert_in_free_queue` of mimalloc-custom/segment.c.
use mimalloc_mc.Prelude.{
  ℕ, ◌<◌, ◌≡◌, ◌≢◌, ◌⊎◌, refl, sym, ap, ◌∙◌, inl, inr, List, [], ◌∷◌, Bool, true, false, not, ◌||◌,
  ◌&&◌, ltb, ◌==◌, arith, Bool-cases, ==_iff, ==→ne, eq→==, ne→==,
}
use mimalloc_mc.Prelude.Chain.{count, erase, count-erase, count-append}
use mimalloc_mc.Links.{Links, Linked, IsQueue-outside, unlink_ends, push_back_ends}
use mimalloc_mc.Links.Remove.{clear-IsQueue, clear-IsOutside}
use mimalloc_mc.Links.Insert.{push_back-IsQueue, push_back-IsOutside}
use mimalloc_mc.Segment.{PageKind, is_at_most_medium}
use mimalloc_mc.Segment.Store.{
  Store, is_in_queue, segment_queue_remove, segment_enqueue, remove_from_free_queue,
  insert_in_free_queue,
}
use mimalloc_mc.Segment.Invariant.{
  Lists, ends_of, BelongsTo, IsTracked, joined, kind_code, find_queue, change_queue, kind_cases,
  kinds_differ,
}

-- A node of a list is the first or has a node before it.
first_or_prev :
    (l : Links) (before p x : ℕ) (xs : List ℕ)
    → Linked l before p xs
    → 0 < count x xs
    → (p ≡ x) ⊎ (l.prev x ≢ 0)
first_or_prev l before p x [] c m = absurd (omega arith)
first_or_prev l before p x (y ∷ ys) c m = elim (Bool-cases (x == y)) [
  | inl here ↦ inl (c.0 ∙ sym ((==_iff x y).0 here))
  | inr later ↦ elim (first_or_prev l y (l.next y) x ys c.3 (rw later at m)) [
    | inr far ↦ inr far
    | inl near ↦ inr (λ z. second ys c.3 (rw later at m) near z)
  ]
]
  where
    second :
        (ys : List ℕ) → Linked l y (l.next y) ys → 0 < count x ys → l.next y ≡ x → l.prev x ≡ 0 → ⊥
    second [] d m near z = omega arith
    second (w ∷ ws) d m near z = c.1 (sym d.2 ∙ ap l.prev (sym d.0 ∙ near) ∙ z)

pub erase-out : (a : ℕ) (xs : List ℕ) → count a xs ≡ 0 → erase a xs ≡ xs
erase-out a [] h = refl
erase-out a (x ∷ xs) h = elim (Bool-cases (a == x)) [
  | inl here ↦ absurd (ground arith)
  | inr there ↦ rw there (ap (λ ys. x ∷ ys) (erase-out a xs (ground arith)))
]

pub erase-other : (a b : ℕ) (xs : List ℕ) → (b == a) ≡ false → count b (erase a xs) ≡ count b xs
erase-other a b [] h = refl
erase-other a b (x ∷ xs) h = ground (arith, erase-other a b xs h)

module _ {W : Type 0} {st : Store W} {lists : Lists} {owned : List ℕ} {is_open : ℕ → Bool}
    (base : ℕ) (k : PageKind) (v : IsTracked st lists owned is_open)
    (kind : (st.segments base).page_kind ≡ k) (small : is_at_most_medium k ≡ true) where
  -- A segment in the list of another kind has another kind.
  pub not_here : (j : PageKind) → k ≢ j → count base (lists j) ≡ 0
  not_here j ne = elim (Bool-cases (ltb 0 (count base (lists j)))) [
    | inl some_place ↦ absurd (ne (sym kind ∙ (v.only j base (ground arith)).1))
    | inr nowhere ↦ ground arith
  ]

  apart : (j : PageKind) → k ≢ j → (a : ℕ) → 0 < count a (lists j) → count a (lists k) ≡ 0
  apart j ne a m = elim (Bool-cases (ltb 0 (count a (lists k)))) [
    | inl both ↦ absurd (ne (sym (v.only k a (ground arith)).1 ∙ (v.only j a m).1))
    | inr one ↦ ground arith
  ]

  in_queue : 0 < count base (lists k) → is_in_queue base (ends_of k st.tld) st ≡ true
  in_queue m =
      elim (first_or_prev st.links 0 (ends_of k st.tld).first base (lists k)
        (v.queue k small).linked m) [ inl near ↦ ground arith | inr far ↦ ground arith ]

  removed :
      0 < count base (lists k)
      → remove_from_free_queue base st ≡ segment_queue_remove k base (ends_of k st.tld) st
  unfolding remove_from_free_queue
  removed m = rw (kind, find_queue k st.tld small, in_queue m) refl

  inserted : insert_in_free_queue base st ≡ segment_enqueue k base (ends_of k st.tld) st
  unfolding insert_in_free_queue
  inserted = rw (kind, find_queue k st.tld small) refl

  gone : 0 < count base (lists k) → (j : PageKind) → count base (erase base (lists j)) ≡ 0
  gone m j = elim (kind_cases k j) [
    | inl z ↦
        rw (← z) (ground (arith, count-erase base base (lists k) m, (v.queue k small).once base))
    | inr (codes, other) ↦
        let ne = kinds_differ k j codes in
        rw (erase-out base (lists j) (not_here j ne)) (not_here j ne)
  ]

  -- A segment in its queue leaves it.
  pub leave-IsTracked :
      0 < count base (lists k)
      → IsTracked
          (remove_from_free_queue base st)
          (λ j. erase base (lists j))
          owned
          (λ a. is_open a && not (a == base))
  leave-IsTracked m = rw (removed m) (record {
    queue = λ j small_j. elim (kind_cases k j) [
      | inl z ↦ rw (← z, change_queue k _ st.tld small) (clear-IsQueue base (v.queue k small) m)
      | inr (codes, other) ↦
          let ne = kinds_differ k j codes in
          rw
            (
              other (unlink_ends base st.links (ends_of k st.tld)) st.tld,
              erase-out base (lists j) (not_here j ne),
            )
            (IsQueue-outside (clear-IsOutside base (v.queue k small) m) (apart j ne)
              (v.queue j small_j))
    ];
    listed = λ j a b.
        let other : (a == base) ≡ false = ground arith in
        omega
          (arith, erase-other base a (lists j) other, v.listed j a (b.0, b.1, b.2, ground arith));
    only = λ j a i.
        let other : (a == base) ≡ false =
          ne→== a base
            (λ z. omega (arith, i, ap (λ x. count x (erase base (lists j))) z, gone m j)) in
        let b = v.only j a (omega (arith, i, erase-other base a (lists j) other)) in
        (b.0, b.1, b.2, ground arith);
    segments = v.segments;
    not_null = v.not_null;
  })

  -- The members of the lists with one more segment.
  listed_joined :
      (j : PageKind) (a : ℕ)
      → BelongsTo st owned (λ c. is_open c || (c == base)) j a
      → 0 < count a (joined k base lists j)
  listed_joined j a b = elim (Bool-cases (a == base)) [
    | inl here ↦
        let z : a ≡ base = (==_iff a base).0 here in
        let same : k ≡ j = sym kind ∙ ap (λ c. (st.segments c).page_kind) (sym z) ∙ b.1 in
        rw (eq→== _ _ (ap kind_code same)) (ground (arith, count-append a (lists j) (base ∷ []), z))
    | inr other ↦
        let old = v.listed j a (b.0, b.1, b.2, ground arith) in
        ground (arith, count-append a (lists j) (base ∷ []), old)
  ]

  only_joined :
      0 < count base owned
      → (j : PageKind) (a : ℕ) → 0 < count a (joined k base lists j)
      → BelongsTo st owned (λ c. is_open c || (c == base)) j a
  only_joined own j a i = elim (Bool-cases (a == base)) [
    | inl here ↦
        let z : a ≡ base = (==_iff a base).0 here in
        elim (kind_cases k j) [
          | inl same ↦ (rw z own, rw z (kind ∙ same), rw (← same) small, ground arith)
          | inr (codes, _) ↦ let b = v.only j a (rw codes at i) in (b.0, b.1, b.2, ground arith)
        ]
    | inr other ↦
        let b =
          v.only j a
            (ground (arith, count-append a (lists j) (base ∷ []), i, ==→ne a base other)) in
        (b.0, b.1, b.2, ground arith)
  ]

  -- A segment that is in no queue enters the one of its kind.
  pub enter-IsTracked :
      0 < count base owned
      → is_open base ≡ false
      → IsTracked
          (insert_in_free_queue base st)
          (joined k base lists)
          owned
          (λ a. is_open a || (a == base))
  enter-IsTracked own closed =
      let nz : base ≢ 0 = λ z. omega (arith, own, v.not_null, ap (λ x. count x owned) z) in
      let out : (j : PageKind) → count base (lists j) ≡ 0 = λ j.
        elim (Bool-cases (ltb 0 (count base (lists j)))) [
          | inl in_list ↦ absurd (cc ((v.only j base (ground arith)).3, closed))
          | inr nowhere ↦ ground arith
        ] in
      rw inserted (record {
        queue = λ j small_j. elim (kind_cases k j) [
          | inl z ↦
              rw (← z, change_queue k _ st.tld small, eq→== (kind_code k) _ refl)
                (push_back-IsQueue st.links (ends_of k st.tld) base nz (lists k) (v.queue k small)
                  (out k))
          | inr (codes, other) ↦
              rw (other (push_back_ends base (ends_of k st.tld)) st.tld, codes)
                (IsQueue-outside
                  (push_back-IsOutside st.links (ends_of k st.tld) base nz (lists k)
                    (v.queue k small))
                  (λ a m. ground (
                    arith,
                    apart j (kinds_differ k j codes) a m,
                    out j,
                    count-append a (lists k) (base ∷ []),
                  ))
                  (v.queue j small_j))
        ];
        listed = λ j a b. listed_joined j a b;
        only = λ j a i. only_joined own j a i;
        segments = v.segments;
        not_null = v.not_null;
      })
