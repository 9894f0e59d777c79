-- ===== src/Segment/Find.antt =====
-- `mi_segment_find_free` of mimalloc-custom/segment.c: the first free page whose memory can be
-- committed.
use mimalloc_mc.Prelude.{
  ℕ, zero, suc, ◌+◌, ◌≤◌, ◌<◌, ◌≡◌, ◌≢◌, ◌⊎◌, refl, sym, ap, ◌∙◌, inl, inr, List, Bool, true, false,
  ◌==◌, if◌then◌else◌, update, arith, Bool-cases, ==_iff, ==→ne, Option, none, some,
}
use mimalloc_mc.Prelude.Chain.{count}
use mathlib.Core.Path.{fun_ext}
use mimalloc_mc.Delayed.Family.{total}
use mimalloc_mc.Segment.{Segment, raw_page_start}
use mimalloc_mc.Segment.Store.{Store, Memory}
use mimalloc_mc.Segment.Reset.{pages_reset_remove}
use mimalloc_mc.Segment.Claim.{Result, commit_page, page_claim, find_free_from, find_free}
use mimalloc_mc.Segment.Kept.{in_use}
use mimalloc_mc.Segment.Untouched.{
  IsUntouched, IsUntouched-refl, IsUntouched-then, IsUntouched-IsSame, IsRefused, IsRefused-before,
}
use mimalloc_mc.Segment.Invariant.{IsSegment, one_if, Lists, IsStore}
use mimalloc_mc.Segment.Claimed.{IsClaimed, page_claim-IsClaimed}

-- A page that a search passes over: it is in use, or its memory could not be committed.
abbrev pub IsUnusable : {W : Type 0} → Memory W → (base : ℕ) → Segment → ℕ → Type 0
IsUnusable mem base s i = (in_use s i ≡ true) ⊎ IsRefused mem base s i

-- What a search for a free page from an index on returns: the index of the first page that was free and
-- could be claimed, and is claimed now, or nothing when there is none.
abbrev pub Found :
    {W : Type 0}
    → Memory W
    → (from base : ℕ) → Lists
    → List ℕ
    → (st st' : Store W) → Option ℕ
    → Type 0
Found mem from base lists owned st st' (some i) =
    (i < (st.segments base).capacity)
    × (in_use (st.segments base) i ≡ false)
    × IsClaimed base i true lists owned st st'
    × ((j : ℕ) → from ≤ j → j < i → IsUnusable mem base (st.segments base) j)
Found mem from base lists owned st st' none =
    IsClaimed base 0 false lists owned st st'
    × ((j : ℕ)
        → from ≤ j
        → j < (st.segments base).capacity
        → IsUnusable mem base (st.segments base) j)

module _ {W : Type 0} where
  -- Nothing has happened yet.
  nothing_yet :
      {lists : Lists} {owned : List ℕ} (base : ℕ) (st : Store W)
      → IsStore st lists owned
      → {idx : ℕ} → IsClaimed base idx false lists owned st st
  nothing_yet base st v = record {
    store = v;
    used = omega arith;
    page = λ z. absurd (cc z);
    committed = λ z. absurd (cc z);
    others = λ a _. IsUntouched-refl (st.segments a);
  }

  -- A claim after one that has failed.
  IsClaimed-later :
      {lists : Lists} {owned : List ℕ} (base i j : ℕ) (claimed : Bool) (st st' st'' : Store W)
      → IsClaimed base i false lists owned st st'
      → IsClaimed base j claimed lists owned st' st''
      → IsClaimed base j claimed lists owned st st''
  IsClaimed-later base i j claimed st st' st'' failed c =
      let s = IsUntouched-IsSame (failed.others base (inr refl)) in
      record {
        committed = c.committed;
        store = rw (← s.used, ← s.capacity, ← s.kind) c.store;
        used = c.used ∙ ap (λ u. u + one_if claimed) s.used;
        page = λ z k. c.page z k ∙ ap (λ f. update f j true k) (fun_ext s.pages);
        others = λ a d. IsUntouched-then (failed.others a (inr refl)) (c.others a d);
      }

  IsUnusable-before :
      {mem : Memory W} {base j : ℕ} {s s' : Segment}
      → IsUntouched s s'
      → IsUnusable mem base s' j
      → IsUnusable mem base s j
  IsUnusable-before {j = j} u (inl busy) = inl (sym ((IsUntouched-IsSame u).pages j) ∙ busy)
  IsUnusable-before u (inr refused) = inr (IsRefused-before u refused)

  -- A page has been passed over, and nothing has been claimed before it.
  Found-later :
      {mem : Memory W} {lists : Lists} {owned : List ℕ} (from base i : ℕ) (st st' st'' : Store W)
      (o : Option ℕ)
      → IsUnusable mem base (st.segments base) from
      → IsClaimed base i false lists owned st st'
      → Found mem (from + 1) base lists owned st' st'' o
      → Found mem from base lists owned st st'' o
  Found-later {mem} {lists} {owned} from base i st st' st'' o here failed f = go o f
    where
      untouched : IsUntouched (st.segments base) (st'.segments base)
      untouched = failed.others base (inr refl)

      passed :
          (n : ℕ)
          → ((j : ℕ) → from + 1 ≤ j → j < n → IsUnusable mem base (st'.segments base) j)
          → (j : ℕ) → from ≤ j
          → j < n
          → IsUnusable mem base (st.segments base) j
      passed n rest j lo hi = elim (Bool-cases (j == from)) [
        | inl first ↦ let z : j ≡ from = (==_iff j from).0 first in rw z here
        | inr later ↦ IsUnusable-before untouched (rest j (ground (arith, ==→ne j from later)) hi)
      ]

      go :
          (o : Option ℕ)
          → Found mem (from + 1) base lists owned st' st'' o
          → Found mem from base lists owned st st'' o
      go none (c, rest) = (
        IsClaimed-later base i 0 false st st' st'' failed c,
        passed (st.segments base).capacity
            (λ j lo hi. rest j lo (omega (arith, hi, (IsUntouched-IsSame untouched).capacity))),
      )
      go (some k) (h, free, c, rest) =
          let s = IsUntouched-IsSame untouched in
          (
            omega (arith, h, s.capacity),
            sym (s.pages k) ∙ free,
            IsClaimed-later base i k true st st' st'' failed c,
            passed k rest,
          )

module _ {W : Type 0} (mem : Memory W) {lists : Lists} {owned : List ℕ} (base : ℕ)
    (own : 0 < count base owned) where
  find_free_from-Found :
      (n idx : ℕ) (st : Store W)
      → IsStore st lists owned
      → idx + n ≡ (st.segments base).capacity
      → Found mem idx base lists owned st
          (find_free_from mem base n idx st).store
          (find_free_from mem base n idx st).value
  unfolding find_free_from
  find_free_from-Found zero idx st v e =
      (nothing_yet base st v, λ j lo hi. absurd (omega (arith, lo, hi, e)))
  find_free_from-Found (suc n) idx st v e = elim (Bool-cases (in_use (st.segments base) idx)) [
    | inl busy ↦ rw busy (
        Found-later idx base idx st st _ _ (inl busy) (nothing_yet base st v)
          (find_free_from-Found n (idx + 1) st v (omega (arith, e))))
    | inr free ↦
        let claim = page_claim mem base idx st in
        let (c, refused) = page_claim-IsClaimed mem base idx v own (omega (arith, e)) free in
        elim (Bool-cases claim.value) [
          | inl ok ↦
              rw (free, ok)
                (omega (arith, e), free, rw ok at c, λ j lo hi. absurd (omega (arith, lo, hi)))
          | inr failed ↦
              let c' = rw failed at c in
              let refused' : IsRefused mem base (st.segments base) idx = elim refused [
                | inl ok ↦ absurd (cc (ok, failed))
                | inr r ↦ r
              ] in
              let same_capacity = (IsUntouched-IsSame (c'.others base (inr refl))).capacity in
              rw (free, failed)
                (Found-later idx base idx st claim.store _ _ (inr refused') c' (
                  find_free_from-Found n (idx + 1) claim.store c'.store
                    (omega (arith, e, same_capacity))))
        ]
  ]

  -- `mi_segment_find_free` on a segment that the thread owns either returns the index of a page that
  -- was free, which is now claimed, and no other, and every page before it was in use, or was not
  -- committed and a commit of it failed; or it returns nothing, which is so only when that holds of
  -- every page of the segment, and no field of a segment or a page has changed but the time at which a
  -- page's reset is due. In both cases the queues have exactly the segments with free pages afterwards.
  pub find_free-Found :
      (st : Store W)
      → IsStore st lists owned
      → Found mem 0 base lists owned st (find_free mem base st).store (find_free mem base st).value
  unfolding find_free
  find_free-Found st v = find_free_from-Found (st.segments base).capacity 0 st v (omega arith)

-- When every page is in use, all are counted.
total_full : (n : ℕ) (f : ℕ → Bool) → ((i : ℕ) → i < n → f i ≡ true) → total one_if n f ≡ n
total_full zero f all = refl
total_full (suc n) f all =
    omega (arith, total_full n f (λ i h. all i (omega arith)), ap one_if (all n (omega arith)))

value_if :
    {W : Type 0} (x y : Result Bool W) (b : Bool)
    → (b ≡ true → x.value ≡ true)
    → (b ≡ false → y.value ≡ true)
    → (if b then x else y).value ≡ true
value_if x y true h k = h refl
value_if x y false h k = k refl

some_of : (o : Option ℕ) → (o ≢ none) → (i : ℕ) × (o ≡ some i)
some_of none h = absurd (h refl)
some_of (some i) h = (i, refl)

some≢none : {i : ℕ} → some i ≢ none
some≢none z = cc z

module _ {W : Type 0} (mem : Memory W) (commits : (a n : ℕ) (w : W) → (mem.commit a n w).ok ≡ true)
    (base : ℕ) where
  commit_ok : (idx : ℕ) (st : Store W) → (commit_page mem base idx st).value ≡ true
  unfolding commit_page
  commit_ok idx st =
      let p = (st.segments base).pages idx in
      let area = raw_page_start base (st.segments base) p in
      value_if _ _ p.is_committed (λ _. refl)
        (λ _.
          value_if _ _ (mem.commit area.start area.size st.os).ok (λ _. refl)
            (λ z. absurd (cc (z, commits area.start area.size st.os))))

  claim_ok : (idx : ℕ) (st : Store W) → (page_claim mem base idx st).value ≡ true
  unfolding page_claim
  claim_ok idx st =
      let ok = commit_ok idx (pages_reset_remove base idx st) in
      value_if _ _ (commit_page mem base idx (pages_reset_remove base idx st)).value (λ _. refl)
        (λ z. absurd (cc (z, ok)))

  none_free :
      (n idx : ℕ) (st : Store W)
      → (find_free_from mem base n idx st).value ≡ none
      → (i : ℕ) → idx ≤ i
      → i < idx + n
      → in_use (st.segments base) i ≡ true
  unfolding find_free_from
  none_free zero idx st e i lo hi = absurd (omega arith)
  none_free (suc n) idx st e i lo hi = elim (Bool-cases (in_use (st.segments base) idx)) [
    | inl busy ↦ elim (Bool-cases (i == idx)) [
      | inl here ↦ let z : i ≡ idx = (==_iff i idx).0 here in rw z busy
      | inr later ↦
          none_free n (idx + 1) st (rw busy at e) i (ground (arith, ==→ne i idx later))
            (omega arith)
    ]
    | inr free ↦ absurd (some≢none (rw (free, claim_ok idx st) at e))
  ]

  -- When memory can always be committed, `mi_segment_find_free` on a segment whose count of used
  -- pages is right and below its capacity does return a page.
  pub find_free-some :
      (st : Store W)
      → IsSegment (st.segments base)
      → (st.segments base).used < (st.segments base).capacity
      → (i : ℕ) × ((find_free mem base st).value ≡ some i)
  unfolding find_free
  find_free-some st v room =
      some_of (find_free_from mem base (st.segments base).capacity 0 st).value (λ e.
        let full =
          total_full (st.segments base).capacity (in_use (st.segments base))
            (λ i h. none_free (st.segments base).capacity 0 st e i (omega arith) (omega arith)) in
        omega (arith, full, v.counted, room))
