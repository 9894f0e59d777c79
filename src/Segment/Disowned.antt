-- ===== src/Segment/Disowned.antt =====
-- A segment leaves the queues of the thread that has it: `mi_segment_remove_from_free_queue` of
-- mimalloc-custom/segment.c, for a segment that may be in none.
use mimalloc_mc.Prelude.{
  ℕ, ◌≤◌, ◌<◌, ◌≡◌, refl, ap, inl, inr, Bool, Bool-cases, true, false, not, ◌&&◌, List, [], ◌∷◌,
  Option, none, some, arith, ltb, ◌==◌, ne→==,
}
use mimalloc_mc.Prelude.Chain.{count, erase, count-erase}
use mimalloc_mc.Links.{Ends}
use mimalloc_mc.Segment.{PageKind, is_at_most_medium}
use mimalloc_mc.Segment.Store.{Store, remove_from, remove_from_free_queue, is_in_queue}
use mimalloc_mc.Segment.Invariant.{Lists, IsTracked, ends_of, find_queue, kind_cases, kinds_differ}
use mimalloc_mc.Segment.Queues.{leave-IsTracked, not_here, erase-out, erase-other}

module _ {W : Type 0} where
  -- A segment that is in no list leaves none.
  absent-IsTracked :
      {st : Store W} {lists : Lists} {owned : List ℕ} {is_open : ℕ → Bool} (base : ℕ)
      → ((j : PageKind) → count base (lists j) ≡ 0)
      → IsTracked st lists owned is_open
      → IsTracked st (λ j. erase base (lists j)) owned (λ a. is_open a && not (a == base))
  absent-IsTracked {lists = lists} base out v = record {
    queue = λ j small. rw (erase-out base (lists j) (out j)) (v.queue j small);
    listed =
        λ j a b. rw (erase-out base (lists j) (out j)) (v.listed j a (b.0, b.1, b.2, ground arith));
    only = λ j a i.
        let m : 0 < count a (lists j) = rw (← erase-out base (lists j) (out j)) i in
        let b = v.only j a m in
        (
          b.0,
          b.1,
          b.2,
          ground (
            arith,
            out j,
            ne→== a base (λ z. omega (arith, m, out j, ap (λ x. count x (lists j)) z)),
          ),
        );
    segments = v.segments;
    not_null = v.not_null;
  }

  -- A segment that no queue has may be given to another thread.
  pub disown-IsTracked :
      {st : Store W} {lists : Lists} {owned : List ℕ} {is_open : ℕ → Bool} (base : ℕ)
      → ((a : ℕ) → count a owned ≤ 1)
      → IsTracked st lists owned (λ a. is_open a && not (a == base))
      → IsTracked st lists (erase base owned) is_open
  disown-IsTracked {lists = lists} {owned} base once v = record {
    queue = v.queue;
    listed = λ j a b.
        let other : (a == base) ≡ false = ne→== a base (λ z. gone (rw z at b.0)) in
        v.listed j a
          (rw (← erase-other base a owned other) b.0, b.1, b.2, ground (arith, b.3, other));
    only = λ j a i.
        let b = v.only j a i in
        let other : (a == base) ≡ false = ground (arith, b.3) in
        (rw (erase-other base a owned other) b.0, b.1, b.2, ground (arith, b.3));
    segments = λ a o. v.segments a (omega (arith, o, fewer a owned));
    not_null = omega (arith, v.not_null, fewer 0 owned);
  }
    where
      fewer : (a : ℕ) (xs : List ℕ) → count a (erase base xs) ≤ count a xs
      fewer a [] = omega arith
      fewer a (x ∷ xs) = ground (arith, fewer a xs)

      gone : 0 < count base (erase base owned) → ⊥
      gone m =
          ground
            (arith, m, once base, count-erase base base owned (omega (arith, m, fewer base owned)))

  remove_from-segments :
      (kind : PageKind) (base : ℕ) (e : Option Ends) (st : Store W)
      → (remove_from kind base e st).segments ≡ st.segments
  remove_from-segments kind base none st = refl
  remove_from-segments kind base (some e) st = elim (Bool-cases (is_in_queue base e st)) [
    | inl at ↦ rw at refl
    | inr off ↦ rw off refl
  ]

  pub removed-segments :
      (base : ℕ) (st : Store W) → (remove_from_free_queue base st).segments ≡ st.segments
  unfolding remove_from_free_queue
  removed-segments base st = remove_from-segments _ base _ st

  absent :
      (base : ℕ) (k : PageKind) (st : Store W)
      → (st.segments base).page_kind ≡ k
      → is_at_most_medium k ≡ true
      → is_in_queue base (ends_of k st.tld) st ≡ false
      → remove_from_free_queue base st ≡ st
  unfolding remove_from_free_queue
  absent base k st kind small out = rw (kind, find_queue k st.tld small, out) refl

  pub leave_if-IsTracked :
      {st : Store W} {lists : Lists} {owned : List ℕ} {is_open : ℕ → Bool} (base : ℕ) (k : PageKind)
      → IsTracked st lists owned is_open
      → (st.segments base).page_kind ≡ k
      → is_at_most_medium k ≡ true
      → (count base (lists k) ≡ 0 → is_in_queue base (ends_of k st.tld) st ≡ false)
      → IsTracked
          (remove_from_free_queue base st)
          (λ j. erase base (lists j))
          owned
          (λ a. is_open a && not (a == base))
  leave_if-IsTracked {st} {lists} {owned} {is_open} base k v kind small out =
      elim (Bool-cases (ltb 0 (count base (lists k)))) [
        | inl in_list ↦ leave-IsTracked base k v kind small (ground arith)
        | inr nowhere ↦
            let none_here : count base (lists k) ≡ 0 = ground arith in
            rw (absent base k st kind small (out none_here)) (
              absent-IsTracked base
                (λ j. elim (kind_cases k j) [
                  | inl z ↦ rw (← z) none_here
                  | inr (codes, _) ↦ not_here base k v kind small j (kinds_differ k j codes)
                ])
                v)
      ]
