-- ===== src/Segment/Released.antt =====
-- Segments that have gone back to the memory below, by `mi_segment_os_free` of
-- mimalloc-custom/segment.c.
use mimalloc_mc.Prelude.{
  ℕ, zero, suc, ◌<◌, ◌≡◌, ◌≢◌, refl, ap, ◌∙◌, inl, inr, Bool-cases, not, ◌&&◌, List, [], ◌∷◌, arith,
  ◌==◌, ==_iff, ==→ne,
}
use mimalloc_mc.Prelude.Chain.{count}
use mimalloc_mc.Segment.{Segment}
use mimalloc_mc.Segment.Store.{Store}
use mimalloc_mc.Segment.Cache.{Release, some_uncommitted, some_reset}

-- The calls of `_mi_mem_free` for the segments of a list, in its order, and what becomes of the memory
-- below: each with its size and memid, and with what is known of its pages. Unless memory that was reset
-- may have been decommitted, all of it is committed when each page is.
abbrev pub mem_freed : {W : Type 0} → Release W → (ℕ → Segment) → List ℕ → W → W
mem_freed rel segments [] w = w
mem_freed rel segments (x ∷ xs) w =
    let s = segments x in
    let any_reset = some_reset s.capacity s in
    let committed = not (some_uncommitted s.capacity s) && not (any_reset && rel.reset_decommits) in
    mem_freed rel segments xs (rel.mem_free x s.segment_size s.memid committed any_reset w)

-- Segments of a list have gone back to the memory below, each once, and the others are as they were.
pub record IsReleased {W : Type 0} (rel : Release W) (st st' : Store W) (xs : List ℕ) : Type 0 where
  pub memory : st'.os ≡ mem_freed rel st.segments xs st.os
  pub gone : (a : ℕ) → 0 < count a xs → (st'.segments a).thread_id ≡ 0
  pub others : (a : ℕ) → count a xs ≡ 0 → st'.segments a ≡ st.segments a

-- Which thread has a segment says nothing of its pages.
pub uncommitted-thread :
    (n : ℕ) (s : Segment) → some_uncommitted n (record s { thread_id = 0 }) ≡ some_uncommitted n s
unfolding some_uncommitted
uncommitted-thread zero s = refl
uncommitted-thread (suc n) s = rw (uncommitted-thread n s) refl

pub reset-thread :
    (n : ℕ) (s : Segment) → some_reset n (record s { thread_id = 0 }) ≡ some_reset n s
unfolding some_reset
reset-thread zero s = refl
reset-thread (suc n) s = rw (reset-thread n s) refl

pub in_one : (x a : ℕ) → 0 < count a (x ∷ []) → x ≡ a
in_one x a m = ground (arith, m)

module _ {W : Type 0} (rel : Release W) where
  -- The calls depend only on the segments of the list.
  mem_freed-same :
      (f g : ℕ → Segment) (xs : List ℕ) (w : W)
      → ((a : ℕ) → 0 < count a xs → f a ≡ g a)
      → mem_freed rel f xs w ≡ mem_freed rel g xs w
  mem_freed-same f g [] w same = refl
  mem_freed-same f g (x ∷ xs) w same =
      rw (same x (ground arith)) (mem_freed-same f g xs _ (λ a m. same a (ground arith)))

  pub IsReleased-none : (st : Store W) → IsReleased rel st st []
  IsReleased-none st = record {
    memory = refl;
    gone = λ a m. absurd (omega (arith, m));
    others = λ a out. refl;
  }

  -- One segment, and then the others.
  pub IsReleased-more :
      {st st' st'' : Store W} (x : ℕ) (xs : List ℕ)
      → count x xs ≡ 0
      → IsReleased rel st st' (x ∷ [])
      → IsReleased rel st' st'' xs
      → IsReleased rel st st'' (x ∷ xs)
  IsReleased-more {st} {st'} {st''} x xs once first rest = record {
    memory =
        rest.memory
        ∙ mem_freed-same st'.segments st.segments xs st'.os (λ a m.
          first.others a (elim (Bool-cases (a == x)) [
            | inl here ↦ absurd (omega (arith, m, once, ap (λ y. count y xs) ((==_iff a x).0 here)))
            | inr other ↦ rw other refl
          ]))
        ∙ ap (mem_freed rel st.segments xs) first.memory;
    gone = λ a m. elim (Bool-cases (count a xs == 0)) [
      | inl last ↦
          let out = (==_iff _ 0).0 last in
          ap (λ s. s.thread_id) (rest.others a out) ∙ first.gone a (ground (arith, m, out))
      | inr more ↦ rest.gone a (some_left _ (==→ne _ 0 more))
    ];
    others = λ a out. rest.others a (ground (arith, out)) ∙ first.others a (ground (arith, out));
  }
    where
      some_left : (n : ℕ) → n ≢ 0 → 0 < n
      some_left n ne = ground (arith, ne)
