-- ===== src/Pages/Routes.antt =====
-- The two routes of `mi_free`, and the pointers that it refuses.
use mimalloc_mc.Prelude.{
  ℕ, ◌-◌, ◌≡◌, ◌≢◌, ◌⊎◌, refl, inl, inr, Bool, Bool-cases, true, false, not, ◌&&◌, ◌==◌, ne→==,
  eq→==, bit_and,
}
use mimalloc_mc.Size.{intptr_size}
use mimalloc_mc.Segment.{ptr_segment}
use mimalloc_mc.Pages.{Store, Segments}
use mimalloc_mc.Pages.Free.{free, free_generic, free_block, no_flags}

-- A pointer that `mi_free` takes for one of a block: aligned to words, in a segment with the right
-- cookie.
pub record IsAccepted {S : Type 0} (seg : Segments S) (p : ℕ) (st : Store S) : Type 0 where
  pub aligned : bit_and p (intptr_size - 1) ≡ 0
  pub in_segment : ptr_segment p ≢ 0
  pub cookie : seg.ptr_cookie (ptr_segment p) ≡ seg.cookie st.rest (ptr_segment p)

both : (x y z : Bool) → (x && (not y && not z)) ≡ true → (x ≡ true) × (y ≡ false) × (z ≡ false)
both false y z e = cc
both true false false e = (refl, refl, refl)
both true false true e = cc
both true true z e = cc

module _ {S : Type 0} (seg : Segments S) (p : ℕ) (st : Store S) where
  -- For a pointer that passes the checks, `mi_free` does what its generic route does, also where it
  -- takes the fast one.
  pub free-free_generic :
      IsAccepted seg p st
      → free seg p st
        ≡ free_generic seg (seg.this_thread == seg.thread_id st.rest (ptr_segment p)) p st
  unfolding free free_generic free_block
  free-free_generic ok =
      let page = seg.page_of st.rest p in
      rw (eq→== _ 0 ok.aligned, ne→== _ 0 ok.in_segment, eq→== _ _ ok.cookie)
        (elim (Bool-cases
          ((seg.this_thread == seg.thread_id st.rest (ptr_segment p)) && no_flags seg page st)) [
            | inl fast ↦ let (own, small, plain) = both _ _ _ fast in rw (own, small, plain) refl
            | inr slow ↦ rw slow refl
          ])

  -- `mi_free` does nothing with a pointer that is not aligned to words, that is in no segment, as
  -- null, or whose segment has another cookie.
  pub free_rejected :
      (bit_and p (intptr_size - 1) ≢ 0)
        ⊎ (ptr_segment p ≡ 0)
        ⊎ (seg.ptr_cookie (ptr_segment p) ≢ seg.cookie st.rest (ptr_segment p))
      → free seg p st ≡ st
  unfolding free
  free_rejected (inl unaligned) = rw (ne→== _ 0 unaligned) refl
  free_rejected (inr (inl nowhere)) = elim (Bool-cases (bit_and p (intptr_size - 1) == 0)) [
    | inl ok ↦ rw (ok, eq→== _ 0 nowhere) refl
    | inr odd ↦ rw odd refl
  ]
  free_rejected (inr (inr foreign)) = elim (Bool-cases (bit_and p (intptr_size - 1) == 0)) [
    | inl ok ↦ elim (Bool-cases (ptr_segment p == 0)) [
      | inl none' ↦ rw (ok, none') refl
      | inr some' ↦ rw (ok, some', ne→== _ _ foreign) refl
    ]
    | inr odd ↦ rw odd refl
  ]
