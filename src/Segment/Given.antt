-- ===== src/Segment/Given.antt =====
-- What `mi_segment_page_clear` of mimalloc-custom/segment.c and the move of the segment back to its
-- queue do to a thread's segments.
use mimalloc_mc.Prelude.{
  ℕ, ◌+◌, ◌<◌, ◌≡◌, ◌≢◌, refl, sym, ap, ◌∙◌, inl, inr, List, Bool, true, false, ◌||◌, ltb, ◌==◌,
  if◌then◌else◌, update, arith, Bool-cases, ==_iff, ==→ne, eq→==, ne→==, Option, none, some,
}
use mimalloc_mc.Prelude.Chain.{count}
use mathlib.Core.Path.{fun_ext}
use mimalloc_mc.Delayed.Family.{total, total-update}
use mimalloc_mc.Segment.{Segment, is_at_most_medium, word_sub}
use mimalloc_mc.Links.{Ends}
use mimalloc_mc.Segment.Store.{
  Store, Options, Memory, insert_in, free_queue_of_kind, insert_in_free_queue,
}
use mimalloc_mc.Segment.Claim.{release_page, move_back, page_clear}
use mimalloc_mc.Segment.Kept.{
  IsKept, in_use, kept, IsKept-then, IsKept-if, set_page-IsKept, pages_reset_add-IsKept,
}
use mimalloc_mc.Segment.Invariant.{
  IsSegment, one_if, Lists, IsTracked, IsStore, has_room, joined, IsKept-IsTracked,
}
use mimalloc_mc.Segment.Queues.{enter-IsTracked}
use mimalloc_mc.Segment.Pages.{IsTracked-open, used-le}

-- The segment after a page has been released.
abbrev release_in : Segment → ℕ → Segment
release_in s idx = record s {
  pages =
      update s.pages idx (record (s.pages idx) { is_zero_init = false; segment_in_use = false });
  used = word_sub s.used 1;
}

in_use-release :
    (s : Segment) (idx i : ℕ) → in_use (release_in s idx) i ≡ update (in_use s) idx false i
in_use-release s idx i = ground arith

one_less :
    (n : ℕ) (f : ℕ → Bool) (i : ℕ)
    → i < n
    → f i ≡ true
    → total one_if n (update f i false) + 1 ≡ total one_if n f
one_less n f i h e = omega (arith, total-update one_if n f i false h, ap one_if e)

release_count :
    (s : Segment) (idx : ℕ)
    → IsSegment s
    → idx < s.capacity
    → in_use s idx ≡ true
    → (release_in s idx).used + 1 ≡ s.used
release_count s idx v h busy =
    omega (arith, one_less s.capacity (in_use s) idx h busy, v.counted, used-le s v, v.small)

release_in-IsSegment :
    (s : Segment) (idx : ℕ)
    → IsSegment s
    → idx < s.capacity
    → in_use s idx ≡ true
    → IsSegment (release_in s idx)
release_in-IsSegment s idx v h busy =
    let pages : in_use (release_in s idx) ≡ update (in_use s) idx false =
      fun_ext (in_use-release s idx) in
    record {
      counted = rw pages (
          omega (
            arith,
            one_less s.capacity (in_use s) idx h busy,
            v.counted,
            release_count s idx v h busy,
          ));
      small = v.small;
    }

module _ {W : Type 0} {st : Store W} {lists : Lists} {owned : List ℕ} {is_open : ℕ → Bool}
    (base idx : ℕ) (v : IsTracked st lists owned is_open) (own : 0 < count base owned)
    (h : idx < (st.segments base).capacity) (busy : in_use (st.segments base) idx ≡ true) where
  release-here : (release_page base idx st).segments base ≡ release_in (st.segments base) idx
  unfolding release_page
  release-here = rw (eq→== base base refl) refl

  release-kind :
      (a : ℕ) → ((release_page base idx st).segments a).page_kind ≡ (st.segments a).page_kind
  unfolding release_page
  release-kind a = elim (Bool-cases (base == a)) [
    | inl here ↦
        let z : base ≡ a = (==_iff base a).0 here in rw here (ap (λ c. (st.segments c).page_kind) z)
    | inr there ↦ rw there refl
  ]

  release-IsTracked : IsTracked (release_page base idx st) lists owned is_open
  unfolding release_page
  release-IsTracked = record {
    queue = λ k small. v.queue k small;
    listed = λ k a b. v.listed k a (b.0, sym (release-kind a) ∙ b.1, b.2, b.3);
    only = λ k a m. let b = v.only k a m in (b.0, release-kind a ∙ b.1, b.2, b.3);
    segments = λ a own'. elim (Bool-cases (base == a)) [
      | inl here ↦
          rw here (release_in-IsSegment (st.segments base) idx (v.segments base own) h busy)
      | inr there ↦ rw there (v.segments a own')
    ];
    not_null = v.not_null;
  }

  release-other : (a : ℕ) → a ≢ base → (release_page base idx st).segments a ≡ st.segments a
  unfolding release_page
  release-other a ne = rw (ne→== base a (λ z. ne (sym z))) refl

insert-segments :
    {W : Type 0} (base : ℕ) (st : Store W) → (insert_in_free_queue base st).segments ≡ st.segments
unfolding insert_in_free_queue
insert-segments base st = by_queue (free_queue_of_kind (st.segments base).page_kind st.tld)
  where
    by_queue :
        (q : Option Ends)
        → (insert_in (st.segments base).page_kind base q st).segments ≡ st.segments
    by_queue none = refl
    by_queue (some e) = refl

module _ {W : Type 0} (mem : Memory W) (options : Options) (allow_reset : Bool) {st : Store W}
    {lists : Lists} {owned : List ℕ} (base idx : ℕ) (v : IsStore st lists owned)
    (own : 0 < count base owned) (h : idx < (st.segments base).capacity)
    (busy : in_use (st.segments base) idx ≡ true) where
  abbrev cleared : Store W
  cleared = page_clear mem options base idx allow_reset st

  clear-IsKept : IsKept (release_page base idx st) cleared
  unfolding page_clear
  clear-IsKept =
      IsKept-then
        (IsKept-if allow_reset
          (pages_reset_add-IsKept mem options base idx (release_page base idx st))
          (kept (release_page base idx st)))
        (set_page-IsKept _ base idx _ refl)

  clear-IsTracked : IsTracked cleared lists owned (has_room st)
  clear-IsTracked = IsKept-IsTracked clear-IsKept (release-IsTracked base idx v own h busy)

  used_cleared : (cleared.segments base).used + 1 ≡ (st.segments base).used
  used_cleared =
      ap (λ u. u + 1)
        ((clear-IsKept.segments base).used ∙ ap (λ s. s.used) (release-here base idx v own h busy))
      ∙ release_count (st.segments base) idx (v.segments base own) h busy

  capacity_cleared : (cleared.segments base).capacity ≡ (st.segments base).capacity
  capacity_cleared =
      (clear-IsKept.segments base).capacity
      ∙ ap (λ s. s.capacity) (release-here base idx v own h busy)

  kind_cleared : (cleared.segments base).page_kind ≡ (st.segments base).page_kind
  kind_cleared =
      (clear-IsKept.segments base).kind ∙ ap (λ s. s.page_kind) (release-here base idx v own h busy)

  room_cleared : (a : ℕ) → a ≢ base → has_room st a ≡ has_room cleared a
  room_cleared a ne =
      let same = clear-IsKept.segments a in
      let old = release-other base idx v own h busy a ne in
      sym (
        ap (λ u. ltb u (cleared.segments a).capacity) (same.used ∙ ap (λ s. s.used) old)
        ∙ ap (λ c. ltb (st.segments a).used c) (same.capacity ∙ ap (λ s. s.capacity) old))

  room_after_full :
      ((st.segments base).used == (st.segments base).capacity) ≡ true
      → (a : ℕ) → has_room st a || (a == base) ≡ has_room cleared a
  room_after_full full a = elim (Bool-cases (a == base)) [
    | inl here ↦
        let z : a ≡ base = (==_iff a base).0 here in
        rw z (ground (arith, used_cleared, capacity_cleared))
    | inr away ↦ ground (arith, room_cleared a (==→ne a base away))
  ]

  room_after :
      ((st.segments base).used == (st.segments base).capacity) ≡ false
      → (a : ℕ) → has_room st a ≡ has_room cleared a
  room_after room a = elim (Bool-cases (a == base)) [
    | inl here ↦
        let z : a ≡ base = (==_iff a base).0 here in
        rw z (
          ground (
            arith,
            used_cleared,
            capacity_cleared,
            used-le (st.segments base) (v.segments base own),
          ))
    | inr away ↦ room_cleared a (==→ne a base away)
  ]

  -- The counts and the pages in use after the page has been cleared and the segment has gone back.
  pub cleared_used : (cleared.segments base).used + 1 ≡ (st.segments base).used
  cleared_used = used_cleared

  pub cleared_abandoned : (cleared.segments base).abandoned ≡ (st.segments base).abandoned
  cleared_abandoned =
      (clear-IsKept.segments base).abandoned
      ∙ ap (λ s. s.abandoned) (release-here base idx v own h busy)

  pub cleared_pages :
      (i : ℕ)
      → in_use ((move_back base cleared).segments base) i
        ≡ update (in_use (st.segments base)) idx false i
  unfolding move_back
  cleared_pages i =
      let same =
        (clear-IsKept.segments base).pages i
        ∙ ap (λ s. in_use s i) (release-here base idx v own h busy)
        ∙ in_use-release (st.segments base) idx i in
      elim (Bool-cases ((cleared.segments base).used + 1 == (cleared.segments base).capacity)) [
        | inl full ↦ rw full (ap (λ f. in_use (f base) i) (insert-segments base cleared) ∙ same)
        | inr room ↦ rw room same
      ]

  -- Giving back a page that is in use, of a segment of small or medium pages that the thread owns,
  -- counts it as free. A segment that was full goes to the end of its queue, as the end of
  -- `_mi_segment_page_free` has it, and the others stay where they are: the queues have exactly the
  -- segments with free pages afterwards.
  pub page_clear-move_back :
      is_at_most_medium (st.segments base).page_kind ≡ true
      → let after = move_back base cleared in
        IsStore after
          (if (st.segments base).used == (st.segments base).capacity
            then joined (st.segments base).page_kind base lists
            else lists)
          owned
        × ((after.segments base).used + 1 ≡ (st.segments base).used)
  unfolding move_back
  page_clear-move_back small =
      elim (Bool-cases ((st.segments base).used == (st.segments base).capacity)) [
        | inl full ↦
            let again : (cleared.segments base).used + 1 == (cleared.segments base).capacity
                ≡ true =
              ground (arith, used_cleared, capacity_cleared) in
            let segments = insert-segments base cleared in
            rw (full, again)
              (
                IsTracked-open {is_open' = has_room (insert_in_free_queue base cleared)}
                    (λ a own' k.
                      room_after_full full a
                      ∙ ap (λ f. ltb (f a).used (f a).capacity) (sym segments))
                    (enter-IsTracked base (st.segments base).page_kind clear-IsTracked kind_cleared
                      small own (ground arith)),
                ap (λ f. (f base).used + 1) segments ∙ used_cleared,
              )
        | inr room ↦
            let again : (cleared.segments base).used + 1 == (cleared.segments base).capacity
                ≡ false =
              ground (arith, used_cleared, capacity_cleared) in
            rw (room, again)
              (
                IsTracked-open {is_open' = has_room cleared} (λ a own' k. room_after room a)
                    clear-IsTracked,
                used_cleared,
              )
      ]
