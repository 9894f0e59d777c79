-- ===== src/Segment/Pages.antt =====
-- `mi_segment_page_claim` of mimalloc-custom/segment.c on a thread's segments.
use mimalloc_mc.Prelude.{
  ℕ, zero, suc, ◌+◌, ◌%◌, ◌≤◌, ◌<◌, ◌≡◌, ◌≢◌, refl, sym, ap, ◌∙◌, inl, inr, List, Bool, true, false,
  ◌&&◌, ◌==◌, if◌then◌else◌, update, arith, Bool-cases, ==_iff, ==→ne, eq→==, ne→==, Option, none,
  some,
}
use mimalloc_mc.Prelude.Chain.{count, erase}
use mimalloc_mc.Size.{word_mod}
use mathlib.Core.Path.{fun_ext}
use mimalloc_mc.Delayed.Family.{total, total-update}
use mimalloc_mc.Links.{Ends, IsQueue}
use mimalloc_mc.Segment.{PageKind, Segment, is_at_most_medium}
use mimalloc_mc.Segment.Store.{
  Store, is_in_queue, remove_from, remove_from_free_queue, free_queue_of_kind,
}
use mimalloc_mc.Segment.Claim.{take_page, leave_if_full}
use mimalloc_mc.Segment.Kept.{in_use}
use mimalloc_mc.Segment.Invariant.{IsSegment, ends_of, one_if, Lists, IsTracked, IsStore, has_room}
use mimalloc_mc.Segment.Queues.{leave-IsTracked}

pub total-le : (n : ℕ) (f : ℕ → Bool) → total one_if n f ≤ n
total-le zero f = omega arith
total-le (suc n) f = elim (Bool-cases (f n)) [
  | inl yes' ↦ rw yes' (omega (arith, total-le n f))
  | inr no' ↦ rw no' (omega (arith, total-le n f))
]

-- A segment has at most as many used pages as pages.
pub used-le : (s : Segment) → IsSegment s → s.used ≤ s.capacity
used-le s v = omega (arith, v.counted, total-le s.capacity (in_use s))

-- A free page more in use.
pub one_more :
    (n : ℕ) (f : ℕ → Bool) (i : ℕ)
    → i < n
    → f i ≡ false
    → total one_if n (update f i true) ≡ total one_if n f + 1
one_more n f i h e = omega (arith, total-update one_if n f i true h, ap one_if e)

-- The count of used pages after a page has been taken.
abbrev pub take_in : Segment → ℕ → Segment
take_in s idx = record s {
  pages = update s.pages idx (record (s.pages idx) { segment_in_use = true });
  used = (s.used + 1) % word_mod;
}

pub in_use-take :
    (s : Segment) (idx i : ℕ) → in_use (take_in s idx) i ≡ update (in_use s) idx true i
in_use-take s idx i = ground arith

taken_counts :
    (s : Segment) (idx : ℕ)
    → IsSegment s
    → idx < s.capacity
    → in_use s idx ≡ false
    → IsSegment (take_in s idx)
taken_counts s idx v h free =
    let pages : in_use (take_in s idx) ≡ update (in_use s) idx true = fun_ext (in_use-take s idx) in
    let sum = one_more s.capacity (in_use s) idx h free in
    let below = total-le s.capacity (update (in_use s) idx true) in
    record { counted = rw pages (omega (arith, sum, below, v.counted, v.small)); small = v.small }

module _ {W : Type 0} where
  pub remove-segments :
      (base : ℕ) (st : Store W) → (remove_from_free_queue base st).segments ≡ st.segments
  unfolding remove_from_free_queue
  remove-segments base st = by_queue (free_queue_of_kind (st.segments base).page_kind st.tld)
    where
      by_queue :
          (q : Option Ends)
          → (remove_from (st.segments base).page_kind base q st).segments ≡ st.segments
      by_queue none = refl
      by_queue (some e) = elim (Bool-cases (is_in_queue base e st)) [
        | inl inside ↦ rw inside refl
        | inr outside ↦ rw outside refl
      ]

  -- Only whether segments of small or medium pages are open matters.
  pub IsTracked-open :
      {st : Store W} {lists : Lists} {owned : List ℕ} {is_open is_open' : ℕ → Bool}
      → ((a : ℕ)
          → 0 < count a owned
          → is_at_most_medium (st.segments a).page_kind ≡ true
          → is_open a ≡ is_open' a)
      → IsTracked st lists owned is_open
      → IsTracked st lists owned is_open'
  IsTracked-open {st} same v = record {
    queue = v.queue;
    listed =
        λ k a b. v.listed k a (b.0, b.1, b.2, same a b.0 (ap is_at_most_medium b.1 ∙ b.2) ∙ b.3);
    only = λ k a m.
        let b = v.only k a m in
        (b.0, b.1, b.2, sym (same a b.0 (ap is_at_most_medium b.1 ∙ b.2)) ∙ b.3);
    segments = v.segments;
    not_null = v.not_null;
  }

  module _ {st : Store W} {lists : Lists} {owned : List ℕ} {is_open : ℕ → Bool} (base : ℕ)
      (v : IsTracked st lists owned is_open) (own : 0 < count base owned) where
    -- After a page has been taken, the segment leaves its queue if it was the last.
    pub leave_if_full-IsStore :
        ((a : ℕ) → a ≢ base → is_open a ≡ has_room st a)
        → is_open base ≡ true
        → IsStore
            (leave_if_full base st)
            (if ((st.segments base).used == (st.segments base).capacity)
                && is_at_most_medium (st.segments base).page_kind
              then (λ j. erase base (lists j))
              else lists)
            owned
    unfolding leave_if_full
    leave_if_full-IsStore others opened =
        let s = st.segments base in
        elim (Bool-cases ((s.used == s.capacity) && is_at_most_medium s.page_kind)) [
          | inl full ↦
              let small : is_at_most_medium s.page_kind ≡ true = ground arith in
              rw full (
                IsTracked-open
                  (λ a own' k. rw (remove-segments base st) elim (Bool-cases (a == base)) [
                    | inl here ↦ let z : a ≡ base = (==_iff a base).0 here in rw z (ground arith)
                    | inr away ↦ ground (arith, others a (==→ne a base away))
                  ])
                  (leave-IsTracked base s.page_kind v refl small
                    (v.listed s.page_kind base (own, refl, small, opened))))
          | inr room ↦ rw room (
              IsTracked-open
                (λ a own' k. elim (Bool-cases (a == base)) [
                  | inl here ↦
                      let z : a ≡ base = (==_iff a base).0 here in
                      let small : is_at_most_medium s.page_kind ≡ true = rw z at k in
                      rw z (ground (arith, opened, used-le s (v.segments base own)))
                  | inr away ↦ others a (==→ne a base away)
                ])
                v)
        ]

    -- Taking a free page keeps the queues as they are, while the segment counts as open.
    take-segments :
        (idx : ℕ)
        → idx < (st.segments base).capacity
        → in_use (st.segments base) idx ≡ false
        → (a : ℕ) → 0 < count a owned
        → IsSegment ((take_page base idx st).segments a)
    unfolding take_page
    take-segments idx h free a own' = elim (Bool-cases (base == a)) [
      | inl here ↦ rw here (taken_counts (st.segments base) idx (v.segments base own) h free)
      | inr there ↦ rw there (v.segments a own')
    ]

    take-kind :
        (idx a : ℕ) → ((take_page base idx st).segments a).page_kind ≡ (st.segments a).page_kind
    unfolding take_page
    take-kind idx a = elim (Bool-cases (base == a)) [
      | inl here ↦
          let z : base ≡ a = (==_iff base a).0 here in
          rw here (ap (λ c. (st.segments c).page_kind) z)
      | inr there ↦ rw there refl
    ]

    pub take-IsTracked :
        (idx : ℕ)
        → idx < (st.segments base).capacity
        → in_use (st.segments base) idx ≡ false
        → IsTracked (take_page base idx st) lists owned is_open
    unfolding take_page
    take-IsTracked idx h free = record {
      queue = λ k small. take-queue idx k small;
      listed = λ k a b. v.listed k a (b.0, sym (take-kind idx a) ∙ b.1, b.2, b.3);
      only = λ k a m. let b = v.only k a m in (b.0, take-kind idx a ∙ b.1, b.2, b.3);
      segments = take-segments idx h free;
      not_null = v.not_null;
    }
      where
        take-queue :
            (idx : ℕ) (k : PageKind)
            → is_at_most_medium k ≡ true
            → IsQueue
                (take_page base idx st).links
                (ends_of k (take_page base idx st).tld)
                (lists k)
        take-queue idx k small = v.queue k small

  pub take-other :
      (base idx : ℕ) (st : Store W) (a : ℕ)
      → a ≢ base
      → (take_page base idx st).segments a ≡ st.segments a
  unfolding take_page
  take-other base idx st a ne = rw (ne→== base a (λ z. ne (sym z))) refl

  pub take-here :
      (base idx : ℕ) (st : Store W)
      → (take_page base idx st).segments base ≡ take_in (st.segments base) idx
  unfolding take_page
  take-here base idx st = rw (eq→== base base refl) refl

  pub leave_if_full-segments :
      (base : ℕ) (st : Store W) → (leave_if_full base st).segments ≡ st.segments
  unfolding leave_if_full
  leave_if_full-segments base st =
      elim (Bool-cases (
        ((st.segments base).used == (st.segments base).capacity)
        && is_at_most_medium (st.segments base).page_kind)) [
          | inl full ↦ rw full (remove-segments base st)
          | inr room ↦ rw room refl
        ]
