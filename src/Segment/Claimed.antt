-- ===== src/Segment/Claimed.antt =====
-- What `mi_segment_page_claim` of mimalloc-custom/segment.c does to a thread's segments.
use mimalloc_mc.Prelude.{
  ℕ, ◌+◌, ◌<◌, ◌≡◌, ◌≢◌, ◌⊎◌, refl, eq→==, sym, ap, subst, ◌∙◌, inl, inr, List, Bool, true, false,
  ◌&&◌, ltb, ◌==◌, if◌then◌else◌, update, arith, Bool-cases,
}
use mimalloc_mc.Prelude.Chain.{count, erase}
use mathlib.Core.Path.{fun_ext}
use mimalloc_mc.Segment.{is_at_most_medium}
use mimalloc_mc.Segment.Store.{Store, Memory}
use mimalloc_mc.Segment.Reset.{pages_reset_remove, page_unreset}
use mimalloc_mc.Segment.Claim.{Result, commit_page, take_page, leave_if_full, page_claim}
use mimalloc_mc.Segment.Untouched.{
  IsUntouched, IsUntouched-refl, IsRefused, IsRefused-before, segments_if, remove-other,
  remove-IsUntouched, commit-other, commit_failed, commit_done, unreset-other, unreset-committed,
}
use mimalloc_mc.Segment.Kept.{
  IsKept, in_use, same, kept, IsKept-then, IsKept-if, pages_reset_remove-IsKept,
  page_unreset-IsKept, commit_page-IsKept,
}
use mimalloc_mc.Segment.Invariant.{
  one_if, Lists, IsTracked, IsStore, has_room, has_room_kept, IsKept-IsTracked,
}
use mimalloc_mc.Segment.Pages.{
  total-le, one_more, in_use-take, take-other, take-here, take-IsTracked, leave_if_full-IsStore,
  IsTracked-open, leave_if_full-segments,
}

-- What has happened to the segments when a page was to be claimed, by whether it was.
pub record IsClaimed {W : Type 0} (base idx : ℕ) (claimed : Bool) (lists : Lists) (owned : List ℕ)
    (st st' : Store W) : Type 0 where
  pub store :
      IsStore st'
        (if claimed
            && ((st.segments base).used + 1 == (st.segments base).capacity)
            && is_at_most_medium (st.segments base).page_kind
          then (λ j. erase base (lists j))
          else lists)
        owned
  pub used : (st'.segments base).used ≡ (st.segments base).used + one_if claimed
  pub page :
      claimed ≡ true
      → (i : ℕ) → in_use (st'.segments base) i ≡ update (in_use (st.segments base)) idx true i
  pub committed : claimed ≡ true → ((st'.segments base).pages idx).is_committed ≡ true
  pub others :
      (a : ℕ) → (a ≢ base) ⊎ (claimed ≡ false) → IsUntouched (st.segments a) (st'.segments a)

module _ {W : Type 0} (mem : Memory W) {st : Store W} {lists : Lists} {owned : List ℕ}
    (base idx : ℕ) (v : IsStore st lists owned) (own : 0 < count base owned)
    (h : idx < (st.segments base).capacity) (free : in_use (st.segments base) idx ≡ false) where
  abbrev committed : Result Bool W
  committed = commit_page mem base idx (pages_reset_remove base idx st)

  abbrev taken : Store W
  taken = take_page base idx committed.store

  abbrev ready : Store W
  ready =
      if ((taken.segments base).pages idx).is_reset then page_unreset mem base idx taken else taken

  room : (st.segments base).used < (st.segments base).capacity
  room =
      let s = st.segments base in
      omega (
        arith,
        one_more s.capacity (in_use s) idx h free,
        total-le s.capacity (update (in_use s) idx true),
        (v.segments base own).counted,
      )

  commit-IsKept : IsKept st committed.store
  commit-IsKept =
      IsKept-then (pages_reset_remove-IsKept base idx st)
        (commit_page-IsKept mem base idx (pages_reset_remove base idx st))

  ready-IsKept : IsKept taken ready
  ready-IsKept = IsKept-if _ (page_unreset-IsKept mem base idx taken) (kept taken)

  ready-IsTracked : IsTracked ready lists owned (has_room st)
  ready-IsTracked =
      let same = commit-IsKept.segments base in
      IsKept-IsTracked ready-IsKept (
        take-IsTracked base (IsKept-IsTracked commit-IsKept v) own idx (rw same.capacity h)
          (rw (same.pages idx) free))

  used_ready : (ready.segments base).used ≡ (st.segments base).used + 1
  used_ready =
      let same = commit-IsKept.segments base in
      (ready-IsKept.segments base).used
      ∙ rw (take-here base idx committed.store, same.used)
          (omega (arith, room, (v.segments base own).small))

  capacity_ready : (ready.segments base).capacity ≡ (st.segments base).capacity
  capacity_ready =
      (ready-IsKept.segments base).capacity
      ∙ rw (take-here base idx committed.store) (commit-IsKept.segments base).capacity

  kind_ready : (ready.segments base).page_kind ≡ (st.segments base).page_kind
  kind_ready =
      (ready-IsKept.segments base).kind
      ∙ rw (take-here base idx committed.store) (commit-IsKept.segments base).kind

  pages_ready :
      (i : ℕ) → in_use (ready.segments base) i ≡ update (in_use (st.segments base)) idx true i
  pages_ready i =
      let old : in_use (committed.store.segments base) ≡ in_use (st.segments base) =
        fun_ext (commit-IsKept.segments base).pages in
      (ready-IsKept.segments base).pages i
      ∙ ap (λ s. in_use s i) (take-here base idx committed.store)
      ∙ in_use-take (committed.store.segments base) idx i
      ∙ ap (λ f. update f idx true i) old

  others_ready : (a : ℕ) → a ≢ base → ready.segments a ≡ st.segments a
  others_ready a ne =
      segments_if (page_unreset mem base idx taken) taken ((taken.segments base).pages idx).is_reset
        a (unreset-other mem base idx a taken ne) refl
      ∙ take-other base idx committed.store a ne
      ∙ commit-other mem base idx a (pages_reset_remove base idx st) ne
      ∙ remove-other base idx a st ne

  committed_ready : committed.value ≡ true → ((ready.segments base).pages idx).is_committed ≡ true
  committed_ready ok =
      let done = commit_done mem base idx (pages_reset_remove base idx st) ok in
      committed_if ((taken.segments base).pages idx).is_reset (unreset-committed mem base idx taken)
      ∙ ap (λ s. (s.pages idx).is_committed) (take-here base idx committed.store)
      ∙ rw (eq→== idx idx refl) done
    where
      committed_if :
          (b : Bool)
          → (((page_unreset mem base idx taken).segments base).pages idx).is_committed
            ≡ ((taken.segments base).pages idx).is_committed
          → (((if b then page_unreset mem base idx taken else taken).segments base).pages
              idx).is_committed
            ≡ ((taken.segments base).pages idx).is_committed
      committed_if true e = e
      committed_if false e = refl

  last_free :
      ((ready.segments base).used == (ready.segments base).capacity)
        && is_at_most_medium (ready.segments base).page_kind
      ≡ ((st.segments base).used + 1 == (st.segments base).capacity)
        && is_at_most_medium (st.segments base).page_kind
  last_free =
      ap
        (λ u.
          (u == (ready.segments base).capacity)
          && is_at_most_medium (ready.segments base).page_kind)
        used_ready
      ∙ ap
          (λ c.
            ((st.segments base).used + 1 == c) && is_at_most_medium (ready.segments base).page_kind)
          capacity_ready
      ∙ ap
          (λ k. ((st.segments base).used + 1 == (st.segments base).capacity) && is_at_most_medium k)
          kind_ready

  has_room_ready : (a : ℕ) → a ≢ base → has_room st a ≡ has_room ready a
  has_room_ready a ne = ap (λ s. ltb s.used s.capacity) (sym (others_ready a ne))

  IsClaimed-ok :
      committed.value ≡ true → IsClaimed base idx true lists owned st (leave_if_full base ready)
  IsClaimed-ok ok =
      let after = leave_if_full-segments base ready in
      record {
        store =
            subst
              (λ b.
                IsStore (leave_if_full base ready)
                  (if b then (λ j. erase base (lists j)) else lists) owned)
              last_free
              (leave_if_full-IsStore base ready-IsTracked own has_room_ready
                (ground (arith, room)));
        used = ap (λ f. (f base).used) after ∙ used_ready;
        page = λ _ i. ap (λ f. in_use (f base) i) after ∙ pages_ready i;
        committed = λ _. ap (λ f. ((f base).pages idx).is_committed) after ∙ committed_ready ok;
        others = λ a c. elim c [
          | inl ne ↦
              subst (IsUntouched (st.segments a)) (sym (ap (λ f. f a) after ∙ others_ready a ne))
                (IsUntouched-refl (st.segments a))
          | inr z ↦ absurd (cc z)
        ];
      }

  claim_failed :
      committed.value ≡ false
      → IsClaimed base idx false lists owned st committed.store
        × IsRefused mem base (st.segments base) idx
  claim_failed no' =
      let k = commit-IsKept in
      let (same, refused) = commit_failed mem base idx (pages_reset_remove base idx st) no' in
      let untouched = remove-IsUntouched base idx st in
      (
        record {
          store = IsTracked-open (λ a _ _. sym (has_room_kept k a)) (IsKept-IsTracked k v);
          used = omega (arith, (k.segments base).used);
          page = λ z. absurd (cc z);
          committed = λ z. absurd (cc z);
          others =
              λ a _. subst (IsUntouched (st.segments a)) (sym (ap (λ f. f a) same)) (untouched a);
        },
        IsRefused-before (untouched base) refused,
      )

  pub page_claim-IsClaimed :
      IsClaimed base idx
        (page_claim mem base idx st).value
        lists
        owned
        st
        (page_claim mem base idx st).store
      × (((page_claim mem base idx st).value ≡ true) ⊎ IsRefused mem base (st.segments base) idx)
  unfolding page_claim
  page_claim-IsClaimed = elim (Bool-cases committed.value) [
    | inl ok ↦ rw ok (IsClaimed-ok ok, inl refl)
    | inr failed ↦ rw failed ((claim_failed failed).0, inr (claim_failed failed).1)
  ]
