-- ===== src/Segment/Kept.antt =====
-- What the reset of pages and the commit of memory leave as it is: the queues of segments, and which
-- pages are in use.
use mimalloc_mc.Prelude.{
  ℕ, ◌≡◌, refl, ◌∙◌, inl, inr, Bool, true, false, not, ◌||◌, ◌==◌, if◌then◌else◌, update,
  Bool-cases, ==_iff,
}
use mimalloc_mc.Page.{Page}
use mimalloc_mc.Segment.{Segment, raw_page_start}
use mimalloc_mc.Segment.Store.{Store, Options, Memory, set_page}
use mimalloc_mc.Segment.Reset.{
  page_not_in_queue, pages_reset_remove, page_reset, page_unreset, pages_reset_push,
  pages_reset_add,
}
use mimalloc_mc.Segment.Claim.{Result, commit_page}

abbrev pub in_use : Segment → ℕ → Bool
in_use s i = (s.pages i).segment_in_use

-- The segment has as many pages of the same kind, the same pages are in use, and as many are abandoned.
pub record IsSame (s s' : Segment) : Type 0 where
  pub used : s'.used ≡ s.used
  pub capacity : s'.capacity ≡ s.capacity
  pub abandoned : s'.abandoned ≡ s.abandoned
  pub kind : s'.page_kind ≡ s.page_kind
  pub pages : (i : ℕ) → in_use s' i ≡ in_use s i

pub same : (s : Segment) → IsSame s s
same s = record { used = refl; capacity = refl; abandoned = refl; kind = refl; pages = λ i. refl }

pub IsSame-then : {s s' s'' : Segment} → IsSame s s' → IsSame s' s'' → IsSame s s''
IsSame-then a b = record {
  used = b.used ∙ a.used;
  capacity = b.capacity ∙ a.capacity;
  abandoned = b.abandoned ∙ a.abandoned;
  kind = b.kind ∙ a.kind;
  pages = λ i. b.pages i ∙ a.pages i;
}

pub record IsKept {W : Type 0} (st st' : Store W) : Type 0 where
  pub links : st'.links ≡ st.links
  pub small : st'.tld.small_free ≡ st.tld.small_free
  pub medium : st'.tld.medium_free ≡ st.tld.medium_free
  pub segments : (b : ℕ) → IsSame (st.segments b) (st'.segments b)

same_page :
    (f : ℕ → Page) (idx : ℕ) (p : Page)
    → p.segment_in_use ≡ (f idx).segment_in_use
    → (i : ℕ) → (update f idx p i).segment_in_use ≡ (f i).segment_in_use
same_page f idx p e i = elim (Bool-cases (idx == i)) [
  | inl at ↦ let y : idx ≡ i = (==_iff idx i).0 at in rw at (rw (← y) e)
  | inr off ↦ rw off refl
]

module _ {W : Type 0} where
  pub kept : (st : Store W) → IsKept st st
  kept st = record {
    links = refl;
    small = refl;
    medium = refl;
    segments = λ b. same (st.segments b);
  }

  pub IsKept-then : {st st' st'' : Store W} → IsKept st st' → IsKept st' st'' → IsKept st st''
  IsKept-then k k' = record {
    links = k'.links ∙ k.links;
    small = k'.small ∙ k.small;
    medium = k'.medium ∙ k.medium;
    segments = λ b. IsSame-then (k.segments b) (k'.segments b);
  }

  pub IsKept-if :
      {st x y : Store W} (b : Bool) → IsKept st x → IsKept st y → IsKept st (if b then x else y)
  IsKept-if true k k' = k
  IsKept-if false k k' = k'

  result_if :
      {A : Type 0} {st : Store W} (x y : Result A W) (b : Bool)
      → IsKept st x.store
      → IsKept st y.store
      → IsKept st (if b then x else y).store
  result_if x y true k k' = k
  result_if x y false k k' = k'

  pages_kept :
      (st : Store W) (base idx : ℕ) (p : Page)
      → p.segment_in_use ≡ in_use (st.segments base) idx
      → (b : ℕ) → IsSame (st.segments b) ((set_page base idx p st).segments b)
  pages_kept st base idx p e b = elim (Bool-cases (base == b)) [
    | inl here ↦
        let z : base ≡ b = (==_iff base b).0 here in
        rw here (
          rw (← z) (record {
            used = refl;
            capacity = refl;
            abandoned = refl;
            kind = refl;
            pages = same_page (st.segments base).pages idx p e;
          }))
    | inr there ↦ rw there (same (st.segments b))
  ]

  pub set_page-IsKept :
      (st : Store W) (base idx : ℕ) (p : Page)
      → p.segment_in_use ≡ in_use (st.segments base) idx
      → IsKept st (set_page base idx p st)
  set_page-IsKept st base idx p e = record {
    links = refl;
    small = refl;
    medium = refl;
    segments = pages_kept st base idx p e;
  }

  pub pages_reset_remove-IsKept :
      (base idx : ℕ) (st : Store W) → IsKept st (pages_reset_remove base idx st)
  unfolding pages_reset_remove
  pages_reset_remove-IsKept base idx st =
      IsKept-if (page_not_in_queue base idx st) (kept st) (record {
        links = refl;
        small = refl;
        medium = refl;
        segments = pages_kept st base idx _ refl;
      })

module _ {W : Type 0} (mem : Memory W) where
  pub page_reset-IsKept :
      (options : Options) (base idx : ℕ) (st : Store W)
      → IsKept st (page_reset mem options base idx st)
  unfolding page_reset
  page_reset-IsKept options base idx st = IsKept-if _ (kept st) (
      IsKept-if _ (kept st) (record {
        links = refl;
        small = refl;
        medium = refl;
        segments = pages_kept st base idx _ refl;
      }))

  pub page_unreset-IsKept : (base idx : ℕ) (st : Store W) → IsKept st (page_unreset mem base idx st)
  unfolding page_unreset
  page_unreset-IsKept base idx st = IsKept-if _ (kept st) (
      IsKept-if _
        (record {
          links = refl;
          small = refl;
          medium = refl;
          segments = pages_kept st base idx _ refl;
        })
        (record {
          links = refl;
          small = refl;
          medium = refl;
          segments = pages_kept st base idx _ refl;
        }))

  pages_reset_push-IsKept :
      (options : Options) (base idx : ℕ) (st : Store W)
      → IsKept st (pages_reset_push mem options base idx st)
  unfolding pages_reset_push
  pages_reset_push-IsKept options base idx st = record {
    links = refl;
    small = refl;
    medium = refl;
    segments = pages_kept st base idx _ refl;
  }

  pub pages_reset_add-IsKept :
      (options : Options) (base idx : ℕ) (st : Store W)
      → IsKept st (pages_reset_add mem options base idx st)
  unfolding pages_reset_add
  pages_reset_add-IsKept options base idx st =
      let s = st.segments base in
      let p = s.pages idx in
      IsKept-if (not options.page_reset) (kept st) (
        IsKept-if (s.mem_is_fixed || p.segment_in_use || not p.is_committed || p.is_reset) (kept st)
          (IsKept-if (options.reset_delay == 0) (page_reset-IsKept options base idx st)
            (pages_reset_push-IsKept options base idx st)))

  pub commit_page-IsKept :
      (base idx : ℕ) (st : Store W) → IsKept st (commit_page mem base idx st).store
  unfolding commit_page
  commit_page-IsKept base idx st =
      let p = (st.segments base).pages idx in
      let area = raw_page_start base (st.segments base) p in
      result_if _ _ p.is_committed (kept st) (
        result_if _ _ (mem.commit area.start area.size st.os).ok
          (record {
            links = refl;
            small = refl;
            medium = refl;
            segments = pages_kept st base idx _ refl;
          })
          (record {
            links = refl;
            small = refl;
            medium = refl;
            segments = λ b. same (st.segments b);
          }))
