-- ===== src/Segment/Untouched.antt =====
-- What a claim of a page leaves as it is, and why memory could not be committed.
use mimalloc_mc.Prelude.{
  ℕ, ◌≡◌, ◌≢◌, refl, sym, ap, ◌∙◌, inl, inr, Bool, true, false, not, ◌||◌, ◌==◌, if◌then◌else◌,
  Bool-cases, ==_iff, eq→==, ne→==, update, ltb,
}
use mimalloc_mc.Page.{Page}
use mimalloc_mc.Segment.{Segment, raw_page_start}
use mimalloc_mc.Segment.Store.{Store, Memory}
use mimalloc_mc.Segment.Reset.{page_not_in_queue, pages_reset_remove, page_unreset}
use mimalloc_mc.Segment.Claim.{commit_page}
use mimalloc_mc.Segment.Kept.{IsSame}

-- All fields of the segment and of its pages are as before, but the time at which a page's reset is due,
-- which stands in the page's `used` while it waits in the queue of resets.
pub record IsUntouched (s s' : Segment) : Type 0 where
  pub fields : s' ≡ record s { pages = s'.pages }
  pub pages : (i : ℕ) → s'.pages i ≡ record (s.pages i) { used = (s'.pages i).used }

pub IsUntouched-refl : (s : Segment) → IsUntouched s s
IsUntouched-refl s = record { fields = refl; pages = λ i. refl }

pub IsUntouched-then :
    {s s' s'' : Segment} → IsUntouched s s' → IsUntouched s' s'' → IsUntouched s s''
IsUntouched-then {s} {s'} {s''} u w = record {
  fields = w.fields ∙ ap (λ (x : Segment). record x { pages = s''.pages }) u.fields;
  pages = λ i. w.pages i ∙ ap (λ (p : Page). record p { used = (s''.pages i).used }) (u.pages i);
}

pub IsUntouched-IsSame : {s s' : Segment} → IsUntouched s s' → IsSame s s'
IsUntouched-IsSame u = record {
  used = ap (λ x. x.used) u.fields;
  capacity = ap (λ x. x.capacity) u.fields;
  abandoned = ap (λ x. x.abandoned) u.fields;
  kind = ap (λ x. x.page_kind) u.fields;
  pages = λ i. ap (λ p. p.segment_in_use) (u.pages i);
}

same_area :
    {s s' : Segment} (base i : ℕ)
    → IsUntouched s s'
    → raw_page_start base s' (s'.pages i) ≡ raw_page_start base s (s.pages i)
unfolding raw_page_start
same_area {s} {s'} base i u =
    ap (λ x. raw_page_start base x (s'.pages i)) u.fields
    ∙ ap (raw_page_start base (record s { pages = s'.pages })) (u.pages i)

-- The page's memory is not committed, and a commit of it has failed.
pub record IsRefused {W : Type 0} (mem : Memory W) (base : ℕ) (s : Segment) (idx : ℕ) : Type 0 where
  pub uncommitted : (s.pages idx).is_committed ≡ false
  pub state : W
  pub failed :
      let area = raw_page_start base s (s.pages idx) in
      (mem.commit area.start area.size state).ok ≡ false

pub IsRefused-before :
    {W : Type 0} {mem : Memory W} {base idx : ℕ} {s s' : Segment}
    → IsUntouched s s'
    → IsRefused mem base s' idx
    → IsRefused mem base s idx
IsRefused-before {mem = mem} {base} {idx} u r = record {
  uncommitted = ap (λ p. p.is_committed) (sym (u.pages idx)) ∙ r.uncommitted;
  state = r.state;
  failed =
      ap (λ area. (mem.commit area.start area.size r.state).ok) (sym (same_area base idx u))
      ∙ r.failed;
}

module _ {W : Type 0} where
  pub segments_if :
      (x y : Store W) {s : Segment} (b : Bool) (a : ℕ)
      → x.segments a ≡ s
      → y.segments a ≡ s
      → (if b then x else y).segments a ≡ s
  segments_if x y true a e f = e
  segments_if x y false a e f = f

  pub remove-other :
      (base idx a : ℕ) (st : Store W)
      → a ≢ base
      → (pages_reset_remove base idx st).segments a ≡ st.segments a
  unfolding pages_reset_remove
  remove-other base idx a st ne =
      let away = ne→== base a (λ z. ne (sym z)) in
      elim (Bool-cases (page_not_in_queue base idx st)) [
        | inl out ↦ rw out refl
        | inr waits ↦ rw (waits, away) refl
      ]

  pub remove-IsUntouched :
      (base idx : ℕ) (st : Store W) (a : ℕ)
      → IsUntouched (st.segments a) ((pages_reset_remove base idx st).segments a)
  unfolding pages_reset_remove
  remove-IsUntouched base idx st a = elim (Bool-cases (page_not_in_queue base idx st)) [
    | inl out ↦ rw out (IsUntouched-refl (st.segments a))
    | inr waits ↦ elim (Bool-cases (base == a)) [
      | inr away ↦ rw (waits, away) (IsUntouched-refl (st.segments a))
      | inl here ↦
          let z : base ≡ a = (==_iff base a).0 here in
          rw (waits, here) (rw (← z) (record { fields = refl; pages = λ i. one i }))
    ]
  ]
    where
      one :
          (i : ℕ)
          → let q =
              update
                (st.segments base).pages
                idx
                (record ((st.segments base).pages idx) { used = 0 }) in
            q i ≡ record ((st.segments base).pages i) { used = (q i).used }
      one i = elim (Bool-cases (idx == i)) [
        | inl at ↦ let y : idx ≡ i = (==_iff idx i).0 at in rw at (rw (← y) refl)
        | inr off ↦ rw off refl
      ]

module _ {W : Type 0} (mem : Memory W) where
  pub commit-other :
      (base idx a : ℕ) (st : Store W)
      → a ≢ base
      → (commit_page mem base idx st).store.segments a ≡ st.segments a
  unfolding commit_page raw_page_start
  commit-other base idx a st ne =
      let away = ne→== base a (λ z. ne (sym z)) in
      let p = (st.segments base).pages idx in
      let area = raw_page_start base (st.segments base) p in
      elim (Bool-cases p.is_committed) [
        | inl yes' ↦ rw yes' refl
        | inr no' ↦ elim (Bool-cases (mem.commit area.start area.size st.os).ok) [
          | inl ok ↦ rw (no', ok, away) refl
          | inr failed ↦ rw (no', failed) refl
        ]
      ]

  -- A commit that has failed says so and changes no segment.
  pub commit_failed :
      (base idx : ℕ) (st : Store W)
      → (commit_page mem base idx st).value ≡ false
      → ((commit_page mem base idx st).store.segments ≡ st.segments)
        × IsRefused mem base (st.segments base) idx
  unfolding commit_page raw_page_start
  commit_failed base idx st e =
      let p = (st.segments base).pages idx in
      let area = raw_page_start base (st.segments base) p in
      elim (Bool-cases p.is_committed) [
        | inl yes' ↦ absurd (cc (rw yes' at e))
        | inr no' ↦ elim (Bool-cases (mem.commit area.start area.size st.os).ok) [
          | inl ok ↦ absurd (cc (rw (no', ok) at e))
          | inr failed ↦
              (rw (no', failed) refl, record { uncommitted = no'; state = st.os; failed = failed })
        ]
      ]

  -- After a commit that has not, the page's memory is committed.
  pub commit_done :
      (base idx : ℕ) (st : Store W)
      → (commit_page mem base idx st).value ≡ true
      → (((commit_page mem base idx st).store.segments base).pages idx).is_committed ≡ true
  unfolding commit_page raw_page_start
  commit_done base idx st e =
      let p = (st.segments base).pages idx in
      let area = raw_page_start base (st.segments base) p in
      elim (Bool-cases p.is_committed) [
        | inl yes' ↦ rw yes' yes'
        | inr no' ↦ elim (Bool-cases (mem.commit area.start area.size st.os).ok) [
          | inl ok ↦ rw (no', ok, eq→== base base refl, eq→== idx idx refl) refl
          | inr failed ↦ absurd (cc (rw (no', failed) at e))
        ]
      ]

  pub unreset-other :
      (base idx a : ℕ) (st : Store W)
      → a ≢ base
      → (page_unreset mem base idx st).segments a ≡ st.segments a
  unfolding page_unreset raw_page_start
  unreset-other base idx a st ne =
      let away = ne→== base a (λ z. ne (sym z)) in
      let p = (st.segments base).pages idx in
      let area = raw_page_start base (st.segments base) p in
      elim (Bool-cases ((st.segments base).mem_is_fixed || not p.is_committed || not p.is_reset)) [
        | inl keep ↦ rw keep refl
        | inr reset ↦ elim (Bool-cases (ltb 0 area.size)) [
          | inl some_bytes ↦ rw (reset, some_bytes, away) refl
          | inr no_bytes ↦ rw (reset, no_bytes, away) refl
        ]
      ]

  pub unreset-committed :
      (base idx : ℕ) (st : Store W)
      → (((page_unreset mem base idx st).segments base).pages idx).is_committed
        ≡ ((st.segments base).pages idx).is_committed
  unfolding page_unreset raw_page_start
  unreset-committed base idx st =
      let here = eq→== base base refl in
      let at = eq→== idx idx refl in
      let p = (st.segments base).pages idx in
      let area = raw_page_start base (st.segments base) p in
      elim (Bool-cases ((st.segments base).mem_is_fixed || not p.is_committed || not p.is_reset)) [
        | inl keep ↦ rw keep refl
        | inr reset ↦ elim (Bool-cases (ltb 0 area.size)) [
          | inl some_bytes ↦ rw (reset, some_bytes, here, at) refl
          | inr no_bytes ↦ rw (reset, no_bytes, here, at) refl
        ]
      ]
