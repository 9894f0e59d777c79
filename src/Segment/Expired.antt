-- ===== src/Segment/Expired.antt =====
-- The pages that wait for their reset leave the queues of segments as they are: `mi_reset_delayed` and
-- `mi_pages_reset_remove_all_in_segment` of mimalloc-custom/segment.c.
use mimalloc_mc.Prelude.{
  ℕ, zero, suc, ◌+◌, ◌≤◌, ◌<◌, ◌≡◌, refl, sym, ap, ◌∙◌, subst, inl, inr, Bool, Bool-cases, not,
  ◌||◌, List, [], ◌∷◌, Option, some, arith, ◌==◌, eq→==, if◌then◌else◌,
}
use mimalloc_mc.Prelude.Lists.{length}
use mimalloc_mc.Prelude.Chain.{Chain, Chain-update, count}
use mimalloc_mc.Prelude.Partial.{◌>>=◌}
use mimalloc_mc.Links.{clear}
use mimalloc_mc.Segment.{ptr_segment}
use mimalloc_mc.Segment.Store.{Store, Options, Memory}
use mimalloc_mc.Segment.Reset.{
  reset_is_expired, page_reset, reset_remove_from, pages_reset_remove,
  pages_reset_remove_all_in_segment,
}
use mimalloc_mc.Segment.Kept.{
  IsKept, kept, IsKept-then, IsKept-if, set_page-IsKept, page_reset-IsKept,
  pages_reset_remove-IsKept,
}
use mimalloc_mc.Segment.Abandon.{
  Ended, idx_of, page_at, reset_now, reset_expired, cut_queue, reset_delayed,
}

module _ {W : Type 0} (mem : Memory W) (options : Options) where
  reset_now-IsKept : (page : ℕ) (st : Store W) → IsKept st (reset_now mem options page st)
  reset_now-IsKept page st =
      let first = page_reset-IsKept mem options (ptr_segment page) (idx_of page) st in
      let st' = page_reset mem options (ptr_segment page) (idx_of page) st in
      let second =
        set_page-IsKept st' (ptr_segment page) (idx_of page)
          (record (page_at mem options page st') { used = 0 }) refl in
      let both = IsKept-then first second in
      record {
        links = both.links;
        small = both.small;
        medium = both.medium;
        segments = both.segments;
      }

  reset_now-links :
      (page : ℕ) (st : Store W)
      → (reset_now mem options page st).page_links ≡ clear page st.page_links
  unfolding page_reset
  reset_now-links page st = ground arith

  -- The walk goes from the last page that waits back to the first, and ends.
  reset_expired-IsKept :
      (fuel now page : ℕ) (ps : List ℕ) (st : Store W)
      → Chain st.page_links.prev page ps
      → ((a : ℕ) → count a ps ≤ 1)
      → length ps < fuel
      → (e : Ended W) × (reset_expired mem options fuel now page st ≡ some e) × IsKept st e.store
  unfolding reset_expired
  reset_expired-IsKept zero now page ps st c once few = absurd (omega arith)
  reset_expired-IsKept (suc fuel) now page [] st c once few =
      (record { page = page; store = st }, rw (eq→== page 0 c) refl, kept st)
  reset_expired-IsKept (suc fuel) now page (y ∷ ys) st c once few =
      elim (Bool-cases ((page == 0) || not (reset_is_expired (page_at mem options page st) now))) [
        | inl stop ↦ (record { page = page; store = st }, rw stop refl, kept st)
        | inr on ↦
            let out : count page ys ≡ 0 = ground (arith, once y, c.0) in
            let rest : Chain st.page_links.prev (st.page_links.prev page) ys = rw c.0 c.2 in
            let chain =
              subst (λ l. Chain l.prev (st.page_links.prev page) ys) (sym (reset_now-links page st))
                (Chain-update st.page_links.prev page 0 (st.page_links.prev page) ys out rest) in
            let (e, result, k) =
              reset_expired-IsKept fuel now (st.page_links.prev page) ys
                (reset_now mem options page st) chain (λ a. ground (arith, once a))
                (omega (arith, few)) in
            (e, rw on result, IsKept-then (reset_now-IsKept page st) k)
      ]

  pub reset_delayed-IsKept :
      (fuel : ℕ) (ps : List ℕ) (st : Store W)
      → Chain st.page_links.prev st.tld.pages_reset.last ps
      → ((a : ℕ) → count a ps ≤ 1)
      → length ps < fuel
      → (st' : Store W) × (reset_delayed mem options fuel st ≡ some st') × IsKept st st'
  unfolding reset_delayed
  reset_delayed-IsKept fuel ps st c once few =
      let on_end : Ended W → Option (Store W) = λ e. some (cut_queue mem options e) in
      let walk = reset_expired mem options fuel (mem.clock_now st.os) st.tld.pages_reset.last st in
      let choose : Bool → Option (Store W) = λ b. if not b then some st else (walk >>= on_end) in
      elim (Bool-cases options.page_reset) [
        | inr off ↦ (st, ap choose off, kept st)
        | inl on ↦
            let (e, result, k) =
              reset_expired-IsKept fuel (mem.clock_now st.os) st.tld.pages_reset.last ps st c once
                few in
            (
              cut_queue mem options e,
              ap choose on ∙ ap (λ r. r >>= on_end) result,
              record { links = k.links; small = k.small; medium = k.medium; segments = k.segments },
            )
      ]

  reset_remove_from-IsKept :
      (force : Bool) (base n idx : ℕ) (st : Store W)
      → IsKept st (reset_remove_from mem options force base n idx st)
  unfolding reset_remove_from
  reset_remove_from-IsKept force base zero idx st = kept st
  reset_remove_from-IsKept force base (suc n) idx st =
      let removed = pages_reset_remove-IsKept base idx st in
      let step =
        IsKept-if _
          (IsKept-if force
            (IsKept-then removed
              (page_reset-IsKept mem options base idx (pages_reset_remove base idx st)))
            removed)
          (kept st) in
      IsKept-then step (reset_remove_from-IsKept force base n (idx + 1) _)

  pub remove_all-IsKept :
      (force : Bool) (base : ℕ) (st : Store W)
      → IsKept st (pages_reset_remove_all_in_segment mem options force base st)
  unfolding pages_reset_remove_all_in_segment
  remove_all-IsKept force base st =
      IsKept-if _ (kept st) (reset_remove_from-IsKept force base _ 0 st)
