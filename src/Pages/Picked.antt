-- ===== src/Pages/Picked.antt =====
-- The search of `mi_page_queue_find_free_ex` for a page with free blocks.
use mimalloc_mc.Prelude.{
  ℕ, zero, suc, ◌-◌, ◌<◌, ◌≡◌, ◌≢◌, ◌⊎◌, refl, ap, ◌∙◌, subst, inl, inr, Bool-cases, true, false,
  List, [], ◌∷◌, ◌++◌, some, arith, eq→==, update, ltb,
}
use mimalloc_mc.Prelude.Lists.{length}
use mimalloc_mc.Prelude.Chain.{count}
use mimalloc_mc.Size.{bin_full}
use mimalloc_mc.Page.{State, immediate_available}
use mimalloc_mc.Page.Grow.{block_size_of, extend_count, extend_free}
use mimalloc_mc.Page.Invariant.{IsPage}
use mimalloc_mc.Page.Collect.{collected}
use mimalloc_mc.Page.Link.{run}
use mimalloc_mc.Page.Extend.{extend_free-IsPage_any}
use mimalloc_mc.Page.Queries.{immediate_available_iff}
use mimalloc_mc.Queue.{queue_enqueue_from}
use mimalloc_mc.Queue.Direct.{IsUsed}
use mimalloc_mc.Queue.Change.{xblock_size_kept}
use mimalloc_mc.Queue.Invariant.{Lists}
use mimalloc_mc.Queue.Operations.{queue_enqueue_from-IsHeap}
use mimalloc_mc.Pages.{Store, Segments, set_page, set_heap, page_field}
use mimalloc_mc.Pages.Move.{page_to_full}
use mimalloc_mc.Pages.Search.{pick, skip, visit}
use mimalloc_mc.Pages.Invariant.{
  Contents, IsFrame, HasContents, IsStore, set_page-IsStore, set_heap-IsStore,
}
use mimalloc_mc.Pages.Kept.{extend_free-IsFrame, IsFrame-trans}
use mimalloc_mc.Pages.Moved.{moved_lists, moved_from, moved-IsUsed}
use mimalloc_mc.Pages.Quiet.{
  IsQuiet, IsQuiet-trans, set_page-IsQuiet, gathered, not_full_bin, block_size_kept,
  collect-HasContents,
}

-- The search comes to a page with room, or to one whose blocks are all in use.
has_room :
    (k : Contents)
    → ((gathered k).free ≢ []) ⊎ (((gathered k).free ≡ []) × ((gathered k).local ≡ []))
has_room k = go k.free (k.thread ++ k.local)
  where
    go :
        (free xs : List ℕ)
        → ((collected false free xs).0 ≢ [])
          ⊎ (((collected false free xs).0 ≡ []) × ((collected false free xs).1 ≡ []))
    go [] [] = inr (refl, refl)
    go (x ∷ xs) [] = inl (λ e. cc)
    go [] (y ∷ ys) = inl (λ e. cc)
    go (x ∷ xs) (y ∷ ys) = inl (λ e. cc)

run-some : (area bsize i n : ℕ) → 0 < n → run area bsize i n ≢ []
run-some area bsize i zero h e = omega arith
run-some area bsize i (suc n) h e = cc

pub set_page_field :
    {S : Type 0} (st : Store S) (page : ℕ) (s : State)
    → page_field page (set_page page s st) ≡ s.page
set_page_field st page s = rw (page_field, eq→== page page refl) refl

pub available :
    {S : Type 0} (st : Store S) (page : ℕ) (t : State)
    → immediate_available t.page ≡ true
    → immediate_available (page_field page (set_page page t st)) ≡ true
available st page t h = ap immediate_available (set_page_field st page t) ∙ h

emptied :
    {area bsize : ℕ} {live : List ℕ} (s : State) (free local : List ℕ)
    → (free ≡ []) × (local ≡ [])
    → IsPage area bsize s free local [] live
    → IsPage area bsize s [] [] [] live
emptied {area} {bsize} {live} s free local none' valid =
    subst (λ xs. IsPage area bsize s xs [] [] live) none'.0
      (subst (λ xs. IsPage area bsize s free xs [] live) none'.1 valid)

no_free :
    {area bsize : ℕ} {s : State} {local thread live : List ℕ}
    → IsPage area bsize s [] local thread live
    → immediate_available s.page ≡ false
no_free {s} valid = elim (Bool-cases (immediate_available s.page)) [
  | inl avail ↦ absurd ((immediate_available_iff valid).0 avail refl)
  | inr none' ↦ none'
]

-- A page with an empty free list is extended.
grown-HasContents :
    {S : Type 0} (seg : Segments S) (rest : S) (page : ℕ) (s : State) (live : List ℕ)
    → HasContents seg rest page s (record { free = []; local = []; thread = []; live = live })
    → s.page.capacity < s.page.reserved
    → (t : State) × (extend_free (seg.area rest page) (seg.page_size rest page) s ≡ some t)
      × (new : Contents) × HasContents seg rest page t new
      × IsFrame s.page t.page
      × (new.live ≡ live)
      × (immediate_available t.page ≡ true)
grown-HasContents seg rest page s live valid more =
    let size = seg.page_size rest page in
    let (t, grown, pos, cap, valid') = extend_free-IsPage_any valid size refl more in
    let frame = extend_free-IsFrame (seg.area rest page) size s t grown in
    let bsize = block_size_of s.page size in
    let new : Contents = record {
      free =
          run (seg.area rest page) bsize s.page.capacity
            (extend_count bsize (s.page.reserved - s.page.capacity));
      local = [];
      thread = [];
      live = live;
    } in
    (
      t,
      grown,
      new,
      rw (block_size_kept s.page t.page size frame) valid',
      frame,
      refl,
      (immediate_available_iff valid').1 (run-some _ _ _ _ pos),
    )

module _ {S : Type 0} (seg : Segments S) (st : Store S) (lists : Lists) (k : ℕ → Contents)
    (v : IsStore seg st lists k) (b page : ℕ) (used_b : IsUsed b) (regular : b ≢ bin_full)
    (inside : 0 < count page (lists b)) where
  flag_off : st.heap.in_full page ≡ false
  flag_off = (v.heap.place b page inside).0 ∙ not_full_bin b used_b.in_heap regular

  -- The page moves to the queue of full pages.
  full-IsStore :
      IsUsed bin_full
      → page ≢ 0
      → IsStore seg
          (set_heap (queue_enqueue_from seg.empty_page bin_full b page st.heap) st)
          (moved_lists b bin_full page lists)
          k
  unfolding queue_enqueue_from
  full-IsStore used_full nz =
      set_heap-IsStore v _ (moved_lists b bin_full page lists)
        (queue_enqueue_from-IsHeap b page v.heap used_b bin_full used_full regular inside nz
          (λ z. absurd (z refl)))
        (xblock_size_kept _ seg.empty_page bin_full _ ∙ xblock_size_kept _ seg.empty_page b _)
        (moved-IsUsed b page lists inside v.used bin_full used_full)
        (λ c a. moved_from b page lists inside bin_full c a)

  to_full-IsStore :
      IsUsed bin_full
      → page ≢ 0
      → (st' : Store S) × (page_to_full seg page b st ≡ some st')
        × (k' : ℕ → Contents) × IsStore seg st' (moved_lists b bin_full page lists) k'
        × IsQuiet st st' k k'
  unfolding page_to_full
  to_full-IsStore used_full nz =
      let w = full-IsStore used_full nz in
      let h = queue_enqueue_from seg.empty_page bin_full b page st.heap in
      let (s, result, valid, frame) =
        collect-HasContents seg (set_heap h st) page (k page) (v.contents b page inside) in
      (
        set_page page s (set_heap h st),
        rw (flag_off, result) refl,
        update k page (gathered (k page)),
        set_page-IsStore w page s (gathered (k page)) valid frame,
        (let q = set_page-IsQuiet (set_heap h st) k page s (gathered (k page)) frame refl in
            record { live = q.live; reserved = q.reserved }),
      )

module _ {S : Type 0} (seg : Segments S) (st : Store S) (lists : Lists) (k : ℕ → Contents)
    (v : IsStore seg st lists k) (b page : ℕ) (used_b : IsUsed b) (regular : b ≢ bin_full)
    (inside : 0 < count page (lists b)) where
  -- What a visit to a page of the queue finds and does.
  pub visit-IsStore :
      IsUsed bin_full
      → page ≢ 0
      → (st' : Store S) × (k' : ℕ → Contents) × IsQuiet st st' k k'
        × (((visit seg b page st ≡ some (pick st'))
              × IsStore seg st' lists k'
              × (immediate_available (page_field page st') ≡ true))
            ⊎ ((visit seg b page st ≡ some (skip st'))
                × IsStore seg st' (moved_lists b bin_full page lists) k'
                × (length (k page).live ≡ (page_field page st).reserved)))
  unfolding visit
  visit-IsStore used_full nz =
      let (s, result, valid, frame) =
        collect-HasContents seg st page (k page) (v.contents b page inside) in
      let new = gathered (k page) in
      let quiet = set_page-IsQuiet st k page s new frame refl in
      let w = set_page-IsStore v page s new valid frame in
      elim (has_room (k page)) [
        | inl room ↦
            let there = (immediate_available_iff valid).1 room in
            (
              set_page page s st,
              update k page new,
              quiet,
              inl (rw (result, there) refl, w, available st page s there),
            )
        | inr nothing ↦
            let valid' = emptied s new.free new.local nothing valid in
            let off = no_free valid' in
            elim (Bool-cases (ltb s.page.capacity s.page.reserved)) [
              | inl more ↦
                  let (t, grown, new', valid'', frame', live, there) =
                    grown-HasContents seg st.rest page s new.live valid' (ground arith) in
                  let both = IsFrame-trans frame frame' in
                  (
                    set_page page t st,
                    update k page new',
                    set_page-IsQuiet st k page t new' both live,
                    inl (
                      rw (result, off, more, grown) refl,
                      set_page-IsStore v page t new' valid'' both,
                      available st page t there,
                    ),
                  )
              | inr done ↦
                  let (st', moved, k', v', quiet') =
                    to_full-IsStore seg (set_page page s st) lists (update k page new) w b page
                      used_b regular inside used_full nz in
                  (
                    st',
                    k',
                    IsQuiet-trans quiet quiet',
                    inr (
                      rw (result, off, done, moved) refl,
                      v',
                      ground (arith, valid'.in_use, valid'.total, valid'.within, frame.reserved),
                    ),
                  )
            ]
      ]
