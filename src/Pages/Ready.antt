-- ===== src/Pages/Ready.antt =====
-- `mi_find_free_page` when the queue of the size has a page with room.
use mimalloc_mc.Prelude.{
  ℕ, ◌+◌, ◌<◌, ◌≡◌, ◌≢◌, refl, sym, ap, ◌∙◌, inl, inr, Bool-cases, true, List, [], ◌∷◌, Option,
  some, arith, ne→==, eq→==,
}
use mimalloc_mc.Prelude.Lists.{length}
use mimalloc_mc.Prelude.Chain.{count, count-append}
use mimalloc_mc.Prelude.Partial.{◌>>=◌}
use mimalloc_mc.Size.{bin_full}
use mimalloc_mc.Queue.Direct.{IsUsed}
use mimalloc_mc.Size.Bin.{bin}
use mimalloc_mc.Page.{immediate_available}
use mimalloc_mc.Queue.Invariant.{Lists}
use mimalloc_mc.Pages.{Store, Found, Segments, page_field}
use mimalloc_mc.Pages.Retired.{set_expire}
use mimalloc_mc.Pages.Search.{
  search_queue, after_search, queue_find_free_ex, find_free_again, find_free_page,
}
use mimalloc_mc.Pages.Invariant.{
  Contents, IsStore, set_page-IsStore, inside_not_null, first_not_null, first_inside,
}
use mimalloc_mc.Pages.Quiet.{
  IsQuiet, IsQuiet-trans, set_page-IsQuiet, gathered, collect-HasContents,
}
use mimalloc_mc.Pages.Picked.{available}
use mimalloc_mc.Pages.Searched.{IsPicked, head_or, searched_lists, search_queue-IsPicked}
use mimalloc_mc.Pages.Bins.{bin-IsUsed, full-IsUsed}
use mimalloc_mc.Pages.Leave.{flags-IsStore}

-- A page of the queue of a bin with a block to give, on a valid store.
pub record IsReady {S : Type 0} (seg : Segments S) (b : ℕ) (st : Store S) (k : ℕ → Contents)
    (found : Found S) : Type 0 where
  pub lists : Lists
  pub after : ℕ → Contents
  pub inside : 0 < count found.page (lists b)
  pub ready : immediate_available (page_field found.page found.store) ≡ true
  pub valid : IsStore seg found.store lists after
  pub quiet : IsQuiet st found.store k after

count_head : (p : ℕ) (xs : List ℕ) → xs ≢ [] → p ≡ head_or 0 xs → 0 < count p xs
count_head p [] ne e = absurd (ne refl)
count_head p (x ∷ xs) ne e = ground (arith, e)

module _ {S : Type 0} (seg : Segments S) where
  -- The page no longer counts as retired.
  unretired-IsReady :
      {b page : ℕ} {st st' : Store S} {lists : Lists} {k k' : ℕ → Contents}
      → IsStore seg st' lists k'
      → 0 < count page (lists b)
      → immediate_available (page_field page st') ≡ true
      → IsQuiet st st' k k'
      → IsReady seg b st k (record { page = page; store = set_expire seg page 0 st' })
  unfolding immediate_available
  unretired-IsReady {b} {page} {st} {st'} {lists} {k} {k'} v inside ready quiet =
      let s = record (st'.pages page) {
        page = record (page_field page st') { retire_expire = 0 };
      } in
      let same =
        set_page-IsQuiet st' k' page s (k' page) (record { xblock_size = refl; reserved = refl })
          refl in
      record {
        lists = lists;
        after = k';
        inside = inside;
        ready = available st' page s ready;
        valid = flags-IsStore seg v b page inside (page_field page st').has_aligned 0;
        quiet = record { live = quiet.live; reserved = λ a. same.reserved a ∙ quiet.reserved a };
      }

  -- Not all pages were skipped.
  some_left :
      {b : ℕ} {st st' : Store S} {lists : Lists} {k k' : ℕ → Contents} {found : Found S} (a : ℕ)
      → (r : IsPicked seg b st' lists k' found) → IsQuiet st st' k k'
      → 0 < count a (lists b)
      → length (k a).live < (page_field a st).reserved
      → r.left ≢ []
  some_left {b} {lists} a r quiet inside room none' =
      let all : count a (lists b) ≡ count a r.skipped + count a r.left =
        ap (count a) r.order ∙ count-append a r.skipped r.left in
      omega (
        arith,
        r.full a (omega (arith, inside, all, ap (count a) none')),
        ap length (quiet.live a),
        quiet.reserved a,
        room,
      )

  module _ (b : ℕ) (used_b : IsUsed b) (regular : b ≢ bin_full) where
    searched-IsReady :
        {st st' : Store S} {lists : Lists} {k k' : ℕ → Contents} (a : ℕ)
        (again : Store S → Option (Found S))
        → IsStore seg st' lists k'
        → IsQuiet st st' k k'
        → 0 < count a (lists b)
        → length (k a).live < (page_field a st).reserved
        → (found : Found S) × ((search_queue seg b st' >>= after_search seg b again) ≡ some found)
          × IsReady seg b st k found
    unfolding after_search
    searched-IsReady {st} {st'} {lists} {k} {k'} a again v quiet inside room =
        let (found, result, r) =
          search_queue-IsPicked seg b used_b regular full-IsUsed st' lists k' v in
        let left = some_left a r quiet inside room in
        let here : 0 < count found.page (searched_lists b r.skipped r.left lists b) =
          rw (ne→== bin_full b (λ z. regular (sym z)), eq→== b b refl)
            (count_head found.page r.left left r.page) in
        let ne = inside_not_null b found.page r.valid here in
        (
          _,
          rw (result, ne→== found.page 0 ne) refl,
          unretired-IsReady r.valid here
              (elim r.ready [ inl none' ↦ absurd (left none') | inr h ↦ h ])
              (IsQuiet-trans quiet r.quiet),
        )

  -- On a valid store in which the queue of a size has a page with fewer blocks in use than it has
  -- room for, `mi_find_free_page` returns a page of that queue with a free block. The store is valid,
  -- and programs hold what they held.
  pub find_free_page-IsReady :
      (size a : ℕ) (st : Store S) (lists : Lists) (k : ℕ → Contents)
      → IsStore seg st lists k
      → 0 < count a (lists (bin size))
      → length (k a).live < (page_field a st).reserved
      → (found : Found S) × (find_free_page seg size st ≡ some found)
        × IsReady seg (bin size) st k found
  unfolding find_free_page queue_find_free_ex
  find_free_page-IsReady size a st lists k v inside room =
      let b = bin size in
      let (used_b, regular) = bin-IsUsed size in
      let page = (st.heap.queues b).first in
      let nz = first_not_null b a v inside in
      let first = first_inside b v nz in
      let (s, result, valid, frame) =
        collect-HasContents seg st page (k page) (v.contents b page first) in
      let w = set_page-IsStore v page s (gathered (k page)) valid frame in
      let quiet = set_page-IsQuiet st k page s (gathered (k page)) frame refl in
      elim (Bool-cases (immediate_available s.page)) [
        | inl there ↦ (
          _,
          rw (ne→== page 0 nz, result, there) refl,
          unretired-IsReady w first (available st page s there) quiet,
        )
        | inr none' ↦
            let (found, searched, r) =
              searched-IsReady b used_b regular a (find_free_again seg b) w quiet inside room in
            (found, rw (ne→== page 0 nz, result, none') searched, r)
      ]
