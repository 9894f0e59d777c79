-- ===== src/Pages/Kept.antt =====
-- What `_mi_page_free_collect` and `mi_page_extend_free` leave of a page's fields.
use mimalloc_mc.Prelude.{
  ℕ, ◌+◌, ◌≡◌, ◌≢◌, refl, ◌∙◌, inl, inr, Bool-cases, false, Option, none, some, arith, ◌==◌, leb,
}
use mathlib.Core.Option
use mimalloc_mc.ThreadFree.{tf_block}
use mimalloc_mc.Page.{Page, State}
use mimalloc_mc.Page.Blocks.{page_malloc, thread_free_collect, local_collect, free_collect}
use mimalloc_mc.Page.Grow.{free_list_extend, extend_free, link_blocks}
use mimalloc_mc.Pages.Invariant.{IsFrame}

IsFrame-refl : (p : Page) → IsFrame p p
IsFrame-refl p = record { xblock_size = refl; reserved = refl }

pub IsFrame-trans : {p q r : Page} → IsFrame p q → IsFrame q r → IsFrame p r
IsFrame-trans f g = record {
  xblock_size = g.xblock_size ∙ f.xblock_size;
  reserved = g.reserved ∙ f.reserved;
}

thread_free_collect-IsFrame : (s : State) → IsFrame s.page (thread_free_collect s).page
unfolding thread_free_collect
thread_free_collect-IsFrame s = record { xblock_size = ground arith; reserved = ground arith }

local_collect-IsFrame : (s t : State) → local_collect false s ≡ some t → IsFrame s.page t.page
unfolding local_collect
local_collect-IsFrame s t e = record { xblock_size = ground arith; reserved = ground arith }

pub free_collect-IsFrame : (s t : State) → free_collect false s ≡ some t → IsFrame s.page t.page
unfolding free_collect
free_collect-IsFrame s t e = elim (Bool-cases (tf_block s.page.xthread_free == 0)) [
  | inl none' ↦ local_collect-IsFrame s t (rw none' at e)
  | inr some' ↦
      let second = local_collect-IsFrame (thread_free_collect s) t (rw some' at e) in
      let first = thread_free_collect-IsFrame s in
      record {
        xblock_size = second.xblock_size ∙ first.xblock_size;
        reserved = second.reserved ∙ first.reserved;
      }
]

map-some :
    {A : Type 0} (o : Option A) (f : A → State) (t : State)
    → Option.map f o ≡ some t
    → (a : A) × (o ≡ some a) × (f a ≡ t)
map-some none f t e = absurd cc
map-some (some a) f t e = (a, refl, cc)

free_list_extend-IsFrame :
    (area bsize extend : ℕ) (s t : State)
    → free_list_extend area bsize extend s ≡ some t
    → IsFrame s.page t.page
unfolding free_list_extend
free_list_extend-IsFrame area bsize extend s t e =
    let (m, found, same) = map-some (link_blocks (extend + 1) s.mem bsize _ _) _ t e in
    rw (← same) (record { xblock_size = refl; reserved = refl })

-- A page below its reserved number of blocks.
pub extend_free-IsFrame :
    (area page_size : ℕ) (s t : State)
    → extend_free area page_size s ≡ some t
    → IsFrame s.page t.page
unfolding extend_free
extend_free-IsFrame area page_size s t e = elim (Bool-cases (s.page.free == 0)) [
  | inr other ↦ rw (← some-inj (rw other at e)) (IsFrame-refl s.page)
  | inl null ↦ elim (Bool-cases (leb s.page.reserved s.page.capacity)) [
    | inl full ↦ rw (← some-inj (rw (null, full) at e)) (IsFrame-refl s.page)
    | inr more ↦
        let (u, found, same) = map-some (free_list_extend area _ _ s) _ t (rw (null, more) at e) in
        rw (← same) (
          let f = free_list_extend-IsFrame area _ _ s u found in
          record { xblock_size = f.xblock_size; reserved = f.reserved })
  ]
]
  where
    some-inj : {x y : State} → some x ≡ some y → x ≡ y
    some-inj q = cc

pub page_malloc-IsFrame :
    (s : State) (r : ℕ × State) → page_malloc s ≡ some r → IsFrame s.page r.1.page
unfolding page_malloc
page_malloc-IsFrame s r e = elim (Bool-cases (s.page.free == 0)) [
  | inl null ↦ absurd (none_some (rw null at e))
  | inr other ↦ rw (← some-inj (rw other at e)) (record { xblock_size = refl; reserved = refl })
]
  where
    none_some : {r : ℕ × State} → none ≢ some r
    none_some q = cc

    some-inj : {x y : ℕ × State} → some x ≡ some y → x ≡ y
    some-inj q = cc
