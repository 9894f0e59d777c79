-- ===== src/Page/Life.antt =====
-- The life of a page: programs take blocks from it and give them back, from its own thread or from
-- others, while its owner collects and extends it, in any order. Programs free only what they hold.
use mimalloc_mc.Prelude.{
  ℕ, ◌≤◌, ◌<◌, ◌≡◌, ◌≢◌, refl, sym, ◌∙◌, inl, inr, List, [], ◌∷◌, ◌++◌, some, Bool, not, arith, leb,
  ◌==◌, Bool-cases, Option-cases, subst, ◌||◌, ◌-◌, eq→==, ne→==,
}
use mimalloc_mc.Prelude.Chain.{count, erase}
use mimalloc_mc.ThreadFree.{tf_block}
use mimalloc_mc.ThreadFree.Tags.{IsBlockPointer}
use mimalloc_mc.Page.{State}
use mimalloc_mc.Page.Blocks.{
  page_malloc, free_local, free_mt, thread_free_collect, local_collect, free_collect,
}
use mimalloc_mc.Page.Grow.{block_size_of, free_list_extend, extend_count, extend_free}
use mimalloc_mc.Page.Invariant.{IsPage, parts_once, part_pointer}
use mimalloc_mc.Page.Transfer.{
  page_malloc_empty, page_malloc-IsPage, free_local-IsPage, free_mt-IsPage,
}
use mimalloc_mc.Page.Collect.{collected, free_collect-IsPage}
use mimalloc_mc.Page.Link.{run}
use mimalloc_mc.Page.Extend.{extend_free-IsPage_any}

-- A page, and the blocks that programs hold.
pub record World : Type 0 where
  pub state : State
  pub live : List ℕ

pub data Step (area page_size : ℕ) (w : World) : World → Type 0 where
  takes :
      {b : ℕ} {t : State}
      → page_malloc w.state ≡ some (b, t)
      → Step area page_size w (record { state = t; live = b ∷ w.live })
  frees :
      (b : ℕ)
      → 0 < count b w.live
      → Step area page_size w (record { state = free_local b w.state; live = erase b w.live })
  frees_mt :
      (b : ℕ)
      → 0 < count b w.live
      → Step area page_size w (record { state = free_mt b w.state; live = erase b w.live })
  collects :
      {t : State} (force : Bool)
      → free_collect force w.state ≡ some t
      → Step area page_size w (record { state = t; live = w.live })
  extends :
      {t : State}
      → extend_free area page_size w.state ≡ some t
      → Step area page_size w (record { state = t; live = w.live })

pub data Reach (area page_size : ℕ) (w : World) : World → Type 0 where
  here : Reach area page_size w w
  then_step :
      {u v : World} → Reach area page_size w u → Step area page_size u v → Reach area page_size w v

-- The page is valid for some division of its free blocks.
pub record IsWorld (area bsize page_size : ℕ) (w : World) : Type 0 where
  pub free : List ℕ
  pub local : List ℕ
  pub thread : List ℕ
  pub valid : IsPage area bsize w.state free local thread w.live
  pub size : block_size_of w.state.page page_size ≡ bsize

size_malloc :
    (s t : State) (b page_size : ℕ)
    → page_malloc s ≡ some (b, t)
    → t.page.xblock_size ≡ s.page.xblock_size
unfolding page_malloc
size_malloc s t b page_size e = ground arith

size_thread : (s : State) → (thread_free_collect s).page.xblock_size ≡ s.page.xblock_size
unfolding thread_free_collect
size_thread s = ground arith

size_local :
    (force : Bool) (s t : State)
    → local_collect force s ≡ some t
    → t.page.xblock_size ≡ s.page.xblock_size
unfolding local_collect
size_local force s t e = ground arith

size_collect :
    (force : Bool) (s t : State)
    → free_collect force s ≡ some t
    → t.page.xblock_size ≡ s.page.xblock_size
unfolding free_collect
size_collect force s t e = elim (Bool-cases (force || not (tf_block s.page.xthread_free == 0))) [
  | inl yes' ↦ size_local force (thread_free_collect s) t (rw yes' at e) ∙ size_thread s
  | inr no' ↦ size_local force s t (rw no' at e)
]

size_list :
    (area bsize extend : ℕ) (s t : State)
    → free_list_extend area bsize extend s ≡ some t
    → t.page.xblock_size ≡ s.page.xblock_size
unfolding free_list_extend
size_list area bsize extend s t e = ground arith

size_extend :
    (area page_size : ℕ) (s t : State)
    → extend_free area page_size s ≡ some t
    → t.page.xblock_size ≡ s.page.xblock_size
unfolding extend_free
size_extend area page_size s t e =
    let bsize = block_size_of s.page page_size in
    let k = extend_count bsize (s.page.reserved - s.page.capacity) in
    elim (Option-cases (free_list_extend area bsize k s)) [
      | inl none' ↦ ground (arith, none')
      | inr (u, result) ↦ ground (arith, result, size_list area bsize k s u result)
    ]

same_size :
    (s t : State) (page_size : ℕ)
    → t.page.xblock_size ≡ s.page.xblock_size
    → block_size_of t.page page_size ≡ block_size_of s.page page_size
same_size s t page_size e = rw e

module _ {area bsize : ℕ} (page_size : ℕ) where
  takes-IsWorld :
      (w : World) (b : ℕ) (t : State) (free local thread : List ℕ)
      → page_malloc w.state ≡ some (b, t)
      → IsPage area bsize w.state free local thread w.live
      → (free' : List ℕ) × IsPage area bsize t free' local thread (b ∷ w.live)
  takes-IsWorld w b t [] local thread e v = cc (page_malloc_empty v)
  takes-IsWorld w b t (x ∷ free) local thread e v =
      let (t', e', v') = page_malloc-IsPage v in
      let at : t' ≡ t = cc in
      let which : x ≡ b = cc in
      (
        free,
        subst (λ u. IsPage area bsize u free local thread (b ∷ w.live)) at
            (subst (λ y. IsPage area bsize t' free local thread (y ∷ w.live)) which v'),
      )

  extends-IsWorld :
      (w : World) (t : State) (free local thread : List ℕ)
      → block_size_of w.state.page page_size ≡ bsize
      → extend_free area page_size w.state ≡ some t
      → IsPage area bsize w.state free local thread w.live
      → (free' : List ℕ) × IsPage area bsize t free' local thread w.live
  extends-IsWorld w t (x ∷ free) local thread size e v =
      let kept : extend_free area page_size w.state ≡ some w.state =
        unfold extend_free in
        rw (ne→== w.state.page.free 0 (λ z. v.free_chain.1 (sym v.free_chain.0 ∙ z))) refl in
      let at : w.state ≡ t = cc in
      (x ∷ free, subst (λ u. IsPage area bsize u (x ∷ free) local thread w.live) at v)
  extends-IsWorld w t [] local thread size e v =
      elim (Bool-cases (leb w.state.page.reserved w.state.page.capacity)) [
        | inl full ↦
            let kept : extend_free area page_size w.state ≡ some w.state =
              unfold extend_free in rw (eq→== w.state.page.free 0 v.free_chain, full) refl in
            let at : w.state ≡ t = cc in
            ([], subst (λ u. IsPage area bsize u [] local thread w.live) at v)
        | inr room ↦
            let (t', e', _, _, v') = extend_free-IsPage_any v page_size size (ground arith) in
            let at : t' ≡ t = cc in
            let more =
              run area bsize w.state.page.capacity
                (extend_count bsize (w.state.page.reserved - w.state.page.capacity)) in
            (more, subst (λ u. IsPage area bsize u more local thread w.live) at v')
      ]

module _ {area bsize page_size : ℕ} where
  Step-IsWorld :
      {w u : World}
      → Step area page_size w u
      → IsWorld area bsize page_size w
      → IsWorld area bsize page_size u
  Step-IsWorld {w} (takes {b} {t} e) i =
      let (free', v) = takes-IsWorld page_size w b t i.free i.local i.thread e i.valid in
      record {
        free = free';
        local = i.local;
        thread = i.thread;
        valid = v;
        size = same_size w.state t page_size (size_malloc w.state t b page_size e) ∙ i.size;
      }
  Step-IsWorld {w} (frees b held) i = record {
    free = i.free;
    local = b ∷ i.local;
    thread = i.thread;
    valid = free_local-IsPage b i.valid held;
    size = unfold free_local in i.size;
  }
  Step-IsWorld {w} (frees_mt b held) i = record {
    free = i.free;
    local = i.local;
    thread = b ∷ i.thread;
    valid = free_mt-IsPage b i.valid held;
    size = unfold free_mt in i.size;
  }
  Step-IsWorld {w} (collects {t} force e) i =
      let after = collected force i.free (i.thread ++ i.local) in
      let (t', e', v) = free_collect-IsPage force i.valid in
      let at : t' ≡ t = cc in
      record {
        free = after.0;
        local = after.1;
        thread = [];
        valid = subst (λ u. IsPage area bsize u after.0 after.1 [] w.live) at v;
        size = same_size w.state t page_size (size_collect force w.state t e) ∙ i.size;
      }
  Step-IsWorld {w} (extends {t} e) i =
      let (free', v) = extends-IsWorld page_size w t i.free i.local i.thread i.size e i.valid in
      record {
        free = free';
        local = i.local;
        thread = i.thread;
        valid = v;
        size = same_size w.state t page_size (size_extend area page_size w.state t e) ∙ i.size;
      }

  Reach-IsWorld :
      {w u : World}
      → IsWorld area bsize page_size w
      → Reach area page_size w u
      → IsWorld area bsize page_size u
  Reach-IsWorld i here = i
  Reach-IsWorld i (then_step r st) = Step-IsWorld st (Reach-IsWorld i r)

  -- After any sequence of allocations, frees by the page's own thread and by others of blocks that
  -- programs hold, collections and extensions on a valid page, a block that the fast path of
  -- `_mi_page_malloc` hands out is an address aligned to 8 bytes, not null, that no program holds;
  -- and afterwards the programs hold each of their blocks once.
  pub malloc_is_new :
      {w u : World} (b : ℕ) (t : State)
      → IsWorld area bsize page_size w
      → Reach area page_size w u
      → page_malloc u.state ≡ some (b, t)
      → (count b u.live ≡ 0) × IsBlockPointer b × (b ≢ 0) × ((a : ℕ) → count a (b ∷ u.live) ≤ 1)
  malloc_is_new {w} {u} b t i r e =
      let j = Reach-IsWorld i r in
      let (free', v) = takes-IsWorld page_size u b t j.free j.local j.thread e j.valid in
      let pointer = part_pointer v b (ground arith) in
      (ground (arith, parts_once v b), pointer.0, pointer.1, λ a. omega (arith, parts_once v a))
