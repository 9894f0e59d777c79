-- ===== src/Pages/Invariant.antt =====
-- A valid store: the queues of the heap represent lists of pages, and every page in them is valid.
use mimalloc_mc.Prelude.{
  ℕ, ◌<◌, ◌≡◌, ◌≢◌, sym, ap, ◌∙◌, subst, inl, inr, Bool-cases, List, [], ◌∷◌, arith, ◌==◌, ==_iff,
  eq→==, update,
}
use mimalloc_mc.Prelude.Chain.{count}
use mimalloc_mc.Links.{Linked}
use mimalloc_mc.Links.Remove.{no_null}
use mimalloc_mc.Page.{Page, State}
use mimalloc_mc.Page.Grow.{block_size_of}
use mimalloc_mc.Page.Invariant.{IsPage}
use mimalloc_mc.Queue.{Heap}
use mimalloc_mc.Queue.Direct.{IsUsed}
use mimalloc_mc.Queue.Invariant.{Lists, IsHeap}
use mimalloc_mc.Pages.{Store, Segments, set_page, set_heap, page_field}

-- The blocks of a page, by where they are.
pub record Contents : Type 0 where
  pub free : List ℕ
  pub local : List ℕ
  pub thread : List ℕ
  pub live : List ℕ

-- What the collections and extensions of a page leave as it is.
pub record IsFrame (p q : Page) : Type 0 where
  pub xblock_size : q.xblock_size ≡ p.xblock_size
  pub reserved : q.reserved ≡ p.reserved

module _ {S : Type 0} (seg : Segments S) where
  abbrev pub HasContents : S → (page : ℕ) → State → Contents → Type 0
  HasContents rest page s k =
      IsPage (seg.area rest page) (block_size_of s.page (seg.page_size rest page)) s k.free k.local
        k.thread k.live

pub record IsStore {S : Type 0} (seg : Segments S) (st : Store S) (lists : Lists) (k : ℕ → Contents)
    : Type 0 where
  pub heap : IsHeap seg.empty_page st.heap lists
  pub used : (b a : ℕ) → 0 < count a (lists b) → IsUsed b
  pub contents : (b a : ℕ) → 0 < count a (lists b) → HasContents seg st.rest a (st.pages a) (k a)
  pub sized :
      (b a : ℕ) → 0 < count a (lists b) → st.heap.xblock_size a ≡ (page_field a st).xblock_size

module _ {S : Type 0} {seg : Segments S} {st : Store S} {lists : Lists} {k : ℕ → Contents}
    (v : IsStore seg st lists k) where
  -- One page has changed.
  pub set_page-IsStore :
      (page : ℕ) (s : State) (new : Contents)
      → HasContents seg st.rest page s new
      → IsFrame (page_field page st) s.page
      → IsStore seg (set_page page s st) lists (update k page new)
  set_page-IsStore page s new valid frame = record {
    heap = v.heap;
    used = v.used;
    contents = λ b a m. elim (Bool-cases (page == a)) [
      | inl here ↦ let e : page ≡ a = (==_iff page a).0 here in rw here (rw (← e) valid)
      | inr there ↦ rw there (v.contents b a m)
    ];
    sized = λ b a m. elim (Bool-cases (page == a)) [
      | inl here ↦
          let e : page ≡ a = (==_iff page a).0 here in
          rw (page_field, here)
            (v.sized b a m
              ∙ ap (λ x. (page_field x st).xblock_size) (sym e)
              ∙ sym frame.xblock_size)
      | inr there ↦ rw (page_field, there) (v.sized b a m)
    ];
  }

  -- The queues have changed, and have no page that they had not.
  pub set_heap-IsStore :
      (h : Heap) (lists' : Lists)
      → IsHeap seg.empty_page h lists'
      → h.xblock_size ≡ st.heap.xblock_size
      → ((b a : ℕ) → 0 < count a (lists' b) → IsUsed b)
      → ((b a : ℕ) → 0 < count a (lists' b) → (c : ℕ) × (0 < count a (lists c)))
      → IsStore seg (set_heap h st) lists' k
  set_heap-IsStore h lists' valid same used old = record {
    heap = valid;
    used = used;
    contents = λ b a m. let (c, m') = old b a m in v.contents c a m';
    sized = λ b a m. let (c, m') = old b a m in ap (λ f. f a) same ∙ v.sized c a m';
  }

module _ {S : Type 0} {seg : Segments S} {st : Store S} {lists : Lists} {k : ℕ → Contents} (b a : ℕ)
    (v : IsStore seg st lists k) (inside : 0 < count a (lists b)) where
  pub inside_not_null : a ≢ 0
  inside_not_null e = omega (
    arith,
    no_null st.heap.links 0 (st.heap.queues b).first (lists b) (v.heap.queues.queue b).linked,
    subst (λ x. 0 < count x (lists b)) e inside,
  )

  pub first_not_null : (st.heap.queues b).first ≢ 0
  first_not_null = go (lists b) inside (v.heap.queues.queue b).linked
    where
      go :
          (xs : List ℕ)
          → 0 < count a xs
          → Linked st.heap.links 0 (st.heap.queues b).first xs
          → (st.heap.queues b).first ≢ 0
      go [] m c e = absurd (omega arith)
      go (x ∷ xs) m c e = c.1 (sym c.0 ∙ e)

-- The page at the head of a queue is in its list.
pub first_inside :
    {S : Type 0} {seg : Segments S} {st : Store S} {lists : Lists} {k : ℕ → Contents} (b : ℕ)
    → IsStore seg st lists k
    → (st.heap.queues b).first ≢ 0
    → 0 < count (st.heap.queues b).first (lists b)
first_inside {st} {lists} b v ne = go (lists b) (v.heap.queues.queue b).linked
  where
    go :
        (xs : List ℕ)
        → Linked st.heap.links 0 (st.heap.queues b).first xs
        → 0 < count (st.heap.queues b).first xs
    go [] c = absurd (ne c)
    go (x ∷ xs) c = rw (eq→== _ x c.0) (omega arith)
