-- ===== src/Pages/Quiet.antt =====
-- Steps that leave what programs hold, and a collection of one page as such a step.
use mimalloc_mc.Prelude.{
  ℕ, ◌≤◌, ◌≡◌, ◌≢◌, refl, ap, ◌∙◌, inl, inr, Bool-cases, false, not, ◌||◌, [], ◌++◌, some, arith,
  ◌==◌, ==_iff, update, all_below_sound,
}
use mimalloc_mc.Size.{bin_full}
use mimalloc_mc.Page.{Page, State}
use mimalloc_mc.Page.Blocks.{free_collect}
use mimalloc_mc.Page.Grow.{block_size_of}
use mimalloc_mc.Page.Collect.{collected, free_collect-IsPage}
use mimalloc_mc.Queue.{queue_is_full}
use mimalloc_mc.Queue.Operations.{full_table}
use mimalloc_mc.Pages.{Store, Segments, set_page, page_field}
use mimalloc_mc.Pages.Invariant.{Contents, IsFrame, HasContents}
use mimalloc_mc.Pages.Kept.{free_collect-IsFrame}

-- Programs hold the blocks they held, and the pages have the room they had.
pub record IsQuiet {S : Type 0} (st st' : Store S) (k k' : ℕ → Contents) : Type 0 where
  pub live : (a : ℕ) → (k' a).live ≡ (k a).live
  pub reserved : (a : ℕ) → (page_field a st').reserved ≡ (page_field a st).reserved

module _ {S : Type 0} where
  pub IsQuiet-trans :
      {st st' st'' : Store S} {k k' k'' : ℕ → Contents}
      → IsQuiet st st' k k'
      → IsQuiet st' st'' k' k''
      → IsQuiet st st'' k k''
  IsQuiet-trans p q = record {
    live = λ a. q.live a ∙ p.live a;
    reserved = λ a. q.reserved a ∙ p.reserved a;
  }

  pub set_page-IsQuiet :
      (st : Store S) (k : ℕ → Contents) (page : ℕ) (s : State) (new : Contents)
      → IsFrame (page_field page st) s.page
      → new.live ≡ (k page).live
      → IsQuiet st (set_page page s st) k (update k page new)
  set_page-IsQuiet st k page s new frame live = record {
    live = λ a. elim (Bool-cases (page == a)) [
      | inl here ↦ rw here (live ∙ ap (λ x. (k x).live) ((==_iff page a).0 here))
      | inr there ↦ rw there refl
    ];
    reserved = λ a. elim (Bool-cases (page == a)) [
      | inl here ↦
          rw (page_field, here)
            (frame.reserved ∙ ap (λ x. (page_field x st).reserved) ((==_iff page a).0 here))
      | inr there ↦ rw (page_field, there) refl
    ];
  }

-- A page whose thread's and local lists are collected.
abbrev pub gathered : Contents → Contents
gathered k = record {
  free = (collected false k.free (k.thread ++ k.local)).0;
  local = (collected false k.free (k.thread ++ k.local)).1;
  thread = [];
  live = k.live;
}

pub not_full_bin : (b : ℕ) → b ≤ bin_full → b ≢ bin_full → queue_is_full b ≡ false
not_full_bin b le ne = ground (
  arith,
  all_below_sound 75 (λ b. not (queue_is_full b) || b == bin_full) b full_table (omega arith),
)

pub block_size_kept :
    (p q : Page) (size : ℕ) → IsFrame p q → block_size_of q size ≡ block_size_of p size
block_size_kept p q size f = rw f.xblock_size refl

module _ {S : Type 0} (seg : Segments S) (st : Store S) (page : ℕ) (k : Contents) where
  -- A collection of one page, seen from the store.
  pub collect-HasContents :
      HasContents seg st.rest page (st.pages page) k
      → (s : State) × (free_collect false (st.pages page) ≡ some s)
        × HasContents seg st.rest page s (gathered k)
        × IsFrame (page_field page st) s.page
  collect-HasContents h =
      let (s, result, valid) = free_collect-IsPage false h in
      let frame = free_collect-IsFrame (st.pages page) s result in
      (s, result, rw (block_size_kept _ _ (seg.page_size st.rest page) frame) valid, frame)
