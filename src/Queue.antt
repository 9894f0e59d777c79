-- ===== src/Queue.antt =====
-- The page queues of a heap: mimalloc-custom/page-queue.c, with the fields of `mi_heap_t` and of the
-- pages that it uses. A queue is named by its bin, its index in the heap's array `pages`; the
-- queue's `block_size` is that of the bin. `empty` is the address of `_mi_page_empty`.
pub mod Direct
pub mod Invariant
pub mod Change
pub mod Operations
pub mod Append
mod Tests
use mimalloc_mc.Prelude.{
  ℕ, zero, suc, ◌+◌, ◌-◌, ◌*◌, ◌%◌, ◌^◌, Bool, true, false, not, ◌&&◌, ltb, leb, ◌==◌,
  if◌then◌else◌, update,
}
use mimalloc_mc.Size.{word_mod, intptr_size, large_obj_size_max, bin_full}
use mimalloc_mc.Size.Align.{wsize_from_size}
use mimalloc_mc.Size.Bin.{bin, bin_size}
use mimalloc_mc.Links.Join.{join, join_ends}
use mimalloc_mc.Links.{
  Links, Ends, clear, unlink, unlink_ends, push_front, push_front_ends, push_back, push_back_ends,
}

abbrev pub small_wsize_max : ℕ
small_wsize_max = 128

abbrev pub small_size_max : ℕ
small_size_max = small_wsize_max * intptr_size

pub record Heap : Type 0 where
  pub links : Links
  pub queues : ℕ → Ends
  pub direct : ℕ → ℕ  -- `pages_free_direct`
  pub page_count : ℕ
  pub in_full : ℕ → Bool
  pub xblock_size : ℕ → ℕ

unfoldable pub queue_is_huge : ℕ → Bool
queue_is_huge b = bin_size b == large_obj_size_max + intptr_size

unfoldable pub queue_is_full : ℕ → Bool
queue_is_full b = bin_size b == large_obj_size_max + 2 * intptr_size

unfoldable pub queue_is_special : ℕ → Bool
queue_is_special b = ltb large_obj_size_max (bin_size b)

unfoldable pub page_queue_of : ℕ → Heap → ℕ
page_queue_of page h = if h.in_full page then bin_full else bin (h.xblock_size page)

-- The loop that goes back over the queues of the same bin.
unfoldable pub skip_back : (target prev : ℕ) → ℕ
skip_back target zero = zero
skip_back target (suc n) =
    let further = skip_back target n in if target == bin (bin_size (suc n)) then further else suc n

-- The first slot of the range.
unfoldable pub start_slot : (b idx : ℕ) → ℕ
start_slot b idx =
    let start = 1 + wsize_from_size (bin_size (skip_back (bin (bin_size b)) (b - 1))) in
    if leb idx 1 then 0 else if ltb idx start then idx else start

-- `n` slots from `start` on.
unfoldable pub fill : (n start page : ℕ) → (ℕ → ℕ) → ℕ → ℕ
fill zero start page d = d
fill (suc n) start page d = fill n (start + 1) page (update d start page)

abbrev pub first_page : (empty : ℕ) → Ends → ℕ
first_page empty e = if e.first == 0 then empty else e.first

unfoldable pub queue_first_update : (empty b : ℕ) → Heap → Heap
queue_first_update empty b h =
    let size = bin_size b in
    let page = first_page empty (h.queues b) in
    let idx = wsize_from_size size in
    let start = start_slot b idx in
    if ltb small_size_max size
    then h
    else if h.direct idx == page
    then h
    else record h { direct = fill (idx + 1 - start) start page h.direct }

unfoldable pub queue_remove : (empty b page : ℕ) → Heap → Heap
queue_remove empty b page h =
    let e = h.queues b in
    let h' = record h {
      links = unlink page h.links;
      queues = update h.queues b (unlink_ends page h.links e);
    } in
    let h'' = if page == e.first then queue_first_update empty b h' else h' in
    record h'' {
      page_count = (h.page_count + word_mod - 1) % word_mod;
      links = clear page h''.links;
      in_full = update h.in_full page false;
    }

unfoldable pub queue_push : (empty b page : ℕ) → Heap → Heap
queue_push empty b page h =
    let e = h.queues b in
    let h' = record h {
      in_full = update h.in_full page (queue_is_full b);
      links = push_front page h.links e;
      queues = update h.queues b (push_front_ends page e);
    } in
    let h'' = queue_first_update empty b h' in
    record h'' { page_count = (h.page_count + 1) % word_mod }

unfoldable pub queue_enqueue_from : (empty to from page : ℕ) → Heap → Heap
queue_enqueue_from empty to from page h =
    let e = h.queues from in
    let h₁ = record h {
      links = unlink page h.links;
      queues = update h.queues from (unlink_ends page h.links e);
    } in
    let h₂ = if page == e.first then queue_first_update empty from h₁ else h₁ in
    let e' = h₂.queues to in
    let h₃ = record h₂ {
      links = push_back page h₂.links e';
      queues = update h₂.queues to (push_back_ends page e');
    } in
    let h₄ = if e'.last == 0 then queue_first_update empty to h₃ else h₃ in
    record h₄ { in_full = update h.in_full page (queue_is_full to) }

-- The lists of `_mi_page_queue_append`: the pages of another heap's queue go behind those of this.
unfoldable pub queue_join : (empty b : ℕ) (append : Ends) → Heap → Heap
queue_join empty b append h =
    let e = h.queues b in
    if e.last == 0
    then queue_first_update empty b (record h { queues = update h.queues b append })
    else record h { links = join e append h.links; queues = update h.queues b (join_ends e append) }
