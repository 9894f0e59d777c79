-- ===== src/Segment/Store.antt =====
-- The segments of a thread, `mi_segments_tld_t`, and the queues of segments with free pages of
-- mimalloc-custom/segment.c. The fields `next` and `prev` of the segments are in `links`, those of
-- their pages in `page_links`.
use mimalloc_mc.Prelude.{
  ℕ, ◌+◌, ◌*◌, Bool, not, ◌||◌, ◌==◌, if◌then◌else◌, Option, none, some, update,
}
use mimalloc_mc.Page.{Page}
use mimalloc_mc.Links.{Links, Ends, clear, unlink, unlink_ends, push_back, push_back_ends}
use mimalloc_mc.Segment.{
  PageKind, small_page, medium_page, large_page, huge_page, Segment, sizeof_page,
}

pub record Tld : Type 0 where
  pub small_free : Ends
  pub medium_free : Ends
  pub pages_reset : Ends
  pub count : ℕ
  pub peak_count : ℕ
  pub current_size : ℕ
  pub peak_size : ℕ
  pub cache_count : ℕ
  pub cache : ℕ

-- `os` is the state of the memory below.
pub record Store (W : Type 0) : Type 0 where
  pub segments : ℕ → Segment
  pub links : Links
  pub page_links : Links
  pub tld : Tld
  pub os : W

-- The options that the code asks for.
pub record Options : Type 0 where
  pub page_reset : Bool
  pub reset_delay : ℕ

-- What a call to commit or to unreset memory returns.
pub record Reply (W : Type 0) : Type 0 where
  pub ok : Bool
  pub is_zero : Bool
  pub os : W

-- The calls of the memory below: a place, a size, and the state before.
pub record Memory (W : Type 0) : Type 0 where
  pub commit : (start size : ℕ) → W → Reply W
  pub unreset : (start size : ℕ) → W → Reply W
  pub reset : (start size : ℕ) → W → W
  pub clock_now : W → ℕ

-- `&segment->pages[idx]`.
abbrev pub page_address : (base idx : ℕ) → ℕ
page_address base idx = base + 120 + idx * sizeof_page

abbrev pub free_queue_of_kind : PageKind → Tld → Option Ends
free_queue_of_kind small_page tld = some tld.small_free
free_queue_of_kind medium_page tld = some tld.medium_free
free_queue_of_kind large_page tld = none
free_queue_of_kind huge_page tld = none

abbrev pub set_free_queue : PageKind → Ends → Tld → Tld
set_free_queue small_page e tld = record tld { small_free = e }
set_free_queue medium_page e tld = record tld { medium_free = e }
set_free_queue large_page e tld = tld
set_free_queue huge_page e tld = tld

module _ {W : Type 0} where
  abbrev pub set_segment : (base : ℕ) → Segment → Store W → Store W
  set_segment base s st = record st { segments = update st.segments base s }

  abbrev pub set_page : (base idx : ℕ) → Page → Store W → Store W
  set_page base idx p st =
      let s = st.segments base in set_segment base (record s { pages = update s.pages idx p }) st

  abbrev pub is_in_queue : (base : ℕ) → Ends → Store W → Bool
  is_in_queue base e st =
      not (st.links.next base == 0) || not (st.links.prev base == 0) || (e.first == base)

  abbrev pub segment_queue_remove : PageKind → (base : ℕ) → Ends → Store W → Store W
  segment_queue_remove kind base e st = record st {
    links = clear base (unlink base st.links);
    tld = set_free_queue kind (unlink_ends base st.links e) st.tld;
  }

  abbrev pub segment_enqueue : PageKind → (base : ℕ) → Ends → Store W → Store W
  segment_enqueue kind base e st = record st {
    links = push_back base st.links e;
    tld = set_free_queue kind (push_back_ends base e) st.tld;
  }

  abbrev pub remove_from : PageKind → (base : ℕ) → Option Ends → Store W → Store W
  remove_from kind base none st = st
  remove_from kind base (some e) st =
      if is_in_queue base e st then segment_queue_remove kind base e st else st

  unfoldable pub remove_from_free_queue : (base : ℕ) → Store W → Store W
  remove_from_free_queue base st =
      let kind = (st.segments base).page_kind in
      remove_from kind base (free_queue_of_kind kind st.tld) st

  abbrev pub insert_in : PageKind → (base : ℕ) → Option Ends → Store W → Store W
  insert_in kind base none st = st
  insert_in kind base (some e) st = segment_enqueue kind base e st

  -- The source has no case for a kind without a queue, where it would write through null.
  unfoldable pub insert_in_free_queue : (base : ℕ) → Store W → Store W
  insert_in_free_queue base st =
      let kind = (st.segments base).page_kind in
      insert_in kind base (free_queue_of_kind kind st.tld) st
