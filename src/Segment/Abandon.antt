-- ===== src/Segment/Abandon.antt =====
-- `mi_reset_delayed`, `mi_segment_abandon`, `_mi_segment_page_abandon` and `_mi_segment_page_free` of
-- mimalloc-custom/segment.c. A result `none` says that a loop ran out of fuel.
use mimalloc_mc.Prelude.{
  ℕ, zero, suc, ◌+◌, ◌/◌, ◌%◌, Bool, true, not, ◌||◌, Option, none, some, ◌==◌, if◌then◌else◌,
  update,
}
use mimalloc_mc.Prelude.Partial.{◌>>=◌}
use mimalloc_mc.Size.{word_mod}
use mimalloc_mc.Abandoned.{Abandoned, abandoned_push}
use mimalloc_mc.Page.{Page}
use mimalloc_mc.Links.{clear}
use mimalloc_mc.Segment.{ptr_segment, word_sub, sizeof_page}
use mimalloc_mc.Segment.Store.{
  Store, Options, Memory, page_address, set_segment, set_page, remove_from_free_queue,
}
use mimalloc_mc.Segment.Reset.{reset_is_expired, page_reset, pages_reset_remove_all_in_segment}
use mimalloc_mc.Segment.Claim.{page_clear, move_back}
use mimalloc_mc.Segment.Cache.{Release, track_size, segment_free}

-- Where the walk of the expired pages has ended.
pub record Ended (W : Type 0) : Type 0 where
  pub page : ℕ
  pub store : Store W

-- A thread's segments with the lists of abandoned segments that all threads share.
pub record Shared (W : Type 0) : Type 0 where
  pub store : Store W
  pub lists : Abandoned

-- `page - segment->pages`.
abbrev pub idx_of : (page : ℕ) → ℕ
idx_of page = word_sub page (page_address (ptr_segment page) 0) / sizeof_page

module _ {W : Type 0} (mem : Memory W) (options : Options) where
  abbrev pub page_at : (page : ℕ) → Store W → Page
  page_at page st = (st.segments (ptr_segment page)).pages (idx_of page)

  -- The page leaves the queue of pages that wait.
  abbrev pub reset_now : (page : ℕ) → Store W → Store W
  reset_now page st =
      let st' = page_reset mem options (ptr_segment page) (idx_of page) st in
      let st'' =
        set_page (ptr_segment page) (idx_of page) (record (page_at page st') { used = 0 }) st' in
      record st'' { page_links = clear page st''.page_links }

  unfoldable pub reset_expired : (fuel now page : ℕ) → Store W → Option (Ended W)
  reset_expired zero now page st = none
  reset_expired (suc fuel) now page st =
      let rest = reset_expired fuel now (st.page_links.prev page) (reset_now page st) in
      if (page == 0) || not (reset_is_expired (page_at page st) now)
      then some (record { page = page; store = st })
      else rest

  -- The queue ends at the first page that has not expired.
  abbrev pub cut_queue : Ended W → Store W
  cut_queue e = record (e.store) {
    page_links =
        if e.page == 0
        then e.store.page_links
        else record (e.store.page_links) { next = update e.store.page_links.next e.page 0 };
    tld = record (e.store.tld) {
      pages_reset = record {
        first = if e.page == 0 then 0 else e.store.tld.pages_reset.first;
        last = e.page;
      };
    };
  }

  unfoldable pub reset_delayed : (fuel : ℕ) → Store W → Option (Store W)
  reset_delayed fuel st = if not options.page_reset then some st else do
    e ← reset_expired fuel (mem.clock_now st.os) st.tld.pages_reset.last st
    some (cut_queue e)

  module _ (rel : Release W) where
    -- What happens once the segment is in no queue. The field `abandoned_next`, which the source sets to
    -- null here, is the one in the lists, where the push sets it.
    abbrev pub give_up : (base : ℕ) → Abandoned → Store W → Shared W
    give_up base lists st =
        let s = st.segments base in
        record {
          store =
              set_segment base (record s { thread_id = 0; abandoned_visits = 0 })
                (record st { tld = track_size (not (s.segment_size == 0)) s.segment_size st.tld });
          lists = abandoned_push base lists;
        }

    unfoldable pub segment_abandon : (fuel base : ℕ) → Shared W → Option (Shared W)
    segment_abandon fuel base sh = do
      st ← reset_delayed fuel sh.store
      let st' = pages_reset_remove_all_in_segment mem options rel.abandoned_page_reset base st
      some (give_up base sh.lists (remove_from_free_queue base st'))

    abbrev pub count_abandoned : (base : ℕ) → Shared W → Shared W
    count_abandoned base sh =
        let s = sh.store.segments base in
        record sh {
          store = set_segment base (record s { abandoned = (s.abandoned + 1) % word_mod }) sh.store;
        }

    abbrev pub all_abandoned : (base : ℕ) → Shared W → Bool
    all_abandoned base sh = (sh.store.segments base).used == (sh.store.segments base).abandoned

    unfoldable pub page_abandon : (fuel base : ℕ) → Shared W → Option (Shared W)
    page_abandon fuel base sh =
        let sh' = count_abandoned base sh in
        if all_abandoned base sh' then segment_abandon fuel base sh' else some sh'

    unfoldable pub segment_page_free :
        (fuel base idx : ℕ) → (force : Bool) → Shared W → Option (Shared W)
    segment_page_free fuel base idx force sh = do
      st ← reset_delayed fuel sh.store
      let st' = page_clear mem options base idx true st
      let s = st'.segments base
      let freed = segment_free rel mem options fuel base force st'
      if s.used == 0
          then (freed >>= λ st''. some (record sh { store = st'' }))
          else if s.used == s.abandoned
          then segment_abandon fuel base (record sh { store = st' })
          else some (record sh { store = move_back base st' })
