-- ===== src/Segment/Claim.antt =====
-- Taking and giving back a page of a segment, of mimalloc-custom/segment.c.
use mimalloc_mc.Prelude.{
  ℕ, zero, suc, ◌+◌, ◌%◌, Bool, true, false, not, ◌&&◌, ◌||◌, ltb, ◌==◌, if◌then◌else◌, update,
  Option, none, some,
}
use mimalloc_mc.Size.{word_mod}
use mimalloc_mc.Segment.{Segment, is_at_most_medium, raw_page_start, word_sub}
use mimalloc_mc.Segment.Store.{
  Store, Options, Memory, set_page, set_segment, insert_in_free_queue, remove_from_free_queue,
}
use mimalloc_mc.Segment.Reset.{pages_reset_remove, page_unreset, pages_reset_add}

unfoldable pub has_free : Segment → Bool
has_free s = ltb s.used s.capacity

-- A result with the state after the call.
pub record Result (A W : Type 0) : Type 0 where
  pub value : A
  pub store : Store W

module _ {W : Type 0} where
  -- The page is in use.
  unfoldable pub take_page : (base idx : ℕ) → Store W → Store W
  take_page base idx st =
      let s = st.segments base in
      let p = s.pages idx in
      set_segment base
        (record s {
          pages = update s.pages idx (record p { segment_in_use = true });
          used = (s.used + 1) % word_mod;
        })
        st

  -- A segment without a free page leaves its queue.
  unfoldable pub leave_if_full : (base : ℕ) → Store W → Store W
  leave_if_full base st =
      let s = st.segments base in
      if (s.used == s.capacity) && is_at_most_medium s.page_kind
      then remove_from_free_queue base st
      else st

module _ {W : Type 0} where
  -- The page is free again.
  unfoldable pub release_page : (base idx : ℕ) → Store W → Store W
  release_page base idx st =
      let s = st.segments base in
      let p = record (s.pages idx) { is_zero_init = false; segment_in_use = false } in
      set_segment base (record s { pages = update s.pages idx p; used = word_sub s.used 1 }) st

  -- A segment that was full goes back to its queue.
  unfoldable pub move_back : (base : ℕ) → Store W → Store W
  move_back base st =
      let s = st.segments base in
      if s.used + 1 == s.capacity then insert_in_free_queue base st else st

module _ {W : Type 0} (mem : Memory W) where
  -- The memory of a page that is not committed is.
  unfoldable pub commit_page : (base idx : ℕ) → Store W → Result Bool W
  commit_page base idx st =
      let s = st.segments base in
      let p = s.pages idx in
      let area = raw_page_start base s p in
      let reply = mem.commit area.start area.size st.os in
      if p.is_committed
      then record { value = true; store = st }
      else if reply.ok
      then record {
        value = true;
        store =
            set_page base idx
              (record p { is_committed = true; is_zero_init = reply.is_zero || p.is_zero_init })
              (record st { os = reply.os });
      }
      else record { value = false; store = record st { os = reply.os } }

  unfoldable pub page_claim : (base idx : ℕ) → Store W → Result Bool W
  page_claim base idx st =
      let committed = commit_page base idx (pages_reset_remove base idx st) in
      let taken = take_page base idx committed.store in
      let p = (taken.segments base).pages idx in
      let ready = if p.is_reset then page_unreset mem base idx taken else taken in
      if committed.value
      then record { value = true; store = leave_if_full base ready }
      else committed

  -- The pages from `idx` on, `n` of them.
  unfoldable pub find_free_from : (base n idx : ℕ) → Store W → Result (Option ℕ) W
  find_free_from base zero idx st = record { value = none; store = st }
  find_free_from base (suc n) idx st =
      let claim = page_claim base idx st in
      let busy = ((st.segments base).pages idx).segment_in_use in
      let rest = find_free_from base n (idx + 1) (if busy then st else claim.store) in
      if not busy && claim.value then record { value = some idx; store = claim.store } else rest

  unfoldable pub find_free : (base : ℕ) → Store W → Result (Option ℕ) W
  find_free base st = find_free_from base (st.segments base).capacity 0 st

  unfoldable pub page_clear : Options → (base idx : ℕ) → (allow_reset : Bool) → Store W → Store W
  page_clear options base idx allow_reset st =
      let cleared = release_page base idx st in
      let added = if allow_reset then pages_reset_add mem options base idx cleared else cleared in
      set_page base idx (record ((added.segments base).pages idx) { capacity = 0; reserved = 0 })
        added
