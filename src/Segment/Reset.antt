-- ===== src/Segment/Reset.antt =====
-- The pages whose memory is to be reset, of mimalloc-custom/segment.c: free pages wait in the queue
-- `pages_reset` until their time has come, and a page is unreset when it is claimed again. A page's
-- `used` is its expiry while it waits.
use mimalloc_mc.Prelude.{
  ℕ, zero, suc, ◌+◌, ◌-◌, ◌%◌, ◌^◌, Bool, true, false, not, ◌&&◌, ◌||◌, ltb, ◌==◌, if◌then◌else◌,
}
use mimalloc_mc.Page.{Page}
use mimalloc_mc.Links.{clear, unlink, unlink_ends, push_front, push_front_ends}
use mimalloc_mc.Segment.{raw_page_start}
use mimalloc_mc.Segment.Store.{Store, Options, Memory, page_address, set_page}

-- The difference of two 32-bit times is not negative.
unfoldable pub reset_is_expired : Page → (now : ℕ) → Bool
reset_is_expired p now = ltb ((now % 2 ^ 32 + 2 ^ 32 - p.used % 2 ^ 32) % 2 ^ 32) (2 ^ 31)

module _ {W : Type 0} where
  unfoldable pub page_not_in_queue : (base idx : ℕ) → Store W → Bool
  page_not_in_queue base idx st =
      let a = page_address base idx in
      if not (st.page_links.next a == 0) || not (st.page_links.prev a == 0)
      then false
      else not (st.tld.pages_reset.first == a) && not (st.tld.pages_reset.last == a)

  unfoldable pub pages_reset_remove : (base idx : ℕ) → Store W → Store W
  pages_reset_remove base idx st =
      let a = page_address base idx in
      let e = st.tld.pages_reset in
      if page_not_in_queue base idx st
      then st
      else set_page base idx (record ((st.segments base).pages idx) { used = 0 })
          (record st {
            page_links = clear a (unlink a st.page_links);
            tld = record st.tld { pages_reset = unlink_ends a st.page_links e };
          })

module _ {W : Type 0} (mem : Memory W) where
  -- With the size 0, which stands for the whole page, as in all calls.
  unfoldable pub page_reset : Options → (base idx : ℕ) → Store W → Store W
  page_reset options base idx st =
      let s = st.segments base in
      let p = s.pages idx in
      let area = raw_page_start base s p in
      if not options.page_reset
      then st
      else if s.mem_is_fixed || p.segment_in_use || not p.is_committed || p.is_reset
      then st
      else set_page base idx (record p { is_reset = true })
          (record st {
            os = if ltb 0 area.size then mem.reset area.start area.size st.os else st.os;
          })

  unfoldable pub page_unreset : (base idx : ℕ) → Store W → Store W
  page_unreset base idx st =
      let s = st.segments base in
      let p = s.pages idx in
      let area = raw_page_start base s p in
      let reply = mem.unreset area.start area.size st.os in
      if s.mem_is_fixed || not p.is_committed || not p.is_reset
      then st
      else if ltb 0 area.size
      then set_page base idx
          (record p { is_reset = false; is_zero_init = reply.is_zero || p.is_zero_init })
          (record st { os = reply.os })
      else set_page base idx (record p { is_reset = false }) st

  unfoldable pub pages_reset_push : Options → (base idx : ℕ) → Store W → Store W
  pages_reset_push options base idx st =
      let a = page_address base idx in
      let e = st.tld.pages_reset in
      let expire = (mem.clock_now st.os % 2 ^ 32 + options.reset_delay) % 2 ^ 32 in
      set_page base idx (record ((st.segments base).pages idx) { used = expire })
        (record st {
          page_links = push_front a st.page_links e;
          tld = record st.tld { pages_reset = push_front_ends a e };
        })

  unfoldable pub pages_reset_add : Options → (base idx : ℕ) → Store W → Store W
  pages_reset_add options base idx st =
      let s = st.segments base in
      let p = s.pages idx in
      if not options.page_reset
      then st
      else if s.mem_is_fixed || p.segment_in_use || not p.is_committed || p.is_reset
      then st
      else if options.reset_delay == 0
      then page_reset options base idx st
      else pages_reset_push options base idx st

  -- `n` pages of the segment from `idx` on.
  unfoldable pub reset_remove_from :
      Options → (force_reset : Bool) → (base n idx : ℕ) → Store W → Store W
  reset_remove_from options force_reset base zero idx st = st
  reset_remove_from options force_reset base (suc n) idx st =
      let p = (st.segments base).pages idx in
      let removed = pages_reset_remove base idx st in
      let st' =
        if not p.segment_in_use && p.is_committed && not p.is_reset
        then (if force_reset then page_reset options base idx removed else removed)
        else st in
      reset_remove_from options force_reset base n (idx + 1) st'

  unfoldable pub pages_reset_remove_all_in_segment :
      Options → (force_reset : Bool) → (base : ℕ) → Store W → Store W
  pages_reset_remove_all_in_segment options force_reset base st =
      let s = st.segments base in
      if s.mem_is_fixed then st else reset_remove_from options force_reset base s.capacity 0 st
