-- ===== src/Segment/Cache.antt =====
-- The segments that a thread keeps for reuse, and the way of a segment back to the memory below:
-- `mi_segments_track_size`, `mi_segment_os_free`, `mi_segment_cache_pop`, `mi_segment_cache_full`,
-- `mi_segment_cache_push`, `_mi_segment_thread_collect` and `mi_segment_free` of
-- mimalloc-custom/segment.c. A result `none` says that a loop ran out of fuel.
use mimalloc_mc.Prelude.{
  ℕ, zero, suc, ◌+◌, ◌-◌, ◌/◌, ◌%◌, Bool, true, false, not, ◌&&◌, ◌||◌, Option, none, some, ltb,
  ◌==◌, if◌then◌else◌, update,
}
use mimalloc_mc.Prelude.Partial.{◌>>=◌}
use mimalloc_mc.Size.{word_mod, segment_size}
use mimalloc_mc.Segment.{Segment}
use mimalloc_mc.Segment.Store.{Tld, Store, Options, Memory, set_segment, remove_from_free_queue}
use mimalloc_mc.Segment.Reset.{pages_reset_remove_all_in_segment}

abbrev pub cache_fraction : ℕ
cache_fraction = 8

-- The options that are asked for here, and `_mi_mem_free`.
pub record Release (W : Type 0) : Type 0 where
  pub segment_cache : ℕ
  pub reset_decommits : Bool
  pub abandoned_page_reset : Bool
  pub mem_free : (base size memid : ℕ) → (fully_committed any_reset : Bool) → W → W

-- Is one of the first `n` pages not committed, or reset?
unfoldable pub some_uncommitted : (n : ℕ) → Segment → Bool
some_uncommitted zero s = false
some_uncommitted (suc n) s = some_uncommitted n s || not ((s.pages n).is_committed)

unfoldable pub some_reset : (n : ℕ) → Segment → Bool
some_reset zero s = false
some_reset (suc n) s = some_reset n s || (s.pages n).is_reset

-- The counters go up for a size, and down for a negative one.
unfoldable pub track_size : (negative : Bool) → (size : ℕ) → Tld → Tld
track_size negative size tld =
    let count = (if negative then tld.count + word_mod - 1 else tld.count + 1) % word_mod in
    let current =
      (if negative then tld.current_size + word_mod - size else tld.current_size + size)
      % word_mod in
    record tld {
      count = count;
      peak_count = if ltb tld.peak_count count then count else tld.peak_count;
      current_size = current;
      peak_size = if ltb tld.peak_size current then current else tld.peak_size;
    }

-- A segment, or null, with the store after the call.
pub record CachePop (W : Type 0) : Type 0 where
  pub segment : ℕ
  pub store : Store W

-- An answer with the store after the call.
pub record Answer (W : Type 0) : Type 0 where
  pub value : Bool
  pub store : Store W

module _ {W : Type 0} (rel : Release W) where
  unfoldable pub os_free : (base size : ℕ) → Store W → Store W
  os_free base size st =
      let s = record (st.segments base) { thread_id = 0 } in
      let any_reset = some_reset s.capacity s in
      let fully_committed =
        not (some_uncommitted s.capacity s) && not (any_reset && rel.reset_decommits) in
      record (set_segment base s st) {
        tld = track_size (not (size == 0)) size st.tld;
        os = rel.mem_free base size s.memid fully_committed any_reset st.os;
      }

  unfoldable pub cache_pop : (size : ℕ) → Store W → CachePop W
  cache_pop size st =
      let base = st.tld.cache in
      if not (size == 0) && not (size == segment_size)
      then record { segment = 0; store = st }
      else if base == 0
      then record { segment = 0; store = st }
      else record {
        segment = base;
        store = record st {
          tld = record (st.tld) {
            cache_count = (st.tld.cache_count + word_mod - 1) % word_mod;
            cache = st.links.next base;
          };
          links = record (st.links) { next = update st.links.next base 0 };
        };
      }

  -- A segment that was popped goes back, if there is one.
  abbrev pub free_popped : CachePop W → Store W
  free_popped r =
      if r.segment == 0
      then r.store
      else os_free r.segment (r.store.segments r.segment).segment_size r.store

  unfoldable pub shrink_cache : (fuel : ℕ) → Store W → Option (Store W)
  shrink_cache zero st = none
  shrink_cache (suc fuel) st =
      let rest = shrink_cache fuel (free_popped (cache_pop 0 st)) in
      if ltb rel.segment_cache st.tld.cache_count then rest else some st

  unfoldable pub cache_full : (fuel : ℕ) → Store W → Option (Answer W)
  cache_full fuel st =
      if ltb st.tld.cache_count rel.segment_cache
        && ltb st.tld.cache_count (1 + st.tld.peak_count / cache_fraction)
      then some (record { value = false; store = st })
      else shrink_cache fuel st >>= λ st'. some (record { value = true; store = st' })

  -- The segment joins the cache.
  abbrev pub put_in_cache : (base : ℕ) → Store W → Store W
  put_in_cache base st = record st {
    links = record (st.links) { next = update st.links.next base st.tld.cache };
    tld = record (st.tld) { cache = base; cache_count = (st.tld.cache_count + 1) % word_mod };
  }

  unfoldable pub cache_push : (fuel base : ℕ) → Store W → Option (Answer W)
  cache_push fuel base st =
      if not ((st.segments base).segment_size == segment_size)
      then some (record { value = false; store = st })
      else do
        full ← cache_full fuel st
        if full.value
            then some (record { value = false; store = full.store })
            else some (record { value = true; store = put_in_cache base full.store })

  unfoldable pub thread_collect : (fuel : ℕ) → Store W → Option (Store W)
  thread_collect zero st = none
  thread_collect (suc fuel) st =
      let r = cache_pop 0 st in
      let rest = thread_collect fuel (free_popped r) in
      if r.segment == 0 then some r.store else rest

  abbrev give_back : (base : ℕ) → Store W → Store W
  give_back base st = os_free base (st.segments base).segment_size st

  unfoldable pub segment_free :
      Memory W → Options → (fuel base : ℕ) → (force : Bool) → Store W → Option (Store W)
  segment_free mem opt fuel base force st =
      let force_reset = force && rel.abandoned_page_reset in
      let st' =
        remove_from_free_queue base
          (pages_reset_remove_all_in_segment mem opt force_reset base st) in
      if force then some (give_back base st') else do
        kept ← cache_push fuel base st'
        if kept.value then some kept.store else some (give_back base kept.store)
