-- ===== src/Segment/Tests.antt =====
-- A segment of sixteen small pages at the address 131072, with no page in use and none committed.
mod Abandoning
use mimalloc_mc.Prelude.{ltb}
use mimalloc_mc.Segment.Store.{Options}
use mimalloc_mc.Prelude.{
  ℕ, ◌+◌, ◌<◌, ◌≡◌, refl, List, [], ◌∷◌, true, false, arith, ◌==◌, if◌then◌else◌, none, some,
}
use mimalloc_mc.Prelude.Chain.{count}
use mimalloc_mc.Page.{Page}
use mimalloc_mc.Links.{Ends, IsQueue}
use mimalloc_mc.Segment.{
  PageKind, small_page, medium_page, large_page, huge_page, Segment, is_huge, is_at_most_medium,
  adjust_start, raw_page_start, page_start, ptr_segment, page_idx_of,
}
use mimalloc_mc.Segment.Layout.{IsLaidOut, ptr-page_start}
use mimalloc_mc.Segment.Store.{Store, Memory}
use mimalloc_mc.Segment.Reset.{pages_reset_remove, page_not_in_queue}
use mimalloc_mc.Segment.Claim.{
  move_back, page_clear, page_claim, find_free, find_free_from, commit_page,
}
use mimalloc_mc.Segment.Invariant.{Lists, IsSegment, BelongsTo, IsStore, has_room, ends_of}
use mimalloc_mc.Segment.Cache.{Release, put_in_cache, thread_collect}
use mimalloc_mc.Segment.Released.{IsReleased}
use mimalloc_mc.Segment.Cached.{IsCache, thread_collect-IsReleased}
use mimalloc_mc.Segment.Find.{Found, find_free-Found, find_free-some}

abbrev pub home : ℕ
home = 131072

abbrev free_page : ℕ → Page
free_page i = record {
  segment_idx = i;
  segment_in_use = false;
  is_reset = false;
  is_committed = false;
  is_zero_init = false;
  capacity = 0;
  reserved = 0;
  in_full = false;
  has_aligned = false;
  is_zero = false;
  retire_expire = 0;
  free = 0;
  used = 0;
  xblock_size = 0;
  local_free = 0;
  xthread_free = 0;
  xheap = 0;
  next = 0;
  prev = 0;
}

abbrev pub segment_with : (used : ℕ) → (ℕ → Page) → Segment
segment_with used pages = record {
  memid = 0;
  mem_is_fixed = false;
  mem_is_committed = false;
  abandoned_next = 0;
  abandoned = 0;
  abandoned_visits = 0;
  used = used;
  capacity = 16;
  segment_size = 131072;
  segment_info_size = 1280;
  cookie = 0;
  page_shift = 13;
  thread_id = 1;
  page_kind = small_page;
  pages = pages;
}

abbrev small_segment : Segment
small_segment = segment_with 0 free_page

small_segment-IsLaidOut : IsLaidOut home small_segment
unfolding is_huge
small_segment-IsLaidOut = record {
  aligned = refl;
  fits = omega arith;
  regular = refl;
  shift = omega arith;
  full = refl;
  info = omega arith;
  indexed = λ i h. refl;
}

first_page_area : (page_start home small_segment (free_page 0) 48).start ≡ 132384
unfolding page_start raw_page_start adjust_start is_huge is_at_most_medium
first_page_area = refl

abbrev first_index : ℕ
first_index = 0

abbrev some_bytes : ℕ
some_bytes = 48

third_page_start : (page_start home small_segment (free_page 3) 48).start ≡ 155648
unfolding page_start raw_page_start adjust_start is_huge is_at_most_medium
third_page_start = refl

third_page_size : (page_start home small_segment (free_page 3) 48).size ≡ 8192
unfolding page_start raw_page_start adjust_start is_huge is_at_most_medium
third_page_size = refl

ptr-page_start_example : (ptr_segment 155744 ≡ home) × (page_idx_of home small_segment 155744 ≡ 3)
ptr-page_start_example =
    ptr-page_start small_segment-IsLaidOut 3 48 155744 (omega arith) (omega arith)
      (omega (arith, third_page_start)) (omega (arith, third_page_start, third_page_size))

abbrev pub one_segment : Lists
one_segment small_page = home ∷ []
one_segment medium_page = []
one_segment large_page = []
one_segment huge_page = []

abbrev pub owned_segments : List ℕ
owned_segments = home ∷ []

-- The memory counts its calls.
abbrev pub counting : Memory ℕ
counting = record {
  commit = λ start size n. record { ok = true; is_zero = true; os = n + 1 };
  unreset = λ start size n. record { ok = true; is_zero = false; os = n + 1 };
  reset = λ start size n. n + 1;
  clock_now = λ n. n;
}

-- A memory with nothing left.
abbrev exhausted : Memory ℕ
exhausted = record {
  commit = λ start size n. record { ok = false; is_zero = false; os = n };
  unreset = λ start size n. record { ok = false; is_zero = false; os = n };
  reset = λ start size n. n;
  clock_now = λ n. n;
}

abbrev no_ends : Ends
no_ends = record { first = 0; last = 0 }

abbrev pub store_with : Segment → Store ℕ
store_with s = record {
  segments = λ _. s;
  links = record { next = λ _. 0; prev = λ _. 0 };
  page_links = record { next = λ _. 0; prev = λ _. 0 };
  tld = record {
    small_free = record { first = home; last = home };
    medium_free = no_ends;
    pages_reset = no_ends;
    count = 1;
    peak_count = 1;
    current_size = 131072;
    peak_size = 131072;
    cache_count = 0;
    cache = 0;
  };
  os = 0;
}

small_segment-IsSegment : IsSegment small_segment
small_segment-IsSegment = record { counted = refl; small = omega arith }

abbrev fresh_store : Store ℕ
fresh_store = store_with small_segment

pub store_with-IsStore :
    (used : ℕ) (pages : ℕ → Page)
    → ltb used 16 ≡ true
    → IsSegment (segment_with used pages)
    → IsStore (store_with (segment_with used pages)) one_segment owned_segments
unfolding is_at_most_medium
store_with-IsStore used pages room v = record {
  queue = fresh_queue;
  listed = fresh_listed;
  only = fresh_only;
  segments = λ a m. v;
  not_null = refl;
}
  where
    fresh_queue :
        (k : PageKind)
        → is_at_most_medium k ≡ true
        → IsQueue
            (store_with (segment_with used pages)).links
            (ends_of k (store_with (segment_with used pages)).tld)
            (one_segment k)
    fresh_queue small_page h = record {
      linked = (refl, omega arith, refl, refl);
      ends = refl;
      once = λ a. ground arith;
    }
    fresh_queue medium_page h = record { linked = refl; ends = refl; once = λ a. omega arith }
    fresh_queue large_page h = cc h
    fresh_queue huge_page h = cc h

    fresh_listed :
        (k : PageKind) (a : ℕ)
        → BelongsTo
            (store_with (segment_with used pages))
            owned_segments
            (has_room (store_with (segment_with used pages)))
            k
            a
        → 0 < count a (one_segment k)
    fresh_listed small_page a b = b.0
    fresh_listed medium_page a b = cc b.1
    fresh_listed large_page a b = cc
    fresh_listed huge_page a b = cc

    fresh_only :
        (k : PageKind) (a : ℕ)
        → 0 < count a (one_segment k)
        → BelongsTo
            (store_with (segment_with used pages))
            owned_segments
            (has_room (store_with (segment_with used pages)))
            k
            a
    fresh_only small_page a m = (m, refl, refl, room)
    fresh_only medium_page a m = absurd (omega (arith, m))
    fresh_only large_page a m = absurd (omega (arith, m))
    fresh_only huge_page a m = absurd (omega (arith, m))

fresh_store-IsStore : IsStore fresh_store one_segment owned_segments
fresh_store-IsStore = store_with-IsStore 0 free_page refl small_segment-IsSegment

find_free_example :
    Found exhausted 0 home one_segment owned_segments fresh_store
      (find_free exhausted home fresh_store).store
      (find_free exhausted home fresh_store).value
find_free_example = find_free-Found exhausted home (omega arith) fresh_store fresh_store-IsStore

find_free-some_example : (i : ℕ) × ((find_free counting home fresh_store).value ≡ some i)
find_free-some_example =
    find_free-some counting (λ a n w. refl) home fresh_store small_segment-IsSegment (omega arith)

failed_claim : (find_free exhausted home fresh_store).value ≡ none
unfolding find_free find_free_from page_claim commit_page pages_reset_remove page_not_in_queue
failed_claim = refl

first_claim : (find_free counting home fresh_store).value ≡ some 0
unfolding find_free find_free_from page_claim commit_page pages_reset_remove page_not_in_queue
first_claim = refl

abbrev pub third_in_use : ℕ → Page
third_in_use i =
    if i == 2
    then record (free_page 2) { segment_in_use = true; is_committed = true }
    else free_page i

abbrev pub busy_store : Store ℕ
busy_store = store_with (segment_with 1 third_in_use)

pub busy_store-IsStore : IsStore busy_store one_segment owned_segments
busy_store-IsStore =
    store_with-IsStore 1 third_in_use refl (record { counted = refl; small = omega arith })

abbrev pub options : Options
options = record { page_reset = true; reset_delay = 100 }

-- A memory below that only counts what it gets back, and a cache of at most four segments.
abbrev pub release : Release ℕ
release = record {
  segment_cache = 4;
  reset_decommits = false;
  abandoned_page_reset = false;
  mem_free = λ base size memid committed reset w. w + 1;
}

abbrev cache_store : Store ℕ
cache_store = record fresh_store { tld = record (fresh_store.tld) { cache = 0; cache_count = 0 } }

abbrev cached_store : Store ℕ
cached_store = put_in_cache release home cache_store

cached_store-IsCache : IsCache cached_store (home ∷ [])
cached_store-IsCache = record {
  chain = (refl, omega arith, refl);
  counted = refl;
  fits = omega arith;
  once = λ a. ground arith;
}

thread_collect-IsReleased_example :
    (st : Store ℕ) × (thread_collect release 2 cached_store ≡ some st)
    × IsCache st []
    × IsReleased release cached_store st (home ∷ [])
thread_collect-IsReleased_example =
    thread_collect-IsReleased release 2 cached_store (home ∷ []) cached_store-IsCache (omega arith)
